-- ===== src/Files/Io/Transfers.antt =====
-- What `sys_read` and `sys_write` come to.
use longcat_os.Base.{
  ◌≤◌, dec_lt, ◌⊎◌, ◌<◌, ◌^◌, ◌-◌, ℕ, none, some, Bool, true, false, ◌+◌, ◌%◌, ◌≡◌, ◌≢◌, refl,
  arith, get_elem?, inl, inr, if◌then◌else◌, Bool-cases, subst, sym, ◌∙◌, ap, ℕ_discrete,
}
use longcat_os.Base.Int.{ℤ, pos, negsuc}
use longcat_os.Base.Outcome.{Outcome, ret, fail, ebadf, ◌>>=◌}
use longcat_os.Kernel.{open_max, Kernel, Handle, Proc, fd_free, slot, proc_at, get_fd_lem}
use longcat_os.Files.{ft_get}
use longcat_os.Files.Refs.{Inv, slot_of_fd, fd-get}
use longcat_os.Files.Io.{to_size, Vop, vop_err, vop_ok, Uio, readwrite, refuses}
use longcat_os.Files.Io.Offsets.{with_off, with_off-Inv}

-- Descriptor `fd` names the handle `h` in slot `a`.
pub record Names (k : Kernel) (p : Proc) (fd : ℤ) (a : ℕ) (h : Handle) : Type 0 where
  pub number : ℕ
  pub same : fd ≡ pos number
  pub below : number < open_max
  pub at : get_elem? p.fds number ≡ some a
  pub used : a ≢ fd_free
  pub held : slot k a ≡ some h

-- It is out of range or not in use.
abbrev pub Unnamed : Proc → ℤ → Type 0
Unnamed p fd = (n : ℕ) → fd ≡ pos n → n < open_max → get_elem? p.fds n ≡ some fd_free

pub ft_get-Names :
    (extra : ℕ → ℕ) (k : Kernel) (cur : ℕ) (p : Proc) (fd : ℤ)
    → Inv extra k
    → proc_at k cur ≡ some p
    → ((ft_get fd cur k ≡ ret none k) × Unnamed p fd)
      ⊎ ((a : ℕ) × (h : Handle) × (ft_get fd cur k ≡ ret (some a) k) × Names k p fd a h)
unfolding ft_get
ft_get-Names extra k cur p (negsuc n) v ep = inl (refl, λ m e. absurd (cc))
ft_get-Names extra k cur p (pos n) v ep = elim (dec_lt n open_max) [
  | no l ↦ inl (ground (arith, l), λ m e b. absurd (let q : n ≡ m = cc in omega arith))
  | yes l ↦
      (let (a, ea) = fd-get extra k cur p n v ep l in
        elim (ℕ_discrete a fd_free) [
          | yes f ↦ inl (
            ground (arith, l, get_fd_lem k cur n a p ep ea),
            λ m e b. (let q : n ≡ m = cc in ap (get_elem? p.fds) (sym q) ∙ ea ∙ ap some f),
          )
          | no f ↦
              (let (h, eh) = slot_of_fd extra k v.balanced cur p n a ep ea f in
                inr (
                  a,
                  h,
                  ground (arith, l, get_fd_lem k cur n a p ep ea, eh),
                  record { number = n; same = refl; below = l; at = ea; used = f; held = eh },
                ))
        ])
]

abbrev pub o_rdonly : ℕ
o_rdonly = 0

abbrev pub o_wronly : ℕ
o_wronly = 1

-- A handle that is only for reading cannot be written (`true`), one that is only for writing cannot be
-- read (`false`).
abbrev pub Forbidden : Bool → ℕ → Type 0
Forbidden true flags = flags % 4 ≡ o_rdonly
Forbidden false flags = flags % 4 ≡ o_wronly

refuses-Forbidden : (w : Bool) (flags : ℕ) → refuses w flags ≡ true → Forbidden w flags
refuses-Forbidden true flags e = ground arith
refuses-Forbidden false flags e = ground arith

refuses-allowed : (w : Bool) (flags : ℕ) → refuses w flags ≡ false → ¬ Forbidden w flags
refuses-allowed true flags e f = ground arith
refuses-allowed false flags e f = ground arith

-- What `o` must be, from the vnode's answer and whether it is seekable: its error with nothing
-- changed; or the number of bytes that were moved, with the new offset in the handle and every count
-- as before; or, without an offset to keep, the vnode's offset with nothing changed.
abbrev pub Transfers :
    (ℕ → ℕ) → Kernel → ℕ → Handle → ℕ → Bool → Vop Uio → Outcome Kernel ℕ → Type 0
Transfers extra k a h nbytes seekable (vop_err e) o = o ≡ fail e k
Transfers extra k a h nbytes true (vop_ok ku) o =
    (c : ℕ) × (o ≡ ret c (with_off k a h ku.offset))
    × (ku.resid ≤ nbytes → c + ku.resid ≡ nbytes)
    × Inv extra (with_off k a h ku.offset)
Transfers extra k a h nbytes false (vop_ok ku) o =
    (c : ℕ) × (o ≡ ret c k) × ((n : ℕ) → ku.offset ≡ pos n → n < 2 ^ 32 → c ≡ n)

-- The end of `readwrite`
abbrev transferred : Bool → Kernel → ℕ → ℕ → Handle → Vop Uio → Outcome Kernel ℕ
transferred seekable k nbytes a h (vop_err e) = fail e k
transferred seekable k nbytes a h (vop_ok ku) =
    if seekable
    then ret ((nbytes + 2 ^ 32 - ku.resid) % 2 ^ 32) (with_off k a h ku.offset)
    else ret (to_size ku.offset) k

to_size_lem : (o : ℤ) (n : ℕ) → o ≡ pos n → n < 2 ^ 32 → to_size o ≡ n
to_size_lem o n e l = ap to_size e ∙ omega arith

transferred-Transfers :
    (extra : ℕ → ℕ) (k : Kernel) (a : ℕ) (h : Handle) (nbytes : ℕ) (seekable : Bool) (r : Vop Uio)
    → Inv extra k
    → slot k a ≡ some h
    → nbytes < 2 ^ 32
    → Transfers extra k a h nbytes seekable r (transferred seekable k nbytes a h r)
transferred-Transfers extra k a h nbytes seekable (vop_err e) v es l = refl
transferred-Transfers extra k a h nbytes true (vop_ok ku) v es l =
    (_, refl, λ m. omega arith, with_off-Inv extra k a h ku.offset v es)
transferred-Transfers extra k a h nbytes false (vop_ok ku) v es l =
    (_, refl, λ n e m. to_size_lem ku.offset n e m)

module _ (isseekable : ℕ → Bool) (vop : ℕ → ℤ → ℕ → Bool → Vop Uio) where
  readwrite_at :
      (k : Kernel) (cur : ℕ) (fd : ℤ) (nbytes : ℕ) (w : Bool) (a : ℕ) (h : Handle)
      → ft_get fd cur k ≡ ret (some a) k
      → slot k a ≡ some h
      → refuses w h.open_flags ≡ false
      → readwrite isseekable vop cur fd nbytes w k
        ≡ transferred (isseekable h.file) k nbytes a h (vop h.file h.off nbytes w)
  unfolding readwrite
  readwrite_at k cur fd nbytes w a h e es r = ground arith

  -- The three ends of a read or a write, `o`
  abbrev pub ReadsOrWrites : (ℕ → ℕ) → Kernel → Proc → ℤ → ℕ → Bool → Outcome Kernel ℕ → Type 0
  ReadsOrWrites extra k p fd nbytes w o =
      (Unnamed p fd × (o ≡ fail ebadf k))
      ⊎ ((a : ℕ) × (h : Handle) × Names k p fd a h
          × ((Forbidden w h.open_flags × (o ≡ fail ebadf k))
              ⊎ ((¬ Forbidden w h.open_flags)
                  × Transfers extra k a h nbytes (isseekable h.file) (vop h.file h.off nbytes w)
                      o)))

  -- A read or a write ends in one of three ways: EBADF with nothing changed, for a descriptor that
  -- is out of range or not in use; EBADF with nothing changed, for one whose handle is only for
  -- writing or only for reading; or, where its handle allows the access, the answer of the vnode:
  -- its error with nothing changed, or on a seekable vnode the number of bytes that were moved, with
  -- the new offset of the vnode in the handle and every count as before, or on another vnode its
  -- offset, with nothing changed.
  pub readwrite-ReadsOrWrites :
      (extra : ℕ → ℕ) (k : Kernel)
      → Inv extra k
      → (cur : ℕ) (p : Proc) → proc_at k cur ≡ some p
      → (fd : ℤ) (nbytes : ℕ) (w : Bool) → nbytes < 2 ^ 32
      → ReadsOrWrites extra k p fd nbytes w (readwrite isseekable vop cur fd nbytes w k)
  unfolding readwrite
  readwrite-ReadsOrWrites extra k v cur p ep fd nbytes w l =
      elim (ft_get-Names extra k cur p fd v ep) [
        | inl (e, u) ↦ inl (u, rw (e, ◌>>=◌) refl)
        | inr (a, h, e, n) ↦
            (let es = n.held in
              inr (
                a,
                h,
                n,
                elim (Bool-cases (refuses w h.open_flags)) [
                  | inl r ↦ inl (refuses-Forbidden w h.open_flags r, ground arith)
                  | inr r ↦ inr (
                    refuses-allowed w h.open_flags r,
                    subst
                        (Transfers extra k a h nbytes (isseekable h.file)
                          (vop h.file h.off nbytes w))
                        (sym (readwrite_at k cur fd nbytes w a h e es r))
                        (transferred-Transfers extra k a h nbytes (isseekable h.file)
                          (vop h.file h.off nbytes w) v es l),
                  )
                ],
              ))
      ]
