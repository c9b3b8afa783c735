-- ===== src/Files/Io/Offsets.antt =====
-- What `sys_lseek`, `sys_read` and `sys_write` do to the offset, and that they leave the counts alone.
use longcat_os.Base.{
  ◌⊎◌, set-set, ◌<◌, ◌^◌, ℕ, none, some, Bool, true, false, ◌+◌, ◌≡◌, ◌≢◌, refl, arith, get_elem?,
  length-set, inl, inr, Option-cases, Bool-cases, subst, sym, ◌∙◌, ap, ℕ_discrete,
}
use longcat_os.Base.Int.{ℤ, pos, is_neg, ◌+ℤ◌}
use longcat_os.Base.Outcome.{ret, fail, Post, ◌>>=◌}
use longcat_os.Kernel.{Kernel, Handle, Proc, fd_free, slot, proc_at, set_slot, get_fd_lem}
use longcat_os.Files.{ft_get, valid_fd}
use longcat_os.Files.Refs.{
  refs, Inv, Entry, lt_of_slot, slot-set_self, slot-set_ne, slot_of_fd, fd-get, valid_fd-lt,
}
use longcat_os.Files.Dup.{ft_get_lem}
use longcat_os.Files.Io.{Vop, vop_err, vop_ok, lseek_target, sys_lseek, seek_set, seek_cur}

-- A new offset in a handle.
abbrev pub with_off : Kernel → ℕ → Handle → ℤ → Kernel
with_off k a h off = set_slot k a (some (record h { off = off }))

pub with_off-Inv :
    (extra : ℕ → ℕ) (k : Kernel) (a : ℕ) (h : Handle) (off : ℤ)
    → Inv extra k
    → slot k a ≡ some h
    → Inv extra (with_off k a h off)
with_off-Inv extra k a h off v es = record {
  sized = record {
    fhs_size = length-set k.fhs a _ ∙ v.sized.fhs_size;
    procs_size = v.sized.procs_size;
    fds_size = v.sized.fds_size;
  };
  balanced = λ j nj. elim (ℕ_discrete a j) [
    | yes e ↦
        subst (λ x. Entry (refs x k.procs + extra x) (slot (with_off k a h off) x)) e
          (subst (Entry (refs a k.procs + extra a))
            (sym (slot-set_self k a _ (lt_of_slot k a h es)))
            (subst (Entry (refs a k.procs + extra a)) es
              (v.balanced a (subst (λ x. x ≢ fd_free) (sym e) nj))))
    | no d ↦
        subst (Entry (refs j k.procs + extra j)) (sym (slot-set_ne k a j _ d)) (v.balanced j nj)
  ];
}

-- The new offset is not negative.
pub lseek_target-nonneg :
    (old delta : ℤ) (whence : ℕ) (st : Vop ℤ) {off : ℤ}
    → lseek_target old delta whence st ≡ vop_ok off
    → is_neg off ≡ false
unfolding lseek_target ◌+ℤ◌
lseek_target-nonneg old delta whence st e = ground arith

-- `ft_get` finds no handle, or that of a descriptor in use.
pub ft_get_cases :
    (extra : ℕ → ℕ) (k : Kernel) (cur : ℕ) (p : Proc) (fd : ℤ)
    → Inv extra k
    → proc_at k cur ≡ some p
    → (ft_get fd cur k ≡ ret none k)
      ⊎ ((a : ℕ) × (h : Handle) × (ft_get fd cur k ≡ ret (some a) k) × (slot k a ≡ some h))
unfolding ft_get
ft_get_cases extra k cur p fd v ep = elim (Option-cases (valid_fd fd)) [
  | inl e ↦ inl (rw (e, ft_get))
  | inr (n, en) ↦
      let (a, ea) = fd-get extra k cur p n v ep (valid_fd-lt fd n en).0 in
      elim (ℕ_discrete a fd_free) [
        | yes f ↦ inl (ground (arith, get_fd_lem k cur n a p ep ea))
        | no f ↦
            let (h, eh) = slot_of_fd extra k v.balanced cur p n a ep ea f in
            inr (a, h, ground (arith, get_fd_lem k cur n a p ep ea), eh)
      ]
]

-- What a successful seek leaves: the value is not negative, it is the offset of a handle of the
-- table, and the counts are as before.
abbrev pub Sought : (ℕ → ℕ) → Kernel → ℤ → Kernel → Type 0
Sought extra k off k' =
    Inv extra k'
    × (is_neg off ≡ false)
    × (a : ℕ) × (h : Handle) × (slot k a ≡ some h)
    × (k' ≡ with_off k a h off)

module _ (isseekable : ℕ → Bool) (stat : ℕ → Vop ℤ) (extra : ℕ → ℕ) (k : Kernel) (v : Inv extra k)
    (cur : ℕ) (p : Proc) (ep : proc_at k cur ≡ some p) (fd : ℤ) where
  -- The call, where the descriptor has a handle on a seekable file.
  sys_lseek_at :
      (delta : ℤ) (whence a : ℕ) (h : Handle)
      → ft_get fd cur k ≡ ret (some a) k
      → slot k a ≡ some h
      → isseekable h.file ≡ true
      → sys_lseek isseekable stat cur fd delta whence k
        ≡ elim (lseek_target h.off delta whence (stat h.file)) [
          | vop_err e ↦ fail e k
          | vop_ok off ↦ ret off (with_off k a h off)
        ]
  unfolding sys_lseek
  sys_lseek_at delta whence a h eg es ek = ground arith

  lseek_target-Post :
      (delta : ℤ) (whence a : ℕ) (h : Handle)
      → slot k a ≡ some h
      → (r : Vop ℤ) → lseek_target h.off delta whence (stat h.file) ≡ r
      → Post
          (Sought extra k)
          (λ k'. k' ≡ k)
          (elim r [ vop_err e ↦ fail e k | vop_ok off ↦ ret off (with_off k a h off) ])
  lseek_target-Post delta whence a h es (vop_err e) eq = refl
  lseek_target-Post delta whence a h es (vop_ok off) eq = (
    with_off-Inv extra k a h off v es,
    lseek_target-nonneg h.off delta whence (stat h.file) eq,
    a,
    h,
    es,
    refl,
  )

  -- `sys_lseek` never panics. Where it succeeds its value is not negative, a handle of the table
  -- has that value for its offset, and every count is as before; where it fails nothing changed.
  pub sys_lseek-Post :
      (delta : ℤ) (whence : ℕ)
      → Post (Sought extra k) (λ k'. k' ≡ k) (sys_lseek isseekable stat cur fd delta whence k)
  unfolding sys_lseek
  sys_lseek-Post delta whence = elim (ft_get_cases extra k cur p fd v ep) [
    | inl e ↦ rw (e, ◌>>=◌) refl
    | inr (a, h, e, es) ↦ elim (Bool-cases (isseekable h.file)) [
      | inl s ↦
          subst (Post (Sought extra k) (λ k'. k' ≡ k)) (sym (sys_lseek_at delta whence a h e es s))
            (lseek_target-Post delta whence a h es _ refl)
      | inr s ↦ rw (e, ◌>>=◌, es, s) refl
    ]
  ]

module _ (isseekable : ℕ → Bool) (stat : ℕ → Vop ℤ) (extra : ℕ → ℕ) (k : Kernel) (v : Inv extra k)
    (cur : ℕ) (p : Proc) (ep : proc_at k cur ≡ some p) (fd : ℤ) (n a : ℕ) (h : Handle)
    (en : valid_fd fd ≡ some n) (ea : get_elem? p.fds n ≡ some a) (es : slot k a ≡ some h)
    (na : a ≢ fd_free) (ek : isseekable h.file ≡ true) where
  lseek_set_target : (m : ℕ) → lseek_target h.off (pos m) seek_set (stat h.file) ≡ vop_ok (pos m)
  unfolding lseek_target
  lseek_set_target m = refl

  lseek_tell_target :
      (m : ℕ) → m < 2 ^ 63 → lseek_target (pos m) (pos 0) seek_cur (stat h.file) ≡ vop_ok (pos m)
  unfolding lseek_target ◌+ℤ◌
  lseek_tell_target m lm = ground arith

  -- Seeking an open, seekable file to an offset that fits `off_t` succeeds, and asking for the
  -- position afterwards, by a seek of 0 from there, gives that offset and changes nothing.
  pub sys_lseek_tell :
      (m : ℕ)
      → m < 2 ^ 63
      → (k' : Kernel) × (sys_lseek isseekable stat cur fd (pos m) seek_set k ≡ ret (pos m) k')
        × (sys_lseek isseekable stat cur fd (pos 0) seek_cur k' ≡ ret (pos m) k')
  sys_lseek_tell m lm =
      let h' : Handle = record h { off = pos m } in
      let k' : Kernel = with_off k a h (pos m) in
      let v' : Inv extra k' = with_off-Inv extra k a h (pos m) v es in
      let es' : slot k' a ≡ some h' = slot-set_self k a (some h') (lt_of_slot k a h es) in
      let eg = ft_get_lem extra k cur p fd n a v ep en ea na in
      let eg' = ft_get_lem extra k' cur p fd n a v' ep en ea na in
      (
        k',
        sys_lseek_at isseekable stat extra k v cur p ep fd (pos m) seek_set a h eg es ek
            ∙ rw (lseek_set_target m),
        sys_lseek_at isseekable stat extra k' v' cur p ep fd (pos 0) seek_cur a h' eg' es' ek
            ∙ rw (lseek_tell_target m lm) (
                ap (λ x. ret (pos m) (record k { fhs = x })) (set-set k.fhs a (some h') (some h'))),
      )
