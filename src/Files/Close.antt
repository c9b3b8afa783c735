-- ===== src/Files/Close.antt =====
-- `fh_close`, `ft_close` and `sys_close` against the reference counts.
use longcat_os.Base.{
  ℕ_discrete, ℕ, Option, none, some, ◌+◌, ◌-◌, ◌<◌, ◌≡◌, ◌≢◌, arith, get_elem?, set, inl, inr, ltb,
  Bool-cases, Option-cases, ◌==◌, subst, if◌then◌else◌, List, ◌∷◌,
}
use longcat_os.Base.Int.{ℤ}
use longcat_os.Base.Outcome.{ebadf, ret, fail}
use longcat_os.Kernel.{
  Kernel, Handle, Proc, open_max, fd_free, slot, proc_at, set_slot, set_proc, set_fd_lem,
  get_fd_lem,
}
use longcat_os.Files.{fh_close, drop_fd, ft_close, sys_close, valid_fd}
use longcat_os.Files.Move.{moved-Inv, closed-Inv}
use longcat_os.Files.Refs.{refs, Inv, Entry, slot_of_fd, lt_of_slot, fd-get, valid_fd-lt}

-- What the slot holds after a close, and the vnodes that are handed to `vfs_close`.
abbrev pub closed_slot : Handle → Option Handle
closed_slot h = if ltb 1 h.refcount then some (record h { refcount = h.refcount - 1 }) else none

abbrev pub closed_log : Handle → List ℕ → List ℕ
closed_log h l = if ltb 1 h.refcount then l else h.file ∷ l

-- The tables after descriptor `n` of process `i` is closed.
abbrev pub dropped : Kernel → ℕ → Proc → ℕ → ℕ → Handle → Kernel
dropped k i p n a h =
    set_proc (set_slot (record k { closed = closed_log h k.closed }) a (closed_slot h)) i
      (some (record p { fds = set p.fds n fd_free }))

pub drop_fd_lem :
    (k : Kernel) (i : ℕ) (p : Proc) (n a : ℕ) (h : Handle)
    → proc_at k i ≡ some p
    → drop_fd i n a h k ≡ ret tt (dropped k i p n a h)
unfolding fh_close
drop_fd_lem k i p n a h e = elim (Bool-cases (ltb 1 h.refcount)) [
  | inl t ↦
      let k' : Kernel = set_slot k a (some (record h { refcount = h.refcount - 1 })) in
      rw (t, set_fd_lem k' i n fd_free p e)
  | inr t ↦
      let k' : Kernel = set_slot (record k { closed = h.file ∷ k.closed }) a none in
      rw (t, set_fd_lem k' i n fd_free p e)
]

Entry-closed : (m n : ℕ) (h : Handle) → m + 1 ≡ n → Entry n (some h) → Entry m (closed_slot h)
Entry-closed m n h e b = ground arith

pub dropped-Inv :
    (extra : ℕ → ℕ) (k : Kernel) (i n a : ℕ) (p : Proc) (h : Handle)
    → Inv extra k
    → proc_at k i ≡ some p
    → get_elem? p.fds n ≡ some a
    → slot k a ≡ some h
    → a ≢ fd_free
    → Inv extra (dropped k i p n a h)
dropped-Inv extra k i n a p h v ep ef es ne =
    moved-Inv extra extra (record k { closed = closed_log h k.closed }) (closed-Inv extra k _ v) i p
      n a fd_free ep ef a (closed_slot h) (lt_of_slot k a h es)
      (λ m m' e b.
        Entry-closed (m' + extra a) (m + extra a) h (ground arith)
          (subst (Entry (m + extra a)) es b))
      (λ j nj d. ground arith) ne

module _ (k : Kernel) (cur : ℕ) (p : Proc) (ep : proc_at k cur ≡ some p) where
  -- What `ft_close` does to a descriptor in use.
  pub ft_close_lem :
      (n a : ℕ) (h : Handle)
      → get_elem? p.fds n ≡ some a
      → slot k a ≡ some h
      → n < open_max
      → ft_close cur n k ≡ ret tt (dropped k cur p n a h)
  unfolding ft_close
  ft_close_lem n a h ef es ne =
      ground (arith, get_fd_lem k cur n a p ep ef, drop_fd_lem k cur p n a h ep)

  -- `sys_close` refuses a descriptor out of range, and one that is not in use.
  pub sys_close_bad : (fd : ℤ) → valid_fd fd ≡ none → sys_close cur fd k ≡ fail ebadf k
  unfolding sys_close
  sys_close_bad fd e = rw (e, sys_close)

  pub sys_close_unused :
      (fd : ℤ) (n : ℕ)
      → valid_fd fd ≡ some n
      → get_elem? p.fds n ≡ some fd_free
      → sys_close cur fd k ≡ fail ebadf k
  unfolding sys_close
  sys_close_unused fd n e ef = ground (arith, get_fd_lem k cur n fd_free p ep ef)

  pub sys_close_used :
      (fd : ℤ) (n a : ℕ) (h : Handle)
      → valid_fd fd ≡ some n
      → get_elem? p.fds n ≡ some a
      → a ≢ fd_free
      → slot k a ≡ some h
      → sys_close cur fd k ≡ ret tt (dropped k cur p n a h)
  unfolding sys_close
  sys_close_used fd n a h e ef ne es =
      ground (arith, get_fd_lem k cur n a p ep ef, drop_fd_lem k cur p n a h ep)

-- How `sys_close` ends: it refuses the descriptor, or drops its reference.
pub data Closes (extra : ℕ → ℕ) (k : Kernel) (cur : ℕ) (p : Proc) (fd : ℤ) : Type 0 where
  out_of_range : valid_fd fd ≡ none → sys_close cur fd k ≡ fail ebadf k → Closes extra k cur p fd
  not_open :
      (n : ℕ)
      → valid_fd fd ≡ some n
      → get_elem? p.fds n ≡ some fd_free
      → sys_close cur fd k ≡ fail ebadf k
      → Closes extra k cur p fd
  closes :
      (n a : ℕ) (h : Handle)
      → valid_fd fd ≡ some n
      → get_elem? p.fds n ≡ some a
      → slot k a ≡ some h
      → sys_close cur fd k ≡ ret tt (dropped k cur p n a h)
      → Inv extra (dropped k cur p n a h)
      → (closed_log h k.closed
          ≡ (if refs a k.procs + extra a == 1 then h.file ∷ k.closed else k.closed))
      → Closes extra k cur p fd

closed_log_lem :
    (h : Handle) (l : List ℕ) (n : ℕ)
    → Entry n (some h)
    → closed_log h l ≡ (if n == 1 then h.file ∷ l else l)
closed_log_lem h l n e = ground arith

-- `sys_close` by a process in the table ends in one of three ways: `EBADF` with nothing changed for
-- a descriptor out of range, the same for one that is not in use, and otherwise success, where the
-- descriptor is freed, the counts stay exact, and the vnode is closed exactly if no other reference
-- to its handle is left. So it never panics on a NULL handle.
pub sys_close-Closes :
    (extra : ℕ → ℕ) (k : Kernel) (cur : ℕ) (p : Proc) (fd : ℤ)
    → Inv extra k
    → proc_at k cur ≡ some p
    → Closes extra k cur p fd
sys_close-Closes extra k cur p fd v ep = elim (Option-cases (valid_fd fd)) [
  | inl e ↦ out_of_range e (sys_close_bad k cur p ep fd e)
  | inr (n, en) ↦
      let (a, ea) = fd-get extra k cur p n v ep (valid_fd-lt fd n en).0 in
      elim (ℕ_discrete a fd_free) [
        | yes f ↦
            let ef : get_elem? p.fds n ≡ some fd_free =
              subst (λ x. get_elem? p.fds n ≡ some x) f ea in
            not_open n en ef (sys_close_unused k cur p ep fd n en ef)
        | no f ↦
            let (h, eh) = slot_of_fd extra k v.balanced cur p n a ep ea f in
            closes n a h en ea eh (sys_close_used k cur p ep fd n a h en ea f eh)
              (dropped-Inv extra k cur n a p h v ep ea eh f)
              (closed_log_lem h k.closed _
                (subst (Entry (refs a k.procs + extra a)) eh (v.balanced a f)))
      ]
]
