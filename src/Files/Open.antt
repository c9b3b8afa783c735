-- ===== src/Files/Open.antt =====
-- `sys_open` against the reference counts, and its two searches.
use longcat_os.Base.{
  ℕ, zero, suc, Option, none, some, List, [], ◌∷◌, Bool, true, false, ◌+◌, ◌%◌, ◌<◌, ◌≡◌, ◌≢◌, refl,
  arith, get_elem?, set, inl, inr, Option-cases, lt-length_of_get, subst, ap, get_elem?-set_self,
  get_elem?-set_ne, sym,
}
use longcat_os.Base.Int.{pos}
use longcat_os.Base.Outcome.{◌>>=◌, ret, Post}
use longcat_os.Kernel.{
  Kernel, Handle, Proc, fd_free, slot, proc_at, set_slot, join, set_fd_lem, get_fd_lem,
  the_proc_lem,
}
use longcat_os.Files.{fh_init}
use longcat_os.Files.Calls.{sys_open, open_at, first_free, first_null, VfsOpen, refused, opened}
use longcat_os.Files.Move.{moved, moved-Inv}
use longcat_os.Files.Refs.{Inv, Entry, proc_at-set_self, slot-set_self}

-- The search finds the lowest free descriptor.
pub first_free-free : (xs : List ℕ) (i : ℕ) → first_free xs ≡ some i → get_elem? xs i ≡ some fd_free
unfolding first_free
first_free-free [] i e = absurd (cc)
first_free-free (x ∷ xs) zero e = ground arith
first_free-free (x ∷ xs) (suc i) e = first_free-free xs i (ground arith)

pub first_free-least :
    (xs : List ℕ) (i j : ℕ) → first_free xs ≡ some i → j < i → get_elem? xs j ≢ some fd_free
unfolding first_free
first_free-least [] i j e h = absurd (cc)
first_free-least (x ∷ xs) zero j e h = absurd (omega arith)
first_free-least (x ∷ xs) (suc i) zero e h = ground arith
first_free-least (x ∷ xs) (suc i) (suc j) e h = first_free-least xs i j (ground arith) (omega arith)

pub first_free-none : (xs : List ℕ) (j : ℕ) → first_free xs ≡ none → get_elem? xs j ≢ some fd_free
unfolding first_free
first_free-none [] j e = λ h. cc
first_free-none (x ∷ xs) zero e = ground arith
first_free-none (x ∷ xs) (suc j) e = first_free-none xs j (ground arith)

pub first_null-null :
    (hs : List (Option Handle)) (i : ℕ) → first_null hs ≡ some i → get_elem? hs i ≡ some none
unfolding first_null
first_null-null [] i e = absurd (cc)
first_null-null (none ∷ hs) zero e = refl
first_null-null (none ∷ hs) (suc i) e = absurd (ground arith)
first_null-null (some h ∷ hs) zero e = absurd (ground arith)
first_null-null (some h ∷ hs) (suc i) e = first_null-null hs i (ground arith)

-- The handle that a successful open makes, and the tables that it leaves.
abbrev pub fresh : ℕ → ℕ → Handle
fresh vn flags = record { file = vn; off = pos 0; refcount = 1; open_flags = flags % 4 }

abbrev pub open_result : Kernel → ℕ → Proc → ℕ → ℕ → ℕ → ℕ → Kernel
open_result k cur p fd a vn flags = moved k cur p fd a a (some (fresh vn flags))

open_result-Inv :
    (extra : ℕ → ℕ) (k : Kernel) (cur fd a vn flags : ℕ) (p : Proc)
    → Inv extra k
    → proc_at k cur ≡ some p
    → get_elem? p.fds fd ≡ some fd_free
    → get_elem? k.fhs a ≡ some none
    → Inv extra (open_result k cur p fd a vn flags)
open_result-Inv extra k cur fd a vn flags p v ep ef ea =
    moved-Inv extra extra k v cur p fd fd_free a ep ef a _ (lt-length_of_get k.fhs a ea)
      (λ m m' e b. ground (
        arith,
        subst (Entry (m + extra a)) (ap join ea) b,
        lt-length_of_get k.fhs a ea,
        v.sized.fhs_size,
      ))
      (λ j nj d. ground arith) (omega (arith, lt-length_of_get k.fhs a ea, v.sized.fhs_size))

-- Where both searches succeed, and so do the copy, `vfs_open` and the allocations.
open_at_lem :
    (k : Kernel) (cur fd a flags vn : ℕ) (p : Proc)
    → proc_at k cur ≡ some p
    → get_elem? p.fds fd ≡ some fd_free
    → a < 255
    → open_at cur fd a flags true (opened vn) true k ≡ ret fd (open_result k cur p fd a vn flags)
unfolding open_at fh_init
open_at_lem k cur fd a flags vn p ep ef la =
    let k₁ : Kernel = set_slot k a (some (fresh vn flags)) in
    ground (arith, get_fd_lem k₁ cur fd fd_free p ep ef, set_fd_lem k₁ cur fd a p ep)

-- What a successful `sys_open` leaves: the lowest free descriptor names a slot that was NULL, which
-- holds a new handle with offset 0 and one reference; the caller's other descriptors are as before.
pub record OpensTo (extra : ℕ → ℕ) (k : Kernel) (cur : ℕ) (p : Proc) (vn flags fd : ℕ) (k' : Kernel)
    : Type 0 where
  pub inv : Inv extra k'
  pub was_free : get_elem? p.fds fd ≡ some fd_free
  pub lowest : (j : ℕ) → j < fd → get_elem? p.fds j ≢ some fd_free
  pub index : ℕ
  pub was_null : slot k index ≡ none
  pub caller : Proc
  pub at : proc_at k' cur ≡ some caller
  pub new : get_elem? caller.fds fd ≡ some index
  pub others : (j : ℕ) → fd ≢ j → get_elem? caller.fds j ≡ get_elem? p.fds j
  pub handle : slot k' index ≡ some (fresh vn flags)

-- The tables are as they were.
abbrev pub SameTables : Kernel → Kernel → Type 0
SameTables k k' = (k'.fhs ≡ k.fhs) × (k'.procs ≡ k.procs)

-- `vfs_open` gave the vnode `vn`, and the call opened it.
abbrev pub OpensVnode : (ℕ → ℕ) → Kernel → ℕ → Proc → ℕ → VfsOpen → ℕ → Kernel → Type 0
OpensVnode extra k cur p flags (refused e) fd k' = ⊥
OpensVnode extra k cur p flags (opened vn) fd k' = OpensTo extra k cur p vn flags fd k'

module _ (extra : ℕ → ℕ) (k : Kernel) (v : Inv extra k) (cur flags : ℕ) (p : Proc)
    (ep : proc_at k cur ≡ some p) where
  open_result-OpensTo :
      (fd a vn : ℕ)
      → first_free p.fds ≡ some fd
      → first_null k.fhs ≡ some a
      → OpensTo extra k cur p vn flags fd (open_result k cur p fd a vn flags)
  open_result-OpensTo fd a vn ef ea =
      let ff = first_free-free p.fds fd ef in
      let fa = first_null-null k.fhs a ea in
      record {
        inv = open_result-Inv extra k cur fd a vn flags p v ep ff fa;
        was_free = ff;
        lowest = λ j lt. first_free-least p.fds fd j ef lt;
        index = a;
        was_null = ap join fa;
        caller = record p { fds = set p.fds fd a };
        at = proc_at-set_self k cur p _ ep;
        new = get_elem?-set_self p.fds fd a (lt-length_of_get p.fds fd ff);
        others = λ j ne. get_elem?-set_ne p.fds fd j a ne;
        handle = slot-set_self k a _ (lt-length_of_get k.fhs a fa);
      }

  open_at-Post :
      (fd a : ℕ)
      → first_free p.fds ≡ some fd
      → first_null k.fhs ≡ some a
      → (copied : Bool) (vfs : VfsOpen) (mem : Bool)
      → Post
          (OpensVnode extra k cur p flags vfs)
          (SameTables k)
          (open_at cur fd a flags copied vfs mem k)
  unfolding open_at fh_init
  open_at-Post fd a ef ea false (refused e) mem = (refl, refl)
  open_at-Post fd a ef ea false (opened vn) mem = (refl, refl)
  open_at-Post fd a ef ea true (refused e) mem = (refl, refl)
  open_at-Post fd a ef ea true (opened vn) false = (refl, refl)
  open_at-Post fd a ef ea true (opened vn) true =
      subst (Post (OpensVnode extra k cur p flags (opened vn)) (SameTables k))
        (sym (
          open_at_lem k cur fd a flags vn p ep (first_free-free p.fds fd ef) (
            omega
              (arith, lt-length_of_get k.fhs a (first_null-null k.fhs a ea), v.sized.fhs_size))))
        (open_result-OpensTo fd a vn ef ea)

  -- `sys_open` never panics. Where it succeeds, `vfs_open` gave a vnode, and the lowest free
  -- descriptor names a new handle on it in a slot that was NULL, with offset 0, counted once;
  -- every count stays exact and the other descriptors are untouched. Where it fails, on any of its
  -- error paths, both tables are as they were.
  pub sys_open-Post :
      (copied : Bool) (vfs : VfsOpen) (mem : Bool)
      → Post
          (OpensVnode extra k cur p flags vfs)
          (SameTables k)
          (sys_open cur flags copied vfs mem k)
  unfolding sys_open
  sys_open-Post copied vfs mem = elim (Option-cases (first_free p.fds)) [
    | inl e ↦ rw (the_proc_lem k cur p ep, ◌>>=◌, e) (refl, refl)
    | inr (fd, e) ↦ elim (Option-cases (first_null k.fhs)) [
      | inl f ↦ rw (the_proc_lem k cur p ep, ◌>>=◌, e, f) (refl, refl)
      | inr (a, f) ↦
          rw (the_proc_lem k cur p ep, ◌>>=◌, e, f) (open_at-Post fd a e f copied vfs mem)
    ]
  ]
