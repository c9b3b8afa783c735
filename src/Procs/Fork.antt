-- ===== src/Procs/Fork.antt =====
-- The reference counts under `fork_common`: its steps.
use longcat_os.Base.{
  ℕ, Option, none, some, List, ◌+◌, ◌<◌, ◌≡◌, ◌≢◌, arith, length, get_elem?, set, length-set,
  lt-length_of_get, ap, subst, sym, ◌∙◌, ℕ_discrete, get_elem?-set_self, get_elem?-set_ne,
}
use longcat_os.Base.Count.{hit, count}
use longcat_os.Base.Outcome.{ret}
use longcat_os.Kernel.{
  Kernel, Handle, Proc, open_max, fd_free, slot, proc_at, set_slot, set_proc, set_fd_lem,
  get_fd_lem, join,
}
use longcat_os.Files.{fh_incref, ft_get}
use longcat_os.Files.Move.{moved, moved-Inv, written-Inv, Entry-eq}
use longcat_os.Files.Dup.{Few, refcount_bound}
use longcat_os.Files.Refs.{
  refs, Inv, Entry, Sized, Sized-set, refs-set_new, slot_of_fd, lt_of_slot, proc_at-set_self,
  slot-set_self, slot-set_ne, slot-ne-free,
}
use longcat_os.Procs.Calls.{copy_fd}

-- One more reference to slot `a`, which no descriptor holds.
pub incref-Inv :
    (extra : ℕ → ℕ) (k : Kernel) (a : ℕ) (h : Handle)
    → Inv extra k
    → slot k a ≡ some h
    → Inv (λ j. extra j + hit j a) (set_slot k a (some (record h { refcount = h.refcount + 1 })))
incref-Inv extra k a h v es = record {
  sized = record {
    fhs_size = length-set k.fhs a _ ∙ v.sized.fhs_size;
    procs_size = v.sized.procs_size;
    fds_size = v.sized.fds_size;
  };
  balanced = λ j nj. elim (ℕ_discrete a j) [
    | yes e ↦
        subst (λ x. Entry (refs x k.procs + (extra x + hit x a)) (slot k' x)) e
          (subst (Entry (refs a k.procs + (extra a + hit a a)))
            (sym (slot-set_self k a (some h') (lt_of_slot k a h es)))
            (ground (
              arith,
              subst (Entry (refs a k.procs + extra a)) es
                  (v.balanced a (subst (λ x. x ≢ fd_free) (sym e) nj)),
            )))
    | no d ↦
        subst (Entry (refs j k.procs + (extra j + hit j a))) (sym (slot-set_ne k a j (some h') d))
          (Entry-eq _ (refs j k.procs + extra j) (slot k j) (ground arith) (v.balanced j nj))
  ];
}
  where
    h' : Handle
    h' = record h { refcount = h.refcount + 1 }

    k' : Kernel
    k' = set_slot k a (some h')

Sized-insert :
    (i : ℕ) (ps : List (Option Proc)) (q : Proc)
    → length q.fds ≡ open_max
    → Sized ps
    → Sized (set ps i (some q))
Sized-insert i ps q h s = Sized-set i ps q h s

-- A new process takes over the references that its descriptors stand for.
pub insert-Inv :
    (extra : ℕ → ℕ) (k : Kernel) (s : ℕ) (q : Proc)
    → Inv (λ j. extra j + count j q.fds) k
    → get_elem? k.procs s ≡ some none
    → length q.fds ≡ open_max
    → Inv extra (set_proc k s (some q))
insert-Inv extra k s q v e l = record {
  sized = record {
    fhs_size = v.sized.fhs_size;
    procs_size = length-set k.procs s _ ∙ v.sized.procs_size;
    fds_size = Sized-insert s k.procs q l v.sized.fds_size;
  };
  balanced = λ j nj.
      Entry-eq _ (refs j k.procs + (extra j + count j q.fds)) (slot k j)
        (omega (arith, refs-set_new j s k.procs q e)) (v.balanced j nj);
}

-- What one round of the copying loop leaves: descriptor `i` of the new process is `x`, the slot that
-- it named before has one reference that no descriptor holds, and the caller is as it was.
pub record Copied (extra : ℕ → ℕ) (cur s : ℕ) (p q : Proc) (i x y : ℕ) (k : Kernel) : Type 0 where
  pub inv : Inv (λ j. extra j + hit j y) k
  pub caller : proc_at k cur ≡ some p
  pub child : proc_at k s ≡ some (record q { fds = set q.fds i x })

-- A write to one process leaves the others.
pub proc_at-set_ne :
    (k : Kernel) (i j : ℕ) (o : Option Proc) → i ≢ j → proc_at (set_proc k i o) j ≡ proc_at k j
proc_at-set_ne k i j o h = ap join (get_elem?-set_ne k.procs i j o h)

module _ (extra : ℕ → ℕ) (k : Kernel) (v : Inv extra k) (few : Few extra) (cur s i x y : ℕ)
    (p q : Proc) (ec : proc_at k cur ≡ some p) (eq : proc_at k s ≡ some q) (ne : s ≢ cur)
    (ex : get_elem? p.fds i ≡ some x) (ey : get_elem? q.fds i ≡ some y) where
  written : Kernel
  written = set_proc k s (some (record q { fds = set q.fds i x }))

  copy_fd_free :
      x ≡ fd_free → (copy_fd cur s i k ≡ ret tt written) × Copied extra cur s p q i x y written
  unfolding copy_fd written
  copy_fd_free e = (
    ground (
      arith,
      get_fd_lem k cur i x p ec ex,
      set_fd_lem k s i x q eq,
      get_fd_lem written s i x (record q { fds = set q.fds i x }) (proc_at-set_self k s q _ eq)
          (get_elem?-set_self q.fds i x (lt-length_of_get q.fds i ey)),
    ),
    record {
      inv = written-Inv extra _ k v s q i y x eq ey (λ j nj. ground arith);
      caller = proc_at-set_ne k s cur _ ne ∙ ec;
      child = proc_at-set_self k s q _ eq;
    },
  )

  copy_fd_used :
      x ≢ fd_free
      → i < open_max
      → (h : Handle) → slot k x ≡ some h
      → let k' : Kernel = moved k s q i x x (some (record h { refcount = h.refcount + 1 })) in
        (copy_fd cur s i k ≡ ret tt k') × Copied extra cur s p q i x y k'
  unfolding copy_fd written ft_get fh_incref
  copy_fd_used nx li h es =
      let q' : Proc = record q { fds = set q.fds i x } in
      let bound = slot-ne-free extra k x h v es in
      (
        ground (
          arith,
          get_fd_lem k cur i x p ec ex,
          set_fd_lem k s i x q eq,
          get_fd_lem written s i x q' (proc_at-set_self k s q q' eq)
              (get_elem?-set_self q.fds i x (lt-length_of_get q.fds i ey)),
          bound,
          refcount_bound extra k x h v few es,
        ),
        record {
          inv =
              moved-Inv extra _ k v s q i y x eq ey x _ (lt_of_slot k x h es)
                (λ m m' e b. ground (arith, subst (Entry (m + extra x)) es b, bound))
                (λ j nj d. ground arith) nx;
          caller = proc_at-set_ne k s cur _ ne ∙ ec;
          child = proc_at-set_self k s q _ eq;
        },
      )

  pub copy_fd_lem :
      i < open_max
      → (k' : Kernel) × (copy_fd cur s i k ≡ ret tt k') × Copied extra cur s p q i x y k'
  copy_fd_lem li = elim (ℕ_discrete x fd_free) [
    | yes e ↦ let (run, done) = copy_fd_free e in (written, run, done)
    | no d ↦
        let (h, es) = slot_of_fd extra k v.balanced cur p i x ec ex d in
        let (run, done) = copy_fd_used d li h es in
        (moved k s q i x x (some (record h { refcount = h.refcount + 1 })), run, done)
  ]
