-- ===== src/Procs/Wait.antt =====
-- `waitpid_common` on a child that has exited.
use longcat_os.Base.{
  ==_refl, ℕ, zero, suc, Option, none, some, List, [], ◌∷◌, false, ◌+◌, ◌<◌, ◌≡◌, ◌≢◌, refl, arith,
  length, get_elem?, set, length-set, lt-length_of_get, sym, ◌∙◌, ap, get_elem?-set_self,
  Option-cases, inl, inr,
}
use longcat_os.Base.Count.{count}
use longcat_os.Base.Int.{pos}
use longcat_os.Base.Outcome.{ret, ◌>>=◌}
use longcat_os.Kernel.{Kernel, Proc, zombie, fd_free, slot, proc_at, set_proc, join, the_proc_lem}
use longcat_os.Files.Move.{Entry-eq}
use longcat_os.Files.Refs.{refs, Sized, Inv, proc_at-set_self}
use longcat_os.Procs.{pid_slot}
use longcat_os.Procs.Coffin.{proc_destroy_lem}
use longcat_os.Procs.Fork.{proc_at-set_ne}
use longcat_os.Procs.Forked.{same_fds-Inv}
use longcat_os.Procs.Calls.{
  remove_child, wait_collect, wait_child, wait_checked, waitpid_common, wait_target, bad_options,
  kernel_status,
}

refs-set-none :
    (k i : ℕ) (ps : List (Option Proc)) (p : Proc)
    → join (get_elem? ps i) ≡ some p
    → refs k (set ps i none) + count k p.fds ≡ refs k ps
refs-set-none k i [] p e = absurd (cc)
refs-set-none k zero (none ∷ ps) p e = absurd (cc)
refs-set-none k zero (some r ∷ ps) p e = ground arith
refs-set-none k (suc i) (none ∷ ps) p e = refs-set-none k i ps p e
refs-set-none k (suc i) (some r ∷ ps) p e = omega (arith, refs-set-none k i ps p e)

Sized-set-none : (i : ℕ) (ps : List (Option Proc)) → Sized ps → Sized (set ps i none)
Sized-set-none i [] s = tt
Sized-set-none zero (none ∷ ps) s = s
Sized-set-none zero (some r ∷ ps) s = s.1
Sized-set-none (suc i) (none ∷ ps) s = Sized-set-none i ps s
Sized-set-none (suc i) (some r ∷ ps) s = (s.0, Sized-set-none i ps s.1)

-- Removing a process that holds no handle keeps the counts.
removed-Inv :
    (extra : ℕ → ℕ) (k : Kernel) (s : ℕ) (p : Proc)
    → Inv extra k
    → proc_at k s ≡ some p
    → ((j : ℕ) → j ≢ fd_free → count j p.fds ≡ 0)
    → Inv extra (set_proc k s none)
removed-Inv extra k s p v ep free = record {
  sized = record {
    fhs_size = v.sized.fhs_size;
    procs_size = length-set k.procs s none ∙ v.sized.procs_size;
    fds_size = Sized-set-none s k.procs v.sized.fds_size;
  };
  balanced = λ j nj.
      Entry-eq _ (refs j k.procs + extra j) (slot k j)
        (omega (arith, refs-set-none j s k.procs p ep, free j nj)) (v.balanced j nj);
}

-- A process whose descriptors are all free holds no handle.
pub count-free :
    (j : ℕ) (xs : List ℕ)
    → j ≢ fd_free
    → ((i : ℕ) → i < length xs → get_elem? xs i ≡ some fd_free)
    → count j xs ≡ 0
count-free j [] nj h = refl
count-free j (x ∷ xs) nj h =
    ground (arith, h 0 (omega arith), count-free j xs nj (λ i l. h (suc i) (omega arith)))

lt_of_proc : (k : Kernel) (i : ℕ) (p : Proc) → proc_at k i ≡ some p → i < length k.procs
lt_of_proc k i p e = elim (Option-cases (get_elem? k.procs i)) [
  | inl s ↦ absurd (cc)
  | inr (o, s) ↦ lt-length_of_get k.procs i s
]

module _ (extra : ℕ → ℕ) (k : Kernel) (v : Inv extra k) (cur s : ℕ) (p child : Proc) (cs : List ℕ)
    (others others' : Kernel → Kernel) (ep : proc_at k cur ≡ some p) (ec : proc_at k s ≡ some child)
    (ne : cur ≢ s) (ns : s ≢ 1) (slot_ok : pid_slot child.pid ≡ s)
    (rm : remove_child child.pid p.children ≡ some cs) (parent_ok : child.parent ≡ p.pid)
    (dead : child.state ≡ zombie) (quiet : child.numthreads ≡ 0)
    (freed : (j : ℕ) → j ≢ fd_free → count j child.fds ≡ 0) where
  abbrev pub orphan_free : Kernel
  orphan_free = set_proc k cur (some (record p { children = cs }))

  pub wait_collect_lem :
      wait_collect cur s none others' k ≡ ret child.exit_code (set_proc orphan_free s none)
  unfolding wait_collect
  wait_collect_lem = rw (
    the_proc_lem k s child ec,
    ◌>>=◌,
    the_proc_lem k cur p ep,
    rm,
    quiet,
    proc_destroy_lem orphan_free s child (proc_at-set_ne k cur s _ ne ∙ ec) ns quiet,
    slot_ok,
  )

  wait_child_lem :
      (options : ℕ)
      → wait_child cur s options none others others' k
        ≡ ret child.exit_code (set_proc orphan_free s none)
  unfolding wait_child
  wait_child_lem options =
      rw (ec, ◌>>=◌, the_proc_lem k cur p ep, parent_ok, ==_refl p.pid, dead) wait_collect_lem

  -- waitpid_common with a kernel pointer for the status and accepted options, on the pid of a child
  -- that has exited, has no thread left (p_numthreads is 0) and names no handle any more: the call
  -- gives its exit code without sleeping, frees its slot, takes it off the list of children and
  -- keeps the counts exact.
  pub waitpid_common-zombie :
      (pid options : ℕ)
      → wait_target (pos pid) p.pid ≡ some s
      → bad_options options ≡ false
      → (k' : Kernel) × (waitpid_common cur (pos pid) kernel_status options others others' k
          ≡ ret (some child.exit_code) k')
        × Inv extra k'
        × (proc_at k' s ≡ none)
        × (proc_at k' cur ≡ some (record p { children = cs }))
  unfolding waitpid_common wait_checked
  waitpid_common-zombie pid options et eo =
      let q : Proc = record p { children = cs } in
      (
        set_proc orphan_free s none,
        rw (eo, ◌>>=◌, the_proc_lem k cur p ep, et, wait_child_lem options),
        removed-Inv extra orphan_free s child (same_fds-Inv extra k cur p q v ep refl)
            (proc_at-set_ne k cur s _ ne ∙ ec) freed,
        ap join (
            get_elem?-set_self _ s none
              (omega (arith, lt_of_proc k s child ec, length-set k.procs cur (some q)))),
        proc_at-set_ne orphan_free s cur none (λ e. ne (sym e)) ∙ proc_at-set_self k cur p q ep,
      )
