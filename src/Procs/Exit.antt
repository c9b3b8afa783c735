-- ===== src/Procs/Exit.antt =====
-- What `kern__exit` does to the caller's descriptors.
use longcat_os.Base.{
  ap, Option-cases, ◌⊎◌, inl, inr, [], ℕ, zero, suc, Option, none, some, List, Bool, true, false,
  ◌+◌, ◌≤◌, ◌<◌, ◌≡◌, ◌≢◌, refl, arith, get_elem?, set, if◌then◌else◌, lt-length_of_get, subst, ◌∙◌,
  get_elem?-set_self, get_elem?-set_ne, ℕ_discrete, ne→==,
}
use longcat_os.Base.Outcome.{ret, ◌>>=◌}
use longcat_os.Kernel.{
  ProcState, alive, zombie, pid_invalid, set_proc, the_proc_lem, Kernel, Proc, open_max, fd_free,
  proc_at, get_fd_lem,
}
use longcat_os.Files.{ft_close}
use longcat_os.Files.Close.{dropped, dropped-Inv, ft_close_lem}
use longcat_os.Files.Refs.{Inv, fd-get, slot_of_fd, proc_at-set_self}
use longcat_os.Procs.{pt_get_proc, pt_reap_coffin, pid_slot}
use longcat_os.Procs.Coffin.{pt_bury_proc_lem}
use longcat_os.Procs.Forked.{same_fds-Inv}
use longcat_os.Procs.Calls.{kern__exit, clear_children, wait_code, exit_notify, close_fds}

-- What the loop leaves when it starts at descriptor `i`: the caller's descriptors from `i` on are
-- free, and those below are as before.
pub record ClosedFrom (extra : ℕ → ℕ) (cur coffin : ℕ) (p : Proc) (i : ℕ) (k : Kernel)
    : Type 0 where
  pub inv : Inv extra k
  pub same_coffin : k.coffin ≡ coffin
  pub fds : List ℕ
  pub caller : proc_at k cur ≡ some (record p { fds = fds })
  pub below : (j : ℕ) → j < i → get_elem? fds j ≡ get_elem? p.fds j
  pub free : (j : ℕ) → i ≤ j → j < open_max → get_elem? fds j ≡ some fd_free

module _ (extra : ℕ → ℕ) (cur coffin : ℕ) where
  -- One round: descriptor `i` is free afterwards, and the others are as before.
  record ClosedOne (p : Proc) (i : ℕ) (k : Kernel) : Type 0 where
    inv : Inv extra k
    same_coffin : k.coffin ≡ coffin
    fds : List ℕ
    caller : proc_at k cur ≡ some (record p { fds = fds })
    free : get_elem? fds i ≡ some fd_free
    others : (j : ℕ) → i ≢ j → get_elem? fds j ≡ get_elem? p.fds j

  close_one :
      (i : ℕ) (k : Kernel) (p : Proc) (x : ℕ)
      → i < open_max
      → Inv extra k
      → proc_at k cur ≡ some p
      → get_elem? p.fds i ≡ some x
      → x ≢ fd_free
      → k.coffin ≡ coffin
      → (k' : Kernel) × (ft_close cur i k ≡ ret tt k') × ClosedOne p i k'
  close_one i k p x li v ep ex nx ec =
      let (h, eh) = slot_of_fd extra k v.balanced cur p i x ep ex nx in
      (
        dropped k cur p i x h,
        ft_close_lem k cur p ep i x h ex eh li,
        record {
          inv = dropped-Inv extra k cur i x p h v ep ex eh nx;
          same_coffin = ec;
          fds = set p.fds i fd_free;
          caller = proc_at-set_self k cur p _ ep;
          free = get_elem?-set_self p.fds i fd_free (lt-length_of_get p.fds i ex);
          others = λ j ne. get_elem?-set_ne p.fds i j fd_free ne;
        },
      )

  widen :
      (p : Proc) (i : ℕ) (fs : List ℕ) (k : Kernel)
      → get_elem? fs i ≡ some fd_free
      → ((j : ℕ) → i ≢ j → get_elem? fs j ≡ get_elem? p.fds j)
      → ClosedFrom extra cur coffin (record p { fds = fs }) (i + 1) k
      → ClosedFrom extra cur coffin p i k
  widen p i fs k free others d = record {
    inv = d.inv;
    same_coffin = d.same_coffin;
    fds = d.fds;
    caller = d.caller;
    below = λ j l. d.below j (omega arith) ∙ others j (omega arith);
    free = λ j a b. elim (ℕ_discrete i j) [
      | yes e ↦ subst (λ m. get_elem? d.fds m ≡ some fd_free) e (d.below i (omega arith) ∙ free)
      | no f ↦ d.free j (omega arith) b
    ];
  }

  -- The loop of `kern__exit` from descriptor `i` on.
  pub close_fds_lem :
      (rounds i : ℕ) (k : Kernel) (p : Proc)
      → i + rounds ≡ open_max
      → Inv extra k
      → proc_at k cur ≡ some p
      → k.coffin ≡ coffin
      → (k' : Kernel) × (close_fds cur rounds i k ≡ ret tt k') × ClosedFrom extra cur coffin p i k'
  unfolding close_fds
  close_fds_lem zero i k p h v ep ec = (
    k,
    refl,
    record {
      inv = v;
      same_coffin = ec;
      fds = p.fds;
      caller = ep;
      below = λ j l. refl;
      free = λ j a b. absurd (omega arith);
    },
  )
  close_fds_lem (suc rounds) i k p h v ep ec =
      let (x, ex) = fd-get extra k cur p i v ep (omega arith) in
      elim (ℕ_discrete x fd_free) [
        | yes f ↦
            let (k', run, d) = close_fds_lem rounds (i + 1) k p (omega arith) v ep ec in
            (
              k',
              rw (get_fd_lem k cur i x p ep ex, ◌>>=◌, f) run,
              widen p i p.fds k' (subst (λ y. get_elem? p.fds i ≡ some y) f ex) (λ j ne. refl) d,
            )
        | no f ↦
            let (k₁, run₁, c) = close_one i k p x (omega arith) v ep ex f ec in
            let (k', run, d) =
              close_fds_lem rounds (i + 1) k₁ (record p { fds = c.fds }) (omega arith) c.inv
                c.caller c.same_coffin in
            (
              k',
              rw (get_fd_lem k cur i x p ep ex, ◌>>=◌, ne→== x fd_free f, run₁) run,
              widen p i c.fds k' c.free c.others d,
            )
      ]

-- What `kern__exit` leaves of a process without children: a zombie with the exit code, whose
-- descriptors are all free. If `signalled` its parent lives and the coffin is empty, else its own pid
-- is in the coffin.
pub record Exited (extra : ℕ → ℕ) (cur code : ℕ) (p : Proc) (signalled : Bool) (k : Kernel)
    : Type 0 where
  pub inv : Inv extra k
  pub fds : List ℕ
  pub at : proc_at k cur ≡ some (record p { state = zombie; exit_code = code; fds = fds })
  pub free : (j : ℕ) → j < open_max → get_elem? fds j ≡ some fd_free
  pub coffin_is : k.coffin ≡ (if signalled then pid_invalid else p.pid)

coffin-Inv :
    (extra : ℕ → ℕ) (k : Kernel) (n : ℕ) → Inv extra k → Inv extra (record k { coffin = n })
coffin-Inv extra k n v = record {
  sized = record {
    fhs_size = v.sized.fhs_size;
    procs_size = v.sized.procs_size;
    fds_size = v.sized.fds_size;
  };
  balanced = v.balanced;
}

-- Whether the parent is in the table and alive.
abbrev pub parent_lives : Kernel → Proc → Bool
parent_lives k me = elim (proc_at k (pid_slot me.parent)) [
  | none ↦ false
  | some q ↦ elim q.state [ zombie ↦ false | alive ↦ true ]
]

ProcState-cases : (s : ProcState) → (s ≡ alive) ⊎ (s ≡ zombie)
ProcState-cases alive = inl refl
ProcState-cases zombie = inr refl

exit_notify_lem :
    (k : Kernel) (me : Proc)
    → k.coffin ≡ pid_invalid
    → exit_notify me k
      ≡ ret
          (parent_lives k me)
          (record k { coffin = if parent_lives k me then pid_invalid else me.pid })
unfolding exit_notify pt_get_proc
exit_notify_lem k me e = elim (Option-cases (proc_at k (pid_slot me.parent))) [
  | inl f ↦ rw (f, ◌>>=◌, parent_lives, pt_bury_proc_lem k me.pid e) refl
  | inr (q, f) ↦ elim (ProcState-cases q.state) [
    | inl z ↦ rw (f, ◌>>=◌, parent_lives, z) (ap (λ c. ret true (record k { coffin = c })) e)
    | inr z ↦ rw (f, ◌>>=◌, parent_lives, z, pt_bury_proc_lem k me.pid e) refl
  ]
]

reap_empty : (k : Kernel) → k.coffin ≡ pid_invalid → pt_reap_coffin k ≡ ret tt k
unfolding pt_reap_coffin
reap_empty k e = ground arith

module _ (extra : ℕ → ℕ) (k : Kernel) (v : Inv extra k) (cur exitcode : ℕ) (signal : Option ℕ)
    (others : Kernel → Kernel) (p : Proc) (ep : proc_at k cur ≡ some p)
    (empty : k.coffin ≡ pid_invalid) (childless : p.children ≡ []) where
  dying : Proc
  dying = record p { state = zombie; exit_code = wait_code exitcode signal }

  abbrev exiting : Kernel
  exiting = set_proc k cur (some dying)

  -- `kern__exit` comes down to its last part, once the descriptors are closed.
  exit_end :
      (k₁ : Kernel) (fs : List ℕ)
      → close_fds cur open_max 0 exiting ≡ ret tt k₁
      → proc_at k₁ cur ≡ some (record dying { fds = fs })
      → kern__exit cur exitcode signal others k ≡ exit_notify (record dying { fds = fs }) k₁
  unfolding kern__exit dying clear_children exit_notify
  exit_end k₁ fs run e =
      let me : Proc = record dying { fds = fs } in
      rw (
        reap_empty k empty,
        ◌>>=◌,
        the_proc_lem k cur p ep,
        run,
        the_proc_lem k₁ cur me e,
        childless,
      )

  -- With the coffin empty, kern__exit by a process without children does not panic and ends with the
  -- process a zombie that has the exit code and no descriptor in use, every count exact, and either
  -- a living parent or its pid in the coffin.
  pub kern__exit-Exited :
      (b : Bool) × (k' : Kernel) × (kern__exit cur exitcode signal others k ≡ ret b k')
      × Exited extra cur (wait_code exitcode signal) p b k'
      × (b ≡ parent_lives k' p)
  unfolding dying
  kern__exit-Exited =
      let (k₁, run, d) =
        close_fds_lem extra cur pid_invalid open_max 0 exiting dying (omega arith)
          (same_fds-Inv extra k cur p dying v ep refl) (proc_at-set_self k cur p dying ep) empty in
      let me : Proc = record dying { fds = d.fds } in
      let b : Bool = parent_lives k₁ me in
      (
        b,
        record k₁ { coffin = if b then pid_invalid else p.pid },
        exit_end k₁ d.fds run d.caller ∙ exit_notify_lem k₁ me d.same_coffin,
        record {
          inv = coffin-Inv extra k₁ _ d.inv;
          fds = d.fds;
          at = d.caller;
          free = λ j l. d.free j (omega arith) l;
          coffin_is = refl;
        },
        refl,
      )
