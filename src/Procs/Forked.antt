-- ===== src/Procs/Forked.antt =====
-- What `fork_common` leaves in the process and file tables.
use longcat_os.Base.{
  ne→==, ℕ, Option, none, some, List, [], ◌∷◌, true, ◌+◌, ◌≤◌, ◌<◌, ◌≡◌, ◌≢◌, refl, arith, length,
  get_elem?, length-set, lt-length_of_get, ap, sym, ◌∙◌, get_elem?-set_self, get_of_lt-length,
  set-set,
}
use longcat_os.Base.Count.{hit, count, count-replicate_ne}
use longcat_os.Base.Outcome.{ret, ◌>>=◌}
use longcat_os.Kernel.{
  Kernel, Handle, Proc, alive, open_max, proc_max, fd_free, pid_min, pid_invalid, slot, proc_at,
  set_slot, set_proc, the_proc_lem, join,
}
use longcat_os.Files.Move.{Entry-eq}
use longcat_os.Files.Dup.{Few, fh_incref_lem}
use longcat_os.Files.Refs.{refs, refs-set, Inv, Sized-set, Sized-get, slot-set_ne, proc_at-set_self}
use longcat_os.Procs.{find_pid, pt_get_open_pid, pid_slot, incref_std, proc_create, std_fds}
use longcat_os.Procs.Pids.{find_pid-some}
use longcat_os.Procs.Calls.{copy_fds, fork_into, fork_common}
use longcat_os.Procs.Fork.{incref-Inv, insert-Inv, proc_at-set_ne}
use longcat_os.Procs.CopyLoop.{Inv-ext, CopiedFrom, copy_fds_lem}

-- A process whose descriptors stay may change otherwise.
pub same_fds-Inv :
    (extra : ℕ → ℕ) (k : Kernel) (i : ℕ) (p q : Proc)
    → Inv extra k
    → proc_at k i ≡ some p
    → q.fds ≡ p.fds
    → Inv extra (set_proc k i (some q))
same_fds-Inv extra k i p q v ep e = record {
  sized = record {
    fhs_size = v.sized.fhs_size;
    procs_size = length-set k.procs i _ ∙ v.sized.procs_size;
    fds_size =
        Sized-set i k.procs q (ap length e ∙ Sized-get i k.procs p ep v.sized.fds_size)
          v.sized.fds_size;
  };
  balanced = λ j nj.
      Entry-eq _ (refs j k.procs + extra j) (slot k j)
        (omega (arith, refs-set j i k.procs p q ep, ap (count j) e)) (v.balanced j nj);
}

-- The descriptors of a new process name each console handle once.
pub count-std : (j : ℕ) → j ≢ fd_free → count j std_fds ≡ hit j 0 + hit j 1 + hit j 2
count-std j nj = ground (arith, count-replicate_ne j 125 fd_free (λ e. nj (sym e)))

-- The three console handles are there.
pub record Console (k : Kernel) : Type 0 where
  pub stdin : Handle
  pub stdout : Handle
  pub stderr : Handle
  pub at_0 : slot k 0 ≡ some stdin
  pub at_1 : slot k 1 ≡ some stdout
  pub at_2 : slot k 2 ≡ some stderr

abbrev pub incref_at : Kernel → ℕ → Handle → Kernel
incref_at k a h = set_slot k a (some (record h { refcount = h.refcount + 1 }))

abbrev pub incref_all : (k : Kernel) → Console k → Kernel
incref_all k c = incref_at (incref_at (incref_at k 0 c.stdin) 1 c.stdout) 2 c.stderr

incref_std_lem :
    (extra : ℕ → ℕ) (k : Kernel) (c : Console k)
    → Inv extra k
    → Few (λ j. extra j + 3)
    → (incref_std k ≡ ret tt (incref_all k c))
      × Inv (λ j. extra j + hit j 0 + hit j 1 + hit j 2) (incref_all k c)
unfolding incref_std
incref_std_lem extra k c v few =
    let k₁ : Kernel = incref_at k 0 c.stdin in
    let k₂ : Kernel = incref_at k₁ 1 c.stdout in
    let v₁ = incref-Inv extra k 0 c.stdin v c.at_0 in
    let s₁ : slot k₁ 1 ≡ some c.stdout = slot-set_ne k 0 1 _ (omega arith) ∙ c.at_1 in
    let v₂ = incref-Inv _ k₁ 1 c.stdout v₁ s₁ in
    let s₂ : slot k₂ 2 ≡ some c.stderr =
      slot-set_ne k₁ 1 2 _ (omega arith) ∙ slot-set_ne k 0 2 _ (omega arith) ∙ c.at_2 in
    let v₃ = incref-Inv _ k₂ 2 c.stderr v₂ s₂ in
    let r₁ = fh_incref_lem extra k 0 c.stdin v (λ j nj. ground (arith, few j nj)) c.at_0 in
    let r₂ = fh_incref_lem _ k₁ 1 c.stdout v₁ (λ j nj. ground (arith, few j nj)) s₁ in
    let r₃ = fh_incref_lem _ k₂ 2 c.stderr v₂ (λ j nj. ground (arith, few j nj)) s₂ in
    (rw (r₁, ◌>>=◌, r₂, r₃), v₃)

-- What `fork_common` leaves. The child is in slot `s`: it has the pid, the caller for its parent, and
-- the caller's descriptors; the caller has one more child. Each console handle has one reference more
-- than descriptors hold.
pub record Forked (extra : ℕ → ℕ) (cur s newpid : ℕ) (p : Proc) (k : Kernel) : Type 0 where
  pub inv : Inv (λ j. extra j + hit j 0 + hit j 1 + hit j 2) k
  pub caller : proc_at k cur ≡ some (record p { children = newpid ∷ p.children })
  pub child : Proc
  pub at : proc_at k s ≡ some child
  pub has_pid : child.pid ≡ newpid
  pub has_parent : child.parent ≡ p.pid
  pub is_alive : child.state ≡ alive
  pub fds_eq : (j : ℕ) → j < open_max → get_elem? child.fds j ≡ get_elem? p.fds j

module _ (extra : ℕ → ℕ) (k : Kernel) (v : Inv (λ j. extra j + hit j 0 + hit j 1 + hit j 2) k)
    (few : Few (λ j. extra j + 3)) (cur s newpid : ℕ) (p q : Proc) (ec : proc_at k cur ≡ some p)
    (es : get_elem? k.procs s ≡ some none) (ne : s ≢ cur) (eq : q.fds ≡ std_fds) where
  child_start : Proc
  child_start = record q { numthreads = 0; parent = p.pid; pid = newpid; state = alive }

  inserted : Kernel
  inserted = set_proc k s (some child_start)

  std_extra :
      (xs : List ℕ)
      → xs ≡ std_fds
      → (j : ℕ) → j ≢ fd_free
      → extra j + count j xs ≡ extra j + hit j 0 + hit j 1 + hit j 2
  std_extra xs e j nj = omega (arith, count-std j nj, ap (count j) e)

  inserted-Inv : Inv extra inserted
  unfolding inserted child_start
  inserted-Inv =
      insert-Inv extra k s child_start (Inv-ext _ _ k (std_extra q.fds eq) v) es
        (ap length eq ∙ refl)

  abbrev Copies : Type 0
  Copies =
      (k' : Kernel) × (copy_fds cur s open_max 0 inserted ≡ ret tt k')
      × CopiedFrom extra cur s p child_start 0 k'

  copies : Copies
  unfolding inserted child_start
  copies =
      copy_fds_lem cur s p ne open_max 0 extra inserted child_start (omega arith) inserted-Inv
        (λ j nj. ground (arith, few j nj, std_extra q.fds eq j nj))
        (proc_at-set_ne k s cur _ ne ∙ ec)
        (ap join (get_elem?-set_self k.procs s _ (lt-length_of_get k.procs s es)))

  -- The steps of `fork_into` before the loop.
  fork_into_start :
      (k' : Kernel)
      → copy_fds cur s open_max 0 inserted ≡ ret tt k'
      → proc_at k' cur ≡ some p
      → fork_into cur s newpid q true k
        ≡ ret s (set_proc k' cur (some (record p { children = newpid ∷ p.children })))
  unfolding fork_into inserted child_start
  fork_into_start k' run ec' =
      let k₀ : Kernel = set_proc k s (some q) in
      let e₀ : proc_at k₀ s ≡ some q =
        ap join (get_elem?-set_self k.procs s _ (lt-length_of_get k.procs s es)) in
      let twice : set_proc k₀ s (some child_start) ≡ set_proc k s (some child_start) =
        ap (λ x. record k { procs = x }) (set-set k.procs s (some q) (some child_start)) in
      rw (
        the_proc_lem k₀ cur p (proc_at-set_ne k s cur (some q) ne ∙ ec),
        ◌>>=◌,
        the_proc_lem k₀ s q e₀,
        twice,
        run,
        the_proc_lem k' cur p ec',
      )

  fork_into-Forked :
      (k' : Kernel) × (fork_into cur s newpid q true k ≡ ret s k') × Forked extra cur s newpid p k'
  unfolding child_start
  fork_into-Forked =
      let (k₁, run, d) = copies in
      let p' : Proc = record p { children = newpid ∷ p.children } in
      (
        set_proc k₁ cur (some p'),
        fork_into_start k₁ run d.caller,
        record {
          inv =
              same_fds-Inv _ _ cur p p'
                (Inv-ext _ _ k₁ (λ j nj. sym (std_extra q.fds eq j nj)) d.inv) d.caller refl;
          caller = proc_at-set_self k₁ cur p p' d.caller;
          child = record child_start { fds = d.fds };
          at = proc_at-set_ne k₁ cur s _ (λ e. ne (sym e)) ∙ d.child;
          has_pid = refl;
          has_parent = refl;
          is_alive = refl;
          fds_eq = λ j l. d.above j (omega arith) l;
        },
      )

-- `pt_get_open_pid` where a pid is found.
pt_get_open_pid_found :
    (k : Kernel) (pid : ℕ)
    → find_pid k.procs k.most_recent_pid proc_max (k.most_recent_pid + 1) ≡ some pid
    → pt_get_open_pid k ≡ ret pid (record k { most_recent_pid = pid })
unfolding pt_get_open_pid
pt_get_open_pid_found k pid e = rw (e, pt_get_open_pid)

recent-Inv :
    (extra : ℕ → ℕ) (k : Kernel) (n : ℕ)
    → Inv extra k
    → Inv extra (record k { most_recent_pid = n })
recent-Inv extra k n v = record {
  sized = record {
    fhs_size = v.sized.fhs_size;
    procs_size = v.sized.procs_size;
    fds_size = v.sized.fds_size;
  };
  balanced = v.balanced;
}

-- A slot inside the table that holds no process is NULL.
null_of_none :
    {A : Type 0} (xs : List (Option A)) (i : ℕ)
    → i < length xs
    → join (get_elem? xs i) ≡ none
    → get_elem? xs i ≡ some none
null_of_none xs i l e = let (o, eo) = get_of_lt-length xs i l in ground (arith, eo)

module _ (extra : ℕ → ℕ) (k : Kernel) (v : Inv extra k) (few : Few (λ j. extra j + 3))
    (c : Console k) (cur pid : ℕ) (p raw : Proc) (ec : proc_at k cur ≡ some p)
    (lo : pid_min ≤ k.most_recent_pid + 1)
    (found : find_pid k.procs k.most_recent_pid proc_max (k.most_recent_pid + 1) ≡ some pid) where
  -- Where a pid is found and every allocation succeeds, `fork_common` succeeds: the child, in a slot
  -- that was free, has the new pid, the caller for its parent and descriptors equal to the caller's,
  -- and the caller's list of children starts with the pid. Every handle counts the descriptors that
  -- name it and its extra references, but the console handles 0, 1 and 2 count one more each: the
  -- references that `proc_create` took for descriptors which the loop then overwrites.
  pub fork_common-Forked :
      (k' : Kernel) × (fork_common cur (some raw) true true true true k ≡ ret (pid_slot pid) k')
      × Forked extra cur (pid_slot pid) pid p k'
      × (proc_at k (pid_slot pid) ≡ none)
  unfolding fork_common proc_create
  fork_common-Forked =
      let (low, high, other, free) =
        find_pid-some k.procs k.most_recent_pid proc_max _ pid lo found in
      let k₁ : Kernel = record k { most_recent_pid = pid } in
      let c₁ : Console k₁ = record {
        stdin = c.stdin;
        stdout = c.stdout;
        stderr = c.stderr;
        at_0 = c.at_0;
        at_1 = c.at_1;
        at_2 = c.at_2;
      } in
      let (run, w) = incref_std_lem extra k₁ c₁ (recent-Inv extra k pid v) few in
      let k₂ : Kernel = incref_all k₁ c₁ in
      let q : Proc = record raw { numthreads = 0; fds = std_fds; children = [] } in
      let ne : pid_slot pid ≢ cur = λ e. ground (arith, ap (proc_at k) e) in
      let es : get_elem? k.procs (pid_slot pid) ≡ some none =
        null_of_none k.procs (pid_slot pid) (omega (arith, v.sized.procs_size)) free in
      let (k', into, done) =
        fork_into-Forked extra k₂ w few cur (pid_slot pid) pid p q ec es ne refl in
      (
        k',
        rw (pt_get_open_pid_found k pid found, ◌>>=◌, ne→== pid pid_invalid (omega arith), run)
            into,
        done,
        free,
      )
