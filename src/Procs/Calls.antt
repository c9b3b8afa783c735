-- ===== src/Procs/Calls.antt =====
-- kern/syscall/fork.c, exit.c and waitpid.c over the process and file tables. `cur` is the slot of
-- the calling process.
use longcat_os.Base.{
  ◌⊎◌, inl, inr, ◌^◌, ℕ, zero, suc, Option, none, some, List, [], ◌∷◌, Bool, true, false, not, ◌&&◌,
  ◌||◌, ◌+◌, ◌*◌, ◌%◌, ◌/◌, ◌==◌, leb, ltb, if◌then◌else◌,
}
use longcat_os.Base.Int.{ℤ, pos, negsuc}
use longcat_os.Base.Outcome.{
  M, ret, fail, panic, Errno, enproc, enomem, esrch, echild, einval, other, ◌>>=◌, ◌>>◌, return,
  throw, get, put, check, deref,
}
use longcat_os.Kernel.{
  Kernel, Proc, alive, zombie, open_max, fd_free, pid_max, pid_invalid, proc_at, set_proc, get_fd,
  set_fd, the_proc,
}
use longcat_os.Files.{fh_incref, ft_get, ft_close}
use longcat_os.Procs.{
  pt_get_open_pid, pt_get_proc, pid_slot, proc_create, proc_destroy, pt_reap_coffin, pt_bury_proc,
}

-- An update of the process in slot `i`.
abbrev pub update_proc : ℕ → (Proc → Proc) → M Kernel (Unit {0})
update_proc i f = do p ← the_proc i; k ← get; put (set_proc k i (some (f p)))

-- One round of the loop of `fork_common` over the descriptors.
unfoldable pub copy_fd : ℕ → ℕ → ℕ → M Kernel (Unit {0})
copy_fd cur s i = do
  x ← get_fd cur i
  set_fd s i x
  y ← get_fd s i
  if y == fd_free
      then return tt
      else (do fh ← ft_get (pos i) s; elim fh [ none ↦ (λ k. panic) | some a ↦ fh_incref a ])

-- The loop with its rounds left, from descriptor `i` on.
unfoldable pub copy_fds : ℕ → ℕ → ℕ → ℕ → M Kernel (Unit {0})
copy_fds cur s zero i = return tt
copy_fds cur s (suc rounds) i = let rest = copy_fds cur s rounds (i + 1) in do copy_fd cur s i; rest

-- The part of `fork_common` behind `proc_create`: `s` is the slot of the new process, and `node_mem`
-- says whether the list node of the child can be allocated.
unfoldable pub fork_into : ℕ → ℕ → ℕ → Proc → Bool → M Kernel ℕ
fork_into cur s newpid newproc node_mem = do
  k ← get
  put (set_proc k s (some newproc))
  p ← the_proc cur
  update_proc s (λ q. record q { numthreads = 0; parent = p.pid; pid = newpid; state = alive })
  copy_fds cur s open_max 0
  if node_mem
      then (do update_proc cur (λ q. record q { children = newpid ∷ q.children }); return s)
      else (do proc_destroy s; throw enomem)

-- `fork_common`; the value is the slot of the new process. `raw` and the flags are those of
-- `proc_create`.
unfoldable pub fork_common : ℕ → Option Proc → Bool → Bool → Bool → Bool → M Kernel ℕ
fork_common cur raw name_mem lock_mem cv_mem node_mem = do
  newpid ← pt_get_open_pid
  if newpid == pid_invalid then throw enproc else (do
    created ← proc_create false raw name_mem lock_mem cv_mem
    elim created [
      | none ↦ throw enomem
      | some newproc ↦ fork_into cur (pid_slot newpid) newpid newproc node_mem
    ])

-- `remove_child`: the list of children without the first node of that pid; `none` where there is
-- no such node, which the code asserts.
unfoldable pub remove_child : ℕ → List ℕ → Option (List ℕ)
remove_child pid [] = none
remove_child pid (c ∷ cs) =
    let rest = remove_child pid cs in
    if c == pid then some cs else elim rest [ none ↦ none | some ds ↦ some (c ∷ ds) ]

-- The loop of `kern__exit` over the descriptors, from `i` on.
unfoldable pub close_fds : ℕ → ℕ → ℕ → M Kernel (Unit {0})
close_fds cur zero i = return tt
close_fds cur (suc rounds) i =
    let rest = close_fds cur rounds (i + 1) in
    do x ← get_fd cur i; if x == fd_free then return tt else ft_close cur i; rest

-- The macros `_MKWAIT_EXIT` and `_MKWAIT_SIG` of kern/include/kern/wait.h, on 32-bit patterns.
abbrev pub mkwait_exit : ℕ → ℕ
mkwait_exit code = code * 4 % 2 ^ 32

abbrev pub mkwait_sig : ℕ → ℕ
mkwait_sig signal = (signal * 4 + 1) % 2 ^ 32

-- `(options & ~WNOHANG) > 0`, for the 32-bit pattern of the `int` options
abbrev pub bad_options : ℕ → Bool
bad_options options = ltb 0 (options / 2) && ltb options (2 ^ 31)

abbrev pub nohang : ℕ → Bool
nohang options = options % 2 == 1

-- The slot of a pid that is a user pid and not the caller's own.
abbrev pub wait_target : ℤ → ℕ → Option ℕ
wait_target (pos pid) own =
    if leb pid_max pid || pid == pid_invalid || pid == own then none else some (pid_slot pid)
wait_target (negsuc n) own = none

-- What the caller passes for the status, and how copying to it goes.
pub data Status : Type 0 where
  -- NULL
  no_status : Status
  -- a kernel pointer
  kernel_status : Status
  -- a user pointer: the answer of `copycheck`, an error or a length, and that of `copyout`
  user_status : Errno ⊎ ℕ → Option Errno → Status

-- What runs while the caller sleeps changes the tables; the caller goes on in the new state.
abbrev pub sleep : (Kernel → Kernel) → M Kernel (Unit {0})
sleep others k = ret tt (others k)

-- `waitpid_common` from the point where the child, in slot `s`, is awake or dead. The value is the
-- exit code that is copied.
unfoldable pub wait_collect : ℕ → ℕ → Option Errno → (Kernel → Kernel) → M Kernel ℕ
wait_collect cur s copied others = do
  child ← the_proc s
  p ← the_proc cur
  children ← deref (remove_child child.pid p.children)
  k ← get
  put (set_proc k cur (some (record p { children = children })))
  if child.numthreads == 0 then return tt else sleep others
  proc_destroy s
  elim copied [ none ↦ return child.exit_code | some e ↦ throw e ]

-- From the point where the pid and the status are checked.
unfoldable pub wait_child :
    ℕ → ℕ → ℕ → Option Errno → (Kernel → Kernel) → (Kernel → Kernel) → M Kernel ℕ
wait_child cur s options copied others others' = do
  k ← get
  elim (proc_at k s) [
    | none ↦ throw esrch
    | some child ↦ do
      p ← the_proc cur
      if child.parent == p.pid
          then elim child.state [
            | zombie ↦ wait_collect cur s copied others'
            | alive ↦
                if nohang options
                then throw other
                else (do sleep others; wait_collect cur s copied others')
          ]
          else throw echild
  ]

-- `copied` is what `copyout` says of a user status. A status pointer of which fewer than four bytes
-- are accessible makes the call return 0 at once: `none`.
unfoldable pub wait_checked :
    ℕ → ℤ → ℕ → Option Errno → (Kernel → Kernel) → (Kernel → Kernel) → M Kernel (Option ℕ)
wait_checked cur pid options copied others others' = do
  p ← the_proc cur
  elim (wait_target pid p.pid) [
    | none ↦ throw esrch
    | some s ↦ do code ← wait_child cur s options copied others others'; return (some code)
  ]

unfoldable pub waitpid_common :
    ℕ → ℤ → Status → ℕ → (Kernel → Kernel) → (Kernel → Kernel) → M Kernel (Option ℕ)
waitpid_common cur pid no_status options others others' = do
  check (not (bad_options options)) einval
  wait_checked cur pid options none others others'
waitpid_common cur pid kernel_status options others others' = do
  check (not (bad_options options)) einval
  wait_checked cur pid options none others others'
waitpid_common cur pid (user_status (inl e) copied) options others others' = do
  check (not (bad_options options)) einval
  throw e
waitpid_common cur pid (user_status (inr len) copied) options others others' = do
  check (not (bad_options options)) einval
  if len == 4 then wait_checked cur pid options copied others others' else return none

-- A call whose error is ignored.
abbrev pub ignore : {A : Type 0} → M Kernel A → M Kernel (Unit {0})
ignore m k = elim (m k) [ ret a t ↦ ret tt t | fail e t ↦ ret tt t | panic ↦ panic ]

-- `clear_children`: the list is read ahead of each call.
unfoldable pub clear_children : ℕ → (Kernel → Kernel) → List ℕ → M Kernel (Unit {0})
clear_children cur others [] = return tt
clear_children cur others (pid ∷ pids) =
    let rest = clear_children cur others pids in
    do ignore (waitpid_common cur (pos pid) kernel_status 1 (λ k. k) others); rest

-- The last part of `kern__exit`: bury the process, or signal its parent. The value tells whether the
-- parent was signalled.
unfoldable pub exit_notify : Proc → M Kernel Bool
exit_notify me = do
  parent ← pt_get_proc me.parent
  let bury : M Kernel Bool = pt_bury_proc me.pid >> return false
  elim parent [ none ↦ bury | some q ↦ elim q.state [ zombie ↦ bury | alive ↦ return true ] ]

-- The exit code; `signal` is `none` for -1.
abbrev pub wait_code : ℕ → Option ℕ → ℕ
wait_code exitcode none = mkwait_exit exitcode
wait_code exitcode (some n) = mkwait_sig n

-- `kern__exit` up to `thread_exit`.
unfoldable pub kern__exit : ℕ → ℕ → Option ℕ → (Kernel → Kernel) → M Kernel Bool
kern__exit cur exitcode signal others = do
  pt_reap_coffin
  update_proc cur (λ p. record p { state = zombie; exit_code = wait_code exitcode signal })
  close_fds cur open_max 0
  me ← the_proc cur
  clear_children cur others me.children
  exit_notify me
