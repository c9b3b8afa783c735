-- ===== src/Procs.antt =====
-- kern/proc/proc.c: the process table, pids, and making and destroying processes. A process is named
-- by its slot; the kernel's process is in slot 1.
pub mod Pids
pub mod Calls
pub mod Fork
pub mod CopyLoop
pub mod Forked
pub mod Coffin
pub mod Exit
pub mod Wait
use longcat_os.Base.{
  ℕ, zero, suc, Option, none, some, List, [], ◌∷◌, Bool, true, false, not, ◌+◌, ◌%◌, ◌==◌, leb, ltb,
  if◌then◌else◌, get_elem?, replicate,
}
use longcat_os.Base.Outcome.{M, ◌>>=◌, ◌>>◌, return, throw, get, put, kassert, deref}
use longcat_os.Kernel.{
  Kernel, Handle, Proc, open_max, fd_free, proc_max, pid_min, pid_max, pid_invalid, proc_at, join,
  set_proc, the_proc,
}
use longcat_os.Files.{fh_incref, fh_decref}

-- The loop of `pt_get_open_pid` with its rounds left; `none` is PID_INVALID.
unfoldable pub find_pid : List (Option Proc) → ℕ → ℕ → ℕ → Option ℕ
find_pid procs recent zero i = none
find_pid procs recent (suc rounds) i =
    let j = if leb pid_max i then pid_min else i in
    let rest = find_pid procs recent rounds (j + 1) in
    if j == recent
    then none
    else elim (join (get_elem? procs (j % proc_max))) [ none ↦ some j | some p ↦ rest ]

unfoldable pub pt_get_open_pid : M Kernel ℕ
pt_get_open_pid k = elim (find_pid k.procs k.most_recent_pid proc_max (k.most_recent_pid + 1)) [
  | none ↦ return pid_invalid k
  | some i ↦ return i (record k { most_recent_pid = i })
]

-- The slot that `pt_get_proc` looks into, and what it finds there.
abbrev pub pid_slot : ℕ → ℕ
pid_slot pid = pid % proc_max

unfoldable pub pt_get_proc : ℕ → M Kernel (Option Proc)
pt_get_proc pid = do k ← get; return (proc_at k (pid_slot pid))

-- The descriptors of a new process: 0, 1 and 2 name the console handles.
abbrev pub std_fds : List ℕ
std_fds = 0 ∷ 1 ∷ 2 ∷ replicate 125 fd_free

unfoldable pub incref_std : M Kernel (Unit {0})
incref_std = do fh_incref 0; fh_incref 1; fh_incref 2

unfoldable pub decref_std : M Kernel (Unit {0})
decref_std = do fh_decref 0; fh_decref 1; fh_decref 2

abbrev pub unless : Bool → M Kernel (Unit {0}) → M Kernel (Unit {0})
unless true m = return tt
unless false m = m

-- `proc_create`; `kernel` says that the name is "[kernel]". `raw` is the memory that kmalloc hands out
-- (its fields have any values), or NULL; the flags say whether `kstrdup`, `lock_create` and `cv_create`
-- succeed.
unfoldable pub proc_create : Bool → Option Proc → Bool → Bool → Bool → M Kernel (Option Proc)
proc_create kernel none name_mem lock_mem cv_mem = return none
proc_create kernel (some raw) false lock_mem cv_mem = do unless kernel decref_std; return none
proc_create kernel (some raw) true false cv_mem = do
  unless kernel incref_std
  unless kernel decref_std
  return none
proc_create kernel (some raw) true true false = do
  unless kernel incref_std
  unless kernel decref_std
  return none
proc_create kernel (some raw) true true true = do
  unless kernel incref_std
  return (some (record raw { numthreads = 0; fds = std_fds; children = [] }))

-- `proc_destroy`: the directory and the address space are given up, and the slot of the pid is
-- cleared. The descriptors are not closed.
unfoldable pub proc_destroy : ℕ → M Kernel (Unit {0})
proc_destroy i = do
  kassert (not (i == 1))
  p ← the_proc i
  kassert (p.numthreads == 0)
  k ← get
  put (set_proc k (pid_slot p.pid) none)

-- `pt_reap_coffin`: the table is indexed by the pid in the coffin itself.
unfoldable pub pt_reap_coffin : M Kernel (Unit {0})
pt_reap_coffin k =
    if k.coffin == pid_invalid
    then return tt k
    else (do
      orphan ← deref (get_elem? k.procs k.coffin)
      _p ← deref orphan
      put (record k { coffin = pid_invalid })
      proc_destroy k.coffin)
        k

unfoldable pub pt_bury_proc : ℕ → M Kernel (Unit {0})
pt_bury_proc pid = do k ← get; kassert (k.coffin == pid_invalid); put (record k { coffin = pid })
