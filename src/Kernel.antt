-- ===== src/Kernel.antt =====
-- The kernel's process and file tables: kern/include/proc.h and kern/include/filetable.h, with the
-- limits of kern/include/kern/limits.h. A pointer to a process is its slot in `pt_procs`, and a
-- pointer to a file handle its slot in `ft_fhs`. The spinlocks and locks are not fields: each
-- system call is one step.
use longcat_os.Base.{◌≡◌, arith, ℕ, Option, none, some, List, ◌^◌, ◌%◌, set, get_elem?}
use longcat_os.Base.Int.{ℤ}
use longcat_os.Base.Outcome.{ret, M, ◌>>=◌, get, put, deref}

abbrev pub open_max : ℕ
open_max = 128

abbrev pub ft_max : ℕ
ft_max = 255

abbrev pub fd_free : ℕ
fd_free = 255

abbrev pub proc_max : ℕ
proc_max = 128

abbrev pub pid_min : ℕ
pid_min = 2

abbrev pub pid_max : ℕ
pid_max = 32767

abbrev pub pid_invalid : ℕ
pid_invalid = 0

-- `struct file_handle`; a vnode is a number.
pub record Handle : Type 0 where
  pub file : ℕ
  pub off : ℤ
  pub refcount : ℕ
  pub open_flags : ℕ

-- `proc_state_t`
pub data ProcState : Type 0 where
  alive zombie : ProcState

-- `struct proc`, without its name, address space, directory, file system and locks. `children` is
-- the list of `struct p_node`.
pub record Proc : Type 0 where
  pub fds : List ℕ
  pub pid : ℕ
  pub exit_code : ℕ
  pub state : ProcState
  pub parent : ℕ
  pub children : List ℕ
  pub numthreads : ℕ

-- `k_filetable` and `k_proctable`. `closed` logs the vnodes that were handed to `vfs_close`.
pub record Kernel : Type 0 where
  pub fhs : List (Option Handle)
  pub procs : List (Option Proc)
  pub most_recent_pid : ℕ
  pub coffin : ℕ
  pub closed : List ℕ

-- A slot of an array of pointers: `none` is NULL.
abbrev pub join : {A : Type 0} → Option (Option A) → Option A
join none = none
join (some o) = o

abbrev pub slot : Kernel → ℕ → Option Handle
slot k i = join (get_elem? k.fhs i)

abbrev pub proc_at : Kernel → ℕ → Option Proc
proc_at k i = join (get_elem? k.procs i)

abbrev pub set_slot : Kernel → ℕ → Option Handle → Kernel
set_slot k i h = record k { fhs = set k.fhs i h }

abbrev pub set_proc : Kernel → ℕ → Option Proc → Kernel
set_proc k i p = record k { procs = set k.procs i p }

-- The process in a slot; a NULL there is dereferenced.
unfoldable pub the_proc : ℕ → M Kernel Proc
the_proc i = do k ← get; deref (proc_at k i)

-- `proc->p_fds[fd]`
unfoldable pub get_fd : ℕ → ℕ → M Kernel ℕ
unfolding the_proc
get_fd i fd = do p ← the_proc i; deref (get_elem? p.fds fd)

-- `proc->p_fds[fd] = ftid`, an assignment to a `uint8_t`
unfoldable pub set_fd : ℕ → ℕ → ℕ → M Kernel (Unit {0})
unfolding the_proc
set_fd i fd ftid = do
  p ← the_proc i
  k ← get
  put (set_proc k i (some (record p { fds = set p.fds fd (ftid % 2 ^ 8) })))

-- The two accesses, where process `i` is there.
pub the_proc_lem : (k : Kernel) (i : ℕ) (p : Proc) → proc_at k i ≡ some p → the_proc i k ≡ ret p k
unfolding the_proc
the_proc_lem k i p e = ground arith

pub get_fd_lem :
    (k : Kernel) (i n a : ℕ) (p : Proc)
    → proc_at k i ≡ some p
    → get_elem? p.fds n ≡ some a
    → get_fd i n k ≡ ret a k
unfolding get_fd
get_fd_lem k i n a p e f = ground arith

pub set_fd_lem :
    (k : Kernel) (i n v : ℕ) (p : Proc)
    → proc_at k i ≡ some p
    → set_fd i n v k ≡ ret tt (set_proc k i (some (record p { fds = set p.fds n (v % 2 ^ 8) })))
unfolding set_fd
set_fd_lem k i n v p e = ground arith
