-- ===== src/Procs/Coffin.antt =====
-- The coffin: `pt_bury_proc` and `pt_reap_coffin`.
use longcat_os.Base.{
  ℕ, none, some, ◌≤◌, ◌<◌, ◌≡◌, ◌≢◌, arith, length, get_elem?, Option-cases, inl, inr,
  lt-length_of_get, ap,
}
use longcat_os.Base.Outcome.{ret, panic, ◌>>◌}
use longcat_os.Kernel.{Kernel, Proc, proc_max, pid_invalid, proc_at, set_proc, the_proc_lem}
use longcat_os.Procs.{pt_bury_proc, pt_reap_coffin, proc_destroy, pid_slot}

-- Burying needs an empty coffin.
pub pt_bury_proc_lem :
    (k : Kernel) (pid : ℕ)
    → k.coffin ≡ pid_invalid
    → pt_bury_proc pid k ≡ ret tt (record k { coffin = pid })
unfolding pt_bury_proc
pt_bury_proc_lem k pid e = ground arith

pub proc_destroy_lem :
    (k : Kernel) (i : ℕ) (p : Proc)
    → proc_at k i ≡ some p
    → i ≢ 1
    → p.numthreads ≡ 0
    → proc_destroy i k ≡ ret tt (set_proc k (pid_slot p.pid) none)
unfolding proc_destroy
proc_destroy_lem k i p e n1 n0 = ground (arith, the_proc_lem k i p e)

-- A pid at or above PROC_MAX that is put in the coffin makes the next `pt_reap_coffin` read outside
-- the process table, whatever the table holds: the table is indexed by the pid and not by the pid
-- modulo PROC_MAX.
pub pt_reap_coffin_out_of_bounds :
    (k : Kernel) (pid : ℕ)
    → length k.procs ≡ proc_max
    → k.coffin ≡ pid_invalid
    → proc_max ≤ pid
    → (pt_bury_proc pid >> pt_reap_coffin) k ≡ panic
unfolding pt_bury_proc pt_reap_coffin
pt_reap_coffin_out_of_bounds k pid l e h = elim (Option-cases (get_elem? k.procs pid)) [
  | inl f ↦ ground arith
  | inr (o, f) ↦ absurd (omega (arith, lt-length_of_get k.procs pid f))
]

-- With the coffin empty, a process without threads (p_numthreads is 0) whose pid is above 1 and
-- below PROC_MAX and that is buried is reaped by the next pt_reap_coffin, which frees its slot,
-- empties the coffin and changes nothing more.
pub bury-reap :
    (k : Kernel) (pid : ℕ) (p : Proc)
    → k.coffin ≡ pid_invalid
    → 1 < pid
    → pid < proc_max
    → proc_at k pid ≡ some p
    → p.pid ≡ pid
    → p.numthreads ≡ 0
    → (pt_bury_proc pid >> pt_reap_coffin) k ≡ ret tt (set_proc k pid none)
unfolding pt_bury_proc pt_reap_coffin
bury-reap k pid p e lo hi ep ei en = ground (
  arith,
  proc_destroy_lem (record k { coffin = pid_invalid }) pid p ep (omega arith) en,
  ap pid_slot ei,
)
