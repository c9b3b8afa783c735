-- ===== src/Procs/Pids.antt =====
-- `pt_get_open_pid` and `pt_get_proc`: which pids are given out, and what a pid finds.
use longcat_os.Base.{
  ℕ, zero, suc, Option, none, some, List, ◌+◌, ◌-◌, ◌%◌, ◌≤◌, ◌<◌, ◌≡◌, ◌≢◌, refl, arith, leb,
  get_elem?, Bool-cases, Option-cases, inl, inr, ◌⊎◌, subst,
}
use native.Mathlib.Nat.{add-zero}
use longcat_os.Base.Outcome.{ret, Post}
use longcat_os.Kernel.{Kernel, Proc, proc_max, pid_min, pid_max, pid_invalid, proc_at, join}
use longcat_os.Procs.{find_pid, pt_get_open_pid, pid_slot}

-- A pid that the search gives out is a user pid, its slot is free, and it is not the last one.
pub find_pid-some :
    (procs : List (Option Proc)) (recent rounds i j : ℕ)
    → pid_min ≤ i
    → find_pid procs recent rounds i ≡ some j
    → (pid_min ≤ j) × (j < pid_max) × (j ≢ recent) × (join (get_elem? procs (j % proc_max)) ≡ none)
unfolding find_pid
find_pid-some procs recent zero i j h e = absurd (cc)
find_pid-some procs recent (suc rounds) i j h e = elim (Bool-cases (leb pid_max i)) [
  | inl b ↦ ground (arith, find_pid-some procs recent rounds (pid_min + 1) j)
  | inr b ↦ ground (arith, find_pid-some procs recent rounds (i + 1) j)
]

-- Where the search does not wrap round and gives up, it has seen a process in each slot.
pub find_pid-none :
    (procs : List (Option Proc)) (recent rounds i : ℕ)
    → recent < i
    → i + rounds ≤ pid_max
    → find_pid procs recent rounds i ≡ none
    → (d : ℕ) → d < rounds
    → join (get_elem? procs ((i + d) % proc_max)) ≢ none
unfolding find_pid
find_pid-none procs recent zero i r h e d l = absurd (omega arith)
find_pid-none procs recent (suc rounds) i r h e zero l = rw add-zero (ground arith)
find_pid-none procs recent (suc rounds) i r h e (suc d) l =
    let s : i + suc d ≡ i + 1 + d = omega arith in
    rw s (
      find_pid-none procs recent rounds (i + 1) (omega arith) (omega arith) (ground arith) d
        (omega arith))

-- What `pt_get_open_pid` leaves when it gives out `pid`: no process and no handle changed, and either
-- the pid is PID_INVALID and nothing changed, or it is a user pid whose slot is free.
abbrev pub OpenPid : Kernel → ℕ → Kernel → Type 0
OpenPid k pid k' =
    (k'.procs ≡ k.procs)
    × (k'.fhs ≡ k.fhs)
    × (((pid ≡ pid_invalid) × (k' ≡ k))
        ⊎ ((pid_min ≤ pid)
            × (pid < pid_max)
            × (pid ≢ k.most_recent_pid)
            × (proc_at k (pid_slot pid) ≡ none)
            × (k'.most_recent_pid ≡ pid)))

-- `pt_get_open_pid` changes no process. A pid that it gives out is a user pid (at least PID_MIN and
-- below PID_MAX), its slot of the table is free, it differs from the one given out before, and it is
-- remembered; where it gives PID_INVALID nothing changes.
pub pt_get_open_pid-Post :
    (k : Kernel) → pid_min ≤ k.most_recent_pid + 1 → Post (OpenPid k) (λ k'. ⊥) (pt_get_open_pid k)
unfolding pt_get_open_pid
pt_get_open_pid-Post k h =
    elim (Option-cases (find_pid k.procs k.most_recent_pid proc_max (k.most_recent_pid + 1))) [
      | inl e ↦ rw (e, pt_get_open_pid, Post) (refl, refl, inl (refl, refl))
      | inr (j, e) ↦
          let (lo, hi, ne, free) = find_pid-some k.procs k.most_recent_pid proc_max _ j h e in
          rw (e, pt_get_open_pid, Post) (refl, refl, inr (lo, hi, ne, free, refl))
    ]

-- Where the search for a pid cannot reach PID_MAX, PID_INVALID means that every slot of the table
-- has a process.
pub pt_get_open_pid_complete :
    (k k' : Kernel)
    → pid_min ≤ k.most_recent_pid + 1
    → k.most_recent_pid + 1 + proc_max ≤ pid_max
    → pt_get_open_pid k ≡ ret pid_invalid k'
    → (s : ℕ) → s < proc_max
    → proc_at k s ≢ none
unfolding pt_get_open_pid
pt_get_open_pid_complete k k' lo h e s l =
    elim (Option-cases (find_pid k.procs k.most_recent_pid proc_max (k.most_recent_pid + 1))) [
      | inl f ↦
          let i : ℕ = k.most_recent_pid + 1 in
          let d : ℕ = (s + proc_max - i % proc_max) % proc_max in
          let hit : (i + d) % proc_max ≡ s = omega arith in
          subst (λ x. proc_at k x ≢ none) hit
            (find_pid-none k.procs k.most_recent_pid proc_max i (omega arith) h f d (omega arith))
      | inr (j, f) ↦
          absurd (ground (arith, find_pid-some k.procs k.most_recent_pid proc_max _ j lo f))
    ]
