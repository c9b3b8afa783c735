-- ===== src/Tests/ProcTests.antt =====
-- Pids, fork and exit at boot.
use longcat_os.Base.{sym, ℕ, none, some, Bool, true, [], ◌∷◌, ◌≡◌, ◌≢◌, refl, arith, replicate}
use longcat_os.Base.Count.{count, count-replicate_ne}
use longcat_os.Base.Int.{pos}
use longcat_os.Files.Refs.{Inv}
use longcat_os.Procs.Wait.{waitpid_common-zombie}
use longcat_os.Procs.Fork.{insert-Inv}
use longcat_os.Procs.CopyLoop.{Inv-ext}
use longcat_os.Base.Outcome.{ret, panic, Post, ◌>>◌}
use longcat_os.Kernel.{zombie, Kernel, Proc, proc_at, set_proc}
use longcat_os.Procs.{pt_get_open_pid, find_pid, pt_bury_proc, pt_reap_coffin}
use longcat_os.Procs.Calls.{
  fork_common, waitpid_common, kernel_status, remove_child, kern__exit, wait_code,
}
use longcat_os.Procs.Pids.{OpenPid, pt_get_open_pid-Post, pt_get_open_pid_complete}
use longcat_os.Procs.Coffin.{pt_reap_coffin_out_of_bounds, bury-reap}
use longcat_os.Procs.Forked.{Forked, same_fds-Inv, fork_common-Forked}
use longcat_os.Procs.Exit.{Exited, parent_lives, kern__exit-Exited}
use longcat_os.Boot.{boot-Console}
use longcat_os.Tests.Sample.{raw_proc, kernel_proc, booted, booted-Inv}

pt_get_open_pid-Post_example : Post (OpenPid booted) (λ k'. ⊥) (pt_get_open_pid booted)
pt_get_open_pid-Post_example = pt_get_open_pid-Post booted (omega arith)

-- A table without a free slot.
abbrev crowded : Kernel
crowded = record booted { procs = replicate 128 (some kernel_proc) }

pt_get_open_pid_complete_example : proc_at crowded 40 ≢ none
unfolding pt_get_open_pid find_pid
pt_get_open_pid_complete_example =
    pt_get_open_pid_complete crowded crowded (omega arith) (omega arith) refl 40 (omega arith)

fork_common-Forked_example :
    (k' : Kernel) × (fork_common 1 (some raw_proc) true true true true booted ≡ ret 2 k')
    × Forked (λ i. 0) 1 2 2 kernel_proc k'
    × (proc_at booted 2 ≡ none)
unfolding find_pid
fork_common-Forked_example =
    fork_common-Forked (λ i. 0) booted booted-Inv (λ i ni. omega arith)
      (boot-Console 10 11 12 raw_proc []) 1 2 kernel_proc raw_proc refl (omega arith) refl

kern__exit-Exited_example :
    (b : Bool) × (k' : Kernel) × (kern__exit 1 5 none (λ k. k) booted ≡ ret b k')
    × Exited (λ i. 0) 1 (wait_code 5 none) kernel_proc b k'
    × (b ≡ parent_lives k' kernel_proc)
kern__exit-Exited_example =
    kern__exit-Exited (λ i. 0) booted booted-Inv 1 5 none (λ k. k) kernel_proc refl refl refl

-- Pid 300, the third round of the table.
pt_reap_coffin_out_of_bounds_example : (pt_bury_proc 300 >> pt_reap_coffin) booted ≡ panic
pt_reap_coffin_out_of_bounds_example =
    pt_reap_coffin_out_of_bounds booted 300 refl refl (omega arith)

abbrev orphan : Proc
orphan = record kernel_proc { pid = 2 }

abbrev orphaned : Kernel
orphaned = set_proc booted 2 (some orphan)

bury-reap_example : (pt_bury_proc 2 >> pt_reap_coffin) orphaned ≡ ret tt (set_proc orphaned 2 none)
bury-reap_example = bury-reap orphaned 2 orphan refl (omega arith) (omega arith) refl refl refl

-- The kernel's process with a child, pid 2, that exited with code 5.
abbrev dead_child : Proc
dead_child = record raw_proc {
  fds = replicate 128 255;
  pid = 2;
  exit_code = 20;
  state = zombie;
  parent = 1;
}

abbrev parent_proc : Proc
parent_proc = record kernel_proc { children = 2 ∷ [] }

abbrev with_child : Kernel
with_child = set_proc (set_proc booted 1 (some parent_proc)) 2 (some dead_child)

dead_child-free : (j : ℕ) → j ≢ 255 → count j dead_child.fds ≡ 0
dead_child-free j nj = count-replicate_ne j 128 255 (λ e. nj (sym e))

with_child-Inv : Inv (λ i. 0) with_child
with_child-Inv =
    insert-Inv (λ i. 0) (set_proc booted 1 (some parent_proc)) 2 dead_child
      (Inv-ext (λ i. 0) _ _ (λ j nj. omega (arith, dead_child-free j nj))
        (same_fds-Inv (λ i. 0) booted 1 kernel_proc parent_proc booted-Inv refl refl))
      refl refl

waitpid_common-zombie_example :
    (k' : Kernel) × (waitpid_common 1 (pos 2) kernel_status 0 (λ k. k) (λ k. k) with_child
      ≡ ret (some 20) k')
    × Inv (λ i. 0) k'
    × (proc_at k' 2 ≡ none)
    × (proc_at k' 1 ≡ some kernel_proc)
unfolding remove_child
waitpid_common-zombie_example =
    waitpid_common-zombie (λ i. 0) with_child with_child-Inv 1 2 parent_proc dead_child [] (λ k. k)
      (λ k. k) refl refl (omega arith) (omega arith) refl refl refl refl refl dead_child-free 2 0
      refl refl
