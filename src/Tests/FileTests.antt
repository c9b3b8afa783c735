-- ===== src/Tests/FileTests.antt =====
-- Descriptors at boot.
use longcat_os.Base.{none, ◌≤◌, ◌≢◌, ℕ, Bool, true, ◌≡◌, refl, arith}
use longcat_os.Base.Int.{ℤ, pos, negsuc}
use longcat_os.Base.Outcome.{ret, fail, Post, ebadf}
use longcat_os.Kernel.{slot, proc_at, Kernel, the_proc, get_fd, set_fd}
use longcat_os.Files.{sys_close, fh_init}
use longcat_os.Files.Calls.{sys_open, sys_dup2, opened, open_at, first_free, first_null}
use longcat_os.Files.Refs.{Inv}
use longcat_os.Files.Close.{Closes, sys_close-Closes}
use longcat_os.Files.Dup.{Dupped, sys_dup2-Dupped}
use longcat_os.Files.Open.{OpensVnode, SameTables, sys_open-Post}
use longcat_os.Files.Io.{Vop, vop_ok, Uio, sys_lseek, readwrite, seek_set, seek_cur, seek_end}
use longcat_os.Files.Io.Offsets.{Sought, sys_lseek-Post, sys_lseek_tell}
use longcat_os.Files.Io.Transfers.{ReadsOrWrites, readwrite-ReadsOrWrites}
use longcat_os.Boot.{console, boot, boot-Inv}
use longcat_os.Tests.Sample.{raw_proc, kernel_proc, booted, booted-Inv}

open_run : (k' : Kernel) × (sys_open 1 2 true (opened 9) true booted ≡ ret 3 k')
unfolding sys_open the_proc get_fd set_fd open_at first_free first_null fh_init
open_run = (_, refl)

close_bad_run : sys_close 1 (negsuc 0) booted ≡ fail ebadf booted
unfolding sys_close
close_bad_run = refl

boot-Inv_example :
    (t : Kernel) × (boot 10 11 12 raw_proc booted ≡ ret tt t)
    × Inv (λ i. 0) t
    × ((i : ℕ) → 3 ≤ i → slot t i ≡ none)
    × ((i : ℕ) → i ≢ 1 → proc_at t i ≡ none)
boot-Inv_example = boot-Inv booted 10 11 12 raw_proc

sys_close-Closes_example : Closes (λ i. 0) booted 1 kernel_proc (pos 1)
sys_close-Closes_example = sys_close-Closes (λ i. 0) booted 1 kernel_proc (pos 1) booted-Inv refl

sys_dup2-Dupped_example :
    (k' : Kernel) × (sys_dup2 1 (pos 1) (pos 5) booted ≡ ret 5 k')
    × Dupped (λ i. 0) kernel_proc 1 5 1 k'
sys_dup2-Dupped_example =
    sys_dup2-Dupped (λ i. 0) booted 1 kernel_proc (pos 1) (pos 5) 1 5 1 booted-Inv
      (λ i ni. omega arith) refl refl refl (omega arith) refl

sys_open-Post_example :
    Post
      (OpensVnode (λ i. 0) booted 1 kernel_proc 2 (opened 9))
      (SameTables booted)
      (sys_open 1 2 true (opened 9) true booted)
sys_open-Post_example =
    sys_open-Post (λ i. 0) booted booted-Inv 1 2 kernel_proc refl true (opened 9) true

abbrev all_seekable : ℕ → Bool
all_seekable vn = true

abbrev sizes : ℕ → Vop ℤ
sizes vn = vop_ok (pos 100)

abbrev moves_four : ℕ → ℤ → ℕ → Bool → Vop Uio
moves_four vn off nbytes rw' = vop_ok (record { offset = pos 4; resid = 0 })

sys_lseek-Post_example :
    Post
      (Sought (λ i. 0) booted)
      (λ k'. k' ≡ booted)
      (sys_lseek all_seekable sizes 1 (pos 1) (pos 7) seek_end booted)
sys_lseek-Post_example =
    sys_lseek-Post all_seekable sizes (λ i. 0) booted booted-Inv 1 kernel_proc refl (pos 1) (pos 7)
      seek_end

sys_lseek_tell_example :
    (k' : Kernel) × (sys_lseek all_seekable sizes 1 (pos 1) (pos 7) seek_set booted
      ≡ ret (pos 7) k')
    × (sys_lseek all_seekable sizes 1 (pos 1) (pos 0) seek_cur k' ≡ ret (pos 7) k')
sys_lseek_tell_example =
    sys_lseek_tell all_seekable sizes (λ i. 0) booted booted-Inv 1 kernel_proc refl (pos 1) 1 1
      (console 11 1) refl refl refl (omega arith) refl 7 (omega arith)

readwrite-ReadsOrWrites_example :
    ReadsOrWrites all_seekable moves_four
      (λ i. 0)
      booted
      kernel_proc
      (pos 1)
      4
      true
      (readwrite all_seekable moves_four 1 (pos 1) 4 true booted)
readwrite-ReadsOrWrites_example =
    readwrite-ReadsOrWrites all_seekable moves_four (λ i. 0) booted booted-Inv 1 kernel_proc refl
      (pos 1) 4 true (omega arith)
