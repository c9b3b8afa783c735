-- ===== src/Files/Calls.antt =====
-- kern/syscall/dup2.c, open.c, lseek.c and readwrite.c. What the virtual file system, the copy
-- routines and kmalloc answer are arguments.
use longcat_os.Base.{ℕ, suc, Option, none, some, List, [], ◌∷◌, Bool, ◌%◌, ◌==◌, if◌then◌else◌}
use longcat_os.Base.Int.{ℤ, pos_part}
use longcat_os.Base.Outcome.{
  M, Errno, ebadf, emfile, enfile, efault, enomem, ◌>>=◌, ◌>>◌, return, throw, get, put, kassert,
  check,
}
use longcat_os.Kernel.{Kernel, Handle, fd_free, set_slot, get_fd, set_fd, the_proc}
use longcat_os.Files.{valid_fd, vfs_close, fh_init, fh_incref, ft_get, sys_close}

-- The tail of `sys_dup2`: the handle in slot `a` is known, and `n` is the new descriptor.
unfoldable pub dup_onto : ℕ → ℕ → ℤ → ℕ → ℕ → M Kernel ℕ
dup_onto cur m newfd n a = do
  old ← get_fd cur n
  if old == fd_free then return tt else sys_close cur newfd
  fh_incref a
  ftid ← get_fd cur m
  set_fd cur n ftid
  return n

unfoldable pub sys_dup2 : ℕ → ℤ → ℤ → M Kernel ℕ
sys_dup2 cur oldfd newfd = do
  old_fh ← ft_get oldfd cur
  elim old_fh [
    | none ↦ throw ebadf
    | some a ↦ elim (valid_fd newfd) [
      | none ↦ throw ebadf
      | some n ↦ do
        ftid ← get_fd cur (pos_part oldfd)
        if ftid == fd_free
            then throw ebadf
            else if pos_part oldfd == n
            then return n
            else dup_onto cur (pos_part oldfd) newfd n a
    ]
  ]

-- `for (i = 0; ...) if (p_fds[i] == FD_FREE)`, over the whole array
unfoldable pub first_free : List ℕ → Option ℕ
first_free [] = none
first_free (x ∷ xs) =
    let rest = first_free xs in
    if x == fd_free then some 0 else elim rest [ none ↦ none | some i ↦ some (suc i) ]

-- `for (i = 0; ...) if (ft_fhs[i] == NULL)`, over the whole table
unfoldable pub first_null : List (Option Handle) → Option ℕ
first_null [] = none
first_null (none ∷ hs) = some 0
first_null (some h ∷ hs) = elim (first_null hs) [ none ↦ none | some i ↦ some (suc i) ]

-- What `vfs_open` answers.
pub data VfsOpen : Type 0 where
  refused : Errno → VfsOpen
  opened : ℕ → VfsOpen

-- The rest of `sys_open`, once a descriptor and a slot are found.
unfoldable pub open_at : ℕ → ℕ → ℕ → ℕ → Bool → VfsOpen → Bool → M Kernel ℕ
open_at cur fd ft_index flags copied (refused e) mem = do check copied efault; throw e
open_at cur fd ft_index flags copied (opened vn) mem = do
  check copied efault
  elim (fh_init vn (flags % 4) mem) [
    | none ↦ (do vfs_close vn; throw enomem)
    | some fh ↦ do
      k ← get
      put (set_slot k ft_index (some fh))
      old ← get_fd cur fd
      kassert (old == fd_free)
      set_fd cur fd ft_index
      return fd
  ]

-- `copied`: `copyinstr` succeeds; `mem`: the allocations of `fh_init` do.
unfoldable pub sys_open : ℕ → ℕ → Bool → VfsOpen → Bool → M Kernel ℕ
sys_open cur flags copied vfs mem = do
  p ← the_proc cur
  elim (first_free p.fds) [
    | none ↦ throw emfile
    | some fd ↦ do
      k ← get
      elim (first_null k.fhs) [
        | none ↦ throw enfile
        | some ft_index ↦ open_at cur fd ft_index flags copied vfs mem
      ]
  ]
