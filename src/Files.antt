-- ===== src/Files.antt =====
-- kern/vfs/filetable.c and the system calls on descriptors: kern/syscall/close.c, dup2.c, open.c,
-- lseek.c and readwrite.c. `cur` is the slot of the calling process.
pub mod Refs
pub mod Move
pub mod Close
pub mod Calls
pub mod Dup
pub mod Open
pub mod Io
use longcat_os.Base.{
  ℕ, zero, suc, Option, none, some, List, [], ◌∷◌, Bool, true, false, not, ◌&&◌, ◌||◌, ◌+◌, ◌-◌,
  ◌%◌, ◌^◌, ◌==◌, ltb, if◌then◌else◌,
}
use longcat_os.Base.Int.{ℤ, pos, negsuc, is_neg, add_off}
use longcat_os.Base.Outcome.{
  M, Errno, ebadf, emfile, enfile, efault, enomem, espipe, einval, ◌>>=◌, ◌>>◌, return, throw, get,
  put, kassert, deref,
}
use longcat_os.Kernel.{Kernel, Handle, open_max, fd_free, slot, set_slot, get_fd, set_fd, the_proc}

-- `fd < 0 || fd >= OPEN_MAX` fails
abbrev pub valid_fd : ℤ → Option ℕ
valid_fd (pos n) = if ltb n open_max then some n else none
valid_fd (negsuc n) = none

-- `vfs_close`, as far as the tables see it
abbrev pub vfs_close : ℕ → M Kernel (Unit {0})
vfs_close vn = do k ← get; put (record k { closed = vn ∷ k.closed })

-- `fh_init`; the flag says whether both of its allocations succeed.
unfoldable pub fh_init : ℕ → ℕ → Bool → Option Handle
fh_init file flags mem =
    if mem
    then some (record { file = file; off = pos 0; refcount = 1; open_flags = flags })
    else none

-- What the slot holds after `fh_close`: the handle with one reference less, or NULL.
unfoldable pub fh_close : Handle → M Kernel (Option Handle)
fh_close h =
    if ltb 1 h.refcount
    then return (some (record h { refcount = h.refcount - 1 }))
    else (do vfs_close h.file; return none)

unfoldable pub fh_incref : ℕ → M Kernel (Unit {0})
fh_incref i = do
  k ← get
  h ← deref (slot k i)
  put (set_slot k i (some (record h { refcount = (h.refcount + 1) % 2 ^ 32 })))

unfoldable pub fh_decref : ℕ → M Kernel (Unit {0})
fh_decref i = do
  k ← get
  h ← deref (slot k i)
  put (set_slot k i (some (record h { refcount = (h.refcount + 2 ^ 32 - 1) % 2 ^ 32 })))

-- `k_filetable->ft_fhs[ftid]`, asserted not to be NULL; a handle is named by its slot.
abbrev pub ft_lookup : ℕ → M Kernel (Option ℕ)
ft_lookup ftid = do k ← get; _h ← deref (slot k ftid); return (some ftid)

-- `ft_get`: the handle of a descriptor, or NULL
unfoldable pub ft_get : ℤ → ℕ → M Kernel (Option ℕ)
ft_get fd i = elim (valid_fd fd) [
  | none ↦ return none
  | some n ↦ do ftid ← get_fd i n; if ftid == fd_free then return none else ft_lookup ftid
]

-- Drop the reference that descriptor `n` of process `i` holds on slot `ftid`, and free `n`.
abbrev pub drop_fd : ℕ → ℕ → ℕ → Handle → M Kernel (Unit {0})
drop_fd i n ftid h = do h' ← fh_close h; k ← get; put (set_slot k ftid h'); set_fd i n fd_free

unfoldable pub ft_close : ℕ → ℕ → M Kernel (Unit {0})
ft_close i fd = do
  kassert (ltb fd open_max)
  ftid ← get_fd i fd
  k ← get
  h ← deref (slot k ftid)
  drop_fd i fd ftid h

unfoldable pub sys_close : ℕ → ℤ → M Kernel (Unit {0})
sys_close cur fd = elim (valid_fd fd) [
  | none ↦ throw ebadf
  | some n ↦ do
    ftid ← get_fd cur n
    k ← get
    if ftid == fd_free
        then throw ebadf
        else elim (slot k ftid) [ none ↦ throw ebadf | some h ↦ drop_fd cur n ftid h ]
]
