-- ===== src/Files/Io.antt =====
-- kern/syscall/lseek.c and readwrite.c: the offset of an open file. What the vnode operations
-- answer is an argument: `VOP_ISSEEKABLE`, `VOP_STAT`, and `VOP_READ` or `VOP_WRITE`.
pub mod Offsets
pub mod Transfers
use longcat_os.Base.{
  ℕ, zero, suc, Option, none, some, Bool, true, false, not, ◌&&◌, ◌||◌, ◌+◌, ◌-◌, ◌%◌, ◌^◌, ◌==◌,
  if◌then◌else◌,
}
use longcat_os.Base.Int.{ℤ, pos, negsuc, is_neg, wrap64, add_off}
use longcat_os.Base.Outcome.{
  M, Errno, ebadf, espipe, einval, ◌>>=◌, ◌>>◌, return, throw, get, put, deref,
}
use longcat_os.Kernel.{Kernel, Handle, slot, set_slot}
use longcat_os.Files.{ft_get}

-- What a vnode operation answers: an error, or a number.
pub data Vop (A : Type 0) : Type 0 where
  vop_err : Errno → Vop A
  vop_ok : A → Vop A

abbrev pub seek_set : ℕ
seek_set = 0

abbrev pub seek_cur : ℕ
seek_cur = 1

abbrev pub seek_end : ℕ
seek_end = 2

-- The offset that `sys_lseek` sets, or its error: the switch on `whence`.
unfoldable pub lseek_target : ℤ → ℤ → ℕ → Vop ℤ → Vop ℤ
lseek_target old delta whence st_size =
    if whence == seek_set
    then (if is_neg delta then vop_err einval else vop_ok delta)
    else if whence == seek_cur
    then (if is_neg (add_off delta old) then vop_err einval else vop_ok (add_off old delta))
    else if whence == seek_end
    then elim st_size [
      | vop_err e ↦ vop_err e
      | vop_ok size ↦
          if is_neg (add_off size delta) then vop_err einval else vop_ok (add_off size delta)
    ]
    else vop_err einval

module _ (isseekable : ℕ → Bool) (stat : ℕ → Vop ℤ) where
  unfoldable pub sys_lseek : ℕ → ℤ → ℤ → ℕ → M Kernel ℤ
  sys_lseek cur fd delta whence = do
    fh ← ft_get fd cur
    elim fh [
      | none ↦ throw ebadf
      | some a ↦ do
        k ← get
        h ← deref (slot k a)
        if isseekable h.file
            then elim (lseek_target h.off delta whence (stat h.file)) [
              | vop_err e ↦ throw e
              | vop_ok off ↦ do put (set_slot k a (some (record h { off = off }))); return off
            ]
            else throw espipe
    ]

-- `uio_offset` and `uio_resid` after the transfer
pub record Uio : Type 0 where
  pub offset : ℤ
  pub resid : ℕ

-- The access modes: O_RDONLY 0, O_WRONLY 1, O_RDWR 2, under O_ACCMODE 3. `rw` is true for a write.
abbrev pub refuses : Bool → ℕ → Bool
refuses rw flags = not rw && flags % 4 == 1 || rw && flags % 4 == 0

-- A conversion to `size_t`.
abbrev pub to_size : ℤ → ℕ
to_size (pos n) = n % 2 ^ 32
to_size (negsuc n) = 2 ^ 32 - 1 - n % 2 ^ 32

-- `vop` answers for `VOP_WRITE` or `VOP_READ`, from the file, the offset, the length and `rw`.
-- The value is what goes to `*retval`, a `size_t`.
module _ (isseekable : ℕ → Bool) (vop : ℕ → ℤ → ℕ → Bool → Vop Uio) where
  unfoldable pub readwrite : ℕ → ℤ → ℕ → Bool → M Kernel ℕ
  readwrite cur fd nbytes rw = do
    fh ← ft_get fd cur
    elim fh [
      | none ↦ throw ebadf
      | some a ↦ do
        k ← get
        h ← deref (slot k a)
        if refuses rw h.open_flags then throw ebadf else elim (vop h.file h.off nbytes rw) [
          | vop_err e ↦ throw e
          | vop_ok ku ↦
              if isseekable h.file
              then (do
                put (set_slot k a (some (record h { off = ku.offset })))
                return ((nbytes + 2 ^ 32 - ku.resid) % 2 ^ 32))
              else return (to_size ku.offset)
        ]
    ]

  pub sys_read : ℕ → ℤ → ℕ → M Kernel ℕ
  sys_read cur fd buflen = readwrite cur fd buflen false

  pub sys_write : ℕ → ℤ → ℕ → M Kernel ℕ
  sys_write cur fd nbytes = readwrite cur fd nbytes true
