-- ===== src/Uio.antt =====
-- kern/lib/uio.c: moving bytes between a kernel buffer and the blocks that a `struct uio` names. What
-- copyin and copyout answer is an argument.
pub mod Moves
pub mod Zeros
use longcat_os.Base.{
  ℕ, zero, suc, Option, none, some, List, [], ◌∷◌, ◌++◌, Bool, true, false, ◌||◌, ◌+◌, ◌-◌, ◌%◌,
  ◌^◌, ◌==◌, ltb, min, if◌then◌else◌,
}
use longcat_os.Base.Outcome.{M, Errno, panic, ◌>>=◌, ◌>>◌, return, throw, get, put, kassert}

-- `struct iovec`
pub record Iovec : Type 0 where
  pub base : ℕ
  pub len : ℕ

-- `enum uio_seg`
pub data Segflg : Type 0 where
  userispace userspace sysspace : Segflg

-- `enum uio_rw`
pub data Direction : Type 0 where
  read write : Direction

-- A copy that was made: the address in the kernel buffer, that in the block, and the size
pub record Copy : Type 0 where
  pub at : ℕ
  pub block : ℕ
  pub size : ℕ

-- `struct uio`. `space` says whether `uio_space` is NULL, for the kernel, or the current address
-- space, for a process; `copies` logs what was copied.
pub record Uio : Type 0 where
  pub iov : List Iovec
  pub offset : ℕ
  pub resid : ℕ
  pub segflg : Segflg
  pub rw : Direction
  pub space : Bool
  pub copies : List Copy

-- The answer of copyin and copyout for a direction, two addresses and a size
abbrev pub CopyAnswer : Type 0
CopyAnswer = Direction → ℕ → ℕ → ℕ → Option Errno

-- memmove does not fail.
abbrev pub copy_result : CopyAnswer → Uio → ℕ → ℕ → ℕ → Option Errno
copy_result answer u ptr base size = elim u.segflg [
  | sysspace ↦ none
  | userspace ↦ answer u.rw ptr base size
  | userispace ↦ answer u.rw ptr base size
]

-- The end of a round of the loop, after `size` bytes went from or to `v`
abbrev pub advanced : Uio → Iovec → List Iovec → ℕ → ℕ → Uio
advanced u v vs ptr size = record u {
  iov = record { base = v.base + size; len = v.len - size } ∷ vs;
  offset = (u.offset + size) % 2 ^ 64;
  resid = (u.resid + 2 ^ 32 - size) % 2 ^ 32;
  copies = u.copies ++ (record { at = ptr; block = v.base; size = size } ∷ []);
}

-- The loop of `uiomove`; a round that is one too many for the fuel is a panic.
unfoldable pub uiomove_loop : CopyAnswer → ℕ → ℕ → ℕ → M Uio (Unit {0})
uiomove_loop answer zero ptr n u = panic
uiomove_loop answer (suc fuel) ptr n u = elim ((n == 0) || (u.resid == 0)) [
  | true ↦ return tt u
  | false ↦ elim u.iov [
    | [] ↦ panic
    | v ∷ vs ↦ elim (min v.len n == 0) [
      | true ↦ elim vs [
        | [] ↦ panic
        | w ∷ ws ↦ uiomove_loop answer fuel ptr n (record u { iov = w ∷ ws })
      ]
      | false ↦ elim (copy_result answer u ptr v.base (min v.len n)) [
        | some e ↦ throw e u
        | none ↦
            uiomove_loop answer fuel (ptr + min v.len n) (n - min v.len n)
              (advanced u v vs ptr (min v.len n))
      ]
    ]
  ]
]

abbrev pub blocks : List Iovec → ℕ
blocks [] = 0
blocks (v ∷ vs) = suc (blocks vs)

-- Every round uses up a byte of `n` or a block.
unfoldable pub uiomove : CopyAnswer → ℕ → ℕ → M Uio (Unit {0})
uiomove answer ptr n = do u ← get; kassert u.space; uiomove_loop answer (n + blocks u.iov + 1) ptr n

abbrev pub is_read : Direction → Bool
is_read read = true
is_read write = false

-- The loop of `uiomovezeros`: `buffer` is the address of its sixteen zero bytes.
unfoldable pub uiomovezeros_loop : CopyAnswer → ℕ → ℕ → ℕ → M Uio (Unit {0})
uiomovezeros_loop answer zero buffer n u = panic
uiomovezeros_loop answer (suc fuel) buffer n u = elim (n == 0) [
  | true ↦ return tt u
  | false ↦
      ◌>>◌ (uiomove answer buffer (min 16 n)) (uiomovezeros_loop answer fuel buffer (n - min 16 n))
        u
]

unfoldable pub uiomovezeros : CopyAnswer → ℕ → ℕ → M Uio (Unit {0})
uiomovezeros answer buffer n = do
  u ← get
  kassert (is_read u.rw)
  uiomovezeros_loop answer (n + 1) buffer n

-- `uio_kinit`
abbrev pub uio_kinit : ℕ → ℕ → ℕ → Direction → Uio
uio_kinit kbuf len pos rw = record {
  iov = record { base = kbuf; len = len } ∷ [];
  offset = pos;
  resid = len;
  segflg = sysspace;
  rw = rw;
  space = true;
  copies = [];
}

-- `uio_uinit`; the flag says whether the address space is the current one.
abbrev pub uio_uinit : Bool → ℕ → ℕ → ℕ → Direction → Uio
uio_uinit current ubuf len pos rw = record {
  iov = record { base = ubuf; len = len } ∷ [];
  offset = pos;
  resid = len;
  segflg = userspace;
  rw = rw;
  space = current;
  copies = [];
}
