-- ===== src/Bitmap.antt =====
-- kern/lib/bitmap.c: an array of bits in bytes. A byte is a number below 256.
pub mod Bytes
pub mod View
pub mod Change
pub mod Search
pub mod Create
use longcat_os.Base.{
  ℕ, zero, suc, Option, none, some, List, [], ◌∷◌, ◌+◌, ◌-◌, ◌*◌, ◌/◌, ◌%◌, ◌^◌, ◌==◌, ltb, Bool,
  ◌&&◌, not, if◌then◌else◌, get_elem?, set, replicate,
}
use longcat_os.Base.Outcome.{M, panic, enospc, ◌>>=◌, ◌>>◌, return, throw, get, put, kassert, deref}

-- `struct bitmap`
pub record Bitmap : Type 0 where
  pub nbits : ℕ
  pub v : List ℕ

-- Bit `k` of `w`, as 0 or 1: `(w & (1 << k)) != 0`
abbrev pub bit : ℕ → ℕ → ℕ
bit w zero = w % 2
bit w (suc k) = bit (w / 2) k

-- `w | (1 << k)`
abbrev pub or_mask : ℕ → ℕ → ℕ
or_mask w k = if bit w k == 0 then w + 2 ^ k else w

-- `w & ~(1 << k)`
abbrev pub and_not_mask : ℕ → ℕ → ℕ
and_not_mask w k = if bit w k == 0 then w else w - 2 ^ k

-- `DIVROUNDUP` on `unsigned`, which wraps
abbrev pub div_round_up : ℕ → ℕ → ℕ
div_round_up a b = (a + b - 1) % 2 ^ 32 / b

-- `for (j=overbits; j<BITS_PER_WORD; j++) b->v[ix] |= 1 << j`, on the byte
unfoldable pub fill : ℕ → ℕ → ℕ → ℕ
fill zero j w = w
fill (suc rounds) j w = fill rounds (j + 1) (or_mask w j)

-- `bitmap_create`; `none` where one of its allocations fails
unfoldable pub bitmap_create : {S : Type 0} → ℕ → Bool → Bool → M S (Option Bitmap)
bitmap_create nbits mem v_mem =
    let words = div_round_up nbits 8 in
    let v = replicate words 0 in
    let overbits = nbits - (words - 1) * 8 in
    if not mem
    then return none
    else if not v_mem
    then return none
    else if ltb (nbits / 8) words
    then (do
      kassert (nbits / 8 == words - 1)
      kassert (ltb 0 overbits && ltb overbits 8)
      return
          (some (record { nbits = nbits; v = set v (words - 1) (fill (8 - overbits) overbits 0) })))
    else return (some (record { nbits = nbits; v = v }))

-- The inner loop of `bitmap_alloc` over the bits of byte `ix`, which is `w`.
unfoldable pub alloc_in : ℕ → ℕ → ℕ → ℕ → M Bitmap ℕ
alloc_in ix w zero offset = λ b. panic
alloc_in ix w (suc rounds) offset =
    let rest = alloc_in ix w rounds (offset + 1) in
    if bit w offset == 0
    then (do
      b ← get
      put (record b { v = set b.v ix (or_mask w offset) })
      kassert (ltb (ix * 8 + offset) b.nbits)
      return (ix * 8 + offset))
    else rest

-- The outer loop over the bytes.
unfoldable pub alloc_from : ℕ → ℕ → M Bitmap ℕ
alloc_from zero ix = throw enospc
alloc_from (suc rounds) ix =
    let rest = alloc_from rounds (ix + 1) in
    do b ← get; w ← deref (get_elem? b.v ix); if w == 255 then rest else alloc_in ix w 8 0

unfoldable pub bitmap_alloc : M Bitmap ℕ
bitmap_alloc = do b ← get; alloc_from (div_round_up b.nbits 8) 0

unfoldable pub bitmap_mark : ℕ → M Bitmap (Unit {0})
bitmap_mark index = do
  b ← get
  kassert (ltb index b.nbits)
  w ← deref (get_elem? b.v (index / 8))
  kassert (bit w (index % 8) == 0)
  put (record b { v = set b.v (index / 8) (or_mask w (index % 8)) })

unfoldable pub bitmap_unmark : ℕ → M Bitmap (Unit {0})
bitmap_unmark index = do
  b ← get
  kassert (ltb index b.nbits)
  w ← deref (get_elem? b.v (index / 8))
  kassert (not (bit w (index % 8) == 0))
  put (record b { v = set b.v (index / 8) (and_not_mask w (index % 8)) })

-- `bitmap_isset`: the byte masked with the bit
unfoldable pub bitmap_isset : ℕ → M Bitmap ℕ
bitmap_isset index = do
  b ← get
  w ← deref (get_elem? b.v (index / 8))
  return (bit w (index % 8) * 2 ^ (index % 8))
