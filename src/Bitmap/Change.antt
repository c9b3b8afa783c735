-- ===== src/Bitmap/Change.antt =====
-- bitmap_mark and bitmap_unmark change one bit, and undo each other.
use longcat_os.Base.{
  ℕ, zero, suc, some, ◌↔◌, ◌*◌, inl, inr, ◌+◌, ◌-◌, ◌/◌, ◌%◌, ◌^◌, ◌<◌, ◌≡◌, arith, sym, ◌∙◌, ap,
  get_elem?, set, set-set, set-get, get_elem?-set_self, lt-length_of_get,
}
use longcat_os.Base.Outcome.{ret, ◌>>◌}
use longcat_os.Bitmap.{Bitmap, bit, bitmap_isset, bitmap_mark, bitmap_unmark}
use longcat_os.Bitmap.Bytes.{bit-add_self, bit-cases}
use longcat_os.Bitmap.View.{bit_at, IsBitmap, Changed, byte_of, add-Changed, sub-Changed}

bitmap_mark_lem :
    (b : Bitmap) (i w : ℕ)
    → i < b.nbits
    → get_elem? b.v (i / 8) ≡ some w
    → bit w (i % 8) ≡ 0
    → bitmap_mark i b ≡ ret tt (record b { v = set b.v (i / 8) (w + 2 ^ (i % 8)) })
unfolding bitmap_mark
bitmap_mark_lem b i w l e z = ground arith

bitmap_unmark_lem :
    (b : Bitmap) (i w : ℕ)
    → i < b.nbits
    → get_elem? b.v (i / 8) ≡ some w
    → bit w (i % 8) ≡ 1
    → bitmap_unmark i b ≡ ret tt (record b { v = set b.v (i / 8) (w - 2 ^ (i % 8)) })
unfolding bitmap_unmark
bitmap_unmark_lem b i w l e z = ground arith

-- bitmap_mark of a clear bit within the bounds sets that bit and no other.
pub bitmap_mark-Changed :
    (b : Bitmap) (i : ℕ)
    → IsBitmap b
    → i < b.nbits
    → bit_at b.v i ≡ 0
    → (b' : Bitmap) × (bitmap_mark i b ≡ ret tt b') × Changed b i 1 b'
bitmap_mark-Changed b i v l z =
    let (w, e, s, lw) = byte_of b i v l in
    (_, bitmap_mark_lem b i w l e (sym s ∙ z), add-Changed b i w v l e (sym s ∙ z))

-- bitmap_unmark of a set bit within the bounds clears that bit and no other.
pub bitmap_unmark-Changed :
    (b : Bitmap) (i : ℕ)
    → IsBitmap b
    → i < b.nbits
    → bit_at b.v i ≡ 1
    → (b' : Bitmap) × (bitmap_unmark i b ≡ ret tt b') × Changed b i 0 b'
bitmap_unmark-Changed b i v l z =
    let (w, e, s, lw) = byte_of b i v l in
    (_, bitmap_unmark_lem b i w l e (sym s ∙ z), sub-Changed b i w v l e (sym s ∙ z))

unmark_after :
    (b : Bitmap) (i w : ℕ)
    → i < b.nbits
    → get_elem? b.v (i / 8) ≡ some w
    → bit w (i % 8) ≡ 0
    → bitmap_unmark i (record b { v = set b.v (i / 8) (w + 2 ^ (i % 8)) }) ≡ ret tt b
unmark_after b i w l e z =
    bitmap_unmark_lem (record b { v = set b.v (i / 8) (w + 2 ^ (i % 8)) }) i (w + 2 ^ (i % 8)) l
      (get_elem?-set_self b.v (i / 8) _ (lt-length_of_get b.v (i / 8) e)) (bit-add_self w (i % 8) z)
    ∙ ap (λ x. ret tt (record b { v = x }))
        (set-set b.v (i / 8) _ _ ∙ ap (set b.v (i / 8)) (omega arith) ∙ set-get b.v (i / 8) w e)

-- Marking a clear bit and unmarking it gives back the bitmap.
pub bitmap_mark-bitmap_unmark :
    (b : Bitmap) (i : ℕ)
    → IsBitmap b
    → i < b.nbits
    → bit_at b.v i ≡ 0
    → (bitmap_mark i >> bitmap_unmark i) b ≡ ret tt b
bitmap_mark-bitmap_unmark b i v l z =
    let (w, e, s, lw) = byte_of b i v l in
    ap (λ o. ◌>>◌ (λ m. o) (bitmap_unmark i) b) (bitmap_mark_lem b i w l e (sym s ∙ z))
    ∙ unmark_after b i w l e (sym s ∙ z)

two_pow_pos : (k : ℕ) → 0 < 2 ^ k
two_pow_pos zero = omega arith
two_pow_pos (suc k) = omega (arith, two_pow_pos k)

mask_iff : (w k x : ℕ) → x ≡ bit w k → (bit w k * 2 ^ k ≡ 0) ↔ (x ≡ 0)
mask_iff w k x s = elim (bit-cases w k) [
  | inl z ↦ (λ e. s ∙ z, λ e. ap (λ a. a * 2 ^ k) z ∙ omega arith)
  | inr z ↦ (
    λ e.
        (let p : 1 * 2 ^ k ≡ 0 = ap (λ a. a * 2 ^ k) (sym z) ∙ e in
          absurd (omega (arith, two_pow_pos k))),
    λ e. absurd (omega arith),
  )
]

-- bitmap_isset of a bit within the bounds gives 0 exactly when the bit is clear, and changes nothing.
pub bitmap_isset_lem :
    (b : Bitmap) (i : ℕ)
    → IsBitmap b
    → i < b.nbits
    → (x : ℕ) × (bitmap_isset i b ≡ ret x b) × ((x ≡ 0) ↔ (bit_at b.v i ≡ 0))
unfolding bitmap_isset
bitmap_isset_lem b i v l =
    let (w, e, s, lw) = byte_of b i v l in
    (bit w (i % 8) * 2 ^ (i % 8), ground (arith, e), mask_iff w (i % 8) (bit_at b.v i) s)
