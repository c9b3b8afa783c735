-- ===== src/Bitmap/Search.antt =====
-- bitmap_alloc finds the first clear bit.
use longcat_os.Base.{
  ℕ, zero, suc, some, ◌+◌, ◌*◌, ◌/◌, ◌%◌, ◌^◌, ◌≤◌, ◌<◌, ◌≡◌, ◌≢◌, inl, inr, arith, refl, sym,
  subst, ◌∙◌, ap, length, get_elem?, set, get_of_lt-length, ℕ_discrete, dec_lt,
}
use longcat_os.Base.Outcome.{ret, Post}
use longcat_os.Bitmap.{Bitmap, bit, alloc_in, alloc_from, bitmap_alloc}
use longcat_os.Bitmap.Bytes.{bit-cases, bits_full}
use longcat_os.Bitmap.View.{bit_at, look, IsBitmap, Changed, add-Changed}

-- The bits below `n` are in use.
abbrev pub InUse : ℕ → Bitmap → Type 0
InUse n b = (j : ℕ) → j < n → bit_at b.v j ≡ 1

-- Bit `i` was the first clear one, and is set now.
abbrev pub Allocated : Bitmap → ℕ → Bitmap → Type 0
Allocated b i b' = (i < b.nbits) × (bit_at b.v i ≡ 0) × InUse i b × Changed b i 1 b'

-- Nothing was changed, as every bit is in use.
abbrev pub Full : Bitmap → Bitmap → Type 0
Full b b' = (b' ≡ b) × InUse b.nbits b

-- A byte with all bits set, read back
bits_of_full : (w n k : ℕ) → w + 1 ≡ 2 ^ n → k < n → bit w k ≡ 1
bits_of_full w zero k e h = absurd (omega arith)
bits_of_full w (suc n) zero e h = omega arith
bits_of_full w (suc n) (suc k) e h = bits_of_full (w / 2) n k (omega arith) (omega arith)

bit_255 : (k : ℕ) → k < 8 → bit 255 k ≡ 1
bit_255 k h = bits_of_full 255 8 k refl h

alloc_in_clear :
    (b : Bitmap) (ix w r o : ℕ)
    → bit w o ≡ 0
    → ix * 8 + o < b.nbits
    → alloc_in ix w (suc r) o b ≡ ret (ix * 8 + o) (record b { v = set b.v ix (w + 2 ^ o) })
unfolding alloc_in
alloc_in_clear b ix w r o e l = ground arith

alloc_in_set :
    (b : Bitmap) (ix w r o : ℕ)
    → bit w o ≡ 1
    → alloc_in ix w (suc r) o b ≡ alloc_in ix w r (o + 1) b
unfolding alloc_in
alloc_in_set b ix w r o e = ground arith

alloc_from_full :
    (b : Bitmap) (r ix : ℕ)
    → get_elem? b.v ix ≡ some 255
    → alloc_from (suc r) ix b ≡ alloc_from r (ix + 1) b
unfolding alloc_from
alloc_from_full b r ix e = ground arith

alloc_from_byte :
    (b : Bitmap) (r ix w : ℕ)
    → get_elem? b.v ix ≡ some w
    → w ≢ 255
    → alloc_from (suc r) ix b ≡ alloc_in ix w 8 0 b
unfolding alloc_from
alloc_from_byte b r ix w e n = ground arith

-- The bits of byte `ix`
bit_in_byte :
    (b : Bitmap) (ix w j : ℕ)
    → get_elem? b.v ix ≡ some w
    → j / 8 ≡ ix
    → bit_at b.v j ≡ bit w (j % 8)
bit_in_byte b ix w j e q = ap (look j) (ap (get_elem? b.v) q ∙ e)

-- The bits below a place in byte `ix` are in use.
InUse-byte :
    (b : Bitmap) (ix w o : ℕ)
    → get_elem? b.v ix ≡ some w
    → o ≤ 8
    → InUse (ix * 8) b
    → ((k : ℕ) → k < o → bit w k ≡ 1)
    → InUse (ix * 8 + o) b
InUse-byte b ix w o e lo low f j h = elim (dec_lt j (ix * 8)) [
  | yes l ↦ low j l
  | no l ↦ bit_in_byte b ix w j e (omega arith) ∙ f (j % 8) (omega arith)
]

module _ (b : Bitmap) (v : IsBitmap b) where
  clear :
      (ix w o : ℕ) → get_elem? b.v ix ≡ some w → o < 8 → bit w o ≡ 0 → bit_at b.v (ix * 8 + o) ≡ 0
  clear ix w o e lo z =
      bit_in_byte b ix w (ix * 8 + o) e (omega arith)
      ∙ ap (bit w) {x = (ix * 8 + o) % 8} {y = o} (omega arith)
      ∙ z

  in_bounds : (ix w o : ℕ) → get_elem? b.v ix ≡ some w → o < 8 → bit w o ≡ 0 → ix * 8 + o < b.nbits
  in_bounds ix w o e lo z = elim (dec_lt (ix * 8 + o) b.nbits) [
    | yes l ↦ l
    | no l ↦ absurd (omega (arith, clear ix w o e lo z, v.leftover (ix * 8 + o) (omega arith)))
  ]

  changed :
      (ix w o : ℕ)
      → get_elem? b.v ix ≡ some w
      → o < 8
      → bit w o ≡ 0
      → Changed b (ix * 8 + o) 1 (record b { v = set b.v ix (w + 2 ^ o) })
  changed ix w o e lo z =
      let q : (ix * 8 + o) / 8 ≡ ix = omega arith in
      let m : (ix * 8 + o) % 8 ≡ o = omega arith in
      subst (λ a. Changed b (ix * 8 + o) 1 (record b { v = set b.v a (w + 2 ^ o) })) q
        (subst
          (λ a. Changed b (ix * 8 + o) 1 (record b { v = set b.v ((ix * 8 + o) / 8) (w + 2 ^ a) }))
          m
          (add-Changed b (ix * 8 + o) w v (in_bounds ix w o e lo z) (ap (get_elem? b.v) q ∙ e)
            (ap (bit w) m ∙ z)))

  found :
      (ix w r o : ℕ)
      → get_elem? b.v ix ≡ some w
      → o < 8
      → bit w o ≡ 0
      → InUse (ix * 8 + o) b
      → Post (Allocated b) (Full b) (alloc_in ix w (suc r) o b)
  found ix w r o e lo z low =
      subst (Post (Allocated b) (Full b))
        (sym (alloc_in_clear b ix w r o z (in_bounds ix w o e lo z)))
        (in_bounds ix w o e lo z, clear ix w o e lo z, low, changed ix w o e lo z)

  alloc_in-Post :
      (ix w r o : ℕ)
      → get_elem? b.v ix ≡ some w
      → o + r ≡ 8
      → w ≢ 255
      → InUse (ix * 8) b
      → ((k : ℕ) → k < o → bit w k ≡ 1)
      → Post (Allocated b) (Full b) (alloc_in ix w r o b)
  alloc_in-Post ix w zero o e s n low f =
      absurd (n (omega (arith, bits_full w 8 (λ k h. f k (omega arith)) (v.bytes ix w e))))
  alloc_in-Post ix w (suc r) o e s n low f = elim (bit-cases w o) [
    | inl z ↦ found ix w r o e (omega arith) z (InUse-byte b ix w o e (omega arith) low f)
    | inr z ↦ subst (Post (Allocated b) (Full b)) (sym (alloc_in_set b ix w r o z)) (
        alloc_in-Post ix w r (o + 1) e (omega arith) n low
          (λ k h. elim (ℕ_discrete k o) [ yes q ↦ ap (bit w) q ∙ z | no q ↦ f k (omega arith) ]))
  ]

  alloc_from-Post :
      (r ix : ℕ)
      → ix + r ≡ length b.v
      → InUse (ix * 8) b
      → Post (Allocated b) (Full b) (alloc_from r ix b)
  unfolding alloc_from
  alloc_from-Post zero ix s low = (refl, λ j h. low j (omega (arith, v.size, v.bound)))
  alloc_from-Post (suc r) ix s low =
      let (w, e) = get_of_lt-length b.v ix (omega arith) in
      elim (ℕ_discrete w 255) [
        | yes q ↦
            subst (Post (Allocated b) (Full b)) (sym (alloc_from_full b r ix (e ∙ ap some q))) (
              alloc_from-Post r (ix + 1) (omega arith) (λ j h.
                InUse-byte b ix 255 8 (e ∙ ap some q) (omega arith) low bit_255 j (omega arith)))
        | no q ↦
            subst (Post (Allocated b) (Full b)) (sym (alloc_from_byte b r ix w e q))
              (alloc_in-Post ix w 8 0 e refl q low (λ k h. absurd (omega arith)))
      ]

  -- bitmap_alloc of a well-formed bitmap never panics. It gives the first clear bit, which lies within
  -- the bounds, sets it and no other, or returns ENOSPC with nothing changed when every bit is in use.
  pub bitmap_alloc-Post : Post (Allocated b) (Full b) (bitmap_alloc b)
  unfolding bitmap_alloc
  bitmap_alloc-Post =
      subst (λ n. Post (Allocated b) (Full b) (alloc_from n 0 b)) v.size
        (alloc_from-Post (length b.v) 0 (omega arith) (λ j h. absurd (omega arith)))
