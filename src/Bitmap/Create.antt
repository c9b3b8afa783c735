-- ===== src/Bitmap/Create.antt =====
-- bitmap_create makes a well-formed bitmap without a bit in use.
use longcat_os.Base.{
  ℕ, zero, suc, some, ◌+◌, ◌-◌, ◌*◌, ◌/◌, ◌%◌, ◌^◌, ◌≤◌, ◌<◌, ◌≡◌, ◌≢◌, inl, inr, arith, refl, sym,
  subst, ◌∙◌, ap, length, length-set, length-replicate, get-replicate, get_of_ge-length, replicate,
  get_elem?, set, lt→ltb, get_elem?-set_self, get_elem?-set_ne, ℕ_discrete, dec_lt, true,
}
use longcat_os.Base.Outcome.{ret}
use longcat_os.Bitmap.{Bitmap, bit, or_mask, fill, div_round_up, bitmap_create}
use longcat_os.Bitmap.Bytes.{bit-cases, bit-add_self, bit-add_ne, add_lt}
use longcat_os.Bitmap.View.{bit_at, look, IsBitmap}

or_mask_clear : (w k : ℕ) → bit w k ≡ 0 → or_mask w k ≡ w + 2 ^ k
or_mask_clear w k z = ground arith

or_mask_set : (w k : ℕ) → bit w k ≡ 1 → or_mask w k ≡ w
or_mask_set w k z = ground arith

or_mask_self : (w k : ℕ) → bit (or_mask w k) k ≡ 1
or_mask_self w k = elim (bit-cases w k) [
  | inl z ↦ ap (λ x. bit x k) (or_mask_clear w k z) ∙ bit-add_self w k z
  | inr z ↦ ap (λ x. bit x k) (or_mask_set w k z) ∙ z
]

or_mask_ne : (w k j : ℕ) → k ≢ j → bit (or_mask w k) j ≡ bit w j
or_mask_ne w k j n = elim (bit-cases w k) [
  | inl z ↦ ap (λ x. bit x j) (or_mask_clear w k z) ∙ bit-add_ne w k j z n
  | inr z ↦ ap (λ x. bit x j) (or_mask_set w k z)
]

or_mask_lt : (w k : ℕ) → k < 8 → w < 256 → or_mask w k < 256
or_mask_lt w k l b = elim (bit-cases w k) [
  | inl z ↦ subst (λ x. x < 256) (sym (or_mask_clear w k z)) (add_lt w k 8 z l b)
  | inr z ↦ subst (λ x. x < 256) (sym (or_mask_set w k z)) b
]

-- `fill` from bit `j` on sets the bits from `j` to 7 and keeps those below.
record Filled (j w u : ℕ) : Type 0 where
  byte : u < 256
  low : (k : ℕ) → k < j → bit u k ≡ bit w k
  high : (k : ℕ) → j ≤ k → k < 8 → bit u k ≡ 1

fill-Filled : (r j w : ℕ) → j + r ≡ 8 → w < 256 → Filled j w (fill r j w)
unfolding fill
fill-Filled zero j w e b = record {
  byte = b;
  low = λ k h. refl;
  high = λ k h l. absurd (omega arith);
}
fill-Filled (suc r) j w e b =
    let f = fill-Filled r (j + 1) (or_mask w j) (omega arith) (or_mask_lt w j (omega arith) b) in
    record {
      byte = f.byte;
      low = λ k h. f.low k (omega arith) ∙ or_mask_ne w j k (omega arith);
      high = λ k h l. elim (ℕ_discrete j k) [
        | yes q ↦ f.low k (omega arith) ∙ subst (λ i. bit (or_mask w j) i ≡ 1) q (or_mask_self w j)
        | no q ↦ f.high k (omega arith) l
      ];
    }

bit-zero : (k : ℕ) → bit 0 k ≡ 0
bit-zero zero = refl
bit-zero (suc k) = bit-zero k

zero_byte : (m i w : ℕ) → get_elem? (replicate m 0) i ≡ some w → w ≡ 0
zero_byte zero i w g = absurd (cc)
zero_byte (suc m) zero w g = cc
zero_byte (suc m) (suc i) w g = zero_byte m i w g

-- The bits below the bound are clear, and the bytes as they should be.
pub record Fresh (n : ℕ) (b : Bitmap) : Type 0 where
  pub same_nbits : b.nbits ≡ n
  pub clear : (j : ℕ) → j < n → bit_at b.v j ≡ 0
  pub ok : IsBitmap b

module _ (n : ℕ) (bound : n + 7 < 2 ^ 32) where
  abbrev words : ℕ
  words = div_round_up n 8

  -- No bits are left over.
  whole-Fresh : words ≡ n / 8 → Fresh n (record { nbits = n; v = replicate words 0 })
  whole-Fresh e = record {
    same_nbits = refl;
    clear = λ j h. ap (look j) (get-replicate words (j / 8) 0 (omega arith)) ∙ bit-zero (j % 8);
    ok = record {
      size = length-replicate words 0;
      bytes = λ i w g. omega (arith, zero_byte words i w g);
      leftover = λ j h. ap (look j) (
          get_of_ge-length (replicate words 0) (j / 8)
            (omega (arith, length-replicate {A = ℕ} words 0)));
      bound = bound;
    };
  }

  -- The last byte has its leftover bits set.
  module _ (u : ℕ) (f : Filled (n - (words - 1) * 8) 0 u) (e : words ≡ n / 8 + 1) where
    -- Bit `j` lies in a byte before the last, in the last, or behind it.
    part_low : (j : ℕ) → j / 8 < words - 1 → bit_at (set (replicate words 0) (words - 1) u) j ≡ 0
    part_low j h =
        ap (look j) (
          get_elem?-set_ne (replicate words 0) (words - 1) (j / 8) u (omega arith)
          ∙ get-replicate words (j / 8) 0 (omega arith))
        ∙ bit-zero (j % 8)

    part_last :
        (j : ℕ)
        → words - 1 ≡ j / 8
        → bit_at (set (replicate words 0) (words - 1) u) j ≡ bit u (j % 8)
    part_last j h = ap (look j) (
        subst (λ i. get_elem? (set (replicate words 0) (words - 1) u) i ≡ some u) h
          (get_elem?-set_self (replicate words 0) (words - 1) u
            (omega (arith, length-replicate {A = ℕ} words 0))))

    part_length : length (set (replicate words 0) (words - 1) u) ≡ words
    part_length = length-set (replicate words 0) (words - 1) u ∙ length-replicate words 0

    part_behind : (j : ℕ) → words ≤ j / 8 → bit_at (set (replicate words 0) (words - 1) u) j ≡ 1
    part_behind j h = ap (look j) (
        get_of_ge-length (set (replicate words 0) (words - 1) u) (j / 8)
          (omega (arith, part_length)))

    part_bytes : (i w : ℕ) → get_elem? (set (replicate words 0) (words - 1) u) i ≡ some w → w < 256
    part_bytes i w g = elim (ℕ_discrete (words - 1) i) [
      | yes q ↦
          (let h =
              subst (λ a. get_elem? (set (replicate words 0) (words - 1) u) a ≡ some u) q
                (get_elem?-set_self (replicate words 0) (words - 1) u
                  (omega (arith, length-replicate {A = ℕ} words 0))) in
            subst (λ z. z < 256) (cc) f.byte)
      | no q ↦ omega (
        arith,
        zero_byte words i w (sym (get_elem?-set_ne (replicate words 0) (words - 1) i u q) ∙ g),
      )
    ]

    part-Fresh : Fresh n (record { nbits = n; v = set (replicate words 0) (words - 1) u })
    part-Fresh = record {
      same_nbits = refl;
      clear = λ j h. elim (ℕ_discrete (words - 1) (j / 8)) [
        | yes q ↦ part_last j q ∙ f.low (j % 8) (omega arith) ∙ bit-zero (j % 8)
        | no q ↦ part_low j (omega arith)
      ];
      ok = record {
        size = part_length;
        bytes = part_bytes;
        leftover = λ j h. elim (ℕ_discrete (words - 1) (j / 8)) [
          | yes q ↦ part_last j q ∙ f.high (j % 8) (omega arith) (omega arith)
          | no q ↦ part_behind j (omega arith)
        ];
        bound = bound;
      };
    }

-- With memory, bitmap_create makes a well-formed bitmap of that many bits, none of them in use.
pub bitmap_create-Fresh :
    {S : Type 0} (n : ℕ)
    → n + 7 < 2 ^ 32
    → (b : Bitmap) × ((s : S) → bitmap_create n true true s ≡ ret (some b) s) × Fresh n b
unfolding bitmap_create
bitmap_create-Fresh n bound = elim (dec_lt (n / 8) (div_round_up n 8)) [
  | yes l ↦
      (let k = lt→ltb (n / 8) (div_round_up n 8) l in
        let q : n / 8 ≡ div_round_up n 8 - 1 = omega arith in
        let low : 0 < n - (div_round_up n 8 - 1) * 8 = omega arith in
        let high : n - (div_round_up n 8 - 1) * 8 < 8 = omega arith in
        (
          _,
          (λ s. ground (arith, k, q, low, high)),
          part-Fresh n bound _
              (fill-Filled (8 - (n - (div_round_up n 8 - 1) * 8)) (n - (div_round_up n 8 - 1) * 8) 0
                (omega arith) (omega arith))
              (omega arith),
        ))
  | no l ↦ (_, λ s. ground arith, whole-Fresh n bound (omega arith))
]
