-- ===== src/Bitmap/View.antt =====
-- A bitmap as a sequence of bits, and what replacing one byte does to it.
use longcat_os.Base.{
  ℕ, Option, none, some, List, ◌+◌, ◌-◌, ◌/◌, ◌%◌, ◌^◌, ◌≤◌, ◌<◌, ◌≡◌, ◌≢◌, arith, refl, sym, subst,
  ◌∙◌, ap, length, get_elem?, set, length-set, get_elem?-set_self, get_elem?-set_ne,
  lt-length_of_get, ℕ_discrete, get_of_lt-length,
}
use longcat_os.Bitmap.{Bitmap, bit, div_round_up}
use longcat_os.Bitmap.Bytes.{bit-add_self, bit-add_ne, add_lt, bit-sub_self, bit-sub_ne}

-- Bit `j`; what lies behind the last byte counts as in use.
abbrev pub bit_at : List ℕ → ℕ → ℕ
bit_at v j = elim (get_elem? v (j / 8)) [ none ↦ 1 | some w ↦ bit w (j % 8) ]

-- Bit `j` of a byte that may not be there
abbrev pub look : ℕ → Option ℕ → ℕ
look j o = elim o [ none ↦ 1 | some w ↦ bit w (j % 8) ]

-- A bitmap has the bytes that its bits need, the bits left over are in use, and rounding their number
-- up does not wrap.
pub record IsBitmap (b : Bitmap) : Type 0 where
  pub size : length b.v ≡ div_round_up b.nbits 8
  pub bytes : (i w : ℕ) → get_elem? b.v i ≡ some w → w < 256
  pub leftover : (j : ℕ) → b.nbits ≤ j → bit_at b.v j ≡ 1
  pub bound : b.nbits + 7 < 2 ^ 32

-- Bit `i` becomes `x`, and the other bits stay.
pub record Changed (b : Bitmap) (i x : ℕ) (b' : Bitmap) : Type 0 where
  pub same_nbits : b'.nbits ≡ b.nbits
  pub here : bit_at b'.v i ≡ x
  pub others : (j : ℕ) → i ≢ j → bit_at b'.v j ≡ bit_at b.v j
  pub ok : IsBitmap b'

-- Byte `i / 8` is replaced by one that differs in bit `i` alone.
module _ (b : Bitmap) (v : IsBitmap b) (i w u x : ℕ) (li : i < b.nbits)
    (e : get_elem? b.v (i / 8) ≡ some w) (lu : u < 256) (h : bit u (i % 8) ≡ x)
    (d : (k : ℕ) → i % 8 ≢ k → bit u k ≡ bit w k) where
  replaced_self : get_elem? (set b.v (i / 8) u) (i / 8) ≡ some u
  replaced_self = get_elem?-set_self b.v (i / 8) u (lt-length_of_get b.v (i / 8) e)

  replaced_others : (j : ℕ) → i ≢ j → bit_at (set b.v (i / 8) u) j ≡ bit_at b.v j
  replaced_others j n = elim (ℕ_discrete (i / 8) (j / 8)) [
    | yes s ↦
        ap (look j) (subst (λ a. get_elem? (set b.v (i / 8) u) a ≡ some u) s replaced_self)
        ∙ d (j % 8) (λ m. n (omega arith))
        ∙ sym (ap (look j) (subst (λ a. get_elem? b.v a ≡ some w) s e))
    | no s ↦ ap (look j) (get_elem?-set_ne b.v (i / 8) (j / 8) u s)
  ]

  replaced_bytes : (a y : ℕ) → get_elem? (set b.v (i / 8) u) a ≡ some y → y < 256
  replaced_bytes a y g = elim (ℕ_discrete (i / 8) a) [
    | yes s ↦
        (let at_a : get_elem? (set b.v (i / 8) u) a ≡ some u =
            subst (λ a. get_elem? (set b.v (i / 8) u) a ≡ some u) s replaced_self in
          subst (λ z. z < 256) (cc) lu)
    | no s ↦ v.bytes a y (sym (get_elem?-set_ne b.v (i / 8) a u s) ∙ g)
  ]

  pub replaced-Changed : Changed b i x (record b { v = set b.v (i / 8) u })
  replaced-Changed = record {
    same_nbits = refl;
    here = ap (look i) replaced_self ∙ h;
    others = replaced_others;
    ok = record {
      size = length-set b.v (i / 8) u ∙ v.size;
      bytes = replaced_bytes;
      leftover = λ j l. replaced_others j (omega arith) ∙ v.leftover j l;
      bound = v.bound;
    };
  }

-- A bit within the bounds lies in a byte.
pub byte_of :
    (b : Bitmap) (i : ℕ)
    → IsBitmap b
    → i < b.nbits
    → (w : ℕ) × (get_elem? b.v (i / 8) ≡ some w) × (bit_at b.v i ≡ bit w (i % 8)) × (w < 256)
byte_of b i v l =
    let (w, e) = get_of_lt-length b.v (i / 8) (omega (arith, v.size, v.bound)) in
    (w, e, ap (look i) e, v.bytes (i / 8) w e)

pub add-Changed :
    (b : Bitmap) (i w : ℕ)
    → IsBitmap b
    → i < b.nbits
    → get_elem? b.v (i / 8) ≡ some w
    → bit w (i % 8) ≡ 0
    → Changed b i 1 (record b { v = set b.v (i / 8) (w + 2 ^ (i % 8)) })
add-Changed b i w v l e z =
    replaced-Changed b v i w (w + 2 ^ (i % 8)) 1 l e
      (add_lt w (i % 8) 8 z (omega arith) (v.bytes (i / 8) w e)) (bit-add_self w (i % 8) z)
      (λ k n. bit-add_ne w (i % 8) k z n)

pub sub-Changed :
    (b : Bitmap) (i w : ℕ)
    → IsBitmap b
    → i < b.nbits
    → get_elem? b.v (i / 8) ≡ some w
    → bit w (i % 8) ≡ 1
    → Changed b i 0 (record b { v = set b.v (i / 8) (w - 2 ^ (i % 8)) })
sub-Changed b i w v l e z =
    replaced-Changed b v i w (w - 2 ^ (i % 8)) 0 l e (omega (arith, v.bytes (i / 8) w e))
      (bit-sub_self w (i % 8) z) (λ k n. bit-sub_ne w (i % 8) k z n)
