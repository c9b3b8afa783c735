-- ===== src/Bitmap/Bytes.antt =====
-- The bits of a byte under setting and clearing one.
use longcat_os.Base.{
  ℕ, zero, suc, ◌+◌, ◌-◌, ◌/◌, ◌^◌, ◌≤◌, ◌<◌, ◌≡◌, ◌≢◌, ◌⊎◌, arith, refl, ◌∙◌, ap,
}
use longcat_os.Bitmap.{bit}

pub bit-cases : (w k : ℕ) → (bit w k ≡ 0) ⊎ (bit w k ≡ 1)
bit-cases w zero = ground arith
bit-cases w (suc k) = bit-cases (w / 2) k

pub bit-add_self : (w k : ℕ) → bit w k ≡ 0 → bit (w + 2 ^ k) k ≡ 1
bit-add_self w zero e = omega arith
bit-add_self w (suc k) e = ap (λ x. bit x k) (omega arith) ∙ bit-add_self (w / 2) k e

pub bit-add_ne : (w k j : ℕ) → bit w k ≡ 0 → k ≢ j → bit (w + 2 ^ k) j ≡ bit w j
bit-add_ne w zero zero e n = absurd (n refl)
bit-add_ne w zero (suc j) e n = ap (λ x. bit x j) (omega arith)
bit-add_ne w (suc k) zero e n = omega arith
bit-add_ne w (suc k) (suc j) e n =
    ap (λ x. bit x j) (omega arith) ∙ bit-add_ne (w / 2) k j e (λ d. n (ap suc d))

pub add_lt : (w k n : ℕ) → bit w k ≡ 0 → k < n → w < 2 ^ n → w + 2 ^ k < 2 ^ n
add_lt w k zero e h l = absurd (omega arith)
add_lt w zero (suc n) e h l = omega arith
add_lt w (suc k) (suc n) e h l = omega (arith, add_lt (w / 2) k n e (omega arith) (omega arith))

pub bit-le : (w k : ℕ) → bit w k ≡ 1 → 2 ^ k ≤ w
bit-le w zero e = omega arith
bit-le w (suc k) e = omega (arith, bit-le (w / 2) k e)

-- A byte with all bits set
pub bits_full : (w n : ℕ) → ((k : ℕ) → k < n → bit w k ≡ 1) → w < 2 ^ n → w + 1 ≡ 2 ^ n
bits_full w zero f l = omega arith
bits_full w (suc n) f l =
    omega
      (arith, f 0 (omega arith), bits_full (w / 2) n (λ k h. f (suc k) (omega arith)) (omega arith))

pub bit-sub_self : (w k : ℕ) → bit w k ≡ 1 → bit (w - 2 ^ k) k ≡ 0
bit-sub_self w zero e = omega arith
bit-sub_self w (suc k) e =
    ap (λ x. bit x k) (omega (arith, bit-le (w / 2) k e)) ∙ bit-sub_self (w / 2) k e

pub bit-sub_ne : (w k j : ℕ) → bit w k ≡ 1 → k ≢ j → bit (w - 2 ^ k) j ≡ bit w j
bit-sub_ne w zero zero e n = absurd (n refl)
bit-sub_ne w zero (suc j) e n = ap (λ x. bit x j) (omega arith)
bit-sub_ne w (suc k) zero e n = omega (arith, bit-le (w / 2) k e)
bit-sub_ne w (suc k) (suc j) e n =
    ap (λ x. bit x j) (omega (arith, bit-le (w / 2) k e))
    ∙ bit-sub_ne (w / 2) k j e (λ d. n (ap suc d))
