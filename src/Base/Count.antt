-- ===== src/Base/Count.antt =====
-- How often a number stands in an array.
use Prim.Native.Nat.{ℕ, zero, suc, ◌+◌, ◌≤◌, ◌<◌}
use mathlib.Core.Path.{◌≡◌, refl}
use mathlib.Core.Logic.{◌≢◌}
use mathlib.Core.List.{List, [], ◌∷◌}
use mathlib.Core.Option.{some}
use native.Mathlib.Omega.{arith}
use longcat_os.Base.Tests.{◌==◌, if◌then◌else◌}
use longcat_os.Base.Lists.{length, get_elem?, set, replicate, drop}

-- 1 where the two numbers are equal, else 0
abbrev pub hit : ℕ → ℕ → ℕ
hit k x = if x == k then 1 else 0

abbrev pub count : ℕ → List ℕ → ℕ
count k [] = 0
count k (x ∷ xs) = hit k x + count k xs

pub count-le-length : (k : ℕ) (xs : List ℕ) → count k xs ≤ length xs
count-le-length k [] = omega arith
count-le-length k (x ∷ xs) = ground (arith, count-le-length k xs)

-- A write takes the old element out of the count and puts the new one in.
pub count-set :
    (k : ℕ) (xs : List ℕ) (i x v : ℕ)
    → get_elem? xs i ≡ some x
    → count k (set xs i v) + hit k x ≡ count k xs + hit k v
count-set k [] i x v e = absurd (cc)
count-set k (y ∷ xs) zero x v e = ground arith
count-set k (y ∷ xs) (suc i) x v e = ground (arith, count-set k xs i x v e)

pub count-replicate_ne : (k n v : ℕ) → v ≢ k → count k (replicate n v) ≡ 0
count-replicate_ne k zero v h = refl
count-replicate_ne k (suc n) v h = ground (arith, count-replicate_ne k n v h)

-- What is read is counted.
pub count-pos : (xs : List ℕ) (i x : ℕ) → get_elem? xs i ≡ some x → 0 < count x xs
count-pos [] i x e = absurd (cc)
count-pos (y ∷ xs) zero x e = ground arith
count-pos (y ∷ xs) (suc i) x e = ground (arith, count-pos xs i x e)

-- The elements from `i` on, with the first taken out.
pub count-drop :
    (j : ℕ) (xs : List ℕ) (i x y : ℕ)
    → get_elem? xs i ≡ some y
    → count j (drop i xs) ≡ hit j y + count j (drop (i + 1) (set xs i x))
count-drop j [] i x y e = absurd (cc)
count-drop j (a ∷ xs) zero x y e = ground arith
count-drop j (a ∷ xs) (suc i) x y e =
    let s : suc i + 1 ≡ suc (i + 1) = omega arith in rw s (count-drop j xs i x y e)

pub count-drop_end : (j : ℕ) (xs : List ℕ) (i : ℕ) → length xs ≤ i → count j (drop i xs) ≡ 0
count-drop_end j [] zero h = refl
count-drop_end j [] (suc i) h = refl
count-drop_end j (a ∷ xs) zero h = absurd (omega arith)
count-drop_end j (a ∷ xs) (suc i) h = count-drop_end j xs i (omega arith)
