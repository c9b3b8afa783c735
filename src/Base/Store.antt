-- ===== src/Base/Store.antt =====
-- Memory as a function from addresses, and writing to one address.
use Prim.Native.Nat.{ℕ}
use mathlib.Core.Path.{◌≡◌, ap, ◌∙◌, sym, subst}
use mathlib.Core.Logic.{◌≢◌}
use native.Mathlib.Decide.{ℕ_discrete}
use longcat_os.Base.Tests.{◌==◌, if◌then◌else◌, ==_refl, ne→==}

abbrev pub store : {A : Type 0} → (ℕ → A) → ℕ → A → ℕ → A
store f a x b = if a == b then x else f b

pub store_self : {A : Type 0} (f : ℕ → A) (a : ℕ) (x : A) → store f a x a ≡ x
store_self f a x = ap (λ t. if t then x else f a) (==_refl a)

pub store_ne : {A : Type 0} (f : ℕ → A) (a b : ℕ) (x : A) → a ≢ b → store f a x b ≡ f b
store_ne f a b x n = ap (λ t. if t then x else f b) (ne→== a b n)

-- Two stores elsewhere
pub store-store_ne :
    {A : Type 0} (f : ℕ → A) (a b m : ℕ) (x y : A) → m ≢ a → m ≢ b → store (store f a x) b y m ≡ f m
store-store_ne f a b m x y ma mb =
    store_ne (store f a x) b m y (λ e. mb (sym e)) ∙ store_ne f a m x (λ e. ma (sym e))

-- What a write leaves the same in the one place, it leaves the same everywhere.
pub store-proj :
    {A B : Type 0} (g : A → B) (m : ℕ → A) (i j : ℕ) (x : A)
    → g x ≡ g (m i)
    → g (store m i x j) ≡ g (m j)
store-proj g m i j x e = elim (ℕ_discrete i j) [
  | yes q ↦ subst (λ k. g (store m i x k) ≡ g (m k)) q (ap g (store_self m i x) ∙ e)
  | no n ↦ ap g (store_ne m i j x n)
]

-- Two writes to the same place
pub store-proj_two :
    {A B : Type 0} (g : A → B) (m : ℕ → A) (i j : ℕ) (x y : A)
    → g x ≡ g y
    → g (store m i x j) ≡ g (store m i y j)
store-proj_two g m i j x y e = elim (ℕ_discrete i j) [
  | yes q ↦
      subst (λ k. g (store m i x k) ≡ g (store m i y k)) q
        (ap g (store_self m i x) ∙ e ∙ sym (ap g (store_self m i y)))
  | no n ↦ ap g (store_ne m i j x n ∙ sym (store_ne m i j y n))
]
