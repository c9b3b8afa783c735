-- ===== src/Base/Gives.antt =====
-- Calls that return: reasoning along a do block.
use mathlib.Core.Bool.{Bool, true}
use mathlib.Core.Option.{Option, some}
use mathlib.Core.Path.{◌≡◌, ap, subst, sym}
use longcat_os.Base.Outcome.{M, Outcome, ret, fail, panic, Post, kassert, deref, ◌>>=◌, ◌>>◌}

-- The call returns a value, without an error, and value and state satisfy `P`.
abbrev pub Gives : {S A : Type 0} → (A → S → Type 0) → Outcome S A → Type 0
Gives P o = Post P (λ s. ⊥) o

pub Gives-bind :
    {S A B : Type 0} (P : A → S → Type 0) (Q : B → S → Type 0) (m : M S A) (f : A → M S B) (s : S)
    → Gives P (m s)
    → ((a : A) (t : S) → P a t → Gives Q (f a t))
    → Gives Q ((m >>= f) s)
Gives-bind {S} {A} {B} P Q m f s g h = go (m s) g
  where
    go :
        (o : Outcome S A)
        → Gives P o
        → Gives Q (elim o [ ret a t ↦ f a t | fail e t ↦ fail e t | panic ↦ panic ])
    go (ret a t) x = h a t x
    go (fail e t) x = absurd x
    go panic x = absurd x

-- A call whose outcome is known
pub Gives-ret :
    {S A B : Type 0} (Q : B → S → Type 0) (m : M S A) (f : A → M S B) (s t : S) (a : A)
    → m s ≡ ret a t
    → Gives Q (f a t)
    → Gives Q ((m >>= f) s)
Gives-ret Q m f s t a e g = subst (λ o. Gives Q (◌>>=◌ (λ x. o) f s)) (sym e) g

pub Gives-kassert :
    {S B : Type 0} (Q : B → S → Type 0) (b : Bool) (k : M S B) (s : S)
    → b ≡ true
    → Gives Q (k s)
    → Gives Q ((kassert b >> k) s)
Gives-kassert Q b k s e g = subst (λ x. Gives Q ((kassert x >> k) s)) (sym e) g

pub Gives-deref :
    {S A B : Type 0} (Q : B → S → Type 0) (o : Option A) (f : A → M S B) (s : S) (a : A)
    → o ≡ some a
    → Gives Q (f a s)
    → Gives Q ((deref o >>= f) s)
Gives-deref Q o f s a e g = subst (λ x. Gives Q ((deref x >>= f) s)) (sym e) g

-- What a call that is known to return gives
pub Gives-weaken :
    {S A : Type 0} (P Q : A → S → Type 0) (o : Outcome S A)
    → ((a : A) (s : S) → P a s → Q a s)
    → Gives P o
    → Gives Q o
Gives-weaken P Q (ret a s) h g = h a s g
Gives-weaken P Q (fail e s) h g = absurd g
Gives-weaken P Q panic h g = absurd g

-- A do block whose first call is known to return
pub bind-ret :
    {S A B : Type 0} (m : M S A) (f : A → M S B) (s t : S) (a : A)
    → m s ≡ ret a t
    → (m >>= f) s ≡ f a t
bind-ret m f s t a e = ap (λ o. ◌>>=◌ (λ x. o) f s) e
