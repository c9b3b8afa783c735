-- ===== src/Base/Outcome.antt =====
-- What a call of kernel code comes to. Code that reads and writes the kernel's state `S` takes the
-- state and gives one of three outcomes.
use mathlib.Core.Bool.{Bool, true, false}
use mathlib.Core.Option.{Option, none, some}

-- The error numbers of kern/include/kern/errno.h that the modelled code returns.
pub data Errno : Type 0 where
  ebadf emfile enfile efault enomem espipe einval enproc esrch echild enospc : Errno
  -- an error that a file system or a copy routine handed up
  other : Errno

-- `fail e s` returns the error `e`, with what was changed before it in `s`. `panic` is a failed
-- KASSERT, a call of panic() or an access outside an array or through NULL.
pub data Outcome (S A : Type 0) : Type 0 where
  ret : A → S → Outcome S A
  fail : Errno → S → Outcome S A
  panic : Outcome S A

abbrev pub M : Type 0 → Type 0 → Type 0
M S A = S → Outcome S A

infixl 5 ◌>>=◌ ◌>>◌
abbrev pub ◌>>=◌ : {S A B : Type 0} → M S A → (A → M S B) → M S B
◌>>=◌ m f s = elim (m s) [ ret a t ↦ f a t | fail e t ↦ fail e t | panic ↦ panic ]

abbrev pub ◌>>◌ : {S B : Type 0} → M S (Unit {0}) → M S B → M S B
m >> k = m >>= λ _. k

abbrev pub return : {S A : Type 0} → A → M S A
return a s = ret a s

abbrev pub throw : {S A : Type 0} → Errno → M S A
throw e s = fail e s

abbrev pub get : {S : Type 0} → M S S
get s = ret s s

abbrev pub put : {S : Type 0} → S → M S (Unit {0})
put t s = ret tt t

-- KASSERT(b)
abbrev pub kassert : {S : Type 0} → Bool → M S (Unit {0})
kassert true s = ret tt s
kassert false s = panic

-- if (!b) return e;
abbrev pub check : {S : Type 0} → Bool → Errno → M S (Unit {0})
check true e s = ret tt s
check false e s = fail e s

-- A pointer that must not be NULL, or an index that must lie in the array.
abbrev pub deref : {S A : Type 0} → Option A → M S A
deref none s = panic
deref (some a) s = ret a s

-- `if (x == NULL) return e;`
abbrev pub or_fail : {S A : Type 0} → Option A → Errno → M S A
or_fail none e s = fail e s
or_fail (some a) e s = ret a s

-- The call does not panic; its value and state satisfy `P`, and where it returns an error the
-- state satisfies `Q`.
abbrev pub Post : {S A : Type 0} → (A → S → Type 0) → (S → Type 0) → Outcome S A → Type 0
Post P Q (ret a s) = P a s
Post P Q (fail e s) = Q s
Post P Q panic = ⊥
