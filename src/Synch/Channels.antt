-- ===== src/Synch/Channels.antt =====
-- What the calls on wait channels do to the two lists of a channel.
use longcat_os.Base.{
  ℕ, some, List, [], ◌∷◌, ◌++◌, ◌≡◌, ◌≢◌, ◌+◌, ◌≤◌, arith, length, length-append, refl, ◌∙◌, sym,
  Option-cases, inl, inr,
}
use longcat_os.Synch.{Wchan, wchan_wakeone, wchan_wakeall, drain, run_again}
use mathlib.Core.List.{append_assoc, append-nil}

pub drain-append : (xs ys : List ℕ) → drain xs ys ≡ ys ++ xs
unfolding drain
drain-append [] ys = sym (append-nil ys)
drain-append (x ∷ xs) ys = drain-append xs (ys ++ (x ∷ [])) ∙ append_assoc ys (x ∷ []) xs

-- Every sleeper becomes runnable, in the order in which they went to sleep.
pub wchan_wakeall_lem :
    (wc : Wchan) → wchan_wakeall wc ≡ record { threads = []; woken = wc.woken ++ wc.threads }
unfolding wchan_wakeall
wchan_wakeall_lem wc = rw (drain-append wc.threads [], drain-append wc.threads wc.woken)

-- Where someone sleeps there is a permit for nobody, or a woken thread that comes for each of them.
abbrev pub Covered : ℕ → Wchan → Type 0
Covered n wc = wc.threads ≢ [] → n ≤ length wc.woken

-- One permit more and one thread woken.
pub wchan_wakeone-Covered : (n : ℕ) (wc : Wchan) → Covered n wc → Covered (n + 1) (wchan_wakeone wc)
unfolding wchan_wakeone
wchan_wakeone-Covered n wc h = woken wc.threads refl
  where
    woken :
        (ts : List ℕ)
        → wc.threads ≡ ts
        → Covered (n + 1) (elim ts [
          | [] ↦ wc
          | target ∷ us ↦ record { threads = us; woken = wc.woken ++ (target ∷ []) }
        ])
    woken [] e ne = absurd (ne e)
    woken (t ∷ ts) e ne = omega (arith, length-append wc.woken (t ∷ []), h (λ d. cc))

pub run_again-length :
    (t : ℕ) (xs ys : List ℕ) → run_again t xs ≡ some ys → length xs ≡ length ys + 1
unfolding run_again
run_again-length t [] ys e = absurd (cc)
run_again-length t (x ∷ xs) ys e = elim (Option-cases (run_again t xs)) [
  | inl n ↦ ground (arith, n)
  | inr (zs, ez) ↦ ground (arith, ez, run_again-length t xs zs ez)
]
