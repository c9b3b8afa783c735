-- ===== src/Synch/Sems.antt =====
-- Every sequence of calls on a semaphore keeps count of them and forgets no sleeper.
use longcat_os.Base.{
  ℕ, Option, none, some, [], ◌≡◌, ◌≢◌, ◌+◌, ◌-◌, ◌<◌, ◌%◌, ◌^◌, inl, inr, arith, refl, sym, Bool,
  true, false, Option-cases, subst, ℕ_discrete,
}
use longcat_os.Base.Outcome.{M, Outcome, ret, fail, panic, ◌>>=◌, ◌>>◌, get, put, deref}
use longcat_os.Synch.{Sem, wchan_sleep, wchan_wakeone, run_again, p_round, p_enter, v}
use longcat_os.Synch.Channels.{Covered, wchan_wakeone-Covered, run_again-length}

-- A thread begins `P`, a thread that was woken in `P` runs again, or a thread calls `V`.
pub data Event : Type 0 where
  begin_p again_p : ℕ → Event
  call_v : Event

-- The semaphore, and how many calls of `P` and `V` have returned.
pub record System : Type 0 where
  pub sem : Sem
  pub passed : ℕ
  pub raised : ℕ

abbrev pub tally : Bool → ℕ → ℕ
tally true n = n + 1
tally false n = n

-- The woken thread leaves the list and does its round.
abbrev pub p_again : ℕ → M Sem Bool
p_again t = do
  s ← get
  w ← deref (run_again t s.chan.woken)
  put (record s { chan = record { threads = s.chan.threads; woken = w } })
  p_round t

-- What the outcome of a call makes of the system; a panic stops it.
abbrev pub after_p : System → Outcome Sem Bool → Option System
after_p y (ret b s) = some (record { sem = s; passed = tally b y.passed; raised = y.raised })
after_p y (fail e s) = none
after_p y panic = none

abbrev pub after_v : System → Outcome Sem (Unit {0}) → Option System
after_v y (ret u s) = some (record { sem = s; passed = y.passed; raised = y.raised + 1 })
after_v y (fail e s) = none
after_v y panic = none

abbrev pub sem_step : Event → System → Option System
sem_step (begin_p t) y = after_p y (p_enter t false y.sem)
sem_step (again_p t) y = after_p y (p_again t y.sem)
sem_step call_v y = after_v y (v y.sem)

pub data Reach (s : Sem) : System → Type 0 where
  start : Reach s (record { sem = s; passed = 0; raised = 0 })
  next : {y z : System} (e : Event) → Reach s y → sem_step e y ≡ some z → Reach s z

pub record Sound (initial : ℕ) (y : System) : Type 0 where
  pub bounded : y.sem.count < 2 ^ 32
  pub conserved : y.sem.count + y.passed ≡ initial + y.raised
  pub covered : Covered y.sem.count y.sem.chan

-- The step panics, or `P` holds of the system that it leads to.
abbrev Kept : (System → Type 0) → Option System → Type 0
Kept P none = Unit {0}
Kept P (some z) = P z

p_round-asleep :
    (t : ℕ) (s : Sem)
    → s.count ≡ 0
    → p_round t s ≡ ret false (record s { chan = wchan_sleep t s.chan })
unfolding p_round
p_round-asleep t s e = ground arith

p_round-taken :
    (t : ℕ) (s : Sem) → s.count ≢ 0 → p_round t s ≡ ret true (record s { count = s.count - 1 })
unfolding p_round
p_round-taken t s e = ground arith

-- A round of `P` with one thread less to come for the permits.
p_round-Kept :
    (n t : ℕ) (y : System) (s : Sem)
    → s.count < 2 ^ 32
    → s.count + y.passed ≡ n + y.raised
    → Covered (s.count - 1) s.chan
    → Kept (Sound n) (after_p y (p_round t s))
p_round-Kept n t y s b e h = elim (ℕ_discrete s.count 0) [
  | yes z ↦
      subst (λ o. Kept (Sound n) (after_p y o)) (sym (p_round-asleep t s z))
        (record { bounded = b; conserved = e; covered = λ ne. omega arith })
  | no z ↦
      subst (λ o. Kept (Sound n) (after_p y o)) (sym (p_round-taken t s z))
        (record { bounded = omega arith; conserved = omega arith; covered = h })
]

p_again-Kept : (n t : ℕ) (y : System) → Sound n y → Kept (Sound n) (after_p y (p_again t y.sem))
p_again-Kept n t y s = elim (Option-cases (run_again t y.sem.chan.woken)) [
  | inl f ↦
      subst
        (λ o. Kept (Sound n) (
          after_p y (
            ◌>>=◌ (deref o)
              (λ w.
                put (record y.sem { chan = record { threads = y.sem.chan.threads; woken = w } })
                >> p_round t)
              y.sem)))
        (sym f) tt
  | inr (w, f) ↦
      subst
        (λ o. Kept (Sound n) (
          after_p y (
            ◌>>=◌ (deref o)
              (λ w.
                put (record y.sem { chan = record { threads = y.sem.chan.threads; woken = w } })
                >> p_round t)
              y.sem)))
        (sym f)
        (p_round-Kept n t y _ s.bounded s.conserved
          (λ ne. omega (arith, s.covered ne, run_again-length t _ w f)))
]

v_lem :
    (s : Sem)
    → (s.count + 1) % 2 ^ 32 ≢ 0
    → v s ≡ ret tt (record { count = (s.count + 1) % 2 ^ 32; chan = wchan_wakeone s.chan })
unfolding v
v_lem s e = ground arith

v_wraps : (s : Sem) → (s.count + 1) % 2 ^ 32 ≡ 0 → v s ≡ panic
unfolding v
v_wraps s e = ground arith

v-Kept : (n : ℕ) (y : System) → Sound n y → Kept (Sound n) (after_v y (v y.sem))
v-Kept n y s = elim (ℕ_discrete ((y.sem.count + 1) % 2 ^ 32) 0) [
  | yes z ↦ subst (λ o. Kept (Sound n) (after_v y o)) (sym (v_wraps y.sem z)) tt
  | no z ↦
      subst (λ o. Kept (Sound n) (after_v y o)) (sym (v_lem y.sem z))
        (record {
          bounded = omega arith;
          conserved = omega (arith, s.conserved, s.bounded);
          covered = λ ne.
              omega (arith, s.bounded, wchan_wakeone-Covered y.sem.count y.sem.chan s.covered ne);
        })
]

step-Kept : (n : ℕ) (e : Event) (y : System) → Sound n y → Kept (Sound n) (sem_step e y)
unfolding p_enter
step-Kept n (begin_p t) y s =
    p_round-Kept n t y y.sem s.bounded s.conserved (λ ne. omega (arith, s.covered ne))
step-Kept n (again_p t) y s = p_again-Kept n t y s
step-Kept n call_v y s = v-Kept n y s

-- A new semaphore has no sleepers. After any calls on it, permits and returned calls of `P` make up
-- the first count and the returned calls of `V`, and where a thread sleeps every permit has a
-- woken thread that comes for it.
pub Reach-Sound :
    (s : Sem) (y : System) → s.count < 2 ^ 32 → s.chan.threads ≡ [] → Reach s y → Sound s.count y
Reach-Sound s y b e start = record { bounded = b; conserved = refl; covered = λ ne. absurd (ne e) }
Reach-Sound s y b e (next {y = x} ev r st) =
    subst (Kept (Sound s.count)) st (step-Kept s.count ev x (Reach-Sound s x b e r))
