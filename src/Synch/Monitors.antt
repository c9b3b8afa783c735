-- ===== src/Synch/Monitors.antt =====
-- Every sequence of calls on a lock and its condition variable keeps mutual exclusion and leaves no
-- thread asleep on a free lock with nobody on the way to wake it.
use longcat_os.Base.{
  ℕ, Option, none, some, List, [], ◌∷◌, ◌≡◌, inl, inr, arith, ap, ◌∙◌, sym, ◌==◌, if◌then◌else◌,
  Bool, true, false, Bool-cases, Option-cases, subst, ==_refl,
}
use longcat_os.Base.Outcome.{M, Outcome, ret, fail, panic, ◌>>=◌, ◌>>◌, get, put, deref}
use longcat_os.Synch.{
  Wchan, wchan_sleep, run_again, Lock, Monitor, is_holder, with_lock, on_lock, lock_round,
  lock_acquire, lock_release, cv_wait, cv_resume, cv_signal, cv_broadcast,
}
use longcat_os.Synch.Locks.{
  raise_priority-holder, lock_round_busy, lock_round_free, lock_acquire_self, lock_acquire_other,
  is_holder→some, released, lock_release_lem, lock_release_other, cv_wait_lem, cv_wait_other,
  cv_signal_lem, cv_signal_other, cv_broadcast_lem, cv_broadcast_other,
}
use longcat_os.Synch.Channels.{Covered, wchan_wakeone-Covered}

-- What the threads do: call `lock_acquire`, run again in it, call `lock_release`, call `cv_wait`,
-- run again in it, call `cv_signal`, call `cv_broadcast`.
pub data Event : Type 0 where
  acquire acquire_again release wait wait_again signal broadcast : ℕ → Event

-- A monitor, and the threads that have returned from `lock_acquire` or `cv_wait` and called neither
-- `lock_release` nor `cv_wait` since.
pub record System : Type 0 where
  pub mon : Monitor
  pub inside : List ℕ

abbrev pub leave : ℕ → List ℕ → List ℕ
leave t [] = []
leave t (x ∷ xs) = let rest = leave t xs in if x == t then xs else x ∷ rest

abbrev pub enter : Bool → ℕ → List ℕ → List ℕ
enter true t xs = t ∷ xs
enter false t xs = xs

abbrev pub after_acquire : ℕ → System → Outcome Monitor Bool → Option System
after_acquire t y (ret b m) = some (record { mon = m; inside = enter b t y.inside })
after_acquire t y (fail e m) = none
after_acquire t y panic = none

abbrev pub after_leave : ℕ → System → Outcome Monitor (Unit {0}) → Option System
after_leave t y (ret u m) = some (record { mon = m; inside = leave t y.inside })
after_leave t y (fail e m) = none
after_leave t y panic = none

abbrev pub after_wake : System → Outcome Monitor (Unit {0}) → Option System
after_wake y (ret u m) = some (record { mon = m; inside = y.inside })
after_wake y (fail e m) = none
after_wake y panic = none

-- A thread that was woken on the lock leaves the list and does a round.
abbrev pub lock_again : ℕ → M Lock Bool
lock_again t = do
  l ← get
  w ← deref (run_again t l.chan.woken)
  put (record l { chan = record { threads = l.chan.threads; woken = w } })
  lock_round t

-- A thread that was woken on the condition variable acquires the lock.
abbrev pub cv_again : ℕ → M Monitor Bool
cv_again t = do
  m ← get
  w ← deref (run_again t m.cv.woken)
  put (record m { cv = record { threads = m.cv.threads; woken = w } })
  cv_resume t

abbrev pub mon_step : Event → System → Option System
mon_step (acquire t) y = after_acquire t y (on_lock (lock_acquire t false) y.mon)
mon_step (acquire_again t) y = after_acquire t y (on_lock (lock_again t) y.mon)
mon_step (release t) y = after_leave t y (on_lock (lock_release t) y.mon)
mon_step (wait t) y = after_leave t y (cv_wait t y.mon)
mon_step (wait_again t) y = after_acquire t y (cv_again t y.mon)
mon_step (signal t) y = after_wake y (cv_signal t y.mon)
mon_step (broadcast t) y = after_wake y (cv_broadcast t y.mon)

pub data Reach (m : Monitor) : System → Type 0 where
  start : Reach m (record { mon = m; inside = [] })
  next : {y z : System} (e : Event) → Reach m y → mon_step e y ≡ some z → Reach m z

abbrev pub holders : Option ℕ → List ℕ
holders none = []
holders (some h) = h ∷ []

pub record Exclusive (y : System) : Type 0 where
  -- only the holder is inside
  pub exclusive : y.inside ≡ holders y.mon.lock.holder
  -- while threads sleep on a free lock, a woken one is on the way
  pub live : y.mon.lock.holder ≡ none → Covered 1 y.mon.lock.chan

abbrev Kept : (System → Type 0) → Option System → Type 0
Kept P none = Unit {0}
Kept P (some z) = P z

round-Kept :
    (t : ℕ) (y : System) (m : Monitor) (l : Lock)
    → y.inside ≡ holders l.holder
    → Kept Exclusive (after_acquire t y (with_lock m (lock_round t l)))
round-Kept t y m l e = elim (Option-cases l.holder) [
  | inl n ↦
      subst (λ o. Kept Exclusive (after_acquire t y (with_lock m o))) (sym (lock_round_free t l n))
        (record { exclusive = ap (◌∷◌ t) (e ∙ ap holders n); live = λ d. absurd (cc) })
  | inr (h, n) ↦
      subst (λ o. Kept Exclusive (after_acquire t y (with_lock m o)))
        (sym (lock_round_busy t h l n)) (record { exclusive = e; live = λ d. absurd (cc) })
]

acquire-Kept :
    (t : ℕ) (y : System) (m : Monitor)
    → y.inside ≡ holders m.lock.holder
    → Kept Exclusive (after_acquire t y (on_lock (lock_acquire t false) m))
acquire-Kept t y m e = elim (Bool-cases (is_holder m.lock.holder t)) [
  | inl h ↦
      subst (λ o. Kept Exclusive (after_acquire t y (with_lock m o)))
        (sym (lock_acquire_self t m.lock (is_holder→some m.lock.holder t h))) tt
  | inr h ↦
      subst (λ o. Kept Exclusive (after_acquire t y (with_lock m o)))
        (sym (lock_acquire_other t m.lock h))
        (round-Kept t y m _ (e ∙ ap holders (sym (raise_priority-holder t m.lock))))
]

leave_self : (t : ℕ) → leave t (t ∷ []) ≡ []
leave_self t = rw (==_refl t)

-- The holder is the only thread inside, and gone when it leaves.
leave-Exclusive :
    (t : ℕ) (y : System) (c : Wchan)
    → Exclusive y
    → is_holder y.mon.lock.holder t ≡ true
    → Exclusive
        (record { mon = record { lock = released y.mon.lock; cv = c }; inside = leave t y.inside })
leave-Exclusive t y c v h = record {
  exclusive =
      ap (leave t) (v.exclusive ∙ ap holders (is_holder→some y.mon.lock.holder t h)) ∙ leave_self t;
  live = λ e. wchan_wakeone-Covered 0 y.mon.lock.chan (λ ne. omega arith);
}

release-Kept :
    (t : ℕ) (y : System)
    → Exclusive y
    → Kept Exclusive (after_leave t y (on_lock (lock_release t) y.mon))
release-Kept t y v = elim (Bool-cases (is_holder y.mon.lock.holder t)) [
  | inl h ↦
      subst (λ o. Kept Exclusive (after_leave t y (with_lock y.mon o)))
        (sym (lock_release_lem t y.mon.lock h)) (leave-Exclusive t y y.mon.cv v h)
  | inr h ↦
      subst (λ o. Kept Exclusive (after_leave t y (with_lock y.mon o)))
        (sym (lock_release_other t y.mon.lock h)) tt
]

wait-Kept : (t : ℕ) (y : System) → Exclusive y → Kept Exclusive (after_leave t y (cv_wait t y.mon))
wait-Kept t y v = elim (Bool-cases (is_holder y.mon.lock.holder t)) [
  | inl h ↦
      subst (λ o. Kept Exclusive (after_leave t y o)) (sym (cv_wait_lem t y.mon h))
        (leave-Exclusive t y (wchan_sleep t y.mon.cv) v h)
  | inr h ↦ subst (λ o. Kept Exclusive (after_leave t y o)) (sym (cv_wait_other t y.mon h)) tt
]

lock_again-Kept :
    (t : ℕ) (y : System)
    → Exclusive y
    → Kept Exclusive (after_acquire t y (on_lock (lock_again t) y.mon))
lock_again-Kept t y v = elim (Option-cases (run_again t y.mon.lock.chan.woken)) [
  | inl n ↦ subst (λ o. Kept Exclusive (after_acquire t y (with_lock y.mon (from o)))) (sym n) tt
  | inr (w, n) ↦
      subst (λ o. Kept Exclusive (after_acquire t y (with_lock y.mon (from o)))) (sym n)
        (round-Kept t y y.mon _ v.exclusive)
]
  where
    from : Option (List ℕ) → Outcome Lock Bool
    from o =
        ◌>>=◌ (deref o)
          (λ w.
            put
              (record y.mon.lock { chan = record { threads = y.mon.lock.chan.threads; woken = w } })
            >> lock_round t)
          y.mon.lock

cv_again-Kept :
    (t : ℕ) (y : System) → Exclusive y → Kept Exclusive (after_acquire t y (cv_again t y.mon))
unfolding cv_resume
cv_again-Kept t y v = elim (Option-cases (run_again t y.mon.cv.woken)) [
  | inl n ↦ subst (λ o. Kept Exclusive (after_acquire t y (from o))) (sym n) tt
  | inr (w, n) ↦
      subst (λ o. Kept Exclusive (after_acquire t y (from o))) (sym n)
        (acquire-Kept t y _ v.exclusive)
]
  where
    from : Option (List ℕ) → Outcome Monitor Bool
    from o =
        ◌>>=◌ (deref o)
          (λ w.
            put (record y.mon { cv = record { threads = y.mon.cv.threads; woken = w } })
            >> cv_resume t)
          y.mon

signal-Kept : (t : ℕ) (y : System) → Exclusive y → Kept Exclusive (after_wake y (cv_signal t y.mon))
signal-Kept t y v = elim (Bool-cases (is_holder y.mon.lock.holder t)) [
  | inl h ↦
      subst (λ o. Kept Exclusive (after_wake y o)) (sym (cv_signal_lem t y.mon h))
        (record { exclusive = v.exclusive; live = v.live })
  | inr h ↦ subst (λ o. Kept Exclusive (after_wake y o)) (sym (cv_signal_other t y.mon h)) tt
]

broadcast-Kept :
    (t : ℕ) (y : System) → Exclusive y → Kept Exclusive (after_wake y (cv_broadcast t y.mon))
broadcast-Kept t y v = elim (Bool-cases (is_holder y.mon.lock.holder t)) [
  | inl h ↦
      subst (λ o. Kept Exclusive (after_wake y o)) (sym (cv_broadcast_lem t y.mon h))
        (record { exclusive = v.exclusive; live = v.live })
  | inr h ↦ subst (λ o. Kept Exclusive (after_wake y o)) (sym (cv_broadcast_other t y.mon h)) tt
]

step-Kept : (e : Event) (y : System) → Exclusive y → Kept Exclusive (mon_step e y)
step-Kept (acquire t) y v = acquire-Kept t y y.mon v.exclusive
step-Kept (acquire_again t) y v = lock_again-Kept t y v
step-Kept (release t) y v = release-Kept t y v
step-Kept (wait t) y v = wait-Kept t y v
step-Kept (wait_again t) y v = cv_again-Kept t y v
step-Kept (signal t) y v = signal-Kept t y v
step-Kept (broadcast t) y v = broadcast-Kept t y v

-- A new lock has no holder and no sleepers. After any calls on the lock and the condition variable,
-- the threads inside are the holder alone or none, and where threads sleep on the lock while it has no
-- holder, one has been woken and is about to try again.
pub Reach-Exclusive :
    (m : Monitor) (y : System)
    → m.lock.holder ≡ none
    → m.lock.chan.threads ≡ []
    → Reach m y
    → Exclusive y
Reach-Exclusive m y h e start = record {
  exclusive = ap holders (sym h);
  live = λ d ne. absurd (ne e);
}
Reach-Exclusive m y h e (next {y = x} ev r st) =
    subst (Kept Exclusive) st (step-Kept ev x (Reach-Exclusive m x h e r))
