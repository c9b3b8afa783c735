-- ===== src/Synch/Locks.antt =====
-- What the calls on a lock and its condition variable come to, by whether the caller holds the lock.
use longcat_os.Base.{ℕ, Option, none, some, ◌≡◌, ◌%◌, ◌^◌, arith, ap, true, false, get_or, ==→eq}
use longcat_os.Base.Outcome.{ret, panic}
use longcat_os.Synch.{
  wchan_sleep, wchan_wakeone, wchan_wakeall, Lock, Monitor, is_holder, lock_do_i_hold,
  raise_priority, lock_round, lock_acquire, lock_release, cv_wait, cv_signal, cv_broadcast,
}

pub raise_priority-chan : (t : ℕ) (l : Lock) → (raise_priority t l).chan ≡ l.chan
unfolding raise_priority
raise_priority-chan t l = ground arith

pub raise_priority-holder : (t : ℕ) (l : Lock) → (raise_priority t l).holder ≡ l.holder
unfolding raise_priority
raise_priority-holder t l = ground arith

abbrev pub asleep : ℕ → Lock → Lock
asleep t l = record l { chan = wchan_sleep t l.chan }

abbrev pub taken : ℕ → Lock → Lock
taken t l = record l { holder = some t; priority = get_or l.t_priority t 0 % 2 ^ 8 }

pub lock_round_busy :
    (t h : ℕ) (l : Lock) → l.holder ≡ some h → lock_round t l ≡ ret false (asleep t l)
unfolding lock_round
lock_round_busy t h l e = ground arith

pub lock_round_free : (t : ℕ) (l : Lock) → l.holder ≡ none → lock_round t l ≡ ret true (taken t l)
unfolding lock_round
lock_round_free t l e = ground arith

pub lock_acquire_self : (t : ℕ) (l : Lock) → l.holder ≡ some t → lock_acquire t false l ≡ panic
unfolding lock_acquire lock_do_i_hold
lock_acquire_self t l e = ground arith

pub lock_acquire_other :
    (t : ℕ) (l : Lock)
    → is_holder l.holder t ≡ false
    → lock_acquire t false l ≡ lock_round t (raise_priority t l)
unfolding lock_acquire lock_do_i_hold
lock_acquire_other t l e = ground arith

pub is_holder→some : (o : Option ℕ) (t : ℕ) → is_holder o t ≡ true → o ≡ some t
is_holder→some none t e = absurd (cc)
is_holder→some (some h) t e = ap some (==→eq h t e)

abbrev pub released : Lock → Lock
released l = record l { holder = none; priority = 0; chan = wchan_wakeone l.chan }

pub lock_release_lem :
    (t : ℕ) (l : Lock) → is_holder l.holder t ≡ true → lock_release t l ≡ ret tt (released l)
unfolding lock_release lock_do_i_hold
lock_release_lem t l e = ground arith

pub lock_release_other :
    (t : ℕ) (l : Lock) → is_holder l.holder t ≡ false → lock_release t l ≡ panic
unfolding lock_release lock_do_i_hold
lock_release_other t l e = ground arith

pub cv_wait_lem :
    (t : ℕ) (m : Monitor)
    → is_holder m.lock.holder t ≡ true
    → cv_wait t m ≡ ret tt (record { lock = released m.lock; cv = wchan_sleep t m.cv })
unfolding cv_wait lock_do_i_hold
cv_wait_lem t m e = ground (arith, lock_release_lem t m.lock e)

pub cv_wait_other : (t : ℕ) (m : Monitor) → is_holder m.lock.holder t ≡ false → cv_wait t m ≡ panic
unfolding cv_wait lock_do_i_hold
cv_wait_other t m e = ground arith

pub cv_signal_lem :
    (t : ℕ) (m : Monitor)
    → is_holder m.lock.holder t ≡ true
    → cv_signal t m ≡ ret tt (record m { cv = wchan_wakeone m.cv })
unfolding cv_signal lock_do_i_hold
cv_signal_lem t m e = ground arith

pub cv_signal_other :
    (t : ℕ) (m : Monitor) → is_holder m.lock.holder t ≡ false → cv_signal t m ≡ panic
unfolding cv_signal lock_do_i_hold
cv_signal_other t m e = ground arith

pub cv_broadcast_lem :
    (t : ℕ) (m : Monitor)
    → is_holder m.lock.holder t ≡ true
    → cv_broadcast t m ≡ ret tt (record m { cv = wchan_wakeall m.cv })
unfolding cv_broadcast lock_do_i_hold
cv_broadcast_lem t m e = ground arith

pub cv_broadcast_other :
    (t : ℕ) (m : Monitor) → is_holder m.lock.holder t ≡ false → cv_broadcast t m ≡ panic
unfolding cv_broadcast lock_do_i_hold
cv_broadcast_other t m e = ground arith
