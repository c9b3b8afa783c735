-- ===== src/Synch/Order.antt =====
-- The order in which a condition variable wakes its sleepers.
use longcat_os.Base.{ℕ, zero, suc, List, [], ◌∷◌, ◌++◌, ◌≡◌, length, refl, ap, ◌∙◌, sym, true}
use longcat_os.Base.Outcome.{M, ret, ◌>>◌, return}
use longcat_os.Synch.{Lock, Monitor, is_holder, wchan_wakeone, cv_signal, cv_broadcast}
use longcat_os.Synch.Channels.{wchan_wakeall_lem}
use longcat_os.Synch.Locks.{cv_signal_lem, cv_broadcast_lem}
use mathlib.Core.List.{append_assoc, append-nil}

-- `n` calls of `cv_signal`
abbrev pub signals : ℕ → ℕ → M Monitor (Unit {0})
signals zero t = return tt
signals (suc n) t = let rest = signals n t in cv_signal t >> rest

wakeone :
    (t : ℕ) (ts w : List ℕ)
    → wchan_wakeone (record { threads = t ∷ ts; woken = w })
      ≡ record { threads = ts; woken = w ++ (t ∷ []) }
unfolding wchan_wakeone
wakeone t ts w = refl

signals_all :
    (t : ℕ) (ts w : List ℕ) (l : Lock)
    → is_holder l.holder t ≡ true
    → signals (length ts) t (record { lock = l; cv = record { threads = ts; woken = w } })
      ≡ ret tt (record { lock = l; cv = record { threads = []; woken = w ++ ts } })
signals_all t [] w l h = rw (append-nil w)
signals_all t (x ∷ ts) w l h =
    ap
      (λ o.
        ◌>>◌ (λ m. o) (signals (length ts) t)
          (record { lock = l; cv = record { threads = x ∷ ts; woken = w } }))
      (cv_signal_lem t (record { lock = l; cv = record { threads = x ∷ ts; woken = w } }) h
        ∙ ap (λ c. ret tt (record { lock = l; cv = c })) (wakeone x ts w))
    ∙ signals_all t ts (w ++ (x ∷ [])) l h
    ∙ ap (λ c. ret tt (record { lock = l; cv = record { threads = []; woken = c } }))
        (append_assoc w (x ∷ []) ts)

-- A broadcast is as many signals as there are sleepers: each becomes runnable, the one that has slept
-- longest first.
pub cv_broadcast-signals :
    (t : ℕ) (m : Monitor)
    → is_holder m.lock.holder t ≡ true
    → cv_broadcast t m ≡ signals (length m.cv.threads) t m
cv_broadcast-signals t m h =
    cv_broadcast_lem t m h
    ∙ ap (λ x. ret tt (record m { cv = x })) (wchan_wakeall_lem m.cv)
    ∙ sym (signals_all t m.cv.threads m.cv.woken m.lock h)
