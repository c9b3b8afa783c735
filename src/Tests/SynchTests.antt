-- ===== src/Tests/SynchTests.antt =====
-- Two threads at a semaphore, and three at a monitor.
use longcat_os.Base.{none, some, [], ◌∷◌, ◌≡◌, true, refl, arith}
use longcat_os.Synch.{
  Wchan, Sem, Monitor, p_enter, p_round, v, run_again, wchan_sleep, wchan_wakeone, lock_acquire,
  lock_release, lock_round, lock_do_i_hold, raise_priority, cv_wait, cv_resume, cv_signal,
  cv_broadcast,
}
use longcat_os.Synch.Alloc.{Whole, lock_create, lock_destroy, lock_create-Whole}
use longcat_os.Synch.Sems
use longcat_os.Synch.Monitors
use longcat_os.Synch.Order.{signals, cv_broadcast-signals}

abbrev no_one : Wchan
no_one = record { threads = []; woken = [] }

abbrev one_permit : Sem
one_permit = record { count = 1; chan = no_one }

-- Thread 5 takes the permit, thread 6 sleeps, 5 gives it back and wakes 6, which takes it.
abbrev handed_on : Sems.System
handed_on = record { sem = record { count = 0; chan = no_one }; passed = 2; raised = 1 }

handed_on-Reach : Sems.Reach one_permit handed_on
unfolding p_enter p_round v run_again wchan_sleep wchan_wakeone
handed_on-Reach =
    Sems.Reach.next (Sems.Event.again_p 6)
      (Sems.Reach.next Sems.Event.call_v
        (Sems.Reach.next (Sems.Event.begin_p 6)
          (Sems.Reach.next (Sems.Event.begin_p 5) Sems.Reach.start refl) refl)
        refl)
      refl

Reach-Sound_example : Sems.Sound 1 handed_on
Reach-Sound_example = Sems.Reach-Sound one_permit handed_on (omega arith) refl handed_on-Reach

abbrev new_monitor : Monitor
new_monitor = record {
  lock = record { holder = none; priority = 0; chan = no_one; t_priority = 3 ∷ 2 ∷ [] };
  cv = no_one;
}

-- Thread 0 waits on the condition variable, thread 1 signals it and leaves, and 0 comes back in.
abbrev signalled : Monitors.System
signalled = record {
  mon = record {
    lock = record { holder = some 0; priority = 3; chan = no_one; t_priority = 3 ∷ 2 ∷ [] };
    cv = no_one;
  };
  inside = 0 ∷ [];
}

signalled-Reach : Monitors.Reach new_monitor signalled
unfolding lock_acquire lock_round lock_release lock_do_i_hold raise_priority cv_wait cv_resume
    cv_signal run_again wchan_sleep wchan_wakeone
signalled-Reach =
    Monitors.Reach.next (Monitors.Event.wait_again 0)
      (Monitors.Reach.next (Monitors.Event.release 1)
        (Monitors.Reach.next (Monitors.Event.signal 1)
          (Monitors.Reach.next (Monitors.Event.acquire 1)
            (Monitors.Reach.next (Monitors.Event.wait 0)
              (Monitors.Reach.next (Monitors.Event.acquire 0) Monitors.Reach.start refl) refl)
            refl)
          refl)
        refl)
      refl

Reach-Exclusive_example : Monitors.Exclusive signalled
Reach-Exclusive_example = Monitors.Reach-Exclusive new_monitor signalled refl refl signalled-Reach

abbrev two_waiting : Monitor
two_waiting = record {
  lock = record { holder = some 7; priority = 0; chan = no_one; t_priority = [] };
  cv = record { threads = 8 ∷ 9 ∷ []; woken = [] };
}

cv_broadcast-signals_example : cv_broadcast 7 two_waiting ≡ signals 2 7 two_waiting
cv_broadcast-signals_example = cv_broadcast-signals 7 two_waiting refl

lock_create-Whole_example : Whole 0 lock_destroy (lock_create [] true true true 0)
lock_create-Whole_example = lock_create-Whole 0 [] true true true
