-- ===== src/Synch.antt =====
-- kern/thread/synch.c and the wait channels of kern/thread/thread.c. Each critical section of a
-- spinlock is one step: a call that may sleep is cut where `wchan_sleep` gives the processor away,
-- and what follows, once the thread is awake, is another step. A thread is a number.
pub mod Channels
pub mod Alloc
pub mod Sems
pub mod Locks
pub mod Monitors
pub mod Order
pub mod OnLists
use longcat_os.Base.{
  ℕ, zero, suc, Option, none, some, List, [], ◌∷◌, ◌++◌, Bool, true, false, not, ◌+◌, ◌-◌, ◌%◌, ◌^◌,
  ◌==◌, ltb, if◌then◌else◌, get_or, set,
}
use longcat_os.Base.Outcome.{M, Outcome, ret, fail, panic, ◌>>=◌, ◌>>◌, return, get, put, kassert}

-- `struct wchan`: the threads that sleep on it, in the order of `wc_threads`, and those it has made
-- runnable that have not run since.
pub record Wchan : Type 0 where
  pub threads : List ℕ
  pub woken : List ℕ

-- `thread_switch(S_SLEEP, wc, lk)` puts the caller at the tail.
unfoldable pub wchan_sleep : ℕ → Wchan → Wchan
wchan_sleep t wc = record wc { threads = wc.threads ++ (t ∷ []) }

unfoldable pub wchan_wakeone : Wchan → Wchan
wchan_wakeone wc = elim wc.threads [
  | [] ↦ wc
  | target ∷ ts ↦ record { threads = ts; woken = wc.woken ++ (target ∷ []) }
]

-- `while ((target = threadlist_remhead(a)) != NULL) threadlist_addtail(b, target)`
unfoldable pub drain : List ℕ → List ℕ → List ℕ
drain [] b = b
drain (target ∷ ts) b = drain ts (b ++ (target ∷ []))

-- The first loop fills the private list, the second makes its threads runnable.
unfoldable pub wchan_wakeall : Wchan → Wchan
wchan_wakeall wc = record { threads = []; woken = drain (drain wc.threads []) wc.woken }

abbrev pub wchan_isempty : Wchan → Bool
wchan_isempty wc = elim wc.threads [ [] ↦ true | t ∷ ts ↦ false ]

-- A woken thread runs again.
unfoldable pub run_again : ℕ → List ℕ → Option (List ℕ)
run_again t [] = none
run_again t (x ∷ xs) =
    let rest = run_again t xs in
    if x == t then some xs else elim rest [ none ↦ none | some ys ↦ some (x ∷ ys) ]

-- `struct semaphore`
pub record Sem : Type 0 where
  pub count : ℕ
  pub chan : Wchan

-- One test of the loop of `P`: the thread takes the semaphore, or goes to sleep and the value is
-- `false`.
unfoldable pub p_round : ℕ → M Sem Bool
p_round t = do
  s ← get
  if s.count == 0
      then (do put (record s { chan = wchan_sleep t s.chan }); return false)
      else (do kassert (ltb 0 s.count); put (record s { count = s.count - 1 }); return true)

-- `P` up to its first sleep
unfoldable pub p_enter : ℕ → Bool → M Sem Bool
p_enter t in_interrupt = do kassert (not in_interrupt); p_round t

unfoldable pub v : M Sem (Unit {0})
v = do
  s ← get
  let count = (s.count + 1) % 2 ^ 32
  kassert (ltb 0 count)
  put (record { count = count; chan = wchan_wakeone s.chan })

-- `struct lock`, with the `t_priority` of every thread
pub record Lock : Type 0 where
  pub holder : Option ℕ
  pub priority : ℕ
  pub chan : Wchan
  pub t_priority : List ℕ

abbrev pub is_holder : Option ℕ → ℕ → Bool
is_holder none t = false
is_holder (some h) t = h == t

unfoldable pub lock_do_i_hold : ℕ → M Lock Bool
lock_do_i_hold t = do l ← get; return (is_holder l.holder t)

-- A thread that is about to wait takes over the higher priority of the lock.
unfoldable pub raise_priority : ℕ → Lock → Lock
raise_priority t l =
    if ltb (get_or l.t_priority t 0) l.priority
    then record l { t_priority = set l.t_priority t l.priority }
    else l

-- One test of the loop of `lock_acquire`; `lk_priority` has eight bits.
unfoldable pub lock_round : ℕ → M Lock Bool
lock_round t = do
  l ← get
  elim l.holder [
    | some h ↦ do put (record l { chan = wchan_sleep t l.chan }); return false
    | none ↦ do
      put (record l { holder = some t; priority = get_or l.t_priority t 0 % 2 ^ 8 })
      return true
  ]

-- `lock_acquire` up to its first sleep
unfoldable pub lock_acquire : ℕ → Bool → M Lock Bool
lock_acquire t in_interrupt = do
  held ← lock_do_i_hold t
  kassert (not held)
  kassert (not in_interrupt)
  l ← get
  put (raise_priority t l)
  lock_round t

unfoldable pub lock_release : ℕ → M Lock (Unit {0})
lock_release t = do
  held ← lock_do_i_hold t
  kassert held
  l ← get
  put (record l { holder = none; priority = 0; chan = wchan_wakeone l.chan })

-- A lock and a condition variable that is used with it
pub record Monitor : Type 0 where
  pub lock : Lock
  pub cv : Wchan

-- A call on the lock of a monitor
abbrev pub with_lock : {A : Type 0} → Monitor → Outcome Lock A → Outcome Monitor A
with_lock m (ret a l) = ret a (record m { lock = l })
with_lock m (fail e l) = fail e (record m { lock = l })
with_lock m panic = panic

abbrev pub on_lock : {A : Type 0} → M Lock A → M Monitor A
on_lock f m = with_lock m (f m.lock)

-- `cv_wait` up to its sleep. The condition variable's spinlock is held from before the lock is
-- released until the thread is on the channel.
unfoldable pub cv_wait : ℕ → M Monitor (Unit {0})
cv_wait t = do
  held ← on_lock (lock_do_i_hold t)
  kassert held
  on_lock (lock_release t)
  m ← get
  put (record m { cv = wchan_sleep t m.cv })

-- `cv_wait` after its sleep
unfoldable pub cv_resume : ℕ → M Monitor Bool
cv_resume t = on_lock (lock_acquire t false)

unfoldable pub cv_signal : ℕ → M Monitor (Unit {0})
cv_signal t = do
  held ← on_lock (lock_do_i_hold t)
  kassert held
  m ← get
  put (record m { cv = wchan_wakeone m.cv })

unfoldable pub cv_broadcast : ℕ → M Monitor (Unit {0})
cv_broadcast t = do
  held ← on_lock (lock_do_i_hold t)
  kassert held
  m ← get
  put (record m { cv = wchan_wakeall m.cv })
