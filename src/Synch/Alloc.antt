-- ===== src/Synch/Alloc.antt =====
-- sem_create, lock_create and cv_create, wchan_create, and the calls that destroy what they made.
-- The state is the number of blocks that kmalloc has given out and that were not freed.
use longcat_os.Base.{
  ℕ, Option, none, some, [], Bool, true, false, ◌+◌, ◌-◌, ◌≡◌, ltb, if◌then◌else◌, arith, refl,
  List,
}
use longcat_os.Base.Outcome.{M, Outcome, ret, fail, panic, ◌>>=◌, ◌>>◌, return, get, put, kassert}
use longcat_os.Synch.{Wchan, Sem, Lock, wchan_isempty}

-- `kmalloc` and `kstrdup`: the flag says whether there is memory.
unfoldable pub kmalloc : Bool → M ℕ Bool
kmalloc true = do n ← get; put (n + 1); return true
kmalloc false = return false

-- `kfree`: freeing what is not allocated is caught.
unfoldable pub kfree : M ℕ (Unit {0})
kfree = do n ← get; kassert (ltb 0 n); put (n - 1)

unfoldable pub wchan_create : Bool → M ℕ (Option Wchan)
wchan_create mem = do
  wc ← kmalloc mem
  if wc then return (some (record { threads = []; woken = [] })) else return none

unfoldable pub wchan_destroy : Wchan → M ℕ (Unit {0})
wchan_destroy wc = do kassert (wchan_isempty wc); kfree

unfoldable pub sem_create : ℕ → Bool → Bool → Bool → M ℕ (Option Sem)
sem_create initial_count mem name_mem wchan_mem = do
  sem ← kmalloc mem
  if sem
      then (do
        name ← kmalloc name_mem
        if name
            then (do
              wc ← wchan_create wchan_mem
              elim wc [
                | none ↦ do kfree; kfree; return none
                | some c ↦ return (some (record { count = initial_count; chan = c }))
              ])
            else (do kfree; return none))
      else return none

unfoldable pub sem_destroy : Sem → M ℕ (Unit {0})
sem_destroy s = do wchan_destroy s.chan; kfree; kfree

-- `priorities`: the `t_priority` of the threads
unfoldable pub lock_create : List ℕ → Bool → Bool → Bool → M ℕ (Option Lock)
lock_create priorities mem name_mem wchan_mem = do
  lock ← kmalloc mem
  if lock
      then (do
        name ← kmalloc name_mem
        if name
            then (do
              wc ← wchan_create wchan_mem
              elim wc [
                | none ↦ do kfree; kfree; return none
                | some c ↦ return (
                    some
                      (record { holder = none; priority = 0; chan = c; t_priority = priorities }))
              ])
            else (do kfree; return none))
      else return none

unfoldable pub lock_destroy : Lock → M ℕ (Unit {0})
lock_destroy l = do
  kassert (elim l.holder [ none ↦ true | some h ↦ false ])
  wchan_destroy l.chan
  kfree
  kfree

unfoldable pub cv_create : Bool → Bool → Bool → M ℕ (Option Wchan)
cv_create mem name_mem wchan_mem = do
  cv ← kmalloc mem
  if cv
      then (do
        name ← kmalloc name_mem
        if name
            then (do
              wc ← wchan_create wchan_mem
              elim wc [ none ↦ do kfree; kfree; return none | some c ↦ return (some c) ])
            else (do kfree; return none))
      else return none

unfoldable pub cv_destroy : Wchan → M ℕ (Unit {0})
cv_destroy c = do wchan_destroy c; kfree; kfree

-- NULL with no block more than before, or an object with three blocks that `destroy` frees
abbrev pub Whole : {A : Type 0} → ℕ → (A → M ℕ (Unit {0})) → Outcome ℕ (Option A) → Type 0
Whole n destroy (ret none k) = k ≡ n
Whole n destroy (ret (some a) k) = (k ≡ n + 3) × (destroy a k ≡ ret tt n)
Whole n destroy (fail e k) = ⊥
Whole n destroy panic = ⊥

-- sem_create never panics. It gives NULL and keeps no block, or a semaphore that sem_destroy takes
-- back with every block.
pub sem_create-Whole :
    (n count : ℕ) (mem name_mem wchan_mem : Bool)
    → Whole n sem_destroy (sem_create count mem name_mem wchan_mem n)
unfolding sem_create sem_destroy wchan_create wchan_destroy kmalloc kfree
sem_create-Whole n c false x y = refl
sem_create-Whole n c true false y = ground arith
sem_create-Whole n c true true false = ground arith
sem_create-Whole n c true true true = (omega arith, ground arith)

-- lock_create never panics. It gives NULL and keeps no block, or a lock that lock_destroy takes back
-- with every block.
pub lock_create-Whole :
    (n : ℕ) (priorities : List ℕ) (mem name_mem wchan_mem : Bool)
    → Whole n lock_destroy (lock_create priorities mem name_mem wchan_mem n)
unfolding lock_create lock_destroy wchan_create wchan_destroy kmalloc kfree
lock_create-Whole n c false x y = refl
lock_create-Whole n c true false y = ground arith
lock_create-Whole n c true true false = ground arith
lock_create-Whole n c true true true = (omega arith, ground arith)

-- cv_create never panics. It gives NULL and keeps no block, or a condition variable that cv_destroy
-- takes back with every block.
pub cv_create-Whole :
    (n : ℕ) (mem name_mem wchan_mem : Bool)
    → Whole n cv_destroy (cv_create mem name_mem wchan_mem n)
unfolding cv_create cv_destroy wchan_create wchan_destroy kmalloc kfree
cv_create-Whole n false x y = refl
cv_create-Whole n true false y = ground arith
cv_create-Whole n true true false = ground arith
cv_create-Whole n true true true = (omega arith, ground arith)
