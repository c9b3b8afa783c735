-- ===== src/Files/Refs.antt =====
-- The reference counts of file handles: what the descriptors of all processes refer to.
use longcat_os.Base.{
  get_of_lt-length, inl, inr, subst, ap, Option-cases, lt-length_of_get, get_elem?-set_self,
  get_elem?-set_ne, ℕ, zero, suc, Option, none, some, List, [], ◌∷◌, ◌+◌, ◌*◌, ◌≤◌, ◌<◌, ◌≡◌, ◌≢◌,
  arith, length, get_elem?, set,
}
use longcat_os.Base.Count.{hit, count-set, count-pos, count, count-le-length}
use longcat_os.Base.Int.{ℤ, pos, negsuc, pos_part}
use longcat_os.Files.{valid_fd}
use longcat_os.Kernel.{
  set_proc, proc_at, set_slot, Kernel, Handle, Proc, open_max, ft_max, fd_free, proc_max, join,
  slot,
}

-- How many descriptors of the processes of a table hold slot `k`.
abbrev pub refs : ℕ → List (Option Proc) → ℕ
refs k [] = 0
refs k (none ∷ ps) = refs k ps
refs k (some p ∷ ps) = count k p.fds + refs k ps

-- Every process has a full descriptor array.
abbrev pub Sized : List (Option Proc) → Type 0
Sized [] = Unit {0}
Sized (none ∷ ps) = Sized ps
Sized (some p ∷ ps) = (length p.fds ≡ open_max) × Sized ps

pub record IsSized (k : Kernel) : Type 0 where
  pub fhs_size : length k.fhs ≡ ft_max
  pub procs_size : length k.procs ≡ proc_max
  pub fds_size : Sized k.procs

-- A slot that is held `n` times: a handle that counts `n`, or NULL where `n` is 0.
abbrev pub Entry : ℕ → Option Handle → Type 0
Entry n none = n ≡ 0
Entry n (some h) = (n ≡ h.refcount) × (0 < n)

-- Each slot is counted as often as descriptors hold it, and `extra` times more.
abbrev pub Balanced : (ℕ → ℕ) → Kernel → Type 0
Balanced extra k = (i : ℕ) → i ≢ fd_free → Entry (refs i k.procs + extra i) (slot k i)

pub record Inv (extra : ℕ → ℕ) (k : Kernel) : Type 0 where
  pub sized : IsSized k
  pub balanced : Balanced extra k

-- Replacing a process changes the count by its descriptors.
pub refs-set :
    (k i : ℕ) (ps : List (Option Proc)) (p q : Proc)
    → join (get_elem? ps i) ≡ some p
    → refs k (set ps i (some q)) + count k p.fds ≡ refs k ps + count k q.fds
refs-set k i [] p q e = absurd (cc)
refs-set k zero (none ∷ ps) p q e = absurd (cc)
refs-set k zero (some r ∷ ps) p q e = ground arith
refs-set k (suc i) (none ∷ ps) p q e = refs-set k i ps p q e
refs-set k (suc i) (some r ∷ ps) p q e = omega (arith, refs-set k i ps p q e)

-- Adding a process to a free slot adds its descriptors.
pub refs-set_new :
    (k i : ℕ) (ps : List (Option Proc)) (q : Proc)
    → get_elem? ps i ≡ some none
    → refs k (set ps i (some q)) ≡ refs k ps + count k q.fds
refs-set_new k i [] q e = absurd (cc)
refs-set_new k zero (none ∷ ps) q e = ground arith
refs-set_new k zero (some r ∷ ps) q e = absurd (cc)
refs-set_new k (suc i) (none ∷ ps) q e = refs-set_new k i ps q e
refs-set_new k (suc i) (some r ∷ ps) q e = omega (arith, refs-set_new k i ps q e)

pub count-le-refs :
    (k i : ℕ) (ps : List (Option Proc)) (p : Proc)
    → join (get_elem? ps i) ≡ some p
    → count k p.fds ≤ refs k ps
count-le-refs k i [] p e = absurd (cc)
count-le-refs k zero (none ∷ ps) p e = absurd (cc)
count-le-refs k zero (some r ∷ ps) p e = ground arith
count-le-refs k (suc i) (none ∷ ps) p e = count-le-refs k i ps p e
count-le-refs k (suc i) (some r ∷ ps) p e = omega (arith, count-le-refs k i ps p e)

pub refs-bound : (k : ℕ) (ps : List (Option Proc)) → Sized ps → refs k ps ≤ length ps * open_max
refs-bound k [] s = omega arith
refs-bound k (none ∷ ps) s = omega (arith, refs-bound k ps s)
refs-bound k (some p ∷ ps) s = omega (arith, refs-bound k ps s.1, count-le-length k p.fds)

pub Sized-set :
    (i : ℕ) (ps : List (Option Proc)) (q : Proc)
    → length q.fds ≡ open_max
    → Sized ps
    → Sized (set ps i (some q))
Sized-set i [] q h s = tt
Sized-set zero (none ∷ ps) q h s = (h, s)
Sized-set zero (some r ∷ ps) q h s = (h, s.1)
Sized-set (suc i) (none ∷ ps) q h s = Sized-set i ps q h s
Sized-set (suc i) (some r ∷ ps) q h s = (s.0, Sized-set i ps q h s.1)

pub Sized-get :
    (i : ℕ) (ps : List (Option Proc)) (p : Proc)
    → join (get_elem? ps i) ≡ some p
    → Sized ps
    → length p.fds ≡ open_max
Sized-get i [] p e s = absurd (cc)
Sized-get zero (none ∷ ps) p e s = absurd (cc)
Sized-get zero (some r ∷ ps) p e s = ground arith
Sized-get (suc i) (none ∷ ps) p e s = Sized-get i ps p e s
Sized-get (suc i) (some r ∷ ps) p e s = Sized-get i ps p e s.1

-- Writing one descriptor moves one reference.
pub refs-set_fd :
    (j i : ℕ) (ps : List (Option Proc)) (p : Proc) (n a b : ℕ)
    → join (get_elem? ps i) ≡ some p
    → get_elem? p.fds n ≡ some a
    → refs j (set ps i (some (record p { fds = set p.fds n b }))) + hit j a ≡ refs j ps + hit j b
refs-set_fd j i ps p n a b e f =
    omega (arith, refs-set j i ps p (record p { fds = set p.fds n b }) e, count-set j p.fds n a b f)

-- A descriptor that is in use names a handle.
pub slot_of_fd :
    (e : ℕ → ℕ) (k : Kernel)
    → Balanced e k
    → (i : ℕ) (p : Proc) (n a : ℕ) → proc_at k i ≡ some p
    → get_elem? p.fds n ≡ some a
    → a ≢ fd_free
    → (h : Handle) × (slot k a ≡ some h)
slot_of_fd e k b i p n a ep ef ne = elim (Option-cases (slot k a)) [
  | inl s ↦ absurd (
      omega (
        arith,
        subst (Entry (refs a k.procs + e a)) s (b a ne),
        count-pos p.fds n a ef,
        count-le-refs a i k.procs p ep,
      ))
  | inr f ↦ f
]

-- Where a slot holds a handle, its index is that of the table.
pub lt_of_slot : (k : Kernel) (i : ℕ) (h : Handle) → slot k i ≡ some h → i < length k.fhs
lt_of_slot k i h e = elim (Option-cases (get_elem? k.fhs i)) [
  | inl s ↦ absurd (cc)
  | inr (o, s) ↦ lt-length_of_get k.fhs i s
]

pub slot-set_self :
    (k : Kernel) (i : ℕ) (o : Option Handle) → i < length k.fhs → slot (set_slot k i o) i ≡ o
slot-set_self k i o h = ap join (get_elem?-set_self k.fhs i o h)

pub slot-set_ne :
    (k : Kernel) (i j : ℕ) (o : Option Handle) → i ≢ j → slot (set_slot k i o) j ≡ slot k j
slot-set_ne k i j o h = ap join (get_elem?-set_ne k.fhs i j o h)

-- The process that was written is read back.
pub proc_at-set_self :
    (k : Kernel) (i : ℕ) (p q : Proc)
    → proc_at k i ≡ some p
    → proc_at (set_proc k i (some q)) i ≡ some q
proc_at-set_self k i p q e = elim (Option-cases (get_elem? k.procs i)) [
  | inl s ↦ absurd (cc)
  | inr (o, s) ↦ ap join (get_elem?-set_self k.procs i (some q) (lt-length_of_get k.procs i s))
]

-- A slot that is in use is not the mark of a free descriptor.
pub slot-ne-free :
    (e : ℕ → ℕ) (k : Kernel) (a : ℕ) (h : Handle) → Inv e k → slot k a ≡ some h → a < 255
slot-ne-free e k a h v s = omega (arith, lt_of_slot k a h s, v.sized.fhs_size)

-- A descriptor that passes the test of its range.
pub valid_fd-lt : (fd : ℤ) (n : ℕ) → valid_fd fd ≡ some n → (n < open_max) × (pos_part fd ≡ n)
valid_fd-lt (pos m) n e = ground arith
valid_fd-lt (negsuc m) n e = absurd (cc)

-- What a descriptor of a process holds.
pub fd-get :
    (e : ℕ → ℕ) (k : Kernel) (i : ℕ) (p : Proc) (n : ℕ)
    → Inv e k
    → proc_at k i ≡ some p
    → n < open_max
    → (a : ℕ) × (get_elem? p.fds n ≡ some a)
fd-get e k i p n v ep ln =
    get_of_lt-length p.fds n (omega (arith, Sized-get i k.procs p ep v.sized.fds_size))
