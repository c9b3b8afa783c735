-- ===== src/Boot.antt =====
-- The tables at boot: `ft_init` of kern/vfs/filetable.c, and `proc_bootstrap`, `pt_init` and
-- `pt_bootstrap` of kern/proc/proc.c, in the order of kern/main/main.c.
use longcat_os.Base.{
  subst, sym, ℕ, zero, suc, Option, none, some, Bool, true, false, if◌then◌else◌, ◌-◌, ◌≤◌, set,
  List, [], ◌∷◌, ◌+◌, ◌≡◌, ◌≢◌, ◌<◌, refl, arith, get_elem?, replicate, ◌^◌,
}
use longcat_os.Base.Count.{hit}
use longcat_os.Base.Int.{pos}
use longcat_os.Base.Outcome.{M, ret, ◌>>=◌, ◌>>◌, return, get, put, kassert, deref}
use longcat_os.Kernel.{
  Kernel, Handle, Proc, fd_free, pid_invalid, pid_min, proc_max, join, slot, proc_at,
}
use longcat_os.Files.{vfs_close, fh_init, fh_close}
use longcat_os.Files.Refs.{refs, Sized, Entry, Inv}
use longcat_os.Files.Dup.{Few}
use longcat_os.Procs.{std_fds, proc_create}
use longcat_os.Procs.Forked.{count-std, Console}

-- The cleanups of `ft_init`, each of which runs into the next one
abbrev pub cleanup6 : ℕ → M Kernel (Option (List (Option Handle)))
cleanup6 dev_0 = do vfs_close dev_0; return none

abbrev pub cleanup5 : Handle → ℕ → M Kernel (Option (List (Option Handle)))
cleanup5 fh_0 dev_0 = do _h ← fh_close fh_0; cleanup6 dev_0

abbrev pub cleanup3 : Handle → ℕ → Handle → ℕ → M Kernel (Option (List (Option Handle)))
cleanup3 fh_1 dev_1 fh_0 dev_0 = do _h ← fh_close fh_1; vfs_close dev_1; cleanup5 fh_0 dev_0

-- Opening the console: where vfs_open fails, where fh_init does, and the rest
abbrev pub open_console :
    {A : Type 0}
    → Option ℕ
    → ℕ
    → Bool
    → M Kernel A
    → (ℕ → M Kernel A)
    → (ℕ → Handle → M Kernel A)
    → M Kernel A
open_console none flags mem not_open no_handle next = not_open
open_console (some dev) flags mem not_open no_handle next = elim (fh_init dev flags mem) [
  | none ↦ no_handle dev
  | some fh ↦ next dev fh
]

-- `ft_init`: standard input for reading, the two others for writing. The answers are those of vfs_open
-- (none where it fails), of the allocations of fh_init and of the other allocations.
unfoldable pub ft_init :
    Bool
    → Option ℕ × Bool
    → Option ℕ × Bool
    → Option ℕ × Bool
    → Bool
    → M Kernel (Option (List (Option Handle)))
ft_init false con_0 con_1 con_2 lock_mem = return none
ft_init true con_0 con_1 con_2 lock_mem =
    open_console con_0.0 0 con_0.1 (return none) cleanup6 (λ dev_0 fh_0.
      open_console con_1.0 1 con_1.1 (cleanup5 fh_0 dev_0)
        (λ dev_1. do vfs_close dev_1; cleanup5 fh_0 dev_0)
        (λ dev_1 fh_1.
          open_console con_2.0 1 con_2.1 (cleanup3 fh_1 dev_1 fh_0 dev_0)
            (λ dev_2. do vfs_close dev_2; cleanup3 fh_1 dev_1 fh_0 dev_0)
            (λ dev_2 fh_2.
              if lock_mem
              then return (some (some fh_0 ∷ some fh_1 ∷ some fh_2 ∷ replicate 252 none))
              else (do _h ← fh_close fh_2; vfs_close dev_2; cleanup3 fh_1 dev_1 fh_0 dev_0))))

-- `proc_bootstrap`
unfoldable pub proc_bootstrap : Option Proc → Bool → Bool → Bool → M Kernel Proc
proc_bootstrap raw name_mem lock_mem cv_mem = do
  created ← proc_create true raw name_mem lock_mem cv_mem
  p ← deref created
  return (record p { pid = 1 })

-- `pt_init` and `pt_bootstrap`: the table is empty but for the kernel's process in slot PID_MIN - 1;
-- the flag says whether the allocations succeed.
unfoldable pub pt_bootstrap : Bool → Proc → M Kernel (Unit {0})
pt_bootstrap mem curproc = do
  kassert mem
  k ← get
  put (record k {
    procs = set (replicate proc_max none) (pid_min - 1) (some curproc);
    most_recent_pid = pid_min - 1;
    coffin = pid_invalid;
  })

-- What `boot` of kern/main/main.c does to the tables, where memory suffices and the console opens
unfoldable pub boot : ℕ → ℕ → ℕ → Proc → M Kernel (Unit {0})
boot con_0 con_1 con_2 raw = do
  kproc ← proc_bootstrap (some raw) true true true
  pt_bootstrap true kproc
  o ← ft_init true (some con_0, true) (some con_1, true) (some con_2, true) true
  fhs ← deref o
  k ← get
  put (record k { fhs = fhs })

-- The handle of a console vnode, the kernel's process and the tables after `boot`
abbrev pub console : ℕ → ℕ → Handle
console file flags = record { file = file; off = pos 0; refcount = 1; open_flags = flags }

abbrev pub first_proc : Proc → Proc
first_proc raw = record raw { fds = std_fds; children = []; numthreads = 0; pid = 1 }

abbrev pub console_table : ℕ → ℕ → ℕ → List (Option Handle)
console_table con_0 con_1 con_2 =
    some (console con_0 0) ∷ some (console con_1 1) ∷ some (console con_2 1) ∷ replicate 252 none

abbrev pub proc_table : Proc → List (Option Proc)
proc_table raw = none ∷ some (first_proc raw) ∷ replicate 126 none

abbrev pub tables : ℕ → ℕ → ℕ → Proc → List ℕ → Kernel
tables con_0 con_1 con_2 raw closed = record {
  fhs = console_table con_0 con_1 con_2;
  procs = proc_table raw;
  most_recent_pid = 1;
  coffin = pid_invalid;
  closed = closed;
}

refs-replicate : (i n : ℕ) → refs i (replicate n none) ≡ 0
refs-replicate i zero = refl
refs-replicate i (suc n) = refs-replicate i n

Sized-replicate : (n : ℕ) → Sized (replicate n none)
Sized-replicate zero = tt
Sized-replicate (suc n) = Sized-replicate n

slot-replicate :
    {A : Type 0} (n i : ℕ) → join (get_elem? (replicate {A = Option A} n none) i) ≡ none
slot-replicate zero i = refl
slot-replicate (suc n) zero = refl
slot-replicate (suc n) (suc i) = slot-replicate n i

-- How often the kernel's process names a slot.
refs-boot :
    (i : ℕ) (raw : Proc) → i ≢ fd_free → refs i (proc_table raw) ≡ hit i 0 + hit i 1 + hit i 2
refs-boot i raw h = omega (arith, count-std i h, refs-replicate i 126)

boot-Entry :
    (con_0 con_1 con_2 : ℕ) (raw : Proc) (c : List ℕ) (i : ℕ)
    → i ≢ fd_free
    → Entry (refs i (proc_table raw) + 0) (slot (tables con_0 con_1 con_2 raw c) i)
boot-Entry con_0 con_1 con_2 raw c zero h = ground (arith, refs-boot 0 raw h)
boot-Entry con_0 con_1 con_2 raw c (suc zero) h = ground (arith, refs-boot 1 raw h)
boot-Entry con_0 con_1 con_2 raw c (suc (suc zero)) h = ground (arith, refs-boot 2 raw h)
boot-Entry con_0 con_1 con_2 raw c (suc (suc (suc i))) h =
    subst (Entry (refs (suc (suc (suc i))) (proc_table raw) + 0)) (sym (slot-replicate 252 i))
      (ground (arith, refs-boot (suc (suc (suc i))) raw h))

pub tables-Inv :
    (con_0 con_1 con_2 : ℕ) (raw : Proc) (c : List ℕ)
    → Inv (λ i. 0) (tables con_0 con_1 con_2 raw c)
tables-Inv con_0 con_1 con_2 raw c = record {
  sized = record { fhs_size = refl; procs_size = refl; fds_size = (refl, Sized-replicate 126) };
  balanced = boot-Entry con_0 con_1 con_2 raw c;
}

no_handle :
    (con_0 con_1 con_2 : ℕ) (raw : Proc) (c : List ℕ) (i : ℕ)
    → 3 ≤ i
    → slot (tables con_0 con_1 con_2 raw c) i ≡ none
no_handle con_0 con_1 con_2 raw c zero l = absurd (omega arith)
no_handle con_0 con_1 con_2 raw c (suc zero) l = absurd (omega arith)
no_handle con_0 con_1 con_2 raw c (suc (suc zero)) l = absurd (omega arith)
no_handle con_0 con_1 con_2 raw c (suc (suc (suc i))) l = slot-replicate 252 i

no_proc :
    (con_0 con_1 con_2 : ℕ) (raw : Proc) (c : List ℕ) (i : ℕ)
    → i ≢ 1
    → proc_at (tables con_0 con_1 con_2 raw c) i ≡ none
no_proc con_0 con_1 con_2 raw c zero n = refl
no_proc con_0 con_1 con_2 raw c (suc zero) n = absurd (n refl)
no_proc con_0 con_1 con_2 raw c (suc (suc i)) n = slot-replicate 126 i

-- proc_bootstrap, pt_bootstrap and ft_init, where memory suffices and the console opens, end without
-- a panic in tables of their full size, where every console handle counts the one descriptor of the
-- kernel that names it and no other slot of either table is in use.
pub boot-Inv :
    (k : Kernel) (con_0 con_1 con_2 : ℕ) (raw : Proc)
    → (t : Kernel) × (boot con_0 con_1 con_2 raw k ≡ ret tt t)
      × Inv (λ i. 0) t
      × ((i : ℕ) → 3 ≤ i → slot t i ≡ none)
      × ((i : ℕ) → i ≢ 1 → proc_at t i ≡ none)
unfolding boot proc_bootstrap pt_bootstrap ft_init proc_create fh_init
boot-Inv k con_0 con_1 con_2 raw = (
  tables con_0 con_1 con_2 raw k.closed,
  refl,
  tables-Inv con_0 con_1 con_2 raw k.closed,
  no_handle con_0 con_1 con_2 raw k.closed,
  no_proc con_0 con_1 con_2 raw k.closed,
)

pub boot-Console :
    (con_0 con_1 con_2 : ℕ) (raw : Proc) (c : List ℕ) → Console (tables con_0 con_1 con_2 raw c)
boot-Console con_0 con_1 con_2 raw c = record {
  stdin = console con_0 0;
  stdout = console con_1 1;
  stderr = console con_2 1;
  at_0 = refl;
  at_1 = refl;
  at_2 = refl;
}

pub no_extra-Few : (n : ℕ) → n < 2 ^ 31 → Few (λ i. 0 + n)
no_extra-Few n h i ni = omega arith
