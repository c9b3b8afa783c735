-- ===== src/Vm/Boot.antt =====
-- kern/arch/mips/vm/ram.c, and the coremap that vm_bootstrap of kern/arch/mips/vm/vm.c makes.
-- `coremap_size` is the size of struct coremap.
use longcat_os.Base.{
  ℕ, zero, suc, none, Bool, true, false, not, ◌+◌, ◌-◌, ◌*◌, ◌/◌, ◌%◌, ◌==◌, ltb, if◌then◌else◌,
}
use longcat_os.Base.Outcome.{M, ◌>>=◌, ◌>>◌, return, get, put, kassert}
use longcat_os.Base.Store.{store}
use longcat_os.Vm.{Vm, CmEntry, page_size, kernel_vaddr_start}

abbrev pub ram_pages : ℕ
ram_pages = 4096

abbrev pub min_user_pages : ℕ
min_user_pages = 8

-- `firstpaddr` and `lastpaddr`
pub record Ram : Type 0 where
  pub firstpaddr : ℕ
  pub lastpaddr : ℕ

unfoldable pub ram_bootstrap : ℕ → ℕ → Ram
ram_bootstrap ramsize firstfree = record {
  lastpaddr = if ltb (512 * 1024 * 1024) ramsize then 512 * 1024 * 1024 else ramsize;
  firstpaddr = firstfree - kernel_vaddr_start;
}

unfoldable pub ram_stealmem : ℕ → M Ram ℕ
ram_stealmem npages = do
  r ← get
  let size = npages * page_size
  if ltb r.lastpaddr (r.firstpaddr + size)
      then return 0
      else (do put (record r { firstpaddr = r.firstpaddr + size }); return r.firstpaddr)

unfoldable pub ram_getsize : M Ram ℕ
ram_getsize = do r ← get; return r.lastpaddr

unfoldable pub ram_getfirstfree : M Ram ℕ
ram_getfirstfree = do r ← get; put (record { firstpaddr = 0; lastpaddr = 0 }); return r.firstpaddr

-- `CM_INDEX_TO_KVADDR` and `PADDR_TO_CM_INDEX`
abbrev pub kvaddr : ℕ → ℕ
kvaddr i = i * page_size + kernel_vaddr_start

abbrev pub cm_index : ℕ → ℕ
cm_index paddr = paddr / page_size

-- An entry for the kernel's memory at boot, and one for a page that is there or not
abbrev pub stolen : ℕ → CmEntry
stolen i = record {
  owner = none;
  vaddr = kvaddr i;
  swap_location = 0;
  dirty = false;
  tlb = false;
  busy = false;
  kernel = not (i == 0);
  kpage = true;
  exists = true;
}

abbrev pub unused : Bool → CmEntry
unused there = record {
  owner = none;
  vaddr = 0;
  swap_location = 0;
  dirty = false;
  tlb = false;
  busy = false;
  kernel = false;
  kpage = false;
  exists = there;
}

-- A loop that sets the entries from `i` on
unfoldable pub mark_entries : ℕ → ℕ → (ℕ → CmEntry) → (ℕ → CmEntry) → ℕ → CmEntry
mark_entries zero i f entries = entries
mark_entries (suc rounds) i f entries = mark_entries rounds (i + 1) f (store entries i (f i))

-- Pages that hold `size` bytes
abbrev pub pages_for : ℕ → ℕ
pages_for size = if size % page_size == 0 then size / page_size else size / page_size + 1

-- What vm_bootstrap learns from ram.c: the first free frame, and the number of frames
unfoldable pub steal_coremap : ℕ → M Ram (ℕ × ℕ)
steal_coremap coremap_size = do
  lastpaddr ← ram_getsize
  ram_stealmem (pages_for coremap_size) >>= λ paddr. do
    first_free ← ram_getfirstfree
    return (cm_index first_free, cm_index lastpaddr)

-- The coremap of vm_bootstrap: the three loops and the check that follows
unfoldable pub fill_coremap : ℕ → ℕ → M Vm (Unit {0})
fill_coremap first_free_index last_existing_index = do
  s ← get
  let kernel = mark_entries first_free_index 0 stolen s.entries
  let user =
      mark_entries (last_existing_index - first_free_index) first_free_index (λ i. unused true)
        kernel
  put (record s {
    can_swap = false;
    num_kpages = first_free_index;
    num_dirty = 0;
    clock_head = 0;
    entries =
        mark_entries (ram_pages - last_existing_index) last_existing_index (λ i. unused false) user;
    num_pages = last_existing_index;
  })
  kassert (not (ltb (last_existing_index - first_free_index) min_user_pages))
