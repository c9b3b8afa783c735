-- ===== src/Vm/Kmem.antt =====
-- alloc_kpages and free_kpages of kern/arch/mips/vm/vm.c.
pub mod Claim
pub mod Block
pub mod Find
pub mod Whole
pub mod Free
use longcat_os.Base.{
  ℕ, zero, suc, Option, none, some, Bool, true, false, not, ◌&&◌, ◌+◌, ◌-◌, ◌*◌, ◌/◌, ◌%◌, ◌^◌,
  ◌==◌, ltb, leb, if◌then◌else◌,
}
use longcat_os.Base.Outcome.{M, panic, ◌>>=◌, ◌>>◌, return, get, put, kassert}
use longcat_os.Base.Store.{store}
use longcat_os.Vm.{
  Vm, CmEntry, page_size, kernel_vaddr_start, kernel_vaddr_end, entry, set_entry, set_busy,
}
use longcat_os.Vm.Boot.{ram_pages, min_user_pages, kvaddr, cm_index}
use longcat_os.Vm.Paging.{is_free, is_null, page_get}

abbrev pub num_tries : ℕ
num_tries = 10

-- The search for a block of `npages` free frames, with the number found in a row and the first of
-- them
unfoldable pub find_block : ℕ → ℕ → ℕ → ℕ → Option ℕ → (ℕ → CmEntry) → ℕ × Option ℕ
find_block npages zero cur_block pages_found start entries = (pages_found, start)
find_block npages (suc rounds) cur_block pages_found start entries =
    let first = if pages_found == 0 then some cur_block else start in
    elim (entries cur_block).exists [
      | false ↦ (pages_found, start)
      | true ↦ elim (is_free (entries cur_block)) [
        | false ↦ find_block npages rounds (cur_block + 1) 0 none entries
        | true ↦ elim (pages_found + 1 == npages) [
          | true ↦ (pages_found + 1, first)
          | false ↦ find_block npages rounds (cur_block + 1) (pages_found + 1) first entries
        ]
      ]
    ]

-- Evicting pages to try again
unfoldable pub evict_pages : Bool → ℕ → M Vm (Unit {0})
evict_pages io zero = return tt
evict_pages io (suc rounds) = do
  new_ppn ← page_get io
  set_busy new_ppn false
  evict_pages io rounds

-- The tries, each with one search
unfoldable pub find_pages : ℕ → ℕ → Bool → M Vm (Option ℕ)
find_pages zero npages io = return none
find_pages (suc tries) npages io =
    let rest = find_pages tries npages io in
    do
      s ← get
      let block = find_block npages ram_pages 0 0 none s.entries
      if block.0 == npages
          then return block.1
          else if npages == 1
          then (do i ← page_get io; return (some i))
          else (do evict_pages io ((npages + 2 ^ 32 - block.0) % 2 ^ 32); rest)

abbrev pub kernel_entry : ℕ → Bool → CmEntry → CmEntry
kernel_entry i first c = record {
  owner = none;
  vaddr = kvaddr i;
  swap_location = 0;
  dirty = false;
  tlb = false;
  busy = false;
  kernel = not first;
  kpage = true;
  exists = c.exists;
}

-- The loop that gives frames to the kernel
unfoldable pub claim : ℕ → ℕ → Bool → M Vm (Unit {0})
claim zero i first = return tt
claim (suc rounds) i first = do
  c ← entry i
  set_entry i (kernel_entry i first c)
  claim rounds (i + 1) false

-- `as_zero_region` on frames
unfoldable pub zero_frames : ℕ → ℕ → M Vm (Unit {0})
zero_frames zero i = return tt
zero_frames (suc npages) i = do
  s ← get
  put (record s { ram = store s.ram i 0 })
  zero_frames npages (i + 1)

abbrev pub count_kpages : ℕ → M Vm (Unit {0})
count_kpages npages = do s ← get; put (record s { num_kpages = (s.num_kpages + npages) % 2 ^ 32 })

abbrev pub give_block : ℕ → Option ℕ → M Vm ℕ
give_block npages none = return 0
give_block npages (some start) = do
  claim npages start true
  zero_frames npages start
  count_kpages npages
  return (kvaddr start)

-- The difference is unsigned and wraps.
unfoldable pub alloc_kpages : Bool → ℕ → M Vm ℕ
alloc_kpages io npages = do
  s ← get
  if ltb ((s.num_pages + 2 ^ 32 - (s.num_kpages + npages) % 2 ^ 32) % 2 ^ 32) min_user_pages
      then return 0
      else (find_pages num_tries npages io >>= λ start. give_block npages start)

abbrev pub free_one : ℕ → CmEntry → M Vm (Unit {0})
free_one ppn c = do
  s ← get
  put (record s {
    entries = store s.entries ppn c;
    num_kpages = (s.num_kpages + 2 ^ 32 - 1) % 2 ^ 32;
  })

-- The rest of a block; a block that runs to the end of the array reads behind it.
unfoldable pub free_rest : ℕ → ℕ → M Vm (Unit {0})
free_rest zero ppn = λ s. panic
free_rest (suc rounds) ppn =
    let rest = free_rest rounds (ppn + 1) in
    do
      c ← entry ppn
      if c.kernel && c.kpage
          then (do
            kassert (not c.busy)
            kassert (is_null c.owner)
            free_one ppn (record c { kpage = false; kernel = false })
            rest)
          else return tt

unfoldable pub free_kpages : ℕ → M Vm (Unit {0})
free_kpages addr = do
  kassert (leb kernel_vaddr_start addr && ltb addr kernel_vaddr_end)
  let ppn = cm_index (addr - kernel_vaddr_start)
  c ← entry ppn
  kassert (not c.busy)
  kassert c.kpage
  kassert (not c.kernel)
  kassert (is_null c.owner)
  free_one ppn (record c { kpage = false })
  free_rest (ram_pages - (ppn + 1)) (ppn + 1)
