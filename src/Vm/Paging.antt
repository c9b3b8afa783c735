-- ===== src/Vm/Paging.antt =====
-- kern/vm/paging.c, with the clock algorithm that it is built with. `io` says whether the swap device
-- serves every transfer of the call. A full swap area makes the kernel panic, so that no error of
-- page_write_out or page_get ever comes back.
use longcat_os.Base.{
  ℕ, zero, suc, Option, none, some, Bool, true, false, not, ◌&&◌, ◌||◌, ◌+◌, ◌-◌, ◌%◌, ◌^◌, ◌==◌,
  ltb, leb, if◌then◌else◌,
}
use longcat_os.Base.Outcome.{M, panic, ◌>>=◌, ◌>>◌, return, get, put, kassert, deref}
use longcat_os.Base.Store.{store}
use longcat_os.Vm.{
  Vm, CmEntry, stack_min, stack_max, kernel_vaddr_start, kernel_vaddr_end, entry, set_entry,
  set_busy, the_pte, set_pte,
}
use longcat_os.Vm.Swap.{swap_find_free, swap_read, swap_write}
use longcat_os.Vm.Tlb.{shoot_page}

-- The swap block of a frame, new if it has none
unfoldable pub write_location : ℕ → M Vm ℕ
write_location ppn = do
  c ← entry ppn
  if c.swap_location == 0
      then (do
        a ← deref c.owner
        pte ← the_pte a c.vaddr
        loc ← swap_find_free
        kassert (not (loc == 0))
        kassert (not (c.vaddr == 0))
        set_pte a c.vaddr (record pte { zeroed = false })
        kassert (pte.ppn == ppn)
        return loc)
      else return c.swap_location

-- A frame that was written out is clean.
abbrev pub mark_clean : ℕ → ℕ → M Vm (Unit {0})
mark_clean ppn swap_location = do
  s ← get
  let c = s.entries ppn
  put (record s {
    num_dirty = if c.dirty then (s.num_dirty + 2 ^ 32 - 1) % 2 ^ 32 else s.num_dirty;
    entries = store s.entries ppn (record c { dirty = false; swap_location = swap_location });
  })

unfoldable pub page_write_out : Bool → ℕ → M Vm (Unit {0})
page_write_out io ppn = do
  kassert (ltb 0 ppn)
  c ← entry ppn
  kassert (not c.kpage)
  kassert c.busy
  swap_location ← write_location ppn
  swap_write ppn swap_location io
  mark_clean ppn swap_location
  shoot_page ppn

abbrev pub is_null : Option ℕ → Bool
is_null none = true
is_null (some a) = false

-- No address space owns the frame, it is no kernel page and nobody works on it.
abbrev pub is_free : CmEntry → Bool
is_free c = is_null c.owner && not c.kpage && not c.busy

-- The search for a free frame
unfoldable pub find_free : ℕ → ℕ → M Vm (Option ℕ)
find_free zero i = return none
find_free (suc rounds) i =
    let rest = find_free rounds (i + 1) in
    do c ← entry i; if is_free c then (do set_busy i true; return (some i)) else rest

-- `cm_clock_head++`, with its wrap
abbrev pub advance_clock : M Vm (Unit {0})
advance_clock = do
  s ← get
  put (record s { clock_head = if leb s.num_pages (s.clock_head + 1) then 0 else s.clock_head + 1 })

-- The search for a clean frame
unfoldable pub find_clean : ℕ → M Vm (Option ℕ)
find_clean zero = return none
find_clean (suc rounds) =
    let rest = find_clean rounds in
    do
      s ← get
      c ← entry s.clock_head
      if is_free c && not (c.swap_location == 0)
          then return (some s.clock_head)
          else (do advance_clock; rest)

-- The loop that takes the first frame that may be evicted; it runs for ever where there is none, as
-- the fuel then shows.
unfoldable pub choose_victim : ℕ → M Vm ℕ
choose_victim zero = λ s. panic
choose_victim (suc fuel) =
    let rest = choose_victim fuel in
    do
      s ← get
      let clean_ppn = s.clock_head
      advance_clock
      c ← entry clean_ppn
      if c.kpage || c.busy then rest else return clean_ppn

-- The last part of `page_get`: the frame leaves its page table.
unfoldable pub unmap_page : ℕ → M Vm (Unit {0})
unmap_page ppn = do
  kassert (ltb 0 ppn)
  c ← entry ppn
  kassert (not (c.vaddr == 0))
  a ← deref c.owner
  shoot_page ppn
  pte ← the_pte a c.vaddr
  kassert (pte.ppn == ppn)
  c ← entry ppn
  kassert (not (c.swap_location == 0))
  set_pte a c.vaddr (record pte { ppn = c.swap_location % 2 ^ 20; present = false })
  set_entry ppn (record {
    owner = none;
    vaddr = 0;
    swap_location = 0;
    dirty = false;
    tlb = false;
    busy = c.busy;
    kernel = false;
    kpage = false;
    exists = true;
  })

-- `page_get` where no frame is free
unfoldable pub page_evict : Bool → M Vm ℕ
page_evict io = do
  s ← get
  clean ← find_clean s.num_pages
  ppn ← elim clean [
    | some i ↦ do set_busy i true; return i
    | none ↦ do i ← choose_victim s.num_pages; set_busy i true; page_write_out io i; return i
  ]
  unmap_page ppn
  return ppn

unfoldable pub page_get : Bool → M Vm ℕ
page_get io = do
  s ← get
  free ← find_free s.num_pages 0
  elim free [ some i ↦ return i | none ↦ page_evict io ]

-- The bytes of the page come from the swap area, or are zero.
unfoldable pub fill_frame : Bool → ℕ → ℕ → M Vm (Unit {0})
fill_frame io ppn swap_location =
    if swap_location == 0
    then (do s ← get; put (record s { ram = store s.ram ppn 0 }))
    else swap_read ppn swap_location io

unfoldable pub page_swapin : Bool → ℕ → ℕ → M Vm (Unit {0})
page_swapin io cur vaddress = do
  ppn ← page_get io
  kassert (not (vaddress == 0))
  s ← get
  kassert (ltb ppn s.num_pages)
  c ← entry ppn
  kassert (is_null c.owner && not c.kpage && c.busy)
  pte ← the_pte cur vaddress
  let swap_location = if pte.valid && not pte.zeroed then pte.ppn else 0
  fill_frame io ppn swap_location
  set_entry ppn (record {
    owner = some cur;
    vaddr = vaddress;
    swap_location = swap_location;
    dirty = false;
    tlb = false;
    busy = false;
    kernel = false;
    kpage = false;
    exists = true;
  })
  kassert (not pte.present)
  kassert (ltb 0 ppn)
  set_pte cur vaddress (record {
    ppn = ppn % 2 ^ 20;
    valid = true;
    writeable = true;
    present = true;
    zeroed = false;
  })

-- A fault is handled, or the process is killed by SIGSEGV.
pub data Fault : Type 0 where
  handled killed : Fault

abbrev pub in_stack : ℕ → Bool
in_stack v = leb stack_min v && ltb v stack_max

unfoldable pub page_fault : Bool → ℕ → ℕ → M Vm Fault
page_fault io cur faultaddress =
    if leb kernel_vaddr_start faultaddress && ltb faultaddress kernel_vaddr_end
    then return killed
    else (do
      pte ← the_pte cur faultaddress
      if not pte.zeroed && not (in_stack faultaddress) && pte.present then return killed else (do
        page_swapin io cur faultaddress
        pte ← the_pte cur faultaddress
        c ← entry pte.ppn
        kassert (faultaddress == c.vaddr)
        return handled))
