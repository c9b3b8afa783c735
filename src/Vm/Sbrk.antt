-- ===== src/Vm/Sbrk.antt =====
-- kern/syscall/sbrk.c for the address space `a`; `mem` is the flag of the allocations of page tables.
mod Leave
mod Resident
pub mod Shrink
pub mod Table
pub mod Whole
pub mod Add
pub mod Grow
use longcat_os.Base.{
  ℕ, zero, suc, Option, none, some, Bool, true, false, not, ◌&&◌, ◌||◌, ◌+◌, ◌-◌, ◌*◌, ◌/◌, ◌%◌,
  ◌^◌, ◌==◌, ltb, leb, if◌then◌else◌,
}
use longcat_os.Base.Int.{ℤ, pos, negsuc}
use longcat_os.Base.Outcome.{
  M, ◌>>=◌, ◌>>◌, return, throw, get, put, check, kassert, enomem, einval,
}
use longcat_os.Base.Store.{store}
use longcat_os.Vm.{
  Vm, CmEntry, Pte, page_size, pd_size, stack_min, vaddr_to_pt, entry, set_entry, the_pte, set_pte,
}
use longcat_os.Vm.Swap.{swap_destroy_block}
use longcat_os.Vm.Tlb.{vm_tlbshootdown}
use longcat_os.Vm.Fault.{has_table, new_table, pte_acquire, pte_release}

-- The page table for the address
unfoldable pub ensure_table : Bool → ℕ → ℕ → M Vm (Unit {0})
ensure_table mem a v = do
  s ← get
  kassert (ltb (vaddr_to_pt v) pd_size)
  if has_table ((s.spaces a).pd (vaddr_to_pt v))
      then return tt
      else (do check mem enomem; put (new_table s a (vaddr_to_pt v)))

-- An entry of the heap before its first use
abbrev pub heap_pte : Pte
heap_pte = record { ppn = 0; valid = false; writeable = true; present = false; zeroed = true }

unfoldable pub grow_page : Bool → ℕ → ℕ → M Vm (Unit {0})
grow_page mem a v = do
  ensure_table mem a v
  pte ← the_pte a v
  pte_acquire a pte >>= λ x. do set_pte a v heap_pte; pte_release none

-- A frame loses its page, and the page its swap block.
unfoldable pub drop_frame : ℕ → M Vm (Unit {0})
drop_frame ppn = do
  c ← entry ppn
  kassert (not c.kpage)
  if c.tlb then vm_tlbshootdown (some c.vaddr) else return tt
  if c.swap_location == 0 then return tt else swap_destroy_block c.swap_location
  c ← entry ppn
  set_entry ppn
      (record c { owner = none; vaddr = 0; swap_location = 0; dirty = false; kernel = false })

abbrev pub gone : Pte → Pte
gone p = record p { ppn = 0; valid = false; present = false }

abbrev pub drop_page : Pte → M Vm (Option ℕ)
drop_page p =
    if p.present
    then (do drop_frame p.ppn; return (some p.ppn))
    else (do if p.zeroed then return tt else swap_destroy_block p.ppn; return none)

abbrev pub leave : ℕ → ℕ → Pte → Option ℕ → M Vm (Unit {0})
leave a v pte ppn = do set_pte a v (gone pte); pte_release ppn

unfoldable pub shrink_page : ℕ → ℕ → M Vm (Unit {0})
shrink_page a v = do
  s ← get
  kassert (ltb (vaddr_to_pt v) pd_size)
  if has_table ((s.spaces a).pd (vaddr_to_pt v))
      then (do
        pte ← the_pte a v
        pte_acquire a pte >>= λ x. do ppn ← drop_page pte; leave a v pte ppn)
      else return tt

-- The two loops, from the end of the heap `v` on
unfoldable pub grow_pages : Bool → ℕ → ℕ → ℕ → M Vm (Unit {0})
grow_pages mem a zero v = return tt
grow_pages mem a (suc rounds) v = do
  grow_page mem a v
  grow_pages mem a rounds ((v + page_size) % 2 ^ 32)

unfoldable pub shrink_pages : ℕ → ℕ → ℕ → M Vm (Unit {0})
shrink_pages a zero v = return tt
shrink_pages a (suc rounds) v = do
  let below = (v + 2 ^ 32 - page_size) % 2 ^ 32
  shrink_page a below
  shrink_pages a rounds below

abbrev pub set_heap : ℕ → ℕ → M Vm (Unit {0})
set_heap a size = do
  s ← get
  put (record s { spaces = store s.spaces a (record (s.spaces a) { heap_size = size % 2 ^ 32 }) })

abbrev pub heap_end : Vm → ℕ → ℕ
heap_end s a = ((s.spaces a).heap_start + (s.spaces a).heap_size) % 2 ^ 32

-- Growing by `n` bytes and shrinking by `n` bytes, more than none. `(int)as_heap_size + amount` wraps
-- to 32 bits, of which the highest is the sign.
abbrev pub sbrk_grow : Bool → ℕ → ℕ → M Vm ℕ
sbrk_grow mem a n = do
  s ← get
  check (not (ltb stack_min ((heap_end s a + n) % 2 ^ 32))) enomem
  grow_pages mem a (n / page_size) (heap_end s a)
  set_heap a ((s.spaces a).heap_size + n)
  return (heap_end s a)

abbrev pub sbrk_shrink : ℕ → ℕ → M Vm ℕ
sbrk_shrink a n = do
  s ← get
  check (not (leb (2 ^ 31) (((s.spaces a).heap_size + 2 ^ 32 - n) % 2 ^ 32))) einval
  shrink_pages a (n / page_size) (heap_end s a)
  set_heap a ((s.spaces a).heap_size + 2 ^ 32 - n)
  return (heap_end s a)

unfoldable pub sys_sbrk : Bool → ℕ → ℤ → M Vm ℕ
sys_sbrk mem a (pos zero) = do
  s ← get
  kassert ((s.spaces a).heap_start % page_size == 0)
  return (heap_end s a)
sys_sbrk mem a (pos (suc n)) = do
  check (suc n % page_size == 0) einval
  s ← get
  kassert ((s.spaces a).heap_start % page_size == 0)
  sbrk_grow mem a (suc n)
sys_sbrk mem a (negsuc n) = do
  check (suc n % page_size == 0) einval
  s ← get
  kassert ((s.spaces a).heap_start % page_size == 0)
  sbrk_shrink a (suc n)
