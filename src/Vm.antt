-- ===== src/Vm.antt =====
-- The state of the virtual memory system: kern/include/coremap.h, addrspace.h, pagetable.h, swap.h and
-- kern/arch/mips/include/vm.h, tlb.h, for one processor on which one call runs at a time. An address
-- space is named by its address. The bytes of a page are a number, 0 for a page of zeros. A wait
-- that no other thread would end is a panic.
pub mod Swap
pub mod Tlb
pub mod Paging
pub mod Lookup
pub mod Coherence
pub mod Like
pub mod Blocks
pub mod Unmap
pub mod Map
pub mod Sound
pub mod Flush
pub mod Shoot
pub mod Transfer
mod Wrote
pub mod WriteOut
pub mod Search
pub mod Evict
pub mod Get
pub mod Swapin
pub mod Fault
pub mod Load
mod Slot
pub mod Enter
pub mod Handle
pub mod Whole
pub mod Protect
pub mod Drop
pub mod Sbrk
pub mod Kmem
pub mod Refuse
pub mod Boot
pub mod Start
pub mod Layout
pub mod Filled
pub mod Booted
use longcat_os.Base.{
  ℕ, Option, none, some, Bool, true, false, not, ◌&&◌, ◌+◌, ◌-◌, ◌*◌, ◌/◌, ◌%◌, ◌^◌, ◌==◌, ltb,
  if◌then◌else◌,
}
use longcat_os.Base.Outcome.{M, Outcome, ret, fail, panic, ◌>>=◌, ◌>>◌, return, get, put, deref}
use longcat_os.Base.Store.{store}
use longcat_os.Bitmap.{Bitmap}

abbrev pub page_size : ℕ
page_size = 4096

abbrev pub pd_size : ℕ
pd_size = 512

abbrev pub stack_min : ℕ
stack_min = 0x40000000

abbrev pub stack_max : ℕ
stack_max = 0x7fffffff

abbrev pub kernel_vaddr_start : ℕ
kernel_vaddr_start = 0x80000000

abbrev pub kernel_vaddr_end : ℕ
kernel_vaddr_end = 0xa0000000

abbrev pub num_tlb : ℕ
num_tlb = 64

-- `VADDR_TO_PT` and `VADDR_TO_PTE`
abbrev pub vaddr_to_pt : ℕ → ℕ
vaddr_to_pt v = v / 2 ^ 22

abbrev pub vaddr_to_pte : ℕ → ℕ
vaddr_to_pte v = (v / 2 ^ 12) % 2 ^ 10

-- `PAGE_ALIGN`
abbrev pub page_align : ℕ → ℕ
page_align v = v - v % page_size

-- `struct pt_entry`; `ppn` has 20 bits.
pub record Pte : Type 0 where
  pub ppn : ℕ
  pub valid : Bool
  pub writeable : Bool
  pub present : Bool
  pub zeroed : Bool

-- `struct cm_entry`
pub record CmEntry : Type 0 where
  pub owner : Option ℕ
  pub vaddr : ℕ
  pub swap_location : ℕ
  pub dirty : Bool
  pub tlb : Bool
  pub busy : Bool
  pub kernel : Bool
  pub kpage : Bool
  pub exists : Bool

-- An entry of the hardware's translation buffer: the page's address, the number of the frame and
-- the two flags of the low word
pub record TlbEntry : Type 0 where
  pub hi : ℕ
  pub ppage : ℕ
  pub valid : Bool
  pub dirty : Bool

-- `struct addrspace`
pub record Space : Type 0 where
  pub pd : ℕ → Option (ℕ → Pte)
  pub heap_size : ℕ
  pub heap_start : ℕ

-- `k_coremap`, the address spaces, the swap device with its bitmap, and the memory itself.
pub record Vm : Type 0 where
  pub entries : ℕ → CmEntry
  pub num_pages : ℕ
  pub num_kpages : ℕ
  pub num_dirty : ℕ
  pub clock_head : ℕ
  pub spaces : ℕ → Space
  pub swap : Bitmap
  pub can_swap : Bool
  pub tlbs : ℕ → TlbEntry
  pub ram : ℕ → ℕ
  pub disk : ℕ → ℕ

abbrev pub entry : ℕ → M Vm CmEntry
entry i = do s ← get; return (s.entries i)

abbrev pub with_entry : Vm → ℕ → CmEntry → Vm
with_entry s i c = record s { entries = store s.entries i c }

abbrev pub set_entry : ℕ → CmEntry → M Vm (Unit {0})
set_entry i c = do s ← get; put (with_entry s i c)

abbrev pub set_busy : ℕ → Bool → M Vm (Unit {0})
set_busy i b = do c ← entry i; set_entry i (record c { busy = b })

-- Reading behind `as_pd`, or through an entry that is NULL, gives nothing.
unfoldable pub dir_read : (ℕ → Option (ℕ → Pte)) → ℕ → ℕ → Option Pte
dir_read pd i j = if ltb i pd_size then elim (pd i) [ none ↦ none | some t ↦ some (t j) ] else none

unfoldable pub dir_write : (ℕ → Option (ℕ → Pte)) → ℕ → ℕ → Pte → ℕ → Option (ℕ → Pte)
dir_write pd i j p = elim (pd i) [ none ↦ pd | some t ↦ store pd i (some (store t j p)) ]

abbrev pub pte_in : (ℕ → Space) → ℕ → ℕ → Option Pte
pte_in spaces a v = dir_read (spaces a).pd (vaddr_to_pt v) (vaddr_to_pte v)

abbrev pub pte_at : Vm → ℕ → ℕ → Option Pte
pte_at s a v = pte_in s.spaces a v

abbrev pub with_pd : (ℕ → Space) → ℕ → (ℕ → Option (ℕ → Pte)) → ℕ → Space
with_pd spaces a pd = store spaces a (record (spaces a) { pd = pd })

abbrev pub pte_to : (ℕ → Space) → ℕ → ℕ → Pte → ℕ → Space
pte_to spaces a v p = with_pd spaces a (dir_write (spaces a).pd (vaddr_to_pt v) (vaddr_to_pte v) p)

abbrev pub with_pte : Vm → ℕ → ℕ → Pte → Vm
with_pte s a v p = record s { spaces = pte_to s.spaces a v p }

abbrev pub the_pte : ℕ → ℕ → M Vm Pte
the_pte a v = do s ← get; deref (pte_at s a v)

abbrev pub set_pte : ℕ → ℕ → Pte → M Vm (Unit {0})
set_pte a v p = do s ← get; put (with_pte s a v p)
