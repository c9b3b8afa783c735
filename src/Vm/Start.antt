-- ===== src/Vm/Start.antt =====
-- vm_bootstrap of kern/arch/mips/vm/vm.c and swap_init of kern/vm/swap.c, which allocate memory from
-- the coremap. `io` says whether the device of the swap area serves transfers.
use longcat_os.Base.{ℕ, List, [], ◌∷◌, Bool, true, false, ◌&&◌, ◌/◌, ◌==◌, if◌then◌else◌}
use longcat_os.Base.Outcome.{M, ◌>>=◌, ◌>>◌, return, get, put, kassert, deref}
use longcat_os.Bitmap.{bitmap_create, bitmap_mark}
use longcat_os.Vm.{Vm, page_size}
use longcat_os.Vm.Boot.{fill_coremap}
use longcat_os.Vm.Swap.{on_swap}
use longcat_os.Vm.Kmem.{alloc_kpages}

-- What kmalloc asks of alloc_kpages: nothing, where it has a free block of the size, or so many pages
-- by each of its calls; it gives NULL when one is refused.
unfoldable pub kmalloc : Bool → List ℕ → M Vm Bool
kmalloc io [] = return true
kmalloc io (n ∷ calls) =
    let rest = kmalloc io calls in
    do addr ← alloc_kpages io n; if addr == 0 then return false else rest

-- The two lists are the calls for the two wait channels.
unfoldable pub vm_bootstrap : ℕ → ℕ → Bool → List ℕ → List ℕ → M Vm (Unit {0})
vm_bootstrap first_free_index last_existing_index io wchan_calls tlb_wchan_calls = do
  fill_coremap first_free_index last_existing_index
  wchan ← kmalloc io wchan_calls
  tlb_wchan ← kmalloc io tlb_wchan_calls
  kassert (wchan && tlb_wchan)

-- `st_size` is the size of the device in bytes; the lists are the calls for the tracker and what
-- vfs_swapon allocates, for the bitmap and for its bytes. Block 0 stays in use for good.
unfoldable pub swap_init : ℕ → Bool → List ℕ → List ℕ → List ℕ → M Vm (Unit {0})
swap_init st_size io calls map_calls v_calls = do
  mem ← kmalloc io calls
  kassert mem
  map_mem ← kmalloc io map_calls
  v_mem ← if map_mem then kmalloc io v_calls else return false
  o ← bitmap_create (st_size / page_size) map_mem v_mem
  b ← deref o
  s ← get
  put (record s { swap = b })
  on_swap (bitmap_mark 0)
  s ← get
  put (record s { can_swap = true })
