-- ===== src/Tests/HeapTests.antt =====
-- Memory for the kernel and for a heap, on the machine of VmTests
use longcat_os.Base.{
  ℕ, zero, suc, none, some, true, false, ◌≡◌, ◌+◌, ◌-◌, ◌≤◌, ◌<◌, refl, sym, ap, subst, arith,
  lt→ltb, inl, inr, ◌==◌,
}
use longcat_os.Base.Int.{pos, negsuc}
use longcat_os.Base.Outcome.{ret}
use longcat_os.Vm.{Vm, CmEntry, Pte, pte_at, dir_read, pd_size, vaddr_to_pt}
use longcat_os.Vm.Boot.{stolen, unused, ram_pages, kvaddr}
use longcat_os.Vm.Booted.{Blank-Sound}
use longcat_os.Vm.Coherence.{SameBytes, home, block_of}
use longcat_os.Vm.Sound.{Sound}
use longcat_os.Vm.Kmem.{find_block, kernel_entry, alloc_kpages, free_kpages}
use longcat_os.Vm.Kmem.Block.{KernelFrame}
use longcat_os.Vm.Kmem.Find.{FreeBlock}
use longcat_os.Vm.Kmem.Whole.{Allocated, alloc_kpages-Allocated, alloc_kpages_one}
use longcat_os.Vm.Kmem.Free.{Freed, free_kpages-Freed}
use longcat_os.Vm.Sbrk.{sys_sbrk, heap_end}
use longcat_os.Vm.Sbrk.Shrink.{HeapPage}
use longcat_os.Vm.Sbrk.Whole.{Shrunk, sys_sbrk-Shrunk}
use longcat_os.Vm.Sbrk.Add.{Gap}
use longcat_os.Vm.Sbrk.Grow.{HeapGrown, sys_sbrk-HeapGrown}
use longcat_os.Tests.VmTests.{
  machine, lazy, machine-Sound, machine-Idle, machine-Ready, machine_pte, disk_map-IsBitmap,
}

found_run : find_block 2 ram_pages 0 0 none machine.entries ≡ (2, some 1)
unfolding find_block
found_run = refl

alloc_kpages-Allocated_example :
    FreeBlock machine.entries 2 1
    × ((t : Vm) × (alloc_kpages true 2 machine ≡ ret (kvaddr 1) t) × Allocated 1 machine 2 1 t)
alloc_kpages-Allocated_example =
    alloc_kpages-Allocated 1 machine machine-Sound true 2 1 (omega arith) (omega arith) found_run

alloc_kpages_one_example :
    (i : ℕ) × (t : Vm) × (alloc_kpages true 1 machine ≡ ret (kvaddr i) t)
    × Sound 1 t
    × SameBytes machine t
    × KernelFrame (t.entries i) true
    × (t.ram i ≡ 0)
alloc_kpages_one_example = alloc_kpages_one 1 machine machine-Sound machine-Ready (omega arith)

-- Frame 1 is a block of the kernel.
abbrev kernel_frames : ℕ → CmEntry
kernel_frames zero = stolen 0
kernel_frames (suc zero) = kernel_entry 1 true (unused true)
kernel_frames (suc (suc i)) = unused true

abbrev loaded : Vm
loaded = record machine { entries = kernel_frames; num_kpages = 2 }

loaded_owner : (i : ℕ) → (kernel_frames i).owner ≡ none
loaded_owner zero = refl
loaded_owner (suc zero) = refl
loaded_owner (suc (suc i)) = refl

loaded_flag : (i : ℕ) → (kernel_frames i).tlb ≡ false
loaded_flag zero = refl
loaded_flag (suc zero) = refl
loaded_flag (suc (suc i)) = refl

loaded-home : (a v : ℕ) → home loaded a v ≡ 0
unfolding dir_read
loaded-home a v = ground arith

loaded-Sound : Sound 1 loaded
loaded-Sound = Blank-Sound 1 loaded (record {
  free = loaded_owner;
  flags = loaded_flag;
  absent = λ a v p e. ap (λ (x : Pte). x.present) (machine_pte a v p e);
  homeless = loaded-home;
  buffer = λ k l. refl;
  swap_ok = disk_map-IsBitmap;
  block_zero = refl;
  swap_small = omega arith;
  pages_small = omega arith;
  swaps = refl;
  frame_zero = refl;
})

loaded_block : (j : ℕ) → 1 ≤ j → j < 1 + 1 → KernelFrame (loaded.entries j) (j == 1)
loaded_block zero l m = absurd (omega arith)
loaded_block (suc zero) l m = record { kpage = refl; owner = refl; busy = refl; kernel = refl }
loaded_block (suc (suc j)) l m = absurd (omega arith)

free_kpages-Freed_example :
    (t : Vm) × (free_kpages (kvaddr 1) loaded ≡ ret tt t) × Freed 1 loaded 1 1 t
free_kpages-Freed_example =
    free_kpages-Freed 1 loaded loaded-Sound 1 1 (omega arith) (omega arith) (omega arith)
      loaded_block refl (omega arith) (omega arith)

machine_at : (x : ℕ) → x < 0x80000000 → pte_at machine 1 x ≡ some lazy
unfolding dir_read
machine_at x l = let y = lt→ltb (vaddr_to_pt x) pd_size (omega arith) in ground (arith, y)

heap_page : (x : ℕ) → heap_end machine 1 ≤ x + 4096 → x < heap_end machine 1 → HeapPage machine 1 x
heap_page x l m = record { pte = lazy; at = machine_at x (omega arith); state = inr (inl refl) }

sys_sbrk-Shrunk_example :
    (t : Vm) × (sys_sbrk true 1 (negsuc 4095) machine ≡ ret (heap_end machine 1) t)
    × ((t.spaces 1).heap_size + 4096 ≡ (machine.spaces 1).heap_size)
    × Shrunk 1 machine 1 (heap_end machine 1 - 4096) (heap_end machine 1) t
sys_sbrk-Shrunk_example =
    sys_sbrk-Shrunk 1 machine machine-Sound machine-Idle true 1 4095 refl refl refl (omega arith)
      (omega arith) heap_page

behind_heap : (x : ℕ) → heap_end machine 1 ≤ x → x < heap_end machine 1 + 4096 → Gap machine 1 x
behind_heap x l m p e =
    let q = machine_pte 1 x p e in
    subst (λ y. (y.present ≡ false) × (block_of y ≡ 0)) (sym q) (refl, refl)

sys_sbrk-HeapGrown_example :
    (t : Vm) × (sys_sbrk true 1 (pos 4096) machine ≡ ret (heap_end machine 1) t)
    × ((t.spaces 1).heap_size ≡ (machine.spaces 1).heap_size + 4096)
    × HeapGrown 1 machine 1 (heap_end machine 1) (heap_end machine 1 + 4096) t
sys_sbrk-HeapGrown_example =
    sys_sbrk-HeapGrown 1 machine machine-Sound machine-Idle 1 4095 refl refl refl (omega arith)
      behind_heap
