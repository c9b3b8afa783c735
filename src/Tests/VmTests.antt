-- ===== src/Tests/VmTests.antt =====
-- A machine with sixteen frames, of which frame 0 is the kernel's, and one address space at 1.
use longcat_os.Base.{
  ℕ, zero, suc, none, some, true, false, [], ◌∷◌, ◌≡◌, ◌<◌, refl, sym, ap, subst, ◌∙◌, arith, ltb,
  inl, inr, Bool-cases,
}
use mathlib.Core.Option.{some-injective}
use longcat_os.Base.Outcome.{ret, fail, ◌>>=◌, ◌>>◌, efault}
use longcat_os.Bitmap.{Bitmap, bitmap_create, bitmap_mark, fill}
use longcat_os.Bitmap.View.{IsBitmap}
use longcat_os.Bitmap.Create.{bitmap_create-Fresh}
use longcat_os.Bitmap.Change.{bitmap_mark-Changed}
use longcat_os.Vm.{Vm, CmEntry, Pte, Space, pte_at, dir_read, page_align, pd_size, vaddr_to_pt}
use longcat_os.Vm.Boot.{stolen, unused}
use longcat_os.Vm.Start.{kmalloc, vm_bootstrap, swap_init}
use longcat_os.Vm.Booted.{empty-TlbOk, Blank-Sound, boot-Sound}
use longcat_os.Vm.Coherence.{home, SameBytes}
use longcat_os.Vm.Get.{Ready, page_get-Got}
use longcat_os.Vm.Evict.{Got}
use longcat_os.Vm.Fault.{fault_write, vm_fault}
use longcat_os.Vm.Handle.{Handled}
use longcat_os.Vm.Paging.{handled, page_get, page_swapin, choose_victim}
use longcat_os.Vm.Search.{Victim, choose_victim-Victim, at_head}
use longcat_os.Vm.Sound.{Sound}
use longcat_os.Vm.Swapin.{Idle, Swapped, page_swapin-Swapped}
use longcat_os.Vm.Tlb.{tlb_invalid, shoot_page}
use longcat_os.Base.Store.{store-proj}
use longcat_os.Vm.Like.{entry-Like}
use longcat_os.Vm.Map.{here, mapped_at, mapped, mapped-Coherent}
use longcat_os.Vm.Search.{taken, NoFree, find_clean_lem}
use longcat_os.Vm.Protect.{protected, protected_at, protected-Sound}
use longcat_os.Vm.Sound.{flags-Sound}
use longcat_os.Vm.Coherence.{Coherent}
use longcat_os.Vm.WriteOut.{Clean, page_write_out-Clean}
use longcat_os.Vm.Paging.{page_write_out, find_clean}
use longcat_os.Vm.Shoot.{Shot, shoot_page-Shot}
use longcat_os.Vm.Refuse.{vm_fault_readonly}
use longcat_os.Vm.Whole.{vm_fault-Handled}

abbrev pub disk_map : Bitmap
disk_map = record { nbits = 10; v = 1 ∷ 252 ∷ [] }

pub disk_map-IsBitmap : IsBitmap disk_map
unfolding bitmap_create fill bitmap_mark
disk_map-IsBitmap =
    let (b, e, f) = bitmap_create-Fresh {S = Unit {0}} 10 (omega arith) in
    let created = e tt in
    let (c, g, h) =
      bitmap_mark-Changed b 0 f.ok (omega (arith, f.same_nbits)) (f.clear 0 (omega arith)) in
    let ten : Bitmap = record { nbits = 10; v = 0 ∷ 252 ∷ [] } in
    let run : bitmap_create 10 true true tt ≡ ret (some ten) tt = refl in
    let same : b ≡ ten = cc in
    let marked : bitmap_mark 0 ten ≡ ret tt disk_map = refl in
    let q : c ≡ disk_map = cc in subst IsBitmap q h.ok

-- A page that was promised and never touched
abbrev pub lazy : Pte
lazy = record { ppn = 0; valid = true; writeable = true; present = false; zeroed = true }

abbrev pub frames : ℕ → CmEntry
frames zero = stolen 0
frames (suc i) = unused true

abbrev pub space : Space
space = record { pd = λ i. some (λ j. lazy); heap_size = 0x2000; heap_start = 0x400000 }

abbrev pub machine : Vm
machine = record {
  entries = frames;
  num_pages = 16;
  num_kpages = 1;
  num_dirty = 0;
  clock_head = 0;
  spaces = λ a. space;
  swap = disk_map;
  can_swap = true;
  tlbs = tlb_invalid;
  ram = λ i. 0;
  disk = λ i. 0;
}

pub machine_pte : (a v : ℕ) (p : Pte) → pte_at machine a v ≡ some p → p ≡ lazy
unfolding dir_read
machine_pte a v p e = elim (Bool-cases (ltb (vaddr_to_pt v) pd_size)) [
  | inl l ↦ some-injective p lazy (sym e ∙ ground (arith, l))
  | inr l ↦ absurd (ground (arith, e, l))
]

pub machine-home : (a v : ℕ) → home machine a v ≡ 0
unfolding dir_read
machine-home a v = ground arith

machine_owner : (i : ℕ) → (frames i).owner ≡ none
machine_owner zero = refl
machine_owner (suc i) = refl

machine_flag : (i : ℕ) → (frames i).tlb ≡ false
machine_flag zero = refl
machine_flag (suc i) = refl

pub machine-Idle : Idle machine
machine-Idle zero = refl
machine-Idle (suc i) = refl

pub machine-Sound : Sound 1 machine
machine-Sound = Blank-Sound 1 machine (record {
  free = machine_owner;
  flags = machine_flag;
  absent = λ a v p e. ap (λ (x : Pte). x.present) (machine_pte a v p e);
  homeless = machine-home;
  buffer = λ k l. refl;
  swap_ok = disk_map-IsBitmap;
  block_zero = refl;
  swap_small = omega arith;
  pages_small = omega arith;
  swaps = refl;
  frame_zero = refl;
})

pub machine-Ready : Ready machine
machine-Ready = record {
  clock = omega arith;
  frame = 1;
  below = omega arith;
  evicts = refl;
  room = record { block = 1; below = omega arith; clear = refl };
}

machine_page : pte_at machine 1 (page_align 0x1234) ≡ some lazy
unfolding dir_read
machine_page = refl

vm_fault-Handled_example :
    (t : Vm) × (vm_fault true true 7 1 fault_write 0x1234 machine ≡ ret handled t)
    × Handled 1 machine (page_align 0x1234) true t
vm_fault-Handled_example =
    vm_fault-Handled 1 machine machine-Sound machine-Idle true 7 0x1234 fault_write lazy refl refl
      machine_page machine-Ready (omega arith) (λ x y. refl) (λ x. refl)

page_get-Got_example : (i : ℕ) × (t : Vm) × (page_get true machine ≡ ret i t) × Got 1 machine i t
page_get-Got_example = page_get-Got 1 machine machine-Sound machine-Ready

page_swapin-Swapped_example :
    (i : ℕ) × (t : Vm) × (page_swapin true 1 0x1000 machine ≡ ret tt t)
    × Swapped 1 machine 0x1000 i t
page_swapin-Swapped_example =
    page_swapin-Swapped 1 machine machine-Sound machine-Ready 0x1000 lazy machine_page refl
      (omega arith) refl machine-Idle

-- With a busy frame 1 and the clock on frame 0, frame 2 is chosen.
choose_victim-Victim_example :
    (i : ℕ) × (h : ℕ) × (choose_victim 16 machine ≡ ret i (at_head machine h)) × Victim machine i h
choose_victim-Victim_example = choose_victim-Victim machine 3 (omega arith) (omega arith) refl

abbrev cold : Vm
cold = record machine { entries = λ i. unused false; spaces = λ a. record space { pd = λ i. none } }

-- Each wait channel takes a page, and so do the tracker and the bitmap.
boot-Sound_example :
    (t : Vm) × ((vm_bootstrap 2 16 true (1 ∷ []) (1 ∷ [])
          >> (kmalloc true [] >>= λ _. swap_init 65536 true (1 ∷ []) (1 ∷ []) []))
        cold
      ≡ ret tt t)
    × Sound 1 t
    × Idle t
    × Ready t
boot-Sound_example =
    boot-Sound 1 cold true 2 16 65536 (1 ∷ []) (1 ∷ []) [] (1 ∷ []) (1 ∷ []) []
      (record { no_spaces = λ a i. refl; no_tlb = λ k l. refl; behind = λ j h. refl }) (omega arith)
      (omega arith, tt) (omega arith, tt) tt (omega arith, tt) (omega arith, tt) tt (omega arith)
      (omega arith) (omega arith) (omega arith)

-- The machine with the page at 0x1000 in frame 1
abbrev resident : Vm
resident = mapped machine 1 1 0x1000 0

resident-Coherent : Coherent resident
resident-Coherent =
    mapped-Coherent machine machine-Sound.coherent 1 1 0x1000 lazy refl (omega arith) refl
      machine_page refl (omega arith) refl

resident_flag : (i : ℕ) → (resident.entries i).tlb ≡ false
resident_flag i = store-proj (λ (x : CmEntry). x.tlb) frames 1 i _ refl ∙ machine_flag i

resident-Sound : Sound 1 resident
resident-Sound = record {
  coherent = resident-Coherent;
  tlb_ok = empty-TlbOk 1 resident resident_flag (λ k l. refl);
}

resident-Idle : Idle resident
resident-Idle i = store-proj (λ (x : CmEntry). x.busy) frames 1 i _ refl ∙ machine-Idle i

-- As page_get leaves it before it writes the page out
abbrev evicting : Vm
evicting = taken resident 1

evicting-Sound : Sound 1 evicting
evicting-Sound =
    flags-Sound 1 resident evicting (entry-Like resident 1 _ refl) refl
      (λ j. store-proj (λ (x : CmEntry). x.tlb) resident.entries 1 j _ refl) resident-Sound

page_write_out-Clean_example :
    (t : Vm) × (page_write_out true 1 evicting ≡ ret tt t) × Clean 1 evicting 1 1 t
page_write_out-Clean_example =
    page_write_out-Clean 1 evicting evicting-Sound 1 1 refl refl
      (record { block = 1; below = omega arith; clear = refl })

shoot_page-Shot_example : (t : Vm) × (shoot_page 1 resident ≡ ret tt t) × Shot 1 resident 1 t
shoot_page-Shot_example = shoot_page-Shot 1 resident resident-Sound.tlb_ok 1

-- The same machine with the page read-only
resident_page : pte_at resident 1 0x1000 ≡ some (here 1)
resident_page =
    mapped_at machine machine-Sound.coherent 1 1 0x1000 lazy refl (omega arith) refl machine_page
      refl (omega arith) refl

abbrev locked : Vm
locked = protected resident resident-Coherent 1 0x1000 (here 1) resident_page false

locked-Sound : Sound 1 locked
locked-Sound =
    protected-Sound resident resident-Coherent 1 0x1000 (here 1) resident_page false 1
      resident-Sound

vm_fault_readonly_example :
    (t : Vm) × (vm_fault true true 7 1 fault_write 0x1234 locked ≡ fail efault t)
    × Sound 1 t
    × SameBytes locked t
    × Idle t
vm_fault_readonly_example =
    vm_fault_readonly 1 locked locked-Sound resident-Idle true 7 0x1234 fault_write
      (record (here 1) { writeable = false }) refl refl
      (protected_at resident resident-Coherent 1 0x1000 (here 1) resident_page false) refl refl

-- Only the kernel's frame and one that holds a page
abbrev crowded : Vm
crowded = record resident { num_pages = 2 }

crowded-NoFree : NoFree crowded 0 2
crowded-NoFree zero l m = refl
crowded-NoFree (suc zero) l m = refl
crowded-NoFree (suc (suc j)) l m = absurd (omega arith)

find_clean_lem_example : (h : ℕ) × (h < 2) × (find_clean 2 crowded ≡ ret none (at_head crowded h))
find_clean_lem_example = find_clean_lem crowded 2 (omega arith) crowded-NoFree
