-- ===== src/Vm/Fault.antt =====
-- vm_fault of kern/arch/mips/vm/vm.c, and pte_acquire and pte_release of kern/vm/addrspace.c. The
-- kernel's own allocation of a page table is a flag.
use longcat_os.Base.{
  ℕ, Option, none, some, Bool, true, false, not, ◌&&◌, ◌||◌, ◌+◌, ◌%◌, ◌^◌, ◌==◌, ltb, leb,
  if◌then◌else◌,
}
use longcat_os.Base.Outcome.{
  M, ◌>>=◌, ◌>>◌, return, throw, get, put, check, kassert, einval, efault,
}
use longcat_os.Base.Store.{store}
use longcat_os.Vm.{
  Vm, Pte, pd_size, num_tlb, stack_min, stack_max, vaddr_to_pt, page_align, with_pd, entry,
  set_entry, set_busy, the_pte,
}
use longcat_os.Vm.Tlb.{tlb_probe, tlb_write, clear_tlb}
use longcat_os.Vm.Paging.{is_null, Fault, handled, killed, page_fault}

-- `faulttype`
pub data Access : Type 0 where
  fault_read fault_write fault_readonly fault_unknown : Access

abbrev pub is_known : Access → Bool
is_known fault_read = true
is_known fault_write = true
is_known fault_readonly = true
is_known fault_unknown = false

abbrev pub is_readonly : Access → Bool
is_readonly fault_read = false
is_readonly fault_write = false
is_readonly fault_readonly = true
is_readonly fault_unknown = false

abbrev pub writes : Access → Bool
writes fault_read = false
writes fault_write = true
writes fault_readonly = true
writes fault_unknown = false

abbrev pub owner_is : ℕ → Option ℕ → Bool
owner_is a none = false
owner_is a (some b) = b == a

-- A table from a page of zeros, as `pgt_init` leaves it
abbrev pub zero_pte : Pte
zero_pte = record { ppn = 0; valid = false; writeable = false; present = false; zeroed = false }

abbrev pub new_table : Vm → ℕ → ℕ → Vm
new_table s a i = record s {
  spaces = with_pd s.spaces a (store (s.spaces a).pd i (some (λ j. zero_pte)));
}

abbrev pub has_table : Option (ℕ → Pte) → Bool
has_table none = false
has_table (some t) = true

-- A frame that stays busy would be waited for without end.
unfoldable pub pte_acquire : ℕ → Pte → M Vm (Option ℕ)
pte_acquire a p =
    if p.present
    then (do
      s ← get
      kassert (ltb p.ppn s.num_pages)
      c ← entry p.ppn
      kassert (not c.kpage)
      kassert (not c.busy)
      if owner_is a c.owner then (do set_busy p.ppn true; return (some p.ppn)) else return none)
    else return none

abbrev pub pte_release : Option ℕ → M Vm (Unit {0})
pte_release none = return tt
pte_release (some ppn) = do c ← entry ppn; kassert (not c.kpage); set_busy ppn false

-- The page table for the address, new for a page of the stack
unfoldable pub find_table : Bool → ℕ → ℕ → M Vm (Unit {0})
find_table mem a v = do
  s ← get
  kassert (ltb (vaddr_to_pt v) pd_size)
  if has_table ((s.spaces a).pd (vaddr_to_pt v)) then return tt else (do
    check (ltb stack_min v && leb v stack_max) efault
    kassert mem
    put (new_table s a (vaddr_to_pt v)))

-- The slot of the translation buffer: that of the page, or a random one whose frame is told.
abbrev pub slot_of : ℕ → Option ℕ → M Vm ℕ
slot_of random (some k) = return k
slot_of random none = do
  s ← get
  let k = random % num_tlb
  if (s.tlbs k).valid then clear_tlb (s.tlbs k).ppage else return tt
  return k

abbrev pub set_dirty : ℕ → M Vm (Unit {0})
set_dirty ppn = do
  s ← get
  let c = s.entries ppn
  put (record s {
    num_dirty = if c.dirty then s.num_dirty else (s.num_dirty + 1) % 2 ^ 32;
    entries = store s.entries ppn (record c { dirty = true });
  })

abbrev pub enter_tlb : Bool → ℕ → ℕ → ℕ → M Vm (Unit {0})
enter_tlb w v ppn k = do
  tlb_write k (record { hi = v; ppage = ppn; valid = true; dirty = w })
  c ← entry ppn
  set_entry ppn (record c { tlb = true })

unfoldable pub load_tlb : ℕ → Bool → ℕ → ℕ → M Vm (Unit {0})
load_tlb random w v ppn = do
  s ← get
  k ← slot_of random (tlb_probe s v)
  if w then set_dirty ppn else return tt
  enter_tlb w v ppn k

-- The end of vm_fault, once the page is in memory
unfoldable pub finish_fault : ℕ → ℕ → Access → ℕ → Option ℕ → M Vm Fault
finish_fault random cur faulttype v release_ppn = do
  pte ← the_pte cur v
  kassert pte.present
  s ← get
  kassert (ltb pte.ppn s.num_pages)
  set_busy pte.ppn true
  c ← entry pte.ppn
  kassert (owner_is cur c.owner)
  kassert (c.vaddr == v)
  if writes faulttype && not pte.writeable then (do pte_release release_ppn; throw efault) else (do
    s ← get
    kassert (is_readonly faulttype || is_null (tlb_probe s v))
    load_tlb random (writes faulttype) v pte.ppn
    set_busy pte.ppn false
    pte_release release_ppn
    return handled)

abbrev pub after_page_fault : Fault → M Vm Fault → M Vm Fault
after_page_fault handled m = m
after_page_fault killed m = return killed

-- `random` is what the random number device says.
unfoldable pub vm_fault : Bool → Bool → ℕ → ℕ → Access → ℕ → M Vm Fault
vm_fault mem io random cur faulttype faultaddress =
    let v = page_align faultaddress in
    do
      check (is_known faulttype) einval
      s ← get
      check
          (not (
            leb v stack_min
            && leb (((s.spaces cur).heap_start + (s.spaces cur).heap_size) % 2 ^ 32) v))
          efault
      find_table mem cur v
      pte ← the_pte cur v
      release_ppn ← pte_acquire cur pte
      f ←
          if not pte.present || (not pte.valid && ltb stack_min v && ltb v stack_max) || pte.zeroed
          then page_fault io cur v
          else return handled
      after_page_fault f (finish_fault random cur faulttype v release_ppn)
