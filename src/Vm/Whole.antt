-- ===== src/Vm/Whole.antt =====
-- vm_fault as a whole.
use longcat_os.Base.{
  ℕ, Option, none, some, Bool, true, false, ◌+◌, ◌%◌, ◌^◌, ◌<◌, ◌≡◌, arith, refl, ap, ◌∙◌,
  Bool-cases, not, inl, inr, leb, ltb, if◌then◌else◌, ◌&&◌, ◌||◌, lt→ltb,
}
use longcat_os.Base.Outcome.{ret, return}
use longcat_os.Base.Store.{store_ne, store-proj}
use longcat_os.Vm.{
  Vm, CmEntry, Pte, pte_at, page_align, pd_size, stack_min, stack_max, vaddr_to_pt, vaddr_to_pte,
}
use longcat_os.Vm.Lookup.{dir_read_lem}
use longcat_os.Vm.Like.{Like-SameBytes, entry-Like}
use longcat_os.Vm.Sound.{Sound, flags-Sound}
use longcat_os.Vm.Search.{taken}
use longcat_os.Vm.Get.{Ready}
use longcat_os.Vm.Map.{here}
use longcat_os.Vm.Swapin.{Idle, page_swapin-Swapped}
use longcat_os.Vm.Paging.{handled, page_fault, page_swapin}
use longcat_os.Vm.Fault.{
  Access, is_known, writes, is_readonly, find_table, pte_acquire, finish_fault, vm_fault,
}
use longcat_os.Vm.Handle.{Handled, Handled-from, finish_fault-Handled, owner_is_self}

-- The address lies in no gap between heap and stack.
abbrev pub in_region : Vm → ℕ → ℕ → Bool
in_region s cur v =
    not (leb v stack_min && leb (((s.spaces cur).heap_start + (s.spaces cur).heap_size) % 2 ^ 32) v)

pub find_table_lem :
    (mem : Bool) (s : Vm) (a v : ℕ) (p : Pte)
    → pte_at s a v ≡ some p
    → (find_table mem a v s ≡ ret tt s) × (v < 2 ^ 31)
unfolding find_table
find_table_lem mem s a v p e =
    let (t, d, l) = dir_read_lem (s.spaces a).pd (vaddr_to_pt v) (vaddr_to_pte v) p e in
    (ground (arith, d, lt→ltb (vaddr_to_pt v) pd_size l), omega (arith, l))

-- Whether vm_fault calls page_fault
abbrev pub needs_page : ℕ → Pte → Bool
needs_page v p = not p.present || (not p.valid && ltb stack_min v && ltb v stack_max) || p.zeroed

pub vm_fault_lem :
    (mem : Bool) (random cur addr : ℕ) (ft : Access) (s u w : Vm) (p : Pte) (o : Option ℕ)
    → is_known ft ≡ true
    → in_region s cur (page_align addr) ≡ true
    → find_table mem cur (page_align addr) s ≡ ret tt s
    → pte_at s cur (page_align addr) ≡ some p
    → pte_acquire cur p s ≡ ret o u
    → (if needs_page (page_align addr) p
          then page_fault true cur (page_align addr)
          else return handled)
        u
      ≡ ret handled w
    → vm_fault mem true random cur ft addr s ≡ finish_fault random cur ft (page_align addr) o w
unfolding vm_fault
vm_fault_lem mem random cur addr ft s u w p o k r f e a g = ground (arith, k, r, f, e, a, g)

pub pte_acquire_absent :
    (cur : ℕ) (s : Vm) (p : Pte) → p.present ≡ false → pte_acquire cur p s ≡ ret none s
unfolding pte_acquire
pte_acquire_absent cur s p n = ground (arith, n)

pub pte_acquire_present :
    (cur : ℕ) (s : Vm) (p : Pte)
    → p.present ≡ true
    → p.ppn < s.num_pages
    → (s.entries p.ppn).kpage ≡ false
    → (s.entries p.ppn).busy ≡ false
    → (s.entries p.ppn).owner ≡ some cur
    → pte_acquire cur p s ≡ ret (some p.ppn) (taken s p.ppn)
unfolding pte_acquire
pte_acquire_present cur s p r b k f o =
    ground (arith, r, b, k, f, owner_is_self cur (s.entries p.ppn).owner o)

page_fault_lem :
    (cur v i : ℕ) (s t : Vm) (p : Pte)
    → v < 2 ^ 31
    → pte_at s cur v ≡ some p
    → p.present ≡ false
    → page_swapin true cur v s ≡ ret tt t
    → pte_at t cur v ≡ some (here i)
    → (t.entries (here i).ppn).vaddr ≡ v
    → page_fault true cur v s ≡ ret handled t
unfolding page_fault
page_fault_lem cur v i s t p l e n f g h = ground (arith, e, n, f, g, h, l)

module _ (cur : ℕ) (s : Vm) (d : Sound cur s) (idle : Idle s) (mem : Bool) (random addr : ℕ)
    (ft : Access) (p : Pte) (known : is_known ft ≡ true)
    (region : in_region s cur (page_align addr) ≡ true)
    (e : pte_at s cur (page_align addr) ≡ some p) where
  small : page_align addr < 2 ^ 31
  small = (find_table_lem mem s cur (page_align addr) p e).1

  -- A page in memory is valid and not zeroed.
  pub no_fault : p.present ≡ true → needs_page (page_align addr) p ≡ false
  no_fault r =
      let g = d.coherent.pages cur (page_align addr) p e r in
      let y = g.valid in let z = g.zeroed in ground (arith, r, y, z)

  handle_present :
      (r : p.present ≡ true)
      → (is_readonly ft ≡ false → (s.entries p.ppn).tlb ≡ false)
      → (writes ft && not p.writeable) ≡ false
      → (t : Vm) × (vm_fault mem true random cur ft addr s ≡ ret handled t)
        × Handled cur s (page_align addr) (writes ft) t
  handle_present r m w =
      let v = page_align addr in
      let g = d.coherent.pages cur v p e r in
      let h = d.coherent.frames p.ppn cur g.owner in
      let u = taken s p.ppn in
      let at_v : (s.entries p.ppn).vaddr ≡ v = omega (arith, g.page, h.aligned) in
      let same : (u.entries p.ppn).vaddr ≡ (s.entries p.ppn).vaddr =
        store-proj (λ (x : CmEntry). x.vaddr) s.entries p.ppn p.ppn _ refl in
      let flag : (u.entries p.ppn).tlb ≡ (s.entries p.ppn).tlb =
        store-proj (λ (x : CmEntry). x.tlb) s.entries p.ppn p.ppn _ refl in
      let own : (u.entries p.ppn).owner ≡ (s.entries p.ppn).owner =
        store-proj (λ (x : CmEntry). x.owner) s.entries p.ppn p.ppn _ refl in
      let l = entry-Like s p.ppn (record (s.entries p.ppn) { busy = true }) refl in
      let du =
        flags-Sound cur s u l refl
          (λ j. store-proj (λ (x : CmEntry). x.tlb) s.entries p.ppn j _ refl) d in
      let (t, q, k) =
        finish_fault-Handled cur u du v p
          (record { at = e; present = r; owner = own ∙ g.owner; vaddr = same ∙ at_v }) small
          (some p.ppn) (inr refl)
          (λ j n. ap (λ (x : CmEntry). x.busy) (store_ne s.entries p.ppn j _ n) ∙ idle j) ft
          (λ z. flag ∙ m z) random w in
      let skip = no_fault r in
      (
        t,
        vm_fault_lem mem random cur addr ft s u u p (some p.ppn) known region
              (find_table_lem mem s cur v p e).0 e
              (pte_acquire_present cur s p r h.below h.no_kpage (idle p.ppn) g.owner)
              (ap (λ b. (if b then page_fault true cur v else return handled) u) skip)
            ∙ q,
        Handled-from cur s u v (writes ft) t (Like-SameBytes s u l) k,
      )

  handle_absent :
      p.present ≡ false
      → Ready s
      → 0 < page_align addr
      → (t : Vm) × (vm_fault mem true random cur ft addr s ≡ ret handled t)
        × Handled cur s (page_align addr) (writes ft) t
  handle_absent n r pos =
      let v = page_align addr in
      let (i, u, q, k) = page_swapin-Swapped cur s d r v p e n pos (omega arith) idle in
      let same : (here i).ppn ≡ i = omega (arith, k.resident.below, k.sound.coherent.pages_small) in
      let at_v : (u.entries (here i).ppn).vaddr ≡ v =
        ap (λ x. (u.entries x).vaddr) same ∙ k.resident.vaddr in
      let (t, z, x) =
        finish_fault-Handled cur u k.sound v (here i)
          (record {
            at = k.resident.at;
            present = refl;
            owner = ap (λ x. (u.entries x).owner) same ∙ k.resident.owner;
            vaddr = at_v;
          })
          small none (inl refl) (λ j m. k.idle j) ft
          (λ _. ap (λ x. (u.entries x).tlb) same ∙ k.fresh) random (ground arith) in
      let pf = page_fault_lem cur v i s u p small e n q k.resident.at at_v in
      (
        t,
        vm_fault_lem mem random cur addr ft s s u p none known region
              (find_table_lem mem s cur v p e).0 e (pte_acquire_absent cur s p n)
              (ground (arith, n, pf))
            ∙ z,
        Handled-from cur s u v (writes ft) t k.same_bytes x,
      )

  -- vm_fault with a known type at a page of the process, not page 0 and not between heap and stack,
  -- with no frame busy, a frame that may be evicted, room in a swap area of at most 2 ^ 19 blocks
  -- whose device serves every transfer, where a read or write fault means that the page is not in
  -- the buffer, and a write to a page in memory that it is writeable: the fault is handled, no page
  -- of any process changes its bytes, no frame stays busy, and the translation buffer has the frame
  -- with the bytes of the page, writeable where the access was a write.
  pub vm_fault-Handled :
      Ready s
      → 0 < page_align addr
      → (is_readonly ft ≡ false → p.present ≡ true → (s.entries p.ppn).tlb ≡ false)
      → (p.present ≡ true → (writes ft && not p.writeable) ≡ false)
      → (t : Vm) × (vm_fault mem true random cur ft addr s ≡ ret handled t)
        × Handled cur s (page_align addr) (writes ft) t
  vm_fault-Handled r pos m w = elim (Bool-cases p.present) [
    | inl h ↦ handle_present h (λ z. m z h) (w h)
    | inr n ↦ handle_absent n r pos
  ]
