-- ===== src/Vm/Refuse.antt =====
-- A write to a page that is not writeable.
use longcat_os.Base.{
  ℕ, Option, some, Bool, true, false, ◌<◌, ◌≡◌, arith, refl, ap, subst, ◌∙◌, not, if◌then◌else◌,
  ℕ_discrete, ◌&&◌,
}
use longcat_os.Base.Outcome.{return, fail, throw, efault, ◌>>◌}
use longcat_os.Base.Gives.{bind-ret}
use longcat_os.Base.Store.{store_self, store_ne, store-proj}
use longcat_os.Vm.{Vm, CmEntry, Pte, pte_at, page_align}
use longcat_os.Vm.Coherence.{SameBytes}
use longcat_os.Vm.Like.{Like, Like-trans, Like-SameBytes, entry-Like}
use longcat_os.Vm.Sound.{Sound, flags-Sound}
use longcat_os.Vm.Search.{taken}
use longcat_os.Vm.Swapin.{Idle}
use longcat_os.Vm.Paging.{handled, page_fault}
use longcat_os.Vm.Fault.{Access, is_known, writes, pte_release, finish_fault, vm_fault}
use longcat_os.Vm.Handle.{Present, unbusy, owner_is_self, pte_release_frame}
use longcat_os.Vm.Whole.{in_region, find_table_lem, vm_fault_lem, no_fault, pte_acquire_present}

finish_fault_refuse :
    (u : Vm) (random cur v : ℕ) (ft : Access) (p : Pte) (release : Option ℕ)
    → Present u cur v p
    → p.ppn < u.num_pages
    → (writes ft && not p.writeable) ≡ true
    → finish_fault random cur ft v release u ≡ (pte_release release >> throw efault) (taken u p.ppn)
unfolding finish_fault
finish_fault_refuse u random cur v ft p release h b w =
    let x = h.at in
    let y = h.present in
    let q : (taken u p.ppn).entries p.ppn ≡ record (u.entries p.ppn) { busy = true } =
      store_self u.entries p.ppn _ in
    let o =
      owner_is_self cur ((taken u p.ppn).entries p.ppn).owner
        (ap (λ (x : CmEntry). x.owner) q ∙ h.owner) in
    let a : ((taken u p.ppn).entries p.ppn).vaddr ≡ v = ap (λ (x : CmEntry). x.vaddr) q ∙ h.vaddr in
    ground (arith, x, y, b, w, o, a)

module _ (cur : ℕ) (s : Vm) (d : Sound cur s) (idle : Idle s) (mem : Bool) (random addr : ℕ)
    (ft : Access) (p : Pte) (known : is_known ft ≡ true)
    (region : in_region s cur (page_align addr) ≡ true)
    (e : pte_at s cur (page_align addr) ≡ some p) (r : p.present ≡ true) where
  abbrev refused : Vm
  refused = unbusy (taken (taken s p.ppn) p.ppn) p.ppn

  same :
      {B : Type 0} (g : CmEntry → B) (j : ℕ)
      → ((c : CmEntry) (b : Bool) → g (record c { busy = b }) ≡ g c)
      → g (refused.entries j) ≡ g (s.entries j)
  same g j f =
      store-proj g (taken (taken s p.ppn) p.ppn).entries p.ppn j _ (f _ false)
      ∙ store-proj g (taken s p.ppn).entries p.ppn j _ (f _ true)
      ∙ store-proj g s.entries p.ppn j _ (f _ true)

  refused-Like : Like s refused
  refused-Like = Like-trans s (taken s p.ppn) refused (entry-Like s p.ppn _ refl) (
      Like-trans (taken s p.ppn) (taken (taken s p.ppn) p.ppn) refused
        (entry-Like (taken s p.ppn) p.ppn _ refl)
        (entry-Like (taken (taken s p.ppn) p.ppn) p.ppn _ refl))

  refused-Idle : Idle refused
  refused-Idle j = elim (ℕ_discrete p.ppn j) [
    | yes q ↦
        subst (λ k. (refused.entries k).busy ≡ false) q
          (ap (λ (x : CmEntry). x.busy) (store_self (taken (taken s p.ppn) p.ppn).entries p.ppn _))
    | no n ↦
        ap (λ (x : CmEntry). x.busy)
          (store_ne (taken (taken s p.ppn) p.ppn).entries p.ppn j _ n
            ∙ store_ne (taken s p.ppn).entries p.ppn j _ n
            ∙ store_ne s.entries p.ppn j _ n)
        ∙ idle j
  ]

  -- A write to a page in memory that is not writeable returns EFAULT; every page has the bytes that it
  -- had, no frame stays busy and the invariant stays true.
  pub vm_fault_readonly :
      (writes ft && not p.writeable) ≡ true
      → (t : Vm) × (vm_fault mem true random cur ft addr s ≡ fail efault t)
        × Sound cur t
        × SameBytes s t
        × Idle t
  vm_fault_readonly w =
      let v = page_align addr in
      let g = d.coherent.pages cur v p e r in
      let h = d.coherent.frames p.ppn cur g.owner in
      let u = taken s p.ppn in
      let at_v : (s.entries p.ppn).vaddr ≡ v = omega (arith, g.page, h.aligned) in
      let here : (u.entries p.ppn).vaddr ≡ (s.entries p.ppn).vaddr =
        store-proj (λ (x : CmEntry). x.vaddr) s.entries p.ppn p.ppn _ refl in
      let own : (u.entries p.ppn).owner ≡ (s.entries p.ppn).owner =
        store-proj (λ (x : CmEntry). x.owner) s.entries p.ppn p.ppn _ refl in
      let k : ((taken u p.ppn).entries p.ppn).kpage ≡ (s.entries p.ppn).kpage =
        store-proj (λ (x : CmEntry). x.kpage) u.entries p.ppn p.ppn _ refl
        ∙ store-proj (λ (x : CmEntry). x.kpage) s.entries p.ppn p.ppn _ refl in
      let skip = no_fault cur s d idle mem random addr ft p known region e r in
      (
        refused,
        vm_fault_lem mem random cur addr ft s u u p (some p.ppn) known region
              (find_table_lem mem s cur v p e).0 e
              (pte_acquire_present cur s p r h.below h.no_kpage (idle p.ppn) g.owner)
              (ap (λ b. (if b then page_fault true cur v else return handled) u) skip)
            ∙ finish_fault_refuse u random cur v ft p (some p.ppn)
                (record { at = e; present = r; owner = own ∙ g.owner; vaddr = here ∙ at_v }) h.below
                w
            ∙ bind-ret (pte_release (some p.ppn)) (λ x. throw efault) (taken u p.ppn) refused tt
                (pte_release_frame (taken u p.ppn) p.ppn (k ∙ h.no_kpage)),
        flags-Sound cur s refused refused-Like refl (λ j. same (λ x. x.tlb) j (λ c b. refl)) d,
        Like-SameBytes s refused refused-Like,
        refused-Idle,
      )
