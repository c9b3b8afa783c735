-- ===== src/Vm/Handle.antt =====
-- vm_fault on a page that is in memory.
use longcat_os.Base.{
  ℕ, Option, none, some, Bool, true, false, ◌^◌, ◌<◌, ◌≡◌, ◌≢◌, ◌⊎◌, arith, refl, sym, ap, ◌∙◌,
  Bool-cases, not, inl, inr, ℕ_discrete, ◌&&◌, ◌||◌,
}
use longcat_os.Base.Outcome.{M, ret, return, ◌>>◌}
use longcat_os.Base.Gives.{bind-ret}
use longcat_os.Base.Store.{store_self, store_ne, store-proj}
use longcat_os.Vm.{Vm, CmEntry, Pte, pte_at, with_entry}
use longcat_os.Vm.Coherence.{bytes, bytes_present, SameBytes}
use longcat_os.Vm.Like.{Like, Like-trans, Like-SameBytes, entry-Like, same_owner}
use longcat_os.Vm.Sound.{Sound, flags-Sound}
use longcat_os.Vm.Tlb.{tlb_probe}
use longcat_os.Vm.Search.{taken}
use longcat_os.Vm.Swapin.{Idle}
use longcat_os.Vm.Paging.{is_null, handled}
use longcat_os.Vm.Fault.{Access, writes, is_readonly, owner_is, pte_release, load_tlb, finish_fault}
use longcat_os.Vm.Enter.{Translates, Entered, load_tlb-Entered, no_flag-tlb_probe}

abbrev pub unbusy : Vm → ℕ → Vm
unbusy s i = with_entry s i (record (s.entries i) { busy = false })

-- The page at `v` is in memory by the entry `p`.
pub record Present (u : Vm) (cur v : ℕ) (p : Pte) : Type 0 where
  pub at : pte_at u cur v ≡ some p
  pub present : p.present ≡ true
  pub owner : (u.entries p.ppn).owner ≡ some cur
  pub vaddr : (u.entries p.ppn).vaddr ≡ v

pub owner_is_self : (a : ℕ) (o : Option ℕ) → o ≡ some a → owner_is a o ≡ true
owner_is_self a o e = ap (owner_is a) e ∙ ground arith

finish_fault_lem :
    (u t : Vm) (random cur v : ℕ) (ft : Access) (p : Pte) (release : Option ℕ)
    → Present u cur v p
    → p.ppn < u.num_pages
    → (writes ft && not p.writeable) ≡ false
    → (is_readonly ft || is_null (tlb_probe u v)) ≡ true
    → load_tlb random (writes ft) v p.ppn (taken u p.ppn) ≡ ret tt t
    → finish_fault random cur ft v release u
      ≡ (pte_release release >> return handled) (unbusy t p.ppn)
unfolding finish_fault
finish_fault_lem u t random cur v ft p release h b w m e =
    let x = h.at in
    let y = h.present in
    let q : (taken u p.ppn).entries p.ppn ≡ record (u.entries p.ppn) { busy = true } =
      store_self u.entries p.ppn _ in
    let o =
      owner_is_self cur ((taken u p.ppn).entries p.ppn).owner
        (ap (λ (x : CmEntry). x.owner) q ∙ h.owner) in
    let a : ((taken u p.ppn).entries p.ppn).vaddr ≡ v = ap (λ (x : CmEntry). x.vaddr) q ∙ h.vaddr in
    ground (arith, x, y, b, w, m, e, o, a)

-- Frame `i` is not busy any more, and nothing else happened.
record Freed (i : ℕ) (s t : Vm) : Type 0 where
  like : Like s t
  tlbs : t.tlbs ≡ s.tlbs
  flag : (j : ℕ) → (t.entries j).tlb ≡ (s.entries j).tlb
  here : (t.entries i).busy ≡ false
  others : (j : ℕ) → i ≢ j → (t.entries j).busy ≡ (s.entries j).busy
  clock : t.clock_head ≡ s.clock_head

unbusy-Freed : (s : Vm) (i : ℕ) → Freed i s (unbusy s i)
unbusy-Freed s i = record {
  like = entry-Like s i _ refl;
  tlbs = refl;
  flag = λ j. store-proj (λ (x : CmEntry). x.tlb) s.entries i j _ refl;
  here = ap (λ (x : CmEntry). x.busy) (store_self s.entries i _);
  others = λ j n. ap (λ (x : CmEntry). x.busy) (store_ne s.entries i j _ n);
  clock = refl;
}

Freed-trans : (i : ℕ) (s t u : Vm) → Freed i s t → Freed i t u → Freed i s u
Freed-trans i s t u a b = record {
  like = Like-trans s t u a.like b.like;
  tlbs = b.tlbs ∙ a.tlbs;
  flag = λ j. b.flag j ∙ a.flag j;
  here = b.here;
  others = λ j n. b.others j n ∙ a.others j n;
  clock = b.clock ∙ a.clock;
}

-- What vm_fault holds of the frame when it ends: nothing, or the frame itself
abbrev pub Holding : ℕ → Option ℕ → Type 0
Holding i o = (o ≡ none) ⊎ (o ≡ some i)

unbusy_kpage : (s : Vm) (i : ℕ) → ((unbusy s i).entries i).kpage ≡ (s.entries i).kpage
unbusy_kpage s i = store-proj (λ (x : CmEntry). x.kpage) s.entries i i _ refl

pub pte_release_frame :
    (s : Vm) (i : ℕ) → (s.entries i).kpage ≡ false → pte_release (some i) s ≡ ret tt (unbusy s i)
pte_release_frame s i k = ground (arith, k)

release-Freed :
    {A : Type 0} (s : Vm) (i : ℕ) (o : Option ℕ) (m : M Vm A)
    → (s.entries i).kpage ≡ false
    → Holding i o
    → (t : Vm) × ((pte_release o >> m) (unbusy s i) ≡ m t) × Freed i s t
release-Freed s i o m k (inl e) =
    (unbusy s i, ap (λ x. (pte_release x >> m) (unbusy s i)) e, unbusy-Freed s i)
release-Freed s i o m k (inr e) = (
  unbusy (unbusy s i) i,
  ap (λ x. (pte_release x >> m) (unbusy s i)) e
      ∙ bind-ret (pte_release (some i)) (λ x. m) (unbusy s i) (unbusy (unbusy s i) i) tt
          (pte_release_frame (unbusy s i) i (unbusy_kpage s i ∙ k)),
  Freed-trans i s (unbusy s i) (unbusy (unbusy s i) i) (unbusy-Freed s i)
      (unbusy-Freed (unbusy s i) i),
)

-- The fault is handled: the page is as it was and in memory, nobody is busy, and the translation
-- buffer has the page.
pub record Handled (cur : ℕ) (u : Vm) (v : ℕ) (w : Bool) (t : Vm) : Type 0 where
  pub sound : Sound cur t
  pub same_bytes : SameBytes u t
  pub idle : Idle t
  pub pte : Pte
  pub at : pte_at t cur v ≡ some pte
  pub present : pte.present ≡ true
  pub translates : Translates t v pte.ppn w
  pub reads : t.ram pte.ppn ≡ bytes u cur v

pub Handled-from :
    (cur : ℕ) (s u : Vm) (v : ℕ) (w : Bool) (t : Vm)
    → SameBytes s u
    → Handled cur u v w t
    → Handled cur s v w t
Handled-from cur s u v w t b h = record {
  sound = h.sound;
  same_bytes = λ a x. h.same_bytes a x ∙ b a x;
  idle = h.idle;
  pte = h.pte;
  at = h.at;
  present = h.present;
  translates = h.translates;
  reads = h.reads ∙ b cur v;
}

module _ (cur : ℕ) (u : Vm) (d : Sound cur u) (v : ℕ) (p : Pte) (h : Present u cur v p)
    (small : v < 2 ^ 31) (release : Option ℕ) (holding : Holding p.ppn release)
    (rest : (j : ℕ) → p.ppn ≢ j → (u.entries j).busy ≡ false) where
  taken-Sound : Sound cur (taken u p.ppn)
  taken-Sound =
      flags-Sound cur u (taken u p.ppn) (entry-Like u p.ppn _ refl) refl
        (λ j. store-proj (λ (x : CmEntry). x.tlb) u.entries p.ppn j _ refl) d

  taken_same :
      {B : Type 0} (g : CmEntry → B)
      → g (record (u.entries p.ppn) { busy = true }) ≡ g (u.entries p.ppn)
      → g ((taken u p.ppn).entries p.ppn) ≡ g (u.entries p.ppn)
  taken_same g e = store-proj g u.entries p.ppn p.ppn _ e

  frame_below : p.ppn < u.num_pages
  frame_below = (d.coherent.frames p.ppn cur h.owner).below

  -- The state that load_tlb leaves, with the frame released
  ended :
      (w : Bool) (t t' : Vm)
      → Entered cur (taken u p.ppn) v p.ppn w t
      → Freed p.ppn t t'
      → Handled cur u v w t'
  ended w t t' e f =
      let l = Like-trans (taken u p.ppn) t t' e.like f.like in
      record {
        sound = flags-Sound cur t t' f.like f.tlbs f.flag e.sound;
        same_bytes =
            Like-SameBytes u t' (Like-trans u (taken u p.ppn) t' (entry-Like u p.ppn _ refl) l);
        idle = λ j. elim (ℕ_discrete p.ppn j) [
          | yes q ↦ ap (λ k. (t'.entries k).busy) (sym q) ∙ f.here
          | no n ↦
              f.others j n
              ∙ e.kept.busy j
              ∙ ap (λ (x : CmEntry). x.busy) (store_ne u.entries p.ppn j _ n)
              ∙ rest j n
        ];
        pte = p;
        at = l.shape.ptes cur v ∙ h.at;
        present = h.present;
        translates = record {
          slot = e.translates.slot;
          below = e.translates.below;
          holds = ap (λ g. g e.translates.slot) f.tlbs ∙ e.translates.holds;
        };
        reads =
            sym (
              bytes_present t'.entries t'.ram t'.disk (pte_at t' cur v) p
                (l.shape.ptes cur v ∙ h.at) h.present)
            ∙ Like-SameBytes u t' (Like-trans u (taken u p.ppn) t' (entry-Like u p.ppn _ refl) l)
                cur v;
      }

  -- The hardware raises a read or write fault only where the page is not in the buffer.
  module _ (ft : Access) (missed : is_readonly ft ≡ false → (u.entries p.ppn).tlb ≡ false)
      (random : ℕ) where
    missed_probe : (is_readonly ft || is_null (tlb_probe u v)) ≡ true
    missed_probe = elim (Bool-cases (is_readonly ft)) [
      | inl e ↦ ground (arith, e)
      | inr e ↦
          (let n =
              no_flag-tlb_probe cur u d v p.ppn h.owner h.vaddr small false random (missed e) in
            ground (arith, e, n))
    ]

    pub finish_fault-Handled :
        (writes ft && not p.writeable) ≡ false
        → (t : Vm) × (finish_fault random cur ft v release u ≡ ret handled t)
          × Handled cur u v (writes ft) t
    finish_fault-Handled w =
        let (t, e, q) =
          load_tlb-Entered cur (taken u p.ppn) taken-Sound v p.ppn
            (taken_same (λ x. x.owner) refl ∙ h.owner) (taken_same (λ x. x.vaddr) refl ∙ h.vaddr)
            small (writes ft) random in
        let k =
          (q.sound.coherent.frames p.ppn cur (
            same_owner (taken u p.ppn) t q.like.shape p.ppn
            ∙ taken_same (λ x. x.owner) refl
            ∙ h.owner)).no_kpage in
        let (t', f, r) = release-Freed t p.ppn release (return handled) k holding in
        (
          t',
          finish_fault_lem u t random cur v ft p release h frame_below w missed_probe e ∙ f,
          ended (writes ft) t t' q r,
        )
