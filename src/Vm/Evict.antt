-- ===== src/Vm/Evict.antt =====
-- page_get hands out a frame that nobody has; a page that it takes one from keeps its bytes.
use longcat_os.Base.{ℕ, none, some, true, false, ◌<◌, ◌≡◌, ◌≢◌, arith, refl, sym, ap, ◌∙◌, inl, inr}
use mathlib.Core.Option.{some-injective}
use longcat_os.Base.Outcome.{ret}
use longcat_os.Base.Store.{store_self, store_ne, store-proj}
use longcat_os.Vm.{Vm, Pte, CmEntry, pte_at}
use longcat_os.Vm.Lookup.{page-cases, pte_in-same, pte_to_other}
use longcat_os.Vm.Coherence.{Holds, SameBytes}
use longcat_os.Vm.Unmap.{no_page, unmapped, unmapped-Coherent, unmapped-SameBytes}
use longcat_os.Vm.Sound.{Sound, Untouched-TlbOk}
use longcat_os.Vm.Search.{taken, at_head}
use longcat_os.Vm.Shoot.{shoot_page_skip}
use longcat_os.Vm.WriteOut.{Clean}
use longcat_os.Vm.Paging.{unmap_page, page_write_out, find_clean, choose_victim, page_evict}

-- A frame to use: nobody has it but the caller, and nothing else was lost.
pub record Got (cur : ℕ) (s : Vm) (i : ℕ) (t : Vm) : Type 0 where
  pub sound : Sound cur t
  pub same_bytes : SameBytes s t
  pub absent :
      (a v : ℕ) (p : Pte) → pte_at s a v ≡ some p → p.present ≡ false → pte_at t a v ≡ some p
  pub pages : t.num_pages ≡ s.num_pages
  pub clock : t.clock_head < t.num_pages
  pub below : i < t.num_pages
  pub owner : (t.entries i).owner ≡ none
  pub no_kpage : (t.entries i).kpage ≡ false
  pub busy : (t.entries i).busy ≡ true
  pub others : (j : ℕ) → i ≢ j → (t.entries j).busy ≡ (s.entries j).busy

unmap_page_lem :
    (s : Vm) (i a : ℕ) (h : Holds s i a)
    → 0 < i
    → (s.entries i).owner ≡ some a
    → (s.entries i).tlb ≡ false
    → (s.entries i).swap_location ≢ 0
    → unmap_page i s ≡ ret tt (unmapped s i a h.pte)
unfolding unmap_page
unmap_page_lem s i a h l o t z =
    ground (arith, l, o, z, h.mapped, h.at, h.frame, shoot_page_skip s i t)

-- The frame leaves the page table.
module _ (cur : ℕ) (s : Vm) (i a : ℕ) (t : Vm) (c : Clean cur s i a t) where
  abbrev pub out : Vm
  out = unmapped t i a (c.sound.coherent.frames i a c.owner).pte

  out_other : (j : ℕ) → i ≢ j → out.entries j ≡ t.entries j
  out_other j n = store_ne t.entries i j _ n

  flagged_other : (j : ℕ) → (t.entries j).tlb ≡ true → i ≢ j
  flagged_other j e q = absurd (ground (arith, c.flag, e, ap (λ k. (t.entries k).tlb) q))

  out_self : out.entries i ≡ no_page (t.entries i)
  out_self = store_self t.entries i _

  out_flag : (j : ℕ) → (out.entries j).tlb ≡ (t.entries j).tlb
  out_flag j = store-proj (λ (x : CmEntry). x.tlb) t.entries i j _ (sym c.flag)

  out_absent :
      (b v : ℕ) (p : Pte) → pte_at t b v ≡ some p → p.present ≡ false → pte_at out b v ≡ some p
  out_absent b v p e r =
      let h = c.sound.coherent.frames i a c.owner in
      elim (page-cases a (t.entries i).vaddr b v) [
        | inr n ↦ pte_to_other t.spaces a (t.entries i).vaddr _ h.pte h.at b v n ∙ e
        | inl q ↦
            (let u =
                some-injective h.pte p
                  (sym h.at ∙ pte_in-same t.spaces a (t.entries i).vaddr b v q ∙ e) in
              absurd (ground (arith, h.present, r, ap (λ (x : Pte). x.present) u)))
      ]

  out-Sound : Sound cur out
  out-Sound =
      let co = c.sound.coherent in
      record {
        coherent = unmapped-Coherent t co i a c.owner (co.frames i a c.owner) c.block c.saved;
        tlb_ok =
            Untouched-TlbOk cur t out
              (record {
                same_tlbs = refl;
                pages = refl;
                flag = out_flag;
                owner = λ j e. ap (λ (x : CmEntry). x.owner) (out_other j (flagged_other j e));
                vaddr = λ j e. ap (λ (x : CmEntry). x.vaddr) (out_other j (flagged_other j e));
              })
              c.sound.tlb_ok;
      }

  pub out-Got : t.clock_head < t.num_pages → (s.entries i).busy ≡ true → Got cur s i out
  out-Got l w =
      let co = c.sound.coherent in
      let h = co.frames i a c.owner in
      record {
        sound = out-Sound;
        same_bytes = λ b v.
            unmapped-SameBytes t co i a c.owner h c.block c.saved b v ∙ c.kept.same_bytes b v;
        absent = λ b v p e r. out_absent b v p (c.kept.absent b v p e r) r;
        pages = c.kept.pages;
        clock = l;
        below = h.below;
        owner = ap (λ (x : CmEntry). x.owner) out_self;
        no_kpage = ap (λ (x : CmEntry). x.kpage) out_self;
        busy = ap (λ (x : CmEntry). x.busy) out_self ∙ c.kept.busy i ∙ w;
        others = λ j n. ap (λ (x : CmEntry). x.busy) (out_other j n) ∙ c.kept.busy j;
      }

  pub unmap_page-out : 0 < i → unmap_page i t ≡ ret tt out
  unmap_page-out l =
      unmap_page_lem t i a (c.sound.coherent.frames i a c.owner) l c.owner c.flag c.block

pub page_evict_lem :
    (s t u : Vm) (h h' i : ℕ)
    → find_clean s.num_pages s ≡ ret none (at_head s h)
    → choose_victim s.num_pages (at_head s h) ≡ ret i (at_head s h')
    → page_write_out true i (taken (at_head s h') i) ≡ ret tt t
    → unmap_page i t ≡ ret tt u
    → page_evict true s ≡ ret i u
unfolding page_evict
page_evict_lem s t u h h' i a b c d = ground (arith, a, b, c, d)
