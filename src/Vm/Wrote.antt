-- ===== src/Vm/Wrote.antt =====
-- The state that page_write_out has made of a frame before the shootdown of its page.
use longcat_os.Base.{
  ℕ, some, false, ◌+◌, ◌-◌, ◌%◌, ◌^◌, ◌≡◌, ◌≢◌, refl, sym, ap, ◌∙◌, inl, inr, if◌then◌else◌,
}
use longcat_os.Base.Store.{store, store_self, store-proj, store-proj_two}
use longcat_os.Bitmap.{Bitmap}
use longcat_os.Vm.{Vm, CmEntry, pte_at, pte_to}
use longcat_os.Vm.Lookup.{page-cases, pte_in-same, pte_to_self, pte_to_other}
use longcat_os.Vm.Coherence.{Coherent, Holds}
use longcat_os.Vm.Blocks.{
  Fresh, given, given-Coherent, given-SameBytes, rewritten, rewritten-Coherent, rewritten-SameBytes,
}
use longcat_os.Vm.Like.{
  Like, core, Like-Coherent, Like-SameBytes, Like-trans, entry-Like, rest-Like,
}
use longcat_os.Vm.Sound.{Untouched-TlbOk, TlbOk, Kept}

-- What mark_clean leaves
abbrev pub cleaned : Vm → ℕ → ℕ → Vm
cleaned s ppn loc = record s {
  num_dirty = if (s.entries ppn).dirty then (s.num_dirty + 2 ^ 32 - 1) % 2 ^ 32 else s.num_dirty;
  entries = store s.entries ppn (record (s.entries ppn) { dirty = false; swap_location = loc });
}

-- The bytes of frame `ppn` are in the block of its page.
pub record Wrote (s : Vm) (ppn : ℕ) (t : Vm) : Type 0 where
  pub coherent : Coherent t
  pub kept : Kept s t
  pub same_tlbs : t.tlbs ≡ s.tlbs
  pub owner : (j : ℕ) → (t.entries j).owner ≡ (s.entries j).owner
  pub vaddr : (j : ℕ) → (t.entries j).vaddr ≡ (s.entries j).vaddr
  pub flag : (j : ℕ) → (t.entries j).tlb ≡ (s.entries j).tlb
  pub block : (t.entries ppn).swap_location ≢ 0
  pub saved : t.disk (t.entries ppn).swap_location ≡ t.ram ppn

pub Wrote-TlbOk : (cur : ℕ) (s : Vm) (ppn : ℕ) (t : Vm) → Wrote s ppn t → TlbOk cur s → TlbOk cur t
Wrote-TlbOk cur s ppn t w ok =
    Untouched-TlbOk cur s t
      (record {
        same_tlbs = w.same_tlbs;
        pages = w.kept.pages;
        flag = w.flag;
        owner = λ j r. w.owner j;
        vaddr = λ j r. w.vaddr j;
      })
      ok

module _ (s : Vm) (c : Coherent s) (ppn a : ℕ) (o : (s.entries ppn).owner ≡ some a) where
  -- The page has a block already.
  module _ (n : (s.entries ppn).swap_location ≢ 0) where
    abbrev again : Vm
    again = cleaned (rewritten s ppn) ppn (s.entries ppn).swap_location

    again-Like : Like (rewritten s ppn) again
    again-Like =
        Like-trans (rewritten s ppn) (record (rewritten s ppn) { num_dirty = again.num_dirty })
          again (rest-Like (rewritten s ppn) s.num_kpages again.num_dirty s.clock_head s.tlbs)
          (entry-Like (record (rewritten s ppn) { num_dirty = again.num_dirty }) ppn _ refl)

    again_same :
        {B : Type 0} (g : CmEntry → B) (j : ℕ)
        → g (record (s.entries ppn) { dirty = false }) ≡ g (s.entries ppn)
        → g (again.entries j) ≡ g (s.entries j)
    again_same g j e = store-proj g s.entries ppn j _ e

    pub again-Wrote : Wrote s ppn again
    again-Wrote = record {
      coherent =
          Like-Coherent (rewritten s ppn) again again-Like (rewritten-Coherent s c ppn a o n);
      kept = record {
        same_bytes = λ b v.
            Like-SameBytes (rewritten s ppn) again again-Like b v
            ∙ rewritten-SameBytes s c ppn a o n b v;
        absent = λ b v p e r. e;
        busy = λ j. again_same (λ x. x.busy) j refl;
        pages = refl;
        clock = refl;
      };
      same_tlbs = refl;
      owner = λ j. again_same (λ x. x.owner) j refl;
      vaddr = λ j. again_same (λ x. x.vaddr) j refl;
      flag = λ j. again_same (λ x. x.tlb) j refl;
      block = λ e. n (sym (again_same (λ x. x.swap_location) ppn refl) ∙ e);
      saved =
          ap again.disk (again_same (λ x. x.swap_location) ppn refl)
          ∙ store_self s.disk (s.entries ppn).swap_location (s.ram ppn);
    }

  -- The page gets a block.
  module _ (z : (s.entries ppn).swap_location ≡ 0) (b : ℕ) (m : Bitmap) (f : Fresh s.swap b m)
      (h : Holds s ppn a) where
    abbrev pub first : Vm
    first =
        cleaned
          (record s {
            swap = m;
            spaces = pte_to s.spaces a (s.entries ppn).vaddr (record h.pte { zeroed = false });
            disk = store s.disk b (s.ram ppn);
          })
          ppn b

    same_pte : record h.pte { zeroed = false } ≡ h.pte
    same_pte =
        ap (λ x. record h.pte { zeroed = x })
          (sym (c.pages a (s.entries ppn).vaddr h.pte h.at h.present).zeroed)

    first_ptes : (a' v' : ℕ) → pte_at first a' v' ≡ pte_at s a' v'
    first_ptes a' v' = elim (page-cases a (s.entries ppn).vaddr a' v') [
      | inl q ↦
          sym (pte_in-same first.spaces a (s.entries ppn).vaddr a' v' q)
          ∙ pte_to_self s.spaces a (s.entries ppn).vaddr _ h.pte h.at
          ∙ ap some same_pte
          ∙ sym h.at
          ∙ pte_in-same s.spaces a (s.entries ppn).vaddr a' v' q
      | inr n ↦ pte_to_other s.spaces a (s.entries ppn).vaddr _ h.pte h.at a' v' n
    ]

    first-Like : Like (given s ppn b m) first
    first-Like = record {
      shape = record {
        cores = λ j. store-proj_two core s.entries ppn j _ _ refl;
        ptes = first_ptes;
        same_pages = refl;
        same_swap = refl;
        same_can = refl;
      };
      same_ram = refl;
      same_disk = refl;
    }

    first_same :
        {B : Type 0} (g : CmEntry → B) (j : ℕ)
        → g (record (s.entries ppn) { dirty = false; swap_location = b }) ≡ g (s.entries ppn)
        → g (first.entries j) ≡ g (s.entries j)
    first_same g j e = store-proj g s.entries ppn j _ e

    new_location : (first.entries ppn).swap_location ≡ b
    new_location = ap (λ (x : CmEntry). x.swap_location) (store_self s.entries ppn _)

    pub first-Wrote : b ≢ 0 → Wrote s ppn first
    first-Wrote nz = record {
      coherent =
          Like-Coherent (given s ppn b m) first first-Like (given-Coherent s c ppn a b m o z f);
      kept = record {
        same_bytes = λ d v.
            Like-SameBytes (given s ppn b m) first first-Like d v
            ∙ given-SameBytes s c ppn a b m o z f d v;
        absent = λ d v p e r. first_ptes d v ∙ e;
        busy = λ j. first_same (λ x. x.busy) j refl;
        pages = refl;
        clock = refl;
      };
      same_tlbs = refl;
      owner = λ j. first_same (λ x. x.owner) j refl;
      vaddr = λ j. first_same (λ x. x.vaddr) j refl;
      flag = λ j. first_same (λ x. x.tlb) j refl;
      block = λ e. nz (sym new_location ∙ e);
      saved = ap first.disk new_location ∙ store_self s.disk b (s.ram ppn);
    }
