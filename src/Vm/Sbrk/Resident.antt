-- ===== src/Vm/Sbrk/Resident.antt =====
-- One page of the loop of sys_sbrk that shrinks the heap, where the page is in memory.
use longcat_os.Base.{
  ℕ, none, some, true, false, ◌≡◌, ◌≢◌, inl, inr, arith, refl, sym, ap, subst, ◌∙◌, ℕ_discrete, not,
}
use longcat_os.Base.Outcome.{M, ret, ◌>>=◌, ◌>>◌, kassert}
use longcat_os.Base.Gives.{bind-ret}
use longcat_os.Base.Store.{store, store_self, store_ne, store-proj}
use longcat_os.Bitmap.{Bitmap}
use longcat_os.Vm.{Vm, Pte, CmEntry, pte_at, with_pte, with_entry, entry, set_entry}
use longcat_os.Vm.Lookup.{OtherPage, pte_to_self, pte_to_other}
use longcat_os.Vm.Coherence.{Holds, InFrame, home, home_present}
use longcat_os.Vm.Like.{Like, Like-trans, core, entry-Like}
use longcat_os.Vm.Sound.{Sound, Untouched-TlbOk, flags-Sound}
use longcat_os.Vm.Search.{taken}
use longcat_os.Vm.Shoot.{Shot, flush_frame, flush_frame-Shot}
use longcat_os.Vm.Drop.{Dropping, Dropping-Coherent, dropped-bytes_self, dropped-bytes_other}
use longcat_os.Vm.Swapin.{Idle}
use longcat_os.Vm.Whole.{pte_acquire_present}
use longcat_os.Vm.Handle.{unbusy, pte_release_frame}
use longcat_os.Vm.Sbrk.{drop_frame, drop_page, gone, leave, shrink_page}
use longcat_os.Vm.Sbrk.Leave.{Unmarked, free_block, free_block-Unmarked, Dropped, shrink_page_lem}

abbrev cleared_entry : CmEntry → CmEntry
cleared_entry c = record c {
  owner = none;
  vaddr = 0;
  swap_location = 0;
  dirty = false;
  kernel = false;
}

drop_frame_lem :
    (u s t : Vm) (i : ℕ)
    → (u.entries i).kpage ≡ false
    → flush_frame u i u ≡ ret tt s
    → free_block (u.entries i).swap_location s ≡ ret tt t
    → drop_frame i u ≡ ret tt (with_entry t i (cleared_entry (t.entries i)))
unfolding drop_frame
drop_frame_lem u s t i k e f =
    ap
      (λ b.
        (kassert (not b)
            >> (flush_frame u i >> (free_block (u.entries i).swap_location >> clear_it)))
          u)
      k
    ∙ bind-ret (flush_frame u i) (λ x. free_block (u.entries i).swap_location >> clear_it) u s tt e
    ∙ bind-ret (free_block (u.entries i).swap_location) (λ x. clear_it) s t tt f
  where
    clear_it : M Vm (Unit {0})
    clear_it = do c ← entry i; set_entry i (cleared_entry c)

module _ (cur : ℕ) (s : Vm) (d : Sound cur s) (idle : Idle s) (a v : ℕ) (p : Pte)
    (e : pte_at s a v ≡ some p) where
  module _ (r : p.present ≡ true) where
    abbrev i : ℕ
    i = p.ppn

    frame : InFrame s a v p
    frame = d.coherent.pages a v p e r

    held : Holds s i a
    held = d.coherent.frames i a frame.owner

    -- The states after the shootdown (`w`) and after the block was freed, with the bitmap `m`
    module _ (w : Vm) (h : Shot cur (taken s i) i w) (m : Bitmap) (u : Unmarked s a v m) where
      abbrev freed : Vm
      freed = record w { swap = m }

      abbrev end : Vm
      end = unbusy (with_pte (with_entry freed i (cleared_entry (freed.entries i))) a v (gone p)) i

      like : Like s w
      like = Like-trans s (taken s i) w (entry-Like s i _ refl) h.like

      end_self :
          {B : Type 0} (g : CmEntry → B)
          → ((c : CmEntry) → g (record c { busy = false }) ≡ g c)
          → g (end.entries i) ≡ g (cleared_entry (w.entries i))
      end_self g f =
          ap g (store_self (store w.entries i (cleared_entry (w.entries i))) i _)
          ∙ f _
          ∙ ap g (store_self w.entries i (cleared_entry (w.entries i)))

      end_other : (j : ℕ) → i ≢ j → end.entries j ≡ w.entries j
      end_other j n =
          store_ne (store w.entries i (cleared_entry (w.entries i))) i j _ n
          ∙ store_ne w.entries i j _ n

      end_pte : (a' v' : ℕ) → OtherPage a v a' v' → pte_at end a' v' ≡ pte_at s a' v'
      end_pte a' v' n =
          pte_to_other w.spaces a v (gone p) p (like.shape.ptes a v ∙ e) a' v' n
          ∙ like.shape.ptes a' v'

      end-Dropping : Dropping s a v p (gone p) end
      end-Dropping = record {
        old = e;
        new = pte_to_self w.spaces a v (gone p) p (like.shape.ptes a v ∙ e);
        absent = refl;
        no_block = refl;
        others = end_pte;
        cores = λ j x. elim x [
          | inl y ↦ absurd (ground (arith, r, y))
          | inr n ↦ ap core (end_other j n) ∙ like.shape.cores j
        ];
        freed = λ x. (
          end_self (λ c. c.owner) (λ c. refl),
          end_self (λ c. c.kpage) (λ c. refl)
              ∙ ap (λ (c : CmEntry). c.kpage) (like.shape.cores i)
              ∙ held.no_kpage,
        );
        bits = u.bits;
        nbits = u.nbits;
        swap_ok = u.ok;
        same_ram = like.same_ram;
        same_disk = like.same_disk;
        pages = like.shape.same_pages;
        swaps = like.shape.same_can;
        block_zero = u.zero;
      }

      end_flag : (j : ℕ) → (end.entries j).tlb ≡ (w.entries j).tlb
      end_flag j = elim (ℕ_discrete i j) [
        | yes q ↦
            subst (λ k. (end.entries k).tlb ≡ (w.entries k).tlb) q
              (end_self (λ c. c.tlb) (λ c. refl))
        | no n ↦ ap (λ (c : CmEntry). c.tlb) (end_other j n)
      ]

      flagged_other : (j : ℕ) → (w.entries j).tlb ≡ true → i ≢ j
      flagged_other j x q =
          (let y = h.flag in absurd (ground (arith, x, y, ap (λ k. (w.entries k).tlb) q)))

      end-Idle : Idle end
      end-Idle j = elim (ℕ_discrete i j) [
        | yes q ↦
            subst (λ k. (end.entries k).busy ≡ false) q
              (ap (λ (c : CmEntry). c.busy)
                (store_self (store w.entries i (cleared_entry (w.entries i))) i _))
        | no n ↦
            ap (λ (c : CmEntry). c.busy) (end_other j n)
            ∙ h.busy j
            ∙ ap (λ (c : CmEntry). c.busy) (store_ne s.entries i j _ n)
            ∙ idle j
      ]

      end-Dropped : Dropped cur s a v end
      end-Dropped = record {
        sound = record {
          coherent = Dropping-Coherent s d.coherent a v p (gone p) end end-Dropping;
          tlb_ok =
              Untouched-TlbOk cur w end
                (record {
                  same_tlbs = refl;
                  pages = refl;
                  flag = end_flag;
                  owner = λ j x. ap (λ (c : CmEntry). c.owner) (end_other j (flagged_other j x));
                  vaddr = λ j x. ap (λ (c : CmEntry). c.vaddr) (end_other j (flagged_other j x));
                })
                h.tlb_ok;
        };
        idle = end-Idle;
        zeros = dropped-bytes_self s d.coherent a v p (gone p) end end-Dropping;
        same_bytes = dropped-bytes_other s d.coherent a v p (gone p) end end-Dropping;
        same_ptes = end_pte;
      }

    location : ((taken s i).entries i).swap_location ≡ home s a v
    location =
        store-proj (λ (c : CmEntry). c.swap_location) s.entries i i _ refl
        ∙ sym (home_present s.entries s.ram s.disk (pte_at s a v) p e r)

    taken_kpage : ((taken s i).entries i).kpage ≡ false
    taken_kpage = store-proj (λ (c : CmEntry). c.kpage) s.entries i i _ refl ∙ held.no_kpage

    drop_present :
        (w t : Vm)
        → flush_frame (taken s i) i (taken s i) ≡ ret tt w
        → free_block (home s a v) w ≡ ret tt t
        → drop_page p (taken s i) ≡ ret (some i) (with_entry t i (cleared_entry (t.entries i)))
    drop_present w t f g =
        let h =
          drop_frame_lem (taken s i) w t i taken_kpage f (ap (λ x. free_block x w) location ∙ g) in
        ground (arith, r, h)

    leave_present :
        (w : Vm) (h : Shot cur (taken s i) i w) (m : Bitmap) (u : Unmarked s a v m)
        → leave a v p (some i) (with_entry (freed w h m u) i (cleared_entry (w.entries i)))
          ≡ ret tt (end w h m u)
    leave_present w h m u =
        pte_release_frame
          (with_pte (with_entry (freed w h m u) i (cleared_entry (w.entries i))) a v (gone p)) i
          (ap (λ (c : CmEntry). c.kpage) (store_self w.entries i (cleared_entry (w.entries i)))
            ∙ ap (λ (c : CmEntry). c.kpage) (h.like.shape.cores i)
            ∙ taken_kpage)

    pub Dropped-present : (t : Vm) × (shrink_page a v s ≡ ret tt t) × Dropped cur s a v t
    Dropped-present =
        let l = entry-Like s i (record (s.entries i) { busy = true }) refl in
        let du =
          flags-Sound cur s (taken s i) l refl
            (λ j. store-proj (λ (c : CmEntry). c.tlb) s.entries i j _ refl) d in
        let (w, f, h) = flush_frame-Shot cur (taken s i) du.tlb_ok i in
        let (m, g, u) =
          free_block-Unmarked s d.coherent a v w h.like.shape.same_swap h.like.shape.same_can in
        (
          end w h m u,
          shrink_page_lem s (taken s i) (with_entry (freed w h m u) i (cleared_entry (w.entries i)))
              (end w h m u) a v p (some i) (some i) e
              (pte_acquire_present a s p r held.below held.no_kpage (idle i) frame.owner)
              (drop_present w (freed w h m u) f g) (leave_present w h m u),
          end-Dropped w h m u,
        )
