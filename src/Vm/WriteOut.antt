-- ===== src/Vm/WriteOut.antt =====
-- page_write_out puts the bytes of a frame into the swap block of its page, and changes no page.
use longcat_os.Base.{ℕ, some, true, false, ◌<◌, ◌≡◌, ◌≢◌, arith, sym, ap, ◌∙◌, ℕ_discrete}
use longcat_os.Base.Outcome.{ret}
use longcat_os.Base.Store.{store}
use longcat_os.Bitmap.{Bitmap}
use longcat_os.Bitmap.View.{bit_at}
use longcat_os.Vm.{Vm, Pte, pte_at, pte_to}
use longcat_os.Vm.Coherence.{Holds, Holds-home}
use longcat_os.Vm.Blocks.{not_zero, rewritten}
use longcat_os.Vm.Like.{same_location, same_owner}
use longcat_os.Vm.Sound.{Sound, Kept, Kept-trans}
use longcat_os.Vm.Transfer.{Room, swap_find_free-Fresh, swap_write_lem}
use longcat_os.Vm.Paging.{write_location, page_write_out}
use longcat_os.Vm.Swap.{swap_find_free, swap_write}
use longcat_os.Vm.Tlb.{shoot_page}
use longcat_os.Vm.Shoot.{shoot_page-Shot, Shot-Kept, Shot-Sound}
use longcat_os.Vm.Wrote.{cleaned, Wrote, Wrote-TlbOk, again-Wrote, first, first-Wrote}

write_location_again :
    (s : Vm) (ppn : ℕ)
    → (s.entries ppn).swap_location ≢ 0
    → write_location ppn s ≡ ret (s.entries ppn).swap_location s
unfolding write_location
write_location_again s ppn n = ground (arith, n)

write_location_first :
    (s : Vm) (ppn a b : ℕ) (m : Bitmap) (p : Pte)
    → (s.entries ppn).swap_location ≡ 0
    → (s.entries ppn).owner ≡ some a
    → pte_at s a (s.entries ppn).vaddr ≡ some p
    → swap_find_free s ≡ ret b (record s { swap = m })
    → b ≢ 0
    → 0 < (s.entries ppn).vaddr
    → p.ppn ≡ ppn
    → write_location ppn s
      ≡ ret b (record s {
        swap = m;
        spaces = pte_to s.spaces a (s.entries ppn).vaddr (record p { zeroed = false });
      })
unfolding write_location
write_location_first s ppn a b m p z o e f n v q = ground (arith, z, o, e, f, n, v, q)

page_write_out_lem :
    (s u w : Vm) (ppn loc : ℕ)
    → 0 < ppn
    → (s.entries ppn).kpage ≡ false
    → (s.entries ppn).busy ≡ true
    → write_location ppn s ≡ ret loc u
    → swap_write ppn loc true u ≡ ret tt w
    → page_write_out true ppn s ≡ shoot_page ppn (cleaned w ppn loc)
unfolding page_write_out
page_write_out_lem s u w ppn loc l k b e f = ground (arith, l, k, b, e, f)

-- A frame whose bytes are in its block, and whose page is not in the translation buffer
pub record Clean (cur : ℕ) (s : Vm) (ppn a : ℕ) (t : Vm) : Type 0 where
  pub sound : Sound cur t
  pub kept : Kept s t
  pub owner : (t.entries ppn).owner ≡ some a
  pub block : (t.entries ppn).swap_location ≢ 0
  pub saved : t.disk (t.entries ppn).swap_location ≡ t.ram ppn
  pub flag : (t.entries ppn).tlb ≡ false

module _ (cur : ℕ) (s : Vm) (d : Sound cur s) (ppn a : ℕ) (o : (s.entries ppn).owner ≡ some a)
    (busy : (s.entries ppn).busy ≡ true) where
  -- The end of page_write_out
  Wrote-Clean :
      (t : Vm)
      → Wrote s ppn t
      → page_write_out true ppn s ≡ shoot_page ppn t
      → (t' : Vm) × (page_write_out true ppn s ≡ ret tt t') × Clean cur s ppn a t'
  Wrote-Clean t w e =
      let (t', f, h) = shoot_page-Shot cur t (Wrote-TlbOk cur s ppn t w d.tlb_ok) ppn in
      let l : (t'.entries ppn).swap_location ≡ (t.entries ppn).swap_location =
        same_location t t' h.like.shape ppn in
      (
        t',
        e ∙ f,
        record {
          sound = Shot-Sound cur t ppn t' w.coherent h;
          kept = Kept-trans s t t' w.kept (Shot-Kept cur t ppn t' h);
          owner = same_owner t t' h.like.shape ppn ∙ w.owner ppn ∙ o;
          block = λ z. w.block (sym l ∙ z);
          saved =
              ap t'.disk l
              ∙ ap (λ g. g (t.entries ppn).swap_location) h.like.same_disk
              ∙ w.saved
              ∙ ap (λ g. g ppn) (sym h.like.same_ram);
          flag = h.flag;
        },
      )

  -- Frame 0 belongs to the kernel.
  frame_pos : (h : Holds s ppn a) → 0 < ppn
  frame_pos h = elim (ℕ_discrete ppn 0) [
    | yes q ↦
        absurd (ground (arith, d.coherent.frame_zero, h.no_kpage, ap (λ k. (s.entries k).kpage) q))
    | no n ↦ omega arith
  ]

  Clean-again :
      (h : Holds s ppn a)
      → (s.entries ppn).swap_location ≢ 0
      → (t : Vm) × (page_write_out true ppn s ≡ ret tt t) × Clean cur s ppn a t
  Clean-again h n =
      let c = d.coherent in
      let k = Holds-home s ppn a h in
      let m = c.marked a (s.entries ppn).vaddr (λ z. n (sym k ∙ z)) in
      Wrote-Clean (cleaned (rewritten s ppn) ppn (s.entries ppn).swap_location)
        (again-Wrote s c ppn a o n)
        (page_write_out_lem s s (rewritten s ppn) ppn (s.entries ppn).swap_location (frame_pos h)
          h.no_kpage busy (write_location_again s ppn n)
          (swap_write_lem s ppn (s.entries ppn).swap_location (record {
            frame = frame_pos h;
            block = omega (arith, n);
            below = omega (arith, k, m.1);
            small = omega (arith, k, m.1, c.swap_small);
            marked = ap (bit_at s.swap.v) (sym k) ∙ m.0;
            is_bitmap = c.swap_ok;
            swaps = c.swaps;
          })))

  Clean-first :
      (h : Holds s ppn a)
      → (s.entries ppn).swap_location ≡ 0
      → Room s.swap
      → (t : Vm) × (page_write_out true ppn s ≡ ret tt t) × Clean cur s ppn a t
  Clean-first h z r =
      let c = d.coherent in
      let (b, m, e, f) = swap_find_free-Fresh s c.swap_ok c.swaps r in
      let nz = not_zero s c ppn a b m o z f in
      let u = record s {
        swap = m;
        spaces = pte_to s.spaces a (s.entries ppn).vaddr (record h.pte { zeroed = false });
      } in
      Wrote-Clean (first s c ppn a o z b m f h) (first-Wrote s c ppn a o z b m f h nz) (
        page_write_out_lem s u (record u { disk = store s.disk b (s.ram ppn) }) ppn b (frame_pos h)
          h.no_kpage busy (write_location_first s ppn a b m h.pte z o h.at e nz h.mapped h.frame)
          (swap_write_lem u ppn b (record {
            frame = frame_pos h;
            block = omega (arith, nz);
            below = omega (arith, f.below, f.changed.same_nbits);
            small = omega (arith, f.below, c.swap_small);
            marked = f.changed.here;
            is_bitmap = f.changed.ok;
            swaps = c.swaps;
          })))

  -- Where a swap area of at most 2 ^ 19 blocks has room and a device that serves every transfer,
  -- page_write_out of a busy frame that holds a page saves its bytes in the swap block of the page,
  -- a new one if it had none, flushes its translation and leaves the bytes of every page as they
  -- were.
  pub page_write_out-Clean :
      Room s.swap → (t : Vm) × (page_write_out true ppn s ≡ ret tt t) × Clean cur s ppn a t
  page_write_out-Clean r = elim (ℕ_discrete (s.entries ppn).swap_location 0) [
    | yes z ↦ Clean-first (d.coherent.frames ppn a o) z r
    | no n ↦ Clean-again (d.coherent.frames ppn a o) n
  ]
