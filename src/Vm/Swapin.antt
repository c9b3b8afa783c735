-- ===== src/Vm/Swapin.antt =====
-- page_swapin brings a page into memory with the bytes that it had.
use longcat_os.Base.{
  ℕ, none, some, true, false, ◌%◌, ◌<◌, ◌≡◌, ◌≢◌, arith, refl, sym, ap, subst, ◌∙◌, Bool-cases, inl,
  inr, ℕ_discrete, if◌then◌else◌, ne→==,
}
use longcat_os.Base.Outcome.{ret}
use longcat_os.Base.Store.{store, store_self, store_ne, store-proj}
use longcat_os.Bitmap.View.{bit_at}
use longcat_os.Vm.{Vm, Pte, CmEntry, pte_at, page_size}
use longcat_os.Vm.Coherence.{SameBytes, block_of, home_absent}
use longcat_os.Vm.Map.{
  page_entry, here, content, mapped, mapped_at, mapped-Coherent, mapped-SameBytes,
}
use longcat_os.Vm.Sound.{Sound, TlbOk, Untouched-TlbOk}
use longcat_os.Vm.Transfer.{Usable, swap_read_lem}
use longcat_os.Vm.Get.{Ready, page_get-Got}
use longcat_os.Vm.Evict.{Got}
use longcat_os.Vm.Paging.{page_get, fill_frame, page_swapin}

-- The page is in frame `i`.
pub record Resident (t : Vm) (a v i : ℕ) : Type 0 where
  pub at : pte_at t a v ≡ some (here i)
  pub owner : (t.entries i).owner ≡ some a
  pub vaddr : (t.entries i).vaddr ≡ v
  pub below : i < t.num_pages

-- Nobody works on a frame.
abbrev pub Idle : Vm → Type 0
Idle s = (j : ℕ) → (s.entries j).busy ≡ false

pub record Swapped (cur : ℕ) (s : Vm) (v i : ℕ) (t : Vm) : Type 0 where
  pub sound : Sound cur t
  pub same_bytes : SameBytes s t
  pub resident : Resident t cur v i
  pub idle : Idle t
  pub fresh : (t.entries i).tlb ≡ false
  pub pages : t.num_pages ≡ s.num_pages
  pub clock : t.clock_head < t.num_pages

fill_frame_zero :
    (s : Vm) (i : ℕ) → fill_frame true i 0 s ≡ ret tt (record s { ram = store s.ram i 0 })
unfolding fill_frame
fill_frame_zero s i = refl

fill_frame_swap :
    (s : Vm) (i loc : ℕ)
    → loc ≢ 0
    → Usable s i loc
    → fill_frame true i loc s ≡ ret tt (record s { ram = store s.ram i (s.disk loc) })
unfolding fill_frame
fill_frame_swap s i loc n u = ground (arith, n, swap_read_lem s i loc u)

page_swapin_lem :
    (s g : Vm) (cur v i : ℕ) (p : Pte)
    → page_get true s ≡ ret i g
    → 0 < v
    → i < g.num_pages
    → (g.entries i).owner ≡ none
    → (g.entries i).kpage ≡ false
    → (g.entries i).busy ≡ true
    → pte_at g cur v ≡ some p
    → fill_frame true i (block_of p) g
      ≡ ret tt (record g { ram = store g.ram i (content g (block_of p)) })
    → p.present ≡ false
    → 0 < i
    → page_swapin true cur v s ≡ ret tt (mapped g i cur v (block_of p))
unfolding page_swapin
page_swapin_lem s g cur v i p e l b o k w f c n z = ground (arith, e, l, b, o, k, w, f, c, n, z)

-- A frame that nobody has is not in the translation buffer.
pub free_flag :
    (cur : ℕ) (g : Vm) (i : ℕ)
    → TlbOk cur g
    → (g.entries i).owner ≡ none
    → (g.entries i).tlb ≡ false
free_flag cur g i ok o = elim (Bool-cases (g.entries i).tlb) [
  | inr e ↦ e
  | inl e ↦
      (let (k, l, h, p, b, x) = ok.tracked i e in
        let (a, c, d) = ok.current k l x in
        absurd (ground (arith, o, c, ap (λ j. (g.entries j).owner) p)))
]

module _ (cur : ℕ) (s : Vm) (d : Sound cur s) (r : Ready s) (v : ℕ) (p : Pte)
    (e : pte_at s cur v ≡ some p) (n : p.present ≡ false) (pos : 0 < v)
    (al : v % page_size ≡ 0) where
  -- The frame that page_get gave is filled.
  module _ (i : ℕ) (g : Vm) (q : Got cur s i g) where
    frame_pos : 0 < i
    frame_pos = elim (ℕ_discrete i 0) [
      | no m ↦ omega arith
      | yes z ↦
          absurd (
            ground
              (arith, q.sound.coherent.frame_zero, q.no_kpage, ap (λ k. (g.entries k).kpage) z))
    ]

    filled :
        fill_frame true i (block_of p) g
        ≡ ret tt (record g { ram = store g.ram i (content g (block_of p)) })
    filled = elim (ℕ_discrete (block_of p) 0) [
      | yes z ↦
          subst
            (λ loc.
              fill_frame true i loc g ≡ ret tt (record g { ram = store g.ram i (content g loc) }))
            (sym z) (fill_frame_zero g i)
      | no m ↦
          (let co = q.sound.coherent in
            let k =
              home_absent g.entries g.ram g.disk (pte_at g cur v) p (q.absent cur v p e n) n in
            let w = co.marked cur v (λ z. m (sym k ∙ z)) in
            fill_frame_swap g i (block_of p) m (record {
              frame = frame_pos;
              block = omega (arith, m);
              below = omega (arith, w.1, k);
              small = omega (arith, w.1, k, co.swap_small);
              marked = ap (bit_at g.swap.v) (sym k) ∙ w.0;
              is_bitmap = co.swap_ok;
              swaps = co.swaps;
            })
            ∙ ap
                (λ x.
                  ret tt (record g { ram = store g.ram i (if x then 0 else g.disk (block_of p)) }))
                (sym (ne→== (block_of p) 0 m)))
    ]

    abbrev back : Vm
    back = mapped g i cur v (block_of p)

    back_self : back.entries i ≡ page_entry cur v (block_of p)
    back_self = store_self g.entries i _

    back_other : (j : ℕ) → i ≢ j → back.entries j ≡ g.entries j
    back_other j m = store_ne g.entries i j _ m

    flagged_other : (j : ℕ) → (g.entries j).tlb ≡ true → i ≢ j
    flagged_other j t m =
        absurd (
          ground
            (arith, t, free_flag cur g i q.sound.tlb_ok q.owner, ap (λ k. (g.entries k).tlb) m))

    back-Sound : Sound cur back
    back-Sound = record {
      coherent =
          mapped-Coherent g q.sound.coherent i cur v p q.owner q.below q.no_kpage
            (q.absent cur v p e n) n pos al;
      tlb_ok =
          Untouched-TlbOk cur g back
            (record {
              same_tlbs = refl;
              pages = refl;
              flag = λ j.
                  store-proj (λ (x : CmEntry). x.tlb) g.entries i j _
                    (sym (free_flag cur g i q.sound.tlb_ok q.owner));
              owner = λ j t. ap (λ (x : CmEntry). x.owner) (back_other j (flagged_other j t));
              vaddr = λ j t. ap (λ (x : CmEntry). x.vaddr) (back_other j (flagged_other j t));
            })
            q.sound.tlb_ok;
    }

    back-Idle : Idle s → Idle back
    back-Idle f j = elim (ℕ_discrete i j) [
      | yes m ↦ ap (λ k. (back.entries k).busy) (sym m) ∙ ap (λ (x : CmEntry). x.busy) back_self
      | no m ↦ ap (λ (x : CmEntry). x.busy) (back_other j m) ∙ q.others j m ∙ f j
    ]

    back-Swapped : Idle s → Swapped cur s v i back
    back-Swapped f = record {
      sound = back-Sound;
      same_bytes = λ a x.
          mapped-SameBytes g q.sound.coherent i cur v p q.owner q.below q.no_kpage
            (q.absent cur v p e n) n pos al a x
          ∙ q.same_bytes a x;
      resident = record {
        at =
            mapped_at g q.sound.coherent i cur v p q.owner q.below q.no_kpage (q.absent cur v p e n)
              n pos al;
        owner = ap (λ (x : CmEntry). x.owner) back_self;
        vaddr = ap (λ (x : CmEntry). x.vaddr) back_self;
        below = q.below;
      };
      idle = back-Idle f;
      fresh = ap (λ (x : CmEntry). x.tlb) back_self;
      pages = q.pages;
      clock = q.clock;
    }

  -- page_swapin of a page that is not in memory brings it there; every page has the bytes that it had.
  pub page_swapin-Swapped :
      Idle s → (i : ℕ) × (t : Vm) × (page_swapin true cur v s ≡ ret tt t) × Swapped cur s v i t
  page_swapin-Swapped f =
      let (i, g, u, q) = page_get-Got cur s d r in
      (
        i,
        back i g q,
        page_swapin_lem s g cur v i p u pos q.below q.owner q.no_kpage q.busy (q.absent cur v p e n)
            (filled i g q) n (frame_pos i g q),
        back-Swapped i g q f,
      )
