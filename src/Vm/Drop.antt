-- ===== src/Vm/Drop.antt =====
-- A page leaves its address space: its frame and its swap block are free again, and it reads as zeros.
use longcat_os.Base.{
  ℕ, none, some, true, false, ◌/◌, ◌^◌, ◌≡◌, ◌≢◌, ◌⊎◌, inl, inr, arith, sym, ap, ◌∙◌, if◌then◌else◌,
  ◌==◌, Option-cases, Bool-cases,
}
use mathlib.Core.Option.{some-injective}
use longcat_os.Bitmap.View.{bit_at, IsBitmap}
use longcat_os.Vm.{Vm, Pte, CmEntry, pte_at}
use longcat_os.Vm.Lookup.{OtherPage, page-cases, pte_in-same}
use longcat_os.Vm.Coherence.{
  Coherent, Holds, InFrame, home, pte_home, bytes, pte_bytes, block_of, home-same, one_page,
  home_present, home_absent, bytes_absent,
}
use longcat_os.Vm.Like.{core}
use longcat_os.Vm.Blocks.{Other-not_same, SamePage-sym}

-- The page at `v`, whose entry was `p`, is dropped; its entry is `p'` now.
pub record Dropping (s : Vm) (a v : ℕ) (p p' : Pte) (t : Vm) : Type 0 where
  pub old : pte_at s a v ≡ some p
  pub new : pte_at t a v ≡ some p'
  pub absent : p'.present ≡ false
  pub no_block : block_of p' ≡ 0
  pub others : (a' v' : ℕ) → OtherPage a v a' v' → pte_at t a' v' ≡ pte_at s a' v'
  pub cores : (j : ℕ) → (p.present ≡ false) ⊎ (p.ppn ≢ j) → core (t.entries j) ≡ core (s.entries j)
  pub freed :
      p.present ≡ true → ((t.entries p.ppn).owner ≡ none) × ((t.entries p.ppn).kpage ≡ false)
  pub bits : (b : ℕ) → home s a v ≢ b → bit_at t.swap.v b ≡ bit_at s.swap.v b
  pub nbits : t.swap.nbits ≡ s.swap.nbits
  pub swap_ok : IsBitmap t.swap
  pub same_ram : t.ram ≡ s.ram
  pub same_disk : t.disk ≡ s.disk
  pub pages : t.num_pages ≡ s.num_pages
  pub swaps : t.can_swap ≡ s.can_swap
  pub block_zero : bit_at t.swap.v 0 ≡ 1

module _ (s : Vm) (c : Coherent s) (a v : ℕ) (p p' : Pte) (t : Vm) (d : Dropping s a v p p' t) where
  -- A frame with a page other than the dropped one
  untouched :
      (a' v' : ℕ) (q : Pte)
      → OtherPage a v a' v'
      → pte_at s a' v' ≡ some q
      → q.present ≡ true
      → core (t.entries q.ppn) ≡ core (s.entries q.ppn)
  untouched a' v' q n e r = d.cores q.ppn (elim (Bool-cases p.present) [
    | inr x ↦ inl x
    | inl x ↦ inr (λ f. Other-not_same a v a' v' n (one_page s c a v a' v' p q d.old x e r f))
  ])

  pub dropped-home_self : home t a v ≡ 0
  dropped-home_self =
      home_absent t.entries t.ram t.disk (pte_at t a v) p' d.new d.absent ∙ d.no_block

  pub dropped-home_other : (a' v' : ℕ) → OtherPage a v a' v' → home t a' v' ≡ home s a' v'
  dropped-home_other a' v' n =
      ap (pte_home t.entries) (d.others a' v' n) ∙ (elim (Option-cases (pte_at s a' v')) [
        | inl e ↦ ap (pte_home t.entries) e ∙ sym (ap (pte_home s.entries) e)
        | inr (q, e) ↦ elim (Bool-cases q.present) [
          | inl r ↦
              home_present t.entries s.ram s.disk (pte_at s a' v') q e r
              ∙ ap (λ (x : CmEntry). x.swap_location) (untouched a' v' q n e r)
              ∙ sym (home_present s.entries s.ram s.disk (pte_at s a' v') q e r)
          | inr r ↦
              home_absent t.entries s.ram s.disk (pte_at s a' v') q e r
              ∙ sym (home_absent s.entries s.ram s.disk (pte_at s a' v') q e r)
        ]
      ])

  -- Where a page still has a block, it is another page, and the block is the one that it had.
  still_home : (a' v' : ℕ) → home t a' v' ≢ 0 → OtherPage a v a' v' × (home t a' v' ≡ home s a' v')
  still_home a' v' n = elim (page-cases a v a' v') [
    | inl m ↦ absurd (n (sym (home-same t a v a' v' m) ∙ dropped-home_self))
    | inr m ↦ (m, dropped-home_other a' v' m)
  ]

  pub dropped-bytes_self : bytes t a v ≡ 0
  dropped-bytes_self =
      bytes_absent t.entries t.ram t.disk (pte_at t a v) p' d.new d.absent
      ∙ ap (λ x. if x == 0 then 0 else t.disk x) d.no_block

  pub dropped-bytes_other : (a' v' : ℕ) → OtherPage a v a' v' → bytes t a' v' ≡ bytes s a' v'
  dropped-bytes_other a' v' n =
      ap (pte_bytes t.ram t.disk) (d.others a' v' n)
      ∙ ap (λ x. pte_bytes x t.disk (pte_at s a' v')) d.same_ram
      ∙ ap (λ x. pte_bytes s.ram x (pte_at s a' v')) d.same_disk

  dropped_frames : (i b : ℕ) → (t.entries i).owner ≡ some b → Holds t i b
  dropped_frames i b o =
      let same : core (t.entries i) ≡ core (s.entries i) = d.cores i (elim (Bool-cases p.present) [
        | inr x ↦ inl x
        | inl x ↦ inr (λ q.
            (let f = (d.freed x).0 in
              absurd (ground (arith, o, f, ap (λ k. (t.entries k).owner) q))))
      ]) in
      let h = c.frames i b (sym (ap (λ (x : CmEntry). x.owner) same) ∙ o) in
      let w = ap (λ (x : CmEntry). x.vaddr) same in
      let n : OtherPage a v b (s.entries i).vaddr = elim (page-cases a v b (s.entries i).vaddr) [
        | inr m ↦ m
        | inl m ↦
            (let q =
                some-injective p h.pte
                  (sym d.old ∙ pte_in-same s.spaces a v b (s.entries i).vaddr m ∙ h.at) in
              let x : p.present ≡ true = ap (λ (z : Pte). z.present) q ∙ h.present in
              let f = (d.freed x).0 in
              let y : p.ppn ≡ i = ap (λ (z : Pte). z.ppn) q ∙ h.frame in
              absurd (ground (arith, o, f, ap (λ k. (t.entries k).owner) y)))
      ] in
      record {
        pte = h.pte;
        at = ap (pte_at t b) w ∙ d.others b (s.entries i).vaddr n ∙ h.at;
        present = h.present;
        frame = h.frame;
        below = omega (arith, h.below, d.pages);
        mapped = omega (arith, h.mapped, w);
        aligned = omega (arith, h.aligned, w);
        no_kpage = ap (λ (x : CmEntry). x.kpage) same ∙ h.no_kpage;
      }

  dropped_pages : (b x : ℕ) (q : Pte) → pte_at t b x ≡ some q → q.present ≡ true → InFrame t b x q
  dropped_pages b x q e r = elim (page-cases a v b x) [
    | inl m ↦
        (let f = some-injective p' q (sym d.new ∙ pte_in-same t.spaces a v b x m ∙ e) in
          let y = d.absent in absurd (ground (arith, r, y, ap (λ (z : Pte). z.present) f)))
    | inr n ↦
        (let e' = sym (d.others b x n) ∙ e in
          let g = c.pages b x q e' r in
          let u = untouched b x q n e' r in
          record {
            owner = ap (λ (z : CmEntry). z.owner) u ∙ g.owner;
            page = ap (λ (z : CmEntry). z.vaddr / 2 ^ 12) u ∙ g.page;
            valid = g.valid;
            zeroed = g.zeroed;
          })
  ]

  pub Dropping-Coherent : Coherent t
  Dropping-Coherent = record {
    frames = dropped_frames;
    pages = dropped_pages;
    homes = λ a1 v1 a2 v2 n e.
        (let (m1, h1) = still_home a1 v1 n in
          let (m2, h2) = still_home a2 v2 (λ z. n (e ∙ z)) in
          c.homes a1 v1 a2 v2 (λ z. n (h1 ∙ z)) (sym h1 ∙ e ∙ h2));
    marked = λ a1 v1 n.
        (let (m1, h1) = still_home a1 v1 n in
          let k = c.marked a1 v1 (λ z. n (h1 ∙ z)) in
          let other : home s a v ≢ home s a1 v1 = (λ z.
            Other-not_same a v a1 v1 m1
              (SamePage-sym a1 v1 a v (c.homes a1 v1 a v (λ y. n (h1 ∙ y)) (sym z)))) in
          (
            ap (bit_at t.swap.v) h1 ∙ d.bits (home s a1 v1) other ∙ k.0,
            omega (arith, k.1, h1, d.nbits),
          ));
    swap_ok = d.swap_ok;
    block_zero = d.block_zero;
    swap_small = omega (arith, c.swap_small, d.nbits);
    pages_small = omega (arith, c.pages_small, d.pages);
    swaps = d.swaps ∙ c.swaps;
    frame_zero = (elim (Bool-cases p.present) [
      | inr x ↦ ap (λ (z : CmEntry). z.kpage) (d.cores 0 (inl x)) ∙ c.frame_zero
      | inl x ↦
          ap (λ (z : CmEntry). z.kpage)
            (d.cores 0 (
              inr (λ q.
                (let h = c.frames p.ppn a (c.pages a v p d.old x).owner in
                  let y = c.frame_zero in
                  let w = h.no_kpage in
                  absurd (ground (arith, y, w, ap (λ k. (s.entries k).kpage) q))))))
          ∙ c.frame_zero
    ]);
  }
