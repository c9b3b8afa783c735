-- ===== src/Vm/Kmem/Claim.antt =====
-- The kernel takes frames that nobody has.
use longcat_os.Base.{
  ℕ, none, some, true, false, ◌/◌, ◌^◌, ◌≡◌, ◌≢◌, inl, inr, arith, refl, sym, ap, subst, ◌∙◌,
  ℕ_discrete, Option-cases, Bool-cases,
}
use longcat_os.Vm.{Vm, Pte, CmEntry, pte_at}
use longcat_os.Vm.Coherence.{
  Coherent, Holds, SameBytes, home, pte_home, pte_bytes, home_present, home_absent, bytes_present,
  bytes_absent,
}
use longcat_os.Vm.Sound.{Sound, Untouched-TlbOk}
use longcat_os.Vm.Swapin.{free_flag}
use longcat_os.Bitmap.View.{bit_at}

-- Frame `i` changes its entry and its bytes.
abbrev pub changed : Vm → (ℕ → CmEntry) → (ℕ → ℕ) → Vm
changed s entries ram = record s { entries = entries; ram = ram }

module _ (cur : ℕ) (s : Vm) (d : Sound cur s) (i : ℕ) (e : ℕ → CmEntry) (r : ℕ → ℕ)
    (other : (j : ℕ) → i ≢ j → e j ≡ s.entries j) (same_ram : (j : ℕ) → i ≢ j → r j ≡ s.ram j)
    (o : (s.entries i).owner ≡ none) (co : (e i).owner ≡ none) (ck : i ≡ 0 → (e i).kpage ≡ true)
    (ct : (e i).tlb ≡ false) where
  abbrev next : Vm
  next = changed s e r

  not_in : (a v : ℕ) (p : Pte) → pte_at s a v ≡ some p → p.present ≡ true → i ≢ p.ppn
  not_in a v p f' r' n =
      let f = (d.coherent.pages a v p f' r').owner in
      absurd (ground (arith, f, o, ap (λ k. (s.entries k).owner) n))

  owned : (j a : ℕ) → (e j).owner ≡ some a → i ≢ j
  owned j a f q = absurd (ground (arith, f, co, ap (λ k. (e k).owner) q))

  next_home : (a v : ℕ) → home next a v ≡ home s a v
  next_home a v = elim (Option-cases (pte_at s a v)) [
    | inl f ↦ ap (pte_home next.entries) f ∙ sym (ap (pte_home s.entries) f)
    | inr (p, f) ↦ elim (Bool-cases p.present) [
      | inl w ↦
          home_present next.entries s.ram s.disk (pte_at s a v) p f w
          ∙ ap (λ (y : CmEntry). y.swap_location) (other p.ppn (not_in a v p f w))
          ∙ sym (home_present s.entries s.ram s.disk (pte_at s a v) p f w)
      | inr w ↦
          home_absent next.entries s.ram s.disk (pte_at s a v) p f w
          ∙ sym (home_absent s.entries s.ram s.disk (pte_at s a v) p f w)
    ]
  ]

  pub changed-SameBytes : SameBytes s next
  changed-SameBytes a v = elim (Option-cases (pte_at s a v)) [
    | inl f ↦ ap (pte_bytes next.ram next.disk) f ∙ sym (ap (pte_bytes s.ram s.disk) f)
    | inr (p, f) ↦ elim (Bool-cases p.present) [
      | inl w ↦
          bytes_present s.entries next.ram s.disk (pte_at s a v) p f w
          ∙ same_ram p.ppn (not_in a v p f w)
          ∙ sym (bytes_present s.entries s.ram s.disk (pte_at s a v) p f w)
      | inr w ↦
          bytes_absent s.entries next.ram s.disk (pte_at s a v) p f w
          ∙ sym (bytes_absent s.entries s.ram s.disk (pte_at s a v) p f w)
    ]
  ]

  next_frames : (j a : ℕ) → (next.entries j).owner ≡ some a → Holds next j a
  next_frames j a f =
      let q = other j (owned j a f) in
      let h = d.coherent.frames j a (sym (ap (λ (y : CmEntry). y.owner) q) ∙ f) in
      let w = ap (λ (y : CmEntry). y.vaddr) q in
      record {
        pte = h.pte;
        at = ap (pte_at s a) w ∙ h.at;
        present = h.present;
        frame = h.frame;
        below = h.below;
        mapped = omega (arith, h.mapped, w);
        aligned = omega (arith, h.aligned, w);
        no_kpage = ap (λ (y : CmEntry). y.kpage) q ∙ h.no_kpage;
      }

  next-Coherent : Coherent next
  next-Coherent =
      let b = d.coherent in
      record {
        frames = next_frames;
        pages = λ a v p f w.
            (let g = b.pages a v p f w in
              let q = other p.ppn (not_in a v p f w) in
              record {
                owner = ap (λ (y : CmEntry). y.owner) q ∙ g.owner;
                page = ap (λ (y : CmEntry). y.vaddr / 2 ^ 12) q ∙ g.page;
                valid = g.valid;
                zeroed = g.zeroed;
              });
        homes = λ a1 v1 a2 v2 n f.
            b.homes a1 v1 a2 v2 (λ y. n (next_home a1 v1 ∙ y))
              (sym (next_home a1 v1) ∙ f ∙ next_home a2 v2);
        marked = λ a1 v1 n.
            (let k = b.marked a1 v1 (λ y. n (next_home a1 v1 ∙ y)) in
              (ap (bit_at s.swap.v) (next_home a1 v1) ∙ k.0, omega (arith, k.1, next_home a1 v1)));
        swap_ok = b.swap_ok;
        block_zero = b.block_zero;
        swap_small = b.swap_small;
        pages_small = b.pages_small;
        swaps = b.swaps;
        frame_zero = elim (ℕ_discrete i 0) [
          | yes q ↦ ap (λ k. (next.entries k).kpage) (sym q) ∙ ck q
          | no n ↦ ap (λ (y : CmEntry). y.kpage) (other 0 n) ∙ b.frame_zero
        ];
      }

  flagged : (j : ℕ) → (s.entries j).tlb ≡ true → i ≢ j
  flagged j g q =
      let f = free_flag cur s i d.tlb_ok o in
      absurd (ground (arith, g, f, ap (λ k. (s.entries k).tlb) q))

  pub changed-Sound : Sound cur next
  changed-Sound = record {
    coherent = next-Coherent;
    tlb_ok =
        Untouched-TlbOk cur s next
          (record {
            same_tlbs = refl;
            pages = refl;
            flag = λ j. elim (ℕ_discrete i j) [
              | no n ↦ ap (λ (y : CmEntry). y.tlb) (other j n)
              | yes q ↦
                  subst (λ k. (next.entries k).tlb ≡ (s.entries k).tlb) q
                    (ct ∙ sym (free_flag cur s i d.tlb_ok o))
            ];
            owner = λ j f. ap (λ (y : CmEntry). y.owner) (other j (flagged j f));
            vaddr = λ j f. ap (λ (y : CmEntry). y.vaddr) (other j (flagged j f));
          })
          d.tlb_ok;
  }
