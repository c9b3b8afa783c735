-- ===== src/Vm/Protect.antt =====
-- Whether a page may be written is no part of the invariant.
use longcat_os.Base.{ℕ, some, Bool, ◌/◌, ◌^◌, ◌≡◌, inl, inr, arith, refl, sym, ap, ◌∙◌}
use mathlib.Core.Option.{some-injective}
use longcat_os.Bitmap.View.{bit_at}
use longcat_os.Vm.{Vm, Pte, pte_at, with_pte}
use longcat_os.Vm.Lookup.{OtherPage, page-cases, pte_in-same, pte_to_self, pte_to_other}
use longcat_os.Vm.Coherence.{Coherent, SameBytes, home, pte_home, pte_bytes, home-same, bytes-same}
use longcat_os.Vm.Sound.{Sound, Untouched-TlbOk}

module _ (s : Vm) (c : Coherent s) (a v : ℕ) (p : Pte) (e : pte_at s a v ≡ some p) (w : Bool) where
  abbrev pub protected : Vm
  protected = with_pte s a v (record p { writeable = w })

  pub protected_at : pte_at protected a v ≡ some (record p { writeable = w })
  protected_at = pte_to_self s.spaces a v _ p e

  protected_other : (a' v' : ℕ) → OtherPage a v a' v' → pte_at protected a' v' ≡ pte_at s a' v'
  protected_other a' v' n = pte_to_other s.spaces a v _ p e a' v' n

  -- Every entry that was there is there up to the flag, and no other.
  record Same (q q' : Pte) : Type 0 where
    ppn : q'.ppn ≡ q.ppn
    valid : q'.valid ≡ q.valid
    present : q'.present ≡ q.present
    zeroed : q'.zeroed ≡ q.zeroed

  Same-self : (q q' : Pte) → q' ≡ q → Same q q'
  Same-self q q' e = record {
    ppn = ap (λ (x : Pte). x.ppn) e;
    valid = ap (λ (x : Pte). x.valid) e;
    present = ap (λ (x : Pte). x.present) e;
    zeroed = ap (λ (x : Pte). x.zeroed) e;
  }

  Same-flag : (q q' : Pte) → p ≡ q → record p { writeable = w } ≡ q' → Same q q'
  Same-flag q q' f g = record {
    ppn = ap (λ (x : Pte). x.ppn) (sym g) ∙ ap (λ (x : Pte). x.ppn) f;
    valid = ap (λ (x : Pte). x.valid) (sym g) ∙ ap (λ (x : Pte). x.valid) f;
    present = ap (λ (x : Pte). x.present) (sym g) ∙ ap (λ (x : Pte). x.present) f;
    zeroed = ap (λ (x : Pte). x.zeroed) (sym g) ∙ ap (λ (x : Pte). x.zeroed) f;
  }

  forward :
      (a' v' : ℕ) (q : Pte)
      → pte_at s a' v' ≡ some q
      → (q' : Pte) × (pte_at protected a' v' ≡ some q') × Same q q'
  forward a' v' q f = elim (page-cases a v a' v') [
    | inl m ↦
        (let g = some-injective p q (sym e ∙ pte_in-same s.spaces a v a' v' m ∙ f) in
          (
            record p { writeable = w },
            sym (pte_in-same protected.spaces a v a' v' m) ∙ protected_at,
            Same-flag q _ g refl,
          ))
    | inr n ↦ (q, protected_other a' v' n ∙ f, Same-self q q refl)
  ]

  backward :
      (a' v' : ℕ) (q' : Pte)
      → pte_at protected a' v' ≡ some q'
      → (q : Pte) × (pte_at s a' v' ≡ some q) × Same q q'
  backward a' v' q' f = elim (page-cases a v a' v') [
    | inl m ↦ (
      p,
      sym (pte_in-same s.spaces a v a' v' m) ∙ e,
      Same-flag p q' refl
          (some-injective _ q' (sym protected_at ∙ pte_in-same protected.spaces a v a' v' m ∙ f)),
    )
    | inr n ↦ (q', sym (protected_other a' v' n) ∙ f, Same-self q' q' refl)
  ]

  pub protected-home : (a' v' : ℕ) → home protected a' v' ≡ home s a' v'
  protected-home a' v' = elim (page-cases a v a' v') [
    | inl m ↦
        sym (home-same protected a v a' v' m)
        ∙ ap (pte_home s.entries) protected_at
        ∙ sym (ap (pte_home s.entries) e)
        ∙ home-same s a v a' v' m
    | inr n ↦ ap (pte_home s.entries) (protected_other a' v' n)
  ]

  pub protected-SameBytes : SameBytes s protected
  protected-SameBytes a' v' = elim (page-cases a v a' v') [
    | inl m ↦
        sym (bytes-same protected a v a' v' m)
        ∙ ap (pte_bytes s.ram s.disk) protected_at
        ∙ sym (ap (pte_bytes s.ram s.disk) e)
        ∙ bytes-same s a v a' v' m
    | inr n ↦ ap (pte_bytes s.ram s.disk) (protected_other a' v' n)
  ]

  pub protected-Coherent : Coherent protected
  protected-Coherent = record {
    frames = λ i b o.
        (let h = c.frames i b o in
          let (q, f, m) = forward b (s.entries i).vaddr h.pte h.at in
          record {
            pte = q;
            at = f;
            present = m.present ∙ h.present;
            frame = m.ppn ∙ h.frame;
            below = h.below;
            mapped = h.mapped;
            aligned = h.aligned;
            no_kpage = h.no_kpage;
          });
    pages = λ b x q f r.
        (let (q', g, m) = backward b x q f in
          let k = c.pages b x q' g (sym m.present ∙ r) in
          record {
            owner = ap (λ j. (s.entries j).owner) m.ppn ∙ k.owner;
            page = ap (λ j. (s.entries j).vaddr / 2 ^ 12) m.ppn ∙ k.page;
            valid = m.valid ∙ k.valid;
            zeroed = m.zeroed ∙ k.zeroed;
          });
    homes = λ a1 v1 a2 v2 n f.
        c.homes a1 v1 a2 v2 (λ x. n (protected-home a1 v1 ∙ x))
          (sym (protected-home a1 v1) ∙ f ∙ protected-home a2 v2);
    marked = λ a1 v1 n.
        (let k = c.marked a1 v1 (λ x. n (protected-home a1 v1 ∙ x)) in
          (
            ap (bit_at s.swap.v) (protected-home a1 v1) ∙ k.0,
            omega (arith, k.1, protected-home a1 v1),
          ));
    swap_ok = c.swap_ok;
    block_zero = c.block_zero;
    swap_small = c.swap_small;
    pages_small = c.pages_small;
    swaps = c.swaps;
    frame_zero = c.frame_zero;
  }

  pub protected-Sound : (cur : ℕ) → Sound cur s → Sound cur protected
  protected-Sound cur d = record {
    coherent = protected-Coherent;
    tlb_ok =
        Untouched-TlbOk cur s protected
          (record {
            same_tlbs = refl;
            pages = refl;
            flag = λ j. refl;
            owner = λ j r. refl;
            vaddr = λ j r. refl;
          })
          d.tlb_ok;
  }
