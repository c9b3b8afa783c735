-- ===== src/Vm/Sbrk/Table.antt =====
-- A new page table holds no page.
use longcat_os.Base.{
  ℕ, none, some, true, ◌^◌, ◌<◌, ◌≡◌, ◌⊎◌, inl, inr, arith, refl, sym, ap, subst, ◌∙◌, ℕ_discrete,
  Option-cases, lt→ltb,
}
use mathlib.Core.Option.{some-injective}
use longcat_os.Base.Outcome.{ret}
use longcat_os.Base.Store.{store}
use longcat_os.Bitmap.View.{bit_at}
use longcat_os.Vm.{Vm, Space, Pte, pte_at, pd_size, vaddr_to_pt, vaddr_to_pte, dir_read}
use longcat_os.Vm.Lookup.{with_pd_other, with_pd_here, dir_read_new, dir_read_ne}
use longcat_os.Vm.Coherence.{Coherent, SameBytes, home, pte_home, pte_bytes}
use longcat_os.Vm.Sound.{Sound, Untouched-TlbOk}
use longcat_os.Vm.Fault.{zero_pte, new_table}
use longcat_os.Vm.Sbrk.{ensure_table}

-- Entries were added for pages that had none; all else is as it was.
pub record Widened (s t : Vm) : Type 0 where
  pub ptes :
      (a v : ℕ)
      → (pte_at t a v ≡ pte_at s a v) ⊎ ((pte_at s a v ≡ none) × (pte_at t a v ≡ some zero_pte))
  pub same : t ≡ record s { spaces = t.spaces }

no_table_pte : (s : Vm) (a v : ℕ) → (s.spaces a).pd (vaddr_to_pt v) ≡ none → pte_at s a v ≡ none
unfolding dir_read
no_table_pte s a v e = ground (arith, e)

pub new_table-Widened :
    (s : Vm) (a i : ℕ) → i < pd_size → (s.spaces a).pd i ≡ none → Widened s (new_table s a i)
new_table-Widened s a i l e = record {
  ptes = λ b v. elim (ℕ_discrete a b) [
    | no n ↦ inl (with_pd_other s.spaces a 0 zero_pte _ b v n)
    | yes q ↦
        subst
          (λ c.
            (pte_at (new_table s a i) c v ≡ pte_at s c v)
            ⊎ ((pte_at s c v ≡ none) × (pte_at (new_table s a i) c v ≡ some zero_pte)))
          q
          (elim (ℕ_discrete i (vaddr_to_pt v)) [
            | no n ↦ inl (
                with_pd_here s.spaces a 0 zero_pte _ v
                ∙ dir_read_ne (s.spaces a).pd i (vaddr_to_pt v) (vaddr_to_pte v) _ n)
            | yes r ↦ inr (
              no_table_pte s a v (ap (s.spaces a).pd (sym r) ∙ e),
              with_pd_here s.spaces a 0 zero_pte _ v
                  ∙ subst
                      (λ k.
                        dir_read (store (s.spaces a).pd i (some (λ j. zero_pte))) k (vaddr_to_pte v)
                        ≡ some zero_pte)
                      r (dir_read_new (s.spaces a).pd i (vaddr_to_pte v) (λ j. zero_pte) l),
            )
          ])
  ];
  same = refl;
}

module _ (s : Vm) (spaces : ℕ → Space) (w : Widened s (record s { spaces = spaces })) where
  abbrev wide : Vm
  wide = record s { spaces = spaces }

  wide-home : (a v : ℕ) → home wide a v ≡ home s a v
  wide-home a v = elim (w.ptes a v) [
    | inl e ↦ ap (pte_home s.entries) e
    | inr (e, f) ↦ ap (pte_home s.entries) f ∙ sym (ap (pte_home s.entries) e)
  ]

  pub wide-SameBytes : SameBytes s wide
  wide-SameBytes a v = elim (w.ptes a v) [
    | inl e ↦ ap (pte_bytes s.ram s.disk) e
    | inr (e, f) ↦ ap (pte_bytes s.ram s.disk) f ∙ sym (ap (pte_bytes s.ram s.disk) e)
  ]

  pub wide_old : (a v : ℕ) (p : Pte) → pte_at s a v ≡ some p → pte_at wide a v ≡ some p
  wide_old a v p e = elim (w.ptes a v) [
    | inl f ↦ f ∙ e
    | inr (f, g) ↦ absurd (ground (arith, e, f))
  ]

  pub wide_back :
      (a v : ℕ) (p : Pte) → pte_at wide a v ≡ some p → (pte_at s a v ≡ some p) ⊎ (p ≡ zero_pte)
  wide_back a v p e = elim (w.ptes a v) [
    | inl f ↦ inl (sym f ∙ e)
    | inr (f, g) ↦ inr (some-injective p zero_pte (sym e ∙ g))
  ]

  wide_present :
      (a v : ℕ) (p : Pte) → pte_at wide a v ≡ some p → p.present ≡ true → pte_at s a v ≡ some p
  wide_present a v p e r = elim (w.ptes a v) [
    | inl f ↦ sym f ∙ e
    | inr (f, g) ↦
        (let q = ap (λ (x : Pte). x.present) (some-injective zero_pte p (sym g ∙ e)) in
          absurd (ground (arith, r, q)))
  ]

  wide-Coherent : Coherent s → Coherent wide
  wide-Coherent c = record {
    frames = λ i b o.
        (let h = c.frames i b o in
          record {
            pte = h.pte;
            at = wide_old b (s.entries i).vaddr h.pte h.at;
            present = h.present;
            frame = h.frame;
            below = h.below;
            mapped = h.mapped;
            aligned = h.aligned;
            no_kpage = h.no_kpage;
          });
    pages = λ b v p e r.
        (let g = c.pages b v p (wide_present b v p e r) r in
          record { owner = g.owner; page = g.page; valid = g.valid; zeroed = g.zeroed });
    homes = λ a1 v1 a2 v2 n e.
        c.homes a1 v1 a2 v2 (λ x. n (wide-home a1 v1 ∙ x))
          (sym (wide-home a1 v1) ∙ e ∙ wide-home a2 v2);
    marked = λ a1 v1 n.
        (let k = c.marked a1 v1 (λ x. n (wide-home a1 v1 ∙ x)) in
          (ap (bit_at s.swap.v) (wide-home a1 v1) ∙ k.0, omega (arith, k.1, wide-home a1 v1)));
    swap_ok = c.swap_ok;
    block_zero = c.block_zero;
    swap_small = c.swap_small;
    pages_small = c.pages_small;
    swaps = c.swaps;
    frame_zero = c.frame_zero;
  }

  pub wide-Sound : (cur : ℕ) → Sound cur s → Sound cur wide
  wide-Sound cur d = record {
    coherent = wide-Coherent d.coherent;
    tlb_ok =
        Untouched-TlbOk cur s wide
          (record {
            same_tlbs = refl;
            pages = refl;
            flag = λ j. refl;
            owner = λ j r. refl;
            vaddr = λ j r. refl;
          })
          d.tlb_ok;
  }

-- Below the kernel's half and with memory there is a page table afterwards.
pub record Tabled (cur : ℕ) (s : Vm) (a v : ℕ) (t : Vm) : Type 0 where
  pub sound : Sound cur t
  pub same_bytes : SameBytes s t
  pub old : (b x : ℕ) (p : Pte) → pte_at s b x ≡ some p → pte_at t b x ≡ some p
  pub pte : Pte
  pub at : pte_at t a v ≡ some pte
  pub back : (b x : ℕ) (p : Pte) → pte_at t b x ≡ some p → (pte_at s b x ≡ some p) ⊎ (p ≡ zero_pte)
  pub entries : t.entries ≡ s.entries

table_kept :
    (s : Vm) (a v : ℕ) (tab : ℕ → Pte)
    → v < 2 ^ 31
    → (s.spaces a).pd (vaddr_to_pt v) ≡ some tab
    → (ensure_table true a v s ≡ ret tt s) × (pte_at s a v ≡ some (tab (vaddr_to_pte v)))
unfolding ensure_table dir_read
table_kept s a v tab l e =
    let x = lt→ltb (vaddr_to_pt v) pd_size (omega arith) in
    (ground (arith, x, e), ground (arith, x, e))

table_made :
    (s : Vm) (a v : ℕ)
    → v < 2 ^ 31
    → (s.spaces a).pd (vaddr_to_pt v) ≡ none
    → ensure_table true a v s ≡ ret tt (new_table s a (vaddr_to_pt v))
unfolding ensure_table
table_made s a v l e = let x = lt→ltb (vaddr_to_pt v) pd_size (omega arith) in ground (arith, x, e)

pub ensure_table-Tabled :
    (cur : ℕ) (s : Vm)
    → Sound cur s
    → (a v : ℕ) → v < 2 ^ 31
    → (t : Vm) × (ensure_table true a v s ≡ ret tt t) × Tabled cur s a v t
ensure_table-Tabled cur s d a v l = elim (Option-cases ((s.spaces a).pd (vaddr_to_pt v))) [
  | inr (tab, e) ↦
      (let (f, g) = table_kept s a v tab l e in
        (
          s,
          f,
          record {
            sound = d;
            same_bytes = λ b x. refl;
            old = λ b x p q. q;
            pte = tab (vaddr_to_pte v);
            at = g;
            back = λ b x p q. inl q;
            entries = refl;
          },
        ))
  | inl e ↦
      (let w = new_table-Widened s a (vaddr_to_pt v) (omega arith) e in
        let t = new_table s a (vaddr_to_pt v) in
        let none_before = no_table_pte s a v e in
        let made : pte_at t a v ≡ some zero_pte =
          with_pd_here s.spaces a 0 zero_pte _ v
          ∙ dir_read_new (s.spaces a).pd (vaddr_to_pt v) (vaddr_to_pte v) (λ j. zero_pte)
              (omega arith) in
        (
          t,
          table_made s a v l e,
          record {
            sound = wide-Sound s t.spaces w cur d;
            same_bytes = wide-SameBytes s t.spaces w;
            old = wide_old s t.spaces w;
            pte = zero_pte;
            at = made;
            back = wide_back s t.spaces w;
            entries = refl;
          },
        ))
]
