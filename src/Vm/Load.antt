-- ===== src/Vm/Load.antt =====
-- vm_fault loads a translation that is right, and forgets the one that it replaces.
use longcat_os.Base.{
  ℕ, zero, suc, none, some, Bool, true, ◌+◌, ◌*◌, ◌^◌, ◌<◌, ◌≤◌, ◌≡◌, ◌≢◌, ◌⊎◌, arith, refl, sym,
  ap, subst, ◌∙◌, inl, ℕ_discrete,
}
use mathlib.Core.Option.{some-injective}
use longcat_os.Base.Store.{store, store_self, store_ne}
use longcat_os.Vm.{Vm, TlbEntry, num_tlb}
use longcat_os.Vm.Sound.{TlbOk}
use longcat_os.Vm.Tlb.{probe}

-- Entry `k` becomes the one for the page at `v` in frame `i`.
pub record Loaded (u : Vm) (i v k : ℕ) (w : Bool) (t : Vm) : Type 0 where
  pub tlbs : t.tlbs ≡ store u.tlbs k (record { hi = v; ppage = i; valid = true; dirty = w })
  pub owner : (x : ℕ) → (t.entries x).owner ≡ (u.entries x).owner
  pub vaddr : (x : ℕ) → (t.entries x).vaddr ≡ (u.entries x).vaddr
  pub pages : t.num_pages ≡ u.num_pages
  pub flag : (t.entries i).tlb ≡ true
  pub old : (x : ℕ) → i ≢ x → (t.entries x).tlb ≡ true → (u.entries x).tlb ≡ true
  pub told :
      (x : ℕ) → i ≢ x → (t.entries x).tlb ≡ true → (u.tlbs k).valid ≡ true → (u.tlbs k).ppage ≢ x
  pub kept :
      (x : ℕ)
      → ((u.tlbs k).valid ≡ true → (u.tlbs k).ppage ≢ x)
      → (u.entries x).tlb ≡ true
      → (t.entries x).tlb ≡ true

module _ (cur : ℕ) (u : Vm) (ok : TlbOk cur u) (i v k : ℕ) (w : Bool) (t : Vm)
    (l : Loaded u i v k w t) (below : i < u.num_pages) (at_v : (u.entries i).vaddr ≡ v)
    (own : (u.entries i).owner ≡ some cur) (small : v < 2 ^ 31) (slot : k < num_tlb)
    (only : (k' : ℕ) → k' < num_tlb → k' ≢ k → (u.tlbs k').hi ≢ v) where
  abbrev new : TlbEntry
  new = record { hi = v; ppage = i; valid = true; dirty = w }

  pub here_now : t.tlbs k ≡ new
  here_now = ap (λ f. f k) l.tlbs ∙ store_self u.tlbs k new

  elsewhere : (j : ℕ) → j ≢ k → t.tlbs j ≡ u.tlbs j
  elsewhere j n = ap (λ f. f j) l.tlbs ∙ store_ne u.tlbs k j new (λ q. n (sym q))

  loaded_tracked :
      (x : ℕ)
      → (t.entries x).tlb ≡ true
      → (j : ℕ) × (j < num_tlb)
        × ((t.tlbs j).hi ≡ (t.entries x).vaddr)
        × ((t.tlbs j).ppage ≡ x)
        × (x < t.num_pages)
        × ((t.tlbs j).valid ≡ true)
  loaded_tracked x e = elim (ℕ_discrete i x) [
    | yes q ↦ (
      k,
      slot,
      ap (λ (y : TlbEntry). y.hi) here_now
          ∙ sym at_v
          ∙ ap (λ y. (u.entries y).vaddr) q
          ∙ sym (l.vaddr x),
      ap (λ (y : TlbEntry). y.ppage) here_now ∙ q,
      omega (arith, below, l.pages),
      ap (λ (y : TlbEntry). y.valid) here_now,
    )
    | no n ↦
        (let (j, lj, h, p, b, y) = ok.tracked x (l.old x n e) in
          let m : j ≢ k = (λ q.
            l.told x n e (ap (λ z. (u.tlbs z).valid) (sym q) ∙ y)
              (ap (λ z. (u.tlbs z).ppage) (sym q) ∙ p)) in
          let f = elsewhere j m in
          (
            j,
            lj,
            ap (λ (z : TlbEntry). z.hi) f ∙ h ∙ sym (l.vaddr x),
            ap (λ (z : TlbEntry). z.ppage) f ∙ p,
            omega (arith, b, l.pages),
            ap (λ (z : TlbEntry). z.valid) f ∙ y,
          ))
  ]

  -- An entry for another page is for another frame than the one that entry `k` was for.
  other_frame :
      (j : ℕ)
      → j < num_tlb
      → j ≢ k
      → (u.tlbs j).valid ≡ true
      → (u.tlbs k).valid ≡ true
      → (u.tlbs k).ppage ≢ (u.tlbs j).ppage
  other_frame j lj n y z q =
      let (a, b, d) = ok.current j lj y in
      let (a', b', d') = ok.current k slot z in
      n (ok.distinct j k lj slot (sym d ∙ ap (λ x. (u.entries x).vaddr) (sym q) ∙ d'))

  loaded_current :
      (j : ℕ)
      → j < num_tlb
      → (t.tlbs j).valid ≡ true
      → ((t.entries (t.tlbs j).ppage).tlb ≡ true)
        × ((t.entries (t.tlbs j).ppage).owner ≡ some cur)
        × ((t.entries (t.tlbs j).ppage).vaddr ≡ (t.tlbs j).hi)
  loaded_current j lj e = elim (ℕ_discrete j k) [
    | yes q ↦
        (let f = ap t.tlbs q ∙ here_now in
          subst
            (λ (z : TlbEntry).
              ((t.entries z.ppage).tlb ≡ true)
              × ((t.entries z.ppage).owner ≡ some cur)
              × ((t.entries z.ppage).vaddr ≡ z.hi))
            (sym f) (l.flag, l.owner i ∙ own, l.vaddr i ∙ at_v))
    | no n ↦
        (let f = elsewhere j n in
          let y = sym (ap (λ (z : TlbEntry). z.valid) f) ∙ e in
          let (a, b, d) = ok.current j lj y in
          subst
            (λ (z : TlbEntry).
              ((t.entries z.ppage).tlb ≡ true)
              × ((t.entries z.ppage).owner ≡ some cur)
              × ((t.entries z.ppage).vaddr ≡ z.hi))
            (sym f)
            (
              l.kept (u.tlbs j).ppage (λ z. other_frame j lj n y z) a,
              l.owner (u.tlbs j).ppage ∙ b,
              l.vaddr (u.tlbs j).ppage ∙ d,
            ))
  ]

  loaded_distinct :
      (j j' : ℕ) → j < num_tlb → j' < num_tlb → (t.tlbs j).hi ≡ (t.tlbs j').hi → j ≡ j'
  loaded_distinct j j' lj lj' e = elim (ℕ_discrete j k) [
    | yes q ↦ elim (ℕ_discrete j' k) [
      | yes r ↦ q ∙ sym r
      | no r ↦ absurd (
          only j' lj' r (
            sym (ap (λ (z : TlbEntry). z.hi) (elsewhere j' r))
            ∙ sym e
            ∙ ap (λ (z : TlbEntry). z.hi) (ap t.tlbs q ∙ here_now)))
    ]
    | no q ↦ elim (ℕ_discrete j' k) [
      | yes r ↦ absurd (
          only j lj q (
            sym (ap (λ (z : TlbEntry). z.hi) (elsewhere j q))
            ∙ e
            ∙ ap (λ (z : TlbEntry). z.hi) (ap t.tlbs r ∙ here_now)))
      | no r ↦ ok.distinct j j' lj lj' (
          sym (ap (λ (z : TlbEntry). z.hi) (elsewhere j q))
          ∙ e
          ∙ ap (λ (z : TlbEntry). z.hi) (elsewhere j' r))
    ]
  ]

  loaded_range :
      (j : ℕ)
      → j < num_tlb
      → (((t.tlbs j).valid ≡ true) × ((t.tlbs j).hi < 2 ^ 31))
        ⊎ ((t.tlbs j).hi ≡ (0x80000 + j) * 2 ^ 12)
  loaded_range j lj = elim (ℕ_discrete j k) [
    | yes q ↦
        subst
          (λ (z : TlbEntry). ((z.valid ≡ true) × (z.hi < 2 ^ 31)) ⊎ (z.hi ≡ (0x80000 + j) * 2 ^ 12))
          (sym (ap t.tlbs q ∙ here_now)) (inl (refl, small))
    | no n ↦
        subst
          (λ (z : TlbEntry). ((z.valid ≡ true) × (z.hi < 2 ^ 31)) ⊎ (z.hi ≡ (0x80000 + j) * 2 ^ 12))
          (sym (elsewhere j n)) (ok.range j lj)
  ]

  pub Loaded-TlbOk : TlbOk cur t
  Loaded-TlbOk = record {
    tracked = loaded_tracked;
    current = loaded_current;
    distinct = loaded_distinct;
    range = loaded_range;
  }

-- What the probe says
pub probe-some :
    (rounds k v j : ℕ) (tlbs : ℕ → TlbEntry)
    → probe rounds k v tlbs ≡ some j
    → (k ≤ j) × (j < k + rounds) × ((tlbs j).hi ≡ v)
unfolding probe
probe-some zero k v j tlbs e = absurd (ground (arith, e))
probe-some (suc rounds) k v j tlbs e = elim (ℕ_discrete (tlbs k).hi v) [
  | yes q ↦
      (let r : k ≡ j = some-injective k j (ground (arith, e, q)) in
        (omega arith, omega arith, ap (λ x. (tlbs x).hi) (sym r) ∙ q))
  | no n ↦
      (let (a, b, c) = probe-some rounds (k + 1) v j tlbs (ground (arith, e, n)) in
        (omega arith, omega arith, c))
]

pub probe-none :
    (rounds k v : ℕ) (tlbs : ℕ → TlbEntry)
    → probe rounds k v tlbs ≡ none
    → (j : ℕ) → k ≤ j
    → j < k + rounds
    → (tlbs j).hi ≢ v
unfolding probe
probe-none zero k v tlbs e j l m q = absurd (omega arith)
probe-none (suc rounds) k v tlbs e j l m q = elim (ℕ_discrete k j) [
  | yes r ↦ (let h : (tlbs k).hi ≡ v = ap (λ x. (tlbs x).hi) r ∙ q in absurd (ground (arith, e, h)))
  | no n ↦ elim (ℕ_discrete (tlbs k).hi v) [
    | yes h ↦ absurd (ground (arith, e, h))
    | no h ↦ probe-none rounds (k + 1) v tlbs (ground (arith, e, h)) j (omega arith) (omega arith) q
  ]
]
