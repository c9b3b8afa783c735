-- ===== src/Vm/Flush.antt =====
-- vm_tlbshootdown flushes the page that it is asked to flush, and only that one.
use longcat_os.Base.{
  ℕ, zero, suc, some, true, false, ◌+◌, ◌*◌, ◌^◌, ◌<◌, ◌≤◌, ◌≡◌, ◌≢◌, ◌⊎◌, inl, inr, arith, refl,
  sym, ap, subst, ◌∙◌, ltb, lt→ltb, ℕ_discrete,
}
use longcat_os.Base.Outcome.{ret, ◌>>◌, kassert}
use longcat_os.Base.Store.{store, store_self, store_ne}
use longcat_os.Vm.{Vm, CmEntry, TlbEntry, num_tlb}
use longcat_os.Vm.Like.{Like, Like-trans, entry-Like, rest-Like}
use longcat_os.Vm.Sound.{TlbOk}
use longcat_os.Vm.Tlb.{
  probe, tlb_probe, tlb_invalid, shootdown_one, flush_found, tlb_write, clear_tlb,
}

pub probe_lem :
    (rounds k v j : ℕ) (tlbs : ℕ → TlbEntry)
    → k ≤ j
    → j < k + rounds
    → (tlbs j).hi ≡ v
    → ((j' : ℕ) → k ≤ j' → j' < j → (tlbs j').hi ≢ v)
    → probe rounds k v tlbs ≡ some j
unfolding probe
probe_lem zero k v j tlbs l m e f = absurd (omega arith)
probe_lem (suc rounds) k v j tlbs l m e f = elim (ℕ_discrete k j) [
  | yes q ↦ (let h : (tlbs k).hi ≡ v = ap (λ x. (tlbs x).hi) q ∙ e in ground (arith, h, q))
  | no n ↦
      (let h : (tlbs k).hi ≢ v = f k (omega arith) (omega arith) in
        let r =
          probe_lem rounds (k + 1) v j tlbs (omega arith) (omega arith) e
            (λ j' a b. f j' (omega arith) b) in
        ground (arith, h, r))
]

-- Entry `k` of the buffer and the flag of its frame are cleared.
abbrev pub flushed : Vm → ℕ → Vm
flushed s k = record s {
  tlbs = store s.tlbs k (tlb_invalid k);
  entries = store s.entries (s.tlbs k).ppage (record (s.entries (s.tlbs k).ppage) { tlb = false });
}

pub flushed-Like : (s : Vm) (k : ℕ) → Like s (flushed s k)
flushed-Like s k =
    Like-trans s (record s { tlbs = store s.tlbs k (tlb_invalid k) }) (flushed s k)
      (rest-Like s s.num_kpages s.num_dirty s.clock_head (store s.tlbs k (tlb_invalid k)))
      (entry-Like (record s { tlbs = store s.tlbs k (tlb_invalid k) }) (s.tlbs k).ppage
        (record (s.entries (s.tlbs k).ppage) { tlb = false }) refl)

pub shootdown_one_lem :
    (s : Vm) (v k : ℕ)
    → tlb_probe s v ≡ some k
    → (s.entries (s.tlbs k).ppage).tlb ≡ true
    → (s.tlbs k).ppage < s.num_pages
    → shootdown_one v s ≡ ret tt (flushed s k)
unfolding shootdown_one
shootdown_one_lem s v k e t b =
    ap (λ o. flush_found o s) e
    ∙ ap
        (λ x.
          (do
            kassert x
            tlb_write k (tlb_invalid k)
            kassert (ltb (s.tlbs k).ppage s.num_pages)
            clear_tlb (s.tlbs k).ppage)
            s)
        t
    ∙ ap (λ x. (do tlb_write k (tlb_invalid k); kassert x; clear_tlb (s.tlbs k).ppage) s)
        (lt→ltb (s.tlbs k).ppage s.num_pages b)

module _ (cur : ℕ) (s : Vm) (ok : TlbOk cur s) where
  invalid_other : (k j : ℕ) → k < num_tlb → j < num_tlb → j ≢ k → (s.tlbs j).hi ≢ (tlb_invalid k).hi
  invalid_other k j lk lj n e = elim (ok.range j lj) [
    | inl (w, l) ↦ absurd (omega arith)
    | inr q ↦ n (omega arith)
  ]

  -- Two frames with the flag have two entries.
  entry_of :
      (k i : ℕ)
      → k < num_tlb
      → (s.tlbs k).hi ≡ (s.entries i).vaddr
      → (s.entries i).tlb ≡ true
      → (s.tlbs k).ppage ≡ i
  entry_of k i l e t =
      let (k', l', e', q, b, x) = ok.tracked i t in
      ap (λ x. (s.tlbs x).ppage) (ok.distinct k k' l l' (e ∙ sym e')) ∙ q

  module _ (k : ℕ) (lk : k < num_tlb) where
    hi_cases :
        (j : ℕ)
        → ((j ≡ k) × ((flushed s k).tlbs j ≡ tlb_invalid k))
          ⊎ ((j ≢ k) × ((flushed s k).tlbs j ≡ s.tlbs j))
    hi_cases j = elim (ℕ_discrete j k) [
      | yes q ↦ inl (q, ap (flushed s k).tlbs q ∙ store_self s.tlbs k (tlb_invalid k))
      | no n ↦ inr (n, store_ne s.tlbs k j (tlb_invalid k) (λ q. n (sym q)))
    ]

    same_entry : (i : ℕ) → (s.tlbs k).ppage ≢ i → (flushed s k).entries i ≡ s.entries i
    same_entry i n = store_ne s.entries (s.tlbs k).ppage i _ n

    pub cleared : ((flushed s k).entries (s.tlbs k).ppage).tlb ≡ false
    cleared = ap (λ (x : CmEntry). x.tlb) (store_self s.entries (s.tlbs k).ppage _)

    flushed_tracked :
        (i : ℕ)
        → ((flushed s k).entries i).tlb ≡ true
        → (k' : ℕ) × (k' < num_tlb)
          × (((flushed s k).tlbs k').hi ≡ ((flushed s k).entries i).vaddr)
          × (((flushed s k).tlbs k').ppage ≡ i)
          × (i < s.num_pages)
          × (((flushed s k).tlbs k').valid ≡ true)
    flushed_tracked i t = elim (ℕ_discrete (s.tlbs k).ppage i) [
      | yes q ↦ absurd (ground (arith, t, cleared, ap (λ x. ((flushed s k).entries x).tlb) q))
      | no n ↦
          (let u = same_entry i n in
            let (k', l, e, p, b, x) = ok.tracked i (sym (ap (λ (x : CmEntry). x.tlb) u) ∙ t) in
            let w =
              store_ne s.tlbs k k' (tlb_invalid k) (λ q. n (ap (λ x. (s.tlbs x).ppage) q ∙ p)) in
            (
              k',
              l,
              ap (λ (x : TlbEntry). x.hi) w ∙ e ∙ sym (ap (λ (x : CmEntry). x.vaddr) u),
              ap (λ (x : TlbEntry). x.ppage) w ∙ p,
              b,
              ap (λ (x : TlbEntry). x.valid) w ∙ x,
            ))
    ]

    flushed_distinct :
        (i j : ℕ)
        → i < num_tlb
        → j < num_tlb
        → ((flushed s k).tlbs i).hi ≡ ((flushed s k).tlbs j).hi
        → i ≡ j
    flushed_distinct i j li lj e = elim (hi_cases i) [
      | inl (q, f) ↦ elim (hi_cases j) [
        | inl (r, g) ↦ q ∙ sym r
        | inr (r, g) ↦ absurd (
            invalid_other k j lk lj r
              (sym (ap (λ (x : TlbEntry). x.hi) g) ∙ sym e ∙ ap (λ (x : TlbEntry). x.hi) f))
      ]
      | inr (q, f) ↦ elim (hi_cases j) [
        | inl (r, g) ↦ absurd (
            invalid_other k i lk li q
              (sym (ap (λ (x : TlbEntry). x.hi) f) ∙ e ∙ ap (λ (x : TlbEntry). x.hi) g))
        | inr (r, g) ↦
            ok.distinct i j li lj
              (sym (ap (λ (x : TlbEntry). x.hi) f) ∙ e ∙ ap (λ (x : TlbEntry). x.hi) g)
      ]
    ]

    flushed_range :
        (j : ℕ)
        → j < num_tlb
        → ((((flushed s k).tlbs j).valid ≡ true) × (((flushed s k).tlbs j).hi < 2 ^ 31))
          ⊎ (((flushed s k).tlbs j).hi ≡ (0x80000 + j) * 2 ^ 12)
    flushed_range j l = elim (hi_cases j) [
      | inl (q, f) ↦ inr (ap (λ (x : TlbEntry). x.hi) f ∙ omega arith)
      | inr (q, f) ↦
          subst
            (λ (x : TlbEntry).
              ((x.valid ≡ true) × (x.hi < 2 ^ 31)) ⊎ (x.hi ≡ (0x80000 + j) * 2 ^ 12))
            (sym f) (ok.range j l)
    ]

    -- The entry is for the frame whose page it names.
    module _ (names : (s.tlbs k).hi ≡ (s.entries (s.tlbs k).ppage).vaddr) where
      flushed_current :
          (j : ℕ)
          → j < num_tlb
          → ((flushed s k).tlbs j).valid ≡ true
          → (((flushed s k).entries ((flushed s k).tlbs j).ppage).tlb ≡ true)
            × (((flushed s k).entries ((flushed s k).tlbs j).ppage).owner ≡ some cur)
            × (((flushed s k).entries ((flushed s k).tlbs j).ppage).vaddr
                ≡ ((flushed s k).tlbs j).hi)
      flushed_current j l t = elim (hi_cases j) [
        | inl (q, f) ↦ absurd (ground (arith, t, ap (λ (x : TlbEntry). x.valid) f))
        | inr (q, f) ↦
            (let (a, b, d) = ok.current j l (sym (ap (λ (x : TlbEntry). x.valid) f) ∙ t) in
              let n : (s.tlbs k).ppage ≢ (s.tlbs j).ppage = (λ z. q (
                ok.distinct j k l lk
                  (sym d ∙ ap (λ x. (s.entries x).vaddr) (sym z) ∙ sym names))) in
              let u = same_entry (s.tlbs j).ppage n in
              subst
                (λ (x : TlbEntry).
                  (((flushed s k).entries x.ppage).tlb ≡ true)
                  × (((flushed s k).entries x.ppage).owner ≡ some cur)
                  × (((flushed s k).entries x.ppage).vaddr ≡ x.hi))
                (sym f)
                (
                  ap (λ (x : CmEntry). x.tlb) u ∙ a,
                  ap (λ (x : CmEntry). x.owner) u ∙ b,
                  ap (λ (x : CmEntry). x.vaddr) u ∙ d,
                ))
      ]

      pub flushed-TlbOk : TlbOk cur (flushed s k)
      flushed-TlbOk = record {
        tracked = flushed_tracked;
        current = flushed_current;
        distinct = flushed_distinct;
        range = flushed_range;
      }
