-- ===== src/Vm/Kmem/Block.antt =====
-- The loops of alloc_kpages and free_kpages over a block.
use longcat_os.Base.{
  ℕ, zero, suc, none, Bool, true, false, ◌+◌, ◌<◌, ◌≤◌, ◌≡◌, ◌≢◌, ◌⊎◌, inl, inr, arith, refl, sym,
  ap, subst, ◌∙◌, ℕ_discrete, Bool-cases, not, ◌==◌, ◌&&◌,
}
use longcat_os.Base.Outcome.{ret}
use longcat_os.Base.Store.{store, store_self, store_ne}
use longcat_os.Vm.{Vm, CmEntry, with_entry}
use longcat_os.Vm.Coherence.{SameBytes}
use longcat_os.Vm.Sound.{Sound}
use longcat_os.Vm.Swapin.{free_flag}
use longcat_os.Vm.Kmem.{kernel_entry, claim, zero_frames}
use longcat_os.Vm.Kmem.Claim.{changed-Sound, changed-SameBytes}

-- A frame of the kernel; `first` says that it is the first of its block.
pub record KernelFrame (c : CmEntry) (first : Bool) : Type 0 where
  pub kpage : c.kpage ≡ true
  pub owner : c.owner ≡ none
  pub busy : c.busy ≡ false
  pub kernel : c.kernel ≡ not first

-- The `n` frames from `i` on are the kernel's, and no other entry changed.
pub record Taken (cur : ℕ) (s : Vm) (n i : ℕ) (first : Bool) (t : Vm) : Type 0 where
  pub sound : Sound cur t
  pub same_bytes : SameBytes s t
  pub inside : (j : ℕ) → i ≤ j → j < i + n → KernelFrame (t.entries j) (first && j == i)
  pub outside : (j : ℕ) → (j < i) ⊎ (i + n ≤ j) → t.entries j ≡ s.entries j
  pub count : t.num_kpages ≡ s.num_kpages

claim_lem :
    (s : Vm) (n i : ℕ) (first : Bool)
    → claim (suc n) i first s
      ≡ claim n (i + 1) false (with_entry s i (kernel_entry i first (s.entries i)))
unfolding claim
claim_lem s n i first = refl

KernelFrame-false : (c : CmEntry) (b b' : Bool) → b ≡ b' → KernelFrame c b → KernelFrame c b'
KernelFrame-false c b b' e k = subst (KernelFrame c) e k

Taken-step :
    (cur : ℕ) (s t : Vm) (n i : ℕ) (first : Bool)
    → SameBytes s (with_entry s i (kernel_entry i first (s.entries i)))
    → Taken cur (with_entry s i (kernel_entry i first (s.entries i))) n (i + 1) false t
    → Taken cur s (suc n) i first t
Taken-step cur s t n i first b g =
    let u = with_entry s i (kernel_entry i first (s.entries i)) in
    record {
      sound = g.sound;
      same_bytes = λ a v. g.same_bytes a v ∙ b a v;
      inside = λ j p q. elim (ℕ_discrete i j) [
        | yes e ↦
            (let w : t.entries j ≡ kernel_entry i first (s.entries i) =
                g.outside j (inl (omega arith)) ∙ ap u.entries (sym e) ∙ store_self s.entries i _ in
              let f : first ≡ (first && j == i) = (elim (Bool-cases first) [
                | inl x ↦ ground (arith, x, e)
                | inr x ↦ ground (arith, x)
              ]) in
              record {
                kpage = ap (λ (c : CmEntry). c.kpage) w;
                owner = ap (λ (c : CmEntry). c.owner) w;
                busy = ap (λ (c : CmEntry). c.busy) w;
                kernel = ap (λ (c : CmEntry). c.kernel) w ∙ ap not f;
              })
        | no e ↦
            (let f : false ≡ (first && j == i) =
                (let m : j ≢ i = (λ z. e (sym z)) in ground (arith, m)) in
              KernelFrame-false (t.entries j) false (first && j == i) f
                (g.inside j (omega arith) (omega arith)))
      ];
      outside = λ j o.
          g.outside j (elim o [ inl p ↦ inl (omega arith) | inr p ↦ inr (omega arith) ])
          ∙ store_ne s.entries i j _
              (elim o [ inl p ↦ λ z. absurd (omega arith) | inr p ↦ λ z. absurd (omega arith) ]);
      count = g.count;
    }

pub claim-Taken :
    (cur : ℕ) (s : Vm)
    → Sound cur s
    → (n i : ℕ) (first : Bool) → ((j : ℕ) → i ≤ j → j < i + n → (s.entries j).owner ≡ none)
    → (t : Vm) × (claim n i first s ≡ ret tt t) × Taken cur s n i first t
unfolding claim
claim-Taken cur s d zero i first o = (
  s,
  refl,
  record {
    sound = d;
    same_bytes = λ a v. refl;
    inside = λ j p q. absurd (omega arith);
    outside = λ j p. refl;
    count = refl;
  },
)
claim-Taken cur s d (suc n) i first o =
    let u = with_entry s i (kernel_entry i first (s.entries i)) in
    let own = o i (omega arith) (omega arith) in
    let keep =
      λ (j : ℕ) (n : i ≢ j). store_ne s.entries i j (kernel_entry i first (s.entries i)) n in
    let self = store_self s.entries i (kernel_entry i first (s.entries i)) in
    let (t, e, g) =
      claim-Taken cur u
        (changed-Sound cur s d i u.entries s.ram keep (λ j n. refl) own
          (ap (λ (c : CmEntry). c.owner) self) (λ x. ap (λ (c : CmEntry). c.kpage) self)
          (ap (λ (c : CmEntry). c.tlb) self))
        n (i + 1) false
        (λ j p q.
          ap (λ (c : CmEntry). c.owner) (store_ne s.entries i j _ (omega arith))
          ∙ o j (omega arith) (omega arith)) in
    (
      t,
      e,
      Taken-step cur s t n i first
          (changed-SameBytes cur s d i u.entries s.ram keep (λ j n. refl) own
            (ap (λ (c : CmEntry). c.owner) self) (λ x. ap (λ (c : CmEntry). c.kpage) self)
            (ap (λ (c : CmEntry). c.tlb) self))
          g,
    )

-- Frames that nobody has are filled with zeros.
pub record Zeroed (cur : ℕ) (s : Vm) (n i : ℕ) (t : Vm) : Type 0 where
  pub sound : Sound cur t
  pub same_bytes : SameBytes s t
  pub zeros : (j : ℕ) → i ≤ j → j < i + n → t.ram j ≡ 0
  pub others : (j : ℕ) → (j < i) ⊎ (i + n ≤ j) → t.ram j ≡ s.ram j
  pub entries : t.entries ≡ s.entries
  pub count : t.num_kpages ≡ s.num_kpages

Zeroed-step :
    (cur : ℕ) (s t : Vm) (n i : ℕ)
    → SameBytes s (record s { ram = store s.ram i 0 })
    → Zeroed cur (record s { ram = store s.ram i 0 }) n (i + 1) t
    → Zeroed cur s (suc n) i t
Zeroed-step cur s t n i b g = record {
  sound = g.sound;
  same_bytes = λ a v. g.same_bytes a v ∙ b a v;
  zeros = λ j p q. elim (ℕ_discrete i j) [
    | yes e ↦ g.others j (inl (omega arith)) ∙ ap (store s.ram i 0) (sym e) ∙ store_self s.ram i 0
    | no e ↦ g.zeros j (omega arith) (omega arith)
  ];
  others = λ j o.
      g.others j (elim o [ inl p ↦ inl (omega arith) | inr p ↦ inr (omega arith) ])
      ∙ store_ne s.ram i j 0
          (elim o [ inl p ↦ λ z. absurd (omega arith) | inr p ↦ λ z. absurd (omega arith) ]);
  entries = g.entries;
  count = g.count;
}

pub zero_frames-Zeroed :
    (cur : ℕ) (s : Vm)
    → Sound cur s
    → (n i : ℕ) → ((j : ℕ) → i ≤ j → j < i + n → (s.entries j).owner ≡ none)
    → (t : Vm) × (zero_frames n i s ≡ ret tt t) × Zeroed cur s n i t
unfolding zero_frames
zero_frames-Zeroed cur s d zero i o = (
  s,
  refl,
  record {
    sound = d;
    same_bytes = λ a v. refl;
    zeros = λ j p q. absurd (omega arith);
    others = λ j p. refl;
    entries = refl;
    count = refl;
  },
)
zero_frames-Zeroed cur s d (suc n) i o =
    let u = record s { ram = store s.ram i 0 } in
    let own = o i (omega arith) (omega arith) in
    let flag = free_flag cur s i d.tlb_ok own in
    let keep = λ (j : ℕ) (n : i ≢ j). store_ne s.ram i j 0 n in
    let (t, e, g) =
      zero_frames-Zeroed cur u
        (changed-Sound cur s d i s.entries u.ram (λ j n. refl) keep own own
          (λ q. ap (λ k. (s.entries k).kpage) q ∙ d.coherent.frame_zero) flag)
        n (i + 1) (λ j p q. o j (omega arith) (omega arith)) in
    (
      t,
      e,
      Zeroed-step cur s t n i
          (changed-SameBytes cur s d i s.entries u.ram (λ j n. refl) keep own own
            (λ q. ap (λ k. (s.entries k).kpage) q ∙ d.coherent.frame_zero) flag)
          g,
    )
