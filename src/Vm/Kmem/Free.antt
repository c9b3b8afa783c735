-- ===== src/Vm/Kmem/Free.antt =====
-- free_kpages gives back a block.
use longcat_os.Base.{
  ℕ, zero, suc, none, Bool, true, false, ◌+◌, ◌-◌, ◌%◌, ◌^◌, ◌<◌, ◌≤◌, ◌≡◌, ◌≢◌, ◌⊎◌, inl, inr,
  arith, refl, sym, ap, subst, ◌∙◌, ℕ_discrete, ◌==◌, ◌&&◌, ne→==,
}
use longcat_os.Base.Outcome.{ret}
use longcat_os.Base.Store.{store, store_self, store_ne}
use longcat_os.Vm.{Vm, CmEntry, kernel_vaddr_start, kernel_vaddr_end}
use longcat_os.Vm.Coherence.{SameBytes}
use longcat_os.Vm.Like.{Like-SameBytes, rest-Like}
use longcat_os.Vm.Sound.{Sound, flags-Sound}
use longcat_os.Vm.Swapin.{free_flag}
use longcat_os.Vm.Paging.{is_free}
use longcat_os.Vm.Boot.{ram_pages, kvaddr, cm_index}
use longcat_os.Vm.Kmem.{free_rest, free_kpages}
use longcat_os.Vm.Kmem.Claim.{changed-Sound, changed-SameBytes}
use longcat_os.Vm.Kmem.Block.{KernelFrame}
use longcat_os.Vm.Kmem.Find.{FreeBlock}

-- The `n` frames from `i` on are free, and no other entry changed.
pub record Freed (cur : ℕ) (s : Vm) (n i : ℕ) (t : Vm) : Type 0 where
  pub sound : Sound cur t
  pub same_bytes : SameBytes s t
  pub inside : FreeBlock t.entries n i
  pub outside : (j : ℕ) → (j < i) ⊎ (i + n ≤ j) → t.entries j ≡ s.entries j
  pub count : t.num_kpages + n ≡ s.num_kpages

abbrev unkernel : CmEntry → CmEntry
unkernel c = record c { kpage = false; kernel = false }

abbrev freed : Vm → ℕ → CmEntry → Vm
freed s i c = record s {
  entries = store s.entries i c;
  num_kpages = (s.num_kpages + 2 ^ 32 - 1) % 2 ^ 32;
}

-- One frame: what stands in its entry now has no owner, is not busy and is not the kernel's.
module _ (cur : ℕ) (s : Vm) (d : Sound cur s) (i : ℕ) (c : CmEntry) (pos : 0 < i)
    (o : (s.entries i).owner ≡ none) (co : c.owner ≡ none) (ct : c.tlb ≡ (s.entries i).tlb) where
  abbrev mid : Vm
  mid = record s { entries = store s.entries i c }

  flag : (store s.entries i c i).tlb ≡ false
  flag = ap (λ (x : CmEntry). x.tlb) (store_self s.entries i c) ∙ ct ∙ free_flag cur s i d.tlb_ok o

  own : (store s.entries i c i).owner ≡ none
  own = ap (λ (x : CmEntry). x.owner) (store_self s.entries i c) ∙ co

  pub freed-Sound : Sound cur (freed s i c)
  freed-Sound =
      flags-Sound cur mid (freed s i c)
        (rest-Like mid (freed s i c).num_kpages s.num_dirty s.clock_head s.tlbs) refl (λ j. refl)
        (changed-Sound cur s d i (store s.entries i c) s.ram (λ j n. store_ne s.entries i j c n)
          (λ j n. refl) o own (λ q. absurd (omega arith)) flag)

  pub freed-SameBytes : SameBytes s (freed s i c)
  freed-SameBytes a v =
      Like-SameBytes mid (freed s i c)
        (rest-Like mid (freed s i c).num_kpages s.num_dirty s.clock_head s.tlbs) a v
      ∙ changed-SameBytes cur s d i (store s.entries i c) s.ram (λ j n. store_ne s.entries i j c n)
          (λ j n. refl) o own (λ q. absurd (omega arith)) flag a v

Freed-step :
    (cur : ℕ) (s t : Vm) (n i : ℕ) (c : CmEntry)
    → is_free c ≡ true
    → 0 < s.num_kpages
    → s.num_kpages < 2 ^ 32
    → SameBytes s (freed s i c)
    → Freed cur (freed s i c) n (i + 1) t
    → Freed cur s (suc n) i t
Freed-step cur s t n i c f l m b g = record {
  sound = g.sound;
  same_bytes = λ a v. g.same_bytes a v ∙ b a v;
  inside = λ j p q. elim (ℕ_discrete i j) [
    | yes e ↦
        ap is_free (
          g.outside j (inl (omega arith))
          ∙ ap (store s.entries i c) (sym e)
          ∙ store_self s.entries i c)
        ∙ f
    | no e ↦ g.inside j (omega arith) (omega arith)
  ];
  outside = λ j o.
      g.outside j (elim o [ inl p ↦ inl (omega arith) | inr p ↦ inr (omega arith) ])
      ∙ store_ne s.entries i j c
          (elim o [ inl p ↦ λ z. absurd (omega arith) | inr p ↦ λ z. absurd (omega arith) ]);
  count = omega (arith, g.count);
}

free_rest_lem :
    (s : Vm) (rounds i : ℕ)
    → KernelFrame (s.entries i) false
    → free_rest (suc rounds) i s ≡ free_rest rounds (i + 1) (freed s i (unkernel (s.entries i)))
unfolding free_rest
free_rest_lem s rounds i k =
    let a = k.kpage in
    let b = k.owner in let c = k.busy in let e = k.kernel in ground (arith, a, b, c, e)

free_rest_end :
    (s : Vm) (rounds i : ℕ)
    → ((s.entries i).kernel && (s.entries i).kpage) ≡ false
    → free_rest (suc rounds) i s ≡ ret tt s
unfolding free_rest
free_rest_end s rounds i e = ground (arith, e)

unkernel_free :
    (c : CmEntry) (b : Bool) → KernelFrame c b → is_free (record c { kpage = false }) ≡ true
unkernel_free c b k = let o = k.owner in let y = k.busy in ground (arith, o, y)

free_rest-Freed :
    (cur : ℕ) (s : Vm)
    → Sound cur s
    → (n rounds i : ℕ) → n < rounds
    → 0 < i
    → ((j : ℕ) → i ≤ j → j < i + n → KernelFrame (s.entries j) false)
    → ((s.entries (i + n)).kernel && (s.entries (i + n)).kpage) ≡ false
    → n ≤ s.num_kpages
    → s.num_kpages < 2 ^ 32
    → (t : Vm) × (free_rest rounds i s ≡ ret tt t) × Freed cur s n i t
free_rest-Freed cur s d n zero i l p k e c b = absurd (omega arith)
free_rest-Freed cur s d zero (suc rounds) i l p k e c b = (
  s,
  free_rest_end s rounds i
      (ap (λ k. (s.entries k).kernel && (s.entries k).kpage) {x = i} {y = i + 0} (omega arith) ∙ e),
  record {
    sound = d;
    same_bytes = λ a v. refl;
    inside = λ j x y. absurd (omega arith);
    outside = λ j x. refl;
    count = omega arith;
  },
)
free_rest-Freed cur s d (suc n) (suc rounds) i l p k e c b =
    let f = k i (omega arith) (omega arith) in
    let x = unkernel (s.entries i) in
    let u = freed s i x in
    let keep = λ (j : ℕ) (m : i ≢ j). store_ne s.entries i j x m in
    let (t, g, h) =
      free_rest-Freed cur u (freed-Sound cur s d i x p f.owner f.owner refl) n rounds (i + 1)
        (omega arith) (omega arith)
        (λ j y z.
          subst (λ q. KernelFrame q false) (sym (keep j (omega arith)))
            (k j (omega arith) (omega arith)))
        (ap (λ (q : CmEntry). q.kernel && q.kpage) (keep (i + 1 + n) (omega arith))
          ∙ ap (λ k. (s.entries k).kernel && (s.entries k).kpage) {x = i + 1 + n} {y = i + suc n}
              (omega arith)
          ∙ e)
        (omega arith) (omega arith) in
    (
      t,
      free_rest_lem s rounds i f ∙ g,
      Freed-step cur s t n i x (unkernel_free (s.entries i) false f) (omega arith) b
          (freed-SameBytes cur s d i x p f.owner f.owner refl) h,
    )

free_kpages_lem :
    (s : Vm) (b : ℕ)
    → b < ram_pages
    → KernelFrame (s.entries b) true
    → free_kpages (kvaddr b) s
      ≡ free_rest (ram_pages - (b + 1)) (b + 1) (freed s b (record (s.entries b) { kpage = false }))
unfolding free_kpages
free_kpages_lem s b l k =
    let i : cm_index (kvaddr b - kernel_vaddr_start) ≡ b = omega arith in
    let p = k.kpage in
    let o = k.owner in
    let y = k.busy in
    let e = k.kernel in
    let low : kernel_vaddr_start ≤ kvaddr b = omega arith in
    let high : kvaddr b < kernel_vaddr_end = omega arith in ground (arith, i, p, o, y, e, low, high)

-- free_kpages of a block of the kernel, which is not the one of frame 0 and after which a frame
-- follows that does not belong to it, frees the frames of the block and no other, counts them, and
-- changes no page.
pub free_kpages-Freed :
    (cur : ℕ) (s : Vm)
    → Sound cur s
    → (n b : ℕ) → 0 < n
    → 0 < b
    → b + n < ram_pages
    → ((j : ℕ) → b ≤ j → j < b + n → KernelFrame (s.entries j) (j == b))
    → ((s.entries (b + n)).kernel && (s.entries (b + n)).kpage) ≡ false
    → n ≤ s.num_kpages
    → s.num_kpages < 2 ^ 32
    → (t : Vm) × (free_kpages (kvaddr b) s ≡ ret tt t) × Freed cur s n b t
free_kpages-Freed cur s d zero b z p l k e c m = absurd (omega arith)
free_kpages-Freed cur s d (suc n) b z p l k e c m =
    let first : (b == b) ≡ true = ground arith in
    let f = subst (KernelFrame (s.entries b)) first (k b (omega arith) (omega arith)) in
    let x = record (s.entries b) { kpage = false } in
    let u = freed s b x in
    let keep = λ (j : ℕ) (q : b ≢ j). store_ne s.entries b j x q in
    let (t, g, h) =
      free_rest-Freed cur u (freed-Sound cur s d b x p f.owner f.owner refl) n (ram_pages - (b + 1))
        (b + 1) (omega arith) (omega arith)
        (λ j y w.
          (let r : (j == b) ≡ false = ne→== j b (omega arith) in
            subst (λ q. KernelFrame q false) (sym (keep j (omega arith)))
              (subst (KernelFrame (s.entries j)) r (k j (omega arith) (omega arith)))))
        (ap (λ (q : CmEntry). q.kernel && q.kpage) (keep (b + 1 + n) (omega arith))
          ∙ ap (λ i. (s.entries i).kernel && (s.entries i).kpage) {x = b + 1 + n} {y = b + suc n}
              (omega arith)
          ∙ e)
        (omega arith) (omega arith) in
    (
      t,
      free_kpages_lem s b (omega arith) f ∙ g,
      Freed-step cur s t n b x (unkernel_free (s.entries b) true f) (omega arith) m
          (freed-SameBytes cur s d b x p f.owner f.owner refl) h,
    )
