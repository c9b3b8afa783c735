-- ===== src/Vm/Booted.antt =====
-- A machine that has booted is in order.
use longcat_os.Base.{
  ℕ, none, some, List, Bool, true, false, ◌+◌, ◌*◌, ◌/◌, ◌^◌, ◌<◌, ◌≤◌, ◌≡◌, arith, refl, sym, ap,
  subst, ◌∙◌, inr,
}
use longcat_os.Base.Outcome.{ret, ◌>>=◌, ◌>>◌}
use longcat_os.Base.Gives.{bind-ret}
use longcat_os.Vm.{Vm, CmEntry, TlbEntry, Pte, pte_at, num_tlb, page_size, dir_read, vaddr_to_pt}
use longcat_os.Vm.Boot.{stolen, unused, fill_coremap, ram_pages}
use longcat_os.Vm.Filled.{filled, filled_kernel, filled_user, filled_all}
use longcat_os.Vm.Layout.{Layout, stage, pages, Positive, kmalloc-Layout}
use longcat_os.Vm.Tlb.{tlb_invalid}
use longcat_os.Vm.Coherence.{home, pte_home}
use longcat_os.Vm.Sound.{TlbOk, Sound}
use longcat_os.Bitmap.{Bitmap, bitmap_create, bitmap_mark}
use longcat_os.Bitmap.Create.{bitmap_create-Fresh}
use longcat_os.Bitmap.Change.{bitmap_mark-Changed}
use longcat_os.Vm.Start.{kmalloc, vm_bootstrap, swap_init}
use longcat_os.Vm.Search.{evictable}
use longcat_os.Vm.Swapin.{Idle}
use longcat_os.Vm.Get.{Ready}
use longcat_os.Bitmap.View.{bit_at, IsBitmap}

-- Nobody has a frame or a page in memory.
pub record Blank (s : Vm) : Type 0 where
  pub free : (i : ℕ) → (s.entries i).owner ≡ none
  pub flags : (i : ℕ) → (s.entries i).tlb ≡ false
  pub absent : (a v : ℕ) (p : Pte) → pte_at s a v ≡ some p → p.present ≡ false
  pub homeless : (a v : ℕ) → home s a v ≡ 0
  pub buffer : (k : ℕ) → k < num_tlb → s.tlbs k ≡ tlb_invalid k
  pub swap_ok : IsBitmap s.swap
  pub block_zero : bit_at s.swap.v 0 ≡ 1
  pub swap_small : s.swap.nbits ≤ 2 ^ 19
  pub pages_small : s.num_pages ≤ 2 ^ 20
  pub swaps : s.can_swap ≡ true
  pub frame_zero : (s.entries 0).kpage ≡ true

-- An empty translation buffer
pub empty-TlbOk :
    (cur : ℕ) (s : Vm)
    → ((i : ℕ) → (s.entries i).tlb ≡ false)
    → ((k : ℕ) → k < num_tlb → s.tlbs k ≡ tlb_invalid k)
    → TlbOk cur s
empty-TlbOk cur s f b = record {
  tracked = λ i e. (let n = f i in absurd (ground (arith, e, n)));
  current =
      λ k l e. (let n = ap (λ (x : TlbEntry). x.valid) (b k l) in absurd (ground (arith, e, n)));
  distinct = λ k k' l l' e.
      omega (arith, e, ap (λ (x : TlbEntry). x.hi) (b k l), ap (λ (x : TlbEntry). x.hi) (b k' l'));
  range = λ k l. inr (ap (λ (x : TlbEntry). x.hi) (b k l));
}

pub Blank-Sound : (cur : ℕ) (s : Vm) → Blank s → Sound cur s
Blank-Sound cur s b = record {
  coherent = record {
    frames = λ i a e. (let n = b.free i in absurd (ground (arith, e, n)));
    pages = λ a v p e r. (let n = b.absent a v p e in absurd (ground (arith, r, n)));
    homes = λ a v a' v' n e. absurd (n (b.homeless a v));
    marked = λ a v n. absurd (n (b.homeless a v));
    swap_ok = b.swap_ok;
    block_zero = b.block_zero;
    swap_small = b.swap_small;
    pages_small = b.pages_small;
    swaps = b.swaps;
    frame_zero = b.frame_zero;
  };
  tlb_ok = empty-TlbOk cur s b.flags b.buffer;
}

-- The machine before vm_bootstrap: no address space, an empty translation buffer, and nothing behind
-- the array of the coremap.
pub record Cold (s : Vm) : Type 0 where
  pub no_spaces : (a i : ℕ) → (s.spaces a).pd i ≡ none
  pub no_tlb : (k : ℕ) → k < num_tlb → s.tlbs k ≡ tlb_invalid k
  pub behind : (j : ℕ) → ram_pages ≤ j → s.entries j ≡ unused false

-- The machine with the coremap filled
abbrev cool : Vm → ℕ → ℕ → Vm
cool s f l = record s {
  can_swap = false;
  num_kpages = f;
  num_dirty = 0;
  clock_head = 0;
  entries = filled f l s.entries;
  num_pages = l;
}

fill_coremap_lem : (s : Vm) (f l : ℕ) → f + 8 ≤ l → fill_coremap f l s ≡ ret tt (cool s f l)
unfolding fill_coremap
fill_coremap_lem s f l h = ground arith

cool-Layout :
    (s : Vm) (f l : ℕ) → Cold s → f + 8 ≤ l → l ≤ ram_pages → Layout l f (cool s f l).entries
cool-Layout s f l c fl lr =
    let all = λ (P : CmEntry → Type 0) (p : (j : ℕ) → P (stolen j)) (q : (t : Bool) → P (unused t)).
      filled_all f l s.entries (omega arith) lr P p q
        (λ j h. subst P (sym (c.behind j h)) (q false)) in
    record {
      user = λ j p q. filled_user f l s.entries (omega arith) lr j p q;
      kernel =
          λ j p. ap (λ (x : CmEntry). x.kpage) (filled_kernel f l s.entries (omega arith) lr j p);
      exists =
          λ j p. ap (λ (x : CmEntry). x.exists) (filled_kernel f l s.entries (omega arith) lr j p);
      owner = all (λ x. x.owner ≡ none) (λ j. refl) (λ t. refl);
      busy = all (λ x. x.busy ≡ false) (λ j. refl) (λ t. refl);
      flag = all (λ x. x.tlb ≡ false) (λ j. refl) (λ t. refl);
    }

vm_bootstrap_lem :
    (io : Bool) (s t u w : Vm) (f l : ℕ) (c c' : List ℕ)
    → fill_coremap f l s ≡ ret tt t
    → kmalloc io c t ≡ ret true u
    → kmalloc io c' u ≡ ret true w
    → vm_bootstrap f l io c c' s ≡ ret tt w
unfolding vm_bootstrap
vm_bootstrap_lem io s t u w f l c c' e g h = ground (arith, e, g, h)

swap_init_lem :
    (io : Bool) (s t u w : Vm) (size : ℕ) (c c' c'' : List ℕ) (b b' : Bitmap)
    → kmalloc io c s ≡ ret true t
    → kmalloc io c' t ≡ ret true u
    → kmalloc io c'' u ≡ ret true w
    → bitmap_create (size / page_size) true true w ≡ ret (some b) w
    → bitmap_mark 0 b ≡ ret tt b'
    → swap_init size io c c' c'' s ≡ ret tt (record w { swap = b'; can_swap = true })
unfolding swap_init
swap_init_lem io s t u w size c c' c'' b b' e g h k m = ground (arith, e, g, h, k, m)

vm_bootstrap-Layout :
    (s : Vm) (io : Bool) (f l : ℕ) (w w' : List ℕ)
    → Cold s
    → Positive w
    → Positive w'
    → f + pages w + pages w' + 8 ≤ l
    → l ≤ ram_pages
    → (e : ℕ → CmEntry) × (r : ℕ → ℕ) × (vm_bootstrap f l io w w' s
        ≡ ret tt (stage (cool s f l) e r (f + pages w + pages w')))
      × Layout l (f + pages w + pages w') e
vm_bootstrap-Layout s io f l w w' c p p' m lr =
    let a = cool-Layout s f l c (omega arith) lr in
    let (e, r, q, b) = kmalloc-Layout io l w f (cool s f l) p a refl refl (omega arith) lr in
    let t = stage (cool s f l) e r (f + pages w) in
    let (e', r', q', b') = kmalloc-Layout io l w' (f + pages w) t p' b refl refl m lr in
    (
      e',
      r',
      vm_bootstrap_lem io s (cool s f l) t (stage t e' r' (f + pages w + pages w')) f l w w'
          (fill_coremap_lem s f l (omega arith)) q q',
      b',
    )

-- The bitmap of the swap area: block 0 is in use, block 1 is free.
record Mapped (size : ℕ) (b : Bitmap) : Type 0 where
  ok : IsBitmap b
  zero_used : bit_at b.v 0 ≡ 1
  one_free : bit_at b.v 1 ≡ 0
  same_nbits : b.nbits ≡ size / page_size

swap_map-Mapped :
    (size : ℕ)
    → 2 * page_size ≤ size
    → size / page_size ≤ 2 ^ 19
    → (b b' : Bitmap) × ((s : Vm) → bitmap_create (size / page_size) true true s ≡ ret (some b) s)
      × (bitmap_mark 0 b ≡ ret tt b')
      × Mapped size b'
swap_map-Mapped size big small =
    let (b, e, h) = bitmap_create-Fresh {S = Vm} (size / page_size) (omega arith) in
    let (b', q, g) =
      bitmap_mark-Changed b 0 h.ok (omega (arith, h.same_nbits)) (h.clear 0 (omega arith)) in
    (
      b,
      b',
      e,
      q,
      record {
        ok = g.ok;
        zero_used = g.here;
        one_free = g.others 1 (omega arith) ∙ h.clear 1 (omega arith);
        same_nbits = g.same_nbits ∙ h.same_nbits;
      },
    )

swap_init-Layout :
    (s : Vm) (io : Bool) (l k size : ℕ) (i m v : List ℕ)
    → Layout l k s.entries
    → s.num_kpages ≡ k
    → s.num_pages ≡ l
    → Positive i
    → Positive m
    → Positive v
    → k + pages i + pages m + pages v + 8 ≤ l
    → l ≤ ram_pages
    → 2 * page_size ≤ size
    → size / page_size ≤ 2 ^ 19
    → (e : ℕ → CmEntry) × (r : ℕ → ℕ) × (b : Bitmap) × (swap_init size io i m v s
        ≡ ret tt
            (record (stage s e r (k + pages i + pages m + pages v)) { swap = b; can_swap = true }))
      × Layout l (k + pages i + pages m + pages v) e
      × Mapped size b
swap_init-Layout s io l k size i m v a kp np pi pm pv fits lr big small =
    let (e1, r1, q1, a1) = kmalloc-Layout io l i k s pi a kp np (omega arith) lr in
    let s1 = stage s e1 r1 (k + pages i) in
    let (e2, r2, q2, a2) = kmalloc-Layout io l m (k + pages i) s1 pm a1 refl np (omega arith) lr in
    let s2 = stage s e2 r2 (k + pages i + pages m) in
    let (e3, r3, q3, a3) = kmalloc-Layout io l v (k + pages i + pages m) s2 pv a2 refl np fits lr in
    let s3 = stage s e3 r3 (k + pages i + pages m + pages v) in
    let (b, b', e, q, h) = swap_map-Mapped size big small in
    (e3, r3, b', swap_init_lem io s s1 s2 s3 size i m v b b' q1 q2 q3 (e s3) q, a3, h)

-- The machine after swap_init, with the frames below `k` in the hands of the kernel
module _ (s : Vm) (c : Cold s) (f l k : ℕ) (k0 : 0 < k) (kl : k + 8 ≤ l) (lr : l ≤ ram_pages)
    (e : ℕ → CmEntry) (r : ℕ → ℕ) (a : Layout l k e) (b : Bitmap) (ok : IsBitmap b)
    (z : bit_at b.v 0 ≡ 1) (small : b.nbits ≤ 2 ^ 19) where
  abbrev warm : Vm
  warm = record (stage (cool s f l) e r k) { swap = b; can_swap = true }

  no_pte : (a v : ℕ) → pte_at warm a v ≡ none
  unfolding dir_read
  no_pte a v = (let n = c.no_spaces a (vaddr_to_pt v) in ground (arith, n))

  warm-Blank : Blank warm
  warm-Blank = record {
    free = a.owner;
    flags = a.flag;
    absent = λ a v p e. (let n = no_pte a v in absurd (ground (arith, e, n)));
    homeless = λ a v. ap (pte_home warm.entries) (no_pte a v);
    buffer = c.no_tlb;
    swap_ok = ok;
    block_zero = z;
    swap_small = small;
    pages_small = omega arith;
    swaps = refl;
    frame_zero = a.kernel 0 k0;
  }

  warm-Ready : 1 < b.nbits → bit_at b.v 1 ≡ 0 → Ready warm
  warm-Ready m n = record {
    clock = omega arith;
    frame = k;
    below = omega arith;
    evicts = ap evictable (a.user k (omega arith) (omega arith));
    room = record { block = 1; below = m; clear = n };
  }

-- vm_bootstrap, any allocations of the kernel after it, and swap_init, on a machine with at most
-- RAM_PAGES frames of which the image of the kernel, the coremap and the pages that all these
-- allocations take leave 8, with no address space yet and a swap disk of 2 to 2 ^ 19 blocks: they
-- succeed and make the invariant true with no frame busy, and page_get can hand out a frame.
pub boot-Sound :
    (cur : ℕ) (s : Vm) (io : Bool) (f l size : ℕ) (w w' other i m v : List ℕ)
    → Cold s
    → 0 < f
    → Positive w
    → Positive w'
    → Positive other
    → Positive i
    → Positive m
    → Positive v
    → f + pages w + pages w' + pages other + pages i + pages m + pages v + 8 ≤ l
    → l ≤ ram_pages
    → 2 * page_size ≤ size
    → size / page_size ≤ 2 ^ 19
    → (t : Vm) × ((vm_bootstrap f l io w w' >> (kmalloc io other >>= λ _. swap_init size io i m v))
          s
        ≡ ret tt t)
      × Sound cur t
      × Idle t
      × Ready t
boot-Sound cur s io f l size w w' other i m v c f0 pw pw' po pi pm pv fits lr big small =
    let (e1, r1, q1, a1) = vm_bootstrap-Layout s io f l w w' c pw pw' (omega arith) lr in
    let k1 = f + pages w + pages w' in
    let s1 = stage (cool s f l) e1 r1 k1 in
    let (e2, r2, q2, a2) = kmalloc-Layout io l other k1 s1 po a1 refl refl (omega arith) lr in
    let k2 = k1 + pages other in
    let s2 = stage (cool s f l) e2 r2 k2 in
    let (e, r, b, q, a, h) =
      swap_init-Layout s2 io l k2 size i m v a2 refl refl pi pm pv fits lr big small in
    let k = k2 + pages i + pages m + pages v in
    let blank =
      warm-Blank s c f l k (omega arith) fits lr e r a b h.ok h.zero_used
        (omega (arith, h.same_nbits)) in
    (
      warm s c f l k (omega arith) fits lr e r a b h.ok h.zero_used (omega (arith, h.same_nbits)),
      bind-ret (vm_bootstrap f l io w w') (λ x. kmalloc io other >>= λ _. swap_init size io i m v) s
            s1 tt q1
          ∙ bind-ret (kmalloc io other) (λ _. swap_init size io i m v) s1 s2 true q2
          ∙ q,
      Blank-Sound cur _ blank,
      a.busy,
      warm-Ready s c f l k (omega arith) fits lr e r a b h.ok h.zero_used
          (omega (arith, h.same_nbits)) (omega (arith, h.same_nbits)) h.one_free,
    )
