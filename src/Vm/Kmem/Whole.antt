-- ===== src/Vm/Kmem/Whole.antt =====
-- alloc_kpages and free_kpages as a whole.
use longcat_os.Base.{
  if◌then◌else◌, ℕ, Option, none, some, Bool, true, false, ◌+◌, ◌-◌, ◌%◌, ◌^◌, ◌<◌, ◌≤◌, ◌≡◌, ◌≢◌,
  ◌⊎◌, inl, arith, refl, sym, ap, subst, ◌∙◌, ℕ_discrete, ◌==◌, ltb,
}
use longcat_os.Base.Outcome.{ret, return, ◌>>=◌, ◌>>◌}
use longcat_os.Base.Gives.{bind-ret}
use longcat_os.Vm.{Vm}
use longcat_os.Vm.Coherence.{SameBytes}
use longcat_os.Vm.Like.{Like-SameBytes, rest-Like}
use longcat_os.Vm.Sound.{Sound, flags-Sound}
use longcat_os.Vm.Paging.{page_get}
use longcat_os.Vm.Get.{Ready, page_get-Got, free_owner}
use longcat_os.Vm.Boot.{ram_pages, min_user_pages, kvaddr}
use longcat_os.Vm.Kmem.{
  num_tries, find_block, find_pages, claim, zero_frames, count_kpages, give_block, alloc_kpages,
}
use longcat_os.Vm.Kmem.Block.{KernelFrame, claim-Taken, zero_frames-Zeroed}
use longcat_os.Vm.Kmem.Find.{FreeBlock, find_block-FreeBlock, find_block-some}

-- The `n` frames from `b` on belong to the kernel and hold zeros; every page has its bytes.
pub record Allocated (cur : ℕ) (s : Vm) (n b : ℕ) (t : Vm) : Type 0 where
  pub sound : Sound cur t
  pub same_bytes : SameBytes s t
  pub inside : (j : ℕ) → b ≤ j → j < b + n → KernelFrame (t.entries j) (j == b)
  pub outside : (j : ℕ) → (j < b) ⊎ (b + n ≤ j) → t.entries j ≡ s.entries j
  pub zeros : (j : ℕ) → b ≤ j → j < b + n → t.ram j ≡ 0
  pub count : t.num_kpages ≡ (s.num_kpages + n) % 2 ^ 32

abbrev counted : Vm → ℕ → Vm
counted t n = record t { num_kpages = (t.num_kpages + n) % 2 ^ 32 }

pub give_block_lem :
    (s t u : Vm) (n b : ℕ)
    → claim n b true s ≡ ret tt t
    → zero_frames n b t ≡ ret tt u
    → give_block n (some b) s ≡ ret (kvaddr b) (counted u n)
give_block_lem s t u n b e f =
    bind-ret (claim n b true) (λ x. zero_frames n b >> (count_kpages n >> return (kvaddr b))) s t tt
      e
    ∙ bind-ret (zero_frames n b) (λ x. count_kpages n >> return (kvaddr b)) t u tt f

give_block-Allocated :
    (cur : ℕ) (s : Vm)
    → Sound cur s
    → (n b : ℕ) → ((j : ℕ) → b ≤ j → j < b + n → (s.entries j).owner ≡ none)
    → (t : Vm) × (give_block n (some b) s ≡ ret (kvaddr b) t) × Allocated cur s n b t
give_block-Allocated cur s d n b o =
    let (t, e, g) = claim-Taken cur s d n b true o in
    let (u, f, h) = zero_frames-Zeroed cur t g.sound n b (λ j p q. (g.inside j p q).owner) in
    let l = rest-Like u (counted u n).num_kpages u.num_dirty u.clock_head u.tlbs in
    (
      counted u n,
      give_block_lem s t u n b e f,
      record {
        sound = flags-Sound cur u (counted u n) l refl (λ j. refl) h.sound;
        same_bytes =
            λ a v. Like-SameBytes u (counted u n) l a v ∙ h.same_bytes a v ∙ g.same_bytes a v;
        inside = λ j p q.
            subst (λ c. KernelFrame c (j == b)) (ap (λ f. f j) (sym h.entries)) (g.inside j p q);
        outside = λ j o. ap (λ f. f j) h.entries ∙ g.outside j o;
        zeros = h.zeros;
        count = ap (λ x. (x + n) % 2 ^ 32) (h.count ∙ g.count);
      },
    )

pub alloc_kpages_lem :
    (io : Bool) (s u : Vm) (n : ℕ) (o : Option ℕ)
    → s.num_kpages + n + min_user_pages ≤ s.num_pages
    → s.num_pages < 2 ^ 32
    → find_pages num_tries n io s ≡ ret o u
    → alloc_kpages io n s ≡ give_block n o u
unfolding alloc_kpages
alloc_kpages_lem io s u n o l m e =
    let enough : min_user_pages ≤ (s.num_pages + 2 ^ 32 - (s.num_kpages + n) % 2 ^ 32) % 2 ^ 32 =
      omega arith in
    let test : ltb ((s.num_pages + 2 ^ 32 - (s.num_kpages + n) % 2 ^ 32) % 2 ^ 32) min_user_pages
        ≡ false =
      ground (arith, enough) in
    ap
      (λ b. (if b then return 0 else (find_pages num_tries n io >>= λ start. give_block n start)) s)
      test
    ∙ bind-ret (find_pages num_tries n io) (λ start. give_block n start) s u o e

pub find_pages_found :
    (io : Bool) (s : Vm) (n b : ℕ)
    → find_block n ram_pages 0 0 none s.entries ≡ (n, some b)
    → find_pages num_tries n io s ≡ ret (some b) s
unfolding find_pages
find_pages_found io s n b e = ground (arith, e)

-- Where the first search finds a block, alloc_kpages gives it to the kernel: its frames were free, and
-- are the kernel's and hold zeros then; no other frame and no page changes.
pub alloc_kpages-Allocated :
    (cur : ℕ) (s : Vm)
    → Sound cur s
    → (io : Bool) (n b : ℕ) → 0 < n
    → s.num_kpages + n + min_user_pages ≤ s.num_pages
    → find_block n ram_pages 0 0 none s.entries ≡ (n, some b)
    → FreeBlock s.entries n b
      × ((t : Vm) × (alloc_kpages io n s ≡ ret (kvaddr b) t) × Allocated cur s n b t)
alloc_kpages-Allocated cur s d io n b l m e =
    let free = find_block-FreeBlock n ram_pages 0 0 none s.entries (inl refl) l b e in
    let (t, f, g) =
      give_block-Allocated cur s d n b (λ j p q. free_owner (s.entries j) (free j p q)) in
    (
      free,
      (
        t,
        alloc_kpages_lem io s s n (some b) m (omega (arith, d.coherent.pages_small))
              (find_pages_found io s n b e)
            ∙ f,
        g,
      ),
    )

find_pages_evict :
    (s t : Vm) (i : ℕ)
    → (find_block 1 ram_pages 0 0 none s.entries).0 ≢ 1
    → page_get true s ≡ ret i t
    → find_pages num_tries 1 true s ≡ ret (some i) t
unfolding find_pages
find_pages_evict s t i n e = ground (arith, n, e)

-- alloc_kpages of one page, where enough pages are left to the users, a frame may be evicted and a
-- swap area of at most 2 ^ 19 blocks has room and a device that serves every transfer, gives the
-- address of a frame that is the kernel's and holds zeros, and no page changes its bytes.
pub alloc_kpages_one :
    (cur : ℕ) (s : Vm)
    → Sound cur s
    → Ready s
    → s.num_kpages + 1 + min_user_pages ≤ s.num_pages
    → (i : ℕ) × (t : Vm) × (alloc_kpages true 1 s ≡ ret (kvaddr i) t)
      × Sound cur t
      × SameBytes s t
      × KernelFrame (t.entries i) true
      × (t.ram i ≡ 0)
alloc_kpages_one cur s d r m =
    let found = find_block 1 ram_pages 0 0 none s.entries in
    let here = λ (i : ℕ). (let q : (i == i) ≡ true = ground arith in q) in
    elim (ℕ_discrete found.0 1) [
      | yes q ↦
          (let (b, e) = find_block-some 1 ram_pages 0 0 none s.entries (inl refl) (omega arith) q in
            let (free, (t, f, g)) = alloc_kpages-Allocated cur s d true 1 b (omega arith) m e in
            (
              b,
              t,
              f,
              g.sound,
              g.same_bytes,
              subst (KernelFrame (t.entries b)) (here b) (g.inside b (omega arith) (omega arith)),
              g.zeros b (omega arith) (omega arith),
            ))
      | no q ↦
          (let (i, u, e, k) = page_get-Got cur s d r in
            let (t, f, g) =
              give_block-Allocated cur u k.sound 1 i
                (λ j a b. ap (λ x. (u.entries x).owner) {x = j} {y = i} (omega arith) ∙ k.owner) in
            (
              i,
              t,
              alloc_kpages_lem true s u 1 (some i) m (omega (arith, d.coherent.pages_small))
                    (find_pages_evict s u i q e)
                  ∙ f,
              g.sound,
              (λ a v. g.same_bytes a v ∙ k.same_bytes a v),
              subst (KernelFrame (t.entries i)) (here i) (g.inside i (omega arith) (omega arith)),
              g.zeros i (omega arith) (omega arith),
            ))
    ]
