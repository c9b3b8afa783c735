-- ===== src/Vm/Get.antt =====
-- page_get of kern/vm/paging.c as a whole.
use longcat_os.Base.{
  ℕ, zero, suc, none, some, true, false, ◌<◌, ◌≡◌, ◌≢◌, arith, refl, ap, ◌∙◌, Option-cases, inl,
  inr,
}
use longcat_os.Base.Outcome.{ret}
use longcat_os.Base.Store.{store_self, store_ne, store-proj}
use longcat_os.Vm.{Vm, CmEntry}
use longcat_os.Vm.Like.{Like, Like-SameBytes, Like-trans, entry-Like, rest-Like}
use longcat_os.Vm.Sound.{Sound, flags-Sound}
use longcat_os.Vm.Transfer.{Room}
use longcat_os.Vm.Search.{
  FoundFree, NoFree, taken, find_free_lem, find_clean_lem, at_head, evictable, choose_victim-Victim,
}
use longcat_os.Vm.WriteOut.{page_write_out-Clean}
use longcat_os.Vm.Evict.{Got, out, out-Got, unmap_page-out, page_evict_lem}
use longcat_os.Vm.Paging.{is_free, find_free, page_evict, page_get}

-- page_get is asked where it can succeed: the clock is on a frame, some frame may be evicted, and
-- there is room in the swap area.
pub record Ready (s : Vm) : Type 0 where
  pub clock : s.clock_head < s.num_pages
  pub frame : ℕ
  pub below : frame < s.num_pages
  pub evicts : evictable (s.entries frame) ≡ true
  pub room : Room s.swap

-- Taking frame `i` with the clock at `h`
module _ (cur : ℕ) (s : Vm) (d : Sound cur s) (i h : ℕ) where
  abbrev held : Vm
  held = taken (at_head s h) i

  held-Like : Like s held
  held-Like =
      Like-trans s (at_head s h) held (rest-Like s s.num_kpages s.num_dirty h s.tlbs)
        (entry-Like (at_head s h) i (record (s.entries i) { busy = true }) refl)

  held-Sound : Sound cur held
  held-Sound =
      flags-Sound cur s held held-Like refl
        (λ j. store-proj (λ (x : CmEntry). x.tlb) s.entries i j _ refl) d

  held_self : held.entries i ≡ record (s.entries i) { busy = true }
  held_self = store_self s.entries i _

  held_others : (j : ℕ) → i ≢ j → (held.entries j).busy ≡ (s.entries j).busy
  held_others j n = ap (λ (x : CmEntry). x.busy) (store_ne s.entries i j _ n)

  held_owner : (held.entries i).owner ≡ (s.entries i).owner
  held_owner = ap (λ (x : CmEntry). x.owner) held_self

  Got-held : (t : Vm) → Got cur held i t → Got cur s i t
  Got-held t g = record {
    sound = g.sound;
    same_bytes = λ a v. g.same_bytes a v ∙ Like-SameBytes s held held-Like a v;
    absent = g.absent;
    pages = g.pages;
    clock = g.clock;
    below = g.below;
    owner = g.owner;
    no_kpage = g.no_kpage;
    busy = g.busy;
    others = λ j n. g.others j n ∙ held_others j n;
  }

pub free_owner : (c : CmEntry) → is_free c ≡ true → c.owner ≡ none
free_owner c e = elim (Option-cases c.owner) [
  | inl q ↦ q
  | inr (a, q) ↦ absurd (ground (arith, e, q))
]

victim_owner : (c : CmEntry) → is_free c ≡ false → evictable c ≡ true → (a : ℕ) × (c.owner ≡ some a)
victim_owner c e v = elim (Option-cases c.owner) [
  | inr (a, q) ↦ (a, q)
  | inl q ↦ absurd (ground (arith, e, v, q))
]

-- Frame 0 is the kernel's.
evictable_pos :
    (s : Vm) (i : ℕ) → (s.entries 0).kpage ≡ true → evictable (s.entries i) ≡ true → 0 < i
evictable_pos s zero k e = absurd (ground (arith, k, e))
evictable_pos s (suc i) k e = omega arith

page_get_free :
    (s t : Vm) (i : ℕ) → find_free s.num_pages 0 s ≡ ret (some i) t → page_get true s ≡ ret i t
unfolding page_get
page_get_free s t i e = ground (arith, e)

page_get_evict :
    (s : Vm) → find_free s.num_pages 0 s ≡ ret none s → page_get true s ≡ page_evict true s
unfolding page_get
page_get_evict s e = ground (arith, e)

module _ (cur : ℕ) (s : Vm) (d : Sound cur s) (r : Ready s) where
  get_free :
      (i : ℕ)
      → FoundFree s 0 s.num_pages i
      → find_free s.num_pages 0 s ≡ ret (some i) (taken s i)
      → (i : ℕ) × (t : Vm) × (page_get true s ≡ ret i t) × Got cur s i t
  get_free i f e =
      let q = held_self cur s d i s.clock_head in
      let n : (s.entries i).kpage ≡ false = ground (arith, f.free) in
      (
        i,
        taken s i,
        page_get_free s (taken s i) i e,
        record {
          sound = held-Sound cur s d i s.clock_head;
          same_bytes = Like-SameBytes s (taken s i) (held-Like cur s d i s.clock_head);
          absent = λ a v p u w. u;
          pages = refl;
          clock = r.clock;
          below = omega (arith, f.below);
          owner = held_owner cur s d i s.clock_head ∙ free_owner (s.entries i) f.free;
          no_kpage = ap (λ (x : CmEntry). x.kpage) q ∙ n;
          busy = ap (λ (x : CmEntry). x.busy) q;
          others = held_others cur s d i s.clock_head;
        },
      )

  get_evict :
      NoFree s 0 s.num_pages
      → find_free s.num_pages 0 s ≡ ret none s
      → (i : ℕ) × (t : Vm) × (page_get true s ≡ ret i t) × Got cur s i t
  get_evict f e =
      let (h, l, c) = find_clean_lem s s.num_pages r.clock f in
      let (i, h', v, w) = choose_victim-Victim (at_head s h) r.frame l r.below r.evicts in
      let (a, o) =
        victim_owner (s.entries i) (f i (omega arith) (omega (arith, w.below))) w.evicts in
      let b = ap (λ (x : CmEntry). x.busy) (held_self cur s d i h') in
      let (t, q, k) =
        page_write_out-Clean cur (held cur s d i h') (held-Sound cur s d i h') i a
          (held_owner cur s d i h' ∙ o) b r.room in
      let pos = evictable_pos s i d.coherent.frame_zero w.evicts in
      let u = out cur (held cur s d i h') i a t k in
      (
        i,
        u,
        page_get_evict s e
            ∙ page_evict_lem s t u h h' i c v q
                (unmap_page-out cur (held cur s d i h') i a t k pos),
        Got-held cur s d i h' u (
            out-Got cur (held cur s d i h') i a t k
              (omega (arith, k.kept.clock, k.kept.pages, w.head)) b),
      )

  -- Where a frame may be evicted and a swap area of at most 2 ^ 19 blocks has room and a device that
  -- serves every transfer, page_get gives a frame that is busy and that no address space owns; every
  -- page keeps its bytes, and the pages that were not in memory keep their entries.
  pub page_get-Got : (i : ℕ) × (t : Vm) × (page_get true s ≡ ret i t) × Got cur s i t
  page_get-Got = elim (find_free_lem s s.num_pages 0) [
    | inl (i, f, e) ↦ get_free i f e
    | inr (f, e) ↦ get_evict f e
  ]
