-- ===== src/Vm/Sbrk/Whole.antt =====
-- sys_sbrk with a negative amount.
use longcat_os.Base.{
  ℕ, zero, suc, Bool, ◌+◌, ◌-◌, ◌*◌, ◌/◌, ◌%◌, ◌^◌, ◌<◌, ◌≤◌, ◌≡◌, ◌≢◌, ◌⊎◌, inl, inr, arith, refl,
  ap, subst, ◌∙◌, dec_lt,
}
use longcat_os.Base.Int.{negsuc}
use longcat_os.Base.Outcome.{ret, ◌>>◌}
use longcat_os.Base.Gives.{bind-ret}
use longcat_os.Base.Store.{store, store_self, store-proj}
use longcat_os.Vm.{Vm, Space, page_size, dir_read, vaddr_to_pt, vaddr_to_pte}
use longcat_os.Vm.Coherence.{bytes, bytes-same}
use longcat_os.Vm.Like.{Like, Like-SameBytes}
use longcat_os.Vm.Sound.{Sound, flags-Sound}
use longcat_os.Vm.Swapin.{Idle}
use longcat_os.Vm.Sbrk.{shrink_page, shrink_pages, heap_end, sys_sbrk}
use longcat_os.Vm.Sbrk.Leave.{Dropped}
use longcat_os.Vm.Sbrk.Shrink.{HeapPage, shrink_page-Dropped}

-- The page at `x` of the address space `b` is not one of the pages of `a` from `lo` up to `hi`.
abbrev pub Outside : ℕ → ℕ → ℕ → ℕ → ℕ → Type 0
Outside a lo hi b x = (a ≢ b) ⊎ ((x / 2 ^ 12 < lo / 2 ^ 12) ⊎ (hi / 2 ^ 12 ≤ x / 2 ^ 12))

-- The pages of `a` from `lo` up to `hi` are gone.
pub record Shrunk (cur : ℕ) (s : Vm) (a lo hi : ℕ) (t : Vm) : Type 0 where
  pub sound : Sound cur t
  pub idle : Idle t
  pub zeros : (x : ℕ) → lo ≤ x → x < hi → bytes t a x ≡ 0
  pub same_bytes : (b x : ℕ) → Outside a lo hi b x → bytes t b x ≡ bytes s b x

shrink_pages_lem :
    (s t : Vm) (a n v : ℕ)
    → page_size ≤ v
    → v < 2 ^ 32
    → shrink_page a (v - page_size) s ≡ ret tt t
    → shrink_pages a (suc n) v s ≡ shrink_pages a n (v - page_size) t
unfolding shrink_pages
shrink_pages_lem s t a n v l m e =
    let q : (v + 2 ^ 32 - page_size) % 2 ^ 32 ≡ v - page_size = omega arith in
    ap (λ x. (shrink_page a x >> shrink_pages a n x) s) q
    ∙ bind-ret (shrink_page a (v - page_size)) (λ x. shrink_pages a n (v - page_size)) s t tt e

-- A page of the heap that is not the dropped one is still one.
keep :
    (cur : ℕ) (s t : Vm) (a v x : ℕ)
    → Dropped cur s a v t
    → v / 2 ^ 12 ≢ x / 2 ^ 12
    → HeapPage s a x
    → HeapPage t a x
keep cur s t a v x d n h = record {
  pte = h.pte;
  at = d.same_ptes a x (inr n) ∙ h.at;
  state = h.state;
}

-- The pages below, and the dropped page
Shrunk-step :
    (cur : ℕ) (s u t : Vm) (a n v : ℕ)
    → suc n * page_size ≤ v
    → v % page_size ≡ 0
    → Dropped cur s a (v - page_size) u
    → Shrunk cur u a (v - page_size - n * page_size) (v - page_size) t
    → Shrunk cur s a (v - suc n * page_size) v t
Shrunk-step cur s u t a n v l z k g = record {
  sound = g.sound;
  idle = g.idle;
  zeros = λ x p q. elim (dec_lt x (v - page_size)) [
    | yes w ↦ g.zeros x (omega arith) w
    | no w ↦
        g.same_bytes a x (inr (inr (omega arith)))
        ∙ bytes-same u a x a (v - page_size) (refl, omega arith)
        ∙ k.zeros
  ];
  same_bytes = λ b x o. elim o [
    | inl w ↦ g.same_bytes b x (inl w) ∙ k.same_bytes b x (inl w)
    | inr w ↦ elim w [
      | inl y ↦ g.same_bytes b x (inr (inl (omega arith))) ∙ k.same_bytes b x (inr (omega arith))
      | inr y ↦ g.same_bytes b x (inr (inr (omega arith))) ∙ k.same_bytes b x (inr (omega arith))
    ]
  ];
}

shrink_pages-Shrunk :
    (cur : ℕ) (s : Vm)
    → Sound cur s
    → Idle s
    → (a n v : ℕ) → n * page_size ≤ v
    → v < 2 ^ 32
    → v % page_size ≡ 0
    → ((x : ℕ) → v ≤ x + n * page_size → x < v → HeapPage s a x)
    → (t : Vm) × (shrink_pages a n v s ≡ ret tt t) × Shrunk cur s a (v - n * page_size) v t
unfolding shrink_pages
shrink_pages-Shrunk cur s d idle a zero v l m z h = (
  s,
  refl,
  record {
    sound = d;
    idle = idle;
    zeros = λ x p q. absurd (omega arith);
    same_bytes = λ b x o. refl;
  },
)
shrink_pages-Shrunk cur s d idle a (suc n) v l m z h =
    let (u, e, k) =
      shrink_page-Dropped cur s d idle a (v - page_size)
        (h (v - page_size) (omega arith) (omega arith)) in
    let (t, f, g) =
      shrink_pages-Shrunk cur u k.sound k.idle a n (v - page_size) (omega arith) (omega arith)
        (omega arith)
        (λ x p q.
          keep cur s u a (v - page_size) x k (omega arith) (h x (omega arith) (omega arith))) in
    (t, shrink_pages_lem s u a n v (omega arith) m e ∙ f, Shrunk-step cur s u t a n v l z k g)

-- Setting the size of the heap changes no page.
abbrev pub heap_set : Vm → ℕ → ℕ → Vm
heap_set s a size = record s {
  spaces = store s.spaces a (record (s.spaces a) { heap_size = size % 2 ^ 32 });
}

pub heap_set-Like : (s : Vm) (a size : ℕ) → Like s (heap_set s a size)
heap_set-Like s a size = record {
  shape = record {
    cores = λ i. refl;
    ptes = λ b v.
        ap (λ pd. dir_read pd (vaddr_to_pt v) (vaddr_to_pte v))
          (store-proj (λ (x : Space). x.pd) s.spaces a b _ refl);
    same_pages = refl;
    same_swap = refl;
    same_can = refl;
  };
  same_ram = refl;
  same_disk = refl;
}

heap_set-Shrunk :
    (cur : ℕ) (s t : Vm) (a lo hi size : ℕ)
    → Shrunk cur s a lo hi t
    → Shrunk cur s a lo hi (heap_set t a size)
heap_set-Shrunk cur s t a lo hi size g =
    let b = Like-SameBytes t (heap_set t a size) (heap_set-Like t a size) in
    record {
      sound =
          flags-Sound cur t (heap_set t a size) (heap_set-Like t a size) refl (λ j. refl) g.sound;
      idle = g.idle;
      zeros = λ x p q. b a x ∙ g.zeros x p q;
      same_bytes = λ c x o. b c x ∙ g.same_bytes c x o;
    }

sys_sbrk_lem :
    (mem : Bool) (s t : Vm) (a n : ℕ)
    → suc n % page_size ≡ 0
    → (s.spaces a).heap_start % page_size ≡ 0
    → (s.spaces a).heap_size < 2 ^ 31
    → suc n ≤ (s.spaces a).heap_size
    → shrink_pages a (suc n / page_size) (heap_end s a) s ≡ ret tt t
    → sys_sbrk mem a (negsuc n) s
      ≡ ret (heap_end s a) (heap_set t a ((s.spaces a).heap_size + 2 ^ 32 - suc n))
unfolding sys_sbrk
sys_sbrk_lem mem s t a n z y l m e = ground (arith, z, y, l, m, e)

-- sys_sbrk with a negative amount that is a multiple of the page size and no more than the heap, on a
-- heap whose pages are as sys_sbrk and the pager leave them: the call returns the old end of the heap
-- and the heap is smaller by the amount; the pages behind its new end read as zeros, and
-- every other page of every process keeps its bytes.
pub sys_sbrk-Shrunk :
    (cur : ℕ) (s : Vm)
    → Sound cur s
    → Idle s
    → (mem : Bool) (a n : ℕ) → suc n % page_size ≡ 0
    → (s.spaces a).heap_start % page_size ≡ 0
    → (s.spaces a).heap_size % page_size ≡ 0
    → (s.spaces a).heap_start + (s.spaces a).heap_size < 2 ^ 31
    → suc n ≤ (s.spaces a).heap_size
    → ((x : ℕ) → heap_end s a ≤ x + suc n → x < heap_end s a → HeapPage s a x)
    → (t : Vm) × (sys_sbrk mem a (negsuc n) s ≡ ret (heap_end s a) t)
      × ((t.spaces a).heap_size + suc n ≡ (s.spaces a).heap_size)
      × Shrunk cur s a (heap_end s a - suc n) (heap_end s a) t
sys_sbrk-Shrunk cur s d idle mem a n z y w l m h =
    let rounds : suc n / page_size * page_size ≡ suc n = omega arith in
    let (t, e, g) =
      shrink_pages-Shrunk cur s d idle a (suc n / page_size) (heap_end s a) (omega arith)
        (omega arith) (omega arith) (λ x p q. h x (omega arith) q) in
    let size = (s.spaces a).heap_size + 2 ^ 32 - suc n in
    let exact : size % 2 ^ 32 + suc n ≡ (s.spaces a).heap_size = omega arith in
    (
      heap_set t a size,
      sys_sbrk_lem mem s t a n z y (omega arith) m e,
      ap (λ (x : Space). x.heap_size + suc n) (store_self t.spaces a _) ∙ exact,
      subst (λ k. Shrunk cur s a (heap_end s a - k) (heap_end s a) (heap_set t a size)) rounds
          (heap_set-Shrunk cur s t a (heap_end s a - suc n / page_size * page_size) (heap_end s a)
            size g),
    )
