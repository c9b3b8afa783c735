-- ===== src/Vm/Sbrk/Grow.antt =====
-- sys_sbrk with a positive amount.
use longcat_os.Base.{
  ℕ, zero, suc, some, true, ◌+◌, ◌*◌, ◌/◌, ◌%◌, ◌^◌, ◌<◌, ◌≤◌, ◌≡◌, inl, inr, arith, refl, sym, ap,
  subst, ◌∙◌, dec_lt,
}
use longcat_os.Base.Int.{pos}
use longcat_os.Base.Outcome.{ret, ◌>>◌}
use longcat_os.Base.Gives.{bind-ret}
use longcat_os.Base.Store.{store_self}
use longcat_os.Vm.{Vm, Space, pte_at, page_size, stack_min}
use longcat_os.Vm.Lookup.{pte_in-same}
use longcat_os.Vm.Coherence.{SameBytes}
use longcat_os.Vm.Like.{Like-SameBytes}
use longcat_os.Vm.Sound.{Sound, flags-Sound}
use longcat_os.Vm.Swapin.{Idle}
use longcat_os.Vm.Sbrk.{heap_pte, grow_page, grow_pages, heap_end, sys_sbrk}
use longcat_os.Vm.Sbrk.Shrink.{HeapPage}
use longcat_os.Vm.Sbrk.Whole.{heap_set, heap_set-Like}
use longcat_os.Vm.Sbrk.Add.{Gap, Gap-back, Grown, grow_page-Grown}

-- The pages of the heap from `lo` up to `hi` are there, and those that were there before.
pub record HeapGrown (cur : ℕ) (s : Vm) (a lo hi : ℕ) (t : Vm) : Type 0 where
  pub sound : Sound cur t
  pub idle : Idle t
  pub same_bytes : SameBytes s t
  pub added : (x : ℕ) → lo ≤ x → x < hi → HeapPage t a x
  pub old : (x : ℕ) → x < lo → HeapPage s a x → HeapPage t a x

fresh_page :
    (t : Vm) (a v x : ℕ) → pte_at t a v ≡ some heap_pte → v / 2 ^ 12 ≡ x / 2 ^ 12 → HeapPage t a x
fresh_page t a v x e q = record {
  pte = heap_pte;
  at = sym (pte_in-same t.spaces a v a x (refl, q)) ∙ e;
  state = inr (inl refl);
}

grow_pages_lem :
    (s t : Vm) (a n v : ℕ)
    → v + page_size < 2 ^ 32
    → grow_page true a v s ≡ ret tt t
    → grow_pages true a (suc n) v s ≡ grow_pages true a n (v + page_size) t
unfolding grow_pages
grow_pages_lem s t a n v l e =
    let q : (v + page_size) % 2 ^ 32 ≡ v + page_size = omega arith in
    ap (λ x. (grow_page true a v >> grow_pages true a n x) s) q
    ∙ bind-ret (grow_page true a v) (λ x. grow_pages true a n (v + page_size)) s t tt e

HeapGrown-step :
    (cur : ℕ) (s u t : Vm) (a n v : ℕ)
    → v % page_size ≡ 0
    → Grown cur s a v u
    → HeapGrown cur u a (v + page_size) (v + page_size + n * page_size) t
    → HeapGrown cur s a v (v + suc n * page_size) t
HeapGrown-step cur s u t a n v z k g = record {
  sound = g.sound;
  idle = g.idle;
  same_bytes = λ b x. g.same_bytes b x ∙ k.same_bytes b x;
  added = λ x p q. elim (dec_lt x (v + page_size)) [
    | yes w ↦ g.old x w (fresh_page u a v x k.here (omega arith))
    | no w ↦ g.added x (omega arith) (omega arith)
  ];
  old = λ x l h.
      g.old x (omega arith)
        (record { pte = h.pte; at = k.old a x h.pte (inr (omega arith)) h.at; state = h.state });
}

grow_pages-HeapGrown :
    (cur : ℕ) (s : Vm)
    → Sound cur s
    → Idle s
    → (a n v : ℕ) → v + n * page_size ≤ 2 ^ 31
    → v % page_size ≡ 0
    → ((x : ℕ) → v ≤ x → x < v + n * page_size → Gap s a x)
    → (t : Vm) × (grow_pages true a n v s ≡ ret tt t) × HeapGrown cur s a v (v + n * page_size) t
unfolding grow_pages
grow_pages-HeapGrown cur s d idle a zero v l z g = (
  s,
  refl,
  record {
    sound = d;
    idle = idle;
    same_bytes = λ b x. refl;
    added = λ x p q. absurd (omega arith);
    old = λ x p h. h;
  },
)
grow_pages-HeapGrown cur s d idle a (suc n) v l z g =
    let (u, e, k) =
      grow_page-Grown cur s d idle a v (omega arith) (g v (omega arith) (omega arith)) in
    let (t, f, h) =
      grow_pages-HeapGrown cur u k.sound k.idle a n (v + page_size) (omega arith) (omega arith)
        (λ x p q.
          Gap-back s u a x (λ r y. k.back a x r (inr (omega arith)) y)
            (g x (omega arith) (omega arith))) in
    (t, grow_pages_lem s u a n v (omega arith) e ∙ f, HeapGrown-step cur s u t a n v z k h)

sys_sbrk_lem :
    (s t : Vm) (a n : ℕ)
    → suc n % page_size ≡ 0
    → (s.spaces a).heap_start % page_size ≡ 0
    → (heap_end s a + suc n) % 2 ^ 32 ≤ stack_min
    → grow_pages true a (suc n / page_size) (heap_end s a) s ≡ ret tt t
    → sys_sbrk true a (pos (suc n)) s
      ≡ ret (heap_end s a) (heap_set t a ((s.spaces a).heap_size + suc n))
unfolding sys_sbrk
sys_sbrk_lem s t a n z y l e = ground (arith, z, y, l, e)

HeapPage-set : (t : Vm) (a size x : ℕ) → HeapPage t a x → HeapPage (heap_set t a size) a x
HeapPage-set t a size x h = record {
  pte = h.pte;
  at = (heap_set-Like t a size).shape.ptes a x ∙ h.at;
  state = h.state;
}

heap_set-HeapGrown :
    (cur : ℕ) (s t : Vm) (a lo hi size : ℕ)
    → HeapGrown cur s a lo hi t
    → HeapGrown cur s a lo hi (heap_set t a size)
heap_set-HeapGrown cur s t a lo hi size g = record {
  sound = flags-Sound cur t (heap_set t a size) (heap_set-Like t a size) refl (λ j. refl) g.sound;
  idle = g.idle;
  same_bytes =
      λ b x. Like-SameBytes t (heap_set t a size) (heap_set-Like t a size) b x ∙ g.same_bytes b x;
  added = λ x p q. HeapPage-set t a size x (g.added x p q);
  old = λ x p h. HeapPage-set t a size x (g.old x p h);
}

-- sys_sbrk with a positive amount that is a multiple of the page size, where the heap stays below the
-- stack, nothing is behind the heap and there is memory for page tables: the call returns the old end
-- of the heap and the heap is larger by the amount; the added pages are pages of the heap, as the old
-- ones still are, and every page of every process has the bytes that it had.
pub sys_sbrk-HeapGrown :
    (cur : ℕ) (s : Vm)
    → Sound cur s
    → Idle s
    → (a n : ℕ) → suc n % page_size ≡ 0
    → (s.spaces a).heap_start % page_size ≡ 0
    → (s.spaces a).heap_size % page_size ≡ 0
    → (s.spaces a).heap_start + (s.spaces a).heap_size + suc n ≤ stack_min
    → ((x : ℕ) → heap_end s a ≤ x → x < heap_end s a + suc n → Gap s a x)
    → (t : Vm) × (sys_sbrk true a (pos (suc n)) s ≡ ret (heap_end s a) t)
      × ((t.spaces a).heap_size ≡ (s.spaces a).heap_size + suc n)
      × HeapGrown cur s a (heap_end s a) (heap_end s a + suc n) t
sys_sbrk-HeapGrown cur s d idle a n z y w l g =
    let rounds : suc n / page_size * page_size ≡ suc n = omega arith in
    let (t, e, h) =
      grow_pages-HeapGrown cur s d idle a (suc n / page_size) (heap_end s a) (omega arith)
        (omega arith) (λ x p q. g x p (omega arith)) in
    let size = (s.spaces a).heap_size + suc n in
    (
      heap_set t a size,
      sys_sbrk_lem s t a n z y (omega arith) e,
      ap (λ (x : Space). x.heap_size) (store_self t.spaces a _) ∙ omega arith,
      subst (λ k. HeapGrown cur s a (heap_end s a) (heap_end s a + k) (heap_set t a size)) rounds
          (heap_set-HeapGrown cur s t a (heap_end s a)
            (heap_end s a + suc n / page_size * page_size) size h),
    )
