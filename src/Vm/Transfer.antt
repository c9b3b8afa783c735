-- ===== src/Vm/Transfer.antt =====
-- The calls of the swap area, on the states where they succeed.
use longcat_os.Base.{ℕ, some, ◌*◌, ◌/◌, ◌%◌, ◌^◌, true, ◌<◌, ◌≡◌, ◌≢◌, arith, refl}
use longcat_os.Base.Outcome.{Outcome, ret, fail, panic, Post}
use longcat_os.Base.Store.{store}
use longcat_os.Bitmap.{Bitmap, bitmap_alloc}
use longcat_os.Bitmap.View.{bit_at, IsBitmap, Changed}
use longcat_os.Bitmap.Search.{Allocated, Full, bitmap_alloc-Post}
use longcat_os.Bitmap.Change.{bitmap_isset_lem, bitmap_unmark-Changed}
use longcat_os.Vm.{Vm, page_size}
use longcat_os.Vm.Blocks.{Fresh}
use longcat_os.Vm.Swap.{
  swap_offset, device_page, swap_find_free, swap_checks, swap_read, swap_write, swap_destroy_block,
}

-- A block is free.
pub record Room (b : Bitmap) : Type 0 where
  pub block : ℕ
  pub below : block < b.nbits
  pub clear : bit_at b.v block ≡ 0

alloc_Fresh :
    (b : Bitmap) (o : Outcome Bitmap ℕ)
    → Room b
    → Post (Allocated b) (Full b) o
    → (i : ℕ) × (m : Bitmap) × (o ≡ ret i m) × Fresh b i m
alloc_Fresh b (ret i m) r (l, z, u, c) = (i, m, refl, record { clear = z; below = l; changed = c })
alloc_Fresh b (fail e m) r (q, u) = absurd (omega (arith, u r.block r.below, r.clear))
alloc_Fresh b panic r x = absurd x

swap_find_free_lem :
    (s : Vm) (i : ℕ) (m : Bitmap)
    → s.can_swap ≡ true
    → bitmap_alloc s.swap ≡ ret i m
    → swap_find_free s ≡ ret i (record s { swap = m })
unfolding swap_find_free
swap_find_free_lem s i m c e = ground (arith, c, e)

pub swap_find_free-Fresh :
    (s : Vm)
    → IsBitmap s.swap
    → s.can_swap ≡ true
    → Room s.swap
    → (i : ℕ) × (m : Bitmap) × (swap_find_free s ≡ ret i (record s { swap = m })) × Fresh s.swap i m
swap_find_free-Fresh s v c r =
    let (i, m, e, f) = alloc_Fresh s.swap (bitmap_alloc s.swap) r (bitmap_alloc-Post s.swap v) in
    (i, m, swap_find_free_lem s i m c e, f)

-- The block is one that a page may have.
pub record Usable (s : Vm) (ppn loc : ℕ) : Type 0 where
  pub frame : 0 < ppn
  pub block : 0 < loc
  pub below : loc < s.swap.nbits
  pub small : loc < 2 ^ 19
  pub marked : bit_at s.swap.v loc ≡ 1
  pub is_bitmap : IsBitmap s.swap
  pub swaps : s.can_swap ≡ true

swap_checks_lem : (s : Vm) (ppn loc : ℕ) → Usable s ppn loc → swap_checks ppn loc true s ≡ ret tt s
swap_checks_lem s ppn loc u =
    let (x, e, (f, g)) = bitmap_isset_lem s.swap loc u.is_bitmap u.below in
    let n : x ≢ 0 = (λ z. absurd (omega (arith, f z, u.marked))) in
    ground (arith, e, n, u.frame, u.block, u.swaps)

-- Below block 2 ^ 19 the offset does not wrap.
device_page-swap_offset : (loc : ℕ) → loc < 2 ^ 19 → device_page (swap_offset loc) ≡ some loc
device_page-swap_offset loc l =
    let q : loc * page_size % 2 ^ 32 ≡ loc * page_size = omega arith in
    let m : loc * page_size < 2 ^ 31 = omega arith in
    let e : loc * page_size / page_size ≡ loc = omega arith in ground (arith, q, m, e)

pub swap_write_lem :
    (s : Vm) (ppn loc : ℕ)
    → Usable s ppn loc
    → swap_write ppn loc true s ≡ ret tt (record s { disk = store s.disk loc (s.ram ppn) })
unfolding swap_write
swap_write_lem s ppn loc u =
    ground (arith, swap_checks_lem s ppn loc u, device_page-swap_offset loc u.small)

pub swap_read_lem :
    (s : Vm) (ppn loc : ℕ)
    → Usable s ppn loc
    → swap_read ppn loc true s ≡ ret tt (record s { ram = store s.ram ppn (s.disk loc) })
unfolding swap_read
swap_read_lem s ppn loc u =
    ground (arith, swap_checks_lem s ppn loc u, device_page-swap_offset loc u.small)

pub swap_destroy_block-Changed :
    (s : Vm) (loc : ℕ)
    → IsBitmap s.swap
    → s.can_swap ≡ true
    → 0 < loc
    → loc < s.swap.nbits
    → bit_at s.swap.v loc ≡ 1
    → (m : Bitmap) × (swap_destroy_block loc s ≡ ret tt (record s { swap = m }))
      × Changed s.swap loc 0 m
unfolding swap_destroy_block
swap_destroy_block-Changed s loc v c l b e =
    let (x, q, (f, g)) = bitmap_isset_lem s.swap loc v b in
    let n : x ≢ 0 = (λ z. absurd (omega (arith, f z, e))) in
    let (m, r, h) = bitmap_unmark-Changed s.swap loc v b e in (m, ground (arith, q, n, r, l, c), h)
