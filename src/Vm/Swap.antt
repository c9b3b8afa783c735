-- ===== src/Vm/Swap.antt =====
-- kern/vm/swap.c. `io` says whether the device serves the transfer.
use longcat_os.Base.{
  ℕ, Option, none, some, Bool, not, ◌-◌, ◌*◌, ◌/◌, ◌%◌, ◌^◌, ◌==◌, ltb, if◌then◌else◌,
}
use longcat_os.Base.Int.{ℤ, pos, negsuc}
use longcat_os.Base.Outcome.{
  M, Outcome, ret, fail, panic, ◌>>=◌, ◌>>◌, return, get, put, kassert, deref,
}
use longcat_os.Base.Store.{store}
use longcat_os.Bitmap.{Bitmap, bitmap_alloc, bitmap_unmark, bitmap_isset}
use longcat_os.Vm.{Vm, page_size}

-- A call on the bitmap of the swap area
abbrev pub with_swap : {A : Type 0} → Vm → Outcome Bitmap A → Outcome Vm A
with_swap s (ret a b) = ret a (record s { swap = b })
with_swap s (fail e b) = fail e (record s { swap = b })
with_swap s panic = panic

abbrev pub on_swap : {A : Type 0} → M Bitmap A → M Vm A
on_swap f s = with_swap s (f s.swap)

-- A call whose error makes the kernel panic
abbrev pub or_panic : {A : Type 0} → M Vm A → M Vm A
or_panic m s = elim (m s) [ ret a t ↦ ret a t | fail e t ↦ panic | panic ↦ panic ]

abbrev pub can_swap : M Vm (Unit {0})
can_swap = do s ← get; kassert s.can_swap

unfoldable pub swap_find_free : M Vm ℕ
swap_find_free = do can_swap; or_panic (on_swap bitmap_alloc)

-- `swap_location * PAGE_SIZE`, which is an `int` and wraps
abbrev pub swap_offset : ℕ → ℤ
swap_offset swap_location =
    let x = swap_location * page_size % 2 ^ 32 in
    if ltb x (2 ^ 31) then pos x else negsuc (2 ^ 32 - 1 - x)

-- The page of the device at an offset; the device refuses a negative one.
abbrev pub device_page : ℤ → Option ℕ
device_page (pos x) = some (x / page_size)
device_page (negsuc x) = none

-- What `swap_read` and `swap_write` check first
abbrev pub swap_checks : ℕ → ℕ → Bool → M Vm (Unit {0})
swap_checks ppn swap_location io = do
  kassert (ltb 0 ppn)
  kassert (ltb 0 swap_location)
  can_swap
  x ← on_swap (bitmap_isset swap_location)
  kassert (not (x == 0))
  kassert io

unfoldable pub swap_read : ℕ → ℕ → Bool → M Vm (Unit {0})
swap_read ppn swap_location io = do
  swap_checks ppn swap_location io
  page ← deref (device_page (swap_offset swap_location))
  s ← get
  put (record s { ram = store s.ram ppn (s.disk page) })

unfoldable pub swap_write : ℕ → ℕ → Bool → M Vm (Unit {0})
swap_write ppn swap_location io = do
  swap_checks ppn swap_location io
  page ← deref (device_page (swap_offset swap_location))
  s ← get
  put (record s { disk = store s.disk page (s.ram ppn) })

unfoldable pub swap_destroy_block : ℕ → M Vm (Unit {0})
swap_destroy_block swap_location = do
  kassert (ltb 0 swap_location)
  can_swap
  x ← on_swap (bitmap_isset swap_location)
  if x == 0 then return tt else on_swap (bitmap_unmark swap_location)
