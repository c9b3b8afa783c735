-- ===== src/Vm/Coherence.antt =====
-- What makes the page tables, the coremap and the swap area fit together, and the bytes that a process
-- sees in a page.
use longcat_os.Base.{
  ℕ, Option, none, some, true, false, not, ◌&&◌, ◌/◌, ◌%◌, ◌^◌, ◌<◌, ◌≤◌, ◌≡◌, ◌≢◌, arith, ap, ◌∙◌,
  ◌==◌, if◌then◌else◌,
}
use longcat_os.Bitmap.View.{bit_at, IsBitmap}
use longcat_os.Vm.{Vm, Pte, CmEntry, page_size, pte_at}
use longcat_os.Vm.Lookup.{SamePage, pte_in-same}

-- The swap block of a page that is in the swap area, or 0
abbrev pub block_of : Pte → ℕ
block_of p = if p.valid && not p.zeroed then p.ppn else 0

abbrev pub pte_home : (ℕ → CmEntry) → Option Pte → ℕ
pte_home entries none = 0
pte_home entries (some p) = if p.present then (entries p.ppn).swap_location else block_of p

-- The swap block that belongs to a page, or 0
abbrev pub home : Vm → ℕ → ℕ → ℕ
home s a v = pte_home s.entries (pte_at s a v)

abbrev pub pte_bytes : (ℕ → ℕ) → (ℕ → ℕ) → Option Pte → ℕ
pte_bytes ram disk none = 0
pte_bytes ram disk (some p) =
    if p.present then ram p.ppn else if block_of p == 0 then 0 else disk (block_of p)

-- The bytes of a page of an address space: those of its frame, those of its swap block, or zeros
abbrev pub bytes : Vm → ℕ → ℕ → ℕ
bytes s a v = pte_bytes s.ram s.disk (pte_at s a v)

-- Frame `i` holds the page at its address in the address space `a`.
pub record Holds (s : Vm) (i a : ℕ) : Type 0 where
  pub pte : Pte
  pub at : pte_at s a (s.entries i).vaddr ≡ some pte
  pub present : pte.present ≡ true
  pub frame : pte.ppn ≡ i
  pub below : i < s.num_pages
  pub mapped : 0 < (s.entries i).vaddr
  pub aligned : (s.entries i).vaddr % page_size ≡ 0
  pub no_kpage : (s.entries i).kpage ≡ false

-- A page that is present is in a frame that knows it.
pub record InFrame (s : Vm) (a v : ℕ) (p : Pte) : Type 0 where
  pub owner : (s.entries p.ppn).owner ≡ some a
  pub page : (s.entries p.ppn).vaddr / 2 ^ 12 ≡ v / 2 ^ 12
  pub valid : p.valid ≡ true
  pub zeroed : p.zeroed ≡ false

pub record Coherent (s : Vm) : Type 0 where
  pub frames : (i a : ℕ) → (s.entries i).owner ≡ some a → Holds s i a
  pub pages : (a v : ℕ) (p : Pte) → pte_at s a v ≡ some p → p.present ≡ true → InFrame s a v p
  -- a block belongs to one page, and is in use
  pub homes : (a v a' v' : ℕ) → home s a v ≢ 0 → home s a v ≡ home s a' v' → SamePage a v a' v'
  pub marked :
      (a v : ℕ) → home s a v ≢ 0 → (bit_at s.swap.v (home s a v) ≡ 1) × (home s a v < s.swap.nbits)
  pub swap_ok : IsBitmap s.swap
  pub block_zero : bit_at s.swap.v 0 ≡ 1
  pub swap_small : s.swap.nbits ≤ 2 ^ 19
  pub pages_small : s.num_pages ≤ 2 ^ 20
  pub swaps : s.can_swap ≡ true
  pub frame_zero : (s.entries 0).kpage ≡ true

-- The home and the bytes of a page that is in memory, and of one that is not
module _ (entries : ℕ → CmEntry) (ram disk : ℕ → ℕ) (o : Option Pte) (p : Pte)
    (e : o ≡ some p) where
  pub home_present : p.present ≡ true → pte_home entries o ≡ (entries p.ppn).swap_location
  home_present r =
      ap (pte_home entries) e ∙ ap (λ x. if x then (entries p.ppn).swap_location else block_of p) r

  pub home_absent : p.present ≡ false → pte_home entries o ≡ block_of p
  home_absent r =
      ap (pte_home entries) e ∙ ap (λ x. if x then (entries p.ppn).swap_location else block_of p) r

  pub bytes_present : p.present ≡ true → pte_bytes ram disk o ≡ ram p.ppn
  bytes_present r =
      ap (pte_bytes ram disk) e
      ∙ ap (λ x. if x then ram p.ppn else if block_of p == 0 then 0 else disk (block_of p)) r

  pub bytes_absent :
      p.present ≡ false → pte_bytes ram disk o ≡ (if block_of p == 0 then 0 else disk (block_of p))
  bytes_absent r =
      ap (pte_bytes ram disk) e
      ∙ ap (λ x. if x then ram p.ppn else if block_of p == 0 then 0 else disk (block_of p)) r

-- The same bytes in every page
abbrev pub SameBytes : Vm → Vm → Type 0
SameBytes s s' = (a v : ℕ) → bytes s' a v ≡ bytes s a v

-- The home of the page in a frame is the frame's block.
pub Holds-home :
    (s : Vm) (i a : ℕ) (h : Holds s i a)
    → home s a (s.entries i).vaddr ≡ (s.entries i).swap_location
Holds-home s i a h = ground (arith, h.at, h.present, h.frame)

pub Holds-bytes : (s : Vm) (i a : ℕ) (h : Holds s i a) → bytes s a (s.entries i).vaddr ≡ s.ram i
Holds-bytes s i a h = ground (arith, h.at, h.present, h.frame)

pub home-same : (s : Vm) (a v a' v' : ℕ) → SamePage a v a' v' → home s a v ≡ home s a' v'
home-same s a v a' v' q = ap (pte_home s.entries) (pte_in-same s.spaces a v a' v' q)

pub bytes-same : (s : Vm) (a v a' v' : ℕ) → SamePage a v a' v' → bytes s a v ≡ bytes s a' v'
bytes-same s a v a' v' q = ap (pte_bytes s.ram s.disk) (pte_in-same s.spaces a v a' v' q)

-- Two pages in one frame are one page.
pub one_page :
    (s : Vm) (c : Coherent s) (a v a' v' : ℕ) (p p' : Pte)
    → pte_at s a v ≡ some p
    → p.present ≡ true
    → pte_at s a' v' ≡ some p'
    → p'.present ≡ true
    → p.ppn ≡ p'.ppn
    → SamePage a v a' v'
one_page s c a v a' v' p p' e r e' r' q =
    let f = c.pages a v p e r in
    let g = c.pages a' v' p' e' r' in
    let k : (s.entries p.ppn).owner ≡ (s.entries p'.ppn).owner = ap (λ i. (s.entries i).owner) q in
    let m : (s.entries p.ppn).vaddr ≡ (s.entries p'.ppn).vaddr = ap (λ i. (s.entries i).vaddr) q in
    (cc (f.owner, g.owner), omega (arith, f.page, g.page))
