-- ===== src/Vm/Sbrk/Leave.antt =====
-- What the loop of sys_sbrk that shrinks the heap leaves of one page: its block is free and its
-- entry is empty.
use longcat_os.Base.{
  ℕ, Option, some, ◌≡◌, ◌≢◌, arith, sym, ap, subst, ◌∙◌, if◌then◌else◌, ◌==◌, lt→ltb, ℕ_discrete,
}
use longcat_os.Base.Outcome.{M, ret, return}
use longcat_os.Bitmap.{Bitmap}
use longcat_os.Bitmap.View.{bit_at, IsBitmap}
use longcat_os.Vm.{Vm, Pte, pte_at, pd_size, vaddr_to_pt, vaddr_to_pte}
use longcat_os.Vm.Lookup.{OtherPage, dir_read_lem}
use longcat_os.Vm.Coherence.{Coherent, home, bytes}
use longcat_os.Vm.Sound.{Sound}
use longcat_os.Vm.Swapin.{Idle}
use longcat_os.Vm.Swap.{swap_destroy_block}
use longcat_os.Vm.Transfer.{swap_destroy_block-Changed}
use longcat_os.Vm.Fault.{pte_acquire}
use longcat_os.Vm.Sbrk.{drop_page, leave, shrink_page}

-- The block of the page at `v` is free, if it had one, and no other block changed.
pub record Unmarked (s : Vm) (a v : ℕ) (m : Bitmap) : Type 0 where
  pub bits : (b : ℕ) → home s a v ≢ b → bit_at m.v b ≡ bit_at s.swap.v b
  pub nbits : m.nbits ≡ s.swap.nbits
  pub ok : IsBitmap m
  pub zero : bit_at m.v 0 ≡ 1

abbrev pub free_block : ℕ → M Vm (Unit {0})
free_block loc = if loc == 0 then return tt else swap_destroy_block loc

pub free_block-Unmarked :
    (s : Vm) (c : Coherent s) (a v : ℕ) (t : Vm)
    → t.swap ≡ s.swap
    → t.can_swap ≡ s.can_swap
    → (m : Bitmap) × (free_block (home s a v) t ≡ ret tt (record t { swap = m })) × Unmarked s a v m
free_block-Unmarked s c a v t e f = elim (ℕ_discrete (home s a v) 0) [
  | yes z ↦ (
    t.swap,
    ground (arith, z),
    record {
      bits = λ b n. ap (λ x. bit_at x.v b) e;
      nbits = ap (λ x. x.nbits) e;
      ok = subst IsBitmap (sym e) c.swap_ok;
      zero = ap (λ x. bit_at x.v 0) e ∙ c.block_zero;
    },
  )
  | no n ↦
      (let k = c.marked a v n in
        let (m, q, h) =
          swap_destroy_block-Changed t (home s a v) (subst IsBitmap (sym e) c.swap_ok) (f ∙ c.swaps)
            (omega (arith, n)) (omega (arith, k.1, ap (λ x. x.nbits) e))
            (ap (λ x. bit_at x.v (home s a v)) e ∙ k.0) in
        (
          m,
          ground (arith, n, q),
          record {
            bits = λ b x. h.others b x ∙ ap (λ y. bit_at y.v b) e;
            nbits = h.same_nbits ∙ ap (λ x. x.nbits) e;
            ok = h.ok;
            zero = h.others 0 n ∙ ap (λ x. bit_at x.v 0) e ∙ c.block_zero;
          },
        ))
]

-- The page is gone, and no other page lost anything.
pub record Dropped (cur : ℕ) (s : Vm) (a v : ℕ) (t : Vm) : Type 0 where
  pub sound : Sound cur t
  pub idle : Idle t
  pub zeros : bytes t a v ≡ 0
  pub same_bytes : (a' v' : ℕ) → OtherPage a v a' v' → bytes t a' v' ≡ bytes s a' v'
  pub same_ptes : (a' v' : ℕ) → OtherPage a v a' v' → pte_at t a' v' ≡ pte_at s a' v'

pub shrink_page_lem :
    (s u w t : Vm) (a v : ℕ) (p : Pte) (o r : Option ℕ)
    → pte_at s a v ≡ some p
    → pte_acquire a p s ≡ ret o u
    → drop_page p u ≡ ret r w
    → leave a v p r w ≡ ret tt t
    → shrink_page a v s ≡ ret tt t
unfolding shrink_page
shrink_page_lem s u w t a v p o r e f g h =
    let (tab, d, l) = dir_read_lem (s.spaces a).pd (vaddr_to_pt v) (vaddr_to_pte v) p e in
    let x = lt→ltb (vaddr_to_pt v) pd_size l in ground (arith, x, d, e, f, g, h)
