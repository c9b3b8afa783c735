-- ===== src/Vm/Sbrk/Shrink.antt =====
-- One page of the loop of sys_sbrk that shrinks the heap.
use longcat_os.Base.{
  ℕ, none, some, true, false, ◌≡◌, ◌≢◌, ◌⊎◌, inl, inr, arith, refl, sym, ap, ◌∙◌, Bool-cases,
}
use longcat_os.Base.Outcome.{ret}
use longcat_os.Bitmap.{Bitmap}
use longcat_os.Vm.{Vm, Pte, pte_at, with_pte}
use longcat_os.Vm.Lookup.{pte_to_self, pte_to_other}
use longcat_os.Vm.Coherence.{home, block_of, home_absent}
use longcat_os.Vm.Sound.{Sound, Untouched-TlbOk}
use longcat_os.Vm.Drop.{Dropping, Dropping-Coherent, dropped-bytes_self, dropped-bytes_other}
use longcat_os.Vm.Swapin.{Idle}
use longcat_os.Vm.Whole.{pte_acquire_absent}
use longcat_os.Vm.Sbrk.{drop_page, gone, shrink_page}
use longcat_os.Vm.Sbrk.Leave.{Unmarked, free_block, free_block-Unmarked, Dropped, shrink_page_lem}
use longcat_os.Vm.Sbrk.Resident.{Dropped-present}

module _ (cur : ℕ) (s : Vm) (d : Sound cur s) (idle : Idle s) (a v : ℕ) (p : Pte)
    (e : pte_at s a v ≡ some p) where
  -- The page is not in memory.
  module _ (n : p.present ≡ false) (z : (p.zeroed ≡ true) ⊎ (block_of p ≢ 0)) where
    home_block : home s a v ≡ block_of p
    home_block = home_absent s.entries s.ram s.disk (pte_at s a v) p e n

    drop_absent : (t : Vm) → free_block (home s a v) s ≡ ret tt t → drop_page p s ≡ ret none t
    drop_absent t f =
        let g : free_block (block_of p) s ≡ ret tt t =
          ap (λ x. free_block x s) (sym home_block) ∙ f in
        elim (Bool-cases p.zeroed) [
          | inl y ↦ ground (arith, n, y, g)
          | inr y ↦ elim z [
            | inl x ↦ absurd (ground (arith, x, y))
            | inr x ↦ elim (Bool-cases p.valid) [
              | inl w ↦
                  (let q : p.ppn ≢ 0 = (λ k. x (ground (arith, w, y, k))) in
                    ground (arith, n, y, w, g, q))
              | inr w ↦ absurd (x (ground (arith, w)))
            ]
          ]
        ]

    module _ (m : Bitmap) (u : Unmarked s a v m) where
      abbrev out : Vm
      out = with_pte (record s { swap = m }) a v (gone p)

      out-Dropping : Dropping s a v p (gone p) out
      out-Dropping = record {
        old = e;
        new = pte_to_self s.spaces a v (gone p) p e;
        absent = refl;
        no_block = refl;
        others = λ a' v' x. pte_to_other s.spaces a v (gone p) p e a' v' x;
        cores = λ j x. refl;
        freed = λ x. absurd (ground (arith, x, n));
        bits = u.bits;
        nbits = u.nbits;
        swap_ok = u.ok;
        same_ram = refl;
        same_disk = refl;
        pages = refl;
        swaps = refl;
        block_zero = u.zero;
      }

      out-Dropped : Dropped cur s a v out
      out-Dropped = record {
        sound = record {
          coherent = Dropping-Coherent s d.coherent a v p (gone p) out out-Dropping;
          tlb_ok =
              Untouched-TlbOk cur s out
                (record {
                  same_tlbs = refl;
                  pages = refl;
                  flag = λ j. refl;
                  owner = λ j r. refl;
                  vaddr = λ j r. refl;
                })
                d.tlb_ok;
        };
        idle = idle;
        zeros = dropped-bytes_self s d.coherent a v p (gone p) out out-Dropping;
        same_bytes = dropped-bytes_other s d.coherent a v p (gone p) out out-Dropping;
        same_ptes = out-Dropping.others;
      }

    Dropped-absent : (t : Vm) × (shrink_page a v s ≡ ret tt t) × Dropped cur s a v t
    Dropped-absent =
        let (m, f, u) = free_block-Unmarked s d.coherent a v s refl refl in
        (
          out m u,
          shrink_page_lem s s (record s { swap = m }) (out m u) a v p none none e
              (pte_acquire_absent a s p n) (drop_absent (record s { swap = m }) f) refl,
          out-Dropped m u,
        )

-- A page that the heap may have at `v`: in memory, untouched since it was added, or in the swap area
pub record HeapPage (s : Vm) (a v : ℕ) : Type 0 where
  pub pte : Pte
  pub at : pte_at s a v ≡ some pte
  pub state : (pte.present ≡ true) ⊎ ((pte.zeroed ≡ true) ⊎ (block_of pte ≢ 0))

-- The loop body takes a page out of the heap, with its frame and its swap block.
pub shrink_page-Dropped :
    (cur : ℕ) (s : Vm)
    → Sound cur s
    → Idle s
    → (a v : ℕ) → HeapPage s a v
    → (t : Vm) × (shrink_page a v s ≡ ret tt t) × Dropped cur s a v t
shrink_page-Dropped cur s d idle a v h = elim (Bool-cases h.pte.present) [
  | inl r ↦ Dropped-present cur s d idle a v h.pte h.at r
  | inr n ↦
      Dropped-absent cur s d idle a v h.pte h.at n
        (elim h.state [ inl r ↦ absurd (ground (arith, r, n)) | inr z ↦ z ])
]
