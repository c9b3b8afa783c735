-- ===== src/Vm/Like.antt =====
-- Steps that change only the flags, the clock and the translation buffer.
use longcat_os.Base.{
  ℕ, Option, none, some, false, ◌/◌, ◌^◌, ◌≡◌, arith, refl, sym, ap, subst, ◌∙◌, if◌then◌else◌,
  ℕ_discrete,
}
use longcat_os.Base.Store.{store, store_self, store_ne}
use longcat_os.Vm.{Vm, Pte, CmEntry, TlbEntry, pte_at, with_entry}
use longcat_os.Vm.Coherence.{Coherent, Holds, home, pte_home, bytes, pte_bytes, SameBytes, block_of}
use longcat_os.Bitmap.View.{bit_at, IsBitmap}

-- What coherence depends on in an entry of the coremap
abbrev pub core : CmEntry → CmEntry
core c = record c { dirty = false; tlb = false; busy = false; kernel = false; exists = false }

-- The same tables, up to flags
pub record Shape (s s' : Vm) : Type 0 where
  pub cores : (i : ℕ) → core (s'.entries i) ≡ core (s.entries i)
  pub ptes : (a v : ℕ) → pte_at s' a v ≡ pte_at s a v
  pub same_pages : s'.num_pages ≡ s.num_pages
  pub same_swap : s'.swap ≡ s.swap
  pub same_can : s'.can_swap ≡ s.can_swap

pub record Like (s s' : Vm) : Type 0 where
  pub shape : Shape s s'
  pub same_ram : s'.ram ≡ s.ram
  pub same_disk : s'.disk ≡ s.disk

pub Shape-refl : (s : Vm) → Shape s s
Shape-refl s = record {
  cores = λ i. refl;
  ptes = λ a v. refl;
  same_pages = refl;
  same_swap = refl;
  same_can = refl;
}

pub Like-refl : (s : Vm) → Like s s
Like-refl s = record { shape = Shape-refl s; same_ram = refl; same_disk = refl }

pub Like-trans : (s t u : Vm) → Like s t → Like t u → Like s u
Like-trans s t u l m = record {
  shape = record {
    cores = λ i. m.shape.cores i ∙ l.shape.cores i;
    ptes = λ a v. m.shape.ptes a v ∙ l.shape.ptes a v;
    same_pages = m.shape.same_pages ∙ l.shape.same_pages;
    same_swap = m.shape.same_swap ∙ l.shape.same_swap;
    same_can = m.shape.same_can ∙ l.shape.same_can;
  };
  same_ram = m.same_ram ∙ l.same_ram;
  same_disk = m.same_disk ∙ l.same_disk;
}

-- A write to the flags of one entry
pub entry-Like :
    (s : Vm) (i : ℕ) (c : CmEntry) → core c ≡ core (s.entries i) → Like s (with_entry s i c)
entry-Like s i c e = record {
  shape = record {
    cores = λ j. elim (ℕ_discrete i j) [
      | yes q ↦
          ap core (subst (λ k. store s.entries i c k ≡ c) q (store_self s.entries i c))
          ∙ e
          ∙ ap (λ k. core (s.entries k)) q
      | no q ↦ ap core (store_ne s.entries i j c q)
    ];
    ptes = λ a v. refl;
    same_pages = refl;
    same_swap = refl;
    same_can = refl;
  };
  same_ram = refl;
  same_disk = refl;
}

-- A change of the clock, of the counts and of the translation buffer
pub rest-Like :
    (s : Vm) (k d h : ℕ) (t : ℕ → TlbEntry)
    → Like s (record s { num_kpages = k; num_dirty = d; clock_head = h; tlbs = t })
rest-Like s k d h t = record {
  shape = record {
    cores = λ i. refl;
    ptes = λ a v. refl;
    same_pages = refl;
    same_swap = refl;
    same_can = refl;
  };
  same_ram = refl;
  same_disk = refl;
}

module _ (s s' : Vm) (l : Shape s s') where
  pub same_owner : (i : ℕ) → (s'.entries i).owner ≡ (s.entries i).owner
  same_owner i = ap (λ (c : CmEntry). c.owner) (l.cores i)

  pub same_vaddr : (i : ℕ) → (s'.entries i).vaddr ≡ (s.entries i).vaddr
  same_vaddr i = ap (λ (c : CmEntry). c.vaddr) (l.cores i)

  pub same_location : (i : ℕ) → (s'.entries i).swap_location ≡ (s.entries i).swap_location
  same_location i = ap (λ (c : CmEntry). c.swap_location) (l.cores i)

  pub same_kpage : (i : ℕ) → (s'.entries i).kpage ≡ (s.entries i).kpage
  same_kpage i = ap (λ (c : CmEntry). c.kpage) (l.cores i)

  same_pte_home : (o : Option Pte) → pte_home s'.entries o ≡ pte_home s.entries o
  same_pte_home none = refl
  same_pte_home (some p) = ap (λ x. if p.present then x else block_of p) (same_location p.ppn)

  pub same_home : (a v : ℕ) → home s' a v ≡ home s a v
  same_home a v = same_pte_home (pte_at s' a v) ∙ ap (pte_home s.entries) (l.ptes a v)

  pub Shape-bytes : (a v : ℕ) → bytes s' a v ≡ pte_bytes s'.ram s'.disk (pte_at s a v)
  Shape-bytes a v = ap (pte_bytes s'.ram s'.disk) (l.ptes a v)

  pub Shape-Holds : (i a : ℕ) → Holds s i a → Holds s' i a
  Shape-Holds i a h = record {
    pte = h.pte;
    at = ap (pte_at s' a) (same_vaddr i) ∙ l.ptes a (s.entries i).vaddr ∙ h.at;
    present = h.present;
    frame = h.frame;
    below = omega (arith, h.below, l.same_pages);
    mapped = omega (arith, h.mapped, same_vaddr i);
    aligned = omega (arith, h.aligned, same_vaddr i);
    no_kpage = same_kpage i ∙ h.no_kpage;
  }

  pub Shape-Coherent : Coherent s → Coherent s'
  Shape-Coherent c = record {
    frames = λ i a e. Shape-Holds i a (c.frames i a (sym (same_owner i) ∙ e));
    pages = λ a v p e r.
        (let f = c.pages a v p (sym (l.ptes a v) ∙ e) r in
          record {
            owner = same_owner p.ppn ∙ f.owner;
            page = ap (λ x. x / 2 ^ 12) (same_vaddr p.ppn) ∙ f.page;
            valid = f.valid;
            zeroed = f.zeroed;
          });
    homes = λ a v a' v' n e.
        c.homes a v a' v' (λ z. n (same_home a v ∙ z)) (sym (same_home a v) ∙ e ∙ same_home a' v');
    marked = λ a v n.
        (let m = c.marked a v (λ z. n (same_home a v ∙ z)) in
          (
            ap (λ b. bit_at b.v (home s' a v)) l.same_swap
                ∙ ap (bit_at s.swap.v) (same_home a v)
                ∙ m.0,
            omega (arith, m.1, same_home a v, ap (λ b. b.nbits) l.same_swap),
          ));
    swap_ok = subst IsBitmap (sym l.same_swap) c.swap_ok;
    block_zero = ap (λ b. bit_at b.v 0) l.same_swap ∙ c.block_zero;
    swap_small = omega (arith, c.swap_small, ap (λ b. b.nbits) l.same_swap);
    pages_small = omega (arith, c.pages_small, l.same_pages);
    swaps = l.same_can ∙ c.swaps;
    frame_zero = same_kpage 0 ∙ c.frame_zero;
  }

pub Like-Coherent : (s s' : Vm) → Like s s' → Coherent s → Coherent s'
Like-Coherent s s' l c = Shape-Coherent s s' l.shape c

pub Like-SameBytes : (s s' : Vm) → Like s s' → SameBytes s s'
Like-SameBytes s s' l a v =
    Shape-bytes s s' l.shape a v
    ∙ ap (λ r. pte_bytes r s'.disk (pte_at s a v)) l.same_ram
    ∙ ap (λ d. pte_bytes s.ram d (pte_at s a v)) l.same_disk
