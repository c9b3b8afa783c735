-- ===== src/Vm/Sound.antt =====
-- The whole invariant of the virtual memory system, with the translation buffer, and what a step keeps.
use longcat_os.Base.{ℕ, some, true, false, ◌+◌, ◌*◌, ◌^◌, ◌<◌, ◌≡◌, ◌⊎◌, arith, sym, ap, subst, ◌∙◌}
use longcat_os.Vm.{Vm, Pte, pte_at, num_tlb}
use longcat_os.Vm.Coherence.{Coherent, SameBytes}
use longcat_os.Vm.Like.{Like, Like-SameBytes, Like-Coherent, same_owner, same_vaddr}

-- The buffer, while the address space `cur` is in use: a flag in the coremap means an entry, a valid
-- entry is for a frame of that address space, and no page has two entries.
pub record TlbOk (cur : ℕ) (s : Vm) : Type 0 where
  pub tracked :
      (i : ℕ)
      → (s.entries i).tlb ≡ true
      → (k : ℕ) × (k < num_tlb)
        × ((s.tlbs k).hi ≡ (s.entries i).vaddr)
        × ((s.tlbs k).ppage ≡ i)
        × (i < s.num_pages)
        × ((s.tlbs k).valid ≡ true)
  pub current :
      (k : ℕ)
      → k < num_tlb
      → (s.tlbs k).valid ≡ true
      → ((s.entries (s.tlbs k).ppage).tlb ≡ true)
        × ((s.entries (s.tlbs k).ppage).owner ≡ some cur)
        × ((s.entries (s.tlbs k).ppage).vaddr ≡ (s.tlbs k).hi)
  pub distinct : (k k' : ℕ) → k < num_tlb → k' < num_tlb → (s.tlbs k).hi ≡ (s.tlbs k').hi → k ≡ k'
  pub range :
      (k : ℕ)
      → k < num_tlb
      → (((s.tlbs k).valid ≡ true) × ((s.tlbs k).hi < 2 ^ 31))
        ⊎ ((s.tlbs k).hi ≡ (0x80000 + k) * 2 ^ 12)

pub record Sound (cur : ℕ) (s : Vm) : Type 0 where
  pub coherent : Coherent s
  pub tlb_ok : TlbOk cur s

-- The bytes of every page, the entries of the pages that are not in memory, and who works on a frame
pub record Kept (s t : Vm) : Type 0 where
  pub same_bytes : SameBytes s t
  pub absent :
      (a v : ℕ) (p : Pte) → pte_at s a v ≡ some p → p.present ≡ false → pte_at t a v ≡ some p
  pub busy : (j : ℕ) → (t.entries j).busy ≡ (s.entries j).busy
  pub pages : t.num_pages ≡ s.num_pages
  pub clock : t.clock_head ≡ s.clock_head

pub Kept-trans : (s t u : Vm) → Kept s t → Kept t u → Kept s u
Kept-trans s t u k l = record {
  same_bytes = λ a v. l.same_bytes a v ∙ k.same_bytes a v;
  absent = λ a v p e r. l.absent a v p (k.absent a v p e r) r;
  busy = λ j. l.busy j ∙ k.busy j;
  pages = l.pages ∙ k.pages;
  clock = l.clock ∙ k.clock;
}

pub Like-Kept :
    (s t : Vm)
    → Like s t
    → ((j : ℕ) → (t.entries j).busy ≡ (s.entries j).busy)
    → t.clock_head ≡ s.clock_head
    → Kept s t
Like-Kept s t l b h = record {
  same_bytes = Like-SameBytes s t l;
  absent = λ a v p e r. l.shape.ptes a v ∙ e;
  busy = b;
  pages = l.shape.same_pages;
  clock = h;
}

-- A step that does not touch the buffer, nor what it depends on
pub record Untouched (s t : Vm) : Type 0 where
  pub same_tlbs : t.tlbs ≡ s.tlbs
  pub pages : t.num_pages ≡ s.num_pages
  pub flag : (j : ℕ) → (t.entries j).tlb ≡ (s.entries j).tlb
  pub owner : (j : ℕ) → (s.entries j).tlb ≡ true → (t.entries j).owner ≡ (s.entries j).owner
  pub vaddr : (j : ℕ) → (s.entries j).tlb ≡ true → (t.entries j).vaddr ≡ (s.entries j).vaddr

pub Untouched-TlbOk : (cur : ℕ) (s t : Vm) → Untouched s t → TlbOk cur s → TlbOk cur t
Untouched-TlbOk cur s t w ok = record {
  tracked = λ i e.
      (let y = sym (w.flag i) ∙ e in
        let (k, l, h, p, b, x) = ok.tracked i y in
        (
          k,
          l,
          ap (λ f. (f k).hi) w.same_tlbs ∙ h ∙ sym (w.vaddr i y),
          ap (λ f. (f k).ppage) w.same_tlbs ∙ p,
          omega (arith, b, w.pages),
          ap (λ f. (f k).valid) w.same_tlbs ∙ x,
        ));
  current = λ k l e.
      (let (a, b, d) = ok.current k l (sym (ap (λ f. (f k).valid) w.same_tlbs) ∙ e) in
        let q : (t.tlbs k).ppage ≡ (s.tlbs k).ppage = ap (λ f. (f k).ppage) w.same_tlbs in
        (
          ap (λ x. (t.entries x).tlb) q ∙ w.flag (s.tlbs k).ppage ∙ a,
          ap (λ x. (t.entries x).owner) q ∙ w.owner (s.tlbs k).ppage a ∙ b,
          ap (λ x. (t.entries x).vaddr) q
              ∙ w.vaddr (s.tlbs k).ppage a
              ∙ d
              ∙ sym (ap (λ f. (f k).hi) w.same_tlbs),
        ));
  distinct = λ k k' l l' e.
      ok.distinct k k' l l'
        (sym (ap (λ f. (f k).hi) w.same_tlbs) ∙ e ∙ ap (λ f. (f k').hi) w.same_tlbs);
  range = λ k l.
      subst
        (λ f. (((f k).valid ≡ true) × ((f k).hi < 2 ^ 31)) ⊎ ((f k).hi ≡ (0x80000 + k) * 2 ^ 12))
        (sym w.same_tlbs) (ok.range k l);
}

-- Changes of flags other than those of the buffer keep a sound state sound.
pub flags-Sound :
    (cur : ℕ) (s t : Vm)
    → Like s t
    → t.tlbs ≡ s.tlbs
    → ((j : ℕ) → (t.entries j).tlb ≡ (s.entries j).tlb)
    → Sound cur s
    → Sound cur t
flags-Sound cur s t l e f d = record {
  coherent = Like-Coherent s t l d.coherent;
  tlb_ok =
      Untouched-TlbOk cur s t
        (record {
          same_tlbs = e;
          pages = l.shape.same_pages;
          flag = f;
          owner = λ j r. same_owner s t l.shape j;
          vaddr = λ j r. same_vaddr s t l.shape j;
        })
        d.tlb_ok;
}
