-- ===== src/Vm/Unmap.antt =====
-- A frame leaves the page table, once its bytes are in its swap block: the end of page_get in
-- kern/vm/paging.c.
use longcat_os.Base.{
  ℕ, none, some, true, false, ◌/◌, ◌%◌, ◌^◌, ◌≡◌, ◌≢◌, inl, inr, arith, refl, sym, ap, ◌∙◌,
  if◌then◌else◌, ◌==◌, ℕ_discrete, Option-cases, Bool-cases, ne→==, not, ◌&&◌,
}
use mathlib.Core.Option.{some-injective}
use longcat_os.Base.Store.{store, store_self, store_ne}
use longcat_os.Bitmap.View.{bit_at}
use longcat_os.Vm.{Vm, Pte, CmEntry, pte_at, pte_to}
use longcat_os.Vm.Lookup.{OtherPage, page-cases, pte_in-same, pte_to_self, pte_to_other}
use longcat_os.Vm.Coherence.{
  Coherent, Holds, InFrame, home, pte_home, bytes, pte_bytes, SameBytes, block_of, Holds-home,
  Holds-bytes, home-same, bytes-same, home_present, home_absent, bytes_absent,
}
use longcat_os.Vm.Blocks.{other_frame}

-- An entry of a frame that holds no page
abbrev pub no_page : CmEntry → CmEntry
no_page c = record {
  owner = none;
  vaddr = 0;
  swap_location = 0;
  dirty = false;
  tlb = false;
  busy = c.busy;
  kernel = false;
  kpage = false;
  exists = true;
}

abbrev pub away : Pte → ℕ → Pte
away pte loc = record pte { ppn = loc % 2 ^ 20; present = false }

abbrev pub unmapped : Vm → ℕ → ℕ → Pte → Vm
unmapped s i a pte = record s {
  entries = store s.entries i (no_page (s.entries i));
  spaces = pte_to s.spaces a (s.entries i).vaddr (away pte (s.entries i).swap_location);
}

module _ (s : Vm) (c : Coherent s) (i a : ℕ) (o : (s.entries i).owner ≡ some a) (h : Holds s i a)
    (z : (s.entries i).swap_location ≢ 0) (w : s.disk (s.entries i).swap_location ≡ s.ram i) where
  abbrev left : Vm
  left = unmapped s i a h.pte

  location_small : (s.entries i).swap_location % 2 ^ 20 ≡ (s.entries i).swap_location
  location_small =
      let k = Holds-home s i a h in
      let m = c.marked a (s.entries i).vaddr (λ e. z (sym k ∙ e)) in
      omega (arith, m.1, k, c.swap_small)

  in_frame : InFrame s a (s.entries i).vaddr h.pte
  in_frame = c.pages a (s.entries i).vaddr h.pte h.at h.present

  away_block : block_of (away h.pte (s.entries i).swap_location) ≡ (s.entries i).swap_location
  away_block =
      ap (λ x. if x && not h.pte.zeroed then (s.entries i).swap_location % 2 ^ 20 else 0)
        in_frame.valid
      ∙ ap (λ x. if not x then (s.entries i).swap_location % 2 ^ 20 else 0) in_frame.zeroed
      ∙ location_small

  left_at : pte_at left a (s.entries i).vaddr ≡ some (away h.pte (s.entries i).swap_location)
  left_at = pte_to_self s.spaces a (s.entries i).vaddr _ h.pte h.at

  left_other :
      (a' v' : ℕ) → OtherPage a (s.entries i).vaddr a' v' → pte_at left a' v' ≡ pte_at s a' v'
  left_other a' v' n = pte_to_other s.spaces a (s.entries i).vaddr _ h.pte h.at a' v' n

  left-home_other :
      (a' v' : ℕ) → OtherPage a (s.entries i).vaddr a' v' → home left a' v' ≡ home s a' v'
  left-home_other a' v' n =
      ap (pte_home left.entries) (left_other a' v' n) ∙ (elim (Option-cases (pte_at s a' v')) [
        | inl e ↦ ap (pte_home left.entries) e ∙ sym (ap (pte_home s.entries) e)
        | inr (p, e) ↦ elim (Bool-cases p.present) [
          | inl r ↦
              home_present left.entries s.ram s.disk (pte_at s a' v') p e r
              ∙ ap (λ (x : CmEntry). x.swap_location)
                  (store_ne s.entries i p.ppn _ (other_frame s c i a o a' v' p n e r))
              ∙ sym (home_present s.entries s.ram s.disk (pte_at s a' v') p e r)
          | inr r ↦
              home_absent left.entries s.ram s.disk (pte_at s a' v') p e r
              ∙ sym (home_absent s.entries s.ram s.disk (pte_at s a' v') p e r)
        ]
      ])

  pub unmapped-home : (a' v' : ℕ) → home left a' v' ≡ home s a' v'
  unmapped-home a' v' = elim (page-cases a (s.entries i).vaddr a' v') [
    | inl q ↦
        sym (home-same left a (s.entries i).vaddr a' v' q)
        ∙ home_absent left.entries s.ram s.disk _ _ left_at refl
        ∙ away_block
        ∙ sym (Holds-home s i a h)
        ∙ home-same s a (s.entries i).vaddr a' v' q
    | inr n ↦ left-home_other a' v' n
  ]

  away_bytes : bytes left a (s.entries i).vaddr ≡ bytes s a (s.entries i).vaddr
  away_bytes =
      bytes_absent left.entries s.ram s.disk _ _ left_at refl
      ∙ ap (λ x. if x == 0 then 0 else s.disk x) away_block
      ∙ ap (λ x. if x then 0 else s.disk (s.entries i).swap_location)
          (ne→== (s.entries i).swap_location 0 z)
      ∙ w
      ∙ sym (Holds-bytes s i a h)

  pub unmapped-SameBytes : SameBytes s left
  unmapped-SameBytes a' v' = elim (page-cases a (s.entries i).vaddr a' v') [
    | inl q ↦
        sym (bytes-same left a (s.entries i).vaddr a' v' q)
        ∙ away_bytes
        ∙ bytes-same s a (s.entries i).vaddr a' v' q
    | inr n ↦ ap (pte_bytes s.ram s.disk) (left_other a' v' n)
  ]

  other_entry : (j : ℕ) → i ≢ j → left.entries j ≡ s.entries j
  other_entry j n = store_ne s.entries i j _ n

  left_owner : (a' : ℕ) → (left.entries i).owner ≡ some a' → ⊥
  left_owner a' e = absurd (
      ground (
        arith,
        sym (ap (λ (x : CmEntry). x.owner) (store_self s.entries i (no_page (s.entries i)))) ∙ e,
      ))

  -- Another frame holds another page.
  other_page :
      (j a' : ℕ)
      → i ≢ j
      → (k : Holds s j a') → OtherPage a (s.entries i).vaddr a' (s.entries j).vaddr
  other_page j a' n k = elim (page-cases a (s.entries i).vaddr a' (s.entries j).vaddr) [
    | inr m ↦ m
    | inl q ↦
        (let e = some-injective h.pte k.pte (
            sym h.at
            ∙ pte_in-same s.spaces a (s.entries i).vaddr a' (s.entries j).vaddr q
            ∙ k.at) in
          absurd (n (sym h.frame ∙ ap (λ (p : Pte). p.ppn) e ∙ k.frame)))
  ]

  left_Holds : (j a' : ℕ) → i ≢ j → Holds s j a' → Holds left j a'
  left_Holds j a' n k =
      let q = ap (λ (x : CmEntry). x.vaddr) (other_entry j n) in
      record {
        pte = k.pte;
        at = ap (pte_at left a') q ∙ left_other a' (s.entries j).vaddr (other_page j a' n k) ∙ k.at;
        present = k.present;
        frame = k.frame;
        below = k.below;
        mapped = omega (arith, k.mapped, q);
        aligned = omega (arith, k.aligned, q);
        no_kpage = ap (λ (x : CmEntry). x.kpage) (other_entry j n) ∙ k.no_kpage;
      }

  left-InFrame :
      (a' v' : ℕ) (p : Pte)
      → OtherPage a (s.entries i).vaddr a' v'
      → pte_at s a' v' ≡ some p
      → p.present ≡ true
      → InFrame left a' v' p
  left-InFrame a' v' p n e r =
      let f = c.pages a' v' p e r in
      let q = other_entry p.ppn (other_frame s c i a o a' v' p n e r) in
      record {
        owner = ap (λ (x : CmEntry). x.owner) q ∙ f.owner;
        page = ap (λ (x : CmEntry). x.vaddr / 2 ^ 12) q ∙ f.page;
        valid = f.valid;
        zeroed = f.zeroed;
      }

  pub unmapped-Coherent : Coherent left
  unmapped-Coherent = record {
    frames = λ j a' e. elim (ℕ_discrete i j) [
      | yes q ↦ absurd (left_owner a' (ap (λ k. (left.entries k).owner) q ∙ e))
      | no n ↦
          left_Holds j a' n
            (c.frames j a' (sym (ap (λ (x : CmEntry). x.owner) (other_entry j n)) ∙ e))
    ];
    pages = λ a' v' p e r. elim (page-cases a (s.entries i).vaddr a' v') [
      | inl q ↦ absurd (
          ground (
            arith,
            r,
            some-injective _ _
                (sym left_at ∙ pte_in-same left.spaces a (s.entries i).vaddr a' v' q ∙ e),
          ))
      | inr n ↦ left-InFrame a' v' p n (sym (left_other a' v' n) ∙ e) r
    ];
    homes = λ a1 v1 a2 v2 n e.
        c.homes a1 v1 a2 v2 (λ x. n (unmapped-home a1 v1 ∙ x))
          (sym (unmapped-home a1 v1) ∙ e ∙ unmapped-home a2 v2);
    marked = λ a1 v1 n.
        (let k = c.marked a1 v1 (λ x. n (unmapped-home a1 v1 ∙ x)) in
          (
            ap (bit_at s.swap.v) (unmapped-home a1 v1) ∙ k.0,
            omega (arith, k.1, unmapped-home a1 v1),
          ));
    swap_ok = c.swap_ok;
    block_zero = c.block_zero;
    swap_small = c.swap_small;
    pages_small = c.pages_small;
    swaps = c.swaps;
    frame_zero =
        ap (λ (x : CmEntry). x.kpage)
          (other_entry 0 (λ q.
            absurd (ground (arith, c.frame_zero, h.no_kpage, ap (λ k. (s.entries k).kpage) q))))
        ∙ c.frame_zero;
  }
