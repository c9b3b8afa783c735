-- ===== src/Vm/Map.antt =====
-- A page moves into a frame that nobody has: the end of page_swapin in kern/vm/paging.c.
use longcat_os.Base.{
  ℕ, none, some, true, false, ◌/◌, ◌%◌, ◌^◌, ◌<◌, ◌≡◌, ◌≢◌, inl, inr, arith, refl, sym, ap, subst,
  ◌∙◌, if◌then◌else◌, ◌==◌, ℕ_discrete, Option-cases, Bool-cases,
}
use mathlib.Core.Option.{some-injective}
use longcat_os.Base.Store.{store, store_self, store_ne}
use longcat_os.Bitmap.View.{bit_at}
use longcat_os.Vm.{Vm, Pte, CmEntry, pte_at, pte_to, page_size}
use longcat_os.Vm.Lookup.{SamePage, OtherPage, page-cases, pte_in-same, pte_to_self, pte_to_other}
use longcat_os.Vm.Coherence.{
  Coherent, Holds, InFrame, home, pte_home, bytes, pte_bytes, SameBytes, block_of, home-same,
  bytes-same, home_present, home_absent, bytes_present, bytes_absent,
}

-- An entry of a frame that holds a page
abbrev pub page_entry : ℕ → ℕ → ℕ → CmEntry
page_entry a v loc = record {
  owner = some a;
  vaddr = v;
  swap_location = loc;
  dirty = false;
  tlb = false;
  busy = false;
  kernel = false;
  kpage = false;
  exists = true;
}

abbrev pub here : ℕ → Pte
here i = record { ppn = i % 2 ^ 20; valid = true; writeable = true; present = true; zeroed = false }

abbrev pub content : Vm → ℕ → ℕ
content s loc = if loc == 0 then 0 else s.disk loc

abbrev pub mapped : Vm → ℕ → ℕ → ℕ → ℕ → Vm
mapped s i a v loc = record s {
  entries = store s.entries i (page_entry a v loc);
  spaces = pte_to s.spaces a v (here i);
  ram = store s.ram i (content s loc);
}

module _ (s : Vm) (c : Coherent s) (i a v : ℕ) (p : Pte) (o : (s.entries i).owner ≡ none)
    (b : i < s.num_pages) (nk : (s.entries i).kpage ≡ false) (e : pte_at s a v ≡ some p)
    (r : p.present ≡ false) (pos : 0 < v) (al : v % page_size ≡ 0) where
  abbrev next : Vm
  next = mapped s i a v (block_of p)

  frame_small : i % 2 ^ 20 ≡ i
  frame_small = omega (arith, b, c.pages_small)

  -- No page is in the frame.
  not_in : (a' v' : ℕ) (q : Pte) → pte_at s a' v' ≡ some q → q.present ≡ true → i ≢ q.ppn
  not_in a' v' q f t n =
      absurd (ground (arith, (c.pages a' v' q f t).owner, o, ap (λ k. (s.entries k).owner) n))

  pub mapped_at : pte_at next a v ≡ some (here i)
  mapped_at = pte_to_self s.spaces a v (here i) p e

  next_other : (a' v' : ℕ) → OtherPage a v a' v' → pte_at next a' v' ≡ pte_at s a' v'
  next_other a' v' n = pte_to_other s.spaces a v (here i) p e a' v' n

  next_entry : next.entries (i % 2 ^ 20) ≡ page_entry a v (block_of p)
  next_entry = ap next.entries frame_small ∙ store_self s.entries i (page_entry a v (block_of p))

  other_entry : (j : ℕ) → i ≢ j → next.entries j ≡ s.entries j
  other_entry j n = store_ne s.entries i j _ n

  home_here : home next a v ≡ home s a v
  home_here =
      home_present next.entries next.ram s.disk _ _ mapped_at refl
      ∙ ap (λ (x : CmEntry). x.swap_location) next_entry
      ∙ sym (home_absent s.entries s.ram s.disk _ _ e r)

  bytes_here : bytes next a v ≡ bytes s a v
  bytes_here =
      bytes_present next.entries next.ram s.disk _ _ mapped_at refl
      ∙ ap next.ram frame_small
      ∙ store_self s.ram i (content s (block_of p))
      ∙ sym (bytes_absent s.entries s.ram s.disk _ _ e r)

  home_other : (a' v' : ℕ) → pte_home next.entries (pte_at s a' v') ≡ home s a' v'
  home_other a' v' = elim (Option-cases (pte_at s a' v')) [
    | inl f ↦ ap (pte_home next.entries) f ∙ sym (ap (pte_home s.entries) f)
    | inr (q, f) ↦ elim (Bool-cases q.present) [
      | inl t ↦
          home_present next.entries s.ram s.disk (pte_at s a' v') q f t
          ∙ ap (λ (x : CmEntry). x.swap_location) (other_entry q.ppn (not_in a' v' q f t))
          ∙ sym (home_present s.entries s.ram s.disk (pte_at s a' v') q f t)
      | inr t ↦
          home_absent next.entries s.ram s.disk (pte_at s a' v') q f t
          ∙ sym (home_absent s.entries s.ram s.disk (pte_at s a' v') q f t)
    ]
  ]

  bytes_other : (a' v' : ℕ) → pte_bytes next.ram next.disk (pte_at s a' v') ≡ bytes s a' v'
  bytes_other a' v' = elim (Option-cases (pte_at s a' v')) [
    | inl f ↦ ap (pte_bytes next.ram next.disk) f ∙ sym (ap (pte_bytes s.ram s.disk) f)
    | inr (q, f) ↦ elim (Bool-cases q.present) [
      | inl t ↦
          bytes_present s.entries next.ram s.disk (pte_at s a' v') q f t
          ∙ store_ne s.ram i q.ppn _ (not_in a' v' q f t)
          ∙ sym (bytes_present s.entries s.ram s.disk (pte_at s a' v') q f t)
      | inr t ↦
          bytes_absent s.entries next.ram s.disk (pte_at s a' v') q f t
          ∙ sym (bytes_absent s.entries s.ram s.disk (pte_at s a' v') q f t)
    ]
  ]

  pub mapped-home : (a' v' : ℕ) → home next a' v' ≡ home s a' v'
  mapped-home a' v' = elim (page-cases a v a' v') [
    | inl q ↦ sym (home-same next a v a' v' q) ∙ home_here ∙ home-same s a v a' v' q
    | inr n ↦ ap (pte_home next.entries) (next_other a' v' n) ∙ home_other a' v'
  ]

  pub mapped-SameBytes : SameBytes s next
  mapped-SameBytes a' v' = elim (page-cases a v a' v') [
    | inl q ↦ sym (bytes-same next a v a' v' q) ∙ bytes_here ∙ bytes-same s a v a' v' q
    | inr n ↦ ap (pte_bytes next.ram next.disk) (next_other a' v' n) ∙ bytes_other a' v'
  ]

  other_page : (j a' : ℕ) → (k : Holds s j a') → OtherPage a v a' (s.entries j).vaddr
  other_page j a' k = elim (page-cases a v a' (s.entries j).vaddr) [
    | inr m ↦ m
    | inl q ↦
        (let f =
            some-injective p k.pte
              (sym e ∙ pte_in-same s.spaces a v a' (s.entries j).vaddr q ∙ k.at) in
          absurd (ground (arith, r, k.present, ap (λ (x : Pte). x.present) f)))
  ]

  old_Holds : (j a' : ℕ) → i ≢ j → Holds s j a' → Holds next j a'
  old_Holds j a' n k =
      let q = ap (λ (x : CmEntry). x.vaddr) (other_entry j n) in
      record {
        pte = k.pte;
        at = ap (pte_at next a') q ∙ next_other a' (s.entries j).vaddr (other_page j a' k) ∙ k.at;
        present = k.present;
        frame = k.frame;
        below = k.below;
        mapped = omega (arith, k.mapped, q);
        aligned = omega (arith, k.aligned, q);
        no_kpage = ap (λ (x : CmEntry). x.kpage) (other_entry j n) ∙ k.no_kpage;
      }

  self : next.entries i ≡ page_entry a v (block_of p)
  self = store_self s.entries i (page_entry a v (block_of p))

  new_Holds : Holds next i a
  new_Holds =
      let q = ap (λ (x : CmEntry). x.vaddr) self in
      record {
        pte = here i;
        at = ap (pte_at next a) q ∙ mapped_at;
        present = refl;
        frame = frame_small;
        below = b;
        mapped = omega (arith, pos, q);
        aligned = omega (arith, al, q);
        no_kpage = ap (λ (x : CmEntry). x.kpage) self;
      }

  new_owner : (a' : ℕ) → (next.entries i).owner ≡ some a' → a ≡ a'
  new_owner a' f = some-injective a a' (sym (ap (λ (x : CmEntry). x.owner) self) ∙ f)

  new_InFrame : (a' v' : ℕ) (q : Pte) → SamePage a v a' v' → here i ≡ q → InFrame next a' v' q
  new_InFrame a' v' q (m, n) f =
      let t = ap (λ (x : Pte). next.entries x.ppn) (sym f) ∙ next_entry in
      record {
        owner = ap (λ (x : CmEntry). x.owner) t ∙ ap some m;
        page = ap (λ (x : CmEntry). x.vaddr / 2 ^ 12) t ∙ n;
        valid = ap (λ (x : Pte). x.valid) (sym f);
        zeroed = ap (λ (x : Pte). x.zeroed) (sym f);
      }

  old_InFrame :
      (a' v' : ℕ) (q : Pte) → pte_at s a' v' ≡ some q → q.present ≡ true → InFrame next a' v' q
  old_InFrame a' v' q f t =
      let g = c.pages a' v' q f t in
      let u = other_entry q.ppn (not_in a' v' q f t) in
      record {
        owner = ap (λ (x : CmEntry). x.owner) u ∙ g.owner;
        page = ap (λ (x : CmEntry). x.vaddr / 2 ^ 12) u ∙ g.page;
        valid = g.valid;
        zeroed = g.zeroed;
      }

  pub mapped-Coherent : Coherent next
  mapped-Coherent = record {
    frames = λ j a' f. elim (ℕ_discrete i j) [
      | yes q ↦
          subst (λ k. Holds next k a') q
            (subst (Holds next i) (new_owner a' (ap (λ k. (next.entries k).owner) q ∙ f)) new_Holds)
      | no n ↦
          old_Holds j a' n
            (c.frames j a' (sym (ap (λ (x : CmEntry). x.owner) (other_entry j n)) ∙ f))
    ];
    pages = λ a' v' q f t. elim (page-cases a v a' v') [
      | inl m ↦
          new_InFrame a' v' q m
            (some-injective _ _ (sym mapped_at ∙ pte_in-same next.spaces a v a' v' m ∙ f))
      | inr n ↦ old_InFrame a' v' q (sym (next_other a' v' n) ∙ f) t
    ];
    homes = λ a1 v1 a2 v2 n f.
        c.homes a1 v1 a2 v2 (λ x. n (mapped-home a1 v1 ∙ x))
          (sym (mapped-home a1 v1) ∙ f ∙ mapped-home a2 v2);
    marked = λ a1 v1 n.
        (let k = c.marked a1 v1 (λ x. n (mapped-home a1 v1 ∙ x)) in
          (ap (bit_at s.swap.v) (mapped-home a1 v1) ∙ k.0, omega (arith, k.1, mapped-home a1 v1)));
    swap_ok = c.swap_ok;
    block_zero = c.block_zero;
    swap_small = c.swap_small;
    pages_small = c.pages_small;
    swaps = c.swaps;
    frame_zero =
        ap (λ (x : CmEntry). x.kpage)
          (other_entry 0
            (λ q. absurd (ground (arith, c.frame_zero, nk, ap (λ k. (s.entries k).kpage) q))))
        ∙ c.frame_zero;
  }
