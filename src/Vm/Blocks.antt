-- ===== src/Vm/Blocks.antt =====
-- A frame gets a swap block, and its bytes are written there.
use longcat_os.Base.{
  ℕ, Option, none, some, Bool, true, false, ◌/◌, ◌^◌, ◌<◌, ◌≡◌, ◌≢◌, inl, inr, arith, refl, sym, ap,
  subst, ◌∙◌, if◌then◌else◌, ◌==◌, ℕ_discrete, Option-cases, Bool-cases,
}
use longcat_os.Base.Store.{store, store_self, store_ne, store-proj}
use longcat_os.Bitmap.{Bitmap}
use longcat_os.Bitmap.View.{bit_at, Changed}
use longcat_os.Vm.{Vm, Pte, CmEntry, pte_at}
use longcat_os.Vm.Lookup.{SamePage, OtherPage, page-cases, pte_in-same}
use longcat_os.Vm.Coherence.{
  Coherent, home, pte_home, pte_bytes, SameBytes, block_of, Holds-home, home-same, one_page,
  home_present, home_absent, bytes_present, bytes_absent,
}
use longcat_os.Vm.Like.{Shape-Coherent}

abbrev pte_present : Option Pte → Bool
pte_present none = false
pte_present (some p) = p.present

pub SamePage-trans : (a v b w c x : ℕ) → SamePage a v b w → SamePage b w c x → SamePage a v c x
SamePage-trans a v b w c x (p, q) (r, t) = (p ∙ r, q ∙ t)

pub SamePage-sym : (a v b w : ℕ) → SamePage a v b w → SamePage b w a v
SamePage-sym a v b w (p, q) = (sym p, sym q)

pub Other-not_same : (a v b w : ℕ) → OtherPage a v b w → SamePage a v b w → ⊥
Other-not_same a v b w (inl n) (p, q) = n p
Other-not_same a v b w (inr n) (p, q) = n q

module _ (s : Vm) (c : Coherent s) (i a : ℕ) (o : (s.entries i).owner ≡ some a) where
  page : ℕ
  page = (s.entries i).vaddr

  -- A present page other than that of frame `i` is in another frame.
  pub other_frame :
      (a' v' : ℕ) (p : Pte)
      → OtherPage a (s.entries i).vaddr a' v'
      → pte_at s a' v' ≡ some p
      → p.present ≡ true
      → i ≢ p.ppn
  other_frame a' v' p n e r q =
      let h = c.frames i a o in
      Other-not_same a (s.entries i).vaddr a' v' n
        (one_page s c a (s.entries i).vaddr a' v' h.pte p h.at h.present e r (h.frame ∙ q))

  -- A page that is not present does not have the block of frame `i`.
  pub other_block :
      (a' v' : ℕ) (p : Pte)
      → pte_at s a' v' ≡ some p
      → p.present ≡ false
      → (s.entries i).swap_location ≢ 0
      → (s.entries i).swap_location ≢ block_of p
  other_block a' v' p e r n q =
      let h = c.frames i a o in
      let k = Holds-home s i a h in
      let m : home s a' v' ≡ block_of p = ground (arith, e, r) in
      let same = c.homes a (s.entries i).vaddr a' v' (λ z. n (sym k ∙ z)) (k ∙ q ∙ sym m) in
      let u = sym h.at ∙ pte_in-same s.spaces a (s.entries i).vaddr a' v' same ∙ e in
      let z = ap pte_present u in absurd (ground (arith, h.present, r, z))

-- Frame `i` gets the swap block `b`, and its bytes are in that block.
abbrev pub given : Vm → ℕ → ℕ → Bitmap → Vm
given s i b m = record s {
  entries = store s.entries i (record (s.entries i) { swap_location = b });
  swap = m;
  disk = store s.disk b (s.ram i);
}

-- Block `b` was clear and is set.
pub record Fresh (m : Bitmap) (b : ℕ) (m' : Bitmap) : Type 0 where
  pub clear : bit_at m.v b ≡ 0
  pub below : b < m.nbits
  pub changed : Changed m b 1 m'

module _ (s : Vm) (c : Coherent s) (i a b : ℕ) (m : Bitmap) (o : (s.entries i).owner ≡ some a)
    (z : (s.entries i).swap_location ≡ 0) (f : Fresh s.swap b m) where
  pub not_zero : b ≢ 0
  not_zero q = absurd (omega (arith, c.block_zero, f.clear, ap (bit_at s.swap.v) q))

  -- The new block was nobody's.
  new_block : (a' v' : ℕ) → b ≢ home s a' v'
  new_block a' v' q = elim (ℕ_discrete (home s a' v') 0) [
    | yes e ↦ not_zero (q ∙ e)
    | no n ↦ absurd (omega (arith, (c.marked a' v' n).0, f.clear, ap (bit_at s.swap.v) q))
  ]

  given_here : home (given s i b m) a (s.entries i).vaddr ≡ b
  given_here =
      let h = c.frames i a o in
      home_present (given s i b m).entries s.ram s.disk (pte_at s a (s.entries i).vaddr) h.pte h.at
        h.present
      ∙ subst
          (λ k.
            (store s.entries i (record (s.entries i) { swap_location = b }) k).swap_location ≡ b)
          (sym h.frame) (ap (λ (x : CmEntry). x.swap_location) (store_self s.entries i _))

  given_other :
      (a' v' : ℕ)
      → OtherPage a (s.entries i).vaddr a' v'
      → home (given s i b m) a' v' ≡ home s a' v'
  given_other a' v' n = elim (Option-cases (pte_at s a' v')) [
    | inl e ↦ ap (pte_home (given s i b m).entries) e ∙ sym (ap (pte_home s.entries) e)
    | inr (p, e) ↦ elim (Bool-cases p.present) [
      | inl r ↦
          home_present (given s i b m).entries s.ram s.disk (pte_at s a' v') p e r
          ∙ ap (λ (x : CmEntry). x.swap_location)
              (store_ne s.entries i p.ppn _ (other_frame s c i a o a' v' p n e r))
          ∙ sym (home_present s.entries s.ram s.disk (pte_at s a' v') p e r)
      | inr r ↦
          home_absent (given s i b m).entries s.ram s.disk (pte_at s a' v') p e r
          ∙ sym (home_absent s.entries s.ram s.disk (pte_at s a' v') p e r)
    ]
  ]

  pub given-SameBytes : SameBytes s (given s i b m)
  given-SameBytes a' v' = elim (Option-cases (pte_at s a' v')) [
    | inl e ↦
        ap (pte_bytes (given s i b m).ram (given s i b m).disk) e
        ∙ sym (ap (pte_bytes s.ram s.disk) e)
    | inr (p, e) ↦ elim (Bool-cases p.present) [
      | inl r ↦
          bytes_present s.entries s.ram (given s i b m).disk (pte_at s a' v') p e r
          ∙ sym (bytes_present s.entries s.ram s.disk (pte_at s a' v') p e r)
      | inr r ↦
          bytes_absent s.entries s.ram (given s i b m).disk (pte_at s a' v') p e r
          ∙ ap (λ x. if block_of p == 0 then 0 else x)
              (store_ne s.disk b (block_of p) (s.ram i) (λ q.
                new_block a' v'
                  (q ∙ sym (home_absent s.entries s.ram s.disk (pte_at s a' v') p e r))))
          ∙ sym (bytes_absent s.entries s.ram s.disk (pte_at s a' v') p e r)
    ]
  ]

  given_same :
      {B : Type 0} (g : CmEntry → B) (j : ℕ)
      → g (record (s.entries i) { swap_location = b }) ≡ g (s.entries i)
      → g ((given s i b m).entries j) ≡ g (s.entries j)
  given_same g j e = store-proj g s.entries i j _ e

  given_homes :
      (a1 v1 a2 v2 : ℕ)
      → home (given s i b m) a1 v1 ≢ 0
      → home (given s i b m) a1 v1 ≡ home (given s i b m) a2 v2
      → SamePage a1 v1 a2 v2
  given_homes a1 v1 a2 v2 n e =
      let v = (s.entries i).vaddr in
      elim (page-cases a v a1 v1) [
        | inl p ↦ elim (page-cases a v a2 v2) [
          | inl q ↦ SamePage-trans a1 v1 a v a2 v2 (SamePage-sym a v a1 v1 p) q
          | inr q ↦ absurd (
              new_block a2 v2
                (sym given_here ∙ home-same (given s i b m) a v a1 v1 p ∙ e ∙ given_other a2 v2 q))
        ]
        | inr p ↦ elim (page-cases a v a2 v2) [
          | inl q ↦ absurd (
              new_block a1 v1 (
                sym given_here
                ∙ home-same (given s i b m) a v a2 v2 q
                ∙ sym e
                ∙ given_other a1 v1 p))
          | inr q ↦
              c.homes a1 v1 a2 v2 (λ w. n (given_other a1 v1 p ∙ w))
                (sym (given_other a1 v1 p) ∙ e ∙ given_other a2 v2 q)
        ]
      ]

  given_marked :
      (a1 v1 : ℕ)
      → home (given s i b m) a1 v1 ≢ 0
      → (bit_at m.v (home (given s i b m) a1 v1) ≡ 1) × (home (given s i b m) a1 v1 < m.nbits)
  given_marked a1 v1 n = elim (page-cases a (s.entries i).vaddr a1 v1) [
    | inl p ↦
        (let h = sym given_here ∙ home-same (given s i b m) a (s.entries i).vaddr a1 v1 p in
          (
            ap (bit_at m.v) (sym h) ∙ f.changed.here,
            omega (arith, h, f.below, f.changed.same_nbits),
          ))
    | inr p ↦
        (let h = given_other a1 v1 p in
          let k = c.marked a1 v1 (λ w. n (h ∙ w)) in
          (
            ap (bit_at m.v) h ∙ f.changed.others (home s a1 v1) (new_block a1 v1) ∙ k.0,
            omega (arith, h, k.1, f.changed.same_nbits),
          ))
  ]

  pub given-Coherent : Coherent (given s i b m)
  given-Coherent = record {
    frames = λ j a' e.
        (let h = c.frames j a' (sym (given_same (λ x. x.owner) j refl) ∙ e) in
          let w = given_same (λ x. x.vaddr) j refl in
          record {
            pte = h.pte;
            at = ap (pte_at s a') w ∙ h.at;
            present = h.present;
            frame = h.frame;
            below = h.below;
            mapped = omega (arith, h.mapped, w);
            aligned = omega (arith, h.aligned, w);
            no_kpage = given_same (λ x. x.kpage) j refl ∙ h.no_kpage;
          });
    pages = λ a' v' p e r.
        (let g = c.pages a' v' p e r in
          record {
            owner = given_same (λ x. x.owner) p.ppn refl ∙ g.owner;
            page = ap (λ x. x / 2 ^ 12) (given_same (λ x. x.vaddr) p.ppn refl) ∙ g.page;
            valid = g.valid;
            zeroed = g.zeroed;
          });
    homes = given_homes;
    marked = given_marked;
    swap_ok = f.changed.ok;
    block_zero = f.changed.others 0 not_zero ∙ c.block_zero;
    swap_small = omega (arith, c.swap_small, f.changed.same_nbits);
    pages_small = c.pages_small;
    swaps = c.swaps;
    frame_zero = given_same (λ x. x.kpage) 0 refl ∙ c.frame_zero;
  }

-- The bytes of frame `i` are written to the block that it has.
abbrev pub rewritten : Vm → ℕ → Vm
rewritten s i = record s { disk = store s.disk (s.entries i).swap_location (s.ram i) }

module _ (s : Vm) (c : Coherent s) (i a : ℕ) (o : (s.entries i).owner ≡ some a)
    (z : (s.entries i).swap_location ≢ 0) where
  pub rewritten-SameBytes : SameBytes s (rewritten s i)
  rewritten-SameBytes a' v' = elim (Option-cases (pte_at s a' v')) [
    | inl e ↦ ap (pte_bytes s.ram (rewritten s i).disk) e ∙ sym (ap (pte_bytes s.ram s.disk) e)
    | inr (p, e) ↦ elim (Bool-cases p.present) [
      | inl r ↦
          bytes_present s.entries s.ram (rewritten s i).disk (pte_at s a' v') p e r
          ∙ sym (bytes_present s.entries s.ram s.disk (pte_at s a' v') p e r)
      | inr r ↦
          bytes_absent s.entries s.ram (rewritten s i).disk (pte_at s a' v') p e r
          ∙ ap (λ x. if block_of p == 0 then 0 else x)
              (store_ne s.disk (s.entries i).swap_location (block_of p) (s.ram i)
                (other_block s c i a o a' v' p e r z))
          ∙ sym (bytes_absent s.entries s.ram s.disk (pte_at s a' v') p e r)
    ]
  ]

  pub rewritten-Coherent : Coherent (rewritten s i)
  rewritten-Coherent =
      Shape-Coherent s (rewritten s i)
        (record {
          cores = λ j. refl;
          ptes = λ a' v'. refl;
          same_pages = refl;
          same_swap = refl;
          same_can = refl;
        })
        c
