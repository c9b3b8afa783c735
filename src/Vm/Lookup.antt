-- ===== src/Vm/Lookup.antt =====
-- Page table entries by page: reading one, and what writing one does to the others.
use longcat_os.Base.{
  ℕ, Option, some, ◌/◌, ◌^◌, ◌<◌, ◌≡◌, ◌≢◌, ◌⊎◌, inl, inr, arith, sym, ap, subst, ◌∙◌, lt→ltb,
  ℕ_discrete, Option-cases, dec_lt,
}
use longcat_os.Base.Store.{store, store_self, store_ne}
use longcat_os.Vm.{
  Pte, Space, vaddr_to_pt, vaddr_to_pte, pd_size, dir_read, dir_write, pte_in, with_pd, pte_to,
}

abbrev pub SamePage : ℕ → ℕ → ℕ → ℕ → Type 0
SamePage a v a' v' = (a ≡ a') × (v / 2 ^ 12 ≡ v' / 2 ^ 12)

abbrev pub OtherPage : ℕ → ℕ → ℕ → ℕ → Type 0
OtherPage a v a' v' = (a ≢ a') ⊎ (v / 2 ^ 12 ≢ v' / 2 ^ 12)

pub page-cases : (a v a' v' : ℕ) → SamePage a v a' v' ⊎ OtherPage a v a' v'
page-cases a v a' v' = elim (ℕ_discrete a a') [
  | no n ↦ inr (inl n)
  | yes e ↦ elim (ℕ_discrete (v / 2 ^ 12) (v' / 2 ^ 12)) [ no n ↦ inr (inr n) | yes f ↦ inl (e, f) ]
]

pub dir_read_lem :
    (pd : ℕ → Option (ℕ → Pte)) (i j : ℕ) (q : Pte)
    → dir_read pd i j ≡ some q
    → (t : ℕ → Pte) × (pd i ≡ some t) × (i < pd_size)
unfolding dir_read
dir_read_lem pd i j q e = elim (dec_lt i pd_size) [
  | no n ↦ absurd (ground (arith, n))
  | yes l ↦ elim (Option-cases (pd i)) [
    | inl d ↦ absurd (ground (arith, d))
    | inr (t, d) ↦ (t, d, l)
  ]
]

pub dir_read_new :
    (pd : ℕ → Option (ℕ → Pte)) (i j : ℕ) (t : ℕ → Pte)
    → i < pd_size
    → dir_read (store pd i (some t)) i j ≡ some (t j)
unfolding dir_read
dir_read_new pd i j t l = rw (lt→ltb i pd_size l, store_self pd i (some t))

pub dir_read_ne :
    (pd : ℕ → Option (ℕ → Pte)) (i i' j : ℕ) (o : Option (ℕ → Pte))
    → i ≢ i'
    → dir_read (store pd i o) i' j ≡ dir_read pd i' j
unfolding dir_read
dir_read_ne pd i i' j o n = rw (store_ne pd i i' o n)

dir_write_lem :
    (pd : ℕ → Option (ℕ → Pte)) (i j : ℕ) (p : Pte) (t : ℕ → Pte)
    → pd i ≡ some t
    → dir_write pd i j p ≡ store pd i (some (store t j p))
unfolding dir_write
dir_write_lem pd i j p t e = ground (arith, e)

dir_read_table :
    (pd : ℕ → Option (ℕ → Pte)) (i j : ℕ) (t : ℕ → Pte)
    → i < pd_size
    → pd i ≡ some t
    → dir_read pd i j ≡ some (t j)
unfolding dir_read
dir_read_table pd i j t l e = ground (arith, e)

dir_read-write_self :
    (pd : ℕ → Option (ℕ → Pte)) (i j : ℕ) (p q : Pte)
    → dir_read pd i j ≡ some q
    → dir_read (dir_write pd i j p) i j ≡ some p
dir_read-write_self pd i j p q e =
    let (t, d, l) = dir_read_lem pd i j q e in
    ap (λ x. dir_read x i j) (dir_write_lem pd i j p t d)
    ∙ dir_read_new pd i j (store t j p) l
    ∙ ap some (store_self t j p)

dir_read-write_ne :
    (pd : ℕ → Option (ℕ → Pte)) (i j i' j' : ℕ) (p q : Pte)
    → dir_read pd i j ≡ some q
    → (i ≢ i') ⊎ (j ≢ j')
    → dir_read (dir_write pd i j p) i' j' ≡ dir_read pd i' j'
dir_read-write_ne pd i j i' j' p q e o =
    let (t, d, l) = dir_read_lem pd i j q e in
    ap (λ x. dir_read x i' j') (dir_write_lem pd i j p t d) ∙ (elim (ℕ_discrete i i') [
      | no n ↦ dir_read_ne pd i i' j' (some (store t j p)) n
      | yes s ↦
          subst (λ k. dir_read (store pd i (some (store t j p))) k j' ≡ dir_read pd k j') s
            (dir_read_new pd i j' (store t j p) l
              ∙ ap some (store_ne t j j' p (elim o [ inl n ↦ absurd (n s) | inr n ↦ n ]))
              ∙ sym (dir_read_table pd i j' t l d))
    ])

indices :
    (v v' : ℕ)
    → v / 2 ^ 12 ≢ v' / 2 ^ 12
    → (vaddr_to_pt v ≢ vaddr_to_pt v') ⊎ (vaddr_to_pte v ≢ vaddr_to_pte v')
indices v v' n = elim (ℕ_discrete (vaddr_to_pt v) (vaddr_to_pt v')) [
  | no m ↦ inl m
  | yes m ↦ inr (λ k. n (omega arith))
]

-- The entry depends on the page alone.
pub pte_in-same :
    (spaces : ℕ → Space) (a v a' v' : ℕ)
    → SamePage a v a' v'
    → pte_in spaces a v ≡ pte_in spaces a' v'
pte_in-same spaces a v a' v' (e, f) =
    let p : vaddr_to_pt v ≡ vaddr_to_pt v' = omega arith in
    let q : vaddr_to_pte v ≡ vaddr_to_pte v' = omega arith in
    ap (λ b. pte_in spaces b v) e
    ∙ ap (λ i. dir_read (spaces a').pd i (vaddr_to_pte v)) p
    ∙ ap (dir_read (spaces a').pd (vaddr_to_pt v')) q

module _ (spaces : ℕ → Space) (a v : ℕ) (p : Pte) where
  -- Another address space is not touched by a write to a directory.
  pub with_pd_other :
      (pd : ℕ → Option (ℕ → Pte)) (a' v' : ℕ)
      → a ≢ a'
      → pte_in (with_pd spaces a pd) a' v' ≡ pte_in spaces a' v'
  with_pd_other pd a' v' n =
      ap (λ (x : Space). dir_read x.pd (vaddr_to_pt v') (vaddr_to_pte v'))
        (store_ne spaces a a' _ n)

  pub with_pd_here :
      (pd : ℕ → Option (ℕ → Pte)) (v' : ℕ)
      → pte_in (with_pd spaces a pd) a v' ≡ dir_read pd (vaddr_to_pt v') (vaddr_to_pte v')
  with_pd_here pd v' =
      ap (λ (x : Space). dir_read x.pd (vaddr_to_pt v') (vaddr_to_pte v')) (store_self spaces a _)

  module _ (q : Pte) (e : pte_in spaces a v ≡ some q) where
    pub pte_to_self : pte_in (pte_to spaces a v p) a v ≡ some p
    pte_to_self = with_pd_here _ v ∙ dir_read-write_self (spaces a).pd _ _ p q e

    pub pte_to_other :
        (a' v' : ℕ) → OtherPage a v a' v' → pte_in (pte_to spaces a v p) a' v' ≡ pte_in spaces a' v'
    pte_to_other a' v' (inl n) = with_pd_other _ a' v' n
    pte_to_other a' v' (inr n) = elim (ℕ_discrete a a') [
      | no m ↦ with_pd_other _ a' v' m
      | yes s ↦
          subst (λ b. pte_in (pte_to spaces a v p) b v' ≡ pte_in spaces b v') s
            (with_pd_here _ v'
              ∙ dir_read-write_ne (spaces a).pd _ _ (vaddr_to_pt v') (vaddr_to_pte v') p q e
                  (indices v v' n))
    ]
