-- ===== src/Vm/Kmem/Find.antt =====
-- The search of alloc_kpages for a block.
use longcat_os.Base.{
  if◌then◌else◌, ℕ, zero, suc, Option, none, some, true, ◌+◌, ◌<◌, ◌≤◌, ◌≡◌, ◌⊎◌, inl, inr, arith,
  refl, sym, ap, subst, ◌∙◌, ℕ_discrete, Bool-cases, ◌==◌,
}
use mathlib.Core.Option.{some-injective}
use longcat_os.Vm.{CmEntry}
use longcat_os.Vm.Paging.{is_free}
use longcat_os.Vm.Kmem.{find_block}

-- What the search for a block found: `n` free frames in a row from `start` on
abbrev pub FreeBlock : (ℕ → CmEntry) → ℕ → ℕ → Type 0
FreeBlock e n start = (j : ℕ) → start ≤ j → j < start + n → is_free (e j) ≡ true

-- The free frames in a row before `cur_block`
abbrev pub Run : (ℕ → CmEntry) → ℕ → ℕ → Option ℕ → Type 0
Run e cur_block found start =
    (found ≡ 0) ⊎ ((b : ℕ) × (start ≡ some b) × (b + found ≡ cur_block) × FreeBlock e found b)

-- One more free frame
Run-next :
    (e : ℕ → CmEntry) (cur_block found : ℕ) (start : Option ℕ)
    → is_free (e cur_block) ≡ true
    → Run e cur_block found start
    → (b : ℕ) × ((if found == 0 then some cur_block else start) ≡ some b)
      × (b + (found + 1) ≡ cur_block + 1)
      × FreeBlock e (found + 1) b
Run-next e c found start f (inl z) = (
  c,
  ground (arith, z),
  omega arith,
  λ j p q. ap (λ k. is_free (e k)) {x = j} {y = c} (omega arith) ∙ f,
)
Run-next e c found start f (inr (b, q, s, g)) = elim (ℕ_discrete found 0) [
  | yes z ↦ (
    c,
    ground (arith, z),
    omega arith,
    λ j p q. ap (λ k. is_free (e k)) {x = j} {y = c} (omega arith) ∙ f,
  )
  | no n ↦ (
    b,
    ground (arith, n, q),
    omega arith,
    λ j p r. elim (ℕ_discrete j c) [
      | yes y ↦ ap (λ k. is_free (e k)) y ∙ f
      | no y ↦ g j p (omega arith)
    ],
  )
]

-- Where the search finds as many frames as were asked for, they are free and in a row.
pub find_block-FreeBlock :
    (npages rounds cur_block found : ℕ) (start : Option ℕ) (e : ℕ → CmEntry)
    → Run e cur_block found start
    → found < npages
    → (b : ℕ) → find_block npages rounds cur_block found start e ≡ (npages, some b)
    → FreeBlock e npages b
unfolding find_block
find_block-FreeBlock npages zero c found start e r l b q = absurd (omega (arith, ap (λ x. x.0) q))
find_block-FreeBlock npages (suc rounds) c found start e r l b q = elim (Bool-cases (e c).exists) [
  | inr x ↦
      (let w : (found, start) ≡ (npages, some b) = sym (ground (arith, x)) ∙ q in
        absurd (omega (arith, ap (λ y. y.0) w)))
  | inl x ↦ elim (Bool-cases (is_free (e c))) [
    | inr y ↦
        (let w : find_block npages rounds (c + 1) 0 none e ≡ (npages, some b) =
            sym (ground (arith, x, y)) ∙ q in
          find_block-FreeBlock npages rounds (c + 1) 0 none e (inl refl) (omega arith) b w)
    | inl y ↦
        (let (b', s, t, g) = Run-next e c found start y r in
          elim (ℕ_discrete (found + 1) npages) [
            | yes z ↦
                (let w : (found + 1, (if found == 0 then some c else start)) ≡ (npages, some b) =
                    sym (ground (arith, x, y, z)) ∙ q in
                  let same : b' ≡ b = some-injective b' b (sym s ∙ ap (λ k. k.1) w) in
                  subst (λ k. FreeBlock e npages k) same (subst (λ k. FreeBlock e k b') z g))
            | no z ↦
                (let w : find_block npages rounds (c + 1) (found + 1)
                        (if found == 0 then some c else start) e
                      ≡ (npages, some b) =
                    sym (ground (arith, x, y, z)) ∙ q in
                  find_block-FreeBlock npages rounds (c + 1) (found + 1)
                    (if found == 0 then some c else start) e (inr (b', s, t, g)) (omega arith) b w)
          ])
  ]
]

-- A search that finds enough says where.
pub find_block-some :
    (npages rounds cur_block found : ℕ) (start : Option ℕ) (e : ℕ → CmEntry)
    → Run e cur_block found start
    → found < npages
    → (find_block npages rounds cur_block found start e).0 ≡ npages
    → (b : ℕ) × (find_block npages rounds cur_block found start e ≡ (npages, some b))
unfolding find_block
find_block-some npages zero c found start e r l q = absurd (omega (arith, q))
find_block-some npages (suc rounds) c found start e r l q = elim (Bool-cases (e c).exists) [
  | inr x ↦
      (let w : (find_block npages (suc rounds) c found start e) ≡ (found, start) =
          ground (arith, x) in
        absurd (omega (arith, ap (λ y. y.0) (sym w), q)))
  | inl x ↦ elim (Bool-cases (is_free (e c))) [
    | inr y ↦
        (let w : find_block npages (suc rounds) c found start e
              ≡ find_block npages rounds (c + 1) 0 none e =
            ground (arith, x, y) in
          let (b, s) =
            find_block-some npages rounds (c + 1) 0 none e (inl refl) (omega arith)
              (sym (ap (λ k. k.0) w) ∙ q) in
          (b, w ∙ s))
    | inl y ↦
        (let (b', s, t, g) = Run-next e c found start y r in
          elim (ℕ_discrete (found + 1) npages) [
            | yes z ↦
                (let w : find_block npages (suc rounds) c found start e
                      ≡ (found + 1, (if found == 0 then some c else start)) =
                    ground (arith, x, y, z) in
                  (
                    b',
                    w
                        ∙ ap (λ k. (k, (if found == 0 then some c else start))) z
                        ∙ ap (λ k. (npages, k)) s,
                  ))
            | no z ↦
                (let next = if found == 0 then some c else start in
                  let w : find_block npages (suc rounds) c found start e
                      ≡ find_block npages rounds (c + 1) (found + 1) next e =
                    ground (arith, x, y, z) in
                  let (b, v) =
                    find_block-some npages rounds (c + 1) (found + 1) next e (inr (b', s, t, g))
                      (omega arith) (sym (ap (λ k. k.0) w) ∙ q) in
                  (b, w ∙ v))
          ])
  ]
]
