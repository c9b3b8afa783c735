-- ===== src/Uio/Moves.antt =====
-- uiomove moves what there is to move.
use longcat_os.Base.{
  ℕ, zero, suc, none, some, List, [], ◌∷◌, ◌++◌, true, ◌+◌, ◌-◌, ◌%◌, ◌^◌, min, ◌≡◌, ◌≢◌, ◌≤◌, ◌<◌,
  arith, refl, sym, subst, ap, ◌∙◌, ℕ_discrete, Option-cases, inl, inr,
}
use longcat_os.Base.Outcome.{Outcome, ret, fail, panic, Errno, ◌>>◌, kassert, Post}
use longcat_os.Uio.{
  Iovec, Uio, Copy, CopyAnswer, copy_result, advanced, uiomove_loop, uiomove, blocks,
}

abbrev pub total : List Iovec → ℕ
total [] = 0
total (v ∷ vs) = v.len + total vs

abbrev pub copied : List Copy → ℕ
copied [] = 0
copied (c ∷ cs) = c.size + copied cs

copied-append : (cs : List Copy) (c : Copy) → copied (cs ++ (c ∷ [])) ≡ copied cs + c.size
copied-append [] c = omega arith
copied-append (d ∷ cs) c = omega (arith, copied-append cs c)

-- `uio_resid` is the length of the blocks.
pub record IsUio (u : Uio) : Type 0 where
  pub exact : total u.iov ≡ u.resid
  pub bounded : u.resid < 2 ^ 32

-- `m` bytes were moved between `u` and `s`.
pub record Moved (u : Uio) (m : ℕ) (s : Uio) : Type 0 where
  pub ok : IsUio s
  pub resid : s.resid + m ≡ u.resid
  pub offset : s.offset % 2 ^ 64 ≡ (u.offset + m) % 2 ^ 64
  pub same_space : s.space ≡ u.space
  pub bytes : copied s.copies ≡ copied u.copies + m

-- A call that fails has moved less than was asked for.
abbrev pub Stopped : Uio → ℕ → Uio → Type 0
Stopped u n s = (m : ℕ) × (m < n) × Moved u m s

loop_done :
    (answer : CopyAnswer) (fuel ptr n : ℕ) (u : Uio)
    → min n u.resid ≡ 0
    → uiomove_loop answer (suc fuel) ptr n u ≡ ret tt u
unfolding uiomove_loop
loop_done answer fuel ptr n u e = ground arith

loop_skip :
    (answer : CopyAnswer) (fuel ptr n : ℕ) (u : Uio) (v w : Iovec) (ws : List Iovec)
    → min n u.resid ≢ 0
    → u.iov ≡ v ∷ w ∷ ws
    → v.len ≡ 0
    → uiomove_loop answer (suc fuel) ptr n u
      ≡ uiomove_loop answer fuel ptr n (record u { iov = w ∷ ws })
unfolding uiomove_loop
loop_skip answer fuel ptr n u v w ws e i z = ground arith

loop_copy :
    (answer : CopyAnswer) (fuel ptr n : ℕ) (u : Uio) (v : Iovec) (vs : List Iovec)
    → min n u.resid ≢ 0
    → u.iov ≡ v ∷ vs
    → v.len ≢ 0
    → copy_result answer u ptr v.base (min v.len n) ≡ none
    → uiomove_loop answer (suc fuel) ptr n u
      ≡ uiomove_loop answer fuel
          (ptr + min v.len n)
          (n - min v.len n)
          (advanced u v vs ptr (min v.len n))
unfolding uiomove_loop
loop_copy answer fuel ptr n u v vs e i z c = ground arith

loop_fault :
    (answer : CopyAnswer) (fuel ptr n : ℕ) (u : Uio) (v : Iovec) (vs : List Iovec) (err : Errno)
    → min n u.resid ≢ 0
    → u.iov ≡ v ∷ vs
    → v.len ≢ 0
    → copy_result answer u ptr v.base (min v.len n) ≡ some err
    → uiomove_loop answer (suc fuel) ptr n u ≡ fail err u
unfolding uiomove_loop
loop_fault answer fuel ptr n u v vs err e i z c = ground arith

Post-map :
    {A : Type 0} {P P' : A → Uio → Type 0} {Q Q' : Uio → Type 0} (o : Outcome Uio A)
    → ((a : A) (s : Uio) → P a s → P' a s)
    → ((s : Uio) → Q s → Q' s)
    → Post P Q o
    → Post P' Q' o
Post-map (ret a s) f g p = f a s p
Post-map (fail e s) f g p = g s p
Post-map panic f g p = p

-- What a round moved, and then the rest
then-Moved :
    (u w s : Uio) (a m c : ℕ)
    → c ≡ a + m
    → w.resid + a ≡ u.resid
    → w.offset % 2 ^ 64 ≡ (u.offset + a) % 2 ^ 64
    → w.space ≡ u.space
    → copied w.copies ≡ copied u.copies + a
    → Moved w m s
    → Moved u c s
then-Moved u w s a m c q r o p d v = record {
  ok = record { exact = v.ok.exact; bounded = v.ok.bounded };
  resid = omega (arith, v.resid);
  offset = omega (arith, v.offset);
  same_space = v.same_space ∙ p;
  bytes = omega (arith, v.bytes);
}

-- After a round that copied `a` bytes the blocks still are as long as `uio_resid`.
advanced-IsUio :
    (u : Uio) (v : Iovec) (vs : List Iovec) (ptr a : ℕ)
    → IsUio u
    → u.iov ≡ v ∷ vs
    → a ≤ v.len
    → IsUio (advanced u v vs ptr a) × ((advanced u v vs ptr a).resid + a ≡ u.resid)
advanced-IsUio u v vs ptr a w i l =
    let t : v.len + total vs ≡ u.resid = ap total (sym i) ∙ w.exact in
    let b = w.bounded in (record { exact = omega arith; bounded = omega arith }, omega arith)

abbrev pub Moves : Uio → ℕ → Outcome Uio (Unit {0}) → Type 0
Moves u n = Post (λ x s. Moved u n s) (Stopped u n)

-- The outcome of the rest of the loop is that of the whole, `a` bytes later.
pub later :
    (u w : Uio) (a m c : ℕ) (o : Outcome Uio (Unit {0}))
    → c ≡ a + m
    → w.resid + a ≡ u.resid
    → w.offset % 2 ^ 64 ≡ (u.offset + a) % 2 ^ 64
    → w.space ≡ u.space
    → copied w.copies ≡ copied u.copies + a
    → Moves w m o
    → Moves u c o
later u w a m c o q r f t d p =
    Post-map {P = λ x s. Moved w m s} {P' = λ x s. Moved u c s} {Q = Stopped w m} {Q' = Stopped u c}
      o (λ x s v. then-Moved u w s a m c q r f t d v)
      (λ s (k, l, v). (a + k, omega arith, then-Moved u w s a k (a + k) refl r f t d v)) p

pub none-Moved : (u : Uio) → IsUio u → Moved u 0 u
none-Moved u w = record {
  ok = record { exact = w.exact; bounded = w.bounded };
  resid = omega arith;
  offset = ap (λ a. a % 2 ^ 64) (omega arith);
  same_space = refl;
  bytes = omega arith;
}

module _ (answer : CopyAnswer) (fuel : ℕ)
    (rest : (ptr n : ℕ) (u : Uio)
      → IsUio u
      → n + blocks u.iov < fuel
      → Moves u (min n u.resid) (uiomove_loop answer fuel ptr n u))
    (ptr n : ℕ) (u : Uio) (w : IsUio u) (lf : n + blocks u.iov < suc fuel)
    (go : min n u.resid ≢ 0) where
  copied_rest :
      (v : Iovec) (vs : List Iovec)
      → u.iov ≡ v ∷ vs
      → v.len ≢ 0
      → Moves u (min n u.resid) (
          uiomove_loop answer fuel
            (ptr + min v.len n)
            (n - min v.len n)
            (advanced u v vs ptr (min v.len n)))
  copied_rest v vs i z =
      let k = min v.len n in
      let next = advanced u v vs ptr k in
      let (aw, ar) = advanced-IsUio u v vs ptr k w i (omega arith) in
      later u next k (min (n - k) next.resid) (min n u.resid) _ (omega (arith, ar)) ar (omega arith)
        refl (copied-append u.copies (record { at = ptr; block = v.base; size = k }))
        (rest (ptr + k) (n - k) next aw (omega (arith, ap blocks i)))

  copy_round :
      (v : Iovec) (vs : List Iovec)
      → u.iov ≡ v ∷ vs
      → v.len ≢ 0
      → Moves u (min n u.resid) (uiomove_loop answer (suc fuel) ptr n u)
  copy_round v vs i z = elim (Option-cases (copy_result answer u ptr v.base (min v.len n))) [
    | inl c ↦
        subst (Moves u (min n u.resid)) (sym (loop_copy answer fuel ptr n u v vs go i z c))
          (copied_rest v vs i z)
    | inr (err, c) ↦
        subst (Moves u (min n u.resid)) (sym (loop_fault answer fuel ptr n u v vs err go i z c))
          (0, omega arith, none-Moved u w)
  ]

  skip_round :
      (v : Iovec) (vs : List Iovec)
      → u.iov ≡ v ∷ vs
      → v.len ≡ 0
      → Moves u (min n u.resid) (uiomove_loop answer (suc fuel) ptr n u)
  skip_round v [] i z = absurd (omega (arith, w.exact, ap total i))
  skip_round v (x ∷ xs) i z =
      subst (Moves u (min n u.resid)) (sym (loop_skip answer fuel ptr n u v x xs go i z)) (
        later u (record u { iov = x ∷ xs }) 0 (min n u.resid) (min n u.resid) _ (omega arith)
          (omega arith) (ap (λ a. a % 2 ^ 64) (omega arith)) refl (omega arith)
          (rest ptr n (record u { iov = x ∷ xs })
            (record { exact = omega (arith, w.exact, ap total i); bounded = w.bounded })
            (omega (arith, ap blocks i))))

  round :
      (vs : List Iovec)
      → u.iov ≡ vs
      → Moves u (min n u.resid) (uiomove_loop answer (suc fuel) ptr n u)
  round [] i = absurd (omega (arith, w.exact, ap total i))
  round (v ∷ vs) i = elim (ℕ_discrete v.len 0) [
    | yes z ↦ skip_round v vs i z
    | no z ↦ copy_round v vs i z
  ]

loop-Moves :
    (answer : CopyAnswer) (fuel ptr n : ℕ) (u : Uio)
    → IsUio u
    → n + blocks u.iov < fuel
    → Moves u (min n u.resid) (uiomove_loop answer fuel ptr n u)
loop-Moves answer zero ptr n u w l = absurd (omega arith)
loop-Moves answer (suc fuel) ptr n u w l = elim (ℕ_discrete (min n u.resid) 0) [
  | yes z ↦
      subst (Moves u (min n u.resid)) (sym (loop_done answer fuel ptr n u z))
        (subst (λ m. Moved u m u) (sym z) (none-Moved u w))
  | no z ↦ round answer fuel (loop-Moves answer fuel) ptr n u w l z u.iov refl
]

-- Where `uio_resid` is the length of the blocks, and `uio_space` is as it should be, uiomove never
-- panics. It moves the smaller one of `n` and `uio_resid`: the copies add up to it, `uio_offset`
-- grows by it and `uio_resid` shrinks by it; where copyin or copyout fails, the same holds for what
-- was moved before, which is less.
pub uiomove-Moves :
    (answer : CopyAnswer) (ptr n : ℕ) (u : Uio)
    → IsUio u
    → u.space ≡ true
    → Moves u (min n u.resid) (uiomove answer ptr n u)
unfolding uiomove
uiomove-Moves answer ptr n u w e =
    subst
      (λ b.
        Moves u (min n u.resid) ((kassert b >> uiomove_loop answer (n + blocks u.iov + 1) ptr n) u))
      (sym e) (loop-Moves answer (n + blocks u.iov + 1) ptr n u w (omega arith))
