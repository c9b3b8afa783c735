-- ===== src/Uio/Zeros.antt =====
-- uiomovezeros moves as many zeros as there are bytes to fill, and what the uio constructors make.
use longcat_os.Base.{
  ℕ, zero, suc, ◌+◌, ◌-◌, ◌^◌, min, ◌≡◌, ◌≢◌, ◌≤◌, ◌<◌, true, arith, refl, sym, subst, ◌∙◌,
  ℕ_discrete,
}
use longcat_os.Base.Outcome.{M, Outcome, ret, fail, panic, ◌>>◌, kassert}
use longcat_os.Uio.{
  Uio, CopyAnswer, Direction, read, is_read, uiomove, uiomovezeros_loop, uiomovezeros, uio_kinit,
}
use longcat_os.Uio.Moves.{IsUio, Moved, Moves, later, none-Moved, uiomove-Moves}

zeros_done :
    (answer : CopyAnswer) (fuel buffer : ℕ) (u : Uio)
    → uiomovezeros_loop answer (suc fuel) buffer 0 u ≡ ret tt u
unfolding uiomovezeros_loop
zeros_done answer fuel buffer u = refl

zeros_more :
    (answer : CopyAnswer) (fuel buffer n : ℕ) (u : Uio)
    → n ≢ 0
    → uiomovezeros_loop answer (suc fuel) buffer n u
      ≡ (uiomove answer buffer (min 16 n) >> uiomovezeros_loop answer fuel buffer (n - min 16 n)) u
unfolding uiomovezeros_loop
zeros_more answer fuel buffer n u e = ground arith

-- A call that moves `a` bytes, and one that moves the rest
both :
    (u : Uio) (a c : ℕ) (k : M Uio (Unit {0})) (o : Outcome Uio (Unit {0}))
    → a ≤ c
    → ((s : Uio) → Moved u a s → Moves u c (k s))
    → Moves u a o
    → Moves u c (◌>>◌ (λ s. o) k u)
both u a c k (ret x s) l f m = f s m
both u a c k (fail e s) l f (b, h, v) = (b, omega arith, v)
both u a c k panic l f m = m

buffer-Moves :
    (answer : CopyAnswer) (fuel buffer n : ℕ) (u : Uio)
    → IsUio u
    → u.space ≡ true
    → n < fuel
    → Moves u (min n u.resid) (uiomovezeros_loop answer fuel buffer n u)
buffer-Moves answer zero buffer n u w e l = absurd (omega arith)
buffer-Moves answer (suc fuel) buffer n u w e l = elim (ℕ_discrete n 0) [
  | yes z ↦
      subst (λ m. Moves u (min m u.resid) (uiomovezeros_loop answer (suc fuel) buffer m u)) (sym z)
        (subst (Moves u (min 0 u.resid)) (sym (zeros_done answer fuel buffer u))
          (subst (λ m. Moved u m u) (omega arith) (none-Moved u w)))
  | no z ↦ subst (Moves u (min n u.resid)) (sym (zeros_more answer fuel buffer n u z)) (
      both u (min (min 16 n) u.resid) (min n u.resid)
        (uiomovezeros_loop answer fuel buffer (n - min 16 n)) (uiomove answer buffer (min 16 n) u)
        (omega arith)
        (λ s v.
          later u s (min (min 16 n) u.resid) (min (n - min 16 n) s.resid) (min n u.resid) _
            (omega (arith, v.resid)) v.resid v.offset v.same_space v.bytes
            (buffer-Moves answer fuel buffer (n - min 16 n) s v.ok (v.same_space ∙ e)
              (omega arith)))
        (uiomove-Moves answer buffer (min 16 n) u w e))
]

-- uiomovezeros for a read moves the smaller one of `n` and `uio_resid` bytes, under the conditions of
-- uiomove, or stops before at a fault of copyout; it never panics.
pub uiomovezeros-Moves :
    (answer : CopyAnswer) (buffer n : ℕ) (u : Uio)
    → IsUio u
    → u.space ≡ true
    → u.rw ≡ read
    → Moves u (min n u.resid) (uiomovezeros answer buffer n u)
unfolding uiomovezeros
uiomovezeros-Moves answer buffer n u w e r =
    subst
      (λ d.
        Moves u (min n u.resid)
          ((kassert (is_read d) >> uiomovezeros_loop answer (n + 1) buffer n) u))
      (sym r) (buffer-Moves answer (n + 1) buffer n u w e (omega arith))

-- uio_kinit of a buffer below 4 GB makes a uio for which uiomove moves the smaller one of `n` and the
-- length of the buffer.
pub uio_kinit-uiomove :
    (answer : CopyAnswer) (kbuf len pos ptr n : ℕ) (rw : Direction)
    → len < 2 ^ 32
    → Moves
        (uio_kinit kbuf len pos rw)
        (min n len)
        (uiomove answer ptr n (uio_kinit kbuf len pos rw))
uio_kinit-uiomove answer kbuf len pos ptr n rw l =
    uiomove-Moves answer ptr n (uio_kinit kbuf len pos rw)
      (record { exact = omega arith; bounded = l }) refl
