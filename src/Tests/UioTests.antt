-- ===== src/Tests/UioTests.antt =====
-- Five bytes into two blocks, of which the first takes two.
use longcat_os.Base.{none, [], ◌∷◌, ◌≡◌, true, refl, arith}
use longcat_os.Base.Outcome.{ret}
use longcat_os.Uio.{Uio, uiomove, uiomove_loop, userspace, read}
use longcat_os.Uio.Moves.{Moves, uiomove-Moves}

abbrev two_blocks : Uio
two_blocks = record {
  iov = record { base = 100; len = 2 } ∷ record { base = 200; len = 8 } ∷ [];
  offset = 40;
  resid = 10;
  segflg = userspace;
  rw = read;
  space = true;
  copies = [];
}

run :
    uiomove (λ rw ptr base size. none) 7 5 two_blocks
    ≡ ret tt (record two_blocks {
      iov = record { base = 203; len = 5 } ∷ [];
      offset = 45;
      resid = 5;
      copies =
          record { at = 7; block = 100; size = 2 } ∷ record { at = 9; block = 200; size = 3 } ∷ [];
    })
unfolding uiomove uiomove_loop
run = refl

uiomove-Moves_example : Moves two_blocks 5 (uiomove (λ rw ptr base size. none) 7 5 two_blocks)
uiomove-Moves_example =
    uiomove-Moves (λ rw ptr base size. none) 7 5 two_blocks
      (record { exact = refl; bounded = omega arith }) refl
