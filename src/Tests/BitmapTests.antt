-- ===== src/Tests/BitmapTests.antt =====
-- A bitmap of ten bits.
use longcat_os.Base.{some, [], ◌∷◌, ◌≡◌, true, refl, subst, arith}
use longcat_os.Base.Outcome.{ret, Post, ◌>>◌}
use longcat_os.Bitmap.{Bitmap, bitmap_create, bitmap_alloc, bitmap_mark, bitmap_unmark, fill}
use longcat_os.Bitmap.View.{IsBitmap, Changed}
use longcat_os.Bitmap.Create.{bitmap_create-Fresh}
use longcat_os.Bitmap.Search.{Allocated, Full, bitmap_alloc-Post}
use longcat_os.Bitmap.Change.{bitmap_mark-Changed, bitmap_mark-bitmap_unmark}

abbrev ten_bits : Bitmap
ten_bits = record { nbits = 10; v = 0 ∷ 252 ∷ [] }

create_run : bitmap_create 10 true true tt ≡ ret (some ten_bits) tt
unfolding bitmap_create fill
create_run = refl

ten_bits-IsBitmap : IsBitmap ten_bits
ten_bits-IsBitmap =
    let (b, e, f) = bitmap_create-Fresh {S = Unit {0}} 10 (omega arith) in
    let run = create_run in
    let made = e tt in let same : b ≡ ten_bits = cc in subst IsBitmap same f.ok

-- After the first three bits were taken
abbrev three_used : Bitmap
three_used = record { nbits = 10; v = 7 ∷ 252 ∷ [] }

marked : (b' : Bitmap) × (bitmap_mark 9 ten_bits ≡ ret tt b') × Changed ten_bits 9 1 b'
marked = bitmap_mark-Changed ten_bits 9 ten_bits-IsBitmap (omega arith) refl

bitmap_mark-bitmap_unmark_example : (bitmap_mark 3 >> bitmap_unmark 3) ten_bits ≡ ret tt ten_bits
bitmap_mark-bitmap_unmark_example =
    bitmap_mark-bitmap_unmark ten_bits 3 ten_bits-IsBitmap (omega arith) refl

bitmap_alloc-Post_example : Post (Allocated ten_bits) (Full ten_bits) (bitmap_alloc ten_bits)
bitmap_alloc-Post_example = bitmap_alloc-Post ten_bits ten_bits-IsBitmap

abbrev with_nine : Bitmap
with_nine = record { nbits = 10; v = 0 ∷ 254 ∷ [] }

mark_run : bitmap_mark 9 ten_bits ≡ ret tt with_nine
unfolding bitmap_mark
mark_run = refl

with_nine-IsBitmap : IsBitmap with_nine
with_nine-IsBitmap =
    let (b, e, c) = marked in
    let run = mark_run in let same : b ≡ with_nine = cc in subst IsBitmap same c.ok
