-- ===== src/Examples/Bitmaps.antt =====
-- The theorems on the bitmap of a local copy at concrete inputs: ten blocks, of which blocks 1, 3
-- and 9 are present, with the bits of three blocks past the tenth set.
use sqlite_remote_vfs.Base.{◌≡◌, refl, true, false, [], ◌∷◌, arith}
use sqlite_remote_vfs.Base.Bytes.{Bytes}
use sqlite_remote_vfs.Present.{has, set, resized}
use sqlite_remote_vfs.Present.Bitmap.{has-set}
use sqlite_remote_vfs.Present.Resized.{has-resized}

abbrev bits : Bytes
bits = 10 ∷ 58 ∷ []

-- Test: the bytes after a block more and after a cut to ten blocks.
set_four : set bits 4 ≡ 26 ∷ 58 ∷ []
unfolding set
set_four = refl

cut_ten : resized bits 10 ≡ 10 ∷ 2 ∷ []
unfolding resized
cut_ten = refl

has-set_example : has (set bits 4) 4 ≡ true
has-set_example = has-set bits 4 4 (omega arith)

has-resized_example : has (resized bits 10) 11 ≡ false
has-resized_example = has-resized bits 10 11
