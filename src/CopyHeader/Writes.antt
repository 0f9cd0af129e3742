-- ===== src/CopyHeader/Writes.antt =====
-- Writes to ranges of a byte string, and numbers in a fixed number of bytes
-- (`copy_from_slice` and `to_le_bytes` in crates/sqlite-remote-vfs/src/local.rs).
use sqlite_remote_vfs.Base.{
  ℕ, zero, suc, ◌+◌, ◌/◌, ◌≤◌, ◌<◌, ◌≡◌, refl, ◌∙◌, ap, ◌⊎◌, inl, inr, List, [], ◌∷◌, ◌++◌, length,
  take, drop, slice, write_at, take_append, length-write_at, arith, All,
}
use sqlite_remote_vfs.Base.Bytes.{Bytes, le_bytes, of_le}

-- What was written to a range is read from it.
slice-write_at :
    (xs : Bytes) (at : ℕ) (src : Bytes)
    → at + length src ≤ length xs
    → slice (write_at xs at src) at (length src) ≡ src
unfolding write_at
slice-write_at xs zero src h = take_append src (drop (length src) xs)
slice-write_at [] (suc at) src h = absurd (omega arith)
slice-write_at (x ∷ xs) (suc at) src h = slice-write_at xs at src (omega arith)

drop_longer :
    (src xs : Bytes) (a : ℕ) → length src ≤ a → drop a (src ++ drop (length src) xs) ≡ drop a xs
drop_longer [] xs a h = refl
drop_longer (s ∷ src) [] zero h = absurd (omega arith)
drop_longer (s ∷ src) (x ∷ xs) zero h = absurd (omega arith)
drop_longer (s ∷ src) (x ∷ xs) (suc a) h = drop_longer src xs a (omega arith)
drop_longer (s ∷ src) [] (suc a) h = drop_nil src a (omega arith)
  where
    drop_nil : (src : Bytes) (a : ℕ) → length src ≤ a → drop a (src ++ []) ≡ []
    drop_nil [] zero h = refl
    drop_nil [] (suc a) h = refl
    drop_nil (s ∷ src) zero h = absurd (omega arith)
    drop_nil (s ∷ src) (suc a) h = drop_nil src a (omega arith)

drop-write_at :
    (xs : Bytes) (at : ℕ) (src : Bytes) (a : ℕ)
    → at + length src ≤ a
    → drop a (write_at xs at src) ≡ drop a xs
unfolding write_at
drop-write_at xs zero src a h = drop_longer src xs a (omega arith)
drop-write_at [] (suc at) src a h = refl
drop-write_at (x ∷ xs) (suc at) src zero h = absurd (omega arith)
drop-write_at (x ∷ xs) (suc at) src (suc a) h = drop-write_at xs at src a (omega arith)

slice_before :
    (xs : Bytes) (at : ℕ) (src : Bytes) (a n : ℕ)
    → a + n ≤ at
    → slice (write_at xs at src) a n ≡ slice xs a n
unfolding write_at
slice_before xs at src zero zero h = refl
slice_before xs zero src zero (suc n) h = absurd (omega arith)
slice_before [] (suc at) src zero (suc n) h = refl
slice_before (x ∷ xs) (suc at) src zero (suc n) h =
    ap (◌∷◌ x) (slice_before xs at src zero n (omega arith))
slice_before xs zero src (suc a) n h = absurd (omega arith)
slice_before [] (suc at) src (suc a) n h = refl
slice_before (x ∷ xs) (suc at) src (suc a) n h = slice_before xs at src a n (omega arith)

-- Other ranges keep their bytes.
slice_apart :
    (xs : Bytes) (at : ℕ) (src : Bytes) (a n : ℕ)
    → (a + n ≤ at) ⊎ (at + length src ≤ a)
    → slice (write_at xs at src) a n ≡ slice xs a n
slice_apart xs at src a n (inl before) = slice_before xs at src a n before
slice_apart xs at src a n (inr behind) = ap (take n) (drop-write_at xs at src a behind)

abbrev pub Fits : ℕ → ℕ → Type 0
Fits zero n = n < 1
Fits (suc w) n = Fits w (n / 256)

pub of_le-le_bytes : (w n : ℕ) → Fits w n → of_le (le_bytes w n) ≡ n
unfolding of_le le_bytes
of_le-le_bytes zero n h = omega (arith, h)
of_le-le_bytes (suc w) n h = omega (arith, of_le-le_bytes w (n / 256) h)

length-le_bytes : (w n : ℕ) → length (le_bytes w n) ≡ w
unfolding le_bytes
length-le_bytes zero n = refl
length-le_bytes (suc w) n = ap suc (length-le_bytes w (n / 256))

-- Several writes, one after the other.
unfoldable pub write_all : Bytes → List (ℕ × Bytes) → Bytes
write_all xs [] = xs
write_all xs ((at, src) ∷ ws) = write_all (write_at xs at src) ws

abbrev pub Within : ℕ → List (ℕ × Bytes) → Type 0
Within size ws = All (λ w. w.0 + length w.1 ≤ size) ws

abbrev Behind : ℕ → List (ℕ × Bytes) → Type 0
Behind end ws = All (λ w. end ≤ w.0) ws

pub length-write_all :
    (xs : Bytes) (ws : List (ℕ × Bytes))
    → Within (length xs) ws
    → length (write_all xs ws) ≡ length xs
unfolding write_all
length-write_all xs [] h = refl
length-write_all xs ((at, src) ∷ ws) h =
    let same = length-write_at xs at src h.0 in
    length-write_all (write_at xs at src) ws (rw same h.1) ∙ same

slice-write_all :
    (xs : Bytes) (ws : List (ℕ × Bytes)) (a n : ℕ)
    → Behind (a + n) ws
    → slice (write_all xs ws) a n ≡ slice xs a n
unfolding write_all
slice-write_all xs [] a n h = refl
slice-write_all xs ((at, src) ∷ ws) a n h =
    slice-write_all (write_at xs at src) ws a n h.1 ∙ slice_before xs at src a n h.0

-- Each write begins where the one before has ended, or behind.
abbrev pub Ascending : ℕ → List (ℕ × Bytes) → Type 0
Ascending end [] = Unit
Ascending end ((at, src) ∷ ws) = (end ≤ at) × Ascending (at + length src) ws

Ascending-Behind :
    (low end : ℕ) (ws : List (ℕ × Bytes)) → low ≤ end → Ascending end ws → Behind low ws
Ascending-Behind low end [] le h = tt
Ascending-Behind low end ((at, src) ∷ ws) le h =
    (omega (arith, h.0), Ascending-Behind low (at + length src) ws (omega (arith, h.0)) h.1)

-- Ascending writes are all read back.
pub fields :
    (xs : Bytes) (ws : List (ℕ × Bytes)) (end : ℕ)
    → Ascending end ws
    → Within (length xs) ws
    → All (λ w. slice (write_all xs ws) w.0 (length w.1) ≡ w.1) ws
unfolding write_all
fields xs [] end h within = tt
fields xs ((at, src) ∷ ws) end h within = (
  slice-write_all (write_at xs at src) ws at (length src)
        (Ascending-Behind (at + length src) (at + length src) ws (omega arith) h.1)
      ∙ slice-write_at xs at src within.0,
  fields (write_at xs at src) ws (at + length src) h.1
      (rw (length-write_at xs at src within.0) within.1),
)
