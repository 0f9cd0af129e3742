-- ===== src/Remote/Parts.antt =====
-- The parts of a commit (`parts`, crates/sqlite-remote-vfs/src/database.rs).
use sqlite_remote_vfs.Base.{
  ℕ, zero, suc, ◌+◌, ◌≤◌, ◌<◌, ◌≡◌, refl, ◌∙◌, ap, List, [], ◌∷◌, ◌++◌, map, ltb, length, take,
  drop, length-take, length-drop, arith, All,
}
use sqlite_remote_vfs.Base.Bytes.{Bytes}
use sqlite_remote_vfs.Proto
use sqlite_remote_vfs.Remote.{Remote, chunks, pieces, per_part, number_parts, parts, to_block}

-- All blocks of the parts, in order.
unfoldable pub all_blocks : List Proto.Commit → List Proto.Block
all_blocks [] = []
all_blocks (p ∷ ps) = p.blocks ++ all_blocks ps

concat : {A : Type 0} → List (List A) → List A
concat [] = []
concat (xs ∷ rest) = xs ++ concat rest

take-drop : {A : Type 0} (n : ℕ) (xs : List A) → take n xs ++ drop n xs ≡ xs
take-drop zero xs = refl
take-drop (suc n) [] = refl
take-drop (suc n) (x ∷ xs) = ap (◌∷◌ x) (take-drop n xs)

concat-chunks :
    {A : Type 0} (fuel n : ℕ) (xs : List A)
    → 0 < n
    → length xs ≤ fuel
    → concat (chunks fuel n xs) ≡ xs
unfolding concat chunks
concat-chunks zero n [] positive enough = refl
concat-chunks zero n (x ∷ xs) positive enough = absurd (omega arith)
concat-chunks (suc fuel) n [] positive enough = refl
concat-chunks (suc fuel) n (x ∷ xs) positive enough =
    ap (λ l. take n (x ∷ xs) ++ l)
      (concat-chunks fuel n (drop n (x ∷ xs)) positive (omega (arith, length-drop n (x ∷ xs))))
    ∙ take-drop n (x ∷ xs)

chunks_small : {A : Type 0} (fuel n : ℕ) (xs : List A) → All (λ c. length c ≤ n) (chunks fuel n xs)
unfolding chunks
chunks_small zero n xs = tt
chunks_small (suc fuel) n [] = tt
chunks_small (suc fuel) n (x ∷ xs) =
    (omega (arith, length-take n (x ∷ xs)), chunks_small fuel n (drop n (x ∷ xs)))

concat-pieces : (n : ℕ) (bs : List Proto.Block) → 0 < n → concat (pieces n bs) ≡ bs
unfolding pieces concat
concat-pieces n [] positive = refl
concat-pieces n (b ∷ bs) positive =
    unfold concat in concat-chunks (length (b ∷ bs)) n (b ∷ bs) positive (omega arith)

pieces_small : (n : ℕ) (bs : List Proto.Block) → All (λ c. length c ≤ n) (pieces n bs)
unfolding pieces
pieces_small n [] = (omega arith, tt)
pieces_small n (b ∷ bs) = chunks_small (length (b ∷ bs)) n (b ∷ bs)

pieces_some : (n : ℕ) (bs : List Proto.Block) → 0 < length (pieces n bs)
unfolding pieces chunks
pieces_some n [] = omega arith
pieces_some n (b ∷ bs) = omega arith

-- The parts from number `part` on: each is numbered and belongs to the commit, all but the last one
-- say that more follow, and none holds more than `n` blocks.
abbrev pub Numbered : Remote → Bytes → ℕ → ℕ → ℕ → ℕ → List Proto.Commit → Type 0
Numbered r commit_id page_count n count part [] = part ≡ count
Numbered r commit_id page_count n count part (p ∷ ps) =
    (p.part ≡ part)
    × (p.more ≡ ltb (part + 1) count)
    × (p.commit_id ≡ commit_id)
    × (p.lease_epoch ≡ r.lease_epoch)
    × (p.base_version ≡ r.version)
    × (p.page_count ≡ page_count)
    × (length p.blocks ≤ n)
    × Numbered r commit_id page_count n count (part + 1) ps

module _ (r : Remote) (commit_id : Bytes) (page_count n count : ℕ) where
  number_parts-Numbered :
      (part : ℕ) (cs : List (List Proto.Block))
      → part + length cs ≡ count
      → All (λ c. length c ≤ n) cs
      → Numbered r commit_id page_count n count part
          (number_parts r commit_id page_count count part cs)
  unfolding number_parts
  number_parts-Numbered part [] e small = omega arith
  number_parts-Numbered part (c ∷ cs) e small = (
    refl,
    refl,
    refl,
    refl,
    refl,
    refl,
    small.0,
    number_parts-Numbered (part + 1) cs (omega arith) small.1,
  )

  all_blocks-number_parts :
      (part : ℕ) (cs : List (List Proto.Block))
      → all_blocks (number_parts r commit_id page_count count part cs) ≡ concat cs
  unfolding all_blocks number_parts concat
  all_blocks-number_parts part [] = refl
  all_blocks-number_parts part (c ∷ cs) = ap (λ l. c ++ l) (all_blocks-number_parts (part + 1) cs)

  length-number_parts :
      (part : ℕ) (cs : List (List Proto.Block))
      → length (number_parts r commit_id page_count count part cs) ≡ length cs
  unfolding number_parts
  length-number_parts part [] = refl
  length-number_parts part (c ∷ cs) = ap suc (length-number_parts (part + 1) cs)

per_part-pos : (max_frame_bytes page_size : ℕ) → 0 < per_part max_frame_bytes page_size
unfolding per_part
per_part-pos max_frame_bytes page_size = omega arith

-- The parts of a commit carry the dirty blocks, each once and in order. There is at least one part;
-- they are numbered from 0, belong to the same commit of the lease and the version, all but the last
-- say that more follow, and none holds more blocks than `per_part`.
pub parts-Numbered :
    (r : Remote) (commit_id : Bytes) (max_frame_bytes page_size page_count : ℕ)
    (dirty : List (ℕ × Bytes))
    → let ps = parts r commit_id max_frame_bytes page_size page_count dirty in
      (all_blocks ps ≡ map to_block dirty)
      × (0 < length ps)
      × Numbered r commit_id page_count (per_part max_frame_bytes page_size) (length ps) 0 ps
unfolding parts
parts-Numbered r commit_id max_frame_bytes page_size page_count dirty =
    let n = per_part max_frame_bytes page_size in
    let cs = pieces n (map to_block dirty) in
    let len = length-number_parts r commit_id page_count n (length cs) 0 cs in
    (
      all_blocks-number_parts r commit_id page_count n (length cs) 0 cs
          ∙ concat-pieces n (map to_block dirty) (per_part-pos max_frame_bytes page_size),
      omega (arith, len, pieces_some n (map to_block dirty)),
      rw len (
          number_parts-Numbered r commit_id page_count n (length cs) 0 cs (omega arith)
            (pieces_small n (map to_block dirty))),
    )
