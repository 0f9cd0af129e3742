-- ===== src/Pages/Truncate.antt =====
-- Truncating the file.
use sqlite_remote_vfs.Base.{
  ℕ, ◌+◌, ◌*◌, ◌%◌, ◌≤◌, ◌<◌, ◌≡◌, refl, sym, ◌∙◌, ap, inl, inr, Bool, true, false, Option, none,
  List, [], ◌∷◌, arith, elem, Bool-cases, if◌then◌else◌, ltb, ◌==◌, ==→eq, ==→ne, ltb→lt, ltb→le,
  lt→ltb, le→ltb,
}
use sqlite_remote_vfs.Base.Map.{find, retain, find-retain, retain-IsMap}
use sqlite_remote_vfs.Base.Sorted
use sqlite_remote_vfs.Pages.{Pages, Block, block, content_of, truncate, div_ceil}
use sqlite_remote_vfs.Pages.View.{Stored, Blank, content, Serves}
use sqlite_remote_vfs.Pages.Place.{NothingBeyond}

-- `div_ceil` is the least number of blocks that hold `size` bytes.
pub div_ceil_least :
    (size d : ℕ) → 0 < d → (size ≤ div_ceil size d * d) × (div_ceil size d * d < size + d)
unfolding div_ceil
div_ceil_least size d h = elim (Bool-cases (size % d == 0)) [
  | inl even ↦ let e = ==→eq (size % d) 0 even in rw even (grind arith, grind arith)
  | inr odd ↦ let e = ==→ne (size % d) 0 odd in rw odd (grind arith, grind arith)
]

elem-retain :
    (f : ℕ → Bool) (i : ℕ) (xs : List ℕ)
    → elem i (Sorted.retain f xs) ≡ (if f i then elem i xs else false)
unfolding Sorted.retain
elem-retain f i [] = ground arith
elem-retain f i (x ∷ xs) = elim (Bool-cases (x == i)) [
  | inl same ↦ let e = ap f (==→eq x i same) in ground (arith, elem-retain f i xs, e)
  | inr other ↦ ground (arith, elem-retain f i xs)
]

content_of_if :
    (t : Bool) (o : Option Block)
    → content_of (if t then o else none) ≡ (if t then content_of o else none)
unfolding content_of
content_of_if true o = refl
content_of_if false o = refl

-- The file cut or extended to `count` blocks.
cut : Pages → ℕ → Pages
cut p count = record p {
  blocks = retain (λ index. ltb index count) p.blocks;
  dirty = Sorted.retain (λ index. ltb index count) p.dirty;
  page_count = count;
  size_changed = true;
}

block-cut :
    (p : Pages) (count i : ℕ) → block (cut p count) i ≡ (if ltb i count then block p i else none)
unfolding block cut
block-cut p count i =
    ap content_of (find-retain (λ index. ltb index count) i p.blocks)
    ∙ content_of_if (ltb i count) (find i p.blocks)

dirty-cut :
    (p : Pages) (count i : ℕ)
    → elem i (cut p count).dirty ≡ (if ltb i count then elem i p.dirty else false)
unfolding cut
dirty-cut p count i = elem-retain (λ index. ltb index count) i p.dirty

-- What `truncate` leaves of the file.
pub record Truncated (stored : Stored) (p : Pages) (size : ℕ) (q : Pages) : Type 0 where
  pub serves : Serves stored q
  pub page_size : q.page_size ≡ p.page_size
  -- The least number of blocks that hold `size` bytes.
  pub holds : size ≤ q.page_count * p.page_size
  pub least : q.page_count * p.page_size < size + p.page_size
  -- Below the new end nothing changes.
  pub contents : (i : ℕ) → i < q.page_count → content stored q i ≡ content stored p i
  pub still_dirty : (i : ℕ) → i < q.page_count → elem i q.dirty ≡ elem i p.dirty
  -- A cut file has no block past its end, so a commit sends none.
  pub none_past :
      q.page_count < p.page_count
      → (i : ℕ) → q.page_count ≤ i
      → (block q i ≡ none) × (elem i q.dirty ≡ false)

module _ (stored : Stored) (p : Pages) (s : Serves stored p) (beyond : NothingBeyond stored p) where
  cut_complete :
      (count : ℕ)
      → p.blocks_per_fetch ≡ none
      → p.cap ≡ none
      → (i : ℕ) → i < count
      → block (cut p count) i ≡ none
      → Blank (stored i) p.page_size
  cut_complete count f c i lt h = elim (Bool-cases (ltb i p.page_count)) [
    | inl inside ↦
        s.complete f c i (ltb→lt i p.page_count inside)
          (sym (rw (lt→ltb i count lt) at (block-cut p count i)) ∙ h)
    | inr outside ↦ beyond i (ltb→le i p.page_count outside)
  ]

  cut-Serves : (count : ℕ) → Serves stored (cut p count)
  cut-Serves count = record {
    positive = unfold cut in s.positive;
    is_map = unfold cut in retain-IsMap (λ index. ltb index count) p.blocks s.is_map;
    sized = λ i bytes h. unfold cut in ground (arith, block-cut p count i, s.sized i bytes);
    stored_sized = unfold cut in s.stored_sized;
    dirty_held = λ i h. ground (arith, block-cut p count i, dirty-cut p count i, s.dirty_held i);
    clean =
        λ i bytes d h. ground (arith, block-cut p count i, dirty-cut p count i, s.clean i bytes);
    fetches_some = unfold cut in s.fetches_some;
    complete = unfold cut in cut_complete count;
  }

  content-cut : (count i : ℕ) → i < count → content stored (cut p count) i ≡ content stored p i
  unfolding content
  content-cut count i lt = rw (block-cut p count i, lt→ltb i count lt) (unfold cut in refl)

  cut-Truncated :
      (size count : ℕ) → count ≡ div_ceil size p.page_size → Truncated stored p size (cut p count)
  cut-Truncated size count e =
      let least = div_ceil_least size p.page_size s.positive in
      record {
        serves = cut-Serves count;
        page_size = unfold cut in refl;
        holds = unfold cut in rw e least.0;
        least = unfold cut in rw e least.1;
        contents = unfold cut in content-cut count;
        still_dirty = λ i lt. dirty-cut p count i ∙ rw (lt→ltb i count (unfold cut in lt)) refl;
        none_past = λ _ i le. (
          block-cut p count i ∙ rw (le→ltb i count (unfold cut in le)) refl,
          dirty-cut p count i ∙ rw (le→ltb i count (unfold cut in le)) refl,
        );
      }

  -- `truncate` leaves the file with the least number of blocks that hold `size` bytes, keeps their
  -- content and whether they are to be committed, and drops every block past the new end. The store
  -- holds nothing but zeros past the old end.
  pub truncate-Truncated : (size : ℕ) → Truncated stored p size (truncate p size)
  unfolding truncate
  truncate-Truncated size = elim (Bool-cases (div_ceil size p.page_size == p.page_count)) [
    | inl same ↦
        let e : div_ceil size p.page_size ≡ p.page_count =
          ==→eq (div_ceil size p.page_size) p.page_count same in
        let least = div_ceil_least size p.page_size s.positive in
        rw same (record {
          serves = s;
          page_size = refl;
          holds = rw (← e) least.0;
          least = rw (← e) least.1;
          contents = λ i lt. refl;
          still_dirty = λ i lt. refl;
          none_past = λ lt i le. absurd (omega arith);
        })
    | inr other ↦ rw other (unfold cut in cut-Truncated size (div_ceil size p.page_size) refl)
  ]
