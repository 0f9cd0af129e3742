-- ===== src/Pages/Changes.antt =====
-- The changes since the last commit: what there is to send, marking it as committed, and truncating.
use sqlite_remote_vfs.Base.{
  ℕ, ◌≡◌, refl, ap, inl, inr, true, Option, none, some, List, [], ◌∷◌, map, arith, length, elem,
  All, Bool-cases, Option-cases, if◌then◌else◌, is_some,
}
use sqlite_remote_vfs.Base.Bytes.{Bytes}
use sqlite_remote_vfs.Pages.{Pages, block, collect, dirty_blocks, committed, is_clean}
use sqlite_remote_vfs.Pages.View.{Stored, Blank-of_none, content, choose, Serves, SameSettings}

abbrev pub index : ℕ × Bytes → ℕ
index (i, bytes) = i

collect-total :
    (p : Pages) (xs : List ℕ)
    → ((i : ℕ) → elem i xs ≡ true → is_some (block p i) ≡ true)
    → (bs : List (ℕ × Bytes)) × (collect p xs ≡ some bs)
      × (map index bs ≡ xs)
      × All (λ e. block p e.0 ≡ some e.1) bs
unfolding collect
collect-total p [] h = ([], refl, refl, tt)
collect-total p (x ∷ xs) h =
    let (bs, e, ids, held) = collect-total p xs (λ i lt. h i (ground arith)) in
    elim (Option-cases (block p x)) [
      | inl gone ↦ cc (ap is_some gone, h x (ground arith))
      | inr (bytes, here) ↦
          ((x, bytes) ∷ bs, rw (here, collect) (rw (e, collect) refl), ap (◌∷◌ x) ids, (here, held))
    ]

-- `dirty()` does not panic: it returns each dirty index, in order, with the block in memory.
pub dirty_blocks-total :
    (stored : Stored) (p : Pages)
    → Serves stored p
    → (bs : List (ℕ × Bytes)) × (dirty_blocks p ≡ some bs)
      × (map index bs ≡ p.dirty)
      × All (λ e. block p e.0 ≡ some e.1) bs
unfolding dirty_blocks
dirty_blocks-total stored p s = collect-total p p.dirty s.dirty_held

pub is_clean_same : {p q : Pages} → SameSettings p q → is_clean q ≡ is_clean p
unfolding is_clean
is_clean_same k = rw (k.dirty, k.size_changed) refl

-- What a store holds after it has applied the dirty blocks of `p`.
abbrev pub applied : Stored → Pages → Stored
applied stored p i = if elem i p.dirty then block p i else stored i

pub record Committed (stored : Stored) (p : Pages) (written : List ℕ) (q : Pages) : Type 0 where
  pub serves : Serves (applied stored p) q
  pub clean : is_clean q ≡ true
  pub written_lem : written ≡ p.dirty
  pub contents : (i : ℕ) → content (applied stored p) q i ≡ content stored p i
  pub stable : q.stable_page_count ≡ p.page_count
  pub page_count : q.page_count ≡ p.page_count

applied-sized :
    {stored : Stored} {p : Pages}
    → Serves stored p
    → (i : ℕ) (bytes : Bytes) → applied stored p i ≡ some bytes
    → length bytes ≡ p.page_size
applied-sized {stored} {p} s i bytes h = elim (Bool-cases (elem i p.dirty)) [
  | inl d ↦ s.sized i bytes (rw d at h)
  | inr c ↦ s.stored_sized i bytes (rw c at h)
]

applied-clean :
    {stored : Stored} {p : Pages}
    → Serves stored p
    → (i : ℕ) (bytes : Bytes) → block p i ≡ some bytes
    → applied stored p i ≡ some bytes
applied-clean {stored} {p} s i bytes h = elim (Bool-cases (elem i p.dirty)) [
  | inl d ↦ rw d h
  | inr c ↦ rw c (s.clean i bytes c h)
]

choose_held : (o s : Option Bytes) (size : ℕ) → is_some o ≡ true → choose o o size ≡ choose o s size
unfolding choose
choose_held none s size h = cc
choose_held (some bytes) s size h = refl

content_committed :
    {stored : Stored} {p : Pages}
    → Serves stored p
    → (i : ℕ) → choose (block p i) (applied stored p i) p.page_size ≡ content stored p i
unfolding content
content_committed {stored} {p} s i = elim (Bool-cases (elem i p.dirty)) [
  | inl d ↦ rw d (choose_held (block p i) (stored i) p.page_size (s.dirty_held i d))
  | inr c ↦ rw c refl
]

-- `committed()` returns the dirty indexes and leaves nothing to commit. Over a store that has
-- applied the dirty blocks it keeps the file and the invariant, so those blocks may be evicted.
pub committed-Committed :
    (stored : Stored) (p : Pages)
    → Serves stored p
    → Committed stored p (committed p).0 (committed p).1
unfolding committed is_clean content block
committed-Committed stored p s = record {
  serves = record {
    positive = s.positive;
    is_map = s.is_map;
    sized = s.sized;
    stored_sized = applied-sized s;
    dirty_held = λ i h. cc;
    clean = λ i bytes _ h. applied-clean s i bytes h;
    fetches_some = s.fetches_some;
    complete = λ f c i lt h. elim (Bool-cases (elem i p.dirty)) [
      | inl d ↦ rw d (Blank-of_none p.page_size h)
      | inr e ↦ rw e (s.complete f c i lt h)
    ];
  };
  clean = refl;
  written_lem = refl;
  contents = unfold content in content_committed s;
  stable = refl;
  page_count = refl;
}
