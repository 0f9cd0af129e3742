-- ===== src/Pages/Keep.antt =====
-- Storing a loaded block: `keep` adds it, unless the block is in memory already.
use sqlite_remote_vfs.Base.{
  ℕ, ◌+◌, ◌≡◌, refl, sym, ◌∙◌, ap, ◌⊎◌, inl, inr, Option, none, some, List, ◌==◌, Bool-cases,
  Option-cases, ==→eq, ==_refl, u64,
}
use sqlite_remote_vfs.Base.Bytes.{Bytes}
use sqlite_remote_vfs.Base.Map.{find, IsMap, find-put, put-IsMap}
use sqlite_remote_vfs.Pages.{Pages, Block, block, content_of, keep, or_insert}
use sqlite_remote_vfs.Pages.View.{Stored, SameSettings-blocks, SameSettings-trans}
use sqlite_remote_vfs.Pages.Source.{Loaded}

pub Loaded-refl : (stored : Stored) (p : Pages) → IsMap p.blocks → Loaded stored p p
Loaded-refl stored p m = record {
  settings = SameSettings-blocks p p.blocks p.clock;
  is_map = m;
  blocks = λ i. inl refl;
}

pub Loaded-trans :
    {stored : Stored} {p q r : Pages} → Loaded stored p q → Loaded stored q r → Loaded stored p r
Loaded-trans a b = record {
  settings = SameSettings-trans a.settings b.settings;
  is_map = b.is_map;
  blocks = λ i. elim (b.blocks i) [
    | inl same ↦ elim (a.blocks i) [
      | inl same' ↦ inl (same ∙ same')
      | inr (gone, new) ↦ inr (gone, same ∙ new)
    ]
    | inr (gone, new) ↦ elim (a.blocks i) [
      | inl same' ↦ inr (sym same' ∙ gone, new)
      | inr (gone', _) ↦ inr (gone', new)
    ]
  ];
}

or_insert-IsMap :
    (i : ℕ) (b : Block) (o : Option Block) (m : List (ℕ × Block))
    → IsMap m
    → IsMap (or_insert i b o m)
unfolding or_insert
or_insert-IsMap i b none m h = put-IsMap i b m h
or_insert-IsMap i b (some old) m h = h

-- A new block is the inserted one.
find-or_insert :
    (i : ℕ) (b : Block) (o : Option Block) (m : List (ℕ × Block)) (j : ℕ)
    → find i m ≡ o
    → (content_of (find j (or_insert i b o m)) ≡ content_of (find j m))
      ⊎ ((i ≡ j) × (find i m ≡ none) × (content_of (find j (or_insert i b o m)) ≡ some b.content))
unfolding or_insert content_of
find-or_insert i b (some old) m j e = inl refl
find-or_insert i b none m j e = elim (Bool-cases (i == j)) [
  | inl same ↦ inr (==→eq i j same, e, rw (find-put, same) refl)
  | inr other ↦ inl (rw (find-put, other) refl)
]

pub keep-Loaded :
    (stored : Stored) (p : Pages) (i : ℕ) (bytes : Bytes)
    → IsMap p.blocks
    → stored i ≡ some bytes
    → Loaded stored p (keep p i bytes)
unfolding keep block content_of
keep-Loaded stored p i bytes m e =
    let b : Block = record { content = bytes; used = u64 (p.clock + 1) } in
    record {
      settings = SameSettings-blocks p (keep p i bytes).blocks (keep p i bytes).clock;
      is_map = or_insert-IsMap i b (find i p.blocks) p.blocks m;
      blocks = λ j. elim (find-or_insert i b (find i p.blocks) p.blocks j refl) [
        | inl same ↦ inl same
        | inr (here, gone, new) ↦ inr (
          ap (λ k. content_of (find k p.blocks)) (sym here) ∙ ap content_of gone,
          new ∙ sym e ∙ ap stored here,
        )
      ];
    }

-- A block that was not in memory is there afterwards.
pub block-keep :
    (p : Pages) (i : ℕ) (bytes : Bytes) → block p i ≡ none → block (keep p i bytes) i ≡ some bytes
unfolding keep block content_of
block-keep p i bytes gone = elim (Option-cases (find i p.blocks)) [
  | inl e ↦ rw (e, or_insert) (rw (find-put, ==_refl) refl)
  | inr (b, e) ↦ cc (gone, ap content_of e)
]

-- What is stored in memory stays there.
pub still_stored :
    {stored : Stored} {p q : Pages} (i : ℕ)
    → Loaded stored p q
    → block p i ≡ stored i
    → block q i ≡ stored i
still_stored i l e = elim (l.blocks i) [ inl same ↦ same ∙ e | inr (_, new) ↦ new ]
