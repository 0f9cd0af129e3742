-- ===== src/Pages/Source.antt =====
-- What a `Source` promises, and what `ensure_loaded` makes of it.
use sqlite_remote_vfs.Base.{
  ℕ, zero, suc, ◌+◌, ◌-◌, ◌≤◌, ◌<◌, min, ◌≡◌, refl, sym, ◌∙◌, ap, ◌⊎◌, inl, inr, ◌≢◌, true, false,
  not, ◌&&◌, Option, none, some, arith, elem, Bool-cases, ◌==◌, is_some, ==→eq, ==_ne, Result, ok,
  u64,
}
use sqlite_remote_vfs.Base.Map.{find, IsMap, find-put, put-IsMap}
use sqlite_remote_vfs.Failure.{Broken}
use sqlite_remote_vfs.Pages.{
  Pages, Block, block, content_of, touch, stamp, make_room, refill_blocks,
}
use sqlite_remote_vfs.Pages.Load.{
  Ctx, Fill, missing, run_length, per_fetch, preloaded, room, ensure_loaded, map_pages,
}
use sqlite_remote_vfs.Pages.View.{
  Stored, Blank, Blank-of_none, Serves, Moved, Keeps, SameSettings, SameSettings-blocks,
  Keeps-Moved, Keeps-refl, Keeps-trans,
}
use sqlite_remote_vfs.Pages.Evict.{
  make_room-Moved, make_room-cases, block-without, without, without-dirty,
}

-- `q` has the blocks of `p`, and some stored ones that `p` did not have.
pub record Loaded (stored : Stored) (p q : Pages) : Type 0 where
  pub settings : SameSettings p q
  pub is_map : IsMap q.blocks
  pub blocks : (i : ℕ) → (block q i ≡ block p i) ⊎ ((block p i ≡ none) × (block q i ≡ stored i))

-- The contract of the trait `Source`, for one that holds `stored`: called for blocks that are not in
-- memory, `fill` stores blocks of the source and nothing else, also when it fails; and where it
-- succeeds the first block is in memory, if the source has it.
pub record IsSource {W : Type 0} (stored : Stored) (fill : Fill W) : Type 0 where
  pub loads :
      (c : Ctx W) (first count : ℕ)
      → Serves stored c.pages
      → ((i : ℕ) → first ≤ i → i < first + count → missing c.pages i ≡ true)
      → Loaded stored c.pages (fill c first count).1.pages
  pub first_block :
      (c : Ctx W) (first count : ℕ)
      → Serves stored c.pages
      → ((i : ℕ) → first ≤ i → i < first + count → missing c.pages i ≡ true)
      → 0 < count
      → (fill c first count).0 ≡ ok tt
      → block (fill c first count).1.pages first ≡ stored first

pub Loaded-Moved : {stored : Stored} {p q : Pages} → Loaded stored p q → Moved stored p q
Loaded-Moved l = record {
  settings = l.settings;
  is_map = l.is_map;
  blocks = λ i. elim (l.blocks i) [ inl same ↦ inl same | inr new ↦ inr (inl new) ];
}

is_some-content : (o : Option Block) → is_some (content_of o) ≡ is_some o
unfolding content_of
is_some-content none = refl
is_some-content (some b) = refl

pub missing_lem :
    (p : Pages) (i : ℕ) → missing p i ≡ (not (is_some (block p i)) && not (elem i p.dirty))
unfolding missing block
missing_lem p i = rw (is_some-content (find i p.blocks))

-- A dirty block is in memory, so only the blocks in memory matter.
pub missing_iff :
    {stored : Stored} {p : Pages} (i : ℕ)
    → Serves stored p
    → missing p i ≡ not (is_some (block p i))
missing_iff {stored} {p} i s = ground (arith, missing_lem p i, s.dirty_held i)

pub none_of_missing : (p : Pages) (i : ℕ) → missing p i ≡ true → block p i ≡ none
none_of_missing p i h = ground (arith, missing_lem p i)

block_same_of_stamp :
    (o : Option Block) (index now i : ℕ) (m : _)
    → find index m ≡ o
    → content_of (find i (stamp index now o m)) ≡ content_of (find i m)
unfolding stamp content_of
block_same_of_stamp none index now i m e = refl
block_same_of_stamp (some b) index now i m e = elim (Bool-cases (index == i)) [
  | inl same ↦ rw (find-put, same) (rw (← ==→eq index i same, e) refl)
  | inr other ↦ rw (find-put, other) refl
]

stamp-IsMap : (o : Option Block) (index now : ℕ) (m : _) → IsMap m → IsMap (stamp index now o m)
unfolding stamp
stamp-IsMap none index now m h = h
stamp-IsMap (some b) index now m h = put-IsMap index (record b { used = now }) m h

block-touch : (p : Pages) (index i : ℕ) → block (touch p index) i ≡ block p i
unfolding touch block
block-touch p index i =
    block_same_of_stamp (find index p.blocks) index (u64 (p.clock + 1)) i p.blocks refl

touch-Moved :
    (stored : Stored) (p : Pages) (index : ℕ) → Serves stored p → Moved stored p (touch p index)
unfolding touch
touch-Moved stored p index s = record {
  settings = SameSettings-blocks p (touch p index).blocks (touch p index).clock;
  is_map = stamp-IsMap (find index p.blocks) index (u64 (p.clock + 1)) p.blocks s.is_map;
  blocks = λ i. inl (block-touch p index i);
}

pub run_length-missing :
    (p : Pages) (n index i : ℕ) → index ≤ i → i < index + run_length p n index → missing p i ≡ true
unfolding run_length
run_length-missing p zero index i h lt = absurd (omega arith)
run_length-missing p (suc n) index i h lt = elim (Bool-cases (missing p index)) [
  | inl here ↦ elim (Bool-cases (index == i)) [
    | inl same ↦ ap (missing p) (sym (==→eq index i same)) ∙ here
    | inr other ↦ run_length-missing p n (index + 1) i (ground arith) (ground arith)
  ]
  | inr stop ↦ absurd (ground arith)
]

run_length-pos :
    (p : Pages) (n index : ℕ) → 0 < n → missing p index ≡ true → 0 < run_length p n index
unfolding run_length
run_length-pos p zero index h m = absurd (omega arith)
run_length-pos p (suc n) index h m = rw m (omega arith)

-- Evicting makes no block appear.
make_room-missing :
    (p : Pages) (incoming i : ℕ) (stats : _)
    → missing p i ≡ true
    → missing (make_room p incoming stats).0 i ≡ true
make_room-missing p incoming i stats m = elim (make_room-cases p incoming stats) [
  | inl same ↦ rw same m
  | inr (count, e, limited) ↦ rw e (
      ground (
        arith,
        missing_lem p i,
        missing_lem (without p count) i,
        block-without p count i,
        without-dirty p count,
      ))
]

per_fetch-pos : (p : Pages) → p.blocks_per_fetch ≢ some 0 → 0 < per_fetch p
unfolding per_fetch
per_fetch-pos p h = go p.blocks_per_fetch h
  where
    go : (o : Option ℕ) → o ≢ some 0 → 0 < elim o [ none ↦ refill_blocks | some n ↦ n ]
    go none h = omega arith
    go (some zero) h = absurd (h refl)
    go (some (suc n)) h = omega arith

preloaded-fetch : (p : Pages) → preloaded p ≡ true → p.blocks_per_fetch ≡ none
unfolding preloaded
preloaded-fetch p h = ground arith

preloaded-cap : (p : Pages) → preloaded p ≡ true → p.cap ≡ none
unfolding preloaded
preloaded-cap p h = ground arith

module _ {W : Type 0} {stored : Stored} {fill : Fill W} (law : IsSource stored fill) where
  -- After a successful `ensure_loaded` a block that is not in memory is not stored either.
  pub record Ensured (c : Ctx W) (index : ℕ) (r : Result Broken (Unit {0})) (c' : Ctx W)
      : Type 0 where
    pub keeps : Keeps stored c.pages c'.pages
    pub ready : r ≡ ok tt → block c'.pages index ≡ none → Blank (stored index) c.pages.page_size

  Ensured-touch :
      (c : Ctx W) (index : ℕ)
      → Serves stored c.pages
      → missing c.pages index ≡ false
      → Ensured c index (ok tt) (map_pages c (touch c.pages index))
  unfolding map_pages
  Ensured-touch c index s m = record {
    keeps = Keeps-Moved stored c.pages (touch c.pages index) s (touch-Moved stored c.pages index s);
    ready = λ _ h. absurd (
        cc (
          missing_iff index s,
          m,
          ap (λ o. not (is_some o)) (sym (block-touch c.pages index index) ∙ h),
        ));
  }

  Ensured-room :
      (c : Ctx W) (index n : ℕ)
      → Serves stored c.pages
      → let count = run_length c.pages n index in
        0 < count
        → Ensured c index (fill (room c count) index count).0 (fill (room c count) index count).1
  unfolding room
  Ensured-room c index n s positive =
      let count = run_length c.pages n index in
      let moved = make_room-Moved stored c.pages count c.stats s in
      let roomy = Keeps-Moved stored c.pages (room c count).pages s moved in
      let gaps : (i : ℕ) → index ≤ i → i < index + count → missing (room c count).pages i ≡ true =
        λ i low high.
          make_room-missing c.pages count i c.stats
            (run_length-missing c.pages n index i low high) in
      let loaded = law.loads (room c count) index count roomy.serves gaps in
      record {
        keeps = Keeps-trans stored roomy (
            Keeps-Moved stored (room c count).pages (fill (room c count) index count).1.pages
              roomy.serves (Loaded-Moved loaded));
        ready = λ r h.
            Blank-of_none c.pages.page_size
              (sym (law.first_block (room c count) index count roomy.serves gaps positive r) ∙ h);
      }

  -- Whatever `ensure_loaded` loads and evicts, the file stays the same, and the invariant holds; and
  -- when it succeeds and the block asked for, one of the file, is still not in memory, then this
  -- block reads as zeros.
  pub ensure_loaded_lem :
      (c : Ctx W) (index : ℕ)
      → Serves stored c.pages
      → index < c.pages.page_count
      → Ensured c index (ensure_loaded fill c index).0 (ensure_loaded fill c index).1
  unfolding ensure_loaded
  ensure_loaded_lem c index s inside = elim (Bool-cases (missing c.pages index)) [
    | inr present ↦ rw present (Ensured-touch c index s present)
    | inl gone ↦ elim (Bool-cases (preloaded c.pages)) [
      | inl all ↦
          rw (gone, all)
            (record {
              keeps = Keeps-refl stored c.pages s;
              ready = λ _ h.
                  s.complete (preloaded-fetch c.pages all) (preloaded-cap c.pages all) index inside
                    h;
            })
      | inr part ↦
          let n = min (per_fetch c.pages) (c.pages.page_count - index) in
          let positive : 0 < run_length c.pages n index =
            run_length-pos c.pages n index (omega (arith, per_fetch-pos c.pages s.fetches_some))
              gone in
          rw (gone, part, ==_ne (run_length c.pages n index) 0 (omega arith))
            (Ensured-room c index n s positive)
    ]
  ]
