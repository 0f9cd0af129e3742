-- ===== src/Examples.antt =====
-- The theorems at concrete inputs, and runs of the operations: a file of two blocks of four bytes
-- over a worker that stores two blocks, and zeros past them.
pub mod Net
pub mod Bitmaps
pub mod Copies
pub mod Sessions
pub mod Healing
pub mod Takeovers
use sqlite_remote_vfs.Base.{
  sym, is_some, ◌==◌, Bool-cases, inl, inr, if_true, if_false, true_not_false, ◌∙◌, ℕ, map, All,
  zero, suc, u64, ◌+◌, ◌≤◌, ◌≡◌, refl, ap, Bool, true, false, Option, none, some, List, [], ◌∷◌,
  if◌then◌else◌, ltb, le→ltb, elem, arith, length, Result, ok, err,
}
use sqlite_remote_vfs.Base.Bytes.{Bytes}
use sqlite_remote_vfs.Base.Map.{find, keys, IsMap, remove_all, remove}
use sqlite_remote_vfs.Failure.{Broken, Refusal}
use sqlite_remote_vfs.Stats
use sqlite_remote_vfs.Pages.{Pages, block, content_of, make_room, truncate, committed, dirty_blocks}
use sqlite_remote_vfs.Pages.Load.{Ctx, Outcome, read, write, ensure_loaded}
use sqlite_remote_vfs.Pages.View.{Stored, choose, Serves, Moved}
use sqlite_remote_vfs.Pages.Source.{IsSource, Ensured, ensure_loaded_lem}
use sqlite_remote_vfs.Pages.Evict.{Evicted, make_room-Evicted}
use sqlite_remote_vfs.Pages.Room.{make_room-lru}
use sqlite_remote_vfs.Pages.Changes.{index, Committed, committed-Committed}
use sqlite_remote_vfs.Pages.Truncate.{Truncated, truncate-Truncated}
use sqlite_remote_vfs.Pages.Place.{NothingBeyond}
use sqlite_remote_vfs.Pages.Read.{ReadEnd, read-ends}
use sqlite_remote_vfs.Pages.Write.{WriteEnd, write-ends}
use sqlite_remote_vfs.Pages.RoundTrip.{read-write}
use sqlite_remote_vfs.LocalDb.{Bridge, Link, fill, fill_loop}
use sqlite_remote_vfs.LocalDb.Fill.{Run, ReadsStore, fill-IsSource, fill_loop-enough}
use sqlite_remote_vfs.LocalDb.Ops.{local_write, local_truncate, local_commit}
use sqlite_remote_vfs.LocalDb.Commit.{CommitEnd, local_commit-ends}
use sqlite_remote_vfs.Identity.{Algorithm, transcript_label}
use sqlite_remote_vfs.Identity.Transcript.{Login, ShortParts, transcript-inj}

abbrev kept_block : ℕ → Bytes
kept_block i = if ltb i 2 then i ∷ 7 ∷ 8 ∷ 9 ∷ [] else 0 ∷ 0 ∷ 0 ∷ 0 ∷ []

abbrev store : Stored
store i = some (kept_block i)

abbrev answer : ℕ → ℕ → List Bytes
answer zero i = []
answer (suc n) i = kept_block i ∷ answer n (i + 1)

abbrev worker : Bridge (Unit {0})
worker = record {
  open_database =
      λ s name size create takeover. (ok (record { page_size = 4; page_count = 2; epoch = 1 }), s);
  read_blocks = λ s first n. (ok (answer n first), s);
  write_blocks = λ s epoch count blocks. (ok tt, s);
  close_database = λ s. s;
  now = λ s. 0;
}

abbrev two_blocks : Pages
two_blocks = record {
  page_size = 4;
  page_count = 2;
  stable_page_count = 2;
  blocks = [];
  dirty = [];
  size_changed = false;
  blocks_per_fetch = some 1;
  cap = some 1;
  clock = 0;
}

-- Three blocks in memory, under a limit of two.
abbrev crowded : Pages
crowded = record two_blocks {
  blocks =
      (0, record { content = kept_block 0; used = 3 })
      ∷ (1, record { content = kept_block 1; used = 1 })
      ∷ (2, record { content = 1 ∷ 1 ∷ 1 ∷ 1 ∷ []; used = 2 })
      ∷ [];
  dirty = 2 ∷ [];
  page_count = 3;
  cap = some 2;
}

abbrev start : Ctx (Link (Unit {0}))
start = record {
  pages = two_blocks;
  source = record { bridge = tt; epoch = 1; broken = none };
  stats = Stats.zeros;
}

answer-Run : (n i : ℕ) → Run store i (answer n i) × (length (answer n i) ≡ n)
answer-Run zero i = (tt, refl)
answer-Run (suc n) i = let (run, len) = answer-Run n (i + 1) in ((refl, run), ap suc len)

ok_same : {A : Type 0} {a b : A} → Path (Result Refusal A) (ok a) (ok b) → a ≡ b
ok_same e = cc

worker-ReadsStore : ReadsStore store worker
worker-ReadsStore = record {
  blocks = λ s first count blocks e. rw (← ok_same e) (answer-Run count first);
}

some_same : {a b : Bytes} → Path (Option Bytes) (some a) (some b) → a ≡ b
some_same e = cc

length-kept : (i : ℕ) → length (kept_block i) ≡ 4
length-kept i = ground arith

two_blocks-Serves : Serves store two_blocks
unfolding block content_of find
two_blocks-Serves = record {
  positive = omega arith;
  is_map = tt;
  sized = λ i bytes e. cc;
  stored_sized = λ i bytes e. rw (← some_same e) (length-kept i);
  dirty_held = λ i e. cc;
  clean = λ i bytes d e. cc;
  fetches_some = λ e. cc;
  complete = λ e. cc;
}

-- Block 0 in memory, changed, and block 1 in the store.
abbrev one_changed : Pages
one_changed = record two_blocks {
  blocks = (0, record { content = 5 ∷ 6 ∷ 7 ∷ 8 ∷ []; used = 0 }) ∷ [];
  dirty = 0 ∷ [];
}

abbrev changed_block : Option Bytes
changed_block = some (5 ∷ 6 ∷ 7 ∷ 8 ∷ [])

length-changed : (bytes : Bytes) → changed_block ≡ some bytes → length bytes ≡ 4
length-changed bytes e = ap length (sym (some_same e))

one_block : (i : ℕ) → block one_changed i ≡ (if 0 == i then changed_block else none)
unfolding block find content_of
one_block i = elim (Bool-cases (0 == i)) [ inl same ↦ rw same refl | inr other ↦ rw other refl ]

one_held : (i : ℕ) → elem i (0 ∷ []) ≡ true → is_some (block one_changed i) ≡ true
one_held i e = elim (Bool-cases (0 == i)) [
  | inl same ↦ ap is_some (one_block i ∙ if_true (0 == i) _ _ same)
  | inr other ↦ absurd (true_not_false (sym e ∙ if_false (0 == i) true false other))
]

one_sized : (i : ℕ) (bytes : Bytes) → block one_changed i ≡ some bytes → length bytes ≡ 4
one_sized i bytes e = elim (Bool-cases (0 == i)) [
  | inl same ↦ length-changed bytes (sym (one_block i ∙ if_true (0 == i) _ _ same) ∙ e)
  | inr other ↦ cc (one_block i, if_false {A = Option Bytes} (0 == i) changed_block none other, e)
]

one_clean :
    (i : ℕ) (bytes : Bytes)
    → elem i (0 ∷ []) ≡ false
    → block one_changed i ≡ some bytes
    → store i ≡ some bytes
one_clean i bytes d e = elim (Bool-cases (0 == i)) [
  | inl same ↦ absurd (true_not_false (sym (if_true (0 == i) true false same) ∙ d))
  | inr other ↦ cc (one_block i, if_false {A = Option Bytes} (0 == i) changed_block none other, e)
]

one_changed-Serves : Serves store one_changed
one_changed-Serves = record {
  positive = omega arith;
  is_map = (refl, tt);
  sized = one_sized;
  stored_sized = λ i bytes e. rw (← some_same e) (length-kept i);
  dirty_held = one_held;
  clean = one_clean;
  fetches_some = λ e. cc;
  complete = λ e. cc;
}

abbrev changed_link : Ctx (Link (Unit {0}))
changed_link = record start { pages = one_changed }

two_blocks-NothingBeyond : NothingBeyond store two_blocks
unfolding choose
two_blocks-NothingBeyond i le = rw (le→ltb i 2 le) refl

-- The source of the examples
source : IsSource store (fill worker)
source = fill-IsSource worker-ReadsStore

crowded-IsMap : IsMap crowded.blocks
crowded-IsMap = (refl, (refl, (refl, tt)))

crowded_0 : find 0 crowded.blocks ≡ some (record { content = kept_block 0; used = 3 })
unfolding find
crowded_0 = refl

crowded_1 : find 1 crowded.blocks ≡ some (record { content = kept_block 1; used = 1 })
unfolding find
crowded_1 = refl

evicted_1 : elem 1 (keys (make_room crowded 0 Stats.zeros).0.blocks) ≡ false
unfolding make_room remove_all remove u64
evicted_1 = refl

left_0 : elem 0 (keys (make_room crowded 0 Stats.zeros).0.blocks) ≡ true
unfolding make_room remove_all remove u64
left_0 = refl

read-write_example :
    (w : Result Broken (Unit {0})) × (c' : Ctx (Link (Unit {0}))) × (r : Result Broken Bool)
    × (buf : Bytes) × (c'' : Ctx (Link (Unit {0}))) × (write (fill worker) start (5 ∷ 6 ∷ []) 3
        ≡ some (w, c'))
    × (read (fill worker) c' (0 ∷ 0 ∷ []) 3 ≡ some (r, buf, c''))
    × ((full : Bool) → w ≡ ok tt → r ≡ ok full → (full ≡ true) × (buf ≡ 5 ∷ 6 ∷ []))
read-write_example =
    read-write source start (5 ∷ 6 ∷ []) (0 ∷ 0 ∷ []) 3 two_blocks-Serves two_blocks-NothingBeyond
      (omega arith) refl

write-ends_example :
    (r : Result Broken (Unit {0})) × (c' : Ctx (Link (Unit {0}))) × (write
        (fill worker)
        start
        (5 ∷ 6 ∷ [])
        3
      ≡ some (r, c'))
    × WriteEnd source two_blocks 3 (5 ∷ 6 ∷ []) r c'
write-ends_example =
    write-ends source start (5 ∷ 6 ∷ []) 3 two_blocks-Serves two_blocks-NothingBeyond (omega arith)

read-ends_example :
    (r : Result Broken Bool) × (buf : Bytes) × (c' : Ctx (Link (Unit {0}))) × (read
        (fill worker)
        start
        (0 ∷ 0 ∷ 0 ∷ 0 ∷ 0 ∷ 0 ∷ [])
        3
      ≡ some (r, buf, c'))
    × ReadEnd source two_blocks 3 (0 ∷ 0 ∷ 0 ∷ 0 ∷ 0 ∷ 0 ∷ []) r buf c'
read-ends_example =
    read-ends source two_blocks 3 (0 ∷ 0 ∷ 0 ∷ 0 ∷ 0 ∷ 0 ∷ []) start two_blocks-Serves refl
      (omega arith)

fill-IsSource_example : IsSource store (fill worker)
fill-IsSource_example = fill-IsSource worker-ReadsStore

ensure_loaded_lem_example :
    Ensured source start 1
      (ensure_loaded (fill worker) start 1).0
      (ensure_loaded (fill worker) start 1).1
ensure_loaded_lem_example = ensure_loaded_lem source start 1 two_blocks-Serves (omega arith)

make_room-lru_example : 1 ≤ 3
make_room-lru_example =
    make_room-lru crowded 2 0 1 0 Stats.zeros (record { content = kept_block 1; used = 1 })
      (record { content = kept_block 0; used = 3 }) crowded-IsMap refl crowded_1 crowded_0 refl
      evicted_1 left_0

make_room-Evicted_example :
    Evicted two_blocks (make_room two_blocks 1 Stats.zeros).0
    × Moved store two_blocks (make_room two_blocks 1 Stats.zeros).0
make_room-Evicted_example = make_room-Evicted store two_blocks 1 Stats.zeros two_blocks-Serves

committed-Committed_example :
    Committed store one_changed (committed one_changed).0 (committed one_changed).1
committed-Committed_example = committed-Committed store one_changed one_changed-Serves

truncate-Truncated_example : Truncated store two_blocks 3 (truncate two_blocks 3)
truncate-Truncated_example =
    truncate-Truncated store two_blocks two_blocks-Serves two_blocks-NothingBeyond 3

fill_loop-enough_example : fill_loop worker 9 1 start 0 2 ≡ fill_loop worker 2 1 start 0 2
fill_loop-enough_example =
    fill_loop-enough worker-ReadsStore 9 2 1 start 0 2 (omega arith) (omega arith) (omega arith)

local_commit-ends_example :
    (o : Outcome (Link (Unit {0})) (Unit {0})) × (local_commit worker changed_link ≡ some o)
    × CommitEnd worker store changed_link o
local_commit-ends_example = local_commit-ends worker store changed_link one_changed-Serves

abbrev login : Login
login = record {
  label = transcript_label;
  server_id = 119 ∷ [];
  nonce = 98 ∷ 99 ∷ [];
  instance_id = 105 ∷ [];
  algorithm = Algorithm.ed25519;
  public_key = 107 ∷ [];
}

login-ShortParts : ShortParts login
login-ShortParts = (omega arith, omega arith, omega arith, omega arith, omega arith)

transcript-inj_example :
    (login.label ≡ login.label)
    × (login.server_id ≡ login.server_id)
    × (login.nonce ≡ login.nonce)
    × (login.instance_id ≡ login.instance_id)
    × (login.algorithm ≡ login.algorithm)
    × (login.public_key ≡ login.public_key)
transcript-inj_example = transcript-inj login login login-ShortParts login-ShortParts refl
