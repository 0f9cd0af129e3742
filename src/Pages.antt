-- ===== src/Pages.antt =====
-- The blocks of the main database file in memory (crates/sqlite-remote-vfs/src/pages.rs). A
-- `HashMap` is an association list, the `BTreeSet` of dirty blocks an ascending list, a `usize` a
-- 64-bit number. Sums and products that the source takes in `u64` wrap around.
pub mod Load
pub mod View
pub mod Evict
pub mod Ages
pub mod Room
pub mod Changes
pub mod Source
pub mod Keep
pub mod Position
pub mod Chunk
pub mod Read
pub mod Place
pub mod Truncate
pub mod Written
pub mod Write
pub mod RoundTrip
use sqlite_remote_vfs.Base.{
  ℕ, zero, suc, ◌+◌, ◌-◌, ◌*◌, ◌/◌, ◌%◌, ◌^◌, ◌≤◌, ◌<◌, min, max, ◌≡◌, refl, Bool, true, false, not,
  ◌&&◌, ◌||◌, Option, none, some, List, [], ◌∷◌, map, if◌then◌else◌, ltb, leb, ◌==◌, is_some, u64,
  length, take, elem, replicate, get_or,
}
use sqlite_remote_vfs.Base.Bytes.{Bytes}
use sqlite_remote_vfs.Base.Map.{find, put, remove_all, retain, keys}
use sqlite_remote_vfs.Base.Sorted
use sqlite_remote_vfs.Stats.{Stats}

abbrev pub refill_blocks : ℕ
refill_blocks = 64

abbrev pub min_page_size : ℕ
min_page_size = 512

abbrev pub max_page_size : ℕ
max_page_size = 65536

abbrev pub max_page_count : ℕ
max_page_count = 4294967294

-- `is_power_of_two` for a number below 2 ^ 32: halve it until it is odd.
unfoldable pub is_power_of_two_fuel : ℕ → ℕ → Bool
is_power_of_two_fuel zero n = false
is_power_of_two_fuel (suc fuel) n =
    let rest = is_power_of_two_fuel fuel (n / 2) in
    if n == 1 then true else if n % 2 == 0 then rest else false

unfoldable pub is_power_of_two : ℕ → Bool
unfolding is_power_of_two_fuel
is_power_of_two = is_power_of_two_fuel 32

unfoldable pub valid_page_size : ℕ → Bool
unfolding is_power_of_two
valid_page_size size = (leb min_page_size size && leb size max_page_size) && is_power_of_two size

pub record Block : Type 0 where
  pub content : Bytes
  pub used : ℕ

pub record Pages : Type 0 where
  pub page_size : ℕ
  pub page_count : ℕ
  pub stable_page_count : ℕ
  pub blocks : List (ℕ × Block)
  pub dirty : List ℕ
  pub size_changed : Bool
  pub blocks_per_fetch : Option ℕ
  pub cap : Option ℕ
  pub clock : ℕ

-- `Pages::new`
unfoldable pub init : ℕ → ℕ → Option ℕ → Option ℕ → Pages
init page_size page_count blocks_per_fetch cap = record {
  page_size = page_size;
  page_count = page_count;
  stable_page_count = page_count;
  blocks = [];
  dirty = [];
  size_changed = false;
  blocks_per_fetch = blocks_per_fetch;
  cap = cap;
  clock = 0;
}

unfoldable pub emptied : Pages → ℕ → Pages
unfolding init
emptied p page_count = init p.page_size page_count p.blocks_per_fetch p.cap

unfoldable pub on_demand : Pages → Bool
on_demand p = is_some p.blocks_per_fetch

unfoldable pub file_size : Pages → ℕ
file_size p = u64 (p.page_count * p.page_size)

-- Number of blocks in memory.
unfoldable pub held : Pages → ℕ
held p = length p.blocks

unfoldable pub content_of : Option Block → Option Bytes
content_of none = none
content_of (some b) = some b.content

unfoldable pub block : Pages → ℕ → Option Bytes
unfolding content_of
block p index = content_of (find index p.blocks)

unfoldable pub indexes : Pages → List ℕ
indexes p = keys p.blocks

empty {ℓ} : {A : Type ℓ} → List A → Bool
empty [] = true
empty (x ∷ xs) = false

unfoldable pub is_clean : Pages → Bool
unfolding empty
is_clean p = empty p.dirty && not p.size_changed

-- The blocks behind a list of indexes. `none`: one of them is not in memory, where indexing the
-- map panics.
collect : Pages → List ℕ → Option (List (ℕ × Bytes))
collect p [] = some []
collect p (index ∷ rest) = elim (block p index) [
  | none ↦ none
  | some bytes ↦ elim (collect p rest) [ none ↦ none | some more ↦ some ((index, bytes) ∷ more) ]
]

-- `dirty()`
unfoldable pub dirty_blocks : Pages → Option (List (ℕ × Bytes))
unfolding collect
dirty_blocks p = collect p p.dirty

-- The indexes written, and the pages with nothing left to commit.
unfoldable pub committed : Pages → List ℕ × Pages
committed p =
    (p.dirty, record p { dirty = []; size_changed = false; stable_page_count = p.page_count })

-- The new value of the clock, and the pages.
unfoldable pub tick : Pages → ℕ × Pages
tick p = let now = u64 (p.clock + 1) in (now, record p { clock = now })

stamp : ℕ → ℕ → Option Block → List (ℕ × Block) → List (ℕ × Block)
stamp index now none blocks = blocks
stamp index now (some b) blocks = put index (record b { used = now }) blocks

unfoldable pub touch : Pages → ℕ → Pages
unfolding tick stamp
touch p index =
    let (used, p') = tick p in
    record p' { blocks = stamp index used (find index p'.blocks) p'.blocks }

-- `entry(index).or_insert(block)`
or_insert : ℕ → Block → Option Block → List (ℕ × Block) → List (ℕ × Block)
or_insert index b none blocks = put index b blocks
or_insert index b (some old) blocks = blocks

unfoldable pub keep : Pages → ℕ → Bytes → Pages
unfolding tick or_insert
keep p index bytes =
    let (used, p') = tick p in
    record p' {
      blocks =
          or_insert index (record { content = bytes; used = used }) (find index p'.blocks)
            p'.blocks;
    }

-- `(used, index)` of each block that is not dirty
pub clean_ages : List ℕ → List (ℕ × Block) → List (ℕ × ℕ)
clean_ages dirty [] = []
clean_ages dirty ((index, b) ∷ rest) =
    let more = clean_ages dirty rest in if elem index dirty then more else (b.used, index) ∷ more

-- The order of pairs: by age, then by index.
pub age_leb : ℕ × ℕ → ℕ × ℕ → Bool
age_leb (a, i) (b, j) = if ltb a b then true else if a == b then leb i j else false

pub insert_age : ℕ × ℕ → List (ℕ × ℕ) → List (ℕ × ℕ)
unfolding age_leb
insert_age x [] = x ∷ []
insert_age x (y ∷ ys) = let rest = insert_age x ys in if age_leb x y then x ∷ y ∷ ys else y ∷ rest

-- `select_nth_unstable(count - 1)` moves the `count` least pairs to the front, in some order; here
-- in ascending order. Only the set of the first `count` pairs is used.
pub sort_ages : List (ℕ × ℕ) → List (ℕ × ℕ)
unfolding insert_age
sort_ages [] = []
sort_ages (x ∷ xs) = insert_age x (sort_ages xs)

pub index_of : ℕ × ℕ → ℕ
index_of (used, index) = index

-- What `make_room` does under a limit `cap` of at least one block.
pub evict : Pages → ℕ → ℕ → Stats → Pages × Stats
unfolding sort_ages index_of clean_ages held
evict p cap incoming stats =
    let here = held p in
    if leb (u64 (here + incoming)) cap
    then (p, stats)
    else (let target = (cap - cap / 8) - incoming in
        let ages = clean_ages p.dirty p.blocks in
        let count = min (here - target) (length ages) in
        if count == 0 then (p, stats) else (
          record p { blocks = remove_all (map index_of (take count (sort_ages ages))) p.blocks },
          record stats { evicted_blocks = u64 (stats.evicted_blocks + count) },
        ))

-- `let Some(cap) = self.cap.map(|cap| cap.max(1)) else { return }`
pub evict_under : Option ℕ → Pages → ℕ → Stats → Pages × Stats
evict_under none p incoming stats = (p, stats)
evict_under (some limit) p incoming stats = evict p (max limit 1) incoming stats

unfoldable pub make_room : Pages → ℕ → Stats → Pages × Stats
unfolding evict_under evict
make_room p = evict_under p.cap p

-- `size.div_ceil(page_size)`
unfoldable pub div_ceil : ℕ → ℕ → ℕ
div_ceil n d = if n % d == 0 then n / d else n / d + 1

unfoldable pub truncate : Pages → ℕ → Pages
unfolding div_ceil
truncate p size =
    let page_count = div_ceil size p.page_size in
    if page_count == p.page_count then p else record p {
      blocks = retain (λ index. ltb index page_count) p.blocks;
      dirty = Sorted.retain (λ index. ltb index page_count) p.dirty;
      page_count = page_count;
      size_changed = true;
    }
