-- ===== src/LocalDb.antt =====
-- A database kept in the browser (crates/sqlite-remote-vfs/src/local_database.rs). The connection
-- worker behind the bridge is a parameter: its answers, and its state. Its clock is one as well.
pub mod Fill
pub mod Ops
pub mod Commit
use sqlite_remote_vfs.Base.{
  ℕ, zero, suc, ◌+◌, ◌-◌, ◌*◌, ◌/◌, min, max, Bool, true, false, not, ◌&&◌, ◌||◌, Option, none,
  some, List, [], ◌∷◌, if◌then◌else◌, ltb, leb, ◌==◌, u64, length, Result, ok, err,
}
use sqlite_remote_vfs.Base.Bytes.{Bytes}
use sqlite_remote_vfs.Failure.{Broken, Reason, Refusal}
use sqlite_remote_vfs.Stats.{Stats}
use sqlite_remote_vfs.Pages.{
  Pages, max_page_size, max_page_count, init, on_demand, file_size, held, is_clean, dirty_blocks,
  committed, keep, make_room, truncate,
}
use sqlite_remote_vfs.Pages.Load.{Ctx, Outcome, read, write, map_pages, room, set_held}

-- The stored head (`Opened`)
pub record Opened : Type 0 where
  pub page_size : ℕ
  pub page_count : ℕ
  pub epoch : ℕ

-- The requests of `LocalBridge` that a database makes. `S` is what its answers depend on.
pub record Bridge (S : Type 0) : Type 0 where
  pub open_database : S → Bytes → ℕ → Bool → Bool → Result Refusal Opened × S
  pub read_blocks : S → ℕ → ℕ → Result Refusal (List Bytes) × S
  pub write_blocks : S → ℕ → ℕ → List (ℕ × Bytes) → Result Refusal (Unit {0}) × S
  pub close_database : S → S
  -- `Moment::now()`, in nanoseconds
  pub now : S → ℕ

pub record LocalOptions : Type 0 where
  pub page_size : ℕ
  pub create : Bool
  pub takeover : Bool
  pub blocks_per_fetch : Option ℕ
  pub cap : Option ℕ

-- The fields of `LocalDatabase` but for the pages. With them and the counters it is a `Ctx`.
pub record Link (S : Type 0) : Type 0 where
  pub bridge : S
  pub epoch : ℕ
  pub broken : Option Broken

abbrev pub capacity : ℕ
capacity = 2097152

-- Largest number of blocks that one read returns.
unfoldable pub max_read : ℕ → ℕ
max_read page_size = max ((capacity - 4) / max page_size 1) 1

-- The error of a refused read, and whether the database is broken from then on.
unfoldable pub refused_read : Refusal → Option Broken → Broken × Option Broken
refused_read Refusal.busy broken = (Broken.fenced, some Broken.fenced)
refused_read (Refusal.no_answer reason) broken =
    (Broken.uncertain (Reason.text reason), some (Broken.uncertain (Reason.text reason)))
refused_read other broken = (Broken.refused (Reason.displayed other), broken)

unfoldable pub refused_commit : Refusal → Broken
refused_commit Refusal.busy = Broken.fenced
refused_commit (Refusal.full_store reason) = Broken.full (Reason.text reason)
refused_commit (Refusal.no_answer reason) = Broken.uncertain (Reason.text reason)
refused_commit other = Broken.refused (Reason.displayed other)

-- The length of the first block that does not have the page size.
unfoldable pub odd_block : ℕ → List Bytes → Option ℕ
odd_block page_size [] = none
odd_block page_size (b ∷ bs) =
    let rest = odd_block page_size bs in if length b == page_size then rest else some (length b)

unfoldable pub keep_all : Pages → ℕ → List Bytes → Pages
keep_all p next [] = p
keep_all p next (b ∷ bs) = keep_all (keep p next b) (next + 1) bs

module _ {S : Type 0} where
  unfoldable pub set_bridge : Ctx (Link S) → S → Ctx (Link S)
  set_bridge c s = record c { source = record c.source { bridge = s } }

  unfoldable pub set_broken : Ctx (Link S) → Option Broken → Ctx (Link S)
  set_broken c broken = record c { source = record c.source { broken = broken } }

  unfoldable pub keep_read :
      Option ℕ → Ctx (Link S) → ℕ → ℕ → List Bytes → Outcome (Link S) (Unit {0})
  unfolding keep_all
  keep_read (some bytes) c next n blocks =
      (err (Broken.refused (Reason.stored_block bytes c.pages.page_size)), c)
  keep_read none c next n blocks = (
    ok tt,
    record c {
      pages = keep_all c.pages next blocks;
      stats = record c.stats {
        local_reads = u64 (c.stats.local_reads + 1);
        local_blocks_read = u64 (c.stats.local_blocks_read + n);
      };
    },
  )

  unfoldable pub after_read :
      Result Refusal (List Bytes) → Ctx (Link S) → ℕ → ℕ → Outcome (Link S) (Unit {0})
  unfolding keep_read odd_block refused_read set_broken
  after_read (err refusal) c next n =
      let (e, broken) = refused_read refusal c.source.broken in (err e, set_broken c broken)
  after_read (ok blocks) c next n = keep_read (odd_block c.pages.page_size blocks) c next n blocks

  -- `if let Some(broken) = ... { return Err(broken.clone()) }`
  unfoldable pub unless_broken :
      {A : Type 0} → Option Broken → Ctx (Link S) → Outcome (Link S) A → Outcome (Link S) A
  unless_broken (some broken) c rest = (err broken, c)
  unless_broken none c rest = rest

module _ {S : Type 0} (bridge : Bridge S) where
  -- One turn of the loop in `fill`.
  unfoldable pub fill_turn : Ctx (Link S) → ℕ → ℕ → Outcome (Link S) (Unit {0})
  unfolding after_read set_bridge
  fill_turn c next n =
      let (r, s) = bridge.read_blocks c.source.bridge next n in after_read r (set_bridge c s) next n

  -- The loop, on fuel. `end` is at most the number of blocks of the file, so it does not wrap. Each
  -- turn reads at least one block, so `end - next` turns suffice.
  unfoldable pub fill_loop : ℕ → ℕ → Ctx (Link S) → ℕ → ℕ → Outcome (Link S) (Unit {0})
  fill_loop zero at_once c next end = (ok tt, c)
  fill_loop (suc fuel) at_once c next end = elim (ltb next end) [
    | false ↦ (ok tt, c)
    | true ↦
        let n = min at_once (end - next) in
        let (r, c') = fill_turn c next n in
        elim r [ err e ↦ (err e, c') | ok _ ↦ fill_loop fuel at_once c' (next + n) end ]
  ]

  -- `Load::fill`
  unfoldable pub fill : Ctx (Link S) → ℕ → ℕ → Outcome (Link S) (Unit {0})
  unfolding unless_broken max_read fill_loop
  fill c first count =
      unless_broken c.source.broken c
        (fill_loop count (max_read c.pages.page_size) c first (first + count))
