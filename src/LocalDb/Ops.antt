-- ===== src/LocalDb/Ops.antt =====
-- The operations of a database that is kept in the browser (`LocalDatabase`, local_database.rs).
use sqlite_remote_vfs.Base.{
  ◌%◌, ◌^◌, ℕ, ◌+◌, ◌-◌, ◌*◌, max, Bool, not, ◌&&◌, ◌||◌, Option, none, some, List, if◌then◌else◌,
  ltb, ◌==◌, u64, length, Result, ok, err,
}
use sqlite_remote_vfs.Base.Bytes.{Bytes}
use sqlite_remote_vfs.Failure.{Broken, Refusal}
use sqlite_remote_vfs.Stats.{Stats}
use sqlite_remote_vfs.Pages.{
  max_page_size, max_page_count, init, on_demand, file_size, is_clean, dirty_blocks, committed,
  truncate,
}
use sqlite_remote_vfs.Pages.Load.{Ctx, Outcome, read, write, map_pages, room, set_held}
use sqlite_remote_vfs.LocalDb.{
  Bridge, Link, LocalOptions, Opened, fill, refused_commit, set_bridge, set_broken, unless_broken,
}

module _ {S : Type 0} (bridge : Bridge S) where
  -- What `open` does with a head that it may follow.
  unfoldable pub open_head : Ctx (Link S) → Result Refusal (Unit {0}) × Ctx (Link S)
  unfolding fill room set_held set_bridge on_demand
  open_head c =
      let (r, c') =
        if not (on_demand c.pages) && ltb 0 c.pages.page_count
        then fill bridge c 0 c.pages.page_count
        else (ok tt, c) in
      elim r [
        | err broken ↦ (
          err (Refusal.not_loaded broken),
          set_bridge c' (bridge.close_database c'.source.bridge),
        )
        | ok _ ↦ (ok tt, set_held (room c' 0))
      ]

  abbrev pub bad_head : Opened → Bool
  bad_head opened =
      (opened.page_size == 0 || ltb max_page_size opened.page_size)
      || ltb max_page_count opened.page_count

  after_open :
      Result Refusal Opened
      → S
      → LocalOptions
      → Stats
      → Result Refusal (Unit {0}) × Option (Ctx (Link S)) × S × Stats
  unfolding open_head init
  after_open (err refusal) s options stats = (err refusal, none, s, stats)
  after_open (ok opened) s options stats =
      if bad_head opened
      then (err (Refusal.bad_head opened.page_size opened.page_count), none, s, stats)
      else (let (r, c) = open_head (record {
        pages = init opened.page_size opened.page_count options.blocks_per_fetch options.cap;
        source = record { bridge = s; epoch = opened.epoch; broken = none };
        stats = stats;
      }) in
          elim r [
            | err refusal ↦ (err refusal, none, c.source.bridge, c.stats)
            | ok _ ↦ (ok tt, some c, c.source.bridge, c.stats)
          ])

  -- `LocalDatabase::open`: the database, if it is open, the bridge and the counters.
  unfoldable pub open_local :
      S
      → Bytes
      → LocalOptions
      → Stats
      → Result Refusal (Unit {0}) × Option (Ctx (Link S)) × S × Stats
  unfolding after_open
  open_local s name options stats =
      let (r, s') = bridge.open_database s name options.page_size options.create options.takeover in
      after_open r s' options stats

  -- `LocalDatabase::read` does not look whether the database is broken: `fill` does.
  unfoldable pub local_read :
      Ctx (Link S) → Bytes → ℕ → Option (Result Broken Bool × Bytes × Ctx (Link S))
  unfolding read fill
  local_read c buf offset = read (fill bridge) c buf offset

  unfoldable pub write_unless :
      Option Broken → Ctx (Link S) → Bytes → ℕ → Option (Outcome (Link S) (Unit {0}))
  unfolding write fill
  write_unless (some broken) c bytes offset = some (err broken, c)
  write_unless none c bytes offset = write (fill bridge) c bytes offset

  unfoldable pub local_write : Ctx (Link S) → Bytes → ℕ → Option (Outcome (Link S) (Unit {0}))
  unfolding write_unless
  local_write c = write_unless c.source.broken c

  unfoldable pub local_truncate : Ctx (Link S) → ℕ → Outcome (Link S) (Unit {0})
  unfolding unless_broken truncate map_pages
  local_truncate c size =
      unless_broken c.source.broken c (ok tt, map_pages c (truncate c.pages size))

  -- The counters after a commit of `count` blocks that took `elapsed`.
  -- The product is one of `usize`, which has 32 bits where there are local databases.
  unfoldable pub counted : Stats → ℕ → ℕ → ℕ → Stats
  counted stats count page_size elapsed = record stats {
    commits = u64 (stats.commits + 1);
    committed_blocks = u64 (stats.committed_blocks + count);
    committed_bytes = u64 (stats.committed_bytes + count * page_size % 2 ^ 32);
    commit_time = stats.commit_time + elapsed;
    max_commit_time = max stats.max_commit_time elapsed;
  }

  unfoldable pub after_commit :
      Result Refusal (Unit {0}) → Ctx (Link S) → ℕ → ℕ → Outcome (Link S) (Unit {0})
  unfolding refused_commit set_broken counted committed room set_held map_pages
  after_commit (err refusal) c started count =
      let broken = refused_commit refusal in (err broken, set_broken c (some broken))
  after_commit (ok _) c started count =
      let elapsed = bridge.now c.source.bridge - started in
      let c' = record c { stats = counted c.stats count c.pages.page_size elapsed } in
      (ok tt, set_held (room (map_pages c' (committed c'.pages).1) 0))

  -- `none`: the dirty blocks are not all in memory, where the source panics.
  unfoldable pub send_blocks :
      Option (List (ℕ × Bytes)) → Ctx (Link S) → Option (Outcome (Link S) (Unit {0}))
  unfolding after_commit set_bridge
  send_blocks none c = none
  send_blocks (some blocks) c =
      let started = bridge.now c.source.bridge in
      let (r, s) = bridge.write_blocks c.source.bridge c.source.epoch c.pages.page_count blocks in
      some (after_commit r (set_bridge c s) started (length blocks))

  unfoldable pub commit_unless : Option Broken → Ctx (Link S) → Option (Outcome (Link S) (Unit {0}))
  unfolding send_blocks dirty_blocks is_clean
  commit_unless (some broken) c = some (err broken, c)
  commit_unless none c =
      let sent = send_blocks (dirty_blocks c.pages) c in
      if is_clean c.pages then some (ok tt, c) else sent

  unfoldable pub local_commit : Ctx (Link S) → Option (Outcome (Link S) (Unit {0}))
  unfolding commit_unless
  local_commit c = commit_unless c.source.broken c

  unfoldable pub local_size : Ctx (Link S) → ℕ
  unfolding file_size
  local_size c = file_size c.pages

  unfoldable pub local_close : Ctx (Link S) → S
  local_close c = bridge.close_database c.source.bridge
