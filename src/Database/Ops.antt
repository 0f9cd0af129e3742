-- ===== src/Database/Ops.antt =====
-- The operations of a database on a page server but for the commit (`open`, `heal`, `read`, `write`,
-- `truncate` and `close` in crates/sqlite-remote-vfs/src/database.rs).
use sqlite_remote_vfs.Base.{
  ℕ, ◌+◌, Bool, true, false, not, ◌&&◌, Option, none, some, if◌then◌else◌, ◌==◌, u64, Result, ok,
  err,
}
use sqlite_remote_vfs.Base.Bytes.{Bytes, bytes_eq}
use sqlite_remote_vfs.Proto
use sqlite_remote_vfs.Proto.{Request, Response}
use sqlite_remote_vfs.Failure.{ClientError, Broken, Reason}
use sqlite_remote_vfs.Stats.{Stats}
use sqlite_remote_vfs.Pages.{Pages, init, emptied, truncate}
use sqlite_remote_vfs.Pages.Load.{Ctx, Fill, Outcome, read, write}
use sqlite_remote_vfs.Client.{Network, Client, Reply, disconnect}
use sqlite_remote_vfs.Client.Listen.{call}
use sqlite_remote_vfs.Client.Login.{and_then, unexpected}
use sqlite_remote_vfs.Remote.{Remote, checked, broken_on, on_current_connection}
use sqlite_remote_vfs.Copy.{LocalStore, LocalCopy}
use sqlite_remote_vfs.Database.{
  Session, State, Platform, Course, Task, ended, waits, spent, go_on, or_else, set_remote,
  set_stats, stop,
}
use sqlite_remote_vfs.Database.Fetch
use sqlite_remote_vfs.Database.Fetch.{resume_state}
use sqlite_remote_vfs.Database.Open.{fill_opened}

-- `OpenOptions`, but for the local copy, which the session has.
pub record OpenOptions : Type 0 where
  pub page_size : ℕ
  pub create : Bool
  pub takeover : Bool
  pub blocks_per_fetch : Option ℕ
  pub cap : Option ℕ
  pub subject : Bytes

unfoldable pub is_pending : Option Bytes → Bytes → Bool
is_pending none id = false
is_pending (some pending) id = bytes_eq pending id

-- Whether the pending commit is what the server's version is ahead by.
unfoldable pub applied : Remote → Proto.Opened → Bool
unfolding is_pending
applied r opened =
    (opened.version == u64 (r.version + 1)) && is_pending r.pending_commit opened.last_commit_id

-- Why a database cannot go on at the version that the server is at.
abbrev pub diverged : Remote → Proto.Opened → Broken
diverged r opened = Broken.diverged (Reason.versions opened.version r.version)

is_uncertain : Option Broken → Bool
is_uncertain none = false
is_uncertain (some (Broken.uncertain reason)) = true
is_uncertain (some other) = false

unfoldable pub is_unreachable : Remote → Bool
unfolding is_uncertain
is_unreachable r = is_uncertain r.broken

-- Beside a state that waits, where no result is returned.
abbrev no_result : Broken
no_result = Broken.fenced

module _ {W V : Type 0} (net : Network W) (ops : LocalStore V) (platform : Platform W) where
  open_request : Bytes → OpenOptions → Request
  open_request db_id options = Request.open_db (record {
    db_id = db_id;
    page_size = options.page_size;
    create_if_missing = options.create;
    takeover = options.takeover;
    resume = none;
  })

  opened_answer : Response → Client W → Option (Reply W Proto.Opened)
  unfolding checked unexpected
  opened_answer (Response.opened opened) c = some (checked opened none, c)
  opened_answer other c = unexpected other c

  unfoldable pub new_remote : Bytes → OpenOptions → Proto.Opened → Client W → Remote
  new_remote db_id options opened client = record {
    db_id = db_id;
    subject = options.subject;
    version = opened.version;
    lease_id = opened.lease_id;
    lease_epoch = opened.lease_epoch;
    last_commit_id = opened.last_commit_id;
    pending_commit = none;
    broken = none;
    login = client.logins;
  }

  -- A database on which the server has given the lease.
  unfoldable pub new_state :
      Bytes → OpenOptions → LocalCopy V → Stats → Proto.Opened → Client W → State W V
  unfolding new_remote init
  new_state db_id options copy stats opened client = record {
    pages = init opened.page_size opened.page_count options.blocks_per_fetch options.cap;
    source = record {
      remote = new_remote db_id options opened client;
      client = client;
      copy = copy;
    };
    stats = stats;
  }

  unfoldable pub filled_new :
      Bytes
      → OpenOptions
      → LocalCopy V
      → Stats
      → Option (Reply W Proto.Opened)
      → Course (Result ClientError (State W V) × Client W)
  unfolding new_state fill_opened
  filled_new db_id options copy stats none = waits
  filled_new db_id options copy stats (some (err e, c)) = ended (err e, c)
  filled_new db_id options copy stats (some (ok opened, c)) =
      elim (fill_opened net ops platform (new_state db_id options copy stats opened c)) [
        | waits ↦ waits
        | spent ↦ spent
        | ended (err e, c') ↦ ended (err e, c'.source.client)
        | ended (ok _, c') ↦ ended (ok c', c'.source.client)
      ]

  -- `Database::open`. On an error the client is all that stays.
  unfoldable pub open_database :
      Client W
      → Bytes
      → OpenOptions
      → LocalCopy V
      → Stats
      → Course (Result ClientError (State W V) × Client W)
  unfolding filled_new and_then call open_request opened_answer
  open_database client db_id options copy stats =
      filled_new db_id options copy stats
        (and_then (call net client (open_request db_id options)) opened_answer)

  -- Behind the refilling of a database that is healed: its new pages stand in the state that was
  -- filled, the old ones are `pages`.
  unfoldable pub refilled : Pages → Task W V ClientError (Unit {0}) → Task W V Broken (Unit {0})
  unfolding stop broken_on set_remote set_stats
  refilled pages waits = waits
  refilled pages spent = spent
  refilled pages (ended (err e, c)) = stop (broken_on e) (record c { pages = pages })
  refilled pages (ended (ok _, c)) = ended (
    ok tt,
    set_stats (set_remote c (record c.source.remote { broken = none }))
        (record c.stats { healed = u64 (c.stats.healed + 1) }),
  )

  -- The database as of the server's version, with its blocks to be loaded.
  unfoldable pub at_server : Bool → Proto.Opened → State W V → State W V
  unfolding emptied
  at_server recovered opened c = record c {
    pages = emptied c.pages opened.page_count;
    source = record c.source {
      remote = record c.source.remote {
        version = opened.version;
        last_commit_id = opened.last_commit_id;
        pending_commit = none;
      };
    };
    stats = record c.stats {
      recovered_commits =
          if recovered then u64 (c.stats.recovered_commits + 1) else c.stats.recovered_commits;
    };
  }

  unfoldable pub healed_at : Proto.Opened → State W V → Task W V Broken (Unit {0})
  unfolding applied stop refilled at_server fill_opened
  healed_at opened c =
      let r = c.source.remote in
      if not (opened.version == r.version) && not (applied r opened)
      then stop (diverged r opened) c
      else refilled c.pages (fill_opened net ops platform (at_server (applied r opened) opened c))

  unfoldable pub heal : State W V → Task W V Broken (Unit {0})
  unfolding go_on or_else resume_state stop broken_on healed_at
  heal c =
      go_on (or_else (resume_state net ops platform c) (λ e c'. stop (broken_on e) c')) healed_at

  -- `Fetch` as the source of the blocks. A state that waits for the server for ever is `none`: nothing
  -- happens behind it, and the result beside it is none that is returned.
  unfoldable pub lifted :
      Ctx (Option (Session W V))
      → Task W V Broken (Unit {0})
      → Outcome (Option (Session W V)) (Unit {0})
  lifted c waits = (err no_result, record c { source = none })
  lifted c spent = (err no_result, record c { source = none })
  lifted c (ended (r, c')) =
      (r, record { pages = c'.pages; source = some c'.source; stats = c'.stats })

  unfoldable pub source : Fill (Option (Session W V))
  unfolding lifted
  source c first count = elim c.source [
    | none ↦ (err no_result, c)
    | some session ↦ lifted c (
        Fetch.fill net ops platform (record { pages = c.pages; source = session; stats = c.stats })
          first count)
  ]

  abbrev pub lift : State W V → Ctx (Option (Session W V))
  lift c = record { pages = c.pages; source = some c.source; stats = c.stats }

  unfoldable pub settle :
      {A : Type 0} → Result Broken A → Pages → Option (Session W V) → Stats → Task W V Broken A
  settle r pages none stats = waits
  settle r pages (some session) stats =
      ended (r, record { pages = pages; source = session; stats = stats })

  unfoldable pub settled_read :
      Option (Result Broken Bool × Bytes × Ctx (Option (Session W V)))
      → Task W V Broken (Bool × Bytes)
  unfolding settle
  settled_read none = spent
  settled_read (some (err e, buf, c)) = settle (err e) c.pages c.source c.stats
  settled_read (some (ok full, buf, c)) = settle (ok (full, buf)) c.pages c.source c.stats

  unfoldable pub settled_write :
      Option (Outcome (Option (Session W V)) (Unit {0})) → Task W V Broken (Unit {0})
  unfolding settle
  settled_write none = spent
  settled_write (some (r, c)) = settle r c.pages c.source c.stats

  -- A broken database takes no operation.
  unfoldable pub unless_broken :
      {A : Type 0} → Option Broken → State W V → Task W V Broken A → Task W V Broken A
  unless_broken none c t = t
  unless_broken (some b) c t = ended (err b, c)

  unfoldable pub read_database : State W V → Bytes → ℕ → Task W V Broken (Bool × Bytes)
  unfolding unless_broken settled_read read source
  read_database c buf offset =
      unless_broken c.source.remote.broken c (settled_read (read source (lift c) buf offset))

  unfoldable pub write_database : State W V → Bytes → ℕ → Task W V Broken (Unit {0})
  unfolding unless_broken settled_write write source
  write_database c bytes offset =
      unless_broken c.source.remote.broken c (settled_write (write source (lift c) bytes offset))

  unfoldable pub truncate_database : State W V → ℕ → Task W V Broken (Unit {0})
  unfolding unless_broken truncate
  truncate_database c size =
      unless_broken c.source.remote.broken c
        (ended (ok tt, record c { pages = truncate c.pages size }))

  close_request : Remote → Request
  close_request r = Request.close_db (record { db_id = r.db_id; lease_epoch = r.lease_epoch })

  closed : Client W → Option (Reply W Response) → Option (Client W)
  closed c none = none
  closed c (some (r, c')) = some c'

  close_lease : Option Broken → Remote → Client W → Option (Client W)
  unfolding disconnect on_current_connection call close_request closed
  close_lease (some b) r c = some (disconnect c)
  close_lease none r c =
      if not (on_current_connection net r c)
      then some c
      else closed c (call net c (close_request r))

  -- `Database::close`, which uses only the server side.
  unfoldable pub close : Remote → Client W → Option (Client W)
  unfolding close_lease
  close r c = close_lease r.broken r c
