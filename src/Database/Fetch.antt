-- ===== src/Database/Fetch.antt =====
-- Blocks for the reads and writes of a database: from its local copy, or from the server (`Fetch`,
-- `take_from_copy` and `load` in crates/sqlite-remote-vfs/src/database.rs).
use sqlite_remote_vfs.Base.{
  ℕ, zero, suc, ◌+◌, ◌-◌, min, Bool, true, false, ◌||◌, Option, none, some, List, [], ◌∷◌,
  if◌then◌else◌, is_some, u64, length, Result, ok, err,
}
use sqlite_remote_vfs.Base.Bytes.{Bytes}
use sqlite_remote_vfs.Proto
use sqlite_remote_vfs.Failure.{ClientError, Broken, Reason, is_fenced, is_access_denied}
use sqlite_remote_vfs.Stats.{Stats}
use sqlite_remote_vfs.LocalDb.{odd_block, keep_all}
use sqlite_remote_vfs.Client.{Network, Client}
use sqlite_remote_vfs.Client.Login.{fetch}
use sqlite_remote_vfs.Remote.{Remote, resume, on_current_connection}
use sqlite_remote_vfs.Copy.{LocalStore, is_absent, blocks_per_read, copy_read}
use sqlite_remote_vfs.Database.{
  State, Platform, Task, ended, waits, go_on, or_else, set_client, set_remote, set_copy, set_stats,
  stop, disable, with_client, is_nil, write_copy,
}

-- `first..first + count`
unfoldable pub indexes_from : ℕ → ℕ → List ℕ
indexes_from first zero = []
indexes_from first (suc count) = first ∷ indexes_from (first + 1) count

module _ {W V : Type 0} (net : Network W) (ops : LocalStore V) (platform : Platform W) where
  -- Behind the read of the local copy.
  unfoldable pub taken : Result Bytes (List Bytes) → State W V → ℕ → Bool × State W V
  unfolding disable set_stats keep_all odd_block
  taken (err e) c first = (false, disable c)
  taken (ok read) c first =
      if is_nil read || is_some (odd_block c.pages.page_size read)
      then (false, set_stats c (record c.stats { local_misses = u64 (c.stats.local_misses + 1) }))
      else (
        true,
        record c {
          stats = record c.stats {
            local_blocks_read = u64 (c.stats.local_blocks_read + length read);
          };
          pages = keep_all c.pages first read;
        },
      )

  unfoldable pub counted_read : State W V → State W V
  unfolding set_stats
  counted_read c = set_stats c (record c.stats { local_reads = u64 (c.stats.local_reads + 1) })

  unfoldable pub take_from_copy : State W V → ℕ → ℕ → Bool × State W V
  unfolding taken counted_read set_copy
  take_from_copy c first count =
      if is_absent c.source.copy
      then (false, c)
      else (let (r, copy) =
            copy_read ops c.source.copy first (min count (blocks_per_read c.pages.page_size)) in
          taken r (set_copy (counted_read c) copy) first)

  unfoldable pub fetch_request : Remote → ℕ → ℕ → Proto.Fetch
  fetch_request r first count = record {
    db_id = r.db_id;
    version = r.version;
    first_block = first;
    count = count;
    ranges = [];
  }

  -- What was fetched; `begun`: when the request was made.
  unfoldable pub fetched : ℕ → ℕ → ℕ → List Bytes → State W V → Task W V ClientError (Unit {0})
  unfolding keep_all
  fetched begun first count blocks c = ended (
    ok tt,
    record c {
      stats = record c.stats {
        fetches = u64 (c.stats.fetches + 1);
        fetched_blocks = u64 (c.stats.fetched_blocks + count);
        fetch_time = c.stats.fetch_time + (net.now c.source.client.world - begun);
      };
      pages = keep_all c.pages first blocks;
    },
  )

  unfoldable pub load : State W V → ℕ → ℕ → Task W V ClientError (Unit {0})
  unfolding go_on with_client fetched fetch_request
  load c first count =
      go_on
        (with_client c
          (fetch net c.source.client (fetch_request c.source.remote first count) c.pages.page_size))
        (fetched (net.now c.source.client.world) first count)

  unfoldable pub resumed_state :
      State W V
      → Option (Result ClientError Proto.Opened × Remote × Client W × Stats)
      → Task W V ClientError Proto.Opened
  unfolding set_client set_remote set_stats
  resumed_state c none = waits
  resumed_state c (some (r, remote, client, stats)) =
      ended (r, set_stats (set_client (set_remote c remote) client) stats)

  -- `resume` on the state.
  unfoldable pub resume_state : State W V → Task W V ClientError Proto.Opened
  unfolding resumed_state
  resume_state c =
      resumed_state c (resume net c.source.remote c.source.client c.pages.page_size c.stats)

  -- Why a read fails that could not reconnect.
  unfoldable pub unreachable : {A : Type 0} → ClientError → State W V → Task W V Broken A
  unfolding stop
  unreachable e c =
      if is_access_denied e
      then stop (Broken.denied (Reason.error_text e)) c
      else stop (Broken.uncertain (Reason.error_text e)) c

  -- Why a read fails whose fetch failed.
  unfoldable pub fetch_failed : {A : Type 0} → ClientError → State W V → Task W V Broken A
  unfolding stop
  fetch_failed e c =
      if is_fenced e
      then stop Broken.fenced c
      else ended (err (Broken.refused (Reason.error_text e)), c)

  -- Reads reconnect once, without a deadline.
  unfoldable pub reconnected : State W V → Task W V Broken (Unit {0})
  unfolding or_else go_on resume_state unreachable
  reconnected c =
      if on_current_connection net c.source.remote c.source.client
      then ended (ok tt, c)
      else go_on (or_else (resume_state c) unreachable) (λ opened c'. ended (ok tt, c'))

  unfoldable pub from_server : State W V → ℕ → ℕ → Task W V Broken (Unit {0})
  unfolding go_on or_else reconnected load fetch_failed write_copy indexes_from
  from_server c first count = go_on (reconnected c) (λ _ c1.
      go_on (or_else (load c1 first count) fetch_failed)
        (λ _ c2. ended (ok tt, write_copy ops platform c2 (indexes_from first count))))

  -- `Fetch::fill`, on a database that is not broken.
  unfoldable pub fill_from : Bool × State W V → ℕ → ℕ → Task W V Broken (Unit {0})
  unfolding from_server
  fill_from (true, c) first count = ended (ok tt, c)
  fill_from (false, c) first count = from_server c first count

  unfoldable pub fill_unless : Option Broken → State W V → ℕ → ℕ → Task W V Broken (Unit {0})
  unfolding fill_from take_from_copy
  fill_unless (some b) c first count = ended (err b, c)
  fill_unless none c first count = fill_from (take_from_copy c first count) first count

  unfoldable pub fill : State W V → ℕ → ℕ → Task W V Broken (Unit {0})
  unfolding fill_unless
  fill c first count = fill_unless c.source.remote.broken c first count
