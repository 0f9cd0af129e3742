-- ===== src/Database/Open.antt =====
-- Opening a database on a page server, with its local copy (`open`, `Remote::fill`, `take_copy` and
-- `catch_copy_up` in crates/sqlite-remote-vfs/src/database.rs).
use sqlite_remote_vfs.Base.{
  ℕ, zero, suc, ◌+◌, ◌-◌, ◌/◌, min, Bool, true, false, not, ◌&&◌, ◌||◌, Option, none, some, List,
  [], ◌∷◌, if◌then◌else◌, ltb, ◌==◌, u64, length, Result, ok, err, map,
}
use sqlite_remote_vfs.Base.Bytes.{Bytes, bytes_eq}
use sqlite_remote_vfs.Proto
use sqlite_remote_vfs.Proto.{Request, Response}
use sqlite_remote_vfs.Failure.{ClientError, Complaint}
use sqlite_remote_vfs.Pages.{Pages, keep, on_demand, indexes}
use sqlite_remote_vfs.Pages.Load.{room, set_held}
use sqlite_remote_vfs.LocalDb.{keep_all}
use sqlite_remote_vfs.Client.{Network}
use sqlite_remote_vfs.Client.Login.{changes, fetch_ranges}
use sqlite_remote_vfs.Remote.{Remote, runs}
use sqlite_remote_vfs.CopyHeader.{Head}
use sqlite_remote_vfs.Copy.{LocalStore, LocalCopy, blocks_per_read, catch_up, copy_read}
use sqlite_remote_vfs.Database.{
  State, Platform, Course, Task, ended, waits, spent, go_on, set_copy, set_stats, disable,
  with_client, is_nil, write_copy, forget_copy, copy_head,
}
use sqlite_remote_vfs.Database.Fetch.{load}

abbrev pub max_catch_up_ranges : ℕ
max_catch_up_ranges = 4096

add_run : ℕ → ℕ → List (ℕ × ℕ) → List (ℕ × ℕ)
add_run first zero rest = rest
add_run first (suc count) rest = (first, suc count) ∷ rest

-- The runs, without what is behind the end of the file.
unfoldable pub clipped : ℕ → List (ℕ × ℕ) → List (ℕ × ℕ)
unfolding add_run
clipped page_count [] = []
clipped page_count ((first, count) ∷ rest) =
    add_run first (min count (page_count - first)) (clipped page_count rest)

unfoldable pub is_usable : Remote → Pages → Head → Bool
is_usable r p head =
    bytes_eq head.subject r.subject
    && bytes_eq head.db_id r.db_id
    && (head.page_size == p.page_size)

-- A head that can be used for this database.
unfoldable pub usable : Remote → Pages → Option Head → Option Head
unfolding is_usable
usable r p none = none
usable r p (some head) = if is_usable r p head then some head else none

unfoldable pub keep_pairs : Pages → List (ℕ × Bytes) → Pages
keep_pairs p [] = p
keep_pairs p ((index, bytes) ∷ rest) = keep_pairs (keep p index bytes) rest

abbrev pub index_of : ℕ × Bytes → ℕ
index_of (index, bytes) = index

module _ {W V : Type 0} (net : Network W) (ops : LocalStore V) (platform : Platform W) where
  -- The changed blocks of a caught up copy that is preloaded.
  unfoldable pub ranges_fetched : ℕ → List (ℕ × Bytes) → State W V → Task W V ClientError Bool
  unfolding keep_pairs write_copy
  ranges_fetched begun blocks c = ended (
    ok true,
    write_copy ops platform
        (record c {
          stats = record c.stats {
            fetches = u64 (c.stats.fetches + 1);
            fetched_blocks = u64 (c.stats.fetched_blocks + length blocks);
            fetch_time = c.stats.fetch_time + (net.now c.source.client.world - begun);
          };
          pages = keep_pairs c.pages blocks;
        })
        (map index_of blocks),
  )

  -- Behind the catch up of the copy.
  unfoldable pub caught_up :
      Result Bytes (Unit {0}) × LocalCopy V
      → List ℕ
      → List (ℕ × ℕ)
      → State W V
      → Task W V ClientError Bool
  unfolding disable set_copy set_stats go_on with_client ranges_fetched
  caught_up (err e, copy) blocks ranges c = ended (ok false, disable c)
  caught_up (ok _, copy) blocks ranges c =
      let c' = set_stats (set_copy c copy) (record c.stats {
        caught_up = u64 (c.stats.caught_up + 1);
        forgotten_blocks = u64 (c.stats.forgotten_blocks + length blocks);
      }) in
      if not (on_demand c.pages) && not (is_nil ranges)
      then go_on
          (with_client c' (
            fetch_ranges net c'.source.client c'.source.remote.db_id c'.source.remote.version ranges
              c'.pages.page_size))
          (ranges_fetched (net.now c'.source.client.world))
      else ended (ok true, c')

  -- Behind the answer of the server's change log.
  unfoldable pub changed : Proto.Changes → State W V → Task W V ClientError Bool
  unfolding clipped runs caught_up copy_head catch_up
  changed answer c =
      let page_count = c.pages.page_count in
      let ranges = clipped page_count (runs answer.blocks) in
      if not answer.complete || not (answer.to_version == c.source.remote.version)
      then ended (ok false, c)
      else if ltb (page_count / 3) (length answer.blocks) || ltb max_catch_up_ranges (length ranges)
      then ended (ok false, c)
      else caught_up (catch_up ops c.source.copy (copy_head c.source.remote c.pages) answer.blocks)
          answer.blocks ranges c

  unfoldable pub catch_copy_up : State W V → Head → Task W V ClientError Bool
  unfolding go_on with_client changed
  catch_copy_up c behind =
      go_on (with_client c (changes net c.source.client c.source.remote.db_id behind.version))
        changed

  -- A turn of the loop that loads the database from its copy; the result: whether to go on.
  unfoldable pub copied_turn :
      Result Bytes (List Bytes) × LocalCopy V → ℕ → ℕ → State W V → Bool × State W V
  unfolding disable set_copy set_stats keep_all
  copied_turn (err e, copy) first count c = (false, disable c)
  copied_turn (ok read, copy) first count c =
      if length read == count
      then (
        true,
        record (set_copy c copy) {
          stats = record c.stats { local_blocks_read = u64 (c.stats.local_blocks_read + count) };
          pages = keep_all c.pages first read;
        },
      )
      else (
        false,
        set_stats (set_copy c copy)
            (record c.stats { local_misses = u64 (c.stats.local_misses + 1) }),
      )

  -- Behind a turn; `again`: the rest of the loop.
  unfoldable pub copied :
      (State W V → Course (Bool × State W V)) → Bool × State W V → Course (Bool × State W V)
  copied again (false, c) = ended (false, c)
  copied again (true, c) = again c

  unfoldable pub turn_count : State W V → ℕ → ℕ
  turn_count c first = min (blocks_per_read c.pages.page_size) (c.pages.page_count - first)

  -- The loop, with fuel: each turn reads at least one block, so the number of blocks suffices.
  unfoldable pub load_from_copy : ℕ → ℕ → State W V → Course (Bool × State W V)
  unfolding copied copied_turn set_stats copy_read turn_count
  load_from_copy zero first c = spent
  load_from_copy (suc fuel) first c =
      let count = turn_count c first in
      if ltb first c.pages.page_count
      then copied (λ c'. load_from_copy fuel (first + count) c')
          (copied_turn (copy_read ops c.source.copy first count) first count c)
      else ended
          (true, set_stats c (record c.stats { local_reads = u64 (c.stats.local_reads + 1) }))

  unfoldable pub result_of : Course (Bool × State W V) → Task W V ClientError Bool
  result_of waits = waits
  result_of spent = spent
  result_of (ended (b, c)) = ended (ok b, c)

  -- With a copy at the version of the server; `false`: it could not be caught up.
  unfoldable pub current_copy : Bool → State W V → Task W V ClientError Bool
  unfolding forget_copy result_of load_from_copy
  current_copy false c = ended (ok false, forget_copy ops platform c)
  current_copy true c =
      if on_demand c.pages
      then ended (ok false, c)
      else result_of (load_from_copy (suc c.pages.page_count) 0 c)

  unfoldable pub copy_at : Option Head → State W V → Task W V ClientError Bool
  unfolding forget_copy go_on catch_copy_up current_copy
  copy_at none c = ended (ok false, forget_copy ops platform c)
  copy_at (some head) c =
      let version = c.source.remote.version in
      if ltb version head.version
      then ended
          (err (ClientError.protocol (Complaint.server_lost_commits head.version version)), c)
      else if ltb head.version version
      then go_on (catch_copy_up c head) current_copy
      else current_copy true c

  unfoldable pub copy_head_read :
      Result Bytes (Option Head) × V → State W V → Task W V ClientError Bool
  unfolding disable set_copy copy_at usable
  copy_head_read (err e, v) c = ended (ok false, disable c)
  copy_head_read (ok head, v) c =
      copy_at (usable c.source.remote c.pages head) (set_copy c (LocalCopy.ready v))

  unfoldable pub take_from : LocalCopy V → State W V → Task W V ClientError Bool
  unfolding copy_head_read
  take_from (LocalCopy.ready v) c = copy_head_read (ops.head v) c
  take_from LocalCopy.absent c = ended (ok false, c)
  take_from (LocalCopy.writing b) c = ended (ok false, c)

  unfoldable pub take_copy : State W V → Task W V ClientError Bool
  unfolding take_from
  take_copy c = take_from c.source.copy c

  -- `pages.make_room(0, stats)` and `stats.held_blocks`
  unfoldable pub settled : State W V → State W V
  unfolding room set_held
  settled c = set_held (room c 0)

  unfoldable pub filled : Bool → State W V → Task W V ClientError (Unit {0})
  unfolding go_on load write_copy settled
  filled from_copy c =
      if not (on_demand c.pages) && ltb 0 c.pages.page_count && not from_copy
      then go_on (load net ops platform c 0 c.pages.page_count)
          (λ _ c'. ended (ok tt, settled (write_copy ops platform c' (indexes c'.pages))))
      else ended (ok tt, settled c)

  -- `Remote::fill`
  unfoldable pub fill_opened : State W V → Task W V ClientError (Unit {0})
  unfolding go_on take_copy filled
  fill_opened c = go_on (take_copy c) filled
