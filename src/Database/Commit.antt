-- ===== src/Database/Commit.antt =====
-- Committing to a page server (`commit` and `resume_until` in
-- crates/sqlite-remote-vfs/src/database.rs).
use sqlite_remote_vfs.Base.{
  ℕ, zero, suc, ◌+◌, ◌-◌, ◌*◌, max, not, ◌&&◌, Option, none, some, List, if◌then◌else◌, leb, ◌==◌,
  u64, length, ok, err,
}
use sqlite_remote_vfs.Base.Bytes.{Bytes, bytes_eq}
use sqlite_remote_vfs.Proto
use sqlite_remote_vfs.Failure.{
  ClientError, Broken, Reason, is_fenced, is_access_denied, is_transient,
}
use sqlite_remote_vfs.Stats.{Stats}
use sqlite_remote_vfs.Pages.{is_clean, dirty_blocks, committed}
use sqlite_remote_vfs.Pages.Load.{room, set_held}
use sqlite_remote_vfs.Client.{Network, was_revoked}
use sqlite_remote_vfs.Client.Listen
use sqlite_remote_vfs.Remote.{parts, on_current_connection}
use sqlite_remote_vfs.Copy.{LocalStore}
use sqlite_remote_vfs.Database.{
  State, Platform, Task, ended, waits, spent, go_on, set_client, set_stats, stop, with_client,
  write_copy,
}
use sqlite_remote_vfs.Database.Fetch.{resume_state}
use sqlite_remote_vfs.Database.Ops.{diverged}

abbrev pub commit_id_bytes : ℕ
commit_id_bytes = 16

-- 200 ms
abbrev pub reconnect_pause : ℕ
reconnect_pause = 200000000

module _ {W V : Type 0} (net : Network W) (ops : LocalStore V) (platform : Platform W) where
  unfoldable pub pause : State W V → State W V
  unfolding set_client
  pause c =
      let client = c.source.client in
      set_client c (record client { world = platform.pause client.world reconnect_pause })

  unfoldable pub now : State W V → ℕ
  now c = net.now c.source.client.world

  unfoldable pub count_resent : State W V → State W V
  unfolding set_stats
  count_resent c =
      set_stats c (record c.stats { resent_commits = u64 (c.stats.resent_commits + 1) })

  -- After a failed attempt to resume: why not to try again.
  unfoldable pub gives_up : ClientError → ℕ → State W V → Option Broken
  unfolding is_fenced is_access_denied now
  gives_up e deadline c =
      if is_fenced e
      then some Broken.fenced
      else if is_access_denied e
      then some (Broken.denied (Reason.error_text e))
      else if leb deadline (now c)
      then some (Broken.uncertain (Reason.no_connection e))
      else none

  unfoldable pub retry :
      {A : Type 0} → (State W V → Task W V Broken A) → Option Broken → State W V → Task W V Broken A
  unfolding stop pause
  retry again (some b) c = stop b c
  retry again none c = again (pause c)

  -- Behind an attempt to resume; `again`: the rest of the loop.
  unfoldable pub attempted :
      {A : Type 0}
      → (State W V → Task W V Broken A)
      → ℕ
      → Task W V ClientError A
      → Task W V Broken A
  unfolding retry gives_up
  attempted again deadline waits = waits
  attempted again deadline spent = spent
  attempted again deadline (ended (ok opened, c)) = ended (ok opened, c)
  attempted again deadline (ended (err e, c)) = retry again (gives_up e deadline c) c

  -- `resume_until`, on fuel.
  unfoldable pub resume_until : ℕ → ℕ → State W V → Task W V Broken Proto.Opened
  unfolding resume_state attempted
  resume_until zero deadline c = spent
  resume_until (suc fuel) deadline c =
      attempted (λ c'. resume_until fuel deadline c') deadline (resume_state net ops platform c)

  unfoldable pub same_version : Proto.Opened → State W V → Task W V Broken (Unit {0})
  unfolding stop
  same_version opened c =
      if opened.version == c.source.remote.version
      then ended (ok tt, c)
      else stop (diverged c.source.remote opened) c

  -- The first part of a turn: the database is open on the connection.
  unfoldable pub connected : ℕ → ℕ → State W V → Task W V Broken (Unit {0})
  unfolding go_on resume_until same_version on_current_connection
  connected fuel deadline c =
      if on_current_connection net c.source.remote c.source.client
      then ended (ok tt, c)
      else go_on (resume_until fuel deadline c) same_version

  -- After the connection broke in a commit: whether it was applied. A turn's result is the version
  -- that was committed, or `none` to send the commit again.
  unfoldable pub compared : Bytes → Proto.Opened → State W V → Task W V Broken (Option ℕ)
  unfolding stop set_stats count_resent
  compared commit_id opened c =
      if (opened.version == u64 (c.source.remote.version + 1))
        && bytes_eq opened.last_commit_id commit_id
      then ended (
        ok (some opened.version),
        set_stats c (record c.stats { recovered_commits = u64 (c.stats.recovered_commits + 1) }),
      )
      else if not (opened.version == c.source.remote.version)
      then stop (diverged c.source.remote opened) c
      else ended (ok none, count_resent c)

  -- An error that is neither fenced nor transient.
  unfoldable pub lost : ℕ → ℕ → Bytes → ClientError → State W V → Task W V Broken (Option ℕ)
  unfolding stop go_on resume_until compared
  lost fuel deadline commit_id (ClientError.server e) c =
      stop (Broken.refused (Reason.code_detail e.code e.detail)) c
  lost fuel deadline commit_id other c = go_on (resume_until fuel deadline c) (compared commit_id)

  unfoldable pub failed : ℕ → ℕ → Bytes → ClientError → State W V → Task W V Broken (Option ℕ)
  unfolding is_fenced is_transient stop lost pause count_resent now
  failed fuel deadline commit_id e c =
      if is_fenced e
      then stop Broken.fenced c
      else if is_transient e
      then (if leb deadline (now c)
          then stop (Broken.uncertain (Reason.failed_commit e)) c
          else ended (ok none, count_resent (pause c)))
      else lost fuel deadline commit_id e c

  -- What the server makes of the commit.
  unfoldable pub answered : ℕ → ℕ → Bytes → Task W V ClientError ℕ → Task W V Broken (Option ℕ)
  unfolding failed
  answered fuel deadline commit_id waits = waits
  answered fuel deadline commit_id spent = spent
  answered fuel deadline commit_id (ended (ok version, c)) = ended (ok (some version), c)
  answered fuel deadline commit_id (ended (err e, c)) = failed fuel deadline commit_id e c

  -- A turn of the loop.
  unfoldable pub turn : ℕ → ℕ → Bytes → List Proto.Commit → State W V → Task W V Broken (Option ℕ)
  unfolding go_on connected answered with_client
  turn fuel deadline commit_id pieces c = go_on (connected fuel deadline c) (λ _ c'.
      answered fuel deadline commit_id (with_client c' (Listen.commit net c'.source.client pieces)))

  -- Behind a turn; `again`: the rest of the loop.
  unfoldable pub turned :
      (State W V → Task W V Broken ℕ) → Task W V Broken (Option ℕ) → Task W V Broken ℕ
  turned again waits = waits
  turned again spent = spent
  turned again (ended (err b, c)) = ended (err b, c)
  turned again (ended (ok (some version), c)) = ended (ok version, c)
  turned again (ended (ok none, c)) = again c

  -- The loop, on fuel; the loops in its turns have the same.
  unfoldable pub commit_loop : ℕ → ℕ → Bytes → List Proto.Commit → State W V → Task W V Broken ℕ
  unfolding turn turned
  commit_loop zero deadline commit_id pieces c = spent
  commit_loop (suc fuel) deadline commit_id pieces c =
      turned (λ c'. commit_loop fuel deadline commit_id pieces c')
        (turn (suc fuel) deadline commit_id pieces c)

  -- The counters of a commit of `frames` parts that began at `begun`.
  unfoldable pub count_commit : Stats → ℕ → ℕ → ℕ → ℕ → Stats
  count_commit s frames blocks bytes elapsed = record s {
    commits = u64 (s.commits + 1);
    commit_frames = u64 (s.commit_frames + frames);
    committed_blocks = u64 (s.committed_blocks + blocks);
    committed_bytes = u64 (s.committed_bytes + bytes);
    commit_time = s.commit_time + elapsed;
    max_commit_time = max s.max_commit_time elapsed;
  }

  -- A commit that the server has at `version`: it is counted, and nothing is left to commit.
  unfoldable pub acknowledged : ℕ → ℕ → Bytes → ℕ → State W V → State W V
  unfolding count_commit committed now
  acknowledged begun frames commit_id version c =
      let blocks = length c.pages.dirty in
      record {
        pages = (committed c.pages).1;
        source = record c.source {
          remote = record c.source.remote {
            version = version;
            last_commit_id = commit_id;
            pending_commit = none;
          };
        };
        stats =
            count_commit c.stats frames blocks (u64 (blocks * c.pages.page_size)) (now c - begun);
      }

  -- Then the blocks are written to the local copy, and can be evicted.
  unfoldable pub done : ℕ → ℕ → Bytes → ℕ → State W V → State W V
  unfolding acknowledged committed write_copy room set_held
  done begun frames commit_id version c = set_held (
      room
        (write_copy ops platform (acknowledged begun frames commit_id version c)
          (committed c.pages).0)
        0)

  -- The state in which the parts are sent: the commit is pending.
  unfoldable pub begin : Bytes → W → State W V → State W V
  begin commit_id world c = record c {
    source = record c.source {
      remote = record c.source.remote { pending_commit = some commit_id };
      client = record c.source.client { world = world };
    };
  }

  unfoldable pub finish : ℕ → ℕ → Bytes → Task W V Broken ℕ → Task W V Broken (Unit {0})
  unfolding go_on done
  finish begun frames commit_id t =
      go_on t (λ version c. ended (ok tt, done begun frames commit_id version c))

  -- `expect` panics, here `none`, where the platform gives no random bytes.
  unfoldable pub with_commit_id :
      ℕ → ℕ → List (ℕ × Bytes) → State W V → Option Bytes × W → Option (Task W V Broken (Unit {0}))
  unfolding begin finish commit_loop parts now
  with_commit_id fuel timeout dirty c (none, world) = none
  with_commit_id fuel timeout dirty c (some commit_id, world) =
      let pieces =
        parts c.source.remote commit_id c.source.client.max_frame_bytes c.pages.page_size
          c.pages.page_count dirty in
      let c' = begin commit_id world c in
      some (
        finish (now c') (length pieces) commit_id
          (commit_loop fuel (now c' + timeout) commit_id pieces c'))

  -- `none`: the platform gives no random bytes, or a dirty block is not in memory; there the source
  -- panics.
  unfoldable pub send_dirty :
      ℕ → ℕ → Option (List (ℕ × Bytes)) → State W V → Option (Task W V Broken (Unit {0}))
  unfolding with_commit_id
  send_dirty fuel timeout none c = none
  send_dirty fuel timeout (some dirty) c =
      with_commit_id fuel timeout dirty c (platform.random c.source.client.world commit_id_bytes)

  unfoldable pub commit_unless :
      Option Broken → ℕ → ℕ → State W V → Option (Task W V Broken (Unit {0}))
  unfolding is_clean was_revoked stop send_dirty dirty_blocks
  commit_unless (some b) fuel timeout c = some (ended (err b, c))
  commit_unless none fuel timeout c =
      if is_clean c.pages
      then some (ended (ok tt, c))
      else if was_revoked c.source.client c.source.remote.db_id c.source.remote.lease_epoch
      then some (stop Broken.fenced c)
      else send_dirty fuel timeout (dirty_blocks c.pages) c

  -- `commit`
  unfoldable pub commit_database : ℕ → ℕ → State W V → Option (Task W V Broken (Unit {0}))
  unfolding commit_unless
  commit_database fuel timeout c = commit_unless c.source.remote.broken fuel timeout c
