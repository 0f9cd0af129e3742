-- ===== src/Database/CommitEnd.antt =====
-- How a commit to a page server ends (`commit` in crates/sqlite-remote-vfs/src/database.rs).
use sqlite_remote_vfs.Base.{
  ℕ, ◌+◌, ◌≡◌, refl, ◌∙◌, ap, ◌⊎◌, inl, inr, true, Option, none, some, List, length, Bool-cases,
  if_true, if_false, Result, ok, err,
}
use sqlite_remote_vfs.Base.Bytes.{Bytes}
use sqlite_remote_vfs.Proto
use sqlite_remote_vfs.Failure.{Broken}
use sqlite_remote_vfs.Pages.{is_clean, dirty_blocks}
use sqlite_remote_vfs.Pages.View.{Stored, Serves}
use sqlite_remote_vfs.Pages.Changes.{dirty_blocks-total}
use sqlite_remote_vfs.Client.{Network, was_revoked}
use sqlite_remote_vfs.Client.Heard.{Taken-refl}
use sqlite_remote_vfs.Remote.{Remote, parts, break_with}
use sqlite_remote_vfs.Copy.{LocalStore}
use sqlite_remote_vfs.Database.{State, Platform, Task, ended, waits, spent, go_on, stop, set_remote}
use sqlite_remote_vfs.Database.Commit.{
  commit_loop, done, begin, finish, send_dirty, with_commit_id, commit_unless, commit_database, now,
  commit_id_bytes,
}
use sqlite_remote_vfs.Database.Steady.{Ends, core, broken_of, Steady, Told}
use sqlite_remote_vfs.Database.Confirmed.{Confirmed, Since, commit_loop-Told}
use sqlite_remote_vfs.Database.Stores.{Stores, Stores-along, done-Stores, done-remote}

module _ {W V : Type 0} (net : Network W) (ops : LocalStore V) (platform : Platform W) where
  -- A commit that failed: the database is broken by the error, and the changes are still there.
  pub record Failed (c : State W V) (b : Broken) (c' : State W V) : Type 0 where
    pub broken : broken_of c' ≡ some b
    pub pages : c'.pages ≡ c.pages
    pub copy : c'.source.copy ≡ c.source.copy
    pub version : c'.source.remote.version ≡ c.source.remote.version

  -- A commit that was carried out.
  pub record Committed (stored : Stored) (c c' : State W V) : Type 0 where
    pub commit_id : Bytes
    pub dirty : List (ℕ × Bytes)
    pub sent : dirty_blocks c.pages ≡ some dirty
    pub confirmed :
        Confirmed net ops platform
          (core (record c.source.remote { pending_commit = some commit_id }))
          c.source.client.inbox
          commit_id
          (parts c.source.remote commit_id c.source.client.max_frame_bytes c.pages.page_size
            c.pages.page_count dirty)
          c'.source.remote.version
    pub last_commit_id : c'.source.remote.last_commit_id ≡ commit_id
    pub settled : c'.source.remote.pending_commit ≡ none
    pub intact : broken_of c' ≡ broken_of c
    pub stores : Stores net ops platform stored c.pages c.source.copy c'

  pub data CommitEnd (stored : Stored) (c : State W V)
      : Result Broken (Unit {0}) × State W V → Type 0 where
    already_broken : (b : Broken) → broken_of c ≡ some b → CommitEnd stored c (err b, c)
    nothing_to_do : is_clean c.pages ≡ true → CommitEnd stored c (ok tt, c)
    refused :
        (b : Broken) (c' : State W V)
        → broken_of c ≡ none
        → Failed c b c'
        → CommitEnd stored c (err b, c')
    stored_all :
        (c' : State W V)
        → broken_of c ≡ none
        → Committed stored c c'
        → CommitEnd stored c (ok tt, c')

  -- The parts of a commit.
  abbrev pieces_of : State W V → Bytes → List (ℕ × Bytes) → List Proto.Commit
  pieces_of c commit_id dirty =
      parts c.source.remote commit_id c.source.client.max_frame_bytes c.pages.page_size
        c.pages.page_count dirty

  abbrev base_of : State W V → Bytes → Remote
  base_of c commit_id = core (record c.source.remote { pending_commit = some commit_id })

  done-Committed :
      (stored : Stored) (begun frames version : ℕ) (commit_id : Bytes) (world : W)
      (dirty : List (ℕ × Bytes)) (c c' : State W V)
      → Serves stored c.pages
      → dirty_blocks c.pages ≡ some dirty
      → Steady (begin net ops platform commit_id world c) c'
      → broken_of c' ≡ broken_of c
      → Confirmed net ops platform
          (base_of c commit_id)
          c.source.client.inbox
          commit_id
          (pieces_of c commit_id dirty)
          version
      → Committed stored c (done net ops platform begun frames commit_id version c')
  unfolding begin
  done-Committed stored begun frames version commit_id world dirty c c' serves sent s same
        confirmed =
      let r = done-remote net ops platform begun frames version commit_id c' in
      record {
        commit_id = commit_id;
        dirty = dirty;
        sent = sent;
        confirmed = rw (ap (λ x. x.version) r) confirmed;
        last_commit_id = ap (λ x. x.last_commit_id) r;
        settled = ap (λ x. x.pending_commit) r;
        intact = ap (λ x. x.broken) r ∙ same;
        stores =
            Stores-along net ops platform stored
              (done net ops platform begun frames commit_id version c') s.pages s.copy
              (done-Stores net ops platform stored begun frames version commit_id c'
                (rw s.pages serves));
      }

  finish-end :
      (stored : Stored) (begun frames : ℕ) (commit_id : Bytes) (world : W)
      (dirty : List (ℕ × Bytes)) (c : State W V) (t : Task W V Broken ℕ)
      → Serves stored c.pages
      → broken_of c ≡ none
      → dirty_blocks c.pages ≡ some dirty
      → Ends
          (Told (begin net ops platform commit_id world c) (λ version.
            Confirmed net ops platform
              (base_of c commit_id)
              c.source.client.inbox
              commit_id
              (pieces_of c commit_id dirty)
              version))
          t
      → Ends (CommitEnd stored c) (finish net ops platform begun frames commit_id t)
  unfolding finish go_on begin
  finish-end stored begun frames commit_id world dirty c waits serves intact sent told = tt
  finish-end stored begun frames commit_id world dirty c spent serves intact sent told = tt
  finish-end stored begun frames commit_id world dirty c (ended (err b, c')) serves intact sent
        told =
      refused b c' intact (record {
        broken = told.1;
        pages = told.0.pages;
        copy = told.0.copy;
        version = ap (λ x. x.version) told.0.remote;
      })
  finish-end stored begun frames commit_id world dirty c (ended (ok version, c')) serves intact sent
        told =
      stored_all (done net ops platform begun frames commit_id version c') intact (
        done-Committed stored begun frames version commit_id world dirty c c' serves sent told.0
          told.1 told.2)

  -- A commit panics only where the platform gives no random bytes.
  abbrev pub NoRandom : State W V → Type 0
  NoRandom c = (platform.random c.source.client.world commit_id_bytes).0 ≡ none

  abbrev pub CommitResult : Stored → State W V → Option (Task W V Broken (Unit {0})) → Type 0
  CommitResult stored c o =
      ((o ≡ none) × NoRandom c)
      ⊎ ((t : Task W V Broken (Unit {0})) × (o ≡ some t) × Ends (CommitEnd stored c) t)

  begin-Since :
      (commit_id : Bytes) (world : W) (c : State W V)
      → Since net ops platform
          (base_of c commit_id)
          c.source.client.inbox
          (begin net ops platform commit_id world c)
  unfolding begin
  begin-Since commit_id world c = record { same = refl; left = Taken-refl c.source.client.inbox }

  with_commit_id-end :
      (stored : Stored) (fuel timeout : ℕ) (dirty : List (ℕ × Bytes)) (c : State W V)
      (o : Option Bytes × W)
      → (platform.random c.source.client.world commit_id_bytes).0 ≡ o.0
      → Serves stored c.pages
      → broken_of c ≡ none
      → dirty_blocks c.pages ≡ some dirty
      → CommitResult stored c (with_commit_id net ops platform fuel timeout dirty c o)
  unfolding with_commit_id
  with_commit_id-end stored fuel timeout dirty c (none, world) r serves intact e = inl (refl, r)
  with_commit_id-end stored fuel timeout dirty c (some commit_id, world) r serves intact e =
      let c' = begin net ops platform commit_id world c in
      let pieces = pieces_of c commit_id dirty in
      let deadline = now net ops platform c' + timeout in
      inr (
        _,
        refl,
        finish-end stored (now net ops platform c') (length pieces) commit_id world dirty c
            (commit_loop net ops platform fuel deadline commit_id pieces c') serves intact e
            (commit_loop-Told net ops platform (base_of c commit_id) c.source.client.inbox commit_id
              pieces fuel deadline c' (begin-Since commit_id world c)),
      )

  send_dirty-end :
      (stored : Stored) (fuel timeout : ℕ) (c : State W V)
      → Serves stored c.pages
      → broken_of c ≡ none
      → CommitResult stored c (send_dirty net ops platform fuel timeout (dirty_blocks c.pages) c)
  unfolding send_dirty
  send_dirty-end stored fuel timeout c serves intact =
      let (dirty, e, indexes, contents) = dirty_blocks-total stored c.pages serves in
      rw e (
        with_commit_id-end stored fuel timeout dirty c
          (platform.random c.source.client.world commit_id_bytes) refl serves intact e)

  stop-end :
      (stored : Stored) (b : Broken) (c : State W V)
      → broken_of c ≡ none
      → Ends (CommitEnd stored c) (stop b c)
  unfolding stop set_remote break_with
  stop-end stored b c intact =
      refused b _ intact (record { broken = refl; pages = refl; copy = refl; version = refl })

  commit_unless-end :
      (stored : Stored) (o : Option Broken) (fuel timeout : ℕ) (c : State W V)
      → broken_of c ≡ o
      → Serves stored c.pages
      → CommitResult stored c (commit_unless net ops platform o fuel timeout c)
  unfolding commit_unless
  commit_unless-end stored (some b) fuel timeout c e serves =
      inr (ended (err b, c), refl, already_broken b e)
  commit_unless-end stored none fuel timeout c e serves =
      let revoked = was_revoked c.source.client c.source.remote.db_id c.source.remote.lease_epoch in
      elim (Bool-cases (is_clean c.pages)) [
        | inl clean ↦
            inr (ended (ok tt, c), if_true (is_clean c.pages) _ _ clean, nothing_to_do clean)
        | inr changed ↦ rw (if_false (is_clean c.pages) _ _ changed) (elim (Bool-cases revoked) [
          | inl lost ↦
              inr
                (stop Broken.fenced c, if_true revoked _ _ lost, stop-end stored Broken.fenced c e)
          | inr held ↦
              rw (if_false revoked _ _ held) (send_dirty-end stored fuel timeout c serves e)
        ])
      ]

  -- A commit of a database whose state satisfies the invariant panics only where the platform gives
  -- no random bytes for its id. Where it ends, the database was broken already; or there was nothing
  -- to commit; or it failed, and the database is broken by the error, with its blocks, its local copy
  -- and its version as they were; or the server has confirmed the commit: either the socket has taken
  -- every part of it and the server has acknowledged the last one and refused none, or the server has
  -- answered a resume with the next version, made by this commit. Then the version and the commit id
  -- are those of the commit, the file is the one of before over a server that has applied the changed
  -- blocks, nothing is left to commit, and a local copy of the server's content before is one of its
  -- content now.
  pub commit_database-CommitEnd :
      (stored : Stored) (fuel timeout : ℕ) (c : State W V)
      → Serves stored c.pages
      → CommitResult stored c (commit_database net ops platform fuel timeout c)
  unfolding commit_database
  commit_database-CommitEnd stored fuel timeout c serves =
      commit_unless-end stored (broken_of c) fuel timeout c refl serves
