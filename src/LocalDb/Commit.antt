-- ===== src/LocalDb/Commit.antt =====
-- Committing a database that is kept in the browser, and what happens once it is broken
-- (crates/sqlite-remote-vfs/src/local_database.rs).
use sqlite_remote_vfs.Base.{
  ℕ, ◌-◌, ◌≡◌, refl, ◌∙◌, inl, inr, true, Option, none, some, List, Bool-cases, length, Result, ok,
  err, map, All,
}
use sqlite_remote_vfs.Base.Bytes.{Bytes}
use sqlite_remote_vfs.Failure.{Broken, Refusal}
use sqlite_remote_vfs.Pages.{block, is_clean, dirty_blocks, committed}
use sqlite_remote_vfs.Pages.Load.{Ctx, Outcome, room, set_held, map_pages}
use sqlite_remote_vfs.Pages.View.{Stored, content, Serves, Keeps-Moved}
use sqlite_remote_vfs.Pages.Evict.{make_room-Moved}
use sqlite_remote_vfs.Pages.Changes.{
  index, applied, dirty_blocks-total, is_clean_same, committed-Committed,
}
use sqlite_remote_vfs.LocalDb.{Bridge, Link, refused_commit, set_bridge, set_broken}
use sqlite_remote_vfs.LocalDb.Ops.{counted, after_commit, send_blocks, commit_unless, local_commit}

module _ {S : Type 0} (bridge : Bridge S) where
  -- The worker was asked to commit exactly the dirty blocks, under the epoch of the opening, and
  -- answered `r`.
  pub record Asked (c : Ctx (Link S)) (r : Result Refusal (Unit {0})) : Type 0 where
    pub blocks : List (ℕ × Bytes)
    pub indexes : map index blocks ≡ c.pages.dirty
    pub contents : All (λ e. block c.pages e.0 ≡ some e.1) blocks
    pub answer :
        (bridge.write_blocks c.source.bridge c.source.epoch c.pages.page_count blocks).0 ≡ r

  -- A commit that the worker refused.
  pub record Refused (c : Ctx (Link S)) (o : Outcome (Link S) (Unit {0})) : Type 0 where
    pub refusal : Refusal
    pub asked : Asked c (err refusal)
    pub result : o.0 ≡ err (refused_commit refusal)
    pub broken : o.1.source.broken ≡ some (refused_commit refusal)
    -- All changes are still there.
    pub pages : o.1.pages ≡ c.pages

  -- A commit that the worker carried out: its store has the dirty blocks.
  pub record Done (stored : Stored) (c : Ctx (Link S)) (o : Outcome (Link S) (Unit {0}))
      : Type 0 where
    pub asked : Asked c (ok tt)
    pub result : o.0 ≡ ok tt
    pub intact : o.1.source.broken ≡ c.source.broken
    pub serves : Serves (applied stored c.pages) o.1.pages
    pub clean : is_clean o.1.pages ≡ true
    pub page_count : o.1.pages.page_count ≡ c.pages.page_count
    pub contents : (i : ℕ) → content (applied stored c.pages) o.1.pages i ≡ content stored c.pages i

  -- How a commit ends.
  pub data CommitEnd (stored : Stored) (c : Ctx (Link S)) (o : Outcome (Link S) (Unit {0}))
      : Type 0 where
    already_broken : (b : Broken) → c.source.broken ≡ some b → o ≡ (err b, c) → CommitEnd stored c o
    nothing_to_do : is_clean c.pages ≡ true → o ≡ (ok tt, c) → CommitEnd stored c o
    refused : Refused c o → CommitEnd stored c o
    done : Done stored c o → CommitEnd stored c o

  after_commit-Done :
      (stored : Stored) (c : Ctx (Link S)) (s : S) (started count : ℕ)
      → Serves stored c.pages
      → Asked c (ok tt)
      → Done stored c (after_commit bridge (ok tt) (set_bridge c s) started count)
  unfolding after_commit set_bridge set_held map_pages room
  after_commit-Done stored c s started count serves asked =
      let after = committed-Committed stored c.pages serves in
      let stats = counted bridge c.stats count c.pages.page_size (bridge.now s - started) in
      let k =
        Keeps-Moved (applied stored c.pages) (committed c.pages).1 _ after.serves
          (make_room-Moved (applied stored c.pages) (committed c.pages).1 0 stats after.serves) in
      record {
        asked = asked;
        result = refl;
        intact = refl;
        serves = k.serves;
        clean = is_clean_same k.settings ∙ after.clean;
        page_count = k.settings.page_count ∙ after.page_count;
        contents = λ i. k.contents i ∙ after.contents i;
      }

  after_commit-end :
      (stored : Stored) (r : Result Refusal (Unit {0})) (c : Ctx (Link S)) (s : S)
      (started count : ℕ)
      → Serves stored c.pages
      → Asked c r
      → CommitEnd stored c (after_commit bridge r (set_bridge c s) started count)
  unfolding after_commit set_bridge set_broken
  after_commit-end stored (err refusal) c s started count serves asked =
      CommitEnd.refused
        (record { refusal = refusal; asked = asked; result = refl; broken = refl; pages = refl })
  after_commit-end stored (ok u) c s started count serves asked =
      CommitEnd.done (after_commit-Done stored c s started count serves asked)

  send_blocks-end :
      (stored : Stored) (c : Ctx (Link S))
      → Serves stored c.pages
      → (o : Outcome (Link S) (Unit {0})) × (send_blocks bridge (dirty_blocks c.pages) c ≡ some o)
        × CommitEnd stored c o
  unfolding send_blocks
  send_blocks-end stored c serves =
      let (blocks, e, indexes, contents) = dirty_blocks-total stored c.pages serves in
      let answer = bridge.write_blocks c.source.bridge c.source.epoch c.pages.page_count blocks in
      rw e (
        after_commit bridge answer.0 (set_bridge c answer.1) (bridge.now c.source.bridge)
            (length blocks),
        refl,
        after_commit-end stored answer.0 c answer.1 (bridge.now c.source.bridge) (length blocks)
            serves
            (record { blocks = blocks; indexes = indexes; contents = contents; answer = refl }),
      )

  commit_unless-end :
      (stored : Stored) (b : Option Broken) (c : Ctx (Link S))
      → c.source.broken ≡ b
      → Serves stored c.pages
      → (o : Outcome (Link S) (Unit {0})) × (commit_unless bridge b c ≡ some o)
        × CommitEnd stored c o
  unfolding commit_unless
  commit_unless-end stored (some b) c e serves =
      ((err b, c), refl, CommitEnd.already_broken b e refl)
  commit_unless-end stored none c e serves = elim (Bool-cases (is_clean c.pages)) [
    | inl clean ↦ rw clean ((ok tt, c), refl, CommitEnd.nothing_to_do clean refl)
    | inr changed ↦ rw changed (send_blocks-end stored c serves)
  ]

  -- `commit` does not panic, and ends in one of four ways. A broken database answers with the reason
  -- and stays as it is. Without changes nothing is sent. Otherwise the worker gets exactly the dirty
  -- blocks: if it refuses, the database is broken and all changes are still there; if it does not,
  -- there is nothing left to commit, and over the new store the file is the same.
  pub local_commit-ends :
      (stored : Stored) (c : Ctx (Link S))
      → Serves stored c.pages
      → (o : Outcome (Link S) (Unit {0})) × (local_commit bridge c ≡ some o) × CommitEnd stored c o
  unfolding local_commit
  local_commit-ends stored c serves = commit_unless-end stored c.source.broken c refl serves
