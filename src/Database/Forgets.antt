-- ===== src/Database/Forgets.antt =====
-- Healing a database forgets what is in memory (`heal` in crates/sqlite-remote-vfs/src/database.rs).
use sqlite_remote_vfs.Base.{
  ℕ, ◌≡◌, sym, ◌∙◌, inl, inr, not, ◌&&◌, ◌==◌, Option, none, some, List, Bool-cases, if_true,
  if_false, Result, ok, err,
}
use sqlite_remote_vfs.Proto
use sqlite_remote_vfs.Failure.{ClientError}
use sqlite_remote_vfs.Stats.{Stats}
use sqlite_remote_vfs.Pages.{Pages, Block, emptied}
use sqlite_remote_vfs.Client.{Network, Client}
use sqlite_remote_vfs.Remote.{Remote, broken_on, resume}
use sqlite_remote_vfs.Copy.{LocalStore}
use sqlite_remote_vfs.Database.{
  State, Platform, Task, ended, waits, spent, go_on, or_else, stop, set_remote, set_client,
  set_stats,
}
use sqlite_remote_vfs.Database.Fetch.{resume_state, resumed_state}
use sqlite_remote_vfs.Database.Open.{fill_opened}
use sqlite_remote_vfs.Database.Ops.{applied, refilled, at_server, healed_at, heal}

module _ {W V : Type 0} where
  -- The database with other blocks in memory, others of them changed, and another LRU clock.
  abbrev pub holding : List (ℕ × Block) → List ℕ → ℕ → State W V → State W V
  holding blocks dirty clock c = record c {
    pages = record c.pages { blocks = blocks; dirty = dirty; clock = clock };
  }

module _ {W V : Type 0} (net : Network W) (ops : LocalStore V) (platform : Platform W) where
  refilled_anyway :
      (old old' : Pages) (t : Task W V ClientError (Unit {0})) (c' : State W V)
      → refilled net ops platform old t ≡ ended (ok tt, c')
      → refilled net ops platform old' t ≡ ended (ok tt, c')
  unfolding refilled stop
  refilled_anyway old old' waits c' h = cc
  refilled_anyway old old' spent c' h = cc
  refilled_anyway old old' (ended (err e, x)) c' h = cc
  refilled_anyway old old' (ended (ok u, x)) c' h = h

  module _ (blocks : List (ℕ × Block)) (dirty : List ℕ) (clock : ℕ) where
    healed_at-forgets :
        (opened : Proto.Opened) (d c' : State W V)
        → healed_at net ops platform opened d ≡ ended (ok tt, c')
        → healed_at net ops platform opened (holding blocks dirty clock d) ≡ ended (ok tt, c')
    unfolding healed_at at_server emptied stop
    healed_at-forgets opened d c' h =
        let r = d.source.remote in
        let refuses = not (opened.version == r.version) && not (applied r opened) in
        elim (Bool-cases refuses) [
          | inl other ↦ cc (sym (if_true refuses _ _ other) ∙ h)
          | inr mine ↦
              if_false refuses _ _ mine
              ∙ refilled_anyway d.pages (holding blocks dirty clock d).pages
                  (fill_opened net ops platform
                    (at_server net ops platform (applied r opened) opened d))
                  c' (sym (if_false refuses _ _ mine) ∙ h)
        ]

    after_resume :
        (o : Option (Result ClientError Proto.Opened × Remote × Client W × Stats))
        (c c' : State W V)
        → go_on
            (or_else (resumed_state net ops platform c o) (λ e x. stop (broken_on e) x))
            (healed_at net ops platform)
          ≡ ended (ok tt, c')
        → go_on
            (or_else
              (resumed_state net ops platform (holding blocks dirty clock c) o)
              (λ e x. stop (broken_on e) x))
            (healed_at net ops platform)
          ≡ ended (ok tt, c')
    unfolding go_on or_else resumed_state stop set_remote set_client set_stats
    after_resume none c c' h = cc
    after_resume (some (err e, r, client, stats)) c c' h = cc
    after_resume (some (ok opened, r, client, stats)) c c' h = healed_at-forgets opened _ c' h

    -- A database that is healed ends in the same state whatever blocks it had in memory, changed or
    -- not: nothing of their content is left.
    pub heal-forgets :
        (c c' : State W V)
        → heal net ops platform c ≡ ended (ok tt, c')
        → heal net ops platform (holding blocks dirty clock c) ≡ ended (ok tt, c')
    unfolding heal resume_state
    heal-forgets c c' h =
        after_resume (resume net c.source.remote c.source.client c.pages.page_size c.stats) c c' h
