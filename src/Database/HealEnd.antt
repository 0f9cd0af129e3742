-- ===== src/Database/HealEnd.antt =====
-- How healing a database ends (`heal` in crates/sqlite-remote-vfs/src/database.rs).
use sqlite_remote_vfs.Base.{
  ℕ, ◌+◌, ◌≡◌, refl, sym, ◌∙◌, ap, ◌⊎◌, inl, inr, Bool, true, false, not, ◌&&◌, ◌==◌, Option, none,
  some, Bool-cases, if_true, if_false, ==→eq, u64, Result, ok, err, true_not_false,
}
use sqlite_remote_vfs.Base.Bytes.{Bytes, bytes_eq→eq}
use sqlite_remote_vfs.Proto
use sqlite_remote_vfs.Failure.{ClientError, Broken}
use sqlite_remote_vfs.Pages.{Pages, is_clean, emptied, init}
use sqlite_remote_vfs.Pages.Changes.{is_clean_same}
use sqlite_remote_vfs.Client.{Network}
use sqlite_remote_vfs.Remote.{Remote, broken_on}
use sqlite_remote_vfs.Copy.{LocalStore}
use sqlite_remote_vfs.Database.{
  State, Platform, Task, ended, waits, spent, go_on, or_else, stop, set_remote, set_stats,
}
use sqlite_remote_vfs.Database.Fetch.{resume_state}
use sqlite_remote_vfs.Database.Open.{fill_opened}
use sqlite_remote_vfs.Database.Ops.{
  applied, is_pending, diverged, refilled, at_server, healed_at, heal,
}
use sqlite_remote_vfs.Database.Steady.{
  Ends, core, broken_of, FromServer, Resumed, resume_state-Resumed,
}
use sqlite_remote_vfs.Database.Loads.{fill_opened-Leaves, Leaves}

-- What the server's version says of the pending commit: there is no new version, or the pending
-- commit is what made the next one.
abbrev pub Explained : Remote → Proto.Opened → Type 0
Explained r opened =
    (opened.version ≡ r.version)
    ⊎ ((opened.version ≡ u64 (r.version + 1)) × (r.pending_commit ≡ some opened.last_commit_id))

is_pending→eq : (o : Option Bytes) (id : Bytes) → is_pending o id ≡ true → o ≡ some id
unfolding is_pending
is_pending→eq none id e = cc
is_pending→eq (some pending) id e = ap some (bytes_eq→eq pending id e)

both : (a b : Bool) → (a && b) ≡ true → (a ≡ true) × (b ≡ true)
both true b e = (refl, e)
both false b e = cc

applied-Explained :
    (r : Remote) (opened : Proto.Opened) → applied r opened ≡ true → Explained r opened
unfolding applied
applied-Explained r opened e =
    let (next, pending) = both _ _ e in
    inr (
      ==→eq opened.version (u64 (r.version + 1)) next,
      is_pending→eq r.pending_commit opened.last_commit_id pending,
    )

-- Where the test of `heal` does not refuse the server's version.
neither : (a b : Bool) → (not a && not b) ≡ false → (a ≡ true) ⊎ (b ≡ true)
neither true b e = inl refl
neither false true e = inr refl
neither false false e = absurd (true_not_false e)

test-Explained :
    (r : Remote) (opened : Proto.Opened)
    → (not (opened.version == r.version) && not (applied r opened)) ≡ false
    → Explained r opened
test-Explained r opened e = elim (neither (opened.version == r.version) (applied r opened) e) [
  | inl same ↦ inl (==→eq opened.version r.version same)
  | inr mine ↦ applied-Explained r opened mine
]

module _ {W V : Type 0} (net : Network W) (ops : LocalStore V) (platform : Platform W) where
  -- The blocks `pages` are what filling a database gives that starts with no block in memory and the
  -- page count of the server.
  pub record Refilled (old : Pages) (page_count : ℕ) (pages : Pages) : Type 0 where
    pub start : State W V
    pub none_held : start.pages ≡ init old.page_size page_count old.blocks_per_fetch old.cap
    pub end : State W V
    pub filled : fill_opened net ops platform start ≡ ended (ok tt, end)
    pub pages_are : pages ≡ end.pages

  -- A database that was healed: it is at the version of the server, which the pending commit explains,
  -- and its blocks were loaded anew.
  pub record Healed (c c' : State W V) : Type 0 where
    pub opened : Proto.Opened
    pub answer : FromServer net ops platform (core c.source.remote) c.source.client.inbox opened
    pub explained : Explained c.source.remote opened
    pub version : c'.source.remote.version ≡ opened.version
    pub last_commit_id : c'.source.remote.last_commit_id ≡ opened.last_commit_id
    pub settled : c'.source.remote.pending_commit ≡ none
    pub intact : broken_of c' ≡ none
    pub clean : is_clean c'.pages ≡ true
    pub page_count : c'.pages.page_count ≡ opened.page_count
    pub loaded_anew : Refilled c.pages opened.page_count c'.pages
    pub stable_page_count : c'.pages.stable_page_count ≡ opened.page_count

  -- How healing ends. On an error the database stays broken, with its blocks.
  abbrev pub HealEnd : State W V → Result Broken (Unit {0}) × State W V → Type 0
  HealEnd c (err b, c') = (c'.pages ≡ c.pages) × (broken_of c' ≡ some b)
  HealEnd c (ok u, c') = Healed c c'

  refilled-end :
      (c d : State W V) (opened : Proto.Opened) (t : Task W V ClientError (Unit {0}))
      (recovered : Bool)
      → d.pages ≡ c.pages
      → FromServer net ops platform (core c.source.remote) c.source.client.inbox opened
      → Explained c.source.remote opened
      → Leaves (at_server net ops platform recovered opened d) t
      → fill_opened net ops platform (at_server net ops platform recovered opened d) ≡ t
      → Ends (HealEnd c) (refilled net ops platform d.pages t)
  unfolding refilled at_server emptied init stop set_remote set_stats is_clean
  refilled-end c d opened waits recovered same answer explained l e = tt
  refilled-end c d opened spent recovered same answer explained l e = tt
  refilled-end c d opened (ended (err e, x)) recovered same answer explained l e' = (same, refl)
  refilled-end c d opened (ended (ok u, x)) recovered same answer explained l e = record {
    opened = opened;
    answer = answer;
    explained = explained;
    version = ap (λ r. r.version) l.remote;
    last_commit_id = ap (λ r. r.last_commit_id) l.remote;
    settled = ap (λ r. r.pending_commit) l.remote;
    intact = refl;
    clean = is_clean_same l.settings;
    page_count = l.settings.page_count;
    loaded_anew = record {
      start = at_server net ops platform recovered opened d;
      none_held = ap (λ p. init p.page_size opened.page_count p.blocks_per_fetch p.cap) same;
      end = x;
      filled = e;
      pages_are = refl;
    };
    stable_page_count = l.settings.stable_page_count;
  }

  stop-HealEnd : (c d : State W V) (b : Broken) → d.pages ≡ c.pages → Ends (HealEnd c) (stop b d)
  unfolding stop set_remote
  stop-HealEnd c d b same = (same, refl)

  Explained-along :
      (r r' : Remote) (opened : Proto.Opened)
      → r.version ≡ r'.version
      → r.pending_commit ≡ r'.pending_commit
      → Explained r opened
      → Explained r' opened
  Explained-along r r' opened v p (inl same) = inl (same ∙ v)
  Explained-along r r' opened v p (inr mine) =
      inr (mine.0 ∙ ap (λ n. u64 (n + 1)) v, sym p ∙ mine.1)

  stop_first :
      (c d : State W V) (b : Broken)
      → d.pages ≡ c.pages
      → Ends (HealEnd c) (go_on (stop b d) (healed_at net ops platform))
  unfolding stop set_remote go_on
  stop_first c d b same = (same, refl)

  healed_at-end :
      (opened : Proto.Opened) (c d : State W V)
      → d.pages ≡ c.pages
      → core d.source.remote ≡ core c.source.remote
      → FromServer net ops platform (core c.source.remote) c.source.client.inbox opened
      → Ends (HealEnd c) (healed_at net ops platform opened d)
  unfolding healed_at
  healed_at-end opened c d same kept answer =
      let r = d.source.remote in
      let refuses = not (opened.version == r.version) && not (applied r opened) in
      elim (Bool-cases refuses) [
        | inl other ↦ rw (if_true refuses _ _ other) (stop-HealEnd c d (diverged r opened) same)
        | inr mine ↦ rw (if_false refuses _ _ mine) (
            refilled-end c d opened
              (fill_opened net ops platform
                (at_server net ops platform (applied r opened) opened d))
              (applied r opened) same answer
              (Explained-along r c.source.remote opened (ap (λ x. x.version) kept)
                (ap (λ x. x.pending_commit) kept) (test-Explained r opened mine))
              (fill_opened-Leaves net ops platform
                (at_server net ops platform (applied r opened) opened d))
              refl)
      ]

  heal_after :
      (c : State W V) (t : Task W V ClientError Proto.Opened)
      → Ends (Resumed net ops platform c) t
      → Ends
          (HealEnd c)
          (go_on (or_else t (λ e c'. stop (broken_on e) c')) (healed_at net ops platform))
  unfolding go_on or_else
  heal_after c waits h = tt
  heal_after c spent h = tt
  heal_after c (ended (err e, c')) h = stop_first c c' (broken_on e) h.0.pages
  heal_after c (ended (ok opened, c')) h = healed_at-end opened c c' h.0.pages h.0.remote h.2

  -- Healing that fails leaves the blocks, and a database that is broken by the error. Healing that
  -- succeeds has the version and the commit id that the server answered to a resume, its only answer: the version of
  -- before, or the next one made by the pending commit. No commit is pending, the database has as many
  -- blocks as the server says, and none is changed. The blocks in memory are those that filling the
  -- database gave that started with none: no content of before is left.
  pub heal-HealEnd : (c : State W V) → Ends (HealEnd c) (heal net ops platform c)
  unfolding heal
  heal-HealEnd c =
      heal_after c (resume_state net ops platform c) (resume_state-Resumed net ops platform c)
