-- ===== src/Database/Confirmed.antt =====
-- A commit succeeds only when the server has confirmed it, and an error breaks the database and keeps
-- its changes (`commit` in crates/sqlite-remote-vfs/src/database.rs).
use sqlite_remote_vfs.Base.{
  ℕ, zero, suc, ◌+◌, ◌≡◌, refl, ◌∙◌, ap, inl, inr, Bool, true, false, not, ◌&&◌, Option, none, some,
  List, Result, ok, leb, ◌==◌, Bool-cases, if_true, if_false, ==→eq, u64, ok, err,
}
use sqlite_remote_vfs.Base.Bytes.{Bytes, bytes_eq, bytes_eq→eq}
use sqlite_remote_vfs.Proto
use sqlite_remote_vfs.Failure.{ClientError, Broken, Reason, is_fenced, is_transient}
use sqlite_remote_vfs.Stats.{Stats}
use sqlite_remote_vfs.Client.{Network, Client, Reply}
use sqlite_remote_vfs.Client.Listen
use sqlite_remote_vfs.Client.Acknowledged.{CommitDone, commit-CommitDone}
use sqlite_remote_vfs.Client.Heard.{Every, Taken, Taken-refl, Taken-trans}
use sqlite_remote_vfs.Client.Moves.{Received, any_time, commit-Received}
use sqlite_remote_vfs.Remote.{Remote, on_current_connection}
use sqlite_remote_vfs.Copy.{LocalStore}
use sqlite_remote_vfs.Database.{
  State, Platform, Task, ended, waits, spent, go_on, with_client, set_client, set_stats,
}
use sqlite_remote_vfs.Database.Fetch.{resume_state}
use sqlite_remote_vfs.Database.Commit.{
  resume_until, attempted, retry, gives_up, pause, same_version, connected, compared, lost, failed,
  answered, turn, turned, commit_loop, count_resent, now,
}
use sqlite_remote_vfs.Database.Ops.{diverged}
use sqlite_remote_vfs.Database.Steady.{
  Ends, core, broken_of, Steady, Steady-refl, Steady-trans, Told, Told-later, go_on-Told, stop-Told,
  FromServer, Resumed, resume_state-Resumed,
}

both : (a b : Bool) → (a && b) ≡ true → (a ≡ true) × (b ≡ true)
both true b e = (refl, e)
both false b e = cc

module _ {W V : Type 0} (net : Network W) (ops : LocalStore V) (platform : Platform W) where
  abbrev Served : Remote → List (Result Bytes Bytes) → Proto.Opened → Type 0
  Served = FromServer net ops platform

  -- The server side is still `base`, and the client has taken answers off `inbox` only.
  pub record Since (base : Remote) (inbox : List (Result Bytes Bytes)) (c : State W V)
      : Type 0 where
    pub same : core c.source.remote ≡ base
    pub left : Taken inbox c.source.client.inbox

  Since-Steady :
      {base : Remote} {inbox : List (Result Bytes Bytes)} {c d : State W V}
      → Steady c d
      → Since base inbox c
      → Since base inbox d
  Since-Steady s h = record { same = s.remote ∙ h.same; left = Taken-trans h.left s.left }

  Served-Since :
      (base : Remote) (inbox : List (Result Bytes Bytes)) (c : State W V) (opened : Proto.Opened)
      → Since base inbox c
      → Served (core c.source.remote) c.source.client.inbox opened
      → Served base inbox opened
  Served-Since base inbox c opened h f = record {
    asking = f.asking;
    same = f.same ∙ h.same;
    client = f.client;
    since = Taken-trans h.left f.since;
    page_size = f.page_size;
    left = f.left;
    answer = f.answer;
  }

  pause-Steady : (c : State W V) → Steady c (pause net ops platform c)
  unfolding pause set_client
  pause-Steady c = record {
    pages = refl;
    copy = refl;
    remote = refl;
    left = Taken-refl c.source.client.inbox;
  }

  count_resent-Steady : (c : State W V) → Steady c (count_resent net ops platform c)
  unfolding count_resent set_stats
  count_resent-Steady c = record {
    pages = refl;
    copy = refl;
    remote = refl;
    left = Taken-refl c.source.client.inbox;
  }

  pause-broken : (c : State W V) → broken_of (pause net ops platform c) ≡ broken_of c
  unfolding pause set_client
  pause-broken c = refl

  count_resent-broken : (c : State W V) → broken_of (count_resent net ops platform c) ≡ broken_of c
  unfolding count_resent set_stats
  count_resent-broken c = refl

  client-Steady :
      (c : State W V) (client : Client W)
      → Taken c.source.client.inbox client.inbox
      → Steady c (set_client c client)
  unfolding set_client
  client-Steady c client t = record { pages = refl; copy = refl; remote = refl; left = t }

  counted-Steady : (c : State W V) (stats : Stats) → Steady c (set_stats c stats)
  unfolding set_stats
  counted-Steady c stats = record {
    pages = refl;
    copy = refl;
    remote = refl;
    left = Taken-refl c.source.client.inbox;
  }

  module _ (base : Remote) (inbox : List (Result Bytes Bytes)) where
    retry-Told :
        (again : State W V → Task W V Broken Proto.Opened) (o : Option Broken) (c : State W V)
        → Since base inbox c
        → ((d : State W V) → Since base inbox d → Ends (Told d (Served base inbox)) (again d))
        → Ends (Told c (Served base inbox)) (retry net ops platform again o c)
    unfolding retry
    retry-Told again (some b) c same h = stop-Told (Served base inbox) c b
    retry-Told again none c same h =
        let s = pause-Steady c in
        Told-later (Served base inbox) c (pause net ops platform c)
          (again (pause net ops platform c)) s (pause-broken c)
          (h (pause net ops platform c) (Since-Steady s same))

    attempted-Told :
        (again : State W V → Task W V Broken Proto.Opened) (deadline : ℕ) (c : State W V)
        (t : Task W V ClientError Proto.Opened)
        → Since base inbox c
        → Ends (Resumed net ops platform c) t
        → ((d : State W V) → Since base inbox d → Ends (Told d (Served base inbox)) (again d))
        → Ends (Told c (Served base inbox)) (attempted net ops platform again deadline t)
    unfolding attempted
    attempted-Told again deadline c waits same r h = tt
    attempted-Told again deadline c spent same r h = tt
    attempted-Told again deadline c (ended (ok opened, c')) same r h =
        (r.0, r.1, Served-Since base inbox c opened same r.2)
    attempted-Told again deadline c (ended (err e, c')) same r h =
        Told-later (Served base inbox) c c'
          (retry net ops platform again (gives_up net ops platform e deadline c') c') r.0 r.1
          (retry-Told again (gives_up net ops platform e deadline c') c' (Since-Steady r.0 same) h)

    resume_until-Told :
        (fuel deadline : ℕ) (c : State W V)
        → Since base inbox c
        → Ends (Told c (Served base inbox)) (resume_until net ops platform fuel deadline c)
    unfolding resume_until
    resume_until-Told zero deadline c same = tt
    resume_until-Told (suc fuel) deadline c same =
        attempted-Told (λ c'. resume_until net ops platform fuel deadline c') deadline c
          (resume_state net ops platform c) same (resume_state-Resumed net ops platform c)
          (λ d e. resume_until-Told fuel deadline d e)

  -- That the server has the commit, at a version: every part was put on the socket and the server has
  -- acknowledged the last one and refused none; or it has said, when the database was resumed, that
  -- this commit took it to the next version.
  pub data Confirmed (base : Remote) (inbox : List (Result Bytes Bytes)) (commit_id : Bytes)
      (pieces : List Proto.Commit) (version : ℕ) : Type 0 where
    acked :
        (client client' : Client W)
        → Taken inbox client.inbox
        → CommitDone net client pieces version client'
        → Confirmed base inbox commit_id pieces version
    recovered :
        (opened : Proto.Opened)
        → Served base inbox opened
        → opened.version ≡ u64 (base.version + 1)
        → opened.last_commit_id ≡ commit_id
        → version ≡ opened.version
        → Confirmed base inbox commit_id pieces version

  module _ (base : Remote) (inbox : List (Result Bytes Bytes)) (commit_id : Bytes)
      (pieces : List Proto.Commit) where
    abbrev Sure : Option ℕ → Type 0
    Sure none = Unit
    Sure (some version) = Confirmed base inbox commit_id pieces version

    abbrev AnyUnit : Unit {0} → Type 0
    AnyUnit a = Unit

    same_version-Told :
        (opened : Proto.Opened) (c : State W V)
        → Ends (Told c AnyUnit) (same_version net ops platform opened c)
    unfolding same_version
    same_version-Told opened c = elim (Bool-cases (opened.version == c.source.remote.version)) [
      | inl same ↦
          rw (if_true (opened.version == c.source.remote.version) _ _ same)
            (Steady-refl c, refl, tt)
      | inr other ↦
          rw (if_false (opened.version == c.source.remote.version) _ _ other)
            (stop-Told AnyUnit c (diverged c.source.remote opened))
    ]

    connected-Told :
        (fuel deadline : ℕ) (c : State W V)
        → Since base inbox c
        → Ends (Told c AnyUnit) (connected net ops platform fuel deadline c)
    unfolding connected
    connected-Told fuel deadline c same =
        let on = on_current_connection net c.source.remote c.source.client in
        elim (Bool-cases on) [
          | inl yes_on ↦ rw (if_true on _ _ yes_on) (Steady-refl c, refl, tt)
          | inr off ↦ rw (if_false on _ _ off) (
              go_on-Told (Served base inbox) AnyUnit c
                (resume_until net ops platform fuel deadline c) (same_version net ops platform)
                (resume_until-Told base inbox fuel deadline c same)
                (λ opened c' s served. same_version-Told opened c'))
        ]

    compared-Told :
        (opened : Proto.Opened) (c : State W V)
        → Since base inbox c
        → Served base inbox opened
        → Ends (Told c Sure) (compared net ops platform commit_id opened c)
    unfolding compared set_stats
    compared-Told opened c same served =
        let r = c.source.remote in
        let next = opened.version == u64 (r.version + 1) in
        let id = bytes_eq opened.last_commit_id commit_id in
        let known = opened.version == r.version in
        elim (Bool-cases (next && id)) [
          | inl applied ↦
              let (at_next, same_id) = both next id applied in
              let version = ap (λ x. x.version) same.same in
              rw (if_true (next && id) _ _ applied) (
                counted-Steady c _,
                refl,
                Confirmed.recovered opened served
                    (==→eq opened.version (u64 (r.version + 1)) at_next
                      ∙ ap (λ v. u64 (v + 1)) version)
                    (bytes_eq→eq opened.last_commit_id commit_id same_id) refl,
              )
          | inr missing ↦ rw (if_false (next && id) _ _ missing) (elim (Bool-cases known) [
            | inl equal ↦
                rw (if_false (not known) _ _ (ap not equal))
                  (count_resent-Steady c, count_resent-broken c, tt)
            | inr other ↦
                rw (if_true (not known) _ _ (ap not other)) (stop-Told Sure c (diverged r opened))
          ])
        ]

    resumed_then :
        (fuel deadline : ℕ) (c : State W V)
        → Since base inbox c
        → Ends (Told c Sure) (
            go_on
              (resume_until net ops platform fuel deadline c)
              (compared net ops platform commit_id))
    resumed_then fuel deadline c same =
        go_on-Told (Served base inbox) Sure c (resume_until net ops platform fuel deadline c)
          (compared net ops platform commit_id) (resume_until-Told base inbox fuel deadline c same)
          (λ opened c' s served. compared-Told opened c' (Since-Steady s same) served)

    lost-Told :
        (fuel deadline : ℕ) (e : ClientError) (c : State W V)
        → Since base inbox c
        → Ends (Told c Sure) (lost net ops platform fuel deadline commit_id e c)
    unfolding lost
    lost-Told fuel deadline (ClientError.server e) c same = stop-Told Sure c _
    lost-Told fuel deadline (ClientError.transport reason) c same =
        resumed_then fuel deadline c same
    lost-Told fuel deadline (ClientError.protocol complaint) c same =
        resumed_then fuel deadline c same
    lost-Told fuel deadline (ClientError.token reason) c same = resumed_then fuel deadline c same

    failed-Told :
        (fuel deadline : ℕ) (e : ClientError) (c : State W V)
        → Since base inbox c
        → Ends (Told c Sure) (failed net ops platform fuel deadline commit_id e c)
    unfolding failed
    failed-Told fuel deadline e c same = elim (Bool-cases (is_fenced e)) [
      | inl fenced ↦ rw (if_true (is_fenced e) _ _ fenced) (stop-Told Sure c Broken.fenced)
      | inr not_fenced ↦
          rw (if_false (is_fenced e) _ _ not_fenced) (elim (Bool-cases (is_transient e)) [
            | inl transient ↦
                rw (if_true (is_transient e) _ _ transient)
                  (elim (Bool-cases (leb deadline (now net ops platform c))) [
                    | inl late ↦
                        rw (if_true (leb deadline (now net ops platform c)) _ _ late)
                          (stop-Told Sure c (Broken.uncertain (Reason.failed_commit e)))
                    | inr early ↦ rw (if_false (leb deadline (now net ops platform c)) _ _ early) (
                      Steady-trans (pause-Steady c)
                          (count_resent-Steady (pause net ops platform c)),
                      count_resent-broken (pause net ops platform c) ∙ pause-broken c,
                      tt,
                    )
                  ])
            | inr permanent ↦
                rw (if_false (is_transient e) _ _ permanent) (lost-Told fuel deadline e c same)
          ])
    ]

    answered-Told :
        (fuel deadline : ℕ) (c : State W V) (o : Option (Reply W ℕ))
        → Since base inbox c
        → Listen.commit net c.source.client pieces ≡ o
        → Every (Received (any_time net) c.source.client) o
        → Ends (Told c Sure) (answered net ops platform fuel deadline commit_id (with_client c o))
    unfolding answered with_client set_client
    answered-Told fuel deadline c none same e got = tt
    answered-Told fuel deadline c (some (ok version, client)) same e got = (
      client-Steady c client got.moves.left,
      refl,
      Confirmed.acked c.source.client client same.left
          (commit-CommitDone net c.source.client client pieces version e),
    )
    answered-Told fuel deadline c (some (err x, client)) same e got =
        Told-later Sure c (set_client c client)
          (failed net ops platform fuel deadline commit_id x (set_client c client))
          (client-Steady c client got.moves.left) refl
          (failed-Told fuel deadline x (set_client c client)
            (Since-Steady (client-Steady c client got.moves.left) same))

    turn-Told :
        (fuel deadline : ℕ) (c : State W V)
        → Since base inbox c
        → Ends (Told c Sure) (turn net ops platform fuel deadline commit_id pieces c)
    unfolding turn
    turn-Told fuel deadline c same =
        go_on-Told AnyUnit Sure c (connected net ops platform fuel deadline c) _
          (connected-Told fuel deadline c same)
          (λ u c' s any.
            answered-Told fuel deadline c' (Listen.commit net c'.source.client pieces)
              (Since-Steady s same) refl (commit-Received (any_time net) c'.source.client pieces))

    abbrev Sent : ℕ → Type 0
    Sent version = Confirmed base inbox commit_id pieces version

    turned-Told :
        (again : State W V → Task W V Broken ℕ) (c : State W V) (t : Task W V Broken (Option ℕ))
        → Since base inbox c
        → Ends (Told c Sure) t
        → ((d : State W V) → Since base inbox d → Ends (Told d Sent) (again d))
        → Ends (Told c Sent) (turned net ops platform again t)
    unfolding turned
    turned-Told again c waits same h rest = tt
    turned-Told again c spent same h rest = tt
    turned-Told again c (ended (err b, c')) same h rest = h
    turned-Told again c (ended (ok (some version), c')) same h rest = h
    turned-Told again c (ended (ok none, c')) same h rest =
        Told-later Sent c c' (again c') h.0 h.1 (rest c' (Since-Steady h.0 same))

    pub commit_loop-Told :
        (fuel deadline : ℕ) (c : State W V)
        → Since base inbox c
        → Ends (Told c Sent) (commit_loop net ops platform fuel deadline commit_id pieces c)
    unfolding commit_loop
    commit_loop-Told zero deadline c same = tt
    commit_loop-Told (suc fuel) deadline c same =
        turned-Told (λ c'. commit_loop net ops platform fuel deadline commit_id pieces c') c
          (turn net ops platform (suc fuel) deadline commit_id pieces c) same
          (turn-Told (suc fuel) deadline c same) (λ d e. commit_loop-Told fuel deadline d e)
