-- ===== src/Database/Terminates.antt =====
-- The loop of a commit ends (`commit` in crates/sqlite-remote-vfs/src/database.rs): each turn that
-- sends the commit again has taken an answer off the inbox.
use sqlite_remote_vfs.Base.{
  ℕ, zero, suc, ◌+◌, ◌*◌, ◌/◌, ◌≤◌, ◌<◌, ◌≡◌, ◌≢◌, refl, sym, ◌∙◌, ap, inl, inr, true, not, ◌&&◌,
  ◌==◌, Option, none, some, List, leb, length, u64, Result, ok, err, Bool-cases, if_true, if_false,
  arith,
}
use sqlite_remote_vfs.Base.Bytes.{Bytes, bytes_eq}
use sqlite_remote_vfs.Proto
use sqlite_remote_vfs.Failure.{ClientError, Broken, is_fenced, is_transient}
use sqlite_remote_vfs.Pages.{is_clean, dirty_blocks}
use sqlite_remote_vfs.Client.{Network, Reply, was_revoked}
use sqlite_remote_vfs.Client.Listen
use sqlite_remote_vfs.Client.Answers.{is_server}
use sqlite_remote_vfs.Client.Heard.{Every}
use sqlite_remote_vfs.Client.Moves.{Forward, Received, Moves-refl, Moves-trans, commit-Received}
use sqlite_remote_vfs.Remote.{parts, on_current_connection}
use sqlite_remote_vfs.Copy.{LocalStore}
use sqlite_remote_vfs.Database.{
  State, Platform, Task, ended, waits, spent, go_on, stop, with_client, set_client, set_stats,
}
use sqlite_remote_vfs.Database.Commit.{
  resume_until, same_version, connected, compared, lost, failed, answered, turn, turned,
  commit_loop, count_resent, now, reconnect_pause, commit_database, commit_unless, send_dirty,
  with_commit_id, finish, begin, commit_id_bytes,
}
use sqlite_remote_vfs.Database.Enough.{
  Finishes, Sleeps, Later, Goes, Shrinks, Attempt, pause-Goes, resume_until-Attempt, now_later,
}

transient_server : (e : ClientError) → is_transient e ≡ true → is_server e ≡ true
unfolding is_transient
transient_server (ClientError.server e) h = refl
transient_server (ClientError.transport reason) h = cc
transient_server (ClientError.protocol complaint) h = cc
transient_server (ClientError.token reason) h = cc

some_inj : {A : Type 0} {a b : A} → Path (Option A) (some a) (some b) → a ≡ b
some_inj e = cc

module _ {W V : Type 0} {net : Network W} (forward : Forward net (Later net)) (ops : LocalStore V)
    (platform : Platform W) (sleeps : Sleeps net platform) where
  -- A success has the property `Q`.
  abbrev OnOk : {A : Type 0} → (A → State W V → Type 0) → Result Broken A × State W V → Type 0
  OnOk Q (ok a, d) = Q a d
  OnOk Q (err b, d) = Unit

  go_on-Finishes :
      {A B : Type 0} (R : A → State W V → Type 0) (Q : B → State W V → Type 0)
      (t : Task W V Broken A) (next : A → State W V → Task W V Broken B)
      → Finishes (OnOk R) t
      → ((a : A) (d : State W V) → R a d → Finishes (OnOk Q) (next a d))
      → Finishes (OnOk Q) (go_on t next)
  unfolding go_on
  go_on-Finishes R Q waits next h after = tt
  go_on-Finishes R Q spent next h after = h
  go_on-Finishes R Q (ended (ok a, d)) next h after = after a d h
  go_on-Finishes R Q (ended (err b, d)) next h after = tt

  stop-Finishes :
      {A : Type 0} (Q : A → State W V → Type 0) (b : Broken) (c : State W V)
      → Finishes (OnOk Q) (stop {A = A} b c)
  unfolding stop
  stop-Finishes Q b c = tt

  abbrev After : State W V → Unit {0} → State W V → Type 0
  After c u d = Goes forward ops platform c d

  abbrev Resumes : State W V → Proto.Opened → State W V → Type 0
  Resumes c opened d = Shrinks forward ops platform c d

  -- A turn that sends the commit again has received something.
  abbrev Again : State W V → Option ℕ → State W V → Type 0
  Again c none d = Shrinks forward ops platform c d
  Again c (some version) d = Unit

  Attempt-Resumes :
      (c : State W V) (t : Task W V Broken Proto.Opened)
      → Finishes (Attempt forward ops platform c) t
      → Finishes (OnOk (Resumes c)) t
  Attempt-Resumes c waits h = tt
  Attempt-Resumes c spent h = h
  Attempt-Resumes c (ended (ok opened, d)) h = h
  Attempt-Resumes c (ended (err b, d)) h = tt

  resume_until-Resumes :
      (fuel deadline : ℕ) (c : State W V)
      → deadline ≤ now net ops platform c + fuel * reconnect_pause
      → Finishes (OnOk (Resumes c)) (resume_until net ops platform (suc fuel) deadline c)
  resume_until-Resumes fuel deadline c enough =
      Attempt-Resumes c (resume_until net ops platform (suc fuel) deadline c)
        (resume_until-Attempt forward ops platform sleeps fuel deadline c enough)

  same_version-After :
      (c : State W V) (opened : Proto.Opened) (d : State W V)
      → Goes forward ops platform c d
      → Finishes (OnOk (After c)) (same_version net ops platform opened d)
  unfolding same_version stop
  same_version-After c opened d m =
      let same = opened.version == d.source.remote.version in
      elim (Bool-cases same) [
        | inl yes_same ↦ rw (if_true same _ _ yes_same) m
        | inr other ↦ rw (if_false same _ _ other) tt
      ]

  connected-After :
      (fuel deadline : ℕ) (c : State W V)
      → deadline ≤ now net ops platform c + fuel * reconnect_pause
      → Finishes (OnOk (After c)) (connected net ops platform (suc fuel) deadline c)
  unfolding connected
  connected-After fuel deadline c enough =
      let on = on_current_connection net c.source.remote c.source.client in
      elim (Bool-cases on) [
        | inl yes_on ↦ rw (if_true on _ _ yes_on) (Moves-refl forward c.source.client)
        | inr off ↦ rw (if_false on _ _ off) (
            go_on-Finishes (Resumes c) (After c)
              (resume_until net ops platform (suc fuel) deadline c) (same_version net ops platform)
              (resume_until-Resumes fuel deadline c enough)
              (λ opened d s. same_version-After c opened d s.0))
      ]

  Shrinks-trans :
      (c d x : State W V)
      → Goes forward ops platform c d
      → Shrinks forward ops platform d x
      → Shrinks forward ops platform c x
  Shrinks-trans c d x m s = (Moves-trans forward m s.0, omega (arith, m.fewer, s.1))

  compared-Again :
      (commit_id : Bytes) (c : State W V) (opened : Proto.Opened) (d : State W V)
      → Shrinks forward ops platform c d
      → Finishes (OnOk (Again c)) (compared net ops platform commit_id opened d)
  unfolding compared stop count_resent set_stats
  compared-Again commit_id c opened d s =
      let r = d.source.remote in
      let mine =
        (opened.version == u64 (r.version + 1)) && bytes_eq opened.last_commit_id commit_id in
      let known = opened.version == r.version in
      elim (Bool-cases mine) [
        | inl applied ↦ rw (if_true mine _ _ applied) tt
        | inr missing ↦ rw (if_false mine _ _ missing) (elim (Bool-cases known) [
          | inl same ↦ rw (if_false (not known) _ _ (ap not same)) s
          | inr other ↦ rw (if_true (not known) _ _ (ap not other)) tt
        ])
      ]

  resumed_then :
      (fuel deadline : ℕ) (commit_id : Bytes) (c d : State W V)
      → Goes forward ops platform c d
      → deadline ≤ now net ops platform d + fuel * reconnect_pause
      → Finishes (OnOk (Again c)) (
          go_on
            (resume_until net ops platform (suc fuel) deadline d)
            (compared net ops platform commit_id))
  resumed_then fuel deadline commit_id c d m enough =
      go_on-Finishes (Resumes d) (Again c) (resume_until net ops platform (suc fuel) deadline d)
        (compared net ops platform commit_id) (resume_until-Resumes fuel deadline d enough)
        (λ opened x s. compared-Again commit_id c opened x (Shrinks-trans c d x m s))

  lost-Again :
      (fuel deadline : ℕ) (commit_id : Bytes) (e : ClientError) (c d : State W V)
      → Goes forward ops platform c d
      → deadline ≤ now net ops platform d + fuel * reconnect_pause
      → Finishes (OnOk (Again c)) (lost net ops platform (suc fuel) deadline commit_id e d)
  unfolding lost stop
  lost-Again fuel deadline commit_id (ClientError.server e) c d m enough = tt
  lost-Again fuel deadline commit_id (ClientError.transport x) c d m enough =
      resumed_then fuel deadline commit_id c d m enough
  lost-Again fuel deadline commit_id (ClientError.protocol x) c d m enough =
      resumed_then fuel deadline commit_id c d m enough
  lost-Again fuel deadline commit_id (ClientError.token x) c d m enough =
      resumed_then fuel deadline commit_id c d m enough

  failed-Again :
      (fuel deadline : ℕ) (commit_id : Bytes) (e : ClientError) (c d : State W V)
      → Goes forward ops platform c d
      → (is_server e ≡ true → Shrinks forward ops platform c d)
      → deadline ≤ now net ops platform d + fuel * reconnect_pause
      → Finishes (OnOk (Again c)) (failed net ops platform (suc fuel) deadline commit_id e d)
  unfolding failed stop count_resent set_stats
  failed-Again fuel deadline commit_id e c d m brought enough =
      let late = leb deadline (now net ops platform d) in
      elim (Bool-cases (is_fenced e)) [
        | inl fenced ↦ rw (if_true (is_fenced e) _ _ fenced) tt
        | inr not_fenced ↦
            rw (if_false (is_fenced e) _ _ not_fenced) (elim (Bool-cases (is_transient e)) [
              | inl transient ↦
                  let s = brought (transient_server e transient) in
                  rw (if_true (is_transient e) _ _ transient) (elim (Bool-cases late) [
                    | inl too_late ↦ rw (if_true late _ _ too_late) tt
                    | inr early ↦
                        let p = pause-Goes forward ops platform sleeps d in
                        rw (if_false late _ _ early)
                          (Moves-trans forward s.0 p, omega (arith, s.1, p.fewer))
                  ])
              | inr permanent ↦
                  rw (if_false (is_transient e) _ _ permanent)
                    (lost-Again fuel deadline commit_id e c d m enough)
            ])
      ]

  answered-Again :
      (fuel deadline : ℕ) (commit_id : Bytes) (c d : State W V) (o : Option (Reply W ℕ))
      → Goes forward ops platform c d
      → Every (Received forward d.source.client) o
      → deadline ≤ now net ops platform d + fuel * reconnect_pause
      → Finishes
          (OnOk (Again c))
          (answered net ops platform (suc fuel) deadline commit_id (with_client d o))
  unfolding answered with_client set_client
  answered-Again fuel deadline commit_id c d none m h enough = tt
  answered-Again fuel deadline commit_id c d (some (ok version, client)) m h enough = tt
  answered-Again fuel deadline commit_id c d (some (err e, client)) m h enough =
      let x = set_client d client in
      failed-Again fuel deadline commit_id e c x (Moves-trans forward m h.moves)
        (λ server. (Moves-trans forward m h.moves, omega (arith, m.fewer, h.brought server)))
        (omega (arith, enough, now_later forward ops platform sleeps d x h.moves))

  turn-Again :
      (fuel deadline : ℕ) (commit_id : Bytes) (pieces : List Proto.Commit) (c : State W V)
      → deadline ≤ now net ops platform c + fuel * reconnect_pause
      → Finishes (OnOk (Again c)) (turn net ops platform (suc fuel) deadline commit_id pieces c)
  unfolding turn
  turn-Again fuel deadline commit_id pieces c enough =
      go_on-Finishes (After c) (Again c) (connected net ops platform (suc fuel) deadline c) _
        (connected-After fuel deadline c enough)
        (λ u d m.
          answered-Again fuel deadline commit_id c d (Listen.commit net d.source.client pieces) m
            (commit-Received forward d.source.client pieces)
            (omega (arith, enough, now_later forward ops platform sleeps c d m)))

  abbrev Anything : ℕ → State W V → Type 0
  Anything version d = Unit

  turned-Finishes :
      (again : State W V → Task W V Broken ℕ) (c : State W V) (t : Task W V Broken (Option ℕ))
      → Finishes (OnOk (Again c)) t
      → ((d : State W V) → Shrinks forward ops platform c d → Finishes (OnOk Anything) (again d))
      → Finishes (OnOk Anything) (turned net ops platform again t)
  unfolding turned
  turned-Finishes again c waits h rest = tt
  turned-Finishes again c spent h rest = h
  turned-Finishes again c (ended (err b, d)) h rest = tt
  turned-Finishes again c (ended (ok (some version), d)) h rest = tt
  turned-Finishes again c (ended (ok none, d)) h rest = rest d h

  -- A turn for each answer that can be received, and an attempt to resume for each pause until the
  -- deadline.
  commit_loop-Finishes :
      (fuel pauses deadline : ℕ) (commit_id : Bytes) (pieces : List Proto.Commit) (c : State W V)
      → deadline ≤ now net ops platform c + pauses * reconnect_pause
      → length c.source.client.inbox + pauses < fuel
      → Finishes (OnOk Anything) (commit_loop net ops platform fuel deadline commit_id pieces c)
  unfolding commit_loop
  commit_loop-Finishes zero pauses deadline commit_id pieces c enough turns =
      absurd (omega (arith, turns))
  commit_loop-Finishes (suc fuel) pauses deadline commit_id pieces c enough turns =
      turned-Finishes (λ d. commit_loop net ops platform fuel deadline commit_id pieces d) c
        (turn net ops platform (suc fuel) deadline commit_id pieces c)
        (turn-Again fuel deadline commit_id pieces c (omega (arith, enough, turns)))
        (λ d s.
          commit_loop-Finishes fuel pauses deadline commit_id pieces d
            (omega (arith, enough, now_later forward ops platform sleeps c d s.0))
            (omega (arith, turns, s.1)))

  finish-Finishes :
      (begun frames : ℕ) (commit_id : Bytes) (t : Task W V Broken ℕ)
      → Finishes (OnOk Anything) t
      → finish net ops platform begun frames commit_id t ≢ spent
  unfolding finish go_on
  finish-Finishes begun frames commit_id waits h e = cc
  finish-Finishes begun frames commit_id spent h e = h
  finish-Finishes begun frames commit_id (ended (ok version, d)) h e = cc
  finish-Finishes begun frames commit_id (ended (err b, d)) h e = cc

  -- The fuel that suffices: for the answers that can be received, and the pauses within the timeout.
  abbrev pub enough_fuel : ℕ → State W V → ℕ
  enough_fuel timeout c = length c.source.client.inbox + timeout / reconnect_pause + 2

  with_commit_id-ends :
      (fuel timeout : ℕ) (dirty : List (ℕ × Bytes)) (c : State W V) (o : Option Bytes × W)
      (t : Task W V Broken (Unit {0}))
      → enough_fuel timeout c ≤ fuel
      → with_commit_id net ops platform fuel timeout dirty c o ≡ some t
      → t ≢ spent
  unfolding with_commit_id begin
  with_commit_id-ends fuel timeout dirty c (none, world) t enough e = cc
  with_commit_id-ends fuel timeout dirty c (some commit_id, world) t enough e = λ gone.
      let pieces =
        parts c.source.remote commit_id c.source.client.max_frame_bytes c.pages.page_size
          c.pages.page_count dirty in
      let d = begin net ops platform commit_id world c in
      let start = now net ops platform d in
      finish-Finishes start (length pieces) commit_id
        (commit_loop net ops platform fuel (start + timeout) commit_id pieces d)
        (commit_loop-Finishes fuel (timeout / reconnect_pause + 1) (start + timeout) commit_id
          pieces d (omega arith) (omega (arith, enough)))
        (some_inj e ∙ gone)

  send_dirty-ends :
      (fuel timeout : ℕ) (o : Option (List (ℕ × Bytes))) (c : State W V)
      (t : Task W V Broken (Unit {0}))
      → enough_fuel timeout c ≤ fuel
      → send_dirty net ops platform fuel timeout o c ≡ some t
      → t ≢ spent
  unfolding send_dirty
  send_dirty-ends fuel timeout none c t enough e = cc
  send_dirty-ends fuel timeout (some dirty) c t enough e =
      with_commit_id-ends fuel timeout dirty c
        (platform.random c.source.client.world commit_id_bytes) t enough e

  commit_unless-ends :
      (fuel timeout : ℕ) (o : Option Broken) (c : State W V) (t : Task W V Broken (Unit {0}))
      → enough_fuel timeout c ≤ fuel
      → commit_unless net ops platform o fuel timeout c ≡ some t
      → t ≢ spent
  unfolding commit_unless stop
  commit_unless-ends fuel timeout (some b) c t enough e = λ gone. cc
  commit_unless-ends fuel timeout none c t enough e =
      let revoked = was_revoked c.source.client c.source.remote.db_id c.source.remote.lease_epoch in
      elim (Bool-cases (is_clean c.pages)) [
        | inl clean ↦ λ gone. cc (sym (if_true (is_clean c.pages) _ _ clean) ∙ e, gone)
        | inr changed ↦
            let e1 = sym (if_false (is_clean c.pages) _ _ changed) ∙ e in
            elim (Bool-cases revoked) [
              | inl taken ↦ λ gone. cc (sym (if_true revoked _ _ taken) ∙ e1, gone)
              | inr held ↦
                  send_dirty-ends fuel timeout (dirty_blocks c.pages) c t enough
                    (sym (if_false revoked _ _ held) ∙ e1)
            ]
      ]

  -- A commit does not run on: with fuel for a turn for each answer of the server that is still to
  -- come and an attempt to reconnect for each pause within the timeout, its loops do not run out of
  -- fuel. So a commit ends, or it waits for the server. Calls of the network do not turn the clock
  -- back, and a pause lasts at least as long as it should.
  pub commit_database-terminates :
      (fuel timeout : ℕ) (c : State W V)
      → enough_fuel timeout c ≤ fuel
      → commit_database net ops platform fuel timeout c ≢ some spent
  unfolding commit_database
  commit_database-terminates fuel timeout c enough e =
      commit_unless-ends fuel timeout c.source.remote.broken c spent enough e refl
