-- ===== src/Database/Enough.antt =====
-- A commit to a page server ends: how many attempts and turns its loops need at most (`commit` and
-- `resume_until` in crates/sqlite-remote-vfs/src/database.rs).
use sqlite_remote_vfs.Base.{
  ℕ, zero, suc, ◌+◌, ◌*◌, ◌≤◌, ◌<◌, ◌≡◌, refl, sym, ◌∙◌, inl, inr, Option, none, some, leb, length,
  Result, ok, err, Bool-cases, if_true, if_false, leb→lt, arith,
}
use sqlite_remote_vfs.Proto
use sqlite_remote_vfs.Proto.{Response}
use sqlite_remote_vfs.Failure.{ClientError, Broken, is_fenced, is_access_denied}
use sqlite_remote_vfs.Stats.{Stats}
use sqlite_remote_vfs.Client.{Network, Client}
use sqlite_remote_vfs.Client.Heard.{Taken-refl, Every}
use sqlite_remote_vfs.Client.Moves.{Forward, Moves, Moves-refl, Moves-trans}
use sqlite_remote_vfs.Remote.{Remote}
use sqlite_remote_vfs.Remote.Resumed.{Tried, resume-Tried}
use sqlite_remote_vfs.Copy.{LocalStore}
use sqlite_remote_vfs.Database.{
  State, Platform, Course, Task, ended, waits, spent, stop, set_client, set_remote, set_stats,
}
use sqlite_remote_vfs.Database.Fetch.{resume_state, resumed_state}
use sqlite_remote_vfs.Database.Commit.{
  resume_until, attempted, retry, gives_up, pause, now, reconnect_pause,
}

-- A course that is not out of fuel, and where it ends, `P` holds.
abbrev pub Finishes : {A : Type 0} → (A → Type 0) → Course A → Type 0
Finishes P waits = Unit
Finishes P spent = ⊥
Finishes P (ended x) = P x

-- What the platform promises of a pause: it lasts at least as long as it should.
pub record Sleeps {W : Type 0} (net : Network W) (platform : Platform W) : Type 0 where
  pub lasts : (w : W) (time : ℕ) → net.now w + time ≤ net.now (platform.pause w time)

-- What the clock promises: time does not go back.
abbrev pub Later : {W : Type 0} → Network W → W → W → Type 0
Later net u v = net.now u ≤ net.now v

module _ {W V : Type 0} {net : Network W} (forward : Forward net (Later net)) (ops : LocalStore V)
    (platform : Platform W) where
  abbrev pub client_of : State W V → Client W
  client_of c = c.source.client

  abbrev pub Goes : State W V → State W V → Type 0
  Goes c d = Moves forward (client_of c) (client_of d)

  abbrev pub Shrinks : State W V → State W V → Type 0
  Shrinks c d = Goes c d × (length (client_of d).inbox < length (client_of c).inbox)

  -- The same on the state, for any kind of error.
  abbrev pub Attempt : {E A : Type 0} → State W V → Result E A × State W V → Type 0
  Attempt c (ok a, d) = Shrinks c d
  Attempt c (err e, d) = Goes c d

  resumed_state-Attempt :
      (c : State W V) (o : Option (Result ClientError Proto.Opened × Remote × Client W × Stats))
      → Every (Tried forward (client_of c)) o
      → Finishes (Attempt c) (resumed_state net ops platform c o)
  unfolding resumed_state set_client set_remote set_stats
  resumed_state-Attempt c none h = tt
  resumed_state-Attempt c (some (ok opened, r, d, s)) h = h
  resumed_state-Attempt c (some (err e, r, d, s)) h = h

  resume_state-Attempt : (c : State W V) → Finishes (Attempt c) (resume_state net ops platform c)
  unfolding resume_state
  resume_state-Attempt c =
      resumed_state-Attempt c _
        (resume-Tried forward c.source.remote (client_of c) c.pages.page_size c.stats)

  Attempt-later :
      {E A : Type 0} (c d : State W V) (t : Task W V E A)
      → Goes c d
      → Finishes (Attempt d) t
      → Finishes (Attempt c) t
  Attempt-later c d waits m h = tt
  Attempt-later c d spent m h = h
  Attempt-later c d (ended (ok a, x)) m h = (Moves-trans forward m h.0, omega (arith, m.fewer, h.1))
  Attempt-later c d (ended (err e, x)) m h = Moves-trans forward m h

  stop-Attempt : (A : Type 0) (c : State W V) (b : Broken) → Finishes (Attempt c) (stop {A = A} b c)
  unfolding stop set_remote
  stop-Attempt A c b = Moves-refl forward (client_of c)

  -- An attempt is repeated only before the deadline.
  gives_up-none :
      (e : ClientError) (deadline : ℕ) (c : State W V)
      → gives_up net ops platform e deadline c ≡ none
      → now net ops platform c < deadline
  unfolding gives_up
  gives_up-none e deadline c h = elim (Bool-cases (is_fenced e)) [
    | inl fenced ↦ cc (rw (if_true (is_fenced e) _ _ fenced) at h)
    | inr not_fenced ↦
        let h1 = sym (if_false (is_fenced e) _ _ not_fenced) ∙ h in
        elim (Bool-cases (is_access_denied e)) [
          | inl denied ↦ cc (sym (if_true (is_access_denied e) _ _ denied) ∙ h1)
          | inr allowed ↦
              let h2 = sym (if_false (is_access_denied e) _ _ allowed) ∙ h1 in
              elim (Bool-cases (leb deadline (now net ops platform c))) [
                | inl late ↦
                    cc (sym (if_true (leb deadline (now net ops platform c)) _ _ late) ∙ h2)
                | inr early ↦ leb→lt deadline (now net ops platform c) early
              ]
        ]
  ]

  module _ (sleeps : Sleeps net platform) where
    pub pause-Goes : (c : State W V) → Goes c (pause net ops platform c)
    unfolding pause set_client
    pause-Goes c = record {
      later = omega (arith, sleeps.lasts (client_of c).world reconnect_pause);
      fewer = omega arith;
      left = Taken-refl (client_of c).inbox;
    }

    paused :
        (c : State W V)
        → now net ops platform c + reconnect_pause ≤ now net ops platform (pause net ops platform c)
    unfolding now pause set_client
    paused c = sleeps.lasts (client_of c).world reconnect_pause

    pub now_later : (c d : State W V) → Goes c d → now net ops platform c ≤ now net ops platform d
    unfolding now
    now_later c d m = m.later

    -- After a pause, one attempt less is left.
    pause_left :
        (c d : State W V) (fuel deadline : ℕ)
        → Goes c d
        → now net ops platform d < deadline
        → deadline ≤ now net ops platform c + fuel * reconnect_pause
        → (k : ℕ) × (fuel ≡ suc k)
          × (deadline ≤ now net ops platform (pause net ops platform d) + k * reconnect_pause)
    pause_left c d zero deadline m early enough = absurd (omega (arith, now_later c d m))
    pause_left c d (suc k) deadline m early enough =
        (k, refl, omega (arith, now_later c d m, paused d))

    retry-Attempt :
        (fuel deadline : ℕ) (c d : State W V) (o : Option Broken)
        → Goes c d
        → (o ≡ none → now net ops platform d < deadline)
        → deadline ≤ now net ops platform c + fuel * reconnect_pause
        → ((k : ℕ) (x : State W V)
            → fuel ≡ suc k
            → deadline ≤ now net ops platform x + k * reconnect_pause
            → Finishes (Attempt x) (resume_until net ops platform fuel deadline x))
        → Finishes
            (Attempt c)
            (retry net ops platform (λ x. resume_until net ops platform fuel deadline x) o d)
    unfolding retry
    retry-Attempt fuel deadline c d (some b) m early enough rest =
        Attempt-later {A = Proto.Opened} c d (stop b d) m (stop-Attempt Proto.Opened d b)
    retry-Attempt fuel deadline c d none m early enough rest =
        let x = pause net ops platform d in
        let (k, e, left) = pause_left c d fuel deadline m (early refl) enough in
        Attempt-later {A = Proto.Opened} c x (resume_until net ops platform fuel deadline x)
          (Moves-trans forward m (pause-Goes d)) (rest k x e left)

    attempted-Attempt :
        (fuel deadline : ℕ) (c : State W V) (t : Task W V ClientError Proto.Opened)
        → Finishes (Attempt c) t
        → deadline ≤ now net ops platform c + fuel * reconnect_pause
        → ((k : ℕ) (x : State W V)
            → fuel ≡ suc k
            → deadline ≤ now net ops platform x + k * reconnect_pause
            → Finishes (Attempt x) (resume_until net ops platform fuel deadline x))
        → Finishes (Attempt c) (
            attempted net ops platform
              (λ x. resume_until net ops platform fuel deadline x)
              deadline
              t)
    unfolding attempted
    attempted-Attempt fuel deadline c waits h enough rest = tt
    attempted-Attempt fuel deadline c spent h enough rest = h
    attempted-Attempt fuel deadline c (ended (ok opened, d)) h enough rest = h
    attempted-Attempt fuel deadline c (ended (err e, d)) h enough rest =
        retry-Attempt fuel deadline c d (gives_up net ops platform e deadline d) h
          (gives_up-none e deadline d) enough rest

    -- `resume_until` makes one attempt more than there are pauses until the deadline.
    pub resume_until-Attempt :
        (fuel deadline : ℕ) (c : State W V)
        → deadline ≤ now net ops platform c + fuel * reconnect_pause
        → Finishes (Attempt c) (resume_until net ops platform (suc fuel) deadline c)
    unfolding resume_until
    resume_until-Attempt zero deadline c enough =
        attempted-Attempt zero deadline c (resume_state net ops platform c) (resume_state-Attempt c)
          enough (λ k x e left. absurd (omega (arith, e)))
    resume_until-Attempt (suc fuel) deadline c enough =
        attempted-Attempt (suc fuel) deadline c (resume_state net ops platform c)
          (resume_state-Attempt c) enough
          (λ k x e left. resume_until-Attempt fuel deadline x (omega (arith, e, left)))
