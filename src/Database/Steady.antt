-- ===== src/Database/Steady.antt =====
-- What an operation on the server side of a database leaves as it is, and that an error breaks the
-- database (crates/sqlite-remote-vfs/src/database.rs).
use sqlite_remote_vfs.Base.{
  ℕ, ◌≡◌, refl, ◌∙◌, Option, none, some, List, Result, ok, err, Bool-cases, if_true, if_false, inl,
  inr, ℕ,
}
use sqlite_remote_vfs.Proto
use sqlite_remote_vfs.Failure.{ClientError, Broken}
use sqlite_remote_vfs.Stats.{Stats}
use sqlite_remote_vfs.Client.{Network, Client, Reply}
use sqlite_remote_vfs.Client.Login.{is_connected, reconnect}
use sqlite_remote_vfs.Remote.{Remote, break_with, resume, ask_resume, after_reconnect, resumed_on}
use sqlite_remote_vfs.Client.Heard.{Every, Taken, Taken-refl, Taken-trans}
use sqlite_remote_vfs.Client.Moves.{any_time}
use sqlite_remote_vfs.Remote.Answered.{Answered, resume-Answered}
use sqlite_remote_vfs.Remote.Resumed.{Tried, resume-Tried}
use sqlite_remote_vfs.Base.Bytes.{Bytes}
use sqlite_remote_vfs.Copy.{LocalStore}
use sqlite_remote_vfs.Database.{
  State, Platform, Course, Task, ended, waits, spent, go_on, stop, set_remote, set_client,
  set_stats,
}
use sqlite_remote_vfs.Database.Fetch.{resume_state, resumed_state}

-- Where an operation ends, `P` holds.
abbrev pub Ends : {A : Type 0} → (A → Type 0) → Course A → Type 0
Ends P waits = Unit
Ends P spent = Unit
Ends P (ended x) = P x

-- All of the server side but for the login and for what broke it.
abbrev pub core : Remote → Remote
core r = record r { login = 0; broken = none }

module _ {W V : Type 0} where
  abbrev pub broken_of : State W V → Option Broken
  broken_of c = c.source.remote.broken

  -- The blocks, the local copy and the version are as they were.
  pub record Steady (c c' : State W V) : Type 0 where
    pub pages : c'.pages ≡ c.pages
    pub copy : c'.source.copy ≡ c.source.copy
    pub remote : core c'.source.remote ≡ core c.source.remote
    -- What the client has received since, it took off its inbox.
    pub left : Taken c.source.client.inbox c'.source.client.inbox

  pub Steady-refl : (c : State W V) → Steady c c
  Steady-refl c = record {
    pages = refl;
    copy = refl;
    remote = refl;
    left = Taken-refl c.source.client.inbox;
  }

  pub Steady-trans : {a b c : State W V} → Steady a b → Steady b c → Steady a c
  Steady-trans s t = record {
    pages = t.pages ∙ s.pages;
    copy = t.copy ∙ s.copy;
    remote = t.remote ∙ s.remote;
    left = Taken-trans s.left t.left;
  }

  -- An error is what the database is broken by; a success has the property `P`.
  abbrev pub Told : {A : Type 0} → State W V → (A → Type 0) → Result Broken A × State W V → Type 0
  Told c P (err b, c') = Steady c c' × (broken_of c' ≡ some b)
  Told c P (ok a, c') = Steady c c' × (broken_of c' ≡ broken_of c) × P a

  pub Told-later :
      {A : Type 0} (P : A → Type 0) (c c' : State W V) (t : Task W V Broken A)
      → Steady c c'
      → broken_of c' ≡ broken_of c
      → Ends (Told c' P) t
      → Ends (Told c P) t
  Told-later P c c' waits s e h = tt
  Told-later P c c' spent s e h = tt
  Told-later P c c' (ended (err b, d)) s e h = (Steady-trans s h.0, h.1)
  Told-later P c c' (ended (ok a, d)) s e h = (Steady-trans s h.0, h.1 ∙ e, h.2)

  pub go_on-Told :
      {A B : Type 0} (P : A → Type 0) (Q : B → Type 0) (c : State W V) (t : Task W V Broken A)
      (next : A → State W V → Task W V Broken B)
      → Ends (Told c P) t
      → ((a : A) (c' : State W V) → Steady c c' → P a → Ends (Told c' Q) (next a c'))
      → Ends (Told c Q) (go_on t next)
  unfolding go_on
  go_on-Told P Q c waits next h after = tt
  go_on-Told P Q c spent next h after = tt
  go_on-Told P Q c (ended (err b, c')) next h after = h
  go_on-Told P Q c (ended (ok a, c')) next h after =
      Told-later Q c c' (next a c') h.0 h.1 (after a c' h.0 h.2)

  pub stop-Told :
      {A : Type 0} (P : A → Type 0) (c : State W V) (b : Broken)
      → Ends (Told c P) (stop {A = A} b c)
  unfolding stop set_remote break_with
  stop-Told P c b = (
    record { pages = refl; copy = refl; remote = refl; left = Taken-refl c.source.client.inbox },
    refl,
  )

module _ {W V : Type 0} (net : Network W) (ops : LocalStore V) (platform : Platform W) where
  abbrev Kept : Remote → Result ClientError Proto.Opened × Remote × Client W × Stats → Type 0
  Kept r (x, r', c, stats) = (core r' ≡ core r) × (r'.broken ≡ r.broken)

  resumed_on-Kept :
      (r : Remote) (stats : Stats) (o : Option (Reply W Proto.Opened))
      → Every (Kept r) (resumed_on net r stats o)
  unfolding resumed_on
  resumed_on-Kept r stats none = tt
  resumed_on-Kept r stats (some (err e, c)) = (refl, refl)
  resumed_on-Kept r stats (some (ok opened, c)) = (refl, refl)

  ask_resume-Kept :
      (r : Remote) (stats : Stats) (page_size : ℕ) (c : Client W)
      → Every (Kept r) (ask_resume net r stats page_size c)
  unfolding ask_resume
  ask_resume-Kept r stats page_size c = resumed_on-Kept r stats _

  after_reconnect-Kept :
      (r : Remote) (stats : Stats) (page_size : ℕ) (o : Option (Reply W (Unit {0})))
      → Every (Kept r) (after_reconnect net r stats page_size o)
  unfolding after_reconnect
  after_reconnect-Kept r stats page_size none = tt
  after_reconnect-Kept r stats page_size (some (err e, c)) = (refl, refl)
  after_reconnect-Kept r stats page_size (some (ok u, c)) = ask_resume-Kept r _ page_size c

  resume-Kept :
      (r : Remote) (c : Client W) (page_size : ℕ) (stats : Stats)
      → Every (Kept r) (resume net r c page_size stats)
  unfolding resume
  resume-Kept r c page_size stats = elim (Bool-cases (is_connected net c)) [
    | inl on ↦ rw (if_true (is_connected net c) _ _ on) (ask_resume-Kept r stats page_size c)
    | inr off ↦
        rw (if_false (is_connected net c) _ _ off)
          (after_reconnect-Kept r stats page_size (reconnect net c))
  ]

  -- The server's only answer to a request to resume the database whose server side is `base`, but for
  -- the login and for what broke it. The socket has taken the request, and the answer is one of
  -- `inbox`.
  pub record FromServer (base : Remote) (inbox : List (Result Bytes Bytes)) (opened : Proto.Opened)
      : Type 0 where
    pub asking : Remote
    pub same : core asking ≡ base
    pub client : Client W
    pub since : Taken inbox client.inbox
    pub page_size : ℕ
    pub left : Client W
    pub answer : Answered net asking client page_size opened left

  -- The result of an attempt to resume: the state is as it was, and what was opened is the server's
  -- answer.
  abbrev pub Resumed : State W V → Result ClientError Proto.Opened × State W V → Type 0
  Resumed c (err e, c') = Steady c c' × (broken_of c' ≡ broken_of c)
  Resumed c (ok opened, c') =
      Steady c c'
      × (broken_of c' ≡ broken_of c)
      × FromServer (core c.source.remote) c.source.client.inbox opened

  resumed_state-Resumed :
      (c : State W V) (o : Option (Result ClientError Proto.Opened × Remote × Client W × Stats))
      → Every (Kept c.source.remote) o
      → Every (Tried (any_time net) c.source.client) o
      → resume net c.source.remote c.source.client c.pages.page_size c.stats ≡ o
      → Ends (Resumed c) (resumed_state net ops platform c o)
  unfolding resumed_state set_client set_remote set_stats
  resumed_state-Resumed c none h g e = tt
  resumed_state-Resumed c (some (err x, r, client, stats)) h g e =
      (record { pages = refl; copy = refl; remote = h.0; left = g.left }, h.1)
  resumed_state-Resumed c (some (ok opened, r, client, stats)) h g e = (
    record { pages = refl; copy = refl; remote = h.0; left = g.0.left },
    h.1,
    record {
      asking = c.source.remote;
      same = refl;
      client = c.source.client;
      since = Taken-refl c.source.client.inbox;
      page_size = c.pages.page_size;
      left = client;
      answer =
          resume-Answered net c.source.remote r c.stats stats c.pages.page_size c.source.client
            client opened e;
    },
  )

  pub resume_state-Resumed : (c : State W V) → Ends (Resumed c) (resume_state net ops platform c)
  unfolding resume_state
  resume_state-Resumed c =
      resumed_state-Resumed c (resume net c.source.remote c.source.client c.pages.page_size c.stats)
        (resume-Kept c.source.remote c.source.client c.pages.page_size c.stats)
        (resume-Tried (any_time net) c.source.remote c.source.client c.pages.page_size c.stats) refl
