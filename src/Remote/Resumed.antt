-- ===== src/Remote/Resumed.antt =====
-- Resuming a database on the client (`Remote::resume` in crates/sqlite-remote-vfs/src/database.rs):
-- a success was received from the server.
use sqlite_remote_vfs.Base.{
  ℕ, ◌<◌, refl, Option, none, some, length, Result, ok, err, Bool-cases, if_true, if_false, inl,
  inr, arith,
}
use sqlite_remote_vfs.Proto
use sqlite_remote_vfs.Proto.{Response}
use sqlite_remote_vfs.Failure.{ClientError}
use sqlite_remote_vfs.Stats.{Stats}
use sqlite_remote_vfs.Client.{Network, Client, Reply}
use sqlite_remote_vfs.Client.Login.{is_connected, reconnect, unexpected}
use sqlite_remote_vfs.Client.Heard.{Every}
use sqlite_remote_vfs.Client.Moves.{
  Forward, Moves, Received, Moves-refl, Moves-trans, Went, reconnect-Went, called-Received,
}
use sqlite_remote_vfs.Remote.{
  Remote, resume, ask_resume, after_reconnect, resumed_on, resumed, resume_request,
}

module _ {W : Type 0} {net : Network W} {R : W → W → Type 0} (forward : Forward net R) where
  resumed-Went :
      (page_size : ℕ) (r : Response) (c : Client W) → Went forward c (resumed net page_size r c)
  unfolding resumed unexpected
  resumed-Went page_size (Response.opened x) c = Moves-refl forward c
  resumed-Went page_size (Response.hello_ok x) c = Moves-refl forward c
  resumed-Went page_size (Response.pages x) c = Moves-refl forward c
  resumed-Went page_size (Response.commit_ack x) c = Moves-refl forward c
  resumed-Went page_size (Response.pong x) c = Moves-refl forward c
  resumed-Went page_size (Response.lease_revoked x) c = Moves-refl forward c
  resumed-Went page_size (Response.error x) c = Moves-refl forward c
  resumed-Went page_size Response.done c = Moves-refl forward c
  resumed-Went page_size (Response.challenge x) c = Moves-refl forward c
  resumed-Went page_size (Response.changes x) c = Moves-refl forward c
  resumed-Went page_size (Response.slot x) c = Moves-refl forward c

  -- The result of an attempt to resume: time has gone on, and a success was received.
  abbrev pub Tried : Client W → Result ClientError Proto.Opened × Remote × Client W × Stats → Type 0
  Tried c (ok opened, r, d, s) = Moves forward c d × (length d.inbox < length c.inbox)
  Tried c (err e, r, d, s) = Moves forward c d

  resumed_on-Tried :
      (c : Client W) (r : Remote) (s : Stats) (o : Option (Reply W Proto.Opened))
      → Every (Received forward c) o
      → Every (Tried c) (resumed_on net r s o)
  unfolding resumed_on
  resumed_on-Tried c r s none h = tt
  resumed_on-Tried c r s (some (err e, d)) h = h.moves
  resumed_on-Tried c r s (some (ok opened, d)) h = (h.moves, h.brought refl)

  ask_resume-Tried :
      (r : Remote) (s : Stats) (page_size : ℕ) (c : Client W)
      → Every (Tried c) (ask_resume net r s page_size c)
  unfolding ask_resume
  ask_resume-Tried r s page_size c = resumed_on-Tried c r s _ (
      called-Received forward c (resume_request net r page_size) (resumed net page_size)
        (resumed-Went page_size))

  Tried-later :
      (c d : Client W) (o : Option (Result ClientError Proto.Opened × Remote × Client W × Stats))
      → Moves forward c d
      → Every (Tried d) o
      → Every (Tried c) o
  Tried-later c d none m h = tt
  Tried-later c d (some (ok opened, r, x, s)) m h =
      (Moves-trans forward m h.0, omega (arith, m.fewer, h.1))
  Tried-later c d (some (err e, r, x, s)) m h = Moves-trans forward m h

  after_reconnect-Tried :
      (r : Remote) (s : Stats) (page_size : ℕ) (c : Client W) (o : Option (Reply W (Unit {0})))
      → Went forward c o
      → Every (Tried c) (after_reconnect net r s page_size o)
  unfolding after_reconnect
  after_reconnect-Tried r s page_size c none h = tt
  after_reconnect-Tried r s page_size c (some (err e, d)) h = h
  after_reconnect-Tried r s page_size c (some (ok u, d)) h =
      Tried-later c d _ h (ask_resume-Tried r _ page_size d)

  pub resume-Tried :
      (r : Remote) (c : Client W) (page_size : ℕ) (s : Stats)
      → Every (Tried c) (resume net r c page_size s)
  unfolding resume
  resume-Tried r c page_size s = elim (Bool-cases (is_connected net c)) [
    | inl on ↦ rw (if_true (is_connected net c) _ _ on) (ask_resume-Tried r s page_size c)
    | inr off ↦
        rw (if_false (is_connected net c) _ _ off)
          (after_reconnect-Tried r s page_size c (reconnect net c) (reconnect-Went forward c))
  ]
