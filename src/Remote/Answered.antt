-- ===== src/Remote/Answered.antt =====
-- What the server has said where resuming a database succeeds (`Remote::resume` in
-- crates/sqlite-remote-vfs/src/database.rs).
use sqlite_remote_vfs.Base.{
  ℕ, ◌≡◌, sym, ◌∙◌, ap, false, Option, none, some, [], Result, ok, err, Bool-cases, if_true,
  if_false, inl, inr,
}
use sqlite_remote_vfs.Proto
use sqlite_remote_vfs.Proto.{Request, Response}
use sqlite_remote_vfs.Failure.{ClientError}
use sqlite_remote_vfs.Stats.{Stats}
use sqlite_remote_vfs.Client.{Network, Client, Reply}
use sqlite_remote_vfs.Client.Listen.{call}
use sqlite_remote_vfs.Client.Login.{is_connected, reconnect, unexpected, and_then}
use sqlite_remote_vfs.Client.LoggedIn.{and_then-ok}
use sqlite_remote_vfs.Client.Called.{Called, call-Called}
use sqlite_remote_vfs.Client.Heard.{Taken, Taken-refl}
use sqlite_remote_vfs.Client.Moves.{Went, any_time, reconnect-Went}
use sqlite_remote_vfs.Remote.{
  Remote, resume, ask_resume, after_reconnect, resumed_on, resumed, resume_request, checked,
}
use sqlite_remote_vfs.Remote.Checked.{Usable, checked-ok}

-- The request that asks for the lease again that the database has.
abbrev pub resuming : Remote → ℕ → Request
resuming r page_size = Request.open_db (record {
  db_id = r.db_id;
  page_size = page_size;
  create_if_missing = false;
  takeover = false;
  resume = some (record {
    lease_id = r.lease_id;
    lease_epoch = r.lease_epoch;
    known_version = r.version;
    pending_commit_id = [];
  });
})

module _ {W : Type 0} (net : Network W) where
  -- The request was put on the socket, if need be of a new connection, and the server's only answer
  -- to it is `opened`, which is usable.
  pub record Answered (r : Remote) (c : Client W) (page_size : ℕ) (opened : Proto.Opened)
      (left : Client W) : Type 0 where
    pub client : Client W
    pub taken : Taken c.inbox client.inbox
    pub called : Called net client (resuming r page_size) (Response.opened opened) left
    pub usable : Usable opened (some page_size)

  abbrev Said : ℕ → Response → Client W → Proto.Opened → Client W → Type 0
  Said page_size answer c opened left =
      (answer ≡ Response.opened opened) × (c ≡ left) × Usable opened (some page_size)

  resumed-ok :
      (page_size : ℕ) (answer : Response) (c : Client W) (opened : Proto.Opened) (left : Client W)
      → resumed net page_size answer c ≡ some (ok opened, left)
      → Said page_size answer c opened left
  unfolding resumed unexpected
  resumed-ok page_size (Response.opened x) c opened left h =
      let both : Path (Reply W Proto.Opened) (checked x (some page_size), c) (ok opened, left) =
        cc in
      let (same, usable) = checked-ok x opened (some page_size) (ap (λ o. o.0) both) in
      (ap Response.opened (sym same), ap (λ o. o.1) both, rw same usable)
  resumed-ok page_size (Response.hello_ok x) c opened left h = cc
  resumed-ok page_size (Response.pages x) c opened left h = cc
  resumed-ok page_size (Response.commit_ack x) c opened left h = cc
  resumed-ok page_size (Response.pong x) c opened left h = cc
  resumed-ok page_size (Response.lease_revoked x) c opened left h = cc
  resumed-ok page_size (Response.error x) c opened left h = cc
  resumed-ok page_size Response.done c opened left h = cc
  resumed-ok page_size (Response.challenge x) c opened left h = cc
  resumed-ok page_size (Response.changes x) c opened left h = cc
  resumed-ok page_size (Response.slot x) c opened left h = cc

  abbrev Triple : Type 0
  Triple = Result ClientError Proto.Opened × Remote × Client W × Stats

  resumed_on-ok :
      (r r' : Remote) (s s' : Stats) (o : Option (Reply W Proto.Opened)) (opened : Proto.Opened)
      (left : Client W)
      → Path (Option Triple) (resumed_on net r s o) (some (ok opened, r', left, s'))
      → o ≡ some (ok opened, left)
  unfolding resumed_on
  resumed_on-ok r r' s s' none opened left h = cc
  resumed_on-ok r r' s s' (some (err e, c)) opened left h = cc
  resumed_on-ok r r' s s' (some (ok x, c)) opened left h = cc

  ask_resume-Answered :
      (r r' : Remote) (s s' : Stats) (page_size : ℕ) (c d left : Client W) (opened : Proto.Opened)
      → Taken c.inbox d.inbox
      → Path (Option Triple) (ask_resume net r s page_size d) (some (ok opened, r', left, s'))
      → Answered r c page_size opened left
  unfolding ask_resume resume_request
  ask_resume-Answered r r' s s' page_size c d left opened taken h =
      let asked = call net d (resume_request net r page_size) in
      let (answer, x, called, said) =
        and_then-ok asked (resumed net page_size) opened left
          (resumed_on-ok r r' s s' (and_then asked (resumed net page_size)) opened left h) in
      let (is_opened, same, usable) = resumed-ok page_size answer x opened left said in
      record {
        client = d;
        taken = taken;
        called = call-Called net d left (resuming r page_size) (Response.opened opened) (
            called
            ∙ ap (λ a. some (ok a, x)) is_opened
            ∙ ap (λ y. some (ok (Response.opened opened), y)) same);
        usable = usable;
      }

  after_reconnect-Answered :
      (r r' : Remote) (s s' : Stats) (page_size : ℕ) (c left : Client W) (opened : Proto.Opened)
      (o : Option (Reply W (Unit {0})))
      → Went (any_time net) c o
      → Path (Option Triple) (after_reconnect net r s page_size o) (some (ok opened, r', left, s'))
      → Answered r c page_size opened left
  unfolding after_reconnect
  after_reconnect-Answered r r' s s' page_size c left opened none went h = cc
  after_reconnect-Answered r r' s s' page_size c left opened (some (err e, d)) went h = cc
  after_reconnect-Answered r r' s s' page_size c left opened (some (ok u, d)) went h =
      ask_resume-Answered r r' _ s' page_size c d left opened went.left h

  -- Where resuming succeeds, the server has said so.
  pub resume-Answered :
      (r r' : Remote) (s s' : Stats) (page_size : ℕ) (c left : Client W) (opened : Proto.Opened)
      → Path (Option Triple) (resume net r c page_size s) (some (ok opened, r', left, s'))
      → Answered r c page_size opened left
  unfolding resume
  resume-Answered r r' s s' page_size c left opened h = elim (Bool-cases (is_connected net c)) [
    | inl on ↦
        ask_resume-Answered r r' s s' page_size c c left opened (Taken-refl c.inbox)
          (sym (if_true (is_connected net c) _ _ on) ∙ h)
    | inr off ↦
        after_reconnect-Answered r r' s s' page_size c left opened (reconnect net c)
          (reconnect-Went (any_time net) c) (sym (if_false (is_connected net c) _ _ off) ∙ h)
  ]
