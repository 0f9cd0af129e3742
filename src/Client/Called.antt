-- ===== src/Client/Called.antt =====
-- When a request has a response (`call`, crates/sqlite-remote-vfs/src/client.rs).
use sqlite_remote_vfs.Base.{
  ℕ, ◌≡◌, refl, sym, ◌∙◌, ap, inl, inr, Bool, true, false, Option, none, some, List, [], ◌∷◌, ◌++◌,
  ◌==◌, arith, Result, ok, err, elem, Bool-cases, ==→eq,
}
use sqlite_remote_vfs.Base.Bytes.{Bytes}
use sqlite_remote_vfs.Proto.{ServerFrame, Request, Response}
use sqlite_remote_vfs.Client.{Network, Client, Reply, Turn}
use sqlite_remote_vfs.Client.Listen.{send, wait, call, call_turn, response_of}
use sqlite_remote_vfs.Client.Answers.{run, heard, listen-Listened}
use sqlite_remote_vfs.Client.Sent.{OnWire, send-OnWire}
use sqlite_remote_vfs.Client.Acknowledged.{
  addressed, addressed_here, addressed_elsewhere, run-return, run-again, some_inj,
}

response_of-ok :
    (body : Option Response) (answer : Response) → response_of body ≡ ok answer → body ≡ some answer
unfolding response_of
response_of-ok none answer h = cc
response_of-ok (some (Response.error e)) answer h = cc
response_of-ok (some (Response.hello_ok x)) answer h = cc
response_of-ok (some (Response.opened x)) answer h = cc
response_of-ok (some (Response.pages x)) answer h = cc
response_of-ok (some (Response.commit_ack x)) answer h = cc
response_of-ok (some (Response.pong x)) answer h = cc
response_of-ok (some (Response.lease_revoked x)) answer h = cc
response_of-ok (some Response.done) answer h = cc
response_of-ok (some (Response.challenge x)) answer h = cc
response_of-ok (some (Response.changes x)) answer h = cc
response_of-ok (some (Response.slot x)) answer h = cc

-- The only frame that answers the request.
pub record OnlyAnswer (id : ℕ) (answer : Response) (frames : List ServerFrame) : Type 0 where
  pub frame : ServerFrame
  pub only : addressed (id ∷ []) frames ≡ frame ∷ []
  pub to_request : frame.request_id ≡ id
  pub body : frame.body ≡ some answer

module _ (id : ℕ) where
  call_turn_here :
      (f : ServerFrame)
      → (f.request_id == id) ≡ true
      → call_turn id f tt ≡ Turn.return (response_of f.body)
  unfolding call_turn
  call_turn_here f mine = rw mine refl

  call_turn_elsewhere :
      (f : ServerFrame) → (f.request_id == id) ≡ false → call_turn id f tt ≡ Turn.again tt
  unfolding call_turn
  call_turn_elsewhere f other = rw other refl

  elem_one : (a : ℕ) (t : Bool) → (a == id) ≡ t → elem a (id ∷ []) ≡ t
  elem_one a t e = ground arith

  run_call :
      (frames : List ServerFrame) (answer : Response)
      → run (call_turn id) frames tt ≡ some (ok answer)
      → OnlyAnswer id answer frames
  run_call [] answer h = cc
  run_call (f ∷ fs) answer h = elim (Bool-cases (f.request_id == id)) [
    | inr other ↦
        let skip = call_turn_elsewhere f other in
        let o = run_call fs answer (sym (run-again (call_turn id) f fs tt tt skip) ∙ h) in
        record {
          frame = o.frame;
          only = addressed_elsewhere (id ∷ []) f fs (elem_one f.request_id false other) ∙ o.only;
          to_request = o.to_request;
          body = o.body;
        }
    | inl mine ↦
        let (nothing_more, result) =
          run-return (call_turn id) f fs tt (response_of f.body) (ok answer) (call_turn_here f mine)
            h in
        record {
          frame = f;
          only =
              addressed_here (id ∷ []) f fs (elem_one f.request_id true mine)
              ∙ ap (λ l. f ∷ addressed (id ∷ []) l) nothing_more
              ∙ (unfold addressed in refl);
          to_request = ==→eq f.request_id id mine;
          body = response_of-ok f.body answer result;
        }
  ]

module _ {W : Type 0} (net : Network W) where
  -- A request that was put on the socket, and its only answer among the frames that were taken off.
  pub record Called (c : Client W) (body : Request) (answer : Response) (c' : Client W)
      : Type 0 where
    pub id : ℕ
    pub world : W
    pub on_wire : OnWire net id body c.world world
    pub before : List (Result Bytes Bytes)
    pub split : c.inbox ≡ before ++ c'.inbox
    pub only_answer : OnlyAnswer id answer (heard net before)

  after_request :
      (o : Reply W ℕ) (c c' : Client W) (body : Request) (answer : Response)
      → send net c body ≡ o
      → Path
          (Option (Reply W Response))
          (elim o.0 [ err e ↦ some (err e, o.1) | ok id ↦ wait net (call_turn id) o.1 tt ])
          (some (ok answer, c'))
      → Called c body answer c'
  unfolding wait
  after_request (err e, after) c c' body answer s h = cc
  after_request (ok id, after) c c' body answer s h =
      elim (listen-Listened net (call_turn id) after.inbox after tt) [
        | inl waits ↦ cc (waits, h)
        | inr (o, e, ended) ↦
            let same : o ≡ (ok answer, c') = some_inj (sym e ∙ h) in
            let (_, on_wire, same_inbox) = send-OnWire net c after body id s in
            elim (rw same at ended) [
              | inr (lost, failed, _) ↦ cc failed
              | inl (before, split, over) ↦ record {
                id = id;
                world = after.world;
                on_wire = on_wire;
                before = before;
                split = sym same_inbox ∙ split;
                only_answer = run_call id (heard net before) answer over;
              }
            ]
      ]

  pub call-Called :
      (c c' : Client W) (body : Request) (answer : Response)
      → call net c body ≡ some (ok answer, c')
      → Called c body answer c'
  unfolding call
  call-Called c c' body answer h = after_request (send net c body) c c' body answer refl h
