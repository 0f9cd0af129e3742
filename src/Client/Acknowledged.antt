-- ===== src/Client/Acknowledged.antt =====
-- When a commit and a fetch succeed (crates/sqlite-remote-vfs/src/client.rs).
use sqlite_remote_vfs.Base.{
  ℕ, ◌≡◌, refl, sym, ◌∙◌, ap, inl, inr, Bool, true, false, Option, none, some, List, [], ◌∷◌, ◌++◌,
  if◌then◌else◌, ◌==◌, Result, ok, err, elem, Bool-cases, ==→eq,
}
use sqlite_remote_vfs.Base.Bytes.{Bytes}
use sqlite_remote_vfs.Proto
use sqlite_remote_vfs.Proto.{ServerFrame, Response, ServerError}
use sqlite_remote_vfs.Failure.{ClientError}
use sqlite_remote_vfs.Client.{Network, Client, Reply, Turn}
use sqlite_remote_vfs.Client.Listen.{
  send_all, wait, wait_ack, commit, commit_turn, commit_body, last_id, acknowledged,
}
use sqlite_remote_vfs.Client.Sent.{AllOnWire, send_all-Added}
use sqlite_remote_vfs.Client.Answers.{run, heard, listen-Listened}

module _ {S A : Type 0} (turn : ServerFrame → S → Turn S A) where
  pub run-return :
      (f : ServerFrame) (fs : List ServerFrame) (s : S) (r r' : Result ClientError A)
      → turn f s ≡ Turn.return r
      → run turn (f ∷ fs) s ≡ some r'
      → (fs ≡ []) × (r ≡ r')
  run-return f [] s r r' e h = (refl, cc (rw (e, run) at h))
  run-return f (f' ∷ fs) s r r' e h = cc (rw (e, run) at h)

  pub run-again :
      (f : ServerFrame) (fs : List ServerFrame) (s s' : S)
      → turn f s ≡ Turn.again s'
      → run turn (f ∷ fs) s ≡ run turn fs s'
  run-again f fs s s' e = rw (e, run)

-- The frames that answer one of the requests.
unfoldable pub addressed : List ℕ → List ServerFrame → List ServerFrame
addressed ids [] = []
addressed ids (f ∷ fs) =
    let rest = addressed ids fs in if elem f.request_id ids then f ∷ rest else rest

data CommitBody (b : Option Response) (is_last : Bool) (refusal : Option ServerError) : Type 0 where
  fails :
      (e : ClientError)
      → commit_body b is_last refusal ≡ Turn.return (err e)
      → CommitBody b is_last refusal
  refuses :
      (e : ServerError)
      → commit_body b is_last refusal ≡ Turn.again (some e)
      → CommitBody b is_last refusal
  acknowledges :
      (ack : Proto.CommitAck)
      → b ≡ some (Response.commit_ack ack)
      → is_last ≡ true
      → commit_body b is_last refusal ≡ Turn.return (acknowledged refusal ack.version)
      → CommitBody b is_last refusal

CommitBody-cases :
    (b : Option Response) (is_last : Bool) (refusal : Option ServerError)
    → CommitBody b is_last refusal
unfolding commit_body
CommitBody-cases none is_last refusal = fails _ refl
CommitBody-cases (some (Response.error e)) true refusal = fails _ refl
CommitBody-cases (some (Response.error e)) false refusal = refuses _ refl
CommitBody-cases (some (Response.commit_ack ack)) true refusal = acknowledges ack refl refl refl
CommitBody-cases (some (Response.commit_ack ack)) false refusal = fails _ refl
CommitBody-cases (some (Response.hello_ok x)) is_last refusal = fails _ refl
CommitBody-cases (some (Response.opened x)) is_last refusal = fails _ refl
CommitBody-cases (some (Response.pages x)) is_last refusal = fails _ refl
CommitBody-cases (some (Response.pong x)) is_last refusal = fails _ refl
CommitBody-cases (some (Response.lease_revoked x)) is_last refusal = fails _ refl
CommitBody-cases (some Response.done) is_last refusal = fails _ refl
CommitBody-cases (some (Response.challenge x)) is_last refusal = fails _ refl
CommitBody-cases (some (Response.changes x)) is_last refusal = fails _ refl
CommitBody-cases (some (Response.slot x)) is_last refusal = fails _ refl

-- The only answer to the parts of a commit is the acknowledgement of the last one.
pub record OnlyAck (ids : List ℕ) (last v : ℕ) (frames : List ServerFrame) : Type 0 where
  pub answer : ServerFrame
  pub ack : Proto.CommitAck
  pub only : addressed ids frames ≡ answer ∷ []
  pub to_last : answer.request_id ≡ last
  pub body : answer.body ≡ some (Response.commit_ack ack)
  pub version : ack.version ≡ v

acknowledged_ok :
    (refusal : Option ServerError) (version v : ℕ)
    → acknowledged refusal version ≡ ok v
    → (refusal ≡ none) × (version ≡ v)
unfolding acknowledged
acknowledged_ok none version v e = (refl, cc)
acknowledged_ok (some x) version v e = cc

module _ (ids : List ℕ) where
  pub addressed_here :
      (f : ServerFrame) (fs : List ServerFrame)
      → elem f.request_id ids ≡ true
      → addressed ids (f ∷ fs) ≡ f ∷ addressed ids fs
  unfolding addressed
  addressed_here f fs mine = rw mine refl

  pub addressed_elsewhere :
      (f : ServerFrame) (fs : List ServerFrame)
      → elem f.request_id ids ≡ false
      → addressed ids (f ∷ fs) ≡ addressed ids fs
  unfolding addressed
  addressed_elsewhere f fs other = rw other refl

  commit_turn_here :
      (last : ℕ) (f : ServerFrame) (refusal : Option ServerError) (t : _)
      → elem f.request_id ids ≡ true
      → commit_body f.body (f.request_id == last) refusal ≡ t
      → commit_turn ids last f refusal ≡ t
  unfolding commit_turn
  commit_turn_here last f refusal t mine e = rw mine e

  commit_turn_elsewhere :
      (last : ℕ) (f : ServerFrame) (refusal : Option ServerError)
      → elem f.request_id ids ≡ false
      → commit_turn ids last f refusal ≡ Turn.again refusal
  unfolding commit_turn
  commit_turn_elsewhere last f refusal other = rw other refl

  run_commit :
      (last : ℕ) (frames : List ServerFrame) (refusal : Option ServerError) (v : ℕ)
      → run (commit_turn ids last) frames refusal ≡ some (ok v)
      → (refusal ≡ none) × OnlyAck ids last v frames
  run_commit last [] refusal v h = cc
  run_commit last (f ∷ fs) refusal v h =
      let turn = commit_turn ids last in
      elim (Bool-cases (elem f.request_id ids)) [
        | inr other ↦
            let skip = commit_turn_elsewhere last f refusal other in
            let (none_yet, o) =
              run_commit last fs refusal v (sym (run-again turn f fs refusal refusal skip) ∙ h) in
            (
              none_yet,
              record {
                answer = o.answer;
                ack = o.ack;
                only = addressed_elsewhere f fs other ∙ o.only;
                to_last = o.to_last;
                body = o.body;
                version = o.version;
              },
            )
        | inl mine ↦ elim (CommitBody-cases f.body (f.request_id == last) refusal) [
          | fails e eq ↦
              let here = commit_turn_here last f refusal (Turn.return (err e)) mine eq in
              cc (run-return turn f fs refusal (err e) (ok v) here h).1
          | refuses e eq ↦
              let here = commit_turn_here last f refusal (Turn.again (some e)) mine eq in
              cc (
                (run_commit last fs (some e) v
                  (sym (run-again turn f fs refusal (some e) here) ∙ h)).0)
          | acknowledges ack body to_last eq ↦
              let here =
                commit_turn_here last f refusal (Turn.return (acknowledged refusal ack.version))
                  mine eq in
              let (nothing_more, result) =
                run-return turn f fs refusal (acknowledged refusal ack.version) (ok v) here h in
              let (none_yet, version) = acknowledged_ok refusal ack.version v result in
              (
                none_yet,
                record {
                  answer = f;
                  ack = ack;
                  only =
                      addressed_here f fs mine
                      ∙ ap (λ l. f ∷ addressed ids l) nothing_more
                      ∙ (unfold addressed in refl);
                  to_last = ==→eq f.request_id last to_last;
                  body = body;
                  version = version;
                },
              )
        ]
      ]

pub some_inj : {A : Type 0} {a b : A} → Path (Option A) (some a) (some b) → a ≡ b
some_inj e = cc

module _ {W : Type 0} (net : Network W) where
  -- What a successful commit has sent and heard.
  pub record CommitDone (c : Client W) (parts : List Proto.Commit) (v : ℕ) (c' : Client W)
      : Type 0 where
    pub ids : List ℕ
    pub last : ℕ
    pub world : W
    pub all_sent : AllOnWire net parts ids c.world world
    pub is_last : last_id ids ≡ some last
    pub before : List (Result Bytes Bytes)
    pub split : c.inbox ≡ before ++ c'.inbox
    pub only_ack : OnlyAck ids last v (heard net before)

  wait_ack-CommitDone :
      (last : Option ℕ) (c after c' : Client W) (parts : List Proto.Commit) (ids : List ℕ) (v : ℕ)
      → send_all net c parts [] ≡ (ok ids, after)
      → last_id ids ≡ last
      → wait_ack net last after ids ≡ some (ok v, c')
      → CommitDone c parts v c'
  unfolding wait_ack wait
  wait_ack-CommitDone none c after c' parts ids v s l h = cc
  wait_ack-CommitDone (some last) c after c' parts ids v s l h =
      elim (listen-Listened net (commit_turn ids last) after.inbox after none) [
        | inl waits ↦ cc (waits, h)
        | inr (o, e, ended) ↦
            let same : o ≡ (ok v, c') = some_inj (sym e ∙ h) in
            let added = send_all-Added net c after parts [] ids s in
            elim (rw same at ended) [
              | inr (lost, failed, _) ↦ cc failed
              | inl (before, split, ends) ↦ record {
                ids = ids;
                last = last;
                world = after.world;
                all_sent = rw added.joined added.on_wire;
                is_last = l;
                before = before;
                split = sym added.same_inbox ∙ split;
                only_ack = (run_commit ids last (heard net before) none v ends).1;
              }
            ]
      ]

  after_sending :
      (o : Reply W (List ℕ)) (c c' : Client W) (parts : List Proto.Commit) (v : ℕ)
      → send_all net c parts [] ≡ o
      → Path
          (Option (Reply W ℕ))
          (elim o.0 [ err e ↦ some (err e, o.1) | ok ids ↦ wait_ack net (last_id ids) o.1 ids ])
          (some (ok v, c'))
      → CommitDone c parts v c'
  after_sending (err e, after) c c' parts v s h = cc
  after_sending (ok ids, after) c c' parts v s h =
      wait_ack-CommitDone (last_id ids) c after c' parts ids v s refl h

  -- `commit` returns a version only if the socket has taken every part, one frame for each in their
  -- order, each under an id; and if the acknowledgement of the last part, with that version, is the
  -- only response to any of these ids among the frames that were taken off the connection: the server
  -- refused none of them.
  pub commit-CommitDone :
      (c c' : Client W) (parts : List Proto.Commit) (v : ℕ)
      → commit net c parts ≡ some (ok v, c')
      → CommitDone c parts v c'
  unfolding commit
  commit-CommitDone c c' parts v h = after_sending (send_all net c parts []) c c' parts v refl h
