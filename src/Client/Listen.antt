-- ===== src/Client/Listen.antt =====
-- Sending requests and waiting for their responses (`send`, `receive`, `call`, `fetch_frames`,
-- `commit` in crates/sqlite-remote-vfs/src/client.rs).
use sqlite_remote_vfs.Base.{
  ℕ, ◌+◌, Bool, true, false, not, Option, none, some, List, [], ◌∷◌, ◌++◌, if◌then◌else◌, ◌==◌, u64,
  length, Result, ok, err, elem,
}
use sqlite_remote_vfs.Base.Bytes.{Bytes}
use sqlite_remote_vfs.Proto
use sqlite_remote_vfs.Proto.{ServerFrame, Request, Response, ServerError}
use sqlite_remote_vfs.Failure.{ClientError, Complaint}
use sqlite_remote_vfs.LocalDb.{odd_block}
use sqlite_remote_vfs.Client.{
  Network, Client, Reply, Turn, Arrival, is_open, disconnect, unsolicited, not_connected,
}

-- The last of the ids
unfoldable pub last_id : List ℕ → Option ℕ
last_id [] = none
last_id (id ∷ []) = some id
last_id (id ∷ next ∷ rest) = last_id (next ∷ rest)

-- The response to a request: `call` skips the frames of other requests.
unfoldable pub response_of : Option Response → Result ClientError Response
response_of none = err (ClientError.protocol Complaint.empty_response)
response_of (some (Response.error e)) = err (ClientError.server e)
response_of (some body) = ok body

unfoldable pub call_turn : ℕ → ServerFrame → Unit {0} → Turn (Unit {0}) Response
unfolding response_of
call_turn id frame _ =
    if frame.request_id == id then Turn.return (response_of frame.body) else Turn.again tt

-- The blocks of a frame with their indexes.
unfoldable pub numbered : ℕ → List Bytes → List (ℕ × Bytes)
numbered first [] = []
numbered first (b ∷ bs) = (first, b) ∷ numbered (u64 (first + 1)) bs

-- The end of a fetch, where the number of blocks is compared with the number asked for.
unfoldable pub fetch_more :
    Option ℕ → Proto.Pages → ℕ → ℕ → List (ℕ × Bytes) → Turn (List (ℕ × Bytes)) (List (ℕ × Bytes))
unfolding numbered
fetch_more (some bytes) pages expected block_size blocks =
    Turn.return (err (ClientError.protocol (Complaint.block_size_is bytes block_size)))
fetch_more none pages expected block_size blocks =
    let blocks' = blocks ++ numbered pages.first_block pages.blocks in
    if pages.last
    then (if length blocks' == expected
        then Turn.return (ok blocks')
        else Turn.return
            (err (ClientError.protocol (Complaint.block_count_is (length blocks') expected))))
    else Turn.again blocks'

unfoldable pub fetch_body :
    Option Response → ℕ → ℕ → List (ℕ × Bytes) → Turn (List (ℕ × Bytes)) (List (ℕ × Bytes))
unfolding fetch_more odd_block
fetch_body (some (Response.pages pages)) expected block_size blocks =
    fetch_more (odd_block block_size pages.blocks) pages expected block_size blocks
fetch_body (some (Response.error e)) expected block_size blocks =
    Turn.return (err (ClientError.server e))
fetch_body none expected block_size blocks =
    Turn.return (err (ClientError.protocol Complaint.empty_response))
fetch_body (some other) expected block_size blocks =
    Turn.return (err (ClientError.protocol (Complaint.unexpected other)))

unfoldable pub fetch_turn :
    ℕ → ℕ → ℕ → ServerFrame → List (ℕ × Bytes) → Turn (List (ℕ × Bytes)) (List (ℕ × Bytes))
unfolding fetch_body
fetch_turn id expected block_size frame blocks =
    if frame.request_id == id
    then fetch_body frame.body expected block_size blocks
    else Turn.again blocks

-- `refusal.get_or_insert(e)`
unfoldable pub or_first : Option ServerError → ServerError → ServerError
or_first none e = e
or_first (some first) e = first

unfoldable pub acknowledged : Option ServerError → ℕ → Result ClientError ℕ
acknowledged none version = ok version
acknowledged (some e) version = err (ClientError.server e)

-- A response to one of the parts of a commit; `is_last`: to the last one.
unfoldable pub commit_body :
    Option Response → Bool → Option ServerError → Turn (Option ServerError) ℕ
unfolding or_first acknowledged
commit_body (some (Response.error e)) is_last refusal =
    if is_last
    then Turn.return (err (ClientError.server (or_first refusal e)))
    else Turn.again (some (or_first refusal e))
commit_body (some (Response.commit_ack ack)) is_last refusal =
    if is_last
    then Turn.return (acknowledged refusal ack.version)
    else Turn.return (err (ClientError.protocol (Complaint.unexpected (Response.commit_ack ack))))
commit_body none is_last refusal = Turn.return (err (ClientError.protocol Complaint.empty_response))
commit_body (some other) is_last refusal =
    Turn.return (err (ClientError.protocol (Complaint.unexpected other)))

unfoldable pub commit_turn :
    List ℕ → ℕ → ServerFrame → Option ServerError → Turn (Option ServerError) ℕ
unfolding commit_body
commit_turn ids last frame refusal =
    if elem frame.request_id ids
    then commit_body frame.body (frame.request_id == last) refusal
    else Turn.again refusal

module _ {W : Type 0} (net : Network W) where
  unfoldable pub arrival_of : Option ServerFrame → Arrival
  arrival_of none = Arrival.malformed
  arrival_of (some f) = if f.request_id == 0 then Arrival.unasked f.body else Arrival.frame f

  unfoldable pub arrival : Result Bytes Bytes → Arrival
  unfolding arrival_of
  arrival (err reason) = Arrival.broken_off reason
  arrival (ok bytes) = arrival_of (net.decode bytes)

  -- `receive` and the loop around it: takes frames off the inbox until the caller returns. The
  -- unasked ones are handled here.
  unfoldable pub listen :
      {S A : Type 0}
      → (ServerFrame → S → Turn S A)
      → List (Result Bytes Bytes)
      → Client W
      → S
      → Option (Reply W A)
  unfolding arrival unsolicited is_open disconnect
  listen turn [] c s = if is_open c then none else some (err not_connected, record c { inbox = [] })
  listen turn (next ∷ rest) c s = elim (is_open c) [
    | false ↦ some (err not_connected, record c { inbox = next ∷ rest })
    | true ↦ elim (arrival next) [
      | Arrival.broken_off reason ↦
          some (err (ClientError.transport reason), record (disconnect c) { inbox = rest })
      | Arrival.malformed ↦
          some (err (ClientError.protocol Complaint.malformed_frame), record c { inbox = rest })
      | Arrival.unasked body ↦ listen turn rest (unsolicited body c) s
      | Arrival.frame f ↦ elim (turn f s) [
        | Turn.again s' ↦ listen turn rest c s'
        | Turn.return r ↦ some (r, record c { inbox = rest })
      ]
    ]
  ]

  unfoldable pub wait :
      {S A : Type 0} → (ServerFrame → S → Turn S A) → Client W → S → Option (Reply W A)
  unfolding listen
  wait turn c s = listen turn c.inbox c s

  unfoldable pub sent : Result Bytes (Unit {0}) → Client W → ℕ → Reply W ℕ
  sent (err reason) c id =
      (err (ClientError.transport reason), record c { next_id = id; connected = false })
  sent (ok _) c id = (ok id, record c { next_id = id; last_request = net.now c.world })

  unfoldable pub send : Client W → Request → Reply W ℕ
  unfolding is_open sent
  send c body =
      if not (is_open c)
      then (err not_connected, c)
      else (let id = u64 (c.next_id + 1) in
          let (r, w) =
            net.send_bytes c.world (net.encode (record { request_id = id; body = body })) in
          sent r (record c { world = w }) id)

  unfoldable pub call : Client W → Request → Option (Reply W Response)
  unfolding send wait call_turn
  call c body =
      let (r, c') = send c body in
      elim r [ err e ↦ some (err e, c') | ok id ↦ wait (call_turn id) c' tt ]

  unfoldable pub fetch_frames : Client W → Proto.Fetch → ℕ → ℕ → Option (Reply W (List (ℕ × Bytes)))
  unfolding send wait fetch_turn
  fetch_frames c fetch expected block_size =
      let (r, c') = send c (Request.fetch fetch) in
      elim r [ err e ↦ some (err e, c') | ok id ↦ wait (fetch_turn id expected block_size) c' [] ]

  -- Sends the parts one after the other.
  unfoldable pub send_all : Client W → List Proto.Commit → List ℕ → Reply W (List ℕ)
  unfolding send
  send_all c [] ids = (ok ids, c)
  send_all c (part ∷ parts) ids =
      let (r, c') = send c (Request.commit part) in
      elim r [ err e ↦ (err e, c') | ok id ↦ send_all c' parts (ids ++ (id ∷ [])) ]

  unfoldable pub wait_ack : Option ℕ → Client W → List ℕ → Option (Reply W ℕ)
  unfolding wait commit_turn
  wait_ack none c ids = some (err (ClientError.protocol Complaint.commit_without_parts), c)
  wait_ack (some last) c ids = wait (commit_turn ids last) c none

  unfoldable pub commit : Client W → List Proto.Commit → Option (Reply W ℕ)
  unfolding send_all wait_ack last_id
  commit c parts =
      let (r, c') = send_all c parts [] in
      elim r [ err e ↦ some (err e, c') | ok ids ↦ wait_ack (last_id ids) c' ids ]
