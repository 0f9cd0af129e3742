-- ===== src/Client/Login.antt =====
-- Logging in, and the requests with one response (crates/sqlite-remote-vfs/src/client.rs).
use sqlite_remote_vfs.Base.{
  ℕ, ◌+◌, ◌-◌, ◌*◌, ◌/◌, min, Bool, true, false, not, ◌&&◌, Option, none, some, List, [], ◌∷◌, ◌++◌,
  if◌then◌else◌, leb, ◌==◌, u64, Result, ok, err, map,
}
use sqlite_remote_vfs.Base.Bytes.{Bytes}
use sqlite_remote_vfs.Proto
use sqlite_remote_vfs.Proto.{Request, Response}
use sqlite_remote_vfs.Failure.{ClientError, Complaint, is_access_denied}
use sqlite_remote_vfs.Identity.{wire_algorithm, login_transcript}
use sqlite_remote_vfs.Client.{
  Network, Client, ClientConfig, Reply, protocol_version, token_renewal_margin, is_open,
}
use sqlite_remote_vfs.Client.Listen.{call, fetch_frames}

-- `?`: goes on with the value, or returns the error.
unfoldable pub and_then :
    {W A B : Type 0} → Option (Reply W A) → (A → Client W → Option (Reply W B)) → Option (Reply W B)
and_then none next = none
and_then (some (err e, c)) next = some (err e, c)
and_then (some (ok a, c)) next = next a c

unfoldable pub unexpected : {W A : Type 0} → Response → Client W → Option (Reply W A)
unexpected answer c = some (err (ClientError.protocol (Complaint.unexpected answer)), c)

unfoldable pub token_error : {W : Type 0} → Result Bytes Bytes → Client W → Option (Reply W Bytes)
token_error (ok token) c = some (ok token, c)
token_error (err reason) c = some (err (ClientError.token reason), c)

unfoldable pub transport_error :
    {W : Type 0} → Result Bytes (Unit {0}) → Client W → Option (Reply W (Unit {0}))
transport_error (ok _) c = some (ok tt, c)
transport_error (err reason) c = some (err (ClientError.transport reason), c)

-- When to reconnect with a new token, for one that is valid for `ttl` from `now` on.
unfoldable pub renewal : ℕ → ℕ → Option ℕ
renewal now ttl = if ttl == 0 then none else some (now + (ttl - min token_renewal_margin (ttl / 2)))

unfoldable pub due : Option ℕ → ℕ → Bool
due none now = false
due (some time) now = leb time now

module _ {W : Type 0} (net : Network W) where
  unfoldable pub is_connected : Client W → Bool
  unfolding is_open due
  is_connected c = is_open c && not (due c.token_renewal (net.now c.world))

  unfoldable pub access_token : Client W → Option (Reply W Bytes)
  unfolding token_error
  access_token c =
      if c.config.has_token
      then (let (r, w) = net.token c.world in token_error r (record c { world = w }))
      else some (ok [], c)

  unfoldable pub hello : Client W → Bytes → Request
  unfolding wire_algorithm
  hello c token = Request.hello (record {
    protocol_version = protocol_version;
    instance_id = c.config.instance_id;
    sig_alg = wire_algorithm c.config.signer.algorithm;
    public_key = c.config.signer.public_key;
    access_token = token;
  })

  -- The signature of the client's key for a challenge.
  unfoldable pub proof : ClientConfig → Proto.Challenge → Request
  unfolding login_transcript
  proof config challenge = Request.proof (record {
    signature = config.signer.sign (
        login_transcript challenge.server_id challenge.nonce config.instance_id
          config.signer.algorithm config.signer.public_key);
  })

  unfoldable pub welcomed : ClientConfig → Response → Client W → Option (Reply W (Unit {0}))
  unfolding renewal unexpected
  welcomed config (Response.hello_ok welcome) c =
      let c' = record c {
        max_frame_bytes = welcome.max_frame_bytes;
        ping_interval = welcome.ping_interval_ms * 1000000;
        token_renewal = renewal (net.now c.world) (welcome.access_token_ttl_ms * 1000000);
        world =
            if c.has_socket
            then net.logged_in c.world (welcome.ping_interval_ms * 1000000)
            else c.world;
        logins = u64 (c.logins + 1);
      } in
      some (ok tt, c')
  welcomed config other c = unexpected other c

  unfoldable pub challenged : ClientConfig → Response → Client W → Option (Reply W (Unit {0}))
  unfolding and_then call proof welcomed unexpected
  challenged config (Response.challenge challenge) c =
      and_then (call net c (proof config challenge)) (welcomed config)
  challenged config other c = unexpected other c

  unfoldable pub say_hello : Client W → Option (Reply W (Unit {0}))
  unfolding and_then access_token call hello challenged
  say_hello c =
      and_then (access_token c)
        (λ token c1. and_then (call net c1 (hello c1 token)) (challenged c.config))

  unfoldable pub open_socket : Client W → Option (Reply W (Unit {0}))
  unfolding and_then transport_error
  open_socket c =
      let (r, w) = if c.has_socket then net.reopen c.world else net.dial c.world in
      and_then (transport_error r (record c { world = w }))
        (λ _ c'. some (ok tt, record c' { has_socket = true; connected = true }))

  -- The second try, after the server has rejected the token.
  unfoldable pub retried : Option (Reply W (Unit {0})) → Option (Reply W (Unit {0}))
  unfolding and_then open_socket say_hello is_access_denied
  retried none = none
  retried (some (ok _, c)) = some (ok tt, c)
  retried (some (err e, c)) = elim (is_access_denied e && c.config.has_token) [
    | false ↦ some (err e, c)
    | true ↦ and_then (open_socket c) (λ _ c'. say_hello c')
  ]

  unfoldable pub log_in : Client W → Option (Reply W (Unit {0}))
  unfolding retried say_hello
  log_in c = retried (say_hello c)

  unfoldable pub reconnect : Client W → Option (Reply W (Unit {0}))
  unfolding and_then open_socket log_in
  reconnect c = and_then (open_socket c) (λ _ c'. log_in c')

  expect_ok : Response → Client W → Option (Reply W (Unit {0}))
  unfolding unexpected
  expect_ok Response.done c = some (ok tt, c)
  expect_ok other c = unexpected other c

  expect_slot : Response → Client W → Option (Reply W Proto.Slot)
  unfolding unexpected
  expect_slot (Response.slot slot) c = some (ok slot, c)
  expect_slot other c = unexpected other c

  expect_changes : Response → Client W → Option (Reply W Proto.Changes)
  unfolding unexpected
  expect_changes (Response.changes changes) c = some (ok changes, c)
  expect_changes other c = unexpected other c

  unfoldable pub delete : Client W → Bytes → Bool → Option (Reply W (Unit {0}))
  unfolding and_then call expect_ok
  delete c db_id takeover =
      and_then (call net c (Request.delete (record { db_id = db_id; takeover = takeover })))
        expect_ok

  unfoldable pub claim_slot : Client W → Option (Reply W Proto.Slot)
  unfolding and_then call expect_slot
  claim_slot c = and_then (call net c Request.claim_slot) expect_slot

  unfoldable pub set_slot_label : Client W → Bytes → Option (Reply W Proto.Slot)
  unfolding and_then call expect_slot
  set_slot_label c label =
      and_then (call net c (Request.set_slot_label (record { label = label }))) expect_slot

  unfoldable pub delete_slot : Client W → Option (Reply W (Unit {0}))
  unfolding and_then call expect_ok
  delete_slot c = and_then (call net c Request.delete_slot) expect_ok

  unfoldable pub changes : Client W → Bytes → ℕ → Option (Reply W Proto.Changes)
  unfolding and_then call expect_changes
  changes c db_id from_version =
      and_then
        (call net c (Request.changed (record { db_id = db_id; from_version = from_version })))
        expect_changes

  add_trace : Option (List (ℕ × ℕ)) → List (ℕ × ℕ) → Option (List (ℕ × ℕ))
  add_trace none ranges = none
  add_trace (some trace) ranges = some (trace ++ ranges)

  abbrev content : ℕ × Bytes → Bytes
  content (i, bytes) = bytes

  unfoldable pub fetch : Client W → Proto.Fetch → ℕ → Option (Reply W (List Bytes))
  unfolding and_then fetch_frames add_trace
  fetch c request block_size =
      and_then
        (fetch_frames net
          (record c { trace = add_trace c.trace ((request.first_block, request.count) ∷ []) })
          request request.count block_size)
        (λ blocks c'. some (ok (map content blocks), c'))

  sum : List (ℕ × ℕ) → ℕ
  sum [] = 0
  sum ((first, count) ∷ rest) = u64 (count + sum rest)

  range_of : ℕ × ℕ → Proto.Range
  range_of (first, count) = record { first_block = first; count = count }

  unfoldable pub fetch_ranges :
      Client W → Bytes → ℕ → List (ℕ × ℕ) → ℕ → Option (Reply W (List (ℕ × Bytes)))
  unfolding fetch_frames add_trace sum range_of
  fetch_ranges c db_id version ranges block_size =
      fetch_frames net (record c { trace = add_trace c.trace ranges })
        (record {
          db_id = db_id;
          version = version;
          first_block = 0;
          count = 0;
          ranges = map range_of ranges;
        })
        (sum ranges) block_size
