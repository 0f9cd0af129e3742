-- ===== src/Proto.antt =====
-- The messages of the page server protocol
-- (crates/sqlite-remote-protocol/src/sqlite_remote.v1.rs), as values. Their protobuf encoding is
-- the work of the `prost` crate, which the client takes as a parameter.
use sqlite_remote_vfs.Base.{ℕ, Option, List, Bool}
use sqlite_remote_vfs.Base.Bytes.{Bytes}

pub record Hello : Type 0 where
  pub protocol_version : ℕ
  pub instance_id : Bytes
  pub sig_alg : ℕ
  pub public_key : Bytes
  pub access_token : Bytes

pub record Challenge : Type 0 where
  pub nonce : Bytes
  pub server_id : Bytes
  pub expires_at_ms : ℕ

pub record Proof : Type 0 where
  pub signature : Bytes

pub record HelloOk : Type 0 where
  pub protocol_version : ℕ
  pub max_frame_bytes : ℕ
  pub ping_interval_ms : ℕ
  pub lease_ttl_ms : ℕ
  pub access_token_ttl_ms : ℕ

pub record Resume : Type 0 where
  pub lease_id : Bytes
  pub lease_epoch : ℕ
  pub known_version : ℕ
  pub pending_commit_id : Bytes

pub record Open : Type 0 where
  pub db_id : Bytes
  pub page_size : ℕ
  pub create_if_missing : Bool
  pub takeover : Bool
  pub resume : Option Resume

pub record Opened : Type 0 where
  pub lease_id : Bytes
  pub lease_epoch : ℕ
  pub version : ℕ
  pub page_size : ℕ
  pub page_count : ℕ
  pub last_commit_id : Bytes

pub record Range : Type 0 where
  pub first_block : ℕ
  pub count : ℕ

pub record Fetch : Type 0 where
  pub db_id : Bytes
  pub version : ℕ
  pub first_block : ℕ
  pub count : ℕ
  pub ranges : List Range

pub record Pages : Type 0 where
  pub first_block : ℕ
  pub blocks : List Bytes
  pub last : Bool

pub record Changed : Type 0 where
  pub db_id : Bytes
  pub from_version : ℕ

pub record Changes : Type 0 where
  pub from_version : ℕ
  pub to_version : ℕ
  pub blocks : List ℕ
  pub complete : Bool

pub record Block : Type 0 where
  pub index : ℕ
  pub content : Bytes

pub record Commit : Type 0 where
  pub db_id : Bytes
  pub commit_id : Bytes
  pub lease_epoch : ℕ
  pub base_version : ℕ
  pub page_count : ℕ
  pub blocks : List Block
  pub more : Bool
  pub part : ℕ

pub record CommitAck : Type 0 where
  pub commit_id : Bytes
  pub version : ℕ

pub record CloseDb : Type 0 where
  pub db_id : Bytes
  pub lease_epoch : ℕ

pub record Delete : Type 0 where
  pub db_id : Bytes
  pub takeover : Bool

pub record SetSlotLabel : Type 0 where
  pub label : Bytes

pub record Slot : Type 0 where
  pub label : Bytes
  pub claimed_at_ms : ℕ
  pub replaced_label : Bytes

pub record LeaseRevoked : Type 0 where
  pub db_id : Bytes
  pub new_lease_epoch : ℕ

pub data ErrorCode : Type 0 where
  unspecified unauthenticated forbidden not_found lease_held fenced version_conflict : ErrorCode
  bad_request too_large quota_exceeded rate_limited internal access_denied slot_taken : ErrorCode

-- `Error`, with the code as the enumeration's value: every use in the client goes through the
-- accessor `code()`.
pub record ServerError : Type 0 where
  pub code : ErrorCode
  pub detail : Bytes
  pub current_version : ℕ
  pub lease_holder_since_ms : ℕ

-- `client_frame::Body`
pub data Request : Type 0 where
  hello : Hello → Request
  open_db : Open → Request
  fetch : Fetch → Request
  commit : Commit → Request
  ping : ℕ → Request
  close_db : CloseDb → Request
  proof : Proof → Request
  delete : Delete → Request
  changed : Changed → Request
  claim_slot : Request
  delete_slot : Request
  set_slot_label : SetSlotLabel → Request

-- `server_frame::Body`
pub data Response : Type 0 where
  hello_ok : HelloOk → Response
  opened : Opened → Response
  pages : Pages → Response
  commit_ack : CommitAck → Response
  pong : ℕ → Response
  lease_revoked : LeaseRevoked → Response
  error : ServerError → Response
  done : Response
  challenge : Challenge → Response
  changes : Changes → Response
  slot : Slot → Response

pub record ClientFrame : Type 0 where
  pub request_id : ℕ
  pub body : Request

pub record ServerFrame : Type 0 where
  pub request_id : ℕ
  pub body : Option Response
