-- ===== src/Failure.antt =====
-- The errors of the client (`ClientError`, client.rs) and of a database (`Broken`, database.rs;
-- `Failure`, lib.rs). A message that the source formats is kept as the values that it formats.
use sqlite_remote_vfs.Base.{ℕ, Bool, true, false}
use sqlite_remote_vfs.Base.Bytes.{Bytes}
use sqlite_remote_vfs.Proto.{ErrorCode, ServerError, Response}

-- What a `ClientError::Protocol` says.
pub data Complaint : Type 0 where
  unexpected : Response → Complaint
  empty_response malformed_frame commit_without_parts : Complaint
  block_size_is : ℕ → ℕ → Complaint
  block_count_is : ℕ → ℕ → Complaint
  bad_page_size : ℕ → Complaint
  page_size_differs : ℕ → ℕ → Complaint
  too_many_pages : ℕ → Complaint
  server_lost_commits : ℕ → ℕ → Complaint

pub data ClientError : Type 0 where
  transport : Bytes → ClientError
  server : ServerError → ClientError
  protocol : Complaint → ClientError
  token : Bytes → ClientError

module _ where
  fenced_code : ErrorCode → Bool
  fenced_code ErrorCode.fenced = true
  fenced_code ErrorCode.slot_taken = true
  fenced_code _ = false

  transient_code : ErrorCode → Bool
  transient_code ErrorCode.internal = true
  transient_code ErrorCode.rate_limited = true
  transient_code _ = false

  denied_code : ErrorCode → Bool
  denied_code ErrorCode.access_denied = true
  denied_code _ = false

  slot_code : ErrorCode → Bool
  slot_code ErrorCode.slot_taken = true
  slot_code _ = false

  held_code : ErrorCode → Bool
  held_code ErrorCode.lease_held = true
  held_code _ = false

  missing_code : ErrorCode → Bool
  missing_code ErrorCode.not_found = true
  missing_code _ = false

unfoldable pub is_fenced : ClientError → Bool
unfolding fenced_code
is_fenced (server e) = fenced_code e.code
is_fenced _ = false

unfoldable pub is_transient : ClientError → Bool
unfolding transient_code
is_transient (server e) = transient_code e.code
is_transient _ = false

unfoldable pub is_slot_taken : ClientError → Bool
unfolding slot_code
is_slot_taken (server e) = slot_code e.code
is_slot_taken _ = false

unfoldable pub is_lease_held : ClientError → Bool
unfolding held_code
is_lease_held (server e) = held_code e.code
is_lease_held _ = false

unfoldable pub is_not_found : ClientError → Bool
unfolding missing_code
is_not_found (server e) = missing_code e.code
is_not_found _ = false

unfoldable pub is_access_denied : ClientError → Bool
unfolding denied_code
is_access_denied (server e) = denied_code e.code
is_access_denied (token reason) = true
is_access_denied _ = false

mutual
  -- The text of a `Broken`. `displayed`: what `Display` prints of a refusal.
  pub data Reason : Type 0 where
    text : Bytes → Reason
    error_text : ClientError → Reason
    failed_commit : ClientError → Reason
    failed_request : ClientError → Reason
    no_connection : ClientError → Reason
    code_detail : ErrorCode → Bytes → Reason
    versions : ℕ → ℕ → Reason
    stored_block : ℕ → ℕ → Reason
    displayed : Refusal → Reason

  pub data Broken : Type 0 where
    fenced : Broken
    uncertain : Reason → Broken
    diverged : Reason → Broken
    refused : Reason → Broken
    denied : Reason → Broken
    full : Reason → Broken
    plaintext : Broken

  -- Why a request to the store of local databases did not succeed (`Refusal`, transport.rs). The
  -- texts of `Refusal::Failed` that `LocalDatabase::open` formats are constructors of their own, and `Refusal::Full`
  -- is `full_store`.
  pub data Refusal : Type 0 where
    busy missing : Refusal
    full_store : Bytes → Refusal
    failed : Bytes → Refusal
    bad_head : ℕ → ℕ → Refusal
    not_loaded : Broken → Refusal
    no_answer : Bytes → Refusal

-- `Failure`, the public reason
pub data Failure : Type 0 where
  taken_over unreachable denied rejected full plaintext : Failure

unfoldable pub failure_of : Broken → Failure
failure_of Broken.fenced = Failure.taken_over
failure_of (Broken.uncertain r) = Failure.unreachable
failure_of (Broken.denied r) = Failure.denied
failure_of (Broken.diverged r) = Failure.rejected
failure_of (Broken.refused r) = Failure.rejected
failure_of (Broken.full r) = Failure.full
failure_of Broken.plaintext = Failure.plaintext
