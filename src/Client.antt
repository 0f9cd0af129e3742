-- ===== src/Client.antt =====
-- The client of the page server protocol (crates/sqlite-remote-vfs/src/client.rs): one connection,
-- one request at a time. The frames' encoding (crate `prost`), the socket, the clock and the token
-- source are parameters. What the socket's `receive` returns, call by call, is the list `inbox`;
-- where it ends, the client waits, and a function that needs more of it returns `none`.
pub mod Revoked
pub mod Listen
pub mod Sent
pub mod Called
pub mod Answers
pub mod Acknowledged
pub mod Fetched
pub mod Login
pub mod LoggedIn
pub mod Heard
pub mod Moves
use sqlite_remote_vfs.Base.{
  ℕ, zero, suc, ◌+◌, ◌-◌, ◌/◌, min, Bool, true, false, not, ◌&&◌, ◌||◌, Option, none, some, List,
  [], ◌∷◌, ◌++◌, if◌then◌else◌, ltb, leb, ◌==◌, is_some, u64, length, Result, ok, err, elem,
}
use sqlite_remote_vfs.Base.Bytes.{Bytes, bytes_eq}
use sqlite_remote_vfs.Proto.{
  ClientFrame, ServerFrame, Request, Response, ServerError, LeaseRevoked, Hello, Challenge, HelloOk,
}
use sqlite_remote_vfs.Failure.{ClientError, Complaint, is_access_denied}
use sqlite_remote_vfs.Identity.{Signer, wire_algorithm, login_transcript}

abbrev pub protocol_version : ℕ
protocol_version = 1

-- 30 s. Times are in nanoseconds.
abbrev pub token_renewal_margin : ℕ
token_renewal_margin = 30000000000

-- What the client calls. `W` is the state of all of it; `true` in a result of `open_socket` stands for
-- success of `reopen` on an existing transport, or of `dial` without one.
pub record Network (W : Type 0) : Type 0 where
  pub encode : ClientFrame → Bytes
  pub decode : Bytes → Option ServerFrame
  pub send_bytes : W → Bytes → Result Bytes (Unit {0}) × W
  pub reopen : W → Result Bytes (Unit {0}) × W
  pub dial : W → Result Bytes (Unit {0}) × W
  pub logged_in : W → ℕ → W
  pub token : W → Result Bytes Bytes × W
  pub now : W → ℕ

pub record ClientConfig : Type 0 where
  pub signer : Signer
  pub has_token : Bool
  pub instance_id : Bytes

pub record Client (W : Type 0) : Type 0 where
  pub config : ClientConfig
  pub world : W
  pub inbox : List (Result Bytes Bytes)
  pub has_socket : Bool
  pub connected : Bool
  pub max_frame_bytes : ℕ
  pub ping_interval : ℕ
  pub next_id : ℕ
  pub last_request : ℕ
  pub revoked : List (Bytes × ℕ)
  pub unreported : List Bytes
  pub logins : ℕ
  pub token_renewal : Option ℕ
  pub trace : Option (List (ℕ × ℕ))

-- A result, beside the client, which stays as it is on an error.
abbrev pub Reply : Type 0 → Type 0 → Type 0
Reply W A = Result ClientError A × Client W

-- `revoked.get(db_id)`
unfoldable pub epoch_of : Bytes → List (Bytes × ℕ) → Option ℕ
epoch_of db [] = none
epoch_of db ((d, epoch) ∷ rest) = if bytes_eq d db then some epoch else epoch_of db rest

-- `revoked.insert(db_id, epoch)`
unfoldable pub set_epoch : Bytes → ℕ → List (Bytes × ℕ) → List (Bytes × ℕ)
set_epoch db epoch [] = (db, epoch) ∷ []
set_epoch db epoch ((d, e) ∷ rest) =
    let more = set_epoch db epoch rest in if bytes_eq d db then (d, epoch) ∷ rest else (d, e) ∷ more

unfoldable pub among : Bytes → List Bytes → Bool
among db [] = false
among db (d ∷ rest) = let more = among db rest in if bytes_eq d db then true else more

unfoldable pub or_zero : Option ℕ → ℕ
or_zero none = 0
or_zero (some n) = n

unfoldable pub newer_than : Option ℕ → ℕ → Bool
newer_than none epoch = false
newer_than (some newer) epoch = ltb epoch newer

module _ {W : Type 0} where
  unfoldable pub was_revoked : Client W → Bytes → ℕ → Bool
  unfolding epoch_of newer_than
  was_revoked c db epoch = newer_than (epoch_of db c.revoked) epoch

  -- `entry(db_id).or_insert(0)` leaves an entry also where the epoch is not newer.
  unfoldable pub note_revoked : Client W → LeaseRevoked → Client W
  unfolding epoch_of set_epoch among or_zero
  note_revoked c r =
      let newer = or_zero (epoch_of r.db_id c.revoked) in
      if ltb newer r.new_lease_epoch
      then record c {
        revoked = set_epoch r.db_id r.new_lease_epoch c.revoked;
        unreported =
            if among r.db_id c.unreported then c.unreported else c.unreported ++ (r.db_id ∷ []);
      }
      else record c { revoked = set_epoch r.db_id newer c.revoked }

  unfoldable pub take_unreported : Client W → List Bytes × Client W
  take_unreported c = (c.unreported, record c { unreported = [] })

  unfoldable pub is_open : Client W → Bool
  is_open c = c.connected && c.has_socket

  unfoldable pub disconnect : Client W → Client W
  disconnect c = record c { connected = false }

  -- A frame without a request
  unfoldable pub unsolicited : Option Response → Client W → Client W
  unfolding note_revoked
  unsolicited (some (Response.lease_revoked r)) c = note_revoked c r
  unsolicited _ c = c

-- "not connected"
abbrev pub not_connected : ClientError
not_connected =
    ClientError.transport
      (110 ∷ 111 ∷ 116 ∷ 32 ∷ 99 ∷ 111 ∷ 110 ∷ 110 ∷ 101 ∷ 99 ∷ 116 ∷ 101 ∷ 100 ∷ [])

-- What a caller of `receive` does with a frame: it calls `receive` again, or it returns.
pub data Turn (S A : Type 0) : Type 0 where
  again : S → Turn S A
  return : Result ClientError A → Turn S A

-- What one call of the socket's `receive` leads to.
pub data Arrival : Type 0 where
  broken_off : Bytes → Arrival
  malformed : Arrival
  unasked : Option Response → Arrival
  frame : ServerFrame → Arrival
