-- ===== src/Takeovers.antt =====
-- The report of takeovers to the application (`report_takeovers`, crates/sqlite-remote-vfs/src/vfs.rs),
-- on a VFS with a server.
pub mod Told
use sqlite_remote_vfs.Base.{
  Bool, true, false, Option, none, some, List, [], ◌∷◌, ◌++◌, if◌then◌else◌,
}
use sqlite_remote_vfs.Base.Bytes.{Bytes, bytes_eq}
use sqlite_remote_vfs.Failure.{Failure}
use sqlite_remote_vfs.Proto.{ServerFrame, Response}
use sqlite_remote_vfs.Client.{Client, take_unreported, note_revoked}

-- What of `Inner` the report uses: the client, the name of the open database in `files`, the
-- failure, whether a listener is set, and the names that it was called with.
pub record Shared (W : Type 0) : Type 0 where
  pub client : Client W
  pub database : Option Bytes
  pub failure : Option Failure
  pub has_listener : Bool
  pub told : List Bytes

-- `open.as_deref() == Some(db_id.as_str())`
unfoldable pub open_is : Option Bytes → Bytes → Bool
open_is none db_id = false
open_is (some name) db_id = bytes_eq name db_id

module _ {W : Type 0} where
  -- The body of a frame, where it revokes a lease.
  unfoldable pub pushed : Option Response → Client W → Client W
  unfolding note_revoked
  pushed (some (Response.lease_revoked r)) c = note_revoked c r
  pushed _ c = c

  -- The body of the loop for a database that is open.
  unfoldable pub tell : Shared W → Bytes → Shared W
  tell s db_id = record s {
    failure = some Failure.taken_over;
    told = if s.has_listener then s.told ++ (db_id ∷ []) else s.told;
  }

  unfoldable pub report_each : List Bytes → Shared W → Shared W
  unfolding open_is tell
  report_each [] s = s
  report_each (db_id ∷ revoked) s =
      report_each revoked (if open_is s.database db_id then tell s db_id else s)

  unfoldable pub report_takeovers : Shared W → Shared W
  unfolding take_unreported report_each
  report_takeovers s =
      let taken = take_unreported s.client in report_each taken.0 (record s { client = taken.1 })

  -- The frame is decoded by the crate `prost`: `none` where that fails. Browser only.
  unfoldable pub on_push : Option ServerFrame → Shared W → Shared W
  unfolding note_revoked report_takeovers pushed
  on_push none s = s
  on_push (some frame) s = report_takeovers (record s { client = pushed frame.body s.client })
