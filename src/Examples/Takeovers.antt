-- ===== src/Examples/Takeovers.antt =====
-- The theorems on takeovers at concrete inputs: database 5 is open, and the client has yet to
-- report databases 4 and 5.
use sqlite_remote_vfs.Base.{◌≡◌, refl, true, none, some, [], ◌∷◌, arith}
use sqlite_remote_vfs.Base.Bytes.{Bytes, bytes_eq}
use sqlite_remote_vfs.Failure.{Failure}
use sqlite_remote_vfs.Proto.{ServerFrame, Response}
use sqlite_remote_vfs.Client.{or_zero, epoch_of}
use sqlite_remote_vfs.Takeovers.{Shared, report_takeovers, on_push}
use sqlite_remote_vfs.Takeovers.Told.{Told, report_takeovers-Told, on_push-fails}
use sqlite_remote_vfs.Examples.Net

abbrev five : Bytes
five = 5 ∷ []

abbrev shared : Shared (Unit {0})
shared = record {
  client = record Net.start { unreported = (4 ∷ []) ∷ five ∷ [] };
  database = some five;
  failure = none;
  has_listener = true;
  told = [];
}

abbrev frame : ServerFrame
frame = record {
  request_id = 0;
  body = some (Response.lease_revoked (record { db_id = five; new_lease_epoch = 2 }));
}

-- Test: the listener is told of the open database only.
listener_told : (report_takeovers shared).told ≡ five ∷ []
unfolding report_takeovers bytes_eq
listener_told = refl

report_takeovers-Told_example :
    ((report_takeovers shared).client ≡ record shared.client { unreported = [] })
    × Told shared.client.unreported
        (record shared { client = (report_takeovers shared).client })
        (report_takeovers shared)
report_takeovers-Told_example = report_takeovers-Told shared

on_push-fails_example :
    ((on_push (some frame) shared).failure ≡ some Failure.taken_over)
    × ((on_push (some frame) shared).client.unreported ≡ [])
unfolding or_zero epoch_of
on_push-fails_example = on_push-fails shared frame five 2 refl refl (omega arith)
