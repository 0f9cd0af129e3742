-- ===== src/Examples/Net.antt =====
-- The theorems on the client and the server side of a database at concrete inputs: a server whose
-- frames are bytes, the first of which is the request's number.
use sqlite_remote_vfs.Base.{
  ◌↔◌, Bool, true, ℕ, ◌+◌, ◌*◌, ◌/◌, ◌≤◌, ◌<◌, ◌≡◌, refl, ◌⊎◌, true, false, ◌&&◌, ◌||◌, Option,
  none, some, List, [], ◌∷◌, map, ltb, length, arith, ok, u64,
}
use sqlite_remote_vfs.Base.Bytes.{Bytes, bytes_eq}
use sqlite_remote_vfs.Proto
use sqlite_remote_vfs.Proto.{ServerFrame, Response}
use sqlite_remote_vfs.Identity.{Algorithm}
use sqlite_remote_vfs.Pages.{valid_page_size}
use sqlite_remote_vfs.LocalDb.{odd_block}
use sqlite_remote_vfs.Client.{
  Network, Client, was_revoked, note_revoked, token_renewal_margin, is_open,
}
use sqlite_remote_vfs.Client.Revoked.{was_revoked-note_revoked, note_revoked_twice}
use sqlite_remote_vfs.Client.Listen.{
  commit, fetch_frames, listen, wait, send, send_all, wait_ack, last_id, commit_turn, commit_body,
  acknowledged, fetch_turn, fetch_body, fetch_more, numbered, arrival, arrival_of, call, call_turn,
  response_of,
}
use sqlite_remote_vfs.Client.Acknowledged.{CommitDone, commit-CommitDone}
use sqlite_remote_vfs.Client.Fetched.{FetchDone, fetch_frames-FetchDone}
use sqlite_remote_vfs.Client.Login.{
  renewal, log_in, and_then, say_hello, access_token, challenged, welcomed, retried, hello, proof,
}
use sqlite_remote_vfs.Client.LoggedIn.{LoggedIn, Retried, renewal-bounds, log_in-LoggedIn}
use sqlite_remote_vfs.Remote.{
  Remote, checked, checked_count, differs, parts, per_part, runs, to_block,
}
use sqlite_remote_vfs.Remote.Checked.{Usable, checked_iff}
use sqlite_remote_vfs.Remote.Runs.{expanded, expanded-runs}
use sqlite_remote_vfs.Remote.Parts.{all_blocks, Numbered, parts-Numbered}
use sqlite_remote_vfs.CopyHeader.{Head, encode, decode}
use sqlite_remote_vfs.CopyHeader.RoundTrip.{IsHead, decode-encode}

abbrev body_of : Bytes → Option Response
body_of [] = some (Response.commit_ack (record { commit_id = []; version = 8 }))
body_of (x ∷ []) =
    some (Response.pages (record { first_block = x; blocks = (1 ∷ 2 ∷ []) ∷ []; last = true }))
body_of (x ∷ y ∷ []) =
    some (Response.challenge (record { nonce = x ∷ []; server_id = y ∷ []; expires_at_ms = 0 }))
body_of (x ∷ y ∷ z ∷ rest) = some (
    Response.hello_ok (record {
      protocol_version = 1;
      max_frame_bytes = 1024;
      ping_interval_ms = 1;
      lease_ttl_ms = 1;
      access_token_ttl_ms = 0;
    }))

abbrev pub frame_of : Bytes → Option ServerFrame
frame_of [] = none
frame_of (id ∷ rest) = some (record { request_id = id; body = body_of rest })

abbrev net : Network (Unit {0})
net = record {
  encode = λ frame. [];
  decode = frame_of;
  send_bytes = λ w bytes. (ok tt, w);
  reopen = λ w. (ok tt, w);
  dial = λ w. (ok tt, w);
  logged_in = λ w interval. w;
  token = λ w. (ok [], w);
  now = λ w. 0;
}

abbrev pub start : Client (Unit {0})
start = record {
  config = record {
    signer = record {
      algorithm = Algorithm.ed25519;
      public_key = 7 ∷ [];
      sign = λ message. message;
    };
    has_token = false;
    instance_id = [];
  };
  world = tt;
  inbox = (ok (1 ∷ [])) ∷ [];
  has_socket = true;
  connected = true;
  max_frame_bytes = 0;
  ping_interval = 0;
  next_id = 0;
  last_request = 0;
  revoked = [];
  unreported = [];
  logins = 0;
  token_renewal = none;
  trace = none;
}

abbrev part : Proto.Commit
part = record {
  db_id = [];
  commit_id = [];
  lease_epoch = 1;
  base_version = 7;
  page_count = 1;
  blocks = [];
  more = false;
  part = 0;
}

abbrev acked : Client (Unit {0})
acked = record start { inbox = []; next_id = 1 }

part_acked : commit net start (part ∷ []) ≡ some (ok 8, acked)
unfolding commit send_all send wait_ack wait listen last_id commit_turn commit_body acknowledged
    arrival arrival_of is_open u64
part_acked = refl

commit-CommitDone_example : CommitDone net start (part ∷ []) 8 acked
commit-CommitDone_example = commit-CommitDone net start acked (part ∷ []) 8 part_acked

abbrev asking : Client (Unit {0})
asking = record start { inbox = (ok (1 ∷ 5 ∷ [])) ∷ [] }

abbrev request : Proto.Fetch
request = record { db_id = []; version = 7; first_block = 5; count = 1; ranges = [] }

fetched : fetch_frames net asking request 1 2 ≡ some (ok ((5, 1 ∷ 2 ∷ []) ∷ []), acked)
unfolding fetch_frames send wait listen fetch_turn fetch_body fetch_more numbered odd_block arrival
    arrival_of is_open u64
fetched = refl

fetch_frames-FetchDone_example : FetchDone net asking request 1 2 ((5, 1 ∷ 2 ∷ []) ∷ []) acked
fetch_frames-FetchDone_example =
    fetch_frames-FetchDone net asking acked request 1 2 ((5, 1 ∷ 2 ∷ []) ∷ []) fetched

abbrev arriving : Client (Unit {0})
arriving = record start { inbox = (ok (1 ∷ 3 ∷ 4 ∷ [])) ∷ (ok (2 ∷ 0 ∷ 0 ∷ 0 ∷ [])) ∷ [] }

abbrev arrived : Client (Unit {0})
arrived = record start {
  inbox = [];
  next_id = 2;
  max_frame_bytes = 1024;
  ping_interval = 1000000;
  logins = 1;
}

logged_in : log_in net arriving ≡ some (ok tt, arrived)
unfolding log_in retried say_hello and_then access_token call call_turn response_of challenged
    welcomed renewal send wait listen arrival arrival_of is_open u64 hello proof
logged_in = refl

log_in-LoggedIn_example : LoggedIn net arriving arrived ⊎ Retried net arriving arrived
log_in-LoggedIn_example = log_in-LoggedIn net arriving arrived logged_in

renewal-bounds_example :
    (time : ℕ) × (renewal 5 (100 * 1000000) ≡ some time)
    × (5 + 100 * 1000000 / 2 ≤ time)
    × (time < 5 + 100 * 1000000)
    × (5 + 100 * 1000000 ≤ time + token_renewal_margin)
renewal-bounds_example = renewal-bounds 5 (100 * 1000000) (omega arith)

abbrev notice : Proto.LeaseRevoked
notice = record { db_id = 9 ∷ []; new_lease_epoch = 3 }

was_revoked-note_revoked_example :
    was_revoked (note_revoked start notice) (9 ∷ []) 2
    ≡ (was_revoked start (9 ∷ []) 2 || (bytes_eq (9 ∷ []) (9 ∷ []) && ltb 2 3))
was_revoked-note_revoked_example = was_revoked-note_revoked start notice (9 ∷ []) 2

note_revoked_twice_example :
    note_revoked (note_revoked start notice) notice ≡ note_revoked start notice
note_revoked_twice_example = note_revoked_twice start notice

abbrev opened : Proto.Opened
opened = record {
  lease_id = [];
  lease_epoch = 1;
  version = 7;
  page_size = 4096;
  page_count = 3;
  last_commit_id = [];
}

is_checked : checked opened (some 4096) ≡ ok opened
unfolding checked checked_count differs valid_page_size
is_checked = refl

checked_iff_example :
    (checked opened (some 4096) ≡ ok opened) ↔ ((opened ≡ opened) × Usable opened (some 4096))
checked_iff_example = checked_iff opened opened (some 4096)

expanded-runs_example : expanded (runs (3 ∷ 4 ∷ 7 ∷ [])) ≡ 3 ∷ 4 ∷ 7 ∷ []
expanded-runs_example =
    expanded-runs (3 ∷ 4 ∷ 7 ∷ []) (omega arith, (omega arith, (omega arith, tt)))

abbrev pub remote : Remote
remote = record {
  db_id = [];
  subject = [];
  version = 7;
  lease_id = [];
  lease_epoch = 1;
  last_commit_id = [];
  pending_commit = none;
  broken = none;
  login = 1;
}

abbrev sending : List Proto.Commit
sending = parts remote (6 ∷ []) 290 2 3 ((0, 1 ∷ 2 ∷ []) ∷ (2, 3 ∷ 4 ∷ []) ∷ [])

parts-Numbered_example :
    (all_blocks sending ≡ map to_block ((0, 1 ∷ 2 ∷ []) ∷ (2, 3 ∷ 4 ∷ []) ∷ []))
    × (0 < length sending)
    × Numbered remote (6 ∷ []) 3 (per_part 290 2) (length sending) 0 sending
parts-Numbered_example =
    parts-Numbered remote (6 ∷ []) 290 2 3 ((0, 1 ∷ 2 ∷ []) ∷ (2, 3 ∷ 4 ∷ []) ∷ [])

abbrev head : Head
head = record {
  subject = 65 ∷ [];
  db_id = 66 ∷ 67 ∷ [];
  page_size = 4096;
  page_count = 3;
  version = 7;
}

abbrev any_text : Bytes → Bool
any_text bytes = true

head-IsHead : IsHead any_text head
head-IsHead = record {
  page_size_pos = omega arith;
  page_size_le = omega arith;
  page_count_le = omega arith;
  version_lt = omega arith;
  subject_utf8 = refl;
  db_id_utf8 = refl;
  room = omega arith;
}

decode-encode_example :
    (bytes : Bytes) × (encode head 0 ≡ some bytes) × (decode any_text bytes ≡ some (head, 0))
decode-encode_example = decode-encode any_text head 0 head-IsHead
