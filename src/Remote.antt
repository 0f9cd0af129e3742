-- ===== src/Remote.antt =====
-- The server side of an open database (crates/sqlite-remote-vfs/src/database.rs): the checks of an
-- answer, the parts of a commit, the runs of changed blocks, and resuming the lease.
pub mod PageSizes
pub mod Checked
pub mod Runs
pub mod Parts
pub mod Resumed
pub mod Answered
use sqlite_remote_vfs.Base.{
  ℕ, zero, suc, ◌+◌, ◌-◌, ◌/◌, max, Bool, true, false, not, ◌&&◌, Option, none, some, List, [], ◌∷◌,
  ◌++◌, if◌then◌else◌, ltb, leb, ◌==◌, u64, length, take, drop, Result, ok, err, map,
}
use sqlite_remote_vfs.Base.Bytes.{Bytes}
use sqlite_remote_vfs.Failure.{
  ClientError, Complaint, Broken, Reason, is_fenced, is_access_denied, is_transient,
}
use sqlite_remote_vfs.Proto
use sqlite_remote_vfs.Stats.{Stats}
use sqlite_remote_vfs.Proto.{Request, Response}
use sqlite_remote_vfs.Pages.{valid_page_size, max_page_count}
use sqlite_remote_vfs.Client.{Network, Client, Reply}
use sqlite_remote_vfs.Client.Listen.{call}
use sqlite_remote_vfs.Client.Login.{and_then, unexpected, is_connected, reconnect}

-- `Remote`, but for the local copy, which stands beside it in the state of a database.
pub record Remote : Type 0 where
  pub db_id : Bytes
  pub subject : Bytes
  pub version : ℕ
  pub lease_id : Bytes
  pub lease_epoch : ℕ
  pub last_commit_id : Bytes
  pub pending_commit : Option Bytes
  pub broken : Option Broken
  pub login : ℕ

unfoldable pub differs : Option ℕ → ℕ → Option ℕ
differs none size = none
differs (some in_use) size = if size == in_use then none else some in_use

-- The checks behind that of the page size.
unfoldable pub checked_count : Option ℕ → Proto.Opened → Result ClientError Proto.Opened
checked_count (some in_use) opened =
    err (ClientError.protocol (Complaint.page_size_differs opened.page_size in_use))
checked_count none opened =
    if ltb max_page_count opened.page_count
    then err (ClientError.protocol (Complaint.too_many_pages opened.page_count))
    else ok opened

unfoldable pub checked : Proto.Opened → Option ℕ → Result ClientError Proto.Opened
unfolding valid_page_size checked_count differs
checked opened in_use =
    if not (valid_page_size opened.page_size)
    then err (ClientError.protocol (Complaint.bad_page_size opened.page_size))
    else checked_count (differs in_use opened.page_size) opened

-- One more index, behind the runs so far.
unfoldable pub push_run : List (ℕ × ℕ) → ℕ → List (ℕ × ℕ)
push_run [] index = (index, 1) ∷ []
push_run ((first, count) ∷ []) index =
    if u64 (first + count) == index
    then (first, suc count) ∷ []
    else (first, count) ∷ (index, 1) ∷ []
push_run (run ∷ next ∷ rest) index = run ∷ push_run (next ∷ rest) index

unfoldable pub runs_from : List (ℕ × ℕ) → List ℕ → List (ℕ × ℕ)
unfolding push_run
runs_from acc [] = acc
runs_from acc (index ∷ rest) = runs_from (push_run acc index) rest

unfoldable pub runs : List ℕ → List (ℕ × ℕ)
unfolding runs_from
runs blocks = runs_from [] blocks

abbrev pub commit_frame_overhead : ℕ
commit_frame_overhead = 256

abbrev pub commit_block_overhead : ℕ
commit_block_overhead = 16

-- `blocks.chunks(n)`, on fuel: each chunk takes at least one element, so the length suffices.
unfoldable pub chunks {ℓ} : {A : Type ℓ} → ℕ → ℕ → List A → List (List A)
chunks zero n xs = []
chunks (suc fuel) n [] = []
chunks (suc fuel) n (x ∷ xs) = take n (x ∷ xs) ∷ chunks fuel n (drop n (x ∷ xs))

unfoldable pub per_part : ℕ → ℕ → ℕ
per_part max_frame_bytes page_size =
    max ((max_frame_bytes - commit_frame_overhead) / (page_size + commit_block_overhead)) 1

abbrev pub to_block : ℕ × Bytes → Proto.Block
to_block (index, bytes) = record { index = index; content = bytes }

-- Without blocks there is one part, for the size.
unfoldable pub pieces : ℕ → List Proto.Block → List (List Proto.Block)
unfolding chunks
pieces n [] = [] ∷ []
pieces n (b ∷ bs) = chunks (length (b ∷ bs)) n (b ∷ bs)

-- The parts from number `part` on, of `count`.
unfoldable pub number_parts :
    Remote → Bytes → ℕ → ℕ → ℕ → List (List Proto.Block) → List Proto.Commit
number_parts r commit_id page_count count part [] = []
number_parts r commit_id page_count count part (blocks ∷ rest) =
    record {
      db_id = r.db_id;
      commit_id = commit_id;
      lease_epoch = r.lease_epoch;
      base_version = r.version;
      page_count = page_count;
      blocks = blocks;
      more = ltb (part + 1) count;
      part = part;
    }
    ∷ number_parts r commit_id page_count count (part + 1) rest

-- `parts`, for the dirty blocks `dirty` of a file with `page_count` blocks of `page_size` bytes.
unfoldable pub parts : Remote → Bytes → ℕ → ℕ → ℕ → List (ℕ × Bytes) → List Proto.Commit
unfolding per_part pieces number_parts
parts r commit_id max_frame_bytes page_size page_count dirty =
    let all = pieces (per_part max_frame_bytes page_size) (map to_block dirty) in
    number_parts r commit_id page_count (length all) 0 all

unfoldable pub break_with : Remote → Broken → Broken × Remote
break_with r broken = (broken, record r { broken = some broken })

broken_otherwise : ClientError → Broken
broken_otherwise (ClientError.server e) = Broken.refused (Reason.code_detail e.code e.detail)
broken_otherwise other = Broken.uncertain (Reason.no_connection other)

-- The reason that a failed attempt to heal leaves.
unfoldable pub broken_on : ClientError → Broken
unfolding is_fenced is_access_denied is_transient broken_otherwise
broken_on e =
    if is_fenced e
    then Broken.fenced
    else if is_access_denied e
    then Broken.denied (Reason.error_text e)
    else if is_transient e
    then Broken.uncertain (Reason.failed_request e)
    else broken_otherwise e

unfoldable pub break_on : Remote → ClientError → Broken × Remote
unfolding break_with broken_on
break_on r e = break_with r (broken_on e)

module _ {W : Type 0} (net : Network W) where
  unfoldable pub on_current_connection : Remote → Client W → Bool
  unfolding is_connected
  on_current_connection r c = is_connected net c && (c.logins == r.login)

  unfoldable pub resume_request : Remote → ℕ → Request
  resume_request r page_size = Request.open_db (record {
    db_id = r.db_id;
    page_size = page_size;
    create_if_missing = false;
    takeover = false;
    resume = some (record {
      lease_id = r.lease_id;
      lease_epoch = r.lease_epoch;
      known_version = r.version;
      pending_commit_id = [];
    });
  })

  abbrev with_result : Result ClientError Proto.Opened → Client W → Option (Reply W Proto.Opened)
  with_result r c = some (r, c)

  unfoldable pub resumed : ℕ → Response → Client W → Option (Reply W Proto.Opened)
  unfolding checked unexpected
  resumed page_size (Response.opened opened) c = with_result (checked opened (some page_size)) c
  resumed page_size other c = unexpected other c

  -- What `resume` leaves: the database knows the login on which it is open.
  unfoldable pub resumed_on :
      Remote
      → Stats
      → Option (Reply W Proto.Opened)
      → Option (Result ClientError Proto.Opened × Remote × Client W × Stats)
  resumed_on r stats none = none
  resumed_on r stats (some (err e, c)) = some (err e, r, c, stats)
  resumed_on r stats (some (ok opened, c)) =
      some (ok opened, record r { login = c.logins }, c, stats)

  unfoldable pub ask_resume :
      Remote
      → Stats
      → ℕ
      → Client W
      → Option (Result ClientError Proto.Opened × Remote × Client W × Stats)
  unfolding and_then call resume_request resumed resumed_on
  ask_resume r stats page_size c =
      resumed_on r stats (and_then (call net c (resume_request r page_size)) (resumed page_size))

  unfoldable pub after_reconnect :
      Remote
      → Stats
      → ℕ
      → Option (Reply W (Unit {0}))
      → Option (Result ClientError Proto.Opened × Remote × Client W × Stats)
  unfolding ask_resume
  after_reconnect r stats page_size none = none
  after_reconnect r stats page_size (some (err e, c)) = some (err e, r, c, stats)
  after_reconnect r stats page_size (some (ok _, c)) =
      ask_resume r (record stats { reconnects = u64 (stats.reconnects + 1) }) page_size c

  unfoldable pub resume :
      Remote
      → Client W
      → ℕ
      → Stats
      → Option (Result ClientError Proto.Opened × Remote × Client W × Stats)
  unfolding is_connected reconnect ask_resume after_reconnect
  resume r c page_size stats =
      if is_connected net c
      then ask_resume r stats page_size c
      else after_reconnect r stats page_size (reconnect net c)
