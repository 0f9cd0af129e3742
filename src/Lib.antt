-- ===== src/Lib.antt =====
-- sqlite-remote-vfs: an SQLite VFS that keeps a database on a page server, or in the browser.
-- The crate is crates/sqlite-remote-vfs, and src/ below is its folder of sources,
-- crates/sqlite-remote-vfs/src/; its wire protocol is crates/sqlite-remote-protocol.
--
-- Parts and files
-- - Pages (src/pages.rs): the blocks of the main database file in memory. `Pages`, `Block` and each
--   operation stand in Pages.antt; reading, writing and loading in Pages/Load.antt. The file that
--   the blocks stand for, and the invariant `Serves`, are in Pages/View.antt; a block in memory
--   hides the one in the store, and a block that neither has reads as zeros. `IsSource` in
--   Pages/Source.antt is the contract of the trait `Source`, as a record of laws that the clients
--   of a source take.
-- - LocalDb (src/local_database.rs): a database in the browser. Its fields but for the pages are a
--   `Link`; with the pages and the counters it is a `Ctx`, which is also what `Pages::read` and
--   `Pages::write` work on. Opening, reading, writing, truncating, committing and closing are in
--   LocalDb/Ops.antt. The bridge of src/transport.rs is a record of requests, `Bridge`.
-- - Client (src/client.rs): the connection to a page server. The state is a `Client`; sending,
--   receiving, `call`, `fetch_frames` and `commit` are in Client/Listen.antt, logging in and the
--   other requests in Client/Login.antt. The socket, the encoding of frames, the clock and the
--   token source are the record `Network`. What the socket receives, call by call, is the list
--   `inbox`; where it ends the client waits, and the operation is `none`.
-- - Remote (src/database.rs): the server side of an open database: the checks of an answer, the
--   parts of a commit, the runs of changed blocks, and resuming the lease.
-- - Database (src/database.rs): a database on a page server. Its state is the blocks in memory, a
--   `Session` (the server side, the client and the local copy) and the counters. Loading blocks
--   is in Database/Fetch.antt, opening and catching up the local copy in Database/Open.antt,
--   `open`, `heal`, `read`, `write`, `truncate` and `close` in Database/Ops.antt, the commit in
--   Database/Commit.antt. The proofs are in the other files below it: what an operation leaves as
--   it is (Steady, Loads), why a commit succeeds (Confirmed), what it leaves (Stores, Written,
--   CommitEnd), that it ends (Enough, Terminates), how healing ends (HealEnd) and that it forgets what
--   was in memory (Forgets).
-- - Copy (src/local.rs): the local copy, as the trait `LocalStore` and the background thread with
--   its queue. The thread's steps are a relation in Copy/Queue.antt; the content of a copy is
--   followed in Copy/Fresh.antt and, over a session, in Copy/Session.antt.
-- - CopyHeader (src/local.rs): the header of a local copy in a file. Present: the bitmap of the
--   blocks that the file holds.
-- - Identity (src/identity.rs): the transcript signed at login, and the subject.
-- - Proto (crates/sqlite-remote-protocol/src/sqlite_remote.v1.rs): the messages as records.
-- - Takeovers (src/vfs.rs): the report of takeovers, and the frames that the browser's worker pushes.
-- - Failure (src/client.rs, src/database.rs, src/lib.rs): the errors. Stats (src/lib.rs): the
--   counters.
-- - Base: lists, maps, ordered sets and bytes over the native numbers.
-- - Examples: the theorems at concrete inputs.
--
-- How they interact: `Pages` calls its `Source` for missing blocks; `LocalDb.fill` is the source
-- of a local database and fulfils `IsSource` where the worker answers from one store; so the
-- theorems on reads and writes hold of a local database. `Remote` sends its requests through
-- `Client`, which signs the transcript of `Identity`. `Database` puts them together: it commits
-- the changes of its `Pages` in the parts of `Remote`, and writes to its `Copy` what the server
-- has acknowledged.
--
-- Numbers, loops and errors
-- - A `u64` or `usize` is a native number; sums and products wrap at 2 ^ 64, written `u64`.
-- - A hash map is an association list, whose order stands for the unspecified order of
--   iteration; the ordered set of dirty blocks is an ascending list.
-- - The loops of `read` and `write` run on fuel: one turn more than there are bytes, as each turn
--   takes at least one byte. The loop of `fill` runs on the number of blocks asked for, as each
--   turn reads at least one. `Option` is `none` where the fuel runs out or the source panics.
-- - An operation of a `Database` has a `Course`: it ends, it waits for a server that does not
--   answer, or the fuel of a loop is spent. The loops of a commit take fuel for the answers that
--   can still be received and for the pauses within the timeout; Database/Terminates.antt has
--   the theorem that this suffices.
-- - A fallible operation returns its result beside the state, also on an error.
-- - An error text is kept as the values that it formats.
--
-- Not modelled: the transports and their bytes, the VFS callbacks but for what is said above,
-- the store of a local copy in a file but for its header and bitmap, the branches of a local copy
-- that are compiled for a browser, the C and JavaScript bindings, and the harness. SHA-256, base64, the signer, the clock, pauses, random
-- bytes, spawning a thread and the connection worker are parameters.
pub mod Base
pub mod Client
pub mod Copy
pub mod CopyHeader
pub mod Database
pub mod Examples
pub mod Failure
pub mod Identity
pub mod LocalDb
pub mod Pages
pub mod Present
pub mod Proto
pub mod Remote
pub mod Stats
pub mod Takeovers
