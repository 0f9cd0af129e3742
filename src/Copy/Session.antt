-- ===== src/Copy/Session.antt =====
-- A local copy in the course of a session (crates/sqlite-remote-vfs/src/local.rs): its thread, the
-- writes and the reads, in any order.
use sqlite_remote_vfs.Base.{ℕ, ◌≡◌, Bool, true, List, ok}
use sqlite_remote_vfs.Base.Bytes.{Bytes}
use sqlite_remote_vfs.Pages.View.{Stored}
use sqlite_remote_vfs.LocalDb.Fill.{Run}
use sqlite_remote_vfs.CopyHeader.{Head}
use sqlite_remote_vfs.Copy.{LocalStore, Background, LocalCopy, start, queue_write, queue_read}
use sqlite_remote_vfs.Copy.Queue.{Step}
use sqlite_remote_vfs.Copy.Fresh.{
  IsStore, Consistent, Within, Current, over, start-Current, Step-Current, queue_write-Current,
  queue_read-Current,
}

-- What may happen to the copy behind an open database, with the content of the blocks that the
-- server has acknowledged: the thread takes a job, blocks are written, or blocks are read.
pub data Runs {V : Type 0} (ops : LocalStore V)
    : Stored → Background V → Stored → Background V → Type 0 where
  ends : (s : Stored) (b : Background V) → Runs ops s b s b
  works :
      (s s' : Stored) (a b c : Background V) → Step ops a b → Runs ops s b s' c → Runs ops s a s' c
  writes :
      (s s' : Stored) (a c : Background V) (head : Head) (blocks : List (ℕ × Bytes))
      → Consistent blocks
      → (queue_write ops a head blocks).0 ≡ true
      → Runs ops (over blocks s) (queue_write ops a head blocks).1 s' c
      → Runs ops s a s' c
  reads :
      (s s' : Stored) (a c : Background V) (first count : ℕ)
      → Runs ops s (queue_read ops a first count).1 s' c
      → Runs ops s a s' c

module _ {V : Type 0} {ops : LocalStore V} {holds : V → Stored} (law : IsStore ops holds) where
  Runs-Current :
      {s s' : Stored} {a c : Background V} → Runs ops s a s' c → Current law s a → Current law s' c
  Runs-Current (ends s b) current = current
  Runs-Current (works s s' a b c step rest) current =
      Runs-Current rest (Step-Current law s a b step current)
  Runs-Current (writes s s' a c head blocks m sent rest) current =
      Runs-Current rest (queue_write-Current law s a head blocks m current sent)
  Runs-Current (reads s s' a c first count rest) current =
      Runs-Current rest (queue_read-Current law s a first count current).0

  -- A copy that starts with blocks of the server's version only: whatever is written since, wherever
  -- the thread has come, and whichever writes and clears of the store fail, a read that succeeds
  -- returns blocks as they were written last.
  pub queue_read-latest :
      (stored stored' : Stored) (v : V) (spawned : Bool) (b : Background V) (first count : ℕ)
      (blocks : List Bytes)
      → Within (holds v) stored
      → Runs ops stored (start ops v spawned) stored' b
      → (queue_read ops b first count).0 ≡ ok blocks
      → Run stored' first blocks
  queue_read-latest stored stored' v spawned b first count blocks within runs e =
      (queue_read-Current law stored' b first count
          (Runs-Current runs (start-Current law stored v spawned within))).1
        blocks e

  -- The copy holds blocks of `stored` only, once what is queued is done.
  abbrev pub CopyHolds : Stored → LocalCopy V → Type 0
  CopyHolds stored LocalCopy.absent = Unit
  CopyHolds stored (LocalCopy.ready v) = Within (holds v) stored
  CopyHolds stored (LocalCopy.writing b) = Current law stored b
