-- ===== src/Copy.antt =====
-- The local copy of a remote database: the trait `LocalStore`, the background thread that writes the
-- copy natively, and `LocalCopy` (crates/sqlite-remote-vfs/src/local.rs).
pub mod Queue
pub mod Fresh
pub mod Session
use sqlite_remote_vfs.Base.{
  ℕ, ◌+◌, ◌/◌, ◌^◌, max, Bool, true, false, Option, List, [], ◌∷◌, ◌++◌, if◌then◌else◌, u64, Result,
  ok, err,
}
use sqlite_remote_vfs.Base.Bytes.{Bytes}
use sqlite_remote_vfs.CopyHeader.{Head}

-- The trait `LocalStore`, on a store with the state `V`.
pub record LocalStore (V : Type 0) : Type 0 where
  pub head : V → Result Bytes (Option Head) × V
  pub read : V → ℕ → ℕ → Result Bytes (List Bytes) × V
  pub write : V → Head → List (ℕ × Bytes) → Result Bytes (Unit {0}) × V
  pub forget : V → Head → List ℕ → Result Bytes (Unit {0}) × V
  pub clear : V → Result Bytes (Unit {0}) × V

abbrev pub max_read_bytes : ℕ
max_read_bytes = 1048576

unfoldable pub blocks_per_read : ℕ → ℕ
blocks_per_read page_size = max (max_read_bytes / max page_size 1) 1

-- `Job::Write`: a read waits for its answer, so it is the last of the jobs.
pub record Job : Type 0 where
  pub head : Head
  pub blocks : List (ℕ × Bytes)

-- What the thread of a `Background` holds: its store, its variable `given_up`, and the number of
-- failed writes, which it shares.
pub record Writer (V : Type 0) : Type 0 where
  pub store : V
  pub given_up : Bool
  pub failures : ℕ

-- `Background`: the jobs that the thread has not taken yet, and the thread. `has_thread`: it could be
-- spawned; otherwise the channel is closed.
pub record Background (V : Type 0) : Type 0 where
  pub jobs : List Job
  pub thread : Writer V
  pub has_thread : Bool

-- `LocalCopy`
pub data LocalCopy (V : Type 0) : Type 0 where
  absent : LocalCopy V
  ready : V → LocalCopy V
  writing : Background V → LocalCopy V

-- "local copy disabled after a failed write"
abbrev pub copy_disabled : Bytes
copy_disabled =
    108 ∷ 111 ∷ 99 ∷ 97 ∷ 108 ∷ 32 ∷ 99 ∷ 111 ∷ 112 ∷ 121 ∷ 32 ∷ 100 ∷ 105 ∷ 115 ∷ 97 ∷ 98 ∷ 108
    ∷ 101 ∷ 100 ∷ 32 ∷ 97 ∷ 102 ∷ 116 ∷ 101 ∷ 114 ∷ 32 ∷ 97 ∷ 32 ∷ 102 ∷ 97 ∷ 105 ∷ 108 ∷ 101 ∷ 100
    ∷ 32 ∷ 119 ∷ 114 ∷ 105 ∷ 116 ∷ 101 ∷ []

-- "local copy thread has stopped"
abbrev pub thread_stopped : Bytes
thread_stopped =
    108 ∷ 111 ∷ 99 ∷ 97 ∷ 108 ∷ 32 ∷ 99 ∷ 111 ∷ 112 ∷ 121 ∷ 32 ∷ 116 ∷ 104 ∷ 114 ∷ 101 ∷ 97 ∷ 100
    ∷ 32 ∷ 104 ∷ 97 ∷ 115 ∷ 32 ∷ 115 ∷ 116 ∷ 111 ∷ 112 ∷ 112 ∷ 101 ∷ 100 ∷ []

-- "a local copy can only be caught up before the first write"
abbrev pub too_late : Bytes
too_late =
    97 ∷ 32 ∷ 108 ∷ 111 ∷ 99 ∷ 97 ∷ 108 ∷ 32 ∷ 99 ∷ 111 ∷ 112 ∷ 121 ∷ 32 ∷ 99 ∷ 97 ∷ 110 ∷ 32 ∷ 111
    ∷ 110 ∷ 108 ∷ 121 ∷ 32 ∷ 98 ∷ 101 ∷ 32 ∷ 99 ∷ 97 ∷ 117 ∷ 103 ∷ 104 ∷ 116 ∷ 32 ∷ 117 ∷ 112 ∷ 32
    ∷ 98 ∷ 101 ∷ 102 ∷ 111 ∷ 114 ∷ 101 ∷ 32 ∷ 116 ∷ 104 ∷ 101 ∷ 32 ∷ 102 ∷ 105 ∷ 114 ∷ 115 ∷ 116
    ∷ 32 ∷ 119 ∷ 114 ∷ 105 ∷ 116 ∷ 101 ∷ []

module _ {V : Type 0} (ops : LocalStore V) where
  unfoldable pub start : V → Bool → Background V
  start store spawned = record {
    jobs = [];
    thread = record { store = store; given_up = false; failures = 0 };
    has_thread = spawned;
  }

  unfoldable pub cleared : Result Bytes (Unit {0}) × V → ℕ → Writer V
  cleared (ok _, store) failures = record { store = store; given_up = false; failures = failures }
  cleared (err _, store) failures = record { store = store; given_up = true; failures = failures }

  -- Behind the write of a thread that has not given up.
  unfoldable pub job_written : Result Bytes (Unit {0}) × V → ℕ → Writer V
  unfolding cleared
  job_written (ok _, store) failures = record {
    store = store;
    given_up = false;
    failures = failures;
  }
  job_written (err _, store) failures = cleared (ops.clear store) (u64 (failures + 1))

  -- What the thread does with a job.
  unfoldable pub work : Writer V → Job → Writer V
  unfolding job_written
  work t job =
      if t.given_up then t else job_written (ops.write t.store job.head job.blocks) t.failures

  unfoldable pub work_all : Writer V → List Job → Writer V
  unfolding work
  work_all t [] = t
  work_all t (job ∷ jobs) = work_all (work t job) jobs

  -- The thread takes all jobs.
  unfoldable pub drain : Background V → Background V
  unfolding work_all
  drain b = record b { jobs = []; thread = work_all b.thread b.jobs }

  unfoldable pub queue_write : Background V → Head → List (ℕ × Bytes) → Bool × Background V
  queue_write b head blocks =
      if b.has_thread
      then (true, record b { jobs = b.jobs ++ (record { head = head; blocks = blocks } ∷ []) })
      else (false, b)

  -- The answer of the thread to a read, with no job before it.
  unfoldable pub answer : Background V → ℕ → ℕ → Result Bytes (List Bytes) × Background V
  answer b first count =
      if b.thread.given_up
      then (err copy_disabled, b)
      else (let (r, store) = ops.read b.thread.store first count in
          (r, record b { thread = record b.thread { store = store } }))

  -- `Background::read`
  unfoldable pub queue_read : Background V → ℕ → ℕ → Result Bytes (List Bytes) × Background V
  unfolding drain answer
  queue_read b first count =
      if b.has_thread then answer (drain b) first count else (err thread_stopped, b)

  unfoldable pub catch_up : LocalCopy V → Head → List ℕ → Result Bytes (Unit {0}) × LocalCopy V
  catch_up (LocalCopy.ready store) head blocks =
      let (r, store') = ops.forget store head blocks in (r, LocalCopy.ready store')
  catch_up LocalCopy.absent head blocks = (err too_late, LocalCopy.absent)
  catch_up (LocalCopy.writing b) head blocks = (err too_late, LocalCopy.writing b)

  unfoldable pub copy_read : LocalCopy V → ℕ → ℕ → Result Bytes (List Bytes) × LocalCopy V
  unfolding queue_read
  copy_read LocalCopy.absent first count = (ok [], LocalCopy.absent)
  copy_read (LocalCopy.ready store) first count =
      let (r, store') = ops.read store first count in (r, LocalCopy.ready store')
  copy_read (LocalCopy.writing b) first count =
      let (r, b') = queue_read b first count in (r, LocalCopy.writing b')

unfoldable pub is_absent : {V : Type 0} → LocalCopy V → Bool
is_absent LocalCopy.absent = true
is_absent (LocalCopy.ready store) = false
is_absent (LocalCopy.writing b) = false
