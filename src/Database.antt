-- ===== src/Database.antt =====
-- A database on a page server (crates/sqlite-remote-vfs/src/database.rs): its state, its local copy,
-- and loading blocks from the server.
pub mod Fetch
pub mod Open
pub mod Ops
pub mod Commit
pub mod Steady
pub mod Confirmed
pub mod Written
pub mod Stores
pub mod Loads
pub mod HealEnd
pub mod Forgets
pub mod Enough
pub mod Terminates
pub mod CommitEnd
use sqlite_remote_vfs.Base.{
  ℕ, zero, suc, ◌+◌, ◌-◌, ◌%◌, min, Bool, true, false, not, ◌&&◌, ◌||◌, Option, none, some, List,
  [], ◌∷◌, if◌then◌else◌, is_some, u64, length, Result, ok, err,
}
use sqlite_remote_vfs.Base.Bytes.{Bytes}
use sqlite_remote_vfs.Proto
use sqlite_remote_vfs.Failure.{ClientError, Broken}
use sqlite_remote_vfs.Stats.{Stats}
use sqlite_remote_vfs.Pages.{Pages, block}
use sqlite_remote_vfs.Pages.Load.{Ctx}
use sqlite_remote_vfs.LocalDb.{odd_block, keep_all}
use sqlite_remote_vfs.Client.{Network, Client, Reply}
use sqlite_remote_vfs.Client.Login.{fetch}
use sqlite_remote_vfs.Remote.{Remote, break_with, resume}
use sqlite_remote_vfs.CopyHeader.{Head}
use sqlite_remote_vfs.Copy.{
  LocalStore, LocalCopy, is_absent, blocks_per_read, start, queue_write, copy_read,
}

-- What the platform gives, beside the clock, which the network has: sleeping, random bytes, and
-- whether a thread can be spawned.
pub record Platform (W : Type 0) : Type 0 where
  pub pause : W → ℕ → W
  pub random : W → ℕ → Option Bytes × W
  pub spawns : W → Bool

-- `Database` with the client that is passed to its operations. `W` is the state of the network and
-- the platform, `V` that of the store of the local copy.
pub record Session (W V : Type 0) : Type 0 where
  pub remote : Remote
  pub client : Client W
  pub copy : LocalCopy V

abbrev pub State : Type 0 → Type 0 → Type 0
State W V = Ctx (Session W V)

-- What becomes of an operation: it ends, or it waits for the server for ever, or, for a loop, its fuel
-- is spent.
pub data Course (A : Type 0) : Type 0 where
  ended : A → Course A
  waits spent : Course A

-- A fallible operation leaves the state as it is when it returns, also on an error.
abbrev pub Task : Type 0 → Type 0 → Type 0 → Type 0 → Type 0
Task W V E A = Course (Result E A × State W V)

module _ {W V : Type 0} where
  -- `?`
  unfoldable pub go_on :
      {E A B : Type 0} → Task W V E A → (A → State W V → Task W V E B) → Task W V E B
  go_on waits next = waits
  go_on spent next = spent
  go_on (ended (err e, c)) next = ended (err e, c)
  go_on (ended (ok a, c)) next = next a c

  -- `map_err`
  unfoldable pub or_else :
      {E F A : Type 0} → Task W V E A → (E → State W V → Task W V F A) → Task W V F A
  or_else waits other = waits
  or_else spent other = spent
  or_else (ended (err e, c)) other = other e c
  or_else (ended (ok a, c)) other = ended (ok a, c)

  unfoldable pub set_client : State W V → Client W → State W V
  set_client c client = record c { source = record c.source { client = client } }

  unfoldable pub set_remote : State W V → Remote → State W V
  set_remote c remote = record c { source = record c.source { remote = remote } }

  unfoldable pub set_copy : State W V → LocalCopy V → State W V
  set_copy c copy = record c { source = record c.source { copy = copy } }

  unfoldable pub set_stats : State W V → Stats → State W V
  set_stats c stats = record c { stats = stats }

  -- `return Err(remote.break_with(..))`
  unfoldable pub stop : {A : Type 0} → Broken → State W V → Task W V Broken A
  unfolding set_remote break_with
  stop b c = ended (err b, set_remote c (break_with c.source.remote b).1)

  -- The local copy is not used any more in this session, after an error.
  unfoldable pub disable : State W V → State W V
  unfolding set_copy set_stats
  disable c =
      set_stats (set_copy c LocalCopy.absent)
        (record c.stats { local_failures = u64 (c.stats.local_failures + 1) })

  -- A client operation on the state.
  unfoldable pub with_client :
      {A : Type 0} → State W V → Option (Reply W A) → Task W V ClientError A
  unfolding set_client
  with_client c none = waits
  with_client c (some (r, client)) = ended (r, set_client c client)

-- `as u32`
abbrev pub u32_mod : ℕ
u32_mod = 4294967296

-- `copy_head`
unfoldable pub copy_head : Remote → Pages → Head
copy_head r p = record {
  subject = r.subject;
  db_id = r.db_id;
  page_size = p.page_size % u32_mod;
  page_count = p.stable_page_count;
  version = r.version;
}

add_block : ℕ → Option Bytes → List (ℕ × Bytes) → List (ℕ × Bytes)
add_block index none rest = rest
add_block index (some bytes) rest = (index, bytes) ∷ rest

-- Those of the blocks that are in memory.
unfoldable pub held_blocks : Pages → List ℕ → List (ℕ × Bytes)
unfolding add_block
held_blocks p [] = []
held_blocks p (index ∷ rest) = add_block index (block p index) (held_blocks p rest)

abbrev pub is_nil {ℓ} : {A : Type ℓ} → List A → Bool
is_nil [] = true
is_nil (x ∷ xs) = false

module _ {W V : Type 0} (ops : LocalStore V) (platform : Platform W) where
  unfoldable pub after_clear : Result Bytes (Unit {0}) × V → State W V → State W V
  unfolding disable set_copy
  after_clear (ok _, v) c = set_copy c (LocalCopy.ready v)
  after_clear (err _, v) c = disable c

  unfoldable pub forget_from : LocalCopy V → State W V → State W V
  unfolding after_clear
  forget_from (LocalCopy.ready v) c = after_clear (ops.clear v) c
  forget_from LocalCopy.absent c = c
  forget_from (LocalCopy.writing b) c = c

  unfoldable pub forget_copy : State W V → State W V
  unfolding forget_from
  forget_copy c = forget_from c.source.copy c

  -- The thread is started by the first write.
  unfoldable pub started : W → LocalCopy V → LocalCopy V
  started w LocalCopy.absent = LocalCopy.absent
  started w (LocalCopy.ready v) = LocalCopy.writing (start ops v (platform.spawns w))
  started w (LocalCopy.writing b) = LocalCopy.writing b

  unfoldable pub queued : Bool × LocalCopy V → ℕ → State W V → State W V
  unfolding set_copy set_stats
  queued (false, copy) count c = set_copy c LocalCopy.absent
  queued (true, copy) count c = set_stats (set_copy c copy) (record c.stats {
    local_writes = u64 (c.stats.local_writes + 1);
    local_blocks_written = u64 (c.stats.local_blocks_written + count);
  })

  -- `failures.load(..)` is what the thread has counted so far.
  unfoldable pub write_to : LocalCopy V → Head → List (ℕ × Bytes) → State W V → State W V
  unfolding queued set_stats queue_write
  write_to (LocalCopy.writing b) head blocks c =
      let (sent, b') = queue_write ops b head blocks in
      queued (sent, LocalCopy.writing b') (length blocks)
        (set_stats c (record c.stats { local_failures = b.thread.failures }))
  write_to LocalCopy.absent head blocks c = c
  write_to (LocalCopy.ready v) head blocks c = c

  unfoldable pub write_copy : State W V → List ℕ → State W V
  unfolding write_to started
  write_copy c indexes =
      if is_absent c.source.copy || is_nil indexes
      then c
      else write_to (started c.source.client.world c.source.copy)
          (copy_head c.source.remote c.pages) (held_blocks c.pages indexes) c
