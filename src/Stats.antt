-- ===== src/Stats.antt =====
-- The counters of a VFS (`Stats`, crates/sqlite-remote-vfs/src/lib.rs). Durations are in
-- nanoseconds.
use sqlite_remote_vfs.Base.{ℕ}

pub record Stats : Type 0 where
  pub commits : ℕ
  pub commit_frames : ℕ
  pub committed_blocks : ℕ
  pub committed_bytes : ℕ
  pub commit_time : ℕ
  pub max_commit_time : ℕ
  pub fetches : ℕ
  pub fetched_blocks : ℕ
  pub fetch_time : ℕ
  pub reconnects : ℕ
  pub local_writes : ℕ
  pub local_blocks_written : ℕ
  pub local_reads : ℕ
  pub local_blocks_read : ℕ
  pub local_misses : ℕ
  pub local_failures : ℕ
  pub caught_up : ℕ
  pub forgotten_blocks : ℕ
  pub evicted_blocks : ℕ
  pub held_blocks : ℕ
  pub recovered_commits : ℕ
  pub resent_commits : ℕ
  pub healed : ℕ

-- `Stats::default()`
abbrev pub zeros : Stats
zeros = record {
  commits = 0;
  commit_frames = 0;
  committed_blocks = 0;
  committed_bytes = 0;
  commit_time = 0;
  max_commit_time = 0;
  fetches = 0;
  fetched_blocks = 0;
  fetch_time = 0;
  reconnects = 0;
  local_writes = 0;
  local_blocks_written = 0;
  local_reads = 0;
  local_blocks_read = 0;
  local_misses = 0;
  local_failures = 0;
  caught_up = 0;
  forgotten_blocks = 0;
  evicted_blocks = 0;
  held_blocks = 0;
  recovered_commits = 0;
  resent_commits = 0;
  healed = 0;
}
