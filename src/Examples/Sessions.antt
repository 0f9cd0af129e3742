-- ===== src/Examples/Sessions.antt =====
-- The theorems on a database on a page server at concrete inputs: the server and the client of the
-- examples on the network, and a database with one changed block.
use sqlite_remote_vfs.Base.{
  ℕ, ◌+◌, ok, ◌≢◌, ◌≡◌, refl, ap, true, false, Option, none, some, [], ◌∷◌, length, arith, elem,
  ◌==◌, if◌then◌else◌, Bool-cases, inl, inr, sym, ◌∙◌, if_true, if_false, is_some, true_not_false,
}
use sqlite_remote_vfs.Base.Bytes.{Bytes}
use sqlite_remote_vfs.Base.Map.{find}
use sqlite_remote_vfs.Stats
use sqlite_remote_vfs.Pages.{Pages, block, content_of}
use sqlite_remote_vfs.Pages.View.{Stored, Serves}
use sqlite_remote_vfs.Identity.{Algorithm}
use sqlite_remote_vfs.Client.{Network, Client}
use sqlite_remote_vfs.Client.Moves.{Forward}
use sqlite_remote_vfs.Copy.{LocalCopy}
use sqlite_remote_vfs.Database.{State, Platform, spent}
use sqlite_remote_vfs.Database.Commit.{commit_database}
use sqlite_remote_vfs.Database.CommitEnd.{CommitResult, commit_database-CommitEnd}
use sqlite_remote_vfs.Database.Enough.{Sleeps, Later}
use sqlite_remote_vfs.Database.Terminates.{commit_database-terminates}
use sqlite_remote_vfs.Examples.Net.{frame_of}
use sqlite_remote_vfs.Examples.Net
use sqlite_remote_vfs.Examples.Copies.{Kept, list_store}

-- The network of the examples, in a world that is the time.
abbrev pub net : Network ℕ
net = record {
  encode = λ frame. [];
  decode = frame_of;
  send_bytes = λ w bytes. (ok tt, w + 1);
  reopen = λ w. (ok tt, w + 5);
  dial = λ w. (ok tt, w + 5);
  logged_in = λ w interval. w;
  token = λ w. (ok [], w);
  now = λ w. w;
}

abbrev pub platform : Platform ℕ
platform = record {
  pause = λ w time. w + time;
  random = λ w n. (some (5 ∷ []), w);
  spawns = λ w. true;
}

abbrev pub client : Client ℕ
client = record {
  config = record {
    signer = record {
      algorithm = Algorithm.ed25519;
      public_key = 7 ∷ [];
      sign = λ message. message;
    };
    has_token = false;
    instance_id = [];
  };
  world = 0;
  inbox = (ok (1 ∷ [])) ∷ [];
  has_socket = true;
  connected = true;
  max_frame_bytes = 0;
  ping_interval = 0;
  next_id = 0;
  last_request = 0;
  revoked = [];
  unreported = [];
  logins = 0;
  token_renewal = none;
  trace = none;
}

net-Forward : Forward net (Later net)
net-Forward = record {
  still = λ w. omega arith;
  then_on = λ u v w a b. omega (arith, a, b);
  at_send = λ w bytes. omega arith;
  at_reopen = λ w. omega arith;
  at_dial = λ w. omega arith;
  at_login = λ w interval. omega arith;
  at_token = λ w. omega arith;
}

platform-Sleeps : Sleeps net platform
platform-Sleeps = record { lasts = λ w time. omega arith }

abbrev one_changed : Pages
one_changed = record {
  page_size = 2;
  page_count = 1;
  stable_page_count = 1;
  blocks = (0, record { content = 8 ∷ 9 ∷ []; used = 0 }) ∷ [];
  dirty = 0 ∷ [];
  size_changed = false;
  blocks_per_fetch = some 1;
  cap = none;
  clock = 0;
}

abbrev zeros : Stored
zeros i = some (0 ∷ 0 ∷ [])

abbrev one_dirty : State ℕ Kept
one_dirty = record {
  pages = one_changed;
  source = record {
    remote = record Net.remote { login = 0 };
    client = client;
    copy = LocalCopy.ready [];
  };
  stats = Stats.zeros;
}

pair_sized :
    (a b : ℕ) (bytes : Bytes)
    → Path (Option Bytes) (some (a ∷ b ∷ [])) (some bytes)
    → length bytes ≡ 2
pair_sized a b [] e = cc
pair_sized a b (x ∷ []) e = cc
pair_sized a b (x ∷ y ∷ []) e = refl
pair_sized a b (x ∷ y ∷ z ∷ rest) e = cc

one_block : (i : ℕ) → block one_changed i ≡ (if 0 == i then some (8 ∷ 9 ∷ []) else none)
unfolding block find content_of
one_block i = elim (Bool-cases (0 == i)) [ inl same ↦ rw same refl | inr other ↦ rw other refl ]

one_sized : (i : ℕ) (bytes : Bytes) → block one_changed i ≡ some bytes → length bytes ≡ 2
one_sized i bytes e = elim (Bool-cases (0 == i)) [
  | inl same ↦ pair_sized 8 9 bytes (sym (one_block i ∙ if_true (0 == i) _ _ same) ∙ e)
  | inr other ↦
      cc (one_block i, if_false {A = Option Bytes} (0 == i) (some (8 ∷ 9 ∷ [])) none other, e)
]

one_held : (i : ℕ) → elem i (0 ∷ []) ≡ true → is_some (block one_changed i) ≡ true
one_held i e = elim (Bool-cases (0 == i)) [
  | inl same ↦ ap is_some (one_block i ∙ if_true (0 == i) _ _ same)
  | inr other ↦ absurd (true_not_false (sym e ∙ if_false (0 == i) true false other))
]

one_clean :
    (i : ℕ) (bytes : Bytes)
    → elem i (0 ∷ []) ≡ false
    → block one_changed i ≡ some bytes
    → zeros i ≡ some bytes
one_clean i bytes d e = elim (Bool-cases (0 == i)) [
  | inl same ↦ absurd (true_not_false (sym (if_true (0 == i) true false same) ∙ d))
  | inr other ↦
      cc (one_block i, if_false {A = Option Bytes} (0 == i) (some (8 ∷ 9 ∷ [])) none other, e)
]

one_changed-Serves : Serves zeros one_changed
one_changed-Serves = record {
  positive = omega arith;
  is_map = (refl, tt);
  sized = one_sized;
  stored_sized = λ i bytes e. pair_sized 0 0 bytes e;
  dirty_held = one_held;
  clean = one_clean;
  fetches_some = λ e. cc;
  complete = λ e. cc;
}

commit_database-CommitEnd_example :
    CommitResult net list_store platform zeros one_dirty
      (commit_database net list_store platform 3 1000 one_dirty)
commit_database-CommitEnd_example =
    commit_database-CommitEnd net list_store platform zeros 3 1000 one_dirty one_changed-Serves

commit_database-terminates_example :
    commit_database net list_store platform 4 1000 one_dirty ≢ some spent
commit_database-terminates_example =
    commit_database-terminates net-Forward list_store platform platform-Sleeps 4 1000 one_dirty
      (omega arith)
