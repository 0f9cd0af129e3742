-- ===== src/Examples/Healing.antt =====
-- Healing at concrete inputs: a server that answers the resume of a broken database of three blocks
-- of 512 bytes with the version that the database has.
use sqlite_remote_vfs.Base.{ℕ, ◌≡◌, refl, false, u64, Option, none, some, [], ◌∷◌, ok}
use sqlite_remote_vfs.Base.Bytes.{Bytes}
use sqlite_remote_vfs.Proto.{ServerFrame, Response}
use sqlite_remote_vfs.Failure.{Broken, Reason}
use sqlite_remote_vfs.Stats
use sqlite_remote_vfs.Pages.{Pages, on_demand}
use sqlite_remote_vfs.Remote.{resume}
use sqlite_remote_vfs.Database.Steady.{Ends}
use sqlite_remote_vfs.Database.HealEnd.{HealEnd, heal-HealEnd}
use sqlite_remote_vfs.Client.{Network}
use sqlite_remote_vfs.Copy.{LocalCopy}
use sqlite_remote_vfs.Database.{State, Task, ended}
use sqlite_remote_vfs.Database.Ops.{heal}
use sqlite_remote_vfs.Database.Forgets.{holding, heal-forgets}
use sqlite_remote_vfs.Examples.Net
use sqlite_remote_vfs.Examples.Copies.{Kept, list_store}
use sqlite_remote_vfs.Examples.Sessions

abbrev opened_frame : Bytes → Option ServerFrame
opened_frame [] = none
opened_frame (id ∷ rest) = some (record {
  request_id = id;
  body = some (
      Response.opened (record {
        lease_id = [];
        lease_epoch = 1;
        version = 7;
        page_size = 512;
        page_count = 3;
        last_commit_id = [];
      }));
})

abbrev net : Network ℕ
net = record Sessions.net { decode = opened_frame }

abbrev pages : Pages
pages = record {
  page_size = 512;
  page_count = 2;
  stable_page_count = 2;
  blocks = (0, record { content = 8 ∷ 9 ∷ []; used = 0 }) ∷ [];
  dirty = 0 ∷ [];
  size_changed = false;
  blocks_per_fetch = some 1;
  cap = none;
  clock = 4;
}

abbrev broken : State ℕ Kept
broken = record {
  pages = pages;
  source = record {
    remote = record Net.remote { login = 0; broken = some (Broken.uncertain (Reason.text [])) };
    client = Sessions.client;
    copy = LocalCopy.absent;
  };
  stats = Stats.zeros;
}

abbrev state_of : Task ℕ Kept Broken (Unit {0}) → State ℕ Kept
state_of (ended (r, c)) = c
state_of _ = broken

abbrev healed : State ℕ Kept
healed = state_of (heal net list_store Sessions.platform broken)

is_healed : heal net list_store Sessions.platform broken ≡ ended (ok tt, healed)
unfolding heal resume u64 on_demand
is_healed = refl

heal-HealEnd_example :
    Ends
      (HealEnd net list_store Sessions.platform broken)
      (heal net list_store Sessions.platform broken)
heal-HealEnd_example = heal-HealEnd net list_store Sessions.platform broken

heal-forgets_example :
    heal net list_store Sessions.platform (holding [] (1 ∷ []) 9 broken) ≡ ended (ok tt, healed)
heal-forgets_example =
    heal-forgets net list_store Sessions.platform [] (1 ∷ []) 9 broken healed is_healed
