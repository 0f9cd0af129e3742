-- ===== src/Database/Loads.antt =====
-- Loading the blocks of a database leaves its server side and the settings of its pages as they are
-- (`Remote::fill` in crates/sqlite-remote-vfs/src/database.rs).
use sqlite_remote_vfs.Base.{
  ℕ, zero, suc, ◌+◌, ◌-◌, ◌/◌, ◌≡◌, refl, ◌∙◌, inl, inr, Bool, true, false, not, ◌&&◌, ◌||◌, ◌==◌,
  ltb, Option, none, some, List, [], ◌∷◌, length, Bool-cases, if_true, if_false, u64, Result, ok,
  err, map,
}
use sqlite_remote_vfs.Base.Bytes.{Bytes}
use sqlite_remote_vfs.Proto
use sqlite_remote_vfs.Failure.{ClientError}
use sqlite_remote_vfs.Stats.{Stats}
use sqlite_remote_vfs.Pages.{Pages, keep, on_demand, indexes, make_room, tick}
use sqlite_remote_vfs.Pages.Load.{room, set_held}
use sqlite_remote_vfs.Pages.View.{SameSettings, SameSettings-blocks, SameSettings-trans}
use sqlite_remote_vfs.Pages.Evict.{make_room-cases, without}
use sqlite_remote_vfs.LocalDb.{keep_all}
use sqlite_remote_vfs.Client.{Network, Reply}
use sqlite_remote_vfs.Client.Login.{changes, fetch, fetch_ranges}
use sqlite_remote_vfs.Remote.{runs}
use sqlite_remote_vfs.CopyHeader.{Head}
use sqlite_remote_vfs.Copy.{LocalStore, LocalCopy, catch_up, copy_read}
use sqlite_remote_vfs.Database.{
  State, Platform, Course, Task, ended, waits, spent, go_on, set_client, set_copy, set_stats,
  disable, with_client, is_nil, write_copy, forget_copy, forget_from, after_clear, copy_head,
}
use sqlite_remote_vfs.Database.Fetch.{load, fetched, fetch_request}
use sqlite_remote_vfs.Database.Open.{
  clipped, usable, keep_pairs, ranges_fetched, caught_up, changed, catch_copy_up, copied_turn,
  load_from_copy, copied, turn_count, result_of, current_copy, copy_at, copy_head_read, take_from,
  take_copy, settled, filled, fill_opened, max_catch_up_ranges, index_of,
}
use sqlite_remote_vfs.Database.Steady.{Ends}
use sqlite_remote_vfs.Database.Written.{Aside, write_copy-Aside}

SameSettings-refl : (p : Pages) → SameSettings p p
SameSettings-refl p = SameSettings-blocks p p.blocks p.clock

SameSettings-of : {p q : Pages} → q ≡ p → SameSettings p q
SameSettings-of {p} {q} e = rw e (SameSettings-refl p)

keep-SameSettings : (p : Pages) (i : ℕ) (bytes : Bytes) → SameSettings p (keep p i bytes)
unfolding keep tick
keep-SameSettings p i bytes = SameSettings-blocks p _ _

keep_all-SameSettings :
    (p : Pages) (first : ℕ) (blocks : List Bytes) → SameSettings p (keep_all p first blocks)
unfolding keep_all
keep_all-SameSettings p first [] = SameSettings-refl p
keep_all-SameSettings p first (b ∷ bs) =
    SameSettings-trans (keep-SameSettings p first b)
      (keep_all-SameSettings (keep p first b) (first + 1) bs)

keep_pairs-SameSettings :
    (p : Pages) (blocks : List (ℕ × Bytes)) → SameSettings p (keep_pairs p blocks)
unfolding keep_pairs
keep_pairs-SameSettings p [] = SameSettings-refl p
keep_pairs-SameSettings p ((i, b) ∷ rest) =
    SameSettings-trans (keep-SameSettings p i b) (keep_pairs-SameSettings (keep p i b) rest)

make_room-SameSettings :
    (p : Pages) (incoming : ℕ) (stats : Stats) → SameSettings p (make_room p incoming stats).0
make_room-SameSettings p incoming stats = elim (make_room-cases p incoming stats) [
  | inl same ↦ SameSettings-of same
  | inr (count, e, limited) ↦ rw e (unfold without in SameSettings-blocks p _ _)
]

-- The server side and the settings of the pages are as they were.
pub record Loads {W V : Type 0} (c c' : State W V) : Type 0 where
  pub remote : c'.source.remote ≡ c.source.remote
  pub settings : SameSettings c.pages c'.pages

module _ {W V : Type 0} where
  Loads-refl : (c : State W V) → Loads c c
  Loads-refl c = record { remote = refl; settings = SameSettings-refl c.pages }

  Loads-trans : {a b c : State W V} → Loads a b → Loads b c → Loads a c
  Loads-trans s t = record {
    remote = t.remote ∙ s.remote;
    settings = SameSettings-trans s.settings t.settings;
  }

  Loads-Aside : {c c' : State W V} → Aside c c' → Loads c c'
  Loads-Aside a = record { remote = a.remote; settings = SameSettings-of a.pages }

  -- Whatever an operation returns, the state it leaves is one of `Loads`.
  abbrev pub Leaves : {E A : Type 0} → State W V → Task W V E A → Type 0
  Leaves c t = Ends (λ x. Loads c x.1) t

  Ends-later :
      {A : Type 0} (c c' : State W V) (t : Course (A × State W V))
      → Loads c c'
      → Ends (λ x. Loads c' x.1) t
      → Ends (λ x. Loads c x.1) t
  Ends-later c c' waits s h = tt
  Ends-later c c' spent s h = tt
  Ends-later c c' (ended (r, d)) s h = Loads-trans s h

  go_on-Leaves :
      {E A B : Type 0} (c : State W V) (t : Task W V E A) (next : A → State W V → Task W V E B)
      → Leaves c t
      → ((a : A) (c' : State W V) → Leaves c' (next a c'))
      → Leaves c (go_on t next)
  unfolding go_on
  go_on-Leaves c waits next h after = tt
  go_on-Leaves c spent next h after = tt
  go_on-Leaves c (ended (err e, c')) next h after = h
  go_on-Leaves c (ended (ok a, c')) next h after = Ends-later c c' (next a c') h (after a c')

  with_client-Leaves :
      {A : Type 0} (c : State W V) (o : Option (Reply W A)) → Leaves c (with_client c o)
  unfolding with_client set_client
  with_client-Leaves c none = tt
  with_client-Leaves c (some (r, client)) = record {
    remote = refl;
    settings = SameSettings-refl c.pages;
  }

  -- A request to the server, and what follows its answer.
  request-Leaves :
      {A B : Type 0} (c : State W V) (o : Option (Reply W A))
      (next : A → State W V → Task W V ClientError B)
      → ((a : A) (c' : State W V) → Leaves c' (next a c'))
      → Leaves c (go_on (with_client c o) next)
  request-Leaves c o next h = go_on-Leaves c (with_client c o) next (with_client-Leaves c o) h

  set_copy-Loads : (c : State W V) (copy : LocalCopy V) → Loads c (set_copy c copy)
  unfolding set_copy
  set_copy-Loads c copy = record { remote = refl; settings = SameSettings-refl c.pages }

  disable-Loads : (c : State W V) → Loads c (disable c)
  unfolding disable set_copy set_stats
  disable-Loads c = record { remote = refl; settings = SameSettings-refl c.pages }

  set_stats-Loads : (c : State W V) (stats : Stats) → Loads c (set_stats c stats)
  unfolding set_stats
  set_stats-Loads c stats = record { remote = refl; settings = SameSettings-refl c.pages }

module _ {W V : Type 0} (net : Network W) (ops : LocalStore V) (platform : Platform W) where
  write_copy-Loads :
      (c : State W V) (indexes : List ℕ) → Loads c (write_copy ops platform c indexes)
  write_copy-Loads c indexes = Loads-Aside (write_copy-Aside ops platform c indexes)

  fetched-Leaves :
      (begun first count : ℕ) (blocks : List Bytes) (c : State W V)
      → Leaves c (fetched net ops platform begun first count blocks c)
  unfolding fetched
  fetched-Leaves begun first count blocks c = record {
    remote = refl;
    settings = keep_all-SameSettings c.pages first blocks;
  }

  pub load-Leaves :
      (c : State W V) (first count : ℕ) → Leaves c (load net ops platform c first count)
  unfolding load
  load-Leaves c first count =
      let begun = net.now c.source.client.world in
      request-Leaves c
        (fetch net c.source.client (fetch_request net ops platform c.source.remote first count)
          c.pages.page_size)
        (fetched net ops platform begun first count)
        (λ blocks c'. fetched-Leaves begun first count blocks c')

  ranges_fetched-Leaves :
      (begun : ℕ) (blocks : List (ℕ × Bytes)) (c : State W V)
      → Leaves c (ranges_fetched net ops platform begun blocks c)
  unfolding ranges_fetched
  ranges_fetched-Leaves begun blocks c =
      let w =
        write_copy-Loads
          (record c {
            stats = record c.stats {
              fetches = u64 (c.stats.fetches + 1);
              fetched_blocks = u64 (c.stats.fetched_blocks + length blocks);
              fetch_time = c.stats.fetch_time + (net.now c.source.client.world - begun);
            };
            pages = keep_pairs c.pages blocks;
          })
          (map index_of blocks) in
      record {
        remote = w.remote;
        settings = SameSettings-trans (keep_pairs-SameSettings c.pages blocks) w.settings;
      }

  caught_up-Leaves :
      (o : Result Bytes (Unit {0}) × LocalCopy V) (blocks : List ℕ) (ranges : List (ℕ × ℕ))
      (c : State W V)
      → Leaves c (caught_up net ops platform o blocks ranges c)
  unfolding caught_up
  caught_up-Leaves (err e, copy) blocks ranges c = disable-Loads c
  caught_up-Leaves (ok u, copy) blocks ranges c =
      let stats = record c.stats {
        caught_up = u64 (c.stats.caught_up + 1);
        forgotten_blocks = u64 (c.stats.forgotten_blocks + length blocks);
      } in
      let c' = set_stats (set_copy c copy) stats in
      let s = Loads-trans (set_copy-Loads c copy) (set_stats-Loads (set_copy c copy) stats) in
      let begun = net.now c'.source.client.world in
      let asked =
        fetch_ranges net c'.source.client c'.source.remote.db_id c'.source.remote.version ranges
          c'.pages.page_size in
      let next = ranges_fetched net ops platform begun in
      let fetches = not (on_demand c.pages) && not (is_nil ranges) in
      elim (Bool-cases fetches) [
        | inl yes_fetch ↦ rw (if_true fetches _ _ yes_fetch) (
            Ends-later c c' (go_on (with_client c' asked) next) s
              (request-Leaves c' asked next (λ pairs d. ranges_fetched-Leaves begun pairs d)))
        | inr no_fetch ↦ rw (if_false fetches _ _ no_fetch) s
      ]

  changed-Leaves :
      (answer : Proto.Changes) (c : State W V) → Leaves c (changed net ops platform answer c)
  unfolding changed
  changed-Leaves answer c =
      let ranges = clipped c.pages.page_count (runs answer.blocks) in
      let gap = not answer.complete || not (answer.to_version == c.source.remote.version) in
      let many =
        ltb (c.pages.page_count / 3) (length answer.blocks)
        || ltb max_catch_up_ranges (length ranges) in
      elim (Bool-cases gap) [
        | inl yes_gap ↦ rw (if_true gap _ _ yes_gap) (Loads-refl c)
        | inr no_gap ↦ rw (if_false gap _ _ no_gap) (elim (Bool-cases many) [
          | inl too_many ↦ rw (if_true many _ _ too_many) (Loads-refl c)
          | inr few ↦ rw (if_false many _ _ few) (
              caught_up-Leaves
                (catch_up ops c.source.copy (copy_head c.source.remote c.pages) answer.blocks)
                answer.blocks ranges c)
        ])
      ]

  catch_copy_up-Leaves :
      (c : State W V) (behind : Head) → Leaves c (catch_copy_up net ops platform c behind)
  unfolding catch_copy_up
  catch_copy_up-Leaves c behind =
      request-Leaves c (changes net c.source.client c.source.remote.db_id behind.version)
        (changed net ops platform) (λ answer c'. changed-Leaves answer c')

  after_clear-Loads :
      (o : Result Bytes (Unit {0}) × V) (c : State W V) → Loads c (after_clear ops platform o c)
  unfolding after_clear
  after_clear-Loads (ok u, v) c = set_copy-Loads c (LocalCopy.ready v)
  after_clear-Loads (err e, v) c = disable-Loads c

  forget_from-Loads :
      (copy : LocalCopy V) (c : State W V) → Loads c (forget_from ops platform copy c)
  unfolding forget_from
  forget_from-Loads LocalCopy.absent c = Loads-refl c
  forget_from-Loads (LocalCopy.ready v) c = after_clear-Loads (ops.clear v) c
  forget_from-Loads (LocalCopy.writing b) c = Loads-refl c

  forget_copy-Loads : (c : State W V) → Loads c (forget_copy ops platform c)
  unfolding forget_copy
  forget_copy-Loads c = forget_from-Loads c.source.copy c

  copied_turn-Loads :
      (o : Result Bytes (List Bytes) × LocalCopy V) (first count : ℕ) (c : State W V)
      → Loads c (copied_turn net ops platform o first count c).1
  unfolding copied_turn
  copied_turn-Loads (err e, copy) first count c = disable-Loads c
  copied_turn-Loads (ok read, copy) first count c = elim (Bool-cases (length read == count)) [
    | inl whole ↦
        rw (if_true (length read == count) _ _ whole)
          (record { remote = refl; settings = keep_all-SameSettings c.pages first read })
    | inr gap ↦
        rw (if_false (length read == count) _ _ gap)
          (record { remote = refl; settings = SameSettings-refl c.pages })
  ]

  copied-Loads :
      (again : State W V → Course (Bool × State W V)) (c : State W V) (o : Bool × State W V)
      → Loads c o.1
      → ((d : State W V) → Ends (λ x. Loads d x.1) (again d))
      → Ends (λ x. Loads c x.1) (copied net ops platform again o)
  unfolding copied
  copied-Loads again c (false, c') l rest = l
  copied-Loads again c (true, c') l rest = Ends-later c c' (again c') l (rest c')

  load_from_copy-Loads :
      (fuel first : ℕ) (c : State W V)
      → Ends (λ x. Loads c x.1) (load_from_copy net ops platform fuel first c)
  unfolding load_from_copy
  load_from_copy-Loads zero first c = tt
  load_from_copy-Loads (suc fuel) first c =
      let count = turn_count net ops platform c first in
      let more = ltb first c.pages.page_count in
      elim (Bool-cases more) [
        | inl inside ↦ rw (if_true more _ _ inside) (
            copied-Loads (λ d. load_from_copy net ops platform fuel (first + count) d) c
              (copied_turn net ops platform (copy_read ops c.source.copy first count) first count c)
              (copied_turn-Loads (copy_read ops c.source.copy first count) first count c)
              (λ d. load_from_copy-Loads fuel (first + count) d))
        | inr past ↦ rw (if_false more _ _ past) (set_stats-Loads c _)
      ]

  result_of-Leaves :
      (c : State W V) (t : Course (Bool × State W V))
      → Ends (λ x. Loads c x.1) t
      → Leaves c (result_of net ops platform t)
  unfolding result_of
  result_of-Leaves c waits h = tt
  result_of-Leaves c spent h = tt
  result_of-Leaves c (ended (b, d)) h = h

  current_copy-Leaves :
      (current : Bool) (c : State W V) → Leaves c (current_copy net ops platform current c)
  unfolding current_copy
  current_copy-Leaves false c = forget_copy-Loads c
  current_copy-Leaves true c = elim (Bool-cases (on_demand c.pages)) [
    | inl demand ↦ rw (if_true (on_demand c.pages) _ _ demand) (Loads-refl c)
    | inr preload ↦ rw (if_false (on_demand c.pages) _ _ preload) (
        result_of-Leaves c (load_from_copy net ops platform (suc c.pages.page_count) 0 c)
          (load_from_copy-Loads (suc c.pages.page_count) 0 c))
  ]

  copy_at-Leaves : (head : Option Head) (c : State W V) → Leaves c (copy_at net ops platform head c)
  unfolding copy_at
  copy_at-Leaves none c = forget_copy-Loads c
  copy_at-Leaves (some head) c =
      let version = c.source.remote.version in
      elim (Bool-cases (ltb version head.version)) [
        | inl ahead ↦ rw (if_true (ltb version head.version) _ _ ahead) (Loads-refl c)
        | inr not_ahead ↦
            rw (if_false (ltb version head.version) _ _ not_ahead)
              (elim (Bool-cases (ltb head.version version)) [
                | inl behind ↦ rw (if_true (ltb head.version version) _ _ behind) (
                    go_on-Leaves c (catch_copy_up net ops platform c head)
                      (current_copy net ops platform) (catch_copy_up-Leaves c head)
                      current_copy-Leaves)
                | inr equal ↦
                    rw (if_false (ltb head.version version) _ _ equal) (current_copy-Leaves true c)
              ])
      ]

  copy_head_read-Leaves :
      (o : Result Bytes (Option Head) × V) (c : State W V)
      → Leaves c (copy_head_read net ops platform o c)
  unfolding copy_head_read
  copy_head_read-Leaves (err e, v) c = disable-Loads c
  copy_head_read-Leaves (ok head, v) c =
      let d = set_copy c (LocalCopy.ready v) in
      let found = usable c.source.remote c.pages head in
      Ends-later c d (copy_at net ops platform found d) (set_copy-Loads c (LocalCopy.ready v))
        (copy_at-Leaves found d)

  take_from-Leaves :
      (copy : LocalCopy V) (c : State W V) → Leaves c (take_from net ops platform copy c)
  unfolding take_from
  take_from-Leaves LocalCopy.absent c = Loads-refl c
  take_from-Leaves (LocalCopy.ready v) c = copy_head_read-Leaves (ops.head v) c
  take_from-Leaves (LocalCopy.writing b) c = Loads-refl c

  settled-Loads : (c : State W V) → Loads c (settled net ops platform c)
  unfolding settled set_held room
  settled-Loads c = record { remote = refl; settings = make_room-SameSettings c.pages 0 c.stats }

  filled-Leaves :
      (from_copy : Bool) (c : State W V) → Leaves c (filled net ops platform from_copy c)
  unfolding filled
  filled-Leaves from_copy c =
      let fetches = not (on_demand c.pages) && ltb 0 c.pages.page_count && not from_copy in
      elim (Bool-cases fetches) [
        | inl all ↦ rw (if_true fetches _ _ all) (
            go_on-Leaves c (load net ops platform c 0 c.pages.page_count)
              (λ u d.
                ended
                  (ok tt, settled net ops platform (write_copy ops platform d (indexes d.pages))))
              (load-Leaves c 0 c.pages.page_count)
              (λ u d.
                Loads-trans (write_copy-Loads d (indexes d.pages))
                  (settled-Loads (write_copy ops platform d (indexes d.pages)))))
        | inr nothing ↦ rw (if_false fetches _ _ nothing) (settled-Loads c)
      ]

  pub fill_opened-Leaves : (c : State W V) → Leaves c (fill_opened net ops platform c)
  unfolding fill_opened take_copy
  fill_opened-Leaves c =
      go_on-Leaves c (take_from net ops platform c.source.copy c) (filled net ops platform)
        (take_from-Leaves c.source.copy c) filled-Leaves
