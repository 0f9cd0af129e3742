-- ===== src/Pages/Load.antt =====
-- Reading and writing bytes, and loading the blocks that are not in memory (`Pages::read`,
-- `Pages::write`, `Pages::ensure_loaded`; the trait `Source`).
use sqlite_remote_vfs.Base.{
  ℕ, zero, suc, ◌+◌, ◌-◌, ◌/◌, ◌%◌, min, Bool, true, false, not, ◌&&◌, Option, none, some,
  if◌then◌else◌, ltb, leb, ◌==◌, is_some, u64, length, slice, replicate, write_at, elem, Result, ok,
  err,
}
use sqlite_remote_vfs.Base.Bytes.{Bytes}
use sqlite_remote_vfs.Base.Map.{find, put}
use sqlite_remote_vfs.Base.Sorted
use sqlite_remote_vfs.Failure.{Broken}
use sqlite_remote_vfs.Stats.{Stats}
use sqlite_remote_vfs.Pages.{Pages, Block, refill_blocks, touch, tick, make_room, held, block}

-- What an operation may change: the pages, the source behind them, and the counters.
pub record Ctx (W : Type 0) : Type 0 where
  pub pages : Pages
  pub source : W
  pub stats : Stats

-- A fallible operation leaves the state as it is when it returns, also on an error.
abbrev pub Outcome : Type 0 → Type 0 → Type 0
Outcome W A = Result Broken A × Ctx W

-- The trait `Source`: `fill` loads blocks `first` to `first + count - 1`.
abbrev pub Fill : Type 0 → Type 0
Fill W = Ctx W → ℕ → ℕ → Outcome W (Unit {0})

-- Whether block `i` is neither in memory nor dirty.
unfoldable pub missing : Pages → ℕ → Bool
missing p i = not (is_some (find i p.blocks)) && not (elem i p.dirty)

-- The run of missing blocks from `index` on, at most `n`.
unfoldable pub run_length : Pages → ℕ → ℕ → ℕ
unfolding missing
run_length p zero index = 0
run_length p (suc n) index =
    let rest = run_length p n (index + 1) in if missing p index then suc rest else 0

unfoldable pub per_fetch : Pages → ℕ
per_fetch p = elim p.blocks_per_fetch [ none ↦ refill_blocks | some n ↦ n ]

-- Preloaded without a memory limit
unfoldable pub preloaded : Pages → Bool
preloaded p = not (is_some p.blocks_per_fetch) && not (is_some p.cap)

-- The `n` bytes of a block from `within` on, or zeros without a block. Slicing panics in the source
-- where the block is shorter; here fewer bytes are left. `Serves` says that a block has the page size.
unfoldable pub copied : Option Bytes → ℕ → ℕ → Bytes
copied (some bytes) within n = slice bytes within n
copied none within n = replicate n 0

-- `entry(index).or_insert_with(zero block)`
unfoldable pub entry_or_zeros : Option Block → ℕ → ℕ → Block
entry_or_zeros (some b) page_size used = b
entry_or_zeros none page_size used = record { content = replicate page_size 0; used = used }

-- What `write` does to the pages for `n` bytes, once the block's content is in memory.
unfoldable pub write_block : Pages → ℕ → ℕ → Bytes → Pages
unfolding tick entry_or_zeros
write_block p index within bytes =
    let (used, p') = tick p in
    let b = entry_or_zeros (find index p'.blocks) p'.page_size used in
    let written = record b { content = write_at b.content within bytes; used = used } in
    let grows = leb p'.page_count index in
    record p' {
      blocks = put index written p'.blocks;
      dirty = Sorted.insert index p'.dirty;
      page_count = if grows then u64 (index + 1) else p'.page_count;
      size_changed = if grows then true else p'.size_changed;
    }

module _ {W : Type 0} where
  unfoldable pub map_pages : Ctx W → Pages → Ctx W
  map_pages c p = record c { pages = p }

  unfoldable pub set_held : Ctx W → Ctx W
  unfolding held
  set_held c = record c { stats = record c.stats { held_blocks = held c.pages } }

  -- `make_room` on the state
  unfoldable pub room : Ctx W → ℕ → Ctx W
  unfolding make_room
  room c incoming =
      let (p, s) = make_room c.pages incoming c.stats in record c { pages = p; stats = s }

  -- The part of a turn of `read` behind `ensure_loaded(..)?`.
  unfoldable pub copy_turn :
      Result Broken (Unit {0}) → Ctx W → Bytes → ℕ → ℕ → Result Broken (Option ℕ) × Bytes × Ctx W
  copy_turn (err e) c buf position done = (err e, buf, c)
  copy_turn (ok _) c buf position done =
      let within = position % c.pages.page_size in
      let n = min (c.pages.page_size - within) (length buf - done) in
      (
        ok (some n),
        write_at buf done (copied (block c.pages (position / c.pages.page_size)) within n),
        c,
      )

  -- The part of a turn of `write` behind `ensure_loaded(..)?`: the bytes go to one block.
  unfoldable pub place_turn : Result Broken (Unit {0}) → Ctx W → ℕ → Bytes → Outcome W ℕ
  unfolding map_pages
  place_turn (err e) c position bytes = (err e, c)
  place_turn (ok _) c position bytes =
      let size = c.pages.page_size in
      (
        ok (length bytes),
        map_pages c (write_block c.pages (position / size) (position % size) bytes),
      )

module _ {W : Type 0} (fill : Fill W) where
  unfoldable pub ensure_loaded : Ctx W → ℕ → Outcome W (Unit {0})
  unfolding missing per_fetch preloaded map_pages room
  ensure_loaded c index =
      if not (missing c.pages index)
      then (ok tt, map_pages c (touch c.pages index))
      else if preloaded c.pages
      then (ok tt, c)
      else (let count =
            run_length c.pages (min (per_fetch c.pages) (c.pages.page_count - index)) index in
          if count == 0 then (ok tt, c) else fill (room c count) index count)

  -- One turn of the loop in `read`, at a position of the file: the rest of the block, or the end of
  -- the file. The result says how many bytes were copied; `none` stands for `return Ok(false)`.
  unfoldable pub read_at : Ctx W → Bytes → ℕ → ℕ → Result Broken (Option ℕ) × Bytes × Ctx W
  unfolding copy_turn
  read_at c buf position done =
      let index = position / c.pages.page_size in
      if leb c.pages.page_count index
      then (ok none, write_at buf done (replicate (length buf - done) 0), c)
      else (let (r, c') = ensure_loaded c index in copy_turn r c' buf position done)

  unfoldable pub read_step : Ctx W → Bytes → ℕ → ℕ → Result Broken (Option ℕ) × Bytes × Ctx W
  unfolding read_at
  read_step c buf offset done = read_at c buf (u64 (offset + done)) done

  -- The loop of `read`, with fuel; `none` means that the fuel ran out.
  unfoldable pub read_loop : ℕ → Ctx W → Bytes → ℕ → ℕ → Option (Result Broken Bool × Bytes × Ctx W)
  read_loop zero c buf offset done = none
  read_loop (suc fuel) c buf offset done = elim (ltb done (length buf)) [
    | false ↦ some (ok true, buf, set_held c)
    | true ↦
        let (r, buf', c') = read_step c buf offset done in
        elim r [
          | err e ↦ some (err e, buf', c')
          | ok none ↦ some (ok false, buf', c')
          | ok (some n) ↦ read_loop fuel c' buf' offset (done + n)
        ]
  ]

  -- Each turn copies at least one byte, so one turn more than there are bytes suffices.
  unfoldable pub read : Ctx W → Bytes → ℕ → Option (Result Broken Bool × Bytes × Ctx W)
  unfolding read_loop
  read c buf offset = read_loop (suc (length buf)) c buf offset 0

  -- One turn of the loop in `write`, at a position of the file: how many bytes were taken.
  unfoldable pub write_to : Ctx W → Bytes → ℕ → ℕ → Outcome W ℕ
  unfolding place_turn
  write_to c bytes position done =
      let index = position / c.pages.page_size in
      let n = min (c.pages.page_size - position % c.pages.page_size) (length bytes - done) in
      let (r, c') =
        if ltb n c.pages.page_size && ltb index c.pages.page_count
        then ensure_loaded c index
        else (ok tt, c) in
      place_turn r c' position (slice bytes done n)

  unfoldable pub write_step : Ctx W → Bytes → ℕ → ℕ → Outcome W ℕ
  unfolding write_to
  write_step c bytes offset done = write_to c bytes (u64 (offset + done)) done

  unfoldable pub write_loop : ℕ → Ctx W → Bytes → ℕ → ℕ → Option (Outcome W (Unit {0}))
  write_loop zero c bytes offset done = none
  write_loop (suc fuel) c bytes offset done = elim (ltb done (length bytes)) [
    | false ↦ some (ok tt, set_held c)
    | true ↦
        let (r, c') = write_step c bytes offset done in
        elim r [ err e ↦ some (err e, c') | ok n ↦ write_loop fuel c' bytes offset (done + n) ]
  ]

  unfoldable pub write : Ctx W → Bytes → ℕ → Option (Outcome W (Unit {0}))
  unfolding write_loop
  write c bytes offset = write_loop (suc (length bytes)) c bytes offset 0
