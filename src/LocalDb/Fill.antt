-- ===== src/LocalDb/Fill.antt =====
-- Loading blocks from the store of the browser: `fill` keeps the contract of a `Source`
-- (crates/sqlite-remote-vfs/src/local_database.rs).
use sqlite_remote_vfs.Base.{
  ℕ, zero, suc, ◌+◌, ◌-◌, ◌≤◌, ◌<◌, min, ◌≡◌, refl, sym, ◌∙◌, inl, inr, true, false, Option, none,
  some, List, [], ◌∷◌, arith, ltb, Bool-cases, Result-cases, ltb→lt, ltb→le, le→ltb, length, Result,
  ok, err,
}
use sqlite_remote_vfs.Base.Bytes.{Bytes}
use sqlite_remote_vfs.Base.Map.{IsMap}
use sqlite_remote_vfs.Failure.{Broken, Refusal}
use sqlite_remote_vfs.Pages.{Pages, block, keep}
use sqlite_remote_vfs.Pages.Load.{Ctx, Outcome}
use sqlite_remote_vfs.Pages.View.{Stored}
use sqlite_remote_vfs.Pages.Source.{Loaded, IsSource, none_of_missing}
use sqlite_remote_vfs.Pages.Keep.{Loaded-refl, Loaded-trans, keep-Loaded, block-keep, still_stored}
use sqlite_remote_vfs.LocalDb.{
  Bridge, Link, max_read, odd_block, keep_all, keep_read, after_read, set_bridge, set_broken,
  fill_turn, fill_loop, fill, unless_broken,
}

-- Blocks that stand in the store one after the other, from `first` on.
abbrev pub Run : Stored → ℕ → List Bytes → Type 0
Run stored first [] = Unit
Run stored first (b ∷ bs) = (stored first ≡ some b) × Run stored (first + 1) bs

-- What the worker promises of a read, as long as nothing is committed: exactly `count` blocks, those
-- of the store. Where it has states that hold other stores, `S` is the type of those that hold this.
pub record ReadsStore {S : Type 0} (stored : Stored) (bridge : Bridge S) : Type 0 where
  pub blocks :
      (s : S) (first count : ℕ) (blocks : List Bytes)
      → (bridge.read_blocks s first count).0 ≡ ok blocks
      → Run stored first blocks × (length blocks ≡ count)

pub keep_all-Loaded :
    (stored : Stored) (p : Pages) (first : ℕ) (blocks : List Bytes)
    → IsMap p.blocks
    → Run stored first blocks
    → Loaded stored p (keep_all p first blocks)
unfolding keep_all
keep_all-Loaded stored p first [] m run = Loaded-refl stored p m
keep_all-Loaded stored p first (b ∷ bs) m run =
    let one = keep-Loaded stored p first b m run.0 in
    Loaded-trans one (keep_all-Loaded stored (keep p first b) (first + 1) bs one.is_map run.1)

keep_all-first :
    (stored : Stored) (p : Pages) (first : ℕ) (blocks : List Bytes)
    → IsMap p.blocks
    → Run stored first blocks
    → 0 < length blocks
    → block p first ≡ none
    → block (keep_all p first blocks) first ≡ stored first
unfolding keep_all
keep_all-first stored p first [] m run positive gone = absurd (omega arith)
keep_all-first stored p first (b ∷ bs) m run positive gone =
    still_stored first
      (keep_all-Loaded stored (keep p first b) (first + 1) bs
        (keep-Loaded stored p first b m run.0).is_map run.1)
      (block-keep p first b gone ∙ sym run.0)

module _ {S : Type 0} {stored : Stored} {bridge : Bridge S} (law : ReadsStore stored bridge) where
  -- What a turn that asked for the `n` blocks from `next` on leaves.
  record Turned (c : Ctx (Link S)) (next n : ℕ) (o : Outcome (Link S) (Unit {0})) : Type 0 where
    loaded : Loaded stored c.pages o.1.pages
    here : o.0 ≡ ok tt → 0 < n → block c.pages next ≡ none → block o.1.pages next ≡ stored next

  keep_read-Turned :
      (o : Option ℕ) (c : Ctx (Link S)) (next n : ℕ) (blocks : List Bytes)
      → IsMap c.pages.blocks
      → Run stored next blocks
      → length blocks ≡ n
      → Turned c next n (keep_read o c next n blocks)
  unfolding keep_read
  keep_read-Turned (some bytes) c next n blocks m run len = record {
    loaded = Loaded-refl stored c.pages m;
    here = λ e. cc;
  }
  keep_read-Turned none c next n blocks m run len = record {
    loaded = keep_all-Loaded stored c.pages next blocks m run;
    here = λ _ positive gone. keep_all-first stored c.pages next blocks m run (omega arith) gone;
  }

  after_read-Turned :
      (r : Result Refusal (List Bytes)) (c : Ctx (Link S)) (next n : ℕ)
      → IsMap c.pages.blocks
      → ((blocks : List Bytes) → r ≡ ok blocks → Run stored next blocks × (length blocks ≡ n))
      → Turned c next n (after_read r c next n)
  unfolding after_read set_broken
  after_read-Turned (err refusal) c next n m h = record {
    loaded = Loaded-refl stored c.pages m;
    here = λ e. cc;
  }
  after_read-Turned (ok blocks) c next n m h =
      keep_read-Turned (odd_block c.pages.page_size blocks) c next n blocks m (h blocks refl).0
        (h blocks refl).1

  fill_turn-Turned :
      (c : Ctx (Link S)) (next n : ℕ)
      → IsMap c.pages.blocks
      → Turned c next n (fill_turn bridge c next n)
  unfolding fill_turn set_bridge
  fill_turn-Turned c next n m =
      let answer = bridge.read_blocks c.source.bridge next n in
      let t =
        after_read-Turned answer.0 (set_bridge c answer.1) next n m
          (λ blocks e. law.blocks c.source.bridge next n blocks e) in
      record { loaded = t.loaded; here = t.here }

  -- The loop behind a turn
  after_turn : ℕ → ℕ → ℕ → ℕ → Outcome (Link S) (Unit {0}) → Outcome (Link S) (Unit {0})
  unfolding fill_loop
  after_turn fuel at_once next end o = elim o.0 [
    | err e ↦ (err e, o.1)
    | ok _ ↦ fill_loop bridge fuel at_once o.1 next end
  ]

  fill_loop-more :
      (fuel at_once : ℕ) (c : Ctx (Link S)) (next end : ℕ)
      → ltb next end ≡ true
      → fill_loop bridge (suc fuel) at_once c next end
        ≡ after_turn fuel at_once
            (next + min at_once (end - next))
            end
            (fill_turn bridge c next (min at_once (end - next)))
  unfolding fill_loop after_turn
  fill_loop-more fuel at_once c next end more = rw (more, fill_loop)

  fill_loop-done :
      (fuel at_once : ℕ) (c : Ctx (Link S)) (next end : ℕ)
      → ltb next end ≡ false
      → fill_loop bridge fuel at_once c next end ≡ (ok tt, c)
  unfolding fill_loop
  fill_loop-done zero at_once c next end stop = refl
  fill_loop-done (suc fuel) at_once c next end stop = rw (stop, fill_loop)

  -- From `next` on, the loop loads blocks of the store and nothing else; and if it succeeds, the
  -- first one is in memory.
  fill_loop-Turned :
      (fuel at_once : ℕ) (c : Ctx (Link S)) (next end : ℕ)
      → 0 < at_once
      → IsMap c.pages.blocks
      → end ≤ next + fuel
      → Turned c next (end - next) (fill_loop bridge fuel at_once c next end)
  unfolding after_turn
  fill_loop-Turned zero at_once c next end positive m enough =
      rw (fill_loop-done zero at_once c next end (le→ltb next end (omega arith)))
        (record { loaded = Loaded-refl stored c.pages m; here = λ _ more. absurd (omega arith) })
  fill_loop-Turned (suc fuel) at_once c next end positive m enough =
      elim (Bool-cases (ltb next end)) [
        | inr stop ↦ rw (fill_loop-done (suc fuel) at_once c next end stop) (record {
          loaded = Loaded-refl stored c.pages m;
          here = λ _ more. absurd (omega (arith, ltb→le next end stop));
        })
        | inl more ↦
            let lt = ltb→lt next end more in
            let n = min at_once (end - next) in
            let t = fill_turn-Turned c next n m in
            rw (fill_loop-more fuel at_once c next end more)
              (elim (Result-cases (fill_turn bridge c next n).0) [
                | inr (e, failed) ↦ rw failed (record { loaded = t.loaded; here = λ e. cc })
                | inl (u, done) ↦
                    let rest =
                      fill_loop-Turned fuel at_once (fill_turn bridge c next n).1 (next + n) end
                        positive t.loaded.is_map (omega arith) in
                    rw done (record {
                      loaded = Loaded-trans t.loaded rest.loaded;
                      here = λ _ _ gone.
                          still_stored next rest.loaded (t.here done (omega arith) gone);
                    })
              ])
      ]

  max_read-pos : (page_size : ℕ) → 0 < max_read page_size
  unfolding max_read
  max_read-pos page_size = omega arith

  unless_broken-Turned :
      (o : Option Broken) (c : Ctx (Link S)) (next n : ℕ) (rest : Outcome (Link S) (Unit {0}))
      → IsMap c.pages.blocks
      → Turned c next n rest
      → Turned c next n (unless_broken o c rest)
  unfolding unless_broken
  unless_broken-Turned none c next n rest m t = t
  unless_broken-Turned (some broken) c next n rest m t = record {
    loaded = Loaded-refl stored c.pages m;
    here = λ e. cc;
  }

  fill-Turned :
      (c : Ctx (Link S)) (first count : ℕ)
      → IsMap c.pages.blocks
      → Turned c first count (fill bridge c first count)
  unfolding fill
  fill-Turned c first count m =
      let size : first + count - first ≡ count = omega arith in
      unless_broken-Turned c.source.broken c first count
        (fill_loop bridge count (max_read c.pages.page_size) c first (first + count)) m
        (rw size at (
          fill_loop-Turned count (max_read c.pages.page_size) c first (first + count)
            (max_read-pos c.pages.page_size) m (omega arith)))

  -- `fill` keeps the contract of a source, for a worker that answers from one store: whatever it is
  -- asked, and also where it fails, it puts blocks of the store into memory and nothing else.
  pub fill-IsSource : IsSource stored (fill bridge)
  fill-IsSource = record {
    loads = λ c first count s gaps. (fill-Turned c first count s.is_map).loaded;
    first_block = λ c first count s gaps positive done.
        (fill-Turned c first count s.is_map).here done positive
          (none_of_missing c.pages first (gaps first (omega arith) (omega arith)));
  }

  after_turn-same :
      (more fuel at_once next end : ℕ) (o : Outcome (Link S) (Unit {0}))
      → fill_loop bridge more at_once o.1 next end ≡ fill_loop bridge fuel at_once o.1 next end
      → after_turn more at_once next end o ≡ after_turn fuel at_once next end o
  unfolding after_turn
  after_turn-same more fuel at_once next end (err e, c) same = refl
  after_turn-same more fuel at_once next end (ok u, c) same = same

  -- The loop in `fill` ends by itself: with more turns at hand than there are blocks to load it does
  -- the same, as each turn reads at least one block.
  pub fill_loop-enough :
      (more fuel at_once : ℕ) (c : Ctx (Link S)) (next end : ℕ)
      → 0 < at_once
      → end ≤ next + fuel
      → fuel ≤ more
      → fill_loop bridge more at_once c next end ≡ fill_loop bridge fuel at_once c next end
  fill_loop-enough more zero at_once c next end positive enough le =
      let stop = le→ltb next end (omega arith) in
      fill_loop-done more at_once c next end stop
      ∙ sym (fill_loop-done zero at_once c next end stop)
  fill_loop-enough zero (suc fuel) at_once c next end positive enough le = absurd (omega arith)
  fill_loop-enough (suc more) (suc fuel) at_once c next end positive enough le =
      elim (Bool-cases (ltb next end)) [
        | inr stop ↦
            fill_loop-done (suc more) at_once c next end stop
            ∙ sym (fill_loop-done (suc fuel) at_once c next end stop)
        | inl on ↦
            let lt = ltb→lt next end on in
            let n = min at_once (end - next) in
            let same =
              fill_loop-enough more fuel at_once (fill_turn bridge c next n).1 (next + n) end
                positive (omega arith) (omega arith) in
            fill_loop-more more at_once c next end on
            ∙ after_turn-same more fuel at_once (next + n) end (fill_turn bridge c next n) same
            ∙ sym (fill_loop-more fuel at_once c next end on)
      ]
