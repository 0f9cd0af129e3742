-- ===== src/Pages/Write.antt =====
-- Writing: after `write` the file has the new bytes where they were written and its old bytes
-- everywhere else, whatever is loaded and evicted on the way.
use sqlite_remote_vfs.Base.{
  ℕ, zero, suc, ◌+◌, ◌-◌, ◌/◌, ◌%◌, ◌≤◌, ◌<◌, min, ◌≡◌, refl, ◌∙◌, ap, ◌⊎◌, inl, inr, true, false,
  Option, none, some, arith, length, slice, length-slice, Bool-cases, ltb, u64_mod, u64_of_lt,
  Result, ok, err, ltb→lt, ltb→le,
}
use native.Mathlib.Nat.{mod-lt}
use sqlite_remote_vfs.Base.Bytes.{Bytes}
use sqlite_remote_vfs.Failure.{Broken}
use sqlite_remote_vfs.Pages.{Pages, block}
use sqlite_remote_vfs.Pages.Load.{
  Ctx, Fill, Outcome, ensure_loaded, place_turn, map_pages, write_block, write_to, write_step,
  write_loop, write, set_held,
}
use sqlite_remote_vfs.Pages.View.{Stored, Blank, Serves, Keeps, Keeps-refl, byte-Keeps}
use sqlite_remote_vfs.Pages.Source.{IsSource, ensure_loaded_lem}
use sqlite_remote_vfs.Pages.Place.{NothingBeyond, Placed, write_block-Placed}
use sqlite_remote_vfs.Pages.Written.{Written, Written-none, Written-next}

module _ {W : Type 0} {stored : Stored} {fill : Fill W} (law : IsSource stored fill) where
  -- A turn fails in the source, or writes `n` bytes to one block.
  abbrev Turn : Ctx W → Bytes → ℕ → ℕ → Outcome W ℕ → Type 0
  Turn c bytes pos done o =
      ((e : Broken) × (c' : Ctx W) × (o ≡ (err e, c')) × Keeps stored c.pages c'.pages)
      ⊎ ((n : ℕ) × (c' : Ctx W) × (t : Pages) × (o ≡ (ok n, map_pages c' t))
          × Keeps stored c.pages c'.pages
          × (done + n ≤ length bytes)
          × (0 < n)
          × (pos % c'.pages.page_size + n ≤ c'.pages.page_size)
          × Placed stored c'.pages pos (slice bytes done n) t)

  place_turn-Turn :
      (c : Ctx W) (bytes : Bytes) (pos done n : ℕ) (r : Result Broken (Unit {0})) (c' : Ctx W)
      → NothingBeyond stored c.pages
      → pos + 1 < u64_mod
      → Keeps stored c.pages c'.pages
      → done + n ≤ length bytes
      → 0 < n
      → pos % c.pages.page_size + n ≤ c.pages.page_size
      → (r ≡ ok tt
          → (block c'.pages (pos / c.pages.page_size) ≡ none
              → Blank (stored (pos / c.pages.page_size)) c.pages.page_size)
            ⊎ (n ≡ c.pages.page_size))
      → Turn c bytes pos done (place_turn r c' pos (slice bytes done n))
  unfolding place_turn
  place_turn-Turn c bytes pos done n (err e) c' beyond bound k room positive fits ready =
      inl (e, c', refl, k)
  place_turn-Turn c bytes pos done n (ok u) c' beyond bound k room positive fits ready =
      let same : c'.pages.page_size ≡ c.pages.page_size = k.settings.page_size in
      let size : length (slice bytes done n) ≡ n = length-slice bytes done n room in
      let fits' : pos % c'.pages.page_size + n ≤ c'.pages.page_size = simp same fits in
      inr (
        n,
        c',
        write_block c'.pages (pos / c'.pages.page_size) (pos % c'.pages.page_size)
            (slice bytes done n),
        rw size,
        k,
        room,
        positive,
        fits',
        write_block-Placed pos (slice bytes done n) k.serves
            (λ i le. rw k.settings.page_size (beyond i (omega (arith, k.settings.page_count))))
            (omega (arith, size, fits')) bound (simp (same, size) (ready refl)),
      )

  write_to-cases :
      (c : Ctx W) (bytes : Bytes) (pos done : ℕ)
      → Serves stored c.pages
      → NothingBeyond stored c.pages
      → pos + 1 < u64_mod
      → done < length bytes
      → Turn c bytes pos done (write_to fill c bytes pos done)
  unfolding write_to
  write_to-cases c bytes pos done s beyond bound more =
      let index = pos / c.pages.page_size in
      let n = min (c.pages.page_size - pos % c.pages.page_size) (length bytes - done) in
      let lt : pos % c.pages.page_size < c.pages.page_size = mod-lt pos s.positive in
      elim (Bool-cases (ltb n c.pages.page_size)) [
        | inr whole ↦ rw whole (
            place_turn-Turn c bytes pos done n (ok tt) c beyond bound (Keeps-refl stored c.pages s)
              (omega arith) (omega arith) (omega arith)
              (λ _. inr (omega (arith, ltb→le n c.pages.page_size whole))))
        | inl part ↦ elim (Bool-cases (ltb index c.pages.page_count)) [
          | inr new ↦
              rw (part, new)
                (place_turn-Turn c bytes pos done n (ok tt) c beyond bound
                  (Keeps-refl stored c.pages s) (omega arith) (omega arith) (omega arith)
                  (λ _. inl (λ _. beyond index (ltb→le index c.pages.page_count new))))
          | inl old ↦
              let loaded = ensure_loaded_lem law c index s (ltb→lt index c.pages.page_count old) in
              rw (part, old)
                (place_turn-Turn c bytes pos done n (ensure_loaded fill c index).0
                  (ensure_loaded fill c index).1 beyond bound loaded.keeps (omega arith)
                  (omega arith) (omega arith) (λ r. inl (loaded.ready r)))
        ]
      ]

  -- How a write ends: the first `done` bytes are written, all of them if it succeeds.
  pub record WriteEnd (p : Pages) (offset : ℕ) (bytes : Bytes) (r : Result Broken (Unit {0}))
      (c' : Ctx W) : Type 0 where
    pub done : ℕ
    pub within : done ≤ length bytes
    pub written : Written stored p offset bytes done c'.pages
    pub whole : r ≡ ok tt → done ≡ length bytes

  after_turn : ℕ → Bytes → ℕ → ℕ → Outcome W ℕ → Option (Outcome W (Unit {0}))
  after_turn fuel bytes offset done o = elim (o.0) [
    | err e ↦ some (err e, o.1)
    | ok n ↦ write_loop fill fuel o.1 bytes offset (done + n)
  ]

  write_loop-done :
      (fuel : ℕ) (c : Ctx W) (bytes : Bytes) (offset done : ℕ)
      → ltb done (length bytes) ≡ false
      → write_loop fill (suc fuel) c bytes offset done ≡ some (ok tt, set_held c)
  unfolding write_loop
  write_loop-done fuel c bytes offset done end = rw (end, write_loop)

  write_loop-more :
      (fuel : ℕ) (c : Ctx W) (bytes : Bytes) (offset done : ℕ)
      → ltb done (length bytes) ≡ true
      → write_loop fill (suc fuel) c bytes offset done
        ≡ after_turn fuel bytes offset done (write_step fill c bytes offset done)
  unfolding write_loop after_turn
  write_loop-more fuel c bytes offset done more = rw (more, write_loop)

  write_step_at :
      (c : Ctx W) (bytes : Bytes) (offset done : ℕ)
      → offset + done < u64_mod
      → write_step fill c bytes offset done ≡ write_to fill c bytes (offset + done) done
  unfolding write_step
  write_step_at c bytes offset done bound =
      ap (λ pos. write_to fill c bytes pos done) (u64_of_lt (offset + done) bound)

  -- A failing source leaves what was written before.
  Written-Keeps :
      {p q r : Pages} (offset : ℕ) (bytes : Bytes) (done : ℕ)
      → Written stored p offset bytes done q
      → Keeps stored q r
      → Written stored p offset bytes done r
  Written-Keeps offset bytes done w k = record {
    serves = k.serves;
    beyond = λ i le. rw k.settings.page_size (w.beyond i (omega (arith, k.settings.page_count)));
    page_size = k.settings.page_size ∙ w.page_size;
    new = λ i lt. byte-Keeps k (offset + i) ∙ w.new i lt;
    old = λ i out. byte-Keeps k i ∙ w.old i out;
    grows = omega (arith, w.grows, k.settings.page_count);
    covers = λ i lt. omega (arith, w.covers i lt, k.settings.page_count);
    tight = rw k.settings.page_count w.tight;
  }

  write_loop-ends :
      (p : Pages) (offset : ℕ) (bytes : Bytes) (fuel : ℕ) (c : Ctx W) (done : ℕ)
      → offset + length bytes < u64_mod
      → length bytes - done < fuel
      → done ≤ length bytes
      → Written stored p offset bytes done c.pages
      → (r : Result Broken (Unit {0})) × (c' : Ctx W) × (write_loop fill fuel c bytes offset done
          ≡ some (r, c'))
        × WriteEnd p offset bytes r c'
  unfolding after_turn set_held map_pages
  write_loop-ends p offset bytes zero c done bound enough le w = absurd (omega arith)
  write_loop-ends p offset bytes (suc fuel) c done bound enough le w =
      elim (Bool-cases (ltb done (length bytes))) [
        | inr end ↦ (
          ok tt,
          set_held c,
          write_loop-done fuel c bytes offset done end,
          record {
            done = done;
            within = le;
            written = w;
            whole = λ _. omega (arith, ltb→le done (length bytes) end);
          },
        )
        | inl more ↦
            let lt = ltb→lt done (length bytes) more in
            let turn =
              write_loop-more fuel c bytes offset done more
              ∙ ap (after_turn fuel bytes offset done)
                  (write_step_at c bytes offset done (omega arith)) in
            elim (write_to-cases c bytes (offset + done) done w.serves w.beyond (omega arith) lt) [
              | inl (broken, c', e, k) ↦ (
                err broken,
                c',
                turn ∙ ap (after_turn fuel bytes offset done) e,
                record {
                  done = done;
                  within = le;
                  written = Written-Keeps offset bytes done w k;
                  whole = λ h. cc;
                },
              )
              | inr (n, c', t, e, k, room, positive, fits, placed) ↦
                  let (r, c'', ends, end) =
                    write_loop-ends p offset bytes fuel (map_pages c' t) (done + n) bound
                      (omega arith) room
                      (Written-next offset bytes done n w k room positive fits placed) in
                  (r, c'', turn ∙ ap (after_turn fuel bytes offset done) e ∙ ends, end)
            ]
      ]

  -- `write` ends with the fuel that it is given. Where it succeeds, every byte of the range has its
  -- new value; where the source fails, a first part of the range. Outside, the file keeps its bytes;
  -- it grows exactly as far as the written part needs; and the invariant holds. The store holds
  -- nothing but zeros past the end of the file.
  pub write-ends :
      (c : Ctx W) (bytes : Bytes) (offset : ℕ)
      → Serves stored c.pages
      → NothingBeyond stored c.pages
      → offset + length bytes < u64_mod
      → (r : Result Broken (Unit {0})) × (c' : Ctx W) × (write fill c bytes offset ≡ some (r, c'))
        × WriteEnd c.pages offset bytes r c'
  unfolding write
  write-ends c bytes offset s beyond bound =
      write_loop-ends c.pages offset bytes (suc (length bytes)) c 0 bound (omega arith)
        (omega arith) (Written-none stored c.pages offset bytes s beyond)
