-- ===== src/Pages/Read.antt =====
-- Reading: the bytes that `read` returns are those of the file, whatever is loaded and evicted on the
-- way.
use sqlite_remote_vfs.Base.{
  ℕ, zero, suc, ◌+◌, ◌-◌, ◌/◌, ◌%◌, ◌≤◌, ◌<◌, min, ◌≡◌, refl, sym, ◌∙◌, ap, ◌⊎◌, inl, inr, Bool,
  true, false, Option, none, some, arith, length, get_or, replicate, write_at, length-replicate,
  length-write_at, get_or-replicate, get_or-write_at_in, get_or-write_at_out, Bool-cases, ltb, leb,
  u64_mod, u64_of_lt, Result, ok, err, ltb→lt, ltb→le, leb→le, leb→lt,
}
use sqlite_remote_vfs.Base.Bytes.{Bytes}
use native.Mathlib.Nat.{mod-lt}
use sqlite_remote_vfs.Failure.{Broken}
use sqlite_remote_vfs.Pages.{Pages, block}
use sqlite_remote_vfs.Pages.Load.{
  Ctx, Fill, copied, ensure_loaded, copy_turn, read_at, read_step, read_loop, read, set_held,
}
use sqlite_remote_vfs.Pages.Position.{div_within, inside_of_index, beyond_of_index}
use sqlite_remote_vfs.Pages.View.{Stored, Blank, Serves, Keeps, Keeps-refl, Keeps-trans, byte-Keeps}
use sqlite_remote_vfs.Pages.Source.{IsSource, Ensured, ensure_loaded_lem}
use sqlite_remote_vfs.Pages.Chunk.{
  size, file_byte, size_same, file_byte_inside, file_byte_past, length-chunk, get_or-chunk,
}

-- The buffer of a read that has come to `done`.
record Filled (stored : Stored) (p : Pages) (offset done : ℕ) (buf : Bytes) : Type 0 where
  bytes : (k : ℕ) → k < done → get_or buf k 0 ≡ file_byte stored p (offset + k)
  inside : (k : ℕ) → k < done → offset + k < size p

-- What a finished read returns.
pub record ReadResult (stored : Stored) (p : Pages) (offset : ℕ) (before buf : Bytes) (full : Bool)
    : Type 0 where
  pub same_length : length buf ≡ length before
  pub bytes : (k : ℕ) → k < length before → get_or buf k 0 ≡ file_byte stored p (offset + k)
  -- `true` exactly when no byte lies past the end of the file
  pub whole : full ≡ true → (k : ℕ) → k < length before → offset + k < size p
  pub short : full ≡ false → (0 < length before) × (size p < offset + length before)

module _ {W : Type 0} {stored : Stored} {fill : Fill W} (law : IsSource stored fill) where
  -- A turn that copies: `n` more bytes of the file, loaded by `ensure_loaded`.
  record Copies (c : Ctx W) (buf : Bytes) (pos done : ℕ) (n : ℕ) (c' : Ctx W) : Type 0 where
    keeps : Keeps stored c.pages c'.pages
    some_bytes : 0 < n
    room : done + n ≤ length buf
    fits : pos % c'.pages.page_size + n ≤ c'.pages.page_size
    ready :
        block c'.pages (pos / c'.pages.page_size) ≡ none
        → Blank (stored (pos / c'.pages.page_size)) c'.pages.page_size
    inside : pos / c.pages.page_size < c.pages.page_count

  -- The three turns: past the end, a source that fails, and a copy.
  abbrev Turn : Ctx W → Bytes → ℕ → ℕ → Result Broken (Option ℕ) × Bytes × Ctx W → Type 0
  Turn c buf pos done t =
      ((size c.pages ≤ pos)
        × (t ≡ (ok none, write_at buf done (replicate (length buf - done) 0), c)))
      ⊎ ((e : Broken) × (c' : Ctx W) × (t ≡ (err e, buf, c')) × Keeps stored c.pages c'.pages)
      ⊎ ((n : ℕ) × (c' : Ctx W) × (t ≡ (
        ok (some n),
        write_at buf done
            (copied (block c'.pages (pos / c'.pages.page_size)) (pos % c'.pages.page_size) n),
        c',
      ))
          × Copies c buf pos done n c')

  copy_turn-Turn :
      (c : Ctx W) (buf : Bytes) (pos done : ℕ) (r : Result Broken (Unit {0})) (c' : Ctx W)
      → Serves stored c.pages
      → pos / c.pages.page_size < c.pages.page_count
      → done < length buf
      → Ensured law c (pos / c.pages.page_size) r c'
      → Turn c buf pos done (copy_turn r c' buf pos done)
  unfolding copy_turn
  copy_turn-Turn c buf pos done (err e) c' s inside more loaded =
      inr (inl (e, c', refl, loaded.keeps))
  copy_turn-Turn c buf pos done (ok u) c' s inside more loaded =
      let same : c'.pages.page_size ≡ c.pages.page_size = loaded.keeps.settings.page_size in
      let positive : 0 < c'.pages.page_size = omega (arith, same, s.positive) in
      let n = min (c'.pages.page_size - pos % c'.pages.page_size) (length buf - done) in
      let lt : pos % c'.pages.page_size < c'.pages.page_size = mod-lt pos positive in
      inr (
        inr (
          n,
          c',
          refl,
          record {
            keeps = loaded.keeps;
            some_bytes = omega arith;
            room = omega arith;
            fits = omega arith;
            ready = simp same (loaded.ready refl);
            inside = inside;
          },
        ))

  read_at-cases :
      (c : Ctx W) (buf : Bytes) (pos done : ℕ)
      → Serves stored c.pages
      → done < length buf
      → Turn c buf pos done (read_at fill c buf pos done)
  unfolding read_at
  read_at-cases c buf pos done s more =
      let index = pos / c.pages.page_size in
      elim (Bool-cases (leb c.pages.page_count index)) [
        | inl past ↦ inl (
          beyond_of_index pos c.pages.page_count c.pages.page_size s.positive
              (leb→le c.pages.page_count index past),
          rw past,
        )
        | inr here ↦
            let inside = leb→lt c.pages.page_count index here in
            rw here (
              copy_turn-Turn c buf pos done (ensure_loaded fill c index).0
                (ensure_loaded fill c index).1 s inside more
                (ensure_loaded_lem law c index s inside))
      ]

  -- How a read from `p` into `before` ends.
  pub record ReadEnd (p : Pages) (offset : ℕ) (before : Bytes) (r : Result Broken Bool)
      (buf : Bytes) (c' : Ctx W) : Type 0 where
    pub keeps : Keeps stored p c'.pages
    pub result : (full : Bool) → r ≡ ok full → ReadResult stored p offset before buf full

  -- The loop goes on from what a turn returns.
  after_turn :
      ℕ
      → ℕ
      → ℕ
      → Result Broken (Option ℕ) × Bytes × Ctx W
      → Option (Result Broken Bool × Bytes × Ctx W)
  after_turn fuel offset done t = elim (t.0) [
    | err e ↦ some (err e, t.1, t.2)
    | ok none ↦ some (ok false, t.1, t.2)
    | ok (some n) ↦ read_loop fill fuel t.2 t.1 offset (done + n)
  ]

  read_loop-done :
      (fuel : ℕ) (c : Ctx W) (buf : Bytes) (offset done : ℕ)
      → ltb done (length buf) ≡ false
      → read_loop fill (suc fuel) c buf offset done ≡ some (ok true, buf, set_held c)
  unfolding read_loop
  read_loop-done fuel c buf offset done end = rw (end, read_loop)

  read_loop-more :
      (fuel : ℕ) (c : Ctx W) (buf : Bytes) (offset done : ℕ)
      → ltb done (length buf) ≡ true
      → read_loop fill (suc fuel) c buf offset done
        ≡ after_turn fuel offset done (read_step fill c buf offset done)
  unfolding read_loop after_turn
  read_loop-more fuel c buf offset done more = rw (more, read_loop)

  read_step_at :
      (c : Ctx W) (buf : Bytes) (offset done : ℕ)
      → offset + done < u64_mod
      → read_step fill c buf offset done ≡ read_at fill c buf (offset + done) done
  unfolding read_step
  read_step_at c buf offset done bound =
      ap (λ pos. read_at fill c buf pos done) (u64_of_lt (offset + done) bound)

  read_loop-turn :
      (fuel : ℕ) (c : Ctx W) (buf : Bytes) (offset done : ℕ)
      → ltb done (length buf) ≡ true
      → offset + done < u64_mod
      → read_loop fill (suc fuel) c buf offset done
        ≡ after_turn fuel offset done (read_at fill c buf (offset + done) done)
  read_loop-turn fuel c buf offset done more bound =
      read_loop-more fuel c buf offset done more
      ∙ ap (after_turn fuel offset done) (read_step_at c buf offset done bound)

  module _ (p : Pages) (offset : ℕ) (before : Bytes) where
    -- A block of the file lies in the file with all its bytes.
    chunk-inside :
        (c : Ctx W) (done n j : ℕ) (c' : Ctx W) {buf : Bytes}
        → Keeps stored p c.pages
        → Copies c buf (offset + done) done n c'
        → j < n
        → offset + done + j < size p
    chunk-inside c done n j c' k t lt =
        let same : c'.pages.page_size ≡ c.pages.page_size = t.keeps.settings.page_size in
        let within : (offset + done) % c.pages.page_size + j < c.pages.page_size =
          simp (← same) (omega (arith, t.fits)) in
        let index = div_within (offset + done) j c.pages.page_size k.serves.positive within in
        let inside =
          inside_of_index (offset + done + j) c.pages.page_count c.pages.page_size k.serves.positive
            (rw index t.inside) in
        rw (← size_same k) inside

    Filled-copy :
        (c : Ctx W) (buf : Bytes) (done n : ℕ) (c' : Ctx W)
        → Keeps stored p c.pages
        → Filled stored p offset done buf
        → Copies c buf (offset + done) done n c'
        → let pos = offset + done in
          let chunk =
            copied (block c'.pages (pos / c'.pages.page_size)) (pos % c'.pages.page_size) n in
          (length (write_at buf done chunk) ≡ length buf)
          × Filled stored p offset (done + n) (write_at buf done chunk)
    Filled-copy c buf done n c' k f t =
        let pos = offset + done in
        let s' = t.keeps.serves in
        let chunk =
          copied (block c'.pages (pos / c'.pages.page_size)) (pos % c'.pages.page_size) n in
        let len : length chunk ≡ n = length-chunk s' pos n t.fits in
        let room : done + length chunk ≤ length buf = omega (arith, t.room) in
        let fresh : (j : ℕ)
            → j < n
            → (get_or (write_at buf done chunk) (done + j) 0
                ≡ file_byte stored p (offset + (done + j)))
              × (offset + (done + j) < size p) =
          λ j lt.
            let here : pos + j < size p = chunk-inside c done n j c' k t lt in
            let regroup : offset + (done + j) ≡ pos + j = omega arith in
            rw regroup (
              get_or-write_at_in 0 buf done chunk (done + j) j room refl (omega arith)
                  ∙ get_or-chunk s' pos n j t.fits t.ready lt
                  ∙ byte-Keeps (Keeps-trans stored k t.keeps) (pos + j)
                  ∙ sym (file_byte_inside stored p (pos + j) here),
              here,
            ) in
        (
          length-write_at buf done chunk room,
          record {
            bytes = λ i lt. elim (Bool-cases (ltb i done)) [
              | inl old ↦
                  get_or-write_at_out 0 buf done chunk i room (inl (ltb→lt i done old))
                  ∙ f.bytes i (ltb→lt i done old)
              | inr new ↦
                  let e : done + (i - done) ≡ i = omega (arith, ltb→le i done new) in
                  ap (λ t. get_or (write_at buf done chunk) t 0) (sym e)
                  ∙ (fresh (i - done) (omega (arith, ltb→le i done new))).0
                  ∙ ap (λ t. file_byte stored p (offset + t)) e
            ];
            inside = λ i lt. elim (Bool-cases (ltb i done)) [
              | inl old ↦ f.inside i (ltb→lt i done old)
              | inr new ↦
                  let e : done + (i - done) ≡ i = omega (arith, ltb→le i done new) in
                  omega (arith, e, (fresh (i - done) (omega (arith, ltb→le i done new))).1)
            ];
          },
        )

    ends_short :
        (c : Ctx W) (buf : Bytes) (done : ℕ)
        → length buf ≡ length before
        → done < length buf
        → Keeps stored p c.pages
        → Filled stored p offset done buf
        → size c.pages ≤ offset + done
        → ReadEnd p offset before (ok false) (write_at buf done (replicate (length buf - done) 0)) c
    ends_short c buf done same more k f past =
        let zeros : Bytes = replicate (length buf - done) 0 in
        let len : length zeros ≡ length buf - done = length-replicate (length buf - done) 0 in
        let room : done + length zeros ≤ length buf = omega arith in
        let past' : size p ≤ offset + done = omega (arith, past, size_same k) in
        record {
          keeps = k;
          result = λ full h. record {
            same_length = length-write_at buf done zeros room ∙ same;
            bytes = λ i lt. elim (Bool-cases (ltb i done)) [
              | inl old ↦
                  get_or-write_at_out 0 buf done zeros i room (inl (ltb→lt i done old))
                  ∙ f.bytes i (ltb→lt i done old)
              | inr new ↦
                  let le = ltb→le i done new in
                  get_or-write_at_in 0 buf done zeros i (i - done) room (omega arith) (omega arith)
                  ∙ get_or-replicate 0 (length buf - done) (i - done)
                  ∙ sym (file_byte_past stored p (offset + i) (omega arith))
            ];
            whole = λ e. cc (h, e);
            short = λ _. (omega arith, omega arith);
          };
        }

    ends_full :
        (c : Ctx W) (buf : Bytes) (done : ℕ)
        → length buf ≡ length before
        → length buf ≤ done
        → Keeps stored p c.pages
        → Filled stored p offset done buf
        → ReadEnd p offset before (ok true) buf (set_held c)
    unfolding set_held
    ends_full c buf done same end k f = record {
      keeps = k;
      result = λ full h. record {
        same_length = same;
        bytes = λ i lt. f.bytes i (omega arith);
        whole = λ _ i lt. f.inside i (omega arith);
        short = λ e. cc (h, e);
      };
    }

    read_loop-ends :
        (fuel : ℕ) (c : Ctx W) (buf : Bytes) (done : ℕ)
        → offset + length before ≤ u64_mod
        → length buf - done < fuel
        → length buf ≡ length before
        → Keeps stored p c.pages
        → Filled stored p offset done buf
        → (r : Result Broken Bool) × (buf' : Bytes) × (c' : Ctx W) × (read_loop fill fuel c buf
              offset done
            ≡ some (r, buf', c'))
          × ReadEnd p offset before r buf' c'
    unfolding after_turn
    read_loop-ends zero c buf done bound enough same k f = absurd (omega arith)
    read_loop-ends (suc fuel) c buf done bound enough same k f =
        elim (Bool-cases (ltb done (length buf))) [
          | inr end ↦ (
            ok true,
            buf,
            set_held c,
            read_loop-done fuel c buf offset done end,
            ends_full c buf done same (ltb→le done (length buf) end) k f,
          )
          | inl more ↦
              let lt = ltb→lt done (length buf) more in
              let turn = read_loop-turn fuel c buf offset done more (omega arith) in
              elim (read_at-cases c buf (offset + done) done k.serves lt) [
                | inl (past, e) ↦ (
                  ok false,
                  write_at buf done (replicate (length buf - done) 0),
                  c,
                  turn ∙ ap (after_turn fuel offset done) e,
                  ends_short c buf done same lt k f past,
                )
                | inr (inl (broken, c', e, k')) ↦ (
                  err broken,
                  buf,
                  c',
                  turn ∙ ap (after_turn fuel offset done) e,
                  record { keeps = Keeps-trans stored k k'; result = λ full h. cc },
                )
                | inr (inr (n, c', e, t)) ↦
                    let (same', f') = Filled-copy c buf done n c' k f t in
                    let (r, buf', c'', ends, end) =
                      read_loop-ends fuel c'
                        (write_at buf done (
                          copied (block c'.pages ((offset + done) / c'.pages.page_size))
                            ((offset + done) % c'.pages.page_size) n))
                        (done + n) bound (omega (arith, t.some_bytes)) (same' ∙ same)
                        (Keeps-trans stored k t.keeps) f' in
                    (r, buf', c'', turn ∙ ap (after_turn fuel offset done) e ∙ ends, end)
              ]
        ]

    -- `read` ends with the fuel that it is given. It returns the bytes of the file, zeros past its
    -- end, and whether all of them lie in the file; and it changes neither the file nor the
    -- invariant, also when the source fails.
    pub read-ends :
        (c : Ctx W)
        → Serves stored p
        → c.pages ≡ p
        → offset + length before ≤ u64_mod
        → (r : Result Broken Bool) × (buf : Bytes) × (c' : Ctx W) × (read fill c before offset
            ≡ some (r, buf, c'))
          × ReadEnd p offset before r buf c'
    unfolding read
    read-ends c s e bound =
        read_loop-ends (suc (length before)) c before 0 bound (omega arith) refl
          (rw e (Keeps-refl stored p s))
          (record { bytes = λ i lt. absurd (omega arith); inside = λ i lt. absurd (omega arith) })
