-- ===== src/Pages/Place.antt =====
-- Writing one block: what `write_block` does to the file and to the invariant.
use sqlite_remote_vfs.Base.{
  ℕ, ◌+◌, ◌/◌, ◌%◌, ◌≤◌, ◌<◌, ◌≡◌, refl, sym, ◌∙◌, ap, ◌⊎◌, inl, inr, ◌≢◌, Bool, true, false,
  Option, none, some, arith, length, get_or, write_at, elem, length-replicate, length-write_at,
  get_or-write_at_in, get_or-write_at_out, Bool-cases, if◌then◌else◌, ltb, leb, ◌==◌, u64, u64_mod,
  u64_of_lt, ==→eq, ==→ne, ==_refl, ==_ne, ltb→lt, ltb→le,
}
use native.Mathlib.Nat.{mod-lt, div-le_self}
use sqlite_remote_vfs.Base.Bytes.{Bytes}
use sqlite_remote_vfs.Base.Map.{find, find-put, put-IsMap}
use sqlite_remote_vfs.Base.Sorted
use sqlite_remote_vfs.Pages.{Pages, Block, block, content_of}
use sqlite_remote_vfs.Pages.Load.{entry_or_zeros, write_block}
use sqlite_remote_vfs.Pages.Position.{div_within, mod_within}
use sqlite_remote_vfs.Pages.View.{Stored, Blank, content, choose, byte, Serves}

-- The source holds nothing but zeros past the end of the file.
abbrev pub NothingBeyond : Stored → Pages → Type 0
NothingBeyond stored p = (i : ℕ) → p.page_count ≤ i → Blank (stored i) p.page_size

-- The content of the block before the write.
pub base : Pages → ℕ → Bytes
base p index = choose (block p index) none p.page_size

content-entry :
    (o : Option Block) (size used : ℕ)
    → (entry_or_zeros o size used).content ≡ choose (content_of o) none size
unfolding entry_or_zeros choose content_of
content-entry none size used = refl
content-entry (some b) size used = refl

content_of_if :
    (t : Bool) (b : Block) (o : Option Block)
    → content_of (if t then some b else o) ≡ (if t then some b.content else content_of o)
unfolding content_of
content_of_if true b o = refl
content_of_if false b o = refl

pub block-write_block :
    (p : Pages) (index within : ℕ) (bytes : Bytes) (i : ℕ)
    → block (write_block p index within bytes) i
      ≡ (if index == i then some (write_at (base p index) within bytes) else block p i)
unfolding write_block block base
block-write_block p index within bytes i =
    let old = entry_or_zeros (find index p.blocks) p.page_size (u64 (p.clock + 1)) in
    let written : Block = record old {
      content = write_at old.content within bytes;
      used = u64 (p.clock + 1);
    } in
    rw
      (
        find-put i index written p.blocks,
        content_of_if (index == i) written (find i p.blocks),
        content-entry (find index p.blocks) p.page_size (u64 (p.clock + 1)),
      )
      refl

length-choose :
    (o : Option Bytes) (size : ℕ)
    → ((bytes : Bytes) → o ≡ some bytes → length bytes ≡ size)
    → length (choose o none size) ≡ size
unfolding choose
length-choose none size sized = length-replicate size 0
length-choose (some bytes) size sized = sized bytes refl

choose_ready :
    (o s : Option Bytes) (size : ℕ)
    → (o ≡ none → Blank s size)
    → choose o none size ≡ choose o s size
unfolding choose
choose_ready (some bytes) s size ready = refl
choose_ready none s size ready = sym (ready refl)

-- A number whose quotient is that of `pos`, before and behind `n` bytes from `pos` on.
before_within :
    (pos i size : ℕ) → 0 < size → i / size ≡ pos / size → i < pos → i % size < pos % size
before_within pos i size h e lt = grind arith

behind_within :
    (pos n i size : ℕ) → 0 < size → i / size ≡ pos / size → pos + n ≤ i → pos % size + n ≤ i % size
behind_within pos n i size h e le = grind arith

module _ {stored : Stored} {p : Pages} (s : Serves stored p) (beyond : NothingBeyond stored p)
    (pos : ℕ) (chunk : Bytes) (fits : pos % p.page_size + length chunk ≤ p.page_size)
    (bound : pos + 1 < u64_mod)
    (ready : (block p (pos / p.page_size) ≡ none → Blank (stored (pos / p.page_size)) p.page_size)
      ⊎ (length chunk ≡ p.page_size)) where
  abbrev index : ℕ
  index = pos / p.page_size

  abbrev after : Pages
  after = write_block p (pos / p.page_size) (pos % p.page_size) chunk

  after-page_size : after.page_size ≡ p.page_size
  unfolding write_block
  after-page_size = refl

  length-base : length (base p index) ≡ p.page_size
  unfolding base
  length-base = length-choose (block p index) p.page_size (s.sized index)

  content_here : content stored after index ≡ write_at (base p index) (pos % p.page_size) chunk
  unfolding content choose
  content_here = rw (block-write_block p index (pos % p.page_size) chunk index, ==_refl index)

  content_elsewhere : (i : ℕ) → index ≢ i → content stored after i ≡ content stored p i
  unfolding content
  content_elsewhere i ne =
      rw (block-write_block p index (pos % p.page_size) chunk i, ==_ne index i ne)
        (ap (choose (block p i) (stored i)) after-page_size)

  -- The written bytes.
  bytes_in : (j : ℕ) → j < length chunk → byte stored after (pos + j) ≡ get_or chunk j 0
  unfolding byte
  bytes_in j lt =
      simp
        (
          after-page_size,
          div_within pos j p.page_size s.positive (omega arith),
          mod_within pos j p.page_size s.positive (omega arith),
          content_here,
        )
        (get_or-write_at_in 0 (base p index) (pos % p.page_size) chunk (pos % p.page_size + j) j
          (omega (arith, length-base)) refl lt)

  -- The rest of the block.
  outside_here :
      (i : ℕ)
      → (i % p.page_size < pos % p.page_size) ⊎ (pos % p.page_size + length chunk ≤ i % p.page_size)
      → get_or (write_at (base p index) (pos % p.page_size) chunk) (i % p.page_size) 0
        ≡ get_or (content stored p index) (i % p.page_size) 0
  unfolding content base
  outside_here i out = elim ready [
    | inl known ↦
        get_or-write_at_out 0 (base p index) (pos % p.page_size) chunk (i % p.page_size)
          (omega (arith, length-base)) out
        ∙ ap (λ b. get_or b (i % p.page_size) 0)
            (choose_ready (block p index) (stored index) p.page_size known)
    | inr whole ↦ absurd (omega (arith, mod-lt i s.positive))
  ]

  bytes_out : (i : ℕ) → (i < pos) ⊎ (pos + length chunk ≤ i) → byte stored after i ≡ byte stored p i
  unfolding byte
  bytes_out i out = elim (Bool-cases (index == i / p.page_size)) [
    | inr other ↦
        simp (
          after-page_size,
          content_elsewhere (i / p.page_size) (==→ne index (i / p.page_size) other),
        )
    | inl same ↦
        let e : i / p.page_size ≡ index = sym (==→eq index (i / p.page_size) same) in
        simp (after-page_size, e, content_here)
          (outside_here i (elim out [
            | inl lt ↦ inl (before_within pos i p.page_size s.positive e lt)
            | inr le ↦ inr (behind_within pos (length chunk) i p.page_size s.positive e le)
          ]))
  ]

  after-page_count : after.page_count ≡ (if leb p.page_count index then index + 1 else p.page_count)
  unfolding write_block
  after-page_count =
      let le : index ≤ pos = div-le_self pos p.page_size in
      ap (λ n. if leb p.page_count index then n else p.page_count)
        (u64_of_lt (index + 1) (omega arith))

  after-dirty : (i : ℕ) → elem i after.dirty ≡ (if index == i then true else elem i p.dirty)
  unfolding write_block
  after-dirty i = Sorted.elem-insert i index p.dirty

  after-block :
      (i : ℕ)
      → block after i ≡ (
          if index == i
          then some (write_at (base p index) (pos % p.page_size) chunk)
          else block p i)
  after-block i = block-write_block p index (pos % p.page_size) chunk i

  after-beyond : NothingBeyond stored after
  after-beyond i le = rw after-page_size (beyond i (ground (arith, after-page_count)))

  after-sized :
      (i : ℕ) (bytes : Bytes) → block after i ≡ some bytes → length bytes ≡ after.page_size
  after-sized i bytes h = elim (Bool-cases (index == i)) [
    | inl here ↦
        let e : write_at (base p index) (pos % p.page_size) chunk ≡ bytes = cc (
          after-block i,
          ap
              (λ t.
                if t then some (write_at (base p index) (pos % p.page_size) chunk) else block p i)
              here,
          h,
        ) in
        sym (ap length e)
        ∙ length-write_at (base p index) (pos % p.page_size) chunk (omega (arith, length-base))
        ∙ length-base
        ∙ sym after-page_size
    | inr other ↦ s.sized i bytes (sym (rw other at (after-block i)) ∙ h) ∙ sym after-page_size
  ]

  after_complete :
      p.blocks_per_fetch ≡ none
      → p.cap ≡ none
      → (i : ℕ) → i < after.page_count
      → block after i ≡ none
      → Blank (stored i) after.page_size
  after_complete f c i lt h = elim (Bool-cases (ltb i p.page_count)) [
    | inl inside ↦
        rw after-page_size
          (s.complete f c i (ltb→lt i p.page_count inside) (ground (arith, after-block i)))
    | inr past ↦ rw after-page_size (beyond i (ltb→le i p.page_count past))
  ]

  after-Serves : Serves stored after
  after-Serves = record {
    positive = omega (arith, after-page_size, s.positive);
    is_map = unfold write_block in put-IsMap index _ p.blocks s.is_map;
    sized = after-sized;
    stored_sized = λ i bytes h. s.stored_sized i bytes h ∙ sym after-page_size;
    dirty_held = λ i h. ground (arith, after-dirty i, after-block i, s.dirty_held i);
    clean = λ i bytes d h. ground (arith, after-dirty i, after-block i, s.clean i bytes);
    fetches_some = unfold write_block in s.fetches_some;
    complete =
        λ f c i lt h. after_complete (unfold write_block in f) (unfold write_block in c) i lt h;
  }

-- What one turn of `write` does to the file.
pub record Placed (stored : Stored) (p : Pages) (pos : ℕ) (chunk : Bytes) (q : Pages) : Type 0 where
  pub serves : Serves stored q
  pub beyond : NothingBeyond stored q
  pub page_size : q.page_size ≡ p.page_size
  pub bytes_in : (j : ℕ) → j < length chunk → byte stored q (pos + j) ≡ get_or chunk j 0
  pub bytes_out : (i : ℕ) → (i < pos) ⊎ (pos + length chunk ≤ i) → byte stored q i ≡ byte stored p i
  pub page_count :
      q.page_count
      ≡ (if leb p.page_count (pos / p.page_size) then pos / p.page_size + 1 else p.page_count)

pub write_block-Placed :
    {stored : Stored} {p : Pages} (pos : ℕ) (chunk : Bytes)
    → Serves stored p
    → NothingBeyond stored p
    → pos % p.page_size + length chunk ≤ p.page_size
    → pos + 1 < u64_mod
    → (block p (pos / p.page_size) ≡ none → Blank (stored (pos / p.page_size)) p.page_size)
      ⊎ (length chunk ≡ p.page_size)
    → Placed stored p pos chunk (write_block p (pos / p.page_size) (pos % p.page_size) chunk)
write_block-Placed pos chunk s beyond fits bound ready = record {
  serves = after-Serves s beyond pos chunk fits bound ready;
  beyond = after-beyond s beyond pos chunk fits bound ready;
  page_size = after-page_size s beyond pos chunk fits bound ready;
  bytes_in = bytes_in s beyond pos chunk fits bound ready;
  bytes_out = bytes_out s beyond pos chunk fits bound ready;
  page_count = after-page_count s beyond pos chunk fits bound ready;
}
