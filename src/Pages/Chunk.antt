-- ===== src/Pages/Chunk.antt =====
-- The bytes of the file, and those that are copied from one block.
use sqlite_remote_vfs.Base.{
  ℕ, ◌+◌, ◌*◌, ◌/◌, ◌%◌, ◌≤◌, ◌<◌, ◌≡◌, refl, sym, ◌∙◌, ap, Option, none, some, arith, length,
  get_or, length-slice, length-replicate, get_or-slice, get_or-replicate, if◌then◌else◌, ltb,
  lt→ltb, le→ltb,
}
use sqlite_remote_vfs.Base.Bytes.{Bytes}
use sqlite_remote_vfs.Pages.{Pages, block}
use sqlite_remote_vfs.Pages.Load.{copied}
use sqlite_remote_vfs.Pages.Position.{div_within, mod_within}
use sqlite_remote_vfs.Pages.View.{Stored, Blank, content, choose, byte, Serves, Keeps}

abbrev pub size : Pages → ℕ
size p = p.page_count * p.page_size

-- The byte at a position, 0 past the end of the file.
unfoldable pub file_byte : Stored → Pages → ℕ → ℕ
file_byte stored p pos = if ltb pos (size p) then byte stored p pos else 0

pub size_same : {stored : Stored} {p q : Pages} → Keeps stored p q → size q ≡ size p
size_same k = rw (k.settings.page_count, k.settings.page_size)

pub file_byte_inside :
    (stored : Stored) (p : Pages) (pos : ℕ)
    → pos < size p
    → file_byte stored p pos ≡ byte stored p pos
unfolding file_byte
file_byte_inside stored p pos h = rw (lt→ltb pos (size p) h)

pub file_byte_past :
    (stored : Stored) (p : Pages) (pos : ℕ) → size p ≤ pos → file_byte stored p pos ≡ 0
unfolding file_byte
file_byte_past stored p pos h = rw (le→ltb pos (size p) h)

-- The bytes copied from one block are those of the block that `content` shows.
pub length-copied :
    (o : Option Bytes) (within n page_size : ℕ)
    → ((bytes : Bytes) → o ≡ some bytes → length bytes ≡ page_size)
    → within + n ≤ page_size
    → length (copied o within n) ≡ n
unfolding copied
length-copied none within n page_size sized fits = length-replicate n 0
length-copied (some bytes) within n page_size sized fits =
    length-slice bytes within n (omega (arith, sized bytes refl))

pub get_or-copied :
    (o s : Option Bytes) (within n page_size j : ℕ)
    → (o ≡ none → Blank s page_size)
    → j < n
    → get_or (copied o within n) j 0 ≡ get_or (choose o s page_size) (within + j) 0
unfolding copied choose
get_or-copied (some bytes) s within n page_size j ready lt = get_or-slice 0 bytes within n j lt
get_or-copied none s within n page_size j ready lt =
    get_or-replicate 0 n j
    ∙ sym (get_or-replicate 0 page_size (within + j))
    ∙ ap (λ bytes. get_or bytes (within + j) 0) (sym (ready refl))

-- `n` bytes of the file from a position on, within one block.
module _ {stored : Stored} {p : Pages} (s : Serves stored p) (pos n : ℕ) where
  abbrev chunk : Bytes
  chunk = copied (block p (pos / p.page_size)) (pos % p.page_size) n

  pub length-chunk : pos % p.page_size + n ≤ p.page_size → length chunk ≡ n
  length-chunk fits =
      length-copied (block p (pos / p.page_size)) (pos % p.page_size) n p.page_size
        (s.sized (pos / p.page_size)) fits

  pub get_or-chunk :
      (j : ℕ)
      → pos % p.page_size + n ≤ p.page_size
      → (block p (pos / p.page_size) ≡ none → Blank (stored (pos / p.page_size)) p.page_size)
      → j < n
      → get_or chunk j 0 ≡ byte stored p (pos + j)
  unfolding byte content
  get_or-chunk j fits ready lt =
      rw
        (
          div_within pos j p.page_size s.positive (omega arith),
          mod_within pos j p.page_size s.positive (omega arith),
        )
        (get_or-copied (block p (pos / p.page_size)) (stored (pos / p.page_size))
          (pos % p.page_size) n p.page_size j ready lt)
