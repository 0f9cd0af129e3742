-- ===== src/CopyHeader.antt =====
-- The header of a local copy in a file (crates/sqlite-remote-vfs/src/local.rs). Whether bytes are
-- UTF-8, which the standard library decides, is a parameter.
pub mod Writes
pub mod RoundTrip
use sqlite_remote_vfs.Base.{
  ℕ, ◌+◌, ◌%◌, Bool, true, false, not, ◌&&◌, ◌||◌, Option, none, some, List, [], ◌∷◌, if◌then◌else◌,
  ltb, leb, ◌==◌, length, get_or, slice, replicate, write_at,
}
use sqlite_remote_vfs.Base.Bytes.{Bytes, bytes_eq, le_bytes, of_le}
use sqlite_remote_vfs.Pages.{max_page_size, max_page_count}

pub record Head : Type 0 where
  pub subject : Bytes
  pub db_id : Bytes
  pub page_size : ℕ
  pub page_count : ℕ
  pub version : ℕ

-- "rvfslcl2"
abbrev pub magic : Bytes
magic = 114 ∷ 118 ∷ 102 ∷ 115 ∷ 108 ∷ 99 ∷ 108 ∷ 50 ∷ []

abbrev pub header_bytes : ℕ
header_bytes = 4096

-- `as u16`
abbrev pub u16_mod : ℕ
u16_mod = 65536

-- The header before the texts are written to it.
unfoldable pub encode_numbers : Head → ℕ → Bytes → Bytes
encode_numbers head state bytes0 =
    let bytes1 = write_at bytes0 0 magic in
    let bytes2 = write_at bytes1 8 (state ∷ []) in
    let bytes3 = write_at bytes2 12 (le_bytes 4 head.page_size) in
    let bytes4 = write_at bytes3 16 (le_bytes 8 head.page_count) in
    let bytes5 = write_at bytes4 24 (le_bytes 8 head.version) in
    let bytes6 = write_at bytes5 32 (le_bytes 2 (length head.subject % u16_mod)) in
    write_at bytes6 34 (le_bytes 2 (length head.db_id % u16_mod))

unfoldable pub encode_texts : Head → Bytes → Bytes
encode_texts head bytes =
    write_at (write_at bytes 36 head.subject) (36 + length head.subject) head.db_id

-- `none`: the texts do not fit the header, where slicing it panics.
unfoldable pub encode : Head → ℕ → Option Bytes
unfolding encode_numbers encode_texts
encode head state =
    if leb (36 + length head.subject + length head.db_id) header_bytes
    then some (encode_texts head (encode_numbers head state (replicate header_bytes 0)))
    else none

-- `bytes.get(at..at + n)`
unfoldable pub get : Bytes → ℕ → ℕ → Option Bytes
get bytes at n = if leb (at + n) (length bytes) then some (slice bytes at n) else none

module _ (is_utf8 : Bytes → Bool) where
  -- `String::from_utf8(..).ok()`
  unfoldable pub text : Option Bytes → Option Bytes
  text none = none
  text (some bytes) = if is_utf8 bytes then some bytes else none

  unfoldable pub with_texts : Option Bytes → Option Bytes → ℕ → ℕ → ℕ → ℕ → Option (Head × ℕ)
  with_texts none db_id page_size page_count version state = none
  with_texts (some subject) none page_size page_count version state = none
  with_texts (some subject) (some db_id) page_size page_count version state = some (
    record {
      subject = subject;
      db_id = db_id;
      page_size = page_size;
      page_count = page_count;
      version = version;
    },
    state,
  )

  unfoldable pub decode_numbers : Bytes → ℕ → ℕ → ℕ → ℕ → ℕ → ℕ → Option (Head × ℕ)
  unfolding text with_texts get
  decode_numbers bytes state page_size page_count version subject_len db_id_len =
      if (page_size == 0 || ltb max_page_size page_size) || ltb max_page_count page_count
      then none
      else with_texts (text (get bytes 36 subject_len))
          (text (get bytes (36 + subject_len) db_id_len)) page_size page_count version state

  -- A header that is read has `header_bytes` bytes.
  unfoldable pub decode : Bytes → Option (Head × ℕ)
  unfolding decode_numbers
  decode bytes =
      if not (bytes_eq (slice bytes 0 8) magic)
      then none
      else decode_numbers bytes (get_or bytes 8 0) (of_le (slice bytes 12 4))
          (of_le (slice bytes 16 8)) (of_le (slice bytes 24 8)) (of_le (slice bytes 32 2))
          (of_le (slice bytes 34 2))
