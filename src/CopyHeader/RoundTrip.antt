-- ===== src/CopyHeader/RoundTrip.antt =====
-- A header that was written is read back (crates/sqlite-remote-vfs/src/local.rs).
use sqlite_remote_vfs.Base.{
  ℕ, ◌+◌, ◌%◌, ◌≤◌, ◌<◌, ◌≡◌, refl, sym, ◌∙◌, ap, Bool, true, some, List, [], ◌∷◌, length, get_or,
  slice, replicate, length-replicate, arith, le→leb, le→ltb, ==_ne, get_or-slice, All,
}
use sqlite_remote_vfs.Base.Bytes.{Bytes, bytes_eq_refl, le_bytes, of_le}
use sqlite_remote_vfs.Pages.{max_page_size, max_page_count}
use sqlite_remote_vfs.CopyHeader.{
  Head, magic, header_bytes, u16_mod, encode_numbers, encode_texts, encode, get, text, with_texts,
  decode_numbers, decode,
}
use sqlite_remote_vfs.CopyHeader.Writes.{
  write_all, Within, Ascending, fields, length-write_all, of_le-le_bytes,
}

module _ (head : Head) (state : ℕ) where
  abbrev texts : List (ℕ × Bytes)
  texts = (36, head.subject) ∷ (36 + length head.subject, head.db_id) ∷ []

  abbrev lengths : List (ℕ × Bytes)
  lengths =
      (32, le_bytes 2 (length head.subject % u16_mod))
      ∷ (34, le_bytes 2 (length head.db_id % u16_mod))
      ∷ texts

  abbrev numbers : List (ℕ × Bytes)
  numbers =
      (12, le_bytes 4 head.page_size)
      ∷ (16, le_bytes 8 head.page_count)
      ∷ (24, le_bytes 8 head.version)
      ∷ lengths

  abbrev all : List (ℕ × Bytes)
  all = (0, magic) ∷ (8, state ∷ []) ∷ numbers

  -- The fields of a header that was written over `xs`.
  module _ (xs : Bytes) (len : length xs ≡ header_bytes)
      (room : 36 + length head.subject + length head.db_id ≤ header_bytes) where
    all-Within : Within header_bytes all
    unfolding le_bytes
    all-Within = (
      omega arith,
      (
        omega arith,
        (
          omega arith,
          (
            omega arith,
            (omega arith, (omega arith, (omega arith, (omega arith, (omega arith, tt))))),
          ),
        ),
      ),
    )

    all-Ascending : Ascending 0 all
    unfolding le_bytes
    all-Ascending = (
      omega arith,
      (
        omega arith,
        (
          omega arith,
          (
            omega arith,
            (omega arith, (omega arith, (omega arith, (omega arith, (omega arith, tt))))),
          ),
        ),
      ),
    )

    all_fields : All (λ w. slice (write_all xs all) w.0 (length w.1) ≡ w.1) all
    all_fields = fields xs all 0 all-Ascending (rw len all-Within)

    magic_field : slice (write_all xs all) 0 8 ≡ magic
    unfolding le_bytes
    magic_field = all_fields.0

    state_field : slice (write_all xs all) 8 1 ≡ state ∷ []
    unfolding le_bytes
    state_field = all_fields.1.0

    page_size_field : slice (write_all xs all) 12 4 ≡ le_bytes 4 head.page_size
    unfolding le_bytes
    page_size_field = all_fields.1.1.0

    page_count_field : slice (write_all xs all) 16 8 ≡ le_bytes 8 head.page_count
    unfolding le_bytes
    page_count_field = all_fields.1.1.1.0

    version_field : slice (write_all xs all) 24 8 ≡ le_bytes 8 head.version
    unfolding le_bytes
    version_field = all_fields.1.1.1.1.0

    subject_len_field : slice (write_all xs all) 32 2 ≡ le_bytes 2 (length head.subject % u16_mod)
    unfolding le_bytes
    subject_len_field = all_fields.1.1.1.1.1.0

    db_id_len_field : slice (write_all xs all) 34 2 ≡ le_bytes 2 (length head.db_id % u16_mod)
    unfolding le_bytes
    db_id_len_field = all_fields.1.1.1.1.1.1.0

    subject_field : slice (write_all xs all) 36 (length head.subject) ≡ head.subject
    unfolding le_bytes
    subject_field = all_fields.1.1.1.1.1.1.1.0

    db_id_field :
        slice (write_all xs all) (36 + length head.subject) (length head.db_id) ≡ head.db_id
    unfolding le_bytes
    db_id_field = all_fields.1.1.1.1.1.1.1.1.0

    length-all : length (write_all xs all) ≡ header_bytes
    length-all = length-write_all xs all (rw len all-Within) ∙ len

    state_byte : get_or (write_all xs all) 8 0 ≡ state
    state_byte =
        sym (get_or-slice 0 (write_all xs all) 8 1 0 (omega arith))
        ∙ ap (λ l. get_or l 0 0) state_field

-- The values that a header holds.
pub record IsHead (is_utf8 : Bytes → Bool) (head : Head) : Type 0 where
  pub page_size_pos : 0 < head.page_size
  pub page_size_le : head.page_size ≤ max_page_size
  pub page_count_le : head.page_count ≤ max_page_count
  pub version_lt : head.version < 18446744073709551616
  pub subject_utf8 : is_utf8 head.subject ≡ true
  pub db_id_utf8 : is_utf8 head.db_id ≡ true
  pub room : 36 + length head.subject + length head.db_id ≤ header_bytes

text-get :
    (is_utf8 : Bytes → Bool) (bytes src : Bytes) (at : ℕ)
    → slice bytes at (length src) ≡ src
    → at + length src ≤ length bytes
    → is_utf8 src ≡ true
    → text is_utf8 (get bytes at (length src)) ≡ some src
unfolding text get
text-get is_utf8 bytes src at e room valid =
    rw (le→leb (at + length src) (length bytes) room, e) (rw valid refl)

module _ (is_utf8 : Bytes → Bool) (head : Head) (state : ℕ) (h : IsHead is_utf8 head) where
  decode_numbers_lem :
      (bytes : Bytes)
      → text is_utf8 (get bytes 36 (length head.subject)) ≡ some head.subject
      → text is_utf8 (get bytes (36 + length head.subject) (length head.db_id)) ≡ some head.db_id
      → decode_numbers is_utf8 bytes state head.page_size head.page_count head.version
          (length head.subject)
          (length head.db_id)
        ≡ some (head, state)
  unfolding decode_numbers with_texts
  decode_numbers_lem bytes subject db_id =
      rw
        (
          ==_ne head.page_size 0 (omega (arith, h.page_size_pos)),
          le→ltb max_page_size head.page_size h.page_size_le,
          le→ltb max_page_count head.page_count h.page_count_le,
          subject,
          db_id,
        )
        refl

  decode_of_fields :
      (bytes : Bytes)
      → slice bytes 0 8 ≡ magic
      → get_or bytes 8 0 ≡ state
      → of_le (slice bytes 12 4) ≡ head.page_size
      → of_le (slice bytes 16 8) ≡ head.page_count
      → of_le (slice bytes 24 8) ≡ head.version
      → of_le (slice bytes 32 2) ≡ length head.subject
      → of_le (slice bytes 34 2) ≡ length head.db_id
      → text is_utf8 (get bytes 36 (length head.subject)) ≡ some head.subject
      → text is_utf8 (get bytes (36 + length head.subject) (length head.db_id)) ≡ some head.db_id
      → decode is_utf8 bytes ≡ some (head, state)
  unfolding decode
  decode_of_fields bytes m st ps pc v sl dl subject db_id =
      rw (m, bytes_eq_refl magic, st, ps, pc, v, sl, dl) (decode_numbers_lem bytes subject db_id)

  decode_written :
      (xs : Bytes)
      → length xs ≡ header_bytes
      → decode is_utf8 (write_all xs (all head state)) ≡ some (head, state)
  decode_written xs len =
      let bytes = write_all xs (all head state) in
      let room = h.room in
      let short_subject : length head.subject % u16_mod ≡ length head.subject = omega arith in
      let short_db_id : length head.db_id % u16_mod ≡ length head.db_id = omega arith in
      let total = length-all head state xs len room in
      decode_of_fields bytes (magic_field head state xs len room)
        (state_byte head state xs len room)
        (ap of_le (page_size_field head state xs len room)
          ∙ of_le-le_bytes 4 head.page_size (omega (arith, h.page_size_le)))
        (ap of_le (page_count_field head state xs len room)
          ∙ of_le-le_bytes 8 head.page_count (omega (arith, h.page_count_le)))
        (ap of_le (version_field head state xs len room)
          ∙ of_le-le_bytes 8 head.version (omega (arith, h.version_lt)))
        (ap of_le (subject_len_field head state xs len room)
          ∙ of_le-le_bytes 2 (length head.subject % u16_mod) (omega arith)
          ∙ short_subject)
        (ap of_le (db_id_len_field head state xs len room)
          ∙ of_le-le_bytes 2 (length head.db_id % u16_mod) (omega arith)
          ∙ short_db_id)
        (text-get is_utf8 bytes head.subject 36 (subject_field head state xs len room)
          (omega (arith, total)) h.subject_utf8)
        (text-get is_utf8 bytes head.db_id (36 + length head.subject)
          (db_id_field head state xs len room) (omega (arith, total)) h.db_id_utf8)

  encode_lem : encode head state ≡ some (write_all (replicate header_bytes 0) (all head state))
  unfolding encode encode_numbers encode_texts write_all
  encode_lem = rw (le→leb (36 + length head.subject + length head.db_id) header_bytes h.room) refl

  -- A head whose values SQLite produces and whose texts fit is written without a panic, and what is
  -- written is read back as this head with this state.
  pub decode-encode :
      (bytes : Bytes) × (encode head state ≡ some bytes)
      × (decode is_utf8 bytes ≡ some (head, state))
  decode-encode =
      let zeros : Bytes = replicate header_bytes 0 in
      (
        write_all zeros (all head state),
        encode_lem,
        decode_written zeros (length-replicate {A = ℕ} header_bytes 0),
      )
