-- ===== src/Pages/RoundTrip.antt =====
-- Reading back what was written.
use sqlite_remote_vfs.Base.{
  ℕ, ◌+◌, ◌-◌, ◌<◌, ◌≡◌, refl, ◌∙◌, Bool, true, some, arith, length, list_ext, Bool-cases, inl, inr,
  u64_mod, Result, ok,
}
use sqlite_remote_vfs.Base.Bytes.{Bytes}
use sqlite_remote_vfs.Failure.{Broken}
use sqlite_remote_vfs.Pages.{Pages}
use sqlite_remote_vfs.Pages.Load.{Ctx, Fill, read, write}
use sqlite_remote_vfs.Pages.Position.{inside_of_index}
use sqlite_remote_vfs.Pages.View.{Stored, Serves}
use sqlite_remote_vfs.Pages.Source.{IsSource}
use sqlite_remote_vfs.Pages.Place.{NothingBeyond}
use sqlite_remote_vfs.Pages.Chunk.{file_byte_inside, size}
use sqlite_remote_vfs.Pages.Read.{ReadResult, read-ends}
use sqlite_remote_vfs.Pages.Written.{Written}
use sqlite_remote_vfs.Pages.Write.{write-ends}

Written-inside :
    {stored : Stored} {p q : Pages} {offset done : ℕ} {bytes : Bytes} (k : ℕ)
    → Written stored p offset bytes done q
    → k < done
    → offset + k < size q
Written-inside {stored} {p} {q} {offset} k w lt =
    inside_of_index (offset + k) q.page_count q.page_size w.serves.positive
      (rw w.page_size (w.covers k lt))

same_bytes :
    {stored : Stored} {p q : Pages} {offset : ℕ} {bytes before buf : Bytes} {full : Bool}
    → Written stored p offset bytes (length bytes) q
    → length before ≡ length bytes
    → ReadResult stored q offset before buf full
    → (full ≡ true) × (buf ≡ bytes)
same_bytes {stored} {p} {q} {offset} {bytes} {before} {buf} {full} w len r = (
  elim (Bool-cases full) [
    | inl all ↦ all
    | inr partly ↦
        let (some_bytes, past) = r.short partly in
        let last = Written-inside (length bytes - 1) w (omega arith) in absurd (omega arith)
  ],
  list_ext 0 buf bytes (r.same_length ∙ len) (λ i lt.
      let lt' : i < length bytes = omega (arith, r.same_length) in
      r.bytes i (omega arith)
      ∙ file_byte_inside stored q (offset + i) (Written-inside i w lt')
      ∙ w.new i lt'),
)

module _ {W : Type 0} {stored : Stored} {fill : Fill W} (law : IsSource stored fill) where
  -- A read of the range that was just written, where no operation fails, returns the bytes written
  -- and reports no end of the file, whatever was evicted and loaded again in between; and both
  -- operations end. The store holds nothing but zeros past the end of the file.
  pub read-write :
      (c : Ctx W) (bytes before : Bytes) (offset : ℕ)
      → Serves stored c.pages
      → NothingBeyond stored c.pages
      → offset + length bytes < u64_mod
      → length before ≡ length bytes
      → (w : Result Broken (Unit {0})) × (c' : Ctx W) × (r : Result Broken Bool) × (buf : Bytes)
        × (c'' : Ctx W) × (write fill c bytes offset ≡ some (w, c'))
        × (read fill c' before offset ≡ some (r, buf, c''))
        × ((full : Bool) → w ≡ ok tt → r ≡ ok full → (full ≡ true) × (buf ≡ bytes))
  read-write c bytes before offset s beyond bound len =
      let (w, c', ends, wrote) = write-ends law c bytes offset s beyond bound in
      let (r, buf, c'', ends', has_read) =
        read-ends law c'.pages offset before c' wrote.written.serves refl (omega arith) in
      (
        w,
        c',
        r,
        buf,
        c'',
        ends,
        ends',
        λ full done done'.
            same_bytes (rw (wrote.whole done) at wrote.written) len (has_read.result full done'),
      )
