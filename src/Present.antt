-- ===== src/Present.antt =====
-- The bitmap of the blocks that a local copy in a file holds (`Present`,
-- crates/sqlite-remote-vfs/src/local.rs).
pub mod Bits
pub mod Bitmap
pub mod Resized
use sqlite_remote_vfs.Base.{
  ℕ, zero, suc, ◌+◌, ◌-◌, ◌*◌, ◌/◌, ◌%◌, min, Bool, true, false, List, [], ◌∷◌, if◌then◌else◌, ltb,
  ◌==◌, length, take, replicate, get_or, write_at,
}
use sqlite_remote_vfs.Base.Bytes.{Bytes}
use sqlite_remote_vfs.Pages.{div_ceil}

-- `byte & (1 << k) != 0`
unfoldable pub has_bit : ℕ → ℕ → Bool
has_bit zero byte = byte % 2 == 1
has_bit (suc k) byte = has_bit k (byte / 2)

-- `byte | (1 << k)`
unfoldable pub set_bit : ℕ → ℕ → ℕ
set_bit zero byte = byte / 2 * 2 + 1
set_bit (suc k) byte = set_bit k (byte / 2) * 2 + byte % 2

-- `byte & !(1 << k)`
unfoldable pub clear_bit : ℕ → ℕ → ℕ
clear_bit zero byte = byte / 2 * 2
clear_bit (suc k) byte = clear_bit k (byte / 2) * 2 + byte % 2

-- `Present::empty`; the bytes are the bitmap.
unfoldable pub empty : ℕ → Bytes
unfolding div_ceil
empty page_count = replicate (div_ceil page_count 8) 0

unfoldable pub has : Bytes → ℕ → Bool
unfolding has_bit
has bits index =
    if ltb (index / 8) (length bits) then has_bit (index % 8) (get_or bits (index / 8) 0) else false

unfoldable pub set : Bytes → ℕ → Bytes
unfolding set_bit write_at
set bits index =
    if ltb (index / 8) (length bits)
    then write_at bits (index / 8) (set_bit (index % 8) (get_or bits (index / 8) 0) ∷ [])
    else bits

unfoldable pub clear : Bytes → ℕ → Bytes
unfolding clear_bit write_at
clear bits index =
    if ltb (index / 8) (length bits)
    then write_at bits (index / 8) (clear_bit (index % 8) (get_or bits (index / 8) 0) ∷ [])
    else bits

-- The loop over `n` indexes from `index` on.
unfoldable pub clear_from : ℕ → ℕ → Bytes → Bytes
unfolding clear
clear_from zero index bits = bits
clear_from (suc n) index bits = clear_from n (index + 1) (clear bits index)

unfoldable pub resized : Bytes → ℕ → Bytes
unfolding empty clear_from write_at div_ceil
resized bits page_count =
    let next = empty page_count in
    let keep = min (length next) (length bits) in
    clear_from (div_ceil page_count 8 * 8 - page_count) page_count
      (write_at next 0 (take keep bits))
