-- ===== src/Pages/Position.antt =====
-- Positions in the file, blocks and offsets within them.
use sqlite_remote_vfs.Base.{ℕ, ◌+◌, ◌*◌, ◌/◌, ◌%◌, ◌≤◌, ◌<◌, ◌≡◌, arith}

-- Inside one block the index does not change and the offset grows.
pub div_within : (pos j size : ℕ) → 0 < size → pos % size + j < size → (pos + j) / size ≡ pos / size
div_within pos j size h k = grind arith

pub mod_within :
    (pos j size : ℕ) → 0 < size → pos % size + j < size → (pos + j) % size ≡ pos % size + j
mod_within pos j size h k = grind arith

pub inside_of_index : (pos count size : ℕ) → 0 < size → pos / size < count → pos < count * size
inside_of_index pos count size h k = grind arith

pub beyond_of_index : (pos count size : ℕ) → 0 < size → count ≤ pos / size → count * size ≤ pos
beyond_of_index pos count size h k = grind arith
