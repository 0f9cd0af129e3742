-- ===== src/Present/Resized.antt =====
-- `Present::resized`: the bitmap for another number of blocks.
use sqlite_remote_vfs.Base.{
  ℕ, zero, suc, ◌+◌, ◌-◌, ◌*◌, ◌/◌, ◌%◌, ◌<◌, ◌≤◌, min, ◌≡◌, ◌≢◌, refl, sym, ◌∙◌, ap, false, ◌==◌,
  if◌then◌else◌, arith, length, take, get_or, write_at, ltb, ltb→lt, ltb→le, le→ltb, ==_refl, ==_ne,
  ==→eq, ==→ne, if_true, if_false, Bool-cases, inl, inr, length-write_at, get_or-write_at_in,
  get_or-write_at_out, get_or_beyond, get_or-replicate, get_or-take, length-take, length-replicate,
}
use sqlite_remote_vfs.Base.Bytes.{Bytes}
use sqlite_remote_vfs.Pages.{div_ceil}
use sqlite_remote_vfs.Present.{has_bit, empty, has, clear, clear_from, resized}
use sqlite_remote_vfs.Present.Bitmap.{has_reads, has-clear}

clear_same : (bits : Bytes) (i : ℕ) → has (clear bits i) i ≡ false
clear_same bits i = has-clear bits i i ∙ if_true (i == i) _ _ (==_refl i)

clear_other : (bits : Bytes) (i j : ℕ) → i ≢ j → has (clear bits i) j ≡ has bits j
clear_other bits i j n = has-clear bits i j ∙ if_false (i == j) _ _ (==_ne i j n)

clear_stays : (bits : Bytes) (i j : ℕ) → has bits j ≡ false → has (clear bits i) j ≡ false
clear_stays bits i j h = elim (Bool-cases (i == j)) [
  | inl e ↦ has-clear bits i j ∙ if_true (i == j) _ _ e
  | inr e ↦ has-clear bits i j ∙ (if_false (i == j) _ _ e ∙ h)
]

-- The loop leaves the indexes below its start.
below : (n index j : ℕ) (bits : Bytes) → j < index → has (clear_from n index bits) j ≡ has bits j
unfolding clear_from
below zero index j bits h = refl
below (suc n) index j bits h =
    below n (index + 1) j (clear bits index) (omega arith) ∙ clear_other bits index j (omega arith)

stays :
    (n index j : ℕ) (bits : Bytes) → has bits j ≡ false → has (clear_from n index bits) j ≡ false
unfolding clear_from
stays zero index j bits h = h
stays (suc n) index j bits h = stays n (index + 1) j (clear bits index) (clear_stays bits index j h)

within :
    (n index j : ℕ) (bits : Bytes)
    → index ≤ j
    → j < index + n
    → has (clear_from n index bits) j ≡ false
unfolding clear_from
within zero index j bits low high = absurd (omega arith)
within (suc n) index j bits low high = elim (Bool-cases (index == j)) [
  | inl e ↦
      stays n (index + 1) j (clear bits index)
        (ap (λ k. has (clear bits k) j) (==→eq index j e) ∙ clear_same bits j)
  | inr e ↦
      let n' = ==→ne index j e in
      within n (index + 1) j (clear bits index) (omega arith) (omega arith)
]

rounded : (n : ℕ) → (n ≤ div_ceil n 8 * 8) × (div_ceil n 8 * 8 < n + 8)
unfolding div_ceil
rounded n = (ground arith, ground arith)

module _ (bits : Bytes) (n : ℕ) where
  kept_length : ℕ
  kept_length = min (length (empty n)) (length bits)

  base : Bytes
  base = write_at (empty n) 0 (take kept_length bits)

  length-empty : length (empty n) ≡ div_ceil n 8
  unfolding empty
  length-empty = length-replicate (div_ceil n 8) 0

  get_or-empty : (i : ℕ) → get_or (empty n) i 0 ≡ 0
  unfolding empty
  get_or-empty i = get_or-replicate 0 (div_ceil n 8) i

  fits : 0 + length (take kept_length bits) ≤ length (empty n)
  unfolding kept_length
  fits = omega (arith, length-take kept_length bits)

  copied : (i : ℕ) → i < div_ceil n 8 → get_or base i 0 ≡ get_or bits i 0
  unfolding kept_length base
  copied i h = elim (Bool-cases (ltb i kept_length)) [
    | inl e ↦
        let lt = ltb→lt _ _ e in
        get_or-write_at_in 0 (empty n) 0 (take kept_length bits) i i fits (omega arith)
          (omega (arith, length-take kept_length bits))
        ∙ get_or-take 0 kept_length bits i lt
    | inr e ↦
        let le = ltb→le _ _ e in
        get_or-write_at_out 0 (empty n) 0 (take kept_length bits) i fits
          (inr (omega (arith, length-take kept_length bits)))
        ∙ (get_or-empty i ∙ sym (get_or_beyond 0 bits i (omega (arith, length-empty))))
  ]

  base_beyond : (j : ℕ) → div_ceil n 8 ≤ j / 8 → has base j ≡ false
  unfolding base has
  base_beyond j h = if_false (ltb (j / 8) (length base)) _ _ (
      le→ltb _ _
        (omega (arith, length-empty, length-write_at (empty n) 0 (take kept_length bits) fits)))

  past_the_end : (j : ℕ) → n ≤ j → has (clear_from (div_ceil n 8 * 8 - n) n base) j ≡ false
  past_the_end j h = elim (Bool-cases (ltb (j / 8) (div_ceil n 8))) [
    | inl e ↦
        let lt = ltb→lt _ _ e in
        let low = (rounded n).0 in within (div_ceil n 8 * 8 - n) n j base h (omega arith)
    | inr e ↦ stays (div_ceil n 8 * 8 - n) n j base (base_beyond j (ltb→le _ _ e))
  ]

  -- In a bitmap resized to n blocks, whatever its length was, the blocks below n are present as
  -- before, and no block from n on is present.
  pub has-resized : (j : ℕ) → has (resized bits n) j ≡ (if ltb j n then has bits j else false)
  unfolding resized base kept_length
  has-resized j = elim (Bool-cases (ltb j n)) [
    | inl e ↦
        let lt = ltb→lt _ _ e in
        let high = (rounded n).0 in
        below (div_ceil n 8 * 8 - n) n j base lt
        ∙ (has_reads base j
            ∙ (ap (has_bit (j % 8)) (copied (j / 8) (omega arith))
                ∙ (sym (has_reads bits j) ∙ sym (if_true (ltb j n) _ _ e))))
    | inr e ↦ past_the_end j (ltb→le _ _ e) ∙ sym (if_false (ltb j n) _ _ e)
  ]
