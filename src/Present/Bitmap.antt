-- ===== src/Present/Bitmap.antt =====
-- The bits of the bitmap of present blocks: `set`, `clear` and `resized`.
use sqlite_remote_vfs.Base.{
  ℕ, zero, suc, ◌/◌, ◌%◌, ◌<◌, ◌≤◌, ◌≡◌, ◌≢◌, refl, sym, ◌∙◌, ap, Bool, true, false, ◌==◌,
  if◌then◌else◌, arith, [], ◌∷◌, length, get_or, write_at, ltb, ltb→lt, ltb→le, lt→ltb, le→ltb,
  ==_refl, ==_ne, ==→eq, ==→ne, if_true, if_false, Bool-cases, inl, inr, get_or-write_at_in,
  get_or-write_at_out, get_or_beyond,
}
use sqlite_remote_vfs.Base.Bytes.{Bytes}
use sqlite_remote_vfs.Present.{has_bit, set_bit, clear_bit, has, set, clear}
use sqlite_remote_vfs.Present.Bits.{has_bit-set_bit, has_bit-clear_bit}

has_bit_zero : (k : ℕ) → has_bit k 0 ≡ false
unfolding has_bit
has_bit_zero zero = refl
has_bit_zero (suc k) = has_bit_zero k

-- The test of a block reads its byte, a byte past the end as 0.
pub has_reads : (bits : Bytes) (j : ℕ) → has bits j ≡ has_bit (j % 8) (get_or bits (j / 8) 0)
unfolding has
has_reads bits j = elim (Bool-cases (ltb (j / 8) (length bits))) [
  | inl e ↦ if_true (ltb (j / 8) (length bits)) _ _ e
  | inr e ↦
      if_false (ltb (j / 8) (length bits)) _ _ e
      ∙ (sym (has_bit_zero (j % 8))
          ∙ ap (has_bit (j % 8)) (sym (get_or_beyond 0 bits (j / 8) (ltb→le _ _ e))))
]

-- A byte that differs in one bit is written over the byte of a block.
module _ (bits : Bytes) (i byte : ℕ) (v : Bool) (inside : i / 8 < length bits)
    (bit : (k : ℕ)
      → has_bit k byte ≡ (if i % 8 == k then v else has_bit k (get_or bits (i / 8) 0))) where
  written_same : (j : ℕ) → i ≡ j → has (write_at bits (i / 8) (byte ∷ [])) j ≡ v
  written_same j e =
      has_reads (write_at bits (i / 8) (byte ∷ [])) j
      ∙ (ap (has_bit (j % 8)) (
            get_or-write_at_in 0 bits (i / 8) (byte ∷ []) (j / 8) 0 (omega arith) (omega arith)
              (omega arith))
          ∙ (bit (j % 8)
              ∙ if_true (i % 8 == j % 8) _ _ (ap (λ k. i % 8 == k % 8) (sym e) ∙ ==_refl (i % 8))))

  other_byte :
      (j : ℕ)
      → i / 8 ≢ j / 8
      → get_or (write_at bits (i / 8) (byte ∷ [])) (j / 8) 0 ≡ get_or bits (j / 8) 0
  other_byte j n =
      get_or-write_at_out 0 bits (i / 8) (byte ∷ []) (j / 8) (omega arith)
        (elim (Bool-cases (ltb (j / 8) (i / 8))) [
          | inl e ↦ inl (ltb→lt _ _ e)
          | inr e ↦ let le = ltb→le _ _ e in inr (omega arith)
        ])

  same_byte :
      (j : ℕ)
      → i ≢ j
      → i / 8 ≡ j / 8
      → has_bit (j % 8) (get_or (write_at bits (i / 8) (byte ∷ [])) (j / 8) 0)
        ≡ has_bit (j % 8) (get_or bits (j / 8) 0)
  same_byte j n e =
      ap (has_bit (j % 8)) (
        get_or-write_at_in 0 bits (i / 8) (byte ∷ []) (j / 8) 0 (omega arith) (omega arith)
          (omega arith))
      ∙ (bit (j % 8)
          ∙ (if_false (i % 8 == j % 8) _ _ (==_ne (i % 8) (j % 8) (omega arith))
              ∙ ap (λ k. has_bit (j % 8) (get_or bits k 0)) e))

  written_other : (j : ℕ) → i ≢ j → has (write_at bits (i / 8) (byte ∷ [])) j ≡ has bits j
  written_other j n =
      has_reads (write_at bits (i / 8) (byte ∷ [])) j
      ∙ (elim (Bool-cases (i / 8 == j / 8)) [
        | inl e ↦ same_byte j n (==→eq _ _ e)
        | inr e ↦ ap (has_bit (j % 8)) (other_byte j (==→ne _ _ e))
      ]
          ∙ sym (has_reads bits j))

  has_written :
      (j : ℕ) → has (write_at bits (i / 8) (byte ∷ [])) j ≡ (if i == j then v else has bits j)
  has_written j = elim (Bool-cases (i == j)) [
    | inl e ↦ written_same j (==→eq i j e) ∙ sym (if_true (i == j) v (has bits j) e)
    | inr e ↦ written_other j (==→ne i j e) ∙ sym (if_false (i == j) v (has bits j) e)
  ]

-- Setting a block of the bitmap makes exactly that block present: every other block is present
-- as before. The condition is that the bitmap has a byte for the block.
pub has-set :
    (bits : Bytes) (i j : ℕ)
    → i / 8 < length bits
    → has (set bits i) j ≡ (if i == j then true else has bits j)
unfolding set
has-set bits i j inside =
    ap (λ b. has b j) (if_true (ltb (i / 8) (length bits)) _ _ (lt→ltb _ _ inside))
    ∙ has_written bits i (set_bit (i % 8) (get_or bits (i / 8) 0)) true inside
        (λ k. has_bit-set_bit (i % 8) k (get_or bits (i / 8) 0)) j

clear_inside :
    (bits : Bytes) (i j : ℕ)
    → i / 8 < length bits
    → has (clear bits i) j ≡ (if i == j then false else has bits j)
unfolding clear
clear_inside bits i j inside =
    ap (λ b. has b j) (if_true (ltb (i / 8) (length bits)) _ _ (lt→ltb _ _ inside))
    ∙ has_written bits i (clear_bit (i % 8) (get_or bits (i / 8) 0)) false inside
        (λ k. has_bit-clear_bit (i % 8) k (get_or bits (i / 8) 0)) j

has_beyond : (bits : Bytes) (j : ℕ) → length bits ≤ j / 8 → has bits j ≡ false
unfolding has
has_beyond bits j h = if_false (ltb (j / 8) (length bits)) _ _ (le→ltb _ _ h)

pub has-clear :
    (bits : Bytes) (i j : ℕ) → has (clear bits i) j ≡ (if i == j then false else has bits j)
unfolding clear
has-clear bits i j = elim (Bool-cases (ltb (i / 8) (length bits))) [
  | inl e ↦ clear_inside bits i j (ltb→lt _ _ e)
  | inr e ↦
      ap (λ b. has b j) (if_false (ltb (i / 8) (length bits)) _ _ e) ∙ elim (Bool-cases (i == j)) [
        | inl same ↦
            has_beyond bits j
              (ltb→le _ _ (ap (λ k. ltb (k / 8) (length bits)) (sym (==→eq i j same)) ∙ e))
            ∙ sym (if_true (i == j) _ _ same)
        | inr other ↦ sym (if_false (i == j) _ _ other)
      ]
]
