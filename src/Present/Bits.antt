-- ===== src/Present/Bits.antt =====
-- The bits of a byte.
use sqlite_remote_vfs.Base.{
  ℕ, zero, suc, ◌+◌, ◌*◌, ◌/◌, ◌%◌, ◌≡◌, ◌∙◌, ap, true, false, ◌==◌, if◌then◌else◌, arith, inl, inr,
  sym, ==_refl, ==_ne, ==→eq, ==→ne, if_false, Bool-cases,
}
use sqlite_remote_vfs.Present.{has_bit, set_bit, clear_bit}

half : (x byte : ℕ) → (x * 2 + byte % 2) / 2 ≡ x
half x byte = omega arith

==_suc : (k j : ℕ) → (k == j) ≡ (suc k == suc j)
==_suc k j = elim (Bool-cases (k == j)) [
  | inl e ↦ e ∙ (sym (==_refl (suc k)) ∙ ap (λ t. suc k == suc t) (==→eq k j e))
  | inr e ↦ let n = ==→ne k j e in e ∙ sym (==_ne (suc k) (suc j) (omega arith))
]

pub has_bit-set_bit :
    (k j byte : ℕ) → has_bit j (set_bit k byte) ≡ (if k == j then true else has_bit j byte)
unfolding has_bit set_bit
has_bit-set_bit zero zero byte = ground arith
has_bit-set_bit zero (suc j) byte =
    ap (has_bit j) (omega arith)
    ∙ sym (if_false (0 == suc j) true (has_bit j (byte / 2)) (==_ne 0 (suc j) (omega arith)))
has_bit-set_bit (suc k) zero byte = ground (arith, ==_ne (suc k) 0)
has_bit-set_bit (suc k) (suc j) byte =
    ap (has_bit j) (half (set_bit k (byte / 2)) byte)
    ∙ (has_bit-set_bit k j (byte / 2)
        ∙ ap (λ t. if t then true else has_bit j (byte / 2)) (==_suc k j))

pub has_bit-clear_bit :
    (k j byte : ℕ) → has_bit j (clear_bit k byte) ≡ (if k == j then false else has_bit j byte)
unfolding has_bit clear_bit
has_bit-clear_bit zero zero byte = ground arith
has_bit-clear_bit zero (suc j) byte =
    ap (has_bit j) (omega arith)
    ∙ sym (if_false (0 == suc j) false (has_bit j (byte / 2)) (==_ne 0 (suc j) (omega arith)))
has_bit-clear_bit (suc k) zero byte = ground arith
has_bit-clear_bit (suc k) (suc j) byte =
    ap (has_bit j) (half (clear_bit k (byte / 2)) byte)
    ∙ (has_bit-clear_bit k j (byte / 2)
        ∙ ap (λ t. if t then false else has_bit j (byte / 2)) (==_suc k j))
