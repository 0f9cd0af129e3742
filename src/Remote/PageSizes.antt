-- ===== src/Remote/PageSizes.antt =====
-- The page sizes that `valid_page_size` accepts (crates/sqlite-remote-vfs/src/pages.rs).
use sqlite_remote_vfs.Base.{
  ℕ, zero, suc, ◌/◌, ◌%◌, ◌^◌, ◌≤◌, ◌<◌, ◌≡◌, refl, inl, inr, Bool, true, false, ◌&&◌, ◌==◌,
  Bool-cases, arith, leb→le, le→leb, ==→eq,
}
use sqlite_remote_vfs.Pages.{is_power_of_two_fuel, is_power_of_two, valid_page_size}

pub ==_eq : (a b : ℕ) → a ≡ b → (a == b) ≡ true
==_eq a b e = ground arith

power_found : (fuel n : ℕ) → is_power_of_two_fuel fuel n ≡ true → (k : ℕ) × (n ≡ 2 ^ k)
unfolding is_power_of_two_fuel
power_found zero n h = cc
power_found (suc fuel) n h = elim (Bool-cases (n == 1)) [
  | inl one ↦ (0, ==→eq n 1 one)
  | inr more ↦ elim (Bool-cases (n % 2 == 0)) [
    | inr odd ↦ cc (rw (more, odd) at h)
    | inl even ↦
        let (k, e) = power_found fuel (n / 2) (rw (more, even) at h) in
        let two = ==→eq (n % 2) 0 even in (suc k, omega arith)
  ]
]

power_pos : (k : ℕ) → 0 < 2 ^ k
power_pos zero = omega arith
power_pos (suc k) = omega (arith, power_pos k)

halved : (k n : ℕ) → n ≡ 2 ^ suc k → (n / 2 ≡ 2 ^ k) × (n % 2 ≡ 0)
halved k n e = (omega arith, omega arith)

power_passes : (fuel k n : ℕ) → n < 2 ^ fuel → n ≡ 2 ^ k → is_power_of_two_fuel fuel n ≡ true
unfolding is_power_of_two_fuel
power_passes zero k n h e = absurd (omega (arith, power_pos k))
power_passes (suc fuel) zero n h e = rw (==_eq n 1 (omega arith)) refl
power_passes (suc fuel) (suc k) n h e = elim (Bool-cases (n == 1)) [
  | inl one ↦ rw one refl
  | inr more ↦
      let (half, even) = halved k n e in
      let below : n / 2 < 2 ^ fuel = omega arith in
      rw (more, ==_eq (n % 2) 0 even) (power_passes fuel k (n / 2) below half)
]

-- A power of two within SQLite's limits
abbrev pub PageSize : ℕ → Type 0
PageSize size = (512 ≤ size) × (size ≤ 65536) × ((k : ℕ) × (size ≡ 2 ^ k))

both : (a b : Bool) → (a && b) ≡ true → (a ≡ true) × (b ≡ true)
both true b e = (refl, e)
both false b e = cc

pub PageSize-valid : (size : ℕ) → valid_page_size size ≡ true → PageSize size
unfolding valid_page_size is_power_of_two
PageSize-valid size h =
    let (range, power) = both _ _ h in
    let (low, high) = both _ _ range in (leb→le _ _ low, leb→le _ _ high, power_found 32 size power)

pub valid-PageSize : (size : ℕ) → PageSize size → valid_page_size size ≡ true
unfolding valid_page_size is_power_of_two
valid-PageSize size (low, high, (k, e)) =
    rw (le→leb 512 size low, le→leb size 65536 high) (power_passes 32 k size (omega arith) e)
