-- ===== src/Base/Lists.antt =====
-- Lists measured and indexed by native numbers, under the library's names.
use Prim.Native.Nat.{ℕ, zero, suc, ◌+◌, ◌-◌, ◌≤◌, ◌<◌, min}
use mathlib.Core.Path.{◌≡◌, refl, sym, ap, ◌∙◌}
use mathlib.Core.Logic.{◌⊎◌}
use mathlib.Core.Bool.{Bool, true, false}
use mathlib.Core.List.{List, [], ◌∷◌, ◌++◌}
use native.Mathlib.Omega.{arith}
use sqlite_remote_vfs.Base.Tests.{if◌then◌else◌, ◌==◌}

module _ {ℓ} {A : Type ℓ} where
  abbrev pub length : List A → ℕ
  length [] = 0
  length (x ∷ xs) = suc (length xs)

  abbrev pub get_or : List A → ℕ → A → A
  get_or [] i d = d
  get_or (x ∷ xs) zero d = x
  get_or (x ∷ xs) (suc i) d = get_or xs i d

  abbrev pub take : ℕ → List A → List A
  take zero xs = []
  take (suc n) [] = []
  take (suc n) (x ∷ xs) = x ∷ take n xs

  abbrev pub drop : ℕ → List A → List A
  drop zero xs = xs
  drop (suc n) [] = []
  drop (suc n) (x ∷ xs) = drop n xs

  abbrev pub replicate : ℕ → A → List A
  replicate zero a = []
  replicate (suc n) a = a ∷ replicate n a

  -- `xs[at..at + n]`
  abbrev pub slice : List A → ℕ → ℕ → List A
  slice xs at n = take n (drop at xs)

  -- `xs[at..at + src.len()].copy_from_slice(src)`
  unfoldable pub write_at : List A → ℕ → List A → List A
  write_at xs zero src = src ++ drop (length src) xs
  write_at [] (suc at) src = []
  write_at (x ∷ xs) (suc at) src = x ∷ write_at xs at src

  pub length-append : (xs ys : List A) → length (xs ++ ys) ≡ length xs + length ys
  length-append [] ys = omega arith
  length-append (x ∷ xs) ys = omega (arith, length-append xs ys)

  pub length-take : (n : ℕ) (xs : List A) → length (take n xs) ≡ min n (length xs)
  length-take zero xs = omega arith
  length-take (suc n) [] = omega arith
  length-take (suc n) (x ∷ xs) = omega (arith, length-take n xs)

  pub length-drop : (n : ℕ) (xs : List A) → length (drop n xs) ≡ length xs - n
  length-drop zero xs = omega arith
  length-drop (suc n) [] = omega arith
  length-drop (suc n) (x ∷ xs) = omega (arith, length-drop n xs)

  pub length-replicate : (n : ℕ) (a : A) → length (replicate n a) ≡ n
  length-replicate zero a = refl
  length-replicate (suc n) a = ap suc (length-replicate n a)

  pub length-slice : (xs : List A) (at n : ℕ) → at + n ≤ length xs → length (slice xs at n) ≡ n
  length-slice xs at n h = omega (arith, length-take n (drop at xs), length-drop at xs)

  pub length-write_at :
      (xs : List A) (at : ℕ) (src : List A)
      → at + length src ≤ length xs
      → length (write_at xs at src) ≡ length xs
  unfolding write_at
  length-write_at xs zero src h =
      omega (arith, length-append src (drop (length src) xs), length-drop (length src) xs)
  length-write_at [] (suc at) src h = absurd (omega arith)
  length-write_at (x ∷ xs) (suc at) src h = omega (arith, length-write_at xs at src (omega arith))

  module _ (d : A) where
    pub get_or-replicate : (n i : ℕ) → get_or (replicate n d) i d ≡ d
    get_or-replicate zero i = refl
    get_or-replicate (suc n) zero = refl
    get_or-replicate (suc n) (suc i) = get_or-replicate n i

    pub get_or_beyond : (xs : List A) (i : ℕ) → length xs ≤ i → get_or xs i d ≡ d
    get_or_beyond [] i h = refl
    get_or_beyond (x ∷ xs) zero h = absurd (omega arith)
    get_or_beyond (x ∷ xs) (suc i) h = get_or_beyond xs i (omega arith)

    pub get_or-drop : (n : ℕ) (xs : List A) (i : ℕ) → get_or (drop n xs) i d ≡ get_or xs (n + i) d
    get_or-drop zero xs i = ap (λ k. get_or xs k d) (omega arith)
    get_or-drop (suc n) [] i = refl
    get_or-drop (suc n) (x ∷ xs) i =
        let e : suc n + i ≡ suc (n + i) = omega arith in ground (arith, get_or-drop n xs i, e)

    pub get_or-take : (n : ℕ) (xs : List A) (i : ℕ) → i < n → get_or (take n xs) i d ≡ get_or xs i d
    get_or-take zero xs i h = elim h [ ]
    get_or-take (suc n) [] i h = refl
    get_or-take (suc n) (x ∷ xs) zero h = refl
    get_or-take (suc n) (x ∷ xs) (suc i) h = get_or-take n xs i (omega arith)

    pub get_or-slice :
        (xs : List A) (at n i : ℕ) → i < n → get_or (slice xs at n) i d ≡ get_or xs (at + i) d
    get_or-slice xs at n i h = ground (arith, get_or-take n (drop at xs) i, get_or-drop at xs i)

    pub get_or-append_left :
        (xs ys : List A) (i : ℕ) → i < length xs → get_or (xs ++ ys) i d ≡ get_or xs i d
    get_or-append_left [] ys i h = elim h [ ]
    get_or-append_left (x ∷ xs) ys zero h = refl
    get_or-append_left (x ∷ xs) ys (suc i) h = get_or-append_left xs ys i (omega arith)

    pub get_or-append_right :
        (xs ys : List A) (i j : ℕ) → i ≡ length xs + j → get_or (xs ++ ys) i d ≡ get_or ys j d
    get_or-append_right [] ys i j e = let e' : i ≡ j = omega arith in ap (λ k. get_or ys k d) e'
    get_or-append_right (x ∷ xs) ys zero j e = absurd (omega arith)
    get_or-append_right (x ∷ xs) ys (suc i) j e = get_or-append_right xs ys i j (omega arith)

    -- Inside the written range the new bytes are read.
    pub get_or-write_at_in :
        (xs : List A) (at : ℕ) (src : List A) (i j : ℕ)
        → at + length src ≤ length xs
        → i ≡ at + j
        → j < length src
        → get_or (write_at xs at src) i d ≡ get_or src j d
    unfolding write_at
    get_or-write_at_in xs zero src i j h e p =
        let e' : i ≡ j = omega arith in
        get_or-append_left src (drop (length src) xs) i (omega arith) ∙ ap (λ k. get_or src k d) e'
    get_or-write_at_in [] (suc at) src i j h e p = absurd (omega arith)
    get_or-write_at_in (x ∷ xs) (suc at) src zero j h e p = absurd (omega arith)
    get_or-write_at_in (x ∷ xs) (suc at) src (suc i) j h e p =
        get_or-write_at_in xs at src i j (omega arith) (omega arith) p

    -- Outside of it nothing changes.
    pub get_or-write_at_out :
        (xs : List A) (at : ℕ) (src : List A) (i : ℕ)
        → at + length src ≤ length xs
        → (i < at) ⊎ (at + length src ≤ i)
        → get_or (write_at xs at src) i d ≡ get_or xs i d
    unfolding write_at
    get_or-write_at_out xs zero src i h out =
        let e : i ≡ length src + (i - length src) = omega arith in
        get_or-append_right src (drop (length src) xs) i (i - length src) e
        ∙ get_or-drop (length src) xs (i - length src)
        ∙ ap (λ k. get_or xs k d) (sym e)
    get_or-write_at_out [] (suc at) src i h out = refl
    get_or-write_at_out (x ∷ xs) (suc at) src zero h out = refl
    get_or-write_at_out (x ∷ xs) (suc at) src (suc i) h out =
        get_or-write_at_out xs at src i (omega arith) (omega arith)

  -- Two lists of one length that agree at each position are equal.
  pub list_ext :
      (d : A) (xs ys : List A)
      → length xs ≡ length ys
      → ((i : ℕ) → i < length xs → get_or xs i d ≡ get_or ys i d)
      → xs ≡ ys
  list_ext d [] [] e h = refl
  list_ext d [] (y ∷ ys) e h = absurd (omega arith)
  list_ext d (x ∷ xs) [] e h = absurd (omega arith)
  list_ext d (x ∷ xs) (y ∷ ys) e h =
      let tails = list_ext d xs ys (omega arith) (λ i p. h (suc i) (omega arith)) in
      ground (arith, tails, h 0 (omega arith))

  pub take_append : (xs ys : List A) → take (length xs) (xs ++ ys) ≡ xs
  take_append [] ys = refl
  take_append (x ∷ xs) ys = ap (◌∷◌ x) (take_append xs ys)

  pub drop_append : (xs ys : List A) → drop (length xs) (xs ++ ys) ≡ ys
  drop_append [] ys = refl
  drop_append (x ∷ xs) ys = drop_append xs ys

-- A predicate on every member, as a tuple.
abbrev pub All {ℓ κ} : {A : Type ℓ} → (A → Type κ) → List A → Type κ
All P [] = Unit
All P (x ∷ xs) = P x × All P xs

pub All-take {ℓ κ} :
    {A : Type ℓ} (P : A → Type κ) (n : ℕ) (xs : List A) → All P xs → All P (take n xs)
All-take P zero xs h = tt
All-take P (suc n) [] h = tt
All-take P (suc n) (x ∷ xs) h = (h.0, All-take P n xs h.1)

-- Membership of a number as a test.
abbrev pub elem : ℕ → List ℕ → Bool
elem k [] = false
elem k (x ∷ xs) = if x == k then true else elem k xs
