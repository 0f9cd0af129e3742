-- ===== src/Base/Sorted.antt =====
-- An ordered set of numbers (`BTreeSet<u64>`), as an ascending list.
use sqlite_remote_vfs.Base.Tests.{if◌then◌else◌, ◌==◌, ltb}
use sqlite_remote_vfs.Base.Lists.{elem, All}
use Prim.Native.Nat.{ℕ, ◌<◌}
use mathlib.Core.Path.{◌≡◌, refl}
use mathlib.Core.Bool.{Bool, true}
use mathlib.Core.List.{List, [], ◌∷◌}
use native.Mathlib.Omega.{arith}

unfoldable pub insert : ℕ → List ℕ → List ℕ
insert k [] = k ∷ []
insert k (x ∷ xs) =
    let rest = insert k xs in if k == x then x ∷ xs else (if ltb k x then k ∷ x ∷ xs else x ∷ rest)

unfoldable pub retain : (ℕ → Bool) → List ℕ → List ℕ
retain p [] = []
retain p (x ∷ xs) = let rest = retain p xs in if p x then x ∷ rest else rest

abbrev pub IsSorted : List ℕ → Type 0
IsSorted [] = Unit
IsSorted (x ∷ xs) = All (λ y. x < y) xs × IsSorted xs

pub elem-insert :
    (j k : ℕ) (xs : List ℕ) → elem j (insert k xs) ≡ (if k == j then true else elem j xs)
unfolding insert
elem-insert j k [] = refl
elem-insert j k (x ∷ xs) = ground (arith, elem-insert j k xs)
