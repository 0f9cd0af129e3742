-- ===== src/Base/Map.antt =====
-- A hash map with numbers for keys, as an association list. Its order stands for the map's
-- unspecified order of iteration.
use sqlite_remote_vfs.Base.Tests.{if◌then◌else◌, ◌==◌, is_some, Bool-cases, ==→eq}
use sqlite_remote_vfs.Base.Lists.{length, elem}
use Prim.Native.Nat.{ℕ, ◌+◌}
use mathlib.Core.Path.{◌≡◌, refl, ap}
use mathlib.Core.Logic.{inl, inr}
use mathlib.Core.Bool.{Bool, true, false}
use mathlib.Core.List.{List, [], ◌∷◌}
use mathlib.Core.Option.{Option, none, some}
use native.Mathlib.Omega.{arith}

module _ {ℓ} {V : Type ℓ} where
  unfoldable pub find : ℕ → List (ℕ × V) → Option V
  find k [] = none
  find k ((j, v) ∷ m) = if j == k then some v else find k m

  -- `insert`
  unfoldable pub put : ℕ → V → List (ℕ × V) → List (ℕ × V)
  put k v [] = (k, v) ∷ []
  put k v ((j, w) ∷ m) = if j == k then (k, v) ∷ m else (j, w) ∷ put k v m

  -- `remove`
  unfoldable pub remove : ℕ → List (ℕ × V) → List (ℕ × V)
  remove k [] = []
  remove k ((j, v) ∷ m) = let rest = remove k m in if j == k then rest else (j, v) ∷ rest

  -- `retain`, by a test on the key
  unfoldable pub retain : (ℕ → Bool) → List (ℕ × V) → List (ℕ × V)
  retain p [] = []
  retain p ((j, v) ∷ m) = let rest = retain p m in if p j then (j, v) ∷ rest else rest

  unfoldable pub remove_all : List ℕ → List (ℕ × V) → List (ℕ × V)
  remove_all [] m = m
  remove_all (k ∷ ks) m = remove_all ks (remove k m)

  abbrev pub keys : List (ℕ × V) → List ℕ
  keys [] = []
  keys ((k, v) ∷ m) = k ∷ keys m

  -- No key stands twice.
  abbrev pub IsMap : List (ℕ × V) → Type 0
  IsMap [] = Unit
  IsMap ((k, v) ∷ m) = (elem k (keys m) ≡ false) × IsMap m

  pub find-put :
      (j k : ℕ) (v : V) (m : List (ℕ × V))
      → find j (put k v m) ≡ (if k == j then some v else find j m)
  unfolding find put
  find-put j k v [] = refl
  find-put j k v ((i, w) ∷ m) = ground (arith, find-put j k v m)

  pub find-remove :
      (j k : ℕ) (m : List (ℕ × V)) → find j (remove k m) ≡ (if k == j then none else find j m)
  unfolding find remove
  find-remove j k [] = ground arith
  find-remove j k ((i, w) ∷ m) = ground (arith, find-remove j k m)

  pub find-retain :
      (p : ℕ → Bool) (j : ℕ) (m : List (ℕ × V))
      → find j (retain p m) ≡ (if p j then find j m else none)
  unfolding find retain
  find-retain p j [] = ground arith
  find-retain p j ((i, w) ∷ m) = elim (Bool-cases (i == j)) [
    | inl same ↦ let e = ==→eq i j same in ground (arith, find-retain p j m, ap p e)
    | inr other ↦ ground (arith, find-retain p j m)
  ]

  pub find-remove_all :
      (j : ℕ) (ks : List ℕ) (m : List (ℕ × V))
      → find j (remove_all ks m) ≡ (if elem j ks then none else find j m)
  unfolding remove_all
  find-remove_all j [] m = refl
  find-remove_all j (k ∷ ks) m =
      ground (arith, find-remove_all j ks (remove k m), find-remove j k m)

  pub find_of_elem : (k : ℕ) (m : List (ℕ × V)) → elem k (keys m) ≡ is_some (find k m)
  unfolding find
  find_of_elem k [] = refl
  find_of_elem k ((j, v) ∷ m) = ground (arith, find_of_elem k m)

  elem-keys-put :
      (j k : ℕ) (v : V) (m : List (ℕ × V))
      → elem j (keys (put k v m)) ≡ (if k == j then true else elem j (keys m))
  unfolding put
  elem-keys-put j k v [] = refl
  elem-keys-put j k v ((i, w) ∷ m) = ground (arith, elem-keys-put j k v m)

  elem-keys-remove :
      (j k : ℕ) (m : List (ℕ × V)) → elem j (keys m) ≡ false → elem j (keys (remove k m)) ≡ false
  unfolding remove
  elem-keys-remove j k [] h = refl
  elem-keys-remove j k ((i, w) ∷ m) h = ground (arith, elem-keys-remove j k m)

  elem-keys-retain :
      (p : ℕ → Bool) (j : ℕ) (m : List (ℕ × V))
      → elem j (keys m) ≡ false
      → elem j (keys (retain p m)) ≡ false
  unfolding retain
  elem-keys-retain p j [] h = refl
  elem-keys-retain p j ((i, w) ∷ m) h = ground (arith, elem-keys-retain p j m)

  pub put-IsMap : (k : ℕ) (v : V) (m : List (ℕ × V)) → IsMap m → IsMap (put k v m)
  unfolding put
  put-IsMap k v [] h = (refl, tt)
  put-IsMap k v ((j, w) ∷ m) h = ground (arith, put-IsMap k v m h.1, elem-keys-put j k v m)

  pub remove-IsMap : (k : ℕ) (m : List (ℕ × V)) → IsMap m → IsMap (remove k m)
  unfolding remove
  remove-IsMap k [] h = tt
  remove-IsMap k ((j, w) ∷ m) h = ground (arith, remove-IsMap k m h.1, elem-keys-remove j k m h.0)

  pub retain-IsMap : (p : ℕ → Bool) (m : List (ℕ × V)) → IsMap m → IsMap (retain p m)
  unfolding retain
  retain-IsMap p [] h = tt
  retain-IsMap p ((j, w) ∷ m) h = ground (arith, retain-IsMap p m h.1, elem-keys-retain p j m h.0)

  pub remove_all-IsMap : (ks : List ℕ) (m : List (ℕ × V)) → IsMap m → IsMap (remove_all ks m)
  unfolding remove_all
  remove_all-IsMap [] m h = h
  remove_all-IsMap (k ∷ ks) m h = remove_all-IsMap ks (remove k m) (remove-IsMap k m h)

  remove_absent : (k : ℕ) (m : List (ℕ × V)) → elem k (keys m) ≡ false → remove k m ≡ m
  unfolding remove
  remove_absent k [] h = refl
  remove_absent k ((j, v) ∷ m) h = ground (arith, remove_absent k m)

  pub length-remove :
      (k : ℕ) (m : List (ℕ × V))
      → IsMap m
      → elem k (keys m) ≡ true
      → length (remove k m) + 1 ≡ length m
  unfolding remove
  length-remove k [] d h = cc
  length-remove k ((j, v) ∷ m) d h = elim (Bool-cases (j == k)) [
    | inl same ↦
        let e = ==→eq j k same in
        ground (arith, remove_absent k m, ap (λ t. elem t (keys m)) e, d.0)
    | inr other ↦ ground (arith, length-remove k m d.1)
  ]
