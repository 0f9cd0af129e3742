-- ===== src/Pages/Ages.antt =====
-- The list of block ages that `make_room` sorts: `(used, index)` of each clean block.
use sqlite_remote_vfs.Base.{
  ℕ, zero, suc, ◌+◌, ◌≤◌, ◌≡◌, refl, sym, ◌∙◌, ap, ◌⊎◌, inl, inr, true, false, some, List, [], ◌∷◌,
  map, arith, length, take, drop, elem, All, Bool-cases, if◌then◌else◌, ◌==◌, ==→eq, ==→ne, ==_ne,
}
use sqlite_remote_vfs.Base.Map.{
  find, remove, remove_all, IsMap, keys, find_of_elem, find-remove, remove-IsMap, length-remove,
}
use sqlite_remote_vfs.Pages.{Block, clean_ages, age_leb, insert_age, sort_ages, index_of}

abbrev pub ids : List (ℕ × ℕ) → List ℕ
ids = map index_of

abbrev pub age : ℕ × ℕ → ℕ
age (used, index) = used

-- No number stands twice.
abbrev pub Distinct : List ℕ → Type 0
Distinct [] = Unit
Distinct (x ∷ xs) = (elem x xs ≡ false) × Distinct xs

-- Ages ascend.
abbrev pub Ascending : List (ℕ × ℕ) → Type 0
Ascending [] = Unit
Ascending (x ∷ xs) = All (λ y. age x ≤ age y) xs × Ascending xs

elem-insert_age :
    (i : ℕ) (x : ℕ × ℕ) (xs : List (ℕ × ℕ)) → elem i (ids (insert_age x xs)) ≡ elem i (ids (x ∷ xs))
unfolding insert_age
elem-insert_age i x [] = refl
elem-insert_age i x (y ∷ ys) = elim (Bool-cases (age_leb x y)) [
  | inl first ↦ rw first
  | inr later ↦ rw later (ground (arith, elem-insert_age i x ys))
]

pub elem-sort_ages : (i : ℕ) (xs : List (ℕ × ℕ)) → elem i (ids (sort_ages xs)) ≡ elem i (ids xs)
unfolding sort_ages
elem-sort_ages i [] = refl
elem-sort_ages i (x ∷ xs) = ground (arith, elem-insert_age i x (sort_ages xs), elem-sort_ages i xs)

Distinct-insert_age :
    (x : ℕ × ℕ) (xs : List (ℕ × ℕ)) → Distinct (ids (x ∷ xs)) → Distinct (ids (insert_age x xs))
unfolding insert_age
Distinct-insert_age x [] h = h
Distinct-insert_age x (y ∷ ys) h = elim (Bool-cases (age_leb x y)) [
  | inl first ↦ rw first h
  | inr later ↦ rw later (
    ground (arith, elem-insert_age (index_of y) x ys),
    Distinct-insert_age x ys (ground arith, h.1.1),
  )
]

pub Distinct-sort_ages : (xs : List (ℕ × ℕ)) → Distinct (ids xs) → Distinct (ids (sort_ages xs))
unfolding sort_ages
Distinct-sort_ages [] h = tt
Distinct-sort_ages (x ∷ xs) h =
    Distinct-insert_age x (sort_ages xs)
      (elem-sort_ages (index_of x) xs ∙ h.0, Distinct-sort_ages xs h.1)

pub elem-take :
    (i n : ℕ) (xs : List (ℕ × ℕ)) → elem i (ids xs) ≡ false → elem i (ids (take n xs)) ≡ false
elem-take i zero xs h = refl
elem-take i (suc n) [] h = refl
elem-take i (suc n) (x ∷ xs) h = ground (arith, elem-take i n xs)

pub Distinct-take : (n : ℕ) (xs : List (ℕ × ℕ)) → Distinct (ids xs) → Distinct (ids (take n xs))
Distinct-take zero xs h = tt
Distinct-take (suc n) [] h = tt
Distinct-take (suc n) (x ∷ xs) h = (elem-take (index_of x) n xs h.0, Distinct-take n xs h.1)

pub elem-clean_ages :
    (dirty : List ℕ) (i : ℕ) (m : List (ℕ × Block))
    → elem i (ids (clean_ages dirty m)) ≡ (if elem i dirty then false else elem i (keys m))
unfolding clean_ages index_of
elem-clean_ages dirty i [] = ground arith
elem-clean_ages dirty i ((index, b) ∷ m) = elim (Bool-cases (index == i)) [
  | inl same ↦
      let e = ap (λ k. elem k dirty) (==→eq index i same) in
      ground (arith, elem-clean_ages dirty i m, e)
  | inr other ↦ ground (arith, elem-clean_ages dirty i m)
]

pub Distinct-clean_ages :
    (dirty : List ℕ) (m : List (ℕ × Block)) → IsMap m → Distinct (ids (clean_ages dirty m))
unfolding clean_ages index_of
Distinct-clean_ages dirty [] h = tt
Distinct-clean_ages dirty ((index, b) ∷ m) h = elim (Bool-cases (elem index dirty)) [
  | inl d ↦ rw d (Distinct-clean_ages dirty m h.1)
  | inr c ↦ rw c (elem-clean_ages dirty index m ∙ rw c h.0, Distinct-clean_ages dirty m h.1)
]

-- A predicate on the aged blocks survives sorting.
module _ (P : ℕ × ℕ → Type 0) where
  pub All-insert_age : (x : ℕ × ℕ) (xs : List (ℕ × ℕ)) → P x → All P xs → All P (insert_age x xs)
  unfolding insert_age
  All-insert_age x [] h hs = (h, tt)
  All-insert_age x (y ∷ ys) h hs = elim (Bool-cases (age_leb x y)) [
    | inl first ↦ rw first (h, hs)
    | inr later ↦ rw later (hs.0, All-insert_age x ys h hs.1)
  ]

  pub All-sort_ages : (xs : List (ℕ × ℕ)) → All P xs → All P (sort_ages xs)
  unfolding sort_ages
  All-sort_ages [] h = tt
  All-sort_ages (x ∷ xs) h = All-insert_age x (sort_ages xs) h.0 (All-sort_ages xs h.1)

length-insert_age : (x : ℕ × ℕ) (xs : List (ℕ × ℕ)) → length (insert_age x xs) ≡ suc (length xs)
unfolding insert_age
length-insert_age x [] = refl
length-insert_age x (y ∷ ys) = ground (arith, length-insert_age x ys)

pub length-sort_ages : (xs : List (ℕ × ℕ)) → length (sort_ages xs) ≡ length xs
unfolding sort_ages
length-sort_ages [] = refl
length-sort_ages (x ∷ xs) = omega (arith, length-insert_age x (sort_ages xs), length-sort_ages xs)

age_leb→le : (x y : ℕ × ℕ) → age_leb x y ≡ true → age x ≤ age y
unfolding age_leb
age_leb→le (a, i) (b, j) h = ground arith

age_leb→ge : (x y : ℕ × ℕ) → age_leb x y ≡ false → age y ≤ age x
unfolding age_leb
age_leb→ge (a, i) (b, j) h = ground arith

All-le : (a b : ℕ) (xs : List (ℕ × ℕ)) → a ≤ b → All (λ y. b ≤ age y) xs → All (λ y. a ≤ age y) xs
All-le a b [] h hs = tt
All-le a b (x ∷ xs) h hs = (omega (arith, hs.0), All-le a b xs h hs.1)

insert_age-Ascending : (x : ℕ × ℕ) (xs : List (ℕ × ℕ)) → Ascending xs → Ascending (insert_age x xs)
unfolding insert_age
insert_age-Ascending x [] h = (tt, tt)
insert_age-Ascending x (y ∷ ys) h = elim (Bool-cases (age_leb x y)) [
  | inl first ↦
      let le = age_leb→le x y first in rw first ((le, All-le (age x) (age y) ys le h.0), h)
  | inr later ↦ rw later (
    All-insert_age (λ z. age y ≤ age z) x ys (age_leb→ge x y later) h.0,
    insert_age-Ascending x ys h.1,
  )
]

-- The sort sorts by age.
pub sort_ages-Ascending : (xs : List (ℕ × ℕ)) → Ascending (sort_ages xs)
unfolding sort_ages
sort_ages-Ascending [] = tt
sort_ages-Ascending (x ∷ xs) = insert_age-Ascending x (sort_ages xs) (sort_ages-Ascending xs)

-- What is not among the first `n` is among the rest.
pub elem-take-drop :
    (i n : ℕ) (xs : List (ℕ × ℕ))
    → elem i (ids xs) ≡ true
    → (elem i (ids (take n xs)) ≡ true) ⊎ (elem i (ids (drop n xs)) ≡ true)
elem-take-drop i zero xs h = inr h
elem-take-drop i (suc n) [] h = cc
elem-take-drop i (suc n) (x ∷ xs) h = elim (Bool-cases (index_of x == i)) [
  | inl here ↦ inl (rw here)
  | inr there ↦ elim (elem-take-drop i n xs (rw there at h)) [
    | inl front ↦ inl (rw there front)
    | inr back ↦ inr back
  ]
]

-- Every entry of index `i` has age `a`.
abbrev pub HasAge : ℕ → ℕ → List (ℕ × ℕ) → Type 0
HasAge i a = All (λ e. index_of e ≡ i → age e ≡ a)

age_of_rest :
    (a j b n : ℕ) (xs : List (ℕ × ℕ))
    → All (λ y. a ≤ age y) xs
    → HasAge j b xs
    → elem j (ids (drop n xs)) ≡ true
    → a ≤ b
age_of_rest a j b zero [] le has h = cc
age_of_rest a j b (suc n) [] le has h = cc
age_of_rest a j b zero (x ∷ xs) le has h = elim (Bool-cases (index_of x == j)) [
  | inl here ↦ omega (arith, le.0, has.0 (==→eq (index_of x) j here))
  | inr there ↦ age_of_rest a j b zero xs le.1 has.1 (rw there at h)
]
age_of_rest a j b (suc n) (x ∷ xs) le has h = age_of_rest a j b n xs le.1 has.1 h

-- In an ascending list the first `n` are at most as old as the rest.
pub front-le-back :
    (n i a j b : ℕ) (xs : List (ℕ × ℕ))
    → Ascending xs
    → HasAge i a xs
    → HasAge j b xs
    → elem i (ids (take n xs)) ≡ true
    → elem j (ids (drop n xs)) ≡ true
    → a ≤ b
front-le-back zero i a j b xs asc hi hj front back = cc
front-le-back (suc n) i a j b [] asc hi hj front back = cc
front-le-back (suc n) i a j b (x ∷ xs) asc hi hj front back = elim (Bool-cases (index_of x == i)) [
  | inl here ↦
      rw (← hi.0 (==→eq (index_of x) i here)) (age_of_rest (age x) j b n xs asc.0 hj.1 back)
  | inr there ↦ front-le-back n i a j b xs asc.1 hi.1 hj.1 (rw there at front) back
]

HasAge-absent :
    (dirty : List ℕ) (i a : ℕ) (m : List (ℕ × Block))
    → elem i (keys m) ≡ false
    → HasAge i a (clean_ages dirty m)
unfolding clean_ages index_of
HasAge-absent dirty i a [] h = tt
HasAge-absent dirty i a ((index, c) ∷ m) h =
    let rest = HasAge-absent dirty i a m (ground arith) in
    elim (Bool-cases (elem index dirty)) [
      | inl d ↦ rw d rest
      | inr clean ↦ rw clean ((λ e. absurd (ground arith)), rest)
    ]

pub HasAge-clean_ages :
    (dirty : List ℕ) (i : ℕ) (b : Block) (m : List (ℕ × Block))
    → IsMap m
    → find i m ≡ some b
    → HasAge i b.used (clean_ages dirty m)
unfolding clean_ages index_of find
HasAge-clean_ages dirty i b [] d h = tt
HasAge-clean_ages dirty i b ((index, c) ∷ m) d h = elim (Bool-cases (index == i)) [
  | inl same ↦
      let gone : elem i (keys m) ≡ false =
        ap (λ k. elem k (keys m)) (sym (==→eq index i same)) ∙ d.0 in
      let rest = HasAge-absent dirty i b.used m gone in
      let e : c.used ≡ b.used = ground arith in
      elim (Bool-cases (elem index dirty)) [
        | inl is_dirty ↦ rw is_dirty rest
        | inr clean ↦ rw clean ((λ _. e), rest)
      ]
  | inr other ↦
      let rest = HasAge-clean_ages dirty i b m d.1 (ground arith) in
      elim (Bool-cases (elem index dirty)) [
        | inl is_dirty ↦ rw is_dirty rest
        | inr clean ↦ rw clean ((λ e. absurd (==→ne index i other e)), rest)
      ]
]

elem-keys-remove {ℓ} :
    {V : Type ℓ} (j k : ℕ) (m : List (ℕ × V))
    → elem j (keys (remove k m)) ≡ (if k == j then false else elem j (keys m))
elem-keys-remove j k m = elim (Bool-cases (k == j)) [
  | inl same ↦ rw (find_of_elem j (remove k m), find-remove j k m, same) refl
  | inr other ↦ rw (find_of_elem j (remove k m), find-remove j k m, other) (sym (find_of_elem j m))
]

keys-survive {ℓ} :
    {V : Type ℓ} (k : ℕ) (ks : List ℕ) (m : List (ℕ × V))
    → elem k ks ≡ false
    → All (λ j. elem j (keys m) ≡ true) ks
    → All (λ j. elem j (keys (remove k m)) ≡ true) ks
keys-survive k [] m h all = tt
keys-survive k (j ∷ ks) m h all = elim (Bool-cases (j == k)) [
  | inl same ↦ cc (h, ap (λ b. if b then true else elem k ks) same)
  | inr other ↦ (
    elem-keys-remove j k m ∙ rw (==_ne k j (λ e. ==→ne j k other (sym e))) all.0,
    keys-survive k ks m (rw other at h) all.1,
  )
]

-- Removing distinct keys of the map takes one entry for each.
pub length-remove_all {ℓ} :
    {V : Type ℓ} (ks : List ℕ) (m : List (ℕ × V))
    → IsMap m
    → Distinct ks
    → All (λ k. elem k (keys m) ≡ true) ks
    → length (remove_all ks m) + length ks ≡ length m
unfolding remove_all
length-remove_all [] m d distinct h = omega arith
length-remove_all (k ∷ ks) m d distinct h = omega (
  arith,
  length-remove k m d h.0,
  length-remove_all ks (remove k m) (remove-IsMap k m d) distinct.1
      (keys-survive k ks m distinct.0 h.1),
)
