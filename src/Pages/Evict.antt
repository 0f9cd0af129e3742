-- ===== src/Pages/Evict.antt =====
-- What `make_room` evicts.
use sqlite_remote_vfs.Base.{
  ℕ, ◌+◌, ◌-◌, ◌/◌, min, max, ◌≡◌, refl, sym, ◌∙◌, ap, ◌⊎◌, inl, inr, ◌≢◌, Bool, true, false,
  Option, none, some, List, [], ◌∷◌, map, arith, length, take, elem, All, All-take, Bool-cases,
  if◌then◌else◌, leb, ◌==◌, u64, ==→eq,
}
use sqlite_remote_vfs.Base.Map.{find, remove_all, find-remove_all, remove_all-IsMap}
use sqlite_remote_vfs.Stats.{Stats}
use sqlite_remote_vfs.Pages.{
  Pages, Block, block, content_of, clean_ages, sort_ages, index_of, evict, evict_under, make_room,
}
use sqlite_remote_vfs.Pages.Ages.{All-sort_ages}
use sqlite_remote_vfs.Pages.View.{Stored, Serves, Moved, SameSettings-blocks, Moved-refl}

abbrev IsClean : List ℕ → ℕ × ℕ → Type 0
IsClean dirty e = elem (index_of e) dirty ≡ false

clean_ages-IsClean :
    (dirty : List ℕ) (m : List (ℕ × Block)) → All (IsClean dirty) (clean_ages dirty m)
unfolding clean_ages index_of
clean_ages-IsClean dirty [] = tt
clean_ages-IsClean dirty ((index, b) ∷ m) = elim (Bool-cases (elem index dirty)) [
  | inl d ↦ rw d (clean_ages-IsClean dirty m)
  | inr c ↦ rw c (c, clean_ages-IsClean dirty m)
]

-- The indexes that an eviction of `count` blocks removes.
abbrev pub victims : Pages → ℕ → List ℕ
victims p count = map index_of (take count (sort_ages (clean_ages p.dirty p.blocks)))

elem-map-clean :
    (dirty : List ℕ) (xs : List (ℕ × ℕ)) (i : ℕ)
    → All (IsClean dirty) xs
    → elem i (map index_of xs) ≡ true
    → elem i dirty ≡ false
elem-map-clean dirty [] i h e = cc
elem-map-clean dirty (x ∷ xs) i h e = elim (Bool-cases (index_of x == i)) [
  | inl same ↦ ap (λ k. elem k dirty) (sym (==→eq (index_of x) i same)) ∙ h.0
  | inr other ↦ elem-map-clean dirty xs i h.1 (ground arith)
]

pub victims-clean :
    (p : Pages) (count i : ℕ) → elem i (victims p count) ≡ true → elem i p.dirty ≡ false
victims-clean p count i =
    elem-map-clean p.dirty (take count (sort_ages (clean_ages p.dirty p.blocks))) i (
      All-take (IsClean p.dirty) count (sort_ages (clean_ages p.dirty p.blocks)) (
        All-sort_ages (IsClean p.dirty) (clean_ages p.dirty p.blocks)
          (clean_ages-IsClean p.dirty p.blocks)))

content_of_if :
    (b : Bool) (o : Option Block)
    → content_of (if b then none else o) ≡ (if b then none else content_of o)
unfolding content_of
content_of_if true o = refl
content_of_if false o = refl

unfoldable pub without : Pages → ℕ → Pages
without p count = record p { blocks = remove_all (victims p count) p.blocks }

pub without-dirty : (p : Pages) (count : ℕ) → (without p count).dirty ≡ p.dirty
unfolding without
without-dirty p count = refl

pub block-without :
    (p : Pages) (count i : ℕ)
    → block (without p count) i ≡ (if elem i (victims p count) then none else block p i)
unfolding block without
block-without p count i =
    rw (find-remove_all i (victims p count) p.blocks)
      (content_of_if (elem i (victims p count)) (find i p.blocks))

Moved-without :
    (stored : Stored) (p : Pages) (count : ℕ)
    → p.cap ≢ none
    → Serves stored p
    → Moved stored p (without p count)
Moved-without stored p count limited s = record {
  settings =
      unfold without in SameSettings-blocks p (remove_all (victims p count) p.blocks) p.clock;
  is_map = unfold without in remove_all-IsMap (victims p count) p.blocks s.is_map;
  blocks = λ i. elim (Bool-cases (elem i (victims p count))) [
    | inl gone ↦
        inr (inr (rw (block-without p count i, gone), victims-clean p count i gone, limited))
    | inr stays ↦ inl (rw (block-without p count i, stays))
  ];
}

-- The three ways out of `evict`: nothing to do, nothing that may go, or `count` blocks less.
evict-cases :
    (p : Pages) (cap incoming : ℕ) (stats : Stats)
    → ((evict p cap incoming stats).0 ≡ p)
      ⊎ ((count : ℕ) × ((evict p cap incoming stats).0 ≡ without p count))
unfolding evict without
evict-cases p cap incoming stats = elim (Bool-cases (leb (u64 (length p.blocks + incoming)) cap)) [
  | inl fits ↦ inl (rw fits)
  | inr tight ↦
      let ages = clean_ages p.dirty p.blocks in
      let count = min (length p.blocks - ((cap - cap / 8) - incoming)) (length ages) in
      elim (Bool-cases (count == 0)) [
        | inl nothing ↦ inl (rw (tight, nothing))
        | inr some_go ↦ inr (count, rw (tight, some_go))
      ]
]

evict_under-cases :
    (limit : Option ℕ) (p : Pages) (incoming : ℕ) (stats : Stats)
    → ((evict_under limit p incoming stats).0 ≡ p)
      ⊎ ((count : ℕ) × ((evict_under limit p incoming stats).0 ≡ without p count) × (limit ≢ none))
unfolding evict_under
evict_under-cases none p incoming stats = inl refl
evict_under-cases (some limit) p incoming stats =
    elim (evict-cases p (max limit 1) incoming stats) [
      | inl same ↦ inl same
      | inr (count, e) ↦ inr (count, e, λ unlimited. cc)
    ]

pub make_room-cases :
    (p : Pages) (incoming : ℕ) (stats : Stats)
    → ((make_room p incoming stats).0 ≡ p)
      ⊎ ((count : ℕ) × ((make_room p incoming stats).0 ≡ without p count) × (p.cap ≢ none))
unfolding make_room
make_room-cases p = evict_under-cases p.cap p

-- Eviction changes nothing that can be read, and keeps the invariant.
pub make_room-Moved :
    (stored : Stored) (p : Pages) (incoming : ℕ) (stats : Stats)
    → Serves stored p
    → Moved stored p (make_room p incoming stats).0
make_room-Moved stored p incoming stats s = elim (make_room-cases p incoming stats) [
  | inl same ↦ rw same (Moved-refl stored p s)
  | inr (count, e, limited) ↦ rw e (Moved-without stored p count limited s)
]

-- `q` is `p` less some blocks: all of them clean, and none where there is no limit.
pub record Evicted (p q : Pages) : Type 0 where
  pub gone : List ℕ
  pub left : q ≡ record p { blocks = remove_all gone p.blocks }
  pub clean : (i : ℕ) → elem i gone ≡ true → elem i p.dirty ≡ false
  pub unlimited : p.cap ≡ none → gone ≡ []

Evicted-refl : (p : Pages) → Evicted p p
Evicted-refl p = record {
  gone = [];
  left = unfold remove_all in refl;
  clean = λ i e. cc;
  unlimited = λ e. refl;
}

Evicted-without : (p : Pages) (count : ℕ) → p.cap ≢ none → Evicted p (without p count)
Evicted-without p count limited = record {
  gone = victims p count;
  left = unfold without in refl;
  clean = λ i e. victims-clean p count i e;
  unlimited = λ e. absurd (limited e);
}

-- Under the invariant, `make_room` takes blocks out of memory and changes nothing else of the
-- `Pages`. The blocks that it takes out are clean, and there are none without a limit. The file and
-- the invariant stay.
pub make_room-Evicted :
    (stored : Stored) (p : Pages) (incoming : ℕ) (stats : Stats)
    → Serves stored p
    → Evicted p (make_room p incoming stats).0 × Moved stored p (make_room p incoming stats).0
make_room-Evicted stored p incoming stats s = (
  elim (make_room-cases p incoming stats) [
    | inl same ↦ rw same (Evicted-refl p)
    | inr (count, e, limited) ↦ rw e (Evicted-without p count limited)
  ],
  make_room-Moved stored p incoming stats s,
)
