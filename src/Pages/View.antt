-- ===== src/Pages/View.antt =====
-- The file that the blocks in memory and the source behind them stand for: a block in memory hides
-- the stored one, and a block that neither has reads as zeros.
use sqlite_remote_vfs.Base.{
  ℕ, ◌/◌, ◌%◌, ◌<◌, ◌≡◌, refl, sym, ◌∙◌, ap, ◌⊎◌, ◌≢◌, inl, inr, true, false, Option, none, some,
  List, arith, length, get_or, replicate, elem, is_some,
}
use sqlite_remote_vfs.Base.Bytes.{Bytes}
use sqlite_remote_vfs.Base.Map.{IsMap}
use sqlite_remote_vfs.Pages.{Pages, Block, block}

-- The content of each block in the source; `none`: the source does not have it.
abbrev pub Stored : Type 0
Stored = ℕ → Option Bytes

unfoldable pub choose : Option Bytes → Option Bytes → ℕ → Bytes
choose (some bytes) _ size = bytes
choose none (some bytes) size = bytes
choose none none size = replicate size 0

-- A block that the source does not have reads as zeros, and so may one that it has.
abbrev pub Blank : Option Bytes → ℕ → Type 0
Blank o size = choose none o size ≡ replicate size 0

pub Blank-of_none : {o : Option Bytes} (size : ℕ) → o ≡ none → Blank o size
unfolding choose
Blank-of_none size e = rw e refl

unfoldable pub content : Stored → Pages → ℕ → Bytes
unfolding choose
content stored p i = choose (block p i) (stored i) p.page_size

-- The byte at a position of the file.
unfoldable pub byte : Stored → Pages → ℕ → ℕ
byte stored p position =
    get_or (content stored p (position / p.page_size)) (position % p.page_size) 0

-- What holds between operations, over a source that holds `stored`.
pub record Serves (stored : Stored) (p : Pages) : Type 0 where
  pub positive : 0 < p.page_size
  pub is_map : IsMap p.blocks
  -- Blocks have the page size: the operations slice them by it.
  pub sized : (i : ℕ) (bytes : Bytes) → block p i ≡ some bytes → length bytes ≡ p.page_size
  pub stored_sized : (i : ℕ) (bytes : Bytes) → stored i ≡ some bytes → length bytes ≡ p.page_size
  -- A dirty block is in memory: it is nowhere else.
  pub dirty_held : (i : ℕ) → elem i p.dirty ≡ true → is_some (block p i) ≡ true
  -- A clean block in memory is the stored one.
  pub clean :
      (i : ℕ) (bytes : Bytes)
      → elem i p.dirty ≡ false
      → block p i ≡ some bytes
      → stored i ≡ some bytes
  -- `Load::OnDemand` fetches at least one block (`blocks_per_fetch` in vfs.rs).
  pub fetches_some : p.blocks_per_fetch ≢ some 0
  -- Preloaded without a limit: what is stored is in memory.
  pub complete :
      p.blocks_per_fetch ≡ none
      → p.cap ≡ none
      → (i : ℕ) → i < p.page_count
      → block p i ≡ none
      → Blank (stored i) p.page_size

-- Everything but the blocks in memory and the clock.
pub record SameSettings (p q : Pages) : Type 0 where
  pub page_size : q.page_size ≡ p.page_size
  pub page_count : q.page_count ≡ p.page_count
  pub stable_page_count : q.stable_page_count ≡ p.stable_page_count
  pub dirty : q.dirty ≡ p.dirty
  pub size_changed : q.size_changed ≡ p.size_changed
  pub blocks_per_fetch : q.blocks_per_fetch ≡ p.blocks_per_fetch
  pub cap : q.cap ≡ p.cap

-- `q` has the blocks of `p`, less some clean ones and with some stored ones.
pub record Moved (stored : Stored) (p q : Pages) : Type 0 where
  pub settings : SameSettings p q
  pub is_map : IsMap q.blocks
  pub blocks :
      (i : ℕ)
      → (block q i ≡ block p i)
        ⊎ ((block p i ≡ none) × (block q i ≡ stored i))
        ⊎ ((block q i ≡ none) × (elem i p.dirty ≡ false) × (p.cap ≢ none))

choose_self : (o : Option Bytes) (size : ℕ) → choose o o size ≡ choose none o size
unfolding choose
choose_self none size = refl
choose_self (some bytes) size = refl

choose_evicted :
    (b s : Option Bytes) (size : ℕ)
    → ((bytes : Bytes) → b ≡ some bytes → s ≡ some bytes)
    → choose none s size ≡ choose b s size
unfolding choose
choose_evicted none s size h = refl
choose_evicted (some bytes) s size h = rw (h bytes refl)

module _ {stored : Stored} {p q : Pages} (s : Serves stored p) (m : Moved stored p q) where
  pub content-Moved : (i : ℕ) → content stored q i ≡ content stored p i
  unfolding content
  content-Moved i = elim (m.blocks i) [
    | inl same ↦ rw (same, m.settings.page_size)
    | inr (inl loaded) ↦
        rw (loaded.1, loaded.0, m.settings.page_size) (choose_self (stored i) p.page_size)
    | inr (inr evicted) ↦
        rw (evicted.0, m.settings.page_size)
          (choose_evicted (block p i) (stored i) p.page_size (λ bytes. s.clean i bytes evicted.1))
  ]

  pub byte-Moved : (position : ℕ) → byte stored q position ≡ byte stored p position
  unfolding byte
  byte-Moved position = simp (m.settings.page_size, content-Moved)

  Moved-sized : (i : ℕ) (bytes : Bytes) → block q i ≡ some bytes → length bytes ≡ q.page_size
  Moved-sized i bytes h = elim (m.blocks i) [
    | inl same ↦ s.sized i bytes (sym same ∙ h) ∙ sym m.settings.page_size
    | inr (inl loaded) ↦ s.stored_sized i bytes (sym loaded.1 ∙ h) ∙ sym m.settings.page_size
    | inr (inr evicted) ↦ cc (evicted.0, h)
  ]

  Moved-dirty_held : (i : ℕ) → elem i q.dirty ≡ true → is_some (block q i) ≡ true
  Moved-dirty_held i h =
      let h' : elem i p.dirty ≡ true = ap (elem i) (sym m.settings.dirty) ∙ h in
      elim (m.blocks i) [
        | inl same ↦ rw same (s.dirty_held i h')
        | inr (inl loaded) ↦ cc (s.dirty_held i h', ap is_some loaded.0)
        | inr (inr evicted) ↦ cc (evicted.1, h')
      ]

  Moved-clean :
      (i : ℕ) (bytes : Bytes)
      → elem i q.dirty ≡ false
      → block q i ≡ some bytes
      → stored i ≡ some bytes
  Moved-clean i bytes d h =
      let d' : elem i p.dirty ≡ false = ap (elem i) (sym m.settings.dirty) ∙ d in
      elim (m.blocks i) [
        | inl same ↦ s.clean i bytes d' (sym same ∙ h)
        | inr (inl loaded) ↦ sym loaded.1 ∙ h
        | inr (inr evicted) ↦ cc (evicted.0, h)
      ]

  Moved-complete :
      q.blocks_per_fetch ≡ none
      → q.cap ≡ none
      → (i : ℕ) → i < q.page_count
      → block q i ≡ none
      → Blank (stored i) q.page_size
  Moved-complete f c i lt h = elim (m.blocks i) [
    | inl same ↦ rw m.settings.page_size (
        s.complete (sym m.settings.blocks_per_fetch ∙ f) (sym m.settings.cap ∙ c) i
          (omega (arith, m.settings.page_count)) (sym same ∙ h))
    | inr (inl loaded) ↦ Blank-of_none q.page_size (sym loaded.1 ∙ h)
    | inr (inr evicted) ↦ absurd (evicted.2 (sym m.settings.cap ∙ c))
  ]

  -- Loading and evicting keep the invariant.
  pub Serves-Moved : Serves stored q
  Serves-Moved = record {
    positive = omega (arith, m.settings.page_size, s.positive);
    is_map = m.is_map;
    sized = Moved-sized;
    stored_sized = λ i bytes h. s.stored_sized i bytes h ∙ sym m.settings.page_size;
    dirty_held = Moved-dirty_held;
    clean = Moved-clean;
    fetches_some = λ e. s.fetches_some (sym m.settings.blocks_per_fetch ∙ e);
    complete = Moved-complete;
  }

-- Operations that change only the blocks in memory and the clock.
pub SameSettings-blocks :
    (p : Pages) (blocks : List (ℕ × Block)) (clock : ℕ)
    → SameSettings p (record p { blocks = blocks; clock = clock })
SameSettings-blocks p blocks clock = record {
  page_size = refl;
  page_count = refl;
  stable_page_count = refl;
  dirty = refl;
  size_changed = refl;
  blocks_per_fetch = refl;
  cap = refl;
}

pub SameSettings-trans : {p q r : Pages} → SameSettings p q → SameSettings q r → SameSettings p r
SameSettings-trans a b = record {
  page_size = b.page_size ∙ a.page_size;
  page_count = b.page_count ∙ a.page_count;
  stable_page_count = b.stable_page_count ∙ a.stable_page_count;
  dirty = b.dirty ∙ a.dirty;
  size_changed = b.size_changed ∙ a.size_changed;
  blocks_per_fetch = b.blocks_per_fetch ∙ a.blocks_per_fetch;
  cap = b.cap ∙ a.cap;
}

pub Moved-refl : (stored : Stored) (p : Pages) → Serves stored p → Moved stored p p
Moved-refl stored p s = record {
  settings = SameSettings-blocks p p.blocks p.clock;
  is_map = s.is_map;
  blocks = λ i. inl refl;
}

-- The same file, and the invariant.
pub record Keeps (stored : Stored) (p q : Pages) : Type 0 where
  pub settings : SameSettings p q
  pub serves : Serves stored q
  pub contents : (i : ℕ) → content stored q i ≡ content stored p i

pub Keeps-Moved :
    (stored : Stored) (p q : Pages) → Serves stored p → Moved stored p q → Keeps stored p q
Keeps-Moved stored p q s m = record {
  settings = m.settings;
  serves = Serves-Moved s m;
  contents = content-Moved s m;
}

pub Keeps-refl : (stored : Stored) (p : Pages) → Serves stored p → Keeps stored p p
Keeps-refl stored p s = Keeps-Moved stored p p s (Moved-refl stored p s)

pub Keeps-trans :
    (stored : Stored) {p q r : Pages} → Keeps stored p q → Keeps stored q r → Keeps stored p r
Keeps-trans stored a b = record {
  settings = SameSettings-trans a.settings b.settings;
  serves = b.serves;
  contents = λ i. b.contents i ∙ a.contents i;
}

module _ {stored : Stored} {p q : Pages} (k : Keeps stored p q) where
  pub byte-Keeps : (position : ℕ) → byte stored q position ≡ byte stored p position
  unfolding byte
  byte-Keeps position = simp (k.settings.page_size, k.contents)
