-- ===== src/Pages/Room.antt =====
-- The memory limit: what `make_room` promises of the number and of the age of the blocks it evicts.
use sqlite_remote_vfs.Base.{
  ℕ, ◌+◌, ◌-◌, ◌/◌, ◌≤◌, min, max, ◌≡◌, refl, sym, ◌∙◌, ap, inl, inr, true, false, some, List,
  arith, length, elem, Bool-cases, if◌then◌else◌, leb, ◌==◌, is_some, u64, ==→eq,
}
use sqlite_remote_vfs.Base.Map.{find, remove_all, IsMap, keys, find_of_elem, find-remove_all}
use sqlite_remote_vfs.Stats.{Stats}
use sqlite_remote_vfs.Pages.{
  Pages, Block, held, clean_ages, sort_ages, index_of, evict, evict_under, make_room,
}
use sqlite_remote_vfs.Pages.Ages.{
  ids, All-sort_ages, elem-sort_ages, elem-clean_ages, sort_ages-Ascending, elem-take-drop,
  front-le-back, age, HasAge-clean_ages,
}
use sqlite_remote_vfs.Pages.Evict.{victims, without}

module _ (p : Pages) where
  abbrev ages : List (ℕ × ℕ)
  ages = clean_ages p.dirty p.blocks

  keys-without :
      (count i : ℕ)
      → elem i (keys (without p count).blocks)
        ≡ (if elem i (victims p count) then false else elem i (keys p.blocks))
  unfolding without
  keys-without count i = elim (Bool-cases (elem i (victims p count))) [
    | inl gone ↦
        find_of_elem i (remove_all (victims p count) p.blocks)
        ∙ ap is_some (find-remove_all i (victims p count) p.blocks)
        ∙ rw gone refl
    | inr stays ↦
        find_of_elem i (remove_all (victims p count) p.blocks)
        ∙ ap is_some (find-remove_all i (victims p count) p.blocks)
        ∙ rw stays (sym (find_of_elem i p.blocks))
  ]

  abbrev surplus : ℕ → ℕ → ℕ
  surplus cap incoming = min (held p - ((cap - cap / 8) - incoming)) (length ages)

  evict-fits :
      (cap incoming : ℕ) (stats : Stats)
      → leb (u64 (held p + incoming)) cap ≡ true
      → (evict p cap incoming stats).0 ≡ p
  unfolding evict
  evict-fits cap incoming stats fits = rw fits

  evict-without :
      (cap incoming : ℕ) (stats : Stats)
      → leb (u64 (held p + incoming)) cap ≡ false
      → (evict p cap incoming stats).0 ≡ without p (surplus cap incoming)
  unfolding evict without remove_all
  evict-without cap incoming stats tight = elim (Bool-cases (surplus cap incoming == 0)) [
    | inl nothing ↦
        let e = ==→eq (surplus cap incoming) 0 nothing in rw (tight, nothing) (rw e refl)
    | inr some_go ↦ rw (tight, some_go)
  ]

make_room_lem :
    (p : Pages) (limit incoming : ℕ) (stats : Stats)
    → p.cap ≡ some limit
    → make_room p incoming stats ≡ evict p (max limit 1) incoming stats
unfolding make_room
make_room_lem p limit incoming stats limited = ap (λ o. evict_under o p incoming stats) limited

evict-lru :
    (p : Pages) (cap incoming i j : ℕ) (stats : Stats) (a b : Block)
    → IsMap p.blocks
    → find i p.blocks ≡ some a
    → find j p.blocks ≡ some b
    → elem j p.dirty ≡ false
    → elem i (keys (evict p cap incoming stats).0.blocks) ≡ false
    → elem j (keys (evict p cap incoming stats).0.blocks) ≡ true
    → a.used ≤ b.used
evict-lru p cap incoming i j stats a b is_map here there clean gone stays =
    elim (Bool-cases (leb (u64 (held p + incoming)) cap)) [
      | inl fits ↦
          let e =
            ap (λ (q : Pages). elem i (keys q.blocks)) (evict-fits p cap incoming stats fits) in
          absurd (ground (arith, find_of_elem i p.blocks))
      | inr tight ↦
          let n = surplus p cap incoming in
          let e = evict-without p cap incoming stats tight in
          let gone' : elem i (victims p n) ≡ true = ground (
            arith,
            ap (λ (q : Pages). elem i (keys q.blocks)) e,
            keys-without p n i,
            find_of_elem i p.blocks,
          ) in
          let stays' : elem j (victims p n) ≡ false =
            ground (arith, ap (λ (q : Pages). elem j (keys q.blocks)) e, keys-without p n j) in
          let listed : elem j (ids (sort_ages (ages p))) ≡ true =
            elem-sort_ages j (ages p)
            ∙ elem-clean_ages p.dirty j p.blocks
            ∙ rw clean (find_of_elem j p.blocks ∙ ap is_some there) in
          elim (elem-take-drop j n (sort_ages (ages p)) listed) [
            | inl front ↦ absurd (ground arith)
            | inr back ↦
                front-le-back n i a.used j b.used (sort_ages (ages p))
                  (sort_ages-Ascending (ages p))
                  (All-sort_ages (λ e. index_of e ≡ i → age e ≡ a.used) (ages p)
                    (HasAge-clean_ages p.dirty i a p.blocks is_map here))
                  (All-sort_ages (λ e. index_of e ≡ j → age e ≡ b.used) (ages p)
                    (HasAge-clean_ages p.dirty j b p.blocks is_map there))
                  gone' back
          ]
    ]

-- `make_room` evicts the least recently used: a block that it takes out of memory was last used no
-- later than any clean block that it leaves there.
pub make_room-lru :
    (p : Pages) (limit incoming i j : ℕ) (stats : Stats) (a b : Block)
    → IsMap p.blocks
    → p.cap ≡ some limit
    → find i p.blocks ≡ some a
    → find j p.blocks ≡ some b
    → elem j p.dirty ≡ false
    → elem i (keys (make_room p incoming stats).0.blocks) ≡ false
    → elem j (keys (make_room p incoming stats).0.blocks) ≡ true
    → a.used ≤ b.used
make_room-lru p limit incoming i j stats a b is_map limited here there clean =
    rw (make_room_lem p limit incoming stats limited)
      (evict-lru p (max limit 1) incoming i j stats a b is_map here there clean)
