-- ===== src/Database/Written.antt =====
-- Writing to the local copy of a database (`write_copy` in
-- crates/sqlite-remote-vfs/src/database.rs).
use sqlite_remote_vfs.Base.{
  ℕ, ◌≡◌, refl, sym, ◌∙◌, inl, inr, Bool, true, false, ◌||◌, Option, none, some, List, [], ◌∷◌,
  ◌==◌, if◌then◌else◌, elem, Bool-cases, true_not_false, if_true, if_false, ==→eq, ==_refl, All,
  arith, length,
}
use sqlite_remote_vfs.Base.Bytes.{Bytes}
use sqlite_remote_vfs.Base.Map.{find}
use sqlite_remote_vfs.Pages.{Pages, block}
use sqlite_remote_vfs.Pages.View.{Stored}
use sqlite_remote_vfs.CopyHeader.{Head}
use sqlite_remote_vfs.Copy.{LocalStore, LocalCopy, Background, is_absent, queue_write, start}
use sqlite_remote_vfs.Copy.Fresh.{
  IsStore, Consistent, first_of, Current, over, queue_write-Current, start-Current,
}
use sqlite_remote_vfs.Copy.Session.{CopyHolds}
use sqlite_remote_vfs.Database.{
  State, Platform, held_blocks, add_block, is_nil, started, queued, write_to, write_copy, copy_head,
  set_copy, set_stats,
}

find-add_block :
    (index i : ℕ) (o : Option Bytes) (rest : List (ℕ × Bytes))
    → find i (add_block index o rest)
      ≡ (if index == i then first_of o (find i rest) else find i rest)
unfolding find add_block
find-add_block index i none rest = ground arith
find-add_block index i (some bytes) rest = refl

first_of_self : (o : Option Bytes) (c : Bool) → first_of o (if c then o else none) ≡ o
first_of_self none c = ground arith
first_of_self (some bytes) c = refl

-- What is written: the blocks of memory among `indexes`.
pub find-held_blocks :
    (p : Pages) (indexes : List ℕ) (i : ℕ)
    → find i (held_blocks p indexes) ≡ (if elem i indexes then block p i else none)
unfolding find held_blocks
find-held_blocks p [] i = refl
find-held_blocks p (index ∷ rest) i =
    find-add_block index i (block p index) (held_blocks p rest) ∙ elim (Bool-cases (index == i)) [
      | inl same ↦
          let e = ==→eq index i same in
          rw (same, e, find-held_blocks p rest i) (first_of_self (block p i) (elem i rest))
      | inr other ↦ rw (other, find-held_blocks p rest i) refl
    ]

add_block-All :
    (P : ℕ × Bytes → Type 0) (index : ℕ) (o : Option Bytes) (rest : List (ℕ × Bytes))
    → ((bytes : Bytes) → o ≡ some bytes → P (index, bytes))
    → All P rest
    → All P (add_block index o rest)
unfolding add_block
add_block-All P index none rest h all = all
add_block-All P index (some bytes) rest h all = (h bytes refl, all)

abbrev Found : Pages → List ℕ → ℕ × Bytes → Type 0
Found p all e = find e.0 (held_blocks p all) ≡ some e.1

held-Found :
    (p : Pages) (all todo : List ℕ)
    → ((i : ℕ) → elem i todo ≡ true → elem i all ≡ true)
    → All (Found p all) (held_blocks p todo)
unfolding held_blocks
held-Found p all [] h = tt
held-Found p all (index ∷ rest) h =
    add_block-All (Found p all) index (block p index) (held_blocks p rest)
      (λ bytes e.
        find-held_blocks p all index
        ∙ if_true (elem index all) _ _ (h index (ground (arith, ==_refl index)))
        ∙ e)
      (held-Found p all rest (λ i e. h i (ground arith)))

pub held_blocks-Consistent : (p : Pages) (indexes : List ℕ) → Consistent (held_blocks p indexes)
held_blocks-Consistent p indexes = held-Found p indexes indexes (λ i e. e)

-- A write to the copy changes nothing else than the counters.
pub record Aside {W V : Type 0} (c c' : State W V) : Type 0 where
  pub pages : c'.pages ≡ c.pages
  pub remote : c'.source.remote ≡ c.source.remote
  pub client : c'.source.client ≡ c.source.client

module _ {W V : Type 0} (ops : LocalStore V) (platform : Platform W) where
  queued-Aside :
      (sent : Bool) (copy : LocalCopy V) (count : ℕ) (c : State W V)
      → Aside c (queued ops platform (sent, copy) count c)
  unfolding queued set_copy set_stats
  queued-Aside true copy count c = record { pages = refl; remote = refl; client = refl }
  queued-Aside false copy count c = record { pages = refl; remote = refl; client = refl }

  write_to-Aside :
      (copy : LocalCopy V) (head : Head) (blocks : List (ℕ × Bytes)) (c : State W V)
      → Aside c (write_to ops platform copy head blocks c)
  unfolding write_to set_stats
  write_to-Aside LocalCopy.absent head blocks c = record {
    pages = refl;
    remote = refl;
    client = refl;
  }
  write_to-Aside (LocalCopy.ready v) head blocks c = record {
    pages = refl;
    remote = refl;
    client = refl;
  }
  write_to-Aside (LocalCopy.writing b) head blocks c =
      let d = set_stats c (record c.stats { local_failures = b.thread.failures }) in
      let q = queue_write ops b head blocks in
      let a = queued-Aside q.0 (LocalCopy.writing q.1) (length blocks) d in
      record { pages = a.pages; remote = a.remote; client = a.client }

  pub write_copy-Aside :
      (c : State W V) (indexes : List ℕ) → Aside c (write_copy ops platform c indexes)
  unfolding write_copy
  write_copy-Aside c indexes =
      let idle = is_absent c.source.copy || is_nil indexes in
      elim (Bool-cases idle) [
        | inl skip ↦
            rw (if_true idle _ _ skip) (record { pages = refl; remote = refl; client = refl })
        | inr go ↦ rw (if_false idle _ _ go) (write_to-Aside _ _ _ c)
      ]

  module _ {holds : V → Stored} (law : IsStore ops holds) where
    queued-CopyHolds :
        (stored : Stored) (sent : Bool) (b : Background V) (count : ℕ) (c : State W V)
        → (sent ≡ true → Current law stored b)
        → CopyHolds law stored (queued ops platform (sent, LocalCopy.writing b) count c).source.copy
    unfolding queued set_copy set_stats
    queued-CopyHolds stored true b count c h = h refl
    queued-CopyHolds stored false b count c h = tt

    write_to-CopyHolds :
        (stored : Stored) (w : W) (copy : LocalCopy V) (head : Head) (blocks : List (ℕ × Bytes))
        (c : State W V)
        → c.source.copy ≡ copy
        → Consistent blocks
        → CopyHolds law stored copy
        → CopyHolds law
            (over blocks stored)
            (write_to ops platform (started ops platform w copy) head blocks c).source.copy
    unfolding write_to started set_stats
    write_to-CopyHolds stored w LocalCopy.absent head blocks c e m h = rw e tt
    write_to-CopyHolds stored w (LocalCopy.ready v) head blocks c e m h =
        let b = start ops v (platform.spawns w) in
        queued-CopyHolds (over blocks stored) (queue_write ops b head blocks).0
          (queue_write ops b head blocks).1 (length blocks) _
          (queue_write-Current law stored b head blocks m
            (start-Current law stored v (platform.spawns w) h))
    write_to-CopyHolds stored w (LocalCopy.writing b) head blocks c e m h =
        queued-CopyHolds (over blocks stored) (queue_write ops b head blocks).0
          (queue_write ops b head blocks).1 (length blocks) _
          (queue_write-Current law stored b head blocks m h)

    skipped :
        (stored : Stored) (p : Pages) (copy : LocalCopy V) (indexes : List ℕ)
        → (is_absent copy || is_nil indexes) ≡ true
        → CopyHolds law stored copy
        → CopyHolds law (over (held_blocks p indexes) stored) copy
    unfolding held_blocks find is_absent
    skipped stored p LocalCopy.absent indexes e h = tt
    skipped stored p (LocalCopy.ready v) [] e h = h
    skipped stored p (LocalCopy.ready v) (i ∷ is) e h = absurd (true_not_false (sym e))
    skipped stored p (LocalCopy.writing b) [] e h = h
    skipped stored p (LocalCopy.writing b) (i ∷ is) e h = absurd (true_not_false (sym e))

    -- The copy is at the content with the blocks of `indexes` that are in memory written over it.
    pub write_copy-CopyHolds :
        (stored : Stored) (c : State W V) (indexes : List ℕ)
        → CopyHolds law stored c.source.copy
        → CopyHolds law
            (over (held_blocks c.pages indexes) stored)
            (write_copy ops platform c indexes).source.copy
    unfolding write_copy
    write_copy-CopyHolds stored c indexes h =
        let idle = is_absent c.source.copy || is_nil indexes in
        elim (Bool-cases idle) [
          | inl skip ↦
              rw (if_true idle _ _ skip) (skipped stored c.pages c.source.copy indexes skip h)
          | inr go ↦ rw (if_false idle _ _ go) (
              write_to-CopyHolds stored c.source.client.world c.source.copy
                (copy_head c.source.remote c.pages) (held_blocks c.pages indexes) c refl
                (held_blocks-Consistent c.pages indexes) h)
        ]
