-- ===== src/Database/Stores.antt =====
-- What a commit to a page server leaves of the blocks in memory and of the local copy (`commit` in
-- crates/sqlite-remote-vfs/src/database.rs).
use sqlite_remote_vfs.Base.{
  ℕ, ◌≡◌, refl, ◌∙◌, ap, inl, inr, true, Option, none, some, elem, Bool-cases, is_some,
}
use sqlite_remote_vfs.Base.Bytes.{Bytes}
use sqlite_remote_vfs.Stats.{Stats}
use sqlite_remote_vfs.Pages.{Pages, is_clean, committed, block, make_room}
use sqlite_remote_vfs.Pages.Load.{room, set_held}
use sqlite_remote_vfs.Pages.View.{Stored, content, Serves, Keeps-Moved}
use sqlite_remote_vfs.Pages.Evict.{make_room-Moved}
use sqlite_remote_vfs.Pages.Changes.{applied, is_clean_same, committed-Committed}
use sqlite_remote_vfs.Client.{Network}
use sqlite_remote_vfs.Copy.{LocalStore, LocalCopy}
use sqlite_remote_vfs.Copy.Fresh.{IsStore, over, first_of}
use sqlite_remote_vfs.Copy.Session.{CopyHolds}
use sqlite_remote_vfs.Database.{State, Platform, write_copy, held_blocks}
use sqlite_remote_vfs.Database.Commit.{acknowledged, done}
use sqlite_remote_vfs.Database.Written.{write_copy-Aside, write_copy-CopyHolds, find-held_blocks}

module _ {W V : Type 0} (net : Network W) (ops : LocalStore V) (platform : Platform W) where
  -- The pages `q` and the copy after a commit of the pages `p`, over blocks that the server stored.
  pub record Stores (stored : Stored) (p : Pages) (copy : LocalCopy V) (c' : State W V)
      : Type 0 where
    pub clean : is_clean c'.pages ≡ true
    pub page_count : c'.pages.page_count ≡ p.page_count
    pub serves : Serves (applied stored p) c'.pages
    pub contents : (i : ℕ) → content (applied stored p) c'.pages i ≡ content stored p i
    pub copied :
        (holds : V → Stored) (law : IsStore ops holds)
        → CopyHolds law stored copy
        → CopyHolds law (applied stored p) c'.source.copy

  first_of_held : (o s : Option Bytes) → is_some o ≡ true → first_of o s ≡ o
  first_of_held (some bytes) s e = refl
  first_of_held none s e = cc

  over_dirty_at :
      (stored : Stored) (p : Pages) (i : ℕ)
      → Serves stored p
      → over (held_blocks (committed p).1 (committed p).0) stored i ≡ applied stored p i
  unfolding committed block
  over_dirty_at stored p i serves =
      ap (λ o. first_of o (stored i)) (find-held_blocks (committed p).1 p.dirty i)
      ∙ elim (Bool-cases (elem i p.dirty)) [
        | inl changed ↦
            rw changed (first_of_held (block p i) (stored i) (serves.dirty_held i changed))
        | inr clean ↦ rw clean refl
      ]

  -- The blocks that are written to the copy are those that the server has applied.
  over_dirty :
      (stored : Stored) (p : Pages)
      → Serves stored p
      → over (held_blocks (committed p).1 (committed p).0) stored ≡ applied stored p
  over_dirty stored p serves = λ j i. over_dirty_at stored p i serves j

  -- The pages that are left.
  record Left (stored : Stored) (p q : Pages) : Type 0 where
    pub clean : is_clean q ≡ true
    pub page_count : q.page_count ≡ p.page_count
    pub serves : Serves (applied stored p) q
    pub contents : (i : ℕ) → content (applied stored p) q i ≡ content stored p i

  make_room-Left :
      (stored : Stored) (p q : Pages) (stats : Stats)
      → Serves stored p
      → q ≡ (committed p).1
      → Left stored p (make_room q 0 stats).0
  make_room-Left stored p q stats serves e =
      let after = committed-Committed stored p serves in
      let k =
        Keeps-Moved (applied stored p) (committed p).1 _ after.serves
          (make_room-Moved (applied stored p) (committed p).1 0 stats after.serves) in
      rw e (record {
        clean = is_clean_same k.settings ∙ after.clean;
        page_count = k.settings.page_count ∙ after.page_count;
        serves = k.serves;
        contents = λ i. k.contents i ∙ after.contents i;
      })

  acknowledged-pages :
      (begun frames version : ℕ) (commit_id : Bytes) (c : State W V)
      → (acknowledged net ops platform begun frames commit_id version c).pages
        ≡ (committed c.pages).1
  unfolding acknowledged
  acknowledged-pages begun frames version commit_id c = refl

  acknowledged-copy :
      (begun frames version : ℕ) (commit_id : Bytes) (c : State W V)
      → (acknowledged net ops platform begun frames commit_id version c).source.copy ≡ c.source.copy
  unfolding acknowledged
  acknowledged-copy begun frames version commit_id c = refl

  -- The last step of a commit, on the state `w` behind the write to the copy.
  settled-Stores :
      (stored : Stored) (p : Pages) (copy : LocalCopy V) (w : State W V)
      → Serves stored p
      → w.pages ≡ (committed p).1
      → ((holds : V → Stored) (law : IsStore ops holds)
          → CopyHolds law stored copy
          → CopyHolds law (applied stored p) w.source.copy)
      → Stores stored p copy (set_held (room w 0))
  unfolding set_held room
  settled-Stores stored p copy w serves e copied =
      let l = make_room-Left stored p w.pages w.stats serves e in
      record {
        clean = l.clean;
        page_count = l.page_count;
        serves = l.serves;
        contents = l.contents;
        copied = copied;
      }

  CopyHolds-along :
      (holds : V → Stored) (law : IsStore ops holds) (copy : LocalCopy V) {s s' : Stored}
      → s ≡ s'
      → CopyHolds law s copy
      → CopyHolds law s' copy
  CopyHolds-along holds law copy e h = rw (← e) h

  written-copied :
      (stored : Stored) (p : Pages) (a : State W V)
      → Serves stored p
      → a.pages ≡ (committed p).1
      → (holds : V → Stored) (law : IsStore ops holds) → CopyHolds law stored a.source.copy
      → CopyHolds law (applied stored p) (write_copy ops platform a (committed p).0).source.copy
  written-copied stored p a serves e holds law h =
      let w = write_copy-CopyHolds ops platform law stored a (committed p).0 h in
      let same =
        ap (λ q. over (held_blocks q (committed p).0) stored) e ∙ over_dirty stored p serves in
      CopyHolds-along holds law _ same w

  pub done-Stores :
      (stored : Stored) (begun frames version : ℕ) (commit_id : Bytes) (c : State W V)
      → Serves stored c.pages
      → Stores stored c.pages c.source.copy (done net ops platform begun frames commit_id version c)
  unfolding done
  done-Stores stored begun frames version commit_id c serves =
      let a = acknowledged net ops platform begun frames commit_id version c in
      let e = acknowledged-pages begun frames version commit_id c in
      settled-Stores stored c.pages c.source.copy (write_copy ops platform a (committed c.pages).0)
        serves ((write_copy-Aside ops platform a (committed c.pages).0).pages ∙ e)
        (λ holds law h.
          written-copied stored c.pages a serves e holds law
            (rw (acknowledged-copy begun frames version commit_id c) h))

  pub done-remote :
      (begun frames version : ℕ) (commit_id : Bytes) (c : State W V)
      → (done net ops platform begun frames commit_id version c).source.remote
        ≡ record c.source.remote {
          version = version;
          last_commit_id = commit_id;
          pending_commit = none;
        }
  unfolding done set_held room acknowledged
  done-remote begun frames version commit_id c =
      (write_copy-Aside ops platform
        (acknowledged net ops platform begun frames commit_id version c)
        (committed c.pages).0).remote

  pub Stores-along :
      (stored : Stored) {p p' : Pages} {copy copy' : LocalCopy V} (x : State W V)
      → p ≡ p'
      → copy ≡ copy'
      → Stores stored p copy x
      → Stores stored p' copy' x
  Stores-along stored x e f s = rw (← e, ← f) s
