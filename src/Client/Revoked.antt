-- ===== src/Client/Revoked.antt =====
-- Revoked leases (`note_revoked`, `was_revoked`, `take_unreported` in
-- crates/sqlite-remote-vfs/src/client.rs).
use sqlite_remote_vfs.Base.{
  ℕ, ◌≡◌, refl, sym, ◌∙◌, ap, inl, inr, Bool, true, false, ◌&&◌, ◌||◌, Option, none, some, List, [],
  ◌∷◌, if◌then◌else◌, ltb, arith, Bool-cases,
}
use sqlite_remote_vfs.Base.Bytes.{Bytes, bytes_eq, bytes_eq→eq, bytes_eq_refl}
use sqlite_remote_vfs.Proto.{LeaseRevoked}
use sqlite_remote_vfs.Client.{
  Client, epoch_of, set_epoch, or_zero, newer_than, was_revoked, note_revoked,
}

differ : (x d db : Bytes) → bytes_eq x d ≡ false → x ≡ db → bytes_eq d db ≡ false
differ x d db other here = elim (Bool-cases (bytes_eq d db)) [
  | inr apart ↦ apart
  | inl same ↦
      let x_d : x ≡ d = here ∙ sym (bytes_eq→eq d db same) in
      cc (other, ap (bytes_eq x) (sym x_d), bytes_eq_refl x)
]

epoch_of-set_epoch :
    (db d : Bytes) (epoch : ℕ) (m : List (Bytes × ℕ))
    → epoch_of db (set_epoch d epoch m) ≡ (if bytes_eq d db then some epoch else epoch_of db m)
unfolding epoch_of set_epoch
epoch_of-set_epoch db d epoch [] = refl
epoch_of-set_epoch db d epoch ((x, e) ∷ m) = elim (Bool-cases (bytes_eq x d)) [
  | inl same ↦
      let x_d = bytes_eq→eq x d same in
      elim (Bool-cases (bytes_eq x db)) [
        | inl here ↦ rw (same, here) (rw (← x_d, here) refl)
        | inr there ↦ rw (same, there) (rw (← x_d, there) refl)
      ]
  | inr other ↦ elim (Bool-cases (bytes_eq x db)) [
    | inl here ↦ rw (other, here) (rw (differ x d db other (bytes_eq→eq x db here)) refl)
    | inr there ↦ rw (other, there) (epoch_of-set_epoch db d epoch m)
  ]
]

set_epoch_twice :
    (d : Bytes) (epoch : ℕ) (m : List (Bytes × ℕ))
    → set_epoch d epoch (set_epoch d epoch m) ≡ set_epoch d epoch m
unfolding set_epoch
set_epoch_twice d epoch [] = rw (bytes_eq_refl d) refl
set_epoch_twice d epoch ((x, e) ∷ m) = elim (Bool-cases (bytes_eq x d)) [
  | inl same ↦ rw same (rw same refl)
  | inr other ↦ rw other (rw other (ap (◌∷◌ (x, e)) (set_epoch_twice d epoch m)))
]

or_false : (b : Bool) → b ≡ (b || false)
or_false true = refl
or_false false = refl

newest : Option ℕ → ℕ → ℕ
unfolding or_zero
newest o epoch = if ltb (or_zero o) epoch then epoch else or_zero o

newer_than-newest :
    (o : Option ℕ) (new epoch : ℕ)
    → newer_than (some (newest o new)) epoch ≡ (newer_than o epoch || ltb epoch new)
unfolding newer_than newest or_zero
newer_than-newest none new epoch = ground arith
newer_than-newest (some n) new epoch = ground arith

newest_not_older : (o : Option ℕ) (new : ℕ) → ltb (newest o new) new ≡ false
unfolding newest or_zero
newest_not_older none new = ground arith
newest_not_older (some n) new = ground arith

module _ {W : Type 0} where
  revoked-note_revoked :
      (c : Client W) (r : LeaseRevoked)
      → (note_revoked c r).revoked
        ≡ set_epoch r.db_id (newest (epoch_of r.db_id c.revoked) r.new_lease_epoch) c.revoked
  unfolding note_revoked newest
  revoked-note_revoked c r =
      elim (Bool-cases (ltb (or_zero (epoch_of r.db_id c.revoked)) r.new_lease_epoch)) [
        | inl newer ↦ rw newer refl
        | inr older ↦ rw older refl
      ]

  -- After a `LeaseRevoked` exactly these leases count as revoked: those that did before, and those of
  -- its database with an epoch older than the one it names.
  pub was_revoked-note_revoked :
      (c : Client W) (r : LeaseRevoked) (db : Bytes) (epoch : ℕ)
      → was_revoked (note_revoked c r) db epoch
        ≡ (was_revoked c db epoch || (bytes_eq r.db_id db && ltb epoch r.new_lease_epoch))
  unfolding was_revoked
  was_revoked-note_revoked c r db epoch =
      let k = newest (epoch_of r.db_id c.revoked) r.new_lease_epoch in
      rw (revoked-note_revoked c r, epoch_of-set_epoch db r.db_id k c.revoked)
        (elim (Bool-cases (bytes_eq r.db_id db)) [
          | inl same ↦
              let e = bytes_eq→eq r.db_id db same in
              rw (same, ← e)
                (newer_than-newest (epoch_of r.db_id c.revoked) r.new_lease_epoch epoch)
          | inr other ↦ rw other (or_false (was_revoked c db epoch))
        ])

  note_revoked_old :
      (c : Client W) (r : LeaseRevoked) (newer : ℕ)
      → epoch_of r.db_id c.revoked ≡ some newer
      → ltb newer r.new_lease_epoch ≡ false
      → set_epoch r.db_id newer c.revoked ≡ c.revoked
      → note_revoked c r ≡ c
  unfolding note_revoked or_zero
  note_revoked_old c r newer known older same =
      rw known (rw older (ap (λ m. record c { revoked = m }) same))

  -- A `LeaseRevoked` that is recorded twice is recorded once: the second time changes nothing, also
  -- for the takeover listener.
  pub note_revoked_twice :
      (c : Client W) (r : LeaseRevoked) → note_revoked (note_revoked c r) r ≡ note_revoked c r
  note_revoked_twice c r =
      let k = newest (epoch_of r.db_id c.revoked) r.new_lease_epoch in
      let noted = revoked-note_revoked c r in
      note_revoked_old (note_revoked c r) r k
        (rw (noted, epoch_of-set_epoch r.db_id r.db_id k c.revoked)
          (rw (bytes_eq_refl r.db_id) refl))
        (newest_not_older (epoch_of r.db_id c.revoked) r.new_lease_epoch)
        (rw noted (set_epoch_twice r.db_id k c.revoked))
