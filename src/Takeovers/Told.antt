-- ===== src/Takeovers/Told.antt =====
-- What the application learns of takeovers: the failure of the VFS and the calls of the listener.
use sqlite_remote_vfs.Base.{
  ℕ, ◌<◌, lt→ltb, ◌≡◌, refl, sym, ◌∙◌, ap, Bool, true, false, Option, some, List, [], ◌∷◌, ◌++◌,
  if◌then◌else◌, inl, inr, Bool-cases, if_true, if_false, true_not_false,
}
use sqlite_remote_vfs.Base.Bytes.{Bytes, bytes_eq, bytes_eq→eq, bytes_eq_refl}
use sqlite_remote_vfs.Failure.{Failure}
use sqlite_remote_vfs.Proto.{ServerFrame, Response}
use sqlite_remote_vfs.Client.{Client, among, or_zero, epoch_of, note_revoked, take_unreported}
use sqlite_remote_vfs.Takeovers.{
  Shared, open_is, tell, report_each, report_takeovers, pushed, on_push,
}

-- The mentions of the open database in a list of names.
unfoldable pub mentions : Option Bytes → List Bytes → List Bytes
mentions name [] = []
mentions name (db_id ∷ rest) =
    let later = mentions name rest in if open_is name db_id then db_id ∷ later else later

unfoldable pub failure_after : List Bytes → Option Failure → Option Failure
failure_after [] failure = failure
failure_after (x ∷ xs) failure = some Failure.taken_over

-- The state `t` behind a report of the names `revoked` in the state `s`.
pub record Told {W : Type 0} (revoked : List Bytes) (s t : Shared W) : Type 0 where
  pub failure_is : t.failure ≡ failure_after (mentions s.database revoked) s.failure
  pub told_is : t.told ≡ (if s.has_listener then s.told ++ mentions s.database revoked else s.told)
  pub same_database : t.database ≡ s.database
  pub same_listener : t.has_listener ≡ s.has_listener
  pub same_client : t.client ≡ s.client

taken_over_stays :
    (xs : List Bytes) → failure_after xs (some Failure.taken_over) ≡ some Failure.taken_over
unfolding failure_after
taken_over_stays [] = refl
taken_over_stays (x ∷ xs) = refl

told_nothing : (h : Bool) (told : List Bytes) → told ≡ (if h then told ++ [] else told)
told_nothing false told = refl
told_nothing true [] = refl
told_nothing true (x ∷ told) = ap (x ∷◌) (told_nothing true told)

append_one :
    (told : List Bytes) (x : Bytes) (xs : List Bytes) → (told ++ (x ∷ [])) ++ xs ≡ told ++ (x ∷ xs)
append_one [] x xs = refl
append_one (y ∷ told) x xs = ap (y ∷◌) (append_one told x xs)

told_more :
    (h : Bool) (told : List Bytes) (x : Bytes) (xs : List Bytes)
    → (if h
        then (if h then told ++ (x ∷ []) else told) ++ xs
        else (if h then told ++ (x ∷ []) else told))
      ≡ (if h then told ++ (x ∷ xs) else told)
told_more true told x xs = append_one told x xs
told_more false told x xs = refl

mentions_here :
    (name : Option Bytes) (x : Bytes) (rest : List Bytes)
    → open_is name x ≡ true
    → mentions name (x ∷ rest) ≡ x ∷ mentions name rest
unfolding mentions
mentions_here name x rest e = if_true (open_is name x) _ _ e

mentions_past :
    (name : Option Bytes) (x : Bytes) (rest : List Bytes)
    → open_is name x ≡ false
    → mentions name (x ∷ rest) ≡ mentions name rest
unfolding mentions
mentions_past name x rest e = if_false (open_is name x) _ _ e

module _ {W : Type 0} {s t : Shared W} (x : Bytes) (rest : List Bytes) where
  Told-here : open_is s.database x ≡ true → Told rest (tell s x) t → Told (x ∷ rest) s t
  unfolding tell failure_after
  Told-here e told = record {
    failure_is =
        told.failure_is
        ∙ (taken_over_stays (mentions s.database rest)
            ∙ ap (λ m. failure_after m s.failure) (sym (mentions_here s.database x rest e)));
    told_is =
        told.told_is
        ∙ (told_more s.has_listener s.told x (mentions s.database rest)
            ∙ ap (λ m. if s.has_listener then s.told ++ m else s.told)
                (sym (mentions_here s.database x rest e)));
    same_database = told.same_database;
    same_listener = told.same_listener;
    same_client = told.same_client;
  }

  Told-past : open_is s.database x ≡ false → Told rest s t → Told (x ∷ rest) s t
  Told-past e told =
      let m = sym (mentions_past s.database x rest e) in
      record {
        failure_is = told.failure_is ∙ ap (λ k. failure_after k s.failure) m;
        told_is = told.told_is ∙ ap (λ k. if s.has_listener then s.told ++ k else s.told) m;
        same_database = told.same_database;
        same_listener = told.same_listener;
        same_client = told.same_client;
      }

report_each-Told :
    {W : Type 0} (revoked : List Bytes) (s : Shared W) → Told revoked s (report_each revoked s)
unfolding report_each mentions failure_after
report_each-Told [] s = record {
  failure_is = refl;
  told_is = told_nothing s.has_listener s.told;
  same_database = refl;
  same_listener = refl;
  same_client = refl;
}
report_each-Told (db_id ∷ rest) s = elim (Bool-cases (open_is s.database db_id)) [
  | inl e ↦ rw e (Told-here db_id rest e (report_each-Told rest (tell s db_id)))
  | inr e ↦ rw e (Told-past db_id rest e (report_each-Told rest s))
]

-- The report sets the failure to `taken_over` when the open database is among the names of revoked
-- databases that the client has not reported yet, and leaves the failure otherwise; it calls the
-- listener, if one is set, for these mentions of the open database and for no other name; and it
-- changes nothing else but that the client has no unreported name left.
pub report_takeovers-Told :
    {W : Type 0} (s : Shared W)
    → ((report_takeovers s).client ≡ record s.client { unreported = [] })
      × Told s.client.unreported
          (record s { client = (report_takeovers s).client })
          (report_takeovers s)
unfolding report_takeovers take_unreported
report_takeovers-Told s =
    let told =
      report_each-Told s.client.unreported
        (record s { client = record s.client { unreported = [] } }) in
    (
      told.same_client,
      record {
        failure_is = told.failure_is;
        told_is = told.told_is;
        same_database = told.same_database;
        same_listener = told.same_listener;
        same_client = refl;
      },
    )

module _ (name : Bytes) where
  found :
      (xs : List Bytes) (f : Option Failure)
      → among name xs ≡ true
      → failure_after (mentions (some name) xs) f ≡ some Failure.taken_over
  unfolding among mentions open_is failure_after
  found [] f h = absurd (true_not_false (sym h))
  found (x ∷ xs) f h = elim (Bool-cases (bytes_eq x name)) [
    | inl e ↦ let e' = ap (bytes_eq name) (bytes_eq→eq x name e) ∙ bytes_eq_refl name in rw e' refl
    | inr e ↦
        let later = found xs f (sym (if_false (bytes_eq x name) true (among name xs) e) ∙ h) in
        elim (Bool-cases (bytes_eq name x)) [ inl e' ↦ rw e' refl | inr e' ↦ rw e' later ]
  ]

  among_end : (xs : List Bytes) → among name (xs ++ (name ∷ [])) ≡ true
  unfolding among
  among_end [] = if_true (bytes_eq name name) _ _ (bytes_eq_refl name)
  among_end (x ∷ xs) = elim (Bool-cases (bytes_eq x name)) [
    | inl e ↦ if_true (bytes_eq x name) _ _ e
    | inr e ↦ if_false (bytes_eq x name) _ _ e ∙ among_end xs
  ]

  noted :
      {W : Type 0} (c : Client W) (epoch : ℕ)
      → or_zero (epoch_of name c.revoked) < epoch
      → among name (note_revoked c (record { db_id = name; new_lease_epoch = epoch })).unreported
        ≡ true
  unfolding note_revoked
  noted c epoch newer =
      let n = lt→ltb _ _ newer in
      elim (Bool-cases (among name c.unreported)) [
        | inl e ↦ rw n (rw e e)
        | inr e ↦ rw n (rw e (among_end c.unreported))
      ]

-- A pushed frame that revokes the lease of the open database, with an epoch newer than the client
-- knows, sets the failure to `taken_over`, and no name is left to report.
pub on_push-fails :
    {W : Type 0} (s : Shared W) (frame : ServerFrame) (name : Bytes) (epoch : ℕ)
    → frame.body ≡ some (Response.lease_revoked (record { db_id = name; new_lease_epoch = epoch }))
    → s.database ≡ some name
    → or_zero (epoch_of name s.client.revoked) < epoch
    → ((on_push (some frame) s).failure ≡ some Failure.taken_over)
      × ((on_push (some frame) s).client.unreported ≡ [])
unfolding on_push pushed
on_push-fails s frame name epoch body is_name newer =
    let c = pushed frame.body s.client in
    let known =
      ap (λ b. among name (pushed b s.client).unreported) body ∙ noted name s.client epoch newer in
    let told = report_takeovers-Told (record s { client = c }) in
    (
      told.1.failure_is
          ∙ (ap (λ d. failure_after (mentions d c.unreported) s.failure) is_name
              ∙ found name c.unreported s.failure known),
      ap (λ c. c.unreported) told.0,
    )
