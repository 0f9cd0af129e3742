-- ===== src/Client/Answers.antt =====
-- What the responses say that a request ends on (crates/sqlite-remote-vfs/src/client.rs).
use sqlite_remote_vfs.Base.{
  ◌≡◌, refl, ◌∙◌, ap, ◌⊎◌, inl, inr, Bool, true, false, Option, none, some, List, [], ◌∷◌, ◌++◌,
  Result, err, Bool-cases,
}
use sqlite_remote_vfs.Base.Bytes.{Bytes}
use sqlite_remote_vfs.Proto.{ServerFrame}
use sqlite_remote_vfs.Failure.{ClientError, Complaint}
use sqlite_remote_vfs.Client.{
  Network, Client, Reply, Turn, Arrival, is_open, disconnect, unsolicited, not_connected,
}
use sqlite_remote_vfs.Client.Listen.{arrival, listen}

-- The state behind a list of frames, if none of them ends the request, and what the last one ends it
-- with otherwise.
abbrev pub run :
    {S A : Type 0}
    → (ServerFrame → S → Turn S A)
    → List ServerFrame
    → S
    → Option (Result ClientError A)
run turn [] s = none
run turn (f ∷ fs) s = elim (turn f s) [
  | Turn.again s' ↦ run turn fs s'
  | Turn.return r ↦ elim fs [ [] ↦ some r | f' ∷ fs' ↦ none ]
]

abbrev pub is_server : ClientError → Bool
is_server (ClientError.server e) = true
is_server _ = false

abbrev pub heard_one : Arrival → List ServerFrame → List ServerFrame
heard_one (Arrival.frame f) fs = f ∷ fs
heard_one _ fs = fs

module _ {W : Type 0} (net : Network W) where
  -- The frames among the first answers of the socket that are not unasked.
  unfoldable pub heard : List (Result Bytes Bytes) → List ServerFrame
  unfolding arrival
  heard [] = []
  heard (next ∷ rest) = heard_one (arrival net next) (heard rest)

  -- A result comes from the frames that were taken off the inbox, or from the connection.
  abbrev pub Ended :
      {S A : Type 0}
      → (ServerFrame → S → Turn S A)
      → List (Result Bytes Bytes)
      → S
      → Reply W A
      → Type 0
  Ended turn inbox s o =
      ((before : List (Result Bytes Bytes)) × (inbox ≡ before ++ o.1.inbox)
        × (run turn (heard before) s ≡ some o.0))
      ⊎ ((e : ClientError) × (o.0 ≡ err e) × (is_server e ≡ false))

  abbrev pub Listened :
      {S A : Type 0}
      → (ServerFrame → S → Turn S A)
      → List (Result Bytes Bytes)
      → S
      → Option (Reply W A)
      → Type 0
  Listened {S} {A} turn inbox s l =
      (l ≡ none) ⊎ ((o : Reply W A) × (l ≡ some o) × Ended turn inbox s o)

  module _ {S A : Type 0} (turn : ServerFrame → S → Turn S A) where
    -- The inbox behind an answer that the request does not end on.
    after_skip :
        (next : Result Bytes Bytes) (rest : List (Result Bytes Bytes)) (s s' : S)
        (l : Option (Reply W A))
        → ((fs : List ServerFrame) → run turn (heard_one (arrival net next) fs) s ≡ run turn fs s')
        → Listened turn rest s' l
        → Listened turn (next ∷ rest) s l
    unfolding heard
    after_skip next rest s s' l skip (inl waits) = inl waits
    after_skip next rest s s' l skip (inr (o, e, inr lost)) = inr (o, e, inr lost)
    after_skip next rest s s' l skip (inr (o, e, inl (before, split, ends))) =
        inr (o, e, inl (next ∷ before, ap (◌∷◌ next) split, skip (heard before) ∙ ends))

    frame-Listened :
        (t : Turn S A) (f : ServerFrame) (next : Result Bytes Bytes)
        (rest : List (Result Bytes Bytes)) (c : Client W) (s : S)
        → turn f s ≡ t
        → arrival net next ≡ Arrival.frame f
        → ((s' : S) → Listened turn rest s' (listen net turn rest c s'))
        → Listened turn (next ∷ rest) s (elim t [
          | Turn.again s' ↦ listen net turn rest c s'
          | Turn.return r ↦ some (r, record c { inbox = rest })
        ])
    unfolding heard
    frame-Listened (Turn.again s') f next rest c s e a more =
        after_skip next rest s s' (listen net turn rest c s') (λ fs. rw (a, e) refl) (more s')
    frame-Listened (Turn.return r) f next rest c s e a more =
        inr ((r, record c { inbox = rest }), refl, inl (next ∷ [], refl, rw (a, e) refl))

    -- `listen` on an open connection, by what arrives.
    unfoldable pub after_arrival :
        Arrival → List (Result Bytes Bytes) → Client W → S → Option (Reply W A)
    unfolding listen disconnect unsolicited
    after_arrival a rest c s = elim a [
      | Arrival.broken_off reason ↦
          some (err (ClientError.transport reason), record (disconnect c) { inbox = rest })
      | Arrival.malformed ↦
          some (err (ClientError.protocol Complaint.malformed_frame), record c { inbox = rest })
      | Arrival.unasked body ↦ listen net turn rest (unsolicited body c) s
      | Arrival.frame f ↦ elim (turn f s) [
        | Turn.again s' ↦ listen net turn rest c s'
        | Turn.return r ↦ some (r, record c { inbox = rest })
      ]
    ]

    pub listen_open :
        (next : Result Bytes Bytes) (rest : List (Result Bytes Bytes)) (c : Client W) (s : S)
        → is_open c ≡ true
        → listen net turn (next ∷ rest) c s ≡ after_arrival (arrival net next) rest c s
    unfolding listen after_arrival
    listen_open next rest c s on = rw (on, listen)

    pub listen_shut :
        (inbox : List (Result Bytes Bytes)) (c : Client W) (s : S)
        → is_open c ≡ false
        → listen net turn inbox c s ≡ some (err not_connected, record c { inbox = inbox })
    unfolding listen
    listen_shut [] c s off = rw (off, listen)
    listen_shut (next ∷ rest) c s off = rw (off, listen)

    pub listen_waits : (c : Client W) (s : S) → is_open c ≡ true → listen net turn [] c s ≡ none
    unfolding listen
    listen_waits c s on = rw (on, listen)

    after_arrival-Listened :
        (a : Arrival) (next : Result Bytes Bytes) (rest : List (Result Bytes Bytes)) (c : Client W)
        (s : S)
        → arrival net next ≡ a
        → ((c' : Client W) (s' : S) → Listened turn rest s' (listen net turn rest c' s'))
        → Listened turn (next ∷ rest) s (after_arrival a rest c s)
    unfolding after_arrival
    after_arrival-Listened (Arrival.broken_off reason) next rest c s e more = inr (
      (err (ClientError.transport reason), record (disconnect c) { inbox = rest }),
      refl,
      inr (ClientError.transport reason, refl, refl),
    )
    after_arrival-Listened Arrival.malformed next rest c s e more = inr (
      (err (ClientError.protocol Complaint.malformed_frame), record c { inbox = rest }),
      refl,
      inr (ClientError.protocol Complaint.malformed_frame, refl, refl),
    )
    after_arrival-Listened (Arrival.unasked body) next rest c s e more =
        after_skip next rest s s (listen net turn rest (unsolicited body c) s) (λ fs. rw e refl)
          (more (unsolicited body c) s)
    after_arrival-Listened (Arrival.frame f) next rest c s e more =
        frame-Listened (turn f s) f next rest c s refl e (λ s'. more c s')

    pub listen-Listened :
        (inbox : List (Result Bytes Bytes)) (c : Client W) (s : S)
        → Listened turn inbox s (listen net turn inbox c s)
    listen-Listened [] c s = elim (Bool-cases (is_open c)) [
      | inr off ↦ rw (listen_shut [] c s off) (
          inr ((err not_connected, record c { inbox = [] }), refl, inr (not_connected, refl, refl)))
      | inl on ↦ rw (listen_waits c s on) (inl refl)
    ]
    listen-Listened (next ∷ rest) c s = elim (Bool-cases (is_open c)) [
      | inr off ↦ rw (listen_shut (next ∷ rest) c s off) (
          inr (
            (err not_connected, record c { inbox = next ∷ rest }),
            refl,
            inr (not_connected, refl, refl),
          ))
      | inl on ↦ rw (listen_open next rest c s on) (
          after_arrival-Listened (arrival net next) next rest c s refl
            (λ c' s'. listen-Listened rest c' s'))
    ]
