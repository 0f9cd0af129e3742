-- ===== src/Client/Heard.antt =====
-- How listening changes the client: it takes frames off the inbox (`receive` and its callers,
-- crates/sqlite-remote-vfs/src/client.rs).
use sqlite_remote_vfs.Base.{
  ◌≤◌, ◌<◌, ◌≡◌, refl, sym, ap, ◌∙◌, inl, inr, Bool, true, false, Option, none, some, List, [], ◌∷◌,
  ◌++◌, length, ltb, Result, ok, err, Bool-cases, if_true, if_false, true_not_false, arith,
}
use sqlite_remote_vfs.Base.Bytes.{Bytes}
use sqlite_remote_vfs.Proto.{ServerFrame, Response, LeaseRevoked}
use sqlite_remote_vfs.Failure.{ClientError, Complaint}
use sqlite_remote_vfs.Client.{
  Network, Client, Reply, Turn, Arrival, is_open, disconnect, unsolicited, note_revoked, or_zero,
  epoch_of, not_connected,
}
use sqlite_remote_vfs.Client.Listen.{arrival, listen, wait}
use sqlite_remote_vfs.Client.Answers.{
  is_server, after_arrival, listen_open, listen_shut, listen_waits,
}

-- `ys` is what is left of `xs` when its first elements are taken.
pub record Taken {A : Type 0} (xs ys : List A) : Type 0 where
  pub before : List A
  pub split : xs ≡ before ++ ys

pub Taken-refl : {A : Type 0} (xs : List A) → Taken xs xs
Taken-refl xs = record { before = []; split = refl }

append_assoc : {A : Type 0} (xs ys zs : List A) → (xs ++ ys) ++ zs ≡ xs ++ (ys ++ zs)
append_assoc [] ys zs = refl
append_assoc (x ∷ xs) ys zs = ap (◌∷◌ x) (append_assoc xs ys zs)

pub Taken-trans : {A : Type 0} {xs ys zs : List A} → Taken xs ys → Taken ys zs → Taken xs zs
Taken-trans {A} {xs} {ys} {zs} s t = record {
  before = s.before ++ t.before;
  split = s.split ∙ ap (λ l. s.before ++ l) t.split ∙ sym (append_assoc s.before t.before zs);
}

pub Taken-cons : {A : Type 0} (x : A) {xs ys : List A} → Taken xs ys → Taken (x ∷ xs) ys
Taken-cons x t = record { before = x ∷ t.before; split = ap (◌∷◌ x) t.split }

-- Where there is a value, it has the property.
abbrev pub Every : {A : Type 0} → (A → Type 0) → Option A → Type 0
Every P none = Unit
Every P (some a) = P a

-- A result that a frame has brought.
abbrev pub is_brought : {A : Type 0} → Result ClientError A → Bool
is_brought (ok a) = true
is_brought (err e) = is_server e

module _ {W : Type 0} where
  -- What is left of a client with the answers `inbox` to receive.
  pub record Heard {A : Type 0} (c : Client W) (inbox : List (Result Bytes Bytes)) (o : Reply W A)
      : Type 0 where
    pub world : o.1.world ≡ c.world
    pub fewer : length o.1.inbox ≤ length inbox
    pub brought : is_brought o.0 ≡ true → length o.1.inbox < length inbox
    pub left : Taken inbox o.1.inbox

  world-note_revoked : (c : Client W) (r : LeaseRevoked) → (note_revoked c r).world ≡ c.world
  unfolding note_revoked
  world-note_revoked c r =
      let newer = ltb (or_zero (epoch_of r.db_id c.revoked)) r.new_lease_epoch in
      elim (Bool-cases newer) [
        | inl yes_newer ↦ rw (if_true newer _ _ yes_newer) refl
        | inr not_newer ↦ rw (if_false newer _ _ not_newer) refl
      ]

  world-unsolicited : (body : Option Response) (c : Client W) → (unsolicited body c).world ≡ c.world
  unfolding unsolicited
  world-unsolicited (some (Response.lease_revoked r)) c = world-note_revoked c r
  world-unsolicited none c = refl
  world-unsolicited (some (Response.hello_ok x)) c = refl
  world-unsolicited (some (Response.opened x)) c = refl
  world-unsolicited (some (Response.pages x)) c = refl
  world-unsolicited (some (Response.commit_ack x)) c = refl
  world-unsolicited (some (Response.pong x)) c = refl
  world-unsolicited (some (Response.error x)) c = refl
  world-unsolicited (some Response.done) c = refl
  world-unsolicited (some (Response.challenge x)) c = refl
  world-unsolicited (some (Response.changes x)) c = refl
  world-unsolicited (some (Response.slot x)) c = refl

  -- With one more answer to receive, and from a client in the same world.
  Heard-more :
      {A : Type 0} (c d : Client W) (next : Result Bytes Bytes) (rest : List (Result Bytes Bytes))
      (o : Option (Reply W A))
      → d.world ≡ c.world
      → Every (Heard d rest) o
      → Every (Heard c (next ∷ rest)) o
  Heard-more c d next rest none e h = tt
  Heard-more c d next rest (some o) e h = record {
    world = h.world ∙ e;
    fewer = omega (arith, h.fewer);
    brought = λ b. omega (arith, h.brought b);
    left = Taken-cons next h.left;
  }

  -- A result that is not from a frame.
  unheard :
      {A : Type 0} (c d : Client W) (inbox : List (Result Bytes Bytes)) (r : Result ClientError A)
      → d.world ≡ c.world
      → length d.inbox ≤ length inbox
      → Taken inbox d.inbox
      → is_brought r ≡ false
      → Heard c inbox (r, d)
  unheard c d inbox r e le left nothing = record {
    world = e;
    fewer = le;
    brought = λ yes_it. absurd (true_not_false (sym yes_it ∙ nothing));
    left = left;
  }

module _ {W S A : Type 0} (net : Network W) (turn : ServerFrame → S → Turn S A) where
  frame-Heard :
      (t : Turn S A) (next : Result Bytes Bytes) (rest : List (Result Bytes Bytes)) (c : Client W)
      (s : S)
      → ((s' : S) → Every (Heard c rest) (listen net turn rest c s'))
      → Every (Heard c (next ∷ rest)) (elim t [
        | Turn.again s' ↦ listen net turn rest c s'
        | Turn.return r ↦ some (r, record c { inbox = rest })
      ])
  frame-Heard (Turn.again s') next rest c s more =
      Heard-more c c next rest (listen net turn rest c s') refl (more s')
  frame-Heard (Turn.return r) next rest c s more = record {
    world = refl;
    fewer = omega arith;
    brought = λ b. omega arith;
    left = Taken-cons next (Taken-refl rest);
  }

  after_arrival-Heard :
      (a : Arrival) (next : Result Bytes Bytes) (rest : List (Result Bytes Bytes)) (c : Client W)
      (s : S)
      → ((d : Client W) (s' : S) → Every (Heard d rest) (listen net turn rest d s'))
      → Every (Heard c (next ∷ rest)) (after_arrival net turn a rest c s)
  unfolding after_arrival disconnect
  after_arrival-Heard (Arrival.broken_off reason) next rest c s more =
      unheard c _ (next ∷ rest) (err (ClientError.transport reason)) refl (omega arith)
        (Taken-cons next (Taken-refl rest)) refl
  after_arrival-Heard Arrival.malformed next rest c s more =
      unheard c _ (next ∷ rest) (err (ClientError.protocol Complaint.malformed_frame)) refl
        (omega arith) (Taken-cons next (Taken-refl rest)) refl
  after_arrival-Heard (Arrival.unasked body) next rest c s more =
      Heard-more c (unsolicited body c) next rest (listen net turn rest (unsolicited body c) s)
        (world-unsolicited body c) (more (unsolicited body c) s)
  after_arrival-Heard (Arrival.frame f) next rest c s more =
      frame-Heard (turn f s) next rest c s (λ s'. more c s')

  listen-Heard :
      (inbox : List (Result Bytes Bytes)) (c : Client W) (s : S)
      → Every (Heard c inbox) (listen net turn inbox c s)
  listen-Heard [] c s = elim (Bool-cases (is_open c)) [
    | inl on ↦ rw (listen_waits net turn c s on) tt
    | inr off ↦ rw (listen_shut net turn [] c s off) (
        unheard c (record c { inbox = [] }) [] (err not_connected) refl (omega arith)
          (Taken-refl []) refl)
  ]
  listen-Heard (next ∷ rest) c s = elim (Bool-cases (is_open c)) [
    | inl on ↦
        rw (listen_open net turn next rest c s on)
          (after_arrival-Heard (arrival net next) next rest c s (λ d s'. listen-Heard rest d s'))
    | inr off ↦ rw (listen_shut net turn (next ∷ rest) c s off) (
        unheard c (record c { inbox = next ∷ rest }) (next ∷ rest) (err not_connected) refl
          (omega arith) (Taken-refl (next ∷ rest)) refl)
  ]

  pub wait-Heard : (c : Client W) (s : S) → Every (Heard c c.inbox) (wait net turn c s)
  unfolding wait
  wait-Heard c s = listen-Heard c.inbox c s
