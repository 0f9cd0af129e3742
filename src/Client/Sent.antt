-- ===== src/Client/Sent.antt =====
-- What `send` puts on the socket, frame by frame (crates/sqlite-remote-vfs/src/client.rs).
use sqlite_remote_vfs.Base.{
  ℕ, ◌+◌, ◌≡◌, refl, sym, ◌∙◌, ap, inl, inr, List, [], ◌∷◌, ◌++◌, u64, Result, ok, err, Bool-cases,
}
use sqlite_remote_vfs.Base.Bytes.{Bytes}
use sqlite_remote_vfs.Proto
use sqlite_remote_vfs.Proto.{Request}
use sqlite_remote_vfs.Client.{Network, Client, Reply, is_open}
use sqlite_remote_vfs.Client.Listen.{send, sent, send_all}

pub ok_inj : {E A : Type 0} {a b : A} → Path (Result E A) (ok a) (ok b) → a ≡ b
ok_inj e = cc

append_nil : (xs : List ℕ) → xs ++ [] ≡ xs
append_nil [] = refl
append_nil (x ∷ xs) = ap (◌∷◌ x) (append_nil xs)

append_one : (xs ys : List ℕ) (x : ℕ) → (xs ++ (x ∷ [])) ++ ys ≡ xs ++ (x ∷ ys)
append_one [] ys x = refl
append_one (y ∷ xs) ys x = ap (◌∷◌ y) (append_one xs ys x)

module _ {W : Type 0} (net : Network W) where
  -- The socket has taken the frame of a request, with an id.
  abbrev pub OnWire : ℕ → Request → W → W → Type 0
  OnWire id body w w' =
      net.send_bytes w (net.encode (record { request_id = id; body = body })) ≡ (ok tt, w')

  -- The socket has taken the parts of a commit, one frame for each of them, in their order, with the
  -- ids.
  pub data AllOnWire : List Proto.Commit → List ℕ → W → W → Type 0 where
    nothing : (w : W) → AllOnWire [] [] w w
    part_first :
        (part : Proto.Commit) (parts : List Proto.Commit) (id : ℕ) (ids : List ℕ) (w v w' : W)
        → OnWire id (Request.commit part) w v
        → AllOnWire parts ids v w'
        → AllOnWire (part ∷ parts) (id ∷ ids) w w'

  sent-OnWire :
      (o : Result Bytes (Unit {0}) × W) (c c' : Client W) (body : Request) (id id' : ℕ)
      → net.send_bytes c.world (net.encode (record { request_id = id'; body = body })) ≡ o
      → sent net o.0 (record c { world = o.1 }) id' ≡ (ok id, c')
      → (id ≡ id') × OnWire id body c.world c'.world × (c'.inbox ≡ c.inbox)
  unfolding sent
  sent-OnWire (err reason, w) c c' body id id' e h = cc
  sent-OnWire (ok u, w) c c' body id id' e h =
      let same : id' ≡ id = ok_inj (ap (λ o. o.0) h) in
      let at : w ≡ c'.world = ap (λ o. o.1.world) h in
      (
        sym same,
        ap (λ i. net.send_bytes c.world (net.encode (record { request_id = i; body = body })))
              (sym same)
            ∙ (e ∙ ap (λ x. (ok tt, x)) at),
        sym (ap (λ o. o.1.inbox) h),
      )

  -- The id of a request is the next number.
  pub send-OnWire :
      (c c' : Client W) (body : Request) (id : ℕ)
      → send net c body ≡ (ok id, c')
      → (id ≡ u64 (c.next_id + 1)) × OnWire id body c.world c'.world × (c'.inbox ≡ c.inbox)
  unfolding send
  send-OnWire c c' body id h = elim (Bool-cases (is_open c)) [
    | inr off ↦ cc (rw off at h)
    | inl on ↦
        let next = u64 (c.next_id + 1) in
        sent-OnWire
          (net.send_bytes c.world (net.encode (record { request_id = next; body = body }))) c c'
          body id next refl (rw on at h)
  ]

  -- What the parts that were sent add to the ids.
  pub record Added (before ids : List ℕ) (parts : List Proto.Commit) (c c' : Client W)
      : Type 0 where
    pub new : List ℕ
    pub joined : ids ≡ before ++ new
    pub on_wire : AllOnWire parts new c.world c'.world
    pub same_inbox : c'.inbox ≡ c.inbox

  send_all-first :
      (o : Reply W ℕ) (c c' : Client W) (part : Proto.Commit) (parts : List Proto.Commit)
      (before ids : List ℕ)
      → send net c (Request.commit part) ≡ o
      → Path
          (Reply W (List ℕ))
          (elim o.0 [ err e ↦ (err e, o.1) | ok id ↦ send_all net o.1 parts (before ++ (id ∷ [])) ])
          (ok ids, c')
      → (id : ℕ) × (d : Client W) × (send net c (Request.commit part) ≡ (ok id, d))
        × (send_all net d parts (before ++ (id ∷ [])) ≡ (ok ids, c'))
  send_all-first (err e, d) c c' part parts before ids s h = cc
  send_all-first (ok id, d) c c' part parts before ids s h = (id, d, s, h)

  pub send_all-Added :
      (c c' : Client W) (parts : List Proto.Commit) (before ids : List ℕ)
      → send_all net c parts before ≡ (ok ids, c')
      → Added before ids parts c c'
  unfolding send_all
  send_all-Added c c' [] before ids h =
      let at : c.world ≡ c'.world = ap (λ o. o.1.world) h in
      let same : before ≡ ids = ok_inj (ap (λ o. o.0) h) in
      record {
        new = [];
        joined = sym same ∙ sym (append_nil before);
        on_wire = rw (sym at) (nothing c.world);
        same_inbox = sym (ap (λ o. o.1.inbox) h);
      }
  send_all-Added c c' (part ∷ parts) before ids h =
      let (id, d, first, rest) =
        send_all-first (send net c (Request.commit part)) c c' part parts before ids refl h in
      let more = send_all-Added d c' parts (before ++ (id ∷ [])) ids rest in
      let (_, on_wire, same_inbox) = send-OnWire c d (Request.commit part) id first in
      record {
        new = id ∷ more.new;
        joined = more.joined ∙ append_one before more.new id;
        on_wire = part_first part parts id more.new c.world d.world c'.world on_wire more.on_wire;
        same_inbox = more.same_inbox ∙ same_inbox;
      }
