-- ===== src/Client/Moves.antt =====
-- How requests change the client (crates/sqlite-remote-vfs/src/client.rs): time goes on, and answers
-- are only ever taken off the inbox.
use sqlite_remote_vfs.Base.{
  ℕ, ◌≤◌, ◌<◌, ◌≡◌, refl, sym, ◌∙◌, ap, inl, inr, Bool, true, false, not, Option, none, some, List,
  [], ◌∷◌, ◌++◌, length, Result, ok, err, Bool-cases, if_true, if_false, true_not_false, arith,
  if◌then◌else◌, u64, ◌+◌, ◌*◌, ◌&&◌,
}
use sqlite_remote_vfs.Base.Bytes.{Bytes}
use sqlite_remote_vfs.Proto
use sqlite_remote_vfs.Proto.{Request, Response}
use sqlite_remote_vfs.Failure.{ClientError, is_access_denied}
use sqlite_remote_vfs.Client.{Network, Client, ClientConfig, Reply, is_open}
use sqlite_remote_vfs.Client.Listen.{
  send, sent, call, call_turn, commit, commit_turn, send_all, wait_ack, wait, last_id,
}
use sqlite_remote_vfs.Client.Login.{
  and_then, unexpected, access_token, token_error, say_hello, challenged, welcomed, open_socket,
  transport_error, retried, log_in, reconnect, hello, proof,
}
use sqlite_remote_vfs.Client.Answers.{is_server}
use sqlite_remote_vfs.Client.Heard.{
  Taken, Taken-refl, Taken-trans, Every, Heard, is_brought, wait-Heard,
}

-- That no call of the network or of the token source leads back in a preorder on the world, such as
-- that of the clock.
pub record Forward {W : Type 0} (net : Network W) (later : W → W → Type 0) : Type 0 where
  pub still : (w : W) → later w w
  pub then_on : (u v w : W) → later u v → later v w → later u w
  pub at_send : (w : W) (bytes : Bytes) → later w (net.send_bytes w bytes).1
  pub at_reopen : (w : W) → later w (net.reopen w).1
  pub at_dial : (w : W) → later w (net.dial w).1
  pub at_login : (w : W) (interval : ℕ) → later w (net.logged_in w interval)
  pub at_token : (w : W) → later w (net.token w).1

-- Where nothing is known of the clock.
pub any_time : {W : Type 0} (net : Network W) → Forward net (λ u v. Unit {0})
any_time net = record {
  still = λ w. tt;
  then_on = λ u v w a b. tt;
  at_send = λ w bytes. tt;
  at_reopen = λ w. tt;
  at_dial = λ w. tt;
  at_login = λ w interval. tt;
  at_token = λ w. tt;
}

module _ {W : Type 0} {net : Network W} {R : W → W → Type 0} (forward : Forward net R) where
  -- Time has gone on, and no answers have come to the inbox.
  pub record Moves (c c' : Client W) : Type 0 where
    pub later : R c.world c'.world
    pub fewer : length c'.inbox ≤ length c.inbox
    pub left : Taken c.inbox c'.inbox

  -- A reply, where a result that a frame has brought took it off the inbox.
  pub record Received {A : Type 0} (c : Client W) (o : Reply W A) : Type 0 where
    pub moves : Moves c o.1
    pub brought : is_brought o.0 ≡ true → length o.1.inbox < length c.inbox

  pub Moves-refl : (c : Client W) → Moves c c
  Moves-refl c = record {
    later = forward.still c.world;
    fewer = omega arith;
    left = Taken-refl c.inbox;
  }

  pub Moves-trans : {a b c : Client W} → Moves a b → Moves b c → Moves a c
  Moves-trans {a} {b} {c} s t = record {
    later = forward.then_on a.world b.world c.world s.later t.later;
    fewer = omega (arith, s.fewer, t.fewer);
    left = Taken-trans s.left t.left;
  }

  abbrev pub Went : {A : Type 0} → Client W → Option (Reply W A) → Type 0
  Went c o = Every (λ x. Moves c x.1) o

  later-Went :
      {A : Type 0} (c d : Client W) (o : Option (Reply W A)) → Moves c d → Went d o → Went c o
  later-Went c d none m h = tt
  later-Went c d (some o) m h = Moves-trans m h

  and_then-Went :
      {A B : Type 0} (c : Client W) (o : Option (Reply W A))
      (next : A → Client W → Option (Reply W B))
      → Went c o
      → ((a : A) (d : Client W) → Went d (next a d))
      → Went c (and_then o next)
  unfolding and_then
  and_then-Went c none next h after = tt
  and_then-Went c (some (err e, d)) next h after = h
  and_then-Went c (some (ok a, d)) next h after = later-Went c d (next a d) h (after a d)

  Received-later :
      {A : Type 0} (c d : Client W) (o : Option (Reply W A))
      → Moves c d
      → Every (Received d) o
      → Every (Received c) o
  Received-later c d none m h = tt
  Received-later c d (some o) m h = record {
    moves = Moves-trans m h.moves;
    brought = λ b. omega (arith, m.fewer, h.brought b);
  }

  Went-of : {A : Type 0} (c : Client W) (o : Option (Reply W A)) → Every (Received c) o → Went c o
  Went-of c none h = tt
  Went-of c (some o) h = h.moves

  Received-of :
      {A : Type 0} (c : Client W) (o : Option (Reply W A))
      → Every (Heard c c.inbox) o
      → Every (Received c) o
  Received-of c none h = tt
  Received-of c (some o) h = record {
    moves = record { later = rw h.world (forward.still c.world); fewer = h.fewer; left = h.left };
    brought = h.brought;
  }

  -- An error in sending a request is none of the server's.
  abbrev Unsent : {A : Type 0} → Client W → Reply W A → Type 0
  Unsent c (ok a, d) = Moves c d
  Unsent c (err e, d) = Moves c d × (is_server e ≡ false)

  sent-Unsent :
      (r : Result Bytes (Unit {0})) (c d : Client W) (id : ℕ)
      → Moves c d
      → Unsent c (sent net r d id)
  unfolding sent
  sent-Unsent (ok u) c d id m = record { later = m.later; fewer = m.fewer; left = m.left }
  sent-Unsent (err reason) c d id m =
      (record { later = m.later; fewer = m.fewer; left = m.left }, refl)

  send-Unsent : (c : Client W) (body : Request) → Unsent c (send net c body)
  unfolding send
  send-Unsent c body = elim (Bool-cases (is_open c)) [
    | inr off ↦ rw (if_true (not (is_open c)) _ _ (ap not off)) (Moves-refl c, refl)
    | inl on ↦
        let id = u64 (c.next_id + 1) in
        let bytes = net.encode (record { request_id = id; body = body }) in
        let (r, w) = net.send_bytes c.world bytes in
        rw (if_false (not (is_open c)) _ _ (ap not on)) (
          sent-Unsent r c (record c { world = w }) id
            (record {
              later = forward.at_send c.world bytes;
              fewer = omega arith;
              left = Taken-refl c.inbox;
            }))
  ]

  -- What follows a request that was sent is what was heard.
  Unsent-Received :
      {A B : Type 0} (c : Client W) (o : Reply W A) (next : A → Client W → Option (Reply W B))
      → Unsent c o
      → ((a : A) (d : Client W) → Every (Heard d d.inbox) (next a d))
      → Every (Received c) (elim o.0 [ err e ↦ some (err e, o.1) | ok a ↦ next a o.1 ])
  Unsent-Received c (err e, d) next h after = record {
    moves = h.0;
    brought = λ b. absurd (true_not_false (sym b ∙ h.1));
  }
  Unsent-Received c (ok a, d) next h after =
      Received-later c d (next a d) h (Received-of d (next a d) (after a d))

  pub call-Received : (c : Client W) (body : Request) → Every (Received c) (call net c body)
  unfolding call
  call-Received c body =
      Unsent-Received c (send net c body) (λ id d. wait net (call_turn id) d tt)
        (send-Unsent c body) (λ id d. wait-Heard net (call_turn id) d tt)

  strictly :
      {A : Type 0} (c d : Client W) (o : Option (Reply W A))
      → Moves c d
      → length d.inbox < length c.inbox
      → Went d o
      → Every (Received c) o
  strictly c d none m lt h = tt
  strictly c d (some o) m lt h = record {
    moves = Moves-trans m h;
    brought = λ b. omega (arith, h.fewer, lt);
  }

  Received-then :
      {A B : Type 0} (c : Client W) (o : Option (Reply W A))
      (next : A → Client W → Option (Reply W B))
      → Every (Received c) o
      → ((a : A) (d : Client W) → Went d (next a d))
      → Every (Received c) (and_then o next)
  unfolding and_then
  Received-then c none next h after = tt
  Received-then c (some (err e, d)) next h after = record { moves = h.moves; brought = h.brought }
  Received-then c (some (ok a, d)) next h after =
      strictly c d (next a d) h.moves (h.brought refl) (after a d)

  Unsent-later : {A : Type 0} (c d : Client W) (o : Reply W A) → Moves c d → Unsent d o → Unsent c o
  Unsent-later c d (ok a, x) m h = Moves-trans m h
  Unsent-later c d (err e, x) m h = (Moves-trans m h.0, h.1)

  sent_then :
      {A B : Type 0} (c : Client W) (o : Reply W A) (next : A → Client W → Reply W B)
      → Unsent c o
      → ((a : A) (d : Client W) → Unsent d (next a d))
      → Unsent c (elim o.0 [ err e ↦ (err e, o.1) | ok a ↦ next a o.1 ])
  sent_then c (err e, d) next h after = h
  sent_then c (ok a, d) next h after = Unsent-later c d (next a d) h (after a d)

  send_all-Unsent :
      (c : Client W) (parts : List Proto.Commit) (ids : List ℕ)
      → Unsent c (send_all net c parts ids)
  unfolding send_all
  send_all-Unsent c [] ids = Moves-refl c
  send_all-Unsent c (part ∷ parts) ids =
      sent_then c (send net c (Request.commit part))
        (λ id d. send_all net d parts (ids ++ (id ∷ []))) (send-Unsent c (Request.commit part))
        (λ id d. send_all-Unsent d parts (ids ++ (id ∷ [])))

  wait_ack-Received :
      (last : Option ℕ) (c : Client W) (ids : List ℕ) → Every (Received c) (wait_ack net last c ids)
  unfolding wait_ack
  wait_ack-Received none c ids = record {
    moves = Moves-refl c;
    brought = λ b. absurd (true_not_false (sym b));
  }
  wait_ack-Received (some last) c ids =
      Received-of c _ (wait-Heard net (commit_turn ids last) c none)

  Unsent-then :
      {A B : Type 0} (c : Client W) (o : Reply W A) (next : A → Client W → Option (Reply W B))
      → Unsent c o
      → ((a : A) (d : Client W) → Every (Received d) (next a d))
      → Every (Received c) (elim o.0 [ err e ↦ some (err e, o.1) | ok a ↦ next a o.1 ])
  Unsent-then c (err e, d) next h after = record {
    moves = h.0;
    brought = λ b. absurd (true_not_false (sym b ∙ h.1));
  }
  Unsent-then c (ok a, d) next h after = Received-later c d (next a d) h (after a d)

  pub commit-Received :
      (c : Client W) (parts : List Proto.Commit) → Every (Received c) (commit net c parts)
  unfolding commit
  commit-Received c parts =
      Unsent-then c (send_all net c parts []) (λ ids d. wait_ack net (last_id ids) d ids)
        (send_all-Unsent c parts []) (λ ids d. wait_ack-Received (last_id ids) d ids)

  token_error-Went :
      (r : Result Bytes Bytes) (c d : Client W) → Moves c d → Went c (token_error r d)
  unfolding token_error
  token_error-Went (ok token) c d m = m
  token_error-Went (err reason) c d m = m

  access_token-Went : (c : Client W) → Went c (access_token net c)
  unfolding access_token
  access_token-Went c = elim (Bool-cases c.config.has_token) [
    | inl has ↦
        let (r, w) = net.token c.world in
        rw (if_true c.config.has_token _ _ has) (
          token_error-Went r c (record c { world = w })
            (record {
              later = forward.at_token c.world;
              fewer = omega arith;
              left = Taken-refl c.inbox;
            }))
    | inr without ↦ rw (if_false c.config.has_token _ _ without) (Moves-refl c)
  ]

  logged_in_later :
      (has : Bool) (w : W) (interval : ℕ) → R w (if has then net.logged_in w interval else w)
  logged_in_later true w interval = forward.at_login w interval
  logged_in_later false w interval = forward.still w

  welcomed-Went :
      (config : ClientConfig) (r : Response) (c : Client W) → Went c (welcomed net config r c)
  unfolding welcomed unexpected
  welcomed-Went config (Response.hello_ok welcome) c = record {
    later = logged_in_later c.has_socket c.world (welcome.ping_interval_ms * 1000000);
    fewer = omega arith;
    left = Taken-refl c.inbox;
  }
  welcomed-Went config (Response.opened x) c = Moves-refl c
  welcomed-Went config (Response.pages x) c = Moves-refl c
  welcomed-Went config (Response.commit_ack x) c = Moves-refl c
  welcomed-Went config (Response.pong x) c = Moves-refl c
  welcomed-Went config (Response.lease_revoked x) c = Moves-refl c
  welcomed-Went config (Response.error x) c = Moves-refl c
  welcomed-Went config Response.done c = Moves-refl c
  welcomed-Went config (Response.challenge x) c = Moves-refl c
  welcomed-Went config (Response.changes x) c = Moves-refl c
  welcomed-Went config (Response.slot x) c = Moves-refl c

  call-Went : (c : Client W) (body : Request) → Went c (call net c body)
  call-Went c body = Went-of c (call net c body) (call-Received c body)

  challenged-Went :
      (config : ClientConfig) (r : Response) (c : Client W) → Went c (challenged net config r c)
  unfolding challenged unexpected
  challenged-Went config (Response.challenge x) c =
      and_then-Went c (call net c (proof net config x)) (welcomed net config)
        (call-Went c (proof net config x)) (welcomed-Went config)
  challenged-Went config (Response.hello_ok x) c = Moves-refl c
  challenged-Went config (Response.opened x) c = Moves-refl c
  challenged-Went config (Response.pages x) c = Moves-refl c
  challenged-Went config (Response.commit_ack x) c = Moves-refl c
  challenged-Went config (Response.pong x) c = Moves-refl c
  challenged-Went config (Response.lease_revoked x) c = Moves-refl c
  challenged-Went config (Response.error x) c = Moves-refl c
  challenged-Went config Response.done c = Moves-refl c
  challenged-Went config (Response.changes x) c = Moves-refl c
  challenged-Went config (Response.slot x) c = Moves-refl c

  say_hello-Went : (c : Client W) → Went c (say_hello net c)
  unfolding say_hello
  say_hello-Went c = and_then-Went c (access_token net c) _ (access_token-Went c) (λ token d.
      and_then-Went d (call net d (hello net d token)) (challenged net c.config)
        (call-Went d (hello net d token)) (challenged-Went c.config))

  transport_error-Went :
      (r : Result Bytes (Unit {0})) (c d : Client W) → Moves c d → Went c (transport_error r d)
  unfolding transport_error
  transport_error-Went (ok u) c d m = m
  transport_error-Went (err reason) c d m = m

  dialled-Moves :
      (c : Client W) → R c.world (if c.has_socket then net.reopen c.world else net.dial c.world).1
  dialled-Moves c = elim (Bool-cases c.has_socket) [
    | inl has ↦ rw has (forward.at_reopen c.world)
    | inr without ↦ rw without (forward.at_dial c.world)
  ]

  open_socket-Went : (c : Client W) → Went c (open_socket net c)
  unfolding open_socket
  open_socket-Went c =
      let o = if c.has_socket then net.reopen c.world else net.dial c.world in
      and_then-Went c (transport_error o.0 (record c { world = o.1 })) _
        (transport_error-Went o.0 c (record c { world = o.1 })
          (record { later = dialled-Moves c; fewer = omega arith; left = Taken-refl c.inbox }))
        (λ u d. record {
          later = forward.still d.world;
          fewer = omega arith;
          left = Taken-refl d.inbox;
        })

  second_try :
      (again : Bool) (e : ClientError) (c d : Client W)
      → Moves c d
      → Went c (elim again [
        | false ↦ some (err e, d)
        | true ↦ and_then (open_socket net d) (λ u x. say_hello net x)
      ])
  second_try false e c d m = m
  second_try true e c d m =
      later-Went c d (and_then (open_socket net d) (λ u x. say_hello net x)) m (
        and_then-Went d (open_socket net d) (λ u x. say_hello net x) (open_socket-Went d)
          (λ u x. say_hello-Went x))

  retried-Went :
      (c : Client W) (o : Option (Reply W (Unit {0}))) → Went c o → Went c (retried net o)
  unfolding retried
  retried-Went c none h = tt
  retried-Went c (some (ok u, d)) h = h
  retried-Went c (some (err e, d)) h = second_try (is_access_denied e && d.config.has_token) e c d h

  pub reconnect-Went : (c : Client W) → Went c (reconnect net c)
  unfolding reconnect log_in
  reconnect-Went c =
      and_then-Went c (open_socket net c) _ (open_socket-Went c)
        (λ u d. retried-Went d (say_hello net d) (say_hello-Went d))

  -- A request whose response is checked.
  pub called-Received :
      {B : Type 0} (c : Client W) (body : Request) (next : Response → Client W → Option (Reply W B))
      → ((a : Response) (d : Client W) → Went d (next a d))
      → Every (Received c) (and_then (call net c body) next)
  called-Received c body next after =
      Received-then c (call net c body) next (call-Received c body) after
