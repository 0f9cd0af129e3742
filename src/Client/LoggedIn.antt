-- ===== src/Client/LoggedIn.antt =====
-- What a login has made sure of (`log_in`, `say_hello`, crates/sqlite-remote-vfs/src/client.rs).
use sqlite_remote_vfs.Base.{
  ℕ, ◌+◌, ◌-◌, ◌/◌, ◌≤◌, ◌<◌, min, ◌≡◌, refl, ◌∙◌, ap, ◌⊎◌, inl, inr, true, ◌&&◌, Option, none,
  some, u64, ok, err, arith, Bool-cases, ==_ne,
}
use sqlite_remote_vfs.Base.Bytes.{Bytes}
use sqlite_remote_vfs.Proto
use sqlite_remote_vfs.Proto.{Request, Response}
use sqlite_remote_vfs.Failure.{ClientError, is_access_denied}
use sqlite_remote_vfs.Client.{Network, Client, ClientConfig, Reply, token_renewal_margin}
use sqlite_remote_vfs.Identity.{wire_algorithm, login_transcript}
use sqlite_remote_vfs.Client.Listen.{call}
use sqlite_remote_vfs.Client.Called.{Called, call-Called}
use sqlite_remote_vfs.Client.Login.{
  and_then, unexpected, renewal, access_token, hello, proof, welcomed, challenged, say_hello,
  open_socket, retried, log_in,
}

-- A token that is valid for some time is renewed before it expires, not before half of that time is
-- over, and not earlier than the margin before the end.
pub renewal-bounds :
    (now ttl : ℕ)
    → 2 ≤ ttl
    → (time : ℕ) × (renewal now ttl ≡ some time)
      × (now + ttl / 2 ≤ time)
      × (time < now + ttl)
      × (now + ttl ≤ time + token_renewal_margin)
unfolding renewal
renewal-bounds now ttl h =
    rw (==_ne ttl 0 (omega arith)) (
      now + (ttl - min token_renewal_margin (ttl / 2)),
      refl,
      omega arith,
      omega arith,
      omega arith,
    )

pub and_then-ok :
    {W A B : Type 0} (o : Option (Reply W A)) (next : A → Client W → Option (Reply W B)) (b : B)
    (c' : Client W)
    → and_then o next ≡ some (ok b, c')
    → (a : A) × (c : Client W) × (o ≡ some (ok a, c)) × (next a c ≡ some (ok b, c'))
unfolding and_then
and_then-ok none next b c' h = cc
and_then-ok (some (err e, c)) next b c' h = cc
and_then-ok (some (ok a, c)) next b c' h = (a, c, refl, h)

module _ {W : Type 0} (net : Network W) where
  -- A login in one go: the frames that were put on the socket, and the server's only answers to them:
  -- to a hello with the client's key a challenge, and to the signature, with this key, of the
  -- transcript of the challenge the acceptance.
  pub record LoggedIn (c c' : Client W) : Type 0 where
    pub token : Bytes
    pub c1 : Client W
    pub has_token : access_token net c ≡ some (ok token, c1)
    pub challenge : Proto.Challenge
    pub c2 : Client W
    pub was_challenged :
        Called net c1
          (Request.hello (record {
            protocol_version = 1;
            instance_id = c1.config.instance_id;
            sig_alg = wire_algorithm c1.config.signer.algorithm;
            public_key = c1.config.signer.public_key;
            access_token = token;
          }))
          (Response.challenge challenge)
          c2
    pub welcome : Proto.HelloOk
    pub c3 : Client W
    pub was_accepted :
        Called net c2
          (Request.proof (record {
            signature = c.config.signer.sign (
                login_transcript challenge.server_id challenge.nonce c.config.instance_id
                  c.config.signer.algorithm c.config.signer.public_key);
          }))
          (Response.hello_ok welcome)
          c3
    pub limit : c'.max_frame_bytes ≡ welcome.max_frame_bytes
    pub counted : c'.logins ≡ u64 (c3.logins + 1)

  abbrev Welcome : ClientConfig → Response → Client W → Client W → Type 0
  Welcome config answer c c' =
      (welcome : Proto.HelloOk) × (answer ≡ Response.hello_ok welcome)
      × (c'.max_frame_bytes ≡ welcome.max_frame_bytes)
      × (c'.logins ≡ u64 (c.logins + 1))

  welcomed-ok :
      (config : ClientConfig) (answer : Response) (c c' : Client W)
      → welcomed net config answer c ≡ some (ok tt, c')
      → Welcome config answer c c'
  unfolding welcomed unexpected
  welcomed-ok config (Response.hello_ok welcome) c c' h = (welcome, refl, cc h, cc h)
  welcomed-ok config (Response.opened x) c c' h = cc
  welcomed-ok config (Response.pages x) c c' h = cc
  welcomed-ok config (Response.commit_ack x) c c' h = cc
  welcomed-ok config (Response.pong x) c c' h = cc
  welcomed-ok config (Response.lease_revoked x) c c' h = cc
  welcomed-ok config (Response.error x) c c' h = cc
  welcomed-ok config Response.done c c' h = cc
  welcomed-ok config (Response.challenge x) c c' h = cc
  welcomed-ok config (Response.changes x) c c' h = cc
  welcomed-ok config (Response.slot x) c c' h = cc

  abbrev Challenged : ClientConfig → Response → Client W → Client W → Type 0
  Challenged config answer c c' =
      (challenge : Proto.Challenge) × (answer ≡ Response.challenge challenge)
      × (and_then (call net c (proof net config challenge)) (welcomed net config)
          ≡ some (ok tt, c'))

  challenged-ok :
      (config : ClientConfig) (answer : Response) (c c' : Client W)
      → challenged net config answer c ≡ some (ok tt, c')
      → Challenged config answer c c'
  unfolding challenged unexpected
  challenged-ok config (Response.challenge challenge) c c' h = (challenge, refl, h)
  challenged-ok config (Response.hello_ok x) c c' h = cc
  challenged-ok config (Response.opened x) c c' h = cc
  challenged-ok config (Response.pages x) c c' h = cc
  challenged-ok config (Response.commit_ack x) c c' h = cc
  challenged-ok config (Response.pong x) c c' h = cc
  challenged-ok config (Response.lease_revoked x) c c' h = cc
  challenged-ok config (Response.error x) c c' h = cc
  challenged-ok config Response.done c c' h = cc
  challenged-ok config (Response.changes x) c c' h = cc
  challenged-ok config (Response.slot x) c c' h = cc

  say_hello-LoggedIn : (c c' : Client W) → say_hello net c ≡ some (ok tt, c') → LoggedIn c c'
  unfolding say_hello hello proof
  say_hello-LoggedIn c c' h =
      let (token, c1, has, h1) =
        and_then-ok (access_token net c)
          (λ token c1. and_then (call net c1 (hello net c1 token)) (challenged net c.config)) tt c'
          h in
      let (answer, c2, asked, h2) =
        and_then-ok (call net c1 (hello net c1 token)) (challenged net c.config) tt c' h1 in
      let (challenge, is_one, h3) = challenged-ok c.config answer c2 c' h2 in
      let (answer', c3, proved, h4) =
        and_then-ok (call net c2 (proof net c.config challenge)) (welcomed net c.config) tt c' h3 in
      let (welcome, is_ok, limit, counted) = welcomed-ok c.config answer' c3 c' h4 in
      record {
        token = token;
        c1 = c1;
        has_token = has;
        challenge = challenge;
        c2 = c2;
        was_challenged =
            call-Called net c1 c2 (hello net c1 token) (Response.challenge challenge)
              (asked ∙ ap (λ a. some (ok a, c2)) is_one);
        welcome = welcome;
        c3 = c3;
        was_accepted =
            call-Called net c2 c3 (proof net c.config challenge) (Response.hello_ok welcome)
              (proved ∙ ap (λ a. some (ok a, c3)) is_ok);
        limit = limit;
        counted = counted;
      }

  -- The second of two tries: the first one was denied, and the connection was opened anew.
  pub record Retried (c c' : Client W) : Type 0 where
    pub error : ClientError
    pub c1 : Client W
    pub first_try : say_hello net c ≡ some (err error, c1)
    pub denied : is_access_denied error ≡ true
    pub with_source : c1.config.has_token ≡ true
    pub c2 : Client W
    pub reopened : open_socket net c1 ≡ some (ok tt, c2)
    pub second_try : LoggedIn c2 c'

  retried-ok :
      (o : Option (Reply W (Unit {0}))) (c c' : Client W)
      → say_hello net c ≡ o
      → retried net o ≡ some (ok tt, c')
      → LoggedIn c c' ⊎ Retried c c'
  unfolding retried
  retried-ok none c c' e h = cc
  retried-ok (some (ok u, c1)) c c' e h = inl (say_hello-LoggedIn c c' (e ∙ h))
  retried-ok (some (err error, c1)) c c' e h =
      elim (Bool-cases (is_access_denied error && c1.config.has_token)) [
        | inr final ↦ cc (rw (final, retried) at h)
        | inl again ↦
            let (u, c2, reopened, h') =
              and_then-ok (open_socket net c1) (λ _ c2. say_hello net c2) tt c'
                (rw (again, retried) at h) in
            inr (record {
              error = error;
              c1 = c1;
              first_try = e;
              denied = ground arith;
              with_source = ground arith;
              c2 = c2;
              reopened = reopened;
              second_try = say_hello-LoggedIn c2 c' h';
            })
      ]

  -- The client is logged in only after the server has answered its hello with a challenge and has
  -- accepted its signature of the transcript of that challenge, which the client has put on the
  -- socket for it: at the first try, or, where the server denied
  -- access at the first one and there is a token source, at one second try on a new connection.
  pub log_in-LoggedIn :
      (c c' : Client W) → log_in net c ≡ some (ok tt, c') → LoggedIn c c' ⊎ Retried c c'
  unfolding log_in
  log_in-LoggedIn c c' h = retried-ok (say_hello net c) c c' refl h
