-- ===== src/Client/Fetched.antt =====
-- When a fetch succeeds (`fetch_frames`, crates/sqlite-remote-vfs/src/client.rs).
use sqlite_remote_vfs.Base.{
  ℕ, ◌+◌, ◌≡◌, refl, sym, ◌∙◌, ap, inl, inr, true, false, Option, none, some, List, [], ◌∷◌, ◌++◌,
  if◌then◌else◌, ◌==◌, u64, arith, length, Result, ok, err, All, Bool-cases, ==→eq,
}
use sqlite_remote_vfs.Base.Bytes.{Bytes}
use sqlite_remote_vfs.Proto
use sqlite_remote_vfs.Proto.{ServerFrame, Request, Response}
use sqlite_remote_vfs.Failure.{ClientError, Complaint}
use sqlite_remote_vfs.LocalDb.{odd_block}
use sqlite_remote_vfs.Client.{Network, Client, Reply, Turn}
use sqlite_remote_vfs.Client.Listen.{
  send, wait, fetch_frames, fetch_turn, fetch_body, fetch_more, numbered,
}
use sqlite_remote_vfs.Client.Sent.{OnWire, send-OnWire}
use sqlite_remote_vfs.Client.Answers.{run, heard, listen-Listened}
use sqlite_remote_vfs.Client.Acknowledged.{run-return, run-again, some_inj}

abbrev pub Sized : ℕ → List (ℕ × Bytes) → Type 0
Sized block_size blocks = All (λ e. length e.1 ≡ block_size) blocks

-- Blocks beside their indexes: the one in the place `k` has the index `first + k`, as a `u64`.
unfoldable pub placed : ℕ → ℕ → List Bytes → List (ℕ × Bytes)
placed first k [] = []
placed first k (b ∷ bs) = (u64 (first + k), b) ∷ placed first (k + 1) bs

-- The blocks that a response carries: the first has the index that the response says, the others
-- those that follow.
unfoldable pub blocks_of : Option Response → List (ℕ × Bytes)
blocks_of (some (Response.pages pages)) = elim pages.blocks [
  | [] ↦ []
  | b ∷ bs ↦ (pages.first_block, b) ∷ placed pages.first_block 1 bs
]
blocks_of _ = []

-- The blocks that the frames of one request carry, in order.
unfoldable pub carried : ℕ → List ServerFrame → List (ℕ × Bytes)
unfolding blocks_of
carried id [] = []
carried id (f ∷ fs) =
    let rest = carried id fs in if f.request_id == id then blocks_of f.body ++ rest else rest

ok_inj : {E A : Type 0} {a b : A} → Path (Result E A) (ok a) (ok b) → a ≡ b
ok_inj e = cc

All-append : {A : Type 0} (P : A → Type 0) (xs ys : List A) → All P xs → All P ys → All P (xs ++ ys)
All-append P [] ys hx hy = hy
All-append P (x ∷ xs) ys hx hy = (hx.0, All-append P xs ys hx.1 hy)

append_assoc : {A : Type 0} (xs ys zs : List A) → (xs ++ ys) ++ zs ≡ xs ++ (ys ++ zs)
append_assoc [] ys zs = refl
append_assoc (x ∷ xs) ys zs = ap (◌∷◌ x) (append_assoc xs ys zs)

append_nil : {A : Type 0} (xs : List A) → xs ++ [] ≡ xs
append_nil [] = refl
append_nil (x ∷ xs) = ap (◌∷◌ x) (append_nil xs)

numbered-Sized :
    (block_size first : ℕ) (bs : List Bytes)
    → odd_block block_size bs ≡ none
    → Sized block_size (numbered first bs)
unfolding odd_block numbered
numbered-Sized block_size first [] h = tt
numbered-Sized block_size first (b ∷ bs) h = elim (Bool-cases (length b == block_size)) [
  | inl same ↦ (
    ==→eq (length b) block_size same,
    numbered-Sized block_size (u64 (first + 1)) bs (rw same at h),
  )
  | inr other ↦ cc (rw other at h)
]

next_index : (first k : ℕ) → u64 (u64 (first + k) + 1) ≡ u64 (first + (k + 1))
unfolding u64
next_index first k = omega arith

numbered-placed :
    (first k : ℕ) (bs : List Bytes) → numbered (u64 (first + k)) bs ≡ placed first k bs
unfolding numbered placed
numbered-placed first k [] = refl
numbered-placed first k (b ∷ bs) =
    ap (λ rest. (u64 (first + k), b) ∷ rest)
      (ap (λ n. numbered n bs) (next_index first k) ∙ numbered-placed first (k + 1) bs)

numbered-blocks_of :
    (pages : Proto.Pages) (bs : List Bytes)
    → pages.blocks ≡ bs
    → blocks_of (some (Response.pages pages)) ≡ numbered pages.first_block bs
unfolding numbered blocks_of
numbered-blocks_of pages [] e = rw e refl
numbered-blocks_of pages (b ∷ bs) e =
    rw e (ap (λ rest. (pages.first_block, b) ∷ rest) (sym (numbered-placed pages.first_block 1 bs)))

-- The ways in which a response to a fetch is taken.
data FetchBody (b : Option Response) (expected block_size : ℕ) (blocks : List (ℕ × Bytes))
    : Type 0 where
  fails :
      (e : ClientError)
      → fetch_body b expected block_size blocks ≡ Turn.return (err e)
      → FetchBody b expected block_size blocks
  goes_on :
      Sized block_size (blocks_of b)
      → fetch_body b expected block_size blocks ≡ Turn.again (blocks ++ blocks_of b)
      → FetchBody b expected block_size blocks
  ends :
      Sized block_size (blocks_of b)
      → length (blocks ++ blocks_of b) ≡ expected
      → fetch_body b expected block_size blocks ≡ Turn.return (ok (blocks ++ blocks_of b))
      → FetchBody b expected block_size blocks

fetch_more-cases :
    (odd : Option ℕ) (pages : Proto.Pages) (expected block_size : ℕ) (blocks : List (ℕ × Bytes))
    → odd_block block_size pages.blocks ≡ odd
    → FetchBody (some (Response.pages pages)) expected block_size blocks
unfolding fetch_body fetch_more blocks_of
fetch_more-cases (some n) pages expected block_size blocks e =
    fails (ClientError.protocol (Complaint.block_size_is n block_size)) (rw e refl)
fetch_more-cases none pages expected block_size blocks e =
    let same = sym (numbered-blocks_of pages pages.blocks refl) in
    let sized = rw same at (numbered-Sized block_size pages.first_block pages.blocks e) in
    elim (Bool-cases pages.last) [
      | inr more ↦ goes_on sized (rw (e, more) refl ∙ ap (λ l. Turn.again (blocks ++ l)) same)
      | inl last ↦
          elim (Bool-cases
            (length (blocks ++ numbered pages.first_block pages.blocks) == expected)) [
              | inl enough ↦
                  ends sized
                    (ap (λ l. length (blocks ++ l)) (sym same)
                      ∙ ==→eq (length (blocks ++ numbered pages.first_block pages.blocks)) expected
                          enough)
                    (rw (e, last, enough) refl ∙ ap (λ l. Turn.return (ok (blocks ++ l))) same)
              | inr other ↦
                  fails
                    (ClientError.protocol (
                      Complaint.block_count_is
                        (length (blocks ++ numbered pages.first_block pages.blocks)) expected))
                    (rw (e, last, other) refl)
            ]
    ]

FetchBody-cases :
    (b : Option Response) (expected block_size : ℕ) (blocks : List (ℕ × Bytes))
    → FetchBody b expected block_size blocks
unfolding fetch_body
FetchBody-cases none expected block_size blocks = fails _ refl
FetchBody-cases (some (Response.pages pages)) expected block_size blocks =
    fetch_more-cases (odd_block block_size pages.blocks) pages expected block_size blocks refl
FetchBody-cases (some (Response.error e)) expected block_size blocks = fails _ refl
FetchBody-cases (some (Response.commit_ack ack)) expected block_size blocks = fails _ refl
FetchBody-cases (some (Response.hello_ok x)) expected block_size blocks = fails _ refl
FetchBody-cases (some (Response.opened x)) expected block_size blocks = fails _ refl
FetchBody-cases (some (Response.pong x)) expected block_size blocks = fails _ refl
FetchBody-cases (some (Response.lease_revoked x)) expected block_size blocks = fails _ refl
FetchBody-cases (some Response.done) expected block_size blocks = fails _ refl
FetchBody-cases (some (Response.challenge x)) expected block_size blocks = fails _ refl
FetchBody-cases (some (Response.changes x)) expected block_size blocks = fails _ refl
FetchBody-cases (some (Response.slot x)) expected block_size blocks = fails _ refl

module _ (id expected block_size : ℕ) where
  fetch_turn_here :
      (f : ServerFrame) (blocks : List (ℕ × Bytes)) (t : _)
      → (f.request_id == id) ≡ true
      → fetch_body f.body expected block_size blocks ≡ t
      → fetch_turn id expected block_size f blocks ≡ t
  unfolding fetch_turn
  fetch_turn_here f blocks t mine e = rw mine e

  fetch_turn_elsewhere :
      (f : ServerFrame) (blocks : List (ℕ × Bytes))
      → (f.request_id == id) ≡ false
      → fetch_turn id expected block_size f blocks ≡ Turn.again blocks
  unfolding fetch_turn
  fetch_turn_elsewhere f blocks other = rw other refl

  carried_here :
      (f : ServerFrame) (fs : List ServerFrame)
      → (f.request_id == id) ≡ true
      → carried id (f ∷ fs) ≡ blocks_of f.body ++ carried id fs
  unfolding carried
  carried_here f fs mine = rw mine refl

  carried_elsewhere :
      (f : ServerFrame) (fs : List ServerFrame)
      → (f.request_id == id) ≡ false
      → carried id (f ∷ fs) ≡ carried id fs
  unfolding carried
  carried_elsewhere f fs other = rw other refl

  run_fetch :
      (frames : List ServerFrame) (blocks out : List (ℕ × Bytes))
      → Sized block_size blocks
      → run (fetch_turn id expected block_size) frames blocks ≡ some (ok out)
      → (out ≡ blocks ++ carried id frames) × (length out ≡ expected) × Sized block_size out
  run_fetch [] blocks out sized h = cc
  run_fetch (f ∷ fs) blocks out sized h =
      let turn = fetch_turn id expected block_size in
      elim (Bool-cases (f.request_id == id)) [
        | inr other ↦
            let skip = fetch_turn_elsewhere f blocks other in
            let (all, len, sized') =
              run_fetch fs blocks out sized (sym (run-again turn f fs blocks blocks skip) ∙ h) in
            (all ∙ ap (λ l. blocks ++ l) (sym (carried_elsewhere f fs other)), len, sized')
        | inl mine ↦ elim (FetchBody-cases f.body expected block_size blocks) [
          | fails e eq ↦
              let here = fetch_turn_here f blocks (Turn.return (err e)) mine eq in
              cc (run-return turn f fs blocks (err e) (ok out) here h).1
          | goes_on new eq ↦
              let blocks' = blocks ++ blocks_of f.body in
              let here = fetch_turn_here f blocks (Turn.again blocks') mine eq in
              let (all, len, sized') =
                run_fetch fs blocks' out
                  (All-append (λ e. length e.1 ≡ block_size) blocks (blocks_of f.body) sized new)
                  (sym (run-again turn f fs blocks blocks' here) ∙ h) in
              (
                all
                    ∙ append_assoc blocks (blocks_of f.body) (carried id fs)
                    ∙ ap (λ l. blocks ++ l) (sym (carried_here f fs mine)),
                len,
                sized',
              )
          | ends new count eq ↦
              let blocks' = blocks ++ blocks_of f.body in
              let here = fetch_turn_here f blocks (Turn.return (ok blocks')) mine eq in
              let (nothing_more, result) =
                run-return turn f fs blocks (ok blocks') (ok out) here h in
              let same : blocks' ≡ out = ok_inj result in
              (
                sym same
                    ∙ ap (λ l. blocks ++ l)
                        (sym (
                          carried_here f fs mine
                          ∙ ap (λ l. blocks_of f.body ++ carried id l) nothing_more
                          ∙ (unfold carried in append_nil (blocks_of f.body)))),
                ap length (sym same) ∙ count,
                rw same at
                    (All-append (λ e. length e.1 ≡ block_size) blocks (blocks_of f.body) sized new),
              )
        ]
      ]

module _ {W : Type 0} (net : Network W) where
  -- What a successful fetch has heard.
  pub record FetchDone (c : Client W) (fetch : Proto.Fetch) (expected block_size : ℕ)
      (out : List (ℕ × Bytes)) (c' : Client W) : Type 0 where
    pub id : ℕ
    pub world : W
    pub asked : OnWire net id (Request.fetch fetch) c.world world
    pub before : List (Result Bytes Bytes)
    pub split : c.inbox ≡ before ++ c'.inbox
    pub blocks : out ≡ carried id (heard net before)
    pub count : length out ≡ expected
    pub sized : Sized block_size out

  after_asking :
      (o : Reply W ℕ) (c c' : Client W) (fetch : Proto.Fetch) (expected block_size : ℕ)
      (out : List (ℕ × Bytes))
      → send net c (Request.fetch fetch) ≡ o
      → Path
          (Option (Reply W (List (ℕ × Bytes))))
          (elim o.0 [
            | err e ↦ some (err e, o.1)
            | ok id ↦ wait net (fetch_turn id expected block_size) o.1 []
          ])
          (some (ok out, c'))
      → FetchDone c fetch expected block_size out c'
  unfolding wait
  after_asking (err e, after) c c' fetch expected block_size out s h = cc
  after_asking (ok id, after) c c' fetch expected block_size out s h =
      elim (listen-Listened net (fetch_turn id expected block_size) after.inbox after []) [
        | inl waits ↦ cc (waits, h)
        | inr (o, e, ended) ↦
            let same : o ≡ (ok out, c') = some_inj (sym e ∙ h) in
            let (_, on_wire, same_inbox) = send-OnWire net c after (Request.fetch fetch) id s in
            elim (rw same at ended) [
              | inr (lost, failed, _) ↦ cc failed
              | inl (before, split, over) ↦
                  let (blocks, count, sized) =
                    run_fetch id expected block_size (heard net before) [] out tt over in
                  record {
                    id = id;
                    world = after.world;
                    asked = on_wire;
                    before = before;
                    split = sym same_inbox ∙ split;
                    blocks = blocks;
                    count = count;
                    sized = sized;
                  }
            ]
      ]

  -- A fetch returns blocks only if their number is the one asked for and each has the block size.
  -- They are then exactly the blocks of the frames that answer this request, in order, each with
  -- its index: the place in its frame, counted from the index that the frame starts with.
  pub fetch_frames-FetchDone :
      (c c' : Client W) (fetch : Proto.Fetch) (expected block_size : ℕ) (out : List (ℕ × Bytes))
      → fetch_frames net c fetch expected block_size ≡ some (ok out, c')
      → FetchDone c fetch expected block_size out c'
  unfolding fetch_frames
  fetch_frames-FetchDone c c' fetch expected block_size out h =
      after_asking (send net c (Request.fetch fetch)) c c' fetch expected block_size out refl h
