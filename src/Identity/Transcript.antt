-- ===== src/Identity/Transcript.antt =====
-- Transcripts of different logins differ (crates/sqlite-remote-vfs/src/identity.rs).
use sqlite_remote_vfs.Base.{
  ℕ, zero, suc, ◌/◌, ◌%◌, ◌<◌, ◌≡◌, refl, sym, ◌∙◌, ap, List, [], ◌∷◌, ◌++◌, length, take, drop,
  All, arith, take_append, drop_append, length-append,
}
use sqlite_remote_vfs.Base.Bytes.{Bytes, be_bytes}
use sqlite_remote_vfs.Identity.{Algorithm, u32_mod, join_parts, wire_algorithm, transcript}

length-be_bytes : (w n : ℕ) → length (be_bytes w n) ≡ w
unfolding be_bytes
length-be_bytes zero n = refl
length-be_bytes (suc w) n =
    omega
      (arith, length-append (be_bytes w (n / 256)) ((n % 256) ∷ []), length-be_bytes w (n / 256))

-- Two lists with first parts of one length are equal in both parts.
split_append :
    {A : Type 0} (xs ys us vs : List A)
    → length xs ≡ length ys
    → xs ++ us ≡ ys ++ vs
    → (xs ≡ ys) × (us ≡ vs)
split_append xs ys us vs len e = (
  sym (take_append xs us) ∙ rw len (ap (take (length ys)) e) ∙ take_append ys vs,
  sym (drop_append xs us) ∙ rw len (ap (drop (length ys)) e) ∙ drop_append ys vs,
)

last_same : {a b : ℕ} → a ∷ [] ≡ b ∷ [] → a ≡ b
last_same e = cc

-- A number that `w` bytes hold.
abbrev Fits : ℕ → ℕ → Type 0
Fits zero n = n < 1
Fits (suc w) n = Fits w (n / 256)

be_bytes-inj : (w m n : ℕ) → Fits w m → Fits w n → be_bytes w m ≡ be_bytes w n → m ≡ n
unfolding be_bytes
be_bytes-inj zero m n fm fn e = omega (arith, fm, fn)
be_bytes-inj (suc w) m n fm fn e =
    let len : length (be_bytes w (m / 256)) ≡ length (be_bytes w (n / 256)) =
      length-be_bytes w (m / 256) ∙ sym (length-be_bytes w (n / 256)) in
    let (high, low) = split_append (be_bytes w (m / 256)) (be_bytes w (n / 256)) _ _ len e in
    let high' = be_bytes-inj w (m / 256) (n / 256) fm fn high in
    let low' : m % 256 ≡ n % 256 = last_same low in omega arith

abbrev pub Short : Bytes → Type 0
Short part = length part < u32_mod

Short-prefix :
    (xs ys : Bytes)
    → Short xs
    → Short ys
    → be_bytes 4 (length xs % u32_mod) ≡ be_bytes 4 (length ys % u32_mod)
    → length xs ≡ length ys
Short-prefix xs ys sx sy e =
    let same =
      be_bytes-inj 4 (length xs % u32_mod) (length ys % u32_mod) (omega arith) (omega arith) e in
    omega arith

-- The parts can be told from their concatenation: for parts shorter than `2 ^ 32` bytes, lists of as
-- many parts with the same bytes are the same.
pub join_parts-inj :
    (xs ys : List Bytes)
    → length xs ≡ length ys
    → All Short xs
    → All Short ys
    → join_parts xs ≡ join_parts ys
    → xs ≡ ys
unfolding join_parts be_bytes
join_parts-inj [] [] len sx sy e = refl
join_parts-inj [] (y ∷ ys) len sx sy e = absurd (omega arith)
join_parts-inj (x ∷ xs) [] len sx sy e = absurd (omega arith)
join_parts-inj (x ∷ xs) (y ∷ ys) len sx sy e =
    let (prefix, rest) =
      split_append (be_bytes 4 (length x % u32_mod)) (be_bytes 4 (length y % u32_mod)) _ _
        (length-be_bytes 4 (length x % u32_mod) ∙ sym (length-be_bytes 4 (length y % u32_mod))) e in
    let (part, more) = split_append x y _ _ (Short-prefix x y sx.0 sy.0 prefix) rest in
    let tails = join_parts-inj xs ys (omega arith) sx.1 sy.1 more in cc (part, tails)

-- What a signature is for.
pub record Login : Type 0 where
  pub label : Bytes
  pub server_id : Bytes
  pub nonce : Bytes
  pub instance_id : Bytes
  pub algorithm : Algorithm
  pub public_key : Bytes

unfoldable pub transcript_of : Login → Bytes
unfolding transcript
transcript_of l = transcript l.label l.server_id l.nonce l.instance_id l.algorithm l.public_key

abbrev login_parts : Login → List Bytes
login_parts l =
    l.label
    ∷ l.server_id
    ∷ l.nonce
    ∷ l.instance_id
    ∷ be_bytes 4 (wire_algorithm l.algorithm)
    ∷ l.public_key
    ∷ []

-- The parts of variable length
abbrev pub ShortParts : Login → Type 0
ShortParts l =
    Short l.label × Short l.server_id × Short l.nonce × Short l.instance_id × Short l.public_key

algorithm_same : (a b : Algorithm) → a ≡ b
algorithm_same Algorithm.ed25519 Algorithm.ed25519 = refl

login_parts-Short : (l : Login) → ShortParts l → All Short (login_parts l)
login_parts-Short l (a, b, c, d, e) =
    (a, (b, (c, (d, (omega (arith, length-be_bytes 4 (wire_algorithm l.algorithm)), (e, tt))))))

-- Two different logins never sign the same bytes: the transcript determines the label, the server,
-- the nonce, the instance, the algorithm and the key, each shorter than `2 ^ 32` bytes. So a
-- signature for one purpose, server or challenge is none for another.
pub transcript-inj :
    (l m : Login)
    → ShortParts l
    → ShortParts m
    → transcript_of l ≡ transcript_of m
    → (l.label ≡ m.label)
      × (l.server_id ≡ m.server_id)
      × (l.nonce ≡ m.nonce)
      × (l.instance_id ≡ m.instance_id)
      × (l.algorithm ≡ m.algorithm)
      × (l.public_key ≡ m.public_key)
unfolding transcript_of transcript
transcript-inj l m sl sm e =
    let same =
      join_parts-inj (login_parts l) (login_parts m) refl (login_parts-Short l sl)
        (login_parts-Short m sm) e in
    (cc same, cc same, cc same, cc same, algorithm_same l.algorithm m.algorithm, cc same)
