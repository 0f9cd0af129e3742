-- ===== src/Identity.antt =====
-- The client's identity (crates/sqlite-remote-vfs/src/identity.rs): the transcript that is signed at
-- login, and the subject. SHA-256 and base64 (crates `sha2`, `base64`) and the signer are parameters.
pub mod Transcript
use sqlite_remote_vfs.Base.{ℕ, ◌+◌, ◌%◌, List, [], ◌∷◌, ◌++◌, length}
use sqlite_remote_vfs.Base.Bytes.{Bytes, be_bytes}

-- "sqlite-remote-auth-v1"
abbrev pub transcript_label : Bytes
transcript_label =
    115 ∷ 113 ∷ 108 ∷ 105 ∷ 116 ∷ 101 ∷ 45 ∷ 114 ∷ 101 ∷ 109 ∷ 111 ∷ 116 ∷ 101 ∷ 45 ∷ 97 ∷ 117 ∷ 116
    ∷ 104 ∷ 45 ∷ 118 ∷ 49 ∷ []

-- "sqlite-remote-subject-v1"
abbrev pub subject_label : Bytes
subject_label =
    115 ∷ 113 ∷ 108 ∷ 105 ∷ 116 ∷ 101 ∷ 45 ∷ 114 ∷ 101 ∷ 109 ∷ 111 ∷ 116 ∷ 101 ∷ 45 ∷ 115 ∷ 117 ∷ 98
    ∷ 106 ∷ 101 ∷ 99 ∷ 116 ∷ 45 ∷ 118 ∷ 49 ∷ []

pub data Algorithm : Type 0 where
  ed25519 : Algorithm

pub record Signer : Type 0 where
  pub algorithm : Algorithm
  pub public_key : Bytes
  pub sign : Bytes → Bytes

unfoldable pub wire_algorithm : Algorithm → ℕ
wire_algorithm ed25519 = 1

abbrev pub u32_mod : ℕ
u32_mod = 4294967296

-- The parts one after the other, each behind its length as a `u32`.
unfoldable pub join_parts : List Bytes → Bytes
join_parts [] = []
join_parts (part ∷ rest) = be_bytes 4 (length part % u32_mod) ++ part ++ join_parts rest

unfoldable pub transcript : Bytes → Bytes → Bytes → Bytes → Algorithm → Bytes → Bytes
unfolding join_parts wire_algorithm
transcript label server_id nonce instance_id algorithm public_key = join_parts (
    label
    ∷ server_id
    ∷ nonce
    ∷ instance_id
    ∷ be_bytes 4 (wire_algorithm algorithm)
    ∷ public_key
    ∷ [])

unfoldable pub login_transcript : Bytes → Bytes → Bytes → Algorithm → Bytes → Bytes
unfolding transcript
login_transcript = transcript transcript_label

module _ (sha256 base64 : Bytes → Bytes) where
  unfoldable pub subject_of : Algorithm → Bytes → Bytes
  unfolding transcript
  subject_of algorithm public_key =
      base64 (sha256 (transcript subject_label [] [] [] algorithm public_key))

  unfoldable pub subject : Signer → Bytes
  unfolding subject_of
  subject signer = subject_of signer.algorithm signer.public_key
