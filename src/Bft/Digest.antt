-- ===== src/Bft/Digest.antt =====
-- security_helpers.go: the byte strings that PREPARE and COMMIT messages are signed over. SHA-256
-- and Ed25519 are parameters.
use Prim.Native.Char.{code}
use jmdn.Base.{ℕ, ◌+◌, ◌/◌, ◌%◌, Bool, String, [], ◌∷◌, ◌++◌, ltb, be64, if◌then◌else◌}
use jmdn.Bft.{Bytes, PrepareMessage, CommitMessage}

-- crypto/sha256 and crypto/ed25519: `sign private_key digest`, `verify public_key digest signature`.
pub record Crypto : Type 0 where
  pub sha256 : Bytes → Bytes
  pub sign : Bytes → Bytes → Bytes
  pub verify : Bytes → Bytes → Bytes → Bool

-- []byte(s): the UTF-8 of one code point
abbrev utf8 : ℕ → Bytes
utf8 c =
    if ltb c 0x80
    then c ∷ []
    else if ltb c 0x800
    then (0xc0 + c / 64) ∷ (0x80 + c % 64) ∷ []
    else if ltb c 0x10000
    then (0xe0 + c / 4096) ∷ (0x80 + c / 64 % 64) ∷ (0x80 + c % 64) ∷ []
    else (0xf0 + c / 262144) ∷ (0x80 + c / 4096 % 64) ∷ (0x80 + c / 64 % 64) ∷ (0x80 + c % 64) ∷ []

unfoldable pub bytes : String → Bytes
bytes String.[] = []
bytes (String.◌∷◌ c s) = utf8 (code c) ++ bytes s

unfoldable pub prepare_payload : PrepareMessage → Bytes
prepare_payload msg =
    bytes msg.version
    ++ (be64 msg.seq
        ++ (be64 msg.round
            ++ (bytes msg.block_hash
                ++ (bytes msg.buddy_id ++ (bytes msg.decision ++ be64 msg.timestamp)))))

unfoldable pub commit_payload : CommitMessage → Bytes
commit_payload msg =
    bytes msg.version
    ++ (be64 msg.seq
        ++ (be64 msg.round
            ++ (bytes msg.block_hash
                ++ (bytes msg.buddy_id ++ (bytes msg.decision ++ be64 msg.timestamp)))))

-- DigestPrepare
unfoldable pub digest_prepare : Crypto → PrepareMessage → Bytes
digest_prepare c msg = c.sha256 (prepare_payload msg)

-- DigestCommit
unfoldable pub digest_commit : Crypto → CommitMessage → Bytes
digest_commit c msg = c.sha256 (commit_payload msg)
