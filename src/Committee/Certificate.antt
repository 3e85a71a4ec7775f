-- ===== src/Committee/Certificate.antt =====
-- consensus_hardening.go: VerifyCertificate. The two BLS verifiers are parameters; the flags are
-- fields of a record.
use jmdn.Base.{
  ℕ, ◌+◌, Bool, false, ◌&&◌, ◌||◌, not, Option, none, some, String, List, [], ◌∷◌, Dict, get,
  member, length, leb, str_eq, if◌then◌else◌,
}
use jmdn.Quorum.{byzantine_quorum}
use jmdn.Committee.Text.{normalize_bls_pub}
use jmdn.Committee.Eligibility.{CommitteeError, Node, refused, members, eligible_members}

-- BLS_Signer.BLSresponse
pub record BlsResponse : Type 0 where
  pub peer_id : String
  pub pub_key : String
  pub agree : Bool
  pub signature : String

-- BLS_Verifier.VerifyForBlock(r, chain, height, hash, vote) and Verify(r, vote), where a vote is +1
-- (true) or -1 (false), with the flags
pub record Rules : Type 0 where
  pub verify_for_block : BlsResponse → ℕ → String → Bool → Bool
  pub verify : BlsResponse → Bool → Bool
  pub reject_legacy_votes : Bool
  pub enforce_committee_registry : Bool

pub record CertificateResult : Type 0 where
  pub committee_size : ℕ
  pub threshold : ℕ
  pub yes_votes : ℕ
  pub reached : Bool

pub data Certificate : Type 0 where
  no_committee : CommitteeError → Certificate
  certificate : CertificateResult → Certificate

-- The maps countedPeers and countedKeys, and yes.
pub record Counted : Type 0 where
  pub counted_peers : List String
  pub counted_keys : List String
  pub yes : ℕ

unfoldable pub is_bound : Option String → String → Bool
is_bound none pub_key = false
is_bound (some bound_key) pub_key =
    str_eq bound_key "" || str_eq (normalize_bls_pub pub_key) bound_key

-- if pubKey != "" { countedKeys[pubKey] = true }
unfoldable pub add_key : String → List String → List String
add_key key ks = if str_eq key "" then ks else key ∷ ks

module _ (rules : Rules) where
  unfoldable pub is_verified : BlsResponse → String → ℕ → Bool
  is_verified r block_hash_hex height =
      rules.verify_for_block r height block_hash_hex r.agree
      || not rules.reject_legacy_votes && rules.verify r r.agree

  unfoldable pub count_response : String → ℕ → Dict String → Bool → BlsResponse → Counted → Counted
  count_response block_hash_hex height committee filter_by_membership r c =
      if not (is_verified r block_hash_hex height)
      then c
      else if filter_by_membership && not (is_bound (get committee r.peer_id) r.pub_key)
      then c
      else if not r.agree
      then c
      else if member c.counted_peers r.peer_id
          || not (str_eq (normalize_bls_pub r.pub_key) "")
            && member c.counted_keys (normalize_bls_pub r.pub_key)
      then c
      else record {
        counted_peers = r.peer_id ∷ c.counted_peers;
        counted_keys = add_key (normalize_bls_pub r.pub_key) c.counted_keys;
        yes = c.yes + 1;
      }

  unfoldable pub count_responses :
      String → ℕ → Dict String → Bool → List BlsResponse → Counted → Counted
  count_responses block_hash_hex height committee filter_by_membership [] c = c
  count_responses block_hash_hex height committee filter_by_membership (r ∷ rs) c =
      count_responses block_hash_hex height committee filter_by_membership rs
        (count_response block_hash_hex height committee filter_by_membership r c)

  unfoldable pub count_eligible_yes : List BlsResponse → String → ℕ → Dict String → Bool → ℕ
  count_eligible_yes responses block_hash_hex height committee filter_by_membership =
      (count_responses block_hash_hex height committee filter_by_membership responses
        (record { counted_peers = []; counted_keys = []; yes = 0 })).yes

  unfoldable pub certify : List BlsResponse → String → ℕ → Dict String → CertificateResult
  certify responses block_hash_hex height committee =
      let yes_votes =
        count_eligible_yes responses block_hash_hex height committee
          rules.enforce_committee_registry in
      let threshold = byzantine_quorum (length committee) in
      record {
        committee_size = length committee;
        threshold = threshold;
        yes_votes = yes_votes;
        reached = leb threshold yes_votes;
      }

  unfoldable pub verify_certificate : Node → List BlsResponse → String → ℕ → Certificate
  verify_certificate node responses block_hash_hex height = elim (eligible_members node) [
    | refused err ↦ no_committee err
    | members committee ↦ certificate (certify responses block_hash_hex height committee)
  ]
