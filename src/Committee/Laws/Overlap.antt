-- ===== src/Committee/Laws/Overlap.antt =====
-- Two certificates of one committee.
use jmdn.Base.{
  ℕ, ◌≤◌, ◌<◌, ◌≡◌, Bool, true, ◌&&◌, not, String, List, [], ◌∷◌, Dict, keys, length, count_by,
  count_by-le-length, ap, ◌∙◌, leb→le, arith,
}
use mathlib.Core.Path.{subst}
use jmdn.Quorum.{byzantine_quorum, bft_threshold, byzantine_tolerance}
use jmdn.Quorum.Overlap.{quorum_honest_overlap}
use jmdn.Committee.Eligibility.{Node, members, eligible_members}
use jmdn.Committee.Certificate.{
  BlsResponse, Rules, certificate, CertificateResult, count_eligible_yes, certify,
  verify_certificate,
}
use jmdn.Committee.Laws.Voting.{voted, count_eligible_yes-le}

length-keys {ℓ} : {V : Type ℓ} (m : Dict V) → length (keys m) ≡ length m
length-keys [] = omega arith
length-keys ((k, v) ∷ m) = omega (arith, length-keys m)

-- The certificate that a committee gives.
certified :
    (rules : Rules) (node : Node) (committee : Dict String) (rs : List BlsResponse)
    (block_hash_hex : String) (height : ℕ) (res : CertificateResult)
    → eligible_members node ≡ members committee
    → verify_certificate rules node rs block_hash_hex height ≡ certificate res
    → certify rules rs block_hash_hex height committee ≡ res
unfolding verify_certificate
certified rules node committee rs block_hash_hex height res e h = grind (arith, e, h)

le-of_reached :
    (rules : Rules) (rs : List BlsResponse) (block_hash_hex : String) (height : ℕ)
    (committee : Dict String)
    → rules.enforce_committee_registry ≡ true
    → byzantine_quorum (length committee)
      ≤ count_eligible_yes rules rs block_hash_hex height committee rules.enforce_committee_registry
    → byzantine_quorum (length committee)
      ≤ count_by (voted rules block_hash_hex height rs) (keys committee)
le-of_reached rules rs block_hash_hex height committee f h = omega (
  arith,
  subst
      (λ b.
        byzantine_quorum (length committee)
        ≤ count_eligible_yes rules rs block_hash_hex height committee b)
      f h,
  count_eligible_yes-le rules block_hash_hex height committee rs,
)

certify-reached :
    (rules : Rules) (rs : List BlsResponse) (block_hash_hex : String) (height : ℕ)
    (committee : Dict String)
    → rules.enforce_committee_registry ≡ true
    → (certify rules rs block_hash_hex height committee).reached ≡ true
    → byzantine_quorum (length committee)
      ≤ count_by (voted rules block_hash_hex height rs) (keys committee)
unfolding certify
certify-reached rules rs block_hash_hex height committee f h =
    le-of_reached rules rs block_hash_hex height committee f (
      leb→le (byzantine_quorum (length committee))
        (count_eligible_yes rules rs block_hash_hex height committee
          rules.enforce_committee_registry)
        h)

-- The quorum as a threshold over the keys of the committee, which has a member.
quorum-keys :
    (committee : Dict String) (p : String → Bool)
    → byzantine_quorum (length committee) ≤ count_by p (keys committee)
    → (0 < length (keys committee))
      × (bft_threshold (length (keys committee)) ≤ count_by p (keys committee))
unfolding byzantine_quorum bft_threshold
quorum-keys committee p h =
    ground (arith, length-keys committee, count_by-le-length p (keys committee))

-- When the registry is enforced and no more members of the committee are faulty than it tolerates,
-- two certificates that reach their threshold, for any two blocks and heights, share a member of
-- the committee that is not faulty and whose verified yes vote is in both lists of responses.
pub certificates_share_honest_voter :
    (rules : Rules) (node : Node) (committee : Dict String) (faulty : String → Bool)
    (rs1 rs2 : List BlsResponse) (hash1 hash2 : String) (height1 height2 : ℕ)
    (res1 res2 : CertificateResult)
    → rules.enforce_committee_registry ≡ true
    → eligible_members node ≡ members committee
    → count_by faulty (keys committee) ≤ byzantine_tolerance (length (keys committee))
    → verify_certificate rules node rs1 hash1 height1 ≡ certificate res1
    → verify_certificate rules node rs2 hash2 height2 ≡ certificate res2
    → res1.reached ≡ true
    → res2.reached ≡ true
    → 0
      < count_by
          (λ k.
            (voted rules hash1 height1 rs1 k && voted rules hash2 height2 rs2 k) && not (faulty k))
          (keys committee)
certificates_share_honest_voter rules node committee faulty rs1 rs2 hash1 hash2 height1 height2 res1
      res2 f e t v1 v2 r1 r2 =
    let q1 = quorum-keys committee (voted rules hash1 height1 rs1) (
      certify-reached rules rs1 hash1 height1 committee f (
        ap (λ (c : CertificateResult). c.reached)
          (certified rules node committee rs1 hash1 height1 res1 e v1)
        ∙ r1)) in
    let q2 = quorum-keys committee (voted rules hash2 height2 rs2) (
      certify-reached rules rs2 hash2 height2 committee f (
        ap (λ (c : CertificateResult). c.reached)
          (certified rules node committee rs2 hash2 height2 res2 e v2)
        ∙ r2)) in
    quorum_honest_overlap faulty (voted rules hash1 height1 rs1) (voted rules hash2 height2 rs2)
      (keys committee) q1.0 t q1.1 q2.1
