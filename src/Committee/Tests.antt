-- ===== src/Committee/Tests.antt =====
-- Runs of the committee's rules, and the theorems at concrete inputs.
use jmdn.Base.{
  ◌<◌, ◌≤◌, ◌≡◌, ◌⊎◌, refl, true, false, ◌&&◌, not, some, String, List, [], ◌∷◌, keys, member,
  length, count_by, str_eq, arith, get, put, sort_strings, insert_string, All, IsDistinct, Dict,
}
use jmdn.Quorum.{byzantine_tolerance, byzantine_quorum}
use jmdn.Committee.Text.{
  normalize_bls_pub, is_space, lower_char, to_lower, trim_0x, trim_space, trim_left, trim_right,
}
use jmdn.Committee.Eligibility.{
  answer_members, after_blocklist, admit_all, admit, trim_ids, cap_members, pick, key_matches, Node,
  members, buddies, eligible_members, key_authorized, committee_size_limit, blocked_buddies,
}
use jmdn.Committee.Certificate.{
  BlsResponse, Rules, certificate, CertificateResult, verify_certificate, certify, count_responses,
  count_response, is_verified, is_bound, add_key, count_eligible_yes,
}
use jmdn.Committee.Laws.{
  voted, certificates_share_honest_voter, one_key_counts_once, eligible_members-IsCapped, MayVote,
}

abbrev node : Node
node = record {
  source = some (
      buddies (
        (" a ", "0xAB")
        ∷ (("b", "") ∷ (("c", "cd") ∷ (("bad", "ee") ∷ (("d", "dd") ∷ (("e", "") ∷ [])))))));
  settings = record { is_loaded = true; block_buddy = "bad" ∷ []; max_validators = 4 };
}

abbrev committee : Dict String
committee = ("d", "dd") ∷ (("c", "cd") ∷ (("b", "") ∷ (("a", "ab") ∷ [])))

node-members : eligible_members node ≡ members committee
unfolding eligible_members answer_members after_blocklist admit_all admit member blocked_buddies
    trim_ids put get cap_members committee_size_limit pick sort_strings insert_string
    normalize_bls_pub is_space lower_char to_lower trim_0x trim_space trim_left trim_right
node-members = refl

a-authorized : key_authorized node "a" " 0xaB " ≡ true
unfolding key_authorized key_matches eligible_members answer_members after_blocklist admit_all admit
    member blocked_buddies trim_ids put get cap_members committee_size_limit pick sort_strings
    insert_string normalize_bls_pub is_space lower_char to_lower trim_0x trim_space trim_left
    trim_right
a-authorized = refl

abbrev rules : Rules
rules = record {
  verify_for_block = λ r height hash vote. str_eq r.signature hash && vote;
  verify = λ r vote. false;
  reject_legacy_votes = true;
  enforce_committee_registry = true;
}

abbrev vote : String → String → String → BlsResponse
vote peer key hash = record { peer_id = peer; pub_key = key; agree = true; signature = hash }

abbrev votes_x : List BlsResponse
votes_x = vote "a" "ab" "x" ∷ (vote "b" "b0" "x" ∷ (vote "bad" "ee" "x" ∷ (vote "c" "CD" "x" ∷ [])))

abbrev votes_y : List BlsResponse
votes_y = vote "d" "dd" "y" ∷ (vote "b" "b0" "y" ∷ (vote "c" "cd" "y" ∷ []))

abbrev three_of_four : CertificateResult
three_of_four = record { committee_size = 4; threshold = 3; yes_votes = 3; reached = true }

votes_x-certificate : verify_certificate rules node votes_x "x" 7 ≡ certificate three_of_four
unfolding verify_certificate certify count_eligible_yes count_responses count_response is_verified
    is_bound add_key member get byzantine_quorum normalize_bls_pub is_space lower_char to_lower
    trim_0x trim_space trim_left trim_right
votes_x-certificate = rw (verify_certificate, node-members) refl

votes_y-certificate : verify_certificate rules node votes_y "y" 7 ≡ certificate three_of_four
unfolding verify_certificate certify count_eligible_yes count_responses count_response is_verified
    is_bound add_key member get byzantine_quorum normalize_bls_pub is_space lower_char to_lower
    trim_0x trim_space trim_left trim_right
votes_y-certificate = rw (verify_certificate, node-members) refl

one_faulty :
    count_by (λ k. str_eq k "c") (keys committee) ≤ byzantine_tolerance (length (keys committee))
unfolding byzantine_tolerance
one_faulty = omega arith

certificates_share_honest_voter_example :
    0
    < count_by
        (λ k. (voted rules "x" 7 votes_x k && voted rules "y" 7 votes_y k) && not (str_eq k "c"))
        (keys committee)
certificates_share_honest_voter_example =
    certificates_share_honest_voter rules node committee (λ k. str_eq k "c") votes_x votes_y "x" "y"
      7 7 three_of_four three_of_four refl node-members one_faulty votes_x-certificate
      votes_y-certificate refl refl

one_key_counts_once_example :
    count_eligible_yes rules (vote "a" "0xAB" "x" ∷ (vote "b" " ab" "x" ∷ [])) "x" 7 committee true
    ≤ 1
one_key_counts_once_example =
    one_key_counts_once rules "x" 7 committee true "ab"
      (vote "a" "0xAB" "x" ∷ (vote "b" " ab" "x" ∷ [])) refl
      (unfold normalize_bls_pub is_space lower_char to_lower trim_0x trim_space trim_left
          trim_right in
        (refl, (refl, tt)))

eligible_members-IsCapped_example :
    (IsDistinct (keys committee)
      × All (λ (e : String × String). MayVote (blocked_buddies node.settings) e.0) committee)
    × ((0 < length committee)
        × ((committee_size_limit node.settings ≡ 0)
            ⊎ (length committee ≤ committee_size_limit node.settings)))
eligible_members-IsCapped_example = eligible_members-IsCapped node committee node-members
