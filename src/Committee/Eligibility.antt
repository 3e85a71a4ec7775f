-- ===== src/Committee/Eligibility.antt =====
-- consensus_hardening.go: eligibleMembers. The source of the committee and the settings are fields
-- of a record; the log lines are left out.
use jmdn.Base.{
  ℕ, Bool, true, false, Option, none, some, String, List, [], ◌∷◌, Dict, get, put, keys, member,
  length, take, ltb, sort_strings, str_eq, if◌then◌else◌, ◌&&◌,
}
use jmdn.Committee.Text.{trim_space, normalize_bls_pub}

pub data CommitteeError : Type 0 where
  no_source : CommitteeError
  source_failed : String → CommitteeError
  empty_buddy_set : CommitteeError
  all_blocked : CommitteeError

-- What a call of the eligibility source answers.
pub data Answer : Type 0 where
  failed : String → Answer
  buddies : Dict String → Answer

pub data Eligible : Type 0 where
  refused : CommitteeError → Eligible
  members : Dict String → Eligible

-- settings.IsLoaded, and consensus.block_buddy and consensus.max_validators
pub record Settings : Type 0 where
  pub is_loaded : Bool
  pub block_buddy : List String
  pub max_validators : ℕ

-- committeeEligibilityFn (none: not wired) with its answer, and the settings
pub record Node : Type 0 where
  pub source : Option Answer
  pub settings : Settings

unfoldable pub set_committee_eligibility_source : Option Answer → Node → Node
set_committee_eligibility_source fn node = record { source = fn; settings = node.settings }

unfoldable pub trim_ids : List String → List String
trim_ids [] = []
trim_ids (id ∷ ids) =
    let rest = trim_ids ids in if str_eq (trim_space id) "" then rest else trim_space id ∷ rest

unfoldable pub blocked_buddies : Settings → List String
blocked_buddies s = if s.is_loaded then trim_ids s.block_buddy else []

unfoldable pub committee_size_limit : Settings → ℕ
committee_size_limit s = if s.is_loaded then s.max_validators else 0

-- One turn of the loop over the buddies.
unfoldable pub admit : List String → String → String → Dict String → Dict String
admit blocked pid bls_pub eligible =
    if str_eq (trim_space pid) ""
    then eligible
    else if member blocked (trim_space pid)
    then eligible
    else put eligible (trim_space pid) (normalize_bls_pub bls_pub)

unfoldable pub admit_all : List String → Dict String → Dict String → Dict String
admit_all blocked [] eligible = eligible
admit_all blocked ((pid, bls_pub) ∷ rest) eligible =
    admit_all blocked rest (admit blocked pid bls_pub eligible)

-- capped[pid] = eligible[pid]; a key that is absent reads as the empty text.
unfoldable pub pick : Dict String → List String → Dict String
pick eligible [] = []
pick eligible (id ∷ ids) =
    put (pick eligible ids) id (elim (get eligible id) [ none ↦ "" | some key ↦ key ])

unfoldable pub cap_members : ℕ → Dict String → Dict String
cap_members lim eligible =
    if ltb 0 lim && ltb lim (length eligible)
    then pick eligible (take lim (sort_strings (keys eligible)))
    else eligible

-- The committee after the blocklist.
unfoldable pub after_blocklist : Settings → Dict String → Eligible
after_blocklist s [] = refused all_blocked
after_blocklist s eligible = members (cap_members (committee_size_limit s) eligible)

unfoldable pub answer_members : Settings → Option Answer → Eligible
answer_members s none = refused no_source
answer_members s (some (failed err)) = refused (source_failed err)
answer_members s (some (buddies [])) = refused empty_buddy_set
answer_members s (some (buddies (b ∷ bs))) =
    after_blocklist s (admit_all (blocked_buddies s) (b ∷ bs) [])

unfoldable pub eligible_members : Node → Eligible
eligible_members node = answer_members node.settings node.source

-- EligibleCommitteePeerIDs: none is an error.
unfoldable pub eligible_committee_peer_ids : Node → Option (List String)
eligible_committee_peer_ids node = elim (eligible_members node) [
  | refused e ↦ none
  | members c ↦ some (keys c)
]

unfoldable pub key_matches : Option String → String → Bool
key_matches none pub_hex = false
key_matches (some bound_key) pub_hex =
    if str_eq bound_key "" then true else str_eq (normalize_bls_pub pub_hex) bound_key

unfoldable pub key_authorized : Node → String → String → Bool
unfolding key_matches
key_authorized node peer_id pub_hex = elim (eligible_members node) [
  | refused e ↦ false
  | members c ↦ key_matches (get c peer_id) pub_hex
]

unfoldable pub validate_committee_source : Node → Option CommitteeError
validate_committee_source node = elim (eligible_members node) [
  | refused e ↦ some e
  | members c ↦ none
]

unfoldable pub registry_configured : Node → Bool
registry_configured node = elim (validate_committee_source node) [ none ↦ true | some e ↦ false ]
