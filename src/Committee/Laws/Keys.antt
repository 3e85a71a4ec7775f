-- ===== src/Committee/Laws/Keys.antt =====
-- One BLS key gives one vote.
use jmdn.Base.{
  ℕ, ◌+◌, ◌≤◌, ◌≡◌, refl, ◌⊎◌, inl, inr, Bool, true, false, String, List, [], ◌∷◌, Dict, All,
  member, str_eq, eq_refl, arith,
}
use jmdn.Committee.Text.{normalize_bls_pub}
use jmdn.Committee.Certificate.{
  BlsResponse, Rules, Counted, add_key, count_response, count_responses, count_eligible_yes,
}

module _ (rules : Rules) (block_hash_hex : String) (height : ℕ) (committee : Dict String)
    (filtered : Bool) (key : String) where
  -- A key that is not empty, and counts once it is seen.
  abbrev IsSeen : Counted → Type 0
  IsSeen c = member c.counted_keys key ≡ true

  seen-passed :
      (r : BlsResponse) (c : Counted)
      → str_eq key "" ≡ false
      → normalize_bls_pub r.pub_key ≡ key
      → IsSeen c
      → count_response rules block_hash_hex height committee filtered r c ≡ c
  unfolding count_response
  seen-passed r c ne e s = rw e (ground arith)

  -- The state after a vote that counts.
  abbrev counted_more : BlsResponse → Counted → Counted
  counted_more r c = record {
    counted_peers = r.peer_id ∷ c.counted_peers;
    counted_keys = add_key (normalize_bls_pub r.pub_key) c.counted_keys;
    yes = c.yes + 1;
  }

  fresh-counted :
      (r : BlsResponse) (c : Counted)
      → (count_response rules block_hash_hex height committee filtered r c ≡ c)
        ⊎ (count_response rules block_hash_hex height committee filtered r c ≡ counted_more r c)
  unfolding count_response
  fresh-counted r c = ground arith

  counted_more-IsSeen :
      (r : BlsResponse) (c : Counted)
      → str_eq key "" ≡ false
      → normalize_bls_pub r.pub_key ≡ key
      → IsSeen (counted_more r c)
  unfolding add_key member
  counted_more-IsSeen r c ne e = rw e (ground (arith, eq_refl key))

  counts-cons :
      (r : BlsResponse) (rs : List BlsResponse) (c : Counted)
      → count_responses rules block_hash_hex height committee filtered (r ∷ rs) c
        ≡ count_responses rules block_hash_hex height committee filtered rs
            (count_response rules block_hash_hex height committee filtered r c)
  unfolding count_responses
  counts-cons r rs c = refl

  seen_responses :
      (rs : List BlsResponse) (c : Counted)
      → str_eq key "" ≡ false
      → All (λ (r : BlsResponse). normalize_bls_pub r.pub_key ≡ key) rs
      → IsSeen c
      → (count_responses rules block_hash_hex height committee filtered rs c).yes ≡ c.yes
  unfolding count_responses
  seen_responses [] c ne a s = refl
  seen_responses (r ∷ rs) c ne a s =
      rw (counts-cons r rs c, seen-passed r c ne a.0 s) (seen_responses rs c ne a.1 s)

  fresh_responses :
      (rs : List BlsResponse) (c : Counted)
      → str_eq key "" ≡ false
      → All (λ (r : BlsResponse). normalize_bls_pub r.pub_key ≡ key) rs
      → (count_responses rules block_hash_hex height committee filtered rs c).yes ≤ c.yes + 1
  unfolding count_responses
  fresh_responses [] c ne a = omega arith
  fresh_responses (r ∷ rs) c ne a = elim (fresh-counted r c) [
    | inl e ↦ rw (counts-cons r rs c, e) (fresh_responses rs c ne a.1)
    | inr p ↦
        rw (counts-cons r rs c, p)
          (omega
            (arith, seen_responses rs (counted_more r c) ne a.1 (counted_more-IsSeen r c ne a.0)))
  ]

  -- Responses whose keys all normalize to one key that is not empty, however many peer ids they name
  -- and however the key is written, give one vote at most, whether or not the registry is enforced.
  pub one_key_counts_once :
      (rs : List BlsResponse)
      → str_eq key "" ≡ false
      → All (λ (r : BlsResponse). normalize_bls_pub r.pub_key ≡ key) rs
      → count_eligible_yes rules rs block_hash_hex height committee filtered ≤ 1
  unfolding count_eligible_yes
  one_key_counts_once rs ne a =
      fresh_responses rs (record { counted_peers = []; counted_keys = []; yes = 0 }) ne a
