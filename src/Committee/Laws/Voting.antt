-- ===== src/Committee/Laws/Voting.antt =====
-- The yes votes of a certificate are members of the committee with a verified vote.
use jmdn.Base.{
  ℕ, ◌+◌, ◌≤◌, ◌≡◌, refl, ◌⊎◌, inl, inr, Bool, true, false, ◌&&◌, ◌||◌, not, String, List, [], ◌∷◌,
  Dict, get, keys, member, member-keys, count_by, count_by_mono, str_eq, str_eq-cases, eq_refl,
  arith,
}
use jmdn.Committee.Text.{normalize_bls_pub}
use jmdn.Committee.Certificate.{
  BlsResponse, Rules, Counted, is_verified, is_bound, add_key, count_response, count_responses,
  count_eligible_yes,
}

-- A test that holds at one more place counts one more.
count_by_gain :
    (p q : String → Bool) (ks : List String) (k : String)
    → member ks k ≡ true
    → q k ≡ true
    → p k ≡ false
    → ((j : String) → p j ≡ true → q j ≡ true)
    → count_by p ks + 1 ≤ count_by q ks
unfolding member
count_by_gain p q [] k m hq hp h = cc
count_by_gain p q (j ∷ ks) k m hq hp h = elim (str_eq-cases j k) [
  | inl e ↦ ground (arith, e, hq, hp, count_by_mono p q ks h)
  | inr e ↦ ground (arith, e, h j, count_by_gain p q ks k)
]

module _ (rules : Rules) (block_hash_hex : String) (height : ℕ) where
  -- Whether the list holds a verified yes vote of the peer.
  unfoldable pub voted : List BlsResponse → String → Bool
  voted [] k = false
  voted (r ∷ rs) k =
      str_eq r.peer_id k && (r.agree && is_verified rules r block_hash_hex height) || voted rs k

  voted-cons_seen :
      (r : BlsResponse) (rs : List BlsResponse) (ps : List String) (k : String)
      → voted rs k && not (member (r.peer_id ∷ ps) k) ≡ true
      → voted (r ∷ rs) k && not (member ps k) ≡ true
  unfolding voted member
  voted-cons_seen r rs ps k h = ground arith

  voted-cons :
      (r : BlsResponse) (rs : List BlsResponse) (ps : List String) (k : String)
      → voted rs k && not (member ps k) ≡ true
      → voted (r ∷ rs) k && not (member ps k) ≡ true
  unfolding voted
  voted-cons r rs ps k h = ground arith

  voted-head :
      (r : BlsResponse) (rs : List BlsResponse) (ps : List String)
      → is_verified rules r block_hash_hex height ≡ true
      → r.agree ≡ true
      → member ps r.peer_id ≡ false
      → voted (r ∷ rs) r.peer_id && not (member ps r.peer_id) ≡ true
  unfolding voted
  voted-head r rs ps v a m = ground (arith, eq_refl r.peer_id)

  seen-head :
      (rs : List BlsResponse) (ps : List String) (k : String)
      → voted rs k && not (member (k ∷ ps) k) ≡ false
  unfolding member
  seen-head rs ps k = ground (arith, eq_refl k)

is_bound-member :
    (committee : Dict String) (k key : String)
    → is_bound (get committee k) key ≡ true
    → member (keys committee) k ≡ true
unfolding is_bound
is_bound-member committee k key h = ground (arith, member-keys committee k)

module _ (rules : Rules) (block_hash_hex : String) (height : ℕ) where
  module _ (committee : Dict String) where
    count_response-cases :
        (r : BlsResponse) (c : Counted)
        → (count_response rules block_hash_hex height committee true r c ≡ c)
          ⊎ ((count_response rules block_hash_hex height committee true r c ≡ record {
            counted_peers = r.peer_id ∷ c.counted_peers;
            counted_keys = add_key (normalize_bls_pub r.pub_key) c.counted_keys;
            yes = c.yes + 1;
          })
              × ((is_verified rules r block_hash_hex height ≡ true)
                  × ((is_bound (get committee r.peer_id) r.pub_key ≡ true)
                      × ((r.agree ≡ true) × (member c.counted_peers r.peer_id ≡ false)))))
    unfolding count_response
    count_response-cases r c = ground arith

    -- The members that voted yes and are not counted yet.
    abbrev open_votes : List BlsResponse → List String → ℕ
    open_votes rs ps =
        count_by (λ k. voted rules block_hash_hex height rs k && not (member ps k)) (keys committee)

    open_votes-counted :
        (r : BlsResponse) (rs : List BlsResponse) (ps : List String)
        → is_verified rules r block_hash_hex height ≡ true
        → is_bound (get committee r.peer_id) r.pub_key ≡ true
        → r.agree ≡ true
        → member ps r.peer_id ≡ false
        → open_votes rs (r.peer_id ∷ ps) + 1 ≤ open_votes (r ∷ rs) ps
    open_votes-counted r rs ps v b a m =
        count_by_gain
          (λ k. voted rules block_hash_hex height rs k && not (member (r.peer_id ∷ ps) k))
          (λ k. voted rules block_hash_hex height (r ∷ rs) k && not (member ps k)) (keys committee)
          r.peer_id (is_bound-member committee r.peer_id r.pub_key b)
          (voted-head rules block_hash_hex height r rs ps v a m)
          (seen-head rules block_hash_hex height rs ps r.peer_id)
          (voted-cons_seen rules block_hash_hex height r rs ps)

    open_votes-passed :
        (r : BlsResponse) (rs : List BlsResponse) (ps : List String)
        → open_votes rs ps ≤ open_votes (r ∷ rs) ps
    open_votes-passed r rs ps =
        count_by_mono (λ k. voted rules block_hash_hex height rs k && not (member ps k))
          (λ k. voted rules block_hash_hex height (r ∷ rs) k && not (member ps k)) (keys committee)
          (voted-cons rules block_hash_hex height r rs ps)

    count_responses-cons :
        (r : BlsResponse) (rs : List BlsResponse) (c : Counted)
        → count_responses rules block_hash_hex height committee true (r ∷ rs) c
          ≡ count_responses rules block_hash_hex height committee true rs
              (count_response rules block_hash_hex height committee true r c)
    unfolding count_responses
    count_responses-cons r rs c = refl

    pub count_responses-le :
        (rs : List BlsResponse) (c : Counted)
        → (count_responses rules block_hash_hex height committee true rs c).yes
          ≤ c.yes + open_votes rs c.counted_peers
    unfolding count_responses
    count_responses-le [] c = omega arith
    count_responses-le (r ∷ rs) c = elim (count_response-cases r c) [
      | inl e ↦
          rw (count_responses-cons r rs c, e)
            (omega (arith, count_responses-le rs c, open_votes-passed r rs c.counted_peers))
      | inr p ↦
          rw (count_responses-cons r rs c, p.0)
            (omega (
              arith,
              count_responses-le rs (record {
                counted_peers = r.peer_id ∷ c.counted_peers;
                counted_keys = add_key (normalize_bls_pub r.pub_key) c.counted_keys;
                yes = c.yes + 1;
              }),
              open_votes-counted r rs c.counted_peers p.1.0 p.1.1.0 p.1.1.1.0 p.1.1.1.1,
            ))
    ]

    pub count_eligible_yes-le :
        (rs : List BlsResponse)
        → count_eligible_yes rules rs block_hash_hex height committee true
          ≤ count_by (voted rules block_hash_hex height rs) (keys committee)
    unfolding count_eligible_yes member
    count_eligible_yes-le rs = omega (
      arith,
      count_responses-le rs (record { counted_peers = []; counted_keys = []; yes = 0 }),
      count_by_mono (λ k. voted rules block_hash_hex height rs k && not (member [] k))
          (voted rules block_hash_hex height rs) (keys committee) (λ k h. ground arith),
    )
