-- ===== src/Committee/Laws/Linking.antt =====
-- Which blocks the linkage rule takes.
use jmdn.Base.{
  ℕ, ◌+◌, ◌<◌, ◌^◌, ◌≡◌, ◌↔◌, ◌⊎◌, refl, true, Option, none, some, [], ◌∷◌, ◌++◌, arith, ==_iff,
}
use jmdn.Committee.Body.{Hash, zero_hash, hash_eq, Hashing, ZkBlock}
use jmdn.Committee.Linkage.{
  Chain, state_root_chain, state_root_differs, parent_decision, linkage_decision, read_parent,
  check_linkage,
}

hash_eq_refl : (a : Hash) → hash_eq a a ≡ true
unfolding hash_eq
hash_eq_refl [] = refl
hash_eq_refl (x ∷ a) = ground (arith, hash_eq_refl a)

hash_eq-path : (a b : Hash) → hash_eq a b ≡ true → a ≡ b
unfolding hash_eq
hash_eq-path [] [] h = refl
hash_eq-path [] (y ∷ b) h = cc
hash_eq-path (x ∷ a) [] h = cc
hash_eq-path (x ∷ a) (y ∷ b) h = grind (arith, hash_eq-path a b, ==_iff x y)

pub hash_eq_iff : (a b : Hash) → (hash_eq a b ≡ true) ↔ (a ≡ b)
hash_eq_iff a b = (hash_eq-path a b, λ e. rw e (hash_eq_refl b))

some-path : {p q : ZkBlock} → some p ≡ some q → p ≡ q
some-path e = cc

module _ (h : Hashing) where
  -- What the rule asks of a block and of its parent.
  abbrev pub Chains : ZkBlock → ZkBlock → Type 0
  Chains b parent =
      (b.prev_hash ≡ parent.block_hash)
      × ((parent.state_root ≡ zero_hash)
          ⊎ (b.state_root ≡ h.keccak256 (parent.state_root ++ b.block_hash)))

  parent_decision_iff :
      (b parent : ZkBlock) → (parent_decision h b (some parent) ≡ none) ↔ Chains b parent
  unfolding parent_decision state_root_differs state_root_chain
  parent_decision_iff b parent = ground (
    arith,
    hash_eq_iff b.prev_hash parent.block_hash,
    hash_eq_iff parent.state_root zero_hash,
    hash_eq_iff b.state_root (h.keccak256 (parent.state_root ++ b.block_hash)),
  )

  parent_decision-read :
      (b : ZkBlock) (o : Option ZkBlock)
      → (parent_decision h b o ≡ none)
        ↔ ((parent : ZkBlock) × ((o ≡ some parent) × Chains b parent))
  unfolding parent_decision
  parent_decision-read b none = (λ e. cc, λ q. cc)
  parent_decision-read b (some parent) = (
    λ e. (parent, (refl, (parent_decision_iff b parent).0 e)),
    λ q. rw (some-path q.1.0) ((parent_decision_iff b q.0).1 q.1.1),
  )

  linkage-read :
      (c : Chain) (b : ZkBlock) (tip : ℕ)
      → c.read_local_tip ≡ some tip
      → tip + 1 < 2 ^ 64
      → ((check_linkage h c b).0 ≡ none) ↔ (
          (0 < tip)
          × ((b.block_number ≡ tip + 1)
              × (parent_decision h b (c.read_block_by_number tip) ≡ none)))
  unfolding check_linkage linkage_decision read_parent
  linkage-read c b tip e w = ground (arith, ==_iff tip 0)

  -- With a local tip whose next height fits uint64, a block is taken just when the chain has a
  -- block, the block's height is the next one, its parent is read at the tip, the block names that
  -- parent's hash, and its state root chains from the parent's unless that one is unset.
  pub check_linkage-none_iff :
      (c : Chain) (b : ZkBlock) (tip : ℕ)
      → c.read_local_tip ≡ some tip
      → tip + 1 < 2 ^ 64
      → ((check_linkage h c b).0 ≡ none) ↔ (
          (0 < tip)
          × ((b.block_number ≡ tip + 1)
              × ((parent : ZkBlock) × ((c.read_block_by_number tip ≡ some parent)
                    × Chains b parent))))
  check_linkage-none_iff c b tip e w =
      let read = parent_decision-read b (c.read_block_by_number tip) in
      let link = linkage-read c b tip e w in
      (
        λ k. ((link.0 k).0, ((link.0 k).1.0, read.0 (link.0 k).1.1)),
        λ q. link.1 (q.0, (q.1.0, read.1 q.1.1)),
      )
