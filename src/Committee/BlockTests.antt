-- ===== src/Committee/BlockTests.antt =====
-- Runs of the rules for a block, and the theorems at concrete inputs.
use jmdn.Base.{
  ==_iff, ℕ, ◌+◌, ◌<◌, ◌≡◌, ◌≢◌, ◌↔◌, refl, none, some, String, List, [], ◌∷◌, ◌++◌, eq_iff, arith,
}
use jmdn.Committee.Text.{trim_space, trim_left, trim_right}
use jmdn.Committee.Body.{
  Hash, zero_hash, zeros, Hashing, Transaction, ZkBlock, Rejection, equivocation,
  check_body_binding, leaves, duplicate_last, recompute_txns_root,
}
use jmdn.Committee.Equivocation.{
  seen_at, durable_read, EquivocationStore, Seen, check_equivocation, FirstSeen, found, not_found,
}
use jmdn.Committee.Linkage.{Chain, check_linkage}
use jmdn.Committee.Laws.{
  IsDurable, after_events, check, restart, equivocation_rejected_after_restart,
  check_linkage-none_iff, Chains, check_all, equivocation_rejected, recompute_txns_root-duplicate,
  check_body_binding-binds,
}

abbrev hashing : Hashing
hashing = record {
  keccak256 = λ bytes. bytes;
  sha256 = λ bytes. bytes;
  encode_to_string = λ bytes. "ff";
  append_text = λ s t. t;
}

abbrev block : ℕ → Hash → Hash → List Transaction → ZkBlock
block number hash prev txs = record {
  block_number = number;
  block_hash = hash;
  prev_hash = prev;
  state_root = zero_hash;
  txns_root = "";
  transactions = txs;
}

abbrev chain : Chain
chain = record {
  read_local_tip = some 5;
  read_block_by_number = λ n. some (block n (7 ∷ []) (6 ∷ []) []);
}

check_linkage-none_iff_example :
    ((check_linkage hashing chain (block 6 (8 ∷ []) (7 ∷ []) [])).0 ≡ none) ↔ (
      (0 < 5)
      × ((6 ≡ 5 + 1)
          × ((parent : ZkBlock) × ((some (block 5 (7 ∷ []) (6 ∷ []) []) ≡ some parent)
                × Chains hashing (block 6 (8 ∷ []) (7 ∷ []) []) parent))))
check_linkage-none_iff_example =
    check_linkage-none_iff hashing chain (block 6 (8 ∷ []) (7 ∷ []) []) 5 refl (omega arith)

-- A durable store that a list of sightings stands for.
abbrev listed : EquivocationStore (List (ℕ × String))
listed = record {
  first_seen_hash = λ s n. not_found;
  record_first_seen = λ s n hash. (n, hash) ∷ s;
}

abbrev nothing_seen : Seen (List (ℕ × String))
nothing_seen = record { seen_heights = []; store = [] }

taken : (check_equivocation (some listed) nothing_seen 4 "x").0 ≡ none
unfolding check_equivocation jmdn.Committee.Equivocation.seen_at
    jmdn.Committee.Equivocation.durable_read
taken = refl

x≢y : ◌≢◌ {A = String} "x" "y"
x≢y e = ground (arith, (eq_iff "x" "y").1 e)

equivocation_rejected_example :
    (check_equivocation
      (some listed)
      (check_all
        (some listed)
        (check_equivocation (some listed) nothing_seen 4 "x").1
        ((5, "z") ∷ []))
      4
      "y").0
    ≡ some equivocation
equivocation_rejected_example =
    equivocation_rejected (some listed) nothing_seen 4 "x" "y" ((5, "z") ∷ []) taken x≢y

abbrev tx : ℕ → Transaction
tx n = record { hash = n ∷ zeros 31 }

recompute_txns_root-duplicate_example :
    recompute_txns_root hashing (tx 1 ∷ (tx 2 ∷ (tx 3 ∷ (tx 3 ∷ []))))
    ≡ recompute_txns_root hashing (tx 1 ∷ (tx 2 ∷ (tx 3 ∷ [])))
recompute_txns_root-duplicate_example =
    recompute_txns_root-duplicate hashing (tx 1) (tx 2) (tx 3) []
      (tx 1 ∷ (tx 2 ∷ (tx 3 ∷ (tx 3 ∷ [])))) refl (unfold leaves duplicate_last in refl)

abbrev two_txs : List Transaction
two_txs = tx 1 ∷ (tx 2 ∷ [])

abbrev bound_block : ZkBlock
bound_block = block 6 ((1 ∷ zeros 31) ++ (2 ∷ zeros 31)) [] two_txs

bound : check_body_binding hashing bound_block ≡ none
unfolding check_body_binding jmdn.Committee.Body.hash_eq
    jmdn.Committee.Body.recompute_block_hash_from_txs jmdn.Committee.Body.concat_hashes trim_space
    trim_left trim_right
bound = refl

-- Another block with that hash: its height, parent and root of transactions differ.
abbrev rival_block : ZkBlock
rival_block = record (block 9 ((1 ∷ zeros 31) ++ (2 ∷ zeros 31)) (5 ∷ zeros 31) two_txs) {
  txns_root = "0xFF";
}

rival-bound : check_body_binding hashing rival_block ≡ none
unfolding check_body_binding jmdn.Committee.Body.hash_eq
    jmdn.Committee.Body.recompute_block_hash_from_txs jmdn.Committee.Body.concat_hashes
    jmdn.Committee.Body.recompute_txns_root trim_space trim_left trim_right
    jmdn.Committee.Text.equal_fold jmdn.Committee.Text.to_lower jmdn.Committee.Text.trim_0x
    jmdn.Committee.Text.lower_char
rival-bound = refl

check_body_binding-binds_example : leaves bound_block.transactions ≡ leaves rival_block.transactions
check_body_binding-binds_example =
    check_body_binding-binds hashing bound_block rival_block bound rival-bound refl (omega arith)
      (omega arith) (λ e. e) (refl, (refl, tt)) (refl, (refl, tt))

abbrev durable : EquivocationStore (List (ℕ × String))
durable = record {
  first_seen_hash = λ s n. elim (seen_at s n) [ none ↦ not_found | some hash ↦ found hash ];
  record_first_seen = λ s n hash. (n, hash) ∷ s;
}

durable-IsDurable : IsDurable durable
unfolding seen_at
durable-IsDurable store n m hash = ground (arith, ==_iff n m)

taken_durably : (check_equivocation (some durable) nothing_seen 4 "x").0 ≡ none
unfolding check_equivocation seen_at durable_read
taken_durably = refl

equivocation_rejected_after_restart_example :
    (check_equivocation
      (some durable)
      (after_events durable
        (check_equivocation (some durable) nothing_seen 4 "x").1
        (check 5 "z" ∷ (restart ∷ [])))
      4
      "y").0
    ≡ some equivocation
equivocation_rejected_after_restart_example =
    equivocation_rejected_after_restart durable nothing_seen 4 "x" "y"
      (check 5 "z" ∷ (restart ∷ [])) durable-IsDurable (unfold seen_at in refl) taken_durably x≢y
