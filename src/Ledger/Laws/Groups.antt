-- ===== src/Ledger/Laws/Groups.antt =====
-- The partition of a block into groups that each fit one commit.
use jmdn.Base.{
  ℕ, zero, suc, ◌+◌, ◌≤◌, ◌≡◌, refl, ap, ◌∙◌, ◌⊎◌, inl, inr, true, ◌&&◌, not, String, List, [], ◌∷◌,
  ◌++◌, append_cons, member, str_eq-cases, eq_iff, length, length-append, if◌then◌else◌, All, holds,
  arith, Bool-cases,
}
use jmdn.Ledger.{Tx, Block}
use jmdn.Ledger.Processing.{tx_hashes}
use jmdn.Ledger.Recon.Groups.{
  pending_hashes, count_new, add_accounts, is_full, tx_touched_accounts, Group, take_group,
  cons_group, partition_recon_groups,
}

abbrev pub joined : List (List String) → List String
joined [] = []
joined (g ∷ gs) = g ++ joined gs

-- The transactions that wait, in the order of the block.
unfoldable pub waiting : List String → List Tx → List String
waiting pending [] = []
waiting pending (tx ∷ txs) =
    let rest = waiting pending txs in if member pending tx.hash then tx.hash ∷ rest else rest

module _ (b : Block) (pending : List String) (budget : ℕ) where
  -- A group takes from the front of what waits.
  take_group-waiting :
      (accounts : List ℕ) (group : List String) (txs : List Tx)
      → ((take_group b pending budget accounts group txs).group_txs
          ++ waiting pending (take_group b pending budget accounts group txs).rest)
        ≡ (group ++ waiting pending txs)
  unfolding take_group waiting
  take_group-waiting accounts group [] = refl
  take_group-waiting accounts group (tx ∷ txs) = elim (Bool-cases (member pending tx.hash)) [
    | inl e ↦ elim (Bool-cases (is_full budget b tx accounts group)) [
      | inl f ↦ rw (take_group, e, f, waiting, e) refl
      | inr f ↦
          rw (take_group, e, f)
            (take_group-waiting (add_accounts (tx_touched_accounts b tx) accounts)
                (group ++ (tx.hash ∷ [])) txs
              ∙ append_cons group tx.hash (waiting pending txs))
    ]
    | inr e ↦ rw (take_group, e) (take_group-waiting accounts group txs)
  ]

  take_group-length :
      (accounts : List ℕ) (group : List String) (txs : List Tx)
      → length (take_group b pending budget accounts group txs).rest ≤ length txs
  unfolding take_group
  take_group-length accounts group [] = omega arith
  take_group-length accounts group (tx ∷ txs) = ground (
    arith,
    take_group-length accounts group txs,
    take_group-length (add_accounts (tx_touched_accounts b tx) accounts) (group ++ (tx.hash ∷ []))
        txs,
  )

  -- The first transaction is always taken.
  take_group-shorter :
      (tx : Tx) (txs : List Tx)
      → length (take_group b pending budget [] [] (tx ∷ txs)).rest ≤ length txs
  unfolding take_group is_full
  take_group-shorter tx txs = ground (
    arith,
    take_group-length [] [] txs,
    take_group-length (add_accounts (tx_touched_accounts b tx) []) (tx.hash ∷ []) txs,
  )

  joined-cons_group :
      (g : List String) (gs : List (List String)) → joined (cons_group g gs) ≡ (g ++ joined gs)
  unfolding cons_group
  joined-cons_group [] gs = refl
  joined-cons_group (h ∷ hs) gs = refl

  partition-joined :
      (fuel : ℕ) (txs : List Tx)
      → length txs ≤ fuel
      → joined (partition_recon_groups fuel b pending budget txs) ≡ waiting pending txs
  unfolding partition_recon_groups waiting
  partition-joined zero [] le = refl
  partition-joined zero (tx ∷ txs) le = absurd (omega (arith, le))
  partition-joined (suc n) [] le = refl
  partition-joined (suc n) (tx ∷ txs) le =
      joined-cons_group (take_group b pending budget [] [] (tx ∷ txs)).group_txs _
      ∙ rw
          (partition-joined n (take_group b pending budget [] [] (tx ∷ txs)).rest
            (omega (arith, le, take_group-shorter tx txs)))
          (take_group-waiting [] [] (tx ∷ txs))

pub member-pending :
    (applied : List String) (txs : List Tx) (hash : String)
    → member (pending_hashes applied txs) hash
      ≡ (member (tx_hashes txs) hash && not (member applied hash))
unfolding pending_hashes member tx_hashes
member-pending applied [] hash = refl
member-pending applied (tx ∷ txs) hash = elim (str_eq-cases tx.hash hash) [
  | inl e ↦ ground (arith, e, eq_iff tx.hash hash, member-pending applied txs hash)
  | inr e ↦ ground (arith, e, member-pending applied txs hash)
]

waiting-pending :
    (applied pending : List String) (txs : List Tx)
    → All (λ (tx : Tx). member pending tx.hash ≡ not (member applied tx.hash)) txs
    → waiting pending txs ≡ pending_hashes applied txs
unfolding waiting pending_hashes
waiting-pending applied pending [] h = refl
waiting-pending applied pending (tx ∷ txs) h = elim (Bool-cases (member applied tx.hash)) [
  | inl e ↦ rw (waiting, pending_hashes, h.0, e) (waiting-pending applied pending txs h.1)
  | inr e ↦
      rw (waiting, pending_hashes, h.0, e)
        (ap (λ hs. tx.hash ∷ hs) (waiting-pending applied pending txs h.1))
]

pub pending-complement :
    (applied : List String) (all txs : List Tx)
    → ((hash : String) → member (tx_hashes txs) hash ≡ true → member (tx_hashes all) hash ≡ true)
    → All
        (λ (tx : Tx). member (pending_hashes applied all) tx.hash ≡ not (member applied tx.hash))
        txs
unfolding member tx_hashes
pending-complement applied all [] k = tt
pending-complement applied all (tx ∷ txs) k = (
  rw (member-pending applied all tx.hash, k tx.hash (ground (arith, eq_iff tx.hash tx.hash))) refl,
  pending-complement applied all txs (λ hash m. k hash (ground (arith, m))),
)

partition-nonempty :
    (b : Block) (pending : List String) (budget fuel : ℕ) (txs : List Tx)
    → All (λ (g : List String). 1 ≤ length g) (partition_recon_groups fuel b pending budget txs)
unfolding partition_recon_groups cons_group
partition-nonempty b pending budget zero txs = tt
partition-nonempty b pending budget (suc n) [] = tt
partition-nonempty b pending budget (suc n) (tx ∷ txs) =
    nonempty-cons (take_group b pending budget [] [] (tx ∷ txs)).group_txs _
      (partition-nonempty b pending budget n _)
  where
    nonempty-cons :
        (g : List String) (gs : List (List String))
        → All (λ (g : List String). 1 ≤ length g) gs
        → All (λ (g : List String). 1 ≤ length g) (cons_group g gs)
    nonempty-cons [] gs h = h
    nonempty-cons (k ∷ ks) gs h = (omega arith, h)

-- The groups of a block are not empty, and one after another they are the transactions that wait,
-- in order: as much fuel as there are transactions is enough.
pub partition_complete :
    (b : Block) (applied : List String) (budget : ℕ)
    → let groups =
        partition_recon_groups
          (length b.transactions)
          b
          (pending_hashes applied b.transactions)
          budget
          b.transactions in
      (joined groups ≡ pending_hashes applied b.transactions)
      × All (λ (g : List String). 1 ≤ length g) groups
partition_complete b applied budget = (
  partition-joined b (pending_hashes applied b.transactions) budget (length b.transactions)
        b.transactions (omega arith)
      ∙ waiting-pending applied (pending_hashes applied b.transactions) b.transactions
          (pending-complement applied b.transactions b.transactions (λ hash m. m)),
  partition-nonempty b (pending_hashes applied b.transactions) budget (length b.transactions)
      b.transactions,
)

-- The accounts that a group touches.
count_new-cons :
    (a : ℕ) (accounts addrs : List ℕ) → count_new (a ∷ accounts) addrs ≤ count_new accounts addrs
unfolding count_new holds
count_new-cons a accounts [] = omega arith
count_new-cons a accounts (k ∷ ks) = ground (arith, count_new-cons a accounts ks)

add_accounts-length :
    (addrs accounts : List ℕ)
    → length (add_accounts addrs accounts) ≤ length accounts + count_new accounts addrs
unfolding add_accounts count_new
add_accounts-length [] accounts = omega arith
add_accounts-length (a ∷ addrs) accounts = ground (
  arith,
  add_accounts-length addrs accounts,
  add_accounts-length addrs (a ∷ accounts),
  count_new-cons a accounts addrs,
)

abbrev pub IsWithin : ℕ → Group → Type 0
IsWithin budget g =
    (length g.group_txs ≤ 1) ⊎ (length g.group_accounts + length g.group_txs ≤ budget)

take_group-IsWithin :
    (b : Block) (pending : List String) (budget : ℕ) (accounts : List ℕ) (group : List String)
    (txs : List Tx)
    → (length group ≤ 1) ⊎ (length accounts + length group ≤ budget)
    → IsWithin budget (take_group b pending budget accounts group txs)
unfolding take_group is_full
take_group-IsWithin b pending budget accounts group [] h = h
take_group-IsWithin b pending budget accounts group (tx ∷ txs) h =
    elim (Bool-cases (member pending tx.hash)) [
      | inl e ↦ elim (Bool-cases (is_full budget b tx accounts group)) [
        | inl f ↦ rw (take_group, e, f) h
        | inr f ↦
            rw (take_group, e, f)
              (take_group-IsWithin b pending budget
                (add_accounts (tx_touched_accounts b tx) accounts) (group ++ (tx.hash ∷ [])) txs
                (ground (
                  arith,
                  f,
                  add_accounts-length (tx_touched_accounts b tx) accounts,
                  length-append group (tx.hash ∷ []),
                )))
      ]
      | inr e ↦ rw (take_group, e) (take_group-IsWithin b pending budget accounts group txs h)
    ]

-- A group that begins at a transaction either is no longer than that transaction, or its accounts and
-- transactions together are within the budget; and it takes at least the first transaction away.
pub take_group_bounded :
    (b : Block) (pending : List String) (budget : ℕ) (tx : Tx) (txs : List Tx)
    → let g = take_group b pending budget [] [] (tx ∷ txs) in
      IsWithin budget g × (length g.rest ≤ length txs)
take_group_bounded b pending budget tx txs = (
  take_group-IsWithin b pending budget [] [] (tx ∷ txs) (inl (omega arith)),
  take_group-shorter b pending budget tx txs,
)
