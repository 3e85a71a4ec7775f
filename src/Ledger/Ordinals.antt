-- ===== src/Ledger/Ordinals.antt =====
-- DB_OPs/art_ordinal.go: the ordinals that the sequencer gives to the accounts that a block creates.
-- `before` is the order of the texts of two addresses, and an error leaves no block.
use jmdn.Base.{
  ℕ, ◌+◌, Bool, Option, none, some, List, [], ◌∷◌, ◌++◌, length, leb, ◌==◌, u64, if◌then◌else◌,
  Table, find, store, holds,
}
use jmdn.Ledger.{Accounts, Tx, Block, Ledger}
use jmdn.Ledger.Markers.{art_ordinal_max, read_art_ordinal_next}
use jmdn.Ledger.Stage.{Read, found, missing, failed, read_of}

pub record OrdinalFaults : Type 0 where
  pub no_connection : Bool
  pub unread : ℕ → Bool
  pub next_unread : Bool
  pub next_unwritten : Bool

-- reserveARTOrdinals
unfoldable pub reserve_art_ordinals : OrdinalFaults → ℕ → Ledger → Option ℕ × Ledger
reserve_art_ordinals faults n l =
    let next = read_art_ordinal_next l.art_next in
    if n == 0
    then (none, l)
    else if faults.next_unread
    then (none, l)
    else if leb art_ordinal_max (u64 (next + n))
    then (none, l)
    else if faults.next_unwritten
    then (none, l)
    else (some next, record l { art_next = some (u64 (next + n)) })

-- The distinct addresses, as they are first seen.
unfoldable pub touch : Option ℕ → List ℕ → List ℕ
touch none ordered = ordered
touch (some a) ordered = if holds ordered a then ordered else ordered ++ (a ∷ [])

unfoldable pub touched : List Tx → List ℕ → List ℕ
touched [] ordered = ordered
touched (tx ∷ txs) ordered = touched txs (touch tx.to (touch tx.from ordered))

-- A stored nonce: none when the read fails, some none when there is no identity.
unfoldable pub identity_of : Read → Option (Option ℕ)
identity_of (found doc) = if doc.nonce == 0 then some none else some (some doc.nonce)
identity_of missing = some none
identity_of failed = none

unfoldable pub with_identity :
    ℕ → Option (Option ℕ) → Option (Table ℕ × List ℕ) → Option (Table ℕ × List ℕ)
with_identity a none others = none
with_identity a (some i) none = none
with_identity a (some none) (some (nonces, unknown)) = some (nonces, a ∷ unknown)
with_identity a (some (some n)) (some (nonces, unknown)) = some (store nonces a n, unknown)

-- The known nonces, and the addresses that have none.
unfoldable pub collect : (ℕ → Read) → List ℕ → Option (Table ℕ × List ℕ)
collect read [] = some ([], [])
collect read (a ∷ addrs) = with_identity a (identity_of (read a)) (collect read addrs)

unfoldable pub insert_addr : (ℕ → ℕ → Bool) → ℕ → List ℕ → List ℕ
insert_addr before a [] = a ∷ []
insert_addr before a (x ∷ xs) =
    let rest = insert_addr before a xs in if before x a then x ∷ rest else a ∷ (x ∷ xs)

unfoldable pub sort_addrs : (ℕ → ℕ → Bool) → List ℕ → List ℕ
sort_addrs before [] = []
sort_addrs before (a ∷ addrs) = insert_addr before a (sort_addrs before addrs)

unfoldable pub assign : ℕ → List ℕ → Table ℕ → Table ℕ
assign first [] nonces = nonces
assign first (a ∷ addrs) nonces = assign (first + 1) addrs (store nonces a (u64 first))

unfoldable pub nonce_or_zero : Option ℕ → ℕ
nonce_or_zero none = 0
nonce_or_zero (some n) = n

unfoldable pub carry : Table ℕ → List ℕ → Table ℕ
carry nonces [] = []
carry nonces (a ∷ addrs) = (a, nonce_or_zero (find nonces a)) ∷ carry nonces addrs

unfoldable pub reserve_for :
    (ℕ → ℕ → Bool) → OrdinalFaults → Table ℕ → List ℕ → Ledger → Option (Table ℕ) × Ledger
reserve_for before faults nonces [] l = (some nonces, l)
reserve_for before faults nonces (a ∷ addrs) l =
    let reserved = reserve_art_ordinals faults (length (a ∷ addrs)) l in
    (
      elim reserved.0 [
        | none ↦ none
        | some first ↦ some (assign first (sort_addrs before (a ∷ addrs)) nonces)
      ],
      reserved.1,
    )

unfoldable pub enriched : Block → List ℕ → Option (Table ℕ) × Ledger → Option Block × Ledger
enriched b ordered (none, l) = (none, l)
enriched b ordered (some nonces, l) = (some (record b { account_nonces = carry nonces ordered }), l)

unfoldable pub enrich_collected :
    (ℕ → ℕ → Bool)
    → OrdinalFaults
    → Block
    → Option (Table ℕ × List ℕ)
    → Ledger
    → Option Block × Ledger
enrich_collected before faults b none l = (none, l)
enrich_collected before faults b (some (nonces, unknown)) l =
    enriched b (touched b.transactions []) (reserve_for before faults nonces unknown l)

unfoldable pub ordinal_read : OrdinalFaults → Accounts → ℕ → Read
ordinal_read faults accounts a = if faults.unread a then failed else read_of (find accounts a)

-- EnrichBlockAccountNonces
unfoldable pub enrich_block_account_nonces :
    (ℕ → ℕ → Bool) → OrdinalFaults → Block → Ledger → Option Block × Ledger
enrich_block_account_nonces before faults b l =
    if length b.transactions == 0
    then (some (record b { account_nonces = [] }), l)
    else if faults.no_connection
    then (none, l)
    else enrich_collected before faults b
        (collect (ordinal_read faults l.accounts) (touched b.transactions [])) l
