-- ===== src/Committee/Equivocation.antt =====
-- consensus_hardening.go: checkEquivocation. The durable store is a parameter: its state is the
-- type `Store`, and a read or a write may fail.
use jmdn.Base.{ℕ, Option, none, some, String, List, [], ◌∷◌, ◌==◌, str_eq, if◌then◌else◌}
use jmdn.Committee.Body.{Rejection, equivocation}

-- The answer of FirstSeenHash.
pub data FirstSeen : Type 0 where
  read_failed : FirstSeen
  not_found : FirstSeen
  found : String → FirstSeen

-- EquivocationStore; a write that fails leaves a state of the store as well.
pub record EquivocationStore (Store : Type 0) : Type 0 where
  pub first_seen_hash : Store → ℕ → FirstSeen
  pub record_first_seen : Store → ℕ → String → Store

-- seenHeights
abbrev pub Heights : Type 0
Heights = List (ℕ × String)

unfoldable pub seen_at : Heights → ℕ → Option String
seen_at [] n = none
seen_at ((m, hash) ∷ rest) n = if m == n then some hash else seen_at rest n

-- seenHeights and the state of the store behind equivocationStore
pub record Seen (Store : Type 0) : Type 0 where
  pub seen_heights : Heights
  pub store : Store

module _ {Store : Type 0} (equivocation_store : Option (EquivocationStore Store)) where
  unfoldable pub conflict : String → String → Option Rejection
  conflict prev hash_hex = if str_eq prev hash_hex then none else some equivocation

  unfoldable pub durable_read : Seen Store → ℕ → FirstSeen
  durable_read s number = elim equivocation_store [
    | none ↦ not_found
    | some st ↦ st.first_seen_hash s.store number
  ]

  unfoldable pub durable_write : Store → ℕ → String → Store
  durable_write store number hash_hex = elim equivocation_store [
    | none ↦ store
    | some st ↦ st.record_first_seen store number hash_hex
  ]

  -- First sighting of this height.
  unfoldable pub record_sighting : Seen Store → ℕ → String → Seen Store
  record_sighting s number hash_hex = record {
    seen_heights = (number, hash_hex) ∷ s.seen_heights;
    store = durable_write s.store number hash_hex;
  }

  -- seenHeights[number] = prev
  unfoldable pub warm : Seen Store → ℕ → String → Seen Store
  warm s number prev = record { seen_heights = (number, prev) ∷ s.seen_heights; store = s.store }

  unfoldable pub check_equivocation : Seen Store → ℕ → String → Option Rejection × Seen Store
  check_equivocation s number hash_hex = elim (seen_at s.seen_heights number) [
    | some prev ↦ (conflict prev hash_hex, s)
    | none ↦ elim (durable_read s number) [
      | found prev ↦ (conflict prev hash_hex, warm s number prev)
      | read_failed ↦ (none, record_sighting s number hash_hex)
      | not_found ↦ (none, record_sighting s number hash_hex)
    ]
  ]
