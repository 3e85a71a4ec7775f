-- ===== src/Committee/Laws/Restarts.antt =====
-- A second block at a height is turned down also after a restart, when the store is durable.
use jmdn.Base.{
  ℕ, ◌≡◌, ◌≢◌, ◌⊎◌, inl, refl, none, some, String, List, [], ◌∷◌, ◌==◌, ==_iff, eq_iff, arith,
  if◌then◌else◌,
}
use jmdn.Committee.Body.{equivocation}
use jmdn.Committee.Equivocation.{
  found, EquivocationStore, seen_at, Seen, conflict, durable_read, durable_write, record_sighting,
  warm, check_equivocation,
}

-- What happens to a node: a check, or a restart.
pub data Event : Type 0 where
  check : ℕ → String → Event
  restart : Event

module _ {Store : Type 0} (st : EquivocationStore Store) where
  -- A store that finds what it recorded, and keeps the records of the other heights.
  abbrev pub IsDurable : Type 0
  IsDurable =
      (store : Store) (n m : ℕ) (hash_hex : String)
      → st.first_seen_hash (st.record_first_seen store n hash_hex) m
        ≡ (if n == m then found hash_hex else st.first_seen_hash store m)

  -- A restart empties seenHeights and leaves the store.
  unfoldable pub after_event : Seen Store → Event → Seen Store
  after_event s (check n hash_hex) = (check_equivocation (some st) s n hash_hex).1
  after_event s restart = record { seen_heights = []; store = s.store }

  unfoldable pub after_events : Seen Store → List Event → Seen Store
  after_events s [] = s
  after_events s (e ∷ events) = after_events (after_event s e) events

  -- The store has the block at the height, and seenHeights no other.
  abbrev IsKept : ℕ → String → Seen Store → Type 0
  IsKept n a s =
      (st.first_seen_hash s.store n ≡ found a)
      × ((seen_at s.seen_heights n ≡ none) ⊎ (seen_at s.seen_heights n ≡ some a))

  taken-IsKept :
      (s : Seen Store) (n : ℕ) (a : String)
      → IsDurable
      → seen_at s.seen_heights n ≡ none
      → (check_equivocation (some st) s n a).0 ≡ none
      → IsKept n a (check_equivocation (some st) s n a).1
  unfolding check_equivocation seen_at record_sighting warm conflict durable_read durable_write
  taken-IsKept s n a d e h = grind (arith, d s.store n n a, ==_iff n n, eq_iff, e, h)

  check-IsKept :
      (s : Seen Store) (n m : ℕ) (a b : String)
      → IsDurable
      → IsKept n a s
      → IsKept n a (check_equivocation (some st) s m b).1
  unfolding check_equivocation seen_at record_sighting warm durable_read durable_write
  check-IsKept s n m a b d k = grind (arith, d s.store m n b, ==_iff m n, k)

  events-IsKept :
      (s : Seen Store) (n : ℕ) (a : String) (events : List Event)
      → IsDurable
      → IsKept n a s
      → IsKept n a (after_events s events)
  unfolding after_events after_event seen_at
  events-IsKept s n a [] d k = k
  events-IsKept s n a (check m b ∷ events) d k =
      events-IsKept (check_equivocation (some st) s m b).1 n a events d (check-IsKept s n m a b d k)
  events-IsKept s n a (restart ∷ events) d k =
      events-IsKept (record { seen_heights = []; store = s.store }) n a events d (k.0, inl refl)

  kept-conflict :
      (s : Seen Store) (n : ℕ) (a b : String)
      → IsKept n a s
      → a ≢ b
      → (check_equivocation (some st) s n b).0 ≡ some equivocation
  unfolding check_equivocation conflict durable_read
  kept-conflict s n a b k ne = ground (arith, eq_iff a b, k)

  -- With a durable store, once a block is taken at a height that the session has not seen, then after
  -- any checks and restarts a check of a block with another hash at that height is turned down as an
  -- equivocation.
  pub equivocation_rejected_after_restart :
      (s : Seen Store) (n : ℕ) (a b : String) (events : List Event)
      → IsDurable
      → seen_at s.seen_heights n ≡ none
      → (check_equivocation (some st) s n a).0 ≡ none
      → a ≢ b
      → (check_equivocation
          (some st)
          (after_events (check_equivocation (some st) s n a).1 events)
          n
          b).0
        ≡ some equivocation
  equivocation_rejected_after_restart s n a b events d e h ne =
      kept-conflict (after_events (check_equivocation (some st) s n a).1 events) n a b
        (events-IsKept (check_equivocation (some st) s n a).1 n a events d
          (taken-IsKept s n a d e h))
        ne
