-- ===== src/Committee/Laws/Forks.antt =====
-- A second block at a height is turned down.
use jmdn.Base.{ℕ, ◌≡◌, ◌≢◌, Option, none, some, String, List, [], ◌∷◌, ==_iff, eq_iff, arith}
use jmdn.Committee.Body.{equivocation}
use jmdn.Committee.Equivocation.{
  EquivocationStore, seen_at, Seen, conflict, record_sighting, warm, check_equivocation,
}

module _ {Store : Type 0} (st : Option (EquivocationStore Store)) where
  -- The state after checks in a row.
  unfoldable pub check_all : Seen Store → List (ℕ × String) → Seen Store
  check_all s [] = s
  check_all s ((number, hash_hex) ∷ rest) =
      check_all (check_equivocation st s number hash_hex).1 rest

  check_equivocation-seen :
      (s : Seen Store) (n : ℕ) (a : String)
      → (check_equivocation st s n a).0 ≡ none
      → seen_at (check_equivocation st s n a).1.seen_heights n ≡ some a
  unfolding check_equivocation seen_at record_sighting warm conflict
  check_equivocation-seen s n a h = grind (arith, ==_iff n n, eq_iff)

  check_equivocation-keeps :
      (s : Seen Store) (n m : ℕ) (a b : String)
      → seen_at s.seen_heights n ≡ some a
      → seen_at (check_equivocation st s m b).1.seen_heights n ≡ some a
  unfolding check_equivocation seen_at record_sighting warm
  check_equivocation-keeps s n m a b h = ground (arith, ==_iff m n)

  check_all-keeps :
      (s : Seen Store) (n : ℕ) (a : String) (rest : List (ℕ × String))
      → seen_at s.seen_heights n ≡ some a
      → seen_at (check_all s rest).seen_heights n ≡ some a
  unfolding check_all
  check_all-keeps s n a [] h = h
  check_all-keeps s n a ((m, b) ∷ rest) h =
      check_all-keeps (check_equivocation st s m b).1 n a rest
        (check_equivocation-keeps s n m a b h)

  seen-conflict :
      (s : Seen Store) (n : ℕ) (a b : String)
      → seen_at s.seen_heights n ≡ some a
      → a ≢ b
      → (check_equivocation st s n b).0 ≡ some equivocation
  unfolding check_equivocation conflict
  seen-conflict s n a b h ne = ground (arith, eq_iff a b)

  -- Once a block is taken at a height, whatever the durable store answers and whatever is checked in
  -- between, a check of a block with another hash at that height in the same session is turned down
  -- as an equivocation.
  pub equivocation_rejected :
      (s : Seen Store) (n : ℕ) (a b : String) (rest : List (ℕ × String))
      → (check_equivocation st s n a).0 ≡ none
      → a ≢ b
      → (check_equivocation st (check_all (check_equivocation st s n a).1 rest) n b).0
        ≡ some equivocation
  equivocation_rejected s n a b rest h ne =
      seen-conflict (check_all (check_equivocation st s n a).1 rest) n a b
        (check_all-keeps (check_equivocation st s n a).1 n a rest (check_equivocation-seen s n a h))
        ne
