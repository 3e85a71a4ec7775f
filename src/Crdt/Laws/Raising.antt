-- ===== src/Crdt/Laws/Raising.antt =====
-- The clock of a set after Increment, and the clocks of its elements.
use jmdn.Base.{
  ℕ, ◌+◌, ◌≤◌, ◌<◌, ◌^◌, ◌≡◌, ap, inl, inr, Option, none, some, String, Dict, get, put, get-put,
  u64, str_eq, str_eq-cases, eq_iff, eq_refl, Option-cases, arith, if◌then◌else◌,
}
use jmdn.Crdt.Clock.{VectorClock, increment}
use jmdn.Crdt.Laws.Clocks.{rank, rank_of}

-- The count that Increment stores.
abbrev bump : Option ℕ → ℕ
bump none = 1
bump (some current) = u64 (current + 1)

get-increment :
    (vc : VectorClock) (node k : String)
    → get (increment vc node) k ≡ (if str_eq node k then some (bump (get vc node)) else get vc k)
unfolding increment
get-increment vc node k = elim (Option-cases (get vc node)) [
  | inl e ↦ ground (arith, e, get-put vc node k 1)
  | inr p ↦ ground (arith, p.1, get-put vc node k (u64 (p.0 + 1)))
]

-- The height of a node's entry after Increment.
pub rank-increment :
    (vc : VectorClock) (node k : String)
    → rank vc node < 2 ^ 64
    → (rank vc k ≤ rank (increment vc node) k) × (rank vc node < rank (increment vc node) node)
unfolding rank rank_of
rank-increment vc node k h =
    ground (arith, get-increment vc node k, get-increment vc node node, eq_refl node, eq_iff node k)

pub rank-increment_le :
    (vc : VectorClock) (node k : String) (n : ℕ)
    → rank vc node ≤ n + 1
    → rank vc k ≤ n + 1
    → n + 1 < 2 ^ 64
    → rank (increment vc node) k ≤ (n + 1) + 1
unfolding rank rank_of
rank-increment_le vc node k n h hk w = ground (arith, get-increment vc node k, eq_iff node k)

-- No entry of the map is above the clock.
unfoldable pub IsUnder : Dict VectorClock → VectorClock → Type 0
IsUnder m ts =
    (e : String) (t : VectorClock) → get m e ≡ some t → (k : String) → rank t k ≤ rank ts k

pub IsUnder-raise :
    (m : Dict VectorClock) (ts us : VectorClock)
    → IsUnder m ts
    → ((k : String) → rank ts k ≤ rank us k)
    → IsUnder m us
unfolding IsUnder
IsUnder-raise m ts us h le e t g k = omega (arith, h e t g k, le k)

put-clock :
    (m : Dict VectorClock) (element e : String) (ts t : VectorClock)
    → element ≡ e
    → get (put m element ts) e ≡ some t
    → ts ≡ t
put-clock m element e ts t q g = ground (arith, q, g, get-put m element e ts, eq_refl e)

pub IsUnder-put :
    (m : Dict VectorClock) (element : String) (ts : VectorClock)
    → IsUnder m ts
    → IsUnder (put m element ts) ts
unfolding IsUnder
IsUnder-put m element ts h e t g k = elim (str_eq-cases element e) [
  | inl q ↦ omega (arith, ap (λ c. rank c k) (put-clock m element e ts t q g))
  | inr q ↦ h e t (ground (arith, q, get-put m element e ts, g)) k
]
