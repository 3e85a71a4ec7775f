-- ===== src/Crdt/Laws/Order.antt =====
-- Compare decides the order of vector clocks.
use jmdn.Base.{◌≤◌, ◌<◌, ◌≡◌, ◌↔◌, refl, true, false, String, List, [], ◌∷◌, arith, if◌then◌else◌}
use jmdn.Crdt.Clock.{
  VectorClock, happens_before, concurrent, happens_after, all_nodes, comparison, compare_clocks,
}
use jmdn.Crdt.Laws.Clocks.{
  rank, some_below, flags-eq, all_nodes-IsNode, below-has, member-all_nodes, some_below-member,
  some_below-witness,
}

-- Below or equal at every node, and below at one.
abbrev pub IsBefore : VectorClock → VectorClock → Type 0
IsBefore a b = ((k : String) → rank a k ≤ rank b k) × ((k : String) × (rank a k < rank b k))

compare_clocks-below :
    (a b : VectorClock)
    → compare_clocks a b ≡ (
        if some_below a b (all_nodes a b)
        then (if some_below b a (all_nodes a b) then concurrent else happens_before)
        else if some_below b a (all_nodes a b)
        then happens_after
        else concurrent)
unfolding compare_clocks comparison
compare_clocks-below a b = ground (
  arith,
  flags-eq a b (all_nodes a b) (record { less = false; greater = false; equal = true })
      (all_nodes-IsNode a b),
)

none_below-le :
    (a b : VectorClock)
    → some_below b a (all_nodes a b) ≡ false
    → (k : String) → rank a k ≤ rank b k
none_below-le a b h k =
    ground
      (arith, h, below-has b a k, member-all_nodes a b k, some_below-member b a (all_nodes a b) k)

le-of_none_below :
    (a b : VectorClock)
    → some_below a b (all_nodes a b) ≡ false
    → (k : String) → rank b k ≤ rank a k
le-of_none_below a b h k =
    ground
      (arith, h, below-has a b k, member-all_nodes a b k, some_below-member a b (all_nodes a b) k)

le-none_below :
    (a b : VectorClock) (nodes : List String)
    → ((k : String) → rank a k ≤ rank b k)
    → some_below b a nodes ≡ false
unfolding some_below
le-none_below a b [] h = refl
le-none_below a b (node ∷ nodes) h = ground (arith, h node, le-none_below a b nodes h)

IsBefore-forward : (a b : VectorClock) → compare_clocks a b ≡ happens_before → IsBefore a b
IsBefore-forward a b h = (
  none_below-le a b (ground (arith, h, compare_clocks-below a b)),
  some_below-witness a b (all_nodes a b) (ground (arith, h, compare_clocks-below a b)),
)

IsBefore-back : (a b : VectorClock) → IsBefore a b → compare_clocks a b ≡ happens_before
IsBefore-back a b h = ground (
  arith,
  compare_clocks-below a b,
  le-none_below a b (all_nodes a b) h.0,
  below-has a b h.1.0 h.1.1,
  member-all_nodes a b h.1.0,
  some_below-member a b (all_nodes a b) h.1.0 h.1.1,
)

-- One clock is before another just when it is below or equal at every node and below at one, where a
-- node without an entry is below every entry.
pub compare_clocks-IsBefore_iff :
    (a b : VectorClock) → (compare_clocks a b ≡ happens_before) ↔ IsBefore a b
compare_clocks-IsBefore_iff a b = (IsBefore-forward a b, IsBefore-back a b)

flipped_IsBefore-forward : (a b : VectorClock) → compare_clocks a b ≡ happens_after → IsBefore b a
flipped_IsBefore-forward a b h = (
  le-of_none_below a b (ground (arith, h, compare_clocks-below a b)),
  some_below-witness b a (all_nodes a b) (ground (arith, h, compare_clocks-below a b)),
)

flipped_IsBefore-back : (a b : VectorClock) → IsBefore b a → compare_clocks a b ≡ happens_after
flipped_IsBefore-back a b h = ground (
  arith,
  compare_clocks-below a b,
  le-none_below b a (all_nodes a b) h.0,
  below-has b a h.1.0 h.1.1,
  member-all_nodes a b h.1.0,
  some_below-member b a (all_nodes a b) h.1.0 h.1.1,
)

-- One clock is after another just when the other is before it.
pub compare_clocks-after_iff :
    (a b : VectorClock)
    → (compare_clocks a b ≡ happens_after) ↔ (compare_clocks b a ≡ happens_before)
compare_clocks-after_iff a b = (
  λ h. IsBefore-back b a (flipped_IsBefore-forward a b h),
  λ h. flipped_IsBefore-back a b (IsBefore-forward b a h),
)
