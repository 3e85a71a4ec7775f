-- ===== src/Crdt/Laws/Clocks.antt =====
-- The order of vector clocks: an absent entry is below every entry, also below 0.
use jmdn.Base.{
  ℕ, suc, ◌+◌, ◌<◌, ◌≡◌, refl, sym, ◌∙◌, inl, inr, Bool, true, false, ◌&&◌, ◌||◌, not, Option, none,
  some, String, List, [], ◌∷◌, get, has, keys, member, member-keys, ltb, str_eq-cases, eq_refl,
  arith, Bool-cases, All,
}
use jmdn.Crdt.Clock.{VectorClock, Flags, compare_node, compare_nodes, add_nodes, all_nodes}

unfoldable pub rank_of : Option ℕ → ℕ
rank_of none = 0
rank_of (some t) = suc t

-- The height of a node's entry: 0 is no entry.
unfoldable pub rank : VectorClock → String → ℕ
unfolding rank_of
rank vc node = rank_of (get vc node)

-- Whether a node of the list is below in the first clock.
unfoldable pub some_below : VectorClock → VectorClock → List String → Bool
some_below a b [] = false
some_below a b (node ∷ nodes) = ltb (rank a node) (rank b node) || some_below a b nodes

-- A node that one of the clocks has.
unfoldable pub IsNode : VectorClock → VectorClock → String → Type 0
IsNode a b node = 0 < rank a node + rank b node

node-flags :
    (a b : VectorClock) (node : String) (f : Flags)
    → IsNode a b node
    → compare_node (get a node) (get b node) f ≡ record {
      less = f.less || ltb (rank a node) (rank b node);
      greater = f.greater || ltb (rank b node) (rank a node);
      equal = f.equal && not (ltb (rank a node) (rank b node) || ltb (rank b node) (rank a node));
    }
unfolding compare_node rank rank_of IsNode
node-flags a b node f h = ground arith

pub flags-eq :
    (a b : VectorClock) (nodes : List String) (f : Flags)
    → All (IsNode a b) nodes
    → compare_nodes a b nodes f ≡ record {
      less = f.less || some_below a b nodes;
      greater = f.greater || some_below b a nodes;
      equal = f.equal && not (some_below a b nodes || some_below b a nodes);
    }
unfolding compare_nodes some_below
flags-eq a b [] f h = ground arith
flags-eq a b (node ∷ nodes) f h =
    flags-eq a b nodes (compare_node (get a node) (get b node) f) h.1
    ∙ ground (arith, node-flags a b node f h.0)

member-add_nodes :
    (xs ys : List String) (k : String) → member (add_nodes xs ys) k ≡ (member xs k || member ys k)
unfolding add_nodes member
member-add_nodes [] ys k = refl
member-add_nodes (x ∷ xs) ys k = elim (str_eq-cases x k) [
  | inl e ↦ ground (arith, e, eq_refl k, member-add_nodes xs ys x, member-add_nodes xs ys k)
  | inr e ↦ ground (arith, e, member-add_nodes xs ys k)
]

pub member-all_nodes :
    (a b : VectorClock) (k : String) → member (all_nodes a b) k ≡ (has a k || has b k)
unfolding all_nodes member
member-all_nodes a b k = ground (
  arith,
  member-add_nodes (keys a) (add_nodes (keys b) []) k,
  member-add_nodes (keys b) [] k,
  member-keys a k,
  member-keys b k,
)

All-member :
    (P : String → Type 0) (ks : List String) → ((k : String) → member ks k ≡ true → P k) → All P ks
unfolding member
All-member P [] h = tt
All-member P (k ∷ ks) h =
    (h k (ground (arith, eq_refl k)), All-member P ks (λ j m. h j (ground (arith, m))))

has-IsNode : (a b : VectorClock) (k : String) → (has a k || has b k) ≡ true → IsNode a b k
unfolding IsNode rank rank_of
has-IsNode a b k h = ground arith

pub below-has : (a b : VectorClock) (k : String) → rank a k < rank b k → has b k ≡ true
unfolding rank rank_of
below-has a b k h = ground arith

pub all_nodes-IsNode : (a b : VectorClock) → All (IsNode a b) (all_nodes a b)
all_nodes-IsNode a b =
    All-member (IsNode a b) (all_nodes a b)
      (λ k m. has-IsNode a b k (sym (member-all_nodes a b k) ∙ m))

pub some_below-member :
    (a b : VectorClock) (nodes : List String) (k : String)
    → rank a k < rank b k
    → member nodes k ≡ true
    → some_below a b nodes ≡ true
unfolding some_below member
some_below-member a b [] k h m = cc
some_below-member a b (node ∷ nodes) k h m = elim (str_eq-cases node k) [
  | inl e ↦ rw e (ground (arith, h))
  | inr e ↦ ground (arith, e, some_below-member a b nodes k h)
]

pub some_below-witness :
    (a b : VectorClock) (nodes : List String)
    → some_below a b nodes ≡ true
    → (k : String) × (rank a k < rank b k)
unfolding some_below
some_below-witness a b [] h = cc
some_below-witness a b (node ∷ nodes) h = elim (Bool-cases (ltb (rank a node) (rank b node))) [
  | inl e ↦ (node, ground (arith, e))
  | inr e ↦ some_below-witness a b nodes (ground (arith, e, h))
]
