-- ===== src/Crdt/Laws/Local.antt =====
-- A set that only its own node changes does what a set of texts does.
use jmdn.Base.{
  ℕ, ◌+◌, ◌≤◌, ◌<◌, ◌^◌, ◌≡◌, refl, ap, ◌∙◌, inl, inr, Bool, true, false, Option, none, some,
  String, List, [], ◌∷◌, Dict, get, put, get-put, length, str_eq, str_eq-cases, eq_refl, arith,
  if◌then◌else◌, Bool-cases,
}
use jmdn.Crdt.Clock.{VectorClock, happens_after, compare_clocks, increment}
use jmdn.Crdt.LwwSet.{Set, new_lww_set, apply_op, visible, contains}
use jmdn.Crdt.Laws.Clocks.{rank, rank_of}
use jmdn.Crdt.Laws.Raising.{rank-increment, rank-increment_le, IsUnder, IsUnder-raise, IsUnder-put}
use jmdn.Crdt.Laws.Order.{compare_clocks-IsBefore_iff, compare_clocks-after_iff}

-- A call of Add or Remove: the node, the element, and whether it is Add.
abbrev pub Call : Type 0
Call = String × (String × Bool)

unfoldable pub run : List Call → Set → Set
run [] s = s
run ((node_id, (element, is_add)) ∷ calls) s = run calls (apply_op node_id element is_add s)

-- Whether the last call for an element adds it.
unfoldable pub last_is_add : List Call → String → Bool → Bool
last_is_add [] e found = found
last_is_add ((node_id, (element, is_add)) ∷ calls) e found =
    last_is_add calls e (if str_eq element e then is_add else found)

-- What the calls keep, when `n` of them are done.
record Invariant (s : Set) (n : ℕ) : Type 0 where
  adds_under : IsUnder s.adds s.timestamp
  removes_under : IsUnder s.removes s.timestamp
  bounded : (k : String) → rank s.timestamp k ≤ n + 1

apply_op-Invariant :
    (s : Set) (n : ℕ) (node element : String) (is_add : Bool)
    → Invariant s n
    → n + 1 < 2 ^ 64
    → Invariant (apply_op node element is_add s) (n + 1)
unfolding apply_op
apply_op-Invariant s n node element is_add h w =
    let le =
      λ (k : String). (rank-increment s.timestamp node k (omega (arith, h.bounded node))).0 in
    let bound =
      λ (k : String). rank-increment_le s.timestamp node k n (h.bounded node) (h.bounded k) w in
    let adds = IsUnder-raise s.adds s.timestamp (increment s.timestamp node) h.adds_under le in
    let removes =
      IsUnder-raise s.removes s.timestamp (increment s.timestamp node) h.removes_under le in
    elim (Bool-cases is_add) [
      | inl e ↦ rw e record {
        adds_under = IsUnder-put s.adds element (increment s.timestamp node) adds;
        removes_under = removes;
        bounded = bound;
      }
      | inr e ↦ rw e record {
        adds_under = adds;
        removes_under = IsUnder-put s.removes element (increment s.timestamp node) removes;
        bounded = bound;
      }
    ]

visible-add :
    (ts : VectorClock) (rm : Option VectorClock) (node : String)
    → ((r : VectorClock) → rm ≡ some r → (k : String) → rank r k ≤ rank ts k)
    → ((r : VectorClock) → rm ≡ some r → rank r node < rank ts node)
    → visible (some ts) rm ≡ true
unfolding visible
visible-add ts none node h l = refl
visible-add ts (some r) node h l = ground (
  arith,
  (compare_clocks-after_iff ts r).1
      ((compare_clocks-IsBefore_iff r ts).1 (h r refl, (node, l r refl))),
)

not-after :
    (a ts : VectorClock) (node : String)
    → rank a node < rank ts node
    → compare_clocks a ts ≡ happens_after
    → 1 ≤ 0
not-after a ts node l h =
    omega (
      arith,
      ((compare_clocks-IsBefore_iff ts a).0 ((compare_clocks-after_iff a ts).0 h)).0 node,
      l,
    )

visible-remove :
    (add : Option VectorClock) (ts : VectorClock) (node : String)
    → ((a : VectorClock) → add ≡ some a → rank a node < rank ts node)
    → visible add (some ts) ≡ false
unfolding visible
visible-remove none ts node l = refl
visible-remove (some a) ts node l = ground (arith, not-after a ts node (l a refl))

get-put_same : (m : Dict VectorClock) (k : String) (v : VectorClock) → get (put m k v) k ≡ some v
get-put_same m k v = ground (arith, get-put m k k v, eq_refl k)

-- Increment of the set's clock raises the node's entry and lowers none.
clock-up :
    (s : Set) (n : ℕ) (node : String)
    → Invariant s n
    → n + 1 < 2 ^ 64
    → ((k : String) → rank s.timestamp k ≤ rank (increment s.timestamp node) k)
      × (rank s.timestamp node < rank (increment s.timestamp node) node)
clock-up s n node h w =
    let fits : rank s.timestamp node < 2 ^ 64 = omega (arith, h.bounded node) in
    (λ k. (rank-increment s.timestamp node k fits).0, (rank-increment s.timestamp node node fits).1)

apply_op-contains :
    (s : Set) (n : ℕ) (node element : String) (is_add : Bool)
    → Invariant s n
    → n + 1 < 2 ^ 64
    → contains (apply_op node element is_add s) element ≡ is_add
unfolding apply_op contains IsUnder
apply_op-contains s n node element is_add h w =
    let up = clock-up s n node h w in
    elim (Bool-cases is_add) [
      | inl e ↦ rw e (
          ground (
            arith,
            get-put_same s.adds element (increment s.timestamp node),
            visible-add (increment s.timestamp node) (get s.removes element) node
                (λ r q k. omega (arith, h.removes_under element r q k, up.0 k))
                (λ r q. omega (arith, h.removes_under element r q node, up.1)),
          ))
      | inr e ↦ rw e (
          ground (
            arith,
            get-put_same s.removes element (increment s.timestamp node),
            visible-remove (get s.adds element) (increment s.timestamp node) node
                (λ a q. omega (arith, h.adds_under element a q node, up.1)),
          ))
    ]

apply_op-contains_other :
    (s : Set) (node element e : String) (is_add : Bool)
    → str_eq element e ≡ false
    → contains (apply_op node element is_add s) e ≡ contains s e
unfolding apply_op contains
apply_op-contains_other s node element e is_add h = elim (Bool-cases is_add) [
  | inl b ↦ rw b (
      ap (λ o. visible o (get s.removes e))
        (get-put s.adds element e (increment s.timestamp node) ∙ rw h refl))
  | inr b ↦ rw b (
      ap (visible (get s.adds e))
        (get-put s.removes element e (increment s.timestamp node) ∙ rw h refl))
]

apply_op-step :
    (s : Set) (n : ℕ) (node element e : String) (is_add : Bool)
    → Invariant s n
    → n + 1 < 2 ^ 64
    → contains (apply_op node element is_add s) e
      ≡ (if str_eq element e then is_add else contains s e)
apply_op-step s n node element e is_add h w = elim (str_eq-cases element e) [
  | inl q ↦ rw (q, eq_refl e) (apply_op-contains s n node e is_add h w)
  | inr q ↦ ground (arith, q, apply_op-contains_other s node element e is_add q)
]

run-contains :
    (calls : List Call) (s : Set) (n : ℕ) (e : String)
    → Invariant s n
    → n + length calls < 2 ^ 64
    → contains (run calls s) e ≡ last_is_add calls e (contains s e)
unfolding run last_is_add
run-contains [] s n e h w = refl
run-contains ((node, (element, is_add)) ∷ calls) s n e h w =
    run-contains calls (apply_op node element is_add s) (n + 1) e
      (apply_op-Invariant s n node element is_add h (omega (arith, w))) (omega (arith, w))
    ∙ ap (last_is_add calls e) (apply_op-step s n node element e is_add h (omega (arith, w)))

new_lww_set-Invariant : (key : String) → Invariant (new_lww_set key) 0
unfolding new_lww_set IsUnder get rank rank_of
new_lww_set-Invariant key = record {
  adds_under = λ e t g k. cc;
  removes_under = λ e t g k. cc;
  bounded = λ k. omega arith;
}

-- After fewer than 2 ^ 64 calls of Add and Remove on a new set, by any nodes in any order, an element is
-- in the set just when the last call for it was Add; an element without a call is not in it.
pub local_calls-contains :
    (calls : List Call) (key e : String)
    → length calls < 2 ^ 64
    → contains (run calls (new_lww_set key)) e ≡ last_is_add calls e false
unfolding new_lww_set contains get visible
local_calls-contains calls key e w =
    run-contains calls (new_lww_set key) 0 e (new_lww_set-Invariant key) (omega (arith, w))
