-- ===== src/Crdt/Clock.antt =====
-- crdt.go: VectorClock.
use jmdn.Base.{
  ℕ, ◌+◌, Bool, true, false, ◌&&◌, Option, none, some, String, List, [], ◌∷◌, Dict, get, put, keys,
  member, u64, ltb, str_lt, if◌then◌else◌,
}

abbrev pub VectorClock : Type 0
VectorClock = Dict ℕ

-- The results -1, 0 and 1 of Compare.
pub data Comparison : Type 0 where
  happens_before concurrent happens_after : Comparison

pub record Flags : Type 0 where
  pub less : Bool
  pub greater : Bool
  pub equal : Bool

-- One turn of the loop of Compare over allNodes, where a node is in one of the clocks.
unfoldable pub compare_node : Option ℕ → Option ℕ → Flags → Flags
compare_node none other f = record { less = true; greater = f.greater; equal = false }
compare_node (some our_ts) none f = record { less = f.less; greater = true; equal = false }
compare_node (some our_ts) (some other_ts) f =
    if ltb other_ts our_ts
    then record { less = f.less; greater = true; equal = false }
    else if ltb our_ts other_ts
    then record { less = true; greater = f.greater; equal = false }
    else f

unfoldable pub compare_nodes : VectorClock → VectorClock → List String → Flags → Flags
compare_nodes vc other [] f = f
compare_nodes vc other (node ∷ nodes) f =
    compare_nodes vc other nodes (compare_node (get vc node) (get other node) f)

-- allNodes[node] = true
unfoldable pub add_nodes : List String → List String → List String
add_nodes [] nodes = nodes
add_nodes (node ∷ rest) nodes =
    let nodes' = add_nodes rest nodes in if member nodes' node then nodes' else node ∷ nodes'

unfoldable pub all_nodes : VectorClock → VectorClock → List String
all_nodes vc other = add_nodes (keys vc) (add_nodes (keys other) [])

unfoldable pub comparison : Flags → Comparison
comparison f =
    if f.equal
    then concurrent
    else if f.less && f.greater
    then concurrent
    else if f.greater
    then happens_after
    else happens_before

unfoldable pub compare_clocks : VectorClock → VectorClock → Comparison
compare_clocks vc other = comparison (
    compare_nodes vc other (all_nodes vc other)
      (record { less = false; greater = false; equal = true }))

-- result[node] = otherTS, unless the entry there is as high.
unfoldable pub raise : VectorClock → String → ℕ → VectorClock
raise result node other_ts = elim (get result node) [
  | none ↦ put result node other_ts
  | some our_ts ↦ if ltb our_ts other_ts then put result node other_ts else result
]

unfoldable pub merge_clocks : VectorClock → VectorClock → VectorClock
merge_clocks result [] = result
merge_clocks result ((node, other_ts) ∷ other) = merge_clocks (raise result node other_ts) other

unfoldable pub deterministic_merge : VectorClock → VectorClock → String → String → VectorClock
deterministic_merge ts1 ts2 node_id1 node_id2 = elim (compare_clocks ts1 ts2) [
  | happens_after ↦ ts1
  | happens_before ↦ ts2
  | concurrent ↦ if str_lt node_id1 node_id2 then ts1 else ts2
]

unfoldable pub highest_node : VectorClock → String → ℕ → String
highest_node [] max_node max_ts = max_node
highest_node ((node, timestamp) ∷ ts) max_node max_ts =
    highest_node ts (if ltb max_ts timestamp then node else max_node)
      (if ltb max_ts timestamp then timestamp else max_ts)

unfoldable pub extract_node_id : VectorClock → String
extract_node_id ts = highest_node ts "" 0

unfoldable pub increment : VectorClock → String → VectorClock
increment vc node_id = elim (get vc node_id) [
  | none ↦ put vc node_id 1
  | some current ↦ put vc node_id (u64 (current + 1))
]

unfoldable pub prune : VectorClock → List String → VectorClock
prune [] active_nodes = []
prune ((node, ts) ∷ vc) active_nodes =
    let rest = prune vc active_nodes in if member active_nodes node then (node, ts) ∷ rest else rest

unfoldable pub get_active_nodes : VectorClock → List String
get_active_nodes vc = add_nodes (keys vc) []
