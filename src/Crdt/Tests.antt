-- ===== src/Crdt/Tests.antt =====
-- Runs of the replicated types, and the theorems at concrete inputs.
use jmdn.Base.{
  ℕ, ◌+◌, ◌≤◌, ◌<◌, ◌^◌, ◌≡◌, ◌↔◌, ◌⊎◌, some, refl, Bool, true, false, String, List, [], ◌∷◌, ◌++◌,
  length, sum_by, arith, str_eq,
}
use jmdn.Bft.Digest.{bytes}
use jmdn.Crdt.Clock.{
  VectorClock, Comparison, happens_before, concurrent, happens_after, compare_clocks,
  extract_node_id,
}
use jmdn.Crdt.LwwSet.{new_lww_set, contains, resolve}
use jmdn.Crdt.Clock.{merge_clocks, raise}
use jmdn.Crdt.Counter.{GCounter, merge_counters}
use jmdn.Base.{member, get, put}
use jmdn.Crdt.Heap.{Op, op_counter_inc, approx_size, byte_length, OpHeap, append}
use jmdn.Crdt.Store.{MemStore, apply_to_objects, append_op}
use jmdn.Crdt.Laws.{
  IsAccounted, is_other_type, append_op-IsAccounted, rank, higher, rank-merge_clocks,
  merge_counters_comm, IsBounded, append-IsBounded, append-evicts_fewest, IsBefore,
  compare_clocks-IsBefore_iff, Call, run, last_is_add, local_calls-contains,
  resolve_takes_the_other,
}

abbrev op : ℕ → Op
op n = record {
  key = "k";
  kind = op_counter_inc;
  node_id = "n";
  element = "";
  value = n;
  ts = [];
  wall_time = 0;
}

abbrev one_logged : OpHeap
one_logged = record { ops = op 1 ∷ []; bytes = 146; cap_bytes = 200 }

one_logged-IsBounded : IsBounded one_logged
unfolding approx_size byte_length bytes
one_logged-IsBounded = (refl, omega arith)

append-IsBounded_example :
    IsBounded (append one_logged (op 2)).1
    × ((append one_logged (op 2)).0 ++ (append one_logged (op 2)).1.ops ≡ op 1 ∷ (op 2 ∷ []))
append-IsBounded_example = append-IsBounded one_logged (op 2) one_logged-IsBounded

append-evicts_fewest_example : length (append one_logged (op 2)).0 ≤ 1
unfolding byte_length bytes
append-evicts_fewest_example =
    append-evicts_fewest one_logged (op 2) (op 1 ∷ []) (op 2 ∷ []) one_logged-IsBounded refl
      (unfold approx_size in omega arith)

abbrev clock_a : VectorClock
clock_a = ("x", 5) ∷ (("y", 1) ∷ [])

abbrev clock_b : VectorClock
clock_b = ("x", 5) ∷ (("z", 1) ∷ [])

compare_clocks-IsBefore_iff_example :
    (compare_clocks [] clock_a ≡ happens_before) ↔ IsBefore [] clock_a
compare_clocks-IsBefore_iff_example = compare_clocks-IsBefore_iff [] clock_a

abbrev calls : List Call
calls = ("n", ("e", true)) ∷ (("m", ("e", false)) ∷ (("n", ("f", true)) ∷ []))

local_calls-contains_example :
    contains (run calls (new_lww_set "s")) "e" ≡ last_is_add calls "e" false
local_calls-contains_example = local_calls-contains calls "s" "e" (omega arith)

ab-concurrent : compare_clocks clock_a clock_b ≡ concurrent
unfolding compare_clocks jmdn.Crdt.Clock.comparison jmdn.Crdt.Clock.compare_nodes
    jmdn.Crdt.Clock.all_nodes jmdn.Crdt.Clock.add_nodes jmdn.Base.member
    jmdn.Crdt.Clock.compare_node jmdn.Base.get
ab-concurrent = refl

ab-node : extract_node_id clock_a ≡ extract_node_id clock_b
unfolding extract_node_id jmdn.Crdt.Clock.highest_node
ab-node = refl

resolve_takes_the_other_example :
    (resolve clock_a clock_b ≡ clock_b)
    × (resolve clock_b clock_a ≡ clock_a)
    × ((resolve clock_a clock_b ≡ resolve clock_b clock_a) ↔ (clock_a ≡ clock_b))
resolve_takes_the_other_example = resolve_takes_the_other clock_a clock_b ab-concurrent ab-node

rank-merge_clocks_example :
    rank (merge_clocks clock_a clock_b) "x" ≡ higher (rank clock_a "x") (rank clock_b "x")
rank-merge_clocks_example =
    rank-merge_clocks clock_a clock_b "x" (unfold member in (refl, (refl, tt)))

abbrev counter_a : GCounter
counter_a = record { key = "c"; counters = clock_a; timestamp = [] }

abbrev counter_b : GCounter
counter_b = record { key = "c"; counters = clock_b; timestamp = clock_a }

abbrev counter_ab : GCounter
counter_ab = record {
  key = "c";
  counters = ("x", 5) ∷ (("y", 1) ∷ (("z", 1) ∷ []));
  timestamp = clock_a;
}

abbrev counter_ba : GCounter
counter_ba = record {
  key = "c";
  counters = ("x", 5) ∷ (("z", 1) ∷ (("y", 1) ∷ []));
  timestamp = clock_a;
}

merge_counters_comm_example :
    (rank counter_ab.counters "z" ≡ rank counter_ba.counters "z")
    × (rank counter_ab.timestamp "z" ≡ rank counter_ba.timestamp "z")
unfolding merge_counters merge_clocks raise get put
merge_counters_comm_example =
    merge_counters_comm counter_a counter_b counter_ab counter_ba "z"
      (unfold member in (refl, (refl, tt))) (unfold member in (refl, (refl, tt))) tt
      (unfold member in (refl, (refl, tt))) refl refl

abbrev store_with_one : MemStore
store_with_one = record {
  objects = [];
  ops = one_logged;
  max_bytes = 200;
  metrics = record { total_ops_appended = 1; total_ops_evicted = 0; last_evict_at = 0 };
}

append_op-IsAccounted_example :
    ((is_other_type (get store_with_one.objects "k") op_counter_inc ≡ true)
      × ((append_op 9 store_with_one (op 2)).wrong_type ≡ true)
      × ((append_op 9 store_with_one (op 2)).store ≡ store_with_one)
      × ((append_op 9 store_with_one (op 2)).handled ≡ []))
    ⊎ ((is_other_type (get store_with_one.objects "k") op_counter_inc ≡ false)
        × ((append_op 9 store_with_one (op 2)).wrong_type ≡ false)
        × (apply_to_objects store_with_one.objects (op 2)
            ≡ some (append_op 9 store_with_one (op 2)).store.objects)
        × IsAccounted (append_op 9 store_with_one (op 2)).store
        × ((append_op 9 store_with_one (op 2)).handled
              ++ (append_op 9 store_with_one (op 2)).store.ops.ops
            ≡ op 1 ∷ (op 2 ∷ [])))
append_op-IsAccounted_example =
    append_op-IsAccounted 9 store_with_one (op 2) (one_logged-IsBounded, refl)
