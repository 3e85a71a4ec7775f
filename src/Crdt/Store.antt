-- ===== src/Crdt/Store.antt =====
-- MemoryStore.go: MemStore. The eviction handler's error is dropped by the code, so the handler is
-- the list of operations it is called with. PruneVectorClocks changes clocks that other objects
-- and logged operations share, and is not modelled.
use jmdn.Base.{
  ℕ, ◌+◌, Bool, true, false, Option, none, some, String, List, [], ◌∷◌, Dict, get, put, u64, length,
  if◌then◌else◌,
}
use jmdn.Crdt.Clock.{VectorClock, merge_clocks, increment}
use jmdn.Crdt.LwwSet.{Set, new_lww_set, get_elements, merge_sets}
use jmdn.Crdt.Counter.{GCounter, new_counter, increment_with_timestamp, merge_counters}
use jmdn.Crdt.Counter
use jmdn.Crdt.Heap.{op_add, op_remove, op_counter_inc, unknown, Op, OpHeap, new_op_heap, append}

-- The implementations of the interface CRDT.
pub data Crdt : Type 0 where
  set : Set → Crdt
  counter : GCounter → Crdt

-- Merge: none when the types or the keys differ.
unfoldable pub merge_crdts : Crdt → Crdt → Option Crdt
merge_crdts (set s) (set o) = elim (merge_sets s o) [ none ↦ none | some r ↦ some (set r) ]
merge_crdts (counter c) (counter o) = elim (merge_counters c o) [
  | none ↦ none
  | some r ↦ some (counter r)
]
merge_crdts (set s) (counter o) = none
merge_crdts (counter c) (set o) = none

pub record StoreMetrics : Type 0 where
  pub total_ops_appended : ℕ
  pub total_ops_evicted : ℕ
  pub last_evict_at : ℕ

pub record MemStore : Type 0 where
  pub objects : Dict Crdt
  pub ops : OpHeap
  pub max_bytes : ℕ
  pub metrics : StoreMetrics

unfoldable pub new_mem_store : ℕ → MemStore
new_mem_store max_bytes = record {
  objects = [];
  ops = new_op_heap max_bytes;
  max_bytes = max_bytes;
  metrics = record { total_ops_appended = 0; total_ops_evicted = 0; last_evict_at = 0 };
}

unfoldable pub op_clock : VectorClock → String → VectorClock → VectorClock
op_clock current node_id [] = increment current node_id
op_clock current node_id (e ∷ ts) = e ∷ ts

unfoldable pub apply_set_op : Set → String → String → Bool → VectorClock → Set
apply_set_op s node_id element is_add ts =
    let clock = op_clock s.timestamp node_id ts in
    record {
      key = s.key;
      adds = if is_add then put s.adds element clock else s.adds;
      removes = if is_add then s.removes else put s.removes element clock;
      timestamp = merge_clocks s.timestamp clock;
    }

-- getOrCreateSet and getOrCreateCounter: none is an object of the other type.
unfoldable pub get_or_create_set : Option Crdt → String → Option Set
get_or_create_set none key = some (new_lww_set key)
get_or_create_set (some (set s)) key = some s
get_or_create_set (some (counter c)) key = none

unfoldable pub get_or_create_counter : Option Crdt → String → Option GCounter
get_or_create_counter none key = some (new_counter key)
get_or_create_counter (some (counter c)) key = some c
get_or_create_counter (some (set s)) key = none

unfoldable pub set_op : Dict Crdt → Op → Bool → Option (Dict Crdt)
set_op objects op is_add = elim (get_or_create_set (get objects op.key) op.key) [
  | none ↦ none
  | some s ↦ some (put objects op.key (set (apply_set_op s op.node_id op.element is_add op.ts)))
]

unfoldable pub counter_op : Dict Crdt → Op → Option (Dict Crdt)
counter_op objects op = elim (get_or_create_counter (get objects op.key) op.key) [
  | none ↦ none
  | some c ↦
      some (put objects op.key (counter (increment_with_timestamp op.node_id op.value op.ts c)))
]

-- none: ErrWrongType
unfoldable pub apply_to_objects : Dict Crdt → Op → Option (Dict Crdt)
apply_to_objects objects op = elim op.kind [
  | op_add ↦ set_op objects op true
  | op_remove ↦ set_op objects op false
  | op_counter_inc ↦ counter_op objects op
  | unknown k ↦ some objects
]

unfoldable pub count_evicted : List Op → ℕ → StoreMetrics → StoreMetrics
count_evicted [] now m = record {
  total_ops_appended = u64 (m.total_ops_appended + 1);
  total_ops_evicted = m.total_ops_evicted;
  last_evict_at = m.last_evict_at;
}
count_evicted (o ∷ evicted) now m = record {
  total_ops_appended = u64 (m.total_ops_appended + 1);
  total_ops_evicted = u64 (m.total_ops_evicted + length (o ∷ evicted));
  last_evict_at = now;
}

-- What AppendOp answers: whether it failed with ErrWrongType, and what the handler is called with.
pub record Appended : Type 0 where
  pub wrong_type : Bool
  pub handled : List Op
  pub store : MemStore

unfoldable pub append_op : ℕ → MemStore → Op → Appended
append_op now s op = elim (apply_to_objects s.objects op) [
  | none ↦ record { wrong_type = true; handled = []; store = s }
  | some objects ↦ record {
    wrong_type = false;
    handled = (append s.ops op).0;
    store = record {
      objects = objects;
      ops = (append s.ops op).1;
      max_bytes = s.max_bytes;
      metrics = count_evicted (append s.ops op).0 now s.metrics;
    };
  }
]

elements_of : Option Crdt → Option (List String)
elements_of none = none
elements_of (some (set s)) = some (get_elements s)
elements_of (some (counter c)) = none

unfoldable pub get_set_elements : MemStore → String → Option (List String)
unfolding elements_of
get_set_elements s key = elements_of (get s.objects key)

value_of : Option Crdt → Option ℕ
value_of none = none
value_of (some (counter c)) = some (Counter.value c)
value_of (some (set s)) = none

unfoldable pub get_counter_value : MemStore → String → Option ℕ
unfolding value_of
get_counter_value s key = value_of (get s.objects key)
