-- ===== src/Crdt/Counter.antt =====
-- crdt.go: Counter. The counts are uint64.
use jmdn.Base.{
  ℕ, ◌+◌, Option, none, some, String, [], ◌∷◌, Dict, get, put, u64, sum_by, str_eq, if◌then◌else◌,
}
use jmdn.Crdt.Clock.{VectorClock, merge_clocks, increment}

pub record GCounter : Type 0 where
  pub key : String
  pub counters : Dict ℕ
  pub timestamp : VectorClock

unfoldable pub new_counter : String → GCounter
new_counter key = record { key = key; counters = []; timestamp = [] }

-- c.Counters[nodeID] += value
unfoldable pub add_value : Dict ℕ → String → ℕ → Dict ℕ
add_value counters node_id value = elim (get counters node_id) [
  | none ↦ put counters node_id (u64 value)
  | some current ↦ put counters node_id (u64 (current + value))
]

unfoldable pub increment_counter : String → ℕ → GCounter → GCounter
increment_counter node_id value c = record {
  key = c.key;
  counters = add_value c.counters node_id value;
  timestamp = increment c.timestamp node_id;
}

unfoldable pub advance : VectorClock → String → VectorClock → VectorClock
advance current node_id [] = increment current node_id
advance current node_id (e ∷ ts) = merge_clocks current (e ∷ ts)

unfoldable pub increment_with_timestamp : String → ℕ → VectorClock → GCounter → GCounter
increment_with_timestamp node_id value ts c = record {
  key = c.key;
  counters = add_value c.counters node_id value;
  timestamp = advance c.timestamp node_id ts;
}

unfoldable pub value : GCounter → ℕ
value c = u64 (sum_by (λ (e : String × ℕ). e.1) c.counters)

-- none: the keys differ. The loop over the counts is that of VectorClock.Merge.
unfoldable pub merge_counters : GCounter → GCounter → Option GCounter
merge_counters c o =
    if str_eq c.key o.key
    then some record {
      key = c.key;
      counters = merge_clocks c.counters o.counters;
      timestamp = merge_clocks c.timestamp o.timestamp;
    }
    else none
