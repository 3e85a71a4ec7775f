-- ===== src/Crdt/LwwSet.antt =====
-- crdt.go: LWWSet.
use jmdn.Base.{
  Bool, true, false, Option, none, some, String, List, [], ◌∷◌, Dict, get, put, keys, keep,
  sort_strings, str_eq, if◌then◌else◌,
}
use jmdn.Crdt.Clock.{
  VectorClock, happens_before, concurrent, happens_after, compare_clocks, merge_clocks,
  deterministic_merge, extract_node_id, increment,
}

pub record Set : Type 0 where
  pub key : String
  pub adds : Dict VectorClock
  pub removes : Dict VectorClock
  pub timestamp : VectorClock

unfoldable pub new_lww_set : String → Set
new_lww_set key = record { key = key; adds = []; removes = []; timestamp = [] }

unfoldable pub apply_op : String → String → Bool → Set → Set
apply_op node_id element is_add s =
    let ts = increment s.timestamp node_id in
    if is_add
    then record { key = s.key; adds = put s.adds element ts; removes = s.removes; timestamp = ts }
    else record { key = s.key; adds = s.adds; removes = put s.removes element ts; timestamp = ts }

unfoldable pub add : String → String → Set → Set
add node_id element s = apply_op node_id element true s

unfoldable pub remove : String → String → Set → Set
remove node_id element s = apply_op node_id element false s

-- Removal wins on tie
unfoldable pub visible : Option VectorClock → Option VectorClock → Bool
visible none rm_ts = false
visible (some add_ts) none = true
visible (some add_ts) (some rm_ts) = elim (compare_clocks add_ts rm_ts) [
  | happens_after ↦ true
  | _ ↦ false
]

unfoldable pub contains : Set → String → Bool
contains s element = visible (get s.adds element) (get s.removes element)

unfoldable pub get_elements : Set → List String
get_elements s = sort_strings (keep (contains s) (keys s.adds))

-- The clock of an element that both sets have.
unfoldable pub resolve : VectorClock → VectorClock → VectorClock
resolve our ts = elim (compare_clocks ts our) [
  | happens_after ↦ ts
  | happens_before ↦ our
  | concurrent ↦ deterministic_merge our ts (extract_node_id our) (extract_node_id ts)
]

unfoldable pub merge_element : Dict VectorClock → String → VectorClock → Dict VectorClock
merge_element res e ts = elim (get res e) [
  | none ↦ put res e ts
  | some our ↦ put res e (resolve our ts)
]

unfoldable pub merge_elements : Dict VectorClock → Dict VectorClock → Dict VectorClock
merge_elements res [] = res
merge_elements res ((e, ts) ∷ other) = merge_elements (merge_element res e ts) other

-- none: the keys differ
unfoldable pub merge_sets : Set → Set → Option Set
merge_sets s o =
    if str_eq s.key o.key
    then some record {
      key = s.key;
      adds = merge_elements s.adds o.adds;
      removes = merge_elements s.removes o.removes;
      timestamp = merge_clocks s.timestamp o.timestamp;
    }
    else none
