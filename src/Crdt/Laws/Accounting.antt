-- ===== src/Crdt/Laws/Accounting.antt =====
-- The metrics of the store against its log.
use jmdn.Base.{
  ℕ, ◌+◌, ◌≡◌, ◌↔◌, ◌⊎◌, refl, sym, ap, ◌∙◌, inl, inr, Bool, true, false, Option, none, some, List,
  [], ◌∷◌, ◌++◌, Dict, get, length, length-append, u64, arith, Option-cases,
}
use jmdn.Crdt.Heap.{OpKind, op_add, op_remove, op_counter_inc, Op, OpHeap, append}
use jmdn.Crdt.Store.{
  Crdt, set, counter, MemStore, StoreMetrics, get_or_create_set, get_or_create_counter, set_op,
  counter_op, apply_to_objects, count_evicted, append_op,
}
use jmdn.Crdt.Laws.Log.{IsBounded, append-IsBounded}

-- The log is within its cap, and the operations counted as appended are those counted as evicted and
-- those in the log, modulo 2 ^ 64.
abbrev pub IsAccounted : MemStore → Type 0
IsAccounted s =
    IsBounded s.ops
    × (s.metrics.total_ops_appended ≡ u64 (s.metrics.total_ops_evicted + length s.ops.ops))

count_evicted-sum :
    (evicted : List Op) (now before after : ℕ) (m : StoreMetrics)
    → length evicted + after ≡ before + 1
    → m.total_ops_appended ≡ u64 (m.total_ops_evicted + before)
    → (count_evicted evicted now m).total_ops_appended
      ≡ u64 ((count_evicted evicted now m).total_ops_evicted + after)
unfolding count_evicted
count_evicted-sum [] now before after m l e = omega (arith, l, e)
count_evicted-sum (o ∷ evicted) now before after m l e = omega (arith, l, e)

append-length :
    (h : OpHeap) (op : Op)
    → IsBounded h
    → length (append h op).0 + length (append h op).1.ops ≡ length h.ops + 1
append-length h op b =
    sym (length-append (append h op).0 (append h op).1.ops)
    ∙ (ap length (append-IsBounded h op b).1 ∙ length-append h.ops (op ∷ []))

-- Whether the object under the key of an operation is of the type that the operation is not for.
abbrev pub is_other_type : Option Crdt → OpKind → Bool
is_other_type (some (counter c)) op_add = true
is_other_type (some (counter c)) op_remove = true
is_other_type (some (set s)) op_counter_inc = true
is_other_type (some (set s)) kind = false
is_other_type (some (counter c)) kind = false
is_other_type none kind = false

apply_to_objects-typed :
    (objects : Dict Crdt) (op : Op)
    → (apply_to_objects objects op ≡ none) ↔ (is_other_type (get objects op.key) op.kind ≡ true)
unfolding apply_to_objects set_op counter_op get_or_create_set get_or_create_counter
apply_to_objects-typed objects op = ground arith

other_type-applied :
    (objects : Dict Crdt) (op : Op) (after : Dict Crdt)
    → apply_to_objects objects op ≡ some after
    → is_other_type (get objects op.key) op.kind ≡ false
other_type-applied objects op after e = ground (arith, e, apply_to_objects-typed objects op)

-- In a store whose log is within its cap and whose metrics agree with it, an operation on an object of
-- the other type is answered with ErrWrongType, leaves the whole store as it is and hands nothing
-- over. Any other operation succeeds: the new objects are what apply_to_objects makes of the old ones,
-- the new log is within its cap with, modulo 2^64, as many operations counted as appended as are
-- counted as evicted or stand in the log, and what is handed over followed by the new log is the log
-- followed by the operation.
pub append_op-IsAccounted :
    (now : ℕ) (s : MemStore) (op : Op)
    → IsAccounted s
    → ((is_other_type (get s.objects op.key) op.kind ≡ true)
        × ((append_op now s op).wrong_type ≡ true)
        × ((append_op now s op).store ≡ s)
        × ((append_op now s op).handled ≡ []))
      ⊎ ((is_other_type (get s.objects op.key) op.kind ≡ false)
          × ((append_op now s op).wrong_type ≡ false)
          × (apply_to_objects s.objects op ≡ some (append_op now s op).store.objects)
          × IsAccounted (append_op now s op).store
          × ((append_op now s op).handled ++ (append_op now s op).store.ops.ops
              ≡ s.ops.ops ++ (op ∷ [])))
unfolding append_op
append_op-IsAccounted now s op a = elim (Option-cases (apply_to_objects s.objects op)) [
  | inl e ↦ inl (rw (append_op, e) ((apply_to_objects-typed s.objects op).0 e, refl, refl, refl))
  | inr p ↦ inr (
    other_type-applied s.objects op p.0 p.1,
    rw (append_op, p.1) refl,
    rw (append_op, p.1) refl,
    rw (append_op, p.1)
        (
          (append-IsBounded s.ops op a.0).0,
          count_evicted-sum (append s.ops op).0 now (length s.ops.ops)
              (length (append s.ops op).1.ops) s.metrics (append-length s.ops op a.0) a.1,
        ),
    rw (append_op, p.1) (append-IsBounded s.ops op a.0).1,
  )
]
