-- ===== src/Crdt/Heap.antt =====
-- Heap.go: OpHeap, a first-in first-out log of operations with a bound in bytes. The sizes stay
-- below 2 ^ 63, and the cap is not negative.
use jmdn.Base.{ℕ, ◌+◌, ◌-◌, ◌*◌, String, List, [], ◌∷◌, ◌++◌, length, sum_by, ltb, if◌then◌else◌}
use jmdn.Bft.Digest.{bytes}
use jmdn.Crdt.Clock.{VectorClock}

pub data OpKind : Type 0 where
  op_add op_remove op_counter_inc : OpKind
  unknown : ℕ → OpKind

pub record Op : Type 0 where
  pub key : String
  pub kind : OpKind
  pub node_id : String
  pub element : String
  pub value : ℕ
  pub ts : VectorClock
  pub wall_time : ℕ

-- len(s)
unfoldable pub byte_length : String → ℕ
byte_length s = length (bytes s)

unfoldable pub approx_size : Op → ℕ
approx_size o =
    8
    + 8
    + 1
    + 7
    + 8
    + 8
    + 8
    + 8
    + 24
    + (16 + byte_length o.key)
    + (16 + byte_length o.node_id)
    + (16 + byte_length o.element)
    + (8 + 8)
    + sum_by (λ (e : String × ℕ). 16 + byte_length e.0 + 8 + 8) o.ts
    + length o.ts * 2

pub record OpHeap : Type 0 where
  pub ops : List Op
  pub bytes : ℕ
  pub cap_bytes : ℕ

unfoldable pub new_op_heap : ℕ → OpHeap
new_op_heap cap_bytes = record { ops = []; bytes = 0; cap_bytes = cap_bytes }

-- The evicted operations, and the operations and the bytes that stay.
pub record Eviction : Type 0 where
  pub evicted : List Op
  pub kept : List Op
  pub size : ℕ

unfoldable pub put_front : Op → Eviction → Eviction
put_front old e = record { evicted = old ∷ e.evicted; kept = e.kept; size = e.size }

-- for h.bytes > h.capBytes && h.ops.Len() > 0
unfoldable pub evict : ℕ → ℕ → List Op → Eviction
evict cap size [] = record { evicted = []; kept = []; size = size }
evict cap size (old ∷ ops) =
    let rest = evict cap (size - approx_size old) ops in
    if ltb cap size
    then put_front old rest
    else record { evicted = []; kept = old ∷ ops; size = size }

unfoldable pub append : OpHeap → Op → List Op × OpHeap
append h op =
    let e = evict h.cap_bytes (h.bytes + approx_size op) (h.ops ++ (op ∷ [])) in
    (e.evicted, record { ops = e.kept; bytes = e.size; cap_bytes = h.cap_bytes })

pub record HeapStats : Type 0 where
  pub len : ℕ
  pub bytes : ℕ

unfoldable pub stats : OpHeap → HeapStats
stats h = record { len = length h.ops; bytes = h.bytes }
