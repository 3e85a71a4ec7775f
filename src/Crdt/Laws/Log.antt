-- ===== src/Crdt/Laws/Log.antt =====
-- The bounded log.
use jmdn.Base.{
  ℕ, ◌+◌, ◌-◌, ◌≤◌, ◌≡◌, refl, sym, ap, inl, inr, List, [], ◌∷◌, ◌++◌, length, sum_by,
  sum_by-append, ltb, arith, Bool-cases,
}
use jmdn.Crdt.Heap.{Op, approx_size, OpHeap, put_front, evict, append}

-- The byte count is the size of the logged operations, and within the cap.
abbrev pub IsBounded : OpHeap → Type 0
IsBounded h = (h.bytes ≡ sum_by approx_size h.ops) × (h.bytes ≤ h.cap_bytes)

evict-append :
    (cap size : ℕ) (ops : List Op) → (evict cap size ops).evicted ++ (evict cap size ops).kept ≡ ops
unfolding evict put_front
evict-append cap size [] = refl
evict-append cap size (old ∷ ops) = elim (Bool-cases (ltb cap size)) [
  | inl e ↦ rw e (ap (λ l. old ∷ l) (evict-append cap (size - approx_size old) ops))
  | inr e ↦ rw e refl
]

evict-size :
    (cap size : ℕ) (ops : List Op)
    → size ≡ sum_by approx_size ops
    → ((evict cap size ops).size ≡ sum_by approx_size (evict cap size ops).kept)
      × ((evict cap size ops).size ≤ cap)
unfolding evict put_front
evict-size cap size [] e = ground (arith, e)
evict-size cap size (old ∷ ops) e =
    ground (arith, e, evict-size cap (size - approx_size old) ops (omega (arith, e)))

evict-fewest :
    (cap size : ℕ) (pre post : List Op)
    → size ≡ sum_by approx_size (pre ++ post)
    → sum_by approx_size post ≤ cap
    → length (evict cap size (pre ++ post)).evicted ≤ length pre
unfolding evict put_front
evict-fewest cap size [] [] e p = omega arith
evict-fewest cap size [] (x ∷ post) e p = ground (arith, e, p)
evict-fewest cap size (old ∷ pre) post e p =
    ground (arith, evict-fewest cap (size - approx_size old) pre post (omega (arith, e)) p)

-- From a log whose byte count is right and within the cap, an append keeps both, and what it evicts
-- followed by what it keeps is the log followed by the new operation, in order.
pub append-IsBounded :
    (h : OpHeap) (op : Op)
    → IsBounded h
    → IsBounded (append h op).1 × ((append h op).0 ++ (append h op).1.ops ≡ h.ops ++ (op ∷ []))
unfolding append
append-IsBounded h op b = (
  evict-size h.cap_bytes (h.bytes + approx_size op) (h.ops ++ (op ∷ []))
      (omega (arith, b.0, sum_by-append approx_size h.ops (op ∷ []))),
  evict-append h.cap_bytes (h.bytes + approx_size op) (h.ops ++ (op ∷ [])),
)

-- An append to a log whose byte count is right and within the cap evicts no more operations than
-- needed: any way to drop a first part so that the rest fits the cap drops at least as many.
pub append-evicts_fewest :
    (h : OpHeap) (op : Op) (pre post : List Op)
    → IsBounded h
    → pre ++ post ≡ h.ops ++ (op ∷ [])
    → sum_by approx_size post ≤ h.cap_bytes
    → length (append h op).0 ≤ length pre
unfolding append
append-evicts_fewest h op pre post b e p = rw (sym e) (
    evict-fewest h.cap_bytes (h.bytes + approx_size op) pre post
      (rw e (omega (arith, b.0, sum_by-append approx_size h.ops (op ∷ [])))) p)
