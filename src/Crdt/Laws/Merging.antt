-- ===== src/Crdt/Laws/Merging.antt =====
-- The merge of vector clocks, and of the counts of two counters.
use jmdn.Base.{
  ℕ, suc, ◌≡◌, ◌∙◌, false, some, String, [], ◌∷◌, get, get-put, keys, member, member-keys,
  IsDistinct, leb, str_eq, eq_iff, arith, if◌then◌else◌,
}
use jmdn.Crdt.Clock.{VectorClock, raise, merge_clocks}
use jmdn.Crdt.Counter.{GCounter, merge_counters}
use jmdn.Crdt.Laws.Clocks.{rank, rank_of}

-- The higher of two heights.
abbrev pub higher : ℕ → ℕ → ℕ
higher a b = if leb a b then b else a

rank-raise :
    (a : VectorClock) (node k : String) (t : ℕ)
    → rank (raise a node t) k ≡ (if str_eq node k then higher (rank a k) (suc t) else rank a k)
unfolding raise rank rank_of
rank-raise a node k t = ground (arith, get-put a node k t, eq_iff node k)

rank-cons :
    (b : VectorClock) (node k : String) (t : ℕ)
    → member (keys b) node ≡ false
    → rank ((node, t) ∷ b) k ≡ (if str_eq node k then suc t else rank b k)
unfolding get rank rank_of
rank-cons b node k t m = ground arith

rank-absent : (b : VectorClock) (k : String) → member (keys b) k ≡ false → rank b k ≡ 0
unfolding rank rank_of
rank-absent b k m = ground (arith, member-keys b k)

-- Merge takes the higher entry at every node, when the second clock names no node twice.
pub rank-merge_clocks :
    (a b : VectorClock) (k : String)
    → IsDistinct (keys b)
    → rank (merge_clocks a b) k ≡ higher (rank a k) (rank b k)
unfolding merge_clocks rank rank_of get
rank-merge_clocks a [] k d = ground arith
rank-merge_clocks a ((node, t) ∷ b) k d =
    rank-merge_clocks (raise a node t) b k d.1
    ∙ ground (
      arith,
      rank-raise a node k t,
      rank-cons b node k t d.0,
      rank-absent b node d.0,
      eq_iff node k,
    )

merged-maps :
    (c o r : GCounter)
    → merge_counters c o ≡ some r
    → (r.counters ≡ merge_clocks c.counters o.counters)
      × (r.timestamp ≡ merge_clocks c.timestamp o.timestamp)
unfolding merge_counters
merged-maps c o r h = ground (arith, h)

rank-merge_clocks_comm :
    (a b : VectorClock) (k : String)
    → IsDistinct (keys a)
    → IsDistinct (keys b)
    → rank (merge_clocks a b) k ≡ rank (merge_clocks b a) k
rank-merge_clocks_comm a b k da db =
    ground (arith, rank-merge_clocks a b k db, rank-merge_clocks b a k da)

-- The counts of two counters with one key, merged either way, agree at every node, and so do their
-- clocks, when no map names a node twice.
pub merge_counters_comm :
    (c o r q : GCounter) (k : String)
    → IsDistinct (keys c.counters)
    → IsDistinct (keys o.counters)
    → IsDistinct (keys c.timestamp)
    → IsDistinct (keys o.timestamp)
    → merge_counters c o ≡ some r
    → merge_counters o c ≡ some q
    → (rank r.counters k ≡ rank q.counters k) × (rank r.timestamp k ≡ rank q.timestamp k)
merge_counters_comm c o r q k d1 d2 d3 d4 h1 h2 =
    let mr = merged-maps c o r h1 in
    let mq = merged-maps o c q h2 in
    (
      rw (mr.0, mq.0) (rank-merge_clocks_comm c.counters o.counters k d1 d2),
      rw (mr.1, mq.1) (rank-merge_clocks_comm c.timestamp o.timestamp k d3 d4),
    )
