-- ===== src/Crdt/Laws/Ties.antt =====
-- Merging the clocks of an element that two replicas wrote at the same time.
use jmdn.Base.{◌≡◌, ◌↔◌, sym, ◌∙◌, false, String, str_lt, eq_refl, arith}
use jmdn.Crdt.Clock.{VectorClock, concurrent, compare_clocks, deterministic_merge, extract_node_id}
use jmdn.Crdt.LwwSet.{resolve}
use jmdn.Crdt.Laws.Order.{compare_clocks-after_iff}

concurrent-flip :
    (a b : VectorClock) → compare_clocks a b ≡ concurrent → compare_clocks b a ≡ concurrent
concurrent-flip a b h =
    ground (arith, h, compare_clocks-after_iff a b, compare_clocks-after_iff b a)

str_lt_irrefl : (s : String) → str_lt s s ≡ false
str_lt_irrefl s = ground (arith, eq_refl s)

resolved :
    (a b : VectorClock)
    → compare_clocks a b ≡ concurrent
    → extract_node_id a ≡ extract_node_id b
    → (resolve a b ≡ b) × (resolve b a ≡ a)
unfolding resolve deterministic_merge
resolved a b h e = ground (arith, h, concurrent-flip a b h, str_lt_irrefl (extract_node_id a), e)

-- Two clocks that Compare calls concurrent, as it does for equal ones too, and that name the same
-- node as the highest: each replica keeps the other's clock, and the two then agree on a clock just
-- when they had the same one before.
pub resolve_takes_the_other :
    (a b : VectorClock)
    → compare_clocks a b ≡ concurrent
    → extract_node_id a ≡ extract_node_id b
    → (resolve a b ≡ b) × (resolve b a ≡ a) × ((resolve a b ≡ resolve b a) ↔ (a ≡ b))
resolve_takes_the_other a b h e =
    let r = resolved a b h e in
    (r.0, r.1, (λ q. sym r.1 ∙ (sym q ∙ r.0), λ q. r.0 ∙ (sym q ∙ sym r.1)))
