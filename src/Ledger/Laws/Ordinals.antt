-- ===== src/Ledger/Laws/Ordinals.antt =====
-- The nonces that the sequencer stamps on a block.
use jmdn.Base.{
  ℕ, ◌+◌, ◌≤◌, ◌<◌, ◌≡◌, ◌≢◌, refl, sym, ap, ◌∙◌, ◌⊎◌, inl, inr, Bool, true, Option, none, some,
  List, [], ◌∷◌, length, get_elem?, ◌==◌, if-either, if-second, Table, find, holds, arith,
  Bool-cases,
}
use jmdn.Ledger.{Tx, Block, Ledger}
use jmdn.Ledger.Markers.{art_ordinal_max, read_art_ordinal_next}
use jmdn.Ledger.Stage.{Read}
use jmdn.Ledger.Ordinals.{
  OrdinalFaults, reserve_art_ordinals, touched, identity_of, collect, sort_addrs, assign,
  nonce_or_zero, carry, reserve_for, enriched, enrich_collected, ordinal_read,
  enrich_block_account_nonces,
}
use jmdn.Ledger.Laws.Collected.{
  holds-sort, length-sort, assign-outside, IsAt, assign-IsAt, find-carry, IsKnown, collect-IsKnown,
  unknown-identity, collect-length,
}

reserve-some :
    (faults : OrdinalFaults) (n : ℕ) (l : Ledger) (first : ℕ)
    → read_art_ordinal_next l.art_next ≤ art_ordinal_max
    → n ≤ art_ordinal_max
    → (reserve_art_ordinals faults n l).0 ≡ some first
    → (first ≡ read_art_ordinal_next l.art_next)
      × ((reserve_art_ordinals faults n l).1.art_next ≡ some (first + n))
      × (first + n < art_ordinal_max)
unfolding reserve_art_ordinals
reserve-some faults n l first bound few h = ground (arith, h, bound, few)

-- The nonce of an address: the stored one, or the ordinal of its place among the unknown addresses.
abbrev IsStamped : (ℕ → Read) → ℕ → List ℕ → Table ℕ → ℕ → Type 0
IsStamped read first order carried a =
    (n : ℕ) × (find carried a ≡ some n)
    × ((identity_of (read a) ≡ some (some n))
        ⊎ ((identity_of (read a) ≡ some none) × IsAt first order a (some n)))

abbrev Stamps : (ℕ → Read) → List ℕ → Ledger → Option Block × Ledger → Type 0
Stamps read addrs l r =
    (b' : Block)
    → r.0 ≡ some b'
    → (order : List ℕ) × (read_art_ordinal_next l.art_next + length order
        ≤ read_art_ordinal_next r.1.art_next)
      × ((a : ℕ)
          → holds addrs a ≡ true
          → IsStamped read (read_art_ordinal_next l.art_next) order b'.account_nonces a)

known-IsStamped :
    (read : ℕ → Read) (first : ℕ) (order addrs : List ℕ) (nonces : Table ℕ) (a : ℕ)
    → holds addrs a ≡ true
    → IsKnown read nonces a
    → IsStamped read first order (carry nonces addrs) a
unfolding nonce_or_zero
known-IsStamped read first order addrs nonces a m (n, i, f) =
    (n, find-carry nonces addrs a m ∙ rw f refl, inl i)

read_next-some : (o : Option ℕ) (k : ℕ) → o ≡ some k → k ≤ read_art_ordinal_next o
unfolding read_art_ordinal_next
read_next-some o k e = rw e (ground arith)

nonces_of :
    (b b' : Block) (t : Table ℕ)
    → some (record b { account_nonces = t }) ≡ some b'
    → b'.account_nonces ≡ t
nonces_of b b' t h = ground (arith, h)

ordered-Stamps :
    (before : ℕ → ℕ → Bool) (b : Block) (read : ℕ → Read) (nonces : Table ℕ) (unknown : List ℕ)
    (l : Ledger) (reserved : Option ℕ × Ledger) (b' : Block)
    → collect read (touched b.transactions []) ≡ some (nonces, unknown)
    → ((first : ℕ)
        → reserved.0 ≡ some first
        → (first ≡ read_art_ordinal_next l.art_next)
          × (reserved.1.art_next ≡ some (first + length unknown))
          × (first + length unknown < art_ordinal_max))
    → (enriched b (touched b.transactions []) (
      elim reserved.0 [
        | none ↦ none
        | some first ↦ some (assign first (sort_addrs before unknown) nonces)
      ],
      reserved.1,
    )).0
      ≡ some b'
    → (order : List ℕ) × (read_art_ordinal_next l.art_next + length order
        ≤ read_art_ordinal_next
            (enriched b (touched b.transactions []) (
              elim reserved.0 [
                | none ↦ none
                | some first ↦ some (assign first (sort_addrs before unknown) nonces)
              ],
              reserved.1,
            )).1.art_next)
      × ((a : ℕ)
          → holds (touched b.transactions []) a ≡ true
          → IsStamped read (read_art_ordinal_next l.art_next) order b'.account_nonces a)
unfolding enriched nonce_or_zero
ordered-Stamps before b read nonces unknown l (none, l') b' c k h = absurd (ground (arith, h))
ordered-Stamps before b read nonces unknown l (some first, l') b' c k h = (
  sort_addrs before unknown,
  omega (
    arith,
    length-sort before unknown,
    (k first refl).0,
    read_next-some l'.art_next (first + length unknown) (k first refl).1,
  ),
  λ a m. rw (nonces_of b b' (carry given addrs) h) (stamped a m),
)
  where
    addrs : List ℕ
    addrs = touched b.transactions []

    given : Table ℕ
    given = assign first (sort_addrs before unknown) nonces

    stamped :
        (a : ℕ)
        → holds addrs a ≡ true
        → IsStamped read
            (read_art_ordinal_next l.art_next)
            (sort_addrs before unknown)
            (carry given addrs)
            a
    stamped a m = elim (Bool-cases (holds unknown a)) [
      | inl u ↦
          let (i, lt, at_i, q) =
            assign-IsAt first (sort_addrs before unknown) nonces a
              (omega (arith, (k first refl).2, length-sort before unknown))
              (holds-sort before unknown a ∙ u) in
          (
            first + i,
            find-carry given addrs a m ∙ rw q refl,
            inr (
              unknown-identity read addrs nonces unknown a c u,
              (i, lt, at_i, ap (λ x. some (x + i)) (k first refl).0),
            ),
          )
      | inr u ↦ known-IsStamped read _ (sort_addrs before unknown) addrs given a m (
          let (n, j, f) = collect-IsKnown read addrs nonces unknown a c m u in
          (
            n,
            j,
            assign-outside first (sort_addrs before unknown) nonces a
                  (holds-sort before unknown a ∙ u)
                ∙ f,
          ))
    ]

collected-Stamps :
    (before : ℕ → ℕ → Bool) (faults : OrdinalFaults) (b : Block) (read : ℕ → Read)
    (nonces : Table ℕ) (unknown : List ℕ) (l : Ledger)
    → read_art_ordinal_next l.art_next ≤ art_ordinal_max
    → length (touched b.transactions []) ≤ art_ordinal_max
    → collect read (touched b.transactions []) ≡ some (nonces, unknown)
    → Stamps read
        (touched b.transactions [])
        l
        (enriched b (touched b.transactions []) (reserve_for before faults nonces unknown l))
unfolding enriched reserve_for holds
collected-Stamps before faults b read nonces [] l bound few c b' h = (
  [],
  omega arith,
  λ a m. rw (nonces_of b b' (carry nonces (touched b.transactions [])) h) (
      known-IsStamped read _ [] (touched b.transactions []) nonces a m
        (collect-IsKnown read (touched b.transactions []) nonces [] a c m refl)),
)
collected-Stamps before faults b read nonces (u ∷ us) l bound few c b' h =
    ordered-Stamps before b read nonces (u ∷ us) l (reserve_art_ordinals faults (length (u ∷ us)) l)
      b' c
      (λ first e.
        reserve-some faults (length (u ∷ us)) l first bound
          (omega (arith, few, collect-length read (touched b.transactions []) nonces (u ∷ us) c)) e)
      h

option-Stamps :
    (before : ℕ → ℕ → Bool) (faults : OrdinalFaults) (b : Block) (read : ℕ → Read) (l : Ledger)
    (o : Option (Table ℕ × List ℕ))
    → read_art_ordinal_next l.art_next ≤ art_ordinal_max
    → length (touched b.transactions []) ≤ art_ordinal_max
    → collect read (touched b.transactions []) ≡ o
    → Stamps read (touched b.transactions []) l (enrich_collected before faults b o l)
unfolding enrich_collected
option-Stamps before faults b read l none bound few c b' h = absurd (ground (arith, h))
option-Stamps before faults b read l (some (nonces, unknown)) bound few c b' h =
    collected-Stamps before faults b read nonces unknown l bound few c b' h

none_touched :
    (txs : List Tx) (a : ℕ) → (length txs == 0) ≡ true → ¬ (holds (touched txs []) a ≡ true)
unfolding touched holds
none_touched [] a e m = ground (arith, m)
none_touched (tx ∷ txs) a e m = ground (arith, e)

enrich-Stamps :
    (before : ℕ → ℕ → Bool) (faults : OrdinalFaults) (b : Block) (l : Ledger) (a : ℕ)
    → read_art_ordinal_next l.art_next ≤ art_ordinal_max
    → length (touched b.transactions []) ≤ art_ordinal_max
    → holds (touched b.transactions []) a ≡ true
    → Stamps
        (ordinal_read faults l.accounts)
        (touched b.transactions [])
        l
        (enrich_block_account_nonces before faults b l)
unfolding enrich_block_account_nonces
enrich-Stamps before faults b l a bound few m = elim (Bool-cases (length b.transactions == 0)) [
  | inl e ↦ absurd (none_touched b.transactions a e m)
  | inr e ↦
      if-second (Stamps (ordinal_read faults l.accounts) (touched b.transactions []) l)
        (length b.transactions == 0) _ e
        (if-either (Stamps (ordinal_read faults l.accounts) (touched b.transactions []) l)
          faults.no_connection (λ b' h. absurd (ground (arith, h)))
          (option-Stamps before faults b (ordinal_read faults l.accounts) l _ bound few refl))
]

some_inj : (n k : ℕ) → some n ≡ some k → n ≡ k
some_inj n k h = ground (arith, h)

same_place :
    (order : List ℕ) (i j a a' : ℕ)
    → get_elem? order i ≡ some a
    → get_elem? order j ≡ some a'
    → i ≡ j
    → a ≡ a'
same_place order i j a a' h g e = some_inj a a' (sym h ∙ ap (get_elem? order) e ∙ g)

stamped-place :
    (read : ℕ → Read) (first : ℕ) (order : List ℕ) (carried : Table ℕ) (a : ℕ)
    → IsStamped read first order carried a
    → identity_of (read a) ≡ some none
    → (i : ℕ) × (get_elem? order i ≡ some a) × (find carried a ≡ some (first + i))
stamped-place read first order carried a (n, f, inl k) e = absurd (ground (arith, k, e))
stamped-place read first order carried a (n, f, inr (k, place)) e =
    let (i, lt, at_i, q) = place in (i, at_i, f ∙ q)

-- Each sender and recipient of a block that is stamped carries a nonce: the stored one, or, when the
-- account is missing or has the nonce 0, an ordinal that was not given out before the call and is
-- below the next one after it. Both the next ordinal and the number of addresses are within the space
-- of the ordinals.
pub stamped_nonce :
    (before : ℕ → ℕ → Bool) (faults : OrdinalFaults) (b b' : Block) (l : Ledger) (a : ℕ)
    → read_art_ordinal_next l.art_next ≤ art_ordinal_max
    → length (touched b.transactions []) ≤ art_ordinal_max
    → holds (touched b.transactions []) a ≡ true
    → (enrich_block_account_nonces before faults b l).0 ≡ some b'
    → (n : ℕ) × (find b'.account_nonces a ≡ some n)
      × ((identity_of (ordinal_read faults l.accounts a) ≡ some (some n))
          ⊎ ((identity_of (ordinal_read faults l.accounts a) ≡ some none)
              × (read_art_ordinal_next l.art_next ≤ n)
              × (n
                  < read_art_ordinal_next
                      (enrich_block_account_nonces before faults b l).1.art_next)))
stamped_nonce before faults b b' l a bound few m h =
    let (order, room, all) = enrich-Stamps before faults b l a bound few m b' h in
    let (n, f, s) = all a m in
    (
      n,
      f,
      elim s [
        | inl k ↦ inl k
        | inr (k, place) ↦ inr (k, (in_room n order room place).0, (in_room n order room place).1)
      ],
    )
  where
    in_room :
        (n : ℕ) (order : List ℕ)
        → read_art_ordinal_next l.art_next + length order
          ≤ read_art_ordinal_next (enrich_block_account_nonces before faults b l).1.art_next
        → IsAt (read_art_ordinal_next l.art_next) order a (some n)
        → (read_art_ordinal_next l.art_next ≤ n)
          × (n < read_art_ordinal_next (enrich_block_account_nonces before faults b l).1.art_next)
    in_room n order room (i, lt, at_i, q) =
        (omega (arith, some_inj n _ q), omega (arith, some_inj n _ q, lt, room))

-- Two different senders or recipients of a stamped block that are missing, or have the nonce 0, carry
-- different nonces, when the next ordinal and the number of addresses are within the space of the
-- ordinals.
pub stamped_apart :
    (before : ℕ → ℕ → Bool) (faults : OrdinalFaults) (b b' : Block) (l : Ledger) (a a' : ℕ)
    → read_art_ordinal_next l.art_next ≤ art_ordinal_max
    → length (touched b.transactions []) ≤ art_ordinal_max
    → holds (touched b.transactions []) a ≡ true
    → holds (touched b.transactions []) a' ≡ true
    → (enrich_block_account_nonces before faults b l).0 ≡ some b'
    → identity_of (ordinal_read faults l.accounts a) ≡ some none
    → identity_of (ordinal_read faults l.accounts a') ≡ some none
    → ◌≢◌ {A = ℕ} a a'
    → ◌≢◌ {A = Option ℕ} (find b'.account_nonces a) (find b'.account_nonces a')
stamped_apart before faults b b' l a a' bound few m m' h i i' apart e =
    let (order, room, all) = enrich-Stamps before faults b l a bound few m b' h in
    let (p, at_p, f) =
      stamped-place (ordinal_read faults l.accounts) (read_art_ordinal_next l.art_next) order
        b'.account_nonces a (all a m) i in
    let (q, at_q, g) =
      stamped-place (ordinal_read faults l.accounts) (read_art_ordinal_next l.art_next) order
        b'.account_nonces a' (all a' m') i' in
    apart (
      same_place order p q a a' at_p at_q (
        omega (
          arith,
          some_inj (read_art_ordinal_next l.art_next + p) (read_art_ordinal_next l.art_next + q)
              (sym f ∙ e ∙ g),
        )))
