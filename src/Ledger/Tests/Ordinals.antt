-- ===== src/Ledger/Tests/Ordinals.antt =====
-- Runs of the stamping of a block, and its theorems at concrete inputs.
use jmdn.Base.{
  ℕ, ltb, ◌<◌, ◌≤◌, ◌≡◌, ◌≢◌, ◌⊎◌, refl, Option, none, some, true, false, [], ◌∷◌, find, store,
  holds, arith,
}
use jmdn.Ledger.{Block}
use jmdn.Ledger.Markers.{art_ordinal_max, read_art_ordinal_next}
use jmdn.Ledger.Stage.{read_of}
use jmdn.Ledger.Ordinals.{
  OrdinalFaults, enrich_block_account_nonces, enrich_collected, enriched, reserve_for,
  reserve_art_ordinals, collect, with_identity, identity_of, ordinal_read, touched, touch,
  sort_addrs, insert_addr, assign, carry, nonce_or_zero,
}
use jmdn.Ledger.Laws.Ordinals.{stamped_nonce, stamped_apart}
use jmdn.Ledger.Tests.{block_of, transfer, ledger}

-- Two addresses that are not stored, and one that is.
abbrev creating : Block
creating = block_of (transfer "x" 1 9 100 0 ∷ (transfer "y" 1 8 60 0 ∷ []))

abbrev no_ordinal_faults : OrdinalFaults
no_ordinal_faults = record {
  no_connection = false;
  unread = λ addr. false;
  next_unread = false;
  next_unwritten = false;
}

abbrev stamped : Block
stamped = record creating { account_nonces = (1, 1) ∷ ((9, 2) ∷ ((8, 1) ∷ [])) }

creating-touched : touched creating.transactions [] ≡ 1 ∷ (9 ∷ (8 ∷ []))
unfolding touched touch holds
creating-touched = refl

creating-stamped :
    (enrich_block_account_nonces ltb no_ordinal_faults creating ledger).0 ≡ some stamped
unfolding enrich_block_account_nonces enrich_collected enriched reserve_for reserve_art_ordinals
    read_art_ordinal_next collect with_identity identity_of ordinal_read read_of touched touch holds
    find store sort_addrs insert_addr assign carry nonce_or_zero
creating-stamped = refl

unknown :
    (addr : ℕ)
    → find ledger.accounts addr ≡ none
    → identity_of (ordinal_read no_ordinal_faults ledger.accounts addr) ≡ some none
unfolding identity_of ordinal_read read_of
unknown addr h = rw h refl

next-bound : read_art_ordinal_next ledger.art_next ≤ art_ordinal_max
unfolding read_art_ordinal_next
next-bound = omega arith

nine : holds (1 ∷ (9 ∷ (8 ∷ []))) 9 ≡ true
unfolding holds
nine = refl

eight : holds (1 ∷ (9 ∷ (8 ∷ []))) 8 ≡ true
unfolding holds
eight = refl

not_nine : find ledger.accounts 9 ≡ none
unfolding find
not_nine = refl

not_eight : find ledger.accounts 8 ≡ none
unfolding find
not_eight = refl

stamped_nonce_example :
    (n : ℕ) × (find stamped.account_nonces 9 ≡ some n)
    × ((identity_of (ordinal_read no_ordinal_faults ledger.accounts 9) ≡ some (some n))
        ⊎ ((identity_of (ordinal_read no_ordinal_faults ledger.accounts 9) ≡ some none)
            × (read_art_ordinal_next ledger.art_next ≤ n)
            × (n
                < read_art_ordinal_next
                    (enrich_block_account_nonces ltb no_ordinal_faults creating
                      ledger).1.art_next)))
stamped_nonce_example =
    stamped_nonce ltb no_ordinal_faults creating stamped ledger 9 next-bound
      (rw creating-touched (omega arith)) (rw creating-touched nine) creating-stamped

stamped_apart_example :
    ◌≢◌ {A = Option ℕ} (find stamped.account_nonces 9) (find stamped.account_nonces 8)
stamped_apart_example =
    stamped_apart ltb no_ordinal_faults creating stamped ledger 9 8 next-bound
      (rw creating-touched (omega arith)) (rw creating-touched nine) (rw creating-touched eight)
      creating-stamped (unknown 9 not_nine) (unknown 8 not_eight) (omega arith)
