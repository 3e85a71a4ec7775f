-- ===== src/Ledger/Markers.antt =====
-- DB_OPs/tx_markers.go, the marker filter and the anchor of DB_OPs/sync_anchor.go, and the ordinal
-- floor of DB_OPs/art_ordinal.go.
use jmdn.Base.{
  ℕ, zero, suc, ◌+◌, ◌*◌, ◌^◌, Bool, true, false, ◌&&◌, ◌||◌, not, Option, none, some, String, List,
  [], ◌∷◌, Dict, get, put, take, length, ltb, leb, ◌==◌, u64, if◌then◌else◌, ℤ, pos, negsuc, find,
  store,
}
use jmdn.Ledger.{Account, Accounts, Marker, stamp, unparseable, Ledger}

-- MarkerRevoked
abbrev pub marker_revoked : ℤ
marker_revoked = negsuc 0

abbrev pub max_exec_all_entries : ℕ
max_exec_all_entries = 1024

unfoldable pub marker_value_applied : Marker → Bool
marker_value_applied unparseable = true
marker_value_applied (stamp (pos n)) = true
marker_value_applied (stamp (negsuc zero)) = false
marker_value_applied (stamp (negsuc (suc n))) = true

-- The two reads of a marker: accountsdb decides where it has the key.
unfoldable pub dual_read : Option Marker → Option Marker → Bool
dual_read (some m) legacy = marker_value_applied m
dual_read none (some m) = marker_value_applied m
dual_read none none = false

unfoldable pub is_tx_applied : Ledger → String → Bool
is_tx_applied l hash = dual_read (get l.tx_markers hash) (get l.legacy_tx_markers hash)

unfoldable pub is_block_applied : Ledger → String → Bool
is_block_applied l hash = dual_read (get l.block_markers hash) (get l.legacy_block_markers hash)

-- FilterProcessedTxMarkers, when both databases answer.
unfoldable pub filter_processed_tx_markers : Ledger → List String → List String
filter_processed_tx_markers l [] = []
filter_processed_tx_markers l (hash ∷ hashes) =
    let rest = filter_processed_tx_markers l hashes in
    if is_tx_applied l hash then hash ∷ rest else rest

-- One write of an account document in an ExecAll.
unfoldable pub write_doc : Accounts → ℕ → Option Account → Accounts
write_doc accounts addr none = accounts
write_doc accounts addr (some doc) = store accounts addr doc

unfoldable pub write_docs : Accounts → Accounts → List ℕ → Accounts
write_docs accounts docs [] = accounts
write_docs accounts docs (addr ∷ order) =
    write_docs (write_doc accounts addr (find docs addr)) docs order

-- ApplyTxAtomic: none is an error, which writes nothing.
unfoldable pub apply_tx_atomic : Bool → Accounts → List ℕ → String → ℕ → Ledger → Option Ledger
apply_tx_atomic fails docs order hash applied_at l =
    if length order == 0
    then none
    else if ltb max_exec_all_entries (length order + 1)
    then none
    else if fails
    then none
    else some (record l {
      accounts = write_docs l.accounts docs order;
      tx_markers = put l.tx_markers hash (stamp (pos applied_at));
    })

unfoldable pub revoke_all : Dict Marker → List String → Dict Marker
revoke_all m [] = m
revoke_all m (hash ∷ hashes) = revoke_all (put m hash (stamp marker_revoked)) hashes

-- RevokeTxProcessedMarkers, in chunks of 500: `failing` is the number of chunks that are written
-- before one fails, if one does.
unfoldable pub revoke_tx_processed_markers : Option ℕ → List String → Ledger → Ledger × Bool
revoke_tx_processed_markers failing [] l = (l, true)
revoke_tx_processed_markers none (h ∷ hs) l =
    (record l { tx_markers = revoke_all l.tx_markers (h ∷ hs) }, true)
revoke_tx_processed_markers (some chunks) (h ∷ hs) l =
    if leb (length (h ∷ hs)) (500 * chunks)
    then (record l { tx_markers = revoke_all l.tx_markers (h ∷ hs) }, true)
    else (record l { tx_markers = revoke_all l.tx_markers (take (500 * chunks) (h ∷ hs)) }, false)

unfoldable pub write_block_processed_marker : Bool → String → ℕ → Ledger → Ledger
write_block_processed_marker fails hash now l =
    if fails then l else record l { block_markers = put l.block_markers hash (stamp (pos now)) }

unfoldable pub next_live_anchor : ℕ → ℕ → ℕ × Bool
next_live_anchor current block =
    if block == u64 (current + 1) then (block, true) else (current, false)

unfoldable pub next_recon_anchor : ℕ → ℕ → ℕ × Bool
next_recon_anchor current target = if ltb current target then (target, true) else (current, false)

unfoldable pub should_advance_recon_anchor : Bool → ℕ → Bool → Bool
should_advance_recon_anchor failed failed_accounts verify_passed =
    not failed && (failed_accounts == 0) && verify_passed

unfoldable pub cap_anchor_target : ℕ → ℕ → ℕ
cap_anchor_target target tip = if ltb tip target then tip else target

-- An anchor that is not stored reads as 0.
unfoldable pub current_anchor : Option ℕ → ℕ
current_anchor none = 0
current_anchor (some anchor) = anchor

-- advanceAnchor: `fails` is an error of the connection, the read or the write.
unfoldable pub advance_anchor : Bool → Bool → ℕ → Ledger → Ledger
advance_anchor fails contiguous target l =
    let next =
      if contiguous
      then next_live_anchor (current_anchor l.anchor) target
      else next_recon_anchor (current_anchor l.anchor) target in
    if fails then l else if next.1 then record l { anchor = some next.0 } else l

-- SeedAppliedAnchor
unfoldable pub seed_applied_anchor : Bool → ℕ → Ledger → Ledger
seed_applied_anchor fails legacy l =
    if legacy == 0
    then l
    else if fails
    then l
    else elim l.anchor [ none ↦ record l { anchor = some legacy } | some a ↦ l ]

abbrev pub art_ordinal_max : ℕ
art_ordinal_max = 2 ^ 40

-- readARTOrdinalNext: 1 when the key is not stored, or holds 0.
unfoldable pub read_art_ordinal_next : Option ℕ → ℕ
read_art_ordinal_next none = 1
read_art_ordinal_next (some next) = if next == 0 then 1 else next

-- BumpARTOrdinalFloor
unfoldable pub bump_art_ordinal_floor : Bool → ℕ → Ledger → Ledger
bump_art_ordinal_floor fails floor l =
    if (floor == 0) || leb art_ordinal_max floor
    then l
    else if fails
    then l
    else if leb floor (read_art_ordinal_next l.art_next)
    then l
    else record l { art_next = some floor }
