-- ===== src/Committee/Body.antt =====
-- consensus_hardening.go: the hash of a block and the root of its transactions, computed again from
-- the transactions. Keccak-256, SHA-256 and the hexadecimal print of bytes are parameters. A level
-- of the tree is halved with as much fuel as it has nodes.
use jmdn.Base.{
  ℕ, zero, suc, ◌%◌, Bool, true, false, ◌&&◌, not, Option, none, some, String, List, [], ◌∷◌, ◌++◌,
  length, ◌==◌, str_eq, if◌then◌else◌,
}
use jmdn.Committee.Text.{trim_space, trim_0x, equal_fold}

abbrev pub Hash : Type 0
Hash = List ℕ

abbrev pub zeros : ℕ → Hash
zeros zero = []
zeros (suc n) = 0 ∷ zeros n

-- common.Hash{}
abbrev pub zero_hash : Hash
zero_hash = zeros 32

unfoldable pub hash_eq : Hash → Hash → Bool
hash_eq [] [] = true
hash_eq (a ∷ xs) (b ∷ ys) = (a == b) && hash_eq xs ys
hash_eq xs ys = false

pub record Hashing : Type 0 where
  pub keccak256 : List ℕ → Hash
  pub sha256 : List ℕ → Hash
  pub encode_to_string : List ℕ → String
  pub append_text : String → String → String

-- The fields of config.Transaction and config.ZKBlock that are read here.
pub record Transaction : Type 0 where
  pub hash : Hash

pub record ZkBlock : Type 0 where
  pub block_number : ℕ
  pub block_hash : Hash
  pub prev_hash : Hash
  pub state_root : Hash
  pub txns_root : String
  pub transactions : List Transaction

-- blockRejection.reason
pub data Rejection : Type 0 where
  body_mismatch : Rejection
  txnsroot_mismatch : Rejection
  equivocation : Rejection
  tip_unreadable : Rejection
  not_bootstrapped : Rejection
  stale_height : Rejection
  height_gap : Rejection
  parent_unavailable : Rejection
  bad_parent : Rejection
  bad_stateroot : Rejection

unfoldable pub concat_hashes : List Transaction → List ℕ
concat_hashes [] = []
concat_hashes (tx ∷ txs) = tx.hash ++ concat_hashes txs

unfoldable pub leaves : List Transaction → List Hash
leaves [] = []
leaves (tx ∷ txs) = tx.hash ∷ leaves txs

-- level = append(level, level[len(level)-1])
unfoldable pub duplicate_last : List Hash → List Hash
duplicate_last [] = []
duplicate_last (x ∷ []) = x ∷ (x ∷ [])
duplicate_last (x ∷ (y ∷ xs)) = x ∷ duplicate_last (y ∷ xs)

unfoldable pub make_even : List Hash → List Hash
make_even level = if length level % 2 == 1 then duplicate_last level else level

module _ (h : Hashing) where
  unfoldable pub recompute_block_hash_from_txs : List Transaction → Hash
  recompute_block_hash_from_txs [] = zero_hash
  recompute_block_hash_from_txs (tx ∷ txs) = h.keccak256 (concat_hashes (tx ∷ txs))

  unfoldable pub pair_up : List Hash → List Hash
  pair_up (x ∷ (y ∷ level)) = h.sha256 (x ++ y) ∷ pair_up level
  pair_up level = []

  unfoldable pub merkle_loop : ℕ → List Hash → Hash
  merkle_loop zero level = []
  merkle_loop (suc n) [] = []
  merkle_loop (suc n) (x ∷ []) = x
  merkle_loop (suc n) (x ∷ (y ∷ level)) = merkle_loop n (pair_up (make_even (x ∷ (y ∷ level))))

  unfoldable pub merkle_root : List Hash → Hash
  merkle_root (x ∷ []) = h.sha256 (x ++ x)
  merkle_root level = merkle_loop (length level) level

  unfoldable pub recompute_txns_root : List Transaction → String
  recompute_txns_root [] = "0x0000000000000000000000000000000000000000000000000000000000000000"
  recompute_txns_root (tx ∷ txs) =
      h.append_text "0x" (h.encode_to_string (merkle_root (leaves (tx ∷ txs))))

  unfoldable pub check_body_binding : ZkBlock → Option Rejection
  check_body_binding b =
      if not (hash_eq b.block_hash (recompute_block_hash_from_txs b.transactions))
      then some body_mismatch
      else if not (str_eq (trim_space b.txns_root) "")
          && not (equal_fold (trim_0x b.txns_root) (trim_0x (recompute_txns_root b.transactions)))
      then some txnsroot_mismatch
      else none
