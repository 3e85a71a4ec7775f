-- ===== src/Committee/Linkage.antt =====
-- consensus_hardening.go: checkLinkage, linkageDecision and stateRootChain. The readers of the local
-- state are parameters, none being an error; the heights stay below 2 ^ 64, where localTip+1 wraps.
use jmdn.Base.{
  ℕ, ◌+◌, Bool, false, ◌&&◌, not, Option, none, some, ◌++◌, u64, ltb, leb, ◌==◌, if◌then◌else◌,
}
use jmdn.Committee.Body.{
  Hash, zero_hash, hash_eq, Hashing, ZkBlock, Rejection, tip_unreadable, not_bootstrapped,
  stale_height, height_gap, parent_unavailable, bad_parent, bad_stateroot,
}

pub record Chain : Type 0 where
  pub read_local_tip : Option ℕ
  pub read_block_by_number : ℕ → Option ZkBlock

module _ (h : Hashing) where
  unfoldable pub state_root_chain : Hash → Hash → Option Hash
  state_root_chain parent_state_root block_hash =
      if hash_eq parent_state_root zero_hash
      then none
      else some (h.keccak256 (parent_state_root ++ block_hash))

  -- `wantStateRoot, ok := stateRootChain(...); ok && b.StateRoot != wantStateRoot`
  unfoldable pub state_root_differs : Option Hash → Hash → Bool
  state_root_differs none state_root = false
  state_root_differs (some want) state_root = not (hash_eq state_root want)

  unfoldable pub parent_decision : ZkBlock → Option ZkBlock → Option Rejection
  parent_decision b none = some parent_unavailable
  parent_decision b (some parent) =
      if not (hash_eq b.prev_hash parent.block_hash)
      then some bad_parent
      else if state_root_differs (state_root_chain parent.state_root b.block_hash) b.state_root
      then some bad_stateroot
      else none

  unfoldable pub linkage_decision : ZkBlock → Option ℕ → Option ZkBlock → Option Rejection
  linkage_decision b none parent = some tip_unreadable
  linkage_decision b (some local_tip) parent =
      if local_tip == 0
      then some not_bootstrapped
      else if leb b.block_number local_tip
      then some stale_height
      else if ltb (u64 (local_tip + 1)) b.block_number
      then some height_gap
      else parent_decision b parent

  -- The parent is read for the next height alone.
  unfoldable pub read_parent : Chain → ZkBlock → Option ZkBlock
  read_parent c b = elim c.read_local_tip [
    | none ↦ none
    | some local_tip ↦
        if ltb 0 local_tip && (b.block_number == u64 (local_tip + 1))
        then c.read_block_by_number local_tip
        else none
  ]

  -- Whether catch-up is asked for, from which block on.
  unfoldable pub request_catch_up : Option Rejection → Option ℕ → Option ℕ
  request_catch_up (some height_gap) (some local_tip) = some (u64 (local_tip + 1))
  request_catch_up (some not_bootstrapped) (some local_tip) = some (u64 (local_tip + 1))
  request_catch_up rej tip = none

  unfoldable pub check_linkage : Chain → ZkBlock → Option Rejection × Option ℕ
  check_linkage c b =
      let rej = linkage_decision b c.read_local_tip (read_parent c b) in
      (rej, request_catch_up rej c.read_local_tip)
