-- ===== src/Bft/Engine.antt =====
-- The engine of engine.go: its state, the tallies, the sequence numbers and the freshness of a
-- timestamp. The mutexes are not modelled: each call below is one atomic step.
use jmdn.Base.{
  ℕ, ◌+◌, ◌-◌, ◌%◌, ◌^◌, Bool, false, ◌||◌, Option, none, some, String, List, [], ◌∷◌, length, leb,
  ◌==◌, str_eq, if◌then◌else◌, Dict, get, put, has, u64,
}
use jmdn.Bft.{
  Decision, accept, reject, Bytes, BuddyInput, PrepareMessage, CommitMessage, Config, Error,
  sequence_not_monotonic,
}
use jmdn.Bft.Digest.{Crypto}
use jmdn.Bft.Byzantine.{Detector, is_byzantine}

-- Signer: `none` is an error of Sign.
abbrev pub Signer : Type 0
Signer = Bytes → Option Bytes

-- NewLocalSigner, localSigner.Sign (security.go)
unfoldable pub local_signer : Crypto → Bytes → Signer
local_signer c private_key payload =
    if length private_key == 0 then none else some (c.sign private_key payload)

pub record Engine : Type 0 where
  pub config : Config
  pub my_buddy_id : String
  pub my_decision : Decision
  pub buddies : Dict BuddyInput
  pub threshold : ℕ
  pub round : ℕ
  pub block_hash : String
  pub signer : Option Signer
  pub byzantine : Detector
  pub prepare_msgs : Dict PrepareMessage
  pub commit_msgs : Dict CommitMessage
  pub last_seq_seen : Dict ℕ

-- addPrepareMsg: the first message of a buddy stays.
unfoldable pub add_prepare_msg : Engine → PrepareMessage → Engine
add_prepare_msg e msg =
    if has e.prepare_msgs msg.buddy_id
    then e
    else record e { prepare_msgs = put e.prepare_msgs msg.buddy_id msg }

-- addCommitMsg
unfoldable pub add_commit_msg : Engine → CommitMessage → Engine
add_commit_msg e msg =
    if has e.commit_msgs msg.buddy_id
    then e
    else record e { commit_msgs = put e.commit_msgs msg.buddy_id msg }

-- One turn of a tally's loop: a vote is an ACCEPT, or counts as a rejection.
abbrev pub add_vote : Decision → ℕ × ℕ → ℕ × ℕ
add_vote d (a, r) = if str_eq d accept then (a + 1, r) else (a, r + 1)

unfoldable pub tally_prepares : Dict PrepareMessage → ℕ × ℕ
tally_prepares [] = (0, 0)
tally_prepares ((id, msg) ∷ m) = add_vote msg.decision (tally_prepares m)

-- getPrepareVoteCounts
unfoldable pub get_prepare_vote_counts : Engine → ℕ × ℕ
unfolding tally_prepares
get_prepare_vote_counts e = tally_prepares e.prepare_msgs

unfoldable pub tally_commits : ℕ → Detector → Dict CommitMessage → ℕ × ℕ
tally_commits now b [] = (0, 0)
tally_commits now b ((id, msg) ∷ m) =
    let rest = tally_commits now b m in
    if is_byzantine now b id then rest else add_vote msg.decision rest

-- getCommitVoteCountsClean
unfoldable pub get_commit_vote_counts_clean : ℕ → Engine → ℕ × ℕ
unfolding tally_commits
get_commit_vote_counts_clean now e = tally_commits now e.byzantine e.commit_msgs

-- The test that both waiting loops make at a tick.
unfoldable pub verdict : ℕ → ℕ × ℕ → Option Decision
verdict threshold (accept_count, reject_count) =
    if leb threshold accept_count
    then some accept
    else if leb threshold reject_count
    then some reject
    else none

-- collectPrepareProof: `n` messages are collected already.
unfoldable pub collect_proof : Decision → ℕ → ℕ → Dict PrepareMessage → List PrepareMessage
collect_proof d threshold n [] = []
collect_proof d threshold n ((id, msg) ∷ m) =
    let taken =
      (let more = collect_proof d threshold (n + 1) m in
        msg ∷ (if leb threshold (n + 1) then [] else more)) in
    let skipped = collect_proof d threshold n m in if str_eq msg.decision d then taken else skipped

unfoldable pub collect_prepare_proof : Engine → Decision → List PrepareMessage
unfolding collect_proof
collect_prepare_proof e d = collect_proof d e.threshold 0 e.prepare_msgs

-- The zero value of a missing key.
abbrev pub or_zero : Option ℕ → ℕ
or_zero none = 0
or_zero (some n) = n

-- checkAndMarkSeq
unfoldable pub check_and_mark_seq : Engine → String → ℕ → Engine × Option Error
check_and_mark_seq e buddy_id seq =
    if leb seq (or_zero (get e.last_seq_seen buddy_id))
    then (e, some sequence_not_monotonic)
    else (record e { last_seq_seen = put e.last_seq_seen buddy_id seq }, none)

-- ensureSeqForSelf; `last++` on a uint64 wraps.
unfoldable pub ensure_seq_for_self : Engine → Engine × ℕ
ensure_seq_for_self e =
    let last = u64 (or_zero (get e.last_seq_seen e.my_buddy_id) + 1) in
    (record e { last_seq_seen = put e.last_seq_seen e.my_buddy_id last }, last)

-- isTimestampFresh on int64 bit patterns: the subtraction and the negation wrap, and a pattern
-- from 2 ^ 63 on is a negative number.
unfoldable pub is_timestamp_fresh : ℕ → ℕ → Bool
is_timestamp_fresh now ts =
    let diff = (now + 2 ^ 64 - ts) % 2 ^ 64 in
    let size = if leb (2 ^ 63) diff then (2 ^ 64 - diff) % 2 ^ 64 else diff in
    if ts == 0 then false else leb size 30 || leb (2 ^ 63) size
