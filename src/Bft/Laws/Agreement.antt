-- ===== src/Bft/Laws/Agreement.antt =====
-- The safety of RunConsensus: two members of one committee that decide differently.
use jmdn.Base.{
  ℕ, ◌∙◌, ap, suc, ◌≤◌, ◌<◌, ◌≡◌, refl, sym, Bool, true, false, not, ◌&&◌, ◌||◌, Option, some,
  String, List, [], ◌∷◌, arith, Dict, get, has, put, eq_iff, str_eq, All, length, member, count_by,
  passes, count_by-le_of_keys, get-put,
}
use jmdn.Quorum.{bft_threshold, byzantine_tolerance}
use jmdn.Quorum.Overlap.{quorum_overlap}
use jmdn.Bft.{Config, Decision, accept, reject, BuddyInput, CommitMessage, Error}
use jmdn.Bft.Digest.{Crypto}
use jmdn.Bft.Byzantine.{Detector}
use jmdn.Bft.Engine.{Engine, Signer, tally_commits, verdict, get_commit_vote_counts_clean}
use jmdn.Bft.Phases.{Result, ok, Messenger, PrepareEvent, CommitEvent}
use jmdn.Bft.Consensus.{Clock, Outcome, run_phases, prepare_engine, buddy_map, calculate_threshold}
use jmdn.Bft.Laws.Invariant.{Inv, CommitFor}
use jmdn.Bft.Laws.Deciding.{Decided, run_phases-Decided}

-- Whether a store holds an ACCEPT, or another vote, of a member.
abbrev pub accepts : CommitMessage → Bool
accepts msg = str_eq msg.decision accept

abbrev pub rejects : CommitMessage → Bool
rejects msg = not (str_eq msg.decision accept)

tally_commits-le :
    (at : ℕ) (b : Detector) (m : Dict CommitMessage)
    → ((tally_commits at b m).0 ≤ count_by (λ (e : String × CommitMessage). accepts e.1) m)
      × ((tally_commits at b m).1 ≤ count_by (λ (e : String × CommitMessage). rejects e.1) m)
unfolding tally_commits
tally_commits-le at b [] = (omega arith, omega arith)
tally_commits-le at b ((id, msg) ∷ m) =
    (ground (arith, tally_commits-le at b m), ground (arith, tally_commits-le at b m))

verdict-accept :
    (t : ℕ) (votes : ℕ × ℕ) (d : Decision)
    → verdict t votes ≡ some d
    → str_eq d accept ≡ true
    → t ≤ votes.0
unfolding verdict
verdict-accept t (a, r) d h k = ground (arith, eq_iff d accept, eq_iff reject accept)

verdict-reject :
    (t : ℕ) (votes : ℕ × ℕ) (d : Decision)
    → verdict t votes ≡ some d
    → str_eq d accept ≡ false
    → t ≤ votes.1
unfolding verdict
verdict-reject t (a, r) d h k = ground (arith, eq_iff d accept, eq_iff accept accept)

-- The ids of the committee, as RunConsensus is given it.
abbrev pub ids : List BuddyInput → List String
ids [] = []
ids (b ∷ bs) = b.id ∷ ids bs

has-buddy_map :
    (m : Dict BuddyInput) (bs : List BuddyInput) (k : String)
    → has (buddy_map m bs) k ≡ true
    → (has m k || member (ids bs) k) ≡ true
unfolding buddy_map member
has-buddy_map m [] k h = ground arith
has-buddy_map m (b ∷ bs) k h =
    ground (arith, has-buddy_map (put m b.id b) bs k h, get-put m b.id k b)

prepare_engine-Inv :
    (c : Crypto) (config : Config) (round : ℕ) (block_hash me : String) (all : List BuddyInput)
    (signer : Option Signer) (s : Engine)
    → prepare_engine c config round block_hash me all signer ≡ ok s
    → Inv s s × (s.buddies ≡ buddy_map [] all) × (s.threshold ≡ bft_threshold (length all))
unfolding prepare_engine calculate_threshold
prepare_engine-Inv c config round block_hash me all signer s h = ground arith

-- One member's call of RunConsensus: what it is given, and what reaches it.
pub record Call : Type 0 where
  pub crypto : Crypto
  pub net : Messenger
  pub clock : Clock
  pub config : Config
  pub round : ℕ
  pub block_hash : String
  pub me : String
  pub all : List BuddyInput
  pub signer : Option Signer
  pub prepares : List PrepareEvent
  pub commits : List CommitEvent

-- The engine that a call starts with, and what it ends with.
abbrev pub start : Call → Result Engine
start k = prepare_engine k.crypto k.config k.round k.block_hash k.me k.all k.signer

abbrev pub run : Call → Engine → Engine × Outcome × Option Error
run k s = run_phases k.crypto k.net k.clock (length k.all) s k.prepares k.commits

-- Whether an engine holds a COMMIT of a member for accepting, or for another decision.
abbrev pub holds_accept : Engine → String → Bool
holds_accept e id = passes accepts (get e.commit_msgs id)

abbrev pub holds_reject : Engine → String → Bool
holds_reject e id = passes rejects (get e.commit_msgs id)

known-members :
    (s : Engine) (all : List BuddyInput) (m : Dict CommitMessage)
    → s.buddies ≡ buddy_map [] all
    → All (CommitFor s) m
    → All (λ (e : String × CommitMessage). member (ids all) e.0 ≡ true) m
unfolding get
known-members s all [] q h = tt
known-members s all ((id, msg) ∷ m) q h =
    (ground (arith, has-buddy_map [] all id, h.0, q), known-members s all m q h.1)

decided_votes :
    (k : Call) (s : Engine) (p : CommitMessage → Bool) (n : ℕ)
    → start k ≡ ok s
    → Inv s (run k s).0
    → n ≤ count_by (λ (e : String × CommitMessage). p e.1) (run k s).0.commit_msgs
    → n ≤ count_by (λ id. passes p (get (run k s).0.commit_msgs id)) (ids k.all)
decided_votes k s p n started inv h =
    let (_, same, _) =
      prepare_engine-Inv k.crypto k.config k.round k.block_hash k.me k.all k.signer s started in
    omega (
      arith,
      h,
      count_by-le_of_keys p (run k s).0.commit_msgs (ids k.all) inv.commits_distinct
          (known-members s k.all (run k s).0.commit_msgs same inv.commits_for),
    )

length-ids : (all : List BuddyInput) → length (ids all) ≡ length all
length-ids [] = refl
length-ids (b ∷ bs) = ap suc (length-ids bs)

start-Inv :
    (k : Call) (s : Engine)
    → start k ≡ ok s
    → Inv s s × (s.buddies ≡ buddy_map [] k.all) × (s.threshold ≡ bft_threshold (length k.all))
start-Inv k s = prepare_engine-Inv k.crypto k.config k.round k.block_hash k.me k.all k.signer s

run-Decided :
    (k : Call) (s : Engine)
    → start k ≡ ok s
    → (run k s).1.success ≡ true
    → Decided s (run k s).0 (run k s).1.block_accepted
run-Decided k s h =
    run_phases-Decided k.crypto k.net k.clock (length k.all) s k.prepares k.commits
      (start-Inv k s h).0

-- A call that accepts holds a quorum of COMMITs for accepting; one that rejects, a quorum of others.
accept_quorum :
    (k : Call) (s : Engine)
    → start k ≡ ok s
    → (run k s).1.success ≡ true
    → (run k s).1.block_accepted ≡ true
    → bft_threshold (length k.all) ≤ count_by (holds_accept (run k s).0) (ids k.all)
unfolding get_commit_vote_counts_clean
accept_quorum k s h ks acc =
    let x = run-Decided k s h ks in
    decided_votes k s accepts (bft_threshold (length k.all)) h x.inv (
      omega (
        arith,
        x.inv.setting.same_threshold,
        (start-Inv k s h).2,
        verdict-accept (run k s).0.threshold
            (tally_commits x.at (run k s).0.byzantine (run k s).0.commit_msgs) x.decision x.by_votes
            (sym x.accepted_lem ∙ acc),
        tally_commits-le x.at (run k s).0.byzantine (run k s).0.commit_msgs,
      ))

reject_quorum :
    (k : Call) (s : Engine)
    → start k ≡ ok s
    → (run k s).1.success ≡ true
    → (run k s).1.block_accepted ≡ false
    → bft_threshold (length k.all) ≤ count_by (holds_reject (run k s).0) (ids k.all)
unfolding get_commit_vote_counts_clean
reject_quorum k s h ks rej =
    let x = run-Decided k s h ks in
    decided_votes k s rejects (bft_threshold (length k.all)) h x.inv (
      omega (
        arith,
        x.inv.setting.same_threshold,
        (start-Inv k s h).2,
        verdict-reject (run k s).0.threshold
            (tally_commits x.at (run k s).0.byzantine (run k s).0.commit_msgs) x.decision x.by_votes
            (sym x.accepted_lem ∙ rej),
        tally_commits-le x.at (run k s).0.byzantine (run k s).0.commit_msgs,
      ))

-- Two members run RunConsensus over one committee: the same ids in the same order, at least one of
-- them; rounds, blocks, keys, decisions, signers, clocks and everything that arrives may differ. If
-- both calls succeed, one accepting and one rejecting, then more members than the committee
-- tolerates as faulty have a COMMIT for accepting held by the first and a COMMIT for another
-- decision held by the second.
pub run_consensus_agreement :
    (k l : Call) (s t : Engine)
    → start k ≡ ok s
    → start l ≡ ok t
    → ids k.all ≡ ids l.all
    → 0 < length k.all
    → (run k s).1.success ≡ true
    → (run l t).1.success ≡ true
    → (run k s).1.block_accepted ≡ true
    → (run l t).1.block_accepted ≡ false
    → byzantine_tolerance (length k.all)
      < count_by (λ id. holds_accept (run k s).0 id && holds_reject (run l t).0 id) (ids k.all)
run_consensus_agreement k l s t hs ht same some_member ks lt acc rej = omega (
  arith,
  ap byzantine_tolerance (length-ids k.all),
  quorum_overlap (holds_accept (run k s).0) (holds_reject (run l t).0) (ids k.all)
      (omega (arith, length-ids k.all)) (rw length-ids (accept_quorum k s hs ks acc))
      (rw (length-ids, sizes) (rw (← same) at (reject_quorum l t ht lt rej))),
)
  where
    sizes : length k.all ≡ length l.all
    sizes = sym (length-ids k.all) ∙ (ap length same ∙ length-ids l.all)
