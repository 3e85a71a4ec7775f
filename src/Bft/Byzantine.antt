-- ===== src/Bft/Byzantine.antt =====
-- byzantine.go: the members caught in a conflict, each banned for a time. Times are nanoseconds;
-- where the clock has gone back, the elapsed time is 0 here and negative there, within any ban.
use jmdn.Base.{
  ℕ, ◌-◌, ◌*◌, Bool, true, false, not, ◌||◌, Option, none, some, String, List, [], ◌∷◌, leb, ltb,
  ◌==◌, str_eq, if◌then◌else◌, Dict, get, put, keep,
}
use jmdn.Bft.{PrepareMessage, CommitMessage}

pub record Entry : Type 0 where
  pub banned_at : ℕ
  pub ttl : ℕ

abbrev pub Detector : Type 0
Detector = Dict Entry

abbrev pub new_detector : Detector
new_detector = []

-- 5 * time.Minute
abbrev pub default_ttl : ℕ
default_ttl = 300 * 1_000_000_000

-- Whether a PREPARE of a proof contradicts the one that we hold from the same member.
pub conflicts : PrepareMessage → PrepareMessage → Bool
conflicts our_prepare proof_prepare =
    if not (str_eq our_prepare.decision proof_prepare.decision)
    then true
    else not (our_prepare.round == proof_prepare.round)
      || not (str_eq our_prepare.block_hash proof_prepare.block_hash)

conflict_with : Option PrepareMessage → PrepareMessage → Bool
unfolding conflicts
conflict_with none proof_prepare = false
conflict_with (some our_prepare) proof_prepare = conflicts our_prepare proof_prepare

-- detectConflicts, over the proof of a COMMIT
unfoldable pub conflicts_in : List PrepareMessage → Dict PrepareMessage → List String
unfolding conflict_with
conflicts_in [] our_prepares = []
conflicts_in (p ∷ ps) our_prepares =
    let rest = conflicts_in ps our_prepares in
    if conflict_with (get our_prepares p.buddy_id) p then p.buddy_id ∷ rest else rest

unfoldable pub detect_conflicts : CommitMessage → Dict PrepareMessage → List String
unfolding conflicts_in
detect_conflicts commit our_prepares = conflicts_in commit.prepare_proof our_prepares

unfoldable pub mark : ℕ → Detector → String → Detector
mark now b buddy_id = put b buddy_id (record { banned_at = now; ttl = default_ttl })

abbrev pub is_banned : ℕ → Entry → Bool
is_banned now entry = leb (now - entry.banned_at) entry.ttl

is_banned_entry : ℕ → Option Entry → Bool
is_banned_entry now none = false
is_banned_entry now (some entry) = is_banned now entry

unfoldable pub is_byzantine : ℕ → Detector → String → Bool
unfolding is_banned_entry
is_byzantine now b buddy_id = is_banned_entry now (get b buddy_id)

unfoldable pub get_all : ℕ → Detector → List String
get_all now [] = []
get_all now ((id, entry) ∷ b) =
    let rest = get_all now b in if is_banned now entry then id ∷ rest else rest

-- One round of the cleaner's ticker.
unfoldable pub clean : ℕ → Detector → Detector
clean now b = keep (λ e. not (ltb e.1.ttl (now - e.1.banned_at))) b
