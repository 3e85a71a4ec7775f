-- ===== src/Committee/Laws/Members.antt =====
-- The committee that eligibleMembers gives.
use mathlib.Core.Path.{subst}
use jmdn.Base.{
  ℕ, zero, suc, ◌+◌, ◌≤◌, ◌<◌, ◌≡◌, ◌⊎◌, false, Option, none, some, String, List, [], ◌∷◌, Dict,
  get, put, keys, member, length, take, All, All-put, IsDistinct, put-IsDistinct, length-take_le,
  insert_string, sort_strings, str_eq, arith,
}
use jmdn.Committee.Text.{trim_space, normalize_bls_pub}
use jmdn.Committee.Eligibility.{
  Node, Settings, members, Answer, failed, buddies, admit, admit_all, pick, cap_members,
  committee_size_limit, blocked_buddies, after_blocklist, answer_members, eligible_members,
}

module _ (P : String → Type 0) where
  All-insert_string : (x : String) (ys : List String) → P x → All P ys → All P (insert_string x ys)
  unfolding insert_string
  All-insert_string x [] p h = (p, tt)
  All-insert_string x (y ∷ ys) p h = ground (arith, All-insert_string x ys p h.1)

  All-sort_strings : (xs : List String) → All P xs → All P (sort_strings xs)
  unfolding sort_strings
  All-sort_strings [] h = tt
  All-sort_strings (x ∷ xs) h = All-insert_string x (sort_strings xs) h.0 (All-sort_strings xs h.1)

  All-take : (n : ℕ) (xs : List String) → All P xs → All P (take n xs)
  All-take zero xs h = tt
  All-take (suc n) [] h = tt
  All-take (suc n) (x ∷ xs) h = (h.0, All-take n xs h.1)

  All-keys {ℓ} : {V : Type ℓ} (m : Dict V) → All (λ (e : String × V). P e.0) m → All P (keys m)
  All-keys [] h = tt
  All-keys ((k, v) ∷ m) h = (h.0, All-keys m h.1)

  All-pick :
      (eligible : Dict String) (ids : List String)
      → All P ids
      → All (λ (e : String × String). P e.0) (pick eligible ids)
  unfolding pick
  All-pick eligible [] h = tt
  All-pick eligible (id ∷ ids) h =
      All-put (λ (e : String × String). P e.0) (pick eligible ids) id
        (elim (get eligible id) [ none ↦ "" | some key ↦ key ]) (All-pick eligible ids h.1) h.0

pick-IsDistinct :
    (eligible : Dict String) (ids : List String) → IsDistinct (keys (pick eligible ids))
unfolding pick
pick-IsDistinct eligible [] = tt
pick-IsDistinct eligible (id ∷ ids) =
    put-IsDistinct (pick eligible ids) id (elim (get eligible id) [ none ↦ "" | some key ↦ key ])
      (pick-IsDistinct eligible ids)

length-put :
    (m : Dict String) (k v : String)
    → (length (put m k v) ≤ length m + 1) × (0 < length (put m k v))
unfolding put
length-put [] k v = (omega arith, omega arith)
length-put ((j, w) ∷ m) k v = ground (arith, length-put m k v)

length-pick : (eligible : Dict String) (ids : List String) → length (pick eligible ids) ≤ length ids
unfolding pick
length-pick eligible [] = omega arith
length-pick eligible (id ∷ ids) = omega (
  arith,
  length-pick eligible ids,
  (length-put (pick eligible ids) id (elim (get eligible id) [ none ↦ "" | some key ↦ key ])).0,
)

pick-pos :
    (eligible : Dict String) (ids : List String) → 0 < length ids → 0 < length (pick eligible ids)
unfolding pick
pick-pos eligible [] h = omega arith
pick-pos eligible (id ∷ ids) h =
    (length-put (pick eligible ids) id (elim (get eligible id) [ none ↦ "" | some key ↦ key ])).1

length-insert_string : (x : String) (ys : List String) → length (insert_string x ys) ≡ length ys + 1
unfolding insert_string
length-insert_string x [] = omega arith
length-insert_string x (y ∷ ys) = ground (arith, length-insert_string x ys)

length-sort_strings : (m : Dict String) → length (sort_strings (keys m)) ≡ length m
unfolding sort_strings
length-sort_strings [] = omega arith
length-sort_strings ((k, v) ∷ m) =
    omega (arith, length-insert_string k (sort_strings (keys m)), length-sort_strings m)

take-pos : (n : ℕ) (xs : List String) → 0 < n → 0 < length xs → 0 < length (take n xs)
take-pos zero xs h p = omega arith
take-pos (suc n) [] h p = omega arith
take-pos (suc n) (x ∷ xs) h p = omega arith

-- A peer id that may be in the committee.
abbrev pub MayVote : List String → String → Type 0
MayVote blocked id = (str_eq id "" ≡ false) × (member blocked id ≡ false)

abbrev pub IsCommittee : List String → Dict String → Type 0
IsCommittee blocked c = IsDistinct (keys c) × All (λ (e : String × String). MayVote blocked e.0) c

admit-IsCommittee :
    (blocked : List String) (pid key : String) (c : Dict String)
    → IsCommittee blocked c
    → IsCommittee blocked (admit blocked pid key c)
unfolding admit
admit-IsCommittee blocked pid key c h = ground (
  arith,
  put-IsDistinct c (trim_space pid) (normalize_bls_pub key) h.0,
  All-put (λ (e : String × String). MayVote blocked e.0) c (trim_space pid) (normalize_bls_pub key)
      h.1,
)

admit_all-IsCommittee :
    (blocked : List String) (source c : Dict String)
    → IsCommittee blocked c
    → IsCommittee blocked (admit_all blocked source c)
unfolding admit_all
admit_all-IsCommittee blocked [] c h = h
admit_all-IsCommittee blocked ((pid, key) ∷ source) c h =
    admit_all-IsCommittee blocked source (admit blocked pid key c)
      (admit-IsCommittee blocked pid key c h)

pick-IsCommittee :
    (blocked : List String) (lim : ℕ) (c : Dict String)
    → IsCommittee blocked c
    → IsCommittee blocked (pick c (take lim (sort_strings (keys c))))
pick-IsCommittee blocked lim c h = (
  pick-IsDistinct c (take lim (sort_strings (keys c))),
  All-pick (MayVote blocked) c (take lim (sort_strings (keys c))) (
      All-take (MayVote blocked) lim (sort_strings (keys c))
        (All-sort_strings (MayVote blocked) (keys c) (All-keys (MayVote blocked) c h.1))),
)

-- What the cap leaves of a committee that has a member.
abbrev IsCapped : List String → ℕ → Dict String → Type 0
IsCapped blocked lim c = IsCommittee blocked c × ((0 < length c) × ((lim ≡ 0) ⊎ (length c ≤ lim)))

cap_members-IsCapped :
    (blocked : List String) (lim : ℕ) (c : Dict String)
    → IsCommittee blocked c
    → 0 < length c
    → IsCapped blocked lim (cap_members lim c)
unfolding cap_members
cap_members-IsCapped blocked lim c h p = ground (
  arith,
  pick-IsCommittee blocked lim c h,
  length-sort_strings c,
  length-pick c (take lim (sort_strings (keys c))),
  length-take_le lim (sort_strings (keys c)),
  take-pos lim (sort_strings (keys c)),
  pick-pos c (take lim (sort_strings (keys c))),
)

members-path : {c d : Dict String} → members c ≡ members d → c ≡ d
members-path e = cc

after_blocklist-IsCapped :
    (s : Settings) (blocked : List String) (found c : Dict String)
    → IsCommittee blocked found
    → after_blocklist s found ≡ members c
    → IsCapped blocked (committee_size_limit s) c
unfolding after_blocklist
after_blocklist-IsCapped s blocked [] c h e = cc
after_blocklist-IsCapped s blocked (b ∷ found) c h e =
    subst (IsCapped blocked (committee_size_limit s)) (members-path e)
      (cap_members-IsCapped blocked (committee_size_limit s) (b ∷ found) h (omega arith))

answer_members-IsCapped :
    (s : Settings) (source : Option Answer) (c : Dict String)
    → answer_members s source ≡ members c
    → IsCapped (blocked_buddies s) (committee_size_limit s) c
unfolding answer_members
answer_members-IsCapped s none c e = cc
answer_members-IsCapped s (some (failed err)) c e = cc
answer_members-IsCapped s (some (buddies [])) c e = cc
answer_members-IsCapped s (some (buddies (b ∷ bs))) c e =
    after_blocklist-IsCapped s (blocked_buddies s) (admit_all (blocked_buddies s) (b ∷ bs) []) c
      (admit_all-IsCommittee (blocked_buddies s) (b ∷ bs) [] (tt, tt)) e

-- A committee that eligibleMembers gives has a member, no member twice, no member with an empty peer
-- id and none on the blocklist, and no more members than max_validators when that is not 0.
pub eligible_members-IsCapped :
    (node : Node) (c : Dict String)
    → eligible_members node ≡ members c
    → (IsDistinct (keys c)
        × All (λ (e : String × String). MayVote (blocked_buddies node.settings) e.0) c)
      × ((0 < length c)
          × ((committee_size_limit node.settings ≡ 0)
              ⊎ (length c ≤ committee_size_limit node.settings)))
unfolding eligible_members
eligible_members-IsCapped node c e = answer_members-IsCapped node.settings node.source c e
