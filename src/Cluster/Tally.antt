-- ===== src/Cluster/Tally.antt =====
-- internal/cluster/cluster.go: counting the voters that have voted for a candidate in a term.
use mathlib.Core.List.{Memᴰ}
use mathlib.Core.List.Memᴰ
use distsched.Base.{
  ℕ, ◌+◌, ◌≤◌, ◌≡◌, ◌≢◌, inl, inr, true, List, [], ◌∷◌, none, some, String, arith, length, sum_over,
  sum_over-le, same,
}
use distsched.Cluster.Node.{majority, peers}
use distsched.Cluster.System.{Ballots}

-- 1 if the voter's vote of the term is the candidate's.
abbrev pub vote_for : Ballots → ℕ → String → String → ℕ
vote_for cast t c v = elim (cast v t) [ none ↦ 0 | some c' ↦ elim (same c' c) [ true ↦ 1 | _ ↦ 0 ] ]

abbrev pub tally : Ballots → ℕ → String → List String → ℕ
tally cast t c voters = sum_over (vote_for cast t c) voters

-- No vote that was cast is lost or changed.
abbrev pub Extends : Ballots → Ballots → Type 0
Extends cast cast' = (v : String) (t : ℕ) (c : String) → cast v t ≡ some c → cast' v t ≡ some c

pub tally_mono :
    (cast cast' : Ballots) (t : ℕ) (c : String) (vs : List String)
    → Extends cast cast'
    → tally cast t c vs ≤ tally cast' t c vs
tally_mono cast cast' t c vs h = sum_over-le _ _ (λ v. ground (arith, h v t c)) vs

-- A voter counts for one candidate at most, also where the list names it twice.
pub tally-add :
    (cast : Ballots) (t : ℕ) (c d : String) (vs : List String)
    → c ≢ d
    → tally cast t c vs + tally cast t d vs ≤ length vs
tally-add cast t c d [] h = omega arith
tally-add cast t c d (v ∷ vs) h = ground (arith, tally-add cast t c d vs h)

-- Two majorities for different candidates do not fit into one list of members.
pub majority_unique :
    (cast : Ballots) (t : ℕ) (c d : String) (vs : List String)
    → majority vs ≤ tally cast t c vs
    → majority vs ≤ tally cast t d vs
    → ¬ (c ≢ d)
unfolding majority
majority_unique cast t c d vs hc hd h = omega (arith, tally-add cast t c d vs h)

pub vote_for-recorded :
    (cast : Ballots) (v : String) (t : ℕ) (c : String) → cast v t ≡ some c → vote_for cast t c v ≡ 1
vote_for-recorded cast v t c h = ground arith

peers-le :
    (w : String → ℕ) (i : String) (ms : List String) → sum_over w (peers i ms) ≤ sum_over w ms
unfolding peers
peers-le w i [] = omega arith
peers-le w i (m ∷ ms) = ground (arith, peers-le w i ms)

-- A member and its peers weigh no more than the members.
pub self-peers-le :
    (w : String → ℕ) (i : String) (ms : List String)
    → Memᴰ i ms
    → w i + sum_over w (peers i ms) ≤ sum_over w ms
unfolding peers
self-peers-le w i [] m = absurd (Memᴰ.not-nil m)
self-peers-le w i (x ∷ ms) m = elim (Memᴰ.cases_cons m) [
  | inl e ↦ ground (arith, peers-le w i ms)
  | inr r ↦ ground (arith, self-peers-le w i ms r)
]
