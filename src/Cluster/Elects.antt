-- ===== src/Cluster/Elects.antt =====
-- internal/cluster/cluster.go: the loop of `startElection` over all answers.
use distsched.Base.{
  ℕ, ◌+◌, ◌≤◌, ◌<◌, ◌≡◌, refl, ap, inl, inr, true, List, [], ◌∷◌, map, Option, none, some, String,
  arith, length, All, leb, Bool-cases,
}
use distsched.Cluster.Node.{
  Node, Env, Election, VoteResult, leader, candidate, majority, count_vote, become_leader,
}

abbrev voter : String × VoteResult → String
voter (p, r) = p

-- The loop over the answers in the order in which they arrive, with nothing between them.
unfoldable pub collect : Env → Election → List (String × VoteResult) → Node → Node
collect e el [] n = n
collect e el ((p, r) ∷ rs) n =
    let (n1, el1) = count_vote e el p (map voter rs) r n in
    elim el1 [ none ↦ n1 | some el2 ↦ collect e el2 rs n1 ]

-- An answer that grants the vote, from a node that is not ahead.
abbrev pub Grants : ℕ → String × VoteResult → Type 0
Grants term (p, r) = (r.ok ≡ true) × (r.granted ≡ true) × (r.peer_term ≤ term)

wins :
    (e : Env) (el : Election) (p : String) (rest : List String) (r : VoteResult) (n : Node)
    → n.role ≡ candidate
    → n.current_term ≡ el.term
    → Grants el.term (p, r)
    → majority n.cfg.members ≤ el.votes + 1
    → count_vote e el p rest r n ≡ (become_leader el.term n, none)
unfolding count_vote become_leader
wins e el p rest r n c t g m = ground arith

counts :
    (e : Env) (el : Election) (p : String) (rest : List String) (r : VoteResult) (n : Node)
    → n.role ≡ candidate
    → n.current_term ≡ el.term
    → Grants el.term (p, r)
    → el.votes + 1 < majority n.cfg.members
    → count_vote e el p rest r n
      ≡ (n, some (record el { awaiting = rest; votes = el.votes + 1; heard = p ∷ el.heard }))
unfolding count_vote
counts e el p rest r n c t g m = ground arith

collect-count_vote :
    (e : Env) (el : Election) (p : String) (r : VoteResult) (rs : List (String × VoteResult))
    (n n1 : Node) (el1 : Option Election)
    → count_vote e el p (map voter rs) r n ≡ (n1, el1)
    → collect e el ((p, r) ∷ rs) n
      ≡ (elim el1 as (λ x. Node) [ none ↦ n1 | some el2 ↦ collect e el2 rs n1 ])
unfolding collect
collect-count_vote e el p r rs n n1 el1 q =
    ap (λ x. elim x.1 as (λ y. Node) [ none ↦ x.0 | some el2 ↦ collect e el2 rs x.0 ]) q

-- A candidate whose own term the election is of leads in that term once all answers have come, where
-- each grants the vote and comes from a node that is not ahead, and the votes make a majority with
-- those it had, which did not.
pub elects :
    (e : Env) (el : Election) (rs : List (String × VoteResult)) (n : Node)
    → n.role ≡ candidate
    → n.current_term ≡ el.term
    → All (Grants el.term) rs
    → el.votes < majority n.cfg.members
    → majority n.cfg.members ≤ el.votes + length rs
    → ((collect e el rs n).role ≡ leader) × ((collect e el rs n).current_term ≡ el.term)
unfolding become_leader
elects e el [] n c t g few m = absurd (omega arith)
elects e el ((p, r) ∷ rs) n c t g few m =
    elim (Bool-cases (leb (majority n.cfg.members) (el.votes + 1))) [
      | inl h ↦
          rw
            (collect-count_vote e el p r rs n _ _
              (wins e el p (map voter rs) r n c t g.0 (ground arith)))
            (refl, t)
      | inr h ↦
          let el' = record el {
            awaiting = map voter rs;
            votes = el.votes + 1;
            heard = p ∷ el.heard;
          } in
          rw
            (collect-count_vote e el p r rs n _ _
              (counts e el p (map voter rs) r n c t g.0 (ground arith)))
            (elects e el' rs n c t g.1 (ground arith) (omega arith))
    ]
