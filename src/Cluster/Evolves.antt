-- ===== src/Cluster/Evolves.antt =====
-- internal/cluster/cluster.go: what a method may change of a node's term, vote, role and disk.
use distsched.Base.{ℕ, ◌+◌, ◌≤◌, ◌≡◌, ◌≢◌, ◌⊎◌, true, List, ◌∷◌, some, String, arith}
use distsched.Cluster.Node.{
  Node, Env, Election, VoteResult, leader, become_follower, start_election, count_vote, handle_vote,
  observe_leader, maybe_step_down, majority, Config, Disk, with_defaults, start,
}

-- The disk holds what the node would need after a crash.
pub record Synced (n : Node) : Type 0 where
  pub term : n.disk.term ≡ n.current_term
  pub vote : n.disk.voted_for ≡ n.voted_for

pub record Evolves (n n' : Node) : Type 0 where
  pub config : n'.cfg ≡ n.cfg
  pub synced : Synced n → Synced n'
  pub term_le : n.current_term ≤ n'.current_term
  pub vote_kept : n'.current_term ≡ n.current_term → n.voted_for ≢ "" → n'.voted_for ≡ n.voted_for

-- The node leads only if it led before, in the same term.
abbrev pub Leads : Node → Node → Type 0
Leads n n' = n'.role ≡ leader → (n.role ≡ leader) × (n'.current_term ≡ n.current_term)

pub become_follower-Evolves :
    (e : Env) (t : ℕ) (n : Node) → e.save_ok ≡ true → Evolves n (become_follower e t n)
unfolding become_follower
become_follower-Evolves e t n h = ground arith

pub handle_vote-Evolves :
    (e : Env) (t : ℕ) (c : String) (n : Node) → e.save_ok ≡ true → Evolves n (handle_vote e t c n).0
unfolding handle_vote
handle_vote-Evolves e t c n h = ground arith

pub observe_leader-Evolves :
    (e : Env) (t : ℕ) (c : String) (n : Node)
    → e.save_ok ≡ true
    → Evolves n (observe_leader e t c n).0
unfolding observe_leader
observe_leader-Evolves e t c n h = ground arith

pub maybe_step_down-Evolves :
    (e : Env) (t : ℕ) (n : Node) → e.save_ok ≡ true → Evolves n (maybe_step_down e t n)
unfolding maybe_step_down
maybe_step_down-Evolves e t n h = ground arith

pub start_election-Evolves :
    (e : Env) (n : Node) → e.save_ok ≡ true → Evolves n (start_election e n).0
unfolding start_election
start_election-Evolves e n h = ground arith

pub count_vote-Evolves :
    (e : Env) (el : Election) (p : String) (rest : List String) (r : VoteResult) (n : Node)
    → e.save_ok ≡ true
    → Evolves n (count_vote e el p rest r n).0
unfolding count_vote
count_vote-Evolves e el p rest r n h = ground arith

pub handle_vote-Leads : (e : Env) (t : ℕ) (c : String) (n : Node) → Leads n (handle_vote e t c n).0
unfolding handle_vote
handle_vote-Leads e t c n = ground arith

pub observe_leader-Leads :
    (e : Env) (t : ℕ) (c : String) (n : Node) → Leads n (observe_leader e t c n).0
unfolding observe_leader
observe_leader-Leads e t c n = ground arith

pub maybe_step_down-Leads : (e : Env) (t : ℕ) (n : Node) → Leads n (maybe_step_down e t n)
unfolding maybe_step_down
maybe_step_down-Leads e t n = ground arith

pub start_election-Leads : (e : Env) (n : Node) → Leads n (start_election e n).0
unfolding start_election
start_election-Leads e n = ground arith

-- A vote is granted in the term asked for, to the candidate that asked.
pub handle_vote-granted :
    (e : Env) (t : ℕ) (c : String) (n : Node)
    → (handle_vote e t c n).1.0 ≡ true
    → ((handle_vote e t c n).0.voted_for ≡ c) × ((handle_vote e t c n).0.current_term ≡ t)
unfolding handle_vote
handle_vote-granted e t c n = ground arith

-- Leadership comes only from counting the vote that makes the majority, in the term of the count.
pub count_vote_wins :
    (e : Env) (el : Election) (p : String) (rest : List String) (r : VoteResult) (n : Node)
    → (count_vote e el p rest r n).0.role ≡ leader
    → ((n.role ≡ leader) × ((count_vote e el p rest r n).0.current_term ≡ n.current_term))
      ⊎ (r.granted ≡ true)
        × (majority n.cfg.members ≤ el.votes + 1)
        × ((count_vote e el p rest r n).0.current_term ≡ el.term)
unfolding count_vote
count_vote_wins e el p rest r n = ground arith

-- The count goes on with the vote added or not.
pub count_vote_continues :
    (e : Env) (el el' : Election) (p : String) (rest : List String) (r : VoteResult) (n : Node)
    → (count_vote e el p rest r n).1 ≡ some el'
    → (el' ≡ record el { awaiting = rest })
      ⊎ (r.granted ≡ true)
        × (el' ≡ record el { awaiting = rest; votes = el.votes + 1; heard = p ∷ el.heard })
unfolding count_vote
count_vote_continues e el el' p rest r n = ground arith

-- A restart goes on from the disk, which holds the state of the node that crashed.
pub start-Evolves :
    (e : Env) (c : Config) (n : Node)
    → e.save_ok ≡ true
    → e.load_ok ≡ true
    → n.cfg ≡ with_defaults c
    → Synced n
    → Evolves n (start e c n.disk)
unfolding start
start-Evolves e c n ok lk ec sy = ground arith

-- A node starts as a leader only in a cluster of one, with its own vote.
pub start_leads :
    (e : Env) (c : Config) (d : Disk)
    → (start e c d).role ≡ leader
    → (majority (with_defaults c).members ≤ 1) × ((start e c d).voted_for ≡ c.node_id)
unfolding start
start_leads e c d h = ground arith
