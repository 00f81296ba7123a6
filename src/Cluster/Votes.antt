-- ===== src/Cluster/Votes.antt =====
-- internal/cluster/cluster.go: one node's answers to requests for its vote.
use distsched.Base.{ℕ, ◌≤◌, ◌≡◌, ◌≢◌, true, false, String, arith}
use distsched.Cluster.Node.{
  Node, Env, handle_vote, become_follower, persist, reset_election_timer, Config, start, new,
  with_defaults, majority,
}
use distsched.Cluster.Evolves.{Synced}

-- A node that has granted its vote of a term to a candidate, whose name is not empty, does not grant
-- its vote of that term to another candidate that asks next.
vote_once :
    (e1 e2 : Env) (t : ℕ) (c1 c2 : String) (n : Node)
    → c1 ≢ ""
    → (handle_vote e1 t c1 n).1.0 ≡ true
    → (handle_vote e2 t c2 (handle_vote e1 t c1 n).0).1.0 ≡ true
    → c1 ≡ c2
unfolding handle_vote become_follower persist reset_election_timer
vote_once e1 e2 t c1 c2 n ne g1 g2 = ground arith

-- A vote that is granted is on the disk, with its term, before it is answered, where the save succeeds.
pub vote_saved :
    (e : Env) (t : ℕ) (c : String) (n : Node)
    → e.save_ok ≡ true
    → (handle_vote e t c n).1.0 ≡ true
    → ((handle_vote e t c n).0.disk.term ≡ (handle_vote e t c n).0.current_term)
      × ((handle_vote e t c n).0.disk.voted_for ≡ c)
unfolding handle_vote become_follower persist reset_election_timer
vote_saved e t c n ok g = ground arith

-- A node that has not voted in its term and whose disk is up to date grants its vote of the term even
-- where the save of the vote fails; and once it has crashed and started again, in a cluster of two
-- members or more, it grants its vote of the same term to any other candidate.
pub unsaved_vote_given_twice :
    (e1 e2 e3 : Env) (c1 c2 : String) (c : Config) (n : Node)
    → Synced n
    → n.voted_for ≡ ""
    → e1.save_ok ≡ false
    → e2.load_ok ≡ true
    → 2 ≤ majority (with_defaults c).members
    → ((handle_vote e1 n.current_term c1 n).1.0 ≡ true)
      × ((handle_vote e3 n.current_term c2
            (start e2 c (handle_vote e1 n.current_term c1 n).0.disk)).1.0
          ≡ true)
unfolding handle_vote become_follower persist reset_election_timer start new
unsaved_vote_given_twice e1 e2 e3 c1 c2 c n sy v f l m = ground (arith, sy.term, sy.vote)
