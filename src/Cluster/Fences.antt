-- ===== src/Cluster/Fences.antt =====
-- internal/cluster/cluster.go: that a node which has followed a term never goes back behind it.
use distsched.Base.{ℕ, ◌≤◌, ◌<◌, ◌≡◌, true, false, List, [], ◌∷◌, String, arith}
use distsched.Cluster.Node.{
  Node, Env, Election, VoteResult, become_follower, start_election, count_vote, handle_vote,
  observe_leader, maybe_step_down, persist, reset_election_timer, become_leader,
}

-- What a node does while it runs.
pub data Event : Type 0 where
  asked : Env → (term : ℕ) → (candidate_id : String) → Event
  heard : Env → (term : ℕ) → (leader_id : String) → Event
  stands : Env → Event
  counts : Env → Election → (peer : String) → (rest : List String) → VoteResult → Event
  learns : Env → (peer_term : ℕ) → Event

abbrev pub on_event : Event → Node → Node
on_event (asked e t c) n = (handle_vote e t c n).0
on_event (heard e t l) n = (observe_leader e t l n).0
on_event (stands e) n = (start_election e n).0
on_event (counts e el p rest r) n = (count_vote e el p rest r n).0
on_event (learns e t) n = maybe_step_down e t n

abbrev pub on_events : List Event → Node → Node
on_events [] n = n
on_events (ev ∷ evs) n = on_events evs (on_event ev n)

-- The node `n'` has granted its vote in a term, or has followed a leader of it.
pub data Accepted (t : ℕ) (n : Node) : Node → Type 0 where
  voted :
      (e : Env) (id : String)
      → (handle_vote e t id n).1.0 ≡ true
      → Accepted t n (handle_vote e t id n).0
  followed :
      (e : Env) (id : String)
      → (observe_leader e t id n).1.0 ≡ true
      → Accepted t n (observe_leader e t id n).0

handle_vote-term :
    (e : Env) (t : ℕ) (id : String) (n : Node)
    → n.current_term ≤ (handle_vote e t id n).0.current_term
unfolding handle_vote become_follower persist reset_election_timer
handle_vote-term e t id n = ground arith

observe_leader-term :
    (e : Env) (t : ℕ) (id : String) (n : Node)
    → n.current_term ≤ (observe_leader e t id n).0.current_term
unfolding observe_leader become_follower persist reset_election_timer
observe_leader-term e t id n = ground arith

event-term : (ev : Event) (n : Node) → n.current_term ≤ (on_event ev n).current_term
unfolding start_election count_vote maybe_step_down become_follower become_leader persist
    reset_election_timer
event-term (asked e t c) n = handle_vote-term e t c n
event-term (heard e t l) n = observe_leader-term e t l n
event-term (stands e) n = ground arith
event-term (counts e el p rest r) n = ground arith
event-term (learns e t) n = ground arith

events-term : (evs : List Event) (n : Node) → n.current_term ≤ (on_events evs n).current_term
events-term [] n = omega arith
events-term (ev ∷ evs) n = omega (arith, event-term ev n, events-term evs (on_event ev n))

Accepted-term : (t : ℕ) (n n' : Node) → Accepted t n n' → t ≤ n'.current_term
unfolding handle_vote observe_leader become_follower persist reset_election_timer
Accepted-term t n n' (voted e id h) = ground arith
Accepted-term t n n' (followed e id h) = ground arith

-- A node that has granted its vote in a term, or has followed a leader of it, refuses every later vote
-- request and every later heartbeat of a lower term, whatever it has done in between other than crash:
-- its answer has a term that is not below the one accepted, and it stays as it was.
pub fences :
    (t t' : ℕ) (n n' : Node) (evs : List Event) (e : Env) (id : String)
    → Accepted t n n'
    → t' < t
    → let m = on_events evs n' in
      (handle_vote e t' id m ≡ (m, (false, m.current_term)))
      × (observe_leader e t' id m ≡ (m, (false, m.current_term)))
      × (t ≤ m.current_term)
unfolding handle_vote observe_leader
fences t t' n n' evs e id a below =
    let m = on_events evs n' in
    let later : t ≤ m.current_term = omega (arith, Accepted-term t n n' a, events-term evs n') in
    (ground arith, ground arith, later)
