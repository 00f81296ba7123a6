-- ===== src/Cluster/Node.antt =====
-- internal/cluster/cluster.go: one replica. A method that takes the lock is a function from node to
-- node. `Env` holds what the method reads from outside: the clock, the random draw for the timer,
-- and whether the state store answers. Terms and times are unbounded.
use distsched.Base.{
  ℕ, ◌+◌, ◌-◌, ◌/◌, ◌%◌, Bool, true, false, not, ◌&&◌, ◌||◌, List, [], ◌∷◌, Option, none, some,
  String, length, ltb, leb, ◌==◌, same, if◌then◌else◌,
}

pub data Role : Type 0 where
  follower candidate leader : Role

abbrev pub is_leader : Role → Bool
is_leader leader = true
is_leader _ = false

abbrev pub is_candidate : Role → Bool
is_candidate candidate = true
is_candidate _ = false

pub record Config : Type 0 where
  pub node_id : String
  pub members : List String
  pub election_timeout_min : ℕ
  pub election_timeout_max : ℕ

unfoldable pub with_defaults : Config → Config
with_defaults c = record {
  node_id = c.node_id;
  members = elim c.members [ [] ↦ c.node_id ∷ [] | m ∷ ms ↦ m ∷ ms ];
  election_timeout_min =
      if c.election_timeout_min == 0 then 800_000_000 else c.election_timeout_min;
  election_timeout_max =
      if c.election_timeout_max == 0 then 1_600_000_000 else c.election_timeout_max;
}

-- What `LoadState` returns: the term and the vote of the last successful `SaveState`.
pub record Disk : Type 0 where
  pub term : ℕ
  pub voted_for : String

-- A goroutine that the node starts for its owner.
pub data Callback : Type 0 where
  on_leader : (term : ℕ) → Callback
  on_step_down : (term : ℕ) → Callback

pub record Env : Type 0 where
  pub now : ℕ
  pub draw : ℕ
  pub save_ok : Bool
  pub load_ok : Bool

pub record Node : Type 0 where
  pub cfg : Config
  pub role : Role
  pub current_term : ℕ
  pub voted_for : String
  pub leader_id : String
  pub election_deadline : ℕ
  pub disk : Disk
  pub calls : List Callback

unfoldable pub new : Config → Disk → Node
unfolding with_defaults
new c d = record {
  cfg = with_defaults c;
  role = follower;
  current_term = 0;
  voted_for = "";
  leader_id = "";
  election_deadline = 0;
  disk = d;
  calls = [];
}

unfoldable pub majority : List String → ℕ
majority members = length members / 2 + 1

unfoldable pub peers : String → List String → List String
peers self [] = []
peers self (m ∷ ms) = let rest = peers self ms in if same m self then rest else m ∷ rest

-- A failed save is logged only.
unfoldable pub persist : Env → Node → Node
persist e n =
    if e.save_ok
    then record n { disk = record { term = n.current_term; voted_for = n.voted_for } }
    else n

-- `rand.Int63n(span)` is below `span`, so `draw % span` takes each of its values.
unfoldable pub reset_election_timer : Env → Node → Node
reset_election_timer e n =
    let lo = n.cfg.election_timeout_min in
    let span = n.cfg.election_timeout_max - lo in
    record n { election_deadline = e.now + (if ltb 0 span then lo + e.draw % span else lo) }

unfoldable pub become_follower : Env → ℕ → Node → Node
unfolding persist reset_election_timer
become_follower e term n =
    let was_leader = is_leader n.role in
    let n1 =
      if ltb n.current_term term
      then persist e (record n { current_term = term; voted_for = "" })
      else n in
    let n2 = reset_election_timer e (record n1 { role = follower }) in
    if was_leader then record n2 { calls = on_step_down n2.current_term ∷ n2.calls } else n2

unfoldable pub become_leader : ℕ → Node → Node
become_leader term n = record n {
  role = leader;
  leader_id = n.cfg.node_id;
  calls = on_leader term ∷ n.calls;
}

-- `New` followed by `Start`, over what the disk holds.
unfoldable pub start : Env → Config → Disk → Node
unfolding new majority persist reset_election_timer
start e c d =
    let n0 = new c d in
    let n1 =
      if e.load_ok then record n0 { current_term = d.term; voted_for = d.voted_for } else n0 in
    if leb (majority n1.cfg.members) 1
    then (let n2 =
          persist e
            (record n1 { current_term = n1.current_term + 1; voted_for = n1.cfg.node_id }) in
        record n2 {
          role = leader;
          leader_id = n2.cfg.node_id;
          calls = on_leader n2.current_term ∷ n2.calls;
        })
    else reset_election_timer e n1

-- The test of `run` at a tick.
unfoldable pub should_campaign : Env → Node → Bool
should_campaign e n = not (is_leader n.role) && ltb n.election_deadline e.now

-- The locals of `startElection` while it reads the channel. `heard` holds the voters counted so
-- far, this node first, so `votes` is its length; `awaiting` holds the peers not heard from.
pub record Election : Type 0 where
  pub term : ℕ
  pub votes : ℕ
  pub heard : List String
  pub awaiting : List String

-- The first locked part of `startElection`, and the start of its loop.
unfoldable pub start_election : Env → Node → Node × Election
unfolding persist reset_election_timer peers
start_election e n =
    let n1 = record n {
      role = candidate;
      current_term = n.current_term + 1;
      voted_for = n.cfg.node_id;
    } in
    let n2 = reset_election_timer e (persist e n1) in
    (
      n2,
      record {
        term = n2.current_term;
        votes = 1;
        heard = n2.cfg.node_id ∷ [];
        awaiting = peers n2.cfg.node_id n2.cfg.members;
      },
    )

pub record VoteResult : Type 0 where
  pub granted : Bool
  pub peer_term : ℕ
  pub ok : Bool

-- One round of the loop, on the answer of `peer`; `none` where `startElection` returns.
unfoldable pub count_vote :
    Env → Election → String → List String → VoteResult → Node → Node × Option Election
unfolding become_follower become_leader majority
count_vote e el peer rest r n =
    let el' = record el { awaiting = rest } in
    if not r.ok
    then (n, some el')
    else if not (is_candidate n.role) || not (n.current_term == el.term)
    then (n, none)
    else if ltb n.current_term r.peer_term
    then (become_follower e r.peer_term n, none)
    else if r.granted
    then (if leb (majority n.cfg.members) (el.votes + 1)
        then (become_leader el.term n, none)
        else (n, some (record el' { votes = el.votes + 1; heard = peer ∷ el.heard })))
    else (n, some el')

unfoldable pub handle_vote : Env → ℕ → String → Node → Node × (Bool × ℕ)
unfolding become_follower persist reset_election_timer
handle_vote e term candidate_id n =
    if ltb term n.current_term
    then (n, (false, n.current_term))
    else (let n1 = if ltb n.current_term term then become_follower e term n else n in
        if same n1.voted_for "" || same n1.voted_for candidate_id
        then (let n2 =
              reset_election_timer e (persist e (record n1 { voted_for = candidate_id })) in
            (n2, (true, n2.current_term)))
        else (n1, (false, n1.current_term)))

unfoldable pub observe_leader : Env → ℕ → String → Node → Node × (Bool × ℕ)
unfolding become_follower reset_election_timer
observe_leader e term id n =
    if ltb term n.current_term
    then (n, (false, n.current_term))
    else if not (ltb n.current_term term) && is_leader n.role
    then (n, (true, n.current_term))
    else (let n1 =
          if ltb n.current_term term
          then become_follower e term n
          else if is_candidate n.role
          then record n { role = follower }
          else n in
        let n2 = reset_election_timer e (record n1 { leader_id = id }) in
        (n2, (true, n2.current_term)))

unfoldable pub maybe_step_down : Env → ℕ → Node → Node
unfolding become_follower
maybe_step_down e peer_term n =
    if ltb n.current_term peer_term then become_follower e peer_term n else n

pub is_leader_node : Node → Bool
is_leader_node n = is_leader n.role

-- `LeaderID`
unfoldable pub current_leader : Node → String
current_leader n = if is_leader n.role then n.cfg.node_id else n.leader_id
