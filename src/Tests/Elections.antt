-- ===== src/Tests/Elections.antt =====
-- A cluster of three nodes in which one of them is elected.
use mathlib.Core.List.{Memᴰ}
use mathlib.Core.List.Memᴰ
use distsched.Base.{
  ◌<◌, ◌+◌, ℕ, arith, ◌≤◌, ◌≢◌, inl, inr, ◌≡◌, refl, List, [], ◌∷◌, String, true, false,
  String_discrete,
}
use distsched.Cluster.Node.{
  candidate, Node, follower, observe_leader, Env, Config, Election, VoteResult, leader, new,
  with_defaults, majority, peers, persist, reset_election_timer, become_follower, become_leader,
  start, should_campaign, start_election, count_vote, handle_vote,
}
use distsched.Cluster.System.{
  System, Reach, init, restarted, campaigned, voted, counted, restart, campaign, vote, count, here,
  next,
}
use distsched.Cluster.Invariant.{IsCluster}
use distsched.Cluster.Elects.{collect, elects}
use distsched.Cluster.Votes.{vote_saved, unsaved_vote_given_twice}
use distsched.Cluster.Fences.{Event, Accepted, on_events, fences}
use distsched.Cluster.Safety.{election_safety}

abbrev members : List String
members = "a" ∷ "b" ∷ "c" ∷ []

abbrev config : String → Config
config i = record {
  node_id = i;
  members = members;
  election_timeout_min = 10;
  election_timeout_max = 20;
}

abbrev env : ℕ → Env
env t = record { now = t; draw = 3; save_ok = true; load_ok = true }

abbrev started : System
started = restarted config (env 0) "a" (init members config)

abbrev asking : System
asking = campaigned (env 50) "a" started

abbrev answered : System
answered = voted (env 51) "b" 1 "a" asking

abbrev round : Election
round = record { term = 1; votes = 1; heard = "a" ∷ []; awaiting = "b" ∷ "c" ∷ [] }

abbrev grant : VoteResult
grant = record { granted = true; peer_term = 1; ok = true }

abbrev elected : System
elected = counted (env 52) "a" round "b" ("c" ∷ []) grant answered

a_named : ◌≢◌ {A = String} "a" ""
a_named = λ h. cc

member_named : (i : String) → Memᴰ i members → i ≢ ""
member_named i m = elim (Memᴰ.cases_cons m) [
  | inl e ↦ λ h. cc
  | inr m1 ↦ elim (Memᴰ.cases_cons m1) [
    | inl e ↦ λ h. cc
    | inr m2 ↦ elim (Memᴰ.cases_cons m2) [ inl e ↦ λ h. cc | inr m3 ↦ absurd (Memᴰ.not-nil m3) ]
  ]
]

is_cluster : IsCluster members config
is_cluster = record { own = λ i m. refl; shared = λ i m. refl; named = member_named }

reaches : Reach members config elected
unfolding restarted campaigned voted counted new with_defaults majority peers persist
    reset_election_timer start should_campaign start_election handle_vote String_discrete
reaches =
    next
      (next
        (next (next here (restart (env 0) "a" (Memᴰ.head refl) refl refl))
          (campaign (env 50) "a" (Memᴰ.head refl) refl tt refl))
        (vote (env 51) "b" 1 "a" refl a_named))
      (count (env 52) "a" round "b" [] ("c" ∷ []) grant refl refl refl (λ h. refl))

a_leads : (elected.node "a").role ≡ leader
unfolding restarted campaigned voted counted new with_defaults majority peers persist
    reset_election_timer start should_campaign start_election handle_vote count_vote become_leader
    String_discrete
a_leads = refl

election_safety_example : ◌≡◌ {A = String} "a" "a"
election_safety_example =
    election_safety members config elected "a" "a" is_cluster reaches a_leads a_leads refl

abbrev voter : Node
voter = record {
  cfg = with_defaults (config "b");
  role = follower;
  current_term = 4;
  voted_for = "";
  leader_id = "";
  election_deadline = 0;
  disk = record { term = 4; voted_for = "" };
  calls = [];
}

grants_first : (handle_vote (env 1) 5 "a" voter).1.0 ≡ true
unfolding handle_vote become_follower persist reset_election_timer String_discrete
grants_first = refl

second_grant : (handle_vote (env 2) 5 "a" (handle_vote (env 1) 5 "a" voter).0).1.0 ≡ true
unfolding handle_vote become_follower persist reset_election_timer String_discrete
second_grant = refl

two_needed : 2 ≤ majority (with_defaults (config "b")).members
unfolding majority with_defaults
two_needed = omega arith

vote_saved_example :
    ((handle_vote (env 1) 5 "a" voter).0.disk.term
      ≡ (handle_vote (env 1) 5 "a" voter).0.current_term)
    × ((handle_vote (env 1) 5 "a" voter).0.disk.voted_for ≡ "a")
vote_saved_example = vote_saved (env 1) 5 "a" voter refl grants_first

-- The voter stands for the next term, and is told of a later one.
fences_example :
    let m =
      on_events
        (Event.stands (env 60) ∷ Event.learns (env 61) 9 ∷ [])
        (handle_vote (env 1) 5 "a" voter).0 in
    (handle_vote (env 70) 4 "c" m ≡ (m, (false, m.current_term)))
    × (observe_leader (env 70) 4 "c" m ≡ (m, (false, m.current_term)))
    × (5 ≤ m.current_term)
fences_example =
    fences 5 4 voter (handle_vote (env 1) 5 "a" voter).0
      (Event.stands (env 60) ∷ Event.learns (env 61) 9 ∷ []) (env 70) "c"
      (Accepted.voted (env 1) "a" grants_first) (omega arith)

abbrev no_disk : ℕ → Env
no_disk t = record { now = t; draw = 3; save_ok = false; load_ok = true }

unsaved_vote_given_twice_example :
    ((handle_vote (no_disk 1) 4 "a" voter).1.0 ≡ true)
    × ((handle_vote
          (env 3)
          4
          "c"
          (start (env 2) (config "b") (handle_vote (no_disk 1) 4 "a" voter).0.disk)).1.0
        ≡ true)
unsaved_vote_given_twice_example =
    unsaved_vote_given_twice (no_disk 1) (env 2) (env 3) "a" "c" (config "b") voter
      (record { term = refl; vote = refl }) refl refl refl two_needed

abbrev running_for : Node
running_for = record voter {
  cfg = with_defaults (config "a");
  role = candidate;
  current_term = 1;
  voted_for = "a";
}

short_of_one : 1 < majority running_for.cfg.members
unfolding majority with_defaults
short_of_one = omega arith

enough : majority running_for.cfg.members ≤ 1 + 2
unfolding majority with_defaults
enough = omega arith

elects_example :
    ((collect (env 60) round (("b", grant) ∷ ("c", grant) ∷ []) running_for).role ≡ leader)
    × ((collect (env 60) round (("b", grant) ∷ ("c", grant) ∷ []) running_for).current_term ≡ 1)
elects_example =
    elects (env 60) round (("b", grant) ∷ ("c", grant) ∷ []) running_for refl refl
      ((refl, refl, omega arith), ((refl, refl, omega arith), tt)) short_of_one enough
