-- ===== src/Cluster/System.antt =====
-- The replicas of a cluster, interleaved a locked section at a time, over a network that loses,
-- delays and reorders messages. Vote requests and heartbeats may carry any term and any sender; a
-- granted vote is delivered only where it was granted, at most once to each round of the count.
use distsched.Base.{
  ℕ, ◌≡◌, ◌≢◌, ◌&&◌, Bool, true, false, List, [], ◌∷◌, ◌++◌, Option, none, some, String, ◌==◌, same,
  if◌then◌else◌,
}
use mathlib.Core.List.{Memᴰ}
use distsched.Cluster.Node.{
  Node, Env, Config, Election, VoteResult, is_leader, new, start, should_campaign, start_election,
  count_vote, handle_vote, observe_leader, maybe_step_down,
}

-- `cast v t` is the candidate that voter `v` has granted its vote of term `t`, if any: the history,
-- which no node reads.
abbrev pub Ballots : Type 0
Ballots = String → ℕ → Option String

pub record System : Type 0 where
  pub node : String → Node
  pub election : String → Option Election
  pub cast : Ballots

abbrev pub update {ℓ} : {A : Type ℓ} → (String → A) → String → A → String → A
update f i a j = if same i j then a else f j

abbrev pub record_vote : Ballots → String → ℕ → String → Ballots
record_vote cast v t c v' t' = if same v v' && t == t' then some c else cast v' t'

abbrev pub record_if : Bool → Ballots → String → ℕ → String → Ballots
record_if true cast v t c = record_vote cast v t c
record_if false cast v t c = cast

-- `startElection` runs in the goroutine of `run`, so a node has one election at a time.
abbrev pub IsIdle : Option Election → Type 0
IsIdle none = Unit {0}
IsIdle (some el) = el.awaiting ≡ []

unfoldable pub campaigned : Env → String → System → System
campaigned e i s =
    let (n, el) = start_election e (s.node i) in
    record {
      node = update s.node i n;
      election = update s.election i (some el);
      cast = record_vote s.cast i n.current_term i;
    }

unfoldable pub voted : Env → String → ℕ → String → System → System
voted e p t c s =
    let (n, answer) = handle_vote e t c (s.node p) in
    record s { node = update s.node p n; cast = record_if answer.0 s.cast p t c }

unfoldable pub counted :
    Env → String → Election → String → List String → VoteResult → System → System
counted e i el p rest r s =
    let (n, el') = count_vote e el p rest r (s.node i) in
    record s { node = update s.node i n; election = update s.election i el' }

unfoldable pub heard : Env → String → ℕ → String → System → System
heard e i t l s = record s { node = update s.node i (observe_leader e t l (s.node i)).0 }

unfoldable pub told : Env → String → ℕ → System → System
told e i t s = record s { node = update s.node i (maybe_step_down e t (s.node i)) }

-- A crash at any point, and a start over the disk. A single-member cluster votes for itself.
unfoldable pub restarted : (String → Config) → Env → String → System → System
restarted config e i s =
    let n = start e (config i) (s.node i).disk in
    record {
      node = update s.node i n;
      election = update s.election i none;
      cast = record_if (is_leader n.role) s.cast i n.current_term i;
    }

module _ (members : List String) (config : String → Config) where
  pub data Step (s : System) : System → Type 0 where
    restart :
        (e : Env) (i : String)
        → Memᴰ i members
        → e.save_ok ≡ true
        → e.load_ok ≡ true
        → Step s (restarted config e i s)
    campaign :
        (e : Env) (i : String)
        → Memᴰ i members
        → e.save_ok ≡ true
        → IsIdle (s.election i)
        → should_campaign e (s.node i) ≡ true
        → Step s (campaigned e i s)
    vote :
        (e : Env) (p : String) (t : ℕ) (c : String)
        → e.save_ok ≡ true
        → c ≢ ""
        → Step s (voted e p t c s)
    count :
        (e : Env) (i : String) (el : Election) (p : String) (before after : List String)
        (r : VoteResult)
        → e.save_ok ≡ true
        → s.election i ≡ some el
        → el.awaiting ≡ before ++ p ∷ after
        → (r.granted ≡ true → s.cast p el.term ≡ some i)
        → Step s (counted e i el p (before ++ after) r s)
    heartbeat :
        (e : Env) (i : String) (t : ℕ) (l : String) → e.save_ok ≡ true → Step s (heard e i t l s)
    step_down : (e : Env) (i : String) (t : ℕ) → e.save_ok ≡ true → Step s (told e i t s)

  -- Nodes that were never started, over empty disks.
  abbrev pub init : System
  init = record {
    node = λ i. new (config i) (record { term = 0; voted_for = "" });
    election = λ i. none;
    cast = λ v t. none;
  }

  pub data Reach : System → Type 0 where
    here : Reach init
    next : {s t : System} → Reach s → Step s t → Reach t
