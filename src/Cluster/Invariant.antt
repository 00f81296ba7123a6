-- ===== src/Cluster/Invariant.antt =====
-- internal/cluster/cluster.go: what holds of a cluster between two locked sections.
use mathlib.Core.List.{Memᴰ}
use distsched.Base.{
  ℕ, ◌+◌, ◌≤◌, ◌≡◌, refl, ◌≢◌, List, Option, some, String, subst, String_discrete, ◌⊎◌, arith,
  sum_over, inl,
}
use distsched.Cluster.Node.{Node, Config, Election, leader, majority, with_defaults, new}
use distsched.Cluster.Evolves.{Synced, Evolves, Leads}
use distsched.Cluster.Tally.{tally, Extends, tally_mono}
use distsched.Cluster.System.{Ballots, System, init, update, record_vote}

-- The running count of a candidate: each vote counted was cast for it, and the voters counted and
-- those awaited are members, each as often as the list names it.
pub record Counting (members : List String) (cast : Ballots) (i : String) (el : Election)
    : Type 0 where
  pub member : Memᴰ i members
  pub backed : el.votes ≤ tally cast el.term i el.heard
  pub within : (w : String → ℕ) → sum_over w el.heard + sum_over w el.awaiting ≤ sum_over w members

pub record Cast (n : Node) (t : ℕ) (c : String) : Type 0 where
  pub not_ahead : t ≤ n.current_term
  pub now : t ≡ n.current_term → n.voted_for ≡ c
  pub named : c ≢ ""

pub record Inv (members : List String) (config : String → Config) (s : System) : Type 0 where
  pub configured : (i : String) → (s.node i).cfg ≡ with_defaults (config i)
  pub synced : (i : String) → Synced (s.node i)
  pub remembered : (v : String) (t : ℕ) (c : String) → s.cast v t ≡ some c → Cast (s.node v) t c
  pub elected :
      (i : String)
      → (s.node i).role ≡ leader
      → majority members ≤ tally s.cast (s.node i).current_term i members
  pub counting :
      (i : String) (el : Election) → s.election i ≡ some el → Counting members s.cast i el

module _ (members : List String) (config : String → Config) where
  pub init-Inv : Inv members config (init members config)
  unfolding new
  init-Inv = record {
    configured = λ i. refl;
    synced = λ i. ground arith;
    remembered = λ v t c h. cc;
    elected = λ i h. cc;
    counting = λ i el h. cc;
  }

  pub Counting-mono :
      (cast cast' : Ballots) (i : String) (el : Election)
      → Extends cast cast'
      → Counting members cast i el
      → Counting members cast' i el
  Counting-mono cast cast' i el ext k = record {
    member = k.member;
    backed = omega (arith, k.backed, tally_mono cast cast' el.term i el.heard ext);
    within = k.within;
  }

  -- One node moves on; votes are recorded that it has now; counts are all backed.
  pub record Moves (s : System) (i : String) (n' : Node) (cast' : Ballots) : Type 0 where
    pub evolves : Evolves (s.node i) n'
    pub extends : Extends s.cast cast'
    pub fresh :
        (v : String) (t : ℕ) (c : String)
        → cast' v t ≡ some c
        → (s.cast v t ≡ some c) ⊎ (v ≡ i) × Cast n' t c
    pub leads :
        n'.role ≡ leader
        → ((s.node i).role ≡ leader) × (n'.current_term ≡ (s.node i).current_term)
          ⊎ (majority members ≤ tally cast' n'.current_term i members)

  pub move-Inv :
      (s : System) (i : String) (n' : Node) (cast' : Ballots) (el' : String → Option Election)
      → Inv members config s
      → Moves s i n' cast'
      → ((j : String) (el : Election) → el' j ≡ some el → Counting members cast' j el)
      → Inv members config (record { node = update s.node i n'; election = el'; cast = cast' })
  move-Inv s i n' cast' el' inv m k =
      let ev = m.evolves in
      record {
        configured = λ j. ground (arith, inv.configured i, inv.configured j);
        synced = λ j. ground (arith, inv.synced i, inv.synced j);
        remembered = λ v t c h. ground (arith, m.fresh v t c h, inv.remembered v t c);
        elected = λ j h.
            let n = s.node j in
            ground (
              arith,
              inv.elected j,
              m.leads,
              tally_mono s.cast cast' n.current_term j members m.extends,
            );
        counting = k;
      }

  -- The elections of the other nodes stay as they are.
  pub others-Counting :
      (s : System) (i : String) (o : Option Election) (cast' : Ballots)
      → Inv members config s
      → Extends s.cast cast'
      → ((el : Election) → o ≡ some el → Counting members cast' i el)
      → (j : String) (el : Election) → update s.election i o j ≡ some el
      → Counting members cast' j el
  others-Counting s i o cast' inv ext k j el h = elim (String_discrete i j) [
    | yes e ↦ subst (λ x. Counting members cast' x el) e (k el (ground arith))
    | no e ↦ Counting-mono s.cast cast' j el ext (inv.counting j el (ground arith))
  ]

  pub quiet-Moves :
      (s : System) (i : String) (n' : Node)
      → Evolves (s.node i) n'
      → Leads (s.node i) n'
      → Moves s i n' s.cast
  quiet-Moves s i n' ev ld = record {
    evolves = ev;
    extends = λ v t c h. h;
    fresh = λ v t c h. inl h;
    leads = λ h. inl (ld h);
  }

  pub quiet-Inv :
      (s : System) (i : String) (n' : Node)
      → Inv members config s
      → Evolves (s.node i) n'
      → Leads (s.node i) n'
      → Inv members config (record s { node = update s.node i n' })
  quiet-Inv s i n' inv ev ld =
      move-Inv s i n' s.cast s.election inv (quiet-Moves s i n' ev ld) inv.counting

  -- A vote of the node's new state is recorded.
  pub record-Extends :
      (s : System) (i : String) (n' : Node) (c : String)
      → Inv members config s
      → Evolves (s.node i) n'
      → n'.voted_for ≡ c
      → Extends s.cast (record_vote s.cast i n'.current_term c)
  record-Extends s i n' c inv ev e v t c' h =
      ground (arith, inv.remembered v t c' h, inv.remembered i t c')

  pub record-Moves :
      (s : System) (i : String) (n' : Node) (c : String)
      → Inv members config s
      → Evolves (s.node i) n'
      → n'.voted_for ≡ c
      → c ≢ ""
      → (n'.role ≡ leader
          → ((s.node i).role ≡ leader) × (n'.current_term ≡ (s.node i).current_term)
            ⊎ (majority members
                ≤ tally (record_vote s.cast i n'.current_term c) n'.current_term i members))
      → Moves s i n' (record_vote s.cast i n'.current_term c)
  record-Moves s i n' c inv ev e ne ld = record {
    evolves = ev;
    extends = record-Extends s i n' c inv ev e;
    fresh = λ v t c' h. ground arith;
    leads = ld;
  }

-- What the operator sets up: each member runs under its own, non-empty id, over one list of members.
pub record IsCluster (members : List String) (config : String → Config) : Type 0 where
  pub own : (i : String) → Memᴰ i members → (config i).node_id ≡ i
  pub shared : (i : String) → Memᴰ i members → (config i).members ≡ members
  pub named : (i : String) → Memᴰ i members → i ≢ ""
