-- ===== src/Cluster/Safety.antt =====
-- internal/cluster/cluster.go: the leaders of a term.
use distsched.Base.{◌≡◌, List, String, String_discrete}
use distsched.Cluster.Node.{Config, leader}
use distsched.Cluster.Tally.{majority_unique}
use distsched.Cluster.System.{System, Reach}
use distsched.Cluster.Invariant.{IsCluster}
use distsched.Cluster.Steps.{Reach-Inv}

-- In every reachable state of a cluster, whatever the network does and whichever nodes crash and
-- restart, two nodes that lead in the same term are the same node, provided that every save and
-- load of the election state succeeds.
pub election_safety :
    (members : List String) (config : String → Config) (s : System) (i j : String)
    → IsCluster members config
    → Reach members config s
    → (s.node i).role ≡ leader
    → (s.node j).role ≡ leader
    → (s.node i).current_term ≡ (s.node j).current_term
    → i ≡ j
election_safety members config s i j setup r li lj te = elim (String_discrete i j) [
  | yes e ↦ e
  | no ne ↦
      let inv = Reach-Inv members config setup r in
      absurd (
        majority_unique s.cast (s.node i).current_term i j members (inv.elected i li)
          (rw te (inv.elected j lj)) ne)
]
