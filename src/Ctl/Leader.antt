-- ===== src/Ctl/Leader.antt =====
-- internal/ctl/ctl.go, internal/worker/agent.go and internal/scheduler/cluster.go: the address at which a
-- client and an agent look for the leader, and the one to which a server redirects.
use distsched.Base.{
  ◌≡◌, ◌≢◌, refl, ap, sym, ◌∙◌, false, List, [], ◌∷◌, Option, none, some, String, arith, same,
  lookup, Dict, if◌then◌else◌, inl, inr,
}
use distsched.Api.{ClusterStatus, get_holder_id}
use distsched.Net.{ok, err, Failure, Network, Answer-cases, ask}
use distsched.Cluster.Node.{current_leader}
use distsched.Scheduler.State.{Backend, Reply, leader_addr}
use distsched.Scheduler.Replication.{S}
use distsched.Scheduler.Status.{nodes_of, get_cluster_status}
use distsched.Ctl.{Client, address_of, status, status_loop, leader_conn}
use distsched.Worker.Session.{discover_loop}

address_of-nodes_of :
    (holder leader : String) (members : Dict String)
    → address_of holder (nodes_of leader members) ≡ lookup holder members
unfolding address_of nodes_of lookup
address_of-nodes_of holder leader [] = refl
address_of-nodes_of holder leader ((id, addr) ∷ ms) =
    ap (λ o. if same id holder then some addr else o) (address_of-nodes_of holder leader ms)

status_names :
    (b : Backend) (s : S b) (st : ClusterStatus)
    → get_cluster_status b s ≡ Reply.ok st
    → (get_holder_id st.lease ≡ current_leader s.node)
      × (st.schedulers ≡ nodes_of (current_leader s.node) s.members)
unfolding get_cluster_status
status_names b s st e = ground arith

module _ (net : Network) where
  answered :
      (seed : String) (seeds : List String) (last : Option Failure) (w : net.World)
      (st : ClusterStatus)
      → (ask net seed w).1 ≡ ok st
      → status_loop net (seed ∷ seeds) last w ≡ ((ask net seed w).0, ok st)
  unfolding status_loop
  answered seed seeds last w st g = rw (g, status_loop) refl

  failed_over :
      (seed : String) (seeds : List String) (last : Option Failure) (w : net.World) (x : Failure)
      → (ask net seed w).1 ≡ err x
      → status_loop net (seed ∷ seeds) last w ≡ status_loop net seeds (some x) (ask net seed w).0
  unfolding status_loop
  failed_over seed seeds last w x g = rw (g, status_loop) refl

  agent_follows :
      (seeds : List String) (last : Option Failure) (w w1 : net.World) (st : ClusterStatus)
      (addr : String)
      → status_loop net seeds last w ≡ (w1, ok st)
      → same (get_holder_id st.lease) "" ≡ false
      → address_of (get_holder_id st.lease) st.schedulers ≡ some addr
      → discover_loop net seeds last w ≡ (w1, ok addr)
  unfolding status_loop discover_loop
  agent_follows [] none w w1 st addr e h f = absurd (ground arith)
  agent_follows [] (some x) w w1 st addr e h f = absurd (ground arith)
  agent_follows (seed ∷ seeds) last w w1 st addr e h f = elim (Answer-cases (ask net seed w).1) [
    | inl (st', g) ↦
        let same_answer = sym (answered seed seeds last w st' g) ∙ e in
        let g' : (ask net seed w).1 ≡ ok st = g ∙ ap (λ p. p.1) same_answer in
        rw (g', h, f, discover_loop) (ap (λ p. (p.0, ok addr)) same_answer)
    | inr (x, g) ↦
        rw (g, discover_loop)
          (agent_follows seeds (some x) (ask net seed w).0 w1 st addr
            (sym (failed_over seed seeds last w x g) ∙ e) h f)
  ]

  client_follows :
      (c : Client) (w w1 : net.World) (st : ClusterStatus) (addr : String)
      → status net c w ≡ (w1, ok st)
      → address_of (get_holder_id st.lease) st.schedulers ≡ some addr
      → (net.dial addr w1).1 ≡ ok tt
      → (leader_conn net c w).1 ≡ ok addr
  unfolding leader_conn
  client_follows c w w1 st addr e f d =
      let there : (net.dial addr (status net c w).0).1 ≡ ok tt =
        ap (λ p. (net.dial addr p.0).1) e ∙ d in
      rw (e, f, there, leader_conn) refl

-- Where the first seed that answers a client gives the status of a server that knows a leader among its
-- members, whose address can be dialed, the client calls the leader at the address to which that server
-- redirects, and an agent with the same seeds finds the same address.
pub same_leader :
    (net : Network) (b : Backend) (s : S b) (c : Client) (w w1 : net.World) (st : ClusterStatus)
    (addr : String)
    → status net c w ≡ (w1, ok st)
    → get_cluster_status b s ≡ Reply.ok st
    → current_leader s.node ≢ ""
    → lookup (current_leader s.node) s.members ≡ some addr
    → (net.dial addr w1).1 ≡ ok tt
    → (discover_loop net c.seeds none w ≡ (w1, ok addr))
      × ((leader_conn net c w).1 ≡ ok addr)
      × (leader_addr s ≡ addr)
unfolding leader_addr status
same_leader net b s c w w1 st addr e g n l d =
    let (holder, nodes) = status_names b s st g in
    let named : same (current_leader s.node) "" ≡ false = ground arith in
    let found : address_of (get_holder_id st.lease) st.schedulers ≡ some addr =
      ap (λ ns. address_of (get_holder_id st.lease) ns) nodes
      ∙ address_of-nodes_of (get_holder_id st.lease) (current_leader s.node) s.members
      ∙ ap (λ i. lookup i s.members) holder
      ∙ l in
    (
      agent_follows net c.seeds none w w1 st addr e (ap (λ i. same i "") holder ∙ named) found,
      client_follows net c w w1 st addr e found d,
      rw (l, leader_addr) refl,
    )
