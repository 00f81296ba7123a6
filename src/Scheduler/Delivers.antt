-- ===== src/Scheduler/Delivers.antt =====
-- internal/scheduler/cluster.go: one heartbeat of a leader to a follower that has acknowledged nothing.
use distsched.Base.{
  ℕ, suc, ◌≤◌, ◌≡◌, refl, ap, ◌∙◌, true, false, List, [], ◌∷◌, none, some, String, same, lookup,
  arith, ltb,
}
use distsched.Api.{Job, ReplicationEntry}
use distsched.Store.{found}
use distsched.Cluster.Node.{Env, Node, observe_leader}
use distsched.Scheduler.State.{Backend, Server}
use distsched.Scheduler.Replication.{S, apply_entries, entries_for_peer, unacked}
use distsched.Scheduler.Workers.{replicate}
use distsched.Scheduler.Broadcast.{Send, broadcast_loop, broadcast_replicate, replication_tick}
use distsched.Scheduler.Shipping.{NumberedFrom, IsNumbered}
use distsched.Scheduler.Converges.{IsReliable, apply_loop-replayed, replayed}
use distsched.Scheduler.Tracks.{Tracks}

all_unacked : (n m : ℕ) (es : List ReplicationEntry) → n ≤ m → NumberedFrom m es → unacked n es ≡ es
unfolding unacked
all_unacked n m [] h k = refl
all_unacked n m (e ∷ es) h k =
    let there : ltb n e.seq ≡ true = ground (arith, k.0) in
    rw (there) (ap (λ l. e ∷ l) (all_unacked n (suc m) es (omega arith) k.1))

whole_log :
    {Db : Type 0} (peer : String) (s : Server Db)
    → IsNumbered s
    → lookup peer s.peer_acked ≡ none
    → entries_for_peer peer s ≡ s.repl_log
unfolding entries_for_peer
whole_log peer s h e = rw (e, entries_for_peer) (all_unacked 0 0 s.repl_log (omega arith) h.0)

accepted :
    (e : Env) (t : ℕ) (id : String) (n : Node)
    → n.current_term ≤ t
    → (observe_leader e t id n).1.0 ≡ true
unfolding observe_leader
accepted e t id n h = ground arith

module _ (b : Backend) where
  -- The follower answers each call for itself.
  abbrev pub deliver : Env → Send (S b)
  deliver e peer term leader_id entries f =
      let (f1, r) = replicate b e term leader_id entries f in (f1, some r)

  replicate-store :
      (e : Env) (t : ℕ) (id : String) (es : List ReplicationEntry) (f : S b) (k : String)
      → IsReliable b
      → f.node.current_term ≤ t
      → b.storage.get_job (replicate b e t id es f).0.store k
        ≡ replayed k es (b.storage.get_job f.store k)
  unfolding replicate apply_entries
  replicate-store e t id es f k r h =
      let n = (observe_leader e t id f.node).0 in
      rw (accepted e t id f.node h, replicate)
        (apply_loop-replayed b es 0 (record f { node = n }) k r)

  self_same : (id : String) → same id id ≡ true
  self_same id = ground arith

  two_members :
      (e e' : Env) (t : ℕ) (s f : S b) (peer x y : String)
      → same peer s.cfg.node_id ≡ false
      → (broadcast_loop b (deliver e') e t ((s.cfg.node_id, x) ∷ (peer, y) ∷ []) s f).1
        ≡ (replicate b e' t s.cfg.node_id (entries_for_peer peer s) f).0
  unfolding broadcast_loop
  two_members e e' t s f peer x y other = rw (self_same s.cfg.node_id, other, broadcast_loop) refl

  -- In a cluster of a leader and one follower that has acknowledged nothing yet and is not in a later
  -- term, one tick of the leader leaves the follower with every job that the leader has stored, where
  -- the leader's log is numbered and holds its jobs and the follower's store takes every write.
  pub tick_delivers :
      (e e' : Env) (s f : S b) (peer self_addr peer_addr : String) (k : String) (j : Job)
      → IsReliable b
      → Tracks b s
      → IsNumbered s
      → s.members ≡ (s.cfg.node_id, self_addr) ∷ (peer, peer_addr) ∷ []
      → same peer s.cfg.node_id ≡ false
      → lookup peer s.peer_acked ≡ none
      → f.node.current_term ≤ s.node.current_term
      → b.storage.get_job s.store k ≡ found j
      → b.storage.get_job (replication_tick b (deliver e') e s f).1.store k ≡ found j
  unfolding replication_tick broadcast_replicate
  tick_delivers e e' s f peer self_addr peer_addr k j r t n m other new h there = rw (t.leading) (
      ap
        (λ ms.
          b.storage.get_job (broadcast_loop b (deliver e') e s.node.current_term ms s f).1.store k)
        m
      ∙ ap (λ (g : S b). b.storage.get_job g.store k)
          (two_members e e' s.node.current_term s f peer self_addr peer_addr other)
      ∙ replicate-store e' s.node.current_term s.cfg.node_id (entries_for_peer peer s) f k r h
      ∙ ap (λ es. replayed k es (b.storage.get_job f.store k)) (whole_log peer s n new)
      ∙ t.logged k j (b.storage.get_job f.store k) there)
