-- ===== src/Scheduler/Late.antt =====
-- internal/scheduler/server.go and cluster.go: an answer to a heartbeat that arrives after the log was
-- seeded anew.
use mathlib.Core.List.{Memᴰ}
use mathlib.Core.List.Memᴰ
use distsched.Base.{
  ℕ, ◌+◌, ◌++◌, inl, inr, sym, subst, map, length, Bool-cases, ◌≤◌, ◌<◌, ◌≡◌, refl, ap, ◌∙◌, true,
  List, [], ◌∷◌, none, some, String, arith, lookup, insert,
}
use distsched.Api.{Job, WorkerInfo, Mutation, upsert_job, upsert_worker, ReplicationEntry}
use distsched.Cluster.Node.{Env}
use distsched.Scheduler.State.{Backend, Server, leads}
use distsched.Scheduler.Replication.{
  S, append_repl, number_from, or_zero, entries_for_peer, ack_peer, put_job, put_worker,
  seed_replication,
}
use distsched.Scheduler.Workers.{Replicated, on_replicated}
use distsched.Scheduler.Shipping.{unacked_sound}
use distsched.Scheduler.Follows.{Written, wrote_job, wrote_worker, filed, write_all}

-- The entry of a job in a snapshot of jobs and workers.
numbered_entry :
    (j : Job) (js : List Job) (ms : List Mutation) (n : ℕ)
    → Memᴰ j js
    → (x : ReplicationEntry) × (x.mutation ≡ upsert_job j)
      × (x.seq ≤ n + length js)
      × Memᴰ x (number_from n (map upsert_job js ++ ms))
unfolding number_from
numbered_entry j [] ms n m = absurd (Memᴰ.not-nil m)
numbered_entry j (i ∷ js) ms n m = elim (Memᴰ.cases_cons m) [
  | inl here ↦ (
    record { seq = n + 1; mutation = upsert_job i },
    ap upsert_job (sym here),
    omega arith,
    Memᴰ.head refl,
  )
  | inr later ↦
      let (x, same_job, low, there) = numbered_entry j js ms (n + 1) later in
      (x, same_job, omega (arith, low), Memᴰ.tail there)
]

grown : (xs : List ReplicationEntry) (y x : ReplicationEntry) → Memᴰ x xs → Memᴰ x (xs ++ y ∷ [])
grown [] y x m = absurd (Memᴰ.not-nil m)
grown (z ∷ zs) y x m = elim (Memᴰ.cases_cons m) [
  | inl here ↦ Memᴰ.head here
  | inr later ↦ Memᴰ.tail (grown zs y x later)
]

append_repl-grows :
    {Db : Type 0} (m : Mutation) (s : Server Db) (x : ReplicationEntry)
    → Memᴰ x s.repl_log
    → Memᴰ x (append_repl m s).repl_log
unfolding append_repl
append_repl-grows m s x h = elim (Bool-cases (leads s)) [
  | inl e ↦
      rw (e, append_repl) (grown s.repl_log (record { seq = s.repl_seq + 1; mutation = m }) x h)
  | inr e ↦ rw (e, append_repl) h
]

module _ (b : Backend) where
  put_job-grows :
      (j : Job) (s : S b) (x : ReplicationEntry)
      → Memᴰ x s.repl_log
      → Memᴰ x (put_job b j s).0.repl_log
  unfolding put_job
  put_job-grows j s x h = elim (Bool-cases (b.storage.put_job j s.store).1) [
    | inl e ↦
        rw (e, put_job)
          (append_repl-grows (upsert_job j) (record s { store = (b.storage.put_job j s.store).0 }) x
            h)
    | inr e ↦ rw (e, put_job) h
  ]

  put_worker-grows :
      (w : WorkerInfo) (s : S b) (x : ReplicationEntry)
      → Memᴰ x s.repl_log
      → Memᴰ x (put_worker b w s).0.repl_log
  unfolding put_worker
  put_worker-grows w s x h = elim (Bool-cases (b.storage.put_worker w s.store).1) [
    | inl e ↦
        rw (e, put_worker)
          (append_repl-grows (upsert_worker w)
            (record s { store = (b.storage.put_worker w s.store).0 }) x h)
    | inr e ↦ rw (e, put_worker) h
  ]

  -- The snapshot has an entry of each job, numbered within the jobs.
  seeded :
      (s : S b) (js : List Job) (j : Job)
      → b.storage.list_jobs s.store ≡ some js
      → Memᴰ j js
      → (x : ReplicationEntry) × (x.mutation ≡ upsert_job j)
        × (x.seq ≤ length js)
        × Memᴰ x (seed_replication b s).repl_log
  unfolding seed_replication
  seeded s js j e m =
      let ws : List WorkerInfo = elim (b.storage.list_workers s.store) [
        | none ↦ []
        | some xs ↦ xs
      ] in
      let (x, same_job, low, there) = numbered_entry j js (map upsert_worker ws) 0 m in
      rw (e, seed_replication) (x, same_job, omega (arith, low), there)

  write_all-peer_acked :
      (ws : List Written) (s : S b) → (write_all b ws s).peer_acked ≡ s.peer_acked
  unfolding put_job put_worker append_repl
  write_all-peer_acked [] s = refl
  write_all-peer_acked (wrote_job j ∷ ws) s = write_all-peer_acked ws _ ∙ ground arith
  write_all-peer_acked (wrote_worker w ∷ ws) s = write_all-peer_acked ws _ ∙ ground arith
  write_all-peer_acked (filed j ∷ ws) s = write_all-peer_acked ws _ ∙ ground arith

  late_acked :
      (e : Env) (peer : String) (r : Replicated) (s : S b)
      → r.ok ≡ true
      → 0 < r.applied_through
      → lookup peer (on_replicated b e peer r (seed_replication b s)).peer_acked
        ≡ some r.applied_through
  unfolding on_replicated ack_peer seed_replication lookup insert
  late_acked e peer r s h pos = ground arith

  write_all-grows :
      (ws : List Written) (s : S b) (x : ReplicationEntry)
      → Memᴰ x s.repl_log
      → Memᴰ x (write_all b ws s).repl_log
  write_all-grows [] s x m = m
  write_all-grows (wrote_job j ∷ ws) s x m =
      write_all-grows ws (put_job b j s).0 x (put_job-grows j s x m)
  write_all-grows (wrote_worker w ∷ ws) s x m =
      write_all-grows ws (put_worker b w s).0 x (put_worker-grows w s x m)
  write_all-grows (filed j ∷ ws) s x m =
      write_all-grows ws (record s { store = (b.storage.put_dead_letter j s.store).0 }) x m

  on_replicated-log :
      (e : Env) (peer : String) (r : Replicated) (s : S b)
      → (on_replicated b e peer r s).repl_log ≡ s.repl_log
  unfolding on_replicated ack_peer
  on_replicated-log e peer r s = ground arith

  -- A follower acknowledges entries of the last log, at least as many as there are jobs now, and its
  -- answer arrives after the log is seeded for a new leadership. Then each job of the new leader has an
  -- entry in the snapshot that stays in the log and that the follower is never sent, whatever is written
  -- later.
  pub late_ack_starves :
      (e : Env) (peer : String) (r : Replicated) (s : S b) (later : List Written) (js : List Job)
      (j : Job)
      → b.storage.list_jobs s.store ≡ some js
      → Memᴰ j js
      → r.ok ≡ true
      → 0 < r.applied_through
      → r.applied_through ≤ s.repl_seq
      → length js ≤ r.applied_through
      → let end = write_all b later (on_replicated b e peer r (seed_replication b s)) in
        (x : ReplicationEntry) × (x.mutation ≡ upsert_job j)
        × Memᴰ x end.repl_log
        × (¬ Memᴰ x (entries_for_peer peer end))
  unfolding entries_for_peer
  late_ack_starves e peer r s later js j listed m h pos known covers =
      let s1 = on_replicated b e peer r (seed_replication b s) in
      let s2 = write_all b later s1 in
      let (x, same_job, low, there) = seeded s js j listed m in
      let acked : or_zero (lookup peer s2.peer_acked) ≡ r.applied_through =
        ap (λ d. or_zero (lookup peer d)) (write_all-peer_acked later s1)
        ∙ ap or_zero (late_acked e peer r s h pos) in
      (
        x,
        same_job,
        write_all-grows later s1 x
            (subst (Memᴰ x) (sym (on_replicated-log e peer r (seed_replication b s))) there),
        λ sent. absurd (omega (arith, acked, low, (unacked_sound _ s2.repl_log x sent).1)),
      )
