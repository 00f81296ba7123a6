-- ===== src/Scheduler/Follows.antt =====
-- internal/scheduler/server.go and cluster.go: the jobs of a leader and of a follower that applies its
-- log.
use distsched.Base.{
  ◌≡◌, ap, sym, ◌∙◌, inl, inr, true, List, [], ◌∷◌, ◌++◌, none, some, String, arith, same,
  Bool-cases,
}
use distsched.Api.{Job, ReplicationEntry, WorkerInfo}
use distsched.Store.{found, not_found}
use distsched.Scheduler.State.{Backend, leads}
use distsched.Scheduler.Replication.{S, apply_entries, put_job, put_worker, seed_replication}
use distsched.Scheduler.Converges.{replayed, replayed-overlap, IsReliable, apply_loop-replayed}
use distsched.Scheduler.Tracks.{
  Tracks, put_job-Tracks, put_worker-Tracks, filed-Tracks, snapshot_leaves, snapshot_reaches,
}

-- The writes that a leader makes to its store.
pub data Written : Type 0 where
  wrote_job : Job → Written
  wrote_worker : WorkerInfo → Written
  filed : Job → Written

same→eq : (x y : String) → same x y ≡ true → x ≡ y
same→eq x y h = ground arith

eq→same : (x y : String) → x ≡ y → same x y ≡ true
eq→same x y h = ground arith

missing : (j : Job) → not_found ≡ found j → ⊥
missing j e = ground arith

found-injective : (i j : Job) → found i ≡ found j → i ≡ j
found-injective i j e = ap (λ o. elim o [ found x ↦ x | _ ↦ i ]) e

module _ (b : Backend) where
  -- A job is stored under its ID.
  abbrev pub IsKeyed : S b → Type 0
  IsKeyed s = (k : String) (j : Job) → b.storage.get_job s.store k ≡ found j → j.id ≡ k

  -- A new leader's log is tracked from its snapshot on, where its store can be listed.
  pub seed_replication-Tracks :
      (s : S b) (js : List Job)
      → leads s ≡ true
      → IsKeyed s
      → b.storage.list_jobs s.store ≡ some js
      → Tracks b (seed_replication b s)
  unfolding seed_replication
  seed_replication-Tracks s js l keyed e =
      let ws : List WorkerInfo = elim (b.storage.list_workers s.store) [
        | none ↦ []
        | some xs ↦ xs
      ] in
      rw (e, seed_replication)
        (record {
          leading = l;
          logged = λ k j o g.
              snapshot_reaches k j ws js 0 o
                (λ x m h.
                  let (k', f) = (b.storage.list_jobs_iff s.store js x e).0 m in
                  let here : k' ≡ k = sym (keyed k' x f) ∙ same→eq x.id k h in
                  found-injective x j (sym f ∙ ap (b.storage.get_job s.store) here ∙ g))
                (eq→same j.id k (keyed k j g)) ((b.storage.list_jobs_iff s.store js j e).1 k g);
        })

  abbrev pub write_all : List Written → S b → S b
  write_all [] s = s
  write_all (wrote_job j ∷ ws) s = write_all ws (put_job b j s).0
  write_all (wrote_worker w ∷ ws) s = write_all ws (put_worker b w s).0
  write_all (filed j ∷ ws) s =
      write_all ws (record s { store = (b.storage.put_dead_letter j s.store).0 })

  pub write_all-Tracks : (ws : List Written) (s : S b) → Tracks b s → Tracks b (write_all ws s)
  write_all-Tracks [] s t = t
  write_all-Tracks (wrote_job j ∷ ws) s t =
      write_all-Tracks ws (put_job b j s).0 (put_job-Tracks b j s t)
  write_all-Tracks (wrote_worker w ∷ ws) s t =
      write_all-Tracks ws (put_worker b w s).0 (put_worker-Tracks b w s t)
  write_all-Tracks (filed j ∷ ws) s t =
      write_all-Tracks ws (record s { store = (b.storage.put_dead_letter j s.store).0 })
        (filed-Tracks b j s t)

  -- A follower that applies the whole log of a new leader keeps a job that the leader does not have,
  -- unchanged, where the follower's store takes every write, and the leader's has jobs under their IDs
  -- only and can be listed.
  pub stale_job_kept :
      (s f : S b) (js : List Job) (k : String)
      → IsReliable b
      → IsKeyed s
      → b.storage.list_jobs s.store ≡ some js
      → b.storage.get_job s.store k ≡ not_found
      → b.storage.get_job (apply_entries b (seed_replication b s).repl_log f).0.store k
        ≡ b.storage.get_job f.store k
  unfolding apply_entries seed_replication
  stale_job_kept s f js k r keyed e absent =
      let ws : List WorkerInfo = elim (b.storage.list_workers s.store) [
        | none ↦ []
        | some xs ↦ xs
      ] in
      apply_loop-replayed b (seed_replication b s).repl_log 0 f k r
      ∙ rw (e, seed_replication)
          (snapshot_leaves k ws js 0 (b.storage.get_job f.store k) (λ x m.
            let (k', g) = (b.storage.list_jobs_iff s.store js x e).0 m in
            elim (Bool-cases (same x.id k)) [
              | inl h ↦
                  let here : k' ≡ k = sym (keyed k' x g) ∙ same→eq x.id k h in
                  absurd (missing x (sym absent ∙ ap (b.storage.get_job s.store) (sym here) ∙ g))
              | inr h ↦ h
            ]))

-- The leader and the follower each over a store of its own.
module _ (lb fb : Backend) where
  -- A follower that applies the log of a leader, from its snapshot on through any writes, whether they
  -- go through or not, ends with every job that the leader has stored, as the leader has it: whatever
  -- the follower had stored before, and where a part of the log is sent twice, as after a lost reply.
  -- The follower's store takes every write, and the leader's had jobs under their IDs only and could be
  -- listed.
  pub follower_converges :
      (s : S lb) (f : S fb) (js : List Job) (ws : List Written) (xs ys zs : List ReplicationEntry)
      (k : String) (j : Job)
      → IsReliable fb
      → leads s ≡ true
      → IsKeyed lb s
      → lb.storage.list_jobs s.store ≡ some js
      → (write_all lb ws (seed_replication lb s)).repl_log ≡ xs ++ (ys ++ zs)
      → lb.storage.get_job (write_all lb ws (seed_replication lb s)).store k ≡ found j
      → fb.storage.get_job (apply_entries fb (ys ++ zs) (apply_entries fb (xs ++ ys) f).0).0.store k
        ≡ found j
  unfolding apply_entries
  follower_converges s f js ws xs ys zs k j r l i e log there =
      let t =
        write_all-Tracks lb ws (seed_replication lb s) (seed_replication-Tracks lb s js l i e) in
      let f1 = (apply_entries fb (xs ++ ys) f).0 in
      let o = fb.storage.get_job f.store k in
      apply_loop-replayed fb (ys ++ zs) 0 f1 k r
      ∙ ap (replayed k (ys ++ zs)) (apply_loop-replayed fb (xs ++ ys) 0 f k r)
      ∙ replayed-overlap k xs ys zs o
      ∙ ap (λ es. replayed k es o) (sym log)
      ∙ t.logged k j o there
