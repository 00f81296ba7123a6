-- ===== src/Scheduler/Tracks.antt =====
-- internal/scheduler/server.go and cluster.go: the jobs that the leader has stored, and those that its
-- log makes of whatever a follower has.
use mathlib.Core.List.{Memᴰ}
use mathlib.Core.List.Memᴰ
use distsched.Base.{
  ℕ, ◌+◌, ◌≡◌, refl, ap, sym, ◌∙◌, inl, inr, true, false, List, [], ◌∷◌, ◌++◌, String, arith, same,
  map, Bool-cases,
}
use distsched.Api.{Job, Mutation, WorkerInfo, upsert_job, upsert_worker}
use distsched.Store.{Found, found}
use distsched.Scheduler.State.{Backend, leads}
use distsched.Scheduler.Replication.{S, append_repl, number_from, put_job, put_worker}
use distsched.Scheduler.Converges.{replayed, replayed_one, replayed-append}

module _ (b : Backend) where
  -- The log makes every stored job of whatever was under its key.
  pub record Tracks (s : S b) : Type 0 where
    pub leading : leads s ≡ true
    pub logged :
        (k : String) (j : Job) (o : Found Job)
        → b.storage.get_job s.store k ≡ found j
        → replayed k s.repl_log o ≡ found j

  append_repl-Tracks :
      (m : Mutation) (s : S b)
      → leads s ≡ true
      → ((k : String) (j : Job) (o : Found Job)
          → b.storage.get_job s.store k ≡ found j
          → replayed_one k m (replayed k s.repl_log o) ≡ found j)
      → Tracks (append_repl m s)
  unfolding append_repl replayed
  append_repl-Tracks m s l h =
      rw (l, append_repl)
        (record {
          leading = l;
          logged = λ k j o e.
              replayed-append k s.repl_log (record { seq = s.repl_seq + 1; mutation = m } ∷ []) o
              ∙ h k j o e;
        })

  pub put_job-Tracks : (j : Job) (s : S b) → Tracks s → Tracks (put_job b j s).0
  unfolding put_job
  put_job-Tracks j s t =
      let (db, done) = b.storage.put_job j s.store in
      elim (Bool-cases (b.storage.put_job j s.store).1) [
        | inl f ↦
            rw (f, put_job)
              (append_repl-Tracks (upsert_job j) (record s { store = db }) t.leading
                (λ k i o e.
                  ground (arith, f, b.storage.get_job-put_job s.store j k, t.logged k i o)))
        | inr f ↦
            rw (f, put_job)
              (record {
                leading = t.leading;
                logged = λ k i o e.
                    ground (arith, f, b.storage.get_job-put_job s.store j k, t.logged k i o);
              })
      ]

  pub put_worker-Tracks : (w : WorkerInfo) (s : S b) → Tracks s → Tracks (put_worker b w s).0
  unfolding put_worker
  put_worker-Tracks w s t =
      let (db, done) = b.storage.put_worker w s.store in
      let same_jobs = λ (k : String). b.storage.get_job-put_worker s.store w k in
      elim (Bool-cases (b.storage.put_worker w s.store).1) [
        | inl f ↦
            let u =
              append_repl-Tracks (upsert_worker w) (record s { store = db }) t.leading
                (λ k i o e. t.logged k i o (sym (same_jobs k) ∙ e)) in
            rw (f, put_worker) (record { leading = u.leading; logged = u.logged })
        | inr f ↦
            rw (f, put_worker)
              (record {
                leading = t.leading;
                logged = λ k i o e. t.logged k i o (sym (same_jobs k) ∙ e);
              })
      ]

  pub filed-Tracks :
      (j : Job) (s : S b)
      → Tracks s
      → Tracks (record s { store = (b.storage.put_dead_letter j s.store).0 })
  filed-Tracks j s t = record {
    leading = t.leading;
    logged = λ k i o e. t.logged k i o (sym (b.storage.get_job-put_dead_letter s.store j k) ∙ e);
  }

replayed_workers :
    (k : String) (ws : List WorkerInfo) (n : ℕ) (o : Found Job)
    → replayed k (number_from n (map upsert_worker ws)) o ≡ o
unfolding replayed number_from
replayed_workers k [] n o = refl
replayed_workers k (w ∷ ws) n o = replayed_workers k ws (n + 1) o

-- The snapshot of jobs and workers, where no job is under the key.
module _ (k : String) (ws : List WorkerInfo) where
  other_job : (i : Job) (o : Found Job) → same i.id k ≡ false → replayed_one k (upsert_job i) o ≡ o
  other_job i o e = rw (e) refl

  pub snapshot_leaves :
      (js : List Job) (n : ℕ) (o : Found Job)
      → ((i : Job) → Memᴰ i js → same i.id k ≡ false)
      → replayed k (number_from n (map upsert_job js ++ map upsert_worker ws)) o ≡ o
  unfolding replayed number_from
  snapshot_leaves [] n o h = replayed_workers k ws n o
  snapshot_leaves (i ∷ js) n o h =
      snapshot_leaves js (n + 1) (replayed_one k (upsert_job i) o) (λ x m. h x (Memᴰ.tail m))
      ∙ other_job i o (h i (Memᴰ.head refl))

-- The snapshot of jobs and workers, where every job under the key is `j`.
module _ (k : String) (j : Job) (ws : List WorkerInfo) where
  same_job :
      (i : Job) → (same i.id k ≡ true → i ≡ j) → replayed_one k (upsert_job i) (found j) ≡ found j
  same_job i h = elim (Bool-cases (same i.id k)) [
    | inl e ↦ rw (e) (ap found (h e))
    | inr e ↦ rw (e) refl
  ]

  own_job :
      (i : Job) (o : Found Job)
      → j ≡ i
      → same j.id k ≡ true
      → replayed_one k (upsert_job i) o ≡ found j
  own_job i o e f = rw (sym e, f) refl

  snapshot_keeps :
      (js : List Job) (n : ℕ)
      → ((i : Job) → Memᴰ i js → same i.id k ≡ true → i ≡ j)
      → replayed k (number_from n (map upsert_job js ++ map upsert_worker ws)) (found j) ≡ found j
  unfolding replayed number_from
  snapshot_keeps [] n h = replayed_workers k ws n (found j)
  snapshot_keeps (i ∷ js) n h =
      ap (replayed k (number_from (n + 1) (map upsert_job js ++ map upsert_worker ws)))
        (same_job i (h i (Memᴰ.head refl)))
      ∙ snapshot_keeps js (n + 1) (λ x m. h x (Memᴰ.tail m))

  pub snapshot_reaches :
      (js : List Job) (n : ℕ) (o : Found Job)
      → ((i : Job) → Memᴰ i js → same i.id k ≡ true → i ≡ j)
      → same j.id k ≡ true
      → Memᴰ j js
      → replayed k (number_from n (map upsert_job js ++ map upsert_worker ws)) o ≡ found j
  unfolding replayed number_from
  snapshot_reaches [] n o h e m = absurd (Memᴰ.not-nil m)
  snapshot_reaches (i ∷ js) n o h e m = elim (Memᴰ.cases_cons m) [
    | inl here ↦
        ap (replayed k (number_from (n + 1) (map upsert_job js ++ map upsert_worker ws)))
          (own_job i o here e)
        ∙ snapshot_keeps js (n + 1) (λ x m'. h x (Memᴰ.tail m'))
    | inr later ↦
        snapshot_reaches js (n + 1) (replayed_one k (upsert_job i) o) (λ x m'. h x (Memᴰ.tail m')) e
          later
  ]
