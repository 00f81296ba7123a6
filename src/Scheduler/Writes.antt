-- ===== src/Scheduler/Writes.antt =====
-- internal/scheduler/server.go and internal/store/store.go: what a write does to the jobs of the store.
use distsched.Base.{
  ◌≡◌, refl, sym, ◌∙◌, subst, inl, inr, false, ◌&&◌, same, String, arith, Bool-cases,
}
use distsched.Store.{found}
use distsched.Api.{Job, WorkerInfo}
use distsched.Store.Interface.{Storage}
use distsched.Scheduler.State.{Backend}
use distsched.Scheduler.Replication.{S, append_repl, put_job, put_worker}
use distsched.Scheduler.Safe.{Inv, Fits, Safe, Kept, Stays, IsLive}

depends_on-eq :
    (j j' i : Job) → found j ≡ found j' → i.depends_on ≡ j.depends_on → j'.depends_on ≡ i.depends_on
depends_on-eq j j' i e h = cc

module _ (st : Storage) where
  put_job-Inv : (d : st.Db) (j : Job) → Inv st d → Fits st d j → Inv st (st.put_job j d).0
  put_job-Inv d j i f = record {
    keyed = λ k j' h. ground (arith, st.get_job-put_job d j k, i.keyed k j');
    fits = λ k j' h.
        let old = i.fits k j' in
        ground (arith, st.get_job-put_job d j k, old, st.is_dead_lettered-put_job d j j'.id);
  }

  put_job-Kept : (d : st.Db) (j : Job) → IsLive st d j → Kept st d (st.put_job j d).0
  put_job-Kept d j (i, e, l, same_deps) k j' h t = ground (arith, st.get_job-put_job d j k)

  put_job-Stays : (d : st.Db) (j : Job) → IsLive st d j → Stays st d (st.put_job j d).0
  put_job-Stays d j (i, stored, live, deps) k j' h =
      let seen = sym (st.get_job-put_job d j k) ∙ h in
      elim (Bool-cases ((st.put_job j d).1 && same j.id k)) [
        | inl e ↦
            let new : found j ≡ found j' = rw e at seen in
            let here : j.id ≡ k = ground arith in
            (i, subst (λ x. st.get_job d x ≡ found i) here stored, depends_on-eq j j' i new deps)
        | inr e ↦ (j', rw e at seen, refl)
      ]

  pub put_dead_letter-Safe : (d : st.Db) (j : Job) → Inv st d → Safe st d (st.put_dead_letter j d).0
  put_dead_letter-Safe d j i = record {
    inv = record {
      keyed = λ k j' h. ground (arith, st.get_job-put_dead_letter d j k, i.keyed k j');
      fits = λ k j' h. ground (
        arith,
        st.get_job-put_dead_letter d j k,
        i.fits k j',
        st.is_dead_lettered-put_dead_letter d j j'.id,
      );
    };
    kept = λ k j' h t. ground (arith, st.get_job-put_dead_letter d j k);
    stays = λ k j' h. (j', sym (st.get_job-put_dead_letter d j k) ∙ h, refl);
  }

  put_worker_db-Safe : (d : st.Db) (w : WorkerInfo) → Inv st d → Safe st d (st.put_worker w d).0
  put_worker_db-Safe d w i = record {
    inv = record {
      keyed = λ k j' h. ground (arith, st.get_job-put_worker d w k, i.keyed k j');
      fits = λ k j' h. ground (
        arith,
        st.get_job-put_worker d w k,
        i.fits k j',
        st.is_dead_lettered-put_worker d w j'.id,
      );
    };
    kept = λ k j' h t. ground (arith, st.get_job-put_worker d w k);
    stays = λ k j' h. (j', sym (st.get_job-put_worker d w k) ∙ h, refl);
  }

module _ (b : Backend) where
  -- The server's write leaves in the store what the store's write does.
  pub put_job-store :
      (j : Job) (s : S b) → (put_job b j s).0.store ≡ (b.storage.put_job j s.store).0
  unfolding put_job append_repl
  put_job-store j s = ground arith

  pub put_job-keeps_Inv :
      (j : Job) (s : S b)
      → Inv b.storage s.store
      → Fits b.storage s.store j
      → Inv b.storage (put_job b j s).0.store
  put_job-keeps_Inv j s i f = rw (put_job-store j s) (put_job-Inv b.storage s.store j i f)

  pub put_job-Safe :
      (j : Job) (s : S b)
      → Inv b.storage s.store
      → Fits b.storage s.store j
      → IsLive b.storage s.store j
      → Safe b.storage s.store (put_job b j s).0.store
  put_job-Safe j s i f live = record {
    inv = put_job-keeps_Inv j s i f;
    kept = rw (put_job-store j s) (put_job-Kept b.storage s.store j live);
    stays = rw (put_job-store j s) (put_job-Stays b.storage s.store j live);
  }

  put_worker-store :
      (w : WorkerInfo) (s : S b) → (put_worker b w s).0.store ≡ (b.storage.put_worker w s.store).0
  unfolding put_worker append_repl
  put_worker-store w s = ground arith

  pub put_worker-Safe :
      (w : WorkerInfo) (s : S b)
      → Inv b.storage s.store
      → Safe b.storage s.store (put_worker b w s).0.store
  put_worker-Safe w s i = rw (put_worker-store w s) (put_worker_db-Safe b.storage s.store w i)

  -- A write of a job that does not go through leaves every job as it was.
  pub put_job_failed :
      (j : Job) (s : S b) (k : String)
      → (put_job b j s).1 ≡ false
      → (b.storage.get_job (put_job b j s).0.store k ≡ b.storage.get_job s.store k)
        × (b.storage.is_dead_lettered (put_job b j s).0.store k
            ≡ b.storage.is_dead_lettered s.store k)
  unfolding put_job append_repl
  put_job_failed j s k h =
      ground (
        arith,
        b.storage.get_job-put_job s.store j k,
        b.storage.is_dead_lettered-put_job s.store j k,
      )
