-- ===== src/Scheduler/Rebuild.antt =====
-- internal/scheduler/server.go: what the start of a leadership does to the store.
use distsched.Base.{
  subst, ◌≡◌, inl, inr, refl, sym, ap, ◌∙◌, true, false, arith, List, [], ◌∷◌, none, some, String,
  elem, Distinct, All2, Bool-cases, Option-cases, if◌then◌else◌, ◌-ℤ◌, ltb_ℤ,
}
use distsched.Api.{Job, JobState, Time, as_time}
use distsched.Queue
use distsched.Store.{found}
use distsched.Scheduler.State.{Backend}
use distsched.Scheduler.Replication.{S, seed_replication}
use distsched.Scheduler.Deps.{terminal, is_pending, is_running, arm_enqueue, add_deps, try_promote}
use distsched.Scheduler.Dispatch.{handle_failure}
use distsched.Scheduler.Recovery.{
  clear_scheduling_state, rebuild_job, rebuild_jobs, promote_pending, rebuild_scheduling_state,
  on_become_leader,
}
use distsched.Scheduler.Safe.{Inv, Safe, Safe-refl, Safe-trans}
use distsched.Scheduler.Keeps.{IsLive-of, arm_enqueue-store, try_promote-Safe}
use distsched.Scheduler.Results.{running_live, handle_failure-Safe}
use distsched.Scheduler.Indexes.{Indexes, Indexes-grown, Indexes-add_edges, first_elem, later_elem}
use distsched.Scheduler.Local.{IsReady, Local, Local-trans, Local-refl, same-Local, armed-Local}
use distsched.Scheduler.Failing.{handle_failure-Local}

apart_from :
    (k : String) (ks ids : List String)
    → Distinct (k ∷ ks)
    → ((i : String) → elem i (k ∷ ks) ≡ true → elem i ids ≡ false)
    → (i : String) → elem i ks ≡ true
    → elem i (k ∷ ids) ≡ false
unfolding elem
apart_from k ks ids once apart i e = ground (arith, apart i (later_elem i k ks e))

none_among : (k : String) → elem k [] ≡ false
unfolding elem
none_among k = refl

abbrev reclaimed : String
reclaimed = "reclaimed orphaned task after leadership change"

module _ (b : Backend) where
  unfoldable pub indexed : Job → S b → S b
  indexed j s = if terminal j.state then s else add_deps j s

  indexed-Local :
      (ids : List String) (j : Job) (s : S b)
      → elem j.id ids ≡ true
      → IsReady b ids s
      → Local b ids s (indexed j s)
  unfolding indexed add_deps
  indexed-Local ids j s e h = elim (Bool-cases (terminal j.state)) [
    | inl t ↦ rw t (Local-refl b ids s h)
    | inr t ↦ rw t (record {
      untouched = λ k out. refl;
      ready = record {
        indexes = Indexes-add_edges ids j.id j.depends_on s.rev_index e h.indexes;
        keyed = h.keyed;
      };
    })
  ]

  indexed-store : (j : Job) (s : S b) → (indexed j s).store ≡ s.store
  unfolding indexed add_deps
  indexed-store j s = ground arith

  -- The branches of `rebuildSchedulingState` on a job's state.
  pub by_state :
      (P : S b → Type 0) (x : JobState) (other queued running : S b)
      → P other
      → P queued
      → (is_running x ≡ true → P running)
      → P (elim x as (λ y. S b) [
        | JobState.queued ↦ queued
        | JobState.running ↦ running
        | _ ↦ other
      ])
  by_state P JobState.unspecified other queued running h g f = h
  by_state P JobState.pending other queued running h g f = h
  by_state P JobState.queued other queued running h g f = g
  by_state P JobState.running other queued running h g f = f refl
  by_state P JobState.succeeded other queued running h g f = h
  by_state P JobState.failed other queued running h g f = h
  by_state P JobState.canceled other queued running h g f = h

  unfoldable pub enqueued : Job → Time → S b → S b
  enqueued j now s = elim j.scheduled_at [
    | none ↦ record s { queue = (Queue.push j.id j.priority (as_time j.created_at) s.queue).0 }
    | some at ↦
        if ltb_ℤ now at
        then arm_enqueue b j.id (at -ℤ now) s
        else record s { queue = (Queue.push j.id j.priority (as_time j.created_at) s.queue).0 }
  ]

  enqueued-store : (j : Job) (now : Time) (s : S b) → (enqueued j now s).store ≡ s.store
  unfolding enqueued
  enqueued-store j now s = elim (Option-cases j.scheduled_at) [
    | inl e ↦ rw (e, enqueued) refl
    | inr (at, e) ↦ elim (Bool-cases (ltb_ℤ now at)) [
      | inl t ↦ rw (e, enqueued) (rw t (arm_enqueue-store b j.id (at -ℤ now) s))
      | inr t ↦ rw (e, enqueued) (rw t refl)
    ]
  ]

  enqueued-Local :
      (ids : List String) (j : Job) (now : Time) (s : S b)
      → IsReady b ids s
      → Local b ids s (enqueued j now s)
  unfolding enqueued
  enqueued-Local ids j now s h = elim (Option-cases j.scheduled_at) [
    | inl e ↦ rw (e, enqueued) (same-Local b ids s _ (λ k. refl) refl h)
    | inr (at, e) ↦ elim (Bool-cases (ltb_ℤ now at)) [
      | inl t ↦ rw (e, enqueued) (rw t (armed-Local b ids j.id (at -ℤ now) s h))
      | inr t ↦ rw (e, enqueued) (rw t (same-Local b ids s _ (λ k. refl) refl h))
    ]
  ]

  rebuild_job-Local :
      (ids : List String) (j : Job) (now : Time) (s : S b)
      → elem j.id ids ≡ true
      → IsReady b ids s
      → Local b ids s (rebuild_job b j now s)
  unfolding rebuild_job indexed enqueued
  rebuild_job-Local ids j now s e h =
      let s1 = indexed j s in
      let first = indexed-Local ids j s e h in
      by_state (Local b ids s) j.state s1 _ _ first
        (Local-trans b ids s s1 _ first (λ r. enqueued-Local ids j now s1 r))
        (λ t. Local-trans b ids s s1 _ first (λ r. handle_failure-Local b ids j _ now s1 e r))

  reclaimed-Safe :
      (j : Job) (msg : String) (now : Time) (s : S b)
      → Inv b.storage s.store
      → b.storage.get_job s.store j.id ≡ found j
      → is_running j.state ≡ true
      → Safe b.storage s.store (handle_failure b j msg now s).0.store
  reclaimed-Safe j msg now s i g t =
      handle_failure-Safe b j msg now s i (IsLive-of b s j.id j i g (running_live j.state t))

  rebuild_job-Safe :
      (j : Job) (now : Time) (s : S b)
      → Inv b.storage s.store
      → b.storage.get_job s.store j.id ≡ found j
      → Safe b.storage s.store (rebuild_job b j now s).store
  unfolding rebuild_job indexed enqueued
  rebuild_job-Safe j now s i g =
      let s1 = indexed j s in
      by_state (λ r. Safe b.storage s.store r.store) j.state s1 _ _
        (rw (indexed-store j s) (Safe-refl b.storage s.store i))
        (rw (enqueued-store j now s1, indexed-store j s) (Safe-refl b.storage s.store i))
        (λ t.
          let same_store = indexed-store j s in
          subst (λ d. Safe b.storage d (handle_failure b j reclaimed now s1).0.store) same_store
            (reclaimed-Safe j reclaimed now s1 (subst (Inv b.storage) (sym same_store) i)
              (ap (λ d. b.storage.get_job d j.id) same_store ∙ g) t))

  still_there :
      {d d' : b.storage.Db} (ks : List String) (js : List Job)
      → ((k : String) → elem k ks ≡ true → b.storage.get_job d' k ≡ b.storage.get_job d k)
      → All2 (λ k j. b.storage.get_job d k ≡ found j) ks js
      → All2 (λ k j. b.storage.get_job d' k ≡ found j) ks js
  still_there [] [] f a = tt
  still_there [] (j ∷ js) f a = elim a [ ]
  still_there (k ∷ ks) [] f a = elim a [ ]
  still_there (k ∷ ks) (j ∷ js) f a =
      (f k (first_elem k ks) ∙ a.0, still_there ks js (λ i e. f i (later_elem i k ks e)) a.1)

  -- The jobs of the listing that are still to come are stored as they were listed.
  rebuild_jobs-Safe :
      (ids : List String) (ks : List String) (js : List Job) (now : Time) (s : S b)
      → Inv b.storage s.store
      → Indexes ids s.rev_index
      → ((k : String) → elem k ks ≡ true → elem k ids ≡ false)
      → Distinct ks
      → All2 (λ k j. b.storage.get_job s.store k ≡ found j) ks js
      → Safe b.storage s.store (rebuild_jobs b js now s).store
  unfolding rebuild_jobs
  rebuild_jobs-Safe ids [] [] now s i x apart once there = Safe-refl b.storage s.store i
  rebuild_jobs-Safe ids [] (j ∷ js) now s i x apart once there = elim there [ ]
  rebuild_jobs-Safe ids (k ∷ ks) [] now s i x apart once there = elim there [ ]
  rebuild_jobs-Safe ids (k ∷ ks) (j ∷ js) now s i x apart once there =
      let s1 = rebuild_job b j now s in
      let same_id = i.keyed k j there.0 in
      let here : elem j.id (k ∷ ids) ≡ true = rw same_id (first_elem k ids) in
      let local =
        rebuild_job-Local (k ∷ ids) j now s here
          (record { indexes = Indexes-grown ids k s.rev_index x; keyed = i.keyed }) in
      let apart' = apart_from k ks ids once apart in
      Safe-trans b.storage s.store s1.store _
        (rebuild_job-Safe j now s i (ap (b.storage.get_job s.store) same_id ∙ there.0))
        (λ i1.
          rebuild_jobs-Safe (k ∷ ids) ks js now s1 i1 local.ready.indexes apart' once.1
            (still_there ks js (λ k' e. local.untouched k' (apart' k' e)) there.1))

  promote_pending-Safe :
      (js : List Job) (now : Time) (s : S b)
      → Inv b.storage s.store
      → Safe b.storage s.store (promote_pending b js now s).store
  unfolding promote_pending
  promote_pending-Safe [] now s i = Safe-refl b.storage s.store i
  promote_pending-Safe (j ∷ js) now s i = elim (Bool-cases (is_pending j.state)) [
    | inl e ↦
        let s1 = try_promote b j.id now s in
        rw (e, promote_pending)
          (Safe-trans b.storage s.store s1.store _ (try_promote-Safe b j.id now s i)
            (λ i1. promote_pending-Safe js now s1 i1))
    | inr e ↦ rw (e, promote_pending) (promote_pending-Safe js now s i)
  ]

  rebuild_scheduling_state-Safe :
      (now : Time) (s : S b)
      → Inv b.storage s.store
      → Safe b.storage s.store (rebuild_scheduling_state b now s).store
  unfolding rebuild_scheduling_state clear_scheduling_state
  rebuild_scheduling_state-Safe now s i =
      let s1 = clear_scheduling_state b s in
      elim (Option-cases (b.storage.list_jobs s.store)) [
        | inl e ↦ rw (e, rebuild_scheduling_state) (Safe-refl b.storage s.store i)
        | inr (js, e) ↦
            let (ks, once, there) = b.storage.list_jobs_keys s.store js e in
            let s2 = rebuild_jobs b js now s1 in
            rw (e, rebuild_scheduling_state)
              (Safe-trans b.storage s.store s2.store _
                (rebuild_jobs-Safe [] ks js now s1 i tt (λ k t. none_among k) once there)
                (λ i2. promote_pending-Safe js now s2 i2))
      ]

  -- The start of a leadership.
  pub on_become_leader-Safe :
      (now : Time) (s : S b)
      → Inv b.storage s.store
      → Safe b.storage s.store (on_become_leader b now s).store
  unfolding on_become_leader seed_replication
  on_become_leader-Safe now s i = rebuild_scheduling_state-Safe now s i
