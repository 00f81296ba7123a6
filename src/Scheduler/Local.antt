-- ===== src/Scheduler/Local.antt =====
-- internal/scheduler: which jobs a failure and its cascade can change.
use distsched.Base.{
  ℕ, zero, suc, ◌≡◌, inl, inr, refl, sym, ap, ◌∙◌, true, false, arith, List, [], ◌∷◌, ◌++◌, some,
  String, same, elem, Bool-cases,
}
use distsched.Api.{Job, JobState, Time, Duration}
use distsched.Store.{found}
use distsched.Scheduler.State.{Backend}
use distsched.Scheduler.Replication.{S, append_repl, put_job}
use distsched.Scheduler.Deps.{
  terminal, remove_from_index, dependents_of, upstream, enqueue_job, arm_enqueue, cancel_one,
  cascade,
}
use distsched.Scheduler.Writes.{put_job-store}
use distsched.Scheduler.Keeps.{Found-cases, arm_enqueue-store}
use distsched.Scheduler.Indexes.{
  Within, Indexes, Within-lookup, Within-append, Indexes-drop_dependent, later_elem, first_elem,
}

other_id :
    (i k : String) (ids : List String) → elem i ids ≡ true → elem k ids ≡ false → same i k ≡ false
other_id i k ids h g = ground arith

module _ (b : Backend) where
  -- The index names only the IDs as dependents, and a job is stored under its ID.
  pub record IsReady (ids : List String) (s : S b) : Type 0 where
    pub indexes : Indexes ids s.rev_index
    pub keyed : (k : String) (j : Job) → b.storage.get_job s.store k ≡ found j → j.id ≡ k

  -- Only jobs among the IDs differ, and the rest stays ready.
  pub record Local (ids : List String) (s s' : S b) : Type 0 where
    pub untouched :
        (k : String)
        → elem k ids ≡ false
        → b.storage.get_job s'.store k ≡ b.storage.get_job s.store k
    pub ready : IsReady ids s'

  pub Local-refl : (ids : List String) (s : S b) → IsReady ids s → Local ids s s
  Local-refl ids s h = record { untouched = λ k e. refl; ready = h }

  pub Local-trans :
      (ids : List String) (s t u : S b)
      → Local ids s t
      → (IsReady ids t → Local ids t u)
      → Local ids s u
  Local-trans ids s t u p q = record {
    untouched = λ k e. (q p.ready).untouched k e ∙ p.untouched k e;
    ready = (q p.ready).ready;
  }

  -- What changes neither the jobs nor the index.
  pub same-Local :
      (ids : List String) (s s' : S b)
      → ((k : String) → b.storage.get_job s'.store k ≡ b.storage.get_job s.store k)
      → s'.rev_index ≡ s.rev_index
      → IsReady ids s
      → Local ids s s'
  same-Local ids s s' e f h = record {
    untouched = λ k out. e k;
    ready = record { indexes = rw f h.indexes; keyed = λ k j g. h.keyed k j (sym (e k) ∙ g) };
  }

  pub dropped-Local :
      (ids : List String) (id : String) (s : S b)
      → IsReady ids s
      → Local ids s (remove_from_index id s)
  unfolding remove_from_index
  dropped-Local ids id s h = record {
    untouched = λ k out. refl;
    ready = record {
      indexes = Indexes-drop_dependent ids id s.rev_index h.indexes;
      keyed = h.keyed;
    };
  }

  put_job-rev_index : (j : Job) (s : S b) → (put_job b j s).0.rev_index ≡ s.rev_index
  unfolding put_job append_repl
  put_job-rev_index j s = ground arith

  arm_enqueue-rev_index :
      (id : String) (delay : Duration) (s : S b)
      → (arm_enqueue b id delay s).rev_index ≡ s.rev_index
  unfolding arm_enqueue enqueue_job
  arm_enqueue-rev_index id delay s = ground arith

  pub armed-Local :
      (ids : List String) (id : String) (delay : Duration) (s : S b)
      → IsReady ids s
      → Local ids s (arm_enqueue b id delay s)
  armed-Local ids id delay s h =
      same-Local ids s _ (λ k. ap (λ d. b.storage.get_job d k) (arm_enqueue-store b id delay s))
        (arm_enqueue-rev_index id delay s) h

  pub put_job-Local :
      (ids : List String) (j : Job) (s : S b)
      → elem j.id ids ≡ true
      → IsReady ids s
      → Local ids s (put_job b j s).0
  put_job-Local ids j s e h =
      let d = s.store in
      let stored = put_job-store b j s in
      record {
        untouched = λ k out.
            let apart = other_id j.id k ids e out in
            rw stored (ground (arith, b.storage.get_job-put_job d j k));
        ready = record {
          indexes = rw (put_job-rev_index j s) h.indexes;
          keyed = λ k j' g.
              let g' : b.storage.get_job (b.storage.put_job j d).0 k ≡ found j' = rw stored at g in
              ground (arith, b.storage.get_job-put_job d j k, h.keyed k j');
        };
      }

  cancel_one-Local :
      (ids : List String) (cur reason : String) (now : Time) (s : S b)
      → elem cur ids ≡ true
      → IsReady ids s
      → Local ids s (cancel_one b cur reason now s)
  unfolding cancel_one
  cancel_one-Local ids cur reason now s e h = elim (Found-cases b (b.storage.get_job s.store cur)) [
    | inl (j, g) ↦ elim (Bool-cases (terminal j.state)) [
      | inl t ↦ rw (g, cancel_one) (rw (t, cancel_one) (Local-refl ids s h))
      | inr t ↦
          let j' = record j {
            state = JobState.canceled;
            last_error = reason;
            updated_at = some now;
          } in
          let put = put_job-Local ids j' s (rw (h.keyed cur j g) e) h in
          rw (g, cancel_one)
            (rw (t, cancel_one)
              (Local-trans ids s (put_job b j' s).0 _ put
                (λ r. same-Local ids _ _ (λ k. refl) refl r)))
    ]
    | inr (inl g) ↦ rw (g, cancel_one) (Local-refl ids s h)
    | inr (inr g) ↦ rw (g, cancel_one) (Local-refl ids s h)
  ]

  pub cascade-Local :
      (ids : List String) (fuel : ℕ) (work visited : List String) (reason : String) (now : Time)
      (s : S b)
      → Within ids work
      → IsReady ids s
      → Local ids s (cascade b fuel work visited reason now s).0
  unfolding cascade dependents_of
  cascade-Local ids zero work visited reason now s w h = Local-refl ids s h
  cascade-Local ids (suc fuel) [] visited reason now s w h = Local-refl ids s h
  cascade-Local ids (suc fuel) (cur ∷ work) visited reason now s w h =
      let left : Within ids work = λ k e. w k (later_elem k cur work e) in
      elim (Bool-cases (elem cur visited)) [
        | inl seen ↦ rw seen (cascade-Local ids fuel work visited reason now s left h)
        | inr fresh ↦
            let s1 = cancel_one b cur reason now s in
            let one = cancel_one-Local ids cur reason now s (w cur (first_elem cur work)) h in
            let s2 = remove_from_index cur s1 in
            let found_ones = Within-lookup ids cur s1.rev_index one.ready.indexes in
            rw fresh (
              Local-trans ids s s2 _ (Local-trans ids s s1 s2 one (λ r. dropped-Local ids cur s1 r))
                (λ r.
                  cascade-Local ids fuel (dependents_of cur s1 ++ work) (cur ∷ visited)
                    (upstream cur " did not succeed") now s2
                    (Within-append ids (dependents_of cur s1) work found_ones left) r))
      ]
