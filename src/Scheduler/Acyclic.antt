-- ===== src/Scheduler/Acyclic.antt =====
-- internal/scheduler: the dependencies between the stored jobs, over any sequence of calls.
use distsched.Base.{
  ◌≡◌, ◌⊎◌, inl, inr, refl, sym, ◌∙◌, subst, true, false, not, ◌&&◌, arith, List, [], ◌∷◌, Option,
  none, some, String, same, is_empty, elem, insert, lookup-insert, Bool-cases,
}
use distsched.Api.{Job, Time, get_command, get_cron_expr}
use distsched.Store.{found, not_found}
use distsched.Scheduler.State.{Backend, Reply, leads, require_leader}
use distsched.Scheduler.Replication.{S}
use distsched.Scheduler.Deps.{add_deps, deps_satisfied, place_new_job}
use distsched.Scheduler.History.{Call, Call-cases, serve, run, serve-Safe, serve-Inv, empty-Inv}
use distsched.Scheduler.Jobs.{
  Graph, accept_job, submit_job, cron_ok, mint_job, would_create_cycle, add_jobs, neighbors,
}
use distsched.Scheduler.Safe.{Inv, Stays}
use distsched.Scheduler.Writes.{put_job-store}
use distsched.Scheduler.Keeps.{make_ready-stored}
use distsched.Scheduler.Cycles.{DependsOn, edge, via, no_cycle}
use distsched.Scheduler.Chains.{Chain, IsAcyclic, Stays-IsAcyclic, placed-IsAcyclic, link, over}

no_deps :
    (id x : String) (ds : List String) (m : Graph)
    → is_empty ds ≡ true
    → ¬ (elem x (neighbors (insert id ds m) id) ≡ true)
unfolding neighbors elem
no_deps id x [] m h e = ground (arith, lookup-insert id id [] m)
no_deps id x (y ∷ ys) m h e = cc

alone :
    (a c : String) (g : Graph)
    → ((x : String) → ¬ (elem x (neighbors g a) ≡ true))
    → ¬ DependsOn g a c
alone a c g h (edge a' c' e) = h c' e
alone a c g h (via a' m c' e p) = h m e

module _ (b : Backend) where
  -- The store after placing a job is that after one write of a job with its ID and dependencies.
  abbrev IsPlaced : Job → S b → S b → Type 0
  IsPlaced j s s' =
      (j' : Job) × (j'.id ≡ j.id)
      × (j'.depends_on ≡ j.depends_on)
      × (s'.store ≡ (b.storage.put_job j' s.store).0)

  place_new_job-IsPlaced : (j : Job) (now : Time) (s : S b) → IsPlaced j s (place_new_job b j now s)
  unfolding place_new_job add_deps
  place_new_job-IsPlaced j now s = elim (Bool-cases (not (same (deps_satisfied b j s).1 ""))) [
    | inl e ↦ rw (e, place_new_job) (_, refl, refl, put_job-store b _ s)
    | inr e ↦ elim (Bool-cases (not (deps_satisfied b j s).0)) [
      | inl w ↦ rw (e, place_new_job) (rw (w, place_new_job) (_, refl, refl, put_job-store b _ s))
      | inr w ↦
          rw (e, place_new_job)
            (rw (w, place_new_job)
              (_, refl, refl, make_ready-stored b j now s ∙ put_job-store b _ s))
    ]
  ]

  -- Every listing of the jobs goes through.
  abbrev pub IsListable : Type 0
  IsListable = (d : b.storage.Db) → (js : List Job) × (b.storage.list_jobs d ≡ some js)

  found_deps : (i j : Job) → found i ≡ found j → j.depends_on ≡ i.depends_on
  found_deps i j e = cc

  put_cases :
      (j : Job) (d : b.storage.Db)
      → (b.storage.put_job j d).1 ≡ true
      → (k : String) (i : Job) → b.storage.get_job (b.storage.put_job j d).0 k ≡ found i
      → (k ≡ j.id) × (i.depends_on ≡ j.depends_on)
        ⊎ (same j.id k ≡ false) × (b.storage.get_job d k ≡ found i)
  put_cases j d stored k i h =
      let seen = sym (b.storage.get_job-put_job d j k) ∙ h in
      elim (Bool-cases (same j.id k)) [
        | inl e ↦
            let new : found j ≡ found i = rw (stored, e) at seen in
            let here : k ≡ j.id = ground arith in inl (here, found_deps j i new)
        | inr e ↦ inr (e, rw (stored, e) at seen)
      ]

  put_failed-Stays :
      (j : Job) (d : b.storage.Db)
      → (b.storage.put_job j d).1 ≡ false
      → Stays b.storage d (b.storage.put_job j d).0
  put_failed-Stays j d lost k i h =
      let seen = sym (b.storage.get_job-put_job d j k) ∙ h in (i, rw lost at seen, refl)

  -- No chain leads from the job back to it once it is placed.
  abbrev IsFree : Job → S b → Type 0
  IsFree j s =
      (js : List Job)
      → b.storage.list_jobs s.store ≡ some js
      → ¬ DependsOn (insert j.id j.depends_on (add_jobs js [])) j.id j.id

  put-IsAcyclic :
      (j : Job) (s : S b)
      → Inv b.storage s.store
      → IsListable
      → IsFree j s
      → IsAcyclic b.storage s.store
      → IsAcyclic b.storage (b.storage.put_job j s.store).0
  put-IsAcyclic j s i all free acyclic =
      let d = s.store in
      let d' = (b.storage.put_job j d).0 in
      let (js, listed) = all d in
      elim (Bool-cases (b.storage.put_job j d).1) [
        | inl stored ↦
            placed-IsAcyclic b.storage d d' js j.id j.depends_on listed i.keyed
              (put_cases j d stored) (free js listed) acyclic
        | inr lost ↦ Stays-IsAcyclic b.storage d d' (put_failed-Stays j d lost) acyclic
      ]

  accept_job-IsAcyclic :
      (j : Job) (now : Time) (s : S b)
      → Inv b.storage s.store
      → IsListable
      → IsFree j s
      → IsAcyclic b.storage s.store
      → IsAcyclic b.storage (accept_job b j now s).0.store
  unfolding accept_job
  accept_job-IsAcyclic j now s i all free acyclic =
      let (j', same_id, same_deps, e) =
        place_new_job-IsPlaced
          (record j {
            attempt = 0;
            assigned_worker_id = "";
            last_error = "";
            created_at = some now;
            updated_at = some now;
          })
          now s in
      let free' : IsFree j' s = λ js h. rw (same_id, same_deps) (free js h) in
      subst (IsAcyclic b.storage) (sym e) (put-IsAcyclic j' s i all free' acyclic)

  submitted_IsFree :
      (j : Job) (s : S b)
      → (not (is_empty j.depends_on) && would_create_cycle b j.id j.depends_on s) ≡ false
      → IsFree j s
  submitted_IsFree j s h js listed p = elim (Bool-cases (is_empty j.depends_on)) [
    | inl e ↦ alone j.id j.id _ (λ x g. no_deps j.id x j.depends_on (add_jobs js []) e g) p
    | inr e ↦ no_cycle b j.id j.depends_on s js listed (rw e at h) p
  ]

  mint_job-store : (j : Job) (s : S b) → (mint_job b j s).0.store ≡ s.store
  mint_job-store j s = ground arith

  led-IsAcyclic :
      {A : Type 0} (s : S b) (k : S b × Reply A)
      → IsAcyclic b.storage s.store
      → IsAcyclic b.storage k.0.store
      → IsAcyclic b.storage (require_leader s k).0.store
  led-IsAcyclic s k i h = elim (Bool-cases (leads s)) [
    | inl e ↦ rw (e, require_leader) h
    | inr e ↦ rw (e, require_leader) i
  ]

  pub submit_job-IsAcyclic :
      (j : Option Job) (now : Time) (s : S b)
      → Inv b.storage s.store
      → IsListable
      → IsAcyclic b.storage s.store
      → IsAcyclic b.storage (submit_job b j now s).0.store
  unfolding submit_job
  submit_job-IsAcyclic none now s i all acyclic = led-IsAcyclic s _ acyclic acyclic
  submit_job-IsAcyclic (some j) now s i all acyclic =
      led-IsAcyclic s _ acyclic (elim (Bool-cases (same (get_command j.spec) "")) [
        | inl e ↦ rw e acyclic
        | inr e ↦ elim (Bool-cases (not (cron_ok b (get_cron_expr j.schedule) now))) [
          | inl c ↦ rw (e, c) acyclic
          | inr c ↦
              let s1 = (mint_job b j s).0 in
              let j1 = (mint_job b j s).1 in
              let same_store = mint_job-store j s in
              let kept : IsAcyclic b.storage s1.store =
                subst (IsAcyclic b.storage) (sym same_store) acyclic in
              elim (Bool-cases
                (not (is_empty j1.depends_on) && would_create_cycle b j1.id j1.depends_on s1)) [
                  | inl d ↦ rw (e, c, d) kept
                  | inr d ↦
                      rw (e, c, d)
                        (accept_job-IsAcyclic j1 now s1 (subst (Inv b.storage) (sym same_store) i)
                          all (submitted_IsFree j1 s1 d) kept)
                ]
        ]
      ])

  call-IsAcyclic :
      (c : Call) (s : S b)
      → Inv b.storage s.store
      → IsListable
      → IsAcyclic b.storage s.store
      → IsAcyclic b.storage (serve b c s).store
  unfolding serve
  call-IsAcyclic c s i all acyclic = elim (Call-cases b c) [
    | inl (j, now, e) ↦ rw e (submit_job-IsAcyclic j now s i all acyclic)
    | inr h ↦ Stays-IsAcyclic b.storage _ _ (serve-Safe b c s h i).stays acyclic
  ]

  pub run-IsAcyclic :
      (cs : List Call) (s : S b)
      → Inv b.storage s.store
      → IsListable
      → IsAcyclic b.storage s.store
      → IsAcyclic b.storage (run b cs s).store
  unfolding run
  run-IsAcyclic [] s i all acyclic = acyclic
  run-IsAcyclic (c ∷ cs) s i all acyclic =
      run-IsAcyclic cs (serve b c s) (serve-Inv b c s i) all (call-IsAcyclic c s i all acyclic)

  pub no_chain :
      (d : b.storage.Db) (a c : String)
      → ((k : String) → b.storage.get_job d k ≡ not_found)
      → ¬ Chain b.storage d a c
  no_chain d a c h (link a' b' j g e) = cc (h a')
  no_chain d a c h (over a' b' c' j g e p) = cc (h a')

  -- From a store without jobs whose listings go through, after any sequence of `Call`s, with writes
  -- that fail or not, no chain of dependencies leads from a stored job back to itself.
  pub never_cyclic :
      (cs : List Call) (s : S b) (k : String)
      → ((id : String) → b.storage.get_job s.store id ≡ not_found)
      → IsListable
      → ¬ Chain b.storage (run b cs s).store k k
  never_cyclic cs s k h all =
      run-IsAcyclic cs s (empty-Inv b s h) all (λ i. no_chain s.store i i h) k
