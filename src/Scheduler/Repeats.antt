-- ===== src/Scheduler/Repeats.antt =====
-- internal/scheduler/dispatch.go: a report that is sent again.
use distsched.Base.{
  Bool, ◌≡◌, refl, ap, ◌∙◌, inl, inr, true, none, String, arith, lookup, lookup-erase, Bool-cases,
  Option-cases,
}
use distsched.Api.{Job, TaskResult, Time}
use distsched.Cluster.Node.{is_leader}
use distsched.Scheduler.State.{Backend, Reply, ok, leads, require_leader}
use distsched.Scheduler.Replication.{S}
use distsched.Scheduler.Deps.{is_running}
use distsched.Scheduler.Dispatch.{
  get_lease, remove_lease, handle_failure, report_running, report_task,
}
use distsched.Scheduler.Keeps.{Found-cases}
use distsched.Scheduler.Quiet.{handle_failure-Quiet, succeed-Quiet}

module _ (b : Backend) where
  gone : (task_id : String) (s : S b) → get_lease task_id (remove_lease task_id s) ≡ none
  unfolding get_lease remove_lease
  gone task_id s = ground (arith, lookup-erase task_id task_id s.leases)

  -- The lease is gone and the node is as it was.
  abbrev Reported : String → S b → S b → Type 0
  Reported task_id s s1 = (get_lease task_id s1 ≡ none) × (s1.node ≡ s.node)

  report_running-Reported :
      (task_id : String) (r : TaskResult) (msg : String) (j : Job) (now : Time) (s : S b)
      → (report_running b task_id r msg j now s).1 ≡ ok true
      → Reported task_id s (report_running b task_id r msg j now s).0
  unfolding report_running get_lease remove_lease
  report_running-Reported task_id TaskResult.succeeded msg j now s h =
      let q = succeed-Quiet b j now (remove_lease task_id s) in
      (ap (lookup task_id) q.0 ∙ gone task_id s, q.1)
  report_running-Reported task_id TaskResult.failed msg j now s h =
      elim (Bool-cases (handle_failure b j msg now s).1) [
        | inl e ↦
            let s1 = (handle_failure b j msg now s).0 in
            rw (e, report_running) (gone task_id s1, (handle_failure-Quiet b j msg now s).1)
        | inr e ↦ absurd (ground arith)
      ]
  report_running-Reported task_id TaskResult.unspecified msg j now s h = absurd (ground arith)

  led-Reported :
      (task_id : String) (s : S b) (k : S b × Reply Bool)
      → (require_leader s k).1 ≡ ok true
      → (k.1 ≡ ok true → Reported task_id s k.0)
      → (leads s ≡ true) × Reported task_id s (require_leader s k).0
  led-Reported task_id s k h then_reported = elim (Bool-cases (leads s)) [
    | inl e ↦ (e, rw (e, require_leader) (then_reported (rw (e, require_leader) at h)))
    | inr e ↦ absurd (ground arith)
  ]

  report_task-Reported :
      (task_id : String) (r : TaskResult) (msg : String) (now : Time) (s : S b)
      → (report_task b task_id r msg now s).1 ≡ ok true
      → (leads s ≡ true) × Reported task_id s (report_task b task_id r msg now s).0
  unfolding report_task remove_lease
  report_task-Reported task_id r msg now s h =
      led-Reported task_id s _ h (elim (Option-cases (get_lease task_id s)) [
        | inl e ↦ rw e (λ a. (e, refl))
        | inr (l, e) ↦ elim (Found-cases b (b.storage.get_job s.store l.job_id)) [
          | inl (j, g) ↦ elim (Bool-cases (is_running j.state)) [
            | inl t ↦ rw (e, g, t) (λ a. report_running-Reported task_id r msg j now s a)
            | inr t ↦ rw (e, g, t) (λ a. (gone task_id s, refl))
          ]
          | inr (inl g) ↦ rw (e, g) (λ a. (gone task_id s, refl))
          | inr (inr g) ↦ rw (e, g) (λ a. (gone task_id s, refl))
        ]
      ])

  report_gone :
      (task_id : String) (r : TaskResult) (msg : String) (now : Time) (s : S b)
      → leads s ≡ true
      → get_lease task_id s ≡ none
      → report_task b task_id r msg now s ≡ (s, ok true)
  unfolding report_task
  report_gone task_id r msg now s led e = rw (led, require_leader) (rw e refl)

  -- A report that was acknowledged and is sent again, whatever result it then carries, is acknowledged
  -- again and changes nothing.
  pub report_twice :
      (task_id : String) (r r' : TaskResult) (msg msg' : String) (now now' : Time) (s : S b)
      → (report_task b task_id r msg now s).1 ≡ ok true
      → report_task b task_id r' msg' now' (report_task b task_id r msg now s).0
        ≡ ((report_task b task_id r msg now s).0, ok true)
  report_twice task_id r r' msg msg' now now' s h =
      let (led, (gone_now, same_node)) = report_task-Reported task_id r msg now s h in
      report_gone task_id r' msg' now' (report_task b task_id r msg now s).0
        (ap (λ n. is_leader n.role) same_node ∙ led) gone_now
