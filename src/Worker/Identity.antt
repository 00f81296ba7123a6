-- ===== src/Worker/Identity.antt =====
-- internal/worker/agent.go with internal/scheduler/worker.go: the ID under which a worker is known,
-- over all that the agent does.
use distsched.Base.{ℕ, ◌≡◌, ◌≢◌, ◌∙◌, sym, List, String, some, arith}
use distsched.Api.{Time, WorkerInfo}
use distsched.Net.{ok, Network}
use distsched.Scheduler.State.{Backend, Reply}
use distsched.Scheduler.Replication.{S}
use distsched.Scheduler.Workers.{Registered, register_worker}
use distsched.Worker.Session.{Session, Tick, info_of, run}
use distsched.Worker.Keeps.{IsKept, run_keeps}

-- Every answer to a registration is one that a server gives.
abbrev pub IsServed : Backend → Network → Type 0
IsServed b net =
    (addr : String) (info : WorkerInfo) (w : net.World) (r : Registered)
    → (net.register_worker addr info w).1 ≡ ok r
    → (now : Time) × (s : S b) × ((register_worker b (some info) now s).1 ≡ Reply.ok r)

registered_under :
    (b : Backend) (info : WorkerInfo) (now : Time) (s : S b) (r : Registered)
    → info.id ≢ ""
    → (register_worker b (some info) now s).1 ≡ Reply.ok r
    → r.worker_id ≡ info.id
unfolding register_worker
registered_under b info now s r n e = ground arith

module _ (b : Backend) (net : Network) (served : IsServed b net) (id : String) (n : id ≢ "") where
  identity-IsKept : IsKept net (λ s. s.worker_id ≡ id)
  unfolding info_of
  identity-IsKept = record {
    moved = λ s w h. h;
    connected = λ s addr h. h;
    registered = λ s r e h.
        let (now, server, f) = served s.leader_addr (info_of net s) s.world r e in
        registered_under b (info_of net s) now server r (λ empty. n (sym h ∙ empty)) f ∙ h;
    waited = λ s d i h. h;
    launched = λ s ts h. h;
    finished = λ s i now h. h;
  }

  -- An agent that is known under an ID keeps it over its whole run, through every failover and every
  -- further registration, where each answer to a registration is one that a server gives.
  pub identity_kept :
      (patience : ℕ) (ts : List Tick) (s : Session net.World)
      → s.worker_id ≡ id
      → (run net patience ts s).worker_id ≡ id
  identity_kept patience ts s h =
      run_keeps net (λ t. t.worker_id ≡ id) identity-IsKept patience ts s h
