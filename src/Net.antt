-- ===== src/Net.antt =====
-- The calls that the worker agent (internal/worker/agent.go) and the control client
-- (internal/ctl/ctl.go) make over gRPC, from the side of the caller. The network and the servers behind
-- it are a parameter; a call may change them and may fail.
use distsched.Base.{ℕ, ◌≡◌, refl, ◌⊎◌, inl, inr, Bool, List, Option, none, some, String, ℤ}
use distsched.Api.{ClusterStatus, Job, JobState, TaskAssignment, TaskResult, WorkerInfo}
use distsched.Scheduler.Workers.{Registered, HeartbeatResponse}

-- `status.Code(err)`: the codes that the callers ask for, and all others.
pub data Code : Type 0 where
  failed_precondition unavailable other : Code

pub record Failure : Type 0 where
  pub code : Code
  pub message : String

pub data Answer (A : Type 0) : Type 0 where
  ok : A → Answer A
  err : Failure → Answer A

-- Each call takes the address of the server that it is made to.
pub record Network : Type 1 where
  pub World : Type 0
  pub dial : String → World → World × Answer (Unit {0})
  pub get_cluster_status : String → World → World × Answer ClusterStatus
  pub register_worker : String → WorkerInfo → World → World × Answer Registered
  pub heartbeat : String → String → List String → World → World × Answer HeartbeatResponse
  pub poll_task : String → String → ℤ → World → World × Answer (List TaskAssignment)
  pub report_task :
      String → String → String → TaskResult → List ℕ → String → World → World × Answer Bool
  pub submit_job : String → Job → World → World × Answer String
  pub get_job : String → String → World → World × Answer (Option Job)
  pub list_jobs : String → JobState → World → World × Answer (List Job)
  pub cancel_job : String → String → World → World × Answer (Option Job)

-- `fmt.Errorf`, without the seeds in the text.
abbrev pub plain : String → Failure
plain msg = record { code = Code.other; message = msg }

-- The end of a loop over the seeds: the error kept last, or a new one.
abbrev pub failed : {A : Type 0} → String → Option Failure → Answer A
failed msg none = err (plain msg)
failed msg (some e) = err e

-- `GetClusterStatus` of one seed, over a connection of its own.
unfoldable pub ask : (net : Network) → String → net.World → net.World × Answer ClusterStatus
ask net seed w =
    let (w1, r) = net.dial seed w in
    elim r [ ok _ ↦ net.get_cluster_status seed w1 | err e ↦ (w1, err e) ]

pub Answer-cases :
    {A : Type 0} (a : Answer A) → ((x : A) × (a ≡ ok x)) ⊎ ((e : Failure) × (a ≡ err e))
Answer-cases (ok x) = inl (x, refl)
Answer-cases (err e) = inr (e, refl)
