-- ===== src/Ctl.antt =====
-- internal/ctl/ctl.go: the control client, which finds the leader among a list of seeds and calls it.
pub mod Leader
use distsched.Base.{
  ℤ, pos, List, [], ◌∷◌, Option, none, some, String, if◌then◌else◌, ltb_ℤ, same, not, ◌+ℤ◌,
}
use distsched.Api.{
  ClusterStatus, Duration, Job, JobState, ScheduleKind, SchedulerNode, Time, get_holder_id,
}
use distsched.Net.{Answer, ok, err, Failure, Network, ask, failed, plain}

-- `c.seeds`
pub record Client : Type 0 where
  pub seeds : List String

pub record SubmitParams : Type 0 where
  pub id : String
  pub name : String
  pub command : String
  pub args : List String
  pub priority : ℤ
  pub depends_on : List String
  pub cron : String
  pub after : Duration
  pub max_attempts : ℤ

-- The loop for the node whose ID is the lease holder's.
unfoldable pub address_of : String → List SchedulerNode → Option String
address_of holder [] = none
address_of holder (n ∷ ns) = if same n.id holder then some n.address else address_of holder ns

-- The fields that `Submit` fills; the others are zero.
unfoldable pub job_of : SubmitParams → Time → Job
job_of p now = record {
  id = p.id;
  name = p.name;
  priority = p.priority;
  spec =
      some (record { command = p.command; args = p.args; env = []; timeout = none; payload = [] });
  depends_on = p.depends_on;
  schedule =
      if not (same p.cron "")
      then some (record { kind = ScheduleKind.cron_expr p.cron; timezone = "" })
      else if ltb_ℤ (pos 0) p.after
      then some (record { kind = ScheduleKind.run_at (now +ℤ p.after); timezone = "" })
      else none;
  retry_policy =
      if ltb_ℤ (pos 0) p.max_attempts
      then some (record {
        max_attempts = p.max_attempts;
        initial_backoff = none;
        max_backoff = none;
        backoff_multiplier = 0;
        jitter = 0;
      })
      else none;
  state = JobState.unspecified;
  attempt = 0;
  assigned_worker_id = "";
  last_error = "";
  created_at = none;
  updated_at = none;
  scheduled_at = none;
  started_at = none;
  finished_at = none;
}

module _ (net : Network) where
  -- The loop of `Status`, with the error kept last.
  unfoldable pub status_loop :
      List String → Option Failure → net.World → net.World × Answer ClusterStatus
  status_loop [] last w = (w, failed "no scheduler reachable" last)
  status_loop (seed ∷ seeds) last w =
      let (w1, r) = ask net seed w in
      elim r [ ok st ↦ (w1, ok st) | err e ↦ status_loop seeds (some e) w1 ]

  unfoldable pub status : Client → net.World → net.World × Answer ClusterStatus
  status c w = status_loop c.seeds none w

  -- `leaderConn`, with the address that it dials.
  unfoldable pub leader_conn : Client → net.World → net.World × Answer String
  leader_conn c w =
      let (w1, r) = status c w in
      elim r [
        | err e ↦ (w1, err e)
        | ok st ↦ elim (address_of (get_holder_id st.lease) st.schedulers) [
          | none ↦ (w1, err (plain "no leader currently elected"))
          | some addr ↦
              (let (w2, d) = net.dial addr w1 in
                elim d [ ok _ ↦ (w2, ok addr) | err e ↦ (w2, err e) ])
        ]
      ]

  -- A call over the connection to the leader.
  abbrev pub on_leader :
      {A : Type 0}
      → (String → net.World → net.World × Answer A)
      → Client
      → net.World
      → net.World × Answer A
  on_leader call c w =
      let (w1, r) = leader_conn c w in elim r [ ok addr ↦ call addr w1 | err e ↦ (w1, err e) ]

  unfoldable pub submit : SubmitParams → Time → Client → net.World → net.World × Answer String
  submit p now c w = on_leader (λ addr. net.submit_job addr (job_of p now)) c w

  unfoldable pub get : String → Client → net.World → net.World × Answer (Option Job)
  get id c w = on_leader (λ addr. net.get_job addr id) c w

  unfoldable pub list_jobs : JobState → Client → net.World → net.World × Answer (List Job)
  list_jobs state c w = on_leader (λ addr. net.list_jobs addr state) c w

  unfoldable pub cancel : String → Client → net.World → net.World × Answer (Option Job)
  cancel id c w = on_leader (λ addr. net.cancel_job addr id) c w
