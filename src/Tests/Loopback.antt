-- ===== src/Tests/Loopback.antt =====
-- A network on which every address is the one server over the in-memory store.
use distsched.Base.{pos, arith, ◌≡◌, some}
use distsched.Api.{Time}
use distsched.Net.{Answer, ok, err, Code, Failure, Network, plain}
use distsched.Scheduler.State.{Error, Reply}
use distsched.Scheduler.Replication.{S}
use distsched.Scheduler.Jobs.{submit_job, list_jobs}
use distsched.Scheduler.Dispatch.{poll_task, report_task}
use distsched.Scheduler.Workers.{register_worker, heartbeat}
use distsched.Scheduler.Status.{get_cluster_status}
use distsched.Worker.Identity.{IsServed}
use distsched.Tests.Fixture.{backend}

abbrev pub failure_of : Error → Failure
failure_of (Error.not_leader addr) = record { code = Code.failed_precondition; message = addr }
failure_of _ = plain "refused"

abbrev pub answer_of : {A : Type 0} → Reply A → Answer A
answer_of (Reply.ok x) = ok x
answer_of (Reply.err e) = err (failure_of e)

abbrev pub clock : Time
clock = pos 3

abbrev pub loopback : Network
loopback = record {
  World = S backend;
  dial = λ addr s. (s, ok tt);
  get_cluster_status = λ addr s. (s, answer_of (get_cluster_status backend s));
  register_worker =
      λ addr info s. let r = register_worker backend (some info) clock s in (r.0, answer_of r.1);
  heartbeat =
      λ addr id running s. let r = heartbeat backend id running clock s in (r.0, answer_of r.1);
  poll_task = λ addr id n s. let r = poll_task backend id n clock s in (r.0, answer_of r.1);
  report_task = λ addr worker id result output msg s.
      let r = report_task backend id result msg clock s in (r.0, answer_of r.1);
  submit_job = λ addr j s. let r = submit_job backend (some j) clock s in (r.0, answer_of r.1);
  get_job = λ addr id s. (s, err (plain "not asked for"));
  list_jobs = λ addr state s. (s, answer_of (list_jobs backend state (pos 0) s));
  cancel_job = λ addr id s. (s, err (plain "not asked for"));
}

served : {A : Type 0} (r : Reply A) (x : A) → answer_of r ≡ ok x → r ≡ Reply.ok x
served (Reply.ok y) x e = ground arith
served (Reply.err y) x e = absurd (ground arith)

pub loopback-IsServed : IsServed backend loopback
loopback-IsServed addr info w r e =
    (clock, w, served (register_worker backend (some info) clock w).1 r e)
