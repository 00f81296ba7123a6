-- ===== src/Tests/Sessions.antt =====
-- A worker that joins a server, polls it for a job and reports on it; a client of the same server.
use mathlib.Core.Bool.{false≢true}
use distsched.Base.{
  ℕ, String_discrete, same, sym, zero, suc, ◌≡◌, ◌≢◌, ◌≤◌, ap, refl, pos, true, false, List, [],
  ◌∷◌, ◌++◌, String, none, some, length, take, All, arith, lookup,
}
use distsched.Api.{TaskAssignment, TaskResult, ClusterStatus, SchedulerRole}
use distsched.Net.{Answer, ok, Code, Failure, Network, plain}
use distsched.Ctl.{Client, status, status_loop, leader_conn}
use distsched.Net
use distsched.Ctl.Leader.{same_leader}
use distsched.Cluster.Node.{current_leader}
use distsched.Scheduler.State.{Reply, leader_addr}
use distsched.Scheduler.Status.{get_cluster_status, nodes_of}
use distsched.Worker.Session
use distsched.Worker.Session.{
  Config, Session, Tick, beat, asks, ended, Reported, given_up, discover_loop, launch,
}
use distsched.Worker.Launches.{Launched, launch-Launched}
use distsched.Worker.Identity.{identity_kept}
use distsched.Worker.Capacity.{capacity_kept, Fits}
use distsched.Worker.Keeps.{IsWait}
use distsched.Worker.Waits.{waits_bounded, gives_up}
use distsched.Worker.Executor.{truncate}
use distsched.Worker.Output.{truncate_bounded}
use distsched.Worker.Utf8.{is_utf8, scan, next_byte, lead, start, truncate_splits}
use distsched.Tests.Fixture.{backend, server, spec}
use distsched.Tests.Memory.{listing}
use distsched.Tests.Loopback.{loopback, loopback-IsServed}

abbrev agent_config : Config
agent_config = record {
  schedulers = "addr0" ∷ "addr1" ∷ [];
  advertise = "here";
  capacity = pos 2;
  labels = [];
  heartbeat_interval = pos 0;
  poll_interval = pos 0;
}

abbrev session : Session loopback.World
session = record {
  cfg = agent_config;
  world = server;
  conn = none;
  leader_addr = "";
  worker_id = "w1";
  agent = record { capacity = pos 2; running = "task-b" ∷ []; done = [] };
  slept = [];
}

abbrev ticks : List Tick
ticks = beat ∷ asks ∷ ended "task-b" TaskResult.succeeded [] "" (pos 4) ∷ asks ∷ []

abbrev own_id : String
own_id = "w1"

named : own_id ≢ ""
unfolding String_discrete
named e = false≢true (ap (λ s. same own_id s) (sym e))

identity_kept_example : (Session.run loopback 1 ticks session).worker_id ≡ "w1"
identity_kept_example =
    identity_kept backend loopback loopback-IsServed own_id named 1 ticks session refl

capacity_kept_example : Fits 2 (Session.run loopback 1 ticks session).agent
capacity_kept_example = capacity_kept loopback 2 1 ticks session (refl, omega arith)

-- A network on which no seed answers.
abbrev silent : Network
silent = record loopback { get_cluster_status = λ addr w. (w, Answer.err (plain "down")) }

-- The waits of an agent that finds no leader, the latest first.
waits_bounded_example : All IsWait (
    pos 4_800_000_000
    ∷ pos 2_400_000_000
    ∷ pos 1_200_000_000
    ∷ pos 600_000_000
    ∷ pos 300_000_000
    ∷ [])
unfolding Session.run Session.new Session.bootstrap Session.bootstrap_loop Session.join
    Session.connect_leader Session.discover_leader Session.discover_loop Session.with_defaults
    Net.ask
waits_bounded_example = waits_bounded silent agent_config server 5 ticks

-- A network that takes no reports.
abbrev mute : Network
mute = record loopback {
  report_task = λ addr worker_id id result output msg w. (w, Answer.err (plain "no"));
}

gives_up_example :
    let out = Session.report mute 1 "task-b" TaskResult.succeeded (255 ∷ []) "" session in
    (out.1 ≡ given_up)
    × (out.0.slept
        ≡ pos 2_500_000_000
          ∷ pos 2_000_000_000
          ∷ pos 1_500_000_000
          ∷ pos 1_000_000_000
          ∷ pos 500_000_000
          ∷ [])
    × (out.0.agent ≡ session.agent)
gives_up_example =
    gives_up mute "task-b" TaskResult.succeeded (255 ∷ []) ""
      (λ addr worker_id w. (plain "no", refl, refl)) 1 session

abbrev task : String → TaskAssignment
task id = record {
  task_id = id;
  job_id = "j1";
  attempt = 1;
  spec = some spec;
  lease_deadline = pos 9;
}

abbrev offered : List TaskAssignment
offered = task "task-a" ∷ task "task-b" ∷ task "task-a" ∷ task "task-c" ∷ []

launch-Launched_example :
    Launched session.agent (launch offered session.agent).0 (launch offered session.agent).1
launch-Launched_example = launch-Launched offered session.agent

abbrev letters : ℕ → List ℕ
letters zero = []
letters (suc n) = 97 ∷ letters n

length-letters : (n : ℕ) → length (letters n) ≡ n
length-letters zero = refl
length-letters (suc n) = ap suc (length-letters n)

scan-letters : (n : ℕ) → scan (letters n) start ≡ some start
unfolding scan next_byte lead
scan-letters zero = refl
scan-letters (suc n) = scan-letters n

letters_utf8 : (n : ℕ) → is_utf8 (letters n) ≡ true
letters_utf8 n = rw (scan-letters n) refl

abbrev short : List ℕ
short = 1 ∷ 2 ∷ []

truncate_bounded_example :
    (length (truncate short) ≤ 8206)
    × (take 8192 (truncate short) ≡ take 8192 short)
    × (length short ≤ 8192 → truncate short ≡ short)
truncate_bounded_example = truncate_bounded short

truncate_splits_example :
    (is_utf8 (letters 8191 ++ 195 ∷ 169 ∷ letters 3) ≡ true)
    × (is_utf8 (truncate (letters 8191 ++ 195 ∷ 169 ∷ letters 3)) ≡ false)
truncate_splits_example =
    truncate_splits 195 169 (letters 8191) (letters 3) refl refl (length-letters 8191)
      (letters_utf8 8191) (letters_utf8 3)

abbrev client : Client
client = record { seeds = "addr0" ∷ "addr1" ∷ [] }

abbrev answered : ClusterStatus
answered = record {
  lease = some (record { holder_id = "n1"; term = 1; acquired_at = none; expires_at = none });
  schedulers =
      record { id = "n1"; address = "addr1"; role = SchedulerRole.leader; last_seen = none } ∷ [];
  workers = [];
}

first_answer : status loopback client server ≡ (server, ok answered)
unfolding status status_loop Net.ask get_cluster_status nodes_of String_discrete current_leader
    listing
first_answer = refl

server_answers : get_cluster_status backend server ≡ Reply.ok answered
unfolding get_cluster_status nodes_of String_discrete current_leader listing
server_answers = refl

leader_named : lookup (current_leader server.node) server.members ≡ some "addr1"
unfolding lookup String_discrete current_leader
leader_named = refl

leader_known : current_leader server.node ≢ ""
unfolding String_discrete current_leader
leader_known e = false≢true (ap (λ s. same s "n1") (sym e))

same_leader_example :
    (discover_loop loopback client.seeds none server ≡ (server, ok "addr1"))
    × ((leader_conn loopback client server).1 ≡ ok "addr1")
    × (leader_addr server ≡ "addr1")
same_leader_example =
    same_leader loopback backend server client server server answered "addr1" first_answer
      server_answers leader_known leader_named refl
