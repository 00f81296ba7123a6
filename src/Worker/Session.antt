-- ===== src/Worker/Session.antt =====
-- internal/worker/agent.go: the agent that follows the leader, registers with it, sends heartbeats,
-- polls it for tasks and reports what came of them.
use distsched.Base.{
  ℕ, zero, suc, ◌+◌, ◌*◌, ℤ, pos, Bool, true, false, List, [], ◌∷◌, Option, none, some, String,
  if◌then◌else◌, leb_ℤ, ltb_ℤ, eqb_ℤ, same,
}
use distsched.Api.{
  Duration, TaskAssignment, TaskResult, Time, WorkerInfo, WorkerState, get_holder_id,
}
use distsched.Net.{Answer, ok, err, Code, Failure, Network, ask, failed}
use distsched.Ctl.{address_of}
use distsched.Worker.{Agent, try_start, finish, free_capacity}

pub record Config : Type 0 where
  pub schedulers : List String
  pub advertise : String
  pub capacity : ℤ
  pub labels : List (String × String)
  pub heartbeat_interval : Duration
  pub poll_interval : Duration

abbrev pub second : ℕ → Duration
second n = pos (n * 1_000_000_000)

unfoldable pub with_defaults : Config → Config
with_defaults c = record c {
  capacity = if leb_ℤ c.capacity (pos 0) then pos 4 else c.capacity;
  heartbeat_interval =
      if eqb_ℤ c.heartbeat_interval (pos 0) then second 5 else c.heartbeat_interval;
  poll_interval = if eqb_ℤ c.poll_interval (pos 0) then second 1 else c.poll_interval;
}

-- `leader_addr` is where the client stub points, `agent` has the slots, and `slept` lists the times
-- that the agent has waited between two attempts, the last one first.
pub record Session (W : Type 0) : Type 0 where
  pub cfg : Config
  pub world : W
  pub conn : Option String
  pub leader_addr : String
  pub worker_id : String
  pub agent : Agent
  pub slept : List Duration

unfoldable pub new : {W : Type 0} → Config → W → Session W
new cfg w =
    let c = with_defaults cfg in
    record {
      cfg = c;
      world = w;
      conn = none;
      leader_addr = "";
      worker_id = "";
      agent = record { capacity = c.capacity; running = []; done = [] };
      slept = [];
    }

-- The wait after the wait `backoff` in `bootstrap`.
abbrev pub longer : Duration → Duration
longer (pos n) = if ltb_ℤ (pos n) (second 5) then pos (n * 2) else pos n
longer d = d

-- What became of an error that may be about leadership: it was another one, the agent has joined a
-- leader, or its context has ended.
pub data Recovery : Type 0 where
  unhandled rejoined abandoned : Recovery

pub data Reported : Type 0 where
  reported given_up interrupted : Reported

-- The loop of `poll` over the tasks of an answer, with the tasks that are launched.
unfoldable pub launch : List TaskAssignment → Agent → Agent × List TaskAssignment
launch [] a = (a, [])
launch (t ∷ ts) a =
    let (a1, started) = try_start t.task_id a in
    let (a2, launched) = launch ts a1 in (a2, if started then t ∷ launched else launched)

module _ (net : Network) where
  abbrev pub World : Type 0
  World = net.World

  -- The loop of `discoverLeader`, which passes over seeds that know no leader.
  unfoldable pub discover_loop : List String → Option Failure → World → World × Answer String
  discover_loop [] last w = (w, failed "no leader elected" last)
  discover_loop (seed ∷ seeds) last w =
      let (w1, r) = ask net seed w in
      elim r [
        | err e ↦ discover_loop seeds (some e) w1
        | ok st ↦
            (let holder = get_holder_id st.lease in
              let rest = discover_loop seeds last w1 in
              if same holder ""
              then rest
              else elim (address_of holder st.schedulers) [ none ↦ rest | some a ↦ (w1, ok a) ])
      ]

  unfoldable pub discover_leader : Session World → Session World × Answer String
  discover_leader s =
      let (w, r) = discover_loop s.cfg.schedulers none s.world in (record s { world = w }, r)

  unfoldable pub connect_leader : Session World → Session World × Answer (Unit {0})
  connect_leader s =
      let (s1, r) = discover_leader s in
      elim r [
        | err e ↦ (s1, err e)
        | ok addr ↦
            (let (w, d) = net.dial addr s1.world in
              let s2 = record s1 { world = w } in
              elim d [
                | err e ↦ (s2, err e)
                | ok _ ↦ (record s2 { conn = some addr; leader_addr = addr }, ok tt)
              ])
      ]

  -- The message that `register` sends.
  unfoldable pub info_of : Session World → WorkerInfo
  info_of s = record {
    id = s.worker_id;
    address = s.cfg.advertise;
    capacity = s.cfg.capacity;
    labels = s.cfg.labels;
    state = WorkerState.unspecified;
    last_heartbeat = none;
    running_tasks = 0;
  }

  unfoldable pub register : Session World → Session World × Answer (Unit {0})
  register s =
      let (w, r) = net.register_worker s.leader_addr (info_of s) s.world in
      let s1 = record s { world = w } in
      elim r [ err e ↦ (s1, err e) | ok resp ↦ (record s1 { worker_id = resp.worker_id }, ok tt) ]

  -- One round of `bootstrap`.
  unfoldable pub join : Session World → Session World × Answer (Unit {0})
  join s = let (s1, r) = connect_leader s in elim r [ err e ↦ (s1, err e) | ok _ ↦ register s1 ]

  -- `bootstrap` in a context that ends in the wait after `patience` others.
  unfoldable pub bootstrap_loop : ℕ → Duration → Session World → Session World × Bool
  bootstrap_loop zero backoff s =
      let (s1, r) = join s in elim r [ ok _ ↦ (s1, true) | err _ ↦ (s1, false) ]
  bootstrap_loop (suc rest) backoff s =
      let (s1, r) = join s in
      elim r [
        | ok _ ↦ (s1, true)
        | err _ ↦ bootstrap_loop rest (longer backoff) (record s1 { slept = backoff ∷ s1.slept })
      ]

  unfoldable pub bootstrap : ℕ → Session World → Session World × Bool
  bootstrap patience s = bootstrap_loop patience (pos 300_000_000) s

  unfoldable pub on_leadership_error : ℕ → Failure → Session World → Session World × Recovery
  on_leadership_error patience e s =
      let (s1, joined) = bootstrap patience s in
      let again : Session World × Recovery = (s1, if joined then rejoined else abandoned) in
      elim e.code [ Code.other ↦ (s, unhandled) | _ ↦ again ]

  unfoldable pub heartbeat : ℕ → Session World → Session World
  heartbeat patience s =
      let (w, r) = net.heartbeat s.leader_addr s.worker_id s.agent.running s.world in
      let s1 = record s { world = w } in
      elim r [
        | err e ↦ (on_leadership_error patience e s1).0
        | ok resp ↦ if resp.ok then s1 else (register s1).0
      ]

  unfoldable pub poll : ℕ → Session World → Session World × List TaskAssignment
  poll patience s =
      let free = free_capacity s.agent in
      let (w, r) = net.poll_task s.leader_addr s.worker_id free s.world in
      let s1 = record s { world = w } in
      if leb_ℤ free (pos 0) then (s, []) else elim r [
        | err e ↦ ((on_leadership_error patience e s1).0, [])
        | ok tasks ↦
            (let (a, launched) = launch tasks s1.agent in (record s1 { agent = a }, launched))
      ]

  -- The loop of `report`, with the attempts left and the attempts made. It ends early where the agent
  -- looks for a leader and its process ends before it finds one.
  unfoldable pub report_loop :
      (left made patience : ℕ)
      → String
      → TaskResult
      → List ℕ
      → String
      → Session World
      → Session World × Reported
  report_loop zero made patience id result output msg s = (s, given_up)
  report_loop (suc left) made patience id result output msg s =
      let (w, r) = net.report_task s.leader_addr s.worker_id id result output msg s.world in
      let s1 = record s { world = w } in
      elim r [
        | ok _ ↦ (s1, reported)
        | err e ↦
            (let (s2, how) = on_leadership_error patience e s1 in
              elim how [
                | rejoined ↦ report_loop left (suc made) patience id result output msg s2
                | abandoned ↦ (s2, interrupted)
                | unhandled ↦
                    report_loop left (suc made) patience id result output msg
                      (record s2 { slept = pos ((made + 1) * 500_000_000) ∷ s2.slept })
              ])
      ]

  unfoldable pub report :
      ℕ → String → TaskResult → List ℕ → String → Session World → Session World × Reported
  report patience id result output msg s = report_loop 5 0 patience id result output msg s

-- What makes the loop of `Run` go round: one of its tickers, or a task that ends.
pub data Tick : Type 0 where
  beat asks : Tick
  ended : (task_id : String) → TaskResult → (output : List ℕ) → (msg : String) → Time → Tick

module _ (net : Network) where
  -- A task that ends is reported, and its slot is freed after that.
  unfoldable pub complete :
      ℕ → String → TaskResult → List ℕ → String → Time → Session net.World → Session net.World
  complete patience id result output msg now s =
      let s1 = (report net patience id result output msg s).0 in
      record s1 { agent = finish id now s1.agent }

  unfoldable pub step : ℕ → Tick → Session net.World → Session net.World
  step patience beat s = heartbeat net patience s
  step patience asks s = (poll net patience s).0
  step patience (ended id result output msg now) s = complete patience id result output msg now s

  unfoldable pub run_loop : ℕ → List Tick → Session net.World → Session net.World
  run_loop patience [] s = s
  run_loop patience (t ∷ ts) s = run_loop patience ts (step patience t s)

  -- `Run`, up to the end of its loop.
  unfoldable pub run : ℕ → List Tick → Session net.World → Session net.World
  run patience ts s =
      let (s1, joined) = bootstrap net patience s in if joined then run_loop patience ts s1 else s1
