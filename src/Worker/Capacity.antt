-- ===== src/Worker/Capacity.antt =====
-- internal/worker/agent.go: how many tasks an agent holds, over all that it does.
use distsched.Base.{length-without, ℕ, ◌≤◌, ◌≡◌, pos, List, [], ◌∷◌, String, length, arith}
use distsched.Api.{TaskAssignment, Time}
use distsched.Net.{Network}
use distsched.Worker.{Agent, try_start, finish}
use distsched.Worker.Slots.{try_start-within}
use distsched.Worker.Session.{Session, Tick, launch, run}
use distsched.Worker.Keeps.{run_keeps}

-- No more tasks than slots.
abbrev pub Fits : ℕ → Agent → Type 0
Fits n a = (a.capacity ≡ pos n) × (length a.running ≤ n)

launch-Fits : (n : ℕ) (ts : List TaskAssignment) (a : Agent) → Fits n a → Fits n (launch ts a).0
unfolding launch
launch-Fits n [] a h = h
launch-Fits n (t ∷ ts) a h =
    let (l, c) = try_start-within t.task_id n a h.0 h.1 in
    launch-Fits n ts (try_start t.task_id a).0 (c, l)

finish-Fits : (n : ℕ) (id : String) (now : Time) (a : Agent) → Fits n a → Fits n (finish id now a)
unfolding finish
finish-Fits n id now a h = (h.0, omega (arith, length-without id a.running, h.1))

-- An agent that holds no more tasks than its capacity at first never does, whatever the network
-- answers to its heartbeats, polls and reports, and in whatever order its tasks end.
pub capacity_kept :
    (net : Network) (n patience : ℕ) (ts : List Tick) (s : Session net.World)
    → Fits n s.agent
    → Fits n (run net patience ts s).agent
capacity_kept net n patience ts s h =
    run_keeps net (λ t. Fits n t.agent)
      (record {
        moved = λ t w k. k;
        connected = λ t addr k. k;
        registered = λ t r e k. k;
        waited = λ t d i k. k;
        launched = λ t us k. launch-Fits n us t.agent k;
        finished = λ t id now k. finish-Fits n id now t.agent k;
      })
      patience ts s h
