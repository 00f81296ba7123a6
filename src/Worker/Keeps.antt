-- ===== src/Worker/Keeps.antt =====
-- internal/worker/agent.go: a rule for what an agent keeps true from one step to the next.
use distsched.Base.{
  ℕ, zero, suc, ◌+◌, ◌*◌, ◌≤◌, ◌<◌, pos, ◌≡◌, refl, List, [], ◌∷◌, String, arith, leb_ℤ, ltb, ◌⊎◌,
  inl, inr, Bool-cases, Option,
}
use distsched.Api.{Duration, TaskAssignment, TaskResult, Time}
use distsched.Net.{ok, Code, Failure, Network, Answer-cases}
use distsched.Scheduler.Workers.{Registered}
use distsched.Worker.{finish, free_capacity}
use distsched.Worker.Session.{
  Session, Recovery, unhandled, rejoined, abandoned, Tick, beat, asks, ended, longer,
  discover_leader, connect_leader, info_of, register, join, bootstrap_loop, bootstrap,
  on_leadership_error, heartbeat, launch, poll, report_loop, report, complete, step, run_loop, run,
}

-- At least 300 milliseconds, and less than 10 seconds.
abbrev pub IsWait : Duration → Type 0
IsWait d = (n : ℕ) × (d ≡ pos n) × (300_000_000 ≤ n) × (n < 10_000_000_000)

-- `P` survives each of the changes that the methods of the agent are made of.
pub record IsKept (net : Network) (P : Session net.World → Type 0) : Type 0 where
  pub moved : (s : Session net.World) (w : net.World) → P s → P (record s { world = w })
  pub connected :
      (s : Session net.World) (addr : String)
      → P s
      → P (record s { conn = Option.some addr; leader_addr = addr })
  pub registered :
      (s : Session net.World) (r : Registered)
      → let call = net.register_worker s.leader_addr (info_of net s) s.world in
        call.1 ≡ ok r → P s → P (record s { world = call.0; worker_id = r.worker_id })
  pub waited :
      (s : Session net.World) (d : Duration) → IsWait d → P s → P (record s { slept = d ∷ s.slept })
  pub launched :
      (s : Session net.World) (ts : List TaskAssignment)
      → P s
      → P (record s { agent = (launch ts s.agent).0 })
  pub finished :
      (s : Session net.World) (id : String) (now : Time)
      → P s
      → P (record s { agent = finish id now s.agent })

Code-cases : (c : Code) → (c ≡ Code.other) ⊎ (c ≡ Code.failed_precondition) ⊎ (c ≡ Code.unavailable)
Code-cases Code.other = inl refl
Code-cases Code.failed_precondition = inr (inl refl)
Code-cases Code.unavailable = inr (inr refl)

Recovery-cases : (r : Recovery) → (r ≡ unhandled) ⊎ (r ≡ rejoined) ⊎ (r ≡ abandoned)
Recovery-cases unhandled = inl refl
Recovery-cases rejoined = inr (inl refl)
Recovery-cases abandoned = inr (inr refl)

longer-IsWait : (d : Duration) → IsWait d → IsWait (longer d)
longer-IsWait d (n, e, lo, hi) = rw (e) (elim (Bool-cases (ltb n 5_000_000_000)) [
  | inl f ↦ (n * 2, ground arith, omega arith, ground arith)
  | inr f ↦ (n, ground arith, lo, hi)
])

module _ (net : Network) (P : Session net.World → Type 0) (k : IsKept net P) where
  discover_leader_keeps : (s : Session net.World) → P s → P (discover_leader net s).0
  unfolding discover_leader
  discover_leader_keeps s h = k.moved s _ h

  connect_leader_keeps : (s : Session net.World) → P s → P (connect_leader net s).0
  unfolding connect_leader
  connect_leader_keeps s h =
      let s1 = (discover_leader net s).0 in
      let h1 = discover_leader_keeps s h in
      elim (Answer-cases (discover_leader net s).1) [
        | inl (addr, e) ↦
            let w = (net.dial addr s1.world).0 in
            let h2 = k.moved s1 w h1 in
            elim (Answer-cases (net.dial addr s1.world).1) [
              | inl (x, f) ↦
                  rw (e, f, connect_leader) (k.connected (record s1 { world = w }) addr h2)
              | inr (x, f) ↦ rw (e, f, connect_leader) h2
            ]
        | inr (x, e) ↦ rw (e, connect_leader) h1
      ]

  register_keeps : (s : Session net.World) → P s → P (register net s).0
  unfolding register
  register_keeps s h =
      let call = net.register_worker s.leader_addr (info_of net s) s.world in
      elim (Answer-cases call.1) [
        | inl (r, e) ↦ rw (e, register) (k.registered s r e h)
        | inr (x, e) ↦ rw (e, register) (k.moved s call.0 h)
      ]

  join_keeps : (s : Session net.World) → P s → P (join net s).0
  unfolding join
  join_keeps s h =
      let s1 = (connect_leader net s).0 in
      let h1 = connect_leader_keeps s h in
      elim (Answer-cases (connect_leader net s).1) [
        | inl (x, e) ↦ rw (e, join) (register_keeps s1 h1)
        | inr (x, e) ↦ rw (e, join) h1
      ]

  bootstrap_loop_keeps :
      (patience : ℕ) (d : Duration) (s : Session net.World)
      → IsWait d
      → P s
      → P (bootstrap_loop net patience d s).0
  unfolding bootstrap_loop
  bootstrap_loop_keeps zero d s i h = elim (Answer-cases (join net s).1) [
    | inl (x, e) ↦ rw (e, bootstrap_loop) (join_keeps s h)
    | inr (x, e) ↦ rw (e, bootstrap_loop) (join_keeps s h)
  ]
  bootstrap_loop_keeps (suc rest) d s i h =
      let s1 = (join net s).0 in
      elim (Answer-cases (join net s).1) [
        | inl (x, e) ↦ rw (e, bootstrap_loop) (join_keeps s h)
        | inr (x, e) ↦
            rw (e, bootstrap_loop)
              (bootstrap_loop_keeps rest (longer d) (record s1 { slept = d ∷ s1.slept })
                (longer-IsWait d i) (k.waited s1 d i (join_keeps s h)))
      ]

  pub bootstrap_keeps :
      (patience : ℕ) (s : Session net.World) → P s → P (bootstrap net patience s).0
  unfolding bootstrap
  bootstrap_keeps patience s h =
      bootstrap_loop_keeps patience (pos 300_000_000) s
        (300_000_000, refl, omega arith, omega arith) h

  on_leadership_error_keeps :
      (patience : ℕ) (e : Failure) (s : Session net.World)
      → P s
      → P (on_leadership_error net patience e s).0
  unfolding on_leadership_error
  on_leadership_error_keeps patience e s h = elim (Code-cases e.code) [
    | inl f ↦ rw (f, on_leadership_error) h
    | inr (inl f) ↦ rw (f, on_leadership_error) (bootstrap_keeps patience s h)
    | inr (inr f) ↦ rw (f, on_leadership_error) (bootstrap_keeps patience s h)
  ]

  heartbeat_keeps : (patience : ℕ) (s : Session net.World) → P s → P (heartbeat net patience s)
  unfolding heartbeat
  heartbeat_keeps patience s h =
      let call = net.heartbeat s.leader_addr s.worker_id s.agent.running s.world in
      let s1 : Session net.World = record s { world = call.0 } in
      let h1 = k.moved s call.0 h in
      elim (Answer-cases call.1) [
        | inl (resp, e) ↦ elim (Bool-cases resp.ok) [
          | inl known ↦ rw (e, heartbeat) (rw known h1)
          | inr unknown ↦ rw (e, heartbeat) (rw unknown (register_keeps s1 h1))
        ]
        | inr (x, e) ↦ rw (e, heartbeat) (on_leadership_error_keeps patience x s1 h1)
      ]

  poll_keeps : (patience : ℕ) (s : Session net.World) → P s → P (poll net patience s).0
  unfolding poll
  poll_keeps patience s h =
      let free = free_capacity s.agent in
      let call = net.poll_task s.leader_addr s.worker_id free s.world in
      let s1 : Session net.World = record s { world = call.0 } in
      let h1 = k.moved s call.0 h in
      elim (Bool-cases (leb_ℤ free (pos 0))) [
        | inl f ↦ rw (f, poll) h
        | inr f ↦ elim (Answer-cases call.1) [
          | inl (ts, e) ↦ rw (f, e, poll) (k.launched s1 ts h1)
          | inr (x, e) ↦ rw (f, e, poll) (on_leadership_error_keeps patience x s1 h1)
        ]
      ]

  report_loop_keeps :
      (left made patience : ℕ) (id : String) (r : TaskResult) (output : List ℕ) (msg : String)
      (s : Session net.World)
      → made + left ≤ 5
      → P s
      → P (report_loop net left made patience id r output msg s).0
  unfolding report_loop
  report_loop_keeps zero made patience id r output msg s b h = h
  report_loop_keeps (suc left) made patience id r output msg s b h =
      let call = net.report_task s.leader_addr s.worker_id id r output msg s.world in
      let s1 : Session net.World = record s { world = call.0 } in
      let h1 = k.moved s call.0 h in
      elim (Answer-cases call.1) [
        | inl (x, e) ↦ rw (e, report_loop) h1
        | inr (x, e) ↦
            let s2 = (on_leadership_error net patience x s1).0 in
            let h2 = on_leadership_error_keeps patience x s1 h1 in
            elim (Recovery-cases (on_leadership_error net patience x s1).1) [
              | inl f ↦
                  rw (e, f, report_loop)
                    (report_loop_keeps left (suc made) patience id r output msg
                      (record s2 { slept = pos ((made + 1) * 500_000_000) ∷ s2.slept })
                      (omega arith)
                      (k.waited s2 _ ((made + 1) * 500_000_000, refl, omega arith, omega arith) h2))
              | inr (inl f) ↦
                  rw (e, f, report_loop)
                    (report_loop_keeps left (suc made) patience id r output msg s2 (omega arith) h2)
              | inr (inr f) ↦ rw (e, f, report_loop) h2
            ]
      ]

  step_keeps : (patience : ℕ) (t : Tick) (s : Session net.World) → P s → P (step net patience t s)
  unfolding step complete report
  step_keeps patience beat s h = heartbeat_keeps patience s h
  step_keeps patience asks s h = poll_keeps patience s h
  step_keeps patience (ended id r output msg now) s h =
      k.finished _ id now (report_loop_keeps 5 0 patience id r output msg s (omega arith) h)

  run_loop_keeps :
      (patience : ℕ) (ts : List Tick) (s : Session net.World) → P s → P (run_loop net patience ts s)
  unfolding run_loop
  run_loop_keeps patience [] s h = h
  run_loop_keeps patience (t ∷ ts) s h =
      run_loop_keeps patience ts (step net patience t s) (step_keeps patience t s h)

  pub run_keeps :
      (patience : ℕ) (ts : List Tick) (s : Session net.World) → P s → P (run net patience ts s)
  unfolding run
  run_keeps patience ts s h =
      let h1 = bootstrap_keeps patience s h in
      elim (Bool-cases (bootstrap net patience s).1) [
        | inl e ↦ rw (e, run) (run_loop_keeps patience ts (bootstrap net patience s).0 h1)
        | inr e ↦ rw (e, run) h1
      ]
