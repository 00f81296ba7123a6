-- ===== src/Worker/Waits.antt =====
-- internal/worker/agent.go: how long the agent waits between two attempts, and when it gives up.
use distsched.Base.{ℕ, zero, suc, ◌+◌, ◌*◌, ◌≡◌, refl, pos, List, ◌∷◌, String, All, arith}
use distsched.Api.{Duration, TaskResult}
use distsched.Net.{err, Code, Failure, Network}
use distsched.Worker.Session.{
  Config, Session, Tick, given_up, unhandled, new, on_leadership_error, report, report_loop, run,
}
use distsched.Worker.Keeps.{IsWait, run_keeps}

-- Each time that an agent waits between two attempts, to find a leader or to report, it waits at least
-- 300 milliseconds and less than 10 seconds, however many attempts fail.
pub waits_bounded :
    (net : Network) (cfg : Config) (w : net.World) (patience : ℕ) (ts : List Tick)
    → All IsWait (run net patience ts (new cfg w)).slept
unfolding new
waits_bounded net cfg w patience ts =
    run_keeps net (λ s. All IsWait s.slept)
      (record {
        moved = λ s v h. h;
        connected = λ s addr h. h;
        registered = λ s r e h. h;
        waited = λ s d i h. (i, h);
        launched = λ s us h. h;
        finished = λ s id now h. h;
      })
      patience ts (new cfg w) tt

not_leadership :
    (net : Network) (patience : ℕ) (e : Failure) (s : Session net.World)
    → e.code ≡ Code.other
    → on_leadership_error net patience e s ≡ (s, unhandled)
unfolding on_leadership_error
not_leadership net patience e s c = rw (c, on_leadership_error) refl

-- Every call that reports this outcome fails, and not for a change of leader.
abbrev pub IsUnsendable : Network → String → TaskResult → List ℕ → String → Type 0
IsUnsendable net id r output msg =
    (addr worker_id : String) (w : net.World)
    → (e : Failure) × ((net.report_task addr worker_id id r output msg w).1 ≡ err e)
      × (e.code ≡ Code.other)

module _ (net : Network) (id : String) (r : TaskResult) (output : List ℕ) (msg : String)
    (refused : IsUnsendable net id r output msg) where
  refused_once :
      (left made patience : ℕ) (s : Session net.World)
      → let w = (net.report_task s.leader_addr s.worker_id id r output msg s.world).0 in
        report_loop net (suc left) made patience id r output msg s
        ≡ report_loop net left
            (suc made)
            patience
            id
            r
            output
            msg
            (record s { world = w; slept = pos ((made + 1) * 500_000_000) ∷ s.slept })
  unfolding report_loop
  refused_once left made patience s =
      let (e, f, c) = refused s.leader_addr s.worker_id s.world in
      let w = (net.report_task s.leader_addr s.worker_id id r output msg s.world).0 in
      ground (arith, f, not_leadership net patience e (record s { world = w }) c)

  abbrev growing : (left made : ℕ) → List Duration → List Duration
  growing zero made ds = ds
  growing (suc left) made ds = growing left (suc made) (pos ((made + 1) * 500_000_000) ∷ ds)

  loop_gives_up :
      (left made patience : ℕ) (s : Session net.World)
      → let out = report_loop net left made patience id r output msg s in
        (out.1 ≡ given_up) × (out.0.slept ≡ growing left made s.slept) × (out.0.agent ≡ s.agent)
  unfolding report_loop
  loop_gives_up zero made patience s = (refl, refl, refl)
  loop_gives_up (suc left) made patience s =
      let w = (net.report_task s.leader_addr s.worker_id id r output msg s.world).0 in
      rw (refused_once left made patience s) (
        loop_gives_up left (suc made) patience
          (record s { world = w; slept = pos ((made + 1) * 500_000_000) ∷ s.slept }))

  -- A report that the network refuses every time, for a reason other than the leader, is tried five
  -- times, with waits of 0.5 to 2.5 seconds, and then given up; the agent's slots stay as they were.
  pub gives_up :
      (patience : ℕ) (s : Session net.World)
      → let out = report net patience id r output msg s in
        (out.1 ≡ given_up)
        × (out.0.slept
            ≡ pos 2_500_000_000
              ∷ pos 2_000_000_000
              ∷ pos 1_500_000_000
              ∷ pos 1_000_000_000
              ∷ pos 500_000_000
              ∷ s.slept)
        × (out.0.agent ≡ s.agent)
  unfolding report
  gives_up patience s = loop_gives_up 5 0 patience s
