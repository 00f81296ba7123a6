-- ===== src/Worker/Slots.antt =====
-- internal/worker/agent.go: which tasks a worker takes.
use distsched.Base.{
  length-without, ℕ, ◌≤◌, ◌≡◌, refl, pos, ◌-ℤ◌, true, false, List, [], ◌∷◌, some, String, length,
  ltb_ℤ, arith, lookup, insert, lookup-insert, elem, Dict,
}
use distsched.Api.{Time}
use distsched.Worker.{
  Agent, done_retention, is_done, try_start, prune, finish, Event, delivered, finished, after,
}

pub try_start-within :
    (id : String) (n : ℕ) (a : Agent)
    → a.capacity ≡ pos n
    → length a.running ≤ n
    → (length (try_start id a).0.running ≤ n) × ((try_start id a).0.capacity ≡ pos n)
unfolding try_start
try_start-within id n a c h = ground arith

-- A worker that starts with as many tasks as its capacity or fewer never holds more, whatever is
-- delivered to it and finishes.
never_over :
    (es : List Event) (n : ℕ) (a : Agent)
    → a.capacity ≡ pos n
    → length a.running ≤ n
    → length (after es a).running ≤ n
unfolding after finish
never_over [] n a c h = h
never_over (delivered id ∷ es) n a c h =
    let (h1, c1) = try_start-within id n a c h in never_over es n (try_start id a).0 c1 h1
never_over (finished id now ∷ es) n a c h =
    never_over es n (finish id now a) c (omega (arith, length-without id a.running))

kept_recent :
    (id : String) (now t : Time) (m : Dict Time)
    → lookup id m ≡ some t
    → ltb_ℤ done_retention (now -ℤ t) ≡ false
    → lookup id (prune now m) ≡ some t
unfolding prune lookup
kept_recent id now t [] e f = absurd (ground arith)
kept_recent id now t ((i, u) ∷ m) e f = ground (arith, kept_recent id now t m)

recent : (now : Time) → ltb_ℤ done_retention (now -ℤ now) ≡ false
unfolding ◌-ℤ◌
recent now = ground arith

finished_is_done : (id : String) (now : Time) (a : Agent) → is_done id (finish id now a) ≡ true
unfolding finish
finished_is_done id now a =
    let inserted : lookup id (insert id now a.done) ≡ some now =
      ground (arith, lookup-insert id id now a.done) in
    rw (kept_recent id now now (insert id now a.done) inserted (recent now), is_done) refl

refused_done : (id : String) (a : Agent) → is_done id a ≡ true → (try_start id a).1 ≡ false
unfolding try_start
refused_done id a h = ground arith

refused_running : (id : String) (a : Agent) → elem id a.running ≡ true → (try_start id a).1 ≡ false
unfolding try_start
refused_running id a h = ground arith

started_runs :
    (id : String) (a : Agent)
    → (try_start id a).1 ≡ true
    → elem id (try_start id a).0.running ≡ true
unfolding try_start elem
started_runs id a h = ground arith

-- A task that has just been started is refused, and it is refused right after it has finished.
not_twice :
    (id : String) (now : Time) (a : Agent)
    → (try_start id a).1 ≡ true
    → ((try_start id (try_start id a).0).1 ≡ false)
      × ((try_start id (finish id now (try_start id a).0)).1 ≡ false)
not_twice id now a h =
    let a1 = (try_start id a).0 in
    (
      refused_running id a1 (started_runs id a h),
      refused_done id (finish id now a1) (finished_is_done id now a1),
    )
