-- ===== src/Worker/Launches.antt =====
-- internal/worker/agent.go: which of the tasks that an answer to a poll brings are launched.
use distsched.Base.{
  ◌+◌, ◌≡◌, true, false, List, [], ◌∷◌, length, arith, All, All-map, elem, same, Bool-cases, inl,
  inr,
}
use distsched.Api.{TaskAssignment}
use distsched.Worker.{Agent, is_done, try_start}
use distsched.Worker.Session.{launch}

-- The agent neither runs the task nor remembers that it has finished.
abbrev pub IsNew : Agent → TaskAssignment → Type 0
IsNew a t = (elem t.task_id a.running ≡ false) × (is_done t.task_id a ≡ false)

-- No task ID is there twice.
abbrev pub Distinct : List TaskAssignment → Type 0
Distinct [] = Unit {0}
Distinct (t ∷ ts) = All (λ u. same t.task_id u.task_id ≡ false) ts × Distinct ts

-- What a launch may do to the slots.
pub record Launched (a a' : Agent) (ts : List TaskAssignment) : Type 0 where
  pub new : All (IsNew a) ts
  pub distinct : Distinct ts
  pub count : length a'.running ≡ length a.running + length ts

module _ (t : TaskAssignment) (a : Agent) where
  refused-agent : (try_start t.task_id a).1 ≡ false → (try_start t.task_id a).0 ≡ a
  unfolding try_start
  refused-agent h = ground arith

  taken-IsNew : (try_start t.task_id a).1 ≡ true → IsNew a t
  unfolding try_start
  taken-IsNew h = ground arith

  taken-count :
      (try_start t.task_id a).1 ≡ true
      → length (try_start t.task_id a).0.running ≡ length a.running + 1
  unfolding try_start
  taken-count h = ground arith

  taken-others :
      (u : TaskAssignment)
      → (try_start t.task_id a).1 ≡ true
      → IsNew (try_start t.task_id a).0 u
      → IsNew a u × (same t.task_id u.task_id ≡ false)
  unfolding try_start elem
  taken-others u h n = ground arith

-- The loop of a poll over the tasks it is answered with launches only tasks that the agent neither
-- runs nor remembers as finished, none of them twice however often it was delivered, and the number
-- of running tasks grows by as many as it launches.
pub launch-Launched :
    (ts : List TaskAssignment) (a : Agent) → Launched a (launch ts a).0 (launch ts a).1
unfolding launch
launch-Launched [] a = record { new = tt; distinct = tt; count = omega arith }
launch-Launched (t ∷ ts) a =
    let a1 = (try_start t.task_id a).0 in
    let rest = launch-Launched ts a1 in
    elim (Bool-cases (try_start t.task_id a).1) [
      | inl e ↦ rw (e) (record {
        new = (
          taken-IsNew t a e,
          All-map (λ u n. (taken-others t a u e n).0) (launch ts a1).1 rest.new,
        );
        distinct =
            (All-map (λ u n. (taken-others t a u e n).1) (launch ts a1).1 rest.new, rest.distinct);
        count = omega (arith, taken-count t a e, rest.count);
      })
      | inr e ↦ rw (e, refused-agent t a e) (launch-Launched ts a)
    ]
