-- ===== src/Scheduler/Refuses.antt =====
-- internal/scheduler: what a server that does not lead answers, and how many tasks a poll leases.
use distsched.Queue
use distsched.Base.{
  ◌⊎◌, ℕ, zero, suc, ◌+◌, ◌≤◌, ◌≡◌, refl, inl, inr, false, List, [], ◌∷◌, ◌++◌, String, ℤ, pos,
  negsuc, ltb, ◌≤ℤ◌, arith, length, leb, Bool-cases,
}
use distsched.Api.{TaskAssignment, Time}
use distsched.Scheduler.State.{
  Backend, Reply, ok, err, not_leader, leads, leader_addr, require_leader,
}
use distsched.Scheduler.Replication.{S}
use distsched.Scheduler.Dispatch.{
  Round, stopped, skipped, leased, batch_size, max_batch, poll_round, poll_loop, poll_task,
}

module _ (b : Backend) where
  -- A handler behind `requireLeader` on a server that does not lead.
  pub led_only :
      {A : Type 0} (s : S b) (k : S b × Reply A)
      → leads s ≡ false
      → require_leader s k ≡ (s, err (not_leader (leader_addr s)))
  led_only s k h = rw (h, require_leader) refl

  length-snoc : {A : Type 0} (xs : List A) (x : A) → length (xs ++ x ∷ []) ≡ length xs + 1
  length-snoc [] x = refl
  length-snoc (y ∷ ys) x = ground (arith, length-snoc ys x)

  after_round :
      (next : List TaskAssignment → S b → S b × List TaskAssignment) (n : ℕ)
      (out : List TaskAssignment) (s : S b) (r : Round (S b))
      → length out + 1 ≤ n
      → ((o : List TaskAssignment) (s1 : S b) → length o ≤ n → length (next o s1).1 ≤ n)
      → length
          (elim r as (λ x. S b × List TaskAssignment) [
            | stopped s1 ↦ (s1, out)
            | skipped s1 ↦ next out s1
            | leased s1 task ↦ next (out ++ task ∷ []) s1
          ]).1
        ≤ n
  after_round next n out s (stopped s1) h rest = omega arith
  after_round next n out s (skipped s1) h rest = rest out s1 (omega arith)
  after_round next n out s (leased s1 task) h rest =
      rest (out ++ task ∷ []) s1 (omega (arith, length-snoc out task))

  not_full : (m n : ℕ) → leb n m ≡ false → m + 1 ≤ n
  not_full m n e = ground arith

  loop_within :
      (fuel n : ℕ) (worker_id : String) (now : Time) (out : List TaskAssignment) (s : S b)
      → length out ≤ n
      → length (poll_loop b fuel n worker_id now out s).1 ≤ n
  unfolding poll_loop
  loop_within zero n worker_id now out s h = h
  loop_within (suc fuel) n worker_id now out s h = elim (Bool-cases (leb n (length out))) [
    | inl e ↦ rw (e, poll_loop) h
    | inr e ↦
        rw (e, poll_loop)
          (after_round (poll_loop b fuel n worker_id now) n out s (poll_round b worker_id now s)
            (not_full _ _ e) (λ o s1 k. loop_within fuel n worker_id now o s1 k))
  ]

  batch_at_most : (n : ℤ) → batch_size n ≤ max_batch
  unfolding batch_size
  batch_at_most n = ground arith

  within_batch :
      (worker_id : String) (n : ℤ) (now : Time) (s s1 : S b) (out : List TaskAssignment)
      → poll_task b worker_id n now s ≡ (s1, ok out)
      → length out ≤ batch_size n
  unfolding poll_task
  within_batch worker_id n now s s1 out e =
      let fuel = Queue.size s.queue + 1 in
      ground (arith, loop_within fuel (batch_size n) worker_id now [] s (omega arith))

  batch_asked : (k : ℤ) → (pos (batch_size k) ≤ℤ k) ⊎ (batch_size k ≤ 1)
  unfolding batch_size
  batch_asked (pos zero) = inr (omega arith)
  batch_asked (pos (suc n)) = elim (Bool-cases (ltb max_batch (suc n))) [
    | inl e ↦ rw e (inl (ground arith))
    | inr e ↦ rw e (inl (omega arith))
  ]
  batch_asked (negsuc n) = inr (omega arith)

  -- What is no more than a batch is no more than what was asked for, or than one.
  asked_or_one : (l m : ℕ) (k : ℤ) → l ≤ m → (pos m ≤ℤ k) ⊎ (m ≤ 1) → (pos l ≤ℤ k) ⊎ (l ≤ 1)
  asked_or_one l m (pos n) h (inl e) = inl (omega arith)
  asked_or_one l m (negsuc n) h (inl e) = absurd (ground arith)
  asked_or_one l m k h (inr e) = inr (omega arith)

  -- A poll for any number of tasks, positive or not, that is answered with tasks is answered with at
  -- most 64 of them, and with no more than it asks for or no more than one.
  pub poll_within :
      (worker_id : String) (k : ℤ) (now : Time) (s s1 : S b) (out : List TaskAssignment)
      → poll_task b worker_id k now s ≡ (s1, ok out)
      → (length out ≤ 64) × ((pos (length out) ≤ℤ k) ⊎ (length out ≤ 1))
  poll_within worker_id k now s s1 out e =
      let in_batch = within_batch worker_id k now s s1 out e in
      let most = batch_at_most k in
      (omega arith, asked_or_one (length out) (batch_size k) k in_batch (batch_asked k))
