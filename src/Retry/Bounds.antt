-- ===== src/Retry/Bounds.antt =====
-- internal/retry/retry.go: how many attempts there are, and how long the base delay gets.
use distsched.Base.{ℕ, suc, zero, refl, ◌-◌, ◌≤◌, ◌≡◌, ◌⊎◌, true, false, Option, arith}
use distsched.Api.{Double, RetryPolicy}
use distsched.Retry.{Floats, max_attempts, initial_of, max_of, multiplier_of, grow, base_delay}

-- At least one attempt is permitted, whatever the policy says.
pub max_attempts_pos : (p : Option RetryPolicy) → 1 ≤ max_attempts p
unfolding max_attempts
max_attempts_pos p = ground arith

module _ (f : Floats) where
  grow_capped :
      (mult max_b : Double) (rounds : ℕ) (base : Double)
      → (grow f mult max_b (suc rounds) base ≡ max_b)
        ⊎ (f.le max_b (grow f mult max_b (suc rounds) base) ≡ false)
  unfolding grow
  grow_capped mult max_b zero base = ground arith
  grow_capped mult max_b (suc rounds) base =
      ground (arith, grow_capped mult max_b rounds (f.mul base mult))

  -- From the second attempt on, the delay before jitter is the policy's maximum or does not reach it.
  pub base_delay_capped :
      (p : Option RetryPolicy) (n : ℕ)
      → (base_delay f p (suc (suc n)) ≡ f.of_int (max_of p))
        ⊎ (f.le (f.of_int (max_of p)) (base_delay f p (suc (suc n))) ≡ false)
  unfolding base_delay
  base_delay_capped p n =
      let e : suc (suc n) - 1 ≡ suc n = omega arith in
      rw e (grow_capped (multiplier_of f p) (f.of_int (max_of p)) n (f.of_int (initial_of p)))

  grow_reached :
      (mult max_b : Double) (rounds : ℕ) (base : Double)
      → f.le max_b (f.mul base mult) ≡ true
      → grow f mult max_b (suc rounds) base ≡ max_b
  unfolding grow
  grow_reached mult max_b rounds base h = rw h refl

  -- Where a policy's initial delay is above its maximum, and once multiplied is not below it, the delay
  -- before jitter is longer after the first attempt than after any later one, when it is the maximum.
  pub first_delay_longest :
      (p : Option RetryPolicy) (n : ℕ)
      → f.lt (f.of_int (max_of p)) (f.of_int (initial_of p)) ≡ true
      → f.le (f.of_int (max_of p)) (f.mul (f.of_int (initial_of p)) (multiplier_of f p)) ≡ true
      → (base_delay f p (suc (suc n)) ≡ f.of_int (max_of p))
        × (f.lt (base_delay f p (suc (suc n))) (base_delay f p 1) ≡ true)
  unfolding base_delay grow
  first_delay_longest p n above reached =
      let e : suc (suc n) - 1 ≡ suc n = omega arith in
      let capped =
        grow_reached (multiplier_of f p) (f.of_int (max_of p)) n (f.of_int (initial_of p))
          reached in
      (rw e capped, rw e (rw capped above))
