-- ===== src/Retry.antt =====
-- internal/retry/retry.go: attempts permitted, and the backoff before the next one. The float64
-- operations and literals are a parameter, over bit patterns; the random draw is an argument.
pub mod Bounds
use distsched.Base.{
  ℕ, suc, zero, ◌+◌, ◌-◌, ℤ, pos, negsuc, Bool, true, false, ltb, leb, ltb_ℤ, if◌then◌else◌, Option,
  none, some,
}
use distsched.Api.{Duration, Double, RetryPolicy, as_duration}

pub record Floats : Type 0 where
  pub of_int : ℤ → Double
  pub to_int : Double → ℤ
  pub mul : Double → Double → Double
  pub add : Double → Double → Double
  pub sub : Double → Double → Double
  pub lt : Double → Double → Bool
  pub le : Double → Double → Bool
  pub zero_lit : Double
  pub one_lit : Double
  pub two_lit : Double
  pub fifth_lit : Double

abbrev pub default_max_attempts : ℕ
default_max_attempts = 3

abbrev pub default_initial : Duration
default_initial = pos 1_000_000_000

abbrev pub default_max : Duration
default_max = pos 30_000_000_000

unfoldable pub max_attempts : Option RetryPolicy → ℕ
max_attempts none = default_max_attempts
max_attempts (some p) = elim p.max_attempts [ pos (suc n) ↦ suc n | _ ↦ default_max_attempts ]

abbrev pub positive_or : Duration → Duration → Duration
positive_or d default = if ltb_ℤ (pos 0) d then d else default

unfoldable pub initial_of : Option RetryPolicy → Duration
initial_of none = default_initial
initial_of (some p) = positive_or (as_duration p.initial_backoff) default_initial

unfoldable pub max_of : Option RetryPolicy → Duration
max_of none = default_max
max_of (some p) = positive_or (as_duration p.max_backoff) default_max

module _ (f : Floats) where
  unfoldable pub multiplier_of : Option RetryPolicy → Double
  multiplier_of none = f.two_lit
  multiplier_of (some p) =
      if f.lt f.zero_lit p.backoff_multiplier then p.backoff_multiplier else f.two_lit

  unfoldable pub jitter_of : Option RetryPolicy → Double
  jitter_of none = f.fifth_lit
  jitter_of (some p) = if f.lt f.zero_lit p.jitter then p.jitter else f.fifth_lit

  -- The loop of `Backoff`, over the rounds left.
  unfoldable pub grow : Double → Double → ℕ → Double → Double
  grow mult max_b zero base = base
  grow mult max_b (suc rounds) base =
      let base' = f.mul base mult in
      let rest = grow mult max_b rounds base' in if f.le max_b base' then max_b else rest

  unfoldable pub base_delay : Option RetryPolicy → ℕ → Double
  unfolding grow initial_of max_of multiplier_of
  base_delay p attempt =
      grow (multiplier_of p) (f.of_int (max_of p)) (attempt - 1) (f.of_int (initial_of p))

  -- `draw` is the value of `rand.Float64()`.
  unfoldable pub backoff : Option RetryPolicy → ℕ → Double → Duration
  unfolding base_delay jitter_of
  backoff p attempt draw =
      let base = base_delay p attempt in
      let j = jitter_of p in
      let shifted =
        if f.lt f.zero_lit j
        then f.mul base (f.add f.one_lit (f.mul (f.sub (f.mul draw f.two_lit) f.one_lit) j))
        else base in
      f.to_int (if f.lt shifted f.zero_lit then f.zero_lit else shifted)
