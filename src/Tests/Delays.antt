-- ===== src/Tests/Delays.antt =====
-- Delays of a policy whose initial delay is above its maximum, in whole numbers.
use distsched.Base.{◌≡◌, ◌⊎◌, refl, true, false, pos, Option, some, ltb, leb}
use distsched.Api.{RetryPolicy}
use distsched.Retry.{initial_of, max_of, multiplier_of, base_delay}
use distsched.Retry.Bounds.{base_delay_capped, first_delay_longest}
use distsched.Tests.Fixture.{whole_floats}

abbrev hasty : Option RetryPolicy
hasty = some (record {
  max_attempts = pos 3;
  initial_backoff = some (pos 60);
  max_backoff = some (pos 10);
  backoff_multiplier = 2;
  jitter = 0;
})

base_delay_capped_example :
    (base_delay whole_floats hasty 2 ≡ 10) ⊎ (leb 10 (base_delay whole_floats hasty 2) ≡ false)
unfolding max_of
base_delay_capped_example = base_delay_capped whole_floats hasty 0

first_delay_longest_example :
    (base_delay whole_floats hasty 3 ≡ 10)
    × (ltb (base_delay whole_floats hasty 3) (base_delay whole_floats hasty 1) ≡ true)
unfolding max_of initial_of multiplier_of
first_delay_longest_example = first_delay_longest whole_floats hasty 1 refl refl
