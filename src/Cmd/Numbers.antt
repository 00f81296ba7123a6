-- ===== src/Cmd/Numbers.antt =====
-- cmd/schedulerctl/main.go and cmd/worker/main.go: the flags that become int32 fields.
use distsched.Base.{◌≡◌, ℤ, pos, negsuc, ◌≤ℤ◌, ◌<ℤ◌, arith}
use distsched.Cmd.{to_int32}

abbrev pub IsInt32 : ℤ → Type 0
IsInt32 i = (negsuc 2_147_483_647 ≤ℤ i) × (i <ℤ pos 2_147_483_648)

-- A flag becomes an int32, and stays as it is where it fits into one.
to_int32-IsInt32 : (i : ℤ) → IsInt32 (to_int32 i) × (IsInt32 i → to_int32 i ≡ i)
unfolding to_int32
to_int32-IsInt32 (pos n) = ground arith
to_int32-IsInt32 (negsuc n) = ground arith
