-- ===== src/Prng/Runs.antt =====
-- Tests of src/net/deterministic_prng.hpp, and the theorems at concrete inputs.
use tftp_stress_test.Common.{ℕ, ◌^◌, ◌≤◌, ◌≡◌, refl, max, some, arith}
use tftp_stress_test.Prng.{mix, next_u64, uniform_in_range}
use tftp_stress_test.Prng.Range.{uniform_in_range_ends}

-- The first word of SplitMix64 from the seed 0.
first_word : (next_u64 0).0 ≡ 0xe220a8397b1dcdaf
unfolding next_u64 mix
first_word = refl

uniform_in_range_ends_example :
    (value : ℕ) × (next : ℕ) × (uniform_in_range (2 ^ 64) 3 10 12345 ≡ some (value, next))
    × (3 ≤ value)
    × (value ≤ max 3 10)
uniform_in_range_ends_example = uniform_in_range_ends 3 10 12345 (omega arith) (omega arith)
