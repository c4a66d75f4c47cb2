-- ===== src/Prng/Bernoulli.antt =====
-- The draws of src/net/deterministic_prng.hpp that go through a `double`, and the range draw as the impairment stages
-- use it.
use tftp_stress_test.Common.{ℕ, ◌/◌, ◌^◌, Bool, true, false, Option, none, some, if◌then◌else◌}
use tftp_stress_test.Double.{Double}
use tftp_stress_test.Prng.{next_u64, uniform_in_range}

module _ {W : Type 0} ⦃d : Double W⦄ where
  unfoldable pub next_unit_double : ℕ → W × ℕ
  next_unit_double state =
      (d.mul (d.of_number ((next_u64 state).0 / 2 ^ 11)) d.unit_scale, (next_u64 state).1)

  unfoldable pub bernoulli : W → ℕ → Bool × ℕ
  bernoulli probability state =
      if d.le probability d.nought
      then (false, state)
      else if d.le d.one probability
      then (true, state)
      else (d.lt (next_unit_double state).0 probability, (next_unit_double state).1)

abbrev pub taken : ℕ → ℕ → Option (ℕ × ℕ) → ℕ × ℕ
taken low state none = (low, state)
taken low state (some draw) = draw

-- The 2 ^ 64 rounds are enough from every state.
unfoldable pub draw_in_range : ℕ → ℕ → ℕ → ℕ × ℕ
draw_in_range low high state = taken low state (uniform_in_range (2 ^ 64) low high state)
