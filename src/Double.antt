-- ===== src/Double.antt =====
-- What the impairment code asks of a `double`: constants, comparisons, arithmetic and casts are parameters.
use tftp_stress_test.Common.{ℕ, Bool, true, false, ◌≡◌}

pub record Double (W : Type 0) : Type 0 where
  pub nought : W
  pub one : W
  pub thousand : W
  -- `1.0 / 9007199254740992.0`
  pub unit_scale : W
  pub le : W → W → Bool
  pub lt : W → W → Bool
  pub add : W → W → W
  pub sub : W → W → W
  pub mul : W → W → W
  pub div : W → W → W
  pub neg : W → W
  -- `static_cast<double>` of an unsigned number, and `static_cast<long long>`
  pub of_number : ℕ → W
  pub to_number : W → ℕ
  -- `std::chrono::duration<double>(now - before).count()`
  pub seconds_since : ℕ → ℕ → W

-- The comparisons of the two constants, as IEEE 754 has them.
pub record IsDouble (W : Type 0) ⦃d : Double W⦄ : Type 0 where
  pub nought_le : d.le d.nought d.nought ≡ true
  pub one_le : d.le d.one d.one ≡ true
  pub one_above : d.le d.one d.nought ≡ false
