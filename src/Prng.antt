-- ===== src/Prng.antt =====
-- src/net/deterministic_prng.hpp: SplitMix64 on 64-bit words. The generator is its state; a draw gives the
-- value and the next state.
pub mod Range
pub mod Bernoulli
mod Runs
use tftp_stress_test.Common.{
  ℕ, zero, suc, ◌+◌, ◌-◌, ◌*◌, ◌/◌, ◌%◌, ◌^◌, bit_xor, Option, none, some, ltb, leb, ◌==◌,
  if◌then◌else◌,
}

abbrev pub gamma : ℕ
gamma = 0x9E3779B97F4A7C15

-- The statements of `next_u64` behind the addition.
unfoldable pub mix : ℕ → ℕ
mix z0 =
    let z1 = bit_xor z0 (z0 / 2 ^ 30) * 0xBF58476D1CE4E5B9 % 2 ^ 64 in
    let z2 = bit_xor z1 (z1 / 2 ^ 27) * 0x94D049BB133111EB % 2 ^ 64 in bit_xor z2 (z2 / 2 ^ 31)

abbrev pub advance : ℕ → ℕ
advance state = (state + gamma) % 2 ^ 64

unfoldable pub next_u64 : ℕ → ℕ × ℕ
next_u64 state = (mix (advance state), advance state)

-- The loop of `uniform_in_range`, with the rounds that it has left.
unfoldable pub draw_above : ℕ → ℕ → ℕ → Option (ℕ × ℕ)
draw_above zero threshold state = none
draw_above (suc rounds) threshold state =
    let rest = draw_above rounds threshold (next_u64 state).1 in
    if leb threshold (next_u64 state).0 then some (next_u64 state) else rest

abbrev pub shifted : ℕ → ℕ → Option (ℕ × ℕ) → Option (ℕ × ℕ)
shifted low limit none = none
shifted low limit (some (value, state)) = some (low + value % limit, state)

unfoldable pub uniform_in_range : ℕ → ℕ → ℕ → ℕ → Option (ℕ × ℕ)
uniform_in_range rounds low high state =
    let span = high - low in
    let limit = span + 1 in
    let threshold = (2 ^ 64 - 1 - limit + 1) % limit in
    if leb high low
    then some (low, state)
    else if span == 2 ^ 64 - 1
    then some (next_u64 state)
    else shifted low limit (draw_above rounds threshold state)
