-- ===== src/Prng/Range.antt =====
-- The range draw of src/net/deterministic_prng.hpp ends, and inside its range.
use tftp_stress_test.Common.{
  ℕ, zero, suc, ◌+◌, ◌-◌, ◌*◌, ◌/◌, ◌%◌, ◌^◌, ◌≤◌, ◌<◌, ◌≡◌, refl, true, false, ap, ◌∙◌, bit_xor,
  bit_xor_bound, some, arith, leb, ◌==◌, Bool-cases, inl, inr, max,
}
use native.Mathlib.Nat.{mod-lt}
use tftp_stress_test.Prng.{gamma, mix, advance, next_u64, draw_above, uniform_in_range}

mix_bound : (z : ℕ) → z < 2 ^ 64 → mix z < 2 ^ 64
unfolding mix
mix_bound z h =
    let z1 = bit_xor z (z / 2 ^ 30) * 0xBF58476D1CE4E5B9 % 2 ^ 64 in
    let z2 = bit_xor z1 (z1 / 2 ^ 27) * 0x94D049BB133111EB % 2 ^ 64 in
    bit_xor_bound 64 z2 (z2 / 2 ^ 31) (omega arith) (omega arith)

pub next_u64_bound : (state : ℕ) → (next_u64 state).0 < 2 ^ 64
unfolding next_u64
next_u64_bound state = mix_bound (advance state) (omega arith)

-- The state from which the next word is the largest.
abbrev top_state : ℕ
top_state = 0xcf9a04affa6badc0

mix-top_state : mix top_state ≡ 2 ^ 64 - 1
unfolding mix
mix-top_state = refl

draw_above_finds :
    (n rounds threshold state : ℕ)
    → n < rounds
    → threshold < 2 ^ 64
    → (state + suc n * gamma) % 2 ^ 64 ≡ top_state
    → (value : ℕ) × (next : ℕ) × (draw_above rounds threshold state ≡ some (value, next))
unfolding draw_above next_u64
draw_above_finds n zero threshold state h t e = absurd (omega arith)
draw_above_finds zero (suc rounds) threshold state h t e =
    let top : advance state ≡ top_state = omega (arith, e) in
    let largest : mix (advance state) ≡ 2 ^ 64 - 1 = ap mix top ∙ mix-top_state in
    let taken : leb threshold (mix (advance state)) ≡ true = ground (arith, largest) in
    rw taken (mix (advance state), advance state, refl)
draw_above_finds (suc n) (suc rounds) threshold state h t e =
    elim (Bool-cases (leb threshold (mix (advance state)))) [
      | inl f ↦ rw f (mix (advance state), advance state, refl)
      | inr f ↦
          rw f
            (draw_above_finds n rounds threshold (advance state) (omega arith) t (omega (arith, e)))
    ]

-- The inverse of `gamma` among the 64-bit words.
abbrev gamma_inverse : ℕ
gamma_inverse = 17428512612931826493

-- The multiple of `gamma` that leads from one state to another.
distance :
    (state : ℕ)
    → state < 2 ^ 64
    → (n : ℕ) × (n < 2 ^ 64) × ((state + suc n * gamma) % 2 ^ 64 ≡ top_state)
distance state h =
    let d = (top_state + 2 ^ 64 - state) % 2 ^ 64 in
    let n = (d * gamma_inverse + 2 ^ 64 - 1) % 2 ^ 64 in (n, omega arith, omega arith)

draw_above_ends :
    (threshold state : ℕ)
    → threshold < 2 ^ 64
    → state < 2 ^ 64
    → (value : ℕ) × (next : ℕ) × (draw_above (2 ^ 64) threshold state ≡ some (value, next))
draw_above_ends threshold state t h =
    let (n, few, e) = distance state h in draw_above_finds n (2 ^ 64) threshold state few t e

leb→gt : (a b : ℕ) → leb a b ≡ false → b < a
leb→gt a b h = ground arith

-- A draw from `low` to `high` comes back within 2 ^ 64 rounds from every state, whatever the two bounds are,
-- and between them: the words of the generator go through all states, and one of them is not rejected.
pub uniform_in_range_ends :
    (low high state : ℕ)
    → high < 2 ^ 64
    → state < 2 ^ 64
    → (value : ℕ) × (next : ℕ) × (uniform_in_range (2 ^ 64) low high state ≡ some (value, next))
      × (low ≤ value)
      × (value ≤ max low high)
unfolding uniform_in_range
uniform_in_range_ends low high state h s = elim (Bool-cases (leb high low)) [
  | inl e ↦ rw e (low, state, refl, omega arith, omega arith)
  | inr e ↦ elim (Bool-cases ((high - low) == 2 ^ 64 - 1)) [
    | inl f ↦
        rw (e, f)
          (
            (next_u64 state).0,
            (next_u64 state).1,
            refl,
            ground arith,
            ground (arith, next_u64_bound state),
          )
    | inr f ↦
        let limit = high - low + 1 in
        let threshold = (2 ^ 64 - 1 - limit + 1) % limit in
        let positive : 0 < limit = omega arith in
        let t : threshold < 2 ^ 64 =
          omega (arith, mod-lt (2 ^ 64 - 1 - limit + 1) positive, leb→gt high low e) in
        let (value, next, g) = draw_above_ends threshold state t s in
        let inside : low + value % limit ≤ max low high =
          omega (arith, mod-lt value positive, leb→gt high low e) in
        rw (e, f, g) (low + value % limit, next, refl, omega arith, inside)
  ]
]
