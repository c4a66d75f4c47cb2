-- ===== src/Common/Number.antt =====
-- `std::stoul` and `std::stoull` on a platform where `unsigned long` has 64 bits.
use Prim.Native.Nat.{ℕ, zero, suc, ◌+◌, ◌-◌, ◌*◌, ◌/◌, ◌%◌, ◌^◌, ◌<◌}
use mathlib.Core.Path.{◌≡◌, refl, sym, ap, ◌∙◌}
use mathlib.Core.Logic.{inl, inr}
use mathlib.Core.List.{[], ◌∷◌, ◌++◌, append-nil, append_assoc}
use mathlib.Core.Bool.{Bool, true, ◌&&◌, ◌||◌}
use mathlib.Core.Option.{Option, none, some}
use native.Mathlib.Omega.{arith}
use tftp_stress_test.Common.Tests.{ltb, leb, ◌==◌, if◌then◌else◌, Bool-cases, ltb→lt}
use tftp_stress_test.Common.Text.{Bytes, to_string, decimal}

-- `isspace` in the "C" locale.
abbrev pub is_space : ℕ → Bool
is_space b = (b == 32) || (leb 9 b && leb b 13)

abbrev pub is_digit : ℕ → Bool
is_digit b = leb 48 b && leb b 57

-- The value of the digits in front, behind `value`.
unfoldable pub digits : ℕ → Bytes → ℕ
digits value [] = value
digits value (b ∷ rest) = if is_digit b then digits (value * 10 + (b - 48)) rest else value

-- `none` where the source throws: no digit, or a value past 64 bits.
unfoldable pub magnitude : Bytes → Option ℕ
magnitude [] = none
magnitude (b ∷ rest) =
    if is_digit b && ltb (digits 0 (b ∷ rest)) (2 ^ 64) then some (digits 0 (b ∷ rest)) else none

abbrev negated : Option ℕ → Option ℕ
negated none = none
negated (some n) = some ((2 ^ 64 - n) % 2 ^ 64)

unfoldable pub signed : Bytes → Option ℕ
signed [] = none
signed (b ∷ rest) =
    if b == b'-'
    then negated (magnitude rest)
    else if b == b'+'
    then magnitude rest
    else magnitude (b ∷ rest)

-- `none` for an exception.
unfoldable pub stoul : Bytes → Option ℕ
stoul [] = none
stoul (b ∷ rest) = let skipped = stoul rest in if is_space b then skipped else signed (b ∷ rest)

digits_step :
    (value d : ℕ) (rest : Bytes)
    → d < 10
    → digits value ((48 + d) ∷ rest) ≡ digits (value * 10 + d) rest
unfolding digits
digits_step value d rest h = ground arith

digits-decimal :
    (rounds n : ℕ) (rest : Bytes) → n < rounds → digits 0 (decimal rounds n ++ rest) ≡ digits n rest
unfolding decimal
digits-decimal zero n rest h = absurd (omega arith)
digits-decimal (suc rounds) n rest h = elim (Bool-cases (ltb n 10)) [
  | inl e ↦
      rw (e, decimal) (digits_step 0 n rest (ltb→lt _ _ e) ∙ ap (λ v. digits v rest) (omega arith))
  | inr e ↦
      let value : n / 10 * 10 + n % 10 ≡ n = omega arith in
      rw (e, decimal, append_assoc)
        (digits-decimal rounds (n / 10) _ (ground arith)
          ∙ digits_step (n / 10) (n % 10) rest (omega arith)
          ∙ ap (λ v. digits v rest) value)
]

-- The first digit, of which there is one.
decimal_head :
    (rounds n : ℕ)
    → (b : ℕ) × (rest : Bytes) × (decimal (suc rounds) n ≡ b ∷ rest) × (is_digit b ≡ true)
unfolding decimal
decimal_head zero n = elim (Bool-cases (ltb n 10)) [
  | inl e ↦ rw (e, decimal) (48 + n, [], refl, ground arith)
  | inr e ↦ rw (e, decimal) (48 + n % 10, [], refl, ground arith)
]
decimal_head (suc rounds) n = elim (Bool-cases (ltb n 10)) [
  | inl e ↦ rw (e, decimal) (48 + n, [], refl, ground arith)
  | inr e ↦
      let (b, rest, f, d) = decimal_head rounds (n / 10) in
      rw (e, decimal) (b, rest ++ (48 + n % 10) ∷ [], ap (λ s. s ++ (48 + n % 10) ∷ []) f, d)
]

stoul-digits :
    (b : ℕ) (rest : Bytes)
    → is_digit b ≡ true
    → digits 0 (b ∷ rest) < 2 ^ 64
    → stoul (b ∷ rest) ≡ some (digits 0 (b ∷ rest))
unfolding stoul signed magnitude
stoul-digits b rest d h = ground arith

pub to_string_head :
    (n : ℕ) → (b : ℕ) × (rest : Bytes) × (to_string n ≡ b ∷ rest) × (is_digit b ≡ true)
unfolding to_string
to_string_head n = decimal_head n n

digits-to_string : (n : ℕ) → digits 0 (to_string n) ≡ n
unfolding to_string digits
digits-to_string n =
    ap (λ s. digits 0 s) (sym (append-nil (to_string n)))
    ∙ digits-decimal (suc n) n [] (omega arith)

-- A number of 64 bits is read back from its digits.
pub stoul-to_string : (n : ℕ) → n < 2 ^ 64 → stoul (to_string n) ≡ some n
stoul-to_string n h =
    let (b, rest, e, d) = to_string_head n in
    let value : digits 0 (b ∷ rest) ≡ n = ap (λ s. digits 0 s) (sym e) ∙ digits-to_string n in
    ap stoul e ∙ stoul-digits b rest d (omega (arith, value)) ∙ ap some value

magnitude_bound : (s : Bytes) (n : ℕ) → magnitude s ≡ some n → n < 2 ^ 64
unfolding magnitude
magnitude_bound [] n h = cc
magnitude_bound (b ∷ rest) n h = ground arith

negated_bound : (m : Option ℕ) (n : ℕ) → negated m ≡ some n → n < 2 ^ 64
negated_bound none n h = cc
negated_bound (some k) n h = ground arith

signed_bound : (s : Bytes) (n : ℕ) → signed s ≡ some n → n < 2 ^ 64
unfolding signed
signed_bound [] n h = cc
signed_bound (b ∷ rest) n h =
    ground (
      arith,
      magnitude_bound rest n,
      magnitude_bound (b ∷ rest) n,
      negated_bound (magnitude rest) n,
    )

pub stoul_bound : (s : Bytes) (n : ℕ) → stoul s ≡ some n → n < 2 ^ 64
unfolding stoul
stoul_bound [] n h = cc
stoul_bound (b ∷ rest) n h = ground (arith, stoul_bound rest n, signed_bound (b ∷ rest) n)
