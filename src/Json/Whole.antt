-- ===== src/Json/Whole.antt =====
-- Whole numbers of src/metrics/json_writer.cpp: what `format_number` writes of them, `parse_number` reads.
use tftp_stress_test.Common.{
  ℕ, zero, suc, ◌/◌, ◌^◌, ◌<◌, ◌≡◌, refl, sym, ap, ◌∙◌, Bool, true, false, not, ◌||◌, some, [], ◌∷◌,
  ◌++◌, arith, Bytes, ltb, ◌==◌, Bool-cases, inl, inr, is_empty, All, All-append, is_digit, decimal,
  to_string, to_string_head, ℤ, pos, negsuc, abs, print_integer,
}
use tftp_stress_test.Json.{Numbers, number, format_number}
use tftp_stress_test.Json.Parse.{
  ok, is_number_char, number_token, behind_number, finds, number_of, parse_number,
}

-- The characters of a printed integer.
abbrev pub is_integer_char : ℕ → Bool
is_integer_char c = is_digit c || (c == b'-')

abbrev IsIntegerText : Bytes → Type 0
IsIntegerText s = All (λ c. is_integer_char c ≡ true) s

decimal-IsIntegerText : (rounds n : ℕ) → IsIntegerText (decimal rounds n)
unfolding decimal
decimal-IsIntegerText zero n = tt
decimal-IsIntegerText (suc rounds) n = elim (Bool-cases (ltb n 10)) [
  | inl e ↦ rw (e, decimal) (ground arith, tt)
  | inr e ↦
      rw (e, decimal)
        (All-append (λ c. is_integer_char c ≡ true) (decimal rounds (n / 10)) _
          (decimal-IsIntegerText rounds (n / 10)) (ground arith, tt))
]

print_integer-IsIntegerText : (n : ℤ) → IsIntegerText (print_integer n)
unfolding print_integer to_string
print_integer-IsIntegerText (pos n) = decimal-IsIntegerText (suc n) n
print_integer-IsIntegerText (negsuc n) = (refl, decimal-IsIntegerText (suc (suc n)) (suc n))

pub print_integer_head :
    (n : ℤ) → (c : ℕ) × (s : Bytes) × (print_integer n ≡ c ∷ s) × (is_integer_char c ≡ true)
unfolding print_integer
print_integer_head (pos n) =
    let (c, s, e, digit) = to_string_head n in (c, s, e, ground (arith, digit))
print_integer_head (negsuc n) = (b'-', to_string (suc n), refl, refl)

-- Nothing of a number stands in front.
abbrev pub ends_number : Bytes → Bool
ends_number [] = true
ends_number (c ∷ rest) = not (is_number_char c)

number_token-append :
    (s rest : Bytes)
    → IsIntegerText s
    → ends_number rest ≡ true
    → (number_token (s ++ rest) ≡ s) × (behind_number (s ++ rest) ≡ rest)
unfolding number_token behind_number
number_token-append [] [] h e = (refl, refl)
number_token-append [] (c ∷ rest) h e = ground arith
number_token-append (c ∷ s) rest h e =
    let (token, behind) = number_token-append s rest h.1 e in
    let numeric : is_number_char c ≡ true = let digit = h.0 in ground (arith, digit) in
    rw (numeric, number_token, behind_number) (ap (λ t. c ∷ t) token, behind)

finds-IsIntegerText :
    (c : ℕ) (s : Bytes) → is_integer_char c ≡ false → IsIntegerText s → finds c s ≡ false
unfolding finds
finds-IsIntegerText c [] other h = refl
finds-IsIntegerText c (d ∷ s) other h =
    let here = h.0 in
    let later = finds-IsIntegerText c s other h.1 in
    let differs : (d == c) ≡ false = elim (Bool-cases (d == c)) [
      | inl e ↦
          let same : d ≡ c = ground (arith, e) in
          let both : true ≡ false = sym here ∙ ap is_integer_char same ∙ other in cc
      | inr e ↦ e
    ] in
    rw (differs, later)

-- What the code relies on when it prints and reads a whole number that a `double` holds exactly.
pub record IsNumbers (W : Type 0) ⦃numbers : Numbers W⦄ : Type 0 where
  pub whole : (n : ℤ) → abs n < 2 ^ 53 → numbers.is_whole (numbers.of_integer n) ≡ true
  pub within : (n : ℤ) → abs n < 2 ^ 53 → numbers.abs_below (2 ^ 53) (numbers.of_integer n) ≡ true
  pub back : (n : ℤ) → abs n < 2 ^ 53 → numbers.to_integer (numbers.of_integer n) ≡ n
  pub read : (n : ℤ) → abs n < 2 ^ 53 → numbers.stod (print_integer n) ≡ some (numbers.of_integer n)

module _ {W : Type 0} ⦃numbers : Numbers W⦄ (laws : IsNumbers W) where
  pub format_number-of_integer :
      (n : ℤ) → abs n < 2 ^ 53 → format_number (numbers.of_integer n) true ≡ print_integer n
  unfolding format_number
  format_number-of_integer n h =
      let whole = laws.whole n h in
      let within = laws.within n h in let back = laws.back n h in rw (whole, within, back)

  pub parse_number-print_integer :
      (n : ℤ) (rest : Bytes)
      → abs n < 2 ^ 53
      → ends_number rest ≡ true
      → parse_number (print_integer n ++ rest) ≡ ok (number (numbers.of_integer n) true) rest
  unfolding parse_number
  parse_number-print_integer n rest h e =
      let all = print_integer-IsIntegerText n in
      let (token, behind) = number_token-append (print_integer n) rest all e in
      let (c, s, head, digit) = print_integer_head n in
      let some_token : is_empty (print_integer n) ≡ false = rw head in
      let read = laws.read n h in
      let dot = finds-IsIntegerText b'.' (print_integer n) refl all in
      let small_e = finds-IsIntegerText b'e' (print_integer n) refl all in
      let big_e = finds-IsIntegerText b'E' (print_integer n) refl all in
      let back = laws.back n h in
      let made : number_of (print_integer n) (numbers.of_integer n)
          ≡ number (numbers.of_integer n) true =
        rw (dot, small_e, big_e, back) in
      rw (token, some_token, read, behind, token, made)
