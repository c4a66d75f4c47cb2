-- ===== src/Json/Within.antt =====
-- The parts of the parser of src/metrics/json_writer.cpp that call nothing back: each reads something.
use tftp_stress_test.Common.{
  ℕ, zero, suc, ◌≤◌, ◌<◌, ◌≡◌, refl, arith, Bool, true, false, [], ◌∷◌, ◌++◌, Bytes, ◌==◌,
  if◌then◌else◌, length, length-drop, text, Option-cases, inl, inr,
}
use tftp_stress_test.Json.Parse.{
  Reading, ok, failed, out_of_fuel, bind, skip_whitespace, starts, tail, hex_value, read_hex,
  read_escape, read_string, parse_string, behind_number, at_word, parse_bool, parse_null,
}

-- The reading has an outcome, and leaves fewer than `n` characters.
abbrev pub Within {ℓ} : {A : Type ℓ} → ℕ → Reading A → Type 0
Within n (ok a rest) = length rest < n
Within n failed = Unit
Within n out_of_fuel = ⊥

pub Within-mono {ℓ} : {A : Type ℓ} (n m : ℕ) (r : Reading A) → n ≤ m → Within n r → Within m r
Within-mono n m (ok a rest) le h = omega arith
Within-mono n m failed le h = tt
Within-mono n m out_of_fuel le h = absurd h

pub bind-Within {ℓ κ} :
    {A : Type ℓ} {B : Type κ} (n m : ℕ) (r : Reading A) (next : A → Bytes → Reading B)
    → Within n r
    → ((a : A) (rest : Bytes) → length rest < n → Within m (next a rest))
    → Within m (bind r next)
bind-Within n m (ok a rest) next h each = each a rest h
bind-Within n m failed next h each = tt
bind-Within n m out_of_fuel next h each = absurd h

pub if-Within {ℓ} :
    {A : Type ℓ} (n : ℕ) (b : Bool) (r s : Reading A)
    → (b ≡ true → Within n r)
    → Within n s
    → Within n (if b then r else s)
if-Within n true r s h k = h refl
if-Within n false r s h k = k

pub length-skip_whitespace : (rest : Bytes) → length (skip_whitespace rest) ≤ length rest
unfolding skip_whitespace
length-skip_whitespace [] = omega arith
length-skip_whitespace (c ∷ rest) = let h = length-skip_whitespace rest in ground (arith, h)

pub length-behind_number : (rest : Bytes) → length (behind_number rest) ≤ length rest
unfolding behind_number
length-behind_number [] = omega arith
length-behind_number (c ∷ rest) = let h = length-behind_number rest in ground (arith, h)

pub tail_shorter :
    (c : ℕ) (rest : Bytes) → starts c rest ≡ true → suc (length (tail rest)) ≡ length rest
tail_shorter c [] h = cc
tail_shorter c (d ∷ rest) h = refl

read_hex-Within :
    (count code : ℕ) (rest : Bytes) → Within (suc (length rest)) (read_hex count code rest)
unfolding read_hex
read_hex-Within zero code rest = omega arith
read_hex-Within (suc count) code [] = tt
read_hex-Within (suc count) code (h ∷ rest) = elim (Option-cases (hex_value h)) [
  | inl e ↦ rw (e, read_hex) tt
  | inr (d, e) ↦
      rw (e, read_hex)
        (Within-mono _ _ (read_hex count _ rest) (omega arith) (read_hex-Within count _ rest))
]

read_escape-Within : (rest : Bytes) → Within (length rest) (read_escape rest)
unfolding read_escape
read_escape-Within [] = tt
read_escape-Within (c ∷ rest) =
    let plain : length rest < suc (length rest) = omega arith in
    if-Within _ (c == b'"') _ _ (λ e. plain)
      (if-Within _ (c == b'\\') _ _ (λ e. plain)
        (if-Within _ (c == b'/') _ _ (λ e. plain)
          (if-Within _ (c == b'b') _ _ (λ e. plain)
            (if-Within _ (c == b'f') _ _ (λ e. plain)
              (if-Within _ (c == b'n') _ _ (λ e. plain)
                (if-Within _ (c == b'r') _ _ (λ e. plain)
                  (if-Within _ (c == b't') _ _ (λ e. plain)
                    (if-Within _ (c == b'u') _ _
                      (λ e.
                        bind-Within _ _ (read_hex 4 0 rest) _ (read_hex-Within 4 0 rest)
                          (λ a r h. h))
                      tt))))))))

read_string-Within :
    (rounds : ℕ) (out rest : Bytes)
    → length rest < rounds
    → Within (length rest) (read_string rounds out rest)
unfolding read_string
read_string-Within zero out rest h = absurd (omega arith)
read_string-Within (suc rounds) out [] h = tt
read_string-Within (suc rounds) out (c ∷ rest) h =
    if-Within _ (c == b'"') _ _ (λ e. omega arith)
      (if-Within _ (c == b'\\') _ _
        (λ e. bind-Within _ _ (read_escape rest) _ (read_escape-Within rest) (λ piece behind l.
          Within-mono _ _ (read_string rounds (out ++ piece) behind) (omega (arith, l))
            (read_string-Within rounds (out ++ piece) behind (omega (arith, l, h)))))
        (Within-mono _ _ (read_string rounds (out ++ c ∷ []) rest) (omega arith)
          (read_string-Within rounds (out ++ c ∷ []) rest (omega (arith, h)))))

pub parse_string-Within : (rest : Bytes) → Within (length rest) (parse_string rest)
unfolding parse_string
parse_string-Within rest =
    if-Within _ (starts b'"' rest) _ _
      (λ e.
        let shorter = tail_shorter b'"' rest e in
        Within-mono _ _ (read_string _ [] (tail rest)) (omega (arith, shorter))
          (read_string-Within _ [] (tail rest) (omega (arith, shorter))))
      tt

module _ (W : Type 0) where
  pub parse_bool-Within : (rest : Bytes) → Within (length rest) (parse_bool {W = W} rest)
  unfolding parse_bool text
  parse_bool-Within [] = tt
  parse_bool-Within (c ∷ rest) =
      if-Within _ (at_word (text "true") (c ∷ rest)) _ _ (λ e. omega (arith, length-drop 3 rest))
        (if-Within _ (at_word (text "false") (c ∷ rest)) _ _
          (λ e. omega (arith, length-drop 4 rest)) tt)

  pub parse_null-Within : (rest : Bytes) → Within (length rest) (parse_null {W = W} rest)
  unfolding parse_null text
  parse_null-Within [] = tt
  parse_null-Within (c ∷ rest) =
      if-Within _ (at_word (text "null") (c ∷ rest)) _ _ (λ e. omega (arith, length-drop 3 rest)) tt
