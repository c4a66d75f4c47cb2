-- ===== src/Json/Escapes.antt =====
-- String literals of src/metrics/json_writer.cpp: what `escape_json_string` writes, `parse_string` reads.
use tftp_stress_test.Common.{
  ℕ, zero, suc, ◌*◌, ◌/◌, ◌%◌, ◌≤◌, ◌<◌, ◌≡◌, refl, sym, ap, ◌∙◌, Bool, true, false, ◌&&◌, some, [],
  ◌∷◌, ◌++◌, append_assoc, append-nil, arith, Bytes, ltb, ◌==◌, Bool-cases, inl, inr, length,
  length-append, bit_or, ltb→lt,
}
use tftp_stress_test.Json.{hex_char, escape_char, escape_chars, escape_json_string}
use tftp_stress_test.Json.Parse.{
  ok, hex_value, read_hex, utf8, read_escape, read_string, parse_string,
}

all_below : (ℕ → Bool) → ℕ → Bool
all_below p zero = true
all_below p (suc n) = p n && all_below p n

below : (p : ℕ → Bool) (n k : ℕ) → all_below p n ≡ true → k < n → p k ≡ true
unfolding all_below
below p zero k h l = absurd (omega arith)
below p (suc n) k h l = elim (Bool-cases (k == n)) [
  | inl e ↦ let same : k ≡ n = ground arith in ap p same ∙ both.0
  | inr e ↦ below p n k both.1 (ground arith)
]
  where
    both : (p n ≡ true) × (all_below p n ≡ true)
    both = ground (arith, h)

-- The digits of a control character, put together by shifts.
rejoins : ℕ → Bool
rejoins c = bit_or (bit_or 0 (c / 16) * 16) (c % 16) == c

rejoined : (c : ℕ) → c < 32 → bit_or (bit_or 0 (c / 16) * 16) (c % 16) ≡ c
unfolding rejoins all_below
rejoined c h = let e = below rejoins 32 c refl h in ground (arith, e)

hex_value-hex_char : (n : ℕ) → n < 16 → hex_value (hex_char n) ≡ some n
unfolding hex_char hex_value
hex_value-hex_char n h = ground arith

read_hex-digit :
    (count code h d : ℕ) (rest : Bytes)
    → hex_value h ≡ some d
    → read_hex (suc count) code (h ∷ rest) ≡ read_hex count (bit_or (code * 16) d) rest
unfolding read_hex
read_hex-digit count code h d rest e = rw (e, read_hex)

hex_value-zero : hex_value b'0' ≡ some 0
unfolding hex_value
hex_value-zero = refl

read_hex-control :
    (c : ℕ) (rest : Bytes)
    → c < 32
    → read_hex 4 0 (b'0' ∷ b'0' ∷ hex_char (c / 16) ∷ hex_char (c % 16) ∷ rest) ≡ ok c rest
unfolding read_hex
read_hex-control c rest h =
    let low = hex_char (c / 16) ∷ hex_char (c % 16) ∷ rest in
    read_hex-digit 3 0 b'0' 0 (b'0' ∷ low) hex_value-zero
    ∙ read_hex-digit 2 0 b'0' 0 low hex_value-zero
    ∙ read_hex-digit 1 0 (hex_char (c / 16)) (c / 16) (hex_char (c % 16) ∷ rest)
        (hex_value-hex_char (c / 16) (omega arith))
    ∙ read_hex-digit 0 _ (hex_char (c % 16)) (c % 16) rest
        (hex_value-hex_char (c % 16) (omega arith))
    ∙ ap (λ n. ok n rest) (rejoined c h)

read_escape-control :
    (c : ℕ) (rest : Bytes)
    → c < 32
    → read_escape (b'u' ∷ b'0' ∷ b'0' ∷ hex_char (c / 16) ∷ hex_char (c % 16) ∷ rest)
      ≡ ok (c ∷ []) rest
unfolding read_escape utf8
read_escape-control c rest h =
    let small : ltb c 0x80 ≡ true = ground arith in
    let e = read_hex-control c rest h in rw (e, small)

-- What is written with a backslash.
escaped_piece :
    (rounds : ℕ) (out : Bytes) (c : ℕ) (behind rest : Bytes)
    → read_escape behind ≡ ok (c ∷ []) rest
    → read_string (suc rounds) out (b'\\' ∷ behind) ≡ read_string rounds (out ++ c ∷ []) rest
unfolding read_string
escaped_piece rounds out c behind rest e = rw e

plain_piece :
    (rounds : ℕ) (out : Bytes) (c : ℕ) (rest : Bytes)
    → (c == b'"') ≡ false
    → (c == b'\\') ≡ false
    → read_string (suc rounds) out (c ∷ rest) ≡ read_string rounds (out ++ c ∷ []) rest
unfolding read_string
plain_piece rounds out c rest quote slash = rw (quote, slash)

-- A written character, by the branch that writes it.
data Written (c : ℕ) : Bytes → Type 0 where
  escaped :
      (letter : ℕ)
      → ((rest : Bytes) → read_escape (letter ∷ rest) ≡ ok (c ∷ []) rest)
      → Written c (b'\\' ∷ letter ∷ [])
  control :
      c < 32 → Written c (b'\\' ∷ b'u' ∷ b'0' ∷ b'0' ∷ hex_char (c / 16) ∷ hex_char (c % 16) ∷ [])
  plain : (c == b'"') ≡ false → (c == b'\\') ≡ false → Written c (c ∷ [])

special :
    (c letter : ℕ) (k : ℕ)
    → (c == k) ≡ true
    → ((rest : Bytes) → read_escape (letter ∷ rest) ≡ ok (k ∷ []) rest)
    → Written c (b'\\' ∷ letter ∷ [])
special c letter k e reads =
    let same : k ≡ c = ground arith in
    escaped letter (λ rest. reads rest ∙ ap (λ n. ok (n ∷ []) rest) same)

escape_char-Written : (c : ℕ) → Written c (escape_char c)
unfolding escape_char read_escape
escape_char-Written c = elim (Bool-cases (c == b'"')) [
  | inl e ↦ rw e (special c b'"' b'"' e (λ rest. refl))
  | inr quote ↦ rw quote (elim (Bool-cases (c == b'\\')) [
    | inl e ↦ rw e (special c b'\\' b'\\' e (λ rest. refl))
    | inr slash ↦ rw slash (elim (Bool-cases (c == 8)) [
      | inl e ↦ rw e (special c b'b' 8 e (λ rest. refl))
      | inr n8 ↦ rw n8 (elim (Bool-cases (c == 12)) [
        | inl e ↦ rw e (special c b'f' 12 e (λ rest. refl))
        | inr n12 ↦ rw n12 (elim (Bool-cases (c == 10)) [
          | inl e ↦ rw e (special c b'n' 10 e (λ rest. refl))
          | inr n10 ↦ rw n10 (elim (Bool-cases (c == 13)) [
            | inl e ↦ rw e (special c b'r' 13 e (λ rest. refl))
            | inr n13 ↦ rw n13 (elim (Bool-cases (c == 9)) [
              | inl e ↦ rw e (special c b't' 9 e (λ rest. refl))
              | inr n9 ↦ rw n9 (elim (Bool-cases (ltb c 0x20)) [
                | inl e ↦ rw e (control (ltb→lt c 32 e))
                | inr e ↦ rw e (plain quote slash)
              ])
            ])
          ])
        ])
      ])
    ])
  ])
]

read_string-Written :
    (rounds : ℕ) (out : Bytes) (c : ℕ) (piece rest : Bytes)
    → Written c piece
    → read_string (suc rounds) out (piece ++ rest) ≡ read_string rounds (out ++ c ∷ []) rest
read_string-Written rounds out c _ rest (escaped letter reads) =
    escaped_piece rounds out c (letter ∷ rest) rest (reads rest)
read_string-Written rounds out c _ rest (control h) =
    escaped_piece rounds out c _ rest (read_escape-control c rest h)
read_string-Written rounds out c _ rest (plain quote slash) =
    plain_piece rounds out c rest quote slash

length-Written : (c : ℕ) (piece : Bytes) → Written c piece → 1 ≤ length piece
length-Written c _ (escaped letter reads) = omega arith
length-Written c _ (control h) = omega arith
length-Written c _ (plain quote slash) = omega arith

read_string-escape_chars :
    (raw : Bytes) (rounds : ℕ) (out rest : Bytes)
    → length (escape_chars raw) < rounds
    → read_string rounds out (escape_chars raw ++ b'"' ∷ rest) ≡ ok (out ++ raw) rest
unfolding escape_chars read_string
read_string-escape_chars raw zero out rest h = absurd (omega arith)
read_string-escape_chars [] (suc rounds) out rest h = ap (λ s. ok s rest) (sym (append-nil out))
read_string-escape_chars (c ∷ raw) (suc rounds) out rest h =
    let written = escape_char-Written c in
    let enough : length (escape_chars raw) < rounds =
      omega (arith, length-append (escape_char c) (escape_chars raw), length-Written c _ written) in
    ap (read_string (suc rounds) out)
      (append_assoc (escape_char c) (escape_chars raw) (b'"' ∷ rest))
    ∙ read_string-Written rounds out c (escape_char c) (escape_chars raw ++ b'"' ∷ rest) written
    ∙ read_string-escape_chars raw rounds (out ++ c ∷ []) rest enough
    ∙ ap (λ s. ok s rest) (append_assoc out (c ∷ []) raw)

-- Any string reads back from its literal, and what stands behind is left.
pub parse_string-escape_json_string :
    (raw rest : Bytes) → parse_string (escape_json_string raw ++ rest) ≡ ok raw rest
unfolding parse_string escape_json_string
parse_string-escape_json_string raw rest =
    ap (λ t. read_string (suc (length (b'"' ∷ t))) [] t)
      (append_assoc (escape_chars raw) (b'"' ∷ []) rest)
    ∙ read_string-escape_chars raw _ [] rest
        (omega (arith, length-append (escape_chars raw) (b'"' ∷ rest)))
