-- ===== src/Json/Parse.antt =====
-- src/metrics/json_writer.cpp, the parser. What the code has not read yet stands for `text_` and `position_`.
use tftp_stress_test.Common.{
  ℕ, zero, suc, ◌+◌, ◌-◌, ◌*◌, ◌/◌, Bool, true, false, not, ◌&&◌, ◌||◌, Option, none, some, [], ◌∷◌,
  ◌++◌, Bytes, ltb, leb, ◌==◌, if◌then◌else◌, is_empty, length, take, drop, same_bytes, bit_and,
  bit_or, text,
}
use tftp_stress_test.Json.{
  Numbers, JsonValue, JsonElements, JsonMembers, null, boolean, number, string, array, object,
  no_elements, no_members, set_member, append_element,
}

-- `false` of the source is `failed`; the recursion's fuel has an outcome of its own.
pub data Reading {ℓ} (A : Type ℓ) : Type ℓ where
  ok : A → Bytes → Reading A
  failed : Reading A
  out_of_fuel : Reading A

abbrev pub bind {ℓ κ} : {A : Type ℓ} {B : Type κ} → Reading A → (A → Bytes → Reading B) → Reading B
bind (ok a rest) next = next a rest
bind failed next = failed
bind out_of_fuel next = out_of_fuel

abbrev pub is_whitespace : ℕ → Bool
is_whitespace c = (((c == 32) || (c == 9)) || (c == 10)) || (c == 13)

unfoldable pub skip_whitespace : Bytes → Bytes
skip_whitespace [] = []
skip_whitespace (c ∷ rest) =
    let later = skip_whitespace rest in if is_whitespace c then later else c ∷ rest

-- `!at_end() && peek() == c`
abbrev pub starts : ℕ → Bytes → Bool
starts c [] = false
starts c (d ∷ rest) = d == c

abbrev pub tail : Bytes → Bytes
tail [] = []
tail (c ∷ rest) = rest

-- The digits '0'-'9', 'a'-'f' and 'A'-'F'.
unfoldable pub hex_value : ℕ → Option ℕ
hex_value h =
    if leb b'0' h && leb h b'9'
    then some (h - b'0')
    else if leb b'a' h && leb h b'f'
    then some (h - b'a' + 10)
    else if leb b'A' h && leb h b'F'
    then some (h - b'A' + 10)
    else none

-- `count` more digits behind `code`.
unfoldable pub read_hex : ℕ → ℕ → Bytes → Reading ℕ
read_hex zero code rest = ok code rest
read_hex (suc count) code [] = failed
read_hex (suc count) code (h ∷ rest) = elim (hex_value h) [
  | none ↦ failed
  | some d ↦ read_hex count (bit_or (code * 16) d) rest
]

unfoldable pub utf8 : ℕ → Bytes
utf8 code =
    if ltb code 0x80
    then code ∷ []
    else if ltb code 0x800
    then bit_or 0xC0 (code / 64) ∷ bit_or 0x80 (bit_and code 0x3F) ∷ []
    else bit_or 0xE0 (code / 4096)
      ∷ bit_or 0x80 (bit_and (code / 64) 0x3F)
      ∷ bit_or 0x80 (bit_and code 0x3F)
      ∷ []

-- What stands behind a backslash.
unfoldable pub read_escape : Bytes → Reading Bytes
read_escape [] = failed
read_escape (escaped ∷ rest) =
    if escaped == b'"'
    then ok (b'"' ∷ []) rest
    else if escaped == b'\\'
    then ok (b'\\' ∷ []) rest
    else if escaped == b'/'
    then ok (b'/' ∷ []) rest
    else if escaped == b'b'
    then ok (8 ∷ []) rest
    else if escaped == b'f'
    then ok (12 ∷ []) rest
    else if escaped == b'n'
    then ok (10 ∷ []) rest
    else if escaped == b'r'
    then ok (13 ∷ []) rest
    else if escaped == b't'
    then ok (9 ∷ []) rest
    else if escaped == b'u'
    then bind (read_hex 4 0 rest) (λ code behind. ok (utf8 code) behind)
    else failed

-- The loop of `parse_string`; every round reads a character.
unfoldable pub read_string : ℕ → Bytes → Bytes → Reading Bytes
read_string zero out rest = out_of_fuel
read_string (suc rounds) out [] = failed
read_string (suc rounds) out (c ∷ rest) =
    let escape =
      bind (read_escape rest) (λ piece behind. read_string rounds (out ++ piece) behind) in
    let plain = read_string rounds (out ++ c ∷ []) rest in
    if c == b'"' then ok out rest else if c == b'\\' then escape else plain

unfoldable pub parse_string : Bytes → Reading Bytes
parse_string rest =
    if starts b'"' rest then read_string (suc (length rest)) [] (tail rest) else failed

abbrev pub is_number_char : ℕ → Bool
is_number_char c =
    (((((leb b'0' c && leb c b'9') || (c == b'-')) || (c == b'+')) || (c == b'.')) || (c == b'e'))
    || (c == b'E')

-- The token that the loop of `parse_number` runs over, and what stands behind it.
unfoldable pub number_token : Bytes → Bytes
number_token [] = []
number_token (c ∷ rest) =
    let later = number_token rest in if is_number_char c then c ∷ later else []

unfoldable pub behind_number : Bytes → Bytes
behind_number [] = []
behind_number (c ∷ rest) =
    let later = behind_number rest in if is_number_char c then later else c ∷ rest

-- `token.find(c) != std::string::npos`
unfoldable pub finds : ℕ → Bytes → Bool
finds c [] = false
finds c (d ∷ rest) = (d == c) || finds c rest

-- `text_.compare(position_, length, word) == 0`
abbrev pub at_word : Bytes → Bytes → Bool
at_word word rest = same_bytes (take (length word) rest) word

module _ {W : Type 0} where
  unfoldable pub parse_bool : Bytes → Reading (JsonValue W)
  parse_bool rest =
      if at_word (text "true") rest
      then ok (boolean true) (drop 4 rest)
      else if at_word (text "false") rest
      then ok (boolean false) (drop 5 rest)
      else failed

  unfoldable pub parse_null : Bytes → Reading (JsonValue W)
  parse_null rest = if at_word (text "null") rest then ok null (drop 4 rest) else failed

module _ {W : Type 0} ⦃numbers : Numbers W⦄ where
  abbrev pub number_of : Bytes → W → JsonValue W
  number_of token value =
      if (not (finds b'.' token) && not (finds b'e' token)) && not (finds b'E' token)
      then number (numbers.of_integer (numbers.to_integer value)) true
      else number value false

  unfoldable pub parse_number : Bytes → Reading (JsonValue W)
  parse_number rest =
      if is_empty (number_token rest) then failed else elim (numbers.stod (number_token rest)) [
        | none ↦ failed
        | some value ↦ ok (number_of (number_token rest) value) (behind_number rest)
      ]

  -- `parse_elements` and `parse_members` are the loops of `parse_array` and `parse_object`.
  unfoldable mutual
    pub parse_value : ℕ → Bytes → Reading (JsonValue W)
    parse_value zero rest = out_of_fuel
    parse_value (suc fuel) rest =
        let at = skip_whitespace rest in
        let inside = skip_whitespace (tail at) in
        let ms = parse_members fuel no_members inside in
        let es = parse_elements fuel no_elements inside in
        if is_empty at
        then failed
        else if starts b'{' at
        then (if starts b'}' inside then ok (object no_members) (tail inside) else ms)
        else if starts b'[' at
        then (if starts b']' inside then ok (array no_elements) (tail inside) else es)
        else if starts b'"' at
        then bind (parse_string at) (λ s behind. ok (string s) behind)
        else if starts b't' at || starts b'f' at
        then parse_bool at
        else if starts b'n' at
        then parse_null at
        else parse_number at

    pub parse_elements : ℕ → JsonElements W → Bytes → Reading (JsonValue W)
    parse_elements zero out rest = out_of_fuel
    parse_elements (suc fuel) out rest = bind (parse_value fuel rest) λ value behind.
        let at = skip_whitespace behind in
        let more = parse_elements fuel (append_element out value) (tail at) in
        if starts b',' at
        then more
        else if starts b']' at
        then ok (array (append_element out value)) (tail at)
        else failed

    pub parse_members : ℕ → JsonMembers W → Bytes → Reading (JsonValue W)
    parse_members zero out rest = out_of_fuel
    parse_members (suc fuel) out rest = bind (parse_string (skip_whitespace rest)) λ key behind_key.
        let value_read = bind (parse_value fuel (tail (skip_whitespace behind_key))) λ value behind.
          let at = skip_whitespace behind in
          let more = parse_members fuel (set_member out key value) (tail at) in
          if starts b',' at
          then more
          else if starts b'}' at
          then ok (object (set_member out key value)) (tail at)
          else failed in
        if starts b':' (skip_whitespace behind_key) then value_read else failed

  -- Behind the value stands nothing but white space.
  abbrev pub ended : Reading (JsonValue W) → Reading (JsonValue W)
  ended (ok value rest) = if is_empty (skip_whitespace rest) then ok value [] else failed
  ended failed = failed
  ended out_of_fuel = out_of_fuel

  unfoldable pub parse_json : Bytes → Reading (JsonValue W)
  parse_json document = ended (parse_value (2 * length document + 2) (skip_whitespace document))
