-- ===== src/Json/RoundTrip.antt =====
-- src/metrics/json_writer.cpp: what the writer prints, on one line or indented, the parser reads back.
use tftp_stress_test.Common.{
  ℕ, zero, suc, ◌+◌, ◌*◌, ◌≡◌, refl, sym, ap, ◌∙◌, Bool, true, false, ◌||◌, [], ◌∷◌, ◌++◌,
  append_assoc, append-nil, arith, Bytes, ◌==◌, length, length-append, print_integer, text,
}
use tftp_stress_test.Json.{
  Numbers, JsonValue, JsonElements, JsonMembers, null, boolean, number, string, array, object,
  no_elements, element, no_members, member, indent, colon, escape_json_string, format_number,
  serialize_into, serialize_elements, serialize_members, serialize,
}
use tftp_stress_test.Json.Parse.{
  ok, starts, is_whitespace, skip_whitespace, parse_bool, parse_null, parse_number, parse_value,
  parse_elements, parse_members, ended, parse_json,
}
use tftp_stress_test.Json.Escapes.{parse_string-escape_json_string}
use tftp_stress_test.Json.Whole.{
  IsNumbers, is_integer_char, print_integer_head, format_number-of_integer,
  parse_number-print_integer,
}
use tftp_stress_test.Json.Exact.{
  IsExact, ElementsExact, MembersExact, append_all-no_elements, set_all-no_members,
  skip_whitespace-indent, value_head,
}
use tftp_stress_test.Json.Pieces.{
  skip_whitespace-literal, starts-literal, after_element, after_member, elements_behind,
  members_behind, ReadsValue, ReadsElements, ReadsMembers, parse_elements-indent,
  parse_members-indent, elements_behind-element, members_behind-member, elements_read, members_read,
  no_elements_read, no_members_read,
}

module _ {W : Type 0} ⦃numbers : Numbers W⦄ (laws : IsNumbers W) where
  parse_value-integer :
      (fuel c : ℕ) (rest : Bytes)
      → is_integer_char c ≡ true
      → parse_value {W = W} (suc fuel) (c ∷ rest) ≡ parse_number (c ∷ rest)
  unfolding parse_value skip_whitespace
  parse_value-integer fuel c rest digit =
      let white : is_whitespace c ≡ false = ground (arith, digit) in
      let brace : (c == b'{') ≡ false = ground (arith, digit) in
      let bracket : (c == b'[') ≡ false = ground (arith, digit) in
      let quote : (c == b'"') ≡ false = ground (arith, digit) in
      let word : ((c == b't') || (c == b'f')) ≡ false = ground (arith, digit) in
      let null_word : (c == b'n') ≡ false = ground (arith, digit) in
      rw (white, brace, bracket, quote, word, null_word)

  -- A printed integer is dispatched to `parse_number`.
  number_read : (w : W) (as_integer : Bool) → ReadsValue (number w as_integer)
  unfolding IsExact serialize_into
  number_read w as_integer h pretty depth zero rest ends l = absurd (omega arith)
  number_read w as_integer (n, small, e, marked) pretty depth (suc fuel) rest ends l =
      let (c, s, head, digit) = print_integer_head n in
      let written : format_number w as_integer ≡ print_integer n =
        ap (λ u. format_number u as_integer) e
        ∙ ap (format_number (numbers.of_integer n)) marked
        ∙ format_number-of_integer laws n small in
      ap (λ t. parse_value (suc fuel) (t ++ rest)) (written ∙ head)
      ∙ parse_value-integer fuel c (s ++ rest) digit
      ∙ ap (λ t. parse_number (t ++ rest)) (sym head)
      ∙ parse_number-print_integer laws n rest small ends
      ∙ ap (λ u. ok (number u true) rest) (sym e)
      ∙ ap (λ b. ok (number w b) rest) (sym marked)

  skip_whitespace-value :
      (pretty : Bool) (depth : ℕ) (v : JsonValue W) (rest : Bytes)
      → IsExact v
      → let written = serialize_into pretty depth v ++ rest in
        (skip_whitespace (indent pretty depth ++ written) ≡ written) × (starts b']' written ≡ false)
  unfolding skip_whitespace
  skip_whitespace-value pretty depth v rest h =
      let (c, s, head, white, unclosed) = value_head laws pretty depth v h in
      let same : skip_whitespace (serialize_into pretty depth v ++ rest)
          ≡ serialize_into pretty depth v ++ rest =
        rw (head, white) in
      (
        skip_whitespace-indent pretty depth (serialize_into pretty depth v ++ rest) ∙ same,
        rw head unclosed,
      )

  -- Behind an opening bracket that is not closed at once.
  parse_value-elements :
      (fuel : ℕ) (inside written : Bytes)
      → skip_whitespace inside ≡ written
      → starts b']' written ≡ false
      → parse_value {W = W} (suc fuel) (b'[' ∷ inside) ≡ parse_elements fuel no_elements written
  unfolding parse_value skip_whitespace
  parse_value-elements fuel inside written trimmed unclosed = rw (trimmed, unclosed)

  parse_value-members :
      (fuel : ℕ) (inside written : Bytes)
      → skip_whitespace inside ≡ written
      → starts b'}' written ≡ false
      → parse_value {W = W} (suc fuel) (b'{' ∷ inside) ≡ parse_members fuel no_members written
  unfolding parse_value skip_whitespace
  parse_value-members fuel inside written trimmed unclosed = rw (trimmed, unclosed)

  array_read : (es : JsonElements W) → ReadsElements es → ReadsValue (array es)
  unfolding IsExact ElementsExact serialize_into serialize_elements parse_value skip_whitespace text
  array_read es reads h pretty depth zero rest ends l = absurd (omega arith)
  array_read no_elements reads h pretty depth (suc fuel) rest ends l = refl
  array_read (element v es) reads h pretty depth (suc fuel) rest ends l =
      let behind = elements_behind pretty depth es rest in
      let written = serialize_into pretty (suc depth) v ++ behind in
      let inside : (serialize_elements pretty depth true (element v es)
              ++ (indent pretty depth ++ b']' ∷ []))
            ++ rest
          ≡ indent pretty (suc depth) ++ written =
        simp append_assoc in
      let (trimmed, unclosed) = skip_whitespace-value pretty (suc depth) v behind h.0 in
      let comma : skip_whitespace (elements_behind pretty depth (element v es) rest)
          ≡ b',' ∷ (indent pretty (suc depth) ++ written) =
        ap skip_whitespace (elements_behind-element pretty depth v es rest) in
      ap (λ t. parse_value (suc fuel) (b'[' ∷ t)) inside
      ∙ parse_value-elements fuel (indent pretty (suc depth) ++ written) written trimmed unclosed
      ∙ sym (parse_elements-indent pretty (suc depth) fuel no_elements written)
      ∙ sym (ap (after_element fuel no_elements) comma)
      ∙ reads h pretty depth fuel no_elements rest (
          omega (
            arith,
            l,
            length-append (serialize_elements pretty depth true (element v es))
                (indent pretty depth ++ b']' ∷ []),
            length-append (indent pretty depth) (b']' ∷ []),
          ))
      ∙ ap (λ out. ok (array out) rest) (append_all-no_elements (element v es))

  object_read : (ms : JsonMembers W) → ReadsMembers ms → ReadsValue (object ms)
  unfolding IsExact MembersExact serialize_into serialize_members parse_value skip_whitespace text
  object_read ms reads h pretty depth zero rest ends l = absurd (omega arith)
  object_read no_members reads h pretty depth (suc fuel) rest ends l = refl
  object_read (member key v ms) reads h pretty depth (suc fuel) rest ends l =
      let behind = members_behind pretty depth ms rest in
      let written =
        escape_json_string key
        ++ (colon pretty ++ (serialize_into pretty (suc depth) v ++ behind)) in
      let inside : (serialize_members pretty depth true (member key v ms)
              ++ (indent pretty depth ++ b'}' ∷ []))
            ++ rest
          ≡ indent pretty (suc depth) ++ written =
        simp append_assoc in
      let trimmed : skip_whitespace (indent pretty (suc depth) ++ written) ≡ written =
        skip_whitespace-indent pretty (suc depth) written ∙ skip_whitespace-literal key _ in
      let comma : skip_whitespace (members_behind pretty depth (member key v ms) rest)
          ≡ b',' ∷ (indent pretty (suc depth) ++ written) =
        ap skip_whitespace (members_behind-member pretty depth key v ms rest) in
      ap (λ t. parse_value (suc fuel) (b'{' ∷ t)) inside
      ∙ parse_value-members fuel (indent pretty (suc depth) ++ written) written trimmed
          (starts-literal key _)
      ∙ sym (parse_members-indent pretty (suc depth) fuel no_members written)
      ∙ sym (ap (after_member fuel no_members) comma)
      ∙ reads h.0 pretty depth fuel no_members rest (
          omega (
            arith,
            l,
            length-append (serialize_members pretty depth true (member key v ms))
                (indent pretty depth ++ b'}' ∷ []),
            length-append (indent pretty depth) (b'}' ∷ []),
          ))
      ∙ ap (λ out. ok (object out) rest) (set_all-no_members (member key v ms) h.1)

  string_read : (s : Bytes) → ReadsValue {W = W} (string s)
  unfolding serialize_into parse_value escape_json_string skip_whitespace
  string_read s h pretty depth zero rest ends l = absurd (omega arith)
  string_read s h pretty depth (suc fuel) rest ends l =
      let e = parse_string-escape_json_string s rest in rw e

  boolean_read : (b : Bool) → ReadsValue {W = W} (boolean b)
  unfolding serialize_into parse_value skip_whitespace text parse_bool
  boolean_read b h pretty depth zero rest ends l = absurd (omega arith)
  boolean_read true h pretty depth (suc fuel) rest ends l = refl
  boolean_read false h pretty depth (suc fuel) rest ends l = refl

  null_read : ReadsValue {W = W} null
  unfolding serialize_into parse_value skip_whitespace text parse_null
  null_read h pretty depth zero rest ends l = absurd (omega arith)
  null_read h pretty depth (suc fuel) rest ends l = refl

  value_read : (v : JsonValue W) → ReadsValue v
  value_read v = elim v as ReadsValue ReadsElements ReadsMembers [
    | null ↦ null_read
    | boolean b ↦ boolean_read b
    | number w as_integer ↦ number_read w as_integer
    | string s ↦ string_read s
    | array (es → ih) ↦ array_read es ih
    | object (ms → ih) ↦ object_read ms ih
    | no_elements ↦ no_elements_read
    | element (w → ih) (es → ihs) ↦ elements_read w es ih ihs
    | no_members ↦ no_members_read
    | member key (w → ih) (ms → ihs) ↦ members_read key w ms ih ihs
  ]

  -- Parsing what `serialize` writes of a value, on one line or indented, gives the value back, when its numbers are whole,
  -- below 2^53 in size and marked as integers, and no object has a key twice.
  pub parse_json-serialize :
      (pretty : Bool) (v : JsonValue W) → IsExact v → parse_json (serialize pretty v) ≡ ok v []
  unfolding parse_json serialize skip_whitespace
  parse_json-serialize pretty v h =
      let t : Bytes = serialize_into pretty 0 v in
      let (c, s, head, white, unclosed) = value_head laws pretty 0 v h in
      let trimmed : skip_whitespace t ≡ t = rw (head, white) in
      ap (λ u. ended (parse_value (2 * length t + 2) u)) (trimmed ∙ sym (append-nil t))
      ∙ ap ended (value_read v h pretty 0 (2 * length t + 2) [] refl (omega arith))
