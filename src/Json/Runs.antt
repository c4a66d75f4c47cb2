-- ===== src/Json/Runs.antt =====
-- Tests of src/metrics/json_writer.cpp.
use tftp_stress_test.Common.{
  ℕ, suc, ◌^◌, true, false, ◌≡◌, refl, Option, none, some, [], ◌∷◌, Bytes, ltb, ◌==◌, if◌then◌else◌,
  ℤ, pos, negsuc, abs, print_integer, text, stoul, signed, magnitude, digits, to_string, decimal,
}
use tftp_stress_test.Json.{
  Numbers, JsonValue, null, number, string, array, object, no_elements, element, no_members, member,
  set_member, append_element, hex_char, escape_char, escape_chars, escape_json_string, indent,
  format_number, serialize_into, serialize,
}
use tftp_stress_test.Json.Parse.{
  ok, parse_json, skip_whitespace, hex_value, read_hex, utf8, read_escape, read_string,
  parse_string, number_token, behind_number, finds, parse_bool, parse_null, parse_number,
  parse_value,
}
use tftp_stress_test.Common.{sym, ap, ◌∙◌, lt→ltb, to_string_head, stoul-to_string, ◌<◌, arith}
use tftp_stress_test.Json.{has_member}
use tftp_stress_test.Json.Whole.{IsNumbers}
use tftp_stress_test.Json.Exact.{IsExact, Fresh}
use tftp_stress_test.Json.RoundTrip.{parse_json-serialize}
use tftp_stress_test.Common.{◌++◌}
use tftp_stress_test.Json.Escapes.{parse_string-escape_json_string}
use tftp_stress_test.Json.Ends.{parse_json_ends}
use tftp_stress_test.Common.{◌≢◌}
use tftp_stress_test.Json.Parse.{out_of_fuel}

negated : Option ℕ → Option ℤ
negated (some (suc n)) = some (negsuc n)
negated _ = none

positive : Option ℕ → Option ℤ
positive (some n) = some (pos n)
positive none = none

read_integer : Bytes → Option ℤ
unfolding negated positive
read_integer [] = none
read_integer (c ∷ rest) = if c == b'-' then negated (stoul rest) else positive (stoul (c ∷ rest))

-- A `double` that holds whole numbers only.
instance abbrev integers : Numbers ℤ
integers = record {
  of_integer = λ n. n;
  to_integer = λ n. n;
  is_whole = λ n. true;
  abs_below = λ bound n. ltb (abs n) bound;
  print_g = print_integer;
  stod = read_integer;
}

abbrev sample : JsonValue ℤ
sample = object (
    member (text "id") (number (negsuc 41) true) (
      member (9 ∷ 1 ∷ 34 ∷ [])
        (array
          (element (string (text "x\\y")) (element (array no_elements) (element null no_elements))))
        no_members))

sample_line : serialize false sample ≡ text "{\"id\":-42,\"\\t\\u0001\\\"\":[\"x\\\\y\",[],null]}"
unfolding serialize serialize_into hex_char escape_char escape_chars escape_json_string indent
    format_number print_integer to_string decimal text
sample_line = refl

sample_read :
    parse_json (text " {\"id\" : -42,\"\\t\\u0001\\\"\":[\"x\\\\y\",[ ],null]}\n") ≡ ok sample []
unfolding read_integer negated positive stoul signed magnitude digits to_string parse_json
    skip_whitespace hex_value read_hex utf8 read_escape read_string parse_string number_token
    behind_number finds parse_bool parse_null parse_number parse_value set_member append_element
    text
sample_read = refl

integers-IsNumbers : IsNumbers ℤ
unfolding read_integer positive negated print_integer
integers-IsNumbers = record {
  whole = λ n h. refl;
  within = λ n h. lt→ltb (abs n) (2 ^ 53) h;
  back = λ n h. refl;
  read = λ n. elim n as (λ k. abs k < 2 ^ 53 → read_integer (print_integer k) ≡ some k) [
    | pos k ↦ λ h.
        let (c, s, head, digit) = to_string_head k in
        let unsigned : (c == b'-') ≡ false = ground (arith, digit) in
        let stripped : read_integer (c ∷ s) ≡ positive (stoul (c ∷ s)) = rw unsigned in
        ap read_integer head
        ∙ stripped
        ∙ ap (λ t. positive (stoul t)) (sym head)
        ∙ ap positive (stoul-to_string k (omega (arith, h)))
    | negsuc k ↦ λ h. ap negated (stoul-to_string (suc k) (omega (arith, h)))
  ];
}

sample-IsExact : IsExact sample
unfolding IsExact Fresh has_member set_member text
sample-IsExact =
    (((negsuc 41, omega arith, refl, refl), ((tt, (tt, (tt, tt))), tt)), (refl, (refl, tt)))

parse_json-serialize_example : parse_json (serialize true sample) ≡ ok sample []
parse_json-serialize_example = parse_json-serialize integers-IsNumbers true sample sample-IsExact

parse_json_ends_example : parse_json {W = ℤ} (text "[{\"a\":[1,") ≢ out_of_fuel
parse_json_ends_example = parse_json_ends ℤ (text "[{\"a\":[1,")

parse_string-escape_json_string_example :
    parse_string (escape_json_string (9 ∷ 34 ∷ 1 ∷ []) ++ text ",1")
    ≡ ok (9 ∷ 34 ∷ 1 ∷ []) (text ",1")
parse_string-escape_json_string_example =
    parse_string-escape_json_string (9 ∷ 34 ∷ 1 ∷ []) (text ",1")
