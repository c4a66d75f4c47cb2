-- ===== src/Json.antt =====
-- src/metrics/json_writer.cpp, the values and the writer: a value is a tree, `serialize` prints it on one line or
-- indented. A `double` is a parameter, with the operations of <cmath>, <cstdio> and the casts that the code uses.
mod Parse
mod Escapes
mod Whole
mod Exact
mod Pieces
mod RoundTrip
mod Within
mod Ends
mod Runs
use tftp_stress_test.Common.{
  ℕ, zero, suc, ◌+◌, ◌*◌, ◌/◌, ◌%◌, ◌^◌, ◌<◌, ◌≡◌, Bool, true, false, ◌&&◌, ◌||◌, Option, none,
  some, List, [], ◌∷◌, ◌++◌, Bytes, ltb, ◌==◌, if◌then◌else◌, replicate, same_bytes, ℤ, abs,
  print_integer, text,
}

-- What the code asks of a `double`.
pub record Numbers (W : Type 0) : Type 0 where
  pub of_integer : ℤ → W
  pub to_integer : W → ℤ
  -- `std::floor(value) == value`
  pub is_whole : W → Bool
  -- `std::abs(value) < bound`
  pub abs_below : ℕ → W → Bool
  -- `std::snprintf` with "%.6g"
  pub print_g : W → Bytes
  -- `std::stod`, with `none` where it throws
  pub stod : Bytes → Option W

-- `JsonElements` and `JsonMembers` are the vectors inside an array and an object. A value has the
-- payload of its kind alone; the source leaves the members of another kind in the object, out of the writer's sight.
mutual
  pub data JsonValue (W : Type 0) : Type 0 where
    null : JsonValue W
    boolean : Bool → JsonValue W
    number : W → Bool → JsonValue W
    string : Bytes → JsonValue W
    array : JsonElements W → JsonValue W
    object : JsonMembers W → JsonValue W

  pub data JsonElements (W : Type 0) : Type 0 where
    no_elements : JsonElements W
    element : JsonValue W → JsonElements W → JsonElements W

  pub data JsonMembers (W : Type 0) : Type 0 where
    no_members : JsonMembers W
    member : Bytes → JsonValue W → JsonMembers W → JsonMembers W

module _ {W : Type 0} where
  -- `object_.emplace_back` behind a loop that replaces the value of a key that is there.
  unfoldable pub set_member : JsonMembers W → Bytes → JsonValue W → JsonMembers W
  set_member no_members key value = member key value no_members
  set_member (member other old rest) key value =
      let later = set_member rest key value in
      if same_bytes other key then member other value rest else member other old later

  unfoldable pub append_element : JsonElements W → JsonValue W → JsonElements W
  append_element no_elements value = element value no_elements
  append_element (element first rest) value = element first (append_element rest value)

  unfoldable pub has_member : JsonMembers W → Bytes → Bool
  has_member no_members key = false
  has_member (member other value rest) key = same_bytes other key || has_member rest key

  unfoldable pub member_at : JsonMembers W → Bytes → JsonValue W
  member_at no_members key = null
  member_at (member other value rest) key =
      let later = member_at rest key in if same_bytes other key then value else later

  abbrev pub members : JsonValue W → JsonMembers W
  members (object ms) = ms
  members _ = no_members

  abbrev pub as_array : JsonValue W → JsonElements W
  as_array (array es) = es
  as_array _ = no_elements

  -- `set` and `append` on a value of another kind forget what it held. The code keeps the members of an object behind the
  -- elements that `append` starts, and there `has` and `at` still see them.
  unfoldable pub set : JsonValue W → Bytes → JsonValue W → JsonValue W
  set v key value = object (set_member (members v) key value)

  unfoldable pub append : JsonValue W → JsonValue W → JsonValue W
  append v value = array (append_element (as_array v) value)

  unfoldable pub has : JsonValue W → Bytes → Bool
  has v key = has_member (members v) key

  unfoldable pub at : JsonValue W → Bytes → JsonValue W
  at v key = member_at (members v) key

unfoldable pub hex_char : ℕ → ℕ
hex_char n = if ltb n 10 then 48 + n else 87 + n

-- One turn of the loop of `escape_json_string`; the last case but one is "\\u%04x" of a number below 32.
unfoldable pub escape_char : ℕ → Bytes
escape_char c =
    if c == b'"'
    then b'\\' ∷ b'"' ∷ []
    else if c == b'\\'
    then b'\\' ∷ b'\\' ∷ []
    else if c == 8
    then b'\\' ∷ b'b' ∷ []
    else if c == 12
    then b'\\' ∷ b'f' ∷ []
    else if c == 10
    then b'\\' ∷ b'n' ∷ []
    else if c == 13
    then b'\\' ∷ b'r' ∷ []
    else if c == 9
    then b'\\' ∷ b't' ∷ []
    else if ltb c 0x20
    then b'\\' ∷ b'u' ∷ b'0' ∷ b'0' ∷ hex_char (c / 16) ∷ hex_char (c % 16) ∷ []
    else c ∷ []

unfoldable pub escape_chars : Bytes → Bytes
escape_chars [] = []
escape_chars (c ∷ raw) = escape_char c ++ escape_chars raw

unfoldable pub escape_json_string : Bytes → Bytes
escape_json_string raw = b'"' ∷ (escape_chars raw ++ b'"' ∷ [])

unfoldable pub indent : Bool → ℕ → Bytes
indent true depth = 10 ∷ replicate (depth * 2) 32
indent false depth = []

abbrev pub separator : Bool → Bytes
separator true = []
separator false = b',' ∷ []

abbrev pub colon : Bool → Bytes
colon true = b':' ∷ 32 ∷ []
colon false = b':' ∷ []

module _ {W : Type 0} ⦃numbers : Numbers W⦄ where
  unfoldable pub format_number : W → Bool → Bytes
  format_number value as_integer =
      if (as_integer && numbers.is_whole value) && numbers.abs_below 9007199254740992 value
      then print_integer (numbers.to_integer value)
      else if numbers.is_whole value && numbers.abs_below (10 ^ 15) value
      then print_integer (numbers.to_integer value)
      else numbers.print_g value

  abbrev has_elements : JsonElements W → Bool
  has_elements no_elements = false
  has_elements (element v es) = true

  abbrev has_members : JsonMembers W → Bool
  has_members no_members = false
  has_members (member key v ms) = true

  -- `pretty` and the depth come first; `first` is `i == 0` in the loops.
  unfoldable mutual
    pub serialize_into : Bool → ℕ → JsonValue W → Bytes
    serialize_into pretty depth null = text "null"
    serialize_into pretty depth (boolean b) = if b then text "true" else text "false"
    serialize_into pretty depth (number value as_integer) = format_number value as_integer
    serialize_into pretty depth (string s) = escape_json_string s
    serialize_into pretty depth (array es) =
        if has_elements es
        then b'[' ∷ (serialize_elements pretty depth true es ++ (indent pretty depth ++ b']' ∷ []))
        else text "[]"
    serialize_into pretty depth (object ms) =
        if has_members ms
        then b'{' ∷ (serialize_members pretty depth true ms ++ (indent pretty depth ++ b'}' ∷ []))
        else text "{}"

    pub serialize_elements : Bool → ℕ → Bool → JsonElements W → Bytes
    serialize_elements pretty depth first no_elements = []
    serialize_elements pretty depth first (element v es) =
        separator first
        ++ (indent pretty (suc depth)
            ++ (serialize_into pretty (suc depth) v ++ serialize_elements pretty depth false es))

    pub serialize_members : Bool → ℕ → Bool → JsonMembers W → Bytes
    serialize_members pretty depth first no_members = []
    serialize_members pretty depth first (member key v ms) =
        separator first
        ++ (indent pretty (suc depth)
            ++ (escape_json_string key
                ++ (colon pretty
                    ++ (serialize_into pretty (suc depth) v
                        ++ serialize_members pretty depth false ms))))

  unfoldable pub serialize : Bool → JsonValue W → Bytes
  serialize pretty v = serialize_into pretty 0 v
