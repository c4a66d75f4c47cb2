-- ===== src/Json/Pieces.antt =====
-- The parser of src/metrics/json_writer.cpp on the elements and members that the writer prints.
use tftp_stress_test.Common.{
  ℕ, zero, suc, ◌+◌, ◌<◌, ◌≡◌, refl, ap, ◌∙◌, Bool, true, false, ◌∷◌, ◌++◌, append_assoc, arith,
  Bytes, if◌then◌else◌, length, length-append,
}
use tftp_stress_test.Json.{
  Numbers, JsonValue, JsonElements, JsonMembers, array, object, no_elements, element, no_members,
  member, set_member, append_element, indent, colon, escape_json_string, serialize_into,
  serialize_elements, serialize_members,
}
use tftp_stress_test.Json.Parse.{
  Reading, ok, failed, starts, tail, skip_whitespace, parse_string, parse_value, parse_elements,
  parse_members,
}
use tftp_stress_test.Json.Escapes.{parse_string-escape_json_string}
use tftp_stress_test.Json.Whole.{ends_number}
use tftp_stress_test.Json.Exact.{
  IsExact, ElementsExact, MembersExact, append_all, set_all, skip_whitespace-indent,
}

pub skip_whitespace-literal :
    (key rest : Bytes)
    → skip_whitespace (escape_json_string key ++ rest) ≡ escape_json_string key ++ rest
unfolding skip_whitespace escape_json_string
skip_whitespace-literal key rest = refl

parse_string-indent :
    (pretty : Bool) (depth : ℕ) (key rest : Bytes)
    → parse_string (skip_whitespace (indent pretty depth ++ (escape_json_string key ++ rest)))
      ≡ ok key rest
parse_string-indent pretty depth key rest =
    ap parse_string (
      skip_whitespace-indent pretty depth (escape_json_string key ++ rest)
      ∙ skip_whitespace-literal key rest)
    ∙ parse_string-escape_json_string key rest

pub starts-literal : (key rest : Bytes) → starts b'}' (escape_json_string key ++ rest) ≡ false
unfolding escape_json_string
starts-literal key rest = refl

module _ {W : Type 0} ⦃numbers : Numbers W⦄ where
  -- What `parse_array` does behind an element, and `parse_object` behind a member.
  abbrev pub after_element : ℕ → JsonElements W → Bytes → Reading (JsonValue W)
  after_element fuel out at =
      let more = parse_elements fuel out (tail at) in
      if starts b',' at then more else if starts b']' at then ok (array out) (tail at) else failed

  abbrev pub after_member : ℕ → JsonMembers W → Bytes → Reading (JsonValue W)
  after_member fuel out at =
      let more = parse_members fuel out (tail at) in
      if starts b',' at then more else if starts b'}' at then ok (object out) (tail at) else failed

  -- The rest of an array or an object behind an element or a member.
  abbrev pub elements_behind : Bool → ℕ → JsonElements W → Bytes → Bytes
  elements_behind pretty depth es rest =
      serialize_elements pretty depth false es ++ (indent pretty depth ++ b']' ∷ rest)

  abbrev pub members_behind : Bool → ℕ → JsonMembers W → Bytes → Bytes
  members_behind pretty depth ms rest =
      serialize_members pretty depth false ms ++ (indent pretty depth ++ b'}' ∷ rest)

  abbrev pub ReadsValue : JsonValue W → Type 0
  ReadsValue v =
      IsExact v
      → (pretty : Bool) (depth fuel : ℕ) (rest : Bytes) → ends_number rest ≡ true
      → length (serialize_into pretty depth v) < fuel
      → parse_value fuel (serialize_into pretty depth v ++ rest) ≡ ok v rest

  abbrev pub ReadsElements : JsonElements W → Type 0
  ReadsElements es =
      ElementsExact es
      → (pretty : Bool) (depth fuel : ℕ) (out : JsonElements W) (rest : Bytes)
      → length (serialize_elements pretty depth false es) < fuel
      → after_element fuel out (skip_whitespace (elements_behind pretty depth es rest))
        ≡ ok (array (append_all out es)) rest

  abbrev pub ReadsMembers : JsonMembers W → Type 0
  ReadsMembers ms =
      MembersExact ms
      → (pretty : Bool) (depth fuel : ℕ) (out : JsonMembers W) (rest : Bytes)
      → length (serialize_members pretty depth false ms) < fuel
      → after_member fuel out (skip_whitespace (members_behind pretty depth ms rest))
        ≡ ok (object (set_all out ms)) rest

  ends_number-elements :
      (pretty : Bool) (depth : ℕ) (es : JsonElements W) (rest : Bytes)
      → ends_number (elements_behind pretty depth es rest) ≡ true
  unfolding serialize_elements indent
  ends_number-elements true depth no_elements rest = refl
  ends_number-elements false depth no_elements rest = refl
  ends_number-elements pretty depth (element v es) rest = refl

  ends_number-members :
      (pretty : Bool) (depth : ℕ) (ms : JsonMembers W) (rest : Bytes)
      → ends_number (members_behind pretty depth ms rest) ≡ true
  unfolding serialize_members indent
  ends_number-members true depth no_members rest = refl
  ends_number-members false depth no_members rest = refl
  ends_number-members pretty depth (member key v ms) rest = refl

  parse_value-indent :
      (pretty : Bool) (depth fuel : ℕ) (rest : Bytes)
      → parse_value {W = W} fuel (indent pretty depth ++ rest) ≡ parse_value fuel rest
  unfolding parse_value
  parse_value-indent pretty depth zero rest = refl
  parse_value-indent pretty depth (suc fuel) rest =
      let e = skip_whitespace-indent pretty depth rest in rw e

  pub parse_elements-indent :
      (pretty : Bool) (depth fuel : ℕ) (out : JsonElements W) (rest : Bytes)
      → parse_elements fuel out (indent pretty depth ++ rest) ≡ parse_elements fuel out rest
  unfolding parse_elements
  parse_elements-indent pretty depth zero out rest = refl
  parse_elements-indent pretty depth (suc fuel) out rest =
      let e = parse_value-indent pretty depth fuel rest in rw e

  pub parse_members-indent :
      (pretty : Bool) (depth fuel : ℕ) (out : JsonMembers W) (rest : Bytes)
      → parse_members fuel out (indent pretty depth ++ rest) ≡ parse_members fuel out rest
  unfolding parse_members
  parse_members-indent pretty depth zero out rest = refl
  parse_members-indent pretty depth (suc fuel) out rest =
      let e = skip_whitespace-indent pretty depth rest in rw e

  -- An element behind the indentation, and what the loop does next.
  parse_elements-element :
      (pretty : Bool) (depth fuel : ℕ) (out : JsonElements W) (v : JsonValue W)
      (written behind : Bytes)
      → parse_value fuel (written ++ behind) ≡ ok v behind
      → parse_elements (suc fuel) out (indent pretty depth ++ (written ++ behind))
        ≡ after_element fuel (append_element out v) (skip_whitespace behind)
  unfolding parse_elements
  parse_elements-element pretty depth fuel out v written behind reads =
      let e = parse_value-indent pretty depth fuel (written ++ behind) ∙ reads in rw e

  parse_value-colon :
      (pretty : Bool) (fuel : ℕ) (rest : Bytes)
      → (starts b':' (skip_whitespace (colon pretty ++ rest)) ≡ true)
        × (parse_value {W = W} fuel (tail (skip_whitespace (colon pretty ++ rest)))
            ≡ parse_value fuel rest)
  unfolding parse_value skip_whitespace
  parse_value-colon false fuel rest = (refl, refl)
  parse_value-colon true zero rest = (refl, refl)
  parse_value-colon true (suc fuel) rest = (refl, refl)

  parse_members-member :
      (pretty : Bool) (depth fuel : ℕ) (out : JsonMembers W) (key : Bytes) (v : JsonValue W)
      (written behind : Bytes)
      → parse_value fuel (written ++ behind) ≡ ok v behind
      → parse_members
          (suc fuel)
          out
          (indent pretty depth ++ (escape_json_string key ++ (colon pretty ++ (written ++ behind))))
        ≡ after_member fuel (set_member out key v) (skip_whitespace behind)
  unfolding parse_members
  parse_members-member pretty depth fuel out key v written behind reads =
      let key_read = parse_string-indent pretty depth key (colon pretty ++ (written ++ behind)) in
      let (colon_read, same) = parse_value-colon pretty fuel (written ++ behind) in
      let value_read = same ∙ reads in rw (key_read, colon_read, value_read)

  pub elements_behind-element :
      (pretty : Bool) (depth : ℕ) (v : JsonValue W) (es : JsonElements W) (rest : Bytes)
      → elements_behind pretty depth (element v es) rest
        ≡ b','
          ∷ (indent pretty (suc depth)
              ++ (serialize_into pretty (suc depth) v ++ elements_behind pretty depth es rest))
  unfolding serialize_elements
  elements_behind-element pretty depth v es rest = simp append_assoc

  pub members_behind-member :
      (pretty : Bool) (depth : ℕ) (key : Bytes) (v : JsonValue W) (ms : JsonMembers W)
      (rest : Bytes)
      → members_behind pretty depth (member key v ms) rest
        ≡ b','
          ∷ (indent pretty (suc depth)
              ++ (escape_json_string key
                  ++ (colon pretty
                      ++ (serialize_into pretty (suc depth) v
                          ++ members_behind pretty depth ms rest))))
  unfolding serialize_members
  members_behind-member pretty depth key v ms rest = simp append_assoc

  length-elements :
      (pretty : Bool) (depth : ℕ) (v : JsonValue W) (es : JsonElements W)
      → length (serialize_elements pretty depth false (element v es))
        ≡ suc (
            length (indent pretty (suc depth))
            + (length (serialize_into pretty (suc depth) v)
                + length (serialize_elements pretty depth false es)))
  unfolding serialize_elements
  length-elements pretty depth v es = simp length-append

  length-members :
      (pretty : Bool) (depth : ℕ) (key : Bytes) (v : JsonValue W) (ms : JsonMembers W)
      → length (serialize_members pretty depth false (member key v ms))
        ≡ suc (
            length (indent pretty (suc depth))
            + (length (escape_json_string key)
                + (length (colon pretty)
                    + (length (serialize_into pretty (suc depth) v)
                        + length (serialize_members pretty depth false ms)))))
  unfolding serialize_members
  length-members pretty depth key v ms = simp length-append

  pub elements_read :
      (v : JsonValue W) (es : JsonElements W)
      → ReadsValue v
      → ReadsElements es
      → ReadsElements (element v es)
  unfolding ElementsExact append_all skip_whitespace
  elements_read v es reads_v reads_es h pretty depth zero out rest l = absurd (omega arith)
  elements_read v es reads_v reads_es h pretty depth (suc fuel) out rest l =
      let behind = elements_behind pretty depth es rest in
      let size = length-elements pretty depth v es in
      let first =
        reads_v h.0 pretty (suc depth) fuel behind (ends_number-elements pretty depth es rest)
          (omega (arith, size, l)) in
      ap (λ t. after_element (suc fuel) out (skip_whitespace t))
        (elements_behind-element pretty depth v es rest)
      ∙ parse_elements-element pretty (suc depth) fuel out v (serialize_into pretty (suc depth) v)
          behind first
      ∙ reads_es h.1 pretty depth fuel (append_element out v) rest (omega (arith, size, l))

  pub members_read :
      (key : Bytes) (v : JsonValue W) (ms : JsonMembers W)
      → ReadsValue v
      → ReadsMembers ms
      → ReadsMembers (member key v ms)
  unfolding MembersExact set_all skip_whitespace
  members_read key v ms reads_v reads_ms h pretty depth zero out rest l = absurd (omega arith)
  members_read key v ms reads_v reads_ms h pretty depth (suc fuel) out rest l =
      let behind = members_behind pretty depth ms rest in
      let size = length-members pretty depth key v ms in
      let first =
        reads_v h.0 pretty (suc depth) fuel behind (ends_number-members pretty depth ms rest)
          (omega (arith, size, l)) in
      ap (λ t. after_member (suc fuel) out (skip_whitespace t))
        (members_behind-member pretty depth key v ms rest)
      ∙ parse_members-member pretty (suc depth) fuel out key v (serialize_into pretty (suc depth) v)
          behind first
      ∙ reads_ms h.1 pretty depth fuel (set_member out key v) rest (omega (arith, size, l))

  pub no_elements_read : ReadsElements no_elements
  unfolding append_all serialize_elements skip_whitespace
  no_elements_read h pretty depth fuel out rest l =
      rw (skip_whitespace-indent pretty depth (b']' ∷ rest))

  pub no_members_read : ReadsMembers no_members
  unfolding set_all serialize_members skip_whitespace
  no_members_read h pretty depth fuel out rest l =
      rw (skip_whitespace-indent pretty depth (b'}' ∷ rest))
