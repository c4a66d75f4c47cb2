-- ===== src/Json/Exact.antt =====
-- The values that src/metrics/json_writer.cpp writes without loss, and lemmas on what stands in front of a written
-- value.
use tftp_stress_test.Common.{
  ℕ, zero, suc, ◌*◌, ◌^◌, ◌<◌, ◌≡◌, refl, sym, ap, ◌∙◌, Bool, true, false, ◌∷◌, ◌++◌, arith, Bytes,
  ◌==◌, replicate, same_bytes, ℤ, abs, text,
}
use tftp_stress_test.Json.{
  Numbers, JsonValue, JsonElements, JsonMembers, null, boolean, number, string, array, object,
  no_elements, element, no_members, member, set_member, append_element, has_member, indent,
  escape_json_string, format_number, serialize_into,
}
use tftp_stress_test.Json.Parse.{is_whitespace, skip_whitespace}
use tftp_stress_test.Json.Whole.{IsNumbers, print_integer_head, format_number-of_integer}

module _ {W : Type 0} ⦃numbers : Numbers W⦄ where
  -- No key of the members stands among those in front of it.
  unfoldable pub Fresh : JsonMembers W → JsonMembers W → Type 0
  Fresh front no_members = Unit
  Fresh front (member key v ms) = (has_member front key ≡ false) × Fresh (set_member front key v) ms

  -- Numbers are whole, below 2^53 and marked so, and no object has a key twice.
  unfoldable mutual
    pub IsExact : JsonValue W → Type 0
    IsExact null = Unit
    IsExact (boolean b) = Unit
    IsExact (number w as_integer) =
        (n : ℤ) × (abs n < 2 ^ 53) × (w ≡ numbers.of_integer n) × (as_integer ≡ true)
    IsExact (string s) = Unit
    IsExact (array es) = ElementsExact es
    IsExact (object ms) = MembersExact ms × Fresh no_members ms

    pub ElementsExact : JsonElements W → Type 0
    ElementsExact no_elements = Unit
    ElementsExact (element v es) = IsExact v × ElementsExact es

    pub MembersExact : JsonMembers W → Type 0
    MembersExact no_members = Unit
    MembersExact (member key v ms) = IsExact v × MembersExact ms

unfoldable pub append_all : {W : Type 0} → JsonElements W → JsonElements W → JsonElements W
append_all out no_elements = out
append_all out (element v es) = append_all (append_element out v) es

unfoldable pub set_all : {W : Type 0} → JsonMembers W → JsonMembers W → JsonMembers W
set_all out no_members = out
set_all out (member key v ms) = set_all (set_member out key v) ms

-- Vectors of elements and of members, one behind the other.
abbrev joined_elements : {W : Type 0} → JsonElements W → JsonElements W → JsonElements W
joined_elements no_elements es = es
joined_elements (element v out) es = element v (joined_elements out es)

abbrev joined_members : {W : Type 0} → JsonMembers W → JsonMembers W → JsonMembers W
joined_members no_members ms = ms
joined_members (member key v out) ms = member key v (joined_members out ms)

module _ {W : Type 0} where
  joined_elements-append_element :
      (out es : JsonElements W) (v : JsonValue W)
      → joined_elements (append_element out v) es ≡ joined_elements out (element v es)
  unfolding append_element
  joined_elements-append_element no_elements es v = refl
  joined_elements-append_element (element w out) es v =
      ap (element w) (joined_elements-append_element out es v)

  joined_elements-nil : (out : JsonElements W) → joined_elements out no_elements ≡ out
  joined_elements-nil no_elements = refl
  joined_elements-nil (element v out) = ap (element v) (joined_elements-nil out)

  append_all-joined : (out es : JsonElements W) → append_all out es ≡ joined_elements out es
  unfolding append_all
  append_all-joined out no_elements = sym (joined_elements-nil out)
  append_all-joined out (element v es) =
      append_all-joined (append_element out v) es ∙ joined_elements-append_element out es v

  pub append_all-no_elements : (es : JsonElements W) → append_all no_elements es ≡ es
  append_all-no_elements es = append_all-joined no_elements es

module _ {W : Type 0} ⦃numbers : Numbers W⦄ where
  joined_members-set_member :
      (out ms : JsonMembers W) (key : Bytes) (v : JsonValue W)
      → has_member out key ≡ false
      → joined_members (set_member out key v) ms ≡ joined_members out (member key v ms)
  unfolding set_member has_member
  joined_members-set_member no_members ms key v h = refl
  joined_members-set_member (member other w out) ms key v h =
      let differs : same_bytes other key ≡ false = ground (arith, h) in
      let later : has_member out key ≡ false = ground (arith, h) in
      let e = joined_members-set_member out ms key v later in rw (differs, e)

  joined_members-nil : (out : JsonMembers W) → joined_members out no_members ≡ out
  joined_members-nil no_members = refl
  joined_members-nil (member key v out) = ap (member key v) (joined_members-nil out)

  set_all-joined : (out ms : JsonMembers W) → Fresh out ms → set_all out ms ≡ joined_members out ms
  unfolding set_all Fresh
  set_all-joined out no_members h = sym (joined_members-nil out)
  set_all-joined out (member key v ms) h =
      set_all-joined (set_member out key v) ms h.1 ∙ joined_members-set_member out ms key v h.0

  pub set_all-no_members : (ms : JsonMembers W) → Fresh no_members ms → set_all no_members ms ≡ ms
  set_all-no_members ms h = set_all-joined no_members ms h

skip_whitespace-spaces :
    (n : ℕ) (rest : Bytes) → skip_whitespace (replicate n 32 ++ rest) ≡ skip_whitespace rest
unfolding skip_whitespace
skip_whitespace-spaces zero rest = refl
skip_whitespace-spaces (suc n) rest = skip_whitespace-spaces n rest

pub skip_whitespace-indent :
    (pretty : Bool) (depth : ℕ) (rest : Bytes)
    → skip_whitespace (indent pretty depth ++ rest) ≡ skip_whitespace rest
unfolding indent skip_whitespace
skip_whitespace-indent true depth rest = skip_whitespace-spaces (depth * 2) rest
skip_whitespace-indent false depth rest = refl

module _ {W : Type 0} ⦃numbers : Numbers W⦄ (laws : IsNumbers W) where
  -- A written value starts with a character that is neither white space nor a closing bracket.
  pub value_head :
      (pretty : Bool) (depth : ℕ) (v : JsonValue W)
      → IsExact v
      → (c : ℕ) × (s : Bytes) × (serialize_into pretty depth v ≡ c ∷ s)
        × (is_whitespace c ≡ false)
        × ((c == b']') ≡ false)
  unfolding serialize_into text IsExact escape_json_string
  value_head pretty depth null h = (_, _, refl, refl, refl)
  value_head pretty depth (boolean true) h = (_, _, refl, refl, refl)
  value_head pretty depth (boolean false) h = (_, _, refl, refl, refl)
  value_head pretty depth (number w as_integer) (n, small, e, marked) =
      let (c, s, head, digit) = print_integer_head n in
      let written : format_number w as_integer ≡ c ∷ s =
        ap (λ u. format_number u as_integer) e
        ∙ ap (format_number (numbers.of_integer n)) marked
        ∙ format_number-of_integer laws n small
        ∙ head in
      (c, s, written, ground (arith, digit), ground (arith, digit))
  value_head pretty depth (string s) h = (_, _, refl, refl, refl)
  value_head pretty depth (array no_elements) h = (_, _, refl, refl, refl)
  value_head pretty depth (array (element v es)) h = (_, _, refl, refl, refl)
  value_head pretty depth (object no_members) h = (_, _, refl, refl, refl)
  value_head pretty depth (object (member key v ms)) h = (_, _, refl, refl, refl)
