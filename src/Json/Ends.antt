-- ===== src/Json/Ends.antt =====
-- The parser of src/metrics/json_writer.cpp ends on every input.
use tftp_stress_test.Common.{
  ℕ, zero, suc, ◌+◌, ◌*◌, ◌≤◌, ◌<◌, arith, ◌||◌, [], ◌∷◌, Bytes, is_empty, length, ◌≢◌, Bool-cases,
  Option-cases, inl, inr,
}
use tftp_stress_test.Json.{
  Numbers, JsonValue, JsonElements, JsonMembers, no_elements, no_members, set_member,
  append_element,
}
use tftp_stress_test.Json.Parse.{
  Reading, ok, failed, out_of_fuel, skip_whitespace, starts, tail, parse_string, is_number_char,
  number_token, behind_number, parse_number, parse_value, parse_elements, parse_members, ended,
  parse_json,
}
use tftp_stress_test.Json.Within.{
  Within, Within-mono, bind-Within, if-Within, length-skip_whitespace, length-behind_number,
  tail_shorter, parse_string-Within, parse_bool-Within, parse_null-Within,
}

module _ (W : Type 0) ⦃numbers : Numbers W⦄ where
  parse_number-Within : (rest : Bytes) → Within (length rest) (parse_number {W = W} rest)
  unfolding parse_number number_token behind_number
  parse_number-Within [] = tt
  parse_number-Within (c ∷ rest) = elim (Bool-cases (is_number_char c)) [
    | inr other ↦ rw (other, parse_number, number_token) tt
    | inl digit ↦ elim (Option-cases (numbers.stod (c ∷ number_token rest))) [
      | inl e ↦ rw (digit, e, parse_number, number_token) tt
      | inr (w, e) ↦
          rw (digit, e, parse_number, number_token)
            (rw digit (omega (arith, length-behind_number rest)))
    ]
  ]

  -- What the three parts of the parser do with a budget of fuel.
  Ends : ℕ → Type 0
  Ends fuel =
      ((rest : Bytes)
        → 2 * length rest < fuel
        → Within (length rest) (parse_value {W = W} fuel rest))
      × ((out : JsonElements W) (rest : Bytes)
          → 2 * length rest + 1 < fuel
          → Within (length rest) (parse_elements fuel out rest))
      × ((out : JsonMembers W) (rest : Bytes)
          → 2 * length rest + 1 < fuel
          → Within (length rest) (parse_members fuel out rest))

  parse_value-Ends :
      (fuel : ℕ)
      → Ends fuel
      → (rest : Bytes) → 2 * length rest < suc fuel
      → Within (length rest) (parse_value {W = W} (suc fuel) rest)
  unfolding Ends parse_value
  parse_value-Ends fuel (values, elements, members) rest h =
      let at = skip_whitespace rest in
      let inside = skip_whitespace (tail at) in
      let trimmed = length-skip_whitespace rest in
      let deeper = length-skip_whitespace (tail at) in
      let opened = λ (n : ℕ) (r : Reading (JsonValue W)) (le : n ≤ length rest) (w : Within n r).
        Within-mono n (length rest) r le w in
      if-Within _ (is_empty at) _ _ (λ e. tt)
        (if-Within _ (starts b'{' at) _ _
          (λ o.
            let brace = tail_shorter b'{' at o in
            if-Within _ (starts b'}' inside) _ _
              (λ e.
                let closed = tail_shorter b'}' inside e in
                omega (arith, brace, closed, trimmed, deeper))
              (opened (length inside) (parse_members fuel no_members inside)
                (omega (arith, brace, trimmed, deeper))
                (members no_members inside (omega (arith, brace, trimmed, deeper, h)))))
          (if-Within _ (starts b'[' at) _ _
            (λ o.
              let bracket = tail_shorter b'[' at o in
              if-Within _ (starts b']' inside) _ _
                (λ e.
                  let closed = tail_shorter b']' inside e in
                  omega (arith, bracket, closed, trimmed, deeper))
                (opened (length inside) (parse_elements fuel no_elements inside)
                  (omega (arith, bracket, trimmed, deeper))
                  (elements no_elements inside (omega (arith, bracket, trimmed, deeper, h)))))
            (opened (length at) _ trimmed (
              if-Within _ (starts b'"' at) _ _
                (λ e.
                  bind-Within (length at) (length at) (parse_string at) _ (parse_string-Within at)
                    (λ s behind l. l))
                (if-Within _ (starts b't' at || starts b'f' at) _ _ (λ e. parse_bool-Within W at)
                  (if-Within _ (starts b'n' at) _ _ (λ e. parse_null-Within W at)
                    (parse_number-Within at)))))))

  parse_elements-Ends :
      (fuel : ℕ)
      → Ends fuel
      → (out : JsonElements W) (rest : Bytes) → 2 * length rest + 1 < suc fuel
      → Within (length rest) (parse_elements (suc fuel) out rest)
  unfolding Ends parse_elements
  parse_elements-Ends fuel (values, elements, members) out rest h =
      bind-Within (length rest) (length rest) (parse_value fuel rest) _
        (values rest (omega (arith, h)))
        (λ value behind l.
          let at = skip_whitespace behind in
          let trimmed = length-skip_whitespace behind in
          let more = elements (append_element out value) (tail at) in
          if-Within _ (starts b',' at) _ _
            (λ e.
              let shorter = tail_shorter b',' at e in
              Within-mono _ _ (parse_elements fuel (append_element out value) (tail at))
                (omega (arith, shorter, trimmed, l)) (more (omega (arith, shorter, trimmed, l, h))))
            (if-Within _ (starts b']' at) _ _
              (λ e. let shorter = tail_shorter b']' at e in omega (arith, shorter, trimmed, l)) tt))

  parse_members-Ends :
      (fuel : ℕ)
      → Ends fuel
      → (out : JsonMembers W) (rest : Bytes) → 2 * length rest + 1 < suc fuel
      → Within (length rest) (parse_members (suc fuel) out rest)
  unfolding Ends parse_members
  parse_members-Ends fuel (values, elements, members) out rest h =
      let start = skip_whitespace rest in
      let start_trimmed = length-skip_whitespace rest in
      bind-Within (length start) (length rest) (parse_string start) _ (parse_string-Within start)
        (λ key behind_key k.
          let colon = skip_whitespace behind_key in
          let colon_trimmed = length-skip_whitespace behind_key in
          if-Within _ (starts b':' colon) _ _
            (λ c.
              let colon_read = tail_shorter b':' colon c in
              bind-Within (length (tail colon)) (length rest) (parse_value fuel (tail colon)) _
                (values (tail colon)
                  (omega (arith, colon_read, colon_trimmed, k, start_trimmed, h)))
                (λ value behind l.
                  let at = skip_whitespace behind in
                  let trimmed = length-skip_whitespace behind in
                  let more = members (set_member out key value) (tail at) in
                  if-Within _ (starts b',' at) _ _
                    (λ e.
                      let shorter = tail_shorter b',' at e in
                      Within-mono _ _ (parse_members fuel (set_member out key value) (tail at))
                        (omega
                          (arith, shorter, trimmed, l, colon_read, colon_trimmed, k, start_trimmed))
                        (more (
                          omega (
                            arith, shorter, trimmed, l, colon_read, colon_trimmed, k, start_trimmed,
                            h,
                          ))))
                    (if-Within _ (starts b'}' at) _ _
                      (λ e.
                        let shorter = tail_shorter b'}' at e in
                        omega
                          (arith, shorter, trimmed, l, colon_read, colon_trimmed, k, start_trimmed))
                      tt)))
            tt)

  all-Ends : (fuel : ℕ) → Ends fuel
  unfolding Ends
  all-Ends zero = (
    λ rest h. absurd (omega arith),
    λ out rest h. absurd (omega arith),
    λ out rest h. absurd (omega arith),
  )
  all-Ends (suc fuel) = (
    parse_value-Ends fuel (all-Ends fuel),
    parse_elements-Ends fuel (all-Ends fuel),
    parse_members-Ends fuel (all-Ends fuel),
  )

  ended_ends : (n : ℕ) (r : Reading (JsonValue W)) → Within n r → ended r ≢ out_of_fuel
  ended_ends n (ok value rest) h e = ground (arith, e)
  ended_ends n failed h e = cc
  ended_ends n out_of_fuel h e = absurd h

  -- On every text the parser has a result, a value or a failure: the fuel it starts with is enough.
  pub parse_json_ends : (document : Bytes) → parse_json {W = W} document ≢ out_of_fuel
  unfolding parse_json Ends
  parse_json_ends document =
      let at = skip_whitespace document in
      let trimmed = length-skip_whitespace document in
      ended_ends (length at) (parse_value (2 * length document + 2) at)
        ((all-Ends (2 * length document + 2)).0 at (omega (arith, trimmed)))
