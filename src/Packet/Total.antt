-- ===== src/Packet/Total.antt =====
-- The parser of src/net/tftp_packet.cpp answers on every datagram, and agrees with the opcode peek.
use tftp_stress_test.Common.{
  ℕ, zero, suc, ◌≤◌, ◌<◌, ◌≡◌, refl, sym, ap, ◌≢◌, ◌⊎◌, inl, inr, List, [], ◌∷◌, some, arith, Bytes,
  Option-cases, length,
}
use tftp_stress_test.Packet.{
  TftpOption, TftpPacket, empty_packet, raw_opcode, read_request, write_request, data_block,
  acknowledgement, error,
}
use tftp_stress_test.Packet.Parse.{
  ParseResult, success, failure, out_of_rounds, ◌>>=◌, or_failure, read_u16, read_c_string,
  check_name, parse_option_list, parse_request, parse_data, parse_acknowledgement, parse_error,
  parse_option_acknowledgement, parse_body, parse_tftp_packet, peek_opcode,
}
use tftp_stress_test.Packet.Canonical.{
  read_c_string_sound, body_cases, request_sound, option_acknowledgement_sound, >>=-eq-success,
  success-injective,
}

read_c_string_shrinks :
    (bytes : Bytes) (p : Bytes × Bytes) → read_c_string bytes ≡ some p → length p.1 < length bytes
read_c_string_shrinks bytes p h = (read_c_string_sound bytes p.0 p.1 h).2

rest-ne-out_of_rounds :
    (name value : Bytes) (m : ParseResult (List TftpOption))
    → m ≢ out_of_rounds
    → (check_name name value >>= λ option. m >>= λ options. success (option ∷ options))
      ≢ out_of_rounds
unfolding check_name
rest-ne-out_of_rounds [] value m h e = cc
rest-ne-out_of_rounds (b ∷ name) value (success options) h e = cc
rest-ne-out_of_rounds (b ∷ name) value (failure reason) h e = cc
rest-ne-out_of_rounds (b ∷ name) value out_of_rounds h e = h refl

-- A round takes a byte at least, so as many rounds as bytes are enough.
pub parse_option_list-ne-out_of_rounds :
    (rounds : ℕ) (bytes : Bytes)
    → length bytes ≤ rounds
    → parse_option_list rounds bytes ≢ out_of_rounds
unfolding parse_option_list
parse_option_list-ne-out_of_rounds rounds [] h = λ e. cc
parse_option_list-ne-out_of_rounds zero (b ∷ bytes) h = absurd (omega arith)
parse_option_list-ne-out_of_rounds (suc rounds) (b ∷ bytes) h =
    elim (Option-cases (read_c_string (b ∷ bytes))) [
      | inl e ↦ rw e (λ r. cc)
      | inr ((name, after), e1) ↦ elim (Option-cases (read_c_string after)) [
        | inl e ↦ rw (e1, e) (λ r. cc)
        | inr ((value, rest), e2) ↦
            rw (e1, e2)
              (rest-ne-out_of_rounds name value (parse_option_list rounds rest) (
                parse_option_list-ne-out_of_rounds rounds rest (
                  omega (
                    arith,
                    read_c_string_shrinks (b ∷ bytes) (name, after) e1,
                    read_c_string_shrinks after (value, rest) e2,
                  ))))
      ]
    ]

request-ne-out_of_rounds :
    (request : TftpPacket) (bytes : Bytes) → parse_request request bytes ≢ out_of_rounds
unfolding parse_request
request-ne-out_of_rounds request bytes =
    λ e. grind (arith, λ (rest : Bytes). parse_option_list-ne-out_of_rounds (length rest) rest)

option_acknowledgement-ne-out_of_rounds :
    (bytes : Bytes) → parse_option_acknowledgement bytes ≢ out_of_rounds
unfolding parse_option_acknowledgement
option_acknowledgement-ne-out_of_rounds bytes =
    λ e. ground (arith, parse_option_list-ne-out_of_rounds (length bytes) bytes)

error-ne-out_of_rounds : (bytes : Bytes) → parse_error bytes ≢ out_of_rounds
unfolding parse_error
error-ne-out_of_rounds [] = λ e. cc
error-ne-out_of_rounds (high ∷ []) = λ e. cc
error-ne-out_of_rounds (high ∷ low ∷ bytes) = λ e. ground arith

data-ne-out_of_rounds :
    (bytes : Bytes)
    → (parse_data bytes ≢ out_of_rounds) × (parse_acknowledgement bytes ≢ out_of_rounds)
unfolding parse_data parse_acknowledgement
data-ne-out_of_rounds [] = (λ e. cc, λ e. cc)
data-ne-out_of_rounds (high ∷ []) = (λ e. cc, λ e. cc)
data-ne-out_of_rounds (high ∷ low ∷ bytes) = (λ e. cc, λ e. cc)

body-ne-out_of_rounds : (raw : ℕ) (bytes : Bytes) → parse_body raw bytes ≢ out_of_rounds
unfolding parse_body
body-ne-out_of_rounds raw bytes e = ground (
  arith,
  request-ne-out_of_rounds (record empty_packet { opcode = read_request }) bytes,
  request-ne-out_of_rounds (record empty_packet { opcode = write_request }) bytes,
  data-ne-out_of_rounds bytes,
  error-ne-out_of_rounds bytes,
  option_acknowledgement-ne-out_of_rounds bytes,
)

-- The parser answers on every datagram, with a packet or with a reason: its option loop ends within the
-- rounds that it is given.
pub parse_tftp_packet_answers :
    (datagram : Bytes)
    → ((p : TftpPacket) × (parse_tftp_packet datagram ≡ success p))
      ⊎ ((reason : Bytes) × (parse_tftp_packet datagram ≡ failure reason))
unfolding parse_tftp_packet
parse_tftp_packet_answers [] = inr (_, refl)
parse_tftp_packet_answers (high ∷ []) = inr (_, refl)
parse_tftp_packet_answers (high ∷ low ∷ bytes) =
    answered (parse_body (read_u16 high low) bytes)
      (body-ne-out_of_rounds (read_u16 high low) bytes)
  where
    answered :
        (r : ParseResult TftpPacket)
        → r ≢ out_of_rounds
        → ((p : TftpPacket) × (r ≡ success p)) ⊎ ((reason : Bytes) × (r ≡ failure reason))
    answered (success p) h = inl (p, refl)
    answered (failure reason) h = inr (reason, refl)
    answered out_of_rounds h = absurd (h refl)

data_opcode :
    (bytes : Bytes) {p : TftpPacket} → parse_data bytes ≡ success p → p.opcode ≡ data_block
unfolding parse_data
data_opcode [] h = cc
data_opcode (high ∷ []) h = cc
data_opcode (high ∷ low ∷ bytes) h = ap (λ (q : TftpPacket). q.opcode) (sym (success-injective h))

acknowledgement_opcode :
    (bytes : Bytes) {p : TftpPacket}
    → parse_acknowledgement bytes ≡ success p
    → p.opcode ≡ acknowledgement
unfolding parse_acknowledgement
acknowledgement_opcode [] h = cc
acknowledgement_opcode (high ∷ []) h = cc
acknowledgement_opcode (high ∷ low ∷ bytes) h =
    ap (λ (q : TftpPacket). q.opcode) (sym (success-injective h))

error_opcode : (bytes : Bytes) {p : TftpPacket} → parse_error bytes ≡ success p → p.opcode ≡ error
unfolding parse_error
error_opcode [] h = cc
error_opcode (high ∷ []) h = cc
error_opcode (high ∷ low ∷ bytes) h =
    let (message, e1, h1) = >>=-eq-success (or_failure (read_c_string bytes) _) _ h in
    ap (λ (q : TftpPacket). q.opcode) (sym (success-injective h1))

opcode_of_body :
    (raw : ℕ) (bytes : Bytes) (p : TftpPacket)
    → parse_body raw bytes ≡ success p
    → raw ≡ raw_opcode p.opcode
opcode_of_body raw bytes p h = elim (body_cases raw bytes p h) [
  | inl (e, r) ↦ rw (request_sound bytes p _ r).0 e
  | inr (inl (e, r)) ↦ rw (request_sound bytes p _ r).0 e
  | inr (inr (inl (e, r))) ↦ rw (data_opcode bytes r) e
  | inr (inr (inr (inl (e, r)))) ↦ rw (acknowledgement_opcode bytes r) e
  | inr (inr (inr (inr (inl (e, r))))) ↦ rw (error_opcode bytes r) e
  | inr (inr (inr (inr (inr (e, r))))) ↦ rw (option_acknowledgement_sound bytes p r).0 e
]

-- A datagram that parses has the opcode that the peek reads from its first two bytes.
pub peek_opcode-parse_tftp_packet :
    (datagram : Bytes) (p : TftpPacket)
    → parse_tftp_packet datagram ≡ success p
    → peek_opcode datagram ≡ some (raw_opcode p.opcode)
unfolding parse_tftp_packet peek_opcode
peek_opcode-parse_tftp_packet [] p h = cc
peek_opcode-parse_tftp_packet (high ∷ []) p h = cc
peek_opcode-parse_tftp_packet (high ∷ low ∷ bytes) p h =
    ap some (opcode_of_body (read_u16 high low) bytes p h)
