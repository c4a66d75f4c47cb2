-- ===== src/Packet/Canonical.antt =====
-- What the parser of src/net/tftp_packet.cpp accepts, and that it always answers.
use tftp_stress_test.Common.{
  ℕ, zero, suc, ◌<◌, ◌≡◌, refl, sym, ap, subst, ◌∙◌, ◌≢◌, ◌⊎◌, inl, inr, List, [], ◌∷◌, ◌++◌,
  append-nil, Option, none, some, arith, Bytes, length, All,
}
use tftp_stress_test.Packet.{
  TftpOpcode, TftpOption, TftpPacket, empty_packet, no_opcode, read_request, write_request,
  data_block, acknowledgement, error, option_acknowledgement, IsByte,
}
use tftp_stress_test.Packet.Serialize.{
  append_u16, append_string_with_nul, append_options, serialize_read_request,
  serialize_write_request, serialize_data, serialize_acknowledgement, serialize_error,
  serialize_option_acknowledgement,
}
use tftp_stress_test.Packet.Parse.{
  ParseResult, success, failure, out_of_rounds, ◌>>=◌, or_failure, with_prefix, read_u16,
  read_c_string, check_name, parse_option_list, parse_request, parse_data, parse_acknowledgement,
  parse_error, parse_option_acknowledgement, parse_body, parse_tftp_packet,
}
use tftp_stress_test.Packet.RoundTrip.{NulFree, IsWireOption}

pub >>=-eq-success {ℓ κ} :
    {A : Type ℓ} {B : Type κ} (m : ParseResult A) (f : A → ParseResult B) {b : B}
    → (m >>= f) ≡ success b
    → (a : A) × (m ≡ success a) × (f a ≡ success b)
>>=-eq-success (success a) f h = (a, refl, h)
>>=-eq-success (failure r) f h = cc
>>=-eq-success out_of_rounds f h = cc

pub or_failure-eq-success {ℓ} :
    {A : Type ℓ} (o : Option A) (reason : Bytes) {a : A}
    → or_failure o reason ≡ success a
    → o ≡ some a
or_failure-eq-success none reason h = cc
or_failure-eq-success (some a) reason h = cc

with_prefix-eq-success {ℓ} :
    {A : Type ℓ} (prefix : Bytes) (r : ParseResult A) {a : A}
    → with_prefix prefix r ≡ success a
    → r ≡ success a
with_prefix-eq-success prefix (success a) h = h
with_prefix-eq-success prefix (failure r) h = cc
with_prefix-eq-success prefix out_of_rounds h = cc

pub read_c_string_sound :
    (bytes s rest : Bytes)
    → read_c_string bytes ≡ some (s, rest)
    → (bytes ≡ append_string_with_nul s ++ rest) × NulFree s × (length rest < length bytes)
unfolding read_c_string append_string_with_nul
read_c_string_sound [] s rest h = cc
read_c_string_sound (b ∷ bytes) [] rest h = ground arith
read_c_string_sound (b ∷ bytes) (c ∷ s) rest h = ground (arith, read_c_string_sound bytes s rest)

pub check_name_sound :
    (name value : Bytes) (option : TftpOption)
    → check_name name value ≡ success option
    → (option ≡ record { name = name; value = value }) × (name ≢ [])
unfolding check_name
check_name_sound [] value option h = cc
check_name_sound (b ∷ name) value option h = (cc, λ e. cc)

option_round_sound :
    {bytes name after value rest : Bytes} {option : TftpOption} (more : List TftpOption)
    → read_c_string bytes ≡ some (name, after)
    → read_c_string after ≡ some (value, rest)
    → (option ≡ record { name = name; value = value }) × (name ≢ [])
    → (rest ≡ append_options more) × All IsWireOption more
    → (bytes ≡ append_options (option ∷ more)) × All IsWireOption (option ∷ more)
unfolding append_options
option_round_sound {bytes} {name} {after} {value} {rest} {option} more e1 e2 (e3, ne) ih =
    let s1 = read_c_string_sound bytes name after e1 in
    let s2 = read_c_string_sound after value rest e2 in
    rw e3 (
      s1.0
          ∙ ap (λ t. append_string_with_nul name ++ t)
              (s2.0 ∙ ap (λ t. append_string_with_nul value ++ t) ih.0),
      ((s1.1, ne, s2.1), ih.1),
    )

pub success-injective {ℓ} : {A : Type ℓ} {a b : A} → success a ≡ success b → a ≡ b
success-injective h = cc

-- What the option loop accepts is the serialized form of what it returns.
parse_option_list_sound :
    (rounds : ℕ) (bytes : Bytes) (options : List TftpOption)
    → parse_option_list rounds bytes ≡ success options
    → (bytes ≡ append_options options) × All IsWireOption options
unfolding parse_option_list
parse_option_list_sound rounds [] options h =
    subst (λ o. ([] ≡ append_options o) × All IsWireOption o) (success-injective h)
      (unfold append_options in (refl, tt))
parse_option_list_sound zero (b ∷ bytes) options h = cc
parse_option_list_sound (suc rounds) (b ∷ bytes) options h =
    let ((name, after), e1, h1) = >>=-eq-success (or_failure (read_c_string (b ∷ bytes)) _) _ h in
    let ((value, rest), e2, h2) = >>=-eq-success (or_failure (read_c_string after) _) _ h1 in
    let (option, e3, h3) = >>=-eq-success (check_name name value) _ h2 in
    let (more, e4, h4) = >>=-eq-success (parse_option_list rounds rest) _ h3 in
    subst (λ o. (b ∷ bytes ≡ append_options o) × All IsWireOption o) (success-injective h4)
      (option_round_sound more (or_failure-eq-success _ _ e1) (or_failure-eq-success _ _ e2)
        (check_name_sound name value option e3) (parse_option_list_sound rounds rest more e4))

u16_sound :
    (high low : ℕ) → IsByte high → IsByte low → append_u16 (read_u16 high low) ≡ high ∷ low ∷ []
unfolding append_u16 read_u16
u16_sound high low h l = ground arith

-- What a sender would write for a packet, by its opcode.
abbrev written_as : TftpOpcode → TftpPacket → Bytes
written_as no_opcode p = []
written_as read_request p = serialize_read_request p.filename p.mode p.options
written_as write_request p = serialize_write_request p.filename p.mode p.options
written_as data_block p = serialize_data p.block_number p.contents
written_as acknowledgement p = serialize_acknowledgement p.block_number
written_as error p = serialize_error p.error_code p.error_message
written_as option_acknowledgement p = serialize_option_acknowledgement p.options

abbrev pub written : TftpPacket → Bytes
written p = written_as p.opcode p

-- The opcodes whose parser leaves no byte unread.
abbrev pub ReadsAll : TftpOpcode → Type 0
ReadsAll acknowledgement = ⊥
ReadsAll error = ⊥
ReadsAll _ = Unit {0}

abbrev Accepts : Bytes → TftpPacket → Type 0
Accepts datagram p =
    (rest : Bytes) × (datagram ≡ written p ++ rest) × (ReadsAll p.opcode → rest ≡ [])

exactly : {datagram : Bytes} (p : TftpPacket) → datagram ≡ written p → Accepts datagram p
exactly p e = ([], e ∙ sym (append-nil (written p)), λ _. refl)

module _ (bytes : Bytes) (p : TftpPacket) where
  pub request_sound :
      (request : TftpPacket)
      → parse_request request bytes ≡ success p
      → (p.opcode ≡ request.opcode)
        × (bytes
            ≡ append_string_with_nul p.filename
              ++ (append_string_with_nul p.mode ++ append_options p.options))
  unfolding parse_request
  request_sound request h =
      let ((filename, after), e1, h1) = >>=-eq-success (or_failure (read_c_string bytes) _) _ h in
      let ((mode, rest), e2, h2) = >>=-eq-success (or_failure (read_c_string after) _) _ h1 in
      let (options, e3, h3) =
        >>=-eq-success (with_prefix _ (parse_option_list (length rest) rest)) _ h2 in
      let s1 = read_c_string_sound bytes filename after (or_failure-eq-success _ _ e1) in
      let s2 = read_c_string_sound after mode rest (or_failure-eq-success _ _ e2) in
      let s3 = parse_option_list_sound (length rest) rest options (with_prefix-eq-success _ _ e3) in
      rw (← success-injective h3) (
        refl,
        s1.0
            ∙ ap (λ t. append_string_with_nul filename ++ t)
                (s2.0 ∙ ap (λ t. append_string_with_nul mode ++ t) s3.0),
      )

  pub option_acknowledgement_sound :
      parse_option_acknowledgement bytes ≡ success p
      → (p.opcode ≡ option_acknowledgement) × (bytes ≡ append_options p.options)
  unfolding parse_option_acknowledgement
  option_acknowledgement_sound h =
      let (options, e3, h3) =
        >>=-eq-success (with_prefix _ (parse_option_list (length bytes) bytes)) _ h in
      rw (← success-injective h3)
        (refl, (parse_option_list_sound _ bytes options (with_prefix-eq-success _ _ e3)).0)

data_sound :
    (bytes : Bytes) (p : TftpPacket)
    → All IsByte bytes
    → parse_data bytes ≡ success p
    → Accepts (append_u16 3 ++ bytes) p
unfolding parse_data
data_sound [] p b h = cc
data_sound (high ∷ []) p b h = cc
data_sound (high ∷ low ∷ contents) p b h =
    subst (Accepts (append_u16 3 ++ (high ∷ low ∷ contents))) (success-injective h) (
      exactly
        (record empty_packet {
          opcode = data_block;
          block_number = read_u16 high low;
          contents = contents;
        })
        (unfold serialize_data in
          ap (λ t. append_u16 3 ++ (t ++ contents)) (sym (u16_sound high low b.0 b.1.0))))

acknowledgement_sound :
    (bytes : Bytes) (p : TftpPacket)
    → All IsByte bytes
    → parse_acknowledgement bytes ≡ success p
    → Accepts (append_u16 4 ++ bytes) p
unfolding parse_acknowledgement
acknowledgement_sound [] p b h = cc
acknowledgement_sound (high ∷ []) p b h = cc
acknowledgement_sound (high ∷ low ∷ rest) p b h =
    subst (Accepts (append_u16 4 ++ (high ∷ low ∷ rest))) (success-injective h) (
      rest,
      (unfold serialize_acknowledgement append_u16 in
          ap (λ t. append_u16 4 ++ (t ++ rest)) (sym (u16_sound high low b.0 b.1.0))),
      λ none_left. absurd none_left,
    )

error_sound :
    (bytes : Bytes) (p : TftpPacket)
    → All IsByte bytes
    → parse_error bytes ≡ success p
    → Accepts (append_u16 5 ++ bytes) p
unfolding parse_error
error_sound [] p b h = cc
error_sound (high ∷ []) p b h = cc
error_sound (high ∷ low ∷ bytes) p b h =
    let ((message, rest), e1, h1) = >>=-eq-success (or_failure (read_c_string bytes) _) _ h in
    let s1 = read_c_string_sound bytes message rest (or_failure-eq-success _ _ e1) in
    subst (Accepts (append_u16 5 ++ (high ∷ low ∷ bytes))) (success-injective h1) (
      rest,
      (unfold serialize_error append_u16 in
          ap (λ t. append_u16 5 ++ (t ++ bytes)) (sym (u16_sound high low b.0 b.1.0))
          ∙ ap (λ t. append_u16 5 ++ (append_u16 (read_u16 high low) ++ t)) s1.0),
      λ none_left. absurd none_left,
    )

request-Accepts :
    (bytes : Bytes) (p request : TftpPacket)
    → parse_request request bytes ≡ success p
    → (request.opcode ≡ read_request → Accepts (append_u16 1 ++ bytes) p)
      × (request.opcode ≡ write_request → Accepts (append_u16 2 ++ bytes) p)
request-Accepts bytes p request h =
    let (opcode_kept, fields) = request_sound bytes p request h in
    (
      λ e. exactly p (
          subst (λ o. append_u16 1 ++ bytes ≡ written_as o p) (sym (opcode_kept ∙ e))
            (unfold serialize_read_request in ap (λ t. append_u16 1 ++ t) fields)),
      λ e. exactly p (
          subst (λ o. append_u16 2 ++ bytes ≡ written_as o p) (sym (opcode_kept ∙ e))
            (unfold serialize_write_request in ap (λ t. append_u16 2 ++ t) fields)),
    )

option_acknowledgement-Accepts :
    (bytes : Bytes) (p : TftpPacket)
    → parse_option_acknowledgement bytes ≡ success p
    → Accepts (append_u16 6 ++ bytes) p
option_acknowledgement-Accepts bytes p h =
    let (e, fields) = option_acknowledgement_sound bytes p h in
    exactly p (
      subst (λ o. append_u16 6 ++ bytes ≡ written_as o p) (sym e)
        (unfold serialize_option_acknowledgement in ap (λ t. append_u16 6 ++ t) fields))

pub body_cases :
    (raw : ℕ) (bytes : Bytes) (p : TftpPacket)
    → parse_body raw bytes ≡ success p
    → ((raw ≡ 1)
        × (parse_request (record empty_packet { opcode = read_request }) bytes ≡ success p))
      ⊎ ((raw ≡ 2)
          × (parse_request (record empty_packet { opcode = write_request }) bytes ≡ success p))
      ⊎ ((raw ≡ 3) × (parse_data bytes ≡ success p))
      ⊎ ((raw ≡ 4) × (parse_acknowledgement bytes ≡ success p))
      ⊎ ((raw ≡ 5) × (parse_error bytes ≡ success p))
      ⊎ ((raw ≡ 6) × (parse_option_acknowledgement bytes ≡ success p))
unfolding parse_body
body_cases raw bytes p h = ground arith

body_sound :
    (raw : ℕ) (bytes : Bytes) (p : TftpPacket)
    → All IsByte bytes
    → parse_body raw bytes ≡ success p
    → Accepts (append_u16 raw ++ bytes) p
body_sound raw bytes p b h = elim (body_cases raw bytes p h) [
  | inl (e, r) ↦ rw e ((request-Accepts bytes p _ r).0 refl)
  | inr (inl (e, r)) ↦ rw e ((request-Accepts bytes p _ r).1 refl)
  | inr (inr (inl (e, r))) ↦ rw e (data_sound bytes p b r)
  | inr (inr (inr (inl (e, r)))) ↦ rw e (acknowledgement_sound bytes p b r)
  | inr (inr (inr (inr (inl (e, r))))) ↦ rw e (error_sound bytes p b r)
  | inr (inr (inr (inr (inr (e, r))))) ↦ rw e (option_acknowledgement-Accepts bytes p r)
]

-- A datagram of bytes that the parser accepts is what a sender writes for the packet that the parser
-- returns, up to bytes behind an ACK or an ERROR; for the other opcodes no byte is left over.
pub parse_tftp_packet_sound :
    (datagram : Bytes) (p : TftpPacket)
    → All IsByte datagram
    → parse_tftp_packet datagram ≡ success p
    → (rest : Bytes) × (datagram ≡ written p ++ rest) × (ReadsAll p.opcode → rest ≡ [])
unfolding parse_tftp_packet
parse_tftp_packet_sound [] p b h = cc
parse_tftp_packet_sound (high ∷ []) p b h = cc
parse_tftp_packet_sound (high ∷ low ∷ bytes) p b h =
    let (rest, e, r) = body_sound (read_u16 high low) bytes p b.1.1 h in
    (rest, ap (λ t. t ++ bytes) (sym (u16_sound high low b.0 b.1.0)) ∙ e, r)
