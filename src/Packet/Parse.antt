-- ===== src/Packet/Parse.antt =====
-- src/net/tftp_packet.cpp: the parser. The pair (data, offset) of the source is the list of the bytes
-- from `offset` to the end of the datagram.
use tftp_stress_test.Common.{
  ℕ, zero, suc, ◌+◌, ◌*◌, List, [], ◌∷◌, ◌++◌, Option, none, some, Bytes, text, to_string, ◌==◌,
  if◌then◌else◌, is_empty, length,
}
use tftp_stress_test.Packet.{
  TftpOption, TftpPacket, empty_packet, read_request, write_request, data_block, acknowledgement,
  error, option_acknowledgement,
}

-- `ParseResult`, for a packet and for a part of one. `out_of_rounds` is no result of the source: the
-- loop over the options has had fewer rounds than it needs.
pub data ParseResult {ℓ} (A : Type ℓ) : Type ℓ where
  success : A → ParseResult A
  failure : Bytes → ParseResult A
  out_of_rounds : ParseResult A

infixl 5 ◌>>=◌
abbrev pub ◌>>=◌ {ℓ κ} :
    {A : Type ℓ} {B : Type κ} → ParseResult A → (A → ParseResult B) → ParseResult B
success a >>= f = f a
failure reason >>= f = failure reason
out_of_rounds >>= f = out_of_rounds

-- `if (!read_c_string(...)) return failure(reason)`.
abbrev pub or_failure {ℓ} : {A : Type ℓ} → Option A → Bytes → ParseResult A
or_failure none reason = failure reason
or_failure (some a) reason = success a

abbrev pub with_prefix {ℓ} : {A : Type ℓ} → Bytes → ParseResult A → ParseResult A
with_prefix prefix (success a) = success a
with_prefix prefix (failure reason) = failure (prefix ++ reason)
with_prefix prefix out_of_rounds = out_of_rounds

-- `(p[0] << 8) | p[1]`; the two operands share no bit.
unfoldable pub read_u16 : ℕ → ℕ → ℕ
read_u16 high low = high * 256 + low

abbrev pub cons_byte : ℕ → Option (Bytes × Bytes) → Option (Bytes × Bytes)
cons_byte b none = none
cons_byte b (some (string, rest)) = some (b ∷ string, rest)

-- The string before the first NUL and what follows that NUL.
unfoldable pub read_c_string : Bytes → Option (Bytes × Bytes)
read_c_string [] = none
read_c_string (b ∷ bytes) = if b == 0 then some ([], bytes) else cons_byte b (read_c_string bytes)

unfoldable pub check_name : Bytes → Bytes → ParseResult TftpOption
check_name name value =
    if is_empty name
    then failure (text "empty option name")
    else success (record { name = name; value = value })

-- `while (offset < length)`, with a bound on the rounds.
unfoldable pub parse_option_list : ℕ → Bytes → ParseResult (List TftpOption)
unfolding check_name
parse_option_list rounds [] = success []
parse_option_list zero (b ∷ bytes) = out_of_rounds
parse_option_list (suc rounds) (b ∷ bytes) = do
  (name, after_name) ←
      or_failure (read_c_string (b ∷ bytes)) (text "option name not NUL-terminated")
  (value, rest) ← or_failure (read_c_string after_name) (text "option value not NUL-terminated")
  option ← check_name name value
  options ← parse_option_list rounds rest
  success (option ∷ options)

-- The case of RRQ and WRQ; `request` has the opcode filled in.
unfoldable pub parse_request : TftpPacket → Bytes → ParseResult TftpPacket
parse_request request bytes = do
  (filename, after_name) ←
      or_failure (read_c_string bytes) (text "RRQ/WRQ filename not NUL-terminated")
  (mode, rest) ← or_failure (read_c_string after_name) (text "RRQ/WRQ mode not NUL-terminated")
  options ← with_prefix (text "RRQ/WRQ ") (parse_option_list (length rest) rest)
  success (record request { filename = filename; mode = mode; options = options })

unfoldable pub parse_data : Bytes → ParseResult TftpPacket
parse_data (high ∷ low ∷ contents) = success (record empty_packet {
  opcode = data_block;
  block_number = read_u16 high low;
  contents = contents;
})
parse_data _ = failure (text "DATA shorter than the 4-byte header")

-- Trailing bytes are ignored.
unfoldable pub parse_acknowledgement : Bytes → ParseResult TftpPacket
parse_acknowledgement (high ∷ low ∷ rest) =
    success (record empty_packet { opcode = acknowledgement; block_number = read_u16 high low })
parse_acknowledgement _ = failure (text "ACK shorter than 4 bytes")

unfoldable pub parse_error : Bytes → ParseResult TftpPacket
parse_error (high ∷ low ∷ bytes) = do
  (message, rest) ← or_failure (read_c_string bytes) (text "ERROR message not NUL-terminated")
  success (record empty_packet {
    opcode = error;
    error_code = read_u16 high low;
    error_message = message;
  })
parse_error _ = failure (text "ERROR shorter than the 4-byte header")

unfoldable pub parse_option_acknowledgement : Bytes → ParseResult TftpPacket
parse_option_acknowledgement bytes = do
  options ← with_prefix (text "OACK ") (parse_option_list (length bytes) bytes)
  success (record empty_packet { opcode = option_acknowledgement; options = options })

-- The `switch` on the opcode; `bytes` follow it.
unfoldable pub parse_body : ℕ → Bytes → ParseResult TftpPacket
parse_body raw bytes =
    if raw == 1
    then parse_request (record empty_packet { opcode = read_request }) bytes
    else if raw == 2
    then parse_request (record empty_packet { opcode = write_request }) bytes
    else if raw == 3
    then parse_data bytes
    else if raw == 4
    then parse_acknowledgement bytes
    else if raw == 5
    then parse_error bytes
    else if raw == 6
    then parse_option_acknowledgement bytes
    else failure (text "unknown opcode " ++ to_string raw)

unfoldable pub parse_tftp_packet : Bytes → ParseResult TftpPacket
unfolding parse_body read_u16
parse_tftp_packet (high ∷ low ∷ bytes) = parse_body (read_u16 high low) bytes
parse_tftp_packet _ = failure (text "datagram shorter than the 2-byte opcode field")

unfoldable pub peek_opcode : Bytes → Option ℕ
unfolding read_u16
peek_opcode (high ∷ low ∷ bytes) = some (read_u16 high low)
peek_opcode _ = none
