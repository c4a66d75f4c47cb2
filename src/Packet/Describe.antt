-- ===== src/Packet/Describe.antt =====
-- src/net/tftp_packet.cpp: the names of opcodes and error codes, and `describe_packet`.
use tftp_stress_test.Common.{
  ℕ, ◌^◌, ◌<◌, ◌≡◌, sym, ap, ◌∙◌, List, [], ◌∷◌, ◌++◌, some, Bytes, text, ◌==◌, if◌then◌else◌,
  to_string, stoul, stoul-to_string, arith, length, is_empty,
}
use tftp_stress_test.Packet.{
  TftpOpcode, no_opcode, read_request, write_request, data_block, acknowledgement, error,
  option_acknowledgement, TftpOption, TftpPacket,
}

abbrev pub opcode_name : TftpOpcode → Bytes
opcode_name read_request = text "RRQ"
opcode_name write_request = text "WRQ"
opcode_name data_block = text "DATA"
opcode_name acknowledgement = text "ACK"
opcode_name error = text "ERROR"
opcode_name option_acknowledgement = text "OACK"
opcode_name no_opcode = text "UNKNOWN"

unfoldable pub error_code_name : ℕ → Bytes
error_code_name code =
    if code == 0
    then text "not defined"
    else if code == 1
    then text "file not found"
    else if code == 2
    then text "access violation"
    else if code == 3
    then text "disk full / allocation exceeded"
    else if code == 4
    then text "illegal TFTP operation"
    else if code == 5
    then text "unknown transfer ID"
    else if code == 6
    then text "file already exists"
    else if code == 7
    then text "no such user"
    else if code == 8
    then text "option negotiation failed"
    else text "unknown error code"

abbrev pub describe_option : TftpOption → Bytes
describe_option option = option.name ++ (text "=" ++ option.value)

-- The loop over the options, behind the first of them.
unfoldable pub describe_rest : List TftpOption → Bytes
describe_rest [] = []
describe_rest (option ∷ rest) = text "," ++ (describe_option option ++ describe_rest rest)

abbrev pub describe_options : List TftpOption → Bytes
describe_options [] = []
describe_options (option ∷ rest) = describe_option option ++ describe_rest rest

abbrev pub describe_list : List TftpOption → Bytes
describe_list options = text " opts=[" ++ (describe_options options ++ text "]")

abbrev pub describe_request : TftpPacket → Bytes
describe_request packet =
    text " file='"
    ++ (packet.filename
        ++ (text "' mode="
            ++ (packet.mode
                ++ (if is_empty packet.options then [] else describe_list packet.options))))

-- The `switch` on the opcode.
abbrev pub describe_fields : TftpOpcode → TftpPacket → Bytes
describe_fields read_request packet = describe_request packet
describe_fields write_request packet = describe_request packet
describe_fields data_block packet =
    text " block="
    ++ (to_string packet.block_number ++ (text " len=" ++ to_string (length packet.contents)))
describe_fields acknowledgement packet = text " block=" ++ to_string packet.block_number
describe_fields error packet =
    text " code="
    ++ (to_string packet.error_code ++ (text " '" ++ (packet.error_message ++ text "'")))
describe_fields option_acknowledgement packet = describe_list packet.options
describe_fields no_opcode packet = []

unfoldable pub describe_packet : TftpPacket → Bytes
describe_packet packet = opcode_name packet.opcode ++ describe_fields packet.opcode packet

append_cancel : (xs ys zs : Bytes) → xs ++ ys ≡ xs ++ zs → ys ≡ zs
append_cancel [] ys zs h = h
append_cancel (x ∷ xs) ys zs h = append_cancel xs ys zs (tail_of h)
  where
    tail_of : x ∷ (xs ++ ys) ≡ x ∷ (xs ++ zs) → xs ++ ys ≡ xs ++ zs
    tail_of e = cc

some_injective : (a b : ℕ) → some a ≡ some b → a ≡ b
some_injective a b h = cc

to_string_injective : (a b : ℕ) → a < 2 ^ 64 → b < 2 ^ 64 → to_string a ≡ to_string b → a ≡ b
to_string_injective a b ha hb e =
    some_injective a b (sym (stoul-to_string a ha) ∙ ap stoul e ∙ stoul-to_string b hb)

-- Two ACKs with 16-bit block numbers that are described alike have the same block number.
describe_acknowledgement_injective :
    (p q : TftpPacket)
    → p.block_number < 2 ^ 16
    → q.block_number < 2 ^ 16
    → describe_packet (record p { opcode = acknowledgement })
      ≡ describe_packet (record q { opcode = acknowledgement })
    → p.block_number ≡ q.block_number
unfolding describe_packet
describe_acknowledgement_injective p q hp hq e =
    to_string_injective p.block_number q.block_number (omega arith) (omega arith)
      (append_cancel (text " block=") _ _ (append_cancel (text "ACK") _ _ e))
