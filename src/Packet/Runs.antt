-- ===== src/Packet/Runs.antt =====
-- Tests of the models of src/net/tftp_packet.cpp, and the theorems at concrete inputs.
use tftp_stress_test.Common.{
  ◌≡◌, ◌⊎◌, refl, List, [], ◌∷◌, ◌++◌, some, arith, Bytes, text, to_string, All, true,
}
use tftp_stress_test.Packet.{TftpOption, TftpPacket, empty_packet, data_block, acknowledgement}
use tftp_stress_test.Packet.Compare.{equals_ignore_ascii_case}
use tftp_stress_test.Packet.Serialize.{
  append_u16, append_string_with_nul, append_options, serialize_read_request,
}
use tftp_stress_test.Packet.Parse.{success, failure, parse_tftp_packet, parse_data, peek_opcode}
use tftp_stress_test.Packet.RoundTrip.{NulFree, IsWireOption}
use tftp_stress_test.Packet.Canonical.{written, ReadsAll, parse_tftp_packet_sound}
use tftp_stress_test.Packet.Message.{read_message, serialize, packet, parse-serialize}
use tftp_stress_test.Packet.Describe.{describe_packet}
use tftp_stress_test.Packet.Total.{parse_tftp_packet_answers, peek_opcode-parse_tftp_packet}

-- The file "a", mode "m", and an option "b" with the value "8".
abbrev one_option : List TftpOption
one_option = record { name = b'b' ∷ []; value = b'8' ∷ [] } ∷ []

one_option-IsWireOption : All IsWireOption one_option
one_option-IsWireOption = (((λ e. omega arith, tt), λ e. cc, (λ e. omega arith, tt)), tt)

letter-NulFree : NulFree (b'a' ∷ [])
letter-NulFree = (λ e. omega arith, tt)

same_name : equals_ignore_ascii_case (text "BLKsize") (text "blksize") ≡ true
unfolding equals_ignore_ascii_case text
same_name = refl

request_bytes :
    serialize_read_request (b'a' ∷ []) (b'a' ∷ []) one_option
    ≡ 0 ∷ 1 ∷ b'a' ∷ 0 ∷ b'a' ∷ 0 ∷ b'b' ∷ 0 ∷ b'8' ∷ 0 ∷ []
unfolding serialize_read_request append_u16 append_string_with_nul append_options
request_bytes = refl

abbrev block_packet : TftpPacket
block_packet = record empty_packet { opcode = data_block; block_number = 258; contents = 9 ∷ [] }

parse_tftp_packet_sound_example :
    (rest : Bytes) × (0 ∷ 3 ∷ 1 ∷ 2 ∷ 9 ∷ [] ≡ written block_packet ++ rest)
    × (ReadsAll block_packet.opcode → rest ≡ [])
unfolding parse_tftp_packet parse_data
parse_tftp_packet_sound_example =
    parse_tftp_packet_sound (0 ∷ 3 ∷ 1 ∷ 2 ∷ 9 ∷ []) block_packet
      (omega arith, (omega arith, (omega arith, (omega arith, (omega arith, tt))))) refl

parse_tftp_packet_answers_example :
    ((p : TftpPacket) × (parse_tftp_packet (0 ∷ 1 ∷ 2 ∷ []) ≡ success p))
    ⊎ ((reason : Bytes) × (parse_tftp_packet (0 ∷ 1 ∷ 2 ∷ []) ≡ failure reason))
parse_tftp_packet_answers_example = parse_tftp_packet_answers (0 ∷ 1 ∷ 2 ∷ [])

peek_opcode-parse_tftp_packet_example : peek_opcode (0 ∷ 3 ∷ 1 ∷ 2 ∷ 9 ∷ []) ≡ some 3
unfolding parse_tftp_packet parse_data
peek_opcode-parse_tftp_packet_example =
    peek_opcode-parse_tftp_packet (0 ∷ 3 ∷ 1 ∷ 2 ∷ 9 ∷ []) block_packet refl

abbrev ack_seven : TftpPacket
ack_seven = record empty_packet { opcode = acknowledgement; block_number = 7 }

seven_described : describe_packet ack_seven ≡ text "ACK block=7"
unfolding describe_packet text to_string
seven_described = refl

parse-serialize_example :
    parse_tftp_packet (serialize (read_message (b'a' ∷ []) (b'a' ∷ []) one_option))
    ≡ success (packet (read_message (b'a' ∷ []) (b'a' ∷ []) one_option))
parse-serialize_example =
    parse-serialize (read_message (b'a' ∷ []) (b'a' ∷ []) one_option)
      (letter-NulFree, letter-NulFree, one_option-IsWireOption)
