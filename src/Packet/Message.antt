-- ===== src/Packet/Message.antt =====
-- The six packets of src/net/tftp_packet.cpp, each with what its serializer takes and what its parser gives.
use tftp_stress_test.Common.{ℕ, ◌^◌, ◌<◌, ◌≡◌, Bytes, List, All}
use tftp_stress_test.Packet.{
  TftpOption, TftpPacket, empty_packet, read_request, write_request, data_block, acknowledgement,
  error, option_acknowledgement,
}
use tftp_stress_test.Packet.Serialize.{
  serialize_read_request, serialize_write_request, serialize_data, serialize_acknowledgement,
  serialize_error, serialize_option_acknowledgement,
}
use tftp_stress_test.Packet.Parse.{success, parse_tftp_packet}
use tftp_stress_test.Packet.RoundTrip.{
  NulFree, IsWireOption, parse-serialize_read_request, parse-serialize_write_request,
  parse-serialize_data, parse-serialize_acknowledgement, parse-serialize_error,
  parse-serialize_option_acknowledgement,
}

pub data Message : Type 0 where
  read_message write_message : Bytes → Bytes → List TftpOption → Message
  data_message : ℕ → Bytes → Message
  ack_message : ℕ → Message
  error_message : ℕ → Bytes → Message
  oack_message : List TftpOption → Message

abbrev pub serialize : Message → Bytes
serialize (read_message filename mode options) = serialize_read_request filename mode options
serialize (write_message filename mode options) = serialize_write_request filename mode options
serialize (data_message block_number contents) = serialize_data block_number contents
serialize (ack_message block_number) = serialize_acknowledgement block_number
serialize (error_message code message) = serialize_error code message
serialize (oack_message options) = serialize_option_acknowledgement options

abbrev pub packet : Message → TftpPacket
packet (read_message filename mode options) = record empty_packet {
  opcode = read_request;
  filename = filename;
  mode = mode;
  options = options;
}
packet (write_message filename mode options) = record empty_packet {
  opcode = write_request;
  filename = filename;
  mode = mode;
  options = options;
}
packet (data_message block_number contents) = record empty_packet {
  opcode = data_block;
  block_number = block_number;
  contents = contents;
}
packet (ack_message block_number) = record empty_packet {
  opcode = acknowledgement;
  block_number = block_number;
}
packet (error_message code message) = record empty_packet {
  opcode = error;
  error_code = code;
  error_message = message;
}
packet (oack_message options) = record empty_packet {
  opcode = option_acknowledgement;
  options = options;
}

-- Numbers have 16 bits, texts no NUL, and option names at least one character.
abbrev pub IsWire : Message → Type 0
IsWire (read_message filename mode options) =
    NulFree filename × NulFree mode × All IsWireOption options
IsWire (write_message filename mode options) =
    NulFree filename × NulFree mode × All IsWireOption options
IsWire (data_message block_number contents) = block_number < 2 ^ 16
IsWire (ack_message block_number) = block_number < 2 ^ 16
IsWire (error_message code message) = (code < 2 ^ 16) × NulFree message
IsWire (oack_message options) = All IsWireOption options

-- A packet of any of the six kinds that is written parses to a packet of that kind with the same fields, when its numbers
-- have 16 bits, its texts have no NUL bytes, and no option name is empty.
pub parse-serialize :
    (m : Message) → IsWire m → parse_tftp_packet (serialize m) ≡ success (packet m)
parse-serialize (read_message filename mode options) (hf, hm, ho) =
    parse-serialize_read_request filename mode options hf hm ho
parse-serialize (write_message filename mode options) (hf, hm, ho) =
    parse-serialize_write_request filename mode options hf hm ho
parse-serialize (data_message block_number contents) h =
    parse-serialize_data block_number contents h
parse-serialize (ack_message block_number) h = parse-serialize_acknowledgement block_number h
parse-serialize (error_message code message) (hc, hm) = parse-serialize_error code message hc hm
parse-serialize (oack_message options) h = parse-serialize_option_acknowledgement options h
