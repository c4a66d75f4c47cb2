-- ===== src/Packet.antt =====
-- src/net/tftp_packet.hpp: the parsed packet and its parts. Wire layout: Packet/Serialize.antt and
-- Packet/Parse.antt (src/net/tftp_packet.cpp).
pub mod Compare
pub mod Serialize
pub mod Parse
pub mod RoundTrip
pub mod Message
pub mod Canonical
pub mod Total
pub mod Describe
mod Runs
use tftp_stress_test.Common.{ℕ, ◌<◌, List, [], Bytes, Bool, true, false}

-- `no_opcode` is `TftpOpcode{}`, the value 0 of a packet that no parser has filled in.
pub data TftpOpcode : Type 0 where
  no_opcode read_request write_request data_block acknowledgement : TftpOpcode
  error option_acknowledgement : TftpOpcode

pub record TftpOption : Type 0 where
  pub name : Bytes
  pub value : Bytes

-- `error_code` is an enum over `uint16_t` that the parser casts from any 16-bit number, so it is the
-- number; `contents` is the field `data`.
pub record TftpPacket : Type 0 where
  pub opcode : TftpOpcode
  pub filename : Bytes
  pub mode : Bytes
  pub options : List TftpOption
  pub block_number : ℕ
  pub contents : Bytes
  pub error_code : ℕ
  pub error_message : Bytes

abbrev pub empty_packet : TftpPacket
empty_packet = record {
  opcode = no_opcode;
  filename = [];
  mode = [];
  options = [];
  block_number = 0;
  contents = [];
  error_code = 0;
  error_message = [];
}

-- The numbers of `TftpOpcode`.
abbrev pub raw_opcode : TftpOpcode → ℕ
raw_opcode no_opcode = 0
raw_opcode read_request = 1
raw_opcode write_request = 2
raw_opcode data_block = 3
raw_opcode acknowledgement = 4
raw_opcode error = 5
raw_opcode option_acknowledgement = 6

-- `==` of two opcodes, by their numbers.
abbrev pub is_opcode : TftpOpcode → TftpOpcode → Bool
is_opcode read_request read_request = true
is_opcode write_request write_request = true
is_opcode data_block data_block = true
is_opcode acknowledgement acknowledgement = true
is_opcode error error = true
is_opcode option_acknowledgement option_acknowledgement = true
is_opcode no_opcode no_opcode = true
is_opcode _ _ = false

-- `TftpErrorCode` as far as the program names its members.
abbrev pub file_not_found : ℕ
file_not_found = 1

abbrev pub access_violation : ℕ
access_violation = 2

abbrev pub unknown_transfer_id : ℕ
unknown_transfer_id = 5

abbrev pub file_already_exists : ℕ
file_already_exists = 6

abbrev pub option_negotiation_failed : ℕ
option_negotiation_failed = 8

-- What a datagram of the stated widths holds: bytes, and 16-bit numbers.
abbrev pub IsByte : ℕ → Type 0
IsByte b = b < 256
