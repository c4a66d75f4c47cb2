-- ===== src/Packet/Serialize.antt =====
-- src/net/tftp_packet.cpp: the serializers. A `std::vector<std::uint8_t>` is its list of bytes.
use tftp_stress_test.Common.{ℕ, ◌/◌, ◌%◌, List, [], ◌∷◌, ◌++◌, Bytes}
use tftp_stress_test.Packet.{TftpOption}

-- `(value >> 8) & 0xFF` and `value & 0xFF`.
unfoldable pub append_u16 : ℕ → Bytes
append_u16 value = value / 256 % 256 ∷ value % 256 ∷ []

-- The bytes that the call puts at the end of `out`.
unfoldable pub append_string_with_nul : Bytes → Bytes
append_string_with_nul text = text ++ (0 ∷ [])

unfoldable pub append_options : List TftpOption → Bytes
append_options [] = []
append_options (option ∷ rest) =
    append_string_with_nul option.name
    ++ (append_string_with_nul option.value ++ append_options rest)

unfoldable pub serialize_read_request : Bytes → Bytes → List TftpOption → Bytes
serialize_read_request filename mode options =
    append_u16 1
    ++ (append_string_with_nul filename ++ (append_string_with_nul mode ++ append_options options))

unfoldable pub serialize_write_request : Bytes → Bytes → List TftpOption → Bytes
serialize_write_request filename mode options =
    append_u16 2
    ++ (append_string_with_nul filename ++ (append_string_with_nul mode ++ append_options options))

unfoldable pub serialize_data : ℕ → Bytes → Bytes
serialize_data block_number payload = append_u16 3 ++ (append_u16 block_number ++ payload)

unfoldable pub serialize_acknowledgement : ℕ → Bytes
serialize_acknowledgement block_number = append_u16 4 ++ append_u16 block_number

unfoldable pub serialize_error : ℕ → Bytes → Bytes
serialize_error code message = append_u16 5 ++ (append_u16 code ++ append_string_with_nul message)

unfoldable pub serialize_option_acknowledgement : List TftpOption → Bytes
serialize_option_acknowledgement options = append_u16 6 ++ append_options options
