-- ===== src/Packet/RoundTrip.antt =====
-- Parsing what the serializers of src/net/tftp_packet.cpp write.
use tftp_stress_test.Common.{
  ℕ, zero, suc, ◌+◌, ◌/◌, ◌%◌, ◌^◌, ◌≤◌, ◌<◌, ◌≡◌, refl, ap, ◌≢◌, List, [], ◌∷◌, ◌++◌, append-nil,
  some, arith, Bytes, length, length-append, All,
}
use tftp_stress_test.Packet.{
  TftpOption, TftpPacket, empty_packet, read_request, write_request, data_block, acknowledgement,
  error, option_acknowledgement,
}
use tftp_stress_test.Packet.Serialize.{
  append_u16, append_string_with_nul, append_options, serialize_read_request,
  serialize_write_request, serialize_data, serialize_acknowledgement, serialize_error,
  serialize_option_acknowledgement,
}
use tftp_stress_test.Packet.Parse.{
  success, ◌>>=◌, read_u16, read_c_string, parse_option_list, parse_request, parse_data,
  parse_acknowledgement, parse_error, parse_option_acknowledgement, parse_tftp_packet,
}

-- What a NUL-terminated field can carry.
abbrev pub NulFree : Bytes → Type 0
NulFree s = All (λ b. b ≢ 0) s

abbrev pub IsWireOption : TftpOption → Type 0
IsWireOption option = NulFree option.name × (option.name ≢ []) × NulFree option.value

pub read_c_string-append_string_with_nul :
    (s rest : Bytes) → NulFree s → read_c_string (append_string_with_nul s ++ rest) ≡ some (s, rest)
unfolding read_c_string append_string_with_nul
read_c_string-append_string_with_nul [] rest h = refl
read_c_string-append_string_with_nul (b ∷ s) rest h =
    ground (arith, read_c_string-append_string_with_nul s rest h.1)

-- One round of the option loop.
option_round :
    (rounds b : ℕ) (bytes name after value rest : Bytes)
    → read_c_string (b ∷ bytes) ≡ some (name, after)
    → read_c_string after ≡ some (value, rest)
    → name ≢ []
    → parse_option_list (suc rounds) (b ∷ bytes) ≡ (
        parse_option_list rounds rest >>= λ options.
        success (record { name = name; value = value } ∷ options))
unfolding parse_option_list
option_round rounds b bytes [] after value rest e1 e2 ne = absurd (ne refl)
option_round rounds b bytes (c ∷ name) after value rest e1 e2 ne = rw (e1, e2)

parse_option_list_step :
    (rounds : ℕ) (name value rest : Bytes)
    → NulFree name
    → name ≢ []
    → NulFree value
    → parse_option_list
        (suc rounds)
        (append_string_with_nul name ++ (append_string_with_nul value ++ rest))
      ≡ (parse_option_list rounds rest >>= λ options.
          success (record { name = name; value = value } ∷ options))
unfolding append_string_with_nul
parse_option_list_step rounds [] value rest hn ne hv = absurd (ne refl)
parse_option_list_step rounds (b ∷ name) value rest hn ne hv =
    option_round rounds b _ (b ∷ name) (append_string_with_nul value ++ rest) value rest
      (read_c_string-append_string_with_nul (b ∷ name) _ hn)
      (read_c_string-append_string_with_nul value rest hv) ne

length-append_string_with_nul : (s : Bytes) → length (append_string_with_nul s) ≡ length s + 1
unfolding append_string_with_nul
length-append_string_with_nul s = length-append s (0 ∷ [])

-- A round is left for each option.
options_shorter :
    (option : TftpOption) (rest : List TftpOption)
    → length (append_options rest) < length (append_options (option ∷ rest))
unfolding append_options
options_shorter option rest =
    rw length-append (rw length-append (omega (arith, length-append_string_with_nul option.name)))

parse_option_list-nil : (rounds : ℕ) → parse_option_list rounds [] ≡ success []
unfolding parse_option_list
parse_option_list-nil zero = refl
parse_option_list-nil (suc rounds) = refl

-- The loop reads back the whole list that was written.
pub parse_option_list-append_options :
    (rounds : ℕ) (options : List TftpOption)
    → All IsWireOption options
    → length (append_options options) ≤ rounds
    → parse_option_list rounds (append_options options) ≡ success options
unfolding append_options
parse_option_list-append_options rounds [] h hl = parse_option_list-nil rounds
parse_option_list-append_options zero (option ∷ options) h hl =
    absurd (omega (arith, options_shorter option options))
parse_option_list-append_options (suc rounds) (option ∷ options) h hl = rw (
  parse_option_list_step rounds option.name option.value (append_options options) h.0.0 h.0.1 h.0.2,
  parse_option_list-append_options rounds options h.1
      (omega (arith, options_shorter option options)),
)

u16_bytes : (n : ℕ) → n < 2 ^ 16 → read_u16 (n / 256 % 256) (n % 256) ≡ n
unfolding read_u16
u16_bytes n h = omega arith

module _ (filename mode : Bytes) (options : List TftpOption) (hf : NulFree filename)
    (hm : NulFree mode) (ho : All IsWireOption options) where
  parse_request_fields :
      (request : TftpPacket)
      → parse_request request (
          append_string_with_nul filename
          ++ (append_string_with_nul mode ++ append_options options))
        ≡ success (record request { filename = filename; mode = mode; options = options })
  unfolding parse_request
  parse_request_fields request = rw (
    read_c_string-append_string_with_nul filename
        (append_string_with_nul mode ++ append_options options) hf,
    read_c_string-append_string_with_nul mode (append_options options) hm,
    parse_option_list-append_options (length (append_options options)) options ho (omega arith),
  )

  -- A read request written for a file name, a mode and options without NUL bytes, no option name
  -- empty, parses to a read request with these fields.
  pub parse-serialize_read_request :
      parse_tftp_packet (serialize_read_request filename mode options)
      ≡ success (record empty_packet {
        opcode = read_request;
        filename = filename;
        mode = mode;
        options = options;
      })
  unfolding parse_tftp_packet serialize_read_request append_u16
  parse-serialize_read_request =
      parse_request_fields (record empty_packet { opcode = read_request })

  -- A write request written for a file name, a mode and options without NUL bytes, no option name
  -- empty, parses to a write request with these fields.
  pub parse-serialize_write_request :
      parse_tftp_packet (serialize_write_request filename mode options)
      ≡ success (record empty_packet {
        opcode = write_request;
        filename = filename;
        mode = mode;
        options = options;
      })
  unfolding parse_tftp_packet serialize_write_request append_u16
  parse-serialize_write_request =
      parse_request_fields (record empty_packet { opcode = write_request })

-- A DATA datagram with a 16-bit block number parses to that number and exactly its payload.
pub parse-serialize_data :
    (block_number : ℕ) (payload : Bytes)
    → block_number < 2 ^ 16
    → parse_tftp_packet (serialize_data block_number payload)
      ≡ success (record empty_packet {
        opcode = data_block;
        block_number = block_number;
        contents = payload;
      })
unfolding parse_tftp_packet parse_data serialize_data append_u16
parse-serialize_data block_number payload h =
    ap
      (λ n.
        success (record empty_packet { opcode = data_block; block_number = n; contents = payload }))
      (u16_bytes block_number h)

-- An ACK with a 16-bit block number parses to that number.
pub parse-serialize_acknowledgement :
    (block_number : ℕ)
    → block_number < 2 ^ 16
    → parse_tftp_packet (serialize_acknowledgement block_number)
      ≡ success (record empty_packet { opcode = acknowledgement; block_number = block_number })
unfolding parse_tftp_packet parse_acknowledgement serialize_acknowledgement append_u16
parse-serialize_acknowledgement block_number h =
    ap (λ n. success (record empty_packet { opcode = acknowledgement; block_number = n }))
      (u16_bytes block_number h)

read_c_string_exact :
    (s : Bytes) → NulFree s → read_c_string (append_string_with_nul s) ≡ some (s, [])
read_c_string_exact s h = rw append-nil at (read_c_string-append_string_with_nul s [] h)

-- An ERROR with a 16-bit code and a message without NUL bytes parses to these.
pub parse-serialize_error :
    (code : ℕ) (message : Bytes)
    → code < 2 ^ 16
    → NulFree message
    → parse_tftp_packet (serialize_error code message)
      ≡ success (record empty_packet { opcode = error; error_code = code; error_message = message })
unfolding parse_tftp_packet parse_error serialize_error append_u16
parse-serialize_error code message h hm = rw (read_c_string_exact message hm) (
    ap
      (λ n.
        success (record empty_packet { opcode = error; error_code = n; error_message = message }))
      (u16_bytes code h))

-- An OACK written for options without NUL bytes, no name empty, parses to these options.
pub parse-serialize_option_acknowledgement :
    (options : List TftpOption)
    → All IsWireOption options
    → parse_tftp_packet (serialize_option_acknowledgement options)
      ≡ success (record empty_packet { opcode = option_acknowledgement; options = options })
unfolding parse_tftp_packet parse_option_acknowledgement serialize_option_acknowledgement append_u16
parse-serialize_option_acknowledgement options h =
    rw (parse_option_list-append_options (length (append_options options)) options h (omega arith))
