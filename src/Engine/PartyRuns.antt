-- ===== src/Engine/PartyRuns.antt =====
-- The theorems on negotiation, client and server of adapters/reference/tftp_reference_engine.cpp at concrete
-- inputs.
use tftp_stress_test.Common.{
  ◌≡◌, ◌&&◌, refl, true, false, List, [], ◌∷◌, ◌++◌, none, some, arith, Bytes, text, length, take,
  stoul, signed, magnitude, digits,
}
use tftp_stress_test.Packet.{TftpOption, TftpPacket, empty_packet, write_request}
use tftp_stress_test.Packet.Compare.{equals_ignore_ascii_case}
use tftp_stress_test.Packet.{read_request}
use tftp_stress_test.Packet.Parse.{
  parse_tftp_packet, parse_data, read_u16, parse_body, parse_option_acknowledgement,
  parse_option_list, read_c_string, check_name,
}
use tftp_stress_test.Engine.{
  ipv4, endpoint_eq, run_steps, Datagram, Reception, no_datagram, datagram_from, default_config,
}
use tftp_stress_test.Engine.Blocks.{wire_block_number}
use tftp_stress_test.Engine.Resolve.{resolve_data_to_absolute, search_forward}
use tftp_stress_test.Engine.Receive.{receive_from_locked_peer}
use tftp_stress_test.Engine.Receiver.{
  run_data_receiver, receiver_primed, receiver_on_reception, receiver_on_received,
  receiver_on_packet, on_data, receive_window, on_block_in_sequence, receiver_completes,
  receiver_outcome,
}
use tftp_stress_test.Engine.Options.{
  OptionName, windowsize, named, ClientRequestedOptions, build_requested_option_list, applied,
  apply_oack_to_client, negotiate_server_options,
}
use tftp_stress_test.Engine.Options.Laws.{InRange, negotiate_server_options-InRange}
use tftp_stress_test.Engine.Options.Agree.{asked_value, client_server_agree}
use tftp_stress_test.Engine.Options.Verdict.{IsAcceptable, IsMalformed}
use tftp_stress_test.Engine.Client.{
  default_parameters, mode_is_netascii, first_reply, ends, uncaught, rejects_oack, read_file,
}
use tftp_stress_test.Engine.Client.Upload.{write_file}
use tftp_stress_test.Engine.Client.Oack.{
  oack, read_request_of, write_request_of, payload_of, unrequested_option_rejected,
  malformed_oack_throws,
}
use tftp_stress_test.Engine.Server.{
  Files, is_below, resolve_served_path, serve_write, accept_upload, store_upload,
}
use tftp_stress_test.Engine.Server.Requests.{serve_write-written}

-- A client that asks for blocks of 70000 bytes and a window of 4.
abbrev requested : ClientRequestedOptions
requested = record {
  block_size = some 70000;
  timeout_seconds = none;
  transfer_size = none;
  window_size = some 4;
}

client_server_agree_example :
    apply_oack_to_client
      (negotiate_server_options
        (build_requested_option_list requested default_config)
        default_config
        (some 17)
        default_parameters).oack_options
      requested
      default_parameters
    ≡ applied
        (negotiate_server_options
          (build_requested_option_list requested default_config)
          default_config
          (some 17)
          default_parameters).params
client_server_agree_example =
    client_server_agree requested default_config default_config (some 17) default_parameters
      (omega arith)

-- A request for the window "4", in capitals.
abbrev window_option : TftpOption
window_option = record { name = text "WINDOWSIZE"; value = b'4' ∷ [] }

window_option-named : named window_option.name ≡ some windowsize
unfolding named equals_ignore_ascii_case text
window_option-named = refl

default-InRange : InRange default_parameters
default-InRange = record {
  block_min = omega arith;
  block_max = omega arith;
  window_min = omega arith;
  window_max = omega arith;
  timeout_range = λ t e. cc;
}

negotiate_server_options-InRange_example :
    InRange
      (negotiate_server_options (window_option ∷ []) default_config none default_parameters).params
negotiate_server_options-InRange_example =
    negotiate_server_options-InRange (window_option ∷ []) default_config none default_parameters
      default-InRange

-- An OACK with the asked window, and behind it an option.
abbrev answer_with : Bytes → Bytes → Reception
answer_with name value =
    datagram_from (ipv4 1 5000)
      (0 ∷ 6 ∷ text "WINDOWSIZE" ++ 0 ∷ b'4' ∷ 0 ∷ name ++ 0 ∷ value ++ 0 ∷ [])

window_option-IsAcceptable : IsAcceptable requested window_option
unfolding stoul signed magnitude digits
window_option-IsAcceptable = record {
  name = windowsize;
  value = 4;
  known = window_option-named;
  asked = (4, refl);
  readable = refl;
}

-- The value "x" of an option that was asked for.
abbrev bad_option : TftpOption
bad_option = record { name = text "blksize"; value = b'x' ∷ [] }

bad_option-IsMalformed : IsMalformed requested bad_option
unfolding stoul signed magnitude named equals_ignore_ascii_case text
bad_option-IsMalformed = record {
  name = OptionName.blksize;
  known = refl;
  asked = (70000, refl);
  unreadable = refl;
}

bad_answer :
    first_reply (answer_with (text "blksize") (b'x' ∷ []))
    ≡ some (oack (window_option ∷ bad_option ∷ []), ipv4 1 5000)
unfolding first_reply parse_tftp_packet read_u16 parse_body parse_option_acknowledgement
    parse_option_list read_c_string check_name text
bad_answer = refl

malformed_oack_throws_example :
    (read_file true
        (λ bytes. true)
        default_config
        (ipv4 1 69)
        (b'f' ∷ [])
        (text "octet")
        requested
        (answer_with (text "blksize") (b'x' ∷ []) ∷ [])
      ≡ ends
          (read_request_of default_config (ipv4 1 69) (b'f' ∷ []) (text "octet") requested ∷ [])
          uncaught)
    × (write_file true
          (some (7 ∷ []))
          default_config
          (ipv4 1 69)
          (b'f' ∷ [])
          (text "octet")
          requested
          (answer_with (text "blksize") (b'x' ∷ []) ∷ [])
        ≡ ends
            (write_request_of default_config
                (ipv4 1 69)
                (b'f' ∷ [])
                (text "octet")
                requested
                (payload_of (text "octet") (7 ∷ []))
              ∷ [])
            uncaught)
malformed_oack_throws_example =
    malformed_oack_throws (λ bytes. true) default_config (ipv4 1 69) (ipv4 1 5000) (b'f' ∷ [])
      (text "octet") (7 ∷ []) requested (window_option ∷ []) [] bad_option
      (answer_with (text "blksize") (b'x' ∷ [])) [] bad_answer (window_option-IsAcceptable, tt)
      bad_option-IsMalformed

abbrev timeout_option : TftpOption
timeout_option = record { name = text "timeout"; value = b'3' ∷ [] }

timeout_unrequested :
    (name : OptionName) → named timeout_option.name ≡ some name → asked_value name requested ≡ none
unfolding named equals_ignore_ascii_case text
timeout_unrequested OptionName.blksize e = absurd (cc)
timeout_unrequested OptionName.timeout e = refl
timeout_unrequested OptionName.tsize e = refl
timeout_unrequested windowsize e = absurd (cc)

timeout_answer :
    first_reply (answer_with (text "timeout") (b'3' ∷ []))
    ≡ some (oack (window_option ∷ timeout_option ∷ []), ipv4 1 5000)
unfolding first_reply parse_tftp_packet read_u16 parse_body parse_option_acknowledgement
    parse_option_list read_c_string check_name text
timeout_answer = refl

unrequested_option_rejected_example :
    ((reason : Bytes) × (read_file true
          (λ bytes. true)
          default_config
          (ipv4 1 69)
          (b'f' ∷ [])
          (text "octet")
          requested
          (answer_with (text "timeout") (b'3' ∷ []) ∷ [])
        ≡ rejects_oack
            (ipv4 1 5000)
            (read_request_of default_config (ipv4 1 69) (b'f' ∷ []) (text "octet") requested ∷ [])
            reason))
    × ((reason : Bytes) × (write_file true
            (some (7 ∷ []))
            default_config
            (ipv4 1 69)
            (b'f' ∷ [])
            (text "octet")
            requested
            (answer_with (text "timeout") (b'3' ∷ []) ∷ [])
          ≡ rejects_oack
              (ipv4 1 5000)
              (write_request_of default_config
                  (ipv4 1 69)
                  (b'f' ∷ [])
                  (text "octet")
                  requested
                  (payload_of (text "octet") (7 ∷ []))
                ∷ [])
              reason))
unrequested_option_rejected_example =
    unrequested_option_rejected (λ bytes. true) default_config (ipv4 1 69) (ipv4 1 5000) (b'f' ∷ [])
      (text "octet") (7 ∷ []) requested (window_option ∷ []) [] timeout_option
      (answer_with (text "timeout") (b'3' ∷ [])) [] timeout_answer (window_option-IsAcceptable, tt)
      timeout_unrequested

abbrev request : Datagram
request = record { destination = ipv4 1 69; bytes = 0 ∷ 1 ∷ 0 ∷ 0 ∷ [] }

-- A file system with one writable place below "/r", whose paths are their own canonical form.
abbrev files : Files
files = record {
  root = b'r' ∷ [];
  canonical = λ name. some (b'r' ∷ name);
  content = λ path. none;
  exists = λ path. false;
  writable = λ path bytes. true;
}

abbrev stored_path : Bytes
stored_path = b'r' ∷ b'a' ∷ []

abbrev sevens : Bytes
sevens = 7 ∷ []

-- The upload of a file "a" with the one byte 7, and the silence behind it.
abbrev upload : TftpPacket
upload = record empty_packet { opcode = write_request; filename = b'a' ∷ []; mode = [] }

abbrev upload_receptions : List Reception
upload_receptions = datagram_from (ipv4 2 3000) (0 ∷ 3 ∷ 0 ∷ 1 ∷ 7 ∷ []) ∷ no_datagram ∷ []

upload_stores :
    (serve_write files default_config (ipv4 2 3000) upload upload_receptions).written
    ≡ some (stored_path, 7 ∷ [])
unfolding serve_write accept_upload resolve_served_path is_below negotiate_server_options
    run_data_receiver run_steps receiver_primed store_upload receiver_on_reception
    receive_from_locked_peer receiver_on_received parse_tftp_packet parse_data receiver_on_packet
    on_data resolve_data_to_absolute search_forward wire_block_number receive_window
    on_block_in_sequence receiver_completes receiver_outcome mode_is_netascii
    equals_ignore_ascii_case text endpoint_eq
upload_stores = refl

serve_write-written_example :
    (resolve_served_path files (b'a' ∷ []) ≡ some stored_path)
    × (take (length files.root) stored_path ≡ files.root)
    × (true && false ≡ false)
serve_write-written_example =
    serve_write-written files default_config (ipv4 2 3000) upload upload_receptions stored_path
      (7 ∷ []) upload_stores

abbrev request_bytes : Bytes
request_bytes = 0 ∷ 1 ∷ b'a' ∷ 0 ∷ b'o' ∷ 0 ∷ []

abbrev parsed_request : TftpPacket
parsed_request = record empty_packet {
  opcode = read_request;
  filename = b'a' ∷ [];
  mode = b'o' ∷ [];
}
