-- ===== src/Engine/Client.antt =====
-- adapters/reference/tftp_reference_engine.cpp: `ReferenceClient`. Parameters: whether the socket opens, what
-- reading the source file gives, whether a content can be written to the destination, and all receptions.
pub mod Upload
pub mod Oack
pub mod Patience
use tftp_stress_test.Common.{
  ℕ, zero, suc, ◌+◌, ◌≡◌, refl, Bool, true, false, not, ◌&&◌, List, [], ◌∷◌, ◌++◌, Option, none,
  some, Bytes, text, ◌==◌, if◌then◌else◌, length,
}
use tftp_stress_test.Packet.{
  TftpPacket, data_block, acknowledgement, error, option_acknowledgement, is_opcode,
  option_negotiation_failed,
}
use tftp_stress_test.Packet.Compare.{equals_ignore_ascii_case}
use tftp_stress_test.Packet.Serialize.{
  serialize_read_request, serialize_write_request, serialize_acknowledgement, serialize_error,
}
use tftp_stress_test.Packet.Parse.{ParseResult, success, failure, out_of_rounds, parse_tftp_packet}
use tftp_stress_test.Netascii.{encode_local_to_netascii, decode_netascii_to_local}
use tftp_stress_test.Engine.{
  Endpoint, Datagram, Reception, no_datagram, receive_failed, datagram_from, EngineConfig,
  NegotiatedParameters, TransferOutcome, outcome_of, Step,
}
use tftp_stress_test.Engine.Sender.{run_data_sender}
use tftp_stress_test.Engine.Receiver.{ReceiverCall, run_data_receiver}
use tftp_stress_test.Engine.Options.{
  ClientRequestedOptions, build_requested_option_list, OackResult, applied, rejected, thrown,
  apply_oack_to_client,
}

unfoldable pub mode_is_netascii : Bytes → Bool
mode_is_netascii mode = equals_ignore_ascii_case mode (text "netascii")

-- The default members of `NegotiatedParameters`, and the parameters without negotiation.
abbrev pub default_parameters : NegotiatedParameters
default_parameters = record {
  block_size = 512;
  window_size = 1;
  timeout_seconds = none;
  transfer_size = none;
}

abbrev pub plain_parameters : EngineConfig → NegotiatedParameters
plain_parameters config = record default_parameters { block_size = config.default_block_size }

-- How the loop around the request ends: with the first packet and its sender, without one, or it still waits.
pub data Reply : Type 0 where
  replied : TftpPacket → Endpoint → List Reception → Reply
  no_reply awaited : Reply

pub record Exchange : Type 0 where
  pub sends : List Datagram
  pub reply : Reply

abbrev pub parsed_reply : Endpoint → ParseResult TftpPacket → Option (TftpPacket × Endpoint)
parsed_reply sender (success packet) = some (packet, sender)
parsed_reply sender _ = none

-- A reception that ends the loop.
unfoldable pub first_reply : Reception → Option (TftpPacket × Endpoint)
first_reply (datagram_from sender (b ∷ bytes)) = parsed_reply sender (parse_tftp_packet (b ∷ bytes))
first_reply _ = none

-- The loop around the request, with the attempts that it has left.
unfoldable pub send_request : Datagram → ℕ → List Reception → Exchange
send_request request zero receptions = record { sends = []; reply = no_reply }
send_request request (suc attempts) [] = record { sends = request ∷ []; reply = awaited }
send_request request (suc attempts) (reception ∷ rest) = elim (first_reply reception) [
  | some (packet, sender) ↦ record { sends = request ∷ []; reply = replied packet sender rest }
  | none ↦
      let next = send_request request attempts rest in record next { sends = request ∷ next.sends }
]

-- `uncaught`: an exception leaves the call, or it divides by zero.
pub data ClientResult : Type 0 where
  returns : TransferOutcome → ClientResult
  waiting uncaught : ClientResult

pub record ClientRun : Type 0 where
  pub sends : List Datagram
  pub written : Option Bytes
  pub result : ClientResult

abbrev pub ends : List Datagram → ClientResult → ClientRun
ends sends result = record { sends = sends; written = none; result = result }

-- A call that fails before the data.
abbrev pub fails : List Datagram → Bytes → ClientRun
fails sends message =
    ends sends (returns (record (outcome_of default_parameters) { error_message = message }))

abbrev pub unanswered : List Datagram → Bytes → ClientRun
unanswered sends message =
    ends sends (
      returns
        (record (outcome_of default_parameters) { error_message = message; timed_out = true }))

abbrev pub refused : List Datagram → ℕ → Bytes → ClientRun
refused sends code message = ends sends (
    returns
      (record (outcome_of default_parameters) { error_code = some code; error_message = message }))

-- ERROR 8 for an OACK that is rejected.
abbrev pub rejects_oack : Endpoint → List Datagram → Bytes → ClientRun
rejects_oack peer sends reason =
    refused
      (sends
        ++ record { destination = peer; bytes = serialize_error option_negotiation_failed reason }
          ∷ [])
      option_negotiation_failed reason

-- The end of `read_file`, with the receiver's outcome and content.
unfoldable pub store_received :
    (Bytes → Bool)
    → Bytes
    → NegotiatedParameters
    → List Datagram
    → Bytes
    → TransferOutcome
    → ClientRun
store_received writable mode params sends sink outcome =
    let local_bytes = if mode_is_netascii mode then decode_netascii_to_local sink else sink in
    let data_outcome = record outcome { negotiated = params } in
    if not outcome.completed_successfully
    then ends sends (returns data_outcome)
    else if writable local_bytes
    then record { sends = sends; written = some local_bytes; result = returns data_outcome }
    else ends sends (
        returns (record data_outcome {
          completed_successfully = false;
          error_message = text "could not write destination file";
        }))

-- The data phase of `read_file`.
unfoldable pub receive_file :
    (Bytes → Bool)
    → Bytes
    → ReceiverCall
    → Option TftpPacket
    → List Datagram
    → List Reception
    → ClientRun
receive_file writable mode c primed sends receptions =
    let step = run_data_receiver c 1 primed receptions in
    elim step.returned [
      | none ↦ ends (sends ++ step.sends) waiting
      | some outcome ↦
          store_received writable mode c.params (sends ++ step.sends) step.state.sink outcome
    ]

-- `read_file` behind its first reply.
unfoldable pub read_file_after_reply :
    (Bytes → Bool)
    → EngineConfig
    → Bytes
    → ClientRequestedOptions
    → List Datagram
    → TftpPacket
    → Endpoint
    → List Reception
    → ClientRun
read_file_after_reply writable config mode options sends reply peer rest =
    let call : NegotiatedParameters → ReceiverCall =
      λ params. record { peer = peer; params = params; config = config } in
    if is_opcode reply.opcode error
    then refused sends reply.error_code reply.error_message
    else if is_opcode reply.opcode option_acknowledgement
    then elim (apply_oack_to_client reply.options options (plain_parameters config)) [
      | rejected reason ↦ rejects_oack peer sends reason
      | thrown ↦ ends sends uncaught
      | applied params ↦
          receive_file writable mode (call params) none
            (sends ++ record { destination = peer; bytes = serialize_acknowledgement 0 } ∷ []) rest
    ]
    else if is_opcode reply.opcode data_block
    then receive_file writable mode (call (plain_parameters config)) (some reply) sends rest
    else fails sends (text "unexpected first reply to RRQ")

unfoldable pub read_file :
    Bool
    → (Bytes → Bool)
    → EngineConfig
    → Endpoint
    → Bytes
    → Bytes
    → ClientRequestedOptions
    → List Reception
    → ClientRun
read_file opens writable config server_endpoint remote_filename mode options receptions =
    let request : Datagram = record {
      destination = server_endpoint;
      bytes =
          serialize_read_request remote_filename mode (build_requested_option_list options config);
    } in
    let exchange = send_request request (config.maximum_retransmissions + 1) receptions in
    if not opens then fails [] (text "client could not open socket") else elim exchange.reply [
      | no_reply ↦ unanswered exchange.sends (text "no reply to RRQ (server unreachable/loss)")
      | awaited ↦ ends exchange.sends waiting
      | replied packet sender rest ↦
          read_file_after_reply writable config mode options exchange.sends packet sender rest
    ]
