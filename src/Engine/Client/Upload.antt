-- ===== src/Engine/Client/Upload.antt =====
-- adapters/reference/tftp_reference_engine.cpp: `ReferenceClient::write_file`.
use tftp_stress_test.Common.{
  ◌+◌, Bool, not, ◌&&◌, List, [], ◌++◌, Option, none, some, Bytes, text, ◌==◌, if◌then◌else◌,
  length,
}
use tftp_stress_test.Packet.{TftpPacket, acknowledgement, error, option_acknowledgement, is_opcode}
use tftp_stress_test.Packet.Serialize.{serialize_write_request}
use tftp_stress_test.Netascii.{encode_local_to_netascii}
use tftp_stress_test.Engine.{Endpoint, Datagram, Reception, EngineConfig, NegotiatedParameters}
use tftp_stress_test.Engine.Sender.{run_data_sender}
use tftp_stress_test.Engine.Options.{
  ClientRequestedOptions, build_requested_option_list, applied, rejected, thrown,
  apply_oack_to_client,
}
use tftp_stress_test.Engine.Client.{
  mode_is_netascii, plain_parameters, replied, no_reply, awaited, send_request, ClientRun, returns,
  waiting, uncaught, ends, fails, unanswered, refused, rejects_oack,
}

-- The data phase of `write_file`.
unfoldable pub send_file :
    Endpoint
    → Bytes
    → NegotiatedParameters
    → EngineConfig
    → List Datagram
    → List Reception
    → ClientRun
send_file peer payload params config sends receptions =
    elim (run_data_sender peer payload params config 0 receptions) [
      | none ↦ ends sends uncaught
      | some step ↦ elim step.returned [
        | none ↦ ends (sends ++ step.sends) waiting
        | some outcome ↦
            ends (sends ++ step.sends) (returns (record outcome { negotiated = params }))
      ]
    ]

-- `write_file` behind its first reply.
unfoldable pub write_file_after_reply :
    EngineConfig
    → Bytes
    → ClientRequestedOptions
    → List Datagram
    → TftpPacket
    → Endpoint
    → List Reception
    → ClientRun
write_file_after_reply config payload options sends reply peer rest =
    if is_opcode reply.opcode error
    then refused sends reply.error_code reply.error_message
    else if is_opcode reply.opcode option_acknowledgement
    then elim (apply_oack_to_client reply.options options (plain_parameters config)) [
      | rejected reason ↦ rejects_oack peer sends reason
      | thrown ↦ ends sends uncaught
      | applied params ↦ send_file peer payload params config sends rest
    ]
    else if is_opcode reply.opcode acknowledgement && (reply.block_number == 0)
    then send_file peer payload (plain_parameters config) config sends rest
    else fails sends (text "unexpected first reply to WRQ")

-- A transfer size that is asked for is the payload's.
unfoldable pub effective_options : ClientRequestedOptions → Bytes → ClientRequestedOptions
effective_options options payload = elim options.transfer_size [
  | none ↦ options
  | some size ↦ record options { transfer_size = some (length payload) }
]

unfoldable pub write_payload :
    Bool
    → Bytes
    → EngineConfig
    → Endpoint
    → Bytes
    → Bytes
    → ClientRequestedOptions
    → List Reception
    → ClientRun
write_payload opens payload config server_endpoint remote_filename mode options receptions =
    let asked = effective_options options payload in
    let request : Datagram = record {
      destination = server_endpoint;
      bytes =
          serialize_write_request remote_filename mode (build_requested_option_list asked config);
    } in
    let exchange = send_request request (config.maximum_retransmissions + 1) receptions in
    if not opens then fails [] (text "client could not open socket") else elim exchange.reply [
      | no_reply ↦ unanswered exchange.sends (text "no reply to WRQ (server unreachable/loss)")
      | awaited ↦ ends exchange.sends waiting
      | replied packet sender rest ↦
          write_file_after_reply config payload asked exchange.sends packet sender rest
    ]

unfoldable pub write_file :
    Bool
    → Option Bytes
    → EngineConfig
    → Endpoint
    → Bytes
    → Bytes
    → ClientRequestedOptions
    → List Reception
    → ClientRun
write_file opens file config server_endpoint remote_filename mode options receptions = elim file [
  | none ↦ fails [] (text "client could not read source file")
  | some file_bytes ↦
      write_payload opens
        (if mode_is_netascii mode then encode_local_to_netascii file_bytes else file_bytes) config
        server_endpoint remote_filename mode options receptions
]
