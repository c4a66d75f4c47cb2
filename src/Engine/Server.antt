-- ===== src/Engine/Server.antt =====
-- adapters/reference/tftp_reference_engine.cpp: `ReferenceServer::handle_request` on its own socket, and the
-- path check. The file system is a parameter.
pub mod Requests
use tftp_stress_test.Common.{
  ℕ, zero, suc, ◌≡◌, refl, Bool, true, false, not, ◌&&◌, ◌||◌, List, [], ◌∷◌, ◌++◌, Option, none,
  some, Bytes, text, ltb, ◌==◌, if◌then◌else◌, length, is_empty, take,
}
use tftp_stress_test.Packet.{
  TftpOption, TftpPacket, read_request, write_request, acknowledgement, error, is_opcode,
  access_violation, file_not_found, file_already_exists,
}
use tftp_stress_test.Packet.Serialize.{
  serialize_acknowledgement, serialize_error, serialize_option_acknowledgement,
}
use tftp_stress_test.Netascii.{encode_local_to_netascii, decode_netascii_to_local}
use tftp_stress_test.Engine.{
  Endpoint, Datagram, Reception, datagram_from, EngineConfig, NegotiatedParameters, TransferOutcome,
  Step,
}
use tftp_stress_test.Packet.Parse.{ParseResult, success, failure, out_of_rounds, parse_tftp_packet}
use tftp_stress_test.Engine.Receive.{
  Received, got_packet, timed_out, socket_error, keep_waiting, receive_from_locked_peer,
}
use tftp_stress_test.Engine.Sender.{run_data_sender}
use tftp_stress_test.Engine.Receiver.{run_data_receiver}
use tftp_stress_test.Engine.Options.{Negotiation, negotiate_server_options}
use tftp_stress_test.Engine.Client.{mode_is_netascii, plain_parameters}

-- The file system below the served directory: the canonical form of the root, that of `root / filename`
-- where it has one, the content of a file, whether a path exists, and whether a content can be written.
pub record Files : Type 0 where
  pub root : Bytes
  pub canonical : Bytes → Option Bytes
  pub content : Bytes → Option Bytes
  pub exists : Bytes → Bool
  pub writable : Bytes → Bytes → Bool

bytes_eq : Bytes → Bytes → Bool
bytes_eq [] [] = true
bytes_eq (a ∷ s) (b ∷ t) = (a == b) && bytes_eq s t
bytes_eq _ _ = false

-- `candidate.compare(0, root.size(), root) == 0`, behind the test of the sizes.
unfoldable pub is_below : Bytes → Bytes → Bool
unfolding bytes_eq
is_below root candidate =
    not (ltb (length candidate) (length root)) && bytes_eq (take (length root) candidate) root

unfoldable pub resolve_served_path : Files → Bytes → Option Bytes
resolve_served_path files filename =
    if is_empty filename then none else elim (files.canonical filename) [
      | none ↦ none
      | some candidate ↦ if is_below files.root candidate then some candidate else none
    ]

-- `crashed`: the division by zero of a block size 0.
pub data ServerEnd : Type 0 where
  finished waiting crashed : ServerEnd

pub record ServerRun : Type 0 where
  pub sends : List Datagram
  pub written : Option (Bytes × Bytes)
  pub end : ServerEnd

abbrev pub stops : List Datagram → ServerEnd → ServerRun
stops sends end = record { sends = sends; written = none; end = end }

abbrev pub send_to : Endpoint → Bytes → Datagram
send_to client bytes = record { destination = client; bytes = bytes }

abbrev pub answers_error : Endpoint → ℕ → Bytes → ServerRun
answers_error client code message =
    stops (send_to client (serialize_error code message) ∷ []) finished

-- How the wait for the ACK of the OACK ends.
pub data OackAnswer : Type 0 where
  acknowledged : List Reception → OackAnswer
  abandoned still_waiting : OackAnswer

pub record OackExchange : Type 0 where
  pub sends : List Datagram
  pub answer : OackAnswer

abbrev pub also_sends : List Datagram → OackExchange → OackExchange
also_sends sends exchange = record exchange { sends = sends ++ exchange.sends }

-- The loop around the OACK behind a transmission, with the attempts that are left.
unfoldable pub await_oack_ack : Endpoint → Datagram → ℕ → List Reception → OackExchange
await_oack_ack client oack attempts [] = record { sends = []; answer = still_waiting }
await_oack_ack client oack attempts (reception ∷ rest) =
    let again : OackExchange = elim attempts [
      | zero ↦ record { sends = []; answer = abandoned }
      | suc left ↦ also_sends (oack ∷ []) (await_oack_ack client oack left rest)
    ] in
    elim (receive_from_locked_peer client reception) [
      | keep_waiting replies ↦ also_sends replies (await_oack_ack client oack attempts rest)
      | timed_out ↦ again
      | socket_error ↦ again
      | got_packet reply ↦
          if is_opcode reply.opcode acknowledgement && (reply.block_number == 0)
          then record { sends = []; answer = acknowledged rest }
          else if is_opcode reply.opcode error
          then record { sends = []; answer = abandoned }
          else again
    ]

-- `run_data_sender` behind what has been sent already.
unfoldable pub serve_data :
    EngineConfig
    → Endpoint
    → Bytes
    → NegotiatedParameters
    → List Datagram
    → List Reception
    → ServerRun
serve_data config client payload params sends receptions =
    elim (run_data_sender client payload params config 0 receptions) [
      | none ↦ stops sends crashed
      | some step ↦ elim step.returned [
        | none ↦ stops (sends ++ step.sends) waiting
        | some outcome ↦ stops (sends ++ step.sends) finished
      ]
    ]

unfoldable pub serve_payload :
    EngineConfig → Endpoint → TftpPacket → Bytes → List Reception → ServerRun
serve_payload config client request payload receptions =
    let n =
      negotiate_server_options request.options config (some (length payload))
        (plain_parameters config) in
    let oack = send_to client (serialize_option_acknowledgement n.oack_options) in
    let exchange = await_oack_ack client oack config.maximum_retransmissions receptions in
    if is_empty n.oack_options
    then serve_data config client payload n.params [] receptions
    else elim exchange.answer [
      | abandoned ↦ stops (oack ∷ exchange.sends) finished
      | still_waiting ↦ stops (oack ∷ exchange.sends) waiting
      | acknowledged rest ↦ serve_data config client payload n.params (oack ∷ exchange.sends) rest
    ]

-- The branch of a read request.
unfoldable pub serve_read :
    Files → EngineConfig → Endpoint → TftpPacket → List Reception → ServerRun
serve_read files config client request receptions =
    elim (resolve_served_path files request.filename) [
      | none ↦ answers_error client access_violation (text "access violation")
      | some path ↦ elim (files.content path) [
        | none ↦ answers_error client file_not_found (text "file not found")
        | some bytes ↦
            serve_payload config client request
              (if mode_is_netascii request.mode then encode_local_to_netascii bytes else bytes)
              receptions
      ]
    ]

-- The end of the branch of a write request. A write that fails counts as one that stores nothing, where the code may leave
-- a truncated file behind.
unfoldable pub store_upload :
    Files → Bytes → Bytes → List Datagram → Bytes → TransferOutcome → ServerRun
store_upload files path mode sends sink outcome =
    let local_bytes = if mode_is_netascii mode then decode_netascii_to_local sink else sink in
    if outcome.completed_successfully && files.writable path local_bytes
    then record { sends = sends; written = some (path, local_bytes); end = finished }
    else stops sends finished

-- The end of the write branch, with what `run_data_receiver` came to.
abbrev pub upload_result :
    Files → Bytes → Bytes → List Datagram → Bytes → Option TransferOutcome → ServerRun
upload_result files path mode sends sink none = stops sends waiting
upload_result files path mode sends sink (some outcome) =
    store_upload files path mode sends sink outcome

unfoldable pub accept_upload :
    Files → EngineConfig → Endpoint → TftpPacket → Bytes → List Reception → ServerRun
accept_upload files config client request path receptions =
    let n = negotiate_server_options request.options config none (plain_parameters config) in
    let first = send_to client (
      if is_empty n.oack_options
      then serialize_acknowledgement 0
      else serialize_option_acknowledgement n.oack_options) in
    let step =
      run_data_receiver (record { peer = client; params = n.params; config = config }) 1 none
        receptions in
    upload_result files path request.mode (first ∷ step.sends) step.state.sink step.returned

-- The branch of a write request.
unfoldable pub serve_write :
    Files → EngineConfig → Endpoint → TftpPacket → List Reception → ServerRun
serve_write files config client request receptions =
    elim (resolve_served_path files request.filename) [
      | none ↦ answers_error client access_violation (text "access violation")
      | some path ↦
          if config.reject_overwrite_on_write_request && files.exists path
          then answers_error client file_already_exists (text "file already exists")
          else accept_upload files config client request path receptions
    ]

-- `opens`: the transfer socket could be opened and bound.
unfoldable pub handle_request :
    Bool → Files → EngineConfig → TftpPacket → Endpoint → List Reception → ServerRun
handle_request opens files config request client receptions =
    if not opens
    then stops [] finished
    else if is_opcode request.opcode read_request
    then serve_read files config client request receptions
    else if is_opcode request.opcode write_request
    then serve_write files config client request receptions
    else stops [] finished

abbrev pub accepted_request : Endpoint → ParseResult TftpPacket → Option (TftpPacket × Endpoint)
accepted_request client (success request) =
    if is_opcode request.opcode read_request || is_opcode request.opcode write_request
    then some (request, client)
    else none
accepted_request client _ = none

-- The body of `accept_loop` in front of the handler's thread: what a reception at the listening port hands
-- to `handle_request`.
unfoldable pub accept_request : Reception → Option (TftpPacket × Endpoint)
accept_request (datagram_from client (b ∷ bytes)) =
    accepted_request client (parse_tftp_packet (b ∷ bytes))
accept_request _ = none
