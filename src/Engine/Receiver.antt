-- ===== src/Engine/Receiver.antt =====
-- adapters/reference/tftp_reference_engine.cpp: `run_data_receiver`, the windowed receiver with its dally.
pub mod Accept
pub mod Honest
pub mod Completes
pub mod Patience
use tftp_stress_test.Common.{
  ℕ, ◌+◌, ◌-◌, ◌%◌, ◌^◌, max, Bool, true, false, not, ◌&&◌, List, [], ◌∷◌, ◌++◌, Option, none, some,
  Bytes, text, ltb, leb, ◌==◌, if◌then◌else◌, inc32, length,
}
use tftp_stress_test.Packet.{TftpPacket, data_block, error, is_opcode}
use tftp_stress_test.Packet.Serialize.{serialize_acknowledgement}
use tftp_stress_test.Engine.{
  Endpoint, Datagram, Reception, EngineConfig, NegotiatedParameters, TransferOutcome, outcome_of,
  Step, run_steps,
}
use tftp_stress_test.Engine.Blocks.{wire_block_number}
use tftp_stress_test.Engine.Resolve.{resolve_data_to_absolute}
use tftp_stress_test.Engine.Receive.{
  Received, got_packet, timed_out, socket_error, keep_waiting, receive_from_locked_peer,
}

-- `receiving` is the `for (;;)` loop, `dallying n` the loop behind it after `n` rounds.
pub data Phase : Type 0 where
  receiving : Phase
  dallying : ℕ → Phase

pub record ReceiverCall : Type 0 where
  pub peer : Endpoint
  pub params : NegotiatedParameters
  pub config : EngineConfig

pub record ReceiverState : Type 0 where
  pub last_in_sequence : ℕ
  pub blocks_since_ack : ℕ
  pub consecutive_timeouts : ℕ
  pub sink : Bytes
  pub data_packets_received : ℕ
  pub phase : Phase

unfoldable pub receive_window : ReceiverCall → ℕ
receive_window c = max c.params.window_size 1

unfoldable pub receiver_outcome : ReceiverCall → ReceiverState → TransferOutcome
receiver_outcome c s = record (outcome_of c.params) {
  data_packets_received = s.data_packets_received;
}

-- The ACK of the last block in sequence.
unfoldable pub acknowledge : ReceiverCall → ReceiverState → Datagram
acknowledge c s = record {
  destination = c.peer;
  bytes = serialize_acknowledgement (wire_block_number s.last_in_sequence);
}

abbrev pub waits : ReceiverState → List Datagram → Step ReceiverState
waits s sends = record { sends = sends; state = s; returned = none }

abbrev pub acknowledges : ReceiverCall → ReceiverState → Step ReceiverState
acknowledges c s = waits s (acknowledge c s ∷ [])

abbrev pub receiver_returns : ReceiverState → TransferOutcome → Step ReceiverState
receiver_returns s outcome = record { sends = []; state = s; returned = some outcome }

-- The variables after a block that is accepted at the end of `sink`.
abbrev pub accepted : ReceiverState → ℕ → Bytes → ReceiverState
accepted s absolute contents = record s {
  sink = s.sink ++ contents;
  last_in_sequence = absolute;
  data_packets_received = inc32 s.data_packets_received;
}

-- The block that is due.
unfoldable pub on_block_in_sequence : ReceiverCall → ReceiverState → Bytes → Step ReceiverState
on_block_in_sequence c s contents =
    let s' = record (accepted s (inc32 s.last_in_sequence) contents) {
      blocks_since_ack = inc32 s.blocks_since_ack;
    } in
    if ltb (length contents) c.params.block_size
    then acknowledges c (record s' { phase = dallying 0 })
    else if leb (receive_window c) s'.blocks_since_ack
    then acknowledges c (record s' { blocks_since_ack = 0 })
    else waits s' []

-- A block behind a gap, or one that could not be placed.
unfoldable pub on_block_out_of_sequence :
    ReceiverCall → ReceiverState → ℕ → Bytes → Step ReceiverState
on_block_out_of_sequence c s absolute contents =
    if c.config.quirks.accept_out_of_sequence_data && not (absolute == 0)
    then (let s' = accepted s absolute contents in
        if ltb (length contents) c.params.block_size
        then acknowledges c (record s' { phase = dallying 0 })
        else acknowledges c s')
    else acknowledges c (record s { blocks_since_ack = 0 })

unfoldable pub on_data : ReceiverCall → ReceiverState → ℕ → Bytes → Step ReceiverState
on_data c s block_number contents =
    let absolute = resolve_data_to_absolute block_number s.last_in_sequence (receive_window c) in
    if absolute == inc32 s.last_in_sequence
    then on_block_in_sequence c s contents
    else if not (absolute == 0) && leb absolute s.last_in_sequence
    then acknowledges c (record s { blocks_since_ack = 0 })
    else on_block_out_of_sequence c s absolute contents

unfoldable pub receiver_on_packet : ReceiverCall → ReceiverState → TftpPacket → Step ReceiverState
receiver_on_packet c s packet =
    if is_opcode packet.opcode error
    then receiver_returns s (record (receiver_outcome c s) {
      error_code = some packet.error_code;
      error_message = packet.error_message;
    })
    else if is_opcode packet.opcode data_block
    then on_data c (record s { consecutive_timeouts = 0 }) packet.block_number packet.contents
    else waits s []

unfoldable pub receiver_on_timeout : ReceiverCall → ReceiverState → Step ReceiverState
receiver_on_timeout c s =
    let s' = record s { consecutive_timeouts = s.consecutive_timeouts + 1 } in
    if ltb c.config.maximum_retransmissions s'.consecutive_timeouts
    then receiver_returns s' (record (receiver_outcome c s') {
      timed_out = true;
      error_message = text "gave up after maximum retransmissions (receiver)";
    })
    else acknowledges c s'

-- Behind the dally: the transfer is complete.
unfoldable pub receiver_completes :
    ReceiverCall → ReceiverState → List Datagram → Step ReceiverState
receiver_completes c s sends = record {
  sends = sends;
  state = s;
  returned = some (record (receiver_outcome c s) {
    completed_successfully = true;
    bytes_transferred = length s.sink;
  });
}

-- A round of the dally that got a packet; the fourth is the last.
unfoldable pub on_dally_packet : ReceiverCall → ReceiverState → ℕ → TftpPacket → Step ReceiverState
on_dally_packet c s rounds packet =
    let replies = if is_opcode packet.opcode data_block then acknowledge c s ∷ [] else [] in
    if ltb (rounds + 1) 4
    then waits (record s { phase = dallying (rounds + 1) }) replies
    else receiver_completes c s replies

unfoldable pub receiver_on_received :
    Phase → ReceiverCall → ReceiverState → Received → Step ReceiverState
receiver_on_received receiving c s (got_packet packet) = receiver_on_packet c s packet
receiver_on_received receiving c s timed_out = receiver_on_timeout c s
receiver_on_received receiving c s socket_error =
    receiver_returns s
      (record (receiver_outcome c s) { error_message = text "socket error while receiving" })
receiver_on_received receiving c s (keep_waiting replies) = waits s replies
receiver_on_received (dallying rounds) c s (got_packet packet) = on_dally_packet c s rounds packet
receiver_on_received (dallying rounds) c s timed_out = receiver_completes c s []
receiver_on_received (dallying rounds) c s socket_error = receiver_completes c s []
receiver_on_received (dallying rounds) c s (keep_waiting replies) = waits s replies

-- From one receive to the next.
unfoldable pub receiver_on_reception : ReceiverCall → ReceiverState → Reception → Step ReceiverState
receiver_on_reception c s reception =
    receiver_on_received s.phase c s (receive_from_locked_peer c.peer reception)

abbrev pub receiver_start : ℕ → ReceiverState
receiver_start first_expected_block = record {
  last_in_sequence = (first_expected_block + 2 ^ 32 - 1) % 2 ^ 32;
  blocks_since_ack = 0;
  consecutive_timeouts = 0;
  sink = [];
  data_packets_received = 0;
  phase = receiving;
}

-- The first round, which takes the packet that the caller has received already, if there is one.
unfoldable pub receiver_primed :
    ReceiverCall → ReceiverState → Option TftpPacket → Step ReceiverState
receiver_primed c s none = waits s []
receiver_primed c s (some packet) = receiver_on_packet c s packet

unfoldable pub run_data_receiver :
    ReceiverCall → ℕ → Option TftpPacket → List Reception → Step ReceiverState
run_data_receiver c first_expected_block primed receptions =
    run_steps (receiver_on_reception c)
      (receiver_primed c (receiver_start first_expected_block) primed) receptions
