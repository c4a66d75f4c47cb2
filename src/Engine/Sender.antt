-- ===== src/Engine/Sender.antt =====
-- adapters/reference/tftp_reference_engine.cpp: `run_data_sender`, the windowed sender.
pub mod Window
pub mod Completes
pub mod Honest
pub mod Patience
pub mod Strangers
use tftp_stress_test.Common.{
  ℕ, zero, suc, ◌+◌, ◌-◌, ◌%◌, ◌^◌, min, max, Bool, true, false, not, ◌&&◌, List, [], ◌∷◌, ◌++◌,
  Option, none, some, Bytes, text, ltb, leb, ◌==◌, if◌then◌else◌, inc32, length, is_empty,
}
use tftp_stress_test.Packet.{TftpPacket, acknowledgement, error, is_opcode}
use tftp_stress_test.Packet.Serialize.{serialize_data}
use tftp_stress_test.Engine.{
  Endpoint, Datagram, Reception, EngineConfig, NegotiatedParameters, TransferOutcome, outcome_of,
  Step, run_steps,
}
use tftp_stress_test.Engine.Blocks.{wire_block_number, total_block_count, block_payload}
use tftp_stress_test.Engine.Resolve.{resolve_ack_to_absolute}
use tftp_stress_test.Engine.Receive.{
  Received, got_packet, timed_out, socket_error, keep_waiting, receive_from_locked_peer,
}

pub data Action : Type 0 where
  send_new rollback wait_only : Action

-- What stays fixed during the call.
pub record SenderCall : Type 0 where
  pub peer : Endpoint
  pub payload : Bytes
  pub params : NegotiatedParameters
  pub config : EngineConfig
  pub total_blocks : ℕ

-- The variables of the loop, with the two counters of `outcome` that it changes.
pub record SenderState : Type 0 where
  pub last_acked : ℕ
  pub highest_sent : ℕ
  pub consecutive_timeouts : ℕ
  pub action : Action
  pub data_packets_sent : ℕ
  pub retransmissions : ℕ

-- The count of blocks to send: without the terminating empty block under the quirk.
unfoldable pub blocks_to_send : Bytes → ℕ → EngineConfig → Option ℕ
blocks_to_send payload block_size config = elim (total_block_count (length payload) block_size) [
  | none ↦ none
  | some total ↦ some (
      if config.quirks.omit_terminating_empty_block
        && (not (is_empty payload) && (length payload % block_size == 0))
      then (total + 2 ^ 32 - 1) % 2 ^ 32
      else total)
]

-- The DATA of `count` blocks from `index` on.
unfoldable pub data_blocks : Endpoint → Bytes → ℕ → ℕ → ℕ → List Datagram
data_blocks peer payload block_size zero index = []
data_blocks peer payload block_size (suc count) index =
    record {
      destination = peer;
      bytes = serialize_data (wire_block_number index) (block_payload payload index block_size);
    }
    ∷ data_blocks peer payload block_size count (index + 1)

unfoldable pub window_of : NegotiatedParameters → ℕ
window_of params = max params.window_size 1

abbrev pub window_edge : SenderCall → SenderState → ℕ
window_edge c s = min ((s.last_acked + window_of c.params) % 2 ^ 32) c.total_blocks

abbrev pub transmit_as : Action → SenderCall → SenderState → SenderState × List Datagram
transmit_as send_new c s = (
  record s {
    highest_sent = max s.highest_sent (window_edge c s);
    data_packets_sent = (s.data_packets_sent + (window_edge c s - s.highest_sent)) % 2 ^ 32;
  },
  data_blocks c.peer c.payload c.params.block_size (window_edge c s - s.highest_sent)
      (s.highest_sent + 1),
)
transmit_as rollback c s = (
  record s { retransmissions = (s.retransmissions + (s.highest_sent - s.last_acked)) % 2 ^ 32 },
  data_blocks c.peer c.payload c.params.block_size (s.highest_sent - s.last_acked)
      (s.last_acked + 1),
)
transmit_as wait_only c s = (s, [])

-- The part of the loop's body in front of the receive.
unfoldable pub transmit : SenderCall → SenderState → SenderState × List Datagram
transmit c s = transmit_as s.action c s

unfoldable pub sender_outcome : SenderCall → SenderState → TransferOutcome
sender_outcome c s = record (outcome_of c.params) {
  data_packets_sent = s.data_packets_sent;
  retransmissions = s.retransmissions;
}

-- The head of the loop: its test, and the body up to the next receive.
unfoldable pub sender_head : SenderCall → SenderState → Step SenderState
sender_head c s =
    if ltb s.last_acked c.total_blocks
    then record { sends = (transmit c s).1; state = (transmit c s).0; returned = none }
    else record {
      sends = [];
      state = s;
      returned = some (record (sender_outcome c s) {
        completed_successfully = true;
        bytes_transferred = length c.payload;
      });
    }

abbrev pub sender_returns : SenderCall → SenderState → TransferOutcome → Step SenderState
sender_returns c s outcome = record { sends = []; state = s; returned = some outcome }

unfoldable pub sender_on_timeout : SenderCall → SenderState → Step SenderState
sender_on_timeout c s =
    let s' = record s { consecutive_timeouts = s.consecutive_timeouts + 1 } in
    if ltb c.config.maximum_retransmissions s'.consecutive_timeouts
    then sender_returns c s' (record (sender_outcome c s') {
      timed_out = true;
      error_message = text "gave up after maximum retransmissions (sender)";
    })
    else sender_head c (record s' { action = rollback })

-- The variables after an ACK.
unfoldable pub sender_after_ack : SenderCall → SenderState → ℕ → SenderState
sender_after_ack c s block_number =
    let acked = resolve_ack_to_absolute block_number s.last_acked s.highest_sent in
    if ltb s.last_acked acked
    then record s { last_acked = acked; consecutive_timeouts = 0; action = send_new }
    else record s {
      action = if c.config.quirks.retransmit_on_duplicate_ack then rollback else wait_only;
    }

unfoldable pub sender_on_packet : SenderCall → SenderState → TftpPacket → Step SenderState
sender_on_packet c s packet =
    if is_opcode packet.opcode error
    then sender_returns c s (record (sender_outcome c s) {
      error_code = some packet.error_code;
      error_message = packet.error_message;
    })
    else if is_opcode packet.opcode acknowledgement
    then sender_head c (sender_after_ack c s packet.block_number)
    else sender_head c (record s { action = wait_only })

unfoldable pub sender_on_received : SenderCall → SenderState → Received → Step SenderState
sender_on_received c s (got_packet packet) = sender_on_packet c s packet
sender_on_received c s timed_out = sender_on_timeout c s
sender_on_received c s socket_error =
    sender_returns c s
      (record (sender_outcome c s) { error_message = text "socket error while sending" })
sender_on_received c s (keep_waiting replies) = record {
  sends = replies;
  state = s;
  returned = none;
}

-- From one receive of the loop to the next.
unfoldable pub sender_on_reception : SenderCall → SenderState → Reception → Step SenderState
sender_on_reception c s reception =
    sender_on_received c s (receive_from_locked_peer c.peer reception)

abbrev pub sender_start : ℕ → SenderState
sender_start starting_data_packets_sent = record {
  last_acked = 0;
  highest_sent = 0;
  consecutive_timeouts = 0;
  action = send_new;
  data_packets_sent = starting_data_packets_sent;
  retransmissions = 0;
}

-- `none` for the block size 0, where the source divides by zero.
unfoldable pub run_data_sender :
    Endpoint
    → Bytes
    → NegotiatedParameters
    → EngineConfig
    → ℕ
    → List Reception
    → Option (Step SenderState)
run_data_sender peer payload params config starting_data_packets_sent receptions =
    elim (blocks_to_send payload params.block_size config) [
      | none ↦ none
      | some total ↦
          let c : SenderCall = record {
            peer = peer;
            payload = payload;
            params = params;
            config = config;
            total_blocks = total;
          } in
          some (
            run_steps (sender_on_reception c)
              (sender_head c (sender_start starting_data_packets_sent)) receptions)
    ]
