-- ===== src/Engine/LoopRuns.antt =====
-- The theorems on blocks, block numbers and the two loops of
-- adapters/reference/tftp_reference_engine.cpp at concrete inputs.
use tftp_stress_test.Common.{
  suc, ◌<◌, ◌≡◌, ◌↔◌, refl, subst, [], ◌∷◌, none, arith, Bytes, length, replicate,
}
use tftp_stress_test.Packet.{empty_packet, acknowledgement}
use tftp_stress_test.Packet.Serialize.{serialize_acknowledgement, serialize_data, append_u16}
use tftp_stress_test.Engine.{
  Endpoint, ipv4, Reception, no_datagram, datagram_from, NegotiatedParameters, default_config,
  run_steps,
}
use tftp_stress_test.Engine.Blocks.{wire_block_number, block_payload}
use tftp_stress_test.Engine.Blocks.Laws.{IsTotal, blocks_upto, blocks_upto-total, short_block_iff}
use tftp_stress_test.Engine.Resolve.{resolve_ack_to_absolute, resolve_data_to_absolute}
use tftp_stress_test.Engine.Resolve.Laws.{
  resolve_ack_to_absolute-wire_block_number, resolve_data_to_absolute-wire_block_number,
}
use tftp_stress_test.Engine.Receive.Strays.{FromPeer}
use tftp_stress_test.Engine.Sender.{
  SenderCall, SenderState, send_new, wait_only, window_of, sender_on_packet, sender_on_reception,
}
use tftp_stress_test.Engine.Sender.Window.{InWindow, IsBlock, sender_on_reception-InWindow}
use tftp_stress_test.Engine.Sender.Patience.{TimesOut, sender_gives_up, duplicate_ack_sends_nothing}
use tftp_stress_test.Engine.Sender.Strangers.{empty_datagrams_stop_sender}
use tftp_stress_test.Engine.Sender.Honest as Sender
use tftp_stress_test.Engine.Sender.Honest.{sender_on_reception-IsGood}
use tftp_stress_test.Engine.Receiver.{ReceiverCall, ReceiverState, receiving, receiver_on_reception}
use tftp_stress_test.Engine.Receiver.Accept as Receiver
use tftp_stress_test.Engine.Receiver.Accept.{IsAckUpto, IsPrefix}
use tftp_stress_test.Engine.Receiver.Honest.{receiver_on_reception-IsGood}

-- Seventeen bytes in blocks of eight: two full ones, and a last one with a byte.
abbrev seventeen : Bytes
seventeen = replicate 17 5

seventeen-IsTotal : IsTotal seventeen 8 3
seventeen-IsTotal = record {
  some_block = omega arith;
  covered = omega arith;
  tight = omega arith;
  positive = omega arith;
}

blocks_upto-total_example : blocks_upto seventeen 3 8 ≡ seventeen
blocks_upto-total_example = blocks_upto-total seventeen 8 3 seventeen-IsTotal

short_block_iff_example : (length (block_payload seventeen (suc 2) 8) < 8) ↔ (suc 2 ≡ 3)
short_block_iff_example = short_block_iff seventeen 8 3 2 seventeen-IsTotal (omega arith)

-- The block 65537 has the number 1.
resolve_ack_to_absolute-wire_block_number_example :
    resolve_ack_to_absolute (wire_block_number 65537) 65530 65540 ≡ 65537
resolve_ack_to_absolute-wire_block_number_example =
    resolve_ack_to_absolute-wire_block_number 65530 65540 65537 (omega arith) (omega arith)
      (omega arith)

resolve_data_to_absolute-wire_block_number_example :
    resolve_data_to_absolute (wire_block_number 65537) 65530 16 ≡ 65537
resolve_data_to_absolute-wire_block_number_example =
    resolve_data_to_absolute-wire_block_number 65530 16 65537 (omega arith) (omega arith)
      (omega arith) (omega arith)

abbrev peer : Endpoint
peer = ipv4 2 3000

abbrev ack_two : Bytes
ack_two = 0 ∷ 4 ∷ 0 ∷ 2 ∷ []

abbrev params : NegotiatedParameters
params = record { block_size = 8; window_size = 4; timeout_seconds = none; transfer_size = none }

abbrev call : SenderCall
call = record {
  peer = peer;
  payload = seventeen;
  params = params;
  config = default_config;
  total_blocks = 3;
}

-- All three blocks are in flight, the first is acknowledged.
abbrev in_flight : SenderState
in_flight = record {
  last_acked = 1;
  highest_sent = 3;
  consecutive_timeouts = 2;
  action = send_new;
  data_packets_sent = 3;
  retransmissions = 0;
}

in_flight-InWindow : InWindow call in_flight
unfolding window_of
in_flight-InWindow = record {
  in_order = omega arith;
  in_payload = omega arith;
  in_window = omega arith;
}

sender_on_reception-InWindow_example :
    InWindow call (sender_on_reception call in_flight (datagram_from peer ack_two)).state
sender_on_reception-InWindow_example =
    sender_on_reception-InWindow call in_flight (datagram_from peer ack_two) in_flight-InWindow

sender_gives_up_example :
    TimesOut
      (run_steps
        (sender_on_reception call)
        (record { sends = []; state = in_flight; returned = none })
        (replicate 5 no_datagram)).returned
sender_gives_up_example = sender_gives_up call in_flight (omega arith) (omega arith)

duplicate_ack_sends_nothing_example :
    sender_on_packet call in_flight
      (record empty_packet { opcode = acknowledgement; block_number = wire_block_number 1 })
    ≡ record { sends = []; state = record in_flight { action = wait_only }; returned = none }
duplicate_ack_sends_nothing_example =
    duplicate_ack_sends_nothing call in_flight empty_packet 1 refl (omega arith) (omega arith)
      (omega arith) (omega arith)

same_bytes : (s t : Endpoint) (a b : Bytes) → datagram_from s a ≡ datagram_from t b → a ≡ b
same_bytes s t a b e = cc

-- The ACK of block 2, where the receiver has two blocks.
ack_two-FromPeer : FromPeer peer (IsAckUpto 2) (datagram_from peer ack_two)
unfolding serialize_acknowledgement append_u16 wire_block_number
ack_two-FromPeer =
    λ s b e same. subst (IsAckUpto 2) (same_bytes peer s ack_two b e) (2, omega arith, refl)

in_flight-IsFair : Sender.IsFair call 2 in_flight
in_flight-IsFair = record { window = in_flight-InWindow; acked = omega arith }

sender_on_reception-IsGood_example :
    Sender.IsGood call 2 (sender_on_reception call in_flight (datagram_from peer ack_two))
sender_on_reception-IsGood_example =
    sender_on_reception-IsGood call (omega arith) 2 (omega arith) in_flight
      (datagram_from peer ack_two) in_flight-IsFair ack_two-FromPeer

abbrev receiver_call : ReceiverCall
receiver_call = record { peer = ipv4 1 2000; params = params; config = default_config }

-- The first block has been received.
abbrev one_block : ReceiverState
one_block = record {
  last_in_sequence = 1;
  blocks_since_ack = 1;
  consecutive_timeouts = 0;
  sink = replicate 8 5;
  data_packets_received = 1;
  phase = receiving;
}

abbrev block_two : Reception
block_two = datagram_from (ipv4 1 2000) (0 ∷ 3 ∷ 0 ∷ 2 ∷ replicate 8 5)

block_two-FromPeer : FromPeer (ipv4 1 2000) (IsBlock seventeen 8 3) block_two
unfolding serialize_data append_u16 wire_block_number block_payload
block_two-FromPeer = λ s b e same.
    subst (IsBlock seventeen 8 3) (same_bytes (ipv4 1 2000) s (0 ∷ 3 ∷ 0 ∷ 2 ∷ replicate 8 5) b e)
      (1, omega arith, refl)

one_block-IsPrefix : IsPrefix receiver_call seventeen 3 one_block
one_block-IsPrefix = record { received = omega arith; content = refl; done = tt }

receiver_on_reception-IsGood_example :
    Receiver.IsGood receiver_call seventeen 3 1
      (receiver_on_reception receiver_call one_block block_two)
receiver_on_reception-IsGood_example =
    receiver_on_reception-IsGood receiver_call seventeen 3 seventeen-IsTotal (omega arith) refl
      one_block block_two one_block-IsPrefix block_two-FromPeer

empty_datagrams_stop_sender_example :
    TimesOut
      (run_steps
        (sender_on_reception call)
        (record { sends = []; state = in_flight; returned = none })
        (replicate 5 (datagram_from (ipv4 9 9) []))).returned
empty_datagrams_stop_sender_example =
    empty_datagrams_stop_sender call in_flight (ipv4 9 9) (omega arith) (omega arith)
