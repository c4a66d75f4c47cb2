-- ===== src/Engine/Runs.antt =====
-- Tests of the models of adapters/reference/tftp_reference_engine.cpp, and the theorems at concrete inputs.
use tftp_stress_test.Common.{◌≤◌, ◌≡◌, refl, subst, inl, List, [], ◌∷◌, none, arith, Bytes, In}
use tftp_stress_test.Packet.Serialize.{serialize_data, serialize_acknowledgement, append_u16}
use tftp_stress_test.Packet.Parse.{parse_tftp_packet, parse_data, parse_acknowledgement}
use tftp_stress_test.Engine.{
  Endpoint, ipv4, endpoint_eq, no_datagram, datagram_from, NegotiatedParameters, default_config,
}
use tftp_stress_test.Engine.Blocks.{wire_block_number, total_block_count, block_payload}
use tftp_stress_test.Engine.Blocks.Laws.{blocks_upto}
use tftp_stress_test.Engine.Resolve.{
  resolve_ack_to_absolute, resolve_data_to_absolute, resolve_ack_loop, search_forward,
}
use tftp_stress_test.Engine.Receive.{receive_from_locked_peer}
use tftp_stress_test.Engine.Receive.Strays.{delivered, FromPeer}
use tftp_stress_test.Engine.Sender.{
  SenderCall, blocks_to_send, data_blocks, window_of, transmit, sender_outcome, sender_head,
  sender_after_ack, sender_on_packet, sender_on_received, sender_on_reception,
}
use tftp_stress_test.Engine.Receiver.{
  ReceiverCall, receive_window, receiver_outcome, acknowledge, on_block_in_sequence, on_data,
  receiver_on_packet, receiver_completes, receiver_on_received, receiver_on_reception,
  receiver_primed,
}
use tftp_stress_test.Engine.Transfer.{
  Move, World, after_sender, after_receiver, start_world, sender_receives, receiver_receives, Reach,
  started, moved,
}
use tftp_stress_test.Engine.Transfer.Channel.{Transition, channel, Move-Transition}
use tftp_stress_test.Engine.Transfer.Delivery.{
  IsTransfer, receiver_success_delivers, sender_success_delivers, received_prefix,
}

-- Three bytes in one block of eight, from a server to a client.
abbrev server : Endpoint
server = ipv4 1 2000

abbrev client : Endpoint
client = ipv4 2 3000

abbrev params : NegotiatedParameters
params = record { block_size = 8; window_size = 1; timeout_seconds = none; transfer_size = none }

abbrev sc : SenderCall
sc = record {
  peer = client;
  payload = 7 ∷ 8 ∷ 9 ∷ [];
  params = params;
  config = default_config;
  total_blocks = 1;
}

abbrev rc : ReceiverCall
rc = record { peer = server; params = params; config = default_config }

demo-IsTransfer : IsTransfer sc rc
unfolding blocks_to_send total_block_count
demo-IsTransfer = record {
  same_block_size = refl;
  counted = refl;
  few = omega arith;
  whole = refl;
  sequential = refl;
}

abbrev block_one : Bytes
block_one = 0 ∷ 3 ∷ 0 ∷ 1 ∷ 7 ∷ 8 ∷ 9 ∷ []

abbrev ack_one : Bytes
ack_one = 0 ∷ 4 ∷ 0 ∷ 1 ∷ []

same_bytes : (s t : Endpoint) (a b : Bytes) → datagram_from s a ≡ datagram_from t b → a ≡ b
same_bytes s t a b e = cc

no_bytes : (peer : Endpoint) (P : Bytes → Type 0) → FromPeer peer P no_datagram
no_bytes peer P = λ s b e same. cc

from_net :
    (sender peer : Endpoint) (bytes : Bytes) (sent : List Bytes)
    → In bytes sent
    → FromPeer peer (λ b. In b sent) (datagram_from sender bytes)
from_net sender peer bytes sent i =
    λ s b e same. subst (λ c. In c sent) (same_bytes sender s bytes b e) i

abbrev w0 : World
w0 = start_world sc rc none

abbrev w1 : World
w1 = after_receiver rc w0 (receiver_on_reception rc w0.receiver (datagram_from server block_one))

abbrev w2 : World
w2 = after_receiver rc w1 (receiver_on_reception rc w1.receiver no_datagram)

abbrev w3 : World
w3 = after_sender sc w1 (sender_on_reception sc w1.sender (datagram_from client ack_one))

first_step : Move sc rc w0 w1
unfolding receiver_primed sender_head transmit data_blocks delivered endpoint_eq window_of
    block_payload wire_block_number serialize_data append_u16
first_step =
    receiver_receives w0 (datagram_from server block_one) refl
      (from_net server server block_one w0.to_receiver (inl refl))

Reach-one : Reach sc rc w1
Reach-one = moved w0 w1 (started none tt) first_step

Reach-two : Reach sc rc w2
unfolding receiver_primed sender_head transmit data_blocks delivered endpoint_eq window_of
    block_payload wire_block_number serialize_data append_u16 receiver_on_reception
    receive_from_locked_peer receiver_on_received parse_tftp_packet parse_data receiver_on_packet
    on_data resolve_data_to_absolute search_forward receive_window on_block_in_sequence acknowledge
    serialize_acknowledgement
Reach-two = moved w1 w2 Reach-one (receiver_receives w1 no_datagram refl (no_bytes server _))

Reach-three : Reach sc rc w3
unfolding receiver_primed sender_head transmit data_blocks delivered endpoint_eq window_of
    block_payload wire_block_number serialize_data append_u16 receiver_on_reception
    receive_from_locked_peer receiver_on_received parse_tftp_packet parse_data receiver_on_packet
    on_data resolve_data_to_absolute search_forward receive_window on_block_in_sequence acknowledge
    serialize_acknowledgement
Reach-three = moved w1 w3 Reach-one (
    sender_receives w1 (datagram_from client ack_one) refl
      (from_net client client ack_one w1.to_sender (inl refl)))

receiver_success_delivers_example : w2.receiver.sink ≡ 7 ∷ 8 ∷ 9 ∷ []
unfolding receiver_primed sender_head transmit data_blocks delivered endpoint_eq window_of
    block_payload wire_block_number serialize_data append_u16 receiver_on_reception
    receive_from_locked_peer receiver_on_received parse_tftp_packet parse_data receiver_on_packet
    on_data resolve_data_to_absolute search_forward receive_window on_block_in_sequence acknowledge
    serialize_acknowledgement receiver_completes receiver_outcome
receiver_success_delivers_example =
    receiver_success_delivers sc rc demo-IsTransfer w2 _ Reach-two refl refl

sender_success_delivers_example : w3.receiver.sink ≡ 7 ∷ 8 ∷ 9 ∷ []
unfolding receiver_primed sender_head transmit data_blocks delivered endpoint_eq window_of
    block_payload wire_block_number serialize_data append_u16 receiver_on_reception
    receive_from_locked_peer receiver_on_received parse_tftp_packet parse_data receiver_on_packet
    on_data resolve_data_to_absolute search_forward receive_window on_block_in_sequence acknowledge
    serialize_acknowledgement sender_on_reception sender_on_received parse_acknowledgement
    sender_on_packet sender_after_ack resolve_ack_to_absolute resolve_ack_loop sender_outcome
sender_success_delivers_example =
    sender_success_delivers sc rc demo-IsTransfer w3 _ Reach-three refl refl

received_prefix_example :
    (w2.receiver.sink ≡ blocks_upto (7 ∷ 8 ∷ 9 ∷ []) w2.receiver.last_in_sequence 8)
    × (w2.sender.last_acked ≤ w2.receiver.last_in_sequence)
    × (w2.receiver.last_in_sequence ≤ 1)
received_prefix_example = received_prefix sc rc demo-IsTransfer w2 Reach-two

Move-Transition_example : Transition (7 ∷ 8 ∷ 9 ∷ []) 8 1 (channel w0) (channel w1)
Move-Transition_example = Move-Transition sc rc demo-IsTransfer w0 w1 (started none tt) first_step
