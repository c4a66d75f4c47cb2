-- ===== src/Engine/Receive.antt =====
-- adapters/reference/tftp_reference_engine.cpp: `receive_from_locked_peer`, and the zero that
-- src/net/udp_socket.cpp returns both for a timeout and for a datagram without a byte.
pub mod Strays
use tftp_stress_test.Common.{Bool, true, false, List, [], ◌∷◌, Bytes, text, if◌then◌else◌}
use tftp_stress_test.Packet.{TftpPacket, unknown_transfer_id}
use tftp_stress_test.Packet.Serialize.{serialize_error}
use tftp_stress_test.Packet.Parse.{ParseResult, success, failure, out_of_rounds, parse_tftp_packet}
use tftp_stress_test.Engine.{
  Endpoint, endpoint_eq, Datagram, Reception, no_datagram, receive_failed, datagram_from,
}

-- `ReceiveStatus` with the packet, or `keep_waiting`: the `continue` of the loop, and what it sends first.
pub data Received : Type 0 where
  got_packet : TftpPacket → Received
  timed_out socket_error : Received
  keep_waiting : List Datagram → Received

abbrev pub parsed_packet : ParseResult TftpPacket → Received
parsed_packet (success packet) = got_packet packet
parsed_packet _ = keep_waiting []

-- The answer to a datagram of another sender than the locked peer.
unfoldable pub stray_reply : Endpoint → Datagram
stray_reply sender = record {
  destination = sender;
  bytes = serialize_error unknown_transfer_id (text "unknown transfer ID");
}

-- One round of the loop of `receive_from_locked_peer`.
unfoldable pub receive_from_locked_peer : Endpoint → Reception → Received
receive_from_locked_peer locked_peer no_datagram = timed_out
receive_from_locked_peer locked_peer receive_failed = socket_error
receive_from_locked_peer locked_peer (datagram_from sender []) = timed_out
receive_from_locked_peer locked_peer (datagram_from sender (b ∷ bytes)) =
    if endpoint_eq sender locked_peer
    then parsed_packet (parse_tftp_packet (b ∷ bytes))
    else keep_waiting (stray_reply sender ∷ [])
