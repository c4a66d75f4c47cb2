-- ===== src/Engine/Receive/Strays.antt =====
-- TID discipline of `receive_from_locked_peer` (adapters/reference/tftp_reference_engine.cpp).
use tftp_stress_test.Common.{
  ◌≡◌, refl, inl, inr, true, List, [], ◌∷◌, arith, Bytes, if◌then◌else◌, Bool-cases, All,
}
use tftp_stress_test.Packet.{TftpPacket}
use tftp_stress_test.Packet.Parse.{ParseResult, success, failure, out_of_rounds, parse_tftp_packet}
use tftp_stress_test.Engine.{
  Endpoint, endpoint_eq, Datagram, Reception, no_datagram, receive_failed, datagram_from,
}
use tftp_stress_test.Engine.Receive.{
  Received, got_packet, keep_waiting, parsed_packet, stray_reply, receive_from_locked_peer,
}

-- The bytes of the datagrams that go to `peer`.
unfoldable pub delivered : Endpoint → List Datagram → List Bytes
delivered peer [] = []
delivered peer (d ∷ rest) =
    if endpoint_eq d.destination peer then d.bytes ∷ delivered peer rest else delivered peer rest

-- If the datagram received is one of the locked peer, it is as `P` says.
abbrev pub FromPeer : Endpoint → (Bytes → Type 0) → Reception → Type 0
FromPeer peer P reception =
    (sender : Endpoint) (bytes : Bytes)
    → reception ≡ datagram_from sender bytes
    → endpoint_eq sender peer ≡ true
    → P bytes

pub delivered-All :
    (peer : Endpoint) (P : Bytes → Type 0) (ds : List Datagram)
    → All (λ d. P d.bytes) ds
    → All P (delivered peer ds)
unfolding delivered
delivered-All peer P [] h = tt
delivered-All peer P (d ∷ ds) (p, h) = elim (Bool-cases (endpoint_eq d.destination peer)) [
  | inl e ↦ rw e (p, delivered-All peer P ds h)
  | inr e ↦ rw e (delivered-All peer P ds h)
]

-- What a wait for the peer's packet sends does not go to the peer.
abbrev pub SparesPeer : Endpoint → Received → Type 0
SparesPeer peer (keep_waiting replies) = delivered peer replies ≡ []
SparesPeer peer _ = Unit {0}

parsed_packet-SparesPeer :
    (peer : Endpoint) (r : ParseResult TftpPacket) → SparesPeer peer (parsed_packet r)
unfolding delivered
parsed_packet-SparesPeer peer (success p) = tt
parsed_packet-SparesPeer peer (failure reason) = refl
parsed_packet-SparesPeer peer out_of_rounds = refl

pub receive_from_locked_peer-SparesPeer :
    (peer : Endpoint) (reception : Reception)
    → SparesPeer peer (receive_from_locked_peer peer reception)
unfolding receive_from_locked_peer
receive_from_locked_peer-SparesPeer peer no_datagram = tt
receive_from_locked_peer-SparesPeer peer receive_failed = tt
receive_from_locked_peer-SparesPeer peer (datagram_from sender []) = tt
receive_from_locked_peer-SparesPeer peer (datagram_from sender (b ∷ bytes)) =
    elim (Bool-cases (endpoint_eq sender peer)) [
      | inl e ↦ rw e (parsed_packet-SparesPeer peer (parse_tftp_packet (b ∷ bytes)))
      | inr e ↦ rw e (unfold delivered stray_reply in rw e)
    ]

-- A packet reaches a transfer only from the locked peer, and only if it parses.
pub receive_from_locked_peer_source :
    (peer : Endpoint) (reception : Reception) (packet : TftpPacket)
    → receive_from_locked_peer peer reception ≡ got_packet packet
    → (sender : Endpoint) × (bytes : Bytes) × (reception ≡ datagram_from sender bytes)
      × (endpoint_eq sender peer ≡ true)
      × (parse_tftp_packet bytes ≡ success packet)
unfolding receive_from_locked_peer
receive_from_locked_peer_source peer no_datagram packet h = cc
receive_from_locked_peer_source peer receive_failed packet h = cc
receive_from_locked_peer_source peer (datagram_from sender []) packet h = cc
receive_from_locked_peer_source peer (datagram_from sender (b ∷ bytes)) packet h =
    (sender, b ∷ bytes, refl, ground arith, ground arith)
