-- ===== src/Engine/Receiver/Honest.antt =====
-- `run_data_receiver` (adapters/reference/tftp_reference_engine.cpp) from one receive to the next, when
-- what comes from the locked peer are blocks of one payload.
use tftp_stress_test.Common.{
  ℕ, suc, ◌+◌, ◌%◌, ◌^◌, ◌<◌, ◌≡◌, refl, sym, subst, ap, ◌∙◌, false, List, [], arith, Bytes, ltb,
  Bool-cases, inl, inr, All,
}
use tftp_stress_test.Packet.{TftpPacket, empty_packet, data_block}
use tftp_stress_test.Packet.Parse.{success, parse_tftp_packet}
use tftp_stress_test.Packet.Serialize.{serialize_data}
use tftp_stress_test.Packet.RoundTrip.{parse-serialize_data}
use tftp_stress_test.Engine.{Datagram, Reception}
use tftp_stress_test.Engine.Blocks.{wire_block_number, block_payload}
use tftp_stress_test.Engine.Blocks.Laws.{IsTotal}
use tftp_stress_test.Engine.Receive.{
  Received, got_packet, timed_out, socket_error, keep_waiting, receive_from_locked_peer,
}
use tftp_stress_test.Engine.Receive.Strays.{
  delivered, FromPeer, SparesPeer, receive_from_locked_peer-SparesPeer,
  receive_from_locked_peer_source,
}
use tftp_stress_test.Engine.Sender.Window.{IsBlock}
use tftp_stress_test.Engine.Receiver.{
  receiver_outcome, Phase, receiving, dallying, ReceiverCall, ReceiverState, acknowledge, waits,
  receiver_on_packet, receiver_on_timeout, receiver_completes, on_dally_packet,
  receiver_on_received, receiver_on_reception,
}
use tftp_stress_test.Engine.Receiver.Accept.{
  IsDone, IsAckUpto, IsPrefix, IsGood, acknowledge-IsAckUpto, acknowledges-IsGood, on_data-IsGood,
}

success_injective : (p q : TftpPacket) → success p ≡ success q → p ≡ q
success_injective p q h = cc

abbrev pub block_packet : Bytes → ℕ → ℕ → TftpPacket
block_packet payload block_size k = record empty_packet {
  opcode = data_block;
  block_number = wire_block_number (suc k);
  contents = block_payload payload (suc k) block_size;
}

-- A packet that reaches the loop is a block of the payload.
abbrev pub IsBlockPacket : Bytes → ℕ → ℕ → Received → Type 0
IsBlockPacket payload block_size total (got_packet packet) =
    (k : ℕ) × (k < total) × (packet ≡ block_packet payload block_size k)
IsBlockPacket payload block_size total _ = Unit {0}

pub read_block :
    (payload bytes : Bytes) (block_size k : ℕ) (packet : TftpPacket)
    → bytes ≡ serialize_data (wire_block_number (suc k)) (block_payload payload (suc k) block_size)
    → parse_tftp_packet bytes ≡ success packet
    → packet ≡ block_packet payload block_size k
unfolding wire_block_number
read_block payload bytes block_size k packet written parsed =
    let sent =
      parse-serialize_data (suc k % 2 ^ 16) (block_payload payload (suc k) block_size)
        (omega arith) in
    success_injective _ _ (sym parsed ∙ ap parse_tftp_packet written ∙ sent)

module _ (c : ReceiverCall) (payload : Bytes) (total : ℕ) where
  received_block :
      (reception : Reception) (r : Received)
      → receive_from_locked_peer c.peer reception ≡ r
      → FromPeer c.peer (IsBlock payload c.params.block_size total) reception
      → IsBlockPacket payload c.params.block_size total r
  received_block reception timed_out e honest = tt
  received_block reception socket_error e honest = tt
  received_block reception (keep_waiting replies) e honest = tt
  received_block reception (got_packet packet) e honest =
      let (sender, bytes, source, same, parsed) =
        receive_from_locked_peer_source c.peer reception packet e in
      let (k, h, written) = honest sender bytes source same in
      (k, h, read_block payload bytes c.params.block_size k packet written parsed)

  module _ (t : IsTotal payload c.params.block_size total) (few : total < 2 ^ 16)
      (quirk : c.config.quirks.accept_out_of_sequence_data ≡ false) where
    pub receiver_on_packet-IsGood :
        (s : ReceiverState) (packet : TftpPacket)
        → s.phase ≡ receiving
        → IsPrefix c payload total s
        → IsBlockPacket payload c.params.block_size total (got_packet packet)
        → IsGood c payload total s.last_in_sequence (receiver_on_packet c s packet)
    unfolding receiver_on_packet
    receiver_on_packet-IsGood s packet phase p (k, h, e) = rw e (
        on_data-IsGood c payload total t few (record s { consecutive_timeouts = 0 }) k h
          (record { received = p.received; content = p.content; done = p.done }) phase quirk)

    receiver_on_timeout-IsGood :
        (s : ReceiverState)
        → IsPrefix c payload total s
        → IsGood c payload total s.last_in_sequence (receiver_on_timeout c s)
    unfolding receiver_on_timeout delivered receiver_outcome
    receiver_on_timeout-IsGood s p =
        let s' = record s { consecutive_timeouts = s.consecutive_timeouts + 1 } in
        let q : IsPrefix c payload total s' = record {
          received = p.received;
          content = p.content;
          done = p.done;
        } in
        elim (Bool-cases (ltb c.config.maximum_retransmissions (s.consecutive_timeouts + 1))) [
          | inl e ↦ rw e (record { prefix = q; grows = omega arith; acks = tt; completes = cc })
          | inr e ↦ rw e (acknowledges-IsGood c payload total _ s' (omega arith) q)
        ]

    completes-IsGood :
        (s : ReceiverState) (sends : List Datagram)
        → IsPrefix c payload total s
        → s.last_in_sequence ≡ total
        → All (IsAckUpto s.last_in_sequence) (delivered c.peer sends)
        → IsGood c payload total s.last_in_sequence (receiver_completes c s sends)
    unfolding receiver_completes
    completes-IsGood s sends p e acks = record {
      prefix = p;
      grows = omega arith;
      acks = acks;
      completes = λ _. e;
    }

    on_dally_packet-IsGood :
        (s : ReceiverState) (rounds : ℕ) (packet : TftpPacket)
        → s.phase ≡ dallying rounds
        → IsPrefix c payload total s
        → IsBlockPacket payload c.params.block_size total (got_packet packet)
        → IsGood c payload total s.last_in_sequence (on_dally_packet c s rounds packet)
    unfolding on_dally_packet acknowledge
    on_dally_packet-IsGood s rounds packet phase p (k, h, e) =
        let last : s.last_in_sequence ≡ total =
          subst (IsDone total s.last_in_sequence) phase p.done in
        rw e (elim (Bool-cases (ltb (rounds + 1) 4)) [
          | inl more ↦ rw more (
              acknowledges-IsGood c payload total _ (record s { phase = dallying (rounds + 1) })
                (omega arith) (record { received = p.received; content = p.content; done = last }))
          | inr over ↦
              rw over (completes-IsGood s _ p last (acknowledge-IsAckUpto c payload total s))
        ])

    keeps_waiting-IsGood :
        (s : ReceiverState) (replies : List Datagram)
        → IsPrefix c payload total s
        → delivered c.peer replies ≡ []
        → IsGood c payload total s.last_in_sequence (waits s replies)
    keeps_waiting-IsGood s replies p spared = record {
      prefix = p;
      grows = omega arith;
      acks = rw spared tt;
      completes = tt;
    }

    fails-IsGood :
        (s : ReceiverState)
        → IsPrefix c payload total s
        → IsGood c payload total s.last_in_sequence
            (receiver_on_received receiving c s socket_error)
    unfolding receiver_on_received delivered receiver_outcome
    fails-IsGood s p = record { prefix = p; grows = omega arith; acks = tt; completes = cc }

    receiver_on_received-IsGood :
        (phase : Phase) (s : ReceiverState) (r : Received)
        → s.phase ≡ phase
        → IsPrefix c payload total s
        → IsBlockPacket payload c.params.block_size total r
        → SparesPeer c.peer r
        → IsGood c payload total s.last_in_sequence (receiver_on_received phase c s r)
    unfolding receiver_on_received delivered
    receiver_on_received-IsGood receiving s (got_packet packet) phase p b spared =
        receiver_on_packet-IsGood s packet phase p b
    receiver_on_received-IsGood receiving s timed_out phase p b spared =
        receiver_on_timeout-IsGood s p
    receiver_on_received-IsGood receiving s socket_error phase p b spared = fails-IsGood s p
    receiver_on_received-IsGood receiving s (keep_waiting replies) phase p b spared =
        keeps_waiting-IsGood s replies p spared
    receiver_on_received-IsGood (dallying rounds) s (got_packet packet) phase p b spared =
        on_dally_packet-IsGood s rounds packet phase p b
    receiver_on_received-IsGood (dallying rounds) s timed_out phase p b spared =
        completes-IsGood s [] p (subst (IsDone total s.last_in_sequence) phase p.done) tt
    receiver_on_received-IsGood (dallying rounds) s socket_error phase p b spared =
        completes-IsGood s [] p (subst (IsDone total s.last_in_sequence) phase p.done) tt
    receiver_on_received-IsGood (dallying rounds) s (keep_waiting replies) phase p b spared =
        keeps_waiting-IsGood s replies p spared

    -- If the receiver's content is the blocks 1 to `last_in_sequence` of the payload, what comes from the
    -- locked peer are blocks of the payload, there are fewer than 65536 of them, and blocks behind a gap
    -- are not accepted: then at the next receive its content is again so, `last_in_sequence` has not gone
    -- back, it has acknowledged to the peer only blocks that it has, and completes only with all of them.
    pub receiver_on_reception-IsGood :
        (s : ReceiverState) (reception : Reception)
        → IsPrefix c payload total s
        → FromPeer c.peer (IsBlock payload c.params.block_size total) reception
        → IsGood c payload total s.last_in_sequence (receiver_on_reception c s reception)
    unfolding receiver_on_reception
    receiver_on_reception-IsGood s reception p honest =
        receiver_on_received-IsGood s.phase s _ refl p (received_block reception _ refl honest)
          (receive_from_locked_peer-SparesPeer c.peer reception)
