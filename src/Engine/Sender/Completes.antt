-- ===== src/Engine/Sender/Completes.antt =====
-- `run_data_sender` (adapters/reference/tftp_reference_engine.cpp) when the blocks are acknowledged one after another.
use tftp_stress_test.Common.{
  ℕ, zero, suc, ◌+◌, ◌%◌, ◌^◌, ◌≤◌, ◌<◌, ◌≡◌, refl, sym, subst, ap, true, false, List, [], ◌∷◌,
  ◌++◌, Option, none, some, arith, Bytes, ltb, lt→ltb, length,
}
use tftp_stress_test.Packet.{TftpPacket, empty_packet, acknowledgement}
use tftp_stress_test.Packet.Serialize.{serialize_acknowledgement, append_u16}
use tftp_stress_test.Packet.RoundTrip.{parse-serialize_acknowledgement}
use tftp_stress_test.Engine.{
  Endpoint, endpoint_eq, EngineConfig, NegotiatedParameters, Reception, datagram_from,
  TransferOutcome, Step, run_steps,
}
use tftp_stress_test.Engine.Blocks.{wire_block_number}
use tftp_stress_test.Engine.Resolve.Laws.{resolve_ack_to_absolute-wire_block_number}
use tftp_stress_test.Engine.Receive.{got_packet, parsed_packet, receive_from_locked_peer}
use tftp_stress_test.Engine.Sender.{
  SenderCall, SenderState, send_new, window_of, transmit, sender_head, sender_start,
  sender_after_ack, sender_on_packet, sender_on_received, sender_on_reception, blocks_to_send,
  run_data_sender,
}

-- `count` ACKs of the peer, of the blocks behind `last`.
abbrev pub acks_behind : Endpoint → ℕ → ℕ → List Reception
acks_behind peer last zero = []
acks_behind peer last (suc count) =
    datagram_from peer (serialize_acknowledgement (wire_block_number (suc last)))
    ∷ acks_behind peer (suc last) count

-- The call has reported success of the whole payload.
abbrev pub Succeeds : ℕ → Option TransferOutcome → Type 0
Succeeds size none = ⊥
Succeeds size (some outcome) =
    (outcome.completed_successfully ≡ true) × (outcome.bytes_transferred ≡ size)

abbrev ack_packet : ℕ → TftpPacket
ack_packet n = record empty_packet { opcode = acknowledgement; block_number = wire_block_number n }

pub received_ack :
    (peer : Endpoint) (n : ℕ)
    → endpoint_eq peer peer ≡ true
    → receive_from_locked_peer peer
        (datagram_from peer (serialize_acknowledgement (wire_block_number n)))
      ≡ got_packet (ack_packet n)
unfolding receive_from_locked_peer serialize_acknowledgement append_u16 wire_block_number
received_ack peer n bound =
    rw bound (ap parsed_packet (parse-serialize_acknowledgement (n % 2 ^ 16) (omega arith)))

module _ (c : SenderCall) (bound : endpoint_eq c.peer c.peer ≡ true) (few : c.total_blocks < 2 ^ 16)
    (narrow : c.params.window_size < 2 ^ 16) where
  -- The next block is on its way.
  record IsOnItsWay (last : ℕ) (step : Step SenderState) : Type 0 where
    running : step.returned ≡ none
    acked : step.state.last_acked ≡ last
    sent : last < step.state.highest_sent
    inside : step.state.highest_sent ≤ c.total_blocks

  head-IsOnItsWay :
      (s : SenderState)
      → s.last_acked < c.total_blocks
      → s.highest_sent ≤ c.total_blocks
      → IsOnItsWay s.last_acked (sender_head c (record s { action = send_new }))
  unfolding sender_head transmit window_of
  head-IsOnItsWay s more inside =
      rw (lt→ltb _ _ more)
        (record { running = refl; acked = refl; sent = omega arith; inside = omega arith })

  -- The ACK of the next block moves the sender on.
  acked_next :
      (s : SenderState)
      → s.last_acked < s.highest_sent
      → s.highest_sent ≤ c.total_blocks
      → sender_on_reception c s
          (datagram_from c.peer (serialize_acknowledgement (wire_block_number (suc s.last_acked))))
        ≡ sender_head c (record s {
          last_acked = suc s.last_acked;
          consecutive_timeouts = 0;
          action = send_new;
        })
  unfolding sender_on_reception sender_on_received sender_on_packet sender_after_ack
  acked_next s sent inside =
      let reads = received_ack c.peer (suc s.last_acked) bound in
      let resolved =
        resolve_ack_to_absolute-wire_block_number s.last_acked s.highest_sent (suc s.last_acked)
          (omega arith) (omega arith) (omega arith) in
      let newer : ltb s.last_acked (suc s.last_acked) ≡ true = lt→ltb _ _ (omega arith) in
      rw (reads, resolved, newer) refl

  head_done :
      (s : SenderState)
      → suc s.last_acked ≡ c.total_blocks
      → Succeeds
          (length c.payload)
          (sender_head c (record s {
            last_acked = suc s.last_acked;
            consecutive_timeouts = 0;
            action = send_new;
          })).returned
  unfolding sender_head
  head_done s all =
      let done : ltb (suc s.last_acked) c.total_blocks ≡ false = ground arith in
      rw done (refl, refl)

  -- A call that has not returned, at its next receive.
  resumed :
      (last count : ℕ) (step : Step SenderState)
      → IsOnItsWay last step
      → Succeeds
          (length c.payload)
          (run_steps
            (sender_on_reception c)
            (record { sends = step.sends; state = step.state; returned = none })
            (acks_behind c.peer step.state.last_acked count)).returned
      → Succeeds
          (length c.payload)
          (run_steps (sender_on_reception c) step (acks_behind c.peer last count)).returned
  resumed last count step way h =
      subst
        (λ r.
          Succeeds (length c.payload)
            (run_steps (sender_on_reception c)
              (record { sends = step.sends; state = step.state; returned = r })
              (acks_behind c.peer last count)).returned)
        (sym way.running)
        (subst
          (λ n.
            Succeeds (length c.payload)
              (run_steps (sender_on_reception c)
                (record { sends = step.sends; state = step.state; returned = none })
                (acks_behind c.peer n count)).returned)
          way.acked h)

  -- A call that has blocks on their way is told of each of them in turn.
  acked_on :
      (count last : ℕ) (step : Step SenderState)
      → last + suc count ≡ c.total_blocks
      → IsOnItsWay last step
      → Succeeds
          (length c.payload)
          (run_steps (sender_on_reception c) step (acks_behind c.peer last (suc count))).returned
  unfolding run_steps
  acked_on zero last step all way =
      let s = step.state in
      let sent : s.last_acked < s.highest_sent = omega (arith, way.acked, way.sent) in
      resumed last 1 step way
        (rw (acked_next s sent way.inside) (head_done s (omega (arith, all, way.acked))))
  acked_on (suc count) last step all way =
      let s = step.state in
      let sent : s.last_acked < s.highest_sent = omega (arith, way.acked, way.sent) in
      let s' : SenderState = record s { last_acked = suc s.last_acked; consecutive_timeouts = 0 } in
      let next = sender_head c (record s' { action = send_new }) in
      let on_way = head-IsOnItsWay s' (omega (arith, all, way.acked)) way.inside in
      let rest =
        acked_on count (suc s.last_acked) (record next { sends = step.sends ++ next.sends })
          (omega (arith, all, way.acked))
          (record {
            running = on_way.running;
            acked = on_way.acked;
            sent = on_way.sent;
            inside = on_way.inside;
          }) in
      resumed last (suc (suc count)) step way (
        subst
          (λ (n : Step SenderState).
            Succeeds (length c.payload)
              (run_steps (sender_on_reception c) (record n { sends = step.sends ++ n.sends })
                (acks_behind c.peer (suc s.last_acked) (suc count))).returned)
          (sym (acked_next s sent way.inside)) rest)

-- A transfer of fewer than 65536 blocks to a bound peer, with a window of 16 bits, is completed when the peer
-- acknowledges one block after another: `run_data_sender` reports success of the whole payload.
pub run_data_sender_completes :
    (peer : Endpoint) (payload : Bytes) (params : NegotiatedParameters) (config : EngineConfig)
    (starting total : ℕ)
    → blocks_to_send payload params.block_size config ≡ some total
    → endpoint_eq peer peer ≡ true
    → 0 < total
    → total < 2 ^ 16
    → params.window_size < 2 ^ 16
    → (step : Step SenderState) × (run_data_sender peer payload params config starting
          (acks_behind peer 0 total)
        ≡ some step)
      × Succeeds (length payload) step.returned
unfolding run_data_sender
run_data_sender_completes peer payload params config starting zero counted bound some_block few
      narrow =
    absurd (omega arith)
run_data_sender_completes peer payload params config starting (suc count) counted bound some_block
      few narrow =
    let c : SenderCall = record {
      peer = peer;
      payload = payload;
      params = params;
      config = config;
      total_blocks = suc count;
    } in
    let way = head-IsOnItsWay c bound few narrow (sender_start starting) some_block (omega arith) in
    rw (counted, run_data_sender)
      (
        run_steps (sender_on_reception c) (sender_head c (sender_start starting))
            (acks_behind peer 0 (suc count)),
        refl,
        acked_on c bound few narrow count 0 (sender_head c (sender_start starting)) (omega arith)
            way,
      )
