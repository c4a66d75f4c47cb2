-- ===== src/Engine/Sender/Patience.antt =====
-- When `run_data_sender` (adapters/reference/tftp_reference_engine.cpp) sends nothing, and when it gives up.
use tftp_stress_test.Common.{
  ℕ, zero, suc, ◌+◌, ◌-◌, ◌%◌, ◌^◌, ◌≤◌, ◌<◌, ◌≡◌, refl, sym, subst, true, false, List, [], ◌++◌,
  Option, none, some, arith, lt→ltb, replicate,
}
use tftp_stress_test.Packet.{TftpPacket, acknowledgement}
use tftp_stress_test.Engine.{Datagram, no_datagram, TransferOutcome, run_steps}
use tftp_stress_test.Engine.Blocks.{wire_block_number}
use tftp_stress_test.Engine.Resolve.{resolve_ack_to_absolute}
use tftp_stress_test.Engine.Resolve.Laws.{resolve_ack_to_absolute_bounds}
use tftp_stress_test.Engine.Receive.{receive_from_locked_peer}
use tftp_stress_test.Engine.Sender.{
  wait_only, SenderCall, SenderState, transmit, sender_head, sender_outcome, sender_on_timeout,
  sender_after_ack, sender_on_packet, sender_on_received, sender_on_reception,
}

old_ack_resolves :
    (s : SenderState) (j : ℕ)
    → j ≤ s.last_acked
    → s.last_acked ≤ s.highest_sent
    → s.highest_sent < 2 ^ 16
    → resolve_ack_to_absolute (wire_block_number j) s.last_acked s.highest_sent ≡ s.last_acked
unfolding wire_block_number
old_ack_resolves s j old order few =
    omega (arith, resolve_ack_to_absolute_bounds (j % 2 ^ 16) s.last_acked s.highest_sent)

after_old_ack :
    (c : SenderCall) (s : SenderState) (j : ℕ)
    → c.config.quirks.retransmit_on_duplicate_ack ≡ false
    → j ≤ s.last_acked
    → s.last_acked ≤ s.highest_sent
    → s.highest_sent < 2 ^ 16
    → sender_after_ack c s (wire_block_number j) ≡ record s { action = wait_only }
unfolding sender_after_ack
after_old_ack c s j quirk old order few = ground (arith, old_ack_resolves s j old order few)

head_waits :
    (c : SenderCall) (s : SenderState)
    → s.last_acked < c.total_blocks
    → sender_head c (record s { action = wait_only })
      ≡ record { sends = []; state = record s { action = wait_only }; returned = none }
unfolding sender_head transmit
head_waits c s more = rw (lt→ltb _ _ more)

-- Without the quirk, an ACK of a block that is acknowledged already makes the sender send nothing, and of its
-- variables only the action changes; if the transfer is not complete and fewer than 65536 blocks have been
-- sent.
pub duplicate_ack_sends_nothing :
    (c : SenderCall) (s : SenderState) (packet : TftpPacket) (j : ℕ)
    → c.config.quirks.retransmit_on_duplicate_ack ≡ false
    → j ≤ s.last_acked
    → s.last_acked ≤ s.highest_sent
    → s.highest_sent < 2 ^ 16
    → s.last_acked < c.total_blocks
    → sender_on_packet c s
        (record packet { opcode = acknowledgement; block_number = wire_block_number j })
      ≡ record { sends = []; state = record s { action = wait_only }; returned = none }
unfolding sender_on_packet
duplicate_ack_sends_nothing c s packet j quirk old order few more =
    rw (after_old_ack c s j quirk old order few) (head_waits c s more)

-- A timeout below the limit rolls the window back.
timeout_waits :
    (c : SenderCall) (s : SenderState)
    → s.last_acked < c.total_blocks
    → s.consecutive_timeouts < c.config.maximum_retransmissions
    → ((sender_on_reception c s no_datagram).returned ≡ none)
      × ((sender_on_reception c s no_datagram).state.last_acked ≡ s.last_acked)
      × ((sender_on_reception c s no_datagram).state.consecutive_timeouts
          ≡ s.consecutive_timeouts + 1)
unfolding sender_on_reception sender_on_received sender_on_timeout sender_head transmit
    receive_from_locked_peer
timeout_waits c s more below = ground arith

-- Returned, without success and with `timed_out`.
abbrev pub TimesOut : Option TransferOutcome → Type 0
TimesOut returned =
    (outcome : TransferOutcome) × (returned ≡ some outcome)
    × (outcome.timed_out ≡ true)
    × (outcome.completed_successfully ≡ false)

last_timeout :
    (c : SenderCall) (s : SenderState)
    → s.consecutive_timeouts ≡ c.config.maximum_retransmissions
    → TimesOut (sender_on_reception c s no_datagram).returned
unfolding sender_on_reception sender_on_received sender_on_timeout sender_outcome
    receive_from_locked_peer
last_timeout c s limit =
    rw (lt→ltb c.config.maximum_retransmissions (s.consecutive_timeouts + 1) (omega arith))
      (_, refl, refl, refl)

gives_up :
    (c : SenderCall) (sent : List Datagram) (s : SenderState) (left : ℕ)
    → s.last_acked < c.total_blocks
    → s.consecutive_timeouts + left ≡ c.config.maximum_retransmissions
    → TimesOut
        (run_steps
          (sender_on_reception c)
          (record { sends = sent; state = s; returned = none })
          (replicate (suc left) no_datagram)).returned
unfolding run_steps
gives_up c sent s zero more limit = last_timeout c s (omega arith)
gives_up c sent s (suc left) more limit =
    let (waits, same, count) = timeout_waits c s more (omega arith) in
    let rest =
      gives_up c (sent ++ (sender_on_reception c s no_datagram).sends)
        (sender_on_reception c s no_datagram).state left (rw same more) (rw count (omega arith)) in
    subst
      (λ r.
        TimesOut
          (run_steps (sender_on_reception c)
            (record (sender_on_reception c s no_datagram) {
              sends = sent ++ (sender_on_reception c s no_datagram).sends;
              returned = r;
            })
            (replicate (suc left) no_datagram)).returned)
      (sym waits) rest

-- If the timeouts so far are within the limit and the transfer is not complete, then as many further timeouts
-- in a row as go over the limit make the sender return, without success and with `timed_out`.
pub sender_gives_up :
    (c : SenderCall) (s : SenderState)
    → s.last_acked < c.total_blocks
    → s.consecutive_timeouts ≤ c.config.maximum_retransmissions
    → TimesOut
        (run_steps
          (sender_on_reception c)
          (record { sends = []; state = s; returned = none })
          (replicate
            (c.config.maximum_retransmissions + 1 - s.consecutive_timeouts)
            no_datagram)).returned
sender_gives_up c s more limit =
    let left = c.config.maximum_retransmissions - s.consecutive_timeouts in
    let e : c.config.maximum_retransmissions + 1 - s.consecutive_timeouts ≡ suc left =
      omega arith in
    rw e (gives_up c [] s left more (omega arith))
