-- ===== src/Engine/Sender/Window.antt =====
-- The window of `run_data_sender` (adapters/reference/tftp_reference_engine.cpp), and what it sends.
use tftp_stress_test.Common.{
  ℕ, zero, suc, ◌+◌, ◌≤◌, ◌<◌, ◌≡◌, refl, inl, inr, arith, Bytes, ltb, Bool-cases, All,
}
use tftp_stress_test.Packet.{TftpPacket}
use tftp_stress_test.Packet.Serialize.{serialize_data}
use tftp_stress_test.Engine.{Datagram, Reception}
use tftp_stress_test.Engine.Blocks.{wire_block_number, block_payload}
use tftp_stress_test.Engine.Resolve.Laws.{resolve_ack_to_absolute_bounds}
use tftp_stress_test.Engine.Receive.{Received, got_packet, timed_out, socket_error, keep_waiting}
use tftp_stress_test.Engine.Sender.{
  Action, send_new, rollback, wait_only, SenderCall, SenderState, data_blocks, window_of,
  transmit_as, transmit, sender_head, sender_on_timeout, sender_after_ack, sender_on_packet,
  sender_on_received, sender_on_reception, sender_start,
}

-- The blocks in flight lie in order, inside the payload and inside the window.
pub record InWindow (c : SenderCall) (s : SenderState) : Type 0 where
  pub in_order : s.last_acked ≤ s.highest_sent
  pub in_payload : s.highest_sent ≤ c.total_blocks
  pub in_window : s.highest_sent ≤ s.last_acked + window_of c.params

pub transmit_as-InWindow :
    (a : Action) (c : SenderCall) (s : SenderState)
    → InWindow c s
    → InWindow c (transmit_as a c s).0
transmit_as-InWindow send_new c s v = omega arith
transmit_as-InWindow rollback c s v = omega arith
transmit_as-InWindow wait_only c s v = v

pub sender_head-InWindow :
    (c : SenderCall) (s : SenderState) → InWindow c s → InWindow c (sender_head c s).state
unfolding sender_head transmit
sender_head-InWindow c s v = elim (Bool-cases (ltb s.last_acked c.total_blocks)) [
  | inl e ↦ rw e (transmit_as-InWindow s.action c s v)
  | inr e ↦ rw e v
]

pub sender_after_ack-InWindow :
    (c : SenderCall) (s : SenderState) (block_number : ℕ)
    → InWindow c s
    → InWindow c (sender_after_ack c s block_number)
unfolding sender_after_ack
sender_after_ack-InWindow c s block_number v =
    ground (arith, resolve_ack_to_absolute_bounds block_number s.last_acked s.highest_sent)

sender_on_packet-InWindow :
    (c : SenderCall) (s : SenderState) (packet : TftpPacket)
    → InWindow c s
    → InWindow c (sender_on_packet c s packet).state
unfolding sender_on_packet
sender_on_packet-InWindow c s packet v = ground (
  arith,
  sender_head-InWindow c (sender_after_ack c s packet.block_number),
  sender_after_ack-InWindow c s packet.block_number,
  sender_head-InWindow c (record s { action = wait_only }),
)

sender_on_received-InWindow :
    (c : SenderCall) (s : SenderState) (r : Received)
    → InWindow c s
    → InWindow c (sender_on_received c s r).state
unfolding sender_on_received sender_on_timeout
sender_on_received-InWindow c s (got_packet packet) v = sender_on_packet-InWindow c s packet v
sender_on_received-InWindow c s timed_out v = ground (
  arith,
  sender_head-InWindow c
      (record s { consecutive_timeouts = s.consecutive_timeouts + 1; action = rollback }),
)
sender_on_received-InWindow c s socket_error v = v
sender_on_received-InWindow c s (keep_waiting replies) v = v

-- If the blocks in flight are in order, inside the payload and within the negotiated window, then they are
-- so at the next receive, whatever is received.
pub sender_on_reception-InWindow :
    (c : SenderCall) (s : SenderState) (reception : Reception)
    → InWindow c s
    → InWindow c (sender_on_reception c s reception).state
unfolding sender_on_reception
sender_on_reception-InWindow c s reception v = sender_on_received-InWindow c s _ v

pub sender_start-InWindow :
    (c : SenderCall) (sent : ℕ) → InWindow c (sender_head c (sender_start sent)).state
sender_start-InWindow c sent = sender_head-InWindow c (sender_start sent) (omega arith)

-- A DATA datagram of the block `suc k` of the payload.
abbrev pub IsBlock : Bytes → ℕ → ℕ → Bytes → Type 0
IsBlock payload block_size total bytes =
    (k : ℕ) × (k < total)
    × (bytes
        ≡ serialize_data (wire_block_number (suc k)) (block_payload payload (suc k) block_size))

-- A datagram to the peer that holds a block of the payload.
abbrev pub SendsBlock : SenderCall → Datagram → Type 0
SendsBlock c d =
    (d.destination ≡ c.peer) × IsBlock c.payload c.params.block_size c.total_blocks d.bytes

pub data_blocks-SendsBlock :
    (c : SenderCall) (count k : ℕ)
    → k + count ≤ c.total_blocks
    → All (SendsBlock c) (data_blocks c.peer c.payload c.params.block_size count (suc k))
unfolding data_blocks
data_blocks-SendsBlock c zero k h = tt
data_blocks-SendsBlock c (suc count) k h =
    let next : suc k + 1 ≡ suc (suc k) = omega arith in
    ((refl, (k, omega arith, refl)), rw next (data_blocks-SendsBlock c count (suc k) (omega arith)))
