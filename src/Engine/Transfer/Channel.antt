-- ===== src/Engine/Transfer/Channel.antt =====
-- The two ends of a transfer (adapters/reference/tftp_reference_engine.cpp) as a channel that hands over one block
-- after another.
use tftp_stress_test.Common.{
  ℕ, suc, ◌+◌, ◌≤◌, ◌<◌, ◌≡◌, ◌⊎◌, inl, inr, refl, sym, ap, subst, ◌∙◌, false, arith, Bytes, ◌++◌,
  Bool-cases, ltb, inc32,
}
use tftp_stress_test.Packet.{TftpPacket}
use tftp_stress_test.Engine.{Step}
use tftp_stress_test.Engine.Blocks.{block_payload}
use tftp_stress_test.Engine.Receive.{
  Received, got_packet, timed_out, socket_error, keep_waiting, receive_from_locked_peer,
}
use tftp_stress_test.Engine.Sender.{
  SenderCall, SenderState, transmit, transmit_as, Action, send_new, rollback, wait_only,
  sender_head, sender_on_timeout, sender_after_ack, sender_on_packet, sender_on_received,
  sender_on_reception,
}
use tftp_stress_test.Engine.Receiver.{
  ReceiverCall, ReceiverState, Phase, receiving, dallying, on_block_in_sequence,
  on_block_out_of_sequence, on_data, receiver_on_packet, receiver_on_timeout, receiver_completes,
  on_dally_packet, receiver_on_received, receiver_on_reception,
}
use tftp_stress_test.Engine.Blocks.Laws.{blocks_upto, blocks_upto-suc}
use tftp_stress_test.Engine.Transfer.{
  World, after_receiver, Move, sender_receives, receiver_receives, Reach, moved,
}
use tftp_stress_test.Engine.Transfer.Delivery.{IsTransfer, fits, received_prefix}

-- The last block in sequence stays, or is the next one.
Advances : ℕ → Step ReceiverState → Type 0
Advances last step =
    (step.state.last_in_sequence ≡ last) ⊎ (step.state.last_in_sequence ≡ inc32 last)

on_data-Advances :
    (c : ReceiverCall) (s : ReceiverState) (block_number : ℕ) (contents : Bytes)
    → c.config.quirks.accept_out_of_sequence_data ≡ false
    → Advances s.last_in_sequence (on_data c s block_number contents)
unfolding Advances on_data on_block_in_sequence on_block_out_of_sequence
on_data-Advances c s block_number contents quirk = ground (arith, quirk)

receiver_on_packet-Advances :
    (c : ReceiverCall) (s : ReceiverState) (packet : TftpPacket)
    → c.config.quirks.accept_out_of_sequence_data ≡ false
    → Advances s.last_in_sequence (receiver_on_packet c s packet)
unfolding Advances receiver_on_packet
receiver_on_packet-Advances c s packet quirk =
    let data_case =
      on_data-Advances c (record s { consecutive_timeouts = 0 }) packet.block_number packet.contents
        quirk in
    ground (arith, data_case)

receiver_on_received-Advances :
    (c : ReceiverCall) (phase : Phase) (s : ReceiverState) (r : Received)
    → c.config.quirks.accept_out_of_sequence_data ≡ false
    → Advances s.last_in_sequence (receiver_on_received phase c s r)
unfolding Advances receiver_on_received receiver_on_timeout on_dally_packet receiver_completes
receiver_on_received-Advances c receiving s (got_packet packet) quirk =
    receiver_on_packet-Advances c s packet quirk
receiver_on_received-Advances c receiving s timed_out quirk = ground arith
receiver_on_received-Advances c receiving s socket_error quirk = inl refl
receiver_on_received-Advances c receiving s (keep_waiting replies) quirk = inl refl
receiver_on_received-Advances c (dallying rounds) s (got_packet packet) quirk = ground arith
receiver_on_received-Advances c (dallying rounds) s timed_out quirk = inl refl
receiver_on_received-Advances c (dallying rounds) s socket_error quirk = inl refl
receiver_on_received-Advances c (dallying rounds) s (keep_waiting replies) quirk = inl refl

sender_head_last :
    (c : SenderCall) (s : SenderState) → (sender_head c s).state.last_acked ≡ s.last_acked
unfolding sender_head transmit
sender_head_last c s = elim (Bool-cases (ltb s.last_acked c.total_blocks)) [
  | inl e ↦ rw e (sent_last s.action)
  | inr e ↦ rw e refl
]
  where
    sent_last : (a : Action) → (transmit_as a c s).0.last_acked ≡ s.last_acked
    sent_last send_new = refl
    sent_last rollback = refl
    sent_last wait_only = refl

-- What the sender takes for acknowledged never shrinks.
Confirms : ℕ → Step SenderState → Type 0
Confirms last step = last ≤ step.state.last_acked

sender_after_ack_grows :
    (c : SenderCall) (s : SenderState) (n : ℕ) → s.last_acked ≤ (sender_after_ack c s n).last_acked
unfolding sender_after_ack
sender_after_ack_grows c s n = ground arith

sender_on_received-Confirms :
    (c : SenderCall) (s : SenderState) (r : Received)
    → Confirms s.last_acked (sender_on_received c s r)
unfolding Confirms sender_on_received sender_on_packet sender_on_timeout
sender_on_received-Confirms c s (got_packet packet) =
    let after = sender_after_ack c s packet.block_number in
    let head = sender_head_last c after in
    let waiting = sender_head_last c (record s { action = wait_only }) in
    ground (arith, head, waiting, sender_after_ack_grows c s packet.block_number)
sender_on_received-Confirms c s timed_out =
    let head =
      sender_head_last c
        (record s { consecutive_timeouts = s.consecutive_timeouts + 1; action = rollback }) in
    ground (arith, head)
sender_on_received-Confirms c s socket_error = omega arith
sender_on_received-Confirms c s (keep_waiting replies) = omega arith

-- What a transfer promises: the content so far, the blocks handed over, and those that the sender knows of.
pub record Channel : Type 0 where
  pub content : Bytes
  pub handed_over : ℕ
  pub confirmed : ℕ

-- A channel is idle, hands over the next block of the payload, or tells the sender of blocks that are handed over.
pub data Transition (payload : Bytes) (block_size total : ℕ) (c : Channel) : Channel → Type 0 where
  idle : Transition payload block_size total c c
  hands_over :
      c.handed_over < total
      → Transition payload block_size total c (record c {
        content = c.content ++ block_payload payload (suc c.handed_over) block_size;
        handed_over = suc c.handed_over;
      })
  confirms :
      (n : ℕ)
      → c.confirmed ≤ n
      → n ≤ c.handed_over
      → Transition payload block_size total c (record c { confirmed = n })

abbrev pub channel : World → Channel
channel w = record {
  content = w.receiver.sink;
  handed_over = w.receiver.last_in_sequence;
  confirmed = w.sender.last_acked;
}

abbrev with_content : Bytes → ℕ → ℕ → Channel
with_content content handed_over confirmed = record {
  content = content;
  handed_over = handed_over;
  confirmed = confirmed;
}

with_content_ap :
    (x x' : Bytes) (n n' confirmed : ℕ)
    → x ≡ x'
    → n ≡ n'
    → with_content x n confirmed ≡ with_content x' n' confirmed
with_content_ap x x' n n' confirmed e f =
    ap (λ y. with_content y n confirmed) e ∙ ap (λ m. with_content x' m confirmed) f

module _ (sc : SenderCall) (rc : ReceiverCall) (tr : IsTransfer sc rc) where
  abbrev Transits : Channel → Channel → Type 0
  Transits = Transition sc.payload rc.params.block_size sc.total_blocks

  -- A step of the receiver, by the block that is last in sequence behind it.
  receiver-Transits :
      (w : World) (step : Step ReceiverState)
      → Advances w.receiver.last_in_sequence step
      → w.receiver.sink ≡ blocks_upto sc.payload w.receiver.last_in_sequence rc.params.block_size
      → step.state.sink ≡ blocks_upto sc.payload step.state.last_in_sequence rc.params.block_size
      → step.state.last_in_sequence ≤ sc.total_blocks
      → w.receiver.last_in_sequence ≤ sc.total_blocks
      → Transits (channel w) (channel (after_receiver rc w step))
  unfolding Advances
  receiver-Transits w step (inl same) before after le le' =
      let kept : w.receiver.sink ≡ step.state.sink =
        before ∙ ap (λ n. blocks_upto sc.payload n rc.params.block_size) (sym same) ∙ sym after in
      subst (Transits (channel w)) (with_content_ap _ _ _ _ _ kept (sym same)) idle
  receiver-Transits w step (inr next) before after le le' =
      let last = w.receiver.last_in_sequence in
      let few = fits sc rc tr in
      let up : suc last ≡ step.state.last_in_sequence = omega (arith, next, few, le') in
      let longer : w.receiver.sink ++ block_payload sc.payload (suc last) rc.params.block_size
          ≡ step.state.sink =
        ap (λ x. x ++ block_payload sc.payload (suc last) rc.params.block_size) before
        ∙ blocks_upto-suc sc.payload last rc.params.block_size
        ∙ ap (λ n. blocks_upto sc.payload n rc.params.block_size) up
        ∙ sym after in
      subst (Transits (channel w)) (with_content_ap _ _ _ _ _ longer up)
        (hands_over (omega (arith, up, le)))

  -- In a transfer of fewer than 65536 blocks, of a block size that both ends use, without the two quirks that break the
  -- protocol: every step of the two loops that can be reached, whatever the network loses, repeats, delays or reorders
  -- and whatever others send, is a step of the channel: idle, the next block of the payload handed over, or blocks that are handed over confirmed to the sender.
  pub Move-Transition :
      (w w' : World)
      → Reach sc rc w
      → Move sc rc w w'
      → Transition sc.payload rc.params.block_size sc.total_blocks (channel w) (channel w')
  unfolding Confirms sender_on_reception receiver_on_reception
  Move-Transition w _ r (sender_receives _ reception runs from) =
      let (content, acked, le) =
        received_prefix sc rc tr _ (moved w _ r (sender_receives w reception runs from)) in
      confirms _
        (sender_on_received-Confirms sc w.sender (receive_from_locked_peer sc.peer reception)) acked
  Move-Transition w _ r (receiver_receives _ reception runs from) =
      let (before, acked, le') = received_prefix sc rc tr w r in
      let (after, acked', le) =
        received_prefix sc rc tr _ (moved w _ r (receiver_receives w reception runs from)) in
      receiver-Transits w (receiver_on_reception rc w.receiver reception)
        (receiver_on_received-Advances rc w.receiver.phase w.receiver
          (receive_from_locked_peer rc.peer reception) tr.sequential)
        before after le le'
