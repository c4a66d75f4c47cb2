-- ===== src/Engine/Transfer/Delivery.antt =====
-- What the two ends of a transfer (adapters/reference/tftp_reference_engine.cpp) can rely on.
use tftp_stress_test.Common.{
  ℕ, ◌-◌, ◌*◌, ◌^◌, ◌≤◌, ◌<◌, ◌≡◌, refl, sym, subst, ap, ◌∙◌, true, false, List, Option, none, some,
  arith, Bytes, length, All, All-append, All-imp, In, All-In, Bool-cases, inl, inr, ltb, ltb→lt,
}
use tftp_stress_test.Packet.{TftpPacket}
use tftp_stress_test.Engine.{Endpoint, Reception, TransferOutcome, Step}
use tftp_stress_test.Engine.Blocks.{total_block_count}
use tftp_stress_test.Engine.Blocks.Laws.{
  IsTotal, total_block_count-IsTotal, blocks_upto, blocks_upto-total,
}
use tftp_stress_test.Engine.Receive.Strays.{FromPeer}
use tftp_stress_test.Engine.Sender.{SenderCall, SenderState, blocks_to_send, sender_start}
use tftp_stress_test.Engine.Sender.Window.{IsBlock}
use tftp_stress_test.Engine.Sender.Honest as Sender
use tftp_stress_test.Engine.Receiver.Accept as Receiver
use tftp_stress_test.Engine.Sender.Honest.{IsFair, sender_head-IsGood, sender_on_reception-IsGood}
use tftp_stress_test.Engine.Receiver.{ReceiverCall, ReceiverState, receiver_start, receiver_primed}
use tftp_stress_test.Engine.Receiver.Accept.{CompletesAt, IsAckUpto, IsPrefix, waits-IsGood}
use tftp_stress_test.Engine.Receiver.Honest.{
  read_block, receiver_on_packet-IsGood, receiver_on_reception-IsGood,
}
use tftp_stress_test.Engine.Transfer.{
  World, after_sender, after_receiver, PrimedBy, sender_world, start_world, Move, sender_receives,
  receiver_receives, Reach, started, moved,
}

-- The two ends of one transfer: the block size is agreed, the payload has fewer than 65536 blocks, and the
-- two quirks that break the protocol are off.
pub record IsTransfer (sc : SenderCall) (rc : ReceiverCall) : Type 0 where
  pub same_block_size : rc.params.block_size ≡ sc.params.block_size
  pub counted : blocks_to_send sc.payload sc.params.block_size sc.config ≡ some sc.total_blocks
  pub few : length sc.payload < (2 ^ 16 - 1) * sc.params.block_size
  pub whole : sc.config.quirks.omit_terminating_empty_block ≡ false
  pub sequential : rc.config.quirks.accept_out_of_sequence_data ≡ false

mul_mono : (a b c : ℕ) → a ≤ b → a * c ≤ b * c
mul_mono a b c h = grind arith

-- Without the quirk every block is sent.
blocks_to_send_whole :
    (sc : SenderCall)
    → sc.config.quirks.omit_terminating_empty_block ≡ false
    → blocks_to_send sc.payload sc.params.block_size sc.config
      ≡ total_block_count (length sc.payload) sc.params.block_size
unfolding blocks_to_send total_block_count
blocks_to_send_whole sc h = ground (arith, h)

transfer-IsTotal :
    (sc : SenderCall) (rc : ReceiverCall)
    → IsTransfer sc rc
    → IsTotal sc.payload sc.params.block_size sc.total_blocks
transfer-IsTotal sc rc tr =
    total_block_count-IsTotal sc.payload sc.params.block_size sc.total_blocks
      (omega (arith, tr.few)) (sym (blocks_to_send_whole sc tr.whole) ∙ tr.counted)

few_blocks :
    (payload : Bytes) (block_size total : ℕ)
    → IsTotal payload block_size total
    → length payload < (2 ^ 16 - 1) * block_size
    → total < 2 ^ 16
few_blocks payload block_size total t h = elim (Bool-cases (ltb total (2 ^ 16))) [
  | inl e ↦ ltb→lt _ _ e
  | inr e ↦
      absurd
        (omega (arith, t.tight, h, mul_mono (2 ^ 16 - 1) (total - 1) block_size (ground arith)))
]

module _ (sc : SenderCall) (rc : ReceiverCall) where
  record Invariant (w : World) : Type 0 where
    fair : IsFair sc w.receiver.last_in_sequence w.sender
    prefix : IsPrefix rc sc.payload sc.total_blocks w.receiver
    blocks : All (IsBlock sc.payload rc.params.block_size sc.total_blocks) w.to_receiver
    acks : All (IsAckUpto w.receiver.last_in_sequence) w.to_sender
    sender_done : CompletesAt sc.total_blocks w.sender.last_acked w.sender_returned
    receiver_done : CompletesAt sc.total_blocks w.receiver.last_in_sequence w.receiver_returned

  ack_mono : (a b : ℕ) → a ≤ b → (bytes : Bytes) → IsAckUpto a bytes → IsAckUpto b bytes
  ack_mono a b le bytes (j, h, e) = (j, omega arith, e)

  -- What arrives from the network is as all that was sent to that end.
  arrives :
      (P : Bytes → Type 0) (sent : List Bytes) (reception : Reception)
      → (peer : Endpoint) → All P sent
      → FromPeer peer (λ bytes. In bytes sent) reception
      → FromPeer peer P reception
  arrives P sent reception peer h from =
      λ sender bytes source same. All-In P bytes sent h (from sender bytes source same)

  module _ (tr : IsTransfer sc rc) where
    receiver-IsTotal : IsTotal sc.payload rc.params.block_size sc.total_blocks
    receiver-IsTotal =
        subst (λ n. IsTotal sc.payload n sc.total_blocks) (sym tr.same_block_size)
          (transfer-IsTotal sc rc tr)

    pub fits : sc.total_blocks < 2 ^ 16
    fits =
        few_blocks sc.payload sc.params.block_size sc.total_blocks (transfer-IsTotal sc rc tr)
          tr.few

    sender_blocks :
        (sends : List Bytes)
        → All (IsBlock sc.payload sc.params.block_size sc.total_blocks) sends
        → All (IsBlock sc.payload rc.params.block_size sc.total_blocks) sends
    sender_blocks sends h =
        subst (λ n. All (IsBlock sc.payload n sc.total_blocks) sends) (sym tr.same_block_size) h

    -- The receiver's part of a step keeps the invariant.
    after_receiver-Invariant :
        (w : World) (step : Step ReceiverState)
        → Invariant w
        → Receiver.IsGood rc sc.payload sc.total_blocks w.receiver.last_in_sequence step
        → Invariant (after_receiver rc w step)
    after_receiver-Invariant w step v g = record {
      fair = record { window = v.fair.window; acked = omega (arith, v.fair.acked, g.grows) };
      prefix = g.prefix;
      blocks = v.blocks;
      acks =
          All-append _ w.to_sender _ (All-imp _ _ (ack_mono _ _ g.grows) w.to_sender v.acks) g.acks;
      sender_done = v.sender_done;
      receiver_done = g.completes;
    }

    after_sender-Invariant :
        (w : World) (step : Step SenderState)
        → Invariant w
        → Sender.IsGood sc w.receiver.last_in_sequence step
        → Invariant (after_sender sc w step)
    after_sender-Invariant w step v g = record {
      fair = g.fair;
      prefix = v.prefix;
      blocks = All-append _ w.to_receiver _ v.blocks (sender_blocks _ g.blocks);
      acks = v.acks;
      sender_done = g.completes;
      receiver_done = v.receiver_done;
    }

    Move-Invariant : (w w' : World) → Move sc rc w w' → Invariant w → Invariant w'
    Move-Invariant w _ (sender_receives _ reception runs from) v = after_sender-Invariant w _ v (
        sender_on_reception-IsGood sc fits w.receiver.last_in_sequence v.prefix.received w.sender
          reception v.fair (arrives _ w.to_sender reception sc.peer v.acks from))
    Move-Invariant w _ (receiver_receives _ reception runs from) v =
        after_receiver-Invariant w _ v (
          receiver_on_reception-IsGood rc sc.payload sc.total_blocks receiver-IsTotal fits
            tr.sequential w.receiver reception v.prefix
            (arrives _ w.to_receiver reception rc.peer v.blocks from))

    start-IsPrefix : IsPrefix rc sc.payload sc.total_blocks (receiver_start 1)
    start-IsPrefix = record {
      received = omega arith;
      content = let e : 0 * rc.params.block_size ≡ 0 = omega arith in rw e;
      done = tt;
    }

    sender_world-Invariant : Invariant (sender_world sc)
    sender_world-Invariant =
        let g =
          sender_head-IsGood sc 0 (sender_start 0)
            (record { window = omega arith; acked = omega arith }) in
        record {
          fair = g.fair;
          prefix = start-IsPrefix;
          blocks = sender_blocks _ g.blocks;
          acks = tt;
          sender_done = g.completes;
          receiver_done = tt;
        }

    start-Invariant :
        (primed : Option TftpPacket)
        → PrimedBy (sender_world sc).to_receiver primed
        → Invariant (start_world sc rc primed)
    unfolding receiver_primed
    start-Invariant none p = after_receiver-Invariant (sender_world sc) _ sender_world-Invariant (
        waits-IsGood rc sc.payload sc.total_blocks 0 (receiver_start 1) (omega arith)
          start-IsPrefix)
    start-Invariant (some packet) (bytes, sent, parsed) =
        let (k, h, written) = All-In _ bytes _ sender_world-Invariant.blocks sent in
        after_receiver-Invariant (sender_world sc) _ sender_world-Invariant (
          receiver_on_packet-IsGood rc sc.payload sc.total_blocks receiver-IsTotal fits
            tr.sequential (receiver_start 1) packet refl start-IsPrefix
            (k, h, read_block sc.payload bytes rc.params.block_size k packet written parsed))

    Reach-Invariant : (w : World) → Reach sc rc w → Invariant w
    Reach-Invariant _ (started primed p) = start-Invariant primed p
    Reach-Invariant _ (moved w w' r m) = Move-Invariant w w' m (Reach-Invariant w r)

    whole_payload :
        (w : World)
        → Invariant w
        → w.receiver.last_in_sequence ≡ sc.total_blocks
        → w.receiver.sink ≡ sc.payload
    whole_payload w v e =
        v.prefix.content
        ∙ ap (λ n. blocks_upto sc.payload n rc.params.block_size) e
        ∙ blocks_upto-total sc.payload rc.params.block_size sc.total_blocks receiver-IsTotal

    completes_at :
        (total last : ℕ) (returned : Option TransferOutcome) (outcome : TransferOutcome)
        → CompletesAt total last returned
        → returned ≡ some outcome
        → outcome.completed_successfully ≡ true
        → last ≡ total
    completes_at total last returned outcome h e done = (subst (CompletesAt total last) e h) done

    -- In a transfer of fewer than 65536 blocks, of a block size that both ends use, without the two quirks
    -- that break the protocol, and whatever the network loses, repeats, delays or reorders of the
    -- datagrams of the two ends and whatever others send: when the receiver reports success, its content is the payload of the sender,
    -- byte for byte.
    pub receiver_success_delivers :
        (w : World) (outcome : TransferOutcome)
        → Reach sc rc w
        → w.receiver_returned ≡ some outcome
        → outcome.completed_successfully ≡ true
        → w.receiver.sink ≡ sc.payload
    receiver_success_delivers w outcome r e done =
        let v = Reach-Invariant w r in
        whole_payload w v (completes_at _ _ _ outcome v.receiver_done e done)

    -- In a transfer of fewer than 65536 blocks, of a block size that both ends use, without the two quirks
    -- that break the protocol, and whatever the network loses, repeats, delays or reorders of the
    -- datagrams of the two ends and whatever others send: when the sender reports success, the receiver has the whole payload already.
    pub sender_success_delivers :
        (w : World) (outcome : TransferOutcome)
        → Reach sc rc w
        → w.sender_returned ≡ some outcome
        → outcome.completed_successfully ≡ true
        → w.receiver.sink ≡ sc.payload
    sender_success_delivers w outcome r e done =
        let v = Reach-Invariant w r in
        let acked = completes_at _ _ _ outcome v.sender_done e done in
        whole_payload w v (omega (arith, acked, v.fair.acked, v.prefix.received))

    -- In a transfer of fewer than 65536 blocks, of a block size that both ends use, without the two quirks
    -- that break the protocol, and whatever the network loses, repeats, delays or reorders of the
    -- datagrams of the two ends and whatever others send: at any moment the receiver's content is the first blocks of the payload, and
    -- the sender takes no block for acknowledged that the receiver does not have.
    pub received_prefix :
        (w : World)
        → Reach sc rc w
        → (w.receiver.sink
            ≡ blocks_upto sc.payload w.receiver.last_in_sequence rc.params.block_size)
          × (w.sender.last_acked ≤ w.receiver.last_in_sequence)
          × (w.receiver.last_in_sequence ≤ sc.total_blocks)
    received_prefix w r =
        let v = Reach-Invariant w r in (v.prefix.content, v.fair.acked, v.prefix.received)
