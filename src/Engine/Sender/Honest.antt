-- ===== src/Engine/Sender/Honest.antt =====
-- `run_data_sender` (adapters/reference/tftp_reference_engine.cpp) from one receive to the next, when what
-- comes from the locked peer are ACKs of blocks that it has.
use tftp_stress_test.Common.{
  ℕ, suc, ◌+◌, ◌%◌, ◌^◌, ◌≤◌, ◌<◌, ◌≡◌, refl, sym, ap, ◌∙◌, false, List, arith, Bytes, ltb,
  Bool-cases, inl, inr, All, All-imp,
}
use tftp_stress_test.Packet.{TftpPacket, empty_packet, acknowledgement}
use tftp_stress_test.Packet.Parse.{success, parse_tftp_packet}
use tftp_stress_test.Packet.Serialize.{serialize_acknowledgement}
use tftp_stress_test.Packet.RoundTrip.{parse-serialize_acknowledgement}
use tftp_stress_test.Engine.{Endpoint, Datagram, Reception, TransferOutcome, Step}
use tftp_stress_test.Engine.Blocks.{wire_block_number}
use tftp_stress_test.Engine.Resolve.Laws.{resolve_ack_to_absolute_bounds}
use tftp_stress_test.Engine.Receive.{
  Received, got_packet, timed_out, socket_error, keep_waiting, receive_from_locked_peer,
}
use tftp_stress_test.Engine.Receive.Strays.{
  delivered, delivered-All, FromPeer, SparesPeer, receive_from_locked_peer-SparesPeer,
  receive_from_locked_peer_source,
}
use tftp_stress_test.Engine.Receiver.Accept.{CompletesAt, IsAckUpto}
use tftp_stress_test.Engine.Sender.{
  Action, send_new, rollback, wait_only, SenderCall, SenderState, transmit_as, transmit,
  sender_head, sender_returns, sender_outcome, sender_on_timeout, sender_after_ack,
  sender_on_packet, sender_on_received, sender_on_reception,
}
use tftp_stress_test.Engine.Sender.Window.{
  InWindow, IsBlock, SendsBlock, data_blocks-SendsBlock, transmit_as-InWindow,
  sender_after_ack-InWindow,
}

success_injective : (p q : TftpPacket) → success p ≡ success q → p ≡ q
success_injective p q h = cc

abbrev ack_packet : ℕ → TftpPacket
ack_packet j = record empty_packet { opcode = acknowledgement; block_number = wire_block_number j }

-- A packet that reaches the loop is an ACK of a block up to `known`.
abbrev IsAckPacket : ℕ → Received → Type 0
IsAckPacket known (got_packet packet) = (j : ℕ) × (j ≤ known) × (packet ≡ ack_packet j)
IsAckPacket known _ = Unit {0}

read_ack :
    (bytes : Bytes) (j : ℕ) (packet : TftpPacket)
    → bytes ≡ serialize_acknowledgement (wire_block_number j)
    → parse_tftp_packet bytes ≡ success packet
    → packet ≡ ack_packet j
unfolding wire_block_number
read_ack bytes j packet written parsed =
    let sent = parse-serialize_acknowledgement (j % 2 ^ 16) (omega arith) in
    success_injective _ _ (sym parsed ∙ ap parse_tftp_packet written ∙ sent)

received_ack :
    (peer : Endpoint) (known : ℕ) (reception : Reception) (r : Received)
    → receive_from_locked_peer peer reception ≡ r
    → FromPeer peer (IsAckUpto known) reception
    → IsAckPacket known r
received_ack peer known reception timed_out e honest = tt
received_ack peer known reception socket_error e honest = tt
received_ack peer known reception (keep_waiting replies) e honest = tt
received_ack peer known reception (got_packet packet) e honest =
    let (sender, bytes, source, same, parsed) =
      receive_from_locked_peer_source peer reception packet e in
    let (j, h, written) = honest sender bytes source same in
    (j, h, read_ack bytes j packet written parsed)

module _ (c : SenderCall) where
  pub record IsFair (known : ℕ) (s : SenderState) : Type 0 where
    pub window : InWindow c s
    pub acked : s.last_acked ≤ known

  pub record IsGood (known : ℕ) (step : Step SenderState) : Type 0 where
    pub fair : IsFair known step.state
    pub blocks :
        All (IsBlock c.payload c.params.block_size c.total_blocks) (delivered c.peer step.sends)
    pub completes : CompletesAt c.total_blocks step.state.last_acked step.returned

  blocks-delivered :
      (ds : List Datagram)
      → All (SendsBlock c) ds
      → All (IsBlock c.payload c.params.block_size c.total_blocks) (delivered c.peer ds)
  blocks-delivered ds h = delivered-All c.peer _ ds (All-imp (SendsBlock c) _ (λ d p. p.1) ds h)

  transmit_as-SendsBlock :
      (a : Action) (s : SenderState) → InWindow c s → All (SendsBlock c) (transmit_as a c s).1
  transmit_as-SendsBlock send_new s v =
      let e : s.highest_sent + 1 ≡ suc s.highest_sent = omega arith in
      rw e (data_blocks-SendsBlock c _ s.highest_sent (omega arith))
  transmit_as-SendsBlock rollback s v =
      let e : s.last_acked + 1 ≡ suc s.last_acked = omega arith in
      rw e (data_blocks-SendsBlock c _ s.last_acked (omega arith))
  transmit_as-SendsBlock wait_only s v = tt

  transmit_as-last_acked :
      (a : Action) (s : SenderState) → (transmit_as a c s).0.last_acked ≡ s.last_acked
  transmit_as-last_acked send_new s = refl
  transmit_as-last_acked rollback s = refl
  transmit_as-last_acked wait_only s = refl

  pub sender_head-IsGood :
      (known : ℕ) (s : SenderState) → IsFair known s → IsGood known (sender_head c s)
  unfolding sender_head transmit delivered
  sender_head-IsGood known s f = elim (Bool-cases (ltb s.last_acked c.total_blocks)) [
    | inl e ↦ rw e (record {
      fair = record {
        window = transmit_as-InWindow s.action c s f.window;
        acked = rw (transmit_as-last_acked s.action s) f.acked;
      };
      blocks = blocks-delivered _ (transmit_as-SendsBlock s.action s f.window);
      completes = tt;
    })
    | inr e ↦ rw e (record { fair = f; blocks = tt; completes = λ _. ground arith })
  ]

  retried :
      (known : ℕ) (s : SenderState) (a : Action)
      → IsFair known s
      → IsFair known (record s { consecutive_timeouts = s.consecutive_timeouts + 1; action = a })
  retried known s a f = record {
    window = record {
      in_order = f.window.in_order;
      in_payload = f.window.in_payload;
      in_window = f.window.in_window;
    };
    acked = f.acked;
  }

  module _ (few : c.total_blocks < 2 ^ 16) (known : ℕ) (in_payload : known ≤ c.total_blocks) where
    sender_after_ack-IsFair :
        (s : SenderState) (j : ℕ)
        → j ≤ known
        → IsFair known s
        → IsFair known (sender_after_ack c s (wire_block_number j))
    unfolding sender_after_ack wire_block_number
    sender_after_ack-IsFair s j h f = record {
      window = sender_after_ack-InWindow c s (j % 2 ^ 16) f.window;
      acked = ground (
        arith,
        f.window.in_order,
        f.window.in_payload,
        f.acked,
        resolve_ack_to_absolute_bounds (j % 2 ^ 16) s.last_acked s.highest_sent,
      );
    }

    sender_on_packet-IsGood :
        (s : SenderState) (packet : TftpPacket)
        → IsFair known s
        → IsAckPacket known (got_packet packet)
        → IsGood known (sender_on_packet c s packet)
    unfolding sender_on_packet
    sender_on_packet-IsGood s packet f (j, h, e) =
        rw e (sender_head-IsGood known _ (sender_after_ack-IsFair s j h f))

    sender_returns-IsGood :
        (s : SenderState) (outcome : TransferOutcome)
        → IsFair known s
        → outcome.completed_successfully ≡ false
        → IsGood known (sender_returns c s outcome)
    unfolding delivered
    sender_returns-IsGood s outcome f e = record { fair = f; blocks = tt; completes = cc }

    sender_on_timeout-IsGood :
        (s : SenderState) → IsFair known s → IsGood known (sender_on_timeout c s)
    unfolding sender_on_timeout sender_outcome
    sender_on_timeout-IsGood s f =
        elim (Bool-cases (ltb c.config.maximum_retransmissions (s.consecutive_timeouts + 1))) [
          | inl e ↦ rw e (sender_returns-IsGood _ _ (retried known s s.action f) refl)
          | inr e ↦ rw e (sender_head-IsGood known _ (retried known s rollback f))
        ]

    sender_on_received-IsGood :
        (s : SenderState) (r : Received)
        → IsFair known s
        → IsAckPacket known r
        → SparesPeer c.peer r
        → IsGood known (sender_on_received c s r)
    unfolding sender_on_received sender_outcome
    sender_on_received-IsGood s (got_packet packet) f a spared =
        sender_on_packet-IsGood s packet f a
    sender_on_received-IsGood s timed_out f a spared = sender_on_timeout-IsGood s f
    sender_on_received-IsGood s socket_error f a spared = sender_returns-IsGood s _ f refl
    sender_on_received-IsGood s (keep_waiting replies) f a spared = record {
      fair = f;
      blocks = rw spared tt;
      completes = tt;
    }

    -- If the sender's window is in order, it has no block acknowledged that the receiver does not have,
    -- there are fewer than 65536 blocks, and what comes from the locked peer are ACKs of blocks up to
    -- `known`, which is at most the number of blocks: then up to the next receive it sends to the peer
    -- only blocks of the payload, completes only with all of them acknowledged, and its window and its
    -- acknowledged blocks stay so.
    pub sender_on_reception-IsGood :
        (s : SenderState) (reception : Reception)
        → IsFair known s
        → FromPeer c.peer (IsAckUpto known) reception
        → IsGood known (sender_on_reception c s reception)
    unfolding sender_on_reception
    sender_on_reception-IsGood s reception f honest =
        sender_on_received-IsGood s _ f (received_ack c.peer known reception _ refl honest)
          (receive_from_locked_peer-SparesPeer c.peer reception)
