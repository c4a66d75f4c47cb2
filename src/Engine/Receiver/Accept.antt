-- ===== src/Engine/Receiver/Accept.antt =====
-- What `run_data_receiver` (adapters/reference/tftp_reference_engine.cpp) accepts from an honest sender.
use tftp_stress_test.Common.{
  ℕ, suc, ◌%◌, ◌^◌, ◌≤◌, ◌<◌, ◌≡◌, refl, ap, sym, subst, not, ◌&&◌, ==_iff, inl, inr, true, false,
  [], ◌∷◌, ◌++◌, Option, none, some, arith, Bytes, ltb, ltb→lt, leb, ◌==◌, Bool-cases, inc32,
  length, All,
}
use tftp_stress_test.Packet.Serialize.{serialize_acknowledgement}
use tftp_stress_test.Engine.{endpoint_eq, TransferOutcome, Step}
use tftp_stress_test.Engine.Blocks.{wire_block_number, block_payload}
use tftp_stress_test.Engine.Blocks.Laws.{IsTotal, blocks_upto, blocks_upto-suc, short_block_iff}
use tftp_stress_test.Engine.Resolve.{resolve_data_to_absolute}
use tftp_stress_test.Engine.Resolve.Laws.{resolve_data_to_absolute_cases}
use tftp_stress_test.Engine.Receive.Strays.{delivered}
use tftp_stress_test.Engine.Receiver.{
  Phase, receiving, dallying, ReceiverCall, ReceiverState, receive_window, acknowledge, waits,
  acknowledges, on_block_in_sequence, on_block_out_of_sequence, on_data,
}

-- A dally has seen the last block.
abbrev pub IsDone : ℕ → ℕ → Phase → Type 0
IsDone total last receiving = Unit {0}
IsDone total last (dallying rounds) = last ≡ total

abbrev pub CompletesAt : ℕ → ℕ → Option TransferOutcome → Type 0
CompletesAt total last none = Unit {0}
CompletesAt total last (some outcome) = outcome.completed_successfully ≡ true → last ≡ total

-- An ACK of a block up to `last`.
abbrev pub IsAckUpto : ℕ → Bytes → Type 0
IsAckUpto last bytes =
    (j : ℕ) × (j ≤ last) × (bytes ≡ serialize_acknowledgement (wire_block_number j))

module _ (c : ReceiverCall) (payload : Bytes) (total : ℕ) where
  -- The receiver holds a whole number of blocks from the start of the payload.
  pub record IsPrefix (s : ReceiverState) : Type 0 where
    pub received : s.last_in_sequence ≤ total
    pub content : s.sink ≡ blocks_upto payload s.last_in_sequence c.params.block_size
    pub done : IsDone total s.last_in_sequence s.phase

  pub record IsGood (last : ℕ) (step : Step ReceiverState) : Type 0 where
    pub prefix : IsPrefix step.state
    pub grows : last ≤ step.state.last_in_sequence
    pub acks : All (IsAckUpto step.state.last_in_sequence) (delivered c.peer step.sends)
    pub completes : CompletesAt total step.state.last_in_sequence step.returned

  pub acknowledge-IsAckUpto :
      (s : ReceiverState)
      → All (IsAckUpto s.last_in_sequence) (delivered c.peer (acknowledge c s ∷ []))
  unfolding delivered acknowledge
  acknowledge-IsAckUpto s = elim (Bool-cases (endpoint_eq c.peer c.peer)) [
    | inl e ↦ rw e ((s.last_in_sequence, omega arith, refl), tt)
    | inr e ↦ rw e tt
  ]

  pub acknowledges-IsGood :
      (last : ℕ) (s : ReceiverState)
      → last ≤ s.last_in_sequence
      → IsPrefix s
      → IsGood last (acknowledges c s)
  acknowledges-IsGood last s grows p = record {
    prefix = p;
    grows = grows;
    acks = acknowledge-IsAckUpto s;
    completes = tt;
  }

  pub waits-IsGood :
      (last : ℕ) (s : ReceiverState)
      → last ≤ s.last_in_sequence
      → IsPrefix s
      → IsGood last (waits s [])
  unfolding delivered
  waits-IsGood last s grows p = record { prefix = p; grows = grows; acks = tt; completes = tt }

  module _ (t : IsTotal payload c.params.block_size total) (few : total < 2 ^ 16) where
    next_block :
        (s : ReceiverState)
        → s.last_in_sequence < total
        → IsPrefix s
        → s.sink ++ block_payload payload (suc s.last_in_sequence) c.params.block_size
          ≡ blocks_upto payload (suc s.last_in_sequence) c.params.block_size
    next_block s h p = rw p.content (blocks_upto-suc payload s.last_in_sequence c.params.block_size)

    on_block_in_sequence-IsGood :
        (s : ReceiverState) (contents : Bytes)
        → s.last_in_sequence < total
        → IsPrefix s
        → contents ≡ block_payload payload (suc s.last_in_sequence) c.params.block_size
        → s.phase ≡ receiving
        → IsGood s.last_in_sequence (on_block_in_sequence c s contents)
    unfolding on_block_in_sequence
    on_block_in_sequence-IsGood s contents h p e phase =
        let next : inc32 s.last_in_sequence ≡ suc s.last_in_sequence = omega arith in
        elim (Bool-cases (ltb (length contents) c.params.block_size)) [
          | inl short ↦
              rw (short, next)
                (acknowledges-IsGood _ _ (omega arith) (record {
                  received = omega arith;
                  content = rw e (next_block s h p);
                  done =
                      (short_block_iff payload c.params.block_size total s.last_in_sequence t h).0
                        (subst (λ b. length b < c.params.block_size) e (ltb→lt _ _ short));
                }))
          | inr long ↦ elim (Bool-cases (leb (receive_window c) (inc32 s.blocks_since_ack))) [
            | inl full ↦
                rw (long, full, next)
                  (acknowledges-IsGood _ _ (omega arith) (record {
                    received = omega arith;
                    content = rw e (next_block s h p);
                    done = rw phase tt;
                  }))
            | inr part ↦
                rw (long, part, next)
                  (waits-IsGood _ _ (omega arith) (record {
                    received = omega arith;
                    content = rw e (next_block s h p);
                    done = rw phase tt;
                  }))
          ]
        ]

    -- The index at which a block of the payload is placed, if it is the next one.
    due :
        (last k : ℕ)
        → k < total
        → last ≤ total
        → resolve_data_to_absolute (wire_block_number (suc k)) last (receive_window c) ≡ inc32 last
        → last ≡ k
    unfolding wire_block_number
    due last k h le e =
        omega (arith, few, resolve_data_to_absolute_cases (suc k % 2 ^ 16) last (receive_window c))

    -- Without the quirk a block behind a gap only draws the ACK of the last block in sequence.
    out_of_sequence_rejected :
        (s : ReceiverState) (a : ℕ) (contents : Bytes)
        → c.config.quirks.accept_out_of_sequence_data ≡ false
        → on_block_out_of_sequence c s a contents
          ≡ acknowledges c (record s { blocks_since_ack = 0 })
    unfolding on_block_out_of_sequence
    out_of_sequence_rejected s a contents quirk = simp quirk

    pub on_data-IsGood :
        (s : ReceiverState) (k : ℕ)
        → k < total
        → IsPrefix s
        → s.phase ≡ receiving
        → c.config.quirks.accept_out_of_sequence_data ≡ false
        → IsGood s.last_in_sequence (
            on_data c s
              (wire_block_number (suc k))
              (block_payload payload (suc k) c.params.block_size))
    unfolding on_data
    on_data-IsGood s k h p phase quirk =
        let a =
          resolve_data_to_absolute (wire_block_number (suc k)) s.last_in_sequence
            (receive_window c) in
        let q : IsPrefix (record s { blocks_since_ack = 0 }) = record {
          received = p.received;
          content = p.content;
          done = p.done;
        } in
        elim (Bool-cases (a == inc32 s.last_in_sequence)) [
          | inl e ↦
              let at : s.last_in_sequence ≡ k = due _ _ h p.received ((==_iff _ _).0 e) in
              rw e (
                on_block_in_sequence-IsGood s _ (omega arith) p
                  (ap (λ (n : ℕ). block_payload payload (suc n) c.params.block_size) (sym at))
                  phase)
          | inr e ↦ elim (Bool-cases (not (a == 0) && leb a s.last_in_sequence)) [
            | inl f ↦ rw (e, f) (acknowledges-IsGood _ _ (omega arith) q)
            | inr f ↦
                rw (e, f, out_of_sequence_rejected s a _ quirk)
                  (acknowledges-IsGood _ _ (omega arith) q)
          ]
        ]
