-- ===== src/Engine/Receiver/Completes.antt =====
-- `run_data_receiver` (adapters/reference/tftp_reference_engine.cpp) when the blocks come one after another.
use tftp_stress_test.Common.{
  ℕ, zero, suc, ◌+◌, ◌*◌, ◌%◌, ◌^◌, ◌<◌, ◌≡◌, refl, sym, subst, ap, ◌∙◌, true, false, List, [], ◌∷◌,
  ◌++◌, none, some, arith, Bytes, ltb, leb, ◌==◌, if◌then◌else◌, inc32, length, Bool-cases, inl,
  inr,
}
use tftp_stress_test.Packet.Serialize.{serialize_data, append_u16}
use tftp_stress_test.Packet.RoundTrip.{parse-serialize_data}
use tftp_stress_test.Engine.{
  Endpoint, endpoint_eq, Reception, no_datagram, datagram_from, TransferOutcome, Step, run_steps,
}
use tftp_stress_test.Engine.Blocks.{wire_block_number, block_payload}
use tftp_stress_test.Engine.Blocks.Laws.{
  IsTotal, blocks_upto, blocks_upto-suc, blocks_upto-total, short_block_iff,
}
use tftp_stress_test.Engine.Resolve.Laws.{resolve_data_to_absolute-wire_block_number}
use tftp_stress_test.Engine.Receive.{got_packet, parsed_packet, receive_from_locked_peer}
use tftp_stress_test.Engine.Receiver.{
  Phase, receiving, dallying, ReceiverCall, ReceiverState, receive_window, on_block_in_sequence,
  on_data, receiver_on_packet, receiver_completes, receiver_on_received, receiver_on_reception,
  receiver_start, receiver_primed, run_data_receiver,
}
use tftp_stress_test.Engine.Receiver.Honest.{block_packet}

-- `count` blocks of the payload behind `last`, from the peer, and then silence.
abbrev pub blocks_behind : Endpoint → Bytes → ℕ → ℕ → ℕ → List Reception
blocks_behind peer payload block_size last zero = no_datagram ∷ []
blocks_behind peer payload block_size last (suc count) =
    datagram_from peer
      (serialize_data (wire_block_number (suc last)) (block_payload payload (suc last) block_size))
    ∷ blocks_behind peer payload block_size (suc last) count

-- The call has reported success, and its content is the payload.
abbrev pub Receives : Bytes → Step ReceiverState → Type 0
Receives payload step =
    (outcome : TransferOutcome) × (step.returned ≡ some outcome)
    × (outcome.completed_successfully ≡ true)
    × (step.state.sink ≡ payload)

received_block :
    (peer : Endpoint) (payload : Bytes) (block_size k : ℕ)
    → endpoint_eq peer peer ≡ true
    → receive_from_locked_peer peer (
        datagram_from peer
          (serialize_data (wire_block_number (suc k)) (block_payload payload (suc k) block_size)))
      ≡ got_packet (block_packet payload block_size k)
unfolding receive_from_locked_peer serialize_data append_u16 wire_block_number
received_block peer payload block_size k bound = rw bound (
    ap parsed_packet (
      parse-serialize_data (suc k % 2 ^ 16) (block_payload payload (suc k) block_size)
        (omega arith)))

module _ (c : ReceiverCall) (payload : Bytes) (total : ℕ)
    (t : IsTotal payload c.params.block_size total) (bound : endpoint_eq c.peer c.peer ≡ true)
    (few : total < 2 ^ 16) (narrow : c.params.window_size < 2 ^ 16) where
  abbrev phase_at : ℕ → Phase
  phase_at last = if last == total then dallying 0 else receiving

  -- The blocks up to `last` are there, and the call goes on.
  record HasBlocks (last : ℕ) (step : Step ReceiverState) : Type 0 where
    running : step.returned ≡ none
    placed : step.state.last_in_sequence ≡ last
    content : step.state.sink ≡ blocks_upto payload last c.params.block_size
    phase : step.state.phase ≡ phase_at last

  on_block_in_sequence-HasBlocks :
      (s : ReceiverState) (k : ℕ)
      → k < total
      → s.last_in_sequence ≡ k
      → s.sink ≡ blocks_upto payload k c.params.block_size
      → s.phase ≡ receiving
      → HasBlocks
          (suc k)
          (on_block_in_sequence c s (block_payload payload (suc k) c.params.block_size))
  unfolding on_block_in_sequence
  on_block_in_sequence-HasBlocks s k more placed content phase =
      let next : inc32 s.last_in_sequence ≡ suc k = omega (arith, placed, more, few) in
      let longer : s.sink ++ block_payload payload (suc k) c.params.block_size
          ≡ blocks_upto payload (suc k) c.params.block_size =
        ap (λ x. x ++ block_payload payload (suc k) c.params.block_size) content
        ∙ blocks_upto-suc payload k c.params.block_size in
      let last_iff = short_block_iff payload c.params.block_size total k t more in
      elim (Bool-cases
        (ltb (length (block_payload payload (suc k) c.params.block_size)) c.params.block_size)) [
          | inl short ↦
              let whole : (suc k == total) ≡ true = ground (arith, last_iff, short) in
              rw short
                (record { running = refl; placed = next; content = longer; phase = rw whole refl })
          | inr long ↦
              let part : (suc k == total) ≡ false = ground (arith, last_iff, long) in
              elim (Bool-cases (leb (receive_window c) (inc32 s.blocks_since_ack))) [
                | inl full ↦
                    rw (long, full)
                      (record {
                        running = refl;
                        placed = next;
                        content = longer;
                        phase = rw part phase;
                      })
                | inr waiting ↦
                    rw (long, waiting)
                      (record {
                        running = refl;
                        placed = next;
                        content = longer;
                        phase = rw part phase;
                      })
              ]
        ]

  received_next :
      (s : ReceiverState) (k : ℕ)
      → k < total
      → s.last_in_sequence ≡ k
      → s.phase ≡ receiving
      → receiver_on_reception c s (
          datagram_from c.peer (
            serialize_data
              (wire_block_number (suc k))
              (block_payload payload (suc k) c.params.block_size)))
        ≡ on_block_in_sequence c
            (record s { consecutive_timeouts = 0 })
            (block_payload payload (suc k) c.params.block_size)
  unfolding receiver_on_reception receiver_on_received receiver_on_packet on_data receive_window
  received_next s k more placed phase =
      let reads = received_block c.peer payload c.params.block_size k bound in
      let resolved =
        resolve_data_to_absolute-wire_block_number s.last_in_sequence (receive_window c) (suc k)
          (omega (arith, placed)) (omega (arith, placed)) (omega (arith, narrow))
          (omega (arith, more, few)) in
      let due : (suc k == inc32 s.last_in_sequence) ≡ true = ground (arith, placed, more, few) in
      rw (reads, phase, resolved, due) refl

  -- Silence ends the dally.
  silence :
      (s : ReceiverState)
      → s.phase ≡ dallying 0
      → s.sink ≡ payload
      → Receives payload (receiver_on_reception c s no_datagram)
  unfolding receiver_on_reception receiver_on_received receive_from_locked_peer receiver_completes
  silence s phase content = rw phase (_, refl, refl, content)

  Continues : ℕ → ℕ → Step ReceiverState → Type 0
  Continues last count step = Receives payload (
      run_steps (receiver_on_reception c) step
        (blocks_behind c.peer payload c.params.block_size last count))

  resumed :
      (last count : ℕ) (step : Step ReceiverState)
      → HasBlocks last step
      → Continues last count (record step { returned = none })
      → Continues last count step
  resumed last count step has h =
      subst (λ r. Continues last count (record step { returned = r })) (sym has.running) h

  received_on :
      (count last : ℕ) (step : Step ReceiverState)
      → last + count ≡ total
      → HasBlocks last step
      → Continues last count step
  unfolding run_steps Continues
  received_on zero last step all has =
      let done : last ≡ total = omega (arith, all) in
      let at_end : (last == total) ≡ true = ground (arith, done) in
      let phase : step.state.phase ≡ dallying 0 = has.phase ∙ rw at_end refl in
      let content : step.state.sink ≡ payload =
        has.content
        ∙ ap (λ n. blocks_upto payload n c.params.block_size) done
        ∙ blocks_upto-total payload c.params.block_size total t in
      resumed last zero step has (silence step.state phase content)
  received_on (suc count) last step all has =
      let s = step.state in
      let more : last < total = omega (arith, all) in
      let before_end : (last == total) ≡ false = ground (arith, more) in
      let phase : s.phase ≡ receiving = has.phase ∙ rw before_end refl in
      let block = block_payload payload (suc last) c.params.block_size in
      let next = on_block_in_sequence c (record s { consecutive_timeouts = 0 }) block in
      let now =
        on_block_in_sequence-HasBlocks (record s { consecutive_timeouts = 0 }) last more has.placed
          has.content phase in
      let rest =
        received_on count (suc last) (record next { sends = step.sends ++ next.sends })
          (omega (arith, all))
          (record {
            running = now.running;
            placed = now.placed;
            content = now.content;
            phase = now.phase;
          }) in
      resumed last (suc count) step has (
        subst
          (λ (n : Step ReceiverState).
            Continues (suc last) count (record n { sends = step.sends ++ n.sends }))
          (sym (received_next s last more has.placed phase)) rest)

  -- When the blocks of a payload of fewer than 65536 blocks come from a bound peer one after another, and then nothing,
  -- within a window of 16 bits, `run_data_receiver` reports success, and its content is the payload.
  pub run_data_receiver_completes :
      Receives payload
        (run_data_receiver c 1 none (blocks_behind c.peer payload c.params.block_size 0 total))
  unfolding run_data_receiver receiver_primed Continues
  run_data_receiver_completes =
      let nothing : 0 * c.params.block_size ≡ 0 = omega arith in
      let start_at_end : (0 == total) ≡ false = ground (arith, t.positive) in
      received_on total 0 (record { sends = []; state = receiver_start 1; returned = none })
        (omega arith)
        (record {
          running = refl;
          placed = refl;
          content = rw nothing refl;
          phase = rw start_at_end refl;
        })
