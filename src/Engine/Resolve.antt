-- ===== src/Engine/Resolve.antt =====
-- adapters/reference/tftp_reference_engine.cpp: from 16-bit block numbers to absolute block indices.
pub mod Laws
use tftp_stress_test.Common.{
  ℕ, zero, suc, ◌+◌, ◌-◌, ◌%◌, ◌^◌, min, max, true, false, Option, none, some, ◌==◌,
}
use tftp_stress_test.Engine.Blocks.{wire_block_number}

-- The loop from `highest_sent` down to `last_acked + 1`; `count` candidates are left, the next of them is
-- `last_acked + count`.
unfoldable pub resolve_ack_loop : ℕ → ℕ → ℕ → ℕ
resolve_ack_loop wire_ack last_acked zero = last_acked
resolve_ack_loop wire_ack last_acked (suc count) =
    elim (wire_block_number (last_acked + suc count) == wire_ack) [
      | true ↦ last_acked + suc count
      | false ↦ resolve_ack_loop wire_ack last_acked count
    ]

unfoldable pub resolve_ack_to_absolute : ℕ → ℕ → ℕ → ℕ
resolve_ack_to_absolute wire_ack last_acked highest_sent =
    resolve_ack_loop wire_ack last_acked (highest_sent - last_acked)

-- The first loop of `resolve_data_to_absolute`, with the rounds that it has left.
unfoldable pub search_forward : ℕ → ℕ → ℕ → ℕ → Option ℕ
search_forward wire_block last_in_sequence zero offset = none
search_forward wire_block last_in_sequence (suc rounds) offset =
    elim (wire_block_number ((last_in_sequence + offset) % 2 ^ 32) == wire_block) [
      | true ↦ some ((last_in_sequence + offset) % 2 ^ 32)
      | false ↦ search_forward wire_block last_in_sequence rounds (offset + 1)
    ]

-- Its second loop; `offset` stays at most `last_in_sequence`.
unfoldable pub search_backward : ℕ → ℕ → ℕ → ℕ → Option ℕ
search_backward wire_block last_in_sequence zero offset = none
search_backward wire_block last_in_sequence (suc rounds) offset =
    elim (wire_block_number (last_in_sequence - offset) == wire_block) [
      | true ↦ some (last_in_sequence - offset)
      | false ↦ search_backward wire_block last_in_sequence rounds (offset + 1)
    ]

-- `0` when the block cannot be placed.
unfoldable pub resolve_data_to_absolute : ℕ → ℕ → ℕ → ℕ
resolve_data_to_absolute wire_block last_in_sequence window =
    let forward_span = max window 1 in
    let backward_span = min last_in_sequence forward_span in
    elim (search_forward wire_block last_in_sequence forward_span 1) [
      | some candidate ↦ candidate
      | none ↦ elim (search_backward wire_block last_in_sequence (backward_span + 1) 0) [
        | some candidate ↦ candidate
        | none ↦ 0
      ]
    ]
