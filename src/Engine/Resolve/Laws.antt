-- ===== src/Engine/Resolve/Laws.antt =====
-- What the two searches of adapters/reference/tftp_reference_engine.cpp find.
use tftp_stress_test.Common.{
  ℕ, zero, suc, ◌+◌, ◌-◌, ◌%◌, ◌^◌, ◌≤◌, ◌<◌, min, max, ◌≡◌, refl, ◌⊎◌, inl, inr, some, arith,
  Option-cases,
}
use tftp_stress_test.Engine.Blocks.{wire_block_number}
use tftp_stress_test.Engine.Resolve.{
  resolve_ack_loop, resolve_ack_to_absolute, search_forward, search_backward,
  resolve_data_to_absolute,
}

-- The result is either the last acknowledged block, or a block in flight with the number of the ACK.
resolve_ack_loop_cases :
    (wire_ack last_acked count : ℕ)
    → (resolve_ack_loop wire_ack last_acked count ≡ last_acked)
      ⊎ ((last_acked < resolve_ack_loop wire_ack last_acked count)
          × (resolve_ack_loop wire_ack last_acked count ≤ last_acked + count)
          × (resolve_ack_loop wire_ack last_acked count % 2 ^ 16 ≡ wire_ack))
unfolding resolve_ack_loop wire_block_number
resolve_ack_loop_cases wire_ack last_acked zero = inl refl
resolve_ack_loop_cases wire_ack last_acked (suc count) =
    ground (arith, resolve_ack_loop_cases wire_ack last_acked count)

-- The resolved ACK never goes back, never passes what has been sent, and where it advances it has the
-- number of the ACK.
pub resolve_ack_to_absolute_bounds :
    (wire_ack last_acked highest_sent : ℕ)
    → last_acked ≤ highest_sent
    → (last_acked ≤ resolve_ack_to_absolute wire_ack last_acked highest_sent)
      × (resolve_ack_to_absolute wire_ack last_acked highest_sent ≤ highest_sent)
      × ((resolve_ack_to_absolute wire_ack last_acked highest_sent ≡ last_acked)
          ⊎ (wire_block_number (resolve_ack_to_absolute wire_ack last_acked highest_sent)
              ≡ wire_ack))
unfolding resolve_ack_to_absolute wire_block_number
resolve_ack_to_absolute_bounds wire_ack last_acked highest_sent h =
    ground (arith, resolve_ack_loop_cases wire_ack last_acked (highest_sent - last_acked))

resolve_ack_loop_finds :
    (last_acked count block : ℕ)
    → last_acked < block
    → block ≤ last_acked + count
    → count ≤ 2 ^ 16
    → resolve_ack_loop (wire_block_number block) last_acked count ≡ block
unfolding resolve_ack_loop wire_block_number
resolve_ack_loop_finds last_acked zero block lo hi few = absurd (omega arith)
resolve_ack_loop_finds last_acked (suc count) block lo hi few =
    ground (arith, resolve_ack_loop_finds last_acked count block)

-- With at most 65536 blocks in flight the ACK of any of them resolves to that block, whatever multiple of
-- 65536 its index has passed.
pub resolve_ack_to_absolute-wire_block_number :
    (last_acked highest_sent block : ℕ)
    → last_acked < block
    → block ≤ highest_sent
    → highest_sent ≤ last_acked + 2 ^ 16
    → resolve_ack_to_absolute (wire_block_number block) last_acked highest_sent ≡ block
unfolding resolve_ack_to_absolute
resolve_ack_to_absolute-wire_block_number last_acked highest_sent block lo hi few =
    resolve_ack_loop_finds last_acked (highest_sent - last_acked) block lo (omega arith)
      (omega arith)

search_forward_sound :
    (wire_block last_in_sequence rounds offset c : ℕ)
    → search_forward wire_block last_in_sequence rounds offset ≡ some c
    → c % 2 ^ 16 ≡ wire_block
unfolding search_forward wire_block_number
search_forward_sound wire_block last_in_sequence zero offset c h = cc
search_forward_sound wire_block last_in_sequence (suc rounds) offset c h =
    ground (arith, search_forward_sound wire_block last_in_sequence rounds (offset + 1) c)

search_forward_finds :
    (last_in_sequence rounds offset block : ℕ)
    → last_in_sequence + offset ≤ block
    → block < last_in_sequence + offset + rounds
    → block < 2 ^ 32
    → rounds ≤ 2 ^ 16
    → search_forward (wire_block_number block) last_in_sequence rounds offset ≡ some block
unfolding search_forward wire_block_number
search_forward_finds last_in_sequence zero offset block lo hi fits few = absurd (omega arith)
search_forward_finds last_in_sequence (suc rounds) offset block lo hi fits few =
    ground (arith, search_forward_finds last_in_sequence rounds (offset + 1) block)

-- A block inside the window is placed at its own index, as long as the window is at most 65536 blocks and
-- the index fits 32 bits.
pub resolve_data_to_absolute-wire_block_number :
    (last_in_sequence window block : ℕ)
    → last_in_sequence < block
    → block ≤ last_in_sequence + max window 1
    → window ≤ 2 ^ 16
    → block < 2 ^ 32
    → resolve_data_to_absolute (wire_block_number block) last_in_sequence window ≡ block
unfolding resolve_data_to_absolute
resolve_data_to_absolute-wire_block_number last_in_sequence window block lo hi few fits = rw (
  search_forward_finds last_in_sequence (max window 1) 1 block (omega arith) (omega arith) fits
      (omega arith),
  resolve_data_to_absolute,
)

search_backward_sound :
    (wire_block last_in_sequence rounds offset c : ℕ)
    → search_backward wire_block last_in_sequence rounds offset ≡ some c
    → (c % 2 ^ 16 ≡ wire_block) × (c ≤ last_in_sequence)
unfolding search_backward wire_block_number
search_backward_sound wire_block last_in_sequence zero offset c h = cc
search_backward_sound wire_block last_in_sequence (suc rounds) offset c h =
    ground (arith, search_backward_sound wire_block last_in_sequence rounds (offset + 1) c)

-- A block that is placed is placed at an index with its number.
pub resolve_data_to_absolute_cases :
    (wire_block last_in_sequence window : ℕ)
    → (resolve_data_to_absolute wire_block last_in_sequence window ≡ 0)
      ⊎ (wire_block_number (resolve_data_to_absolute wire_block last_in_sequence window)
          ≡ wire_block)
unfolding wire_block_number resolve_data_to_absolute
resolve_data_to_absolute_cases wire_block last window =
    elim (Option-cases (search_forward wire_block last (max window 1) 1)) [
      | inr (c, e) ↦ inr (
          rw (e, resolve_data_to_absolute)
            (search_forward_sound wire_block last (max window 1) 1 c e))
      | inl e ↦
          elim (Option-cases (search_backward wire_block last (min last (max window 1) + 1) 0)) [
            | inr (c, f) ↦ inr (
                rw (e, resolve_data_to_absolute, f)
                  (search_backward_sound wire_block last (min last (max window 1) + 1) 0 c f).0)
            | inl f ↦ inl (rw (e, resolve_data_to_absolute, f))
          ]
    ]
