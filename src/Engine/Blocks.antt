-- ===== src/Engine/Blocks.antt =====
-- adapters/reference/tftp_reference_engine.cpp: how a payload is cut into DATA blocks.
pub mod Laws
use tftp_stress_test.Common.{
  ℕ, zero, suc, ◌+◌, ◌-◌, ◌*◌, ◌/◌, ◌%◌, ◌^◌, min, List, [], Option, none, some, Bytes, leb, ◌==◌,
  if◌then◌else◌, length, take, drop,
}

-- `absolute_index & 0xFFFF`.
unfoldable pub wire_block_number : ℕ → ℕ
wire_block_number absolute_index = absolute_index % 2 ^ 16

-- A `std::uint32_t`. The division is by zero for the block size 0, which has no defined result: `none`.
unfoldable pub total_block_count : ℕ → ℕ → Option ℕ
total_block_count payload_size block_size =
    if block_size == 0 then none else some ((payload_size / block_size % 2 ^ 32 + 1) % 2 ^ 32)

-- `absolute_index - 1` on 32 bits.
abbrev pub index_before : ℕ → ℕ
index_before zero = 2 ^ 32 - 1
index_before (suc n) = n

-- The bytes of the 1-based block `absolute_index`.
unfoldable pub block_payload : Bytes → ℕ → ℕ → Bytes
block_payload payload absolute_index block_size =
    let start = index_before absolute_index * block_size in
    if leb (length payload) start
    then []
    else take (min block_size (length payload - start)) (drop start payload)
