-- ===== src/Engine/Blocks/Laws.antt =====
-- The blocks of adapters/reference/tftp_reference_engine.cpp put together again.
use tftp_stress_test.Common.{
  ℕ, zero, suc, ◌+◌, ◌-◌, ◌*◌, ◌/◌, ◌^◌, ◌≤◌, ◌<◌, min, ◌≡◌, refl, ap, ◌∙◌, [], ◌∷◌, ◌++◌, some,
  arith, Bytes, leb, leb→le, ltb, ltb→lt, ◌↔◌, Bool-cases, inl, inr, length, take, drop,
  length-take, length-drop, take-append-take, take_all,
}
use native.Mathlib.Nat.{div-add-mod, mod-lt}
use tftp_stress_test.Engine.Blocks.{total_block_count, block_payload}

-- The payload of the blocks 1 to `n`.
abbrev pub blocks_upto : Bytes → ℕ → ℕ → Bytes
blocks_upto payload n block_size = take (n * block_size) payload

take-min-length : (k : ℕ) (bytes : Bytes) → take (min k (length bytes)) bytes ≡ take k bytes
take-min-length zero bytes = let e : min 0 (length bytes) ≡ 0 = omega arith in rw e
take-min-length (suc k) [] = let e : min (suc k) 0 ≡ 0 = omega arith in rw e
take-min-length (suc k) (b ∷ bytes) =
    let e : min (suc k) (suc (length bytes)) ≡ suc (min k (length bytes)) = omega arith in
    rw e (ap (λ t. b ∷ t) (take-min-length k bytes))

take-drop_past : (k n : ℕ) (bytes : Bytes) → length bytes ≤ n → take k (drop n bytes) ≡ []
take-drop_past zero n bytes h = refl
take-drop_past (suc k) zero [] h = refl
take-drop_past (suc k) (suc n) [] h = refl
take-drop_past (suc k) zero (b ∷ bytes) h = absurd (omega arith)
take-drop_past (suc k) (suc n) (b ∷ bytes) h = take-drop_past (suc k) n bytes (omega arith)

pub block_payload-take-drop :
    (payload : Bytes) (n block_size : ℕ)
    → block_payload payload (suc n) block_size ≡ take block_size (drop (n * block_size) payload)
unfolding block_payload
block_payload-take-drop payload n block_size =
    elim (Bool-cases (leb (length payload) (n * block_size))) [
      | inl e ↦ rw (e, take-drop_past block_size (n * block_size) payload (leb→le _ _ e))
      | inr e ↦
          rw (e, ← length-drop (n * block_size) payload)
            (take-min-length block_size (drop (n * block_size) payload))
    ]

-- One more block continues the payload where the blocks before it end.
pub blocks_upto-suc :
    (payload : Bytes) (n block_size : ℕ)
    → blocks_upto payload n block_size ++ block_payload payload (suc n) block_size
      ≡ blocks_upto payload (suc n) block_size
blocks_upto-suc payload n block_size =
    rw block_payload-take-drop
      (take-append-take (n * block_size) block_size (suc n * block_size) payload (omega arith))

pub length-block_payload :
    (payload : Bytes) (n block_size : ℕ)
    → length (block_payload payload (suc n) block_size)
      ≡ min block_size (length payload - n * block_size)
length-block_payload payload n block_size = rw (block_payload-take-drop payload n block_size) (
    length-take block_size (drop (n * block_size) payload)
    ∙ ap (λ (k : ℕ). min block_size k) (length-drop (n * block_size) payload))

-- `total` blocks of `block_size` are what the payload is cut into: the last of them, and no other, is
-- shorter than a block.
pub record IsTotal (payload : Bytes) (block_size total : ℕ) : Type 0 where
  pub some_block : 0 < block_size
  pub covered : length payload < total * block_size
  pub tight : (total - 1) * block_size ≤ length payload
  pub positive : 0 < total

mul_mono : (a b c : ℕ) → a ≤ b → a * c ≤ b * c
mul_mono a b c h = grind arith

-- The whole blocks of a payload, counted by a division.
division :
    (size block_size : ℕ)
    → 0 < block_size
    → (size / block_size * block_size ≤ size) × (size < (size / block_size + 1) * block_size)
division size block_size h = omega (arith, div-add-mod size block_size, mod-lt size h)

quotient_lt :
    (size block_size bound : ℕ)
    → 0 < block_size
    → size < bound * block_size
    → size / block_size < bound
quotient_lt size block_size bound h fits = elim (Bool-cases (ltb (size / block_size) bound)) [
  | inl e ↦ ltb→lt _ _ e
  | inr e ↦ absurd (
      omega (
        arith,
        mul_mono bound (size / block_size) block_size (ground arith),
        division size block_size h,
      ))
]

-- For a payload shorter than 2 ^ 32 - 1 blocks, the block count is what the payload is cut into: the
-- blocks cover it, and without the last of them they do not pass its end.
pub total_block_count-IsTotal :
    (payload : Bytes) (block_size total : ℕ)
    → length payload < (2 ^ 32 - 1) * block_size
    → total_block_count (length payload) block_size ≡ some total
    → IsTotal payload block_size total
unfolding total_block_count
total_block_count-IsTotal payload block_size total fits h =
    let positive : 0 < block_size = ground arith in
    let few : length payload / block_size < 2 ^ 32 - 1 = quotient_lt _ _ _ positive fits in
    let count : total ≡ length payload / block_size + 1 = ground arith in
    record {
      some_block = positive;
      covered = rw count (division (length payload) block_size positive).1;
      tight =
          let e : total - 1 ≡ length payload / block_size = omega arith in
          rw e (division (length payload) block_size positive).0;
      positive = omega arith;
    }

-- All blocks together are the payload.
pub blocks_upto-total :
    (payload : Bytes) (block_size total : ℕ)
    → IsTotal payload block_size total
    → blocks_upto payload total block_size ≡ payload
blocks_upto-total payload block_size total t = take_all _ payload (omega (arith, t.covered))

-- A block from 1 to the total is short exactly when it is the last.
pub short_block_iff :
    (payload : Bytes) (block_size total n : ℕ)
    → IsTotal payload block_size total
    → n < total
    → (length (block_payload payload (suc n) block_size) < block_size) ↔ (suc n ≡ total)
short_block_iff payload block_size total n t h = (
  λ short. elim (Bool-cases (ltb (suc n) total)) [
    | inl e ↦ absurd (
        omega (
          arith,
          t.some_block,
          t.tight,
          length-block_payload payload n block_size,
          mul_mono (suc n) (total - 1) block_size (omega (arith, ltb→lt _ _ e)),
        ))
    | inr e ↦ ground arith
  ],
  λ e. omega (
    arith,
    t.some_block,
    length-block_payload payload n block_size,
    ap (λ (k : ℕ). k * block_size) e,
    t.covered,
  ),
)
