-- ===== src/Sha256/Digest.antt =====
-- The digest of src/verify/sha256.cpp: the blocks of the padded message, one after another.
use tftp_stress_test.Common.{
  ℕ, zero, suc, ◌+◌, ◌-◌, ◌*◌, ◌/◌, ◌%◌, ◌^◌, ◌<◌, ◌≡◌, refl, sym, ap, ◌∙◌, List, [], ◌∷◌, ◌++◌,
  arith, Bytes, ◌==◌, Bool-cases, inl, inr, length, length-append, length-take, length-drop, take,
  drop, replicate,
}
use tftp_stress_test.Sha256.{
  Sha256, initial_state, reset, process_block, update, pad_zeros, length_bytes, digest_bytes,
  padded, finalize, sha256_digest,
}
use tftp_stress_test.Sha256.Stream.{
  absorb, with_total, absorb-append, length-absorb, update-absorb, update-append, take_bytes-absorb,
  take_bytes-full, take-append-drop,
}

-- The zero bytes behind the bit one: up to eight bytes less than a whole number of blocks.
abbrev pub zeros_behind : ℕ → ℕ
zeros_behind size = (119 - size % 64) % 64

-- FIPS 180-4, section 5.1.1.
abbrev pub pad : Bytes → Bytes
pad message =
    (message ++ 0x80 ∷ [])
    ++ replicate (zeros_behind (length message)) 0
    ++ length_bytes (length message * 8 % 2 ^ 64)

-- FIPS 180-4, section 6.2.2.
unfoldable pub hash_blocks : ℕ → List ℕ → Bytes → List ℕ
hash_blocks zero state message = state
hash_blocks (suc count) state message =
    hash_blocks count (process_block state (take 64 message)) (drop 64 message)

length-replicate : (n b : ℕ) → length (replicate n b) ≡ n
length-replicate zero b = refl
length-replicate (suc n) b = omega (arith, length-replicate n b)

-- A hasher with an empty buffer.
abbrev at_block : List ℕ → ℕ → Sha256
at_block state total = record { state = state; buffer = []; total_length = total }

absorb_block :
    (state : List ℕ) (total : ℕ) (block : Bytes)
    → length block ≡ 64
    → absorb (at_block state total) block ≡ at_block (process_block state block) total
absorb_block state total [] h = absurd (omega arith)
absorb_block state total (b ∷ block) h =
    sym (take_bytes-absorb (at_block state total) b block (omega arith))
    ∙ take_bytes-full (at_block state total) (b ∷ block) (omega (arith, h))

absorb-hash_blocks :
    (count : ℕ) (state : List ℕ) (total : ℕ) (message : Bytes)
    → length message ≡ count * 64
    → absorb (at_block state total) message ≡ at_block (hash_blocks count state message) total
unfolding hash_blocks
absorb-hash_blocks zero state total [] h = unfold absorb in refl
absorb-hash_blocks zero state total (b ∷ message) h = absurd (omega arith)
absorb-hash_blocks (suc count) state total message h =
    ap (λ t. absorb (at_block state total) t) (sym (take-append-drop 64 message))
    ∙ absorb-append (at_block state total) (take 64 message) (drop 64 message)
    ∙ ap (λ t. absorb t (drop 64 message))
        (absorb_block state total (take 64 message) (omega (arith, length-take 64 message)))
    ∙ absorb-hash_blocks count (process_block state (take 64 message)) total (drop 64 message)
        (omega (arith, length-drop 64 message))

length-update :
    (s : Sha256) (xs : Bytes)
    → length s.buffer < 64
    → length (update s xs).buffer ≡ (length s.buffer + length xs) % 64
length-update s xs few =
    ap (λ (t : Sha256). length t.buffer) (update-absorb s xs few) ∙ length-absorb s xs few

total_length-update :
    (s : Sha256) (xs : Bytes)
    → length s.buffer < 64
    → (update s xs).total_length ≡ (s.total_length + length xs) % 2 ^ 64
total_length-update s xs few = ap (λ (t : Sha256). t.total_length) (update-absorb s xs few)

update-nil : (s : Sha256) → length s.buffer < 64 → s.total_length < 2 ^ 64 → update s [] ≡ s
unfolding absorb
update-nil s few small =
    let e : (s.total_length + 0) % 2 ^ 64 ≡ s.total_length = omega arith in
    update-absorb s [] few ∙ ap (λ n. with_total s n) e

-- The zeros that `finalize` appends.
pad_zeros-update :
    (rounds : ℕ) (s : Sha256)
    → length s.buffer < 64
    → s.total_length < 2 ^ 64
    → (120 - length s.buffer) % 64 < rounds
    → pad_zeros rounds s ≡ update s (replicate ((120 - length s.buffer) % 64) 0)
unfolding pad_zeros
pad_zeros-update zero s few small h = absurd (omega arith)
pad_zeros-update (suc rounds) s few small h = elim (Bool-cases (length s.buffer == 56)) [
  | inl e ↦
      let none_left : (120 - length s.buffer) % 64 ≡ 0 = ground arith in
      rw (e, none_left) (sym (update-nil s few small))
  | inr e ↦
      let next = update s (0 ∷ []) in
      let len : length next.buffer ≡ (length s.buffer + 1) % 64 = length-update s (0 ∷ []) few in
      let one_less : (120 - length s.buffer) % 64 ≡ suc ((120 - length next.buffer) % 64) =
        ground (arith, len) in
      rw (e, one_less)
        (pad_zeros-update rounds next (omega (arith, len))
            (omega (arith, total_length-update s (0 ∷ []) few)) (omega (arith, one_less))
          ∙ update-append s (0 ∷ []) (replicate ((120 - length next.buffer) % 64) 0) few)
]

length-length_bytes : (n : ℕ) → length (length_bytes n) ≡ 8
length-length_bytes n = refl

length-pad : (message : Bytes) → length (pad message) % 64 ≡ 0
length-pad message =
    let ones = length-append message (0x80 ∷ []) in
    let zeros : Bytes = replicate (zeros_behind (length message)) 0 in
    omega (
      arith,
      ones,
      length-append (message ++ 0x80 ∷ []) zeros,
      length-replicate (zeros_behind (length message)) 0,
      length-append ((message ++ 0x80 ∷ []) ++ zeros) (length_bytes (length message * 8 % 2 ^ 64)),
    )

padded-update : (message : Bytes) → padded (update reset message) ≡ update reset (pad message)
unfolding padded
padded-update message =
    let s1 = update reset message in
    let s2 = update s1 (0x80 ∷ []) in
    let room : length s1.buffer < 64 = omega (arith, length-update reset message (omega arith)) in
    let len : length s2.buffer ≡ (length message + 1) % 64 =
      omega (arith, length-update reset message (omega arith), length-update s1 (0x80 ∷ []) room) in
    let count : (120 - length s2.buffer) % 64 ≡ zeros_behind (length message) =
      omega (arith, len) in
    let bits : s1.total_length * 8 % 2 ^ 64 ≡ length message * 8 % 2 ^ 64 =
      omega (arith, total_length-update reset message (omega arith)) in
    let zeros : Bytes = replicate (zeros_behind (length message)) 0 in
    let joined : s2 ≡ update reset (message ++ 0x80 ∷ []) =
      update-append reset message (0x80 ∷ []) (omega arith) in
    let filled : pad_zeros 64 s2 ≡ update reset ((message ++ 0x80 ∷ []) ++ zeros) =
      pad_zeros-update 64 s2 (omega (arith, len))
        (omega (arith, total_length-update s1 (0x80 ∷ []) room)) (omega arith)
      ∙ ap (λ n. update s2 (replicate n 0)) count
      ∙ ap (λ t. update t zeros) joined
      ∙ update-append reset (message ++ 0x80 ∷ []) zeros (omega arith) in
    ap (λ n. update (pad_zeros 64 s2) (length_bytes n)) bits
    ∙ ap (λ t. update t (length_bytes (length message * 8 % 2 ^ 64))) filled
    ∙ update-append reset ((message ++ 0x80 ∷ []) ++ zeros)
        (length_bytes (length message * 8 % 2 ^ 64)) (omega arith)

-- The digest of a message is the code's compression function folded over the 64-byte blocks of the padded
-- message, and the padded message is a whole number of blocks.
pub sha256_digest-hash_blocks :
    (message : Bytes)
    → (sha256_digest message
        ≡ digest_bytes (hash_blocks (length (pad message) / 64) initial_state (pad message)))
      × (length (pad message) % 64 ≡ 0)
unfolding sha256_digest finalize
sha256_digest-hash_blocks message =
    let whole = length-pad message in
    (
      ap (λ (t : Sha256). digest_bytes t.state)
          (padded-update message
            ∙ update-absorb reset (pad message) (omega arith)
            ∙ ap (λ t. with_total t ((0 + length (pad message)) % 2 ^ 64))
                (absorb-hash_blocks (length (pad message) / 64) initial_state 0 (pad message)
                  (omega (arith, whole)))),
      whole,
    )
