-- ===== src/Sha256.antt =====
-- src/verify/sha256.cpp: the hasher, with the bytes that are in its buffer as a list, and the digest of a
-- whole vector. Words have 32 bits; the shifted parts of a rotation are joined by `bit_or`.
pub mod Stream
pub mod Digest
pub mod Fips
pub mod Agree
pub mod Hex
mod Runs
use tftp_stress_test.Common.{
  ℕ, zero, suc, ◌+◌, ◌-◌, ◌*◌, ◌/◌, ◌%◌, ◌^◌, min, bit_and, bit_or, bit_xor, List, [], ◌∷◌, ◌++◌,
  Option, none, some, Bytes, ◌==◌, if◌then◌else◌, length, take, drop, get_elem?,
}

abbrev pub rotate_right : ℕ → ℕ → ℕ
rotate_right value bits = bit_or (value / 2 ^ bits) (value * 2 ^ (32 - bits) % 2 ^ 32)

abbrev pub round_constants : List ℕ
round_constants =
    0x428a2f98 ∷ 0x71374491 ∷ 0xb5c0fbcf ∷ 0xe9b5dba5 ∷ 0x3956c25b ∷ 0x59f111f1 ∷ 0x923f82a4
    ∷ 0xab1c5ed5 ∷ 0xd807aa98 ∷ 0x12835b01 ∷ 0x243185be ∷ 0x550c7dc3 ∷ 0x72be5d74 ∷ 0x80deb1fe
    ∷ 0x9bdc06a7 ∷ 0xc19bf174 ∷ 0xe49b69c1 ∷ 0xefbe4786 ∷ 0x0fc19dc6 ∷ 0x240ca1cc ∷ 0x2de92c6f
    ∷ 0x4a7484aa ∷ 0x5cb0a9dc ∷ 0x76f988da ∷ 0x983e5152 ∷ 0xa831c66d ∷ 0xb00327c8 ∷ 0xbf597fc7
    ∷ 0xc6e00bf3 ∷ 0xd5a79147 ∷ 0x06ca6351 ∷ 0x14292967 ∷ 0x27b70a85 ∷ 0x2e1b2138 ∷ 0x4d2c6dfc
    ∷ 0x53380d13 ∷ 0x650a7354 ∷ 0x766a0abb ∷ 0x81c2c92e ∷ 0x92722c85 ∷ 0xa2bfe8a1 ∷ 0xa81a664b
    ∷ 0xc24b8b70 ∷ 0xc76c51a3 ∷ 0xd192e819 ∷ 0xd6990624 ∷ 0xf40e3585 ∷ 0x106aa070 ∷ 0x19a4c116
    ∷ 0x1e376c08 ∷ 0x2748774c ∷ 0x34b0bcb5 ∷ 0x391c0cb3 ∷ 0x4ed8aa4a ∷ 0x5b9cca4f ∷ 0x682e6ff3
    ∷ 0x748f82ee ∷ 0x78a5636f ∷ 0x84c87814 ∷ 0x8cc70208 ∷ 0x90befffa ∷ 0xa4506ceb ∷ 0xbef9a3f7
    ∷ 0xc67178f2 ∷ []

pub record Sha256 : Type 0 where
  pub state : List ℕ
  pub buffer : Bytes
  pub total_length : ℕ

abbrev pub initial_state : List ℕ
initial_state =
    0x6a09e667 ∷ 0xbb67ae85 ∷ 0x3c6ef372 ∷ 0xa54ff53a ∷ 0x510e527f ∷ 0x9b05688c ∷ 0x1f83d9ab
    ∷ 0x5be0cd19 ∷ []

abbrev pub reset : Sha256
reset = record { state = initial_state; buffer = []; total_length = 0 }

-- The word at an index of a list of words.
abbrev pub word_at : List ℕ → ℕ → ℕ
word_at words i = elim (get_elem? words i) [ none ↦ 0 | some word ↦ word ]

-- The sixteen words of a block, last first; the four bytes of a word do not overlap.
pub load_words : Bytes → List ℕ → List ℕ
load_words (a ∷ b ∷ c ∷ d ∷ rest) words =
    load_words rest ((a * 2 ^ 24 + b * 2 ^ 16 + c * 2 ^ 8 + d) ∷ words)
load_words _ words = words

-- `words[i]` for the `i` behind the words so far, which stand last first.
pub next_word : List ℕ → ℕ
next_word words =
    let w15 = word_at words 14 in
    let w2 = word_at words 1 in
    let s0 = bit_xor (bit_xor (rotate_right w15 7) (rotate_right w15 18)) (w15 / 2 ^ 3) in
    let s1 = bit_xor (bit_xor (rotate_right w2 17) (rotate_right w2 19)) (w2 / 2 ^ 10) in
    (word_at words 15 + s0 + word_at words 6 + s1) % 2 ^ 32

pub extend_words : ℕ → List ℕ → List ℕ
extend_words zero words = words
extend_words (suc count) words = extend_words count (next_word words ∷ words)

pub reverse_onto : List ℕ → List ℕ → List ℕ
reverse_onto [] done = done
reverse_onto (word ∷ words) done = reverse_onto words (word ∷ done)

-- The eight variables of the rounds.
pub record Working : Type 0 where
  pub a : ℕ
  pub b : ℕ
  pub c : ℕ
  pub d : ℕ
  pub e : ℕ
  pub f : ℕ
  pub g : ℕ
  pub h : ℕ

pub compress_round : Working → ℕ → ℕ → Working
compress_round v constant word =
    let big_s1 =
      bit_xor (bit_xor (rotate_right v.e 6) (rotate_right v.e 11)) (rotate_right v.e 25) in
    let choose = bit_xor (bit_and v.e v.f) (bit_and (2 ^ 32 - 1 - v.e) v.g) in
    let temp1 = (v.h + big_s1 + choose + constant + word) % 2 ^ 32 in
    let big_s0 =
      bit_xor (bit_xor (rotate_right v.a 2) (rotate_right v.a 13)) (rotate_right v.a 22) in
    let majority = bit_xor (bit_xor (bit_and v.a v.b) (bit_and v.a v.c)) (bit_and v.b v.c) in
    let temp2 = (big_s0 + majority) % 2 ^ 32 in
    record {
      a = (temp1 + temp2) % 2 ^ 32;
      b = v.a;
      c = v.b;
      d = v.c;
      e = (v.d + temp1) % 2 ^ 32;
      f = v.e;
      g = v.f;
      h = v.g;
    }

pub compress_rounds : List ℕ → List ℕ → Working → Working
compress_rounds (constant ∷ constants) (word ∷ words) v =
    compress_rounds constants words (compress_round v constant word)
compress_rounds _ _ v = v

pub load_working : List ℕ → Working
load_working state = record {
  a = word_at state 0;
  b = word_at state 1;
  c = word_at state 2;
  d = word_at state 3;
  e = word_at state 4;
  f = word_at state 5;
  g = word_at state 6;
  h = word_at state 7;
}

pub add_working : List ℕ → Working → List ℕ
add_working state v =
    (word_at state 0 + v.a) % 2 ^ 32
    ∷ (word_at state 1 + v.b) % 2 ^ 32
    ∷ (word_at state 2 + v.c) % 2 ^ 32
    ∷ (word_at state 3 + v.d) % 2 ^ 32
    ∷ (word_at state 4 + v.e) % 2 ^ 32
    ∷ (word_at state 5 + v.f) % 2 ^ 32
    ∷ (word_at state 6 + v.g) % 2 ^ 32
    ∷ (word_at state 7 + v.h) % 2 ^ 32
    ∷ []

unfoldable pub process_block : List ℕ → Bytes → List ℕ
unfolding load_words next_word extend_words reverse_onto compress_round compress_rounds load_working
    add_working
process_block state block =
    let words = reverse_onto (extend_words 48 (load_words block [])) [] in
    add_working state (compress_rounds round_constants words (load_working state))

-- The buffer is filled up; a full one is processed.
unfoldable pub take_bytes : Sha256 → Bytes → Sha256
take_bytes s bytes =
    if length (s.buffer ++ bytes) == 64
    then record s { state = process_block s.state (s.buffer ++ bytes); buffer = [] }
    else record s { buffer = s.buffer ++ bytes }

-- The loop of `update`, with the rounds that it has left.
unfoldable pub update_loop : ℕ → Sha256 → Bytes → Sha256
update_loop zero s bytes = s
update_loop (suc rounds) s [] = s
update_loop (suc rounds) s (b ∷ bytes) =
    let taken = min (64 - length s.buffer) (length (b ∷ bytes)) in
    update_loop rounds (take_bytes s (take taken (b ∷ bytes))) (drop taken (b ∷ bytes))

-- Each round takes a byte at least.
unfoldable pub update : Sha256 → Bytes → Sha256
update s bytes =
    update_loop (length bytes)
      (record s { total_length = (s.total_length + length bytes) % 2 ^ 64 }) bytes

-- `while (buffer_length_ != 56)`, with the rounds that it has left.
unfoldable pub pad_zeros : ℕ → Sha256 → Sha256
pad_zeros zero s = s
pad_zeros (suc rounds) s = if length s.buffer == 56 then s else pad_zeros rounds (update s (0 ∷ []))

-- A 64-bit number, most significant byte first.
abbrev pub length_bytes : ℕ → Bytes
length_bytes n =
    n / 2 ^ 56 % 256
    ∷ n / 2 ^ 48 % 256
    ∷ n / 2 ^ 40 % 256
    ∷ n / 2 ^ 32 % 256
    ∷ n / 2 ^ 24 % 256
    ∷ n / 2 ^ 16 % 256
    ∷ n / 2 ^ 8 % 256
    ∷ n % 256
    ∷ []

abbrev pub digest_bytes : List ℕ → Bytes
digest_bytes [] = []
digest_bytes (word ∷ words) =
    word / 2 ^ 24 % 256 ∷ word / 2 ^ 16 % 256 ∷ word / 2 ^ 8 % 256 ∷ word % 256 ∷ digest_bytes words

-- The hasher behind all the padding.
unfoldable pub padded : Sha256 → Sha256
padded s =
    let bit_length = s.total_length * 8 % 2 ^ 64 in
    update (pad_zeros 64 (update s (0x80 ∷ []))) (length_bytes bit_length)

unfoldable pub finalize : Sha256 → Bytes
finalize s = digest_bytes (padded s).state

unfoldable pub sha256_digest : Bytes → Bytes
sha256_digest bytes = finalize (update reset bytes)

abbrev pub hex_digit : ℕ → ℕ
hex_digit n =
    if n == 10
    then 97
    else if n == 11
    then 98
    else if n == 12
    then 99
    else if n == 13
    then 100
    else if n == 14
    then 101
    else if n == 15
    then 102
    else 48 + n

unfoldable pub to_hex : Bytes → Bytes
to_hex [] = []
to_hex (byte ∷ digest) = hex_digit (byte / 16) ∷ hex_digit (byte % 16) ∷ to_hex digest

unfoldable pub sha256_hex : Bytes → Bytes
sha256_hex bytes = to_hex (sha256_digest bytes)
