-- ===== src/Sha256/Agree.antt =====
-- src/verify/sha256.cpp computes the hash of FIPS 180-4.
use tftp_stress_test.Common.{
  ℕ, zero, suc, ◌+◌, ◌-◌, ◌*◌, ◌/◌, ◌%◌, ◌^◌, ◌≡◌, refl, sym, ap, ◌∙◌, List, [], ◌∷◌, ◌++◌, arith,
  Bytes, length, length-take, length-drop, take, drop, replicate,
}
use tftp_stress_test.Sha256.{
  word_at, load_words, next_word, extend_words, reverse_onto, Working, compress_round,
  compress_rounds, load_working, add_working, process_block, round_constants, initial_state,
  length_bytes, digest_bytes, sha256_digest,
}
use tftp_stress_test.Sha256.Digest.{pad, hash_blocks, sha256_digest-hash_blocks}
use tftp_stress_test.Sha256.Fips.{
  big_endian, fips_constants, fips_initial, fips_words, scheduled, schedule_from, fips_rounds,
  add_words, fips_step, fips_blocks, fips_pad, words_to_bytes, fips_digest,
}

round_constants-fips_constants : round_constants ≡ fips_constants
unfolding fips_constants
round_constants-fips_constants = refl

initial_state-fips_initial : initial_state ≡ fips_initial
unfolding fips_initial
initial_state-fips_initial = refl

load_words-fips_words :
    (block : Bytes) (words : List ℕ)
    → load_words block words ≡ reverse_onto (fips_words block) words
unfolding load_words reverse_onto fips_words
load_words-fips_words [] words = refl
load_words-fips_words (a ∷ []) words = refl
load_words-fips_words (a ∷ b ∷ []) words = refl
load_words-fips_words (a ∷ b ∷ c ∷ []) words = refl
load_words-fips_words (a ∷ b ∷ c ∷ d ∷ rest) words =
    let e : a * 2 ^ 24 + b * 2 ^ 16 + c * 2 ^ 8 + d ≡ ((a * 256 + b) * 256 + c) * 256 + d =
      omega arith in
    load_words-fips_words rest _ ∙ ap (λ word. reverse_onto (fips_words rest) (word ∷ words)) e

length-fips_words :
    (count : ℕ) (block : Bytes) → length block ≡ count * 4 → length (fips_words block) ≡ count
unfolding fips_words
length-fips_words count [] h = omega arith
length-fips_words count (a ∷ []) h = absurd (omega arith)
length-fips_words count (a ∷ b ∷ []) h = absurd (omega arith)
length-fips_words count (a ∷ b ∷ c ∷ []) h = absurd (omega arith)
length-fips_words zero (a ∷ b ∷ c ∷ d ∷ rest) h = absurd (omega arith)
length-fips_words (suc count) (a ∷ b ∷ c ∷ d ∷ rest) h =
    omega (arith, length-fips_words count rest (omega arith))

-- The words that the code keeps last first are those of the schedule.
extend_words-schedule_from :
    (count : ℕ) (older : List ℕ) (w0 w1 w2 w3 w4 w5 w6 w7 w8 w9 w10 w11 w12 w13 w14 w15 : ℕ)
    → reverse_onto
        (extend_words count (
          w15 ∷ w14 ∷ w13 ∷ w12 ∷ w11 ∷ w10 ∷ w9 ∷ w8 ∷ w7 ∷ w6 ∷ w5 ∷ w4 ∷ w3 ∷ w2 ∷ w1 ∷ w0
          ∷ older))
        []
      ≡ reverse_onto older
          (schedule_from count w0 w1 w2 w3 w4 w5 w6 w7 w8 w9 w10 w11 w12 w13 w14 w15)
unfolding extend_words reverse_onto schedule_from next_word
extend_words-schedule_from zero older w0 w1 w2 w3 w4 w5 w6 w7 w8 w9 w10 w11 w12 w13 w14 w15 = refl
extend_words-schedule_from (suc count) older w0 w1 w2 w3 w4 w5 w6 w7 w8 w9 w10 w11 w12 w13 w14 w15 =
    let words =
      w15 ∷ w14 ∷ w13 ∷ w12 ∷ w11 ∷ w10 ∷ w9 ∷ w8 ∷ w7 ∷ w6 ∷ w5 ∷ w4 ∷ w3 ∷ w2 ∷ w1 ∷ w0 ∷ older in
    let e : next_word words ≡ scheduled w0 w1 w2 w3 w4 w5 w6 w7 w8 w9 w10 w11 w12 w13 w14 w15 =
      omega arith in
    ap (λ word. reverse_onto (extend_words count (word ∷ words)) []) e
    ∙ extend_words-schedule_from count (w0 ∷ older) w1 w2 w3 w4 w5 w6 w7 w8 w9 w10 w11 w12 w13 w14
        w15 (scheduled w0 w1 w2 w3 w4 w5 w6 w7 w8 w9 w10 w11 w12 w13 w14 w15)

compress_rounds-fips_rounds :
    (ks ws state : List ℕ) (v : Working) (a b c d e f g h : ℕ)
    → add_working (a ∷ b ∷ c ∷ d ∷ e ∷ f ∷ g ∷ h ∷ []) (compress_rounds ks ws v)
      ≡ add_words
          (fips_rounds ks ws v.a v.b v.c v.d v.e v.f v.g v.h)
          (a ∷ b ∷ c ∷ d ∷ e ∷ f ∷ g ∷ h ∷ [])
unfolding compress_rounds compress_round fips_rounds add_words add_working
compress_rounds-fips_rounds [] ws state v a b c d e f g h = refl
compress_rounds-fips_rounds (k ∷ ks) [] state v a b c d e f g h = refl
compress_rounds-fips_rounds (k ∷ ks) (w ∷ ws) state v a b c d e f g h =
    compress_rounds-fips_rounds ks ws state (compress_round v k w) a b c d e f g h

-- A list of as many elements as stated, from its elements.
tabulate : ℕ → (ℕ → ℕ) → List ℕ
tabulate zero f = []
tabulate (suc count) f = f 0 ∷ tabulate count (λ i. f (suc i))

tabulate-word_at :
    (count : ℕ) (words : List ℕ) → length words ≡ count → words ≡ tabulate count (word_at words)
unfolding tabulate
tabulate-word_at zero [] h = refl
tabulate-word_at (suc count) [] h = absurd (omega arith)
tabulate-word_at zero (w ∷ words) h = absurd (omega arith)
tabulate-word_at (suc count) (w ∷ words) h =
    ap (λ t. w ∷ t) (tabulate-word_at count words (omega arith))

module _ (a b c d e f g h : ℕ) where
  process_words-fips_step :
      (w0 w1 w2 w3 w4 w5 w6 w7 w8 w9 w10 w11 w12 w13 w14 w15 : ℕ)
      → add_working (a ∷ b ∷ c ∷ d ∷ e ∷ f ∷ g ∷ h ∷ []) (
          compress_rounds round_constants
            (reverse_onto
              (extend_words 48 (
                w15 ∷ w14 ∷ w13 ∷ w12 ∷ w11 ∷ w10 ∷ w9 ∷ w8 ∷ w7 ∷ w6 ∷ w5 ∷ w4 ∷ w3 ∷ w2 ∷ w1 ∷ w0
                ∷ []))
              [])
            (load_working (a ∷ b ∷ c ∷ d ∷ e ∷ f ∷ g ∷ h ∷ [])))
        ≡ fips_step (a ∷ b ∷ c ∷ d ∷ e ∷ f ∷ g ∷ h ∷ []) (
            w0 ∷ w1 ∷ w2 ∷ w3 ∷ w4 ∷ w5 ∷ w6 ∷ w7 ∷ w8 ∷ w9 ∷ w10 ∷ w11 ∷ w12 ∷ w13 ∷ w14 ∷ w15
            ∷ [])
  unfolding fips_step load_working reverse_onto
  process_words-fips_step w0 w1 w2 w3 w4 w5 w6 w7 w8 w9 w10 w11 w12 w13 w14 w15 =
      let initial : Working = load_working (a ∷ b ∷ c ∷ d ∷ e ∷ f ∷ g ∷ h ∷ []) in
      ap
        (λ words.
          add_working (a ∷ b ∷ c ∷ d ∷ e ∷ f ∷ g ∷ h ∷ [])
            (compress_rounds round_constants words initial))
        (extend_words-schedule_from 48 [] w0 w1 w2 w3 w4 w5 w6 w7 w8 w9 w10 w11 w12 w13 w14 w15)
      ∙ ap
          (λ ks. add_working (a ∷ b ∷ c ∷ d ∷ e ∷ f ∷ g ∷ h ∷ []) (
            compress_rounds ks
              (schedule_from 48 w0 w1 w2 w3 w4 w5 w6 w7 w8 w9 w10 w11 w12 w13 w14 w15) initial))
          round_constants-fips_constants
      ∙ compress_rounds-fips_rounds fips_constants
          (schedule_from 48 w0 w1 w2 w3 w4 w5 w6 w7 w8 w9 w10 w11 w12 w13 w14 w15) [] initial a b c
          d e f g h

  process_block-literal :
      (block : Bytes)
      → length block ≡ 64
      → process_block (a ∷ b ∷ c ∷ d ∷ e ∷ f ∷ g ∷ h ∷ []) block
        ≡ fips_step (a ∷ b ∷ c ∷ d ∷ e ∷ f ∷ g ∷ h ∷ []) (fips_words block)
  unfolding process_block tabulate reverse_onto
  process_block-literal block full =
      let m = word_at (fips_words block) in
      let sixteen : fips_words block ≡ tabulate 16 m =
        tabulate-word_at 16 (fips_words block) (length-fips_words 16 block full) in
      ap
        (λ words. add_working (a ∷ b ∷ c ∷ d ∷ e ∷ f ∷ g ∷ h ∷ []) (
          compress_rounds round_constants (reverse_onto (extend_words 48 words) [])
            (load_working (a ∷ b ∷ c ∷ d ∷ e ∷ f ∷ g ∷ h ∷ []))))
        (load_words-fips_words block [] ∙ ap (λ t. reverse_onto t []) sixteen)
      ∙ process_words-fips_step (m 0) (m 1) (m 2) (m 3) (m 4) (m 5) (m 6) (m 7) (m 8) (m 9) (m 10)
          (m 11) (m 12) (m 13) (m 14) (m 15)
      ∙ ap (fips_step (a ∷ b ∷ c ∷ d ∷ e ∷ f ∷ g ∷ h ∷ [])) (sym sixteen)

process_block-fips_step :
    (state : List ℕ) (block : Bytes)
    → length state ≡ 8
    → length block ≡ 64
    → process_block state block ≡ fips_step state (fips_words block)
unfolding tabulate
process_block-fips_step state block eight full =
    let s = word_at state in
    let same : state ≡ tabulate 8 s = tabulate-word_at 8 state eight in
    ap (λ t. process_block t block) same
    ∙ process_block-literal (s 0) (s 1) (s 2) (s 3) (s 4) (s 5) (s 6) (s 7) block full
    ∙ ap (λ t. fips_step t (fips_words block)) (sym same)

length-process_block : (state : List ℕ) (block : Bytes) → length (process_block state block) ≡ 8
unfolding process_block add_working
length-process_block state block = refl

hash_blocks-fips_blocks :
    (count : ℕ) (state : List ℕ) (message : Bytes)
    → length state ≡ 8
    → length message ≡ count * 64
    → hash_blocks count state message ≡ fips_blocks count state message
unfolding hash_blocks fips_blocks
hash_blocks-fips_blocks zero state message eight whole = refl
hash_blocks-fips_blocks (suc count) state message eight whole =
    let block = take 64 message in
    hash_blocks-fips_blocks count (process_block state block) (drop 64 message)
      (length-process_block state block) (omega (arith, length-drop 64 message))
    ∙ ap (λ next. fips_blocks count next (drop 64 message))
        (process_block-fips_step state block eight (omega (arith, length-take 64 message)))

digest_bytes-words_to_bytes : (words : List ℕ) → digest_bytes words ≡ words_to_bytes words
unfolding words_to_bytes big_endian
digest_bytes-words_to_bytes [] = refl
digest_bytes-words_to_bytes (word ∷ words) =
    let e3 : word / 2 ^ 24 % 256 ≡ word / 256 / 256 / 256 % 256 = omega arith in
    let e2 : word / 2 ^ 16 % 256 ≡ word / 256 / 256 % 256 = omega arith in
    rw (e3, e2, digest_bytes-words_to_bytes words) refl

length_bytes-big_endian : (n : ℕ) → length_bytes (n * 8 % 2 ^ 64) ≡ big_endian 8 (8 * n)
unfolding big_endian
length_bytes-big_endian n =
    let e7 : n * 8 % 2 ^ 64 / 2 ^ 56 % 256 ≡ 8 * n / 256 / 256 / 256 / 256 / 256 / 256 / 256 % 256 =
      omega arith in
    let e6 : n * 8 % 2 ^ 64 / 2 ^ 48 % 256 ≡ 8 * n / 256 / 256 / 256 / 256 / 256 / 256 % 256 =
      omega arith in
    let e5 : n * 8 % 2 ^ 64 / 2 ^ 40 % 256 ≡ 8 * n / 256 / 256 / 256 / 256 / 256 % 256 =
      omega arith in
    let e4 : n * 8 % 2 ^ 64 / 2 ^ 32 % 256 ≡ 8 * n / 256 / 256 / 256 / 256 % 256 = omega arith in
    let e3 : n * 8 % 2 ^ 64 / 2 ^ 24 % 256 ≡ 8 * n / 256 / 256 / 256 % 256 = omega arith in
    let e2 : n * 8 % 2 ^ 64 / 2 ^ 16 % 256 ≡ 8 * n / 256 / 256 % 256 = omega arith in
    let e1 : n * 8 % 2 ^ 64 / 2 ^ 8 % 256 ≡ 8 * n / 256 % 256 = omega arith in
    let e0 : n * 8 % 2 ^ 64 % 256 ≡ 8 * n % 256 = omega arith in
    rw (e7, e6, e5, e4, e3, e2, e1, e0) refl

pad-fips_pad : (message : Bytes) → pad message ≡ fips_pad message
unfolding fips_pad
pad-fips_pad message =
    ap (λ t. (message ++ 0x80 ∷ []) ++ replicate ((119 - length message % 64) % 64) 0 ++ t)
      (length_bytes-big_endian (length message))

-- The digest of every message is that of FIPS 180-4, with the standard's padding, constants, initial hash value, message
-- schedule, rounds and byte order as Fips states them, for a message of any length; from 2 ^ 61 bytes on, where the
-- standard stops, the length field holds the last 64 bits of the length.
pub sha256_digest-fips_digest : (message : Bytes) → sha256_digest message ≡ fips_digest message
unfolding fips_digest
sha256_digest-fips_digest message =
    let (digest, whole) = sha256_digest-hash_blocks message in
    let count = length (pad message) / 64 in
    digest
    ∙ ap digest_bytes (
        hash_blocks-fips_blocks count initial_state (pad message) refl (omega (arith, whole))
        ∙ ap (λ hash. fips_blocks count hash (pad message)) initial_state-fips_initial)
    ∙ digest_bytes-words_to_bytes _
    ∙ ap (λ padded. words_to_bytes (fips_blocks (length padded / 64) fips_initial padded))
        (pad-fips_pad message)
