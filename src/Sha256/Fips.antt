-- ===== src/Sha256/Fips.antt =====
-- FIPS 180-4, the standard that src/verify/sha256.cpp implements, written from its text and without the code's tables:
-- the constants are computed as the standard defines them, from the roots of the first primes.
use tftp_stress_test.Common.{
  ℕ, zero, suc, ◌+◌, ◌-◌, ◌*◌, ◌/◌, ◌%◌, ◌^◌, leb, bit_and, bit_or, bit_xor, List, [], ◌∷◌, ◌++◌,
  Bytes, if◌then◌else◌, length, map, take, drop, replicate,
}

-- Section 3.1: the least significant `count` bytes of a number, most significant first.
unfoldable pub big_endian : ℕ → ℕ → Bytes
big_endian zero n = []
big_endian (suc count) n = big_endian count (n / 256) ++ n % 256 ∷ []

-- Section 3.2: a rotation of a word to the right.
abbrev pub rotr : ℕ → ℕ → ℕ
rotr n x = bit_or (x / 2 ^ n) (x * 2 ^ (32 - n) % 2 ^ 32)

abbrev pub xor3 : ℕ → ℕ → ℕ → ℕ
xor3 x y z = bit_xor (bit_xor x y) z

-- Section 4.1.2, formulas 4.2 to 4.7.
abbrev pub ch : ℕ → ℕ → ℕ → ℕ
ch x y z = bit_xor (bit_and x y) (bit_and (2 ^ 32 - 1 - x) z)

abbrev pub maj : ℕ → ℕ → ℕ → ℕ
maj x y z = xor3 (bit_and x y) (bit_and x z) (bit_and y z)

abbrev pub upper_sigma_0 : ℕ → ℕ
upper_sigma_0 x = xor3 (rotr 2 x) (rotr 13 x) (rotr 22 x)

abbrev pub upper_sigma_1 : ℕ → ℕ
upper_sigma_1 x = xor3 (rotr 6 x) (rotr 11 x) (rotr 25 x)

abbrev pub lower_sigma_0 : ℕ → ℕ
lower_sigma_0 x = xor3 (rotr 7 x) (rotr 18 x) (x / 2 ^ 3)

abbrev pub lower_sigma_1 : ℕ → ℕ
lower_sigma_1 x = xor3 (rotr 17 x) (rotr 19 x) (x / 2 ^ 10)

-- The first 64 primes.
abbrev pub primes : List ℕ
primes =
    2 ∷ 3 ∷ 5 ∷ 7 ∷ 11 ∷ 13 ∷ 17 ∷ 19 ∷ 23 ∷ 29 ∷ 31 ∷ 37 ∷ 41 ∷ 43 ∷ 47 ∷ 53 ∷ 59 ∷ 61 ∷ 67 ∷ 71
    ∷ 73 ∷ 79 ∷ 83 ∷ 89 ∷ 97 ∷ 101 ∷ 103 ∷ 107 ∷ 109 ∷ 113 ∷ 127 ∷ 131 ∷ 137 ∷ 139 ∷ 149 ∷ 151 ∷ 157
    ∷ 163 ∷ 167 ∷ 173 ∷ 179 ∷ 181 ∷ 191 ∷ 193 ∷ 197 ∷ 199 ∷ 211 ∷ 223 ∷ 227 ∷ 229 ∷ 233 ∷ 239 ∷ 241
    ∷ 251 ∷ 257 ∷ 263 ∷ 269 ∷ 271 ∷ 277 ∷ 281 ∷ 283 ∷ 293 ∷ 307 ∷ 311 ∷ []

-- The largest number below `found + 2 ^ bits` whose power is at most `n`, when `found` is such a number: bit by bit.
unfoldable pub root_from : ℕ → ℕ → ℕ → ℕ → ℕ
root_from power zero n found = found
root_from power (suc bits) n found =
    root_from power bits n (if leb ((found + 2 ^ bits) ^ power) n then found + 2 ^ bits else found)

-- The first 32 bits of the fractional part of a root of a prime: the root of p * 2 ^ (32 * power) is 2 ^ 32 times that of
-- p. The roots of these primes are below 8, so 35 bits hold the result.
abbrev pub root_fraction : ℕ → ℕ → ℕ
root_fraction power p = root_from power 35 (p * 2 ^ (32 * power)) 0 % 2 ^ 32

-- Section 4.2.2: cube roots of the first 64 primes.
unfoldable pub fips_constants : List ℕ
unfolding root_from
fips_constants = map (root_fraction 3) primes

-- Section 5.3.3: square roots of the first eight.
unfoldable pub fips_initial : List ℕ
unfolding root_from
fips_initial = map (root_fraction 2) (take 8 primes)

-- The words of a block, each of four bytes, most significant first.
unfoldable pub fips_words : Bytes → List ℕ
fips_words (a ∷ b ∷ c ∷ d ∷ rest) = (((a * 256 + b) * 256 + c) * 256 + d) ∷ fips_words rest
fips_words _ = []

-- Section 6.2.2, step 1: the word behind sixteen words.
abbrev pub scheduled : ℕ → ℕ → ℕ → ℕ → ℕ → ℕ → ℕ → ℕ → ℕ → ℕ → ℕ → ℕ → ℕ → ℕ → ℕ → ℕ → ℕ
scheduled w0 w1 w2 w3 w4 w5 w6 w7 w8 w9 w10 w11 w12 w13 w14 w15 =
    (lower_sigma_1 w14 + w9 + lower_sigma_0 w1 + w0) % 2 ^ 32

-- The schedule from sixteen words on, oldest first, and `count` words behind them.
unfoldable pub schedule_from :
    ℕ → ℕ → ℕ → ℕ → ℕ → ℕ → ℕ → ℕ → ℕ → ℕ → ℕ → ℕ → ℕ → ℕ → ℕ → ℕ → ℕ → List ℕ
schedule_from zero w0 w1 w2 w3 w4 w5 w6 w7 w8 w9 w10 w11 w12 w13 w14 w15 =
    w0 ∷ w1 ∷ w2 ∷ w3 ∷ w4 ∷ w5 ∷ w6 ∷ w7 ∷ w8 ∷ w9 ∷ w10 ∷ w11 ∷ w12 ∷ w13 ∷ w14 ∷ w15 ∷ []
schedule_from (suc count) w0 w1 w2 w3 w4 w5 w6 w7 w8 w9 w10 w11 w12 w13 w14 w15 =
    w0
    ∷ schedule_from count w1 w2 w3 w4 w5 w6 w7 w8 w9 w10 w11 w12 w13 w14 w15
        (scheduled w0 w1 w2 w3 w4 w5 w6 w7 w8 w9 w10 w11 w12 w13 w14 w15)

-- Step 3, with the words and the constants of the rounds that are left.
unfoldable pub fips_rounds : List ℕ → List ℕ → ℕ → ℕ → ℕ → ℕ → ℕ → ℕ → ℕ → ℕ → List ℕ
fips_rounds (k ∷ ks) (w ∷ ws) a b c d e f g h =
    let t1 = (h + upper_sigma_1 e + ch e f g + k + w) % 2 ^ 32 in
    let t2 = (upper_sigma_0 a + maj a b c) % 2 ^ 32 in
    fips_rounds ks ws ((t1 + t2) % 2 ^ 32) a b c ((d + t1) % 2 ^ 32) e f g
fips_rounds _ _ a b c d e f g h = a ∷ b ∷ c ∷ d ∷ e ∷ f ∷ g ∷ h ∷ []

-- Step 4.
unfoldable pub add_words : List ℕ → List ℕ → List ℕ
add_words (x ∷ xs) (y ∷ ys) = (y + x) % 2 ^ 32 ∷ add_words xs ys
add_words _ _ = []

-- Steps 1 to 4 for one block: the hash value of eight words, and the sixteen words of the block.
unfoldable pub fips_step : List ℕ → List ℕ → List ℕ
unfolding schedule_from fips_rounds add_words
fips_step (a ∷ b ∷ c ∷ d ∷ e ∷ f ∷ g ∷ h ∷ [])
      (w0 ∷ w1 ∷ w2 ∷ w3 ∷ w4 ∷ w5 ∷ w6 ∷ w7 ∷ w8 ∷ w9 ∷ w10 ∷ w11 ∷ w12 ∷ w13 ∷ w14 ∷ w15 ∷ []) =
    add_words
      (fips_rounds fips_constants
        (schedule_from 48 w0 w1 w2 w3 w4 w5 w6 w7 w8 w9 w10 w11 w12 w13 w14 w15) a b c d e f g h)
      (a ∷ b ∷ c ∷ d ∷ e ∷ f ∷ g ∷ h ∷ [])
fips_step _ _ = []

unfoldable pub fips_blocks : ℕ → List ℕ → Bytes → List ℕ
fips_blocks zero hash message = hash
fips_blocks (suc count) hash message =
    fips_blocks count (fips_step hash (fips_words (take 64 message))) (drop 64 message)

-- Section 5.1.1, in bytes: a bit one, as many zeros as fill the block up to its last eight bytes, and the length in bits.
-- The standard has messages of fewer than 2 ^ 64 bits.
unfoldable pub fips_pad : Bytes → Bytes
unfolding big_endian
fips_pad message =
    (message ++ 0x80 ∷ [])
    ++ replicate ((119 - length message % 64) % 64) 0
    ++ big_endian 8 (8 * length message)

unfoldable pub words_to_bytes : List ℕ → Bytes
unfolding big_endian
words_to_bytes [] = []
words_to_bytes (word ∷ words) = big_endian 4 word ++ words_to_bytes words

unfoldable pub fips_digest : Bytes → Bytes
unfolding fips_blocks fips_initial words_to_bytes fips_pad
fips_digest message =
    words_to_bytes (fips_blocks (length (fips_pad message) / 64) fips_initial (fips_pad message))
