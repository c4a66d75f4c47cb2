-- ===== src/Sha256/Hex.antt =====
-- `sha256_hex` of src/verify/sha256.cpp tells digests apart.
use tftp_stress_test.Common.{
  ℕ, ◌/◌, ◌%◌, ◌<◌, ◌≡◌, refl, sym, ap, ◌∙◌, List, [], ◌∷◌, arith, Bytes, All,
}
use tftp_stress_test.Sha256.{
  digest_bytes, padded, finalize, sha256_digest, hex_digit, to_hex, sha256_hex, update, reset,
}
use tftp_stress_test.Sha256.Fips.{fips_digest}
use tftp_stress_test.Sha256.Agree.{sha256_digest-fips_digest}

hex_digit_injective : (m n : ℕ) → m < 16 → n < 16 → hex_digit m ≡ hex_digit n → m ≡ n
hex_digit_injective m n p q h = ground (arith, h)

to_hex_injective :
    (xs ys : Bytes)
    → All (λ x. x < 256) xs
    → All (λ y. y < 256) ys
    → to_hex xs ≡ to_hex ys
    → xs ≡ ys
unfolding to_hex
to_hex_injective [] [] p q h = refl
to_hex_injective [] (y ∷ ys) p q h = cc
to_hex_injective (x ∷ xs) [] p q h = cc
to_hex_injective (x ∷ xs) (y ∷ ys) (px, p) (py, q) h =
    let high : hex_digit (x / 16) ≡ hex_digit (y / 16) = cc in
    let low : hex_digit (x % 16) ≡ hex_digit (y % 16) = cc in
    let rest : to_hex xs ≡ to_hex ys = cc in
    let same_high = hex_digit_injective (x / 16) (y / 16) (omega arith) (omega arith) high in
    let same_low = hex_digit_injective (x % 16) (y % 16) (omega arith) (omega arith) low in
    let same : x ≡ y = omega (arith, same_high, same_low) in
    ap (λ z. z ∷ xs) same ∙ ap (λ t. y ∷ t) (to_hex_injective xs ys p q rest)

digest_bytes_bound : (words : List ℕ) → All (λ byte. byte < 256) (digest_bytes words)
digest_bytes_bound [] = tt
digest_bytes_bound (word ∷ words) =
    (omega arith, (omega arith, (omega arith, (omega arith, digest_bytes_bound words))))

sha256_digest_bound : (message : Bytes) → All (λ byte. byte < 256) (sha256_digest message)
unfolding sha256_digest finalize
sha256_digest_bound message = digest_bytes_bound (padded (update reset message)).state

pub sha256_hex_sound :
    (xs ys : Bytes) → sha256_hex xs ≡ sha256_hex ys → fips_digest xs ≡ fips_digest ys
unfolding sha256_hex
sha256_hex_sound xs ys h =
    sym (sha256_digest-fips_digest xs)
    ∙ to_hex_injective (sha256_digest xs) (sha256_digest ys) (sha256_digest_bound xs)
        (sha256_digest_bound ys) h
    ∙ sha256_digest-fips_digest ys

pub sha256_hex_complete :
    (xs ys : Bytes) → fips_digest xs ≡ fips_digest ys → sha256_hex xs ≡ sha256_hex ys
unfolding sha256_hex
sha256_hex_complete xs ys h =
    ap to_hex (sha256_digest-fips_digest xs ∙ h ∙ sym (sha256_digest-fips_digest ys))
