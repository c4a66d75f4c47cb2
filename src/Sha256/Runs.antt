-- ===== src/Sha256/Runs.antt =====
-- Tests of src/verify/sha256.cpp.
use tftp_stress_test.Common.{◌≡◌, refl, text}
use tftp_stress_test.Sha256.{
  process_block, take_bytes, update_loop, update, pad_zeros, padded, finalize, sha256_digest,
  to_hex, sha256_hex,
}
use tftp_stress_test.Sha256.Fips.{fips_digest}
use tftp_stress_test.Sha256.Agree.{sha256_digest-fips_digest}

-- The digest of "abc" in FIPS 180-2.
abc_digest :
    sha256_hex (text "abc")
    ≡ text "ba7816bf8f01cfea414140de5dae2223b00361a396177a9cb410ff61f20015ad"
unfolding process_block take_bytes update_loop update pad_zeros padded finalize sha256_digest to_hex
    sha256_hex text
abc_digest = refl

sha256_digest-fips_digest_example : sha256_digest (text "abc") ≡ fips_digest (text "abc")
sha256_digest-fips_digest_example = sha256_digest-fips_digest (text "abc")
