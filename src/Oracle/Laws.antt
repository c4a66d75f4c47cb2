-- ===== src/Oracle/Laws.antt =====
-- What a verdict of src/verify/content_oracle.cpp says.
use tftp_stress_test.Common.{
  ◌≡◌, ◌≢◌, refl, sym, ap, ◌∙◌, arith, Bool, true, false, Option, none, some, [], ◌∷◌, Bytes,
  same_bytes, Bool-cases, inl, inr,
}
use tftp_stress_test.Netascii.Laws.{join_line_ends, decode-encode}
use tftp_stress_test.Sha256.{sha256_hex}
use tftp_stress_test.Sha256.Fips.{fips_digest}
use tftp_stress_test.Sha256.Hex.{sha256_hex_sound, sha256_hex_complete}
use tftp_stress_test.Oracle.{
  IntegrityVerdict, matches, mismatch, missing_artifact, reference_content, compare_bytes,
  compare_files,
}

same_bytes_refl : (xs : Bytes) → same_bytes xs xs ≡ true
same_bytes_refl [] = refl
same_bytes_refl (x ∷ xs) = ground (arith, same_bytes_refl xs)

same_bytes_sound : (xs ys : Bytes) → same_bytes xs ys ≡ true → xs ≡ ys
same_bytes_sound [] [] h = refl
same_bytes_sound [] (y ∷ ys) h = cc
same_bytes_sound (x ∷ xs) [] h = cc
same_bytes_sound (x ∷ xs) (y ∷ ys) h =
    let same : x ≡ y = ground (arith, h) in
    let rest = same_bytes_sound xs ys (ground (arith, h)) in
    ap (λ z. z ∷ xs) same ∙ ap (λ t. y ∷ t) rest

-- What a transfer keeps of a source: all of it, or in netascii the text with each CR LF pair as a single LF.
abbrev pub kept : Bytes → Bool → Bytes
kept source true = join_line_ends source
kept source false = source

reference_content-kept :
    (source : Bytes) (netascii : Bool) → reference_content source netascii ≡ kept source netascii
unfolding reference_content
reference_content-kept source true = decode-encode source
reference_content-kept source false = refl

-- What is known of the two files behind a verdict.
pub Justifies : IntegrityVerdict → Option Bytes → Option Bytes → Bool → Type 0
Justifies matches (some source) (some delivered) netascii =
    fips_digest (kept source netascii) ≡ fips_digest delivered
Justifies mismatch (some source) (some delivered) netascii =
    fips_digest (kept source netascii) ≢ fips_digest delivered
Justifies missing_artifact none delivered netascii = Unit
Justifies missing_artifact (some source) none netascii = Unit
Justifies _ _ _ _ = ⊥

compare_bytes-Justifies :
    (source delivered : Bytes) (netascii : Bool)
    → Justifies
        (compare_bytes source delivered netascii).verdict
        (some source)
        (some delivered)
        netascii
unfolding Justifies compare_bytes
compare_bytes-Justifies source delivered netascii =
    let reference = reference_content source netascii in
    let same_reference = ap fips_digest (reference_content-kept source netascii) in
    elim (Bool-cases (same_bytes (sha256_hex reference) (sha256_hex delivered))) [
      | inl e ↦
          let hashes = same_bytes_sound (sha256_hex reference) (sha256_hex delivered) e in
          rw e (sym same_reference ∙ sha256_hex_sound reference delivered hashes)
      | inr e ↦ rw e (λ same.
          let hashes = sha256_hex_complete reference delivered (same_reference ∙ same) in
          let equal : same_bytes (sha256_hex reference) (sha256_hex delivered) ≡ true =
            ap (λ d. same_bytes (sha256_hex reference) d) (sym hashes)
            ∙ same_bytes_refl (sha256_hex reference) in
          cc (equal, e))
    ]

-- The verdict on two files: `Match` only where the delivered bytes have the FIPS 180-4 digest of what the transfer keeps
-- of the source, `Mismatch` only where the two digests differ, and a missing artifact only where a file is not there. So
-- delivered bytes that are what the transfer keeps always match. In netascii a transfer keeps the source with each CR LF
-- pair as a single LF.
pub compare_files-Justifies :
    (source_path delivered_path : Bytes) (source delivered : Option Bytes) (netascii : Bool)
    → Justifies
        (compare_files (source_path, source) (delivered_path, delivered) netascii).verdict
        source
        delivered
        netascii
unfolding Justifies compare_files
compare_files-Justifies source_path delivered_path none delivered netascii = tt
compare_files-Justifies source_path delivered_path (some source) none netascii = tt
compare_files-Justifies source_path delivered_path (some source) (some delivered) netascii =
    compare_bytes-Justifies source delivered netascii
