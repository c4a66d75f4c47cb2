-- ===== src/Oracle.antt =====
-- src/verify/content_oracle.cpp: what was delivered against its source. What `read_file` finds is a parameter.
pub mod Laws
mod Runs
use tftp_stress_test.Common.{
  Bool, true, false, Option, none, some, List, [], ◌∷◌, ◌++◌, ℕ, Bytes, text, to_string, same_bytes,
  if◌then◌else◌, length,
}
use tftp_stress_test.Netascii.{encode_local_to_netascii, decode_netascii_to_local}
use tftp_stress_test.Sha256.{sha256_hex}

pub data IntegrityVerdict : Type 0 where
  matches mismatch missing_artifact : IntegrityVerdict

pub record IntegrityResult : Type 0 where
  pub verdict : IntegrityVerdict
  pub source_hash : Bytes
  pub delivered_hash : Bytes
  pub source_size : ℕ
  pub delivered_size : ℕ
  pub detail : Bytes

-- A netascii transfer preserves the normalised text.
unfoldable pub reference_content : Bytes → Bool → Bytes
reference_content source netascii =
    if netascii then decode_netascii_to_local (encode_local_to_netascii source) else source

unfoldable pub compare_bytes : Bytes → Bytes → Bool → IntegrityResult
compare_bytes source delivered netascii =
    let reference = reference_content source netascii in
    let compared : IntegrityResult = record {
      verdict = mismatch;
      source_hash = sha256_hex reference;
      delivered_hash = sha256_hex delivered;
      source_size = length reference;
      delivered_size = length delivered;
      detail = [];
    } in
    if same_bytes compared.source_hash compared.delivered_hash
    then record compared {
      verdict = matches;
      detail = text "delivered bytes match the source fingerprint";
    }
    else record compared {
      detail =
          text "delivered bytes DIFFER from the source ("
          ++ to_string compared.source_size
          ++ text " source bytes vs "
          ++ to_string compared.delivered_size
          ++ text " delivered bytes)";
    }

abbrev missing : Bytes → IntegrityResult
missing detail = record {
  verdict = missing_artifact;
  source_hash = [];
  delivered_hash = [];
  source_size = 0;
  delivered_size = 0;
  detail = detail;
}

-- A file is its path with what reading it gives.
unfoldable pub compare_files : Bytes × Option Bytes → Bytes × Option Bytes → Bool → IntegrityResult
compare_files (source_path, none) (delivered_path, delivered) netascii =
    missing (text "source artifact missing: " ++ source_path)
compare_files (source_path, some source) (delivered_path, none) netascii =
    missing (text "delivered artifact missing: " ++ delivered_path)
compare_files (source_path, some source) (delivered_path, some delivered) netascii =
    compare_bytes source delivered netascii
