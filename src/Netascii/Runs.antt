-- ===== src/Netascii/Runs.antt =====
-- Tests of the models of src/net/netascii.cpp, and the theorems at concrete inputs.
use tftp_stress_test.Common.{◌≡◌, refl, [], ◌∷◌, arith}
use tftp_stress_test.Netascii.{encode_local_to_netascii, decode_netascii_to_local}
use tftp_stress_test.Netascii.Laws.{join_line_ends, decode-encode, encode-decode}

-- A line end after the letter, and a lone CR.
two_ends : encode_local_to_netascii (97 ∷ 10 ∷ 13 ∷ []) ≡ 97 ∷ 13 ∷ 10 ∷ 13 ∷ 0 ∷ []
unfolding encode_local_to_netascii
two_ends = refl

decode-encode_example :
    decode_netascii_to_local (encode_local_to_netascii (13 ∷ 13 ∷ 10 ∷ [])) ≡ 13 ∷ 10 ∷ []
unfolding join_line_ends
decode-encode_example = decode-encode (13 ∷ 13 ∷ 10 ∷ [])

encode-decode_example :
    encode_local_to_netascii (decode_netascii_to_local (97 ∷ 13 ∷ 10 ∷ 13 ∷ 0 ∷ []))
    ≡ 97 ∷ 13 ∷ 10 ∷ 13 ∷ 0 ∷ []
unfolding decode_netascii_to_local
encode-decode_example = encode-decode (97 ∷ 13 ∷ 10 ∷ 13 ∷ 0 ∷ []) (ground arith) (ground arith)
