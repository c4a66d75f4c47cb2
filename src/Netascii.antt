-- ===== src/Netascii.antt =====
-- src/net/netascii.cpp: end-of-line translation between local text and the netascii wire form.
pub mod Laws
mod Runs
use tftp_stress_test.Common.{ℕ, List, [], ◌∷◌, Bytes, ◌==◌, if◌then◌else◌}

abbrev pub carriage_return : ℕ
carriage_return = 0x0D

abbrev pub line_feed : ℕ
line_feed = 0x0A

abbrev pub nul : ℕ
nul = 0x00

-- The loop over `local_bytes`: the rest of the list stands for the index `i`. A CR before an LF is kept
-- with it, any other CR is followed by NUL.
unfoldable pub encode_local_to_netascii : Bytes → Bytes
encode_local_to_netascii [] = []
encode_local_to_netascii (byte ∷ []) =
    if byte == line_feed
    then carriage_return ∷ line_feed ∷ []
    else if byte == carriage_return
    then carriage_return ∷ nul ∷ []
    else byte ∷ []
encode_local_to_netascii (byte ∷ following ∷ rest) =
    let after_pair = encode_local_to_netascii rest in
    let after_byte = encode_local_to_netascii (following ∷ rest) in
    if byte == line_feed
    then carriage_return ∷ line_feed ∷ after_byte
    else if byte == carriage_return
    then (if following == line_feed
        then carriage_return ∷ line_feed ∷ after_pair
        else carriage_return ∷ nul ∷ after_byte)
    else byte ∷ after_byte

-- CR LF is a line end, CR NUL a lone CR, and any other CR is passed through.
unfoldable pub decode_netascii_to_local : Bytes → Bytes
decode_netascii_to_local [] = []
decode_netascii_to_local (byte ∷ []) = byte ∷ []
decode_netascii_to_local (byte ∷ following ∷ rest) =
    let after_pair = decode_netascii_to_local rest in
    let after_byte = decode_netascii_to_local (following ∷ rest) in
    if byte == carriage_return
    then (if following == line_feed
        then line_feed ∷ after_pair
        else if following == nul
        then carriage_return ∷ after_pair
        else carriage_return ∷ after_byte)
    else byte ∷ after_byte
