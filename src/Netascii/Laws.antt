-- ===== src/Netascii/Laws.antt =====
-- What the two translations of src/net/netascii.cpp keep.
use tftp_stress_test.Common.{
  ℕ, ◌*◌, ◌≤◌, ◌≡◌, refl, ap, subst, ◌≢◌, ◌∙◌, ◌⊎◌, inl, inr, [], ◌∷◌, arith, Bytes, ◌==◌,
  Bool-cases, if◌then◌else◌, length,
}
use tftp_stress_test.Netascii.{
  carriage_return, line_feed, nul, encode_local_to_netascii, decode_netascii_to_local,
}

-- Local text in which each CR LF pair, read from the left, has become a single LF.
unfoldable pub join_line_ends : Bytes → Bytes
join_line_ends [] = []
join_line_ends (byte ∷ []) = byte ∷ []
join_line_ends (byte ∷ following ∷ rest) =
    let after_pair = join_line_ends rest in
    let after_byte = join_line_ends (following ∷ rest) in
    if byte == carriage_return
    then (if following == line_feed then line_feed ∷ after_pair else carriage_return ∷ after_byte)
    else byte ∷ after_byte

-- Wire bytes in which every CR is followed by LF or NUL, and every LF follows a CR.
abbrev pub IsNetascii : Bytes → Type 0
IsNetascii [] = Unit {0}
IsNetascii (byte ∷ []) = (byte ≢ carriage_return) × (byte ≢ line_feed)
IsNetascii (byte ∷ following ∷ rest) =
    ((byte ≡ carriage_return) × ((following ≡ line_feed) ⊎ (following ≡ nul)) × IsNetascii rest)
    ⊎ ((byte ≢ carriage_return) × (byte ≢ line_feed) × IsNetascii (following ∷ rest))

IsNetascii-plain :
    (byte : ℕ) (wire : Bytes)
    → byte ≢ carriage_return
    → byte ≢ line_feed
    → IsNetascii wire
    → IsNetascii (byte ∷ wire)
IsNetascii-plain byte [] nc nl h = (nc, nl)
IsNetascii-plain byte (following ∷ rest) nc nl h = inr (nc, nl, h)

line_end : (wire : Bytes) → IsNetascii wire → IsNetascii (carriage_return ∷ line_feed ∷ wire)
line_end wire h = inl (refl, inl refl, h)

lone_return : (wire : Bytes) → IsNetascii wire → IsNetascii (carriage_return ∷ nul ∷ wire)
lone_return wire h = inl (refl, inr refl, h)

-- Every encoding is well-formed netascii.
pub encode_local_to_netascii-IsNetascii :
    (local_bytes : Bytes) → IsNetascii (encode_local_to_netascii local_bytes)
unfolding encode_local_to_netascii
encode_local_to_netascii-IsNetascii [] = tt
encode_local_to_netascii-IsNetascii (byte ∷ []) =
    ground (arith, line_end [], lone_return [], IsNetascii-plain byte [])
encode_local_to_netascii-IsNetascii (byte ∷ following ∷ rest) =
    let after_pair = encode_local_to_netascii rest in
    let after_byte = encode_local_to_netascii (following ∷ rest) in
    let pair_ih = encode_local_to_netascii-IsNetascii rest in
    let byte_ih = encode_local_to_netascii-IsNetascii (following ∷ rest) in
    elim (Bool-cases (byte == line_feed)) [
      | inl e ↦ rw e (line_end _ byte_ih)
      | inr n ↦ elim (Bool-cases (byte == carriage_return)) [
        | inl e ↦ elim (Bool-cases (following == line_feed)) [
          | inl f ↦ rw (n, e, f) (line_end _ pair_ih)
          | inr f ↦ rw (n, e, f) (lone_return _ byte_ih)
        ]
        | inr m ↦ rw (n, m) (IsNetascii-plain byte _ (ground arith) (ground arith) byte_ih)
      ]
    ]

-- An encoding is at most twice as long as the text.
pub length-encode_local_to_netascii :
    (local_bytes : Bytes)
    → (length local_bytes ≤ length (encode_local_to_netascii local_bytes))
      × (length (encode_local_to_netascii local_bytes) ≤ 2 * length local_bytes)
unfolding encode_local_to_netascii
length-encode_local_to_netascii [] = omega arith
length-encode_local_to_netascii (byte ∷ []) = ground arith
length-encode_local_to_netascii (byte ∷ following ∷ rest) = ground (
  arith,
  length-encode_local_to_netascii rest,
  length-encode_local_to_netascii (following ∷ rest),
)

-- Decoding an encoding gives back the local text with each CR LF pair as a single LF.
pub decode-encode :
    (local_bytes : Bytes)
    → decode_netascii_to_local (encode_local_to_netascii local_bytes) ≡ join_line_ends local_bytes
unfolding encode_local_to_netascii decode_netascii_to_local join_line_ends
decode-encode [] = refl
decode-encode (byte ∷ []) = ground arith
decode-encode (byte ∷ following ∷ rest) =
    ground (arith, decode-encode rest, decode-encode (following ∷ rest))

-- No CR stands directly before an LF.
abbrev pub NoReturnPair : Bytes → Type 0
NoReturnPair [] = Unit {0}
NoReturnPair (byte ∷ []) = Unit {0}
NoReturnPair (byte ∷ following ∷ rest) =
    (byte ≡ carriage_return → following ≢ line_feed) × NoReturnPair (following ∷ rest)

join_line_ends_same :
    (local_bytes : Bytes) → NoReturnPair local_bytes → join_line_ends local_bytes ≡ local_bytes
unfolding join_line_ends
join_line_ends_same [] h = refl
join_line_ends_same (byte ∷ []) h = refl
join_line_ends_same (byte ∷ following ∷ rest) h =
    ground (arith, h.0, join_line_ends_same (following ∷ rest) h.1)

-- Local text with no CR directly before an LF survives the round trip unchanged.
pub decode-encode_same :
    (local_bytes : Bytes)
    → NoReturnPair local_bytes
    → decode_netascii_to_local (encode_local_to_netascii local_bytes) ≡ local_bytes
decode-encode_same local_bytes h = decode-encode local_bytes ∙ join_line_ends_same local_bytes h

encode_line_feed :
    (text : Bytes)
    → encode_local_to_netascii (line_feed ∷ text)
      ≡ carriage_return ∷ line_feed ∷ encode_local_to_netascii text
unfolding encode_local_to_netascii
encode_line_feed [] = refl
encode_line_feed (byte ∷ text) = refl

encode_return :
    (text : Bytes)
    → NoReturnPair (carriage_return ∷ text)
    → encode_local_to_netascii (carriage_return ∷ text)
      ≡ carriage_return ∷ nul ∷ encode_local_to_netascii text
unfolding encode_local_to_netascii
encode_return [] h = refl
encode_return (byte ∷ text) h = ground (arith, h.0 refl)

encode_plain :
    (byte : ℕ) (text : Bytes)
    → byte ≢ carriage_return
    → byte ≢ line_feed
    → encode_local_to_netascii (byte ∷ text) ≡ byte ∷ encode_local_to_netascii text
unfolding encode_local_to_netascii
encode_plain byte [] nc nl = ground arith
encode_plain byte (following ∷ text) nc nl = ground arith

decode_plain :
    (byte following : ℕ) (rest : Bytes)
    → byte ≢ carriage_return
    → decode_netascii_to_local (byte ∷ following ∷ rest)
      ≡ byte ∷ decode_netascii_to_local (following ∷ rest)
unfolding decode_netascii_to_local
decode_plain byte following rest nc = ground arith

decode_line_end :
    (rest : Bytes)
    → decode_netascii_to_local (carriage_return ∷ line_feed ∷ rest)
      ≡ line_feed ∷ decode_netascii_to_local rest
unfolding decode_netascii_to_local
decode_line_end rest = refl

decode_lone_return :
    (rest : Bytes)
    → decode_netascii_to_local (carriage_return ∷ nul ∷ rest)
      ≡ carriage_return ∷ decode_netascii_to_local rest
unfolding decode_netascii_to_local
decode_lone_return rest = refl

NoReturnPair-tail : (byte : ℕ) (text : Bytes) → NoReturnPair (byte ∷ text) → NoReturnPair text
NoReturnPair-tail byte [] h = tt
NoReturnPair-tail byte (following ∷ text) h = h.1

-- Well-formed netascii whose decoding has no CR directly before an LF is the encoding of its decoding.
pub encode-decode :
    (wire : Bytes)
    → IsNetascii wire
    → NoReturnPair (decode_netascii_to_local wire)
    → encode_local_to_netascii (decode_netascii_to_local wire) ≡ wire
encode-decode [] w h = unfold encode_local_to_netascii decode_netascii_to_local in refl
encode-decode (byte ∷ []) w h =
    unfold decode_netascii_to_local encode_local_to_netascii in ground arith
encode-decode (byte ∷ following ∷ rest) (inl (e, inl f, w)) h =
    let e' : byte ∷ following ∷ rest ≡ carriage_return ∷ line_feed ∷ rest = rw (e, f) in
    let h' : NoReturnPair (line_feed ∷ decode_netascii_to_local rest) =
      subst NoReturnPair (ap decode_netascii_to_local e' ∙ decode_line_end rest) h in
    rw (e, f, decode_line_end rest, encode_line_feed (decode_netascii_to_local rest))
      (ap (λ t. carriage_return ∷ line_feed ∷ t) (encode-decode rest w (NoReturnPair-tail _ _ h')))
encode-decode (byte ∷ following ∷ rest) (inl (e, inr f, w)) h =
    let e' : byte ∷ following ∷ rest ≡ carriage_return ∷ nul ∷ rest = rw (e, f) in
    let h' : NoReturnPair (carriage_return ∷ decode_netascii_to_local rest) =
      subst NoReturnPair (ap decode_netascii_to_local e' ∙ decode_lone_return rest) h in
    rw (e, f, decode_lone_return rest, encode_return (decode_netascii_to_local rest) h')
      (ap (λ t. carriage_return ∷ nul ∷ t) (encode-decode rest w (NoReturnPair-tail _ _ h')))
encode-decode (byte ∷ following ∷ rest) (inr (nc, nl, w)) h =
    let h' : NoReturnPair (byte ∷ decode_netascii_to_local (following ∷ rest)) =
      subst NoReturnPair (decode_plain byte following rest nc) h in
    rw
      (
        decode_plain byte following rest nc,
        encode_plain byte (decode_netascii_to_local (following ∷ rest)) nc nl,
      )
      (ap (λ t. byte ∷ t) (encode-decode (following ∷ rest) w (NoReturnPair-tail _ _ h')))
