-- ===== src/Engine/Client/Oack.antt =====
-- adapters/reference/tftp_reference_engine.cpp: `ReferenceClient::read_file` and `write_file` on an OACK that they cannot
-- apply.
use tftp_stress_test.Common.{
  ℕ, zero, suc, ◌+◌, ◌≤◌, ◌≡◌, ◌∙◌, refl, Bool, true, List, [], ◌∷◌, ◌++◌, none, some, arith, Bytes,
  length, Option-cases, inl, inr, All, if◌then◌else◌,
}
use tftp_stress_test.Netascii.{encode_local_to_netascii}
use tftp_stress_test.Packet.{TftpOption, TftpPacket, empty_packet, option_acknowledgement}
use tftp_stress_test.Packet.Serialize.{serialize_read_request, serialize_write_request}
use tftp_stress_test.Engine.{Datagram, EngineConfig, Endpoint, Reception}
use tftp_stress_test.Engine.Options.{
  OptionName, blksize, timeout, tsize, windowsize, ClientRequestedOptions,
  build_requested_option_list,
}
use tftp_stress_test.Engine.Options.Agree.{Asked, asked_value}
use tftp_stress_test.Engine.Options.Verdict.{
  IsAcceptable, IsUnrequested, IsMalformed, unrequested-rejected, malformed-thrown,
}
use tftp_stress_test.Engine.Client.{
  plain_parameters, replied, first_reply, send_request, ends, uncaught, rejects_oack,
  mode_is_netascii, read_file_after_reply, read_file,
}
use tftp_stress_test.Engine.Client.Upload.{
  write_file_after_reply, effective_options, write_payload, write_file,
}

-- An OACK with the options, as the parser reads it.
abbrev pub oack : List TftpOption → TftpPacket
oack options = record empty_packet { opcode = option_acknowledgement; options = options }

-- A reception that ends the request loop at the first attempt.
send_request_answered :
    (request : Datagram) (attempts : ℕ) (reception : Reception) (rest : List Reception)
    (reply : TftpPacket) (sender : Endpoint)
    → 1 ≤ attempts
    → first_reply reception ≡ some (reply, sender)
    → send_request request attempts (reception ∷ rest)
      ≡ record { sends = request ∷ []; reply = replied reply sender rest }
unfolding send_request
send_request_answered request zero reception rest reply sender h e = absurd (omega arith)
send_request_answered request (suc attempts) reception rest reply sender h e =
    rw (send_request, e) refl

effective-Asked :
    (name : OptionName) (requested : ClientRequestedOptions) (payload : Bytes)
    → Asked requested (some name)
    → Asked (effective_options requested payload) (some name)
unfolding effective_options
effective-Asked tsize requested payload (n, e) = rw e (length payload, refl)
effective-Asked blksize requested payload (n, e) = elim (Option-cases requested.transfer_size) [
  | inl f ↦ rw f (n, e)
  | inr (size, f) ↦ rw f (n, e)
]
effective-Asked timeout requested payload (n, e) = elim (Option-cases requested.transfer_size) [
  | inl f ↦ rw f (n, e)
  | inr (size, f) ↦ rw f (n, e)
]
effective-Asked windowsize requested payload (n, e) = elim (Option-cases requested.transfer_size) [
  | inl f ↦ rw f (n, e)
  | inr (size, f) ↦ rw f (n, e)
]

effective_not_asked :
    (name : OptionName) (requested : ClientRequestedOptions) (payload : Bytes)
    → asked_value name requested ≡ none
    → asked_value name (effective_options requested payload) ≡ none
unfolding effective_options
effective_not_asked tsize requested payload e = rw e refl
effective_not_asked blksize requested payload e = elim (Option-cases requested.transfer_size) [
  | inl f ↦ rw f e
  | inr (size, f) ↦ rw f e
]
effective_not_asked timeout requested payload e = elim (Option-cases requested.transfer_size) [
  | inl f ↦ rw f e
  | inr (size, f) ↦ rw f e
]
effective_not_asked windowsize requested payload e = elim (Option-cases requested.transfer_size) [
  | inl f ↦ rw f e
  | inr (size, f) ↦ rw f e
]

effective-IsAcceptable :
    (options : List TftpOption) (requested : ClientRequestedOptions) (payload : Bytes)
    → All (IsAcceptable requested) options
    → All (IsAcceptable (effective_options requested payload)) options
effective-IsAcceptable [] requested payload h = tt
effective-IsAcceptable (option ∷ rest) requested payload (here, h) = (
  record {
    name = here.name;
    value = here.value;
    known = here.known;
    asked = effective-Asked here.name requested payload here.asked;
    readable = here.readable;
  },
  effective-IsAcceptable rest requested payload h,
)

effective-IsMalformed :
    (option : TftpOption) (requested : ClientRequestedOptions) (payload : Bytes)
    → IsMalformed requested option
    → IsMalformed (effective_options requested payload) option
effective-IsMalformed option requested payload h = record {
  name = h.name;
  known = h.known;
  asked = effective-Asked h.name requested payload h.asked;
  unreadable = h.unreadable;
}

-- The request that a download sends first.
abbrev pub read_request_of :
    EngineConfig → Endpoint → Bytes → Bytes → ClientRequestedOptions → Datagram
read_request_of config server name mode requested = record {
  destination = server;
  bytes = serialize_read_request name mode (build_requested_option_list requested config);
}

-- The request that an upload sends first, with the payload's size where a size is asked for.
abbrev pub write_request_of :
    EngineConfig → Endpoint → Bytes → Bytes → ClientRequestedOptions → Bytes → Datagram
write_request_of config server name mode requested payload = record {
  destination = server;
  bytes =
      serialize_write_request name mode
        (build_requested_option_list (effective_options requested payload) config);
}

-- What an upload sends of a file's bytes.
abbrev pub payload_of : Bytes → Bytes → Bytes
payload_of mode file = if mode_is_netascii mode then encode_local_to_netascii file else file

module _ (writable : Bytes → Bool) (config : EngineConfig) (server sender : Endpoint)
    (name mode file : Bytes) (requested : ClientRequestedOptions) (front back : List TftpOption)
    (option : TftpOption) (reception : Reception) (rest : List Reception) where
  -- Both calls, when the first reply is an OACK.
  read_file-oack :
      first_reply reception ≡ some (oack (front ++ option ∷ back), sender)
      → read_file true writable config server name mode requested (reception ∷ rest)
        ≡ read_file_after_reply writable config mode requested
            (read_request_of config server name mode requested ∷ [])
            (oack (front ++ option ∷ back))
            sender
            rest
  unfolding read_file
  read_file-oack answered =
      let e =
        send_request_answered (read_request_of config server name mode requested)
          (config.maximum_retransmissions + 1) reception rest _ sender (omega arith) answered in
      rw (e, e) refl

  write_file-oack :
      first_reply reception ≡ some (oack (front ++ option ∷ back), sender)
      → write_file true (some file) config server name mode requested (reception ∷ rest)
        ≡ write_file_after_reply config
            (payload_of mode file)
            (effective_options requested (payload_of mode file))
            (write_request_of config server name mode requested (payload_of mode file) ∷ [])
            (oack (front ++ option ∷ back))
            sender
            rest
  unfolding write_file write_payload
  write_file-oack answered =
      let e =
        send_request_answered
          (write_request_of config server name mode requested (payload_of mode file))
          (config.maximum_retransmissions + 1) reception rest _ sender (omega arith) answered in
      rw (e, e) refl

  -- The socket opens, the file to upload can be read, and the first thing received is an OACK with an option that the
  -- client has not asked for or does not know, at any place behind options that it has asked for and can read. Then the
  -- download and the upload both send ERROR 8 to the OACK's sender behind the request and nothing else, store nothing,
  -- and return a failed outcome with that error.
  pub unrequested_option_rejected :
      first_reply reception ≡ some (oack (front ++ option ∷ back), sender)
      → All (IsAcceptable requested) front
      → IsUnrequested requested option
      → ((reason : Bytes) × (read_file true writable config server name mode requested
              (reception ∷ rest)
            ≡ rejects_oack sender (read_request_of config server name mode requested ∷ []) reason))
        × ((reason : Bytes) × (write_file true
                (some file)
                config
                server
                name
                mode
                requested
                (reception ∷ rest)
              ≡ rejects_oack sender
                  (write_request_of config server name mode requested (payload_of mode file) ∷ [])
                  reason))
  unfolding read_file_after_reply write_file_after_reply
  unrequested_option_rejected answered accepted h =
      let payload = payload_of mode file in
      let (read_reason, e) =
        unrequested-rejected front back option requested (plain_parameters config) accepted h in
      let (write_reason, f) =
        unrequested-rejected front back option (effective_options requested payload)
          (plain_parameters config) (effective-IsAcceptable front requested payload accepted)
          (λ known spelled. effective_not_asked known requested payload (h known spelled)) in
      (
        (read_reason, read_file-oack answered ∙ (rw e refl)),
        (write_reason, write_file-oack answered ∙ (rw f refl)),
      )

  -- The socket opens, the file to upload can be read, and the first thing received is an OACK with an option that the
  -- client has asked for and whose value `std::stoul` does not read, at any place behind options that it has asked for and
  -- can read. Then an exception leaves the download and the upload: only the request has been sent, no ERROR goes to the
  -- server, and nothing is stored.
  pub malformed_oack_throws :
      first_reply reception ≡ some (oack (front ++ option ∷ back), sender)
      → All (IsAcceptable requested) front
      → IsMalformed requested option
      → (read_file true writable config server name mode requested (reception ∷ rest)
          ≡ ends (read_request_of config server name mode requested ∷ []) uncaught)
        × (write_file true (some file) config server name mode requested (reception ∷ rest)
            ≡ ends
                (write_request_of config server name mode requested (payload_of mode file) ∷ [])
                uncaught)
  unfolding read_file_after_reply write_file_after_reply
  malformed_oack_throws answered accepted h =
      let payload = payload_of mode file in
      let e = malformed-thrown front back option requested (plain_parameters config) accepted h in
      let f =
        malformed-thrown front back option (effective_options requested payload)
          (plain_parameters config) (effective-IsAcceptable front requested payload accepted)
          (effective-IsMalformed option requested payload h) in
      (read_file-oack answered ∙ (rw e refl), write_file-oack answered ∙ (rw f refl))
