-- ===== src/Engine/Server/Requests.antt =====
-- What `ReferenceServer` (adapters/reference/tftp_reference_engine.cpp) serves and stores.
use tftp_stress_test.Common.{
  ◌≡◌, refl, true, false, ◌&&◌, List, [], ◌∷◌, Option, none, some, arith, Bytes, length, take,
  Bool-cases, Option-cases, inl, inr,
}
use tftp_stress_test.Packet.{TftpPacket}
use tftp_stress_test.Packet.{read_request, write_request}
use tftp_stress_test.Packet.Parse.{ParseResult, success, failure, out_of_rounds, parse_tftp_packet}
use tftp_stress_test.Engine.{
  no_datagram, receive_failed, datagram_from, Endpoint, Datagram, Reception, EngineConfig,
  TransferOutcome,
}
use tftp_stress_test.Common.{sym, ap, ◌⊎◌}
use tftp_stress_test.Engine.Server.{
  accepted_request, accept_request, Files, is_below, resolve_served_path, bytes_eq, store_upload,
  upload_result, accept_upload, serve_write,
}

bytes_eq→eq : (s t : Bytes) → bytes_eq s t ≡ true → s ≡ t
unfolding bytes_eq
bytes_eq→eq [] [] h = refl
bytes_eq→eq [] (b ∷ t) h = cc
bytes_eq→eq (a ∷ s) [] h = cc
bytes_eq→eq (a ∷ s) (b ∷ t) h = ground (arith, bytes_eq→eq s t)

-- A path that is served or stored starts with the canonical root, as a text.
pub resolve_served_path-root :
    (files : Files) (filename path : Bytes)
    → resolve_served_path files filename ≡ some path
    → take (length files.root) path ≡ files.root
unfolding resolve_served_path is_below
resolve_served_path-root files filename path h =
    ground (arith, bytes_eq→eq (take (length files.root) path) files.root)

store_upload-written :
    (files : Files) (path mode : Bytes) (sends : List Datagram) (sink : Bytes)
    (outcome : TransferOutcome) (stored bytes : Bytes)
    → (store_upload files path mode sends sink outcome).written ≡ some (stored, bytes)
    → (stored ≡ path) × (outcome.completed_successfully ≡ true)
unfolding store_upload
store_upload-written files path mode sends sink outcome stored bytes h = ground arith

-- The transfer is over or not; the rest of the write branch, as a function of that.
upload_result-written :
    (files : Files) (path mode : Bytes) (sends : List Datagram) (sink : Bytes)
    (returned : Option TransferOutcome) (stored bytes : Bytes)
    → (upload_result files path mode sends sink returned).written ≡ some (stored, bytes)
    → stored ≡ path
upload_result-written files path mode sends sink none stored bytes h = cc
upload_result-written files path mode sends sink (some outcome) stored bytes h =
    (store_upload-written files path mode sends sink outcome stored bytes h).0

-- What a write request stores, it stores at the resolved path of its file name, below the root as a text, and
-- where overwriting is rejected only if nothing exists there.
pub serve_write-written :
    (files : Files) (config : EngineConfig) (client : Endpoint) (request : TftpPacket)
    (receptions : List Reception) (stored bytes : Bytes)
    → (serve_write files config client request receptions).written ≡ some (stored, bytes)
    → (resolve_served_path files request.filename ≡ some stored)
      × (take (length files.root) stored ≡ files.root)
      × (config.reject_overwrite_on_write_request && files.exists stored ≡ false)
unfolding serve_write accept_upload
serve_write-written files config client request receptions stored bytes h =
    elim (Option-cases (resolve_served_path files request.filename)) [
      | inl e ↦ let bad = rw (serve_write, e) at h in cc
      | inr (path, e) ↦
          elim (Bool-cases (config.reject_overwrite_on_write_request && files.exists path)) [
            | inl f ↦ let bad = rw (serve_write, e, f) at h in cc
            | inr f ↦
                let same =
                  upload_result-written files path request.mode _ _ _ stored bytes
                    (rw (serve_write, e, f) at h) in
                rw same (e, resolve_served_path-root files request.filename path e, f)
          ]
    ]

accepted_cases :
    (packet : TftpPacket) (client : Endpoint) (request : TftpPacket) (sender : Endpoint)
    → accepted_request client (success packet) ≡ some (request, sender)
    → (success packet ≡ success request)
      × (sender ≡ client)
      × ((request.opcode ≡ read_request) ⊎ (request.opcode ≡ write_request))
accepted_cases packet client request sender h = ground arith

accepted_request_source :
    (client : Endpoint) (parsed : ParseResult TftpPacket) (request : TftpPacket) (sender : Endpoint)
    → accepted_request client parsed ≡ some (request, sender)
    → (parsed ≡ success request)
      × (sender ≡ client)
      × ((request.opcode ≡ read_request) ⊎ (request.opcode ≡ write_request))
accepted_request_source client (success packet) request sender h =
    accepted_cases packet client request sender h
accepted_request_source client (failure reason) request sender h = cc
accepted_request_source client out_of_rounds request sender h = cc

-- What is handed to a handler was parsed from a datagram of the stated sender, and is a read or write request.
pub accept_request_source :
    (reception : Reception) (request : TftpPacket) (client : Endpoint)
    → accept_request reception ≡ some (request, client)
    → (bytes : Bytes) × (reception ≡ datagram_from client bytes)
      × (parse_tftp_packet bytes ≡ success request)
      × ((request.opcode ≡ read_request) ⊎ (request.opcode ≡ write_request))
unfolding accept_request
accept_request_source no_datagram request client h = cc
accept_request_source receive_failed request client h = cc
accept_request_source (datagram_from sender []) request client h = cc
accept_request_source (datagram_from sender (b ∷ bytes)) request client h =
    let (parsed, same, kind) = accepted_request_source sender _ request client h in
    (b ∷ bytes, ap (λ e. datagram_from e (b ∷ bytes)) (sym same), parsed, kind)
