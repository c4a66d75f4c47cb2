-- ===== src/Engine/Client/Patience.antt =====
-- The request loop of adapters/reference/tftp_reference_engine.cpp ends, and what `read_file` stores.
use tftp_stress_test.Common.{
  ℕ, zero, suc, ◌≤◌, ◌≡◌, ◌≢◌, Bool, true, List, [], ◌∷◌, some, arith, Bytes, if◌then◌else◌, length,
  Option-cases, inl, inr,
}
use tftp_stress_test.Netascii.{decode_netascii_to_local}
use tftp_stress_test.Engine.{Datagram, Reception, NegotiatedParameters, TransferOutcome}
use tftp_stress_test.Engine.Client.{
  awaited, first_reply, send_request, returns, store_received, mode_is_netascii,
}

-- The request is sent at most once per attempt, and after as many receptions as attempts the loop has ended.
pub send_request_ends :
    (request : Datagram) (attempts : ℕ) (receptions : List Reception)
    → (length (send_request request attempts receptions).sends ≤ attempts)
      × (attempts ≤ length receptions → (send_request request attempts receptions).reply ≢ awaited)
unfolding send_request
send_request_ends request zero receptions = (omega arith, λ h e. cc)
send_request_ends request (suc attempts) [] = (omega arith, λ h e. absurd (omega arith))
send_request_ends request (suc attempts) (reception ∷ rest) =
    let (few, ended) = send_request_ends request attempts rest in
    elim (Option-cases (first_reply reception)) [
      | inl e ↦ rw (send_request, e) (omega (arith, few), λ h. ended (omega arith))
      | inr ((packet, sender), e) ↦ rw (send_request, e) (omega arith, λ h f. cc)
    ]

-- If a content is stored, then the receiver completed, the content is what it received, decoded in netascii
-- mode, and the call returns the receiver's success.
pub store_received-written :
    (writable : Bytes → Bool) (mode sink bytes : Bytes) (params : NegotiatedParameters)
    (sends : List Datagram) (outcome : TransferOutcome)
    → (store_received writable mode params sends sink outcome).written ≡ some bytes
    → (outcome.completed_successfully ≡ true)
      × (bytes ≡ (if mode_is_netascii mode then decode_netascii_to_local sink else sink))
      × ((store_received writable mode params sends sink outcome).result
          ≡ returns (record outcome { negotiated = params }))
unfolding store_received
store_received-written writable mode sink bytes params sends outcome h = ground arith
