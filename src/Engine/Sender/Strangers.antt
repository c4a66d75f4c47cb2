-- ===== src/Engine/Sender/Strangers.antt =====
-- What `run_data_sender` (adapters/reference/tftp_reference_engine.cpp) makes of an empty datagram.
use tftp_stress_test.Common.{
  ℕ, zero, suc, ◌+◌, ◌-◌, ◌≤◌, ◌<◌, ◌≡◌, refl, subst, ap, ◌∙◌, [], ◌++◌, none, inl, inr,
  Option-cases, replicate,
}
use tftp_stress_test.Engine.{Endpoint, Reception, no_datagram, datagram_from, Step, run_steps}
use tftp_stress_test.Engine.Receive.{receive_from_locked_peer}
use tftp_stress_test.Engine.Sender.{SenderCall, SenderState, sender_on_reception}
use tftp_stress_test.Engine.Sender.Patience.{TimesOut, sender_gives_up}

-- Two receptions to which a loop reacts alike can stand for one another.
run_steps_same :
    {S : Type 0} (on : S → Reception → Step S) (r r' : Reception)
    → ((s : S) → on s r ≡ on s r')
    → (n : ℕ) (step : Step S)
    → run_steps on step (replicate n r) ≡ run_steps on step (replicate n r')
unfolding run_steps
run_steps_same on r r' same zero step = refl
run_steps_same on r r' same (suc n) step = elim (Option-cases step.returned) [
  | inl e ↦
      rw (run_steps, e)
        (run_steps_same on r r' same n
            (record (on step.state r) { sends = step.sends ++ (on step.state r).sends })
          ∙ ap (λ x. run_steps on (record x { sends = step.sends ++ x.sends }) (replicate n r'))
              (same step.state))
  | inr (outcome, e) ↦ rw (run_steps, e) refl
]

empty_is_timeout :
    (c : SenderCall) (stranger : Endpoint) (s : SenderState)
    → sender_on_reception c s no_datagram ≡ sender_on_reception c s (datagram_from stranger [])
unfolding sender_on_reception receive_from_locked_peer
empty_is_timeout c stranger s = refl

-- Empty datagrams are taken for timeouts, whoever sends them: if the transfer is not complete and the timeouts
-- so far are within the limit, as many empty datagrams of any endpoint as go over the limit make the sender
-- return, without success and with `timed_out`.
pub empty_datagrams_stop_sender :
    (c : SenderCall) (s : SenderState) (stranger : Endpoint)
    → s.last_acked < c.total_blocks
    → s.consecutive_timeouts ≤ c.config.maximum_retransmissions
    → TimesOut
        (run_steps
          (sender_on_reception c)
          (record { sends = []; state = s; returned = none })
          (replicate
            (c.config.maximum_retransmissions + 1 - s.consecutive_timeouts)
            (datagram_from stranger []))).returned
empty_datagrams_stop_sender c s stranger more limit =
    subst (λ (step : Step SenderState). TimesOut step.returned)
      (run_steps_same (sender_on_reception c) no_datagram (datagram_from stranger [])
        (empty_is_timeout c stranger)
        (c.config.maximum_retransmissions + 1 - s.consecutive_timeouts)
        (record { sends = []; state = s; returned = none }))
      (sender_gives_up c s more limit)
