-- ===== src/Engine/Receiver/Patience.antt =====
-- When `run_data_receiver` (adapters/reference/tftp_reference_engine.cpp) gives up.
use tftp_stress_test.Common.{
  ℕ, zero, suc, ◌+◌, ◌-◌, ◌≤◌, ◌<◌, ◌≡◌, refl, sym, subst, List, [], ◌++◌, none, arith, lt→ltb,
  replicate,
}
use tftp_stress_test.Engine.{Datagram, no_datagram, Step, run_steps}
use tftp_stress_test.Engine.Receive.{timed_out, receive_from_locked_peer}
use tftp_stress_test.Engine.Receiver.{
  receiving, ReceiverCall, ReceiverState, receiver_outcome, receiver_on_timeout,
  receiver_on_received, receiver_on_reception,
}
use tftp_stress_test.Engine.Sender.Patience.{TimesOut}

on_timeout :
    (c : ReceiverCall) (s : ReceiverState)
    → s.phase ≡ receiving
    → receiver_on_reception c s no_datagram ≡ receiver_on_timeout c s
unfolding receiver_on_reception receiver_on_received receive_from_locked_peer
on_timeout c s phase =
    subst (λ p. receiver_on_received p c s timed_out ≡ receiver_on_timeout c s) (sym phase) refl

-- A timeout below the limit is counted, and the receiver goes on.
timeout_waits :
    (c : ReceiverCall) (s : ReceiverState)
    → s.consecutive_timeouts < c.config.maximum_retransmissions
    → ((receiver_on_timeout c s).returned ≡ none)
      × ((receiver_on_timeout c s).state
          ≡ record s { consecutive_timeouts = s.consecutive_timeouts + 1 })
unfolding receiver_on_timeout
timeout_waits c s below = ground arith

last_timeout :
    (c : ReceiverCall) (s : ReceiverState)
    → s.consecutive_timeouts ≡ c.config.maximum_retransmissions
    → TimesOut (receiver_on_timeout c s).returned
unfolding receiver_on_timeout receiver_outcome
last_timeout c s limit =
    rw (lt→ltb c.config.maximum_retransmissions (s.consecutive_timeouts + 1) (omega arith))
      (_, refl, refl, refl)

gives_up :
    (c : ReceiverCall) (sent : List Datagram) (s : ReceiverState) (left : ℕ)
    → s.phase ≡ receiving
    → s.consecutive_timeouts + left ≡ c.config.maximum_retransmissions
    → TimesOut
        (run_steps
          (receiver_on_reception c)
          (record { sends = sent; state = s; returned = none })
          (replicate (suc left) no_datagram)).returned
unfolding run_steps
gives_up c sent s zero phase limit = rw (on_timeout c s phase) (last_timeout c s (omega arith))
gives_up c sent s (suc left) phase limit =
    let (waits, same) = timeout_waits c s (omega arith) in
    let next = receiver_on_timeout c s in
    let rest =
      gives_up c (sent ++ next.sends)
        (record s { consecutive_timeouts = s.consecutive_timeouts + 1 }) left phase (omega arith) in
    subst
      (λ (x : Step ReceiverState).
        TimesOut
          (run_steps (receiver_on_reception c) (record x { sends = sent ++ x.sends })
            (replicate (suc left) no_datagram)).returned)
      (sym (on_timeout c s phase))
      (subst
        (λ r.
          TimesOut
            (run_steps (receiver_on_reception c)
              (record { sends = sent ++ next.sends; state = next.state; returned = r })
              (replicate (suc left) no_datagram)).returned)
        (sym waits)
        (subst
          (λ t.
            TimesOut
              (run_steps (receiver_on_reception c)
                (record { sends = sent ++ next.sends; state = t; returned = none })
                (replicate (suc left) no_datagram)).returned)
          (sym same) rest))

-- If the receiver still waits for a block and the timeouts so far are within the limit, then as many further
-- timeouts in a row as go over the limit make it return, without success and with `timed_out`.
pub receiver_gives_up :
    (c : ReceiverCall) (s : ReceiverState)
    → s.phase ≡ receiving
    → s.consecutive_timeouts ≤ c.config.maximum_retransmissions
    → TimesOut
        (run_steps
          (receiver_on_reception c)
          (record { sends = []; state = s; returned = none })
          (replicate
            (c.config.maximum_retransmissions + 1 - s.consecutive_timeouts)
            no_datagram)).returned
receiver_gives_up c s phase limit =
    let left = c.config.maximum_retransmissions - s.consecutive_timeouts in
    let e : c.config.maximum_retransmissions + 1 - s.consecutive_timeouts ≡ suc left =
      omega arith in
    rw e (gives_up c [] s left phase (omega arith))
