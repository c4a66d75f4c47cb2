-- ===== src/Proxy/Laws.antt =====
-- What src/net/impairment_proxy.cpp does with one datagram: what it records agrees with what it sends on.
use tftp_stress_test.Common.{
  ℕ, suc, ◌+◌, ltb, map, ◌≤◌, ◌<◌, ◌≡◌, inl, inr, refl, sym, ap, ◌∙◌, arith, leb, leb→le, Bool,
  true, false, List, [], ◌∷◌, ◌++◌, append_assoc, subst, Bytes, length, All, Bool-cases,
}
use tftp_stress_test.Double.{Double, IsDouble}
use tftp_stress_test.Engine.{Endpoint}
use tftp_stress_test.Observer.{
  Direction, TraceDisposition, delivered, dropped, corrupted, injected, is_data, is_peer_send,
}
use tftp_stress_test.Impairments.{DeliveryAction, PipelineResult, process}
use tftp_stress_test.Impairments.Laws.{Carried, IsDelivered, IsOutcome, process-IsOutcome}
use tftp_stress_test.Impairments.Off.{all_off, process-all_off}
use tftp_stress_test.Proxy.{
  SocketName, Session, ScheduledSend, TraceEntry, ProxyConfig, Proxy, flush_due_sends,
}
use tftp_stress_test.Proxy.Relay.{
  observed_entry, decided_entry, scheduled_send, sends_of, inject, run_injection, observe_and_relay,
}
use tftp_stress_test.Proxy.Injection.{Injections, inject-Adds}

-- The scheduled sends, each once and in order, are those that were due and those that are not.
pub data Splits (now : ℕ)
    : List ScheduledSend → List ScheduledSend → List ScheduledSend → Type 0 where
  none_left : Splits now [] [] []
  due :
      (send : ScheduledSend) (scheduled sent remaining : List ScheduledSend)
      → send.deadline ≤ now
      → Splits now scheduled sent remaining
      → Splits now (send ∷ scheduled) (send ∷ sent) remaining
  later :
      (send : ScheduledSend) (scheduled sent remaining : List ScheduledSend)
      → now < send.deadline
      → Splits now scheduled sent remaining
      → Splits now (send ∷ scheduled) sent (send ∷ remaining)

-- A flush sends the scheduled datagrams whose deadline has passed, in order, and keeps the others, in order.
pub flush_due_sends-Splits :
    (now : ℕ) (scheduled : List ScheduledSend)
    → Splits now scheduled (flush_due_sends now scheduled).0 (flush_due_sends now scheduled).1
unfolding flush_due_sends
flush_due_sends-Splits now [] = none_left
flush_due_sends-Splits now (send ∷ scheduled) =
    let rest = flush_due_sends-Splits now scheduled in
    elim (Bool-cases (leb send.deadline now)) [
      | inl e ↦ rw e (due send scheduled _ _ (leb→le _ _ e) rest)
      | inr e ↦ rw e (later send scheduled _ _ (ground arith) rest)
    ]

-- What is sent on of a datagram, by the disposition that its record has.
pub Fate : TraceDisposition → Bytes → List ScheduledSend → Type 0
Fate dropped datagram sends = sends ≡ []
Fate delivered datagram sends =
    (1 ≤ length sends) × (length sends ≤ 2) × All (λ (s : ScheduledSend). s.bytes ≡ datagram) sends
Fate corrupted datagram sends =
    (1 ≤ length sends)
    × (length sends ≤ 2)
    × All (λ (s : ScheduledSend). Carried datagram s.bytes true) sends
Fate injected datagram sends = ⊥

module _ (now : ℕ) (outbound : SocketName) (destination : Endpoint) (datagram reason : Bytes)
    (entry : TraceEntry) where
  abbrev result_of : Bool → List DeliveryAction → PipelineResult
  result_of was_dropped deliveries = record {
    dropped = was_dropped;
    deliveries = deliveries;
    drop_reason = reason;
  }

  decided-Fate :
      (was_dropped : Bool) (deliveries : List DeliveryAction)
      → IsOutcome datagram (result_of was_dropped deliveries)
      → Fate
          (decided_entry (result_of was_dropped deliveries) entry).seen.disposition
          datagram
          (sends_of now outbound destination (result_of was_dropped deliveries))
  unfolding Fate IsOutcome IsDelivered Carried decided_entry sends_of
  decided-Fate true deliveries h = refl
  decided-Fate false [] h = absurd h
  decided-Fate false (first ∷ []) h = elim (Bool-cases first.corrupted) [
    | inl e ↦ rw e (omega arith, omega arith, (rw e at h.0, tt))
    | inr e ↦ rw e (omega arith, omega arith, (rw e at h.0, tt))
  ]
  decided-Fate false (first ∷ second ∷ []) (carried, marked, same) =
      let copied : second.corrupted ≡ first.corrupted =
        ap (λ (a : DeliveryAction). a.corrupted) same in
      let bytes : second.bytes ≡ first.bytes = ap (λ (a : DeliveryAction). a.bytes) same in
      elim (Bool-cases first.corrupted) [
        | inl e ↦
            let h = rw e at carried in
            rw e (
              omega arith,
              omega arith,
              (h, (subst (λ b. Carried datagram b true) (sym bytes) h, tt)),
            )
        | inr e ↦
            let h = rw e at carried in
            rw (e, copied ∙ e) (omega arith, omega arith, (h, (bytes ∙ h, tt)))
      ]
  decided-Fate false (first ∷ second ∷ third ∷ rest) h = absurd h

module _ {W : Type 0} ⦃d : Double W⦄ (config : ProxyConfig W) where
  -- What handling a datagram adds to the proxy.
  pub record IsRelayed (now i : ℕ) (s : Session) (direction : Direction) (datagram : Bytes)
      (outbound : SocketName) (destination : Endpoint) (p q : Proxy W) : Type 0 where
    pub entry : TraceEntry
    pub injections : List TraceEntry
    pub sends : List ScheduledSend
    pub injected_sends : List ScheduledSend
    pub records : q.records ≡ p.records ++ entry ∷ injections
    pub scheduled : q.scheduled ≡ p.scheduled ++ (sends ++ injected_sends)
    pub of_a_peer : is_peer_send entry.seen ≡ true
    pub fate : Fate entry.seen.disposition datagram sends
    pub described : (entry.seen.direction ≡ direction) × (entry.datagram_length ≡ length datagram)
    pub copies : entry.was_duplicated ≡ ltb 1 (length sends)
    pub forwarded :
        All
          (λ (send : ScheduledSend).
            (send.socket ≡ outbound) × (send.destination ≡ destination) × (now ≤ send.deadline))
          sends
    pub scripted :
        Injections config now i s p.stray_sockets q.stray_sockets
          (config.injection entry)
          injected_sends
          injections

  decided_peer :
      (r : PipelineResult) (entry : TraceEntry) → is_peer_send (decided_entry r entry).seen ≡ true
  unfolding decided_entry
  decided_peer r entry = ground arith

  forwarded-All :
      (now : ℕ) (outbound : SocketName) (destination : Endpoint) (deliveries : List DeliveryAction)
      → All
          (λ (send : ScheduledSend).
            (send.socket ≡ outbound) × (send.destination ≡ destination) × (now ≤ send.deadline))
          (map (scheduled_send now outbound destination) deliveries)
  forwarded-All now outbound destination [] = tt
  forwarded-All now outbound destination (delivery ∷ deliveries) =
      ((refl, refl, omega arith), forwarded-All now outbound destination deliveries)

  decided_described :
      (r : PipelineResult) (entry : TraceEntry)
      → ((decided_entry r entry).seen.direction ≡ entry.seen.direction)
        × ((decided_entry r entry).datagram_length ≡ entry.datagram_length)
  unfolding decided_entry
  decided_described r entry = ground arith

  sends_of-forwarded :
      (now : ℕ) (outbound : SocketName) (destination : Endpoint) (r : PipelineResult)
      → All
          (λ (send : ScheduledSend).
            (send.socket ≡ outbound) × (send.destination ≡ destination) × (now ≤ send.deadline))
          (sends_of now outbound destination r)
  unfolding sends_of
  sends_of-forwarded now outbound destination r = elim (Bool-cases r.dropped) [
    | inl e ↦ rw e tt
    | inr e ↦ rw e (forwarded-All now outbound destination r.deliveries)
  ]

  length-map-scheduled_send :
      (now : ℕ) (outbound : SocketName) (destination : Endpoint) (deliveries : List DeliveryAction)
      → length (map (scheduled_send now outbound destination) deliveries) ≡ length deliveries
  length-map-scheduled_send now outbound destination [] = refl
  length-map-scheduled_send now outbound destination (delivery ∷ deliveries) =
      ap suc (length-map-scheduled_send now outbound destination deliveries)

  decided_copies :
      (now : ℕ) (outbound : SocketName) (destination : Endpoint) (r : PipelineResult)
      (entry : TraceEntry)
      → entry.was_duplicated ≡ false
      → (decided_entry r entry).was_duplicated
        ≡ ltb 1 (length (sends_of now outbound destination r))
  unfolding decided_entry sends_of
  decided_copies now outbound destination r entry h = elim (Bool-cases r.dropped) [
    | inl e ↦ rw e h
    | inr e ↦ rw (e, length-map-scheduled_send now outbound destination r.deliveries) refl
  ]

  -- A datagram that arrives adds to the trace one record of a peer, with its direction and its length, and then one record of each packet that the script
  -- returns for that record, and schedules nothing but the following. The record's disposition is what becomes of the
  -- datagram: dropped, nothing is scheduled for it; delivered, one or two copies of it are; corrupted, one or two
  -- copies with one bit of one byte turned round; the record says when there are two. They go to the given
  -- destination through the given socket, not before now. Behind them, in the script's order, each packet of the
  -- script is scheduled once, with its bytes, for its delay from now, to the side that it names and through the
  -- socket that it asks for, and its record is marked as injected and has the ports and the length of that send.
  pub observe_and_relay-IsRelayed :
      (now i : ℕ) (s : Session) (direction : Direction) (datagram : Bytes) (outbound : SocketName)
      (destination : Endpoint) (p : Proxy W)
      → IsRelayed now i s direction datagram outbound destination p
          (observe_and_relay config now i s direction datagram outbound destination p)
  unfolding observe_and_relay run_injection observed_entry
  observe_and_relay-IsRelayed now i s direction datagram outbound destination p =
      let observed = observed_entry now s direction datagram in
      let (result, pipeline) =
        process config.impairment direction datagram (is_data observed.seen) now p.pipeline in
      let outcome : IsOutcome datagram result =
        process-IsOutcome config.impairment direction datagram (is_data observed.seen) now
          p.pipeline in
      let entry = decided_entry result observed in
      let sends = sends_of now outbound destination result in
      let more = inject-Adds config now i s (config.injection entry) (record p {
        scheduled = p.scheduled ++ sends;
        pipeline = pipeline;
        records = p.records ++ entry ∷ [];
      }) in
      record {
        entry = entry;
        injections = more.entries;
        sends = sends;
        injected_sends = more.sends;
        records = more.records ∙ append_assoc p.records (entry ∷ []) more.entries;
        scheduled = more.scheduled ∙ append_assoc p.scheduled sends more.sends;
        of_a_peer = decided_peer result observed;
        fate =
            decided-Fate now outbound destination datagram result.drop_reason observed
              result.dropped result.deliveries outcome;
        described = decided_described result observed;
        copies = decided_copies now outbound destination result observed refl;
        forwarded = sends_of-forwarded now outbound destination result;
        scripted = more.one_to_one;
      }

module _ {W : Type 0} ⦃d : Double W⦄ (laws : IsDouble W) where
  -- A proxy without impairments and without a script.
  abbrev pub transparent : ProxyConfig W → ProxyConfig W
  transparent config = record config {
    impairment = all_off laws config.impairment;
    injection = λ entry. [];
  }

  -- With every impairment off and nothing injected, a datagram is recorded as delivered and scheduled once, as it is, for
  -- the moment it came.
  pub observe_and_relay-transparent :
      (config : ProxyConfig W) (now i : ℕ) (s : Session) (direction : Direction) (datagram : Bytes)
      (outbound : SocketName) (destination : Endpoint) (p : Proxy W)
      → let q =
          observe_and_relay
            (transparent config)
            now
            i
            s
            direction
            datagram
            outbound
            destination
            p in
        (q.scheduled
          ≡ p.scheduled
            ++ record {
              deadline = now + 0;
              socket = outbound;
              destination = destination;
              bytes = datagram;
            }
              ∷ [])
        × (q.records ≡ p.records ++ observed_entry now s direction datagram ∷ [])
  unfolding observe_and_relay run_injection inject decided_entry sends_of observed_entry
  observe_and_relay-transparent config now i s direction datagram outbound destination p =
      let clean =
        process-all_off laws config.impairment direction datagram
          (is_data (observed_entry now s direction datagram).seen) now p.pipeline in
      (rw (clean, sends_of) refl, rw (clean, decided_entry) refl)
