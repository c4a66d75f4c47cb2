-- ===== src/Observer/Counts.antt =====
-- The counters of src/verify/packet_observer.cpp against independent counts of the trace.
use tftp_stress_test.Common.{
  ℕ, suc, ◌+◌, ◌^◌, ◌≤◌, ◌<◌, ◌≡◌, refl, ap, ◌∙◌, Bool, true, false, ◌&&◌, ◌||◌, ◌==◌, List, [],
  ◌∷◌, arith, if◌then◌else◌, length, Bool-cases, inl, inr,
}
use tftp_stress_test.Observer.{
  same_direction, TraceDisposition, delivered, dropped, corrupted, injected, TraceRecord,
  ObserverContext, ObserverReport, Observation, data_direction, is_peer_send, is_data,
  count_disposition, note_request, note_server_tid, note_stray, insert_block, count_data, count_ack,
  observe_record, observe_records, finish, observation_start, observe,
}

-- A DATA packet that the sending peer has sent.
abbrev pub sends_data : ObserverContext → TraceRecord → Bool
sends_data context r =
    same_direction r.direction (data_direction context.direction) && (is_peer_send r && is_data r)

-- The block numbers of the DATA packets that the sending peer has sent, in the order of the trace.
unfoldable pub sent_blocks : ObserverContext → List TraceRecord → List ℕ
sent_blocks context [] = []
sent_blocks context (r ∷ rest) =
    let later = sent_blocks context rest in
    if sends_data context r then r.packet.block_number ∷ later else later

unfoldable pub occurs : ℕ → List ℕ → Bool
occurs b [] = false
occurs b (c ∷ rest) = (b == c) || occurs b rest

-- How many places of a list have a number that is among `earlier` or stands at a place before.
unfoldable pub repeats : List ℕ → List ℕ → ℕ
repeats earlier [] = 0
repeats earlier (b ∷ rest) =
    let more = repeats (b ∷ earlier) rest in if occurs b earlier then suc more else more

length-sent_blocks :
    (context : ObserverContext) (records : List TraceRecord)
    → length (sent_blocks context records) ≤ length records
unfolding sent_blocks
length-sent_blocks context [] = omega arith
length-sent_blocks context (r ∷ rest) = ground (arith, length-sent_blocks context rest)

occurs-insert_block :
    (a b : ℕ) (blocks : List ℕ) → occurs a (insert_block b blocks) ≡ occurs a (b ∷ blocks)
unfolding insert_block occurs
occurs-insert_block a b [] = refl
occurs-insert_block a b (c ∷ rest) = ground (arith, occurs-insert_block a b rest)

length-insert_block :
    (b : ℕ) (blocks : List ℕ)
    → length (insert_block b blocks)
      ≡ (if occurs b blocks then length blocks else suc (length blocks))
unfolding insert_block occurs
length-insert_block b [] = refl
length-insert_block b (c ∷ rest) = ground (arith, length-insert_block b rest)

occurs_tail :
    (a b : ℕ) (blocks earlier : List ℕ)
    → occurs a blocks ≡ occurs a earlier
    → occurs a (b ∷ blocks) ≡ occurs a (b ∷ earlier)
unfolding occurs
occurs_tail a b blocks earlier h = ap (λ x. (a == b) || x) h

insert_block-divided :
    (sent again b : ℕ) (blocks : List ℕ) (known : Bool)
    → occurs b blocks ≡ known
    → length blocks + again ≡ sent
    → length (insert_block b blocks) + (if known then suc again else again) ≡ suc sent
insert_block-divided sent again b blocks true e h =
    rw (length-insert_block b blocks, e) (omega (arith, h))
insert_block-divided sent again b blocks false e h =
    rw (length-insert_block b blocks, e) (omega (arith, h))

-- The part of the variables that the DATA counters stand on, behind the DATA packets whose numbers are `earlier`.
record Tally (o : Observation) (sent again : ℕ) (earlier : List ℕ) : Type 0 where
  sent_packets : o.report.data_packets_sent ≡ sent
  members : (b : ℕ) → occurs b o.distinct_blocks ≡ occurs b earlier
  divided : length o.distinct_blocks + again ≡ sent

module _ (sent again : ℕ) (earlier : List ℕ) where
  count_ack-Tally :
      (context : ObserverContext) (r : TraceRecord) (o : Observation)
      → Tally o sent again earlier
      → Tally (count_ack context r o) sent again earlier
  unfolding count_ack
  count_ack-Tally context r o t = ground arith

  note_request-Tally :
      (r : TraceRecord) (o : Observation)
      → Tally o sent again earlier
      → Tally (note_request r o) sent again earlier
  unfolding note_request
  note_request-Tally r o t = ground arith

  note_server_tid-Tally :
      (r : TraceRecord) (o : Observation)
      → Tally o sent again earlier
      → Tally (note_server_tid r o) sent again earlier
  unfolding note_server_tid
  note_server_tid-Tally r o t = ground arith

count_disposition-sent :
    (d : TraceDisposition) (p : ObserverReport)
    → (count_disposition d p).data_packets_sent ≡ p.data_packets_sent
count_disposition-sent delivered p = refl
count_disposition-sent dropped p = refl
count_disposition-sent corrupted p = refl
count_disposition-sent injected p = refl

note_stray-sent :
    (r : TraceRecord) (p : ObserverReport)
    → (note_stray r p).data_packets_sent ≡ p.data_packets_sent
unfolding note_stray
note_stray-sent r p = ground arith

-- What the loop does to the variables ahead of the DATA counters leaves these alone.
abbrev before_data : TraceRecord → Observation → Observation
before_data r o =
    let named =
      note_server_tid r
        (note_request r (record o { report = count_disposition r.disposition o.report })) in
    record named { report = note_stray r named.report }

before_data-Tally :
    (r : TraceRecord) (o : Observation) (sent again : ℕ) (earlier : List ℕ)
    → Tally o sent again earlier
    → Tally (before_data r o) sent again earlier
before_data-Tally r o sent again earlier t =
    let counted = record o { report = count_disposition r.disposition o.report } in
    let t0 : Tally counted sent again earlier = record {
      sent_packets = rw (count_disposition-sent r.disposition o.report) t.sent_packets;
      members = t.members;
      divided = t.divided;
    } in
    let named = note_server_tid r (note_request r counted) in
    let t1 : Tally named sent again earlier =
      note_server_tid-Tally sent again earlier r _
        (note_request-Tally sent again earlier r counted t0) in
    record {
      sent_packets = rw (note_stray-sent r named.report) t1.sent_packets;
      members = t1.members;
      divided = t1.divided;
    }

-- A DATA packet that is counted.
observe_record-sent :
    (context : ObserverContext) (r : TraceRecord) (o : Observation) (sent again : ℕ)
    (earlier : List ℕ)
    → sends_data context r ≡ true
    → sent + 1 < 2 ^ 32
    → Tally o sent again earlier
    → Tally
        (observe_record context r o)
        (suc sent)
        (if occurs r.packet.block_number earlier then suc again else again)
        (r.packet.block_number ∷ earlier)
unfolding observe_record count_data
observe_record-sent context r o sent again earlier e few before =
    let b = r.packet.block_number in
    let start = before_data r o in
    let t = before_data-Tally r o sent again earlier before in
    let t1 : Tally (count_data context r start) (suc sent)
        (if occurs b earlier then suc again else again) (b ∷ earlier) =
      rw e (record {
        sent_packets = omega (arith, t.sent_packets);
        members = λ a.
            occurs-insert_block a b start.distinct_blocks
            ∙ occurs_tail a b start.distinct_blocks earlier (t.members a);
        divided =
            insert_block-divided sent again b start.distinct_blocks (occurs b earlier) (t.members b)
              t.divided;
      }) in
    count_ack-Tally _ _ _ context r _ t1

observe_record-other :
    (context : ObserverContext) (r : TraceRecord) (o : Observation) (sent again : ℕ)
    (earlier : List ℕ)
    → sends_data context r ≡ false
    → Tally o sent again earlier
    → Tally (observe_record context r o) sent again earlier
unfolding observe_record count_data
observe_record-other context r o sent again earlier e before =
    let t : Tally (count_data context r (before_data r o)) sent again earlier =
      rw e (before_data-Tally r o sent again earlier before) in
    count_ack-Tally sent again earlier context r _ t

-- What the loop has counted at the end.
record Counted (o : Observation) (sent again : ℕ) : Type 0 where
  sent_packets : o.report.data_packets_sent ≡ sent
  divided : length o.distinct_blocks + again ≡ sent

observe_records-Counted :
    (context : ObserverContext) (records : List TraceRecord) (o : Observation) (sent again : ℕ)
    (earlier : List ℕ)
    → sent + length records < 2 ^ 32
    → Tally o sent again earlier
    → Counted
        (observe_records context records o)
        (sent + length (sent_blocks context records))
        (again + repeats earlier (sent_blocks context records))
unfolding observe_records sent_blocks repeats
observe_records-Counted context [] o sent again earlier few t = record {
  sent_packets = omega (arith, t.sent_packets);
  divided = omega (arith, t.divided);
}
observe_records-Counted context (r ∷ rest) o sent again earlier few t =
    elim (Bool-cases (sends_data context r)) [
      | inl e ↦
          let b = r.packet.block_number in
          let seen = observe_record-sent context r o sent again earlier e (omega arith) t in
          let h =
            observe_records-Counted context rest _ (suc sent) _ (b ∷ earlier) (omega arith) seen in
          rw e (elim (Bool-cases (occurs b earlier)) [
            | inl f ↦ rw f (
                let h' = rw f at h in
                record {
                  sent_packets = omega (arith, h'.sent_packets);
                  divided = omega (arith, h'.divided);
                })
            | inr f ↦ rw f (
                let h' = rw f at h in
                record {
                  sent_packets = omega (arith, h'.sent_packets);
                  divided = omega (arith, h'.divided);
                })
          ])
      | inr e ↦ rw e (
          observe_records-Counted context rest _ sent again earlier (omega arith)
            (observe_record-other context r o sent again earlier e t))
    ]

-- For a trace of fewer than 2 ^ 32 records, the DATA packets sent are those that the sending peer's records hold, the
-- retransmissions are those of them whose block number a DATA packet before has, and the distinct blocks are the
-- others, without an underflow.
pub observe_data_counts :
    (records : List TraceRecord) (context : ObserverContext)
    → length records < 2 ^ 32
    → ((observe records context).data_packets_sent ≡ length (sent_blocks context records))
      × ((observe records context).retransmitted_data_packets
          ≡ repeats [] (sent_blocks context records))
      × ((observe records context).distinct_data_blocks + repeats [] (sent_blocks context records)
          ≡ length (sent_blocks context records))
unfolding observe finish
observe_data_counts records context few =
    let t =
      observe_records-Counted context records (observation_start records) 0 0 [] (omega arith)
        (record { sent_packets = refl; members = λ b. refl; divided = refl }) in
    let bound = length-sent_blocks context records in
    (
      omega (arith, t.sent_packets),
      omega (arith, t.sent_packets, t.divided, bound),
      omega (arith, t.sent_packets, t.divided, bound),
    )
