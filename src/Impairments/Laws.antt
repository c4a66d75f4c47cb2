-- ===== src/Impairments/Laws.antt =====
-- What src/net/impairments.cpp can do to a datagram.
use tftp_stress_test.Common.{
  ℕ, zero, suc, ◌+◌, ◌^◌, ◌≤◌, ◌<◌, ◌≡◌, ◌⊎◌, inl, inr, refl, ap, ◌∙◌, bit_xor, Bool, true, false,
  ◌&&◌, Option, none, some, List, [], ◌∷◌, Bytes, arith, ltb, leb, if◌then◌else◌, inc32, length,
  get_elem?, set, Bool-cases, Option-cases, ltb→lt,
}
use tftp_stress_test.Double.{Double}
use tftp_stress_test.Prng.{draw_above, shifted, uniform_in_range}
use tftp_stress_test.Prng.Bernoulli.{bernoulli, taken, draw_in_range}
use tftp_stress_test.Observer.{Direction, client_to_server, server_to_client}
use tftp_stress_test.Impairments.{
  ImpairmentConfig, DeliveryAction, PipelineResult, Pipeline, flip_at, gilbert_elliott, decide_loss,
  maybe_corrupt, throttle_delay, schedule, deliver, process,
}

-- The datagram as it is, or with one bit of one byte turned round when it counts as corrupted.
unfoldable pub Carried : Bytes → Bytes → Bool → Type 0
Carried datagram bytes false = bytes ≡ datagram
Carried datagram bytes true =
    (index : ℕ) × (bit : ℕ) × (byte : ℕ) × (bit ≤ 7)
    × (get_elem? datagram index ≡ some byte)
    × (bytes ≡ set datagram index (bit_xor byte (2 ^ bit)))

-- What is delivered of a datagram that is not dropped.
unfoldable pub IsDelivered : Bytes → List DeliveryAction → Type 0
IsDelivered datagram [] = ⊥
IsDelivered datagram (first ∷ []) =
    Carried datagram first.bytes first.corrupted × (first.is_duplicate ≡ false)
IsDelivered datagram (first ∷ second ∷ []) =
    Carried datagram first.bytes first.corrupted
    × (first.is_duplicate ≡ false)
    × (second ≡ record first { delay = first.delay + 1; is_duplicate = true })
IsDelivered datagram _ = ⊥

unfoldable pub IsOutcome : Bytes → PipelineResult → Type 0
IsOutcome datagram r = elim r.dropped [
  | true ↦ r.deliveries ≡ []
  | false ↦ IsDelivered datagram r.deliveries
]

shifted_bound : (prng : ℕ) (draw : Option (ℕ × ℕ)) → (taken 0 prng (shifted 0 8 draw)).0 ≤ 7
shifted_bound prng none = omega arith
shifted_bound prng (some (value, next)) = omega arith

draw_bit_bound : (prng : ℕ) → (draw_in_range 0 7 prng).0 ≤ 7
unfolding draw_in_range uniform_in_range
draw_bit_bound prng = shifted_bound prng (draw_above (2 ^ 64) 0 prng)

get_elem?_below :
    (bytes : Bytes) (index : ℕ)
    → index < length bytes
    → (byte : ℕ) × (get_elem? bytes index ≡ some byte)
get_elem?_below [] index h = absurd (omega arith)
get_elem?_below (b ∷ bytes) zero h = (b, refl)
get_elem?_below (b ∷ bytes) (suc index) h = get_elem?_below bytes index (omega arith)

flip_at-Carried :
    (bytes : Bytes) (index prng : ℕ)
    → let c = flip_at bytes index prng in Carried bytes c.bytes c.corrupted
unfolding Carried flip_at
flip_at-Carried bytes index prng = elim (Bool-cases (ltb index (length bytes))) [
  | inl e ↦
      let (byte, at) = get_elem?_below bytes index (ltb→lt _ _ e) in
      rw e (index, (draw_in_range 0 7 prng).0, byte, draw_bit_bound prng, at, rw at)
  | inr e ↦ rw e refl
]

module _ {W : Type 0} ⦃d : Double W⦄ (config : ImpairmentConfig W) where
  maybe_corrupt-Carried :
      (bytes : Bytes) (prng : ℕ)
      → let c = maybe_corrupt config bytes prng in Carried bytes c.bytes c.corrupted
  unfolding Carried maybe_corrupt
  maybe_corrupt-Carried [] prng = refl
  maybe_corrupt-Carried (b ∷ bytes) prng =
      elim (Bool-cases (bernoulli config.corruption_probability prng).0) [
        | inl e ↦ rw e (flip_at-Carried (b ∷ bytes) _ _)
        | inr e ↦ rw e refl
      ]

  copies-IsDelivered :
      (datagram bytes : Bytes) (delay : ℕ) (corrupted duplicated : Bool)
      → Carried datagram bytes corrupted
      → let first : DeliveryAction = record {
        bytes = bytes;
        delay = delay;
        corrupted = corrupted;
        is_duplicate = false;
      } in
        IsDelivered datagram (
          first
          ∷ (if duplicated
              then record first { delay = delay + 1; is_duplicate = true } ∷ []
              else []))
  unfolding IsDelivered
  copies-IsDelivered datagram bytes delay corrupted true h = (h, refl, refl)
  copies-IsDelivered datagram bytes delay corrupted false h = (h, refl)

  deliver-IsOutcome :
      (datagram : Bytes) (is_data_packet : Bool) (now : ℕ) (p : Pipeline W)
      → IsOutcome datagram (deliver config datagram is_data_packet now p).0
  unfolding IsOutcome deliver schedule
  deliver-IsOutcome datagram is_data_packet now p =
      copies-IsDelivered datagram (maybe_corrupt config datagram p.prng).bytes _ _ _
        (maybe_corrupt-Carried datagram p.prng)

  -- A datagram is dropped, with nothing delivered, or delivered once or twice: as it is, or with one bit of one byte turned
  -- round and marked as corrupted; a second copy has the same bytes, comes a millisecond later and is marked.
  pub process-IsOutcome :
      (direction : Direction) (datagram : Bytes) (is_data_packet : Bool) (now : ℕ) (p : Pipeline W)
      → IsOutcome datagram (process config direction datagram is_data_packet now p).0
  unfolding IsOutcome process
  process-IsOutcome direction datagram is_data_packet now p =
      elim (Bool-cases (
        config.blackout_enabled
        && leb config.blackout_after_data_packets p.delivered_data_packets)) [
          | inl dark ↦ rw dark refl
          | inr light ↦ elim (Option-cases (decide_loss config direction p).0) [
            | inl kept ↦ rw (light, kept) (deliver-IsOutcome datagram is_data_packet now _)
            | inr (reason, lost) ↦ rw (light, lost) refl
          ]
        ]

  -- counted
  throttle_delay_counts :
      (size now : ℕ) (p : Pipeline W)
      → (throttle_delay config size now p).1.delivered_data_packets ≡ p.delivered_data_packets
  unfolding throttle_delay
  throttle_delay_counts size now p = ground arith

  decide_loss_counts :
      (direction : Direction) (p : Pipeline W)
      → (decide_loss config direction p).1.delivered_data_packets ≡ p.delivered_data_packets
  unfolding decide_loss gilbert_elliott
  decide_loss_counts client_to_server p = ground arith
  decide_loss_counts server_to_client p = ground arith

  deliver_counts :
      (datagram : Bytes) (is_data_packet : Bool) (now : ℕ) (p : Pipeline W)
      → (deliver config datagram is_data_packet now p).1.delivered_data_packets
        ≡ (if is_data_packet then inc32 p.delivered_data_packets else p.delivered_data_packets)
  unfolding deliver schedule
  deliver_counts datagram is_data_packet now p = throttle_delay_counts _ now _

  -- A DATA packet that gets through is counted, and none gets through a blackout.
  process_counts :
      (direction : Direction) (datagram : Bytes) (is_data_packet : Bool) (now : ℕ) (p : Pipeline W)
      → config.blackout_enabled ≡ true
      → let after = process config direction datagram is_data_packet now p in
        ((after.0.dropped ≡ true) × (after.1.delivered_data_packets ≡ p.delivered_data_packets))
        ⊎ ((after.0.dropped ≡ false)
            × (p.delivered_data_packets < config.blackout_after_data_packets)
            × (after.1.delivered_data_packets ≡ (
                if is_data_packet
                then inc32 p.delivered_data_packets
                else p.delivered_data_packets)))
  unfolding process deliver schedule
  process_counts direction datagram is_data_packet now p on =
      elim (Bool-cases (
        config.blackout_enabled
        && leb config.blackout_after_data_packets p.delivered_data_packets)) [
          | inl dark ↦ rw dark (inl (refl, refl))
          | inr light ↦
              let same = decide_loss_counts direction p in
              let room : p.delivered_data_packets < config.blackout_after_data_packets =
                ground (arith, on, light) in
              elim (Option-cases (decide_loss config direction p).0) [
                | inl kept ↦
                    let counts =
                      deliver_counts datagram is_data_packet now
                        (decide_loss config direction p).1 in
                    rw (light, kept)
                      (inr
                        (refl, room, counts ∙ ap (λ n. if is_data_packet then inc32 n else n) same))
                | inr (reason, lost) ↦ rw (light, lost) (inl (refl, same))
              ]
        ]

-- A datagram as `process` gets it.
pub record Arrival : Type 0 where
  pub direction : Direction
  pub datagram : Bytes
  pub is_data_packet : Bool
  pub now : ℕ

abbrev survivors : Bool → Bool → ℕ
survivors true false = 1
survivors _ _ = 0

survivors_lost :
    (is_data_packet dropped : Bool) → dropped ≡ true → survivors is_data_packet dropped ≡ 0
survivors_lost is_data_packet dropped h = ground (arith, h)

survivors_kept :
    (is_data_packet dropped : Bool)
    → is_data_packet ≡ true
    → dropped ≡ false
    → survivors is_data_packet dropped ≡ 1
survivors_kept is_data_packet dropped h k = ground (arith, h, k)

survivors_other :
    (is_data_packet dropped : Bool) → is_data_packet ≡ false → survivors is_data_packet dropped ≡ 0
survivors_other is_data_packet dropped h = ground (arith, h)

module _ {W : Type 0} ⦃d : Double W⦄ (config : ImpairmentConfig W) where
  -- The DATA packets that a sequence of datagrams gets through the pipeline.
  unfoldable pub data_let_through : Pipeline W → List Arrival → ℕ
  data_let_through p [] = 0
  data_let_through p (a ∷ arrivals) =
      let (result, after) = process config a.direction a.datagram a.is_data_packet a.now p in
      survivors a.is_data_packet result.dropped + data_let_through after arrivals

  -- With the blackout on, at most the configured count of DATA packets gets through, whatever arrives and in whatever
  -- order, for a count of 32 bits that the pipeline has not passed already.
  pub data_let_through-bound :
      (p : Pipeline W) (arrivals : List Arrival)
      → config.blackout_enabled ≡ true
      → config.blackout_after_data_packets < 2 ^ 32
      → p.delivered_data_packets ≤ config.blackout_after_data_packets
      → p.delivered_data_packets + data_let_through p arrivals ≤ config.blackout_after_data_packets
  unfolding data_let_through
  data_let_through-bound p [] on small h = omega arith
  data_let_through-bound p (a ∷ arrivals) on small h =
      let (result, after) = process config a.direction a.datagram a.is_data_packet a.now p in
      let rest = data_let_through-bound after arrivals on small in
      elim (process_counts config a.direction a.datagram a.is_data_packet a.now p on) [
        | inl (lost, same) ↦
            let none_survives : survivors a.is_data_packet result.dropped ≡ 0 =
              survivors_lost a.is_data_packet result.dropped lost in
            omega (arith, none_survives, same, rest (omega (arith, same, h)))
        | inr (kept, room, counts) ↦ elim (Bool-cases a.is_data_packet) [
          | inl data_packet ↦
              let one_survives : survivors a.is_data_packet result.dropped ≡ 1 =
                survivors_kept a.is_data_packet result.dropped data_packet kept in
              let up : after.delivered_data_packets ≡ suc p.delivered_data_packets =
                ground (arith, counts, data_packet, room, small) in
              omega (arith, one_survives, up, rest (omega (arith, up, room)))
          | inr other ↦
              let none_survives : survivors a.is_data_packet result.dropped ≡ 0 =
                survivors_other a.is_data_packet result.dropped other in
              let same : after.delivered_data_packets ≡ p.delivered_data_packets =
                ground (arith, counts, other) in
              omega (arith, none_survives, same, rest (omega (arith, same, h)))
        ]
      ]
