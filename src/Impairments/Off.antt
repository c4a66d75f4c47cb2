-- ===== src/Impairments/Off.antt =====
-- src/net/impairments.cpp with every impairment off.
use tftp_stress_test.Common.{
  ℕ, ◌≡◌, refl, ap, ◌∙◌, Bool, false, none, [], ◌∷◌, Bytes, if◌then◌else◌, inc32,
}
use tftp_stress_test.Double.{Double, IsDouble}
use tftp_stress_test.Prng.Bernoulli.{bernoulli}
use tftp_stress_test.Observer.{Direction}
use tftp_stress_test.Impairments.{
  ImpairmentConfig, PipelineResult, Pipeline, decide_loss, maybe_corrupt, throttle_delay, schedule,
  deliver, process,
}

module _ {W : Type 0} ⦃d : Double W⦄ (laws : IsDouble W) where
  -- The defaults of `ImpairmentConfig`; what they leave open is that of another configuration.
  abbrev pub all_off : ImpairmentConfig W → ImpairmentConfig W
  all_off config = record config {
    uniform_loss_probability = d.nought;
    gilbert_elliott_enabled = false;
    duplication_probability = d.nought;
    reorder_probability = d.nought;
    fixed_delay = 0;
    jitter = 0;
    corruption_probability = d.nought;
    throttle_enabled = false;
    blackout_enabled = false;
  }

  bernoulli_nought : (prng : ℕ) → bernoulli d.nought prng ≡ (false, prng)
  unfolding bernoulli
  bernoulli_nought prng = rw laws.nought_le

  maybe_corrupt_off :
      (config : ImpairmentConfig W) (datagram : Bytes) (prng : ℕ)
      → maybe_corrupt (all_off config) datagram prng
        ≡ record { bytes = datagram; corrupted = false; prng = prng }
  unfolding maybe_corrupt
  maybe_corrupt_off config [] prng = refl
  maybe_corrupt_off config (b ∷ datagram) prng = rw (bernoulli_nought prng)

  decide_loss_off :
      (config : ImpairmentConfig W) (direction : Direction) (p : Pipeline W)
      → decide_loss (all_off config) direction p ≡ (none, p)
  unfolding decide_loss
  decide_loss_off config direction p = rw (bernoulli_nought p.prng)

  abbrev off_outcome : Bytes → Bool → Pipeline W → PipelineResult × Pipeline W
  off_outcome datagram is_data_packet p = (
    record {
      dropped = false;
      deliveries =
          record { bytes = datagram; delay = 0; corrupted = false; is_duplicate = false } ∷ [];
      drop_reason = [];
    },
    record p {
      delivered_data_packets =
          if is_data_packet then inc32 p.delivered_data_packets else p.delivered_data_packets;
    },
  )

  -- `deliver` behind its corruption stage.
  deliver_off :
      (config : ImpairmentConfig W) (datagram : Bytes) (is_data_packet : Bool) (now : ℕ)
      (p : Pipeline W)
      → deliver (all_off config) datagram is_data_packet now p
        ≡ off_outcome datagram is_data_packet p
  unfolding deliver schedule throttle_delay
  deliver_off config datagram is_data_packet now p =
      let clean = maybe_corrupt_off config datagram p.prng in
      let silent = bernoulli_nought p.prng in
      let counted : Pipeline W = record p {
        delivered_data_packets =
            if is_data_packet then inc32 p.delivered_data_packets else p.delivered_data_packets;
      } in
      ap (λ c. schedule (all_off config) c now counted) clean ∙ rw (silent, silent) refl

  -- With every impairment off a datagram is delivered once, as it is and at once; nothing is drawn, and the pipeline only
  -- counts the DATA packets.
  pub process-all_off :
      (config : ImpairmentConfig W) (direction : Direction) (datagram : Bytes)
      (is_data_packet : Bool) (now : ℕ) (p : Pipeline W)
      → process (all_off config) direction datagram is_data_packet now p ≡ (
        record {
          dropped = false;
          deliveries =
              record { bytes = datagram; delay = 0; corrupted = false; is_duplicate = false } ∷ [];
          drop_reason = [];
        },
        record p {
          delivered_data_packets =
              if is_data_packet then inc32 p.delivered_data_packets else p.delivered_data_packets;
        },
      )
  unfolding process
  process-all_off config direction datagram is_data_packet now p =
      let kept = decide_loss_off config direction p in
      rw (kept, kept) (deliver_off config datagram is_data_packet now p)
