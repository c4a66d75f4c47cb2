-- ===== src/Impairments.antt =====
-- src/net/impairments.cpp: the pipeline that decides what becomes of one datagram. The state of the pipeline goes in and
-- comes out; times are ticks of the clock and delays are milliseconds, which no configuration sets below zero.
pub mod Laws
pub mod Off
mod Runs
use tftp_stress_test.Common.{
  ℕ, ◌+◌, ◌-◌, ◌^◌, bit_xor, Bool, true, false, not, ◌&&◌, ◌||◌, Option, none, some, List, [], ◌∷◌,
  Bytes, text, ltb, leb, if◌then◌else◌, inc32, length, is_empty, get_elem?, set,
}
use tftp_stress_test.Double.{Double}
use tftp_stress_test.Prng.Bernoulli.{bernoulli, draw_in_range}
use tftp_stress_test.Observer.{Direction, client_to_server, server_to_client}

pub data CorruptionTarget : Type 0 where
  any_byte opcode_field block_number data_payload : CorruptionTarget

pub record ImpairmentConfig (W : Type 0) : Type 0 where
  pub uniform_loss_probability : W
  pub gilbert_elliott_enabled : Bool
  pub good_to_bad_probability : W
  pub bad_to_good_probability : W
  pub loss_in_good_state : W
  pub loss_in_bad_state : W
  pub duplication_probability : W
  pub reorder_probability : W
  pub reorder_extra_delay : ℕ
  pub fixed_delay : ℕ
  pub jitter : ℕ
  pub corruption_probability : W
  pub corruption_target : CorruptionTarget
  pub throttle_enabled : Bool
  pub throttle_bytes_per_second : W
  pub blackout_enabled : Bool
  pub blackout_after_data_packets : ℕ

pub record DeliveryAction : Type 0 where
  pub bytes : Bytes
  pub delay : ℕ
  pub corrupted : Bool
  pub is_duplicate : Bool

pub record PipelineResult : Type 0 where
  pub dropped : Bool
  pub deliveries : List DeliveryAction
  pub drop_reason : Bytes

-- The members of `ImpairmentPipeline` that change; the channel states are their `in_bad_state`.
pub record Pipeline (W : Type 0) : Type 0 where
  pub prng : ℕ
  pub client_to_server_bad : Bool
  pub server_to_client_bad : Bool
  pub delivered_data_packets : ℕ
  pub token_bucket_bytes : W
  pub last_refill : ℕ

-- What `maybe_corrupt` gives, with the state of the generator behind it.
pub record Corruption : Type 0 where
  pub bytes : Bytes
  pub corrupted : Bool
  pub prng : ℕ

abbrev byte_of : Option ℕ → ℕ
byte_of none = 0
byte_of (some b) = b

-- One bit of the byte at `index`, if there is one.
unfoldable pub flip_at : Bytes → ℕ → ℕ → Corruption
flip_at bytes index prng =
    let (bit, next) = draw_in_range 0 7 prng in
    if ltb index (length bytes)
    then record {
      bytes = set bytes index (bit_xor (byte_of (get_elem? bytes index)) (2 ^ bit));
      corrupted = true;
      prng = next;
    }
    else record { bytes = bytes; corrupted = false; prng = prng }

-- The index that the target asks for.
unfoldable pub corruption_index : CorruptionTarget → ℕ → ℕ → ℕ × ℕ
corruption_index opcode_field size prng = draw_in_range 0 1 prng
corruption_index block_number size prng =
    (2 + (draw_in_range 0 1 prng).0, (draw_in_range 0 1 prng).1)
corruption_index data_payload size prng =
    if ltb 4 size
    then (4 + (draw_in_range 0 (size - 5) prng).0, (draw_in_range 0 (size - 5) prng).1)
    else (size - 1, prng)
corruption_index any_byte size prng = draw_in_range 0 (size - 1) prng

module _ {W : Type 0} where
  abbrev pub in_bad_state : Direction → Pipeline W → Bool
  in_bad_state client_to_server p = p.client_to_server_bad
  in_bad_state server_to_client p = p.server_to_client_bad

  abbrev pub set_bad_state : Direction → Bool → Pipeline W → Pipeline W
  set_bad_state client_to_server bad p = record p { client_to_server_bad = bad }
  set_bad_state server_to_client bad p = record p { server_to_client_bad = bad }

module _ {W : Type 0} ⦃d : Double W⦄ (config : ImpairmentConfig W) where
  -- The channel moves first, then the loss of its state is drawn.
  unfoldable pub gilbert_elliott : Direction → Pipeline W → Option Bytes × Pipeline W
  gilbert_elliott direction p =
      let bad = in_bad_state direction p in
      let (moves, drawn) =
        bernoulli (if bad then config.bad_to_good_probability else config.good_to_bad_probability)
          p.prng in
      let bad' = if moves then not bad else bad in
      let (lost, next) =
        bernoulli (if bad' then config.loss_in_bad_state else config.loss_in_good_state) drawn in
      let reason =
        if bad'
        then text "Gilbert-Elliott burst loss (bad)"
        else text "Gilbert-Elliott loss (good)" in
      (if lost then some reason else none, record (set_bad_state direction bad' p) { prng = next })

  -- The reason of a loss.
  unfoldable pub decide_loss : Direction → Pipeline W → Option Bytes × Pipeline W
  decide_loss direction p =
      let (lost, next) = bernoulli config.uniform_loss_probability p.prng in
      let behind : Pipeline W = record p { prng = next } in
      if lost
      then (some (text "uniform loss"), behind)
      else if config.gilbert_elliott_enabled
      then gilbert_elliott direction behind
      else (none, behind)

  unfoldable pub maybe_corrupt : Bytes → ℕ → Corruption
  maybe_corrupt datagram prng =
      let (fires, drawn) = bernoulli config.corruption_probability prng in
      let (index, next) = corruption_index config.corruption_target (length datagram) drawn in
      if is_empty datagram
      then record { bytes = datagram; corrupted = false; prng = prng }
      else if not fires
      then record { bytes = datagram; corrupted = false; prng = drawn }
      else flip_at datagram index next

  -- `std::min(a, b)` is `b < a ? b : a`.
  unfoldable pub throttle_delay : ℕ → ℕ → Pipeline W → ℕ × Pipeline W
  throttle_delay datagram_size now p =
      let rate = config.throttle_bytes_per_second in
      let filled = d.add p.token_bucket_bytes (d.mul (d.seconds_since now p.last_refill) rate) in
      let capped = if d.lt rate filled then rate else filled in
      let bucket = d.sub capped (d.of_number datagram_size) in
      let charged : Pipeline W = record p { token_bucket_bytes = bucket; last_refill = now } in
      if not config.throttle_enabled || d.le rate d.nought
      then (0, p)
      else if d.le d.nought bucket
      then (0, charged)
      else (d.to_number (d.mul (d.div (d.neg bucket) rate) d.thousand), charged)

  -- `process` behind the corruption stage: the delay and the copies.
  unfoldable pub schedule : Corruption → ℕ → Pipeline W → PipelineResult × Pipeline W
  schedule c now p =
      let (extra, jittered) =
        if ltb 0 config.jitter then draw_in_range 0 config.jitter c.prng else (0, c.prng) in
      let (held, throttled) = throttle_delay (length c.bytes) now (record p { prng = jittered }) in
      let (reordered, drawn) = bernoulli config.reorder_probability throttled.prng in
      let base = config.fixed_delay + extra + held in
      let delay = if reordered then base + config.reorder_extra_delay else base in
      let (duplicated, next) = bernoulli config.duplication_probability drawn in
      let primary : DeliveryAction = record {
        bytes = c.bytes;
        delay = delay;
        corrupted = c.corrupted;
        is_duplicate = false;
      } in
      let copy : DeliveryAction = record {
        bytes = c.bytes;
        delay = delay + 1;
        corrupted = c.corrupted;
        is_duplicate = true;
      } in
      (
        record {
          dropped = false;
          deliveries = primary ∷ (if duplicated then copy ∷ [] else []);
          drop_reason = [];
        },
        record throttled { prng = next },
      )

  -- `process` behind the loss stages: the datagram survives, and a DATA packet is counted.
  unfoldable pub deliver : Bytes → Bool → ℕ → Pipeline W → PipelineResult × Pipeline W
  deliver datagram is_data_packet now p =
      let counted =
        if is_data_packet then inc32 p.delivered_data_packets else p.delivered_data_packets in
      schedule (maybe_corrupt datagram p.prng) now (record p { delivered_data_packets = counted })

  abbrev drop : Bytes → PipelineResult
  drop reason = record { dropped = true; deliveries = []; drop_reason = reason }

  unfoldable pub process : Direction → Bytes → Bool → ℕ → Pipeline W → PipelineResult × Pipeline W
  process direction datagram is_data_packet now p =
      let (loss, behind) = decide_loss direction p in
      if config.blackout_enabled && leb config.blackout_after_data_packets p.delivered_data_packets
      then (drop (text "blackout after N data packets"), p)
      else elim loss [
        | some reason ↦ (drop reason, behind)
        | none ↦ deliver datagram is_data_packet now behind
      ]
