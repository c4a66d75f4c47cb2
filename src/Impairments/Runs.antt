-- ===== src/Impairments/Runs.antt =====
-- Tests of src/net/impairments.cpp, and the theorems at concrete inputs.
use tftp_stress_test.Common.{
  ℕ, ◌+◌, ◌-◌, ◌*◌, ◌/◌, ◌^◌, ◌≤◌, ◌≡◌, refl, true, false, [], ◌∷◌, arith, ltb, leb,
}
use tftp_stress_test.Double.{Double, IsDouble}
use tftp_stress_test.Observer.{client_to_server, server_to_client}
use tftp_stress_test.Prng.{mix, next_u64, draw_above, uniform_in_range}
use tftp_stress_test.Prng.Bernoulli.{next_unit_double, bernoulli, draw_in_range}
use tftp_stress_test.Impairments.{
  opcode_field, ImpairmentConfig, Pipeline, gilbert_elliott, decide_loss, flip_at, corruption_index,
  maybe_corrupt, throttle_delay, schedule, deliver, process,
}
use tftp_stress_test.Impairments.Laws.{
  IsOutcome, process-IsOutcome, Arrival, data_let_through, data_let_through-bound,
}
use tftp_stress_test.Impairments.Off.{all_off, process-all_off}

-- Fixed point numbers of 53 bits behind the point.
instance abbrev fixed_point : Double ℕ
fixed_point = record {
  nought = 0;
  one = 2 ^ 53;
  thousand = 1000 * 2 ^ 53;
  unit_scale = 1;
  le = leb;
  lt = ltb;
  add = λ a b. a + b;
  sub = λ a b. a - b;
  mul = λ a b. a * b / 2 ^ 53;
  div = λ a b. a;
  neg = λ a. a;
  of_number = λ n. n * 2 ^ 53;
  to_number = λ a. a / 2 ^ 53;
  seconds_since = λ now before. (now - before) * 2 ^ 53;
}

fixed_point-IsDouble : IsDouble ℕ
fixed_point-IsDouble = record { nought_le = refl; one_le = refl; one_above = refl }

-- Half of the datagrams are corrupted in their opcode, one in four has a copy, and three DATA packets are let through.
abbrev rough : ImpairmentConfig ℕ
rough = record {
  uniform_loss_probability = 0;
  gilbert_elliott_enabled = true;
  good_to_bad_probability = 2 ^ 51;
  bad_to_good_probability = 2 ^ 52;
  loss_in_good_state = 0;
  loss_in_bad_state = 2 ^ 53;
  duplication_probability = 2 ^ 51;
  reorder_probability = 0;
  reorder_extra_delay = 60;
  fixed_delay = 5;
  jitter = 0;
  corruption_probability = 2 ^ 53;
  corruption_target = opcode_field;
  throttle_enabled = false;
  throttle_bytes_per_second = 0;
  blackout_enabled = true;
  blackout_after_data_packets = 3;
}

abbrev fresh : Pipeline ℕ
fresh = record {
  prng = 7;
  client_to_server_bad = false;
  server_to_client_bad = false;
  delivered_data_packets = 0;
  token_bucket_bytes = 0;
  last_refill = 0;
}

abbrev arrival : Arrival
arrival = record {
  direction = server_to_client;
  datagram = 0 ∷ 3 ∷ 0 ∷ 1 ∷ 65 ∷ [];
  is_data_packet = true;
  now = 1;
}

-- A pipeline that has let three DATA packets through drops everything.
blackout_run :
    (process rough client_to_server
      (0 ∷ 4 ∷ 0 ∷ 1 ∷ [])
      false
      9
      (record fresh { delivered_data_packets = 3 })).0.dropped
    ≡ true
unfolding process
blackout_run = refl

corrupted_run :
    (process rough server_to_client (0 ∷ 3 ∷ 0 ∷ 1 ∷ 65 ∷ []) true 9 fresh).0.deliveries
    ≡ record { bytes = 4 ∷ 3 ∷ 0 ∷ 1 ∷ 65 ∷ []; delay = 5; corrupted = true; is_duplicate = false }
      ∷ []
unfolding process decide_loss gilbert_elliott deliver schedule maybe_corrupt corruption_index
    flip_at throttle_delay bernoulli next_unit_double draw_in_range uniform_in_range draw_above
    next_u64 mix
corrupted_run = refl

process-IsOutcome_example :
    IsOutcome
      (0 ∷ 3 ∷ 0 ∷ 1 ∷ 65 ∷ [])
      (process rough server_to_client (0 ∷ 3 ∷ 0 ∷ 1 ∷ 65 ∷ []) true 9 fresh).0
process-IsOutcome_example =
    process-IsOutcome rough server_to_client (0 ∷ 3 ∷ 0 ∷ 1 ∷ 65 ∷ []) true 9 fresh

data_let_through-bound_example :
    0 + data_let_through rough fresh (arrival ∷ arrival ∷ arrival ∷ arrival ∷ []) ≤ 3
data_let_through-bound_example =
    data_let_through-bound rough fresh (arrival ∷ arrival ∷ arrival ∷ arrival ∷ []) refl
      (omega arith) (omega arith)

process-all_off_example :
    process
      (all_off fixed_point-IsDouble rough)
      server_to_client
      (0 ∷ 3 ∷ 0 ∷ 1 ∷ 65 ∷ [])
      true
      9
      fresh
    ≡ (
      record {
        dropped = false;
        deliveries =
            record {
              bytes = 0 ∷ 3 ∷ 0 ∷ 1 ∷ 65 ∷ [];
              delay = 0;
              corrupted = false;
              is_duplicate = false;
            }
            ∷ [];
        drop_reason = [];
      },
      record fresh { delivered_data_packets = 1 },
    )
process-all_off_example =
    process-all_off fixed_point-IsDouble rough server_to_client (0 ∷ 3 ∷ 0 ∷ 1 ∷ 65 ∷ []) true 9
      fresh
