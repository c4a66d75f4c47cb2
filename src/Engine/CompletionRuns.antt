-- ===== src/Engine/CompletionRuns.antt =====
-- The two loops of adapters/reference/tftp_reference_engine.cpp at concrete inputs, up to their ends.
use tftp_stress_test.Common.{◌≡◌, refl, none, some, arith, Bytes, replicate}
use tftp_stress_test.Engine.{
  Endpoint, ipv4, endpoint_eq, NegotiatedParameters, default_config, Step,
}
use tftp_stress_test.Engine.Blocks.{total_block_count}
use tftp_stress_test.Engine.Blocks.Laws.{IsTotal}
use tftp_stress_test.Engine.Sender.{SenderState, blocks_to_send, run_data_sender}
use tftp_stress_test.Engine.Sender.Completes.{acks_behind, Succeeds, run_data_sender_completes}
use tftp_stress_test.Engine.Receiver.{ReceiverCall, run_data_receiver}
use tftp_stress_test.Engine.Receiver.Completes.{
  blocks_behind, Receives, run_data_receiver_completes,
}

-- Two blocks of eight bytes and a last one with a byte.
abbrev seventeen : Bytes
seventeen = replicate 17 5

abbrev params : NegotiatedParameters
params = record { block_size = 8; window_size = 2; timeout_seconds = none; transfer_size = none }

abbrev receiver_end : Endpoint
receiver_end = ipv4 2 3000

abbrev sender_end : Endpoint
sender_end = ipv4 1 2000

seventeen-IsTotal : IsTotal seventeen 8 3
seventeen-IsTotal = record {
  some_block = omega arith;
  covered = omega arith;
  tight = omega arith;
  positive = omega arith;
}

run_data_sender_completes_example :
    (step : Step SenderState) × (run_data_sender receiver_end seventeen params default_config 0
        (acks_behind receiver_end 0 3)
      ≡ some step)
    × Succeeds 17 step.returned
unfolding blocks_to_send total_block_count endpoint_eq
run_data_sender_completes_example =
    run_data_sender_completes receiver_end seventeen params default_config 0 3 refl refl
      (omega arith) (omega arith) (omega arith)

abbrev receiver_call : ReceiverCall
receiver_call = record { peer = sender_end; params = params; config = default_config }

run_data_receiver_completes_example :
    Receives seventeen
      (run_data_receiver receiver_call 1 none (blocks_behind sender_end seventeen 8 0 3))
unfolding endpoint_eq
run_data_receiver_completes_example =
    run_data_receiver_completes receiver_call seventeen 3 seventeen-IsTotal refl (omega arith)
      (omega arith)
