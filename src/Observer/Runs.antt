-- ===== src/Observer/Runs.antt =====
-- The theorems on src/verify/packet_observer.cpp at concrete traces.
use tftp_stress_test.Common.{◌+◌, ◌≡◌, refl, true, List, [], ◌∷◌, arith, length}
use tftp_stress_test.Packet.{empty_packet, data_block}
use tftp_stress_test.Observer.{
  server_to_client, delivered, dropped, TraceRecord, download, ObserverContext, observe,
  observe_records, observe_record, finish, note_request, note_server_tid, note_stray, count_data,
  count_ack, insert_block,
}
use tftp_stress_test.Observer.Counts.{sent_blocks, repeats, observe_data_counts}

-- The same block twice, lost the first time.
abbrev block : TraceRecord
block = record {
  direction = server_to_client;
  source_tid = 3000;
  destination_tid = 2000;
  parseable = true;
  packet = record empty_packet { opcode = data_block; block_number = 1; contents = 7 ∷ [] };
  disposition = delivered;
  note = [];
}

abbrev trace : List TraceRecord
trace = record block { disposition = dropped } ∷ block ∷ []

abbrev context : ObserverContext
context = record { direction = download; block_size = 512 }

one_retransmission : (observe trace context).retransmitted_data_packets ≡ 1
unfolding observe observe_records observe_record finish note_request note_server_tid note_stray
    count_data count_ack insert_block
one_retransmission = refl

observe_data_counts_example :
    ((observe trace context).data_packets_sent ≡ length (sent_blocks context trace))
    × ((observe trace context).retransmitted_data_packets ≡ repeats [] (sent_blocks context trace))
    × ((observe trace context).distinct_data_blocks + repeats [] (sent_blocks context trace)
        ≡ length (sent_blocks context trace))
observe_data_counts_example = observe_data_counts trace context (omega arith)
