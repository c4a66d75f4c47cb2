-- ===== src/Observer.antt =====
-- src/verify/packet_observer.cpp: the fold of `observe` over a packet trace, and the records of
-- src/net/packet_trace.hpp as far as it reads them. The map of send counts is written and never read.
pub mod Counts
mod Runs
use tftp_stress_test.Common.{
  ℕ, zero, suc, ◌+◌, ◌-◌, ◌%◌, ◌^◌, max, Bool, true, false, not, ◌&&◌, ◌||◌, List, [], ◌∷◌, Bytes,
  text, ltb, leb, ◌==◌, if◌then◌else◌, inc32, length,
}
use tftp_stress_test.Packet.{
  TftpPacket, read_request, write_request, data_block, acknowledgement, error,
  option_acknowledgement, is_opcode, unknown_transfer_id,
}

pub data Direction : Type 0 where
  client_to_server server_to_client : Direction

abbrev pub same_direction : Direction → Direction → Bool
same_direction client_to_server client_to_server = true
same_direction server_to_client server_to_client = true
same_direction _ _ = false

pub data TraceDisposition : Type 0 where
  delivered dropped corrupted injected : TraceDisposition

pub record TraceRecord : Type 0 where
  pub direction : Direction
  pub source_tid : ℕ
  pub destination_tid : ℕ
  pub parseable : Bool
  pub packet : TftpPacket
  pub disposition : TraceDisposition
  pub note : Bytes

pub data TransferDirection : Type 0 where
  download upload : TransferDirection

pub record ObserverContext : Type 0 where
  pub direction : TransferDirection
  pub block_size : ℕ

pub record ObserverReport : Type 0 where
  pub data_packets_sent : ℕ
  pub distinct_data_blocks : ℕ
  pub retransmitted_data_packets : ℕ
  pub final_data_block_length : ℕ
  pub terminating_short_block_present : Bool
  pub acknowledgements_sent : ℕ
  pub duplicate_acknowledgements : ℕ
  pub datagrams_dropped : ℕ
  pub datagrams_corrupted : ℕ
  pub datagrams_injected : ℕ
  pub stray_tid_replies : ℕ
  pub stray_tid_reply_was_error_5 : Bool
  pub server_selected_fresh_tid : Bool
  pub request_destination_tid : ℕ
  pub server_source_tid : ℕ
  pub highest_block_number : ℕ
  pub block_number_wrapped : Bool
  pub total_records : ℕ

abbrev pub empty_report : ObserverReport
empty_report = record {
  data_packets_sent = 0;
  distinct_data_blocks = 0;
  retransmitted_data_packets = 0;
  final_data_block_length = 0;
  terminating_short_block_present = false;
  acknowledgements_sent = 0;
  duplicate_acknowledgements = 0;
  datagrams_dropped = 0;
  datagrams_corrupted = 0;
  datagrams_injected = 0;
  stray_tid_replies = 0;
  stray_tid_reply_was_error_5 = false;
  server_selected_fresh_tid = false;
  request_destination_tid = 0;
  server_source_tid = 0;
  highest_block_number = 0;
  block_number_wrapped = false;
  total_records = 0;
}

-- The variables of the loop; a `have_` flag with its value.
pub record Observation : Type 0 where
  pub report : ObserverReport
  pub distinct_blocks : List ℕ
  pub last_data_length : ℕ
  pub have_data : Bool
  pub previous_block_for_wrap : ℕ
  pub have_previous_block : Bool
  pub highest_ack : ℕ
  pub have_ack : Bool
  pub found_request : Bool

abbrev pub data_direction : TransferDirection → Direction
data_direction download = server_to_client
data_direction upload = client_to_server

abbrev pub ack_direction : TransferDirection → Direction
ack_direction download = client_to_server
ack_direction upload = server_to_client

abbrev pub is_injected : TraceDisposition → Bool
is_injected injected = true
is_injected _ = false

abbrev pub is_peer_send : TraceRecord → Bool
is_peer_send r = not (is_injected r.disposition)

abbrev pub is_data : TraceRecord → Bool
is_data r = r.parseable && is_opcode r.packet.opcode data_block

abbrev pub is_ack : TraceRecord → Bool
is_ack r = r.parseable && is_opcode r.packet.opcode acknowledgement

-- The `switch` on the disposition.
abbrev pub count_disposition : TraceDisposition → ObserverReport → ObserverReport
count_disposition dropped p = record p { datagrams_dropped = inc32 p.datagrams_dropped }
count_disposition corrupted p = record p { datagrams_corrupted = inc32 p.datagrams_corrupted }
count_disposition injected p = record p { datagrams_injected = inc32 p.datagrams_injected }
count_disposition delivered p = p

unfoldable pub note_request : TraceRecord → Observation → Observation
note_request r o =
    if not o.found_request
      && (is_peer_send r
          && (r.parseable
              && (is_opcode r.packet.opcode read_request
                  || is_opcode r.packet.opcode write_request)))
    then record o {
      report = record o.report { request_destination_tid = r.destination_tid };
      found_request = true;
    }
    else o

unfoldable pub note_server_tid : TraceRecord → Observation → Observation
note_server_tid r o =
    if (o.report.server_source_tid == 0)
      && (is_peer_send r
          && (same_direction r.direction server_to_client
              && (r.parseable
                  && (is_opcode r.packet.opcode data_block
                      || is_opcode r.packet.opcode option_acknowledgement))))
    then record o { report = record o.report { server_source_tid = r.source_tid } }
    else o

starts_with : Bytes → Bytes → Bool
starts_with s [] = true
starts_with [] (b ∷ word) = false
starts_with (a ∷ s) (b ∷ word) = (a == b) && starts_with s word

-- `note.find(word) != npos`.
unfoldable pub contains : Bytes → Bytes → Bool
unfolding starts_with
contains [] word = starts_with [] word
contains (a ∷ s) word = starts_with (a ∷ s) word || contains s word

unfoldable pub note_stray : TraceRecord → ObserverReport → ObserverReport
note_stray r p =
    if is_injected r.disposition && contains r.note (text "reply to stray TID")
    then record p {
      stray_tid_replies = inc32 p.stray_tid_replies;
      stray_tid_reply_was_error_5 =
          if r.parseable
            && (is_opcode r.packet.opcode error && (r.packet.error_code == unknown_transfer_id))
          then true
          else p.stray_tid_reply_was_error_5;
    }
    else p

-- `std::set::insert`, as a list without repetitions.
unfoldable pub insert_block : ℕ → List ℕ → List ℕ
insert_block b [] = b ∷ []
insert_block b (c ∷ rest) =
    let inserted = insert_block b rest in if b == c then c ∷ rest else c ∷ inserted

unfoldable pub count_data : ObserverContext → TraceRecord → Observation → Observation
count_data context r o =
    if same_direction r.direction (data_direction context.direction)
      && (is_peer_send r && is_data r)
    then record o {
      distinct_blocks = insert_block r.packet.block_number o.distinct_blocks;
      last_data_length = length r.packet.contents;
      have_data = true;
      previous_block_for_wrap = r.packet.block_number;
      have_previous_block = true;
      report = record o.report {
        data_packets_sent = inc32 o.report.data_packets_sent;
        highest_block_number = max o.report.highest_block_number r.packet.block_number;
        block_number_wrapped =
            if o.have_previous_block
              && ((o.previous_block_for_wrap == 65535) && ltb r.packet.block_number 100)
            then true
            else o.report.block_number_wrapped;
        terminating_short_block_present =
            if ltb (length r.packet.contents) context.block_size
            then true
            else o.report.terminating_short_block_present;
      };
    }
    else o

unfoldable pub count_ack : ObserverContext → TraceRecord → Observation → Observation
count_ack context r o =
    if same_direction r.direction (ack_direction context.direction) && (is_peer_send r && is_ack r)
    then record o {
      report = record o.report {
        acknowledgements_sent = inc32 o.report.acknowledgements_sent;
        duplicate_acknowledgements =
            if o.have_ack && (r.packet.block_number == o.highest_ack)
            then inc32 o.report.duplicate_acknowledgements
            else o.report.duplicate_acknowledgements;
      };
      highest_ack =
          if not o.have_ack || ltb o.highest_ack r.packet.block_number
          then r.packet.block_number
          else o.highest_ack;
      have_ack = true;
    }
    else o

-- The body of the loop.
unfoldable pub observe_record : ObserverContext → TraceRecord → Observation → Observation
observe_record context r o =
    let counted = record o { report = count_disposition r.disposition o.report } in
    let named = note_server_tid r (note_request r counted) in
    count_ack context r (count_data context r (record named { report = note_stray r named.report }))

unfoldable pub observe_records : ObserverContext → List TraceRecord → Observation → Observation
observe_records context [] o = o
observe_records context (r ∷ rest) o = observe_records context rest (observe_record context r o)

-- The statements behind the loop.
unfoldable pub finish : Observation → ObserverReport
finish o =
    let p = o.report in
    record p {
      distinct_data_blocks = length o.distinct_blocks % 2 ^ 32;
      retransmitted_data_packets =
          (p.data_packets_sent + 2 ^ 32 - length o.distinct_blocks % 2 ^ 32) % 2 ^ 32;
      final_data_block_length =
          if o.have_data then o.last_data_length else p.final_data_block_length;
      server_selected_fresh_tid =
          o.found_request
          && (not (p.server_source_tid == 0)
              && not (p.server_source_tid == p.request_destination_tid));
    }

abbrev pub observation_start : List TraceRecord → Observation
observation_start records = record {
  report = record empty_report { total_records = length records % 2 ^ 32 };
  distinct_blocks = [];
  last_data_length = 0;
  have_data = false;
  previous_block_for_wrap = 0;
  have_previous_block = false;
  highest_ack = 0;
  have_ack = false;
  found_request = false;
}

unfoldable pub observe : List TraceRecord → ObserverContext → ObserverReport
observe records context = finish (observe_records context records (observation_start records))
