-- ===== src/Proxy.antt =====
-- src/net/impairment_proxy.cpp: the proxy between a client and a server, with the records of src/net/packet_trace.hpp that
-- it writes. The sockets, the clock and the injection script are the environment; a socket is named by its place.
pub mod Relay
pub mod Injection
pub mod Laws
pub mod Sessions
mod Runs
use tftp_stress_test.Common.{
  ℕ, zero, suc, ◌+◌, ltb, leb, ◌==◌, Bool, true, false, ◌||◌, Option, none, some, List, [], ◌∷◌,
  ◌++◌, Bytes, text, if◌then◌else◌, length, is_empty, get_elem?,
}
use tftp_stress_test.Packet.{TftpPacket, empty_packet}
use tftp_stress_test.Packet.Parse.{ParseResult, success, failure, out_of_rounds, parse_tftp_packet}
use tftp_stress_test.Double.{Double}
use tftp_stress_test.Engine.{Endpoint, unbound, ipv4, ipv6, endpoint_eq}
use tftp_stress_test.Observer.{
  Direction, client_to_server, server_to_client, TraceDisposition, delivered, dropped, corrupted,
  injected, TraceRecord,
}
use tftp_stress_test.Impairments.{
  ImpairmentConfig, DeliveryAction, PipelineResult, Pipeline, process,
}

unfoldable pub trace_disposition_name : TraceDisposition → Bytes
trace_disposition_name delivered = text "delivered"
trace_disposition_name dropped = text "dropped"
trace_disposition_name corrupted = text "corrupted"
trace_disposition_name injected = text "injected"

-- `listen_socket_`, the `server_socket` of a session and a stray socket, by their indices.
pub data SocketName : Type 0 where
  listen_socket : SocketName
  server_socket stray_socket : ℕ → SocketName

-- `Endpoint::port`
abbrev pub port : Endpoint → ℕ
port unbound = 0
port (ipv4 a p) = p
port (ipv6 a p) = p

pub record Session : Type 0 where
  pub client_endpoint : Endpoint
  pub server_destination : Endpoint
  pub server_tid_locked : Bool
  pub started : ℕ

pub record ScheduledSend : Type 0 where
  pub deadline : ℕ
  pub socket : SocketName
  pub destination : Endpoint
  pub bytes : Bytes

-- A record of the trace: what the observer reads, and the rest.
pub record TraceEntry : Type 0 where
  pub seen : TraceRecord
  pub relative_time : ℕ
  pub datagram_length : ℕ
  pub parse_failure : Bytes
  pub was_duplicated : Bool

pub record InjectedPacket : Type 0 where
  pub bytes : Bytes
  pub toward_client : Bool
  pub delay : ℕ
  pub from_stray_tid : Bool
  pub description : Bytes

-- `local_port` is the port that the kernel gave a socket. A script that is not set injects nothing.
pub record ProxyConfig (W : Type 0) : Type 0 where
  pub server_endpoint : Endpoint
  pub impairment : ImpairmentConfig W
  pub injection : TraceEntry → List InjectedPacket
  pub local_port : SocketName → ℕ

pub record Proxy (W : Type 0) : Type 0 where
  pub sessions : List Session
  pub stray_sockets : ℕ
  pub scheduled : List ScheduledSend
  pub pipeline : Pipeline W
  pub records : List TraceEntry

-- What is sent, in order, and what stays scheduled. The code also tests that a send has a socket, which each has.
unfoldable pub flush_due_sends : ℕ → List ScheduledSend → List ScheduledSend × List ScheduledSend
flush_due_sends now [] = ([], [])
flush_due_sends now (send ∷ scheduled) =
    let (sent, remaining) = flush_due_sends now scheduled in
    if leb send.deadline now then (send ∷ sent, remaining) else (sent, send ∷ remaining)

-- `find_or_create_session`: the index of the client's session.
unfoldable pub session_index : Endpoint → List Session → Option ℕ
session_index client [] = none
session_index client (s ∷ sessions) =
    let later = session_index client sessions in
    if endpoint_eq s.client_endpoint client
    then some 0
    else elim later [ none ↦ none | some i ↦ some (suc i) ]

-- `opens` says whether a new socket can be opened and bound.
unfoldable pub find_or_create_session :
    Endpoint → Bool → Endpoint → ℕ → List Session → Option (ℕ × List Session)
find_or_create_session server_endpoint opens client now sessions =
    elim (session_index client sessions) [
      | some i ↦ some (i, sessions)
      | none ↦
          if opens
          then some (
            length sessions,
            sessions
                ++ record {
                  client_endpoint = client;
                  server_destination = server_endpoint;
                  server_tid_locked = false;
                  started = now;
                }
                  ∷ [],
          )
          else none
    ]

abbrev pub parses : ParseResult TftpPacket → Bool
parses (success packet) = true
parses _ = false

abbrev pub packet_of : ParseResult TftpPacket → TftpPacket
packet_of (success packet) = packet
packet_of _ = empty_packet

abbrev pub failure_of : ParseResult TftpPacket → Bytes
failure_of (failure reason) = reason
failure_of _ = []

abbrev pub source_tid_of : Direction → Session → ℕ
source_tid_of client_to_server s = port s.client_endpoint
source_tid_of server_to_client s = port s.server_destination

abbrev pub destination_tid_of : Direction → Session → ℕ
destination_tid_of client_to_server s = port s.server_destination
destination_tid_of server_to_client s = port s.client_endpoint
