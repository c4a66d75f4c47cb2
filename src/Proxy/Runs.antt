-- ===== src/Proxy/Runs.antt =====
-- Tests of src/net/impairment_proxy.cpp, and the theorems at concrete inputs.
use tftp_stress_test.Common.{
  ℕ, ◌+◌, ◌-◌, ◌*◌, ◌/◌, ◌≡◌, refl, true, false, none, some, [], ◌∷◌, ◌++◌, Bytes, ltb, leb,
}
use tftp_stress_test.Double.{Double, IsDouble}
use tftp_stress_test.Engine.{Endpoint, ipv4}
use tftp_stress_test.Observer.{client_to_server}
use tftp_stress_test.Impairments.{any_byte, ImpairmentConfig}
use tftp_stress_test.Proxy.{
  listen_socket, server_socket, stray_socket, Session, ScheduledSend, ProxyConfig, Proxy,
  flush_due_sends,
}
use tftp_stress_test.Proxy.Relay.{Arrivals, observed_entry, observe_and_relay, relay_round}
use tftp_stress_test.Proxy.Laws.{
  Splits, flush_due_sends-Splits, IsRelayed, observe_and_relay-IsRelayed, transparent,
  observe_and_relay-transparent,
}
use tftp_stress_test.Proxy.Sessions.{Keeps, relay_round-Keeps}

-- Whole numbers are enough where nothing is drawn.
instance abbrev whole : Double ℕ
whole = record {
  nought = 0;
  one = 1;
  thousand = 1000;
  unit_scale = 0;
  le = leb;
  lt = ltb;
  add = λ a b. a + b;
  sub = λ a b. a - b;
  mul = λ a b. a * b;
  div = λ a b. a / b;
  neg = λ a. a;
  of_number = λ n. n;
  to_number = λ a. a;
  seconds_since = λ now before. now - before;
}

whole-IsDouble : IsDouble ℕ
whole-IsDouble = record { nought_le = refl; one_le = refl; one_above = refl }

abbrev client : Endpoint
client = ipv4 1 4000

abbrev server : Endpoint
server = ipv4 1 69

abbrev server_tid : Endpoint
server_tid = ipv4 1 5000

abbrev losing : ImpairmentConfig ℕ
losing = record {
  uniform_loss_probability = 1;
  gilbert_elliott_enabled = false;
  good_to_bad_probability = 0;
  bad_to_good_probability = 0;
  loss_in_good_state = 0;
  loss_in_bad_state = 0;
  duplication_probability = 1;
  reorder_probability = 0;
  reorder_extra_delay = 60;
  fixed_delay = 5;
  jitter = 0;
  corruption_probability = 0;
  corruption_target = any_byte;
  throttle_enabled = false;
  throttle_bytes_per_second = 0;
  blackout_enabled = false;
  blackout_after_data_packets = 0;
}

-- A stray copy of an ACK goes to the server behind every datagram.
abbrev config : ProxyConfig ℕ
config = record {
  server_endpoint = server;
  impairment = losing;
  injection = λ entry.
      record {
        bytes = 0 ∷ 4 ∷ 0 ∷ 1 ∷ [];
        toward_client = false;
        delay = 3;
        from_stray_tid = true;
        description = [];
      }
      ∷ [];
  local_port = λ socket. 7000;
}

abbrev session : Session
session = record {
  client_endpoint = client;
  server_destination = server_tid;
  server_tid_locked = true;
  started = 10;
}

abbrev send_at : ℕ → ScheduledSend
send_at deadline = record {
  deadline = deadline;
  socket = listen_socket;
  destination = client;
  bytes = 1 ∷ [];
}

abbrev proxy : Proxy ℕ
proxy = record {
  sessions = session ∷ [];
  stray_sockets = 0;
  scheduled = send_at 20 ∷ send_at 90 ∷ [];
  pipeline = record {
    prng = 7;
    client_to_server_bad = false;
    server_to_client_bad = false;
    delivered_data_packets = 0;
    token_bucket_bytes = 0;
    last_refill = 0;
  };
  records = [];
}

abbrev ack_one : Bytes
ack_one = 0 ∷ 4 ∷ 0 ∷ 1 ∷ []

-- A second server port answers the session, and another client asks.
abbrev arrived : Arrivals
arrived listen_socket = some (ipv4 2 4000, ack_one)
arrived (server_socket i) = some (ipv4 1 5001, ack_one)
arrived (stray_socket i) = none

flush_due_sends-Splits_example :
    Splits 20
      (send_at 20 ∷ send_at 90 ∷ [])
      (flush_due_sends 20 (send_at 20 ∷ send_at 90 ∷ [])).0
      (flush_due_sends 20 (send_at 20 ∷ send_at 90 ∷ [])).1
flush_due_sends-Splits_example = flush_due_sends-Splits 20 (send_at 20 ∷ send_at 90 ∷ [])

observe_and_relay-IsRelayed_example :
    IsRelayed config 15 0 session client_to_server ack_one (server_socket 0) server_tid proxy (
      observe_and_relay config 15 0 session client_to_server ack_one
        (server_socket 0)
        server_tid
        proxy)
observe_and_relay-IsRelayed_example =
    observe_and_relay-IsRelayed config 15 0 session client_to_server ack_one (server_socket 0)
      server_tid proxy

observe_and_relay-transparent_example :
    let q =
      observe_and_relay
        (transparent whole-IsDouble config)
        15
        0
        session
        client_to_server
        ack_one
        (server_socket 0)
        server_tid
        proxy in
    (q.scheduled
      ≡ proxy.scheduled
        ++ record {
          deadline = 15 + 0;
          socket = server_socket 0;
          destination = server_tid;
          bytes = ack_one;
        }
          ∷ [])
    × (q.records ≡ proxy.records ++ observed_entry 15 session client_to_server ack_one ∷ [])
observe_and_relay-transparent_example =
    observe_and_relay-transparent whole-IsDouble config 15 0 session client_to_server ack_one
      (server_socket 0) server_tid proxy

relay_round-Keeps_example :
    Keeps (session ∷ []) (relay_round config 25 true arrived proxy).1.sessions
relay_round-Keeps_example = relay_round-Keeps config 25 true arrived proxy
