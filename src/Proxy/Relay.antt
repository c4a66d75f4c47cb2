-- ===== src/Proxy/Relay.antt =====
-- src/net/impairment_proxy.cpp: what the proxy does with a datagram, and one round of its loop. One reading of the clock,
-- `now`, stands for those that the code takes in a round.
use tftp_stress_test.Common.{
  ℕ, zero, suc, ◌+◌, ◌-◌, ltb, Bool, true, false, ◌||◌, Option, none, some, List, [], ◌∷◌, ◌++◌,
  map, Bytes, text, if◌then◌else◌, length, is_empty, get_elem?, set,
}
use tftp_stress_test.Packet.Parse.{parse_tftp_packet}
use tftp_stress_test.Double.{Double}
use tftp_stress_test.Engine.{Endpoint}
use tftp_stress_test.Observer.{
  Direction, client_to_server, server_to_client, delivered, dropped, corrupted, injected, is_data,
}
use tftp_stress_test.Impairments.{DeliveryAction, PipelineResult, process}
use tftp_stress_test.Proxy.{
  SocketName, listen_socket, server_socket, stray_socket, port, Session, ScheduledSend, TraceEntry,
  InjectedPacket, ProxyConfig, Proxy, flush_due_sends, find_or_create_session, parses, packet_of,
  failure_of, source_tid_of, destination_tid_of,
}

-- A record before the pipeline has decided.
unfoldable pub observed_entry : ℕ → Session → Direction → Bytes → TraceEntry
observed_entry now s direction datagram =
    let parsed = parse_tftp_packet datagram in
    record {
      seen = record {
        direction = direction;
        source_tid = source_tid_of direction s;
        destination_tid = destination_tid_of direction s;
        parseable = parses parsed;
        packet = packet_of parsed;
        disposition = delivered;
        note = [];
      };
      relative_time = now - s.started;
      datagram_length = length datagram;
      parse_failure = failure_of parsed;
      was_duplicated = false;
    }

abbrev pub any_corrupted : List DeliveryAction → Bool
any_corrupted [] = false
any_corrupted (delivery ∷ deliveries) = delivery.corrupted || any_corrupted deliveries

unfoldable pub decided_entry : PipelineResult → TraceEntry → TraceEntry
decided_entry result entry =
    if result.dropped
    then record entry {
      seen = record entry.seen { disposition = dropped; note = result.drop_reason };
    }
    else record entry {
      seen = record entry.seen {
        disposition = if any_corrupted result.deliveries then corrupted else delivered;
        note =
            if any_corrupted result.deliveries then text "corrupted payload" else entry.seen.note;
      };
      was_duplicated = ltb 1 (length result.deliveries);
    }

abbrev pub scheduled_send : ℕ → SocketName → Endpoint → DeliveryAction → ScheduledSend
scheduled_send now outbound destination delivery = record {
  deadline = now + delivery.delay;
  socket = outbound;
  destination = destination;
  bytes = delivery.bytes;
}

-- The sends of a datagram that the pipeline has not dropped.
unfoldable pub sends_of : ℕ → SocketName → Endpoint → PipelineResult → List ScheduledSend
sends_of now outbound destination result =
    if result.dropped then [] else map (scheduled_send now outbound destination) result.deliveries

abbrev pub injection_destination : Session → Bool → Endpoint
injection_destination s true = s.client_endpoint
injection_destination s false = s.server_destination

-- `i` is the place of the session, `strays` that of a new stray socket.
abbrev pub injection_socket : ℕ → ℕ → InjectedPacket → SocketName
injection_socket i strays packet =
    if packet.from_stray_tid
    then stray_socket strays
    else if packet.toward_client
    then listen_socket
    else server_socket i

abbrev pub injection_direction : Bool → Direction
injection_direction true = server_to_client
injection_direction false = client_to_server

-- `none` when no datagram is there: `select` or `receive_from` says so.
abbrev pub Arrivals : Type 0
Arrivals = SocketName → Option (Endpoint × Bytes)

-- The first reply fixes the server's TID.
unfoldable pub lock_server_tid : Endpoint → Session → Session
lock_server_tid sender s =
    if s.server_tid_locked
    then s
    else record s { server_destination = sender; server_tid_locked = true }

unfoldable pub with_session :
    {W : Type 0} → ℕ → (ℕ → Session → Proxy W → Proxy W) → Proxy W → Proxy W
with_session i next p = elim (get_elem? p.sessions i) [ none ↦ p | some s ↦ next i s p ]

module _ {W : Type 0} ⦃d : Double W⦄ (config : ProxyConfig W) where
  unfoldable pub injected_entry : ℕ → Session → SocketName → InjectedPacket → TraceEntry
  injected_entry now s outbound packet =
      let parsed = parse_tftp_packet packet.bytes in
      record {
        seen = record {
          direction = injection_direction packet.toward_client;
          source_tid = config.local_port outbound;
          destination_tid = port (injection_destination s packet.toward_client);
          parseable = parses parsed;
          packet = packet_of parsed;
          disposition = injected;
          note = if is_empty packet.description then text "injected packet" else packet.description;
        };
        relative_time = now - s.started;
        datagram_length = length packet.bytes;
        parse_failure = [];
        was_duplicated = false;
      }

  -- The loop of `run_injection`.
  unfoldable pub inject : ℕ → ℕ → Session → List InjectedPacket → Proxy W → Proxy W
  inject now i s [] p = p
  inject now i s (packet ∷ packets) p =
      let outbound = injection_socket i p.stray_sockets packet in
      inject now i s packets (record p {
        stray_sockets = if packet.from_stray_tid then suc p.stray_sockets else p.stray_sockets;
        scheduled =
            p.scheduled
            ++ record {
              deadline = now + packet.delay;
              socket = outbound;
              destination = injection_destination s packet.toward_client;
              bytes = packet.bytes;
            }
              ∷ [];
        records = p.records ++ injected_entry now s outbound packet ∷ [];
      })

  unfoldable pub run_injection : ℕ → ℕ → Session → TraceEntry → Proxy W → Proxy W
  run_injection now i s entry p = inject now i s (config.injection entry) p

  unfoldable pub observe_and_relay :
      ℕ → ℕ → Session → Direction → Bytes → SocketName → Endpoint → Proxy W → Proxy W
  observe_and_relay now i s direction datagram outbound destination p =
      let observed = observed_entry now s direction datagram in
      let (result, pipeline) =
        process config.impairment direction datagram (is_data observed.seen) now p.pipeline in
      let entry = decided_entry result observed in
      run_injection now i s entry (record p {
        scheduled = p.scheduled ++ sends_of now outbound destination result;
        pipeline = pipeline;
        records = p.records ++ entry ∷ [];
      })

  unfoldable pub handle_client_datagram : ℕ → ℕ → Session → Bytes → Proxy W → Proxy W
  handle_client_datagram now i s datagram p =
      observe_and_relay now i s client_to_server datagram (server_socket i) s.server_destination p

  unfoldable pub handle_server_datagram : ℕ → ℕ → Session → Bytes → Proxy W → Proxy W
  handle_server_datagram now i s datagram p =
      observe_and_relay now i s server_to_client datagram listen_socket s.client_endpoint p

  unfoldable pub poll_listen : ℕ → Bool → Option (Endpoint × Bytes) → Proxy W → Proxy W
  poll_listen now opens none p = p
  poll_listen now opens (some (sender, datagram)) p =
      elim (find_or_create_session config.server_endpoint opens sender now p.sessions) [
        | none ↦ p
        | some (i, sessions) ↦
            with_session i (λ j s. handle_client_datagram now j s datagram)
              (record p { sessions = sessions })
      ]

  unfoldable pub poll_session : ℕ → ℕ → Option (Endpoint × Bytes) → Proxy W → Proxy W
  poll_session now i none p = p
  poll_session now i (some (sender, datagram)) p =
      with_session i
        (λ j s q.
          let locked = lock_server_tid sender s in
          handle_server_datagram now j locked datagram
            (record q { sessions = set q.sessions j locked }))
        p

  -- The sessions from `i` on, `count` of them.
  unfoldable pub poll_sessions : ℕ → Arrivals → ℕ → ℕ → Proxy W → Proxy W
  poll_sessions now arrived i zero p = p
  poll_sessions now arrived i (suc count) p =
      poll_sessions now arrived (suc i) count (poll_session now i (arrived (server_socket i)) p)

  -- A reply to a stray packet is recorded and not relayed; it has no time.
  unfoldable pub stray_entry : ℕ → Endpoint → Bytes → TraceEntry
  stray_entry i sender datagram =
      let parsed = parse_tftp_packet datagram in
      record {
        seen = record {
          direction = client_to_server;
          source_tid = port sender;
          destination_tid = config.local_port (stray_socket i);
          parseable = parses parsed;
          packet = packet_of parsed;
          disposition = injected;
          note = text "reply to stray TID (dropped by proxy)";
        };
        relative_time = 0;
        datagram_length = length datagram;
        parse_failure = [];
        was_duplicated = false;
      }

  unfoldable pub poll_stray : ℕ → Option (Endpoint × Bytes) → Proxy W → Proxy W
  poll_stray i none p = p
  poll_stray i (some (sender, datagram)) p = record p {
    records = p.records ++ stray_entry i sender datagram ∷ [];
  }

  unfoldable pub poll_strays : Arrivals → ℕ → ℕ → Proxy W → Proxy W
  poll_strays arrived i zero p = p
  poll_strays arrived i (suc count) p =
      poll_strays arrived (suc i) count (poll_stray i (arrived (stray_socket i)) p)

  -- One round of `relay_loop`: what is due is sent, then each socket that has a datagram is read once.
  unfoldable pub relay_round : ℕ → Bool → Arrivals → Proxy W → List ScheduledSend × Proxy W
  relay_round now opens arrived p =
      let (sent, remaining) = flush_due_sends now p.scheduled in
      let heard =
        poll_listen now opens (arrived listen_socket) (record p { scheduled = remaining }) in
      let relayed = poll_sessions now arrived 0 (length heard.sessions) heard in
      (sent, poll_strays arrived 0 relayed.stray_sockets relayed)
