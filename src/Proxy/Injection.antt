-- ===== src/Proxy/Injection.antt =====
-- The injection script of src/net/impairment_proxy.cpp: each packet of it is sent once and recorded once.
use tftp_stress_test.Common.{
  ℕ, suc, ◌+◌, ◌≡◌, refl, sym, ◌∙◌, Bool, true, false, List, [], ◌∷◌, ◌++◌, append_assoc,
  append-nil, if◌then◌else◌, length,
}
use tftp_stress_test.Double.{Double}
use tftp_stress_test.Observer.{injected}
use tftp_stress_test.Proxy.{
  listen_socket, server_socket, stray_socket, port, Session, ScheduledSend, TraceEntry,
  InjectedPacket, ProxyConfig, Proxy,
}
use tftp_stress_test.Proxy.Relay.{injection_socket, injection_destination, injected_entry, inject}

module _ {W : Type 0} ⦃d : Double W⦄ (config : ProxyConfig W) where
  -- A packet of the script, the send it leads to and its record: the send carries the packet's bytes, to the side that
  -- the script names and after its delay, through a stray socket of its own when the script asks for one.
  pub record IsInjected (now i strays : ℕ) (s : Session) (packet : InjectedPacket)
      (send : ScheduledSend) (entry : TraceEntry) : Type 0 where
    pub carried : send.bytes ≡ packet.bytes
    pub in_time : send.deadline ≡ now + packet.delay
    pub addressed :
        send.destination
        ≡ (if packet.toward_client then s.client_endpoint else s.server_destination)
    pub from_stray : packet.from_stray_tid ≡ true → send.socket ≡ stray_socket strays
    pub from_client_side :
        packet.from_stray_tid ≡ false → packet.toward_client ≡ true → send.socket ≡ listen_socket
    pub from_server_side :
        packet.from_stray_tid ≡ false → packet.toward_client ≡ false → send.socket ≡ server_socket i
    pub marked : entry.seen.disposition ≡ injected
    pub measured : entry.datagram_length ≡ length packet.bytes
    pub sent_from : entry.seen.source_tid ≡ config.local_port send.socket
    pub sent_to : entry.seen.destination_tid ≡ port send.destination

  -- The packets of a script, the sends and the records correspond one to one, in order; `strays` sockets exist ahead of
  -- the first and `after` behind the last.
  pub data Injections (now i : ℕ) (s : Session)
      : ℕ → ℕ → List InjectedPacket → List ScheduledSend → List TraceEntry → Type 0 where
    no_more : (strays : ℕ) → Injections now i s strays strays [] [] []
    one_more :
        (strays after : ℕ) (packet : InjectedPacket) (send : ScheduledSend) (entry : TraceEntry)
        (packets : List InjectedPacket) (sends : List ScheduledSend) (entries : List TraceEntry)
        → IsInjected now i strays s packet send entry
        → Injections now i s
            (if packet.from_stray_tid then suc strays else strays)
            after
            packets
            sends
            entries
        → Injections now i s strays after (packet ∷ packets) (send ∷ sends) (entry ∷ entries)

  -- What injection adds to the proxy.
  pub record Adds (now i : ℕ) (s : Session) (packets : List InjectedPacket) (p q : Proxy W)
      : Type 0 where
    pub entries : List TraceEntry
    pub sends : List ScheduledSend
    pub records : q.records ≡ p.records ++ entries
    pub scheduled : q.scheduled ≡ p.scheduled ++ sends
    pub one_to_one : Injections now i s p.stray_sockets q.stray_sockets packets sends entries

  injected_send : ℕ → ℕ → Session → ℕ → InjectedPacket → ScheduledSend
  injected_send now i s strays packet = record {
    deadline = now + packet.delay;
    socket = injection_socket i strays packet;
    destination = injection_destination s packet.toward_client;
    bytes = packet.bytes;
  }

  destination_by_side :
      (s : Session) (side : Bool)
      → injection_destination s side ≡ (if side then s.client_endpoint else s.server_destination)
  destination_by_side s true = refl
  destination_by_side s false = refl

  injected_entry-IsInjected :
      (now i strays : ℕ) (s : Session) (packet : InjectedPacket)
      → IsInjected now i strays s packet
          (injected_send now i s strays packet)
          (injected_entry config now s (injection_socket i strays packet) packet)
  unfolding injected_send injected_entry
  injected_entry-IsInjected now i strays s packet = record {
    carried = refl;
    in_time = refl;
    addressed = destination_by_side s packet.toward_client;
    from_stray = λ e. rw e refl;
    from_client_side = λ e f. rw (e, f) refl;
    from_server_side = λ e f. rw (e, f) refl;
    marked = refl;
    measured = refl;
    sent_from = refl;
    sent_to = refl;
  }

  pub inject-Adds :
      (now i : ℕ) (s : Session) (packets : List InjectedPacket) (p : Proxy W)
      → Adds now i s packets p (inject config now i s packets p)
  unfolding inject injected_send
  inject-Adds now i s [] p = record {
    entries = [];
    sends = [];
    records = sym (append-nil p.records);
    scheduled = sym (append-nil p.scheduled);
    one_to_one = no_more p.stray_sockets;
  }
  inject-Adds now i s (packet ∷ packets) p =
      let send = injected_send now i s p.stray_sockets packet in
      let entry = injected_entry config now s send.socket packet in
      let next : Proxy W = record p {
        stray_sockets = if packet.from_stray_tid then suc p.stray_sockets else p.stray_sockets;
        scheduled = p.scheduled ++ send ∷ [];
        records = p.records ++ entry ∷ [];
      } in
      let rest = inject-Adds now i s packets next in
      record {
        entries = entry ∷ rest.entries;
        sends = send ∷ rest.sends;
        records = rest.records ∙ append_assoc p.records _ rest.entries;
        scheduled = rest.scheduled ∙ append_assoc p.scheduled _ rest.sends;
        one_to_one =
            one_more p.stray_sockets _ packet send entry packets rest.sends rest.entries
              (injected_entry-IsInjected now i p.stray_sockets s packet) rest.one_to_one;
      }
