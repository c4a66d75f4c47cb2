-- ===== src/Proxy/Sessions.antt =====
-- The sessions of src/net/impairment_proxy.cpp over a round of its loop.
use tftp_stress_test.Common.{
  ℕ, zero, suc, ◌≡◌, refl, sym, ap, subst, ◌∙◌, Bool, true, Option, none, some, List, [], ◌∷◌, ◌++◌,
  Bytes, length, get_elem?, set, Bool-cases, Option-cases, inl, inr,
}
use tftp_stress_test.Double.{Double}
use tftp_stress_test.Engine.{Endpoint}
use tftp_stress_test.Observer.{Direction, client_to_server, server_to_client}
use tftp_stress_test.Proxy.{
  SocketName, server_socket, stray_socket, listen_socket, Session, InjectedPacket, ProxyConfig,
  Proxy, flush_due_sends, session_index, find_or_create_session,
}
use tftp_stress_test.Proxy.Relay.{
  inject, run_injection, observe_and_relay, handle_client_datagram, handle_server_datagram,
  Arrivals, with_session, poll_listen, lock_server_tid, poll_session, poll_sessions, poll_stray,
  poll_strays, relay_round,
}

-- A session keeps its client, and once it is locked it stays as it is.
abbrev pub KeepsSession : Session → Session → Type 0
KeepsSession s t = (t.client_endpoint ≡ s.client_endpoint) × (s.server_tid_locked ≡ true → t ≡ s)

-- Each session in its place, with new ones behind.
abbrev pub Keeps : List Session → List Session → Type 0
Keeps [] after = Unit
Keeps (s ∷ before) [] = ⊥
Keeps (s ∷ before) (t ∷ after) = KeepsSession s t × Keeps before after

Keeps-refl : (xs : List Session) → Keeps xs xs
Keeps-refl [] = tt
Keeps-refl (s ∷ xs) = ((refl, λ h. refl), Keeps-refl xs)

Keeps-trans : (xs ys zs : List Session) → Keeps xs ys → Keeps ys zs → Keeps xs zs
Keeps-trans [] ys zs h k = tt
Keeps-trans (x ∷ xs) [] zs h k = absurd h
Keeps-trans (x ∷ xs) (y ∷ ys) [] h k = absurd k
Keeps-trans (x ∷ xs) (y ∷ ys) (z ∷ zs) ((client, lock), h) ((client', lock'), k) = (
  (client' ∙ client, λ l. lock' (ap (λ (s : Session). s.server_tid_locked) (lock l) ∙ l) ∙ lock l),
  Keeps-trans xs ys zs h k,
)

Keeps-append : (xs ys : List Session) → Keeps xs (xs ++ ys)
Keeps-append [] ys = tt
Keeps-append (x ∷ xs) ys = ((refl, λ h. refl), Keeps-append xs ys)

Keeps-set :
    (xs : List Session) (i : ℕ) (s t : Session)
    → get_elem? xs i ≡ some s
    → KeepsSession s t
    → Keeps xs (set xs i t)
Keeps-set [] i s t h k = tt
Keeps-set (x ∷ xs) zero s t h k =
    (subst (λ (y : Session). KeepsSession y t) (same h) k, Keeps-refl xs)
  where
    same : some x ≡ some s → s ≡ x
    same e = cc
Keeps-set (x ∷ xs) (suc i) s t h k = ((refl, λ l. refl), Keeps-set xs i s t h k)

lock_server_tid-KeepsSession :
    (sender : Endpoint) (s : Session) → KeepsSession s (lock_server_tid sender s)
unfolding lock_server_tid
lock_server_tid-KeepsSession sender s = elim (Bool-cases s.server_tid_locked) [
  | inl e ↦ rw e (refl, λ l. refl)
  | inr e ↦ rw e (refl, λ l. cc)
]

with_session-Keeps :
    {W : Type 0} (xs : List Session) (i : ℕ) (next : ℕ → Session → Proxy W → Proxy W) (p : Proxy W)
    → Keeps xs p.sessions
    → ((s : Session) → get_elem? p.sessions i ≡ some s → Keeps p.sessions (next i s p).sessions)
    → Keeps xs (with_session i next p).sessions
unfolding with_session
with_session-Keeps xs i next p h each = elim (Option-cases (get_elem? p.sessions i)) [
  | inl e ↦ rw (e, with_session) h
  | inr (s, e) ↦ rw (e, with_session) (Keeps-trans xs p.sessions _ h (each s e))
]

same_sessions : (xs ys : List Session) → xs ≡ ys → Keeps xs ys
same_sessions xs ys e = subst (Keeps xs) e (Keeps-refl xs)

some_second : (r r' : ℕ × List Session) → some r ≡ some r' → r.1 ≡ r'.1
some_second r r' h = let same : r ≡ r' = cc in ap (λ (q : ℕ × List Session). q.1) same

absent : {A : Type 0} {a : A} → none ≡ some a → ⊥
absent h = cc

find_or_create_session-Keeps :
    (server_endpoint client : Endpoint) (opens : Bool) (now i : ℕ) (xs ys : List Session)
    → find_or_create_session server_endpoint opens client now xs ≡ some (i, ys)
    → Keeps xs ys
unfolding find_or_create_session
find_or_create_session-Keeps server_endpoint client opens now i xs ys h =
    elim (Option-cases (session_index client xs)) [
      | inl e ↦ elim (Bool-cases opens) [
        | inl f ↦
            let same = some_second _ _ (rw (e, f, find_or_create_session) at h) in
            subst (Keeps xs) same (Keeps-append xs _)
        | inr f ↦ absurd (absent (rw (e, f, find_or_create_session) at h))
      ]
      | inr (j, e) ↦ same_sessions xs ys (some_second _ _ (rw (e, find_or_create_session) at h))
    ]

module _ {W : Type 0} ⦃d : Double W⦄ (config : ProxyConfig W) where
  inject_sessions :
      (now i : ℕ) (s : Session) (packets : List InjectedPacket) (p : Proxy W)
      → (inject config now i s packets p).sessions ≡ p.sessions
  unfolding inject
  inject_sessions now i s [] p = refl
  inject_sessions now i s (packet ∷ packets) p = inject_sessions now i s packets _

  observe_and_relay_sessions :
      (now i : ℕ) (s : Session) (direction : Direction) (datagram : Bytes) (outbound : SocketName)
      (destination : Endpoint) (p : Proxy W)
      → (observe_and_relay config now i s direction datagram outbound destination p).sessions
        ≡ p.sessions
  unfolding observe_and_relay run_injection
  observe_and_relay_sessions now i s direction datagram outbound destination p =
      inject_sessions now i s _ _

  poll_stray_sessions :
      (i : ℕ) (arrival : Option (Endpoint × Bytes)) (p : Proxy W)
      → (poll_stray config i arrival p).sessions ≡ p.sessions
  unfolding poll_stray
  poll_stray_sessions i none p = refl
  poll_stray_sessions i (some (sender, datagram)) p = refl

  poll_listen-Keeps :
      (now : ℕ) (opens : Bool) (arrival : Option (Endpoint × Bytes)) (p : Proxy W)
      → Keeps p.sessions (poll_listen config now opens arrival p).sessions
  unfolding poll_listen handle_client_datagram
  poll_listen-Keeps now opens none p = Keeps-refl p.sessions
  poll_listen-Keeps now opens (some (sender, datagram)) p =
      elim (Option-cases
        (find_or_create_session config.server_endpoint opens sender now p.sessions)) [
          | inl e ↦ rw (e, poll_listen) (Keeps-refl p.sessions)
          | inr ((i, xs), e) ↦
              rw (e, poll_listen)
                (with_session-Keeps p.sessions i
                  (λ j s. handle_client_datagram config now j s datagram)
                  (record p { sessions = xs })
                  (find_or_create_session-Keeps config.server_endpoint sender opens now i p.sessions
                    xs e)
                  (λ s at. same_sessions xs _ (
                    sym (
                      observe_and_relay_sessions now i s client_to_server datagram (server_socket i)
                        s.server_destination (record p { sessions = xs })))))
        ]

  poll_session-Keeps :
      (now i : ℕ) (arrival : Option (Endpoint × Bytes)) (p : Proxy W)
      → Keeps p.sessions (poll_session config now i arrival p).sessions
  unfolding poll_session handle_server_datagram
  poll_session-Keeps now i none p = Keeps-refl p.sessions
  poll_session-Keeps now i (some (sender, datagram)) p =
      with_session-Keeps p.sessions i _ p (Keeps-refl p.sessions) (λ s at.
        let locked = lock_server_tid sender s in
        let after : Proxy W = record p { sessions = set p.sessions i locked } in
        subst (Keeps p.sessions)
          (sym (
            observe_and_relay_sessions now i locked server_to_client datagram listen_socket
              locked.client_endpoint after))
          (Keeps-set p.sessions i s locked at (lock_server_tid-KeepsSession sender s)))

  poll_sessions-Keeps :
      (now : ℕ) (arrived : Arrivals) (i count : ℕ) (p : Proxy W)
      → Keeps p.sessions (poll_sessions config now arrived i count p).sessions
  unfolding poll_sessions
  poll_sessions-Keeps now arrived i zero p = Keeps-refl p.sessions
  poll_sessions-Keeps now arrived i (suc count) p =
      let next = poll_session config now i (arrived (server_socket i)) p in
      Keeps-trans p.sessions next.sessions _
        (poll_session-Keeps now i (arrived (server_socket i)) p)
        (poll_sessions-Keeps now arrived (suc i) count next)

  poll_strays_sessions :
      (arrived : Arrivals) (i count : ℕ) (p : Proxy W)
      → (poll_strays config arrived i count p).sessions ≡ p.sessions
  unfolding poll_strays
  poll_strays_sessions arrived i zero p = refl
  poll_strays_sessions arrived i (suc count) p =
      poll_strays_sessions arrived (suc i) count _
      ∙ poll_stray_sessions i (arrived (stray_socket i)) p

  -- Over a round of the loop, whatever arrives, no session is lost or changes its client, and a session that has locked on
  -- to the TID of its server sends to that TID for good.
  pub relay_round-Keeps :
      (now : ℕ) (opens : Bool) (arrived : Arrivals) (p : Proxy W)
      → Keeps p.sessions (relay_round config now opens arrived p).1.sessions
  unfolding relay_round
  relay_round-Keeps now opens arrived p =
      let flushed : Proxy W = record p { scheduled = (flush_due_sends now p.scheduled).1 } in
      let heard = poll_listen config now opens (arrived listen_socket) flushed in
      let relayed = poll_sessions config now arrived 0 (length heard.sessions) heard in
      subst (Keeps p.sessions) (sym (poll_strays_sessions arrived 0 relayed.stray_sockets relayed))
        (Keeps-trans p.sessions heard.sessions relayed.sessions
          (poll_listen-Keeps now opens (arrived listen_socket) flushed)
          (poll_sessions-Keeps now arrived 0 (length heard.sessions) heard))
