-- ===== src/Transport/Sockets.antt =====
-- turn_server/src/transport/tcp_transport.cpp, tls_transport.cpp and udp_transport.cpp around their sessions. A session is
-- known by a number, the next one for each connection.
use zaza.Common.{
  ℕ, ◌+◌, ◌≡◌, refl, sym, ap, ◌∙◌, inl, inr, true, Bool-cases, bytes_beq_iff, Bytes, List, [], ◌∷◌,
  ◌++◌, Option, none, some, if◌then◌else◌, Map, lookup, insert, erase, lookup-insert, lookup-erase,
  same, bytes_eq,
}
use zaza.Transport.Endpoint.{
  Endpoint, endpoint_key, endpoint_beq, endpoint_beq_iff, endpoint_key-injective,
}

pub record StreamTransport : Type 0 where
  pub sessions : Map Bytes ℕ
  pub accepted : ℕ

-- The callback of `accept`; a connection that fails leaves no endpoint.
unfoldable pub accept_stream : StreamTransport → Option Endpoint → StreamTransport
unfolding endpoint_key
accept_stream t none = t
accept_stream t (some from) = record {
  sessions = insert (endpoint_key from) t.accepted t.sessions;
  accepted = t.accepted + 1;
}

-- The session that `send` writes to, if there is one.
unfoldable pub session_to : StreamTransport → Endpoint → Option ℕ
unfolding endpoint_key
session_to t to = lookup (endpoint_key to) t.sessions

-- What every session does at an error of a read, of a write or of the handshake.
unfoldable pub remove_stream : StreamTransport → Bytes → StreamTransport
remove_stream t key = record t { sessions = erase key t.sessions }

pub data StreamEvent : Type 0 where
  comes : Endpoint → StreamEvent
  fails_to_come : StreamEvent
  ends : Endpoint → StreamEvent

unfoldable pub on_stream_event : StreamTransport → StreamEvent → StreamTransport
unfolding accept_stream remove_stream endpoint_key
on_stream_event t (comes from) = accept_stream t (some from)
on_stream_event t fails_to_come = accept_stream t none
on_stream_event t (ends from) = remove_stream t (endpoint_key from)

-- The events, the latest first.
unfoldable pub run_stream : List StreamEvent → StreamTransport
unfolding on_stream_event
run_stream [] = record { sessions = []; accepted = 0 }
run_stream (e ∷ events) = on_stream_event (run_stream events) e

abbrev arrivals : List StreamEvent → ℕ
arrivals [] = 0
arrivals (comes from ∷ events) = arrivals events + 1
arrivals (fails_to_come ∷ events) = arrivals events
arrivals (ends from ∷ events) = arrivals events

-- Whether the latest event of an endpoint is that it came, and as which connection.
abbrev pub present : Endpoint → List StreamEvent → Option ℕ
present to [] = none
present to (comes from ∷ events) =
    if endpoint_beq from to then some (arrivals events) else present to events
present to (fails_to_come ∷ events) = present to events
present to (ends from ∷ events) = if endpoint_beq from to then none else present to events

-- Two endpoints have the same key only if they have the same address and the same port.
same-endpoint_key : (a b : Endpoint) → same (endpoint_key a) (endpoint_key b) ≡ endpoint_beq a b
same-endpoint_key a b = elim (Bool-cases (endpoint_beq a b)) [
  | inl y ↦
      (bytes_beq_iff (endpoint_key a) (endpoint_key b)).1
        (ap endpoint_key ((endpoint_beq_iff a b).0 y))
      ∙ sym y
  | inr n ↦ elim (Bool-cases (same (endpoint_key a) (endpoint_key b))) [
    | inl y ↦
        let e : a ≡ b =
          endpoint_key-injective a b ((bytes_beq_iff (endpoint_key a) (endpoint_key b)).0 y) in
        let z : endpoint_beq a b ≡ true = (endpoint_beq_iff a b).1 e in absurd (cc)
    | inr m ↦ m ∙ sym n
  ]
]

run_stream-accepted : (events : List StreamEvent) → (run_stream events).accepted ≡ arrivals events
unfolding run_stream on_stream_event accept_stream remove_stream
run_stream-accepted [] = refl
run_stream-accepted (comes from ∷ events) = ap (λ n. n + 1) (run_stream-accepted events)
run_stream-accepted (fails_to_come ∷ events) = run_stream-accepted events
run_stream-accepted (ends from ∷ events) = run_stream-accepted events

run_stream-lookup :
    (to : Endpoint) (events : List StreamEvent)
    → lookup (endpoint_key to) (run_stream events).sessions ≡ present to events
unfolding run_stream on_stream_event accept_stream remove_stream
run_stream-lookup to [] = refl
run_stream-lookup to (comes from ∷ events) =
    let t = run_stream events in
    lookup-insert (endpoint_key from) (endpoint_key to) t.accepted t.sessions
    ∙ ap (λ b. if b then some t.accepted else lookup (endpoint_key to) t.sessions)
        (same-endpoint_key from to)
    ∙ ap (λ n. if endpoint_beq from to then some n else lookup (endpoint_key to) t.sessions)
        (run_stream-accepted events)
    ∙ ap (λ o. if endpoint_beq from to then some (arrivals events) else o)
        (run_stream-lookup to events)
run_stream-lookup to (fails_to_come ∷ events) = run_stream-lookup to events
run_stream-lookup to (ends from ∷ events) =
    let t = run_stream events in
    lookup-erase (endpoint_key from) (endpoint_key to) t.sessions
    ∙ ap (λ b. if b then none else lookup (endpoint_key to) t.sessions) (same-endpoint_key from to)
    ∙ ap (λ o. if endpoint_beq from to then none else o) (run_stream-lookup to events)

-- After every sequence of connections that come, fail to come and end, a packet for an endpoint is written to the connection that
-- came last from the same address and port, if that is the latest that happened to these, and is dropped otherwise.
pub session_to-present :
    (events : List StreamEvent) (to : Endpoint)
    → session_to (run_stream events) to ≡ present to events
unfolding session_to
session_to-present events to = run_stream-lookup to events

-- What `receive` of the UDP transport hands on of the results of its reads, none at an error.
unfoldable pub udp_received : List (Option Bytes) → List Bytes
udp_received [] = []
udp_received (none ∷ results) = []
udp_received (some [] ∷ results) = udp_received results
udp_received (some (b ∷ packet) ∷ results) = (b ∷ packet) ∷ udp_received results

-- After the first error nothing is handed on any more.
pub udp_received-deaf :
    (before after : List (Option Bytes))
    → udp_received (before ++ (none ∷ after)) ≡ udp_received before
unfolding udp_received
udp_received-deaf [] after = refl
udp_received-deaf (none ∷ before) after = refl
udp_received-deaf (some [] ∷ before) after = udp_received-deaf before after
udp_received-deaf (some (b ∷ packet) ∷ before) after =
    ap (λ ps. (b ∷ packet) ∷ ps) (udp_received-deaf before after)
