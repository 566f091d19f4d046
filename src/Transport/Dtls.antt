-- ===== src/Transport/Dtls.antt =====
-- turn_server/src/transport/dtls_transport.cpp. OpenSSL is a parameter, and so are `make_address` with the text of its
-- address, which throws on other texts, and the callback: what it sends through the transport while it runs. What
-- goes out of the socket is returned.
use zaza.Common.{
  Bool, true, false, not, Bytes, List, [], ◌∷◌, ◌++◌, Option, none, some, if◌then◌else◌, Map, map,
  lookup, insert, bytes_eq,
}
use zaza.Transport.Endpoint.{Endpoint, endpoint_key}

-- `SSL_do_handshake`, with what `SSL_get_error` says of it.
pub data Handshake : Type 0 where
  shaken wants failed : Handshake

-- A connection of OpenSSL between its two memory BIOs: `bio_write` feeds it, `flush` reads all that it has to
-- send, one datagram for each `BIO_read`, and `ssl_read` gives no bytes where it fails.
pub record OpenSslDtls : Type 1 where
  pub Ssl : Type 0
  pub ssl_new : Ssl
  pub bio_write : Ssl → Bytes → Ssl
  pub do_handshake : Ssl → Ssl × Handshake
  pub ssl_read : Ssl → Ssl × Bytes
  pub ssl_write : Ssl → Bytes → Ssl
  pub flush : Ssl → Ssl × List Bytes

-- A call comes to its end, leaves by an exception, or waits for a mutex that its own thread holds.
pub data Run {ℓ} (A : Type ℓ) : Type ℓ where
  finishes : A → Run A
  throws hangs : Run A

infixl 5 ◌>>=◌
abbrev pub ◌>>=◌ {ℓ κ} : {A : Type ℓ} {B : Type κ} → Run A → (A → Run B) → Run B
finishes a >>= f = f a
throws >>= f = throws
hangs >>= f = hangs

abbrev pub is_shaken : Handshake → Bool
is_shaken shaken = true
is_shaken wants = false
is_shaken failed = false

module _ (lib : OpenSslDtls) where
  -- `locked` tells whether `mutex_` is held.
  pub record DtlsSession : Type 0 where
    pub ssl : lib.Ssl
    pub peer_endpoint : Endpoint
    pub handshake_done : Bool
    pub locked : Bool

  abbrev pub DtlsTransport : Type 0
  DtlsTransport = Map Bytes DtlsSession

  abbrev pub Datagrams : Type 0
  Datagrams = List (Bytes × Endpoint)

  unfoldable pub dtls_session : Endpoint → DtlsSession
  dtls_session peer = record {
    ssl = lib.ssl_new;
    peer_endpoint = peer;
    handshake_done = false;
    locked = false;
  }

  unfoldable pub flush_write : DtlsSession → DtlsSession × Datagrams
  flush_write s =
      let (ssl, out) = lib.flush s.ssl in
      (record s { ssl = ssl }, map (λ d. (d, s.peer_endpoint)) out)

  unfoldable pub send_session : DtlsSession → Bytes → Run (DtlsSession × Datagrams)
  unfolding flush_write
  send_session s payload =
      if s.locked
      then hangs
      else if not s.handshake_done
      then finishes (s, [])
      else finishes (flush_write (record s { ssl = lib.ssl_write s.ssl payload }))

  -- The session of an endpoint, a new one at its first datagram.
  abbrev pub session_for : Option DtlsSession → Endpoint → DtlsSession
  session_for none from = dtls_session from
  session_for (some s) from = s

  module _ (canonical : Bytes → Option Bytes) where
    unfoldable pub send_found :
        DtlsTransport → Bytes → Option DtlsSession → Bytes → Run (DtlsTransport × Datagrams)
    unfolding send_session
    send_found t key none payload = finishes (t, [])
    send_found t key (some s) payload =
        send_session s payload >>= λ (r : DtlsSession × Datagrams). finishes (insert key r.0 t, r.1)

    unfoldable pub send_dtls : DtlsTransport → Bytes → Endpoint → Run (DtlsTransport × Datagrams)
    unfolding send_found endpoint_key
    send_dtls t payload to = elim (canonical to.address) [
      | none ↦ throws
      | some address ↦
          let key = endpoint_key (record to { address = address }) in
          send_found t key (lookup key t) payload
    ]

    -- The calls of `send` that the callback makes.
    unfoldable pub send_all : DtlsTransport → Datagrams → Run (DtlsTransport × Datagrams)
    unfolding send_dtls
    send_all t [] = finishes (t, [])
    send_all t ((payload, to) ∷ rest) =
        send_dtls t payload to >>= λ (r : DtlsTransport × Datagrams).
        send_all r.0 rest >>= λ (later : DtlsTransport × Datagrams).
        finishes (later.0, r.1 ++ later.1)

    -- The end of `feed`: what is to be sent is sent, and the mutex is released.
    unfoldable pub release :
        DtlsTransport → Bytes → DtlsSession → Datagrams → Run (DtlsTransport × Datagrams)
    unfolding flush_write
    release t key s sent =
        let (s', out) = flush_write s in
        finishes (insert key (record s' { locked = false }) t, sent ++ out)

    unfoldable pub feed_handshake :
        DtlsTransport → Bytes → DtlsSession → Run (DtlsTransport × Datagrams)
    unfolding release
    feed_handshake t key s =
        let (ssl, result) = lib.do_handshake s.ssl in
        release t key (record s { ssl = ssl; handshake_done = is_shaken result }) []

module _ (lib : OpenSslDtls) (canonical : Bytes → Option Bytes)
    (on_receive : Bytes → Endpoint → Datagrams lib) where
  -- The session is in the map, and its mutex is held, while the callback runs.
  unfoldable pub feed_packet :
      DtlsTransport lib → Bytes → DtlsSession lib → Bytes → Run (DtlsTransport lib × Datagrams lib)
  unfolding release send_all
  feed_packet t key s [] = release lib canonical t key s []
  feed_packet t key s (b ∷ packet) =
      send_all lib canonical (insert key s t) (on_receive (b ∷ packet) s.peer_endpoint)
      >>= λ (r : DtlsTransport lib × Datagrams lib). release lib canonical r.0 key s r.1

  unfoldable pub feed_read :
      DtlsTransport lib → Bytes → DtlsSession lib → Run (DtlsTransport lib × Datagrams lib)
  unfolding feed_packet
  feed_read t key s =
      let (ssl, packet) = lib.ssl_read s.ssl in feed_packet t key (record s { ssl = ssl }) packet

  unfoldable pub feed :
      DtlsTransport lib → Bytes → DtlsSession lib → Bytes → Run (DtlsTransport lib × Datagrams lib)
  unfolding feed_handshake feed_read
  feed t key s datagram =
      let held : DtlsSession lib = record s { ssl = lib.bio_write s.ssl datagram; locked = true } in
      if s.locked
      then hangs
      else if not s.handshake_done
      then feed_handshake lib canonical t key held
      else feed_read t key held

  -- `receive`, for a datagram of at least one byte.
  unfoldable pub receive_dtls :
      DtlsTransport lib → Endpoint → Bytes → Run (DtlsTransport lib × Datagrams lib)
  unfolding feed endpoint_key dtls_session
  receive_dtls t from datagram =
      let key = endpoint_key from in
      let s = session_for lib (lookup key t) from in feed (insert key s t) key s datagram
