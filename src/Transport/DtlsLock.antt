-- ===== src/Transport/DtlsLock.antt =====
-- turn_server/src/transport/dtls_transport.cpp: when the callback runs, and what becomes of its answers.
use zaza.Common.{
  ℕ, ◌≡◌, refl, sym, ap, if_both, if_true, if_false, ◌∙◌, arith, true, false, not, Bytes, ◌∷◌,
  Option, some, if◌then◌else◌, lookup, insert, bytes_eq, lookup-insert_self,
}
use zaza.Transport.Endpoint.{Endpoint, endpoint_key}
use zaza.Transport.Dtls.{
  OpenSslDtls, Run, hangs, DtlsSession, DtlsTransport, Datagrams, send_session, send_found,
  send_dtls, send_all, feed_packet, feed_read, feed_handshake, feed, session_for, receive_dtls,
}

module _ (lib : OpenSslDtls) (canonical : Bytes → Option Bytes) where
  send_dtls-locked :
      (t : DtlsTransport lib) (payload : Bytes) (to : Endpoint) (s : DtlsSession lib)
      → canonical to.address ≡ some to.address
      → lookup (endpoint_key to) t ≡ some s
      → s.locked ≡ true
      → send_dtls lib canonical t payload to ≡ hangs
  unfolding send_dtls send_found send_session
  send_dtls-locked t payload to s same_address found held =
      rw (send_dtls, same_address, found, send_found, send_session, held) refl

  feed_packet-hangs :
      (on_receive : Bytes → Endpoint → Datagrams lib) (t : DtlsTransport lib) (s : DtlsSession lib)
      (b : ℕ) (packet answer : Bytes) (rest : Datagrams lib)
      → s.locked ≡ true
      → canonical s.peer_endpoint.address ≡ some s.peer_endpoint.address
      → on_receive (b ∷ packet) s.peer_endpoint ≡ (answer, s.peer_endpoint) ∷ rest
      → feed_packet lib canonical on_receive t (endpoint_key s.peer_endpoint) s (b ∷ packet) ≡ hangs
  unfolding feed_packet send_all
  feed_packet-hangs on_receive t s b packet answer rest held same_address answers =
      let key = endpoint_key s.peer_endpoint in
      rw
        (
          feed_packet,
          answers,
          send_all,
          send_dtls-locked (insert key s t) answer s.peer_endpoint s same_address
              (lookup-insert_self key s t) held,
        )
        refl

  feed-hangs :
      (on_receive : Bytes → Endpoint → Datagrams lib) (t : DtlsTransport lib) (s : DtlsSession lib)
      (datagram answer : Bytes) (ssl : lib.Ssl) (b : ℕ) (packet : Bytes) (rest : Datagrams lib)
      → s.handshake_done ≡ true
      → canonical s.peer_endpoint.address ≡ some s.peer_endpoint.address
      → lib.ssl_read (lib.bio_write s.ssl datagram) ≡ (ssl, b ∷ packet)
      → on_receive (b ∷ packet) s.peer_endpoint ≡ (answer, s.peer_endpoint) ∷ rest
      → feed lib canonical on_receive t (endpoint_key s.peer_endpoint) s datagram ≡ hangs
  unfolding feed feed_read
  feed-hangs on_receive t s datagram answer ssl b packet rest shaken same_address reads answers =
      let key = endpoint_key s.peer_endpoint in
      let held : DtlsSession lib = record s { ssl = lib.bio_write s.ssl datagram; locked = true } in
      let decrypted : lib.Ssl × Bytes → Run (DtlsTransport lib × Datagrams lib) =
        λ r. feed_packet lib canonical on_receive t key (record held { ssl = r.0 }) r.1 in
      if_both (λ r. r ≡ hangs) s.locked refl
        (if_false (feed_handshake lib canonical t key held)
            (feed_read lib canonical on_receive t key held) (not s.handshake_done)
            (ground (arith, shaken))
          ∙ ap decrypted reads
          ∙ feed_packet-hangs on_receive t (record held { ssl = ssl }) b packet answer rest refl
              same_address answers)

  -- A client whose handshake is done sends a packet, and the callback answers it: the answer goes to `send`, which
  -- waits for the mutex that `feed` holds while it calls the callback, so `receive` never comes to its end.
  pub receive_dtls-hangs :
      (on_receive : Bytes → Endpoint → Datagrams lib) (t : DtlsTransport lib) (s : DtlsSession lib)
      (datagram answer : Bytes) (ssl : lib.Ssl) (b : ℕ) (packet : Bytes) (rest : Datagrams lib)
      → lookup (endpoint_key s.peer_endpoint) t ≡ some s
      → s.handshake_done ≡ true
      → canonical s.peer_endpoint.address ≡ some s.peer_endpoint.address
      → lib.ssl_read (lib.bio_write s.ssl datagram) ≡ (ssl, b ∷ packet)
      → on_receive (b ∷ packet) s.peer_endpoint ≡ (answer, s.peer_endpoint) ∷ rest
      → receive_dtls lib canonical on_receive t s.peer_endpoint datagram ≡ hangs
  unfolding receive_dtls
  receive_dtls-hangs on_receive t s datagram answer ssl b packet rest found shaken same_address
        reads answers =
      let from = s.peer_endpoint in
      let key = endpoint_key from in
      let go : Option (DtlsSession lib) → Run (DtlsTransport lib × Datagrams lib) = λ o.
        (let s' = session_for lib o from in
          feed lib canonical on_receive (insert key s' t) key s' datagram) in
      ap go found
      ∙ feed-hangs on_receive (insert key s t) s datagram answer ssl b packet rest shaken
          same_address reads answers

  feed-shielded :
      (on_receive on_receive' : Bytes → Endpoint → Datagrams lib) (t : DtlsTransport lib)
      (key : Bytes) (s : DtlsSession lib) (datagram : Bytes)
      → s.handshake_done ≡ false
      → feed lib canonical on_receive t key s datagram
        ≡ feed lib canonical on_receive' t key s datagram
  unfolding feed
  feed-shielded on_receive on_receive' t key s datagram early =
      let held : DtlsSession lib = record s { ssl = lib.bio_write s.ssl datagram; locked = true } in
      let first = feed_handshake lib canonical t key held in
      let early' : not s.handshake_done ≡ true = ground (arith, early) in
      ap (λ r. if s.locked then hangs else r)
        (if_true first (feed_read lib canonical on_receive t key held) (not s.handshake_done) early'
          ∙ sym (
              if_true first (feed_read lib canonical on_receive' t key held) (not s.handshake_done)
                early'))

  -- Before the handshake of a client is done, nothing of what it sends comes to the callback: the transport does the same
  -- whatever the callback is.
  pub receive_dtls-shielded :
      (on_receive on_receive' : Bytes → Endpoint → Datagrams lib) (t : DtlsTransport lib)
      (from : Endpoint) (datagram : Bytes)
      → (session_for lib (lookup (endpoint_key from) t) from).handshake_done ≡ false
      → receive_dtls lib canonical on_receive t from datagram
        ≡ receive_dtls lib canonical on_receive' t from datagram
  unfolding receive_dtls
  receive_dtls-shielded on_receive on_receive' t from datagram early =
      let key = endpoint_key from in
      let s = session_for lib (lookup key t) from in
      feed-shielded on_receive on_receive' (insert key s t) key s datagram early
