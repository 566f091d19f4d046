-- ===== src/TurnServer/History.antt =====
-- turn_server/src/main.cpp: what holds of the server after any packets.
use zaza.Common.{
  ◌≡◌, refl, sym, subst, ap, ◌∙◌, inl, inr, ◌⊎◌, Bytes, List, [], ◌∷◌, ◌++◌, Map, bytes_eq,
}
use mathlib.Core.List.{Mem}
use zaza.Common.Checked.{ret, bad_access, no_fuel, ◌>>=◌}
use zaza.Transport.Endpoint.{Endpoint}
use zaza.Allocation.Denied.{AddressV4}
use zaza.Auth.Crypto.{OpenSsl}
use zaza.Dispatcher.Packet.{TurnDispatcher, Outcome, on_packet}
use zaza.Dispatcher.Total.{HasFreshDraw, on_packet-total}
use zaza.TurnServer.Kept.{Kept, on_packet-Kept, start_server-Kept}
use zaza.TurnServer.Waits.{send_out-cases, send_out-waits, go_on-runs}
use zaza.TurnServer.Server.{
  Link, dtls, start_server, Arrival, runs, hangs, send_out, handle_arrival, serve,
}

module _ (lib : AddressV4) (ssl : OpenSsl) where
  -- For each packet that the server comes to, the loop that makes a nonce has enough rounds.
  unfoldable pub Fresh : TurnDispatcher → List Arrival → Type 0
  Fresh d [] = Unit {0}
  Fresh d (p ∷ packets) =
      HasFreshDraw lib ssl d p.moment × (elim (handle_arrival lib ssl d p) as (λ r. Type 0) [
        | ret (runs d' out) ↦ Fresh d' packets
        | ret (hangs out) ↦ Unit {0}
        | bad_access ↦ Unit {0}
        | no_fuel ↦ Unit {0}
      ])

  -- A packet that came over DTLS, and what the server does with the packets before it and with itself.
  pub record StopsAt (d : TurnDispatcher) (packets : List Arrival) : Type 0 where
    pub before : List Arrival
    pub packet : Arrival
    pub after : List Arrival
    pub all_packets : packets ≡ before ++ (packet ∷ after)
    pub d' : TurnDispatcher
    pub out : List (Link × Bytes × Endpoint)
    pub runs_before : serve lib ssl d before ≡ ret (runs d' out)
    pub kept_before : Kept lib ssl d'.allocations
    pub over_dtls : packet.via ≡ dtls
    pub o : Outcome
    pub handled : on_packet lib ssl d' packet.moment packet.payload packet.from ≡ ret o
    pub answer : Bytes
    pub answered : Mem (answer, packet.from) o.1

  arrival-waits :
      (d d' d'' : TurnDispatcher) (p : Arrival) (packets : List Arrival) (o : Outcome)
      (answer : Bytes) (sent : List (Link × Bytes × Endpoint))
      → d ≡ d'
      → p.via ≡ dtls
      → on_packet lib ssl d' p.moment p.payload p.from ≡ ret o
      → Mem (answer, p.from) o.1
      → serve lib ssl d (p ∷ packets) ≡ ret (runs d'' sent)
      → ⊥
  unfolding serve handle_arrival
  arrival-waits d d' d'' p packets o answer sent same_state over_dtls handled answered e =
      let (d1, first, arrived, later, q) =
        go_on-runs (handle_arrival lib ssl d p) (λ d1. serve lib ssl d1 packets) d'' sent e in
      let handled' : on_packet lib ssl d p.moment p.payload p.from ≡ ret o =
        ap (λ x. on_packet lib ssl x p.moment p.payload p.from) same_state ∙ handled in
      let arrived' : handle_arrival lib ssl d p ≡ ret (send_out p.via p.from o.0 o.1) =
        rw (handle_arrival, handled', ◌>>=◌) refl in
      send_out-waits p.via p.from o.0 d1 answer o.1 first over_dtls answered
        (cc (sym arrived' ∙ arrived))

  -- Where the server stops at a packet, it does not run on.
  stops :
      (d d' d'' : TurnDispatcher) (before : List Arrival) (p : Arrival) (after : List Arrival)
      (o : Outcome) (answer : Bytes) (out sent : List (Link × Bytes × Endpoint))
      → serve lib ssl d before ≡ ret (runs d' out)
      → p.via ≡ dtls
      → on_packet lib ssl d' p.moment p.payload p.from ≡ ret o
      → Mem (answer, p.from) o.1
      → serve lib ssl d (before ++ (p ∷ after)) ≡ ret (runs d'' sent)
      → ⊥
  unfolding serve
  stops d d' d'' [] p after o answer out sent run over_dtls handled answered e =
      let same_state : d ≡ d' = cc in
      arrival-waits d d' d'' p after o answer sent same_state over_dtls handled answered e
  stops d d' d'' (q ∷ before) p after o answer out sent run over_dtls handled answered e =
      let (d1, first, arrived, later, run') =
        go_on-runs (handle_arrival lib ssl d q) (λ x. serve lib ssl x before) d' out run in
      let (d2, first', arrived', later', e') =
        go_on-runs (handle_arrival lib ssl d q) (λ x. serve lib ssl x (before ++ (p ∷ after))) d''
          sent e in
      let both : runs d2 first' ≡ runs d1 first = cc (sym arrived' ∙ arrived) in
      let same_state : d2 ≡ d1 = cc in
      stops d1 d' d'' before p after o answer later later' run' over_dtls handled answered
        (subst (λ x. serve lib ssl x (before ++ (p ∷ after)) ≡ ret (runs d'' later')) same_state e')

  runs-StopsAt :
      (d d'' : TurnDispatcher) (packets : List Arrival) (sent : List (Link × Bytes × Endpoint))
      → serve lib ssl d packets ≡ ret (runs d'' sent)
      → ¬ StopsAt d packets
  runs-StopsAt d d'' packets sent e x =
      stops d x.d' d'' x.before x.packet x.after x.o x.answer x.out sent x.runs_before x.over_dtls
        x.handled x.answered
        (subst (λ ps. serve lib ssl d ps ≡ ret (runs d'' sent)) x.all_packets e)

  RunsOrStops : TurnDispatcher → List Arrival → Type 0
  RunsOrStops d packets =
      ((d' : TurnDispatcher) × (out : List (Link × Bytes × Endpoint)) × (serve lib ssl d packets
          ≡ ret (runs d' out))
        × Kept lib ssl d'.allocations)
      ⊎ (StopsAt d packets
          × (out : List (Link × Bytes × Endpoint)) × (serve lib ssl d packets ≡ ret (hangs out)))

  handle_arrival-runs :
      (d d' : TurnDispatcher) (p : Arrival) (packets : List Arrival)
      (out : List (Link × Bytes × Endpoint))
      → handle_arrival lib ssl d p ≡ ret (runs d' out)
      → RunsOrStops d' packets
      → RunsOrStops d (p ∷ packets)
  unfolding serve RunsOrStops
  handle_arrival-runs d d' p packets out h (inl (e, later, q, k)) =
      inl (e, out ++ later, rw (serve, h, ◌>>=◌) (rw (q, ◌>>=◌) refl), k)
  handle_arrival-runs d d' p packets out h (inr (x, later, q)) = inr (
    record {
      before = p ∷ x.before;
      packet = x.packet;
      after = x.after;
      all_packets = ap (λ ps. p ∷ ps) x.all_packets;
      d' = x.d';
      out = out ++ x.out;
      runs_before = rw (serve, h, ◌>>=◌) (rw (x.runs_before, ◌>>=◌) refl);
      kept_before = x.kept_before;
      over_dtls = x.over_dtls;
      o = x.o;
      handled = x.handled;
      answer = x.answer;
      answered = x.answered;
    },
    out ++ later,
    rw (serve, h, ◌>>=◌) (rw (q, ◌>>=◌) refl),
  )

  serve-Kept :
      (d : TurnDispatcher) (packets : List Arrival)
      → Fresh d packets
      → Kept lib ssl d.allocations
      → RunsOrStops d packets
  unfolding serve handle_arrival Fresh RunsOrStops
  serve-Kept d [] fresh k = inl (d, [], refl, k)
  serve-Kept d (p ∷ packets) ((n, fuel, draw), fresh) k =
      let (o, q) = on_packet-total lib ssl d p.moment p.payload p.from n fuel draw in
      let arrived : handle_arrival lib ssl d p ≡ ret (send_out p.via p.from o.0 o.1) =
        rw (handle_arrival, q, ◌>>=◌) refl in
      elim (send_out-cases p.via p.from o.0 o.1) [
        | inl (out, e) ↦
            let h : handle_arrival lib ssl d p ≡ ret (runs o.0 out) = arrived ∙ ap ret e in
            let fresh' : Fresh o.0 packets = rw h at fresh in
            handle_arrival-runs d o.0 p packets out h
              (serve-Kept o.0 packets fresh' (on_packet-Kept lib ssl d p o q k))
        | inr (over_dtls, answer, answered, out, e) ↦ inr (
          record {
            before = [];
            packet = p;
            after = packets;
            all_packets = refl;
            d' = d;
            out = [];
            runs_before = refl;
            kept_before = k;
            over_dtls = over_dtls;
            o = o;
            handled = q;
            answer = answer;
            answered = answered;
          },
          out,
          rw (serve, arrived ∙ ap ret e, ◌>>=◌) refl,
        )
      ]

  -- The server, with whatever settings it starts, either deals with every packet of a sequence from its four
  -- transports, or hangs, as long as the random generator gives new nonces. It hangs exactly if it comes to a packet
  -- over DTLS that it answers to the sender. After all packets, or before that one, the maps of the allocations agree,
  -- every channel and permission is one that the server may give, and no user has more than 10 allocations.
  pub serve-keeps :
      (data_ : Map Bytes Bytes) (packets : List Arrival)
      → Fresh (start_server data_) packets
      → ((d : TurnDispatcher) × (out : List (Link × Bytes × Endpoint)) × (serve lib ssl
              (start_server data_)
              packets
            ≡ ret (runs d out))
          × Kept lib ssl d.allocations
          × (¬ StopsAt (start_server data_) packets))
        ⊎ (StopsAt (start_server data_) packets
            × (out : List (Link × Bytes × Endpoint)) × (serve lib ssl (start_server data_) packets
                ≡ ret (hangs out)))
  unfolding RunsOrStops
  serve-keeps data_ packets fresh =
      elim (serve-Kept (start_server data_) packets fresh (start_server-Kept lib ssl data_)) [
        | inl (d, out, q, k) ↦ inl (d, out, q, k, runs-StopsAt (start_server data_) d packets out q)
        | inr stopped ↦ inr stopped
      ]
