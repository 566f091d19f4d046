-- ===== src/TurnServer/Waits.antt =====
-- turn_server/src/main.cpp with turn_server/src/transport/dtls_transport.cpp: for which packets the server waits
-- for a mutex that it holds.
use zaza.Common.{
  ◌≡◌, refl, sym, subst, ap, inl, inr, ◌⊎◌, true, Bytes, List, [], ◌∷◌, bytes_eq, bytes_beq_iff,
  bytes_beq_refl, Bool-cases,
}
use mathlib.Core.List.{Mem, not-mem-nil, mem-cons_self, mem-cons_of_mem, eq-or-mem_of_mem-cons}
use mathlib.Core.Logic.Or
use mathlib.Core.HLevel.{⊥_prop}
use zaza.Common.Checked.{Checked, ret, bad_access, no_fuel, ◌>>=◌}
use zaza.Transport.Endpoint.{Endpoint, endpoint_key, endpoint_key-injective}
use zaza.Dispatcher.Packet.{TurnDispatcher}
use zaza.TurnServer.Server.{
  Link, udp, tcp_t, tls, dtls, Served, runs, hangs, is_held, send_out, behind, go_on,
}

pub is_held-dtls :
    (via : Link) (from to : Endpoint) → is_held via from to ≡ true → (via ≡ dtls) × (to ≡ from)
is_held-dtls udp from to h = absurd (cc)
is_held-dtls tcp_t from to h = absurd (cc)
is_held-dtls tls from to h = absurd (cc)
is_held-dtls dtls from to h = (refl, sym (endpoint_key-injective from to ((bytes_beq_iff _ _).0 h)))

-- Only what is sent to the sender of a packet, which came over DTLS, hangs.
pub send_out-cases :
    (via : Link) (from : Endpoint) (d : TurnDispatcher) (sent : List (Bytes × Endpoint))
    → ((out : List (Link × Bytes × Endpoint)) × (send_out via from d sent ≡ runs d out))
      ⊎ ((via ≡ dtls)
          × (answer : Bytes) × Mem (answer, from) sent
          × (out : List (Link × Bytes × Endpoint)) × (send_out via from d sent ≡ hangs out))
unfolding send_out
send_out-cases via from d [] = inl ([], refl)
send_out-cases via from d ((payload, to) ∷ sent) = elim (Bool-cases (is_held via from to)) [
  | inl held ↦
      let (over_dtls, own) = is_held-dtls via from to held in
      inr (
        over_dtls,
        payload,
        subst (λ e. Mem (payload, e) ((payload, to) ∷ sent)) own mem-cons_self,
        [],
        rw (send_out, held) refl,
      )
  | inr free ↦ elim (send_out-cases via from d sent) [
    | inl (out, e) ↦ inl ((via, payload, to) ∷ out, rw (send_out, free, e) refl)
    | inr (over_dtls, answer, answered, out, e) ↦ inr (
      over_dtls,
      answer,
      mem-cons_of_mem (payload, to) answered,
      (via, payload, to) ∷ out,
      rw (send_out, free, e) refl,
    )
  ]
]

-- And all of it does.
pub send_out-waits :
    (via : Link) (from : Endpoint) (d d' : TurnDispatcher) (answer : Bytes)
    (sent : List (Bytes × Endpoint)) (out : List (Link × Bytes × Endpoint))
    → via ≡ dtls
    → Mem (answer, from) sent
    → send_out via from d sent ≡ runs d' out
    → ⊥
unfolding send_out
send_out-waits via from d d' answer [] out over_dtls at e = not-mem-nil at
send_out-waits via from d d' answer ((payload, to) ∷ sent) out over_dtls at e =
    elim (Bool-cases (is_held via from to)) [
      | inl held ↦ absurd (cc (rw (send_out, held) at e))
      | inr free ↦
          Or.elim ⊥_prop (eq-or-mem_of_mem-cons at)
            (λ (same_sent : (answer, from) ≡ (payload, to)).
              let own : from ≡ to = ap (λ (s : Bytes × Endpoint). s.1) same_sent in
              let held : is_held via from to ≡ true =
                subst (λ v. is_held v from to ≡ true) (sym over_dtls)
                  (subst (λ t. is_held dtls from t ≡ true) own
                    (bytes_beq_refl (endpoint_key from))) in
              absurd (cc))
            (λ (later : Mem (answer, from) sent). elim (send_out-cases via from d sent) [
              | inl (out', e') ↦ send_out-waits via from d d answer sent out' over_dtls later e'
              | inr (v, other, other_at, out', e') ↦ absurd (cc (rw (send_out, free, e') at e))
            ])
    ]

behind-runs :
    (before : List (Link × Bytes × Endpoint)) (m : Checked Served) (d : TurnDispatcher)
    (out : List (Link × Bytes × Endpoint))
    → (m >>= λ (later : Served). ret (behind before later)) ≡ ret (runs d out)
    → (out' : List (Link × Bytes × Endpoint)) × (m ≡ ret (runs d out'))
behind-runs before (ret (runs d' out')) d out e =
    let same_state : d' ≡ d = cc in (out', ap (λ x. ret (runs x out')) same_state)
behind-runs before (ret (hangs out')) d out e = absurd (cc)
behind-runs before bad_access d out e = absurd (cc)
behind-runs before no_fuel d out e = absurd (cc)

-- Where the server runs on to the end, it ran on behind the first packet.
pub go_on-runs :
    (r : Checked Served) (rest : TurnDispatcher → Checked Served) (d : TurnDispatcher)
    (out : List (Link × Bytes × Endpoint))
    → (r >>= λ (s : Served). go_on rest s) ≡ ret (runs d out)
    → (d' : TurnDispatcher) × (first : List (Link × Bytes × Endpoint)) × (r ≡ ret (runs d' first))
      × (later : List (Link × Bytes × Endpoint)) × (rest d' ≡ ret (runs d later))
go_on-runs (ret (runs d' first)) rest d out e =
    let (later, q) = behind-runs first (rest d') d out e in (d', first, refl, later, q)
go_on-runs (ret (hangs first)) rest d out e = absurd (cc)
go_on-runs bad_access rest d out e = absurd (cc)
go_on-runs no_fuel rest d out e = absurd (cc)
