-- ===== src/Client/Replies.antt =====
-- The messages of the server keep the session coherent.
use zaza.Common.{
  ◌≡◌, refl, sym, subst, inl, inr, arith, Bytes, bytes, List, [], ◌∷◌, same, bytes_eq, if_both,
  Option-cases,
}
use zaza.Signaling.Json.{JsonLibrary}
use zaza.Client.Session.{TurnConfig}
use zaza.Client.MessageHandler.{
  MessageHandler, Handled, handled, throws, says, with_turn, handle_call_incoming,
  handle_call_created, handle_call_over, take_servers, handle_servers, handle_rtc_config,
  handle_webrtc_offer, handle_webrtc_answer, ice_arguments, handle_webrtc_ice, handle_error,
  handle_typed, handle,
}
use zaza.Client.Coherence.{Coherent}

module _ (lib : JsonLibrary) where
  Keeps : MessageHandler → Handled → Type 0
  Keeps h r = Coherent h.session → Coherent r.handler.session

  incoming-Keeps : (h : MessageHandler) (msg : lib.Json) → Keeps h (handle_call_incoming lib h msg)
  unfolding Keeps handle_call_incoming says throws handled
  incoming-Keeps h msg x = elim (Option-cases (lib.text_or msg (bytes "callId") [])) [
    | inl n ↦ rw (n, handle_call_incoming) x
    | inr (id, y) ↦ elim (Option-cases (lib.text_or msg (bytes "from") [])) [
      | inl n ↦ rw (y, n, handle_call_incoming) x
      | inr (from, z) ↦ rw (y, z, handle_call_incoming) (ground arith)
    ]
  ]

  created-Keeps : (h : MessageHandler) (msg : lib.Json) → Keeps h (handle_call_created lib h msg)
  unfolding Keeps handle_call_created says throws handled
  created-Keeps h msg x = elim (Option-cases (lib.text_or msg (bytes "callId") [])) [
    | inl n ↦ rw (n, handle_call_created) x
    | inr (id, y) ↦ rw (y, handle_call_created) (ground arith)
  ]

  over-Keeps :
      (h : MessageHandler) (msg : lib.Json) (text : Bytes)
      → Keeps h (handle_call_over lib h msg text)
  unfolding Keeps handle_call_over says throws handled
  over-Keeps h msg text x =
      elim (Option-cases (lib.text_or msg (bytes "reason") (bytes "unknown"))) [
        | inl n ↦ rw (n, handle_call_over) x
        | inr (reason, y) ↦ rw (y, handle_call_over) (ground arith)
      ]

  turn-Coherent :
      (h : MessageHandler) (turn : TurnConfig)
      → Coherent h.session
      → Coherent (with_turn h turn).session
  turn-Coherent h turn x = record {
    at_rest = x.at_rest;
    outgoing = x.outgoing;
    incoming = x.incoming;
    recorded = x.recorded;
  }

  servers-Keeps :
      (h : MessageHandler) (servers : List lib.Json) → Keeps h (handle_servers lib h servers)
  unfolding Keeps handle_servers says throws handled
  servers-Keeps h [] x = x
  servers-Keeps h (server ∷ servers) x =
      let t = take_servers lib h.session.turn_config (server ∷ servers) in
      if_both (λ (r : Handled). Coherent r.handler.session) t.1 (turn-Coherent h t.0 x)
        (turn-Coherent h t.0 x)

  config-Keeps : (h : MessageHandler) (msg : lib.Json) → Keeps h (handle_rtc_config lib h msg)
  unfolding Keeps handle_rtc_config says throws handled
  config-Keeps h msg x =
      if_both (λ (r : Handled). Coherent r.handler.session) _ x
        (servers-Keeps h (lib.elements (lib.get msg (bytes "iceServers"))) x)

  -- The other handlers leave the session alone.
  offer-same : (h : MessageHandler) (msg : lib.Json) → (handle_webrtc_offer lib h msg).handler ≡ h
  unfolding handle_webrtc_offer says throws handled
  offer-same h msg = elim (Option-cases (lib.as_text (lib.get msg (bytes "sdp")))) [
    | inl n ↦ ground (arith, n)
    | inr (sdp, y) ↦ ground (arith, y)
  ]

  answer-same : (h : MessageHandler) (msg : lib.Json) → (handle_webrtc_answer lib h msg).handler ≡ h
  unfolding handle_webrtc_answer says throws handled
  answer-same h msg = elim (Option-cases (lib.as_text (lib.get msg (bytes "sdp")))) [
    | inl n ↦ ground (arith, n)
    | inr (sdp, y) ↦ ground (arith, y)
  ]

  ice-same : (h : MessageHandler) (msg : lib.Json) → (handle_webrtc_ice lib h msg).handler ≡ h
  unfolding handle_webrtc_ice says throws handled
  ice-same h msg = elim (Option-cases (ice_arguments lib msg)) [
    | inl n ↦ ground (arith, n)
    | inr (given, y) ↦ ground (arith, y)
  ]

  error-same : (h : MessageHandler) (msg : lib.Json) → (handle_error lib h msg).handler ≡ h
  unfolding handle_error says throws handled
  error-same h msg = elim (Option-cases (lib.text_or msg (bytes "error") (bytes "unknown error"))) [
    | inl n ↦ rw (n, handle_error) refl
    | inr (fallback, y) ↦ elim (Option-cases (lib.text_or msg (bytes "message") fallback)) [
      | inl n ↦ rw (y, n, handle_error) refl
      | inr (text, z) ↦ rw (y, z, handle_error) refl
    ]
  ]

  typed-Keeps :
      (h : MessageHandler) (msg : lib.Json) (type : Bytes) → Keeps h (handle_typed lib h msg type)
  unfolding Keeps handle_typed says handled
  typed-Keeps h msg type x =
      let P = λ (r : Handled). Coherent r.handler.session in
      let same_P = λ (r : Handled) (e : r.handler ≡ h).
        subst (λ (g : MessageHandler). Coherent g.session) (sym e) x in
      if_both P (same type (bytes "call.incoming")) (incoming-Keeps h msg x) (
        if_both P (same type (bytes "call.created")) (created-Keeps h msg x) (
          if_both P (same type (bytes "call.ended"))
            (over-Keeps h msg (bytes "[call] ended, reason: ") x)
            (if_both P (same type (bytes "call.failed"))
              (over-Keeps h msg (bytes "[call] failed: ") x)
              (if_both P (same type (bytes "rtc.config")) (config-Keeps h msg x) (
                if_both P (same type (bytes "webrtc.offer"))
                  (same_P (handle_webrtc_offer lib h msg) (offer-same h msg))
                  (if_both P (same type (bytes "webrtc.answer"))
                    (same_P (handle_webrtc_answer lib h msg) (answer-same h msg))
                    (if_both P (same type (bytes "webrtc.ice"))
                      (same_P (handle_webrtc_ice lib h msg) (ice-same h msg))
                      (if_both P (same type (bytes "error"))
                        (same_P (handle_error lib h msg) (error-same h msg)) x))))))))

  pub handle-Coherent :
      (h : MessageHandler) (raw : Bytes)
      → Coherent h.session
      → Coherent (handle lib h raw).handler.session
  unfolding Keeps handle says handled
  handle-Coherent h raw x = elim (Option-cases (lib.parse raw)) [
    | inl n ↦ rw (n, handle) x
    | inr (msg, y) ↦ elim (Option-cases (lib.string_at msg (bytes "type"))) [
      | inl n ↦ rw (y, n, handle) x
      | inr (type, z) ↦ rw (y, z, handle) (typed-Keeps h msg type x)
    ]
  ]
