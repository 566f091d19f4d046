-- ===== src/Signaling/Router.antt =====
-- backend/signaling/router.cpp. What `ws_.send` is called with is returned as a list of users and
-- texts, in the order of the calls. The log lines are left out.
use zaza.Common.{
  ℕ, Bool, true, false, Bytes, bytes, List, [], ◌∷◌, ◌++◌, Option, none, some, same, ◌||◌,
  if◌then◌else◌, bytes_eq,
}
use zaza.Calls.Manager.{
  CallSession, CallManager, ok, err, what, create, accept, reject, hangup, find, expire_ringing,
}
use zaza.Signaling.Json.{JsonLibrary}

-- Where the router is after a call, what was sent, and whether an exception leaves the handler.
pub record Routed : Type 0 where
  pub manager : CallManager
  pub sent : List (Bytes × Bytes)
  pub thrown : Bool

unfoldable pub routed : CallManager → List (Bytes × Bytes) → Routed
routed m sent = record { manager = m; sent = sent; thrown = false }

-- The generator of `rtc.config` messages is a parameter: it asks the authentication service.
module _ (lib : JsonLibrary) (rtc_config_gen : Bytes → Bytes) where
  unfoldable pub send_json : Bytes → lib.Json → Bytes × Bytes
  send_json user_id msg = (user_id, lib.dump msg)

  unfoldable pub send_error : Bytes → Bytes → Bytes × Bytes
  unfolding send_json
  send_error user_id reason =
      send_json user_id
        (lib.object ((bytes "type", bytes "error") ∷ (bytes "message", reason) ∷ []))

  unfoldable pub call_created : Bytes → lib.Json
  call_created call_id =
      lib.object ((bytes "type", bytes "call.created") ∷ (bytes "callId", call_id) ∷ [])

  unfoldable pub call_incoming : Bytes → Bytes → lib.Json
  call_incoming call_id user_id = lib.object (
      (bytes "type", bytes "call.incoming")
      ∷ (bytes "callId", call_id)
      ∷ (bytes "from", user_id)
      ∷ [])

  unfoldable pub call_over : Bytes → Bytes → Bytes → lib.Json
  call_over type call_id reason =
      lib.object ((bytes "type", type) ∷ (bytes "callId", call_id) ∷ (bytes "reason", reason) ∷ [])

  unfoldable pub on_call_create : CallManager → ℕ → ℕ → ℕ → Bytes → lib.Json → Routed
  unfolding routed send_error send_json call_created call_incoming
  on_call_create m draw_a draw_b now user_id msg = elim (lib.string_at msg (bytes "to")) [
    | none ↦ routed m (send_error user_id (bytes "missing to") ∷ [])
    | some callee_id ↦ elim (create m draw_a draw_b now user_id callee_id) [
      | err e ↦ routed m (send_error user_id (what e) ∷ [])
      | ok (m', call_id) ↦ routed m' (
          send_json user_id (call_created call_id)
          ∷ send_json callee_id (call_incoming call_id user_id)
          ∷ [])
    ]
  ]

  -- The parse of a generated configuration, and the two fields that are set.
  unfoldable pub rtc_config : Bytes → Bytes → Option lib.Json
  rtc_config user_id call_id = elim (lib.parse (rtc_config_gen user_id)) [
    | none ↦ none
    | some config ↦ elim (lib.set_at config (bytes "type") (bytes "rtc.config")) [
      | none ↦ none
      | some typed ↦ lib.set_at typed (bytes "callId") call_id
    ]
  ]

  unfoldable pub on_call_accept : CallManager → Bytes → lib.Json → Routed
  unfolding routed send_error send_json rtc_config
  on_call_accept m user_id msg = elim (lib.string_at msg (bytes "callId")) [
    | none ↦ routed m (send_error user_id (bytes "missing callId") ∷ [])
    | some call_id ↦ elim (accept m call_id user_id) [
      | err e ↦ routed m (send_error user_id (what e) ∷ [])
      | ok (m', session) ↦ elim (rtc_config session.caller_id call_id) [
        | none ↦ record { manager = m'; sent = []; thrown = true }
        | some caller_rtc ↦ elim (rtc_config session.callee_id call_id) [
          | none ↦ record { manager = m'; sent = []; thrown = true }
          | some callee_rtc ↦
              routed m' (
                send_json session.caller_id caller_rtc
                ∷ send_json session.callee_id callee_rtc
                ∷ [])
        ]
      ]
    ]
  ]

  unfoldable pub on_call_reject : CallManager → Bytes → lib.Json → Routed
  unfolding routed send_error send_json call_over
  on_call_reject m user_id msg = elim (lib.string_at msg (bytes "callId")) [
    | none ↦ routed m (send_error user_id (bytes "missing callId") ∷ [])
    | some call_id ↦ elim (reject m call_id user_id) [
      | err e ↦ routed m (send_error user_id (what e) ∷ [])
      | ok (m', session) ↦ routed m' (
          send_json session.caller_id (call_over (bytes "call.ended") call_id (bytes "rejected"))
          ∷ [])
    ]
  ]

  -- `(session.callerId == userId) ? session.calleeId : session.callerId`
  unfoldable pub other_id : CallSession → Bytes → Bytes
  other_id session user_id =
      if same session.caller_id user_id then session.callee_id else session.caller_id

  unfoldable pub on_call_hangup : CallManager → Bytes → lib.Json → Routed
  unfolding routed send_error send_json call_over other_id
  on_call_hangup m user_id msg = elim (lib.string_at msg (bytes "callId")) [
    | none ↦ routed m (send_error user_id (bytes "missing callId") ∷ [])
    | some call_id ↦ elim (hangup m call_id user_id) [
      | err e ↦ routed m (send_error user_id (what e) ∷ [])
      | ok (m', session) ↦ routed m' (
          send_json (other_id session user_id)
            (call_over (bytes "call.ended") call_id (bytes "hangup"))
          ∷ [])
    ]
  ]

  unfoldable pub on_webrtc_relay : CallManager → Bytes → lib.Json → Routed
  unfolding routed send_error send_json other_id
  on_webrtc_relay m user_id msg = elim (lib.string_at msg (bytes "callId")) [
    | none ↦ routed m (send_error user_id (bytes "missing callId") ∷ [])
    | some call_id ↦ elim (find m call_id) [
      | none ↦ routed m (send_error user_id (bytes "call not found") ∷ [])
      | some session ↦ routed m (send_json (other_id session user_id) msg ∷ [])
    ]
  ]

  unfoldable pub is_webrtc : Bytes → Bool
  is_webrtc type =
      same type (bytes "webrtc.offer")
      || same type (bytes "webrtc.answer")
      || same type (bytes "webrtc.ice")

  -- The chain of comparisons in `handle`.
  unfoldable pub handle_typed : CallManager → ℕ → ℕ → ℕ → Bytes → lib.Json → Bytes → Routed
  unfolding routed send_error on_call_create on_call_accept on_call_reject on_call_hangup
      on_webrtc_relay is_webrtc
  handle_typed m draw_a draw_b now user_id msg type =
      if same type (bytes "call.create")
      then on_call_create m draw_a draw_b now user_id msg
      else if same type (bytes "call.accept")
      then on_call_accept m user_id msg
      else if same type (bytes "call.reject")
      then on_call_reject m user_id msg
      else if same type (bytes "call.hangup")
      then on_call_hangup m user_id msg
      else if is_webrtc type
      then on_webrtc_relay m user_id msg
      else routed m (send_error user_id (bytes "unknown type: " ++ type) ∷ [])

  unfoldable pub handle : CallManager → ℕ → ℕ → ℕ → Bytes → Bytes → Routed
  unfolding routed send_error handle_typed
  handle m draw_a draw_b now user_id raw = elim (lib.parse raw) [
    | none ↦ routed m (send_error user_id (bytes "invalid json") ∷ [])
    | some msg ↦ elim (lib.string_at msg (bytes "type")) [
      | none ↦ routed m (send_error user_id (bytes "missing type") ∷ [])
      | some type ↦ handle_typed m draw_a draw_b now user_id msg type
    ]
  ]

  -- The loop of `checkExpired`.
  unfoldable pub notify_expired : List CallSession → List (Bytes × Bytes)
  unfolding send_json call_over
  notify_expired [] = []
  notify_expired (session ∷ rest) =
      let failed = call_over (bytes "call.failed") session.call_id (bytes "timeout") in
      send_json session.caller_id failed ∷ send_json session.callee_id failed ∷ notify_expired rest

  unfoldable pub check_expired : CallManager → ℕ → Routed
  unfolding routed notify_expired
  check_expired m now =
      let (m', expired) = expire_ringing m now in routed m' (notify_expired expired)
