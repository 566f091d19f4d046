-- ===== src/Client/Offers.antt =====
-- The descriptions of a call on their way from one client through the router to the other.
use zaza.Common.{
  ℕ, ◌≡◌, ◌≢◌, refl, ap, ◌∙◌, inl, inr, arith, true, false, Bytes, bytes, [], ◌∷◌, some, same,
  bytes_eq, bytes_beq_iff, Map, Bool-cases,
}
use zaza.Calls.Manager.{CallManager, CallSession, find}
use zaza.Signaling.Json.{JsonLibrary, ObjectLaws}
use zaza.Signaling.Router.{
  routed, send_json, other_id, on_webrtc_relay, is_webrtc, handle_typed, handle,
}
use zaza.Client.Session.{Session}
use zaza.Client.Commands.{sends, prints, answers}
use zaza.Client.MessageHandler.{MessageHandler, Handled, handled, handle_webrtc_answer}
use zaza.Client.MessageHandler
use zaza.Client.Faults.{handle_lem}
use zaza.Client.Rtc.{answer, on_local_description, on_answer}

-- The type of the message that carries a description.
abbrev pub description : Bytes → Session → Bytes → Map Bytes Bytes
description type s sdp =
    (bytes "type", type) ∷ (bytes "callId", s.call.call_id) ∷ (bytes "sdp", sdp) ∷ []

module _ (lib : JsonLibrary) (laws : ObjectLaws lib) (gen : Bytes → Bytes) where
  handle-relay :
      (m : CallManager) (a b now : ℕ) (user type sdp : Bytes) (s : Session) (call : CallSession)
      → is_webrtc lib gen type ≡ true
      → same type (bytes "call.create") ≡ false
      → same type (bytes "call.accept") ≡ false
      → same type (bytes "call.reject") ≡ false
      → same type (bytes "call.hangup") ≡ false
      → find m s.call.call_id ≡ some call
      → handle lib gen m a b now user (lib.dump (lib.object (description type s sdp)))
        ≡ routed m
            ((other_id lib gen call user, lib.dump (lib.object (description type s sdp))) ∷ [])
  unfolding handle handle_typed on_webrtc_relay send_json routed
  handle-relay m a b now user type sdp s call w c1 c2 c3 c4 found =
      let fields : Map Bytes Bytes = description type s sdp in
      rw
        (
          handle,
          laws.parse-dump fields,
          laws.string_at-object fields (bytes "type"),
          handle_typed,
          c1,
          c2,
          c3,
          c4,
          w,
          on_webrtc_relay,
          laws.string_at-object fields (bytes "callId"),
          found,
        )
        refl

  answer-taken :
      (h : MessageHandler) (sdp : Bytes) (s : Session)
      → h.session.call.is_caller ≡ true
      → h.on_answer ≡ true
      → MessageHandler.handle_typed lib h
          (lib.object (description (bytes "webrtc.answer") s sdp))
          (bytes "webrtc.answer")
        ≡ handled h (answers sdp ∷ [])
  unfolding MessageHandler.handle_typed handle_webrtc_answer
  answer-taken h sdp s caller set =
      let fields : Map Bytes Bytes = description (bytes "webrtc.answer") s sdp in
      rw
        (
          MessageHandler.handle_typed,
          handle_webrtc_answer,
          laws.contains-object fields (bytes "sdp") sdp refl,
          laws.as_text-object fields (bytes "sdp") sdp refl,
        )
        (ground (arith, caller, set))

  other_user : (x y : Bytes) → x ≢ y → same x y ≡ false
  other_user x y differ = elim (Bool-cases (same x y)) [
    | inl e ↦ absurd (differ ((bytes_beq_iff x y).0 e))
    | inr n ↦ n
  ]

  -- An answer that the callee's WebRTC library makes, to a call between two users, reaches the
  -- caller as one message, and the caller's client passes the same description on.
  pub answer_relayed :
      (m : CallManager) (a b now : ℕ) (sdp : Bytes) (s : Session) (call : CallSession)
      (h : MessageHandler)
      → find m s.call.call_id ≡ some call
      → call.caller_id ≢ call.callee_id
      → h.session.call.is_caller ≡ true
      → h.on_answer ≡ true
      → (raw : Bytes) × (on_local_description lib s answer sdp
          ≡ sends raw ∷ prints (bytes "[rtc] answer sent") ∷ [])
        × (handle lib gen m a b now call.callee_id raw ≡ routed m ((call.caller_id, raw) ∷ []))
        × (MessageHandler.handle lib h raw ≡ handled h (answers sdp ∷ []))
  unfolding on_local_description on_answer other_id is_webrtc
  answer_relayed m a b now sdp s call h found differ caller set =
      let fields : Map Bytes Bytes = description (bytes "webrtc.answer") s sdp in
      let to_caller : other_id lib gen call call.callee_id ≡ call.caller_id =
        rw (other_id, other_user call.caller_id call.callee_id differ) refl in
      (
        lib.dump (lib.object fields),
        refl,
        handle-relay m a b now call.callee_id (bytes "webrtc.answer") sdp s call refl refl refl refl
              refl found
            ∙ ap (λ to. routed m ((to, lib.dump (lib.object fields)) ∷ [])) to_caller,
        handle_lem lib [] h (lib.dump (lib.object fields)) (bytes "webrtc.answer")
              (lib.object fields) (laws.parse-dump fields)
              (laws.string_at-object fields (bytes "type"))
            ∙ answer-taken h sdp s caller set,
      )
