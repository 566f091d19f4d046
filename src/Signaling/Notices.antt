-- ===== src/Signaling/Notices.antt =====
-- Who is told what by the router, and what the router leaves in the call manager.
use zaza.Common.{
  ℕ, ◌≡◌, ◌≢◌, refl, subst, inl, inr, arith, false, Bytes, bytes, List, [], ◌∷◌, some, All, same,
  ◌⊎◌, bytes_eq, bytes_beq_iff, Bool-cases,
}
use zaza.Calls.Manager.{CallSession, CallManager, ok, hangup, find, expire_ringing, is_busy}
use zaza.Calls.Lifecycle.{Step, creates, accepts, rejects, hangs_up, Reach}
use zaza.Calls.Freed.{expire_ringing_frees, hangup_frees}
use zaza.Signaling.Handled.{handle-keeps}
use zaza.Signaling.Json.{JsonLibrary}
use zaza.Signaling.Router.{
  routed, send_json, call_over, other_id, on_call_hangup, on_webrtc_relay, handle, notify_expired,
  check_expired,
}

module _ (lib : JsonLibrary) (rtc_config_gen : Bytes → Bytes) where
  -- Whatever a client sends, the call manager stays as it is or takes one of its own steps.
  pub handle-Step :
      (m : CallManager) (a b now : ℕ) (user raw : Bytes)
      → ((handle lib rtc_config_gen m a b now user raw).manager ≡ m)
        ⊎ Step m (handle lib rtc_config_gen m a b now user raw).manager
  handle-Step m a b now user raw =
      handle-keeps lib rtc_config_gen m a b now user (λ m'. (m' ≡ m) ⊎ Step m m') (inl refl)
        (λ callee. inr (creates a b now user callee)) (λ id. inr (accepts id user))
        (λ id. inr (rejects id user)) (λ id. inr (hangs_up id user)) raw

  -- A WebRTC message of a party of a call is passed on, whole, to the other party and to nobody
  -- else.
  pub on_webrtc_relay_party :
      (m : CallManager) (msg : lib.Json) (call_id user : Bytes) (s : CallSession)
      → lib.string_at msg (bytes "callId") ≡ some call_id
      → find m call_id ≡ some s
      → ((s.caller_id ≡ user)
          → (on_webrtc_relay lib rtc_config_gen m user msg).sent ≡ (s.callee_id, lib.dump msg) ∷ [])
        × ((s.callee_id ≡ user)
            → s.caller_id ≢ user
            → (on_webrtc_relay lib rtc_config_gen m user msg).sent
              ≡ (s.caller_id, lib.dump msg) ∷ [])
  unfolding on_webrtc_relay routed other_id send_json
  on_webrtc_relay_party m msg call_id user s q found = (
    λ e. ground (arith, q, found, e, bytes_beq_iff s.caller_id user),
    λ e n. ground (arith, q, found, n, bytes_beq_iff s.caller_id user),
  )

  -- After the round that looks for calls that timed out, everyone who is told of one is free for
  -- another call, in every history of the call manager.
  pub check_expired_frees :
      (m : CallManager) (now : ℕ)
      → Reach m
      → All
          (λ (e : Bytes × Bytes).
            is_busy (check_expired lib rtc_config_gen m now).manager e.0 ≡ false)
          (check_expired lib rtc_config_gen m now).sent
  unfolding check_expired routed notify_expired send_json
  check_expired_frees m now r = go (expire_ringing m now).1 (expire_ringing_frees m now r)
    where
      go :
          (g : List CallSession)
          → All
              (λ s.
                (is_busy (expire_ringing m now).0 s.caller_id ≡ false)
                × (is_busy (expire_ringing m now).0 s.callee_id ≡ false))
              g
          → All
              (λ (e : Bytes × Bytes). is_busy (expire_ringing m now).0 e.0 ≡ false)
              (notify_expired lib rtc_config_gen g)
      go [] h = tt
      go (s ∷ g) h = (h.0.0, (h.0.1, go g h.1))

  on_call_hangup-ok :
      (m m' : CallManager) (msg : lib.Json) (call_id user : Bytes) (s : CallSession)
      → lib.string_at msg (bytes "callId") ≡ some call_id
      → hangup m call_id user ≡ ok (m', s)
      → on_call_hangup lib rtc_config_gen m user msg
        ≡ routed m' (
            (
              other_id lib rtc_config_gen s user,
              lib.dump (call_over lib rtc_config_gen (bytes "call.ended") call_id (bytes "hangup")),
            )
            ∷ [])
  unfolding on_call_hangup send_json
  on_call_hangup-ok m m' msg call_id user s q h = rw (q, h, on_call_hangup) refl

  -- When a user hangs up a call, the one user that is told is the other party, and both are free
  -- for another call, in every history of the call manager.
  pub on_call_hangup_tells :
      (m m' : CallManager) (msg : lib.Json) (call_id user : Bytes) (s : CallSession)
      → Reach m
      → lib.string_at msg (bytes "callId") ≡ some call_id
      → hangup m call_id user ≡ ok (m', s)
      → let r = on_call_hangup lib rtc_config_gen m user msg in
        (other : Bytes) × (((s.caller_id ≡ user) × (s.callee_id ≡ other))
          ⊎ ((s.callee_id ≡ user) × (s.caller_id ≡ other)))
        × (r.sent
            ≡ (
              other,
              lib.dump (call_over lib rtc_config_gen (bytes "call.ended") call_id (bytes "hangup")),
            )
              ∷ [])
        × (is_busy r.manager user ≡ false)
        × (is_busy r.manager other ≡ false)
  unfolding routed other_id
  on_call_hangup_tells m m' msg call_id user s r q h =
      let (party, free, free', gone) = hangup_frees m m' call_id user s r h in
      let run = on_call_hangup-ok m m' msg call_id user s q h in
      elim (Bool-cases (same s.caller_id user)) [
        | inl t ↦
            let e = (bytes_beq_iff s.caller_id user).0 t in
            (
              s.callee_id,
              inl (e, refl),
              rw run (rw t refl),
              rw run (subst (λ u. is_busy m' u ≡ false) e free),
              rw run free',
            )
        | inr n ↦
            let e : s.callee_id ≡ user = ground (arith, bytes_beq_iff s.caller_id user, n, party) in
            (
              s.caller_id,
              inr (e, refl),
              rw run (rw n refl),
              rw run (subst (λ u. is_busy m' u ≡ false) e free'),
              rw run free,
            )
      ]
