-- ===== src/Signaling/Handled.antt =====
-- backend/signaling/router.cpp: which steps of the call manager a message can make.
use zaza.Common.{
  ℕ, ◌≡◌, sym, subst, inl, inr, arith, Bytes, bytes, same, ◌⊎◌, bytes_eq, Bool-cases, Option-cases,
}
use zaza.Calls.Manager.{CallManager, create, accept, reject, hangup}
use zaza.Calls.Lifecycle.{after}
use zaza.Signaling.Json.{JsonLibrary}
use zaza.Signaling.Router.{
  routed, on_call_create, on_call_accept, on_call_reject, on_call_hangup, on_webrtc_relay,
  is_webrtc, handle_typed, handle,
}

module _ (lib : JsonLibrary) (rtc_config_gen : Bytes → Bytes) where
  create-manager :
      (m : CallManager) (a b now : ℕ) (user : Bytes) (msg : lib.Json)
      → ((on_call_create lib rtc_config_gen m a b now user msg).manager ≡ m)
        ⊎ ((key : Bytes) × ((on_call_create lib rtc_config_gen m a b now user msg).manager
              ≡ after m (create m a b now user key)))
  unfolding on_call_create after routed
  create-manager m a b now user msg = elim (Option-cases (lib.string_at msg (bytes "to"))) [
    | inl q ↦ inl (ground (arith, q))
    | inr (key, q) ↦ inr (key, ground (arith, q))
  ]

  accept-manager :
      (m : CallManager) (user : Bytes) (msg : lib.Json)
      → ((on_call_accept lib rtc_config_gen m user msg).manager ≡ m)
        ⊎ ((key : Bytes) × ((on_call_accept lib rtc_config_gen m user msg).manager
              ≡ after m (accept m key user)))
  unfolding on_call_accept after routed
  accept-manager m user msg = elim (Option-cases (lib.string_at msg (bytes "callId"))) [
    | inl q ↦ inl (ground (arith, q))
    | inr (key, q) ↦ inr (key, ground (arith, q))
  ]

  reject-manager :
      (m : CallManager) (user : Bytes) (msg : lib.Json)
      → ((on_call_reject lib rtc_config_gen m user msg).manager ≡ m)
        ⊎ ((key : Bytes) × ((on_call_reject lib rtc_config_gen m user msg).manager
              ≡ after m (reject m key user)))
  unfolding on_call_reject after routed
  reject-manager m user msg = elim (Option-cases (lib.string_at msg (bytes "callId"))) [
    | inl q ↦ inl (ground (arith, q))
    | inr (key, q) ↦ inr (key, ground (arith, q))
  ]

  hangup-manager :
      (m : CallManager) (user : Bytes) (msg : lib.Json)
      → ((on_call_hangup lib rtc_config_gen m user msg).manager ≡ m)
        ⊎ ((key : Bytes) × ((on_call_hangup lib rtc_config_gen m user msg).manager
              ≡ after m (hangup m key user)))
  unfolding on_call_hangup after routed
  hangup-manager m user msg = elim (Option-cases (lib.string_at msg (bytes "callId"))) [
    | inl q ↦ inl (ground (arith, q))
    | inr (key, q) ↦ inr (key, ground (arith, q))
  ]

  relay-manager :
      (m : CallManager) (user : Bytes) (msg : lib.Json)
      → (on_webrtc_relay lib rtc_config_gen m user msg).manager ≡ m
  unfolding on_webrtc_relay routed
  relay-manager m user msg = elim (Option-cases (lib.string_at msg (bytes "callId"))) [
    | inl q ↦ ground (arith, q)
    | inr (key, q) ↦ ground (arith, q)
  ]

  -- What holds of the call manager and after each of its steps that the user can ask for holds after the
  -- message.
  module _ (m : CallManager) (a b now : ℕ) (user : Bytes) (P : CallManager → Type 0) (kept : P m)
      (creates : (callee : Bytes) → P (after m (create m a b now user callee)))
      (accepts : (id : Bytes) → P (after m (accept m id user)))
      (rejects : (id : Bytes) → P (after m (reject m id user)))
      (hangs_up : (id : Bytes) → P (after m (hangup m id user))) where
    keeps :
        (m' : CallManager) (Q : Bytes → CallManager)
        → ((key : Bytes) → P (Q key))
        → (m' ≡ m) ⊎ ((key : Bytes) × (m' ≡ Q key))
        → P m'
    keeps m' Q steps (inl q) = subst P (sym q) kept
    keeps m' Q steps (inr (key, q)) = subst P (sym q) (steps key)

    typed-keeps :
        (msg : lib.Json) (type : Bytes)
        → P (handle_typed lib rtc_config_gen m a b now user msg type).manager
    unfolding handle_typed routed
    typed-keeps msg type = elim (Bool-cases (same type (bytes "call.create"))) [
      | inl t ↦ rw t (
          keeps (on_call_create lib rtc_config_gen m a b now user msg).manager
            (λ key. after m (create m a b now user key)) creates
            (create-manager m a b now user msg))
      | inr n1 ↦ elim (Bool-cases (same type (bytes "call.accept"))) [
        | inl t ↦
            rw (n1, t)
              (keeps (on_call_accept lib rtc_config_gen m user msg).manager
                (λ key. after m (accept m key user)) accepts (accept-manager m user msg))
        | inr n2 ↦ elim (Bool-cases (same type (bytes "call.reject"))) [
          | inl t ↦
              rw (n1, n2, t)
                (keeps (on_call_reject lib rtc_config_gen m user msg).manager
                  (λ key. after m (reject m key user)) rejects (reject-manager m user msg))
          | inr n3 ↦ elim (Bool-cases (same type (bytes "call.hangup"))) [
            | inl t ↦
                rw (n1, n2, n3, t)
                  (keeps (on_call_hangup lib rtc_config_gen m user msg).manager
                    (λ key. after m (hangup m key user)) hangs_up (hangup-manager m user msg))
            | inr n4 ↦ elim (Bool-cases (is_webrtc lib rtc_config_gen type)) [
              | inl t ↦ rw (n1, n2, n3, n4, t) (subst P (sym (relay-manager m user msg)) kept)
              | inr t ↦ rw (n1, n2, n3, n4, t) kept
            ]
          ]
        ]
      ]
    ]

    pub handle-keeps : (raw : Bytes) → P (handle lib rtc_config_gen m a b now user raw).manager
    unfolding handle routed
    handle-keeps raw = elim (Option-cases (lib.parse raw)) [
      | inl q ↦ rw (q, handle) kept
      | inr (msg, q) ↦ elim (Option-cases (lib.string_at msg (bytes "type"))) [
        | inl none_at ↦ rw (q, none_at, handle) kept
        | inr (type, at) ↦ rw (q, at, handle) (typed-keeps msg type)
      ]
    ]
