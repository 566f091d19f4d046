-- ===== src/Backend/Timeouts.antt =====
-- backend/main.cpp: what becomes of the calls that nobody answers.
use mathlib.Core.List.{append_assoc}
use zaza.Common.{
  ℕ, ◌+◌, ◌≡◌, ◌≤◌, ◌<◌, inl, inr, arith, true, false, Bytes, bytes, List, [], ◌∷◌, ◌++◌, some, All,
  All-lookup, refl, sym, ap, ◌∙◌, bytes_eq, Bool-cases, Map,
}
use zaza.Calls.Manager.{
  ringing, find, ended, CallSession, CallManager, is_busy, has_timed_out, expire_loop,
  expire_ringing,
}
use zaza.Calls.Freed.{expire_ringing_frees}
use zaza.Signaling.Json.{JsonLibrary}
use zaza.Signaling.Router.{call_over, send_json, notify_expired, check_expired, routed}
use zaza.Signaling.WsServer.{WsServer, send}
use zaza.Auth.Crypto.{OpenSsl}
use zaza.Accounts.Sqlite.{Sqlite}
use zaza.Accounts.Jwt.{JwtLibrary}
use zaza.Accounts.AuthService.{AuthService}
use zaza.Accounts.Routes.{TurnConfig}
use zaza.Backend.Server.{deliver, routed_by, rtc_config_gen, on_expire_timer}
use zaza.Backend.History.{Moment, Reach, Reach-Sound}

-- What holds of the calls that `expireRinging` returns holds of the ones that timed out.
late-All :
    (P : CallSession → Type 0) (now timeout : ℕ) (l : Map Bytes CallSession)
    → All P (expire_loop now timeout l).1
    → All
        (λ (e : Bytes × CallSession).
          has_timed_out now timeout e.1 ≡ true → P (record e.1 { state = ended }))
        l
unfolding expire_loop
late-All P now timeout [] h = tt
late-All P now timeout ((id, s) ∷ l) h = elim (Bool-cases (has_timed_out now timeout s)) [
  | inl late ↦
      let told : P (record s { state = ended }) × All P (expire_loop now timeout l).1 =
        rw (expire_loop, late) at h in
      (λ _. told.0, late-All P now timeout l told.1)
  | inr early ↦
      let told : All P (expire_loop now timeout l).1 = rw (expire_loop, early) at h in
      (λ late. absurd (ground (arith, early, late)), late-All P now timeout l told)
]

module _ (lib : JsonLibrary) (gen : Bytes → Bytes) (ws : WsServer) where
  abbrev pub failed : CallSession → Bytes
  failed s = lib.dump (call_over lib gen (bytes "call.failed") s.call_id (bytes "timeout"))

  -- Among what is written, both parties get the text on their connections, if they have any.
  abbrev pub Told : List (ℕ × Bytes) → CallSession → Type 0
  Told written s =
      (front : List (ℕ × Bytes)) × (back : List (ℕ × Bytes)) × (written
        ≡ front
          ++ ((send ws s.caller_id (failed s)).0 ++ ((send ws s.callee_id (failed s)).0 ++ back)))

  Told-append :
      (more written : List (ℕ × Bytes)) (g : List CallSession)
      → All (Told written) g
      → All (Told (more ++ written)) g
  Told-append more written [] h = tt
  Told-append more written (s ∷ g) ((front, back, e), h) =
      let sent =
        (send ws s.caller_id (failed s)).0 ++ ((send ws s.callee_id (failed s)).0 ++ back) in
      (
        (more ++ front, back, ap (λ w. more ++ w) e ∙ sym (append_assoc more front sent)),
        Told-append more written g h,
      )

  notify_expired-Told :
      (g : List CallSession) → All (Told (deliver ws (notify_expired lib gen g))) g
  unfolding notify_expired deliver send_json
  notify_expired-Told [] = tt
  notify_expired-Told (s ∷ g) =
      let rest = deliver ws (notify_expired lib gen g) in
      let to_caller = (send ws s.caller_id (failed s)).0 in
      let to_callee = (send ws s.callee_id (failed s)).0 in
      (
        ([], rest, refl),
        Told-append to_caller (to_callee ++ rest) g
            (Told-append to_callee rest g (notify_expired-Told g)),
      )

-- Both parties of a call are free.
abbrev pub Freed : CallManager → CallSession → Type 0
Freed m s = (is_busy m s.caller_id ≡ false) × (is_busy m s.callee_id ≡ false)

both-All :
    (P Q : CallSession → Type 0) (g : List CallSession) → All P g → All Q g → All (λ s. P s × Q s) g
both-All P Q [] h k = tt
both-All P Q (s ∷ g) h k = ((h.0, k.0), both-All P Q g h.1 k.1)

module _ (lib : JsonLibrary) (ssl : OpenSsl) (sql : Sqlite) (jwt : JwtLibrary)
    (auth : AuthService sql) (turn_config : TurnConfig) where
  -- No call rings for ever: in every history of the backend in which the timer last ran out no longer than its
  -- interval ago, every call that still rings was made at most 30 seconds and one interval ago.
  pub Reach-RingsSince :
      (s : Moment) (expire_interval : ℕ) (id : Bytes) (c : CallSession)
      → Reach lib ssl sql jwt auth turn_config s
      → s.clock ≤ s.checked + expire_interval
      → find s.backend.call_manager id ≡ some c
      → c.state ≡ ringing
      → s.clock ≤ c.created_at + (30 + expire_interval)
  unfolding find
  Reach-RingsSince s expire_interval id c r bound found rings =
      let sound = Reach-Sound lib ssl sql jwt auth turn_config s r in
      let recent : has_timed_out s.checked 30 c ≡ false =
        All-lookup (λ d. has_timed_out s.checked 30 d ≡ false) id s.backend.call_manager.sessions
          sound.timely.recent found in
      ground (arith, rings, recent, bound)

  -- When the timer runs out, in every history of the backend, both parties of a call that still rings more than 30 seconds
  -- after it was made become free for another call, and each of them who is connected is written
  -- that the call failed.
  pub on_expire_timer_ends :
      (s : Moment) (wall : Bytes → ℕ) (now : ℕ) (id : Bytes) (c : CallSession)
      → Reach lib ssl sql jwt auth turn_config s
      → find s.backend.call_manager id ≡ some c
      → c.state ≡ ringing
      → c.created_at + 30 < now
      → let r = on_expire_timer lib ssl turn_config s.backend wall now in
        Freed r.backend.call_manager c
        × Told lib (rtc_config_gen lib ssl turn_config wall) s.backend.ws_server r.written c
  unfolding on_expire_timer routed_by check_expired routed expire_ringing find
  on_expire_timer_ends s wall now id c r found rings overdue =
      let m = s.backend.call_manager in
      let gen = rtc_config_gen lib ssl turn_config wall in
      let sound = Reach-Sound lib ssl sql jwt auth turn_config s r in
      let gone = (expire_ringing m now).1 in
      let written = deliver s.backend.ws_server (notify_expired lib gen gone) in
      let told = Told lib gen s.backend.ws_server written in
      let free = Freed (expire_ringing m now).0 in
      let bounded = sound.timely.bounded in
      All-lookup
        (λ d.
          has_timed_out now m.ring_timeout d ≡ true
          → free (record d { state = ended }) × told (record d { state = ended }))
        id m.sessions
        (late-All (λ d. free d × told d) now m.ring_timeout m.sessions
          (both-All free told gone (expire_ringing_frees m now sound.calls)
            (notify_expired-Told lib gen s.backend.ws_server gone)))
        found (ground (arith, bounded, rings, overdue))
