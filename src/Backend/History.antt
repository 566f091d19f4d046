-- ===== src/Backend/History.antt =====
-- backend/main.cpp: the histories of the backend, and what holds in all of them.
use zaza.Common.{ℕ, ◌≡◌, ◌≤◌, refl, arith, Bool, false, Bytes, bytes_eq}
use zaza.Calls.Manager.{call_manager}
use zaza.Calls.Lifecycle as Lifecycle
use zaza.Calls.Timeouts.{
  Timely, create-Timely, accept-Timely, reject-Timely, hangup-Timely, expire_ringing-Timely,
}
use zaza.Signaling.Json.{JsonLibrary}
use zaza.Signaling.Router.{check_expired, routed}
use zaza.Signaling.Handled.{handle-keeps}
use zaza.Signaling.WsServer.{ws_server}
use zaza.Signaling.Connections.{Network, Delivers, Step-Delivers}
use zaza.Signaling.Connections as Connections
use zaza.Auth.Crypto.{OpenSsl}
use zaza.Accounts.Sqlite.{Sqlite}
use zaza.Accounts.Jwt.{JwtLibrary}
use zaza.Accounts.AuthService.{AuthService}
use zaza.Accounts.Routes.{TurnConfig}
use zaza.Backend.Server.{
  Backend, start_backend, routed_by, verified, rtc_config_gen, on_message, on_expire_timer,
}

-- The backend with the connections that are open, the steady clock, and when the timer last ran out.
pub record Moment : Type 0 where
  pub backend : Backend
  pub is_open : Bytes → ℕ → Bool
  pub clock : ℕ
  pub checked : ℕ

abbrev pub network_of : Moment → Network
network_of s = record { server = s.backend.ws_server; is_open = s.is_open }

module _ (lib : JsonLibrary) (ssl : OpenSsl) (sql : Sqlite) (jwt : JwtLibrary)
    (auth : AuthService sql) (turn_config : TurnConfig) where
  -- Connections come and go, messages are received, the timer runs out, and time passes. An exception that leaves
  -- a callback ends the program.
  pub data Step : Moment → Moment → Type 0 where
    connects :
        {s : Moment} {n : Network}
        → (wall : ℕ) → Connections.Step (verified ssl sql jwt auth wall) (network_of s) n
        → Step s
            (record s { backend = record s.backend { ws_server = n.server }; is_open = n.is_open })
    receives :
        {s : Moment}
        → (wall : Bytes → ℕ) (draw_a draw_b now : ℕ) (user_id msg : Bytes) → s.clock ≤ now
        → (on_message lib ssl turn_config s.backend wall draw_a draw_b now user_id msg).thrown
          ≡ false
        → Step s (record s {
          backend =
              (on_message lib ssl turn_config s.backend wall draw_a draw_b now user_id msg).backend;
          clock = now;
        })
    checks :
        {s : Moment}
        → (wall : Bytes → ℕ) (now : ℕ) → s.clock ≤ now
        → Step s (record s {
          backend = (on_expire_timer lib ssl turn_config s.backend wall now).backend;
          clock = now;
          checked = now;
        })
    waits : {s : Moment} → (now : ℕ) → s.clock ≤ now → Step s (record s { clock = now })

  pub data Reach : Moment → Type 0 where
    start :
        (now : ℕ)
        → Reach
            (record { backend = start_backend; is_open = λ u i. false; clock = now; checked = now })
    next : {s s' : Moment} → Reach s → Step s s' → Reach s'

  pub record Sound (s : Moment) : Type 0 where
    pub calls : Lifecycle.Reach s.backend.call_manager
    pub timely : Timely s.checked 30 s.backend.call_manager
    pub delivers : Delivers (network_of s)
    pub ordered : s.checked ≤ s.clock

  on_message-calls :
      (s : Moment) (wall : Bytes → ℕ) (draw_a draw_b now : ℕ) (user_id msg : Bytes)
      → Sound s
      → s.clock ≤ now
      → let b =
          (on_message lib ssl turn_config s.backend wall draw_a draw_b now user_id msg).backend in
        Lifecycle.Reach b.call_manager × Timely s.checked 30 b.call_manager
  unfolding on_message routed_by
  on_message-calls s wall a b now user msg sound later =
      let m = s.backend.call_manager in
      handle-keeps lib (rtc_config_gen lib ssl turn_config wall) m a b now user
        (λ m'. Lifecycle.Reach m' × Timely s.checked 30 m') (sound.calls, sound.timely)
        (λ callee. (
          Lifecycle.next sound.calls (Lifecycle.creates a b now user callee),
          create-Timely s.checked 30 m sound.timely a b now user callee
              (omega (arith, sound.ordered, later)),
        ))
        (λ id. (
          Lifecycle.next sound.calls (Lifecycle.accepts id user),
          accept-Timely s.checked 30 m sound.timely id user,
        ))
        (λ id. (
          Lifecycle.next sound.calls (Lifecycle.rejects id user),
          reject-Timely s.checked 30 m sound.timely id user,
        ))
        (λ id. (
          Lifecycle.next sound.calls (Lifecycle.hangs_up id user),
          hangup-Timely s.checked 30 m sound.timely id user,
        ))
        msg

  pub Reach-Sound : (s : Moment) → Reach s → Sound s
  unfolding start_backend on_message on_expire_timer routed_by check_expired ws_server routed
      call_manager
  Reach-Sound _ (start now) = record {
    calls = Lifecycle.start 30;
    timely = record { bounded = refl; recent = tt };
    delivers = λ user id found. absurd (cc);
    ordered = omega arith;
  }
  Reach-Sound _ (next {s = s} r (connects {n = n} wall step)) =
      let sound = Reach-Sound s r in
      record {
        calls = sound.calls;
        timely = sound.timely;
        delivers =
            Step-Delivers (verified ssl sql jwt auth wall) (network_of s) n step sound.delivers;
        ordered = sound.ordered;
      }
  Reach-Sound _ (next {s = s} r (receives wall a b now user msg later ok)) =
      let sound = Reach-Sound s r in
      let (calls, timely) = on_message-calls s wall a b now user msg sound later in
      record {
        calls = calls;
        timely = timely;
        delivers = sound.delivers;
        ordered = omega (arith, sound.ordered, later);
      }
  Reach-Sound _ (next {s = s} r (checks wall now later)) =
      let sound = Reach-Sound s r in
      record {
        calls = Lifecycle.next sound.calls (Lifecycle.expires now);
        timely = expire_ringing-Timely s.checked 30 now s.backend.call_manager sound.timely;
        delivers = sound.delivers;
        ordered = omega arith;
      }
  Reach-Sound _ (next {s = s} r (waits now later)) =
      let sound = Reach-Sound s r in
      record {
        calls = sound.calls;
        timely = sound.timely;
        delivers = sound.delivers;
        ordered = omega (arith, sound.ordered, later);
      }
