-- ===== src/Backend/Server.antt =====
-- backend/main.cpp: what the backend does with a message and when its timer runs out. What is written to the
-- connections is returned, in order. The clocks are arguments: `now` is the steady clock, in seconds, and `wall` the
-- system clock as it is read for each user of a call.
use zaza.Common.{ℕ, Bool, Bytes, List, [], ◌∷◌, ◌++◌, Option, none, some}
use zaza.Calls.Manager.{CallManager, call_manager}
use zaza.Signaling.Json.{JsonLibrary}
use zaza.Signaling.Router.{Routed, handle, check_expired}
use zaza.Signaling.WsServer.{WsServer, ws_server, send}
use zaza.Auth.Crypto.{OpenSsl}
use zaza.Accounts.Sqlite.{Sqlite}
use zaza.Accounts.Jwt.{JwtLibrary, payload, jwt_expired, jwt_invalid}
use zaza.Accounts.AuthService.{AuthService, verify_token}
use zaza.Accounts.Routes.{TurnConfig, generate_rtc_config}

pub record Backend : Type 0 where
  pub call_manager : CallManager
  pub ws_server : WsServer

-- `call_manager(std::chrono::seconds(30))` and `ws_server(auth_service)`.
unfoldable pub start_backend : Backend
unfolding call_manager ws_server
start_backend = record { call_manager = call_manager 30; ws_server = ws_server }

-- What a callback leaves: the parts, what was written, and whether an exception leaves it.
pub record Handled : Type 0 where
  pub backend : Backend
  pub written : List (ℕ × Bytes)
  pub thrown : Bool

-- The calls of `ws_.send`, one after the other.
unfoldable pub deliver : WsServer → List (Bytes × Bytes) → List (ℕ × Bytes)
unfolding send
deliver ws [] = []
deliver ws ((user_id, text) ∷ rest) = (send ws user_id text).0 ++ deliver ws rest

unfoldable pub routed_by : Backend → Routed → Handled
unfolding deliver
routed_by b r = record {
  backend = record b { call_manager = r.manager };
  written = deliver b.ws_server r.sent;
  thrown = r.thrown;
}

-- `auth_.verifyToken(token)` in `WsServer::accept`: the user, or an exception.
unfoldable pub verified :
    OpenSsl → (sql : Sqlite) → JwtLibrary → AuthService sql → ℕ → Bytes → Option Bytes
unfolding verify_token
verified ssl sql jwt auth now token = elim (verify_token ssl sql jwt auth now token) [
  | payload user_id exp ↦ some user_id
  | jwt_expired text ↦ none
  | jwt_invalid text ↦ none
]

module _ (lib : JsonLibrary) (ssl : OpenSsl) (turn_config : TurnConfig) where
  unfoldable pub rtc_config_gen : (Bytes → ℕ) → Bytes → Bytes
  unfolding generate_rtc_config
  rtc_config_gen wall user_id = generate_rtc_config lib ssl turn_config (wall user_id) user_id

  -- The callback of `ws_server.onMessage`.
  unfoldable pub on_message : Backend → (Bytes → ℕ) → ℕ → ℕ → ℕ → Bytes → Bytes → Handled
  unfolding rtc_config_gen handle routed_by
  on_message b wall draw_a draw_b now user_id msg =
      routed_by b (handle lib (rtc_config_gen wall) b.call_manager draw_a draw_b now user_id msg)

  -- The callback of `expire_timer`, which starts the timer again.
  unfoldable pub on_expire_timer : Backend → (Bytes → ℕ) → ℕ → Handled
  unfolding rtc_config_gen check_expired routed_by
  on_expire_timer b wall now =
      routed_by b (check_expired lib (rtc_config_gen wall) b.call_manager now)
