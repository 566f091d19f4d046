-- ===== src/Backend/Delivery.antt =====
-- backend/main.cpp: whom the backend writes to.
use mathlib.Core.List.{Mem, mem-cons_self, mem-cons_of_mem}
use zaza.Common.{
  ℕ, ◌≡◌, inl, inr, Bool, true, Bytes, List, [], ◌∷◌, All, lookup, bytes_eq, Option-cases,
}
use zaza.Signaling.Json.{JsonLibrary}
use zaza.Signaling.Router.{handle, check_expired}
use zaza.Signaling.WsServer.{send}
use zaza.Signaling.Connections.{Network, Delivers}
use zaza.Auth.Crypto.{OpenSsl}
use zaza.Accounts.Sqlite.{Sqlite}
use zaza.Accounts.Jwt.{JwtLibrary}
use zaza.Accounts.AuthService.{AuthService}
use zaza.Accounts.Routes.{TurnConfig}
use zaza.Backend.Server.{deliver, routed_by, rtc_config_gen, on_message, on_expire_timer}
use zaza.Backend.History.{Moment, network_of, Reach, Reach-Sound}

-- What is written is a text for a user, on an open connection of that user.
abbrev pub Addressed : (Bytes → ℕ → Bool) → List (Bytes × Bytes) → ℕ × Bytes → Type 0
Addressed is_open sent w = (user : Bytes) × Mem (user, w.1) sent × (is_open user w.0 ≡ true)

wider :
    (is_open : Bytes → ℕ → Bool) (e : Bytes × Bytes) (sent : List (Bytes × Bytes))
    (written : List (ℕ × Bytes))
    → All (Addressed is_open sent) written
    → All (Addressed is_open (e ∷ sent)) written
wider is_open e sent [] h = tt
wider is_open e sent (w ∷ written) ((user, at, opened), h) =
    ((user, mem-cons_of_mem e at, opened), wider is_open e sent written h)

deliver-Addressed :
    (n : Network) (sent : List (Bytes × Bytes))
    → Delivers n
    → All (Addressed n.is_open sent) (deliver n.server sent)
unfolding deliver send
deliver-Addressed n [] d = tt
deliver-Addressed n ((user, text) ∷ sent) d =
    let rest =
      wider n.is_open (user, text) sent (deliver n.server sent) (deliver-Addressed n sent d) in
    elim (Option-cases (lookup user n.server.sessions)) [
      | inl q ↦ rw (deliver, send, q) rest
      | inr (id, q) ↦ rw (deliver, send, q) ((user, mem-cons_self, d user id q), rest)
    ]

module _ (lib : JsonLibrary) (ssl : OpenSsl) (sql : Sqlite) (jwt : JwtLibrary)
    (auth : AuthService sql) (turn_config : TurnConfig) where
  -- In every history of the backend, each text that it writes in answer to a message is one that the router
  -- sends to a user, and it is written to an open connection of that user; so are the texts that it writes when its timer
  -- runs out.
  pub Reach-Addressed :
      (s : Moment) (wall : Bytes → ℕ) (draw_a draw_b now : ℕ) (user_id msg : Bytes)
      → Reach lib ssl sql jwt auth turn_config s
      → let gen = rtc_config_gen lib ssl turn_config wall in
        All
          (Addressed s.is_open
            (handle lib gen s.backend.call_manager draw_a draw_b now user_id msg).sent)
          (on_message lib ssl turn_config s.backend wall draw_a draw_b now user_id msg).written
        × All
            (Addressed s.is_open (check_expired lib gen s.backend.call_manager now).sent)
            (on_expire_timer lib ssl turn_config s.backend wall now).written
  unfolding on_message on_expire_timer routed_by
  Reach-Addressed s wall a b now user msg r =
      let n = network_of s in
      let gen = rtc_config_gen lib ssl turn_config wall in
      let d = (Reach-Sound lib ssl sql jwt auth turn_config s r).delivers in
      (
        deliver-Addressed n (handle lib gen s.backend.call_manager a b now user msg).sent d,
        deliver-Addressed n (check_expired lib gen s.backend.call_manager now).sent d,
      )
