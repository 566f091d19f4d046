-- ===== src/Signaling/WsServer.antt =====
-- backend/signaling/ws_server.cpp. A session is known by a number, the next one for each
-- connection; the check of a token is a parameter, `none` where `verifyToken` throws. What is
-- written to a connection is returned.
use zaza.Common.{
  ℕ, ◌+◌, Bool, true, false, Bytes, bytes, List, [], ◌∷◌, Option, none, some, Map, lookup, insert,
  erase, bytes_eq, drop,
}
use zaza.Common.Search.{find_part, up_to}

-- The map of sessions, and how many connections there have been.
pub record WsServer : Type 0 where
  pub sessions : Map Bytes ℕ
  pub connections : ℕ

unfoldable pub ws_server : WsServer
ws_server = record { sessions = []; connections = 0 }

-- The text behind `token=`, up to the next `&`.
unfoldable pub extract_token : Bytes → Bytes
unfolding find_part up_to
extract_token target = elim (find_part target (bytes "token=")) [
  | none ↦ []
  | some rest ↦ up_to b'&' (drop 6 rest)
]

-- The session that `accept` starts, if it starts one, with its user.
unfoldable pub connect : WsServer → Bytes → WsServer × Option (Bytes × ℕ)
connect ws user_id =
    let id = ws.connections in
    (record { sessions = insert user_id id ws.sessions; connections = id + 1 }, some (user_id, id))

unfoldable pub accept_token :
    (Bytes → Option Bytes) → WsServer → Bytes → WsServer × Option (Bytes × ℕ)
unfolding connect
accept_token verify ws [] = (ws, none)
accept_token verify ws (c ∷ token) = elim (verify (c ∷ token)) [
  | none ↦ (ws, none)
  | some user_id ↦ connect ws user_id
]

unfoldable pub accept : (Bytes → Option Bytes) → WsServer → Bytes → WsServer × Option (Bytes × ℕ)
unfolding extract_token accept_token
accept verify ws target = accept_token verify ws (extract_token target)

-- `send`: the session that the text is written to, and what is returned.
unfoldable pub send : WsServer → Bytes → Bytes → List (ℕ × Bytes) × Bool
send ws user_id message = elim (lookup user_id ws.sessions) [
  | none ↦ ([], false)
  | some id ↦ ((id, message) ∷ [], true)
]

unfoldable pub remove_session : WsServer → Bytes → WsServer
remove_session ws user_id = record ws { sessions = erase user_id ws.sessions }

-- `on_close_(userId_)`, which a session calls when a read or a write of it fails.
unfoldable pub on_session_close : WsServer → Bytes × ℕ → WsServer
unfolding remove_session
on_session_close ws (user_id, id) = remove_session ws user_id
