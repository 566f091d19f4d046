-- ===== src/Accounts/HttpServer.antt =====
-- backend/api/http_server.cpp, behind the sockets: which handler a request comes to, and what is
-- answered. Whether a request asks for the WebSocket protocol is an argument.
use zaza.Common.{
  ℕ, Bool, Bytes, bytes, List, [], ◌∷◌, ◌++◌, none, some, if◌then◌else◌, Map, lookup, insert,
  bytes_eq,
}
use zaza.Common.Search.{up_to}
use zaza.Signaling.Json.{JsonLibrary}
use zaza.Auth.Crypto.{OpenSsl}
use zaza.Accounts.Sqlite.{Sqlite}
use zaza.Accounts.Jwt.{JwtLibrary}
use zaza.Accounts.AuthService.{AuthService}
use zaza.Accounts.Routes.{
  Response, response, Answer, responds, throws, TurnConfig, Handler, login_route, credentials_route,
  register_route,
}

-- The request is passed on to the WebSocket server, or answered.
pub data Served : Type 0 where
  upgrades : Served
  answers : Response → Served

-- The loop over the fields of a request.
unfoldable pub headers_of : List (Bytes × Bytes) → Map Bytes Bytes → Map Bytes Bytes
headers_of [] headers = headers
headers_of ((name, value) ∷ fields) headers = headers_of fields (insert name value headers)

module _ (lib : JsonLibrary) (ssl : OpenSsl) (what : Bytes) (sql : Sqlite) (jwt : JwtLibrary) where
  abbrev pub Routes : Type 0
  Routes = Map Bytes (Handler lib ssl what sql jwt)

  unfoldable pub route : Routes → Bytes → Bytes → Handler lib ssl what sql jwt → Routes
  route routes method path handler = insert (method ++ (bytes " " ++ path)) handler routes

  unfoldable pub register_routes : TurnConfig → Routes
  unfolding route login_route credentials_route register_route
  register_routes cfg =
      let with_login =
        route [] (bytes "POST") (bytes "/api/auth/login") (login_route lib ssl what sql jwt) in
      let with_turn =
        route with_login (bytes "GET") (bytes "/api/turn/credentials")
          (credentials_route lib ssl what sql jwt cfg) in
      route with_turn (bytes "POST") (bytes "/api/auth/register")
        (register_route lib ssl what sql jwt)

  -- The `catch` behind the call of a handler.
  unfoldable pub served : Answer → Response
  served (responds resp) = resp
  served (throws text) = response 500 (bytes "{\"error\":\"" ++ (text ++ bytes "\"}"))

  unfoldable pub handle_request :
      Routes
      → AuthService sql
      → ℕ
      → Bool
      → Bytes
      → Bytes
      → Bytes
      → List (Bytes × Bytes)
      → AuthService sql × Served
  unfolding up_to headers_of served
  handle_request routes auth now is_upgrade method target body fields =
      if is_upgrade
      then (auth, upgrades)
      else elim (lookup (method ++ (bytes " " ++ up_to b'?' target)) routes) [
        | none ↦ (auth, answers (response 404 (bytes "{\"error\":\"not found\"}")))
        | some handler ↦
            let (auth', answer) = handler auth now (record {
              method = method;
              target = target;
              body = body;
              headers = headers_of fields [];
            }) in
            (auth', answers (served answer))
      ]
