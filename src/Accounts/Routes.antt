-- ===== src/Accounts/Routes.antt =====
-- backend/api/routes.cpp. A handler of a route gets the service as it is and the time, and gives
-- the service as it leaves it, with its answer.
use zaza.Common.{
  ℕ, ◌+◌, Bool, not, ◌||◌, Bytes, bytes, [], ◌∷◌, ◌++◌, Option, none, some, if◌then◌else◌, Map,
  lookup, bytes_eq, drop,
}
use zaza.Common.Search.{starts_with}
use zaza.Common.Decimal.{to_decimal}
use zaza.Signaling.Json.{JsonLibrary}
use zaza.Auth.Crypto.{OpenSsl}
use zaza.Auth.HmacValidator.{compute_hmac}
use zaza.Accounts.Sqlite.{Sqlite}
use zaza.Accounts.UserStore.{Tried, gives, raises}
use zaza.Accounts.Jwt.{JwtLibrary, JwtResult, payload, jwt_expired, jwt_invalid}
use zaza.Accounts.AuthService.{
  AuthService, LoginResult, logged_in, login_error, store_error, login, verify_token, register_user,
}
use zaza.Client.Session.{is_empty}

pub record Request : Type 0 where
  pub method : Bytes
  pub target : Bytes
  pub body : Bytes
  pub headers : Map Bytes Bytes

pub record Response : Type 0 where
  pub status : ℕ
  pub body : Bytes
  pub content_type : Bytes

-- `Response{status, body}`
abbrev pub response : ℕ → Bytes → Response
response status body = record {
  status = status;
  body = body;
  content_type = bytes "application/json";
}

-- What a handler comes to: a response, or an exception with its text.
pub data Answer : Type 0 where
  responds : Response → Answer
  throws : Bytes → Answer

pub record TurnConfig : Type 0 where
  pub host : Bytes
  pub port_plain : ℕ
  pub port_tls : ℕ
  pub shared_secret : Bytes
  pub ttl : ℕ

unfoldable pub bearer_of : Bytes → Bytes
unfolding starts_with
bearer_of value = if not (starts_with value (bytes "Bearer ")) then [] else drop 7 value

unfoldable pub extract_bearer : Request → Bytes
unfolding bearer_of
extract_bearer req = elim (lookup (bytes "Authorization") req.headers) [
  | some value ↦ bearer_of value
  | none ↦ elim (lookup (bytes "authorization") req.headers) [
    | none ↦ []
    | some value ↦ bearer_of value
  ]
]

-- The user name and the password that both `generateRtcConfig` and the route make.
unfoldable pub turn_login : OpenSsl → TurnConfig → ℕ → Bytes → Bytes × Bytes
unfolding compute_hmac to_decimal
turn_login ssl cfg now user_id =
    let username = to_decimal (now + cfg.ttl) ++ (bytes ":" ++ user_id) in
    (username, compute_hmac ssl cfg.shared_secret username)

module _ (lib : JsonLibrary) (ssl : OpenSsl) where
  unfoldable pub server_urls : TurnConfig → lib.Json
  unfolding to_decimal
  server_urls cfg = lib.array (
      lib.text (bytes "turn:" ++ (cfg.host ++ (bytes ":" ++ to_decimal cfg.port_plain)))
      ∷ lib.text (bytes "turns:" ++ (cfg.host ++ (bytes ":" ++ to_decimal cfg.port_tls)))
      ∷ [])

  unfoldable pub generate_rtc_config : TurnConfig → ℕ → Bytes → Bytes
  unfolding turn_login server_urls
  generate_rtc_config cfg now user_id =
      let (username, password) = turn_login ssl cfg now user_id in
      let ice_server = lib.fields (
        (bytes "urls", server_urls cfg)
        ∷ (bytes "username", lib.text username)
        ∷ (bytes "credential", lib.text password)
        ∷ []) in
      lib.dump (lib.fields ((bytes "iceServers", lib.array (ice_server ∷ [])) ∷ []))

  unfoldable pub credentials_body : TurnConfig → ℕ → Bytes → Bytes
  unfolding turn_login server_urls
  credentials_body cfg now user_id =
      let (username, password) = turn_login ssl cfg now user_id in
      lib.dump (
        lib.fields (
          (bytes "urls", server_urls cfg)
          ∷ (bytes "username", lib.text username)
          ∷ (bytes "credential", lib.text password)
          ∷ (bytes "ttl", lib.number cfg.ttl)
          ∷ []))

  -- `what` is the text of an exception of the JSON library.
  module _ (what : Bytes) (sql : Sqlite) (jwt : JwtLibrary) where
    abbrev pub Handler : Type 0
    Handler = AuthService sql → ℕ → Request → AuthService sql × Answer

    -- The two texts that `login` and `register` take from a body, if they are texts.
    unfoldable pub two_texts : lib.Json → Option (Bytes × Bytes)
    two_texts body = elim (lib.as_text (lib.get body (bytes "userId"))) [
      | none ↦ none
      | some user_id ↦ elim (lib.as_text (lib.get body (bytes "password"))) [
        | none ↦ none
        | some password ↦ some (user_id, password)
      ]
    ]

    abbrev lacks_fields : lib.Json → Bool
    lacks_fields body =
        not (lib.contains body (bytes "userId")) || not (lib.contains body (bytes "password"))

    unfoldable pub login_answer : LoginResult → Answer
    login_answer (logged_in user_id token) = responds (
        response 200
          (lib.dump (lib.object ((bytes "token", token) ∷ (bytes "userId", user_id) ∷ []))))
    login_answer login_error = responds (response 401 (bytes "{\"error\":\"invalid credentials\"}"))
    login_answer (store_error text) = throws text

    unfoldable pub login_route : Handler
    unfolding login login_answer two_texts
    login_route auth now req = elim (lib.parse req.body) [
      | none ↦ (auth, responds (response 400 (bytes "{\"error\":\"invalid json\"}")))
      | some body ↦
          if lacks_fields body
          then (auth, responds (response 400 (bytes "{\"error\":\"missing userId or password\"}")))
          else elim (two_texts body) [
            | none ↦ (auth, throws what)
            | some (user_id, password) ↦
                (auth, login_answer (login ssl sql jwt auth now user_id password))
          ]
    ]

    unfoldable pub credentials_answer : TurnConfig → ℕ → JwtResult → Answer
    unfolding credentials_body
    credentials_answer cfg now (payload user_id exp) =
        responds (response 200 (credentials_body cfg now user_id))
    credentials_answer cfg now (jwt_expired text) =
        responds (response 401 (bytes "{\"error\":\"token expired\"}"))
    credentials_answer cfg now (jwt_invalid text) =
        responds (response 401 (bytes "{\"error\":\"invalid token\"}"))

    unfoldable pub credentials_route : TurnConfig → Handler
    unfolding extract_bearer verify_token credentials_answer
    credentials_route cfg auth now req =
        let token = extract_bearer req in
        if is_empty token
        then (auth, responds (response 401 (bytes "{\"error\":\"missing token\"}")))
        else (auth, credentials_answer cfg now (verify_token ssl sql jwt auth now token))

    unfoldable pub register_answer :
        AuthService sql → Tried (AuthService sql) → AuthService sql × Answer
    register_answer auth (gives auth') = (auth', responds (response 200 (bytes "{\"ok\":true}")))
    register_answer auth (raises text) =
        (auth, responds (response 409 (bytes "{\"error\":\"" ++ (text ++ bytes "\"}"))))

    unfoldable pub register_route : Handler
    unfolding register_user register_answer two_texts
    register_route auth now req = elim (lib.parse req.body) [
      | none ↦ (auth, responds (response 400 (bytes "{\"error\":\"invalid json\"}")))
      | some body ↦
          if lacks_fields body
          then (auth, responds (response 400 (bytes "{\"error\":\"missing fields\"}")))
          else elim (two_texts body) [
            | none ↦ (auth, throws what)
            | some (user_id, password) ↦
                register_answer auth (register_user ssl sql jwt auth user_id password)
          ]
    ]
