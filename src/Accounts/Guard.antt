-- ===== src/Accounts/Guard.antt =====
-- What the HTTP interface of the backend lets a client do.
use zaza.Common.{
  ℕ, ◌≡◌, refl, sym, ap, ◌∙◌, inl, inr, arith, ◌⊎◌, Bool, false, not, ◌||◌, Bytes, bytes, List, [],
  ◌++◌, bytes_eq, Bool-cases, Option-cases, if_both, All, All-lookup, lookup,
}
use zaza.Common.Search.{up_to}
use zaza.Signaling.Json.{JsonLibrary}
use zaza.Auth.Crypto.{OpenSsl}
use zaza.Accounts.Sqlite.{Sqlite}
use zaza.Accounts.UserStore.{Tried, gives, raises}
use zaza.Accounts.Jwt.{JwtLibrary, JwtResult, payload, jwt_expired, jwt_invalid}
use zaza.Accounts.AuthService.{AuthService, verify_token, register_user}
use zaza.Accounts.Routes.{
  Request, Response, response, Answer, TurnConfig, extract_bearer, credentials_body, Handler,
  two_texts, login_route, credentials_answer, credentials_route, register_answer, register_route,
}
use zaza.Accounts.HttpServer.{
  Served, answers, headers_of, route, register_routes, served, handle_request,
}
use zaza.Client.Session.{is_empty}

module _ (lib : JsonLibrary) (ssl : OpenSsl) (what : Bytes) (sql : Sqlite) (jwt : JwtLibrary) where
  credentials_answer-guarded :
      (cfg : TurnConfig) (now : ℕ) (r : JwtResult) (resp : Response)
      → served lib ssl what sql jwt (credentials_answer lib ssl what sql jwt cfg now r) ≡ resp
      → resp.status ≡ 200
      → (user : Bytes) × (exp : ℕ) × (r ≡ payload user exp)
        × (resp ≡ response 200 (credentials_body lib ssl cfg now user))
  unfolding credentials_answer served
  credentials_answer-guarded cfg now (payload user exp) resp e ok = (user, exp, refl, sym e)
  credentials_answer-guarded cfg now (jwt_expired text) resp e ok = absurd (ground (arith, e, ok))
  credentials_answer-guarded cfg now (jwt_invalid text) resp e ok = absurd (ground (arith, e, ok))

  route-guarded :
      (cfg : TurnConfig) (auth : AuthService sql) (now : ℕ) (req : Request) (resp : Response)
      → served lib ssl what sql jwt (credentials_route lib ssl what sql jwt cfg auth now req).1
        ≡ resp
      → resp.status ≡ 200
      → (user : Bytes) × (exp : ℕ) × (verify_token ssl sql jwt auth now (extract_bearer req)
          ≡ payload user exp)
        × (resp ≡ response 200 (credentials_body lib ssl cfg now user))
  unfolding credentials_route served
  route-guarded cfg auth now req resp e ok = elim (Bool-cases (is_empty (extract_bearer req))) [
    | inl y ↦ absurd (ground (arith, e, ok, y))
    | inr n ↦
        let r = verify_token ssl sql jwt auth now (extract_bearer req) in
        let answered : (credentials_route lib ssl what sql jwt cfg auth now req).1
            ≡ credentials_answer lib ssl what sql jwt cfg now r =
          rw (credentials_route, n) refl in
        credentials_answer-guarded cfg now r resp
          (ap (served lib ssl what sql jwt) (sym answered) ∙ e) ok
  ]

  credentials-request :
      (cfg : TurnConfig) (auth : AuthService sql) (now : ℕ) (target body : Bytes)
      (fields : List (Bytes × Bytes))
      → up_to b'?' target ≡ bytes "/api/turn/credentials"
      → let req : Request = record {
        method = bytes "GET";
        target = target;
        body = body;
        headers = headers_of fields [];
      } in
        let r = credentials_route lib ssl what sql jwt cfg auth now req in
        handle_request lib ssl what sql jwt
          (register_routes lib ssl what sql jwt cfg)
          auth
          now
          false
          (bytes "GET")
          target
          body
          fields
        ≡ (r.0, answers (served lib ssl what sql jwt r.1))
  unfolding handle_request register_routes route
  credentials-request cfg auth now target body fields path = rw (handle_request, path) refl

  -- A request for TURN credentials that is answered with status 200 carries a token that the
  -- service accepts, and gets the credentials of that token's user and no other.
  pub handle_request-guarded :
      (cfg : TurnConfig) (auth auth' : AuthService sql) (now : ℕ) (target body : Bytes)
      (fields : List (Bytes × Bytes)) (resp : Response)
      → up_to b'?' target ≡ bytes "/api/turn/credentials"
      → handle_request lib ssl what sql jwt
          (register_routes lib ssl what sql jwt cfg)
          auth
          now
          false
          (bytes "GET")
          target
          body
          fields
        ≡ (auth', answers resp)
      → resp.status ≡ 200
      → let req : Request = record {
        method = bytes "GET";
        target = target;
        body = body;
        headers = headers_of fields [];
      } in
        (user : Bytes) × (exp : ℕ) × (verify_token ssl sql jwt auth now (extract_bearer req)
          ≡ payload user exp)
        × (resp ≡ response 200 (credentials_body lib ssl cfg now user))
  unfolding handle_request register_routes route credentials_route
  handle_request-guarded cfg auth auth' now target body fields resp path e ok =
      let req : Request = record {
        method = bytes "GET";
        target = target;
        body = body;
        headers = headers_of fields [];
      } in
      let answer =
        served lib ssl what sql jwt (credentials_route lib ssl what sql jwt cfg auth now req).1 in
      let by_route : answers answer ≡ answers resp =
        ap (λ (p : AuthService sql × Served). p.1)
          (sym (credentials-request cfg auth now target body fields path) ∙ e) in
      route-guarded cfg auth now req resp (cc) ok

  register_answer-Step :
      (auth : AuthService sql) (user password : Bytes) (r : Tried (AuthService sql))
      → register_user ssl sql jwt auth user password ≡ r
      → ((register_answer lib ssl what sql jwt auth r).0 ≡ auth)
        ⊎ ((u : Bytes) × (p : Bytes) × (register_user ssl sql jwt auth u p
              ≡ gives (register_answer lib ssl what sql jwt auth r).0))
  unfolding register_answer
  register_answer-Step auth user password (gives auth') e = inr (user, password, e)
  register_answer-Step auth user password (raises text) e = inl refl

  Registers : Handler lib ssl what sql jwt → Type 0
  Registers handler =
      (auth : AuthService sql) (now : ℕ) (req : Request)
      → ((handler auth now req).0 ≡ auth)
        ⊎ ((user : Bytes) × (password : Bytes) × (register_user ssl sql jwt auth user password
              ≡ gives (handler auth now req).0))

  login-Registers : Registers (login_route lib ssl what sql jwt)
  unfolding Registers login_route
  login-Registers auth now req = inl (elim (Option-cases (lib.parse req.body)) [
    | inl n ↦ rw (login_route, n) refl
    | inr (body, y) ↦
        rw (login_route, y)
          (if_both (λ (r : AuthService sql × Answer). r.0 ≡ auth)
            (not (lib.contains body (bytes "userId")) || not (lib.contains body (bytes "password")))
            refl
            (elim (Option-cases (two_texts lib ssl what sql jwt body)) [
              | inl n ↦ rw n refl
              | inr (given, z) ↦ rw z refl
            ]))
  ])

  register-Registers : Registers (register_route lib ssl what sql jwt)
  unfolding Registers register_route
  register-Registers auth now req = elim (Option-cases (lib.parse req.body)) [
    | inl n ↦ inl (rw (register_route, n) refl)
    | inr (body, y) ↦
        rw (register_route, y)
          (if_both
            (λ (r : AuthService sql × Answer).
              (r.0 ≡ auth)
              ⊎ ((user : Bytes) × (password : Bytes) × (register_user ssl sql jwt auth user password
                    ≡ gives r.0)))
            (not (lib.contains body (bytes "userId")) || not (lib.contains body (bytes "password")))
            (inl refl)
            (elim (Option-cases (two_texts lib ssl what sql jwt body)) [
              | inl n ↦ rw n (inl refl)
              | inr ((user, password), z) ↦ rw z (
                  register_answer-Step auth user password
                    (register_user ssl sql jwt auth user password) refl)
            ]))
  ]

  credentials-Registers :
      (cfg : TurnConfig) → Registers (credentials_route lib ssl what sql jwt cfg)
  unfolding Registers credentials_route
  credentials-Registers cfg auth now req = inl (
      if_both (λ (r : AuthService sql × Answer). r.0 ≡ auth) (is_empty (extract_bearer req)) refl
        refl)

  routes-Registers :
      (cfg : TurnConfig)
      → All
          (λ (e : Bytes × Handler lib ssl what sql jwt). Registers e.1)
          (register_routes lib ssl what sql jwt cfg)
  unfolding register_routes route
  routes-Registers cfg = (login-Registers, (credentials-Registers cfg, (register-Registers, tt)))

  -- A request leaves the accounts as they are, or registers one user.
  pub handle_request-registers :
      (cfg : TurnConfig) (auth : AuthService sql) (now : ℕ) (is_upgrade : Bool)
      (method target body : Bytes) (fields : List (Bytes × Bytes))
      → let auth' =
          (handle_request lib ssl what sql jwt
            (register_routes lib ssl what sql jwt cfg)
            auth
            now
            is_upgrade
            method
            target
            body
            fields).0 in
        (auth' ≡ auth)
        ⊎ ((user : Bytes) × (password : Bytes) × (register_user ssl sql jwt auth user password
              ≡ gives auth'))
  unfolding handle_request register_routes route Registers
  handle_request-registers cfg auth now is_upgrade method target body fields =
      let routes = register_routes lib ssl what sql jwt cfg in
      elim (Bool-cases is_upgrade) [
        | inl y ↦ inl (rw (handle_request, y) refl)
        | inr n ↦ elim (Option-cases (lookup (method ++ (bytes " " ++ up_to b'?' target)) routes)) [
          | inl none_found ↦ inl (rw (handle_request, n, none_found) refl)
          | inr (handler, found) ↦
              let req : Request = record {
                method = method;
                target = target;
                body = body;
                headers = headers_of fields [];
              } in
              rw (handle_request, n, found)
                (All-lookup Registers (method ++ (bytes " " ++ up_to b'?' target)) routes
                  (routes-Registers cfg) found auth now req)
        ]
      ]
