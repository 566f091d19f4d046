-- ===== src/Tests/Backend.antt =====
-- Runs of the accounts, of the HTTP interface and of the WebSocket server of the backend.
use zaza.Common.{
  ℕ, ◌≡◌, refl, ap, subst, true, false, Bytes, bytes, List, [], ◌∷◌, ◌++◌, Option, none, some, same,
  bytes_eq, Map, lookup, insert, lookup-insert_self, lookup-insert_diff, if◌then◌else◌, leb,
}
use zaza.Common.Search.{find_part, starts_with, up_to}
use zaza.Auth.Crypto.{OpenSsl}
use zaza.Signaling.WsServer.{
  WsServer, ws_server, accept, accept_token, connect, extract_token, send, on_session_close,
}
use zaza.Signaling.Connections.{Network, opened, reconnected}
use zaza.Accounts.Sqlite.{Sqlite, Selected, TableLaws, inserted, no_row, row}
use zaza.Accounts.UserStore.{gives, c_str, hash_password, add_user, find_user}
use zaza.Accounts.Jwt.{JwtLibrary, passes, unverified, fails, payload, sign}
use zaza.Accounts.AuthService.{
  AuthService, logged_in, login_error, login, verify_token, register_user,
}
use zaza.Accounts.Routes.{
  response, TurnConfig, extract_bearer, bearer_of, credentials_body, credentials_route,
  credentials_answer,
}
use zaza.Accounts.HttpServer.{answers, headers_of, register_routes, handle_request, route, served}
use zaza.Accounts.Access.{register-login}
use zaza.Accounts.Guard.{handle_request-guarded}
use zaza.Tests.FlatJson.{flat}

-- A table as a list of rows, a token as the list of its times and its user, and digests that
-- change nothing.
abbrev pub table : Sqlite
table = record {
  Db = Map Bytes Bytes;
  insert = λ db user hash. inserted (insert user hash db);
  select = λ db user. elim (lookup user db) [ none ↦ no_row | some hash ↦ row user hash ];
}

selects :
    (db db' : table.Db) (user hash : Bytes)
    → table.insert db user hash ≡ inserted db'
    → lookup user (insert user hash db) ≡ some hash
    → table.select db' user ≡ row user hash
selects db db' user hash e found =
    let stored : insert user hash db ≡ db' = cc in
    let show =
      λ (o : Option Bytes). elim o as (λ o. Selected) [ none ↦ no_row | some h ↦ row user h ] in
    subst (λ (d : table.Db). table.select d user ≡ row user hash) stored (ap show found)

keeps :
    (db db' : table.Db) (user hash other : Bytes)
    → table.insert db user hash ≡ inserted db'
    → lookup other (insert user hash db) ≡ lookup other db
    → table.select db' other ≡ table.select db other
keeps db db' user hash other e kept =
    let stored : insert user hash db ≡ db' = cc in
    let show =
      λ (o : Option Bytes). elim o as (λ o. Selected) [ none ↦ no_row | some h ↦ row other h ] in
    subst (λ (d : table.Db). table.select d other ≡ table.select db other) stored (ap show kept)

table-TableLaws : TableLaws table
table-TableLaws = record {
  select-insert =
      λ db db' user hash e. selects db db' user hash e (lookup-insert_self user hash db);
  select-insert_other = λ db db' user hash other e n.
      keeps db db' user hash other e (lookup-insert_diff user other hash db n);
}

abbrev pub tokens : JwtLibrary
tokens = record {
  sign = λ secret issued expiry user. expiry ∷ user;
  check = λ secret now token. elim token [
    | [] ↦ fails (bytes "invalid token")
    | expiry ∷ user ↦
        if leb now expiry then passes user expiry else unverified (bytes "token expired")
  ];
}

abbrev pub ssl : OpenSsl
ssl = record {
  hmac_sha1 = λ key text. text;
  hmac_sha256 = λ key text. text;
  sha256 = λ text. text;
  md5 = λ text. text;
  base64_encode = λ text. text;
  memcmp = λ a b. if same a b then 0 else 1;
}

abbrev pub empty : AuthService table
empty = record { jwt_secret = bytes "secret"; store = []; ttl = 60 }

abbrev with_ann : AuthService table
with_ann = record empty { store = (bytes "ann", bytes "7077") ∷ [] }

register_run : register_user ssl table tokens empty (bytes "ann") (bytes "pw") ≡ gives with_ann
unfolding register_user add_user find_user up_to hash_password
register_run = refl

register-login_example : login ssl table tokens with_ann 5 (bytes "ann") (bytes "pw") ≡ (
    if same (c_str (bytes "ann")) (c_str (bytes "ann"))
    then (if same (hash_password ssl (bytes "pw")) (hash_password ssl (bytes "pw"))
        then logged_in (bytes "ann") (sign tokens (bytes "secret") 5 (bytes "ann") 60)
        else login_error)
    else login ssl table tokens empty 5 (bytes "ann") (bytes "pw"))
register-login_example =
    register-login ssl table table-TableLaws tokens empty with_ann 5 (bytes "ann") (bytes "pw")
      (bytes "ann") (bytes "pw") register_run

-- A name with a zero byte in it is the user that the name in front of it is.
zero_byte_test :
    login ssl table tokens with_ann 5 (bytes "ann" ++ (0 ∷ bytes "x")) (bytes "pw")
    ≡ logged_in (bytes "ann" ++ (0 ∷ bytes "x")) (65 ∷ (bytes "ann" ++ (0 ∷ bytes "x")))
unfolding login up_to find_user hash_password sign
zero_byte_test = refl

login_run :
    login ssl table tokens with_ann 5 (bytes "ann") (bytes "pw")
    ≡ logged_in (bytes "ann") (65 ∷ bytes "ann")
unfolding login up_to find_user hash_password sign
login_run = refl

abbrev pub cfg : TurnConfig
cfg = record {
  host = bytes "turn.example";
  port_plain = 3478;
  port_tls = 5349;
  shared_secret = bytes "shared";
  ttl = 3600;
}

abbrev what : Bytes
what = bytes "type error"

abbrev fields : List (Bytes × Bytes)
fields = (bytes "Authorization", bytes "Bearer Aann") ∷ []

abbrev target : Bytes
target = bytes "/api/turn/credentials?x=1"

credentials_run :
    handle_request flat ssl what table tokens
      (register_routes flat ssl what table tokens cfg)
      with_ann
      5
      false
      (bytes "GET")
      target
      []
      fields
    ≡ (with_ann, answers (response 200 (credentials_body flat ssl cfg 5 (bytes "ann"))))
unfolding handle_request register_routes route credentials_route headers_of extract_bearer bearer_of
    starts_with up_to verify_token credentials_answer served
credentials_run = refl

handle_request-guarded_example :
    (user : Bytes) × (exp : ℕ) × (verify_token ssl table tokens with_ann 5 (
        extract_bearer (record {
          method = bytes "GET";
          target = target;
          body = [];
          headers = headers_of fields [];
        }))
      ≡ payload user exp)
    × (response 200 (credentials_body flat ssl cfg 5 (bytes "ann"))
        ≡ response 200 (credentials_body flat ssl cfg 5 user))
unfolding up_to
handle_request-guarded_example =
    handle_request-guarded flat ssl what table tokens cfg with_ann with_ann 5 target [] fields
      (response 200 (credentials_body flat ssl cfg 5 (bytes "ann"))) refl credentials_run refl

-- The check of a token that takes every token for its user.
abbrev trusting : Bytes → Option Bytes
trusting token = some token

abbrev once : WsServer
once = record { sessions = (bytes "ann", 0) ∷ []; connections = 1 }

abbrev twice : WsServer
twice = record { sessions = (bytes "ann", 1) ∷ []; connections = 2 }

accept_run :
    (accept trusting ws_server (bytes "/ws?token=ann&x=1") ≡ (once, some (bytes "ann", 0)))
    × (accept trusting once (bytes "/ws?token=ann") ≡ (twice, some (bytes "ann", 1)))
unfolding accept accept_token connect extract_token find_part starts_with up_to ws_server
accept_run = (refl, refl)

reconnected_example :
    (send twice (bytes "ann") (bytes "hi") ≡ ((1, bytes "hi") ∷ [], true))
    × (send (on_session_close twice (bytes "ann", 0)) (bytes "ann") (bytes "hi") ≡ (
        if same (bytes "ann") (bytes "ann")
        then ([], false)
        else send ws_server (bytes "ann") (bytes "hi")))
reconnected_example =
    reconnected trusting ws_server once twice (bytes "/ws?token=ann&x=1") (bytes "/ws?token=ann")
      (bytes "ann") (bytes "ann") (bytes "hi") 0 1 accept_run.0 accept_run.1

abbrev network : Network
network = opened (record { server = ws_server; is_open = λ u i. false }) (bytes "ann") 0 once
