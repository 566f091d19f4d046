-- ===== src/Signaling/Connections.antt =====
-- Which connection of backend/signaling/ws_server.cpp a message goes to, after every history of
-- connections that are made and end.
use zaza.Common.{
  ℕ, ◌≡◌, refl, sym, ap, ◌∙◌, inl, inr, arith, Bool, true, false, not, ◌&&◌, ◌||◌, Bytes, [], ◌∷◌,
  Option, none, some, ◌==◌, same, bytes_eq, if◌then◌else◌, Bool-cases, Option-cases, lookup, insert,
  lookup-insert, lookup-erase, lookup-insert_self,
}
use zaza.Signaling.WsServer.{
  WsServer, ws_server, extract_token, connect, accept_token, accept, send, remove_session,
  on_session_close,
}

-- The server, and which connections are open, by their user and their number.
pub record Network : Type 0 where
  pub server : WsServer
  pub is_open : Bytes → ℕ → Bool

abbrev pub opened : Network → Bytes → ℕ → WsServer → Network
opened n user id server = record {
  server = server;
  is_open = λ u i. (same user u && id == i) || n.is_open u i;
}

abbrev pub closed : Network → Bytes → ℕ → WsServer → Network
closed n user id server = record {
  server = server;
  is_open = λ u i. not (same user u && id == i) && n.is_open u i;
}

-- A connection that `accept` takes is open; one that it does not take is closed at once. The end of
-- a session may be noticed more than once.
pub data Step (verify : Bytes → Option Bytes) : Network → Network → Type 0 where
  takes :
      {n : Network} {server : WsServer} {user : Bytes} {id : ℕ}
      → (target : Bytes) → accept verify n.server target ≡ (server, some (user, id))
      → Step verify n (opened n user id server)
  refuses :
      {n : Network} {server : WsServer}
      → (target : Bytes) → accept verify n.server target ≡ (server, none)
      → Step verify n (record n { server = server })
  ends :
      {n : Network}
      → (user : Bytes) (id : ℕ)
      → Step verify n (closed n user id (on_session_close n.server (user, id)))

pub data Reach (verify : Bytes → Option Bytes) : Network → Type 0 where
  start : Reach verify (record { server = ws_server; is_open = λ u i. false })
  next : {n n' : Network} → Reach verify n → Step verify n n' → Reach verify n'

accept_token-server :
    (verify : Bytes → Option Bytes) (ws ws' : WsServer) (token user : Bytes) (id : ℕ)
    → accept_token verify ws token ≡ (ws', some (user, id))
    → (ws' ≡ (connect ws user).0) × (id ≡ ws.connections)
unfolding accept_token connect
accept_token-server verify ws ws' [] user id e = absurd (cc)
accept_token-server verify ws ws' (c ∷ token) user id e = elim (Option-cases (verify (c ∷ token))) [
  | inl n ↦ absurd (ground (arith, e, n))
  | inr (u, y) ↦ (ground (arith, e, y), ground (arith, e, y))
]

accept_token-refused :
    (verify : Bytes → Option Bytes) (ws ws' : WsServer) (token : Bytes)
    → accept_token verify ws token ≡ (ws', none)
    → ws' ≡ ws
unfolding accept_token connect
accept_token-refused verify ws ws' [] e = cc
accept_token-refused verify ws ws' (c ∷ token) e = elim (Option-cases (verify (c ∷ token))) [
  | inl n ↦ ground (arith, e, n)
  | inr (u, y) ↦ absurd (ground (arith, e, y))
]

-- An old connection of a user that ends late takes a newer one out of the map: until it ends, a
-- message to the user goes to the newer connection; from then on messages to the user are dropped,
-- although that connection is open. Messages to the other users go where they went before.
pub reconnected :
    (verify : Bytes → Option Bytes) (ws ws' ws'' : WsServer)
    (target target' user other message : Bytes) (id id' : ℕ)
    → accept verify ws target ≡ (ws', some (user, id))
    → accept verify ws' target' ≡ (ws'', some (user, id'))
    → (send ws'' user message ≡ ((id', message) ∷ [], true))
      × (send (on_session_close ws'' (user, id)) other message
          ≡ (if same user other then ([], false) else send ws other message))
unfolding accept connect send on_session_close remove_session
reconnected verify ws ws' ws'' target target' user other message id id' e e' =
    let (first, _) = accept_token-server verify ws ws' (extract_token target) user id e in
    let (second, number) =
      accept_token-server verify ws' ws'' (extract_token target') user id' e' in
    let sessions : ws''.sessions ≡ insert user id' (insert user ws.connections ws.sessions) =
      ap (λ (w : WsServer). w.sessions) second
      ∙ ap (λ (w : WsServer). insert user w.connections w.sessions) first
      ∙ ap (λ i. insert user i (insert user ws.connections ws.sessions))
          (ap (λ (w : WsServer). w.connections) (sym first) ∙ sym number) in
    (
      rw (send, sessions, lookup-insert_self user id' (insert user ws.connections ws.sessions))
          refl,
      elim (Bool-cases (same user other)) [
        | inl y ↦
            rw
              (
                send,
                sessions,
                lookup-erase user other (insert user id' (insert user ws.connections ws.sessions)),
                y,
              )
              refl
        | inr n ↦
            rw
              (
                send,
                sessions,
                lookup-erase user other (insert user id' (insert user ws.connections ws.sessions)),
                n,
                lookup-insert user other id' (insert user ws.connections ws.sessions),
                lookup-insert user other ws.connections ws.sessions,
                n,
              )
              refl
      ],
    )

abbrev pub Delivers : Network → Type 0
Delivers n =
    (user : Bytes) (id : ℕ) → lookup user n.server.sessions ≡ some id → n.is_open user id ≡ true

pub Step-Delivers :
    (verify : Bytes → Option Bytes) (n n' : Network) → Step verify n n' → Delivers n → Delivers n'
unfolding accept connect on_session_close remove_session
Step-Delivers verify n _ (takes {server = server} {user = u} {id = i} target e) before user id
      found =
    let (connected, number) =
      accept_token-server verify n.server server (extract_token target) u i e in
    let found' : (if same u user then some i else lookup user n.server.sessions) ≡ some id =
      ap (λ j. if same u user then some j else lookup user n.server.sessions) number
      ∙ sym (lookup-insert u user n.server.connections n.server.sessions)
      ∙ ap (λ (w : WsServer). lookup user w.sessions) (sym connected)
      ∙ found in
    elim (Bool-cases (same u user)) [
      | inl y ↦ ground (arith, y, found')
      | inr m ↦ ground (arith, m, found', before user id)
    ]
Step-Delivers verify n _ (refuses {server = server} target e) before user id found =
    before user id (
      ap (λ (w : WsServer). lookup user w.sessions)
        (sym (accept_token-refused verify n.server server (extract_token target) e))
      ∙ found)
Step-Delivers verify n _ (ends u i) before user id found =
    let found' : (if same u user then none else lookup user n.server.sessions) ≡ some id =
      sym (lookup-erase u user n.server.sessions) ∙ found in
    elim (Bool-cases (same u user)) [
      | inl y ↦ absurd (ground (arith, y, found'))
      | inr m ↦ ground (arith, m, found', before user id)
    ]

-- After every history, the connection that the server has for a user is an open connection of
-- that user: a message is written to no other one.
pub Reach-Delivers : (verify : Bytes → Option Bytes) (n : Network) → Reach verify n → Delivers n
unfolding ws_server
Reach-Delivers verify _ start = λ user id found. absurd (cc)
Reach-Delivers verify n' (next {n = n} r s) =
    Step-Delivers verify n n' s (Reach-Delivers verify n r)
