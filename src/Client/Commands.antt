-- ===== src/Client/Commands.antt =====
-- client_cli/src/cli/commands.cpp. What a command does beyond the session is a list of effects, in
-- order; the HTTP request of `login` and `register_` is an argument, the reply that it got.
use zaza.Common.{
  ℕ, ◌-◌, Bool, true, false, not, ◌&&◌, Bytes, bytes, List, [], ◌∷◌, ◌++◌, none, some, ltb, ◌==◌,
  same, bytes_eq, if◌then◌else◌, length, drop,
}
use zaza.Common.Integers.{ℤ}
use zaza.Signaling.Json.{JsonLibrary}
use zaza.Client.Session.{
  calling, in_call, to_string, CallContext, no_call, no_recording, Session, is_empty, is_ringing,
  is_talking, is_logged_in, is_in_call,
}

-- The calls of `ws_send_`, `capture_cb_` and `sendfile_cb_`, of `repl_.print`, and of the callbacks
-- for the WebRTC messages.
pub data Effect : Type 0 where
  sends : Bytes → Effect
  captures : Bool → Bytes → Effect
  sends_file : Bytes → Effect
  prints : Bytes → Effect
  offers : Bytes → Effect
  answers : Bytes → Effect
  adds_candidate : Bytes → Bytes → ℤ → Effect

-- The flags tell whether the callbacks are set.
pub record Commands : Type 0 where
  pub session : Session
  pub quit : Bool
  pub ws_send : Bool
  pub capture_cb : Bool
  pub sendfile_cb : Bool

-- `CommandResult`, with the new state and the effects.
pub record CommandResult : Type 0 where
  pub commands : Commands
  pub effects : List Effect
  pub ok : Bool
  pub message : Bytes

unfoldable pub refuse : Commands → Bytes → CommandResult
refuse c message = record { commands = c; effects = []; ok = false; message = message }

unfoldable pub succeed : Commands → List Effect → Bytes → CommandResult
succeed c effects message = record { commands = c; effects = effects; ok = true; message = message }

abbrev pub with_session : Commands → Session → Commands
with_session c s = record c { session = s }

abbrev pub with_call : Commands → CallContext → Commands
with_call c call = record c { session = record c.session { call = call } }

-- What the request of a command came to: a status and a body, or an exception.
pub data HttpReply : Type 0 where
  replied : ℕ → Bytes → HttpReply
  failed : Bytes → HttpReply

unfoldable pub is_wav : Bytes → Bool
is_wav filename =
    not (ltb (length filename) 4) && same (drop (length filename - 4) filename) (bytes ".wav")

abbrev when {ℓ} : {A : Type ℓ} → Bool → A → List A
when b a = if b then a ∷ [] else []

-- `what` is the text of an exception of the JSON library.
module _ (lib : JsonLibrary) (what : Bytes) where
  -- A message of a type with one more field.
  unfoldable pub message_with : Bytes → Bytes → Bytes → Effect
  message_with type key value =
      sends (lib.dump (lib.object ((bytes "type", type) ∷ (key, value) ∷ [])))

  unfoldable pub sends_with : Commands → Bytes → Bytes → Bytes → List Effect
  unfolding message_with
  sends_with c type key value = when c.ws_send (message_with type key value)

  -- `login` from the reply on. The user id is set before the token is read.
  unfoldable pub login_with : Commands → Bytes → lib.Json → CommandResult
  unfolding refuse succeed
  login_with c user j = elim (lib.text_or j (bytes "userId") user) [
    | none ↦ refuse c (bytes "login error: " ++ what)
    | some user_id ↦ elim (lib.text_or j (bytes "token") []) [
      | none ↦
          refuse (with_session c (record c.session { user_id = user_id }))
            (bytes "login error: " ++ what)
      | some token ↦
          let c' = with_session c (record c.session { user_id = user_id; jwt = token }) in
          if is_empty token
          then refuse c' (bytes "login failed: no token in response")
          else succeed c' [] (bytes "logged in as " ++ user_id)
    ]
  ]

  unfoldable pub login_reply : Commands → Bytes → HttpReply → CommandResult
  unfolding login_with refuse
  login_reply c user (failed reason) = refuse c (bytes "login error: " ++ reason)
  login_reply c user (replied status body) =
      if not (status == 200)
      then refuse c (bytes "login failed: " ++ body)
      else elim (lib.parse body) [
        | none ↦ refuse c (bytes "login error: " ++ what)
        | some j ↦ login_with c user j
      ]

  unfoldable pub login : Commands → List Bytes → HttpReply → CommandResult
  unfolding login_reply refuse
  login c (user ∷ password ∷ args) reply = login_reply c user reply
  login c (user ∷ []) reply = refuse c (bytes "usage: login <userId> <password>")
  login c [] reply = refuse c (bytes "usage: login <userId> <password>")

  unfoldable pub call : Commands → List Bytes → CommandResult
  unfolding refuse succeed sends_with is_logged_in is_in_call
  call c [] = refuse c (bytes "usage: call <userId>")
  call c (user ∷ args) =
      if not (is_logged_in c.session)
      then refuse c (bytes "not logged in")
      else if same user c.session.user_id
      then refuse c (bytes "cannot call yourself")
      else if is_in_call c.session
      then refuse c (bytes "already in call")
      else succeed
          (with_call c
            (record c.session.call { remote_user = user; state = calling; is_caller = true }))
          (sends_with c (bytes "call.create") (bytes "to") user) (bytes "calling " ++ user)

  unfoldable pub accept : Commands → CommandResult
  unfolding refuse succeed sends_with
  accept c =
      if not (is_ringing c.session.call.state)
      then refuse c (bytes "no incoming call")
      else succeed (with_call c (record c.session.call { state = in_call }))
          (sends_with c (bytes "call.accept") (bytes "callId") c.session.call.call_id)
          (bytes "call accepted")

  unfoldable pub reject : Commands → CommandResult
  unfolding refuse succeed sends_with
  reject c =
      if not (is_ringing c.session.call.state)
      then refuse c (bytes "no incoming call")
      else succeed (with_call c no_call)
          (sends_with c (bytes "call.reject") (bytes "callId") c.session.call.call_id)
          (bytes "call rejected")

  unfoldable pub hangup : Commands → CommandResult
  unfolding refuse succeed sends_with is_in_call
  hangup c =
      if not (is_in_call c.session)
      then refuse c (bytes "not in call")
      else succeed (with_call c no_call)
          (sends_with c (bytes "call.hangup") (bytes "callId") c.session.call.call_id)
          (bytes "call ended")

  unfoldable pub mute : Commands → CommandResult
  unfolding refuse succeed
  mute c =
      if not (is_talking c.session.call.state)
      then refuse c (bytes "not in call")
      else if c.session.call.muted
      then refuse c (bytes "already muted")
      else succeed (with_call c (record c.session.call { muted = true })) [] (bytes "muted")

  unfoldable pub unmute : Commands → CommandResult
  unfolding refuse succeed
  unmute c =
      if not (is_talking c.session.call.state)
      then refuse c (bytes "not in call")
      else if not c.session.call.muted
      then refuse c (bytes "not muted")
      else succeed (with_call c (record c.session.call { muted = false })) [] (bytes "unmuted")

  unfoldable pub status : Commands → CommandResult
  unfolding succeed to_string is_in_call
  status c =
      let s = c.session in
      let user = if is_empty s.user_id then bytes "(not logged in)" else s.user_id in
      let head = bytes "user:  " ++ (user ++ (bytes "\nstate: " ++ to_string s.call.state)) in
      let details =
        bytes "\ncall:  "
        ++ (s.call.call_id
            ++ (bytes "\npeer:  "
                ++ (s.call.remote_user
                    ++ (bytes "\nmuted: "
                        ++ (if s.call.muted then bytes "yes" else bytes "no"))))) in
      succeed c [] (if is_in_call s then head ++ details else head)

  unfoldable pub record_ : Commands → List Bytes → CommandResult
  unfolding refuse succeed is_wav
  record_ c [] = refuse c (bytes "usage: record <filename.wav>")
  record_ c (filename ∷ args) =
      if c.session.recording.active
      then refuse c (bytes "already recording, use stop first")
      else if not (is_wav filename)
      then refuse c (bytes "only .wav format supported")
      else succeed
          (with_session c
            (record c.session { recording = record { active = true; filename = filename } }))
          (when c.capture_cb (captures true [])) (bytes "recording to " ++ filename)

  unfoldable pub stop : Commands → CommandResult
  unfolding refuse succeed
  stop c =
      if not c.session.recording.active
      then refuse c (bytes "not recording")
      else succeed (with_session c (record c.session { recording = no_recording }))
          (when c.capture_cb (captures false c.session.recording.filename))
          (bytes "saved to " ++ c.session.recording.filename)

  unfoldable pub sendfile : Commands → List Bytes → CommandResult
  unfolding refuse succeed is_wav is_in_call
  sendfile c [] = refuse c (bytes "usage: sendfile <filename.wav>")
  sendfile c (filename ∷ args) =
      if not (is_in_call c.session)
      then refuse c (bytes "not in call")
      else if not (is_wav filename)
      then refuse c (bytes "only .wav format supported")
      else succeed c (when c.sendfile_cb (sends_file filename)) (bytes "sending " ++ filename)

  unfoldable pub quit_ : Commands → CommandResult
  unfolding succeed sends_with is_in_call
  quit_ c =
      if is_in_call c.session
      then succeed (record (with_call c no_call) { quit = true })
          (sends_with c (bytes "call.hangup") (bytes "callId") c.session.call.call_id) (bytes "bye")
      else succeed (record c { quit = true }) [] (bytes "bye")

  unfoldable pub register_reply : Commands → Bytes → HttpReply → CommandResult
  unfolding refuse succeed
  register_reply c user (failed reason) = refuse c (bytes "register error: " ++ reason)
  register_reply c user (replied status body) =
      if not (status == 200) && not (status == 201)
      then refuse c (bytes "register failed: " ++ body)
      else succeed c [] (bytes "registered as " ++ user)

  unfoldable pub register_ : Commands → List Bytes → HttpReply → CommandResult
  unfolding register_reply refuse
  register_ c (user ∷ password ∷ args) reply = register_reply c user reply
  register_ c (user ∷ []) reply = refuse c (bytes "usage: register <userId> <password>")
  register_ c [] reply = refuse c (bytes "usage: register <userId> <password>")
