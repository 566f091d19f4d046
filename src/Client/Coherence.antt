-- ===== src/Client/Coherence.antt =====
-- What holds of the client's session after every history of input, messages and callbacks.
use zaza.Common.{
  ◌≡◌, refl, inl, inr, arith, true, false, not, ◌||◌, Bytes, bytes, List, [], ◌∷◌, same, bytes_eq,
  ◌==◌, if_both, Bool-cases, Option-cases,
}
use zaza.Signaling.Json.{JsonLibrary}
use zaza.Client.Session.{idle, calling, ringing, Session, is_empty, is_in_call}
use zaza.Client.Parser.{Command, parse_line}
use zaza.Client.Commands.{
  Commands, CommandResult, HttpReply, replied, failed, is_wav, refuse, succeed, login_with,
  login_reply, login, call, accept, reject, hangup, mute, unmute, record_, register_reply,
  register_, stop, sendfile, status, quit_,
}
use zaza.Client.Repl.{run_command, process_line}

-- A client that is in no call has no partner, and is neither muted nor the caller; one that waits
-- for an answer is the caller and not muted; one that is called is not the caller; a recording
-- goes to a .wav file.
pub record Coherent (s : Session) : Type 0 where
  pub at_rest :
      s.call.state ≡ idle
      → (s.call.remote_user ≡ []) × (s.call.muted ≡ false) × (s.call.is_caller ≡ false)
  pub outgoing : s.call.state ≡ calling → (s.call.is_caller ≡ true) × (s.call.muted ≡ false)
  pub incoming : s.call.state ≡ ringing → s.call.is_caller ≡ false
  pub recorded : s.recording.active ≡ true → is_wav s.recording.filename ≡ true

module _ (lib : JsonLibrary) (what : Bytes) where
  call-Coherent :
      (c : Commands) (args : List Bytes)
      → Coherent c.session
      → Coherent (call lib what c args).commands.session
  unfolding call refuse succeed is_in_call
  call-Coherent c [] x = x
  call-Coherent c (user ∷ args) x = ground arith

  accept-Coherent :
      (c : Commands) → Coherent c.session → Coherent (accept lib what c).commands.session
  unfolding accept refuse succeed
  accept-Coherent c x = ground arith

  mute-Coherent : (c : Commands) → Coherent c.session → Coherent (mute lib what c).commands.session
  unfolding mute refuse succeed
  mute-Coherent c x = ground arith

  record-Coherent :
      (c : Commands) (args : List Bytes)
      → Coherent c.session
      → Coherent (record_ lib what c args).commands.session
  unfolding record_ refuse succeed
  record-Coherent c [] x = x
  record-Coherent c (filename ∷ args) x = ground arith

  reject-Coherent :
      (c : Commands) → Coherent c.session → Coherent (reject lib what c).commands.session
  unfolding reject refuse succeed
  reject-Coherent c x = ground arith

  hangup-Coherent :
      (c : Commands) → Coherent c.session → Coherent (hangup lib what c).commands.session
  unfolding hangup refuse succeed is_in_call
  hangup-Coherent c x = ground arith

  unmute-Coherent :
      (c : Commands) → Coherent c.session → Coherent (unmute lib what c).commands.session
  unfolding unmute refuse succeed
  unmute-Coherent c x = ground arith

  stop-Coherent : (c : Commands) → Coherent c.session → Coherent (stop lib what c).commands.session
  unfolding stop refuse succeed
  stop-Coherent c x = ground arith

  quit-Coherent : (c : Commands) → Coherent c.session → Coherent (quit_ lib what c).commands.session
  unfolding quit_ succeed is_in_call
  quit-Coherent c x = ground arith

  sendfile-same : (c : Commands) (args : List Bytes) → (sendfile lib what c args).commands ≡ c
  unfolding sendfile refuse succeed
  sendfile-same c [] = refl
  sendfile-same c (filename ∷ args) = ground arith

  register-same :
      (c : Commands) (args : List Bytes) (reply : HttpReply)
      → (register_ lib what c args reply).commands ≡ c
  unfolding register_ register_reply refuse succeed
  register-same c [] reply = refl
  register-same c (user ∷ []) reply = refl
  register-same c (user ∷ password ∷ args) (failed reason) = refl
  register-same c (user ∷ password ∷ args) (replied code body) = ground arith

  login_with-Coherent :
      (c : Commands) (user : Bytes) (j : lib.Json)
      → Coherent c.session
      → Coherent (login_with lib what c user j).commands.session
  unfolding login_with refuse succeed
  login_with-Coherent c user j x = elim (Option-cases (lib.text_or j (bytes "userId") user)) [
    | inl n ↦ rw (n, login_with) x
    | inr (user_id, y) ↦ elim (Option-cases (lib.text_or j (bytes "token") [])) [
      | inl n ↦ ground (arith, y, n)
      | inr (token, z) ↦ ground (arith, y, z)
    ]
  ]

  login-Coherent :
      (c : Commands) (args : List Bytes) (reply : HttpReply)
      → Coherent c.session
      → Coherent (login lib what c args reply).commands.session
  unfolding login login_reply refuse
  login-Coherent c [] reply x = x
  login-Coherent c (user ∷ []) reply x = x
  login-Coherent c (user ∷ password ∷ args) (failed reason) x = x
  login-Coherent c (user ∷ password ∷ args) (replied code body) x =
      elim (Bool-cases (not (code == 200))) [
        | inl bad ↦ rw bad x
        | inr good ↦ rw good (elim (Option-cases (lib.parse body)) [
          | inl n ↦ rw n x
          | inr (j, y) ↦ rw y (login_with-Coherent c user j x)
        ])
      ]

  run_command-Coherent :
      (c : Commands) (cmd : Command) (reply : HttpReply)
      → Coherent c.session
      → Coherent (run_command lib what c cmd reply).commands.session
  unfolding run_command refuse status succeed
  run_command-Coherent c cmd reply x =
      let P = λ (r : CommandResult). Coherent r.commands.session in
      if_both P (same cmd.name (bytes "call")) (call-Coherent c cmd.args x) (
        if_both P (same cmd.name (bytes "accept")) (accept-Coherent c x) (
          if_both P (same cmd.name (bytes "reject")) (reject-Coherent c x) (
            if_both P (same cmd.name (bytes "hangup")) (hangup-Coherent c x) (
              if_both P (same cmd.name (bytes "mute")) (mute-Coherent c x) (
                if_both P (same cmd.name (bytes "unmute")) (unmute-Coherent c x) (
                  if_both P (same cmd.name (bytes "record")) (record-Coherent c cmd.args x) (
                    if_both P (same cmd.name (bytes "register"))
                      (rw (register-same c cmd.args reply) x)
                      (if_both P (same cmd.name (bytes "stop")) (stop-Coherent c x) (
                        if_both P (same cmd.name (bytes "sendfile"))
                          (rw (sendfile-same c cmd.args) x)
                          (if_both P (same cmd.name (bytes "status")) x (
                            if_both P (same cmd.name (bytes "quit") || same cmd.name (bytes "exit"))
                              (quit-Coherent c x) x)))))))))))

  pub process_line-Coherent :
      (c : Commands) (line : Bytes) (reply : HttpReply)
      → Coherent c.session
      → Coherent (process_line lib what c line reply).result.commands.session
  unfolding process_line
  process_line-Coherent c line reply x =
      let cmd = parse_line line in
      elim (Bool-cases (is_empty cmd.name)) [
        | inl e ↦ rw (e, process_line) x
        | inr e ↦ elim (Bool-cases (same cmd.name (bytes "login"))) [
          | inl l ↦ rw (e, l, process_line) (login-Coherent c cmd.args reply x)
          | inr l ↦ rw (e, l, process_line) (run_command-Coherent c cmd reply x)
        ]
      ]
