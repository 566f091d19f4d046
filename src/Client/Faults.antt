-- ===== src/Client/Faults.antt =====
-- What the messages of the server do to a client in the states that main.cpp leaves it in.
use zaza.Common.{
  ◌≡◌, refl, inl, inr, sym, subst, ap, ◌∙◌, if_both, Bool-cases, Bool, true, false, Bytes, bytes,
  List, [], ◌∷◌, ◌++◌, some, bytes_eq, if◌then◌else◌,
}
use zaza.Common.Integers.{ℤ}
use zaza.Signaling.Json.{JsonLibrary}
use zaza.Client.Session.{calling, no_call, is_calling}
use zaza.Client.Commands.{prints}
use zaza.Client.MessageHandler.{
  MessageHandler, handled, says, handle_call_over, ice_arguments, handle_webrtc_ice, handle_error,
  handle_typed, handle,
}
use zaza.Client.App.{
  App, Action, stops_audio, closes_connection, returned, thrown, null_use, Ran, ran, does,
  session_of, with_call, cleanup_call, perform, handler_of, run_handler, proceed, rescue,
  after_error, on_typed, on_message,
}
use zaza.Client.History.{Reach, Clean, Reach-Clean}

module _ (lib : JsonLibrary) (what : Bytes) where
  pub handle_lem :
      (h : MessageHandler) (raw type : Bytes) (j : lib.Json)
      → lib.parse raw ≡ some j
      → lib.string_at j (bytes "type") ≡ some type
      → handle lib h raw ≡ handle_typed lib h j type
  unfolding handle
  handle_lem h raw type j p q = rw (p, q, handle) refl

  on_message_lem :
      (a : App) (opens : Bool) (raw type : Bytes) (j : lib.Json)
      → lib.parse raw ≡ some j
      → lib.text_or j (bytes "type") [] ≡ some type
      → on_message lib what a opens raw ≡ on_typed lib what a opens raw type
  unfolding on_message
  on_message_lem a opens raw type j p q = rw (p, q, on_message) refl

  -- The handler prints the text of an error and leaves the client as it is.
  run_handler-error :
      (a : App) (raw reason text : Bytes) (j : lib.Json)
      → lib.parse raw ≡ some j
      → lib.string_at j (bytes "type") ≡ some (bytes "error")
      → lib.text_or j (bytes "error") (bytes "unknown error") ≡ some reason
      → lib.text_or j (bytes "message") reason ≡ some text
      → run_handler lib what a raw ≡ ran a (does (prints (bytes "[server error] " ++ text)) ∷ [])
  unfolding run_handler handle_typed handle_error says handled perform
  run_handler-error a raw reason text j p q r s =
      rw
        (
          run_handler,
          handle_lem (handler_of lib what a) raw (bytes "error") j p q,
          handle_typed,
          handle_error,
          r,
          s,
        )
        refl

  -- What was done before goes before what a callback does.
  abbrev pub behind : List Action → Ran → Ran
  behind before r = record r { actions = before ++ r.actions }

  rescue-returned : (r : Ran) (raw : Bytes) → r.outcome ≡ returned → rescue lib what r raw ≡ r
  unfolding rescue
  rescue-returned r raw =
      elim r.outcome
        as (λ o.
          o ≡ returned
          → rescue lib what (record r { outcome = o }) raw ≡ record r { outcome = o }) [
            | returned ↦ λ e. refl
            | thrown ↦ λ e. absurd (cc)
            | null_use ↦ λ e. refl
          ]

  -- A handled message, and a statement behind it that returns.
  proceed-returned :
      (a a' : App) (before : List Action) (raw : Bytes) (next : App → Ran)
      → run_handler lib what a raw ≡ ran a' before
      → (next a').outcome ≡ returned
      → rescue lib what (proceed lib what (run_handler lib what a raw) next) raw
        ≡ behind before (next a')
  unfolding proceed
  proceed-returned a a' before raw next e r =
      subst (λ h. rescue lib what (proceed lib what h next) raw ≡ behind before (next a')) (sym e)
        (rescue-returned (behind before (next a')) raw r)

  cleanup_call-returned : (a : App) → (cleanup_call a).outcome ≡ returned
  unfolding cleanup_call
  cleanup_call-returned a = if_both (λ (r : Ran). r.outcome ≡ returned) a.cleanup_done refl refl

  after_error-calling :
      (a : App) → (session_of a).call.state ≡ calling → after_error lib what a ≡ cleanup_call a
  unfolding after_error
  after_error-calling a c = elim (Bool-cases (is_calling (session_of a).call.state)) [
    | inl e ↦ rw (after_error, e) refl
    | inr e ↦ absurd (cc)
  ]

  -- Out of the call, without audio and without a connection.
  abbrev pub cleaned_up : App → List Action → Ran
  cleaned_up a before =
      ran
        (with_call (record a { connection = false; handlers = false; cleanup_done = true }) no_call)
        (before ++ (stops_audio ∷ (if a.connection then closes_connection ∷ [] else [])))

  cleanup_call-behind :
      (a : App) (before : List Action)
      → behind before (cleanup_call a)
        ≡ (if a.cleanup_done then ran a (before ++ []) else cleaned_up a before)
  unfolding cleanup_call
  cleanup_call-behind a before =
      elim a.cleanup_done
        as (λ b.
          let a' : App = record a { cleanup_done = b } in
          behind before (cleanup_call a')
          ≡ (if b then ran a' (before ++ []) else cleaned_up a' before)) [
            | true ↦ refl
            | false ↦ refl
          ]

  -- A message `error` that refuses the call of a client that is calling: the client prints it, and
  -- is in no call afterwards, its audio stopped and its connection, if it has one, closed, unless an
  -- earlier call was cleaned up and no `rtc.config` has come since; then it stays in the refused call,
  -- and nothing else is done.
  pub refused_call :
      (a : App) (opens : Bool) (raw reason text : Bytes) (j : lib.Json)
      → lib.parse raw ≡ some j
      → lib.string_at j (bytes "type") ≡ some (bytes "error")
      → lib.text_or j (bytes "type") [] ≡ some (bytes "error")
      → lib.text_or j (bytes "error") (bytes "unknown error") ≡ some reason
      → lib.text_or j (bytes "message") reason ≡ some text
      → (session_of a).call.state ≡ calling
      → on_message lib what a opens raw ≡ (
          let shown = does (prints (bytes "[server error] " ++ text)) in
          if a.cleanup_done then ran a (shown ∷ []) else cleaned_up a (shown ∷ []))
  unfolding on_typed
  refused_call a opens raw reason text j p q t r s c =
      let shown = does (prints (bytes "[server error] " ++ text)) in
      let cleaned = after_error-calling a c in
      on_message_lem a opens raw (bytes "error") j p t
      ∙ proceed-returned a a (shown ∷ []) raw (after_error lib what)
          (run_handler-error a raw reason text j p q r s)
          (subst (λ (n : Ran). n.outcome ≡ returned) (sym cleaned) (cleanup_call-returned a))
      ∙ ap (behind (shown ∷ [])) cleaned
      ∙ cleanup_call-behind a (shown ∷ [])

  run_handler-ended :
      (a : App) (raw reason : Bytes) (j : lib.Json)
      → lib.parse raw ≡ some j
      → lib.string_at j (bytes "type") ≡ some (bytes "call.ended")
      → lib.text_or j (bytes "reason") (bytes "unknown") ≡ some reason
      → run_handler lib what a raw
        ≡ ran (with_call a no_call) (does (prints (bytes "[call] ended, reason: " ++ reason)) ∷ [])
  unfolding run_handler handle_typed handle_call_over says handled perform
  run_handler-ended a raw reason j p q r =
      rw
        (
          run_handler,
          handle_lem (handler_of lib what a) raw (bytes "call.ended") j p q,
          handle_typed,
          handle_call_over,
          r,
        )
        refl

  -- A client whose call is over is in no call, and after the cleanup without a connection.
  cleanup_call-over :
      (a : App)
      → Clean a
      → let a' = (cleanup_call (with_call a no_call)).app in
        ((session_of a').call ≡ no_call)
        × (a'.connection ≡ false)
        × (a'.handlers ≡ false)
        × (a'.callbacks ≡ a.callbacks)
  unfolding cleanup_call
  cleanup_call-over a x = elim (Bool-cases a.cleanup_done) [
    | inl e ↦ rw (cleanup_call, e) (refl, (x.closed e).0, (x.closed e).1, refl)
    | inr e ↦ rw (cleanup_call, e) (refl, refl, refl, refl)
  ]

  ice-null_use :
      (a : App) (opens : Bool) (ice candidate mid : Bytes) (index : ℤ) (k : lib.Json)
      → a.handlers ≡ false
      → a.callbacks ≡ true
      → lib.parse ice ≡ some k
      → lib.string_at k (bytes "type") ≡ some (bytes "webrtc.ice")
      → lib.text_or k (bytes "type") [] ≡ some (bytes "webrtc.ice")
      → lib.contains k (bytes "candidate") ≡ true
      → ice_arguments lib k ≡ some (candidate, mid, index)
      → on_message lib what a opens ice ≡ record { app = a; actions = []; outcome = null_use }
  unfolding on_typed run_handler handle_typed handle_webrtc_ice handled perform
  ice-null_use a opens ice candidate mid index k gone set p q t c r =
      on_message_lem a opens ice (bytes "webrtc.ice") k p t
      ∙ rw
          (
            run_handler,
            handle_lem (handler_of lib what a) ice (bytes "webrtc.ice") k p q,
            handle_typed,
            handle_webrtc_ice,
            c,
            set,
            r,
            perform,
            gone,
          )
          refl

  -- A message `call.ended` ends the call of a client: whatever it did before, it is in no call
  -- then, and has no connection and no handlers of WebRTC messages. A `webrtc.ice` that is
  -- delivered after it, with arguments of the right types, is still passed on to the handler that
  -- is gone.
  pub late_candidate :
      (a : App) (opens later : Bool) (raw reason ice candidate mid : Bytes) (index : ℤ)
      (j k : lib.Json)
      → Reach lib what a
      → a.callbacks ≡ true
      → lib.parse raw ≡ some j
      → lib.string_at j (bytes "type") ≡ some (bytes "call.ended")
      → lib.text_or j (bytes "type") [] ≡ some (bytes "call.ended")
      → lib.text_or j (bytes "reason") (bytes "unknown") ≡ some reason
      → lib.parse ice ≡ some k
      → lib.string_at k (bytes "type") ≡ some (bytes "webrtc.ice")
      → lib.text_or k (bytes "type") [] ≡ some (bytes "webrtc.ice")
      → lib.contains k (bytes "candidate") ≡ true
      → ice_arguments lib k ≡ some (candidate, mid, index)
      → let a' = (on_message lib what a opens raw).app in
        ((session_of a').call ≡ no_call)
        × (a'.connection ≡ false)
        × (a'.handlers ≡ false)
        × (on_message lib what a' later ice ≡ record { app = a'; actions = []; outcome = null_use })
  unfolding on_typed
  late_candidate a opens later raw reason ice candidate mid index j k reach set p q t r p' q' t' c
        args =
      let x = Reach-Clean lib what a reach in
      let over = with_call a no_call in
      let shown = does (prints (bytes "[call] ended, reason: " ++ reason)) ∷ [] in
      let now_over =
        on_message_lem a opens raw (bytes "call.ended") j p t
        ∙ proceed-returned a over shown raw cleanup_call (run_handler-ended a raw reason j p q r)
            (cleanup_call-returned over) in
      let (call, connection, handlers, callbacks) = cleanup_call-over a x in
      subst
        (λ (n : Ran).
          ((session_of n.app).call ≡ no_call)
          × (n.app.connection ≡ false)
          × (n.app.handlers ≡ false)
          × (on_message lib what n.app later ice
              ≡ record { app = n.app; actions = []; outcome = null_use }))
        (sym now_over)
        (
          call,
          connection,
          handlers,
          ice-null_use (cleanup_call over).app later ice candidate mid index k handlers
              (callbacks ∙ set) p' q' t' c args,
        )
