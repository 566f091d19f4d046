-- ===== src/Client/History.antt =====
-- Histories of the client: what holds of its session and its connection after any of them.
use zaza.Common.{
  ◌≡◌, refl, inl, inr, arith, Bool, true, false, not, ◌||◌, Bytes, bytes, [], same, bytes_eq,
  if_both, Option-cases,
}
use zaza.Signaling.Json.{JsonLibrary}
use zaza.Client.Session.{no_call, Session, is_calling, is_in_call}
use zaza.Client.Commands.{HttpReply}
use zaza.Client.App.{
  App, returned, thrown, null_use, Ran, session_of, with_session, start_app, cleanup_call,
  on_signal, on_close, on_connected, on_disconnected, on_failed, init_rtc, handler_of, run_handler,
  proceed, rescue, after_error, after_config, on_typed, on_message, on_line,
}
use zaza.Client.Replies.{handle-Coherent}
use zaza.Client.Coherence.{Coherent, process_line-Coherent}

-- The connection is gone where the last call was cleaned up, and the handlers of WebRTC messages
-- stand on a connection.
pub record Clean (a : App) : Type 0 where
  pub closed : a.cleanup_done ≡ true → (a.connection ≡ false) × (a.handlers ≡ false)
  pub connected : a.handlers ≡ true → a.connection ≡ true
  pub coherent : Coherent (session_of a)

no_call-Coherent : (s : Session) → Coherent s → Coherent (record s { call = no_call })
no_call-Coherent s x = ground arith

cleanup_call-Clean : (a : App) → Clean a → Clean (cleanup_call a).app
unfolding cleanup_call
cleanup_call-Clean a x =
    if_both (λ (r : Ran). Clean r.app) a.cleanup_done x
      record {
        closed = λ _. (refl, refl);
        connected = λ e. e;
        coherent = no_call-Coherent (session_of a) x.coherent;
      }

session-Clean : (a : App) (s : Session) → Clean a → Coherent s → Clean (with_session a s)
session-Clean a s x c = record { closed = x.closed; connected = x.connected; coherent = c }

on_close-Clean : (a : App) → Clean a → Clean (on_close a).app
unfolding on_close
on_close-Clean a x =
    if_both (λ (r : Ran). Clean r.app) (is_in_call (session_of a)) (cleanup_call-Clean a x) x

on_signal-Clean : (a : App) → Clean a → Clean (on_signal a)
unfolding on_signal
on_signal-Clean a x =
    if_both Clean (is_in_call (session_of a))
      (session-Clean a _ x (no_call-Coherent (session_of a) x.coherent)) x

on_connected-Clean : (a : App) → Clean a → Clean (on_connected a).app
unfolding on_connected
on_connected-Clean a x = let c = x.coherent in session-Clean a _ x (ground arith)

on_disconnected-Clean : (a : App) → Clean a → Clean (on_disconnected a).app
unfolding on_disconnected
on_disconnected-Clean a x = session-Clean a _ x (no_call-Coherent (session_of a) x.coherent)

module _ (lib : JsonLibrary) (what : Bytes) where
  init_rtc-Clean : (a : App) (opens : Bool) → Clean a → Clean (init_rtc lib what a opens).app
  unfolding init_rtc
  init_rtc-Clean a opens x =
      if_both (λ (r : Ran). Clean r.app) (not opens)
        record { closed = λ e. absurd (cc); connected = λ e. absurd (cc); coherent = x.coherent }
        record { closed = λ e. absurd (cc); connected = λ e. refl; coherent = x.coherent }

  run_handler-Clean : (a : App) (raw : Bytes) → Clean a → Clean (run_handler lib what a raw).app
  unfolding run_handler
  run_handler-Clean a raw x =
      session-Clean a _ x (handle-Coherent lib (handler_of lib what a) raw x.coherent)

  proceed-Clean :
      (r : Ran) (next : App → Ran)
      → Clean r.app
      → ((a : App) → Clean a → Clean (next a).app)
      → Clean (proceed lib what r next).app
  unfolding proceed
  proceed-Clean r next x h =
      elim r.outcome as (λ o. Clean (proceed lib what (record r { outcome = o }) next).app) [
        | returned ↦ h r.app x
        | thrown ↦ x
        | null_use ↦ x
      ]

  rescue-Clean : (r : Ran) (raw : Bytes) → Clean r.app → Clean (rescue lib what r raw).app
  unfolding rescue
  rescue-Clean r raw x =
      elim r.outcome as (λ o. Clean (rescue lib what (record r { outcome = o }) raw).app) [
        | returned ↦ x
        | thrown ↦ run_handler-Clean r.app raw x
        | null_use ↦ x
      ]

  after_error-Clean : (a : App) → Clean a → Clean (after_error lib what a).app
  unfolding after_error
  after_error-Clean a x =
      if_both (λ (r : Ran). Clean r.app) (is_calling (session_of a).call.state)
        (cleanup_call-Clean a x) x

  after_config-Clean : (a : App) → Clean a → Clean (after_config lib what a).app
  unfolding after_config
  after_config-Clean a x =
      if_both (λ (r : Ran). Clean r.app) (is_calling (session_of a).call.state) x x

  on_typed-Clean :
      (a : App) (opens : Bool) (raw type : Bytes)
      → Clean a
      → Clean (on_typed lib what a opens raw type).app
  unfolding on_typed
  on_typed-Clean a opens raw type x =
      let P = λ (r : Ran). Clean r.app in
      let h = run_handler lib what a raw in
      let y = run_handler-Clean a raw x in
      if_both P (same type (bytes "error"))
        (rescue-Clean (proceed lib what h (after_error lib what)) raw
          (proceed-Clean h (after_error lib what) y after_error-Clean))
        (if_both P (same type (bytes "rtc.config"))
          (let init = λ (a : App). init_rtc lib what a opens in
            let z = proceed-Clean h init y (λ a x. init_rtc-Clean a opens x) in
            rescue-Clean (proceed lib what (proceed lib what h init) (after_config lib what)) raw (
              proceed-Clean (proceed lib what h init) (after_config lib what) z after_config-Clean))
          (if_both P (same type (bytes "call.ended") || same type (bytes "call.failed"))
            (rescue-Clean (proceed lib what h cleanup_call) raw
              (proceed-Clean h cleanup_call y cleanup_call-Clean))
            y))

  on_message-Clean :
      (a : App) (opens : Bool) (raw : Bytes) → Clean a → Clean (on_message lib what a opens raw).app
  unfolding on_message
  on_message-Clean a opens raw x = elim (Option-cases (lib.parse raw)) [
    | inl n ↦ rw (n, on_message) (run_handler-Clean a raw x)
    | inr (j, y) ↦ elim (Option-cases (lib.text_or j (bytes "type") [])) [
      | inl n ↦ rw (y, n, on_message) (run_handler-Clean a raw x)
      | inr (type, z) ↦ rw (y, z, on_message) (on_typed-Clean a opens raw type x)
    ]
  ]

  on_failed-Clean : (a : App) → Clean a → Clean (on_failed lib what a).app
  unfolding on_failed
  on_failed-Clean a x = cleanup_call-Clean a x

  on_line-Clean :
      (a : App) (line : Bytes) (reply : HttpReply)
      → Clean a
      → Clean (on_line lib what a line reply).app
  unfolding on_line
  on_line-Clean a line reply x = record {
    closed = x.closed;
    connected = x.connected;
    coherent = process_line-Coherent lib what a.commands line reply x.coherent;
  }

  -- What happens to the client: a line of input, a message of the server, the end of the WebSocket
  -- connection, a change of the WebRTC connection, a signal.
  pub data Step : App → App → Type 0 where
    types :
        {a : App} → (line : Bytes) (reply : HttpReply) → Step a (on_line lib what a line reply).app
    receives :
        {a : App} → (opens : Bool) (raw : Bytes) → Step a (on_message lib what a opens raw).app
    closes : {a : App} → Step a (on_close a).app
    connects : {a : App} → Step a (on_connected a).app
    fails : {a : App} → Step a (on_failed lib what a).app
    disconnects : {a : App} → Step a (on_disconnected a).app
    interrupts : {a : App} → Step a (on_signal a)

  pub data Reach : App → Type 0 where
    start : Reach start_app
    next : {a a' : App} → Reach a → Step a a' → Reach a'

  -- After every history of the client: a client in no call has no partner, and is neither muted
  -- nor the caller; one that waits for an answer is the caller and not muted; one that is called is
  -- not the caller; a recording goes to a .wav file; where the last call was cleaned up there is no
  -- connection; and the handlers of WebRTC messages stand on a connection.
  pub Reach-Clean : (a : App) → Reach a → Clean a
  unfolding start_app
  Reach-Clean _ start = record {
    closed = λ e. absurd (cc);
    connected = λ e. absurd (cc);
    coherent = record {
      at_rest = λ _. (refl, refl, refl);
      outgoing = λ e. absurd (cc);
      incoming = λ e. absurd (cc);
      recorded = λ e. absurd (cc);
    };
  }
  Reach-Clean _ (next {a = a} r (types line reply)) = on_line-Clean a line reply (Reach-Clean a r)
  Reach-Clean _ (next {a = a} r (receives opens raw)) =
      on_message-Clean a opens raw (Reach-Clean a r)
  Reach-Clean _ (next {a = a} r closes) = on_close-Clean a (Reach-Clean a r)
  Reach-Clean _ (next {a = a} r connects) = on_connected-Clean a (Reach-Clean a r)
  Reach-Clean _ (next {a = a} r fails) = on_failed-Clean a (Reach-Clean a r)
  Reach-Clean _ (next {a = a} r disconnects) = on_disconnected-Clean a (Reach-Clean a r)
  Reach-Clean _ (next {a = a} r interrupts) = on_signal-Clean a (Reach-Clean a r)
