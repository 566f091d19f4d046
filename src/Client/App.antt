-- ===== src/Client/App.antt =====
-- client_cli/src/main.cpp with client_cli/src/rtc: how the callbacks of `main` tie the session, the
-- handler of messages and the WebRTC connection together. The audio device and the WebRTC library
-- stand outside: what is asked of them is a list of actions, in order.
use zaza.Common.{
  Bool, true, false, not, ◌&&◌, ◌||◌, Bytes, bytes, List, [], ◌∷◌, ◌++◌, none, some, same, bytes_eq,
  if◌then◌else◌, map,
}
use zaza.Signaling.Json.{JsonLibrary}
use zaza.Client.Session.{
  in_call, no_call, TurnConfig, CallContext, Session, new_session, is_empty, is_calling, is_in_call,
}
use zaza.Client.Commands.{
  Effect, sends, captures, sends_file, prints, offers, answers, adds_candidate, Commands, HttpReply,
  message_with,
}
use zaza.Client.MessageHandler.{MessageHandler, handle}
use zaza.Client.Repl.{process_line}

-- `connection` and `handlers` tell whether `pc`, and `sdp_handler` with `ice_handler`, hold an
-- object; `callbacks` whether `initRtc` has set the callbacks of the handler of messages.
pub record App : Type 0 where
  pub commands : Commands
  pub connection : Bool
  pub handlers : Bool
  pub callbacks : Bool
  pub cleanup_done : Bool

pub data Action : Type 0 where
  does : Effect → Action
  stops_audio closes_connection starts_call starts_audio connects : Action
  opens_connection : TurnConfig → Action

-- How a callback ends: `null_use` is a call on a `unique_ptr` that holds no object.
pub data Outcome : Type 0 where
  returned thrown null_use : Outcome

pub record Ran : Type 0 where
  pub app : App
  pub actions : List Action
  pub outcome : Outcome

abbrev pub ran : App → List Action → Ran
ran a actions = record { app = a; actions = actions; outcome = returned }

abbrev pub session_of : App → Session
session_of a = a.commands.session

abbrev pub with_session : App → Session → App
with_session a s = record a { commands = record a.commands { session = s } }

abbrev pub with_call : App → CallContext → App
with_call a call = with_session a (record (session_of a) { call = call })

-- The state of `main` before `repl.run()`.
unfoldable pub start_app : App
start_app = record {
  commands = record {
    session = new_session;
    quit = false;
    ws_send = true;
    capture_cb = true;
    sendfile_cb = true;
  };
  connection = false;
  handlers = false;
  callbacks = false;
  cleanup_done = false;
}

unfoldable pub cleanup_call : App → Ran
cleanup_call a =
    if a.cleanup_done
    then ran a []
    else ran
        (with_call (record a { connection = false; handlers = false; cleanup_done = true }) no_call)
        (stops_audio ∷ (if a.connection then closes_connection ∷ [] else []))

-- `signal_handler`, but for the request to quit, which the loop of `run` reads.
unfoldable pub on_signal : App → App
unfolding is_in_call
on_signal a = if is_in_call (session_of a) then with_call a no_call else a

-- `ws_client.onClose`
unfoldable pub on_close : App → Ran
unfolding cleanup_call is_in_call
on_close a =
    let shown = does (prints (bytes "[ws] disconnected")) in
    if is_in_call (session_of a)
    then (let r = cleanup_call a in
        record r {
          actions =
              shown ∷ r.actions
              ++ (does (prints (bytes "[call] ended, reason: server disconnected")) ∷ []);
        })
    else ran a (shown ∷ [])

-- The changes of the connection's state in `PeerConnection::handleStateChange`.
unfoldable pub on_connected : App → Ran
on_connected a =
    ran (with_call a (record (session_of a).call { state = in_call }))
      (does (prints (bytes "[rtc] connected")) ∷ [])

unfoldable pub on_disconnected : App → Ran
on_disconnected a = ran (with_call a no_call) (does (prints (bytes "[rtc] disconnected")) ∷ [])

-- The effects that go through `sdp_handler` or `ice_handler`.
abbrev pub needs_handlers : Effect → Bool
needs_handlers (sends text) = false
needs_handlers (captures start filename) = false
needs_handlers (sends_file filename) = false
needs_handlers (prints text) = false
needs_handlers (offers sdp) = true
needs_handlers (answers sdp) = true
needs_handlers (adds_candidate candidate mid mlineindex) = true

-- How far the effects get, and whether they get to the end.
unfoldable pub perform : Bool → List Effect → List Action × Bool
perform handlers [] = ([], true)
perform handlers (e ∷ effects) =
    let (rest, finished) = perform handlers effects in
    if needs_handlers e && not handlers then ([], false) else (does e ∷ rest, finished)

module _ (lib : JsonLibrary) (what : Bytes) where
  -- `pc->onFailed`, behind the text that `handleStateChange` prints.
  unfoldable pub on_failed : App → Ran
  unfolding cleanup_call message_with
  on_failed a =
      let shown = does (
        prints
          (bytes "[rtc] failed " ++ (0xE2 ∷ 0x80 ∷ 0x94 ∷ bytes " use 'hangup' and call again"))) in
      let call_id = (session_of a).call.call_id in
      let hangs_up =
        if is_empty call_id
        then []
        else does (message_with lib what (bytes "call.hangup") (bytes "callId") call_id) ∷ [] in
      let r = cleanup_call a in record r { actions = shown ∷ hangs_up ++ r.actions }

  -- `initRtc`. The flag tells whether the WebRTC library takes the configuration, or throws.
  unfoldable pub init_rtc : App → Bool → Ran
  init_rtc a opens =
      let closed = if a.connection then closes_connection ∷ [] else [] in
      let fresh : App = record a { cleanup_done = false; connection = true; handlers = false } in
      if not opens
      then record { app = fresh; actions = closed; outcome = thrown }
      else ran (record fresh { handlers = true; callbacks = true })
          (closed ++ (opens_connection (session_of a).turn_config ∷ starts_audio ∷ []))

  abbrev pub handler_of : App → MessageHandler
  handler_of a = record {
    session = session_of a;
    on_offer = a.callbacks;
    on_answer = a.callbacks;
    on_ice = a.callbacks;
  }

  -- `handler.handle(msg)`
  unfoldable pub run_handler : App → Bytes → Ran
  unfolding handle perform
  run_handler a raw =
      let h = handle lib (handler_of a) raw in
      let a' = with_session a h.handler.session in
      let (actions, finished) = perform a.handlers h.effects in
      record {
        app = a';
        actions = actions;
        outcome = if not finished then null_use else if h.thrown then thrown else returned;
      }

  -- The next statement, where the one before came to its end.
  unfoldable pub proceed : Ran → (App → Ran) → Ran
  proceed r next = elim r.outcome [
    | returned ↦ (let r' = next r.app in record r' { actions = r.actions ++ r'.actions })
    | thrown ↦ r
    | null_use ↦ r
  ]

  -- The `catch (...)` of `onMessage`, behind which the message is handled once more.
  unfoldable pub rescue : Ran → Bytes → Ran
  unfolding run_handler
  rescue r raw = elim r.outcome [
    | returned ↦ r
    | thrown ↦ (let r' = run_handler r.app raw in record r' { actions = r.actions ++ r'.actions })
    | null_use ↦ r
  ]

  unfoldable pub after_error : App → Ran
  unfolding cleanup_call
  after_error a = if is_calling (session_of a).call.state then cleanup_call a else ran a []

  -- `sdp_handler->startCall()`
  unfoldable pub after_config : App → Ran
  after_config a =
      if is_calling (session_of a).call.state then ran a (starts_call ∷ []) else ran a []

  -- The messages that `onMessage` treats by their type.
  unfoldable pub on_typed : App → Bool → Bytes → Bytes → Ran
  unfolding run_handler proceed rescue after_error init_rtc after_config cleanup_call
  on_typed a opens raw type =
      if same type (bytes "error")
      then rescue (proceed (run_handler a raw) after_error) raw
      else if same type (bytes "rtc.config")
      then rescue (proceed (proceed (run_handler a raw) (λ a. init_rtc a opens)) after_config) raw
      else if same type (bytes "call.ended") || same type (bytes "call.failed")
      then rescue (proceed (run_handler a raw) cleanup_call) raw
      else run_handler a raw

  -- `ws_client.onMessage`
  unfoldable pub on_message : App → Bool → Bytes → Ran
  unfolding on_typed run_handler
  on_message a opens raw = elim (lib.parse raw) [
    | none ↦ run_handler a raw
    | some j ↦ elim (lib.text_or j (bytes "type") []) [
      | none ↦ run_handler a raw
      | some type ↦ on_typed a opens raw type
    ]
  ]

  -- A line of input, with the callbacks of `main`: a login connects the WebSocket client.
  unfoldable pub on_line : App → Bytes → HttpReply → Ran
  unfolding process_line
  on_line a line reply =
      let r = process_line lib what a.commands line reply in
      ran (record a { commands = r.result.commands })
        (map does r.result.effects ++ (if r.logs_in then connects ∷ [] else []))
