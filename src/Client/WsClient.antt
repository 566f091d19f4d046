-- ===== src/Client/WsClient.antt =====
-- client_cli/src/signaling/ws_client.cpp. How an attempt to connect goes, and the times, in milliseconds, at which the
-- flag `stop_` is read as set, are arguments; only sleeping takes time. What is written is left out but for whether it
-- is.
use zaza.Common.{
  [], ℕ, zero, suc, ◌+◌, ◌*◌, Bool, true, false, not, ◌&&◌, Bytes, ltb, min, if◌then◌else◌,
}

-- An attempt fails before there is a stream, or at the WebSocket handshake on it, or succeeds.
pub data Dial : Type 0 where
  refused not_upgraded upgraded : Dial

abbrev pub is_up : Dial → Bool
is_up refused = false
is_up not_upgraded = false
is_up upgraded = true

-- `stream` tells whether `ws_` holds an object, `read_thread` whether that thread is still to be joined, and
-- `reconnecting` whether the other one is in its loop.
pub record WsClient : Type 0 where
  pub connected : Bool
  pub stop : Bool
  pub stream : Bool
  pub read_thread : Bool
  pub reconnecting : Bool
  pub last_token : Bytes

-- A call returns, leaves by an exception, or ends the program.
pub data Ended : Type 0 where
  returns raises : WsClient → Ended
  terminates : Ended

unfoldable pub ws_client : WsClient
ws_client = record {
  connected = false;
  stop = false;
  stream = false;
  read_thread = false;
  reconnecting = false;
  last_token = [];
}

-- A thread is assigned to `read_thread_`, which ends the program where that one is not joined.
unfoldable pub dial : WsClient → Dial → Ended
dial w refused = raises w
dial w not_upgraded = raises (record w { stream = true })
dial w upgraded =
    if w.read_thread
    then terminates
    else returns (record w { stream = true; connected = true; read_thread = true })

unfoldable pub connect_client : WsClient → Bytes → Dial → Ended
unfolding dial
connect_client w token outcome = dial (record w { last_token = token }) outcome

-- The callback of `setOnLogin` in main.cpp, which catches the exceptions.
unfoldable pub on_login : WsClient → Bytes → Dial → Ended
unfolding connect_client
on_login w jwt outcome = elim (connect_client w jwt outcome) [
  | returns w' ↦ returns w'
  | raises w' ↦ returns w'
  | terminates ↦ terminates
]

-- The end of `readLoop` at an error, and whether `on_close_` is called.
unfoldable pub on_read_error : WsClient → WsClient × Bool
on_read_error w =
    let down : WsClient = record w { connected = false } in
    if w.stop then (down, false) else (record down { reconnecting = true }, true)

-- Whether `send` writes to the stream.
unfoldable pub send_client : WsClient → Bool
send_client w = w.connected

unfoldable pub disconnect : WsClient → WsClient
disconnect w = record w {
  stop = true;
  connected = false;
  stream = false;
  read_thread = false;
  reconnecting = false;
}

-- One attempt of `reconnectLoop`, behind the sleep.
unfoldable pub attempt_client : WsClient → Dial → Ended
unfolding connect_client
attempt_client w outcome =
    connect_client (record w { read_thread = false; stream = false }) w.last_token outcome

-- How the loop of `reconnectLoop` ends, and when.
pub data Retried : Type 0 where
  reconnected : WsClient → ℕ → Retried
  stopped gave_up : ℕ → Retried
  crashed : Retried

unfoldable pub after_attempt : Ended → (WsClient → Retried) → ℕ → Retried
after_attempt (returns w) next later = reconnected w later
after_attempt (raises w) next later = next w
after_attempt terminates next later = crashed

module _ (stops : ℕ → Bool) (dials : ℕ → Dial) where
  -- The sleep in steps of 100 milliseconds; the fuel is the delay.
  unfoldable pub wait : ℕ → ℕ → ℕ → ℕ → ℕ
  wait zero now elapsed delay = elapsed
  wait (suc fuel) now elapsed delay =
      let rest = wait fuel now (elapsed + 100) delay in
      if ltb elapsed delay && not (stops (now + elapsed)) then rest else elapsed

  -- The attempts that are left, with the number of the next one.
  unfoldable pub retry : ℕ → ℕ → ℕ → ℕ → WsClient → Retried
  unfolding wait attempt_client after_attempt
  retry zero attempt delay now w = gave_up now
  retry (suc left) attempt delay now w =
      let later = now + wait delay now 0 delay in
      let next = retry left (attempt + 1) (min (delay * 2) 30000) later in
      if stops now
      then gave_up now
      else if stops later
      then stopped later
      else after_attempt (attempt_client w (dials attempt)) next later

  unfoldable pub reconnect_loop : ℕ → WsClient → Retried
  unfolding retry
  reconnect_loop now w = retry 10 1 500 now w
