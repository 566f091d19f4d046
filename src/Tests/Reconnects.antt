-- ===== src/Tests/Reconnects.antt =====
-- Runs of the WebSocket client, and its theorems at concrete inputs.
use zaza.Common.{ℕ, zero, suc, ◌+◌, ◌≡◌, ◌<◌, refl, arith, Bool, true, false, bytes}
use zaza.Client.WsClient.{
  Dial, refused, upgraded, is_up, WsClient, returns, terminates, ws_client, on_login, on_read_error,
  connect_client, dial, reconnected, reconnect_loop,
}
use zaza.Client.Reconnects.{slept, reconnect_loop-connects, on_login-again}

abbrev goes_on : ℕ → Bool
goes_on t = false

abbrev third : ℕ → Dial
third zero = refused
third (suc zero) = refused
third (suc (suc zero)) = refused
third (suc (suc (suc n))) = upgraded

abbrev online : WsClient
online = record {
  connected = true;
  stop = false;
  stream = true;
  read_thread = true;
  reconnecting = false;
  last_token = bytes "t";
}

two_fail : (i : ℕ) → i < 2 → is_up (third (1 + i)) ≡ false
two_fail zero h = refl
two_fail (suc zero) h = refl
two_fail (suc (suc i)) h = absurd (omega (arith, h))

slept_test : slept 3 500 ≡ 3500
unfolding slept
slept_test = refl

reconnect_loop-connects_example :
    (w : WsClient) × (reconnect_loop goes_on third 0 online ≡ reconnected w (0 + slept 3 500))
    × (w.connected ≡ true)
    × (w.last_token ≡ bytes "t")
reconnect_loop-connects_example =
    reconnect_loop-connects goes_on third (λ t. refl) 0 2 online (omega arith) two_fail refl

login_run_client : on_login ws_client (bytes "t") upgraded ≡ returns online
unfolding on_login connect_client dial ws_client
login_run_client = refl

on_login-again_example :
    (on_login online (bytes "u") upgraded ≡ terminates)
    × (on_login (on_read_error online).0 (bytes "u") upgraded ≡ terminates)
on_login-again_example = on_login-again ws_client online (bytes "t") (bytes "u") login_run_client
