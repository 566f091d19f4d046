-- ===== src/Tests/Timers.antt =====
-- A history of the backend: a user connects and calls another one, who does not answer.
use zaza.Common.{
  ℕ, ◌+◌, ◌≡◌, ◌≤◌, refl, subst, arith, false, Bytes, bytes, [], ◌∷◌, ◌++◌, some, All, bytes_eq,
}
use zaza.Common.Search.{find_part, starts_with, up_to}
use zaza.Calls.Uuid.{generate_uuid}
use zaza.Calls.Manager.{
  find, ringing, CallSession, call_manager, create, is_busy, busy_in, new_session,
}
use zaza.Signaling.Router.{handle, handle_typed, on_call_create, routed, check_expired}
use zaza.Signaling.WsServer.{WsServer, ws_server, accept, accept_token, connect, extract_token}
use zaza.Signaling.Connections.{opened, takes}
use zaza.Accounts.AuthService.{verify_token}
use zaza.Accounts.Jwt.{verify}
use zaza.Backend.Server.{
  Backend, start_backend, routed_by, verified, rtc_config_gen, on_message, on_expire_timer,
}
use zaza.Backend.History.{Moment, Reach, start, next, connects, receives}
use zaza.Backend.Delivery.{Addressed, Reach-Addressed}
use zaza.Backend.Timeouts.{Reach-RingsSince, Freed, Told, on_expire_timer_ends}
use zaza.Tests.FlatJson.{flat, read_texts, read_pairs, write_fields}
use zaza.Tests.Backend.{ssl, table, tokens, empty, cfg}

abbrev ann : Bytes
ann = bytes "ann"

abbrev target : Bytes
target = bytes "/ws?token=" ++ (65 ∷ ann)

abbrev connected : WsServer
connected = record { sessions = (ann, 0) ∷ []; connections = 1 }

accept_timer_run :
    accept (verified ssl table tokens empty 5) ws_server target ≡ (connected, some (ann, 0))
unfolding accept accept_token connect extract_token find_part starts_with up_to ws_server verified
    verify_token verify
accept_timer_run = refl

abbrev message : Bytes
message = flat.dump ((bytes "type", bytes "call.create") ∷ (bytes "to", bytes "bob") ∷ [])

abbrev id : Bytes
id = bytes "00000000-0000-4001-8000-000000000002"

abbrev session : CallSession
session = record {
  call_id = id;
  caller_id = ann;
  callee_id = bytes "bob";
  state = ringing;
  created_at = 7;
}

abbrev wall : Bytes → ℕ
wall user = 5

abbrev before : Moment
before = record {
  backend = record {
    call_manager = record { ring_timeout = 30; sessions = [] };
    ws_server = connected;
  };
  is_open =
      (opened (record { server = ws_server; is_open = λ u i. false }) ann 0 connected).is_open;
  clock = 3;
  checked = 3;
}

abbrev calling : Moment
calling = record before {
  backend = record {
    call_manager = record { ring_timeout = 30; sessions = (id, session) ∷ [] };
    ws_server = connected;
  };
  clock = 7;
}

message_run :
    (on_message flat ssl cfg before.backend wall 1 2 7 ann message).backend ≡ calling.backend
unfolding on_message handle handle_typed on_call_create create is_busy busy_in new_session
    generate_uuid routed routed_by read_pairs read_texts write_fields
message_run = refl

thrown_run : (on_message flat ssl cfg before.backend wall 1 2 7 ann message).thrown ≡ false
unfolding on_message handle handle_typed on_call_create create is_busy busy_in new_session
    generate_uuid routed routed_by read_pairs read_texts write_fields
thrown_run = refl

before-Reach : Reach flat ssl table tokens empty cfg before
unfolding start_backend call_manager
before-Reach = next (start 3) (connects 5 (takes target accept_timer_run))

calling_moment-Reach : Reach flat ssl table tokens empty cfg calling
calling_moment-Reach =
    subst
      (λ (b : Backend).
        Reach flat ssl table tokens empty cfg (record before { backend = b; clock = 7 }))
      message_run (next before-Reach (receives wall 1 2 7 ann message (omega arith) thrown_run))

Reach-RingsSince_example : 7 ≤ session.created_at + (30 + 5)
unfolding find
Reach-RingsSince_example =
    Reach-RingsSince flat ssl table tokens empty cfg calling 5 id session calling_moment-Reach
      (omega arith) refl refl

Reach-Addressed_example :
    All
      (Addressed calling.is_open
        (handle flat
          (rtc_config_gen flat ssl cfg wall)
          calling.backend.call_manager
          3
          4
          8
          ann
          message).sent)
      (on_message flat ssl cfg calling.backend wall 3 4 8 ann message).written
    × All
        (Addressed calling.is_open
          (check_expired flat
            (rtc_config_gen flat ssl cfg wall)
            calling.backend.call_manager
            8).sent)
        (on_expire_timer flat ssl cfg calling.backend wall 8).written
Reach-Addressed_example =
    Reach-Addressed flat ssl table tokens empty cfg calling wall 3 4 8 ann message
      calling_moment-Reach

on_expire_timer_ends_example :
    Freed (on_expire_timer flat ssl cfg calling.backend wall 38).backend.call_manager session
    × Told flat
        (rtc_config_gen flat ssl cfg wall)
        connected
        (on_expire_timer flat ssl cfg calling.backend wall 38).written
        session
unfolding find
on_expire_timer_ends_example =
    on_expire_timer_ends flat ssl table tokens empty cfg calling wall 38 id session
      calling_moment-Reach refl refl (omega arith)
