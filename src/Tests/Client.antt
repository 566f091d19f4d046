-- ===== src/Tests/Client.antt =====
-- Runs of the client, and of two clients with the backend.
use zaza.Common.{◌≡◌, refl, true, false, Bytes, bytes, [], ◌∷◌, some, bytes_eq, Map}
use zaza.Common.Integers.{pos}
use zaza.Calls.Manager.{
  CallSession, CallManager, ok, active, create, call_manager, find, new_session, is_busy, busy_in,
}
use zaza.Calls.Manager
use zaza.Calls.Uuid.{generate_uuid}
use zaza.Signaling.Router.{routed}
use zaza.Signaling.Router
use zaza.Client.Session
use zaza.Client.Session.{calling, ringing, no_call}
use zaza.Client.Parser.{parse_line, words_from}
use zaza.Client.Commands.{
  Commands, replied, failed, sends, prints, call, accept, refuse, succeed, sends_with, message_with,
}
use zaza.Client.Commands
use zaza.Client.MessageHandler.{MessageHandler}
use zaza.Client.MessageHandler
use zaza.Client.App.{
  App, ran, does, stops_audio, closes_connection, null_use, session_of, with_call, start_app,
  on_line, on_message,
}
use zaza.Client.History.{Clean, Reach, start, next, types, receives, Reach-Clean}
use zaza.Client.Faults.{refused_call, late_candidate}
use zaza.Client.Conversation.{call_connects}
use zaza.Client.Session.{Session}
use zaza.Tests.FlatJson.{
  flat, flat-ObjectLaws, write_fields, write_text, read_pairs, read_texts, onto_first,
}

abbrev what : Bytes
what = bytes "type error"

-- The words of a line of input.
parse_line_test :
    parse_line (bytes "call  bob") ≡ record { name = bytes "call"; args = bytes "bob" ∷ [] }
unfolding parse_line words_from
parse_line_test = refl

-- The client after a login, and after a configuration.
abbrev at_login : App
at_login =
    (on_line flat what start_app (bytes "login ann pw")
      (replied 200 (write_fields ((bytes "token", bytes "jwt") ∷ [])))).app

abbrev at_config : App
at_config =
    (on_message flat what at_login true
      (write_fields ((bytes "type", bytes "rtc.config") ∷ []))).app

at_config-Reach : Reach flat what at_config
at_config-Reach = next (next start (types (bytes "login ann pw") _)) (receives true _)

Reach-Clean_example : Clean at_config
Reach-Clean_example = Reach-Clean flat what at_config at_config-Reach

-- A client in its second call, whose first one was cleaned up.
abbrev in_second_call : App
in_second_call =
    with_call (record start_app { callbacks = true; cleanup_done = true })
      (record no_call { remote_user = bytes "bob"; state = calling; is_caller = true })

abbrev refusal : Map Bytes Bytes
refusal = (bytes "type", bytes "error") ∷ (bytes "message", bytes "busy") ∷ []

-- A client that has its connection, and waits for an answer.
abbrev in_first_call : App
in_first_call = record in_second_call { connection = true; handlers = true; cleanup_done = false }

refused_call_example :
    on_message flat what in_first_call true (write_fields refusal)
    ≡ ran
        (with_call
          (record in_first_call { connection = false; handlers = false; cleanup_done = true })
          no_call)
        (does (prints (bytes "[server error] busy")) ∷ stops_audio ∷ closes_connection ∷ [])
unfolding write_fields write_text read_pairs read_texts onto_first start_app on_message on_line
refused_call_example =
    refused_call flat what in_first_call true (write_fields refusal) (bytes "unknown error")
      (bytes "busy") refusal refl refl refl refl refl refl

abbrev ended : Map Bytes Bytes
ended = (bytes "type", bytes "call.ended") ∷ (bytes "reason", bytes "hangup") ∷ []

abbrev ice : Map Bytes Bytes
ice = (bytes "type", bytes "webrtc.ice") ∷ (bytes "candidate", bytes "udp") ∷ []

at_config_callbacks : at_config.callbacks ≡ true
unfolding write_fields write_text read_pairs read_texts onto_first start_app on_message on_line
at_config_callbacks = refl

late_candidate_example :
    let a = (on_message flat what at_config true (write_fields ended)).app in
    ((session_of a).call ≡ no_call)
    × (a.connection ≡ false)
    × (a.handlers ≡ false)
    × (on_message flat what a true (write_fields ice)
        ≡ record { app = a; actions = []; outcome = null_use })
unfolding write_fields write_text read_pairs read_texts onto_first start_app
    MessageHandler.ice_arguments
late_candidate_example =
    late_candidate flat what at_config true true (write_fields ended) (bytes "hangup")
      (write_fields ice) (bytes "udp") [] (pos 0) ended ice at_config-Reach at_config_callbacks refl
      refl refl refl refl refl refl refl refl

abbrev ann : Commands
ann = record {
  session = record Session.new_session { user_id = bytes "ann"; jwt = bytes "jwt" };
  quit = false;
  ws_send = true;
  capture_cb = true;
  sendfile_cb = true;
}

abbrev bob : Commands
bob = record ann {
  session = record Session.new_session { user_id = bytes "bob"; jwt = bytes "jwt" };
}

abbrev handler : Commands → MessageHandler
handler c = record { session = c.session; on_offer = true; on_answer = true; on_ice = true }

-- The id of the call, for the draws 1 and 2.
abbrev id : Bytes
id = bytes "00000000-0000-4001-8000-000000000002"

abbrev rings : CallSession
rings = record {
  call_id = id;
  caller_id = bytes "ann";
  callee_id = bytes "bob";
  state = Manager.ringing;
  created_at = 5;
}

abbrev with_rings : CallManager
with_rings = record { ring_timeout = 30; sessions = (id, rings) ∷ [] }

create_run : create (call_manager 30) 1 2 5 (bytes "ann") (bytes "bob") ≡ ok (with_rings, id)
unfolding create is_busy busy_in call_manager new_session generate_uuid
create_run = refl

ann_calls : (call flat what ann (bytes "bob" ∷ [])).ok ≡ true
unfolding call succeed Session.is_logged_in Session.is_in_call
ann_calls = refl

call_connects_example :
    (raw created incoming answer : Bytes) × ((call flat what ann (bytes "bob" ∷ [])).effects
      ≡ sends raw ∷ [])
    × (Router.handle flat (λ user. user) (call_manager 30) 1 2 5 (bytes "ann") raw
        ≡ routed with_rings ((bytes "ann", created) ∷ (bytes "bob", incoming) ∷ []))
    × ((MessageHandler.handle flat
          (MessageHandler.with_session
            (handler ann)
            (call flat what ann (bytes "bob" ∷ [])).commands.session)
          created).handler.session.call
        ≡ record ann.session.call {
          call_id = id;
          remote_user = bytes "bob";
          state = calling;
          is_caller = true;
        })
    × ((MessageHandler.handle flat (handler bob) incoming).handler.session.call
        ≡ record bob.session.call {
          call_id = id;
          remote_user = bytes "ann";
          state = ringing;
          is_caller = false;
        })
    × ((accept flat what (
          Commands.with_session bob
            (MessageHandler.handle flat (handler bob) incoming).handler.session)).effects
        ≡ sends answer ∷ [])
    × (find (Router.handle flat (λ user. user) with_rings 0 0 6 (bytes "bob") answer).manager id
        ≡ some (record rings { state = active }))
call_connects_example =
    call_connects flat flat-ObjectLaws (λ user. user) what ann bob (handler ann) (handler bob)
      (call_manager 30) with_rings 1 2 5 0 0 6 (bytes "ann") (bytes "bob") id [] ann_calls refl refl
      create_run

abbrev ann_in_call : Session
ann_in_call = record Session.new_session {
  call = record no_call { call_id = id; state = calling; is_caller = true };
}
