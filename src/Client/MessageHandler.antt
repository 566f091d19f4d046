-- ===== src/Client/MessageHandler.antt =====
-- client_cli/src/signaling/message_handler.cpp. An exception leaves what was done before it.
use zaza.Common.{
  Bool, true, false, not, ◌&&◌, ◌||◌, Bytes, bytes, List, [], ◌∷◌, ◌++◌, Option, none, some, same,
  bytes_eq, if◌then◌else◌,
}
use zaza.Common.Search.{starts_with, find_part, has_part}
use zaza.Common.Integers.{ℤ, pos}
use zaza.Signaling.Json.{JsonLibrary}
use zaza.Client.Session.{ringing, CallContext, no_call, TurnConfig, Session}
use zaza.Client.Commands.{Effect, prints, offers, answers, adds_candidate}

-- The session, and whether the three callbacks are set.
pub record MessageHandler : Type 0 where
  pub session : Session
  pub on_offer : Bool
  pub on_answer : Bool
  pub on_ice : Bool

pub record Handled : Type 0 where
  pub handler : MessageHandler
  pub effects : List Effect
  pub thrown : Bool

unfoldable pub handled : MessageHandler → List Effect → Handled
handled h effects = record { handler = h; effects = effects; thrown = false }

unfoldable pub throws : MessageHandler → Handled
throws h = record { handler = h; effects = []; thrown = true }

unfoldable pub says : MessageHandler → Bytes → Handled
unfolding handled
says h text = handled h (prints text ∷ [])

abbrev pub with_session : MessageHandler → Session → MessageHandler
with_session h s = record h { session = s }

abbrev pub with_call : MessageHandler → CallContext → MessageHandler
with_call h call = record h { session = record h.session { call = call } }

abbrev pub with_turn : MessageHandler → TurnConfig → MessageHandler
with_turn h turn = record h { session = record h.session { turn_config = turn } }

module _ (lib : JsonLibrary) where
  unfoldable pub handle_call_incoming : MessageHandler → lib.Json → Handled
  unfolding says throws
  handle_call_incoming h msg = elim (lib.text_or msg (bytes "callId") []) [
    | none ↦ throws h
    | some call_id ↦ elim (lib.text_or msg (bytes "from") []) [
      | none ↦ throws h
      | some from ↦
          says
            (with_call h (record h.session.call {
              call_id = call_id;
              remote_user = from;
              state = ringing;
              is_caller = false;
            }))
            (bytes "incoming call from "
              ++ (from
                  ++ (bytes " (callId: " ++ (call_id ++ bytes ")\ntype 'accept' or 'reject'"))))
    ]
  ]

  unfoldable pub handle_call_created : MessageHandler → lib.Json → Handled
  unfolding says throws
  handle_call_created h msg = elim (lib.text_or msg (bytes "callId") []) [
    | none ↦ throws h
    | some call_id ↦
        says (with_call h (record h.session.call { call_id = call_id }))
          (bytes "[call] created, callId: " ++ call_id)
  ]

  -- `handleCallEnded` and `handleCallFailed`, which print different texts.
  unfoldable pub handle_call_over : MessageHandler → lib.Json → Bytes → Handled
  unfolding says throws
  handle_call_over h msg text = elim (lib.text_or msg (bytes "reason") (bytes "unknown")) [
    | none ↦ throws h
    | some reason ↦ says (with_call h no_call) (text ++ reason)
  ]

  -- One of the `urls` of a server.
  unfoldable pub take_url : TurnConfig → Bytes → TurnConfig
  unfolding starts_with find_part
  take_url turn u =
      if starts_with u (bytes "turn:") && not (has_part u (bytes "turns:"))
      then record turn { turn_url = u }
      else if starts_with u (bytes "turns:")
      then record turn { turns_url = u }
      else turn

  -- The loop over the `urls`: the configuration, and whether an exception ended it.
  unfoldable pub take_urls : TurnConfig → List lib.Json → TurnConfig × Bool
  unfolding take_url
  take_urls turn [] = (turn, false)
  take_urls turn (url ∷ urls) = elim (lib.as_text url) [
    | none ↦ (turn, true)
    | some u ↦ take_urls (take_url turn u) urls
  ]

  -- The name and the credential of a server, behind the loop over its `urls`.
  unfoldable pub take_names : TurnConfig → lib.Json → TurnConfig × Bool
  take_names turn server = elim (lib.text_or server (bytes "username") []) [
    | none ↦ (turn, true)
    | some username ↦
        let turn' : TurnConfig = record turn { username = username } in
        elim (lib.text_or server (bytes "credential") []) [
          | none ↦ (turn', true)
          | some credential ↦ (record turn' { credential = credential }, false)
        ]
  ]

  unfoldable pub take_server : TurnConfig → lib.Json → TurnConfig × Bool
  unfolding take_urls take_names
  take_server turn server =
      let (turn', thrown) = take_urls turn (lib.elements (lib.get server (bytes "urls"))) in
      if not (lib.contains server (bytes "username"))
      then (turn, false)
      else if thrown
      then (turn', true)
      else take_names turn' server

  -- The loop over `iceServers`.
  unfoldable pub take_servers : TurnConfig → List lib.Json → TurnConfig × Bool
  unfolding take_server
  take_servers turn [] = (turn, false)
  take_servers turn (server ∷ servers) = elim (take_server turn server).1 [
    | true ↦ take_server turn server
    | false ↦ take_servers (take_server turn server).0 servers
  ]

  -- `handleRtcConfig` for the servers of the message.
  unfoldable pub handle_servers : MessageHandler → List lib.Json → Handled
  unfolding take_servers says throws
  handle_servers h [] = says h (bytes "[error] rtc.config empty iceServers")
  handle_servers h (server ∷ servers) =
      let (turn, thrown) = take_servers h.session.turn_config (server ∷ servers) in
      if thrown
      then throws (with_turn h turn)
      else says (with_turn h turn) (bytes "[rtc] config received, turn: " ++ turn.turn_url)

  unfoldable pub handle_rtc_config : MessageHandler → lib.Json → Handled
  unfolding handle_servers says
  handle_rtc_config h msg =
      let servers = lib.get msg (bytes "iceServers") in
      if not (lib.contains msg (bytes "iceServers")) || not (lib.is_array servers)
      then says h (bytes "[error] rtc.config missing iceServers")
      else handle_servers h (lib.elements servers)

  unfoldable pub handle_webrtc_offer : MessageHandler → lib.Json → Handled
  unfolding says handled throws
  handle_webrtc_offer h msg =
      if not (lib.contains msg (bytes "sdp"))
      then says h (bytes "[error] webrtc.offer missing sdp")
      else if h.session.call.is_caller
      then handled h []
      else if not h.on_offer
      then says h (bytes "[warn] webrtc.offer received but no handler (etap 3)")
      else elim (lib.as_text (lib.get msg (bytes "sdp"))) [
        | none ↦ throws h
        | some sdp ↦ handled h (offers sdp ∷ [])
      ]

  unfoldable pub handle_webrtc_answer : MessageHandler → lib.Json → Handled
  unfolding says handled throws
  handle_webrtc_answer h msg =
      if not (lib.contains msg (bytes "sdp"))
      then says h (bytes "[error] webrtc.answer missing sdp")
      else if not h.session.call.is_caller
      then handled h []
      else if not h.on_answer
      then says h (bytes "[warn] webrtc.answer received but no handler (etap 3)")
      else elim (lib.as_text (lib.get msg (bytes "sdp"))) [
        | none ↦ throws h
        | some sdp ↦ handled h (answers sdp ∷ [])
      ]

  -- The three arguments of `on_ice_`.
  unfoldable pub ice_arguments : lib.Json → Option (Bytes × Bytes × ℤ)
  ice_arguments msg = elim (lib.as_text (lib.get msg (bytes "candidate"))) [
    | none ↦ none
    | some candidate ↦ elim (lib.text_or msg (bytes "mid") []) [
      | none ↦ none
      | some mid ↦ elim (lib.int_or msg (bytes "mlineindex") (pos 0)) [
        | none ↦ none
        | some mlineindex ↦ some (candidate, mid, mlineindex)
      ]
    ]
  ]

  unfoldable pub handle_webrtc_ice : MessageHandler → lib.Json → Handled
  unfolding says handled throws ice_arguments
  handle_webrtc_ice h msg =
      if not (lib.contains msg (bytes "candidate"))
      then says h (bytes "[error] webrtc.ice missing candidate")
      else if not h.on_ice
      then says h (bytes "[warn] webrtc.ice received but no handler (etap 3)")
      else elim (ice_arguments msg) [
        | none ↦ throws h
        | some (candidate, mid, mlineindex) ↦
            handled h (adds_candidate candidate mid mlineindex ∷ [])
      ]

  -- The inner `value` is computed first, and may throw although its text is not used.
  unfoldable pub handle_error : MessageHandler → lib.Json → Handled
  unfolding says throws
  handle_error h msg = elim (lib.text_or msg (bytes "error") (bytes "unknown error")) [
    | none ↦ throws h
    | some fallback ↦ elim (lib.text_or msg (bytes "message") fallback) [
      | none ↦ throws h
      | some text ↦ says h (bytes "[server error] " ++ text)
    ]
  ]

  -- The chain of comparisons in `handle`.
  unfoldable pub handle_typed : MessageHandler → lib.Json → Bytes → Handled
  unfolding handle_call_incoming handle_call_created handle_call_over handle_rtc_config
      handle_webrtc_offer handle_webrtc_answer handle_webrtc_ice handle_error says
  handle_typed h msg type =
      if same type (bytes "call.incoming")
      then handle_call_incoming h msg
      else if same type (bytes "call.created")
      then handle_call_created h msg
      else if same type (bytes "call.ended")
      then handle_call_over h msg (bytes "[call] ended, reason: ")
      else if same type (bytes "call.failed")
      then handle_call_over h msg (bytes "[call] failed: ")
      else if same type (bytes "rtc.config")
      then handle_rtc_config h msg
      else if same type (bytes "webrtc.offer")
      then handle_webrtc_offer h msg
      else if same type (bytes "webrtc.answer")
      then handle_webrtc_answer h msg
      else if same type (bytes "webrtc.ice")
      then handle_webrtc_ice h msg
      else if same type (bytes "error")
      then handle_error h msg
      else says h (bytes "[warn] unknown message type: " ++ type)

  unfoldable pub handle : MessageHandler → Bytes → Handled
  unfolding handle_typed says
  handle h raw = elim (lib.parse raw) [
    | none ↦ says h (bytes "[error] invalid json from server")
    | some msg ↦ elim (lib.string_at msg (bytes "type")) [
      | none ↦ says h (bytes "[error] missing type in server message")
      | some type ↦ handle_typed h msg type
    ]
  ]
