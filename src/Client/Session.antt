-- ===== src/Client/Session.antt =====
-- client_cli/src/session.
use zaza.Common.{ℕ, Bool, true, false, not, Bytes, bytes, [], ◌∷◌}

pub data AppState : Type 0 where
  idle calling ringing in_call : AppState

unfoldable pub to_string : AppState → Bytes
to_string idle = bytes "Idle"
to_string calling = bytes "Calling"
to_string ringing = bytes "Ringing"
to_string in_call = bytes "InCall"

pub record TurnConfig : Type 0 where
  pub turn_url : Bytes
  pub turns_url : Bytes
  pub username : Bytes
  pub credential : Bytes
  pub ttl : ℕ

pub record CallContext : Type 0 where
  pub call_id : Bytes
  pub remote_user : Bytes
  pub state : AppState
  pub muted : Bool
  pub is_caller : Bool

-- `CallContext{}`
abbrev pub no_call : CallContext
no_call = record { call_id = []; remote_user = []; state = idle; muted = false; is_caller = false }

pub record RecordContext : Type 0 where
  pub active : Bool
  pub filename : Bytes

abbrev pub no_recording : RecordContext
no_recording = record { active = false; filename = [] }

pub record Session : Type 0 where
  pub user_id : Bytes
  pub jwt : Bytes
  pub turn_config : TurnConfig
  pub call : CallContext
  pub recording : RecordContext

-- `session::Session session;`
abbrev pub new_session : Session
new_session = record {
  user_id = [];
  jwt = [];
  turn_config = record {
    turn_url = [];
    turns_url = [];
    username = [];
    credential = [];
    ttl = 3600;
  };
  call = no_call;
  recording = no_recording;
}

abbrev pub is_empty : Bytes → Bool
is_empty text = elim text [ [] ↦ true | c ∷ rest ↦ false ]

abbrev pub is_idle : AppState → Bool
is_idle idle = true
is_idle calling = false
is_idle ringing = false
is_idle in_call = false

abbrev pub is_calling : AppState → Bool
is_calling calling = true
is_calling idle = false
is_calling ringing = false
is_calling in_call = false

abbrev pub is_ringing : AppState → Bool
is_ringing ringing = true
is_ringing idle = false
is_ringing calling = false
is_ringing in_call = false

abbrev pub is_talking : AppState → Bool
is_talking in_call = true
is_talking idle = false
is_talking calling = false
is_talking ringing = false

unfoldable pub is_logged_in : Session → Bool
is_logged_in s = not (is_empty s.jwt)

unfoldable pub is_in_call : Session → Bool
is_in_call s = not (is_idle s.call.state)
