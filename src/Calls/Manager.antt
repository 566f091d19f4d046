-- ===== src/Calls/Manager.antt =====
-- backend/calls/call_manager.hpp and .cpp. The lock makes each method one step. A thrown
-- `runtime_error` is an `err` with its reason; time is in seconds on the steady clock.
use zaza.Common.{
  ℕ, ◌-◌, Bool, true, false, not, ◌&&◌, ◌||◌, Bytes, bytes, List, [], ◌∷◌, ◌++◌, Option, none, some,
  ltb, same, if◌then◌else◌, Map, lookup, insert, erase, bytes_eq,
}
use zaza.Calls.Uuid.{generate_uuid}

pub data CallState : Type 0 where
  ringing active ended : CallState

pub record CallSession : Type 0 where
  pub call_id : Bytes
  pub caller_id : Bytes
  pub callee_id : Bytes
  pub state : CallState
  pub created_at : ℕ

pub record CallManager : Type 0 where
  pub ring_timeout : ℕ
  pub sessions : Map Bytes CallSession

-- The reasons of the exceptions.
pub data CallError : Type 0 where
  caller_busy callee_busy : CallError
  call_not_found : Bytes → CallError
  wrong_callee not_ringing not_in_call : CallError

-- `e.what()`
abbrev pub what : CallError → Bytes
what caller_busy = bytes "caller is busy"
what callee_busy = bytes "callee is busy"
what (call_not_found id) = bytes "call not found: " ++ id
what wrong_callee = bytes "wrong callee"
what not_ringing = bytes "call not ringing"
what not_in_call = bytes "user not in call"

pub data Result {ℓ} (A : Type ℓ) : Type ℓ where
  ok : A → Result A
  err : CallError → Result A

unfoldable pub call_manager : ℕ → CallManager
call_manager ring_timeout = record { ring_timeout = ring_timeout; sessions = [] }

abbrev pub is_ringing : CallState → Bool
is_ringing ringing = true
is_ringing active = false
is_ringing ended = false

abbrev pub is_ended : CallState → Bool
is_ended ringing = false
is_ended active = false
is_ended ended = true

-- The loop of `isBusy`.
unfoldable pub busy_in : Map Bytes CallSession → Bytes → Bool
busy_in [] user = false
busy_in ((id, s) ∷ rest) user =
    if not (is_ended s.state) && (same s.caller_id user || same s.callee_id user)
    then true
    else busy_in rest user

unfoldable pub is_busy : CallManager → Bytes → Bool
unfolding busy_in
is_busy m user = busy_in m.sessions user

unfoldable pub new_session : Bytes → Bytes → Bytes → ℕ → CallSession
new_session call_id caller_id callee_id now = record {
  call_id = call_id;
  caller_id = caller_id;
  callee_id = callee_id;
  state = ringing;
  created_at = now;
}

-- The draws of the random generator are arguments.
unfoldable pub create : CallManager → ℕ → ℕ → ℕ → Bytes → Bytes → Result (CallManager × Bytes)
unfolding is_busy new_session
create m draw_a draw_b now caller_id callee_id =
    let call_id = generate_uuid draw_a draw_b in
    if is_busy m caller_id
    then err caller_busy
    else if is_busy m callee_id
    then err callee_busy
    else ok (
      record m {
        sessions = insert call_id (new_session call_id caller_id callee_id now) m.sessions;
      },
      call_id,
    )

-- `accept` and `reject` begin with the same checks.
unfoldable pub ringing_for : CallManager → Bytes → Bytes → Result CallSession
ringing_for m call_id callee_id = elim (lookup call_id m.sessions) [
  | none ↦ err (call_not_found call_id)
  | some s ↦
      if not (same s.callee_id callee_id)
      then err wrong_callee
      else if not (is_ringing s.state)
      then err not_ringing
      else ok s
]

unfoldable pub accept : CallManager → Bytes → Bytes → Result (CallManager × CallSession)
unfolding ringing_for
accept m call_id callee_id = elim (ringing_for m call_id callee_id) [
  | err e ↦ err e
  | ok s ↦
      let s' = record s { state = active } in
      ok (record m { sessions = insert call_id s' m.sessions }, s')
]

unfoldable pub reject : CallManager → Bytes → Bytes → Result (CallManager × CallSession)
unfolding ringing_for
reject m call_id callee_id = elim (ringing_for m call_id callee_id) [
  | err e ↦ err e
  | ok s ↦ ok (record m { sessions = erase call_id m.sessions }, record s { state = ended })
]

unfoldable pub hangup : CallManager → Bytes → Bytes → Result (CallManager × CallSession)
hangup m call_id user_id = elim (lookup call_id m.sessions) [
  | none ↦ err (call_not_found call_id)
  | some s ↦
      if not (same s.caller_id user_id) && not (same s.callee_id user_id)
      then err not_in_call
      else ok (record m { sessions = erase call_id m.sessions }, record s { state = ended })
]

unfoldable pub find : CallManager → Bytes → Option CallSession
find m call_id = lookup call_id m.sessions

-- `s.state == Ringing && now - s.createdAt > ring_timeout_`; the clock does not run backwards.
abbrev pub has_timed_out : ℕ → ℕ → CallSession → Bool
has_timed_out now ring_timeout s = is_ringing s.state && ltb ring_timeout (now - s.created_at)

-- The loop of `expireRinging`: what stays, and what is returned.
unfoldable pub expire_loop :
    ℕ → ℕ → Map Bytes CallSession → Map Bytes CallSession × List CallSession
expire_loop now timeout [] = ([], [])
expire_loop now timeout ((id, s) ∷ rest) =
    let (stay, gone) = expire_loop now timeout rest in
    if has_timed_out now timeout s
    then (stay, record s { state = ended } ∷ gone)
    else ((id, s) ∷ stay, gone)

unfoldable pub expire_ringing : CallManager → ℕ → CallManager × List CallSession
unfolding expire_loop
expire_ringing m now =
    let (stay, gone) = expire_loop now m.ring_timeout m.sessions in
    (record m { sessions = stay }, gone)
