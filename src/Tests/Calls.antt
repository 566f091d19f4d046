-- ===== src/Tests/Calls.antt =====
-- Runs of the call manager and of the router.
use zaza.Common.{
  ◌≡◌, refl, subst, ap, false, Bytes, bytes, List, [], ◌∷◌, none, some, lookup, insert, bytes_eq,
  ◌⊎◌,
}
use zaza.Calls.Uuid.{generate_uuid}
use zaza.Calls.Manager.{
  ringing, ended, CallSession, CallManager, ok, call_manager, busy_in, is_busy, new_session, create,
  hangup, expire_loop, expire_ringing,
}
use zaza.Calls.Exclusive.{Exclusive}
use zaza.Calls.Lifecycle.{after, Reach, start, next, creates, Reach-Exclusive}
use zaza.Signaling.Json.{JsonLibrary}
use zaza.Signaling.Router.{call_over, on_call_hangup}
use zaza.Signaling.Notices.{on_call_hangup_tells}

abbrev alice : Bytes
alice = bytes "alice"

abbrev bob : Bytes
bob = bytes "bob"

abbrev carol : Bytes
carol = bytes "carol"

-- The id of the first call, for the draws 1 and 2.
abbrev call : Bytes
call = bytes "00000000-0000-4001-8000-000000000002"

call_lem : generate_uuid 1 2 ≡ call
unfolding generate_uuid
call_lem = refl

abbrev session : CallSession
session = record {
  call_id = call;
  caller_id = alice;
  callee_id = bob;
  state = ringing;
  created_at = 5;
}

abbrev calling : CallManager
calling = record { ring_timeout = 30; sessions = (call, session) ∷ [] }

create_run : create (call_manager 30) 1 2 5 alice bob ≡ ok (calling, call)
unfolding create is_busy busy_in call_manager new_session generate_uuid
create_run = refl

calling-Reach : Reach calling
unfolding after
calling-Reach =
    subst Reach (ap (after (call_manager 30)) create_run)
      (next (start 30) (creates 1 2 5 alice bob))

Reach-Exclusive_example : Exclusive calling
Reach-Exclusive_example = Reach-Exclusive calling calling-Reach

abbrev empty : CallManager
empty = record { ring_timeout = 30; sessions = [] }

abbrev over : CallSession
over = record { call_id = call; caller_id = alice; callee_id = bob; state = ended; created_at = 5 }

hangup_run : hangup calling call bob ≡ ok (empty, over)
unfolding hangup
hangup_run = refl

-- The call rings for 30 seconds, and is given up in the second after them.
expire_test :
    (expire_ringing calling 35 ≡ (calling, [])) × (expire_ringing calling 36 ≡ (empty, over ∷ []))
unfolding expire_ringing expire_loop
expire_test = (refl, refl)

-- A JSON library for the tests: flat objects, where any text is parsed as a call to the user it
-- names.
abbrev flat : JsonLibrary
flat = record {
  Json = List (Bytes × Bytes);
  parse = λ raw. some ((bytes "type", bytes "call.create") ∷ (bytes "to", raw) ∷ []);
  string_at = λ j key. lookup key j;
  object = λ fields. fields;
  text = λ t. ([], t) ∷ [];
  number = λ n. [];
  array = λ js. [];
  fields = λ fs. [];
  set_at = λ j key value. some (insert key value j);
  dump = λ j. elim (lookup (bytes "callId") j) [ none ↦ [] | some id ↦ id ];
  contains = λ j key. false;
  get = λ j key. j;
  is_array = λ j. false;
  elements = λ j. [];
  as_text = λ j. none;
  text_or = λ j key fallback. lookup key j;
  int_or = λ j key fallback. none;
}

abbrev config : Bytes → Bytes
config user = user

abbrev about_call : flat.Json
about_call = (bytes "callId", call) ∷ []

on_call_hangup_tells_example :
    (other : Bytes) × (((alice ≡ bob) × (bob ≡ other)) ⊎ ((bob ≡ bob) × (alice ≡ other)))
    × ((on_call_hangup flat config calling bob about_call).sent
        ≡ (other, flat.dump (call_over flat config (bytes "call.ended") call (bytes "hangup")))
          ∷ [])
    × (is_busy (on_call_hangup flat config calling bob about_call).manager bob ≡ false)
    × (is_busy (on_call_hangup flat config calling bob about_call).manager other ≡ false)
on_call_hangup_tells_example =
    on_call_hangup_tells flat config calling empty about_call call bob over calling-Reach refl
      hangup_run
