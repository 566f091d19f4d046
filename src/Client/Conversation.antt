-- ===== src/Client/Conversation.antt =====
-- A call from the caller's line of input through the router to the callee and back: the messages
-- that client_cli/src/cli/commands.cpp writes, backend/signaling/router.cpp reads and writes, and
-- client_cli/src/signaling/message_handler.cpp reads.
use zaza.Common.{
  ℕ, ◌≡◌, refl, inl, inr, sym, subst, ap, ◌∙◌, arith, true, false, Bytes, bytes, List, [], ◌∷◌,
  some, Option-cases, bytes_eq, Map,
}
use zaza.Calls.Manager.{CallManager, CallSession, ok, active, create, find}
use zaza.Calls.Manager
use zaza.Calls.Freed.{create-accept}
use zaza.Signaling.Json.{JsonLibrary, ObjectLaws}
use zaza.Signaling.Router.{
  routed, send_json, call_created, call_incoming, on_call_create, on_call_accept, rtc_config,
  handle_typed, handle,
}
use zaza.Client.Session.{calling, ringing, CallContext}
use zaza.Client.Commands.{
  Effect, sends, Commands, refuse, succeed, message_with, sends_with, call, accept,
}
use zaza.Client.MessageHandler.{
  MessageHandler, Handled, says, with_call, handle_call_incoming, handle_call_created,
}
use zaza.Client.MessageHandler
use zaza.Client.Commands

module _ (lib : JsonLibrary) (laws : ObjectLaws lib) (gen : Bytes → Bytes) (what : Bytes) where
  abbrev text : Bytes → Bytes → Bytes → Bytes
  text type key value = lib.dump (lib.object ((bytes "type", type) ∷ (key, value) ∷ []))

  call-sends :
      (c : Commands) (user : Bytes) (args : List Bytes)
      → (call lib what c (user ∷ args)).ok ≡ true
      → c.ws_send ≡ true
      → (call lib what c (user ∷ args)).effects
        ≡ sends (text (bytes "call.create") (bytes "to") user) ∷ []
  unfolding call refuse succeed sends_with message_with
  call-sends c user args e w = ground arith

  accept-sends :
      (c : Commands)
      → c.session.call.state ≡ ringing
      → c.ws_send ≡ true
      → (accept lib what c).effects
        ≡ sends (text (bytes "call.accept") (bytes "callId") c.session.call.call_id) ∷ []
  unfolding accept succeed sends_with message_with
  accept-sends c e w = ground arith

  handle-create :
      (m m' : CallManager) (a b now : ℕ) (caller callee id : Bytes)
      → create m a b now caller callee ≡ ok (m', id)
      → handle lib gen m a b now caller (text (bytes "call.create") (bytes "to") callee)
        ≡ routed m' (
            (caller, lib.dump (call_created lib gen id))
            ∷ (callee, lib.dump (call_incoming lib gen id caller))
            ∷ [])
  unfolding handle handle_typed on_call_create send_json routed
  handle-create m m' a b now caller callee id e =
      let fields : Map Bytes Bytes =
        (bytes "type", bytes "call.create") ∷ (bytes "to", callee) ∷ [] in
      rw
        (
          handle,
          laws.parse-dump fields,
          laws.string_at-object fields (bytes "type"),
          handle_typed,
          on_call_create,
          laws.string_at-object fields (bytes "to"),
          e,
        )
        refl

  on_call_accept-manager :
      (m m' : CallManager) (s : CallSession) (user id : Bytes) (j : lib.Json)
      → lib.string_at j (bytes "callId") ≡ some id
      → Manager.accept m id user ≡ ok (m', s)
      → (on_call_accept lib gen m user j).manager ≡ m'
  unfolding on_call_accept routed
  on_call_accept-manager m m' s user id j p e =
      elim (Option-cases (rtc_config lib gen s.caller_id id)) [
        | inl n ↦ rw (on_call_accept, p, e, n) refl
        | inr (caller_rtc, y) ↦ elim (Option-cases (rtc_config lib gen s.callee_id id)) [
          | inl n ↦ rw (on_call_accept, p, e, y, n) refl
          | inr (callee_rtc, z) ↦ rw (on_call_accept, p, e, y, z) refl
        ]
      ]

  handle-accept :
      (m m' : CallManager) (a b now : ℕ) (s : CallSession) (callee id : Bytes)
      → Manager.accept m id callee ≡ ok (m', s)
      → (handle lib gen m a b now callee (text (bytes "call.accept") (bytes "callId") id)).manager
        ≡ m'
  unfolding handle handle_typed
  handle-accept m m' a b now s callee id e =
      let fields : Map Bytes Bytes =
        (bytes "type", bytes "call.accept") ∷ (bytes "callId", id) ∷ [] in
      rw (handle, laws.parse-dump fields, laws.string_at-object fields (bytes "type"), handle_typed)
        (on_call_accept-manager m m' s callee id (lib.object fields)
          (laws.string_at-object fields (bytes "callId")) e)

  -- The caller's client takes the id of the call; the callee's client rings.
  created-taken :
      (h : MessageHandler) (id : Bytes)
      → (MessageHandler.handle lib h (lib.dump (call_created lib gen id))).handler.session.call
        ≡ record h.session.call { call_id = id }
  unfolding MessageHandler.handle MessageHandler.handle_typed handle_call_created says call_created
  created-taken h id =
      let fields : Map Bytes Bytes =
        (bytes "type", bytes "call.created") ∷ (bytes "callId", id) ∷ [] in
      rw
        (
          MessageHandler.handle,
          call_created,
          laws.parse-dump fields,
          laws.string_at-object fields (bytes "type"),
          MessageHandler.handle_typed,
          handle_call_created,
          laws.text_or-object fields (bytes "callId") [],
        )
        refl

  incoming-taken :
      (h : MessageHandler) (id caller : Bytes)
      → (MessageHandler.handle lib h
          (lib.dump (call_incoming lib gen id caller))).handler.session.call
        ≡ record h.session.call {
          call_id = id;
          remote_user = caller;
          state = ringing;
          is_caller = false;
        }
  unfolding MessageHandler.handle MessageHandler.handle_typed handle_call_incoming says
      call_incoming
  incoming-taken h id caller =
      let fields : Map Bytes Bytes =
        (bytes "type", bytes "call.incoming")
        ∷ (bytes "callId", id)
        ∷ (bytes "from", caller)
        ∷ [] in
      rw
        (
          MessageHandler.handle,
          call_incoming,
          laws.parse-dump fields,
          laws.string_at-object fields (bytes "type"),
          MessageHandler.handle_typed,
          handle_call_incoming,
          laws.text_or-object fields (bytes "callId") [],
          laws.text_or-object fields (bytes "from") [],
        )
        refl

  call-taken :
      (c : Commands) (user : Bytes) (args : List Bytes)
      → (call lib what c (user ∷ args)).ok ≡ true
      → (call lib what c (user ∷ args)).commands.session.call
        ≡ record c.session.call { remote_user = user; state = calling; is_caller = true }
  unfolding call refuse succeed
  call-taken c user args e = ground arith

  -- A `call` that the caller's client does not refuse sends one message. The router, where the
  -- call manager creates the call, answers with two: the caller's client takes the id of the call
  -- from its own, and stays the caller who waits for the callee; the callee's client rings for
  -- the caller by the other. The callee's `accept` then sends one message, and the router, when it
  -- has handled that, has the call active, between the two, in its call manager.
  pub call_connects :
      (c d : Commands) (f h : MessageHandler) (m m' : CallManager) (a b now a' b' now' : ℕ)
      (caller callee id : Bytes) (args : List Bytes)
      → (call lib what c (callee ∷ args)).ok ≡ true
      → c.ws_send ≡ true
      → d.ws_send ≡ true
      → create m a b now caller callee ≡ ok (m', id)
      → (raw created incoming answer : Bytes) × ((call lib what c (callee ∷ args)).effects
          ≡ sends raw ∷ [])
        × (handle lib gen m a b now caller raw
            ≡ routed m' ((caller, created) ∷ (callee, incoming) ∷ []))
        × ((MessageHandler.handle lib
              (MessageHandler.with_session f (call lib what c (callee ∷ args)).commands.session)
              created).handler.session.call
            ≡ record c.session.call {
              call_id = id;
              remote_user = callee;
              state = calling;
              is_caller = true;
            })
        × ((MessageHandler.handle lib h incoming).handler.session.call ≡ record h.session.call {
          call_id = id;
          remote_user = caller;
          state = ringing;
          is_caller = false;
        })
        × ((accept lib what (
              Commands.with_session d
                (MessageHandler.handle lib h incoming).handler.session)).effects
            ≡ sends answer ∷ [])
        × (find (handle lib gen m' a' b' now' callee answer).manager id
            ≡ some (record {
              call_id = id;
              caller_id = caller;
              callee_id = callee;
              state = active;
              created_at = now;
            }))
  unfolding Manager.new_session
  call_connects c d f h m m' a b now a' b' now' caller callee id args fine w v e =
      let incoming = lib.dump (call_incoming lib gen id caller) in
      let rings = incoming-taken h id caller in
      let (found, others, (m'', accepted, stored)) =
        create-accept m m' a b now caller callee id e in
      let talks : CallSession = record (Manager.new_session id caller callee now) {
        state = active;
      } in
      let session = (MessageHandler.handle lib h incoming).handler.session in
      let answers =
        accept-sends (Commands.with_session d session) (ap (λ (k : CallContext). k.state) rings)
          v in
      (
        text (bytes "call.create") (bytes "to") callee,
        lib.dump (call_created lib gen id),
        incoming,
        text (bytes "call.accept") (bytes "callId") id,
        call-sends c callee args fine w,
        handle-create m m' a b now caller callee id e,
        created-taken
              (MessageHandler.with_session f (call lib what c (callee ∷ args)).commands.session) id
            ∙ ap (λ (k : CallContext). record k { call_id = id }) (call-taken c callee args fine),
        rings,
        answers
            ∙ ap
                (λ (k : CallContext).
                  sends (text (bytes "call.accept") (bytes "callId") k.call_id) ∷ [])
                rings,
        subst (λ (n : CallManager). find n id ≡ some talks)
            (sym (handle-accept m' m'' a' b' now' _ callee id accepted)) stored,
      )
