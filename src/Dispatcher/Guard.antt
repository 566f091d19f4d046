-- ===== src/Dispatcher/Guard.antt =====
-- Which packets change an allocation, which are relayed, and that every packet is dealt with.
use zaza.Common.{
  ℕ, ◌≡◌, ◌≢◌, refl, subst, inl, inr, ◌⊎◌, Bool, true, false, Bytes, List, [], some, ◌==◌, same,
  bytes_eq, nat_eq, bit_and, if◌then◌else◌, length, lookup, Bool-cases, Option-cases,
}
use zaza.Common.Checked.{Checked, ret, no_fuel, ◌>>=◌, read}
use zaza.Message.AttrType
use zaza.Message.Types.{
  TurnMessage, find_attr, Method, allocate, refresh, send, data_method, create_permission,
  channel_bind, unknown, ParseResult, ChannelDataMessage, ChannelDataResult,
}
use zaza.Message.Parser.{parse, parse_channel_data}
use zaza.Message.Safety.{parse_channel_data-total}
use zaza.Transport.Endpoint.{Endpoint}
use zaza.Allocation.Types.{ChannelBinding, has_permission}
use zaza.Allocation.Denied.{AddressV4}
use zaza.Allocation.Manager.{AllocationManager, find_by_client}
use zaza.Allocation.Steps.{Call, allocates, refreshes, permits, binds, step}
use zaza.Auth.Crypto.{OpenSsl}
use zaza.Auth.Nonce.{generate}
use zaza.Auth.HmacValidator.{get_password}
use zaza.Auth.LongTermCred.{
  AuthResult, accepted, missing_credentials, stale_nonce, bad_integrity, wrong_credentials,
  credentials_expired, is_indication, authenticate,
}
use zaza.Dispatcher.Packet.{
  TurnDispatcher, Moment, Outcome, sign_response, challenge, allocated_username, handle_method,
  handle_request, answer, handle_stun, relay_channel, handle_channel_data, on_channel_parsed,
  on_parsed, value_or_empty, on_packet,
}

-- What a computation gives, if it comes to a result, has a property.
abbrev Ensures {ℓ κ} : {A : Type ℓ} → (A → Type κ) → Checked A → Type κ
Ensures P (ret a) = P a
Ensures P no_fuel = Unit
Ensures P Checked.bad_access = Unit

>>=-Ensures {ℓ κ} :
    {A B : Type ℓ} (P : B → Type κ) (m : Checked A) (f : A → Checked B)
    → ((a : A) → m ≡ ret a → Ensures P (f a))
    → Ensures P (m >>= f)
>>=-Ensures P (ret a) f h = h a refl
>>=-Ensures P no_fuel f h = tt
>>=-Ensures P Checked.bad_access f h = tt

if-Ensures {ℓ κ} :
    {A : Type ℓ} (P : A → Type κ) (b : Bool) (m n : Checked A)
    → (b ≡ true → Ensures P m)
    → (b ≡ false → Ensures P n)
    → Ensures P (if b then m else n)
if-Ensures P true m n h k = h refl
if-Ensures P false m n h k = k refl

module _ (lib : AddressV4) (ssl : OpenSsl) where
  -- A message that was read from the packet, is no indication and was accepted, and a call of the
  -- allocation manager on it that leads to a state.
  pub record Authorised (d : TurnDispatcher) (t : Moment) (buf : Bytes) (client : Endpoint)
      (m' : AllocationManager) : Type 0 where
    pub msg : TurnMessage
    pub call : Call
    pub parsed : parse buf ≡ ret (ParseResult.ok msg)
    pub no_indication : is_indication msg.msg_class ≡ false
    pub authentic :
        authenticate ssl d.realm d.shared_secret d.nonces t.steady t.system msg buf
          (allocated_username lib ssl d msg client)
        ≡ ret accepted
    pub stepped : m' ≡ step lib d.allocations t.steady msg client call

  handle_method-step :
      (d : TurnDispatcher) (t : Moment) (msg : TurnMessage) (client : Endpoint) (username : Bytes)
      (method : Method)
      → ((handle_method lib ssl d t msg client username method).0 ≡ d.allocations)
        ⊎ ((call : Call) × ((handle_method lib ssl d t msg client username method).0
              ≡ step lib d.allocations t.steady msg client call))
  unfolding handle_method step
  handle_method-step d t msg client username allocate =
      inr (allocates t.port_draws username d.realm, refl)
  handle_method-step d t msg client username refresh = inr (refreshes username, refl)
  handle_method-step d t msg client username create_permission = inr (permits, refl)
  handle_method-step d t msg client username channel_bind = inr (binds, refl)
  handle_method-step d t msg client username send = inl refl
  handle_method-step d t msg client username data_method = inl refl
  handle_method-step d t msg client username unknown = inl refl

  abbrev Kept : TurnDispatcher → Moment → Bytes → Endpoint → Outcome → Type 0
  Kept d t buf client o =
      (o.0.allocations ≡ d.allocations) ⊎ Authorised d t buf client o.0.allocations

  challenge-Ensures :
      (d : TurnDispatcher) (t : Moment) (msg : TurnMessage) (buf : Bytes) (client : Endpoint)
      (code : ℕ) (reason : Bytes)
      → Ensures (Kept d t buf client) (challenge lib ssl d t msg client code reason)
  unfolding challenge
  challenge-Ensures d t msg buf client code reason =
      >>=-Ensures (Kept d t buf client) (generate d.nonces t.nonce_fuel t.nonce_draws t.steady) _
        (λ made q. inl refl)

  answer-Ensures :
      (d : TurnDispatcher) (t : Moment) (msg : TurnMessage) (buf : Bytes) (client : Endpoint)
      (r : AuthResult)
      → parse buf ≡ ret (ParseResult.ok msg)
      → is_indication msg.msg_class ≡ false
      → authenticate ssl d.realm d.shared_secret d.nonces t.steady t.system msg buf
          (allocated_username lib ssl d msg client)
        ≡ ret r
      → Ensures (Kept d t buf client) (answer lib ssl d t msg client r)
  unfolding answer handle_request
  answer-Ensures d t msg buf client missing_credentials p i q =
      challenge-Ensures d t msg buf client _ _
  answer-Ensures d t msg buf client stale_nonce p i q = challenge-Ensures d t msg buf client _ _
  answer-Ensures d t msg buf client bad_integrity p i q = challenge-Ensures d t msg buf client _ _
  answer-Ensures d t msg buf client credentials_expired p i q =
      challenge-Ensures d t msg buf client _ _
  answer-Ensures d t msg buf client wrong_credentials p i q = inl refl
  answer-Ensures d t msg buf client accepted p i q =
      let username = value_or_empty (find_attr msg AttrType.username) in
      let reply = handle_method lib ssl d t msg client username msg.method in
      let P = Kept d t buf client in
      let kept : (reply.0 ≡ d.allocations) ⊎ Authorised d t buf client reply.0 =
        elim (handle_method-step d t msg client username msg.method) [
          | inl e ↦ inl e
          | inr (call, e) ↦ inr record {
            msg = msg;
            call = call;
            parsed = p;
            no_indication = i;
            authentic = q;
            stepped = e;
          }
        ] in
      if-Ensures P (same reply.1 []) _ _ (λ _. kept)
        (λ _.
          >>=-Ensures P
            (sign_response lib ssl d reply.1 username (get_password ssl d.shared_secret username)) _
            λ signed _. kept)

  on_parsed-Ensures :
      (d : TurnDispatcher) (t : Moment) (buf : Bytes) (client : Endpoint) (result : ParseResult)
      → parse buf ≡ ret result
      → Ensures (Kept d t buf client) (on_parsed lib ssl d t buf client result)
  unfolding on_parsed handle_stun
  on_parsed-Ensures d t buf client (ParseResult.ok msg) p =
      let P = Kept d t buf client in
      if-Ensures P (is_indication msg.msg_class) _ _ (λ _. inl refl)
        (λ i.
          >>=-Ensures P
            (authenticate ssl d.realm d.shared_secret d.nonces t.steady t.system msg buf
              (allocated_username lib ssl d msg client))
            _ λ r q. answer-Ensures d t msg buf client r p i q)
  on_parsed-Ensures d t buf client ParseResult.too_short p = inl refl
  on_parsed-Ensures d t buf client ParseResult.bad_magic_cookie p = inl refl
  on_parsed-Ensures d t buf client ParseResult.bad_length p = inl refl
  on_parsed-Ensures d t buf client ParseResult.not_turn_message p = inl refl

  -- A packet changes the allocations of the server only when it is a message that reads as a STUN
  -- message, is no indication and passes the authentication, and then by one call of the
  -- allocation manager on that message and its sender.
  pub on_packet-Authorised :
      (d d' : TurnDispatcher) (t : Moment) (buf : Bytes) (client : Endpoint)
      (out : List (Bytes × Endpoint))
      → on_packet lib ssl d t buf client ≡ ret (d', out)
      → (d'.allocations ≡ d.allocations) ⊎ Authorised d t buf client d'.allocations
  unfolding on_packet
  on_packet-Authorised d d' t buf client out q =
      let P = Kept d t buf client in
      let e : Ensures P (on_packet lib ssl d t buf client) =
        if-Ensures P (length buf == 0) _ _ (λ _. inl refl)
          (λ _. >>=-Ensures P (read buf 0) _ λ b0 _.
            if-Ensures P (bit_and b0 0xC0 == 0x40) _ _
              (λ _.
                >>=-Ensures P (handle_channel_data lib ssl d t.steady buf client) _ λ o _. inl refl)
              (λ _.
                if-Ensures P (bit_and b0 0xC0 == 0x00) _ _
                  (λ _.
                    >>=-Ensures P (parse buf) _
                      λ result p. on_parsed-Ensures d t buf client result p)
                  (λ _. inl refl))) in
      subst (Ensures P) q e

  relay_channel_guarded :
      (d : TurnDispatcher) (now : ℕ) (ch : ChannelDataMessage) (client : Endpoint)
      → relay_channel lib ssl d now ch client ≢ []
      → (ref : ℕ) × (binding : ChannelBinding) × (find_by_client d.allocations client ≡ some ref)
        × (lookup ch.channel_number (d.allocations.heap ref).channels ≡ some binding)
        × (has_permission (d.allocations.heap ref) binding.peer.address now ≡ true)
  unfolding relay_channel
  relay_channel_guarded d now ch client n =
      elim (Option-cases (find_by_client d.allocations client)) [
        | inl q ↦ absurd (n (rw (q, relay_channel) refl))
        | inr (ref, a) ↦
            elim (Option-cases (lookup ch.channel_number (d.allocations.heap ref).channels)) [
              | inl q ↦ absurd (n (rw (a, q, relay_channel) refl))
              | inr (binding, b) ↦
                  elim (Bool-cases
                    (has_permission (d.allocations.heap ref) binding.peer.address now)) [
                      | inl q ↦ (ref, binding, a, b, q)
                      | inr q ↦ absurd (n (rw (a, b, q, relay_channel) refl))
                    ]
            ]
      ]

  -- What is sent for a channel message: the message reads as one, its sender has an allocation with
  -- the channel, and that allocation has a permission for the channel's peer that has not expired.
  pub handle_channel_data_guarded :
      (d : TurnDispatcher) (now : ℕ) (buf : Bytes) (client : Endpoint)
      (out : List (Bytes × Endpoint))
      → handle_channel_data lib ssl d now buf client ≡ ret out
      → out ≢ []
      → (ch : ChannelDataMessage) × (parse_channel_data buf ≡ ret (ChannelDataResult.ok ch))
        × ((ref : ℕ) × (binding : ChannelBinding) × (find_by_client d.allocations client ≡ some ref)
            × (lookup ch.channel_number (d.allocations.heap ref).channels ≡ some binding)
            × (has_permission (d.allocations.heap ref) binding.peer.address now ≡ true))
  unfolding handle_channel_data on_channel_parsed
  handle_channel_data_guarded d now buf client out q n =
      let (result, p) = parse_channel_data-total buf in
      go result p (
        let e : ret (on_channel_parsed lib ssl d now client result) ≡ ret out =
          rw (p, handle_channel_data, ◌>>=◌) at q in
        λ none_sent. n (cc))
    where
      go :
          (result : ChannelDataResult)
          → parse_channel_data buf ≡ ret result
          → on_channel_parsed lib ssl d now client result ≢ []
          → (ch : ChannelDataMessage) × (parse_channel_data buf ≡ ret (ChannelDataResult.ok ch))
            × ((ref : ℕ) × (binding : ChannelBinding) × (find_by_client d.allocations client
                  ≡ some ref)
                × (lookup ch.channel_number (d.allocations.heap ref).channels ≡ some binding)
                × (has_permission (d.allocations.heap ref) binding.peer.address now ≡ true))
      go (ChannelDataResult.ok ch) p h = (ch, p, relay_channel_guarded d now ch client h)
      go ChannelDataResult.too_short p h = absurd (h refl)
      go ChannelDataResult.invalid_channel p h = absurd (h refl)
