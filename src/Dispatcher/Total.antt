-- ===== src/Dispatcher/Total.antt =====
-- Every packet is dealt with: no access outside of a buffer, and no loop that does not end.
use zaza.Common.{
  ℕ, suc, ◌≡◌, inl, inr, arith, Bytes, [], none, ltb, ◌==◌, same, bytes_eq, nat_eq, bit_and, length,
  word16, lookup, Bool-cases,
}
use zaza.Common.Checked.{Checked, ret}
use zaza.Message.AttrType
use zaza.Message.Types.{
  TurnMessage, find_attr, MessageClass, request, indication, success_response, error_response,
  ParseResult,
}
use zaza.Message.Parser.{parse, parse_channel_data, decode_class}
use zaza.Message.Safety.{
  Returns, ret-Returns, >>=-Returns, read-Returns, parse-total, parse_channel_data-total,
}
use zaza.Transport.Endpoint.{Endpoint}
use zaza.Allocation.Denied.{AddressV4}
use zaza.Auth.Crypto.{OpenSsl}
use zaza.Auth.Nonce.{generate_random, generate, generate-is_valid}
use zaza.Auth.HmacValidator.{get_password}
use zaza.Auth.LongTermCred.{
  AuthResult, accepted, missing_credentials, stale_nonce, bad_integrity, wrong_credentials,
  credentials_expired, is_indication, authenticate,
}
use zaza.Auth.Total.{authenticate-total, if-Returns}
use zaza.Dispatcher.Packet.{
  TurnDispatcher, Moment, Outcome, sign_response, challenge, allocated_username, handle_method,
  handle_request, answer, handle_stun, handle_channel_data, on_parsed, value_or_empty, on_packet,
}

module _ (lib : AddressV4) (ssl : OpenSsl) where
  sign_response-Returns :
      (d : TurnDispatcher) (resp username password : Bytes)
      → Returns (sign_response lib ssl d resp username password)
  unfolding sign_response
  sign_response-Returns d resp username password = elim (Bool-cases (ltb (length resp) 20)) [
    | inl short ↦ rw (short, sign_response) (ret-Returns resp)
    | inr long ↦
        rw (long, sign_response)
          (>>=-Returns (read-Returns resp 0 (ground arith)) λ b0.
            >>=-Returns (read-Returns resp 1 (ground arith))
              λ b1. by_class _ _ _ _ (decode_class (word16 b0 b1)))
  ]
    where
      by_class :
          {A : Type 0} (a b c e : A) (k : MessageClass)
          → Returns (elim k as (λ _. Checked A) [
            | request ↦ ret a
            | indication ↦ ret b
            | error_response ↦ ret c
            | success_response ↦ ret e
          ])
      by_class a b c e request = ret-Returns _
      by_class a b c e indication = ret-Returns _
      by_class a b c e error_response = ret-Returns _
      by_class a b c e success_response = ret-Returns _

  -- Enough rounds for the loop over the draws: one of them gives a nonce that is not in use.
  abbrev pub HasFreshDraw : TurnDispatcher → Moment → Type 0
  HasFreshDraw d t =
      (k : ℕ) × (t.nonce_fuel ≡ suc k)
      × (lookup (generate_random (t.nonce_draws k)) d.nonces.store ≡ none)

  challenge-Returns :
      (d : TurnDispatcher) (t : Moment) (msg : TurnMessage) (client : Endpoint) (code : ℕ)
      (reason : Bytes)
      → HasFreshDraw d t
      → Returns (challenge lib ssl d t msg client code reason)
  unfolding challenge
  challenge-Returns d t msg client code reason (k, fuel, fresh) =
      let g = generate-is_valid d.nonces k t.nonce_draws t.steady fresh in
      let made : Returns (generate d.nonces t.nonce_fuel t.nonce_draws t.steady) = record {
        result = (g.0, g.1);
        is_ret = rw fuel g.2;
      } in
      >>=-Returns made λ m. ret-Returns _

  answer-Returns :
      (d : TurnDispatcher) (t : Moment) (msg : TurnMessage) (client : Endpoint) (r : AuthResult)
      → HasFreshDraw d t
      → Returns (answer lib ssl d t msg client r)
  unfolding answer handle_request
  answer-Returns d t msg client missing_credentials h = challenge-Returns d t msg client _ _ h
  answer-Returns d t msg client stale_nonce h = challenge-Returns d t msg client _ _ h
  answer-Returns d t msg client bad_integrity h = challenge-Returns d t msg client _ _ h
  answer-Returns d t msg client credentials_expired h = challenge-Returns d t msg client _ _ h
  answer-Returns d t msg client wrong_credentials h = ret-Returns _
  answer-Returns d t msg client accepted h =
      let username = value_or_empty (find_attr msg AttrType.username) in
      let reply = handle_method lib ssl d t msg client username msg.method in
      if-Returns (same reply.1 []) (ret-Returns _) (
        >>=-Returns
          (sign_response-Returns d reply.1 username (get_password ssl d.shared_secret username))
          λ signed. ret-Returns _)

  on_parsed-Returns :
      (d : TurnDispatcher) (t : Moment) (buf : Bytes) (client : Endpoint) (result : ParseResult)
      → HasFreshDraw d t
      → Returns (on_parsed lib ssl d t buf client result)
  unfolding on_parsed handle_stun
  on_parsed-Returns d t buf client (ParseResult.ok msg) h =
      let (r, q) =
        authenticate-total ssl d.realm d.shared_secret d.nonces t.steady t.system msg buf
          (allocated_username lib ssl d msg client) in
      let checked : Returns (
          authenticate ssl d.realm d.shared_secret d.nonces t.steady t.system msg buf
            (allocated_username lib ssl d msg client)) =
        record { result = r; is_ret = q } in
      if-Returns (is_indication msg.msg_class) (ret-Returns _)
        (>>=-Returns checked λ r. answer-Returns d t msg client r h)
  on_parsed-Returns d t buf client ParseResult.too_short h = ret-Returns _
  on_parsed-Returns d t buf client ParseResult.bad_magic_cookie h = ret-Returns _
  on_parsed-Returns d t buf client ParseResult.bad_length h = ret-Returns _
  on_parsed-Returns d t buf client ParseResult.not_turn_message h = ret-Returns _

  -- Every packet is dealt with, whatever its bytes: the server reads inside of the packet only and
  -- comes to a result, within `k + 1` rounds of the loop that makes a nonce where the draw with the
  -- number `k` gives one that is not in use.
  pub on_packet-total :
      (d : TurnDispatcher) (t : Moment) (buf : Bytes) (client : Endpoint) (k : ℕ)
      → t.nonce_fuel ≡ suc k
      → lookup (generate_random (t.nonce_draws k)) d.nonces.store ≡ none
      → (o : Outcome) × (on_packet lib ssl d t buf client ≡ ret o)
  unfolding on_packet handle_channel_data
  on_packet-total d t buf client k fuel fresh =
      let h : HasFreshDraw d t = (k, fuel, fresh) in
      let (c, p) = parse_channel_data-total buf in
      let channel : Returns (parse_channel_data buf) = record { result = c; is_ret = p } in
      let (m, p') = parse-total buf in
      let stun : Returns (parse buf) = record { result = m; is_ret = p' } in
      let done : Returns (on_packet lib ssl d t buf client) = elim (Bool-cases (length buf == 0)) [
        | inl empty ↦ rw (empty, on_packet) (ret-Returns _)
        | inr some_bytes ↦
            rw (some_bytes, on_packet)
              (>>=-Returns (read-Returns buf 0 (ground arith)) λ b0.
                if-Returns (bit_and b0 0xC0 == 0x40)
                  (>>=-Returns (>>=-Returns channel λ r. ret-Returns _) λ out. ret-Returns _)
                  (if-Returns (bit_and b0 0xC0 == 0x00)
                    (>>=-Returns stun λ result. on_parsed-Returns d t buf client result h)
                    (ret-Returns _)))
      ] in
      (done.result, done.is_ret)
