-- ===== src/Accounts/TurnLogin.antt =====
-- The name and the password for the TURN server that backend/api/routes.cpp gives out, before the
-- server that checks them (turn_server/src/auth/long_term_cred.cpp).
use zaza.Common.{
  ℕ, ◌+◌, ◌^◌, ◌≤◌, ◌<◌, ◌≡◌, ◌≢◌, refl, sym, subst, ◌∙◌, inl, inr, arith, ◌⊎◌, ◌↔◌, true, false,
  not, ◌&&◌, Bytes, [], some, ltb, same, bytes_eq, bytes_beq_iff, Bool-cases, if◌then◌else◌,
}
use zaza.Common.Checked.{ret, ◌>>=◌}
use zaza.Common.Decimal.{to_decimal, to_decimal-digits}
use zaza.Message.AttrType
use zaza.Message.Types.{TurnMessage, Attribute, find_attr}
use zaza.Auth.Crypto.{OpenSsl}
use zaza.Auth.Stoll.{stoll-to_decimal}
use zaza.Auth.Nonce.{NonceManager, is_valid}
use zaza.Auth.HmacValidator.{get_password}
use zaza.Auth.Credentials.{before_colon-digits}
use zaza.Auth.LongTermCred.{
  accepted, credentials_expired, is_indication, is_allocate, has_integrity, verify, check_password,
  check_nonce, authenticate,
}
use zaza.Auth.Access.{check_password-accepted}
use zaza.Accounts.Routes.{TurnConfig, turn_login}

module _ (ssl : OpenSsl) (cfg : TurnConfig) (now : ℕ) (user : Bytes) where
  -- The server derives the password that the backend gives out from the name alone.
  get_password-turn_login :
      get_password ssl cfg.shared_secret (turn_login ssl cfg now user).0
      ≡ (turn_login ssl cfg now user).1
  unfolding turn_login get_password
  get_password-turn_login =
      rw
        (
          get_password,
          before_colon-digits (to_decimal (now + cfg.ttl)) user (to_decimal-digits (now + cfg.ttl)),
        )
        refl

  module _ (realm : Bytes) (nonces : NonceManager) (steady system : ℕ) (msg : TurnMessage)
      (raw allocated_username : Bytes) where
    check_nonce-turn_login :
        (nonce : Bytes)
        → now + cfg.ttl < 2 ^ 63
        → is_valid nonces nonce steady ≡ true
        → let name = (turn_login ssl cfg now user).0 in
          check_nonce ssl realm cfg.shared_secret nonces steady system msg raw name nonce
            allocated_username
          ≡ (if ltb (now + cfg.ttl) system
              then ret credentials_expired
              else check_password ssl realm cfg.shared_secret msg raw name allocated_username)
    unfolding check_nonce turn_login
    check_nonce-turn_login nonce small valid =
        rw
          (
            check_nonce,
            valid,
            before_colon-digits (to_decimal (now + cfg.ttl)) user
                (to_decimal-digits (now + cfg.ttl)),
            stoll-to_decimal (now + cfg.ttl) small,
          )
          refl

    check_password-turn_login :
        (turn_login ssl cfg now user).1 ≢ []
        → (is_allocate msg.method ≡ true)
          ⊎ ((allocated_username ≡ []) ⊎ ((turn_login ssl cfg now user).0 ≡ allocated_username))
        → let given = turn_login ssl cfg now user in
          (check_password ssl realm cfg.shared_secret msg raw given.0 allocated_username
            ≡ ret accepted)
          ↔ (verify ssl realm msg raw given.0 given.1 ≡ ret true)
    unfolding check_password
    check_password-turn_login some_password own =
        let given = turn_login ssl cfg now user in
        let derived = get_password-turn_login in
        let not_empty : same (get_password ssl cfg.shared_secret given.0) [] ≡ false =
          subst (λ p. same p [] ≡ false) (sym derived)
            (ground (arith, some_password, bytes_beq_iff given.1 [])) in
        let own_name : (not (is_allocate msg.method)
              && not (same allocated_username [])
              && not (same given.0 allocated_username))
            ≡ false =
          ground (
            arith,
            own,
            bytes_beq_iff allocated_username [],
            bytes_beq_iff given.0 allocated_username,
          ) in
        (
          λ e.
              subst (λ p. verify ssl realm msg raw given.0 p ≡ ret true) derived
                (check_password-accepted ssl realm cfg.shared_secret msg raw given.0
                  allocated_username e).0,
          λ v.
              let v' : verify ssl realm msg raw given.0 (get_password ssl cfg.shared_secret given.0)
                  ≡ ret true =
                subst (λ p. verify ssl realm msg raw given.0 p ≡ ret true) (sym derived) v in
              rw (check_password, not_empty, v', ◌>>=◌) (rw own_name refl),
        )

    -- A request that has the user name which the backend gave out, a realm, a valid nonce and a message integrity,
    -- from a client that has no allocation or one of that name, or that asks for one, is accepted by the TURN server
    -- exactly if the time of making plus the lifetime has not passed and its message integrity is that of the
    -- password which the backend gave out with the name. That password is not empty, and that time is below 2 ^ 63.
    pub turn_login-authenticate :
        (username realm_attr nonce : Attribute)
        → now + cfg.ttl < 2 ^ 63
        → (turn_login ssl cfg now user).1 ≢ []
        → is_indication msg.msg_class ≡ false
        → find_attr msg AttrType.username ≡ some username
        → username.value ≡ (turn_login ssl cfg now user).0
        → find_attr msg AttrType.realm ≡ some realm_attr
        → find_attr msg AttrType.nonce ≡ some nonce
        → is_valid nonces nonce.value steady ≡ true
        → has_integrity msg ≡ true
        → (is_allocate msg.method ≡ true)
          ⊎ ((allocated_username ≡ []) ⊎ ((turn_login ssl cfg now user).0 ≡ allocated_username))
        → let given = turn_login ssl cfg now user in
          (authenticate ssl realm cfg.shared_secret nonces steady system msg raw allocated_username
            ≡ ret accepted)
          ↔ ((system ≤ now + cfg.ttl) × (verify ssl realm msg raw given.0 given.1 ≡ ret true))
    unfolding authenticate
    turn_login-authenticate username realm_attr nonce small some_password req has_user named
          has_realm has_nonce valid integrity own =
        let given = turn_login ssl cfg now user in
        let iff = check_password-turn_login some_password own in
        let reached : authenticate ssl realm cfg.shared_secret nonces steady system msg raw
              allocated_username
            ≡ (if ltb (now + cfg.ttl) system
                then ret credentials_expired
                else check_password ssl realm cfg.shared_secret msg raw given.0
                    allocated_username) =
          rw (authenticate, req, has_user, has_realm, has_nonce, integrity)
            (subst
              (λ name.
                check_nonce ssl realm cfg.shared_secret nonces steady system msg raw name
                  nonce.value allocated_username
                ≡ (if ltb (now + cfg.ttl) system
                    then ret credentials_expired
                    else check_password ssl realm cfg.shared_secret msg raw given.0
                        allocated_username))
              (sym named) (check_nonce-turn_login nonce.value small valid)) in
        elim (Bool-cases (ltb (now + cfg.ttl) system)) [
          | inl late ↦
              let refused = rw late at reached in
              (λ e. absurd (cc), λ e. absurd (ground (arith, late, e.0)))
          | inr in_time ↦
              let checked = rw in_time at reached in
              (λ e. (ground (arith, in_time), iff.0 (sym checked ∙ e)), λ e. checked ∙ iff.1 e.1)
        ]
