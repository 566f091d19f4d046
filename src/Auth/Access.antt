-- ===== src/Auth/Access.antt =====
-- What a request must have to be accepted.
use zaza.Common.{
  ℕ, ◌≡◌, refl, inl, inr, arith, ◌⊎◌, true, false, Bytes, [], some, bytes_eq, bytes_beq_iff,
  Bool-cases, Option-cases,
}
use zaza.Common.Checked.{Checked, ret, no_fuel}
use zaza.Message.AttrType
use zaza.Message.AttrType.{AttrType}
use zaza.Message.Types.{TurnMessage, Attribute, find_attr}
use zaza.Auth.Crypto.{OpenSsl}
use zaza.Common.Integers.{ℤ}
use zaza.Auth.Stoll.{is_past, stoll}
use zaza.Auth.Nonce.{NonceManager, is_valid}
use zaza.Auth.HmacValidator.{before_colon, get_password}
use zaza.Auth.LongTermCred.{
  accepted, is_indication, is_allocate, verify, check_password, check_nonce, has_integrity,
  authenticate,
}

Checked-cases :
    {A : Type 0} (m : Checked A)
    → ((a : A) × (m ≡ ret a)) ⊎ ((m ≡ no_fuel) ⊎ (m ≡ Checked.bad_access))
Checked-cases (ret a) = inl (a, refl)
Checked-cases no_fuel = inr (inl refl)
Checked-cases Checked.bad_access = inr (inr refl)

-- Why a request of a user name, with a nonce, was accepted.
pub record Proven (ssl : OpenSsl) (realm shared_secret : Bytes) (nonces : NonceManager)
    (steady system : ℕ) (msg : TurnMessage) (raw username nonce allocated_username : Bytes)
    : Type 0 where
  pub front : Bytes
  pub expiry : ℤ
  pub fresh : is_valid nonces nonce steady ≡ true
  pub has_front : before_colon username ≡ some front
  pub has_expiry : stoll front ≡ some expiry
  pub in_time : is_past expiry system ≡ false
  pub verified :
      verify ssl realm msg raw username (get_password ssl shared_secret username) ≡ ret true
  pub own :
      (is_allocate msg.method ≡ true)
      ⊎ ((allocated_username ≡ []) ⊎ (username ≡ allocated_username))

pub check_password-accepted :
    (ssl : OpenSsl) (realm shared_secret : Bytes) (msg : TurnMessage)
    (raw username allocated_username : Bytes)
    → check_password ssl realm shared_secret msg raw username allocated_username ≡ ret accepted
    → (verify ssl realm msg raw username (get_password ssl shared_secret username) ≡ ret true)
      × ((is_allocate msg.method ≡ true)
          ⊎ ((allocated_username ≡ []) ⊎ (username ≡ allocated_username)))
unfolding check_password
check_password-accepted ssl realm shared_secret msg raw username allocated_username q =
    elim (Checked-cases
      (verify ssl realm msg raw username (get_password ssl shared_secret username))) [
        | inl (true, v) ↦ (
          v,
          ground (
            arith,
            v,
            bytes_beq_iff allocated_username [],
            bytes_beq_iff username allocated_username,
          ),
        )
        | inl (false, v) ↦ absurd (ground (arith, v))
        | inr (inl v) ↦ absurd (ground (arith, v))
        | inr (inr v) ↦ absurd (ground (arith, v))
      ]

check_nonce-accepted :
    (ssl : OpenSsl) (realm shared_secret : Bytes) (nonces : NonceManager) (steady system : ℕ)
    (msg : TurnMessage) (raw username nonce allocated_username : Bytes)
    → check_nonce ssl realm shared_secret nonces steady system msg raw username nonce
        allocated_username
      ≡ ret accepted
    → Proven ssl realm shared_secret nonces steady system msg raw username nonce allocated_username
unfolding check_nonce
check_nonce-accepted ssl realm shared_secret nonces steady system msg raw username nonce
      allocated_username q =
    elim (Bool-cases (is_valid nonces nonce steady)) [
      | inr stale ↦ absurd (ground (arith, stale))
      | inl fresh ↦ elim (Option-cases (before_colon username)) [
        | inl missing ↦ absurd (ground (arith, fresh, missing))
        | inr (front, has_front) ↦ elim (Option-cases (stoll front)) [
          | inl thrown ↦ absurd (ground (arith, fresh, has_front, thrown))
          | inr (expiry, has_expiry) ↦ elim (Bool-cases (is_past expiry system)) [
            | inl past ↦ absurd (ground (arith, fresh, has_front, has_expiry, past))
            | inr in_time ↦
                let passed : check_password ssl realm shared_secret msg raw username
                      allocated_username
                    ≡ ret accepted =
                  rw (fresh, has_front, has_expiry, in_time, check_nonce) at q in
                let (verified, own) =
                  check_password-accepted ssl realm shared_secret msg raw username
                    allocated_username passed in
                record {
                  front = front;
                  expiry = expiry;
                  fresh = fresh;
                  has_front = has_front;
                  has_expiry = has_expiry;
                  in_time = in_time;
                  verified = verified;
                  own = own;
                }
          ]
        ]
      ]
    ]

-- A request that is accepted, and is no indication, has a user name and a nonce such that: the
-- nonce is valid; the user name starts with a time that has not passed; the message integrity is
-- that of the password which belongs to the user name; and, but for an Allocate request, the
-- client has no allocation or one of the same user.
pub authenticate-accepted :
    (ssl : OpenSsl) (realm shared_secret : Bytes) (nonces : NonceManager) (steady system : ℕ)
    (msg : TurnMessage) (raw allocated_username : Bytes)
    → is_indication msg.msg_class ≡ false
    → authenticate ssl realm shared_secret nonces steady system msg raw allocated_username
      ≡ ret accepted
    → (username : Attribute) × (nonce : Attribute) × (find_attr msg AttrType.username
        ≡ some username)
      × (find_attr msg AttrType.nonce ≡ some nonce)
      × Proven ssl realm shared_secret nonces steady system msg raw username.value nonce.value
          allocated_username
unfolding authenticate
authenticate-accepted ssl realm shared_secret nonces steady system msg raw allocated_username i q =
    elim (Option-cases (find_attr msg AttrType.username)) [
      | inl n ↦ absurd (ground (arith, i, n))
      | inr (username, u) ↦ elim (Option-cases (find_attr msg AttrType.realm)) [
        | inl n ↦ absurd (ground (arith, i, u, n))
        | inr (realm_attr, r) ↦ elim (Option-cases (find_attr msg AttrType.nonce)) [
          | inl n ↦ absurd (ground (arith, i, u, r, n))
          | inr (nonce, o) ↦ elim (Bool-cases (has_integrity msg)) [
            | inr n ↦ absurd (ground (arith, i, u, r, o, n))
            | inl h ↦
                let checked : check_nonce ssl realm shared_secret nonces steady system msg raw
                      username.value nonce.value allocated_username
                    ≡ ret accepted =
                  rw (i, u, r, o, h, authenticate) at q in
                (
                  username,
                  nonce,
                  u,
                  o,
                  check_nonce-accepted ssl realm shared_secret nonces steady system msg raw
                      username.value nonce.value allocated_username checked,
                )
          ]
        ]
      ]
    ]
