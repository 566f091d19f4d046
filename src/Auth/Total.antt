-- ===== src/Auth/Total.antt =====
-- The check of a request reads inside of the message only, and ends.
use zaza.Common.{
  ℕ, zero, suc, ◌+◌, ◌<◌, ◌≡◌, inl, inr, arith, Bool, true, false, not, ◌&&◌, Bytes, [], Option,
  none, some, ltb, leb, ◌==◌, same, bytes_eq, if◌then◌else◌, length, Bool-cases, Option-cases,
}
use zaza.Common.Checked.{Checked, ret}
use zaza.Message.AttrType
use zaza.Message.AttrType.{AttrType}
use zaza.Message.Types.{TurnMessage, find_attr}
use zaza.Message.Safety.{
  Returns, ret-Returns, >>=-Returns, read-Returns, read_range-Returns, read_attr_header-Returns,
  test-Returns,
}
use zaza.Auth.Crypto.{OpenSsl}
use zaza.Auth.Stoll.{is_past, stoll}
use zaza.Auth.Nonce.{NonceManager, is_valid}
use zaza.Auth.HmacValidator.{before_colon, get_password}
use zaza.Auth.LongTermCred.{
  AuthResult, find_integrity, verify_at, verify_message_integrity, verify_at_md5,
  verify_message_integrity_md5, is_indication, verify, check_password, check_nonce, has_integrity,
  authenticate,
}

find_integrity-Returns :
    (fuel : ℕ) (raw : Bytes) (limit : ℕ) (wanted : AttrType) (offset : ℕ)
    → 0 < fuel
    → length raw < offset + fuel
    → Returns (find_integrity fuel raw limit wanted offset)
unfolding find_integrity
find_integrity-Returns zero raw limit wanted offset p k = absurd (omega arith)
find_integrity-Returns (suc fuel) raw limit wanted offset p k =
    elim (Bool-cases (leb (offset + 4) limit && leb (offset + 4) (length raw))) [
      | inr done ↦ rw (done, find_integrity) (ret-Returns _)
      | inl more ↦
          rw (more, find_integrity)
            (>>=-Returns (read_attr_header-Returns raw offset (ground arith)) λ header.
              elim (Bool-cases (header.0 == wanted)) [
                | inl hit ↦ rw hit (ret-Returns _)
                | inr miss ↦
                    rw miss
                      (find_integrity-Returns fuel raw limit wanted _ (ground arith) (ground arith))
              ])
    ]

found-Returns :
    {f : ℕ → Checked Bool} (found : Option ℕ)
    → ((mi_pos : ℕ) → Returns (f mi_pos))
    → Returns (elim found as (λ _. Checked Bool) [ none ↦ ret false | some mi_pos ↦ f mi_pos ])
found-Returns none h = ret-Returns false
found-Returns (some mi_pos) h = h mi_pos

verify_at-Returns :
    (ssl : OpenSsl) (realm raw username password : Bytes) (mi_pos : ℕ)
    → Returns (verify_at ssl realm raw username password mi_pos)
unfolding verify_at
verify_at-Returns ssl realm raw username password mi_pos =
    test-Returns (ltb (length raw) (mi_pos + 4 + 32)) (ret-Returns false) λ holds.
      >>=-Returns (read_range-Returns raw 0 (mi_pos + 4 + 32) (ground arith)) λ copy.
        >>=-Returns (read_range-Returns raw (mi_pos + 4) 32 (ground arith))
          λ expected. ret-Returns _

verify_at_md5-Returns :
    (ssl : OpenSsl) (realm raw username password : Bytes) (mi_pos : ℕ)
    → Returns (verify_at_md5 ssl realm raw username password mi_pos)
unfolding verify_at_md5
verify_at_md5-Returns ssl realm raw username password mi_pos =
    test-Returns (ltb (length raw) (mi_pos + 4 + 20)) (ret-Returns false) λ holds.
      >>=-Returns (read_range-Returns raw 0 mi_pos (ground arith)) λ copy.
        >>=-Returns (read_range-Returns raw (mi_pos + 4) 20 (ground arith))
          λ expected. ret-Returns _

verify_message_integrity-Returns :
    (ssl : OpenSsl) (realm raw username password : Bytes)
    → Returns (verify_message_integrity ssl realm raw username password)
unfolding verify_message_integrity
verify_message_integrity-Returns ssl realm raw username password =
    test-Returns (ltb (length raw) 20) (ret-Returns false) λ fits.
      >>=-Returns (read-Returns raw 2 (ground arith)) λ l1.
        >>=-Returns (read-Returns raw 3 (ground arith)) λ l0.
          >>=-Returns
            (find_integrity-Returns (suc (length raw)) raw _ _ 20 (omega arith) (omega arith))
            λ found.
              found-Returns found λ mi_pos. verify_at-Returns ssl realm raw username password mi_pos

verify_message_integrity_md5-Returns :
    (ssl : OpenSsl) (realm raw username password : Bytes)
    → Returns (verify_message_integrity_md5 ssl realm raw username password)
unfolding verify_message_integrity_md5
verify_message_integrity_md5-Returns ssl realm raw username password =
    test-Returns (ltb (length raw) 20) (ret-Returns false) λ fits.
      >>=-Returns (read-Returns raw 2 (ground arith)) λ l1.
        >>=-Returns (read-Returns raw 3 (ground arith)) λ l0.
          >>=-Returns
            (find_integrity-Returns (suc (length raw)) raw _ _ 20 (omega arith) (omega arith))
            λ found.
              found-Returns found
                λ mi_pos. verify_at_md5-Returns ssl realm raw username password mi_pos

verify-Returns :
    (ssl : OpenSsl) (realm : Bytes) (msg : TurnMessage) (raw username password : Bytes)
    → Returns (verify ssl realm msg raw username password)
unfolding verify
verify-Returns ssl realm msg raw username password =
    elim (Option-cases (find_attr msg AttrType.message_integrity_sha256)) [
      | inl n ↦
          rw (n, verify) (verify_message_integrity_md5-Returns ssl realm raw username password)
      | inr (a, y) ↦
          rw (y, verify) (verify_message_integrity-Returns ssl realm raw username password)
    ]

pub if-Returns :
    {A : Type 0} (b : Bool) {m n : Checked A} → Returns m → Returns n → Returns (if b then m else n)
if-Returns true h k = h
if-Returns false h k = k

check_password-Returns :
    (ssl : OpenSsl) (realm shared_secret : Bytes) (msg : TurnMessage)
    (raw username allocated_username : Bytes)
    → Returns (check_password ssl realm shared_secret msg raw username allocated_username)
unfolding check_password
check_password-Returns ssl realm shared_secret msg raw username allocated_username =
    if-Returns (same (get_password ssl shared_secret username) []) (ret-Returns _) (
      >>=-Returns
        (verify-Returns ssl realm msg raw username (get_password ssl shared_secret username))
        λ verified.
          if-Returns (not verified) (ret-Returns _) (if-Returns _ (ret-Returns _) (ret-Returns _)))

check_nonce-Returns :
    (ssl : OpenSsl) (realm shared_secret : Bytes) (nonces : NonceManager) (steady system : ℕ)
    (msg : TurnMessage) (raw username nonce allocated_username : Bytes)
    → Returns (
        check_nonce ssl realm shared_secret nonces steady system msg raw username nonce
          allocated_username)
unfolding check_nonce
check_nonce-Returns ssl realm shared_secret nonces steady system msg raw username nonce
      allocated_username =
    if-Returns (not (is_valid nonces nonce steady)) (ret-Returns _)
      (elim (Option-cases (before_colon username)) [
        | inl n ↦ rw n (ret-Returns _)
        | inr (front, y) ↦ rw y (elim (Option-cases (stoll front)) [
          | inl n ↦ rw n (ret-Returns _)
          | inr (expiry, y') ↦ rw y' (
              if-Returns (is_past expiry system) (ret-Returns _) (
                check_password-Returns ssl realm shared_secret msg raw username allocated_username))
        ])
      ])

-- The check of a request reads inside of the message only and comes to a result, for every
-- message, whatever its lengths say.
pub authenticate-total :
    (ssl : OpenSsl) (realm shared_secret : Bytes) (nonces : NonceManager) (steady system : ℕ)
    (msg : TurnMessage) (raw allocated_username : Bytes)
    → (r : AuthResult) × (authenticate ssl realm shared_secret nonces steady system msg raw
          allocated_username
        ≡ ret r)
unfolding authenticate
authenticate-total ssl realm shared_secret nonces steady system msg raw allocated_username =
    let h : Returns
        (authenticate ssl realm shared_secret nonces steady system msg raw allocated_username) =
      if-Returns (is_indication msg.msg_class) (ret-Returns _)
        (elim (Option-cases (find_attr msg AttrType.username)) [
          | inl n ↦ rw n (ret-Returns _)
          | inr (username, u) ↦ rw u (elim (Option-cases (find_attr msg AttrType.realm)) [
            | inl n ↦ rw n (ret-Returns _)
            | inr (realm_attr, r) ↦ rw r (elim (Option-cases (find_attr msg AttrType.nonce)) [
              | inl n ↦ rw n (ret-Returns _)
              | inr (nonce, o) ↦ rw o (
                  if-Returns (not (has_integrity msg)) (ret-Returns _) (
                    check_nonce-Returns ssl realm shared_secret nonces steady system msg raw
                      username.value nonce.value allocated_username))
            ])
          ])
        ]) in
    (h.result, h.is_ret)
