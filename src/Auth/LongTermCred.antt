-- ===== src/Auth/LongTermCred.antt =====
-- turn_server/src/auth/long_term_cred.cpp. Every read of the raw message checks its index.
use zaza.Common.{
  ℕ, zero, suc, ◌+◌, ◌-◌, ◌%◌, ◌^◌, Bool, true, false, not, ◌&&◌, Bytes, [], ◌++◌, Option, none,
  some, ltb, leb, ◌==◌, same, bytes_eq, if◌then◌else◌, length, take, set, replicate, word16,
  byte_at,
}
use zaza.Common.Checked.{Checked, ret, no_fuel, ◌>>=◌, read, read_range}
use zaza.Message.AttrType
use zaza.Message.AttrType.{AttrType}
use zaza.Message.Types.{
  TurnMessage, find_attr, MessageClass, request, indication, success_response, error_response,
  Method, allocate, refresh, send, data_method, create_permission, channel_bind, unknown,
}
use zaza.Message.Parser.{read_attr_header, padding}
use zaza.Auth.Crypto.{OpenSsl, constant_time_compare, long_term_key, long_term_key_md5}
use zaza.Auth.Stoll.{is_past, stoll}
use zaza.Auth.Nonce.{NonceManager, is_valid}
use zaza.Auth.HmacValidator.{before_colon, get_password}

pub data AuthResult : Type 0 where
  accepted missing_credentials stale_nonce bad_integrity wrong_credentials credentials_expired :
      AuthResult

-- The loop that looks for the attribute of a type, in both functions below. `limit` is
-- `20u + attrs_len`.
unfoldable pub find_integrity : ℕ → Bytes → ℕ → AttrType → ℕ → Checked (Option ℕ)
unfolding read_attr_header
find_integrity zero raw limit wanted offset = no_fuel
find_integrity (suc fuel) raw limit wanted offset =
    elim (leb (offset + 4) limit && leb (offset + 4) (length raw)) [
      | false ↦ ret none
      | true ↦ read_attr_header raw offset >>= λ header. elim (header.0 == wanted) [
        | true ↦ ret (some offset)
        | false ↦ find_integrity fuel raw limit wanted (offset + 4 + header.1 + padding header.1)
      ]
    ]

-- The length field of the copy that is hashed.
unfoldable pub with_length : Bytes → ℕ → Bytes
with_length buf len = set (set buf 2 (byte_at len 8)) 3 (byte_at len 0)

-- Behind the loop of `verifyMessageIntegrity`.
unfoldable pub verify_at : OpenSsl → Bytes → Bytes → Bytes → Bytes → ℕ → Checked Bool
unfolding with_length constant_time_compare long_term_key
verify_at ssl realm raw username password mi_pos =
    if ltb (length raw) (mi_pos + 4 + 32)
    then ret false
    else (read_range raw 0 (mi_pos + 4 + 32) >>= λ copy.
        read_range raw (mi_pos + 4) 32 >>= λ expected.
        let adjusted_len = (mi_pos - 20 + 4 + 32) % 2 ^ 16 in
        let buf = take (mi_pos + 4) (with_length copy adjusted_len) ++ replicate 32 0x00 in
        let computed = ssl.hmac_sha256 (long_term_key ssl username realm password) buf in
        ret (constant_time_compare ssl computed expected))

-- Each round of the loop moves on by 4 bytes at least, so the size of the message is fuel enough.
unfoldable pub verify_message_integrity : OpenSsl → Bytes → Bytes → Bytes → Bytes → Checked Bool
unfolding find_integrity verify_at
verify_message_integrity ssl realm raw username password =
    if ltb (length raw) 20
    then ret false
    else (read raw 2 >>= λ l1. read raw 3 >>= λ l0.
        find_integrity (suc (length raw)) raw (20 + word16 l1 l0) AttrType.message_integrity_sha256
          20
        >>= λ found. elim found [
          | none ↦ ret false
          | some mi_pos ↦ verify_at ssl realm raw username password mi_pos
        ])

-- Behind the loop of `verifyMessageIntegrityMd5`.
unfoldable pub verify_at_md5 : OpenSsl → Bytes → Bytes → Bytes → Bytes → ℕ → Checked Bool
unfolding with_length constant_time_compare long_term_key_md5
verify_at_md5 ssl realm raw username password mi_pos =
    if ltb (length raw) (mi_pos + 4 + 20)
    then ret false
    else (read_range raw 0 mi_pos >>= λ copy. read_range raw (mi_pos + 4) 20 >>= λ expected.
        let adjusted_len = (mi_pos - 20 + 4 + 20) % 2 ^ 16 in
        let computed =
          ssl.hmac_sha1 (long_term_key_md5 ssl username realm password)
            (with_length copy adjusted_len) in
        ret (constant_time_compare ssl computed expected))

unfoldable pub verify_message_integrity_md5 : OpenSsl → Bytes → Bytes → Bytes → Bytes → Checked Bool
unfolding find_integrity verify_at_md5
verify_message_integrity_md5 ssl realm raw username password =
    if ltb (length raw) 20
    then ret false
    else (read raw 2 >>= λ l1. read raw 3 >>= λ l0.
        find_integrity (suc (length raw)) raw (20 + word16 l1 l0) AttrType.message_integrity 20
        >>= λ found. elim found [
          | none ↦ ret false
          | some mi_pos ↦ verify_at_md5 ssl realm raw username password mi_pos
        ])

abbrev pub is_allocate : Method → Bool
is_allocate allocate = true
is_allocate refresh = false
is_allocate send = false
is_allocate data_method = false
is_allocate create_permission = false
is_allocate channel_bind = false
is_allocate unknown = false

abbrev pub is_indication : MessageClass → Bool
is_indication request = false
is_indication indication = true
is_indication success_response = false
is_indication error_response = false

-- The check of the two integrity attributes: the SHA-256 one is used where it is there.
unfoldable pub verify : OpenSsl → Bytes → TurnMessage → Bytes → Bytes → Bytes → Checked Bool
unfolding verify_message_integrity verify_message_integrity_md5
verify ssl realm msg raw username password =
    elim (find_attr msg AttrType.message_integrity_sha256) [
      | some _ ↦ verify_message_integrity ssl realm raw username password
      | none ↦ verify_message_integrity_md5 ssl realm raw username password
    ]

-- `authenticate` behind the test of the expiry.
unfoldable pub check_password :
    OpenSsl → Bytes → Bytes → TurnMessage → Bytes → Bytes → Bytes → Checked AuthResult
unfolding verify get_password
check_password ssl realm shared_secret msg raw username allocated_username =
    let password = get_password ssl shared_secret username in
    if same password []
    then ret bad_integrity
    else (verify ssl realm msg raw username password >>= λ verified.
        if not verified
        then ret bad_integrity
        else if not (is_allocate msg.method)
            && not (same allocated_username [])
            && not (same username allocated_username)
        then ret wrong_credentials
        else ret accepted)

-- From the lookup of the nonce on. `steady` and `system` are the times on the two clocks.
unfoldable pub check_nonce :
    OpenSsl
    → Bytes
    → Bytes
    → NonceManager
    → ℕ
    → ℕ
    → TurnMessage
    → Bytes
    → Bytes
    → Bytes
    → Bytes
    → Checked AuthResult
unfolding check_password before_colon
check_nonce ssl realm shared_secret nonces steady system msg raw username nonce allocated_username =
    if not (is_valid nonces nonce steady) then ret stale_nonce else elim (before_colon username) [
      | none ↦ ret bad_integrity
      | some front ↦ elim (stoll front) [
        | none ↦ ret bad_integrity
        | some expiry ↦
            if is_past expiry system
            then ret credentials_expired
            else check_password ssl realm shared_secret msg raw username allocated_username
      ]
    ]

abbrev pub has_integrity : TurnMessage → Bool
has_integrity msg = elim (find_attr msg AttrType.message_integrity_sha256) [
  | some _ ↦ true
  | none ↦ elim (find_attr msg AttrType.message_integrity) [ some _ ↦ true | none ↦ false ]
]

unfoldable pub authenticate :
    OpenSsl
    → Bytes
    → Bytes
    → NonceManager
    → ℕ
    → ℕ
    → TurnMessage
    → Bytes
    → Bytes
    → Checked AuthResult
unfolding check_nonce
authenticate ssl realm shared_secret nonces steady system msg raw allocated_username =
    if is_indication msg.msg_class then ret accepted else elim (find_attr msg AttrType.username) [
      | none ↦ ret missing_credentials
      | some username ↦ elim (find_attr msg AttrType.realm) [
        | none ↦ ret missing_credentials
        | some _ ↦ elim (find_attr msg AttrType.nonce) [
          | none ↦ ret missing_credentials
          | some nonce ↦
              if not (has_integrity msg)
              then ret missing_credentials
              else check_nonce ssl realm shared_secret nonces steady system msg raw username.value
                  nonce.value allocated_username
        ]
      ]
    ]
