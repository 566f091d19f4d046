-- ===== src/Auth/Nonce.antt =====
-- turn_server/src/auth/nonce_manager.cpp. Time is in seconds on the steady clock; the bytes of the
-- random generator are an argument, one text of 16 bytes for each call of `RAND_bytes`, which is
-- taken not to fail.
use zaza.Common.{
  ℕ, zero, suc, ◌+◌, ◌-◌, ◌/◌, ◌%◌, ◌≡◌, refl, inl, inr, arith, Bool, false, Bytes, [], ◌∷◌, none,
  some, ltb, leb, if◌then◌else◌, Map, lookup, insert, erase, same, bytes_eq, Option-cases, subst,
  lookup-insert_self, lookup-insert_diff,
}
use zaza.Common.Checked.{Checked, ret, no_fuel}

pub record NonceManager : Type 0 where
  pub ttl : ℕ
  pub store : Map Bytes ℕ

hex_digit : ℕ → ℕ
hex_digit d = if ltb d 10 then d + b'0' else d - 10 + b'a'

-- `generateRandom`, from the bytes that `RAND_bytes` gave.
unfoldable pub generate_random : Bytes → Bytes
unfolding hex_digit
generate_random [] = []
generate_random (b ∷ buf) = hex_digit (b / 16) ∷ hex_digit (b % 16) ∷ generate_random buf

-- The loop of `generate`, from the draw with the number `i` on. It ends when a text is drawn that
-- is not in use, and has no bound of its own.
unfoldable pub generate_loop : ℕ → (ℕ → Bytes) → ℕ → Map Bytes ℕ → Checked Bytes
unfolding generate_random
generate_loop zero draws i store = no_fuel
generate_loop (suc fuel) draws i store = elim (lookup (generate_random (draws i)) store) [
  | none ↦ ret (generate_random (draws i))
  | some _ ↦ generate_loop fuel draws (suc i) store
]

unfoldable pub generate : NonceManager → ℕ → (ℕ → Bytes) → ℕ → Checked (NonceManager × Bytes)
unfolding generate_loop
generate m fuel draws now = elim (generate_loop fuel draws 0 m.store) [
  | ret nonce ↦ ret (record m { store = insert nonce (now + m.ttl) m.store }, nonce)
  | no_fuel ↦ no_fuel
  | Checked.bad_access ↦ Checked.bad_access
]

unfoldable pub is_valid : NonceManager → Bytes → ℕ → Bool
is_valid m nonce now = elim (lookup nonce m.store) [ none ↦ false | some end ↦ ltb now end ]

unfoldable pub invalidate : NonceManager → Bytes → NonceManager
invalidate m nonce = record m { store = erase nonce m.store }

-- The loop of `cleanup`.
unfoldable pub cleanup_loop : ℕ → Map Bytes ℕ → Map Bytes ℕ
cleanup_loop now [] = []
cleanup_loop now ((nonce, end) ∷ rest) =
    if leb end now then cleanup_loop now rest else (nonce, end) ∷ cleanup_loop now rest

unfoldable pub cleanup : NonceManager → ℕ → NonceManager
unfolding cleanup_loop
cleanup m now = record m { store = cleanup_loop now m.store }

-- A draw that is not in use ends the loop, with a nonce that is not in use.
pub generate_loop-fresh :
    (k : ℕ) (draws : ℕ → Bytes) (i : ℕ) (store : Map Bytes ℕ)
    → lookup (generate_random (draws (k + i))) store ≡ none
    → (nonce : Bytes) × (generate_loop (suc k) draws i store ≡ ret nonce)
      × (lookup nonce store ≡ none)
unfolding generate_loop
generate_loop-fresh zero draws i store h =
    let e : 0 + i ≡ i = omega arith in
    let h' = subst (λ n. lookup (generate_random (draws n)) store ≡ none) e h in
    (generate_random (draws i), rw (h', generate_loop) refl, h')
generate_loop-fresh (suc k) draws i store h =
    elim (Option-cases (lookup (generate_random (draws i)) store)) [
      | inl free ↦ (generate_random (draws i), rw (free, generate_loop) refl, free)
      | inr (end, used) ↦
          let e : suc k + i ≡ k + suc i = omega arith in
          let (nonce, runs, free) =
            generate_loop-fresh k draws (suc i) store
              (subst (λ n. lookup (generate_random (draws n)) store ≡ none) e h) in
          (nonce, rw (used, generate_loop) runs, free)
    ]

generate-stores :
    (m : NonceManager) (nonce : Bytes) (fuel : ℕ) (draws : ℕ → Bytes) (now : ℕ)
    → generate_loop fuel draws 0 m.store ≡ ret nonce
    → generate m fuel draws now
      ≡ ret (record m { store = insert nonce (now + m.ttl) m.store }, nonce)
unfolding generate
generate-stores m nonce fuel draws now runs = rw (runs, generate) refl

stored_until :
    (m : NonceManager) (nonce : Bytes) (now : ℕ)
    → let m' : NonceManager = record m { store = insert nonce (now + m.ttl) m.store } in
      ((t : ℕ) → is_valid m' nonce t ≡ ltb t (now + m.ttl))
      × ((other : Bytes) (t : ℕ)
          → same nonce other ≡ false
          → is_valid m' other t ≡ is_valid m other t)
unfolding is_valid
stored_until m nonce now = (
  λ t. rw (lookup-insert_self nonce (now + m.ttl) m.store, is_valid) refl,
  λ other t miss. rw (lookup-insert_diff nonce other (now + m.ttl) m.store miss, is_valid) refl,
)

-- As soon as one of the draws is not in use, `generate` gives a nonce: one that was not stored, that
-- is valid for exactly the lifetime of nonces, and every other nonce is as valid as before.
pub generate-is_valid :
    (m : NonceManager) (k : ℕ) (draws : ℕ → Bytes) (now : ℕ)
    → lookup (generate_random (draws k)) m.store ≡ none
    → (m' : NonceManager) × (nonce : Bytes) × (generate m (suc k) draws now ≡ ret (m', nonce))
      × (lookup nonce m.store ≡ none)
      × ((t : ℕ) → is_valid m' nonce t ≡ ltb t (now + m.ttl))
      × ((other : Bytes) (t : ℕ)
          → same nonce other ≡ false
          → is_valid m' other t ≡ is_valid m other t)
generate-is_valid m k draws now h =
    let e : k ≡ k + 0 = omega arith in
    let (nonce, runs, free) =
      generate_loop-fresh k draws 0 m.store
        (subst (λ n. lookup (generate_random (draws n)) m.store ≡ none) e h) in
    (
      record m { store = insert nonce (now + m.ttl) m.store },
      nonce,
      generate-stores m nonce (suc k) draws now runs,
      free,
      (stored_until m nonce now).0,
      (stored_until m nonce now).1,
    )
