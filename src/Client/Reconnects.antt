-- ===== src/Client/Reconnects.antt =====
-- client_cli/src/signaling/ws_client.cpp: when the client connects again.
use zaza.Common.{
  ℕ, zero, suc, ◌+◌, ◌*◌, ◌≡◌, ◌≤◌, ◌<◌, refl, sym, ap, ◌∙◌, inl, inr, arith, Bool, true, false,
  Bytes, ltb, min, if◌then◌else◌, if_false, if_both, Bool-cases,
}
use zaza.Client.WsClient.{
  Dial, refused, not_upgraded, upgraded, is_up, WsClient, Ended, returns, raises, terminates, dial,
  connect_client, on_login, on_read_error, attempt_client, Retried, reconnected, stopped, gave_up,
  after_attempt, wait, retry, reconnect_loop,
}

-- The sleeps in front of that many attempts, the first of them as long as given.
unfoldable pub slept : ℕ → ℕ → ℕ
slept zero delay = 0
slept (suc n) delay = delay + slept n (min (delay * 2) 30000)

slept-ten : slept 10 500 ≡ 151500
unfolding slept
slept-ten = refl

-- What the attempts keep, and how they end.
attempt_client-up :
    (w : WsClient) (d : Dial)
    → is_up d ≡ true
    → (w' : WsClient) × (attempt_client w d ≡ returns w')
      × (w'.connected ≡ true)
      × (w'.last_token ≡ w.last_token)
unfolding attempt_client connect_client dial
attempt_client-up w refused up = absurd (cc)
attempt_client-up w not_upgraded up = absurd (cc)
attempt_client-up w upgraded up =
    (record w { stream = true; connected = true; read_thread = true }, refl, refl, refl)

attempt_client-down :
    (w : WsClient) (d : Dial)
    → is_up d ≡ false
    → (w' : WsClient) × (attempt_client w d ≡ raises w') × (w'.last_token ≡ w.last_token)
unfolding attempt_client connect_client dial
attempt_client-down w refused down = (record w { stream = false; read_thread = false }, refl, refl)
attempt_client-down w not_upgraded down =
    (record w { stream = true; read_thread = false }, refl, refl)
attempt_client-down w upgraded down = absurd (cc)

module _ (stops : ℕ → Bool) (dials : ℕ → Dial) (never : (t : ℕ) → stops t ≡ false) where
  wait-whole :
      (fuel now elapsed k delay : ℕ)
      → delay ≡ elapsed + 100 * k
      → k ≤ fuel
      → wait stops dials fuel now elapsed delay ≡ delay
  unfolding wait
  wait-whole zero now elapsed k delay e h = omega (arith, h, e)
  wait-whole (suc fuel) now elapsed zero delay e h =
      let over : ltb elapsed delay ≡ false = ground (arith, e) in rw over (omega (arith, e))
  wait-whole (suc fuel) now elapsed (suc k) delay e h =
      let under : ltb elapsed delay ≡ true = ground (arith, e) in
      rw (under, never (now + elapsed))
        (wait-whole fuel now (elapsed + 100) k delay (omega (arith, e)) (omega (arith, h)))

  go_on :
      (left attempt delay now m : ℕ) (w : WsClient)
      → delay ≡ 100 * m
      → retry stops dials (suc left) attempt delay now w
        ≡ after_attempt
            (attempt_client w (dials attempt))
            (retry stops dials left (attempt + 1) (min (delay * 2) 30000) (now + delay))
            (now + delay)
  unfolding retry
  go_on left attempt delay now m w e =
      let end_of : ℕ → Retried = λ later.
        after_attempt (attempt_client w (dials attempt))
          (retry stops dials left (attempt + 1) (min (delay * 2) 30000) later) later in
      let body : ℕ → Retried = λ later.
        if stops now then gave_up now else if stops later then stopped later else end_of later in
      ap (λ t. body (now + t))
        (wait-whole delay now 0 m delay (omega (arith, e)) (omega (arith, e)))
      ∙ if_false (gave_up now)
          (if stops (now + delay) then stopped (now + delay) else end_of (now + delay)) (stops now)
          (never now)
      ∙ if_false (stopped (now + delay)) (end_of (now + delay)) (stops (now + delay))
          (never (now + delay))

  retry-reconnected :
      (k left attempt delay now m : ℕ) (w : WsClient)
      → delay ≡ 100 * m
      → k < left
      → ((i : ℕ) → i < k → is_up (dials (attempt + i)) ≡ false)
      → is_up (dials (attempt + k)) ≡ true
      → (w' : WsClient) × (retry stops dials left attempt delay now w
          ≡ reconnected w' (now + slept (suc k) delay))
        × (w'.connected ≡ true)
        × (w'.last_token ≡ w.last_token)
  unfolding slept after_attempt
  retry-reconnected k zero attempt delay now m w e h down up = absurd (omega (arith, h))
  retry-reconnected zero (suc left) attempt delay now m w e h down up =
      let same_attempt : attempt + 0 ≡ attempt = omega arith in
      let (w', run, on, token) =
        attempt_client-up w (dials attempt) (ap (λ a. is_up (dials a)) (sym same_attempt) ∙ up) in
      let next = retry stops dials left (attempt + 1) (min (delay * 2) 30000) (now + delay) in
      let total : now + delay ≡ now + (delay + 0) = omega arith in
      (
        w',
        go_on left attempt delay now m w e
            ∙ ap (λ d. after_attempt d next (now + delay)) run
            ∙ ap (reconnected w') total,
        on,
        token,
      )
  retry-reconnected (suc k) (suc left) attempt delay now m w e h down up =
      let same_attempt : attempt + 0 ≡ attempt = omega arith in
      let (w1, run, token1) =
        attempt_client-down w (dials attempt)
          (ap (λ a. is_up (dials a)) (sym same_attempt) ∙ down 0 (omega arith)) in
      let next_delay = min (delay * 2) 30000 in
      let shift : (i : ℕ) → attempt + 1 + i ≡ attempt + suc i = λ i. omega arith in
      let (w', later, on, token) =
        retry-reconnected k left (attempt + 1) next_delay (now + delay) (min (m * 2) 300) w1
          (omega (arith, e)) (omega (arith, h))
          (λ i l. ap (λ a. is_up (dials a)) (shift i) ∙ down (suc i) (omega (arith, l)))
          (ap (λ a. is_up (dials a)) (shift k) ∙ up) in
      let next = retry stops dials left (attempt + 1) next_delay (now + delay) in
      let total : now + delay + slept (suc k) next_delay
          ≡ now + (delay + slept (suc k) next_delay) =
        omega arith in
      (
        w',
        go_on left attempt delay now m w e
            ∙ ap (λ d. after_attempt d next (now + delay)) run
            ∙ later
            ∙ ap (reconnected w') total,
        on,
        token ∙ token1,
      )

  retry-gave_up :
      (left attempt delay now m : ℕ) (w : WsClient)
      → delay ≡ 100 * m
      → ((i : ℕ) → i < left → is_up (dials (attempt + i)) ≡ false)
      → retry stops dials left attempt delay now w ≡ gave_up (now + slept left delay)
  unfolding slept after_attempt retry
  retry-gave_up zero attempt delay now m w e down =
      let total : now ≡ now + 0 = omega arith in ap gave_up total
  retry-gave_up (suc left) attempt delay now m w e down =
      let same_attempt : attempt + 0 ≡ attempt = omega arith in
      let (w1, run, token1) =
        attempt_client-down w (dials attempt)
          (ap (λ a. is_up (dials a)) (sym same_attempt) ∙ down 0 (omega arith)) in
      let next_delay = min (delay * 2) 30000 in
      let shift : (i : ℕ) → attempt + 1 + i ≡ attempt + suc i = λ i. omega arith in
      let next = retry stops dials left (attempt + 1) next_delay (now + delay) in
      let total : now + delay + slept left next_delay ≡ now + (delay + slept left next_delay) =
        omega arith in
      go_on left attempt delay now m w e
      ∙ ap (λ d. after_attempt d next (now + delay)) run
      ∙ retry-gave_up left (attempt + 1) next_delay (now + delay) (min (m * 2) 300) w1
          (omega (arith, e))
          (λ i l. ap (λ a. is_up (dials a)) (shift i) ∙ down (suc i) (omega (arith, l)))
      ∙ ap gave_up total

  -- After the connection was lost, and while nobody quits, the client tries to connect again after 500 milliseconds and then
  -- after sleeps that double up to half a minute: where one of the first ten attempts is the first to succeed, it is connected with
  -- the token of its login at the end of the sleeps up to that attempt.
  pub reconnect_loop-connects :
      (now k : ℕ) (w : WsClient)
      → k < 10
      → ((i : ℕ) → i < k → is_up (dials (1 + i)) ≡ false)
      → is_up (dials (1 + k)) ≡ true
      → (w' : WsClient) × (reconnect_loop stops dials now w
          ≡ reconnected w' (now + slept (suc k) 500))
        × (w'.connected ≡ true)
        × (w'.last_token ≡ w.last_token)
  unfolding reconnect_loop
  reconnect_loop-connects now k w small down up =
      retry-reconnected k 10 1 500 now 5 w refl small down up

  -- Where all ten fail, it gives up for good, about two and a half minutes after the loss.
  pub reconnect_loop-gives_up :
      (now : ℕ) (w : WsClient)
      → ((i : ℕ) → i < 10 → is_up (dials (1 + i)) ≡ false)
      → reconnect_loop stops dials now w ≡ gave_up (now + 151500)
  unfolding reconnect_loop
  reconnect_loop-gives_up now w down =
      retry-gave_up 10 1 500 now 5 w refl down ∙ ap (λ n. gave_up (now + n)) slept-ten

on_login-joinable :
    (w : WsClient) (jwt : Bytes) → w.read_thread ≡ true → on_login w jwt upgraded ≡ terminates
unfolding on_login connect_client dial
on_login-joinable w jwt e = ground (arith, e)

-- Whether the thread that reads is to be joined, where the call has returned.
joinable : Ended → Bool
joinable (returns w) = w.read_thread
joinable (raises w) = true
joinable terminates = true

on_login-returned :
    (w w' : WsClient) (jwt : Bytes) → on_login w jwt upgraded ≡ returns w' → w'.read_thread ≡ true
unfolding on_login connect_client dial joinable
on_login-returned w w' jwt first = sym (ap joinable first) ∙ elim (Bool-cases w.read_thread) [
  | inl y ↦ ap joinable (on_login-joinable w jwt y)
  | inr n ↦ rw (n, on_login, connect_client, dial) refl
]

-- A user who has logged in and been connected logs in again: the client ends at once, be it still connected or not,
-- as long as it has not begun to connect again by itself.
pub on_login-again :
    (w w' : WsClient) (jwt jwt' : Bytes)
    → on_login w jwt upgraded ≡ returns w'
    → (on_login w' jwt' upgraded ≡ terminates)
      × (on_login (on_read_error w').0 jwt' upgraded ≡ terminates)
unfolding on_read_error
on_login-again w w' jwt jwt' first =
    let joins = on_login-returned w w' jwt first in
    (
      on_login-joinable w' jwt' joins,
      on_login-joinable (on_read_error w').0 jwt'
          (if_both (λ (r : WsClient × Bool). r.0.read_thread ≡ true) w'.stop joins joins),
    )
