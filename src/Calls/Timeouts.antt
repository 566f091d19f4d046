-- ===== src/Calls/Timeouts.antt =====
-- backend/calls/call_manager.cpp: how long a call can ring.
use zaza.Common.{
  ℕ, ◌≡◌, ◌≤◌, refl, inl, inr, subst, arith, false, not, ◌&&◌, Bytes, [], ◌∷◌, All, All-insert,
  All-erase, same, Map, lookup, insert, erase, bytes_eq, Bool-cases, Option-cases,
}
use zaza.Calls.Uuid.{generate_uuid}
use zaza.Calls.Manager.{
  active, ended, CallSession, CallManager, ok, err, is_busy, busy_in, new_session, create, accept,
  reject, hangup, has_timed_out, expire_loop, expire_ringing,
}
use zaza.Calls.Lifecycle.{after, ringing_for-cases}

-- No stored call was still ringing at the time although its timeout was over.
pub record Timely (checked timeout : ℕ) (m : CallManager) : Type 0 where
  pub bounded : m.ring_timeout ≡ timeout
  pub recent :
      All (λ (e : Bytes × CallSession). has_timed_out checked timeout e.1 ≡ false) m.sessions

module _ (checked timeout : ℕ) (m : CallManager) (t : Timely checked timeout m) where
  erase-Timely : (id : Bytes) → Timely checked timeout (record m { sessions = erase id m.sessions })
  erase-Timely id = record {
    bounded = t.bounded;
    recent =
        All-erase (λ (e : Bytes × CallSession). has_timed_out checked timeout e.1 ≡ false) id
          m.sessions t.recent;
  }

  insert-Timely :
      (id : Bytes) (s : CallSession)
      → has_timed_out checked timeout s ≡ false
      → Timely checked timeout (record m { sessions = insert id s m.sessions })
  insert-Timely id s h = record {
    bounded = t.bounded;
    recent =
        All-insert (λ (e : Bytes × CallSession). has_timed_out checked timeout e.1 ≡ false) id s
          m.sessions h t.recent;
  }

  pub create-Timely :
      (draw_a draw_b now : ℕ) (caller callee : Bytes)
      → checked ≤ now
      → Timely checked timeout (after m (create m draw_a draw_b now caller callee))
  unfolding create after is_busy new_session
  create-Timely draw_a draw_b now caller callee later =
      elim (Bool-cases (busy_in m.sessions caller)) [
        | inl b ↦ rw b t
        | inr free ↦ elim (Bool-cases (busy_in m.sessions callee)) [
          | inl b ↦ rw (free, b) t
          | inr free' ↦
              let id = generate_uuid draw_a draw_b in
              rw (free, free')
                (insert-Timely id (new_session id caller callee now) (ground (arith, later)))
        ]
      ]

  pub accept-Timely : (id user : Bytes) → Timely checked timeout (after m (accept m id user))
  unfolding accept after
  accept-Timely id user =
      ringing_for-cases m id user
        (λ r. Timely checked timeout (
          after m (elim r [
            | err e ↦ err e
            | ok s ↦ ok (
              record m { sessions = insert id (record s { state = active }) m.sessions },
              record s { state = active },
            )
          ])))
        (λ e. t) (λ s found callee rings. insert-Timely id (record s { state = active }) refl)

  pub reject-Timely : (id user : Bytes) → Timely checked timeout (after m (reject m id user))
  unfolding reject after
  reject-Timely id user =
      ringing_for-cases m id user
        (λ r. Timely checked timeout (
          after m (elim r [
            | err e ↦ err e
            | ok s ↦ ok (record m { sessions = erase id m.sessions }, record s { state = ended })
          ])))
        (λ e. t) (λ s found callee rings. erase-Timely id)

  pub hangup-Timely : (id user : Bytes) → Timely checked timeout (after m (hangup m id user))
  unfolding hangup after
  hangup-Timely id user = elim (Option-cases (lookup id m.sessions)) [
    | inl q ↦ rw (q, after) t
    | inr (s, q) ↦ elim (Bool-cases (not (same s.caller_id user) && not (same s.callee_id user))) [
      | inl other ↦ rw (q, other, after) t
      | inr party ↦ rw (q, party, after) (erase-Timely id)
    ]
  ]

expire_loop-All :
    (now timeout : ℕ) (l : Map Bytes CallSession)
    → All
        (λ (e : Bytes × CallSession). has_timed_out now timeout e.1 ≡ false)
        (expire_loop now timeout l).0
unfolding expire_loop
expire_loop-All now timeout [] = tt
expire_loop-All now timeout ((id, s) ∷ l) = elim (Bool-cases (has_timed_out now timeout s)) [
  | inl late ↦ rw late (expire_loop-All now timeout l)
  | inr early ↦ rw early (early, expire_loop-All now timeout l)
]

pub expire_ringing-Timely :
    (checked timeout now : ℕ) (m : CallManager)
    → Timely checked timeout m
    → Timely now timeout (expire_ringing m now).0
unfolding expire_ringing
expire_ringing-Timely checked timeout now m t = record {
  bounded = t.bounded;
  recent =
      subst
        (λ k.
          All (λ (e : Bytes × CallSession). has_timed_out now k e.1 ≡ false)
            (expire_loop now m.ring_timeout m.sessions).0)
        t.bounded (expire_loop-All now m.ring_timeout m.sessions);
}
