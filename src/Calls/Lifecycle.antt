-- ===== src/Calls/Lifecycle.antt =====
-- Histories of the call manager, and what a call goes through.
use zaza.Common.{
  ℕ, ◌≡◌, refl, inl, inr, arith, Bytes, some, same, ◌&&◌, not, lookup, insert, erase, bytes_eq,
  bytes_beq_iff, All-insert, All-erase, Bool-cases, Option-cases,
}
use zaza.Calls.Uuid.{generate_uuid}
use zaza.Calls.Manager.{
  ringing, active, ended, CallSession, CallManager, Result, ok, err, CallError, call_manager,
  is_ringing, busy_in, is_busy, new_session, create, ringing_for, accept, reject, hangup,
  expire_ringing,
}
use zaza.Calls.Exclusive.{
  Live, Exclusive, insert-Disjoint, update-Disjoint, erase-Disjoint, All-expire_loop,
  expire_loop-Disjoint, free-Disjoint,
}

-- An exception leaves the manager as it was.
unfoldable pub after : {A : Type 0} → CallManager → Result (CallManager × A) → CallManager
after m (ok (m', a)) = m'
after m (err e) = m

pub data Step : CallManager → CallManager → Type 0 where
  creates :
      {m : CallManager}
      → (draw_a draw_b now : ℕ) → (caller callee : Bytes)
      → Step m (after m (create m draw_a draw_b now caller callee))
  accepts : {m : CallManager} → (id user : Bytes) → Step m (after m (accept m id user))
  rejects : {m : CallManager} → (id user : Bytes) → Step m (after m (reject m id user))
  hangs_up : {m : CallManager} → (id user : Bytes) → Step m (after m (hangup m id user))
  expires : {m : CallManager} → (now : ℕ) → Step m (expire_ringing m now).0

pub data Reach : CallManager → Type 0 where
  start : (ring_timeout : ℕ) → Reach (call_manager ring_timeout)
  next : {m m' : CallManager} → Reach m → Step m m' → Reach m'

pub ringing_for-cases :
    (m : CallManager) (id user : Bytes) (P : Result CallSession → Type 0)
    → ((e : CallError) → P (err e))
    → ((s : CallSession)
        → lookup id m.sessions ≡ some s
        → s.callee_id ≡ user
        → s.state ≡ ringing
        → P (ok s))
    → P (ringing_for m id user)
unfolding ringing_for
ringing_for-cases m id user P refused passed = elim (Option-cases (lookup id m.sessions)) [
  | inl q ↦ rw (q, ringing_for) (refused _)
  | inr (s, q) ↦ elim (Bool-cases (same s.callee_id user)) [
    | inr wrong ↦ rw (q, wrong, ringing_for) (refused _)
    | inl right ↦ elim (Bool-cases (is_ringing s.state)) [
      | inr settled ↦ rw (q, right, settled, ringing_for) (refused _)
      | inl rings ↦
          rw (q, right, rings, ringing_for)
            (passed s q ((bytes_beq_iff s.callee_id user).0 right) (ground arith))
    ]
  ]
]

create-Exclusive :
    (m : CallManager) (draw_a draw_b now : ℕ) (caller callee : Bytes)
    → Exclusive m
    → Exclusive (after m (create m draw_a draw_b now caller callee))
unfolding create after is_busy new_session
create-Exclusive m draw_a draw_b now caller callee x =
    elim (Bool-cases (busy_in m.sessions caller)) [
      | inl b ↦ rw b x
      | inr free ↦ elim (Bool-cases (busy_in m.sessions callee)) [
        | inl b ↦ rw (free, b) x
        | inr free' ↦
            let id = generate_uuid draw_a draw_b in
            let s = new_session id caller callee now in
            rw (free, free')
              record {
                live = All-insert Live id s m.sessions refl x.live;
                disjoint =
                    insert-Disjoint id s m.sessions x.disjoint
                      (free-Disjoint s m.sessions x.live free free');
              }
      ]
    ]

accept-Exclusive :
    (m : CallManager) (id user : Bytes) → Exclusive m → Exclusive (after m (accept m id user))
unfolding accept after
accept-Exclusive m id user x =
    ringing_for-cases m id user
      (λ r. Exclusive (
        after m (elim r [
          | err e ↦ err e
          | ok s ↦ ok (
            record m { sessions = insert id (record s { state = active }) m.sessions },
            record s { state = active },
          )
        ])))
      (λ e. x)
      (λ s found callee rings. record {
        live = All-insert Live id (record s { state = active }) m.sessions refl x.live;
        disjoint = update-Disjoint id s active m.sessions x.disjoint found;
      })

erase-Exclusive :
    (m : CallManager) (id : Bytes)
    → Exclusive m
    → Exclusive (record m { sessions = erase id m.sessions })
erase-Exclusive m id x = record {
  live = All-erase Live id m.sessions x.live;
  disjoint = erase-Disjoint id m.sessions x.disjoint;
}

reject-Exclusive :
    (m : CallManager) (id user : Bytes) → Exclusive m → Exclusive (after m (reject m id user))
unfolding reject after
reject-Exclusive m id user x =
    ringing_for-cases m id user
      (λ r. Exclusive (
        after m (elim r [
          | err e ↦ err e
          | ok s ↦ ok (record m { sessions = erase id m.sessions }, record s { state = ended })
        ])))
      (λ e. x) (λ s found callee rings. erase-Exclusive m id x)

hangup-Exclusive :
    (m : CallManager) (id user : Bytes) → Exclusive m → Exclusive (after m (hangup m id user))
unfolding hangup after
hangup-Exclusive m id user x = elim (Option-cases (lookup id m.sessions)) [
  | inl q ↦ rw (q, after) x
  | inr (s, q) ↦ elim (Bool-cases (not (same s.caller_id user) && not (same s.callee_id user))) [
    | inl other ↦ rw (q, other, after) x
    | inr party ↦ rw (q, party, after) (erase-Exclusive m id x)
  ]
]

expire_ringing-Exclusive :
    (m : CallManager) (now : ℕ) → Exclusive m → Exclusive (expire_ringing m now).0
unfolding expire_ringing
expire_ringing-Exclusive m now x = record {
  live = All-expire_loop Live now m.ring_timeout m.sessions x.live;
  disjoint = expire_loop-Disjoint now m.ring_timeout m.sessions x.disjoint;
}

-- In every history of the call manager, no stored session has ended, and no two stored sessions
-- have a user in common.
pub Reach-Exclusive : (m : CallManager) → Reach m → Exclusive m
unfolding call_manager
Reach-Exclusive _ (start t) = record { live = tt; disjoint = tt }
Reach-Exclusive _ (next {m = m} r (creates a b now caller callee)) =
    create-Exclusive m a b now caller callee (Reach-Exclusive m r)
Reach-Exclusive _ (next {m = m} r (accepts id user)) =
    accept-Exclusive m id user (Reach-Exclusive m r)
Reach-Exclusive _ (next {m = m} r (rejects id user)) =
    reject-Exclusive m id user (Reach-Exclusive m r)
Reach-Exclusive _ (next {m = m} r (hangs_up id user)) =
    hangup-Exclusive m id user (Reach-Exclusive m r)
Reach-Exclusive _ (next {m = m} r (expires now)) =
    expire_ringing-Exclusive m now (Reach-Exclusive m r)
