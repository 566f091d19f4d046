-- ===== src/Calls/Freed.antt =====
-- Who is free, and what is stored, after a call is taken or ends.
use zaza.Common.{
  ℕ, ◌≡◌, refl, subst, ap, inl, inr, arith, false, Bytes, List, [], ◌∷◌, none, some, All, same, ◌⊎◌,
  not, if◌then◌else◌, Map, lookup, insert, erase, bytes_eq, bytes_beq_iff, All-erase, All-lookup,
  Bool-cases, Option-cases, lookup-insert_self, lookup-erase-same, ◌∙◌, filter, map,
}
use zaza.Calls.Manager.{
  ringing, active, ended, CallSession, CallManager, ok, err, wrong_callee, busy_in, is_busy,
  new_session, create, ringing_for, accept, hangup, find, has_timed_out, expire_loop,
  expire_ringing,
}
use zaza.Calls.Exclusive.{Disjoint, PairwiseDisjoint, DisjointFrom, Disjoint-sym, All-expire_loop}
use zaza.Calls.Lifecycle.{Reach, Reach-Exclusive}

DisjointFrom-busy_in :
    (s : CallSession) (l : Map Bytes CallSession)
    → DisjointFrom s l
    → (busy_in l s.caller_id ≡ false) × (busy_in l s.callee_id ≡ false)
unfolding busy_in
DisjointFrom-busy_in s [] d = (refl, refl)
DisjointFrom-busy_in s ((j, t) ∷ l) d =
    let ih = DisjointFrom-busy_in s l d.1 in
    let a = bytes_beq_iff t.caller_id s.caller_id in
    let b = bytes_beq_iff t.callee_id s.caller_id in
    let c = bytes_beq_iff t.caller_id s.callee_id in
    let e = bytes_beq_iff t.callee_id s.callee_id in
    let (aa, bb) = d.0.0 in
    let (cc', ee) = d.0.1 in (ground (arith, a, b, aa, bb, ih), ground (arith, c, e, cc', ee, ih))

-- What is left when a call is erased shares no user with it.
erase-DisjointFrom :
    (id : Bytes) (s : CallSession) (l : Map Bytes CallSession)
    → PairwiseDisjoint l
    → lookup id l ≡ some s
    → DisjointFrom s (erase id l)
erase-DisjointFrom id s [] d q = tt
erase-DisjointFrom id s ((j, t) ∷ l) d q = elim (Bool-cases (same j id)) [
  | inl hit ↦
      let found : some t ≡ some s = rw hit at q in
      rw hit (
        All-erase (λ (e : Bytes × CallSession). Disjoint s e.1) id l
          (subst (λ u. DisjointFrom u l) {x = t} {y = s} (cc) d.0))
  | inr miss ↦
      let found : lookup id l ≡ some s = rw miss at q in
      rw miss (
        Disjoint-sym t s (All-lookup (Disjoint t) id l d.0 found),
        erase-DisjointFrom id s l d.1 found,
      )
]

hangup-ok :
    (m m' : CallManager) (id user : Bytes) (s : CallSession)
    → hangup m id user ≡ ok (m', s)
    → (t : CallSession) × (lookup id m.sessions ≡ some t)
      × (s ≡ record t { state = ended })
      × (m' ≡ record m { sessions = erase id m.sessions })
      × ((t.caller_id ≡ user) ⊎ (t.callee_id ≡ user))
unfolding hangup
hangup-ok m m' id user s q = elim (Option-cases (lookup id m.sessions)) [
  | inl missing ↦ absurd (ground (arith, missing))
  | inr (t, found) ↦ (
    t,
    found,
    ground (arith, found),
    ground (arith, found),
    ground (arith, found, bytes_beq_iff t.caller_id user, bytes_beq_iff t.callee_id user),
  )
]

-- A user who may hang up a call is one of its two parties, and afterwards both parties are free
-- for another call and the call is gone, in every history of the call manager.
pub hangup_frees :
    (m m' : CallManager) (id user : Bytes) (s : CallSession)
    → Reach m
    → hangup m id user ≡ ok (m', s)
    → ((s.caller_id ≡ user) ⊎ (s.callee_id ≡ user))
      × (is_busy m' s.caller_id ≡ false)
      × (is_busy m' s.callee_id ≡ false)
      × (find m' id ≡ none)
unfolding is_busy find
hangup_frees m m' id user s r q =
    let x = Reach-Exclusive m r in
    let (t, found, same_call, erased, party) = hangup-ok m m' id user s q in
    let d =
      DisjointFrom-busy_in t (erase id m.sessions)
        (erase-DisjointFrom id t m.sessions x.disjoint found) in
    rw (same_call, erased)
      (party, d.0, d.1, lookup-erase-same id id m.sessions ((bytes_beq_iff id id).1 refl))

create-ok :
    (m m' : CallManager) (draw_a draw_b now : ℕ) (caller callee id : Bytes)
    → create m draw_a draw_b now caller callee ≡ ok (m', id)
    → m' ≡ record m { sessions = insert id (new_session id caller callee now) m.sessions }
unfolding create is_busy
create-ok m m' draw_a draw_b now caller callee id q = ground arith

accept_stored :
    (m : CallManager) (id user : Bytes) (t : CallSession)
    → lookup id m.sessions ≡ some t
    → t.state ≡ ringing
    → accept m id user ≡ (
        if same t.callee_id user
        then ok (
          record m { sessions = insert id (record t { state = active }) m.sessions },
          record t { state = active },
        )
        else err wrong_callee)
unfolding accept ringing_for
accept_stored m id user t found rings = elim (Bool-cases (same t.callee_id user)) [
  | inl right ↦ rw (found, right, rings, accept, ringing_for) refl
  | inr wrong ↦ rw (found, wrong, accept, ringing_for) refl
]

-- A call that was just created is found ringing; its callee, and nobody else, can accept it, and
-- it is then active.
pub create-accept :
    (m m' : CallManager) (draw_a draw_b now : ℕ) (caller callee id : Bytes)
    → create m draw_a draw_b now caller callee ≡ ok (m', id)
    → (find m' id ≡ some (new_session id caller callee now))
      × ((user : Bytes) → same callee user ≡ false → accept m' id user ≡ err wrong_callee)
      × ((m'' : CallManager) × (accept m' id callee
            ≡ ok (m'', record (new_session id caller callee now) { state = active }))
          × (find m'' id ≡ some (record (new_session id caller callee now) { state = active })))
unfolding find new_session
create-accept m m' draw_a draw_b now caller callee id q =
    let t = new_session id caller callee now in
    let stored : lookup id m'.sessions ≡ some t =
      rw (create-ok m m' draw_a draw_b now caller callee id q)
        (lookup-insert_self id t m.sessions) in
    (
      stored,
      λ user other. accept_stored m' id user t stored refl ∙ rw other refl,
      (
        record m' { sessions = insert id (record t { state = active }) m'.sessions },
        accept_stored m' id callee t stored refl ∙ rw ((bytes_beq_iff callee callee).1 refl) refl,
        lookup-insert_self id (record t { state = active }) m'.sessions,
      ),
    )

-- `expireRinging` splits the sessions: the ringing calls that are older than the timeout are
-- returned as ended, in the order of the map, and exactly the others stay, unchanged.
pub expire_ringing-filter :
    (m : CallManager) (now : ℕ)
    → ((expire_ringing m now).0.sessions
        ≡ filter
            (λ (e : Bytes × CallSession). not (has_timed_out now m.ring_timeout e.1))
            m.sessions)
      × ((expire_ringing m now).1
          ≡ map
              (λ (e : Bytes × CallSession). record e.1 { state = ended })
              (filter
                (λ (e : Bytes × CallSession). has_timed_out now m.ring_timeout e.1)
                m.sessions))
unfolding expire_ringing expire_loop
expire_ringing-filter m now = go m.sessions
  where
    go :
        (l : Map Bytes CallSession)
        → ((expire_loop now m.ring_timeout l).0
            ≡ filter (λ (e : Bytes × CallSession). not (has_timed_out now m.ring_timeout e.1)) l)
          × ((expire_loop now m.ring_timeout l).1
              ≡ map
                  (λ (e : Bytes × CallSession). record e.1 { state = ended })
                  (filter (λ (e : Bytes × CallSession). has_timed_out now m.ring_timeout e.1) l))
    go [] = (refl, refl)
    go ((id, s) ∷ l) = elim (Bool-cases (has_timed_out now m.ring_timeout s)) [
      | inl late ↦
          rw (late, expire_loop) ((go l).0, ap (λ r. record s { state = ended } ∷ r) (go l).1)
      | inr early ↦ rw (early, expire_loop) (ap (λ r. (id, s) ∷ r) (go l).0, (go l).1)
    ]

All-gone :
    (P : CallSession → Type 0) (now timeout : ℕ) (l : Map Bytes CallSession)
    → ((s : CallSession) → P s → P (record s { state = ended }))
    → All (λ (e : Bytes × CallSession). P e.1) l
    → All P (expire_loop now timeout l).1
unfolding expire_loop
All-gone P now timeout [] keeps h = tt
All-gone P now timeout ((id, s) ∷ l) keeps h = elim (Bool-cases (has_timed_out now timeout s)) [
  | inl late ↦ rw late (keeps s h.0, All-gone P now timeout l keeps h.1)
  | inr early ↦ rw early (All-gone P now timeout l keeps h.1)
]

-- The calls that time out share no user with those that stay.
gone-DisjointFrom :
    (now timeout : ℕ) (l : Map Bytes CallSession)
    → PairwiseDisjoint l
    → All (λ s. DisjointFrom s (expire_loop now timeout l).0) (expire_loop now timeout l).1
unfolding expire_loop
gone-DisjointFrom now timeout [] d = tt
gone-DisjointFrom now timeout ((id, s) ∷ l) d = elim (Bool-cases (has_timed_out now timeout s)) [
  | inl late ↦ rw late (
    All-expire_loop (λ (e : Bytes × CallSession). Disjoint s e.1) now timeout l d.0,
    gone-DisjointFrom now timeout l d.1,
  )
  | inr early ↦ rw early (
      zip (expire_loop now timeout l).1 (All-gone (Disjoint s) now timeout l (λ t p. p) d.0)
        (gone-DisjointFrom now timeout l d.1))
]
  where
    zip :
        (g : List CallSession)
        → All (Disjoint s) g
        → All (λ t. DisjointFrom t (expire_loop now timeout l).0) g
        → All (λ t. DisjointFrom t ((id, s) ∷ (expire_loop now timeout l).0)) g
    zip [] a b = tt
    zip (t ∷ g) a b = ((Disjoint-sym s t a.0, b.0), zip g a.1 b.1)

-- Both parties of a call that timed out are free, in every history of the call manager.
pub expire_ringing_frees :
    (m : CallManager) (now : ℕ)
    → Reach m
    → All
        (λ s.
          (is_busy (expire_ringing m now).0 s.caller_id ≡ false)
          × (is_busy (expire_ringing m now).0 s.callee_id ≡ false))
        (expire_ringing m now).1
unfolding expire_ringing is_busy
expire_ringing_frees m now r =
    go (expire_loop now m.ring_timeout m.sessions).1
      (gone-DisjointFrom now m.ring_timeout m.sessions (Reach-Exclusive m r).disjoint)
  where
    stay : Map Bytes CallSession
    stay = (expire_loop now m.ring_timeout m.sessions).0

    go :
        (g : List CallSession)
        → All (λ s. DisjointFrom s stay) g
        → All (λ s. (busy_in stay s.caller_id ≡ false) × (busy_in stay s.callee_id ≡ false)) g
    go [] h = tt
    go (s ∷ g) h = (DisjointFrom-busy_in s stay h.0, go g h.1)
