-- ===== src/Calls/Exclusive.antt =====
-- Nobody is in two calls at once.
use zaza.Common.{
  ℕ, ◌≡◌, sym, subst, ◌≢◌, inl, inr, arith, false, Bytes, [], ◌∷◌, some, All, same, Map, lookup,
  insert, erase, bytes_eq, bytes_beq_iff, All-insert, All-erase, All-lookup, Bool-cases,
}
use zaza.Calls.Manager.{
  CallState, CallSession, CallManager, is_ended, busy_in, has_timed_out, expire_loop,
}

-- A session that has a user in no part, and two sessions with no user in common.
abbrev pub Without : Bytes → CallSession → Type 0
Without user s = (s.caller_id ≢ user) × (s.callee_id ≢ user)

abbrev pub Disjoint : CallSession → CallSession → Type 0
Disjoint s t = Without s.caller_id t × Without s.callee_id t

abbrev pub PairwiseDisjoint : Map Bytes CallSession → Type 0
PairwiseDisjoint [] = Unit {0}
PairwiseDisjoint ((id, s) ∷ rest) =
    All (λ (e : Bytes × CallSession). Disjoint s e.1) rest × PairwiseDisjoint rest

-- A stored session has not ended.
abbrev pub Live : Bytes × CallSession → Type 0
Live e = is_ended e.1.state ≡ false

pub record Exclusive (m : CallManager) : Type 0 where
  pub live : All Live m.sessions
  pub disjoint : PairwiseDisjoint m.sessions

-- What `isBusy` says of live sessions.
pub busy_in-Without :
    (l : Map Bytes CallSession) (user : Bytes)
    → All Live l
    → busy_in l user ≡ false
    → All (λ (e : Bytes × CallSession). Without user e.1) l
unfolding busy_in
busy_in-Without [] user h e = tt
busy_in-Without ((id, s) ∷ rest) user h e =
    let l : is_ended s.state ≡ false = h.0 in
    let later : busy_in rest user ≡ false = ground (arith, l) in
    let caller : s.caller_id ≢ user =
      λ q. ground (arith, (bytes_beq_iff s.caller_id user).1 q, l) in
    let callee : s.callee_id ≢ user =
      λ q. ground (arith, (bytes_beq_iff s.callee_id user).1 q, l) in
    ((caller, callee), busy_in-Without rest user h.1 later)

pub Disjoint-sym : (s t : CallSession) → Disjoint s t → Disjoint t s
Disjoint-sym s t ((a, b), (c, d)) =
    ((λ q. a (sym q), λ q. c (sym q)), (λ q. b (sym q), λ q. d (sym q)))

abbrev pub DisjointFrom : CallSession → Map Bytes CallSession → Type 0
DisjointFrom s = All (λ (e : Bytes × CallSession). Disjoint s e.1)

-- A session that shares no user with the stored ones can be stored.
pub insert-Disjoint :
    (id : Bytes) (s : CallSession) (l : Map Bytes CallSession)
    → PairwiseDisjoint l
    → DisjointFrom s l
    → PairwiseDisjoint (insert id s l)
insert-Disjoint id s [] d f = (tt, tt)
insert-Disjoint id s ((j, t) ∷ l) d f = elim (Bool-cases (same j id)) [
  | inl hit ↦ rw hit (f.1, d.1)
  | inr miss ↦ rw miss (
    All-insert (λ (e : Bytes × CallSession). Disjoint t e.1) id s l (Disjoint-sym s t f.0) d.0,
    insert-Disjoint id s l d.1 f.1,
  )
]

-- So can another state of a stored session.
pub update-Disjoint :
    (id : Bytes) (s : CallSession) (state : CallState) (l : Map Bytes CallSession)
    → PairwiseDisjoint l
    → lookup id l ≡ some s
    → PairwiseDisjoint (insert id (record s { state = state }) l)
update-Disjoint id s state [] d q = (tt, tt)
update-Disjoint id s state ((j, t) ∷ l) d q = elim (Bool-cases (same j id)) [
  | inl hit ↦
      let found : some t ≡ some s = rw hit at q in
      rw hit (
        subst (λ u. All (λ (e : Bytes × CallSession). Disjoint u e.1) l) {x = t} {y = s} (cc) d.0,
        d.1,
      )
  | inr miss ↦
      let found : lookup id l ≡ some s = rw miss at q in
      rw miss (
        All-insert (λ (e : Bytes × CallSession). Disjoint t e.1) id (record s { state = state }) l
            (All-lookup (Disjoint t) id l d.0 found) d.0,
        update-Disjoint id s state l d.1 found,
      )
]

pub erase-Disjoint :
    (id : Bytes) (l : Map Bytes CallSession) → PairwiseDisjoint l → PairwiseDisjoint (erase id l)
erase-Disjoint id [] d = d
erase-Disjoint id ((j, t) ∷ l) d = elim (Bool-cases (same j id)) [
  | inl hit ↦ rw hit (erase-Disjoint id l d.1)
  | inr miss ↦
      rw miss
        (All-erase (λ (e : Bytes × CallSession). Disjoint t e.1) id l d.0, erase-Disjoint id l d.1)
]

pub All-expire_loop :
    (P : Bytes × CallSession → Type 0) (now timeout : ℕ) (l : Map Bytes CallSession)
    → All P l
    → All P (expire_loop now timeout l).0
unfolding expire_loop
All-expire_loop P now timeout [] h = tt
All-expire_loop P now timeout ((id, s) ∷ l) h = elim (Bool-cases (has_timed_out now timeout s)) [
  | inl late ↦ rw late (All-expire_loop P now timeout l h.1)
  | inr early ↦ rw early (h.0, All-expire_loop P now timeout l h.1)
]

pub expire_loop-Disjoint :
    (now timeout : ℕ) (l : Map Bytes CallSession)
    → PairwiseDisjoint l
    → PairwiseDisjoint (expire_loop now timeout l).0
unfolding expire_loop
expire_loop-Disjoint now timeout [] d = tt
expire_loop-Disjoint now timeout ((id, s) ∷ l) d = elim (Bool-cases (has_timed_out now timeout s)) [
  | inl late ↦ rw late (expire_loop-Disjoint now timeout l d.1)
  | inr early ↦ rw early (
    All-expire_loop (λ (e : Bytes × CallSession). Disjoint s e.1) now timeout l d.0,
    expire_loop-Disjoint now timeout l d.1,
  )
]

pub free-Disjoint :
    (s : CallSession) (l : Map Bytes CallSession)
    → All Live l
    → busy_in l s.caller_id ≡ false
    → busy_in l s.callee_id ≡ false
    → DisjointFrom s l
free-Disjoint s l h caller callee =
    both l (busy_in-Without l s.caller_id h caller) (busy_in-Without l s.callee_id h callee)
  where
    both :
        (l : Map Bytes CallSession)
        → All (λ (e : Bytes × CallSession). Without s.caller_id e.1) l
        → All (λ (e : Bytes × CallSession). Without s.callee_id e.1) l
        → DisjointFrom s l
    both [] a b = tt
    both (e ∷ l) a b = ((a.0, b.0), both l a.1 b.1)
