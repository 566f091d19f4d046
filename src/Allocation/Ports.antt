-- ===== src/Allocation/Ports.antt =====
-- `allocatePort`: the port is free and in the configured range.
use zaza.Common.{nat_eq}
use zaza.Common.{
  ℕ, zero, suc, ◌+◌, ◌%◌, ◌^◌, ◌≤◌, ◌<◌, ◌≡◌, ◌≢◌, inl, inr, arith, Bool, true, false, some, Map,
  lookup, insert, if◌then◌else◌, ◌==◌, lookup-insert, Option-cases,
}
use zaza.Allocation.Manager.{AllocationManager, port_loop, allocate_port, draw_max}

-- What a port that the loop returns is.
pub record IsFreePort (draws : ℕ → ℕ) (port_min : ℕ) (used : Map ℕ Bool) (port : ℕ)
    (after : Map ℕ Bool) : Type 0 where
  pub was_free : lookup port used ≢ some true
  pub marked : after ≡ insert port true used
  pub attempt : ℕ
  pub drawn : port ≡ (port_min + draws attempt) % 2 ^ 16

port_loop-IsFreePort :
    (attempts i : ℕ) (draws : ℕ → ℕ) (port_min : ℕ) (used : Map ℕ Bool) {port : ℕ}
    {after : Map ℕ Bool}
    → port_loop attempts i draws port_min used ≡ some (port, after)
    → IsFreePort draws port_min used port after
unfolding port_loop
port_loop-IsFreePort zero i draws port_min used e = absurd (cc)
port_loop-IsFreePort (suc n) i draws port_min used e =
    elim (Option-cases (lookup ((port_min + draws i) % 2 ^ 16) used)) [
      | inl free ↦
          let r = rw (free, port_loop) at e in
          record { was_free = λ t. cc; marked = cc; attempt = i; drawn = cc }
      | inr (true, taken) ↦
          port_loop-IsFreePort n (suc i) draws port_min used (rw (taken, port_loop) at e)
      | inr (false, free) ↦
          let r = rw (free, port_loop) at e in
          record { was_free = λ t. cc; marked = cc; attempt = i; drawn = cc }
    ]

-- The draws stay within the bound that the random generator is given.
abbrev pub DrawsFit : AllocationManager → (ℕ → ℕ) → Type 0
DrawsFit m draws = (i : ℕ) → draws i ≤ draw_max m

pub allocate_port-IsFreePort :
    (m : AllocationManager) (draws : ℕ → ℕ) {port : ℕ} {after : Map ℕ Bool}
    → allocate_port m draws ≡ some (port, after)
    → IsFreePort draws m.relay_port_min m.used_ports port after
unfolding allocate_port
allocate_port-IsFreePort m draws e =
    port_loop-IsFreePort 1000 0 draws m.relay_port_min m.used_ports e

-- A port that `allocatePort` returns lies in the configured range, is not in use before and is in
-- use after, and every other port keeps its mark; the range is a range of 16-bit ports and the
-- draws stay within it.
pub allocate_port_range :
    (m : AllocationManager) (draws : ℕ → ℕ) {port : ℕ} {after : Map ℕ Bool}
    → m.relay_port_min ≤ m.relay_port_max
    → m.relay_port_max < 2 ^ 16
    → DrawsFit m draws
    → allocate_port m draws ≡ some (port, after)
    → (m.relay_port_min ≤ port)
      × (port ≤ m.relay_port_max)
      × (lookup port m.used_ports ≢ some true)
      × ((p : ℕ) → lookup p after ≡ (if port == p then some true else lookup p m.used_ports))
unfolding draw_max
allocate_port_range m draws {port} {after} lo hi fit e =
    let f = allocate_port-IsFreePort m draws e in
    let d = fit f.attempt in
    let n = f.drawn in
    (
      omega arith,
      omega arith,
      f.was_free,
      λ p. rw f.marked (lookup-insert port p true m.used_ports),
    )
