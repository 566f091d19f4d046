-- ===== src/Allocation/Invariant/Delete.antt =====
-- `handleRefresh` with lifetime 0 deletes an allocation: the invariant of the maps is kept.
use zaza.Common.{
  ℕ, ◌≡◌, sym, ap, ◌∙◌, ◌≢◌, inl, inr, arith, Bool, false, Bytes, some, ◌==◌, same, lookup,
  lookup-erase-same, lookup-erase_diff, nat_eq, bytes_eq, bytes_beq_iff, Bool-cases,
}
use zaza.Transport.Endpoint.{Endpoint, endpoint_key}
use zaza.Allocation.Manager.{AllocationManager}
use zaza.Allocation.Handlers.{delete_allocation}
use zaza.Allocation.Invariant.{relay_key, ClientEntry, RelayEntry, PortEntry, Inv}

module _ (m : AllocationManager) (client : Endpoint) (ref : ℕ) (v : Inv m)
    (found : lookup (endpoint_key client) m.by_client ≡ some ref) where
  abbrev m' : AllocationManager
  unfolding delete_allocation
  m' = delete_allocation m client ref

  abbrev port : ℕ
  port = (m.heap ref).relayed_addr.port

  abbrev key : Bytes
  key = endpoint_key (m.heap ref).relayed_addr

  mine : ClientEntry m (endpoint_key client) ref
  mine = v.clients _ ref found

  key_lem : key ≡ relay_key m port
  key_lem = ap (λ (t : Bytes). endpoint_key (record { address = t; port = port })) mine.at_relay

  -- Another entry has another object, for an object knows its keys.
  other_client :
      (k : Bytes) (r : ℕ)
      → lookup k m'.by_client ≡ some r
      → (lookup k m.by_client ≡ some r) × (r ≢ ref)
  unfolding delete_allocation
  other_client k r e = elim (Bool-cases (same (endpoint_key client) k)) [
    | inl hit ↦ absurd (cc (lookup-erase-same (endpoint_key client) k m.by_client hit))
    | inr miss ↦
        let e' : lookup k m.by_client ≡ some r =
          sym (lookup-erase_diff (endpoint_key client) k m.by_client miss) ∙ e in
        (
          e',
          λ q. ground (
            arith,
            bytes_beq_iff (endpoint_key client) k,
            (v.clients k r e').own_key,
            mine.own_key,
            q,
          ),
        )
  ]

  -- Another object has another port.
  other_port :
      (k : Bytes) (r : ℕ) → ClientEntry m k r → r ≢ ref → (m.heap r).relayed_addr.port ≢ port
  other_port k r c d q = d (cc (rw q at c.relayed, mine.relayed))

  clients' : (k : Bytes) (r : ℕ) → lookup k m'.by_client ≡ some r → ClientEntry m' k r
  unfolding delete_allocation
  clients' k r e =
      let (e', d) = other_client k r e in
      let c = v.clients k r e' in
      let p = other_port k r c d in
      let port_apart : (port == (m.heap r).relayed_addr.port) ≡ false = ground (arith, p) in
      let apart : same key (relay_key m (m.heap r).relayed_addr.port) ≡ false = ground (
        arith,
        bytes_beq_iff key (relay_key m (m.heap r).relayed_addr.port),
        key_lem,
        mine.relayed,
        c.relayed,
        d,
      ) in
      record {
        own_key = c.own_key;
        known = c.known;
        at_relay = c.at_relay;
        relayed = rw (lookup-erase_diff key _ m.by_relay apart) c.relayed;
        port_used = rw (lookup-erase_diff port _ m.used_ports port_apart) c.port_used;
      }

  relays' : (k : Bytes) (r : ℕ) → lookup k m'.by_relay ≡ some r → RelayEntry m' k r
  unfolding delete_allocation
  relays' k r e = elim (Bool-cases (same key k)) [
    | inl hit ↦ absurd (cc (lookup-erase-same key k m.by_relay hit))
    | inr miss ↦
        let c = v.relays k r (sym (lookup-erase_diff key k m.by_relay miss) ∙ e) in
        let apart : same (endpoint_key client) (endpoint_key (m.heap r).client_addr) ≡ false =
          ground (
            arith,
            bytes_beq_iff (endpoint_key client) (endpoint_key (m.heap r).client_addr),
            bytes_beq_iff key k,
            c.own_key,
            key_lem,
            c.owned,
            found,
          ) in
        record {
          own_key = c.own_key;
          owned = rw (lookup-erase_diff (endpoint_key client) _ m.by_client apart) c.owned;
        }
  ]

  ports' : (p : ℕ) (b : Bool) → lookup p m'.used_ports ≡ some b → PortEntry m' p b
  unfolding delete_allocation
  ports' p b e = elim (Bool-cases (port == p)) [
    | inl hit ↦ absurd (cc (lookup-erase-same port p m.used_ports hit))
    | inr miss ↦
        let q = v.ports p b (sym (lookup-erase_diff port p m.used_ports miss) ∙ e) in
        let apart : same key (relay_key m p) ≡ false = ground (
          arith,
          bytes_beq_iff key (relay_key m p),
          key_lem,
          mine.relayed,
          q.relayed,
          q.owner_port,
        ) in
        record {
          is_marked = q.is_marked;
          owner = q.owner;
          relayed = rw (lookup-erase_diff key (relay_key m p) m.by_relay apart) q.relayed;
          owner_port = q.owner_port;
        }
  ]

  pub delete_allocation-Inv : Inv (delete_allocation m client ref)
  unfolding delete_allocation
  delete_allocation-Inv = record { clients = clients'; relays = relays'; ports = ports' }
