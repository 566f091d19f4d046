-- ===== src/Allocation/Invariant.antt =====
-- What holds of the maps of `AllocationManager` between any two calls.
pub mod Add
pub mod Delete
use zaza.Common.{
  ℕ, zero, suc, ◌+◌, ◌≤◌, ◌<◌, ◌≡◌, refl, sym, ap, ◌∙◌, ◌≢◌, inl, inr, arith, Bool, true, false,
  Bytes, List, [], ◌∷◌, Option, none, some, ◌==◌, same, if◌then◌else◌, Map, lookup, insert, erase,
  lookup-insert, lookup-erase, nat_eq, bytes_eq, bytes_beq, bytes_beq_iff, Bool-cases,
}
use zaza.Transport.Endpoint.{Endpoint, endpoint_key, endpoint_key-injective}
use zaza.Allocation.Types.{Allocation}
use zaza.Allocation.Manager.{AllocationManager, allocation_manager, update, release_port}
use zaza.Allocation.Handlers.{add_allocation, delete_allocation, set_expiry}

-- The relay address of the server with a port.
abbrev pub relay_key : AllocationManager → ℕ → Bytes
relay_key m port = endpoint_key (record { address = m.relay_address; port = port })

-- An object that `by_client_` holds under a key.
pub record ClientEntry (m : AllocationManager) (key : Bytes) (ref : ℕ) : Type 0 where
  pub own_key : key ≡ endpoint_key (m.heap ref).client_addr
  pub known : ref < m.next_id
  pub at_relay : (m.heap ref).relayed_addr.address ≡ m.relay_address
  pub relayed : lookup (relay_key m (m.heap ref).relayed_addr.port) m.by_relay ≡ some ref
  pub port_used : lookup (m.heap ref).relayed_addr.port m.used_ports ≡ some true

-- An object that `by_relay_` holds.
pub record RelayEntry (m : AllocationManager) (key : Bytes) (ref : ℕ) : Type 0 where
  pub own_key : key ≡ relay_key m (m.heap ref).relayed_addr.port
  pub owned : lookup (endpoint_key (m.heap ref).client_addr) m.by_client ≡ some ref

-- A port in `used_ports_` is marked, and an allocation has it.
pub record PortEntry (m : AllocationManager) (port : ℕ) (mark : Bool) : Type 0 where
  pub is_marked : mark ≡ true
  pub owner : ℕ
  pub relayed : lookup (relay_key m port) m.by_relay ≡ some owner
  pub owner_port : (m.heap owner).relayed_addr.port ≡ port

-- The two maps hold the same objects, each under its own keys, and the ports in use are theirs.
pub record Inv (m : AllocationManager) : Type 0 where
  pub clients : (k : Bytes) (ref : ℕ) → lookup k m.by_client ≡ some ref → ClientEntry m k ref
  pub relays : (k : Bytes) (ref : ℕ) → lookup k m.by_relay ≡ some ref → RelayEntry m k ref
  pub ports : (p : ℕ) (b : Bool) → lookup p m.used_ports ≡ some b → PortEntry m p b

pub init-Inv : (address : Bytes) (lo hi quota : ℕ) → Inv (allocation_manager address lo hi quota)
unfolding allocation_manager
init-Inv address lo hi quota = record {
  clients = λ k ref e. absurd (cc);
  relays = λ k ref e. absurd (cc);
  ports = λ p b e. absurd (cc);
}

-- Writes to the objects that leave their two addresses alone.
pub record SameEnds (h g : ℕ → Allocation) : Type 0 where
  pub same_client : (r : ℕ) → (g r).client_addr ≡ (h r).client_addr
  pub same_relayed : (r : ℕ) → (g r).relayed_addr ≡ (h r).relayed_addr

pub write-Inv :
    (m : AllocationManager) (g : ℕ → Allocation)
    → SameEnds m.heap g
    → Inv m
    → Inv (record m { heap = g })
write-Inv m g s v = record {
  clients = λ k ref e.
      let c = v.clients k ref e in
      record {
        own_key = rw (s.same_client ref) c.own_key;
        known = c.known;
        at_relay = rw (s.same_relayed ref) c.at_relay;
        relayed = rw (s.same_relayed ref) c.relayed;
        port_used = rw (s.same_relayed ref) c.port_used;
      };
  relays = λ k ref e.
      let c = v.relays k ref e in
      record {
        own_key = rw (s.same_relayed ref) c.own_key;
        owned = rw (s.same_client ref) c.owned;
      };
  ports = λ p b e.
      let c = v.ports p b e in
      record {
        is_marked = c.is_marked;
        owner = c.owner;
        relayed = c.relayed;
        owner_port = rw (s.same_relayed c.owner) c.owner_port;
      };
}
