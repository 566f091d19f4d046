-- ===== src/Allocation/Invariant/Add.antt =====
-- `handleAllocate` adds an allocation: the invariant of the maps is kept.
use zaza.Common.{
  ℕ, ◌<◌, ◌≡◌, refl, sym, ap, ◌∙◌, ◌≢◌, inl, inr, arith, Bool, true, false, Bytes, none, some, ◌==◌,
  same, Map, lookup, insert, lookup-insert-same, lookup-insert_diff, lookup-insert_self, nat_eq,
  bytes_eq, bytes_beq_iff, Bool-cases, Option-cases,
}
use mathlib.Core.Path.{subst₂}
use zaza.Transport.Endpoint.{Endpoint, endpoint_key, endpoint_key-injective}
use zaza.Allocation.Types.{Allocation}
use zaza.Allocation.Manager.{AllocationManager, update}
use zaza.Allocation.Handlers.{add_allocation}
use zaza.Allocation.Invariant.{relay_key, ClientEntry, RelayEntry, PortEntry, Inv}

pub update_self : (h : ℕ → Allocation) (n : ℕ) (a : Allocation) → update h n a n ≡ a
update_self h n a = ground arith

pub update_other :
    (h : ℕ → Allocation) (n : ℕ) (a : Allocation) (j : ℕ) → j ≢ n → update h n a j ≡ h j
update_other h n a j d = ground arith

-- What `handleAllocate` has checked or made when it adds `a`.
pub record IsNew (m : AllocationManager) (a : Allocation) : Type 0 where
  pub new_client : lookup (endpoint_key a.client_addr) m.by_client ≡ none
  pub on_relay : a.relayed_addr.address ≡ m.relay_address
  pub free_port : lookup a.relayed_addr.port m.used_ports ≢ some true

module _ (m : AllocationManager) (a : Allocation) (v : Inv m) (w : IsNew m a) where
  abbrev used : Map ℕ Bool
  used = insert a.relayed_addr.port true m.used_ports

  abbrev m' : AllocationManager
  unfolding add_allocation
  m' = add_allocation m a used

  relay_key_lem : endpoint_key a.relayed_addr ≡ relay_key m a.relayed_addr.port
  relay_key_lem =
      ap (λ (t : Bytes). endpoint_key (record { address = t; port = a.relayed_addr.port }))
        w.on_relay

  -- No allocation has the relay key yet, for its port would be in use.
  new_relay : lookup (endpoint_key a.relayed_addr) m.by_relay ≡ none
  new_relay = elim (Option-cases (lookup (endpoint_key a.relayed_addr) m.by_relay)) [
    | inl free ↦ free
    | inr (ref, e) ↦
        let r = v.relays _ ref e in
        let c = v.clients _ ref r.owned in
        let q = endpoint_key-injective _ _ (sym relay_key_lem ∙ r.own_key) in
        let p : a.relayed_addr.port ≡ (m.heap ref).relayed_addr.port =
          ap (λ (t : Endpoint). t.port) q in
        absurd (w.free_port (rw p c.port_used))
  ]

  old_ref : (ref : ℕ) → ref < m.next_id → update m.heap m.next_id a ref ≡ m.heap ref
  old_ref ref h = update_other m.heap m.next_id a ref (λ e. omega arith)

  -- An entry that was there before.
  old_client : (k : Bytes) (ref : ℕ) → ClientEntry m k ref → ClientEntry m' k ref
  unfolding add_allocation
  old_client k ref c =
      let h = old_ref ref c.known in
      let apart : same (endpoint_key a.relayed_addr) (relay_key m (m.heap ref).relayed_addr.port)
          ≡ false =
        ground (
          arith,
          bytes_beq_iff (endpoint_key a.relayed_addr) (relay_key m (m.heap ref).relayed_addr.port),
          new_relay,
          c.relayed,
        ) in
      let port_apart : (a.relayed_addr.port == (m.heap ref).relayed_addr.port) ≡ false =
        ground (arith, w.free_port, c.port_used) in
      record {
        own_key = rw h c.own_key;
        known = omega (arith, c.known);
        at_relay = rw h c.at_relay;
        relayed =
            rw (h, lookup-insert_diff (endpoint_key a.relayed_addr) _ m.next_id m.by_relay apart)
              c.relayed;
        port_used =
            rw (h, lookup-insert_diff a.relayed_addr.port _ true m.used_ports port_apart)
              c.port_used;
      }

  -- The new entry.
  new_client_record : ClientEntry m' (endpoint_key a.client_addr) m.next_id
  unfolding add_allocation
  new_client_record =
      let h = update_self m.heap m.next_id a in
      record {
        own_key = rw h;
        known = omega arith;
        at_relay = rw h w.on_relay;
        relayed =
            rw (h, ← relay_key_lem)
              (lookup-insert_self (endpoint_key a.relayed_addr) m.next_id m.by_relay);
        port_used = rw h (lookup-insert_self a.relayed_addr.port true m.used_ports);
      }

  clients' : (k : Bytes) (ref : ℕ) → lookup k m'.by_client ≡ some ref → ClientEntry m' k ref
  unfolding add_allocation
  clients' k ref e = elim (Bool-cases (same (endpoint_key a.client_addr) k)) [
    | inl mine ↦
        let q : endpoint_key a.client_addr ≡ k = (bytes_beq_iff _ k).0 mine in
        let n : some m.next_id ≡ some ref =
          sym (lookup-insert-same (endpoint_key a.client_addr) k m.next_id m.by_client mine) ∙ e in
        subst₂ (λ x y. ClientEntry m' x y) q (cc) new_client_record
    | inr other ↦ old_client k ref (
        v.clients k ref
          (sym (lookup-insert_diff (endpoint_key a.client_addr) k m.next_id m.by_client other) ∙ e))
  ]

  old_relay : (k : Bytes) (ref : ℕ) → RelayEntry m k ref → RelayEntry m' k ref
  unfolding add_allocation
  old_relay k ref r =
      let c = v.clients _ ref r.owned in
      let h = old_ref ref c.known in
      let apart : same (endpoint_key a.client_addr) (endpoint_key (m.heap ref).client_addr)
          ≡ false =
        ground (
          arith,
          bytes_beq_iff (endpoint_key a.client_addr) (endpoint_key (m.heap ref).client_addr),
          w.new_client,
          r.owned,
        ) in
      record {
        own_key = rw h r.own_key;
        owned =
            rw (h, lookup-insert_diff (endpoint_key a.client_addr) _ m.next_id m.by_client apart)
              r.owned;
      }

  new_relay_record : RelayEntry m' (endpoint_key a.relayed_addr) m.next_id
  unfolding add_allocation
  new_relay_record =
      let h = update_self m.heap m.next_id a in
      record {
        own_key = rw h relay_key_lem;
        owned = rw h (lookup-insert_self (endpoint_key a.client_addr) m.next_id m.by_client);
      }

  relays' : (k : Bytes) (ref : ℕ) → lookup k m'.by_relay ≡ some ref → RelayEntry m' k ref
  unfolding add_allocation
  relays' k ref e = elim (Bool-cases (same (endpoint_key a.relayed_addr) k)) [
    | inl mine ↦
        let q : endpoint_key a.relayed_addr ≡ k = (bytes_beq_iff _ k).0 mine in
        let n : some m.next_id ≡ some ref =
          sym (lookup-insert-same (endpoint_key a.relayed_addr) k m.next_id m.by_relay mine) ∙ e in
        subst₂ (λ x y. RelayEntry m' x y) q (cc) new_relay_record
    | inr other ↦ old_relay k ref (
        v.relays k ref
          (sym (lookup-insert_diff (endpoint_key a.relayed_addr) k m.next_id m.by_relay other) ∙ e))
  ]

  old_port : (p : ℕ) (b : Bool) → PortEntry m p b → PortEntry m' p b
  unfolding add_allocation
  old_port p b q =
      let c = v.clients _ q.owner (v.relays _ q.owner q.relayed).owned in
      let apart : same (endpoint_key a.relayed_addr) (relay_key m p) ≡ false = ground (
        arith,
        bytes_beq_iff (endpoint_key a.relayed_addr) (relay_key m p),
        new_relay,
        q.relayed,
      ) in
      record {
        is_marked = q.is_marked;
        owner = q.owner;
        relayed =
            rw
              (lookup-insert_diff (endpoint_key a.relayed_addr) (relay_key m p) m.next_id m.by_relay
                apart)
              q.relayed;
        owner_port = rw (old_ref q.owner c.known) q.owner_port;
      }

  new_port : PortEntry m' a.relayed_addr.port true
  unfolding add_allocation
  new_port =
      let h = update_self m.heap m.next_id a in
      record {
        is_marked = refl;
        owner = m.next_id;
        relayed =
            rw (← relay_key_lem)
              (lookup-insert_self (endpoint_key a.relayed_addr) m.next_id m.by_relay);
        owner_port = rw h;
      }

  ports' : (p : ℕ) (b : Bool) → lookup p m'.used_ports ≡ some b → PortEntry m' p b
  unfolding add_allocation
  ports' p b e = elim (Bool-cases (a.relayed_addr.port == p)) [
    | inl mine ↦
        let n : some true ≡ some b =
          sym (lookup-insert-same a.relayed_addr.port p true m.used_ports mine) ∙ e in
        subst₂ (λ x y. PortEntry m' x y) (ground arith) (cc) new_port
    | inr other ↦
        old_port p b
          (v.ports p b (sym (lookup-insert_diff a.relayed_addr.port p true m.used_ports other) ∙ e))
  ]

  pub add_allocation-Inv : Inv (add_allocation m a (insert a.relayed_addr.port true m.used_ports))
  unfolding add_allocation
  add_allocation-Inv = record { clients = clients'; relays = relays'; ports = ports' }
