-- ===== src/Allocation/Manager.antt =====
-- allocation/allocation_manager.hpp and .cpp: the state of `AllocationManager` and its helpers.
-- The two maps share their `Allocation` objects through `shared_ptr`: a map holds the identity of
-- an object, `heap` the objects. (The identity is the object's `id`, which is unique.)
use zaza.Common.{nat_eq, bytes_eq}
use zaza.Common.{
  ℕ, zero, suc, ◌+◌, ◌-◌, ◌%◌, ◌^◌, min, Bool, true, false, Bytes, [], ◌∷◌, Option, none, some, ltb,
  ◌==◌, same, if◌then◌else◌, length, Map, lookup, insert, erase, word16, word32,
}
use zaza.Message.AttrType
use zaza.Message.Types.{TurnMessage, find_attr}
use zaza.Message.XorCodec.{xor_port, xor_addr_v4}
use zaza.Transport.Endpoint.{Endpoint, endpoint_key}
use zaza.Allocation.Types.{Allocation, k_default_lifetime, k_max_lifetime}

pub record AllocationManager : Type 0 where
  pub relay_address : Bytes
  pub relay_port_min : ℕ
  pub relay_port_max : ℕ
  pub max_alloc_per_user : ℕ
  pub next_id : ℕ
  pub heap : ℕ → Allocation
  pub by_client : Map Bytes ℕ
  pub by_relay : Map Bytes ℕ
  pub used_ports : Map ℕ Bool
  -- Whether the callbacks `client_send_` and `peer_send_` are set.
  pub client_send : Bool
  pub peer_send : Bool

abbrev no_allocation : Allocation
no_allocation = record {
  id = 0;
  client_addr = record { address = []; port = 0 };
  relayed_addr = record { address = []; port = 0 };
  username = [];
  realm = [];
  expires_at = 0;
  permissions = [];
  channels = [];
}

-- The constructor.
unfoldable pub allocation_manager : Bytes → ℕ → ℕ → ℕ → AllocationManager
allocation_manager relay_address relay_port_min relay_port_max max_alloc_per_user = record {
  relay_address = relay_address;
  relay_port_min = relay_port_min;
  relay_port_max = relay_port_max;
  max_alloc_per_user = max_alloc_per_user;
  next_id = 1;
  heap = λ _. no_allocation;
  by_client = [];
  by_relay = [];
  used_ports = [];
  client_send = false;
  peer_send = false;
}

unfoldable pub set_client_send_callback : AllocationManager → AllocationManager
set_client_send_callback m = record m { client_send = true }

unfoldable pub set_peer_send_callback : AllocationManager → AllocationManager
set_peer_send_callback m = record m { peer_send = true }

-- A write through a `shared_ptr`.
abbrev pub update : (ℕ → Allocation) → ℕ → Allocation → ℕ → Allocation
update heap ref a j = if j == ref then a else heap j

-- The attempts of `allocatePort` that are left. The i-th draw of the random generator is
-- `draws i`; a port that `used_ports_[port]` finds absent is free.
unfoldable pub port_loop : ℕ → ℕ → (ℕ → ℕ) → ℕ → Map ℕ Bool → Option (ℕ × Map ℕ Bool)
port_loop zero i draws port_min used = none
port_loop (suc attempts) i draws port_min used =
    let port = (port_min + draws i) % 2 ^ 16 in
    elim (lookup port used) [
      | none ↦ some (port, insert port true used)
      | some b ↦ elim b [
        | false ↦ some (port, insert port true used)
        | true ↦ port_loop attempts (suc i) draws port_min used
      ]
    ]

-- The bound of the draws: `range - 1` on `uint16_t`.
unfoldable pub draw_max : AllocationManager → ℕ
draw_max m =
    let range = (m.relay_port_max + 2 ^ 16 - m.relay_port_min + 1) % 2 ^ 16 in
    (range + 2 ^ 16 - 1) % 2 ^ 16

unfoldable pub allocate_port : AllocationManager → (ℕ → ℕ) → Option (ℕ × Map ℕ Bool)
unfolding port_loop
allocate_port m draws = port_loop 1000 0 draws m.relay_port_min m.used_ports

unfoldable pub release_port : AllocationManager → ℕ → AllocationManager
release_port m port = record m { used_ports = erase port m.used_ports }

-- `value[i]`, behind a test of the size.
abbrev pub at : Bytes → ℕ → ℕ
at [] i = 0
at (x ∷ xs) zero = x
at (x ∷ xs) (suc i) = at xs i

unfoldable pub lifetime_of : Bytes → ℕ
lifetime_of value =
    if ltb (length value) 4
    then k_default_lifetime
    else let requested = word32 (at value 0) (at value 1) (at value 2) (at value 3) in
      if requested == 0 then 0 else min requested k_max_lifetime

unfoldable pub requested_lifetime : TurnMessage → ℕ
unfolding lifetime_of
requested_lifetime msg = elim (find_attr msg AttrType.lifetime) [
  | none ↦ k_default_lifetime
  | some lt ↦ lifetime_of lt.value
]

-- The IPv4 address and the port in the value of an XOR-PEER-ADDRESS attribute of 8 bytes.
unfoldable pub peer_ip : Bytes → ℕ
peer_ip value = xor_addr_v4 (word32 (at value 4) (at value 5) (at value 6) (at value 7))

unfoldable pub peer_port : Bytes → ℕ
peer_port value = xor_port (word16 (at value 2) (at value 3))

unfoldable pub find_by_client : AllocationManager → Endpoint → Option ℕ
find_by_client m client = lookup (endpoint_key client) m.by_client

unfoldable pub find_by_relay : AllocationManager → Endpoint → Option ℕ
find_by_relay m relay = lookup (endpoint_key relay) m.by_relay

-- The allocations of a user, counted over `by_client_`.
unfoldable pub user_count : (ℕ → Allocation) → Bytes → Map Bytes ℕ → ℕ
user_count heap username [] = 0
user_count heap username ((k, ref) ∷ rest) =
    user_count heap username rest + (if same (heap ref).username username then 1 else 0)
