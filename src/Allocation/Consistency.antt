-- ===== src/Allocation/Consistency.antt =====
-- The invariant of the maps is kept by every call.
use zaza.Common.{
  ℕ, ◌≡◌, refl, arith, Bool, true, false, Bytes, List, [], ◌∷◌, none, some, Map, lookup, nat_eq,
  bytes_eq,
}
use zaza.Message.Types.{Attribute, TurnMessage}
use zaza.Transport.Endpoint.{Endpoint, endpoint_key}
use zaza.Allocation.Types.{Allocation}
use zaza.Allocation.Denied.{AddressV4}
use zaza.Allocation.Manager.{AllocationManager, allocation_manager, update, allocate_port, peer_ip}
use zaza.Allocation.Handlers.{
  new_allocation, add_allocation, set_expiry, permit, permission_loop, bind_channel,
}
use zaza.Allocation.Ports.{allocate_port-IsFreePort}
use zaza.Allocation.Invariant.{Inv, SameEnds, write-Inv, init-Inv}
use zaza.Allocation.Invariant.Add.{add_allocation-Inv}
use zaza.Allocation.Invariant.Delete.{delete_allocation-Inv}
use zaza.Allocation.Cases.{
  handle_allocate_cases, handle_refresh_cases, handle_create_permission_cases,
  handle_channel_bind_cases,
}
use zaza.Allocation.Steps.{Call, allocates, refreshes, permits, binds, step, Reach, Reach-keeps}

-- What a write to one object keeps of it.
pub record SameOwner (a b : Allocation) : Type 0 where
  pub same_client : b.client_addr ≡ a.client_addr
  pub same_relayed : b.relayed_addr ≡ a.relayed_addr
  pub same_user : b.username ≡ a.username

pub permit-SameOwner :
    (a : Allocation) (address : Bytes) (now : ℕ) → SameOwner a (permit a address now)
unfolding permit
permit-SameOwner a address now = record {
  same_client = refl;
  same_relayed = refl;
  same_user = refl;
}

pub permission_loop-SameOwner :
    (lib : AddressV4) (now : ℕ) (attrs : List Attribute) (a : Allocation) (found : Bool)
    → SameOwner a (permission_loop lib now attrs a found).0
unfolding permission_loop
permission_loop-SameOwner lib now [] a found = record {
  same_client = refl;
  same_relayed = refl;
  same_user = refl;
}
permission_loop-SameOwner lib now (attr ∷ rest) a found =
    let p = permit-SameOwner a (lib.to_string (peer_ip attr.value)) now in
    let skip = permission_loop-SameOwner lib now rest a found in
    let next =
      permission_loop-SameOwner lib now rest (permit a (lib.to_string (peer_ip attr.value)) now)
        true in
    ground arith

pub bind_channel-SameOwner :
    (a : Allocation) (channel : ℕ) (peer : Endpoint) (now : ℕ)
    → SameOwner a (bind_channel a channel peer now)
unfolding bind_channel
bind_channel-SameOwner a channel peer now = record {
  same_client = refl;
  same_relayed = refl;
  same_user = refl;
}

update-SameEnds :
    (h : ℕ → Allocation) (ref : ℕ) (b : Allocation)
    → SameOwner (h ref) b
    → SameEnds h (update h ref b)
update-SameEnds h ref b s = record {
  same_client = λ r. ground arith;
  same_relayed = λ r. ground arith;
}

module _ (lib : AddressV4) (m : AllocationManager) (now : ℕ) (msg : TurnMessage) (client : Endpoint)
    (v : Inv m) where
  added-Inv :
      (username realm : Bytes) (draws : ℕ → ℕ) (port : ℕ) (used : Map ℕ Bool)
      → lookup (endpoint_key client) m.by_client ≡ none
      → allocate_port m draws ≡ some (port, used)
      → Inv (add_allocation m (new_allocation m now msg client username realm port) used)
  unfolding new_allocation
  added-Inv username realm draws port used absent e =
      let f = allocate_port-IsFreePort m draws e in
      rw f.marked (
        add_allocation-Inv m (new_allocation m now msg client username realm port) v
          (record { new_client = absent; on_relay = refl; free_port = f.was_free }))

  pub step-Inv : (call : Call) → Inv (step lib m now msg client call)
  unfolding step
  step-Inv (allocates draws username realm) =
      handle_allocate_cases Inv lib m now msg client v draws username realm
        λ port used absent room e. added-Inv username realm draws port used absent e
  step-Inv (refreshes username) =
      handle_refresh_cases Inv lib m now msg client v username
        (λ ref e. delete_allocation-Inv m client ref v e)
        (λ ref e.
          unfold set_expiry in
          write-Inv m _
            (update-SameEnds m.heap ref _
              (record { same_client = refl; same_relayed = refl; same_user = refl }))
            v)
  step-Inv permits = handle_create_permission_cases Inv lib m now msg client v λ ref e.
      write-Inv m _
        (update-SameEnds m.heap ref _
          (permission_loop-SameOwner lib now msg.attributes (m.heap ref) false))
        v
  step-Inv binds = handle_channel_bind_cases Inv lib m now msg client v λ ref channel peer e ok.
      write-Inv m _
        (update-SameEnds m.heap ref _ (bind_channel-SameOwner (m.heap ref) channel peer now)) v

-- After any history of calls on a new manager the two maps hold the same objects, each under the
-- keys of its own two addresses, and the ports marked in use are exactly those of these objects.
pub Reach-Inv :
    (lib : AddressV4) (address : Bytes) (lo hi quota : ℕ) {m : AllocationManager}
    → Reach lib (allocation_manager address lo hi quota) m
    → Inv m
Reach-Inv lib address lo hi quota r =
    Reach-keeps Inv (λ m now msg client call v. step-Inv lib m now msg client v call)
      (init-Inv address lo hi quota) r
