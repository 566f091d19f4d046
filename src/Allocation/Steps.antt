-- ===== src/Allocation/Steps.antt =====
-- The calls that change the state of `AllocationManager`, one after the other. The lock of each
-- handler makes every history of concurrent calls such a sequence.
use zaza.Common.{ℕ, Bytes}
use zaza.Message.Types.{TurnMessage}
use zaza.Transport.Endpoint.{Endpoint}
use zaza.Allocation.Denied.{AddressV4}
use zaza.Allocation.Manager.{AllocationManager}
use zaza.Allocation.Handlers.{
  handle_allocate, handle_refresh, handle_create_permission, handle_channel_bind,
}

-- A call with its arguments: the time, the request and its sender, and for `allocates` the draws
-- of the random generator, the user and the realm.
pub data Call : Type 0 where
  allocates : (ℕ → ℕ) → Bytes → Bytes → Call
  refreshes : Bytes → Call
  permits : Call
  binds : Call

unfoldable pub step :
    AddressV4 → AllocationManager → ℕ → TurnMessage → Endpoint → Call → AllocationManager
unfolding handle_allocate handle_refresh handle_create_permission handle_channel_bind
step lib m now msg client (allocates draws username realm) =
    (handle_allocate lib m draws now msg client username realm).0
step lib m now msg client (refreshes username) = (handle_refresh m now msg client username).0
step lib m now msg client permits = (handle_create_permission lib m now msg client).0
step lib m now msg client binds = (handle_channel_bind lib m now msg client).0

-- The states that a history of calls leads to.
pub data Reach (lib : AddressV4) (s : AllocationManager) : AllocationManager → Type 0 where
  start : Reach lib s s
  after :
      {m : AllocationManager}
      → Reach lib s m
      → (now : ℕ) (msg : TurnMessage) (client : Endpoint) (call : Call)
      → Reach lib s (step lib m now msg client call)

-- A property that each call keeps holds after every history.
pub Reach-keeps {ℓ} :
    (P : AllocationManager → Type ℓ) {lib : AddressV4} {s m : AllocationManager}
    → ((m : AllocationManager) (now : ℕ) (msg : TurnMessage) (client : Endpoint) (call : Call)
        → P m
        → P (step lib m now msg client call))
    → P s
    → Reach lib s m
    → P m
Reach-keeps P keep h start = h
Reach-keeps P keep h (after r now msg client call) =
    keep _ now msg client call (Reach-keeps P keep h r)
