-- ===== src/Allocation/Lifetime.antt =====
-- The lifetimes that a request asks for and that an allocation is granted.
use zaza.Common.{◌≤◌, ◌<◌, inl, inr, arith, Option-cases, Bytes}
use zaza.Message.AttrType
use zaza.Message.Types.{TurnMessage, find_attr}
use zaza.Allocation.Types.{k_max_lifetime}
use zaza.Allocation.Manager.{lifetime_of, requested_lifetime}
use zaza.Allocation.Handlers.{granted_lifetime}

lifetime_of-le : (value : Bytes) → lifetime_of value ≤ k_max_lifetime
unfolding lifetime_of
lifetime_of-le value = ground arith

-- No request is given more than an hour, and an allocation gets at least a second.
pub requested_lifetime-le :
    (msg : TurnMessage)
    → (requested_lifetime msg ≤ k_max_lifetime)
      × (0 < granted_lifetime msg)
      × (granted_lifetime msg ≤ k_max_lifetime)
unfolding requested_lifetime granted_lifetime
requested_lifetime-le msg = elim (Option-cases (find_attr msg AttrType.lifetime)) [
  | inl absent ↦ ground arith
  | inr (a, found) ↦ ground (arith, lifetime_of-le a.value)
]
