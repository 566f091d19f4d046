-- ===== src/TurnServer/Kept.antt =====
-- turn_server/src/main.cpp: what holds of the allocations from the start on, and after each packet.
use zaza.Common.{◌≡◌, refl, sym, subst, ◌∙◌, inl, inr, arith, Bytes, Map, bytes_eq}
use zaza.Common.Checked.{ret}
use zaza.Allocation.Denied.{AddressV4}
use zaza.Allocation.Manager.{
  AllocationManager, allocation_manager, user_count, set_client_send_callback,
  set_peer_send_callback,
}
use zaza.Allocation.Invariant.{Inv}
use zaza.Allocation.Consistency.{step-Inv}
use zaza.Allocation.Channels.{AllSound, step-AllSound}
use zaza.Allocation.Quota.{WithinQuota, step-WithinQuota, step-max_alloc_per_user}
use zaza.Auth.Crypto.{OpenSsl}
use zaza.Dispatcher.Packet.{TurnDispatcher, Outcome, turn_dispatcher, on_packet}
use zaza.Dispatcher.Guard.{on_packet-Authorised}
use zaza.TurnServer.Server.{start_server, Arrival}

module _ (lib : AddressV4) (ssl : OpenSsl) where
  -- What the handlers of the allocation manager keep.
  pub record Kept (m : AllocationManager) : Type 0 where
    pub consistent : Inv m
    pub sound : AllSound lib m
    pub within : WithinQuota m
    pub limit : m.max_alloc_per_user ≡ 10

  pub on_packet-Kept :
      (d : TurnDispatcher) (p : Arrival) (o : Outcome)
      → on_packet lib ssl d p.moment p.payload p.from ≡ ret o
      → Kept d.allocations
      → Kept o.0.allocations
  on_packet-Kept d p o q k =
      elim (on_packet-Authorised lib ssl d o.0 p.moment p.payload p.from o.1 q) [
        | inl same_allocations ↦ subst Kept (sym same_allocations) k
        | inr a ↦
            let m = d.allocations in
            let now = p.moment.steady in
            subst Kept (sym a.stepped) record {
              consistent = step-Inv lib m now a.msg p.from k.consistent a.call;
              sound = step-AllSound lib m now a.msg p.from a.call k.sound;
              within = step-WithinQuota m k.within lib now a.msg p.from a.call;
              limit = step-max_alloc_per_user lib m now a.msg p.from a.call ∙ k.limit;
            }
      ]

  pub start_server-Kept : (data_ : Map Bytes Bytes) → Kept (start_server data_).allocations
  unfolding start_server turn_dispatcher allocation_manager set_client_send_callback
      set_peer_send_callback user_count
  start_server-Kept data_ = record {
    consistent = record {
      clients = λ k ref e. absurd (cc);
      relays = λ k ref e. absurd (cc);
      ports = λ p b e. absurd (cc);
    };
    sound = λ ref. record { numbered = tt; one_per_peer = tt; allowed = tt };
    within = record { older = tt; within = λ u. omega arith };
    limit = refl;
  }
