-- ===== src/Allocation/Types.antt =====
-- allocation/allocation.hpp. A time point is a number of seconds on the steady clock; the time at
-- which a call runs is its argument `now`.
use zaza.Common.{nat_eq, bytes_eq}
use zaza.Transport.Endpoint.{endpoint_eq}
use zaza.Common.{
  ℕ, Bool, false, ◌&&◌, Bytes, [], ◌∷◌, Option, none, some, ltb, leb, same, if◌then◌else◌, Map,
  lookup,
}
use zaza.Transport.Endpoint.{Endpoint}

pub record Permission : Type 0 where
  pub address : Bytes
  pub expires_at : ℕ

pub record ChannelBinding : Type 0 where
  pub channel_number : ℕ
  pub peer : Endpoint
  pub expires_at : ℕ

pub record Allocation : Type 0 where
  pub id : ℕ
  pub client_addr : Endpoint
  pub relayed_addr : Endpoint
  pub username : Bytes
  pub realm : Bytes
  pub expires_at : ℕ
  pub permissions : Map Bytes Permission
  pub channels : Map ℕ ChannelBinding

abbrev pub k_default_lifetime : ℕ
k_default_lifetime = 600

abbrev pub k_max_lifetime : ℕ
k_max_lifetime = 3600

abbrev pub k_permission_ttl : ℕ
k_permission_ttl = 300

abbrev pub k_channel_ttl : ℕ
k_channel_ttl = 600

-- `isExpired`
unfoldable pub is_expired : Allocation → ℕ → Bool
is_expired a now = leb a.expires_at now

-- `hasPermission`
unfoldable pub has_permission : Allocation → Bytes → ℕ → Bool
has_permission a peer_address now = elim (lookup peer_address a.permissions) [
  | none ↦ false
  | some p ↦ ltb now p.expires_at
]

-- The loop of `findChannelByPeer`.
unfoldable pub channel_by_peer : Map ℕ ChannelBinding → Endpoint → ℕ → Option ChannelBinding
channel_by_peer [] peer now = none
channel_by_peer ((num, ch) ∷ rest) peer now =
    if same ch.peer peer && ltb now ch.expires_at then some ch else channel_by_peer rest peer now

unfoldable pub find_channel_by_peer : Allocation → Endpoint → ℕ → Option ChannelBinding
unfolding channel_by_peer
find_channel_by_peer a = channel_by_peer a.channels

unfoldable pub find_channel_by_number : Allocation → ℕ → ℕ → Option ChannelBinding
find_channel_by_number a num now = elim (lookup num a.channels) [
  | none ↦ none
  | some ch ↦ if leb ch.expires_at now then none else some ch
]
