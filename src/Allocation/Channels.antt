-- ===== src/Allocation/Channels.antt =====
-- The channels of an allocation, and what a call of `handleChannelBind` gives.
use zaza.Common.{
  ℕ, ◌≤◌, ◌≡◌, refl, sym, ◌∙◌, ◌≢◌, inl, inr, arith, Bool, true, false, Bytes, List, [], ◌∷◌, All,
  ◌==◌, Map, insert, nat_eq, bytes_eq, All-insert, ltb, length, Bool-cases,
}
use zaza.Message.AttrType
use zaza.Message.Types.{Attribute, TurnMessage}
use zaza.Transport.Endpoint.{Endpoint, endpoint_beq_iff}
use zaza.Allocation.Types.{Allocation, ChannelBinding, Permission}
use zaza.Allocation.Denied.{AddressV4, is_denied_address}
use zaza.Allocation.Manager.{AllocationManager, allocation_manager, update, peer_ip}
use zaza.Allocation.Handlers.{
  new_allocation, add_allocation, delete_allocation, set_expiry, permit, permission_loop,
  bound_elsewhere, peer_bound, bind_channel,
}
use zaza.Allocation.Cases.{
  handle_allocate_cases, handle_refresh_cases, handle_create_permission_cases,
  handle_channel_bind_cases,
}
use zaza.Allocation.Steps.{Call, allocates, refreshes, permits, binds, step, Reach, Reach-keeps}

-- An entry of `channels`: its number is in the channel range and is its key.
abbrev pub Numbered : ℕ × ChannelBinding → Type 0
Numbered e = (0x4000 ≤ e.0) × (e.0 ≤ 0x4FFF) × (e.1.channel_number ≡ e.0)

-- No two channels have one peer.
abbrev pub OnePerPeer : Map ℕ ChannelBinding → Type 0
OnePerPeer [] = Unit {0}
OnePerPeer ((num, ch) ∷ rest) =
    All (λ (e : ℕ × ChannelBinding). (e.0 ≢ num) × (e.1.peer ≢ ch.peer)) rest × OnePerPeer rest

-- A permission stands under its address, and the address is not denied.
abbrev pub Allowed : AddressV4 → Bytes × Permission → Type 0
Allowed lib e = (e.1.address ≡ e.0) × (is_denied_address lib e.0 ≡ false)

pub record Sound (lib : AddressV4) (a : Allocation) : Type 0 where
  pub numbered : All Numbered a.channels
  pub one_per_peer : OnePerPeer a.channels
  pub allowed : All (Allowed lib) a.permissions

permit-Sound :
    (lib : AddressV4) (a : Allocation) (address : Bytes) (now : ℕ)
    → is_denied_address lib address ≡ false
    → Sound lib a
    → Sound lib (permit a address now)
unfolding permit
permit-Sound lib a address now d s = record {
  numbered = s.numbered;
  one_per_peer = s.one_per_peer;
  allowed = All-insert (Allowed lib) address _ a.permissions (refl, d) s.allowed;
}

permission_loop-Sound :
    (lib : AddressV4) (now : ℕ) (attrs : List Attribute) (a : Allocation) (found : Bool)
    → Sound lib a
    → Sound lib (permission_loop lib now attrs a found).0
unfolding permission_loop
permission_loop-Sound lib now [] a found s = s
permission_loop-Sound lib now (attr ∷ rest) a found s =
    elim (Bool-cases (attr.type == AttrType.xor_peer_address)) [
      | inr no_peer ↦ rw (no_peer, permission_loop) (permission_loop-Sound lib now rest a found s)
      | inl is_peer ↦ elim (Bool-cases (ltb (length attr.value) 8)) [
        | inl short ↦
            rw (is_peer, short, permission_loop) (permission_loop-Sound lib now rest a found s)
        | inr long ↦
            elim (Bool-cases (is_denied_address lib (lib.to_string (peer_ip attr.value)))) [
              | inl bad ↦ rw (is_peer, long, bad, permission_loop) s
              | inr good ↦
                  rw (is_peer, long, good, permission_loop)
                    (permission_loop-Sound lib now rest
                      (permit a (lib.to_string (peer_ip attr.value)) now) true
                      (permit-Sound lib a (lib.to_string (peer_ip attr.value)) now good s))
            ]
      ]
    ]

-- Another channel and another peer than those of an entry.
abbrev Apart : ℕ → ChannelBinding → ℕ × ChannelBinding → Type 0
Apart num ch e = (e.0 ≢ num) × (e.1.peer ≢ ch.peer)

Apart-peer :
    (k : ℕ) (c d : ChannelBinding) (l : Map ℕ ChannelBinding)
    → c.peer ≡ d.peer
    → All (Apart k c) l
    → All (Apart k d) l
Apart-peer k c d [] e h = tt
Apart-peer k c d (x ∷ l) e h = ((h.0.0, λ q. h.0.1 (q ∙ sym e)), Apart-peer k c d l e h.1)

-- The checks of `handleChannelBind` on the channels.
insert-OnePerPeer :
    (channel : ℕ) (ch : ChannelBinding) (l : Map ℕ ChannelBinding)
    → bound_elsewhere l channel ch.peer ≡ false
    → peer_bound l channel ch.peer ≡ false
    → OnePerPeer l
    → OnePerPeer (insert channel ch l)
unfolding bound_elsewhere peer_bound
insert-OnePerPeer channel ch [] e f h = (tt, tt)
insert-OnePerPeer channel ch ((k, c) ∷ l) e f h = elim (Bool-cases (k == channel)) [
  | inl hit ↦
      rw hit (Apart-peer k c ch l (ground (arith, endpoint_beq_iff c.peer ch.peer)) h.0, h.1)
  | inr miss ↦ rw miss (
    All-insert (Apart k c) channel ch l
        ((λ q. ground arith), (λ q. ground (arith, endpoint_beq_iff c.peer ch.peer))) h.0,
    insert-OnePerPeer channel ch l (ground arith) (ground arith) h.1,
  )
]

bind_channel-Sound :
    (lib : AddressV4) (a : Allocation) (channel : ℕ) (peer : Endpoint) (now : ℕ)
    → 0x4000 ≤ channel
    → channel ≤ 0x4FFF
    → is_denied_address lib peer.address ≡ false
    → bound_elsewhere a.channels channel peer ≡ false
    → peer_bound a.channels channel peer ≡ false
    → Sound lib a
    → Sound lib (bind_channel a channel peer now)
unfolding bind_channel permit
bind_channel-Sound lib a channel peer now lo hi d e f s = record {
  numbered = All-insert Numbered channel _ a.channels (lo, hi, refl) s.numbered;
  one_per_peer = insert-OnePerPeer channel _ a.channels e f s.one_per_peer;
  allowed = All-insert (Allowed lib) peer.address _ a.permissions (refl, d) s.allowed;
}

-- Every object is sound.
abbrev pub AllSound : AddressV4 → AllocationManager → Type 0
AllSound lib m = (ref : ℕ) → Sound lib (m.heap ref)

write-AllSound :
    (lib : AddressV4) (h : ℕ → Allocation) (ref : ℕ) (b : Allocation)
    → ((r : ℕ) → Sound lib (h r))
    → Sound lib b
    → (r : ℕ) → Sound lib (update h ref b r)
write-AllSound lib h ref b s t r = elim (Bool-cases (r == ref)) [
  | inl hit ↦ rw hit t
  | inr miss ↦ rw miss (s r)
]

pub step-AllSound :
    (lib : AddressV4) (m : AllocationManager) (now : ℕ) (msg : TurnMessage) (client : Endpoint)
    (call : Call)
    → AllSound lib m
    → AllSound lib (step lib m now msg client call)
unfolding step
step-AllSound lib m now msg client (allocates draws username realm) s =
    handle_allocate_cases (AllSound lib) lib m now msg client s draws username realm
      λ port used absent room e.
        unfold add_allocation new_allocation in
        write-AllSound lib m.heap _ _ s (record { numbered = tt; one_per_peer = tt; allowed = tt })
step-AllSound lib m now msg client (refreshes username) s =
    handle_refresh_cases (AllSound lib) lib m now msg client s username
      (λ ref e. unfold delete_allocation in s)
      (λ ref e.
        unfold set_expiry in
        write-AllSound lib m.heap ref _ s (record {
          numbered = (s ref).numbered;
          one_per_peer = (s ref).one_per_peer;
          allowed = (s ref).allowed;
        }))
step-AllSound lib m now msg client permits s =
    handle_create_permission_cases (AllSound lib) lib m now msg client s λ ref e.
      write-AllSound lib m.heap ref _ s
        (permission_loop-Sound lib now msg.attributes (m.heap ref) false (s ref))
step-AllSound lib m now msg client binds s =
    handle_channel_bind_cases (AllSound lib) lib m now msg client s λ ref channel peer e ok.
      write-AllSound lib m.heap ref _ s
        (bind_channel-Sound lib (m.heap ref) channel peer now ok.0 ok.1 ok.2 ok.3 ok.4 (s ref))

pub init-AllSound :
    (lib : AddressV4) (address : Bytes) (lo hi quota : ℕ)
    → AllSound lib (allocation_manager address lo hi quota)
unfolding allocation_manager
init-AllSound lib address lo hi quota ref = record {
  numbered = tt;
  one_per_peer = tt;
  allowed = tt;
}

-- After any history of calls on a new manager each allocation has only channel numbers in 0x4000
-- to 0x4FFF, each under its number, no two channels for one peer, and permissions for addresses
-- that are not denied only.
pub Reach-Sound :
    (lib : AddressV4) (address : Bytes) (lo hi quota : ℕ) {m : AllocationManager}
    → Reach lib (allocation_manager address lo hi quota) m
    → (ref : ℕ) → Sound lib (m.heap ref)
Reach-Sound lib address lo hi quota r =
    Reach-keeps (AllSound lib)
      (λ s now msg client call h. step-AllSound lib s now msg client call h)
      (init-AllSound lib address lo hi quota) r
