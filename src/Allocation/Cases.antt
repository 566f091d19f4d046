-- ===== src/Allocation/Cases.antt =====
-- What each handler can do to the state, as rules: a property of the state after a call follows
-- from the property for each way in which the handler changes the state.
use zaza.Common.{
  ℕ, ◌+◌, ◌≤◌, ◌<◌, ◌≡◌, inl, inr, arith, Bool, false, not, ◌||◌, Bytes, none, some, ltb, leb, ◌==◌,
  same, Map, lookup, bytes_eq, length, Bool-cases, Option-cases, word16,
}
use zaza.Message.AttrType
use zaza.Message.Types.{TurnMessage, find_attr}
use zaza.Transport.Endpoint.{Endpoint, endpoint_key}
use zaza.Allocation.Denied.{AddressV4, is_denied_address}
use zaza.Allocation.Manager.{
  AllocationManager, update, allocate_port, at, requested_lifetime, user_count,
}
use zaza.Allocation.Handlers.{
  new_allocation, add_allocation, allocate_checked, handle_allocate, delete_allocation, set_expiry,
  handle_refresh, permission_loop, handle_create_permission, bound_elsewhere, peer_bound,
  bind_channel, bind_checked, bind_attributes, handle_channel_bind, peer_of,
}

module _ {ℓ} (P : AllocationManager → Type ℓ) (lib : AddressV4) (m : AllocationManager) (now : ℕ)
    (msg : TurnMessage) (client : Endpoint) (kept : P m) where
  allocate_checked_cases :
      (draws : ℕ → ℕ) (username realm : Bytes)
      → ((port : ℕ) (used : Map ℕ Bool)
          → user_count m.heap username m.by_client < m.max_alloc_per_user
          → allocate_port m draws ≡ some (port, used)
          → P (add_allocation m (new_allocation m now msg client username realm port) used))
      → P (allocate_checked lib m draws now msg client username realm).0
  unfolding allocate_checked
  allocate_checked_cases draws username realm added =
      elim (Bool-cases (leb m.max_alloc_per_user (user_count m.heap username m.by_client))) [
        | inl full ↦ rw (full, allocate_checked) kept
        | inr room ↦ elim (Option-cases (allocate_port m draws)) [
          | inl no_port ↦ rw (room, no_port, allocate_checked) kept
          | inr ((port, used), e) ↦
              rw (room, e, allocate_checked) (added port used (ground arith) e)
        ]
      ]

  pub handle_allocate_cases :
      (draws : ℕ → ℕ) (username realm : Bytes)
      → ((port : ℕ) (used : Map ℕ Bool)
          → lookup (endpoint_key client) m.by_client ≡ none
          → user_count m.heap username m.by_client < m.max_alloc_per_user
          → allocate_port m draws ≡ some (port, used)
          → P (add_allocation m (new_allocation m now msg client username realm port) used))
      → P (handle_allocate lib m draws now msg client username realm).0
  handle_allocate_cases draws username realm added =
      elim (Option-cases (lookup (endpoint_key client) m.by_client)) [
        | inr (ref, e) ↦ unfold handle_allocate in rw (e, handle_allocate) kept
        | inl absent ↦ elim (Option-cases (find_attr msg AttrType.requested_transport)) [
          | inl none_sent ↦ unfold handle_allocate in rw (absent, none_sent, handle_allocate) kept
          | inr (rt, e) ↦ elim (Bool-cases (ltb (length rt.value) 4 || not (at rt.value 0 == 17))) [
            | inl bad ↦ unfold handle_allocate in rw (absent, e, bad, handle_allocate) kept
            | inr udp ↦
                unfold handle_allocate in
                rw (absent, e, udp, handle_allocate)
                  (allocate_checked_cases draws username realm
                    (λ port used r q. added port used absent r q))
          ]
        ]
      ]

  pub handle_refresh_cases :
      (username : Bytes)
      → ((ref : ℕ)
          → lookup (endpoint_key client) m.by_client ≡ some ref
          → P (delete_allocation m client ref))
      → ((ref : ℕ)
          → lookup (endpoint_key client) m.by_client ≡ some ref
          → P (set_expiry m ref (now + requested_lifetime msg)))
      → P (handle_refresh m now msg client username).0
  unfolding handle_refresh
  handle_refresh_cases username deleted extended =
      elim (Option-cases (lookup (endpoint_key client) m.by_client)) [
        | inl absent ↦ rw (absent, handle_refresh) kept
        | inr (ref, e) ↦ elim (Bool-cases (same (m.heap ref).username username)) [
          | inr wrong ↦ rw (e, wrong, handle_refresh) kept
          | inl right ↦ elim (Bool-cases (requested_lifetime msg == 0)) [
            | inl zero_life ↦ rw (e, right, zero_life, handle_refresh) (deleted ref e)
            | inr life ↦ rw (e, right, life, handle_refresh) (extended ref e)
          ]
        ]
      ]

  pub handle_create_permission_cases :
      ((ref : ℕ)
        → lookup (endpoint_key client) m.by_client ≡ some ref
        → P (record m {
          heap = update m.heap ref (permission_loop lib now msg.attributes (m.heap ref) false).0;
        }))
      → P (handle_create_permission lib m now msg client).0
  unfolding handle_create_permission
  handle_create_permission_cases changed =
      elim (Option-cases (lookup (endpoint_key client) m.by_client)) [
        | inl absent ↦ rw (absent, handle_create_permission) kept
        | inr (ref, e) ↦ rw (e, handle_create_permission) (changed ref e)
      ]

  -- What `handleChannelBind` has checked when it binds.
  abbrev pub Bindable : ℕ → ℕ → Endpoint → Type 0
  Bindable ref channel peer =
      (0x4000 ≤ channel)
      × (channel ≤ 0x4FFF)
      × (is_denied_address lib peer.address ≡ false)
      × (bound_elsewhere (m.heap ref).channels channel peer ≡ false)
      × (peer_bound (m.heap ref).channels channel peer ≡ false)

  bind_checked_cases :
      (ref channel : ℕ) (peer : Endpoint)
      → 0x4000 ≤ channel
      → channel ≤ 0x4FFF
      → (Bindable ref channel peer
          → P (record m { heap = update m.heap ref (bind_channel (m.heap ref) channel peer now) }))
      → P (bind_checked lib m now msg ref channel peer).0
  bind_checked_cases ref channel peer lo hi bound =
      elim (Bool-cases (is_denied_address lib peer.address)) [
        | inl denied_peer ↦ unfold bind_checked in rw (denied_peer, bind_checked) kept
        | inr allowed ↦ elim (Bool-cases (bound_elsewhere (m.heap ref).channels channel peer)) [
          | inl taken ↦ unfold bind_checked in rw (allowed, taken, bind_checked) kept
          | inr free ↦ elim (Bool-cases (peer_bound (m.heap ref).channels channel peer)) [
            | inl second ↦ unfold bind_checked in rw (allowed, free, second, bind_checked) kept
            | inr first ↦
                unfold bind_checked in
                rw (allowed, free, first, bind_checked) (bound (lo, hi, allowed, free, first))
          ]
        ]
      ]

  bind_attributes_cases :
      (ref : ℕ) (ch_value peer_value : Bytes)
      → ((channel : ℕ) (peer : Endpoint)
          → Bindable ref channel peer
          → P (record m { heap = update m.heap ref (bind_channel (m.heap ref) channel peer now) }))
      → P (bind_attributes lib m now msg ref ch_value peer_value).0
  bind_attributes_cases ref ch_value peer_value bound =
      let channel : ℕ = word16 (at ch_value 0) (at ch_value 1) in
      elim (Bool-cases (ltb (length ch_value) 2 || ltb (length peer_value) 8)) [
        | inl short ↦ unfold bind_attributes in rw (short, bind_attributes) kept
        | inr long ↦ elim (Bool-cases (ltb channel 0x4000 || ltb 0x4FFF channel)) [
          | inl outside ↦ unfold bind_attributes in rw (long, outside, bind_attributes) kept
          | inr inside ↦
              unfold bind_attributes in
              rw (long, inside, bind_attributes)
                (bind_checked_cases ref channel (peer_of lib peer_value) (ground arith)
                  (ground arith) (bound channel (peer_of lib peer_value)))
        ]
      ]

  pub handle_channel_bind_cases :
      ((ref channel : ℕ) (peer : Endpoint)
        → lookup (endpoint_key client) m.by_client ≡ some ref
        → Bindable ref channel peer
        → P (record m { heap = update m.heap ref (bind_channel (m.heap ref) channel peer now) }))
      → P (handle_channel_bind lib m now msg client).0
  handle_channel_bind_cases bound = elim (Option-cases (lookup (endpoint_key client) m.by_client)) [
    | inl absent ↦ unfold handle_channel_bind in rw (absent, handle_channel_bind) kept
    | inr (ref, e) ↦ elim (Option-cases (find_attr msg AttrType.channel_number)) [
      | inl no_channel ↦ unfold handle_channel_bind in rw (e, no_channel, handle_channel_bind) kept
      | inr (ch, e1) ↦ elim (Option-cases (find_attr msg AttrType.xor_peer_address)) [
        | inl no_peer ↦ unfold handle_channel_bind in rw (e, e1, no_peer, handle_channel_bind) kept
        | inr (pa, e2) ↦
            unfold handle_channel_bind in
            rw (e, e1, e2, handle_channel_bind)
              (bind_attributes_cases ref ch.value pa.value
                (λ channel peer ok. bound ref channel peer e ok))
      ]
    ]
  ]
