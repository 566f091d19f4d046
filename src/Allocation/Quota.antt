-- ===== src/Allocation/Quota.antt =====
-- The quota: how many allocations one user can have.
use zaza.Common.{
  ℕ, ◌+◌, ◌≤◌, ◌<◌, ◌≡◌, refl, ◌∙◌, arith, Bool, false, Bytes, [], ◌∷◌, none, All, same,
  if◌then◌else◌, Map, lookup, insert, erase, bytes_eq,
}
use zaza.Message.Types.{TurnMessage}
use zaza.Transport.Endpoint.{Endpoint, endpoint_key}
use zaza.Allocation.Types.{Allocation}
use zaza.Allocation.Denied.{AddressV4}
use zaza.Allocation.Manager.{AllocationManager, allocation_manager, update, user_count}
use zaza.Allocation.Handlers.{new_allocation, add_allocation, delete_allocation, set_expiry}
use zaza.Common.{bytes_beq_iff}
use zaza.Allocation.Invariant.Add.{update_self}
use zaza.Allocation.Cases.{
  handle_allocate_cases, handle_refresh_cases, handle_create_permission_cases,
  handle_channel_bind_cases,
}
use zaza.Allocation.Steps.{Call, allocates, refreshes, permits, binds, step, Reach, Reach-keeps}
use zaza.Allocation.Consistency.{SameOwner, permission_loop-SameOwner, bind_channel-SameOwner}

-- The objects of a map are older than `n`.
abbrev Older : ℕ → Map Bytes ℕ → Type 0
Older n l = All (λ (e : Bytes × ℕ). e.1 < n) l

pub record WithinQuota (m : AllocationManager) : Type 0 where
  pub older : Older m.next_id m.by_client
  pub within : (username : Bytes) → user_count m.heap username m.by_client ≤ m.max_alloc_per_user

-- The counts depend on the users of the objects only.
user_count-same :
    (h g : ℕ → Allocation) (u : Bytes) (l : Map Bytes ℕ)
    → ((r : ℕ) → (g r).username ≡ (h r).username)
    → user_count g u l ≡ user_count h u l
unfolding user_count
user_count-same h g u [] s = refl
user_count-same h g u ((k, r) ∷ l) s = rw (s r, user_count-same h g u l s)

user_count-new :
    (h : ℕ → Allocation) (n : ℕ) (a : Allocation) (u : Bytes) (l : Map Bytes ℕ)
    → Older n l
    → user_count (update h n a) u l ≡ user_count h u l
unfolding user_count
user_count-new h n a u [] o = refl
user_count-new h n a u ((k, r) ∷ l) o = ground (arith, user_count-new h n a u l o.1)

user_count-insert :
    (h : ℕ → Allocation) (u key : Bytes) (n : ℕ) (l : Map Bytes ℕ)
    → lookup key l ≡ none
    → user_count h u (insert key n l) ≡ user_count h u l + (if same (h n).username u then 1 else 0)
unfolding user_count
user_count-insert h u key n [] e = omega arith
user_count-insert h u key n ((k, r) ∷ l) e = ground (arith, user_count-insert h u key n l)

user_count-erase :
    (h : ℕ → Allocation) (u key : Bytes) (l : Map Bytes ℕ)
    → user_count h u (erase key l) ≤ user_count h u l
unfolding user_count
user_count-erase h u key [] = omega arith
user_count-erase h u key ((k, r) ∷ l) = ground (arith, user_count-erase h u key l)

Older-insert : (n : ℕ) (key : Bytes) (l : Map Bytes ℕ) → Older n l → Older (n + 1) (insert key n l)
Older-insert n key [] o = omega arith
Older-insert n key ((k, r) ∷ l) o = ground (arith, Older-insert n key l o.1, Older-suc n l o.1)
  where
    Older-suc : (n : ℕ) (l : Map Bytes ℕ) → Older n l → Older (n + 1) l
    Older-suc n [] o = tt
    Older-suc n ((k, r) ∷ l) o = (omega arith, Older-suc n l o.1)

Older-erase : (n : ℕ) (key : Bytes) (l : Map Bytes ℕ) → Older n l → Older n (erase key l)
Older-erase n key [] o = tt
Older-erase n key ((k, r) ∷ l) o = ground (arith, Older-erase n key l o.1)

module _ (m : AllocationManager) (v : WithinQuota m) where
  write-WithinQuota :
      (ref : ℕ) (b : Allocation)
      → SameOwner (m.heap ref) b
      → WithinQuota (record m { heap = update m.heap ref b })
  write-WithinQuota ref b s = record {
    older = v.older;
    within = λ u.
        rw (user_count-same m.heap (update m.heap ref b) u m.by_client (λ r. ground arith))
          (v.within u);
  }

  added-WithinQuota :
      (a : Allocation) (used : Map ℕ Bool)
      → lookup (endpoint_key a.client_addr) m.by_client ≡ none
      → user_count m.heap a.username m.by_client < m.max_alloc_per_user
      → WithinQuota (add_allocation m a used)
  unfolding add_allocation
  added-WithinQuota a used absent room = record {
    older = Older-insert m.next_id (endpoint_key a.client_addr) m.by_client v.older;
    within = λ u.
        rw
          (
            user_count-insert (update m.heap m.next_id a) u (endpoint_key a.client_addr) m.next_id
                m.by_client absent,
            user_count-new m.heap m.next_id a u m.by_client v.older,
            update_self m.heap m.next_id a,
          )
          (ground (arith, bytes_beq_iff a.username u, v.within u, room));
  }

  deleted-WithinQuota : (client : Endpoint) (ref : ℕ) → WithinQuota (delete_allocation m client ref)
  unfolding delete_allocation
  deleted-WithinQuota client ref = record {
    older = Older-erase m.next_id (endpoint_key client) m.by_client v.older;
    within =
        λ u. omega (arith, v.within u, user_count-erase m.heap u (endpoint_key client) m.by_client);
  }

  pub step-WithinQuota :
      (lib : AddressV4) (now : ℕ) (msg : TurnMessage) (client : Endpoint) (call : Call)
      → WithinQuota (step lib m now msg client call)
  unfolding step
  step-WithinQuota lib now msg client (allocates draws username realm) =
      handle_allocate_cases WithinQuota lib m now msg client v draws username realm
        λ port used absent room e. unfold new_allocation in added-WithinQuota _ used absent room
  step-WithinQuota lib now msg client (refreshes username) =
      handle_refresh_cases WithinQuota lib m now msg client v username
        (λ ref e. deleted-WithinQuota client ref)
        (λ ref e.
          unfold set_expiry in
          write-WithinQuota ref _
            (record { same_client = refl; same_relayed = refl; same_user = refl }))
  step-WithinQuota lib now msg client permits =
      handle_create_permission_cases WithinQuota lib m now msg client v λ ref e.
        write-WithinQuota ref _
          (permission_loop-SameOwner lib now msg.attributes (m.heap ref) false)
  step-WithinQuota lib now msg client binds =
      handle_channel_bind_cases WithinQuota lib m now msg client v λ ref channel peer e ok.
        write-WithinQuota ref _ (bind_channel-SameOwner (m.heap ref) channel peer now)

pub step-max_alloc_per_user :
    (lib : AddressV4) (m : AllocationManager) (now : ℕ) (msg : TurnMessage) (client : Endpoint)
    (call : Call)
    → (step lib m now msg client call).max_alloc_per_user ≡ m.max_alloc_per_user
unfolding step
step-max_alloc_per_user lib m now msg client (allocates draws username realm) =
    handle_allocate_cases (λ s. s.max_alloc_per_user ≡ m.max_alloc_per_user) lib m now msg client
      refl draws username realm λ port used absent room e. unfold add_allocation in refl
step-max_alloc_per_user lib m now msg client (refreshes username) =
    handle_refresh_cases (λ s. s.max_alloc_per_user ≡ m.max_alloc_per_user) lib m now msg client
      refl username (λ ref e. unfold delete_allocation in refl) (λ ref e. unfold set_expiry in refl)
step-max_alloc_per_user lib m now msg client permits =
    handle_create_permission_cases (λ s. s.max_alloc_per_user ≡ m.max_alloc_per_user) lib m now msg
      client refl λ ref e. refl
step-max_alloc_per_user lib m now msg client binds =
    handle_channel_bind_cases (λ s. s.max_alloc_per_user ≡ m.max_alloc_per_user) lib m now msg
      client refl λ ref channel peer e ok. refl

pub init-WithinQuota :
    (address : Bytes) (lo hi quota : ℕ) → WithinQuota (allocation_manager address lo hi quota)
unfolding allocation_manager user_count
init-WithinQuota address lo hi quota = record { older = tt; within = λ u. omega arith }

-- After any history of calls on a new manager no user has more allocations than the quota.
pub Reach-quota :
    (lib : AddressV4) (address : Bytes) (lo hi quota : ℕ) {m : AllocationManager}
    → Reach lib (allocation_manager address lo hi quota) m
    → (username : Bytes) → user_count m.heap username m.by_client ≤ quota
Reach-quota lib address lo hi quota {m} r username =
    let p =
      Reach-keeps (λ s. WithinQuota s × (s.max_alloc_per_user ≡ quota))
        (λ s now msg client call h. (
          step-WithinQuota s h.0 lib now msg client call,
          step-max_alloc_per_user lib s now msg client call ∙ h.1,
        ))
        (init-WithinQuota address lo hi quota, unfold allocation_manager in refl) r in
    rw p.1 at (p.0.within username)
