-- ===== src/Providers/Accounts.antt =====
-- `AccountPoolManager` of core/providers/accounts.py: which accounts are eligible, in which order they are
-- tried, and their leases. The order of the texts of two UUIDs is the order of their numbers.
pub mod Ownership
pub mod Eligible
pub mod Order
pub mod Candidates
pub mod Leases
use general_ai_core.Prelude.{
  ℕ, ◌+◌, String, List, [], ◌∷◌, ◌++◌, Bool, true, false, ◌||◌, ◌&&◌, not, Option, none, some,
  get_or, keep, Dict, lookup, insert, nat_eq, string_eq, pair_eq, ◌==◌, ltb, leb, concat,
  if◌then◌else◌, Result, ok, err, ◌>>=◌, ◌>>◌,
}
use general_ai_core.Providers.{
  OwnerType, platform, CredentialPolicy, platform_only, user_only, prefer_user, auto,
  CredentialStatus, AccountLifecycleState, ready, Credential, ProviderAccount, RateLimitState,
  limited, cooling_until, RateLimitStatus, BindingAvailability, ProviderError, no_eligible_account,
}
use general_ai_core.Providers.Registry.{RegisteredProvider, Registry, is_routable}
use general_ai_core.Providers.Registry
use general_ai_core.Providers.Pool.{
  AccountPool, empty_pool, is_platform, credential_for, all_accounts,
}
use general_ai_core.Runtime.Lease.{Lease, LeaseError}

pub record Manager : Type 0 where
  pub pools : Dict ℕ AccountPool
  pub use_seq : ℕ
  pub last_used : Dict ℕ ℕ

-- `policy`, `rate_limits`, `bindings` (a binding's availability) and `model_id`.
pub record Request : Type 0 where
  pub policy : CredentialPolicy
  pub rate_limits : Dict ℕ RateLimitStatus
  pub bindings : Option (Dict (ℕ × ℕ) BindingAvailability)
  pub model_id : Option ℕ

abbrev pub made : ℕ → Manager → Option AccountPool → AccountPool × Manager
made provider_id m none = (
  empty_pool provider_id,
  record m { pools = insert provider_id (empty_pool provider_id) m.pools },
)
made provider_id m (some pool) = (pool, m)

unfoldable pub pool_for : ℕ → Manager → AccountPool × Manager
pool_for provider_id m = made provider_id m (lookup provider_id m.pools)

-- `credential.status is CredentialStatus.ACTIVE`
abbrev pub is_active : CredentialStatus → Bool
is_active CredentialStatus.active = true
is_active CredentialStatus.revoked = false
is_active CredentialStatus.expired = false
is_active CredentialStatus.invalid = false

-- `lifecycle_state is AccountLifecycleState.READY`
abbrev pub is_ready : AccountLifecycleState → Bool
is_ready AccountLifecycleState.ready = true
is_ready AccountLifecycleState.cooldown = false
is_ready AccountLifecycleState.refresh_required = false
is_ready AccountLifecycleState.auth_expired = false
is_ready AccountLifecycleState.invalid = false
is_ready AccountLifecycleState.pending = false

-- `cooldown_until is not None and cooldown_until > now`
abbrev pub in_cooldown : Option ℕ → ℕ → Bool
in_cooldown none now = false
in_cooldown (some until) now = ltb now until

-- `_policy_admits`
abbrev pub policy_admits : CredentialPolicy → OwnerType → Bool
policy_admits platform_only owner = is_platform owner
policy_admits user_only owner = not (is_platform owner)
policy_admits prefer_user owner = true
policy_admits auto owner = true

-- `cooldown_until is not None and cooldown_until <= now`
abbrev pub has_cooled : Option ℕ → ℕ → Bool
has_cooled none now = false
has_cooled (some until) now = leb until now

-- `_budget_available`
abbrev pub budget_available : RateLimitState → Option ℕ → ℕ → Bool
budget_available RateLimitState.available until now = true
budget_available RateLimitState.limited until now = false
budget_available RateLimitState.cooling_until until now = has_cooled until now
budget_available RateLimitState.unknown until now = false

-- `status is not None and not _budget_available(status, now)`, negated.
abbrev pub has_budget : Option RateLimitStatus → ℕ → Bool
has_budget none now = true
has_budget (some status) now = budget_available status.state status.cooldown_until now

abbrev pub is_available : Option BindingAvailability → Bool
is_available none = false
is_available (some BindingAvailability.available) = true
is_available (some BindingAvailability.unavailable) = false
is_available (some BindingAvailability.degraded) = false

-- The filter of the model's binding.
abbrev pub is_bound : ℕ → Option (Dict (ℕ × ℕ) BindingAvailability) → Option ℕ → Bool
is_bound provider_id none model = true
is_bound provider_id (some bindings) none = true
is_bound provider_id (some bindings) (some model) =
    is_available (lookup (provider_id, model) bindings)

-- The filters 2 to 7.
abbrev pub passes : ℕ → ℕ → Request → ProviderAccount → Credential → Bool
passes now provider_id q a c =
    is_active c.status
    && is_ready a.lifecycle_state
    && not (in_cooldown a.cooldown_until now)
    && policy_admits q.policy a.owner_type
    && has_budget (lookup a.id q.rate_limits) now
    && is_bound provider_id q.bindings q.model_id

-- The loop over the pool's accounts.
abbrev pub filter_accounts :
    ℕ
    → ℕ
    → Request
    → AccountPool
    → List ProviderAccount
    → Result ProviderError (List ProviderAccount)
filter_accounts now provider_id q pool [] = ok []
filter_accounts now provider_id q pool (a ∷ accounts) = do
  credential ← credential_for a.id pool
  rest ← filter_accounts now provider_id q pool accounts
  ok (if passes now provider_id q a credential then a ∷ rest else rest)

-- `lru_key(a) < lru_key(b)`
abbrev pub lru_before : Dict ℕ ℕ → ProviderAccount → ProviderAccount → Bool
lru_before used a b =
    let s : ℕ = get_or (lookup a.id used) 0 in
    let t : ℕ = get_or (lookup b.id used) 0 in ltb s t || ((s == t) && ltb a.id b.id)

-- `sorted(accounts, key=lru_key)`, which is stable.
abbrev pub put_account : Dict ℕ ℕ → ProviderAccount → List ProviderAccount → List ProviderAccount
put_account used a [] = a ∷ []
put_account used a (b ∷ accounts) =
    if lru_before used b a then b ∷ put_account used a accounts else a ∷ b ∷ accounts

abbrev pub lru_sorted : Dict ℕ ℕ → List ProviderAccount → List ProviderAccount
lru_sorted used [] = []
lru_sorted used (a ∷ accounts) = put_account used a (lru_sorted used accounts)

abbrev pub by_policy : CredentialPolicy → List ProviderAccount → List ProviderAccount
by_policy prefer_user accounts =
    keep (λ a. not (is_platform a.owner_type)) accounts
    ++ keep (λ a. is_platform a.owner_type) accounts
by_policy platform_only accounts = accounts
by_policy user_only accounts = accounts
by_policy auto accounts = accounts

-- `_ordered`
abbrev pub ordered : Manager → CredentialPolicy → List ProviderAccount → List ProviderAccount
ordered m policy accounts = by_policy policy (lru_sorted m.last_used accounts)

abbrev pub eligible_in :
    ℕ → ℕ → Request → Manager → Option AccountPool → Result ProviderError (List ProviderAccount)
eligible_in now provider_id q m none = ok []
eligible_in now provider_id q m (some pool) = do
  out ← filter_accounts now provider_id q pool (all_accounts pool)
  ok (ordered m q.policy out)

unfoldable pub eligible_accounts :
    ℕ → String → Request → Registry → Manager → Result ProviderError (List ProviderAccount)
unfolding general_ai_core.Providers.Registry.get
eligible_accounts now key q registry m = do
  entry ← general_ai_core.Providers.Registry.get key registry
  let id = entry.provider.id
  if is_routable entry then eligible_in now id q m (lookup id m.pools) else ok []

abbrev pub first_of : String → List ProviderAccount → Result ProviderError ProviderAccount
first_of key [] = err (no_eligible_account key)
first_of key (a ∷ accounts) = ok a

unfoldable pub select_account :
    ℕ → String → Request → Registry → Manager → Result ProviderError ProviderAccount
select_account now key q registry m = do
  candidates ← eligible_accounts now key q registry m
  first_of key candidates

-- `LeasePort`, as far as the manager calls it.
pub record LeasePort (S : Type 0) : Type 0 where
  pub acquiring : String → String → ℕ → S → Option Lease × S
  pub releasing : Lease → S → Result LeaseError (Unit {0}) × S

module _ {S : Type 0} (port : LeasePort S) (uuid_text : ℕ → String) where
  abbrev pub lease_resource_for : ℕ → String
  lease_resource_for id = concat "provider_account:" (uuid_text id)

  -- The loop over the candidates: the first one that can be leased.
  abbrev pub tried :
      (S → Option (ProviderAccount × Lease) × S)
      → ProviderAccount
      → Option Lease × S
      → Option (ProviderAccount × Lease) × S
  tried next a (none, s) = next s
  tried next a (some l, s) = (some (a, l), s)

  abbrev pub lease_first :
      String → ℕ → List ProviderAccount → S → Option (ProviderAccount × Lease) × S
  lease_first owner ttl [] s = (none, s)
  lease_first owner ttl (a ∷ accounts) s =
      tried (λ t. lease_first owner ttl accounts t) a
        (port.acquiring (lease_resource_for a.id) owner ttl s)

  abbrev pub used : ProviderAccount → Manager → Manager
  used a m = record m {
    use_seq = m.use_seq + 1;
    last_used = insert a.id (m.use_seq + 1) m.last_used;
  }

  abbrev pub leased :
      String
      → Manager
      → Option (ProviderAccount × Lease) × S
      → Result ProviderError (ProviderAccount × Lease) × (Manager × S)
  leased key m (none, s) = (err (no_eligible_account key), (m, s))
  leased key m (some (a, l), s) = (ok (a, l), (used a m, s))

  abbrev pub lease_candidates :
      String
      → String
      → ℕ
      → Manager
      → S
      → Result ProviderError (List ProviderAccount)
      → Result ProviderError (ProviderAccount × Lease) × (Manager × S)
  lease_candidates key owner ttl m s (err e) = (err e, (m, s))
  lease_candidates key owner ttl m s (ok candidates) =
      leased key m (lease_first owner ttl candidates s)

  unfoldable pub acquire_account :
      ℕ
      → String
      → String
      → ℕ
      → Request
      → Registry
      → Manager × S
      → Result ProviderError (ProviderAccount × Lease) × (Manager × S)
  acquire_account now key owner ttl q registry (m, s) =
      lease_candidates key owner ttl m s (eligible_accounts now key q registry m)

  unfoldable pub release_account : Lease → S → Result LeaseError (Unit {0}) × S
  release_account l s = port.releasing l s
