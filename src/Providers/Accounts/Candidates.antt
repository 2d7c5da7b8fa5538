-- ===== src/Providers/Accounts/Candidates.antt =====
-- `eligible_accounts` of core/providers/accounts.py over a pool that any history of calls has made.
use general_ai_core.Prelude.{◌≡◌, true, contains, nat_eq, string_eq, pair_eq, All}
use general_ai_core.Providers.{
  OwnerType, platform, tenant, user, CredentialPolicy, platform_only, user_only, prefer_user, auto,
  CredentialStatus, AccountLifecycleState, RateLimitState, limited, cooling_until, RateLimitStatus,
  BindingAvailability, ProviderError,
}
use general_ai_core.Providers.Registry.{Registry}
use general_ai_core.Providers.Registry
use general_ai_core.Providers.Pool.{AccountPool, all_accounts}

-- Every account has its credential.
abbrev IsCredited : AccountPool → Type 0
IsCredited pool = All (λ a. contains a.id pool.credentials ≡ true) (all_accounts pool)
