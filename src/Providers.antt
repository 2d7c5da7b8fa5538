-- ===== src/Providers.antt =====
-- core/providers: the data of providers and their accounts (core/contracts/domain.py,
-- core/contracts/provider.py) and the exceptions (core/providers/errors.py).
pub mod Registry
pub mod Pool
pub mod Accounts
mod Examples
use general_ai_core.Prelude.{ℕ, String, List, Option, Bool}

pub data ProviderStatus : Type 0 where
  active : ProviderStatus
  disabled : ProviderStatus
  maintenance : ProviderStatus

pub record Provider : Type 0 where
  pub id : ℕ
  pub provider_key : String
  pub status : ProviderStatus

-- The fields of a manifest that the registry reads; an operation is its value.
pub record ProviderManifest : Type 0 where
  pub status : String
  pub is_template : Bool
  pub is_functional : Bool
  pub real_provider_required : Bool
  pub operations : List String

pub data OwnerType : Type 0 where
  platform : OwnerType
  tenant : OwnerType
  user : OwnerType

pub data CredentialPolicy : Type 0 where
  platform_only : CredentialPolicy
  user_only : CredentialPolicy
  prefer_user : CredentialPolicy
  auto : CredentialPolicy

pub data CredentialStatus : Type 0 where
  active : CredentialStatus
  revoked : CredentialStatus
  expired : CredentialStatus
  invalid : CredentialStatus

pub data AccountLifecycleState : Type 0 where
  ready : AccountLifecycleState
  cooldown : AccountLifecycleState
  refresh_required : AccountLifecycleState
  auth_expired : AccountLifecycleState
  invalid : AccountLifecycleState
  pending : AccountLifecycleState

pub data AccountHealthState : Type 0 where
  healthy : AccountHealthState
  degraded : AccountHealthState
  failed : AccountHealthState
  unknown : AccountHealthState

pub record Credential : Type 0 where
  pub id : ℕ
  pub owner_type : OwnerType
  pub owner_id : Option ℕ
  pub provider_id : ℕ
  pub credential_ref : String
  pub status : CredentialStatus

pub record ProviderAccount : Type 0 where
  pub id : ℕ
  pub provider_id : ℕ
  pub credential_id : ℕ
  pub owner_type : OwnerType
  pub lifecycle_state : AccountLifecycleState
  pub health_state : AccountHealthState
  pub cooldown_until : Option ℕ

pub data RateLimitState : Type 0 where
  available : RateLimitState
  limited : RateLimitState
  cooling_until : RateLimitState
  unknown : RateLimitState

pub record RateLimitStatus : Type 0 where
  pub state : RateLimitState
  pub cooldown_until : Option ℕ

pub data BindingAvailability : Type 0 where
  available : BindingAvailability
  unavailable : BindingAvailability
  degraded : BindingAvailability

pub data Ineligibility : Type 0 where
  scaffold_template : Ineligibility
  not_functional : Ineligibility
  not_active : ProviderStatus → Ineligibility
  not_declared : String → Ineligibility

pub data ProviderError : Type 0 where
  provider_not_registered : String → ProviderError
  provider_id_not_registered : ℕ → ProviderError
  provider_not_eligible : Ineligibility → String → ProviderError
  provider_duplicate : String → ProviderError
  id_not_found : ℕ → ProviderError
  account_duplicate : ℕ → ProviderError
  account_not_registered : ℕ → ProviderError
  foreign_provider : ℕ → ProviderError
  foreign_credential : ℕ → ProviderError
  mixed_ownership : ProviderError
  ownership_changed : ProviderError
  no_eligible_account : String → ProviderError
