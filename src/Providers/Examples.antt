-- ===== src/Providers/Examples.antt =====
-- Concrete runs of the registry and of the account pools.
use general_ai_core.Prelude.{
  ℕ, arith, Bool-cases, inl, inr, ◌+◌, ◌≡◌, ◌≢◌, refl, sym, ap, String, List, [], ◌∷◌, true, false,
  none, some, contains, Result, ok, err, string_eq, nat_eq, false≢true, if◌then◌else◌, ◌==◌,
}
use general_ai_core.Providers.{
  ProviderStatus, Provider, ProviderManifest, platform, tenant, user, CredentialPolicy, prefer_user,
  auto, CredentialStatus, AccountLifecycleState, AccountHealthState, Credential, ProviderAccount,
  ProviderError, id_not_found,
}
use general_ai_core.Providers.Registry.{
  RegisteredProvider, Registry, empty_registry, register, replace, remove, get, get_by_id,
}
use general_ai_core.Providers.Registry.Coherence.{RegistryCall, IsCoherent, indexes_agree}
use general_ai_core.Providers.Registry.Coherence
use general_ai_core.Providers.Pool.{AccountPool, empty_pool}
use general_ai_core.Providers.Pool
use general_ai_core.Providers.Accounts.{Manager, Request, eligible_accounts, acquire_account}
use general_ai_core.Providers.Accounts.Ownership.{PoolCall, registers, run, IsOneSided, never_mixed}
use general_ai_core.Providers.Accounts.Leases.{
  in_memory, IsStamped, IsAcquired, acquire_first, never_shared,
}
use general_ai_core.Runtime.Lease.{Lease, LeaseManager, init}

abbrev provider : ℕ → String → Provider
provider id key = record { id = id; provider_key = key; status = ProviderStatus.active }

abbrev manifest : ProviderManifest
manifest = record {
  status = "active";
  is_template = false;
  is_functional = true;
  real_provider_required = false;
  operations = "chat" ∷ [];
}

abbrev entry : RegisteredProvider
entry = record { provider = provider 7 "acme"; manifest = manifest }

abbrev registry : Registry
registry = record { by_key = ("acme", entry) ∷ []; by_id = (7, entry) ∷ [] }

-- A replacement under the id of another provider: both keys then share one entry by id, and the removal
-- of the one leaves the other without it, so that its own removal fails half way.
abbrev registered : Result ProviderError (Unit {0} × Registry) → Registry
registered (ok r) = r.1
registered (err e) = empty_registry

abbrev shared_id : Registry
shared_id = registered (
    replace (provider 7 "beta") manifest (
      registered (
        register (provider 8 "beta") manifest
          (registered (register (provider 7 "acme") manifest empty_registry)))))

shared_id_half_removed :
    ((remove "acme" (remove "beta" shared_id).1).0 ≡ err (id_not_found 7))
    × (contains "acme" (remove "acme" (remove "beta" shared_id).1).1.by_key ≡ false)
unfolding register replace remove
shared_id_half_removed = (refl, refl)

-- A registration, a replacement under its own id, and a removal.
abbrev three_calls : List RegistryCall
three_calls =
    RegistryCall.registers (provider 7 "acme") manifest
    ∷ RegistryCall.replaces (provider 7 "acme") manifest
    ∷ RegistryCall.registers (provider 8 "beta") manifest
    ∷ RegistryCall.removes "acme"
    ∷ []

indexes_agree_example :
    IsCoherent (general_ai_core.Providers.Registry.Coherence.run three_calls empty_registry)
unfolding register
indexes_agree_example = indexes_agree three_calls ((λ e h. own_key h), tt)
  where
    own_key : {e : RegisteredProvider} → some entry ≡ some e → e.provider.provider_key ≡ "acme"
    own_key {e = e} h =
        let same : entry ≡ e = cc in
        ap (λ (x : RegisteredProvider). x.provider.provider_key) (sym same)

abbrev account : ℕ → ProviderAccount
account id = record {
  id = id;
  provider_id = 7;
  credential_id = id + 100;
  owner_type = platform;
  lifecycle_state = AccountLifecycleState.ready;
  health_state = AccountHealthState.healthy;
  cooldown_until = none;
}

abbrev credential : ℕ → Credential
credential id = record {
  id = id + 100;
  owner_type = platform;
  owner_id = none;
  provider_id = 7;
  credential_ref = "ref";
  status = CredentialStatus.active;
}

-- Two accounts of the platform, and one of a tenant that is refused.
abbrev three_accounts : List PoolCall
three_accounts =
    registers (account 2) (credential 2)
    ∷ registers (account 1) (credential 1)
    ∷ registers (record (account 3) { owner_type = tenant }) (credential 3)
    ∷ []

abbrev manager : Manager
manager = record {
  pools = (7, run three_accounts (empty_pool 7)) ∷ [];
  use_seq = 1;
  last_used = (1, 1) ∷ [];
}

abbrev request : Request
request = record { policy = auto; rate_limits = []; bindings = none; model_id = none }

abbrev text : ℕ → String
text n = if n == 1 then "u1" else (if n == 2 then "u2" else "u3")

-- The account 2 was never used, and goes before account 1.
candidates : eligible_accounts 10 "acme" request registry manager ≡ ok (account 2 ∷ account 1 ∷ [])
unfolding eligible_accounts get general_ai_core.Providers.Pool.register
    general_ai_core.Providers.Pool.credential_for
candidates = refl

never_mixed_example : IsOneSided (run three_accounts (empty_pool 7))
never_mixed_example = never_mixed 7 three_accounts

manager-IsStamped : IsStamped manager
manager-IsStamped j n e = elim (Bool-cases (1 == j)) [
  | inl same ↦ ground (arith, rw same at e)
  | inr other ↦ ground (arith, rw other at e)
]

acquire_first_example :
    IsAcquired
      (in_memory 10)
      text
      "acme"
      "me"
      60
      manager
      (account 2 ∷ account 1 ∷ [])
      init
      (acquire_account (in_memory 10) text 10 "acme" "me" 60 request registry (manager, init))
acquire_first_example =
    acquire_first (in_memory 10) text 10 "acme" "me" 60 request registry manager init
      (account 2 ∷ account 1 ∷ []) manager-IsStamped candidates

abbrev taken : LeaseManager
taken = record {
  token = 2;
  held =
      ("provider_account:u2", record { owner = "other"; fencing_token = 1; expires_at = 70 }) ∷ [];
}

abbrev others_lease : Lease
others_lease = record {
  resource = "provider_account:u2";
  owner = "other";
  fencing_token = 1;
  ttl_seconds = 60;
}

never_shared_example :
    acquire_account (in_memory 10) text 10 "acme" "me" 60 request registry (manager, taken)
    ≢ (ok (account 2, others_lease), (manager, taken))
never_shared_example =
    never_shared text 10 "acme" "me" 60 request registry manager taken (account 2)
      (others_lease, refl, refl, (λ e. false≢true ((string_eq.beq_iff "me" "other").1 e)))
      others_lease (manager, taken)
