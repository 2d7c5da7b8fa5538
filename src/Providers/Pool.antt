-- ===== src/Providers/Pool.antt =====
-- `AccountPool` of core/providers/accounts.py: the accounts of one provider, with their credentials.
use general_ai_core.Prelude.{
  ℕ, List, [], Bool, true, false, not, Option, none, some, Dict, lookup, insert, contains, values,
  nat_eq, ◌==◌, if◌then◌else◌, Result, ok, ◌>>=◌, ◌>>◌, raise_if, or_raise,
}
use general_ai_core.Providers.{
  OwnerType, platform, tenant, user, Credential, ProviderAccount, ProviderError, account_duplicate,
  account_not_registered, foreign_provider, foreign_credential, mixed_ownership, ownership_changed,
}

-- `_side` is PLATFORM or a representative of the user side.
pub record AccountPool : Type 0 where
  pub provider_id : ℕ
  pub accounts : Dict ℕ ProviderAccount
  pub credentials : Dict ℕ Credential
  pub side : Option OwnerType

abbrev pub empty_pool : ℕ → AccountPool
empty_pool provider_id = record {
  provider_id = provider_id;
  accounts = [];
  credentials = [];
  side = none;
}

-- `owner_type is OwnerType.PLATFORM`
abbrev pub is_platform : OwnerType → Bool
is_platform platform = true
is_platform tenant = false
is_platform user = false

-- `a != b`, of two Booleans.
abbrev pub differs : Bool → Bool → Bool
differs true b = not b
differs false b = b

-- The pool has a side, and it is not the account's.
abbrev pub is_mixed : Option OwnerType → OwnerType → Bool
is_mixed none owner = false
is_mixed (some side) owner = differs (is_platform side) (is_platform owner)

abbrev pub side_after : Option OwnerType → OwnerType → Option OwnerType
side_after none owner = some (if is_platform owner then platform else owner)
side_after (some side) owner = some side

unfoldable pub register :
    ProviderAccount → Credential → AccountPool → Result ProviderError (Unit {0} × AccountPool)
register a c pool = do
  raise_if (not (a.provider_id == pool.provider_id)) (foreign_provider a.id)
  raise_if (not (a.credential_id == c.id)) (foreign_credential a.id)
  raise_if (is_mixed pool.side a.owner_type) mixed_ownership
  raise_if (contains a.id pool.accounts) (account_duplicate a.id)
  ok (
    tt,
    record pool {
      accounts = insert a.id a pool.accounts;
      credentials = insert a.id c pool.credentials;
      side = side_after pool.side a.owner_type;
    },
  )

unfoldable pub replace_account :
    ProviderAccount → AccountPool → Result ProviderError (Unit {0} × AccountPool)
replace_account a pool = do
  existing ← or_raise (lookup a.id pool.accounts) (account_not_registered a.id)
  raise_if (differs (is_platform existing.owner_type) (is_platform a.owner_type)) ownership_changed
  ok (tt, record pool { accounts = insert a.id a pool.accounts })

unfoldable pub get : ℕ → AccountPool → Result ProviderError ProviderAccount
get id pool = or_raise (lookup id pool.accounts) (account_not_registered id)

unfoldable pub credential_for : ℕ → AccountPool → Result ProviderError Credential
credential_for id pool = or_raise (lookup id pool.credentials) (account_not_registered id)

abbrev pub all_accounts : AccountPool → List ProviderAccount
all_accounts pool = values pool.accounts
