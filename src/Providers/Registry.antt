-- ===== src/Providers/Registry.antt =====
-- `ProviderRegistry` of core/providers/registry.py.
pub mod Half
pub mod Coherence
use general_ai_core.Prelude.{
  ℕ, String, List, [], ◌∷◌, Bool, true, false, ◌||◌, ◌&&◌, not, Option, none, some, Dict, lookup,
  insert, erase, contains, member, string_eq, nat_eq, ◌==◌, if◌then◌else◌, Result, ok, err, ◌>>=◌,
  ◌>>◌, raise_if, or_raise,
}
use general_ai_core.Providers.{
  ProviderStatus, Provider, ProviderManifest, Ineligibility, scaffold_template, not_functional,
  not_active, not_declared, ProviderError, provider_not_registered, provider_id_not_registered,
  provider_not_eligible, provider_duplicate, id_not_found,
}

pub record RegisteredProvider : Type 0 where
  pub provider : Provider
  pub manifest : ProviderManifest

abbrev pub template_disabled_status : String
template_disabled_status = "template_disabled"

abbrev pub is_template : RegisteredProvider → Bool
is_template e =
    e.manifest.is_template
    || (e.manifest.status == template_disabled_status)
    || e.manifest.real_provider_required

abbrev pub is_executable : RegisteredProvider → Bool
is_executable e = e.manifest.is_functional && not (is_template e)

-- `status is ProviderStatus.ACTIVE`
abbrev pub is_active : ProviderStatus → Bool
is_active ProviderStatus.active = true
is_active ProviderStatus.disabled = false
is_active ProviderStatus.maintenance = false

abbrev pub is_routable : RegisteredProvider → Bool
is_routable e = is_active e.provider.status && is_executable e

pub record Registry : Type 0 where
  pub by_key : Dict String RegisteredProvider
  pub by_id : Dict ℕ RegisteredProvider

abbrev pub empty_registry : Registry
empty_registry = record { by_key = []; by_id = [] }

abbrev pub entered : RegisteredProvider → Registry → Registry
entered e r = record {
  by_key = insert e.provider.provider_key e r.by_key;
  by_id = insert e.provider.id e r.by_id;
}

unfoldable pub register :
    Provider → ProviderManifest → Registry → Result ProviderError (Unit {0} × Registry)
register p manifest r = do
  raise_if (contains p.provider_key r.by_key || contains p.id r.by_id)
      (provider_duplicate p.provider_key)
  ok (tt, entered (record { provider = p; manifest = manifest }) r)

-- `del d[id]`, which raises KeyError.
abbrev pub without_id : ℕ → Registry → Result ProviderError Registry
without_id id r = do
  raise_if (not (contains id r.by_id)) (id_not_found id)
  ok (record r { by_id = erase id r.by_id })

abbrev pub without_existing : Option RegisteredProvider → Registry → Result ProviderError Registry
without_existing none r = ok r
without_existing (some e) r = without_id e.provider.id r

unfoldable pub replace :
    Provider → ProviderManifest → Registry → Result ProviderError (Unit {0} × Registry)
replace p manifest r = do
  r' ← without_existing (lookup p.provider_key r.by_key) r
  ok (tt, entered (record { provider = p; manifest = manifest }) r')

-- The key is deleted before the id, and stays deleted when the id is missing.
abbrev pub removed :
    String → Registry → Option RegisteredProvider → Result ProviderError (Unit {0}) × Registry
removed key r none = (err (provider_not_registered key), r)
removed key r (some e) = (
  raise_if (not (contains e.provider.id r.by_id)) (id_not_found e.provider.id),
  record { by_key = erase key r.by_key; by_id = erase e.provider.id r.by_id },
)

unfoldable pub remove : String → Registry → Result ProviderError (Unit {0}) × Registry
remove key r = removed key r (lookup key r.by_key)

unfoldable pub get : String → Registry → Result ProviderError RegisteredProvider
get key r = or_raise (lookup key r.by_key) (provider_not_registered key)

unfoldable pub get_by_id : ℕ → Registry → Result ProviderError RegisteredProvider
get_by_id id r = or_raise (lookup id r.by_id) (provider_id_not_registered id)

unfoldable pub supports_operation : String → String → Registry → Result ProviderError Bool
unfolding get
supports_operation key operation r = do e ← get key r; ok (member operation e.manifest.operations)

unfoldable pub ensure_eligible :
    String → String → Registry → Result ProviderError RegisteredProvider
unfolding get
ensure_eligible key operation r = do
  e ← get key r
  raise_if (is_template e) (provider_not_eligible scaffold_template key)
  raise_if (not e.manifest.is_functional) (provider_not_eligible not_functional key)
  raise_if (not (is_active e.provider.status))
      (provider_not_eligible (not_active e.provider.status) key)
  raise_if (not (member operation e.manifest.operations))
      (provider_not_eligible (not_declared operation) key)
  ok e
