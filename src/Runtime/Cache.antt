-- ===== src/Runtime/Cache.antt =====
-- `InMemoryCache` of core/runtime/memory.py: values by tenant and key that expire.
pub mod Laws
mod Examples
use general_ai_core.Prelude.{
  ◌↔◌, not, nat_beq, ℕ, zero, suc, ◌+◌, ◌-◌, ◌≤◌, ◌<◌, ◌≡◌, ◌≢◌, ◌⊎◌, inl, inr, refl, sym, ap, Bool,
  true, false, ◌&&◌, ◌||◌, Option, none, some, String, List, [], ◌∷◌, ◌++◌, arith, Dict, lookup,
  insert, erase, contains, ◌==◌, nat_eq, string_eq, pair_eq, concat, if◌then◌else◌, is_some, Result,
  ok, err, ◌>>=◌, ◌>>◌, raise_if, or_raise, after, Bool-cases, Option-cases, Result-cases,
  lookup-insert, lookup-insert_self, lookup-insert_ne, lookup-erase, lookup-erase_self, ◌∙◌, subst,
  take, drop, keep, take-append-drop, length-append, get_or, values, keys, map, ◌*◌, ◌/◌, max,
  beq_self, beq_ne, Eq, length, ltb, leb, All,
}

-- `_entries`: the value and the time at which it expires.
abbrev pub Cache : Type 0
Cache = Dict (String × String) (String × ℕ)

-- `if expires_at <= now`: the entry is deleted and the call is a miss.
abbrev pub fresh_value : ℕ → String × String → Option (String × ℕ) → Cache → Option String × Cache
fresh_value now k none c = (none, c)
fresh_value now k (some (value, expires_at)) c =
    if leb expires_at now then (none, erase k c) else (some value, c)

pub get : ℕ → String → String → Cache → Option String × Cache
get now tenant key c = fresh_value now (tenant, key) (lookup (tenant, key) c) c

pub set : ℕ → String → String → String → ℕ → Cache → Cache
set now tenant key value ttl c = insert (tenant, key) (value, now + ttl) c

pub delete : String → String → Cache → Cache
delete tenant key c = erase (tenant, key) c
