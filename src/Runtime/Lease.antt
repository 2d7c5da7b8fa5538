-- ===== src/Runtime/Lease.antt =====
-- `InMemoryLeaseManager` of core/runtime/memory.py: exclusive leases with fencing tokens.
pub mod Laws
pub mod Fencing
mod Examples
use general_ai_core.Prelude.{
  ◌↔◌, not, nat_beq, ℕ, zero, suc, ◌+◌, ◌-◌, ◌≤◌, ◌<◌, ◌≡◌, ◌≢◌, ◌⊎◌, inl, inr, refl, sym, ap, Bool,
  true, false, ◌&&◌, ◌||◌, Option, none, some, String, List, [], ◌∷◌, ◌++◌, arith, Dict, lookup,
  insert, erase, contains, ◌==◌, nat_eq, string_eq, if◌then◌else◌, is_some, Result, ok, err, ◌>>=◌,
  ◌>>◌, raise_if, or_raise, after, Bool-cases, Option-cases, Result-cases, lookup-insert,
  lookup-insert_self, lookup-insert_ne, lookup-erase, lookup-erase_self, beq_self, beq_ne, Eq,
  length, ltb, leb, All,
}

pub record Lease : Type 0 where
  pub resource : String
  pub owner : String
  pub fencing_token : ℕ
  pub ttl_seconds : ℕ

-- The tuple `(owner, fencing_token, expires_at)`.
pub record Holding : Type 0 where
  pub owner : String
  pub fencing_token : ℕ
  pub expires_at : ℕ

-- `token` is the next value of `itertools.count(1)`.
pub record LeaseManager : Type 0 where
  pub token : ℕ
  pub held : Dict String Holding

abbrev pub init : LeaseManager
init = record { token = 1; held = [] }

pub data LeaseError : Type 0 where
  lease_not_held : String → String → LeaseError

-- `current is not None and current[2] > now and current[0] != owner`
abbrev pub blocks : Option Holding → ℕ → String → Bool
blocks none now owner = false
blocks (some h) now owner = ltb now h.expires_at && not (h.owner == owner)

unfoldable pub acquire : ℕ → String → String → ℕ → LeaseManager → Option Lease × LeaseManager
acquire now resource owner ttl m =
    if blocks (lookup resource m.held) now owner then (none, m) else (
      some (record {
        resource = resource;
        owner = owner;
        fencing_token = m.token;
        ttl_seconds = ttl;
      }),
      record {
        token = m.token + 1;
        held =
            insert resource
              (record { owner = owner; fencing_token = m.token; expires_at = now + ttl }) m.held;
      },
    )

-- The test of `_require_holder`, negated.
abbrev pub is_holder : Option Holding → ℕ → Lease → Bool
is_holder none now l = false
is_holder (some h) now l =
    not (
      leb h.expires_at now
      || (not (h.owner == l.owner) || not (h.fencing_token == l.fencing_token)))

pub require_holder : ℕ → Lease → LeaseManager → Result LeaseError (Unit {0})
require_holder now l m =
    raise_if (not (is_holder (lookup l.resource m.held) now l)) (lease_not_held l.owner l.resource)

pub renew : ℕ → Lease → ℕ → LeaseManager → Result LeaseError (Lease × LeaseManager)
unfolding require_holder
renew now l ttl m = do
  require_holder now l m
  ok (
    record l { ttl_seconds = ttl },
    record m {
      held =
          insert l.resource
            (record { owner = l.owner; fencing_token = l.fencing_token; expires_at = now + ttl })
            m.held;
    },
  )

pub release : ℕ → Lease → LeaseManager → Result LeaseError (Unit {0} × LeaseManager)
unfolding require_holder
release now l m = do require_holder now l m; ok (tt, record m { held = erase l.resource m.held })
