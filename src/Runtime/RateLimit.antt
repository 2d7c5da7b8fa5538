-- ===== src/Runtime/RateLimit.antt =====
-- `InMemoryRateLimiter` of core/runtime/memory.py: a fixed-window counter for each scope.
pub mod Laws
mod Examples
use general_ai_core.Prelude.{
  ◌↔◌, not, nat_beq, ℕ, zero, suc, ◌+◌, ◌-◌, ◌≤◌, ◌<◌, ◌≡◌, ◌≢◌, ◌⊎◌, inl, inr, refl, sym, ap, Bool,
  true, false, ◌&&◌, ◌||◌, Option, none, some, String, List, [], ◌∷◌, ◌++◌, arith, Dict, lookup,
  insert, erase, contains, ◌==◌, nat_eq, string_eq, pair_eq, if◌then◌else◌, is_some, Result, ok,
  err, ◌>>=◌, ◌>>◌, raise_if, or_raise, after, Bool-cases, Option-cases, Result-cases,
  lookup-insert, lookup-insert_self, lookup-insert_ne, lookup-erase, lookup-erase_self, ◌∙◌, subst,
  take, drop, keep, take-append-drop, length-append, get_or, values, keys, map, ◌*◌, ◌/◌, max,
  beq_self, beq_ne, Eq, length, ltb, leb, All,
}

pub data ClockError : Type 0 where
  zero_division : ClockError

-- `_windows`: the counts by scope and window index.
abbrev pub Windows : Type 0
Windows = Dict (String × ℕ) ℕ

-- `del self._windows[k]` for the older windows of the scope.
abbrev pub prune : String → ℕ → Windows → Windows
prune scope window = keep (λ e. not (e.0.0 == scope && ltb e.0.1 window))

-- A window of no width divides by zero.
unfoldable pub hit : ℕ → String → ℕ → ℕ → Windows → Result ClockError (Bool × Windows)
hit now scope limit window_seconds w = do
  raise_if (window_seconds == 0) zero_division
  let window = now / window_seconds
  let pruned : Windows = prune scope window w
  let count : ℕ = get_or (lookup (scope, window) pruned) 0 + 1
  ok (leb count limit, insert (scope, window) count pruned)
