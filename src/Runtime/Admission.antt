-- ===== src/Runtime/Admission.antt =====
-- core/runtime/admission.py: the depth gauge, the admission controller and the concurrency limiter.
pub mod Laws
mod Examples
use general_ai_core.Prelude.{
  ◌↔◌, not, nat_beq, ℕ, zero, suc, ◌+◌, ◌-◌, ◌≤◌, ◌<◌, ◌≡◌, ◌≢◌, ◌⊎◌, inl, inr, refl, sym, ap, Bool,
  true, false, ◌&&◌, ◌||◌, Option, none, some, String, List, [], ◌∷◌, ◌++◌, arith, Dict, lookup,
  insert, erase, contains, ◌==◌, nat_eq, string_eq, pair_eq, concat, if◌then◌else◌, is_some, Result,
  ok, err, ◌>>=◌, ◌>>◌, raise_if, or_raise, after, Bool-cases, Option-cases, Result-cases,
  lookup-insert, lookup-insert_self, lookup-insert_ne, lookup-erase, lookup-erase_self, ◌∙◌, subst,
  take, drop, keep, take-append-drop, length-append, get_or, values, keys, map, ◌*◌, ◌/◌, max,
  beq_self, beq_ne, Eq, length, ltb, leb, All,
}

-- `RateLimitPort` of core/runtime/ports.py, at a given time of the clock: one hit of a scope against
-- a limit in a window, which says whether it is within the limit.
pub record RateLimitPort : Type 1 where
  pub State : Type 0
  pub Fault : Type 0
  pub hit : String → ℕ → ℕ → State → Result Fault (Bool × State)

pub record AdmissionDecision : Type 0 where
  pub admitted : Bool
  pub reason : Option String

-- `QueueDepthGauge._depth`, and `ConcurrencyLimiter._in_flight`
abbrev pub Counts : Type 0
Counts = Dict String ℕ

pub depth : String → Counts → ℕ
depth stream g = get_or (lookup stream g) 0

pub enqueued : String → Counts → Counts
enqueued stream g = insert stream (get_or (lookup stream g) 0 + 1) g

pub settled : String → Counts → Counts
settled stream g =
    let current : ℕ = get_or (lookup stream g) 0 in
    if ltb 0 current then insert stream (current - 1) g else g

-- `max_queue_depth is not None and depth >= max_queue_depth`
abbrev pub over_depth : Option ℕ → ℕ → Bool
over_depth none d = false
over_depth (some limit) d = leb limit d

abbrev pub refused : String → AdmissionDecision
refused reason = record { admitted = false; reason = some reason }

abbrev pub allowed : AdmissionDecision
allowed = record { admitted = true; reason = none }

module _ (port : RateLimitPort) where
  open port use {State, Fault, hit}

  -- `tenant_limit is None`, or one hit of the tenant's window.
  abbrev pub within_window : String → Option ℕ → ℕ → State → Result Fault (Bool × State)
  within_window tenant none width r = ok (true, r)
  within_window tenant (some limit) width r = hit (concat "admission:" tenant) limit width r

  pub admit :
      String
      → String
      → Option ℕ
      → Option ℕ
      → ℕ
      → State × Counts
      → Result Fault (AdmissionDecision × State × Counts)
  unfolding depth enqueued
  admit stream tenant max_depth tenant_limit width (r, g) =
      if over_depth max_depth (depth stream g)
      then ok (refused (concat "queue_limit:" stream), r, g)
      else (do
        (within, r') ← within_window tenant tenant_limit width r
        ok (
            if within
            then (allowed, r', enqueued stream g)
            else (refused (concat "tenant_window:" tenant), r', g)))

pub in_flight : String → Counts → ℕ
in_flight scope c = get_or (lookup scope c) 0

pub try_start : String → ℕ → Counts → Bool × Counts
try_start scope limit c =
    let current : ℕ = get_or (lookup scope c) 0 in
    if leb limit current then (false, c) else (true, insert scope (current + 1) c)

pub finish : String → Counts → Counts
finish scope c =
    let current : ℕ = get_or (lookup scope c) 0 in
    if ltb 0 current then insert scope (current - 1) c else c
