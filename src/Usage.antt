-- ===== src/Usage.antt =====
-- core/usage/memory.py with the entities of core/contracts/usage.py. An amount of
-- task units is a finite float. Every finite float is a whole multiple of 2 ^ -1074 and stands here as that
-- multiple; a sum or difference is rounded by `round`, which the machine's arithmetic gives and which is a
-- parameter. Identifiers are numbers that are only compared.
pub mod Balance
pub mod History
pub mod Lifecycle
mod Examples
use general_ai_core.Prelude.{
  ℕ, ◌≡◌, refl, Bool, true, false, Option, none, some, String, List, [], ◌∷◌, arith, Dict, lookup,
  insert, contains, ◌==◌, nat_eq, if◌then◌else◌, is_some, Result, ok, err, ◌>>=◌, ◌>>◌, raise_if,
  or_raise, after,
}
use general_ai_core.Prelude.Int.{ℤ, pos, ◌+ℤ◌, ◌-ℤ◌, ltb_ℤ, floor_zero}
use general_ai_core.Prelude.Json.{JsonObject, no_fields}

pub data UsageLedgerStatus : Type 0 where
  reserved settled refunded failed : UsageLedgerStatus

pub record UsageLedger : Type 0 where
  pub id : ℕ
  pub tenant_id : ℕ
  pub execution_id : ℕ
  pub units_reserved : ℤ
  pub units_settled : ℤ
  pub modality_costs : JsonObject
  pub status : UsageLedgerStatus

-- `_TenantBudget`
pub record TenantBudget : Type 0 where
  pub plan : String
  pub limit : ℤ
  pub consumed : ℤ
  pub held : ℤ
  pub modality_limits : JsonObject

abbrev pub used : (ℤ → ℤ) → TenantBudget → ℤ
used round b = round (b.consumed +ℤ b.held)

abbrev pub remaining : (ℤ → ℤ) → TenantBudget → ℤ
remaining round b = round (b.limit -ℤ used round b)

pub record TaskUnitBudget : Type 0 where
  pub limit : ℤ
  pub used : ℤ
  pub remaining : ℤ

pub record UsageSummary : Type 0 where
  pub plan : String
  pub task_units : TaskUnitBudget
  pub modality_limits : JsonObject

-- The exceptions of core/usage/errors.py, `ValueError` and `KeyError`.
pub data UsageError : Type 0 where
  value_error : UsageError
  key_error : ℕ → UsageError
  entitlement_not_configured : ℕ → UsageError
  budget_exceeded : ℕ → ℤ → ℤ → UsageError
  reservation_not_found : ℕ → UsageError
  reservation_already_resolved : ℕ → UsageLedgerStatus → UsageError

-- `InMemoryUsageAccounting`
pub record Accounting : Type 0 where
  pub budgets : Dict ℕ TenantBudget
  pub ledger : Dict ℕ UsageLedger

abbrev pub empty : Accounting
empty = record { budgets = []; ledger = [] }

-- `dict(x) if x else {}`
abbrev pub or_no_fields : Option JsonObject → JsonObject
or_no_fields none = no_fields
or_no_fields (some j) = j

-- The history that a plan change keeps.
abbrev carried_over : Option TenantBudget → TenantBudget → TenantBudget
carried_over none b = b
carried_over (some old) b = record b { consumed = old.consumed; held = old.held }

pub configure_tenant :
    ℕ → String → ℤ → Option JsonObject → Accounting → Result UsageError (Unit {0} × Accounting)
configure_tenant tenant plan units modality s = do
  raise_if (ltb_ℤ units (pos 0)) value_error
  let fresh : TenantBudget = record {
    plan = plan;
    limit = units;
    consumed = pos 0;
    held = pos 0;
    modality_limits = or_no_fields modality;
  }
  let budget = carried_over (lookup tenant s.budgets) fresh
  ok (tt, record s { budgets = insert tenant budget s.budgets })

-- `if existing is not None: raise ReservationAlreadyResolved`
abbrev refuse_existing : ℕ → Option UsageLedger → Result UsageError (Unit {0})
refuse_existing execution none = ok tt
refuse_existing execution (some old) = err (reservation_already_resolved execution old.status)

-- The id of the new entry is the caller's `id_factory()`.
pub reserve : (ℤ → ℤ) → ℕ → ℕ → ℕ → ℤ → Accounting → Result UsageError (UsageLedger × Accounting)
reserve round new_id tenant execution units s = do
  raise_if (ltb_ℤ units (pos 0)) value_error
  budget ← or_raise (lookup tenant s.budgets) (entitlement_not_configured tenant)
  refuse_existing execution (lookup execution s.ledger)
  raise_if (ltb_ℤ (remaining round budget) units)
      (budget_exceeded tenant units (floor_zero (remaining round budget)))
  let entry : UsageLedger = record {
    id = new_id;
    tenant_id = tenant;
    execution_id = execution;
    units_reserved = units;
    units_settled = pos 0;
    modality_costs = no_fields;
    status = reserved;
  }
  ok (
    entry,
    record {
      budgets = insert tenant (record budget { held = round (budget.held +ℤ units) }) s.budgets;
      ledger = insert execution entry s.ledger;
    },
  )

-- `if entry.status is not RESERVED: raise`
abbrev require_reserved : ℕ → UsageLedgerStatus → Result UsageError (Unit {0})
require_reserved execution reserved = ok tt
require_reserved execution settled = err (reservation_already_resolved execution settled)
require_reserved execution refunded = err (reservation_already_resolved execution refunded)
require_reserved execution failed = err (reservation_already_resolved execution failed)

-- `_resolve`
pub resolve :
    (ℤ → ℤ)
    → ℕ
    → ℤ
    → UsageLedgerStatus
    → Option JsonObject
    → Accounting
    → Result UsageError (UsageLedger × Accounting)
resolve round execution units status costs s = do
  raise_if (ltb_ℤ units (pos 0)) value_error
  entry ← or_raise (lookup execution s.ledger) (reservation_not_found execution)
  require_reserved execution entry.status
  budget ← or_raise (lookup entry.tenant_id s.budgets) (key_error entry.tenant_id)
  let budget' : TenantBudget = record budget {
    consumed = round (budget.consumed +ℤ units);
    held = round (budget.held -ℤ entry.units_reserved);
  }
  let resolved : UsageLedger = record entry {
    units_settled = units;
    modality_costs = or_no_fields costs;
    status = status;
  }
  ok (
    resolved,
    record {
      budgets = insert entry.tenant_id budget' s.budgets;
      ledger = insert execution resolved s.ledger;
    },
  )

pub settle :
    (ℤ → ℤ) → ℕ → ℤ → Option JsonObject → Accounting → Result UsageError (UsageLedger × Accounting)
unfolding resolve
settle round execution units costs = resolve round execution units settled costs

pub refund : (ℤ → ℤ) → ℕ → Accounting → Result UsageError (UsageLedger × Accounting)
unfolding resolve
refund round execution = resolve round execution (pos 0) refunded none

pub fail :
    (ℤ → ℤ) → ℕ → ℤ → Option JsonObject → Accounting → Result UsageError (UsageLedger × Accounting)
unfolding resolve
fail round execution units costs = resolve round execution units failed costs

pub get : ℕ → Accounting → Result UsageError UsageLedger
get execution s = or_raise (lookup execution s.ledger) (reservation_not_found execution)

pub summary : (ℤ → ℤ) → ℕ → Accounting → Result UsageError UsageSummary
summary round tenant s = do
  budget ← or_raise (lookup tenant s.budgets) (entitlement_not_configured tenant)
  ok (record {
    plan = budget.plan;
    task_units = record {
      limit = budget.limit;
      used = used round budget;
      remaining = floor_zero (remaining round budget);
    };
    modality_limits = budget.modality_limits;
  })
