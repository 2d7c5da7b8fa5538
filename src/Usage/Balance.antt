-- ===== src/Usage/Balance.antt =====
-- The books of core/usage/memory.py balance: each tenant's `held` and `consumed` are the sums over
-- the ledger, whatever calls are made.
use general_ai_core.Prelude.{
  ℕ, ◌≡◌, ◌≢◌, inl, inr, refl, false, Option, none, some, String, arith, lookup, insert, ◌==◌,
  nat_eq, string_eq, if◌then◌else◌, ok, after, Bool-cases, Option-cases, Result-cases,
  lookup-insert,
}
use general_ai_core.Prelude.Int.{ℤ, pos, ◌+ℤ◌, ◌-ℤ◌, ◌≤ℤ◌, ltb_ℤ, int_laws}
use general_ai_core.Prelude.Sums.{
  weigh, weigh-insert, weigh-insert_new, AllValues, AllValues-insert, AllValues-lookup,
}
use general_ai_core.Prelude.Json.{JsonObject}
use general_ai_core.Usage.{
  UsageLedgerStatus, reserved, settled, refunded, failed, UsageLedger, TenantBudget, Accounting,
  empty, configure_tenant, reserve, resolve, carried_over, or_no_fields, require_reserved,
}

-- Arithmetic that does not round.
abbrev pub exact : ℤ → ℤ
exact x = x

-- What an entry holds of a tenant's budget, and what it has booked against it.
abbrev pub open_units : UsageLedgerStatus → ℤ → ℤ
open_units reserved units = units
open_units settled units = pos 0
open_units refunded units = pos 0
open_units failed units = pos 0

abbrev pub held_of : ℕ → UsageLedger → ℤ
held_of tenant e = if e.tenant_id == tenant then open_units e.status e.units_reserved else pos 0

abbrev pub booked_of : ℕ → UsageLedger → ℤ
booked_of tenant e = if e.tenant_id == tenant then e.units_settled else pos 0

-- A tenant with no budget holds and has consumed nothing.
abbrev pub held_in : Option TenantBudget → ℤ
held_in none = pos 0
held_in (some b) = b.held

abbrev pub consumed_in : Option TenantBudget → ℤ
consumed_in none = pos 0
consumed_in (some b) = b.consumed

abbrev pub BookedWhile : UsageLedgerStatus → ℤ → Type 0
BookedWhile reserved units = units ≡ pos 0
BookedWhile settled units = Unit
BookedWhile refunded units = Unit
BookedWhile failed units = Unit

-- An entry's amounts are not negative, and an open one has booked nothing yet.
abbrev pub IsEntry : UsageLedger → Type 0
IsEntry e =
    (pos 0 ≤ℤ e.units_reserved) × (pos 0 ≤ℤ e.units_settled) × BookedWhile e.status e.units_settled

pub record IsBalanced (s : Accounting) : Type 0 where
  pub held : (t : ℕ) → held_in (lookup t s.budgets) ≡ weigh (held_of t) s.ledger
  pub consumed : (t : ℕ) → consumed_in (lookup t s.budgets) ≡ weigh (booked_of t) s.ledger
  pub entries : AllValues IsEntry s.ledger

pub empty-IsBalanced : IsBalanced empty
empty-IsBalanced = record { held = λ t. refl; consumed = λ t. refl; entries = tt }

module _ (tenant : ℕ) (plan : String) (units : ℤ) (costs : Option JsonObject) (s : Accounting) where
  pub configure_tenant-IsBalanced :
      IsBalanced s → IsBalanced (after s (configure_tenant tenant plan units costs s))
  unfolding configure_tenant
  configure_tenant-IsBalanced v = elim (Bool-cases (ltb_ℤ units (pos 0))) [
    | inl bad ↦ rw bad v
    | inr fine ↦ rw fine (record {
      held = λ t. ground (
        arith,
        v.held t,
        lookup-insert tenant t
            (carried_over (lookup tenant s.budgets) (record {
              plan = plan;
              limit = units;
              consumed = pos 0;
              held = pos 0;
              modality_limits = or_no_fields costs;
            }))
            s.budgets,
      );
      consumed = λ t. ground (
        arith,
        v.consumed t,
        lookup-insert tenant t
            (carried_over (lookup tenant s.budgets) (record {
              plan = plan;
              limit = units;
              consumed = pos 0;
              held = pos 0;
              modality_limits = or_no_fields costs;
            }))
            s.budgets,
      );
      entries = v.entries;
    })
  ]

booked_none : (x : UsageLedgerStatus) (u : ℤ) → x ≡ reserved → BookedWhile x u → u ≡ pos 0
booked_none reserved u h p = p
booked_none settled u h p = cc
booked_none refunded u h p = cc
booked_none failed u h p = cc

booked_final : (x : UsageLedgerStatus) (u : ℤ) → x ≢ reserved → BookedWhile x u
booked_final reserved u h = absurd (h refl)
booked_final settled u h = tt
booked_final refunded u h = tt
booked_final failed u h = tt

-- A new open entry, with its hold on the tenant's budget.
hold-IsBalanced :
    (s : Accounting) (execution : ℕ) (b : TenantBudget) (e : UsageLedger)
    → IsBalanced s
    → lookup e.tenant_id s.budgets ≡ some b
    → lookup execution s.ledger ≡ none
    → IsEntry e
    → e.status ≡ reserved
    → IsBalanced (record {
      budgets = insert e.tenant_id (record b { held = b.held +ℤ e.units_reserved }) s.budgets;
      ledger = insert execution e s.ledger;
    })
hold-IsBalanced s execution b e v hb hl p is_open = record {
  held = λ t. grind (
    int_laws,
    v.held t,
    weigh-insert_new (held_of t) execution e s.ledger hl,
    lookup-insert e.tenant_id t (record b { held = b.held +ℤ e.units_reserved }) s.budgets,
  );
  consumed = λ t. grind (
    int_laws,
    v.consumed t,
    booked_none e.status e.units_settled is_open p.2,
    weigh-insert_new (booked_of t) execution e s.ledger hl,
    lookup-insert e.tenant_id t (record b { held = b.held +ℤ e.units_reserved }) s.budgets,
  );
  entries = AllValues-insert IsEntry execution e s.ledger v.entries p;
}

pub nonneg_of_test : (x : ℤ) → ltb_ℤ x (pos 0) ≡ false → pos 0 ≤ℤ x
nonneg_of_test x h = ground arith

pub reserve-IsBalanced :
    (new_id tenant execution : ℕ) (units : ℤ) (s : Accounting)
    → IsBalanced s
    → IsBalanced (after s (reserve exact new_id tenant execution units s))
unfolding reserve
reserve-IsBalanced new_id tenant execution units s v = elim (Bool-cases (ltb_ℤ units (pos 0))) [
  | inl bad ↦ rw bad v
  | inr fine ↦ rw fine (elim (Option-cases (lookup tenant s.budgets)) [
    | inl no_budget ↦ rw no_budget v
    | inr (b, hb) ↦ rw hb (elim (Option-cases (lookup execution s.ledger)) [
      | inl fresh ↦ rw fresh (elim (Bool-cases (ltb_ℤ (b.limit -ℤ (b.consumed +ℤ b.held)) units)) [
        | inl short ↦ rw short v
        | inr enough ↦ rw enough (
            hold-IsBalanced s execution b _ v hb fresh
              (nonneg_of_test units fine, omega arith, refl) refl)
      ])
      | inr (old, e) ↦ rw e v
    ])
  ])
]

-- An open entry that is resolved: its hold is released and the actual units are booked.
close-IsBalanced :
    (s : Accounting) (execution : ℕ) (b : TenantBudget) (e e' : UsageLedger)
    → IsBalanced s
    → lookup e.tenant_id s.budgets ≡ some b
    → lookup execution s.ledger ≡ some e
    → e.status ≡ reserved
    → e'.tenant_id ≡ e.tenant_id
    → open_units e'.status e'.units_reserved ≡ pos 0
    → IsEntry e'
    → IsBalanced (record {
      budgets =
          insert e.tenant_id
            (record b {
              consumed = b.consumed +ℤ e'.units_settled;
              held = b.held -ℤ e.units_reserved;
            })
            s.budgets;
      ledger = insert execution e' s.ledger;
    })
close-IsBalanced s execution b e e' v hb hl is_open same closed p = record {
  held = λ t. grind (
    int_laws,
    v.held t,
    weigh-insert (held_of t) execution e' e s.ledger hl,
    lookup-insert e.tenant_id t
        (record b { consumed = b.consumed +ℤ e'.units_settled; held = b.held -ℤ e.units_reserved })
        s.budgets,
  );
  consumed = λ t. grind (
    int_laws,
    v.consumed t,
    booked_none e.status e.units_settled is_open
        (AllValues-lookup IsEntry execution e s.ledger v.entries hl).2,
    weigh-insert (booked_of t) execution e' e s.ledger hl,
    lookup-insert e.tenant_id t
        (record b { consumed = b.consumed +ℤ e'.units_settled; held = b.held -ℤ e.units_reserved })
        s.budgets,
  );
  entries = AllValues-insert IsEntry execution e' s.ledger v.entries p;
}

pub status_reserved : (x : UsageLedgerStatus) (n : ℕ) → require_reserved n x ≡ ok tt → x ≡ reserved
status_reserved reserved n h = refl
status_reserved settled n h = cc
status_reserved refunded n h = cc
status_reserved failed n h = cc

-- The statuses that `settle`, `refund` and `fail` set.
abbrev pub IsFinal : UsageLedgerStatus → Type 0
IsFinal status = status ≢ reserved

open_units_final : (x : UsageLedgerStatus) (u : ℤ) → IsFinal x → open_units x u ≡ pos 0
open_units_final reserved u h = absurd (h refl)
open_units_final settled u h = refl
open_units_final refunded u h = refl
open_units_final failed u h = refl

pub resolve-IsBalanced :
    (execution : ℕ) (units : ℤ) (status : UsageLedgerStatus) (costs : Option JsonObject)
    (s : Accounting)
    → IsFinal status
    → IsBalanced s
    → IsBalanced (after s (resolve exact execution units status costs s))
unfolding resolve
resolve-IsBalanced execution units status costs s final v =
    elim (Bool-cases (ltb_ℤ units (pos 0))) [
      | inl bad ↦ rw bad v
      | inr fine ↦ rw fine (elim (Option-cases (lookup execution s.ledger)) [
        | inl missing ↦ rw missing v
        | inr (e, hl) ↦ rw hl (elim (Result-cases (require_reserved execution e.status)) [
          | inl (x, passed) ↦ rw passed (elim (Option-cases (lookup e.tenant_id s.budgets)) [
            | inl no_budget ↦ rw no_budget v
            | inr (b, hb) ↦ rw hb (
                close-IsBalanced s execution b e _ v hb hl
                  (status_reserved e.status execution passed) refl
                  (open_units_final status e.units_reserved final)
                  (
                    (AllValues-lookup IsEntry execution e s.ledger v.entries hl).0,
                    nonneg_of_test units fine,
                    booked_final status units final,
                  ))
          ])
          | inr (x, refused) ↦ rw refused v
        ])
      ])
    ]
