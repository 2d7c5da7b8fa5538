-- ===== src/Usage/Examples.antt =====
-- Runs of core/usage/memory.py, and its theorems at concrete inputs.
use general_ai_core.Prelude.{
  ℕ, ◌≡◌, inl, inr, refl, none, List, [], ◌∷◌, arith, lookup, ◌==◌, nat_eq, string_eq,
  if◌then◌else◌, ok, err, after, Bool-cases,
}
use general_ai_core.Prelude.Int.{ℤ, pos, ◌+ℤ◌, ◌-ℤ◌, ltb_ℤ}
use general_ai_core.Prelude.Json.{no_fields}
use general_ai_core.Usage.{
  settled, refunded, UsageLedger, TenantBudget, Accounting, empty, reservation_already_resolved,
  configure_tenant, reserve, resolve, settle, refund,
}
use general_ai_core.Usage.Balance.{IsBalanced}
use general_ai_core.Usage.History.{
  Call, step, run, configures, reserves, settles, refunds, RunsExactly, run-empty-IsBalanced,
}
use general_ai_core.Usage.Lifecycle.{
  new_entry, reserved_state, refund-reserve, resolve_twice, IsWithin, reserve-IsWithin,
}

-- A rounding that keeps the numbers up to a hundred.
abbrev coarse : ℤ → ℤ
coarse x = if ltb_ℤ (pos 100) x then pos 100 else x

abbrev budget : TenantBudget
budget = record {
  plan = "free";
  limit = pos 10;
  consumed = pos 3;
  held = pos 0;
  modality_limits = no_fields;
}

abbrev books : Accounting
books = record { budgets = (1, budget) ∷ []; ledger = [] }

abbrev entry : UsageLedger
entry = new_entry 100 1 7 (pos 4)

abbrev settled_entry : UsageLedger
settled_entry = record entry { units_settled = pos 9; status = settled }

abbrev history : List Call
history =
    configures 1 "free" (pos 10) none
    ∷ reserves 100 1 7 (pos 4)
    ∷ reserves 101 1 8 (pos 7)
    ∷ settles 7 (pos 9) none
    ∷ refunds 7
    ∷ []

-- The second reservation is refused and the refund comes too late; settling books nine units.
run-history : (run coarse empty history).ledger ≡ (7, settled_entry) ∷ []
unfolding run step configure_tenant reserve settle refund ◌+ℤ◌ ◌-ℤ◌
run-history = refl

history_exact : RunsExactly coarse empty history
unfolding step configure_tenant reserve settle refund ◌+ℤ◌ ◌-ℤ◌
history_exact = (tt, ((refl, refl, refl), ((refl, refl, refl), ((refl, refl), ((refl, refl), tt)))))

run-empty-IsBalanced_example : IsBalanced (run coarse empty history)
run-empty-IsBalanced_example = run-empty-IsBalanced coarse history history_exact

refund-reserve_example :
    (s'' : Accounting) × (refund coarse 7 (reserved_state coarse 1 7 budget entry books)
      ≡ ok (record entry { status = refunded }, s''))
    × ((t : ℕ) → lookup t s''.budgets ≡ lookup t books.budgets)
unfolding reserve ◌+ℤ◌ ◌-ℤ◌
refund-reserve_example =
    refund-reserve coarse 100 1 7 (pos 4) books (reserved_state coarse 1 7 budget entry books) entry
      budget refl refl refl refl refl

abbrev settled_books : Accounting
settled_books = record {
  budgets = (1, record budget { consumed = pos 12 }) ∷ [];
  ledger = (7, settled_entry) ∷ [];
}

abbrev reserved_books : Accounting
reserved_books = record {
  budgets = (1, record budget { held = pos 4 }) ∷ [];
  ledger = (7, entry) ∷ [];
}

abbrev later_calls : List Call
later_calls = configures 1 "free" (pos 20) none ∷ reserves 103 1 8 (pos 3) ∷ refunds 7 ∷ []

resolve_twice_example :
    (resolve coarse 7 (pos 0) refunded none (run coarse settled_books later_calls)
      ≡ err (reservation_already_resolved 7 settled))
    × (reserve coarse 102 1 7 (pos 0) (run coarse settled_books later_calls)
        ≡ err (reservation_already_resolved 7 settled))
unfolding run step configure_tenant reserve refund resolve ◌+ℤ◌ ◌-ℤ◌
resolve_twice_example =
    resolve_twice coarse 7 (pos 9) settled none reserved_books settled_books settled_entry
      later_calls (pos 0) refunded none 102 1
      (record budget { limit = pos 20; consumed = pos 12; held = pos 3 }) (λ q. cc) refl
      (omega arith) refl

books-IsWithin : IsWithin books
unfolding ◌+ℤ◌
books-IsWithin t = elim (Bool-cases (1 == t)) [
  | inl same ↦ rw same (omega arith)
  | inr other ↦ rw other tt
]

reserve-IsWithin_example : IsWithin (after books (reserve coarse 100 1 7 (pos 4) books))
unfolding ◌+ℤ◌ ◌-ℤ◌
reserve-IsWithin_example =
    reserve-IsWithin coarse 100 1 7 (pos 4) books (refl, refl, refl) books-IsWithin
