-- ===== src/Usage/History.antt =====
-- Histories of calls of core/usage/memory.py, and the books that they leave.
use general_ai_core.Prelude.{
  ℕ, ◌≡◌, inl, inr, refl, Option, none, some, String, List, [], ◌∷◌, lookup, nat_eq, string_eq,
  after, Option-cases,
}
use general_ai_core.Prelude.Int.{ℤ, pos, ◌+ℤ◌, ◌-ℤ◌}
use general_ai_core.Prelude.Json.{JsonObject}
use general_ai_core.Usage.{
  UsageLedgerStatus, settled, refunded, failed, UsageLedger, TenantBudget, Accounting, empty,
  configure_tenant, reserve, resolve, settle, refund, fail,
}
use general_ai_core.Usage.Balance.{
  exact, IsBalanced, empty-IsBalanced, configure_tenant-IsBalanced, reserve-IsBalanced,
  resolve-IsBalanced,
}

-- The calls of the port, and a history of them; a call that raises changes nothing.
pub data Call : Type 0 where
  configures : ℕ → String → ℤ → Option JsonObject → Call
  reserves : ℕ → ℕ → ℕ → ℤ → Call
  settles : ℕ → ℤ → Option JsonObject → Call
  refunds : ℕ → Call
  fails : ℕ → ℤ → Option JsonObject → Call

unfoldable pub step : (ℤ → ℤ) → Accounting → Call → Accounting
unfolding settle refund fail
step round s (configures tenant plan units limits) =
    after s (configure_tenant tenant plan units limits s)
step round s (reserves new_id tenant execution units) =
    after s (reserve round new_id tenant execution units s)
step round s (settles execution units costs) = after s (settle round execution units costs s)
step round s (refunds execution) = after s (refund round execution s)
step round s (fails execution units costs) = after s (fail round execution units costs s)

unfoldable pub run : (ℤ → ℤ) → Accounting → List Call → Accounting
unfolding step
run round s [] = s
run round s (c ∷ cs) = run round (step round s c) cs

step-IsBalanced : (s : Accounting) (c : Call) → IsBalanced s → IsBalanced (step exact s c)
unfolding step
step-IsBalanced s (configures tenant plan units limits) v =
    configure_tenant-IsBalanced tenant plan units limits s v
step-IsBalanced s (reserves new_id tenant execution units) v =
    reserve-IsBalanced new_id tenant execution units s v
step-IsBalanced s (settles execution units costs) v =
    resolve-IsBalanced execution units settled costs s (λ q. cc) v
step-IsBalanced s (refunds execution) v =
    resolve-IsBalanced execution (pos 0) refunded none s (λ q. cc) v
step-IsBalanced s (fails execution units costs) v =
    resolve-IsBalanced execution units failed costs s (λ q. cc) v

-- The sums of a reservation are floats: rounding keeps them.
abbrev pub HoldsExactly : (ℤ → ℤ) → ℤ → Option TenantBudget → Type 0
HoldsExactly round units none = Unit
HoldsExactly round units (some b) =
    (round (b.consumed +ℤ b.held) ≡ b.consumed +ℤ b.held)
    × (round (b.limit -ℤ (b.consumed +ℤ b.held)) ≡ b.limit -ℤ (b.consumed +ℤ b.held))
    × (round (b.held +ℤ units) ≡ b.held +ℤ units)

abbrev BooksExactly : (ℤ → ℤ) → ℤ → UsageLedger → Option TenantBudget → Type 0
BooksExactly round units e none = Unit
BooksExactly round units e (some b) =
    (round (b.consumed +ℤ units) ≡ b.consumed +ℤ units)
    × (round (b.held -ℤ e.units_reserved) ≡ b.held -ℤ e.units_reserved)

-- So are those of a call that resolves a reservation.
abbrev pub ClosesExactly : (ℤ → ℤ) → ℤ → Accounting → Option UsageLedger → Type 0
ClosesExactly round units s none = Unit
ClosesExactly round units s (some e) = BooksExactly round units e (lookup e.tenant_id s.budgets)

abbrev pub CallsExactly : (ℤ → ℤ) → Accounting → Call → Type 0
CallsExactly round s (configures tenant plan units limits) = Unit
CallsExactly round s (reserves new_id tenant execution units) =
    HoldsExactly round units (lookup tenant s.budgets)
CallsExactly round s (settles execution units costs) =
    ClosesExactly round units s (lookup execution s.ledger)
CallsExactly round s (refunds execution) = ClosesExactly round (pos 0) s (lookup execution s.ledger)
CallsExactly round s (fails execution units costs) =
    ClosesExactly round units s (lookup execution s.ledger)

-- Every sum that the calls of a history compute is a float.
abbrev pub RunsExactly : (ℤ → ℤ) → Accounting → List Call → Type 0
unfolding step
RunsExactly round s [] = Unit
RunsExactly round s (c ∷ cs) = CallsExactly round s c × RunsExactly round (step round s c) cs

reserve-exact :
    (round : ℤ → ℤ) (new_id tenant execution : ℕ) (units : ℤ) (s : Accounting)
    → HoldsExactly round units (lookup tenant s.budgets)
    → reserve round new_id tenant execution units s ≡ reserve exact new_id tenant execution units s
unfolding reserve
reserve-exact round new_id tenant execution units s h =
    elim (Option-cases (lookup tenant s.budgets)) [
      | inl missing ↦ rw missing refl
      | inr (b, hb) ↦ let (used, left, more) = rw hb at h in rw hb (rw used (rw (left, more) refl))
    ]

resolve-exact :
    (round : ℤ → ℤ) (execution : ℕ) (units : ℤ) (status : UsageLedgerStatus)
    (costs : Option JsonObject) (s : Accounting)
    → ClosesExactly round units s (lookup execution s.ledger)
    → resolve round execution units status costs s ≡ resolve exact execution units status costs s
unfolding resolve
resolve-exact round execution units status costs s h =
    elim (Option-cases (lookup execution s.ledger)) [
      | inl missing ↦ rw missing refl
      | inr (e, hl) ↦ elim (Option-cases (lookup e.tenant_id s.budgets)) [
        | inl none_there ↦ rw (hl, none_there) refl
        | inr (b, hb) ↦
            let (booked, freed) = rw (hl, hb) at h in rw (hl, hb) (rw (booked, freed) refl)
      ]
    ]

step-exact :
    (round : ℤ → ℤ) (s : Accounting) (c : Call)
    → CallsExactly round s c
    → step round s c ≡ step exact s c
unfolding step settle refund fail
step-exact round s (configures tenant plan units limits) h = refl
step-exact round s (reserves new_id tenant execution units) h =
    rw (reserve-exact round new_id tenant execution units s h) refl
step-exact round s (settles execution units costs) h =
    rw (resolve-exact round execution units settled costs s h) refl
step-exact round s (refunds execution) h =
    rw (resolve-exact round execution (pos 0) refunded none s h) refl
step-exact round s (fails execution units costs) h =
    rw (resolve-exact round execution units failed costs s h) refl

run-IsBalanced :
    (round : ℤ → ℤ) (s : Accounting) (cs : List Call)
    → RunsExactly round s cs
    → IsBalanced s
    → IsBalanced (run round s cs)
unfolding run
run-IsBalanced round s [] h v = v
run-IsBalanced round s (c ∷ cs) h v =
    run-IsBalanced round (step round s c) cs h.1
      (rw (step-exact round s c h.0) (step-IsBalanced s c v))

-- After any history of calls on a new accounting object whose sums and differences the floats hold exactly
-- (as they do for whole numbers of task units up to 2 ^ 53), every tenant's held units are the sum of
-- the open reservations that the ledger lists for it, its consumed units are the sum of the units
-- booked by its entries, no entry has a negative amount, and an open entry has booked nothing.
pub run-empty-IsBalanced :
    (round : ℤ → ℤ) (cs : List Call) → RunsExactly round empty cs → IsBalanced (run round empty cs)
run-empty-IsBalanced round cs h = run-IsBalanced round empty cs h empty-IsBalanced
