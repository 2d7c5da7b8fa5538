-- ===== src/Usage/Lifecycle.antt =====
-- The life of one reservation in core/usage/memory.py: granted within the budget, resolved once,
-- returned in full by a refund.
use general_ai_core.Prelude.{
  ℕ, ◌≡◌, inl, inr, refl, sym, ◌∙◌, ap, subst, List, [], ◌∷◌, String, true, Option, none, some,
  arith, Dict, lookup, insert, ◌==◌, nat_eq, string_eq, ok, err, after, Bool-cases, Option-cases,
  Result-cases, lookup-insert, lookup-insert_self,
}
use general_ai_core.Prelude.Int.{ℤ, pos, ◌+ℤ◌, ◌-ℤ◌, ◌≤ℤ◌, ltb_ℤ, int_laws}
use general_ai_core.Prelude.Json.{JsonObject, no_fields}
use general_ai_core.Usage.{
  UsageLedgerStatus, reserved, refunded, UsageLedger, TenantBudget, Accounting,
  reservation_already_resolved, remaining, reserve, resolve, refund, or_no_fields, settled, failed,
  settle, fail, configure_tenant,
}
use general_ai_core.Usage.Balance.{IsFinal}
use general_ai_core.Usage.History.{
  HoldsExactly, Call, configures, reserves, settles, refunds, fails, step, run,
}

-- The entry that a granted reservation makes.
abbrev pub new_entry : ℕ → ℕ → ℕ → ℤ → UsageLedger
new_entry new_id tenant execution units = record {
  id = new_id;
  tenant_id = tenant;
  execution_id = execution;
  units_reserved = units;
  units_settled = pos 0;
  modality_costs = no_fields;
  status = reserved;
}

abbrev pub holding : (ℤ → ℤ) → TenantBudget → ℤ → TenantBudget
holding round b units = record b { held = round (b.held +ℤ units) }

abbrev pub reserved_state : (ℤ → ℤ) → ℕ → ℕ → TenantBudget → UsageLedger → Accounting → Accounting
reserved_state round tenant execution b e s = record {
  budgets = insert tenant (holding round b e.units_reserved) s.budgets;
  ledger = insert execution e s.ledger;
}

-- What a granted reservation had: a budget, no entry, units that are not negative and fit.
pub reserve_ok :
    (round : ℤ → ℤ) (new_id tenant execution : ℕ) (units : ℤ) (s s' : Accounting) (e : UsageLedger)
    → reserve round new_id tenant execution units s ≡ ok (e, s')
    → (b : TenantBudget) × (lookup tenant s.budgets ≡ some b)
      × (lookup execution s.ledger ≡ none)
      × (pos 0 ≤ℤ units)
      × (units ≤ℤ remaining round b)
      × (e ≡ new_entry new_id tenant execution units)
      × (s' ≡ reserved_state round tenant execution b e s)
unfolding reserve
reserve_ok round new_id tenant execution units s s' e h =
    elim (Option-cases (lookup tenant s.budgets)) [
      | inl q ↦ ground arith
      | inr (b, hb) ↦ (b, hb, ground arith, ground arith, ground arith, ground arith, ground arith)
    ]

-- What a resolved entry had: it was open, and its tenant has a budget.
pub resolve_ok :
    (round : ℤ → ℤ) (execution : ℕ) (units : ℤ) (status : UsageLedgerStatus)
    (costs : Option JsonObject) (s s' : Accounting) (e' : UsageLedger)
    → resolve round execution units status costs s ≡ ok (e', s')
    → (e : UsageLedger) × (b : TenantBudget) × (lookup execution s.ledger ≡ some e)
      × (e.status ≡ reserved)
      × (lookup e.tenant_id s.budgets ≡ some b)
      × (pos 0 ≤ℤ units)
      × (e' ≡ record e {
        units_settled = units;
        modality_costs = or_no_fields costs;
        status = status;
      })
      × (s' ≡ record {
        budgets =
            insert e.tenant_id
              (record b {
                consumed = round (b.consumed +ℤ units);
                held = round (b.held -ℤ e.units_reserved);
              })
              s.budgets;
        ledger = insert execution e' s.ledger;
      })
unfolding resolve
resolve_ok round execution units status costs s s' e' h =
    elim (Option-cases (lookup execution s.ledger)) [
      | inl q ↦ ground arith
      | inr (e, hl) ↦ elim (Option-cases (lookup e.tenant_id s.budgets)) [
        | inl q ↦ ground arith
        | inr (b, hb) ↦ (e, b, hl, ground arith, hb, ground arith, ground arith, ground arith)
      ]
    ]

-- The books after the refund of a new entry.
abbrev refunded_state : (ℤ → ℤ) → ℕ → ℕ → TenantBudget → UsageLedger → Accounting → Accounting
refunded_state round tenant execution b e s = record {
  budgets =
      insert tenant
        (record b {
          consumed = round (b.consumed +ℤ pos 0);
          held = round (round (b.held +ℤ e.units_reserved) -ℤ e.units_reserved);
        })
        (insert tenant (holding round b e.units_reserved) s.budgets);
  ledger = insert execution (record e { status = refunded }) (insert execution e s.ledger);
}

refund_new :
    (round : ℤ → ℤ) (new_id tenant execution : ℕ) (units : ℤ) (s : Accounting) (b : TenantBudget)
    → let e = new_entry new_id tenant execution units in
      refund round execution (reserved_state round tenant execution b e s)
      ≡ ok (record e { status = refunded }, refunded_state round tenant execution b e s)
unfolding refund resolve
refund_new round new_id tenant execution units s b =
    rw (lookup-insert_self execution (new_entry new_id tenant execution units) s.ledger)
      (rw (lookup-insert_self tenant (holding round b units) s.budgets) refl)

budget_back :
    (round : ℤ → ℤ) (b : TenantBudget) (u : ℤ)
    → round b.consumed ≡ b.consumed
    → round b.held ≡ b.held
    → round (b.held +ℤ u) ≡ b.held +ℤ u
    → record b { consumed = round (b.consumed +ℤ pos 0); held = round (round (b.held +ℤ u) -ℤ u) }
      ≡ b
budget_back round b u c h more =
    rw more (rw (zero_right b.consumed) (rw (cancel b.held u) (rw (c, h) refl)))
  where
    zero_right : (x : ℤ) → x +ℤ pos 0 ≡ x
    zero_right x = omega int_laws

    cancel : (x y : ℤ) → x +ℤ y -ℤ y ≡ x
    cancel x y = omega int_laws

-- A reservation that was granted and then refunded leaves every tenant's budget as it was before, and the
-- entry is closed as refunded with no units booked, when the tenant's units, with and without the
-- reservation, are numbers that rounding keeps, as it does for whole numbers of task units up to 2 ^ 53.
pub refund-reserve :
    (round : ℤ → ℤ) (new_id tenant execution : ℕ) (units : ℤ) (s s' : Accounting) (e : UsageLedger)
    (b : TenantBudget)
    → lookup tenant s.budgets ≡ some b
    → round b.consumed ≡ b.consumed
    → round b.held ≡ b.held
    → round (b.held +ℤ units) ≡ b.held +ℤ units
    → reserve round new_id tenant execution units s ≡ ok (e, s')
    → (s'' : Accounting) × (refund round execution s' ≡ ok (record e { status = refunded }, s''))
      × ((t : ℕ) → lookup t s''.budgets ≡ lookup t s.budgets)
refund-reserve round new_id tenant execution units s s' e b configured c k more h =
    let (b', hb, hl, nonneg, fits, same, books) =
      reserve_ok round new_id tenant execution units s s' e h in
    let one : b' ≡ b = same_budget (sym hb ∙ configured) in
    (
      refunded_state round tenant execution b' e s,
      rw (books, same) (refund_new round new_id tenant execution units s b'),
      rw one (λ t. back t e same (rw one at hb)),
    )
  where
    same_budget : {x y : TenantBudget} → some x ≡ some y → x ≡ y
    same_budget q = cc

    back :
        (t : ℕ) (e : UsageLedger)
        → e ≡ new_entry new_id tenant execution units
        → lookup tenant s.budgets ≡ some b
        → lookup t (refunded_state round tenant execution b e s).budgets ≡ lookup t s.budgets
    back t e same hb = rw same (
        ground (
          arith,
          hb,
          budget_back round b units c k more,
          lookup-insert tenant t
              (record b {
                consumed = round (b.consumed +ℤ pos 0);
                held = round (round (b.held +ℤ units) -ℤ units);
              })
              (insert tenant (holding round b units) s.budgets),
          lookup-insert tenant t (holding round b units) s.budgets,
        ))

module _ (round : ℤ → ℤ) (execution : ℕ) (s : Accounting) (e : UsageLedger)
    (found : lookup execution s.ledger ≡ some e) where
  resolve_closed :
      (units : ℤ) (status : UsageLedgerStatus) (costs : Option JsonObject)
      → pos 0 ≤ℤ units
      → IsFinal e.status
      → resolve round execution units status costs s
        ≡ err (reservation_already_resolved execution e.status)
  unfolding resolve
  resolve_closed units status costs nonneg final = ground arith

  reserve_existing :
      (new_id tenant : ℕ) (b : TenantBudget) (units : ℤ)
      → pos 0 ≤ℤ units
      → lookup tenant s.budgets ≡ some b
      → reserve round new_id tenant execution units s
        ≡ err (reservation_already_resolved execution e.status)
  unfolding reserve
  reserve_existing new_id tenant b units nonneg hb = ground arith

-- The ledger has the execution's entry with that status.
abbrev pub Stays : ℕ → UsageLedgerStatus → Accounting → Type 0
Stays execution status s =
    (e : UsageLedger) × (lookup execution s.ledger ≡ some e) × (e.status ≡ status)

-- An entry of another execution leaves it.
Stays-insert :
    (execution other : ℕ) (status : UsageLedgerStatus) (new : UsageLedger) (s s' : Accounting)
    → s'.ledger ≡ insert other new s.ledger
    → ((other == execution) ≡ true → ⊥)
    → Stays execution status s
    → Stays execution status s'
Stays-insert execution other status new s s' books differs (e, found, is) = (
  e,
  rw books (
      rw (lookup-insert other execution new s.ledger) (elim (Bool-cases (other == execution)) [
        | inl same ↦ absurd (differs same)
        | inr apart ↦ rw apart found
      ])),
  is,
)

module _ (round : ℤ → ℤ) (execution : ℕ) (status : UsageLedgerStatus) (s : Accounting)
    (final : IsFinal status) (st : Stays execution status s) where
  same_entry : {x y : UsageLedger} → some x ≡ some y → x ≡ y
  same_entry q = cc

  Stays-reserve :
      (new_id tenant other : ℕ) (units : ℤ)
      → Stays execution status (after s (reserve round new_id tenant other units s))
  Stays-reserve new_id tenant other units =
      elim (Result-cases (reserve round new_id tenant other units s)) [
        | inl ((e, s'), granted) ↦
            let (b, hb, fresh, nonneg, fits, same, books) =
              reserve_ok round new_id tenant other units s s' e granted in
            rw granted (
              Stays-insert execution other status e s s' (ap (λ (a : Accounting). a.ledger) books)
                (λ q. taken (
                  sym (
                    subst (λ i. lookup i s.ledger ≡ none) ((nat_eq.beq_iff other execution).0 q)
                      fresh)
                  ∙ st.1))
                st)
        | inr (x, raised) ↦ rw raised st
      ]
    where
      taken : {e : UsageLedger} → none ≡ some e → ⊥
      taken q = cc

  Stays-resolve :
      (other : ℕ) (units : ℤ) (new : UsageLedgerStatus) (costs : Option JsonObject)
      → Stays execution status (after s (resolve round other units new costs s))
  Stays-resolve other units new costs =
      elim (Result-cases (resolve round other units new costs s)) [
        | inl ((e', s'), granted) ↦
            let (e, b, hl, is_open, hb, nonneg, closed, books) =
              resolve_ok round other units new costs s s' e' granted in
            rw granted (
              Stays-insert execution other status e' s s' (ap (λ (a : Accounting). a.ledger) books)
                (λ q. final (
                  sym st.2
                  ∙ ap (λ (x : UsageLedger). x.status)
                      (same_entry (
                        sym st.1
                        ∙ subst (λ i. lookup i s.ledger ≡ some e)
                            ((nat_eq.beq_iff other execution).0 q) hl))
                  ∙ is_open))
                st)
        | inr (x, raised) ↦ rw raised st
      ]

  Stays-configure :
      (tenant : ℕ) (plan : String) (units : ℤ) (limits : Option JsonObject)
      → Stays execution status (after s (configure_tenant tenant plan units limits s))
  unfolding configure_tenant
  Stays-configure tenant plan units limits = elim (Bool-cases (ltb_ℤ units (pos 0))) [
    | inl bad ↦ rw bad st
    | inr fine ↦ rw fine st
  ]

  Stays-step : (c : Call) → Stays execution status (step round s c)
  unfolding step settle refund fail
  Stays-step (configures tenant plan units limits) = Stays-configure tenant plan units limits
  Stays-step (reserves new_id tenant other units) = Stays-reserve new_id tenant other units
  Stays-step (settles other units costs) = Stays-resolve other units settled costs
  Stays-step (refunds other) = Stays-resolve other (pos 0) refunded none
  Stays-step (fails other units costs) = Stays-resolve other units failed costs

Stays-run :
    (round : ℤ → ℤ) (execution : ℕ) (status : UsageLedgerStatus) (cs : List Call) (s : Accounting)
    → IsFinal status
    → Stays execution status s
    → Stays execution status (run round s cs)
unfolding run
Stays-run round execution status [] s final st = st
Stays-run round execution status (c ∷ cs) s final st =
    Stays-run round execution status cs (step round s c) final
      (Stays-step round execution status s final st c)

-- Once an execution's reservation is resolved, by settling, refunding or failing it, then after any history
-- of calls every call that resolves it with an amount that is not negative, and every new reservation
-- for it of a configured tenant with such an amount, is refused as already resolved with the status
-- that the first call set.
pub resolve_twice :
    (round : ℤ → ℤ) (execution : ℕ) (units : ℤ) (status : UsageLedgerStatus)
    (costs : Option JsonObject) (s s' : Accounting) (e : UsageLedger) (cs : List Call) (again : ℤ)
    (other : UsageLedgerStatus) (more : Option JsonObject) (new_id tenant : ℕ) (b : TenantBudget)
    → IsFinal status
    → resolve round execution units status costs s ≡ ok (e, s')
    → pos 0 ≤ℤ again
    → lookup tenant (run round s' cs).budgets ≡ some b
    → (resolve round execution again other more (run round s' cs)
        ≡ err (reservation_already_resolved execution status))
      × (reserve round new_id tenant execution again (run round s' cs)
          ≡ err (reservation_already_resolved execution status))
resolve_twice round execution units status costs s s' e cs again other more new_id tenant b final h
      nonneg hb =
    let (e₀, b₀, hl, is_open, hb₀, units_nonneg, closed, books) =
      resolve_ok round execution units status costs s s' e h in
    let found : lookup execution s'.ledger ≡ some e =
      ground (arith, books, lookup-insert_self execution e s.ledger) in
    let first : e.status ≡ status = cc in
    let (e₁, found₁, is₁) = Stays-run round execution status cs s' final (e, found, first) in
    (
      ground (
        arith,
        is₁,
        resolve_closed round execution (run round s' cs) e₁ found₁ again other more nonneg,
      ),
      ground (
        arith,
        is₁,
        reserve_existing round execution (run round s' cs) e₁ found₁ new_id tenant b again nonneg
            hb,
      ),
    )

-- No tenant uses more than its limit.
abbrev pub IsWithinLimit : Option TenantBudget → Type 0
IsWithinLimit none = Unit
IsWithinLimit (some b) = b.consumed +ℤ b.held ≤ℤ b.limit

abbrev pub IsWithin : Accounting → Type 0
IsWithin s = (t : ℕ) → IsWithinLimit (lookup t s.budgets)

insert-IsWithin :
    (tenant : ℕ) (new : TenantBudget) (budgets : Dict ℕ TenantBudget) (t : ℕ)
    → new.consumed +ℤ new.held ≤ℤ new.limit
    → IsWithinLimit (lookup t budgets)
    → IsWithinLimit (lookup t (insert tenant new budgets))
insert-IsWithin tenant new budgets t fits rest = elim (Bool-cases (tenant == t)) [
  | inl same ↦ rw (lookup-insert tenant t new budgets) (rw same fits)
  | inr other ↦ rw (lookup-insert tenant t new budgets) (rw other rest)
]

-- Reservations, however many run at once, never draw a budget past its limit: one call keeps every
-- tenant within its limit, whether it is granted or refused, when the sums it computes are numbers that
-- rounding keeps, as it does for whole numbers of task units up to 2 ^ 53.
pub reserve-IsWithin :
    (round : ℤ → ℤ) (new_id tenant execution : ℕ) (units : ℤ) (s : Accounting)
    → HoldsExactly round units (lookup tenant s.budgets)
    → IsWithin s
    → IsWithin (after s (reserve round new_id tenant execution units s))
reserve-IsWithin round new_id tenant execution units s kept w t =
    elim (Result-cases (reserve round new_id tenant execution units s)) [
      | inl ((e, s'), granted) ↦
          let (b₁, hb, hl, nonneg, fits, same, books) =
            reserve_ok round new_id tenant execution units s s' e granted in
          let (sum, left, more) = rw hb at kept in
          let fits' : units ≤ℤ b₁.limit -ℤ (b₁.consumed +ℤ b₁.held) = rw (sum, left) at fits in
          rw (granted, books)
            (insert-IsWithin tenant (holding round b₁ e.units_reserved) s.budgets t
              (rw same (rw more (omega int_laws))) (w t))
      | inr (x, raised) ↦ rw raised (w t)
    ]
