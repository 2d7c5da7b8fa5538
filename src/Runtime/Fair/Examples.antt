-- ===== src/Runtime/Fair/Examples.antt =====
-- Concrete runs of the scheduler.
use general_ai_core.Prelude.{
  ℕ, ◌≡◌, ◌==◌, inl, inr, arith, member, true, Bool-cases, refl, List, [], ◌∷◌, ok, some, string_eq,
  nat_eq,
}
use general_ai_core.Prelude.Sorted.{nat_order}
use general_ai_core.Runtime.Fair.{submit, next_item, empty_scheduler}
use general_ai_core.Runtime.Fair.Next.{IsNext}
use general_ai_core.Runtime.Fair.Turns.{IsBest, served, waits_in_turn}
use general_ai_core.Runtime.Fair.Formed.{SchedulerCall, submits, takes, run, best_first}

-- Two tenants at priority 1, and one at priority 0.
abbrev four_calls : List (SchedulerCall ℕ)
four_calls =
    submits "a" "a1" 1
    ∷ submits "a" "a2" 1
    ∷ submits "b" "b1" 1
    ∷ submits "c" "c1" 0
    ∷ takes
    ∷ takes
    ∷ []

four_calls_next : (next_item (run four_calls empty_scheduler)).0 ≡ ok (some ("b", "b1"))
unfolding run submit next_item
four_calls_next = refl

best_first_example :
    IsNext (run four_calls empty_scheduler) (next_item (run four_calls empty_scheduler))
best_first_example = best_first four_calls

abbrev three_submits : List (SchedulerCall ℕ)
three_submits = submits "a" "a1" 1 ∷ submits "a" "a2" 1 ∷ submits "b" "b1" 1 ∷ []

-- Two takes, with a submission of the other tenant between them.
abbrev two_takes : List (SchedulerCall ℕ)
two_takes = takes ∷ submits "a" "a3" 1 ∷ takes ∷ []

three_submits-IsBest : IsBest 1 (run three_submits empty_scheduler)
unfolding run submit
three_submits-IsBest q t less = elim (Bool-cases (1 == q)) [
  | inl own ↦ ground (arith, own, less)
  | inr other ↦ rw other refl
]

waits_in_turn_example : member "b" (served two_takes (run three_submits empty_scheduler)) ≡ true
unfolding run submit
waits_in_turn_example =
    waits_in_turn three_submits two_takes 1 "b" ((3, "b1"), [], refl) three_submits-IsBest
      (refl, tt) (omega arith)
