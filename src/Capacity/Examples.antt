-- ===== src/Capacity/Examples.antt =====
-- The signal board's theorems at concrete inputs.
use general_ai_core.Prelude.{
  ◌≡◌, refl, true, false, Option, none, some, String, [], ◌∷◌, arith, Dict, nat_eq, string_eq,
  pair_eq,
}
use general_ai_core.Prelude.Int.{pos}
use general_ai_core.Prelude.Json.{Json, number}
use general_ai_core.Capacity.{
  ProviderError, rate_limited, Board, fresh_signal, Signal, record_error,
}
use general_ai_core.Capacity.Laws.{answer, is_eligible, eligibility_exactly, error_excludes}
use general_ai_core.Capacity.Window.{attempts, attempts_budget}

-- One pair that is cooling down until 9, 000, 000.
abbrev cooling : Signal
cooling = record fresh_signal { cooldown_until = some 9000000; last_category = some rate_limited }

abbrev board : Board
board = record {
  default_cooldown_ms = 60000;
  default_unavailable_ms = 300000;
  records = ((1, 1), cooling) ∷ [];
}

abbrev limits : Option (Dict String Json)
limits = some (("rpm", number (pos 3)) ∷ [])

abbrev throttled : ProviderError
throttled = record {
  category = rate_limited;
  retryable = true;
  retry_after_ms = some 2000;
  provider_code = none;
  safe_message = "slow down";
}

eligibility_exactly_example :
    answer 8000000 (1, 1) limits board ≡ is_eligible 8000000 (some 3) cooling
eligibility_exactly_example = eligibility_exactly 8000000 (1, 1) limits board

error_excludes_example :
    answer 6999999 (2, 1) limits (record_error 5000000 (2, 1) throttled board) ≡ false
error_excludes_example =
    error_excludes 5000000 6999999 (2, 1) throttled limits board 2000 refl (omega arith)

attempts_budget_example :
    answer 30 (2, 1) limits (attempts (10 ∷ 15 ∷ 20 ∷ []) (2, 1) limits board) ≡ false
attempts_budget_example =
    attempts_budget 10 30 (15 ∷ 20 ∷ []) (2, 1) limits 3 board refl refl
      (omega arith, (omega arith, tt))
