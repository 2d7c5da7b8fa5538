-- ===== src/Runtime/RateLimit/Examples.antt =====
-- The rate limiter's theorems at concrete inputs.
use general_ai_core.Prelude.{◌≡◌, refl, [], ◌∷◌, arith, nat_eq, string_eq, pair_eq}
use general_ai_core.Runtime.RateLimit.{Windows}
use general_ai_core.Runtime.RateLimit.Laws.{admitted, admitted-window}

abbrev windows : Windows
windows = (("a", 1), 5) ∷ (("a", 2), 1) ∷ (("b", 1), 7) ∷ []

admitted-window_example : admitted (25 ∷ 26 ∷ 29 ∷ []) "a" 3 10 windows ≡ 2
admitted-window_example =
    admitted-window (25 ∷ 26 ∷ 29 ∷ []) "a" 3 10 2 windows (omega arith) (refl, (refl, (refl, tt)))
