-- ===== src/Runtime/Admission/Examples.antt =====
-- The front door's theorems at concrete inputs, with the memory rate limiter at a time of 25 as the port.
use general_ai_core.Prelude.{
  ◌≤◌, ◌≡◌, refl, none, some, List, [], ◌∷◌, arith, nat_eq, string_eq, pair_eq, ok,
}
use general_ai_core.Runtime.RateLimit.{Windows, ClockError, hit}
use general_ai_core.Runtime.Admission.{
  RateLimitPort, Counts, depth, admit, allowed, enqueued, in_flight,
}
use general_ai_core.Runtime.Admission.Laws.{
  Event, admits, settles, door, door_bounded, starts, finishes, work, work_bounded,
}

abbrev memory_port : RateLimitPort
memory_port = record { State = Windows; Fault = ClockError; hit = hit 25 }

abbrev gauge : Counts
gauge = ("queue", 1) ∷ []

abbrev windows_after : Windows
windows_after = (("admission:acme", 2), 1) ∷ []

admit-run :
    admit memory_port "queue" "acme" (some 2) (some 1) 10 ([], gauge)
    ≡ ok (allowed, windows_after, ("queue", 2) ∷ [])
unfolding admit hit enqueued depth
admit-run = refl

depth-gauge : depth "queue" gauge ≡ 1
unfolding depth
depth-gauge = refl

abbrev events : List Event
events = admits "acme" (some 5) 10 ∷ admits "acme" none 10 ∷ settles ∷ admits "beta" none 10 ∷ []

door_bounded_example : depth "queue" (door memory_port "queue" 2 events [] gauge) ≤ 2
door_bounded_example =
    door_bounded memory_port "queue" 2 events [] gauge (omega (arith, depth-gauge))

in_flight-gauge : in_flight "queue" gauge ≡ 1
unfolding in_flight
in_flight-gauge = refl

work_bounded_example :
    in_flight "queue" (
      work
        (λ s. 2)
        (starts "queue" ∷ starts "queue" ∷ finishes "queue" ∷ starts "queue" ∷ [])
        gauge)
    ≤ 2
work_bounded_example =
    work_bounded (λ s. 2) (starts "queue" ∷ starts "queue" ∷ finishes "queue" ∷ starts "queue" ∷ [])
      gauge "queue" (omega (arith, in_flight-gauge))
