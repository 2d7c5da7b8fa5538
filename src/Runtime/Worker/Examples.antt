-- ===== src/Runtime/Worker/Examples.antt =====
-- Concrete runs of the worker.
use general_ai_core.Prelude.{ℕ, zero, suc, ◌+◌, ◌≡◌, refl, List, [], ◌∷◌, ok}
use general_ai_core.Runtime.Queue.{
  Queue, QueueMessage, QueueError, empty_queue, publish, consume, ack, claim_stale,
}
use general_ai_core.Runtime.Queue.Port.{in_memory}
use general_ai_core.Runtime.Queue.History.{QueueCall, publishes, run, step}
use general_ai_core.Runtime.Worker.{
  Keys, Outcome, succeeded, permanent, transient, interrupted, Worker, World, alone, WorkerReport,
  empty_report, in_memory_store, seen, record_key, process, run_once, recover_once,
}
use general_ai_core.Runtime.Worker.Once
use general_ai_core.Runtime.Worker.Once.{WorkerCall, runs, recovers, IsDeduplicated, at_most_once}
use general_ai_core.Runtime.Worker.Returns.{IsContained, run_once_returns}

abbrev mailer : Worker
mailer = record { stream = "mail"; group = "mailers"; consumer = "m1"; max_deliveries = 2 }

-- A handler that fails for now the first time, and counts its calls.
abbrev second_time : QueueMessage → ℕ → Outcome QueueError × ℕ
second_time m zero = (transient, 1)
second_time m (suc n) = (succeeded, n + 2)

second_time-IsContained : (m : QueueMessage) (n : ℕ) → IsContained (second_time m n).0
second_time-IsContained m zero = tt
second_time-IsContained m (suc n) = tt

-- The same letter was published twice.
abbrev mail : List QueueCall
mail = publishes "mail" (("to", "a") ∷ []) "k" ∷ publishes "mail" (("to", "a") ∷ []) "k" ∷ []

abbrev world : World Queue Keys ℕ
world = record { queue = (run mail (empty_queue, [])).0; store = []; work = 0 }

abbrev three_passes : List (WorkerCall QueueError Queue)
three_passes =
    runs (in_memory 5) mailer 1
    ∷ runs (in_memory 6) mailer 1
    ∷ recovers (in_memory 100) mailer 50 1
    ∷ []

-- The first delivery fails for now, the second succeeds, and the redelivery is a duplicate.
three_passes_log :
    (general_ai_core.Runtime.Worker.Once.run second_time three_passes
      (record { queue = world.queue; store = []; work = (0, []) })).work
    ≡ (2, "k" ∷ [])
unfolding general_ai_core.Runtime.Worker.Once.run general_ai_core.Runtime.Worker.Once.step run_once
    recover_once in_memory in_memory_store run step publish consume ack claim_stale seen record_key
three_passes_log = refl

at_most_once_example : IsDeduplicated (
    general_ai_core.Runtime.Worker.Once.run second_time three_passes
      (record { queue = world.queue; store = []; work = (0, []) }))
at_most_once_example = at_most_once second_time three_passes world.queue 0

run_once_returns_example :
    (report : WorkerReport) × (s' : World Queue Keys ℕ) × (run_once
        (in_memory 5)
        in_memory_store
        (alone second_time)
        mailer
        2
        world
      ≡ (ok report, s'))
run_once_returns_example = run_once_returns mail 5 second_time mailer second_time-IsContained 2 [] 0
