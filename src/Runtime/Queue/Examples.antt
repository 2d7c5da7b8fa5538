-- ===== src/Runtime/Queue/Examples.antt =====
-- Concrete runs of the queue.
use general_ai_core.Prelude.{◌≡◌, refl, List, [], ◌∷◌}
use general_ai_core.Runtime.Queue.{empty_queue}
use general_ai_core.Runtime.Queue.History.{
  QueueCall, publishes, consumes, acks, claims, dead_letters, step, run, IsLossless, cursor_of,
}
use general_ai_core.Runtime.Queue.Loss.{no_loss}

-- Two messages: one is handled, the other is redelivered and then given up.
abbrev two_messages : List QueueCall
two_messages =
    publishes "jobs" (("n", "1") ∷ []) "a"
    ∷ publishes "jobs" (("n", "2") ∷ []) "b"
    ∷ consumes 10 "jobs" "workers" "w1" 5
    ∷ acks "jobs" "workers" 1
    ∷ claims 90 "jobs" "workers" "w2" 50 5
    ∷ dead_letters "jobs" "workers" 2
    ∷ []

two_messages_cursor : cursor_of "jobs" "workers" (run two_messages (empty_queue, [])).0 ≡ 2
unfolding run step
two_messages_cursor = refl

two_messages_settled :
    (run two_messages (empty_queue, [])).1
    ≡ (("jobs", "workers"), 2) ∷ (("jobs", "workers"), 1) ∷ []
unfolding run step
two_messages_settled = refl

no_loss_example : IsLossless "jobs" "workers" (run two_messages (empty_queue, []))
no_loss_example = no_loss two_messages "jobs" "workers"
