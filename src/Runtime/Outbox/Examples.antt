-- ===== src/Runtime/Outbox/Examples.antt =====
-- Concrete runs of the relay.
use general_ai_core.Prelude.{◌≡◌, refl, List, [], ◌∷◌, arith}
use general_ai_core.Runtime.Queue.{publish, empty_queue}
use general_ai_core.Runtime.Queue.Port.{in_memory}
use general_ai_core.Runtime.Outbox.{
  Outbox, OutboxRecord, empty_outbox, relay_once, append, pending, mark_dispatched,
}
use general_ai_core.Runtime.Outbox.Relay.{IsRelayed, relay_once_lem}
use general_ai_core.Runtime.Outbox.Order.{
  OutboxCall, appends, relays, step, run, IsComplete, nothing_lost,
}

abbrev first_record : OutboxRecord
first_record = record {
  record_id = 1;
  stream = "jobs";
  payload = ("n", "1") ∷ [];
  idempotency_key = "a";
}

abbrev second_record : OutboxRecord
second_record = record {
  record_id = 2;
  stream = "jobs";
  payload = ("n", "2") ∷ [];
  idempotency_key = "b";
}

abbrev staged_two : Outbox
staged_two = record {
  seq = 3;
  pending = (1, first_record) ∷ (2, second_record) ∷ [];
  dispatched = [];
}

staged_two_appended :
    (append "jobs" (("n", "2") ∷ []) "b" (append "jobs" (("n", "1") ∷ []) "a" empty_outbox).1).1
    ≡ staged_two
unfolding append
staged_two_appended = refl

relay_once_lem_example :
    IsRelayed
      (in_memory 0)
      1
      3
      staged_two.pending
      []
      0
      empty_queue
      (relay_once (in_memory 0) 1 (staged_two, empty_queue))
relay_once_lem_example =
    relay_once_lem (in_memory 0) 1 1 staged_two empty_queue
      (omega arith, refl, (omega arith, refl, omega arith))

abbrev three_calls : List OutboxCall
three_calls =
    appends "jobs" (("n", "1") ∷ []) "a" ∷ appends "jobs" (("n", "2") ∷ []) "b" ∷ relays 1 ∷ []

three_calls_dispatched :
    (run (in_memory 0) three_calls ((empty_outbox, empty_queue), [])).0.0.dispatched
    ≡ first_record ∷ []
unfolding run step append relay_once pending mark_dispatched publish in_memory
three_calls_dispatched = refl

nothing_lost_example : IsComplete (run (in_memory 0) three_calls ((empty_outbox, empty_queue), []))
nothing_lost_example = nothing_lost (in_memory 0) three_calls empty_queue
