-- ===== src/Runtime/Queue/Port.antt =====
-- `QueuePort` of core/runtime/ports.py, and the queue in memory as one.
use general_ai_core.Prelude.{ℕ, String, List, Result, ok, err}
use general_ai_core.Prelude.Calls.{Call}
use general_ai_core.Runtime.Queue.{
  Payload, QueueMessage, Queue, QueueError, publish, consume, ack, claim_stale, dead_letter,
}

-- A queue with states `Q` that may raise `E`: what a call wrote before it raised stays written.
pub record QueuePort (E Q : Type 0) : Type 0 where
  pub publishing : String → Payload → String → Call E Q ℕ
  pub consuming : String → String → String → ℕ → Call E Q (List QueueMessage)
  pub acking : String → String → ℕ → Call E Q (Unit {0})
  pub claiming : String → String → String → ℕ → ℕ → Call E Q (List QueueMessage)
  pub dead_lettering : String → String → ℕ → Call E Q (Unit {0})

-- A call that raises leaves the queue as it was.
abbrev written : {A : Type 0} → Queue → Result QueueError (A × Queue) → Result QueueError A × Queue
written q (ok (a, q')) = (ok a, q')
written q (err e) = (err e, q)

abbrev returned : {A : Type 0} → A × Queue → Result QueueError A × Queue
returned (a, q) = (ok a, q)

-- The queue in memory, at one value of its clock.
unfoldable pub in_memory : ℕ → QueuePort QueueError Queue
in_memory now = record {
  publishing = λ stream payload key q. returned (publish stream payload key q);
  consuming = λ stream group consumer room q. returned (consume now stream group consumer room q);
  acking = λ stream group id q. written q (ack stream group id q);
  claiming = λ stream group consumer idle room q. claim_stale now stream group consumer idle room q;
  dead_lettering = λ stream group id q. written q (dead_letter stream group id q);
}
