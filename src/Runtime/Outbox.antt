-- ===== src/Runtime/Outbox.antt =====
-- `InMemoryOutbox` and `OutboxRelay` of core/runtime/outbox.py. The id "outbox-n" of a record is the
-- number n.
pub mod Relay
pub mod Order
mod Examples
use general_ai_core.Prelude.{
  ℕ, ◌+◌, String, List, [], ◌∷◌, ◌++◌, Option, none, some, Dict, lookup, insert, erase, values,
  take, nat_eq, Result, ok, err,
}
use general_ai_core.Prelude.Calls.{Call, pure, ◌>>=◌, ◌>>◌}
use general_ai_core.Runtime.Queue.{Payload}
use general_ai_core.Runtime.Queue.Port.{QueuePort}

pub record OutboxRecord : Type 0 where
  pub record_id : ℕ
  pub stream : String
  pub payload : Payload
  pub idempotency_key : String

-- `_seq`, `_pending` and `_dispatched`
pub record Outbox : Type 0 where
  pub seq : ℕ
  pub pending : Dict ℕ OutboxRecord
  pub dispatched : List OutboxRecord

abbrev pub empty_outbox : Outbox
empty_outbox = record { seq = 1; pending = []; dispatched = [] }

unfoldable pub append : String → Payload → String → Outbox → ℕ × Outbox
append stream payload key o =
    let staged : OutboxRecord = record {
      record_id = o.seq;
      stream = stream;
      payload = payload;
      idempotency_key = key;
    } in
    (o.seq, record o { seq = o.seq + 1; pending = insert o.seq staged o.pending })

unfoldable pub pending : ℕ → Outbox → List OutboxRecord
pending max_records o = take max_records (values o.pending)

-- What a pass of the relay may raise: the queue's exceptions, and `RecordNotPending`.
pub data RelayError (E : Type 0) : Type 0 where
  queue_raised : E → RelayError E
  record_not_pending : ℕ → RelayError E

abbrev pub dispatch :
    {E : Type 0} → ℕ → Outbox → Option OutboxRecord → Result (RelayError E) (Unit {0}) × Outbox
dispatch id o none = (err (record_not_pending id), o)
dispatch id o (some r) =
    (ok tt, record o { pending = erase id o.pending; dispatched = o.dispatched ++ r ∷ [] })

unfoldable pub mark_dispatched : {E : Type 0} → ℕ → Call (RelayError E) Outbox (Unit {0})
mark_dispatched id o = dispatch id o (lookup id o.pending)

-- The calls of the queue and of the outbox, on the pair of their states.
module _ {E Q A : Type 0} where
  abbrev pub with_outbox :
      Q → Result (RelayError E) A × Outbox → Result (RelayError E) A × (Outbox × Q)
  with_outbox q (r, o) = (r, (o, q))

  abbrev pub with_queue : Outbox → Result E A × Q → Result (RelayError E) A × (Outbox × Q)
  with_queue o (ok a, q) = (ok a, (o, q))
  with_queue o (err e, q) = (err (queue_raised e), (o, q))

module _ {E Q : Type 0} (port : QueuePort E Q) where
  abbrev pub publish_record : OutboxRecord → Call (RelayError E) (Outbox × Q) ℕ
  publish_record r (o, q) = with_queue o (port.publishing r.stream r.payload r.idempotency_key q)

  abbrev pub mark_record : OutboxRecord → Call (RelayError E) (Outbox × Q) (Unit {0})
  mark_record r (o, q) = with_outbox q (mark_dispatched r.record_id o)

  -- The rounds of `relay_once`'s loop, with the count of the records relayed so far.
  abbrev pub relay : List OutboxRecord → ℕ → Call (RelayError E) (Outbox × Q) ℕ
  relay [] relayed = pure relayed
  relay (r ∷ rs) relayed = do message_id ← publish_record r; mark_record r; relay rs (relayed + 1)

  unfoldable pub relay_once : ℕ → Call (RelayError E) (Outbox × Q) ℕ
  relay_once max_records (o, q) = relay (pending max_records o) 0 (o, q)
