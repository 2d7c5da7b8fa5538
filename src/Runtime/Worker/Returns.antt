-- ===== src/Runtime/Worker/Returns.antt =====
-- The worker of core/runtime/worker.py over the queue in memory: a pass over new messages returns.
use general_ai_core.Prelude.{
  ℕ, ◌≡◌, refl, inl, inr, arith, List, [], ◌∷◌, ◌++◌, Bool, true, false, Bool-cases, leb, Result,
  ok,
}
use general_ai_core.Prelude.Calls.{continue}
use general_ai_core.Runtime.Queue.{Queue, QueueMessage, QueueError, empty_queue, consume}
use general_ai_core.Runtime.Queue.History.{QueueCall, run}
use general_ai_core.Runtime.Queue.Port.{in_memory}
use general_ai_core.Runtime.Queue.Ready.{IsReady, ack_ready, dead_letter_ready}
use general_ai_core.Runtime.Queue.Ordered.{IsOrdered, run-IsOrdered, consume-IsReady}
use general_ai_core.Runtime.Worker.{
  Keys, in_memory_store, record_key, seen, WorkerReport, empty_report, Outcome, succeeded,
  permanent, transient, interrupted, Worker, World, in_world, alone_in, alone, give_up, settle,
  process_one, process, run_once,
}

-- The handler is not interrupted: it returns, or it raises an `Exception`.
abbrev pub IsContained : {E : Type 0} → Outcome E → Type 0
IsContained (interrupted e) = ⊥
IsContained succeeded = Unit
IsContained permanent = Unit
IsContained transient = Unit

module _ {W : Type 0} (now : ℕ) (handler : QueueMessage → W → Outcome QueueError × W) (w : Worker)
    (contained : (m : QueueMessage) (x : W) → IsContained (handler m x).0) where
  -- A call returned and left the messages ready.
  abbrev IsReturned :
      {A : Type 0} → List QueueMessage → Result QueueError A × World Queue Keys W → Type 0
  IsReturned {A} ms p =
      (a : A) × (s : World Queue Keys W) × (p ≡ (ok a, s)) × IsReady w.stream w.group ms s.queue

  give_up-IsReturned :
      (m : QueueMessage) (ms : List QueueMessage) (report : WorkerReport) (s : World Queue Keys W)
      → IsReady w.stream w.group (m ∷ ms) s.queue
      → IsReturned ms (give_up (in_memory now) in_memory_store (alone handler) w m report s)
  unfolding in_memory
  give_up-IsReturned m ms report s r =
      let (q, e, rest) = dead_letter_ready w.stream w.group m ms s.queue r in
      (
        record report { dead_lettered = report.dead_lettered ++ m.message_id ∷ [] },
        record s { queue = q },
        rw e refl,
        rest,
      )

  settle-IsReturned :
      (m : QueueMessage) (ms : List QueueMessage) (report : WorkerReport) (s : World Queue Keys W)
      (o : Outcome QueueError)
      → IsContained o
      → IsReady w.stream w.group (m ∷ ms) s.queue
      → IsReturned ms (settle (in_memory now) in_memory_store (alone handler) w m report o s)
  unfolding in_memory in_memory_store
  settle-IsReturned m ms report s succeeded c r =
      let (q, e, rest) = ack_ready w.stream w.group m ms s.queue r in
      (
        record report { processed = report.processed ++ m.message_id ∷ [] },
        record s { queue = q; store = record_key m.idempotency_key s.store },
        rw e refl,
        rest,
      )
  settle-IsReturned m ms report s permanent c r = give_up-IsReturned m ms report s r
  settle-IsReturned m ms report s transient c r =
      elim (Bool-cases (leb w.max_deliveries m.delivery_count)) [
        | inl spent ↦ rw spent (give_up-IsReturned m ms report s r)
        | inr left ↦ rw left (
          record report { left_pending = report.left_pending ++ m.message_id ∷ [] },
          s,
          refl,
          (r.0, r.1, r.2.3),
        )
      ]
  settle-IsReturned m ms report s (interrupted x) c r = absurd c

  process_one-IsReturned :
      (m : QueueMessage) (ms : List QueueMessage) (report : WorkerReport) (s : World Queue Keys W)
      (b : Bool)
      → IsReady w.stream w.group (m ∷ ms) s.queue
      → IsReturned ms (process_one (in_memory now) in_memory_store (alone handler) w m report b s)
  unfolding in_memory
  process_one-IsReturned m ms report s true r =
      let (q, e, rest) = ack_ready w.stream w.group m ms s.queue r in
      (
        record report { duplicates = report.duplicates ++ m.message_id ∷ [] },
        record s { queue = q },
        rw e refl,
        rest,
      )
  process_one-IsReturned m ms report s false r = outcome (handler m s.work) (contained m s.work)
    where
      outcome :
          (p : Outcome QueueError × W)
          → IsContained p.0
          → IsReturned ms (
              continue
                (settle (in_memory now) in_memory_store (alone handler) w m report)
                (in_world (alone_in s p)))
      outcome (o, x) c = settle-IsReturned m ms report (record s { work = x }) o c r

  process-IsReturned :
      (ms : List QueueMessage) (report : WorkerReport) (s : World Queue Keys W)
      → IsReady w.stream w.group ms s.queue
      → IsReturned [] (process (in_memory now) in_memory_store (alone handler) w ms report s)
  unfolding in_memory_store
  process-IsReturned [] report s r = (report, s, refl, r)
  process-IsReturned (m ∷ ms) report s r =
      let (report', s', e, rest) =
        process_one-IsReturned m ms report s (seen m.idempotency_key s.store) r in
      rw e (process-IsReturned ms report' s' rest)

-- Whatever calls the queue in memory has served before, a worker's pass over its new messages returns its
-- report, and does not raise: each message that it consumes can be acknowledged or dead-lettered when its
-- turn comes. The handler may return, fail for good or fail for now, but is not interrupted; and while it
-- runs nobody else changes the queue or the registry, as another worker's claim of the message would.
pub run_once_returns :
    {W : Type 0} (calls : List QueueCall) (now : ℕ)
    (handler : QueueMessage → W → Outcome QueueError × W) (w : Worker)
    (contained : (m : QueueMessage) (x : W) → IsContained (handler m x).0) (n : ℕ) (store : Keys)
    (x : W)
    → let s : World Queue Keys W = record {
      queue = (run calls (empty_queue, [])).0;
      store = store;
      work = x;
    } in
      (report : WorkerReport) × (s' : World Queue Keys W) × (run_once
          (in_memory now)
          in_memory_store
          (alone handler)
          w
          n
          s
        ≡ (ok report, s'))
unfolding run_once in_memory
run_once_returns calls now handler w contained n store x =
    let q = (run calls (empty_queue, [])).0 in
    let ordered : IsOrdered q = run-IsOrdered calls (empty_queue, []) (λ s. omega arith) in
    let taken = consume now w.stream w.group w.consumer n q in
    let (report, s', e, r) =
      process-IsReturned now handler w contained taken.0 empty_report
        (record { queue = taken.1; store = store; work = x })
        (consume-IsReady now w.stream w.group w.consumer n q ordered) in
    (report, s', e)
