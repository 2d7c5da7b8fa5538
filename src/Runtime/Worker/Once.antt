-- ===== src/Runtime/Worker/Once.antt =====
-- Deduplication by the worker of core/runtime/worker.py: a handler succeeds once for a key at most.
use general_ai_core.Prelude.{
  ℕ, ◌≡◌, refl, ap, List, [], ◌∷◌, Bool, true, false, Bool-cases, inl, inr, member, string_eq, leb,
  Result, ok, err,
}
use general_ai_core.Prelude.Calls.{Call, continue, Keeps, Keeps-bind}
use general_ai_core.Runtime.Queue.{QueueMessage}
use general_ai_core.Runtime.Queue.Port.{QueuePort}
use general_ai_core.Runtime.Worker.{
  Keys, seen, record_key, in_memory_store, WorkerReport, empty_report, Outcome, succeeded,
  permanent, transient, interrupted, Worker, World, in_queue, in_world, alone_in, alone, give_up,
  settle, process_one, process, run_once, recover_once,
}

-- No key stands twice.
abbrev pub IsDistinct : Keys → Type 0
IsDistinct [] = Unit
IsDistinct (k ∷ ks) = (member k ks ≡ false) × IsDistinct ks

-- The handler with a log of the keys it succeeded for.
module _ {E W : Type 0} where
  abbrev and_log : QueueMessage → Keys → Outcome E × W → Outcome E × (W × Keys)
  and_log m log (succeeded, w) = (succeeded, (w, m.idempotency_key ∷ log))
  and_log m log (permanent, w) = (permanent, (w, log))
  and_log m log (transient, w) = (transient, (w, log))
  and_log m log (interrupted e, w) = (interrupted e, (w, log))

  abbrev pub logged :
      (QueueMessage → W → Outcome E × W) → QueueMessage → W × Keys → Outcome E × (W × Keys)
  logged handler m (w, log) = and_log m log (handler m w)

-- A pass of a worker over its queue, with the port that the worker was given; or a change of the queue by
-- somebody else, such as a producer, another group or the passing of time.
pub data WorkerCall (E Q : Type 0) : Type 0 where
  runs : QueuePort E Q → Worker → ℕ → WorkerCall E Q
  recovers : QueuePort E Q → Worker → ℕ → ℕ → WorkerCall E Q
  elsewhere : (Q → Q) → WorkerCall E Q

abbrev pub State : Type 0 → Type 0 → Type 0
State Q W = World Q Keys (W × Keys)

-- The registry holds the keys that the handler succeeded for, each once.
abbrev pub IsDeduplicated : {Q W : Type 0} → State Q W → Type 0
IsDeduplicated s = (s.store ≡ s.work.1) × IsDistinct s.store

abbrev Any : {A : Type 0} → A → Type 0
Any a = Unit

module _ {E Q W : Type 0} (handler : QueueMessage → W → Outcome E × W) where
  unfoldable pub step : WorkerCall E Q → State Q W → State Q W
  unfolding run_once recover_once
  step (runs port w n) s = (run_once port in_memory_store (alone (logged handler)) w n s).1
  step (recovers port w idle n) s =
      (recover_once port in_memory_store (alone (logged handler)) w idle n s).1
  step (elsewhere f) s = record s { queue = f s.queue }

  unfoldable pub run : List (WorkerCall E Q) → State Q W → State Q W
  run [] s = s
  run (c ∷ cs) s = run cs (step c s)

  -- The queue's calls do not change the registry.
  Keeps-in_queue :
      {A B : Type 0} (s : State Q W) (r : Result E A × Q) (f : A → Call E (State Q W) B)
      → ((a : A) (q : Q) → Keeps IsDeduplicated Any (f a (record s { queue = q })))
      → IsDeduplicated s
      → Keeps IsDeduplicated Any (continue f (in_queue s r))
  Keeps-in_queue s (ok a, q) f next i = next a q
  Keeps-in_queue s (err e, q) f next i = (i, tt)

  module _ (port : QueuePort E Q) (w : Worker) where
    give_up-Keeps :
        (m : QueueMessage) (report : WorkerReport) (s : State Q W)
        → IsDeduplicated s
        → Keeps IsDeduplicated Any
            (give_up port in_memory_store (alone (logged handler)) w m report s)
    give_up-Keeps m report s i =
        Keeps-in_queue s (port.dead_lettering w.stream w.group m.message_id s.queue) _
          (λ a q. (i, tt)) i

    settle-Keeps :
        (m : QueueMessage) (report : WorkerReport) (s : State Q W) (p : Outcome E × W)
        → seen m.idempotency_key s.store ≡ false
        → IsDeduplicated s
        → Keeps IsDeduplicated Any (
            continue
              (settle port in_memory_store (alone (logged handler)) w m report)
              (in_world (alone_in s (and_log m s.work.1 p))))
    unfolding seen record_key in_memory_store
    settle-Keeps m report s (succeeded, x) new i =
        let s' : State Q W = record s {
          store = record_key m.idempotency_key s.store;
          work = (x, m.idempotency_key ∷ s.work.1);
        } in
        let i' : IsDeduplicated s' = (rw new (ap (◌∷◌ m.idempotency_key) i.0), rw new (new, i.1)) in
        Keeps-in_queue s' (port.acking w.stream w.group m.message_id s.queue) _ (λ a q. (i', tt)) i'
    settle-Keeps m report s (permanent, x) new i =
        give_up-Keeps m report (record s { work = (x, s.work.1) }) i
    settle-Keeps m report s (transient, x) new i =
        elim (Bool-cases (leb w.max_deliveries m.delivery_count)) [
          | inl spent ↦ rw spent (give_up-Keeps m report (record s { work = (x, s.work.1) }) i)
          | inr left ↦ rw left (i, tt)
        ]
    settle-Keeps m report s (interrupted e, x) new i = (i, tt)

    process_one-Keeps :
        (m : QueueMessage) (report : WorkerReport) (s : State Q W) (b : Bool)
        → seen m.idempotency_key s.store ≡ b
        → IsDeduplicated s
        → Keeps IsDeduplicated Any
            (process_one port in_memory_store (alone (logged handler)) w m report b s)
    process_one-Keeps m report s true e i =
        Keeps-in_queue s (port.acking w.stream w.group m.message_id s.queue) _ (λ a q. (i, tt)) i
    process_one-Keeps m report s false e i = settle-Keeps m report s (handler m s.work.0) e i

    process-Keeps :
        (ms : List QueueMessage) (report : WorkerReport) (s : State Q W)
        → IsDeduplicated s
        → Keeps IsDeduplicated Any
            (process port in_memory_store (alone (logged handler)) w ms report s)
    unfolding in_memory_store
    process-Keeps [] report s i = (i, tt)
    process-Keeps (m ∷ ms) report s i =
        Keeps-bind IsDeduplicated Any Any
          (process_one port in_memory_store (alone (logged handler)) w m report
            (seen m.idempotency_key s.store))
          (process port in_memory_store (alone (logged handler)) w ms) s
          (process_one-Keeps m report s (seen m.idempotency_key s.store) refl i)
          (λ r t k j. process-Keeps ms r t j)

  step_keeps : (c : WorkerCall E Q) (s : State Q W) → IsDeduplicated s → IsDeduplicated (step c s)
  unfolding step run_once recover_once
  step_keeps (runs port w n) s i =
      (Keeps-in_queue s (port.consuming w.stream w.group w.consumer n s.queue) _
        (λ ms q. process-Keeps port w ms empty_report (record s { queue = q }) i) i).0
  step_keeps (recovers port w idle n) s i =
      (Keeps-in_queue s (port.claiming w.stream w.group w.consumer idle n s.queue) _
        (λ ms q. process-Keeps port w ms empty_report (record s { queue = q }) i) i).0
  step_keeps (elsewhere f) s i = i

  run_keeps :
      (cs : List (WorkerCall E Q)) (s : State Q W) → IsDeduplicated s → IsDeduplicated (run cs s)
  unfolding run
  run_keeps [] s i = i
  run_keeps (c ∷ cs) s i = run_keeps cs (step c s) (step_keeps c s i)

-- Over any history of passes that do not overlap (while a handler runs, nobody else changes the registry or
-- the queue), of any number of workers that share the registry in memory, over any queues, whatever these
-- deliver again or raise and whoever changes them between the passes: the handler succeeds once for an
-- idempotency key at most, and the registry holds exactly the keys that it succeeded for.
pub at_most_once :
    {E Q W : Type 0} (handler : QueueMessage → W → Outcome E × W) (calls : List (WorkerCall E Q))
    (q : Q) (x : W)
    → IsDeduplicated (run handler calls (record { queue = q; store = []; work = (x, []) }))
at_most_once handler calls q x =
    run_keeps handler calls (record { queue = q; store = []; work = (x, []) }) (refl, tt)
