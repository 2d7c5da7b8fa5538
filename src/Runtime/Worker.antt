-- ===== src/Runtime/Worker.antt =====
-- The worker of core/runtime/worker.py: it consumes, deduplicates, processes and settles messages.
pub mod Once
pub mod Returns
mod Examples
use general_ai_core.Prelude.{
  ℕ, ◌+◌, String, List, [], ◌∷◌, ◌++◌, Bool, true, false, if◌then◌else◌, member, string_eq, leb,
  ltb, Result, ok, err, raise_if,
}
use general_ai_core.Prelude.Calls.{Call, pure, lift, ◌>>=◌, ◌>>◌}
use general_ai_core.Runtime.Queue.{QueueMessage}
use general_ai_core.Runtime.Queue.Port.{QueuePort}

-- `IdempotencyPort`: a registry of processed keys, with states `K`.
pub record IdempotencyPort (E K : Type 0) : Type 0 where
  pub seeing : String → Call E K Bool
  pub recording : String → Call E K (Unit {0})

-- `InMemoryIdempotencyStore`: the set of its keys.
abbrev pub Keys : Type 0
Keys = List String

unfoldable pub seen : String → Keys → Bool
seen key keys = member key keys

unfoldable pub record_key : String → Keys → Keys
record_key key keys = if member key keys then keys else key ∷ keys

unfoldable pub in_memory_store : {E : Type 0} → IdempotencyPort E Keys
in_memory_store = record {
  seeing = λ key keys. (ok (seen key keys), keys);
  recording = λ key keys. (ok tt, record_key key keys);
}

pub record WorkerReport : Type 0 where
  pub processed : List ℕ
  pub duplicates : List ℕ
  pub left_pending : List ℕ
  pub dead_lettered : List ℕ

abbrev pub empty_report : WorkerReport
empty_report = record { processed = []; duplicates = []; left_pending = []; dead_lettered = [] }

-- How a handler ends: it returns, it raises `PermanentTaskError`, it raises another `Exception`, or it is
-- interrupted by an exception that is none, such as a cancellation.
pub data Outcome (E : Type 0) : Type 0 where
  succeeded : Outcome E
  permanent : Outcome E
  transient : Outcome E
  interrupted : E → Outcome E

pub record Worker : Type 0 where
  pub stream : String
  pub group : String
  pub consumer : String
  pub max_deliveries : ℕ

pub data WorkerError : Type 0 where
  max_deliveries_too_low : WorkerError

unfoldable pub init : String → String → String → ℕ → Result WorkerError Worker
init stream group consumer max_deliveries =
    if ltb max_deliveries 1
    then err max_deliveries_too_low
    else ok (record {
      stream = stream;
      group = group;
      consumer = consumer;
      max_deliveries = max_deliveries;
    })

-- The states of the queue, of the registry and of what the handler works on.
pub record World (Q K W : Type 0) : Type 0 where
  pub queue : Q
  pub store : K
  pub work : W

module _ {E Q K W : Type 0} where
  abbrev pub in_queue : {A : Type 0} → World Q K W → Result E A × Q → Result E A × World Q K W
  in_queue s (r, q) = (r, record s { queue = q })

  abbrev pub in_store : {A : Type 0} → World Q K W → Result E A × K → Result E A × World Q K W
  in_store s (r, k) = (r, record s { store = k })

  abbrev pub in_world : Outcome E × World Q K W → Result E (Outcome E) × World Q K W
  in_world (o, s) = (ok o, s)

  abbrev pub alone_in : World Q K W → Outcome E × W → Outcome E × World Q K W
  alone_in s (o, x) = (o, record s { work = x })

  -- A handler while which nobody else changes the queue or the registry.
  abbrev pub alone :
      (QueueMessage → W → Outcome E × W) → QueueMessage → World Q K W → Outcome E × World Q K W
  alone handler m s = alone_in s (handler m s.work)

  abbrev pub on_queue : {A : Type 0} → Call E Q A → Call E (World Q K W) A
  on_queue c s = in_queue s (c s.queue)

  abbrev pub on_store : {A : Type 0} → Call E K A → Call E (World Q K W) A
  on_store c s = in_store s (c s.store)

-- The handler is awaited, and meanwhile other tasks may call the queue and the registry: it is any change
-- of the three states.
module _ {E Q K W : Type 0} (port : QueuePort E Q) (store : IdempotencyPort E K)
    (handler : QueueMessage → World Q K W → Outcome E × World Q K W) (w : Worker) where
  abbrev pub Pass : Type 0 → Type 0
  Pass A = Call E (World Q K W) A

  abbrev pub handled : QueueMessage → Pass (Outcome E)
  handled m s = in_world (handler m s)

  -- The `try` statement's clauses.
  abbrev pub give_up : QueueMessage → WorkerReport → Pass WorkerReport
  give_up m report = do
    on_queue (port.dead_lettering w.stream w.group m.message_id)
    pure (record report { dead_lettered = report.dead_lettered ++ m.message_id ∷ [] })

  abbrev pub settle : QueueMessage → WorkerReport → Outcome E → Pass WorkerReport
  settle m report succeeded = do
    on_store (store.recording m.idempotency_key)
    on_queue (port.acking w.stream w.group m.message_id)
    pure (record report { processed = report.processed ++ m.message_id ∷ [] })
  settle m report permanent = give_up m report
  settle m report transient =
      if leb w.max_deliveries m.delivery_count
      then give_up m report
      else pure (record report { left_pending = report.left_pending ++ m.message_id ∷ [] })
  settle m report (interrupted e) = lift (err e)

  -- One message: a duplicate is acknowledged without the handler.
  abbrev pub process_one : QueueMessage → WorkerReport → Bool → Pass WorkerReport
  process_one m report true = do
    on_queue (port.acking w.stream w.group m.message_id)
    pure (record report { duplicates = report.duplicates ++ m.message_id ∷ [] })
  process_one m report false = do outcome ← handled m; settle m report outcome

  -- `_process`
  abbrev pub process : List QueueMessage → WorkerReport → Pass WorkerReport
  process [] report = pure report
  process (m ∷ ms) report = do
    duplicate ← on_store (store.seeing m.idempotency_key)
    report' ← process_one m report duplicate
    process ms report'

  unfoldable pub run_once : ℕ → Pass WorkerReport
  run_once max_messages = do
    messages ← on_queue (port.consuming w.stream w.group w.consumer max_messages)
    process messages empty_report

  unfoldable pub recover_once : ℕ → ℕ → Pass WorkerReport
  recover_once idle_ms max_messages = do
    messages ← on_queue (port.claiming w.stream w.group w.consumer idle_ms max_messages)
    process messages empty_report
