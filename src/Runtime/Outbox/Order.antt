-- ===== src/Runtime/Outbox/Order.antt =====
-- Histories of the outbox of core/runtime/outbox.py: what was staged, and what became of it.
use general_ai_core.Prelude.{
  ℕ, zero, suc, ◌+◌, ◌≤◌, ◌≡◌, refl, sym, ap, ◌∙◌, List, [], ◌∷◌, ◌++◌, Dict, insert, values, take,
  drop, nat_eq, beq_ne, arith, String, append_assoc, take-append-drop,
}
use general_ai_core.Runtime.Queue.{Payload}
use general_ai_core.Runtime.Queue.Port.{QueuePort}
use general_ai_core.Runtime.Outbox.{OutboxRecord, Outbox, empty_outbox, append, relay_once}
use general_ai_core.Runtime.Outbox.Relay.{IsFormed, relay_once_lem}

-- A new record at the end, and the passes of a relay over the queue.
pub data OutboxCall : Type 0 where
  appends : String → Payload → String → OutboxCall
  relays : ℕ → OutboxCall

abbrev staged : String → Payload → String → Outbox → OutboxRecord
staged stream payload key o = record {
  record_id = o.seq;
  stream = stream;
  payload = payload;
  idempotency_key = key;
}

module _ {E Q : Type 0} (port : QueuePort E Q) where
  -- The outbox and the queue after a call, with the list of all records that were staged.
  unfoldable pub step :
      OutboxCall → (Outbox × Q) × List OutboxRecord → (Outbox × Q) × List OutboxRecord
  step (appends stream payload key) ((o, q), all) =
      (((append stream payload key o).1, q), all ++ staged stream payload key o ∷ [])
  step (relays n) ((o, q), all) = ((relay_once port n (o, q)).1, all)

  unfoldable pub run :
      List OutboxCall → (Outbox × Q) × List OutboxRecord → (Outbox × Q) × List OutboxRecord
  run [] s = s
  run (c ∷ cs) s = run cs (step c s)

IsFormed-drop :
    (k low high : ℕ) (es : Dict ℕ OutboxRecord)
    → IsFormed low es high
    → (l : ℕ) × IsFormed l (drop k es) high
IsFormed-drop zero low high es f = (low, f)
IsFormed-drop (suc k) low high [] f = (low, f)
IsFormed-drop (suc k) low high ((id, r) ∷ es) f = IsFormed-drop k (id + 1) high es f.2

values-drop : (k : ℕ) (es : Dict ℕ OutboxRecord) → values (drop k es) ≡ drop k (values es)
values-drop zero es = refl
values-drop (suc k) [] = refl
values-drop (suc k) ((id, r) ∷ es) = values-drop k es

within : (low high : ℕ) (es : Dict ℕ OutboxRecord) → IsFormed low es high → low ≤ high
within low high [] f = f
within low high ((id, r) ∷ es) f = omega (arith, f.0, within (id + 1) high es f.2)

-- A record under the next number goes to the end.
insert-end :
    (low high : ℕ) (r : OutboxRecord) (es : Dict ℕ OutboxRecord)
    → IsFormed low es high
    → r.record_id ≡ high
    → IsFormed low (insert high r es) (high + 1) × (values (insert high r es) ≡ values es ++ r ∷ [])
insert-end low high r [] f e = ((f, e, omega arith), refl)
insert-end low high r ((id, x) ∷ es) f e =
    let above = within (id + 1) high es f.2 in
    let rest = insert-end (id + 1) high r es f.2 e in
    rw (beq_ne id high (λ s. absurd (omega (arith, s, above))))
      ((f.0, f.1, rest.0), ap (◌∷◌ x) rest.1)

-- What is dispatched and what is pending are all the staged records, in the order of their staging.
abbrev pub IsComplete : {Q : Type 0} → (Outbox × Q) × List OutboxRecord → Type 0
IsComplete ((o, q), all) =
    ((low : ℕ) × IsFormed low o.pending o.seq) × (o.dispatched ++ values o.pending ≡ all)

step-IsComplete :
    {E Q : Type 0} (port : QueuePort E Q) (c : OutboxCall) (s : (Outbox × Q) × List OutboxRecord)
    → IsComplete s
    → IsComplete (step port c s)
unfolding step append
step-IsComplete port (appends stream payload key) ((o, q), all) ((low, f), e) =
    let r = staged stream payload key o in
    let i = insert-end low o.seq r o.pending f refl in
    (
      (low, i.0),
      ap (◌++◌ o.dispatched) i.1
          ∙ sym (append_assoc o.dispatched (values o.pending) (r ∷ []))
          ∙ ap (λ x. x ++ r ∷ []) e,
    )
step-IsComplete port (relays n) ((o, q), all) ((low, f), e) =
    let (k, mid, b, sq, d, p, s, z) = relay_once_lem port n low o q f in
    let rest = IsFormed-drop k low o.seq o.pending f in
    (
      (rest.0, rw sq (rw p rest.1)),
      rw d (
          rw p (
            append_assoc o.dispatched (take k (values o.pending)) (values (drop k o.pending))
            ∙ ap (λ x. o.dispatched ++ (take k (values o.pending) ++ x)) (values-drop k o.pending)
            ∙ ap (◌++◌ o.dispatched) (take-append-drop k (values o.pending))
            ∙ e)),
    )

-- Over any history of stagings and passes of the relay, with any queue and whatever it raises: the records
-- dispatched and those pending are exactly the records staged, in the order of their staging.
pub nothing_lost :
    {E Q : Type 0} (port : QueuePort E Q) (calls : List OutboxCall) (q : Q)
    → IsComplete (run port calls ((empty_outbox, q), []))
unfolding run
nothing_lost {E = E} {Q = Q} port calls q =
    keeps calls ((empty_outbox, q), []) ((1, omega arith), refl)
  where
    keeps :
        (cs : List OutboxCall) (s : (Outbox × Q) × List OutboxRecord)
        → IsComplete s
        → IsComplete (run port cs s)
    keeps [] s c = c
    keeps (a ∷ cs) s c = keeps cs (step port a s) (step-IsComplete port a s c)
