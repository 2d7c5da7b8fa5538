-- ===== src/Runtime/Outbox/Relay.antt =====
-- What a pass of `OutboxRelay` of core/runtime/outbox.py relays, over any queue.
use general_ai_core.Prelude.{
  ℕ, zero, suc, ◌+◌, ◌≤◌, ◌≡◌, refl, sym, ap, ◌∙◌, List, [], ◌∷◌, ◌++◌, Dict, erase, values, take,
  drop, nat_eq, beq_self, nat_beq, true, arith, Result, ok, err, append_nil, append_assoc, subst,
}
use general_ai_core.Prelude.Calls.{continue, ◌>>◌}
use general_ai_core.Runtime.Queue.Port.{QueuePort}
use general_ai_core.Runtime.Outbox.{
  OutboxRecord, Outbox, pending, RelayError, queue_raised, mark_dispatched, with_queue, mark_record,
  relay, relay_once,
}

-- The pending records stand under their own ids, which ascend from `low` and are below `high`.
abbrev pub IsFormed : ℕ → Dict ℕ OutboxRecord → ℕ → Type 0
IsFormed low [] high = low ≤ high
IsFormed low ((id, r) ∷ es) high = (low ≤ id) × (r.record_id ≡ id) × IsFormed (id + 1) es high

erase-above :
    (k low high : ℕ) (es : Dict ℕ OutboxRecord)
    → suc k ≤ low
    → IsFormed low es high
    → erase k es ≡ es
erase-above k low high [] h f = refl
erase-above k low high ((id, r) ∷ es) h f =
    ground (arith, erase-above k (id + 1) high es (omega (arith, h, f.0)) f.2, f.0, h)

mark_head :
    {E : Type 0} (low seq id : ℕ) (r : OutboxRecord) (es : Dict ℕ OutboxRecord)
    (before : List OutboxRecord)
    → IsFormed low ((id, r) ∷ es) seq
    → mark_dispatched {E = E} r.record_id
        (record { seq = seq; pending = (id, r) ∷ es; dispatched = before })
      ≡ (ok tt, record { seq = seq; pending = es; dispatched = before ++ r ∷ [] })
unfolding mark_dispatched
mark_head {E = E} low seq id r es before f =
    let same : nat_beq id id ≡ true = beq_self id in
    let gone : erase id ((id, r) ∷ es) ≡ es =
      rw same (erase-above id (id + 1) seq es (omega arith) f.2) in
    let staged : Outbox = record { seq = seq; pending = (id, r) ∷ es; dispatched = before } in
    let settled : Dict ℕ OutboxRecord → Outbox =
      λ p. record { seq = seq; pending = p; dispatched = before ++ r ∷ [] } in
    subst (λ k. mark_dispatched {E = E} k staged ≡ (ok tt, settled es)) (sym f.1)
      (rw same (ap (λ p. (ok tt, settled p)) gone))

module _ {E Q : Type 0} (port : QueuePort E Q) where
  -- The records were published one after the other, and each publication returned.
  abbrev pub Published : List OutboxRecord → Q → Q → Type 0
  Published [] q q' = q ≡ q'
  Published (r ∷ rs) q q' =
      (id : ℕ) × (mid : Q) × (port.publishing r.stream r.payload r.idempotency_key q ≡ (ok id, mid))
      × Published rs mid q'

  -- The pass ended because there was no further record, or because a publication raised.
  abbrev pub Ended : List OutboxRecord → ℕ → Q → Result (RelayError E) ℕ → Q → Type 0
  Ended [] count q result q' = (result ≡ ok count) × (q ≡ q')
  Ended (r ∷ rs) count q result q' =
      (e : E) × (result ≡ err (queue_raised e))
      × (port.publishing r.stream r.payload r.idempotency_key q ≡ (err e, q'))

  -- A pass over `n` records of the dict `es` at most, with `before` dispatched and `count` relayed.
  abbrev pub IsRelayed :
      ℕ
      → ℕ
      → Dict ℕ OutboxRecord
      → List OutboxRecord
      → ℕ
      → Q
      → Result (RelayError E) ℕ × (Outbox × Q)
      → Type 0
  IsRelayed n seq es before count q (result, (o, q')) =
      (k : ℕ) × (mid : Q) × (k ≤ n)
      × (o.seq ≡ seq)
      × (o.dispatched ≡ before ++ take k (values es))
      × (o.pending ≡ drop k es)
      × Published (take k (values es)) q mid
      × Ended (drop k (take n (values es))) (count + k) mid result q'

  -- A record that was published and dispatched, in front of what the further rounds do.
  IsRelayed-published :
      (r : OutboxRecord) (n seq id : ℕ) (es : Dict ℕ OutboxRecord) (before : List OutboxRecord)
      (count m : ℕ) (q q1 : Q) (res : Result (RelayError E) ℕ × (Outbox × Q))
      → port.publishing r.stream r.payload r.idempotency_key q ≡ (ok m, q1)
      → IsRelayed n seq es (before ++ r ∷ []) (count + 1) q1 res
      → IsRelayed (suc n) seq ((id, r) ∷ es) before count q res
  IsRelayed-published r n seq id es before count m q q1 (result, (o, q')) e
        (k, mid, b, sq, d, p, s, z) =
      (
        suc k,
        mid,
        omega (arith, b),
        sq,
        d ∙ append_assoc before (r ∷ []) (take k (values es)),
        p,
        (m, q1, e, s),
        subst (λ i. Ended (drop k (take n (values es))) i mid result q') (omega arith) z,
      )

  -- A pass over the oldest records, by induction on their number.
  relayed :
      (n seq low count : ℕ) (es : Dict ℕ OutboxRecord) (before : List OutboxRecord) (q : Q)
      → IsFormed low es seq
      → IsRelayed n seq es before count q (
          relay port
            (take n (values es))
            count
            (record { seq = seq; pending = es; dispatched = before }, q))
  relayed zero seq low count es before q f =
      (0, q, omega arith, refl, sym (append_nil before), refl, refl, (ap ok (omega arith), refl))
  relayed (suc n) seq low count [] before q f =
      (0, q, omega arith, refl, sym (append_nil before), refl, refl, (ap ok (omega arith), refl))
  relayed (suc n) seq low count ((id, r) ∷ es) before q f =
      after_publish (port.publishing r.stream r.payload r.idempotency_key q) refl
        (λ q1. relayed n seq (id + 1) (count + 1) es (before ++ r ∷ []) q1 f.2)
    where
      staged : Outbox
      staged = record { seq = seq; pending = (id, r) ∷ es; dispatched = before }

      rs : List OutboxRecord
      rs = take n (values es)

      after_publish :
          (p : Result E ℕ × Q)
          → port.publishing r.stream r.payload r.idempotency_key q ≡ p
          → ((q1 : Q)
              → IsRelayed n seq es (before ++ r ∷ []) (count + 1) q1 (
                  relay port rs
                    (count + 1)
                    (record { seq = seq; pending = es; dispatched = before ++ r ∷ [] }, q1)))
          → IsRelayed (suc n) seq ((id, r) ∷ es) before count q (
              continue (λ m. mark_record port r >> relay port rs (count + 1)) (with_queue staged p))
      after_publish (ok m, q1) e next =
          IsRelayed-published r n seq id es before count m q q1
            (continue (λ m. mark_record port r >> relay port rs (count + 1)) (ok m, (staged, q1))) e
            (rw (mark_head low seq id r es before f) (next q1))
      after_publish (err x, q1) e next =
          (0, q, omega arith, refl, sym (append_nil before), refl, refl, (x, refl, e))

-- One pass over any queue, whether it returns or raises: the records that it dispatched are the oldest
-- ones, in their order; each of them was published before it was dispatched, one after the other; the
-- others are still pending. It ends when `max_records` are relayed or none is left, with the count, or when
-- the publication of the next record raises, and that record is still pending: none is lost.
pub relay_once_lem :
    {E Q : Type 0} (port : QueuePort E Q) (n low : ℕ) (o : Outbox) (q : Q)
    → IsFormed low o.pending o.seq
    → IsRelayed port n o.seq o.pending o.dispatched 0 q (relay_once port n (o, q))
unfolding relay_once pending
relay_once_lem port n low o q f = relayed port n o.seq low 0 o.pending o.dispatched q f
