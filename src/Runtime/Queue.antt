-- ===== src/Runtime/Queue.antt =====
-- `InMemoryQueue` of core/runtime/memory.py: streams with consumer groups, delivered at least once. The
-- id "n-0" of a message is the number n; times are whole milliseconds.
pub mod Port
pub mod History
mod Loops
mod Keeping
pub mod Loss
pub mod Ready
pub mod Ordered
mod Examples
use general_ai_core.Prelude.{
  ◌↔◌, not, nat_beq, ℕ, zero, suc, ◌+◌, ◌-◌, ◌≤◌, ◌<◌, ◌≡◌, ◌≢◌, ◌⊎◌, inl, inr, refl, sym, ap, Bool,
  true, false, ◌&&◌, ◌||◌, Option, none, some, String, List, [], ◌∷◌, ◌++◌, arith, Dict, lookup,
  insert, erase, contains, ◌==◌, nat_eq, string_eq, pair_eq, concat, if◌then◌else◌, is_some, Result,
  ok, err, ◌>>=◌, ◌>>◌, raise_if, or_raise, after, Bool-cases, Option-cases, Result-cases,
  lookup-insert, lookup-insert_self, lookup-insert_ne, lookup-erase, lookup-erase_self, false≢true,
  ◌∙◌, subst, take, drop, keep, member, take-append-drop, length-append, get_or, values, keys, map,
  ◌*◌, ◌/◌, max, beq_self, beq_ne, Eq, length, ltb, leb, All,
}
use general_ai_core.Prelude.Sorted.{sort, nat_order}

abbrev pub Payload : Type 0
Payload = Dict String String

-- What a stream keeps of a message beside its id.
pub record Content : Type 0 where
  pub payload : Payload
  pub idempotency_key : String

-- The tuple `(consumer, delivered_at, delivery_count)`.
pub record Delivery : Type 0 where
  pub consumer : String
  pub delivered_at : ℕ
  pub delivery_count : ℕ

pub record QueueMessage : Type 0 where
  pub message_id : ℕ
  pub stream : String
  pub payload : Payload
  pub idempotency_key : String
  pub delivery_count : ℕ

-- A stream's list of messages in their order, each under its id.
abbrev pub Entries : Type 0
Entries = Dict ℕ Content

abbrev pub Pending : Type 0
Pending = Dict ℕ Delivery

pub record Queue : Type 0 where
  pub seq : ℕ
  pub streams : Dict String Entries
  pub cursors : Dict (String × String) ℕ
  pub pending : Dict (String × String) Pending

abbrev pub empty_queue : Queue
empty_queue = record { seq = 1; streams = []; cursors = []; pending = [] }

pub data QueueError : Type 0 where
  message_not_pending : ℕ → String → String → QueueError
  unknown_stream : String → String → QueueError
  missing_entry : ℕ → QueueError

abbrev pub message : String → ℕ → Content → ℕ → QueueMessage
message stream id c count = record {
  message_id = id;
  stream = stream;
  payload = c.payload;
  idempotency_key = c.idempotency_key;
  delivery_count = count;
}

unfoldable pub publish : String → Payload → String → Queue → ℕ × Queue
publish stream payload key q =
    let entries : Entries = get_or (lookup stream q.streams) [] in
    let content : Content = record { payload = payload; idempotency_key = key } in
    (
      q.seq,
      record q {
        seq = q.seq + 1;
        streams = insert stream (entries ++ (q.seq, content) ∷ []) q.streams;
      },
    )

-- The rounds of `consume`'s loop, over the entries from the cursor on, while there is room.
abbrev pub deliver :
    ℕ → String → String → ℕ → Entries → ℕ → Pending → List QueueMessage × ℕ × Pending
deliver now stream consumer zero entries cursor pending = ([], cursor, pending)
deliver now stream consumer (suc room) [] cursor pending = ([], cursor, pending)
deliver now stream consumer (suc room) ((id, c) ∷ entries) cursor pending =
    let delivery : Delivery = record {
      consumer = consumer;
      delivered_at = now;
      delivery_count = 1;
    } in
    let (out, cursor', pending') =
      deliver now stream consumer room entries (cursor + 1) (insert id delivery pending) in
    (message stream id c 1 ∷ out, cursor', pending')

unfoldable pub consume : ℕ → String → String → String → ℕ → Queue → List QueueMessage × Queue
consume now stream group consumer room q =
    let entries : Entries = get_or (lookup stream q.streams) [] in
    let cursor : ℕ = get_or (lookup (stream, group) q.cursors) 0 in
    let pending : Pending = get_or (lookup (stream, group) q.pending) [] in
    let (out, cursor', pending') =
      deliver now stream consumer room (drop cursor entries) cursor pending in
    (
      out,
      record q {
        streams = insert stream entries q.streams;
        cursors = insert (stream, group) cursor' q.cursors;
        pending = insert (stream, group) pending' q.pending;
      },
    )

-- `_require_group`
abbrev pub require_group : String → String → Queue → Result QueueError Pending
require_group stream group q =
    or_raise (lookup (stream, group) q.pending) (unknown_stream stream group)

abbrev pub require_pending : String → String → ℕ → Pending → Result QueueError (Unit {0})
require_pending stream group id pending =
    raise_if (not (contains id pending)) (message_not_pending id stream group)

abbrev pub with_pending : String → String → Pending → Queue → Queue
with_pending stream group pending q = record q {
  pending = insert (stream, group) pending q.pending;
}

unfoldable pub ack : String → String → ℕ → Queue → Result QueueError (Unit {0} × Queue)
ack stream group id q = do
  pending ← require_group stream group q
  require_pending stream group id pending
  ok (tt, with_pending stream group (erase id pending) q)

-- `{mid: (p, i) for mid, p, i in entries}`
abbrev pub by_id : Entries → Dict ℕ Content → Dict ℕ Content
by_id [] d = d
by_id ((id, c) ∷ entries) d = by_id entries (insert id c d)

-- `(now - delivered_at) * 1000.0 < idle_ms`
abbrev pub is_fresh : ℕ → ℕ → Delivery → Bool
is_fresh now idle d = ltb now (d.delivered_at + idle)

-- A message that was claimed, in front of what the loop's remaining rounds claim.
abbrev pub and_claimed :
    QueueMessage
    → Result QueueError (List QueueMessage) × Pending
    → Result QueueError (List QueueMessage) × Pending
and_claimed m (ok out, pending) = (ok (m ∷ out), pending)
and_claimed m (err e, pending) = (err e, pending)

-- The rounds of `claim_stale`'s loop over the pending ids in order: what a raising round wrote stays.
abbrev pub claim :
    ℕ
    → String
    → String
    → ℕ
    → Dict ℕ Content
    → ℕ
    → List (ℕ × Delivery)
    → Pending
    → Result QueueError (List QueueMessage) × Pending
claim now stream consumer idle contents zero items pending = (ok [], pending)
claim now stream consumer idle contents (suc room) [] pending = (ok [], pending)
claim now stream consumer idle contents (suc room) ((id, d) ∷ items) pending =
    elim (is_fresh now idle d) [
      | true ↦ claim now stream consumer idle contents (suc room) items pending
      | false ↦
          let delivery : Delivery = record {
            consumer = consumer;
            delivered_at = now;
            delivery_count = d.delivery_count + 1;
          } in
          elim (lookup id contents) [
            | none ↦ (err (missing_entry id), insert id delivery pending)
            | some c ↦
                and_claimed (message stream id c (d.delivery_count + 1))
                  (claim now stream consumer idle contents room items (insert id delivery pending))
          ]
    ]

abbrev pub after_claim :
    String
    → String
    → Queue
    → Result QueueError (List QueueMessage) × Pending
    → Result QueueError (List QueueMessage) × Queue
after_claim stream group q (r, pending) = (r, with_pending stream group pending q)

abbrev pub claim_group :
    ℕ
    → String
    → String
    → String
    → ℕ
    → ℕ
    → Queue
    → Result QueueError Pending
    → Result QueueError (List QueueMessage) × Queue
claim_group now stream group consumer idle room q (err e) = (err e, q)
claim_group now stream group consumer idle room q (ok pending) = after_claim stream group q (
    claim now stream consumer idle (by_id (get_or (lookup stream q.streams) []) []) room
      (sort pending) pending)

unfoldable pub claim_stale :
    ℕ → String → String → String → ℕ → ℕ → Queue → Result QueueError (List QueueMessage) × Queue
claim_stale now stream group consumer idle room q =
    claim_group now stream group consumer idle room q (require_group stream group q)

unfoldable pub dead_letter : String → String → ℕ → Queue → Result QueueError (Unit {0} × Queue)
unfolding publish
dead_letter stream group id q = do
  pending ← require_group stream group q
  require_pending stream group id pending
  content ← or_raise (lookup id (by_id (get_or (lookup stream q.streams) []) [])) (missing_entry id)
  let q' = (publish (concat stream ".dlq") content.payload content.idempotency_key q).1
  ok (tt, with_pending stream group (erase id pending) q')
