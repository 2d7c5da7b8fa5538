-- ===== src/Runtime/Queue/Ordered.antt =====
-- The order of a stream in core/runtime/memory.py: each message stands once, and those that a group
-- consumes can be settled.
use general_ai_core.Prelude.{
  ℕ, zero, suc, ◌+◌, ◌≤◌, ◌≡◌, refl, sym, subst, arith, String, List, [], ◌∷◌, ◌++◌, true,
  Option-cases, Bool-cases, inl, inr, Dict, lookup, insert, contains, lookup-insert_self, drop, All,
  string_eq, nat_eq, pair_eq, ◌==◌, concat,
}
use general_ai_core.Runtime.Queue.{
  Payload, Content, Delivery, QueueMessage, Entries, Pending, Queue, publish, deliver, consume, ack,
  by_id, claim_stale, dead_letter,
}
use general_ai_core.Runtime.Queue.History.{
  QueueCall, publishes, consumes, acks, claims, dead_letters, Settled, step, run, entries_of,
  cursor_of, pending_of,
}
use general_ai_core.Runtime.Queue.Keeping.{get_or-insert}
use general_ai_core.Runtime.Queue.Loops.{deliver_keeps}
use general_ai_core.Runtime.Queue.Loss.{entries-consume}
use general_ai_core.Runtime.Queue.Ready.{IsOther, IsPending, IsReady, by_id-contains}

-- The ids ascend from `low` and are below `high`.
abbrev pub IsAscending : ℕ → Entries → ℕ → Type 0
IsAscending low [] high = low ≤ high
IsAscending low ((id, c) ∷ es) high = (low ≤ id) × IsAscending (id + 1) es high

IsAscending-end :
    (low high : ℕ) (c : Content) (es : Entries)
    → IsAscending low es high
    → IsAscending low (es ++ (high, c) ∷ []) (high + 1)
IsAscending-end low high c [] h = (h, omega arith)
IsAscending-end low high c ((id, x) ∷ es) h = (h.0, IsAscending-end (id + 1) high c es h.1)

IsAscending-suc :
    (low high : ℕ) (es : Entries) → IsAscending low es high → IsAscending low es (high + 1)
IsAscending-suc low high [] h = omega (arith, h)
IsAscending-suc low high ((id, x) ∷ es) h = (h.0, IsAscending-suc (id + 1) high es h.1)

IsAscending-lower :
    (low low' high : ℕ) (es : Entries)
    → low' ≤ low
    → IsAscending low es high
    → IsAscending low' es high
IsAscending-lower low low' high [] le h = omega (arith, h, le)
IsAscending-lower low low' high ((id, x) ∷ es) le h = (omega (arith, le, h.0), h.1)

IsAscending-drop :
    (n low high : ℕ) (es : Entries) → IsAscending low es high → IsAscending low (drop n es) high
IsAscending-drop zero low high es h = h
IsAscending-drop (suc n) low high [] h = h
IsAscending-drop (suc n) low high ((id, c) ∷ es) h =
    IsAscending-lower (id + 1) low high (drop n es) (omega (arith, h.0))
      (IsAscending-drop n (id + 1) high es h.1)

-- Every stream's messages stand in the order of their numbers, below the next number.
abbrev pub IsOrdered : Queue → Type 0
IsOrdered q = (s : String) → IsAscending 0 (entries_of s q) q.seq

publish-IsOrdered :
    (stream : String) (payload : Payload) (key : String) (q : Queue)
    → IsOrdered q
    → IsOrdered (publish stream payload key q).1
unfolding publish
publish-IsOrdered stream payload key q h s =
    let c : Content = record { payload = payload; idempotency_key = key } in
    let e = get_or-insert stream s (entries_of stream q ++ (q.seq, c) ∷ []) [] q.streams in
    elim (Bool-cases (stream == s)) [
      | inl own ↦ rw e (rw own (IsAscending-end 0 q.seq c (entries_of stream q) (h stream)))
      | inr other ↦ rw e (rw other (IsAscending-suc 0 q.seq (entries_of s q) (h s)))
    ]

step-IsOrdered : (c : QueueCall) (s : Queue × Settled) → IsOrdered s.0 → IsOrdered (step c s).0
unfolding step consume ack claim_stale dead_letter
step-IsOrdered (publishes stream payload key) (q, done) h = publish-IsOrdered stream payload key q h
step-IsOrdered (consumes now stream group consumer room) (q, done) h = λ s.
    subst (λ es. IsAscending 0 es q.seq) (sym (entries-consume now stream group consumer room q s))
      (h s)
step-IsOrdered (acks stream group id) (q, done) h =
    elim (Option-cases (lookup (stream, group) q.pending)) [
      | inl absent ↦ rw absent h
      | inr (p, found) ↦
          rw found
            (elim (Bool-cases (contains id p)) [ inl held ↦ rw held h | inr free ↦ rw free h ])
    ]
step-IsOrdered (claims now stream group consumer idle room) (q, done) h =
    elim (Option-cases (lookup (stream, group) q.pending)) [
      | inl absent ↦ rw absent h
      | inr (p, found) ↦ rw found h
    ]
step-IsOrdered (dead_letters stream group id) (q, done) h =
    elim (Option-cases (lookup (stream, group) q.pending)) [
      | inl absent ↦ rw absent h
      | inr (p, found) ↦ rw found (elim (Bool-cases (contains id p)) [
        | inl held ↦ rw held (elim (Option-cases (lookup id (by_id (entries_of stream q) []))) [
          | inl gone ↦ rw gone h
          | inr (c, there) ↦
              rw there (publish-IsOrdered (concat stream ".dlq") c.payload c.idempotency_key q h)
        ])
        | inr free ↦ rw free h
      ])
    ]

-- Over any history of calls.
pub run-IsOrdered :
    (cs : List QueueCall) (s : Queue × Settled) → IsOrdered s.0 → IsOrdered (run cs s).0
unfolding run
run-IsOrdered [] s h = h
run-IsOrdered (c ∷ cs) s h = run-IsOrdered cs (step c s) (step-IsOrdered c s h)

-- The entries' ids are keys of `by_id`.
abbrev HasContents : Entries → Entries → Type 0
HasContents all es = All (λ e. contains e.0 (by_id all []) ≡ true) es

has_contents : (es : Entries) (d : Dict ℕ Content) → All (λ e. contains e.0 (by_id es d) ≡ true) es
has_contents [] d = tt
has_contents ((id, c) ∷ es) d = (
  by_id-contains id es (insert id c d) (rw (lookup-insert_self id c d) refl),
  has_contents es (insert id c d),
)

HasContents-drop : (n : ℕ) (all es : Entries) → HasContents all es → HasContents all (drop n es)
HasContents-drop zero all es h = h
HasContents-drop (suc n) all [] h = h
HasContents-drop (suc n) all (e ∷ es) h = HasContents-drop n all es h.1

abbrev AreFrom : ℕ → List QueueMessage → Type 0
AreFrom low [] = Unit
AreFrom low (m ∷ ms) = (low ≤ m.message_id) × AreFrom low ms

AreFrom-IsOther : (id : ℕ) (ms : List QueueMessage) → AreFrom (id + 1) ms → IsOther id ms
AreFrom-IsOther id [] h = tt
AreFrom-IsOther id (m ∷ ms) h = ((λ e. absurd (omega (arith, e, h.0))), AreFrom-IsOther id ms h.1)

from_lower : (low low' : ℕ) (ms : List QueueMessage) → low' ≤ low → AreFrom low ms → AreFrom low' ms
from_lower low low' [] le h = tt
from_lower low low' (m ∷ ms) le h = (omega (arith, le, h.0), from_lower low low' ms le h.1)

module _ (now : ℕ) (stream consumer : String) (all : Entries) (high : ℕ) where
  -- What `consume` returns of ascending entries can be settled.
  deliver_ready :
      (room low : ℕ) (es : Entries) (cursor : ℕ) (pending : Pending)
      → IsAscending low es high
      → HasContents all es
      → let r = deliver now stream consumer room es cursor pending in
        IsPending r.2 all r.0 × AreFrom low r.0
  deliver_ready zero low es cursor pending h k = (tt, tt)
  deliver_ready (suc room) low [] cursor pending h k = (tt, tt)
  deliver_ready (suc room) low ((id, c) ∷ es) cursor pending h k =
      let d : Delivery = record { consumer = consumer; delivered_at = now; delivery_count = 1 } in
      let r = deliver now stream consumer room es (cursor + 1) (insert id d pending) in
      let (rest, above) =
        deliver_ready room (id + 1) es (cursor + 1) (insert id d pending) h.1 k.1 in
      let held =
        deliver_keeps now stream consumer room es (cursor + 1) (insert id d pending) id
          (rw (lookup-insert_self id d pending) refl) in
      (
        (held, k.0, AreFrom-IsOther id r.0 above, rest),
        (h.0, from_lower (id + 1) low r.0 (omega (arith, h.0)) above),
      )

-- The messages of a consumption can be settled.
pub consume-IsReady :
    (now : ℕ) (stream group consumer : String) (room : ℕ) (q : Queue)
    → IsOrdered q
    → IsReady stream group
        (consume now stream group consumer room q).0
        (consume now stream group consumer room q).1
unfolding consume
consume-IsReady now stream group consumer room q h =
    let all = entries_of stream q in
    let cursor = cursor_of stream group q in
    let pending = pending_of stream group q in
    let r = deliver now stream consumer room (drop cursor all) cursor pending in
    let ready =
      deliver_ready now stream consumer all q.seq room 0 (drop cursor all) cursor pending
        (IsAscending-drop cursor 0 q.seq all (h stream))
        (HasContents-drop cursor all all (has_contents all [])) in
    (
      r.2,
      lookup-insert_self (stream, group) r.2 q.pending,
      subst (λ es. IsPending r.2 es r.0)
          (sym (entries-consume now stream group consumer room q stream)) ready.0,
    )
