-- ===== src/Runtime/Queue/Loops.antt =====
-- The loops of `consume` and of `claim_stale`.
use general_ai_core.Prelude.{
  ℕ, zero, suc, ◌+◌, ◌≤◌, ◌≡◌, inl, inr, true, String, List, [], ◌∷◌, arith, Dict, lookup, insert,
  contains, nat_eq, string_eq, pair_eq, Result, ok, err, Bool-cases, Option-cases, lookup-insert,
  lookup-insert_self, take, length, All,
}
use general_ai_core.Prelude.Sorted.{nat_order}
use general_ai_core.Runtime.Queue.{
  Content, Delivery, QueueMessage, Entries, Pending, QueueError, message, deliver, is_fresh,
  and_claimed, claim,
}

-- What the loop of `consume` has done: the cursor moved over the messages that it returned, each is
-- pending, and what was pending still is.
module _ (now : ℕ) (stream consumer : String) where
  pub deliver_cursor :
      (room : ℕ) (es : Entries) (cursor : ℕ) (pending : Pending)
      → let r = deliver now stream consumer room es cursor pending in
        (r.1 ≡ cursor + length r.0) × (length r.0 ≤ length es)
  deliver_cursor zero es cursor pending = (omega arith, omega arith)
  deliver_cursor (suc room) [] cursor pending = (omega arith, omega arith)
  deliver_cursor (suc room) ((id, c) ∷ es) cursor pending =
      let d : Delivery = record { consumer = consumer; delivered_at = now; delivery_count = 1 } in
      let h = deliver_cursor room es (cursor + 1) (insert id d pending) in
      (omega (arith, h), omega (arith, h))

  pub deliver_keeps :
      (room : ℕ) (es : Entries) (cursor : ℕ) (pending : Pending) (id : ℕ)
      → contains id pending ≡ true
      → contains id (deliver now stream consumer room es cursor pending).2 ≡ true
  deliver_keeps zero es cursor pending id h = h
  deliver_keeps (suc room) [] cursor pending id h = h
  deliver_keeps (suc room) ((j, c) ∷ es) cursor pending id h =
      let d : Delivery = record { consumer = consumer; delivered_at = now; delivery_count = 1 } in
      deliver_keeps room es (cursor + 1) (insert j d pending) id
        (ground (arith, h, lookup-insert j id d pending))

  pub deliver_pending :
      (room : ℕ) (es : Entries) (cursor : ℕ) (pending : Pending)
      → let r = deliver now stream consumer room es cursor pending in
        All (λ e. contains e.0 r.2 ≡ true) (take (length r.0) es)
  deliver_pending zero es cursor pending = tt
  deliver_pending (suc room) [] cursor pending = tt
  deliver_pending (suc room) ((id, c) ∷ es) cursor pending =
      let d : Delivery = record { consumer = consumer; delivered_at = now; delivery_count = 1 } in
      (
        deliver_keeps room es (cursor + 1) (insert id d pending) id
            (ground (arith, lookup-insert_self id d pending)),
        deliver_pending room es (cursor + 1) (insert id d pending),
      )

  pub claim_keeps :
      (idle : ℕ) (contents : Dict ℕ Content) (room : ℕ) (items : List (ℕ × Delivery))
      (pending : Pending) (id : ℕ)
      → contains id pending ≡ true
      → contains id (claim now stream consumer idle contents room items pending).1 ≡ true
  claim_keeps idle contents zero items pending id h = h
  claim_keeps idle contents (suc room) [] pending id h = h
  claim_keeps idle contents (suc room) ((j, d) ∷ items) pending id h =
      let d' : Delivery = record {
        consumer = consumer;
        delivered_at = now;
        delivery_count = d.delivery_count + 1;
      } in
      let h' : contains id (insert j d' pending) ≡ true =
        ground (arith, h, lookup-insert j id d' pending) in
      elim (Bool-cases (is_fresh now idle d)) [
        | inl fresh ↦ rw (claim, fresh) (claim_keeps idle contents (suc room) items pending id h)
        | inr stale ↦ elim (Option-cases (lookup j contents)) [
          | inl absent ↦ rw (claim, stale, absent) h'
          | inr (c, found) ↦
              rw (claim, stale, found)
                (and_claimed_keeps (message stream j c (d.delivery_count + 1))
                  (claim now stream consumer idle contents room items (insert j d' pending)) id
                  (claim_keeps idle contents room items (insert j d' pending) id h'))
        ]
      ]
    where
      and_claimed_keeps :
          (m : QueueMessage) (r : Result QueueError (List QueueMessage) × Pending) (id : ℕ)
          → contains id r.1 ≡ true
          → contains id (and_claimed m r).1 ≡ true
      and_claimed_keeps m (ok out, p) id h = h
      and_claimed_keeps m (err e, p) id h = h
