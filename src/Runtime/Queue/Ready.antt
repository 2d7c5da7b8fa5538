-- ===== src/Runtime/Queue/Ready.antt =====
-- Messages that a group can settle in core/runtime/memory.py: `ack` and `dead_letter` return.
use general_ai_core.Prelude.{
  ℕ, ◌≡◌, ◌≢◌, refl, sym, ap, ◌∙◌, subst, arith, String, List, [], ◌∷◌, ◌++◌, true, some, is_some,
  Option-cases, inl, inr, Dict, lookup, insert, erase, contains, lookup-insert, lookup-insert_self,
  lookup-erase, string_eq, nat_eq, pair_eq, beq_ne, false≢true, Result, ok, concat, append_nil,
}
use general_ai_core.Runtime.Queue.{
  Content, QueueMessage, Entries, Pending, Queue, QueueError, publish, ack, by_id, dead_letter,
  with_pending,
}
use general_ai_core.Runtime.Queue.History.{entries_of}
use general_ai_core.Runtime.Queue.Keeping.{entries-publish}

-- The message is not among those.
abbrev pub IsOther : ℕ → List QueueMessage → Type 0
IsOther id [] = Unit
IsOther id (m ∷ ms) = (id ≢ m.message_id) × IsOther id ms

-- The messages are different ones, each pending and with its content in the stream.
abbrev pub IsPending : Pending → Entries → List QueueMessage → Type 0
IsPending p es [] = Unit
IsPending p es (m ∷ ms) =
    (contains m.message_id p ≡ true)
    × (contains m.message_id (by_id es []) ≡ true)
    × IsOther m.message_id ms
    × IsPending p es ms

abbrev pub IsReady : String → String → List QueueMessage → Queue → Type 0
IsReady stream group ms q =
    (p : Pending) × (lookup (stream, group) q.pending ≡ some p)
    × IsPending p (entries_of stream q) ms

pub by_id-contains :
    (id : ℕ) (es : Entries) (d : Dict ℕ Content)
    → contains id d ≡ true
    → contains id (by_id es d) ≡ true
by_id-contains id [] d h = h
by_id-contains id ((j, c) ∷ es) d h =
    by_id-contains id es (insert j c d) (ground (arith, h, lookup-insert j id c d))

by_id-append :
    (es new : Entries) (d : Dict ℕ Content) → by_id (es ++ new) d ≡ by_id new (by_id es d)
by_id-append [] new d = refl
by_id-append ((j, c) ∷ es) new d = by_id-append es new (insert j c d)

-- Settling one message leaves the others as they were, also when the stream grows.
IsPending-erase :
    (id : ℕ) (p : Pending) (es new : Entries) (ms : List QueueMessage)
    → IsOther id ms
    → IsPending p es ms
    → IsPending (erase id p) (es ++ new) ms
IsPending-erase id p es new [] o h = tt
IsPending-erase id p es new (m ∷ ms) o h = (
  rw (lookup-erase id m.message_id p, beq_ne id m.message_id o.0) h.0,
  rw (by_id-append es new []) (by_id-contains m.message_id new (by_id es []) h.1),
  h.2,
  IsPending-erase id p es new ms o.1 h.3,
)

module _ (stream group : String) (m : QueueMessage) (ms : List QueueMessage) where
  -- A call settled the first message, and the others are still ready.
  abbrev pub IsSettled : Result QueueError (Unit {0} × Queue) → Type 0
  IsSettled r = (q' : Queue) × (r ≡ ok (tt, q')) × IsReady stream group ms q'

  pub ack_ready :
      (q : Queue) → IsReady stream group (m ∷ ms) q → IsSettled (ack stream group m.message_id q)
  unfolding ack
  ack_ready q (p, found, h) =
      let q' = with_pending stream group (erase m.message_id p) q in
      (
        q',
        rw found (rw h.0 refl),
        (
          erase m.message_id p,
          lookup-insert_self (stream, group) (erase m.message_id p) q.pending,
          subst (λ es. IsPending (erase m.message_id p) es ms) (append_nil (entries_of stream q))
              (IsPending-erase m.message_id p (entries_of stream q) [] ms h.2 h.3),
        ),
      )

  pub dead_letter_ready :
      (q : Queue)
      → IsReady stream group (m ∷ ms) q
      → IsSettled (dead_letter stream group m.message_id q)
  unfolding dead_letter publish
  dead_letter_ready q (p, found, h) =
      elim (Option-cases (lookup m.message_id (by_id (entries_of stream q) []))) [
        | inl gone ↦ absurd (false≢true (sym (ap is_some gone) ∙ h.1))
        | inr (c, there) ↦
            let (new, longer) =
              entries-publish stream (concat stream ".dlq") c.payload c.idempotency_key q in
            let q1 = (publish (concat stream ".dlq") c.payload c.idempotency_key q).1 in
            let q' = with_pending stream group (erase m.message_id p) q1 in
            (
              q',
              rw found (rw h.0 (rw there refl)),
              (
                erase m.message_id p,
                lookup-insert_self (stream, group) (erase m.message_id p) q.pending,
                subst (λ es. IsPending (erase m.message_id p) es ms) (sym longer)
                    (IsPending-erase m.message_id p (entries_of stream q) new ms h.2 h.3),
              ),
            )
      ]
