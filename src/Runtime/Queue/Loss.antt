-- ===== src/Runtime/Queue/Loss.antt =====
-- At-least-once delivery of core/runtime/memory.py: no message of a stream is lost to a group.
use general_ai_core.Prelude.{
  ℕ, ◌+◌, ◌≡◌, inl, inr, refl, sym, ap, true, String, List, [], ◌∷◌, arith, ◌==◌, nat_eq, string_eq,
  pair_eq, Bool-cases, ◌∙◌, subst, take, drop, beq_self, length, All, All-map, All-append, take_add,
  length-drop, append_nil,
}
use general_ai_core.Prelude.Sorted.{nat_order}
use general_ai_core.Runtime.Queue.{QueueMessage, Pending, Queue, empty_queue, deliver, consume}
use general_ai_core.Runtime.Queue.History.{
  group_message_eq, QueueCall, Settled, step, run, entries_of, cursor_of, pending_of, is_kept,
  IsKept, IsLossless, publishes, consumes, acks, claims, dead_letters,
}
use general_ai_core.Runtime.Queue.Loops.{deliver_cursor, deliver_keeps, deliver_pending}
use general_ai_core.Runtime.Queue.Keeping.{
  get_or-insert, IsLossless-after, kept-with_pending, publish-IsLossless, ack-IsLossless,
  dead_letter-IsLossless, claim-IsLossless,
}

module _ (now : ℕ) (stream group consumer : String) (room : ℕ) (q : Queue) where
  abbrev pub delivered : List QueueMessage × ℕ × Pending
  delivered =
      deliver now stream consumer room (drop (cursor_of stream group q) (entries_of stream q))
        (cursor_of stream group q) (pending_of stream group q)

  abbrev pub consumed : Queue
  consumed = (consume now stream group consumer room q).1

  -- A stream after a consumption, which creates it when it was not there.
  pub entries-consume : (s : String) → entries_of s consumed ≡ entries_of s q
  unfolding consume
  entries-consume s =
      let e = get_or-insert stream s (entries_of stream q) [] q.streams in
      elim (Bool-cases (stream == s)) [
        | inl own ↦ e ∙ rw own (ap (λ x. entries_of x q) ((string_eq.beq_iff stream s).0 own))
        | inr other ↦ e ∙ rw other refl
      ]

  kept-consume :
      (s g : String) (done : Settled) (id : ℕ)
      → is_kept s g (q, done) id ≡ true
      → is_kept s g (consumed, done) id ≡ true
  unfolding consume
  kept-consume s g done id =
      let from = drop (cursor_of stream group q) (entries_of stream q) in
      kept-with_pending s g stream group delivered.2 q done done id
        (λ h.
          rw
            (deliver_keeps now stream consumer room from (cursor_of stream group q)
              (pending_of stream group q) id h)
            refl)
        (λ k h. h)

  -- The group's cursor moves over the messages that it returns.
  consume_own :
      (done : Settled)
      → IsLossless stream group (q, done)
      → IsLossless stream group (consumed, done)
  unfolding consume
  consume_own done l =
      let own_key : String × String = (stream, group) in
      let cursor = cursor_of stream group q in
      let all = entries_of stream q in
      let count = length delivered.0 in
      let moved =
        deliver_cursor now stream consumer room (drop cursor all) cursor
          (pending_of stream group q) in
      let at : cursor_of stream group consumed ≡ cursor + count =
        get_or-insert own_key own_key delivered.1 0 q.cursors ∙ rw (beq_self own_key) moved.0 in
      let new : All (IsKept stream group (consumed, done)) (take count (drop cursor all)) =
        All-map
          (λ e h.
            rw (get_or-insert own_key own_key delivered.2 [] q.pending)
              (rw (beq_self own_key, h) refl))
          (take count (drop cursor all))
          (deliver_pending now stream consumer room (drop cursor all) cursor
            (pending_of stream group q)) in
      let old : All (IsKept stream group (consumed, done)) (take cursor all) =
        All-map (λ e. kept-consume stream group done e.0) (take cursor all) l.1 in
      (
        rw at (rw (entries-consume stream) (omega (arith, l.0, moved, length-drop cursor all))),
        rw at (
            rw (entries-consume stream) (
              rw (take_add cursor count all) (
                All-append (IsKept stream group (consumed, done)) (take cursor all)
                  (take count (drop cursor all)) old new))),
      )

  consume-IsLossless :
      (s g : String) (done : Settled) → IsLossless s g (q, done) → IsLossless s g (consumed, done)
  unfolding consume
  consume-IsLossless s g done l =
      let own_key : String × String = (stream, group) in
      let key : String × String = (s, g) in
      elim (Bool-cases (own_key == key)) [
        | inl own ↦
            subst (λ k. IsLossless k.0 k.1 (q, done) → IsLossless k.0 k.1 (consumed, done))
              ((pair_eq.beq_iff own_key key).0 own) (consume_own done) l
        | inr other ↦
            IsLossless-after s g (q, done) (consumed, done) []
              (get_or-insert own_key key delivered.1 0 q.cursors ∙ rw other refl)
              (entries-consume s ∙ sym (append_nil (entries_of s q))) (kept-consume s g done) l
      ]

-- At least once, over any history of calls: every message that a group's cursor has passed is pending for
-- the group, or the group has settled it by `ack` or `dead_letter`; and the cursor is within the stream.
pub no_loss :
    (calls : List QueueCall) (stream group : String)
    → IsLossless stream group (run calls (empty_queue, []))
unfolding step run
no_loss calls stream group = run_lossless calls (empty_queue, []) (omega arith, tt)
  where
    step_lossless :
        (c : QueueCall) (s : Queue × Settled)
        → IsLossless stream group s
        → IsLossless stream group (step c s)
    step_lossless (publishes st payload key) (q, done) l =
        publish-IsLossless stream group st payload key q done l
    step_lossless (consumes now st g consumer room) (q, done) l =
        consume-IsLossless now st g consumer room q stream group done l
    step_lossless (acks st g id) (q, done) l = ack-IsLossless stream group st g id q done l
    step_lossless (claims now st g consumer idle room) (q, done) l =
        claim-IsLossless stream group now st g consumer idle room q done l
    step_lossless (dead_letters st g id) (q, done) l =
        dead_letter-IsLossless stream group st g id q done l

    run_lossless :
        (cs : List QueueCall) (s : Queue × Settled)
        → IsLossless stream group s
        → IsLossless stream group (run cs s)
    run_lossless [] s l = l
    run_lossless (c ∷ cs) s l = run_lossless cs (step c s) (step_lossless c s l)
