-- ===== src/Runtime/Queue/History.antt =====
-- Histories of calls of the queue of core/runtime/memory.py, and what they leave for a group.
use general_ai_core.Prelude.{
  ℕ, ◌≤◌, ◌≡◌, Bool, true, ◌||◌, String, List, [], ◌∷◌, lookup, contains, nat_eq, string_eq,
  pair_eq, Result, ok, err, after, take, member, get_or, Eq, length, All,
}
use general_ai_core.Prelude.Sorted.{nat_order}
use general_ai_core.Runtime.Queue.{
  Payload, Content, Entries, Pending, Queue, QueueError, publish, consume, ack, claim_stale,
  dead_letter,
}

-- The calls of the queue, with the clock's value where they read it.
pub data QueueCall : Type 0 where
  publishes : String → Payload → String → QueueCall
  consumes : ℕ → String → String → String → ℕ → QueueCall
  acks : String → String → ℕ → QueueCall
  claims : ℕ → String → String → String → ℕ → ℕ → QueueCall
  dead_letters : String → String → ℕ → QueueCall

instance abbrev pub group_message_eq : Eq ((String × String) × ℕ)
group_message_eq = pair_eq {A = String × String} {B = ℕ}

-- A message that a group has settled.
abbrev pub Settled : Type 0
Settled = List ((String × String) × ℕ)

abbrev pub settled_by :
    {A : Type 0} → (String × String) × ℕ → Result QueueError A → Settled → Settled
settled_by k (ok a) done = k ∷ done
settled_by k (err e) done = done

-- What a call leaves of the queue, and of the list of settled messages: an acknowledgement or a dead
-- letter that returned has settled its message.
unfoldable pub step : QueueCall → Queue × Settled → Queue × Settled
unfolding publish consume ack claim_stale dead_letter
step (publishes stream payload key) (q, done) = ((publish stream payload key q).1, done)
step (consumes now stream group consumer room) (q, done) =
    ((consume now stream group consumer room q).1, done)
step (acks stream group id) (q, done) =
    (after q (ack stream group id q), settled_by ((stream, group), id) (ack stream group id q) done)
step (claims now stream group consumer idle room) (q, done) =
    ((claim_stale now stream group consumer idle room q).1, done)
step (dead_letters stream group id) (q, done) = (
  after q (dead_letter stream group id q),
  settled_by ((stream, group), id) (dead_letter stream group id q) done,
)

unfoldable pub run : List QueueCall → Queue × Settled → Queue × Settled
unfolding step
run [] s = s
run (c ∷ cs) s = run cs (step c s)

abbrev pub entries_of : String → Queue → Entries
entries_of stream q = get_or (lookup stream q.streams) []

abbrev pub cursor_of : String → String → Queue → ℕ
cursor_of stream group q = get_or (lookup (stream, group) q.cursors) 0

abbrev pub pending_of : String → String → Queue → Pending
pending_of stream group q = get_or (lookup (stream, group) q.pending) []

-- A message is pending for the group, or the group has settled it.
abbrev pub is_kept : String → String → Queue × Settled → ℕ → Bool
is_kept stream group (q, done) id =
    contains id (pending_of stream group q) || member ((stream, group), id) done

abbrev pub IsKept : String → String → Queue × Settled → ℕ × Content → Type 0
IsKept stream group s e = is_kept stream group s e.0 ≡ true

-- Every message behind a group's cursor is pending or settled, and the cursor is within the stream.
abbrev pub IsLossless : String → String → Queue × Settled → Type 0
IsLossless stream group s =
    (cursor_of stream group s.0 ≤ length (entries_of stream s.0))
    × All (IsKept stream group s) (take (cursor_of stream group s.0) (entries_of stream s.0))
