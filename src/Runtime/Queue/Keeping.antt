-- ===== src/Runtime/Queue/Keeping.antt =====
-- What each call of core/runtime/memory.py, a consumption aside, leaves for a group.
use general_ai_core.Prelude.{
  ℕ, ◌≤◌, ◌≡◌, inl, inr, refl, sym, ap, Bool, true, false, ◌||◌, some, String, [], ◌∷◌, ◌++◌, arith,
  Dict, lookup, insert, erase, contains, ◌==◌, nat_eq, string_eq, pair_eq, concat, if◌then◌else◌,
  Bool-cases, Option-cases, lookup-insert, lookup-erase, ◌∙◌, subst, take, member, length-append,
  get_or, beq_self, Eq, length, All, All-map, take-append, append_nil,
}
use general_ai_core.Prelude.Sorted.{sort, nat_order}
use general_ai_core.Runtime.Queue.{
  Payload, Content, Entries, Pending, Queue, publish, with_pending, ack, by_id, claim, claim_stale,
  dead_letter,
}
use general_ai_core.Runtime.Queue.History.{
  group_message_eq, Settled, step, entries_of, cursor_of, pending_of, is_kept, IsKept, IsLossless,
  acks, dead_letters,
}
use general_ai_core.Runtime.Queue.Loops.{claim_keeps}

-- What a dict holds under a key after an assignment.
pub get_or-insert :
    {K V : Type 0} ⦃e : Eq K⦄ (k j : K) (v z : V) (d : Dict K V)
    → get_or (lookup j (insert k v d)) z ≡ (if k == j then v else get_or (lookup j d) z)
get_or-insert k j v z d = ground (arith, lookup-insert k j v d)

-- A stream after a publication: longer by the message, or as it was.
pub entries-publish :
    (s stream : String) (payload : Payload) (key : String) (q : Queue)
    → (new : Entries) × (entries_of s (publish stream payload key q).1 ≡ entries_of s q ++ new)
unfolding publish
entries-publish s stream payload key q =
    let c : Content = record { payload = payload; idempotency_key = key } in
    let e = get_or-insert stream s (entries_of stream q ++ (q.seq, c) ∷ []) [] q.streams in
    elim (Bool-cases (stream == s)) [
      | inl own ↦ (
        (q.seq, c) ∷ [],
        e
            ∙ rw own
                (ap (λ x. entries_of x q ++ (q.seq, c) ∷ []) ((string_eq.beq_iff stream s).0 own)),
      )
      | inr other ↦ ([], e ∙ rw other (sym (append_nil (entries_of s q))))
    ]

-- A pending message of a group, after one of them is settled.
erased_or_settled :
    (k : String × String) (mid id : ℕ) (p : Pending) (done : Settled)
    → contains id p ≡ true
    → (contains id (erase mid p) || member (k, id) ((k, mid) ∷ done)) ≡ true
erased_or_settled k mid id p done h = elim (Bool-cases (mid == id)) [
  | inl own ↦ rw ((nat_eq.beq_iff mid id).0 own) (or_settled (contains id (erase id p)))
  | inr other ↦ rw (lookup-erase mid id p, other, h) refl
]
  where
    or_settled : (b : Bool) → (b || member (k, id) ((k, id) ∷ done)) ≡ true
    or_settled true = refl
    or_settled false = let key : (String × String) × ℕ = (k, id) in rw (beq_self key) refl

member_cons :
    (k a : (String × String) × ℕ) (done : Settled)
    → member a done ≡ true
    → member a (k ∷ done) ≡ true
member_cons k a done h = rw h (if_both (k == a))
  where
    if_both : (b : Bool) → (if b then true else true) ≡ true
    if_both true = refl
    if_both false = refl

module _ (s g : String) where
  -- A call that leaves the group's cursor, appends to the stream at most, and keeps or settles what
  -- was pending.
  pub IsLossless-after :
      (a b : Queue × Settled) (new : Entries)
      → cursor_of s g b.0 ≡ cursor_of s g a.0
      → entries_of s b.0 ≡ entries_of s a.0 ++ new
      → ((id : ℕ) → is_kept s g a id ≡ true → is_kept s g b id ≡ true)
      → IsLossless s g a
      → IsLossless s g b
  IsLossless-after a b new same longer keeps l =
      let within : cursor_of s g b.0 ≤ length (entries_of s b.0) =
        rw same (rw longer (omega (arith, l.0, length-append (entries_of s a.0) new))) in
      let prefix : take (cursor_of s g b.0) (entries_of s b.0)
          ≡ take (cursor_of s g a.0) (entries_of s a.0) =
        rw same (rw longer (take-append (cursor_of s g a.0) (entries_of s a.0) new l.0)) in
      (
        within,
        subst (All (IsKept s g b)) (sym prefix)
            (All-map (λ e k. keeps e.0 k) (take (cursor_of s g a.0) (entries_of s a.0)) l.1),
      )

  pub publish-IsLossless :
      (stream : String) (payload : Payload) (key : String) (q : Queue) (done : Settled)
      → IsLossless s g (q, done)
      → IsLossless s g ((publish stream payload key q).1, done)
  unfolding publish
  publish-IsLossless stream payload key q done l =
      let new = entries-publish s stream payload key q in
      IsLossless-after (q, done) ((publish stream payload key q).1, done) new.0 refl new.1
        (λ id k. k) l

  -- The pending messages of one group are replaced by others, which have all but the settled ones.
  pub kept-with_pending :
      (stream group : String) (p : Pending) (q : Queue) (done new : Settled) (id : ℕ)
      → (contains id (pending_of stream group q) ≡ true
          → (contains id p || member ((stream, group), id) new) ≡ true)
      → ((k : (String × String) × ℕ) → member k done ≡ true → member k new ≡ true)
      → is_kept s g (q, done) id ≡ true
      → is_kept s g (with_pending stream group p q, new) id ≡ true
  kept-with_pending stream group p q done new id keeps grows k =
      let own_key : String × String = (stream, group) in
      let key : String × String = (s, g) in
      let e = get_or-insert own_key key p [] q.pending in
      elim (Bool-cases (own_key == key)) [
        | inl own ↦
            let same : own_key ≡ key = (pair_eq.beq_iff own_key key).0 own in
            let here : contains id (get_or (lookup own_key q.pending) []) ≡ true
                → (contains id p || member (own_key, id) new) ≡ true =
              keeps in
            rw e (rw own (kept_there own_key key same here k))
        | inr other ↦
            rw e (rw other (either_grows (contains id (pending_of s g q)) (grows ((s, g), id)) k))
      ]
    where
      either_grows :
          (b : Bool) {c d : Bool} → (c ≡ true → d ≡ true) → (b || c) ≡ true → (b || d) ≡ true
      either_grows true h k = refl
      either_grows false h k = h k

      pending_or_done :
          (b c : Bool) {d m : Bool}
          → (b ≡ true → (c || m) ≡ true)
          → (d ≡ true → m ≡ true)
          → (b || d) ≡ true
          → (c || m) ≡ true
      pending_or_done true c h i k = h refl
      pending_or_done false true h i k = refl
      pending_or_done false false h i k = i k

      kept_there :
          (a b : String × String)
          → a ≡ b
          → (contains id (get_or (lookup a q.pending) []) ≡ true
              → (contains id p || member (a, id) new) ≡ true)
          → (contains id (get_or (lookup b q.pending) []) || member (b, id) done) ≡ true
          → (contains id p || member (b, id) new) ≡ true
      kept_there a b e h k =
          let h' =
            subst
              (λ x.
                contains id (get_or (lookup x q.pending) []) ≡ true
                → (contains id p || member (x, id) new) ≡ true)
              e h in
          pending_or_done (contains id (get_or (lookup b q.pending) [])) (contains id p) h'
            (grows (b, id)) k

  -- A call that settles a pending message, and a call that keeps what was pending.
  settle-IsLossless :
      (stream group : String) (mid : ℕ) (p : Pending) (q : Queue) (done : Settled)
      → lookup (stream, group) q.pending ≡ some p
      → IsLossless s g (q, done)
      → IsLossless s g (with_pending stream group (erase mid p) q, ((stream, group), mid) ∷ done)
  settle-IsLossless stream group mid p q done found =
      let key : (String × String) × ℕ = ((stream, group), mid) in
      IsLossless-after (q, done) (with_pending stream group (erase mid p) q, key ∷ done) [] refl
        (sym (append_nil (entries_of s q)))
        (λ id.
          kept-with_pending stream group (erase mid p) q done (key ∷ done) id
            (rw found (erased_or_settled (stream, group) mid id p done))
            (λ k. member_cons key k done))

  keep-IsLossless :
      (stream group : String) (p p' : Pending) (q : Queue) (done : Settled)
      → lookup (stream, group) q.pending ≡ some p
      → ((id : ℕ) → contains id p ≡ true → contains id p' ≡ true)
      → IsLossless s g (q, done)
      → IsLossless s g (with_pending stream group p' q, done)
  keep-IsLossless stream group p p' q done found keeps =
      IsLossless-after (q, done) (with_pending stream group p' q, done) [] refl
        (sym (append_nil (entries_of s q)))
        (λ id.
          kept-with_pending stream group p' q done done id (rw found (λ h. rw (keeps id h) refl))
            (λ k h. h))

  pub ack-IsLossless :
      (stream group : String) (mid : ℕ) (q : Queue) (done : Settled)
      → IsLossless s g (q, done)
      → IsLossless s g (step (acks stream group mid) (q, done))
  unfolding step ack
  ack-IsLossless stream group mid q done l =
      elim (Option-cases (lookup (stream, group) q.pending)) [
        | inl absent ↦ rw absent l
        | inr (p, found) ↦ elim (Bool-cases (contains mid p)) [
          | inl held ↦ rw found (rw held (settle-IsLossless stream group mid p q done found l))
          | inr free ↦ rw found (rw free l)
        ]
      ]

  pub dead_letter-IsLossless :
      (stream group : String) (mid : ℕ) (q : Queue) (done : Settled)
      → IsLossless s g (q, done)
      → IsLossless s g (step (dead_letters stream group mid) (q, done))
  unfolding step dead_letter publish
  dead_letter-IsLossless stream group mid q done l =
      let contents = by_id (entries_of stream q) [] in
      elim (Option-cases (lookup (stream, group) q.pending)) [
        | inl absent ↦ rw absent l
        | inr (p, found) ↦ elim (Bool-cases (contains mid p)) [
          | inl held ↦ elim (Option-cases (lookup mid contents)) [
            | inl gone ↦ rw found (rw held (rw gone l))
            | inr (c, there) ↦ rw found (
                rw held (
                  rw there (
                    settle-IsLossless stream group mid p
                      (publish (concat stream ".dlq") c.payload c.idempotency_key q).1 done found
                      (publish-IsLossless (concat stream ".dlq") c.payload c.idempotency_key q done
                        l))))
          ]
          | inr free ↦ rw found (rw free l)
        ]
      ]

  pub claim-IsLossless :
      (now : ℕ) (stream group consumer : String) (idle room : ℕ) (q : Queue) (done : Settled)
      → IsLossless s g (q, done)
      → IsLossless s g ((claim_stale now stream group consumer idle room q).1, done)
  unfolding claim_stale
  claim-IsLossless now stream group consumer idle room q done l =
      let contents = by_id (entries_of stream q) [] in
      elim (Option-cases (lookup (stream, group) q.pending)) [
        | inl absent ↦ rw absent l
        | inr (p, found) ↦ rw found (
            keep-IsLossless stream group p
              (claim now stream consumer idle contents room (sort p) p).1 q done found
              (claim_keeps now stream consumer idle contents room (sort p) p) l)
      ]
