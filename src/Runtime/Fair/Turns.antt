-- ===== src/Runtime/Fair/Turns.antt =====
-- The turns of the tenants in `FairScheduler` of core/runtime/admission.py.
use general_ai_core.Prelude.{
  ℕ, suc, ◌+◌, ◌<◌, ◌≡◌, ◌⊎◌, ◌&&◌, refl, sym, ap, ◌∙◌, subst, arith, inl, inr, String, List, [],
  ◌∷◌, ◌++◌, Option, Option-cases, none, some, is_some, Bool-cases, lookup, insert, get_or, length,
  member, All, if◌then◌else◌, Eq, ◌==◌, string_eq, ok, err, false≢true, true, false, lookup-insert,
  beq_self, Result,
}
use general_ai_core.Prelude.Sorted.{Order}
use general_ai_core.Runtime.Fair.{
  Fifo, Tier, Scheduler, Seek, MissingKey, with_tenant, submit, next_item, queue_of,
  empty_scheduler,
}
use general_ai_core.Runtime.Fair.Scan.{IsIdle}
use general_ai_core.Runtime.Fair.Next.{tier_of, rotation_of, IsFormed, IsNext, next_item-IsNext}
use general_ai_core.Runtime.Fair.Formed.{
  SchedulerCall, submits, takes, run, run-IsFormed, submit-IsFormed, next_item-IsFormed,
  member-append,
}

-- How many tenants stand before the tenant in the rotation.
abbrev pub place : String → List String → ℕ
place t [] = 0
place t (x ∷ rot) = if x == t then 0 else suc (place t rot)

place-member-le :
    (t : String) (xs ys : List String) → member t xs ≡ true → place t (xs ++ ys) ≡ place t xs
place-member-le t [] ys h = absurd (false≢true h)
place-member-le t (x ∷ xs) ys h = elim (Bool-cases (x == t)) [
  | inl same ↦ rw same refl
  | inr other ↦ rw other (ap suc (place-member-le t xs ys (rw other at h)))
]

place-behind :
    (t : String) (xs ys : List String)
    → member t xs ≡ false
    → place t (xs ++ ys) ≡ length xs + place t ys
place-behind t [] ys h = omega arith
place-behind t (x ∷ xs) ys h = elim (Bool-cases (x == t)) [
  | inl same ↦ absurd (false≢true (sym (rw same at h)))
  | inr other ↦ rw other (omega (arith, place-behind t xs ys (rw other at h)))
]

member-IsIdle :
    (tier : Tier) (t : String) (rot : List String)
    → All (IsIdle tier) rot
    → member t rot ≡ true
    → IsIdle tier t
member-IsIdle tier t [] h k = absurd (false≢true k)
member-IsIdle tier t (x ∷ rot) h k = elim (Bool-cases (x == t)) [
  | inl same ↦ subst (IsIdle tier) ((string_eq.beq_iff x t).0 same) h.0
  | inr other ↦ member-IsIdle tier t rot h.1 (rw other at k)
]

-- One scan serves the tenant, or brings it nearer to the front and leaves its queue.
nearer :
    (tier : Tier) (rot before behind : List String) (t x : String)
    → rot ≡ before ++ x ∷ behind
    → All (IsIdle tier) before
    → (IsIdle tier t → ⊥)
    → member t rot ≡ true
    → (x == t) ≡ false
    → place t (behind ++ (before ++ x ∷ [])) < place t rot
nearer tier rot before behind t x split idle waiting there other =
    elim (Bool-cases (member t before)) [
      | inl early ↦ absurd (waiting (member-IsIdle tier t before idle early))
      | inr late ↦
          let whole = member-append t before (x ∷ behind) in
          let far : member t behind ≡ true =
            ground (arith, subst (λ r. member t r ≡ true) split there, whole, late, other) in
          let old = place-behind t before (x ∷ behind) late in
          let new = place-member-le t behind (before ++ x ∷ []) far in
          let here : place t (x ∷ behind) ≡ suc (place t behind) = rw other refl in
          rw split (omega (arith, old, new, here))
    ]

no_item : {x : ℕ × String} {q : Fifo} → x ∷ q ≡ [] → ⊥
no_item h = cc

ends : (xs : Fifo) (y : ℕ × String) → (z : ℕ × String) × (zs : Fifo) × (xs ++ y ∷ [] ≡ z ∷ zs)
ends [] y = (y, [], refl)
ends (x ∷ xs) y = (x, xs ++ y ∷ [], refl)

-- A tier after a submission by the tenant `x`.
tier_queue :
    (x item t : String) (n : ℕ) (tier : Tier) (rot : List String) (l : Option Fifo)
    → lookup x tier ≡ l
    → let r = with_tenant x tier rot l in
      get_or (lookup t (insert x (get_or (lookup x r.0) [] ++ (n, item) ∷ []) r.0)) []
      ≡ (if x == t then get_or (lookup x tier) [] ++ (n, item) ∷ [] else get_or (lookup t tier) [])
tier_queue x item t n tier rot none absent =
    let empty = insert x [] tier in
    ground (
      arith,
      absent,
      lookup-insert x t (get_or (lookup x empty) [] ++ (n, item) ∷ []) empty,
      lookup-insert x t [] tier,
      lookup-insert x x [] tier,
      beq_self x,
    )
tier_queue x item t n tier rot (some q) found =
    ground (arith, found, lookup-insert x t (get_or (lookup x tier) [] ++ (n, item) ∷ []) tier)

module _ {P : Type 0} ⦃e : Eq P⦄ ⦃o : Order P⦄ where
  -- The tenants whose items the calls of `next_item` in a history return, in order.
  abbrev given : Result (MissingKey P) (Option (String × String)) → List String → List String
  given (ok (some (t, item))) rest = t ∷ rest
  given (ok none) rest = rest
  given (err x) rest = rest

  unfoldable pub served : List (SchedulerCall P) → Scheduler P → List String
  served [] s = []
  served (submits tenant item p ∷ cs) s = served cs (submit tenant item p s)
  served (takes ∷ cs) s = given (next_item s).0 (served cs (next_item s).1)

  abbrev pub count_takes : List (SchedulerCall P) → ℕ
  count_takes [] = 0
  count_takes (submits tenant item p ∷ cs) = count_takes cs
  count_takes (takes ∷ cs) = suc (count_takes cs)

  -- Nothing is submitted at a better priority.
  abbrev pub NoBetter : P → List (SchedulerCall P) → Type 0
  NoBetter p [] = Unit
  NoBetter p (submits tenant item q ∷ cs) = (o.less q p ≡ false) × NoBetter p cs
  NoBetter p (takes ∷ cs) = NoBetter p cs

  abbrev pub HasItem : P → String → Scheduler P → Type 0
  HasItem p t s = (item : ℕ × String) × (queue : Fifo) × (queue_of p t s ≡ item ∷ queue)

  abbrev pub IsBest : P → Scheduler P → Type 0
  IsBest p s = (q : P) (t : String) → o.less q p ≡ true → queue_of q t s ≡ []

  not_idle : (p : P) (t : String) (s : Scheduler P) → HasItem p t s → IsIdle (tier_of p s) t → ⊥
  not_idle p t s (x, q, h) idle = no_item (sym h ∙ ap (λ l. get_or l []) idle)

  stands :
      (p : P) (t : String) (s : Scheduler P)
      → IsFormed s
      → HasItem p t s
      → member t (rotation_of p s) ≡ true
  stands p t s f (x, q, h) = elim (Option-cases (lookup t (tier_of p s))) [
    | inl absent ↦ absurd (no_item (sym h ∙ ap (λ l. get_or l []) absent))
    | inr (queue, found) ↦ f.listed p t ∙ ap is_some found
  ]

  -- A submission adds to one queue, and perhaps its tenant to the end of one rotation.
  queue-submit :
      (x item : String) (q : P) (s : Scheduler P) (p : P) (t : String)
      → queue_of p t (submit x item q s)
        ≡ (if (q == p) && (x == t) then queue_of q x s ++ (s.seq, item) ∷ [] else queue_of p t s)
  unfolding submit
  queue-submit x item q s p t =
      let tier = tier_of q s in
      let r = with_tenant x tier (rotation_of q s) (lookup x tier) in
      let new = insert x (get_or (lookup x r.0) [] ++ (s.seq, item) ∷ []) r.0 in
      elim (Bool-cases (q == p)) [
        | inl own ↦
            rw (lookup-insert q p new s.tiers, own)
              (tier_queue x item t s.seq tier (rotation_of q s) (lookup x tier) refl
                ∙ ap (λ i. if x == t then queue_of q x s ++ (s.seq, item) ∷ [] else queue_of i t s)
                    ((e.beq_iff q p).0 own))
        | inr other ↦ rw (lookup-insert q p new s.tiers, other) refl
      ]

  place-submit :
      (x item : String) (q : P) (s : Scheduler P) (p : P) (t : String)
      → member t (rotation_of p s) ≡ true
      → place t (rotation_of p (submit x item q s)) ≡ place t (rotation_of p s)
  unfolding submit
  place-submit x item q s p t h =
      let r = with_tenant x (tier_of q s) (rotation_of q s) (lookup x (tier_of q s)) in
      elim (Bool-cases (q == p)) [
        | inl own ↦
            let same = (e.beq_iff q p).0 own in
            rw (lookup-insert q p r.1 s.rotation, own)
              (joined (lookup x (tier_of q s))
                  (subst (λ i. member t (rotation_of i s) ≡ true) (sym same) h)
                ∙ ap (λ i. place t (rotation_of i s)) same)
        | inr other ↦ rw (lookup-insert q p r.1 s.rotation, other) refl
      ]
    where
      joined :
          (l : Option Fifo)
          → member t (rotation_of q s) ≡ true
          → place t (with_tenant x (tier_of q s) (rotation_of q s) l).1 ≡ place t (rotation_of q s)
      joined none k = place-member-le t (rotation_of q s) (x ∷ []) k
      joined (some queue) k = refl

  waits_from :
      (p : P) (t : String) (cs : List (SchedulerCall P)) (s : Scheduler P)
      → IsFormed s
      → HasItem p t s
      → IsBest p s
      → NoBetter p cs
      → place t (rotation_of p s) < count_takes cs
      → member t (served cs s) ≡ true
  unfolding served
  waits_from p t [] s f w b n h = absurd (omega (arith, h))
  waits_from p t (submits x item q ∷ cs) s f w b n h =
      waits_from p t cs (submit x item q s) (submit-IsFormed x item q s f)
        (grown (Bool-cases ((q == p) && (x == t)))) best n.1
        (rw (place-submit x item q s p t (stands p t s f w)) h)
    where
      grown :
          (((q == p) && (x == t)) ≡ true) ⊎ (((q == p) && (x == t)) ≡ false)
          → HasItem p t (submit x item q s)
      grown (inl here) =
          let (z, zs, cons) = ends (queue_of q x s) (s.seq, item) in
          (z, zs, queue-submit x item q s p t ∙ rw here cons)
      grown (inr away) = (w.0, w.1, queue-submit x item q s p t ∙ rw away w.2)

      best : IsBest p (submit x item q s)
      best p' t' less = elim (Bool-cases (q == p')) [
        | inl own ↦ absurd (
            false≢true
              (sym n.0 ∙ subst (λ i. o.less i p ≡ true) (sym ((e.beq_iff q p').0 own)) less))
        | inr other ↦ queue-submit x item q s p' t' ∙ rw other (b p' t' less)
      ]
  waits_from p t (takes ∷ cs) s f w b n h =
      after (next_item s) (next_item-IsNext s f) (next_item-IsFormed s f)
        (λ s' f' w' b' l. waits_from p t cs s' f' w' b' n l)
    where
      after :
          (r : Seek P)
          → IsNext s r
          → IsFormed r.1
          → ((s' : Scheduler P)
              → IsFormed s'
              → HasItem p t s'
              → IsBest p s'
              → place t (rotation_of p s') < count_takes cs
              → member t (served cs s') ≡ true)
          → member t (given r.0 (served cs r.1)) ≡ true
      after (err x, s') bad f' next = absurd bad
      after (ok none, s') idle f' next = absurd (no_item (sym w.2 ∙ (idle p t).0))
      after (ok (some (x, item)), s')
            (p', number, queue, first, better, rest, before, behind, split, idle, turned) f' next =
          elim (Bool-cases (x == t)) [
            | inl own ↦ rw own refl
            | inr other ↦
                let same : p' ≡ p =
                  o.total p' p (not_before x p' number queue item first) (not_after p' better) in
                let here : (p' == p) ≡ true = (e.beq_iff p' p).1 same in
                let near =
                  nearer (tier_of p s) (rotation_of p s) before behind t x
                    (subst (λ i. rotation_of i s ≡ before ++ x ∷ behind) same split)
                    (subst (λ i. All (IsIdle (tier_of i s)) before) same idle) (not_idle p t s w)
                    (stands p t s f w) other in
                let kept : HasItem p t s' = (w.0, w.1, rest p t ∙ rw (here, other) w.2) in
                let bound : place t (rotation_of p s') < count_takes cs =
                  rw (turned p) (rw here (omega (arith, near, h))) in
                rw other (next s' f' kept (best_after s' p' x queue same rest) bound)
          ]
        where
          not_before :
              (x : String) (p' : P) (number : ℕ) (queue : Fifo) (item : String)
              → queue_of p' x s ≡ (number, item) ∷ queue
              → o.less p' p ≡ false
          not_before x p' number queue item first = elim (Bool-cases (o.less p' p)) [
            | inl less ↦ absurd (no_item (sym first ∙ b p' x less))
            | inr no_less ↦ no_less
          ]

          not_after :
              (p' : P)
              → ((q : P) (u : String) → o.less q p' ≡ true → queue_of q u s ≡ [])
              → o.less p p' ≡ false
          not_after p' better = elim (Bool-cases (o.less p p')) [
            | inl less ↦ absurd (no_item (sym w.2 ∙ better p t less))
            | inr no_less ↦ no_less
          ]

          best_after :
              (s' : Scheduler P) (p' : P) (x : String) (queue : Fifo)
              → p' ≡ p
              → ((q : P) (u : String)
                  → queue_of q u s' ≡ (if (p' == q) && (x == u) then queue else queue_of q u s))
              → IsBest p s'
          best_after s' p' x queue same rest q u less = elim (Bool-cases (p' == q)) [
            | inl own ↦ absurd (
                false≢true (
                  sym (o.irrefl p)
                  ∙ subst (λ i. o.less i p ≡ true) (sym ((e.beq_iff p' q).0 own) ∙ same) less))
            | inr other ↦ rest q u ∙ rw other (b q u less)
          ]

  -- Bounded waiting, after any history of the scheduler: a tenant has an item at a priority, no better priority
  -- holds an item, and none is submitted at a better one. When `next_item` is then called more often than
  -- tenants stand before it in the rotation of the priority, one of these calls returns an item of the
  -- tenant, whatever is submitted between them at this priority and at worse ones.
  pub waits_in_turn :
      (calls cs : List (SchedulerCall P)) (p : P) (t : String)
      → HasItem p t (run calls empty_scheduler)
      → IsBest p (run calls empty_scheduler)
      → NoBetter p cs
      → place t (rotation_of p (run calls empty_scheduler)) < count_takes cs
      → member t (served cs (run calls empty_scheduler)) ≡ true
  waits_in_turn calls cs p t w b n h =
      waits_from p t cs (run calls empty_scheduler)
        (run-IsFormed calls empty_scheduler (record { rotated = λ p h. h; listed = λ p t. refl })) w
        b n h
