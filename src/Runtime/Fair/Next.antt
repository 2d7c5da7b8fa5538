-- ===== src/Runtime/Fair/Next.antt =====
-- What `next_item` of `FairScheduler` of core/runtime/admission.py takes: the best priority first.
use general_ai_core.Prelude.{
  ◌++◌, ℕ, ◌≡◌, refl, sym, ap, ◌∙◌, subst, ◌⊎◌, inl, inr, String, List, [], ◌∷◌, Option, none, some,
  is_some, Option-cases, Bool-cases, Dict, lookup, insert, contains, get_or, keys, length, member,
  All, if◌then◌else◌, Eq, ◌==◌, ◌&&◌, beq_self, string_eq, ok, err, append_nil, false≢true, Bool,
  true, false, lookup-insert,
}
use general_ai_core.Prelude.Sorted.{Order, sort, IsSorted, IsAbove, sort-IsSorted, lookup-sort}
use general_ai_core.Runtime.Fair.{
  Fifo, Tier, Scheduler, Scan, scan, with_tier, Seek, after_scan, seek, next_item, queue_of,
}
use general_ai_core.Runtime.Fair.Scan.{IsIdle, HasQueue, IsScanned, scan-IsScanned}

some_of : {A : Type 0} (z : A) (a : Option A) → is_some a ≡ true → a ≡ some (get_or a z)
some_of z none h = absurd (false≢true h)
some_of z (some a) h = refl

pub members_queued :
    (tier : Tier) (rot : List String)
    → ((t : String) → member t rot ≡ true → contains t tier ≡ true)
    → All (HasQueue tier) rot
members_queued tier [] h = tt
members_queued tier (x ∷ rot) h =
    (h x (rw (beq_self x) refl), members_queued tier rot (λ t k. h t (either (x == t) k)))
  where
    either : (b : Bool) {c : Bool} → c ≡ true → (if b then true else c) ≡ true
    either true k = refl
    either false k = k

module _ {P : Type 0} ⦃e : Eq P⦄ ⦃o : Order P⦄ where
  abbrev pub tier_of : P → Scheduler P → Tier
  tier_of p s = get_or (lookup p s.tiers) []

  abbrev pub rotation_of : P → Scheduler P → List String
  rotation_of p s = get_or (lookup p s.rotation) []

  -- Every tier has its rotation, and the tenants of the rotation are those with a queue in the tier.
  pub record IsFormed (s : Scheduler P) : Type 0 where
    pub rotated : (p : P) → contains p s.tiers ≡ true → contains p s.rotation ≡ true
    pub listed : (p : P) (t : String) → member t (rotation_of p s) ≡ contains t (tier_of p s)

  -- Nothing is left when no item was returned; an item is the first of its tenant's queue, no better
  -- priority has an item, and every other queue is as it was. The tenants before it in the rotation of the
  -- priority have no item, and it goes to the end of that rotation; the other rotations are as they were.
  abbrev pub IsNext : Scheduler P → Seek P → Type 0
  IsNext s (err x, s') = ⊥
  IsNext s (ok none, s') = (p : P) (t : String) → (queue_of p t s ≡ []) × (queue_of p t s' ≡ [])
  IsNext s (ok (some (tenant, item)), s') =
      (p : P) × (number : ℕ) × (queue : Fifo) × (queue_of p tenant s ≡ (number, item) ∷ queue)
      × ((p' : P) (t : String) → o.less p' p ≡ true → queue_of p' t s ≡ [])
      × ((p' : P) (t : String)
          → queue_of p' t s' ≡ (if (p == p') && (tenant == t) then queue else queue_of p' t s))
      × (before : List String) × (behind : List String) × (rotation_of p s
          ≡ before ++ tenant ∷ behind)
      × All (IsIdle (tier_of p s)) before
      × ((p' : P)
          → rotation_of p' s'
            ≡ (if p == p' then behind ++ (before ++ tenant ∷ []) else rotation_of p' s))

  module _ (s0 : Scheduler P) (formed : IsFormed s0) where
    -- The same tiers and rotations under every key.
    abbrev Same : Scheduler P → Type 0
    Same s =
        (p : P)
        → (lookup p s.tiers ≡ lookup p s0.tiers) × (lookup p s.rotation ≡ lookup p s0.rotation)

    abbrev AllIdle : P → Type 0
    AllIdle p = (t : String) → queue_of p t s0 ≡ []

    idle_member :
        (tier : Tier) (rot : List String) (t : String)
        → All (IsIdle tier) rot
        → member t rot ≡ true
        → get_or (lookup t tier) [] ≡ []
    idle_member tier [] t h k = absurd (false≢true k)
    idle_member tier (x ∷ rot) t h k = elim (Bool-cases (x == t)) [
      | inl same ↦ ap (λ q. get_or q []) (subst (IsIdle tier) ((string_eq.beq_iff x t).0 same) h.0)
      | inr other ↦ idle_member tier rot t h.1 (rw other at k)
    ]

    -- A tier whose rotation is idle has no item.
    idle_tier : (p : P) → All (IsIdle (tier_of p s0)) (rotation_of p s0) → AllIdle p
    idle_tier p h t = elim (Option-cases (lookup t (tier_of p s0))) [
      | inl absent ↦ ap (λ q. get_or q []) absent
      | inr (q, found) ↦
          idle_member (tier_of p s0) (rotation_of p s0) t h (formed.listed p t ∙ ap is_some found)
    ]

    above_member :
        (p p' : P) (ds : Dict P Tier) → IsAbove p ds → contains p' ds ≡ true → o.less p p' ≡ true
    above_member p p' [] a h = absurd (false≢true h)
    above_member p p' ((j, x) ∷ ds) a h = elim (Bool-cases (j == p')) [
      | inl same ↦ subst (λ i. o.less p i ≡ true) ((e.beq_iff j p').0 same) a.0
      | inr other ↦ above_member p p' ds a.1 (rw other at h)
    ]

    -- The priorities before the one of a list in order.
    better_idle :
        (p : P) (tier : Tier) (ds : Dict P Tier)
        → IsAbove p ds
        → ((i : P) → (contains i ((p, tier) ∷ ds) ≡ true) ⊎ AllIdle i)
        → (p' : P) → o.less p' p ≡ true
        → AllIdle p'
    better_idle p tier ds a rest p' less = elim (rest p') [
      | inr idle ↦ idle
      | inl here ↦ elim (Bool-cases (p == p')) [
        | inl same ↦ absurd (
            false≢true (
              sym (o.irrefl p)
              ∙ subst (λ i. o.less i p ≡ true) (sym ((e.beq_iff p p').0 same)) less))
        | inr other ↦
            let above = above_member p p' ds a (rw other at here) in
            absurd (false≢true (sym (o.irrefl p) ∙ o.trans p p' p above less))
      ]
    ]

    module _ (p : P) (tier : Tier) (ds : Dict P Tier) (s : Scheduler P) (same : Same s)
        (there : lookup p s0.tiers ≡ some (tier_of p s0)) where
      Same-with_tier :
          (rot : List String)
          → lookup p s0.rotation ≡ some rot
          → Same (with_tier p rot (tier_of p s0) s)
      Same-with_tier rot found p' = elim (Bool-cases (p == p')) [
        | inl own ↦ (
          lookup-insert p p' (tier_of p s0) s.tiers
              ∙ rw own (sym there ∙ ap (λ i. lookup i s0.tiers) ((e.beq_iff p p').0 own)),
          lookup-insert p p' rot s.rotation
              ∙ rw own (sym found ∙ ap (λ i. lookup i s0.rotation) ((e.beq_iff p p').0 own)),
        )
        | inr other ↦ (
          lookup-insert p p' (tier_of p s0) s.tiers ∙ rw other (same p').0,
          lookup-insert p p' rot s.rotation ∙ rw other (same p').1,
        )
      ]

      queue_after :
          (tenant : String) (queue : Fifo) (rot : List String) (p' : P) (t : String)
          → queue_of p' t (with_tier p rot (insert tenant queue (tier_of p s0)) s)
            ≡ (if (p == p') && (tenant == t) then queue else queue_of p' t s0)
      queue_after tenant queue rot p' t = elim (Bool-cases (p == p')) [
        | inl own ↦
            rw
              (
                lookup-insert p p' (insert tenant queue (tier_of p s0)) s.tiers,
                own,
                lookup-insert tenant t queue (tier_of p s0),
              )
              (elim (Bool-cases (tenant == t)) [
                | inl mine ↦ rw mine refl
                | inr not_mine ↦ rw not_mine (ap (λ i. queue_of i t s0) ((e.beq_iff p p').0 own))
              ])
        | inr other ↦
            rw (lookup-insert p p' (insert tenant queue (tier_of p s0)) s.tiers, other)
              (ap (λ d. get_or (lookup t (get_or d [])) []) (same p').0)
      ]

      rotation_after :
          (rot : List String) (d : Tier) (p' : P)
          → rotation_of p' (with_tier p rot d s) ≡ (if p == p' then rot else rotation_of p' s0)
      rotation_after rot d p' = elim (Bool-cases (p == p')) [
        | inl own ↦ rw (lookup-insert p p' rot s.rotation, own) refl
        | inr other ↦
            rw (lookup-insert p p' rot s.rotation, other) (ap (λ r. get_or r []) (same p').1)
      ]

      scanned :
          (rot : List String) (r : Scan P) (next : Scheduler P → Seek P)
          → IsAbove p ds
          → ((i : P) → (contains i ((p, tier) ∷ ds) ≡ true) ⊎ AllIdle i)
          → lookup p s0.rotation ≡ some rot
          → IsScanned (tier_of p s0) rot [] r
          → ((s' : Scheduler P) → Same s' → AllIdle p → IsNext s0 (next s'))
          → IsNext s0 (after_scan next p s r)
      scanned rot (ok none, (rot', tier')) next a rest found (er, et, idle) ih =
          ih (with_tier p rot' tier' s) (rw er (rw et (Same-with_tier rot found)))
            (idle_tier p (rw found idle))
      scanned rot (ok (some (tenant, item)), (rot', tier')) next a rest found
            (before, behind, number, queue, split, all, first, er, et) ih =
          (
            p,
            number,
            queue,
            ap (λ q. get_or q []) first,
            (λ p' t less. better_idle p tier ds a rest p' less t),
            (λ p' t. rw et (queue_after tenant queue rot' p' t)),
            before,
            behind,
            ap (λ r. get_or r []) found ∙ split,
            all,
            λ p'. rw er (rotation_after (behind ++ (before ++ tenant ∷ [])) tier' p'),
          )
      scanned rot (err x, r) next a rest found h ih = absurd h

    seek-IsNext :
        (ds : Dict P Tier) (s : Scheduler P)
        → IsSorted ds
        → ((p : P) → contains p ds ≡ true → contains p s0.tiers ≡ true)
        → ((p : P) → (contains p ds ≡ true) ⊎ AllIdle p)
        → Same s
        → IsNext s0 (seek (keys ds) s)
    seek-IsNext [] s sorted known rest same = λ p t. elim (rest p) [
      | inl listed ↦ absurd (false≢true listed)
      | inr idle ↦ (idle t, ap (λ d. get_or (lookup t (get_or d [])) []) (same p).0 ∙ idle t)
    ]
    seek-IsNext ((p, tier) ∷ ds) s sorted known rest same =
        let there : lookup p s0.tiers ≡ some (tier_of p s0) =
          some_of [] (lookup p s0.tiers) (known p (rw (beq_self p) refl)) in
        let found : lookup p s0.rotation ≡ some (rotation_of p s0) =
          some_of [] (lookup p s0.rotation) (formed.rotated p (known p (rw (beq_self p) refl))) in
        let rot = rotation_of p s0 in
        let result =
          scan-IsScanned P rot [] (tier_of p s0)
            (members_queued (tier_of p s0) rot (λ t h. sym (formed.listed p t) ∙ h)) in
        rw ((same p).1, found, (same p).0)
          (scanned p tier ds s same there rot (scan (length rot) rot (tier_of p s0))
            (λ s'. seek (keys ds) s') sorted.0 rest found
            (subst
              (λ r. IsScanned {P = P} (tier_of p s0) rot [] (scan (length rot) r (tier_of p s0)))
              (append_nil rot) result)
            (λ s' same' idle.
              seek-IsNext ds s' sorted.1 (λ p' h. known p' (further p p' tier ds h))
                (λ p'. remaining p' idle (rest p')) same'))
      where
        further :
            (p p' : P) (tier : Tier) (ds : Dict P Tier)
            → contains p' ds ≡ true
            → contains p' ((p, tier) ∷ ds) ≡ true
        further p p' tier ds h = elim (Bool-cases (p == p')) [
          | inl own ↦ rw own refl
          | inr other ↦ rw other h
        ]

        remaining :
            (p' : P)
            → AllIdle p
            → (contains p' ((p, tier) ∷ ds) ≡ true) ⊎ AllIdle p'
            → (contains p' ds ≡ true) ⊎ AllIdle p'
        remaining p' idle (inr h) = inr h
        remaining p' idle (inl here) = elim (Bool-cases (p == p')) [
          | inl own ↦ inr (subst AllIdle ((e.beq_iff p p').0 own) idle)
          | inr other ↦ inl (rw other at here)
        ]

  pub next_item-IsNext : (s : Scheduler P) → IsFormed s → IsNext s (next_item s)
  unfolding next_item
  next_item-IsNext s formed =
      seek-IsNext s formed (sort s.tiers) s (sort-IsSorted s.tiers)
        (λ p h. sym (ap is_some (lookup-sort p s.tiers)) ∙ h) (λ p. known p) (λ p. (refl, refl))
    where
      known : (p : P) → (contains p (sort s.tiers) ≡ true) ⊎ ((t : String) → queue_of p t s ≡ [])
      known p = elim (Option-cases (lookup p s.tiers)) [
        | inl absent ↦ inr (λ t. ap (λ d. get_or (lookup t (get_or d [])) []) absent)
        | inr (d, there) ↦ inl (ap is_some (lookup-sort p s.tiers ∙ there))
      ]
