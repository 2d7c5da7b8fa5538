-- ===== src/Runtime/Fair/Formed.antt =====
-- Histories of `FairScheduler` of core/runtime/admission.py keep its tiers and rotations together.
use general_ai_core.Prelude.{
  ◌||◌, ℕ, ◌≡◌, refl, sym, ap, ◌∙◌, subst, arith, inl, inr, String, List, [], ◌∷◌, ◌++◌, Option,
  none, some, is_some, Option-cases, Bool-cases, lookup, insert, contains, get_or, keys, length,
  member, if◌then◌else◌, Eq, ◌==◌, string_eq, ok, err, append_nil, Bool, true, false, lookup-insert,
}
use general_ai_core.Prelude.Sorted.{Order, sort}
use general_ai_core.Runtime.Fair.{
  Fifo, Tier, Scheduler, empty_scheduler, Scan, scan, with_tenant, with_tier, submit, after_scan,
  seek, next_item,
}
use general_ai_core.Runtime.Fair.Scan.{IsScanned, scan-IsScanned}
use general_ai_core.Runtime.Fair.Next.{
  members_queued, tier_of, rotation_of, IsFormed, IsNext, next_item-IsNext,
}

pub member-append :
    (t : String) (xs ys : List String) → member t (xs ++ ys) ≡ (member t xs || member t ys)
member-append t [] ys = refl
member-append t (x ∷ xs) ys = elim (Bool-cases (x == t)) [
  | inl same ↦ rw same refl
  | inr other ↦ rw other (member-append t xs ys)
]

-- The tenants of a rotation are those with a queue in the tier.
abbrev pub Stand : Tier → List String → Type 0
Stand tier rot = (t : String) → member t rot ≡ contains t tier

turn :
    (same before behind : Bool) (l l' : Option Fifo) (q : Fifo)
    → l' ≡ (if same then some q else l)
    → (before || (if same then true else behind)) ≡ is_some l
    → (behind || (before || (if same then true else false))) ≡ is_some l'
turn true true true l l' q h k = ground (arith, h, k)
turn true true false l l' q h k = ground (arith, h, k)
turn true false true l l' q h k = ground (arith, h, k)
turn true false false l l' q h k = ground (arith, h, k)
turn false true true l l' q h k = ground (arith, h, k)
turn false true false l l' q h k = ground (arith, h, k)
turn false false true l l' q h k = ground (arith, h, k)
turn false false false l l' q h k = ground (arith, h, k)

-- A scan turns the rotation, and shortens a queue.
pub scanned-Stand :
    (P : Type 0) (tier : Tier) (rot : List String) (r : Scan P)
    → IsScanned tier rot [] r
    → Stand tier rot
    → Stand r.1.1 r.1.0
scanned-Stand P tier rot (ok none, (rot', tier')) (er, et, idle) stand = rw er (rw et stand)
scanned-Stand P tier rot (ok (some (x, item)), (rot', tier'))
      (before, behind, number, queue, split, all, first, er, et) stand =
    λ t.
      let turned = member-append t behind (before ++ x ∷ []) in
      let front = member-append t before (x ∷ []) in
      let was = member-append t before (x ∷ behind) in
      let old : member t (before ++ x ∷ behind) ≡ contains t tier =
        subst (λ r. member t r ≡ contains t tier) split (stand t) in
      rw er (
        rw et (
          rw turned (
            rw front (
              turn (x == t) (member t before) (member t behind) (lookup t tier)
                (lookup t (insert x queue tier)) queue (lookup-insert x t queue tier)
                (sym was ∙ old)))))
scanned-Stand P tier rot (err x, r) h stand = absurd h

-- A new tenant joins the rotation with its queue.
tenant-Stand :
    (tenant : String) (item : String) (n : ℕ) (tier : Tier) (rot : List String) (q : Option Fifo)
    → lookup tenant tier ≡ q
    → Stand tier rot
    → let r = with_tenant tenant tier rot q in
      Stand (insert tenant (get_or (lookup tenant r.0) [] ++ (n, item) ∷ []) r.0) r.1
tenant-Stand tenant item n tier rot none absent stand t =
    let empty = insert tenant [] tier in
    let queue = get_or (lookup tenant empty) [] ++ (n, item) ∷ [] in
    ground (
      arith,
      member-append t rot (tenant ∷ []),
      lookup-insert tenant t queue empty,
      lookup-insert tenant t [] tier,
      stand t,
    )
tenant-Stand tenant item n tier rot (some q) found stand t =
    let queue = get_or (lookup tenant tier) [] ++ (n, item) ∷ [] in
    let grown : contains t (insert tenant queue tier)
        ≡ (if tenant == t then true else contains t tier) =
      ground (arith, lookup-insert tenant t queue tier) in
    elim (Bool-cases (tenant == t)) [
      | inl own ↦ rw grown (
          rw own (
            stand t
            ∙ subst (λ x. contains x tier ≡ true) ((string_eq.beq_iff tenant t).0 own)
                (ap is_some found)))
      | inr other ↦ rw grown (rw other (stand t))
    ]

module _ {P : Type 0} ⦃e : Eq P⦄ ⦃o : Order P⦄ where
  with_tier-IsFormed :
      (p : P) (rot : List String) (tier : Tier) (s : Scheduler P)
      → Stand tier rot
      → IsFormed s
      → IsFormed (with_tier p rot tier s)
  with_tier-IsFormed p rot tier s stand f = record {
    rotated = λ i h.
        ground
          (arith, lookup-insert p i tier s.tiers, lookup-insert p i rot s.rotation, h, f.rotated i);
    listed = λ i t. elim (Bool-cases (p == i)) [
      | inl own ↦
          rw (lookup-insert p i tier s.tiers, lookup-insert p i rot s.rotation, own) (stand t)
      | inr other ↦
          rw (lookup-insert p i tier s.tiers, lookup-insert p i rot s.rotation, other)
            (f.listed i t)
    ];
  }

  -- The loops of `next_item`.
  seek-IsFormed : (ps : List P) (s : Scheduler P) → IsFormed s → IsFormed (seek ps s).1
  seek-IsFormed [] s f = f
  seek-IsFormed (p ∷ ps) s f = elim (Option-cases (lookup p s.rotation)) [
    | inl absent ↦ rw absent f
    | inr (rot, found) ↦
        let tier = tier_of p s in
        let stand : Stand tier rot =
          λ t. ap (λ r. member t (get_or r [])) (sym found) ∙ f.listed p t in
        let all = members_queued tier rot (λ t h. sym (stand t) ∙ h) in
        let scanned =
          subst (λ r. IsScanned {P = P} tier rot [] (scan (length rot) r tier)) (append_nil rot)
            (scan-IsScanned P rot [] tier all) in
        rw found (
          after (scan (length rot) rot tier)
            (scanned-Stand P tier rot (scan (length rot) rot tier) scanned stand)
            (λ s' f'. seek-IsFormed ps s' f'))
  ]
    where
      after :
          (r : Scan P)
          → Stand r.1.1 r.1.0
          → ((s' : Scheduler P) → IsFormed s' → IsFormed (seek ps s').1)
          → IsFormed (after_scan (λ s'. seek ps s') p s r).1
      after (ok none, (rot', tier')) stand next =
          next (with_tier p rot' tier' s) (with_tier-IsFormed p rot' tier' s stand f)
      after (ok (some x), (rot', tier')) stand next = with_tier-IsFormed p rot' tier' s stand f
      after (err x, (rot', tier')) stand next = with_tier-IsFormed p rot' tier' s stand f

  pub submit-IsFormed :
      (tenant item : String) (p : P) (s : Scheduler P)
      → IsFormed s
      → IsFormed (submit tenant item p s)
  unfolding submit
  submit-IsFormed tenant item p s f =
      let tier = tier_of p s in
      let rot = rotation_of p s in
      let r = with_tenant tenant tier rot (lookup tenant tier) in
      let f' =
        with_tier-IsFormed p r.1
          (insert tenant (get_or (lookup tenant r.0) [] ++ (s.seq, item) ∷ []) r.0) s
          (tenant-Stand tenant item s.seq tier rot (lookup tenant tier) refl (f.listed p)) f in
      record { rotated = f'.rotated; listed = f'.listed }

  pub next_item-IsFormed : (s : Scheduler P) → IsFormed s → IsFormed (next_item s).1
  unfolding next_item
  next_item-IsFormed s f = seek-IsFormed (keys (sort s.tiers)) s f

-- A history of a scheduler.
pub data SchedulerCall (P : Type 0) : Type 0 where
  submits : String → String → P → SchedulerCall P
  takes : SchedulerCall P

module _ {P : Type 0} ⦃e : Eq P⦄ ⦃o : Order P⦄ where
  unfoldable pub run : List (SchedulerCall P) → Scheduler P → Scheduler P
  run [] s = s
  run (submits tenant item p ∷ cs) s = run cs (submit tenant item p s)
  run (takes ∷ cs) s = run cs (next_item s).1

  pub run-IsFormed :
      (cs : List (SchedulerCall P)) (s : Scheduler P) → IsFormed s → IsFormed (run cs s)
  unfolding run
  run-IsFormed [] s f = f
  run-IsFormed (submits tenant item p ∷ cs) s f =
      run-IsFormed cs (submit tenant item p s) (submit-IsFormed tenant item p s f)
  run-IsFormed (takes ∷ cs) s f = run-IsFormed cs (next_item s).1 (next_item-IsFormed s f)

  -- After any history, `next_item` does not raise. It returns none when no queue holds an item, and then all
  -- queues stay empty; else it takes the first item of a tenant's queue at a priority such that no better
  -- priority holds an item, and every other queue stays as it was; the tenants before that one in the
  -- priority's rotation hold no item there, it goes to the end of that rotation, and the others stay.
  pub best_first :
      (calls : List (SchedulerCall P))
      → IsNext (run calls empty_scheduler) (next_item (run calls empty_scheduler))
  best_first calls =
      next_item-IsNext (run calls empty_scheduler)
        (run-IsFormed calls empty_scheduler (record { rotated = λ p h. h; listed = λ p t. refl }))
