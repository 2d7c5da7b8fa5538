-- ===== src/Runtime/Fair.antt =====
-- `FairScheduler` of core/runtime/admission.py: tiers of priority, tenants in turn within a tier, and
-- first in first out within a tenant. A priority is an element of any ordered type, an int in the source.
pub mod Scan
pub mod Next
pub mod Formed
pub mod Turns
mod Examples
use general_ai_core.Prelude.{
  ℕ, zero, suc, ◌+◌, String, List, [], ◌∷◌, ◌++◌, Result, ok, err, keys, Option, none, some, Dict,
  lookup, insert, contains, get_or, values, length, if◌then◌else◌, Eq, ◌==◌, string_eq,
}
use general_ai_core.Prelude.Sorted.{Order, sort}

-- A tenant's queue: the items with their numbers.
abbrev pub Fifo : Type 0
Fifo = List (ℕ × String)

abbrev pub Tier : Type 0
Tier = Dict String Fifo

pub record Scheduler (P : Type 0) : Type 0 where
  pub seq : ℕ
  pub tiers : Dict P Tier
  pub rotation : Dict P (List String)

abbrev pub empty_scheduler : {P : Type 0} → Scheduler P
empty_scheduler = record { seq = 1; tiers = []; rotation = [] }

-- A dict that lacks a key that the scheduler reads: KeyError.
pub data MissingKey (P : Type 0) : Type 0 where
  no_tenant : String → MissingKey P
  no_rotation : P → MissingKey P

-- The item that was found, and the order of the tenants and the tier after a scan.
abbrev pub Scan : Type 0 → Type 0
Scan P = Result (MissingKey P) (Option (String × String)) × (List String × Tier)

-- A round of the inner loop for the tenant in front, with the rounds that follow it.
abbrev pub serve :
    {P : Type 0} → (List String → Scan P) → String → List String → Tier → Option Fifo → Scan P
serve next tenant rotation tier none = (err (no_tenant tenant), (rotation, tier))
serve next tenant rotation tier (some []) = next rotation
serve next tenant rotation tier (some ((number, item) ∷ queue)) =
    (ok (some (tenant, item)), (rotation, insert tenant queue tier))

-- The rounds of the inner loop: the first tenant of the rotation goes to the end.
abbrev pub scan : {P : Type 0} → ℕ → List String → Tier → Scan P
scan zero rotation tier = (ok none, (rotation, tier))
scan (suc n) [] tier = (ok none, ([], tier))
scan (suc n) (tenant ∷ rotation) tier =
    serve (λ r. scan n r tier) tenant (rotation ++ tenant ∷ []) tier (lookup tenant tier)

-- The tier and the rotation of a priority, for a tenant that has no queue there and for one that has.
abbrev pub with_tenant : String → Tier → List String → Option Fifo → Tier × List String
with_tenant tenant tier rotation none = (insert tenant [] tier, rotation ++ tenant ∷ [])
with_tenant tenant tier rotation (some queue) = (tier, rotation)

abbrev pub Seek : Type 0 → Type 0
Seek P = Result (MissingKey P) (Option (String × String)) × Scheduler P

module _ {P : Type 0} ⦃e : Eq P⦄ ⦃o : Order P⦄ where
  abbrev pub with_tier : P → List String → Tier → Scheduler P → Scheduler P
  with_tier p rotation tier s = record s {
    tiers = insert p tier s.tiers;
    rotation = insert p rotation s.rotation;
  }

  unfoldable pub submit : String → String → P → Scheduler P → Scheduler P
  submit tenant item p s =
      let tier = get_or (lookup p s.tiers) [] in
      let rotation = get_or (lookup p s.rotation) [] in
      let (tier', rotation') = with_tenant tenant tier rotation (lookup tenant tier) in
      let queue = get_or (lookup tenant tier') [] in
      let s' = with_tier p rotation' (insert tenant (queue ++ (s.seq, item) ∷ []) tier') s in
      record s' { seq = s.seq + 1 }

  -- A priority after the scan of its tier: the next priority when nothing was found.
  abbrev pub after_scan : (Scheduler P → Seek P) → P → Scheduler P → Scan P → Seek P
  after_scan next p s (ok none, (rotation, tier)) = next (with_tier p rotation tier s)
  after_scan next p s (ok (some found), (rotation, tier)) =
      (ok (some found), with_tier p rotation tier s)
  after_scan next p s (err x, (rotation, tier)) = (err x, with_tier p rotation tier s)

  -- The tier of a priority is there: the priority is a key of the tiers.
  abbrev pub seek_tier : (Scheduler P → Seek P) → P → Scheduler P → Option (List String) → Seek P
  seek_tier next p s none = (err (no_rotation p), s)
  seek_tier next p s (some rotation) =
      after_scan next p s (scan (length rotation) rotation (get_or (lookup p s.tiers) []))

  -- The outer loop, over the priorities in order.
  abbrev pub seek : List P → Scheduler P → Seek P
  seek [] s = (ok none, s)
  seek (p ∷ ps) s = seek_tier (λ s'. seek ps s') p s (lookup p s.rotation)

  unfoldable pub next_item : Scheduler P → Seek P
  next_item s = seek (keys (sort s.tiers)) s

  -- The tenant's queue at a priority.
  abbrev pub queue_of : P → String → Scheduler P → Fifo
  queue_of p tenant s = get_or (lookup tenant (get_or (lookup p s.tiers) [])) []

  -- `backlog`: the number of all items.
  unfoldable pub backlog : Scheduler P → ℕ
  backlog s = sum_tiers s.tiers
    where
      sum_queues : Tier → ℕ
      sum_queues [] = 0
      sum_queues ((t, queue) ∷ tier) = length queue + sum_queues tier

      sum_tiers : Dict P Tier → ℕ
      sum_tiers [] = 0
      sum_tiers ((p, tier) ∷ tiers) = sum_queues tier + sum_tiers tiers
