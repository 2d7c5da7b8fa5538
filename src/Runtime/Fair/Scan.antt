-- ===== src/Runtime/Fair/Scan.antt =====
-- The scan of a tier by `FairScheduler` of core/runtime/admission.py.
use general_ai_core.Prelude.{
  ℕ, ◌≡◌, refl, sym, ap, ◌∙◌, String, List, [], ◌∷◌, ◌++◌, Option, none, some, is_some, lookup,
  insert, contains, length, All, string_eq, ok, err, append_nil, append_assoc, false≢true, true,
}
use general_ai_core.Runtime.Fair.{Fifo, Tier, Scan, serve, scan}

-- The tenant has an empty queue in the tier.
abbrev pub IsIdle : Tier → String → Type 0
IsIdle tier tenant = lookup tenant tier ≡ some []

abbrev pub HasQueue : Tier → String → Type 0
HasQueue tier tenant = contains tenant tier ≡ true

-- A scan of the tenants `todo`, with `done` behind them: either all are idle, and the rotation is as it was;
-- or the first one that is not idle was served the first item of its queue, and went to the end.
abbrev pub IsScanned : {P : Type 0} → Tier → List String → List String → Scan P → Type 0
IsScanned tier todo done (err x, r) = ⊥
IsScanned tier todo done (ok none, (rotation, tier')) =
    (rotation ≡ done ++ todo) × (tier' ≡ tier) × All (IsIdle tier) todo
IsScanned tier todo done (ok (some (tenant, item)), (rotation, tier')) =
    (before : List String) × (behind : List String) × (number : ℕ) × (queue : Fifo) × (todo
      ≡ before ++ tenant ∷ behind)
    × All (IsIdle tier) before
    × (lookup tenant tier ≡ some ((number, item) ∷ queue))
    × (rotation ≡ behind ++ (done ++ (before ++ tenant ∷ [])))
    × (tier' ≡ insert tenant queue tier)

-- A tenant that was idle, in front of the scan of the others.
IsScanned-behind :
    {P : Type 0} (tier : Tier) (tenant : String) (todo done : List String) (r : Scan P)
    → IsIdle tier tenant
    → IsScanned tier todo (done ++ tenant ∷ []) r
    → IsScanned tier (tenant ∷ todo) done r
IsScanned-behind tier tenant todo done (ok none, (rotation, tier')) idle (e, f, all) =
    (e ∙ append_assoc done (tenant ∷ []) todo, f, (idle, all))
IsScanned-behind tier tenant todo done (ok (some (t, item)), (rotation, tier')) idle
      (before, behind, number, queue, split, all, found, e, f) =
    (
      tenant ∷ before,
      behind,
      number,
      queue,
      ap (◌∷◌ tenant) split,
      (idle, all),
      found,
      e ∙ ap (◌++◌ behind) (append_assoc done (tenant ∷ []) (before ++ t ∷ [])),
      f,
    )
IsScanned-behind tier tenant todo done (err x, r) idle h = absurd h

pub scan-IsScanned :
    (P : Type 0) (todo done : List String) (tier : Tier)
    → All (HasQueue tier) todo
    → IsScanned {P = P} tier todo done (scan (length todo) (todo ++ done) tier)
scan-IsScanned P [] done tier h = (sym (append_nil done), refl, tt)
scan-IsScanned P (tenant ∷ todo) done tier h =
    served (lookup tenant tier) refl (scan-IsScanned P todo (done ++ tenant ∷ []) tier h.1)
  where
    rounds : List String → Scan P
    rounds r = scan (length todo) r tier

    served :
        (q : Option Fifo)
        → lookup tenant tier ≡ q
        → IsScanned {P = P} tier todo (done ++ tenant ∷ []) (rounds (todo ++ (done ++ tenant ∷ [])))
        → IsScanned {P = P} tier
            (tenant ∷ todo)
            done
            (serve rounds tenant ((todo ++ done) ++ tenant ∷ []) tier q)
    served none e rest = absurd (false≢true (sym (ap is_some e) ∙ h.0))
    served (some []) e rest =
        IsScanned-behind tier tenant todo done (rounds ((todo ++ done) ++ tenant ∷ [])) e
          (rw (append_assoc todo done (tenant ∷ [])) rest)
    served (some ((number, item) ∷ queue)) e rest =
        ([], todo, number, queue, refl, tt, e, append_assoc todo done (tenant ∷ []), refl)
