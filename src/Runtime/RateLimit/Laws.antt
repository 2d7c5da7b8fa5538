-- ===== src/Runtime/RateLimit/Laws.antt =====
-- What the fixed-window counter admits.
use general_ai_core.Prelude.{
  ℕ, ◌+◌, ◌-◌, ◌<◌, ◌≡◌, Bool, true, false, ◌&&◌, none, String, List, [], ◌∷◌, arith, lookup,
  insert, ◌==◌, nat_eq, string_eq, pair_eq, if◌then◌else◌, Result, ok, err, after, lookup-insert,
  get_or, ◌/◌, beq_self, length, ltb, leb, All,
}
use Prim.Native.Nat.{min}
use general_ai_core.Runtime.RateLimit.{ClockError, Windows, prune, hit}

-- The hits that a scope has had in a window.
abbrev pub count_in : String → ℕ → Windows → ℕ
count_in scope window w = get_or (lookup (scope, window) w) 0

-- Pruning keeps the counts of every other scope, and of the windows that are not older.
lookup-prune :
    (scope k : String) (window i : ℕ) (w : Windows)
    → lookup (k, i) (prune scope window w)
      ≡ (if k == scope && ltb i window then none else lookup (k, i) w)
lookup-prune scope k window i [] = ground arith
lookup-prune scope k window i (((j, n), c) ∷ w) = ground (
  arith,
  string_eq.beq_iff j scope,
  string_eq.beq_iff k scope,
  string_eq.beq_iff j k,
  lookup-prune scope k window i w,
)

-- One hit in a window of positive width is counted, and it is admitted exactly when the count with
-- it is within the limit. The count of a window of another scope, and of a later window, stays.
pub hit_counts :
    (now : ℕ) (scope : String) (limit width : ℕ) (w : Windows)
    → 0 < width
    → (w' : Windows) × (hit now scope limit width w
        ≡ ok (leb (count_in scope (now / width) w + 1) limit, w'))
      × ((k : String) (i : ℕ)
          → count_in k i w' ≡ (
              if k == scope
              then (if ltb i (now / width)
                  then 0
                  else (if i == now / width
                      then count_in scope (now / width) w + 1
                      else count_in k i w))
              else count_in k i w))
unfolding hit
hit_counts now scope limit width w pos =
    let window = now / width in
    let pruned : Windows = prune scope window w in
    let same : lookup (scope, window) pruned ≡ lookup (scope, window) w =
      ground (arith, lookup-prune scope scope window window w, beq_self scope) in
    let count : ℕ = get_or (lookup (scope, window) pruned) 0 + 1 in
    (
      insert (scope, window) count pruned,
      ground (arith, same),
      λ k i. ground (
        arith,
        same,
        lookup-insert (scope, window) (k, i) count pruned,
        lookup-prune scope k window i w,
        string_eq.beq_iff k scope,
        string_eq.beq_iff scope k,
      ),
    )

-- The state after a call, and whether it admitted.
abbrev pub admits : Result ClockError (Bool × Windows) → ℕ
admits (ok (true, w)) = 1
admits (ok (false, w)) = 0
admits (err e) = 0

-- The number of hits that are admitted, of hits at the given times.
pub admitted : List ℕ → String → ℕ → ℕ → Windows → ℕ
admitted [] scope limit width w = 0
admitted (t ∷ ts) scope limit width w =
    admits (hit t scope limit width w)
    + admitted ts scope limit width (after w (hit t scope limit width w))

-- Of hits on one scope that all fall in one window, exactly as many are admitted as the limit
-- leaves beside the hits that the window has had, and no more than there are.
pub admitted-window :
    (ts : List ℕ) (scope : String) (limit width window : ℕ) (w : Windows)
    → 0 < width
    → All (λ t. t / width ≡ window) ts
    → admitted ts scope limit width w ≡ min (length ts) (limit - count_in scope window w)
unfolding admitted
admitted-window [] scope limit width window w pos h = omega arith
admitted-window (t ∷ ts) scope limit width window w pos h =
    let (w', done, counts) = hit_counts t scope limit width w pos in
    let rest = admitted-window ts scope limit width window w' pos h.1 in
    let c : count_in scope window w' ≡ count_in scope window w + 1 =
      ground (arith, counts scope window, h.0, beq_self scope) in
    rw done (ground (arith, rest, c, h.0))
