-- ===== src/Prelude/Sums.antt =====
-- The sum of a weight over the entries of a dict, and what an update changes of it.
use mathlib.Core.Path.{◌≡◌}
use mathlib.Core.Option.{none, some}
use mathlib.Core.List.{[], ◌∷◌}
use native.Mathlib.Omega.{arith}
use general_ai_core.Prelude.Equality.{Eq}
use general_ai_core.Prelude.Dicts.{Dict, lookup, insert}
use general_ai_core.Prelude.Lists.{All}
use general_ai_core.Prelude.Int.{ℤ, pos, ◌+ℤ◌, int_laws}

abbrev pub weigh {ℓ κ} : {K : Type ℓ} {V : Type κ} → (V → ℤ) → Dict K V → ℤ
weigh f [] = pos 0
weigh f ((k, v) ∷ d) = f v +ℤ weigh f d

module _ {ℓ κ} {K : Type ℓ} {V : Type κ} ⦃e : Eq K⦄ where
  pub weigh-insert_new :
      (f : V → ℤ) (k : K) (v : V) (d : Dict K V)
      → lookup k d ≡ none
      → weigh f (insert k v d) ≡ weigh f d +ℤ f v
  weigh-insert_new f k v [] h = omega int_laws
  weigh-insert_new f k v ((j, w) ∷ d) h = grind (int_laws, weigh-insert_new f k v d)

  pub weigh-insert :
      (f : V → ℤ) (k : K) (v old : V) (d : Dict K V)
      → lookup k d ≡ some old
      → weigh f (insert k v d) +ℤ f old ≡ weigh f d +ℤ f v
  weigh-insert f k v old [] h = cc
  weigh-insert f k v old ((j, w) ∷ d) h = grind (int_laws, weigh-insert f k v old d)

  -- A property of every value of a dict.
  abbrev pub AllValues {μ} : (V → Type μ) → Dict K V → Type μ
  AllValues P = All (λ p. P p.1)

  pub AllValues-insert {μ} :
      (P : V → Type μ) (k : K) (v : V) (d : Dict K V)
      → AllValues P d
      → P v
      → AllValues P (insert k v d)
  AllValues-insert P k v [] h p = (p, tt)
  AllValues-insert P k v ((j, w) ∷ d) h p = ground (arith, AllValues-insert P k v d h.1 p)

  pub AllValues-lookup {μ} :
      (P : V → Type μ) (k : K) (v : V) (d : Dict K V) → AllValues P d → lookup k d ≡ some v → P v
  AllValues-lookup P k v [] h q = cc
  AllValues-lookup P k v ((j, w) ∷ d) h q = ground (arith, AllValues-lookup P k v d h.1)
