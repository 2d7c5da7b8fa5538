-- ===== src/Prelude/Sorted.antt =====
-- Dicts in the order of their keys: Python's `sorted` over a dict, and the fact that a dict in order
-- is known by its lookups.
use mathlib.Core.Path.{◌≡◌, refl, sym, subst, ◌∙◌}
use mathlib.Core.Logic.{inl, inr}
use mathlib.Core.Bool.{Bool, true, false, false≢true}
use mathlib.Core.Option.{none, some}
use mathlib.Core.List.{[], ◌∷◌}
use native.Mathlib.Omega.{arith}
use Prim.Native.Nat.{ℕ}
use general_ai_core.Prelude.Tests.{if◌then◌else◌, Bool-cases, ltb}
use general_ai_core.Prelude.Equality.{Eq, ◌==◌, beq_self}
use general_ai_core.Prelude.Dicts.{Dict, lookup}

-- A strict order as a Boolean test, such as Python's `<` on strings.
pub record Order {ℓ} (K : Type ℓ) : Type ℓ where
  pub less : K → K → Bool
  pub irrefl : (a : K) → less a a ≡ false
  pub trans : (a b c : K) → less a b ≡ true → less b c ≡ true → less a c ≡ true
  pub total : (a b : K) → less a b ≡ false → less b a ≡ false → a ≡ b

module _ {ℓ κ} {K : Type ℓ} {V : Type κ} ⦃e : Eq K⦄ ⦃o : Order K⦄ where
  -- One key at its place in the order.
  abbrev pub put : K → V → Dict K V → Dict K V
  put k v [] = (k, v) ∷ []
  put k v ((j, w) ∷ d) =
      if o.less k j then (k, v) ∷ (j, w) ∷ d else if j == k then (k, v) ∷ d else (j, w) ∷ put k v d

  -- `{k: d[k] for k in sorted(d)}`
  abbrev pub sort : Dict K V → Dict K V
  sort [] = []
  sort ((k, v) ∷ d) = put k v (sort d)

  lookup-put :
      (k j : K) (v : V) (d : Dict K V)
      → lookup j (put k v d) ≡ (if k == j then some v else lookup j d)
  lookup-put k j v [] = refl
  lookup-put k j v ((i, w) ∷ d) =
      ground (arith, e.beq_iff k j, e.beq_iff i k, e.beq_iff i j, lookup-put k j v d)

  pub lookup-sort : (j : K) (d : Dict K V) → lookup j (sort d) ≡ lookup j d
  lookup-sort j [] = refl
  lookup-sort j ((k, v) ∷ d) = ground (arith, lookup-put k j v (sort d), lookup-sort j d)

  -- Every key is above the given one.
  abbrev pub IsAbove : K → Dict K V → Type 0
  IsAbove k [] = Unit
  IsAbove k ((j, w) ∷ d) = (o.less k j ≡ true) × IsAbove k d

  abbrev pub IsSorted : Dict K V → Type 0
  IsSorted [] = Unit
  IsSorted ((k, v) ∷ d) = IsAbove k d × IsSorted d

  IsAbove-trans : (k j : K) (d : Dict K V) → o.less k j ≡ true → IsAbove j d → IsAbove k d
  IsAbove-trans k j [] h a = tt
  IsAbove-trans k j ((i, w) ∷ d) h a = (o.trans k j i h a.0, IsAbove-trans k j d h a.1)

  IsAbove-put :
      (k j : K) (v : V) (d : Dict K V) → o.less j k ≡ true → IsAbove j d → IsAbove j (put k v d)
  IsAbove-put k j v [] h a = (h, tt)
  IsAbove-put k j v ((i, w) ∷ d) h a = ground (arith, IsAbove-put k j v d h a.1)

  IsSorted-put : (k : K) (v : V) (d : Dict K V) → IsSorted d → IsSorted (put k v d)
  IsSorted-put k v [] s = (tt, tt)
  IsSorted-put k v ((j, w) ∷ d) s = elim (Bool-cases (o.less k j)) [
    | inl below ↦ rw below ((below, IsAbove-trans k j d below s.0), s)
    | inr not_below ↦ rw not_below (elim (Bool-cases (j == k)) [
      | inl same ↦ rw same (subst (λ i. IsAbove i d) ((e.beq_iff j k).0 same) s.0, s.1)
      | inr other ↦
          rw other (IsAbove-put k j v d (above not_below other) s.0, IsSorted-put k v d s.1)
    ])
  ]
    where
      above : o.less k j ≡ false → (j == k) ≡ false → o.less j k ≡ true
      above p q = elim (Bool-cases (o.less j k)) [
        | inl h ↦ h
        | inr h ↦ absurd (false≢true (sym q ∙ (e.beq_iff j k).1 (o.total j k h p)))
      ]

  pub sort-IsSorted : (d : Dict K V) → IsSorted (sort d)
  sort-IsSorted [] = tt
  sort-IsSorted ((k, v) ∷ d) = IsSorted-put k v (sort d) (sort-IsSorted d)

  lookup_below : (k : K) (d : Dict K V) → IsAbove k d → lookup k d ≡ none
  lookup_below k [] a = refl
  lookup_below k ((j, w) ∷ d) a = elim (Bool-cases (j == k)) [
    | inl same ↦ absurd (
        false≢true (sym (o.irrefl k) ∙ subst (λ i. o.less k i ≡ true) ((e.beq_iff j k).0 same) a.0))
    | inr other ↦ rw other (lookup_below k d a.1)
  ]

  missing_head :
      (k : K) (v : V) (d f : Dict K V) → IsAbove k f → lookup k ((k, v) ∷ d) ≡ lookup k f → ⊥
  missing_head k v d f a h = ground (arith, h, beq_self k, lookup_below k f a)

  same_rest :
      (k i : K) (v w : V) (d f : Dict K V)
      → IsAbove k d
      → IsAbove k f
      → lookup i ((k, v) ∷ d) ≡ lookup i ((k, w) ∷ f)
      → lookup i d ≡ lookup i f
  same_rest k i v w d f a b h = elim (Bool-cases (k == i)) [
    | inl same ↦
        subst (λ n. lookup n d ≡ lookup n f) ((e.beq_iff k i).0 same)
          (lookup_below k d a ∙ sym (lookup_below k f b))
    | inr other ↦ rw other at h
  ]

  same_key :
      (k : K) (v : V) (d f : Dict K V) (j : K) (w : V)
      → k ≡ j
      → IsSorted ((k, v) ∷ d)
      → IsSorted ((j, w) ∷ f)
      → ((i : K) → lookup i ((k, v) ∷ d) ≡ lookup i ((j, w) ∷ f))
      → (IsAbove k f → ((i : K) → lookup i ((k, v) ∷ d) ≡ lookup i ((k, w) ∷ f)) → d ≡ f)
      → ◌≡◌ {A = Dict K V} ((k, v) ∷ d) ((j, w) ∷ f)
  same_key k v d f j w q s t h rest =
      let h' : (i : K) → lookup i ((k, v) ∷ d) ≡ lookup i ((k, w) ∷ f) =
        subst (λ n. (i : K) → lookup i ((k, v) ∷ d) ≡ lookup i ((n, w) ∷ f)) (sym q) h in
      let tails = rest (subst (λ n. IsAbove n f) (sym q) t.0) h' in
      let heads : v ≡ w = ground (arith, h' k, beq_self k) in cc

  -- Two dicts in order with the same lookups are the same list.
  pub eq_of_lookup :
      (d f : Dict K V) → IsSorted d → IsSorted f → ((k : K) → lookup k d ≡ lookup k f) → d ≡ f
  eq_of_lookup [] [] s t h = refl
  eq_of_lookup [] ((j, w) ∷ f) s t h = absurd (missing_head j w f [] tt (sym (h j)))
  eq_of_lookup ((k, v) ∷ d) [] s t h = absurd (missing_head k v d [] tt (h k))
  eq_of_lookup ((k, v) ∷ d) ((j, w) ∷ f) s t h = elim (Bool-cases (o.less k j)) [
    | inl below ↦
        absurd (missing_head k v d ((j, w) ∷ f) (below, IsAbove-trans k j f below t.0) (h k))
    | inr not_below ↦ elim (Bool-cases (o.less j k)) [
      | inl above ↦
          absurd
            (missing_head j w f ((k, v) ∷ d) (above, IsAbove-trans j k d above s.0) (sym (h j)))
      | inr not_above ↦
          same_key k v d f j w (o.total k j not_below not_above) s t h
            (λ b q. eq_of_lookup d f s.1 t.1 (λ i. same_rest k i v w d f s.0 b (q i)))
    ]
  ]

pub ltb_irrefl : (a : ℕ) → ltb a a ≡ false
ltb_irrefl a = ground arith

pub ltb_trans : (a b c : ℕ) → ltb a b ≡ true → ltb b c ≡ true → ltb a c ≡ true
ltb_trans a b c h k = ground arith

pub ltb_total : (a b : ℕ) → ltb a b ≡ false → ltb b a ≡ false → a ≡ b
ltb_total a b h k = ground arith

-- The order of numbers.
instance abbrev pub nat_order : Order ℕ
nat_order = record { less = ltb; irrefl = ltb_irrefl; trans = ltb_trans; total = ltb_total }
