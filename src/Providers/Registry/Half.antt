-- ===== src/Providers/Registry/Half.antt =====
-- One index of `ProviderRegistry` of core/providers/registry.py against the other.
use general_ai_core.Prelude.{
  ◌≡◌, refl, sym, ap, ◌∙◌, subst, ◌⊎◌, inl, inr, Bool, true, false, Option, none, some, is_some,
  Bool-cases, false≢true, Dict, lookup, insert, erase, lookup-insert, lookup-insert_self,
  lookup-erase, nat_eq, string_eq, Eq, ◌==◌, if◌then◌else◌,
}
use general_ai_core.Providers.Registry.{RegisteredProvider}

module _ {K : Type 0} ⦃eq : Eq K⦄ where
  -- What stands under a key after an assignment, and after a deletion.
  pub inserted :
      (k j : K) (a b : RegisteredProvider) (d : Dict K RegisteredProvider)
      → lookup j (insert k a d) ≡ some b
      → ((k ≡ j) × (a ≡ b)) ⊎ (((k == j) ≡ false) × (lookup j d ≡ some b))
  inserted k j a b d h = elim (Bool-cases (k == j)) [
    | inl own ↦
        inl ((eq.beq_iff k j).0 own, same_entry (sym (lookup-insert k j a d ∙ rw own refl) ∙ h))
    | inr other ↦ inr (other, sym (lookup-insert k j a d ∙ rw other refl) ∙ h)
  ]
    where
      same_entry : {x y : RegisteredProvider} → some x ≡ some y → x ≡ y
      same_entry e = cc

  pub erased :
      (k j : K) (b : RegisteredProvider) (d : Dict K RegisteredProvider)
      → lookup j (erase k d) ≡ some b
      → ((k == j) ≡ false) × (lookup j d ≡ some b)
  erased k j b d h = elim (Bool-cases (k == j)) [
    | inl own ↦ absurd (nothing (sym (gone own) ∙ h))
    | inr other ↦ (other, sym (lookup-erase k j d ∙ rw other refl) ∙ h)
  ]
    where
      gone : (k == j) ≡ true → lookup j (erase k d) ≡ none
      gone own = lookup-erase k j d ∙ rw own refl

      nothing : {x : RegisteredProvider} → none ≡ some x → ⊥
      nothing e = false≢true (ap is_some e)

pub else_branch :
    (b : Bool) (x : Option RegisteredProvider) {y z : Option RegisteredProvider}
    → b ≡ false
    → y ≡ z
    → (if b then x else y) ≡ z
else_branch b x p q = rw p q

-- Every entry of one index stands under its own key there, and under its own key of the other index.
abbrev pub Half :
    {K L : Type 0} ⦃e1 : Eq K⦄ ⦃e2 : Eq L⦄
    → (RegisteredProvider → K)
    → (RegisteredProvider → L)
    → Dict K RegisteredProvider
    → Dict L RegisteredProvider
    → Type 0
Half {K = K} f g d d' =
    (k : K) (e : RegisteredProvider) → lookup k d ≡ some e → (f e ≡ k) × (lookup (g e) d' ≡ some e)

module _ {K L : Type 0} ⦃e1 : Eq K⦄ ⦃e2 : Eq L⦄ (f : RegisteredProvider → K)
    (g : RegisteredProvider → L) where
  -- A new entry whose keys are free.
  pub Half-insert :
      (e : RegisteredProvider) (d : Dict K RegisteredProvider) (d' : Dict L RegisteredProvider)
      → Half f g d d'
      → lookup (g e) d' ≡ none
      → Half f g (insert (f e) e d) (insert (g e) e d')
  Half-insert e d d' c free k b h = elim (inserted (f e) k e b d h) [
    | inl (here, same) ↦ (
      subst (λ x. f x ≡ k) same here,
      subst (λ x. lookup (g x) (insert (g e) e d') ≡ some x) same (lookup-insert_self (g e) e d'),
    )
    | inr (other, old) ↦
        let (own, there) = c k b old in
        (
          own,
          elim (Bool-cases (g e == g b)) [
            | inl same ↦ absurd (
                nothing (
                  sym free
                  ∙ subst (λ i. lookup i d' ≡ some b) (sym ((e2.beq_iff (g e) (g b)).0 same))
                      there))
            | inr differ ↦
                lookup-insert (g e) (g b) e d' ∙ else_branch (g e == g b) (some e) differ there
          ],
        )
  ]
    where
      nothing : {x : RegisteredProvider} → none ≡ some x → ⊥
      nothing e = false≢true (ap is_some e)

  -- An entry is deleted from both.
  pub Half-erase :
      (e : RegisteredProvider) (d : Dict K RegisteredProvider) (d' : Dict L RegisteredProvider)
      → Half f g d d'
      → lookup (f e) d ≡ some e
      → Half f g (erase (f e) d) (erase (g e) d')
  Half-erase e d d' c there k b h =
      let (other, old) = erased (f e) k b d h in
      let (own, found) = c k b old in
      (
        own,
        elim (Bool-cases (g e == g b)) [
          | inl same ↦
              let mine = (c (f e) e there).1 in
              let one : e ≡ b = same_entry (
                sym (subst (λ i. lookup i d' ≡ some e) ((e2.beq_iff (g e) (g b)).0 same) mine)
                ∙ found) in
              absurd (false≢true (sym other ∙ (e1.beq_iff (f e) k).1 (ap f one ∙ own)))
          | inr differ ↦ lookup-erase (g e) (g b) d' ∙ else_branch (g e == g b) none differ found
        ],
      )
    where
      same_entry : {x y : RegisteredProvider} → some x ≡ some y → x ≡ y
      same_entry e = cc
