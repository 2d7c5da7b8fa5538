-- ===== src/Providers/Accounts/Ownership.antt =====
-- The never-mix rule of `AccountPool` of core/providers/accounts.py, over any history of its calls.
use general_ai_core.Prelude.{
  ℕ, ◌≡◌, refl, sym, ap, ◌∙◌, subst, ◌⊎◌, inl, inr, List, [], ◌∷◌, Bool, true, false, Option, none,
  some, is_some, Bool-cases, false≢true, Option-cases, Dict, lookup, insert, contains,
  lookup-insert, nat_eq, ◌==◌, after,
}
use general_ai_core.Providers.{OwnerType, platform, tenant, user, Credential, ProviderAccount}
use general_ai_core.Providers.Pool.{
  AccountPool, empty_pool, is_platform, differs, is_mixed, side_after, register, replace_account,
}

pub data PoolCall : Type 0 where
  registers : ProviderAccount → Credential → PoolCall
  replaces : ProviderAccount → PoolCall

-- The pool after a call; a call that raises leaves it as it was.
abbrev pub step : PoolCall → AccountPool → AccountPool
step (registers a c) pool = after pool (register a c pool)
step (replaces a) pool = after pool (replace_account a pool)

abbrev pub run : List PoolCall → AccountPool → AccountPool
run [] pool = pool
run (c ∷ cs) pool = run cs (step c pool)

-- An account stands under its own id, has a credential, and is on the pool's side.
abbrev pub IsKept : AccountPool → ℕ → ProviderAccount → Type 0
IsKept pool id a =
    (a.id ≡ id)
    × (contains id pool.credentials ≡ true)
    × (s : OwnerType) × (pool.side ≡ some s)
    × (is_platform a.owner_type ≡ is_platform s)

abbrev pub IsOneSided : AccountPool → Type 0
IsOneSided pool =
    (id : ℕ) (a : ProviderAccount) → lookup id pool.accounts ≡ some a → IsKept pool id a

same_side : (b c : Bool) → differs b c ≡ false → b ≡ c
same_side true true h = refl
same_side false false h = refl
same_side true false h = h
same_side false true h = sym h

-- What stands under an id after an assignment.
inserted :
    (id i : ℕ) (a b : ProviderAccount) (d : Dict ℕ ProviderAccount)
    → lookup i (insert id a d) ≡ some b
    → ((id ≡ i) × (a ≡ b)) ⊎ (((id == i) ≡ false) × (lookup i d ≡ some b))
inserted id i a b d h = elim (Bool-cases (id == i)) [
  | inl own ↦
      inl ((nat_eq.beq_iff id i).0 own, some_inj (sym (lookup-insert id i a d ∙ rw own refl) ∙ h))
  | inr other ↦ inr (other, sym (lookup-insert id i a d ∙ rw other refl) ∙ h)
]
  where
    some_inj : {x y : ProviderAccount} → some x ≡ some y → x ≡ y
    some_inj e = cc

-- The side that a pool has after a registration is the account's and the old one.
new_side :
    (side : Option OwnerType) (owner : OwnerType)
    → is_mixed side owner ≡ false
    → (s : OwnerType) × (side_after side owner ≡ some s) × (is_platform owner ≡ is_platform s)
new_side none platform h = (platform, refl, refl)
new_side none tenant h = (tenant, refl, refl)
new_side none user h = (user, refl, refl)
new_side (some s) owner h = (s, refl, sym (same_side (is_platform s) (is_platform owner) h))

old_side :
    (side : Option OwnerType) (owner s : OwnerType) → side ≡ some s → side_after side owner ≡ some s
old_side none owner s h = cc
old_side (some t) owner s h = h

pub register-IsOneSided :
    (a : ProviderAccount) (c : Credential) (pool : AccountPool)
    → IsOneSided pool
    → IsOneSided (step (registers a c) pool)
unfolding register
register-IsOneSided a c pool k = elim (Bool-cases (a.provider_id == pool.provider_id)) [
  | inr foreign ↦ rw foreign k
  | inl own ↦ elim (Bool-cases (a.credential_id == c.id)) [
    | inr other ↦ rw own (rw other k)
    | inl cred ↦ elim (Bool-cases (is_mixed pool.side a.owner_type)) [
      | inl mixed ↦ rw own (rw cred (rw mixed k))
      | inr pure_side ↦ elim (Bool-cases (contains a.id pool.accounts)) [
        | inl twice ↦ rw own (rw cred (rw pure_side (rw twice k)))
        | inr fresh ↦ rw own (rw cred (rw pure_side (rw fresh (λ id b h. added pure_side id b h))))
      ]
    ]
  ]
]
  where
    grown : AccountPool
    grown = record pool {
      accounts = insert a.id a pool.accounts;
      credentials = insert a.id c pool.credentials;
      side = side_after pool.side a.owner_type;
    }

    added :
        is_mixed pool.side a.owner_type ≡ false
        → (id : ℕ) (b : ProviderAccount) → lookup id grown.accounts ≡ some b
        → IsKept grown id b
    added side id b h = elim (inserted a.id id a b pool.accounts h) [
      | inl (same_id, same) ↦
          let (s, e, on) = new_side pool.side a.owner_type side in
          (
            sym (ap (λ (x : ProviderAccount). x.id) same) ∙ same_id,
            rw (lookup-insert a.id id c pool.credentials, (nat_eq.beq_iff a.id id).1 same_id) refl,
            s,
            e,
            subst (λ (x : ProviderAccount). is_platform x.owner_type ≡ is_platform s) same on,
          )
      | inr (other, old) ↦
          let (i, held, s, e, on) = k id b old in
          (
            i,
            rw (lookup-insert a.id id c pool.credentials, other) held,
            s,
            old_side pool.side a.owner_type s e,
            on,
          )
    ]

pub replace-IsOneSided :
    (a : ProviderAccount) (pool : AccountPool)
    → IsOneSided pool
    → IsOneSided (step (replaces a) pool)
unfolding replace_account
replace-IsOneSided a pool k = elim (Option-cases (lookup a.id pool.accounts)) [
  | inl absent ↦ rw absent k
  | inr (b, found) ↦
      elim (Bool-cases (differs (is_platform b.owner_type) (is_platform a.owner_type))) [
        | inl changed ↦ rw found (rw changed k)
        | inr same ↦ rw found (
            rw same (λ id x h. elim (inserted a.id id a x pool.accounts h) [
              | inr (other, old) ↦ k id x old
              | inl (same_id, eq) ↦
                  let (i, held, s, e, on) = k a.id b found in
                  (
                    sym (ap (λ (y : ProviderAccount). y.id) eq) ∙ same_id,
                    subst (λ j. contains j pool.credentials ≡ true) same_id held,
                    s,
                    e,
                    subst (λ (y : ProviderAccount). is_platform y.owner_type ≡ is_platform s) eq
                        (sym (same_side (is_platform b.owner_type) (is_platform a.owner_type) same)
                          ∙ on),
                  )
            ]))
      ]
]

-- Accounts of the platform and those of users never mix: over any history of registrations and replacements,
-- whichever of them raise, all accounts of a pool are on one side, the platform's or the users', which is the
-- side that the pool has noted; and every account stands under its own id and has a credential.
pub never_mixed :
    (provider_id : ℕ) (calls : List PoolCall) → IsOneSided (run calls (empty_pool provider_id))
never_mixed provider_id calls =
    go calls (empty_pool provider_id) (λ id a h. absurd (false≢true (ap is_some h)))
  where
    go : (cs : List PoolCall) (pool : AccountPool) → IsOneSided pool → IsOneSided (run cs pool)
    go [] pool k = k
    go (registers a c ∷ cs) pool k =
        go cs (step (registers a c) pool) (register-IsOneSided a c pool k)
    go (replaces a ∷ cs) pool k = go cs (step (replaces a) pool) (replace-IsOneSided a pool k)
