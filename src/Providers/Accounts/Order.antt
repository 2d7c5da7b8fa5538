-- ===== src/Providers/Accounts/Order.antt =====
-- The order in which `AccountPoolManager` of core/providers/accounts.py tries the eligible accounts.
use general_ai_core.Prelude.{
  ℕ, ◌≡◌, ◌≢◌, ◌↔◌, refl, sym, ◌∙◌, subst, arith, ◌⊎◌, inl, inr, List, [], ◌∷◌, ◌++◌, Bool, true,
  false, not, Bool-cases, false≢true, Dict, nat_eq, string_eq, pair_eq, All, All-map, append_nil,
  keep,
}
use general_ai_core.Providers.{
  CredentialPolicy, platform_only, user_only, prefer_user, auto, ProviderAccount,
}
use general_ai_core.Providers.Pool.{is_platform}
use general_ai_core.Providers.Accounts.{
  Manager, lru_before, put_account, lru_sorted, by_policy, ordered,
}

-- The account is one of the list.
abbrev pub In : ProviderAccount → List ProviderAccount → Type 0
In a [] = ⊥
In a (b ∷ bs) = (b ≡ a) ⊎ In a bs

-- The order of the candidates does not change which they are.
In-put_account :
    (used : Dict ℕ ℕ) (a x : ProviderAccount) (bs : List ProviderAccount)
    → In x (put_account used a bs) ↔ In x (a ∷ bs)
In-put_account used a x [] = ((λ h. h), (λ h. h))
In-put_account used a x (b ∷ bs) =
    let rest = In-put_account used a x bs in
    elim (Bool-cases (lru_before used b a)) [
      | inl before ↦ rw before (swap rest)
      | inr behind ↦ rw behind ((λ h. h), (λ h. h))
    ]
  where
    swap : {A B C D : Type 0} → (A ↔ (B ⊎ C)) → (D ⊎ A) ↔ (B ⊎ (D ⊎ C))
    swap r = (
      (λ h. elim h [
        | inl d ↦ inr (inl d)
        | inr a ↦ elim (r.0 a) [ inl b ↦ inl b | inr c ↦ inr (inr c) ]
      ]),
      (λ h. elim h [
        | inl b ↦ inr (r.1 (inl b))
        | inr k ↦ elim k [ inl d ↦ inl d | inr c ↦ inr (r.1 (inr c)) ]
      ]),
    )

In-lru_sorted :
    (used : Dict ℕ ℕ) (x : ProviderAccount) (bs : List ProviderAccount)
    → In x (lru_sorted used bs) ↔ In x bs
In-lru_sorted used x [] = ((λ h. h), (λ h. h))
In-lru_sorted used x (b ∷ bs) =
    let one = In-put_account used b x (lru_sorted used bs) in
    let rest = In-lru_sorted used x bs in
    (
      (λ h. elim (one.0 h) [ inl e ↦ inl e | inr k ↦ inr (rest.0 k) ]),
      (λ h. one.1 (elim h as (λ z. (b ≡ x) ⊎ In x (lru_sorted used bs)) [
        | inl e ↦ inl e
        | inr k ↦ inr (rest.1 k)
      ])),
    )

In-append :
    (x : ProviderAccount) (xs bs : List ProviderAccount) → In x (xs ++ bs) ↔ (In x xs ⊎ In x bs)
In-append x [] bs = ((λ h. inr h), (λ h. elim h [ inl none_here ↦ absurd none_here | inr k ↦ k ]))
In-append x (a ∷ xs) bs =
    let r = In-append x xs bs in
    (
      (λ h. elim h [
        | inl e ↦ inl (inl e)
        | inr k ↦ elim (r.0 k) [ inl l ↦ inl (inr l) | inr m ↦ inr m ]
      ]),
      (λ h. elim h [
        | inl l ↦ elim l [ inl e ↦ inl e | inr k ↦ inr (r.1 (inl k)) ]
        | inr m ↦ inr (r.1 (inr m))
      ]),
    )

pub In-keep :
    (p : ProviderAccount → Bool) (x : ProviderAccount) (bs : List ProviderAccount)
    → In x (keep p bs) ↔ (In x bs × (p x ≡ true))
In-keep p x [] = ((λ h. absurd h), (λ h. h.0))
In-keep p x (b ∷ bs) =
    let r = In-keep p x bs in
    elim (Bool-cases (p b)) [
      | inl kept ↦ rw kept (
        (λ h. elim h [
          | inl e ↦ (inl e, subst (λ y. p y ≡ true) e kept)
          | inr k ↦ (inr (r.0 k).0, (r.0 k).1)
        ]),
        (λ h. elim h.0 [ inl e ↦ inl e | inr k ↦ inr (r.1 (k, h.1)) ]),
      )
      | inr not_kept ↦ rw not_kept (
        (λ h. (inr (r.0 h).0, (r.0 h).1)),
        (λ h. elim h.0 [
          | inl e ↦ absurd (false≢true (sym not_kept ∙ subst (λ y. p y ≡ true) (sym e) h.1))
          | inr k ↦ r.1 (k, h.1)
        ]),
      )
    ]

In-by_policy :
    (p : CredentialPolicy) (x : ProviderAccount) (bs : List ProviderAccount)
    → In x (by_policy p bs) ↔ In x bs
In-by_policy platform_only x bs = ((λ h. h), (λ h. h))
In-by_policy user_only x bs = ((λ h. h), (λ h. h))
In-by_policy auto x bs = ((λ h. h), (λ h. h))
In-by_policy prefer_user x bs =
    let users = In-keep (λ a. not (is_platform a.owner_type)) x bs in
    let platforms = In-keep (λ a. is_platform a.owner_type) x bs in
    let both =
      In-append x (keep (λ a. not (is_platform a.owner_type)) bs)
        (keep (λ a. is_platform a.owner_type) bs) in
    (
      (λ h. elim (both.0 h) [ inl u ↦ (users.0 u).0 | inr p ↦ (platforms.0 p).0 ]),
      (λ h. elim (Bool-cases (is_platform x.owner_type)) [
        | inl on ↦ both.1 (inr (platforms.1 (h, on)))
        | inr off ↦ both.1 (inl (users.1 (h, rw off refl)))
      ]),
    )

pub In-ordered :
    (m : Manager) (p : CredentialPolicy) (x : ProviderAccount) (bs : List ProviderAccount)
    → In x (ordered m p bs) ↔ In x bs
In-ordered m p x bs =
    let outer = In-by_policy p x (lru_sorted m.last_used bs) in
    let inner = In-lru_sorted m.last_used x bs in
    ((λ h. inner.0 (outer.0 h)), (λ h. outer.1 (inner.1 h)))

-- The least recently used account first: no account stands before one whose last use is older.
abbrev pub IsLru : Dict ℕ ℕ → List ProviderAccount → Type 0
IsLru used [] = Unit
IsLru used (a ∷ bs) = All (λ b. lru_before used b a ≡ false) bs × IsLru used bs

lru_trans :
    (used : Dict ℕ ℕ) (a b c : ProviderAccount)
    → lru_before used b a ≡ false
    → lru_before used c b ≡ false
    → lru_before used c a ≡ false
lru_trans used a b c h k = ground (arith, h, k)

lru_asym :
    (used : Dict ℕ ℕ) (a b : ProviderAccount)
    → lru_before used a b ≡ true
    → lru_before used b a ≡ false
lru_asym used a b h = ground (arith, h)

All-put_account :
    (used : Dict ℕ ℕ) (P : ProviderAccount → Type 0) (a : ProviderAccount)
    (bs : List ProviderAccount)
    → P a
    → All P bs
    → All P (put_account used a bs)
All-put_account used P a [] h k = (h, tt)
All-put_account used P a (b ∷ bs) h k = elim (Bool-cases (lru_before used b a)) [
  | inl before ↦ rw before (k.0, All-put_account used P a bs h k.1)
  | inr behind ↦ rw behind (h, k)
]

IsLru-put_account :
    (used : Dict ℕ ℕ) (a : ProviderAccount) (bs : List ProviderAccount)
    → IsLru used bs
    → IsLru used (put_account used a bs)
IsLru-put_account used a [] h = (tt, tt)
IsLru-put_account used a (b ∷ bs) h = elim (Bool-cases (lru_before used b a)) [
  | inl before ↦ rw before (
    All-put_account used (λ c. lru_before used c b ≡ false) a bs (lru_asym used b a before) h.0,
    IsLru-put_account used a bs h.1,
  )
  | inr behind ↦ rw behind ((behind, All-map (λ c k. lru_trans used a b c behind k) bs h.0), h)
]

pub IsLru-lru_sorted :
    (used : Dict ℕ ℕ) (bs : List ProviderAccount) → IsLru used (lru_sorted used bs)
IsLru-lru_sorted used [] = tt
IsLru-lru_sorted used (b ∷ bs) =
    IsLru-put_account used b (lru_sorted used bs) (IsLru-lru_sorted used bs)

All-keep :
    (P : ProviderAccount → Type 0) (p : ProviderAccount → Bool) (bs : List ProviderAccount)
    → All P bs
    → All P (keep p bs)
All-keep P p [] h = tt
All-keep P p (b ∷ bs) h = elim (Bool-cases (p b)) [
  | inl kept ↦ rw kept (h.0, All-keep P p bs h.1)
  | inr left_out ↦ rw left_out (All-keep P p bs h.1)
]

IsLru-keep :
    (used : Dict ℕ ℕ) (p : ProviderAccount → Bool) (bs : List ProviderAccount)
    → IsLru used bs
    → IsLru used (keep p bs)
IsLru-keep used p [] h = tt
IsLru-keep used p (b ∷ bs) h = elim (Bool-cases (p b)) [
  | inl kept ↦
      rw kept (All-keep (λ c. lru_before used c b ≡ false) p bs h.0, IsLru-keep used p bs h.1)
  | inr left_out ↦ rw left_out (IsLru-keep used p bs h.1)
]

-- The order of the candidates: least recently used first, and under `prefer_user` so among the users'
-- accounts, which come first, and among the platform's.
abbrev pub IsOrdered : Dict ℕ ℕ → CredentialPolicy → List ProviderAccount → Type 0
IsOrdered used policy out =
    (first : List ProviderAccount) × (second : List ProviderAccount) × (out ≡ first ++ second)
    × IsLru used first
    × IsLru used second
    × ((policy ≡ prefer_user
        → ((a : ProviderAccount) → In a first → is_platform a.owner_type ≡ false)
          × ((a : ProviderAccount) → In a second → is_platform a.owner_type ≡ true)))
    × (policy ≢ prefer_user → second ≡ [])

pub ordered-IsOrdered :
    (m : Manager) (p : CredentialPolicy) (bs : List ProviderAccount)
    → IsOrdered m.last_used p (ordered m p bs)
ordered-IsOrdered m p bs = by p
  where
    sorted : List ProviderAccount
    sorted = lru_sorted m.last_used bs

    lru : IsLru m.last_used sorted
    lru = IsLru-lru_sorted m.last_used bs

    whole :
        (p : CredentialPolicy)
        → p ≢ prefer_user
        → by_policy p sorted ≡ sorted
        → IsOrdered m.last_used p (by_policy p sorted)
    whole p other e =
        (sorted, [], e ∙ sym (append_nil sorted), lru, tt, (λ q. absurd (other q)), (λ q. refl))

    by : (p : CredentialPolicy) → IsOrdered m.last_used p (by_policy p sorted)
    by platform_only = whole platform_only (λ e. cc) refl
    by user_only = whole user_only (λ e. cc) refl
    by auto = whole auto (λ e. cc) refl
    by prefer_user = (
      keep (λ a. not (is_platform a.owner_type)) sorted,
      keep (λ a. is_platform a.owner_type) sorted,
      refl,
      IsLru-keep m.last_used (λ a. not (is_platform a.owner_type)) sorted lru,
      IsLru-keep m.last_used (λ a. is_platform a.owner_type) sorted lru,
      (λ e. (
        (λ a h. ground (arith, ((In-keep (λ a. not (is_platform a.owner_type)) a sorted).0 h).1)),
        (λ a h. ((In-keep (λ a. is_platform a.owner_type) a sorted).0 h).1),
      )),
      (λ other. absurd (other refl)),
    )
