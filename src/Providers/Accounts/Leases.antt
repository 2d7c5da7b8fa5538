-- ===== src/Providers/Accounts/Leases.antt =====
-- The leases of `AccountPoolManager` of core/providers/accounts.py.
use general_ai_core.Prelude.{
  ℕ, ◌+◌, ◌<◌, ◌≤◌, arith, ◌==◌, insert, lookup-insert, lookup-insert_self, ◌≡◌, ◌≢◌, refl, sym, ap,
  ◌∙◌, subst, inl, inr, String, List, [], ◌∷◌, Bool, true, false, Option, none, some, is_some,
  Bool-cases, false≢true, Result-cases, lookup, nat_eq, string_eq, pair_eq, ◌++◌, concat, Result,
  ok, err,
}
use general_ai_core.Providers.{ProviderAccount, ProviderError}
use general_ai_core.Providers.Registry.{Registry}
use general_ai_core.Providers.Accounts.{Manager, Request, eligible_accounts}
use general_ai_core.Providers.Accounts.{
  LeasePort, lease_resource_for, tried, lease_first, used, leased, acquire_account,
}
use general_ai_core.Providers.{no_eligible_account}
use general_ai_core.Runtime.Lease.{Lease, LeaseError, LeaseManager, blocks, acquire, release}
use general_ai_core.Runtime.Lease.Laws.{Holds, acquire_excluded}

module _ {S : Type 0} (port : LeasePort S) (uuid_text : ℕ → String) where
  -- The leases of these accounts were asked for one after the other, and each was refused.
  abbrev pub Refused : String → ℕ → List ProviderAccount → S → S → Type 0
  Refused owner ttl [] s t = s ≡ t
  Refused owner ttl (a ∷ xs) s t =
      (u : S) × (port.acquiring (lease_resource_for port uuid_text a.id) owner ttl s ≡ (none, u))
      × Refused owner ttl xs u t

  -- The first candidate in order whose lease was granted, or none when all were refused.
  abbrev pub IsFirst :
      String → ℕ → List ProviderAccount → S → Option (ProviderAccount × Lease) × S → Type 0
  IsFirst owner ttl xs s (none, t) = Refused owner ttl xs s t
  IsFirst owner ttl xs s (some (a, l), t) =
      (before : List ProviderAccount) × (behind : List ProviderAccount) × (u : S) × (xs
        ≡ before ++ a ∷ behind)
      × Refused owner ttl before s u
      × (port.acquiring (lease_resource_for port uuid_text a.id) owner ttl u ≡ (some l, t))

  refused_before :
      (owner : String) (ttl : ℕ) (a : ProviderAccount) (xs : List ProviderAccount) (s u : S)
      (r : Option (ProviderAccount × Lease) × S)
      → port.acquiring (lease_resource_for port uuid_text a.id) owner ttl s ≡ (none, u)
      → IsFirst owner ttl xs u r
      → IsFirst owner ttl (a ∷ xs) s r
  refused_before owner ttl a xs s u (none, t) e h = (u, e, h)
  refused_before owner ttl a xs s u (some (b, l), t) e (before, behind, v, split, refused, got) =
      (a ∷ before, behind, v, ap (◌∷◌ a) split, (u, e, refused), got)

  lease_first-IsFirst :
      (owner : String) (ttl : ℕ) (xs : List ProviderAccount) (s : S)
      → IsFirst owner ttl xs s (lease_first port uuid_text owner ttl xs s)
  lease_first-IsFirst owner ttl [] s = refl
  lease_first-IsFirst owner ttl (a ∷ xs) s =
      asked (port.acquiring (lease_resource_for port uuid_text a.id) owner ttl s) refl
        (λ t. lease_first-IsFirst owner ttl xs t)
    where
      asked :
          (p : Option Lease × S)
          → port.acquiring (lease_resource_for port uuid_text a.id) owner ttl s ≡ p
          → ((t : S) → IsFirst owner ttl xs t (lease_first port uuid_text owner ttl xs t))
          → IsFirst owner ttl
              (a ∷ xs)
              s
              (tried port uuid_text (λ t. lease_first port uuid_text owner ttl xs t) a p)
      asked (none, t) e next =
          refused_before owner ttl a xs s t (lease_first port uuid_text owner ttl xs t) e (next t)
      asked (some l, t) e next = ([], xs, s, refl, refl, e)

-- The memory lease manager, at one value of its clock.
unfoldable pub in_memory : ℕ → LeasePort LeaseManager
in_memory now = record {
  acquiring = λ resource owner ttl s. acquire now resource owner ttl s;
  releasing = λ l s. released s (release now l s);
}
  where
    released :
        LeaseManager
        → Result LeaseError (Unit {0} × LeaseManager)
        → Result LeaseError (Unit {0}) × LeaseManager
    released s (ok (u, t)) = (ok tt, t)
    released s (err e) = (err e, s)

-- Somebody else holds the lease of the account.
abbrev pub IsTaken : ℕ → (ℕ → String) → String → ProviderAccount → LeaseManager → Type 0
IsTaken now uuid_text owner a s =
    (l : Lease) × (l.resource ≡ concat "provider_account:" (uuid_text a.id))
    × Holds now l s
    × (owner ≢ l.owner)

-- What an acquisition returns, of the candidates `xs`: the first that could be leased, which is noted as the
-- last used; or no_eligible_account when the leases of all were refused.
abbrev pub IsLeased :
    {S : Type 0}
    → LeasePort S
    → (ℕ → String)
    → String
    → String
    → ℕ
    → Manager
    → List ProviderAccount
    → S
    → Result ProviderError (ProviderAccount × Lease) × (Manager × S)
    → Type 0
IsLeased port uuid_text key owner ttl m xs s (ok (a, l), (m', t)) =
    (m' ≡ used port uuid_text a m) × IsFirst port uuid_text owner ttl xs s (some (a, l), t)
IsLeased port uuid_text key owner ttl m xs s (err e, (m', t)) =
    (e ≡ no_eligible_account key) × (m' ≡ m) × IsFirst port uuid_text owner ttl xs s (none, t)

first_granted :
    {S : Type 0} (port : LeasePort S) (uuid_text : ℕ → String) (now : ℕ) (key owner : String)
    (ttl : ℕ) (q : Request) (registry : Registry) (m : Manager) (s : S) (xs : List ProviderAccount)
    → eligible_accounts now key q registry m ≡ ok xs
    → IsLeased port uuid_text key owner ttl m xs s
        (acquire_account port uuid_text now key owner ttl q registry (m, s))
unfolding acquire_account
first_granted {S = S} port uuid_text now key owner ttl q registry m s xs e = rw e (
    found (lease_first port uuid_text owner ttl xs s)
      (lease_first-IsFirst port uuid_text owner ttl xs s))
  where
    found :
        (r : Option (ProviderAccount × Lease) × S)
        → IsFirst port uuid_text owner ttl xs s r
        → IsLeased port uuid_text key owner ttl m xs s (leased port uuid_text key m r)
    found (none, t) h = (refl, refl, h)
    found (some (a, l), t) h = (refl, h)

-- Every stamp of a use is at most the number of uses.
abbrev pub IsStamped : Manager → Type 0
IsStamped m = (j n : ℕ) → lookup j m.last_used ≡ some n → n ≤ m.use_seq

-- The account has a stamp that is greater than the stamps of all others, which keep theirs.
abbrev pub IsLatest : ProviderAccount → Manager → Manager → Type 0
IsLatest a m m' =
    (n : ℕ) × (lookup a.id m'.last_used ≡ some n)
    × ((j k : ℕ) → (a.id == j) ≡ false → lookup j m'.last_used ≡ some k → k < n)
    × ((j : ℕ) → (a.id == j) ≡ false → lookup j m'.last_used ≡ lookup j m.last_used)
    × (m'.pools ≡ m.pools)
    × IsStamped m'

-- `IsLeased`, with what the note of the use means.
abbrev pub IsAcquired :
    {S : Type 0}
    → LeasePort S
    → (ℕ → String)
    → String
    → String
    → ℕ
    → Manager
    → List ProviderAccount
    → S
    → Result ProviderError (ProviderAccount × Lease) × (Manager × S)
    → Type 0
IsAcquired port uuid_text key owner ttl m xs s (ok (a, l), (m', t)) =
    IsLatest a m m' × IsFirst port uuid_text owner ttl xs s (some (a, l), t)
IsAcquired port uuid_text key owner ttl m xs s (err e, (m', t)) =
    (e ≡ no_eligible_account key) × (m' ≡ m) × IsFirst port uuid_text owner ttl xs s (none, t)

used-IsLatest :
    {S : Type 0} (port : LeasePort S) (uuid_text : ℕ → String) (a : ProviderAccount) (m : Manager)
    → IsStamped m
    → IsLatest a m (used port uuid_text a m)
used-IsLatest port uuid_text a m h = (
  m.use_seq + 1,
  lookup-insert_self a.id (m.use_seq + 1) m.last_used,
  (λ j k other e. below (h j k (sym (others j other) ∙ e))),
  others,
  refl,
  stamped,
)
  where
    below : {k n : ℕ} → k ≤ n → k < n + 1
    below h = omega (arith, h)

    others :
        (j : ℕ)
        → (a.id == j) ≡ false
        → lookup j (insert a.id (m.use_seq + 1) m.last_used) ≡ lookup j m.last_used
    others j other = rw (lookup-insert a.id j (m.use_seq + 1) m.last_used) (rw other refl)

    last : {k : ℕ} → some (m.use_seq + 1) ≡ some k → k ≤ m.use_seq + 1
    last e = ground (arith, e)

    stamped : IsStamped (used port uuid_text a m)
    stamped j k e = elim (Bool-cases (a.id == j)) [
      | inl same ↦
          last (sym (rw (lookup-insert a.id j (m.use_seq + 1) m.last_used) (rw same refl)) ∙ e)
      | inr other ↦ weaken (h j k (sym (others j other) ∙ e))
    ]
      where
        weaken : {k n : ℕ} → k ≤ n → k ≤ n + 1
        weaken h = omega (arith, h)

-- Over any lease port: the candidates are asked in their order, and the first one whose lease is granted is
-- returned with it. It becomes the most recently used account, when no stamp of a use was greater than the
-- number of uses, which stays so: its stamp is greater than those of all others, and these stay as they were.
-- The acquisition fails, with nothing noted, only when the lease of every candidate was refused.
pub acquire_first :
    {S : Type 0} (port : LeasePort S) (uuid_text : ℕ → String) (now : ℕ) (key owner : String)
    (ttl : ℕ) (q : Request) (registry : Registry) (m : Manager) (s : S) (xs : List ProviderAccount)
    → IsStamped m
    → eligible_accounts now key q registry m ≡ ok xs
    → IsAcquired port uuid_text key owner ttl m xs s
        (acquire_account port uuid_text now key owner ttl q registry (m, s))
acquire_first {S = S} port uuid_text now key owner ttl q registry m s xs stamps e =
    noted (acquire_account port uuid_text now key owner ttl q registry (m, s))
      (first_granted port uuid_text now key owner ttl q registry m s xs e)
  where
    noted :
        (r : Result ProviderError (ProviderAccount × Lease) × (Manager × S))
        → IsLeased port uuid_text key owner ttl m xs s r
        → IsAcquired port uuid_text key owner ttl m xs s r
    noted (ok (a, l), (m', t)) (same, first) =
        (subst (IsLatest a m) (sym same) (used-IsLatest port uuid_text a m stamps), first)
    noted (err x, (m', t)) h = h

-- A refused acquisition leaves the memory leases.
refused_same :
    (now : ℕ) (resource owner : String) (ttl : ℕ) (s u : LeaseManager)
    → acquire now resource owner ttl s ≡ (none, u)
    → s ≡ u
unfolding acquire
refused_same now resource owner ttl s u e =
    elim (Bool-cases (blocks (lookup resource s.held) now owner)) [
      | inl blocked ↦ ap (λ (p : Option Lease × LeaseManager). p.1) (rw blocked at e)
      | inr free ↦
          absurd (
            false≢true (sym (ap (λ (p : Option Lease × LeaseManager). is_some p.0) (rw free at e))))
    ]

abbrev has_returned : {E A : Type 0} → Result E A → Bool
has_returned (ok a) = true
has_returned (err e) = false

-- Exclusive use: over the memory leases no acquisition returns an account while another owner holds the
-- lease of that account.
pub never_shared :
    (uuid_text : ℕ → String) (now : ℕ) (key owner : String) (ttl : ℕ) (q : Request)
    (registry : Registry) (m : Manager) (s : LeaseManager) (a : ProviderAccount)
    → IsTaken now uuid_text owner a s
    → (l : Lease) (after : Manager × LeaseManager)
    → acquire_account (in_memory now) uuid_text now key owner ttl q registry (m, s)
      ≢ (ok (a, l), after)
unfolding in_memory acquire_account
never_shared uuid_text now key owner ttl q registry m s a (k, of_account, holds, other) l (m', t)
      e =
    elim (Result-cases (eligible_accounts now key q registry m)) [
      | inl (xs, candidates) ↦
          let (noted, (before, behind, u, split, refused, got)) =
            subst (IsLeased (in_memory now) uuid_text key owner ttl m xs s) e (
              first_granted (in_memory now) uuid_text now key owner ttl q registry m s xs
                candidates) in
          let still = all_refused before s u refused in
          let blocked : acquire now (concat "provider_account:" (uuid_text a.id)) owner ttl s
              ≡ (none, s) =
            subst (λ r. acquire now r owner ttl s ≡ (none, s)) of_account
              (acquire_excluded now k owner ttl s holds other) in
          refused_granted (
            sym blocked
            ∙ subst
                (λ v.
                  acquire now (concat "provider_account:" (uuid_text a.id)) owner ttl v
                  ≡ (some l, t))
                (sym still) got)
      | inr (x, failed) ↦ raised x (rw failed at e)
    ]
  where
    all_refused :
        (xs : List ProviderAccount) (s u : LeaseManager)
        → Refused (in_memory now) uuid_text owner ttl xs s u
        → s ≡ u
    all_refused [] s u h = h
    all_refused (b ∷ xs) s u (v, asked, rest) =
        refused_same now (concat "provider_account:" (uuid_text b.id)) owner ttl s v asked
        ∙ all_refused xs v u rest

    refused_granted :
        {s t : LeaseManager} {l : Lease}
        → ◌≡◌ {A = Option Lease × LeaseManager} (none, s) (some l, t)
        → ⊥
    refused_granted e = false≢true (ap (λ (p : Option Lease × LeaseManager). is_some p.0) e)

    raised :
        {p p' : Manager × LeaseManager} {r : ProviderAccount × Lease} (x : ProviderError)
        → ◌≡◌ {A = Result ProviderError (ProviderAccount × Lease) × (Manager × LeaseManager)}
            (err x, p)
            (ok r, p')
        → ⊥
    raised x e = false≢true (
        ap
          (λ (p : Result ProviderError (ProviderAccount × Lease) × (Manager × LeaseManager)).
            has_returned p.0)
          e)
