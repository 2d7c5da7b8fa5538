-- ===== src/Providers/Accounts/Eligible.antt =====
-- The filters of `AccountPoolManager.eligible_accounts` of core/providers/accounts.py.
use general_ai_core.Prelude.{
  ℕ, ◌≤◌, ◌≡◌, ◌≢◌, ◌↔◌, refl, ap, subst, arith, ◌⊎◌, inl, inr, Bool, true, false, ◌&&◌, not,
  Option, none, some, is_some, false≢true, Dict, lookup, nat_eq, string_eq, pair_eq,
}
use general_ai_core.Providers.{
  OwnerType, platform, tenant, user, CredentialPolicy, platform_only, user_only, prefer_user, auto,
  CredentialStatus, AccountLifecycleState, Credential, ProviderAccount, RateLimitState,
  cooling_until, RateLimitStatus, BindingAvailability,
}
use general_ai_core.Providers.Registry.{RegisteredProvider, is_routable}
use general_ai_core.Providers.Pool.{is_platform}
use general_ai_core.Providers.Accounts.{
  Request, is_active, is_ready, in_cooldown, policy_admits, budget_available, has_budget,
  is_available, is_bound, passes,
}

-- What the seven filters ask of an account, one by one.
pub record IsEligible (now : ℕ) (entry : RegisteredProvider) (q : Request) (a : ProviderAccount)
    (c : Credential) : Type 0 where
  pub routable : is_routable entry ≡ true
  pub credited : c.status ≡ CredentialStatus.active
  pub is_up : a.lifecycle_state ≡ AccountLifecycleState.ready
  pub cooled : (until : ℕ) → a.cooldown_until ≡ some until → until ≤ now
  pub allowed :
      (q.policy ≡ platform_only → a.owner_type ≡ platform)
      × (q.policy ≡ user_only → a.owner_type ≢ platform)
  pub budgeted :
      (r : RateLimitStatus)
      → lookup a.id q.rate_limits ≡ some r
      → (r.state ≡ RateLimitState.available)
        ⊎ ((r.state ≡ cooling_until) × (t : ℕ) × (r.cooldown_until ≡ some t) × (t ≤ now))
  pub bound :
      (bindings : Dict (ℕ × ℕ) BindingAvailability) (model : ℕ)
      → q.bindings ≡ some bindings
      → q.model_id ≡ some model
      → lookup (entry.provider.id, model) bindings ≡ some BindingAvailability.available

is_active_iff : (s : CredentialStatus) → (is_active s ≡ true) ↔ (s ≡ CredentialStatus.active)
is_active_iff CredentialStatus.active = ((λ h. refl), (λ h. refl))
is_active_iff CredentialStatus.revoked = ((λ h. absurd (false≢true h)), (λ h. ap is_active h))
is_active_iff CredentialStatus.expired = ((λ h. absurd (false≢true h)), (λ h. ap is_active h))
is_active_iff CredentialStatus.invalid = ((λ h. absurd (false≢true h)), (λ h. ap is_active h))

is_ready_iff : (s : AccountLifecycleState) → (is_ready s ≡ true) ↔ (s ≡ AccountLifecycleState.ready)
is_ready_iff AccountLifecycleState.ready = ((λ h. refl), (λ h. refl))
is_ready_iff AccountLifecycleState.cooldown = ((λ h. absurd (false≢true h)), (λ h. ap is_ready h))
is_ready_iff AccountLifecycleState.refresh_required =
    ((λ h. absurd (false≢true h)), (λ h. ap is_ready h))
is_ready_iff AccountLifecycleState.auth_expired =
    ((λ h. absurd (false≢true h)), (λ h. ap is_ready h))
is_ready_iff AccountLifecycleState.invalid = ((λ h. absurd (false≢true h)), (λ h. ap is_ready h))
is_ready_iff AccountLifecycleState.pending = ((λ h. absurd (false≢true h)), (λ h. ap is_ready h))

in_cooldown_iff :
    (o : Option ℕ) (now : ℕ)
    → (not (in_cooldown o now) ≡ true) ↔ ((until : ℕ) → o ≡ some until → until ≤ now)
in_cooldown_iff none now = ((λ h u e. absurd (false≢true (ap is_some e))), (λ h. refl))
in_cooldown_iff (some t) now = ((λ h u e. ground (arith, h, e)), (λ h. ground (arith, h t refl)))

policy_admits_iff :
    (p : CredentialPolicy) (o : OwnerType)
    → (policy_admits p o ≡ true)
      ↔ ((p ≡ platform_only → o ≡ platform) × (p ≡ user_only → o ≢ platform))
policy_admits_iff platform_only platform = ((λ h. ((λ e. refl), (λ e k. absurd cc))), (λ h. refl))
policy_admits_iff platform_only tenant =
    ((λ h. absurd (false≢true h)), (λ h. ap is_platform (h.0 refl)))
policy_admits_iff platform_only user =
    ((λ h. absurd (false≢true h)), (λ h. ap is_platform (h.0 refl)))
policy_admits_iff user_only platform = ((λ h. absurd (false≢true h)), (λ h. absurd (h.1 refl refl)))
policy_admits_iff user_only tenant = ((λ h. ((λ e. absurd cc), (λ e k. absurd cc))), (λ h. refl))
policy_admits_iff user_only user = ((λ h. ((λ e. absurd cc), (λ e k. absurd cc))), (λ h. refl))
policy_admits_iff prefer_user platform = ((λ h. ((λ e. refl), (λ e k. absurd cc))), (λ h. refl))
policy_admits_iff prefer_user tenant = ((λ h. ((λ e. absurd cc), (λ e k. absurd cc))), (λ h. refl))
policy_admits_iff prefer_user user = ((λ h. ((λ e. absurd cc), (λ e k. absurd cc))), (λ h. refl))
policy_admits_iff auto platform = ((λ h. ((λ e. refl), (λ e k. absurd cc))), (λ h. refl))
policy_admits_iff auto tenant = ((λ h. ((λ e. absurd cc), (λ e k. absurd cc))), (λ h. refl))
policy_admits_iff auto user = ((λ h. ((λ e. absurd cc), (λ e k. absurd cc))), (λ h. refl))

has_budget_iff :
    (o : Option RateLimitStatus) (now : ℕ)
    → (has_budget o now ≡ true) ↔ (
        (r : RateLimitStatus)
        → o ≡ some r
        → (r.state ≡ RateLimitState.available)
          ⊎ ((r.state ≡ cooling_until) × (t : ℕ) × (r.cooldown_until ≡ some t) × (t ≤ now)))
has_budget_iff none now = ((λ h r e. absurd (false≢true (ap is_some e))), (λ h. refl))
has_budget_iff (some r) now = (
  (λ h r' e. subst (Budgeted now) (some_inj e) (budgeted r.state r.cooldown_until refl refl h)),
  (λ h. backwards (h r refl)),
)
  where
    Budgeted : ℕ → RateLimitStatus → Type 0
    Budgeted now r =
        (r.state ≡ RateLimitState.available)
        ⊎ ((r.state ≡ cooling_until) × (t : ℕ) × (r.cooldown_until ≡ some t) × (t ≤ now))

    some_inj : {x y : RateLimitStatus} → some x ≡ some y → x ≡ y
    some_inj e = cc

    budgeted :
        (s : RateLimitState) (o : Option ℕ)
        → r.state ≡ s
        → r.cooldown_until ≡ o
        → budget_available s o now ≡ true
        → Budgeted now r
    budgeted RateLimitState.available o es eo h = inl es
    budgeted RateLimitState.limited o es eo h = absurd (false≢true h)
    budgeted RateLimitState.unknown o es eo h = absurd (false≢true h)
    budgeted RateLimitState.cooling_until none es eo h = absurd (false≢true h)
    budgeted RateLimitState.cooling_until (some t) es eo h = inr (es, t, eo, ground (arith, h))

    backwards : Budgeted now r → budget_available r.state r.cooldown_until now ≡ true
    backwards (inl e) = rw e refl
    backwards (inr (e, t, f, le)) = rw e (rw f (ground (arith, le)))

is_bound_iff :
    (id : ℕ) (bs : Option (Dict (ℕ × ℕ) BindingAvailability)) (m : Option ℕ)
    → (is_bound id bs m ≡ true) ↔ (
        (d : Dict (ℕ × ℕ) BindingAvailability) (model : ℕ)
        → bs ≡ some d
        → m ≡ some model
        → lookup (id, model) d ≡ some BindingAvailability.available)
is_bound_iff id none m = ((λ h d model e f. absurd (false≢true (ap is_some e))), (λ h. refl))
is_bound_iff id (some bs) none =
    ((λ h d model e f. absurd (false≢true (ap is_some f))), (λ h. refl))
is_bound_iff id (some bs) (some m) = (
  (λ h d model e f.
      subst (λ x. lookup (id, x) d ≡ some BindingAvailability.available) (number_inj f)
        (subst (λ x. lookup (id, m) x ≡ some BindingAvailability.available) (dict_inj e)
          (available_of (lookup (id, m) bs) h))),
  (λ h. rw (h bs m refl refl) refl),
)
  where
    dict_inj : {x y : Dict (ℕ × ℕ) BindingAvailability} → some x ≡ some y → x ≡ y
    dict_inj e = cc

    number_inj : {x y : ℕ} → some x ≡ some y → x ≡ y
    number_inj e = cc

    available_of :
        (o : Option BindingAvailability)
        → is_available o ≡ true
        → o ≡ some BindingAvailability.available
    available_of none h = absurd (false≢true h)
    available_of (some BindingAvailability.available) h = refl
    available_of (some BindingAvailability.unavailable) h = absurd (false≢true h)
    available_of (some BindingAvailability.degraded) h = absurd (false≢true h)

all_six :
    (a b c d e f : Bool)
    → ((a && b && c && d && e && f) ≡ true)
      ↔ ((a ≡ true) × (b ≡ true) × (c ≡ true) × (d ≡ true) × (e ≡ true) × (f ≡ true))
all_six true true true true true f = ((λ h. (refl, refl, refl, refl, refl, h)), (λ h. h.5))
all_six true true true true false f = ((λ h. absurd (false≢true h)), (λ h. h.4))
all_six true true true false e f = ((λ h. absurd (false≢true h)), (λ h. absurd (false≢true h.3)))
all_six true true false d e f = ((λ h. absurd (false≢true h)), (λ h. absurd (false≢true h.2)))
all_six true false c d e f = ((λ h. absurd (false≢true h)), (λ h. absurd (false≢true h.1)))
all_six false b c d e f = ((λ h. absurd (false≢true h)), (λ h. absurd (false≢true h.0)))

-- The Boolean test of the loop and the filters of the specification.
pub passes_iff :
    (now : ℕ) (entry : RegisteredProvider) (q : Request) (a : ProviderAccount) (c : Credential)
    → ((is_routable entry ≡ true) × (passes now entry.provider.id q a c ≡ true))
      ↔ IsEligible now entry q a c
passes_iff now entry q a c = (forth, back)
  where
    id : ℕ
    id = entry.provider.id

    six : (passes now id q a c ≡ true) ↔ (
        (is_active c.status ≡ true)
        × (is_ready a.lifecycle_state ≡ true)
        × (not (in_cooldown a.cooldown_until now) ≡ true)
        × (policy_admits q.policy a.owner_type ≡ true)
        × (has_budget (lookup a.id q.rate_limits) now ≡ true)
        × (is_bound id q.bindings q.model_id ≡ true))
    six =
        all_six (is_active c.status) (is_ready a.lifecycle_state)
          (not (in_cooldown a.cooldown_until now)) (policy_admits q.policy a.owner_type)
          (has_budget (lookup a.id q.rate_limits) now) (is_bound id q.bindings q.model_id)

    forth : (is_routable entry ≡ true) × (passes now id q a c ≡ true) → IsEligible now entry q a c
    forth h =
        let k = six.0 h.1 in
        record {
          routable = h.0;
          credited = (is_active_iff c.status).0 k.0;
          is_up = (is_ready_iff a.lifecycle_state).0 k.1;
          cooled = (in_cooldown_iff a.cooldown_until now).0 k.2;
          allowed = (policy_admits_iff q.policy a.owner_type).0 k.3;
          budgeted = (has_budget_iff (lookup a.id q.rate_limits) now).0 k.4;
          bound = (is_bound_iff id q.bindings q.model_id).0 k.5;
        }

    back : IsEligible now entry q a c → (is_routable entry ≡ true) × (passes now id q a c ≡ true)
    back e = (
      e.routable,
      six.1 (
        (is_active_iff c.status).1 e.credited,
        (is_ready_iff a.lifecycle_state).1 e.is_up,
        (in_cooldown_iff a.cooldown_until now).1 e.cooled,
        (policy_admits_iff q.policy a.owner_type).1 e.allowed,
        (has_budget_iff (lookup a.id q.rate_limits) now).1 e.budgeted,
        (is_bound_iff id q.bindings q.model_id).1 e.bound,
      ),
    )
