-- ===== src/Security/Laws.antt =====
-- Deny by default: what a decision of the firewall says of the grants.
use general_ai_core.Prelude.{
  ◌↔◌, not, ℕ, ◌≡◌, inl, inr, refl, Bool, true, false, ◌&&◌, Option, none, some, arith, lookup,
  ◌==◌, nat_eq, string_eq, pair_eq, if◌then◌else◌, is_some, Bool-cases, Option-cases, lookup-insert,
  member,
}
use general_ai_core.Security.{
  FirewallDecision, allow, deny, allow_with_limit, require_approval, FirewallDecisionInput,
  TenantPolicy, Policies, set_tenant_policy, policy_for, decide_by, decide,
}

-- `ALLOW` or `ALLOW_WITH_LIMIT`
abbrev pub lets_through : FirewallDecision → Bool
lets_through allow = true
lets_through deny = false
lets_through allow_with_limit = true
lets_through require_approval = false

-- The grants that a policy, if there is one, has for a request.
abbrev pub grants : Option TenantPolicy → FirewallDecisionInput → Bool
grants none r = false
grants (some p) r =
    member r.permission p.granted_permissions && member r.entitlement p.granted_entitlements

-- The request needs an approval that it does not have.
abbrev pub lacks_approval : Option TenantPolicy → FirewallDecisionInput → Bool
lacks_approval none r = false
lacks_approval (some p) r =
    member r.permission p.approval_gated_permissions && not (is_some r.approval_state)

-- A request is let through exactly when its tenant has a policy that grants its permission and its
-- entitlement, and the permission is not approval-gated or the request is approved; it is denied
-- exactly when a grant is missing, approved or not; else an approval is required.
pub decide-grants :
    (r : FirewallDecisionInput) (ps : Policies)
    → (lets_through (decide r ps) ≡ (
        grants (policy_for r.tenant_id ps) r && not (lacks_approval (policy_for r.tenant_id ps) r)))
      × ((decide r ps ≡ deny) ↔ (grants (policy_for r.tenant_id ps) r ≡ false))
      × ((decide r ps ≡ require_approval) ↔ (
          (grants (policy_for r.tenant_id ps) r && lacks_approval (policy_for r.tenant_id ps) r)
          ≡ true))
unfolding decide policy_for
decide-grants r ps = elim (Option-cases (lookup r.tenant_id ps)) [
  | inl absent ↦ rw absent (refl, ((λ _. refl), (λ _. refl)), ((λ q. cc), (λ q. cc)))
  | inr (p, found) ↦
      rw found (ground arith, (ground arith, ground arith), (ground arith, ground arith))
]

-- A policy decides for its own tenant alone: installing one for another tenant changes no decision.
pub decide-set_tenant_policy :
    (tenant : ℕ) (p : TenantPolicy) (r : FirewallDecisionInput) (ps : Policies)
    → decide r (set_tenant_policy tenant p ps)
      ≡ (if tenant == r.tenant_id then decide_by (some p) r else decide r ps)
unfolding decide set_tenant_policy
decide-set_tenant_policy tenant p r ps =
    rw (lookup-insert tenant r.tenant_id p ps) (elim (Bool-cases (tenant == r.tenant_id)) [
      | inl same ↦ rw same refl
      | inr other ↦ rw other refl
    ])
