-- ===== src/Security.antt =====
-- core/security/firewall.py: the capability firewall, over the inputs of core/contracts/security.py.
pub mod Laws
mod Examples
use general_ai_core.Prelude.{
  ◌↔◌, not, nat_beq, ℕ, zero, suc, ◌+◌, ◌-◌, ◌≤◌, ◌<◌, ◌≡◌, ◌≢◌, ◌⊎◌, inl, inr, refl, sym, ap, Bool,
  true, false, ◌&&◌, ◌||◌, Option, none, some, String, List, [], ◌∷◌, ◌++◌, arith, Dict, lookup,
  insert, erase, contains, ◌==◌, nat_eq, string_eq, pair_eq, concat, if◌then◌else◌, is_some, Result,
  ok, err, ◌>>=◌, ◌>>◌, raise_if, or_raise, after, Bool-cases, Option-cases, Result-cases,
  lookup-insert, lookup-insert_self, lookup-insert_ne, lookup-erase, lookup-erase_self, ◌∙◌, subst,
  take, drop, keep, member, take-append-drop, length-append, get_or, values, keys, map, ◌*◌, ◌/◌,
  max, beq_self, beq_ne, Eq, length, ltb, leb, All,
}

pub data ActorKind : Type 0 where
  user system : ActorKind

-- `Literal["approved"]`
pub data ApprovalState : Type 0 where
  approved : ApprovalState

pub data FirewallDecision : Type 0 where
  allow deny allow_with_limit require_approval : FirewallDecision

pub record FirewallDecisionInput : Type 0 where
  pub actor : ActorKind
  pub tenant_id : ℕ
  pub permission : String
  pub resource : String
  pub scope : String
  pub entitlement : String
  pub approval_state : Option ApprovalState
  pub risk_level : String

pub record TenantPolicy : Type 0 where
  pub granted_permissions : List String
  pub granted_entitlements : List String
  pub approval_gated_permissions : List String
  pub limited_permissions : List String

-- `CapabilityFirewall._policies`
abbrev pub Policies : Type 0
Policies = Dict ℕ TenantPolicy

pub set_tenant_policy : ℕ → TenantPolicy → Policies → Policies
set_tenant_policy tenant policy ps = insert tenant policy ps

unfoldable pub policy_for : ℕ → Policies → Option TenantPolicy
policy_for tenant ps = lookup tenant ps

-- The tests of `decide`, in their order, once the tenant's policy is known.
pub decide_by : Option TenantPolicy → FirewallDecisionInput → FirewallDecision
decide_by none r = deny
decide_by (some p) r =
    if not (member r.permission p.granted_permissions)
    then deny
    else if not (member r.entitlement p.granted_entitlements)
    then deny
    else if member r.permission p.approval_gated_permissions && not (is_some r.approval_state)
    then require_approval
    else if member r.permission p.limited_permissions
    then allow_with_limit
    else allow

unfoldable pub decide : FirewallDecisionInput → Policies → FirewallDecision
unfolding decide_by
decide r ps = decide_by (lookup r.tenant_id ps) r
