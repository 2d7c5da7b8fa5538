-- ===== src/Security/Examples.antt =====
-- The firewall's theorems at concrete inputs.
use general_ai_core.Prelude.{
  ◌↔◌, ◌≡◌, refl, true, false, ◌&&◌, none, [], ◌∷◌, nat_eq, string_eq, pair_eq,
}
use general_ai_core.Security.{
  deny, require_approval, FirewallDecisionInput, user, TenantPolicy, Policies, policy_for, decide,
}
use general_ai_core.Security.Laws.{lets_through, grants, lacks_approval, decide-grants}

abbrev policy : TenantPolicy
policy = record {
  granted_permissions = "read" ∷ "write" ∷ [];
  granted_entitlements = "repo" ∷ [];
  approval_gated_permissions = "write" ∷ [];
  limited_permissions = [];
}

abbrev request : FirewallDecisionInput
request = record {
  actor = user;
  tenant_id = 1;
  permission = "write";
  resource = "r";
  scope = "project";
  entitlement = "repo";
  approval_state = none;
  risk_level = "low";
}

abbrev policies : Policies
policies = (1, policy) ∷ []

decide-request : decide request policies ≡ require_approval
unfolding decide
decide-request = refl

decide-grants_example :
    (lets_through (decide request policies) ≡ false)
    × ((decide request policies ≡ deny) ↔ (grants (policy_for 1 policies) request ≡ false))
    × ((decide request policies ≡ require_approval) ↔ (
        (grants (policy_for 1 policies) request && lacks_approval (policy_for 1 policies) request)
        ≡ true))
unfolding policy_for
decide-grants_example = decide-grants request policies
