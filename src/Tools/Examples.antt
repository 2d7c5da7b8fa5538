-- ===== src/Tools/Examples.antt =====
-- The tool gate's theorems at concrete inputs.
use general_ai_core.Prelude.{
  ◌≡◌, refl, true, false, ◌&&◌, none, some, [], ◌∷◌, nat_eq, string_eq, pair_eq, ok, member, lookup,
}
use general_ai_core.Prelude.Json.{no_fields}
use general_ai_core.Security.{
  user, approved, FirewallDecisionInput, Policies, deny, allow_with_limit, decide,
}
use general_ai_core.Security.Laws.{lets_through}
use general_ai_core.Identity.{Device, Devices, trusted, is_usable}
use general_ai_core.Tools.{Tool, client, active, before_action, Registry, ToolCallDecision, admit}
use general_ai_core.Tools.Laws.{
  approval_met, is_active, device_trusted, admit_exactly, admit_tightens,
}

abbrev camera : Tool
camera = record {
  id = 7;
  name = "camera";
  version = "1.0.0";
  location = client;
  permissions = "camera.read" ∷ [];
  input_schema = no_fields;
  output_schema = no_fields;
  sandbox_policy = no_fields;
  approval_policy = ("camera.read", before_action) ∷ [];
  status = active;
}

abbrev tools : Registry
tools = (7, camera) ∷ []

abbrev phone : Device
phone = record {
  id = 5;
  tenant_id = 1;
  user_id = 9;
  name = "phone";
  state = trusted;
  paired_at = 3;
  trusted_at = some 4;
  revoked_at = none;
  last_heartbeat_at = none;
}

abbrev devices : Devices
devices = (5, phone) ∷ []

abbrev policies : Policies
policies =
    (
      1,
      record {
        granted_permissions = "camera.read" ∷ [];
        granted_entitlements = "pro" ∷ [];
        approval_gated_permissions = [];
        limited_permissions = "camera.read" ∷ [];
      },
    )
    ∷ []

abbrev request : FirewallDecisionInput
request = record {
  actor = user;
  tenant_id = 1;
  permission = "camera.read";
  resource = "camera";
  scope = "room";
  entitlement = "pro";
  approval_state = some approved;
  risk_level = "low";
}

-- A tenant without a policy.
abbrev stranger : FirewallDecisionInput
stranger = record request { approval_state = none; entitlement = "basic" }

abbrev let_in : ToolCallDecision
let_in = record { admitted = true; decision = allow_with_limit; reason = none }

abbrev kept_out : ToolCallDecision
kept_out = record { admitted = false; decision = deny; reason = some "firewall_deny" }

admit-run :
    (admit 7 request (some 5) tools policies devices ≡ ok let_in)
    × (admit 7 stranger (some 5) tools policies devices ≡ ok kept_out)
unfolding admit decide is_usable
admit-run = (refl, refl)

decide-stranger : lets_through (decide stranger policies) ≡ false
unfolding decide
decide-stranger = refl

admit_exactly_example :
    (d : ToolCallDecision) × (admit 7 request (some 5) tools policies devices ≡ ok d)
    × (d.admitted ≡ (
        is_active active
        && (member "camera.read" camera.permissions
            && (device_trusted client 1 (some 5) devices
                && (lets_through (decide request policies)
                    && approval_met (lookup "camera.read" camera.approval_policy) true)))))
admit_exactly_example = admit_exactly 7 request (some 5) tools policies devices camera refl

admit_tightens_example : (kept_out.admitted ≡ false) × (lets_through kept_out.decision ≡ false)
admit_tightens_example =
    admit_tightens 7 stranger (some 5) tools policies devices kept_out admit-run.1 decide-stranger
