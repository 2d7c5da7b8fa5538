-- ===== src/Tools.antt =====
-- core/tools/registry.py and core/tools/gate.py, with the entities of core/contracts/tools.py.
pub mod Laws
mod Examples
use general_ai_core.Prelude.{
  ◌↔◌, not, nat_beq, ℕ, zero, suc, ◌+◌, ◌-◌, ◌≤◌, ◌<◌, ◌≡◌, ◌≢◌, ◌⊎◌, inl, inr, refl, sym, ap, Bool,
  true, false, ◌&&◌, ◌||◌, Option, none, some, String, List, [], ◌∷◌, ◌++◌, arith, Dict, lookup,
  insert, erase, contains, ◌==◌, nat_eq, string_eq, pair_eq, concat, if◌then◌else◌, is_some, Result,
  ok, err, ◌>>=◌, ◌>>◌, raise_if, or_raise, after, Bool-cases, Option-cases, Result-cases,
  lookup-insert, lookup-insert_self, lookup-insert_ne, lookup-erase, lookup-erase_self, false≢true,
  ◌∙◌, subst, take, drop, keep, member, take-append-drop, length-append, get_or, values, keys, map,
  ◌*◌, ◌/◌, max, beq_self, beq_ne, Eq, length, ltb, leb, All,
}
use general_ai_core.Prelude.Json.{JsonObject}
use general_ai_core.Security.{
  FirewallDecision, allow, deny, allow_with_limit, require_approval, FirewallDecisionInput,
  Policies, decide,
}
use general_ai_core.Identity.{Devices, DeviceError, is_usable}

pub data ToolLocation : Type 0 where
  server client hybrid : ToolLocation

pub data ToolStatus : Type 0 where
  active disabled : ToolStatus

-- The requirement `none` of the source is `never` here.
pub data ApprovalRequirement : Type 0 where
  never before_action always : ApprovalRequirement

-- The enumerations' string values.
abbrev pub location_value : ToolLocation → String
location_value server = "server"
location_value client = "client"
location_value hybrid = "hybrid"

abbrev pub status_value : ToolStatus → String
status_value active = "active"
status_value disabled = "disabled"

abbrev pub requirement_value : ApprovalRequirement → String
requirement_value never = "none"
requirement_value before_action = "before_action"
requirement_value always = "always"

pub record Tool : Type 0 where
  pub id : ℕ
  pub name : String
  pub version : String
  pub location : ToolLocation
  pub permissions : List String
  pub input_schema : JsonObject
  pub output_schema : JsonObject
  pub sandbox_policy : JsonObject
  pub approval_policy : Dict String ApprovalRequirement
  pub status : ToolStatus

pub data ToolFabricError : Type 0 where
  tool_not_registered duplicate_tool_registration : ℕ → ToolFabricError
  tool_not_selectable : ℕ → ToolStatus → ToolFabricError

-- `ToolRegistry._tools`
abbrev pub Registry : Type 0
Registry = Dict ℕ Tool

pub register : Tool → Registry → Result ToolFabricError (Unit {0} × Registry)
register tool ts = do
  raise_if (contains tool.id ts) (duplicate_tool_registration tool.id)
  ok (tt, insert tool.id tool ts)

pub get : ℕ → Registry → Result ToolFabricError Tool
get id ts = or_raise (lookup id ts) (tool_not_registered id)

pub replace : Tool → Registry → Result ToolFabricError (Unit {0} × Registry)
replace tool ts = do
  raise_if (not (contains tool.id ts)) (tool_not_registered tool.id)
  ok (tt, insert tool.id tool ts)

-- `if tool.status is not ACTIVE: raise`
abbrev pub require_active : ℕ → ToolStatus → Result ToolFabricError (Unit {0})
require_active id active = ok tt
require_active id disabled = err (tool_not_selectable id disabled)

unfoldable pub select : ℕ → Registry → Result ToolFabricError Tool
unfolding get
select id ts = do tool ← get id ts; require_active id tool.status; ok tool

pub record ToolCallDecision : Type 0 where
  pub admitted : Bool
  pub decision : FirewallDecision
  pub reason : Option String

abbrev pub denied : String → ToolCallDecision
denied reason = record { admitted = false; decision = deny; reason = some reason }

-- The answer of `is_usable`, with `DeviceNotFound` caught.
abbrev pub device_answer : Result DeviceError Bool → Option String
device_answer (ok true) = none
device_answer (ok false) = some "device_not_trusted"
device_answer (err e) = some "device_unknown"

abbrev pub device_for : ToolLocation → ℕ → Option ℕ → Devices → Option String
device_for location tenant none ds = some (concat "device_required:" (location_value location))
device_for location tenant (some id) ds = device_answer (is_usable id tenant ds)

-- `_check_device`; nothing means that the check passed.
unfoldable pub check_device : Tool → ℕ → Option ℕ → Devices → Option String
check_device tool tenant device ds = elim tool.location [
  | server ↦ none
  | client ↦ device_for client tenant device ds
  | hybrid ↦ device_for hybrid tenant device ds
]

-- `needs_approval is not NONE and approval_state != "approved"`
abbrev pub unmet : ApprovalRequirement → Bool → Bool
unmet never is_approved = false
unmet before_action is_approved = not is_approved
unmet always is_approved = not is_approved

-- The last two checks, once the firewall has not denied.
abbrev pub tighten : ApprovalRequirement → Bool → FirewallDecision → ToolCallDecision
tighten needs is_approved verdict =
    if unmet needs is_approved
    then record {
      admitted = false;
      decision = require_approval;
      reason = some (concat "tool_approval_required:" (requirement_value needs));
    }
    else elim verdict [
      | require_approval ↦ record {
        admitted = false;
        decision = require_approval;
        reason = some "firewall_requires_approval";
      }
      | allow ↦ record { admitted = true; decision = allow; reason = none }
      | deny ↦ record { admitted = true; decision = deny; reason = none }
      | allow_with_limit ↦ record { admitted = true; decision = allow_with_limit; reason = none }
    ]

-- The tool's own requirement for a permission.
abbrev pub approval_needed : Tool → String → ApprovalRequirement
approval_needed tool permission = get_or (lookup permission tool.approval_policy) always

abbrev pub after_firewall : Tool → FirewallDecisionInput → FirewallDecision → ToolCallDecision
after_firewall tool r deny = denied "firewall_deny"
after_firewall tool r allow =
    tighten (approval_needed tool r.permission) (is_some r.approval_state) allow
after_firewall tool r allow_with_limit =
    tighten (approval_needed tool r.permission) (is_some r.approval_state) allow_with_limit
after_firewall tool r require_approval =
    tighten (approval_needed tool r.permission) (is_some r.approval_state) require_approval

-- The checks of an active tool: the declared permission, the device, the firewall, the approval.
abbrev pub admit_device : Option String → Tool → FirewallDecisionInput → Policies → ToolCallDecision
admit_device (some reason) tool r ps = denied reason
admit_device none tool r ps = after_firewall tool r (decide r ps)

abbrev pub admit_active :
    Tool → FirewallDecisionInput → Option ℕ → Policies → Devices → ToolCallDecision
admit_active tool r device ps ds =
    if not (member r.permission tool.permissions)
    then denied (concat "permission_undeclared:" r.permission)
    else admit_device (check_device tool r.tenant_id device ds) tool r ps

-- `ToolNotSelectable` is caught; an unknown tool raises.
abbrev pub admit_selected :
    Result ToolFabricError Tool
    → FirewallDecisionInput
    → Option ℕ
    → Policies
    → Devices
    → Result ToolFabricError ToolCallDecision
admit_selected (ok tool) r device ps ds = ok (admit_active tool r device ps ds)
admit_selected (err (tool_not_selectable id status)) r device ps ds =
    ok (denied (concat "tool_not_selectable:" (status_value status)))
admit_selected (err (tool_not_registered id)) r device ps ds = err (tool_not_registered id)
admit_selected (err (duplicate_tool_registration id)) r device ps ds =
    err (duplicate_tool_registration id)

pub admit :
    ℕ
    → FirewallDecisionInput
    → Option ℕ
    → Registry
    → Policies
    → Devices
    → Result ToolFabricError ToolCallDecision
unfolding select check_device
admit id r device ts ps ds = admit_selected (select id ts) r device ps ds
