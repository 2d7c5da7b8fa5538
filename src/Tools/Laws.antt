-- ===== src/Tools/Laws.antt =====
-- What an admitted tool call has passed, and that no later check loosens an earlier one.
use general_ai_core.Prelude.{
  not, ℕ, ◌≡◌, inl, inr, refl, ap, ◌∙◌, Bool, true, false, ◌&&◌, Option, none, some, get_or, Result,
  err, arith, lookup, nat_eq, string_eq, pair_eq, concat, is_some, ok, Bool-cases, Option-cases,
  member,
}
use general_ai_core.Security.{FirewallDecision, deny, FirewallDecisionInput, Policies, decide}
use general_ai_core.Security.Laws.{lets_through}
use general_ai_core.Identity.{Devices, DeviceError, is_usable}
use general_ai_core.Tools.{
  ToolLocation, server, client, hybrid, ToolStatus, active, disabled, Tool, Registry,
  ToolCallDecision, device_for, device_answer, check_device, ApprovalRequirement, never,
  before_action, always, unmet, approval_needed, after_firewall, admit, admit_active, status_value,
  denied,
}

abbrev pub is_active : ToolStatus → Bool
is_active active = true
is_active disabled = false

-- The registry answers that the device is known to the tenant and trusted.
abbrev pub is_yes : Result DeviceError Bool → Bool
is_yes (ok true) = true
is_yes (ok false) = false
is_yes (err e) = false

abbrev pub named_trusted : ℕ → Option ℕ → Devices → Bool
named_trusted tenant none ds = false
named_trusted tenant (some id) ds = is_yes (is_usable id tenant ds)

-- The device condition: a server tool needs none, any other a device of the tenant that is trusted.
abbrev pub device_trusted : ToolLocation → ℕ → Option ℕ → Devices → Bool
device_trusted server tenant device ds = true
device_trusted client tenant device ds = named_trusted tenant device ds
device_trusted hybrid tenant device ds = named_trusted tenant device ds

-- What a tool requires for a permission, when it names it, is met: nothing, or the approval; a permission that
-- the tool's policy does not name requires the approval.
abbrev pub approval_met : Option ApprovalRequirement → Bool → Bool
approval_met none is_approved = is_approved
approval_met (some never) is_approved = true
approval_met (some before_action) is_approved = is_approved
approval_met (some always) is_approved = is_approved

-- A decision in order: its verdict fits the admission, and a refusal has a reason.
abbrev pub IsCoherent : ToolCallDecision → Type 0
IsCoherent d = (d.admitted ≡ lets_through d.decision) × (is_some d.reason ≡ not d.admitted)

after_firewall-IsCoherent :
    (tool : Tool) (r : FirewallDecisionInput) (v : FirewallDecision)
    → IsCoherent (after_firewall tool r v)
after_firewall-IsCoherent tool r deny = (refl, refl)
after_firewall-IsCoherent tool r _ = ground arith

after_firewall_admitted :
    (tool : Tool) (r : FirewallDecisionInput) (v : FirewallDecision)
    → (after_firewall tool r v).admitted ≡ (
        lets_through v
        && not (unmet (approval_needed tool r.permission) (is_some r.approval_state)))
after_firewall_admitted tool r deny = refl
after_firewall_admitted tool r _ = ground arith

approval_met_lem :
    (needs : Option ApprovalRequirement) (b : Bool)
    → not (unmet (get_or needs always) b) ≡ approval_met needs b
approval_met_lem none true = refl
approval_met_lem none false = refl
approval_met_lem (some never) b = refl
approval_met_lem (some before_action) true = refl
approval_met_lem (some before_action) false = refl
approval_met_lem (some always) true = refl
approval_met_lem (some always) false = refl

answer_lem : (r : Result DeviceError Bool) → is_some (device_answer r) ≡ not (is_yes r)
answer_lem (ok true) = refl
answer_lem (ok false) = refl
answer_lem (err e) = refl

device_for_lem :
    (location : ToolLocation) (tenant : ℕ) (device : Option ℕ) (ds : Devices)
    → is_some (device_for location tenant device ds) ≡ not (named_trusted tenant device ds)
device_for_lem location tenant none ds = refl
device_for_lem location tenant (some id) ds = answer_lem (is_usable id tenant ds)

-- The answer of the device check, read as a condition.
check_device_trusted :
    (tool : Tool) (tenant : ℕ) (device : Option ℕ) (ds : Devices)
    → is_some (check_device tool tenant device ds)
      ≡ not (device_trusted tool.location tenant device ds)
unfolding check_device
check_device_trusted tool tenant device ds = go tool.location
  where
    go :
        (l : ToolLocation)
        → is_some (elim l [
          | server ↦ none
          | client ↦ device_for client tenant device ds
          | hybrid ↦ device_for hybrid tenant device ds
        ])
          ≡ not (device_trusted l tenant device ds)
    go server = refl
    go client = device_for_lem client tenant device ds
    go hybrid = device_for_lem hybrid tenant device ds

module _ (tool : Tool) (r : FirewallDecisionInput) (device : Option ℕ) (ps : Policies)
    (ds : Devices) where
  admit_active-IsCoherent : IsCoherent (admit_active tool r device ps ds)
  admit_active-IsCoherent = elim (Bool-cases (member r.permission tool.permissions)) [
    | inl declared ↦ elim (Option-cases (check_device tool r.tenant_id device ds)) [
      | inl passed ↦ rw declared (rw passed (after_firewall-IsCoherent tool r (decide r ps)))
      | inr (reason, failed) ↦ rw declared (rw failed (refl, refl))
    ]
    | inr undeclared ↦ rw undeclared (refl, refl)
  ]

  admit_active_admitted : (admit_active tool r device ps ds).admitted ≡ (
      member r.permission tool.permissions
      && (device_trusted tool.location r.tenant_id device ds
          && (lets_through (decide r ps)
              && not (unmet (approval_needed tool r.permission) (is_some r.approval_state)))))
  admit_active_admitted = elim (Bool-cases (member r.permission tool.permissions)) [
    | inl declared ↦ elim (Option-cases (check_device tool r.tenant_id device ds)) [
      | inl passed ↦
          let trusted : device_trusted tool.location r.tenant_id device ds ≡ true =
            ground (arith, passed, check_device_trusted tool r.tenant_id device ds) in
          rw declared (rw passed (rw trusted (after_firewall_admitted tool r (decide r ps))))
      | inr (reason, failed) ↦
          let untrusted : device_trusted tool.location r.tenant_id device ds ≡ false =
            ground (arith, failed, check_device_trusted tool r.tenant_id device ds) in
          rw declared (rw failed (rw untrusted refl))
    ]
    | inr undeclared ↦ rw undeclared refl
  ]

-- A registered tool's call is decided without an exception, and it is admitted exactly when the
-- tool is active, it declares the permission, the device condition holds, the firewall lets the
-- request through, and the tool's own approval requirement is met. The device condition is that a server
-- tool needs no device, any other one that is registered for the tenant and trusted; a permission that the
-- tool's policy does not name or names as before_action or always needs the approval.
pub admit_exactly :
    (id : ℕ) (r : FirewallDecisionInput) (device : Option ℕ) (ts : Registry) (ps : Policies)
    (ds : Devices) (tool : Tool)
    → lookup id ts ≡ some tool
    → (d : ToolCallDecision) × (admit id r device ts ps ds ≡ ok d)
      × (d.admitted ≡ (
          is_active tool.status
          && (member r.permission tool.permissions
              && (device_trusted tool.location r.tenant_id device ds
                  && (lets_through (decide r ps)
                      && approval_met
                          (lookup r.permission tool.approval_policy)
                          (is_some r.approval_state))))))
unfolding admit
admit_exactly id r device ts ps ds tool found = go tool.status refl
  where
    go :
        (s : ToolStatus)
        → tool.status ≡ s
        → (d : ToolCallDecision) × (admit id r device ts ps ds ≡ ok d)
          × (d.admitted ≡ (
              is_active s
              && (member r.permission tool.permissions
                  && (device_trusted tool.location r.tenant_id device ds
                      && (lets_through (decide r ps)
                          && approval_met
                              (lookup r.permission tool.approval_policy)
                              (is_some r.approval_state))))))
    go active e = (
      admit_active tool r device ps ds,
      rw found (rw e refl),
      admit_active_admitted tool r device ps ds
          ∙ ap
              (λ b.
                member r.permission tool.permissions
                && (device_trusted tool.location r.tenant_id device ds
                    && (lets_through (decide r ps) && b)))
              (approval_met_lem (lookup r.permission tool.approval_policy)
                (is_some r.approval_state)),
    )
    go disabled e =
        (denied (concat "tool_not_selectable:" (status_value disabled)), rw found (rw e refl), refl)

-- Every decision that the gate reports lets through, in the firewall's closed set, exactly the calls
-- that it admits, and every refusal names a reason.
pub admit-IsCoherent :
    (id : ℕ) (r : FirewallDecisionInput) (device : Option ℕ) (ts : Registry) (ps : Policies)
    (ds : Devices) (d : ToolCallDecision)
    → admit id r device ts ps ds ≡ ok d
    → IsCoherent d
unfolding admit
admit-IsCoherent id r device ts ps ds d h = elim (Option-cases (lookup id ts)) [
  | inl missing ↦ ground arith
  | inr (tool, found) ↦ ground (arith, found, admit_active-IsCoherent tool r device ps ds)
]

-- No later check loosens the firewall: a call whose request it does not let through is never
-- admitted, whatever the tool's own policy and the approval say.
pub admit_tightens :
    (id : ℕ) (r : FirewallDecisionInput) (device : Option ℕ) (ts : Registry) (ps : Policies)
    (ds : Devices) (d : ToolCallDecision)
    → admit id r device ts ps ds ≡ ok d
    → lets_through (decide r ps) ≡ false
    → (d.admitted ≡ false) × (lets_through d.decision ≡ false)
unfolding admit
admit_tightens id r device ts ps ds d h closed = elim (Option-cases (lookup id ts)) [
  | inl missing ↦ ground arith
  | inr (tool, found) ↦ ground (
    arith,
    found,
    closed,
    admit_active_admitted tool r device ps ds,
    admit_active-IsCoherent tool r device ps ds,
  )
]
