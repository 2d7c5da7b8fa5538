-- ===== src/SourceChange/Workflow/Examples.antt =====
-- A change that is proposed, verified, approved and applied, with a hash that counts bytes and a
-- sandbox that checks nothing but integrity.
use general_ai_core.Prelude.{
  ◌≡◌, refl, true, none, some, List, [], ◌∷◌, ◌++◌, lookup, nat_eq, string_eq, pair_eq, ok, length,
}
use general_ai_core.SourceChange.Paths.{list_eq, path_order}
use general_ai_core.SourceChange.Errors.{applied, approved, rolled_back}
use general_ai_core.SourceChange.Snapshot.{
  Hashing, SourceSnapshot, validate_path, file_content_hash, from_files,
}
use general_ai_core.SourceChange.Patch.{add_file, delete_file, SourcePatch, make_patch}
use general_ai_core.SourceChange.Proposal.{
  ApprovalRecord, ChangeProposal, patch_hash, seal, with_state, with_approval, with_applied,
}
use general_ai_core.SourceChange.Sandbox.{
  SandboxPort, VerificationSuite, hermetic_sandbox, hermetic_run, compare_reports, verify_change,
  verified_twice,
}
use general_ai_core.SourceChange.Workflow.{
  Stores, register_base_snapshot, propose, verify, approve, apply, rollback,
}
use general_ai_core.SourceChange.Workflow.Restore.{apply_rolls_back}
use general_ai_core.SourceChange.Workflow.Histories.{
  Request, registers, proposes, verifies, approves, applies, run, empty_stores, approval_binds,
}

abbrev hashing : Hashing
hashing = record { sha256 = λ b. length b ∷ []; utf8 = λ p. p }

abbrev sandbox : SandboxPort
sandbox = hermetic_sandbox hashing

abbrev suite : VerificationSuite
suite = record { name = "suite"; checks = record { name = 1 ∷ []; predicate = λ s. ok true } ∷ [] }

abbrev base : SourceSnapshot
base = record { snapshot_id = 4 ∷ []; files = (b'a' ∷ [], 2 ∷ []) ∷ [] }

abbrev patch : SourcePatch
patch = record { operations = add_file (b'c' ∷ []) (9 ∷ []) ∷ [] }

abbrev approval : ApprovalRecord
approval = record { approver_id = 8; approved_patch_hash = 15 ∷ []; decided_at = 3 }

abbrev approved_history : List Request
approved_history =
    registers 1 base
    ∷ proposes 2 6 1 7 (4 ∷ []) patch "why"
    ∷ verifies 1 6
    ∷ approves 3 1 6 8 (15 ∷ [])
    ∷ []

abbrev history : List Request
history = approved_history ++ applies 1 6 ∷ []

abbrev change : ChangeProposal
change = record {
  tenant_id = 1;
  actor_id = 7;
  base_snapshot_id = 4 ∷ [];
  patch = patch;
  rationale = "why";
  proposal_id = 6;
  state = applied;
  patch_hash = 15 ∷ [];
  created_at = 2;
  approval = some approval;
  applied_snapshot_id = some (8 ∷ []);
  inverse_patch = some (record { operations = delete_file (b'c' ∷ []) ∷ [] });
}

history_applied :
    lookup
      (1, 6)
      (run hashing sandbox suite true history
        (empty_stores hashing sandbox suite true tt)).proposals
    ≡ some change
unfolding register_base_snapshot propose verify approve apply validate_path file_content_hash
    hermetic_run compare_reports patch_hash seal verify_change verified_twice with_state
    with_approval with_applied
history_applied = refl

approval_binds_example :
    (a : ApprovalRecord) × (some approval ≡ some a)
    × (a.approved_patch_hash ≡ patch_hash hashing patch (4 ∷ []))
approval_binds_example =
    approval_binds hashing sandbox suite true history tt (1, 6) change history_applied refl

-- The stores when the change is approved, and the record of the change then.
abbrev approved_stores : Stores Unit
approved_stores =
    run hashing sandbox suite true approved_history (empty_stores hashing sandbox suite true tt)

abbrev approved_change : ChangeProposal
approved_change = record change {
  state = approved;
  applied_snapshot_id = none;
  inverse_patch = none;
}

approved_listed : lookup (1, 6) approved_stores.proposals ≡ some approved_change
unfolding register_base_snapshot propose verify approve validate_path file_content_hash hermetic_run
    compare_reports patch_hash seal verify_change verified_twice with_state with_approval
approved_listed = refl

base_stored : lookup (1, 4 ∷ []) approved_stores.snapshots ≡ some base
unfolding register_base_snapshot propose verify approve validate_path file_content_hash hermetic_run
    compare_reports patch_hash seal verify_change verified_twice with_state with_approval
base_stored = refl

apply_returns :
    apply hashing sandbox suite true 1 6 approved_stores
    ≡ (ok change, (apply hashing sandbox suite true 1 6 approved_stores).1)
unfolding register_base_snapshot propose verify approve apply validate_path file_content_hash
    hermetic_run compare_reports patch_hash seal verify_change verified_twice with_state
    with_approval with_applied
apply_returns = refl

patch_made :
    (validate_path (b'c' ∷ []) ≡ ok tt)
    × (make_patch patch.operations ≡ ok patch)
    × (from_files hashing base.files ≡ ok base)
unfolding validate_path make_patch from_files file_content_hash
patch_made = (refl, refl, refl)

apply_rolls_back_example :
    (v : ChangeProposal) × (t' : Stores Unit) × (rollback hashing sandbox suite true 1 6
        (apply hashing sandbox suite true 1 6 approved_stores).1
      ≡ (ok v, t'))
    × (v.state ≡ rolled_back)
    × (lookup (1, 4 ∷ []) t'.snapshots ≡ some base)
apply_rolls_back_example =
    apply_rolls_back hashing sandbox suite true 1 6 approved_change change base.files base
      approved_stores (apply hashing sandbox suite true 1 6 approved_stores).1 approved_listed refl
      refl (patch_made.0, tt) patch_made.1 patch_made.2 base_stored apply_returns
