-- ===== src/SourceChange/Workflow.antt =====
-- core/sourcechange/workflow.py over the memory stores of core/sourcechange/store.py: a change is
-- proposed, verified, approved or rejected, applied and rolled back. The time of a call and the id of
-- a new proposal are passed in. The applier of authoritative source is absent, as the source has it.
pub mod Approval
pub mod Keeping
pub mod Histories
pub mod Outcomes
pub mod Restore
mod Examples
use general_ai_core.Prelude.{
  ◌↔◌, not, nat_beq, ℕ, zero, suc, ◌+◌, ◌-◌, ◌≤◌, ◌<◌, ◌≡◌, ◌≢◌, ◌⊎◌, inl, inr, refl, sym, ap, Bool,
  true, false, ◌&&◌, ◌||◌, Option, none, some, String, List, [], ◌∷◌, ◌++◌, arith, Dict, lookup,
  insert, erase, contains, ◌==◌, nat_eq, string_eq, pair_eq, concat, if◌then◌else◌, is_some, Result,
  ok, err, raise_if, or_raise, after, Bool-cases, Option-cases, Result-cases, lookup-insert,
  lookup-insert_self, lookup-insert_ne, lookup-erase, lookup-erase_self, false≢true, ◌∙◌, subst,
  take, drop, keep, member, take-append-drop, length-append, get_or, values, keys, map, ◌*◌, ◌/◌,
  max, beq_self, beq_ne, Eq, length, ltb, leb, All,
}
use general_ai_core.SourceChange.Paths.{Bytes, list_eq}
use general_ai_core.SourceChange.Errors.{
  ProposalState, draft, verified, failed_verification, rejected, rolled_back, SourceChangeError,
  proposal_not_found, unknown_snapshot, snapshot_integrity,
}
use general_ai_core.SourceChange.Snapshot.{Hashing, SourceSnapshot, verify_integrity}
use general_ai_core.SourceChange.Patch.{SourcePatch, apply_patch, invert_patch}
use general_ai_core.SourceChange.Proposal.{
  ApprovalRecord, ChangeProposal, seal, with_state, with_approval, with_applied,
}
use general_ai_core.SourceChange.Sandbox.{
  SandboxPort, VerificationSuite, VerificationReport, DifferentialReport, DifferentialVerdict, pass,
  regression, failed_on_patched, verify_change,
}
use general_ai_core.Prelude.Calls.{Call, pure, lift, modify, ◌>>=◌, ◌>>◌}

-- The act and its part of an audit event's details.
pub data AuditDetail : Type 0 where
  propose_act : String → AuditDetail
  verify_act : DifferentialReport → AuditDetail
  approve_act : ℕ → Bytes → AuditDetail
  reject_act : ℕ → String → AuditDetail
  apply_act : Bytes → VerificationReport → AuditDetail
  rollback_act : Bytes → Bool → AuditDetail

pub record AuditEvent : Type 0 where
  pub tenant_id : ℕ
  pub actor_id : ℕ
  pub proposal_id : ℕ
  pub patch_hash : Bytes
  pub state : ProposalState
  pub detail : AuditDetail

-- The two stores, the audit log, and what the sandbox keeps.
pub record Stores (S : Type 0) : Type 0 where
  pub snapshots : Dict (ℕ × Bytes) SourceSnapshot
  pub proposals : Dict (ℕ × ℕ) ChangeProposal
  pub audit : List AuditEvent
  pub sandbox : S

abbrev pub served :
    Hashing → Bytes → Option SourceSnapshot → Result SourceChangeError SourceSnapshot
served h id none = err (unknown_snapshot (some id))
served h id (some snapshot) =
    if not (verify_integrity h snapshot) then err (snapshot_integrity id) else ok snapshot

module _ (h : Hashing) {S : Type 0} where
  unfoldable pub save_snapshot : ℕ → SourceSnapshot → Call SourceChangeError (Stores S) (Unit {0})
  unfolding verify_integrity
  save_snapshot tenant snapshot s =
      if not (verify_integrity h snapshot)
      then (err (snapshot_integrity snapshot.snapshot_id), s)
      else (
        ok tt,
        record s { snapshots = insert (tenant, snapshot.snapshot_id) snapshot s.snapshots },
      )

  unfoldable pub get_snapshot : ℕ → Bytes → Call SourceChangeError (Stores S) SourceSnapshot
  get_snapshot tenant id s = (served h id (lookup (tenant, id) s.snapshots), s)

module _ {S : Type 0} where
  unfoldable pub save_proposal : ChangeProposal → Call SourceChangeError (Stores S) (Unit {0})
  save_proposal p s =
      (ok tt, record s { proposals = insert (p.tenant_id, p.proposal_id) p s.proposals })

  unfoldable pub get_proposal : ℕ → ℕ → Call SourceChangeError (Stores S) ChangeProposal
  get_proposal tenant id s = (or_raise (lookup (tenant, id) s.proposals) proposal_not_found, s)

  -- `_record`
  unfoldable pub record_act :
      Bool → ChangeProposal → AuditDetail → Call SourceChangeError (Stores S) (Unit {0})
  record_act audited p detail s = (
    ok tt,
    if not audited then s else record s {
      audit =
          s.audit
          ++ record {
            tenant_id = p.tenant_id;
            actor_id = p.actor_id;
            proposal_id = p.proposal_id;
            patch_hash = p.patch_hash;
            state = p.state;
            detail = detail;
          }
            ∷ [];
    },
  )

module _ (h : Hashing) (port : SandboxPort) (suite : VerificationSuite) (audited : Bool) where
  abbrev pub Act : Type 0 → Type 0
  Act = Call SourceChangeError (Stores port.State)

  -- The verifier and the sandbox as calls.
  abbrev pub differential : SourceSnapshot → SourceSnapshot → Act DifferentialReport
  differential base patched s =
      let (r, t) = verify_change port base patched suite s.sandbox in (r, record s { sandbox = t })

  abbrev pub sandboxed : SourceSnapshot → Act VerificationReport
  sandboxed snapshot s =
      let (r, t) = port.run_verification snapshot suite s.sandbox in
      (ok r, record s { sandbox = t })

  unfoldable pub register_base_snapshot : ℕ → SourceSnapshot → Act SourceSnapshot
  unfolding save_snapshot get_snapshot
  register_base_snapshot tenant snapshot = do
    save_snapshot h tenant snapshot
    get_snapshot h tenant snapshot.snapshot_id

  unfoldable pub propose : ℕ → ℕ → ℕ → ℕ → Bytes → SourcePatch → String → Act ChangeProposal
  unfolding get_snapshot save_proposal record_act
  propose now new_id tenant actor base_id patch rationale = do
    base ← get_snapshot h tenant base_id
    proposal ← lift (
        seal h (record {
          tenant_id = tenant;
          actor_id = actor;
          base_snapshot_id = base_id;
          patch = patch;
          rationale = rationale;
          proposal_id = new_id;
          state = draft;
          patch_hash = [];
          created_at = now;
          approval = none;
          applied_snapshot_id = none;
          inverse_patch = none;
        }))
    save_proposal proposal
    record_act audited proposal (propose_act rationale)
    pure proposal

  -- A patched snapshot that passed is stored; one that did not is not.
  abbrev pub graded_proposal :
      ℕ → SourceSnapshot → ChangeProposal → DifferentialVerdict → Act ChangeProposal
  graded_proposal tenant patched p pass = do
    save_snapshot h tenant patched
    lift (with_state h verified p)
  graded_proposal tenant patched p regression = lift (with_state h failed_verification p)
  graded_proposal tenant patched p failed_on_patched = lift (with_state h failed_verification p)

  unfoldable pub verify : ℕ → ℕ → Act ChangeProposal
  unfolding get_proposal get_snapshot apply_patch save_snapshot save_proposal record_act
  verify tenant id = do
    proposal ← get_proposal tenant id
    base ← get_snapshot h tenant proposal.base_snapshot_id
    patched ← lift (apply_patch h base proposal.patch)
    report ← differential base patched
    updated ← graded_proposal tenant patched proposal report.verdict
    save_proposal updated
    record_act audited updated (verify_act report)
    pure updated

  unfoldable pub approve : ℕ → ℕ → ℕ → ℕ → Bytes → Act ChangeProposal
  unfolding get_proposal save_proposal record_act
  approve now tenant id approver cited_hash = do
    proposal ← get_proposal tenant id
    updated ← lift (
        with_approval h
          (record { approver_id = approver; approved_patch_hash = cited_hash; decided_at = now })
          proposal)
    save_proposal updated
    record_act audited updated (approve_act approver cited_hash)
    pure updated

  unfoldable pub reject : ℕ → ℕ → ℕ → String → Act ChangeProposal
  unfolding get_proposal save_proposal record_act
  reject tenant id approver reason = do
    proposal ← get_proposal tenant id
    updated ← lift (with_state h rejected proposal)
    save_proposal updated
    record_act audited updated (reject_act approver reason)
    pure updated

  unfoldable pub apply : ℕ → ℕ → Act ChangeProposal
  unfolding get_proposal get_snapshot apply_patch invert_patch save_snapshot save_proposal
      record_act
  apply tenant id = do
    proposal ← get_proposal tenant id
    base ← get_snapshot h tenant proposal.base_snapshot_id
    applied_snapshot ← lift (apply_patch h base proposal.patch)
    inverse ← lift (invert_patch proposal.patch base)
    save_snapshot h tenant applied_snapshot
    updated ← lift (with_applied h applied_snapshot.snapshot_id inverse proposal)
    save_proposal updated
    post_apply ← sandboxed applied_snapshot
    record_act audited updated (apply_act applied_snapshot.snapshot_id post_apply)
    pure updated

  -- The evidence pair of an applied proposal.
  abbrev pub evidence :
      Option Bytes → Option SourcePatch → Result SourceChangeError (Bytes × SourcePatch)
  evidence (some snapshot_id) (some inverse) = ok (snapshot_id, inverse)
  evidence _ _ = err (unknown_snapshot none)

  unfoldable pub rollback : ℕ → ℕ → Act ChangeProposal
  unfolding get_proposal get_snapshot apply_patch save_snapshot save_proposal record_act
  rollback tenant id = do
    proposal ← get_proposal tenant id
    updated ← lift (with_state h rolled_back proposal)
    (snapshot_id, inverse) ← lift (evidence proposal.applied_snapshot_id proposal.inverse_patch)
    applied_snapshot ← get_snapshot h tenant snapshot_id
    restored ← lift (apply_patch h applied_snapshot inverse)
    save_snapshot h tenant restored
    save_proposal updated
    record_act audited updated
        (rollback_act restored.snapshot_id (restored.snapshot_id == proposal.base_snapshot_id))
    pure updated
