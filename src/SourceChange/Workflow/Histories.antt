-- ===== src/SourceChange/Workflow/Histories.antt =====
-- Every history of the workflow keeps its proposals bound to their approvals.
use general_ai_core.Prelude.{
  ℕ, ◌≡◌, inl, inr, Bool, true, some, String, List, [], ◌∷◌, arith, lookup, nat_eq, string_eq,
  pair_eq, Option-cases,
}
use general_ai_core.Prelude.Sums.{AllValues-lookup}
use general_ai_core.SourceChange.Paths.{Bytes, list_eq}
use general_ai_core.SourceChange.Snapshot.{Hashing, SourceSnapshot}
use general_ai_core.SourceChange.Patch.{SourcePatch}
use general_ai_core.SourceChange.Proposal.{ApprovalRecord, ChangeProposal, patch_hash}
use general_ai_core.SourceChange.Sandbox.{SandboxPort, VerificationSuite}
use general_ai_core.Prelude.Calls.{Keeps, Keeps-bind}
use general_ai_core.SourceChange.Workflow.{
  Stores, save_snapshot, register_base_snapshot, propose, verify, approve, reject, apply, rollback,
}
use general_ai_core.SourceChange.Workflow.Approval.{IsBound, needs_approval}
use general_ai_core.SourceChange.Workflow.Keeping.{
  Anything, AllBound, get_snapshot-Keeps, save_snapshot-Keeps, approve-Keeps, reject-Keeps,
  verify-Keeps, apply-Keeps, rollback-Keeps, propose-Keeps,
}

-- The calls of the workflow.
pub data Request : Type 0 where
  registers : ℕ → SourceSnapshot → Request
  proposes : ℕ → ℕ → ℕ → ℕ → Bytes → SourcePatch → String → Request
  verifies : ℕ → ℕ → Request
  approves : ℕ → ℕ → ℕ → ℕ → Bytes → Request
  rejects : ℕ → ℕ → ℕ → String → Request
  applies : ℕ → ℕ → Request
  rolls_back : ℕ → ℕ → Request

module _ (h : Hashing) (port : SandboxPort) (suite : VerificationSuite) (audited : Bool) where
  -- What a call leaves behind, also when it raised.
  abbrev pub step : Request → Stores port.State → Stores port.State
  step (registers tenant x) s = (register_base_snapshot h port suite audited tenant x s).1
  step (proposes now id tenant actor base patch rationale) s =
      (propose h port suite audited now id tenant actor base patch rationale s).1
  step (verifies tenant id) s = (verify h port suite audited tenant id s).1
  step (approves now tenant id approver hash) s =
      (approve h port suite audited now tenant id approver hash s).1
  step (rejects tenant id approver reason) s =
      (reject h port suite audited tenant id approver reason s).1
  step (applies tenant id) s = (apply h port suite audited tenant id s).1
  step (rolls_back tenant id) s = (rollback h port suite audited tenant id s).1

  abbrev pub run : List Request → Stores port.State → Stores port.State
  run [] s = s
  run (r ∷ rs) s = run rs (step r s)

  abbrev pub empty_stores : port.State → Stores port.State
  empty_stores t = record { snapshots = []; proposals = []; audit = []; sandbox = t }

  register-Keeps :
      (tenant : ℕ) (x : SourceSnapshot) (s : Stores port.State)
      → AllBound h s
      → Keeps (AllBound h) Anything (register_base_snapshot h port suite audited tenant x s)
  unfolding register_base_snapshot
  register-Keeps tenant x s i =
      Keeps-bind (AllBound h) Anything Anything (save_snapshot h tenant x) _ s
        (save_snapshot-Keeps h tenant x s i)
        (λ a t q i. get_snapshot-Keeps h tenant x.snapshot_id t i)

  step_bound : (r : Request) (s : Stores port.State) → AllBound h s → AllBound h (step r s)
  step_bound (registers tenant x) s i = (register-Keeps tenant x s i).0
  step_bound (proposes now id tenant actor base patch rationale) s i =
      (propose-Keeps h port suite audited now id tenant actor base patch rationale s i).0
  step_bound (verifies tenant id) s i = (verify-Keeps h port suite audited tenant id s i).0
  step_bound (approves now tenant id approver hash) s i =
      (approve-Keeps h port suite audited now tenant id approver hash s i).0
  step_bound (rejects tenant id approver reason) s i =
      (reject-Keeps h port suite audited tenant id approver reason s i).0
  step_bound (applies tenant id) s i = (apply-Keeps h port suite audited tenant id s i).0
  step_bound (rolls_back tenant id) s i = (rollback-Keeps h port suite audited tenant id s i).0

  run_bound : (rs : List Request) (s : Stores port.State) → AllBound h s → AllBound h (run rs s)
  run_bound [] s i = i
  run_bound (r ∷ rs) s i = run_bound rs (step r s) (step_bound r s i)

  cited_approval :
      (p : ChangeProposal)
      → IsBound h p
      → needs_approval p.state ≡ true
      → (a : ApprovalRecord) × (p.approval ≡ some a)
        × (a.approved_patch_hash ≡ patch_hash h p.patch p.base_snapshot_id)
  cited_approval p b n = elim (Option-cases p.approval) [
    | inl absent ↦ ground (arith, b, n, absent)
    | inr (a, given) ↦ (
      a,
      given,
      ground (
        arith,
        b,
        n,
        given,
        list_eq.beq_iff a.approved_patch_hash p.patch_hash,
        list_eq.beq_iff p.patch_hash (patch_hash h p.patch p.base_snapshot_id),
      ),
    )
  ]

  -- However the workflow's calls come, from empty stores and with any sandbox, a stored proposal that
  -- is approved, applied or rolled back has an approval that cites the hash of the very patch and
  -- base that the proposal carries.
  pub approval_binds :
      (rs : List Request) (t : port.State) (k : ℕ × ℕ) (p : ChangeProposal)
      → lookup k (run rs (empty_stores t)).proposals ≡ some p
      → needs_approval p.state ≡ true
      → (a : ApprovalRecord) × (p.approval ≡ some a)
        × (a.approved_patch_hash ≡ patch_hash h p.patch p.base_snapshot_id)
  approval_binds rs t k p found n =
      cited_approval p
        (AllValues-lookup (IsBound h) k p (run rs (empty_stores t)).proposals
          (run_bound rs (empty_stores t) tt) found)
        n
