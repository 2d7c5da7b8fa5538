-- ===== src/SourceChange/Workflow/Approval.antt =====
-- No change is applied without an approval that cites its exact version.
use general_ai_core.Prelude.{
  not, ◌≡◌, ◌⊎◌, inl, inr, refl, Bool, true, false, ◌&&◌, ◌||◌, Option, none, some, [], arith, ◌==◌,
  nat_eq, string_eq, pair_eq, ok, Bool-cases, subst, beq_self,
}
use general_ai_core.SourceChange.Paths.{Bytes, list_eq}
use general_ai_core.SourceChange.Errors.{
  ProposalState, draft, verified, approved, applied, rolled_back,
}
use general_ai_core.SourceChange.Snapshot.{Hashing}
use general_ai_core.SourceChange.Patch.{SourcePatch}
use general_ai_core.SourceChange.Proposal.{
  ApprovalRecord, ChangeProposal, patch_hash, seal, may_become, with_state, with_approval,
  with_applied,
}
use general_ai_core.Prelude.Calls.{Answers}

abbrev pub needs_approval : ProposalState → Bool
needs_approval approved = true
needs_approval applied = true
needs_approval rolled_back = true
needs_approval _ = false

abbrev pub cites : Option ApprovalRecord → Bytes → Bool
cites none version = false
cites (some a) version = a.approved_patch_hash == version

-- The version is the hash of the patch and its base; once approved, applied or rolled back, the
-- record has an approval that cites this version.
abbrev pub is_bound : Hashing → ChangeProposal → Bool
is_bound h p =
    p.patch_hash == patch_hash h p.patch p.base_snapshot_id
    && (not (needs_approval p.state) || cites p.approval p.patch_hash)

abbrev pub IsBound : Hashing → ChangeProposal → Type 0
IsBound h p = is_bound h p ≡ true

-- What needs an approval, other than by the approval itself, is reached from what needed one.
needs_kept :
    (s t : ProposalState)
    → may_become s t ≡ true
    → (needs_approval t ≡ false) ⊎ (t ≡ rolled_back)
    → (not (needs_approval t) || needs_approval s) ≡ true
needs_kept s t may (inl free) = rw free refl
needs_kept draft t may (inr e) =
    let bad : may_become draft rolled_back ≡ true = subst (λ x. may_become draft x ≡ true) e may in
    cc
needs_kept verified t may (inr e) =
    let bad : may_become verified rolled_back ≡ true =
      subst (λ x. may_become verified x ≡ true) e may in
    cc
needs_kept s t may (inr e) = ground arith

module _ (h : Hashing) where
  -- Sealing changes nothing in a record whose version was right.
  pub seal_same :
      (p : ChangeProposal)
      → p.patch_hash ≡ patch_hash h p.patch p.base_snapshot_id
      → seal h p ≡ ok p
  unfolding seal
  seal_same p v = rw (← v) (rw (beq_self p.patch_hash) (ground arith))

  IsBound-version :
      (p : ChangeProposal) → IsBound h p → p.patch_hash ≡ patch_hash h p.patch p.base_snapshot_id
  IsBound-version p b =
      ground (arith, list_eq.beq_iff p.patch_hash (patch_hash h p.patch p.base_snapshot_id))

  pub with_state-IsBound :
      (target : ProposalState) (p : ChangeProposal)
      → (needs_approval target ≡ false) ⊎ (target ≡ rolled_back)
      → IsBound h p
      → Answers (IsBound h) (with_state h target p)
  unfolding with_state
  with_state-IsBound target p t b = elim (Bool-cases (may_become p.state target)) [
    | inl may ↦ rw may (
        rw (seal_same (record p { state = target }) (IsBound-version p b))
          (ground (arith, b, needs_kept p.state target may t)))
    | inr never ↦ rw never tt
  ]

  pub with_approval-IsBound :
      (a : ApprovalRecord) (p : ChangeProposal)
      → IsBound h p
      → Answers (IsBound h) (with_approval h a p)
  unfolding with_approval
  with_approval-IsBound a p b = elim (Bool-cases (may_become p.state approved)) [
    | inl may ↦ elim (Bool-cases (a.approved_patch_hash == p.patch_hash)) [
      | inl cited ↦ rw may (
          rw cited (
            rw (seal_same (record p { state = approved; approval = some a }) (IsBound-version p b))
              (ground (arith, b, cited))))
      | inr other ↦ rw may (rw other tt)
    ]
    | inr never ↦ rw never tt
  ]

  pub with_applied-IsBound :
      (id : Bytes) (inverse : SourcePatch) (p : ChangeProposal)
      → IsBound h p
      → Answers (IsBound h) (with_applied h id inverse p)
  unfolding with_applied
  with_applied-IsBound id inverse p b = elim (Bool-cases (may_become p.state applied)) [
    | inl may ↦ rw may (
        rw
          (seal_same
            (record p {
              state = applied;
              applied_snapshot_id = some id;
              inverse_patch = some inverse;
            })
            (IsBound-version p b))
          (ground (arith, b, may)))
    | inr never ↦ rw never tt
  ]

  -- A record that is made without a version gets the right one.
  pub seal_new :
      (p : ChangeProposal)
      → p.patch_hash ≡ []
      → needs_approval p.state ≡ false
      → Answers (IsBound h) (seal h p)
  unfolding seal
  seal_new p e n =
      rw e (rw n (ground (arith, beq_self (patch_hash h p.patch p.base_snapshot_id), n)))
