-- ===== src/SourceChange/Proposal.antt =====
-- core/sourcechange/proposal.py, with `patch_hash` of core/sourcechange/patch.py: the records of a
-- proposal's life. Ids and times are numbers.
use general_ai_core.Prelude.{
  not, ℕ, Bool, true, false, ◌&&◌, Option, some, String, List, [], ◌∷◌, ◌++◌, ◌==◌, nat_eq,
  string_eq, pair_eq, if◌then◌else◌, Result, ok, err, ◌>>◌, raise_if,
}
use general_ai_core.SourceChange.Paths.{Bytes, list_eq, path_less}
use general_ai_core.SourceChange.Errors.{
  ProposalState, draft, verified, failed_verification, approved, rejected, applied, rolled_back,
  SourceChangeError, invalid_transition, approval_hash_mismatch,
}
use general_ai_core.SourceChange.Snapshot.{Hashing, file_content_hash}
use general_ai_core.SourceChange.Patch.{
  PatchOperation, add_file, modify_file, delete_file, path_of, SourcePatch,
}

-- `sorted(patch.operations, key=lambda item: item.path)`, which is stable.
abbrev pub put_operation : PatchOperation → List PatchOperation → List PatchOperation
put_operation op [] = op ∷ []
put_operation op (x ∷ xs) =
    if path_less (path_of x) (path_of op) then x ∷ put_operation op xs else op ∷ x ∷ xs

abbrev pub sort_operations : List PatchOperation → List PatchOperation
sort_operations [] = []
sort_operations (op ∷ ops) = put_operation op (sort_operations ops)

-- The values of `PatchOpKind`, as code points.
abbrev pub kind_value : PatchOperation → List ℕ
kind_value (add_file p c) = b'a' ∷ b'd' ∷ b'd' ∷ b'_' ∷ b'f' ∷ b'i' ∷ b'l' ∷ b'e' ∷ []
kind_value (modify_file p c) =
    b'm' ∷ b'o' ∷ b'd' ∷ b'i' ∷ b'f' ∷ b'y' ∷ b'_' ∷ b'f' ∷ b'i' ∷ b'l' ∷ b'e' ∷ []
kind_value (delete_file p) =
    b'd' ∷ b'e' ∷ b'l' ∷ b'e' ∷ b't' ∷ b'e' ∷ b'_' ∷ b'f' ∷ b'i' ∷ b'l' ∷ b'e' ∷ []

pub record ApprovalRecord : Type 0 where
  pub approver_id : ℕ
  pub approved_patch_hash : Bytes
  pub decided_at : ℕ

pub record ChangeProposal : Type 0 where
  pub tenant_id : ℕ
  pub actor_id : ℕ
  pub base_snapshot_id : Bytes
  pub patch : SourcePatch
  pub rationale : String
  pub proposal_id : ℕ
  pub state : ProposalState
  pub patch_hash : Bytes
  pub created_at : ℕ
  pub approval : Option ApprovalRecord
  pub applied_snapshot_id : Option Bytes
  pub inverse_patch : Option SourcePatch

-- `target in PROPOSAL_TRANSITIONS[state]`
abbrev pub may_become : ProposalState → ProposalState → Bool
may_become draft verified = true
may_become draft failed_verification = true
may_become verified approved = true
may_become verified rejected = true
may_become approved applied = true
may_become applied rolled_back = true
may_become _ _ = false

module _ (h : Hashing) where
  open h use {sha256, utf8}

  abbrev pub content_part : PatchOperation → Bytes
  content_part (add_file p c) = file_content_hash h c
  content_part (modify_file p c) = file_content_hash h c
  content_part (delete_file p) = []

  -- `_canonical`, over operations in order.
  abbrev pub canonical : List PatchOperation → Bytes
  canonical [] = []
  canonical (op ∷ ops) =
      utf8 (kind_value op ++ 0 ∷ (path_of op ++ 0 ∷ (content_part op ++ 1 ∷ []))) ++ canonical ops

  unfoldable pub patch_hash : SourcePatch → Bytes → Bytes
  patch_hash patch base_snapshot_id =
      sha256 (canonical (sort_operations patch.operations) ++ 2 ∷ base_snapshot_id)

  -- `ChangeProposal.__post_init__`, which `replace` runs as well.
  unfoldable pub seal : ChangeProposal → Result SourceChangeError ChangeProposal
  seal p =
      let derived = patch_hash p.patch p.base_snapshot_id in
      if not (p.patch_hash == []) && not (p.patch_hash == derived)
      then err (approval_hash_mismatch derived p.patch_hash)
      else ok (record p { patch_hash = derived })

  abbrev pub check_transition : ChangeProposal → ProposalState → Result SourceChangeError (Unit {0})
  check_transition p target =
      raise_if (not (may_become p.state target)) (invalid_transition p.state target)

  unfoldable pub with_state :
      ProposalState → ChangeProposal → Result SourceChangeError ChangeProposal
  unfolding seal
  with_state target p = do check_transition p target; seal (record p { state = target })

  unfoldable pub with_approval :
      ApprovalRecord → ChangeProposal → Result SourceChangeError ChangeProposal
  unfolding seal
  with_approval a p = do
    check_transition p approved
    raise_if (not (a.approved_patch_hash == p.patch_hash))
        (approval_hash_mismatch p.patch_hash a.approved_patch_hash)
    seal (record p { state = approved; approval = some a })

  unfoldable pub with_applied :
      Bytes → SourcePatch → ChangeProposal → Result SourceChangeError ChangeProposal
  unfolding seal
  with_applied snapshot_id inverse p = do
    check_transition p applied
    seal (record p {
      state = applied;
      applied_snapshot_id = some snapshot_id;
      inverse_patch = some inverse;
    })
