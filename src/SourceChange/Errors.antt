-- ===== src/SourceChange/Errors.antt =====
-- The exceptions of core/sourcechange/errors.py and of core/workspace/errors.py, and the states of a
-- proposal in core/sourcechange/proposal.py, which one of them names.
use general_ai_core.Prelude.{Option, nat_eq, string_eq, pair_eq}
use general_ai_core.SourceChange.Paths.{FilePath, Bytes}

pub data PathFault : Type 0 where
  empty_path not_relative backslash control_character empty_segment dot_segment : PathFault

pub data Fault : Type 0 where
  target_exists target_missing : Fault

pub data MalformedReason : Type 0 where
  delete_with_content content_missing no_operations duplicate_path no_checks duplicate_check :
      MalformedReason

pub data ProposalState : Type 0 where
  draft verified failed_verification approved rejected applied rolled_back : ProposalState

-- `UnknownSnapshot` names no id where a proposal has recorded none.
pub data SourceChangeError : Type 0 where
  invalid_path : FilePath → PathFault → SourceChangeError
  malformed_patch : MalformedReason → SourceChangeError
  patch_not_applicable : FilePath → Fault → SourceChangeError
  invalid_transition : ProposalState → ProposalState → SourceChangeError
  approval_hash_mismatch : Bytes → Bytes → SourceChangeError
  proposal_not_found : SourceChangeError
  unknown_snapshot : Option Bytes → SourceChangeError
  snapshot_integrity non_deterministic : Bytes → SourceChangeError
