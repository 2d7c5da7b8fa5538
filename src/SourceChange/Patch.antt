-- ===== src/SourceChange/Patch.antt =====
-- core/sourcechange/patch.py: patches of full-content operations, applied and inverted.
pub mod Effect
pub mod Inverse
pub mod Rollback
mod Examples
use general_ai_core.Prelude.{
  ◌↔◌, not, nat_beq, ℕ, zero, suc, ◌+◌, ◌-◌, ◌≤◌, ◌<◌, ◌≡◌, ◌≢◌, ◌⊎◌, inl, inr, refl, sym, ap, Bool,
  true, false, ◌&&◌, ◌||◌, Option, none, some, String, List, [], ◌∷◌, ◌++◌, arith, Dict, lookup,
  insert, erase, contains, ◌==◌, nat_eq, string_eq, pair_eq, concat, if◌then◌else◌, is_some, Result,
  ok, err, ◌>>=◌, ◌>>◌, raise_if, or_raise, after, Bool-cases, Option-cases, Result-cases,
  lookup-insert, lookup-insert_self, lookup-insert_ne, lookup-erase, lookup-erase_self, false≢true,
  ◌∙◌, subst, take, drop, keep, member, take-append-drop, length-append, get_or, values, keys, map,
  ◌*◌, ◌/◌, max, beq_self, beq_ne, Eq, length, ltb, leb, All,
}
use general_ai_core.SourceChange.Paths.{FilePath, Bytes, list_eq}
use general_ai_core.SourceChange.Errors.{
  SourceChangeError, invalid_path, malformed_patch, patch_not_applicable, target_exists,
  target_missing, delete_with_content, content_missing, no_operations, duplicate_path,
}
use general_ai_core.SourceChange.Snapshot.{
  Files, Hashing, SourceSnapshot, validate_path, from_files, file_content_hash,
}

pub data PatchOpKind : Type 0 where
  adds modifies deletes : PatchOpKind

-- An operation that passed its construction: only these shapes exist.
pub data PatchOperation : Type 0 where
  add_file modify_file : FilePath → Bytes → PatchOperation
  delete_file : FilePath → PatchOperation

abbrev pub path_of : PatchOperation → FilePath
path_of (add_file p c) = p
path_of (modify_file p c) = p
path_of (delete_file p) = p

-- The shape rules of `PatchOperation.__post_init__`, after the path's.
abbrev pub shaped : PatchOpKind → FilePath → Option Bytes → Result SourceChangeError PatchOperation
shaped adds p (some c) = ok (add_file p c)
shaped adds p none = err (malformed_patch content_missing)
shaped modifies p (some c) = ok (modify_file p c)
shaped modifies p none = err (malformed_patch content_missing)
shaped deletes p none = ok (delete_file p)
shaped deletes p (some c) = err (malformed_patch delete_with_content)

unfoldable pub make_operation :
    PatchOpKind → FilePath → Option Bytes → Result SourceChangeError PatchOperation
make_operation kind p content = do validate_path p; shaped kind p content

pub record SourcePatch : Type 0 where
  pub operations : List PatchOperation

abbrev pub check_unique : List PatchOperation → List FilePath → Result SourceChangeError (Unit {0})
check_unique [] seen = ok tt
check_unique (op ∷ ops) seen =
    if member (path_of op) seen
    then err (malformed_patch duplicate_path)
    else check_unique ops (path_of op ∷ seen)

abbrev pub require_some : List PatchOperation → Result SourceChangeError (Unit {0})
require_some [] = err (malformed_patch no_operations)
require_some (op ∷ ops) = ok tt

-- `SourcePatch.__post_init__`
unfoldable pub make_patch : List PatchOperation → Result SourceChangeError SourcePatch
make_patch ops = do require_some ops; check_unique ops []; ok (record { operations = ops })

-- The applicability of one operation.
abbrev pub applicable : PatchOperation → Files → Result SourceChangeError (Unit {0})
applicable (add_file p c) files = raise_if (contains p files) (patch_not_applicable p target_exists)
applicable (modify_file p c) files =
    raise_if (not (contains p files)) (patch_not_applicable p target_missing)
applicable (delete_file p) files =
    raise_if (not (contains p files)) (patch_not_applicable p target_missing)

abbrev pub all_applicable : List PatchOperation → Files → Result SourceChangeError (Unit {0})
all_applicable [] files = ok tt
all_applicable (op ∷ ops) files = applicable op files >> all_applicable ops files

abbrev pub apply_operation : PatchOperation → Files → Files
apply_operation (add_file p c) files = insert p c files
apply_operation (modify_file p c) files = insert p c files
apply_operation (delete_file p) files = erase p files

abbrev pub apply_operations : List PatchOperation → Files → Files
apply_operations [] files = files
apply_operations (op ∷ ops) files = apply_operations ops (apply_operation op files)

unfoldable pub apply_patch :
    Hashing → SourceSnapshot → SourcePatch → Result SourceChangeError SourceSnapshot
unfolding from_files
apply_patch h snapshot patch = do
  all_applicable patch.operations snapshot.files
  from_files h (apply_operations patch.operations snapshot.files)

-- The inverse of one operation, with the content that the base has at its path.
abbrev pub inverse_of : PatchOperation → Option Bytes → Result SourceChangeError PatchOperation
inverse_of (add_file p c) (some old) = err (patch_not_applicable p target_exists)
inverse_of (add_file p c) none = make_operation deletes p none
inverse_of (modify_file p c) none = err (patch_not_applicable p target_missing)
inverse_of (modify_file p c) (some old) = make_operation modifies p (some old)
inverse_of (delete_file p) none = err (patch_not_applicable p target_missing)
inverse_of (delete_file p) (some old) = make_operation adds p (some old)

abbrev pub inverse_operations :
    List PatchOperation → Files → Result SourceChangeError (List PatchOperation)
inverse_operations [] files = ok []
inverse_operations (op ∷ ops) files = do
  inverse ← inverse_of op (lookup (path_of op) files)
  rest ← inverse_operations ops files
  ok (inverse ∷ rest)

unfoldable pub invert_patch : SourcePatch → SourceSnapshot → Result SourceChangeError SourcePatch
unfolding make_operation make_patch
invert_patch patch base = do
  inverse ← inverse_operations patch.operations base.files
  make_patch inverse
