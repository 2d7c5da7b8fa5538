-- ===== src/SourceChange/Patch/Examples.antt =====
-- A rollback on two files, with a hash that keeps its input.
use general_ai_core.Prelude.{◌≡◌, refl, [], ◌∷◌, nat_eq, string_eq, pair_eq, ok}
use general_ai_core.SourceChange.Paths.{list_eq, path_order}
use general_ai_core.SourceChange.Snapshot.{
  Files, Hashing, SourceSnapshot, validate_path, file_content_hash, from_files,
}
use general_ai_core.SourceChange.Patch.{
  add_file, modify_file, delete_file, make_patch, SourcePatch, apply_patch, invert_patch,
}
use general_ai_core.SourceChange.Patch.Rollback.{rollback_restores}

abbrev hashing : Hashing
hashing = record { sha256 = λ b. b; utf8 = λ p. p }

abbrev raw : Files
raw = (b'b' ∷ [], 1 ∷ []) ∷ (b'a' ∷ [], 2 ∷ 3 ∷ []) ∷ []

abbrev base_files : Files
base_files = (b'a' ∷ [], 2 ∷ 3 ∷ []) ∷ (b'b' ∷ [], 1 ∷ []) ∷ []

abbrev next_files : Files
next_files = (b'a' ∷ [], 7 ∷ []) ∷ (b'c' ∷ [], 9 ∷ []) ∷ []

abbrev base : SourceSnapshot
base = record { snapshot_id = b'a' ∷ 0 ∷ 2 ∷ 3 ∷ 0 ∷ b'b' ∷ 0 ∷ 1 ∷ 0 ∷ []; files = base_files }

abbrev next : SourceSnapshot
next = record { snapshot_id = b'a' ∷ 0 ∷ 7 ∷ 0 ∷ b'c' ∷ 0 ∷ 9 ∷ 0 ∷ []; files = next_files }

abbrev patch : SourcePatch
patch = record {
  operations =
      add_file (b'c' ∷ []) (9 ∷ [])
      ∷ delete_file (b'b' ∷ [])
      ∷ modify_file (b'a' ∷ []) (7 ∷ [])
      ∷ [];
}

from_files-raw : from_files hashing raw ≡ ok base
unfolding from_files validate_path file_content_hash
from_files-raw = refl

patch_made : make_patch patch.operations ≡ ok patch
unfolding make_patch
patch_made = refl

patch_applied : apply_patch hashing base patch ≡ ok next
unfolding apply_patch validate_path file_content_hash
patch_applied = refl

valid :
    (validate_path (b'c' ∷ []) ≡ ok tt)
    × (validate_path (b'b' ∷ []) ≡ ok tt)
    × (validate_path (b'a' ∷ []) ≡ ok tt)
unfolding validate_path
valid = (refl, refl, refl)

rollback_restores_example :
    (q : SourcePatch) × (invert_patch patch base ≡ ok q) × (apply_patch hashing next q ≡ ok base)
rollback_restores_example =
    rollback_restores hashing raw base next patch from_files-raw (valid.0, (valid.1, (valid.2, tt)))
      patch_made patch_applied
