-- ===== src/SourceChange/Patch/Rollback.antt =====
-- Rollback: the inverse of a patch brings back the snapshot that it was applied to.
use general_ai_core.Prelude.{
  ◌≡◌, inl, inr, refl, sym, ap, List, [], lookup, nat_eq, string_eq, pair_eq, ok, seq-ok, ◌∙◌, All,
  All-map,
}
use general_ai_core.Prelude.Sorted.{sort, lookup-sort, sort-IsSorted, eq_of_lookup}
use general_ai_core.SourceChange.Paths.{FilePath, list_eq, path_order}
use general_ai_core.SourceChange.Snapshot.{Files, Hashing, SourceSnapshot, validate_all, from_files}
use general_ai_core.SourceChange.Patch.{
  PatchOperation, path_of, apply_operations, all_applicable, check_unique, require_some, make_patch,
  SourcePatch, apply_patch, invert_patch,
}
use general_ai_core.SourceChange.Patch.Effect.{
  result_of, effect, lookup-apply_operations, effect_untouched, IsUnique, effect_unique,
}
use general_ai_core.SourceChange.Patch.Inverse.{
  undo_all, IsValidPath, inverse_operations-undo, effect-undo, undo_all_applicable,
  check_unique-undo_all, require_some-undo_all, check_unique-IsUnique,
}

-- The parts of a snapshot that `from_files` returned.
from_files_parts :
    (h : Hashing) (raw : Files) (s : SourceSnapshot) → from_files h raw ≡ ok s → s.files ≡ sort raw
unfolding from_files
from_files_parts h raw s q = let (valid, made) = seq-ok (validate_all h (sort raw)) _ s q in cc

-- `from_files` sees only the sorted files.
from_files_cong : (h : Hashing) (a b : Files) → sort a ≡ sort b → from_files h a ≡ from_files h b
unfolding from_files
from_files_cong h a b q = rw q refl

apply_patch_parts :
    (h : Hashing) (base next : SourceSnapshot) (patch : SourcePatch)
    → apply_patch h base patch ≡ ok next
    → (all_applicable patch.operations base.files ≡ ok tt)
      × (from_files h (apply_operations patch.operations base.files) ≡ ok next)
unfolding apply_patch
apply_patch_parts h base next patch q = seq-ok (all_applicable patch.operations base.files) _ next q

make_patch_parts :
    (ops : List PatchOperation) (patch : SourcePatch)
    → make_patch ops ≡ ok patch
    → (require_some ops ≡ ok tt) × (check_unique ops [] ≡ ok tt) × (patch.operations ≡ ops)
unfolding make_patch
make_patch_parts ops patch q =
    let (filled, rest) = seq-ok (require_some ops) _ patch q in
    let (once, made) = seq-ok (check_unique ops []) (ok (record { operations = ops })) patch rest in
    (filled, once, cc)

make_patch-undo_all :
    (d : Files) (ops : List PatchOperation) (patch : SourcePatch)
    → make_patch ops ≡ ok patch
    → make_patch (undo_all ops d) ≡ ok (record { operations = undo_all ops d })
unfolding make_patch
make_patch-undo_all d ops patch made =
    let (filled, once, same) = make_patch_parts ops patch made in
    let filled' = require_some-undo_all d ops ∙ filled in
    let once' = check_unique-undo_all d ops [] ∙ once in rw filled' (rw once' refl)

invert_patch-undo_all :
    (base : SourceSnapshot) (patch : SourcePatch)
    → All IsValidPath patch.operations
    → make_patch patch.operations ≡ ok patch
    → all_applicable patch.operations base.files ≡ ok tt
    → invert_patch patch base ≡ ok (record { operations = undo_all patch.operations base.files })
unfolding invert_patch
invert_patch-undo_all base patch v made fits =
    rw (inverse_operations-undo base.files patch.operations v fits)
      (make_patch-undo_all base.files patch.operations patch made)

-- The files after the inverse have the base's lookups.
lookup_undone :
    (d d' : Files) (ops : List PatchOperation)
    → all_applicable ops d ≡ ok tt
    → ((k : FilePath) → lookup k d' ≡ effect k ops (lookup k d))
    → (k : FilePath) → lookup k (apply_operations (undo_all ops d) d') ≡ lookup k d
lookup_undone d d' ops fits seen k =
    lookup-apply_operations k (undo_all ops d) d' ∙ elim (effect-undo d k ops (lookup k d') fits) [
      | inl done ↦ done
      | inr (alone, left) ↦ left ∙ seen k ∙ effect_untouched k ops (lookup k d) alone
    ]

All-results :
    (d d' : Files) (ops : List PatchOperation)
    → IsUnique ops
    → ((k : FilePath) → lookup k d' ≡ effect k ops (lookup k d))
    → All (λ op. lookup (path_of op) d' ≡ result_of op) ops
All-results d d' ops unique seen =
    All-map (λ op q. seen (path_of op) ∙ q) ops (effect_unique ops (λ k. lookup k d) unique)

apply_patch-undo_all :
    (h : Hashing) (base next : SourceSnapshot) (ops : List PatchOperation)
    → all_applicable (undo_all ops base.files) next.files ≡ ok tt
    → apply_patch h next (record { operations = undo_all ops base.files })
      ≡ from_files h (apply_operations (undo_all ops base.files) next.files)
unfolding apply_patch
apply_patch-undo_all h base next ops fits = rw fits refl

-- Two lists of files with the same lookups are sorted to the same files.
sort_cong : (a b : Files) → ((k : FilePath) → lookup k a ≡ lookup k b) → sort a ≡ sort b
sort_cong a b q =
    eq_of_lookup (sort a) (sort b) (sort-IsSorted a) (sort-IsSorted b)
      (λ k. lookup-sort k a ∙ q k ∙ sym (lookup-sort k b))

-- A patch with valid paths that was made by `make_patch` and that applied to a snapshot of
-- `from_files` has an inverse, the inverse applies to the result, and it brings back the very
-- snapshot that the patch was applied to, its id included.
pub rollback_restores :
    (h : Hashing) (raw : Files) (base next : SourceSnapshot) (patch : SourcePatch)
    → from_files h raw ≡ ok base
    → All IsValidPath patch.operations
    → make_patch patch.operations ≡ ok patch
    → apply_patch h base patch ≡ ok next
    → (q : SourcePatch) × (invert_patch patch base ≡ ok q) × (apply_patch h next q ≡ ok base)
rollback_restores h raw base next patch from valid made applied =
    let (fits, after_files) = apply_patch_parts h base next patch applied in
    let base_files = from_files_parts h raw base from in
    let next_files =
      from_files_parts h (apply_operations patch.operations base.files) next after_files in
    let (filled, once, same) = make_patch_parts patch.operations patch made in
    let unique = (check_unique-IsUnique patch.operations [] once).0 in
    let seen : (k : FilePath)
        → lookup k next.files ≡ effect k patch.operations (lookup k base.files) =
      λ k.
        ap (lookup k) next_files
        ∙ lookup-sort k (apply_operations patch.operations base.files)
        ∙ lookup-apply_operations k patch.operations base.files in
    let fits_back =
      undo_all_applicable base.files patch.operations next.files fits
        (All-results base.files next.files patch.operations unique seen) in
    let files_back =
      sort_cong (apply_operations (undo_all patch.operations base.files) next.files) raw (λ k.
        lookup_undone base.files next.files patch.operations fits seen k
        ∙ ap (lookup k) base_files
        ∙ lookup-sort k raw) in
    (
      record { operations = undo_all patch.operations base.files },
      invert_patch-undo_all base patch valid made fits,
      apply_patch-undo_all h base next patch.operations fits_back
          ∙ from_files_cong h _ raw files_back
          ∙ from,
    )
