-- ===== src/SourceChange/Patch/Inverse.antt =====
-- The operations of an inverse patch: they are valid, they apply, and what each path holds after them.
use general_ai_core.Prelude.{
  ◌≡◌, ◌⊎◌, inl, inr, refl, ap, false, Option, none, some, List, [], ◌∷◌, arith, lookup, ◌==◌,
  nat_eq, string_eq, pair_eq, if◌then◌else◌, ok, err, Bool-cases, Result-cases, ◌∙◌, member,
  beq_self, All, All-map,
}
use general_ai_core.SourceChange.Paths.{FilePath, Bytes, list_eq, list_beq_iff, path_order}
use general_ai_core.SourceChange.Errors.{malformed_patch, duplicate_path}
use general_ai_core.SourceChange.Snapshot.{Files, validate_path}
use general_ai_core.SourceChange.Patch.{
  PatchOperation, add_file, modify_file, delete_file, path_of, applicable, all_applicable,
  check_unique, require_some, make_operation, inverse_of, inverse_operations,
}
use general_ai_core.SourceChange.Patch.Effect.{result_of, effect, IsUntouched, IsUnique}

-- The inverse operation, at the content that the base has.
undo : PatchOperation → Option Bytes → PatchOperation
undo (add_file p c) o = delete_file p
undo (modify_file p c) none = delete_file p
undo (modify_file p c) (some old) = modify_file p old
undo (delete_file p) none = delete_file p
undo (delete_file p) (some old) = add_file p old

pub undo_all : List PatchOperation → Files → List PatchOperation
undo_all [] d = []
undo_all (op ∷ ops) d = undo op (lookup (path_of op) d) ∷ undo_all ops d

path_of-undo : (op : PatchOperation) (o : Option Bytes) → path_of (undo op o) ≡ path_of op
unfolding undo
path_of-undo (add_file p c) o = refl
path_of-undo (modify_file p c) none = refl
path_of-undo (modify_file p c) (some old) = refl
path_of-undo (delete_file p) none = refl
path_of-undo (delete_file p) (some old) = refl

-- A path that passed its validation.
abbrev pub IsValidPath : PatchOperation → Type 0
IsValidPath op = validate_path (path_of op) ≡ ok tt

module _ (d : Files) where
  result_of-undo :
      (op : PatchOperation)
      → applicable op d ≡ ok tt
      → result_of (undo op (lookup (path_of op) d)) ≡ lookup (path_of op) d
  unfolding undo
  result_of-undo (add_file p c) h = ground arith
  result_of-undo (modify_file p c) h = ground arith
  result_of-undo (delete_file p) h = ground arith

  inverse_of-undo :
      (op : PatchOperation)
      → IsValidPath op
      → applicable op d ≡ ok tt
      → inverse_of op (lookup (path_of op) d) ≡ ok (undo op (lookup (path_of op) d))
  unfolding undo make_operation
  inverse_of-undo (add_file p c) v h = ground arith
  inverse_of-undo (modify_file p c) v h = ground arith
  inverse_of-undo (delete_file p) v h = ground arith

  applicable-undo :
      (op : PatchOperation) (d' : Files)
      → applicable op d ≡ ok tt
      → lookup (path_of op) d' ≡ result_of op
      → applicable (undo op (lookup (path_of op) d)) d' ≡ ok tt
  unfolding undo
  applicable-undo (add_file p c) d' h q = ground arith
  applicable-undo (modify_file p c) d' h q = ground arith
  applicable-undo (delete_file p) d' h q = ground arith

  head_applicable :
      (op : PatchOperation) (ops : List PatchOperation)
      → all_applicable (op ∷ ops) d ≡ ok tt
      → (applicable op d ≡ ok tt) × (all_applicable ops d ≡ ok tt)
  head_applicable op ops h = elim (Result-cases (applicable op d)) [
    | inl (x, fine) ↦ (fine, rw fine at h)
    | inr (e, failed) ↦ let bad : err e ≡ ok tt = rw failed at h in cc
  ]

  pub inverse_operations-undo :
      (ops : List PatchOperation)
      → All IsValidPath ops
      → all_applicable ops d ≡ ok tt
      → inverse_operations ops d ≡ ok (undo_all ops d)
  unfolding undo_all
  inverse_operations-undo [] v h = refl
  inverse_operations-undo (op ∷ ops) v h =
      let (first, rest) = head_applicable op ops h in
      rw (inverse_of-undo op v.0 first) (rw (inverse_operations-undo ops v.1 rest) refl)

  effect-undo_head :
      (k : FilePath) (op : PatchOperation) (ops : List PatchOperation) (x : Option Bytes)
      → effect k (undo_all (op ∷ ops) d) x
        ≡ effect k
            (undo_all ops d)
            (if path_of op == k then result_of (undo op (lookup (path_of op) d)) else x)
  unfolding undo_all
  effect-undo_head k op ops x =
      ap
        (λ j.
          effect k (undo_all ops d)
            (if j == k then result_of (undo op (lookup (path_of op) d)) else x))
        (path_of-undo op (lookup (path_of op) d))

  effect-undo_nil : (k : FilePath) (x : Option Bytes) → effect k (undo_all [] d) x ≡ x
  unfolding undo_all
  effect-undo_nil k x = refl

  -- The inverse's effect on a path: the base's content, or nothing at all on a path it leaves alone.
  pub effect-undo :
      (k : FilePath) (ops : List PatchOperation) (x : Option Bytes)
      → all_applicable ops d ≡ ok tt
      → (effect k (undo_all ops d) x ≡ lookup k d)
        ⊎ (IsUntouched k ops × (effect k (undo_all ops d) x ≡ x))
  effect-undo k [] x h = inr (tt, effect-undo_nil k x)
  effect-undo k (op ∷ ops) x h =
      let (first, rest) = head_applicable op ops h in
      let head = effect-undo_head k op ops x in
      elim (Bool-cases (path_of op == k)) [
        | inl same ↦
            let back : result_of (undo op (lookup (path_of op) d)) ≡ lookup k d =
              result_of-undo op first
              ∙ ap (λ j. lookup j d) ((list_eq.beq_iff (path_of op) k).0 same) in
            let head' : effect k (undo_all (op ∷ ops) d) x
                ≡ effect k (undo_all ops d) (result_of (undo op (lookup (path_of op) d))) =
              rw same at head in
            elim (effect-undo k ops (result_of (undo op (lookup (path_of op) d))) rest) [
              | inl done ↦ inl (head' ∙ done)
              | inr (alone, left) ↦ inl (head' ∙ left ∙ back)
            ]
        | inr other ↦
            let head' : effect k (undo_all (op ∷ ops) d) x ≡ effect k (undo_all ops d) x =
              rw other at head in
            elim (effect-undo k ops x rest) [
              | inl done ↦ inl (head' ∙ done)
              | inr (alone, left) ↦ inr ((other, alone), head' ∙ left)
            ]
      ]

  pub undo_all_applicable :
      (ops : List PatchOperation) (d' : Files)
      → all_applicable ops d ≡ ok tt
      → All (λ op. lookup (path_of op) d' ≡ result_of op) ops
      → all_applicable (undo_all ops d) d' ≡ ok tt
  unfolding undo_all
  undo_all_applicable [] d' h q = refl
  undo_all_applicable (op ∷ ops) d' h q =
      let (first, rest) = head_applicable op ops h in
      rw (applicable-undo op d' first q.0) (undo_all_applicable ops d' rest q.1)

  pub check_unique-undo_all :
      (ops : List PatchOperation) (seen : List FilePath)
      → check_unique (undo_all ops d) seen ≡ check_unique ops seen
  unfolding undo_all
  check_unique-undo_all [] seen = refl
  check_unique-undo_all (op ∷ ops) seen =
      rw (path_of-undo op (lookup (path_of op) d))
        (rw (check_unique-undo_all ops (path_of op ∷ seen)) refl)

  pub require_some-undo_all :
      (ops : List PatchOperation) → require_some (undo_all ops d) ≡ require_some ops
  unfolding undo_all
  require_some-undo_all [] = refl
  require_some-undo_all (op ∷ ops) = refl

-- What the check of duplicate paths has found.
pub check_unique-IsUnique :
    (ops : List PatchOperation) (seen : List FilePath)
    → check_unique ops seen ≡ ok tt
    → IsUnique ops × All (λ op. member (path_of op) seen ≡ false) ops
check_unique-IsUnique [] seen h = (tt, tt)
check_unique-IsUnique (op ∷ ops) seen h = elim (Bool-cases (member (path_of op) seen)) [
  | inl found ↦ let bad : err (malformed_patch duplicate_path) ≡ ok tt = rw found at h in cc
  | inr fresh ↦
      let (unique, apart) = check_unique-IsUnique ops (path_of op ∷ seen) (rw fresh at h) in
      ((All-map (untouched) ops apart, unique), (fresh, All-map (unseen) ops apart))
]
  where
    untouched :
        (o : PatchOperation)
        → member (path_of o) (path_of op ∷ seen) ≡ false
        → (path_of o == path_of op) ≡ false
    untouched o q = ground (arith, list_beq_iff (path_of o) (path_of op), beq_self (path_of op))

    unseen :
        (o : PatchOperation)
        → member (path_of o) (path_of op ∷ seen) ≡ false
        → member (path_of o) seen ≡ false
    unseen o q = ground arith
