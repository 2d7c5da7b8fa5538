-- ===== src/SourceChange/Patch/Effect.antt =====
-- What the operations of a patch do to each path.
use general_ai_core.Prelude.{
  ◌≡◌, refl, ap, false, Option, none, some, List, [], ◌∷◌, lookup, ◌==◌, nat_eq, string_eq, pair_eq,
  if◌then◌else◌, lookup-insert, lookup-erase, ◌∙◌, beq_self, All,
}
use general_ai_core.SourceChange.Paths.{FilePath, Bytes, list_eq}
use general_ai_core.SourceChange.Snapshot.{Files}
use general_ai_core.SourceChange.Patch.{
  PatchOperation, add_file, modify_file, delete_file, path_of, apply_operation, apply_operations,
}

-- What an operation leaves at its path.
abbrev pub result_of : PatchOperation → Option Bytes
result_of (add_file p c) = some c
result_of (modify_file p c) = some c
result_of (delete_file p) = none

-- What a list of operations leaves at a path that held `o`.
abbrev pub effect : FilePath → List PatchOperation → Option Bytes → Option Bytes
effect k [] o = o
effect k (op ∷ ops) o = effect k ops (if path_of op == k then result_of op else o)

lookup-apply_operation :
    (k : FilePath) (op : PatchOperation) (d : Files)
    → lookup k (apply_operation op d) ≡ (if path_of op == k then result_of op else lookup k d)
lookup-apply_operation k (add_file p c) d = lookup-insert p k c d
lookup-apply_operation k (modify_file p c) d = lookup-insert p k c d
lookup-apply_operation k (delete_file p) d = lookup-erase p k d

pub lookup-apply_operations :
    (k : FilePath) (ops : List PatchOperation) (d : Files)
    → lookup k (apply_operations ops d) ≡ effect k ops (lookup k d)
lookup-apply_operations k [] d = refl
lookup-apply_operations k (op ∷ ops) d =
    lookup-apply_operations k ops (apply_operation op d)
    ∙ ap (effect k ops) (lookup-apply_operation k op d)

-- No operation has the path.
abbrev pub IsUntouched : FilePath → List PatchOperation → Type 0
IsUntouched k = All (λ op. (path_of op == k) ≡ false)

pub effect_untouched :
    (k : FilePath) (ops : List PatchOperation) (o : Option Bytes)
    → IsUntouched k ops
    → effect k ops o ≡ o
effect_untouched k [] o h = refl
effect_untouched k (op ∷ ops) o h = rw h.0 (effect_untouched k ops o h.1)

-- Each path once.
abbrev pub IsUnique : List PatchOperation → Type 0
IsUnique [] = Unit
IsUnique (op ∷ ops) = IsUntouched (path_of op) ops × IsUnique ops

-- With each path once, every operation's result is what its path holds in the end.
pub effect_unique :
    (ops : List PatchOperation) (d : FilePath → Option Bytes)
    → IsUnique ops
    → All (λ op. effect (path_of op) ops (d (path_of op)) ≡ result_of op) ops
effect_unique [] d u = tt
effect_unique (op ∷ ops) d u = (
  rw (beq_self (path_of op)) (effect_untouched (path_of op) ops (result_of op) u.0),
  effect_unique ops (λ k. if path_of op == k then result_of op else d k) u.1,
)
