-- ===== src/SourceChange/Snapshot.antt =====
-- core/sourcechange/snapshot.py with `validate_path` of core/workspace/files.py.
use general_ai_core.Prelude.{
  ℕ, Bool, false, ◌||◌, List, [], ◌∷◌, ◌++◌, Dict, ◌==◌, nat_eq, string_eq, pair_eq, if◌then◌else◌,
  Result, ok, err, ◌>>◌, raise_if, ltb,
}
use general_ai_core.Prelude.Sorted.{sort}
use general_ai_core.SourceChange.Paths.{FilePath, Bytes, list_eq, path_order}
use general_ai_core.SourceChange.Errors.{
  empty_path, not_relative, backslash, control_character, empty_segment, dot_segment,
  SourceChangeError, invalid_path,
}

abbrev pub Files : Type 0
Files = Dict FilePath Bytes

-- `hashlib.sha256(...).hexdigest()` and `str.encode`, which the repository does not implement.
pub record Hashing : Type 0 where
  pub sha256 : Bytes → Bytes
  pub utf8 : FilePath → Bytes

pub record SourceSnapshot : Type 0 where
  pub snapshot_id : Bytes
  pub files : Files

-- `path.split("/")`, with the segment read so far.
abbrev pub split_from : List ℕ → List ℕ → List (List ℕ)
split_from segment [] = segment ∷ []
split_from segment (c ∷ cs) =
    if c == b'/' then segment ∷ split_from [] cs else split_from (segment ++ c ∷ []) cs

-- `any(ch in path)`
abbrev pub any_char : (ℕ → Bool) → List ℕ → Bool
any_char p [] = false
any_char p (c ∷ cs) = p c || any_char p cs

abbrev pub check_segments : FilePath → List (List ℕ) → Result SourceChangeError (Unit {0})
check_segments path [] = ok tt
check_segments path (s ∷ segments) =
    if s == []
    then err (invalid_path path empty_segment)
    else if s == (b'.' ∷ []) || s == (b'.' ∷ b'.' ∷ [])
    then err (invalid_path path dot_segment)
    else check_segments path segments

abbrev pub starts_with_slash : FilePath → Bool
starts_with_slash [] = false
starts_with_slash (c ∷ cs) = c == b'/'

unfoldable pub validate_path : FilePath → Result SourceChangeError (Unit {0})
validate_path path = do
  raise_if (path == []) (invalid_path path empty_path)
  raise_if (starts_with_slash path) (invalid_path path not_relative)
  raise_if (any_char (λ c. c == 92) path) (invalid_path path backslash)
  raise_if (any_char (λ c. ltb c 32 || c == 127) path) (invalid_path path control_character)
  check_segments path (split_from [] path)

module _ (h : Hashing) where
  open h use {sha256, utf8}

  unfoldable pub file_content_hash : Bytes → Bytes
  file_content_hash content = sha256 content

  -- The bytes that the digest is fed, over files in order.
  abbrev pub manifest_bytes : Files → Bytes
  manifest_bytes [] = []
  manifest_bytes ((path, content) ∷ files) =
      utf8 path ++ 0 ∷ (file_content_hash content ++ 0 ∷ manifest_bytes files)

  unfoldable pub manifest_digest : Files → Bytes
  manifest_digest files = sha256 (manifest_bytes (sort files))

  -- `validate_path` of every path, in order.
  abbrev pub validate_all : Files → Result SourceChangeError (Unit {0})
  validate_all [] = ok tt
  validate_all ((path, content) ∷ files) = validate_path path >> validate_all files

  unfoldable pub from_files : Files → Result SourceChangeError SourceSnapshot
  unfolding manifest_digest
  from_files files = do
    validate_all (sort files)
    ok (record { snapshot_id = manifest_digest (sort files); files = sort files })

  unfoldable pub verify_integrity : SourceSnapshot → Bool
  unfolding manifest_digest
  verify_integrity s = s.snapshot_id == manifest_digest s.files
