-- ===== src/SourceChange/Sandbox/Examples.antt =====
-- The verdict at a concrete input: a suite of one check that fails on the base and holds after the patch.
use general_ai_core.Prelude.{
  ◌↔◌, ◌≡◌, true, [], ◌∷◌, nat_eq, string_eq, pair_eq, ok, length, leb, All,
}
use general_ai_core.SourceChange.Snapshot.{Hashing, SourceSnapshot, verify_integrity}
use general_ai_core.SourceChange.Sandbox.{
  VerificationSuite, SourceCheck, DifferentialReport, pass, hermetic_sandbox, verify_change,
}
use general_ai_core.SourceChange.Sandbox.Verdict.{IsTrue, verify_passes}

abbrev hashing : Hashing
hashing = record { sha256 = λ b. length b ∷ []; utf8 = λ p. p }

abbrev one_file : SourceSnapshot
one_file = record { snapshot_id = 4 ∷ []; files = (b'a' ∷ [], 2 ∷ []) ∷ [] }

abbrev two_files : SourceSnapshot
two_files = record { snapshot_id = 8 ∷ []; files = (b'a' ∷ [], 2 ∷ []) ∷ (b'c' ∷ [], 9 ∷ []) ∷ [] }

abbrev has_two : SourceCheck
has_two = record { name = b't' ∷ []; predicate = λ s. ok (leb 2 (length s.files)) }

abbrev suite : VerificationSuite
suite = record { name = "suite"; checks = has_two ∷ [] }

verify_passes_example :
    (r : DifferentialReport) × (verify_change (hermetic_sandbox hashing) one_file two_files suite tt
      ≡ (ok r, tt))
    × ((r.verdict ≡ pass)
        ↔ ((verify_integrity hashing two_files ≡ true) × All (IsTrue two_files) (has_two ∷ [])))
verify_passes_example = verify_passes hashing one_file two_files suite
