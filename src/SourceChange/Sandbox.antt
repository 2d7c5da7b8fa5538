-- ===== src/SourceChange/Sandbox.antt =====
-- core/sourcechange/sandbox.py: checks over a snapshot, and the comparison of base and patched. Names
-- of checks are lists of code points, since the report has them in Python's order.
pub mod Verdict
mod Examples
use general_ai_core.Prelude.{
  not, ℕ, Bool, true, false, ◌&&◌, String, List, [], ◌∷◌, Dict, lookup, insert, ◌==◌, nat_eq,
  string_eq, pair_eq, concat, if◌then◌else◌, Result, ok, err, ◌>>=◌, ◌>>◌, keep, member, get_or,
  keys,
}
use general_ai_core.Prelude.Sorted.{sort}
use general_ai_core.SourceChange.Paths.{Bytes, list_eq, path_order}
use general_ai_core.SourceChange.Errors.{
  SourceChangeError, malformed_patch, no_checks, duplicate_check, non_deterministic,
}
use general_ai_core.SourceChange.Snapshot.{Hashing, SourceSnapshot, verify_integrity}

abbrev pub Name : Type 0
Name = List ℕ

-- A check of a snapshot: it answers, or it raises with a message.
pub record SourceCheck : Type 0 where
  pub name : Name
  pub predicate : SourceSnapshot → Result String Bool

pub record VerificationSuite : Type 0 where
  pub name : String
  pub checks : List SourceCheck

abbrev pub check_names : List SourceCheck → List Name → Result SourceChangeError (Unit {0})
check_names [] seen = ok tt
check_names (c ∷ cs) seen =
    if member c.name seen
    then err (malformed_patch duplicate_check)
    else check_names cs (c.name ∷ seen)

abbrev pub require_check : List SourceCheck → Result SourceChangeError (Unit {0})
require_check [] = err (malformed_patch no_checks)
require_check (c ∷ cs) = ok tt

-- `VerificationSuite.__post_init__`
unfoldable pub make_suite : String → List SourceCheck → Result SourceChangeError VerificationSuite
make_suite name checks = do
  require_check checks
  check_names checks []
  ok (record { name = name; checks = checks })

pub record CheckResult : Type 0 where
  pub name : Name
  pub passed : Bool
  pub detail : String

pub record VerificationReport : Type 0 where
  pub snapshot_id : Bytes
  pub suite_name : String
  pub results : List CheckResult

abbrev pub all_passed : List CheckResult → Bool
all_passed [] = true
all_passed (r ∷ rs) = r.passed && all_passed rs

abbrev pub bool_beq : Bool → Bool → Bool
bool_beq true b = b
bool_beq false b = not b

abbrev pub results_beq : List CheckResult → List CheckResult → Bool
results_beq [] [] = true
results_beq [] (s ∷ ss) = false
results_beq (r ∷ rs) [] = false
results_beq (r ∷ rs) (s ∷ ss) =
    r.name == s.name && (bool_beq r.passed s.passed && (r.detail == s.detail && results_beq rs ss))

-- The comparison of two reports' `canonical_json`, which has every field.
abbrev pub same_report : VerificationReport → VerificationReport → Bool
same_report r s =
    r.snapshot_id == s.snapshot_id
    && (r.suite_name == s.suite_name && results_beq r.results s.results)

pub record SandboxPort : Type 1 where
  pub State : Type 0
  pub run_verification : SourceSnapshot → VerificationSuite → State → VerificationReport × State

abbrev pub graded : Name → Result String Bool → CheckResult
graded name (ok true) = record { name = name; passed = true; detail = "" }
graded name (ok false) = record { name = name; passed = false; detail = "predicate returned False" }
graded name (err e) = record { name = name; passed = false; detail = concat "check raised: " e }

abbrev pub run_checks : SourceSnapshot → List SourceCheck → List CheckResult
run_checks s [] = []
run_checks s (c ∷ cs) = graded c.name (c.predicate s) ∷ run_checks s cs

-- "snapshot_integrity"
abbrev pub integrity_name : Name
integrity_name =
    b's' ∷ b'n' ∷ b'a' ∷ b'p' ∷ b's' ∷ b'h' ∷ b'o' ∷ b't' ∷ b'_' ∷ b'i' ∷ b'n' ∷ b't' ∷ b'e' ∷ b'g'
    ∷ b'r' ∷ b'i' ∷ b't' ∷ b'y' ∷ []

-- `HermeticSandbox.run_verification`
unfoldable pub hermetic_run : Hashing → SourceSnapshot → VerificationSuite → VerificationReport
unfolding verify_integrity
hermetic_run h s suite = record {
  snapshot_id = s.snapshot_id;
  suite_name = suite.name;
  results =
      if not (verify_integrity h s)
      then record {
        name = integrity_name;
        passed = false;
        detail = "snapshot failed content-address verification";
      }
        ∷ []
      else run_checks s suite.checks;
}

abbrev pub hermetic_sandbox : Hashing → SandboxPort
hermetic_sandbox h = record {
  State = Unit;
  run_verification = λ s suite t. (hermetic_run h s suite, t);
}

pub data DifferentialVerdict : Type 0 where
  pass regression failed_on_patched : DifferentialVerdict

pub record DifferentialReport : Type 0 where
  pub base_report : VerificationReport
  pub patched_report : VerificationReport
  pub regressions : List Name
  pub improvements : List Name
  pub verdict : DifferentialVerdict

-- `{r.name: r.passed for r in results}`: the last of a name wins.
abbrev pub by_name : List CheckResult → Dict Name Bool → Dict Name Bool
by_name [] d = d
by_name (r ∷ rs) d = by_name rs (insert r.name r.passed d)

abbrev pub has_regressed : Dict Name Bool → Name × Bool → Bool
has_regressed patched (name, passed) = passed && not (get_or (lookup name patched) false)

abbrev pub has_improved : Dict Name Bool → Name × Bool → Bool
has_improved patched (name, passed) = not passed && get_or (lookup name patched) false

abbrev pub verdict_of : List Name → Bool → DifferentialVerdict
verdict_of (r ∷ rs) passed = regression
verdict_of [] false = failed_on_patched
verdict_of [] true = pass

-- The delta of two reports, graded.
unfoldable pub compare_reports : VerificationReport → VerificationReport → DifferentialReport
compare_reports base patched =
    let base_by_name : Dict Name Bool = by_name base.results [] in
    let patched_by_name : Dict Name Bool = by_name patched.results [] in
    let regressions : List Name = keys (keep (has_regressed patched_by_name) (sort base_by_name)) in
    record {
      base_report = base;
      patched_report = patched;
      regressions = regressions;
      improvements = keys (keep (has_improved patched_by_name) (sort base_by_name));
      verdict = verdict_of regressions (all_passed patched.results);
    }

module _ (port : SandboxPort) where
  open port use {State, run_verification}

  -- `DifferentialVerifier._verified_twice`
  unfoldable pub verified_twice :
      SourceSnapshot
      → VerificationSuite
      → State
      → Result SourceChangeError VerificationReport × State
  verified_twice s suite t =
      let (first, t') = run_verification s suite t in
      let (second, t'') = run_verification s suite t' in
      (if same_report first second then ok first else err (non_deterministic s.snapshot_id), t'')

  abbrev pub compared :
      VerificationReport
      → Result SourceChangeError VerificationReport × State
      → Result SourceChangeError DifferentialReport × State
  compared base (r, t) = (r >>= (λ patched. ok (compare_reports base patched)), t)

  -- The patched snapshot is verified once the base's verification has returned.
  abbrev pub after_base :
      SourceSnapshot
      → VerificationSuite
      → Result SourceChangeError VerificationReport × State
      → Result SourceChangeError DifferentialReport × State
  after_base patched suite (err e, t) = (err e, t)
  after_base patched suite (ok base, t) = compared base (verified_twice patched suite t)

  -- `DifferentialVerifier.verify`
  unfoldable pub verify_change :
      SourceSnapshot
      → SourceSnapshot
      → VerificationSuite
      → State
      → Result SourceChangeError DifferentialReport × State
  verify_change base patched suite t = after_base patched suite (verified_twice base suite t)
