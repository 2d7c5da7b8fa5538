-- ===== src/SourceChange/Sandbox/Verdict.antt =====
-- The verdict of the differential verifier with the hermetic sandbox.
use general_ai_core.Prelude.{
  ◌↔◌, ◌≡◌, inl, inr, refl, sym, ap, Bool, true, false, String, List, [], ◌∷◌, arith, Dict, lookup,
  insert, nat_eq, string_eq, pair_eq, if◌then◌else◌, Result, ok, err, Bool-cases, lookup-insert,
  lookup-insert_self, false≢true, ◌∙◌, subst, keep, get_or, beq_self, All,
}
use general_ai_core.Prelude.Sorted.{put, sort}
use general_ai_core.SourceChange.Paths.{list_eq, path_order}
use general_ai_core.SourceChange.Errors.{non_deterministic}
use general_ai_core.SourceChange.Snapshot.{Hashing, SourceSnapshot, verify_integrity}
use general_ai_core.SourceChange.Sandbox.{
  Name, SourceCheck, VerificationSuite, CheckResult, VerificationReport, all_passed, results_beq,
  same_report, graded, run_checks, hermetic_run, hermetic_sandbox, pass, DifferentialReport,
  by_name, has_regressed, verdict_of, compare_reports, verified_twice, verify_change, after_base,
  compared,
}

-- A report is the same as itself.
results_beq_self : (rs : List CheckResult) → results_beq rs rs ≡ true
results_beq_self [] = refl
results_beq_self (r ∷ rs) = ground (arith, beq_self r.name, beq_self r.detail, results_beq_self rs)

same_report_self : (r : VerificationReport) → same_report r r ≡ true
same_report_self r =
    ground (arith, beq_self r.snapshot_id, beq_self r.suite_name, results_beq_self r.results)

-- A name that passed among the results.
abbrev pub has_passed : Dict Name Bool → Name → Bool
has_passed d n = get_or (lookup n d) false

abbrev pub HasPassed : Dict Name Bool → Name → Type 0
HasPassed d n = has_passed d n ≡ true

by_name_kept :
    (n : Name) (rs : List CheckResult) (d : Dict Name Bool)
    → all_passed rs ≡ true
    → HasPassed d n
    → HasPassed (by_name rs d) n
by_name_kept n [] d h q = q
by_name_kept n (r ∷ rs) d h q =
    by_name_kept n rs (insert r.name r.passed d) (ground (arith, h))
      (ground (arith, h, q, lookup-insert r.name n r.passed d))

-- When all have passed, each name among the results has.
by_name_passed :
    (rs : List CheckResult) (d : Dict Name Bool)
    → all_passed rs ≡ true
    → All (λ r. HasPassed (by_name rs d) r.name) rs
by_name_passed [] d h = tt
by_name_passed (r ∷ rs) d h = (
  by_name_kept r.name rs (insert r.name r.passed d) (ground (arith, h))
      (ground (arith, h, lookup-insert_self r.name r.passed d)),
  by_name_passed rs (insert r.name r.passed d) (ground (arith, h)),
)

-- The keys of a dict, or the names of results, have a property.
abbrev Keyed : (Name → Type 0) → Dict Name Bool → Type 0
Keyed Q = All (λ e. Q e.0)

abbrev Named : (Name → Type 0) → List CheckResult → Type 0
Named Q = All (λ r. Q r.name)

Keyed-insert :
    (Q : Name → Type 0) (n : Name) (b : Bool) (d : Dict Name Bool)
    → Q n
    → Keyed Q d
    → Keyed Q (insert n b d)
Keyed-insert Q n b [] q k = (q, tt)
Keyed-insert Q n b ((m, c) ∷ d) q k = ground (arith, Keyed-insert Q n b d q k.1)

Keyed-by_name :
    (Q : Name → Type 0) (rs : List CheckResult) (d : Dict Name Bool)
    → Named Q rs
    → Keyed Q d
    → Keyed Q (by_name rs d)
Keyed-by_name Q [] d q k = k
Keyed-by_name Q (r ∷ rs) d q k =
    Keyed-by_name Q rs (insert r.name r.passed d) q.1 (Keyed-insert Q r.name r.passed d q.0 k)

Keyed-put :
    (Q : Name → Type 0) (n : Name) (b : Bool) (d : Dict Name Bool)
    → Q n
    → Keyed Q d
    → Keyed Q (put n b d)
Keyed-put Q n b [] q k = (q, tt)
Keyed-put Q n b ((m, c) ∷ d) q k = ground (arith, Keyed-put Q n b d q k.1)

Keyed-sort : (Q : Name → Type 0) (d : Dict Name Bool) → Keyed Q d → Keyed Q (sort d)
Keyed-sort Q [] k = tt
Keyed-sort Q ((n, b) ∷ d) k = Keyed-put Q n b (sort d) k.0 (Keyed-sort Q d k.1)

-- No regression among names that have all passed on the patched side.
keep_none :
    (patched d : Dict Name Bool) → Keyed (HasPassed patched) d → keep (has_regressed patched) d ≡ []
keep_none patched [] k = refl
keep_none patched ((n, b) ∷ d) k = ground (arith, k.0, keep_none patched d k.1)

graded_name : (n : Name) (r : Result String Bool) → (graded n r).name ≡ n
graded_name n (ok true) = refl
graded_name n (ok false) = refl
graded_name n (err e) = refl

graded_passed : (n : Name) (r : Result String Bool) → ((graded n r).passed ≡ true) ↔ (r ≡ ok true)
graded_passed n (ok true) = (λ h. refl, λ h. refl)
graded_passed n (ok false) = (λ h. cc, λ h. cc)
graded_passed n (err e) = (λ h. cc, λ h. cc)

-- The base's names are the suite's, so are the patched side's.
Named-run_checks :
    (Q : Name → Type 0) (s x : SourceSnapshot) (cs : List SourceCheck)
    → Named Q (run_checks x cs)
    → Named Q (run_checks s cs)
Named-run_checks Q s x [] q = tt
Named-run_checks Q s x (c ∷ cs) q = (
  subst Q (graded_name c.name (c.predicate x) ∙ sym (graded_name c.name (c.predicate s))) q.0,
  Named-run_checks Q s x cs q.1,
)

abbrev pub IsTrue : SourceSnapshot → SourceCheck → Type 0
IsTrue s c = c.predicate s ≡ ok true

run_checks_passed :
    (s : SourceSnapshot) (cs : List SourceCheck)
    → (all_passed (run_checks s cs) ≡ true) ↔ All (IsTrue s) cs
run_checks_passed s [] = (λ h. tt, λ h. refl)
run_checks_passed s (c ∷ cs) = (
  λ h. (
    (graded_passed c.name (c.predicate s)).0 (ground (arith, h)),
    (run_checks_passed s cs).0 (ground (arith, h)),
  ),
  λ k. ground (arith, (graded_passed c.name (c.predicate s)).1 k.0, (run_checks_passed s cs).1 k.1),
)

verdict_of_pass : (rs : List Name) (p : Bool) → verdict_of rs p ≡ pass → p ≡ true
verdict_of_pass [] true e = refl
verdict_of_pass [] false e = cc
verdict_of_pass (r ∷ rs) p e = cc

verified_twice-hermetic_sandbox :
    (h : Hashing) (s : SourceSnapshot) (suite : VerificationSuite)
    → verified_twice (hermetic_sandbox h) s suite tt ≡ (ok (hermetic_run h s suite), tt)
unfolding verified_twice
verified_twice-hermetic_sandbox h s suite =
    ap
      (λ (b : Bool).
        (if b then ok (hermetic_run h s suite) else err (non_deterministic s.snapshot_id), tt))
      (same_report_self (hermetic_run h s suite))

module _ (h : Hashing) (base patched : SourceSnapshot) (suite : VerificationSuite) where
  abbrev results_of : SourceSnapshot → List CheckResult
  results_of s = (hermetic_run h s suite).results

  no_regression :
      all_passed (results_of patched) ≡ true
      → keep (has_regressed (by_name (results_of patched) [])) (sort (by_name (results_of base) []))
        ≡ []
  unfolding hermetic_run
  no_regression p = elim (Bool-cases (verify_integrity h patched)) [
    | inl whole ↦
        let p' : all_passed (run_checks patched suite.checks) ≡ true = rw whole at p in
        let Q : Name → Type 0 = HasPassed (by_name (run_checks patched suite.checks) []) in
        elim (Bool-cases (verify_integrity h base)) [
          | inl sound ↦
              let names =
                Named-run_checks Q base patched suite.checks
                  (by_name_passed (run_checks patched suite.checks) [] p') in
              rw whole (
                rw sound (
                  keep_none (by_name (run_checks patched suite.checks) [])
                    (sort (by_name (run_checks base suite.checks) []))
                    (Keyed-sort Q (by_name (run_checks base suite.checks) [])
                      (Keyed-by_name Q (run_checks base suite.checks) [] names tt))))
          | inr broken ↦ rw broken refl
        ]
    | inr broken ↦ let bad : false ≡ true = rw broken at p in absurd (false≢true bad)
  ]

  report_passed :
      (all_passed (results_of patched) ≡ true)
      ↔ ((verify_integrity h patched ≡ true) × All (IsTrue patched) suite.checks)
  unfolding hermetic_run
  report_passed = elim (Bool-cases (verify_integrity h patched)) [
    | inl whole ↦ rw whole (
      λ p. (refl, (run_checks_passed patched suite.checks).0 p),
      λ q. (run_checks_passed patched suite.checks).1 q.1,
    )
    | inr broken ↦ rw broken (λ p. absurd (false≢true p), λ q. absurd (false≢true q.0))
  ]

  verdict_pass :
      ((compare_reports (hermetic_run h base suite) (hermetic_run h patched suite)).verdict ≡ pass)
      ↔ (all_passed (results_of patched) ≡ true)
  unfolding compare_reports
  verdict_pass =
      (verdict_of_pass _ (all_passed (results_of patched)), λ p. rw (no_regression p) (rw p refl))

  hermetic_answers :
      verify_change (hermetic_sandbox h) base patched suite tt
      ≡ (ok (compare_reports (hermetic_run h base suite) (hermetic_run h patched suite)), tt)
  unfolding verify_change
  hermetic_answers =
      ap (after_base (hermetic_sandbox h) patched suite)
        (verified_twice-hermetic_sandbox h base suite)
      ∙ ap (compared (hermetic_sandbox h) (hermetic_run h base suite))
          (verified_twice-hermetic_sandbox h patched suite)

-- With the hermetic sandbox the verification of a change always reaches a verdict, and the verdict is
-- to pass exactly when the patched snapshot's id fits its content and every check of the suite answers
-- true of it, whatever the base does.
pub verify_passes :
    (h : Hashing) (base patched : SourceSnapshot) (suite : VerificationSuite)
    → (r : DifferentialReport) × (verify_change (hermetic_sandbox h) base patched suite tt
        ≡ (ok r, tt))
      × ((r.verdict ≡ pass)
          ↔ ((verify_integrity h patched ≡ true) × All (IsTrue patched) suite.checks))
verify_passes h base patched suite =
    let v = verdict_pass h base patched suite in
    let p = report_passed h base patched suite in
    (
      compare_reports (hermetic_run h base suite) (hermetic_run h patched suite),
      hermetic_answers h base patched suite,
      (λ e. p.0 (v.0 e), λ q. v.1 (p.1 q)),
    )
