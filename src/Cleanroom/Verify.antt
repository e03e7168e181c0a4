-- ===== src/Cleanroom/Verify.antt =====
-- The release decision: internal/verify/verify.go. The details are texts, as the code joins them.
use semdev.Base.{
  Bool, true, false, not, ◌&&◌, List, [], ◌∷◌, ◌++◌, if◌then◌else◌, Text, codes, is_empty, is_blank,
  text_le, keep,
}

pub data Outcome : Type 0 where
  pass fail retry : Outcome

pub record CheckResult : Type 0 where
  pub name : Text
  pub passed : Bool
  pub detail : Text

pub record Input : Type 0 where
  pub completed : Bool
  pub transport_error : Text
  pub fresh_cache_home : Bool
  pub cache_home_detail : Text
  pub resolved : Bool
  pub resolve_detail : Text
  pub tests_passed : Bool
  pub tests_detail : Text

pub record Verdict : Type 0 where
  pub outcome : Outcome
  pub checks : List CheckResult

abbrev pub check_self_contained : Text
check_self_contained = codes "self-contained"

abbrev pub check_completion : Text
check_completion = codes "completion"

abbrev pub check_isolation : Text
check_isolation = codes "isolation"

abbrev pub check_resolution : Text
check_resolution = codes "resolution"

abbrev pub check_tests : Text
check_tests = codes "tests"

-- `detailOr`
unfoldable pub detail_or : Text → Text → Text
detail_or detail fallback = if not (is_blank detail) then detail else fallback

-- `if extra != "" { detail += ": " + extra }`
unfoldable pub with_extra : Text → Text → Text
with_extra detail extra = if not (is_empty extra) then detail ++ (codes ": " ++ extra) else detail

unfoldable pub completion_check : Input → CheckResult
completion_check i =
    if i.completed && is_empty i.transport_error
    then record {
      name = check_completion;
      passed = true;
      detail = codes "clean-room harness ran to completion";
    }
    else record {
      name = check_completion;
      passed = false;
      detail =
          with_extra
            (codes
              "clean-room harness did not complete (transport/infrastructure error) — retry, not a verdict")
            i.transport_error;
    }

unfoldable pub isolation_check : Input → CheckResult
isolation_check i =
    if i.fresh_cache_home
    then record {
      name = check_isolation;
      passed = true;
      detail = with_extra (codes "distinct fresh build-cache home established") i.cache_home_detail;
    }
    else record {
      name = check_isolation;
      passed = false;
      detail =
          with_extra
            (codes
              "no distinct fresh build-cache home — a warm cache could mask a fabricated dependency (harness must isolate before proving)")
            i.cache_home_detail;
    }

unfoldable pub resolution_check : Input → CheckResult
resolution_check i =
    if i.resolved
    then record {
      name = check_resolution;
      passed = true;
      detail =
          detail_or i.resolve_detail
            (codes "dependencies resolved cold from the artifact's own declarations");
    }
    else record {
      name = check_resolution;
      passed = false;
      detail = detail_or i.resolve_detail (
          codes
            "dependencies did not resolve in the fresh cache — missing or fabricated coordinate");
    }

unfoldable pub tests_check : Input → CheckResult
tests_check i =
    if i.tests_passed
    then record {
      name = check_tests;
      passed = true;
      detail =
          detail_or i.tests_detail (codes "the artifact's own tests passed in fresh isolation");
    }
    else record {
      name = check_tests;
      passed = false;
      detail =
          detail_or i.tests_detail (codes "the artifact's own tests failed in fresh isolation");
    }

-- The `switch` over the four results.
unfoldable pub outcome_of : CheckResult → CheckResult → CheckResult → CheckResult → Outcome
outcome_of completion isolation resolution tests =
    if not completion.passed
    then retry
    else if not isolation.passed
    then retry
    else if not resolution.passed
    then fail
    else if not tests.passed
    then fail
    else pass

unfoldable pub decide : Input → Verdict
unfolding outcome_of completion_check isolation_check resolution_check tests_check
decide i =
    let completion = completion_check i in
    let isolation = isolation_check i in
    let resolution = resolution_check i in
    let tests = tests_check i in
    record {
      outcome = outcome_of completion isolation resolution tests;
      checks = completion ∷ isolation ∷ resolution ∷ tests ∷ [];
    }

unfoldable pub forbidden_verdict : Text → Verdict
forbidden_verdict detail = record {
  outcome = fail;
  checks =
      record {
        name = check_self_contained;
        passed = false;
        detail = detail_or detail (
            codes
              "a committed build file smuggles a hidden runtime download that dodges the cold-resolution proof");
      }
      ∷ [];
}

unfoldable pub insert_by_name : CheckResult → List CheckResult → List CheckResult
insert_by_name c [] = c ∷ []
insert_by_name c (d ∷ ds) = if text_le c.name d.name then c ∷ d ∷ ds else d ∷ insert_by_name c ds

-- `sort.Slice` by name. It is not stable, and the model's order of equal names is the given one;
-- the verdicts of this package name no check twice.
unfoldable pub sort_by_name : List CheckResult → List CheckResult
unfolding insert_by_name
sort_by_name [] = []
sort_by_name (c ∷ cs) = insert_by_name c (sort_by_name cs)

unfoldable pub failed_checks : Verdict → List CheckResult
unfolding sort_by_name
failed_checks v = sort_by_name (keep (λ c. not c.passed) v.checks)
