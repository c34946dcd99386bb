-- ===== src/Harness/Runner/Report.antt =====
-- paw_kit/test/runner.py: the report of a run.
use paw_toolkit.Prelude.{
  ℕ, ◌+◌, ◌-◌, String, List, [], ◌∷◌, Bool, ◌&&◌, length, ltb, ◌==◌, if◌then◌else◌,
}
use paw_toolkit.Jit.Outcome.{Result, ok, raised, ◌>>=◌}
use paw_toolkit.Jit.Agreement.{ℤ}
use paw_toolkit.Harness.Integers.{minus}
use paw_toolkit.Harness.Suite.{TestSuiteConfig}
use paw_toolkit.Harness.Fuzzer.{generate_detailed}
use paw_toolkit.Harness.Assertions.{Checks, Reason}
use paw_toolkit.Harness.Reporting.{ScoredRate, scored_denominator, rate}
use paw_toolkit.Harness.Runner.{
  Counts, TestCaseResult, Backend, no_counts, run_cases, cases_of, seed_inputs,
}

pub record TestRunReport : Type 0 where
  pub task_name : String
  pub adapter_path : String
  pub total_cases : ℕ
  pub passed_cases : ℕ
  pub failed_cases : ℕ
  pub errored_cases : ℕ
  pub abstained_cases : ℕ
  pub standard_cases_count : ℕ
  pub fuzz_cases_dropped : ℕ
  pub expected_total : ℕ
  pub expected_matched : ℕ
  pub expected_abstained : ℕ
  pub expected_errored : ℕ
  pub expected_matched_unquoted : ℕ
  pub results : List TestCaseResult

abbrev pub report_of : {F : Type 0} → TestSuiteConfig F → Counts → TestRunReport
report_of config c = record {
  task_name = config.task_name;
  adapter_path = config.adapter_path;
  total_cases = length c.results;
  passed_cases = c.passed_count;
  failed_cases = c.failed_count;
  errored_cases = c.errored_count;
  abstained_cases = c.abstained_count;
  standard_cases_count = length config.standard_cases;
  fuzz_cases_dropped =
      (generate_detailed config.fuzzing (seed_inputs config.standard_cases)).dropped_count;
  expected_total = c.expected_total;
  expected_matched = c.expected_matched;
  expected_abstained = c.expected_abstained;
  expected_errored = c.expected_errored;
  expected_matched_unquoted = c.expected_matched_unquoted;
  results = c.results;
}

abbrev pub reported : {F : Type 0} → TestSuiteConfig F → Result Counts → Result TestRunReport
reported config (ok c) = ok (report_of config c)
reported config (raised e) = raised e

-- `TestRunner.run`
unfoldable pub run :
    {F B : Type 0} → Checks F → Backend B → TestSuiteConfig F → B → Result TestRunReport × B
unfolding run_cases
run checks backend config s =
    let done = run_cases checks config backend (cases_of config) no_counts s in
    (reported config done.0, done.1)

abbrev pub is_success : TestRunReport → Bool
is_success r = (r.failed_cases == 0) && ((r.errored_cases == 0) && ltb 0 r.total_cases)

abbrev pub expected_scored : TestRunReport → ℤ
expected_scored r = minus r.expected_total (r.expected_abstained + r.expected_errored)

unfoldable pub pass_denominator : TestRunReport → Result ScoredRate
unfolding scored_denominator
pass_denominator r = scored_denominator (ℤ.pos r.total_cases) (ℤ.pos r.total_cases) [] "pass"

unfoldable pub expected_denominator : TestRunReport → Result ScoredRate
unfolding scored_denominator
expected_denominator r =
    scored_denominator (ℤ.pos r.expected_total) (expected_scored r)
      (("abstained", ℤ.pos r.expected_abstained) ∷ ("errored", ℤ.pos r.expected_errored) ∷ [])
      "correct against expected"

-- `passed_cases / total_cases * 100.0`, or `0.0`
abbrev pub pass_rate : {R : Type 0} → (ℤ → ℤ → R) → R → TestRunReport → R
pass_rate percent zero_percent r =
    if ltb 0 r.total_cases
    then percent (ℤ.pos r.passed_cases) (ℤ.pos r.total_cases)
    else zero_percent

unfoldable pub expected_match_rate : {R : Type 0} → (ℤ → ℤ → R) → R → TestRunReport → Result R
unfolding rate expected_denominator
expected_match_rate percent zero_percent r =
    expected_denominator r >>= λ d. rate percent zero_percent d (ℤ.pos r.expected_matched)

unfoldable pub expected_match_rate_unquoted :
    {R : Type 0} → (ℤ → ℤ → R) → R → TestRunReport → Result R
unfolding rate expected_denominator
expected_match_rate_unquoted percent zero_percent r =
    expected_denominator r >>= λ d. rate percent zero_percent d (ℤ.pos r.expected_matched_unquoted)

-- `max(0, standard_cases_count - expected_total)`
abbrev pub expected_keyless_standard_cases : TestRunReport → ℕ
expected_keyless_standard_cases r = r.standard_cases_count - r.expected_total

abbrev pub failing_of : List TestCaseResult → List (String × String × List (String × Reason))
failing_of [] = []
failing_of (r ∷ rs) =
    if r.passed then failing_of rs else (r.input, r.output, r.failed_rules) ∷ failing_of rs

unfoldable pub get_failing_inputs : TestRunReport → List (String × String × List (String × Reason))
get_failing_inputs r = failing_of r.results
