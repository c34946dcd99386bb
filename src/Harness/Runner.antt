-- ===== src/Harness/Runner.antt =====
-- paw_kit/test/runner.py: the run of a suite. The backend is a state and a function: what it answers may
-- depend on all that it was asked before. Times are left out.
pub mod Report
pub mod Keys
pub mod Balance
pub mod Loop
pub mod Verdicts
use paw_toolkit.Prelude.{
  ℕ, zero, suc, ◌+◌, String, List, [], ◌∷◌, ◌++◌, map, Option, none, some, Bool, true, false, ◌&&◌,
  ◌||◌, not, append, str_len, if◌then◌else◌, leb, length, is_some,
}
use paw_toolkit.Jit.Outcome.{Result, ok, raised, Error, ◌>>=◌}
use paw_toolkit.Harness.Texts.{prefix}
use paw_toolkit.Harness.Matching.{values_equivalent, values_equivalent_unquoted}
use paw_toolkit.Harness.Suite.{
  TestSuiteConfig, StandardTestCase, is_abstain, execution_error_placeholder,
}
use paw_toolkit.Harness.Fuzzer.{generate_detailed, FuzzGenerationResult}
use paw_toolkit.Harness.Assertions.{Checks, Reason, failed_rules}

unfoldable pub truncate_for_reason : String → String
unfolding prefix
truncate_for_reason s = if leb (str_len s) 120 then s else append (prefix 120 s) "..."

-- `backend.infer` on a path and an input.
pub record Backend (B : Type 0) : Type 0 where
  pub infer : B → String → String → Result String × B

pub record TestCaseResult : Type 0 where
  pub input : String
  pub output : String
  pub passed : Bool
  pub failed_rules : List (String × Reason)
  pub expected_match : Option Bool
  pub execution_error : Option String

-- What the loop counts and collects.
pub record Counts : Type 0 where
  pub passed_count : ℕ
  pub failed_count : ℕ
  pub errored_count : ℕ
  pub abstained_count : ℕ
  pub expected_total : ℕ
  pub expected_matched : ℕ
  pub expected_abstained : ℕ
  pub expected_errored : ℕ
  pub expected_matched_unquoted : ℕ
  pub results : List TestCaseResult

abbrev pub no_counts : Counts
no_counts = record {
  passed_count = 0;
  failed_count = 0;
  errored_count = 0;
  abstained_count = 0;
  expected_total = 0;
  expected_matched = 0;
  expected_abstained = 0;
  expected_errored = 0;
  expected_matched_unquoted = 0;
  results = [];
}

-- What becomes of a case's answer key: there is none, the backend raised, the adapter abstained, or it was
-- compared, strictly and unquoted.
pub data Grade : Type 0 where
  keyless key_errored key_abstained : Grade
  key_compared : Bool → Bool → Grade

abbrev pub output_of : Result String → String
output_of (ok out) = out
output_of (raised e) = execution_error_placeholder

abbrev pub error_of : (Error → String) → Result String → Option String
error_of error_text (ok out) = none
error_of error_text (raised e) = some (error_text e)

-- `int(b)`
abbrev pub one_if : Bool → ℕ
one_if true = 1
one_if false = 0

abbrev pub is_keyed : Grade → Bool
is_keyed Grade.keyless = false
is_keyed _ = true

abbrev pub is_key_errored : Grade → Bool
is_key_errored Grade.key_errored = true
is_key_errored _ = false

abbrev pub is_key_abstained : Grade → Bool
is_key_abstained Grade.key_abstained = true
is_key_abstained _ = false

abbrev pub matched : Grade → Option Bool
matched (Grade.key_compared strict unquoted) = some strict
matched _ = none

abbrev pub is_matched : Grade → Bool
is_matched (Grade.key_compared strict unquoted) = strict
is_matched _ = false

abbrev pub is_matched_unquoted : Grade → Bool
is_matched_unquoted (Grade.key_compared strict unquoted) = unquoted
is_matched_unquoted _ = false

-- The entry that a failed comparison adds to the failures.
abbrev pub key_failures : String → Option String → Grade → List (String × Reason)
key_failures out (some expected) (Grade.key_compared false unquoted) =
    ("expected", Reason.expected_mismatch (truncate_for_reason out) (truncate_for_reason expected))
    ∷ []
key_failures out expected grade = []

abbrev pub execution_failures : Bool → List (String × Reason)
execution_failures true = ("execution_error", Reason.execution_error) ∷ []
execution_failures false = []

abbrev pub no_failures : List (String × Reason) → Bool
no_failures [] = true
no_failures (f ∷ fs) = false

module _ {F : Type 0} (checks : Checks F) (config : TestSuiteConfig F) where
  abbrev pub compared : String → String → Result Grade
  compared out key = do
    strict ← values_equivalent checks.matching out key
    unquoted ← if strict then ok true else values_equivalent_unquoted checks.matching out key
    ok (Grade.key_compared strict unquoted)

  -- Errored beats abstained, and both beat the comparison.
  unfoldable pub grade_case : Bool → Bool → String → Option String → Result Grade
  grade_case errored abstained out none = ok Grade.keyless
  grade_case true abstained out (some key) = ok Grade.key_errored
  grade_case false true out (some key) = ok Grade.key_abstained
  grade_case false false out (some key) = compared out key

  -- The result of a case.
  abbrev pub result_of :
      String → Option String → Result String → List (String × Reason) → Grade → TestCaseResult
  result_of inp expected answer failures grade =
      let out = output_of answer in
      let errored = is_some (error_of checks.error_text answer) in
      let failed = execution_failures errored ++ (failures ++ key_failures out expected grade) in
      record {
        input = inp;
        output = out;
        passed = not errored && no_failures failed;
        failed_rules = failed;
        expected_match = matched grade;
        execution_error = error_of checks.error_text answer;
      }

  abbrev pub counted :
      Counts → String → Option String → Result String → List (String × Reason) → Grade → Counts
  counted c inp expected answer failures grade =
      let result = result_of inp expected answer failures grade in
      let errored = is_some (error_of checks.error_text answer) in
      let abstained = not errored && is_abstain config.abstain_value (output_of answer) in
      record {
        passed_count = c.passed_count + one_if result.passed;
        failed_count = c.failed_count + one_if (not result.passed);
        errored_count = c.errored_count + one_if errored;
        abstained_count = c.abstained_count + one_if abstained;
        expected_total = c.expected_total + one_if (is_keyed grade);
        expected_matched = c.expected_matched + one_if (is_matched grade);
        expected_abstained = c.expected_abstained + one_if (is_key_abstained grade);
        expected_errored = c.expected_errored + one_if (is_key_errored grade);
        expected_matched_unquoted =
            c.expected_matched_unquoted + one_if (is_matched_unquoted grade);
        results = c.results ++ (result ∷ []);
      }

  -- The body of the loop, on what the backend answered.
  unfoldable pub score_case : Counts → String → Option String → Result String → Result Counts
  unfolding failed_rules grade_case
  score_case c inp expected answer =
      let out = output_of answer in
      let errored = is_some (error_of checks.error_text answer) in
      let abstained = not errored && is_abstain config.abstain_value out in
      do
        failures ← failed_rules checks out config.abstain_value config.assertions
        grade ← grade_case errored abstained out expected
        ok (counted c inp expected answer failures grade)

  module _ {B : Type 0} (backend : Backend B) where
    abbrev pub continue_with : Result Counts → B → (Counts → Result Counts × B) → Result Counts × B
    continue_with (ok c) s f = f c
    continue_with (raised e) s f = (raised e, s)

    unfoldable pub run_cases : List (String × Option String) → Counts → B → Result Counts × B
    unfolding score_case
    run_cases [] c s = (ok c, s)
    run_cases ((inp, expected) ∷ cases) c s =
        let answered = backend.infer s config.adapter_path inp in
        continue_with (score_case c inp expected answered.0) answered.1
          λ c'. run_cases cases c' answered.1

abbrev pub seed_inputs : List StandardTestCase → List String
seed_inputs [] = []
seed_inputs (c ∷ cs) = c.input ∷ seed_inputs cs

abbrev pub standard : List StandardTestCase → List (String × Option String)
standard [] = []
standard (c ∷ cs) = (c.input, c.expected) ∷ standard cs

-- Fuzz cases carry no answer key.
abbrev pub keyless_cases : List String → List (String × Option String)
keyless_cases [] = []
keyless_cases (s ∷ ss) = (s, none) ∷ keyless_cases ss

-- `zip(inputs_to_test, expected_values)`
abbrev pub cases_of : {F : Type 0} → TestSuiteConfig F → List (String × Option String)
cases_of config =
    standard config.standard_cases
    ++ keyless_cases (generate_detailed config.fuzzing (seed_inputs config.standard_cases)).cases
