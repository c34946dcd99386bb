-- ===== src/Tests/Suites.antt =====
-- A suite of three cases and a probe, run, compared and learned from.
use paw_toolkit.Prelude.{
  ℕ, suc, ◌+◌, ◌-◌, ◌≤◌, ◌≡◌, refl, String, List, [], ◌∷◌, ◌++◌, none, some, true, false, str_eq,
  if◌then◌else◌, ◌==◌, length, All, min,
}
use paw_toolkit.Jit.Outcome.{Result, ok, raised, value_error, other}
use paw_toolkit.Jit.Agreement.{Value, ℤ, int, text, list, value, no_values}
use paw_toolkit.Harness.Matching.{
  Calls, values_equivalent, values_equivalent_unquoted, json_values_equal, same_kind_equal,
}
use paw_toolkit.Harness.Matching.Sound.{Same, json_values_equal-Same}
use paw_toolkit.Harness.Suite.{TestSuiteConfig}
use paw_toolkit.Harness.Fuzzer.{generate_detailed, fuzzed, contains, deduplicate, seeds_of}
use paw_toolkit.Harness.Fuzzer.Distinct.{IsDistinct, generate_detailed-IsDistinct}
use paw_toolkit.Harness.Assertions.{Checks, Search, failed_rules, evaluate_assertion, check_rule}
use paw_toolkit.Harness.Runner.{Backend, run_cases, score_case, grade_case}
use paw_toolkit.Harness.Runner.Report.{
  TestRunReport, run, expected_match_rate, expected_match_rate_unquoted,
}
use paw_toolkit.Harness.Runner.Balance.{IsSound}
use paw_toolkit.Harness.Runner.Verdicts.{run-IsSound, run-rates, share}

abbrev matching : Calls ℕ
matching = record {
  loads = λ t. if str_eq t "\"b\"" then ok (text "b") else raised value_error;
  nfc = λ t. t;
  split = λ t. t ∷ [];
  int_isfinite = λ n. ok true;
  float_isfinite = λ x. true;
  float_eq = λ x y. x == y;
  mixed_eq = λ n x. false;
}

abbrev pub checks : Checks ℕ
checks = record {
  matching = matching;
  to_int = λ v. raised value_error;
  to_str = λ v. "x";
  search = λ pattern output. ok (Search.finished true);
  error_text = λ e. "no reply";
}

-- It answers "b" to the first input, quotes the second reply, and raises on the third.
abbrev pub reply : String → Result String
reply inp =
    if str_eq inp "boom"
    then raised (other "RuntimeError")
    else if str_eq inp "quoted"
    then ok "\"b\""
    else ok "b"

abbrev backend : Backend ℕ
backend = record { infer = λ n path inp. (reply inp, suc n) }

abbrev pub config : TestSuiteConfig ℕ
config = record {
  task_name = "letters";
  spec = "Answer b.";
  adapter_path = "models/a.paw";
  standard_cases =
      record { input = "a"; expected = some "b" }
      ∷ record { input = "quoted"; expected = some "b" }
      ∷ record { input = "boom"; expected = some "b" }
      ∷ [];
  assertions = record { rule = "not_contains"; pattern = none; value = text "x" } ∷ [];
  fuzzing = record {
    inject_unicode = false;
    empty_inputs = true;
    whitespace_flood = false;
    payload_extremes = false;
    adversarial_probes = "probe" ∷ "" ∷ [];
  };
  active_learning = record {
    auto_recompile = true;
    teacher_model = "teacher";
    max_iterations = ℤ.pos 2;
    max_queries_per_iteration = ℤ.pos 5;
  };
  abstain_value = none;
}

abbrev pub value_or : {A : Type 0} → A → Result A → A
value_or a (ok b) = b
value_or a (raised e) = a

abbrev no_report : TestRunReport
no_report = record {
  task_name = "";
  adapter_path = "";
  total_cases = 0;
  passed_cases = 0;
  failed_cases = 0;
  errored_cases = 0;
  abstained_cases = 0;
  standard_cases_count = 0;
  fuzz_cases_dropped = 0;
  expected_total = 0;
  expected_matched = 0;
  expected_abstained = 0;
  expected_errored = 0;
  expected_matched_unquoted = 0;
  results = [];
}

abbrev report : TestRunReport
report = value_or no_report (run checks backend config 0).0

report_of_run : (run checks backend config 0).0 ≡ ok report
unfolding run run_cases score_case grade_case failed_rules evaluate_assertion check_rule
    generate_detailed fuzzed deduplicate contains values_equivalent values_equivalent_unquoted
report_of_run = refl

counted_cases :
    (report.total_cases ≡ 5)
    × (report.passed_cases ≡ 3)
    × (report.errored_cases ≡ 1)
    × (report.expected_matched ≡ 1)
    × (report.expected_matched_unquoted ≡ 2)
unfolding run run_cases score_case grade_case failed_rules evaluate_assertion check_rule
    generate_detailed fuzzed deduplicate contains values_equivalent values_equivalent_unquoted
counted_cases = (refl, refl, refl, refl, refl)

run-IsSound_example : All IsSound report.results
run-IsSound_example = run-IsSound checks backend config 0 report_of_run

abbrev ratio : ℤ → ℤ → ℤ × ℤ
ratio m n = (m, n)

run-rates_example :
    let scored = report.expected_total - (report.expected_abstained + report.expected_errored) in
    (expected_match_rate ratio (ℤ.pos 0, ℤ.pos 0) report
      ≡ ok (share ratio (ℤ.pos 0, ℤ.pos 0) report.expected_matched scored))
    × (expected_match_rate_unquoted ratio (ℤ.pos 0, ℤ.pos 0) report
        ≡ ok (share ratio (ℤ.pos 0, ℤ.pos 0) report.expected_matched_unquoted scored))
    × (report.expected_matched ≤ report.expected_matched_unquoted)
    × (report.expected_matched_unquoted ≤ scored)
run-rates_example = run-rates checks backend config 0 report_of_run ratio (ℤ.pos 0, ℤ.pos 0)

generate_detailed-IsDistinct_example :
    let result = generate_detailed config.fuzzing ("a" ∷ []) in
    (dropped : List String) × (length dropped ≡ result.dropped_count)
    × (length result.cases ≡ min 500 (length result.cases + result.dropped_count))
    × IsDistinct (result.cases ++ dropped)
    × ((s : String)
        → contains s (result.cases ++ dropped)
          ≡ contains s (fuzzed config.fuzzing (seeds_of ("a" ∷ []))))
generate_detailed-IsDistinct_example = generate_detailed-IsDistinct config.fuzzing ("a" ∷ [])

-- [1, "b"]
abbrev pair : Value ℕ
pair = list (value (int (ℤ.pos 1)) (value (text "b") no_values))

json_values_equal-Same_example : Same matching pair pair
unfolding json_values_equal same_kind_equal
json_values_equal-Same_example = json_values_equal-Same matching pair pair refl
