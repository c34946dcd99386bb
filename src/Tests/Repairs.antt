-- ===== src/Tests/Repairs.antt =====
-- The suite of Tests/Suites.antt, compared for two adapters and learned from, and files written for it.
use paw_toolkit.Prelude.{
  ℕ, count, suc, ◌+◌, ◌≤◌, ◌≡◌, ◌⊎◌, ◌↔◌, refl, String, List, [], ◌∷◌, Option, none, some, Bool,
  true, false, ◌&&◌, str_eq, if◌then◌else◌, length, All, not, is_some, ltb, lookup,
}
use paw_toolkit.Jit.Outcome.{Result, Error, ok, raised, value_error}
use paw_toolkit.Harness.Matching.{values_equivalent, values_equivalent_unquoted}
use paw_toolkit.Harness.Fuzzer.{generate_detailed, generate, fuzzed, contains, deduplicate}
use paw_toolkit.Harness.Fuzzer.Distinct.{IsDistinct}
use paw_toolkit.Harness.Assertions.{failed_rules, evaluate_assertion, check_rule}
use paw_toolkit.Harness.Runner.{Backend, run_cases, score_case, grade_case}
use paw_toolkit.Harness.Runner.Report.{run, get_failing_inputs}
use paw_toolkit.Harness.Compare.{
  compare_adapters, compare_cases, compare_case, compared_cases, outputs_match_kind, side_of,
  no_compare_counts,
}
use paw_toolkit.Harness.Compare.Report.{CompareReport, Adapters, compare}
use paw_toolkit.Harness.Compare.Rows.{
  differing_rows, equivalent_only_rows, genuinely_differing_rows,
}
use paw_toolkit.Harness.Compare.Tally.{IsTallied}
use paw_toolkit.Harness.Compare.Verdicts.{IsGenuine, compare-IsTallied, compare-IsGenuine}
use paw_toolkit.Harness.Active.{
  World, expected_by_input, query_teacher_safely, judge_label, upsert_example, framed_prompt,
}
use paw_toolkit.Harness.Active.Rounds.{LoopState, query_all}
use paw_toolkit.Harness.Active.Learning.{
  learn, iterate, repair, compile_round, compile_now, check_path, initial_state, seeded_or,
  max_iter, learning_report,
}
use paw_toolkit.Harness.Active.Labels.{inputs}
use paw_toolkit.Harness.Active.Training.{IsTrusted}
use paw_toolkit.Harness.Active.Course.{is_set}
use paw_toolkit.Harness.Active.Results.{learn-IsTrusted, learn-report}
use paw_toolkit.Files.PathSafety.{ensure_contained, ResolvesBelow, ensure_contained_iff}
use paw_toolkit.Files.AtomicWrite.{File, Disk, Stage, at}
use paw_toolkit.Backend.Lineage.{
  entry_of, history_allowed_fields, history_excluded_fields, entry_of-excluded,
}
use paw_toolkit.Tests.Suites.{checks, config, reply, value_or}

-- Adapter b is wrong about the first input.
abbrev two_adapters : Backend ℕ
two_adapters = record {
  infer =
      λ n path inp. (if str_eq path "b.paw" && str_eq inp "a" then ok "c" else reply inp, suc n);
}

abbrev adapters : Adapters ℕ
adapters = record { stem = λ path. path; read_adapter_manifest = λ path. [] }

abbrev no_comparison : CompareReport ℕ
no_comparison = record {
  task_name = "";
  adapter_a = "";
  adapter_b = "";
  label_a = "";
  label_b = "";
  manifest_a = [];
  manifest_b = [];
  total_cases = 0;
  counts = no_compare_counts;
}

abbrev comparison : CompareReport ℕ
comparison =
    value_or no_comparison (compare checks adapters config two_adapters "a.paw" "b.paw" true 0).0

comparison_of_run :
    (compare checks adapters config two_adapters "a.paw" "b.paw" true 0).0 ≡ ok comparison
unfolding compare compare_adapters compare_cases compare_case outputs_match_kind side_of
    failed_rules evaluate_assertion check_rule generate generate_detailed fuzzed deduplicate
    contains values_equivalent values_equivalent_unquoted
comparison_of_run = refl

one_difference : length (genuinely_differing_rows comparison.counts.rows) ≡ 1
unfolding compare compare_adapters compare_cases compare_case outputs_match_kind side_of
    failed_rules evaluate_assertion check_rule generate generate_detailed fuzzed deduplicate
    contains values_equivalent values_equivalent_unquoted genuinely_differing_rows differing_rows
one_difference = refl

compare-IsTallied_example :
    IsTallied comparison.counts
    × (comparison.total_cases
        ≡ length (compared_cases checks config two_adapters "a.paw" "b.paw" true))
compare-IsTallied_example =
    compare-IsTallied checks adapters config two_adapters "a.paw" "b.paw" true 0 comparison_of_run

compare-IsGenuine_example :
    let rows = comparison.counts.rows in
    (length (equivalent_only_rows rows) + length (genuinely_differing_rows rows)
      ≡ length (differing_rows rows))
    × All IsGenuine (genuinely_differing_rows rows)
compare-IsGenuine_example =
    compare-IsGenuine checks adapters config two_adapters "a.paw" "b.paw" true 0 comparison_of_run

-- The world is how many programs were compiled. The teacher always answers "b".
abbrev world : World ℕ ℕ
world = record {
  checks = checks;
  backend = record { infer = λ n path inp. (reply inp, n) };
  compile = λ n spec examples path. (ok tt, suc n);
  teach = λ n prompt model. (ok "b", n);
  accepts_model = true;
  repr = λ s. s;
  dataset_fingerprint = λ examples. "0";
  is_absolute = λ path. true;
  resolve = λ path. ok (path ∷ []);
}

abbrev learned : Bool × LoopState
learned = value_or (false, initial_state []) (learn world config true [] 0).0

learned_by_loop : (learn world config true [] 0).0 ≡ ok learned
unfolding learn iterate repair compile_round compile_now check_path query_all query_teacher_safely
    judge_label upsert_example expected_by_input framed_prompt run run_cases score_case grade_case
    get_failing_inputs failed_rules evaluate_assertion check_rule generate_detailed fuzzed
    deduplicate contains values_equivalent values_equivalent_unquoted lookup
learned_by_loop = refl

recompiled_once : learned.1.recompiles_performed ≡ 1
unfolding learn iterate repair compile_round compile_now check_path query_all query_teacher_safely
    judge_label upsert_example expected_by_input framed_prompt run run_cases score_case grade_case
    get_failing_inputs failed_rules evaluate_assertion check_rule generate_detailed fuzzed
    deduplicate contains values_equivalent values_equivalent_unquoted lookup
recompiled_once = refl

abbrev answer_keys : List (String × String)
answer_keys = expected_by_input config.standard_cases []

three_inputs : IsDistinct (inputs (seeded_or [] answer_keys))
unfolding expected_by_input contains
three_inputs = (refl, (refl, (refl, tt)))

learn-IsTrusted_example :
    All (IsTrusted world config answer_keys (seeded_or [] answer_keys)) learned.1.dataset
    × IsDistinct (inputs learned.1.dataset)
learn-IsTrusted_example = learn-IsTrusted world config true [] 0 learned_by_loop three_inputs

learn-report_example :
    let report = learning_report config learned in
    (report.iterations_run ≤ max_iter config)
    × (report.iterations_run ≡ suc (report.recompiles_performed + report.recompiles_skipped))
    × (length report.recompiled_after_iteration ≡ report.iterations_run)
    × (count is_set report.recompiled_after_iteration ≡ report.recompiles_performed)
    × (report.recompiled ≡ ltb 0 report.recompiles_performed)
    × (is_some report.stuck_reason ≡ not report.is_success)
learn-report_example = learn-report world config true [] 0 learned_by_loop

abbrev resolve : String → Result (List String)
resolve path =
    if str_eq path ""
    then raised value_error
    else (if str_eq path "." then ok ("home" ∷ []) else ok ("home" ∷ "models" ∷ []))

ensure_contained_iff_example :
    ((p : List String)
      → (ensure_contained resolve "models" "." ≡ ok p)
        ↔ ResolvesBelow (resolve ".") (resolve "models") p)
    × (((p : List String) × (ensure_contained resolve "models" "." ≡ ok p))
        ⊎ ((ensure_contained resolve "models" "." ≡ raised value_error)
            ⊎ ((e : Error) × (ensure_contained resolve "models" "." ≡ raised e)
                × ((resolve "." ≡ raised e) ⊎ (resolve "models" ≡ raised e)))))
ensure_contained_iff_example = ensure_contained_iff resolve "models" "."

abbrev manifest : List (String × ℕ)
manifest = ("spec", 1) ∷ ("status", 2) ∷ []

entry_of-excluded_example :
    All (λ k. lookup k (entry_of manifest) ≡ none) history_excluded_fields
    × All (λ k. lookup k (entry_of manifest) ≡ lookup k manifest) history_allowed_fields
entry_of-excluded_example = entry_of-excluded manifest

abbrev old_file : Option File
old_file = some (record { content = "old"; mode = 420; synced = true })

-- A crash with part of the new text in the temporary file.
abbrev torn : Disk
torn = at Stage.crashed old_file (some (record { content = "?"; mode = 384; synced = false }))
