-- ===== src/Harness/Compare/Report.antt =====
-- paw_kit/test/compare.py: the report of a comparison.
use paw_toolkit.Prelude.{ℕ, ◌+◌, String, List, [], ◌∷◌, Bool, length}
use paw_toolkit.Jit.Outcome.{Result, ok, raised}
use paw_toolkit.Jit.Agreement.{ℤ, Value}
use paw_toolkit.Harness.Integers.{minus}
use paw_toolkit.Harness.Suite.{TestSuiteConfig}
use paw_toolkit.Harness.Assertions.{Checks}
use paw_toolkit.Harness.Reporting.{ScoredRate, scored_denominator}
use paw_toolkit.Harness.Runner.{Backend}
use paw_toolkit.Harness.Compare.{
  CompareCounts, compare_adapters, adapter_label_pair, project_manifest,
}

pub record CompareReport (F : Type 0) : Type 0 where
  pub task_name : String
  pub adapter_a : String
  pub adapter_b : String
  pub label_a : String
  pub label_b : String
  pub manifest_a : List (String × Value F)
  pub manifest_b : List (String × Value F)
  pub total_cases : ℕ
  -- The counters of the report, and its rows.
  pub counts : CompareCounts

-- What the report asks of the file system: `Path(...).stem` and `read_adapter_manifest`.
pub record Adapters (F : Type 0) : Type 0 where
  pub stem : String → String
  pub read_adapter_manifest : String → List (String × Value F)

abbrev pub comparison_of :
    {F : Type 0}
    → Adapters F
    → TestSuiteConfig F
    → String
    → String
    → CompareCounts
    → CompareReport F
comparison_of adapters config a b c =
    let labels = adapter_label_pair adapters.stem a b in
    record {
      task_name = config.task_name;
      adapter_a = a;
      adapter_b = b;
      label_a = labels.0;
      label_b = labels.1;
      manifest_a = project_manifest (adapters.read_adapter_manifest a);
      manifest_b = project_manifest (adapters.read_adapter_manifest b);
      total_cases = length c.rows;
      counts = c;
    }

abbrev pub comparison_reported :
    {F : Type 0}
    → Adapters F
    → TestSuiteConfig F
    → String
    → String
    → Result CompareCounts
    → Result (CompareReport F)
comparison_reported adapters config a b (ok c) = ok (comparison_of adapters config a b c)
comparison_reported adapters config a b (raised e) = raised e

unfoldable pub compare :
    {F B : Type 0}
    → Checks F
    → Adapters F
    → TestSuiteConfig F
    → Backend B
    → String
    → String
    → Bool
    → B
    → Result (CompareReport F) × B
unfolding compare_adapters
compare checks adapters config backend a b include_fuzz s =
    let done = compare_adapters checks config backend a b include_fuzz s in
    (comparison_reported adapters config a b done.0, done.1)

-- `_expected_denominator`, for side a and side b.
unfoldable pub a_expected_denominator : {F : Type 0} → CompareReport F → Result ScoredRate
unfolding scored_denominator
a_expected_denominator r =
    scored_denominator (ℤ.pos r.counts.expected_total)
      (minus r.counts.expected_total (r.counts.a_expected_abstained + r.counts.a_expected_errored))
      (("abstained", ℤ.pos r.counts.a_expected_abstained)
        ∷ ("errored", ℤ.pos r.counts.a_expected_errored)
        ∷ [])
      "a correct against expected"

unfoldable pub b_expected_denominator : {F : Type 0} → CompareReport F → Result ScoredRate
unfolding scored_denominator
b_expected_denominator r =
    scored_denominator (ℤ.pos r.counts.expected_total)
      (minus r.counts.expected_total (r.counts.b_expected_abstained + r.counts.b_expected_errored))
      (("abstained", ℤ.pos r.counts.b_expected_abstained)
        ∷ ("errored", ℤ.pos r.counts.b_expected_errored)
        ∷ [])
      "b correct against expected"
