-- ===== src/Harness/Compare.antt =====
-- paw_kit/test/compare.py: two adapters on the same cases. Times and the reading of a manifest from its file
-- are left out; a manifest is a table of values.
pub mod Rows
pub mod Report
pub mod Verdicts
pub mod Tally
pub mod Loop
use paw_toolkit.Prelude.{
  ℕ, zero, suc, ◌+◌, String, List, [], ◌∷◌, ◌++◌, Option, none, some, Bool, true, false, ◌&&◌, ◌||◌,
  not, str_eq, if◌then◌else◌, length, is_some, lookup,
}
use paw_toolkit.Jit.Outcome.{Result, ok, raised, ◌>>=◌}
use paw_toolkit.Jit.Agreement.{Value}
use paw_toolkit.Harness.Matching.{Calls, values_equivalent, values_equivalent_unquoted}
use paw_toolkit.Harness.Suite.{TestSuiteConfig, is_abstain}
use paw_toolkit.Harness.Fuzzer.{generate}
use paw_toolkit.Harness.Assertions.{Checks, Reason, failed_rules}
use paw_toolkit.Harness.Runner.{
  Backend, output_of, error_of, one_if, no_failures, standard, keyless_cases, seed_inputs,
}

abbrev pub manifest_display_fields : List String
manifest_display_fields =
    "backend" ∷ "program_id" ∷ "compiler" ∷ "spec_sha256" ∷ "compiled_at" ∷ "manifest_version" ∷ []

abbrev pub kept_entry {ℓ} : {V : Type ℓ} → String → Option V → List (String × V) → List (String × V)
kept_entry key none rest = rest
kept_entry key (some v) rest = (key, v) ∷ rest

-- `{key: manifest[key] for key in fields if key in manifest}`
unfoldable pub project {ℓ} : {V : Type ℓ} → List String → List (String × V) → List (String × V)
unfolding lookup
project [] manifest = []
project (key ∷ fields) manifest = kept_entry key (lookup key manifest) (project fields manifest)

unfoldable pub project_manifest {ℓ} : {V : Type ℓ} → List (String × V) → List (String × V)
unfolding project
project_manifest manifest = project manifest_display_fields manifest

pub data MatchKind : Type 0 where
  byte_identical equivalent equivalent_unquoted different : MatchKind

abbrev pub is_identical : MatchKind → Bool
is_identical MatchKind.byte_identical = true
is_identical _ = false

-- `match_kind in (byte_identical, equivalent)`
abbrev pub is_equivalent : MatchKind → Bool
is_equivalent MatchKind.byte_identical = true
is_equivalent MatchKind.equivalent = true
is_equivalent _ = false

abbrev pub is_equivalent_unquoted : MatchKind → Bool
is_equivalent_unquoted MatchKind.different = false
is_equivalent_unquoted _ = true

-- `Path(adapter).stem` is a parameter.
unfoldable pub adapter_label_pair : (String → String) → String → String → String × String
adapter_label_pair stem a b =
    if not (str_eq (stem a) "") && (not (str_eq (stem b) "") && not (str_eq (stem a) (stem b)))
    then (stem a, stem b)
    else (a, b)

pub record CompareRow : Type 0 where
  pub input : String
  pub output_a : String
  pub output_b : String
  pub identical : Bool
  pub match_kind : MatchKind
  pub pass_a : Bool
  pub pass_b : Bool
  pub failed_rules_a : List (String × Reason)
  pub failed_rules_b : List (String × Reason)
  pub execution_error_a : Option String
  pub execution_error_b : Option String
  pub expected : Option String
  pub a_expected_match : Option Bool
  pub b_expected_match : Option Bool

-- One side of a case against its answer key.
pub data Side : Type 0 where
  side_keyless side_errored side_abstained : Side
  side_scored : Bool → Side

abbrev pub side_match : Side → Option Bool
side_match (Side.side_scored matched) = some matched
side_match _ = none

abbrev pub is_matched_side : Side → Bool
is_matched_side (Side.side_scored matched) = matched
is_matched_side _ = false

abbrev pub is_abstained_side : Side → Bool
is_abstained_side Side.side_abstained = true
is_abstained_side _ = false

abbrev pub is_errored_side : Side → Bool
is_errored_side Side.side_errored = true
is_errored_side _ = false

pub record CompareCounts : Type 0 where
  pub identical_count : ℕ
  pub equivalent_count : ℕ
  pub equivalent_unquoted_count : ℕ
  pub a_pass_count : ℕ
  pub b_pass_count : ℕ
  pub only_a_pass_count : ℕ
  pub only_b_pass_count : ℕ
  pub errored_count : ℕ
  pub expected_total : ℕ
  pub a_expected_matched : ℕ
  pub b_expected_matched : ℕ
  pub a_expected_abstained : ℕ
  pub b_expected_abstained : ℕ
  pub a_expected_errored : ℕ
  pub b_expected_errored : ℕ
  pub rows : List CompareRow

abbrev pub no_compare_counts : CompareCounts
no_compare_counts = record {
  identical_count = 0;
  equivalent_count = 0;
  equivalent_unquoted_count = 0;
  a_pass_count = 0;
  b_pass_count = 0;
  only_a_pass_count = 0;
  only_b_pass_count = 0;
  errored_count = 0;
  expected_total = 0;
  a_expected_matched = 0;
  b_expected_matched = 0;
  a_expected_abstained = 0;
  b_expected_abstained = 0;
  a_expected_errored = 0;
  b_expected_errored = 0;
  rows = [];
}

-- `if err`: an error whose text is empty counts as none.
abbrev pub is_truthy : Option String → Bool
is_truthy none = false
is_truthy (some s) = not (str_eq s "")

module _ {F : Type 0} (checks : Checks F) (config : TestSuiteConfig F) where
  unfoldable pub outputs_match_kind : String → String → Result MatchKind
  outputs_match_kind a b = if str_eq a b then ok MatchKind.byte_identical else do
    strict ← values_equivalent checks.matching a b
    unquoted ← if strict then ok true else values_equivalent_unquoted checks.matching a b
    ok (
        if strict
        then MatchKind.equivalent
        else if unquoted
        then MatchKind.equivalent_unquoted
        else MatchKind.different)

  -- The body of the loop over the two sides.
  unfoldable pub side_of : Option String → String → Option String → Result Side
  side_of expected out none = elim expected [
    | none ↦ ok Side.side_keyless
    | some key ↦
        if is_abstain config.abstain_value out
        then ok Side.side_abstained
        else (values_equivalent checks.matching out key >>= λ matched.
            ok (Side.side_scored matched))
  ]
  side_of expected out (some error) = elim expected [
    | none ↦ ok Side.side_keyless
    | some key ↦ ok Side.side_errored
  ]

  abbrev pub row_of :
      String
      → Option String
      → Result String
      → Result String
      → List (String × Reason)
      → List (String × Reason)
      → MatchKind
      → Side
      → Side
      → CompareRow
  row_of inp expected answer_a answer_b failed_a failed_b kind a b = record {
    input = inp;
    output_a = output_of answer_a;
    output_b = output_of answer_b;
    identical = str_eq (output_of answer_a) (output_of answer_b);
    match_kind = kind;
    pass_a = no_failures failed_a;
    pass_b = no_failures failed_b;
    failed_rules_a = failed_a;
    failed_rules_b = failed_b;
    execution_error_a = error_of checks.error_text answer_a;
    execution_error_b = error_of checks.error_text answer_b;
    expected = expected;
    a_expected_match = side_match a;
    b_expected_match = side_match b;
  }

  abbrev pub add_row : CompareCounts → CompareRow → Side → Side → CompareCounts
  add_row c row a b = record {
    identical_count = c.identical_count + one_if row.identical;
    equivalent_count = c.equivalent_count + one_if (is_equivalent row.match_kind);
    equivalent_unquoted_count =
        c.equivalent_unquoted_count + one_if (is_equivalent_unquoted row.match_kind);
    a_pass_count = c.a_pass_count + one_if row.pass_a;
    b_pass_count = c.b_pass_count + one_if row.pass_b;
    only_a_pass_count = c.only_a_pass_count + one_if (row.pass_a && not row.pass_b);
    only_b_pass_count = c.only_b_pass_count + one_if (row.pass_b && not row.pass_a);
    errored_count =
        c.errored_count
        + one_if (is_truthy row.execution_error_a || is_truthy row.execution_error_b);
    expected_total = c.expected_total + one_if (is_some row.expected);
    a_expected_matched = c.a_expected_matched + one_if (is_matched_side a);
    b_expected_matched = c.b_expected_matched + one_if (is_matched_side b);
    a_expected_abstained = c.a_expected_abstained + one_if (is_abstained_side a);
    b_expected_abstained = c.b_expected_abstained + one_if (is_abstained_side b);
    a_expected_errored = c.a_expected_errored + one_if (is_errored_side a);
    b_expected_errored = c.b_expected_errored + one_if (is_errored_side b);
    rows = c.rows ++ (row ∷ []);
  }

  -- The body of the loop over the cases, on what the backend answered for each adapter.
  unfoldable pub compare_case :
      CompareCounts → String → Option String → Result String → Result String → Result CompareCounts
  unfolding outputs_match_kind side_of failed_rules
  compare_case c inp expected answer_a answer_b =
      let out_a = output_of answer_a in
      let out_b = output_of answer_b in
      do
        failed_a ← failed_rules checks out_a config.abstain_value config.assertions
        failed_b ← failed_rules checks out_b config.abstain_value config.assertions
        kind ← outputs_match_kind out_a out_b
        a ← side_of expected out_a (error_of checks.error_text answer_a)
        b ← side_of expected out_b (error_of checks.error_text answer_b)
        ok (add_row c (row_of inp expected answer_a answer_b failed_a failed_b kind a b) a b)

  module _ {B : Type 0} (backend : Backend B) (adapter_a adapter_b : String) where
    abbrev pub next_case :
        Result CompareCounts
        → B
        → (CompareCounts → Result CompareCounts × B)
        → Result CompareCounts × B
    next_case (ok c) s f = f c
    next_case (raised e) s f = (raised e, s)

    unfoldable pub compare_cases :
        List (String × Option String) → CompareCounts → B → Result CompareCounts × B
    unfolding compare_case
    compare_cases [] c s = (ok c, s)
    compare_cases ((inp, expected) ∷ cases) c s =
        let a = backend.infer s adapter_a inp in
        let b = backend.infer a.1 adapter_b inp in
        next_case (compare_case c inp expected a.0 b.0) b.1 λ c'. compare_cases cases c' b.1

    -- The suite's cases, and the fuzzer's where they are asked for.
    abbrev pub compared_cases : Bool → List (String × Option String)
    compared_cases include_fuzz =
        standard config.standard_cases
        ++ (if include_fuzz
            then keyless_cases (generate config.fuzzing (seed_inputs config.standard_cases))
            else [])

    unfoldable pub compare_adapters : Bool → B → Result CompareCounts × B
    unfolding compare_cases
    compare_adapters include_fuzz s =
        compare_cases (compared_cases include_fuzz) no_compare_counts s
