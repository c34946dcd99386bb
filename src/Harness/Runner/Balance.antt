-- ===== src/Harness/Runner/Balance.antt =====
-- What the loop over a suite's cases keeps true of its counts and its results.
use paw_toolkit.Prelude.{
  ◌+◌, ◌≤◌, ◌≡◌, refl, ap, ◌∙◌, String, List, [], ◌∷◌, ◌++◌, Bool, true, false, ◌&&◌, not, Option,
  none, some, is_some, length, count, length-append, count-append, arith, if◌then◌else◌,
}
use paw_toolkit.Jit.Outcome.{Result, ok, raised, IfOk, ◌>>=◌}
use paw_toolkit.Harness.Matching.{values_equivalent, values_equivalent_unquoted}
use paw_toolkit.Harness.Suite.{TestSuiteConfig}
use paw_toolkit.Harness.Assertions.{Checks, Reason}
use paw_toolkit.Harness.Runner.{
  Counts, TestCaseResult, no_counts, counted, grade_case, Grade, output_of, error_of, compared,
  is_matched, is_matched_unquoted, is_key_errored, is_key_abstained, is_keyed, matched, one_if,
  result_of, execution_failures, key_failures, no_failures,
}

abbrev pub is_errored : TestCaseResult → Bool
is_errored r = is_some r.execution_error

abbrev pub has_passed : TestCaseResult → Bool
has_passed r = r.passed

abbrev is_true : Option Bool → Bool
is_true (some b) = b
is_true none = false

abbrev is_false : Option Bool → Bool
is_false (some b) = not b
is_false none = false

abbrev pub is_right : TestCaseResult → Bool
is_right r = is_true r.expected_match

abbrev pub is_wrong : TestCaseResult → Bool
is_wrong r = is_false r.expected_match

-- The counts are those of the results, and the answer keys are split into four.
pub record IsBalanced (c : Counts) : Type 0 where
  pub total : c.passed_count + c.failed_count ≡ length c.results
  pub passes : c.passed_count ≡ count has_passed c.results
  pub errors : c.errored_count ≡ count is_errored c.results
  pub errors_fail : c.errored_count ≤ c.failed_count
  pub matches : c.expected_matched ≡ count is_right c.results
  pub keys :
      c.expected_total
      ≡ c.expected_matched + count is_wrong c.results + c.expected_abstained + c.expected_errored
  pub unquoted : c.expected_matched ≤ c.expected_matched_unquoted
  pub scored :
      c.expected_matched_unquoted + c.expected_abstained + c.expected_errored ≤ c.expected_total

-- A case passes just when the backend answered and nothing failed; a case on which it raised has no verdict on
-- its answer key, and a case that passes is not wrong about it.
abbrev pub IsSound : TestCaseResult → Type 0
IsSound r =
    (r.passed ≡ (not (is_errored r) && no_failures r.failed_rules))
    × ((is_errored r && is_some r.expected_match) ≡ false)
    × ((r.passed && is_wrong r) ≡ false)

pub no_counts-IsBalanced : IsBalanced no_counts
no_counts-IsBalanced = record {
  total = refl;
  passes = refl;
  errors = refl;
  errors_fail = omega arith;
  matches = refl;
  keys = refl;
  unquoted = omega arith;
  scored = omega arith;
}

-- Every strict match is one unquoted; an error, or no answer key, leaves nothing to compare.
abbrev pub IsConsistent : Bool → Option String → Grade → Type 0
IsConsistent errored expected grade =
    (is_matched grade ≡ true → is_matched_unquoted grade ≡ true)
    × (errored ≡ true → matched grade ≡ none)
    × (expected ≡ none → matched grade ≡ none)

one_more :
    (p : TestCaseResult → Bool) (rs : List TestCaseResult) (r : TestCaseResult)
    → count p (rs ++ (r ∷ [])) ≡ count p rs + one_if (p r)
one_more p rs r = ground (arith, count-append p rs (r ∷ []))

-- A grade falls in exactly one of the four parts.
keyed_parts :
    (g : Grade)
    → one_if (is_keyed g)
      ≡ one_if (is_true (matched g))
        + one_if (is_false (matched g))
        + one_if (is_key_abstained g)
        + one_if (is_key_errored g)
keyed_parts Grade.keyless = refl
keyed_parts Grade.key_errored = refl
keyed_parts Grade.key_abstained = refl
keyed_parts (Grade.key_compared true u) = refl
keyed_parts (Grade.key_compared false u) = refl

matched_lem : (g : Grade) → one_if (is_matched g) ≡ one_if (is_true (matched g))
matched_lem Grade.keyless = refl
matched_lem Grade.key_errored = refl
matched_lem Grade.key_abstained = refl
matched_lem (Grade.key_compared s u) = refl

relaxed :
    (g : Grade)
    → (is_matched g ≡ true → is_matched_unquoted g ≡ true)
    → (one_if (is_matched g) ≤ one_if (is_matched_unquoted g))
      × (one_if (is_matched_unquoted g) + one_if (is_key_abstained g) + one_if (is_key_errored g)
          ≤ one_if (is_keyed g))
relaxed Grade.keyless h = (omega arith, omega arith)
relaxed Grade.key_errored h = (omega arith, omega arith)
relaxed Grade.key_abstained h = (omega arith, omega arith)
relaxed (Grade.key_compared s u) h = (ground arith, ground arith)

split_one : (b : Bool) → one_if b + one_if (not b) ≡ 1
split_one true = refl
split_one false = refl

an_error_fails : (e n : Bool) → one_if e ≤ one_if (not (not e && n))
an_error_fails e n = ground arith

no_failures-append :
    (fs gs : List (String × Reason)) → no_failures (fs ++ gs) ≡ (no_failures fs && no_failures gs)
no_failures-append [] gs = refl
no_failures-append (f ∷ fs) gs = refl

no_verdict :
    (errored : Bool) (verdict : Option Bool)
    → (errored ≡ true → verdict ≡ none)
    → (errored && is_some verdict) ≡ false
no_verdict true none f = refl
no_verdict true (some b) f = absurd (grind (arith, f refl))
no_verdict false verdict f = refl

passed_right :
    (errored e f k all_of wrong : Bool)
    → all_of ≡ (e && (f && k))
    → (k ≡ true → wrong ≡ false)
    → ((not errored && all_of) && wrong) ≡ false
passed_right errored e f k all_of wrong h g = ground arith

-- A comparison that fails is among the failures.
wrong_fails :
    (out : String) (expected : Option String) (g : Grade)
    → (expected ≡ none → matched g ≡ none)
    → no_failures (key_failures out expected g) ≡ true
    → is_false (matched g) ≡ false
wrong_fails out expected Grade.keyless f h = refl
wrong_fails out expected Grade.key_errored f h = refl
wrong_fails out expected Grade.key_abstained f h = refl
wrong_fails out expected (Grade.key_compared true u) f h = refl
wrong_fails out none (Grade.key_compared false u) f h = absurd (grind (arith, f refl))
wrong_fails out (some key) (Grade.key_compared false u) f h = absurd (grind arith)

graded :
    (key : String) (strict unquoted : Result Bool)
    → IfOk
        (IsConsistent false (some key))
        (strict >>= λ s. (if s then ok true else unquoted) >>= λ u. ok (Grade.key_compared s u))
graded key (ok true) unquoted =
    ((λ h. refl), (λ h. absurd (grind arith)), (λ h. absurd (grind arith)))
graded key (ok false) (ok u) =
    ((λ h. absurd (grind arith)), (λ h. absurd (grind arith)), (λ h. absurd (grind arith)))
graded key (ok false) (raised e) = tt
graded key (raised e) unquoted = tt

module _ {F : Type 0} (checks : Checks F) (config : TestSuiteConfig F) where
  compared-IsConsistent :
      (out key : String) → IfOk (IsConsistent false (some key)) (compared checks config out key)
  compared-IsConsistent out key =
      graded key (values_equivalent checks.matching out key)
        (values_equivalent_unquoted checks.matching out key)

  pub grade_case-IsConsistent :
      (errored abstained : Bool) (out : String) (expected : Option String)
      → IfOk
          (IsConsistent errored expected)
          (grade_case checks config errored abstained out expected)
  unfolding grade_case
  grade_case-IsConsistent errored abstained out none = ((λ h. h), (λ _. refl), (λ _. refl))
  grade_case-IsConsistent true abstained out (some key) = ((λ h. h), (λ _. refl), (λ _. refl))
  grade_case-IsConsistent false true out (some key) = ((λ h. h), (λ _. refl), (λ _. refl))
  grade_case-IsConsistent false false out (some key) = compared-IsConsistent out key

  pub counted-IsBalanced :
      (c : Counts) (inp : String) (expected : Option String) (answer : Result String)
      (failures : List (String × Reason)) (grade : Grade)
      → IsBalanced c
      → IsConsistent (is_some (error_of checks.error_text answer)) expected grade
      → IsBalanced (counted checks config c inp expected answer failures grade)
  counted-IsBalanced c inp expected answer failures grade b (strict_ok, _, _) =
      let row = result_of checks config inp expected answer failures grade in
      record {
        total = omega (arith, b.total, split_one row.passed, length-append c.results (row ∷ []));
        passes = omega (arith, b.passes, one_more has_passed c.results row);
        errors = omega (arith, b.errors, one_more is_errored c.results row);
        errors_fail =
            omega (
              arith,
              b.errors_fail,
              an_error_fails (is_errored row) (no_failures row.failed_rules),
            );
        matches = omega (arith, b.matches, one_more is_right c.results row, matched_lem grade);
        keys =
            omega (
              arith,
              b.keys,
              one_more is_wrong c.results row,
              matched_lem grade,
              keyed_parts grade,
            );
        unquoted = omega (arith, b.unquoted, (relaxed grade strict_ok).0);
        scored = omega (arith, b.scored, (relaxed grade strict_ok).1);
      }

  pub result_of-IsSound :
      (inp : String) (expected : Option String) (answer : Result String)
      (failures : List (String × Reason)) (grade : Grade)
      → IsConsistent (is_some (error_of checks.error_text answer)) expected grade
      → IsSound (result_of checks config inp expected answer failures grade)
  result_of-IsSound inp expected answer failures grade (_, unscored, unkeyed) =
      let errored = is_some (error_of checks.error_text answer) in
      let keys = key_failures (output_of answer) expected grade in
      let split = no_failures-append (execution_failures errored) (failures ++ keys) in
      let split' = no_failures-append failures keys in
      (
        refl,
        no_verdict errored (matched grade) unscored,
        passed_right errored (no_failures (execution_failures errored)) (no_failures failures)
            (no_failures keys) _ (is_false (matched grade))
            (split ∙ ap (λ b. no_failures (execution_failures errored) && b) split')
            (wrong_fails (output_of answer) expected grade unkeyed),
      )
