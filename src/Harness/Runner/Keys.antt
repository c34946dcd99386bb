-- ===== src/Harness/Runner/Keys.antt =====
-- How the answer keys of a suite's cases are counted: against the cases, with the results that they got.
use paw_toolkit.Prelude.{
  ◌+◌, ◌≡◌, refl, String, List, [], ◌∷◌, ◌++◌, Bool, true, false, ◌&&◌, not, Option, none, some, ℕ,
  is_some, length, count, count-append, arith, if◌then◌else◌,
}
use paw_toolkit.Jit.Outcome.{Result, ok, raised, IfOk, ◌>>=◌}
use paw_toolkit.Harness.Matching.{values_equivalent, values_equivalent_unquoted}
use paw_toolkit.Harness.Suite.{TestSuiteConfig, is_abstain}
use paw_toolkit.Harness.Assertions.{Checks, Reason}
use paw_toolkit.Harness.Runner.{
  Counts, TestCaseResult, Grade, no_counts, counted, grade_case, output_of, error_of, is_keyed,
  is_key_errored, is_key_abstained, one_if, result_of,
}

-- An input with its answer key, if it has one.
abbrev pub Case : Type 0
Case = String × Option String

-- How many cases and their results, side by side, pass a test.
abbrev pub tally : (Case → TestCaseResult → Bool) → List Case → List TestCaseResult → ℕ
tally p [] rs = 0
tally p (c ∷ cs) [] = 0
tally p (c ∷ cs) (r ∷ rs) = one_if (p c r) + tally p cs rs

tally-append :
    (p : Case → TestCaseResult → Bool) (cs : List Case) (rs : List TestCaseResult) (c : Case)
    (r : TestCaseResult)
    → length rs ≡ length cs
    → tally p (cs ++ (c ∷ [])) (rs ++ (r ∷ [])) ≡ tally p cs rs + one_if (p c r)
tally-append p [] [] c r h = omega arith
tally-append p [] (x ∷ rs) c r h = absurd (omega (arith, h))
tally-append p (d ∷ cs) [] c r h = absurd (omega (arith, h))
tally-append p (d ∷ cs) (x ∷ rs) c r h = omega (arith, tally-append p cs rs c r (omega (arith, h)))

abbrev pub has_key : Case → Bool
has_key (inp, expected) = is_some expected

abbrev pub keyed_error : Case → TestCaseResult → Bool
keyed_error c r = has_key c && is_some r.execution_error

abbrev pub keyed_abstention : {F : Type 0} → TestSuiteConfig F → Case → TestCaseResult → Bool
keyed_abstention config c r =
    has_key c && (not (is_some r.execution_error) && is_abstain config.abstain_value r.output)

-- The counts of answer keys are those of the cases: a key of a case on which the backend raised is errored, and
-- any other key of an abstention is abstained.
pub record IsKeyed {F : Type 0} (config : TestSuiteConfig F) (done : List Case) (c : Counts)
    : Type 0 where
  pub total : c.expected_total ≡ count has_key done
  pub errored : c.expected_errored ≡ tally keyed_error done c.results
  pub abstained : c.expected_abstained ≡ tally (keyed_abstention config) done c.results

-- What a grade says of its case.
abbrev pub IsGraded : Bool → Bool → Option String → Grade → Type 0
IsGraded errored abstained expected g =
    (is_keyed g ≡ is_some expected)
    × (is_key_errored g ≡ (is_some expected && errored))
    × (is_key_abstained g ≡ (is_some expected && (not errored && abstained)))

graded :
    (key : String) (strict unquoted : Result Bool)
    → IfOk
        (IsGraded false false (some key))
        (strict >>= λ s. (if s then ok true else unquoted) >>= λ u. ok (Grade.key_compared s u))
graded key (ok true) unquoted = (refl, refl, refl)
graded key (ok false) (ok u) = (refl, refl, refl)
graded key (ok false) (raised e) = tt
graded key (raised e) unquoted = tt

pub no_counts-IsKeyed : {F : Type 0} (config : TestSuiteConfig F) → IsKeyed config [] no_counts
no_counts-IsKeyed config = record { total = refl; errored = refl; abstained = refl }

module _ {F : Type 0} (checks : Checks F) (config : TestSuiteConfig F) where
  pub grade_case-IsGraded :
      (errored abstained : Bool) (out : String) (expected : Option String)
      → IfOk
          (IsGraded errored abstained expected)
          (grade_case checks config errored abstained out expected)
  unfolding grade_case
  grade_case-IsGraded errored abstained out none = (refl, refl, refl)
  grade_case-IsGraded true abstained out (some key) = (refl, refl, refl)
  grade_case-IsGraded false true out (some key) = (refl, refl, refl)
  grade_case-IsGraded false false out (some key) =
      graded key (values_equivalent checks.matching out key)
        (values_equivalent_unquoted checks.matching out key)

  pub counted-IsKeyed :
      (done : List Case) (c : Counts) (inp : String) (expected : Option String)
      (answer : Result String) (failures : List (String × Reason)) (grade : Grade)
      → length c.results ≡ length done
      → IsKeyed config done c
      → (let errored = is_some (error_of checks.error_text answer) in
          IsGraded errored
            (not errored && is_abstain config.abstain_value (output_of answer))
            expected
            grade)
      → IsKeyed config
          (done ++ ((inp, expected) ∷ []))
          (counted checks config c inp expected answer failures grade)
  counted-IsKeyed done c inp expected answer failures grade size k (keyed, errors, abstains) =
      let row = result_of checks config inp expected answer failures grade in
      let new : Case = (inp, expected) in
      record {
        total = ground (arith, k.total, count-append has_key done (new ∷ []), keyed);
        errored =
            ground (arith, k.errored, tally-append keyed_error done c.results new row size, errors);
        abstained = ground (
          arith,
          k.abstained,
          tally-append (keyed_abstention config) done c.results new row size,
          abstains,
        );
      }
