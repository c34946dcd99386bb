-- ===== src/Harness/Active/Labels.antt =====
-- What a teacher's label passes before it is a row of the training set.
use paw_toolkit.Prelude.{
  String, List, [], ◌∷◌, Option, none, some, Bool, true, false, ◌||◌, ◌≡◌, ◌⊎◌, inl, inr, refl, sym,
  subst, All, str_eq, str_eq_iff, arith, Bool-cases,
}
use paw_toolkit.Jit.Outcome.{Result, ok, raised, IfOk, >>=-IfOk, IfOk-self, IfOk-ok}
use paw_toolkit.Harness.Matching.{values_equivalent}
use paw_toolkit.Harness.Suite.{TestSuiteConfig}
use paw_toolkit.Harness.Fuzzer.{contains}
use paw_toolkit.Harness.Fuzzer.Distinct.{IsDistinct}
use paw_toolkit.Harness.Assertions.{Reason, failed_rules}
use paw_toolkit.Harness.Active.{
  World, Example, TeacherQueryResult, judge_label, ask, query_teacher_safely, check_key,
  check_failures, agreed_label, upsert_example,
}

some_injective : {A : Type 0} {a b : A} → Option.some a ≡ Option.some b → a ≡ b
some_injective h = cc

-- The inputs of a training set.
abbrev pub inputs : List Example → List String
inputs [] = []
inputs (e ∷ es) = e.input ∷ inputs es

abbrev pub Among : Example → List Example → Type 0
Among e [] = ⊥
Among e (f ∷ es) = (e ≡ f) ⊎ Among e es

contains-inputs :
    (es : List Example) (inp out s : String)
    → contains s (inputs (upsert_example es inp out)) ≡ (contains s (inputs es) || str_eq inp s)
unfolding contains upsert_example
contains-inputs [] inp out s = ground arith
contains-inputs (e ∷ es) inp out s = elim (Bool-cases (str_eq e.input inp)) [
  | inl same ↦ rw same (
      grind (
        arith,
        (str_eq_iff e.input inp).0 same,
        Bool-cases (str_eq e.input s),
        Bool-cases (contains s (inputs es)),
      ))
  | inr apart ↦ rw apart (ground (arith, contains-inputs es inp out s))
]

-- An upsert leaves one row for each input.
pub upsert_example-IsDistinct :
    (es : List Example) (inp out : String)
    → IsDistinct (inputs es)
    → IsDistinct (inputs (upsert_example es inp out))
unfolding contains upsert_example
upsert_example-IsDistinct [] inp out d = (refl, tt)
upsert_example-IsDistinct (e ∷ es) inp out (new, d) = elim (Bool-cases (str_eq e.input inp)) [
  | inl same ↦ rw same (new, d)
  | inr apart ↦ rw apart (
    grind
        (arith, contains-inputs es inp out e.input, str_eq_iff e.input inp, str_eq_iff inp e.input),
    upsert_example-IsDistinct es inp out d,
  )
]

pub upsert_example-All {ℓ} :
    (P : Example → Type ℓ) (es : List Example) (inp out : String)
    → All P es
    → P (record { input = inp; output = out })
    → All P (upsert_example es inp out)
unfolding upsert_example
upsert_example-All P [] inp out all_es p = (p, tt)
upsert_example-All P (e ∷ es) inp out (q, all_es) p = elim (Bool-cases (str_eq e.input inp)) [
  | inl same ↦ rw same (
    subst (λ i. P (record { input = i; output = out })) (sym ((str_eq_iff e.input inp).0 same)) p,
    all_es,
  )
  | inr apart ↦ rw apart (q, upsert_example-All P es inp out all_es p)
]

module _ {F W : Type 0} (world : World F W) (config : TestSuiteConfig F) where
  -- A label that fails no assertion and is the same value as the answer key, where there is one.
  abbrev pub IsVetted : Option String → String → Type 0
  IsVetted expected label =
      (failed_rules world.checks label config.abstain_value config.assertions ≡ ok [])
      × ((key : String)
          → expected ≡ some key
          → values_equivalent world.checks.matching label key ≡ ok true)

  abbrev pub GoldIsVetted : Option String → TeacherQueryResult → Type 0
  GoldIsVetted expected r = (label : String) → r.gold_label ≡ some label → IsVetted expected label

  abbrev Passed : String → List (String × Reason) → Type 0
  Passed label failures =
      failed_rules world.checks label config.abstain_value config.assertions ≡ ok failures

  agreed_label-vetted :
      (label key : String) (same : Bool)
      → Passed label []
      → values_equivalent world.checks.matching label key ≡ ok same
      → GoldIsVetted (some key) (agreed_label world config label same)
  agreed_label-vetted label key true passed h l g = subst (IsVetted (some key)) (some_injective g) (
    passed,
    λ k e.
        subst (λ j. values_equivalent world.checks.matching label j ≡ ok true) (some_injective e) h,
  )
  agreed_label-vetted label key false passed h l g = absurd (grind arith)

  check_key-vetted :
      (label : String) (expected : Option String)
      → Passed label []
      → IfOk (GoldIsVetted expected) (check_key world config label expected)
  check_key-vetted label none passed =
      λ l g. subst (IsVetted none) (some_injective g) (passed, λ k e. absurd (grind arith))
  check_key-vetted label (some key) passed =
      >>=-IfOk (λ same. values_equivalent world.checks.matching label key ≡ ok same)
        (GoldIsVetted (some key)) (values_equivalent world.checks.matching label key) _
        (IfOk-self (values_equivalent world.checks.matching label key))
        λ same h. agreed_label-vetted label key same passed h

  check_failures-vetted :
      (label : String) (expected : Option String) (failures : List (String × Reason))
      → Passed label failures
      → IfOk (GoldIsVetted expected) (check_failures world config label expected failures)
  check_failures-vetted label expected [] passed = check_key-vetted label expected passed
  check_failures-vetted label expected (f ∷ fs) passed = λ l g. absurd (grind arith)

  pub judge_label-vetted :
      (answer : Result String) (expected : Option String)
      → IfOk (GoldIsVetted expected) (judge_label world config answer expected)
  unfolding judge_label
  judge_label-vetted (raised e) expected = λ l g. absurd (grind arith)
  judge_label-vetted (ok label) expected = elim (Bool-cases (str_eq label "")) [
    | inl nothing ↦ rw nothing (λ l g. absurd (grind arith))
    | inr given ↦ rw given (
        >>=-IfOk (Passed label) (GoldIsVetted expected)
          (failed_rules world.checks label config.abstain_value config.assertions) _
          (IfOk-self (failed_rules world.checks label config.abstain_value config.assertions))
          λ failures passed. check_failures-vetted label expected failures passed)
  ]

  -- A label that comes back as gold from a query of the teacher fails none of the suite's assertions and is
  -- the same value as the answer key of its input, where there is one.
  pub query_teacher_safely-IsVetted :
      (raw_input : String) (expected : Option String) (w : W) {r : TeacherQueryResult}
      {label : String}
      → (query_teacher_safely world config raw_input expected w).0 ≡ ok r
      → r.gold_label ≡ some label
      → IsVetted expected label
  unfolding query_teacher_safely
  query_teacher_safely-IsVetted raw_input expected w {r} {label} h g =
      IfOk-ok (GoldIsVetted expected) (query_teacher_safely world config raw_input expected w).0 r
        (judge_label-vetted (ask world config raw_input w).0 expected) h label g
