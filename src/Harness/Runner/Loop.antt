-- ===== src/Harness/Runner/Loop.antt =====
-- The loop over a suite's cases keeps its counts balanced and its results sound.
use paw_toolkit.Prelude.{
  ◌≡◌, refl, sym, ◌++◌, String, List, [], ◌∷◌, ◌&&◌, not, Option, is_some, length, All,
  length-append, All-append, subst, arith,
}
use mathlib.Core.List.{append-nil, append_assoc}
use paw_toolkit.Harness.Runner.Keys.{
  Case, IsKeyed, IsGraded, no_counts-IsKeyed, grade_case-IsGraded, counted-IsKeyed,
}
use paw_toolkit.Jit.Outcome.{Result, ok, raised, IfOk, >>=-IfOk, >>=-IfOk_any}
use paw_toolkit.Harness.Suite.{TestSuiteConfig, is_abstain}
use paw_toolkit.Harness.Assertions.{Checks, failed_rules}
use paw_toolkit.Harness.Runner.{
  Counts, Backend, no_counts, run_cases, score_case, grade_case, output_of, error_of, continue_with,
  result_of,
}
use paw_toolkit.Harness.Runner.Balance.{
  IsBalanced, IsSound, IsConsistent, no_counts-IsBalanced, grade_case-IsConsistent,
  counted-IsBalanced, result_of-IsSound,
}

both :
    {A : Type 0} (P Q : A → Type 0) (r : Result A) → IfOk P r → IfOk Q r → IfOk (λ a. P a × Q a) r
both P Q (ok a) p q = (p, q)
both P Q (raised e) p q = tt

module _ {F : Type 0} (checks : Checks F) (config : TestSuiteConfig F) where
  abbrev IsKept : List Case → Counts → Type 0
  IsKept done c =
      IsBalanced c
      × All IsSound c.results
      × (length c.results ≡ length done)
      × IsKeyed config done c

  score_case-IsKept :
      (done : List Case) (c : Counts) (inp : String) (expected : Option String)
      (answer : Result String)
      → IsKept done c
      → IfOk
          (IsKept (done ++ ((inp, expected) ∷ [])))
          (score_case checks config c inp expected answer)
  unfolding score_case
  score_case-IsKept done c inp expected answer (balanced, sound, size, keyed) =
      let next = IsKept (done ++ ((inp, expected) ∷ [])) in
      let out = output_of answer in
      let errored = is_some (error_of checks.error_text answer) in
      let abstained = not errored && is_abstain config.abstain_value out in
      let grading = grade_case checks config errored abstained out expected in
      >>=-IfOk_any next (failed_rules checks out config.abstain_value config.assertions) _
        λ failures.
          >>=-IfOk (λ g. IsConsistent errored expected g × IsGraded errored abstained expected g)
            next grading _
            (both (IsConsistent errored expected) (IsGraded errored abstained expected) grading
              (grade_case-IsConsistent checks config errored abstained out expected)
              (grade_case-IsGraded checks config errored abstained out expected))
            λ grade (consistent, graded). (
              counted-IsBalanced checks config c inp expected answer failures grade balanced
                  consistent,
              All-append IsSound c.results _ sound (
                result_of-IsSound checks config inp expected answer failures grade consistent,
                tt,
              ),
              omega (
                arith,
                size,
                length-append done ((inp, expected) ∷ []),
                length-append c.results
                    (result_of checks config inp expected answer failures grade ∷ []),
              ),
              counted-IsKeyed checks config done c inp expected answer failures grade size keyed
                  graded,
            )

  module _ {B : Type 0} (backend : Backend B) where
    continue_with-IfOk :
        (P Q : Counts → Type 0) (r : Result Counts) (s : B) (f : Counts → Result Counts × B)
        → IfOk P r
        → ((c : Counts) → P c → IfOk Q (f c).0)
        → IfOk Q (continue_with checks config backend r s f).0
    continue_with-IfOk P Q (ok c) s f p q = q c p
    continue_with-IfOk P Q (raised e) s f p q = tt

    run_cases-IsKept :
        (cases done : List Case) (c : Counts) (s : B)
        → IsKept done c
        → IfOk (IsKept (done ++ cases)) (run_cases checks config backend cases c s).0
    unfolding run_cases
    run_cases-IsKept [] done c s kept = subst (λ m. IsKept m c) (sym (append-nil done)) kept
    run_cases-IsKept ((inp, expected) ∷ cases) done c s kept =
        let answered = backend.infer s config.adapter_path inp in
        let new : Case = (inp, expected) in
        continue_with-IfOk (IsKept (done ++ (new ∷ []))) (IsKept (done ++ (new ∷ cases))) _
          answered.1 _ (score_case-IsKept done c inp expected answered.0 kept)
          λ c' kept'.
            subst (λ m. IfOk (IsKept m) (run_cases checks config backend cases c' answered.1).0)
              (append_assoc done (new ∷ []) cases)
              (run_cases-IsKept cases (done ++ (new ∷ [])) c' answered.1 kept')

    -- From the start of a run.
    pub run_cases-IsBalanced :
        (cases : List Case) (s : B)
        → IfOk
            (λ c.
              IsBalanced c
              × All IsSound c.results
              × (length c.results ≡ length cases)
              × IsKeyed config cases c)
            (run_cases checks config backend cases no_counts s).0
    run_cases-IsBalanced cases s =
        run_cases-IsKept cases [] no_counts s
          (no_counts-IsBalanced, tt, refl, no_counts-IsKeyed config)
