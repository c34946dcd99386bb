-- ===== src/Harness/Runner/Verdicts.antt =====
-- What the report of a run says of the cases that were run.
use paw_toolkit.Prelude.{
  ℕ, ◌+◌, ◌-◌, if◌then◌else◌, ◌≤◌, ◌<◌, ◌≡◌, ◌↔◌, refl, String, List, [], ◌∷◌, Bool, true, length,
  count, All, all, arith, ltb,
}
use paw_toolkit.Jit.Outcome.{Result, ok, raised, IfOk, IfOk-ok, ◌>>=◌}
use paw_toolkit.Jit.Agreement.{ℤ}
use paw_toolkit.Harness.Integers.{minus, minus_pos}
use paw_toolkit.Harness.Suite.{TestSuiteConfig}
use paw_toolkit.Harness.Assertions.{Checks}
use paw_toolkit.Harness.Reporting.{scored_denominator, rate}
use paw_toolkit.Harness.Runner.{Backend, Counts, run_cases, cases_of, no_counts}
use paw_toolkit.Harness.Runner.Report.{
  TestRunReport, run, report_of, reported, is_success, expected_match_rate,
  expected_match_rate_unquoted,
}
use paw_toolkit.Harness.Runner.Balance.{
  IsBalanced, IsSound, has_passed, is_errored, is_right, is_wrong,
}
use paw_toolkit.Harness.Runner.Keys.{IsKeyed, has_key, tally, keyed_error, keyed_abstention}
use paw_toolkit.Harness.Runner.Loop.{run_cases-IsBalanced}

-- A report whose numbers are those of its results.
abbrev pub IsHonest : TestRunReport → Type 0
IsHonest r =
    (r.total_cases ≡ length r.results)
    × (r.passed_cases + r.failed_cases ≡ r.total_cases)
    × (r.passed_cases ≡ count has_passed r.results)
    × (r.errored_cases ≡ count is_errored r.results)
    × (r.errored_cases ≤ r.failed_cases)
    × (r.expected_matched ≡ count is_right r.results)
    × (r.expected_total
        ≡ r.expected_matched + count is_wrong r.results + r.expected_abstained + r.expected_errored)

-- The answer keys of the suite's cases, by what became of them.
abbrev pub HasKeys : {F : Type 0} → TestSuiteConfig F → TestRunReport → Type 0
HasKeys config r =
    (r.expected_total ≡ count has_key (cases_of config))
    × (r.expected_errored ≡ tally keyed_error (cases_of config) r.results)
    × (r.expected_abstained ≡ tally (keyed_abstention config) (cases_of config) r.results)

-- What rates divide by covers what they divide.
abbrev IsScored : TestRunReport → Type 0
IsScored r =
    (r.expected_matched ≤ r.expected_matched_unquoted)
    × (r.expected_matched_unquoted + r.expected_abstained + r.expected_errored ≤ r.expected_total)

count-all :
    {A : Type 0} (p : A → Bool) (xs : List A)
    → (count p xs ≤ length xs) × ((count p xs ≡ length xs) ↔ (all p xs ≡ true))
count-all p [] = (omega arith, ((λ h. refl), (λ h. refl)))
count-all p (x ∷ xs) = ground (arith, count-all p xs)

-- The part of the scored cases, or no part where nothing was scored.
abbrev pub share : {R : Type 0} → (ℤ → ℤ → R) → R → ℕ → ℕ → R
share percent zero_percent n k = if ltb 0 k then percent (ℤ.pos n) (ℤ.pos k) else zero_percent

rate_lem :
    {R : Type 0} (percent : ℤ → ℤ → R) (zero_percent : R) (total abstained errored n : ℕ)
    (label : String)
    → n + abstained + errored ≤ total
    → (scored_denominator
          (ℤ.pos total)
          (minus total (abstained + errored))
          (("abstained", ℤ.pos abstained) ∷ ("errored", ℤ.pos errored) ∷ [])
          label
        >>= λ d. rate percent zero_percent d (ℤ.pos n))
      ≡ ok (share percent zero_percent n (total - (abstained + errored)))
unfolding scored_denominator rate
rate_lem percent zero_percent total abstained errored n label h =
    rw (minus_pos total (abstained + errored) (omega arith)) (ground arith)

module _ {F B : Type 0} (checks : Checks F) (backend : Backend B) (config : TestSuiteConfig F) where
  reported-facts :
      (r : Result Counts) {report : TestRunReport}
      → IfOk
          (λ c.
            IsBalanced c
            × All IsSound c.results
            × (length c.results ≡ length (cases_of config))
            × IsKeyed config (cases_of config) c)
          r
      → reported config r ≡ ok report
      → IsHonest report
        × All IsSound report.results
        × (report.total_cases ≡ length (cases_of config))
        × IsScored report
        × HasKeys config report
  reported-facts (raised e) facts h = absurd (grind arith)
  reported-facts (ok c) (b, sound, size, keys) h =
      IfOk-ok
        (λ report.
          IsHonest report
          × All IsSound report.results
          × (report.total_cases ≡ length (cases_of config))
          × IsScored report
          × HasKeys config report)
        (ok (report_of config c)) _
        (
          (refl, b.total, b.passes, b.errors, b.errors_fail, b.matches, b.keys),
          sound,
          size,
          (b.unquoted, b.scored),
          (keys.total, keys.errored, keys.abstained),
        )
        h

  run-facts :
      (s : B) {report : TestRunReport}
      → (run checks backend config s).0 ≡ ok report
      → IsHonest report
        × All IsSound report.results
        × (report.total_cases ≡ length (cases_of config))
        × IsScored report
        × HasKeys config report
  unfolding run
  run-facts s h =
      reported-facts (run_cases checks config backend (cases_of config) no_counts s).0
        (run_cases-IsBalanced checks config backend (cases_of config) s) h

  -- In the report of a run, a case passes just when the backend answered and nothing failed; a case on which the
  -- backend raised has no verdict on its answer key; and a case that passes is not wrong about it.
  pub run-IsSound :
      (s : B) {report : TestRunReport}
      → (run checks backend config s).0 ≡ ok report
      → All IsSound report.results
  run-IsSound s h = let (_, sound, _, _, _) = run-facts s h in sound

  -- A run is a success just when it has a case and every case passes.
  pub is_success_iff :
      (s : B) {report : TestRunReport}
      → (run checks backend config s).0 ≡ ok report
      → (is_success report ≡ true)
        ↔ ((0 < report.total_cases) × (all has_passed report.results ≡ true))
  is_success_iff s {report} h =
      let ((total, sum, passes, errors, fails, _, _), _, _, _, _) = run-facts s h in
      let (_, every) = count-all has_passed report.results in
      ground (arith, total, sum, passes, errors, fails, every)

  -- The rates against the answer keys never raise on the report of a run: each is the part of the keyed cases
  -- that neither errored nor abstained, and the strict one counts no more of them than the unquoted one.
  pub run-rates :
      (s : B) {report : TestRunReport}
      → (run checks backend config s).0 ≡ ok report
      → {R : Type 0} (percent : ℤ → ℤ → R) (zero_percent : R)
      → let scored =
          report.expected_total - (report.expected_abstained + report.expected_errored) in
        (expected_match_rate percent zero_percent report
          ≡ ok (share percent zero_percent report.expected_matched scored))
        × (expected_match_rate_unquoted percent zero_percent report
            ≡ ok (share percent zero_percent report.expected_matched_unquoted scored))
        × (report.expected_matched ≤ report.expected_matched_unquoted)
        × (report.expected_matched_unquoted ≤ scored)
  unfolding expected_match_rate expected_match_rate_unquoted
  run-rates s {report} h percent zero_percent =
      let (_, _, _, (strict, unquoted), _) = run-facts s h in
      (
        rate_lem percent zero_percent report.expected_total report.expected_abstained
            report.expected_errored report.expected_matched "correct against expected"
            (omega arith),
        rate_lem percent zero_percent report.expected_total report.expected_abstained
            report.expected_errored report.expected_matched_unquoted "correct against expected"
            (omega arith),
        strict,
        omega arith,
      )
