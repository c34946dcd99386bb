-- ===== src/Tests/Judgements.antt =====
-- Two runs of a judge over three rows, for paw_kit/test/judge.py.
use paw_toolkit.Prelude.{
  ℕ, suc, ◌+◌, ◌-◌, ◌≤◌, ◌≡◌, refl, String, List, [], ◌∷◌, none, some, true, false, str_eq,
  if◌then◌else◌, length, count, All, ◌==◌, lookup,
}
use paw_toolkit.Jit.Outcome.{Result, ok, raised, value_error}
use paw_toolkit.Jit.Agreement.{ℤ}
use paw_toolkit.Harness.Reporting.{ScoredRate}
use paw_toolkit.Harness.Judge.{
  Reading, JudgeInputRow, JudgeReport, judge_outputs, judge_rows, judged_denominator, judged,
  parse_verdict,
}
use paw_toolkit.Harness.Judge.Counted.{
  has_verdict_yes, has_failed, is_unread, judge_outputs-IsCounted,
}
use paw_toolkit.Harness.Judge.Diff.{
  diff_verdicts, verdicts_by_key, index_verdicts, put, find_case, flips_of,
}
use paw_toolkit.Harness.Judge.Coverage.{verdicts_in, is_changed, IsFlip, diff_verdicts-IsWhole}

abbrev reading : Reading
reading = record {
  prompt = λ spec input output. output;
  splitlines = λ s. s ∷ [];
  strip = λ s. s;
  match_verdict = λ s.
      if str_eq s "YES" then some (true, "") else if str_eq s "NO" then some (false, "") else none;
  case_id_for = λ input output. output;
  error_text = λ e. "error";
}

abbrev row : String → JudgeInputRow
row out = record { input = "in"; output = out; rule_passed = none }

abbrev rows : List JudgeInputRow
rows = row "YES" ∷ row "NO" ∷ row "?" ∷ row "YES" ∷ []

-- A judge that repeats the output, but for its nth call, which raises, and the one after, which says NO.
abbrev raises_at : ℕ → ℕ → String → Result String × ℕ
raises_at n k prompt =
    (if k == n then raised value_error else if k == suc n then ok "NO" else ok prompt, suc k)

abbrev first_run : JudgeReport
first_run = (judge_outputs reading (raises_at 2) "spec" "note" "first" rows 0).0

abbrev second_run : JudgeReport
second_run = (judge_outputs reading (raises_at 1) "spec" "note" "second" (row "new" ∷ rows) 0).0

counted :
    (first_run.pass_count ≡ 1)
    × (first_run.error_count ≡ 1)
    × ((diff_verdicts first_run second_run).compared_cases ≡ 4)
    × ((diff_verdicts first_run second_run).flipped_count ≡ 2)
    × ((diff_verdicts first_run second_run).new_only_ids ≡ "new" ∷ [])
unfolding judge_outputs judge_rows judged parse_verdict diff_verdicts verdicts_by_key index_verdicts
    put find_case flips_of lookup
counted = (refl, refl, refl, refl, refl)

judge_outputs-IsCounted_example :
    (length first_run.verdicts ≡ first_run.total_cases)
    × (first_run.total_cases ≡ length rows)
    × (first_run.pass_count ≡ count has_verdict_yes first_run.verdicts)
    × (first_run.error_count ≡ count has_failed first_run.verdicts)
    × (first_run.unparseable_count ≡ count is_unread first_run.verdicts)
    × (first_run.pass_count + first_run.error_count ≤ first_run.total_cases)
    × ((d : ScoredRate) × (judged_denominator first_run ≡ ok d)
        × (d.scored ≡ ℤ.pos (first_run.total_cases - first_run.error_count)))
judge_outputs-IsCounted_example =
    judge_outputs-IsCounted reading (raises_at 2) "spec" "note" "first" rows 0

diff_verdicts-IsWhole_example :
    let d = diff_verdicts first_run second_run in
    (verdicts_in (verdicts_by_key first_run) ≡ first_run.verdicts)
    × (verdicts_in (verdicts_by_key second_run) ≡ second_run.verdicts)
    × (d.compared_cases + d.old_only_count ≡ d.old_total)
    × (d.compared_cases + d.new_only_count ≡ d.new_total)
    × (d.flipped_count ≡ length d.flips)
    × (d.flipped_count
        ≡ count (is_changed (verdicts_by_key second_run)) (verdicts_by_key first_run))
    × All IsFlip d.flips
diff_verdicts-IsWhole_example = diff_verdicts-IsWhole first_run second_run
