-- ===== src/Harness/Judge/Counted.antt =====
-- What a judge's report says of its verdicts.
use paw_toolkit.Prelude.{
  ℕ, not, ◌&&◌, suc, ◌+◌, ◌-◌, ◌≤◌, ◌≡◌, refl, String, str_eq, List, [], ◌∷◌, ◌++◌, Bool, true,
  false, is_some, length, count, length-append, count-append, arith,
}
use paw_toolkit.Jit.Outcome.{Result, ok, raised}
use paw_toolkit.Jit.Agreement.{ℤ}
use paw_toolkit.Harness.Integers.{minus, minus_pos}
use paw_toolkit.Harness.Reporting.{ScoredRate, scored_denominator}
use paw_toolkit.Harness.Runner.{one_if}
use paw_toolkit.Harness.Judge.{
  Reading, JudgeInputRow, JudgeVerdict, JudgeCounts, no_judge_counts, judged, judge_rows,
  judge_outputs, judged_denominator, verdict_of,
}

abbrev pub has_verdict_yes : JudgeVerdict → Bool
has_verdict_yes v = v.verdict

-- A reply with no verdict, which is judged a fail.
abbrev pub is_unread : JudgeVerdict → Bool
is_unread v = not (is_some v.judge_error) && str_eq v.reason "unparseable"

abbrev pub has_failed : JudgeVerdict → Bool
has_failed v = is_some v.judge_error

pub record IsCounted (c : JudgeCounts) : Type 0 where
  pub passes : c.pass_count ≡ count has_verdict_yes c.verdicts
  pub errors : c.error_count ≡ count has_failed c.verdicts
  pub apart : c.pass_count + c.error_count ≤ length c.verdicts
  pub unparseable : c.unparseable_count ≡ count is_unread c.verdicts
  pub unread : c.unparseable_count + c.error_count ≤ length c.verdicts

no_judge_counts-IsCounted : IsCounted no_judge_counts
no_judge_counts-IsCounted = record {
  passes = refl;
  errors = refl;
  unparseable = refl;
  apart = omega arith;
  unread = omega arith;
}

one_more :
    (p : JudgeVerdict → Bool) (vs : List JudgeVerdict) (v : JudgeVerdict)
    → count p (vs ++ (v ∷ [])) ≡ count p vs + one_if (p v)
one_more p vs v = ground (arith, count-append p vs (v ∷ []))

at_most_one : (b : Bool) → one_if b ≤ 1
at_most_one true = omega arith
at_most_one false = omega arith

denominator :
    (total errors : ℕ)
    → errors ≤ total
    → (d : ScoredRate) × (scored_denominator
          (ℤ.pos total)
          (minus total errors)
          (("errored", ℤ.pos errors) ∷ [])
          "judged pass"
        ≡ ok d)
      × (d.scored ≡ ℤ.pos (total - errors))
unfolding scored_denominator
denominator total errors h = (
  record {
    label = "judged pass";
    total = ℤ.pos total;
    scored = ℤ.pos (total - errors);
    excluded = ("errored", ℤ.pos errors) ∷ [];
  },
  rw (minus_pos total errors h) (ground arith),
  refl,
)

module _ (reading : Reading) where
  judged-IsCounted :
      (c : JudgeCounts) (row : JudgeInputRow) (answer : Result String)
      → IsCounted c
      → IsCounted (judged reading c row answer)
  unfolding judged verdict_of
  judged-IsCounted c row (ok raw) h =
      let v = verdict_of reading row (ok raw) in
      record {
        passes = omega (arith, h.passes, one_more has_verdict_yes c.verdicts v);
        errors = omega (arith, h.errors, one_more has_failed c.verdicts v);
        unparseable = omega (arith, h.unparseable, one_more is_unread c.verdicts v);
        apart = omega (arith, h.apart, at_most_one v.verdict, length-append c.verdicts (v ∷ []));
        unread = omega (
          arith,
          h.unread,
          at_most_one (str_eq v.reason "unparseable"),
          length-append c.verdicts (v ∷ []),
        );
      }
  judged-IsCounted c row (raised e) h =
      let v = verdict_of reading row (raised e) in
      record {
        passes = omega (arith, h.passes, one_more has_verdict_yes c.verdicts v);
        errors = omega (arith, h.errors, one_more has_failed c.verdicts v);
        unparseable = omega (arith, h.unparseable, one_more is_unread c.verdicts v);
        apart = omega (arith, h.apart, length-append c.verdicts (v ∷ []));
        unread = omega (arith, h.unread, length-append c.verdicts (v ∷ []));
      }

  length-judged :
      (c : JudgeCounts) (row : JudgeInputRow) (answer : Result String)
      → length (judged reading c row answer).verdicts ≡ suc (length c.verdicts)
  unfolding judged
  length-judged c row (ok raw) =
      omega (arith, length-append c.verdicts (verdict_of reading row (ok raw) ∷ []))
  length-judged c row (raised e) =
      omega (arith, length-append c.verdicts (verdict_of reading row (raised e) ∷ []))

  module _ {J : Type 0} (judge : J → String → Result String × J) (spec : String) where
    judge_rows-IsCounted :
        (rows : List JudgeInputRow) (c : JudgeCounts) (s : J)
        → IsCounted c
        → IsCounted (judge_rows reading judge spec rows c s).0
          × (length (judge_rows reading judge spec rows c s).0.verdicts
              ≡ length rows + length c.verdicts)
    unfolding judge_rows
    judge_rows-IsCounted [] c s h = (h, omega arith)
    judge_rows-IsCounted (row ∷ rows) c s h =
        let answered = judge s (reading.prompt spec row.input row.output) in
        let (counted, size) =
          judge_rows-IsCounted rows (judged reading c row answered.0) answered.1
            (judged-IsCounted c row answered.0 h) in
        (counted, omega (arith, size, length-judged c row answered.0))

    -- The report of a judge has one verdict for each row, whatever calls raise; its counts are those of the
    -- verdicts; and the passes are among the cases that were judged, so the judged rate is never above one.
    pub judge_outputs-IsCounted :
        (temperature_note judge_id : String) (rows : List JudgeInputRow) (s : J)
        → let report = (judge_outputs reading judge spec temperature_note judge_id rows s).0 in
          (length report.verdicts ≡ report.total_cases)
          × (report.total_cases ≡ length rows)
          × (report.pass_count ≡ count has_verdict_yes report.verdicts)
          × (report.error_count ≡ count has_failed report.verdicts)
          × (report.unparseable_count ≡ count is_unread report.verdicts)
          × (report.pass_count + report.error_count ≤ report.total_cases)
          × ((d : ScoredRate) × (judged_denominator report ≡ ok d)
              × (d.scored ≡ ℤ.pos (report.total_cases - report.error_count)))
    unfolding judge_outputs judged_denominator scored_denominator
    judge_outputs-IsCounted temperature_note judge_id rows s =
        let (h, size) = judge_rows-IsCounted rows no_judge_counts s (no_judge_counts-IsCounted) in
        let errors = (judge_rows reading judge spec rows no_judge_counts s).0.error_count in
        (
          omega (arith, size),
          refl,
          h.passes,
          h.errors,
          h.unparseable,
          omega (arith, h.apart, size),
          denominator (length rows) errors (omega (arith, h.apart, size)),
        )
