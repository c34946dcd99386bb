-- ===== src/Harness/Judge.antt =====
-- paw_kit/test/judge.py. The judge is a function on a state; its prompt, the lines and the strip of a text, the
-- regular expression of a verdict and the hash of a case are parameters.
pub mod Counted
pub mod Diff
pub mod Overlap
pub mod Coverage
use paw_toolkit.Prelude.{
  ℕ, zero, suc, ◌+◌, ◌-◌, max, String, List, [], ◌∷◌, ◌++◌, Option, none, some, Bool, true, false,
  ◌&&◌, not, str_eq, if◌then◌else◌, ◌==◌, length, filter, is_some, get_or, map, take,
}
use paw_toolkit.Jit.Outcome.{Result, ok, raised, Error}
use paw_toolkit.Jit.Agreement.{ℤ, bool_eq}
use paw_toolkit.Harness.Integers.{minus}
use paw_toolkit.Harness.Reporting.{ScoredRate, scored_denominator}
use paw_toolkit.Harness.Runner.{one_if}

pub record Reading : Type 0 where
  pub prompt : String → String → String → String
  pub splitlines : String → List String
  pub strip : String → String
  -- `_VERDICT_RE.match`: whether the word is YES, and the reason without what `strip` takes off it.
  pub match_verdict : String → Option (Bool × String)
  pub case_id_for : String → String → String
  pub error_text : Error → String

pub record JudgeInputRow : Type 0 where
  pub input : String
  pub output : String
  pub rule_passed : Option Bool

pub record JudgeVerdict : Type 0 where
  pub case_id : String
  pub input : String
  pub output : String
  pub verdict : Bool
  pub reason : String
  pub rule_passed : Option Bool
  pub judge_error : Option String

pub record JudgeCounts : Type 0 where
  pub pass_count : ℕ
  pub unparseable_count : ℕ
  pub error_count : ℕ
  pub verdicts : List JudgeVerdict

abbrev pub no_judge_counts : JudgeCounts
no_judge_counts = record { pass_count = 0; unparseable_count = 0; error_count = 0; verdicts = [] }

-- `match.group(2).strip(…) or ("yes" if verdict else "no")`
abbrev pub or_word : Bool → String → String
or_word verdict reason = if str_eq reason "" then (if verdict then "yes" else "no") else reason

abbrev pub read_match : Option (Bool × String) → Bool × String
read_match none = (false, "unparseable")
read_match (some (verdict, reason)) = (verdict, or_word verdict reason)

module _ (reading : Reading) where
  abbrev pub first_line : List String → String
  first_line [] = ""
  first_line (line ∷ lines) =
      if str_eq (reading.strip line) "" then first_line lines else reading.strip line

  unfoldable pub parse_verdict : String → Bool × String
  parse_verdict raw_text =
      read_match (reading.match_verdict (first_line (reading.splitlines raw_text)))

  abbrev pub verdict_of : JudgeInputRow → Result String → JudgeVerdict
  unfolding parse_verdict
  verdict_of row (ok raw) = record {
    case_id = reading.case_id_for row.input row.output;
    input = row.input;
    output = row.output;
    verdict = (parse_verdict raw).0;
    reason = (parse_verdict raw).1;
    rule_passed = row.rule_passed;
    judge_error = none;
  }
  verdict_of row (raised e) = record {
    case_id = reading.case_id_for row.input row.output;
    input = row.input;
    output = row.output;
    verdict = false;
    reason = "judge call failed";
    rule_passed = row.rule_passed;
    judge_error = some (reading.error_text e);
  }

  -- The body of the loop, on what the judge answered.
  unfoldable pub judged : JudgeCounts → JudgeInputRow → Result String → JudgeCounts
  unfolding verdict_of parse_verdict
  judged c row (ok raw) = record {
    pass_count = c.pass_count + one_if (parse_verdict raw).0;
    unparseable_count = c.unparseable_count + one_if (str_eq (parse_verdict raw).1 "unparseable");
    error_count = c.error_count;
    verdicts = c.verdicts ++ (verdict_of row (ok raw) ∷ []);
  }
  judged c row (raised e) = record {
    pass_count = c.pass_count;
    unparseable_count = c.unparseable_count;
    error_count = c.error_count + 1;
    verdicts = c.verdicts ++ (verdict_of row (raised e) ∷ []);
  }

  module _ {J : Type 0} (judge : J → String → Result String × J) (spec : String) where
    unfoldable pub judge_rows : List JudgeInputRow → JudgeCounts → J → JudgeCounts × J
    unfolding judged
    judge_rows [] c s = (c, s)
    judge_rows (row ∷ rows) c s =
        let answered = judge s (reading.prompt spec row.input row.output) in
        judge_rows rows (judged c row answered.0) answered.1

pub record JudgeReport : Type 0 where
  pub judge_id : String
  pub spec : String
  pub temperature_note : String
  pub total_cases : ℕ
  pub pass_count : ℕ
  pub unparseable_count : ℕ
  pub error_count : ℕ
  pub verdicts : List JudgeVerdict

unfoldable pub judge_outputs :
    {J : Type 0}
    → Reading
    → (J → String → Result String × J)
    → String
    → String
    → String
    → List JudgeInputRow
    → J
    → JudgeReport × J
unfolding judge_rows
judge_outputs reading judge spec temperature_note judge_id rows s =
    let done = judge_rows reading judge spec rows no_judge_counts s in
    (
      record {
        judge_id = judge_id;
        spec = spec;
        temperature_note = temperature_note;
        total_cases = length rows;
        pass_count = done.0.pass_count;
        unparseable_count = done.0.unparseable_count;
        error_count = done.0.error_count;
        verdicts = done.0.verdicts;
      },
      done.1,
    )

unfoldable pub judged_denominator : JudgeReport → Result ScoredRate
unfolding scored_denominator
judged_denominator r =
    scored_denominator (ℤ.pos r.total_cases) (minus r.total_cases r.error_count)
      (("errored", ℤ.pos r.error_count) ∷ []) "judged pass"

abbrev pub contradicts : Option Bool → Bool → Bool
contradicts none verdict = false
contradicts (some passed) verdict = not (bool_eq passed verdict)

unfoldable pub judge_disagreements : JudgeReport → List JudgeVerdict
judge_disagreements r =
    filter (λ v. not (is_some v.judge_error) && contradicts v.rule_passed v.verdict) r.verdicts
