-- ===== src/Harness/Assertions.antt =====
-- paw_kit/test/runner.py: `evaluate_assertion` and what it calls. A message of a failure is a `Reason`: which
-- of the source's texts it is, and what is printed in it.
use paw_toolkit.Prelude.{
  ℕ, String, List, [], ◌∷◌, Option, none, some, Bool, true, false, not, str_eq, str_len,
  if◌then◌else◌, ltb, is_some,
}
use text.Mathlib.Text.{find?}
use paw_toolkit.Jit.Outcome.{Result, ok, raised, Error, other, ◌>>=◌}
use paw_toolkit.Jit.Agreement.{ℤ, Value}
use paw_toolkit.Harness.Integers.{int_leb}
use paw_toolkit.Harness.Matching.{Calls, values_equivalent}
use paw_toolkit.Harness.Suite.{AssertionRule, is_abstain, refused}

-- How a search in the executor ends within the time given to it.
pub data Search : Type 0 where
  finished : Bool → Search
  timed_out : Search

-- What an assertion calls: the comparison's own calls, `int` and `str` of a rule's value, `re.search` in a
-- thread, and `str` of an exception.
pub record Checks (F : Type 0) : Type 0 where
  pub matching : Calls F
  pub to_int : Value F → Result ℤ
  pub to_str : Value F → String
  pub search : String → String → Result Search
  pub error_text : Error → String

pub data Reason : Type 0 where
  no_reason : Reason
  pattern_missing pattern_too_long output_too_long search_timed_out : Reason
  pattern_invalid : String → String → Reason
  pattern_unmatched : String → String → Reason
  value_not_integer : String → Reason
  length_exceeds length_below : ℕ → ℤ → Reason
  not_expected : String → String → Reason
  contains_forbidden : String → Reason
  unknown_rule : String → Reason
  execution_error : Reason
  expected_mismatch : String → String → Reason

abbrev pub searched : Search → Bool × Option Reason
searched (Search.finished matched) = (matched, none)
searched Search.timed_out = (false, some Reason.search_timed_out)

abbrev pub without_reason : String → String → Bool × Option Reason → Bool × Reason
without_reason pattern output (matched, some reason) = (false, reason)
without_reason pattern output (matched, none) = (matched, Reason.pattern_unmatched output pattern)

-- `except re.error`
abbrev pub pattern_checked :
    (Error → String) → String → String → Result (Bool × Option Reason) → Result (Bool × Reason)
pattern_checked error_text pattern output (ok found) = ok (without_reason pattern output found)
pattern_checked error_text pattern output (raised (other name)) =
    if str_eq name "error"
    then ok (false, Reason.pattern_invalid pattern (error_text (other name)))
    else raised (other name)
pattern_checked error_text pattern output (raised e) = raised e

-- `part in text`
abbrev pub has_part : String → String → Bool
has_part part text = is_some (find? text part)

module _ {F : Type 0} (checks : Checks F) where
  unfoldable pub regex_search_safe : String → String → Result (Bool × Option Reason)
  regex_search_safe pattern output =
      if ltb 1000 (str_len pattern)
      then ok (false, some Reason.pattern_too_long)
      else if ltb 10000 (str_len output)
      then ok (false, some Reason.output_too_long)
      else (checks.search pattern output >>= λ found. ok (searched found))

  abbrev pub check_pattern : Option String → String → Result (Bool × Reason)
  check_pattern none output = ok (false, Reason.pattern_missing)
  check_pattern (some pattern) output =
      if str_eq pattern ""
      then ok (false, Reason.pattern_missing)
      else pattern_checked checks.error_text pattern output (regex_search_safe pattern output)

  abbrev pub check_length : (ℤ → Bool × Reason) → Value F → Result (Bool × Reason)
  check_length check v =
      refused (checks.to_int v) (ok (false, Reason.value_not_integer (checks.to_str v)))
        λ n. ok (check n)

  -- The rules by their names; a name that is none of them fails.
  unfoldable pub check_rule : String → AssertionRule F → Result (Bool × Reason)
  unfolding regex_search_safe
  check_rule output r =
      if str_eq r.rule "regex_match"
      then check_pattern r.pattern output
      else if str_eq r.rule "max_length"
      then check_length
          (λ n. (int_leb (ℤ.pos (str_len output)) n, Reason.length_exceeds (str_len output) n))
          r.value
      else if str_eq r.rule "min_length"
      then check_length
          (λ n. (int_leb n (ℤ.pos (str_len output)), Reason.length_below (str_len output) n))
          r.value
      else if str_eq r.rule "exact_match"
      then (values_equivalent checks.matching output (checks.to_str r.value) >>= λ passed.
          ok (passed, Reason.not_expected output (checks.to_str r.value)))
      else if str_eq r.rule "not_contains"
      then ok (
        not (has_part (checks.to_str r.value) output),
        Reason.contains_forbidden (checks.to_str r.value),
      )
      else ok (false, Reason.unknown_rule r.rule)

  unfoldable pub evaluate_assertion :
      String → AssertionRule F → Option String → Result (Bool × Reason)
  unfolding check_rule
  evaluate_assertion output r abstain_value =
      if is_abstain abstain_value output then ok (true, Reason.no_reason) else check_rule output r

  -- The loop over the suite's assertions: the name and the reason of each that fails.
  unfoldable pub failed_rules :
      String → Option String → List (AssertionRule F) → Result (List (String × Reason))
  unfolding evaluate_assertion
  failed_rules output abstain_value [] = ok []
  failed_rules output abstain_value (r ∷ rules) = do
    verdict ← evaluate_assertion output r abstain_value
    rest ← failed_rules output abstain_value rules
    ok (if verdict.0 then rest else (r.rule, verdict.1) ∷ rest)
