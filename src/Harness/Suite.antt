-- ===== src/Harness/Suite.antt =====
-- paw_kit/test/suite.py: the models of a suite and their validators. The `value` of a rule is any value, and
-- `null` where there is none; `int(value)` and `str(value)` are parameters. Reading the YAML text is left out.
use paw_toolkit.Prelude.{
  String, List, Option, none, some, Bool, true, false, ◌&&◌, ◌||◌, not, str_eq, if◌then◌else◌,
}
use paw_toolkit.Jit.Outcome.{Result, ok, raised, value_error, other}
use paw_toolkit.Jit.Agreement.{ℤ, Value, null}
use paw_toolkit.Harness.Integers.{int_ltb}

pub record AssertionRule (F : Type 0) : Type 0 where
  pub rule : String
  pub pattern : Option String
  pub value : Value F

abbrev pub is_numeric_value_rule : String → Bool
is_numeric_value_rule r = str_eq r "max_length" || str_eq r "min_length"

abbrev pub is_required_value_rule : String → Bool
is_required_value_rule r =
    is_numeric_value_rule r || str_eq r "exact_match" || str_eq r "not_contains"

abbrev pub is_known_rule : String → Bool
is_known_rule r = is_required_value_rule r || str_eq r "regex_match"

abbrev pub is_null : {F : Type 0} → Value F → Bool
is_null null = true
is_null _ = false

-- `except (TypeError, ValueError)` around `int(value)`, which gives another error, or the value.
abbrev pub refused : {A : Type 0} → Result ℤ → Result A → (ℤ → Result A) → Result A
refused (ok n) failed f = f n
refused (raised value_error) failed f = failed
refused (raised (other name)) failed f =
    if str_eq name "TypeError" then failed else raised (other name)
refused (raised e) failed f = raised e

unfoldable pub validate_value :
    {F : Type 0} → (Value F → Result ℤ) → AssertionRule F → Result (AssertionRule F)
validate_value to_int r =
    if not (is_known_rule r.rule)
    then raised value_error
    else if is_required_value_rule r.rule && is_null r.value
    then raised value_error
    else if is_numeric_value_rule r.rule
    then refused (to_int r.value) (raised value_error) (λ n. ok r)
    else ok r

pub record FuzzingConfig : Type 0 where
  pub inject_unicode : Bool
  pub empty_inputs : Bool
  pub whitespace_flood : Bool
  pub payload_extremes : Bool
  pub adversarial_probes : List String

pub record ActiveLearningConfig : Type 0 where
  pub auto_recompile : Bool
  pub teacher_model : String
  pub max_iterations : ℤ
  pub max_queries_per_iteration : ℤ

unfoldable pub validate_bounds : ActiveLearningConfig → Result ActiveLearningConfig
validate_bounds c =
    if int_ltb c.max_iterations (ℤ.pos 1)
    then raised value_error
    else if int_ltb (ℤ.pos 20) c.max_iterations
    then raised value_error
    else if int_ltb c.max_queries_per_iteration (ℤ.pos 1)
    then raised value_error
    else ok c

pub record StandardTestCase : Type 0 where
  pub input : String
  pub expected : Option String

pub record TestSuiteConfig (F : Type 0) : Type 0 where
  pub task_name : String
  pub spec : String
  pub adapter_path : String
  pub standard_cases : List StandardTestCase
  pub assertions : List (AssertionRule F)
  pub fuzzing : FuzzingConfig
  pub active_learning : ActiveLearningConfig
  pub abstain_value : Option String

abbrev pub execution_error_placeholder : String
execution_error_placeholder = "[EXECUTION_ERROR]"

-- `abstain_value is not None and out == abstain_value`
abbrev pub is_abstain : Option String → String → Bool
is_abstain none out = false
is_abstain (some a) out = str_eq out a

unfoldable pub reject_reserved_abstain_value :
    {F : Type 0} → TestSuiteConfig F → Result (TestSuiteConfig F)
reject_reserved_abstain_value c =
    if is_abstain c.abstain_value execution_error_placeholder then raised value_error else ok c
