-- ===== src/Tests/Linting.antt =====
-- A short spec with a schema and two examples, for paw_kit/speclint.py.
use paw_toolkit.Prelude.{
  ℕ, String, List, [], ◌∷◌, Option, none, some, true, filter, str_eq, ◌≡◌, refl,
}
use paw_toolkit.Jit.Agreement.{Value, dict, text, field, no_fields}
use paw_toolkit.Speclint.{
  Patterns, Schema, literal, label, other_type, spec_too_short, output_format_unpinned,
  forced_choice_no_abstain, schema_all_required, examples_single_form, check_spec_length,
  check_output_format_unpinned, check_forced_choice_no_abstain, enumeration_windows,
}
use paw_toolkit.Speclint.Lint.{lint_spec, check_schema_all_required, check_examples_single_form}
use paw_toolkit.Speclint.Rules.{rules, rule_ids, fires, lint_spec_lem}

abbrev patterns : Patterns
patterns = record {
  lower = λ s. s;
  strip = λ s. s;
  has_text = λ part s. str_eq part s;
  paren_lists = λ s. "(a, b, or c)" ∷ [];
  closed_sets = [];
  quoted_lists = λ s. [];
  splits_before = λ s start. [];
  split_from = λ s end. none;
  abstain_term = λ s. str_eq s "unknown";
  punctuation_skeleton = λ s. "#";
}

abbrev example_of : String → Value ℕ
example_of s = dict (field "input" (text "in") (field "output" (text s) no_fields))

abbrev examples : Option (List (Value ℕ))
examples = some (example_of "ab" ∷ example_of "cd" ∷ [])

abbrev priority : Schema
priority = record {
  name = "Priority";
  model_fields =
      record { is_required = true; annotation = literal (label "low" ∷ other_type ∷ []) } ∷ [];
}

five_rules :
    rule_ids (lint_spec patterns "format" examples (some priority))
    ≡ spec_too_short ∷ output_format_unpinned ∷ forced_choice_no_abstain ∷ schema_all_required
      ∷ examples_single_form ∷ []
unfolding lint_spec check_spec_length check_output_format_unpinned check_forced_choice_no_abstain
    enumeration_windows check_schema_all_required check_examples_single_form
five_rules = refl

lint_spec_lem_example :
    rule_ids (lint_spec patterns "format" examples (some priority))
    ≡ filter (fires patterns "format" examples (some priority)) rules
lint_spec_lem_example = lint_spec_lem patterns "format" examples (some priority)
