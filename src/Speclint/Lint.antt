-- ===== src/Speclint/Lint.antt =====
-- paw_kit/speclint.py: the rules for a schema and for examples, and `lint_spec`.
use paw_toolkit.Prelude.{
  String, str_len, str_eq, List, [], ◌∷◌, ◌++◌, Option, none, some, Bool, false, ◌||◌, not,
  if◌then◌else◌, ◌==◌, ltb, length, map,
}
use paw_toolkit.Jit.Agreement.{Value, get, text, dict}
use paw_toolkit.Speclint.{
  Finding, Patterns, Arg, label, Annotation, literal, FieldInfo, Schema, warn, info,
  every_field_required, one_surface_pattern, schema_all_required, examples_single_form, any, as_set,
  unknown_literal_tokens, is_optional_annotation, check_spec_length, check_output_format_unpinned,
  check_forced_choice_no_abstain,
}

module _ (patterns : Patterns) where
  abbrev pub is_unknown_label : Arg → Bool
  is_unknown_label (label s) =
      any (λ token. str_eq token (patterns.lower (patterns.strip s))) unknown_literal_tokens
  is_unknown_label _ = false

  abbrev pub literal_has_unknown_value : Annotation → Bool
  literal_has_unknown_value (literal args) = any is_unknown_label args
  literal_has_unknown_value _ = false

  -- The loop over the fields, with what follows it.
  abbrev pub check_fields : List Finding → List FieldInfo → List Finding
  check_fields done [] = done
  check_fields done (field ∷ fields) =
      if not field.is_required
      then []
      else (if is_optional_annotation field.annotation || literal_has_unknown_value field.annotation
          then []
          else check_fields done fields)

  abbrev pub no_way_out : String → List Finding
  no_way_out name =
      record { rule_id = schema_all_required; severity = warn; message = every_field_required name }
      ∷ []

  abbrev pub check_model : String → List FieldInfo → List Finding
  check_model name [] = []
  check_model name (field ∷ fields) = check_fields (no_way_out name) (field ∷ fields)

  unfoldable pub check_schema_all_required : Option Schema → List Finding
  check_schema_all_required none = []
  check_schema_all_required (some schema) = check_model schema.name schema.model_fields

  abbrev pub single_form : List String → List Finding
  single_form outputs =
      if ltb (length outputs) 2
      then []
      else (if not (length (as_set (λ m n. m == n) (map (λ s. str_len s) outputs)) == 1)
            || not (length (as_set str_eq (map patterns.punctuation_skeleton outputs)) == 1)
          then []
          else record {
            rule_id = examples_single_form;
            severity = info;
            message = one_surface_pattern (length outputs);
          }
            ∷ [])

  module _ {F : Type 0} where
    abbrev pub text_of : Option (Value F) → List String
    text_of (some (text s)) = s ∷ []
    text_of _ = []

    abbrev pub output_of : Value F → List String
    output_of (dict fields) = text_of (get "output" fields)
    output_of _ = []

    abbrev pub outputs_of : List (Value F) → List String
    outputs_of [] = []
    outputs_of (ex ∷ examples) = output_of ex ++ outputs_of examples

    unfoldable pub check_examples_single_form : Option (List (Value F)) → List Finding
    check_examples_single_form none = []
    check_examples_single_form (some examples) =
        if ltb (length examples) 2 then [] else single_form (outputs_of examples)

    unfoldable pub lint_spec : String → Option (List (Value F)) → Option Schema → List Finding
    unfolding check_spec_length check_output_format_unpinned check_forced_choice_no_abstain
        check_schema_all_required check_examples_single_form
    lint_spec spec examples schema =
        check_spec_length spec
        ++ (check_output_format_unpinned patterns spec
            ++ (check_forced_choice_no_abstain patterns spec
                ++ (check_schema_all_required schema ++ check_examples_single_form examples)))
