-- ===== src/Speclint/Rules.antt =====
-- Which rules of paw_kit/speclint.py report.
use paw_toolkit.Prelude.{
  ◌≤◌, ◌<◌, String, str_len, str_eq, str_eq_iff, List, [], ◌∷◌, ◌++◌, Option, none, some, Bool,
  false, ◌&&◌, ◌||◌, not, if◌then◌else◌, ◌==◌, ==_iff, ltb, leb, length, filter, all, map, arith,
  ◌≡◌, refl, ◌∙◌, ap, Bool-cases, inl, inr, length-append,
}
use paw_toolkit.Jit.Agreement.{Value, get, dict, text}
use paw_toolkit.Speclint.{
  Rule, Finding, Patterns, FieldInfo, Schema, spec_too_long, spec_too_short, output_format_unpinned,
  forced_choice_no_abstain, schema_all_required, examples_single_form, any, as_set, format_words,
  is_optional_annotation, has_concrete_example, check_spec_length, check_output_format_unpinned,
  enumeration_windows, is_forced, check_forced_choice_no_abstain,
}
use paw_toolkit.Speclint.Sets.{as_set-all}
use paw_toolkit.Speclint.Lint.{
  literal_has_unknown_value, check_fields, no_way_out, check_model, check_schema_all_required,
  text_of, output_of, outputs_of, single_form, check_examples_single_form, lint_spec,
}

abbrev pub rules : List Rule
rules =
    spec_too_long ∷ spec_too_short ∷ output_format_unpinned ∷ forced_choice_no_abstain
    ∷ schema_all_required ∷ examples_single_form ∷ []

abbrev pub rule_ids : List Finding → List Rule
rule_ids fs = map (λ f. f.rule_id) fs

rule_ids-append : (xs ys : List Finding) → rule_ids (xs ++ ys) ≡ rule_ids xs ++ rule_ids ys
rule_ids-append [] ys = refl
rule_ids-append (x ∷ xs) ys = ap (λ rs. x.rule_id ∷ rs) (rule_ids-append xs ys)

joined :
    (xs ys : List Finding) (rs ss : List Rule)
    → rule_ids xs ≡ rs
    → rule_ids ys ≡ ss
    → rule_ids (xs ++ ys) ≡ rs ++ ss
joined xs ys rs ss h k = rw (rule_ids-append xs ys, h, k) refl

abbrev reported : Bool → Rule → List Rule
reported b r = if b then r ∷ [] else []

filter-rules :
    (p : Rule → Bool)
    → (reported (p spec_too_long) spec_too_long ++ reported (p spec_too_short) spec_too_short)
        ++ (reported (p output_format_unpinned) output_format_unpinned
            ++ (reported (p forced_choice_no_abstain) forced_choice_no_abstain
                ++ (reported (p schema_all_required) schema_all_required
                    ++ reported (p examples_single_form) examples_single_form)))
      ≡ filter p rules
filter-rules p = ground arith

module _ (patterns : Patterns) where
  abbrev pub is_unpinned : String → Bool
  is_unpinned spec =
      any (λ word. patterns.has_text word (patterns.lower spec)) format_words
      && not (has_concrete_example patterns spec)

  abbrev pub lacks_abstain_term : String → Bool
  lacks_abstain_term w = not (patterns.abstain_term w)

  -- A field that must be given a value that says something.
  abbrev pub is_blocking : FieldInfo → Bool
  is_blocking f =
      f.is_required
      && not
          (is_optional_annotation f.annotation || literal_has_unknown_value patterns f.annotation)

  abbrev pub is_blocked : Option Schema → Bool
  is_blocked none = false
  is_blocked (some schema) =
      any is_blocking schema.model_fields && all is_blocking schema.model_fields

  abbrev pub is_uniform : List String → Bool
  is_uniform [] = false
  is_uniform (s ∷ ss) =
      leb 1 (length ss)
      && (all (λ n. str_len s == n) (map (λ t. str_len t) ss)
          && all (str_eq (patterns.punctuation_skeleton s)) (map patterns.punctuation_skeleton ss))

  module _ {F : Type 0} where
    abbrev pub is_uniform_set : Option (List (Value F)) → Bool
    is_uniform_set none = false
    is_uniform_set (some examples) = is_uniform (outputs_of patterns examples)

    abbrev pub fires : String → Option (List (Value F)) → Option Schema → Rule → Bool
    fires spec examples schema spec_too_long = ltb 16000 (str_len spec)
    fires spec examples schema spec_too_short = ltb (str_len spec) 10
    fires spec examples schema output_format_unpinned = is_unpinned spec
    fires spec examples schema forced_choice_no_abstain =
        any lacks_abstain_term (enumeration_windows patterns spec)
    fires spec examples schema schema_all_required = is_blocked schema
    fires spec examples schema examples_single_form = is_uniform_set examples

  check_spec_length-reported :
      (spec : String)
      → rule_ids (check_spec_length spec)
        ≡ reported (ltb 16000 (str_len spec)) spec_too_long
          ++ reported (ltb (str_len spec) 10) spec_too_short
  unfolding check_spec_length
  check_spec_length-reported spec = ground arith

  check_output_format_unpinned-reported :
      (spec : String)
      → rule_ids (check_output_format_unpinned patterns spec)
        ≡ reported (is_unpinned spec) output_format_unpinned
  unfolding check_output_format_unpinned
  check_output_format_unpinned-reported spec = ground arith

  not-all : (ws : List String) → not (all patterns.abstain_term ws) ≡ any lacks_abstain_term ws
  not-all [] = refl
  not-all (w ∷ ws) = ground (arith, not-all ws)

  is_forced_lem : (ws : List String) → is_forced patterns ws ≡ any lacks_abstain_term ws
  is_forced_lem [] = refl
  is_forced_lem (w ∷ ws) = not-all (w ∷ ws)

  check_forced_choice_no_abstain-reported :
      (spec : String)
      → rule_ids (check_forced_choice_no_abstain patterns spec)
        ≡ reported
            (any lacks_abstain_term (enumeration_windows patterns spec))
            forced_choice_no_abstain
  unfolding check_forced_choice_no_abstain
  check_forced_choice_no_abstain-reported spec =
      rw (is_forced_lem (enumeration_windows patterns spec)) (ground arith)

  check_fields_lem :
      (name : String) (fs : List FieldInfo)
      → rule_ids (check_fields patterns (no_way_out patterns name) fs)
        ≡ reported (all is_blocking fs) schema_all_required
  check_fields_lem name [] = refl
  check_fields_lem name (f ∷ fs) = ground (arith, check_fields_lem name fs)

  check_model_lem :
      (name : String) (fs : List FieldInfo)
      → rule_ids (check_model patterns name fs)
        ≡ reported (any is_blocking fs && all is_blocking fs) schema_all_required
  check_model_lem name [] = refl
  check_model_lem name (f ∷ fs) = ground (arith, check_fields_lem name (f ∷ fs))

  check_schema_all_required-reported :
      (schema : Option Schema)
      → rule_ids (check_schema_all_required patterns schema)
        ≡ reported (is_blocked schema) schema_all_required
  unfolding check_schema_all_required
  check_schema_all_required-reported none = refl
  check_schema_all_required-reported (some schema) = check_model_lem schema.name schema.model_fields

  one_length :
      (s : String) (ss : List String)
      → (length (as_set (λ m n. m == n) (map (λ t. str_len t) (s ∷ ss))) == 1)
        ≡ all (λ n. str_len s == n) (map (λ t. str_len t) ss)
  one_length s ss =
      as_set-all (λ m n. m == n) (λ m n. (==_iff m n).0) (str_len s) (map (λ t. str_len t) ss)

  one_skeleton :
      (s : String) (ss : List String)
      → (length (as_set str_eq (map patterns.punctuation_skeleton (s ∷ ss))) == 1)
        ≡ all (str_eq (patterns.punctuation_skeleton s)) (map patterns.punctuation_skeleton ss)
  one_skeleton s ss =
      as_set-all str_eq (λ x y. (str_eq_iff x y).0) (patterns.punctuation_skeleton s)
        (map patterns.punctuation_skeleton ss)

  single_form_lem :
      (outputs : List String)
      → rule_ids (single_form patterns outputs) ≡ reported (is_uniform outputs) examples_single_form
  single_form_lem [] = refl
  single_form_lem (s ∷ ss) = rw (one_length s ss, one_skeleton s ss) (ground arith)

  few_outputs : (outputs : List String) → length outputs < 2 → is_uniform outputs ≡ false
  few_outputs [] h = refl
  few_outputs (s ∷ ss) h = ground arith

  module _ {F : Type 0} where
    length-text_of : (o : Option (Value F)) → length (text_of patterns o) ≤ 1
    length-text_of none = omega arith
    length-text_of (some (text s)) = omega arith
    length-text_of (some _) = omega arith

    length-output_of : (ex : Value F) → length (output_of patterns ex) ≤ 1
    length-output_of (dict fields) = length-text_of (get "output" fields)
    length-output_of _ = omega arith

    length-outputs_of :
        (examples : List (Value F)) → length (outputs_of patterns examples) ≤ length examples
    length-outputs_of [] = omega arith
    length-outputs_of (ex ∷ examples) = omega (
      arith,
      length-outputs_of examples,
      length-output_of ex,
      length-append (output_of patterns ex) (outputs_of patterns examples),
    )

    check_examples_single_form-reported :
        (examples : Option (List (Value F)))
        → rule_ids (check_examples_single_form patterns examples)
          ≡ reported (is_uniform_set examples) examples_single_form
    unfolding check_examples_single_form
    check_examples_single_form-reported none = refl
    check_examples_single_form-reported (some examples) =
        elim (Bool-cases (ltb (length examples) 2)) [
          | inl few ↦
              let h = length-outputs_of examples in
              let no = few_outputs (outputs_of patterns examples) (ground arith) in
              rw (few, no) refl
          | inr enough ↦ rw enough (single_form_lem (outputs_of patterns examples))
        ]

    -- The rules that `lint_spec` reports are, each at most once and in a fixed order, those whose condition holds: the
    -- spec has more than 16000 characters; it has fewer than 10; it has a word about the format and no concrete
    -- example; some enumeration in it has no abstain term in its window; the schema has fields, each required and
    -- with no value for "unknown"; and there are two example outputs or more, all of one length and skeleton.
    pub lint_spec_lem :
        (spec : String) (examples : Option (List (Value F))) (schema : Option Schema)
        → rule_ids (lint_spec patterns spec examples schema)
          ≡ filter (fires spec examples schema) rules
    unfolding lint_spec
    lint_spec_lem spec examples schema =
        joined _ _ _ _ (check_spec_length-reported spec) (
          joined _ _ _ _ (check_output_format_unpinned-reported spec) (
            joined _ _ _ _ (check_forced_choice_no_abstain-reported spec) (
              joined _ _ _ _ (check_schema_all_required-reported schema)
                (check_examples_single_form-reported examples))))
        ∙ filter-rules (fires spec examples schema)
