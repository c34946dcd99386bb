-- ===== src/Speclint.antt =====
-- paw_kit/speclint.py: the rules and `lint_spec`. The regular expressions are parameters, and so are `lower`,
-- `strip` and the test `in` of texts. A message is which text it is and what is printed in it.
pub mod Lint
pub mod Sets
pub mod Rules
use Prim.Native.String.{[], ◌∷◌}
use paw_toolkit.Prelude.{
  ℕ, zero, suc, ◌-◌, String, str_len, str_eq, List, [], ◌∷◌, ◌++◌, Option, none, some, Bool, true,
  false, ◌&&◌, ◌||◌, not, if◌then◌else◌, ◌==◌, ltb, length, filter, all, get_or, map,
}
use paw_toolkit.Jit.Agreement.{Value, Fields, get, text, dict}
use paw_toolkit.Harness.Texts.{prefix}

pub data Rule : Type 0 where
  spec_too_long spec_too_short output_format_unpinned forced_choice_no_abstain : Rule
  schema_all_required examples_single_form : Rule

pub data Severity : Type 0 where
  error warn info : Severity

pub data Message : Type 0 where
  too_long too_short : ℕ → Message
  no_concrete_example no_escape_hatch : Message
  every_field_required : String → Message
  one_surface_pattern : ℕ → Message

pub record Finding : Type 0 where
  pub rule_id : Rule
  pub severity : Severity
  pub message : Message

pub record Patterns : Type 0 where
  pub lower : String → String
  pub strip : String → String
  -- `part in text`
  pub has_text : String → String → Bool
  -- `group(0)` of each match of `_PAREN_LIST_RE`
  pub paren_lists : String → List String
  -- The spans of the matches of each of `_CLOSED_SET_PATTERNS`, and of `_QUOTED_LIST_RE`
  pub closed_sets : List (String → List (ℕ × ℕ))
  pub quoted_lists : String → List (ℕ × ℕ)
  -- `_SENTENCE_SPLIT_RE`: the spans before a position, and the start of the first match from one
  pub splits_before : String → ℕ → List (ℕ × ℕ)
  pub split_from : String → ℕ → Option ℕ
  pub abstain_term : String → Bool
  pub punctuation_skeleton : String → String

pub data Arg : Type 0 where
  none_type other_type : Arg
  label : String → Arg

pub data Annotation : Type 0 where
  union literal : List Arg → Annotation
  other_annotation : Annotation

pub record FieldInfo : Type 0 where
  pub is_required : Bool
  pub annotation : Annotation

pub record Schema : Type 0 where
  pub name : String
  pub model_fields : List FieldInfo

abbrev pub max_spec_chars : ℕ
max_spec_chars = 16000

abbrev pub min_spec_chars : ℕ
min_spec_chars = 10

abbrev pub any {ℓ} : {A : Type ℓ} → (A → Bool) → List A → Bool
any p [] = false
any p (x ∷ xs) = p x || any p xs

-- The members of a set of the entries of a list.
abbrev pub as_set {ℓ} : {A : Type ℓ} → (A → A → Bool) → List A → List A
as_set eq [] = []
as_set eq (x ∷ xs) = x ∷ filter (λ y. not (eq x y)) (as_set eq xs)

-- `spec[left:right]`
unfoldable pub between : ℕ → ℕ → String → String
unfolding prefix
between zero right s = prefix right s
between (suc left) right [] = []
between (suc left) zero (c ∷ s) = []
between (suc left) (suc right) (c ∷ s) = between left right s

abbrev pub format_words : List String
format_words = "format" ∷ "consistently" ∷ "normalize" ∷ "standard" ∷ []

abbrev pub unknown_literal_tokens : List String
unknown_literal_tokens =
    "unknown" ∷ "other" ∷ "none" ∷ "not_applicable" ∷ "not applicable" ∷ "n/a" ∷ "na" ∷ "abstain"
    ∷ []

abbrev pub is_none_type : Arg → Bool
is_none_type none_type = true
is_none_type _ = false

abbrev pub is_optional_annotation : Annotation → Bool
is_optional_annotation (union args) = any is_none_type args
is_optional_annotation _ = false

-- The end of the last of the matches.
abbrev pub last_end : ℕ → List (ℕ × ℕ) → ℕ
last_end left [] = left
last_end left ((start, end) ∷ spans) = last_end end spans

unfoldable pub check_spec_length : String → List Finding
check_spec_length spec =
    (if ltb max_spec_chars (str_len spec)
      then record { rule_id = spec_too_long; severity = error; message = too_long (str_len spec) }
        ∷ []
      else [])
    ++ (if ltb (str_len spec) min_spec_chars
        then record {
          rule_id = spec_too_short;
          severity = error;
          message = too_short (str_len spec);
        }
          ∷ []
        else [])

module _ (patterns : Patterns) where
  abbrev pub has_concrete_example : String → Bool
  has_concrete_example spec =
      let lower = patterns.lower spec in
      if patterns.has_text "input:" lower && patterns.has_text "output:" lower
      then true
      else patterns.has_text "->" spec
        || (patterns.has_text "=>" spec || patterns.has_text "```" spec)

  unfoldable pub check_output_format_unpinned : String → List Finding
  check_output_format_unpinned spec =
      let lower = patterns.lower spec in
      if not (any (λ word. patterns.has_text word lower) format_words)
      then []
      else (if has_concrete_example spec
          then []
          else record {
            rule_id = output_format_unpinned;
            severity = warn;
            message = no_concrete_example;
          }
            ∷ [])

  abbrev pub sentence_around : String → ℕ × ℕ → String
  sentence_around spec (start, end) =
      between (last_end 0 (patterns.splits_before spec start))
        (get_or (patterns.split_from spec end) (str_len spec)) spec

  abbrev pub closed_windows : String → List (String → List (ℕ × ℕ)) → List String
  closed_windows spec [] = []
  closed_windows spec (pattern ∷ ps) =
      map (sentence_around spec) (pattern spec) ++ closed_windows spec ps

  unfoldable pub enumeration_windows : String → List String
  enumeration_windows spec =
      (patterns.paren_lists spec ++ closed_windows spec patterns.closed_sets)
      ++ map (sentence_around spec) (patterns.quoted_lists spec)

  abbrev pub is_forced : List String → Bool
  is_forced [] = false
  is_forced (w ∷ ws) = not (all patterns.abstain_term (w ∷ ws))

  unfoldable pub check_forced_choice_no_abstain : String → List Finding
  check_forced_choice_no_abstain spec =
      if is_forced (enumeration_windows spec)
      then record { rule_id = forced_choice_no_abstain; severity = warn; message = no_escape_hatch }
        ∷ []
      else []
