-- ===== src/Harness/Matching.antt =====
-- paw_kit/test/matching.py. What `json.loads` gives is a value of Jit/Agreement.antt, with no model and no
-- other object among its parts. The depth of a value is not bounded: Python's recursion limit is left out.
pub mod Sound
use paw_toolkit.Prelude.{
  ◌==◌, String, Bool, true, false, Option, none, some, List, [], ◌∷◌, append, str_eq, if◌then◌else◌,
}
use paw_toolkit.Jit.Outcome.{Result, ok, raised, value_error, other, ◌>>=◌}
use paw_toolkit.Jit.Agreement.{
  Value, Values, Fields, ℤ, null, bool, int, float, text, list, dict, model, object, no_values,
  value, no_fields, field, and_then, size, keys, get, same_keys, bool_eq, int_eq,
}

-- What matching calls: `json.loads`, `unicodedata.normalize` and `str.split`, `math.isfinite`, which raises
-- on an integer too large for a float, and `==` where a float takes part.
pub record Calls (F : Type 0) : Type 0 where
  pub loads : String → Result (Value F)
  pub nfc : String → String
  pub split : String → List String
  pub int_isfinite : ℤ → Result Bool
  pub float_isfinite : F → Bool
  pub float_eq : F → F → Bool
  pub mixed_eq : ℤ → F → Bool

-- The JSON types.
pub data Kind : Type 0 where
  null_kind bool_kind number_kind string_kind array_kind object_kind unknown_kind : Kind

abbrev pub kind_eq : Kind → Kind → Bool
kind_eq Kind.null_kind Kind.null_kind = true
kind_eq Kind.bool_kind Kind.bool_kind = true
kind_eq Kind.number_kind Kind.number_kind = true
kind_eq Kind.string_kind Kind.string_kind = true
kind_eq Kind.array_kind Kind.array_kind = true
kind_eq Kind.object_kind Kind.object_kind = true
kind_eq Kind.unknown_kind Kind.unknown_kind = true
kind_eq _ _ = false

-- `" ".join(words)`
abbrev pub join_rest : List String → String
join_rest [] = ""
join_rest (w ∷ ws) = append " " (append w (join_rest ws))

abbrev pub join : List String → String
join [] = ""
join (w ∷ ws) = append w (join_rest ws)

module _ {F : Type 0} where
  abbrev pub json_kind : Value F → Kind
  json_kind (bool b) = Kind.bool_kind
  json_kind null = Kind.null_kind
  json_kind (int n) = Kind.number_kind
  json_kind (float x) = Kind.number_kind
  json_kind (text s) = Kind.string_kind
  json_kind (list vs) = Kind.array_kind
  json_kind (dict fs) = Kind.object_kind
  json_kind (model c fs) = Kind.unknown_kind
  json_kind (object c) = Kind.unknown_kind

module _ {F : Type 0} (calls : Calls F) where
  -- `except (ValueError, TypeError)`
  abbrev pub parsed : Result (Value F) → Result (Option (Value F))
  parsed (ok v) = ok (some v)
  parsed (raised value_error) = ok none
  parsed (raised (other name)) = if str_eq name "TypeError" then ok none else raised (other name)
  parsed (raised e) = raised e

  abbrev pub parse_json_or_none : String → Result (Option (Value F))
  parse_json_or_none t = parsed (calls.loads t)

  abbrev pub normalize_whitespace : String → String
  normalize_whitespace t = join (calls.split (calls.nfc t))

  -- The kinds are compared before the values: a value of another kind is not equal.
  abbrev pub of_kind : Value F → Value F → Result Bool → Result Bool
  of_kind a b same = if kind_eq (json_kind a) (json_kind b) then same else ok false

  -- `b[k]`
  abbrev pub at_entry : (Value F → Result Bool) → Option (Value F) → Result Bool
  at_entry equal (some w) = equal w
  at_entry equal none = raised (other "KeyError")

  unfoldable mutual
    pub same_kind_equal : Value F → Value F → Result Bool
    same_kind_equal null null = ok true
    same_kind_equal (bool x) (bool y) = ok (bool_eq x y)
    same_kind_equal (int m) (int n) =
        and_then (calls.int_isfinite m) (and_then (calls.int_isfinite n) (ok (int_eq m n)))
    same_kind_equal (int m) (float y) =
        and_then (calls.int_isfinite m)
          (and_then (ok (calls.float_isfinite y)) (ok (calls.mixed_eq m y)))
    same_kind_equal (float x) (int n) =
        and_then (ok (calls.float_isfinite x))
          (and_then (calls.int_isfinite n) (ok (calls.mixed_eq n x)))
    same_kind_equal (float x) (float y) =
        and_then (ok (calls.float_isfinite x))
          (and_then (ok (calls.float_isfinite y)) (ok (calls.float_eq x y)))
    same_kind_equal (text s) (text t) = ok (str_eq s t)
    same_kind_equal (list vs) (list ws) = if size vs == size ws then items_equal vs ws else ok false
    same_kind_equal (dict fs) (dict gs) =
        if same_keys (keys fs) (keys gs) then entries_equal fs gs else ok false
    same_kind_equal _ _ = ok false

    pub items_equal : Values F → Values F → Result Bool
    items_equal (value v vs) (value w ws) =
        and_then (of_kind v w (same_kind_equal v w)) (items_equal vs ws)
    items_equal _ _ = ok true

    -- `all(… for k in a)`: the key of each entry of `a` is looked up in `b`.
    pub entries_equal : Fields F → Fields F → Result Bool
    entries_equal no_fields gs = ok true
    entries_equal (field k v fs) gs =
        and_then (at_entry (λ w. of_kind v w (same_kind_equal v w)) (get k gs))
          (entries_equal fs gs)

  unfoldable pub json_values_equal : Value F → Value F → Result Bool
  unfolding same_kind_equal
  json_values_equal a b = of_kind a b (same_kind_equal a b)

  -- Equal as JSON where both sides are, and equal up to white space where one is not.
  abbrev pub parsed_equivalent : String → String → Option (Value F) → Option (Value F) → Result Bool
  parsed_equivalent a b (some v) (some w) = json_values_equal v w
  parsed_equivalent a b _ _ = ok (str_eq (normalize_whitespace a) (normalize_whitespace b))

  unfoldable pub values_equivalent : String → String → Result Bool
  values_equivalent a b =
      if str_eq a b
      then ok true
      else do p ← parse_json_or_none a; q ← parse_json_or_none b; parsed_equivalent a b p q

  -- Exactly one side is JSON, and that side is a string.
  abbrev pub unwrapped : String → String → Option (Value F) → Option (Value F) → Result Bool
  unwrapped a b (some (text s)) none = values_equivalent s b
  unwrapped a b none (some (text t)) = values_equivalent a t
  unwrapped a b _ _ = ok false

  unfoldable pub values_equivalent_unquoted : String → String → Result Bool
  values_equivalent_unquoted a b = do
    equivalent ← values_equivalent a b
    if equivalent
        then ok true
        else do p ← parse_json_or_none a; q ← parse_json_or_none b; unwrapped a b p q
