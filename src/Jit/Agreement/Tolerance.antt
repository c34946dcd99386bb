-- ===== src/Jit/Agreement/Tolerance.antt =====
-- paw_kit/jit/agreement.py: `field_tolerance_agreement`. The difference of two floats against a tolerance is a
-- parameter.
use paw_toolkit.Prelude.{
  String, List, Option, none, some, Bool, true, false, ◌||◌, not, str_eq, if◌then◌else◌, lookup,
  ◌≡◌, ◌⊎◌,
}
use paw_toolkit.Jit.Outcome.{Result, ok, raised}
use paw_toolkit.Jit.Agreement.{
  Value, Fields, no_fields, field, bool, int, float, dict, model, Calls, and_then, at_key, get,
  keys, same_keys,
}

module _ {F : Type 0} where
  -- `_fields`
  abbrev pub fields_of : Value F → Option (Fields F)
  fields_of (dict fs) = some fs
  fields_of (model c fs) = some fs
  fields_of _ = none

  abbrev pub is_other_class : Value F → Value F → Bool
  is_other_class (model c fs) (model d gs) = not (str_eq c d)
  is_other_class _ _ = false

  abbrev pub is_bool : Value F → Bool
  is_bool (bool b) = true
  is_bool _ = false

  module _ (calls : Calls F) (exceeds : F → F → F → Bool) (tolerances : List (String × F))
      (base : Value F → Value F → Result Bool) where
    -- A number, by `float`.
    abbrev pub number_of : Value F → Option (Result F)
    number_of (int n) = some (calls.to_float n)
    number_of (float x) = some (ok x)
    number_of _ = none

    abbrev pub is_close : F → Result F → Result F → Result Bool
    is_close tolerance (ok x) (ok y) = ok (not (exceeds x y tolerance))
    is_close tolerance (ok x) (raised e) = raised e
    is_close tolerance (raised e) y = raised e

    abbrev pub numbers_agree :
        F → Value F → Value F → Option (Result F) → Option (Result F) → Result Bool
    numbers_agree tolerance v w (some x) (some y) = is_close tolerance x y
    numbers_agree tolerance v w (some x) none = base v w
    numbers_agree tolerance v w none y = base v w

    -- One pass of the loop.
    abbrev pub field_agrees : Option F → Value F → Value F → Result Bool
    field_agrees none v w = base v w
    field_agrees (some tolerance) v w =
        if is_bool v || is_bool w
        then base v w
        else numbers_agree tolerance v w (number_of v) (number_of w)

    abbrev pub fields_agree : Fields F → Fields F → Result Bool
    fields_agree no_fields gs = ok true
    fields_agree (field k v fs) gs =
        and_then (at_key (field_agrees (lookup k tolerances)) (some v) (get k gs))
          (fields_agree fs gs)

    abbrev pub models_agree :
        Value F → Value F → Option (Fields F) → Option (Fields F) → Result Bool
    models_agree v w (some fs) (some gs) =
        if is_other_class v w
        then ok false
        else (if same_keys (keys fs) (keys gs) then fields_agree fs gs else ok false)
    models_agree v w (some fs) none = base v w
    models_agree v w none gs = base v w

    unfoldable pub field_tolerance_agreement : Value F → Value F → Result Bool
    field_tolerance_agreement teacher adapter =
        models_agree teacher adapter (fields_of teacher) (fields_of adapter)

    -- A field that the base accepts, or whose numbers are within the field's tolerance.
    abbrev pub IsClose : F → Value F → Value F → Type 0
    IsClose tolerance v w =
        (x : F) × ((y : F) × ((number_of v ≡ some (ok x))
            × (number_of w ≡ some (ok y))
            × (exceeds x y tolerance ≡ false)))

    abbrev pub IsAgreed : String → Value F → Value F → Type 0
    IsAgreed k v w =
        (base v w ≡ ok true)
        ⊎ ((tolerance : F) × ((lookup k tolerances ≡ some tolerance) × IsClose tolerance v w))

    abbrev pub AllAgreed : Fields F → Fields F → Type 0
    AllAgreed no_fields gs = Unit
    AllAgreed (field k v fs) gs =
        ((w : Value F) × ((get k gs ≡ some w) × IsAgreed k v w)) × AllAgreed fs gs

    Among : F → Value F → Value F → Option (Result F) → Option (Result F) → Type 0
    Among tolerance v w o p =
        (base v w ≡ ok true)
        ⊎ ((x : F) × ((y : F) × ((o ≡ some (ok x))
                × (p ≡ some (ok y))
                × (exceeds x y tolerance ≡ false))))
