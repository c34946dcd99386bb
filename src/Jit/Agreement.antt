-- ===== src/Jit/Agreement.antt =====
-- paw_kit/jit/agreement.py: `default_agreement_fn`. An answer is a Python value, as far as the comparison
-- tells values apart. The keys of a dictionary are texts. A model is its class with what `model_dump`
-- gives. A list and a tuple are compared alike, and are both `list` here.
pub mod Symmetry
pub mod Sound
pub mod Tolerance
use paw_toolkit.Prelude.{
  ℕ, zero, suc, String, Bool, true, false, ◌&&◌, not, Option, none, some, List, [], ◌∷◌, ◌==◌, all,
  str_eq, if◌then◌else◌,
}
use paw_toolkit.Jit.Outcome.{Result, ok, raised, other}

-- Python's integers
pub data ℤ : Type 0 where
  pos : ℕ → ℤ
  negsuc : ℕ → ℤ

abbrev pub int_eq : ℤ → ℤ → Bool
int_eq (ℤ.pos m) (ℤ.pos n) = m == n
int_eq (ℤ.negsuc m) (ℤ.negsuc n) = m == n
int_eq _ _ = false

mutual
  pub data Value (F : Type 0) : Type 0 where
    null : Value F
    bool : Bool → Value F
    int : ℤ → Value F
    float : F → Value F
    text : String → Value F
    list : Values F → Value F
    dict : Fields F → Value F
    model : String → Fields F → Value F
    -- An object of any other type.
    object : String → Value F

  pub data Values (F : Type 0) : Type 0 where
    no_values : Values F
    value : Value F → Values F → Values F

  pub data Fields (F : Type 0) : Type 0 where
    no_fields : Fields F
    field : String → Value F → Fields F → Fields F

-- What the comparison calls: `_normalize_str`'s NFC form and strip, `stringify_answer` on a structure,
-- `float` of an integer, which may overflow, and `math.isclose`.
pub record Calls (F : Type 0) : Type 0 where
  pub normalize_str : String → String
  pub stringify_answer : Value F → Result String
  pub to_float : ℤ → Result F
  pub isclose : F → F → Bool

-- Whether the first comparison agrees, and then the others: `all` of a generator.
abbrev pub and_then : Result Bool → Result Bool → Result Bool
and_then (ok true) r = r
and_then (ok false) r = ok false
and_then (raised e) r = raised e

module _ {F : Type 0} where
  -- `_is_structured`
  abbrev pub is_structured : Value F → Bool
  is_structured (list vs) = true
  is_structured (dict fs) = true
  is_structured (model c fs) = true
  is_structured _ = false

  abbrev pub size : Values F → ℕ
  size no_values = 0
  size (value v vs) = suc (size vs)

  abbrev pub all_pairs : (Value F → Value F → Result Bool) → Values F → Values F → Result Bool
  all_pairs rec no_values no_values = ok true
  all_pairs rec (value v vs) (value w ws) = and_then (rec v w) (all_pairs rec vs ws)
  all_pairs rec _ _ = ok false

  abbrev pub keys : Fields F → List String
  keys no_fields = []
  keys (field k v fs) = k ∷ keys fs

  abbrev pub get : String → Fields F → Option (Value F)
  get k no_fields = none
  get k (field j v fs) = if str_eq j k then some v else get k fs

  abbrev pub at_key :
      (Value F → Value F → Result Bool) → Option (Value F) → Option (Value F) → Result Bool
  at_key rec (some v) (some w) = rec v w
  at_key rec _ _ = raised (other "KeyError")

  abbrev pub all_keys :
      (Value F → Value F → Result Bool) → List String → Fields F → Fields F → Result Bool
  all_keys rec [] fs gs = ok true
  all_keys rec (k ∷ ks) fs gs = and_then (at_key rec (get k fs) (get k gs)) (all_keys rec ks fs gs)

abbrev pub has : String → List String → Bool
has k [] = false
has k (j ∷ js) = if str_eq j k then true else has k js

-- `set(a) == set(b)`
abbrev pub same_keys : List String → List String → Bool
same_keys ks js = all (λ k. has k js) ks && all (λ j. has j ks) js

abbrev pub bool_eq : Bool → Bool → Bool
bool_eq true b = b
bool_eq false b = not b

-- `except Exception`
abbrev pub caught : Result Bool → Bool
caught (ok b) = b
caught (raised e) = false

module _ {F : Type 0} (calls : Calls F) where
  abbrev pub same_text : String → String → Bool
  same_text s t = str_eq (calls.normalize_str s) (calls.normalize_str t)

  abbrev pub as_text : String → Result String → Result Bool
  as_text s (ok t) = ok (same_text s t)
  as_text s (raised e) = raised e

  abbrev pub text_as : Result String → String → Result Bool
  text_as (ok s) t = ok (same_text s t)
  text_as (raised e) t = raised e

  abbrev pub close_left : Result F → F → Result Bool
  close_left (ok x) y = ok (calls.isclose x y)
  close_left (raised e) y = raised e

  abbrev pub close_right : F → Result F → Result Bool
  close_right x (ok y) = ok (calls.isclose x y)
  close_right x (raised e) = raised e

  -- One level of `_compare`, with the comparison of the level below.
  abbrev pub level : (Value F → Value F → Result Bool) → Value F → Value F → Result Bool
  level rec null null = ok true
  level rec (bool x) (bool y) = ok (bool_eq x y)
  level rec (text s) (text t) = ok (same_text s t)
  level rec (int m) (int n) = ok (int_eq m n)
  level rec (float x) (float y) = ok (calls.isclose x y)
  level rec (int m) (float y) = close_left (calls.to_float m) y
  level rec (float x) (int n) = close_right x (calls.to_float n)
  level rec (text s) (list ws) = as_text s (calls.stringify_answer (list ws))
  level rec (text s) (dict gs) = as_text s (calls.stringify_answer (dict gs))
  level rec (text s) (model d gs) = as_text s (calls.stringify_answer (model d gs))
  level rec (list vs) (text t) = text_as (calls.stringify_answer (list vs)) t
  level rec (dict fs) (text t) = text_as (calls.stringify_answer (dict fs)) t
  level rec (model c fs) (text t) = text_as (calls.stringify_answer (model c fs)) t
  level rec (list vs) (list ws) = if size vs == size ws then all_pairs rec vs ws else ok false
  level rec (dict fs) (dict gs) =
      if same_keys (keys fs) (keys gs) then all_keys rec (keys fs) fs gs else ok false
  level rec (model c fs) (model d gs) = if str_eq c d then rec (dict fs) (dict gs) else ok false
  level rec _ _ = ok false

  -- `_compare`, with the levels that are left: at none, the depth is over `_MAX_AGREEMENT_DEPTH`.
  unfoldable pub compare : ℕ → Value F → Value F → Result Bool
  compare zero a b = ok false
  compare (suc n) a b = level (compare n) a b

  -- Depths 0 to 8 make nine levels.
  unfoldable pub default_agreement_fn : Value F → Value F → Bool
  unfolding compare
  default_agreement_fn teacher adapter = caught (compare 9 teacher adapter)
