-- ===== src/Jit/Agreement/Sound.antt =====
-- What an agreement of paw_kit/jit/agreement.py means, as a relation on answers with no bound on depth
-- and no order of evaluation.
use paw_toolkit.Prelude.{
  ◌==◌, ℕ, zero, suc, String, Bool, true, ◌≡◌, refl, ap, some, List, str_eq, arith, str_eq_iff,
  subst, Bool-cases, inl, inr,
}
use paw_toolkit.Jit.Outcome.{Result, ok, raised}
use paw_toolkit.Jit.Agreement.{
  Value, size, Values, Fields, ℤ, Calls, all_pairs, keys, get, all_keys, has, same_keys,
  is_structured, level, compare, default_agreement_fn, null, bool, int, float, text, list, dict,
  model, no_values, value, field, no_fields, same_text, as_text, text_as, close_left, close_right,
  int_eq, bool_eq,
}
use paw_toolkit.Jit.Agreement.Symmetry.{and_then-true, has-all, at_key-all_keys, caught-true}

pub keys_agree : (ks js : List String) → same_keys ks js ≡ true → (k : String) → has k ks ≡ has k js
keys_agree ks js h k =
    ground (arith, has-all ks js k (ground arith), has-all js ks k (ground arith))

pub int_eq_sound : (m n : ℤ) → int_eq m n ≡ true → m ≡ n
int_eq_sound (ℤ.pos m) (ℤ.pos n) h = ap ℤ.pos (ground arith)
int_eq_sound (ℤ.negsuc m) (ℤ.negsuc n) h = ap ℤ.negsuc (ground arith)
int_eq_sound (ℤ.pos m) (ℤ.negsuc n) h = absurd (ground arith)
int_eq_sound (ℤ.negsuc m) (ℤ.pos n) h = absurd (ground arith)

pub bool_eq_sound : (x y : Bool) → bool_eq x y ≡ true → x ≡ y
bool_eq_sound x y h = ground arith

module _ {F : Type 0} (calls : Calls F) where
  mutual
    -- Equal but for the normal form of texts and the closeness of floats.
    pub data Same : Value F → Value F → Type 0 where
      nulls : Same null null
      bools : (b : Bool) → Same (bool b) (bool b)
      ints : (n : ℤ) → Same (int n) (int n)
      floats : (x y : F) → calls.isclose x y ≡ true → Same (float x) (float y)
      mixed_left :
          (m : ℤ) (x y : F)
          → calls.to_float m ≡ ok x
          → calls.isclose x y ≡ true
          → Same (int m) (float y)
      mixed_right :
          (n : ℤ) (x y : F)
          → calls.to_float n ≡ ok y
          → calls.isclose x y ≡ true
          → Same (float x) (int n)
      texts :
          (s t : String) → calls.normalize_str s ≡ calls.normalize_str t → Same (text s) (text t)
      -- A structure against the text that it is written as.
      written :
          (s t : String) (b : Value F)
          → is_structured b ≡ true
          → calls.stringify_answer b ≡ ok t
          → calls.normalize_str s ≡ calls.normalize_str t
          → Same (text s) b
      read :
          (a : Value F) (s t : String)
          → is_structured a ≡ true
          → calls.stringify_answer a ≡ ok s
          → calls.normalize_str s ≡ calls.normalize_str t
          → Same a (text t)
      lists : (vs ws : Values F) → SameAll vs ws → Same (list vs) (list ws)
      dicts :
          (fs gs : Fields F)
          → ((k : String) → has k (keys fs) ≡ has k (keys gs))
          → ((k : String) (v w : Value F) → get k fs ≡ some v → get k gs ≡ some w → Same v w)
          → Same (dict fs) (dict gs)
      models :
          (c : String) (fs gs : Fields F)
          → Same (dict fs) (dict gs)
          → Same (model c fs) (model c gs)

    pub data SameAll : Values F → Values F → Type 0 where
      nothing : SameAll no_values no_values
      pair :
          (v w : Value F) (vs ws : Values F)
          → Same v w
          → SameAll vs ws
          → SameAll (value v vs) (value w ws)

  -- A comparison that agrees on nothing but what is the same.
  abbrev Sound : (Value F → Value F → Result Bool) → Type 0
  Sound rec = (a b : Value F) → rec a b ≡ ok true → Same a b

  all_pairs-SameAll :
      (rec : Value F → Value F → Result Bool)
      → Sound rec
      → (vs ws : Values F) → all_pairs rec vs ws ≡ ok true
      → SameAll vs ws
  all_pairs-SameAll rec f no_values no_values h = SameAll.nothing
  all_pairs-SameAll rec f no_values (value w ws) h = absurd (grind arith)
  all_pairs-SameAll rec f (value v vs) no_values h = absurd (grind arith)
  all_pairs-SameAll rec f (value v vs) (value w ws) h =
      let (first, others) = and_then-true (rec v w) (all_pairs rec vs ws) h in
      SameAll.pair v w vs ws (f v w first) (all_pairs-SameAll rec f vs ws others)

  has_key : (k : String) (fs : Fields F) (v : Value F) → get k fs ≡ some v → has k (keys fs) ≡ true
  has_key k no_fields v h = absurd (grind arith)
  has_key k (field j w fs) v h = elim (Bool-cases (str_eq j k)) [
    | inl same ↦ rw same refl
    | inr apart ↦ rw apart (has_key k fs v (rw apart at h))
  ]

  same_text_sound :
      (s t : String) → same_text calls s t ≡ true → calls.normalize_str s ≡ calls.normalize_str t
  same_text_sound s t h = ground (arith, str_eq_iff (calls.normalize_str s) (calls.normalize_str t))

  as_text-Same :
      (s : String) (b : Value F) (r : Result String)
      → is_structured b ≡ true
      → calls.stringify_answer b ≡ r
      → as_text calls s r ≡ ok true
      → Same (text s) b
  as_text-Same s b (ok t) st q h = Same.written s t b st q (same_text_sound s t (grind arith))
  as_text-Same s b (raised e) st q h = absurd (grind arith)

  text_as-Same :
      (a : Value F) (t : String) (r : Result String)
      → is_structured a ≡ true
      → calls.stringify_answer a ≡ r
      → text_as calls r t ≡ ok true
      → Same a (text t)
  text_as-Same a t (ok s) st q h = Same.read a s t st q (same_text_sound s t (grind arith))
  text_as-Same a t (raised e) st q h = absurd (grind arith)

  close_left-Same :
      (m : ℤ) (y : F) (r : Result F)
      → calls.to_float m ≡ r
      → close_left calls r y ≡ ok true
      → Same (int m) (float y)
  close_left-Same m y (ok x) q h = Same.mixed_left m x y q (grind arith)
  close_left-Same m y (raised e) q h = absurd (grind arith)

  close_right-Same :
      (x : F) (n : ℤ) (r : Result F)
      → calls.to_float n ≡ r
      → close_right calls x r ≡ ok true
      → Same (float x) (int n)
  close_right-Same x n (ok y) q h = Same.mixed_right n x y q (grind arith)
  close_right-Same x n (raised e) q h = absurd (grind arith)

  dict-Same :
      (rec : Value F → Value F → Result Bool)
      → Sound rec
      → (fs gs : Fields F) → same_keys (keys fs) (keys gs) ≡ true
      → all_keys rec (keys fs) fs gs ≡ ok true
      → Same (dict fs) (dict gs)
  dict-Same rec f fs gs same h =
      Same.dicts fs gs (keys_agree (keys fs) (keys gs) same) λ k v w p q.
        f v w (rw (p, q) at (at_key-all_keys rec (keys fs) fs gs k h (has_key k fs v p)))

  level-Same : (rec : Value F → Value F → Result Bool) → Sound rec → Sound (level calls rec)
  level-Same rec f (bool x) (bool y) h =
      subst (λ z. Same (bool x) (bool z)) (bool_eq_sound x y (grind arith)) (Same.bools x)
  level-Same rec f (int m) (int n) h =
      subst (λ z. Same (int m) (int z)) (int_eq_sound m n (grind arith)) (Same.ints m)
  level-Same rec f null null h = Same.nulls
  level-Same rec f (text s) (text t) h = Same.texts s t (same_text_sound s t (grind arith))
  level-Same rec f (float x) (float y) h = Same.floats x y (grind arith)
  level-Same rec f (list vs) (list ws) h = elim (Bool-cases (size vs == size ws)) [
    | inl same ↦ Same.lists vs ws (all_pairs-SameAll rec f vs ws (rw same at h))
    | inr apart ↦ absurd (grind arith)
  ]
  level-Same rec f (dict fs) (dict gs) h = elim (Bool-cases (same_keys (keys fs) (keys gs))) [
    | inl same ↦ dict-Same rec f fs gs same (rw same at h)
    | inr apart ↦ absurd (grind arith)
  ]
  level-Same rec f (model c fs) (model d gs) h = elim (Bool-cases (str_eq c d)) [
    | inl same ↦
        subst (λ x. Same (model c fs) (model x gs)) ((str_eq_iff c d).0 same)
          (Same.models c fs gs (f (dict fs) (dict gs) (rw same at h)))
    | inr apart ↦ absurd (grind arith)
  ]
  level-Same rec f (int m) (float y) h = close_left-Same m y (calls.to_float m) refl h
  level-Same rec f (float x) (int n) h = close_right-Same x n (calls.to_float n) refl h
  level-Same rec f (text s) (list ws) h = as_text-Same s (list ws) _ refl refl h
  level-Same rec f (text s) (dict gs) h = as_text-Same s (dict gs) _ refl refl h
  level-Same rec f (text s) (model d gs) h = as_text-Same s (model d gs) _ refl refl h
  level-Same rec f (list vs) (text t) h = text_as-Same (list vs) t _ refl refl h
  level-Same rec f (dict fs) (text t) h = text_as-Same (dict fs) t _ refl refl h
  level-Same rec f (model c fs) (text t) h = text_as-Same (model c fs) t _ refl refl h
  level-Same rec f a b h = absurd (grind arith)

  compare-Same : (n : ℕ) → Sound (compare calls n)
  unfolding compare
  compare-Same zero a b h = absurd (grind arith)
  compare-Same (suc n) a b h = level-Same (compare calls n) (compare-Same n) a b h

  -- The default agreement never agrees falsely: answers that it accepts are the same.
  pub default_agreement_fn-Same : (a b : Value F) → default_agreement_fn calls a b ≡ true → Same a b
  unfolding default_agreement_fn
  default_agreement_fn-Same a b h = compare-Same 9 a b (caught-true (compare calls 9 a b) h)
