-- ===== src/Harness/Matching/Sound.antt =====
-- What the equality of two `json.loads` results means, as a relation with no order of evaluation.
use paw_toolkit.Prelude.{
  ◌==◌, ℕ, suc, String, Bool, true, ◌≡◌, subst, some, str_eq, str_eq_iff, arith, Bool-cases, inl,
  inr,
}
use paw_toolkit.Jit.Outcome.{Result, ok}
use paw_toolkit.Jit.Agreement.{
  Value, Values, Fields, ℤ, null, bool, int, float, text, list, dict, no_values, value, no_fields,
  field, and_then, size, keys, get, has, same_keys, int_eq,
}
use paw_toolkit.Jit.Agreement.Symmetry.{and_then-true}
use paw_toolkit.Jit.Agreement.Sound.{keys_agree, int_eq_sound, bool_eq_sound}
use paw_toolkit.Harness.Matching.{
  Calls, same_kind_equal, items_equal, entries_equal, json_values_equal, of_kind, at_entry,
  json_kind, kind_eq,
}

module _ {F : Type 0} (calls : Calls F) where
  mutual
    -- The same value: of one type, each number finite, and each part the same.
    pub data Same : Value F → Value F → Type 0 where
      nulls : Same null null
      bools : (b : Bool) → Same (bool b) (bool b)
      ints : (n : ℤ) → calls.int_isfinite n ≡ ok true → Same (int n) (int n)
      int_float :
          (m : ℤ) (y : F)
          → calls.int_isfinite m ≡ ok true
          → calls.float_isfinite y ≡ true
          → calls.mixed_eq m y ≡ true
          → Same (int m) (float y)
      float_int :
          (x : F) (n : ℤ)
          → calls.float_isfinite x ≡ true
          → calls.int_isfinite n ≡ ok true
          → calls.mixed_eq n x ≡ true
          → Same (float x) (int n)
      floats :
          (x y : F)
          → calls.float_isfinite x ≡ true
          → calls.float_isfinite y ≡ true
          → calls.float_eq x y ≡ true
          → Same (float x) (float y)
      texts : (s : String) → Same (text s) (text s)
      arrays : (vs ws : Values F) → SameItems vs ws → Same (list vs) (list ws)
      objects :
          (fs gs : Fields F)
          → ((k : String) → has k (keys fs) ≡ has k (keys gs))
          → ((k : String) (v w : Value F) → get k fs ≡ some v → get k gs ≡ some w → Same v w)
          → Same (dict fs) (dict gs)

    pub data SameItems : Values F → Values F → Type 0 where
      nothing : SameItems no_values no_values
      item :
          (v w : Value F) (vs ws : Values F)
          → Same v w
          → SameItems vs ws
          → SameItems (value v vs) (value w ws)

  guarded-true :
      (p q : Result Bool) (b : Bool)
      → and_then p (and_then q (ok b)) ≡ ok true
      → (p ≡ ok true) × (q ≡ ok true) × (b ≡ true)
  guarded-true p q b h =
      let (first, rest) = and_then-true p (and_then q (ok b)) h in
      let (second, third) = and_then-true q (ok b) rest in (first, second, grind arith)

  ok-true : (b : Bool) → Result.ok b ≡ Result.ok true → b ≡ true
  ok-true b h = grind arith

  sizes_of_rest : (m n : ℕ) → (suc m == suc n) ≡ true → (m == n) ≡ true
  sizes_of_rest m n h = ground arith

  of_kind-true : (a b : Value F) (r : Result Bool) → of_kind calls a b r ≡ ok true → r ≡ ok true
  of_kind-true a b r h = elim (Bool-cases (kind_eq (json_kind a) (json_kind b))) [
    | inl same ↦ rw same at h
    | inr apart ↦ absurd (grind arith)
  ]

  mutual
    unfolding same_kind_equal

    same_kind_equal-Same : (a b : Value F) → same_kind_equal calls a b ≡ ok true → Same a b
    same_kind_equal-Same null null h = Same.nulls
    same_kind_equal-Same (bool x) (bool y) h =
        subst (λ z. Same (bool x) (bool z)) (bool_eq_sound x y (grind arith)) (Same.bools x)
    same_kind_equal-Same (int m) (int n) h =
        let (fin, _, same) =
          guarded-true (calls.int_isfinite m) (calls.int_isfinite n) (int_eq m n) h in
        subst (λ z. Same (int m) (int z)) (int_eq_sound m n same) (Same.ints m fin)
    same_kind_equal-Same (int m) (float y) h =
        let (fin, fin', same) =
          guarded-true (calls.int_isfinite m) (ok (calls.float_isfinite y)) (calls.mixed_eq m y)
            h in
        Same.int_float m y fin (ok-true _ fin') same
    same_kind_equal-Same (float x) (int n) h =
        let (fin, fin', same) =
          guarded-true (ok (calls.float_isfinite x)) (calls.int_isfinite n) (calls.mixed_eq n x)
            h in
        Same.float_int x n (ok-true _ fin) fin' same
    same_kind_equal-Same (float x) (float y) h =
        let (fin, fin', same) =
          guarded-true (ok (calls.float_isfinite x)) (ok (calls.float_isfinite y))
            (calls.float_eq x y) h in
        Same.floats x y (ok-true _ fin) (ok-true _ fin') same
    same_kind_equal-Same (text s) (text t) h =
        subst (λ z. Same (text s) (text z)) ((str_eq_iff s t).0 (grind arith)) (Same.texts s)
    same_kind_equal-Same (list vs) (list ws) h = elim (Bool-cases (size vs == size ws)) [
      | inl same ↦ Same.arrays vs ws (items_equal-SameItems vs ws same (rw same at h))
      | inr apart ↦ absurd (grind arith)
    ]
    same_kind_equal-Same (dict fs) (dict gs) h = elim (Bool-cases (same_keys (keys fs) (keys gs))) [
      | inl same ↦
          Same.objects fs gs (keys_agree (keys fs) (keys gs) same)
            (entries_equal-Same fs gs (rw same at h))
      | inr apart ↦ absurd (grind arith)
    ]
    same_kind_equal-Same a b h = absurd (grind arith)

    items_equal-SameItems :
        (vs ws : Values F)
        → (size vs == size ws) ≡ true
        → items_equal calls vs ws ≡ ok true
        → SameItems vs ws
    items_equal-SameItems no_values no_values s h = SameItems.nothing
    items_equal-SameItems no_values (value w ws) s h = absurd (ground arith)
    items_equal-SameItems (value v vs) no_values s h = absurd (ground arith)
    items_equal-SameItems (value v vs) (value w ws) s h =
        let (first, others) = and_then-true _ _ h in
        SameItems.item v w vs ws (same_kind_equal-Same v w (of_kind-true v w _ first))
          (items_equal-SameItems vs ws (sizes_of_rest (size vs) (size ws) s) others)

    entries_equal-Same :
        (fs gs : Fields F)
        → entries_equal calls fs gs ≡ ok true
        → (k : String) (v w : Value F) → get k fs ≡ some v
        → get k gs ≡ some w
        → Same v w
    entries_equal-Same no_fields gs h k v w p q = absurd (grind arith)
    entries_equal-Same (field j u fs) gs h k v w p q =
        let (first, others) =
          and_then-true
            (at_entry calls (λ x. of_kind calls u x (same_kind_equal calls u x)) (get j gs))
            (entries_equal calls fs gs) h in
        elim (Bool-cases (str_eq j k)) [
          | inl same ↦
              subst (λ z. Same z w) (grind arith)
                (same_kind_equal-Same u w
                  (of_kind-true u w _ (rw ((str_eq_iff j k).0 same, q) at first)))
          | inr apart ↦ entries_equal-Same fs gs others k v w (rw apart at p) q
        ]

  -- `json_values_equal` never calls two values equal falsely: what it accepts is of one JSON type, holds no
  -- number that is not finite, and agrees part by part.
  pub json_values_equal-Same : (a b : Value F) → json_values_equal calls a b ≡ ok true → Same a b
  unfolding json_values_equal
  json_values_equal-Same a b h = same_kind_equal-Same a b (of_kind-true a b _ h)
