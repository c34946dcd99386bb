-- ===== src/Jit/Agreement/Symmetry.antt =====
-- The default agreement of paw_kit/jit/agreement.py does not depend on which side is the teacher.
use paw_toolkit.Prelude.{
  ◌==◌, ℕ, zero, suc, String, Bool, true, false, ◌≡◌, refl, ap, Option, none, some, List, [], ◌∷◌,
  all, str_eq, arith, str_eq_iff, subst, Bool-cases, inl, inr,
}
use paw_toolkit.Jit.Outcome.{Result, ok, raised}
use paw_toolkit.Jit.Agreement.{
  Value, size, Values, Fields, Calls, all_pairs, keys, get, at_key, all_keys, has, same_keys, level,
  compare, caught, default_agreement_fn, and_then, int, float, text, list, dict, model, no_values,
  value, as_text, text_as, close_left, close_right,
}

pub and_then-true : (p q : Result Bool) → and_then p q ≡ ok true → (p ≡ ok true) × (q ≡ ok true)
and_then-true (ok true) q h = (refl, h)
and_then-true (ok false) q h = absurd (grind arith)
and_then-true (raised e) q h = absurd (grind arith)

pub caught-true : (r : Result Bool) → caught r ≡ true → r ≡ ok true
caught-true (ok b) h = ap ok h
caught-true (raised e) h = absurd (ground arith)

str_eq_sym : (s t : String) → str_eq s t ≡ str_eq t s
str_eq_sym s t = ground (arith, str_eq_iff s t, str_eq_iff t s)

pub has-all :
    (js ks : List String) (k : String)
    → all (λ j. has j ks) js ≡ true
    → has k js ≡ true
    → has k ks ≡ true
has-all [] ks k h m = absurd (ground arith)
has-all (j ∷ js) ks k h m = elim (Bool-cases (str_eq j k)) [
  | inl same ↦ subst (λ x. has x ks ≡ true) ((str_eq_iff j k).0 same) (ground arith)
  | inr apart ↦ has-all js ks k (ground arith) (ground arith)
]

module _ {F : Type 0} where
  -- Where one order of the arguments agrees, so does the other.
  abbrev Flips : (Value F → Value F → Result Bool) → Type 0
  Flips rec = (a b : Value F) → rec a b ≡ ok true → rec b a ≡ ok true

  all_pairs-Flips :
      (rec : Value F → Value F → Result Bool)
      → Flips rec
      → (vs ws : Values F) → all_pairs rec vs ws ≡ ok true
      → all_pairs rec ws vs ≡ ok true
  all_pairs-Flips rec f no_values no_values h = refl
  all_pairs-Flips rec f no_values (value w ws) h = h
  all_pairs-Flips rec f (value v vs) no_values h = h
  all_pairs-Flips rec f (value v vs) (value w ws) h =
      let (first, others) = and_then-true (rec v w) (all_pairs rec vs ws) h in
      rw (f v w first) (all_pairs-Flips rec f vs ws others)

  at_key-Flips :
      (rec : Value F → Value F → Result Bool)
      → Flips rec
      → (v w : Option (Value F)) → at_key rec v w ≡ ok true
      → at_key rec w v ≡ ok true
  at_key-Flips rec f (some v) (some w) h = f v w h
  at_key-Flips rec f none none h = h
  at_key-Flips rec f none (some w) h = h
  at_key-Flips rec f (some v) none h = h

  pub at_key-all_keys :
      (rec : Value F → Value F → Result Bool) (ks : List String) (fs gs : Fields F) (k : String)
      → all_keys rec ks fs gs ≡ ok true
      → has k ks ≡ true
      → at_key rec (get k fs) (get k gs) ≡ ok true
  at_key-all_keys rec [] fs gs k h m = absurd (ground arith)
  at_key-all_keys rec (j ∷ ks) fs gs k h m =
      let (first, others) =
        and_then-true (at_key rec (get j fs) (get j gs)) (all_keys rec ks fs gs) h in
      elim (Bool-cases (str_eq j k)) [
        | inl same ↦
            subst (λ x. at_key rec (get x fs) (get x gs) ≡ ok true) ((str_eq_iff j k).0 same) first
        | inr apart ↦ at_key-all_keys rec ks fs gs k others (ground arith)
      ]

  all_keys_of :
      (rec : Value F → Value F → Result Bool) (js ks : List String) (fs gs : Fields F)
      → Flips rec
      → all_keys rec ks fs gs ≡ ok true
      → all (λ j. has j ks) js ≡ true
      → all_keys rec js gs fs ≡ ok true
  all_keys_of rec [] ks fs gs f h m = refl
  all_keys_of rec (j ∷ js) ks fs gs f h m =
      let here : at_key rec (get j gs) (get j fs) ≡ ok true =
        at_key-Flips rec f (get j fs) (get j gs)
          (at_key-all_keys rec ks fs gs j h (ground arith)) in
      rw here (all_keys_of rec js ks fs gs f h (ground arith))

module _ {F : Type 0} (calls : Calls F) where
  as_text-Flips :
      (s : String) (r : Result String) → as_text calls s r ≡ ok true → text_as calls r s ≡ ok true
  as_text-Flips s (ok t) h =
      ground (arith, str_eq_sym (calls.normalize_str s) (calls.normalize_str t))
  as_text-Flips s (raised e) h = h

  text_as-Flips :
      (r : Result String) (t : String) → text_as calls r t ≡ ok true → as_text calls t r ≡ ok true
  text_as-Flips (ok s) t h =
      ground (arith, str_eq_sym (calls.normalize_str s) (calls.normalize_str t))
  text_as-Flips (raised e) t h = h

  close_left-Flips :
      ((x y : F) → calls.isclose x y ≡ true → calls.isclose y x ≡ true)
      → (r : Result F) (y : F) → close_left calls r y ≡ ok true
      → close_right calls y r ≡ ok true
  close_left-Flips close (ok x) y h = grind (arith, close x y)
  close_left-Flips close (raised e) y h = h

  close_right-Flips :
      ((x y : F) → calls.isclose x y ≡ true → calls.isclose y x ≡ true)
      → (x : F) (r : Result F) → close_right calls x r ≡ ok true
      → close_left calls r x ≡ ok true
  close_right-Flips close x (ok y) h = grind (arith, close x y)
  close_right-Flips close x (raised e) h = h

  level-Flips :
      (rec : Value F → Value F → Result Bool)
      → Flips rec
      → ((x y : F) → calls.isclose x y ≡ true → calls.isclose y x ≡ true)
      → (a b : Value F) → level calls rec a b ≡ ok true
      → level calls rec b a ≡ ok true
  level-Flips rec f close (list vs) (list ws) h = elim (Bool-cases (size vs == size ws)) [
    | inl same ↦
        let back : (size ws == size vs) ≡ true = ground arith in
        rw back (all_pairs-Flips rec f vs ws (rw same at h))
    | inr apart ↦ absurd (grind arith)
  ]
  level-Flips rec f close (dict fs) (dict gs) h =
      elim (Bool-cases (same_keys (keys fs) (keys gs))) [
        | inl same ↦
            let back : same_keys (keys gs) (keys fs) ≡ true = ground arith in
            rw back (all_keys_of rec (keys gs) (keys fs) fs gs f (rw same at h) (ground arith))
        | inr apart ↦ absurd (grind arith)
      ]
  level-Flips rec f close (model c fs) (model d gs) h = elim (Bool-cases (str_eq c d)) [
    | inl same ↦ rw (str_eq_sym d c, same) (f (dict fs) (dict gs) (rw same at h))
    | inr apart ↦ absurd (grind arith)
  ]
  level-Flips rec f close (text s) (text t) h =
      ground (arith, str_eq_sym (calls.normalize_str s) (calls.normalize_str t))
  level-Flips rec f close (int m) (int n) h = grind arith
  level-Flips rec f close (float x) (float y) h = grind (arith, close x y)
  level-Flips rec f close (int m) (float y) h = close_left-Flips close (calls.to_float m) y h
  level-Flips rec f close (float x) (int n) h = close_right-Flips close x (calls.to_float n) h
  level-Flips rec f close (text s) (list ws) h =
      as_text-Flips s (calls.stringify_answer (list ws)) h
  level-Flips rec f close (text s) (dict gs) h =
      as_text-Flips s (calls.stringify_answer (dict gs)) h
  level-Flips rec f close (text s) (model d gs) h =
      as_text-Flips s (calls.stringify_answer (model d gs)) h
  level-Flips rec f close (list vs) (text t) h =
      text_as-Flips (calls.stringify_answer (list vs)) t h
  level-Flips rec f close (dict fs) (text t) h =
      text_as-Flips (calls.stringify_answer (dict fs)) t h
  level-Flips rec f close (model c fs) (text t) h =
      text_as-Flips (calls.stringify_answer (model c fs)) t h
  level-Flips rec f close a b h = grind arith

  compare-Flips :
      (n : ℕ)
      → ((x y : F) → calls.isclose x y ≡ true → calls.isclose y x ≡ true)
      → (a b : Value F) → compare calls n a b ≡ ok true
      → compare calls n b a ≡ ok true
  unfolding compare
  compare-Flips zero close a b h = h
  compare-Flips (suc n) close a b h =
      level-Flips (compare calls n) (compare-Flips n close) close a b h

  agreed_back :
      ((x y : F) → calls.isclose x y ≡ true → calls.isclose y x ≡ true)
      → (a b : Value F) → default_agreement_fn calls a b ≡ true
      → default_agreement_fn calls b a ≡ true
  unfolding default_agreement_fn
  agreed_back close a b h =
      ap caught (compare-Flips 9 close a b (caught-true (compare calls 9 a b) h))

  -- The default agreement is symmetric, where `math.isclose` is: it comes to the same whichever side is
  -- called the teacher, exceptions inside the comparison included.
  pub default_agreement_fn-symmetric :
      ((x y : F) → calls.isclose x y ≡ true → calls.isclose y x ≡ true)
      → (a b : Value F) → default_agreement_fn calls a b ≡ default_agreement_fn calls b a
  default_agreement_fn-symmetric close a b =
      ground (arith, agreed_back close a b, agreed_back close b a)
