-- ===== src/Speclint/Sets.antt =====
-- When `as_set` of paw_kit/speclint.py's sets has one member.
use paw_toolkit.Prelude.{
  ℕ, suc, List, [], ◌∷◌, Bool, true, not, ◌==◌, length, filter, all, arith, ◌≡◌, refl, sym, ◌∙◌,
  subst, ap, Bool-cases, inl, inr,
}
use paw_toolkit.Speclint.{as_set}

zero_or_not : (n : ℕ) → (n == 0) ≡ (suc n == 1)
zero_or_not n = ground arith

-- A set of texts or numbers has one member when all entries are equal to the first.
module _ {A : Type 0} (eq : A → A → Bool) (sound : (x y : A) → eq x y ≡ true → x ≡ y) where
  filter-filter : (p : A → Bool) (xs : List A) → filter p (filter p xs) ≡ filter p xs
  filter-filter p [] = refl
  filter-filter p (x ∷ xs) = elim (Bool-cases (p x)) [
    | inl kept ↦ rw (kept, kept) (ap (λ ys. x ∷ ys) (filter-filter p xs))
    | inr dropped ↦ rw dropped (filter-filter p xs)
  ]

  others-all :
      (x : A) (xs : List A)
      → (length (filter (λ y. not (eq x y)) (as_set eq xs)) == 0) ≡ all (eq x) xs
  others-all x [] = refl
  others-all x (y ∷ ys) = elim (Bool-cases (eq x y)) [
    | inl same ↦ rw same (
        subst
          (λ z.
            (length (filter (λ w. not (eq x w)) (filter (λ w. not (eq z w)) (as_set eq ys))) == 0)
            ≡ all (eq x) ys)
          (sound x y same)
          (rw (filter-filter (λ w. not (eq x w)) (as_set eq ys)) (others-all x ys)))
    | inr apart ↦ rw apart (ground arith)
  ]

  pub as_set-all : (x : A) (xs : List A) → (length (as_set eq (x ∷ xs)) == 1) ≡ all (eq x) xs
  as_set-all x xs =
      sym (zero_or_not (length (filter (λ y. not (eq x y)) (as_set eq xs)))) ∙ others-all x xs
