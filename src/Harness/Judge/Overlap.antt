-- ===== src/Harness/Judge/Overlap.antt =====
-- The cases that two indices of paw_kit/test/judge.py share.
use paw_toolkit.Prelude.{
  ℕ, ◌+◌, ◌≡◌, refl, ap, sym, ◌∙◌, [], ◌∷◌, ◌++◌, true, str_eq_iff, length, filter, is_some, arith,
  Bool-cases, inl, inr,
}
use paw_toolkit.Harness.Runner.{one_if}
use paw_toolkit.Harness.Judge.{JudgeVerdict}
use paw_toolkit.Harness.Judge.Diff.{CaseKey, Indexed, same_case, find_case, is_in}

-- How often a key is in an index.
abbrev pub hits : CaseKey → Indexed → ℕ
hits k [] = 0
hits k ((j, w) ∷ m) = one_if (same_case j k) + hits k m

abbrev pub IsUnique : Indexed → Type 0
IsUnique [] = Unit {0}
IsUnique ((k, v) ∷ m) = (hits k m ≡ 0) × IsUnique m

abbrev pairs : Indexed → Indexed → ℕ
pairs [] n = 0
pairs ((k, v) ∷ m) n = hits k n + pairs m n

same_case_sym : (j k : CaseKey) → same_case j k ≡ same_case k j
same_case_sym (a, m) (b, n) = ground (arith, str_eq_iff a b, str_eq_iff b a)

pairs-nil : (m : Indexed) → pairs m [] ≡ 0
pairs-nil [] = refl
pairs-nil ((k, v) ∷ m) = omega (arith, pairs-nil m)

pairs-cons :
    (m n : Indexed) (j : CaseKey) (w : JudgeVerdict) → pairs m ((j, w) ∷ n) ≡ hits j m + pairs m n
pairs-cons [] n j w = refl
pairs-cons ((k, v) ∷ m) n j w = omega (arith, pairs-cons m n j w, ap one_if (same_case_sym j k))

pairs_comm : (m n : Indexed) → pairs m n ≡ pairs n m
pairs_comm m [] = pairs-nil m
pairs_comm m ((j, w) ∷ n) = omega (arith, pairs-cons m n j w, pairs_comm m n)

transfer : (j k l : CaseKey) → same_case j k ≡ true → same_case l j ≡ same_case l k
transfer (a, m) (b, n) (c, o) h = ground (arith, str_eq_iff a b, str_eq_iff c a, str_eq_iff c b)

hits-same : (j k : CaseKey) (m : Indexed) → same_case j k ≡ true → hits j m ≡ hits k m
hits-same j k [] h = refl
hits-same j k ((l, w) ∷ m) h = omega (arith, ap one_if (transfer j k l h), hits-same j k m h)

-- A key is in an index once, or not at all.
hits-find_case :
    (k : CaseKey) (m : Indexed) → IsUnique m → hits k m ≡ one_if (is_some (find_case k m))
unfolding find_case
hits-find_case k [] h = refl
hits-find_case k ((j, w) ∷ m) (fresh, h) = elim (Bool-cases (same_case j k)) [
  | inl same ↦ rw same (omega (arith, fresh, hits-same j k m same))
  | inr apart ↦ rw apart (omega (arith, hits-find_case k m h))
]

pairs-filter : (m n : Indexed) → IsUnique n → pairs m n ≡ length (filter (is_in n) m)
pairs-filter [] n h = refl
pairs-filter ((k, v) ∷ m) n h = elim (Bool-cases (is_some (find_case k n))) [
  | inl found ↦ rw found (omega (arith, hits-find_case k n h, ap one_if found, pairs-filter m n h))
  | inr absent ↦
      rw absent (omega (arith, hits-find_case k n h, ap one_if absent, pairs-filter m n h))
]

-- As many cases of the one are in the other as the other way round.
pub shared_comm :
    (m n : Indexed)
    → IsUnique m
    → IsUnique n
    → length (filter (is_in n) m) ≡ length (filter (is_in m) n)
shared_comm m n h k = sym (pairs-filter m n k) ∙ (pairs_comm m n ∙ pairs-filter n m h)

hits-append : (k : CaseKey) (m n : Indexed) → hits k (m ++ n) ≡ hits k m + hits k n
hits-append k [] n = omega arith
hits-append k ((j, w) ∷ m) n = omega (arith, hits-append k m n)

pub IsUnique-append :
    (m : Indexed) (k : CaseKey) (v : JudgeVerdict)
    → hits k m ≡ 0
    → IsUnique m
    → IsUnique (m ++ ((k, v) ∷ []))
IsUnique-append [] k v h u = (refl, tt)
IsUnique-append ((j, w) ∷ m) k v h (fresh, u) = (
  omega (arith, fresh, h, hits-append j m ((k, v) ∷ []), ap one_if (same_case_sym j k)),
  IsUnique-append m k v (omega (arith, h)) u,
)
