-- ===== src/Harness/Compare/Tally.antt =====
-- The loop of a comparison keeps its counts those of its rows, and its rows fair.
use paw_toolkit.Prelude.{
  ◌+◌, ◌≤◌, ◌≡◌, refl, String, List, [], ◌∷◌, ◌++◌, Bool, true, false, ◌&&◌, ◌||◌, not, Option,
  none, some, is_some, length, count, count-append, arith, if◌then◌else◌, str_eq, Bool-cases, inl,
  inr,
}
use paw_toolkit.Jit.Outcome.{Result, ok, raised, IfOk, ◌>>=◌}
use paw_toolkit.Harness.Matching.{values_equivalent, values_equivalent_unquoted}
use paw_toolkit.Harness.Suite.{TestSuiteConfig, is_abstain}
use paw_toolkit.Harness.Assertions.{Checks}
use paw_toolkit.Harness.Runner.{one_if}
use paw_toolkit.Harness.Compare.{
  CompareRow, CompareCounts, MatchKind, Side, is_identical, is_equivalent, is_equivalent_unquoted,
  side_match, is_matched_side, is_abstained_side, is_errored_side, no_compare_counts,
  outputs_match_kind, side_of, is_truthy,
}

abbrev is_false : Option Bool → Bool
is_false (some b) = not b
is_false none = false

abbrev pub identical : CompareRow → Bool
identical r = r.identical

abbrev pub passes_a : CompareRow → Bool
passes_a r = r.pass_a

abbrev pub passes_b : CompareRow → Bool
passes_b r = r.pass_b

abbrev pub equivalent : CompareRow → Bool
equivalent r = is_equivalent r.match_kind

abbrev pub equivalent_unquoted : CompareRow → Bool
equivalent_unquoted r = is_equivalent_unquoted r.match_kind

abbrev pub only_a : CompareRow → Bool
only_a r = r.pass_a && not r.pass_b

abbrev pub only_b : CompareRow → Bool
only_b r = r.pass_b && not r.pass_a

abbrev pub is_keyed_row : CompareRow → Bool
is_keyed_row r = is_some r.expected

abbrev pub is_errored_row : CompareRow → Bool
is_errored_row r = is_truthy r.execution_error_a || is_truthy r.execution_error_b

abbrev pub is_right : Option Bool → Bool
is_right none = false
is_right (some b) = b

abbrev pub is_right_a : CompareRow → Bool
is_right_a r = is_right r.a_expected_match

abbrev pub is_right_b : CompareRow → Bool
is_right_b r = is_right r.b_expected_match

-- A side that has an answer key and raised.
abbrev pub keyed_error_a : CompareRow → Bool
keyed_error_a r = is_some r.expected && is_some r.execution_error_a

abbrev pub keyed_error_b : CompareRow → Bool
keyed_error_b r = is_some r.expected && is_some r.execution_error_b

abbrev pub has_error : CompareRow → Bool
has_error r = is_some r.execution_error_a || is_some r.execution_error_b

abbrev pub is_wrong_a : CompareRow → Bool
is_wrong_a r = is_false r.a_expected_match

abbrev pub is_wrong_b : CompareRow → Bool
is_wrong_b r = is_false r.b_expected_match

-- The counts are those of the rows, from the narrowest match to the widest, and the answer keys of each side
-- are split into four.
pub record IsTallied (c : CompareCounts) : Type 0 where
  pub same : c.identical_count ≡ count identical c.rows
  pub widened : c.identical_count ≤ c.equivalent_count
  pub unquoted : c.equivalent_count ≤ c.equivalent_unquoted_count
  pub all_rows : c.equivalent_unquoted_count ≤ length c.rows
  pub a_passes : c.a_pass_count ≡ count passes_a c.rows
  pub b_passes : c.b_pass_count ≡ count passes_b c.rows
  pub equal : c.equivalent_count ≡ count equivalent c.rows
  pub equal_unquoted : c.equivalent_unquoted_count ≡ count equivalent_unquoted c.rows
  pub a_only : c.only_a_pass_count ≡ count only_a c.rows
  pub b_only : c.only_b_pass_count ≡ count only_b c.rows
  pub errors : c.errored_count ≡ count is_errored_row c.rows
  pub keyed : c.expected_total ≡ count is_keyed_row c.rows
  pub a_right : c.a_expected_matched ≡ count is_right_a c.rows
  pub b_right : c.b_expected_matched ≡ count is_right_b c.rows
  pub a_errors : c.a_expected_errored ≡ count keyed_error_a c.rows
  pub b_errors : c.b_expected_errored ≡ count keyed_error_b c.rows
  pub a_keys :
      c.expected_total
      ≡ c.a_expected_matched
        + count is_wrong_a c.rows
        + c.a_expected_abstained
        + c.a_expected_errored
  pub b_keys :
      c.expected_total
      ≡ c.b_expected_matched
        + count is_wrong_b c.rows
        + c.b_expected_abstained
        + c.b_expected_errored

-- Equal outputs fare alike: they are byte-identical, pass the same rules, and, where neither backend call
-- raised, stand alike against the answer key.
abbrev pub IsFair : CompareRow → Type 0
IsFair r =
    (r.identical ≡ is_identical r.match_kind)
    × (r.identical ≡ true → r.pass_a ≡ r.pass_b)
    × (r.identical ≡ true
        → r.execution_error_a ≡ none
        → r.execution_error_b ≡ none
        → r.a_expected_match ≡ r.b_expected_match)

pub no_compare_counts-IsTallied : IsTallied no_compare_counts
no_compare_counts-IsTallied = record {
  same = refl;
  widened = omega arith;
  unquoted = omega arith;
  all_rows = omega arith;
  a_passes = refl;
  b_passes = refl;
  equal = refl;
  equal_unquoted = refl;
  a_only = refl;
  b_only = refl;
  errors = refl;
  keyed = refl;
  a_right = refl;
  b_right = refl;
  a_errors = refl;
  b_errors = refl;
  a_keys = refl;
  b_keys = refl;
}

pub one_more :
    (p : CompareRow → Bool) (rs : List CompareRow) (r : CompareRow)
    → count p (rs ++ (r ∷ [])) ≡ count p rs + one_if (p r)
one_more p rs r = ground (arith, count-append p rs (r ∷ []))

pub widening :
    (k : MatchKind)
    → (one_if (is_identical k) ≤ one_if (is_equivalent k))
      × (one_if (is_equivalent k) ≤ one_if (is_equivalent_unquoted k))
      × (one_if (is_equivalent_unquoted k) ≤ 1)
widening MatchKind.byte_identical = (omega arith, omega arith, omega arith)
widening MatchKind.equivalent = (omega arith, omega arith, omega arith)
widening MatchKind.equivalent_unquoted = (omega arith, omega arith, omega arith)
widening MatchKind.different = (omega arith, omega arith, omega arith)

pub right_side : (s : Side) → one_if (is_matched_side s) ≡ one_if (is_right (side_match s))
right_side Side.side_keyless = refl
right_side Side.side_errored = refl
right_side Side.side_abstained = refl
right_side (Side.side_scored b) = refl

-- A side falls in exactly one of the four parts where there is an answer key, and errored where its call raised.
abbrev pub IsKeyed : Option String → Option String → Side → Type 0
IsKeyed expected error s =
    (one_if (is_some expected)
      ≡ one_if (is_matched_side s)
        + one_if (is_false (side_match s))
        + one_if (is_abstained_side s)
        + one_if (is_errored_side s))
    × (is_errored_side s ≡ (is_some expected && is_some error))

kind_of :
    (same : Bool) (strict unquoted : Result Bool)
    → IfOk
        (λ k. is_identical k ≡ same)
        (if same
          then ok MatchKind.byte_identical
          else (strict >>= λ s. (if s then ok true else unquoted) >>= λ u. ok (
              if s
              then MatchKind.equivalent
              else if u
              then MatchKind.equivalent_unquoted
              else MatchKind.different)))
kind_of true strict unquoted = refl
kind_of false (ok true) unquoted = refl
kind_of false (ok false) (ok true) = refl
kind_of false (ok false) (ok false) = refl
kind_of false (ok false) (raised e) = tt
kind_of false (raised e) unquoted = tt

module _ {F : Type 0} (checks : Checks F) (config : TestSuiteConfig F) where
  pub kind-identical :
      (a b : String)
      → IfOk (λ k. is_identical k ≡ str_eq a b) (outputs_match_kind checks config a b)
  unfolding outputs_match_kind
  kind-identical a b =
      kind_of (str_eq a b) (values_equivalent checks.matching a b)
        (values_equivalent_unquoted checks.matching a b)

  IsKeyed-scores :
      (key : String) (r : Result Bool)
      → IfOk (IsKeyed (some key) none) (r >>= λ m. ok (Side.side_scored m))
  IsKeyed-scores key (ok true) = (refl, refl)
  IsKeyed-scores key (ok false) = (refl, refl)
  IsKeyed-scores key (raised e) = tt

  pub side_of-IsKeyed :
      (expected : Option String) (out : String) (error : Option String)
      → IfOk (IsKeyed expected error) (side_of checks config expected out error)
  unfolding side_of
  side_of-IsKeyed none out none = (refl, refl)
  side_of-IsKeyed none out (some e) = (refl, refl)
  side_of-IsKeyed (some key) out (some e) = (refl, refl)
  side_of-IsKeyed (some key) out none = elim (Bool-cases (is_abstain config.abstain_value out)) [
    | inl abstained ↦ rw abstained (refl, refl)
    | inr answered ↦ rw answered (IsKeyed-scores key (values_equivalent checks.matching out key))
  ]
