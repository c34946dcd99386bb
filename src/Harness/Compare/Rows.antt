-- ===== src/Harness/Compare/Rows.antt =====
-- paw_kit/test/compare.py: the rows of a report that differ, and why.
use paw_toolkit.Prelude.{
  ◌&&◌, ◌||◌, Bool, true, false, not, Option, some, none, List, filter, is_some,
}
use paw_toolkit.Jit.Agreement.{bool_eq}
use paw_toolkit.Harness.Compare.{CompareRow, MatchKind}

abbrev pub same_match : Option Bool → Option Bool → Bool
same_match none none = true
same_match (some a) (some b) = bool_eq a b
same_match _ _ = false

-- `r.expected is not None and r.a_expected_match != r.b_expected_match`
abbrev pub disagrees : CompareRow → Bool
disagrees r = is_some r.expected && not (same_match r.a_expected_match r.b_expected_match)

abbrev pub differs : CompareRow → Bool
differs r = not r.identical || (not (bool_eq r.pass_a r.pass_b) || disagrees r)

-- `match_kind in (equivalent, equivalent_unquoted)`
abbrev pub is_formatting : MatchKind → Bool
is_formatting MatchKind.equivalent = true
is_formatting MatchKind.equivalent_unquoted = true
is_formatting _ = false

abbrev pub is_equivalent_only : CompareRow → Bool
is_equivalent_only r = is_formatting r.match_kind && not (disagrees r)

unfoldable pub expected_disagreeing_rows : List CompareRow → List CompareRow
expected_disagreeing_rows rows = filter disagrees rows

unfoldable pub differing_rows : List CompareRow → List CompareRow
differing_rows rows = filter differs rows

unfoldable pub equivalent_only_rows : List CompareRow → List CompareRow
unfolding differing_rows
equivalent_only_rows rows = filter is_equivalent_only (differing_rows rows)

-- The rows of `differing_rows` that are no object of `equivalent_only_rows`.
unfoldable pub genuinely_differing_rows : List CompareRow → List CompareRow
unfolding differing_rows
genuinely_differing_rows rows = filter (λ r. not (is_equivalent_only r)) (differing_rows rows)
