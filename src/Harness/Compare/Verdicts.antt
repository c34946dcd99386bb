-- ===== src/Harness/Compare/Verdicts.antt =====
-- What the report of a comparison says of its rows.
use paw_toolkit.Prelude.{
  ℕ, ◌+◌, ◌≡◌, refl, ap, ◌∙◌, ◌⊎◌, inl, inr, String, List, [], ◌∷◌, Bool, true, false, not, ◌&&◌,
  ◌||◌, Option, none, some, length, All, All-filter, length-filter_split, filter, arith, lookup,
  if◌then◌else◌, str_eq, str_eq_iff, is_some,
}
use paw_toolkit.Jit.Outcome.{Result, ok, raised, IfOk, IfOk-ok}
use paw_toolkit.Jit.Agreement.{bool_eq}
use paw_toolkit.Harness.Suite.{TestSuiteConfig}
use paw_toolkit.Harness.Fuzzer.{contains}
use paw_toolkit.Harness.Assertions.{Checks}
use paw_toolkit.Harness.Runner.{Backend}
use paw_toolkit.Harness.Compare.{
  CompareRow, CompareCounts, MatchKind, compare_adapters, compared_cases, project, project_manifest,
  manifest_display_fields, kept_entry, is_identical,
}
use paw_toolkit.Harness.Compare.Rows.{
  disagrees, is_formatting, differs, is_equivalent_only, differing_rows, equivalent_only_rows,
  genuinely_differing_rows,
}
use paw_toolkit.Harness.Compare.Report.{
  CompareReport, Adapters, comparison_of, comparison_reported, compare,
}
use paw_toolkit.Harness.Compare.Tally.{IsTallied, IsFair}
use paw_toolkit.Harness.Compare.Loop.{compare_adapters-IsTallied}

-- A row that is more than a difference of format.
abbrev pub IsGenuine : CompareRow → Type 0
IsGenuine r = (r.match_kind ≡ MatchKind.different) ⊎ (disagrees r ≡ true)

genuine_kind :
    (k : MatchKind) (identical pass_a pass_b disagree : Bool)
    → identical ≡ is_identical k
    → (identical ≡ true → pass_a ≡ pass_b)
    → (not identical || (not (bool_eq pass_a pass_b) || disagree)) ≡ true
    → (is_formatting k && not disagree) ≡ false
    → (k ≡ MatchKind.different) ⊎ (disagree ≡ true)
genuine_kind MatchKind.byte_identical i p q d same alike h f = inr (ground arith)
genuine_kind MatchKind.equivalent i p q d same alike h f = inr (ground arith)
genuine_kind MatchKind.equivalent_unquoted i p q d same alike h f = inr (ground arith)
genuine_kind MatchKind.different i p q d same alike h f = inl refl

IsGenuine-row :
    (r : CompareRow) → IsFair r → differs r ≡ true → is_equivalent_only r ≡ false → IsGenuine r
IsGenuine-row r (same, alike, _) d f =
    genuine_kind r.match_kind r.identical r.pass_a r.pass_b (disagrees r) same alike d f

module _ {F B : Type 0} (checks : Checks F) (adapters : Adapters F) (config : TestSuiteConfig F)
    (backend : Backend B) (a b : String) where
  reported-facts :
      (r : Result CompareCounts) (n : ℕ) {report : CompareReport F}
      → IfOk (λ c. IsTallied c × All IsFair c.rows × (length c.rows ≡ n)) r
      → comparison_reported adapters config a b r ≡ ok report
      → IsTallied report.counts × All IsFair report.counts.rows × (report.total_cases ≡ n)
  reported-facts (raised e) n facts h = absurd (grind arith)
  reported-facts (ok c) n facts h =
      IfOk-ok
        (λ report.
          IsTallied report.counts × All IsFair report.counts.rows × (report.total_cases ≡ n))
        (ok (comparison_of adapters config a b c)) _ facts h

  compare-facts :
      (include_fuzz : Bool) (s : B) {report : CompareReport F}
      → (compare checks adapters config backend a b include_fuzz s).0 ≡ ok report
      → IsTallied report.counts
        × All IsFair report.counts.rows
        × (report.total_cases ≡ length (compared_cases checks config backend a b include_fuzz))
  unfolding compare
  compare-facts include_fuzz s h =
      reported-facts (compare_adapters checks config backend a b include_fuzz s).0 _
        (compare_adapters-IsTallied checks config backend a b include_fuzz s) h

  -- The report of a comparison has one row for each case. Its counts are those of the rows: identical outputs
  -- are among the equivalent ones, those among the equivalent once unquoted; the cases that only one adapter
  -- passes account for the difference of the pass counts; and the answer keys of each side are the matched,
  -- the wrong, the abstained and the errored ones.
  pub compare-IsTallied :
      (include_fuzz : Bool) (s : B) {report : CompareReport F}
      → (compare checks adapters config backend a b include_fuzz s).0 ≡ ok report
      → IsTallied report.counts
        × (report.total_cases ≡ length (compared_cases checks config backend a b include_fuzz))
  compare-IsTallied include_fuzz s h =
      let (tallied, _, size) = compare-facts include_fuzz s h in (tallied, size)

  -- In the report of a comparison, each differing row is either listed as a difference of format only or as a
  -- genuine one, and a genuine one has outputs that differ even when unquoted, or verdicts that differ on its
  -- answer key: no row is there for its rules alone.
  pub compare-IsGenuine :
      (include_fuzz : Bool) (s : B) {report : CompareReport F}
      → (compare checks adapters config backend a b include_fuzz s).0 ≡ ok report
      → let rows = report.counts.rows in
        (length (equivalent_only_rows rows) + length (genuinely_differing_rows rows)
          ≡ length (differing_rows rows))
        × All IsGenuine (genuinely_differing_rows rows)
  unfolding equivalent_only_rows genuinely_differing_rows differing_rows
  compare-IsGenuine include_fuzz s {report} h =
      let (_, fair, _) = compare-facts include_fuzz s h in
      let rows = report.counts.rows in
      (
        length-filter_split is_equivalent_only (filter differs rows),
        All-filter (λ r. IsFair r × (differs r ≡ true)) IsGenuine (λ r. not (is_equivalent_only r))
            (λ r (f, d) n. IsGenuine-row r f d (ground arith)) (filter differs rows)
            (All-filter IsFair (λ r. IsFair r × (differs r ≡ true)) differs (λ r f d. (f, d)) rows
              fair),
      )

lookup-kept_entry :
    {V : Type 0} (k key : String) (o : Option V) (rest : List (String × V))
    → lookup k (kept_entry key o rest) ≡ (if str_eq key k && is_some o then o else lookup k rest)
unfolding lookup
lookup-kept_entry k key none rest = ground arith
lookup-kept_entry k key (some v) rest = ground arith

shown :
    {V : Type 0} (k field : String) (in_rest : Bool) (o o' r : Option V)
    → (field ≡ k → o' ≡ o)
    → r ≡ (if in_rest then o else none)
    → (if str_eq field k && is_some o' then o' else r)
      ≡ (if (if str_eq field k then true else in_rest) then o else none)
shown k field in_rest none o' r same h = grind (arith, str_eq_iff field k)
shown k field in_rest (some v) o' r same h = grind (arith, str_eq_iff field k)

lookup-project :
    {V : Type 0} (k : String) (fields : List String) (manifest : List (String × V))
    → lookup k (project fields manifest) ≡ (if contains k fields then lookup k manifest else none)
unfolding project contains lookup
lookup-project k [] manifest = refl
lookup-project k (field ∷ fields) manifest =
    lookup-kept_entry k field (lookup field manifest) (project fields manifest)
    ∙ shown k field (contains k fields) (lookup k manifest) (lookup field manifest) _
        (λ same. ap (λ j. lookup j manifest) same) (lookup-project k fields manifest)

-- What a report shows of a manifest: the display fields with the manifest's own values, and no other field.
pub lookup-project_manifest :
    {V : Type 0} (k : String) (manifest : List (String × V))
    → lookup k (project_manifest manifest)
      ≡ (if contains k manifest_display_fields then lookup k manifest else none)
unfolding project_manifest
lookup-project_manifest k manifest = lookup-project k manifest_display_fields manifest
