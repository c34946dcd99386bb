-- ===== src/Harness/Compare/Loop.antt =====
-- The loop of a comparison: each case adds a fair row and keeps the counts.
use paw_toolkit.Prelude.{
  ℕ, suc, ◌+◌, ◌≡◌, refl, sym, ap, subst, String, List, [], ◌∷◌, Bool, Option, none, length, All,
  length-append, All-append, arith, str_eq, str_eq_iff,
}
use paw_toolkit.Jit.Outcome.{
  Result, ok, raised, IfOk, >>=-IfOk, IfOk-self, IfOk-with_eq, ok_injective,
}
use paw_toolkit.Harness.Suite.{TestSuiteConfig}
use paw_toolkit.Harness.Assertions.{Checks, Reason, failed_rules}
use paw_toolkit.Harness.Runner.{Backend, output_of, error_of, no_failures}
use paw_toolkit.Harness.Compare.{
  CompareCounts, MatchKind, Side, is_identical, side_match, no_compare_counts, outputs_match_kind,
  side_of, row_of, add_row, compare_case, compare_cases, compare_adapters, next_case,
  compared_cases,
}
use paw_toolkit.Harness.Runner.{one_if}
use paw_toolkit.Harness.Compare.Tally.{
  IsTallied, IsFair, IsKeyed, no_compare_counts-IsTallied, one_more, widening, right_side,
  kind-identical, side_of-IsKeyed, identical, passes_a, passes_b, is_wrong_a, is_wrong_b,
  equivalent, equivalent_unquoted, only_a, only_b, is_keyed_row, is_errored_row, is_right_a,
  is_right_b, keyed_error_a, keyed_error_b,
}

module _ {F : Type 0} (checks : Checks F) (config : TestSuiteConfig F) where
  add_row-IsTallied :
      (c : CompareCounts) (inp : String) (expected : Option String)
      (answer_a answer_b : Result String) (failed_a failed_b : List (String × Reason))
      (kind : MatchKind) (a b : Side)
      → IsTallied c
      → is_identical kind ≡ str_eq (output_of answer_a) (output_of answer_b)
      → IsKeyed expected (error_of checks.error_text answer_a) a
      → IsKeyed expected (error_of checks.error_text answer_b) b
      → IsTallied (
          add_row checks config c
            (row_of checks config inp expected answer_a answer_b failed_a failed_b kind a b)
            a
            b)
  add_row-IsTallied c inp expected answer_a answer_b failed_a failed_b kind a b t same ka kb =
      let row = row_of checks config inp expected answer_a answer_b failed_a failed_b kind a b in
      let (narrow, wide, widest) = widening kind in
      record {
        same = omega (arith, t.same, one_more identical c.rows row);
        widened = grind (arith, t.widened, narrow, same);
        unquoted = omega (arith, t.unquoted, wide);
        all_rows = omega (arith, t.all_rows, widest, length-append c.rows (row ∷ []));
        a_passes = omega (arith, t.a_passes, one_more passes_a c.rows row);
        b_passes = omega (arith, t.b_passes, one_more passes_b c.rows row);
        equal = omega (arith, t.equal, one_more equivalent c.rows row);
        equal_unquoted = omega (arith, t.equal_unquoted, one_more equivalent_unquoted c.rows row);
        a_only = omega (arith, t.a_only, one_more only_a c.rows row);
        b_only = omega (arith, t.b_only, one_more only_b c.rows row);
        keyed = omega (arith, t.keyed, one_more is_keyed_row c.rows row);
        a_right = omega (arith, t.a_right, one_more is_right_a c.rows row, right_side a);
        b_right = omega (arith, t.b_right, one_more is_right_b c.rows row, right_side b);
        a_errors = omega (arith, t.a_errors, one_more keyed_error_a c.rows row, ap one_if ka.1);
        b_errors = omega (arith, t.b_errors, one_more keyed_error_b c.rows row, ap one_if kb.1);
        errors = omega (arith, t.errors, one_more is_errored_row c.rows row);
        a_keys = omega (arith, t.a_keys, one_more is_wrong_a c.rows row, ka.0);
        b_keys = omega (arith, t.b_keys, one_more is_wrong_b c.rows row, kb.0);
      }

  side_alike :
      (expected : Option String) (out_a out_b : String) (error_a error_b : Option String)
      (a b : Side)
      → side_of checks config expected out_a error_a ≡ ok a
      → side_of checks config expected out_b error_b ≡ ok b
      → out_a ≡ out_b
      → error_a ≡ none
      → error_b ≡ none
      → side_match a ≡ side_match b
  side_alike expected out_a out_b error_a error_b a b ha hb same none_a none_b =
      let ha' = rw (same, none_a) at ha in
      let hb' = rw none_b at hb in ap side_match (ok_injective (rw ha' at hb'))

  pass_alike :
      (out_a out_b : String) (failed_a failed_b : List (String × Reason))
      → failed_rules checks out_a config.abstain_value config.assertions ≡ ok failed_a
      → failed_rules checks out_b config.abstain_value config.assertions ≡ ok failed_b
      → out_a ≡ out_b
      → no_failures failed_a ≡ no_failures failed_b
  pass_alike out_a out_b failed_a failed_b ha hb same =
      let ha' = rw same at ha in ap no_failures (ok_injective (rw ha' at hb))

  abbrev IsKept : ℕ → CompareCounts → Type 0
  IsKept n c = IsTallied c × All IsFair c.rows × (length c.rows ≡ n)

  compare_case-IsKept :
      (n : ℕ) (c : CompareCounts) (inp : String) (expected : Option String)
      (answer_a answer_b : Result String)
      → IsKept n c
      → IfOk (IsKept (suc n)) (compare_case checks config c inp expected answer_a answer_b)
  unfolding compare_case
  compare_case-IsKept n c inp expected answer_a answer_b (tallied, fair, size) =
      let out_a = output_of answer_a in
      let out_b = output_of answer_b in
      let error_a = error_of checks.error_text answer_a in
      let error_b = error_of checks.error_text answer_b in
      let rules_a = failed_rules checks out_a config.abstain_value config.assertions in
      let rules_b = failed_rules checks out_b config.abstain_value config.assertions in
      >>=-IfOk (λ x. rules_a ≡ ok x) (IsKept (suc n)) rules_a _ (IfOk-self rules_a)
        λ failed_a ha.
          >>=-IfOk (λ x. rules_b ≡ ok x) (IsKept (suc n)) rules_b _ (IfOk-self rules_b)
            λ failed_b hb.
              >>=-IfOk (λ k. is_identical k ≡ str_eq out_a out_b) (IsKept (suc n))
                (outputs_match_kind checks config out_a out_b) _
                (kind-identical checks config out_a out_b)
                λ kind hk.
                  >>=-IfOk
                    (λ x.
                      (side_of checks config expected out_a error_a ≡ ok x)
                      × IsKeyed expected error_a x)
                    (IsKept (suc n)) (side_of checks config expected out_a error_a) _
                    (IfOk-with_eq (IsKeyed expected error_a)
                      (side_of checks config expected out_a error_a)
                      (side_of-IsKeyed checks config expected out_a error_a))
                    λ a (sa, ka).
                      >>=-IfOk
                        (λ x.
                          (side_of checks config expected out_b error_b ≡ ok x)
                          × IsKeyed expected error_b x)
                        (IsKept (suc n)) (side_of checks config expected out_b error_b) _
                        (IfOk-with_eq (IsKeyed expected error_b)
                          (side_of checks config expected out_b error_b)
                          (side_of-IsKeyed checks config expected out_b error_b))
                        λ b (sb, kb). (
                          add_row-IsTallied c inp expected answer_a answer_b failed_a failed_b kind
                              a b tallied hk ka kb,
                          All-append IsFair c.rows _ fair (
                            (
                              sym hk,
                              (λ h.
                                  pass_alike out_a out_b failed_a failed_b ha hb
                                    ((str_eq_iff out_a out_b).0 h)),
                              (λ h none_a none_b.
                                  side_alike expected out_a out_b error_a error_b a b sa sb
                                    ((str_eq_iff out_a out_b).0 h) none_a none_b),
                            ),
                            tt,
                          ),
                          omega (
                            arith,
                            size,
                            length-append c.rows (
                                row_of checks config inp expected answer_a answer_b failed_a
                                  failed_b kind a b
                                ∷ []),
                          ),
                        )

  module _ {B : Type 0} (backend : Backend B) (adapter_a adapter_b : String) where
    next_case-IfOk :
        (P Q : CompareCounts → Type 0) (r : Result CompareCounts) (s : B)
        (f : CompareCounts → Result CompareCounts × B)
        → IfOk P r
        → ((c : CompareCounts) → P c → IfOk Q (f c).0)
        → IfOk Q (next_case checks config backend adapter_a adapter_b r s f).0
    next_case-IfOk P Q (ok c) s f p q = q c p
    next_case-IfOk P Q (raised e) s f p q = tt

    compare_cases-IsKept :
        (cases : List (String × Option String)) (n : ℕ) (c : CompareCounts) (s : B)
        → IsKept n c
        → IfOk
            (IsKept (length cases + n))
            (compare_cases checks config backend adapter_a adapter_b cases c s).0
    unfolding compare_cases
    compare_cases-IsKept [] n c s kept = subst (λ m. IsKept m c) (omega arith) kept
    compare_cases-IsKept ((inp, expected) ∷ cases) n c s kept =
        let a = backend.infer s adapter_a inp in
        let b = backend.infer a.1 adapter_b inp in
        next_case-IfOk (IsKept (suc n)) (IsKept (suc (length cases) + n)) _ b.1 _
          (compare_case-IsKept n c inp expected a.0 b.0 kept)
          λ c' kept'.
            subst
              (λ m.
                IfOk (IsKept m)
                  (compare_cases checks config backend adapter_a adapter_b cases c' b.1).0)
              (omega arith) (compare_cases-IsKept cases (suc n) c' b.1 kept')

    pub compare_adapters-IsTallied :
        (include_fuzz : Bool) (s : B)
        → IfOk
            (λ c.
              IsTallied c
              × All IsFair c.rows
              × (length c.rows
                  ≡ length (compared_cases checks config backend adapter_a adapter_b include_fuzz)))
            (compare_adapters checks config backend adapter_a adapter_b include_fuzz s).0
    unfolding compare_adapters
    compare_adapters-IsTallied include_fuzz s =
        let cases = compared_cases checks config backend adapter_a adapter_b include_fuzz in
        subst
          (λ m.
            IfOk (IsKept m)
              (compare_cases checks config backend adapter_a adapter_b cases no_compare_counts s).0)
          (omega arith)
          (compare_cases-IsKept cases 0 no_compare_counts s (no_compare_counts-IsTallied, tt, refl))
