-- ===== src/Harness/Active/Results.antt =====
-- What a run of the loop comes to.
use paw_toolkit.Prelude.{
  suc, ◌+◌, ◌≤◌, String, List, [], ◌∷◌, Bool, not, ◌≡◌, inl, inr, refl, All, arith, is_some, length,
  count, ltb,
}
use paw_toolkit.Jit.Outcome.{ok, IfOk, IfOk-ok}
use paw_toolkit.Harness.Suite.{TestSuiteConfig}
use paw_toolkit.Harness.Fuzzer.Distinct.{IsDistinct}
use paw_toolkit.Harness.Active.{World, Example, expected_by_input}
use paw_toolkit.Harness.Active.Rounds.{LoopState}
use paw_toolkit.Harness.Active.Learning.{learn, initial_state, seeded_or, max_iter, learning_report}
use paw_toolkit.Harness.Active.Labels.{Among, inputs}
use paw_toolkit.Harness.Active.Training.{IsTrusted}
use paw_toolkit.Harness.Active.Course.{IsEnded, is_set, iterate-IsEnded}

Among-cons :
    (e : Example) (es fs : List Example) → All (λ x. Among x fs) es → All (λ x. Among x (e ∷ fs)) es
Among-cons e [] fs h = tt
Among-cons e (x ∷ es) fs (p, h) = (inr p, Among-cons e es fs h)

All-Among : (es : List Example) → All (λ e. Among e es) es
All-Among [] = tt
All-Among (e ∷ es) = (inl refl, Among-cons e es es (All-Among es))

module _ {F W : Type 0} (world : World F W) (config : TestSuiteConfig F) (has_teacher : Bool)
    (initial : List Example) where
  abbrev answer_keys : List (String × String)
  answer_keys = expected_by_input config.standard_cases []

  abbrev start : List Example
  start = seeded_or initial answer_keys

  All-IsTrusted :
      (es : List Example)
      → All (λ e. Among e start) es
      → All (IsTrusted world config answer_keys start) es
  All-IsTrusted [] h = tt
  All-IsTrusted (e ∷ es) (p, h) = (inl p, All-IsTrusted es h)

  learn-IsEnded :
      (w : W)
      → IfOk
          (IsEnded world config answer_keys start (max_iter config + 0))
          (learn world config has_teacher initial w).0
  unfolding learn
  learn-IsEnded w =
      iterate-IsEnded world config answer_keys start has_teacher (max_iter config) 0
        (initial_state start) w
        (
          (All-IsTrusted start (All-Among start), (λ d. d)),
          record { ran = refl; rounds = refl; flags = refl; set = refl; any = refl },
        )

  -- Each row of the training set that the loop ends with is one that it started with, or its output is the same
  -- value as the answer key of its input and fails no assertion; no input has two rows, if none had at the start.
  pub learn-IsTrusted :
      (w : W) {e : Bool × LoopState}
      → (learn world config has_teacher initial w).0 ≡ ok e
      → IsDistinct (inputs start)
      → All (IsTrusted world config answer_keys start) e.1.dataset × IsDistinct (inputs e.1.dataset)
  learn-IsTrusted w {e} h d =
      let end =
        IfOk-ok (IsEnded world config answer_keys start (max_iter config + 0)) _ e (learn-IsEnded w)
          h in
      (end.clean.0, end.clean.1 d)

  -- The report of the loop: it ran the suite at most as often as it may, each run but the last was followed by a
  -- compilation or a skipped one, it has one flag for each run, of which as many are set
  -- as there were compilations, it says that it recompiled just when it did, and
  -- it names what it is stuck on just when it is no success.
  pub learn-report :
      (w : W) {e : Bool × LoopState}
      → (learn world config has_teacher initial w).0 ≡ ok e
      → let report = learning_report config e in
        (report.iterations_run ≤ max_iter config)
        × (report.iterations_run ≡ suc (report.recompiles_performed + report.recompiles_skipped))
        × (length report.recompiled_after_iteration ≡ report.iterations_run)
        × (count is_set report.recompiled_after_iteration ≡ report.recompiles_performed)
        × (report.recompiled ≡ ltb 0 report.recompiles_performed)
        × (is_some report.stuck_reason ≡ not report.is_success)
  learn-report w {e} h =
      let end =
        IfOk-ok (IsEnded world config answer_keys start (max_iter config + 0)) _ e (learn-IsEnded w)
          h in
      (omega (arith, end.bounded), end.runs, end.flags, end.set, end.any, end.stuck)
