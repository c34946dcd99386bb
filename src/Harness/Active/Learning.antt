-- ===== src/Harness/Active/Learning.antt =====
-- paw_kit/test/active.py: `run_active_learning_loop`.
use paw_toolkit.Prelude.{
  ℕ, zero, suc, ◌+◌, String, List, [], ◌∷◌, ◌++◌, Option, none, some, Bool, true, false, ◌&&◌, ◌||◌,
  not, if◌then◌else◌, length, get_or, ltb, ◌==◌,
}
use paw_toolkit.Jit.Outcome.{Result, ok, raised, value_error, other, ◌>>=◌}
use paw_toolkit.Files.PathSafety.{ensure_contained}
use paw_toolkit.Harness.Integers.{rounds}
use paw_toolkit.Harness.Suite.{TestSuiteConfig}
use paw_toolkit.Harness.Runner.Report.{TestRunReport, run, is_success, get_failing_inputs}
use paw_toolkit.Harness.Active.{World, Example, RejectedLabel, expected_by_input, seeded}
use paw_toolkit.Harness.Active.Rounds.{
  Round, LoopState, Stuck, Failing, query_all, union, slice_to, stuck_after, eligible_inputs,
  unfalsifiable_inputs, is_none_or_other,
}

-- The start of an iteration: its report, and no program compiled yet.
abbrev pub started : LoopState → TestRunReport → LoopState
started s report = record {
  dataset = s.dataset;
  iteration_reports = s.iteration_reports ++ (report ∷ []);
  total_repaired = s.total_repaired;
  rejected_labels = s.rejected_labels;
  recompiled = s.recompiled;
  recompiles_performed = s.recompiles_performed;
  recompiles_skipped = s.recompiles_skipped;
  stuck_reason = s.stuck_reason;
  skipped_inputs = s.skipped_inputs;
  repaired_inputs = s.repaired_inputs;
  last_compiled_fingerprint = s.last_compiled_fingerprint;
  recompiled_after_iteration = s.recompiled_after_iteration ++ (false ∷ []);
}

-- `flags[-1] = True`
abbrev pub set_last : List Bool → List Bool
set_last [] = []
set_last (b ∷ []) = true ∷ []
set_last (b ∷ c ∷ bs) = b ∷ set_last (c ∷ bs)

-- A round before its first query.
abbrev pub opened : LoopState → Round
opened s = record {
  dataset = s.dataset;
  accepted_inputs = [];
  teacher_errors = 0;
  rejected_labels = s.rejected_labels;
}

-- The state with why it is stuck, as it is reported.
abbrev pub with_stuck : LoopState → Option Stuck → LoopState
with_stuck s stuck = record {
  dataset = s.dataset;
  iteration_reports = s.iteration_reports;
  total_repaired = s.total_repaired;
  rejected_labels = s.rejected_labels;
  recompiled = s.recompiled;
  recompiles_performed = s.recompiles_performed;
  recompiles_skipped = s.recompiles_skipped;
  stuck_reason = stuck;
  skipped_inputs = s.skipped_inputs;
  repaired_inputs = s.repaired_inputs;
  last_compiled_fingerprint = s.last_compiled_fingerprint;
  recompiled_after_iteration = s.recompiled_after_iteration;
}

module _ {F W : Type 0} (world : World F W) (config : TestSuiteConfig F)
    (keys : List (String × String)) where
  abbrev pub skipped_of : LoopState → List Failing → List String
  skipped_of s failing = union s.skipped_inputs (unfalsifiable_inputs keys failing)

  abbrev pub needs_compile : LoopState → Round → Bool
  needs_compile s round =
      ltb 0 (length round.accepted_inputs)
      && is_none_or_other s.last_compiled_fingerprint (world.dataset_fingerprint round.dataset)

  -- The end of an iteration, with or without a new program.
  abbrev pub concluded : LoopState → List Failing → ℕ → Round → Bool → LoopState
  concluded s failing queried round compiled =
      let repaired = union s.repaired_inputs round.accepted_inputs in
      let skipped = skipped_of s failing in
      record {
        dataset = round.dataset;
        iteration_reports = s.iteration_reports;
        total_repaired = length repaired;
        rejected_labels = round.rejected_labels;
        recompiled = if compiled then true else s.recompiled;
        recompiles_performed =
            if compiled then s.recompiles_performed + 1 else s.recompiles_performed;
        recompiles_skipped = if compiled then s.recompiles_skipped else s.recompiles_skipped + 1;
        stuck_reason =
            stuck_after world config keys queried (length round.accepted_inputs)
              round.teacher_errors (ltb 0 (length skipped)) compiled;
        skipped_inputs = skipped;
        repaired_inputs = repaired;
        last_compiled_fingerprint =
            if compiled
            then some (world.dataset_fingerprint round.dataset)
            else s.last_compiled_fingerprint;
        recompiled_after_iteration =
            if compiled
            then set_last s.recompiled_after_iteration
            else s.recompiled_after_iteration;
      }

  abbrev pub if_ok : {A C : Type 0} → Result A → W → (A → Result C × W) → Result C × W
  if_ok (ok a) w f = f a
  if_ok (raised e) w f = (raised e, w)

  -- A relative adapter path is checked once more where it is written to.
  unfoldable pub check_path : Result (Unit {0})
  check_path =
      if world.is_absolute config.adapter_path
      then ok tt
      else (ensure_contained world.resolve config.adapter_path "." >>= λ p. ok tt)

  -- `active_backend.compile`
  unfoldable pub compile_now : LoopState → List Failing → ℕ → Round → W → Result LoopState × W
  compile_now s failing queried round w = if_ok check_path w λ checked.
      let done = world.compile w config.spec round.dataset config.adapter_path in
      if_ok done.0 done.1 λ compiled. (ok (concluded s failing queried round true), done.1)

  unfoldable pub compile_round : LoopState → List Failing → ℕ → Round → W → Result LoopState × W
  compile_round s failing queried round w =
      if needs_compile s round
      then compile_now s failing queried round w
      else (ok (concluded s failing queried round false), w)

  -- An iteration that failed and is not the last one.
  unfoldable pub repair : LoopState → TestRunReport → W → Result LoopState × W
  repair s report w =
      let failing = get_failing_inputs report in
      let queried =
        slice_to config.active_learning.max_queries_per_iteration (eligible_inputs keys failing) in
      let asked = query_all world config keys queried (opened s) w in
      if_ok asked.0 asked.1 λ round. compile_round s failing (length queried) round asked.1

  -- The end of the loop: a success, or why there is none.
  abbrev pub exhausted : LoopState → Bool × LoopState
  exhausted s = (false, with_stuck s (some (get_or s.stuck_reason Stuck.iterations_exhausted)))

  -- The iterations that are left, from the state before them. With none to begin with, there is no last report.
  unfoldable pub iterate : Bool → ℕ → LoopState → W → Result (Bool × LoopState) × W
  unfolding repair
  iterate has_teacher zero s w = (raised (other "IndexError"), w)
  iterate has_teacher (suc n) s w =
      let ran = run world.checks world.backend config w in
      if_ok ran.0 ran.1 λ report.
        if is_success report
        then (ok (true, with_stuck (started s report) none), ran.1)
        else if not config.active_learning.auto_recompile || n == 0
        then (ok (exhausted (started s report)), ran.1)
        else if not has_teacher
        then (raised value_error, ran.1)
        else if_ok (repair (started s report) report ran.1).0
            (repair (started s report) report ran.1).1
            λ next. iterate has_teacher n next (repair (started s report) report ran.1).1

abbrev pub seeded_or : List Example → List (String × String) → List Example
seeded_or [] keys = seeded keys
seeded_or (e ∷ es) keys = e ∷ es

abbrev pub initial_state : List Example → LoopState
initial_state dataset = record {
  dataset = dataset;
  iteration_reports = [];
  total_repaired = 0;
  rejected_labels = [];
  recompiled = false;
  recompiles_performed = 0;
  recompiles_skipped = 0;
  stuck_reason = none;
  skipped_inputs = [];
  repaired_inputs = [];
  last_compiled_fingerprint = none;
  recompiled_after_iteration = [];
}

abbrev pub max_iter : {F : Type 0} → TestSuiteConfig F → ℕ
max_iter config =
    if config.active_learning.auto_recompile
    then rounds config.active_learning.max_iterations
    else 1

-- `run_active_learning_loop`, up to the state that its report is made of.
unfoldable pub learn :
    {F W : Type 0}
    → World F W
    → TestSuiteConfig F
    → Bool
    → List Example
    → W
    → Result (Bool × LoopState) × W
unfolding iterate expected_by_input
learn world config has_teacher initial w =
    let keys = expected_by_input config.standard_cases [] in
    iterate world config keys has_teacher (max_iter config) (initial_state (seeded_or initial keys))
      w

pub record ActiveLearningReport : Type 0 where
  pub task_name : String
  pub adapter_path : String
  pub iterations_run : ℕ
  pub recompiled : Bool
  pub repaired_edge_cases : ℕ
  pub is_success : Bool
  pub iteration_reports : List TestRunReport
  pub rejected_labels_count : ℕ
  pub rejected_labels : List RejectedLabel
  pub recompiles_performed : ℕ
  pub recompiles_skipped : ℕ
  pub recompiled_after_iteration : List Bool
  pub skipped_unfalsifiable_inputs : ℕ
  pub stuck_reason : Option Stuck

abbrev pub learning_report :
    {F : Type 0} → TestSuiteConfig F → Bool × LoopState → ActiveLearningReport
learning_report config (success, s) = record {
  task_name = config.task_name;
  adapter_path = config.adapter_path;
  iterations_run = length s.iteration_reports;
  recompiled = s.recompiled;
  repaired_edge_cases = s.total_repaired;
  is_success = success;
  iteration_reports = s.iteration_reports;
  rejected_labels_count = length s.rejected_labels;
  rejected_labels = s.rejected_labels;
  recompiles_performed = s.recompiles_performed;
  recompiles_skipped = s.recompiles_skipped;
  recompiled_after_iteration = s.recompiled_after_iteration;
  skipped_unfalsifiable_inputs = length s.skipped_inputs;
  stuck_reason = s.stuck_reason;
}
