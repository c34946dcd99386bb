-- ===== src/Harness/Active/Course.antt =====
-- The course of the loop: its training set stays clean, and its counts are those of its iterations.
use paw_toolkit.Prelude.{
  ℕ, zero, suc, ◌+◌, ◌≤◌, String, List, [], ◌∷◌, ◌++◌, Option, none, some, Bool, true, false, ◌||◌,
  not, ◌≡◌, refl, subst, if◌then◌else◌, arith, Bool-cases, inl, inr, is_some, length, length-append,
  count, count-append, ltb, ◌==◌, get_or,
}
use paw_toolkit.Jit.Outcome.{Result, ok, raised, value_error, IfOk}
use paw_toolkit.Harness.Suite.{TestSuiteConfig}
use paw_toolkit.Harness.Runner.Report.{TestRunReport, run, is_success, get_failing_inputs}
use paw_toolkit.Harness.Active.{World, Example}
use paw_toolkit.Harness.Active.Rounds.{
  Round, LoopState, Stuck, Failing, query_all, eligible_inputs, slice_to,
}
use paw_toolkit.Harness.Active.Learning.{
  opened, started, with_stuck, concluded, compile_now, compile_round, check_path, repair, iterate,
  exhausted, if_ok, needs_compile, set_last,
}
use paw_toolkit.Harness.Active.Training.{
  IsClean, query_all-IsClean, eligible_have_keys, slice_have_keys,
}

length-set_last : (bs : List Bool) → length (set_last bs) ≡ length bs
length-set_last [] = refl
length-set_last (b ∷ []) = refl
length-set_last (b ∷ c ∷ bs) = ground (arith, length-set_last (c ∷ bs))

abbrev pub is_set : Bool → Bool
is_set b = b

-- The flag of an iteration that compiled.
count-set_last :
    (bs : List Bool) → count is_set (set_last (bs ++ (false ∷ []))) ≡ suc (count is_set bs)
count-set_last [] = refl
count-set_last (true ∷ []) = refl
count-set_last (false ∷ []) = refl
count-set_last (b ∷ c ∷ bs) = ground (arith, count-set_last (c ∷ bs))

no_flag : (bs : List Bool) → count is_set (bs ++ (false ∷ [])) ≡ count is_set bs
no_flag bs = ground (arith, count-append is_set bs (false ∷ []))

-- After some rounds, each ran the suite once and either compiled or did not.
pub record IsCounted (k : ℕ) (s : LoopState) : Type 0 where
  pub ran : length s.iteration_reports ≡ k
  pub rounds : s.recompiles_performed + s.recompiles_skipped ≡ k
  pub flags : length s.recompiled_after_iteration ≡ k
  pub set : count is_set s.recompiled_after_iteration ≡ s.recompiles_performed
  pub any : s.recompiled ≡ ltb 0 s.recompiles_performed

module _ {F W : Type 0} (world : World F W) (config : TestSuiteConfig F)
    (keys : List (String × String)) (start : List Example) where
  abbrev IsGood : ℕ → LoopState → Type 0
  IsGood k s = IsClean world config keys start s.dataset × IsCounted k s

  -- How the loop ends: with a clean training set and one report more than rounds, in success, or with what it
  -- is stuck on.
  pub record IsEnded (most : ℕ) (e : Bool × LoopState) : Type 0 where
    pub clean : IsClean world config keys start e.1.dataset
    pub runs :
        length e.1.iteration_reports ≡ suc (e.1.recompiles_performed + e.1.recompiles_skipped)
    pub flags : length e.1.recompiled_after_iteration ≡ length e.1.iteration_reports
    pub set : count is_set e.1.recompiled_after_iteration ≡ e.1.recompiles_performed
    pub any : e.1.recompiled ≡ ltb 0 e.1.recompiles_performed
    pub bounded : length e.1.iteration_reports ≤ most
    pub stuck : is_some e.1.stuck_reason ≡ not e.0

  if_ok-IfOk :
      {A C : Type 0} (P : A → Type 0) (Q : C → Type 0) (r : Result A) (w : W) (f : A → Result C × W)
      → IfOk P r
      → ((a : A) → P a → IfOk Q (f a).0)
      → IfOk Q (if_ok world config keys r w f).0
  if_ok-IfOk P Q (ok a) w f p q = q a p
  if_ok-IfOk P Q (raised e) w f p q = tt

  if_ok-any :
      {A C : Type 0} (Q : C → Type 0) (r : Result A) (w : W) (f : A → Result C × W)
      → ((a : A) → IfOk Q (f a).0)
      → IfOk Q (if_ok world config keys r w f).0
  if_ok-any Q (ok a) w f q = q a
  if_ok-any Q (raised e) w f q = tt

  concluded-IsGood :
      (k : ℕ) (s : LoopState) (report : TestRunReport) (failing : List Failing) (queried : ℕ)
      (round : Round) (compiled : Bool)
      → IsCounted k s
      → IsClean world config keys start round.dataset
      → IsGood
          (suc k)
          (concluded world config keys (started s report) failing queried round compiled)
  concluded-IsGood k s report failing queried round true c clean = (
    clean,
    record {
      ran = omega (arith, c.ran, length-append s.iteration_reports (report ∷ []));
      rounds = omega (arith, c.rounds);
      flags = omega (
        arith,
        c.flags,
        length-append s.recompiled_after_iteration (false ∷ []),
        length-set_last (s.recompiled_after_iteration ++ (false ∷ [])),
      );
      set = omega (arith, c.set, count-set_last s.recompiled_after_iteration);
      any = ground arith;
    },
  )
  concluded-IsGood k s report failing queried round false c clean = (
    clean,
    record {
      ran = omega (arith, c.ran, length-append s.iteration_reports (report ∷ []));
      rounds = omega (arith, c.rounds);
      flags = omega (arith, c.flags, length-append s.recompiled_after_iteration (false ∷ []));
      set = omega (arith, c.set, no_flag s.recompiled_after_iteration);
      any = c.any;
    },
  )

  compile_now-IsGood :
      (k : ℕ) (s : LoopState) (report : TestRunReport) (failing : List Failing) (queried : ℕ)
      (round : Round) (w : W)
      → IsCounted k s
      → IsClean world config keys start round.dataset
      → IfOk
          (IsGood (suc k))
          (compile_now world config keys (started s report) failing queried round w).0
  unfolding compile_now
  compile_now-IsGood k s report failing queried round w c clean =
      let done = world.compile w config.spec round.dataset config.adapter_path in
      if_ok-any (IsGood (suc k)) (check_path world config keys) w _ λ checked.
        if_ok-any (IsGood (suc k)) done.0 done.1 _
          λ compiled. concluded-IsGood k s report failing queried round true c clean

  compile_round-IsGood :
      (k : ℕ) (s : LoopState) (report : TestRunReport) (failing : List Failing) (queried : ℕ)
      (round : Round) (w : W)
      → IsCounted k s
      → IsClean world config keys start round.dataset
      → IfOk
          (IsGood (suc k))
          (compile_round world config keys (started s report) failing queried round w).0
  unfolding compile_round
  compile_round-IsGood k s report failing queried round w c clean =
      elim (Bool-cases (needs_compile world config keys (started s report) round)) [
        | inl needed ↦ rw needed (compile_now-IsGood k s report failing queried round w c clean)
        | inr idle ↦ rw idle (concluded-IsGood k s report failing queried round false c clean)
      ]

  repair-IsGood :
      (k : ℕ) (s : LoopState) (report : TestRunReport) (w : W)
      → IsGood k s
      → IfOk (IsGood (suc k)) (repair world config keys (started s report) report w).0
  unfolding repair
  repair-IsGood k s report w (clean, c) =
      let failing = get_failing_inputs report in
      let eligible = eligible_inputs keys failing in
      let queried = slice_to config.active_learning.max_queries_per_iteration eligible in
      let asked = query_all world config keys queried (opened (started s report)) w in
      if_ok-IfOk (λ r. IsClean world config keys start r.dataset) (IsGood (suc k)) asked.0 asked.1 _
        (query_all-IsClean world config keys start queried (opened (started s report)) w
          (slice_have_keys world config keys start config.active_learning.max_queries_per_iteration
            eligible (eligible_have_keys world config keys start failing))
          clean)
        λ round clean'.
          compile_round-IsGood k s report failing (length queried) round asked.1 c clean'

  ended :
      (k n : ℕ) (s : LoopState) (report : TestRunReport) (success : Bool) (stuck : Option Stuck)
      → is_some stuck ≡ not success
      → IsGood k s
      → IsEnded (suc n + k) (success, with_stuck (started s report) stuck)
  ended k n s report success stuck h (clean, c) = record {
    clean = clean;
    runs = omega (arith, c.ran, c.rounds, length-append s.iteration_reports (report ∷ []));
    flags = omega (
      arith,
      c.ran,
      c.flags,
      length-append s.iteration_reports (report ∷ []),
      length-append s.recompiled_after_iteration (false ∷ []),
    );
    set = omega (arith, c.set, no_flag s.recompiled_after_iteration);
    any = c.any;
    bounded = omega (arith, c.ran, length-append s.iteration_reports (report ∷ []));
    stuck = h;
  }

  -- What follows a report, by the loop's three tests.
  after_report :
      (has_teacher success last : Bool) (k n : ℕ) (s : LoopState) (report : TestRunReport) (w : W)
      (next : Result (Bool × LoopState) × W)
      → IsGood k s
      → IfOk (IsEnded (suc n + k)) next.0
      → IfOk
          (IsEnded (suc n + k))
          (if success
            then (Result.ok (true, with_stuck (started s report) none), w)
            else if last
            then (Result.ok (exhausted world config keys (started s report)), w)
            else if not has_teacher
            then (Result.raised value_error, w)
            else next).0
  after_report has_teacher true last k n s report w next good h =
      ended k n s report true none refl good
  after_report has_teacher false true k n s report w next good h =
      ended k n s report false (some (get_or s.stuck_reason Stuck.iterations_exhausted)) refl good
  after_report false false false k n s report w next good h = tt
  after_report true false false k n s report w next good h = h

  pub iterate-IsEnded :
      (has_teacher : Bool) (n k : ℕ) (s : LoopState) (w : W)
      → IsGood k s
      → IfOk (IsEnded (n + k)) (iterate world config keys has_teacher n s w).0
  unfolding iterate
  iterate-IsEnded has_teacher zero k s w good = tt
  iterate-IsEnded has_teacher (suc n) k s w good =
      let ran = run world.checks world.backend config w in
      if_ok-any (IsEnded (suc n + k)) ran.0 ran.1 _ λ report.
        let repaired = repair world config keys (started s report) report ran.1 in
        after_report has_teacher (is_success report)
          (not config.active_learning.auto_recompile || n == 0) k n s report ran.1 _ good
          (if_ok-IfOk (IsGood (suc k)) (IsEnded (suc n + k)) repaired.0 repaired.1 _
            (repair-IsGood k s report ran.1 good)
            λ next good'.
              subst
                (λ m. IfOk (IsEnded m) (iterate world config keys has_teacher n next repaired.1).0)
                (omega arith) (iterate-IsEnded has_teacher n (suc k) next repaired.1 good'))
