-- ===== src/Jit/Shadow/Transitions/Windows.antt =====
-- The windows that `_maybe_transition` of paw_kit/jit/shadow.py scores: they do not overlap.
use paw_toolkit.Prelude.{
  ℕ, ◌+◌, ◌*◌, ◌/◌, ◌<◌, ◌≤◌, lt→ltb, ◌≡◌, refl, ◌∙◌, ap, Bool, true, false, Option, none, some,
  ◌==◌, ==_iff, max, if◌then◌else◌, arith, ◌⊎◌, inl, inr, Bool-cases, str_eq_refl,
}
use paw_toolkit.Jit.Outcome.{Result, ok, raised}
use paw_toolkit.Jit.Db.Schema.{Phase, phase_eq}
use paw_toolkit.Jit.Db.Pairs.{Stats, get_agreement_stats}
use paw_toolkit.Jit.Db.Pairs.Report.{is_stalled}
use paw_toolkit.Jit.Db.Connection.{Session}
use paw_toolkit.Jit.Shadow.{Floats, ShadowJob, Runner, window_of}
use paw_toolkit.Jit.Shadow.Transitions.{
  maybe_transition, scored_at, score_stats, score, decide, mark_scored,
}

phase_eq_refl : (p : Phase) → phase_eq p p ≡ true
phase_eq_refl p = ground arith

within : (n w k : ℕ) → 0 < w → n / w ≤ k → n < (k + 1) * w
within n w k on h = grind arith

module _ (fl : Floats) {A : Type 0} where
  open fl use {Float, quotient, leb as float_leb, ltb as float_ltb}

  -- Over a threshold, as the phase of the job has it.
  abbrev pub crosses : ShadowJob Float A → Float → Bool
  crosses job rate =
      if phase_eq job.phase Phase.shadow
      then float_leb job.shadow_threshold rate
      else float_ltb rate job.demote_threshold

  decide-crosses :
      (job : ShadowJob Float A) (rate : Float) (samples now : ℕ) (σ : Session Float)
      → (decide fl job rate samples now σ ≡ σ) ⊎ (crosses job rate ≡ true)
  unfolding decide
  decide-crosses job rate samples now σ = elim (Bool-cases (crosses job rate)) [
    | inl over ↦ inr over
    | inr under ↦ inl (ground arith)
  ]

  -- A comparison of a stalled task changes neither the runner nor the database.
  pub maybe_transition-stalled :
      (job : ShadowJob Float A) (seq now : ℕ) (runner : Runner Float A) (σ : Session Float)
      → is_stalled job.phase job.shadow_window seq ≡ true
      → maybe_transition fl job seq now runner σ ≡ (runner, σ)
  unfolding maybe_transition
  maybe_transition-stalled job seq now runner σ h = ground arith

  -- What the windows of a job say of it.
  abbrev pub Measured : ShadowJob Float A → Session Float → Float → Type 0
  Measured job σ rate =
      (st : Stats Float) × (get_agreement_stats quotient job.key.task_id job.state_epoch
          (window_of job) job.phase σ.store
        ≡ ok st)
      × (st.rate ≡ some rate)
      × (st.samples ≡ window_of job)

  abbrev pub Scored :
      ShadowJob Float A
      → ℕ
      → ℕ
      → Runner Float A
      → Session Float
      → Runner Float A × Session Float
      → Type 0
  Scored job seq now runner σ (after, τ) =
      (0 < window_of job)
      × ((scored_at runner job + 1) * window_of job ≤ seq)
      × (is_stalled job.phase job.shadow_window seq ≡ false)
      × (scored_at after job ≡ max (scored_at runner job + 1) (seq / window_of job))
      × ((rate : Float) × Measured job σ rate × (τ ≡ decide fl job rate (window_of job) now σ))

  scored_at-mark_scored :
      (job : ShadowJob Float A) (n : ℕ) (runner : Runner Float A)
      → scored_at (mark_scored job.key job.state_epoch job.phase n runner) job ≡ n
  scored_at-mark_scored job n runner =
      ground
        (arith, phase_eq_refl job.phase, str_eq_refl job.key.db_path, str_eq_refl job.key.task_id)

  -- The guards that a window passes before it is read.
  abbrev pub Due : ShadowJob Float A → ℕ → Runner Float A → Type 0
  Due job seq runner =
      (0 < window_of job)
      × ((scored_at runner job + 1) * window_of job ≤ seq)
      × (is_stalled job.phase job.shadow_window seq ≡ false)

  maybe_transition-Due :
      (job : ShadowJob Float A) (seq now : ℕ) (runner : Runner Float A) (σ : Session Float)
      → (maybe_transition fl job seq now runner σ ≡ (runner, σ))
        ⊎ (Due job seq runner
            × (maybe_transition fl job seq now runner σ
                ≡ score_stats fl job seq now
                    (get_agreement_stats quotient job.key.task_id job.state_epoch
                      (window_of job)
                      job.phase
                      σ.store)
                    runner
                    σ))
  unfolding maybe_transition
  maybe_transition-Due job seq now runner σ = ground arith

  score-Scored :
      (job : ShadowJob Float A) (seq now : ℕ) (st : Stats Float) (rate : Option Float)
      (runner : Runner Float A) (σ : Session Float)
      → Due job seq runner
      → get_agreement_stats quotient job.key.task_id job.state_epoch
          (window_of job)
          job.phase
          σ.store
        ≡ ok st
      → st.rate ≡ rate
      → (score fl job seq now st rate runner σ ≡ (runner, σ))
        ⊎ Scored job seq now runner σ (score fl job seq now st rate runner σ)
  score-Scored job seq now st none runner σ due q h = inl refl
  score-Scored job seq now st (some rate) runner σ (on, full, live) q h =
      elim (Bool-cases (st.samples == window_of job)) [
        | inl exact ↦
            let same : st.samples ≡ window_of job = ground arith in
            rw exact (
              inr (
                on,
                full,
                live,
                scored_at-mark_scored job _ runner,
                (rate, (st, q, h, same), rw same refl),
              ))
        | inr short ↦ rw short (inl refl)
      ]

  score_stats-Scored :
      (job : ShadowJob Float A) (seq now : ℕ) (r : Result (Stats Float)) (runner : Runner Float A)
      (σ : Session Float)
      → Due job seq runner
      → get_agreement_stats quotient job.key.task_id job.state_epoch
          (window_of job)
          job.phase
          σ.store
        ≡ r
      → (score_stats fl job seq now r runner σ ≡ (runner, σ))
        ⊎ Scored job seq now runner σ (score_stats fl job seq now r runner σ)
  score_stats-Scored job seq now (raised e) runner σ due q = inl refl
  score_stats-Scored job seq now (ok st) runner σ due q =
      score-Scored job seq now st st.rate runner σ due q refl

  -- A comparison either leaves everything as it was, or it scores a window: one that is full and not
  -- scored yet, of a job that is not stalled. The window's rate then decides, and the window counts as
  -- scored, with those that passed before it.
  pub maybe_transition_lem :
      (job : ShadowJob Float A) (seq now : ℕ) (runner : Runner Float A) (σ : Session Float)
      → (maybe_transition fl job seq now runner σ ≡ (runner, σ))
        ⊎ Scored job seq now runner σ (maybe_transition fl job seq now runner σ)
  maybe_transition_lem job seq now runner σ = elim (maybe_transition-Due job seq now runner σ) [
    | inl same ↦ inl same
    | inr (due, q) ↦ rw q (score_stats-Scored job seq now _ runner σ due refl)
  ]

  -- A call of `_maybe_transition` changes the database only for a job that is not stalled, on a full window whose
  -- rate crosses the threshold of the job's phase.
  pub maybe_transition-crosses :
      (job : ShadowJob Float A) (seq now : ℕ) (runner : Runner Float A) (σ : Session Float)
      → ((maybe_transition fl job seq now runner σ).1 ≡ σ)
        ⊎ ((is_stalled job.phase job.shadow_window seq ≡ false)
            × ((rate : Float) × Measured job σ rate × (crosses job rate ≡ true)))
  maybe_transition-crosses job seq now runner σ = elim (maybe_transition_lem job seq now runner σ) [
    | inl same ↦ inl (ap (λ p. p.1) same)
    | inr (_, _, live, _, (rate, measured, q)) ↦
        elim (decide-crosses job rate (window_of job) now σ) [
          | inl same ↦ inl (q ∙ same)
          | inr over ↦ inr (live, (rate, measured, over))
        ]
  ]

  maybe_transition-early :
      (job : ShadowJob Float A) (seq now : ℕ) (runner : Runner Float A) (σ : Session Float)
      → seq < (scored_at runner job + 1) * window_of job
      → maybe_transition fl job seq now runner σ ≡ (runner, σ)
  unfolding maybe_transition
  maybe_transition-early job seq now runner σ h =
      rw (lt→ltb seq ((scored_at runner job + 1) * window_of job) h) (ground arith)

  maybe_transition-score_stats :
      (job : ShadowJob Float A) (seq now : ℕ) (runner : Runner Float A) (σ : Session Float)
      → Due job seq runner
      → maybe_transition fl job seq now runner σ
        ≡ score_stats fl job seq now
            (get_agreement_stats quotient job.key.task_id job.state_epoch
              (window_of job)
              job.phase
              σ.store)
            runner
            σ
  unfolding maybe_transition
  maybe_transition-score_stats job seq now runner σ (on, full, live) = ground arith

  score-marks :
      (job : ShadowJob Float A) (seq now : ℕ) (st : Stats Float) (o : Option Float) (rate : Float)
      (runner : Runner Float A) (σ : Session Float)
      → o ≡ some rate
      → st.samples ≡ window_of job
      → scored_at (score fl job seq now st o runner σ).0 job
        ≡ max (scored_at runner job + 1) (seq / window_of job)
  score-marks job seq now st none rate runner σ h exact = absurd (grind arith)
  score-marks job seq now st (some r) rate runner σ h exact =
      rw ((==_iff st.samples (window_of job)).1 exact) (scored_at-mark_scored job _ runner)

  -- What a full window of a live job that was not scored yet leaves: it counts as scored.
  maybe_transition-marks :
      (job : ShadowJob Float A) (seq now : ℕ) (rate : Float) (runner : Runner Float A)
      (σ : Session Float)
      → Due job seq runner
      → Measured job σ rate
      → scored_at (maybe_transition fl job seq now runner σ).0 job
        ≡ max (scored_at runner job + 1) (seq / window_of job)
  maybe_transition-marks job seq now rate runner σ due (st, q, rated, exact) =
      rw (maybe_transition-score_stats job seq now runner σ due, q)
        (score-marks job seq now st st.rate rate runner σ rated exact)

  -- Windows do not overlap: after a comparison of a job that is not stalled, on a window that is full, not scored
  -- yet and has a rate, one whose number falls into the same window, or an earlier one, changes nothing.
  pub maybe_transition-tumbles :
      (job : ShadowJob Float A) (seq next now later : ℕ) (rate : Float) (runner : Runner Float A)
      (σ τ : Session Float)
      → Due job seq runner
      → Measured job σ rate
      → next / window_of job ≤ seq / window_of job
      → maybe_transition fl job next later (maybe_transition fl job seq now runner σ).0 τ
        ≡ ((maybe_transition fl job seq now runner σ).0, τ)
  maybe_transition-tumbles job seq next now later rate runner σ τ due measured h =
      maybe_transition-early job next later (maybe_transition fl job seq now runner σ).0 τ (
        within next (window_of job) (scored_at (maybe_transition fl job seq now runner σ).0 job)
          due.0 (omega (arith, maybe_transition-marks job seq now rate runner σ due measured)))
