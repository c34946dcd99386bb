-- ===== src/Jit/Shadow/Transitions.antt =====
-- `ShadowRunner._maybe_transition` of paw_kit/jit/shadow.py: a promotion or a demotion, once for each
-- completed window. A read of the database is taken not to fail here.
pub mod Windows
use paw_toolkit.Prelude.{
  ℕ, ◌+◌, ◌*◌, ◌/◌, String, Bool, true, false, not, ◌&&◌, ◌||◌, Option, none, some, get_or, ltb,
  ◌==◌, max, if◌then◌else◌,
}
use paw_toolkit.Jit.Outcome.{Result, ok, raised}
use paw_toolkit.Jit.Db.Schema.{Phase, phase_eq}
use paw_toolkit.Jit.Db.Pairs.{Stats, get_agreement_stats}
use paw_toolkit.Jit.Db.Pairs.Report.{shadow_stall_factor}
use paw_toolkit.Jit.Db.Connection.{Session}
use paw_toolkit.Jit.Db.Session.{try_promote, try_demote}
use paw_toolkit.Jit.Shadow.{Key, key_eq, Floats, ShadowJob, Runner, window_of}

module _ {F A : Type 0} where
  -- `self._windows_scored[(key, epoch, phase)] = n`
  abbrev pub mark_scored : Key → ℕ → Phase → ℕ → Runner F A → Runner F A
  mark_scored key epoch phase n runner = record runner {
    windows_scored = λ k e p.
        if key_eq key k && (epoch == e && phase_eq phase p)
        then some n
        else runner.windows_scored k e p;
  }

  abbrev pub scored_at : Runner F A → ShadowJob F A → ℕ
  scored_at runner job = get_or (runner.windows_scored job.key job.state_epoch job.phase) 0

module _ (fl : Floats) {A : Type 0} where
  open fl use {Float, quotient, leb as float_leb, ltb as float_ltb}

  -- The decision on a full window. What `try_promote` and `try_demote` raise is swallowed.
  unfoldable pub decide : ShadowJob Float A → Float → ℕ → ℕ → Session Float → Session Float
  decide job rate samples now σ =
      if phase_eq job.phase Phase.shadow
      then if float_leb job.shadow_threshold rate
        then (try_promote job.key.task_id job.state_epoch (some rate) (some samples) none now σ).1
        else σ
      else if float_ltb rate job.demote_threshold
      then (try_demote job.key.task_id job.state_epoch (some rate) (some samples) none now σ).1
      else σ

  -- A window that is not full is left for the next comparison.
  abbrev pub score :
      ShadowJob Float A
      → ℕ
      → ℕ
      → Stats Float
      → Option Float
      → Runner Float A
      → Session Float
      → Runner Float A × Session Float
  score job seq now st none runner σ = (runner, σ)
  score job seq now st (some rate) runner σ =
      if st.samples == window_of job
      then (
        mark_scored job.key job.state_epoch job.phase
            (max (scored_at runner job + 1) (seq / window_of job)) runner,
        decide job rate st.samples now σ,
      )
      else (runner, σ)

  abbrev pub score_stats :
      ShadowJob Float A
      → ℕ
      → ℕ
      → Result (Stats Float)
      → Runner Float A
      → Session Float
      → Runner Float A × Session Float
  score_stats job seq now (raised e) runner σ = (runner, σ)
  score_stats job seq now (ok st) runner σ = score job seq now st st.rate runner σ

  unfoldable pub maybe_transition :
      ShadowJob Float A → ℕ → ℕ → Runner Float A → Session Float → Runner Float A × Session Float
  unfolding decide
  maybe_transition job seq now runner σ =
      let window = window_of job in
      let stats =
        get_agreement_stats quotient job.key.task_id job.state_epoch window job.phase σ.store in
      if window == 0 || seq == 0
      then (runner, σ)
      else if ltb seq ((scored_at runner job + 1) * window)
      then (runner, σ)
      else if phase_eq job.phase Phase.shadow && ltb (shadow_stall_factor * window) seq
      then (runner, σ)
      else score_stats job seq now stats runner σ
