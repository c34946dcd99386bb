-- ===== src/Jit/Shadow/Jobs.antt =====
-- `ShadowRunner._run_job` of paw_kit/jit/shadow.py. `keep` is the draw of the stall guard, `call` and
-- `elapsed` what the worker's own call of the adapter or of the teacher came to and how long it took.
-- A read of the database is taken not to fail here.
use paw_toolkit.Prelude.{
  ℕ, ◌+◌, ◌*◌, String, Bool, true, false, ◌&&◌, Option, none, some, ltb, ◌==◌, if◌then◌else◌,
}
use paw_toolkit.Jit.Outcome.{Result, ok, raised, ◌>>=◌}
use paw_toolkit.Jit.Db.Schema.{Phase, phase_eq}
use paw_toolkit.Jit.Db.Pairs.{get_epoch_seq}
use paw_toolkit.Jit.Db.Pairs.Report.{shadow_stall_factor}
use paw_toolkit.Jit.Db.Connection.{Session}
use paw_toolkit.Jit.Db.Session.{record_shadow_pair, increment_fail_open}
use paw_toolkit.Jit.Shadow.{
  Key, key_eq, set_at, Floats, Answers, compare, fail_open, ShadowJob, Runner,
}
use paw_toolkit.Jit.Shadow.Judge.{judge}
use paw_toolkit.Jit.Shadow.Transitions.{maybe_transition}

-- `redact(text) if (redact and text) else text`: an empty text is left as it is.
abbrev pub redacted : Option (String → String) → Option String → Option String
redacted none text = text
redacted (some f) none = none
redacted (some f) (some String.[]) = some String.[]
redacted (some f) (some text) = some (f text)

abbrev redacted_input : Option (String → String) → String → String
redacted_input none text = text
redacted_input (some f) text = f text

abbrev text_or_none : Result String → Option String
text_or_none (ok text) = some text
text_or_none (raised e) = none

-- The text and the time of the side that the worker called: no text, if the call or its serialisation raised.
abbrev stored_text : {A : Type 0} → Answers A → Result A → Option String
stored_text answers call = text_or_none (call >>= answers.stringify_answer)

-- The worker's call as the verdict sees it: serialised in the same `try`.
abbrev pub serialised : {A : Type 0} → Answers A → Result A → Result A
serialised answers call = call >>= λ value. answers.stringify_answer value >>= λ text. ok value

abbrev stored_time : {F A : Type 0} → Result A → F → Option F → Option F
stored_time (ok value) elapsed old = some elapsed
stored_time (raised e) elapsed old = old

module _ {F A : Type 0} where
  -- What older epochs of a key left behind.
  unfoldable pub prune_stale_epoch_state : Key → ℕ → Runner F A → Runner F A
  prune_stale_epoch_state key epoch runner = record runner {
    seq_cache = λ k e. if key_eq k key && ltb e epoch then none else runner.seq_cache k e;
    windows_scored =
        λ k e p. if key_eq k key && ltb e epoch then none else runner.windows_scored k e p;
  }

  abbrev cache_seq : Key → ℕ → ℕ → Runner F A → Runner F A
  cache_seq key epoch seq runner = record runner {
    seq_cache = λ k e. if key_eq key k && epoch == e then some seq else runner.seq_cache k e;
  }

  abbrev pub or_read : Option ℕ → ShadowJob F A → Session F → ℕ
  or_read (some seq) job σ = seq
  or_read none job σ = get_epoch_seq job.key.task_id job.state_epoch σ.store

  unfoldable pub current_seq : ShadowJob F A → Session F → Runner F A → ℕ × Runner F A
  current_seq job σ runner =
      let seq = or_read (runner.seq_cache job.key job.state_epoch) job σ in
      (seq, cache_seq job.key job.state_epoch seq runner)

  -- Whether the stall guard skips the comparison.
  unfoldable pub stall_throttled : Bool → ShadowJob F A → Session F → Runner F A → Bool × Runner F A
  unfolding current_seq
  stall_throttled keep job σ runner =
      let (seq, cached) = current_seq job σ runner in
      if phase_eq job.phase Phase.shadow && ltb 0 job.shadow_window
      then if ltb seq (shadow_stall_factor * job.shadow_window)
        then (false, cached)
        else if keep
        then (false, cached)
        else (
          true,
          record cached { stalled = set_at cached.stalled job.key (cached.stalled job.key + 1) },
        )
      else (false, runner)

module _ (fl : Floats) {A : Type 0} (answers : Answers A) where
  open fl use {Float}

  abbrev persist :
      ShadowJob Float A → Result A → Float → ℕ → Session Float → Result ℕ × Session Float
  persist job call elapsed now σ =
      let shadowing = phase_eq job.phase Phase.shadow in
      let (verdict, error_type) = judge answers job (serialised answers call) in
      record_shadow_pair job.key.task_id job.state_epoch job.phase
        (redacted_input job.redact_fn job.input_payload)
        (redacted job.redact_fn
          (if shadowing then job.teacher_output else stored_text answers call))
        (redacted job.redact_fn
          (if shadowing then stored_text answers call else job.adapter_output))
        verdict error_type
        (if shadowing
          then job.teacher_latency_ms
          else stored_time call elapsed job.teacher_latency_ms)
        (if shadowing
          then stored_time call elapsed job.adapter_latency_ms
          else job.adapter_latency_ms)
        job.max_pairs now σ

  abbrev after_persist :
      ShadowJob Float A
      → ℕ
      → Result ℕ × Session Float
      → Runner Float A
      → Runner Float A × Session Float
  after_persist job later (raised e, σ) runner = (runner, σ)
  after_persist job later (ok seq, σ) runner =
      maybe_transition fl job seq later
        (if seq == 0 then runner else cache_seq job.key job.state_epoch seq runner) σ

  abbrev run_comparison :
      Bool
      → ShadowJob Float A
      → Result A
      → Float
      → ℕ
      → ℕ
      → Runner Float A
      → Session Float
      → Runner Float A × Session Float
  run_comparison keep job call elapsed now later runner σ =
      let pruned = prune_stale_epoch_state job.key job.state_epoch runner in
      let (skipped, guarded) = stall_throttled keep job σ pruned in
      if skipped
      then (guarded, σ)
      else after_persist job later (persist job call elapsed now σ) guarded

  -- The times are those of the two writes.
  unfoldable pub run_job :
      Bool
      → ShadowJob Float A
      → Result A
      → Float
      → ℕ
      → ℕ
      → Runner Float A
      → Session Float
      → Runner Float A × Session Float
  unfolding prune_stale_epoch_state stall_throttled
  run_job keep job call elapsed now later runner σ = elim job.kind [
    | fail_open ↦ (runner, (increment_fail_open job.key.task_id now σ).1)
    | compare ↦ run_comparison keep job call elapsed now later runner σ
  ]
