-- ===== src/Jit/Shadow/Judge.antt =====
-- `_coerce` of paw_kit/jit/shadow.py, `safe_agreement` of paw_kit/jit/agreement.py, and the verdict
-- that `_run_job` comes to.
pub mod Blame
use paw_toolkit.Prelude.{String, Bool, true, false, Option, none, some, if◌then◌else◌}
use paw_toolkit.Jit.Outcome.{
  Error, Result, ok, raised, ◌>>=◌, pool_exhausted, operational_error, type_name,
}
use paw_toolkit.Jit.Db.Schema.{Phase, Verdict, phase_eq}
use paw_toolkit.Jit.Shadow.{Answers, Shape, Model, ShadowJob, model, dict, text, plain}

module _ {A : Type 0} (answers : Answers A) where
  unfoldable pub coerce : Option (Model A) → A → Result A
  coerce none value = ok value
  coerce (some m) value = elim (answers.shape value) [
    | model ↦ ok value
    | dict ↦ m.model_validate value
    | text s ↦ m.model_validate_json s
    | plain ↦ answers.stringify_answer value >>= λ s. m.model_validate_json s
  ]

module _ {A : Type 0} where
  unfoldable pub safe_agreement : (A → A → Result Bool) → A → A → Bool × Option String
  safe_agreement fn teacher adapter = elim (fn teacher adapter) [
    | ok agreed ↦ (agreed, none)
    | raised e ↦ (false, some (type_name e))
  ]

-- A verdict with the `error_type` of its row.
abbrev pub Judgement : Type 0
Judgement = Verdict × Option String

abbrev pub of_agreement : Bool × Option String → Judgement
of_agreement (agreed, some name) = (Verdict.error, some name)
of_agreement (agreed, none) = (if agreed then Verdict.agree else Verdict.disagree, none)

module _ {A : Type 0} where
  abbrev against : (A → A → Result Bool) → A → Result A → Judgement
  against fn teacher (raised e) = (Verdict.error, some (type_name e))
  against fn teacher (ok adapter) = of_agreement (safe_agreement fn teacher adapter)

  -- Both sides coerced: a teacher's failure is not the adapter's.
  abbrev both : (A → A → Result Bool) → Result A → Result A → Judgement
  both fn (raised e) adapter = (Verdict.teacher_error, some (type_name e))
  both fn (ok teacher) adapter = against fn teacher adapter

-- The verdict on a call of the adapter that raised.
abbrev pub on_adapter_error : Error → Judgement
on_adapter_error pool_exhausted = (Verdict.pool_exhausted, some (type_name pool_exhausted))
on_adapter_error e = (Verdict.error, some (type_name e))

module _ {F A : Type 0} (answers : Answers A) where
  unfoldable pub compare_sides : ShadowJob F A → A → A → Judgement
  unfolding coerce safe_agreement
  compare_sides job teacher adapter =
      both job.agreement_fn (coerce answers job.response_model teacher)
        (coerce answers job.response_model adapter)

  abbrev judge_call : Bool → ShadowJob F A → Result A → Judgement
  judge_call true job (ok adapter) = compare_sides job job.raw_teacher adapter
  judge_call true job (raised e) = on_adapter_error e
  judge_call false job (ok teacher) = compare_sides job teacher job.raw_adapter
  judge_call false job (raised e) = (Verdict.teacher_error, some (type_name e))

  -- `call` is what the worker's own call came to: of the adapter, in the shadow phase, else of the
  -- teacher.
  unfoldable pub judge : ShadowJob F A → Result A → Judgement
  unfolding compare_sides
  judge job call = judge_call (phase_eq job.phase Phase.shadow) job call
