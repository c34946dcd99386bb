-- ===== src/Jit/Shadow.antt =====
-- paw_kit/jit/shadow.py: the jobs of `ShadowRunner` and its state, but for the sets that only choose a
-- log level. The dictionaries are functions of their keys. `F` is the type of the floats, `A` that of
-- the answers that the teacher and the adapter give.
pub mod Queue
pub mod Judge
pub mod Transitions
pub mod Jobs
use paw_toolkit.Prelude.{ℕ, String, Bool, ◌&&◌, Option, none, List, str_eq, if◌then◌else◌}
use paw_toolkit.Jit.Outcome.{Result}
use paw_toolkit.Jit.Db.Schema.{Phase, phase_eq}

-- `_RunnerKey`: the path of the database and the task.
pub record Key : Type 0 where
  pub db_path : String
  pub task_id : String

abbrev pub key_eq : Key → Key → Bool
key_eq a b = str_eq a.db_path b.db_path && str_eq a.task_id b.task_id

-- Floats, as far as the runner computes with them.
pub record Floats : Type 1 where
  pub Float : Type 0
  -- True division of two integers.
  pub quotient : ℕ → ℕ → Float
  -- `<=` and `<`
  pub leb : Float → Float → Bool
  pub ltb : Float → Float → Bool

-- What `isinstance` tells of an answer.
pub data Shape : Type 0 where
  model dict plain : Shape
  text : String → Shape

-- The answers, as far as the runner looks at them: their shape, and `stringify_answer`.
pub record Answers (A : Type 0) : Type 0 where
  pub shape : A → Shape
  pub stringify_answer : A → Result String

-- A Pydantic model, as far as the runner calls it.
pub record Model (A : Type 0) : Type 0 where
  pub model_validate : A → Result A
  pub model_validate_json : String → Result A

pub data Kind : Type 0 where
  compare fail_open : Kind

pub record ShadowJob (F A : Type 0) : Type 0 where
  pub key : Key
  pub kind : Kind
  pub state_epoch : ℕ
  pub phase : Phase
  pub input_payload : String
  pub teacher_output : Option String
  pub teacher_latency_ms : Option F
  pub adapter_output : Option String
  pub adapter_latency_ms : Option F
  -- Python's `None`, where a side is not known yet, is one of the answers.
  pub raw_teacher : A
  pub raw_adapter : A
  pub response_model : Option (Model A)
  pub agreement_fn : A → A → Result Bool
  pub redact_fn : Option (String → String)
  pub shadow_window : ℕ
  pub audit_window : ℕ
  pub shadow_threshold : F
  pub demote_threshold : F
  pub max_pairs : ℕ
  pub queue_size : ℕ

-- A bounded queue, the next job first.
pub record JobQueue (F A : Type 0) : Type 0 where
  pub maxsize : ℕ
  pub jobs : List (ShadowJob F A)

pub record Runner (F A : Type 0) : Type 0 where
  pub queues : Key → Option (JobQueue F A)
  pub pending : Key → ℕ
  pub dropped : Key → Phase → ℕ
  pub stalled : Key → ℕ
  pub seq_cache : Key → ℕ → Option ℕ
  pub windows_scored : Key → ℕ → Phase → Option ℕ

-- `d[k] = v`
abbrev pub set_at {ℓ} : {B : Type ℓ} → (Key → B) → Key → B → Key → B
set_at d k v j = if key_eq k j then v else d j

module _ {F A : Type 0} where
  abbrev pub idle : Runner F A
  idle = record {
    queues = λ _. none;
    pending = λ _. 0;
    dropped = λ _ _. 0;
    stalled = λ _. 0;
    seq_cache = λ _ _. none;
    windows_scored = λ _ _ _. none;
  }

  -- `ShadowJob.window`
  abbrev pub window_of : ShadowJob F A → ℕ
  window_of job = if phase_eq job.phase Phase.shadow then job.shadow_window else job.audit_window
