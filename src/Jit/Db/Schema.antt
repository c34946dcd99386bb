-- ===== src/Jit/Db/Schema.antt =====
-- The tables that `_init_db` of paw_kit/jit/db.py creates, and the values of their columns.
-- `F` is the type of the REAL columns. A TIMESTAMP column holds microseconds: the program stores
-- UTC times in ISO format, whose texts are ordered as the times are.
use paw_toolkit.Prelude.{ℕ, String, ◌≡◌, ◌↔◌, Bool, true, false, Option, none, List, [], arith}
use paw_toolkit.Jit.Db.Table
use paw_toolkit.Jit.Db.Table.{Table}

-- tasks.status
pub data Status : Type 0 where
  tracing compiling shadow ready failed : Status

-- shadow_pairs.phase; a job that only counts a fail-open has a phase of its own.
pub data Phase : Type 0 where
  shadow audit fail_open : Phase

-- shadow_pairs.verdict
pub data Verdict : Type 0 where
  agree disagree error teacher_error pool_exhausted : Verdict

abbrev pub status_eq : Status → Status → Bool
status_eq Status.tracing Status.tracing = true
status_eq Status.compiling Status.compiling = true
status_eq Status.shadow Status.shadow = true
status_eq Status.ready Status.ready = true
status_eq Status.failed Status.failed = true
status_eq _ _ = false

abbrev pub phase_eq : Phase → Phase → Bool
phase_eq Phase.shadow Phase.shadow = true
phase_eq Phase.audit Phase.audit = true
phase_eq Phase.fail_open Phase.fail_open = true
phase_eq _ _ = false

pub status_eq_iff : (a b : Status) → (status_eq a b ≡ true) ↔ (a ≡ b)
status_eq_iff a b = ground arith

abbrev pub verdict_eq : Verdict → Verdict → Bool
verdict_eq agree agree = true
verdict_eq disagree disagree = true
verdict_eq error error = true
verdict_eq teacher_error teacher_error = true
verdict_eq pool_exhausted pool_exhausted = true
verdict_eq _ _ = false

-- `verdict NOT IN ('teacher_error', 'pool_exhausted')`
abbrev pub is_countable : Verdict → Bool
is_countable teacher_error = false
is_countable pool_exhausted = false
is_countable _ = true

-- A row of `tasks` but for its key.
pub record Task (F : Type 0) : Type 0 where
  pub call_count : ℕ
  pub adapter_path : Option String
  pub status : Status
  pub compile_attempts : ℕ
  pub created_at : ℕ
  pub updated_at : ℕ
  pub state_epoch : ℕ
  pub shadow_started_at : Option ℕ
  pub promoted_at : Option ℕ
  pub promoted_agreement : Option F
  pub demoted_at : Option ℕ
  pub demoted_agreement : Option F
  pub fail_open_count : ℕ
  pub shadow_config : Option String
  pub compiling_started_at : Option ℕ

-- A row of `traces`, of `shadow_pairs` and of `state_transitions`, each but for `id` and `task_id`.
pub record Trace (F : Type 0) : Type 0 where
  pub input_payload : String
  pub teacher_output : String
  pub latency_ms : F
  pub timestamp : ℕ

pub record ShadowPair (F : Type 0) : Type 0 where
  pub state_epoch : ℕ
  pub seq : ℕ
  pub phase : Phase
  pub input_payload : String
  pub teacher_output : Option String
  pub adapter_output : Option String
  pub verdict : Verdict
  pub error_type : Option String
  pub teacher_latency_ms : Option F
  pub adapter_latency_ms : Option F
  pub timestamp : ℕ

pub record Transition (F : Type 0) : Type 0 where
  pub from_status : Status
  pub to_status : Status
  pub agreement : Option F
  pub sample_count : Option ℕ
  pub state_epoch : ℕ
  pub reason : Option String
  pub timestamp : ℕ

-- The database file.
pub record Store (F : Type 0) : Type 0 where
  pub tasks : List (String × Task F)
  pub traces : Table (Trace F)
  pub shadow_pairs : Table (ShadowPair F)
  pub state_transitions : Table (Transition F)

module _ {F : Type 0} where
  abbrev pub empty : Store F
  empty = record {
    tasks = [];
    traces = Table.empty;
    shadow_pairs = Table.empty;
    state_transitions = Table.empty;
  }

  -- A row that an INSERT gives nothing but its two times: each other column has its default.
  abbrev pub new_task : ℕ → Task F
  new_task now = record {
    call_count = 0;
    adapter_path = none;
    status = Status.tracing;
    compile_attempts = 0;
    created_at = now;
    updated_at = now;
    state_epoch = 0;
    shadow_started_at = none;
    promoted_at = none;
    promoted_agreement = none;
    demoted_at = none;
    demoted_agreement = none;
    fail_open_count = 0;
    shadow_config = none;
    compiling_started_at = none;
  }
