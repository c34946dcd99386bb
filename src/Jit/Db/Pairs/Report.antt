-- ===== src/Jit/Db/Pairs/Report.antt =====
-- `get_shadow_config` and `get_task_report` of paw_kit/jit/db.py. `json.loads` of a stored
-- configuration is a parameter: of the object it reads, the report takes two windows, where a missing
-- one is 0.
use paw_toolkit.Prelude.{ℕ, ◌*◌, String, Bool, false, ◌&&◌, Option, none, some, get_or, ltb, lookup}
use paw_toolkit.Jit.Outcome.{Result, ok, raised}
use paw_toolkit.Jit.Db.Schema.{Status, Phase, Task, Store, phase_eq}
use paw_toolkit.Jit.Db.Pairs.{Stats, get_agreement_stats}

-- `_SHADOW_STALL_FACTOR`
abbrev pub shadow_stall_factor : ℕ
shadow_stall_factor = 5

pub record Windows : Type 0 where
  pub shadow_window : ℕ
  pub audit_window : ℕ

pub record Agreement (F : Type 0) : Type 0 where
  pub phase : Option Phase
  pub rate : Option F
  pub window : ℕ
  pub samples : ℕ
  pub agreed : ℕ
  pub disagreed : ℕ
  pub errors : ℕ
  pub teacher_errors : ℕ
  pub stalled : Bool

pub record Report (F : Type 0) : Type 0 where
  -- The row, or the defaults of a task with none.
  pub base : Option (Task F)
  pub status : Status
  pub state_epoch : ℕ
  pub agreement : Agreement F

-- The phase whose window a status reports on, and its length.
abbrev pub phase_of : Status → Option Phase
phase_of Status.shadow = some Phase.shadow
phase_of Status.ready = some Phase.audit
phase_of _ = none

abbrev pub window_of : Windows → Status → ℕ
window_of w Status.shadow = w.shadow_window
window_of w Status.ready = w.audit_window
window_of w _ = 0

abbrev pub is_stalled : Phase → ℕ → ℕ → Bool
is_stalled phase window seq =
    (phase_eq phase Phase.shadow && ltb 0 window) && ltb (shadow_stall_factor * window) seq

module _ {F : Type 0} where
  abbrev no_agreement : Agreement F
  no_agreement = record {
    phase = none;
    rate = none;
    window = 0;
    samples = 0;
    agreed = 0;
    disagreed = 0;
    errors = 0;
    teacher_errors = 0;
    stalled = false;
  }

  abbrev agreement_block : Phase → ℕ → Stats F → Agreement F
  agreement_block phase window st = record {
    phase = some phase;
    rate = st.rate;
    window = window;
    samples = st.samples;
    agreed = st.agreed;
    disagreed = st.disagreed;
    errors = st.errors;
    teacher_errors = st.teacher_errors;
    stalled = is_stalled phase window st.seq;
  }

  abbrev report_in :
      (ℕ → ℕ → F)
      → String
      → Store F
      → Option (Task F)
      → Status
      → ℕ
      → ℕ
      → Option Phase
      → Result (Report F)
  report_in quotient task s row status epoch window none =
      ok (record { base = row; status = status; state_epoch = epoch; agreement = no_agreement })
  report_in quotient task s row status epoch window (some phase) =
      elim (get_agreement_stats quotient task epoch window phase s) [
        | raised e ↦ raised e
        | ok st ↦ ok (record {
          base = row;
          status = status;
          state_epoch = epoch;
          agreement = agreement_block phase window st;
        })
      ]

  abbrev stored_config : Option (Task F) → Option String
  stored_config none = none
  stored_config (some r) = r.shadow_config

  abbrev status_in : Option (Task F) → Status
  status_in none = Status.tracing
  status_in (some r) = r.status

  abbrev epoch_in : Option (Task F) → ℕ
  epoch_in none = 0
  epoch_in (some r) = r.state_epoch

  -- A row with no configuration, or one that does not parse, reads as `{}`.
  unfoldable pub get_shadow_config : (String → Option Windows) → String → Store F → Option Windows
  get_shadow_config decode task s = elim (stored_config (lookup task s.tasks)) [
    | none ↦ none
    | some encoded ↦ decode encoded
  ]

  unfoldable pub get_task_report :
      (ℕ → ℕ → F) → (String → Option Windows) → String → Store F → Result (Report F)
  unfolding get_shadow_config
  get_task_report quotient decode task s =
      let row = lookup task s.tasks in
      let config : Windows =
        get_or (get_shadow_config decode task s) (record { shadow_window = 0; audit_window = 0 }) in
      let status = status_in row in
      report_in quotient task s row status (epoch_in row) (window_of config status)
        (phase_of status)
