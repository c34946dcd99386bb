-- ===== src/Jit/Db/Tasks.antt =====
-- The reads of paw_kit/jit/db.py on `tasks`, and its two transactions that any caller may run:
-- `record_trace` and `set_status`. A `_txn` is the body of a method's `_do`, as a function of the
-- database file: SQLite runs each as one step.
pub mod Compiles
pub mod Promotion
use paw_toolkit.Prelude.{
  ℕ, ◌+◌, String, Bool, false, not, Option, none, some, get_or, lookup, upsert, if◌then◌else◌,
}
use paw_toolkit.Jit.Db.Table
use paw_toolkit.Jit.Db.Schema.{Status, Task, Store, status_eq, new_task}

-- `previous is not None and previous != status`
abbrev pub is_change : Option Status → Status → Bool
is_change none status = false
is_change (some before) status = not (status_eq before status)

-- A given path replaces the stored one.
abbrev pub replaced_path : Option String → Option String → Option String
replaced_path none old = old
replaced_path (some path) old = some path

module _ {F : Type 0} where
  unfoldable pub get_call_count : Store F → String → ℕ
  get_call_count s task = elim (lookup task s.tasks) [ none ↦ 0 | some r ↦ r.call_count ]

  unfoldable pub get_status : Store F → String → Status
  get_status s task = elim (lookup task s.tasks) [ none ↦ Status.tracing | some r ↦ r.status ]

  -- `_get_status_and_epoch_locked`, a field at a time.
  unfoldable pub previous_status : Store F → String → Option Status
  previous_status s task = elim (lookup task s.tasks) [ none ↦ none | some r ↦ some r.status ]

  unfoldable pub epoch_of : Store F → String → ℕ
  epoch_of s task = elim (lookup task s.tasks) [ none ↦ 0 | some r ↦ r.state_epoch ]

  unfoldable pub get_task_routing : Store F → String → Status × Option String × ℕ
  get_task_routing s task = elim (lookup task s.tasks) [
    | none ↦ (Status.tracing, none, 0)
    | some r ↦ (r.status, r.adapter_path, r.state_epoch)
  ]

  unfoldable pub get_adapter_path : Store F → String → Option String
  get_adapter_path s task = elim (lookup task s.tasks) [
    | none ↦ none
    | some r ↦ if status_eq r.status Status.ready then r.adapter_path else none
  ]

  unfoldable pub get_compile_attempts : Store F → String → ℕ
  get_compile_attempts s task = elim (lookup task s.tasks) [
    | none ↦ 0
    | some r ↦ r.compile_attempts
  ]

  unfoldable pub record_transition :
      String → Status → Status → Option F → Option ℕ → ℕ → ℕ → Option String → Store F → Store F
  record_transition task before after agreement samples epoch now reason s = record s {
    state_transitions =
        Table.insert task
          (record {
            from_status = before;
            to_status = after;
            agreement = agreement;
            sample_count = samples;
            state_epoch = epoch;
            reason = reason;
            timestamp = now;
          })
          s.state_transitions;
  }

  unfoldable pub record_trace_txn : String → String → String → F → ℕ → Store F → ℕ × Store F
  unfolding get_call_count
  record_trace_txn task input output latency now s =
      let counted : Store F = record s {
        tasks =
            upsert task (record (new_task now) { call_count = 1 })
              (λ r. record r { call_count = r.call_count + 1; updated_at = now }) s.tasks;
      } in
      (
        get_call_count counted task,
        record counted {
          traces =
              Table.insert task
                (record {
                  input_payload = input;
                  teacher_output = output;
                  latency_ms = latency;
                  timestamp = now;
                })
                s.traces;
        },
      )

  unfoldable pub set_status_txn : String → Status → Option String → ℕ → Store F → Bool × Store F
  unfolding previous_status epoch_of record_transition
  set_status_txn task status path now s =
      let previous = previous_status s task in
      let epoch = epoch_of s task in
      let lease : Option ℕ = if status_eq status Status.compiling then some now else none in
      let changed = is_change previous status in
      let new_epoch : ℕ = if changed then epoch + 1 else epoch in
      let stored : Store F = record s {
        tasks =
            upsert task
              (record (new_task now) {
                status = status;
                adapter_path = path;
                state_epoch = new_epoch;
                compiling_started_at = lease;
              })
              (λ r. record r {
                status = status;
                adapter_path = replaced_path path r.adapter_path;
                state_epoch = new_epoch;
                compiling_started_at = lease;
                updated_at = now;
              })
              s.tasks;
      } in
      (
        changed,
        if changed
            then record_transition task (get_or previous Status.tracing) status none none new_epoch
                now none stored
            else stored,
      )
