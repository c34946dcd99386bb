-- ===== src/Jit/Db/Tasks/Promotion.antt =====
-- The transactions of paw_kit/jit/db.py about shadow mode: the start of a shadow phase, promotion and
-- demotion by compare-and-set, the reconciled configuration, and the fail-open counter.
use paw_toolkit.Prelude.{
  ℕ, ◌+◌, String, Bool, true, false, ◌&&◌, ◌||◌, Option, none, some, get_or, ◌==◌, str_eq, is_some,
  lookup, upsert, update, if◌then◌else◌,
}
use paw_toolkit.Jit.Db.Schema.{Status, Task, Store, status_eq, new_task}
use paw_toolkit.Jit.Db.Tasks.{previous_status, epoch_of, record_transition}

-- `status = ? AND state_epoch = ?`
abbrev pub is_at : {F : Type 0} → Status → ℕ → Task F → Bool
is_at status epoch r = status_eq r.status status && r.state_epoch == epoch

-- `row["shadow_config"] == encoded`
abbrev pub is_same_config : Option String → String → Bool
is_same_config none encoded = false
is_same_config (some old) encoded = str_eq old encoded

module _ {F : Type 0} where
  unfoldable pub set_shadow_started_txn : String → String → ℕ → Store F → Store F
  unfolding previous_status epoch_of record_transition
  set_shadow_started_txn task path now s =
      let previous = previous_status s task in
      let new_epoch : ℕ = epoch_of s task + 1 in
      record_transition task (get_or previous Status.compiling) Status.shadow none none new_epoch
        now none
        (record s {
          tasks =
              upsert task
                (record (new_task now) {
                  status = Status.shadow;
                  adapter_path = some path;
                  shadow_started_at = some now;
                  state_epoch = new_epoch;
                })
                (λ r. record r {
                  status = Status.shadow;
                  adapter_path = some path;
                  shadow_started_at = some now;
                  state_epoch = new_epoch;
                  updated_at = now;
                })
                s.tasks;
        })

  unfoldable pub set_ready_from_compile_txn : String → String → ℕ → Store F → Store F
  unfolding previous_status epoch_of record_transition
  set_ready_from_compile_txn task path now s =
      let previous = previous_status s task in
      let new_epoch : ℕ = epoch_of s task + 1 in
      record_transition task (get_or previous Status.compiling) Status.ready none none new_epoch now
        (some "shadow_disabled")
        (record s {
          tasks =
              upsert task
                (record (new_task now) {
                  status = Status.ready;
                  adapter_path = some path;
                  promoted_at = some now;
                  promoted_agreement = none;
                  state_epoch = new_epoch;
                })
                (λ r. record r {
                  status = Status.ready;
                  adapter_path = some path;
                  promoted_at = some now;
                  promoted_agreement = none;
                  state_epoch = new_epoch;
                  updated_at = now;
                })
                s.tasks;
        })

  abbrev promote_row :
      String → ℕ → Option F → Option ℕ → Option String → ℕ → Task F → Store F → Bool × Store F
  promote_row task epoch agreement samples reason now row s =
      if is_at Status.shadow epoch row
      then (
        true,
        record_transition task Status.shadow Status.ready agreement samples (epoch + 1) now reason
            (record s {
              tasks =
                  update task
                    (λ r. record r {
                      status = Status.ready;
                      state_epoch = r.state_epoch + 1;
                      promoted_at = some now;
                      promoted_agreement = agreement;
                      updated_at = now;
                    })
                    s.tasks;
            }),
      )
      else (false, s)

  unfoldable pub try_promote_txn :
      String → ℕ → Option F → Option ℕ → Option String → ℕ → Store F → Bool × Store F
  unfolding record_transition
  try_promote_txn task epoch agreement samples reason now s = elim (lookup task s.tasks) [
    | none ↦ (false, s)
    | some row ↦ promote_row task epoch agreement samples reason now row s
  ]

  abbrev demote_row :
      String → ℕ → Option F → Option ℕ → Option String → ℕ → Task F → Store F → Bool × Store F
  demote_row task epoch agreement samples reason now row s =
      if is_at Status.ready epoch row
      then (
        true,
        record_transition task Status.ready Status.shadow agreement samples (epoch + 1) now reason
            (record s {
              tasks =
                  update task
                    (λ r. record r {
                      status = Status.shadow;
                      state_epoch = r.state_epoch + 1;
                      demoted_at = some now;
                      demoted_agreement = agreement;
                      updated_at = now;
                    })
                    s.tasks;
            }),
      )
      else (false, s)

  unfoldable pub try_demote_txn :
      String → ℕ → Option F → Option ℕ → Option String → ℕ → Store F → Bool × Store F
  unfolding record_transition
  try_demote_txn task epoch agreement samples reason now s = elim (lookup task s.tasks) [
    | none ↦ (false, s)
    | some row ↦ demote_row task epoch agreement samples reason now row s
  ]

  -- `row["shadow_config"] is not None and row["status"] in ("shadow", "ready")`
  abbrev pub is_mid_run : Task F → Bool
  is_mid_run r =
      is_some r.shadow_config
      && (status_eq r.status Status.shadow || status_eq r.status Status.ready)

  abbrev sync_row : String → String → ℕ → Task F → Store F → Bool × Store F
  sync_row task encoded now row s =
      let changed = is_mid_run row in
      let epoch : ℕ = row.state_epoch + (if changed then 1 else 0) in
      let stored : Store F = record s {
        tasks =
            update task
              (λ r. record r {
                shadow_config = some encoded;
                state_epoch = epoch;
                updated_at = now;
              })
              s.tasks;
      } in
      if is_same_config row.shadow_config encoded then (false, s) else (
        changed,
        if changed
            then record_transition task row.status row.status none none epoch now
                (some "config_change") stored
            else stored,
      )

  -- `encoded` is the configuration as `json.dumps(config, sort_keys=True)` writes it.
  unfoldable pub sync_shadow_config_txn : String → String → ℕ → Store F → Bool × Store F
  unfolding record_transition
  sync_shadow_config_txn task encoded now s = elim (lookup task s.tasks) [
    | none ↦ (
      false,
      record s {
        tasks =
            upsert task (record (new_task now) { shadow_config = some encoded })
              (λ r. record r { shadow_config = some encoded; updated_at = now }) s.tasks;
      },
    )
    | some row ↦ sync_row task encoded now row s
  ]

  unfoldable pub increment_fail_open_txn : String → ℕ → Store F → Store F
  increment_fail_open_txn task now s = record s {
    tasks =
        upsert task (record (new_task now) { fail_open_count = 1 })
          (λ r. record r { fail_open_count = r.fail_open_count + 1; updated_at = now }) s.tasks;
  }
