-- ===== src/Jit/Db/Tasks/Compiles.antt =====
-- The transactions of paw_kit/jit/db.py about a compile: the claim, the release of a stale lease,
-- and the count of attempts.
use paw_toolkit.Prelude.{
  ℕ, ◌+◌, ◌-◌, String, Bool, true, false, ◌&&◌, Option, none, some, get_or, ltb, leb, lookup,
  upsert, update, if◌then◌else◌,
}
use paw_toolkit.Jit.Db.Schema.{Status, Task, Store, status_eq, new_task}
use paw_toolkit.Jit.Db.Tasks.{previous_status, epoch_of, get_compile_attempts, record_transition}

-- The row that conflicts has `status = 'tracing'`, or there is none.
abbrev pub is_claimable : Option Status → Bool
is_claimable none = true
is_claimable (some status) = status_eq status Status.tracing

-- `max_attempts is not None and attempts >= max_attempts`
abbrev pub is_spent : Option ℕ → ℕ → Bool
is_spent none attempts = false
is_spent (some most) attempts = leb most attempts

module _ {F : Type 0} where
  unfoldable pub try_begin_compile_txn : String → ℕ → Store F → Option ℕ × Store F
  unfolding previous_status epoch_of record_transition
  try_begin_compile_txn task now s =
      let previous = previous_status s task in
      let stored : Store F = record s {
        tasks =
            upsert task
              (record (new_task now) {
                status = Status.compiling;
                state_epoch = 1;
                compiling_started_at = some now;
              })
              (λ r. record r {
                status = Status.compiling;
                state_epoch = r.state_epoch + 1;
                compiling_started_at = some now;
                updated_at = now;
              })
              s.tasks;
      } in
      let epoch = epoch_of stored task in
      if is_claimable previous
      then (
        some epoch,
        record_transition task (get_or previous Status.tracing) Status.compiling none none epoch now
            none stored,
      )
      else (none, s)

  -- `status = 'compiling' AND compiling_started_at IS NOT NULL AND compiling_started_at < cutoff`
  abbrev pub is_stale : ℕ → Task F → Bool
  is_stale cutoff r =
      status_eq r.status Status.compiling
      && elim r.compiling_started_at [ none ↦ false | some t ↦ ltb t cutoff ]

  abbrev pub reclaim_row : String → ℕ → ℕ → Option ℕ → Task F → Store F → Option Status × Store F
  reclaim_row task cutoff now most row s =
      let attempts : ℕ = row.compile_attempts + 1 in
      let target : Status = if is_spent most attempts then Status.failed else Status.tracing in
      if is_stale cutoff row
      then (
        some target,
        record_transition task Status.compiling target none none (row.state_epoch + 1) now
            (some "stale_compile_lease")
            (record s {
              tasks =
                  update task
                    (λ r. record r {
                      status = target;
                      state_epoch = r.state_epoch + 1;
                      compile_attempts = r.compile_attempts + 1;
                      compiling_started_at = none;
                      updated_at = now;
                    })
                    s.tasks;
            }),
      )
      else (none, s)

  -- Times and the lease are in microseconds.
  unfoldable pub reclaim_stale_compile_txn :
      String → ℕ → Option ℕ → ℕ → Store F → Option Status × Store F
  unfolding record_transition
  reclaim_stale_compile_txn task lease most now s = elim (lookup task s.tasks) [
    | none ↦ (none, s)
    | some row ↦ reclaim_row task (now - lease) now most row s
  ]

  unfoldable pub increment_compile_attempts_txn : String → ℕ → Store F → ℕ × Store F
  unfolding get_compile_attempts
  increment_compile_attempts_txn task now s =
      let stored : Store F = record s {
        tasks =
            upsert task (record (new_task now) { compile_attempts = 1 })
              (λ r. record r { compile_attempts = r.compile_attempts + 1; updated_at = now })
              s.tasks;
      } in
      (get_compile_attempts stored task, stored)
