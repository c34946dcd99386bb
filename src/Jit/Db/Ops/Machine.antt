-- ===== src/Jit/Db/Ops/Machine.antt =====
-- The life of one task as an abstract machine: what an operation on the task makes of its row (none
-- before the first write about the task), and the entry that it leaves in the task's trail.
use paw_toolkit.Prelude.{
  ℕ, ◌+◌, ◌-◌, String, Bool, true, false, ◌&&◌, Option, none, some, List, ◌∷◌, take, ltb, leb, ◌==◌,
  str_eq, if◌then◌else◌,
}
use paw_toolkit.Jit.Db.Schema.{Status, Task, Transition, status_eq, new_task}
use paw_toolkit.Jit.Db.Op.{
  Op, record_trace, set_status, try_begin_compile, reclaim_stale_compile,
  increment_compile_attempts, set_shadow_started, set_ready_from_compile, try_promote, try_demote,
  sync_shadow_config, increment_fail_open, record_shadow_pair, record_state_transition, prune_pairs,
  prune_trail,
}

abbrev lease_of : Status → ℕ → Option ℕ
lease_of Status.compiling now = some now
lease_of _ now = none

abbrev or_old {ℓ} : {A : Type ℓ} → Option A → Option A → Option A
or_old none old = old
or_old (some new) old = some new

-- A lease that began before `now - lease`.
abbrev pub is_wedged : ℕ → ℕ → Status → Option ℕ → Bool
is_wedged lease now Status.compiling (some began) = ltb began (now - lease)
is_wedged lease now _ _ = false

abbrev pub reclaim_target : Option ℕ → ℕ → Status
reclaim_target none attempts = Status.tracing
reclaim_target (some most) attempts = if leb most attempts then Status.failed else Status.tracing

-- A new configuration while the task's comparisons are being counted.
abbrev restarts : String → Option String → Status → Bool
restarts new none status = false
restarts new (some old) Status.shadow = if str_eq old new then false else true
restarts new (some old) Status.ready = if str_eq old new then false else true
restarts new (some old) _ = false

abbrev keeps_config : String → Option String → Bool
keeps_config new none = false
keeps_config new (some old) = str_eq old new

module _ {F : Type 0} where
  -- A status that changes advances the epoch.
  abbrev next_epoch : Status → Task F → ℕ
  next_epoch status r = if status_eq r.status status then r.state_epoch else r.state_epoch + 1

  abbrev row_of : ℕ → Option (Task F) → Task F
  row_of now none = new_task now
  row_of now (some r) = record r { updated_at = now }

  abbrev claimed : ℕ → Task F → Task F
  claimed now r = record r {
    status = Status.compiling;
    state_epoch = r.state_epoch + 1;
    compiling_started_at = some now;
  }

  abbrev pub row_after : ℕ → Op F → Option (Task F) → Option (Task F)
  row_after now (record_trace input output latency) o =
      let r = row_of now o in some (record r { call_count = r.call_count + 1 })
  row_after now (set_status status path) none = some (record (new_task now) {
    status = status;
    adapter_path = path;
    compiling_started_at = lease_of status now;
  })
  row_after now (set_status status path) (some r) = some (record r {
    status = status;
    adapter_path = or_old path r.adapter_path;
    state_epoch = next_epoch status r;
    compiling_started_at = lease_of status now;
    updated_at = now;
  })
  row_after now try_begin_compile none = some (claimed now (new_task now))
  row_after now try_begin_compile (some r) =
      if status_eq r.status Status.tracing
      then some (claimed now (record r { updated_at = now }))
      else some r
  row_after now (reclaim_stale_compile lease most) none = none
  row_after now (reclaim_stale_compile lease most) (some r) =
      if is_wedged lease now r.status r.compiling_started_at
      then some (record r {
        status = reclaim_target most (r.compile_attempts + 1);
        state_epoch = r.state_epoch + 1;
        compile_attempts = r.compile_attempts + 1;
        compiling_started_at = none;
        updated_at = now;
      })
      else some r
  row_after now increment_compile_attempts o =
      let r = row_of now o in some (record r { compile_attempts = r.compile_attempts + 1 })
  row_after now (set_shadow_started path) o =
      let r = row_of now o in
      some (record r {
        status = Status.shadow;
        adapter_path = some path;
        shadow_started_at = some now;
        state_epoch = r.state_epoch + 1;
      })
  row_after now (set_ready_from_compile path) o =
      let r = row_of now o in
      some (record r {
        status = Status.ready;
        adapter_path = some path;
        promoted_at = some now;
        promoted_agreement = none;
        state_epoch = r.state_epoch + 1;
      })
  row_after now (try_promote epoch agreement samples reason) none = none
  row_after now (try_promote epoch agreement samples reason) (some r) =
      if status_eq r.status Status.shadow && r.state_epoch == epoch
      then some (record r {
        status = Status.ready;
        state_epoch = r.state_epoch + 1;
        promoted_at = some now;
        promoted_agreement = agreement;
        updated_at = now;
      })
      else some r
  row_after now (try_demote epoch agreement samples reason) none = none
  row_after now (try_demote epoch agreement samples reason) (some r) =
      if status_eq r.status Status.ready && r.state_epoch == epoch
      then some (record r {
        status = Status.shadow;
        state_epoch = r.state_epoch + 1;
        demoted_at = some now;
        demoted_agreement = agreement;
        updated_at = now;
      })
      else some r
  row_after now (sync_shadow_config encoded) none =
      some (record (new_task now) { shadow_config = some encoded })
  row_after now (sync_shadow_config encoded) (some r) =
      if keeps_config encoded r.shadow_config
      then some r
      else some (record r {
        shadow_config = some encoded;
        state_epoch = r.state_epoch + (if restarts encoded r.shadow_config r.status then 1 else 0);
        updated_at = now;
      })
  row_after now increment_fail_open o =
      let r = row_of now o in some (record r { fail_open_count = r.fail_open_count + 1 })
  row_after now (record_shadow_pair _ _ _ _ _ _ _ _ _) o = o
  row_after now (record_state_transition _ _ _ _ _ _) o = o
  row_after now (prune_pairs most) o = o
  row_after now prune_trail o = o

  abbrev entry :
      Status → Status → Option F → Option ℕ → ℕ → ℕ → Option String → Option (Transition F)
  entry before after agreement samples epoch now reason = some (record {
    from_status = before;
    to_status = after;
    agreement = agreement;
    sample_count = samples;
    state_epoch = epoch;
    reason = reason;
    timestamp = now;
  })

  abbrev plain_entry : Status → Status → ℕ → ℕ → Option (Transition F)
  plain_entry before after epoch now = entry before after none none epoch now none

  -- A task with no row is read as `tracing`, or as `compiling` when its compile has just ended.
  abbrev pub entry_after : ℕ → Op F → Option (Task F) → Option (Transition F)
  entry_after now (set_status status path) none = none
  entry_after now (set_status status path) (some r) =
      if status_eq r.status status
      then none
      else plain_entry r.status status (r.state_epoch + 1) now
  entry_after now try_begin_compile none = plain_entry Status.tracing Status.compiling 1 now
  entry_after now try_begin_compile (some r) =
      if status_eq r.status Status.tracing
      then plain_entry Status.tracing Status.compiling (r.state_epoch + 1) now
      else none
  entry_after now (reclaim_stale_compile lease most) none = none
  entry_after now (reclaim_stale_compile lease most) (some r) =
      if is_wedged lease now r.status r.compiling_started_at
      then entry Status.compiling (reclaim_target most (r.compile_attempts + 1)) none none
          (r.state_epoch + 1) now (some "stale_compile_lease")
      else none
  entry_after now (set_shadow_started path) none = plain_entry Status.compiling Status.shadow 1 now
  entry_after now (set_shadow_started path) (some r) =
      plain_entry r.status Status.shadow (r.state_epoch + 1) now
  entry_after now (set_ready_from_compile path) none =
      entry Status.compiling Status.ready none none 1 now (some "shadow_disabled")
  entry_after now (set_ready_from_compile path) (some r) =
      entry r.status Status.ready none none (r.state_epoch + 1) now (some "shadow_disabled")
  entry_after now (try_promote epoch agreement samples reason) none = none
  entry_after now (try_promote epoch agreement samples reason) (some r) =
      if status_eq r.status Status.shadow && r.state_epoch == epoch
      then entry Status.shadow Status.ready agreement samples (epoch + 1) now reason
      else none
  entry_after now (try_demote epoch agreement samples reason) none = none
  entry_after now (try_demote epoch agreement samples reason) (some r) =
      if status_eq r.status Status.ready && r.state_epoch == epoch
      then entry Status.ready Status.shadow agreement samples (epoch + 1) now reason
      else none
  entry_after now (sync_shadow_config encoded) none = none
  entry_after now (sync_shadow_config encoded) (some r) =
      if restarts encoded r.shadow_config r.status
      then entry r.status r.status none none (r.state_epoch + 1) now (some "config_change")
      else none
  entry_after now (record_state_transition before after agreement samples epoch reason) o =
      entry before after agreement samples epoch now reason
  entry_after now _ o = none

  abbrev cons_entry : Option (Transition F) → List (Transition F) → List (Transition F)
  cons_entry none es = es
  cons_entry (some e) es = e ∷ es

  -- The trail after an operation, newest entry first. Pruning keeps the newest 200 entries.
  abbrev pub trail_after : ℕ → Op F → Option (Task F) → List (Transition F) → List (Transition F)
  trail_after now prune_trail o es = take 200 es
  trail_after now op o es = cons_entry (entry_after now op o) es
