-- ===== src/Jit/Db/Ops.antt =====
-- Every write transaction of paw_kit/jit/db.py as one step of the database file. The processes and
-- threads that share a file interleave these steps, so a history is a list of them.
pub mod Machine
pub mod Refines
pub mod Epochs
pub mod Claims
pub mod Leases
pub mod Outage
pub mod Trail
pub mod Races
use paw_toolkit.Prelude.{ℕ, String, List, [], ◌∷◌}
use paw_toolkit.Jit.Db.Table
use paw_toolkit.Jit.Db.Schema.{Store}
use paw_toolkit.Jit.Db.Op.{
  Op, record_trace, set_status, try_begin_compile, reclaim_stale_compile,
  increment_compile_attempts, set_shadow_started, set_ready_from_compile, try_promote, try_demote,
  sync_shadow_config, increment_fail_open, record_shadow_pair, record_state_transition, prune_pairs,
  prune_trail,
}
use paw_toolkit.Jit.Db.Tasks.{record_transition, record_trace_txn, set_status_txn}
use paw_toolkit.Jit.Db.Tasks.Compiles.{
  try_begin_compile_txn, reclaim_stale_compile_txn, increment_compile_attempts_txn,
}
use paw_toolkit.Jit.Db.Tasks.Promotion.{
  set_shadow_started_txn, set_ready_from_compile_txn, try_promote_txn, try_demote_txn,
  sync_shadow_config_txn, increment_fail_open_txn,
}
use paw_toolkit.Jit.Db.Pairs.{record_shadow_pair_txn}

-- `_STATE_TRANSITIONS_MAX_ROWS`
abbrev pub state_transitions_max_rows : ℕ
state_transitions_max_rows = 200

module _ {F : Type 0} where
  -- The two pruning transactions.
  unfoldable pub prune_shadow_pairs : String → ℕ → Store F → Store F
  prune_shadow_pairs task most s = record s { shadow_pairs = Table.prune task most s.shadow_pairs }

  unfoldable pub prune_transitions : String → Store F → Store F
  prune_transitions task s = record s {
    state_transitions = Table.prune task state_transitions_max_rows s.state_transitions;
  }

module _ {F : Type 0} where
  -- The step that an operation on a task takes at a time.
  unfoldable pub apply : String → ℕ → Op F → Store F → Store F
  unfolding record_trace_txn set_status_txn try_begin_compile_txn reclaim_stale_compile_txn
      increment_compile_attempts_txn set_shadow_started_txn set_ready_from_compile_txn
      try_promote_txn try_demote_txn sync_shadow_config_txn increment_fail_open_txn
      record_shadow_pair_txn record_transition prune_shadow_pairs prune_transitions
  apply task now (record_trace input output latency) s =
      (record_trace_txn task input output latency now s).1
  apply task now (set_status status path) s = (set_status_txn task status path now s).1
  apply task now try_begin_compile s = (try_begin_compile_txn task now s).1
  apply task now (reclaim_stale_compile lease most) s =
      (reclaim_stale_compile_txn task lease most now s).1
  apply task now increment_compile_attempts s = (increment_compile_attempts_txn task now s).1
  apply task now (set_shadow_started path) s = set_shadow_started_txn task path now s
  apply task now (set_ready_from_compile path) s = set_ready_from_compile_txn task path now s
  apply task now (try_promote epoch agreement samples reason) s =
      (try_promote_txn task epoch agreement samples reason now s).1
  apply task now (try_demote epoch agreement samples reason) s =
      (try_demote_txn task epoch agreement samples reason now s).1
  apply task now (sync_shadow_config encoded) s = (sync_shadow_config_txn task encoded now s).1
  apply task now increment_fail_open s = increment_fail_open_txn task now s
  apply task now (record_shadow_pair epoch phase input teacher adapter verdict error_type t_ms a_ms)
        s =
      (record_shadow_pair_txn task epoch phase input teacher adapter verdict error_type t_ms a_ms
        now s).1
  apply task now (record_state_transition before after agreement samples epoch reason) s =
      record_transition task before after agreement samples epoch now reason s
  apply task now (prune_pairs most) s = prune_shadow_pairs task most s
  apply task now prune_trail s = prune_transitions task s

  -- A history: the task, the time and the operation of each step, the first step first.
  unfoldable pub run : List (String × ℕ × Op F) → Store F → Store F
  run [] s = s
  run ((task, now, op) ∷ rest) s = run rest (apply task now op s)
