-- ===== src/Jit/Db/Session.antt =====
-- The methods of `TraceDB` in paw_kit/jit/db.py that write. Each takes the time that its clock reads.
pub mod Retries
pub mod Claims
pub mod Retention
use paw_toolkit.Prelude.{ℕ, String, Bool, true, false, Option, is_some, if◌then◌else◌}
use paw_toolkit.Jit.Db.Schema.{Status, Phase, Verdict}
use paw_toolkit.Jit.Db.Tasks.{record_trace_txn, set_status_txn, record_transition}
use paw_toolkit.Jit.Db.Tasks.Compiles.{
  try_begin_compile_txn, reclaim_stale_compile_txn, increment_compile_attempts_txn,
}
use paw_toolkit.Jit.Db.Tasks.Promotion.{
  set_shadow_started_txn, set_ready_from_compile_txn, try_promote_txn, try_demote_txn,
  sync_shadow_config_txn, increment_fail_open_txn,
}
use paw_toolkit.Jit.Db.Pairs.{record_shadow_pair_txn}
use paw_toolkit.Jit.Db.Ops.{prune_shadow_pairs}
use paw_toolkit.Jit.Db.Connection.{
  Exec, pure, ◌>>=◌, ◌>>◌, with_write_retry, silent, after_transition_write, notify,
  note_shadow_pair, prune_interval,
}

module _ {F : Type 0} where
  unfoldable pub record_trace : String → String → String → F → ℕ → Exec F ℕ
  unfolding with_write_retry
  record_trace task input output latency now =
      with_write_retry (record_trace_txn task input output latency now)

  unfoldable pub set_status : String → Status → Option String → ℕ → Exec F (Unit {0})
  unfolding with_write_retry after_transition_write notify
  set_status task status path now = do
    changed ← with_write_retry (set_status_txn task status path now)
    if changed then after_transition_write task else pure tt
    notify task

  -- What follows a compare-and-set that won, or lost.
  unfoldable pub announce : String → Bool → Exec F Bool
  unfolding after_transition_write notify
  announce task true = do after_transition_write task; notify task; pure true
  announce task false = pure false

  unfoldable pub try_begin_compile : String → ℕ → Exec F Bool
  unfolding with_write_retry announce
  try_begin_compile task now = do
    won ← with_write_retry (try_begin_compile_txn task now)
    announce task (is_some won)

  unfoldable pub reclaim_stale_compile : String → ℕ → Option ℕ → ℕ → Exec F Bool
  unfolding with_write_retry announce
  reclaim_stale_compile task lease most now = do
    won ← with_write_retry (reclaim_stale_compile_txn task lease most now)
    announce task (is_some won)

  unfoldable pub increment_compile_attempts : String → ℕ → Exec F ℕ
  unfolding with_write_retry
  increment_compile_attempts task now = with_write_retry (increment_compile_attempts_txn task now)

  unfoldable pub record_state_transition :
      String → Status → Status → Option F → Option ℕ → ℕ → Option String → ℕ → Exec F (Unit {0})
  unfolding with_write_retry after_transition_write
  record_state_transition task before after agreement samples epoch reason now = do
    with_write_retry
        (silent (record_transition task before after agreement samples epoch now reason))
    after_transition_write task

  unfoldable pub set_shadow_started : String → String → ℕ → Exec F (Unit {0})
  unfolding with_write_retry after_transition_write notify
  set_shadow_started task path now = do
    with_write_retry (silent (set_shadow_started_txn task path now))
    after_transition_write task
    notify task

  unfoldable pub set_ready_from_compile : String → String → ℕ → Exec F (Unit {0})
  unfolding with_write_retry after_transition_write notify
  set_ready_from_compile task path now = do
    with_write_retry (silent (set_ready_from_compile_txn task path now))
    after_transition_write task
    notify task

  unfoldable pub try_promote : String → ℕ → Option F → Option ℕ → Option String → ℕ → Exec F Bool
  unfolding with_write_retry announce
  try_promote task epoch agreement samples reason now = do
    won ← with_write_retry (try_promote_txn task epoch agreement samples reason now)
    announce task won

  unfoldable pub try_demote : String → ℕ → Option F → Option ℕ → Option String → ℕ → Exec F Bool
  unfolding with_write_retry announce
  try_demote task epoch agreement samples reason now = do
    won ← with_write_retry (try_demote_txn task epoch agreement samples reason now)
    announce task won

  unfoldable pub sync_shadow_config : String → String → ℕ → Exec F Bool
  unfolding with_write_retry after_transition_write
  sync_shadow_config task encoded now = do
    bumped ← with_write_retry (sync_shadow_config_txn task encoded now)
    if bumped then after_transition_write task else pure tt
    pure bumped

  unfoldable pub increment_fail_open : String → ℕ → Exec F (Unit {0})
  unfolding with_write_retry
  increment_fail_open task now = with_write_retry (silent (increment_fail_open_txn task now))

  -- The prune that may follow a recorded comparison.
  unfoldable pub after_pair_write : String → ℕ → Exec F (Unit {0})
  unfolding with_write_retry note_shadow_pair
  after_pair_write task max_pairs = do
    due ← note_shadow_pair task (prune_interval max_pairs)
    if due then with_write_retry (silent (prune_shadow_pairs task max_pairs)) else pure tt

  unfoldable pub record_shadow_pair :
      String
      → ℕ
      → Phase
      → String
      → Option String
      → Option String
      → Verdict
      → Option String
      → Option F
      → Option F
      → ℕ
      → ℕ
      → Exec F ℕ
  unfolding with_write_retry after_pair_write
  record_shadow_pair task epoch phase input teacher adapter verdict error_type t_ms a_ms max_pairs
        now =
      do
        seq ← with_write_retry (
            record_shadow_pair_txn task epoch phase input teacher adapter verdict error_type t_ms
              a_ms now)
        after_pair_write task max_pairs
        pure seq
