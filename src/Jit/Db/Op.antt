-- ===== src/Jit/Db/Op.antt =====
-- The write operations of paw_kit/jit/db.py on a task, with their arguments but for the task and the
-- time.
use paw_toolkit.Prelude.{ℕ, String, Option}
use paw_toolkit.Jit.Db.Schema.{Status, Phase, Verdict}

pub data Op (F : Type 0) : Type 0 where
  record_trace : String → String → F → Op F
  set_status : Status → Option String → Op F
  try_begin_compile : Op F
  reclaim_stale_compile : ℕ → Option ℕ → Op F
  increment_compile_attempts : Op F
  set_shadow_started : String → Op F
  set_ready_from_compile : String → Op F
  try_promote : ℕ → Option F → Option ℕ → Option String → Op F
  try_demote : ℕ → Option F → Option ℕ → Option String → Op F
  sync_shadow_config : String → Op F
  increment_fail_open : Op F
  record_shadow_pair :
      ℕ
      → Phase
      → String
      → Option String
      → Option String
      → Verdict
      → Option String
      → Option F
      → Option F
      → Op F
  record_state_transition : Status → Status → Option F → Option ℕ → ℕ → Option String → Op F
  prune_pairs : ℕ → Op F
  prune_trail : Op F
