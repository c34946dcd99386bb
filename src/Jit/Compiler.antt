-- ===== src/Jit/Compiler.antt =====
-- `BackgroundCompiler` of paw_kit/jit/compiler.py. What the backend's compile comes to, a path or an
-- exception, is an argument. The thread of an asynchronous compile runs `worker` later; the table of
-- active threads is not modelled.
pub mod Attempts
use paw_toolkit.Prelude.{ℕ, suc, String, Bool, true, false, ◌&&◌, Option, none, ltb, if◌then◌else◌}
use paw_toolkit.Jit.Outcome.{Result, ok, raised}
use paw_toolkit.Jit.Db.Schema.{Status}
use paw_toolkit.Jit.Db.Tasks.{get_compile_attempts}
use paw_toolkit.Jit.Db.Connection.{Session, Exec, pure, continue, ◌>>=◌, ◌>>◌}
use paw_toolkit.Jit.Db.Session.{
  set_status, try_begin_compile, increment_compile_attempts, set_shadow_started,
  set_ready_from_compile,
}

-- `_MAX_COMPILE_ATTEMPTS`
abbrev pub max_compile_attempts : ℕ
max_compile_attempts = 3

-- `advanced and attempts < self._MAX_COMPILE_ATTEMPTS`
abbrev pub after_failure : ℕ → ℕ → Status
after_failure before attempts =
    if ltb before attempts && ltb attempts max_compile_attempts
    then Status.tracing
    else Status.failed

module _ {F : Type 0} where
  -- `except Exception:` of the worker
  unfoldable pub on_failure : String → ℕ → Exec F (Unit {0})
  on_failure task now σ =
      let before = get_compile_attempts σ.store task in
      continue (increment_compile_attempts task now σ)
        λ attempts. set_status task (after_failure before attempts) none now

  -- The end of a compile that gave a path.
  abbrev pub publish : Bool → String → String → ℕ → Exec F (Unit {0})
  publish true task path now = set_shadow_started task path now
  publish false task path now = set_ready_from_compile task path now

  abbrev or_fail : String → ℕ → Result (Unit {0}) × Session F → Result (Unit {0}) × Session F
  or_fail task now (ok u, σ) = (ok u, σ)
  or_fail task now (raised e, σ) = on_failure task now σ

  -- `shadowing` is `promote_to == "shadow"`.
  unfoldable pub worker : Bool → String → Result String → ℕ → Exec F (Unit {0})
  unfolding on_failure
  worker shadowing task (ok path) now σ = or_fail task now (publish shadowing task path now σ)
  worker shadowing task (raised e) now σ = on_failure task now σ

  -- A compile that was claimed: run here, or by a thread. The result is whether a thread was started.
  abbrev launch : Bool → Bool → String → Result String → ℕ → Bool → Exec F Bool
  launch sync shadowing task compiled now false = pure false
  launch true shadowing task compiled now true = do worker shadowing task compiled now; pure false
  launch false shadowing task compiled now true = pure true

  unfoldable pub trigger_compilation : Bool → Bool → String → Result String → ℕ → Exec F Bool
  unfolding worker
  trigger_compilation sync shadowing task compiled now = do
    won ← try_begin_compile task now
    launch sync shadowing task compiled now won
