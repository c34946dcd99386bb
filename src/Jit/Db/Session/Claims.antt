-- ===== src/Jit/Db/Session/Claims.antt =====
-- A claim of a compile that is won and lost again: the prune after it may raise.
use paw_toolkit.Prelude.{
  ℕ, ◌+◌, ◌%◌, ◌==◌, String, ◌≡◌, refl, Bool, true, false, List, ◌∷◌, arith, lookup-upsert,
  str_eq_refl, is_some,
}
use paw_toolkit.Jit.Outcome.{Result, raised, operational_error}
use paw_toolkit.Jit.Db.Schema.{Status, Store}
use paw_toolkit.Jit.Db.Tasks.{get_status}
use paw_toolkit.Jit.Db.Tasks.Compiles.{try_begin_compile_txn}
use paw_toolkit.Jit.Db.Connection.{Session, retry, note_transition}
use paw_toolkit.Jit.Db.Session.{try_begin_compile}
use paw_toolkit.Jit.Compiler.{trigger_compilation}

module _ {F : Type 0} where
  pub claim_of_tracing :
      (task : String) (now : ℕ) (s : Store F)
      → get_status s task ≡ Status.tracing
      → (is_some (try_begin_compile_txn task now s).0 ≡ true)
        × (get_status (try_begin_compile_txn task now s).1 task ≡ Status.compiling)
  unfolding try_begin_compile_txn get_status
  claim_of_tracing task now s h = grind (arith, lookup-upsert, str_eq_refl)

  -- When the claim goes through, its prune is due, and the next five attempts are turned away, the
  -- call raises: the task stays `compiling`, and no listener is told; and a trigger of a compile, which makes this
  -- call first, raises the same and leaves the same, so that no compile starts.
  pub try_begin_compile-strands :
      (task : String) (now : ℕ) (σ : Session F) (rest : List Bool) (sync shadowing : Bool)
      (compiled : Result String)
      → get_status σ.store task ≡ Status.tracing
      → ((σ.transition_writes task + 1) % 50 == 0) ≡ true
      → σ.faults ≡ false ∷ true ∷ true ∷ true ∷ true ∷ true ∷ rest
      → let after = try_begin_compile task now σ in
        (after.0 ≡ raised operational_error)
        × (get_status after.1.store task ≡ Status.compiling)
        × (after.1.notified ≡ σ.notified)
        × (trigger_compilation sync shadowing task compiled now σ
            ≡ (raised operational_error, after.1))
  unfolding try_begin_compile note_transition retry trigger_compilation
  try_begin_compile-strands task now σ rest sync shadowing compiled h due met = rw met (
      rw (claim_of_tracing task now σ.store h).0
        (rw due (refl, (claim_of_tracing task now σ.store h).1, refl, refl)))
