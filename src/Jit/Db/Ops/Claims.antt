-- ===== src/Jit/Db/Ops/Claims.antt =====
-- The claim of a compile, `try_begin_compile` of paw_kit/jit/db.py: it is bought once.
use paw_toolkit.Prelude.{
  ℕ, String, ◌≡◌, sym, subst, Bool, true, false, Option, none, some, List, [], ◌∷◌, arith, lookup,
  str_eq, str_eq_iff, str_eq_refl, if◌then◌else◌, Bool-cases, inl, inr, All, lookup-upsert,
}
use paw_toolkit.Jit.Db.Schema.{Status, Task, Store, status_eq}
use paw_toolkit.Jit.Db.Op.{Op, record_trace, set_status, reclaim_stale_compile}
use paw_toolkit.Jit.Db.Tasks.Compiles.{try_begin_compile_txn}
use paw_toolkit.Jit.Db.Ops.{apply, run}
use paw_toolkit.Jit.Db.Ops.Machine.{row_after}
use paw_toolkit.Jit.Db.Ops.Refines.{lookup-apply}

module _ {F : Type 0} where
  -- The operations that may hand a task back to `tracing`.
  abbrev pub releases : Op F → Bool
  releases (set_status Status.tracing path) = true
  releases (reclaim_stale_compile lease most) = true
  releases _ = false

  abbrev pub keeps_claim : String → String × ℕ × Op F → Bool
  keeps_claim j (task, now, op) =
      if str_eq task j then (if releases op then false else true) else true

  -- The task has a row, and is not `tracing`.
  abbrev IsHeld : Option (Task F) → Type 0
  IsHeld none = ⊥
  IsHeld (some r) = status_eq r.status Status.tracing ≡ false

  row_after-IsHeld :
      (now : ℕ) (op : Op F) (o : Option (Task F))
      → releases op ≡ false
      → IsHeld o
      → IsHeld (row_after now op o)
  row_after-IsHeld now op none q h = absurd h
  row_after-IsHeld now (record_trace _ _ _) (some r) q h = ground arith
  row_after-IsHeld now _ (some r) q h = ground arith

  apply-IsHeld :
      (task j : String) (now : ℕ) (op : Op F) (s : Store F)
      → keeps_claim j (task, now, op) ≡ true
      → IsHeld (lookup j s.tasks)
      → IsHeld (lookup j (apply task now op s).tasks)
  apply-IsHeld task j now op s q h = elim (Bool-cases (str_eq task j)) [
    | inl same ↦
        rw (lookup-apply task j now op s, same)
          (row_after-IsHeld now op (lookup task s.tasks) (ground arith)
            (subst (λ k. IsHeld (lookup k s.tasks)) (sym ((str_eq_iff task j).0 same)) h))
    | inr other ↦ rw (lookup-apply task j now op s, other) h
  ]

  run-IsHeld :
      (j : String) (history : List (String × ℕ × Op F)) (s : Store F)
      → All (λ step. keeps_claim j step ≡ true) history
      → IsHeld (lookup j s.tasks)
      → IsHeld (lookup j (run history s).tasks)
  unfolding run
  run-IsHeld j [] s q h = h
  run-IsHeld j ((task, now, op) ∷ rest) s q h =
      run-IsHeld j rest (apply task now op s) q.1 (apply-IsHeld task j now op s q.0 h)

  claim-IsHeld :
      (task : String) (now epoch : ℕ) (s : Store F)
      → (try_begin_compile_txn task now s).0 ≡ some epoch
      → IsHeld (lookup task (try_begin_compile_txn task now s).1.tasks)
  unfolding try_begin_compile_txn
  claim-IsHeld task now epoch s h = grind (arith, lookup-upsert, str_eq_refl)

  claim_refused :
      (task : String) (now : ℕ) (s : Store F)
      → IsHeld (lookup task s.tasks)
      → try_begin_compile_txn task now s ≡ (none, s)
  unfolding try_begin_compile_txn
  claim_refused task now s h = ground arith

  -- After a claim that won, whatever other writes follow, every later claim on the task is refused
  -- and changes nothing, as long as no `set_status` to `tracing` and no reclaim is among them.
  pub try_begin_compile-wins_once :
      (task : String) (now later epoch : ℕ) (s : Store F) (history : List (String × ℕ × Op F))
      → (try_begin_compile_txn task now s).0 ≡ some epoch
      → All (λ step. keeps_claim task step ≡ true) history
      → let s' = run history (try_begin_compile_txn task now s).1 in
        try_begin_compile_txn task later s' ≡ (none, s')
  try_begin_compile-wins_once task now later epoch s history won quiet =
      claim_refused task later (run history (try_begin_compile_txn task now s).1) (
        run-IsHeld task history (try_begin_compile_txn task now s).1 quiet
          (claim-IsHeld task now epoch s won))
