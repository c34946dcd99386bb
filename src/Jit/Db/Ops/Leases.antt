-- ===== src/Jit/Db/Ops/Leases.antt =====
-- The compile lease of paw_kit/jit/db.py: a `compiling` row has a stamp, so that a wedged compile can
-- be reclaimed.
use paw_toolkit.Prelude.{
  ℕ, ◌+◌, ◌≤◌, ◌<◌, String, ◌≡◌, true, false, Option, none, some, List, [], ◌∷◌, arith, lookup,
  str_eq, str_eq_refl, if◌then◌else◌, Bool-cases, inl, inr, lookup-update, is_some,
}
use paw_toolkit.Jit.Db.Schema.{Status, Task, Store, status_eq}
use paw_toolkit.Jit.Db.Schema
use paw_toolkit.Jit.Db.Op.{Op, record_trace}
use paw_toolkit.Jit.Db.Tasks.{get_status, epoch_of, get_compile_attempts}
use paw_toolkit.Jit.Db.Tasks.Compiles.{reclaim_stale_compile_txn, try_begin_compile_txn, is_spent}
use paw_toolkit.Jit.Db.Session.Claims.{claim_of_tracing}
use paw_toolkit.Jit.Db.Ops.{apply, run}
use paw_toolkit.Jit.Db.Ops.Machine.{row_after}
use paw_toolkit.Jit.Db.Ops.Refines.{lookup-apply}

module _ {F : Type 0} where
  abbrev pub IsLeased : Option (Task F) → Type 0
  IsLeased none = Unit {0}
  IsLeased (some r) =
      status_eq r.status Status.compiling ≡ true → is_some r.compiling_started_at ≡ true

  row_after-IsLeased :
      (now : ℕ) (op : Op F) (o : Option (Task F)) → IsLeased o → IsLeased (row_after now op o)
  row_after-IsLeased now (record_trace _ _ _) none h = ground arith
  row_after-IsLeased now (record_trace _ _ _) (some r) h = ground arith
  row_after-IsLeased now _ none h = ground arith
  row_after-IsLeased now _ (some r) h = ground arith

  apply-IsLeased :
      (task j : String) (now : ℕ) (op : Op F) (s : Store F)
      → ((k : String) → IsLeased (lookup k s.tasks))
      → IsLeased (lookup j (apply task now op s).tasks)
  apply-IsLeased task j now op s h = elim (Bool-cases (str_eq task j)) [
    | inl same ↦
        rw (lookup-apply task j now op s, same)
          (row_after-IsLeased now op (lookup task s.tasks) (h task))
    | inr other ↦ rw (lookup-apply task j now op s, other) (h j)
  ]

  run-IsLeased :
      (history : List (String × ℕ × Op F)) (s : Store F)
      → ((k : String) → IsLeased (lookup k s.tasks))
      → (j : String) → IsLeased (lookup j (run history s).tasks)
  unfolding run
  run-IsLeased [] s h j = h j
  run-IsLeased ((task, now, op) ∷ rest) s h j =
      run-IsLeased rest (apply task now op s) (λ k. apply-IsLeased task k now op s h) j

  abbrev pub started_at : Store F → String → Option ℕ
  started_at s j = elim (lookup j s.tasks) [ none ↦ none | some r ↦ r.compiling_started_at ]

  -- In every file that the program's writes can make, a task that is `compiling` says since when.
  pub compiling-has-lease :
      (history : List (String × ℕ × Op F)) (j : String)
      → get_status (run history Schema.empty) j ≡ Status.compiling
      → (began : ℕ) × (started_at (run history Schema.empty) j ≡ some began)
  unfolding get_status lookup
  compiling-has-lease history j h =
      leased (lookup j (run history Schema.empty).tasks)
        (run-IsLeased history Schema.empty (λ k. tt) j) h
    where
      leased :
          (o : Option (Task F))
          → IsLeased o
          → elim o [ none ↦ Status.tracing | some r ↦ r.status ] ≡ Status.compiling
          → (began : ℕ) × (elim o [ none ↦ none | some r ↦ r.compiling_started_at ] ≡ some began)
      leased none l e = cc
      leased (some r) l e = ground (arith, l (ground arith))

  -- A task that began to compile more than a lease ago is released: it is `tracing` again, or `failed`
  -- if this was the last attempt; its epoch and its count of attempts advance by one.
  pub reclaim-releases :
      (task : String) (lease began now : ℕ) (most : Option ℕ) (s : Store F)
      → get_status s task ≡ Status.compiling
      → started_at s task ≡ some began
      → began + lease < now
      → let target : Status =
          if is_spent most (get_compile_attempts s task + 1)
          then Status.failed
          else Status.tracing in
        let after = reclaim_stale_compile_txn task lease most now s in
        (after.0 ≡ some target)
        × (get_status after.1 task ≡ target)
        × (epoch_of after.1 task ≡ epoch_of s task + 1)
        × (get_compile_attempts after.1 task ≡ get_compile_attempts s task + 1)
        × (started_at after.1 task ≡ none)
  unfolding reclaim_stale_compile_txn get_status epoch_of get_compile_attempts
  reclaim-releases task lease began now most s c st late = grind (arith, lookup-update, str_eq_refl)

  -- A compile that is within its lease is left alone.
  pub reclaim-waits :
      (task : String) (lease began now : ℕ) (most : Option ℕ) (s : Store F)
      → started_at s task ≡ some began
      → now ≤ began + lease
      → reclaim_stale_compile_txn task lease most now s ≡ (none, s)
  unfolding reclaim_stale_compile_txn
  reclaim-waits task lease began now most s st early = ground arith

  -- In every file that the program's writes can make, a task that is `compiling` recovers: from some time on,
  -- whenever its stale compile is reclaimed, one more attempt is counted and the task is `tracing` or, with its
  -- attempts spent, `failed`; and where it is `tracing`, the next claim of its compile wins.
  pub reclaim-recovers :
      (history : List (String × ℕ × Op F)) (task : String) (lease : ℕ) (most : Option ℕ)
      → get_status (run history Schema.empty) task ≡ Status.compiling
      → let s = run history Schema.empty in
        let spent = is_spent most (get_compile_attempts s task + 1) in
        (deadline : ℕ) × ((now later : ℕ)
          → deadline < now
          → let after = (reclaim_stale_compile_txn task lease most now s).1 in
            (get_compile_attempts after task ≡ get_compile_attempts s task + 1)
            × (get_status after task ≡ (if spent then Status.failed else Status.tracing))
            × (spent ≡ false
                → (is_some (try_begin_compile_txn task later after).0 ≡ true)
                  × (get_status (try_begin_compile_txn task later after).1 task
                      ≡ Status.compiling)))
  reclaim-recovers history task lease most h =
      let s = run history Schema.empty in
      let (began, stamp) = compiling-has-lease history task h in
      (
        began + lease,
        λ now later late.
            let (_, status, _, attempts, _) =
              reclaim-releases task lease began now most s h stamp late in
            let after = (reclaim_stale_compile_txn task lease most now s).1 in
            (
              attempts,
              status,
              λ left.
                  claim_of_tracing task later after (let status' = rw left at status in status'),
            ),
      )
