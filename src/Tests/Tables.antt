-- ===== src/Tests/Tables.antt =====
-- Runs on small tables of paw_kit/jit/db.py.
use paw_toolkit.Prelude.{
  ℕ, String, ◌≡◌, refl, Bool, true, false, none, some, List, [], ◌∷◌, lookup, upsert, take, str_eq,
  ◌<◌, ◌+◌, is_some, if◌then◌else◌, ltb,
}
use paw_toolkit.Jit.Outcome.{ok, raised, operational_error}
use paw_toolkit.Jit.Db.Table.{Table}
use paw_toolkit.Jit.Db.Schema.{Status, Task, Trace, Store, Transition, new_task}
use paw_toolkit.Jit.Db.Schema
use paw_toolkit.Jit.Db.Op.{Op}
use paw_toolkit.Jit.Db.Tasks.{get_status, get_compile_attempts}
use paw_toolkit.Jit.Db.Tasks.Compiles.{
  try_begin_compile_txn, reclaim_stale_compile_txn, increment_compile_attempts_txn, is_spent,
}
use paw_toolkit.Jit.Db.Tasks.Promotion.{try_promote_txn, try_demote_txn}
use paw_toolkit.Jit.Db.Ops.{apply, run}
use paw_toolkit.Jit.Db.Ops.Machine.{row_after, trail_after}
use paw_toolkit.Jit.Db.Ops.Refines.{trail, lookup-apply, trail-apply}
use paw_toolkit.Jit.Db.Ops.Epochs.{Grows, run-Grows}
use paw_toolkit.Jit.Db.Ops.Races.{try_promote-wins_once}
use paw_toolkit.Jit.Db.Ops.Claims.{try_begin_compile-wins_once}
use paw_toolkit.Jit.Db.Ops.Leases.{started_at, compiling-has-lease, reclaim-recovers}
use paw_toolkit.Jit.Db.Ops.Trail.{IsAudited, history-IsAudited}
use paw_toolkit.Jit.Db.Connection.{Session, with_write_retry}
use paw_toolkit.Jit.Db.Session.{try_begin_compile}
use paw_toolkit.Jit.Db.Session.Retries.{
  Outcome, contention, with_write_retry-once, with_write_retry_lem,
}
use paw_toolkit.Jit.Compiler.{trigger_compilation}
use paw_toolkit.Jit.Db.Session.Claims.{try_begin_compile-strands}

abbrev pub store_of : Task ℕ → Store ℕ
store_of row = record Schema.empty { tasks = ("t", row) ∷ [] }

abbrev in_shadow : Store ℕ
in_shadow =
    store_of
      (record (new_task 1) { status = Status.shadow; adapter_path = some "t.paw"; state_epoch = 3 })

abbrev in_service : Store ℕ
in_service =
    store_of
      (record (new_task 1) { status = Status.ready; adapter_path = some "t.paw"; state_epoch = 4 })

abbrev mid_compile : Store ℕ
mid_compile = store_of (record (new_task 1) {
  status = Status.compiling;
  state_epoch = 1;
  compiling_started_at = some 10;
})

-- Two processes that decide about a promotion at the same epoch.
abbrev rival : List (String × ℕ × Op ℕ)
rival = ("t", 6, Op.increment_fail_open) ∷ ("t", 7, Op.try_demote 4 (some 0) none none) ∷ []

abbrev life : List (String × ℕ × Op ℕ)
life =
    ("t", 1, Op.record_trace "in" "out" 5)
    ∷ ("t", 2, Op.try_begin_compile)
    ∷ ("t", 3, Op.set_shadow_started "t.paw")
    ∷ []

try_promote-wins_once_example :
    let s = run rival (try_promote_txn "t" 3 (some 9) (some 20) none 5 in_shadow).1 in
    (try_promote_txn "t" 3 (some 8) (some 20) none 8 s ≡ (false, s))
    × (try_demote_txn "t" 3 (some 8) (some 20) none 8 s ≡ (false, s))
unfolding try_promote_txn lookup
try_promote-wins_once_example =
    try_promote-wins_once "t" 3 (some 9) (some 20) none 5 in_shadow rival refl (some 8) (some 20)
      none 8

try_begin_compile-wins_once_example :
    let s = run rival (try_begin_compile_txn "t" 2 (store_of (new_task 1))).1 in
    try_begin_compile_txn "t" 8 s ≡ (none, s)
unfolding try_begin_compile_txn lookup upsert
try_begin_compile-wins_once_example =
    try_begin_compile-wins_once "t" 2 8 1 (store_of (new_task 1)) rival refl (refl, (refl, tt))

lookup-apply_example :
    lookup "t" (apply "t" 5 (Op.try_promote 3 (some 9) (some 20) none) in_shadow).tasks ≡ (
      if str_eq "t" "t"
      then row_after 5 (Op.try_promote 3 (some 9) (some 20) none) (lookup "t" in_shadow.tasks)
      else lookup "t" in_shadow.tasks)
lookup-apply_example = lookup-apply "t" "t" 5 (Op.try_promote 3 (some 9) (some 20) none) in_shadow

trail-apply_example :
    trail (apply "t" 5 (Op.try_promote 3 (some 9) (some 20) none) in_shadow) "t" ≡ (
      if str_eq "t" "t"
      then trail_after 5
          (Op.try_promote 3 (some 9) (some 20) none)
          (lookup "t" in_shadow.tasks)
          (trail in_shadow "t")
      else trail in_shadow "t")
trail-apply_example = trail-apply "t" "t" 5 (Op.try_promote 3 (some 9) (some 20) none) in_shadow tt

run-Grows_example : Grows (lookup "t" in_shadow.tasks) (lookup "t" (run rival in_shadow).tasks)
run-Grows_example = run-Grows "t" rival in_shadow

history-IsAudited_example : IsAudited (run life Schema.empty)
history-IsAudited_example = history-IsAudited life (tt, (tt, (tt, tt)))

compiling-has-lease_example :
    (began : ℕ) × (started_at (run (take 2 life) Schema.empty) "t" ≡ some began)
unfolding run apply lookup get_status upsert
compiling-has-lease_example = compiling-has-lease (take 2 life) "t" refl

reclaim-recovers_example :
    let s = run (take 2 life) Schema.empty in
    let spent = is_spent (some 3) (get_compile_attempts s "t" + 1) in
    (deadline : ℕ) × ((now later : ℕ)
      → deadline < now
      → let after = (reclaim_stale_compile_txn "t" 5 (some 3) now s).1 in
        (get_compile_attempts after "t" ≡ get_compile_attempts s "t" + 1)
        × (get_status after "t" ≡ (if spent then Status.failed else Status.tracing))
        × (spent ≡ false
            → (is_some (try_begin_compile_txn "t" later after).0 ≡ true)
              × (get_status (try_begin_compile_txn "t" later after).1 "t" ≡ Status.compiling)))
unfolding run apply lookup get_status upsert
reclaim-recovers_example = reclaim-recovers (take 2 life) "t" 5 (some 3) refl

abbrev entry : ℕ → Trace ℕ
entry n = record { input_payload = "in"; teacher_output = "out"; latency_ms = n; timestamp = n }

abbrev traces : Table (Trace ℕ)
traces = record {
  next_id = 4;
  rows =
      record { id = 3; task_id = "t"; value = entry 7 }
      ∷ record { id = 2; task_id = "u"; value = entry 6 }
      ∷ record { id = 1; task_id = "t"; value = entry 5 }
      ∷ [];
}

-- A file that turns away the first two attempts.
abbrev pub contended : List Bool → Store ℕ → Session ℕ
contended faults s = record {
  store = s;
  faults = faults;
  shadow_pair_writes = λ _. 0;
  transition_writes = λ _. 49;
  notified = [];
}

with_write_retry-once_example :
    Outcome (increment_compile_attempts_txn "t" 6) (contended (true ∷ true ∷ []) in_shadow) (
      with_write_retry
        (increment_compile_attempts_txn "t" 6)
        (contended (true ∷ true ∷ []) in_shadow))
with_write_retry-once_example =
    with_write_retry-once (increment_compile_attempts_txn "t" 6)
      (contended (true ∷ true ∷ []) in_shadow)

with_write_retry_lem_example :
    (with_write_retry
      (increment_compile_attempts_txn "t" 6)
      (contended (true ∷ true ∷ []) in_shadow)).0
    ≡ (if ltb (contention (true ∷ true ∷ [])) 5
        then ok (increment_compile_attempts_txn "t" 6 in_shadow).0
        else raised operational_error)
with_write_retry_lem_example =
    with_write_retry_lem (increment_compile_attempts_txn "t" 6)
      (contended (true ∷ true ∷ []) in_shadow)

abbrev locked : List Bool
locked = false ∷ true ∷ true ∷ true ∷ true ∷ true ∷ []

try_begin_compile-strands_example :
    let after = try_begin_compile "t" 6 (contended locked (store_of (new_task 1))) in
    (after.0 ≡ raised operational_error)
    × (get_status after.1.store "t" ≡ Status.compiling)
    × (after.1.notified ≡ [])
    × (trigger_compilation true true "t" (ok "t.paw") 6 (contended locked (store_of (new_task 1)))
        ≡ (raised operational_error, after.1))
unfolding get_status lookup
try_begin_compile-strands_example =
    try_begin_compile-strands "t" 6 (contended locked (store_of (new_task 1))) [] true true
      (ok "t.paw") refl refl refl
