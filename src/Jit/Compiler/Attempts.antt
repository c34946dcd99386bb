-- ===== src/Jit/Compiler/Attempts.antt =====
-- The bound on the compiles of a task in paw_kit/jit/compiler.py.
use paw_toolkit.Prelude.{
  ℕ, min, length, ◌+◌, ◌≤◌, String, ◌≡◌, refl, Bool, true, false, Option, none, List, [], ◌∷◌,
  arith, ltb, Bool-cases, inl, inr, if◌then◌else◌, is_some, lookup-upsert, str_eq_refl,
}
use paw_toolkit.Jit.Outcome.{Error, Result, ok, raised}
use paw_toolkit.Jit.Db.Schema.{Status, Store}
use paw_toolkit.Jit.Db.Tasks.{get_compile_attempts, get_status}
use paw_toolkit.Jit.Db.Tasks.{set_status_txn}
use paw_toolkit.Jit.Db.Tasks.Compiles.{increment_compile_attempts_txn, try_begin_compile_txn}
use paw_toolkit.Jit.Db.Ops.{prune_transitions}
use paw_toolkit.Jit.Db.Connection.{Session, continue, retry, note_transition, notify}
use paw_toolkit.Jit.Compiler.{
  max_compile_attempts, after_failure, on_failure, worker, launch, trigger_compilation,
}
use paw_toolkit.Jit.Db.Session.{set_status, try_begin_compile, increment_compile_attempts}

-- The status after a number of failures
abbrev pub status_at : ℕ → Status
status_at attempts = if ltb attempts max_compile_attempts then Status.tracing else Status.failed

module _ {F : Type 0} where
  -- What a method leaves of a task when no attempt at a write is turned away.
  abbrev Left : {R : Type 0} → String → R → Status → ℕ → Result R × Session F → Type 0
  Left task value status attempts (r, σ) =
      (r ≡ ok value)
      × (σ.faults ≡ [])
      × (get_status σ.store task ≡ status)
      × (get_compile_attempts σ.store task ≡ attempts)

  increment_compile_attempts-Left :
      (task : String) (now : ℕ) (σ : Session F)
      → σ.faults ≡ []
      → let attempts = get_compile_attempts σ.store task + 1 in
        Left task attempts
          (get_status σ.store task)
          attempts
          (increment_compile_attempts task now σ)
  unfolding increment_compile_attempts retry increment_compile_attempts_txn get_compile_attempts
      get_status
  increment_compile_attempts-Left task now σ quiet =
      rw quiet (grind (arith, lookup-upsert, str_eq_refl))

  set_status_txn-row :
      (task : String) (status : Status) (path : Option String) (now : ℕ) (s : Store F)
      → let after = (set_status_txn task status path now s).1 in
        (get_status after task ≡ status)
        × (get_compile_attempts after task ≡ get_compile_attempts s task)
  unfolding set_status_txn get_compile_attempts get_status
  set_status_txn-row task status path now s = grind (arith, lookup-upsert, str_eq_refl)

  set_status-Left :
      (task : String) (status : Status) (path : Option String) (now : ℕ) (σ : Session F)
      → σ.faults ≡ []
      → Left task tt status (get_compile_attempts σ.store task) (set_status task status path now σ)
  unfolding set_status retry prune_transitions get_compile_attempts get_status note_transition
      notify
  set_status-Left task status path now σ quiet =
      rw quiet (ground (arith, set_status_txn-row task status path now σ.store))

  try_begin_compile_txn-row :
      (task : String) (now : ℕ) (s : Store F)
      → get_status s task ≡ Status.tracing
      → let (won, after) = try_begin_compile_txn task now s in
        (is_some won ≡ true)
        × (get_status after task ≡ Status.compiling)
        × (get_compile_attempts after task ≡ get_compile_attempts s task)
  unfolding try_begin_compile_txn get_compile_attempts get_status
  try_begin_compile_txn-row task now s h = grind (arith, lookup-upsert, str_eq_refl)

  try_begin_compile-Left :
      (task : String) (now : ℕ) (σ : Session F)
      → σ.faults ≡ []
      → get_status σ.store task ≡ Status.tracing
      → Left task true Status.compiling
          (get_compile_attempts σ.store task)
          (try_begin_compile task now σ)
  unfolding try_begin_compile retry prune_transitions get_compile_attempts get_status
      note_transition notify
  try_begin_compile-Left task now σ quiet h =
      rw quiet (ground (arith, try_begin_compile_txn-row task now σ.store h))

  advance-Left :
      (task : String) (now attempts : ℕ) (status : Status) (p : Result ℕ × Session F)
      → Left task (attempts + 1) status (attempts + 1) p
      → Left task tt
          (status_at (attempts + 1))
          (attempts + 1)
          (continue p λ n. set_status task (after_failure attempts n) none now)
  advance-Left task now attempts status (raised e, τ) (r, _, _, _) = absurd (grind arith)
  advance-Left task now attempts status (ok n, τ) (r, quiet, _, count) =
      let same : n ≡ attempts + 1 = grind arith in
      ground (arith, set_status-Left task (after_failure attempts n) none now τ quiet)

  on_failure-Left :
      (task : String) (now : ℕ) (σ : Session F)
      → σ.faults ≡ []
      → let attempts = get_compile_attempts σ.store task + 1 in
        Left task tt (status_at attempts) attempts (on_failure task now σ)
  unfolding on_failure
  on_failure-Left task now σ quiet =
      advance-Left task now (get_compile_attempts σ.store task) (get_status σ.store task)
        (increment_compile_attempts task now σ) (increment_compile_attempts-Left task now σ quiet)

  worker-Left :
      (shadowing : Bool) (task : String) (e : Error) (now : ℕ) (p : Result Bool × Session F)
      (attempts : ℕ)
      → Left task true Status.compiling attempts p
      → Left task false
          (status_at (attempts + 1))
          (attempts + 1)
          (continue p (launch true shadowing task (raised e) now))
  unfolding worker
  worker-Left shadowing task e now (raised _, τ) attempts (r, _, _, _) = absurd (grind arith)
  worker-Left shadowing task e now (ok false, τ) attempts (r, _, _, _) = absurd (grind arith)
  worker-Left shadowing task e now (ok true, τ) attempts (r, quiet, _, count) =
      ground (arith, on_failure-Left task now τ quiet)

  trigger_compilation-Left :
      (shadowing : Bool) (task : String) (e : Error) (now : ℕ) (σ : Session F)
      → σ.faults ≡ []
      → get_status σ.store task ≡ Status.tracing
      → let attempts = get_compile_attempts σ.store task + 1 in
        Left task false
          (status_at attempts)
          attempts
          (trigger_compilation true shadowing task (raised e) now σ)
  unfolding trigger_compilation
  trigger_compilation-Left shadowing task e now σ quiet h =
      worker-Left shadowing task e now (try_begin_compile task now σ)
        (get_compile_attempts σ.store task) (try_begin_compile-Left task now σ quiet h)

  try_begin_compile_txn-failed :
      (task : String) (now : ℕ) (s : Store F)
      → get_status s task ≡ Status.failed
      → try_begin_compile_txn task now s ≡ (none, s)
  unfolding try_begin_compile_txn get_status
  try_begin_compile_txn-failed task now s h = ground arith

  -- The thread that a trigger started has run to its end. A trigger that started none is left as it is.
  abbrev pub after_thread : Bool → String → Error → ℕ → Result Bool × Session F → Session F
  after_thread shadowing task e now (ok true, σ) = (worker shadowing task (raised e) now σ).1
  after_thread shadowing task e now (_, σ) = σ

  abbrev pub attempt : Bool → Bool → String → Error → ℕ → Session F → Session F
  attempt sync shadowing task e now σ =
      after_thread shadowing task e now (trigger_compilation sync shadowing task (raised e) now σ)

  -- What is left of a task, whatever the method answered.
  abbrev Held : String → Status → ℕ → Session F → Type 0
  Held task status attempts σ =
      (σ.faults ≡ [])
      × (get_status σ.store task ≡ status)
      × (get_compile_attempts σ.store task ≡ attempts)

  no_thread :
      (shadowing : Bool) (task : String) (e : Error) (now : ℕ) (status : Status) (attempts : ℕ)
      (p : Result Bool × Session F)
      → Left task false status attempts p
      → Held task status attempts (after_thread shadowing task e now p)
  no_thread shadowing task e now status attempts (ok false, σ) (_, quiet, status', count) =
      (quiet, status', count)
  no_thread shadowing task e now status attempts (ok true, σ) (r, _, _, _) = absurd (grind arith)
  no_thread shadowing task e now status attempts (raised _, σ) (r, _, _, _) = absurd (grind arith)

  thread-Held :
      (shadowing : Bool) (task : String) (e : Error) (now attempts : ℕ)
      (p : Result Bool × Session F)
      → Left task true Status.compiling attempts p
      → Held task (status_at (attempts + 1)) (attempts + 1) (
          after_thread shadowing task e now
            (continue p (launch false shadowing task (raised e) now)))
  unfolding worker
  thread-Held shadowing task e now attempts (raised _, τ) (r, _, _, _) = absurd (grind arith)
  thread-Held shadowing task e now attempts (ok false, τ) (r, _, _, _) = absurd (grind arith)
  thread-Held shadowing task e now attempts (ok true, τ) (r, quiet, _, count) =
      ground (arith, on_failure-Left task now τ quiet)

  attempt-Held :
      (sync shadowing : Bool) (task : String) (e : Error) (now : ℕ) (σ : Session F)
      → σ.faults ≡ []
      → get_status σ.store task ≡ Status.tracing
      → let attempts = get_compile_attempts σ.store task + 1 in
        Held task (status_at attempts) attempts (attempt sync shadowing task e now σ)
  unfolding trigger_compilation
  attempt-Held true shadowing task e now σ quiet h =
      no_thread shadowing task e now _ _ _ (trigger_compilation-Left shadowing task e now σ quiet h)
  attempt-Held false shadowing task e now σ quiet h =
      thread-Held shadowing task e now (get_compile_attempts σ.store task)
        (try_begin_compile task now σ) (try_begin_compile-Left task now σ quiet h)

  attempt-failed :
      (sync shadowing : Bool) (task : String) (e : Error) (now : ℕ) (σ : Session F)
      → σ.faults ≡ []
      → get_status σ.store task ≡ Status.failed
      → attempt sync shadowing task e now σ ≡ record σ { faults = [] }
  unfolding trigger_compilation try_begin_compile retry
  attempt-failed sync shadowing task e now σ quiet h =
      rw (quiet, try_begin_compile_txn-failed task now σ.store h) refl

  -- A trigger at each of some times, with a backend that always raises. A thread that a trigger starts ends
  -- before the next trigger.
  abbrev pub triggers : Bool → Bool → String → Error → List ℕ → Session F → Session F
  triggers sync shadowing task e [] σ = σ
  triggers sync shadowing task e (now ∷ times) σ =
      triggers sync shadowing task e times (attempt sync shadowing task e now σ)

  -- With a backend that always raises, compiles that run at once or in a thread that ends before the next trigger,
  -- no attempt at a write turned away, and a task that is `tracing` with less than three failures, or `failed`
  -- with three: each trigger counts one failure until there are three, and the task is `failed` from then on,
  -- however often a compile is triggered.
  pub triggers-bounded :
      (sync shadowing : Bool) (task : String) (e : Error) (times : List ℕ) (σ : Session F)
      → σ.faults ≡ []
      → get_status σ.store task ≡ status_at (get_compile_attempts σ.store task)
      → get_compile_attempts σ.store task ≤ max_compile_attempts
      → let after = (triggers sync shadowing task e times σ).store in
        (get_compile_attempts after task
          ≡ min max_compile_attempts (get_compile_attempts σ.store task + length times))
        × (get_status after task ≡ status_at (get_compile_attempts after task))
  triggers-bounded sync shadowing task e [] σ quiet h most = (omega arith, h)
  triggers-bounded sync shadowing task e (now ∷ times) σ quiet h most =
      elim (Bool-cases (ltb (get_compile_attempts σ.store task) 3)) [
        | inl few ↦
            let left = attempt-Held sync shadowing task e now σ quiet (ground arith) in
            ground (
              arith,
              left,
              triggers-bounded sync shadowing task e times (attempt sync shadowing task e now σ)
                  (ground (arith, left)) (ground (arith, left)) (ground (arith, left)),
            )
        | inr spent ↦
            let stays = attempt-failed sync shadowing task e now σ quiet (ground arith) in
            rw (triggers, stays)
              (ground (
                arith,
                triggers-bounded sync shadowing task e times (record σ { faults = [] }) refl h most,
              ))
      ]
