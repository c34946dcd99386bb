-- ===== src/Tests/Workers.antt =====
-- Runs of the queues of paw_kit/jit/shadow.py, the pool of paw_kit/jit/deadline.py and the compiler of
-- paw_kit/jit/compiler.py.
use paw_toolkit.Prelude.{ℕ, ◌+◌, ◌≤◌, ◌≡◌, refl, true, false, some, [], ◌∷◌, min, arith, lookup}
use paw_toolkit.Jit.Outcome.{ok, operational_error}
use paw_toolkit.Jit.Db.Schema.{Phase, new_task}
use paw_toolkit.Jit.Db.Tasks.{get_status, get_compile_attempts}
use paw_toolkit.Jit.Compiler.{max_compile_attempts}
use paw_toolkit.Jit.Compiler.Attempts.{status_at, triggers, triggers-bounded}
use paw_toolkit.Jit.Deadline.{Call, Pool, start, begin_call, take_call}
use paw_toolkit.Jit.Deadline.Slots.{
  Step, Reach, IsBalanced, Reach-IsBalanced, take_call-progress, begin_call-exhausted,
  end_call-early,
}
use paw_toolkit.Jit.Deadline.Slots
use paw_toolkit.Jit.Shadow.{idle, set_at}
use paw_toolkit.Jit.Shadow.Queue.{submit, count_pending}
use paw_toolkit.Jit.Shadow.Queue.Runs
use paw_toolkit.Jit.Shadow.Queue.Runs.{Floor, IsSound, Reach-IsSound}
use paw_toolkit.Tests.Tables.{store_of, contended}
use paw_toolkit.Tests.Windows.{job}

triggers-bounded_example :
    let after =
      (triggers false true "t" operational_error
        (5 ∷ 6 ∷ 7 ∷ 8 ∷ [])
        (contended [] (store_of (new_task 1)))).store in
    (get_compile_attempts after "t"
      ≡ min max_compile_attempts (get_compile_attempts (store_of (new_task 1)) "t" + 4))
    × (get_status after "t" ≡ status_at (get_compile_attempts after "t"))
unfolding get_status get_compile_attempts lookup
triggers-bounded_example =
    triggers-bounded false true "t" operational_error (5 ∷ 6 ∷ 7 ∷ 8 ∷ [])
      (contended [] (store_of (new_task 1))) refl refl (omega arith)

abbrev call : Call ℕ
call = record { number = 1; result = ok 7 }

abbrev next : Call ℕ
next = record { number = 2; result = ok 8 }

abbrev waiting : Pool ℕ
waiting = record {
  max_workers = 1;
  free = 0;
  queue = call ∷ [];
  running = [];
  leaving = 0;
  done = [];
}

abbrev busy : Pool ℕ
busy = record { max_workers = 1; free = 0; queue = []; running = call ∷ []; leaving = 0; done = [] }

to_waiting : Slots.Reach 1 waiting
unfolding start begin_call
to_waiting =
    Slots.Reach.later
      (Slots.Reach.started
        {p = record { max_workers = 1; free = 1; queue = []; running = []; leaving = 0; done = [] }}
        refl)
      (Slots.Step.begins call)

to_busy : Slots.Reach 1 busy
unfolding take_call
to_busy = Slots.Reach.later to_waiting (Slots.Step.takes refl)

Reach-IsBalanced_example : IsBalanced 1 busy
Reach-IsBalanced_example = Reach-IsBalanced to_busy

take_call-progress_example : take_call waiting ≡ some busy
take_call-progress_example = take_call-progress call [] to_waiting refl

-- A caller whose job is in the queue, one that has counted its job, and one that has only made the queue.
abbrev floor : Floor ℕ ℕ
floor = record Runs.quiet {
  runner = count_pending (job Phase.audit).key (submit (job Phase.audit) idle).1;
  entering =
      set_at (set_at (set_at (λ _. 0) (job Phase.audit).key 1) (job Phase.audit).key 0)
        (job Phase.audit).key 1;
}

to_floor : Runs.Reach floor
unfolding submit
to_floor =
    Runs.Reach.later
      (Runs.Reach.later
        (Runs.Reach.later (Runs.Reach.later Runs.Reach.start (Runs.Step.ensures (job Phase.audit)))
          (Runs.Step.counts (job Phase.audit) refl))
        (Runs.Step.puts (job Phase.audit) (record { maxsize = 2; jobs = [] })
          (submit (job Phase.audit) idle).1 refl (omega arith) refl))
      (Runs.Step.counts (job Phase.audit) refl)

Reach-IsSound_example : (floor.runner.pending (job Phase.audit).key ≡ 1 + 0 + 1 + 0) × (1 ≤ 2)
unfolding submit
Reach-IsSound_example = Reach-IsSound to_floor (job Phase.audit).key
