-- ===== src/Jit/Deadline.antt =====
-- `DeadlinePool` of paw_kit/jit/deadline.py. A call is known by its number. What a worker holds, and the
-- calls that wait in the queue, are those of the pool's threads; a caller that stops waiting leaves
-- both as they are.
pub mod Slots
use paw_toolkit.Prelude.{
  ℕ, zero, suc, ◌+◌, ◌-◌, Bool, true, false, Option, none, some, List, [], ◌∷◌, ◌++◌, length, ltb,
  ◌==◌, filter, not, if◌then◌else◌,
}
use paw_toolkit.Jit.Outcome.{Error, Result, ok, raised, pool_exhausted, deadline_exceeded}

-- A call that was put into the queue: its number and what its function comes to.
pub record Call (A : Type 0) : Type 0 where
  pub number : ℕ
  pub result : Result A

pub record Pool (A : Type 0) : Type 0 where
  pub max_workers : ℕ
  -- The value of the semaphore `_free`.
  pub free : ℕ
  pub queue : List (Call A)
  -- The calls that workers are running.
  pub running : List (Call A)
  -- The workers between `done.set()` and `_free.release()`.
  pub leaving : ℕ
  -- The calls whose `done` event is set.
  pub done : List (Call A)

module _ {A : Type 0} where
  -- `__init__`, which raises ValueError below one worker.
  unfoldable pub start : ℕ → Option (Pool A)
  start workers =
      if ltb workers 1
      then none
      else some (record {
        max_workers = workers;
        free = workers;
        queue = [];
        running = [];
        leaving = 0;
        done = [];
      })

  -- `call` up to the wait: a slot is taken and the call queued, or there is none.
  unfoldable pub begin_call : Call A → Pool A → Result (Unit {0}) × Pool A
  begin_call c p = elim p.free [
    | zero ↦ (raised pool_exhausted, p)
    | suc n ↦ (ok tt, record p { free = n; queue = p.queue ++ c ∷ [] })
  ]

  abbrev taken : List (Call A) → Pool A → Option (Pool A)
  taken [] p = none
  taken (c ∷ rest) p = some (record p { queue = rest; running = c ∷ p.running })

  -- A worker that is idle takes the next call. Otherwise none does.
  unfoldable pub take_call : Pool A → Option (Pool A)
  take_call p = if ltb (length p.running + p.leaving) p.max_workers then taken p.queue p else none

  abbrev find : ℕ → List (Call A) → Option (Call A × List (Call A))
  find n [] = none
  find n (c ∷ cs) =
      if c.number == n
      then some (c, cs)
      else elim (find n cs) [ none ↦ none | some hit ↦ some (hit.0, c ∷ hit.1) ]

  abbrev answered : Option (Call A × List (Call A)) → Pool A → Option (Pool A)
  answered none p = none
  answered (some (c, rest)) p =
      some (record p { running = rest; leaving = p.leaving + 1; done = c ∷ p.done })

  -- A worker's function has returned or raised: `done.set()`.
  unfoldable pub set_done : ℕ → Pool A → Option (Pool A)
  set_done n p = answered (find n p.running) p

  -- `_free.release()`, where a worker has come so far.
  unfoldable pub release : Pool A → Option (Pool A)
  release p = elim p.leaving [
    | zero ↦ none
    | suc n ↦ some (record p { leaving = n; free = p.free + 1 })
  ]

  abbrev answer : Option (Call A × List (Call A)) → Result A
  answer none = raised deadline_exceeded
  answer (some hit) = hit.0.result

  -- The end of `call`, when the wait is over.
  unfoldable pub end_call : ℕ → Pool A → Result A
  end_call n p = answer (find n p.done)
