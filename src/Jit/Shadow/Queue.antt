-- ===== src/Jit/Shadow/Queue.antt =====
-- The queues of `ShadowRunner` in paw_kit/jit/shadow.py: `submit` and `submit_fail_open` on the
-- caller's thread, `_worker_loop` on the worker's.
pub mod Runs
use paw_toolkit.Prelude.{
  ℕ, ◌+◌, ◌-◌, Bool, true, false, ◌&&◌, Option, none, some, get_or, List, [], ◌∷◌, ◌++◌, length,
  ltb, max, if◌then◌else◌,
}
use paw_toolkit.Jit.Db.Schema.{Phase, phase_eq}
use paw_toolkit.Jit.Shadow.{Key, key_eq, set_at, ShadowJob, JobQueue, Runner}

abbrev count_drop : Key → Phase → (Key → Phase → ℕ) → Key → Phase → ℕ
count_drop key phase dropped k p =
    if key_eq key k && phase_eq phase p then dropped k p + 1 else dropped k p

module _ {F A : Type 0} where
  -- `_ensure_worker`: the first job of a key fixes the size of its queue.
  abbrev pub ensure_queue : ShadowJob F A → Option (JobQueue F A) → JobQueue F A
  ensure_queue job none = record { maxsize = max 1 job.queue_size; jobs = [] }
  ensure_queue job (some q) = q

  -- The parts of a `submit` between which other threads may run: the queue is made, under the lock; the job
  -- counts as pending, under the lock; it is put, or the queue is full; and a dropped job no longer counts, under
  -- the lock.
  abbrev pub create_queue : ShadowJob F A → Runner F A → Runner F A
  create_queue job runner = record runner {
    queues = set_at runner.queues job.key (some (ensure_queue job (runner.queues job.key)));
  }

  abbrev pub count_pending : Key → Runner F A → Runner F A
  count_pending key runner = record runner {
    pending = set_at runner.pending key (runner.pending key + 1);
  }

  -- `q.put_nowait(job)`: nothing, where it raises `queue.Full`.
  abbrev pub put_nowait : ShadowJob F A → JobQueue F A → Runner F A → Option (Runner F A)
  put_nowait job q runner =
      if ltb (length q.jobs) q.maxsize
      then some (record runner {
        queues = set_at runner.queues job.key (some (record q { jobs = q.jobs ++ (job ∷ []) }));
      })
      else none

  abbrev pub drop_job : ShadowJob F A → Runner F A → Runner F A
  drop_job job runner = record runner {
    pending = set_at runner.pending job.key (runner.pending job.key - 1);
    dropped = count_drop job.key job.phase runner.dropped;
  }

  abbrev after_put : ShadowJob F A → Runner F A → Option (Runner F A) → Bool × Runner F A
  after_put job runner (some put) = (true, put)
  after_put job runner none = (false, drop_job job runner)

  -- A `submit` with no other thread between its parts. Whether the job was taken in: a full queue drops the new
  -- job.
  unfoldable pub submit : ShadowJob F A → Runner F A → Bool × Runner F A
  submit job runner =
      let counted = count_pending job.key (create_queue job runner) in
      after_put job counted (put_nowait job (ensure_queue job (runner.queues job.key)) counted)

  abbrev first_of_queue :
      Key → Option (JobQueue F A) → Runner F A → Option (ShadowJob F A) × Runner F A
  first_of_queue key none runner = (none, runner)
  first_of_queue key (some q) runner = elim q.jobs [
    | [] ↦ (none, runner)
    | job ∷ rest ↦ (
      some job,
      record runner { queues = set_at runner.queues key (some (record q { jobs = rest })) },
    )
  ]

  -- `q.get`, where there is a job.
  unfoldable pub take_job : Key → Runner F A → Option (ShadowJob F A) × Runner F A
  take_job key runner = first_of_queue key (runner.queues key) runner

  -- `finally:` after a job has run, or has raised.
  unfoldable pub finish_job : Key → Runner F A → Runner F A
  finish_job key runner = record runner {
    pending = set_at runner.pending key (runner.pending key - 1);
  }

  abbrev pub jobs_of : Runner F A → Key → List (ShadowJob F A)
  jobs_of runner key = elim (runner.queues key) [ none ↦ [] | some q ↦ q.jobs ]
