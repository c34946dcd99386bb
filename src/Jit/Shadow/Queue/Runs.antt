-- ===== src/Jit/Shadow/Queue/Runs.antt =====
-- The queues of `ShadowRunner` in paw_kit/jit/shadow.py under callers and workers in any order. Each
-- part of a `submit`, a `get` and the `finally` of a job are a step.
use paw_toolkit.Prelude.{
  ℕ, ◌+◌, ◌-◌, ◌≤◌, ◌<◌, is_some, ap, get_or, ltb, ◌++◌, ◌≡◌, refl, Bool, true, false, Option, none,
  some, [], ◌∷◌, length, arith, str_eq_iff, str_eq_refl, length-append, Bool-cases, inl, inr, subst,
}
use paw_toolkit.Jit.Shadow.{Key, key_eq, set_at, ShadowJob, JobQueue, Runner, idle}
use paw_toolkit.Jit.Shadow.Queue.{
  create_queue, count_pending, put_nowait, drop_job, take_job, finish_job, jobs_of,
}

key_eq_sound : (a b : Key) → key_eq a b ≡ true → a ≡ b
key_eq_sound a b h = ground (arith, str_eq_iff a.db_path b.db_path, str_eq_iff a.task_id b.task_id)

abbrev pub in_hand : Bool → ℕ
in_hand true = 1
in_hand false = 0

key_eq_refl : (a : Key) → key_eq a a ≡ true
key_eq_refl a = ground (arith, str_eq_refl a.db_path, str_eq_refl a.task_id)

-- A runner, the keys whose worker has a job in hand, and how many callers of each key's `submit` have counted their
-- job and not put it yet, or found the queue full and still count it.
pub record Floor (F A : Type 0) : Type 0 where
  pub runner : Runner F A
  pub busy : Key → Bool
  pub entering : Key → ℕ
  pub leaving : Key → ℕ

module _ {F A : Type 0} where
  pub data Step (w : Floor F A) : Floor F A → Type 0 where
    ensures : (job : ShadowJob F A) → Step w (record w { runner = create_queue job w.runner })
    counts :
        (job : ShadowJob F A)
        → is_some (w.runner.queues job.key) ≡ true
        → Step w (record w {
          runner = count_pending job.key w.runner;
          entering = set_at w.entering job.key (w.entering job.key + 1);
        })
    puts :
        (job : ShadowJob F A) (q : JobQueue F A) (after : Runner F A)
        → w.runner.queues job.key ≡ some q
        → 0 < w.entering job.key
        → put_nowait job q w.runner ≡ some after
        → Step w (record w {
          runner = after;
          entering = set_at w.entering job.key (w.entering job.key - 1);
        })
    fills :
        (job : ShadowJob F A) (q : JobQueue F A)
        → w.runner.queues job.key ≡ some q
        → 0 < w.entering job.key
        → put_nowait job q w.runner ≡ none
        → Step w (record w {
          entering = set_at w.entering job.key (w.entering job.key - 1);
          leaving = set_at w.leaving job.key (w.leaving job.key + 1);
        })
    drops :
        (job : ShadowJob F A)
        → 0 < w.leaving job.key
        → Step w (record w {
          runner = drop_job job w.runner;
          leaving = set_at w.leaving job.key (w.leaving job.key - 1);
        })
    takes :
        (key : Key) (job : ShadowJob F A)
        → w.busy key ≡ false
        → (take_job key w.runner).0 ≡ some job
        → Step w (record w { runner = (take_job key w.runner).1; busy = set_at w.busy key true })
    finishes :
        (key : Key)
        → w.busy key ≡ true
        → Step w (record w { runner = finish_job key w.runner; busy = set_at w.busy key false })

  abbrev pub quiet : Floor F A
  quiet = record { runner = idle; busy = λ _. false; entering = λ _. 0; leaving = λ _. 0 }

  pub data Reach : Floor F A → Type 0 where
    start : Reach quiet
    later : {w v : Floor F A} → Reach w → Step w v → Reach v

  abbrev room : Option (JobQueue F A) → ℕ
  room none = 0
  room (some q) = q.maxsize

  -- At one key: every job that counts as pending waits, is in hand, or is one of a caller inside `submit`; and no
  -- queue is over its size.
  abbrev pub Sound : Floor F A → Key → Type 0
  Sound w key =
      (w.runner.pending key
        ≡ length (jobs_of w.runner key) + in_hand (w.busy key) + w.entering key + w.leaving key)
      × (length (jobs_of w.runner key) ≤ room (w.runner.queues key))

  abbrev pub IsSound : Floor F A → Type 0
  IsSound w = (key : Key) → Sound w key

  create_queue-Sound :
      (o : Option (JobQueue F A)) (w : Floor F A) (job : ShadowJob F A)
      → w.runner.queues job.key ≡ o
      → Sound w job.key
      → Sound (record w { runner = create_queue job w.runner }) job.key
  create_queue-Sound none w job h s = grind (arith, key_eq_refl job.key)
  create_queue-Sound (some q) w job h s = grind (arith, key_eq_refl job.key)

  -- The runner with a job at the end of its queue.
  abbrev with_job : ShadowJob F A → JobQueue F A → Runner F A → Runner F A
  with_job job q runner = record runner {
    queues = set_at runner.queues job.key (some (record q { jobs = q.jobs ++ (job ∷ []) }));
  }

  put_nowait-room :
      (job : ShadowJob F A) (q : JobQueue F A) (r after : Runner F A)
      → put_nowait job q r ≡ some after
      → (length q.jobs < q.maxsize) × (with_job job q r ≡ after)
  put_nowait-room job q r after put = elim (Bool-cases (ltb (length q.jobs) q.maxsize)) [
    | inl room ↦ let put' = rw room at put in (ground arith, ap (λ o. get_or o r) put')
    | inr full ↦ let put' = rw full at put in absurd (grind arith)
  ]

  with_job-Sound :
      (w : Floor F A) (job : ShadowJob F A) (q : JobQueue F A)
      → w.runner.queues job.key ≡ some q
      → 0 < w.entering job.key
      → length q.jobs < q.maxsize
      → Sound w job.key
      → Sound
          (record w {
            runner = with_job job q w.runner;
            entering = set_at w.entering job.key (w.entering job.key - 1);
          })
          job.key
  with_job-Sound w job q h on room s =
      grind (arith, key_eq_refl job.key, length-append q.jobs (job ∷ []))

  fills-Sound :
      (w : Floor F A) (key : Key)
      → 0 < w.entering key
      → Sound w key
      → Sound
          (record w {
            entering = set_at w.entering key (w.entering key - 1);
            leaving = set_at w.leaving key (w.leaving key + 1);
          })
          key
  fills-Sound w key on s = grind (arith, key_eq_refl key)

  drops-Sound :
      (w : Floor F A) (job : ShadowJob F A)
      → 0 < w.leaving job.key
      → Sound w job.key
      → Sound
          (record w {
            runner = drop_job job w.runner;
            leaving = set_at w.leaving job.key (w.leaving job.key - 1);
          })
          job.key
  drops-Sound w job on s = grind (arith, key_eq_refl job.key)

  counts-Sound :
      (w : Floor F A) (key : Key)
      → Sound w key
      → Sound
          (record w {
            runner = count_pending key w.runner;
            entering = set_at w.entering key (w.entering key + 1);
          })
          key
  counts-Sound w key s = grind (arith, key_eq_refl key)

  take_job-Sound :
      (o : Option (JobQueue F A)) (w : Floor F A) (key : Key) (job : ShadowJob F A)
      → w.runner.queues key ≡ o
      → w.busy key ≡ false
      → (take_job key w.runner).0 ≡ some job
      → Sound w key
      → Sound (record w { runner = (take_job key w.runner).1; busy = set_at w.busy key true }) key
  unfolding take_job
  take_job-Sound none w key job e free got s = grind (arith, key_eq_refl key)
  take_job-Sound (some q) w key job e free got s = grind (arith, key_eq_refl key)

  finish_job-Sound :
      (w : Floor F A) (key : Key)
      → w.busy key ≡ true
      → Sound w key
      → Sound (record w { runner = finish_job key w.runner; busy = set_at w.busy key false }) key
  unfolding finish_job
  finish_job-Sound w key held s = grind (arith, key_eq_refl key)

  -- A step changes what is about its own key.
  at_key :
      (v : Floor F A) (k key : Key) → Sound v k → (key_eq k key ≡ false → Sound v key) → Sound v key
  at_key v k key here there = elim (Bool-cases (key_eq k key)) [
    | inl same ↦ subst (Sound v) (key_eq_sound k key same) here
    | inr other ↦ there other
  ]

  Step-IsSound : {w v : Floor F A} → Step w v → IsSound w → IsSound v
  unfolding take_job finish_job
  Step-IsSound {w} (Step.ensures job) h key =
      at_key (record w { runner = create_queue job w.runner }) job.key key
        (create_queue-Sound (w.runner.queues job.key) w job refl (h job.key))
        λ other. ground (arith, h key)
  Step-IsSound {w} (Step.counts job made) h key =
      at_key
        (record w {
          runner = count_pending job.key w.runner;
          entering = set_at w.entering job.key (w.entering job.key + 1);
        })
        job.key key (counts-Sound w job.key (h job.key)) λ other. ground (arith, h key)
  Step-IsSound {w} (Step.puts job q after is on put) h key =
      let (room, made) = put_nowait-room job q w.runner after put in
      subst
        (λ r.
          Sound
            (record w { runner = r; entering = set_at w.entering job.key (w.entering job.key - 1) })
            key)
        made
        (at_key
          (record w {
            runner = with_job job q w.runner;
            entering = set_at w.entering job.key (w.entering job.key - 1);
          })
          job.key key (with_job-Sound w job q is on room (h job.key))
          λ other. ground (arith, h key))
  Step-IsSound {w} (Step.fills job q is on full) h key =
      at_key
        (record w {
          entering = set_at w.entering job.key (w.entering job.key - 1);
          leaving = set_at w.leaving job.key (w.leaving job.key + 1);
        })
        job.key key (fills-Sound w job.key on (h job.key)) λ other. ground (arith, h key)
  Step-IsSound {w} (Step.drops job on) h key =
      at_key
        (record w {
          runner = drop_job job w.runner;
          leaving = set_at w.leaving job.key (w.leaving job.key - 1);
        })
        job.key key (drops-Sound w job on (h job.key)) λ other. ground (arith, h key)
  Step-IsSound {w} (Step.takes k job free got) h key =
      at_key (record w { runner = (take_job k w.runner).1; busy = set_at w.busy k true }) k key
        (take_job-Sound (w.runner.queues k) w k job refl free got (h k))
        λ other. ground (arith, h key)
  Step-IsSound {w} (Step.finishes k held) h key =
      at_key (record w { runner = finish_job k w.runner; busy = set_at w.busy k false }) k key
        (finish_job-Sound w k held (h k)) λ other. ground (arith, h key)

  -- However the parts of submits and the workers interleave, from an idle runner, the pending count of each key is
  -- that of the jobs that wait, that are in hand, and that callers inside `submit` have counted; and no queue is
  -- over its size.
  pub Reach-IsSound : {w : Floor F A} → Reach w → IsSound w
  Reach-IsSound Reach.start = λ key. (refl, omega arith)
  Reach-IsSound (Reach.later r step) = Step-IsSound step (Reach-IsSound r)
