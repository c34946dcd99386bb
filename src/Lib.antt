-- ===== src/Lib.antt =====
-- paw-kit: a model of paw_kit/jit, the part that turns a function that calls a large model (the
-- teacher) into a compiled adapter that serves in its place, and of paw_kit/test, the part that tests
-- adapters, compares them and repairs them with a teacher's labels.
--
-- How the parts interact. The decorator's wrapper (paw_kit/jit/decorator.py) reads how a task is
-- routed from the trace database (paw_kit/jit/db.py), lets the adapter or the teacher answer, records a
-- trace, and starts a compile (paw_kit/jit/compiler.py) once the task has enough traces. While a task is
-- in shadow or is audited, the wrapper hands jobs to the shadow runner (paw_kit/jit/shadow.py), whose
-- worker compares the two sides, records the comparison and promotes or demotes the task. Calls of an
-- adapter run in the pool of paw_kit/jit/deadline.py. A suite (paw_kit/test/suite.py) is run by
-- paw_kit/test/runner.py on its own cases and the fuzzer's: each output passes or fails the suite's
-- assertions and is compared with the case's answer key (paw_kit/test/matching.py). compare.py runs the
-- same cases through two adapters. active.py runs a suite, asks the teacher about the failing cases that
-- have an answer key, puts the labels that pass into the training set, compiles, and runs it again.
--
-- Which file models what:
-- Jit/Outcome: what a Python call comes to, a value or an exception by its class.
-- Jit/Db/Table, Jit/Db/Schema: the tables of TraceDB._init_db. A table is the list of its rows, newest
--   first, with the next identity; `prune` is the DELETE of the two prune methods.
-- Jit/Db/Tasks, Tasks/Compiles, Tasks/Promotion, Jit/Db/Pairs: the transactions of the methods of
--   TraceDB, the `_do` closures, each a function on the whole file, and the reads. Pairs/Report is
--   get_task_report.
-- Jit/Db/Op, Jit/Db/Ops: every write as one step, and a history of the processes that share a file as
--   a list of steps. Ops/Machine is the abstract specification, a row and a trail at a time; Ops/Refines
--   relates the two; Epochs, Races, Claims, Leases, Trail and Outage are about histories.
-- Jit/Db/Connection, Jit/Db/Session: a TraceDB object, with its prune clocks and listeners, and the
--   methods themselves: retry, the transaction, the prune after it, the listeners.
-- Jit/Shadow, with Queue, Judge, Transitions and Jobs: ShadowRunner: submit, the worker loop, the
--   verdict of _run_job, _maybe_transition, and the job as a whole.
-- Jit/Agreement: default_agreement_fn of paw_kit/jit/agreement.py. The nine levels that `compare` has are
--   the depths 0 to _MAX_AGREEMENT_DEPTH.
--   Agreement/Tolerance is field_tolerance_agreement.
-- Jit/Compiler: BackgroundCompiler.trigger_compilation and its worker.
-- Jit/Decorator: the wrapper, step by step as its comments number them.
-- Jit/Deadline: DeadlinePool, a step at a time.
-- Harness/Matching, Suite, Fuzzer, Reporting: paw_kit/test/matching.py, suite.py, fuzzer.py and
--   reporting.py. Matching/Sound has the relation that JSON equality stands for.
-- Harness/Assertions, Harness/Runner: evaluate_assertion and TestRunner.run of paw_kit/test/runner.py;
--   Runner/Report is TestRunReport and its properties, Runner/Balance and Runner/Loop the invariant of the
--   loop, Runner/Verdicts what a report says.
-- Harness/Compare: compare_adapters; Compare/Rows the lists of differing rows, Compare/Report the report,
--   Compare/Tally and Compare/Loop the invariant, Compare/Verdicts what the report says.
-- Harness/Active: the teacher query and the training set; Active/Rounds a round of queries,
--   Active/Learning run_active_learning_loop, Active/Labels, Training, Course and Results its proofs.
-- Harness/Judge: the verdicts and the report of paw_kit/test/judge.py; Judge/Diff its diff_verdicts,
--   Judge/Counted and Judge/Coverage their proofs. The regular expression of a reply is a parameter.
-- Harness/Integers, Harness/Texts: Python's integers against counts, and slices of a text.
-- Files/PathSafety, Files/AtomicWrite: paw_kit/pathsafety.py, and the write of paw_kit/atomicio.py as
--   steps that a crash or an exception may cut short.
-- Speclint, Speclint/Lint: lint_spec of paw_kit/speclint.py and its rules; Speclint/Rules their proof,
--   Speclint/Sets a lemma of it. The regular expressions are parameters.
-- Backend/Lineage: the history file of paw_kit/backend/manifest_lineage.py.
-- Tests: runs at concrete inputs. Prelude: what the modules share.
--
-- Conventions. The REAL columns and Python's floats are a type `F`, of which only the division of two
-- counts and two comparisons are used. Times are microseconds; the program compares ISO texts in UTC,
-- which are ordered as the times are. Answers are a type `A` with a shape and a text. A job's agreement
-- function, Pydantic models, redaction, the backend's compile and `json.loads` are parameters. A
-- transaction is one step, since SQLite's BEGIN IMMEDIATE lets one writer in; `faults` says which
-- attempts SQLite turns away. `retry` recurs on the number of attempts left, which starts at
-- _DB_RETRY_ATTEMPTS, 5: so it ends. All other recursion is on lists, or on the depth of a comparison.
-- `iterate` recurs on the iterations left, at most max_iterations, as the source's range does.
-- An exception is a value, and one that nothing catches ends the run it is in. A message of a failed
-- assertion is which text it is and what is printed in it. The backend of a run and the teacher are
-- functions on a state, so that their answers may depend on all that came before. In the shadow
-- runner's queues each part of `submit` that takes the lock or puts the job is a step of its own, and so is the
-- end of a job; the wrapper's own calls of `submit` run without another thread between the parts.
--
-- Not modelled: opening, migrating and protecting the file; reads of the database that fail on a
-- worker's thread; log levels; the threads' table of the compiler; exit handlers; input serialisation,
-- the cache of loaded adapters and the checks of the decorator's parameters;
-- the reading of suites and manifests from files; the percentages and the
-- client of the judge; paw_kit's schema and serve packages, its backends but for the history file, and
-- its command line; times.
pub mod Prelude
pub mod Jit
pub mod Harness
pub mod Files
pub mod Backend
pub mod Speclint
pub mod Tests
