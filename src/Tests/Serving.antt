-- ===== src/Tests/Serving.antt =====
-- Calls of the wrapper of paw_kit/jit/decorator.py.
use paw_toolkit.Prelude.{ℕ, ◌≡◌, refl, false, none, some, [], ◌⊎◌, ◌==◌}
use paw_toolkit.Jit.Outcome.{ok, raised, deadline_exceeded}
use paw_toolkit.Jit.Db.Schema.{Status, Store, new_task}
use paw_toolkit.Jit.Shadow.{idle}
use paw_toolkit.Jit.Decorator.{Config, Events, World, route, wrapper}
use paw_toolkit.Jit.Decorator.Serving.{Returned, Served, wrapper-answers}
use paw_toolkit.Tests.Tables.{store_of, contended}
use paw_toolkit.Tests.Windows.{texts}

abbrev config : Config ℕ ℕ
config = record {
  key = record { db_path = "traces.db"; task_id = "t" };
  threshold = 3;
  response_model = none;
  agreement_fn = λ a b. ok (a == b);
  redact_fn = none;
  shadow_window = 2;
  audit_window = 2;
  shadow_threshold = 900;
  demote_threshold = 700;
  shadow_queue_size = 8;
  shadow_max_pairs = 100;
  sync_compile = false;
  lease = 600;
}

-- The adapter is late, and the teacher gives 7.
abbrev late : Events ℕ ℕ
late = record {
  input_payload = "in";
  routing_fault = none;
  rerouting_fault = none;
  status_fault = none;
  served = raised deadline_exceeded;
  served_ms = 5000;
  audits = false;
  teacher = ok 7;
  teacher_ms = 40;
  compiled = ok "t.paw";
  now = 9;
  nothing = 0;
}

abbrev world : Store ℕ → World ℕ ℕ
world s = record { session = contended [] s; runner = idle; fail_opens = 0 }

abbrev serving : World ℕ ℕ
serving =
    world (store_of (record (new_task 1) { status = Status.ready; adapter_path = some "t.paw" }))

abbrev tracing : World ℕ ℕ
tracing = world (store_of (new_task 1))

wrapper-answers_example :
    let (r, routed) = route texts config late serving in
    ((wrapper texts config late serving).0 ≡ ok 7)
    ⊎ (Returned texts config late 7 r routed (wrapper texts config late serving).0
        ⊎ Served texts config late (wrapper texts config late serving).0)
wrapper-answers_example = wrapper-answers texts config late serving 7 refl
