-- ===== src/Jit/Decorator.antt =====
-- The wrapper that `compile_on_hit` of paw_kit/jit/decorator.py makes. What lies outside is in an
-- `Events` value: the answers of the teacher and of the adapter (through the deadline pool), the audit
-- draw, the backend's compile, the reads of the database that raise, and the clock.
pub mod Serving
use paw_toolkit.Prelude.{
  ℕ, ◌+◌, String, Bool, true, false, not, ◌&&◌, Option, none, some, leb, ltb, ◌==◌, if◌then◌else◌,
}
use paw_toolkit.Jit.Outcome.{Error, Result, ok, raised}
use paw_toolkit.Jit.Db.Schema.{Status, Phase, status_eq}
use paw_toolkit.Jit.Db.Tasks.{get_task_routing, get_status}
use paw_toolkit.Jit.Db.Connection.{Session}
use paw_toolkit.Jit.Db.Session.{try_promote, record_trace, reclaim_stale_compile}
use paw_toolkit.Jit.Shadow.{Key, Answers, Model, ShadowJob, Runner, Kind, compare, fail_open}
use paw_toolkit.Jit.Shadow.Queue.{submit}
use paw_toolkit.Jit.Compiler.{trigger_compilation, max_compile_attempts}

-- The arguments of the decorator.
pub record Config (F A : Type 0) : Type 0 where
  pub key : Key
  pub threshold : ℕ
  pub response_model : Option (Model A)
  pub agreement_fn : A → A → Result Bool
  -- `redact_sensitive_text`, if traces are redacted.
  pub redact_fn : Option (String → String)
  pub shadow_window : ℕ
  pub audit_window : ℕ
  pub shadow_threshold : F
  pub demote_threshold : F
  pub shadow_queue_size : ℕ
  pub shadow_max_pairs : ℕ
  pub sync_compile : Bool
  -- `_COMPILE_LEASE_SECONDS`, in microseconds.
  pub lease : ℕ

pub record Events (F A : Type 0) : Type 0 where
  pub input_payload : String
  -- What the first, the second and the last read of the routing raise, if anything.
  pub routing_fault : Option Error
  pub rerouting_fault : Option Error
  pub status_fault : Option Error
  pub served : Result A
  pub served_ms : F
  pub audits : Bool
  pub teacher : Result A
  pub teacher_ms : F
  pub compiled : Result String
  pub now : ℕ
  -- Python's `None`.
  pub nothing : A

-- What the calls of one wrapper share.
pub record World (F A : Type 0) : Type 0 where
  pub session : Session F
  pub runner : Runner F A
  pub fail_opens : ℕ

-- `if adapter_path`
abbrev pub is_path : Option String → Bool
is_path none = false
is_path (some String.[]) = false
is_path (some _) = true

abbrev pub Routing : Type 0
Routing = Status × Option String × ℕ

module _ {F A : Type 0} (answers : Answers A) (config : Config F A) (events : Events F A) where
  abbrev job : Kind → Phase → ℕ → ShadowJob F A
  job kind phase epoch = record {
    key = config.key;
    kind = kind;
    state_epoch = epoch;
    phase = phase;
    input_payload = events.input_payload;
    teacher_output = none;
    teacher_latency_ms = none;
    adapter_output = none;
    adapter_latency_ms = none;
    raw_teacher = events.nothing;
    raw_adapter = events.nothing;
    response_model = config.response_model;
    agreement_fn = config.agreement_fn;
    redact_fn = config.redact_fn;
    shadow_window = config.shadow_window;
    audit_window = config.audit_window;
    shadow_threshold = config.shadow_threshold;
    demote_threshold = config.demote_threshold;
    max_pairs = config.shadow_max_pairs;
    queue_size = config.shadow_queue_size;
  }

  abbrev pub enqueue : ShadowJob F A → World F A → World F A
  enqueue j w = record w { runner = (submit j w.runner).1 }

  abbrev pub shadowing : Bool
  shadowing = ltb 0 config.shadow_window

  -- `_record_fail_open`
  abbrev pub record_fail_open : World F A → World F A
  record_fail_open w =
      let counted : World F A = record w { fail_opens = w.fail_opens + 1 } in
      if shadowing then enqueue (job fail_open Phase.fail_open 0) counted else counted

  -- Step 1: the routing, or `("tracing", None, 0)` after a fault.
  abbrev unrouted : World F A → Routing × World F A
  unrouted w = ((Status.tracing, none, 0), record_fail_open w)

  abbrev read_routing : Option Error → World F A → Routing × World F A
  read_routing none w = (get_task_routing w.session.store config.key.task_id, w)
  read_routing (some e) w = unrouted w

  -- The escape hatch: with shadow mode off, a task that was left in `shadow` is promoted.
  abbrev rescue : Routing → World F A → Routing × World F A
  rescue r w =
      if config.shadow_window == 0 && (status_eq r.0 Status.shadow && is_path r.1)
      then read_routing events.rerouting_fault (record w {
        session =
            (try_promote config.key.task_id r.2 none (some 0) (some "shadow_disabled") events.now
              w.session).1;
      })
      else (r, w)

  abbrev route_after : Option Error → World F A → Routing × World F A
  route_after none w = rescue (get_task_routing w.session.store config.key.task_id) w
  route_after (some e) w = unrouted w

  unfoldable pub route : World F A → Routing × World F A
  route w = route_after events.routing_fault w

  -- An audit of an answer that cannot be serialised is not submitted.
  abbrev audit : Result String → A → ℕ → World F A → World F A
  audit (raised e) value epoch w = w
  audit (ok text) value epoch w =
      enqueue
        (record (job compare Phase.audit epoch) {
          adapter_output = some text;
          raw_adapter = value;
          adapter_latency_ms = some events.served_ms;
        })
        w

  -- Step 2: the adapter serves. A failure falls back to the teacher, whatever that comes to.
  abbrev serve : Result A → ℕ → World F A → Result A × World F A
  serve (raised e) epoch w = (events.teacher, record_fail_open w)
  serve (ok value) epoch w = (
    ok value,
    if shadowing && events.audits then audit (answers.stringify_answer value) value epoch w else w,
  )

  abbrev redact_text : Option (String → String) → String → String
  redact_text none text = text
  redact_text (some f) text = f text

  -- Step 4
  abbrev count_of : World F A → Result ℕ × Session F → Option ℕ × World F A
  count_of w (ok n, σ) = (some n, record w { session = σ })
  count_of w (raised e, σ) = (none, record_fail_open (record w { session = σ }))

  unfoldable pub trace : String → World F A → Option ℕ × World F A
  trace text w = count_of w (
      record_trace config.key.task_id (redact_text config.redact_fn events.input_payload)
        (redact_text config.redact_fn text) events.teacher_ms events.now w.session)

  -- Step 5
  unfoldable pub shadow : Routing → String → A → World F A → World F A
  shadow r text value w =
      if status_eq r.0 Status.shadow && (shadowing && is_path r.1)
      then enqueue
          (record (job compare Phase.shadow r.2) {
            teacher_output = some text;
            raw_teacher = value;
            teacher_latency_ms = some events.teacher_ms;
          })
          w
      else w

  -- Step 6: the status that decides about a compile, after a stale lease was released.
  abbrev after_reclaim : World F A → Result Bool × Session F → Option Status × World F A
  after_reclaim w (ok true, σ) =
      (some (get_status σ.store config.key.task_id), record w { session = σ })
  after_reclaim w (ok false, σ) = (some Status.compiling, record w { session = σ })
  after_reclaim w (raised e, σ) =
      (some Status.compiling, record_fail_open (record w { session = σ }))

  abbrev reclaim : Status → World F A → Option Status × World F A
  reclaim Status.compiling w = after_reclaim w (
      reclaim_stale_compile config.key.task_id config.lease (some max_compile_attempts) events.now
        w.session)
  reclaim status w = (some status, w)

  abbrev status_after : Option Error → World F A → Option Status × World F A
  status_after none w = reclaim (get_status w.session.store config.key.task_id) w
  status_after (some e) w = (none, record_fail_open w)

  abbrev answer_after : A → World F A → Result Bool × Session F → Result A × World F A
  answer_after value w (ok started, σ) = (ok value, record w { session = σ })
  answer_after value w (raised e, σ) = (raised e, record w { session = σ })

  abbrev compile_if : A → Option Status → World F A → Result A × World F A
  compile_if value (some Status.tracing) w = answer_after value w (
      trigger_compilation config.sync_compile shadowing config.key.task_id events.compiled
        events.now w.session)
  compile_if value _ w = (ok value, w)

  abbrev crossed : Option ℕ → Bool
  crossed none = false
  crossed (some n) = leb config.threshold n

  abbrev compile_after : A → Option Status × World F A → Result A × World F A
  compile_after value (status, w) = compile_if value status w

  unfoldable pub maybe_compile : Option ℕ → A → World F A → Result A × World F A
  maybe_compile count value w =
      if crossed count
      then compile_after value (status_after events.status_fault w)
      else (ok value, w)

  -- From the serialisation of the teacher's answer on, which stands in no `try`.
  unfoldable pub teach_text : Result String → A → Routing → World F A → Result A × World F A
  unfolding trace shadow maybe_compile
  teach_text (raised e) value r w = (raised e, w)
  teach_text (ok text) value r w =
      let (count, traced) = trace text w in maybe_compile count value (shadow r text value traced)

  -- Steps 3 to 6. What the teacher raises reaches the caller.
  unfoldable pub teach : Result A → Routing → World F A → Result A × World F A
  unfolding teach_text
  teach (raised e) r w = (raised e, w)
  teach (ok value) r w = teach_text (answers.stringify_answer value) value r w

  unfoldable pub wrapper : World F A → Result A × World F A
  unfolding route teach
  wrapper w =
      let (r, routed) = route w in
      if status_eq r.0 Status.ready && is_path r.1
      then serve events.served r.2 routed
      else teach events.teacher r routed
