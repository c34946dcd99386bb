-- ===== src/Jit/Decorator/Serving.antt =====
-- Who answers a call of the wrapper of paw_kit/jit/decorator.py.
use paw_toolkit.Prelude.{
  String, ◌<◌, ◌≡◌, refl, sym, subst, Bool, true, false, ◌&&◌, Option, none, some, arith, ◌⊎◌, inl,
  inr, Bool-cases,
}
use paw_toolkit.Jit.Outcome.{Error, Result, ok, raised}
use paw_toolkit.Jit.Db.Schema.{Status, status_eq}
use paw_toolkit.Jit.Db.Tasks.{get_task_routing, get_status}
use paw_toolkit.Jit.Db.Connection.{Session}
use paw_toolkit.Jit.Shadow.{Answers}
use paw_toolkit.Jit.Compiler.{trigger_compilation}
use paw_toolkit.Jit.Decorator.{
  Config, Events, World, Routing, shadowing, maybe_compile, teach, route, wrapper, trace, shadow,
  teach_text, answer_after, compile_if, crossed, status_after, serve, is_path,
}

module _ {F A : Type 0} (answers : Answers A) (config : Config F A) (events : Events F A) where
  -- The start of a compile, from a session.
  abbrev pub start_compile : Session F → Result Bool × Session F
  start_compile σ =
      trigger_compilation config.sync_compile (shadowing answers config events) config.key.task_id
        events.compiled events.now σ

  -- What step 6 finds after the answer `v` was traced as `text`: the status, and the state with it.
  abbrev pub at_compile : String → A → Routing → World F A → Option Status × World F A
  at_compile text v r w =
      status_after answers config events events.status_fault
        (shadow answers config events r text v (trace answers config events text w).1)

  -- The call comes to the value, or to what the start of a compile raised: of a task that is `tracing` and
  -- has its traces.
  abbrev pub Traced : String → A → Routing → World F A → Result A → Type 0
  Traced text v r w res =
      (res ≡ ok v)
      ⊎ ((crossed answers config events (trace answers config events text w).0 ≡ true)
          × ((at_compile text v r w).0 ≡ some Status.tracing)
          × ((e : Error) × ((start_compile (at_compile text v r w).1.session).0 ≡ raised e)
              × (res ≡ raised e)))

  -- A call that the teacher answers: its answer has a text, and the call was traced with it, or the
  -- serialisation of the answer raised, and so did the call.
  abbrev pub Returned : A → Routing → World F A → Result A → Type 0
  Returned v r w res =
      ((text : String) × ((answers.stringify_answer v ≡ ok text) × Traced text v r w res))
      ⊎ ((e : Error) × ((answers.stringify_answer v ≡ raised e) × (res ≡ raised e)))

  answer_after-cases :
      (v : A) (w : World F A) (p : Result Bool × Session F)
      → ((answer_after answers config events v w p).0 ≡ ok v)
        ⊎ ((e : Error) × (p.0 ≡ raised e)
            × ((answer_after answers config events v w p).0 ≡ raised e))
  answer_after-cases v w (ok started, τ) = inl refl
  answer_after-cases v w (raised e, τ) = inr (e, refl, refl)

  compile_if-cases :
      (v : A) (status : Option Status) (w : World F A)
      → ((compile_if answers config events v status w).0 ≡ ok v)
        ⊎ ((status ≡ some Status.tracing)
            × ((e : Error) × ((start_compile w.session).0 ≡ raised e)
                × ((compile_if answers config events v status w).0 ≡ raised e)))
  compile_if-cases v (some Status.tracing) w =
      elim (answer_after-cases v w (start_compile w.session)) [
        | inl fine ↦ inl fine
        | inr bad ↦ inr (refl, bad)
      ]
  compile_if-cases v none w = inl refl
  compile_if-cases v _ w = inl refl

  teach_text-Traced :
      (text : String) (v : A) (r : Routing) (w : World F A)
      → Traced text v r w (teach_text answers config events (ok text) v r w).0
  unfolding teach_text maybe_compile
  teach_text-Traced text v r w =
      let found = at_compile text v r w in
      elim (Bool-cases (crossed answers config events (trace answers config events text w).0)) [
        | inl over ↦ rw over (elim (compile_if-cases v found.0 found.1) [
          | inl fine ↦ inl fine
          | inr (status, bad) ↦ inr (refl, status, bad)
        ])
        | inr under ↦ rw under (inl refl)
      ]

  teach_text-Returned :
      (t : Result String) (v : A) (r : Routing) (w : World F A)
      → answers.stringify_answer v ≡ t
      → Returned v r w (teach_text answers config events t v r w).0
  unfolding teach_text
  teach_text-Returned (ok text) v r w h = inl (text, (h, teach_text-Traced text v r w))
  teach_text-Returned (raised e) v r w h = inr (e, (h, refl))

  teach-Returned :
      (v : A) (r : Routing) (w : World F A)
      → Returned v r w (teach answers config events (ok v) r w).0
  unfolding teach
  teach-Returned v r w = teach_text-Returned (answers.stringify_answer v) v r w refl

  teacher-Returned :
      (v : A) (r : Routing) (w : World F A)
      → events.teacher ≡ ok v
      → Returned v r w (teach answers config events events.teacher r w).0
  teacher-Returned v r w h =
      subst (λ t. Returned v r w (teach answers config events t r w).0) (sym h)
        (teach-Returned v r w)

  -- The adapter's own answer to the call.
  abbrev pub Served : Result A → Type 0
  Served r = (a : A) × (events.served ≡ ok a) × (r ≡ ok a)

  serve-answers :
      (v : A) (served : Result A) (r : Routing) (w : World F A)
      → events.teacher ≡ ok v
      → events.served ≡ served
      → ((serve answers config events served r.2 w).0 ≡ ok v)
        ⊎ Served (serve answers config events served r.2 w).0
  serve-answers v (ok a) r w h q = inr (a, q, refl)
  serve-answers v (raised e) r w h q = inl h

  -- Fail-open: when the teacher can answer, a call returns the teacher's answer or the adapter's,
  -- whatever the database, the adapter and the audit do, unless the serialisation of the teacher's answer
  -- raises, or the start of a compile does, of a task that is `tracing` and has as many traces as the
  -- threshold.
  pub wrapper-answers :
      (w : World F A) (v : A)
      → events.teacher ≡ ok v
      → let (r, routed) = route answers config events w in
        ((wrapper answers config events w).0 ≡ ok v)
        ⊎ (Returned v r routed (wrapper answers config events w).0
            ⊎ Served (wrapper answers config events w).0)
  unfolding wrapper
  wrapper-answers w v h =
      let (r, routed) = route answers config events w in
      elim (Bool-cases (status_eq r.0 Status.ready && is_path r.1)) [
        | inl serves ↦ rw serves (elim (serve-answers v events.served r routed h refl) [
          | inl fell_open ↦ inl fell_open
          | inr served ↦ inr (inr served)
        ])
        | inr teaches ↦ rw teaches (inr (inl (teacher-Returned v r routed h)))
      ]

  route-not_ready :
      (w : World F A)
      → 0 < config.shadow_window
      → status_eq (get_status w.session.store config.key.task_id) Status.ready ≡ false
      → status_eq (route answers config events w).0.0 Status.ready ≡ false
  unfolding route get_task_routing get_status
  route-not_ready w on quiet = ground arith

  -- The adapter has to be promoted to serve: while the task is not `ready`, and shadow mode is on, the
  -- teacher answers.
  pub wrapper-not_ready :
      (w : World F A) (v : A)
      → events.teacher ≡ ok v
      → 0 < config.shadow_window
      → status_eq (get_status w.session.store config.key.task_id) Status.ready ≡ false
      → let (r, routed) = route answers config events w in
        Returned v r routed (wrapper answers config events w).0
  unfolding wrapper
  wrapper-not_ready w v h on quiet =
      let (r, routed) = route answers config events w in
      rw (route-not_ready w on quiet) (teacher-Returned v r routed h)
