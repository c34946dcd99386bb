-- ===== src/Tests/Windows.antt =====
-- Runs on the comparisons of paw_kit/jit/db.py and the shadow worker of paw_kit/jit/shadow.py.
use paw_toolkit.Prelude.{
  ℕ, count, ◌+◌, ◌*◌, ◌/◌, ◌≤◌, String, ◌≡◌, refl, true, false, none, some, [], ◌∷◌, arith, length,
  if◌then◌else◌, ltb, leb, ◌==◌, ◌⊎◌, ◌↔◌,
}
use paw_toolkit.Jit.Outcome.{ok}
use paw_toolkit.Jit.Db.Schema.{Status, Phase, Verdict, Store, new_task, agree, teacher_error}
use paw_toolkit.Jit.Db.Op.{Op}
use paw_toolkit.Jit.Db.Pairs.{
  Stats, get_epoch_seq, record_shadow_pair_txn, newest_countable, get_agreement_stats, has_verdict,
}
use paw_toolkit.Jit.Db.Pairs.Windows.{stats_lem}
use paw_toolkit.Jit.Db.Pairs.Report.{is_stalled}
use paw_toolkit.Jit.Db.Ops.{run, prune_shadow_pairs}
use paw_toolkit.Jit.Db.Ops.Outage.{outage-resets_seq}
use paw_toolkit.Jit.Db.Connection.{Session, note_shadow_pair}
use paw_toolkit.Jit.Db.Table.{insert, of_task}
use paw_toolkit.Jit.Db.Session.{record_shadow_pair}
use paw_toolkit.Jit.Db.Session.Retention.{IsBounded, record_shadow_pair-IsBounded}
use paw_toolkit.Jit.Shadow.{Floats, Answers, ShadowJob, Runner, idle, compare, plain}
use paw_toolkit.Jit.Shadow.Judge.{judge}
use paw_toolkit.Jit.Shadow.Judge.Blame.{Agreed, teacher_side, adapter_side, judge-agree}
use paw_toolkit.Jit.Shadow.Transitions.{maybe_transition}
use paw_toolkit.Jit.Shadow.Transitions.Windows.{
  Measured, crosses, maybe_transition-crosses, maybe_transition-tumbles,
}
use paw_toolkit.Tests.Tables.{store_of, contended}

-- Parts in a thousand for floats.
abbrev pub permille : Floats
permille = record { Float = ℕ; quotient = λ a b. a * 1000 / b; leb = leb; ltb = ltb }

abbrev pub texts : Answers ℕ
texts = record { shape = λ _. plain; stringify_answer = λ _. ok "n" }

abbrev pub job : Phase → ShadowJob ℕ ℕ
job phase = record {
  key = record { db_path = "traces.db"; task_id = "t" };
  kind = compare;
  state_epoch = 3;
  phase = phase;
  input_payload = "in";
  teacher_output = some "n";
  teacher_latency_ms = some 4;
  adapter_output = none;
  adapter_latency_ms = none;
  raw_teacher = 7;
  raw_adapter = 7;
  response_model = none;
  agreement_fn = λ a b. ok (a == b);
  redact_fn = none;
  shadow_window = 2;
  audit_window = 2;
  shadow_threshold = 900;
  demote_threshold = 700;
  max_pairs = 100;
  queue_size = 2;
}

abbrev pair : Verdict → ℕ → Store ℕ → Store ℕ
pair verdict now s =
    (record_shadow_pair_txn "t" 3 Phase.shadow "in" (some "n") (some "n") verdict none none none now
      s).1

abbrev bare : Store ℕ
bare =
    store_of
      (record (new_task 1) { status = Status.shadow; adapter_path = some "t.paw"; state_epoch = 3 })

-- Two comparisons that agree.
abbrev full : Store ℕ
full = pair agree 6 (pair agree 5 bare)

abbrev session : Session ℕ
session = contended [] full

abbrev counted : Stats ℕ
counted = record {
  samples = 2;
  agreed = 2;
  disagreed = 0;
  errors = 0;
  teacher_errors = 0;
  rate = some 1000;
  seq = 2;
}

stats_lem_example :
    let rows = newest_countable "t" 3 2 Phase.shadow full in
    (counted.agreed ≡ count (has_verdict agree) rows)
    × (counted.disagreed ≡ count (has_verdict Verdict.disagree) rows)
    × (counted.errors ≡ count (has_verdict Verdict.error) rows)
    × (counted.samples ≡ length rows)
    × (counted.samples ≤ 2)
    × (counted.agreed + counted.disagreed + counted.errors ≡ counted.samples)
    × (counted.rate ≡ (
        if counted.samples == 0
        then none
        else some (permille.quotient counted.agreed counted.samples)))
unfolding get_agreement_stats record_shadow_pair_txn insert
stats_lem_example = stats_lem permille.quotient "t" 3 2 Phase.shadow full counted refl

abbrev failing : String × ℕ × Op ℕ
failing = ("t", 8, Op.record_shadow_pair 3 Phase.shadow "in" none none teacher_error none none none)

outage-resets_seq_example :
    get_epoch_seq "t" 3 (prune_shadow_pairs "t" 2 (run (failing ∷ failing ∷ []) full)) ≡ 0
unfolding record_shadow_pair_txn insert
outage-resets_seq_example =
    outage-resets_seq "t" 1 3 (failing ∷ failing ∷ []) full (omega arith, (omega arith, tt)) refl
      (refl, (refl, tt))

record_shadow_pair-IsBounded_example :
    IsBounded "t" 1
      (record_shadow_pair "t" 3 Phase.shadow "in" none none agree none none none 1 9
        (contended [] bare)).1
unfolding record_shadow_pair record_shadow_pair_txn insert of_task note_shadow_pair
record_shadow_pair-IsBounded_example =
    record_shadow_pair-IsBounded "t" 3 Phase.shadow "in" none none agree none none none 9 0
      (contended [] bare) 1 refl (record { ordered = tt; within = omega arith })

judge-agree_example :
    ((judge texts (job Phase.shadow) (ok 7)).0 ≡ Verdict.agree)
    ↔ Agreed
        (λ a b. ok (a == b))
        (teacher_side texts (job Phase.shadow) (ok 7))
        (adapter_side texts (job Phase.shadow) (ok 7))
judge-agree_example = judge-agree texts (job Phase.shadow) (ok 7)

abbrev fresh : Runner ℕ ℕ
fresh = idle

maybe_transition-crosses_example :
    ((maybe_transition permille (job Phase.shadow) 2 7 fresh session).1 ≡ session)
    ⊎ ((is_stalled Phase.shadow 2 2 ≡ false)
        × ((rate : ℕ) × Measured permille (job Phase.shadow) session rate
            × (crosses permille (job Phase.shadow) rate ≡ true)))
maybe_transition-crosses_example =
    maybe_transition-crosses permille (job Phase.shadow) 2 7 fresh session

maybe_transition-tumbles_example :
    maybe_transition permille
      (job Phase.shadow)
      3
      9
      (maybe_transition permille (job Phase.shadow) 2 7 fresh session).0
      session
    ≡ ((maybe_transition permille (job Phase.shadow) 2 7 fresh session).0, session)
unfolding maybe_transition get_agreement_stats record_shadow_pair_txn insert
maybe_transition-tumbles_example =
    maybe_transition-tumbles permille (job Phase.shadow) 2 3 7 9 1000 fresh session session
      (omega arith, omega arith, refl) (counted, refl, refl, refl) (omega arith)
