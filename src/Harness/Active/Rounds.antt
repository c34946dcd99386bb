-- ===== src/Harness/Active/Rounds.antt =====
-- paw_kit/test/active.py: a round of teacher queries, and the loop over the rounds.
use paw_toolkit.Prelude.{
  ℕ, suc, ◌+◌, ◌-◌, String, List, [], ◌∷◌, ◌++◌, Option, none, some, Bool, true, not, str_eq,
  if◌then◌else◌, length, take, is_some, lookup, ◌==◌,
}
use paw_toolkit.Jit.Outcome.{Result, ok, raised}
use paw_toolkit.Jit.Agreement.{ℤ}
use paw_toolkit.Harness.Suite.{TestSuiteConfig}
use paw_toolkit.Harness.Fuzzer.{contains}
use paw_toolkit.Harness.Assertions.{Reason}
use paw_toolkit.Harness.Runner.Report.{TestRunReport}
use paw_toolkit.Harness.Active.{
  World, Example, TeacherQueryResult, RejectedLabel, query_teacher_safely, upsert_example,
  rejected_label,
}

-- What a round of queries collects.
pub record Round : Type 0 where
  pub dataset : List Example
  pub accepted_inputs : List String
  pub teacher_errors : ℕ
  pub rejected_labels : List RejectedLabel

-- A set of texts, in the order they came: `add`, and `|=`.
abbrev pub add : String → List String → List String
add s set = if contains s set then set else set ++ (s ∷ [])

abbrev pub union : List String → List String → List String
union set [] = set
union set (s ∷ ss) = union (add s set) ss

-- `xs[:n]`
abbrev pub slice_to {ℓ} : {A : Type ℓ} → ℤ → List A → List A
slice_to (ℤ.pos n) xs = take n xs
slice_to (ℤ.negsuc n) xs = take (length xs - suc n) xs

pub data Stuck : Type 0 where
  no_falsifiable_failures no_failures teacher_errors all_labels_rejected no_new_examples : Stuck
  iterations_exhausted : Stuck

abbrev pub one_if_error : TeacherQueryResult → ℕ
one_if_error r = if is_some r.teacher_error then 1 else 0

abbrev pub with_answer : String → TeacherQueryResult → Round → Option String → Round
with_answer inp r round (some label) = record {
  dataset = upsert_example round.dataset inp label;
  accepted_inputs = add inp round.accepted_inputs;
  teacher_errors = round.teacher_errors;
  rejected_labels = round.rejected_labels;
}
with_answer inp r round none = record {
  dataset = round.dataset;
  accepted_inputs = round.accepted_inputs;
  teacher_errors = round.teacher_errors + one_if_error r;
  rejected_labels = round.rejected_labels ++ (rejected_label inp r ∷ []);
}

abbrev pub answered_with : String → TeacherQueryResult → Round → Round
answered_with inp r round = with_answer inp r round r.gold_label

-- The state of the loop between two iterations.
pub record LoopState : Type 0 where
  pub dataset : List Example
  pub iteration_reports : List TestRunReport
  pub total_repaired : ℕ
  pub rejected_labels : List RejectedLabel
  pub recompiled : Bool
  pub recompiles_performed : ℕ
  pub recompiles_skipped : ℕ
  pub stuck_reason : Option Stuck
  pub skipped_inputs : List String
  pub repaired_inputs : List String
  pub last_compiled_fingerprint : Option String
  pub recompiled_after_iteration : List Bool

abbrev pub Failing : Type 0
Failing = String × String × List (String × Reason)

-- The inputs of the failing rows, split by whether an answer key is known.
abbrev pub eligible_inputs : List (String × String) → List Failing → List String
eligible_inputs keys [] = []
eligible_inputs keys ((inp, out, reasons) ∷ rows) =
    if is_some (lookup inp keys) then inp ∷ eligible_inputs keys rows else eligible_inputs keys rows

abbrev pub unfalsifiable_inputs : List (String × String) → List Failing → List String
unfalsifiable_inputs keys [] = []
unfalsifiable_inputs keys ((inp, out, reasons) ∷ rows) =
    if is_some (lookup inp keys)
    then unfalsifiable_inputs keys rows
    else inp ∷ unfalsifiable_inputs keys rows

abbrev pub is_none_or_other : Option String → String → Bool
is_none_or_other none s = true
is_none_or_other (some t) s = not (str_eq s t)

module _ {F W : Type 0} (world : World F W) (config : TestSuiteConfig F)
    (keys : List (String × String)) where
  abbrev pub next_query :
      Result TeacherQueryResult → W → (TeacherQueryResult → Result Round × W) → Result Round × W
  next_query (ok r) w f = f r
  next_query (raised e) w f = (raised e, w)

  -- The loop over the queried inputs.
  unfoldable pub query_all : List String → Round → W → Result Round × W
  unfolding query_teacher_safely
  query_all [] round w = (ok round, w)
  query_all (inp ∷ inputs) round w =
      let queried = query_teacher_safely world config inp (lookup inp keys) w in
      next_query queried.0 queried.1 λ r. query_all inputs (answered_with inp r round) queried.1

  -- Why no new program came of a round, or nothing where one did.
  abbrev pub stuck_after : ℕ → ℕ → ℕ → Bool → Bool → Option Stuck
  stuck_after queried newly_repaired errors any_skipped needs_compile =
      if queried == 0
      then some (if any_skipped then Stuck.no_falsifiable_failures else Stuck.no_failures)
      else if newly_repaired == 0
      then some (if errors == queried then Stuck.teacher_errors else Stuck.all_labels_rejected)
      else if not needs_compile
      then some Stuck.no_new_examples
      else none
