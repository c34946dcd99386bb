-- ===== src/Harness/Judge/Diff.antt =====
-- paw_kit/test/judge.py: `diff_verdicts`, which compares two runs of a judge by case and occurrence.
use paw_toolkit.Prelude.{
  ℕ, ◌+◌, max, String, List, [], ◌∷◌, ◌++◌, Option, none, some, Bool, ◌&&◌, not, str_eq,
  if◌then◌else◌, ◌==◌, length, filter, is_some, get_or, take, lookup, upsert,
}
use paw_toolkit.Jit.Outcome.{Result}
use paw_toolkit.Jit.Agreement.{ℤ, bool_eq}
use paw_toolkit.Harness.Reporting.{ScoredRate, scored_denominator}
use paw_toolkit.Harness.Judge.{JudgeVerdict, JudgeReport}

-- A case, and which of its occurrences.
abbrev pub CaseKey : Type 0
CaseKey = String × ℕ

abbrev pub same_case : CaseKey → CaseKey → Bool
same_case (a, m) (b, n) = str_eq a b && (m == n)

abbrev pub Indexed : Type 0
Indexed = List (CaseKey × JudgeVerdict)

-- `indexed[key] = verdict`
unfoldable pub put : CaseKey → JudgeVerdict → Indexed → Indexed
put k v [] = (k, v) ∷ []
put k v ((j, w) ∷ m) = if same_case j k then (j, v) ∷ m else (j, w) ∷ put k v m

unfoldable pub find_case : CaseKey → Indexed → Option JudgeVerdict
find_case k [] = none
find_case k ((j, w) ∷ m) = if same_case j k then some w else find_case k m

abbrev pub occurrence : String → List (String × ℕ) → ℕ
occurrence id seen = get_or (lookup id seen) 0

unfoldable pub index_verdicts : List JudgeVerdict → List (String × ℕ) → Indexed → Indexed
unfolding put upsert
index_verdicts [] seen indexed = indexed
index_verdicts (v ∷ vs) seen indexed =
    let index = occurrence v.case_id seen in
    index_verdicts vs (upsert v.case_id (index + 1) (λ _. index + 1) seen)
      (put (v.case_id, index) v indexed)

unfoldable pub verdicts_by_key : JudgeReport → Indexed
unfolding index_verdicts
verdicts_by_key r = index_verdicts r.verdicts [] []

pub record VerdictFlip : Type 0 where
  pub case_id : String
  pub input : String
  pub output : String
  pub old_verdict : Bool
  pub new_verdict : Bool
  pub old_reason : String
  pub new_reason : String

pub record VerdictDiffReport : Type 0 where
  pub old_judge_id : String
  pub new_judge_id : String
  pub compared_cases : ℕ
  pub flipped_count : ℕ
  pub flips : List VerdictFlip
  pub old_total : ℕ
  pub new_total : ℕ
  pub old_only_count : ℕ
  pub new_only_count : ℕ
  pub old_only_ids : List String
  pub new_only_ids : List String

abbrev pub is_in : Indexed → CaseKey × JudgeVerdict → Bool
is_in m (k, v) = is_some (find_case k m)

abbrev pub flip_of : String → JudgeVerdict → Option JudgeVerdict → List VerdictFlip
flip_of id o none = []
flip_of id o (some n) =
    if bool_eq o.verdict n.verdict
    then []
    else record {
      case_id = id;
      input = o.input;
      output = o.output;
      old_verdict = o.verdict;
      new_verdict = n.verdict;
      old_reason = o.reason;
      new_reason = n.reason;
    }
      ∷ []

unfoldable pub flips_of : Indexed → Indexed → List VerdictFlip
unfolding find_case
flips_of [] new = []
flips_of (((id, i), o) ∷ common) new = flip_of id o (find_case (id, i) new) ++ flips_of common new

abbrev pub ids : Indexed → List String
ids [] = []
ids (((id, i), v) ∷ m) = id ∷ ids m

unfoldable pub diff_verdicts : JudgeReport → JudgeReport → VerdictDiffReport
unfolding verdicts_by_key flips_of find_case
diff_verdicts old new =
    let old_by_key = verdicts_by_key old in
    let new_by_key = verdicts_by_key new in
    let common = filter (is_in new_by_key) old_by_key in
    let old_only = filter (λ e. not (is_in new_by_key e)) old_by_key in
    let flips = flips_of common new_by_key in
    let new_only = filter (λ e. not (is_in old_by_key e)) new_by_key in
    record {
      old_judge_id = old.judge_id;
      new_judge_id = new.judge_id;
      compared_cases = length common;
      flipped_count = length flips;
      flips = flips;
      old_total = length old.verdicts;
      new_total = length new.verdicts;
      old_only_count = length old_only;
      new_only_count = length new_only;
      old_only_ids = ids (take 10 old_only);
      new_only_ids = ids (take 10 new_only);
    }

unfoldable pub comparison_denominator : VerdictDiffReport → Result ScoredRate
unfolding scored_denominator
comparison_denominator r =
    scored_denominator (ℤ.pos (max r.old_total r.new_total)) (ℤ.pos r.compared_cases)
      (("in the old run only", ℤ.pos r.old_only_count)
        ∷ ("in the new run only", ℤ.pos r.new_only_count)
        ∷ [])
      "flip"
