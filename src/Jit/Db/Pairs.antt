-- ===== src/Jit/Db/Pairs.antt =====
-- `shadow_pairs` in paw_kit/jit/db.py: recording a comparison, its sequence number, the counts over a
-- window, and the report of a task.
pub mod Windows
pub mod Report
use paw_toolkit.Prelude.{
  ℕ, suc, ◌+◌, ◌*◌, String, Bool, true, false, ◌&&◌, ◌||◌, Option, none, some, List, [], ◌∷◌, ltb,
  leb, ◌==◌, max, take, filter, count, if◌then◌else◌,
}
use paw_toolkit.Jit.Outcome.{Result, ok, raised, value_error}
use paw_toolkit.Jit.Db.Table
use paw_toolkit.Jit.Db.Table.{Row, Table, of_task, min_id}
use paw_toolkit.Jit.Db.Schema.{
  Phase, Verdict, ShadowPair, Store, phase_eq, verdict_eq, is_countable, agree, disagree, error,
  teacher_error,
}

pub record Stats (F : Type 0) : Type 0 where
  pub samples : ℕ
  pub agreed : ℕ
  pub disagreed : ℕ
  pub errors : ℕ
  pub teacher_errors : ℕ
  pub rate : Option F
  pub seq : ℕ

module _ {F : Type 0} where
  -- `SELECT COALESCE(MAX(seq), 0) … WHERE state_epoch = ?`
  unfoldable pub max_seq : ℕ → List (Row (ShadowPair F)) → ℕ
  max_seq epoch [] = 0
  max_seq epoch (r ∷ rs) =
      if r.value.state_epoch == epoch then max r.value.seq (max_seq epoch rs) else max_seq epoch rs

  unfoldable pub get_epoch_seq : String → ℕ → Store F → ℕ
  unfolding max_seq of_task
  get_epoch_seq task epoch s = max_seq epoch (of_task task s.shadow_pairs.rows)

  unfoldable pub record_shadow_pair_txn :
      String
      → ℕ
      → Phase
      → String
      → Option String
      → Option String
      → Verdict
      → Option String
      → Option F
      → Option F
      → ℕ
      → Store F
      → ℕ × Store F
  unfolding get_epoch_seq
  record_shadow_pair_txn task epoch phase input teacher adapter verdict error_type teacher_ms
        adapter_ms now s =
      let seq : ℕ = if is_countable verdict then get_epoch_seq task epoch s + 1 else 0 in
      (
        seq,
        record s {
          shadow_pairs =
              Table.insert task
                (record {
                  state_epoch = epoch;
                  seq = seq;
                  phase = phase;
                  input_payload = input;
                  teacher_output = teacher;
                  adapter_output = adapter;
                  verdict = verdict;
                  error_type = error_type;
                  teacher_latency_ms = teacher_ms;
                  adapter_latency_ms = adapter_ms;
                  timestamp = now;
                })
                s.shadow_pairs;
        },
      )

  -- `WHERE task_id = ? AND state_epoch = ? AND phase = ?`
  abbrev pub is_of : ℕ → Phase → Row (ShadowPair F) → Bool
  is_of epoch phase r = r.value.state_epoch == epoch && phase_eq r.value.phase phase

  abbrev pub counts : Row (ShadowPair F) → Bool
  counts r = is_countable r.value.verdict

  abbrev pub has_verdict : Verdict → Row (ShadowPair F) → Bool
  has_verdict v r = verdict_eq r.value.verdict v

  -- The subquery: the newest `window` countable comparisons at this epoch.
  unfoldable pub newest_countable : String → ℕ → ℕ → Phase → Store F → List (Row (ShadowPair F))
  unfolding of_task
  newest_countable task epoch window phase s =
      take window (filter (λ r. is_of epoch phase r && counts r) (of_task task s.shadow_pairs.rows))

  -- The teacher errors that are at least as recent as the oldest countable comparison of the window.
  unfoldable pub count_teacher_errors : String → ℕ → Phase → Option ℕ → Store F → ℕ
  unfolding of_task
  count_teacher_errors task epoch phase none s = 0
  count_teacher_errors task epoch phase (some boundary) s =
      count (λ r. (is_of epoch phase r && has_verdict teacher_error r) && leb boundary r.id)
        (of_task task s.shadow_pairs.rows)

  -- `agree / samples`, for a division `quotient` of the integers into the floats.
  abbrev pub rate_of : (ℕ → ℕ → F) → ℕ → ℕ → Option F
  rate_of quotient agreed samples = if samples == 0 then none else some (quotient agreed samples)

  unfoldable pub get_agreement_stats :
      (ℕ → ℕ → F) → String → ℕ → ℕ → Phase → Store F → Result (Stats F)
  unfolding newest_countable count_teacher_errors min_id get_epoch_seq
  get_agreement_stats quotient task epoch window phase s =
      let rows = newest_countable task epoch window phase s in
      let teacher_errors = count_teacher_errors task epoch phase (min_id rows) s in
      let seq = get_epoch_seq task epoch s in
      let agreed = count (has_verdict agree) rows in
      let disagreed = count (has_verdict disagree) rows in
      let errors = count (has_verdict error) rows in
      let samples : ℕ = agreed + disagreed + errors in
      if (ltb 0 window && leb window seq) && ltb samples window
      then raised value_error
      else ok (record {
        samples = samples;
        agreed = agreed;
        disagreed = disagreed;
        errors = errors;
        teacher_errors = teacher_errors;
        rate = rate_of quotient agreed samples;
        seq = seq;
      })

  -- `get_recent_disagreements`: newest first.
  unfoldable pub get_recent_disagreements : String → ℕ → Store F → List (Row (ShadowPair F))
  unfolding of_task
  get_recent_disagreements task limit s = take limit (
      filter (λ r. has_verdict disagree r || has_verdict error r)
        (of_task task s.shadow_pairs.rows))
