-- ===== src/Jit/Db/Pairs/Windows.antt =====
-- Which comparisons a window of paw_kit/jit/db.py counts.
use paw_toolkit.Prelude.{
  ℕ, zero, suc, ◌+◌, ◌≤◌, String, ◌≡◌, refl, true, false, ◌&&◌, Option, map, none, some, List, [],
  ◌∷◌, arith, take, filter, count, length, str_eq_refl, if◌then◌else◌, All, ◌==◌, length-take,
}
use paw_toolkit.Jit.Db.Table.{Row, of_task, insert}
use paw_toolkit.Jit.Db.Schema.{
  Phase, Verdict, ShadowPair, Store, is_countable, agree, disagree, error,
}
use paw_toolkit.Jit.Outcome.{Result, ok, raised}
use paw_toolkit.Jit.Db.Pairs.{
  Stats, max_seq, get_epoch_seq, record_shadow_pair_txn, is_of, counts, has_verdict,
  newest_countable, count_teacher_errors, get_agreement_stats,
}

module _ {F : Type 0} where
  -- Every countable comparison agrees, disagrees or is an error.
  count-countable :
      (rows : List (Row (ShadowPair F)))
      → All (λ r. counts r ≡ true) rows
      → count (has_verdict agree) rows
          + count (has_verdict disagree) rows
          + count (has_verdict error) rows
        ≡ length rows
  count-countable [] h = omega arith
  count-countable (r ∷ rs) h = ground (arith, count-countable rs h.1)

  All-filter :
      (epoch : ℕ) (phase : Phase) (rows : List (Row (ShadowPair F)))
      → All (λ r. counts r ≡ true) (filter (λ r. is_of epoch phase r && counts r) rows)
  All-filter epoch phase [] = tt
  All-filter epoch phase (r ∷ rs) = ground (arith, All-filter epoch phase rs)

  All-take :
      (n : ℕ) (rows : List (Row (ShadowPair F)))
      → All (λ r. counts r ≡ true) rows
      → All (λ r. counts r ≡ true) (take n rows)
  All-take zero rows h = tt
  All-take (suc n) [] h = tt
  All-take (suc n) (r ∷ rs) h = (h.0, All-take n rs h.1)

  newest-countable :
      (task : String) (epoch window : ℕ) (phase : Phase) (s : Store F)
      → All (λ r. counts r ≡ true) (newest_countable task epoch window phase s)
  unfolding newest_countable
  newest-countable task epoch window phase s = All-take window _ (All-filter epoch phase _)

  length-newest :
      (task : String) (epoch window : ℕ) (phase : Phase) (s : Store F)
      → length (newest_countable task epoch window phase s) ≤ window
  unfolding newest_countable
  length-newest task epoch window phase s = omega (
    arith,
    length-take window
        (filter (λ r. is_of epoch phase r && counts r) (of_task task s.shadow_pairs.rows)),
  )

  -- The counts that `get_agreement_stats` returns are those of the newest countable comparisons, each by its verdict:
  -- they add up to the samples, which are as many as there are such comparisons, the window at most; the
  -- rate is the agreements over the samples, and there is none over no samples.
  pub stats_lem :
      (quotient : ℕ → ℕ → F) (task : String) (epoch window : ℕ) (phase : Phase) (s : Store F)
      (st : Stats F)
      → get_agreement_stats quotient task epoch window phase s ≡ ok st
      → let rows = newest_countable task epoch window phase s in
        (st.agreed ≡ count (has_verdict agree) rows)
        × (st.disagreed ≡ count (has_verdict disagree) rows)
        × (st.errors ≡ count (has_verdict error) rows)
        × (st.samples ≡ length rows)
        × (st.samples ≤ window)
        × (st.agreed + st.disagreed + st.errors ≡ st.samples)
        × (st.rate ≡ (if st.samples == 0 then none else some (quotient st.agreed st.samples)))
  unfolding get_agreement_stats
  stats_lem quotient task epoch window phase s st h = ground (
    arith,
    count-countable (newest_countable task epoch window phase s)
        (newest-countable task epoch window phase s),
    length-newest task epoch window phase s,
  )

  -- What a decision about a transition reads: the rate, the samples and the sequence number.
  abbrev pub figures : Result (Stats F) → Option (Option F × ℕ × ℕ)
  figures (ok st) = some (st.rate, st.samples, st.seq)
  figures (raised e) = none

module _ {F : Type 0} (task : String) (epoch : ℕ) (phase : Phase) (input : String)
    (teacher adapter : Option String) (verdict : Verdict) (error_type : Option String)
    (t_ms a_ms : Option F) (now : ℕ) (s : Store F) where
  abbrev result : ℕ × Store F
  result =
      record_shadow_pair_txn task epoch phase input teacher adapter verdict error_type t_ms a_ms now
        s

  -- A countable comparison gets the number after the last one at its epoch, and is the last one from
  -- then on. A teacher error, or an exhausted pool, gets the number 0 and moves nothing. Neither
  -- touches another epoch.
  pub record_shadow_pair-seq :
      (other : ℕ)
      → (result.0 ≡ (if is_countable verdict then get_epoch_seq task epoch s + 1 else 0))
        × (get_epoch_seq task other result.1 ≡ (
            if is_countable verdict && epoch == other
            then get_epoch_seq task other s + 1
            else get_epoch_seq task other s))
  unfolding record_shadow_pair_txn get_epoch_seq max_seq of_task insert
  record_shadow_pair-seq other = ground (arith, str_eq_refl task)

  newest-ne :
      (other window : ℕ) (p : Phase)
      → (epoch == other && is_countable verdict) ≡ false
      → newest_countable task other window p result.1 ≡ newest_countable task other window p s
  unfolding record_shadow_pair_txn newest_countable of_task insert
  newest-ne other window p h = ground (arith, str_eq_refl task)

  errors-ne :
      (other : ℕ) (p : Phase) (boundary : Option ℕ)
      → (epoch == other) ≡ false
      → count_teacher_errors task other p boundary result.1
        ≡ count_teacher_errors task other p boundary s
  unfolding record_shadow_pair_txn count_teacher_errors of_task insert
  errors-ne other p none h = refl
  errors-ne other p (some b) h = ground (arith, str_eq_refl task)

  -- A comparison at one epoch changes no figure of another epoch: what was in flight across a
  -- transition does not count.
  pub record_shadow_pair-stats_ne :
      (quotient : ℕ → ℕ → F) (other window : ℕ) (p : Phase)
      → (epoch == other) ≡ false
      → get_agreement_stats quotient task other window p result.1
        ≡ get_agreement_stats quotient task other window p s
  unfolding get_agreement_stats
  record_shadow_pair-stats_ne quotient other window p h =
      let seq : get_epoch_seq task other result.1 ≡ get_epoch_seq task other s =
        ground (arith, record_shadow_pair-seq other) in
      simp (newest-ne other window p (ground arith), errors-ne other p _ h, seq)

  -- A teacher error or an exhausted pool changes neither the rate nor the samples nor the sequence
  -- number, of any epoch and phase.
  pub record_shadow_pair-excluded :
      (quotient : ℕ → ℕ → F) (other window : ℕ) (p : Phase)
      → is_countable verdict ≡ false
      → figures (get_agreement_stats quotient task other window p result.1)
        ≡ figures (get_agreement_stats quotient task other window p s)
  unfolding get_agreement_stats
  record_shadow_pair-excluded quotient other window p h =
      let seq : get_epoch_seq task other result.1 ≡ get_epoch_seq task other s =
        ground (arith, record_shadow_pair-seq other) in
      simp (newest-ne other window p (ground arith), seq) (ground arith)

  -- A countable comparison enters the window of its epoch and phase in front.
  pub record_shadow_pair-newest :
      (window : ℕ)
      → is_countable verdict ≡ true
      → map (λ r. r.value.verdict) (newest_countable task epoch (suc window) phase result.1)
        ≡ verdict ∷ map (λ r. r.value.verdict) (newest_countable task epoch window phase s)
  unfolding record_shadow_pair_txn newest_countable of_task insert
  record_shadow_pair-newest window h = ground (arith, str_eq_refl task)
